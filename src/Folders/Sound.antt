-- ===== src/Folders/Sound.antt =====
-- Each operation of app/services/folders_service.py keeps its tables well formed.
use mathlib.Core.Path.{subst}
use mathlib.Core.Option
use mimir_backend.Prelude.{
  ◌+◌, String, true, not, List, Option, none, some, ◌≡◌, sym, ap, ◌∙◌, leb, ltb, eq_iff, Text,
}
use mimir_backend.Prelude.Raises.{
  ok, ◌>>=◌, require, found, found-ok, required, returned, ok-injective,
}
use mimir_backend.Folders.FolderPath.{
  not_found, too_deep, not_empty, normalize_name, compute_child_path,
}
use mimir_backend.Folders.Store.{
  Folder, DocumentFolder, Tables, create, rename, move, get_by_id, delete_if_empty,
  folder_path_max_depth,
}
use mimir_backend.Folders.Service.{
  Actor, require_actor, folders_of, parent_of, path_of, depth_below, create_folder, get_folder,
  rename_folder, new_parent_of, subtree_depth, move_folder, delete_folder, get_document,
  viewer_scope_profile_ids, set_document_folder,
}
use mimir_backend.Folders.Prefix.{is_plain}
use mimir_backend.Prelude.Rows.{Row}
use mimir_backend.Folders.Tree.{IsTree, get_by_id-Row, one-Row, clash_id}
use mimir_backend.Folders.Renamed.{rename-IsTree, rename-ids}
use mimir_backend.Folders.Moved.{move-IsTree, move-ids}
use mimir_backend.Folders.Created.{normalize_name-no_slash, create-IsTree, without-IsTree}
use mimir_backend.Folders.Filed.{HasId, delete_if_empty_inv, still_there, set_folder-HasId}

-- The folders are a tree, and each placement of a document is in a folder that is there.
pub record IsSound (t : Tables) : Type 0 where
  pub tree : IsTree t.folders
  pub filed : (d : DocumentFolder) → Row d t.document_folder → HasId d.folder_id t.folders

pub create_folder-IsSound :
    (t : Tables) (actor : Actor) (new_id : String) (parent_id : Option String) (raw : Text)
    → IsSound t
    → {u : Tables} → create_folder t actor new_id parent_id raw ≡ ok u
    → IsSound u
unfolding create_folder
create_folder-IsSound t actor new_id parent_id raw s h =
    let (owner_id, _, h1) = returned (require_actor actor) _ h in
    let (name, named, h2) = returned (normalize_name raw) _ h1 in
    let (parent, above, h3) = returned (parent_of t.folders owner_id parent_id) _ h2 in
    let (path, checked, h4) =
      returned
        (require (not (ltb folder_path_max_depth (depth_below parent))) too_deep
          (compute_child_path (path_of parent) name))
        _ h3 in
    let (fs, made, last) = returned (create t.folders _) _ h4 in
    let (_, child_path) =
      required (not (ltb folder_path_max_depth (depth_below parent))) too_deep _ checked in
    let (tree, older) =
      create-IsTree t.folders owner_id new_id parent_id name path parent s.tree
        (normalize_name-no_slash raw named) above child_path made in
    subst IsSound (ok-injective last) (record {
      tree = tree;
      filed = λ d at. let (f, at_f, e) = s.filed d at in (f, older f at_f, e);
    })

kept :
    (t : Tables) (fs : List Folder)
    → IsSound t
    → IsTree fs
    → ((f : Folder) → Row f t.folders → (f' : Folder) × Row f' fs × (f'.id ≡ f.id))
    → IsSound (folders_of t fs)
kept t fs s tree ids = record {
  tree = tree;
  filed = λ d at.
      let (f, at_f, e) = s.filed d at in let (f', at', e') = ids f at_f in (f', at', e' ∙ e);
}

the_found :
    (fs : List Folder) (folder_id : String) (k f : Folder)
    → found (get_by_id fs folder_id none) not_found ≡ ok k
    → get_by_id fs folder_id none ≡ some f
    → k ≡ f
the_found fs folder_id k f h i =
    Option.some-injective k f (sym (found-ok (get_by_id fs folder_id none) not_found h) ∙ i)

-- The folder of the actor.
get_folder-Row :
    (t : Tables) (actor : Actor) (folder_id owner_id : String) {f : Folder}
    → require_actor actor ≡ ok owner_id
    → get_folder t actor folder_id ≡ ok f
    → Row f t.folders × (f.id ≡ folder_id) × (f.owner_id ≡ owner_id)
unfolding get_folder
get_folder-Row t actor folder_id owner_id {f} who h =
    let got : found (get_by_id t.folders folder_id (some owner_id)) not_found ≡ ok f =
      sym (ap (◌>>= (λ (o : String). found (get_by_id t.folders folder_id (some o)) not_found)) who)
      ∙ h in
    let (at, e, o) =
      get_by_id-Row t.folders folder_id (some owner_id) f
        (found-ok (get_by_id t.folders folder_id (some owner_id)) not_found got) in
    (at, e, (eq_iff f.owner_id owner_id).0 o)

pub rename_folder-IsSound :
    (t : Tables) (actor : Actor) (folder_id : String) (raw : Text) (current : Folder)
    → IsSound t
    → get_by_id t.folders folder_id none ≡ some current
    → is_plain current.path ≡ true
    → {u : Tables} → rename_folder t actor folder_id raw ≡ ok u
    → IsSound u
unfolding rename_folder
rename_folder-IsSound t actor folder_id raw current s i plain h =
    let (_, _, h1) = returned (get_folder t actor folder_id) _ h in
    let (name, named, h2) = returned (normalize_name raw) _ h1 in
    let (k, got, h3) = returned (found (get_by_id t.folders folder_id none) not_found) _ h2 in
    let (fs, done, last) = returned (rename t.folders k name) _ h3 in
    let same = the_found t.folders folder_id k current got i in
    let done' = subst (λ (f : Folder). rename t.folders f name ≡ ok fs) same done in
    let (at, _, _) = get_by_id-Row t.folders folder_id none current i in
    subst IsSound (ok-injective last) (
      kept t fs s
        (rename-IsTree t.folders current name s.tree at plain (normalize_name-no_slash raw named)
          done')
        (rename-ids t.folders current name done'))

pub move_folder-IsSound :
    (t : Tables) (actor : Actor) (folder_id : String) (new_parent_id : Option String)
    (current : Folder)
    → IsSound t
    → get_by_id t.folders folder_id none ≡ some current
    → is_plain current.path ≡ true
    → {u : Tables} → move_folder t actor folder_id new_parent_id ≡ ok u
    → IsSound u
unfolding move_folder
move_folder-IsSound t actor folder_id new_parent_id current s i plain h =
    let (owner_id, who, h1) = returned (require_actor actor) _ h in
    let (owned, mine, h2) = returned (get_folder t actor folder_id) _ h1 in
    let (new_parent, above, h3) =
      returned (new_parent_of t.folders owner_id folder_id new_parent_id) _ h2 in
    let (k, checked, h4) =
      returned
        (require
          (leb (subtree_depth t.folders owner_id owned + depth_below new_parent)
            (folder_path_max_depth + owned.depth))
          too_deep (found (get_by_id t.folders folder_id none) not_found))
        _ h3 in
    let (fs, done, last) =
      returned (move t.folders k new_parent_id (path_of new_parent) (depth_below new_parent)) _
        h4 in
    let (_, got) =
      required
        (leb (subtree_depth t.folders owner_id owned + depth_below new_parent)
          (folder_path_max_depth + owned.depth))
        too_deep _ checked in
    let same = the_found t.folders folder_id k current got i in
    let done' =
      subst
        (λ (f : Folder).
          move t.folders f new_parent_id (path_of new_parent) (depth_below new_parent) ≡ ok fs)
        same done in
    let (at, e, _) = get_by_id-Row t.folders folder_id none current i in
    let (at_owned, e_owned, o) = get_folder-Row t actor folder_id owner_id who mine in
    let one =
      one-Row t.folders current owned s.tree.distinct at at_owned
        (clash_id current owned (e ∙ sym e_owned)) in
    subst IsSound (ok-injective last) (
      kept t fs s
        (move-IsTree t.folders owner_id folder_id new_parent_id current new_parent s.tree at plain e
          (ap (λ (f : Folder). f.owner_id) one ∙ o) above done')
        (move-ids t.folders current new_parent_id (path_of new_parent) (depth_below new_parent)
          done'))

pub delete_folder-IsSound :
    (t : Tables) (actor : Actor) (folder_id : String)
    → IsSound t
    → {u : Tables} → delete_folder t actor folder_id ≡ ok u
    → IsSound u
unfolding delete_folder
delete_folder-IsSound t actor folder_id s h =
    let (_, _, h1) = returned (get_folder t actor folder_id) _ h in
    let (gone, last) = required (delete_if_empty t folder_id).1 not_empty _ h1 in
    let (left, childless, unfiled) = delete_if_empty_inv t folder_id gone in
    subst IsSound (ap (folders_of t) (sym left) ∙ ok-injective last) (record {
      tree = without-IsTree t.folders folder_id s.tree childless;
      filed = λ d at. still_there t folder_id unfiled d at (s.filed d at);
    })

pub set_document_folder-IsSound :
    (t : Tables) (actor : Actor) (document_id : String) (folder_id : Option String)
    → IsSound t
    → {u : Tables} → set_document_folder t actor document_id folder_id ≡ ok u
    → IsSound u
unfolding set_document_folder
set_document_folder-IsSound t actor document_id folder_id s h =
    let (owner_id, _, h1) = returned (require_actor actor) _ h in
    let (_, _, h2) =
      returned
        (found (get_document t.documents document_id (viewer_scope_profile_ids actor)) not_found) _
        h1 in
    let (parent, above, last) = returned (parent_of t.folders owner_id folder_id) _ h2 in
    subst IsSound (ok-injective last) (record {
      tree = s.tree;
      filed = λ d at. set_folder-HasId t owner_id document_id folder_id parent s.filed above d at;
    })
