-- ===== src/Folders/Moved.antt =====
-- `move` of app/repositories/folders_repository.py, after the checks of `move_folder` of
-- app/services/folders_service.py, keeps the tree of folders.
use mathlib.Core.Option
use mimir_backend.Prelude.{
  ℕ, ◌+◌, String, Bool, true, false, not, ◌&&◌, List, [], ◌∷◌, ◌++◌, Option, none, some, ◌≡◌, ◌≢◌,
  refl, sym, ap, ◌∙◌, inl, inr, arith, Bool-cases, if◌then◌else◌, find?, str_eq, eq_iff, eq_refl,
  Text,
}
use mimir_backend.Prelude.Raises.{
  Result, ok, err, found, found-ok, required, returned, ok-injective,
}
use mimir_backend.Folders.FolderPath.{
  FolderError, assertion, cyclic, self_parent, not_found, safe_name, starts_with, ends_with_slash,
  compute_child_path,
}
use mimir_backend.Folders.Store.{
  Folder, Tables, unique, relocate, move, get_by_id, is_descendant, descends,
}
use mimir_backend.Folders.Service.{
  Actor, get_folder, move_folder, new_parent_of, path_of, depth_below,
}
use mimir_backend.Folders.Prefix.{
  slash_end, is_plain, safe_name_lem, starts_with-append, starts_with_refl,
}
use mimir_backend.Prelude.Rows.{Row, here, there}
use mimir_backend.Folders.Tree.{root, child, IsTree, one-Row, clash_id, get_by_id-Row}
use mimir_backend.Folders.Carried.{NewPlace, top, into}
use mimir_backend.Folders.Renamed.{relocate-IsTree, relocate-ids}

-- A row that passes a test is there to be found.
find?-Row-some :
    {A : Type 0} (p : A → Bool) (fs : List A) (f : A)
    → Row f fs
    → p f ≡ true
    → (g : A) × (find? p fs ≡ some g)
find?-Row-some p [] f at h = elim at [ ]
find?-Row-some p (g ∷ fs) f here h = (g, rw h refl)
find?-Row-some p (g ∷ fs) f (there at) h = elim (Bool-cases (p g)) [
  | inl e ↦ (g, rw e refl)
  | inr e ↦ let (k, found_it) = find?-Row-some p fs f at h in (k, rw e found_it)
]

-- A row is found by its id.
pub get_by_id_self :
    (fs : List Folder) (f : Folder) → unique fs ≡ true → Row f fs → get_by_id fs f.id none ≡ some f
unfolding get_by_id
get_by_id_self fs f u at =
    let (g, e) = find?-Row-some (λ k. str_eq k.id f.id && true) fs f at (rw (eq_refl f.id) refl) in
    let (at_g, same, _) = get_by_id-Row fs f.id none g e in
    e ∙ ap (λ (k : Folder). some k) (one-Row fs g f u at_g at (clash_id g f same))

get_by_id-own :
    (fs : List Folder) (f : Folder)
    → unique fs ≡ true
    → Row f fs
    → get_by_id fs f.id (some f.owner_id) ≡ some f
unfolding get_by_id
get_by_id-own fs f u at =
    let (g, e) =
      find?-Row-some (λ k. str_eq k.id f.id && str_eq k.owner_id f.owner_id) fs f at
        (rw (eq_refl f.id, eq_refl f.owner_id) refl) in
    let (at_g, same, _) = get_by_id-Row fs f.id (some f.owner_id) g e in
    e ∙ ap (λ (k : Folder). some k) (one-Row fs g f u at_g at (clash_id g f same))

descends_apart :
    (f g : Folder)
    → f.owner_id ≡ g.owner_id
    → not (descends (some f) (some g)) ≡ true
    → starts_with f.path g.path ≡ false
descends_apart f g e h =
    let owned : str_eq f.owner_id g.owner_id ≡ true = (eq_iff f.owner_id g.owner_id).1 e in
    elim (Bool-cases (starts_with f.path g.path)) [
      | inr no_prefix ↦ no_prefix
      | inl prefix ↦ absurd (ground arith)
    ]

new_parent-apart :
    (fs : List Folder) (owner_id folder_id new_parent_id : String) (current q : Folder)
    → IsTree fs
    → Row current fs
    → current.id ≡ folder_id
    → current.owner_id ≡ owner_id
    → new_parent_of fs owner_id folder_id (some new_parent_id) ≡ ok (some q)
    → Row q fs
      × (q.id ≡ new_parent_id)
      × (q.owner_id ≡ owner_id)
      × (starts_with current.path q.path ≡ false)
unfolding new_parent_of is_descendant
new_parent-apart fs owner_id folder_id new_parent_id current q tree at i o h =
    let (_, rest) = required (not (str_eq new_parent_id folder_id)) self_parent _ h in
    let (apart, last) = required (not (is_descendant fs folder_id new_parent_id)) cyclic _ rest in
    let (parent, got, e) =
      returned (found (get_by_id fs new_parent_id (some owner_id)) not_found) _ last in
    let same : parent ≡ q = Option.some-injective parent q (ok-injective e) in
    let (at_q, i_q, o_q) = get_by_id-Row fs new_parent_id (some owner_id) q (
      found-ok (get_by_id fs new_parent_id (some owner_id)) not_found
        (got ∙ ap (λ (k : Folder). ok k) same)) in
    let owner = (eq_iff q.owner_id owner_id).0 o_q in
    let found_current =
      ap (λ (k : String). get_by_id fs k none) (sym i)
      ∙ get_by_id_self fs current tree.distinct at in
    let found_q =
      ap (λ (k : String). get_by_id fs k none) (sym i_q) ∙ get_by_id_self fs q tree.distinct at_q in
    let free =
      ap not (
        sym (
          ap (λ (k : Option Folder). descends k (get_by_id fs new_parent_id none)) found_current
          ∙ ap (descends (some current)) found_q))
      ∙ apart in
    (at_q, i_q, owner, descends_apart current q (o ∙ sym owner) free)

no_parent : (q : Folder) → ◌≢◌ {A = Result FolderError (Option Folder)} (ok none) (ok (some q))
no_parent q h = cc h

abbrev move_of : Option String → Text → ℕ → Folder → Folder
move_of new_parent_id new_path new_depth f = record f {
  parent_id = new_parent_id;
  path = new_path;
  depth = new_depth;
}

relocated_to :
    (fs : List Folder) (current : Folder) (new_parent_id : Option String) (new_path : Text)
    (new_depth : ℕ)
    → IsTree fs
    → Row current fs
    → is_plain current.path ≡ true
    → NewPlace fs current (move_of new_parent_id new_path new_depth current)
    → {fs' : List Folder}
    → relocate fs current (move_of new_parent_id new_path new_depth) new_path new_depth ≡ ok fs'
    → IsTree fs'
relocated_to fs current new_parent_id new_path new_depth tree at plain place h =
    relocate-IsTree fs current (move_of new_parent_id new_path new_depth)
      (λ room. record {
        tree = tree;
        at = at;
        plain = plain;
        same_id = refl;
        same_owner = refl;
        named = tree.named current at;
        place = place;
        room = room;
      })
      h

pub child_path_lem :
    (parent_path name : Text) {path : Text}
    → compute_child_path (some parent_path) name ≡ ok path
    → path ≡ parent_path ++ (safe_name name ++ slash_end)
unfolding compute_child_path
child_path_lem parent_path name h = sym (
    ok-injective
      (required (starts_with slash_end parent_path && ends_with_slash parent_path) assertion _ h).1)

-- A move into a folder.
move_into :
    (fs : List Folder) (owner_id folder_id p : String) (current q : Folder)
    → IsTree fs
    → Row current fs
    → is_plain current.path ≡ true
    → current.id ≡ folder_id
    → current.owner_id ≡ owner_id
    → new_parent_of fs owner_id folder_id (some p) ≡ ok (some q)
    → {fs' : List Folder} → move fs current (some p) (some q.path) (q.depth + 1) ≡ ok fs'
    → IsTree fs'
unfolding move
move_into fs owner_id folder_id p current q tree at plain i o parent h =
    let (at_q, i_q, o_q, apart) =
      new_parent-apart fs owner_id folder_id p current q tree at i o parent in
    let (path, e, rest) = returned (compute_child_path (some q.path) current.name) _ h in
    let shape =
      child_path_lem q.path current.name e
      ∙ ap (λ (t : Text). q.path ++ (t ++ slash_end))
          (safe_name_lem current.name (tree.named current at)) in
    relocated_to fs current (some p) path (q.depth + 1) tree at plain
      (into q at_q apart (ap (λ (k : String). some k) (sym i_q)) (o ∙ sym o_q) shape refl) rest

-- `move` keeps the tree.
pub move-IsTree :
    (fs : List Folder) (owner_id folder_id : String) (new_parent_id : Option String)
    (current : Folder) (new_parent : Option Folder)
    → IsTree fs
    → Row current fs
    → is_plain current.path ≡ true
    → current.id ≡ folder_id
    → current.owner_id ≡ owner_id
    → new_parent_of fs owner_id folder_id new_parent_id ≡ ok new_parent
    → {fs' : List Folder}
    → move fs current new_parent_id (path_of new_parent) (depth_below new_parent) ≡ ok fs'
    → IsTree fs'
unfolding move compute_child_path new_parent_of
move-IsTree fs owner_id folder_id none current none tree at plain i o parent h =
    relocated_to fs current none (b'/' ∷ safe_name current.name ++ slash_end) 0 tree at plain
      (top refl
        (ap (λ (t : Text). b'/' ∷ (t ++ slash_end))
          (safe_name_lem current.name (tree.named current at)))
        refl)
      h
move-IsTree fs owner_id folder_id none current (some q) tree at plain i o parent h =
    absurd (no_parent q parent)
move-IsTree fs owner_id folder_id (some p) current none tree at plain i o parent h =
    let (_, rest) = required (not (str_eq p folder_id)) self_parent _ parent in
    let (_, last) = required (not (is_descendant fs folder_id p)) cyclic _ rest in
    let (a, _, e) = returned (found (get_by_id fs p (some owner_id)) not_found) _ last in
    absurd (no_parent a (sym e))
move-IsTree fs owner_id folder_id (some p) current (some q) tree at plain i o parent h =
    move_into fs owner_id folder_id p current q tree at plain i o parent h

pub move-ids :
    (fs : List Folder) (current : Folder) (new_parent_id : Option String)
    (parent_path : Option Text) (new_depth : ℕ) {fs' : List Folder}
    → move fs current new_parent_id parent_path new_depth ≡ ok fs'
    → (f : Folder) → Row f fs
    → (f' : Folder) × Row f' fs' × (f'.id ≡ f.id)
unfolding move
move-ids fs current new_parent_id parent_path new_depth h =
    let (path, _, rest) = returned (compute_child_path parent_path current.name) _ h in
    relocate-ids fs current (move_of new_parent_id path new_depth) path new_depth (λ f. refl) rest

-- Going up from a folder by the parents leads to `f`.
pub data Beneath (fs : List Folder) (f : Folder) : Folder → Type 0 where
  itself : Beneath fs f f
  child_of : (p q : Folder) → Row p fs → q.parent_id ≡ some p.id → Beneath fs f p → Beneath fs f q

-- In a tree the path of a folder starts the path of every folder below it.
below_path :
    (fs : List Folder) (f q : Folder)
    → IsTree fs
    → Row q fs
    → Beneath fs f q
    → (q.owner_id ≡ f.owner_id) × (starts_with f.path q.path ≡ true)
below_path fs f q tree at itself = (refl, starts_with_refl f.path)
below_path fs f q tree at (child_of p _ at_p e below) = elim (tree.placed q at) [
  | root none_above _ _ ↦ absurd (cc (e, none_above))
  | child r at_r e' owner path _ ↦
      let ids : r.id ≡ p.id = Option.some-injective r.id p.id (sym e' ∙ e) in
      let same : r ≡ p = one-Row fs r p tree.distinct at_r at_p (clash_id r p ids) in
      let (owner_p, path_p) = below_path fs f p tree at_p below in
      (
        owner ∙ ap (λ (k : Folder). k.owner_id) same ∙ owner_p,
        rw (path, same) (starts_with-append f.path p.path (q.name ++ slash_end) path_p),
      )
]

-- In a tree of folders, where each row is where its parent and its name put it, a move of one of the
-- actor's folders into itself, or into any folder from which the parents lead up to it, is refused as
-- such. A rename under a path with a character special to LIKE can leave rows that are no such tree:
-- nothing is said of those.
pub move_folder-below :
    (t : Tables) (actor : Actor) (f q : Folder)
    → IsTree t.folders
    → Row f t.folders
    → Row q t.folders
    → actor.actor_id ≡ some f.owner_id
    → Beneath t.folders f q
    → move_folder t actor f.id (some q.id) ≡ err (if str_eq q.id f.id then self_parent else cyclic)
unfolding move_folder new_parent_of is_descendant get_folder
move_folder-below t actor f q tree at_f at_q who under =
    let (o, below) = below_path t.folders f q tree at_q under in
    let own = get_by_id-own t.folders f tree.distinct at_f in
    let first = get_by_id_self t.folders f tree.distinct at_f in
    let second = get_by_id_self t.folders q tree.distinct at_q in
    let owned : str_eq f.owner_id q.owner_id ≡ true = (eq_iff f.owner_id q.owner_id).1 (sym o) in
    elim (Bool-cases (str_eq q.id f.id)) [
      | inl e ↦ rw (who, own, e) refl
      | inr e ↦ rw (who, own, e, first, second, owned, below) (ground arith)
    ]
