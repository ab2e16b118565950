-- ===== src/Folders/Created.antt =====
-- `create` and `delete_if_empty` of app/repositories/folders_repository.py keep the tree of folders.
use mathlib.Core.Path.{subst}
use mathlib.Core.Option
use mimir_backend.Prelude.{
  String, Bool, true, false, not, ◌||◌, List, [], ◌∷◌, ◌++◌, Option, none, some, ltb, ◌≡◌, ◌≢◌,
  refl, sym, ap, ◌∙◌, ◌⊎◌, inl, inr, arith, Bool-cases, any, keep, str_eq, eq_iff, length, Text,
}
use mimir_backend.Prelude.Raises.{ok, found, found-ok, required, returned, ok-injective}
use mimir_backend.Prelude.Splitting.{words}
use mimir_backend.Folders.FolderPath.{
  invalid_name, not_found, no_slash, spaced_words, normalize_name, normalize_display_name,
  compute_child_path,
}
use mimir_backend.Folders.Store.{Folder, is_some, clash, unique, create, get_by_id}
use mimir_backend.Folders.Service.{parent_of, path_of, depth_below}
use mimir_backend.Folders.Prefix.{slash_end, safe_name_lem}
use mimir_backend.Prelude.Rows.{Row, Row-append, Row-snoc_inv, any-Row, Row-keep, Row-keep_inv}
use mimir_backend.Folders.Tree.{Placed, root, child, IsTree, get_by_id-Row, constrained-unique}
use mimir_backend.Folders.Moved.{child_path_lem}

pub normalize_name-no_slash :
    (raw : Text) {name : Text} → normalize_name raw ≡ ok name → no_slash name ≡ true
unfolding normalize_name normalize_display_name
normalize_name-no_slash raw h =
    let (_, rest) =
      required
        (not (
          ltb (length (spaced_words (words raw))) 1 || ltb 200 (length (spaced_words (words raw)))))
        invalid_name _ h in
    let (clean, e) = required (no_slash (spaced_words (words raw))) invalid_name _ rest in
    subst (λ (t : Text). no_slash t ≡ true) (ok-injective e) clean

-- The parent that a new folder is put in.
pub parent-Row :
    (fs : List Folder) (owner_id parent_id : String) {q : Folder}
    → parent_of fs owner_id (some parent_id) ≡ ok (some q)
    → Row q fs × (q.id ≡ parent_id) × (q.owner_id ≡ owner_id)
parent-Row fs owner_id parent_id {q} h =
    let (a, got, e) = returned (found (get_by_id fs parent_id (some owner_id)) not_found) _ h in
    let same = Option.some-injective a q (ok-injective e) in
    let (at, i, o) = get_by_id-Row fs parent_id (some owner_id) q (
      found-ok (get_by_id fs parent_id (some owner_id)) not_found
        (got ∙ ap (λ (k : Folder). ok k) same)) in
    (at, i, (eq_iff q.owner_id owner_id).0 o)

pub some_parent :
    (fs : List Folder) (owner_id parent_id : String)
    → parent_of fs owner_id (some parent_id) ≢ ok none
some_parent fs owner_id parent_id h =
    let (a, _, e) = returned (found (get_by_id fs parent_id (some owner_id)) not_found) _ h in cc e

Placed-append : (fs gs : List Folder) {f : Folder} → Placed fs f → Placed (fs ++ gs) f
Placed-append fs gs (root no_parent p d) = root no_parent p d
Placed-append fs gs (child q at parent o p d) = child q (Row-append fs gs at) parent o p d

-- A new row that is placed keeps the tree, if the constraints hold.
append-IsTree :
    (fs : List Folder) (f : Folder)
    → IsTree fs
    → Placed fs f
    → no_slash f.name ≡ true
    → unique (fs ++ f ∷ []) ≡ true
    → IsTree (fs ++ f ∷ [])
append-IsTree fs f tree place named u = record {
  placed = λ g at. elim (Row-snoc_inv fs f at) [
    | inl old ↦ Placed-append fs (f ∷ []) (tree.placed g old)
    | inr same ↦ subst (Placed (fs ++ f ∷ [])) (sym same) (Placed-append fs (f ∷ []) place)
  ];
  named = λ g at. elim (Row-snoc_inv fs f at) [
    | inl old ↦ tree.named g old
    | inr same ↦ subst (λ (k : Folder). no_slash k.name ≡ true) (sym same) named
  ];
  distinct = u;
}

new_place :
    (fs : List Folder) (owner_id new_id : String) (parent_id : Option String) (name path : Text)
    (parent : Option Folder)
    → no_slash name ≡ true
    → parent_of fs owner_id parent_id ≡ ok parent
    → compute_child_path (path_of parent) name ≡ ok path
    → Placed fs (record {
      id = new_id;
      owner_id = owner_id;
      parent_id = parent_id;
      name = name;
      path = path;
      depth = depth_below parent;
    })
unfolding compute_child_path
new_place fs owner_id new_id none name path none clean h e =
    root refl
      (sym (ok-injective e) ∙ ap (λ (t : Text). b'/' ∷ (t ++ slash_end)) (safe_name_lem name clean))
      refl
new_place fs owner_id new_id none name path (some q) clean h e = absurd (cc h)
new_place fs owner_id new_id (some p) name path none clean h e =
    absurd (some_parent fs owner_id p h)
new_place fs owner_id new_id (some p) name path (some q) clean h e =
    let (at, i, o) = parent-Row fs owner_id p h in
    child q at (ap (λ (k : String). some k) (sym i)) (sym o)
      (child_path_lem q.path name e
        ∙ ap (λ (t : Text). q.path ++ (t ++ slash_end)) (safe_name_lem name clean))
      refl

-- `create` of a row with a parent of the actor's keeps the tree.
pub create-IsTree :
    (fs : List Folder) (owner_id new_id : String) (parent_id : Option String) (name path : Text)
    (parent : Option Folder)
    → IsTree fs
    → no_slash name ≡ true
    → parent_of fs owner_id parent_id ≡ ok parent
    → compute_child_path (path_of parent) name ≡ ok path
    → {fs' : List Folder}
    → create fs (record {
      id = new_id;
      owner_id = owner_id;
      parent_id = parent_id;
      name = name;
      path = path;
      depth = depth_below parent;
    })
      ≡ ok fs'
    → IsTree fs' × ((f : Folder) → Row f fs → Row f fs')
unfolding create
create-IsTree fs owner_id new_id parent_id name path parent tree clean h e c =
    let new : Folder = record {
      id = new_id;
      owner_id = owner_id;
      parent_id = parent_id;
      name = name;
      path = path;
      depth = depth_below parent;
    } in
    let (same, u) = constrained-unique (fs ++ new ∷ []) c in
    let place = new_place fs owner_id new_id parent_id name path parent clean h e in
    (
      subst IsTree same (append-IsTree fs new tree place clean u),
      λ f at. subst (Row f) same (Row-append fs (new ∷ []) at),
    )

any-keep : (p q : Folder → Bool) (fs : List Folder) → any p fs ≡ false → any p (keep q fs) ≡ false
any-keep p q [] h = refl
any-keep p q (f ∷ fs) h = ground (arith, any-keep p q fs)

unique-keep : (q : Folder → Bool) (fs : List Folder) → unique fs ≡ true → unique (keep q fs) ≡ true
unique-keep q [] h = refl
unique-keep q (f ∷ fs) h = ground (arith, unique-keep q fs, any-keep (clash f) q fs)

without-Placed :
    (fs : List Folder) (folder_id : String)
    → any (λ f. is_some f.parent_id folder_id) fs ≡ false
    → (f : Folder) → Row f fs
    → Placed fs f
    → Placed (keep (λ k. not (str_eq k.id folder_id)) fs) f
without-Placed fs folder_id free f at (root no_parent p d) = root no_parent p d
without-Placed fs folder_id free f at (child q at_q parent o p d) =
    child q
      (Row-keep (λ k. not (str_eq k.id folder_id)) fs q at_q
        (stays (Bool-cases (str_eq q.id folder_id))))
      parent o p d
  where
    stays :
        (str_eq q.id folder_id ≡ true) ⊎ (str_eq q.id folder_id ≡ false)
        → not (str_eq q.id folder_id) ≡ true
    stays (inr e) = ap not e
    stays (inl e) = absurd (
        cc (
          sym free
          ∙ any-Row (λ k. is_some k.parent_id folder_id) fs f at
              (ap (λ (k : Option String). is_some k folder_id) parent ∙ e)))

-- Taking a row out that is no row's parent keeps the tree.
pub without-IsTree :
    (fs : List Folder) (folder_id : String)
    → IsTree fs
    → any (λ f. is_some f.parent_id folder_id) fs ≡ false
    → IsTree (keep (λ f. not (str_eq f.id folder_id)) fs)
without-IsTree fs folder_id tree free = record {
  placed = λ f at.
      let (old, _) = Row-keep_inv (λ k. not (str_eq k.id folder_id)) fs f at in
      without-Placed fs folder_id free f old (tree.placed f old);
  named = λ f at. tree.named f (Row-keep_inv (λ k. not (str_eq k.id folder_id)) fs f at).0;
  distinct = unique-keep (λ k. not (str_eq k.id folder_id)) fs tree.distinct;
}
