-- ===== src/Folders/Tree.antt =====
-- The well-formed tables of folders, for app/repositories/folders_repository.py: each row is where
-- its parent puts it.
use mathlib.Core.Bool.{and-eq-true_iff}
use mimir_backend.Prelude.{
  ◌+◌, String, true, ◌&&◌, List, [], ◌∷◌, ◌++◌, append_assoc, Option, none, some, ◌≡◌, refl, sym,
  ◌∙◌, ◌⊎◌, inl, inr, arith, Bool-cases, all, ◌≤◌, length, length-append, str_eq, eq_iff, eq_refl,
  Text, text_eq, text_eq-eq, text_eq_refl,
}
use mimir_backend.Prelude.Raises.{ok, require, required, ok-injective}
use mimir_backend.Folders.FolderPath.{conflict, database, no_slash}
use mimir_backend.Folders.Store.{Folder, row_ok, clash, unique, constrained, owned_by, get_by_id}
use mimir_backend.Folders.Prefix.{slash_end}
use mimir_backend.Prelude.Rows.{Row, here, there, any-Row, find?-Row}

-- A row whose path and depth are those that its parent and its name give it.
pub data Placed (fs : List Folder) (f : Folder) : Type 0 where
  root : f.parent_id ≡ none → f.path ≡ b'/' ∷ (f.name ++ slash_end) → f.depth ≡ 0 → Placed fs f
  child :
      (q : Folder)
      → Row q fs
      → f.parent_id ≡ some q.id
      → f.owner_id ≡ q.owner_id
      → f.path ≡ q.path ++ (f.name ++ slash_end)
      → f.depth ≡ q.depth + 1
      → Placed fs f

-- Each row is placed, no name has a slash, and no two rows share an id, or an owner and a path.
pub record IsTree (fs : List Folder) : Type 0 where
  pub placed : (f : Folder) → Row f fs → Placed fs f
  pub named : (f : Folder) → Row f fs → no_slash f.name ≡ true
  pub distinct : unique fs ≡ true

pub get_by_id-Row :
    (fs : List Folder) (folder_id : String) (owner_id : Option String) (f : Folder)
    → get_by_id fs folder_id owner_id ≡ some f
    → Row f fs × (f.id ≡ folder_id) × (owned_by owner_id f ≡ true)
unfolding get_by_id
get_by_id-Row fs folder_id owner_id f h =
    let (r, k) = find?-Row (λ f. str_eq f.id folder_id && owned_by owner_id f) fs f h in
    let (same, owned) = (and-eq-true_iff (str_eq f.id folder_id) (owned_by owner_id f)).0 k in
    (r, (eq_iff f.id folder_id).0 same, owned)

clash_inv :
    (f g : Folder)
    → clash f g ≡ true
    → (f.id ≡ g.id) ⊎ ((f.owner_id ≡ g.owner_id) × (f.path ≡ g.path))
clash_inv f g h = elim (Bool-cases (str_eq f.id g.id)) [
  | inl same ↦ inl ((eq_iff f.id g.id).0 same)
  | inr other ↦
      let both =
        (and-eq-true_iff (str_eq f.owner_id g.owner_id) (text_eq f.path g.path)).0
          (rw other at h) in
      inr ((eq_iff f.owner_id g.owner_id).0 both.0, text_eq-eq f.path g.path both.1)
]

pub clash_id : (f g : Folder) → f.id ≡ g.id → clash f g ≡ true
clash_id f g e = rw (e, eq_refl g.id) refl

pub clash_path : (f g : Folder) → f.owner_id ≡ g.owner_id → f.path ≡ g.path → clash f g ≡ true
clash_path f g e h = rw (e, h, eq_refl g.owner_id, text_eq_refl g.path) (ground arith)

clash_sym : (f g : Folder) → clash f g ≡ true → clash g f ≡ true
clash_sym f g h = elim (clash_inv f g h) [
  | inl e ↦ clash_id g f (sym e)
  | inr both ↦ clash_path g f (sym both.0) (sym both.1)
]

-- Rows that clash are one row.
pub one-Row :
    (fs : List Folder) (f g : Folder)
    → unique fs ≡ true
    → Row f fs
    → Row g fs
    → clash f g ≡ true
    → f ≡ g
one-Row [] f g u r s c = elim r [ ]
one-Row (k ∷ fs) f g u here here c = refl
one-Row (k ∷ fs) f g u here (there r) c =
    let meets = any-Row (clash f) fs g r c in absurd (ground arith)
one-Row (k ∷ fs) f g u (there r) here c =
    let meets = any-Row (clash g) fs f r (clash_sym f g c) in absurd (ground arith)
one-Row (k ∷ fs) f g u (there r) (there s) c = one-Row fs f g (ground arith) r s c

-- Every path ends with a slash.
pub Placed-path :
    (fs : List Folder) (f : Folder) → Placed fs f → (s : Text) × (f.path ≡ s ++ slash_end)
Placed-path fs f (root _ e _) = (b'/' ∷ f.name, e)
Placed-path fs f (child q _ _ _ e _) =
    (q.path ++ f.name, e ∙ sym (append_assoc q.path f.name slash_end))

-- What the constraints make certain of.
pub constrained-unique :
    (fs : List Folder) {fs' : List Folder}
    → constrained fs ≡ ok fs'
    → (fs ≡ fs') × (unique fs ≡ true)
unfolding constrained
constrained-unique fs h =
    let (_, rest) = required (all row_ok fs) database (require (unique fs) conflict (ok fs)) h in
    let (u, e) = required (unique fs) conflict (ok fs) rest in (ok-injective e, u)

-- A path has at least two characters.
pub length-path : (fs : List Folder) → IsTree fs → (f : Folder) → Placed fs f → 2 ≤ length f.path
length-path fs tree f (root _ e _) = rw e (omega (arith, length-append f.name slash_end))
length-path fs tree f (child q at _ _ e _) =
    let (s, e') = Placed-path fs q (tree.placed q at) in
    rw (e, e')
      (omega (
        arith,
        length-append (s ++ slash_end) (f.name ++ slash_end),
        length-append s slash_end,
        length-append f.name slash_end,
      ))
