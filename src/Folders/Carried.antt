-- ===== src/Folders/Carried.antt =====
-- One row under the two statements that relocate a folder, `rename` and `move` of
-- app/repositories/folders_repository.py.
use mathlib.Core.Bool.{and-eq-true_iff}
use mimir_backend.Prelude.{
  ℕ, ◌+◌, ◌≤◌, String, Bool, true, false, ◌&&◌, List, ◌∷◌, ◌++◌, append_assoc, none, some, ◌≡◌,
  refl, sym, ap, ◌∙◌, arith, length, drop, str_eq, Text,
}
use mimir_backend.Folders.FolderPath.{no_slash, starts_with}
use mimir_backend.Folders.Store.{Folder, is_below, shifted, set_row, shift_row}
use mimir_backend.Folders.Prefix.{slash_end, is_plain, starts_with-append, drop-append}
use mimir_backend.Prelude.Rows.{Row}
use mimir_backend.Folders.Tree.{Placed, child, IsTree}

-- Where the relocated folder comes to stand: at the top, or in a folder that is not below it.
pub data NewPlace (fs : List Folder) (current f : Folder) : Type 0 where
  top :
      f.parent_id ≡ none
      → f.path ≡ b'/' ∷ (f.name ++ slash_end)
      → f.depth ≡ 0
      → NewPlace fs current f
  into :
      (q : Folder)
      → Row q fs
      → starts_with current.path q.path ≡ false
      → f.parent_id ≡ some q.id
      → f.owner_id ≡ q.owner_id
      → f.path ≡ q.path ++ (f.name ++ slash_end)
      → f.depth ≡ q.depth + 1
      → NewPlace fs current f

-- What is known when the two statements are run: the row as it is changed, and that no depth falls
-- below 0.
pub record Relocation (fs : List Folder) (current : Folder) (change : Folder → Folder)
    : Type 0 where
  pub tree : IsTree fs
  pub at : Row current fs
  pub plain : is_plain current.path ≡ true
  pub same_id : (change current).id ≡ current.id
  pub same_owner : (change current).owner_id ≡ current.owner_id
  pub named : no_slash (change current).name ≡ true
  pub place : NewPlace fs current (change current)
  pub room :
      (f : Folder)
      → Row f fs
      → is_below current f ≡ true
      → current.depth ≤ f.depth + (change current).depth

-- The row is the folder itself or lies below it.
abbrev pub under : Folder → Folder → Bool
under current f = str_eq f.owner_id current.owner_id && starts_with current.path f.path

pub set_row-same :
    (folder_id : String) (change : Folder → Folder) (f : Folder)
    → str_eq f.id folder_id ≡ true
    → set_row folder_id change f ≡ change f
set_row-same folder_id change f e = rw e refl

pub set_row-different :
    (folder_id : String) (change : Folder → Folder) (f : Folder)
    → str_eq f.id folder_id ≡ false
    → set_row folder_id change f ≡ f
set_row-different folder_id change f e = rw e refl

pub shift_row-other :
    (current f : Folder) (new_path : Text) (new_depth : ℕ)
    → is_below current f ≡ false
    → shift_row current new_path new_depth f ≡ f
shift_row-other current f new_path new_depth e = rw e refl

pub shift_row-below :
    (current changed f : Folder)
    → is_below current f ≡ true
    → shift_row current changed.path changed.depth f
      ≡ shifted current.path changed.path current.depth changed.depth f
shift_row-below current changed f e = rw e refl

-- A row under the folder, and the row that the two statements leave of it.
pub record Carried (current changed q q' : Folder) : Type 0 where
  pub id_kept : q'.id ≡ q.id
  pub owner_kept : q'.owner_id ≡ q.owner_id
  pub path_shifted : q'.path ≡ changed.path ++ drop (length current.path) q.path
  pub depth_shifted : q'.depth + current.depth ≡ q.depth + changed.depth

pub under_append :
    (current q : Folder) (t : Text)
    → under current q ≡ true
    → str_eq q.owner_id current.owner_id && starts_with current.path (q.path ++ t) ≡ true
under_append current q t u =
    let (o, p) =
      (and-eq-true_iff (str_eq q.owner_id current.owner_id) (starts_with current.path q.path)).0
        u in
    rw (o, starts_with-append current.path q.path t p) refl

-- The shifted row of a folder whose parent is carried along.
pub shifted-Placed :
    (fs : List Folder) (current changed f q q' : Folder)
    → Row q' fs
    → Carried current changed q q'
    → under current q ≡ true
    → f.parent_id ≡ some q.id
    → f.owner_id ≡ q.owner_id
    → f.path ≡ q.path ++ (f.name ++ slash_end)
    → f.depth ≡ q.depth + 1
    → Placed fs (shifted current.path changed.path current.depth changed.depth f)
shifted-Placed fs current changed f q q' at c u parent o p d =
    let (_, prefix) =
      (and-eq-true_iff (str_eq q.owner_id current.owner_id) (starts_with current.path q.path)).0
        u in
    child q' at (parent ∙ ap (λ (i : String). some i) (sym c.id_kept)) (o ∙ sym c.owner_kept)
      (ap (λ (t : Text). changed.path ++ t)
          (ap (drop (length current.path)) p
            ∙ drop-append current.path q.path (f.name ++ slash_end) prefix)
        ∙ (sym (append_assoc changed.path (drop (length current.path) q.path) (f.name ++ slash_end))
            ∙ ap (λ (t : Text). t ++ (f.name ++ slash_end)) (sym c.path_shifted)))
      (omega (arith, c.depth_shifted))
