-- ===== src/Folders/Store.antt =====
-- The tables of folders with their constraints, and the methods of
-- app/repositories/folders_repository.py. The rows are in the order of their insertion; the
-- constraints of the migration 20260424_1600_s3_p2_collections_and_folders.py are tested on the rows
-- that a statement leaves. Times are left out.
use mimir_backend.Prelude.{
  ℕ, ◌+◌, ◌-◌, String, Bool, true, false, not, ◌&&◌, ◌||◌, List, [], ◌∷◌, ◌++◌, map, Option, none,
  some, leb, if◌then◌else◌, any, all, keep, find?, length, take, drop, str_eq, Text, text_eq,
}
use mimir_backend.Prelude.Raises.{Result, ok, ◌>>=◌, require}
use mimir_backend.Folders.FolderPath.{
  FolderError, conflict, database, safe_name, starts_with, like_under, compute_child_path,
}

pub record Folder : Type 0 where
  pub id : String
  pub owner_id : String
  pub parent_id : Option String
  pub name : Text
  pub path : Text
  pub depth : ℕ

-- A row of `documents`, as far as the folders read it.
pub record Document : Type 0 where
  pub id : String
  pub scope_profile_id : Option String

pub record DocumentFolder : Type 0 where
  pub document_id : String
  pub folder_id : String

pub record Tables : Type 0 where
  pub folders : List Folder
  pub documents : List Document
  pub document_folder : List DocumentFolder

-- `FOLDER_PATH_MAX_DEPTH`
abbrev pub folder_path_max_depth : ℕ
folder_path_max_depth = 10

abbrev pub is_some : Option String → String → Bool
is_some none s = false
is_some (some t) s = str_eq t s

-- The widths of the columns and the two CHECK constraints of one row.
abbrev pub row_ok : Folder → Bool
row_ok f =
    leb f.depth folder_path_max_depth
    && not (is_some f.parent_id f.id)
    && leb (length f.path) 2048
    && leb (length f.name) 200

-- Two rows that no unique constraint lets stand together.
abbrev pub clash : Folder → Folder → Bool
clash f g = str_eq f.id g.id || str_eq f.owner_id g.owner_id && text_eq f.path g.path

abbrev pub unique : List Folder → Bool
unique [] = true
unique (f ∷ fs) = not (any (clash f) fs) && unique fs

-- What a statement leaves, if the constraints hold.
unfoldable pub constrained : List Folder → Result FolderError (List Folder)
constrained fs = require (all row_ok fs) database (require (unique fs) conflict (ok fs))

-- `create`: the id is the one that the database generates
unfoldable pub create : List Folder → Folder → Result FolderError (List Folder)
create fs f = constrained (fs ++ f ∷ [])

abbrev pub owned_by : Option String → Folder → Bool
owned_by none f = true
owned_by (some owner_id) f = str_eq f.owner_id owner_id

-- `get_by_id`, of any owner or of one
unfoldable pub get_by_id : List Folder → String → Option String → Option Folder
get_by_id fs folder_id owner_id = find? (λ f. str_eq f.id folder_id && owned_by owner_id f) fs

-- `list_by_owner`; the order of its rows is not read by the service
abbrev pub list_by_owner : List Folder → String → List Folder
list_by_owner fs owner_id = keep (λ f. str_eq f.owner_id owner_id) fs

-- The rows of the second statement of `rename` and `move`.
unfoldable pub is_below : Folder → Folder → Bool
is_below current f =
    str_eq f.owner_id current.owner_id
    && like_under current.path f.path
    && not (str_eq f.id current.id)

-- a depth shifted by the way from one depth to another, if the column can hold it
abbrev pub shiftable : ℕ → ℕ → Folder → Bool
shiftable old_depth new_depth f = leb old_depth (f.depth + new_depth)

abbrev pub shifted : Text → Text → ℕ → ℕ → Folder → Folder
shifted old_path new_path old_depth new_depth f = record f {
  path = new_path ++ drop (length old_path) f.path;
  depth = f.depth + new_depth - old_depth;
}

-- `UPDATE folders SET ... WHERE id = ...`
abbrev pub set_row : String → (Folder → Folder) → Folder → Folder
set_row folder_id change f = if str_eq f.id folder_id then change f else f

-- the second statement: new path and depth for all that lies below
abbrev pub shift_row : Folder → Text → ℕ → Folder → Folder
shift_row current new_path new_depth f =
    if is_below current f then shifted current.path new_path current.depth new_depth f else f

-- The two statements of `rename` and `move`.
unfoldable pub relocate :
    List Folder → Folder → (Folder → Folder) → Text → ℕ → Result FolderError (List Folder)
relocate fs current change new_path new_depth = do
  fs' ← constrained (map (set_row current.id change) fs)
  require (all (λ f. not (is_below current f) || shiftable current.depth new_depth f) fs') database
      (constrained (map (shift_row current new_path new_depth) fs'))

-- `rename`, of the row that `get_by_id` finds
unfoldable pub rename : List Folder → Folder → Text → Result FolderError (List Folder)
rename fs current new_name =
    let prefix = take (length current.path - (length current.name + 1)) current.path in
    let new_path = prefix ++ (safe_name new_name ++ b'/' ∷ []) in
    relocate fs current (λ f. record f { name = new_name; path = new_path }) new_path current.depth

-- `move`, of the row that `get_by_id` finds
unfoldable pub move :
    List Folder → Folder → Option String → Option Text → ℕ → Result FolderError (List Folder)
move fs current new_parent_id new_parent_path new_depth = do
  new_path ← compute_child_path new_parent_path current.name
  relocate fs current
      (λ f. record f { parent_id = new_parent_id; path = new_path; depth = new_depth }) new_path
      new_depth

-- `delete_if_empty`: the folders that are left, and whether a row was deleted
unfoldable pub delete_if_empty : Tables → String → List Folder × Bool
delete_if_empty t folder_id =
    if any (λ f. is_some f.parent_id folder_id) t.folders
    then (t.folders, false)
    else if any (λ (d : DocumentFolder). str_eq d.folder_id folder_id) t.document_folder
    then (t.folders, false)
    else (
      keep (λ f. not (str_eq f.id folder_id)) t.folders,
      any (λ f. str_eq f.id folder_id) t.folders,
    )

abbrev pub descends : Option Folder → Option Folder → Bool
descends (some ancestor) (some target) =
    str_eq ancestor.owner_id target.owner_id
    && (text_eq target.path ancestor.path || starts_with ancestor.path target.path)
descends _ _ = false

-- `is_descendant`
unfoldable pub is_descendant : List Folder → String → String → Bool
is_descendant fs ancestor_id maybe_descendant_id =
    descends (get_by_id fs ancestor_id none) (get_by_id fs maybe_descendant_id none)

-- `set_folder`: the folder of a document, or none
unfoldable pub set_folder : List DocumentFolder → String → Option String → List DocumentFolder
set_folder rows document_id none =
    keep (λ (d : DocumentFolder). not (str_eq d.document_id document_id)) rows
set_folder rows document_id (some folder_id) =
    if any (λ (d : DocumentFolder). str_eq d.document_id document_id) rows
    then map
        (λ (d : DocumentFolder).
          if str_eq d.document_id document_id then record d { folder_id = folder_id } else d)
        rows
    else rows ++ record { document_id = document_id; folder_id = folder_id } ∷ []
