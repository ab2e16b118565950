-- ===== src/Folders/Steps.antt =====
-- Every sequence of operations of app/services/folders_service.py keeps its tables well formed.
use mimir_backend.Prelude.{String, true, Option, none, some, ◌≡◌, Text}
use mimir_backend.Prelude.Raises.{ok}
use mimir_backend.Folders.Store.{Folder, Tables, get_by_id}
use mimir_backend.Folders.Service.{
  Actor, create_folder, rename_folder, move_folder, delete_folder, set_document_folder,
}
use mimir_backend.Folders.Prefix.{is_plain}
use mimir_backend.Folders.Sound.{
  IsSound, create_folder-IsSound, rename_folder-IsSound, move_folder-IsSound, delete_folder-IsSound,
  set_document_folder-IsSound,
}

-- One accepted operation. A rename or a move is of a folder with no special character of `LIKE` in
-- its path.
pub data Step (t : Tables) : Tables → Type 0 where
  created :
      (actor : Actor) (new_id : String) (parent_id : Option String) (name : Text) {u : Tables}
      → create_folder t actor new_id parent_id name ≡ ok u
      → Step t u
  renamed :
      (actor : Actor) (folder_id : String) (new_name : Text) (current : Folder) {u : Tables}
      → get_by_id t.folders folder_id none ≡ some current
      → is_plain current.path ≡ true
      → rename_folder t actor folder_id new_name ≡ ok u
      → Step t u
  moved :
      (actor : Actor) (folder_id : String) (new_parent_id : Option String) (current : Folder)
      {u : Tables}
      → get_by_id t.folders folder_id none ≡ some current
      → is_plain current.path ≡ true
      → move_folder t actor folder_id new_parent_id ≡ ok u
      → Step t u
  deleted :
      (actor : Actor) (folder_id : String) {u : Tables}
      → delete_folder t actor folder_id ≡ ok u
      → Step t u
  placed_in :
      (actor : Actor) (document_id : String) (folder_id : Option String) {u : Tables}
      → set_document_folder t actor document_id folder_id ≡ ok u
      → Step t u

pub data Reach (t : Tables) : Tables → Type 0 where
  start : Reach t t
  next : {u v : Tables} → Reach t u → Step u v → Reach t v

Step-IsSound : {t u : Tables} → Step t u → IsSound t → IsSound u
Step-IsSound {t} (created actor new_id parent_id name h) s =
    create_folder-IsSound t actor new_id parent_id name s h
Step-IsSound {t} (renamed actor folder_id new_name current i plain h) s =
    rename_folder-IsSound t actor folder_id new_name current s i plain h
Step-IsSound {t} (moved actor folder_id new_parent_id current i plain h) s =
    move_folder-IsSound t actor folder_id new_parent_id current s i plain h
Step-IsSound {t} (deleted actor folder_id h) s = delete_folder-IsSound t actor folder_id s h
Step-IsSound {t} (placed_in actor document_id folder_id h) s =
    set_document_folder-IsSound t actor document_id folder_id s h

-- Whatever the accepted operations and their order, as long as no renamed or moved folder has a
-- character in its path that is special to `LIKE`: each folder's path is its parent's path, its name
-- and a slash, and its depth one more than its parent's, or it stands at the top with the depth 0;
-- the parent has the same owner; no name has a slash; no two folders share an id, or an owner and a
-- path; and every placement of a document is in a folder that is there.
pub Reach-IsSound : {t u : Tables} → Reach t u → IsSound t → IsSound u
Reach-IsSound start s = s
Reach-IsSound (next r step) s = Step-IsSound step (Reach-IsSound r s)
