-- ===== src/Folders/Service.antt =====
-- `FoldersService` of app/services/folders_service.py, and what it uses of
-- app/services/documents_service.py, app/repositories/documents_repository.py and app/utils/actor.py.
use mimir_backend.Prelude.{
  ℕ, ◌+◌, max, String, Bool, true, not, ◌&&◌, ◌||◌, List, [], ◌∷◌, Option, none, some, ltb, leb,
  if◌then◌else◌, any, keep, find?, str_eq, truthy, Text,
}
use mimir_backend.Prelude.Raises.{Result, ok, ◌>>=◌, require, found}
use mimir_backend.Folders.FolderPath.{
  FolderError, unauthenticated, not_found, too_deep, self_parent, cyclic, not_empty, normalize_name,
  compute_child_path, starts_with,
}
use mimir_backend.Folders.Store.{
  Folder, Document, Tables, folder_path_max_depth, is_some, create, get_by_id, list_by_owner,
  rename, move, delete_if_empty, is_descendant, set_folder,
}

pub record Actor : Type 0 where
  pub actor_id : Option String
  pub role : Option String
  pub scope_profile_id : Option String

-- `require_actor_id`
abbrev pub require_actor : Actor → Result FolderError String
require_actor actor = found actor.actor_id unauthenticated

abbrev pub folders_of : Tables → List Folder → Tables
folders_of t fs = record t { folders = fs }

abbrev pub parent_of : List Folder → String → Option String → Result FolderError (Option Folder)
parent_of fs owner_id none = ok none
parent_of fs owner_id (some parent_id) =
    found (get_by_id fs parent_id (some owner_id)) not_found >>= λ parent. ok (some parent)

abbrev pub path_of : Option Folder → Option Text
path_of none = none
path_of (some f) = some f.path

-- one more than the depth of the parent, which is -1 where there is none
abbrev pub depth_below : Option Folder → ℕ
depth_below none = 0
depth_below (some f) = f.depth + 1

-- `create_folder`, with the id that the database generates
unfoldable pub create_folder :
    Tables → Actor → String → Option String → Text → Result FolderError Tables
create_folder t actor new_id parent_id raw = do
  owner_id ← require_actor actor
  name ← normalize_name raw
  parent ← parent_of t.folders owner_id parent_id
  path ←
      require (not (ltb folder_path_max_depth (depth_below parent))) too_deep
        (compute_child_path (path_of parent) name)
  fs ← create t.folders (record {
    id = new_id;
    owner_id = owner_id;
    parent_id = parent_id;
    name = name;
    path = path;
    depth = depth_below parent;
  })
  ok (folders_of t fs)

-- `get_folder`
unfoldable pub get_folder : Tables → Actor → String → Result FolderError Folder
get_folder t actor folder_id = do
  owner_id ← require_actor actor
  found (get_by_id t.folders folder_id (some owner_id)) not_found

-- `rename_folder`
unfoldable pub rename_folder : Tables → Actor → String → Text → Result FolderError Tables
rename_folder t actor folder_id raw = do
  owned ← get_folder t actor folder_id
  new_name ← normalize_name raw
  current ← found (get_by_id t.folders folder_id none) not_found
  fs ← rename t.folders current new_name
  ok (folders_of t fs)

-- the checks of a new parent: not the folder itself, not below it, and the actor's
unfoldable pub new_parent_of :
    List Folder → String → String → Option String → Result FolderError (Option Folder)
new_parent_of fs owner_id folder_id none = ok none
new_parent_of fs owner_id folder_id (some new_parent_id) =
    require (not (str_eq new_parent_id folder_id)) self_parent (
      require (not (is_descendant fs folder_id new_parent_id)) cyclic
        (parent_of fs owner_id (some new_parent_id)))

-- `max((f.depth for f in subtree), default=current.depth)`
abbrev max_depth : ℕ → List Folder → ℕ
max_depth d [] = d
max_depth d (f ∷ []) = f.depth
max_depth d (f ∷ g ∷ fs) = max f.depth (max_depth d (g ∷ fs))

abbrev pub subtree_depth : List Folder → String → Folder → ℕ
subtree_depth fs owner_id current =
    max_depth current.depth
      (keep (λ f. starts_with current.path f.path) (list_by_owner fs owner_id))

-- `move_folder`
unfoldable pub move_folder : Tables → Actor → String → Option String → Result FolderError Tables
move_folder t actor folder_id new_parent_id = do
  owner_id ← require_actor actor
  owned ← get_folder t actor folder_id
  new_parent ← new_parent_of t.folders owner_id folder_id new_parent_id
  current ←
      require
        (leb (subtree_depth t.folders owner_id owned + depth_below new_parent)
          (folder_path_max_depth + owned.depth))
        too_deep (found (get_by_id t.folders folder_id none) not_found)
  fs ← move t.folders current new_parent_id (path_of new_parent) (depth_below new_parent)
  ok (folders_of t fs)

-- `delete_folder`
unfoldable pub delete_folder : Tables → Actor → String → Result FolderError Tables
delete_folder t actor folder_id = do
  owned ← get_folder t actor folder_id
  let left = delete_if_empty t folder_id
  require left.1 not_empty (ok (folders_of t left.0))

abbrev profile_ids : Option String → List String
profile_ids none = []
profile_ids (some p) = p ∷ []

-- `_resolve_viewer_scope_profile_ids` of an actor
abbrev pub viewer_scope_profile_ids : Actor → Option (List String)
viewer_scope_profile_ids actor =
    if is_some actor.role "SUPER_ADMIN" || is_some actor.role "ORG_ADMIN"
    then none
    else if truthy actor.scope_profile_id
    then some (profile_ids actor.scope_profile_id)
    else some []

abbrev visible : Option (List String) → Document → Bool
visible none d = true
visible (some ids) d = any (λ p. is_some d.scope_profile_id p) ids

-- `documents_repository.get_by_id`
abbrev pub get_document : List Document → String → Option (List String) → Option Document
get_document ds document_id viewer_ids =
    find? (λ d. str_eq d.id document_id && visible viewer_ids d) ds

-- `set_document_folder`
unfoldable pub set_document_folder :
    Tables → Actor → String → Option String → Result FolderError Tables
set_document_folder t actor document_id folder_id = do
  owner_id ← require_actor actor
  doc ← found (get_document t.documents document_id (viewer_scope_profile_ids actor)) not_found
  folder ← parent_of t.folders owner_id folder_id
  ok (record t { document_folder = set_folder t.document_folder document_id folder_id })
