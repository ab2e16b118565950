-- ===== src/Folders.antt =====
-- The tree of folders of a user: app/services/folders_service.py and
-- app/repositories/folders_repository.py.
pub mod FolderPath
pub mod Store
pub mod Service
pub mod Prefix
pub mod Tree
pub mod Carried
pub mod Relocated
pub mod Renamed
pub mod Moved
pub mod Created
pub mod Filed
pub mod Sound
pub mod Steps
pub mod Wildcards
pub mod Tests
