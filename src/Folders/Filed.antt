-- ===== src/Folders/Filed.antt =====
-- Each placement of a document is in a folder that is there: `delete_if_empty` and `set_folder` of
-- app/repositories/folders_repository.py.
use mathlib.Core.Path.{subst}
use mimir_backend.Prelude.{
  String, true, false, not, List, Option, none, some, ◌≡◌, refl, sym, ap, ◌∙◌, inl, inr, Bool-cases,
  if◌then◌else◌, any, keep, str_eq,
}
use mimir_backend.Prelude.Raises.{ok}
use mimir_backend.Folders.Store.{
  Folder, DocumentFolder, Tables, is_some, delete_if_empty, set_folder,
}
use mimir_backend.Folders.Service.{parent_of}
use mimir_backend.Prelude.Rows.{Row, Row-map_inv, Row-snoc_inv, any-Row, Row-keep, Row-keep_inv}
use mimir_backend.Folders.Created.{parent-Row, some_parent}

-- A folder with the id is there.
abbrev pub HasId : String → List Folder → Type 0
HasId folder_id fs = (f : Folder) × Row f fs × (f.id ≡ folder_id)

pub delete_if_empty_inv :
    (t : Tables) (folder_id : String)
    → (delete_if_empty t folder_id).1 ≡ true
    → ((delete_if_empty t folder_id).0 ≡ keep (λ f. not (str_eq f.id folder_id)) t.folders)
      × (any (λ f. is_some f.parent_id folder_id) t.folders ≡ false)
      × (any (λ (d : DocumentFolder). str_eq d.folder_id folder_id) t.document_folder ≡ false)
unfolding delete_if_empty
delete_if_empty_inv t folder_id h =
    elim (Bool-cases (any (λ f. is_some f.parent_id folder_id) t.folders)) [
      | inl e ↦ absurd (cc (rw e at h))
      | inr e ↦
          elim (Bool-cases
            (any (λ (d : DocumentFolder). str_eq d.folder_id folder_id) t.document_folder)) [
              | inl e' ↦ absurd (cc (rw (e, e') at h))
              | inr e' ↦ (rw (e, e') refl, e, e')
            ]
    ]

pub still_there :
    (t : Tables) (folder_id : String)
    → any (λ (d : DocumentFolder). str_eq d.folder_id folder_id) t.document_folder ≡ false
    → (d : DocumentFolder) → Row d t.document_folder
    → HasId d.folder_id t.folders
    → HasId d.folder_id (keep (λ f. not (str_eq f.id folder_id)) t.folders)
still_there t folder_id free d at (f, at_f, e) = elim (Bool-cases (str_eq f.id folder_id)) [
  | inr other ↦ (f, Row-keep (λ k. not (str_eq k.id folder_id)) t.folders f at_f (ap not other), e)
  | inl same ↦
      let named : str_eq d.folder_id folder_id ≡ true =
        ap (λ (i : String). str_eq i folder_id) (sym e) ∙ same in
      absurd (
        cc (
          sym free
          ∙ any-Row (λ (k : DocumentFolder). str_eq k.folder_id folder_id) t.document_folder d at
              named))
]

-- A row as the update of a document's folder leaves it.
abbrev placed_at : String → String → DocumentFolder → DocumentFolder
placed_at document_id folder_id k =
    if str_eq k.document_id document_id then record k { folder_id = folder_id } else k

placed_at-HasId :
    (t : Tables) (document_id folder_id : String) (k : DocumentFolder)
    → HasId folder_id t.folders
    → HasId k.folder_id t.folders
    → HasId (placed_at document_id folder_id k).folder_id t.folders
placed_at-HasId t document_id folder_id k new old =
    elim (Bool-cases (str_eq k.document_id document_id)) [ inl e ↦ rw e new | inr e ↦ rw e old ]

pub set_folder-HasId :
    (t : Tables) (owner_id document_id : String) (folder_id : Option String)
    (parent : Option Folder)
    → ((d : DocumentFolder) → Row d t.document_folder → HasId d.folder_id t.folders)
    → parent_of t.folders owner_id folder_id ≡ ok parent
    → (d : DocumentFolder) → Row d (set_folder t.document_folder document_id folder_id)
    → HasId d.folder_id t.folders
unfolding set_folder
set_folder-HasId t owner_id document_id none parent filed above d at =
    filed d
      (Row-keep_inv (λ (k : DocumentFolder). not (str_eq k.document_id document_id))
        t.document_folder d at).0
set_folder-HasId t owner_id document_id (some folder_id) none filed above d at =
    absurd (some_parent t.folders owner_id folder_id above)
set_folder-HasId t owner_id document_id (some folder_id) (some q) filed above d at =
    let (at_q, i, _) = parent-Row t.folders owner_id folder_id above in
    elim (Bool-cases
      (any (λ (k : DocumentFolder). str_eq k.document_id document_id) t.document_folder)) [
        | inl e ↦
            let (k, at_k, same) =
              Row-map_inv (placed_at document_id folder_id) t.document_folder (rw e at at) in
            subst (λ (r : DocumentFolder). HasId r.folder_id t.folders) (sym same)
              (placed_at-HasId t document_id folder_id k (q, at_q, i) (filed k at_k))
        | inr e ↦
            elim (Row-snoc_inv t.document_folder
              (record { document_id = document_id; folder_id = folder_id }) (rw e at at)) [
                | inl old ↦ filed d old
                | inr new ↦
                    subst (λ (r : DocumentFolder). HasId r.folder_id t.folders) (sym new)
                      (q, at_q, i)
              ]
      ]
