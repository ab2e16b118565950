-- ===== src/Folders/Tests.antt =====
-- Runs of the folders' operations at concrete tables.
use mimir_backend.Prelude.{ℕ, String, List, [], ◌∷◌, Option, none, some, ◌≡◌, refl, codes}
use mimir_backend.Prelude.Raises.{ok, err}
use mimir_backend.Folders.FolderPath.{
  cyclic, normalize_name, normalize_display_name, compute_child_path, like_under,
}
use mimir_backend.Folders.Store.{
  Folder, Tables, constrained, create, rename, relocate, get_by_id, is_below,
}
use mimir_backend.Folders.Service.{Actor, create_folder, get_folder, rename_folder, move_folder}
use mimir_backend.Prelude.Rows.{Row, here, there}
use mimir_backend.Folders.Moved.{itself, child_of, move_folder-below}
use mimir_backend.Folders.Sound.{IsSound}
use mimir_backend.Folders.Steps.{created, renamed, start, next, Reach-IsSound}
use mimir_backend.Folders.Wildcards.{rename-percent}

abbrev ann : Actor
ann = record { actor_id = some "ann"; role = none; scope_profile_id = none }

abbrev folder : String → Option String → String → String → ℕ → Folder
folder i parent name path depth = record {
  id = i;
  owner_id = "ann";
  parent_id = parent;
  name = codes name;
  path = codes path;
  depth = depth;
}

abbrev tables : List Folder → Tables
tables fs = record { folders = fs; documents = []; document_folder = [] }

abbrev work : Folder
work = folder "1" none "work" "/work/" 0

abbrev plans : Folder
plans = folder "2" (some "1") "plans" "/work/plans/" 1

empty-IsSound : IsSound (tables [])
empty-IsSound = record {
  tree = record { placed = λ f r. elim r [ ]; named = λ f r. elim r [ ]; distinct = refl };
  filed = λ d r. elim r [ ];
}

abbrev both : Tables
both = tables (work ∷ plans ∷ [])

made : create_folder (tables []) ann "1" none (codes "  work ") ≡ ok (tables (work ∷ []))
unfolding create_folder normalize_name normalize_display_name compute_child_path create constrained
made = refl

made_below : create_folder (tables (work ∷ [])) ann "2" (some "1") (codes "plans") ≡ ok both
unfolding create_folder normalize_name normalize_display_name compute_child_path create constrained
    get_by_id
made_below = refl

abbrev job : Tables
job = tables (folder "1" none "job" "/job/" 0 ∷ folder "2" (some "1") "plans" "/job/plans/" 1 ∷ [])

found_work : get_by_id both.folders "1" none ≡ some work
unfolding get_by_id
found_work = refl

made_job : rename_folder both ann "1" (codes "job") ≡ ok job
unfolding rename_folder get_folder normalize_name normalize_display_name rename relocate constrained
    get_by_id is_below like_under
made_job = refl

Reach-IsSound_example : IsSound job
Reach-IsSound_example =
    Reach-IsSound
      (next
        (next (next start (created ann "1" none (codes "  work ") made))
          (created ann "2" (some "1") (codes "plans") made_below))
        (renamed ann "1" (codes "job") work found_work refl made_job))
      empty-IsSound

both-IsSound : IsSound both
both-IsSound =
    Reach-IsSound
      (next (next start (created ann "1" none (codes "  work ") made))
        (created ann "2" (some "1") (codes "plans") made_below))
      empty-IsSound

move_folder-below_example : move_folder both ann "1" (some "2") ≡ err cyclic
move_folder-below_example =
    move_folder-below both ann work plans both-IsSound.tree here (there here) refl
      (child_of work plans here refl itself)

-- `/a%/` is renamed, and the unrelated `/abc/` becomes `/new//`.
abbrev percent : Folder
percent = folder "1" none "a%" "/a%/" 0

abbrev bystander : Folder
bystander = folder "2" none "abc" "/abc/" 0

renamed_percent :
    rename (percent ∷ bystander ∷ []) percent (codes "new")
    ≡ ok (folder "1" none "new" "/new/" 0 ∷ folder "2" none "abc" "/new//" 0 ∷ [])
unfolding rename relocate constrained is_below like_under
renamed_percent = refl

rename-percent_example :
    Row
      (folder "2" none "abc" "/new//" 0)
      (folder "1" none "new" "/new/" 0 ∷ folder "2" none "abc" "/new//" 0 ∷ [])
rename-percent_example =
    rename-percent (percent ∷ bystander ∷ []) percent bystander (codes "new") (codes "/a")
      (codes "bc") (there here) refl refl refl refl refl renamed_percent
