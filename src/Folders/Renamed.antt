-- ===== src/Folders/Renamed.antt =====
-- `rename` of app/repositories/folders_repository.py keeps the tree of folders.
use mathlib.Core.Path.{subst}
use mimir_backend.Prelude.{
  ℕ, ◌+◌, ◌-◌, ◌≤◌, String, true, false, not, ◌||◌, List, [], ◌∷◌, ◌++◌, map, ◌≡◌, refl, sym, ap,
  ◌∙◌, inl, inr, arith, Bool-cases, all, length, length-append, take, str_eq, Text,
}
use mimir_backend.Prelude.Raises.{ok, required, returned}
use mimir_backend.Folders.FolderPath.{database, no_slash, safe_name, starts_with}
use mimir_backend.Folders.Store.{
  Folder, unique, constrained, is_below, shiftable, set_row, shift_row, relocate, rename,
}
use mimir_backend.Folders.Prefix.{slash_end, is_plain, safe_name_lem, take_self, length-starts_with}
use mimir_backend.Prelude.Rows.{Row, Row-map, all-Row}
use mimir_backend.Folders.Tree.{Placed, root, child, IsTree, constrained-unique}
use mimir_backend.Folders.Carried.{NewPlace, top, into, Relocation, set_row-different}
use mimir_backend.Folders.Relocated.{relocated-IsTree}

map-map : (g h : Folder → Folder) (fs : List Folder) → map g (map h fs) ≡ map (λ f. g (h f)) fs
map-map g h [] = refl
map-map g h (f ∷ fs) = ap (g (h f) ∷◌) (map-map g h fs)

below-id : (current f : Folder) → is_below current f ≡ true → str_eq f.id current.id ≡ false
unfolding is_below
below-id current f h = elim (Bool-cases (str_eq f.id current.id)) [
  | inr e ↦ e
  | inl e ↦ absurd (ground arith)
]

shiftable-le :
    (current f : Folder) (new_depth : ℕ)
    → is_below current f ≡ true
    → not (is_below current f) || shiftable current.depth new_depth f ≡ true
    → current.depth ≤ f.depth + new_depth
shiftable-le current f new_depth below test = ground arith

-- A test of the shifted depths, passed, holds of each row below the folder.
relocate-room :
    (fs : List Folder) (current : Folder) (change : Folder → Folder) (new_depth : ℕ)
    → all
        (λ f. not (is_below current f) || shiftable current.depth new_depth f)
        (map (set_row current.id change) fs)
      ≡ true
    → (f : Folder) → Row f fs
    → is_below current f ≡ true
    → current.depth ≤ f.depth + new_depth
relocate-room fs current change new_depth h f at below =
    let same = set_row-different current.id change f (below-id current f below) in
    let test =
      all-Row (λ f. not (is_below current f) || shiftable current.depth new_depth f)
        (map (set_row current.id change) fs) (set_row current.id change f)
        (Row-map (set_row current.id change) at) h in
    shiftable-le current f new_depth below (
      subst (λ (k : Folder). not (is_below current k) || shiftable current.depth new_depth k ≡ true)
        same test)

-- A relocation that the database accepts keeps the tree.
pub relocate-IsTree :
    (fs : List Folder) (current : Folder) (change : Folder → Folder)
    → (((f : Folder)
          → Row f fs
          → is_below current f ≡ true
          → current.depth ≤ f.depth + (change current).depth)
        → Relocation fs current change)
    → {fs' : List Folder}
    → relocate fs current change (change current).path (change current).depth ≡ ok fs'
    → IsTree fs'
unfolding relocate
relocate-IsTree fs current change make h =
    let (fs1, first, rest) = returned (constrained (map (set_row current.id change) fs)) _ h in
    let (e1, _) = constrained-unique (map (set_row current.id change) fs) first in
    let (room, second) =
      required
        (all (λ f. not (is_below current f) || shiftable current.depth (change current).depth f)
          fs1)
        database _ rest in
    let (e2, u) =
      constrained-unique (map (shift_row current (change current).path (change current).depth) fs1)
        second in
    let whole =
      sym (
        map-map (shift_row current (change current).path (change current).depth)
          (set_row current.id change) fs)
      ∙ (ap (map (shift_row current (change current).path (change current).depth)) e1) in
    let r = make (
      relocate-room fs current change (change current).depth (
        subst
          (λ (ks : List Folder).
            all (λ f. not (is_below current f) || shiftable current.depth (change current).depth f)
              ks
            ≡ true)
          (sym e1) room)) in
    subst IsTree (whole ∙ e2) (
      relocated-IsTree fs current change r
        (subst (λ (ks : List Folder). unique ks ≡ true) (sym whole) u))

path_prefix :
    (q name : Text)
    → take (length (q ++ (name ++ slash_end)) - (length name + 1)) (q ++ (name ++ slash_end)) ≡ q
path_prefix q name =
    let size : length (q ++ (name ++ slash_end)) - (length name + 1) ≡ length q =
      omega (arith, length-append q (name ++ slash_end), length-append name slash_end) in
    rw size (take_self q (name ++ slash_end))

-- What stands before the name of a folder in its path.
prefix_lem :
    (current : Folder) (q : Text)
    → current.path ≡ q ++ (current.name ++ slash_end)
    → take (length current.path - (length current.name + 1)) current.path ≡ q
prefix_lem current q e =
    ap (λ (t : Text). take (length t - (length current.name + 1)) t) e ∙ path_prefix q current.name

-- The path that `rename` writes.
abbrev pub renamed_path : Folder → Text → Text
renamed_path current new_name =
    take (length current.path - (length current.name + 1)) current.path
    ++ (safe_name new_name ++ slash_end)

renamed_path_lem :
    (current : Folder) (q new_name : Text)
    → no_slash new_name ≡ true
    → current.path ≡ q ++ (current.name ++ slash_end)
    → renamed_path current new_name ≡ q ++ (new_name ++ slash_end)
renamed_path_lem current q new_name named e =
    ap (λ (t : Text). t ++ (safe_name new_name ++ slash_end)) (prefix_lem current q e)
    ∙ ap (λ (t : Text). q ++ (t ++ slash_end)) (safe_name_lem new_name named)

-- The parent's path is shorter than the folder's.
not_above :
    (current : Folder) (q : Text)
    → current.path ≡ q ++ (current.name ++ slash_end)
    → starts_with current.path q ≡ false
not_above current q e = elim (Bool-cases (starts_with current.path q)) [
  | inr no_prefix ↦ no_prefix
  | inl prefix ↦ absurd (
      omega (
        arith,
        length-starts_with current.path q prefix,
        ap length e,
        length-append q (current.name ++ slash_end),
        length-append current.name slash_end,
      ))
]

rename-NewPlace :
    (fs : List Folder) (current : Folder) (new_name : Text)
    → no_slash new_name ≡ true
    → Placed fs current
    → NewPlace fs current (record current { name = new_name; path = renamed_path current new_name })
rename-NewPlace fs current new_name named (root no_parent e d) =
    top no_parent (renamed_path_lem current slash_end new_name named e) d
rename-NewPlace fs current new_name named (child q at parent o e d) =
    into q at (not_above current q.path e) parent o
      (renamed_path_lem current q.path new_name named e) d

-- `rename` keeps the tree.
pub rename-IsTree :
    (fs : List Folder) (current : Folder) (new_name : Text)
    → IsTree fs
    → Row current fs
    → is_plain current.path ≡ true
    → no_slash new_name ≡ true
    → {fs' : List Folder} → rename fs current new_name ≡ ok fs'
    → IsTree fs'
unfolding rename
rename-IsTree fs current new_name tree at plain named h =
    relocate-IsTree fs current
      (λ f. record f { name = new_name; path = renamed_path current new_name })
      (λ room. record {
        tree = tree;
        at = at;
        plain = plain;
        same_id = refl;
        same_owner = refl;
        named = named;
        place = rename-NewPlace fs current new_name named (tree.placed current at);
        room = room;
      })
      h

set_row-id :
    (folder_id : String) (change : Folder → Folder)
    → ((f : Folder) → (change f).id ≡ f.id)
    → (f : Folder) → (set_row folder_id change f).id ≡ f.id
set_row-id folder_id change same f = elim (Bool-cases (str_eq f.id folder_id)) [
  | inl e ↦ rw e (same f)
  | inr e ↦ rw e refl
]

shift_row-id :
    (current : Folder) (new_path : Text) (new_depth : ℕ) (f : Folder)
    → (shift_row current new_path new_depth f).id ≡ f.id
shift_row-id current new_path new_depth f = elim (Bool-cases (is_below current f)) [
  | inl e ↦ rw e refl
  | inr e ↦ rw e refl
]

-- A relocation leaves a row with each id that was there.
pub relocate-ids :
    (fs : List Folder) (current : Folder) (change : Folder → Folder) (new_path : Text)
    (new_depth : ℕ)
    → ((f : Folder) → (change f).id ≡ f.id)
    → {fs' : List Folder} → relocate fs current change new_path new_depth ≡ ok fs'
    → (f : Folder) → Row f fs
    → (f' : Folder) × Row f' fs' × (f'.id ≡ f.id)
unfolding relocate
relocate-ids fs current change new_path new_depth same h f at =
    let (fs1, first, rest) = returned (constrained (map (set_row current.id change) fs)) _ h in
    let (e1, _) = constrained-unique (map (set_row current.id change) fs) first in
    let (_, second) =
      required (all (λ f. not (is_below current f) || shiftable current.depth new_depth f) fs1)
        database _ rest in
    let (e2, _) = constrained-unique (map (shift_row current new_path new_depth) fs1) second in
    let f1 : Folder = set_row current.id change f in
    let at1 = subst (Row f1) e1 (Row-map (set_row current.id change) at) in
    (
      shift_row current new_path new_depth f1,
      subst (Row (shift_row current new_path new_depth f1)) e2
          (Row-map (shift_row current new_path new_depth) at1),
      shift_row-id current new_path new_depth f1 ∙ set_row-id current.id change same f,
    )

pub rename-ids :
    (fs : List Folder) (current : Folder) (new_name : Text) {fs' : List Folder}
    → rename fs current new_name ≡ ok fs'
    → (f : Folder) → Row f fs
    → (f' : Folder) × Row f' fs' × (f'.id ≡ f.id)
unfolding rename
rename-ids fs current new_name h =
    relocate-ids fs current
      (λ f. record f { name = new_name; path = renamed_path current new_name })
      (renamed_path current new_name) current.depth (λ f. refl) h
