-- ===== src/Folders/Wildcards.antt =====
-- What a rename does where a folder's name has a percent sign, which `LIKE` reads as a pattern:
-- `rename` of app/repositories/folders_repository.py.
use mathlib.Core.Path.{subst}
use mimir_backend.Prelude.{
  ℕ, true, false, not, ◌||◌, List, [], ◌∷◌, ◌++◌, map, ◌≡◌, refl, ap, ◌∙◌, arith, all, drop, length,
  str_eq, eq_iff, Text, append_assoc,
}
use mimir_backend.Prelude.Raises.{ok, required, returned}
use mimir_backend.Folders.FolderPath.{database, matches, any_rest, like_under}
use mimir_backend.Folders.Store.{
  Folder, constrained, is_below, shiftable, set_row, shift_row, shifted, relocate, rename,
}
use mimir_backend.Folders.Prefix.{slash_end, is_plain}
use mimir_backend.Prelude.Rows.{Row, Row-map}
use mimir_backend.Folders.Tree.{constrained-unique}
use mimir_backend.Folders.Carried.{set_row-different, shift_row-below}
use mimir_backend.Folders.Renamed.{renamed_path}

any_rest-slash : (t : Text) → any_rest (matches false (b'/' ∷ b'%' ∷ [])) (t ++ slash_end) ≡ true
any_rest-slash [] = refl
any_rest-slash (c ∷ t) = rw (any_rest-slash t) (ground arith)

matches-percent :
    (pre t : Text)
    → is_plain pre ≡ true
    → matches false (pre ++ b'%' ∷ b'/' ∷ b'%' ∷ []) (pre ++ (t ++ slash_end)) ≡ true
matches-percent [] t h = any_rest-slash t
matches-percent (c ∷ pre) t h = ground (arith, matches-percent pre t)

like_under-percent :
    (path pre t : Text)
    → is_plain pre ≡ true
    → path ≡ pre ++ b'%' ∷ slash_end
    → like_under path (pre ++ (t ++ slash_end)) ≡ true
unfolding like_under
like_under-percent path pre t h e =
    rw (e, append_assoc pre (b'%' ∷ slash_end) (b'%' ∷ [])) (matches-percent pre t h)

is_below-percent :
    (current f : Folder) (pre t : Text)
    → str_eq f.id current.id ≡ false
    → f.owner_id ≡ current.owner_id
    → is_plain pre ≡ true
    → current.path ≡ pre ++ b'%' ∷ slash_end
    → f.path ≡ pre ++ (t ++ slash_end)
    → is_below current f ≡ true
unfolding is_below
is_below-percent current f pre t e o plain p q =
    let matched : like_under current.path f.path ≡ true =
      ap (like_under current.path) q ∙ like_under-percent current.path pre t plain p in
    let owned : str_eq f.owner_id current.owner_id ≡ true =
      (eq_iff f.owner_id current.owner_id).1 o in
    rw (owned, matched, e) refl

-- The second statement rewrites each row that it matches.
relocate-Row :
    (fs : List Folder) (current f : Folder) (change : Folder → Folder) (new_path : Text)
    (new_depth : ℕ)
    → Row f fs
    → str_eq f.id current.id ≡ false
    → is_below current f ≡ true
    → {fs' : List Folder} → relocate fs current change new_path new_depth ≡ ok fs'
    → Row (shifted current.path new_path current.depth new_depth f) fs'
unfolding relocate
relocate-Row fs current f change new_path new_depth at e below {fs'} h =
    let (fs1, first, rest) = returned (constrained (map (set_row current.id change) fs)) _ h in
    let (e1, _) = constrained-unique (map (set_row current.id change) fs) first in
    let (_, second) =
      required (all (λ k. not (is_below current k) || shiftable current.depth new_depth k) fs1)
        database _ rest in
    let (e2, _) = constrained-unique (map (shift_row current new_path new_depth) fs1) second in
    let at1 = subst (Row f) e1 (
      subst (λ (k : Folder). Row k (map (set_row current.id change) fs))
        (set_row-different current.id change f e) (Row-map (set_row current.id change) at)) in
    subst (λ (k : Folder). Row k fs')
      (shift_row-below current (record current { path = new_path; depth = new_depth }) f below)
      (subst (Row (shift_row current new_path new_depth f)) e2
        (Row-map (shift_row current new_path new_depth) at1))

-- Suppose that a folder's name ends with a percent sign, and that what stands before the sign in
-- its path is not special to `LIKE`. When the folder is renamed, the path of every other folder of
-- the owner that begins with that text and ends with a slash is rewritten too, whether or not the
-- folder lies below: its first characters, as many as the old path has, are replaced by the new path.
pub rename-percent :
    (fs : List Folder) (current f : Folder) (new_name pre t : Text)
    → Row f fs
    → str_eq f.id current.id ≡ false
    → f.owner_id ≡ current.owner_id
    → is_plain pre ≡ true
    → current.path ≡ pre ++ b'%' ∷ slash_end
    → f.path ≡ pre ++ (t ++ slash_end)
    → {fs' : List Folder} → rename fs current new_name ≡ ok fs'
    → Row
        (record f { path = renamed_path current new_name ++ drop (length current.path) f.path })
        fs'
unfolding rename
rename-percent fs current f new_name pre t at e o plain p q {fs'} h =
    let below = is_below-percent current f pre t e o plain p q in
    subst
      (λ (d : ℕ).
        Row
          (record f {
            path = renamed_path current new_name ++ drop (length current.path) f.path;
            depth = d;
          })
          fs')
      (omega arith)
      (relocate-Row fs current f
        (λ k. record k { name = new_name; path = renamed_path current new_name })
        (renamed_path current new_name) current.depth at e below h)
