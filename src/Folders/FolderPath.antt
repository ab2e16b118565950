-- ===== src/Folders/FolderPath.antt =====
-- The texts of folder paths: the name of a folder, the path of a child, the tests of a prefix in
-- Python and in SQL. app/utils/strings.py and app/repositories/folders_repository.py.
use mimir_backend.Prelude.{
  ℕ, Bool, true, false, not, ◌&&◌, ◌||◌, List, [], ◌∷◌, ◌++◌, Option, none, some, ltb, ◌==◌,
  if◌then◌else◌, length, Text,
}
use mimir_backend.Prelude.Raises.{Result, ok, require}
use mimir_backend.Prelude.Splitting.{is_empty, words}

-- The reasons for which a call on folders fails; `database` is an error of the database that the
-- service does not catch.
pub data FolderError : Type 0 where
  unauthenticated invalid_name not_found too_deep self_parent cyclic conflict not_empty :
      FolderError
  assertion database : FolderError

abbrev slash : ℕ
slash = b'/'

-- `"/" in name`, negated
abbrev pub no_slash : Text → Bool
no_slash [] = true
no_slash (c ∷ s) = not (c == b'/') && no_slash s

-- `" ".join(parts)`
abbrev pub spaced_words : List Text → Text
spaced_words [] = []
spaced_words (w ∷ []) = w
spaced_words (w ∷ v ∷ ws) = w ++ 32 ∷ spaced_words (v ∷ ws)

-- `normalize_display_name` of a name that is there
unfoldable pub normalize_display_name : ℕ → ℕ → Bool → Text → Result FolderError Text
normalize_display_name min_len max_len forbid_slash raw =
    let name = spaced_words (words raw) in
    require (not (ltb (length name) min_len || ltb max_len (length name))) invalid_name
      (require (not forbid_slash || no_slash name) invalid_name (ok name))

-- `_normalize_name` of the folders
unfoldable pub normalize_name : Text → Result FolderError Text
normalize_name = normalize_display_name 1 200 true

-- `name.replace("/", "_")`
abbrev pub safe_name : Text → Text
safe_name [] = []
safe_name (c ∷ s) = (if c == b'/' then b'_' else c) ∷ safe_name s

-- `s.startswith(p)`
abbrev pub starts_with : Text → Text → Bool
starts_with [] s = true
starts_with (p ∷ ps) [] = false
starts_with (p ∷ ps) (c ∷ s) = p == c && starts_with ps s

-- `s.endswith("/")`
abbrev pub ends_with_slash : Text → Bool
ends_with_slash [] = false
ends_with_slash (c ∷ s) = is_empty s && c == b'/' || ends_with_slash s

-- `compute_child_path`, with its assertion
unfoldable pub compute_child_path : Option Text → Text → Result FolderError Text
compute_child_path none name = ok (b'/' ∷ safe_name name ++ b'/' ∷ [])
compute_child_path (some parent_path) name =
    require (starts_with (b'/' ∷ []) parent_path && ends_with_slash parent_path) assertion
      (ok (parent_path ++ (safe_name name ++ b'/' ∷ [])))

abbrev pub any_rest : (Text → Bool) → Text → Bool
any_rest f [] = f []
any_rest f (c ∷ s) = f (c ∷ s) || any_rest f s

abbrev pub after_one : (ℕ → Bool) → (Text → Bool) → Text → Bool
after_one test f [] = false
after_one test f (c ∷ s) = test c && f s

-- SQL's `LIKE` with `\` as its escape; the first argument says that the last character was one.
abbrev pub matches : Bool → Text → Text → Bool
matches escaped [] s = not escaped && is_empty s
matches escaped (p ∷ ps) s =
    let literal = λ (t : Text). matches false ps t in
    let escape = λ (t : Text). matches true ps t in
    if escaped
    then after_one (λ c. p == c) literal s
    else if p == 92
    then escape s
    else if p == b'%'
    then any_rest literal s
    else if p == b'_'
    then after_one (λ c. true) literal s
    else after_one (λ c. p == c) literal s

-- `path LIKE current_path || '%'`
unfoldable pub like_under : Text → Text → Bool
like_under current_path path = matches false (current_path ++ b'%' ∷ []) path
