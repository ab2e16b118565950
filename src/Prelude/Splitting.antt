-- ===== src/Prelude/Splitting.antt =====
-- Python's `strip`, `split`, `isdigit` and `int` on texts as code points.
use Prim.Native.Nat.{ℕ, ◌+◌, ◌-◌, ◌*◌}
use mathlib.Core.Bool.{Bool, true, false, not, ◌&&◌}
use mathlib.Core.List.{List, [], ◌∷◌}
use mathlib.Core.Option.{Option, none, some}
use mimir_backend.Prelude.Tests.{leb, ◌==◌, if◌then◌else◌}
use mimir_backend.Prelude.Lists.{all}
use mimir_backend.Prelude.Strings.{Text, is_space}

abbrev pub is_empty : Text → Bool
is_empty [] = true
is_empty (c ∷ s) = false

abbrev pub lstrip : Text → Text
lstrip [] = []
lstrip (c ∷ s) = let t = lstrip s in if is_space c then t else c ∷ s

abbrev pub without_end : Text → Text
without_end [] = []
without_end (c ∷ s) = let t = without_end s in if is_empty t && is_space c then [] else c ∷ t

-- `s.strip()`
abbrev pub strip : Text → Text
strip s = without_end (lstrip s)

abbrev join_head : ℕ → List Text → List Text
join_head c [] = (c ∷ []) ∷ []
join_head c (t ∷ ts) = (c ∷ t) ∷ ts

-- `s.split(sep)` for one character: never an empty list
abbrev pub split_on : ℕ → Text → List Text
split_on sep [] = [] ∷ []
split_on sep (c ∷ s) = let rest = split_on sep s in if c == sep then [] ∷ rest else join_head c rest

-- The pieces that are not empty.
abbrev pub nonempty : List Text → List Text
nonempty [] = []
nonempty (t ∷ ts) = let rest = nonempty ts in if is_empty t then rest else t ∷ rest

abbrev spaced : Text → Text
spaced [] = []
spaced (c ∷ s) = (if is_space c then 32 else c) ∷ spaced s

-- `s.split()`
abbrev pub words : Text → List Text
words s = nonempty (split_on 32 (spaced s))

-- `s.split(sep, 1)` where the character is there, `none` where it is not
abbrev pub push_first : ℕ → Option (Text × Text) → Option (Text × Text)
push_first c none = none
push_first c (some (s, t)) = some (c ∷ s, t)

abbrev pub split_first : ℕ → Text → Option (Text × Text)
split_first sep [] = none
split_first sep (c ∷ s) =
    let rest = split_first sep s in if c == sep then some ([], s) else push_first c rest

abbrev pub is_digit : ℕ → Bool
is_digit c = leb b'0' c && leb c b'9'

-- `s.isdigit()`, exact for ASCII texts
abbrev pub is_digits : Text → Bool
is_digits s = not (is_empty s) && all is_digit s

abbrev number_from : ℕ → Text → ℕ
number_from n [] = n
number_from n (c ∷ s) = number_from (n * 10 + (c - b'0')) s

-- `int(s)` of digits
abbrev pub number : Text → ℕ
number = number_from 0
