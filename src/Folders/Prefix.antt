-- ===== src/Folders/Prefix.antt =====
-- Prefixes of folder paths, for app/repositories/folders_repository.py.
use mimir_backend.Prelude.{
  ◌≤◌, Bool, true, false, not, ◌&&◌, ◌||◌, [], ◌∷◌, ◌++◌, ◌≡◌, refl, ap, ◌⊎◌, inl, inr, arith,
  Bool-cases, ==_iff, ◌==◌, length, take, drop, Text,
}
use mimir_backend.Folders.FolderPath.{
  no_slash, safe_name, starts_with, matches, any_rest, like_under,
}

-- The end of every path.
abbrev pub slash_end : Text
slash_end = b'/' ∷ []

-- No character of the text is special to `LIKE`.
abbrev pub is_plain : Text → Bool
is_plain [] = true
is_plain (c ∷ s) = not (c == 92 || c == b'%' || c == b'_') && is_plain s

any_rest-is_empty : (s : Text) → any_rest (matches false []) s ≡ true
any_rest-is_empty [] = refl
any_rest-is_empty (c ∷ s) = ground (arith, any_rest-is_empty s)

-- Without special characters `LIKE` tests a prefix.
pub like_under-starts_with : (p s : Text) → is_plain p ≡ true → like_under p s ≡ starts_with p s
unfolding like_under
like_under-starts_with [] s h = any_rest-is_empty s
like_under-starts_with (c ∷ p) [] h = ground arith
like_under-starts_with (c ∷ p) (d ∷ s) h = ground (arith, like_under-starts_with p s)

pub starts_with-append : (p s t : Text) → starts_with p s ≡ true → starts_with p (s ++ t) ≡ true
starts_with-append [] s t h = refl
starts_with-append (c ∷ p) [] t h = absurd (cc h)
starts_with-append (c ∷ p) (d ∷ s) t h = ground (arith, starts_with-append p s t)

pub starts_with_self : (p s : Text) → starts_with p (p ++ s) ≡ true
starts_with_self [] s = refl
starts_with_self (c ∷ p) s = ground (arith, starts_with_self p s)

pub starts_with_refl : (p : Text) → starts_with p p ≡ true
starts_with_refl [] = refl
starts_with_refl (c ∷ p) = ground (arith, starts_with_refl p)

pub length-starts_with : (p s : Text) → starts_with p s ≡ true → length p ≤ length s
length-starts_with [] s h = omega arith
length-starts_with (c ∷ p) [] h = absurd (cc h)
length-starts_with (c ∷ p) (d ∷ s) h = ground (arith, length-starts_with p s)

pub drop-append :
    (p s t : Text) → starts_with p s ≡ true → drop (length p) (s ++ t) ≡ drop (length p) s ++ t
drop-append [] s t h = refl
drop-append (c ∷ p) [] t h = absurd (cc h)
drop-append (c ∷ p) (d ∷ s) t h = ground (arith, drop-append p s t)

pub drop_self : (p s : Text) → drop (length p) (p ++ s) ≡ s
drop_self [] s = refl
drop_self (c ∷ p) s = drop_self p s

pub take_self : (p s : Text) → take (length p) (p ++ s) ≡ p
take_self [] s = refl
take_self (c ∷ p) s = ap (c ∷◌) (take_self p s)

pub safe_name_lem : (name : Text) → no_slash name ≡ true → safe_name name ≡ name
safe_name_lem [] h = refl
safe_name_lem (c ∷ s) h = ground (arith, safe_name_lem s)

-- A name with its end has no prefix that ends with a slash but itself.
name_cut :
    (p name : Text)
    → no_slash name ≡ true
    → starts_with (p ++ slash_end) (name ++ slash_end) ≡ true
    → p ≡ name
name_cut [] [] h e = refl
name_cut [] (d ∷ name) h e = absurd (ground arith)
name_cut (c ∷ []) [] h e = absurd (ground arith)
name_cut (c ∷ c' ∷ p) [] h e = absurd (ground arith)
name_cut (c ∷ p) (d ∷ name) h e = ground (arith, name_cut p name, ==_iff c d)

-- A prefix of a child's path that ends with a slash is a prefix of the parent's path, or all of it.
pub path_cut :
    (p q name : Text)
    → no_slash name ≡ true
    → starts_with (p ++ slash_end) (q ++ (name ++ slash_end)) ≡ true
    → (starts_with (p ++ slash_end) q ≡ true) ⊎ (p ++ slash_end ≡ q ++ (name ++ slash_end))
path_cut p [] name h e = inr (ap (λ (s : Text). s ++ slash_end) (name_cut p name h e))
path_cut [] (d ∷ q) name h e = inl (ground arith)
path_cut (c ∷ p) (d ∷ q) name h e = elim (Bool-cases (c == d)) [
  | inr other ↦ absurd (ground arith)
  | inl same ↦ elim (path_cut p q name h (ground arith)) [
    | inl below ↦ inl (ground arith)
    | inr all ↦ inr (cc ((==_iff c d).0 same))
  ]
]
