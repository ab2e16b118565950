-- ===== src/Prelude/Order.antt =====
-- The two texts of a pair, the smaller one first: Python's `sorted` of two texts.
use Prim.Native.Nat.{ℕ, Ordering, compare as compare_ℕ}
use Prim.Native.Char.{code}
use Prim.Native.String.compare
use Prim.Native.String.{String, [], ◌∷◌, compare, then}
use mathlib.Core.Path.{◌≡◌, refl, sym, ap, ◌∙◌}
use native.Mathlib.Omega.{arith}
use text.Mathlib.TextEquality.{path_by_compare}

abbrev flip : Ordering → Ordering
flip Ordering.lt = Ordering.gt
flip Ordering.eq = Ordering.eq
flip Ordering.gt = Ordering.lt

compare_ℕ-flip : (m n : ℕ) → compare_ℕ n m ≡ flip (compare_ℕ m n)
compare_ℕ-flip m n = ground arith

then-flip : (o p : Ordering) → then (flip o) (flip p) ≡ flip (then o p)
then-flip Ordering.lt p = refl
then-flip Ordering.eq p = refl
then-flip Ordering.gt p = refl

compare-flip : (s t : String) → compare t s ≡ flip (compare s t)
compare-flip [] [] = compare.nil-nil ∙ ap flip (sym compare.nil-nil)
compare-flip [] (d ∷ t) = compare.cons-nil d t ∙ ap flip (sym (compare.nil-cons d t))
compare-flip (c ∷ s) [] = compare.nil-cons c s ∙ ap flip (sym (compare.cons-nil c s))
compare-flip (c ∷ s) (d ∷ t) =
    compare.cons-cons d c t s
    ∙ ap (λ o. then o (compare t s)) (compare_ℕ-flip (code c) (code d))
    ∙ ap (λ o. then (flip (compare_ℕ (code c) (code d))) o) (compare-flip s t)
    ∙ then-flip (compare_ℕ (code c) (code d)) (compare s t)
    ∙ ap flip (sym (compare.cons-cons c d s t))

unfoldable pub sorted_pair : String → String → String × String
sorted_pair s t = elim (compare s t) [ Ordering.gt ↦ (t, s) | _ ↦ (s, t) ]

abbrev pick : String → String → Ordering → String × String
pick s t o = elim o [ Ordering.gt ↦ (t, s) | _ ↦ (s, t) ]

pick-flip : (s t : String) (o : Ordering) → compare s t ≡ o → pick t s (flip o) ≡ pick s t o
pick-flip s t Ordering.lt h = refl
pick-flip s t Ordering.eq h =
    ap (λ (u : String). pick t u Ordering.eq) (path_by_compare s t h)
    ∙ ap (λ (u : String). pick u t Ordering.eq) (sym (path_by_compare s t h))
pick-flip s t Ordering.gt h = refl

-- The order of the arguments does not matter.
pub sorted_pair_comm : (s t : String) → sorted_pair t s ≡ sorted_pair s t
unfolding sorted_pair
sorted_pair_comm s t = ap (pick t s) (compare-flip s t) ∙ pick-flip s t (compare s t) refl
