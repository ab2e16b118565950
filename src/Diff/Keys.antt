-- ===== src/Diff/Keys.antt =====
-- The keys of the diff caches, app/services/diff_service.py: of two document ids without a colon, no
-- key is a key of both.
use Prim.Native.Char.{code}
use Prim.Native.String.{◌++◌ as ◌+++◌}
use text.Mathlib.TextLemmas.{
  nil-append, cons-append, head-eq_of_cons-eq, tail-eq_of_cons-eq, append_cancel_left,
}
use mimir_backend.Prelude.{String, ◌≡◌, refl, sym, ap, ◌∙◌, Bool, true, not, ◌&&◌, arith, ◌==◌}
use mimir_backend.Prelude.Order.{sorted_pair}
use mimir_backend.Diff.Cache.{cache_key}

-- The id holds no colon, as no UUID does.
unfoldable pub has_no_colon : String → Bool
has_no_colon String.[] = true
has_no_colon (String.◌∷◌ c s) = not (code c == b':') && has_no_colon s

colon_append : (r : String) → ":" +++ r ≡ String.◌∷◌ ":" r
colon_append r = cons-append ":" "" r ∙ ap (String.◌∷◌ ":") (nil-append r)

-- The part before the first colon.
first_part :
    (x y r s : String)
    → has_no_colon x ≡ true
    → has_no_colon y ≡ true
    → x +++ String.◌∷◌ ":" r ≡ y +++ String.◌∷◌ ":" s
    → x ≡ y
unfolding has_no_colon
first_part String.[] String.[] r s h k e = refl
first_part String.[] (String.◌∷◌ c y) r s h k e =
    let heads =
      head-eq_of_cons-eq
        (sym (nil-append (String.◌∷◌ ":" r)) ∙ e ∙ cons-append c y (String.◌∷◌ ":" s)) in
    absurd (ground (arith, ap code heads))
first_part (String.◌∷◌ c x) String.[] r s h k e =
    let heads =
      head-eq_of_cons-eq
        (sym (cons-append c x (String.◌∷◌ ":" r)) ∙ e ∙ nil-append (String.◌∷◌ ":" s)) in
    absurd (ground (arith, ap code heads))
first_part (String.◌∷◌ c x) (String.◌∷◌ d y) r s h k e =
    let both = sym (cons-append c x (String.◌∷◌ ":" r)) ∙ e ∙ cons-append d y (String.◌∷◌ ":" s) in
    let rest = first_part x y r s (ground arith) (ground arith) (tail-eq_of_cons-eq both) in
    cc (head-eq_of_cons-eq both, rest)

pub cache_key-document :
    (d d' a b a' b' : String)
    → has_no_colon d ≡ true
    → has_no_colon d' ≡ true
    → cache_key d a b ≡ cache_key d' a' b'
    → d ≡ d'
unfolding cache_key
cache_key-document d d' a b a' b' h k e =
    let (x, y) = sorted_pair a b in
    let (x', y') = sorted_pair a' b' in
    let cut =
      append_cancel_left "diff:" (d +++ (":" +++ (x +++ (":" +++ y))))
        (d' +++ (":" +++ (x' +++ (":" +++ y')))) e in
    first_part d d' (x +++ (":" +++ y)) (x' +++ (":" +++ y')) h k (
      ap (d +++◌) (sym (colon_append (x +++ (":" +++ y))))
      ∙ cut
      ∙ ap (d' +++◌) (colon_append (x' +++ (":" +++ y'))))
