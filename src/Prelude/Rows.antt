-- ===== src/Prelude/Rows.antt =====
-- The rows of a table.
use mathlib.Core.Path.{◌≡◌, refl}
use mathlib.Core.Logic.{◌⊎◌, inl, inr}
use mathlib.Core.Bool.{Bool, true}
use mathlib.Core.List.{List, [], ◌∷◌, ◌++◌, map}
use mathlib.Core.Option.{some}
use native.Mathlib.Omega.{arith}
use mimir_backend.Prelude.Tests.{Bool-cases}
use mimir_backend.Prelude.Lists.{any, all, keep, find?}

pub data Row {A : Type 0} (f : A) : List A → Type 0 where
  here : {fs : List A} → Row f (f ∷ fs)
  there : {g : A} {fs : List A} → Row f fs → Row f (g ∷ fs)

module _ {A : Type 0} where
  Row-cons_inv : {f g : A} {fs : List A} → Row f (g ∷ fs) → (f ≡ g) ⊎ Row f fs
  Row-cons_inv here = inl refl
  Row-cons_inv (there r) = inr r

  pub Row-map : {B : Type 0} (g : A → B) {f : A} {fs : List A} → Row f fs → Row (g f) (map g fs)
  Row-map g here = here
  Row-map g (there r) = there (Row-map g r)

  pub Row-map_inv :
      {B : Type 0} (g : A → B) (fs : List A) {f' : B}
      → Row f' (map g fs)
      → (f : A) × Row f fs × (f' ≡ g f)
  Row-map_inv g [] r = elim r [ ]
  Row-map_inv g (f ∷ fs) here = (f, here, refl)
  Row-map_inv g (f ∷ fs) (there r) = let (k, at, e) = Row-map_inv g fs r in (k, there at, e)

  pub Row-append : (fs gs : List A) {f : A} → Row f fs → Row f (fs ++ gs)
  Row-append [] gs r = elim r [ ]
  Row-append (g ∷ fs) gs here = here
  Row-append (g ∷ fs) gs (there r) = there (Row-append fs gs r)

  pub Row-snoc_inv : (fs : List A) (g : A) {f : A} → Row f (fs ++ g ∷ []) → Row f fs ⊎ (f ≡ g)
  Row-snoc_inv [] g here = inr refl
  Row-snoc_inv [] g (there r) = elim r [ ]
  Row-snoc_inv (k ∷ fs) g here = inl here
  Row-snoc_inv (k ∷ fs) g (there r) = elim (Row-snoc_inv fs g r) [
    | inl at ↦ inl (there at)
    | inr e ↦ inr e
  ]

  pub any-Row : (p : A → Bool) (fs : List A) (f : A) → Row f fs → p f ≡ true → any p fs ≡ true
  any-Row p [] f r h = elim r [ ]
  any-Row p (g ∷ fs) f here h = rw h refl
  any-Row p (g ∷ fs) f (there r) h = rw (any-Row p fs f r h) (ground arith)

  pub all-Row : (p : A → Bool) (fs : List A) (f : A) → Row f fs → all p fs ≡ true → p f ≡ true
  all-Row p [] f r h = elim r [ ]
  all-Row p (g ∷ fs) f here h = ground arith
  all-Row p (g ∷ fs) f (there r) h = all-Row p fs f r (ground arith)

  pub Row-keep_inv :
      (p : A → Bool) (fs : List A) (f : A) → Row f (keep p fs) → Row f fs × (p f ≡ true)
  Row-keep_inv p [] f r = elim r [ ]
  Row-keep_inv p (g ∷ fs) f r = elim (Bool-cases (p g)) [
    | inl e ↦ elim (Row-cons_inv (rw e at r)) [
      | inl same ↦ rw same (here, e)
      | inr at ↦ let (older, h) = Row-keep_inv p fs f at in (there older, h)
    ]
    | inr e ↦ let (older, h) = Row-keep_inv p fs f (rw e at r) in (there older, h)
  ]

  pub Row-keep : (p : A → Bool) (fs : List A) (f : A) → Row f fs → p f ≡ true → Row f (keep p fs)
  Row-keep p [] f r h = elim r [ ]
  Row-keep p (g ∷ fs) f here h = rw h here
  Row-keep p (g ∷ fs) f (there r) h = elim (Bool-cases (p g)) [
    | inl yes' ↦ rw yes' (there (Row-keep p fs f r h))
    | inr no' ↦ rw no' (Row-keep p fs f r h)
  ]

  pub find?-Row :
      (p : A → Bool) (fs : List A) (f : A) → find? p fs ≡ some f → Row f fs × (p f ≡ true)
  find?-Row p [] f h = absurd (cc h)
  find?-Row p (g ∷ fs) f h = elim (Bool-cases (p g)) [
    | inl e ↦ let same : g ≡ f = cc (rw e at h) in rw (← same) (here, e)
    | inr e ↦ let (r, k) = find?-Row p fs f (rw e at h) in (there r, k)
  ]
