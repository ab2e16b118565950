-- ===== src/Throttle/Tests.antt =====
-- Runs of the throttling at concrete views.
use mimir_backend.Prelude.{true, false, List, [], ◌∷◌, none, ◌≡◌, refl, arith}
use mimir_backend.Throttle.Refined.{View, emit_all, expected, emit_all-Refines}

abbrev views : List View
views =
    (("ann", "d"), 1000)
    ∷ (("ann", "d"), 1200)
    ∷ (("bob", "d"), 1201)
    ∷ (("ann", "d"), 1300)
    ∷ (("", "d"), 1400)
    ∷ []

emit_all-Refines_example : emit_all none none [] views ≡ expected 300 (λ j. none) views
emit_all-Refines_example = emit_all-Refines none none views refl (omega arith)

answers : expected 300 (λ j. none) views ≡ true ∷ false ∷ true ∷ true ∷ false ∷ []
unfolding expected
answers = refl
