-- ===== src/Throttle/Refined.antt =====
-- The cache of app/audit/viewed_throttle.py against the time of the last event of each key.
use mimir_backend.Prelude.{
  ℕ, ◌+◌, ◌≤◌, Bool, true, false, not, ◌||◌, ◌==◌, List, [], ◌∷◌, Option, none, some, ◌≡◌, refl, ap,
  ◌∙◌, inl, inr, arith, Bool-cases, if◌then◌else◌, length, length-append, str_eq, eq_iff,
}
use mimir_backend.Throttle.Window.{
  Cache, Key, same_key, get, without, set_last, evict, within_window, window_seconds,
  max_entries_of, emit_local, should_emit_view,
}

-- A view: its actor and document, and its time.
abbrev pub View : Type 0
View = Key × ℕ

-- The answers to a sequence of views, while the external store does not answer.
unfoldable pub emit_all : Option ℕ → Option ℕ → Cache → List View → List Bool
emit_all window_raw max_raw c [] = []
emit_all window_raw max_raw c ((k, now) ∷ views) =
    let one = should_emit_view c window_raw max_raw none (some k.0) k.1 now in
    one.1 ∷ emit_all window_raw max_raw one.0 views

-- Both the actor and the document are named.
abbrev pub is_named : Key → Bool
is_named k = not (str_eq k.0 "" || str_eq k.1 "")

-- What is promised: with the time of the last event of each key, an event exactly where both are
-- named and none was within the window.
abbrev pub LastEvent : Type 0
LastEvent = Key → Option ℕ

abbrev pub noted : LastEvent → Key → ℕ → LastEvent
noted last k now j = if same_key k j then some now else last j

unfoldable pub expected : ℕ → LastEvent → List View → List Bool
expected window last [] = []
expected window last ((k, now) ∷ views) =
    let again = expected window last views in
    let later = expected window (noted last k now) views in
    if not (is_named k) || within_window (last k) now window then false ∷ again else true ∷ later

get-set_last :
    (c : Cache) (k : Key) (now : ℕ) (j : Key)
    → get (set_last c k now) j ≡ (if same_key k j then some now else get c j)
unfolding get without
get-set_last [] k now j = refl
get-set_last ((i, ts) ∷ c) k now j = ground (
  arith,
  get-set_last c k now j,
  eq_iff i.0 k.0,
  eq_iff i.1 k.1,
  eq_iff i.0 j.0,
  eq_iff i.1 j.1,
  eq_iff k.0 j.0,
  eq_iff k.1 j.1,
)

length-without : (c : Cache) (k : Key) → length (without c k) ≤ length c
unfolding without
length-without [] k = omega arith
length-without ((i, ts) ∷ c) k = ground (arith, length-without c k)

length-set_last : (c : Cache) (k : Key) (now : ℕ) → length (set_last c k now) ≤ length c + 1
length-set_last c k now =
    omega (arith, length-append (without c k) ((k, now) ∷ []), length-without c k)

evict-id : (max_entries : ℕ) (c : Cache) → length c ≤ max_entries → evict max_entries c ≡ c
unfolding evict
evict-id max_entries [] h = refl
evict-id max_entries (e ∷ c) h = ground arith

-- One view, with a window that is not 0.
should_emit_view-named :
    (window_raw max_raw : Option ℕ) (c : Cache) (k : Key) (now : ℕ)
    → (window_seconds window_raw == 0) ≡ false
    → should_emit_view c window_raw max_raw none (some k.0) k.1 now ≡ (
        if not (is_named k) || within_window (get c k) now (window_seconds window_raw)
        then (c, false)
        else (evict (max_entries_of max_raw) (set_last c k now), true))
unfolding should_emit_view emit_local
should_emit_view-named window_raw max_raw c k now positive = elim (Bool-cases (str_eq k.0 "")) [
  | inl a ↦ rw a refl
  | inr a ↦ elim (Bool-cases (str_eq k.1 "")) [
    | inl d ↦ rw (a, d) refl
    | inr d ↦ rw (a, d, positive) refl
  ]
]

module _ (window_raw max_raw : Option ℕ) (positive : (window_seconds window_raw == 0) ≡ false) where
  emit_all-expected :
      (c : Cache) (last : LastEvent) (views : List View)
      → ((j : Key) → get c j ≡ last j)
      → length c + length views ≤ max_entries_of max_raw
      → emit_all window_raw max_raw c views ≡ expected (window_seconds window_raw) last views
  unfolding emit_all expected
  emit_all-expected c last [] same h = refl
  emit_all-expected c last ((k, now) ∷ views) same h =
      let step =
        should_emit_view-named window_raw max_raw c k now positive
        ∙ ap
            (λ (o : Option ℕ).
              if not (is_named k) || within_window o now (window_seconds window_raw)
              then (c, false)
              else (evict (max_entries_of max_raw) (set_last c k now), true))
            (same k) in
      elim (Bool-cases
        (not (is_named k) || within_window (last k) now (window_seconds window_raw))) [
          | inl e ↦ rw (step, e) (ap (false ∷◌) (emit_all-expected c last views same (omega arith)))
          | inr e ↦
              let room = length-set_last c k now in
              let kept =
                evict-id (max_entries_of max_raw) (set_last c k now) (omega (arith, room)) in
              rw (step, e)
                (ap (λ (d : Cache). true ∷ emit_all window_raw max_raw d views) kept
                  ∙ ap (true ∷◌) (
                      emit_all-expected (set_last c k now) (noted last k now) views
                        (λ j.
                          get-set_last c k now j
                          ∙ ap (λ (o : Option ℕ). if same_key k j then some now else o) (same j))
                        (omega (arith, room))))
        ]

-- Suppose that the window is not 0 and that the external store does not answer. From the empty
-- cache, and for no more views than the cache holds entries, the answers are those of the
-- specification: a view is an event exactly if its actor and its document are named and no event of
-- theirs lies within the window before it.
pub emit_all-Refines :
    (window_raw max_raw : Option ℕ) (views : List View)
    → (window_seconds window_raw == 0) ≡ false
    → length views ≤ max_entries_of max_raw
    → emit_all window_raw max_raw [] views ≡ expected (window_seconds window_raw) (λ j. none) views
unfolding get
emit_all-Refines window_raw max_raw views positive h =
    emit_all-expected window_raw max_raw positive [] (λ j. none) views (λ j. refl) (omega arith)
