-- ===== src/Idempotency/Records.antt =====
-- The table of the idempotency records: what is found in it after each of its statements.
use mathlib.Core.Option
use mimir_backend.Prelude.{
  ◌≡◌, refl, sym, ◌∙◌, String, Bool, true, false, [], ◌∷◌, ◌++◌, Option, none, some, arith, find?,
  find?-map, eq_iff, eq_refl, if◌then◌else◌,
}
use mimir_backend.Idempotency.Service.{
  Slot, IdempotencyRecord, Call, Table, same_slot, get, new_record, create_in_progress, complete,
  fail, mark_completed_row, mark_failed_row,
}

pub same_slot_refl : (s : Slot) → same_slot s s ≡ true
unfolding same_slot
same_slot_refl s = ground (arith, eq_refl s.key, eq_refl s.actor, eq_refl s.action)

-- A slot that differs from another one differs for all that equal it.
pub same_slot_trans : (r s t : Slot) → same_slot r s ≡ true → same_slot r t ≡ same_slot s t
unfolding same_slot
same_slot_trans r s t h =
    ground (arith, eq_iff r.key s.key, eq_iff r.actor s.actor, eq_iff r.action s.action)

same_slot_right : (r s u : Slot) → same_slot s u ≡ true → same_slot r s ≡ same_slot r u
unfolding same_slot
same_slot_right r s u h =
    ground (arith, eq_iff s.key u.key, eq_iff s.actor u.actor, eq_iff s.action u.action)

abbrev or_last : Option IdempotencyRecord → Option IdempotencyRecord → Option IdempotencyRecord
or_last none r = r
or_last (some x) r = some x

find-snoc :
    (p : IdempotencyRecord → Bool) (t : Table) (r : IdempotencyRecord)
    → find? p (t ++ r ∷ []) ≡ or_last (find? p t) (if p r then some r else none)
find-snoc p [] r = refl
find-snoc p (x ∷ t) r = ground (arith, find-snoc p t r)

placed :
    (b : Bool) (o : Option IdempotencyRecord) (r : IdempotencyRecord)
    → (b ≡ true → o ≡ none)
    → or_last o (if b then some r else none) ≡ (if b then some r else o)
placed true none r h = refl
placed true (some x) r h = absurd (cc (h refl))
placed false none r h = refl
placed false (some x) r h = refl

get-same_slot : (t : Table) (s u : Slot) → same_slot s u ≡ true → get t s ≡ get t u
unfolding get
get-same_slot [] s u h = refl
get-same_slot (r ∷ t) s u h =
    let rest : find? (λ (x : IdempotencyRecord). same_slot x.slot s) t
        ≡ find? (λ (x : IdempotencyRecord). same_slot x.slot u) t =
      get-same_slot t s u h in
    rw (rest, same_slot_right r.slot s u h) refl

-- A new record is found in its slot, and hides no other.
pub get-create_in_progress :
    (t : Table) (s u : Slot) (f : String) (c : Call)
    → get t s ≡ none
    → get (create_in_progress t s f c) u
      ≡ (if same_slot s u then some (new_record s f c) else get t u)
unfolding get create_in_progress
get-create_in_progress t s u f c h =
    find-snoc (λ (r : IdempotencyRecord). same_slot r.slot u) t (new_record s f c)
    ∙ placed (same_slot s u) (get t u) (new_record s f c) (λ e. sym (get-same_slot t s u e) ∙ h)

pub get-mark_completed :
    (t : Table) (s u : Slot) (body : String) (id : Option String)
    → get (mark_completed_row t s body id) u ≡ Option.map (complete s body id) (get t u)
unfolding get mark_completed_row
get-mark_completed t s u body id =
    find?-map (λ (r : IdempotencyRecord). same_slot r.slot u) (complete s body id)
      (λ r. ground arith) t

pub get-mark_failed :
    (t : Table) (s u : Slot) → get (mark_failed_row t s) u ≡ Option.map (fail s) (get t u)
unfolding get mark_failed_row
get-mark_failed t s u =
    find?-map (λ (r : IdempotencyRecord). same_slot r.slot u) (fail s) (λ r. ground arith) t
