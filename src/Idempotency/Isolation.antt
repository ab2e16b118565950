-- ===== src/Idempotency/Isolation.antt =====
-- The records of different keys, actors and actions do not meet.
use mathlib.Core.Option
use mimir_backend.Prelude.{
  ◌≡◌, refl, ◌∙◌, String, Bool, true, false, Option, none, some, inl, inr, Bool-cases, find?-sound,
}
use mimir_backend.Idempotency.Service.{
  Slot, IdempotencyRecord, SuccessResponse, Call, Components, Error, Table, slot_of, same_slot,
  validate_key, compute_fingerprint, get, complete, fail, answer, checked, check_and_replay,
  finalize, mark_failed,
}
use mimir_backend.Idempotency.Records.{
  same_slot_trans, get-create_in_progress, get-mark_completed, get-mark_failed,
}

apart : (r u s : Slot) → same_slot r s ≡ true → same_slot u s ≡ false → same_slot r u ≡ false
apart r u s e h = elim (Bool-cases (same_slot r u)) [
  | inl k ↦ absurd (cc (same_slot_trans r u s k, e, h))
  | inr k ↦ k
]

module _ (t : Table) (u s : Slot) (h : same_slot u s ≡ false) where
  found_apart : (r : IdempotencyRecord) → get t s ≡ some r → same_slot r.slot u ≡ false
  unfolding get
  found_apart r e =
      apart r.slot u s (find?-sound (λ (x : IdempotencyRecord). same_slot x.slot s) t r e) h

  complete-kept :
      (body : String) (id : Option String) (o : Option IdempotencyRecord)
      → get t s ≡ o
      → Option.map (complete u body id) o ≡ o
  complete-kept body id none e = refl
  complete-kept body id (some r) e = rw (found_apart r e) refl

  fail-kept : (o : Option IdempotencyRecord) → get t s ≡ o → Option.map (fail u) o ≡ o
  fail-kept none e = refl
  fail-kept (some r) e = rw (found_apart r e) refl

answer-kept :
    (t : Table) (u s : Slot) (f : String) (c : Call) (o : Option IdempotencyRecord)
    → get t u ≡ o
    → same_slot u s ≡ false
    → get (answer t u f c o).1 s ≡ get t s
answer-kept t u s f c (some r) e h = refl
answer-kept t u s f c none e h = get-create_in_progress t u s f c e ∙ rw h refl

checked-kept :
    (digest : Components → String) (key : String) (c : Call) (available : Bool) (t : Table)
    (s : Slot) (e : Option Error)
    → same_slot (slot_of key c) s ≡ false
    → get (checked digest key c available t e).1 s ≡ get t s
checked-kept digest key c available t s (some e) h = refl
checked-kept digest key c false t s none h = refl
checked-kept digest key c true t s none h =
    answer-kept t (slot_of key c) s (compute_fingerprint digest c) c (get t (slot_of key c)) refl h

-- Whatever happens to one key, actor and action, the record of any other stays as it is.
pub other_slot-kept :
    (digest : Components → String) (as_stored : String → String) (key : String) (c : Call)
    (id : Option String) (response : SuccessResponse) (available : Bool) (t : Table) (s : Slot)
    → same_slot (slot_of key c) s ≡ false
    → (get (check_and_replay digest (some key) c available t).1 s ≡ get t s)
      × (get (finalize as_stored (some key) c id response available t) s ≡ get t s)
      × (get (mark_failed (some key) c available t) s ≡ get t s)
unfolding check_and_replay finalize mark_failed
other_slot-kept digest as_stored key c id response false t s h =
    (checked-kept digest key c false t s (validate_key key) h, refl, refl)
other_slot-kept digest as_stored key c id response true t s h = (
  checked-kept digest key c true t s (validate_key key) h,
  get-mark_completed t (slot_of key c) s (as_stored response.payload) id
      ∙ complete-kept t (slot_of key c) s h (as_stored response.payload) id (get t s) refl,
  get-mark_failed t (slot_of key c) s ∙ fail-kept t (slot_of key c) s h (get t s) refl,
)
