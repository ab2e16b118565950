-- ===== src/Idempotency/Retries.antt =====
-- What a retried request gets.
use mimir_backend.Prelude.{
  ◌≡◌, refl, ap, ◌∙◌, String, Bool, true, false, Option, none, some, str_eq, eq_refl, if◌then◌else◌,
}
use mimir_backend.Prelude.Raises.{ok, err}
use mimir_backend.Idempotency.Service.{
  Slot, IdempotencyRecord, SuccessResponse, Call, Components, already_in_progress,
  different_request, Table, slot_of, validate_key, compute_fingerprint, get, new_record,
  create_in_progress, mark_completed_row, mark_failed_row, replay, check_and_replay, finalize,
  mark_failed,
}
use mimir_backend.Idempotency.Records.{
  same_slot_refl, get-create_in_progress, get-mark_completed, get-mark_failed,
}

-- The key is well formed, and has no record for this actor and action.
abbrev Fresh : String → Call → Table → Type 0
Fresh key c t = (validate_key key ≡ none) × (get t (slot_of key c) ≡ none)

after_check :
    (digest : Components → String) (key : String) (c : Call) (t : Table)
    → Fresh key c t
    → check_and_replay digest (some key) c true t
      ≡ (ok none, create_in_progress t (slot_of key c) (compute_fingerprint digest c) c)
unfolding check_and_replay
after_check digest key c t (valid, absent) = rw (valid, absent) refl

get-reserved :
    (key : String) (c : Call) (f : String) (t : Table)
    → get t (slot_of key c) ≡ none
    → get (create_in_progress t (slot_of key c) f c) (slot_of key c)
      ≡ some (new_record (slot_of key c) f c)
get-reserved key c f t h =
    get-create_in_progress t (slot_of key c) (slot_of key c) f c h
    ∙ rw (same_slot_refl (slot_of key c)) refl

-- A call that finds a record in its slot.
check_and_replay-some :
    (digest : Components → String) (key : String) (c : Call) (t : Table) (r : IdempotencyRecord)
    → validate_key key ≡ none
    → get t (slot_of key c) ≡ some r
    → check_and_replay digest (some key) c true t ≡ (replay (compute_fingerprint digest c) c r, t)
unfolding check_and_replay
check_and_replay-some digest key c t r valid found = rw (valid, found) refl

-- A call while the store does not answer.
check_and_replay-unavailable :
    (digest : Components → String) (key : String) (c : Call) (t : Table)
    → validate_key key ≡ none
    → check_and_replay digest (some key) c false t ≡ (ok none, t)
unfolding check_and_replay
check_and_replay-unavailable digest key c t valid = rw valid refl

-- A well-formed key without a record is reserved by the first call, made while the store answers. Until that request is
-- finalized or marked as failed, every other call of the same actor and action with that key is
-- refused, whatever its body is, if the store answers then. If the store does not answer, the
-- other call may write. Neither changes the table.
pub check_and_replay-in_progress :
    (digest : Components → String) (key : String) (c d : Call) (available : Bool) (t : Table)
    → validate_key key ≡ none
    → get t (slot_of key c) ≡ none
    → slot_of key d ≡ slot_of key c
    → let (first, t') = check_and_replay digest (some key) c true t in
      (first ≡ ok none)
      × (check_and_replay digest (some key) d available t'
          ≡ (if available then err already_in_progress else ok none, t'))
unfolding replay
check_and_replay-in_progress digest key c d true t valid absent same =
    let f = compute_fingerprint digest c in
    rw (after_check digest key c t (valid, absent)) (
      refl,
      check_and_replay-some digest key d (create_in_progress t (slot_of key c) f c)
          (new_record (slot_of key c) f c) valid
          (ap (get (create_in_progress t (slot_of key c) f c)) same
            ∙ get-reserved key c f t absent),
    )
check_and_replay-in_progress digest key c d false t valid absent same =
    rw (after_check digest key c t (valid, absent))
      (refl, check_and_replay-unavailable digest key d _ valid)

-- A record that the first request leaves once it is finalized.
abbrev done : Slot → String → Call → String → Option String → IdempotencyRecord
done s f c body id = record (new_record s f c) {
  status = "completed";
  response_status_code = some 200;
  response_body = some body;
  resource_id = id;
}

get-finalized :
    (key : String) (c : Call) (f body : String) (id : Option String) (t : Table)
    → get t (slot_of key c) ≡ none
    → get
        (mark_completed_row (create_in_progress t (slot_of key c) f c) (slot_of key c) body id)
        (slot_of key c)
      ≡ some (done (slot_of key c) f c body id)
get-finalized key c f body id t h =
    get-mark_completed (create_in_progress t (slot_of key c) f c) (slot_of key c) (slot_of key c)
      body id
    ∙ rw (get-reserved key c f t h) (rw (same_slot_refl (slot_of key c)) refl)

-- Once a write with a well-formed key, of which there was no record, has been reserved and finalized
-- while the store answers, a retry with the same key, actor and action is answered from the record if the store answers then too: with what the JSON
-- column gives back for the data of the first response if the request has the same fingerprint, and
-- with an error if not. If the store does not answer, the retry may write. The table is not changed.
pub check_and_replay-finalized :
    (digest : Components → String) (as_stored : String → String) (key : String) (c d : Call)
    (id : Option String) (response : SuccessResponse) (available : Bool) (t : Table)
    → validate_key key ≡ none
    → get t (slot_of key c) ≡ none
    → slot_of key d ≡ slot_of key c
    → let t' =
        finalize as_stored
          (some key)
          c
          id
          response
          true
          (check_and_replay digest (some key) c true t).1 in
      check_and_replay digest (some key) d available t' ≡ (
        if available
            then (if str_eq (compute_fingerprint digest c) (compute_fingerprint digest d)
                then ok (
                    some (record {
                      payload = as_stored response.payload;
                      request_id = d.request_id;
                      trace_id = d.trace_id;
                    }))
                else err different_request)
            else ok none,
        t',
      )
unfolding finalize replay
check_and_replay-finalized digest as_stored key c d id response true t valid absent same =
    let f = compute_fingerprint digest c in
    let body = as_stored response.payload in
    let t' =
      mark_completed_row (create_in_progress t (slot_of key c) f c) (slot_of key c) body id in
    rw (after_check digest key c t (valid, absent)) (
      check_and_replay-some digest key d t' (done (slot_of key c) f c body id) valid
        (ap (get t') same ∙ get-finalized key c f body id t absent))
check_and_replay-finalized digest as_stored key c d id response false t valid absent same =
    check_and_replay-unavailable digest key d _ valid

abbrev broken : Slot → String → Call → IdempotencyRecord
broken s f c = record (new_record s f c) { status = "failed" }

get-failed :
    (key : String) (c : Call) (f : String) (t : Table)
    → get t (slot_of key c) ≡ none
    → get
        (mark_failed_row (create_in_progress t (slot_of key c) f c) (slot_of key c))
        (slot_of key c)
      ≡ some (broken (slot_of key c) f c)
get-failed key c f t h =
    get-mark_failed (create_in_progress t (slot_of key c) f c) (slot_of key c) (slot_of key c)
    ∙ rw (get-reserved key c f t h) (rw (same_slot_refl (slot_of key c)) refl)

-- After a failed write the key is not reserved again: a retry may write, and the table stays as it
-- is, so that a second retry at the same time may write too.
pub check_and_replay-not_reserved :
    (digest : Components → String) (key : String) (c : Call) (t : Table)
    → validate_key key ≡ none
    → get t (slot_of key c) ≡ none
    → let t' = mark_failed (some key) c true (check_and_replay digest (some key) c true t).1 in
      check_and_replay digest (some key) c true t' ≡ (ok none, t')
unfolding mark_failed replay
check_and_replay-not_reserved digest key c t valid absent =
    let f = compute_fingerprint digest c in
    rw (after_check digest key c t (valid, absent)) (
      check_and_replay-some digest key c
        (mark_failed_row (create_in_progress t (slot_of key c) f c) (slot_of key c))
        (broken (slot_of key c) f c) valid (get-failed key c f t absent)
      ∙ rw (eq_refl (compute_fingerprint digest c)) refl)
