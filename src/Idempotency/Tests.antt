-- ===== src/Idempotency/Tests.antt =====
-- The retry theorems at one key, with a digest that joins two of the hashed parts.
use Prim.Native.String.{◌++◌ as ◌+++◌}
use mimir_backend.Prelude.{◌≡◌, refl, true, some, none, [], String}
use mimir_backend.Prelude.Raises.{ok, err}
use mimir_backend.Idempotency.Service.{
  Call, Components, SuccessResponse, Table, slot_of, same_slot, get, compute_fingerprint,
  validate_key, check_and_replay, finalize, mark_failed, already_in_progress,
}
use mimir_backend.Idempotency.Isolation.{other_slot-kept}
use mimir_backend.Idempotency.Retries.{
  check_and_replay-in_progress, check_and_replay-finalized, check_and_replay-not_reserved,
}

abbrev digest_of : Components → String
digest_of x = x.action +++ x.body

abbrev call : String → Call
call body = record {
  actor_id = some "kim";
  action = "documents.create";
  request_body = body;
  path_params = none;
  request_id = some "r1";
  trace_id = none;
}

abbrev no_rows : Table
no_rows = []

abbrev created : SuccessResponse
created = record { payload = "doc-1"; request_id = some "r1"; trace_id = none }

-- A column that does not give back what was written.
abbrev as_stored : String → String
as_stored body = "json:" +++ body

check_and_replay-in_progress_example :
    let (first, t) = check_and_replay digest_of (some "k1") (call "a") true no_rows in
    (first ≡ ok none)
    × (check_and_replay digest_of (some "k1") (call "b") true t ≡ (err already_in_progress, t))
unfolding validate_key get
check_and_replay-in_progress_example =
    check_and_replay-in_progress digest_of "k1" (call "a") (call "b") true no_rows refl refl refl

abbrev replayed : SuccessResponse
replayed = record { payload = "json:doc-1"; request_id = some "r1"; trace_id = none }

check_and_replay-finalized_example :
    let t =
      finalize as_stored
        (some "k1")
        (call "a")
        none
        created
        true
        (check_and_replay digest_of (some "k1") (call "a") true no_rows).1 in
    check_and_replay digest_of (some "k1") (call "a") true t ≡ (ok (some replayed), t)
unfolding validate_key get compute_fingerprint
check_and_replay-finalized_example =
    check_and_replay-finalized digest_of as_stored "k1" (call "a") (call "a") none created true
      no_rows refl refl refl

check_and_replay-not_reserved_example :
    let t =
      mark_failed
        (some "k1")
        (call "a")
        true
        (check_and_replay digest_of (some "k1") (call "a") true no_rows).1 in
    check_and_replay digest_of (some "k1") (call "a") true t ≡ (ok none, t)
unfolding validate_key get
check_and_replay-not_reserved_example =
    check_and_replay-not_reserved digest_of "k1" (call "a") no_rows refl refl

other_slot-kept_example :
    (get
        (check_and_replay digest_of (some "k1") (call "a") true no_rows).1
        (slot_of "k2" (call "a"))
      ≡ get no_rows (slot_of "k2" (call "a")))
    × (get
          (finalize as_stored (some "k1") (call "a") none created true no_rows)
          (slot_of "k2" (call "a"))
        ≡ get no_rows (slot_of "k2" (call "a")))
    × (get (mark_failed (some "k1") (call "a") true no_rows) (slot_of "k2" (call "a"))
        ≡ get no_rows (slot_of "k2" (call "a")))
unfolding same_slot
other_slot-kept_example =
    other_slot-kept digest_of as_stored "k1" (call "a") none created true no_rows
      (slot_of "k2" (call "a")) refl
