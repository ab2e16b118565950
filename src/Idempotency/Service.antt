-- ===== src/Idempotency/Service.antt =====
-- The service and its table. The hash of a request is an argument: it is the library's, over a
-- sorted JSON text. A response is the text of its data with the two ids of its request. What the
-- column of the table gives back for such a text is an argument too (`as_stored`): the data is written
-- as JSON (`model_dump`, `json.dumps` with `default=str`), and a time, for one, comes back as a text.
use mimir_backend.Prelude.{
  ℕ, String, Bool, ◌&&◌, List, [], ◌∷◌, ◌++◌, map, Option, none, some, ltb, all, find?, str_eq,
  if◌then◌else◌, length, codes, is_space,
}
use mimir_backend.Prelude.Raises.{Result, ok, err}

-- What makes a record unique: the key, the stored actor and the action.
pub record Slot : Type 0 where
  pub key : String
  pub actor : String
  pub action : String

pub record IdempotencyRecord : Type 0 where
  pub slot : Slot
  pub request_fingerprint : String
  pub status : String
  pub response_status_code : Option ℕ
  pub response_body : Option String
  pub resource_id : Option String
  pub request_id : Option String
  pub trace_id : Option String

pub record SuccessResponse : Type 0 where
  pub payload : String
  pub request_id : Option String
  pub trace_id : Option String

-- A write request as the service sees it.
pub record Call : Type 0 where
  pub actor_id : Option String
  pub action : String
  pub request_body : String
  pub path_params : Option String
  pub request_id : Option String
  pub trace_id : Option String

-- What is hashed.
pub record Components : Type 0 where
  pub action : String
  pub actor_id : String
  pub body : String
  pub path : Option String

pub data Error : Type 0 where
  blank_key key_too_long already_in_progress different_request : Error

abbrev pub Table : Type 0
Table = List IdempotencyRecord

abbrev pub max_key_length : ℕ
max_key_length = 255

-- `_actor_key`, and `actor_id or "anonymous"`
abbrev pub actor_key : Option String → String
actor_key none = "anonymous"
actor_key (some a) = if str_eq a "" then "anonymous" else a

abbrev pub slot_of : String → Call → Slot
slot_of key c = record { key = key; actor = actor_key c.actor_id; action = c.action }

unfoldable pub same_slot : Slot → Slot → Bool
same_slot s t = str_eq s.key t.key && str_eq s.actor t.actor && str_eq s.action t.action

-- `_validate_key`
unfoldable pub validate_key : String → Option Error
validate_key key =
    if all is_space (codes key)
    then some blank_key
    else if ltb max_key_length (length (codes key))
    then some key_too_long
    else none

-- `_compute_fingerprint`
unfoldable pub compute_fingerprint : (Components → String) → Call → String
compute_fingerprint digest c = digest (record {
  action = c.action;
  actor_id = actor_key c.actor_id;
  body = c.request_body;
  path = c.path_params;
})

-- idempotency_repository.get
unfoldable pub get : Table → Slot → Option IdempotencyRecord
get t s = find? (λ (r : IdempotencyRecord). same_slot r.slot s) t

abbrev pub new_record : Slot → String → Call → IdempotencyRecord
new_record s fingerprint c = record {
  slot = s;
  request_fingerprint = fingerprint;
  status = "in_progress";
  response_status_code = none;
  response_body = none;
  resource_id = none;
  request_id = c.request_id;
  trace_id = c.trace_id;
}

-- idempotency_repository.create_in_progress
unfoldable pub create_in_progress : Table → Slot → String → Call → Table
create_in_progress t s fingerprint c = t ++ new_record s fingerprint c ∷ []

abbrev pub complete : Slot → String → Option String → IdempotencyRecord → IdempotencyRecord
complete s body resource_id r =
    if same_slot r.slot s
    then record r {
      status = "completed";
      response_status_code = some 200;
      response_body = some body;
      resource_id = resource_id;
    }
    else r

abbrev pub fail : Slot → IdempotencyRecord → IdempotencyRecord
fail s r = if same_slot r.slot s then record r { status = "failed" } else r

-- idempotency_repository.mark_completed
unfoldable pub mark_completed_row : Table → Slot → String → Option String → Table
mark_completed_row t s body resource_id = map (complete s body resource_id) t

-- idempotency_repository.mark_failed
unfoldable pub mark_failed_row : Table → Slot → Table
mark_failed_row t s = map (fail s) t

-- a record that is there: a conflict, a replay, or leave to write
unfoldable pub replay : String → Call → IdempotencyRecord → Result Error (Option SuccessResponse)
replay fingerprint c r =
    if str_eq r.status "in_progress"
    then err already_in_progress
    else if str_eq r.request_fingerprint fingerprint
    then (if str_eq r.status "completed"
        then ok (elim r.response_body [
          | none ↦ none
          | some body ↦
              some (record { payload = body; request_id = c.request_id; trace_id = c.trace_id })
        ])
        else ok none)
    else err different_request

abbrev pub answer :
    Table
    → Slot
    → String
    → Call
    → Option IdempotencyRecord
    → Result Error (Option SuccessResponse) × Table
answer t s fingerprint c none = (ok none, create_in_progress t s fingerprint c)
answer t s fingerprint c (some r) = (replay fingerprint c r, t)

abbrev pub checked :
    (Components → String)
    → String
    → Call
    → Bool
    → Table
    → Option Error
    → Result Error (Option SuccessResponse) × Table
checked digest key c available t (some e) = (err e, t)
checked digest key c available t none =
    if available
    then answer t (slot_of key c) (compute_fingerprint digest c) c (get t (slot_of key c))
    else (ok none, t)

-- `check_and_replay`; `available` says whether the database answers
unfoldable pub check_and_replay :
    (Components → String)
    → Option String
    → Call
    → Bool
    → Table
    → Result Error (Option SuccessResponse) × Table
check_and_replay digest none c available t = (ok none, t)
check_and_replay digest (some key) c available t =
    checked digest key c available t (validate_key key)

-- `finalize`; `as_stored` is what the JSON column gives back for the data of a response
unfoldable pub finalize :
    (String → String)
    → Option String
    → Call
    → Option String
    → SuccessResponse
    → Bool
    → Table
    → Table
finalize as_stored none c resource_id response available t = t
finalize as_stored (some key) c resource_id response available t =
    if available
    then mark_completed_row t (slot_of key c) (as_stored response.payload) resource_id
    else t

-- `mark_failed`
unfoldable pub mark_failed : Option String → Call → Bool → Table → Table
mark_failed none c available t = t
mark_failed (some key) c available t = if available then mark_failed_row t (slot_of key c) else t
