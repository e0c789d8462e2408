-- ===== src/Controller/Types.antt =====
-- The state of internal/service's Service, the checks of a request, and the operations and events
-- that service.go makes. The store is a FileStore, on which UpdateRows is Update.
use brezel.Common.{
  ℕ, Bool, false, ◌&&◌, ◌||◌, List, [], ◌∷◌, ◌++◌, Option, none, some, leb, ◌==◌, nat_eq,
  if◌then◌else◌, all, length, is_alnum, lookup, insert, Text, text_eq, codes, safe_name, pos,
  int_beq, Time, Result, ◌>>◌, require,
}
use brezel.Domain.States.{
  SandboxState, requested, preparing, running, pausing, standby, resuming, deleting, deleted,
  expired, failed, unknown, state_code,
}
use brezel.Domain.Records.{Sandbox, Operation, Event}
use brezel.Ledger.Disk.{Faults}
use brezel.Store.{State, scoped_key, idempotency_key}
use brezel.Store.Files.{FileStore, sequence_after}

pub data Error : Type 0 where
  invalid not_found conflict quota backend_error no_randomness cancelled : Error
  stored : brezel.Store.Error → Error

-- activeGuestOps holds the ids of the guest operations of each sandbox; a set of keys is a list.
pub record Service : Type 0 where
  pub files : FileStore
  pub active_guest_ops : List (Text × List Text)
  pub active_guest_ops_by_project : List (Text × ℕ)
  pub active_backend_mutations : List Text
  pub recent_activity : List (Text × Time)

-- What a step meets outside: the clock, the random ids of an operation and an event, and the
-- failing calls of the file system.
pub record Outside : Type 0 where
  pub now : Time
  pub op_id : Option Text
  pub event_id : Text
  pub fails : Faults

-- safeIdempotencyKey: `^[A-Za-z0-9][A-Za-z0-9._:-]{7,199}$`
unfoldable pub is_key_byte : ℕ → Bool
is_key_byte b = is_alnum b || (b == 46 || (b == 95 || (b == 58 || b == 45)))

unfoldable pub safe_idempotency_key : Text → Bool
safe_idempotency_key [] = false
safe_idempotency_key (b ∷ bs) =
    is_alnum b && (all is_key_byte bs && (leb 7 (length bs) && leb (length bs) 199))

unfoldable pub require_mutation : Text → Text → Result Error (Unit {0})
require_mutation project key =
    require (safe_name project) invalid >> require (safe_idempotency_key key) invalid

abbrev pub state_text : SandboxState → Text
state_text requested = codes "requested"
state_text preparing = codes "preparing"
state_text running = codes "running"
state_text pausing = codes "pausing"
state_text standby = codes "standby"
state_text resuming = codes "resuming"
state_text deleting = codes "deleting"
state_text deleted = codes "deleted"
state_text expired = codes "expired"
state_text failed = codes "failed"
state_text unknown = codes "unknown"

unfoldable pub same_state : SandboxState → SandboxState → Bool
same_state a b = state_code a == state_code b

unfoldable pub event_for : Outside → Sandbox → Text → Text → Option Text → Event
event_for o sandbox operation kind details = record {
  id = o.event_id;
  sequence = pos 0;
  project_id = sandbox.project_id;
  resource_id = sandbox.id;
  operation_id = operation;
  kind = kind;
  state = sandbox.state;
  at = o.now;
  details = details;
}

-- appendEvent
unfoldable pub append_event : State → Event → State
append_event state event =
    let sequence = sequence_after event.project_id event.resource_id event.sequence state.events in
    let numbered = record event {
      sequence = if int_beq sequence (pos 0) then pos 1 else sequence;
    } in
    record state { events = state.events ++ numbered ∷ [] }

abbrev pub key_of : Sandbox → Text
key_of sandbox = scoped_key sandbox.project_id sandbox.id

-- `state.Sandboxes[key] = sandbox`, with the operation and an event
unfoldable pub put_sandbox : Sandbox → State → State
put_sandbox sandbox state = record state {
  sandboxes = insert (key_of sandbox) sandbox state.sandboxes;
}

unfoldable pub put_operation : Operation → State → State
put_operation op state = record state {
  operations = insert (scoped_key op.project_id op.id) op state.operations;
}

unfoldable pub put_idempotency : Text → Text → Text → Text → State → State
put_idempotency project kind key id state = record state {
  idempotency = insert (idempotency_key project kind key) id state.idempotency;
}

unfoldable pub guests_of : Service → Text → List Text
guests_of s key = elim (lookup key s.active_guest_ops) [ none ↦ [] | some ids ↦ ids ]

unfoldable pub has_active_guest_operations : Service → Text → Text → Bool
has_active_guest_operations s project id = leb 1 (length (guests_of s (scoped_key project id)))
