-- ===== src/Ledger/Types.antt =====
-- The constants, states, entries and errors of internal/nodeledger/ledger.go.
use brezel.Common.{
  ℕ, ◌-◌, ◌*◌, ◌^◌, ◌≡◌, ◌↔◌, Bool, true, false, ◌&&◌, List, [], arith, Comparable, ◌==◌, nat_eq,
  Text, text_eq, text_beq_iff, Time,
}

abbrev pub current_schema_version : ℕ
current_schema_version = 1

abbrev pub max_ledger_bytes : ℕ
max_ledger_bytes = 16 * 2 ^ 20

abbrev pub max_routes : ℕ
max_routes = 65_536

abbrev pub max_engine_id_bytes : ℕ
max_engine_id_bytes = 1_024

abbrev pub max_uint64 : ℕ
max_uint64 = 2 ^ 64 - 1

-- The text of a state; `unrecognised` holds any text that is none of the five constants.
pub data State : Type 0 where
  attaching ready draining standby released : State
  unrecognised : Text → State

abbrev rank : State → ℕ
rank attaching = 0
rank ready = 1
rank draining = 2
rank standby = 3
rank released = 4
rank (unrecognised t) = 5

abbrev spelling : State → Text
spelling (unrecognised t) = t
spelling _ = []

unfoldable pub state_beq : State → State → Bool
state_beq a b = rank a == rank b && spelling a == spelling b

pub state_beq_iff : (a b : State) → (state_beq a b ≡ true) ↔ (a ≡ b)
unfolding state_beq
state_beq_iff a b = (
  λ h. ground (arith, text_beq_iff (spelling a) (spelling b)),
  λ h. ground (arith, text_beq_iff (spelling a) (spelling b)),
)

instance abbrev pub state_eq : Comparable State
state_eq = record { equal = state_beq; equal_iff = state_beq_iff }

pub record Route : Type 0 where
  pub route_id : Text
  pub project_id : Text
  pub sandbox_id : Text
  pub generation : ℕ
  pub state : State
  pub last_activity : Time

pub record Binding : Type 0 where
  pub route : Route
  pub engine_id : Text

pub record DiskEntry : Type 0 where
  pub route_id : Text
  pub project_id : Text
  pub sandbox_id : Text
  pub engine_id : Text
  pub generation : ℕ
  pub state : State
  pub last_activity : Time

abbrev pub Routes : Type 0
Routes = List (Text × DiskEntry)

-- `routes_nil` tells a nil map, which reads as the empty one.
pub record DiskState : Type 0 where
  pub schema_version : ℕ
  pub last_generation : ℕ
  pub routes : Routes
  pub routes_nil : Bool

pub record DiskEnvelope : Type 0 where
  pub state : DiskState
  pub checksum : Text

pub record OperationKey : Type 0 where
  pub route_id : Text
  pub project_id : Text
  pub sandbox_id : Text
  pub generation : ℕ

unfoldable pub key_beq : OperationKey → OperationKey → Bool
key_beq a b =
    a.route_id == b.route_id
    && (a.project_id == b.project_id
        && (a.sandbox_id == b.sandbox_id && a.generation == b.generation))

pub key_beq_iff : (a b : OperationKey) → (key_beq a b ≡ true) ↔ (a ≡ b)
unfolding key_beq
key_beq_iff a b = (
  λ h. ground (
    arith,
    text_beq_iff a.route_id b.route_id,
    text_beq_iff a.project_id b.project_id,
    text_beq_iff a.sandbox_id b.sandbox_id,
  ),
  λ h. ground (
    arith,
    text_beq_iff a.route_id b.route_id,
    text_beq_iff a.project_id b.project_id,
    text_beq_iff a.sandbox_id b.sandbox_id,
  ),
)

instance abbrev pub key_eq : Comparable OperationKey
key_eq = record { equal = key_beq; equal_iff = key_beq_iff }

-- What validateDiskState finds wrong with a state.
pub data Problem : Type 0 where
  schema missing_routes route_count key_mismatch bad_identity generation_clock : Problem
  shared_generation bad_state bad_activity retained_engine bad_engine shared_engine : Problem
  shared_sandbox : Problem

pub data Error : Type 0 where
  not_found conflict stale_generation state_conflict illegal_transition active_operations : Error
  ledger_closed corrupt invalid generation_exhausted disk_failure : Error
  invalid_state : Problem → Error

abbrev pub new_disk_state : DiskState
new_disk_state = record {
  schema_version = current_schema_version;
  last_generation = 0;
  routes = [];
  routes_nil = false;
}

unfoldable pub public_from_disk : DiskEntry → Route
public_from_disk e = record {
  route_id = e.route_id;
  project_id = e.project_id;
  sandbox_id = e.sandbox_id;
  generation = e.generation;
  state = e.state;
  last_activity = e.last_activity;
}

unfoldable pub binding_from_disk : DiskEntry → Binding
unfolding public_from_disk
binding_from_disk e = record { route = public_from_disk e; engine_id = e.engine_id }
