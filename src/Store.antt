-- ===== src/Store.antt =====
-- internal/store/store.go: the state of the controller, its keys and its validation. A Go map is an
-- association list, and a nil one is empty.
pub mod Files
pub mod Scopes
pub mod Reachable
pub mod Sequences
pub mod Durable
use brezel.Common.{
  ℕ, ◌+◌, Bool, true, false, not, ◌&&◌, ◌||◌, List, [], ◌∷◌, ◌++◌, Option, none, some, leb, ◌==◌,
  nat_eq, if◌then◌else◌, all, any, length, lookup, contains_any, Text, text_eq, codes, safe_name,
  split_on, hex_decode, ℤ, pos, int_beq, Result, ok, err, ◌>>◌, require,
}
use brezel.Domain.Resources.{Environment}
use brezel.Domain.Records.{Sandbox, Operation, Checkpoint, Workspace, Connector, Event}

pub data Error : Type 0 where
  closed not_found unsupported_schema invalid_state invalid_event bad_details : Error
  encode_failed too_large disk_failed unreadable : Error
  -- what the function of an Update returns
  caller : Text → Error

pub record State : Type 0 where
  pub schema_version : ℤ
  pub environments : List (Text × Environment)
  pub sandboxes : List (Text × Sandbox)
  pub operations : List (Text × Operation)
  pub checkpoints : List (Text × Checkpoint)
  pub workspaces : List (Text × Workspace)
  pub connectors : List (Text × Connector)
  pub events : List Event
  pub idempotency : List (Text × Text)
  pub idempotency_digests : List (Text × Text)

abbrev pub current_schema_version : ℤ
current_schema_version = pos 1

abbrev pub new_state : State
new_state = record {
  schema_version = current_schema_version;
  environments = [];
  sandboxes = [];
  operations = [];
  checkpoints = [];
  workspaces = [];
  connectors = [];
  events = [];
  idempotency = [];
  idempotency_digests = [];
}

unfoldable pub scoped_key : Text → Text → Text
scoped_key project resource = project ++ 0 ∷ resource

unfoldable pub idempotency_key : Text → Text → Text → Text
idempotency_key project kind key = project ++ 0 ∷ (kind ++ 0 ∷ key)

-- `strings.ContainsAny(s, "\x00\r\n")`
abbrev pub has_break : Text → Bool
has_break s = contains_any s (0 ∷ 13 ∷ 10 ∷ [])

unfoldable pub require_scoped_identity : Text → Text → Text → Bool
require_scoped_identity key project resource =
    safe_name project
    && (not (resource == [] || has_break resource) && key == scoped_key project resource)

-- A sandbox has all of a node assignment or none of it.
unfoldable pub valid_assignment : Sandbox → Bool
valid_assignment s =
    let has_node =
      not (s.node_id == []) || (not (s.node_route_id == []) || not (s.node_generation == 0)) in
    not (has_node && (s.node_id == [] || (s.node_route_id == [] || s.node_generation == 0)))
    && not (has_break (s.node_id ++ s.node_route_id))

-- An entry of the idempotency index names an operation of its project, kind and key.
unfoldable pub names_operation : List (Text × Operation) → Text → List Text → Bool
names_operation operations id (project ∷ kind ∷ key ∷ []) =
    not (project == [] || (kind == [] || key == []))
    && elim (lookup (scoped_key project id) operations) [
      | none ↦ false
      | some operation ↦
          operation.project_id == project
          && (operation.kind == kind && operation.idempotency_key == key)
    ]
names_operation operations id _ = false

unfoldable pub valid_digest : List (Text × Text) → Text → Text → Bool
valid_digest index key digest =
    elim (lookup key index) [ none ↦ false | some id ↦ true ]
    && elim (hex_decode digest) [ none ↦ false | some decoded ↦ length decoded == 32 ]

unfoldable pub valid_state : State → Bool
valid_state s =
    all (λ (key, v). require_scoped_identity key v.project_id v.revision_id) s.environments
    && (all (λ (key, v). require_scoped_identity key v.project_id v.id && valid_assignment v)
          s.sandboxes
        && (all (λ (key, v). require_scoped_identity key v.project_id v.id) s.operations
            && (all (λ (key, v). require_scoped_identity key v.project_id v.id) s.checkpoints
                && (all (λ (key, v). require_scoped_identity key v.project_id v.id) s.workspaces
                    && (all (λ (key, v). require_scoped_identity key v.project_id v.revision_id)
                          s.connectors
                        && (all (λ (key, id). names_operation s.operations id (split_on 0 key))
                              s.idempotency
                            && all (λ (key, digest). valid_digest s.idempotency key digest)
                                s.idempotency_digests))))))

unfoldable pub validate_state : State → Result Error (Unit {0})
validate_state s =
    require (int_beq s.schema_version current_schema_version) unsupported_schema
    >> require (valid_state s) invalid_state
