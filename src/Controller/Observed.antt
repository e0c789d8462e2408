-- ===== src/Controller/Observed.antt =====
-- What internal/service's reconciliation compares and writes: the versions of a sandbox and of an
-- operation, the operations that an observation settles, and the writes that check the stored
-- version again. UpdateRows on a FileStore is Update.
use brezel.Common.{
  ℕ, Bool, true, false, not, ◌&&◌, ◌||◌, List, [], ◌∷◌, ◌++◌, Option, none, some, ◌==◌, nat_eq,
  if◌then◌else◌, lookup, Text, text_eq, codes, has_prefix, pos, int_beq, int64_add, Time, before,
  Result, ok, err, ◌>>=◌, ◌>>◌, require, or_fail,
}
use brezel.Domain.States.{SandboxState, running, standby, deleted, failed, unknown}
use brezel.Domain.Records.{Sandbox, Operation, OperationState, Failure}
use brezel.Store.{State, scoped_key, caller}
use brezel.Store.Files.{Codec, FileStore, update}
use brezel.Controller.Types.{
  stored, Service, Outside, same_state, state_text, event_for, append_event, key_of,
}
use brezel.Controller.Transitions.{Called, code_details, unconfirmed, mark_unknown, is_target}

unfoldable pub same_sandbox_reconcile_version : Sandbox → Sandbox → Bool
same_sandbox_reconcile_version current expected =
    int_beq current.revision expected.revision
    && (current.backend_id == expected.backend_id
        && (current.node_id == expected.node_id
            && (current.node_route_id == expected.node_route_id
                && current.node_generation == expected.node_generation)))

-- `left == right` of two booleans
abbrev pub same_bool : Bool → Bool → Bool
same_bool true b = b
same_bool false b = not b

unfoldable pub same_failure : Option Failure → Option Failure → Bool
same_failure none none = true
same_failure none (some r) = false
same_failure (some l) none = false
same_failure (some l) (some r) =
    l.code == r.code && (l.message == r.message && same_bool l.retryable r.retryable)

unfoldable pub same_reconcile_observation : Sandbox → Sandbox → Bool
same_reconcile_observation left right =
    left.backend_id == right.backend_id
    && (same_state left.state right.state
        && (left.node_id == right.node_id
            && (left.node_route_id == right.node_route_id
                && (left.node_generation == right.node_generation
                    && same_failure left.failure right.failure))))

unfoldable pub operation_code : OperationState → ℕ
operation_code OperationState.pending = 0
operation_code OperationState.running = 1
operation_code OperationState.succeeded = 2
operation_code OperationState.failed = 3

unfoldable pub same_operation_version : Operation → Operation → Bool
same_operation_version current expected =
    current.id == expected.id
    && (current.project_id == expected.project_id
        && (current.resource_id == expected.resource_id
            && (current.kind == expected.kind
                && (operation_code current.state == operation_code expected.state
                    && current.updated_at.instant == expected.updated_at.instant))))

-- `selected[index].ID == "" || selected[index].UpdatedAt.Before(operation.UpdatedAt)`
unfoldable pub supersedes : Operation → Option Operation → Bool
supersedes op none = true
supersedes op (some selected) = selected.id == [] || before selected.updated_at op.updated_at

-- The selection for one prefix, from the one so far.
unfoldable pub latest : Text → List Operation → Option Operation → Option Operation
latest prefix [] selected = selected
latest prefix (op ∷ candidates) selected =
    latest prefix candidates
      (if has_prefix op.kind prefix && supersedes op selected then some op else selected)

unfoldable pub unfinished : Option Operation → List Operation
unfinished none = []
unfinished (some op) =
    if not (op.id == []) && not (operation_code op.state == 2) then op ∷ [] else []

unfoldable pub latest_incomplete_operations : List Operation → List Text → List Operation
latest_incomplete_operations candidates [] = []
latest_incomplete_operations candidates (prefix ∷ prefixes) =
    unfinished (latest prefix candidates none) ++ latest_incomplete_operations candidates prefixes

-- The prefixes of latestReconcileOperations, which selects as latestIncompleteOperations does.
unfoldable pub prefixes_of : SandboxState → List Text
prefixes_of running = codes "create_sandbox" ∷ codes "resume_sandbox:" ∷ []
prefixes_of standby = codes "pause_sandbox:" ∷ codes "auto_pause_sandbox:" ∷ []
prefixes_of _ = []

unfoldable pub latest_reconcile_operations : List Operation → SandboxState → List Operation
latest_reconcile_operations candidates state =
    latest_incomplete_operations candidates (prefixes_of state)

abbrev pub none_of : List Operation → Bool
none_of [] = true
none_of (op ∷ ops) = false

abbrev pub superseded : brezel.Store.Error
superseded = caller (codes "reconcile observation superseded")

abbrev pub own_key : Operation → Text
own_key op = scoped_key op.project_id op.id

-- The loop over the operations: each is settled, if it is still the one that was selected.
unfoldable pub settle :
    (Operation → Text)
    → (Operation → Operation)
    → List Operation
    → State
    → Result brezel.Store.Error State
settle key_for settled [] state = ok state
settle key_for settled (op ∷ ops) state = do
  let key = key_for op
  persisted ← or_fail (lookup key state.operations) superseded
  require (same_operation_version persisted op) superseded
  settle key_for settled ops
      (record state { operations = brezel.Common.insert key (settled op) state.operations })

-- The sandbox of the store, if it is in the version that was read.
unfoldable pub unchanged : Sandbox → (Sandbox → Bool) → State → Result brezel.Store.Error (Unit {0})
unchanged current also state = do
  persisted ← or_fail (lookup (key_of current) state.sandboxes) superseded
  require (same_sandbox_reconcile_version persisted current && also persisted) superseded

unfoldable pub is_superseded : brezel.Store.Error → Bool
is_superseded (caller text) = true
is_superseded _ = false

-- A write of a reconciliation: nothing is reported if another one has superseded it.
unfoldable pub unless_superseded :
    Service → FileStore × Result brezel.Store.Error (Unit {0}) → Called (Unit {0})
unless_superseded s (files, ok u) = (record s { files = files }, ok u)
unless_superseded s (files, err e) =
    (record s { files = files }, if is_superseded e then ok tt else err (stored e))

-- `state.Sandboxes[key] = sandbox`
abbrev pub put_at : Text → Sandbox → State → State
put_at key sandbox state = record state {
  sandboxes = brezel.Common.insert key sandbox state.sandboxes;
}

module _ (c : Codec) where
  unfoldable pub mark_unknown_observation : Outside → Service → Sandbox → Sandbox → Text → Service
  mark_unknown_observation o s current routed code =
      let observed = record routed {
        state = unknown;
        failure = some (unconfirmed c code (codes "backend state could not be confirmed"));
      } in
      if same_reconcile_observation current observed
      then s
      else (mark_unknown c o s observed code).0

  -- The state, the version and the failure that a reconciliation gives to a routed sandbox.
  abbrev pub reconciled : Outside → Sandbox → Sandbox → SandboxState → Option Failure → Sandbox
  reconciled o current routed state failure = record routed {
    state = state;
    updated_at = o.now;
    revision = int64_add current.revision (pos 1);
    failure = failure;
  }

  abbrev pub settled_as : Outside → OperationState → Option Failure → Operation → Operation
  settled_as o state failure op = record op { state = state; updated_at = o.now; failure = failure }

  unfoldable pub cleanup_write :
      Outside
      → Sandbox
      → Sandbox
      → SandboxState
      → List Operation
      → State
      → Result brezel.Store.Error State
  cleanup_write o current completed target operations state = do
    unchanged current (λ persisted. is_target c persisted.cleanup_target target) state
    next ←
        settle own_key (settled_as o OperationState.succeeded none) operations
          (put_at (key_of current) completed state)
    ok (
        append_event next
          (event_for o completed [] (codes "sandbox." ++ state_text completed.state) none))

  -- completeReconciledCleanupLocked, whose caller has found a cleanup target
  unfoldable pub complete_reconciled_cleanup :
      Outside → Service → Sandbox → Sandbox → SandboxState → List Operation → Called (Unit {0})
  complete_reconciled_cleanup o s current routed target candidates =
      let completed = reconciled o current routed target none in
      let operations =
        if same_state target deleted
        then latest_incomplete_operations candidates (codes "delete_sandbox:" ∷ [])
        else [] in
      unless_superseded s
        (update c o.fails s.files (cleanup_write o current completed target operations))

  abbrev pub absent_failure : Failure
  absent_failure = record {
    code = codes "backend_resource_missing";
    message = codes "backend confirmed the sandbox resource is absent";
    retryable = false;
  }

  abbrev pub missing_prefixes : List Text
  missing_prefixes =
      codes "create_sandbox"
      ∷ codes "resume_sandbox:"
      ∷ codes "pause_sandbox:"
      ∷ codes "auto_pause_sandbox:"
      ∷ codes "delete_sandbox:"
      ∷ []

  unfoldable pub missing_write :
      Outside → Sandbox → Sandbox → List Operation → State → Result brezel.Store.Error State
  missing_write o current lost operations state = do
    unchanged current (λ persisted. true) state
    next ←
        settle own_key (settled_as o OperationState.failed (some absent_failure)) operations
          (put_at (key_of current) lost state)
    ok (
        append_event next (
          event_for o lost [] (codes "sandbox.failed") (some (code_details c absent_failure.code))))

  unfoldable pub mark_reconciled_missing :
      Outside → Service → Sandbox → Sandbox → List Operation → Called (Unit {0})
  mark_reconciled_missing o s current routed candidates =
      let lost = reconciled o current routed failed (some absent_failure) in
      unless_superseded s (
        update c o.fails s.files
          (missing_write o current lost (latest_incomplete_operations candidates missing_prefixes)))

  -- The write of an observation; `changed` is observationChanged.
  unfoldable pub observation_write :
      Outside → Bool → Sandbox → Sandbox → List Operation → State → Result brezel.Store.Error State
  observation_write o true current next operations state = do
    unchanged current (λ persisted. true) state
    settled ←
        settle (λ op. scoped_key current.project_id op.id)
          (settled_as o OperationState.succeeded none) operations
          (put_at (key_of current) next state)
    ok (append_event settled (event_for o next [] (codes "sandbox.reconciled") none))
  observation_write o false current next operations state =
      settle (λ op. scoped_key current.project_id op.id)
        (settled_as o OperationState.succeeded none) operations state

  -- The end of reconcileSandboxBackendState: the observation is committed.
  unfoldable pub commit_observation :
      Outside → Service → Sandbox → Sandbox → SandboxState → List Operation → Called (Unit {0})
  commit_observation o s current routed remote_state candidates =
      let observed = record routed { state = remote_state; failure = none } in
      let operations = latest_reconcile_operations candidates remote_state in
      let same = same_reconcile_observation current observed in
      if same && none_of operations
      then (s, ok tt)
      else unless_superseded s (
          update c o.fails s.files (
            observation_write o (not same) current (reconciled o current routed remote_state none)
              operations))
