-- ===== src/Controller/Reading.antt =====
-- GetSandbox of internal/service/service.go, which asks the backend and writes what it learns, all
-- under the mutex: one step. The backend's and the node's answers are an argument.
use brezel.Common.{
  true, not, ◌&&◌, ◌||◌, List, [], ◌∷◌, ◌++◌, Option, none, some, ◌==◌, nat_eq, if◌then◌else◌,
  contains, insert, Text, text_eq, codes, has_prefix, Time, before, Result, ok, err,
}
use brezel.Domain.States.{SandboxState, deleted, expired, failed, terminal}
use brezel.Domain.Records.{Sandbox, Operation, OperationState}
use brezel.Store.{State, scoped_key}
use brezel.Store.Files.{Codec, update}
use brezel.Controller.Types.{
  Error, conflict, Service, Outside, same_state, state_text, has_active_guest_operations,
  append_event, event_for, put_sandbox,
}
use brezel.Controller.Transitions.{
  Called, find_sandbox, after_write, moved, plain_write, code_details, begin_expiration,
  mark_unknown,
}
use brezel.Controller.Actions.{placed}
use brezel.Controller.Observed.{absent_failure}
use brezel.Controller.Repair.{Inspection, absent, unreachable, remote, Answer, is_cleanup}

-- The operation of the resource with the prefix that was updated last, and its key. Of two that were
-- updated at one time, it is the first one here, and any of them in the map's order of the source.
unfoldable pub latest_entry :
    Text
    → Text
    → Text
    → List (Text × Operation)
    → Option (Text × Operation)
    → Option (Text × Operation)
latest_entry project resource prefix [] selected = selected
latest_entry project resource prefix ((key, op) ∷ ops) selected =
    latest_entry project resource prefix ops (
      if op.project_id == project
        && (op.resource_id == resource
            && (has_prefix op.kind prefix && (elim selected [
              | none ↦ true
              | some (k, best) ↦ before best.updated_at op.updated_at
            ])))
      then some (key, op)
      else selected)

unfoldable pub succeeded_at : Time → Option (Text × Operation) → State → State
succeeded_at now none state = state
succeeded_at now (some (key, op)) state = record state {
  operations =
      insert key (record op { state = OperationState.succeeded; updated_at = now; failure = none })
        state.operations;
}

unfoldable pub complete_latest_operation : Text → Text → Text → Time → State → State
complete_latest_operation project resource prefix now state =
    succeeded_at now (latest_entry project resource prefix state.operations none) state

module _ (c : Codec) where
  -- what reconcileCleanupLocked writes
  unfoldable pub cleaned_write : Outside → Sandbox → SandboxState → State → State
  cleaned_write o next target state =
      let put = put_sandbox next state in
      append_event
        (if same_state target deleted
          then complete_latest_operation next.project_id next.id (codes "delete_sandbox:") o.now put
          else put)
        (event_for o next [] (codes "sandbox." ++ state_text target) none)

  -- from removeNodeRoute
  unfoldable pub cleaned_route :
      Outside → Service → Sandbox → SandboxState → Option Text → Called Sandbox
  cleaned_route o s routed target (some code) =
      mark_unknown c o s routed (codes "node_route_cleanup_failed")
  cleaned_route o s routed target none =
      let next = moved o target none routed in
      after_write s next
        (update c o.fails s.files (λ state. ok (cleaned_write o next target state)))

  -- from the backend's Delete
  unfoldable pub cleaned_backend :
      Outside → Service → Sandbox → SandboxState → Answer → Called Sandbox
  cleaned_backend o s sandbox target a =
      if not (sandbox.backend_id == []) && a.undeleted
      then mark_unknown c o s sandbox (codes "backend_cleanup_failed")
      else cleaned_route o s
          (placed (record a.placement { backend_id = sandbox.backend_id }) sandbox) target a.failure

  -- from the backend's Find
  unfoldable pub cleaned_found :
      Outside → Service → Sandbox → SandboxState → Answer → Inspection → Called Sandbox
  cleaned_found o s sandbox target a absent = cleaned_backend o s sandbox target a
  cleaned_found o s sandbox target a unreachable =
      mark_unknown c o s sandbox (codes "backend_cleanup_recovery_failed")
  cleaned_found o s sandbox target a (remote id state) =
      cleaned_backend o s (record sandbox { backend_id = id }) target a

  unfoldable pub reconcile_cleanup_for :
      Outside → Service → Sandbox → Answer → Option SandboxState → Called Sandbox
  reconcile_cleanup_for o s sandbox a none = (s, err conflict)
  reconcile_cleanup_for o s sandbox a (some target) =
      if not (same_state target deleted) && not (same_state target expired)
      then (s, err conflict)
      else if sandbox.backend_id == []
      then cleaned_found o s sandbox target a a.inspection
      else cleaned_backend o s sandbox target a

  -- reconcileCleanupLocked
  unfoldable pub reconcile_cleanup : Outside → Service → Sandbox → Answer → Called Sandbox
  reconcile_cleanup o s sandbox a = reconcile_cleanup_for o s sandbox a sandbox.cleanup_target

  unfoldable pub expired_then : Outside → Answer → Called Sandbox → Called Sandbox
  expired_then o a (s, err e) = (s, err e)
  expired_then o a (s, ok sandbox) = reconcile_cleanup o s sandbox a

  -- expireLocked
  unfoldable pub expire : Outside → Service → Sandbox → Answer → Called Sandbox
  expire o s sandbox a = expired_then o a (begin_expiration c o s sandbox)

  unfoldable pub mark_missing : Outside → Service → Sandbox → Called Sandbox
  mark_missing o s sandbox =
      let next = moved o failed (some (absent_failure c)) sandbox in
      after_write s next (
        update c o.fails s.files (λ state. ok (
          plain_write c o next (codes "sandbox.failed")
            (some (code_details c (codes "backend_resource_missing"))) state)))

  -- The write of an observation, whose error is dropped.
  unfoldable pub observed_write : Outside → Service → Sandbox → Called Sandbox
  observed_write o s next = (
    (after_write s next (
        update c o.fails s.files
          (λ state. ok (plain_write c o next (codes "sandbox.observed") none state)))).0,
    ok next,
  )

  -- from the backend's Inspect
  unfoldable pub told : Outside → Service → Sandbox → Inspection → Called Sandbox
  told o s sandbox absent = mark_missing o s sandbox
  told o s sandbox unreachable = mark_unknown c o s sandbox (codes "backend_inspection_failed")
  told o s sandbox (remote id state) =
      if same_state state sandbox.state
      then (s, ok sandbox)
      else observed_write o s (moved o state none sandbox)

  unfoldable pub read_found :
      Outside → Service → Text → Text → Answer → Result Error Sandbox → Called Sandbox
  read_found o s project id a (err e) = (s, err e)
  read_found o s project id a (ok sandbox) =
      if contains (scoped_key project id) s.active_backend_mutations || terminal sandbox.state
      then (s, ok sandbox)
      else if is_cleanup c sandbox
      then reconcile_cleanup o s sandbox a
      else if not (before o.now sandbox.expires_at)
      then expire o s sandbox a
      else if sandbox.backend_id == [] || has_active_guest_operations s project id
      then (s, ok sandbox)
      else told o s sandbox a.inspection

  -- GetSandbox
  unfoldable pub read : Outside → Service → Text → Text → Answer → Called Sandbox
  read o s project id a = read_found o s project id a (find_sandbox s project id)
