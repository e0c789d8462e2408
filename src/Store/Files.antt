-- ===== src/Store/Files.antt =====
-- FileStore of internal/store/store.go: a state in memory and one file that each change replaces
-- whole. encoding/json is the record Codec. The copies that the store hands out and takes are the
-- values themselves; only the details of events change on the way, through their JSON.
use brezel.Common.{
  ℕ, ◌*◌, ◌^◌, Bool, true, false, not, ◌&&◌, ◌||◌, List, [], ◌∷◌, ◌++◌, Option, none, some, leb,
  ◌==◌, nat_eq, if◌then◌else◌, length, lookup, insert, Text, text_eq, codes, trim_space, safe_name,
  contains_any, ℤ, pos, int_lt, int_beq, int64_add, seconds_of, after, east, Time, is_zero, before,
  Result, ok, err, ◌>>=◌, ◌>>◌, require, or_fail,
}
use brezel.Domain.States.{terminal, running, standby, state_code}
use brezel.Domain.Lifetimes.{Lifecycle}
use brezel.Domain.Records.{
  Sandbox, Workspace, Operation, Event, WorkspaceState, ready, deleted, failed,
}
use brezel.Ledger.Disk.{Faults, write_file}
use brezel.Store.{
  Error, closed, not_found, invalid_event, bad_details, encode_failed, too_large, disk_failed,
  unreadable, State, current_schema_version, new_state, scoped_key, has_break, validate_state,
}

-- json.Marshal of a state (`none`: an error), json.Unmarshal of a file, and an event's details
-- after both.
pub record Codec : Type 0 where
  pub marshal : State → Option Text
  pub unmarshal : Text → Option State
  pub normalize : Text → Option Text

pub record FileStore : Type 0 where
  pub state : State
  pub closed : Bool
  pub disk : Option Text

abbrev pub max_state_bytes : ℕ
max_state_bytes = 128 * 2 ^ 20

-- The file system calls of persist are those of the ledger's, in the same order.
unfoldable pub failed_disk :
    Option Text × Result brezel.Ledger.Types.Error (Unit {0})
    → Option Text × Result Error (Unit {0})
failed_disk (d, ok u) = (d, ok tt)
failed_disk (d, err e) = (d, err disk_failed)

unfoldable pub replace_file : Faults → Text → Option Text → Option Text × Result Error (Unit {0})
replace_file fails bytes disk = failed_disk (write_file fails bytes disk)

-- A call that a closed store refuses.
unfoldable pub when_open : {A : Type 0} → FileStore → Result Error A → Result Error A
when_open s r = require (not s.closed) closed >> r

unfoldable pub get_sandbox : FileStore → Text → Text → Result Error Sandbox
get_sandbox s project id =
    when_open s (or_fail (lookup (scoped_key project id) s.state.sandboxes) not_found)

unfoldable pub live_sandboxes : List (Text × Sandbox) → List Sandbox
live_sandboxes [] = []
live_sandboxes ((key, sandbox) ∷ rest) =
    let others = live_sandboxes rest in if terminal sandbox.state then others else sandbox ∷ others

unfoldable pub list_sandboxes_for_reconcile : FileStore → Result Error (List Sandbox)
list_sandboxes_for_reconcile s = when_open s (ok (live_sandboxes s.state.sandboxes))

unfoldable pub settled_workspace : WorkspaceState → Bool
settled_workspace ready = true
settled_workspace deleted = true
settled_workspace failed = true
settled_workspace _ = false

unfoldable pub live_workspaces : List (Text × Workspace) → List Workspace
live_workspaces [] = []
live_workspaces ((key, workspace) ∷ rest) =
    let others = live_workspaces rest in
    if settled_workspace workspace.state then others else workspace ∷ others

unfoldable pub list_workspaces_for_reconcile : FileStore → Result Error (List Workspace)
list_workspaces_for_reconcile s = when_open s (ok (live_workspaces s.state.workspaces))

-- lifecycleHeadForOperation: the kinds of the operations that move a resource along its life
unfoldable pub is_reconciled_lifecycle_operation : Operation → Bool
is_reconciled_lifecycle_operation operation =
    let of_resource = λ (kind : Text). operation.kind == kind ++ operation.resource_id in
    operation.kind == codes "create_sandbox"
    || (of_resource (codes "resume_sandbox:")
        || (of_resource (codes "pause_sandbox:")
            || (of_resource (codes "auto_pause_sandbox:")
                || (of_resource (codes "delete_sandbox:")
                    || (operation.kind == codes "create_workspace"
                        || of_resource (codes "delete_workspace:"))))))

unfoldable pub lifecycle_operations : List (Text × Operation) → List Operation
lifecycle_operations [] = []
lifecycle_operations ((key, operation) ∷ rest) =
    let others = lifecycle_operations rest in
    if is_reconciled_lifecycle_operation operation then operation ∷ others else others

unfoldable pub list_lifecycle_operations_for_reconcile : FileStore → Result Error (List Operation)
list_lifecycle_operations_for_reconcile s =
    when_open s (ok (lifecycle_operations s.state.operations))

unfoldable pub in_stream : Text → Text → Event → Bool
in_stream project resource e = e.project_id == project && e.resource_id == resource

-- The loop of nextSandboxEventSequence, from the sequence so far.
unfoldable pub sequence_after : Text → Text → ℤ → List Event → ℤ
sequence_after project resource sequence [] = sequence
sequence_after project resource sequence (e ∷ events) =
    sequence_after project resource
      (if in_stream project resource e && not (int_lt e.sequence sequence)
        then int64_add e.sequence (pos 1)
        else sequence)
      events

unfoldable pub next_sandbox_event_sequence : List Event → Text → Text → ℤ
next_sandbox_event_sequence events project resource = sequence_after project resource (pos 1) events

unfoldable pub valid_event : Event → Bool
valid_event e =
    safe_name e.project_id
    && (not (e.id == [] || has_break e.id)
        && (not (e.resource_id == [] || has_break e.resource_id)
            && (not (not (e.operation_id == []) && has_break e.operation_id)
                && (not (trim_space e.kind == [] || contains_any e.kind (13 ∷ 10 ∷ []))
                    && (not (int_lt e.sequence (pos 1)) && not (is_zero e.at))))))

unfoldable pub validate_sandbox_event : Event → Result Error (Unit {0})
validate_sandbox_event e = require (valid_event e) invalid_event

-- `at`, or the last activity if that is later
abbrev pub no_earlier : Time → Time → Time
no_earlier at last = if before at last then last else at

abbrev pub zero_time : Time
zero_time = record { instant = 0; offset = east 0 }

unfoldable pub standby_eligible_at : Lifecycle → Time → Time
standby_eligible_at l at = record at {
  instant =
      after at.instant (seconds_of (int64_add l.standby_after_seconds l.standby_grace_seconds));
}

unfoldable pub eligible_at : Lifecycle → Time → Time
unfolding standby_eligible_at
eligible_at l at =
    if int_lt (pos 0) l.standby_after_seconds then standby_eligible_at l at else zero_time

unfoldable pub advance_sandbox_activity : Sandbox → Time → Sandbox
advance_sandbox_activity current at =
    let then_ = no_earlier at current.last_active_at in
    if state_code current.state == state_code running
      || state_code current.state == state_code standby
    then record current {
      updated_at = then_;
      last_active_at = then_;
      revision = int64_add current.revision (pos 1);
      standby_eligible_at = eligible_at current.lifecycle then_;
    }
    else current

abbrev pub Called : Type 0 → Type 0
Called A = FileStore × Result Error A

unfoldable pub held : {A B : Type 0} → FileStore → Result Error A → (A → Called B) → Called B
held s (err e) next = (s, err e)
held s (ok a) next = next a

unfoldable pub clone_event_details : (Text → Option Text) → Option Text → Result Error (Option Text)
clone_event_details normalize none = ok none
clone_event_details normalize (some details) = elim (normalize details) [
  | none ↦ err bad_details
  | some same ↦ ok (some same)
]

module _ (c : Codec) where
  unfoldable pub clone_events : List Event → Result Error (List Event)
  clone_events [] = ok []
  clone_events (e ∷ events) = do
    details ← clone_event_details c.normalize e.details
    rest ← clone_events events
    ok (record e { details = details } ∷ rest)

  unfoldable pub clone_state : State → Result Error State
  clone_state s = do events ← clone_events s.events; ok (record s { events = events })

  unfoldable pub encoded : State → Result Error Text
  encoded s = do
    bytes ← or_fail (c.marshal s) encode_failed
    require (leb (length bytes) max_state_bytes) too_large
    ok bytes

  unfoldable pub written :
      Faults → Option Text → Result Error Text → Option Text × Result Error (Unit {0})
  written fails disk (err e) = (disk, err e)
  written fails disk (ok bytes) = replace_file fails bytes disk

  unfoldable pub persist : Faults → State → Option Text → Option Text × Result Error (Unit {0})
  persist fails s disk = written fails disk (encoded s)

  -- `if err := s.persist(next); err != nil { return err }; s.state = next`
  unfoldable pub installed :
      {A : Type 0} → FileStore → State → A → Option Text × Result Error (Unit {0}) → Called A
  installed s next a (d, ok u) = (record s { state = next; disk = d }, ok a)
  installed s next a (d, err e) = (record s { disk = d }, err e)

  unfoldable pub view : {A : Type 0} → FileStore → (State → Result Error A) → Result Error A
  view s fn = when_open s (clone_state s.state >>= fn)

  unfoldable pub update : Faults → FileStore → (State → Result Error State) → Called (Unit {0})
  update fails s fn =
      held s
        (when_open s (do copy ← clone_state s.state; next ← fn copy; validate_state next; ok next))
        (λ next. installed s next tt (persist fails next s.disk))

  -- The event that AppendSandboxEvent makes of its argument.
  unfoldable pub sandbox_event : FileStore → Event → Result Error Event
  sandbox_event s event = when_open s (do
    current ←
        or_fail (lookup (scoped_key event.project_id event.resource_id) s.state.sandboxes) not_found
    details ← clone_event_details c.normalize event.details
    let next = record event {
      details = details;
      state = current.state;
      sequence = next_sandbox_event_sequence s.state.events event.project_id event.resource_id;
    }
    validate_sandbox_event next
    ok next)

  unfoldable pub append_sandbox_event : Faults → FileStore → Event → Called (Unit {0})
  append_sandbox_event fails s event = held s (sandbox_event s event) λ e.
      let next = record s.state { events = s.state.events ++ e ∷ [] } in
      installed s next tt (persist fails next s.disk)

  -- RecordSandboxActivity, of a sandbox that is there
  unfoldable pub record_activity : Faults → FileStore → Text → Sandbox → Time → Called Sandbox
  record_activity fails s key current at =
      let next_sandbox = advance_sandbox_activity current at in
      let next = record s.state { sandboxes = insert key next_sandbox s.state.sandboxes } in
      if int_beq next_sandbox.revision current.revision
      then (s, ok current)
      else installed s next next_sandbox (persist fails next s.disk)

  unfoldable pub record_sandbox_activity : Faults → FileStore → Text → Text → Time → Called Sandbox
  record_sandbox_activity fails s project id at =
      held s (get_sandbox s project id)
        λ current. record_activity fails s (scoped_key project id) current at

  unfoldable pub close : FileStore → FileStore
  close s = record s { closed = true }

  -- The end of OpenFile, on a decoded state that a legacy file may hold without a version.
  unfoldable pub migrated : State → State
  migrated s =
      if int_beq s.schema_version (pos 0)
      then record s { schema_version = current_schema_version }
      else s

  unfoldable pub opened :
      State → Option Text × Result Error (Unit {0}) → Option Text × Result Error FileStore
  opened s (d, ok u) = (d, ok (record { state = s; closed = false; disk = d }))
  opened s (d, err e) = (d, err e)

  unfoldable pub decoded : Text → Result Error State
  decoded bytes = do
    require (leb (length bytes) max_state_bytes) too_large
    or_fail (c.unmarshal bytes) unreadable

  -- The end of OpenFile, by what the validation of the decoded state says.
  unfoldable pub open_validated :
      Faults → Text → State → Result Error (Unit {0}) → Option Text × Result Error FileStore
  open_validated fails bytes s (err e) = (some bytes, err e)
  open_validated fails bytes s (ok u) = opened (migrated s) (
      if int_beq s.schema_version (pos 0)
      then persist fails (migrated s) (some bytes)
      else (some bytes, ok tt))

  unfoldable pub open_decoded :
      Faults → Text → Result Error State → Option Text × Result Error FileStore
  open_decoded fails bytes (err e) = (some bytes, err e)
  open_decoded fails bytes (ok s) = open_validated fails bytes s (validate_state (migrated s))

  unfoldable pub open_file : Faults → Option Text → Option Text × Result Error FileStore
  open_file fails none = opened new_state (persist fails new_state none)
  open_file fails (some bytes) = open_decoded fails bytes (decoded bytes)
