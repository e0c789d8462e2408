-- ===== src/Controller/Transitions.antt =====
-- beginTransitionLocked, completeTransitionLocked, failTransitionLocked, beginExpirationLocked,
-- markUnknownLocked and recordActivityLocked of internal/service/service.go.
use brezel.Common.{
  Bool, true, false, not, ◌&&◌, [], ◌++◌, Option, none, some, ◌==◌, if◌then◌else◌, insert, Text,
  text_eq, codes, pos, int64_add, Time, Result, ok, err,
}
use brezel.Domain.States.{
  SandboxState, running, deleting, deleted, expired, unknown, can_transition,
}
use brezel.Domain.Records.{Sandbox, Operation, OperationState, Failure}
use brezel.Store.{State, scoped_key, idempotency_key}
use brezel.Store.Files.{Codec, FileStore, update, record_sandbox_activity, get_sandbox, eligible_at}
use brezel.Admission.{idempotent_operation}
use brezel.Controller.Types.{
  Error, not_found, conflict, no_randomness, stored, Service, Outside, state_text, same_state,
  event_for, append_event, key_of, put_sandbox, put_operation, put_idempotency,
}

abbrev pub Called : Type 0 → Type 0
Called A = Service × Result Error A

-- translateStore
unfoldable pub translate_store : brezel.Store.Error → Error
translate_store brezel.Store.not_found = not_found
translate_store e = stored e

unfoldable pub translated : {A : Type 0} → Result brezel.Store.Error A → Result Error A
translated (ok a) = ok a
translated (err e) = err (translate_store e)

unfoldable pub find_sandbox : Service → Text → Text → Result Error Sandbox
find_sandbox s project id = translated (get_sandbox s.files project id)

-- The service after a write of its store, and what follows of the write's result.
unfoldable pub after_write :
    {A : Type 0} → Service → A → FileStore × Result brezel.Store.Error (Unit {0}) → Called A
after_write s a (files, ok u) = (record s { files = files }, ok a)
after_write s a (files, err e) = (record s { files = files }, err (stored e))

abbrev pub moved : Outside → SandboxState → Option Failure → Sandbox → Sandbox
moved o target failure sandbox = record sandbox {
  state = target;
  updated_at = o.now;
  revision = int64_add sandbox.revision (pos 1);
  failure = failure;
}

-- markSandboxActive
unfoldable pub mark_sandbox_active : Time → Sandbox → Sandbox
mark_sandbox_active at sandbox = record sandbox {
  last_active_at = at;
  standby_eligible_at = eligible_at sandbox.lifecycle at;
}

-- lookupIdempotency, on a store that is read whole
unfoldable pub lookup_idempotency : Service → Text → Text → Text → Option Operation
lookup_idempotency s project kind key =
    if s.files.closed then none else found (idempotent_operation s.files.state project kind key)
  where
    found : Option Operation → Option Operation
    found none = none
    found (some op) = if op.id == [] then none else some op

module _ (c : Codec) where
  abbrev pub new_operation : Outside → Sandbox → Text → Text → Text → Operation
  new_operation o sandbox key kind id = record {
    id = id;
    project_id = sandbox.project_id;
    kind = kind;
    resource_id = sandbox.id;
    state = OperationState.running;
    idempotency_key = key;
    created_at = o.now;
    updated_at = o.now;
    failure = none;
  }

  unfoldable pub begin_write : Outside → Sandbox → Operation → State → State
  begin_write o next op state =
      append_event
        (put_idempotency next.project_id op.kind op.idempotency_key op.id
          (put_operation op (put_sandbox next state)))
        (event_for o next op.id (codes "sandbox." ++ state_text next.state) none)

  unfoldable pub begin_with :
      Outside → Service → Sandbox → Text → Text → SandboxState → Option Text → Called Operation
  begin_with o s sandbox key kind target none = (s, err no_randomness)
  begin_with o s sandbox key kind target (some id) =
      let op = new_operation o sandbox key kind id in
      let next = moved o target none sandbox in
      after_write s op (update c o.fails s.files (λ state. ok (begin_write o next op state)))

  unfoldable pub begin_transition :
      Outside → Service → Sandbox → Text → Text → SandboxState → Called Operation
  begin_transition o s sandbox key kind target =
      if can_transition sandbox.state target
      then begin_with o s sandbox key kind target o.op_id
      else (s, err conflict)

  -- What completeTransitionLocked and failTransitionLocked write.
  unfoldable pub end_write : Outside → Sandbox → Operation → Text → Option Text → State → State
  end_write o next op kind details state =
      append_event (put_operation op (put_sandbox next state)) (event_for o next op.id kind details)

  abbrev pub completed : Outside → SandboxState → Sandbox → Sandbox
  completed o target sandbox =
      let next = moved o target none sandbox in
      if same_state target running then mark_sandbox_active o.now next else next

  -- `s.recentActivity[key] = now`, if the sandbox runs
  unfoldable pub noted : Outside → SandboxState → Sandbox → Service → Service
  noted o target sandbox s =
      if same_state target running
      then record s { recent_activity = insert (key_of sandbox) o.now s.recent_activity }
      else s

  unfoldable pub complete_transition :
      Outside → Service → Sandbox → Operation → SandboxState → Called (Sandbox × Operation)
  complete_transition o s sandbox op target =
      let next = completed o target sandbox in
      let op' = record op {
        state = OperationState.succeeded;
        updated_at = o.now;
        failure = none;
      } in
      if can_transition sandbox.state target
      then after_write (noted o target sandbox s) (next, op')
          (update c o.fails s.files
            (λ state. ok (end_write o next op' (codes "sandbox." ++ state_text target) none state)))
      else (s, err conflict)

  abbrev pub unconfirmed : Text → Text → Failure
  unconfirmed code message = record { code = code; message = message; retryable = true }

  -- `{"code":"..."}`
  abbrev pub code_details : Text → Text
  code_details code = codes "{\"code\":\"" ++ (code ++ codes "\"}")

  unfoldable pub fail_transition : Outside → Service → Sandbox → Operation → Text → Service
  fail_transition o s sandbox op code =
      let failure =
        some
          (unconfirmed code (codes "sandbox backend did not confirm the requested transition")) in
      let next = moved o unknown failure sandbox in
      let op' = record op {
        state = OperationState.failed;
        updated_at = o.now;
        failure = failure;
      } in
      record s {
        files =
            (update c o.fails s.files (λ state.
              ok (
                end_write o next op' (codes "sandbox.unknown") (some (code_details code))
                  state))).0;
      }

  -- What the steps without an operation write.
  unfoldable pub plain_write : Outside → Sandbox → Text → Option Text → State → State
  plain_write o next kind details state =
      append_event (put_sandbox next state) (event_for o next [] kind details)

  unfoldable pub mark_unknown : Outside → Service → Sandbox → Text → Called Sandbox
  mark_unknown o s sandbox code =
      let failure = unconfirmed code (codes "backend state could not be confirmed") in
      let next = moved o unknown (some failure) sandbox in
      after_write s next (
        update c o.fails s.files (λ state.
          ok (plain_write o next (codes "sandbox.unknown") (some (code_details code)) state)))

  unfoldable pub is_target : Option SandboxState → SandboxState → Bool
  is_target none state = false
  is_target (some target) state = same_state target state

  unfoldable pub begin_expiration : Outside → Service → Sandbox → Called Sandbox
  begin_expiration o s sandbox =
      let next = record (moved o deleting sandbox.failure sandbox) {
        cleanup_target = some expired;
      } in
      if is_target sandbox.cleanup_target deleted
      then (s, err conflict)
      else if same_state sandbox.state deleting && is_target sandbox.cleanup_target expired
      then (s, ok sandbox)
      else if not (same_state sandbox.state deleting) && not (can_transition sandbox.state deleting)
      then (s, err conflict)
      else after_write s next (
          update c o.fails s.files
            (λ state. ok (plain_write o next (codes "sandbox.expiring") none state)))

  unfoldable pub activity_noted :
      Service → Text → FileStore × Result brezel.Store.Error Sandbox → Called Sandbox
  activity_noted s key (files, ok sandbox) = (
    record s {
      files = files;
      recent_activity = insert key sandbox.last_active_at s.recent_activity;
    },
    ok sandbox,
  )
  activity_noted s key (files, err e) = (record s { files = files }, err (translate_store e))

  -- recordActivityLocked, with the store's own RecordSandboxActivity
  unfoldable pub record_activity : Outside → Service → Text → Text → Time → Called Sandbox
  record_activity o s project id at =
      activity_noted s (scoped_key project id)
        (record_sandbox_activity c o.fails s.files project id at)
