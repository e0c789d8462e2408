-- ===== src/Store/Reachable.antt =====
-- Every state that a FileStore comes to hold is valid, so the projects stay apart in all of them.
use brezel.Common.{
  ◌≡◌, refl, subst, ap, arith, Bool, true, not, ◌&&◌, List, [], ◌∷◌, Option, none, some, all,
  all-All, All-insert, insert, lookup, if_cases, if◌then◌else◌, Text, text_eq, pos, int_beq, Time,
  Result, ok, err, require, or_fail-ok, >>-eq-ok, >>=-eq-ok, ok_injective,
}
use brezel.Domain.Records.{Sandbox, Operation, Event}
use brezel.Ledger.Disk.{Faults}
use brezel.Store.{
  Error, State, new_state, scoped_key, require_scoped_identity, valid_assignment, valid_state,
  validate_state,
}
use brezel.Store.Files.{
  Codec, FileStore, get_sandbox, when_open, Called, held, clone_state, persist, installed, update,
  append_sandbox_event, advance_sandbox_activity, record_activity, record_sandbox_activity, close,
  migrated, opened, decoded, open_validated, open_decoded, open_file,
}
use brezel.Store.Scopes.{get_sandbox-scoped, idempotent_operation-scoped, all-lookup}
use brezel.Admission.{idempotent_operation}

-- A call of a method that may change the store, with the file system calls that fail in it.
pub data Call : Type 0 where
  updating : Faults → (State → Result Error State) → Call
  appending : Faults → Event → Call
  recording : Faults → Text → Text → Time → Call
  closing : Call

module _ (c : Codec) where
  unfoldable pub call : Call → FileStore → FileStore
  call (updating fails fn) s = (update c fails s fn).0
  call (appending fails event) s = (append_sandbox_event c fails s event).0
  call (recording fails project id at) s = (record_sandbox_activity c fails s project id at).0
  call closing s = close c s

  unfoldable pub run : List Call → FileStore → FileStore
  unfolding call
  run [] s = s
  run (x ∷ xs) s = run xs (call x s)

  abbrev pub Valid : FileStore → Type 0
  Valid s = validate_state s.state ≡ ok tt

  held_cases :
      {A B : Type 0} (s : FileStore) (r : Result Error A) (next : A → Called B)
      → Valid s
      → ((a : A) → r ≡ ok a → Valid (next a).0)
      → Valid (held s r next).0
  unfolding held
  held_cases s (ok a) next v f = f a refl
  held_cases s (err e) next v f = v

  installed-Valid :
      {A : Type 0} (s : FileStore) (next : State) (a : A)
      (out : Option Text × Result Error (Unit {0}))
      → Valid s
      → validate_state next ≡ ok tt
      → Valid (installed c s next a out).0
  unfolding installed
  installed-Valid s next a (d, ok u) v n = n
  installed-Valid s next a (d, err e) v n = v

  pub update-Valid :
      (fails : Faults) (s : FileStore) (fn : State → Result Error State)
      → Valid s
      → Valid (update c fails s fn).0
  unfolding update when_open
  update-Valid fails s fn v = held_cases s _ _ v λ next h.
      let (open_, chain) = >>-eq-ok (require (not s.closed) _) _ h in
      let (copy, copied, rest) = >>=-eq-ok (clone_state c s.state) _ chain in
      let (made, called, checks) = >>=-eq-ok (fn copy) _ rest in
      let (valid, same) = >>-eq-ok (validate_state made) (ok made) checks in
      installed-Valid s next tt _ v
        (subst (λ x. validate_state x ≡ ok tt) (ok_injective same) valid)

  append-Valid :
      (fails : Faults) (s : FileStore) (event : Event)
      → Valid s
      → Valid (append_sandbox_event c fails s event).0
  unfolding append_sandbox_event validate_state valid_state
  append-Valid fails s event v = held_cases s _ _ v λ e h. installed-Valid s _ tt _ v v

  abbrev owned : Text × Sandbox → Bool
  owned (key, x) = require_scoped_identity key x.project_id x.id && valid_assignment x

  advance_sandbox_activity-owned :
      (key : Text) (current : Sandbox) (at : Time)
      → owned (key, current) ≡ true
      → owned (key, advance_sandbox_activity current at) ≡ true
  unfolding advance_sandbox_activity valid_assignment
  advance_sandbox_activity-owned key current at h =
      if_cases (λ (x : Sandbox). owned (key, x) ≡ true) _ _ _ (λ e. h) (λ e. h)

  with_sandbox-Valid :
      (s : FileStore) (key : Text) (v : Sandbox)
      → Valid s
      → owned (key, v) ≡ true
      → validate_state (record s.state { sandboxes = insert key v s.state.sandboxes }) ≡ ok tt
  unfolding validate_state valid_state
  with_sandbox-Valid s key v valid h =
      let inserted : all owned (insert key v s.state.sandboxes) ≡ true =
        (all-All owned (insert key v s.state.sandboxes)).1 (
          All-insert (λ x. owned x ≡ true) key v s.state.sandboxes h
            ((all-All owned s.state.sandboxes).0 (ground arith))) in
      ground arith

  record_activity-Valid :
      (fails : Faults) (s : FileStore) (key : Text) (current : Sandbox) (at : Time)
      → Valid s
      → owned (key, current) ≡ true
      → Valid (record_activity c fails s key current at).0
  unfolding record_activity
  record_activity-Valid fails s key current at v h =
      let moved = advance_sandbox_activity current at in
      let next = record s.state { sandboxes = insert key moved s.state.sandboxes } in
      let out = persist c fails next s.disk in
      if_cases (λ (out : Called Sandbox). Valid out.0) (int_beq moved.revision current.revision)
        (s, ok current) (installed c s next moved out) (λ e. v)
        (λ e.
          installed-Valid s next moved out v
            (with_sandbox-Valid s key moved v (advance_sandbox_activity-owned key current at h)))

  pub record_sandbox_activity-Valid :
      (fails : Faults) (s : FileStore) (project id : Text) (at : Time)
      → Valid s
      → Valid (record_sandbox_activity c fails s project id at).0
  unfolding record_sandbox_activity get_sandbox when_open validate_state valid_state
  record_sandbox_activity-Valid fails s project id at v = held_cases s _ _ v λ current h.
      let there = (>>-eq-ok (require (not s.closed) _) _ h).1 in
      record_activity-Valid fails s (scoped_key project id) current at v (
        all-lookup owned (scoped_key project id) current s.state.sandboxes (ground arith)
          (or_fail-ok (lookup (scoped_key project id) s.state.sandboxes) _ current there))

  run-Valid : (calls : List Call) (s : FileStore) → Valid s → Valid (run calls s)
  unfolding run call close
  run-Valid [] s v = v
  run-Valid (updating fails fn ∷ xs) s v = run-Valid xs _ (update-Valid fails s fn v)
  run-Valid (appending fails event ∷ xs) s v = run-Valid xs _ (append-Valid fails s event v)
  run-Valid (recording fails project id at ∷ xs) s v =
      run-Valid xs _ (record_sandbox_activity-Valid fails s project id at v)
  run-Valid (closing ∷ xs) s v = run-Valid xs (close c s) v

  opened-state :
      (st : State) (out : Option Text × Result Error (Unit {0})) (after : Option Text)
      (s : FileStore)
      → opened c st out ≡ (after, ok s)
      → st ≡ s.state
  unfolding opened
  opened-state st (d, ok u) after s h = ap FileStore.state (ok_injective (ap (λ out. out.1) h))
  opened-state st (d, err e) after s h = absurd (ground arith)

  open_validated-Valid :
      (fails : Faults) (bytes : Text) (st : State) (r : Result Error (Unit {0}))
      (after : Option Text) (s : FileStore)
      → validate_state (migrated c st) ≡ r
      → open_validated c fails bytes st r ≡ (after, ok s)
      → Valid s
  unfolding open_validated
  open_validated-Valid fails bytes st (err e) after s v h = absurd (ground arith)
  open_validated-Valid fails bytes st (ok u) after s v h =
      subst (λ x. validate_state x ≡ ok tt)
        (opened-state (migrated c st)
          (if int_beq st.schema_version (pos 0)
            then persist c fails (migrated c st) (some bytes)
            else (some bytes, ok tt))
          after s h)
        v

  open_decoded-Valid :
      (fails : Faults) (bytes : Text) (r : Result Error State) (after : Option Text) (s : FileStore)
      → open_decoded c fails bytes r ≡ (after, ok s)
      → Valid s
  unfolding open_decoded
  open_decoded-Valid fails bytes (err e) after s h = absurd (ground arith)
  open_decoded-Valid fails bytes (ok st) after s h =
      open_validated-Valid fails bytes st (validate_state (migrated c st)) after s refl h

  open_file-Valid :
      (fails : Faults) (disk after : Option Text) (s : FileStore)
      → open_file c fails disk ≡ (after, ok s)
      → Valid s
  unfolding open_file validate_state valid_state int_beq
  open_file-Valid fails none after s h =
      subst (λ x. validate_state x ≡ ok tt) (opened-state new_state _ after s h) refl
  open_file-Valid fails (some bytes) after s h =
      open_decoded-Valid fails bytes (decoded c bytes) after s h

  -- However a store was opened, and whatever calls have changed it since, with any failures of the
  -- file system: the sandbox that it returns for a project and an id has both, and the operation
  -- that its state has for an idempotency key is of that project, kind and key.
  pub run-scoped :
      (fails : Faults) (disk after : Option Text) (s : FileStore) (calls : List Call)
      → open_file c fails disk ≡ (after, ok s)
      → ((project id : Text) (v : Sandbox)
          → get_sandbox (run calls s) project id ≡ ok v
          → (v.project_id ≡ project) × (v.id ≡ id))
        × ((project kind key : Text) (op : Operation)
            → idempotent_operation (run calls s).state project kind key ≡ some op
            → (op.project_id ≡ project) × (op.kind ≡ kind) × (op.idempotency_key ≡ key))
  unfolding validate_state
  run-scoped fails disk after s calls h =
      let valid = run-Valid calls s (open_file-Valid fails disk after s h) in
      let fine : valid_state (run calls s).state ≡ true = ground arith in
      (
        λ project id v e. get_sandbox-scoped (run calls s) project id v fine e,
        λ project kind key op e.
            idempotent_operation-scoped (run calls s).state project kind key op fine e,
      )
