-- ===== src/Controller/Stored.antt =====
-- What internal/service reads again of a sandbox that it has just moved.
use brezel.Common.{
  ◌≡◌, refl, sym, subst, ap, inl, inr, arith, true, false, not, Option, none, some, if_cases,
  lookup, lookup-insert, Text, text_eq, text_beq_iff, Result, ok, err, require, require-ok,
  >>-eq-ok,
}
use brezel.Domain.States.{SandboxState, can_transition}
use brezel.Domain.Records.{Sandbox, Operation}
use brezel.Store.{State, scoped_key}
use brezel.Store.Files.{Codec, FileStore, get_sandbox, when_open, held, installed, persist, update}
use brezel.Controller.Types.{Service, Outside, key_of}
use brezel.Controller.Transitions.{
  Called, translated, find_sandbox, after_write, moved, new_operation, begin_write, begin_with,
  begin_transition,
}
use brezel.Controller.Writes.{Put, update-Put}
use brezel.Controller.Starting.{begin_write-sandboxes}

module _ (c : Codec) (o : Outside) where
  installed-closed :
      (s : FileStore) (next : State) (out : Option Text × Result brezel.Store.Error (Unit {0}))
      → (installed c s next tt out).0.closed ≡ s.closed
  unfolding installed
  installed-closed s next (d, ok u) = refl
  installed-closed s next (d, err e) = refl

  held-closed :
      (s : FileStore) (r : Result brezel.Store.Error State)
      (out : State → Option Text × Result brezel.Store.Error (Unit {0}))
      → (held s r (λ next. installed c s next tt (out next))).1 ≡ ok tt
      → ((next : State) × (r ≡ ok next))
        × ((held s r (λ next. installed c s next tt (out next))).0.closed ≡ s.closed)
  unfolding held
  held-closed s (ok next) out h = ((next, refl), installed-closed s next (out next))
  held-closed s (err e) out h = absurd cc

  -- A write that succeeds was made to an open store, which it leaves open.
  update-open :
      (s : FileStore) (write : State → Result brezel.Store.Error State)
      → (update c o.fails s write).1 ≡ ok tt
      → (update c o.fails s write).0.closed ≡ false
  unfolding update when_open
  update-open s write h =
      let ((next, checks), same) = held-closed s _ (λ next. persist c o.fails next s.disk) h in
      let open_ = require-ok (not s.closed) _ (>>-eq-ok (require (not s.closed) _) _ checks).0 in
      ground (arith, same, open_)

  stored-found :
      (s : Service) (files : FileStore) (project id : Text) (v : Sandbox)
      → files.closed ≡ false
      → lookup (scoped_key project id) files.state.sandboxes ≡ some v
      → find_sandbox (record s { files = files }) project id ≡ ok v
  unfolding find_sandbox translated get_sandbox when_open
  stored-found s files project id v open_ there = rw (open_, there) refl

  after_write-finds :
      (s t : Service) (project id : Text) (v : Sandbox) (op op' : Operation)
      (out : FileStore × Result brezel.Store.Error (Unit {0}))
      → Put c (key_of v) v s.files out
      → (out.1 ≡ ok tt → out.0.closed ≡ false)
      → key_of v ≡ scoped_key project id
      → after_write s op out ≡ (t, ok op')
      → find_sandbox t project id ≡ ok v
  unfolding after_write
  after_write-finds s t project id v op op' (files, err e) put open_ own h = absurd cc
  after_write-finds s t project id v op op' (files, ok u) (inr kept) open_ own h =
      absurd (kept.0 refl)
  after_write-finds s t project id v op op' (files, ok u) (inl put) open_ own h =
      let there : lookup (scoped_key project id) files.state.sandboxes ≡ some v =
        subst (λ m. lookup (scoped_key project id) m ≡ some v) (sym put.1)
          (ground (
            arith,
            lookup-insert (key_of v) (scoped_key project id) v s.files.state.sandboxes,
            text_beq_iff (scoped_key project id) (key_of v),
            own,
          )) in
      subst (λ x. find_sandbox x project id ≡ ok v) (ap (λ (p : Called Operation). p.0) h)
        (stored-found s files project id v (open_ refl) there)

  begin_with-finds :
      (s t : Service) (project id : Text) (sandbox : Sandbox) (key kind : Text)
      (target : SandboxState) (op : Operation) (op_id : Option Text)
      → key_of sandbox ≡ scoped_key project id
      → begin_with c o s sandbox key kind target op_id ≡ (t, ok op)
      → find_sandbox t project id ≡ ok (moved o target none sandbox)
  unfolding begin_with
  begin_with-finds s t project id sandbox key kind target op none own h = absurd cc
  begin_with-finds s t project id sandbox key kind target op (some n) own h =
      let made = new_operation c o sandbox key kind n in
      let next = moved o target none sandbox in
      after_write-finds s t project id next made op
        (update c o.fails s.files (λ st. ok (begin_write c o next made st)))
        (update-Put c o.fails s.files (begin_write c o next made) (key_of next) next
          (begin_write-sandboxes c o next made))
        (update-open s.files (λ st. ok (begin_write c o next made st))) own h

  -- After a transition has begun, a read of the sandbox returns it as the transition has written
  -- it, in the target state, with no failure and the next revision; and CanTransition allowed it.
  pub begin_transition-finds :
      (s t : Service) (project id : Text) (sandbox : Sandbox) (key kind : Text)
      (target : SandboxState) (op : Operation)
      → key_of sandbox ≡ scoped_key project id
      → begin_transition c o s sandbox key kind target ≡ (t, ok op)
      → (find_sandbox t project id ≡ ok (moved o target none sandbox))
        × (can_transition sandbox.state target ≡ true)
  unfolding begin_transition
  begin_transition-finds s t project id sandbox key kind target op own h =
      if_cases
        (λ (r : Called Operation).
          r ≡ (t, ok op)
          → (find_sandbox t project id ≡ ok (moved o target none sandbox))
            × (can_transition sandbox.state target ≡ true))
        (can_transition sandbox.state target) _ _
        (λ e h. (begin_with-finds s t project id sandbox key kind target op o.op_id own h, e))
        (λ e h. absurd cc) h
