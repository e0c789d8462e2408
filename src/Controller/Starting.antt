-- ===== src/Controller/Starting.antt =====
-- How a lifecycle action of internal/service begins, and what its first step keeps.
use brezel.Common.{
  inl, sym, ◌≡◌, ◌≢◌, refl, ◌∙◌, subst, arith, Bool, true, false, not, [], Option, none, some,
  nat_eq, if_cases, length-eq-zero, contains, insert, Text, text_eq, text_beq_iff, Result, ok, err,
  require, >>-eq-ok,
}
use brezel.Domain.States.{SandboxState, unknown, can_transition}
use brezel.Domain.Records.{Sandbox, Operation}
use brezel.Store.{State, scoped_key, validate_state, valid_state}
use brezel.Store.Files.{Codec, FileStore, update}
use brezel.Store.Reachable.{update-Valid}
use brezel.Controller.Types.{
  Error, conflict, Service, Outside, key_of, guests_of, has_active_guest_operations, put_sandbox,
  put_operation, put_idempotency, append_event,
}
use brezel.Controller.Transitions.{
  Called, find_sandbox, after_write, moved, begin_write, begin_with, begin_transition,
  new_operation,
}
use brezel.Controller.Actions.{
  locked_for, Begun, free_to_move, reread, begin_moved, checked, replay_or,
}
use brezel.Controller.Writes.{
  Valid, state_at, Put, update-Put, state_at-Put, Legal, Put-Legal, Put-state,
}
use brezel.Controller.Keeping.{Guarded, Locked, Starts, refused-Starts, found}

module _ (c : Codec) (o : Outside) where
  reread-Starts :
      (s t : Service) (project id : Text) (op : Operation) (r : Result Error Sandbox)
      → let key = scoped_key project id in
        Valid t.files
        → ((k : Text) → Guarded k s t)
        → contains key s.active_backend_mutations ≡ false
        → guests_of t key ≡ []
        → find_sandbox t project id ≡ r
        → Legal s.files t.files
        → ((a : SandboxState) → state_at key t.files ≡ some a → can_transition a unknown ≡ true)
        → Starts key s (reread project id op t r)
  unfolding reread guests_of
  reread-Starts s t project id op (err e) v g new none_ h l leaves = record {
    valid = v;
    guarded = g;
    fresh = λ sandbox op h. absurd cc;
    legal = l;
  }
  reread-Starts s t project id op (ok v) valid g new none_ h l leaves = record {
    legal = l;
    valid = valid;
    guarded = λ k locked. let kept = g k locked in (ground (arith, kept.0), kept.1, kept.2);
    fresh = λ sandbox op' e.
        let same : v ≡ sandbox = cc in
        let (key, state) = found t project id v valid h in
        (
          new,
          subst (Locked (locked_for (scoped_key project id) t) (scoped_key project id)) same (
            ground (arith, text_beq_iff (scoped_key project id) (scoped_key project id)),
            none_,
            key,
            state,
          ),
          subst (λ (x : Sandbox). can_transition x.state unknown ≡ true) same
              (leaves v.state state),
        );
  }

  written-Starts :
      (s : Service) (project id : Text) (op : Operation)
      (out : FileStore × Result brezel.Store.Error (Unit {0}))
      → Valid out.0
      → ((k : Text) → k ≢ scoped_key project id → state_at k out.0 ≡ state_at k s.files)
      → contains (scoped_key project id) s.active_backend_mutations ≡ false
      → guests_of s (scoped_key project id) ≡ []
      → Legal s.files out.0
      → (out.1 ≡ ok tt
          → (a : SandboxState) → state_at (scoped_key project id) out.0 ≡ some a
          → can_transition a unknown ≡ true)
      → Starts (scoped_key project id) s (begin_moved project id (after_write s op out))
  unfolding begin_moved after_write guests_of
  written-Starts s project id op (files, ok u) valid states new none_ l leaves =
      reread-Starts s (record s { files = files }) project id op _ valid
        (λ k h. (
          h,
          λ g. g,
          states k (λ same.
              ground (arith, subst (λ x. contains x s.active_backend_mutations ≡ true) same h)),
        ))
        new none_ refl l (leaves refl)
  written-Starts s project id op (files, err e) valid states new none_ l leaves = record {
    legal = l;
    valid = valid;
    guarded = λ k h. (
      h,
      λ g. g,
      states k (λ same.
          ground (arith, subst (λ x. contains x s.active_backend_mutations ≡ true) same h)),
    );
    fresh = λ sandbox op h. absurd cc;
  }

  pub begin_write-sandboxes :
      (next : Sandbox) (op : Operation) (st : State)
      → (begin_write c o next op st).sandboxes ≡ insert (key_of next) next st.sandboxes
  unfolding begin_write append_event put_sandbox put_operation put_idempotency
  begin_write-sandboxes next op st = refl

  begin_with-Starts :
      (s : Service) (project id : Text) (sandbox : Sandbox) (key kind : Text)
      (target : SandboxState) (op_id : Option Text)
      → Valid s.files
      → contains (scoped_key project id) s.active_backend_mutations ≡ false
      → guests_of s (scoped_key project id) ≡ []
      → key_of sandbox ≡ scoped_key project id
      → state_at (scoped_key project id) s.files ≡ some sandbox.state
      → can_transition sandbox.state target ≡ true
      → can_transition target unknown ≡ true
      → Starts
          (scoped_key project id)
          s
          (begin_moved project id (begin_with c o s sandbox key kind target op_id))
  unfolding begin_with begin_moved
  begin_with-Starts s project id sandbox key kind target none valid new none_ own was move leaves =
      refused-Starts (scoped_key project id) s _ valid
  begin_with-Starts s project id sandbox key kind target (some n) valid new none_ own was move
        leaves =
      let op = new_operation c o sandbox key kind n in
      let next = moved o target none sandbox in
      let out = update c o.fails s.files (λ st. ok (begin_write c o next op st)) in
      let put : Put c (key_of next) next s.files out =
        update-Put c o.fails s.files (begin_write c o next op) (key_of next) next
          (begin_write-sandboxes next op) in
      written-Starts s project id op out (update-Valid c o.fails s.files _ valid)
        (λ k other. state_at-Put c (key_of next) next s.files out put k (λ p. other (p ∙ own))) new
        none_
        (Put-Legal c (key_of next) next s.files out sandbox.state put
          (subst (λ x. state_at x s.files ≡ some sandbox.state) (sym own) was) move)
        (λ done a here.
          let is_target =
            Put-state c (key_of next) next s.files out a put done
              (subst (λ x. state_at x out.0 ≡ some a) (sym own) here) in
          subst (λ x. can_transition x unknown ≡ true) (sym is_target) leaves)

  pub begin_transition-Starts :
      (s : Service) (project id : Text) (sandbox : Sandbox) (key kind : Text)
      (target : SandboxState)
      → Valid s.files
      → contains (scoped_key project id) s.active_backend_mutations ≡ false
      → guests_of s (scoped_key project id) ≡ []
      → key_of sandbox ≡ scoped_key project id
      → state_at (scoped_key project id) s.files ≡ some sandbox.state
      → can_transition target unknown ≡ true
      → Starts
          (scoped_key project id)
          s
          (begin_moved project id (begin_transition c o s sandbox key kind target))
  unfolding begin_transition begin_moved
  begin_transition-Starts s project id sandbox key kind target valid new none_ own was leaves =
      if_cases
        (λ (r : Called Operation). Starts (scoped_key project id) s (begin_moved project id r))
        (can_transition sandbox.state target) _ _
        (λ e.
          begin_with-Starts s project id sandbox key kind target o.op_id valid new none_ own was e
            leaves)
        (λ e. refused-Starts (scoped_key project id) s conflict valid)

  -- The tests that let an action begin.
  pub free_lem :
      (s : Service) (project id : Text) (in_state : Bool)
      → free_to_move s project id in_state ≡ ok tt
      → (contains (scoped_key project id) s.active_backend_mutations ≡ false)
        × (guests_of s (scoped_key project id) ≡ [])
  unfolding free_to_move has_active_guest_operations
  free_lem s project id in_state h =
      let (unlocked, rest) =
        >>-eq-ok
          (require (not (contains (scoped_key project id) s.active_backend_mutations)) conflict) _
          h in
      let (there, idle) = >>-eq-ok (require in_state conflict) _ rest in
      (ground arith, length-eq-zero (guests_of s (scoped_key project id)) (ground arith))

  pub checked-Starts :
      {A : Type 0} (key : Text) (s : Service) (r : Result Error A) (next : A → Called Begun)
      → Valid s.files
      → ((a : A) → r ≡ ok a → Starts key s (next a))
      → Starts key s (checked s r next)
  unfolding checked
  checked-Starts key s (ok a) next v f = f a refl
  checked-Starts key s (err e) next v f = refused-Starts key s e v

  pub replay-Starts :
      (key : Text) (s : Service) (sandbox : Sandbox) (op : Option Operation) (rest : Called Begun)
      → Valid s.files
      → Starts key s rest
      → Starts key s (replay_or s sandbox op rest)
  unfolding replay_or
  replay-Starts key s sandbox none rest v h = h
  replay-Starts key s sandbox (some op) rest v h = record {
    valid = v;
    guarded = λ k h. (h, λ g. g, refl);
    fresh = λ sandbox op h. absurd cc;
    legal = λ k. inl refl;
  }
