-- ===== src/Controller/Endings.antt =====
-- The second step of a lifecycle action of internal/service.
use brezel.Common.{
  inl, ◌≡◌, ◌≢◌, refl, sym, ◌∙◌, subst, ap, arith, true, List, [], ◌∷◌, ◌++◌, Option, none, some,
  nat_eq, if_cases, codes, contains, insert, Text, text_eq, text_beq_iff, Result, ok, err,
}
use brezel.Domain.States.{SandboxState, running, can_transition, unknown}
use brezel.Domain.Records.{Sandbox, Operation, OperationState}
use brezel.Store.{State, scoped_key}
use brezel.Store.Files.{Codec, FileStore, update}
use brezel.Store.Reachable.{update-Valid}
use brezel.Controller.Types.{
  Service, Outside, same_state, state_text, key_of, guests_of, put_sandbox, put_operation,
  append_event,
}
use brezel.Controller.Transitions.{
  Called, after_write, mark_sandbox_active, end_write, completed, noted, complete_transition,
  fail_transition,
}
use brezel.Controller.Actions.{remove_key, unlocked_for, end_action}
use brezel.Controller.Writes.{Valid, state_at, update-Put, state_at-Put, Legal, Put-Legal}
use brezel.Controller.Keeping.{Guarded}

pub contains-remove_key :
    (k key : Text) (keys : List Text) → k ≢ key → contains k (remove_key key keys) ≡ contains k keys
unfolding remove_key
contains-remove_key k key [] other = refl
contains-remove_key k key (x ∷ keys) other = ground (
  arith,
  contains-remove_key k key keys other,
  text_beq_iff k key,
  text_beq_iff key x,
  text_beq_iff k x,
)

-- A step that changes what stands under one key only.
abbrev pub Only : Text → Service → Service → Type 0
Only key s t = Valid t.files × ((k : Text) → k ≢ key → Guarded k s t) × Legal s.files t.files

module _ (c : Codec) (o : Outside) where
  end_write-sandboxes :
      (next : Sandbox) (op : Operation) (kind : Text) (details : Option Text) (st : State)
      → (end_write c o next op kind details st).sandboxes ≡ insert (key_of next) next st.sandboxes
  unfolding end_write append_event put_sandbox put_operation
  end_write-sandboxes next op kind details st = refl

  written-Only :
      (s t : Service) (key : Text) (next : Sandbox) (write : State → State)
      → ((st : State) → (write st).sandboxes ≡ insert (key_of next) next st.sandboxes)
      → key_of next ≡ key
      → Valid s.files
      → t.files ≡ (update c o.fails s.files (λ st. ok (write st))).0
      → t.active_guest_ops ≡ s.active_guest_ops
      → t.active_backend_mutations ≡ remove_key key s.active_backend_mutations
      → (from : SandboxState) → state_at key s.files ≡ some from
      → can_transition from next.state ≡ true
      → Only key s t
  unfolding guests_of
  written-Only s t key next write puts own valid files guests active from was move =
      let out = update c o.fails s.files (λ st. ok (write st)) in
      let put = update-Put c o.fails s.files write (key_of next) next puts in
      (
        subst Valid (sym files) (update-Valid c o.fails s.files (λ st. ok (write st)) valid),
        λ k other locked. (
          ap (contains k) active
              ∙ (contains-remove_key k key s.active_backend_mutations other ∙ locked),
          (λ none_. ap (λ ops. guests_of (record s { active_guest_ops = ops }) k) guests ∙ none_),
          ap (state_at k) files
              ∙ state_at-Put c (key_of next) next s.files out put k (λ p. other (p ∙ own)),
        ),
        subst (Legal s.files) (sym files) (
            Put-Legal c (key_of next) next s.files out from put
              (subst (λ x. state_at x s.files ≡ some from) (sym own) was) move),
      )

  pub after_write-service :
      {A : Type 0} (s : Service) (a : A) (out : FileStore × Result brezel.Store.Error (Unit {0}))
      → (after_write s a out).0 ≡ record s { files = out.0 }
  unfolding after_write
  after_write-service s a (files, ok u) = refl
  after_write-service s a (files, err e) = refl

  completed-key :
      (target : SandboxState) (sandbox : Sandbox)
      → key_of (completed c o target sandbox) ≡ key_of sandbox
  unfolding mark_sandbox_active
  completed-key target sandbox =
      if_cases (λ (x : Sandbox). key_of x ≡ key_of sandbox) (same_state target running) _ _
        (λ e. refl) (λ e. refl)

  completed-state :
      (target : SandboxState) (sandbox : Sandbox) → (completed c o target sandbox).state ≡ target
  unfolding mark_sandbox_active
  completed-state target sandbox =
      if_cases (λ (x : Sandbox). x.state ≡ target) (same_state target running) _ _ (λ e. refl)
        (λ e. refl)

  noted-kept :
      (target : SandboxState) (sandbox : Sandbox) (s : Service)
      → ((noted c o target sandbox s).active_guest_ops ≡ s.active_guest_ops)
        × ((noted c o target sandbox s).active_backend_mutations ≡ s.active_backend_mutations)
        × ((noted c o target sandbox s).files ≡ s.files)
  unfolding noted
  noted-kept target sandbox s =
      if_cases
        (λ (x : Service).
          (x.active_guest_ops ≡ s.active_guest_ops)
          × (x.active_backend_mutations ≡ s.active_backend_mutations)
          × (x.files ≡ s.files))
        (same_state target running) _ _ (λ e. (refl, refl, refl)) (λ e. (refl, refl, refl))

  complete-Only :
      (s : Service) (key : Text) (sandbox : Sandbox) (op : Operation) (target : SandboxState)
      → key_of sandbox ≡ key
      → Valid s.files
      → state_at key s.files ≡ some sandbox.state
      → Only key s (complete_transition c o (unlocked_for key s) sandbox op target).0
  unfolding complete_transition guests_of
  complete-Only s key sandbox op target own valid was =
      let next = completed c o target sandbox in
      let u = unlocked_for key s in
      let before_ = noted c o target sandbox u in
      let kept = noted-kept target sandbox u in
      let done = record op {
        state = OperationState.succeeded;
        updated_at = o.now;
        failure = none;
      } in
      let write = end_write c o next done (codes "sandbox." ++ state_text target) none in
      let out = update c o.fails s.files (λ st. ok (write st)) in
      if_cases (λ (out : Called (Sandbox × Operation)). Only key s out.0)
        (can_transition sandbox.state target) _ _
        (λ e. subst (Only key s) (sym (after_write-service before_ (next, done) out)) (
          written-Only s (record before_ { files = out.0 }) key next write
            (end_write-sandboxes next done (codes "sandbox." ++ state_text target) none)
            (completed-key target sandbox ∙ own) valid refl kept.0 kept.1 sandbox.state was
            (subst (λ x. can_transition sandbox.state x ≡ true)
              (sym (completed-state target sandbox)) e)))
        (λ e. (
          valid,
          λ k other locked. (
            contains-remove_key k key s.active_backend_mutations other ∙ locked,
            λ none_. none_,
            refl,
          ),
          λ k. inl refl,
        ))

  pub end_action-Only :
      (s : Service) (key : Text) (sandbox : Sandbox) (op : Operation) (target : SandboxState)
      (failure : Option Text)
      → key_of sandbox ≡ key
      → Valid s.files
      → state_at key s.files ≡ some sandbox.state
      → can_transition sandbox.state unknown ≡ true
      → Only key s (end_action c o s key sandbox op target failure)
  unfolding end_action fail_transition
  end_action-Only s key sandbox op target none own valid was leaves =
      complete-Only s key sandbox op target own valid was
  end_action-Only s key sandbox op target (some code) own valid was leaves =
      written-Only s _ key _ _ (end_write-sandboxes _ _ _ _) own valid refl refl refl sandbox.state
        was leaves
