-- ===== src/Controller/Writes.antt =====
-- What the writes of internal/service do to the sandboxes of the store.
use brezel.Common.{
  true, ◌≡◌, ◌≢◌, refl, sym, ◌∙◌, subst, ap, ◌⊎◌, inl, inr, arith, not, Option, none, some, ◌==◌,
  if_cases, lookup, insert, lookup-insert, Text, text_eq, text_beq_iff, int_beq, Time, Result, ok,
  err, require, or_fail-ok, >>-eq-ok, >>=-eq-ok, ok_injective, Bool-cases,
}
use brezel.Domain.States.{SandboxState, can_transition}
use brezel.Domain.Records.{Sandbox}
use brezel.Ledger.Disk.{Faults}
use brezel.Store.{State, scoped_key, validate_state, valid_state}
use brezel.Store.Files.{
  Codec, FileStore, Called, when_open, held, clone_events, clone_state, persist, installed, update,
  get_sandbox, advance_sandbox_activity, record_activity, record_sandbox_activity,
}

abbrev pub Valid : FileStore → Type 0
Valid s = validate_state s.state ≡ ok tt

abbrev pub state_of : Option Sandbox → Option SandboxState
state_of none = none
state_of (some v) = some v.state

-- The state of the sandbox under a key.
abbrev pub state_at : Text → FileStore → Option SandboxState
state_at key s = state_of (lookup key s.state.sandboxes)

-- The state of a sandbox stays, or makes a transition that the domain allows.
abbrev pub Moves : Option SandboxState → Option SandboxState → Type 0
Moves before_ after_ =
    (after_ ≡ before_)
    ⊎ ((from : SandboxState) × (to : SandboxState) × (before_ ≡ some from)
        × (after_ ≡ some to)
        × (can_transition from to ≡ true))

abbrev pub Legal : FileStore → FileStore → Type 0
Legal s t = (k : Text) → Moves (state_at k s) (state_at k t)

module _ (c : Codec) where
  pub clone_state-sandboxes :
      (s copy : State) → clone_state c s ≡ ok copy → copy.sandboxes ≡ s.sandboxes
  unfolding clone_state
  clone_state-sandboxes s copy h =
      let (events, cloned, same) = >>=-eq-ok (clone_events c s.events) _ h in
      sym (ap State.sandboxes (ok_injective same))

  -- A write has put a sandbox under a key, or has left the state.
  abbrev pub Put : Text → Sandbox → FileStore → Called (Unit {0}) → Type 0
  Put key v s out =
      ((out.1 ≡ ok tt) × (out.0.state.sandboxes ≡ insert key v s.state.sandboxes))
      ⊎ ((out.1 ≢ ok tt) × (out.0.state ≡ s.state))

  installed-Put :
      (key : Text) (v : Sandbox) (s : FileStore) (next : State)
      (out : Option Text × Result brezel.Store.Error (Unit {0}))
      → next.sandboxes ≡ insert key v s.state.sandboxes
      → Put key v s (installed c s next tt out)
  unfolding installed
  installed-Put key v s next (d, ok u) h = inl (refl, h)
  installed-Put key v s next (d, err e) h = inr (λ p. cc, refl)

  held-Put :
      (key : Text) (v : Sandbox) (s : FileStore) (r : Result brezel.Store.Error State)
      (out : State → Option Text × Result brezel.Store.Error (Unit {0}))
      → ((next : State) → r ≡ ok next → next.sandboxes ≡ insert key v s.state.sandboxes)
      → Put key v s (held s r (λ next. installed c s next tt (out next)))
  unfolding held
  held-Put key v s (ok next) out h = installed-Put key v s next (out next) (h next refl)
  held-Put key v s (err e) out h = inr (λ p. cc, refl)

  pub update-Put :
      (fails : Faults) (s : FileStore) (write : State → State) (key : Text) (v : Sandbox)
      → ((st : State) → (write st).sandboxes ≡ insert key v st.sandboxes)
      → Put key v s (update c fails s (λ st. ok (write st)))
  unfolding update when_open
  update-Put fails s write key v puts =
      held-Put key v s _ (λ next. persist c fails next s.disk)
        λ next h.
          let (open_, chain) = >>-eq-ok (require (not s.closed) _) _ h in
          let (copy, copied, checks) = >>=-eq-ok (clone_state c s.state) _ chain in
          let (valid, same) = >>-eq-ok (validate_state (write copy)) (ok (write copy)) checks in
          sym (ap State.sandboxes (ok_injective same))
          ∙ (puts copy ∙ ap (insert key v) (clone_state-sandboxes s.state copy copied))

  pub state_at-Put :
      (key : Text) (v : Sandbox) (s : FileStore) (out : Called (Unit {0}))
      → Put key v s out
      → (k : Text) → k ≢ key
      → state_at k out.0 ≡ state_at k s
  state_at-Put key v s out (inl put) k other =
      ap (λ m. state_of (lookup k m)) put.1
      ∙ ap state_of (lookup-insert key k v s.state.sandboxes ∙ ground (arith, text_beq_iff k key))
  state_at-Put key v s out (inr kept) k other =
      ap (λ (st : State). state_of (lookup k st.sandboxes)) kept.1

  pub state_at-put :
      (key : Text) (v : Sandbox) (s : FileStore) (out : Called (Unit {0}))
      → out.0.state.sandboxes ≡ insert key v s.state.sandboxes
      → state_at key out.0 ≡ some v.state
  state_at-put key v s out put =
      let there : lookup key (insert key v s.state.sandboxes) ≡ some v =
        ground (arith, lookup-insert key key v s.state.sandboxes, text_beq_iff key key) in
      ap (λ m. state_of (lookup key m)) put ∙ ap state_of there

  pub Put-Legal :
      (key : Text) (v : Sandbox) (s : FileStore) (out : Called (Unit {0})) (from : SandboxState)
      → Put key v s out
      → state_at key s ≡ some from
      → can_transition from v.state ≡ true
      → Legal s out.0
  Put-Legal key v s out from (inl put) was allowed_ k = elim (Bool-cases (k == key)) [
    | inl here ↦
        let equal : k ≡ key = ground (arith, text_beq_iff k key) in
        inr (
          from,
          v.state,
          subst (λ x. state_at x s ≡ some from) (sym equal) was,
          subst (λ x. state_at x out.0 ≡ some v.state) (sym equal) (state_at-put key v s out put.1),
          allowed_,
        )
    | inr elsewhere ↦
        inl (state_at-Put key v s out (inl put) k (λ p. ground (arith, text_beq_iff k key, p)))
  ]
  Put-Legal key v s out from (inr kept) was allowed_ k =
      inl (ap (λ (st : State). state_of (lookup k st.sandboxes)) kept.1)

  -- A write that succeeds leaves the new state.
  pub Put-state :
      (key : Text) (v : Sandbox) (s : FileStore) (out : Called (Unit {0})) (a : SandboxState)
      → Put key v s out
      → out.1 ≡ ok tt
      → state_at key out.0 ≡ some a
      → a ≡ v.state
  Put-state key v s out a (inl put) done is_ = let there = state_at-put key v s out put.1 in cc
  Put-state key v s out a (inr kept) done is_ = absurd (kept.0 done)

  advance-state :
      (current : Sandbox) (at : Time) → (advance_sandbox_activity current at).state ≡ current.state
  unfolding advance_sandbox_activity
  advance-state current at =
      if_cases (λ (x : Sandbox). x.state ≡ current.state) _ _ _ (λ e. refl) (λ e. refl)

  inserted-state_at :
      (s : FileStore) (key k : Text) (current next : Sandbox)
      → lookup key s.state.sandboxes ≡ some current
      → next.state ≡ current.state
      → state_of (lookup k (insert key next s.state.sandboxes)) ≡ state_at k s
  inserted-state_at s key k current next there same = elim (Bool-cases (k == key)) [
    | inl here ↦
        let equal : k ≡ key = ground (arith, text_beq_iff k key) in
        let put : lookup k (insert key next s.state.sandboxes) ≡ some next =
          ground (arith, lookup-insert key k next s.state.sandboxes) in
        let was : lookup k s.state.sandboxes ≡ some current =
          subst (λ x. lookup x s.state.sandboxes ≡ some current) (sym equal) there in
        ap state_of put ∙ (ap some same ∙ sym (ap state_of was))
    | inr elsewhere ↦
        let kept : lookup k (insert key next s.state.sandboxes) ≡ lookup k s.state.sandboxes =
          ground (arith, lookup-insert key k next s.state.sandboxes) in
        ap state_of kept
  ]

  installed-state_at :
      (s : FileStore) (key k : Text) (current next : Sandbox)
      (out : Option Text × Result brezel.Store.Error (Unit {0}))
      → lookup key s.state.sandboxes ≡ some current
      → next.state ≡ current.state
      → state_at k
          (installed c s
            (record s.state { sandboxes = insert key next s.state.sandboxes })
            next
            out).0
        ≡ state_at k s
  unfolding installed
  installed-state_at s key k current next (d, ok u) there same =
      inserted-state_at s key k current next there same
  installed-state_at s key k current next (d, err e) there same = refl

  recorded-state_at :
      (fails : Faults) (s : FileStore) (key : Text) (at : Time) (k : Text)
      (r : Result brezel.Store.Error Sandbox)
      → ((v : Sandbox) → r ≡ ok v → lookup key s.state.sandboxes ≡ some v)
      → state_at k (held s r (λ current. record_activity c fails s key current at)).0 ≡ state_at k s
  unfolding held record_activity
  recorded-state_at fails s key at k (err e) found = refl
  recorded-state_at fails s key at k (ok current) found =
      let moved = advance_sandbox_activity current at in
      let next = record s.state { sandboxes = insert key moved s.state.sandboxes } in
      let out = persist c fails next s.disk in
      if_cases (λ (x : Called Sandbox). state_at k x.0 ≡ state_at k s)
        (int_beq moved.revision current.revision) (s, ok current) (installed c s next moved out)
        (λ e. refl)
        (λ e.
          installed-state_at s key k current moved out (found current refl)
            (advance-state current at))

  -- The activity of a sandbox changes no sandbox's state.
  pub activity-state_at :
      (fails : Faults) (s : FileStore) (project id : Text) (at : Time) (k : Text)
      → state_at k (record_sandbox_activity c fails s project id at).0 ≡ state_at k s
  unfolding record_sandbox_activity get_sandbox when_open
  activity-state_at fails s project id at k =
      recorded-state_at fails s (scoped_key project id) at k (get_sandbox s project id) λ v h.
        or_fail-ok (lookup (scoped_key project id) s.state.sandboxes) _ v
          (>>-eq-ok (require (not s.closed) _) _ h).1
