-- ===== src/Controller/Committing.antt =====
-- What the writes of internal/service's reconciliation leave of the sandboxes.
use brezel.Common.{
  ◌≡◌, ◌≢◌, refl, sym, ◌∙◌, subst, ap, arith, Bool, true, false, not, List, [], ◌∷◌, Option, none,
  some, ◌&&◌, if_cases, lookup, insert, lookup-insert, Text, text_eq, text_beq_iff, codes, Result,
  ok, err, ◌>>=◌, require, or_fail, >>-eq-ok, >>=-eq-ok, ok_injective,
}
use brezel.Domain.States.{SandboxState, deleting, deleted, expired, unknown, can_transition}
use brezel.Domain.Records.{Sandbox, Operation, Event}
use brezel.Ledger.Disk.{Faults}
use brezel.Store.{State, validate_state}
use brezel.Store.Files.{Codec, FileStore, when_open, held, clone_state, persist, installed, update}
use brezel.Store.Reachable.{update-Valid}
use brezel.Controller.Types.{Service, Outside, key_of, same_state, append_event, put_sandbox}
use brezel.Controller.Transitions.{
  moved, plain_write, mark_unknown, begin_expiration, is_target, unconfirmed,
}
use brezel.Controller.Observed.{
  superseded, same_operation_version, same_reconcile_observation, none_of,
  latest_reconcile_operations, settle, unchanged, unless_superseded, put_at,
  mark_unknown_observation, cleanup_write, complete_reconciled_cleanup, missing_write,
  mark_reconciled_missing, observation_write, commit_observation,
}
use brezel.Controller.Writes.{Valid, state_of, state_at, clone_state-sandboxes}
use brezel.Controller.Endings.{after_write-service}

-- A write at one key.
abbrev pub Away : Text → State → State → Type 0
Away key st next = (k : Text) → k ≢ key → lookup k next.sandboxes ≡ lookup k st.sandboxes

abbrev pub Local : Text → FileStore → FileStore → Type 0
Local key f g = Valid g × ((k : Text) → k ≢ key → state_at k g ≡ state_at k f)

-- A step that writes at one key, and changes no lock and no guest operation.
abbrev pub Commits : Text → Service → Service → Type 0
Commits key s t =
    Local key s.files t.files
    × (t.active_backend_mutations ≡ s.active_backend_mutations)
    × (t.active_guest_ops ≡ s.active_guest_ops)

pub same-Commits : (key : Text) (s : Service) → Valid s.files → Commits key s s
same-Commits key s valid = ((valid, λ k other. refl), refl, refl)

pub put-Away : (key : Text) (v : Sandbox) (st : State) → Away key st (put_at key v st)
put-Away key v st k other =
    ground (arith, lookup-insert key k v st.sandboxes, text_beq_iff k key, other)

settle-sandboxes :
    (key_for : Operation → Text) (settled : Operation → Operation) (ops : List Operation)
    (st next : State)
    → settle key_for settled ops st ≡ ok next
    → next.sandboxes ≡ st.sandboxes
unfolding settle
settle-sandboxes key_for settled [] st next h = ap State.sandboxes (sym (ok_injective h))
settle-sandboxes key_for settled (op ∷ ops) st next h =
    let (persisted, there, rest) =
      >>=-eq-ok (or_fail (lookup (key_for op) st.operations) superseded) _ h in
    let (same, last) = >>-eq-ok (require (same_operation_version persisted op) superseded) _ rest in
    settle-sandboxes key_for settled ops
      (record st { operations = insert (key_for op) (settled op) st.operations }) next last

-- The operations are settled after the write, and the event is appended.
settled-Away :
    (key_for : Operation → Text) (settled : Operation → Operation) (ops : List Operation)
    (key : Text) (v : Sandbox) (event : Event) (st next : State)
    → (settle key_for settled ops (put_at key v st) >>= λ mid. ok (append_event mid event))
      ≡ ok next
    → Away key st next
unfolding append_event
settled-Away key_for settled ops key v event st next h k other =
    let (mid, done, last) = >>=-eq-ok (settle key_for settled ops (put_at key v st)) _ h in
    ap (λ (x : State). lookup k x.sandboxes) (sym (ok_injective last))
    ∙ (ap (lookup k) (settle-sandboxes key_for settled ops (put_at key v st) mid done)
        ∙ put-Away key v st k other)

module _ (c : Codec) where
  installed-Away :
      (key : Text) (s : FileStore) (next : State)
      (out : Option Text × Result brezel.Store.Error (Unit {0}))
      → Away key s.state next
      → (k : Text) → k ≢ key
      → state_at k (installed c s next tt out).0 ≡ state_at k s
  unfolding installed
  installed-Away key s next (d, ok u) away k other = ap state_of (away k other)
  installed-Away key s next (d, err e) away k other = refl

  held-Away :
      (key : Text) (s : FileStore) (r : Result brezel.Store.Error State)
      (out : State → Option Text × Result brezel.Store.Error (Unit {0}))
      → ((next : State) → r ≡ ok next → Away key s.state next)
      → (k : Text) → k ≢ key
      → state_at k (held s r (λ next. installed c s next tt (out next))).0 ≡ state_at k s
  unfolding held
  held-Away key s (ok next) out away k other =
      installed-Away key s next (out next) (away next refl) k other
  held-Away key s (err e) out away k other = refl

  update-Local :
      (fails : Faults) (s : FileStore) (write : State → Result brezel.Store.Error State)
      (key : Text)
      → ((st next : State) → write st ≡ ok next → Away key st next)
      → Valid s
      → Local key s (update c fails s write).0
  unfolding update when_open
  update-Local fails s write key away valid = (
    update-Valid c fails s write valid,
    held-Away key s _ (λ next. persist c fails next s.disk)
        λ next h k other.
          let (open_, chain) = >>-eq-ok (require (not s.closed) _) _ h in
          let (copy, copied, rest) = >>=-eq-ok (clone_state c s.state) _ chain in
          let (made, called, checks) = >>=-eq-ok (write copy) _ rest in
          let (ok_, same) = >>-eq-ok (validate_state made) (ok made) checks in
          ap (λ (x : State). lookup k x.sandboxes) (sym (ok_injective same))
          ∙ (away copy made called k other
              ∙ ap (lookup k) (clone_state-sandboxes c s.state copy copied)),
  )

  pub plain-Away :
      (o : Outside) (next : Sandbox) (kind : Text) (details : Option Text) (st made : State)
      → Path (Result brezel.Store.Error State) (ok (plain_write c o next kind details st)) (ok made)
      → Away (key_of next) st made
  unfolding plain_write append_event put_sandbox
  plain-Away o next kind details st made h k other =
      ap (λ (x : State). lookup k x.sandboxes) (sym (ok_injective h))
      ∙ put-Away (key_of next) next st k other

  pub written-Commits :
      {A : Type 0} (o : Outside) (s : Service) (a : A) (key : Text)
      (write : State → Result brezel.Store.Error State)
      → ((st next : State) → write st ≡ ok next → Away key st next)
      → Valid s.files
      → Commits key s
          (brezel.Controller.Transitions.after_write s a (update c o.fails s.files write)).0
  written-Commits o s a key write away valid =
      subst (Commits key s) (sym (after_write-service c o s a (update c o.fails s.files write)))
        (update-Local o.fails s.files write key away valid, refl, refl)

  unless-service :
      (s : Service) (out : FileStore × Result brezel.Store.Error (Unit {0}))
      → (unless_superseded s out).0 ≡ record s { files = out.0 }
  unfolding unless_superseded
  unless-service s (files, ok u) = refl
  unless-service s (files, err e) = refl

  unless-Commits :
      (o : Outside) (s : Service) (key : Text) (write : State → Result brezel.Store.Error State)
      → ((st next : State) → write st ≡ ok next → Away key st next)
      → Valid s.files
      → Commits key s (unless_superseded s (update c o.fails s.files write)).0
  unless-Commits o s key write away valid =
      subst (Commits key s) (sym (unless-service s (update c o.fails s.files write)))
        (update-Local o.fails s.files write key away valid, refl, refl)

  pub begin_expiration-Commits :
      (o : Outside) (s : Service) (sandbox : Sandbox)
      → Valid s.files
      → Commits (key_of sandbox) s (begin_expiration c o s sandbox).0
  unfolding begin_expiration
  begin_expiration-Commits o s sandbox valid =
      let Goal =
        λ (out : brezel.Controller.Transitions.Called Sandbox). Commits (key_of sandbox) s out.0 in
      let next = record (moved o deleting sandbox.failure sandbox) {
        cleanup_target = some expired;
      } in
      let same = same-Commits (key_of sandbox) s valid in
      if_cases Goal (is_target c sandbox.cleanup_target deleted) _ _ (λ e. same)
        λ e.
          if_cases Goal
            (same_state sandbox.state deleting && is_target c sandbox.cleanup_target expired) _ _
            (λ e. same)
            λ e.
              if_cases Goal
                (not (same_state sandbox.state deleting)
                  && not (can_transition sandbox.state deleting))
                _ _ (λ e. same)
                λ e.
                  written-Commits o s next (key_of sandbox)
                    (λ st. ok (plain_write c o next (codes "sandbox.expiring") none st))
                    (plain-Away o next (codes "sandbox.expiring") none) valid

  pub mark_unknown_observation-Commits :
      (o : Outside) (s : Service) (current routed : Sandbox) (code : Text)
      → Valid s.files
      → Commits (key_of routed) s (mark_unknown_observation c o s current routed code)
  unfolding mark_unknown_observation mark_unknown
  mark_unknown_observation-Commits o s current routed code valid =
      let observed = record routed {
        state = unknown;
        failure = some (unconfirmed c code (codes "backend state could not be confirmed"));
      } in
      if_cases (Commits (key_of routed) s) (same_reconcile_observation current observed) _ _
        (λ e. same-Commits (key_of routed) s valid)
        (λ e.
          written-Commits o s _ (key_of routed) _ (plain-Away o _ (codes "sandbox.unknown") _)
            valid)

  pub complete_reconciled_cleanup-Commits :
      (o : Outside) (s : Service) (current routed : Sandbox) (target : SandboxState)
      (candidates : List Operation)
      → Valid s.files
      → Commits
          (key_of current)
          s
          (complete_reconciled_cleanup c o s current routed target candidates).0
  unfolding complete_reconciled_cleanup cleanup_write
  complete_reconciled_cleanup-Commits o s current routed target candidates valid =
      unless-Commits o s (key_of current) _
        (λ st next h.
          settled-Away _ _ _ (key_of current) _ _ st next (>>-eq-ok (unchanged current _ st) _ h).1)
        valid

  pub mark_reconciled_missing-Commits :
      (o : Outside) (s : Service) (current routed : Sandbox) (candidates : List Operation)
      → Valid s.files
      → Commits (key_of current) s (mark_reconciled_missing c o s current routed candidates).0
  unfolding mark_reconciled_missing missing_write
  mark_reconciled_missing-Commits o s current routed candidates valid =
      unless-Commits o s (key_of current) _
        (λ st next h.
          settled-Away _ _ _ (key_of current) _ _ st next (>>-eq-ok (unchanged current _ st) _ h).1)
        valid

  observation-Away :
      (o : Outside) (changed : Bool) (current made : Sandbox) (ops : List Operation)
      (st next : State)
      → observation_write c o changed current made ops st ≡ ok next
      → Away (key_of current) st next
  unfolding observation_write
  observation-Away o true current made ops st next h =
      settled-Away _ _ ops (key_of current) made _ st next (>>-eq-ok (unchanged current _ st) _ h).1
  observation-Away o false current made ops st next h =
      λ k other. ap (lookup k) (settle-sandboxes _ _ ops st next h)

  pub commit_observation-Commits :
      (o : Outside) (s : Service) (current routed : Sandbox) (state : SandboxState)
      (candidates : List Operation)
      → Valid s.files
      → Commits (key_of current) s (commit_observation c o s current routed state candidates).0
  unfolding commit_observation
  commit_observation-Commits o s current routed state candidates valid =
      if_cases
        (λ (out : brezel.Controller.Transitions.Called (Unit {0})).
          Commits (key_of current) s out.0)
        (same_reconcile_observation current (record routed { state = state; failure = none })
          && none_of (latest_reconcile_operations candidates state))
        _ _ (λ e. same-Commits (key_of current) s valid)
        (λ e. unless-Commits o s (key_of current) _ (observation-Away o _ current _ _) valid)
