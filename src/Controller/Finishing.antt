-- ===== src/Controller/Finishing.antt =====
-- What the steps of internal/service's reconciliation do that let go of the sandbox's lock.
use brezel.Common.{
  ◌≡◌, ◌≢◌, refl, sym, ◌∙◌, subst, ap, arith, false, not, ◌||◌, none, some, nat_eq, contains, Text,
  text_eq, Result, ok, err,
}
use brezel.Domain.States.{SandboxState, terminal}
use brezel.Domain.Records.{Sandbox}
use brezel.Store.{scoped_key}
use brezel.Store.Files.{Codec}
use brezel.Controller.Types.{
  has_active_guest_operations, Error, backend_error, cancelled, Service, Outside, key_of, guests_of,
}
use brezel.Controller.Transitions.{Called, find_sandbox, is_target}
use brezel.Controller.Actions.{unlocked_for, placed}
use brezel.Controller.Observed.{
  same_sandbox_reconcile_version, mark_unknown_observation, complete_reconciled_cleanup,
  mark_reconciled_missing, commit_observation,
}
use brezel.Controller.Repair.{
  is_cleanup, Next, done, Answer, finished, cleanup_of, route_reconciled, end_cleanup, end_missing,
}
use brezel.Controller.Writes.{Valid, state_at}
use brezel.Controller.Keeping.{Guarded, found}
use brezel.Controller.Endings.{contains-remove_key}
use brezel.Controller.Committing.{
  Commits, mark_unknown_observation-Commits, complete_reconciled_cleanup-Commits,
  mark_reconciled_missing-Commits, commit_observation-Commits,
}
use brezel.Controller.Stepping.{
  Settled, unless_cancelled_cases, if_found_cases, done_if_cases, failed_or_cases, finished-service,
  Commits-Settled,
}

-- A step after which the sandboxes under the other keys, if locked, are as they were.
abbrev pub Finishes : Text → Service → Called Next → Type 0
Finishes key s out =
    Valid out.0.files × ((k : Text) → k ≢ key → Guarded k s out.0) × Settled s.files out.0.files

same-Finishes :
    (key : Text) (s : Service) (r : Result Error Next)
    → Valid s.files
    → Finishes key s (unlocked_for key s, r)
unfolding guests_of
same-Finishes key s r valid = (
  valid,
  λ k other locked.
      (contains-remove_key k key s.active_backend_mutations other ∙ locked, (λ none_. none_), refl),
  λ k a t h. h,
)

Commits-Finishes :
    (key : Text) (s : Service) (a : SandboxState) (out : Called Next)
    → Commits key (unlocked_for key s) out.0
    → state_at key s.files ≡ some a
    → terminal a ≡ false
    → Finishes key s out
unfolding guests_of
Commits-Finishes key s a out commits was live =
    let (local, active, guests) = commits in
    (
      local.0,
      λ k other locked. (
        ap (contains k) active
            ∙ (contains-remove_key k key s.active_backend_mutations other ∙ locked),
        (λ none_. ap (λ ops. guests_of (record s { active_guest_ops = ops }) k) guests ∙ none_),
        local.1 k other,
      ),
      Commits-Settled key (unlocked_for key s) out.0 a commits was live,
    )

module _ (c : Codec) where
  unknown-Finishes :
      (o : Outside) (s : Service) (key : Text) (v routed : Sandbox) (code : Text)
      → Valid s.files
      → key_of routed ≡ key
      → state_at key s.files ≡ some v.state
      → terminal v.state ≡ false
      → Finishes key s
          (mark_unknown_observation c o (unlocked_for key s) v routed code, err backend_error)
  unknown-Finishes o s key v routed code valid mine was live =
      Commits-Finishes key s v.state
        (mark_unknown_observation c o (unlocked_for key s) v routed code, err backend_error)
        (subst
          (λ k.
            Commits k (unlocked_for key s)
              (mark_unknown_observation c o (unlocked_for key s) v routed code))
          mine (mark_unknown_observation-Commits c o (unlocked_for key s) v routed code valid))
        was live

  finished-Finishes :
      (s : Service) (key : Text) (v : Sandbox) (r : Called (Unit {0}))
      → Commits (key_of v) (unlocked_for key s) r.0
      → key_of v ≡ key
      → state_at key s.files ≡ some v.state
      → terminal v.state ≡ false
      → Finishes key s (finished r)
  finished-Finishes s key v r commits own was live =
      Commits-Finishes key s v.state (finished r)
        (subst (Commits key (unlocked_for key s)) (sym (finished-service r))
          (subst (λ k. Commits k (unlocked_for key s) r.0) own commits))
        was live

  pub route_reconciled-Finishes :
      (o : Outside) (s : Service) (project id : Text) (expected observed : Sandbox)
      (state : SandboxState) (a : Answer)
      → Valid s.files
      → key_of observed ≡ scoped_key project id
      → Finishes
          (scoped_key project id)
          s
          (route_reconciled c o s project id expected observed state a)
  unfolding route_reconciled
  route_reconciled-Finishes o s project id expected observed state a valid mine =
      let key = scoped_key project id in
      let Q = Finishes key s in
      let t = unlocked_for key s in
      let routed = placed a.placement observed in
      let stop = same-Finishes key s (ok done) valid in
      unless_cancelled_cases Q t a.is_cancelled _ (same-Finishes key s (err cancelled) valid) (
        if_found_cases Q t (find_sandbox t project id) _ stop
          (λ e. same-Finishes key s (err e) valid)
          λ v h.
            let own = found t project id v valid h in
            done_if_cases Q t
              (not (same_sandbox_reconcile_version v expected)
                || (terminal v.state
                    || (is_cleanup c v || has_active_guest_operations t project id)))
              _ stop
              λ go.
                let live : terminal v.state ≡ false = ground (arith, go) in
                failed_or_cases Q a.failure _ _
                  (λ code. unknown-Finishes o s key v routed _ valid mine own.1 live)
                  (finished-Finishes s key v (commit_observation c o t v routed state a.candidates)
                    (commit_observation-Commits c o t v routed state a.candidates valid) own.0 own.1
                    live))

  cleanup_of_cases :
      (Q : Called Next → Type 0) (v : Sandbox) (next : SandboxState → Called Next)
      (rest : Called Next)
      → ((target : SandboxState) → Q (next target))
      → Q rest
      → Q (cleanup_of c v next rest)
  unfolding cleanup_of
  cleanup_of_cases Q v next rest go stop =
      elim v.cleanup_target as (λ x. Q (elim x [ none ↦ rest | some target ↦ next target ])) [
        | none ↦ stop
        | some target ↦ go target
      ]

  pub end_cleanup-Finishes :
      (o : Outside) (s : Service) (project id : Text) (expected : Sandbox) (a : Answer)
      → Valid s.files
      → key_of expected ≡ scoped_key project id
      → Finishes (scoped_key project id) s (end_cleanup c o s project id expected a)
  unfolding end_cleanup
  end_cleanup-Finishes o s project id expected a valid mine =
      let key = scoped_key project id in
      let Q = Finishes key s in
      let t = unlocked_for key s in
      let routed = placed a.placement expected in
      let stop = same-Finishes key s (ok done) valid in
      unless_cancelled_cases Q t a.is_cancelled _ (same-Finishes key s (err cancelled) valid) (
        if_found_cases Q t (find_sandbox t project id) _ stop
          (λ e. same-Finishes key s (err e) valid)
          λ v h.
            let own = found t project id v valid h in
            cleanup_of_cases Q v _ (t, ok done)
              (λ target.
                done_if_cases Q t
                  (not (same_sandbox_reconcile_version v expected)
                    || (terminal v.state || not (is_target c expected.cleanup_target target)))
                  _ stop
                  λ go.
                    let live : terminal v.state ≡ false = ground (arith, go) in
                    failed_or_cases Q a.failure _ _
                      (λ code. unknown-Finishes o s key v routed code valid mine own.1 live)
                      (finished-Finishes s key v
                        (complete_reconciled_cleanup c o t v routed target a.candidates)
                        (complete_reconciled_cleanup-Commits c o t v routed target a.candidates
                          valid)
                        own.0 own.1 live))
              stop)

  pub end_missing-Finishes :
      (o : Outside) (s : Service) (project id : Text) (current : Sandbox) (a : Answer)
      → Valid s.files
      → key_of current ≡ scoped_key project id
      → Finishes (scoped_key project id) s (end_missing c o s project id current a)
  unfolding end_missing
  end_missing-Finishes o s project id current a valid mine =
      let key = scoped_key project id in
      let Q = Finishes key s in
      let t = unlocked_for key s in
      let routed = placed a.placement current in
      let stop = same-Finishes key s (ok done) valid in
      unless_cancelled_cases Q t a.is_cancelled _ (same-Finishes key s (err cancelled) valid) (
        if_found_cases Q t (find_sandbox t project id) _ stop
          (λ e. same-Finishes key s (err e) valid)
          λ v h.
            let own = found t project id v valid h in
            done_if_cases Q t
              (not (same_sandbox_reconcile_version v current)
                || (terminal v.state || is_cleanup c v))
              _ stop
              λ go.
                let live : terminal v.state ≡ false = ground (arith, go) in
                failed_or_cases Q a.failure _ _
                  (λ code. unknown-Finishes o s key v routed _ valid mine own.1 live)
                  (finished-Finishes s key v (mark_reconciled_missing c o t v routed a.candidates)
                    (mark_reconciled_missing-Commits c o t v routed a.candidates valid) own.0 own.1
                    live))
