-- ===== src/Controller/Repairing.antt =====
-- What the steps of internal/service's reconciliation do that do not hold the sandbox's lock yet.
use brezel.Common.{
  ◌≡◌, sym, subst, arith, Bool, false, not, ◌&&◌, ◌||◌, [], some, nat_eq, ◌==◌, if_cases, contains,
  Text, text_eq, ℤ, before, err,
}
use brezel.Domain.States.{SandboxState, terminal}
use brezel.Domain.Records.{Sandbox}
use brezel.Store.{scoped_key}
use brezel.Store.Files.{Codec}
use brezel.Controller.Types.{backend_error, cancelled, Service, Outside, key_of}
use brezel.Controller.Transitions.{find_sandbox, begin_expiration}
use brezel.Controller.Actions.{placed}
use brezel.Controller.Observed.{
  same_sandbox_reconcile_version, mark_unknown_observation, commit_observation,
}
use brezel.Controller.Repair.{
  busy, done, cleanup, observing, routing, missing, cleaning, removing, rerouting, Inspection,
  absent, unreachable, remote, Answer, finished, then_cleanup, is_cleanup, look, judged, inspected,
  route_observed, begin_cleanup, begin_missing,
}
use brezel.Controller.Writes.{Valid, state_at}
use brezel.Controller.Keeping.{found}
use brezel.Controller.Committing.{
  Commits, begin_expiration-Commits, mark_unknown_observation-Commits, commit_observation-Commits,
}
use brezel.Controller.Stepping.{
  Steps, unless_cancelled_cases, if_found_cases, done_if_cases, failed_or_cases, ok-Steps,
  err-Steps, Commits-Steps, finished-after, finished-service, cleanup-after, cleanup-service,
  Takes-Steps, busy_lem,
}

module _ (c : Codec) where
  -- The sandbox is not locked, and not terminal: the writes of the steps.
  expires-Steps :
      (o : Outside) (s : Service) (key : Text) (v : Sandbox)
      → Valid s.files
      → key_of v ≡ key
      → contains key s.active_backend_mutations ≡ false
      → state_at key s.files ≡ some v.state
      → terminal v.state ≡ false
      → Steps key s (then_cleanup (begin_expiration c o s v))
  expires-Steps o s key v valid own free was live =
      Commits-Steps key s v.state _
        (subst (Commits key s) (sym (cleanup-service (begin_expiration c o s v))) (
          subst (λ k. Commits k s (begin_expiration c o s v).0) own
            (begin_expiration-Commits c o s v valid)))
        free was live (cleanup-after s key (begin_expiration c o s v))

  unknown-Steps :
      (o : Outside) (s : Service) (key : Text) (v routed : Sandbox) (code : Text)
      → Valid s.files
      → key_of routed ≡ key
      → contains key s.active_backend_mutations ≡ false
      → state_at key s.files ≡ some v.state
      → terminal v.state ≡ false
      → Steps key s (mark_unknown_observation c o s v routed code, err backend_error)
  unknown-Steps o s key v routed code valid own free was live =
      Commits-Steps key s v.state _
        (subst (λ k. Commits k s (mark_unknown_observation c o s v routed code)) own
          (mark_unknown_observation-Commits c o s v routed code valid))
        free was live (λ n h. absurd cc)

  pub look-Steps :
      (o : Outside) (b : Bool) (s : Service) (project id : Text)
      → Valid s.files
      → Steps (scoped_key project id) s (look c o b s project id)
  unfolding look
  look-Steps o b s project id valid =
      let key = scoped_key project id in
      let Q = Steps key s in
      let stop = ok-Steps key s done valid tt in
      unless_cancelled_cases Q s b _ (err-Steps key s cancelled valid) (
        if_found_cases Q s (find_sandbox s project id) _ stop (λ e. err-Steps key s e valid)
          λ v h.
            let own = found s project id v valid h in
            done_if_cases Q s (terminal v.state || contains key s.active_backend_mutations) _ stop
              λ free.
                if_cases Q (is_cleanup c v) _ _ (λ e. ok-Steps key s cleanup valid tt)
                  λ e.
                    if_cases Q (not (before o.now v.expires_at)) _ _
                      (λ late.
                        expires-Steps o s key v valid own.0 (ground (arith, free)) own.1
                          (ground (arith, free)))
                      (λ early.
                        done_if_cases Q s _ _ stop
                          λ idle. ok-Steps key s (observing v.revision v.backend_id) valid tt))

  judged-Steps :
      (o : Outside) (s : Service) (key : Text) (v : Sandbox) (backend_id : Text) (i : Inspection)
      → Valid s.files
      → key_of v ≡ key
      → contains key s.active_backend_mutations ≡ false
      → state_at key s.files ≡ some v.state
      → terminal v.state ≡ false
      → Steps key s (judged c o s v backend_id i)
  unfolding judged
  judged-Steps o s key v backend_id absent valid own free was live =
      ok-Steps key s (missing v) valid tt
  judged-Steps o s key v backend_id unreachable valid own free was live =
      unknown-Steps o s key v v _ valid own free was live
  judged-Steps o s key v backend_id (remote remote_id state) valid own free was live =
      if_cases (Steps key s)
        (remote_id == [] || not (backend_id == []) && not (remote_id == backend_id)) _ _
        (λ e. unknown-Steps o s key v v _ valid own free was live)
        (λ e. ok-Steps key s (routing v (record v { backend_id = remote_id }) state) valid own)

  pub inspected-Steps :
      (o : Outside) (s : Service) (project id : Text) (revision : ℤ) (backend_id : Text)
      (a : Answer)
      → Valid s.files
      → Steps (scoped_key project id) s (inspected c o s project id revision backend_id a)
  unfolding inspected
  inspected-Steps o s project id revision backend_id a valid =
      let key = scoped_key project id in
      let Q = Steps key s in
      let stop = ok-Steps key s done valid tt in
      unless_cancelled_cases Q s a.is_cancelled _ (err-Steps key s cancelled valid) (
        if_found_cases Q s (find_sandbox s project id) _ stop (λ e. err-Steps key s e valid)
          λ v h.
            let own = found s project id v valid h in
            done_if_cases Q s _ _ stop λ go.
              let (free, idle) = busy_lem s project id (ground (arith, go)) in
              let live : terminal v.state ≡ false = ground (arith, go) in
              if_cases Q (not (before o.now v.expires_at)) _ _
                (λ late. expires-Steps o s key v valid own.0 free own.1 live)
                (λ early.
                  judged-Steps o s key v backend_id a.inspection valid own.0 free own.1 live))

  -- A failure of the node's route, or the commit.
  pub route_observed-Steps :
      (o : Outside) (s : Service) (project id : Text) (expected observed : Sandbox)
      (state : SandboxState) (a : Answer)
      → Valid s.files
      → key_of observed ≡ scoped_key project id
      → Steps (scoped_key project id) s (route_observed c o s project id expected observed state a)
  unfolding route_observed
  route_observed-Steps o s project id expected observed state a valid mine =
      let key = scoped_key project id in
      let Q = Steps key s in
      let routed = placed a.placement observed in
      let stop = ok-Steps key s done valid tt in
      unless_cancelled_cases Q s a.is_cancelled _ (err-Steps key s cancelled valid) (
        if_found_cases Q s (find_sandbox s project id) _ stop (λ e. err-Steps key s e valid)
          λ v h.
            let own = found s project id v valid h in
            done_if_cases Q s
              (not (same_sandbox_reconcile_version v expected)
                || (terminal v.state || (is_cleanup c v || busy s project id)))
              _ stop
              λ go.
                let (free, idle) = busy_lem s project id (ground (arith, go)) in
                let live : terminal v.state ≡ false = ground (arith, go) in
                failed_or_cases Q a.failure _ _
                  (λ code. unknown-Steps o s key v routed _ valid mine free own.1 live)
                  (if_cases Q a.required _ _
                    (λ e.
                      Takes-Steps key s (rerouting expected routed state) valid
                        (λ taken. (taken, mine)) free idle)
                    (λ e.
                      let r = commit_observation c o s v routed state a.candidates in
                      Commits-Steps key s v.state (finished r)
                        (subst (Commits key s) (sym (finished-service r)) (
                          subst (λ k. Commits k s r.0) own.0
                            (commit_observation-Commits c o s v routed state a.candidates valid)))
                        free own.1 live (finished-after s key r))))

  pub begin_cleanup-Steps :
      (s : Service) (project id : Text)
      → Valid s.files
      → Steps (scoped_key project id) s (begin_cleanup c s project id)
  unfolding begin_cleanup
  begin_cleanup-Steps s project id valid =
      let key = scoped_key project id in
      let Q = Steps key s in
      let stop = ok-Steps key s done valid tt in
      if_found_cases Q s (find_sandbox s project id) _ stop (λ e. err-Steps key s e valid)
        λ v h. done_if_cases Q s _ _ stop λ go.
          let (free, idle) = busy_lem s project id (ground (arith, go)) in
          Takes-Steps key s (cleaning v) valid (λ taken. (taken, (found s project id v valid h).0))
            free idle

  pub begin_missing-Steps :
      (s : Service) (project id : Text) (expected : Sandbox)
      → Valid s.files
      → Steps (scoped_key project id) s (begin_missing c s project id expected)
  unfolding begin_missing
  begin_missing-Steps s project id expected valid =
      let key = scoped_key project id in
      let Q = Steps key s in
      let stop = ok-Steps key s done valid tt in
      if_found_cases Q s (find_sandbox s project id) _ stop (λ e. err-Steps key s e valid)
        λ v h. done_if_cases Q s _ _ stop λ go.
          let (free, idle) = busy_lem s project id (ground (arith, go)) in
          Takes-Steps key s (removing v) valid (λ taken. (taken, (found s project id v valid h).0))
            free idle
