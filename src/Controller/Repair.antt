-- ===== src/Controller/Repair.antt =====
-- The reconciliation of one sandbox in internal/service/service.go, in its steps under the mutex:
-- reconcileSandboxBackendState with the backend's answer and the route's state between them,
-- reconcileSandboxCleanup and reconcileMissingSandbox around their calls. The answers are arguments.
-- cancelActiveGuestOperationsLocked only cancels contexts and is left out.
use brezel.Common.{
  Bool, true, false, not, ◌&&◌, ◌||◌, List, [], Option, none, some, ◌==◌, nat_eq, if◌then◌else◌,
  contains, Text, text_eq, codes, ℤ, int_beq, before, Result, ok, err,
}
use brezel.Domain.States.{SandboxState, deleted, expired, terminal}
use brezel.Domain.Records.{Sandbox, Operation}
use brezel.Store.{scoped_key}
use brezel.Store.Files.{Codec}
use brezel.Controller.Types.{
  Error, not_found, backend_error, cancelled, Service, Outside, has_active_guest_operations,
}
use brezel.Controller.Transitions.{Called, find_sandbox, begin_expiration, is_target}
use brezel.Controller.Actions.{locked_for, unlocked_for, Placement, placed}
use brezel.Controller.Observed.{
  same_sandbox_reconcile_version, mark_unknown_observation, complete_reconciled_cleanup,
  mark_reconciled_missing, commit_observation,
}

-- What a step leads to: the cleanup of the sandbox; an inspection of its backend, for the revision
-- and the backend's id; a look at its route, for the sandbox that was read and the state that the
-- backend told; the removal of a missing sandbox. The last three hold the sandbox's lock.
pub data Next : Type 0 where
  done cleanup : Next
  observing : ℤ → Text → Next
  routing : Sandbox → Sandbox → SandboxState → Next
  missing : Sandbox → Next
  cleaning : Sandbox → Next
  removing : Sandbox → Next
  rerouting : Sandbox → Sandbox → SandboxState → Next

-- The backend's answer to Find or Inspect.
pub data Inspection : Type 0 where
  absent unreachable : Inspection
  remote : Text → SandboxState → Inspection

-- What a step learns from outside: whether its context is cancelled, the backend's answer, the
-- route's assignment, whether the route must change, whether the backend's
-- Delete failed, the code of a failure, and the operations that
-- the reconciliation has listed.
pub record Answer : Type 0 where
  pub is_cancelled : Bool
  pub inspection : Inspection
  pub placement : Placement
  pub required : Bool
  pub undeleted : Bool
  pub failure : Option Text
  pub candidates : List Operation

unfoldable pub is_not_found : Error → Bool
is_not_found not_found = true
is_not_found _ = false

-- `if err != nil`: a sandbox that is gone is no error.
unfoldable pub if_found : Service → Result Error Sandbox → (Sandbox → Called Next) → Called Next
if_found s (err e) next = (s, if is_not_found e then ok done else err e)
if_found s (ok sandbox) next = next sandbox

unfoldable pub unless_cancelled : Service → Bool → Called Next → Called Next
unless_cancelled s true rest = (s, err cancelled)
unless_cancelled s false rest = rest

-- `return nil` if a test holds
abbrev pub done_if : Service → Bool → Called Next → Called Next
done_if s test rest = if test then (s, ok done) else rest

unfoldable pub busy : Service → Text → Text → Bool
busy s project id =
    contains (scoped_key project id) s.active_backend_mutations
    || has_active_guest_operations s project id

-- `if routeErr != nil`
unfoldable pub failed_or : Option Text → (Text → Called Next) → Called Next → Called Next
failed_or none bad rest = rest
failed_or (some code) bad rest = bad code

-- The step's end, after a write whose error it returns.
unfoldable pub finished : Called (Unit {0}) → Called Next
finished (s, ok u) = (s, ok done)
finished (s, err e) = (s, err e)

unfoldable pub then_cleanup : Called Sandbox → Called Next
then_cleanup (s, ok sandbox) = (s, ok cleanup)
then_cleanup (s, err e) = (s, err e)

module _ (c : Codec) where
  unfoldable pub is_cleanup : Sandbox → Bool
  is_cleanup sandbox =
      is_target c sandbox.cleanup_target deleted || is_target c sandbox.cleanup_target expired

  unfoldable pub cleanup_of : Sandbox → (SandboxState → Called Next) → Called Next → Called Next
  cleanup_of sandbox next rest = elim sandbox.cleanup_target [
    | none ↦ rest
    | some target ↦ next target
  ]

  -- reconcileSandboxBackendState up to the backend's call
  unfoldable pub look : Outside → Bool → Service → Text → Text → Called Next
  look o is_cancelled s project id = unless_cancelled s is_cancelled (
      if_found s (find_sandbox s project id) λ sandbox.
        done_if s
          (terminal sandbox.state || contains (scoped_key project id) s.active_backend_mutations)
          (if is_cleanup sandbox
            then (s, ok cleanup)
            else if not (before o.now sandbox.expires_at)
            then then_cleanup (begin_expiration c o s sandbox)
            else done_if s (has_active_guest_operations s project id)
                (s, ok (observing sandbox.revision sandbox.backend_id))))

  -- What the backend's answer leads to.
  unfoldable pub judged : Outside → Service → Sandbox → Text → Inspection → Called Next
  judged o s current backend_id absent = (s, ok (missing current))
  judged o s current backend_id unreachable = (
    mark_unknown_observation c o s current current (codes "backend_reconcile_failed"),
    err backend_error,
  )
  judged o s current backend_id (remote remote_id state) =
      if remote_id == [] || not (backend_id == []) && not (remote_id == backend_id)
      then (
        mark_unknown_observation c o s current current (codes "backend_identity_mismatch"),
        err backend_error,
      )
      else (s, ok (routing current (record current { backend_id = remote_id }) state))

  -- from the backend's answer to the look at the route
  unfoldable pub inspected : Outside → Service → Text → Text → ℤ → Text → Answer → Called Next
  inspected o s project id revision backend_id a = unless_cancelled s a.is_cancelled (
      if_found s (find_sandbox s project id) λ current.
        done_if s
          (not (int_beq current.revision revision)
            || (terminal current.state || (busy s project id || is_cleanup current)))
          (if not (before o.now current.expires_at)
            then then_cleanup (begin_expiration c o s current)
            else judged o s current backend_id a.inspection))

  -- from the route's state to the change of the route, or to the end
  unfoldable pub route_observed :
      Outside → Service → Text → Text → Sandbox → Sandbox → SandboxState → Answer → Called Next
  route_observed o s project id expected observed state a =
      let routed = placed a.placement observed in
      unless_cancelled s a.is_cancelled (
        if_found s (find_sandbox s project id) λ current.
          done_if s
            (not (same_sandbox_reconcile_version current expected)
              || (terminal current.state || (is_cleanup current || busy s project id)))
            (failed_or a.failure
              (λ code. (
                mark_unknown_observation c o s current routed (codes "node_route_reconcile_failed"),
                err backend_error,
              ))
              (if a.required
                then (locked_for (scoped_key project id) s, ok (rerouting expected routed state))
                else finished (commit_observation c o s current routed state a.candidates))))

  -- from the change of the route to the end
  unfoldable pub route_reconciled :
      Outside → Service → Text → Text → Sandbox → Sandbox → SandboxState → Answer → Called Next
  route_reconciled o s project id expected observed state a =
      let t = unlocked_for (scoped_key project id) s in
      let routed = placed a.placement observed in
      unless_cancelled t a.is_cancelled (
        if_found t (find_sandbox t project id) λ current.
          done_if t
            (not (same_sandbox_reconcile_version current expected)
              || (terminal current.state
                  || (is_cleanup current || has_active_guest_operations t project id)))
            (failed_or a.failure
              (λ code. (
                mark_unknown_observation c o t current routed (codes "node_route_reconcile_failed"),
                err backend_error,
              ))
              (finished (commit_observation c o t current routed state a.candidates))))

  -- reconcileSandboxCleanup up to cleanupSandboxOutsideLock
  unfoldable pub begin_cleanup : Service → Text → Text → Called Next
  begin_cleanup s project id = if_found s (find_sandbox s project id) λ current.
      done_if s (terminal current.state || (not (is_cleanup current) || busy s project id))
        (locked_for (scoped_key project id) s, ok (cleaning current))

  -- and from there: `failure` is its failure code
  unfoldable pub end_cleanup : Outside → Service → Text → Text → Sandbox → Answer → Called Next
  end_cleanup o s project id expected a =
      let t = unlocked_for (scoped_key project id) s in
      let routed = placed a.placement expected in
      unless_cancelled t a.is_cancelled (
        if_found t (find_sandbox t project id) λ current.
          cleanup_of current
            (λ target.
              done_if t
                (not (same_sandbox_reconcile_version current expected)
                  || (terminal current.state || not (is_target c expected.cleanup_target target)))
                (failed_or a.failure
                  (λ code. (mark_unknown_observation c o t current routed code, err backend_error))
                  (finished
                    (complete_reconciled_cleanup c o t current routed target a.candidates))))
            (t, ok done))

  -- reconcileMissingSandbox up to removeNodeRoute
  unfoldable pub begin_missing : Service → Text → Text → Sandbox → Called Next
  begin_missing s project id expected = if_found s (find_sandbox s project id) λ current.
      done_if s
        (not (same_sandbox_reconcile_version current expected)
          || (terminal current.state || (is_cleanup current || busy s project id)))
        (locked_for (scoped_key project id) s, ok (removing current))

  unfoldable pub end_missing : Outside → Service → Text → Text → Sandbox → Answer → Called Next
  end_missing o s project id current a =
      let t = unlocked_for (scoped_key project id) s in
      let routed = placed a.placement current in
      unless_cancelled t a.is_cancelled (
        if_found t (find_sandbox t project id) λ latest.
          done_if t
            (not (same_sandbox_reconcile_version latest current)
              || (terminal latest.state || is_cleanup latest))
            (failed_or a.failure
              (λ code. (
                mark_unknown_observation c o t latest routed
                    (codes "node_route_missing_backend_cleanup_failed"),
                err backend_error,
              ))
              (finished (mark_reconciled_missing c o t latest routed a.candidates))))
