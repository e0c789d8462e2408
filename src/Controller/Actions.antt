-- ===== src/Controller/Actions.antt =====
-- Pause, Resume, Delete and pauseIfIdle of internal/service/service.go, each in the step before it
-- lets go of the mutex and the step after it has taken it again. What the backend and the node
-- answer between the steps is an argument.
use brezel.Common.{
  ℕ, Bool, not, ◌||◌, List, [], ◌∷◌, ◌++◌, Option, none, some, ◌==◌, nat_eq, if◌then◌else◌,
  contains, lookup, Text, text_eq, codes, int_beq, pos, Time, before, is_zero, Result, ok, err,
  ◌>>◌, require,
}
use brezel.Domain.States.{SandboxState, running, pausing, deleting, deleted, expired}
use brezel.Domain.Records.{Sandbox, Operation}
use brezel.Store.{scoped_key}
use brezel.Store.Files.{Codec, standby_eligible_at}
use brezel.Controller.Types.{
  Error, conflict, Service, Outside, require_mutation, same_state, has_active_guest_operations,
}
use brezel.Controller.Transitions.{
  Called, find_sandbox, lookup_idempotency, begin_transition, complete_transition, fail_transition,
  record_activity,
}

unfoldable pub remove_key : Text → List Text → List Text
remove_key key [] = []
remove_key key (k ∷ keys) = if key == k then remove_key key keys else k ∷ remove_key key keys

-- `s.activeBackendMutations[key] = struct{}{}`
abbrev pub locked_for : Text → Service → Service
locked_for key s = record s { active_backend_mutations = key ∷ s.active_backend_mutations }

abbrev pub unlocked_for : Text → Service → Service
unlocked_for key s = record s {
  active_backend_mutations = remove_key key s.active_backend_mutations;
}

-- What a first step returns: an operation that an earlier request began, or the sandbox and the
-- operation with which the method goes on to call the backend.
pub data Begun : Type 0 where
  replayed : Sandbox → Operation → Begun
  begun : Sandbox → Operation → Begun

-- The node's part in a lifecycle call: it may change where the sandbox runs.
pub record Placement : Type 0 where
  pub backend_id : Text
  pub node_id : Text
  pub node_route_id : Text
  pub node_generation : ℕ

abbrev pub placed : Placement → Sandbox → Sandbox
placed p sandbox = record sandbox {
  backend_id = p.backend_id;
  node_id = p.node_id;
  node_route_id = p.node_route_id;
  node_generation = p.node_generation;
}

-- The tests of a request, on the sandbox that it names.
unfoldable pub free_to_move : Service → Text → Text → Bool → Result Error (Unit {0})
free_to_move s project id in_state =
    require (not (contains (scoped_key project id) s.active_backend_mutations)) conflict
    >> (require in_state conflict
        >> require (not (has_active_guest_operations s project id)) conflict)

-- The second read of the sandbox, of the row that the step has just written. Only pauseIfIdle looks
-- at its error; the others would go on with an empty sandbox, where the model ends the action.
unfoldable pub reread : Text → Text → Operation → Service → Result Error Sandbox → Called Begun
reread project id op s (err e) = (s, err e)
reread project id op s (ok sandbox) = (locked_for (scoped_key project id) s, ok (begun sandbox op))

unfoldable pub begin_moved : Text → Text → Called Operation → Called Begun
begin_moved project id (s, err e) = (s, err e)
begin_moved project id (s, ok op) = reread project id op s (find_sandbox s project id)

-- A call that a failed check ends.
unfoldable pub checked : {A B : Type 0} → Service → Result Error A → (A → Called B) → Called B
checked s (err e) next = (s, err e)
checked s (ok a) next = next a

unfoldable pub replay_or : Service → Sandbox → Option Operation → Called Begun → Called Begun
replay_or s sandbox (some op) rest = (s, ok (replayed sandbox op))
replay_or s sandbox none rest = rest

module _ (c : Codec) where
  -- lifecycleAction up to the backend's call
  unfoldable pub begin_action :
      Outside → Service → Text → Text → Text → Text → SandboxState → SandboxState → Called Begun
  begin_action o s project id key kind from transitional =
      checked s (require_mutation project key >> find_sandbox s project id) λ sandbox.
        replay_or s sandbox (lookup_idempotency s project (kind ++ 58 ∷ id) key) (
          checked s (free_to_move s project id (same_state sandbox.state from)) λ u.
            begin_moved project id
              (begin_transition c o s sandbox key (kind ++ 58 ∷ id) transitional))

  -- Delete up to the backend's call
  unfoldable pub begin_delete : Outside → Service → Text → Text → Text → Called Begun
  begin_delete o s project id key =
      checked s (require_mutation project key >> find_sandbox s project id) λ sandbox.
        replay_or s sandbox (lookup_idempotency s project (codes "delete_sandbox:" ++ id) key) (
          checked s
            (free_to_move s project id
              (not (same_state sandbox.state deleted || same_state sandbox.state expired)))
            λ u. begin_moved project id (
              begin_transition c o s (record sandbox { cleanup_target = some deleted }) key
                (codes "delete_sandbox:" ++ id) deleting))

  -- The end of a lifecycle action: `none` is success of its call.
  unfoldable pub end_action :
      Outside → Service → Text → Sandbox → Operation → SandboxState → Option Text → Service
  end_action o s key sandbox op target none =
      (complete_transition c o (unlocked_for key s) sandbox op target).0
  end_action o s key sandbox op target (some code) =
      fail_transition c o (unlocked_for key s) sandbox op code

  unfoldable pub later_activity : Service → Text → Sandbox → Time
  later_activity s key sandbox = elim (lookup key s.recent_activity) [
    | none ↦ sandbox.last_active_at
    | some recent ↦ if before sandbox.last_active_at recent then recent else sandbox.last_active_at
  ]

  -- pauseIfIdle returns no operation where it only records activity, or nothing is to be done.
  unfoldable pub dropped : {A : Type 0} → Called A → Called (Option Begun)
  dropped (t, ok a) = (t, ok none)
  dropped (t, err e) = (t, err e)

  unfoldable pub kept : Called Begun → Called (Option Begun)
  kept (t, ok b) = (t, ok (some b))
  kept (t, err e) = (t, err e)

  -- pauseIfIdle from the tests of the sandbox's idleness; the key of its operation is an argument.
  unfoldable pub begin_idle_pause :
      Outside → Service → Text → Text → Text → Sandbox → Called (Option Begun)
  begin_idle_pause o s project id key sandbox =
      let last = later_activity s (scoped_key project id) sandbox in
      if is_zero last
      then dropped (record_activity c o s project id o.now)
      else if before o.now (standby_eligible_at sandbox.lifecycle last)
      then (s, ok none)
      else kept (
          begin_moved project id
            (begin_transition c o s sandbox key (codes "auto_pause_sandbox:" ++ id) pausing))

  -- The tests of pauseIfIdle.
  unfoldable pub idle_tests :
      Outside → Service → Text → Text → Text → Sandbox → Called (Option Begun)
  idle_tests o s project id key sandbox =
      if not (same_state sandbox.state running)
        || int_beq sandbox.lifecycle.standby_after_seconds (pos 0)
      then (s, ok none)
      else if contains (scoped_key project id) s.active_backend_mutations
          || has_active_guest_operations s project id
      then (s, ok none)
      else begin_idle_pause o s project id key sandbox

  unfoldable pub pause_if_idle : Outside → Service → Text → Text → Text → Called (Option Begun)
  pause_if_idle o s project id key =
      checked s (find_sandbox s project id) (idle_tests o s project id key)
