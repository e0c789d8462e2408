-- ===== src/Controller/Expiring.antt =====
-- A sandbox of internal/service whose time ended in a state that no deletion leaves.
use brezel.Common.{
  ◌≡◌, refl, arith, false, not, ◌||◌, none, contains, Text, text_eq, codes, ◌++◌, before, ok, err,
}
use brezel.Domain.States.{
  SandboxState, requested, preparing, running, pausing, standby, resuming, failed, unknown,
  deleting, deleted, expired, terminal, can_transition, state_code,
}
use brezel.Domain.Records.{Sandbox}
use brezel.Store.{scoped_key}
use brezel.Store.Files.{Codec}
use brezel.Controller.Types.{
  conflict, Service, Outside, require_mutation, same_state, has_active_guest_operations,
}
use brezel.Controller.Transitions.{
  find_sandbox, lookup_idempotency, begin_transition, is_target, begin_expiration,
}
use brezel.Controller.Actions.{free_to_move, begin_moved, checked, replay_or, begin_delete}
use brezel.Controller.Reading.{read, read_found, expire, expired_then}
use brezel.Controller.Repair.{Answer, if_found, unless_cancelled, then_cleanup, is_cleanup, look}

live_lem :
    (a : SandboxState) → terminal a ≡ false → (same_state a deleted || same_state a expired) ≡ false
unfolding terminal same_state state_code
live_lem requested h = refl
live_lem preparing h = refl
live_lem running h = refl
live_lem pausing h = refl
live_lem standby h = refl
live_lem resuming h = refl
live_lem deleting h = refl
live_lem deleted h = absurd (ground (arith, h))
live_lem expired h = absurd (ground (arith, h))
live_lem failed h = refl
live_lem unknown h = refl

module _ (c : Codec) where
  expired-conflict :
      (o : Outside) (s : Service) (v : Sandbox)
      → v.cleanup_target ≡ none
      → same_state v.state deleting ≡ false
      → can_transition v.state deleting ≡ false
      → begin_expiration c o s v ≡ (s, err conflict)
  unfolding begin_expiration is_target
  expired-conflict o s v none_ other refused = rw (none_, other, refused) refl

  look-conflict :
      (o : Outside) (s : Service) (project id : Text) (v : Sandbox)
      → find_sandbox s project id ≡ ok v
      → contains (scoped_key project id) s.active_backend_mutations ≡ false
      → terminal v.state ≡ false
      → is_cleanup c v ≡ false
      → before o.now v.expires_at ≡ false
      → begin_expiration c o s v ≡ (s, err conflict)
      → look c o false s project id ≡ (s, err conflict)
  unfolding look unless_cancelled if_found then_cleanup
  look-conflict o s project id v there free live none_ late refused =
      rw (there, free, live, none_, late, refused) refl

  no_target : (v : Sandbox) → v.cleanup_target ≡ none → is_cleanup c v ≡ false
  unfolding is_cleanup is_target
  no_target v none_ = rw none_ refl

  delete-conflict :
      (o : Outside) (s : Service) (project id key : Text) (v : Sandbox)
      → find_sandbox s project id ≡ ok v
      → require_mutation project key ≡ ok tt
      → lookup_idempotency s project (codes "delete_sandbox:" ++ id) key ≡ none
      → free_to_move s project id (not (same_state v.state deleted || same_state v.state expired))
        ≡ ok tt
      → can_transition v.state deleting ≡ false
      → begin_delete c o s project id key ≡ (s, err conflict)
  unfolding begin_delete checked replay_or begin_transition begin_moved
  delete-conflict o s project id key v there asked new free refused =
      rw (asked, there, new, free, refused) refl

  free_lem :
      (s : Service) (project id : Text) (v : Sandbox)
      → contains (scoped_key project id) s.active_backend_mutations ≡ false
      → has_active_guest_operations s project id ≡ false
      → terminal v.state ≡ false
      → free_to_move s project id (not (same_state v.state deleted || same_state v.state expired))
        ≡ ok tt
  unfolding free_to_move
  free_lem s project id v free idle live =
      let in_state = live_lem v.state live in rw (free, idle, in_state) refl

  read-conflict :
      (o : Outside) (s : Service) (project id : Text) (a : Answer) (v : Sandbox)
      → find_sandbox s project id ≡ ok v
      → contains (scoped_key project id) s.active_backend_mutations ≡ false
      → terminal v.state ≡ false
      → is_cleanup c v ≡ false
      → before o.now v.expires_at ≡ false
      → begin_expiration c o s v ≡ (s, err conflict)
      → read c o s project id a ≡ (s, err conflict)
  unfolding read read_found expire expired_then
  read-conflict o s project id a v there free live none_ late refused =
      rw (there, free, live, none_, late, refused) refl

  -- A sandbox that is not terminal and not being deleted, whose state allows no deletion, whose
  -- time is over, which has no cleanup target and which nothing has locked or uses: the first step
  -- of its reconciliation, GetSandbox, and the deletion that a valid request with a new
  -- idempotency key asks for all end in a conflict and change nothing.
  pub expired-stuck :
      (o : Outside) (s : Service) (project id key : Text) (a : Answer) (v : Sandbox)
      → find_sandbox s project id ≡ ok v
      → contains (scoped_key project id) s.active_backend_mutations ≡ false
      → has_active_guest_operations s project id ≡ false
      → terminal v.state ≡ false
      → same_state v.state deleting ≡ false
      → can_transition v.state deleting ≡ false
      → v.cleanup_target ≡ none
      → before o.now v.expires_at ≡ false
      → require_mutation project key ≡ ok tt
      → lookup_idempotency s project (codes "delete_sandbox:" ++ id) key ≡ none
      → (look c o false s project id ≡ (s, err conflict))
        × (read c o s project id a ≡ (s, err conflict))
        × (begin_delete c o s project id key ≡ (s, err conflict))
  expired-stuck o s project id key a v there free idle live other refused none_ late asked new = (
    look-conflict o s project id v there free live (no_target v none_) late
        (expired-conflict o s v none_ other refused),
    read-conflict o s project id a v there free live (no_target v none_) late
        (expired-conflict o s v none_ other refused),
    delete-conflict o s project id key v there asked new (free_lem s project id v free idle live)
        refused,
  )
