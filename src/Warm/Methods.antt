-- ===== src/Warm/Methods.antt =====
-- The methods of internal/backend/warm/pool.go that call the backend, by the statements that they
-- run. What goroutines do at once stands here in one order; the telemetry is left out.
use brezel.Common.{
  second, ℕ, ◌+◌, ◌*◌, ◌/◌, Bool, true, false, not, ◌||◌, List, [], ◌∷◌, ltb, ◌==◌, nat_eq, Text,
  text_eq, codes, pos, int_lt, int64_add, time_sub, Result, ok, err,
}
use brezel.Domain.States.{running, state_code}
use brezel.Domain.Lifetimes.{full_state}
use brezel.Warm.Slots.{SlotState, creating, available, deleting, slot_state_eq, Slot, Table}
use brezel.Warm.World.{
  Remote, CreateRequest, BackendError, not_found, failing, Error, ownership_changed, not_running,
  recover_creating, recover_unusable, create_failed, inner, Outside, Exec, pure, raise, ◌>>=◌, ◌>>◌,
  attempt, inner_create, inner_find, inner_inspect, inner_delete, now,
}
use brezel.Warm.Statements.{
  Config, claim_safety, reserve_missing, mark_available, mark_deleting, retire_available,
  list_states, remove,
}

abbrev pub pool_project : Text
pool_project = codes "brezel-warm-pool"

unfoldable pub is_running : Remote → Bool
is_running r = state_code r.state == state_code running

-- `err != nil && !errors.Is(err, backend.ErrNotFound)`
unfoldable pub unless_missing : Result BackendError (Unit {0}) → Error → Exec (Unit {0})
unless_missing (err failing) why = raise why
unless_missing (err not_found) why = pure tt
unless_missing (ok u) why = pure tt

unfoldable pub of_inner : {A : Type 0} → Result BackendError A → Exec A
of_inner (ok a) = pure a
of_inner (err e) = raise (inner e)

unfoldable pub expect : Bool → Error → Exec (Unit {0})
expect true why = pure tt
expect false why = raise why

unfoldable pub whether : {A : Type 0} → Bool → Exec A → Exec A → Exec A
whether true yes_ no_ = yes_
whether false yes_ no_ = no_

module _ (o : Outside) (c : Config) where
  -- The quarantine of discard, for a slot that is not being deleted.
  unfoldable pub quarantined : Slot → Exec (Unit {0})
  quarantined s =
      whether (s.state == deleting) (pure tt)
        (do moved ← mark_deleting o s.id s.state; expect moved ownership_changed)

  -- inner.Delete of a backend id that is not empty
  unfoldable pub destroyed : Text → Error → Exec (Unit {0})
  destroyed backend_id why =
      whether (backend_id == []) (pure tt) (do r ← inner_delete o backend_id; unless_missing r why)

  unfoldable pub discard : Slot → Exec (Unit {0})
  discard s = do quarantined s; destroyed s.backend_id (inner failing); remove o s.id

  abbrev pub slot_request : Slot → CreateRequest
  slot_request s = record {
    local_sandbox_id = s.local_id;
    project_id = pool_project;
    template_id = c.template_id;
    lifecycle = record {
      standby_after_seconds = pos 0;
      standby_grace_seconds = pos 0;
      expires_after_seconds = pos (c.slot_ttl / second);
      standby_checkpoint = full_state;
      auto_resume = false;
    };
    network = c.network;
    environment = [];
    workspace_mounts = [];
  }

  -- createSlot after an error of the backend, by what Find says.
  unfoldable pub create_recovered : Slot → Result BackendError Remote → Exec (Unit {0})
  create_recovered s (ok r) =
      whether (is_running r) (mark_available o s.id r.id) (raise create_failed)
  create_recovered s (err not_found) = do attempt (remove o s.id); raise create_failed
  create_recovered s (err failing) = raise create_failed

  unfoldable pub create_answered : Slot → Result BackendError Remote → Exec (Unit {0})
  create_answered s (err e) = do r ← inner_find o s.local_id pool_project; create_recovered s r
  create_answered s (ok r) =
      whether (r.id == [] || not (is_running r))
        (do attempt (destroyed r.id (inner failing)); attempt (remove o s.id); raise not_running)
        (mark_available o s.id r.id)

  unfoldable pub create_slot : Slot → Exec (Unit {0})
  create_slot s = do r ← inner_create o (slot_request s); create_answered s r

  unfoldable pub joined : Result Error (Unit {0}) → Result Error (Unit {0}) → Exec (Unit {0})
  joined (ok u) (ok v) = pure tt
  joined (ok u) (err e) = raise e
  joined (err e) rest = raise e

  unfoldable pub create_reserved : List Slot → Exec (Unit {0})
  create_reserved [] = pure tt
  create_reserved (s ∷ reserved) = do
    first ← attempt (create_slot s)
    rest ← attempt (create_reserved reserved)
    joined first rest

  unfoldable pub refill : Exec (Unit {0})
  refill = do reserved ← reserve_missing o c; create_reserved reserved

  unfoldable pub refill_after_failure : Exec (Unit {0})
  refill_after_failure = do attempt refill; pure tt

  unfoldable pub recover_found : Slot → Result BackendError Remote → Exec (Unit {0})
  recover_found s (err not_found) = remove o s.id
  recover_found s (err failing) = raise recover_creating
  recover_found s (ok r) =
      whether (is_running r) (mark_available o s.id r.id)
        (do destroyed r.id recover_unusable; remove o s.id)

  unfoldable pub recover_creating_slot : Slot → Exec (Unit {0})
  recover_creating_slot s = do r ← inner_find o s.local_id pool_project; recover_found s r

  -- `time.Until(current.ExpiresAt) < p.config.MaxClaimTTL+claimSafety`
  unfoldable pub expiring : ℕ → Slot → Bool
  expiring at s =
      int_lt (time_sub s.expires_at at) (int64_add (pos c.max_claim_ttl) (pos claim_safety))

  unfoldable pub recover_inspected : Slot → Result BackendError Remote → Exec (Unit {0})
  recover_inspected s (ok r) = whether (is_running r) (pure tt) (discard s)
  recover_inspected s (err not_found) = discard s
  recover_inspected s (err failing) = raise (inner failing)

  unfoldable pub recover_slot : Slot → SlotState → Exec (Unit {0})
  recover_slot s creating = recover_creating_slot s
  recover_slot s available = do
    at ← now o
    whether (expiring at s) (discard s) (do r ← inner_inspect o s.backend_id; recover_inspected s r)
  recover_slot s deleting = discard s
  recover_slot s _ = pure tt

  unfoldable pub recover_slots : Table → Exec (Unit {0})
  recover_slots [] = pure tt
  recover_slots (s ∷ rows) = do recover_slot s s.state; recover_slots rows

  unfoldable pub recover : Exec (Unit {0})
  recover = do rows ← list_states o (creating ∷ available ∷ deleting ∷ []); recover_slots rows

  unfoldable pub prime : Exec (Unit {0})
  prime = do recover; refill

  unfoldable pub retired : Slot → Bool → Exec (Unit {0})
  retired s moved = whether moved (do discard (record s { state = deleting }); refill) (pure tt)

  unfoldable pub maintain_slot : Slot → SlotState → Exec (Unit {0})
  maintain_slot s creating = do
    at ← now o
    whether (ltb at (s.created_at + 300 * second)) (pure tt) (do recover_creating_slot s; refill)
  maintain_slot s deleting = do discard s; refill
  maintain_slot s available = do
    at ← now o
    whether (expiring at s) (do moved ← retire_available o s.id; retired s moved) (pure tt)
  maintain_slot s _ = do moved ← retire_available o s.id; retired s moved

  unfoldable pub maintain_slots : Table → Exec (Unit {0})
  maintain_slots [] = pure tt
  maintain_slots (s ∷ rows) = do maintain_slot s s.state; maintain_slots rows

  unfoldable pub maintain : Exec (Unit {0})
  maintain = do
    rows ← list_states o (available ∷ creating ∷ deleting ∷ [])
    maintain_slots rows
    refill
