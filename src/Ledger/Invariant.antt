-- ===== src/Ledger/Invariant.antt =====
-- The invariant of the ledger, kept by every call: a valid state with one entry for each route,
-- every operation in flight on a route that still serves it, and none in a closed ledger.
use brezel.Common.{
  ℕ, ◌-◌, ◌<◌, ◌≡◌, ◌≢◌, sym, subst, inl, inr, true, not, ◌&&◌, [], arith, ◌==◌, nat_eq, Bool-cases,
  if_cases, nat_beq_iff, length, Result, ok, require, Text, text_eq, insert, Keyed, insert-Keyed,
  delete-Keyed, All-lookup, length-eq-zero,
}
use brezel.Ledger.Types.{
  ready, state_eq, DiskEntry, DiskState, OperationKey, key_eq, key_beq_iff, Binding, Error,
  max_uint64, max_routes, ledger_closed, invalid,
}
use brezel.Ledger.Checks.{valid_route_identity, clone_disk_state}
use brezel.Ledger.Disk.{Codec, validated}
use brezel.Ledger.Operations.{Ledger, active_count, entry_key, store_entry}
use brezel.Ledger.Leases.{
  current_entry, operation_key, acquire_operation, held_entry, release_operation, close, Lease,
}
use brezel.Ledger.Validity.{IsValid, validate_disk_state_iff}
use brezel.Ledger.Changes.{
  bind_change-Bound, rebind_change-Rebound, transition_change-Moved, touch_change-Touched,
  remove_change-Expected,
}
use brezel.Ledger.Storing.{WellFormed}
use brezel.Ledger.Guards.{
  bind_change-WellFormed, rebind_change-WellFormed, transition_change-WellFormed,
  touch_change-WellFormed, remove_change-WellFormed,
}
use brezel.Ledger.Steps.{
  Effect, bound, rebound, moved, touched, removed, Outcome, unchanged, changed, Step, binds,
  rebinds, transitions, touches, removes, acquires, releases, closes, Reach, here, next,
  refuse_cases, bind-Outcome, rebind-Outcome, transition-Outcome, touch-Outcome, remove-Outcome,
}
use brezel.Ledger.Activity.{
  Held, Effect-Held, Current, current_entry-Current, active_count-insert, active_count-delete,
}

pub record Inv (l : Ledger) : Type 0 where
  pub well : WellFormed l.state
  pub held : (key : OperationKey) → active_count l.active key ≢ 0 → Held l.state key
  pub drained : l.closed ≡ true → l.active ≡ []

pub clone_disk_state-same : (s : DiskState) → WellFormed s → clone_disk_state s ≡ s
unfolding clone_disk_state
clone_disk_state-same s w = ground (arith, w.valid.present)

-- Each change leads from a well-formed state with room for one more route to a well-formed one, so
-- that the validation in update never refuses it.
pub Effect-WellFormed :
    (l : Ledger) (n : DiskState)
    → WellFormed (clone_disk_state l.state)
    → length (clone_disk_state l.state).routes < max_routes
    → Effect l n
    → WellFormed n
Effect-WellFormed l n w room (bound route project sandbox engine at e ids target timed in_utc h) =
    bind_change-WellFormed route project sandbox engine at _ n e w ids target timed in_utc room h
Effect-WellFormed l n w room (rebound route expected state engine at e st target timed in_utc h) =
    rebind_change-WellFormed route expected state engine at _ n e w target timed in_utc h
Effect-WellFormed l n w room (moved route expected from to e h) =
    transition_change-WellFormed l.active route expected from to _ n e w h
Effect-WellFormed l n w room (touched route expected state at e timed in_utc h) =
    touch_change-WellFormed route expected state at _ n e w timed in_utc h
Effect-WellFormed l n w room (removed route expected state st h) =
    remove_change-WellFormed route expected state _ n w h

Effect-Keyed :
    (l : Ledger) (n : DiskState)
    → Keyed (clone_disk_state l.state).routes
    → Effect l n
    → Keyed n.routes
unfolding store_entry
Effect-Keyed l n k (bound route project sandbox engine at e _ _ _ _ h) =
    rw (bind_change-Bound route project sandbox engine at _ n e h).stored (insert-Keyed route e _ k)
Effect-Keyed l n k (rebound route expected state engine at e _ _ _ _ h) =
    let (old, x, b) = rebind_change-Rebound route expected state engine at _ n e h in
    rw b.stored (insert-Keyed route e _ k)
Effect-Keyed l n k (moved route expected from to e h) =
    let (old, x, b) = transition_change-Moved l.active route expected from to _ n e h in
    rw b.stored (insert-Keyed route e _ k)
Effect-Keyed l n k (touched route expected state at e _ _ h) =
    let (old, x, b) = touch_change-Touched route expected state at _ n e h in
    rw b.stored (insert-Keyed route e _ k)
Effect-Keyed l n k (removed route expected state _ h) =
    let (old, x, stored) = remove_change-Expected route expected state _ n h in
    rw stored (delete-Keyed route _ k)

pub validated-IsValid : (s : DiskState) → validated s ≡ ok tt → IsValid s
unfolding validated
validated-IsValid s h = (validate_disk_state_iff s).0 (ground arith)

Outcome-Inv : {l m : Ledger} → Outcome l m → Inv l → Inv m
Outcome-Inv (unchanged d) v = record { well = v.well; held = v.held; drained = v.drained }
Outcome-Inv {l} (changed n d live effect valid) v =
    let same = clone_disk_state-same l.state v.well in
    record {
      well = record {
        valid = validated-IsValid n valid;
        keyed = Effect-Keyed l n (subst (λ s. Keyed s.routes) (sym same) v.well.keyed) effect;
      };
      held = λ key busy.
          Effect-Held l n key effect busy (subst (λ s. Held s key) (sym same) (v.held key busy));
      drained = v.drained;
    }

entry_key_lem :
    (l : Ledger) (route project sandbox : Text) (expected : ℕ) (e : DiskEntry)
    → Current l route project sandbox expected ready e
    → e.route_id ≡ route
    → entry_key e ≡ operation_key route project sandbox expected
entry_key_lem l route project sandbox expected e cur named = ground arith

admitted :
    (l : Ledger) (route project sandbox : Text) (expected : ℕ) (e : DiskEntry)
    → Inv l
    → Current l route project sandbox expected ready e
    → (n : ℕ)
    → Inv (record l { active = insert (operation_key route project sandbox expected) n l.active })
admitted l route project sandbox expected e v cur n = record {
  well = v.well;
  held = λ key busy. elim (Bool-cases (key == operation_key route project sandbox expected)) [
    | inl this ↦
        let same = (key_beq_iff key (operation_key route project sandbox expected)).0 this in
        let u = All-lookup _ route e l.state.routes v.well.valid.entries cur.stored in
        subst (Held l.state) (sym same) (
          e,
          record {
            stored = cur.stored;
            assigned = entry_key_lem l route project sandbox expected e cur (sym u.keyed);
            serving = inl cur.serving;
          },
        )
    | inr other ↦ v.held key (λ z. busy (
        ground (
          arith,
          active_count-insert (operation_key route project sandbox expected) key n l.active,
        )))
  ];
  drained = λ shut. absurd (ground (arith, cur.live));
}

pub acquire_operation-Inv :
    (l : Ledger) (route project sandbox : Text) (expected : ℕ)
    → Inv l
    → Inv (acquire_operation l route project sandbox expected).0
unfolding acquire_operation
acquire_operation-Inv l route project sandbox expected v =
    refuse_cases Inv l
      (require (valid_route_identity route project sandbox && not (expected == 0)) invalid) _ v
      λ o ids.
        refuse_cases Inv l (current_entry l route project sandbox expected ready) _ v λ e found.
          let cur = current_entry-Current l route project sandbox expected ready e found in
          if_cases (λ (out : Ledger × Result Error (Binding × Lease)). Inv out.0)
            (active_count l.active (operation_key route project sandbox expected) == max_uint64) _ _
            (λ full. v) (λ room. admitted l route project sandbox expected e v cur _)

release_operation-Inv : (l : Ledger) (key : OperationKey) → Inv l → Inv (release_operation l key).0
unfolding release_operation
release_operation-Inv l key v =
    refuse_cases Inv l (require (not l.closed) ledger_closed) _ v λ o live.
      refuse_cases Inv l (require (not (active_count l.active key == 0)) invalid) _ v λ o' busy.
        refuse_cases Inv l (held_entry l key) _ v λ e found. record {
          well = v.well;
          held = λ j more. v.held j (λ z. more (
              ground (
                arith,
                active_count-insert key j (active_count l.active key - 1) l.active,
                active_count-delete key j l.active,
                key_beq_iff j key,
              )));
          drained = λ shut. absurd (ground arith);
        }

close-Inv : (l : Ledger) → Inv l → Inv (close l).0
unfolding close
close-Inv l v =
    if_cases (λ (out : Ledger × Result Error (Unit {0})). Inv out.0) l.closed _ _ (λ shut. v)
      λ live.
        if_cases (λ (out : Ledger × Result Error (Unit {0})). Inv out.0) (length l.active == 0) _ _
          (λ quiet. record {
            well = v.well;
            held = v.held;
            drained = λ shut. length-eq-zero l.active ((nat_beq_iff (length l.active) 0).0 quiet);
          })
          (λ busy. v)

module _ (c : Codec) where
  -- Every call keeps the invariant, also one whose write fails at any of its file system calls.
  pub Step-Inv : {l m : Ledger} → Step c l m → Inv l → Inv m
  Step-Inv {l} (binds fails r p s e at) = Outcome-Inv (bind-Outcome c fails l r p s e at)
  Step-Inv {l} (rebinds fails r n t e at) = Outcome-Inv (rebind-Outcome c fails l r n t e at)
  Step-Inv {l} (transitions fails r n t u) = Outcome-Inv (transition-Outcome c fails l r n t u)
  Step-Inv {l} (touches fails r n t at) = Outcome-Inv (touch-Outcome c fails l r n t at)
  Step-Inv {l} (removes fails r n t) = Outcome-Inv (remove-Outcome c fails l r n t)
  Step-Inv {l} (acquires r p s n) = acquire_operation-Inv l r p s n
  Step-Inv {l} (releases key) = release_operation-Inv l key
  Step-Inv {l} closes = close-Inv l

  -- Every sequence of calls of Bind, Rebind, Transition, Touch, Remove, AcquireOperation,
  -- releaseOperation and Close, whatever file system calls fail, keeps the invariant: the state is
  -- valid with one entry for each route, every key with a positive count of operations has its route
  -- stored under the same assignment and ready or draining, and a closed ledger counts no operation.
  pub Reach-Inv : {l m : Ledger} → Reach c l m → Inv l → Inv m
  Reach-Inv here v = v
  Reach-Inv (next r st) v = Step-Inv st (Reach-Inv r v)
