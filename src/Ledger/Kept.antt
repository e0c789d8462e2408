-- ===== src/Ledger/Kept.antt =====
-- The calls on operation leases and Close leave the routes of the ledger as they are.
use brezel.Common.{ℕ, ◌≡◌, refl, not, ◌&&◌, ◌==◌, nat_eq, if_cases, length, Result, require, Text}
use brezel.Ledger.Types.{ready, OperationKey, Binding, Error, max_uint64, ledger_closed, invalid}
use brezel.Ledger.Checks.{valid_route_identity}
use brezel.Ledger.Operations.{Ledger, active_count}
use brezel.Ledger.Leases.{
  current_entry, operation_key, acquire_operation, held_entry, release_operation, close, Lease,
}
use brezel.Ledger.Steps.{refuse_cases}

abbrev Same : Ledger → Ledger → Type 0
Same l m = m.state ≡ l.state

pub state-acquire_operation :
    (l : Ledger) (route project sandbox : Text) (expected : ℕ)
    → (acquire_operation l route project sandbox expected).0.state ≡ l.state
unfolding acquire_operation
state-acquire_operation l route project sandbox expected =
    refuse_cases (Same l) l
      (require (valid_route_identity route project sandbox && not (expected == 0)) invalid) _ refl
      λ o ids.
        refuse_cases (Same l) l (current_entry l route project sandbox expected ready) _ refl
          λ e found.
            if_cases (λ (out : Ledger × Result Error (Binding × Lease)). Same l out.0)
              (active_count l.active (operation_key route project sandbox expected) == max_uint64) _
              _ (λ full. refl) (λ room. refl)

pub state-release_operation :
    (l : Ledger) (key : OperationKey) → (release_operation l key).0.state ≡ l.state
unfolding release_operation
state-release_operation l key =
    refuse_cases (Same l) l (require (not l.closed) ledger_closed) _ refl λ o live.
      refuse_cases (Same l) l (require (not (active_count l.active key == 0)) invalid) _ refl
        λ o' busy. refuse_cases (Same l) l (held_entry l key) _ refl λ e found. refl

pub state-close : (l : Ledger) → (close l).0.state ≡ l.state
unfolding close
state-close l =
    if_cases (λ (out : Ledger × Result Error (Unit {0})). Same l out.0) l.closed _ _ (λ shut. refl)
      λ live.
        if_cases (λ (out : Ledger × Result Error (Unit {0})). Same l out.0) (length l.active == 0) _
          _ (λ quiet. refl) (λ busy. refl)
