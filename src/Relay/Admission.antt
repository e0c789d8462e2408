-- ===== src/Relay/Admission.antt =====
-- An operation that the relay refuses leaves no operation in flight.
use brezel.Common.{
  ℕ, ◌-◌, ◌^◌, ◌≡◌, refl, sym, ap, ◌∙◌, not, ◌&&◌, ◌||◌, [], none, some, Option, ltb, ◌==◌, nat_eq,
  if_cases, Result-cases, inl, inr, Text, text_eq, Result, ok, err, require,
}
use brezel.Ledger.Types
use brezel.Ledger.Types.{OperationKey, Binding, ready}
use brezel.Ledger.Operations.{Ledger, active_count, refuse}
use brezel.Ledger.Leases.{Lease, acquire_operation, release, current_entry, operation_key, admit}
use brezel.Ledger.Checks.{valid_route_identity}
use brezel.Ledger.Invariant.{Inv}
use brezel.Ledger.Release.{release-acquire_operation}
use brezel.Replay
use brezel.Replay.{ReplayCache, use_jti}
use brezel.Capability.{CapabilityClaims}
use brezel.Capability.Tokens.{match_claims}
use brezel.Relay.{
  Refusal, RelayServer, RelayAuthorization, SandboxBinding, Authorized, release_lease, handed_out,
  spent, leased, after_acquire, authorize_request, expected_at,
}

-- A refusal leaves the counts of operations as `l` has them.
abbrev Freed : Ledger → OperationKey → Authorized → Type 0
Freed l j out =
    (why : Refusal) → out.1 ≡ err why → active_count out.0.ledger.active j ≡ active_count l.active j

-- The lease was taken from `l`: giving it back restores the counts.
abbrev TakenFrom : Ledger → OperationKey → Ledger → Lease → Type 0
TakenFrom l j m lease = active_count (release m lease).0.active j ≡ active_count l.active j

handed_out-Freed :
    (l : Ledger) (j : OperationKey) (s : RelayServer) (lease : Lease) (o : Option SandboxBinding)
    → TakenFrom l j s.ledger lease
    → Freed l j (handed_out s lease o)
unfolding handed_out release_lease
handed_out-Freed l j s lease none t why h = t
handed_out-Freed l j s lease (some b) t why h = cc

spent-Freed :
    (l : Ledger) (j : OperationKey) (s : RelayServer) (c : CapabilityClaims) (current : Binding)
    (lease : Lease) (now : ℕ) (out : ReplayCache × Result Replay.Error (Unit {0}))
    → TakenFrom l j s.ledger lease
    → Freed l j (spent s c current lease now out)
unfolding spent release_lease
spent-Freed l j s c current lease now (cache, err e) t why h = t
spent-Freed l j s c current lease now (cache, ok done) t why h =
    handed_out-Freed l j (record s { replay = cache }) lease _ t why h

leased-Freed :
    (l : Ledger) (j : OperationKey) (s : RelayServer) (c : CapabilityClaims) (digest : Text)
    (use_now bind_now : ℕ) (current : Binding) (lease : Lease)
    → TakenFrom l j s.ledger lease
    → Freed l j (leased s c digest use_now bind_now current lease)
unfolding leased release_lease
leased-Freed l j s c digest use_now bind_now current lease t =
    if_cases (Freed l j) (ltb (2 ^ 63 - 1) current.route.generation || current.engine_id == []) _ _
      (λ changed why h. t)
      (λ sound.
        elim (Result-cases (match_claims s.verifier c (expected_at s c current.route digest))) [
          | inl m ↦ rw m.1 (spent-Freed l j s c current lease bind_now _ t)
          | inr m ↦ rw m.1 (λ why h. t)
        ])

acquire_operation-refused :
    (l : Ledger) (route project sandbox : Text) (expected : ℕ) (why : Types.Error)
    → (acquire_operation l route project sandbox expected).1 ≡ err why
    → (acquire_operation l route project sandbox expected).0 ≡ l
unfolding acquire_operation admit
acquire_operation-refused l route project sandbox expected why =
    refusing
      (require (valid_route_identity route project sandbox && not (expected == 0)) Types.invalid) _
      (λ o. refusing (current_entry l route project sandbox expected ready) _ (λ e.
        if_cases Kept
          (active_count l.active (operation_key route project sandbox expected) == Types.max_uint64)
          _ _ (λ full h. refl) (λ room h. absurd (bad h))))
  where
    Kept : Ledger × Result Types.Error (Binding × Lease) → Type 0
    Kept out = out.1 ≡ err why → out.0 ≡ l

    bad : {x : Binding × Lease} → Path (Result Types.Error (Binding × Lease)) (ok x) (err why) → ⊥
    bad h = cc

    refusing :
        {B : Type 0} (r : Result Types.Error B)
        (f : B → Ledger × Result Types.Error (Binding × Lease))
        → ((b : B) → Kept (f b))
        → Kept (refuse l r f)
    refusing (err e) f k h = refl
    refusing (ok b) f k h = k b h

-- Under the invariant of its ledger, a relay that refuses to authorize an operation counts as many
-- operations under each key as it did before, whatever the refusal was: a lease that was taken has
-- been given back.
pub authorize_request-refused :
    (s : RelayServer) (a : RelayAuthorization) (digest : Text) (use_now bind_now : ℕ)
    (why : Refusal) (j : OperationKey)
    → Inv s.ledger
    → (authorize_request s a digest use_now bind_now).1 ≡ err why
    → active_count (authorize_request s a digest use_now bind_now).0.ledger.active j
      ≡ active_count s.ledger.active j
unfolding authorize_request after_acquire
authorize_request-refused s a digest use_now bind_now why j v = outcome _ refl
  where
    outcome :
        (out : Ledger × Result Types.Error (Binding × Lease))
        → acquire_operation s.ledger a.route_id a.claims.project_id a.claims.sandbox_id
            a.claims.generation
          ≡ out
        → (after_acquire s a.claims digest use_now bind_now out).1 ≡ err why
        → active_count (after_acquire s a.claims digest use_now bind_now out).0.ledger.active j
          ≡ active_count s.ledger.active j
    outcome (l, err e) same h =
        ap (λ k. active_count k.active j)
          (sym (ap (λ o. o.0) same)
            ∙ acquire_operation-refused s.ledger a.route_id a.claims.project_id a.claims.sandbox_id
                a.claims.generation e (ap (λ o. o.1) same))
    outcome (l, ok (current, lease)) same h =
        leased-Freed s.ledger j (record s { ledger = l }) a.claims digest use_now bind_now current
          lease
          ((release-acquire_operation s.ledger l a.route_id a.claims.project_id a.claims.sandbox_id
            a.claims.generation current lease j v same).1)
          why h
