-- ===== src/Relay/Findings.antt =====
-- What each step of the relay's authorize has found where it goes on.
use brezel.Common.{
  ℕ, ◌+◌, ◌-◌, ◌^◌, ◌≡◌, refl, sym, subst, ap, arith, not, ◌&&◌, ◌||◌, [], none, some, Option, ltb,
  ◌==◌, nat_eq, if_cases, Result-cases, inl, inr, Text, text_eq, Result, ok, err, require, lookup,
}
use brezel.Ledger.Types
use brezel.Ledger.Types.{
  OperationKey, Binding, DiskEntry, ready, binding_from_disk, public_from_disk, key_eq, key_beq_iff,
}
use brezel.Ledger.Operations.{Ledger, active_count}
use brezel.Ledger.Leases.{Lease, acquire_operation, current_entry, operation_key, admit}
use brezel.Ledger.Checks.{valid_route_identity}
use brezel.Ledger.Steps.{refuse_ok}
use brezel.Ledger.Activity.{Current, current_entry-Current, active_count-insert}
use brezel.Replay
use brezel.Replay.{ReplayCache, use_jti}
use brezel.Replay.Once.{use_jti-ok}
use brezel.Capability.{CapabilityClaims}
use brezel.Capability.Tokens.{match_claims}
use brezel.Relay.{
  Refusal, RelayServer, SandboxBinding, Authorized, handed_out, spent, leased, expected_at,
  from_unix, bind_authorized_sandbox, binding_for,
}

-- What acquiring the lease has found: the current entry of the route, with one more operation.
pub record Leased (l m : Ledger) (route project sandbox : Text) (generation : ℕ) (current : Binding)
    : Type 0 where
  pub entry : DiskEntry
  pub is_current : Current l route project sandbox generation ready entry
  pub binding : current ≡ binding_from_disk entry
  pub state : m.state ≡ l.state
  pub counted :
      active_count m.active (operation_key route project sandbox generation)
      ≡ active_count l.active (operation_key route project sandbox generation) + 1

pub acquire_operation-Leased :
    (l m : Ledger) (route project sandbox : Text) (generation : ℕ) (current : Binding)
    (lease : Lease)
    → acquire_operation l route project sandbox generation ≡ (m, ok (current, lease))
    → Leased l m route project sandbox generation current
unfolding acquire_operation admit
acquire_operation-Leased l m route project sandbox generation current lease h =
    let a =
      refuse_ok l m
        (require (valid_route_identity route project sandbox && not (generation == 0))
          Types.invalid)
        _ h in
    let b = refuse_ok l m (current_entry l route project sandbox generation ready) _ a.2 in
    let key = operation_key route project sandbox generation in
    record {
      entry = b.0;
      is_current = current_entry-Current l route project sandbox generation ready b.0 b.1;
      binding = ground (arith, b.2);
      state = ground (arith, b.2);
      counted = ground (
        arith,
        b.2,
        active_count-insert key key (active_count l.active key + 1) l.active,
        key_beq_iff key key,
      );
    }

-- What the checks after the lease have found.
pub record Checked (s t : RelayServer) (c : CapabilityClaims) (digest : Text) (current : Binding)
    (b : SandboxBinding) : Type 0 where
  pub matched : match_claims s.verifier c (expected_at s c current.route digest) ≡ ok tt
  pub once : lookup c.jti t.replay.used ≡ some ((from_unix c.expires_at).instant)
  pub ledger : t.ledger ≡ s.ledger
  pub backend : b.backend_id ≡ current.engine_id
  pub revision : b.revision ≡ current.route.generation

handed_out-ok :
    (s t : RelayServer) (lease lease' : Lease) (o : Option SandboxBinding) (b : SandboxBinding)
    → handed_out s lease o ≡ (t, ok (b, lease'))
    → (o ≡ some b) × (t ≡ s)
unfolding handed_out
handed_out-ok s t lease lease' none b h = absurd (ground arith)
handed_out-ok s t lease lease' (some c) b h = (ground arith, ground arith)

bound_to :
    (a : SandboxBinding) (now : ℕ) (b : SandboxBinding)
    → bind_authorized_sandbox a now ≡ some b
    → (b.backend_id ≡ a.backend_id) × (b.revision ≡ a.revision)
unfolding bind_authorized_sandbox
bound_to a now b h = (ground arith, ground arith)

spent-Checked :
    (s t : RelayServer) (c : CapabilityClaims) (digest : Text) (current : Binding)
    (lease lease' : Lease) (use_now now : ℕ) (b : SandboxBinding)
    (cache : ReplayCache × Result Replay.Error (Unit {0}))
    → match_claims s.verifier c (expected_at s c current.route digest) ≡ ok tt
    → use_jti s.replay use_now c.jti (from_unix c.expires_at).instant ≡ cache
    → spent s c current lease now cache ≡ (t, ok (b, lease'))
    → Checked s t c digest current b
unfolding spent
spent-Checked s t c digest current lease lease' use_now now b (cache, err e) m u h =
    absurd (ground arith)
spent-Checked s t c digest current lease lease' use_now now b (cache, ok done) m u h =
    let o = handed_out-ok (record s { replay = cache }) t lease lease' _ b h in
    let d = bound_to (binding_for c current) now b o.0 in
    record {
      matched = m;
      once =
          subst (λ k. lookup c.jti k.replay.used ≡ some (from_unix c.expires_at).instant) (sym o.1)
            (subst (λ k. lookup c.jti k.used ≡ some (from_unix c.expires_at).instant)
              (ap (λ p. p.0) u)
              (use_jti-ok s.replay use_now c.jti (from_unix c.expires_at).instant
                (ap (λ p. p.1) u)));
      ledger = ap (λ s. RelayServer.ledger s) o.1;
      backend = d.0;
      revision = d.1;
    }

pub leased-Checked :
    (s t : RelayServer) (c : CapabilityClaims) (digest : Text) (use_now now : ℕ) (current : Binding)
    (lease lease' : Lease) (b : SandboxBinding)
    → leased s c digest use_now now current lease ≡ (t, ok (b, lease'))
    → Checked s t c digest current b
unfolding leased
leased-Checked s t c digest use_now now current lease lease' b =
    if_cases Good (ltb (2 ^ 63 - 1) current.route.generation || current.engine_id == []) _ _
      (λ changed h. absurd (refused h))
      (λ sound.
        elim (Result-cases (match_claims s.verifier c (expected_at s c current.route digest))) [
          | inl m ↦
              rw m.1 (spent-Checked s t c digest current lease lease' use_now now b _ m.1 refl)
          | inr m ↦ rw m.1 (λ h. absurd (refused h))
        ])
  where
    Good : Authorized → Type 0
    Good out = out ≡ (t, ok (b, lease')) → Checked s t c digest current b

    refused :
        {r : RelayServer} {why : Refusal} → Path Authorized (r, err why) (t, ok (b, lease')) → ⊥
    refused h = ground arith
