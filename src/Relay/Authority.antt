-- ===== src/Relay/Authority.antt =====
-- What an operation that the relay admits has behind it.
use brezel.Common.{
  ℕ, ◌+◌, ◌≡◌, refl, sym, subst, ap, ◌∙◌, arith, true, List, [], ◌∷◌, some, nat_eq, if_cases, inl,
  inr, Text, text_eq, text_beq_iff, Result, ok, err, lookup, Time, Option-cases,
}
use brezel.Ledger.Types
use brezel.Ledger.Types.{
  OperationKey, Binding, DiskEntry, ready, binding_from_disk, public_from_disk, key_eq, key_beq_iff,
}
use brezel.Ledger.Operations.{Ledger, active_count}
use brezel.Ledger.Leases.{Lease, acquire_operation, operation_key}
use brezel.Ledger.Activity.{Current}
use brezel.Capability
use brezel.Capability.{CapabilityClaims}
use brezel.Capability.Validity.{IsValid}
use brezel.Capability.Tokens.{authenticate, Formats, first_is}
use brezel.Capability.Authority.{
  Requested, Authentic, DecodesInt64, match_claims-Requested, authenticate-Authentic,
}
use brezel.Relay.{
  Refusal, RelayServer, RelayAuthorization, SandboxBinding, after_acquire, authorize_request,
  authenticate_request, checked_claims, own_claims, expected_at, from_unix, relay_capability,
  relay_route_id,
}
use brezel.Relay.Findings.{Leased, acquire_operation-Leased, Checked, leased-Checked}

-- What an operation that the relay admits rests on, in the state `s` before the call and `t` after it.
pub record Admitted (s t : RelayServer) (a : RelayAuthorization) (digest : Text)
    (b : SandboxBinding) : Type 0 where
  pub entry : DiskEntry
  pub current :
      Current s.ledger a.route_id a.claims.project_id a.claims.sandbox_id a.claims.generation ready
        entry
  pub requested : Requested a.claims (expected_at s a.claims (public_from_disk entry) digest)
  pub routes : t.ledger.state ≡ s.ledger.state
  pub counted :
      active_count t.ledger.active
        (operation_key a.route_id a.claims.project_id a.claims.sandbox_id a.claims.generation)
      ≡ active_count s.ledger.active
          (operation_key a.route_id a.claims.project_id a.claims.sandbox_id a.claims.generation)
        + 1
  pub once : lookup a.claims.jti t.replay.used ≡ some (from_unix a.claims.expires_at).instant
  pub engine : b.backend_id ≡ entry.engine_id
  pub revision : b.revision ≡ a.claims.generation

authorize_request-Admitted :
    (s t : RelayServer) (a : RelayAuthorization) (digest : Text) (use_now now : ℕ)
    (b : SandboxBinding) (lease : Lease)
    → IsValid a.claims
    → authorize_request s a digest use_now now ≡ (t, ok (b, lease))
    → Admitted s t a digest b
unfolding authorize_request after_acquire binding_from_disk
authorize_request-Admitted s t a digest use_now now b lease v = outcome _ refl
  where
    outcome :
        (out : Ledger × Result Types.Error (Binding × Lease))
        → acquire_operation s.ledger a.route_id a.claims.project_id a.claims.sandbox_id
            a.claims.generation
          ≡ out
        → after_acquire s a.claims digest use_now now out ≡ (t, ok (b, lease))
        → Admitted s t a digest b
    outcome (l, err e) same h = absurd (ground arith)
    outcome (l, ok (current, first)) same h =
        let g =
          acquire_operation-Leased s.ledger l a.route_id a.claims.project_id a.claims.sandbox_id
            a.claims.generation current first same in
        let k =
          leased-Checked (record s { ledger = l }) t a.claims digest use_now now current first lease
            b h in
        record {
          entry = Leased.entry g;
          current = Leased.is_current g;
          requested =
              subst (λ (d : Binding). Requested a.claims (expected_at s a.claims d.route digest))
                (Leased.binding g)
                (match_claims-Requested s.verifier a.claims
                  (expected_at s a.claims current.route digest) v (Checked.matched k));
          routes = ap (λ (m : Ledger). m.state) (Checked.ledger k) ∙ Leased.state g;
          counted =
              subst
                (λ (m : Ledger).
                  active_count m.active (
                    operation_key a.route_id a.claims.project_id a.claims.sandbox_id
                      a.claims.generation)
                  ≡ active_count s.ledger.active (
                      operation_key a.route_id a.claims.project_id a.claims.sandbox_id
                        a.claims.generation)
                    + 1)
                (sym (Checked.ledger k)) (Leased.counted g);
          once = Checked.once k;
          engine = Checked.backend k ∙ ap (λ (d : Binding). d.engine_id) (Leased.binding g);
          revision =
              Checked.revision k
              ∙ (ap (λ (d : Binding). d.route.generation) (Leased.binding g)
                  ∙ Current.assigned (Leased.is_current g));
        }

checked_claims-ok :
    (s : RelayServer) (route operation : Text) (r : Result Capability.Error CapabilityClaims)
    (a : RelayAuthorization)
    → checked_claims s route operation r ≡ ok a
    → (r ≡ ok a.claims) × (first_is a.claims.operations operation ≡ true)
unfolding checked_claims own_claims
checked_claims-ok s route operation (err why) a h = absurd (ground arith)
checked_claims-ok s route operation (ok c) a h = (ground arith, ground arith)

authenticated :
    (f : Formats) (s : RelayServer) (clock : Time) (routes authorizations : List Text)
    (operation : Text) (a : RelayAuthorization)
    → authenticate_request f s clock routes authorizations operation ≡ ok a
    → (token : Text) × (relay_capability authorizations ≡ some token)
      × (authenticate f s.verifier clock token ≡ ok a.claims)
      × (first_is a.claims.operations operation ≡ true)
unfolding authenticate_request
authenticated f s clock routes authorizations operation a =
    if_cases Good s.draining _ _ (λ drains h. absurd (refused h))
      (λ serves. elim (Option-cases (relay_route_id routes)) [
        | inl r ↦ rw r (λ h. absurd (refused h))
        | inr r ↦ elim (Option-cases (relay_capability authorizations)) [
          | inl k ↦ rw (r.1, k) (λ h. absurd (refused h))
          | inr k ↦
              rw (r.1, k.1)
                (λ h.
                  let c =
                    checked_claims-ok s r.0 operation (authenticate f s.verifier clock k.0) a h in
                  (k.0, refl, c.0, c.1))
        ]
      ])
  where
    Good : Result Refusal RelayAuthorization → Type 0
    Good out =
        out ≡ ok a
        → (token : Text) × (relay_capability authorizations ≡ some token)
          × (authenticate f s.verifier clock token ≡ ok a.claims)
          × (first_is a.claims.operations operation ≡ true)

    refused : {why : Refusal} → Path (Result Refusal RelayAuthorization) (err why) (ok a) → ⊥
    refused h = cc

the_first :
    (os : List Text) (o operation : Text)
    → os ≡ o ∷ []
    → first_is os operation ≡ true
    → o ≡ operation
unfolding first_is
the_first os o operation same fits =
    (text_beq_iff o operation).0 (subst (λ l. first_is l operation ≡ true) same fits)

-- Where the JSON decoder gives int64 times: if the relay authenticates a request's headers and then
-- admits the operation, with whatever digest of the request, the claims are those of a token that
-- the verifier holds authentic at that time, for this operation; the ledger had a current ready
-- entry under the claims' route, project, sandbox and generation; every field of the claims is that
-- of the entry, the relay and the digest; the binding is for the entry's engine and that generation;
-- and after it the routes are as before, one more operation is counted under the lease's key, and
-- the replay cache holds the token's identifier until the claims expire.
pub authorize_request_sound :
    (f : Formats)
    → DecodesInt64 f
    → (s t : RelayServer) (clock : Time) (routes authorizations : List Text) (operation : Text)
      (a : RelayAuthorization) (digest : Text) (use_now bind_now : ℕ) (b : SandboxBinding)
      (lease : Lease)
    → authenticate_request f s clock routes authorizations operation ≡ ok a
    → authorize_request s a digest use_now bind_now ≡ (t, ok (b, lease))
    → ((token : Text) × (relay_capability authorizations ≡ some token)
        × Authentic f s.verifier clock token a.claims)
      × (a.claims.operations ≡ operation ∷ [])
      × Admitted s t a digest b
authorize_request_sound f int64 s t clock routes authorizations operation a digest use_now bind_now
      b lease known admitted =
    let k = authenticated f s clock routes authorizations operation a known in
    let authentic = authenticate-Authentic f int64 s.verifier clock k.0 a.claims k.2 in
    let valid = Authentic.valid authentic in
    (
      (k.0, k.1, authentic),
      IsValid.operations valid
          ∙ ap (λ o. o ∷ [])
              (the_first a.claims.operations (IsValid.operation valid) operation
                (IsValid.operations valid) k.3),
      authorize_request-Admitted s t a digest use_now bind_now b lease valid admitted,
    )
