-- ===== src/Capability/Validity.antt =====
-- What validateCapabilityClaims accepts, stated in the numbers themselves.
use brezel.Common.{
  ℕ, ◌<◌, ◌≡◌, refl, ap, true, not, List, [], ◌∷◌, arith, ◌==◌, nat_eq, All, all, all-All, ℤ, pos,
  negsuc, int_beq, Text, text_eq, ok, require, require-ok, >>-eq-ok,
}
use brezel.Capability.{invalid, CapabilityBounds, CapabilityClaims}
use brezel.Capability.Claims.{
  valid_operation, valid_identity, valid_encoded_size, valid_lifetime, valid_bounds, bounds_fit,
  validate_operation, validate_capability_claims, identities,
}
use brezel.Capability.Amounts.{
  BelowMax, Lifetime, valid_lifetime-Lifetime, Amounts, Uses, amounts_lem, permits,
}

-- What the verifier and the signer demand of claims.
pub record IsValid (c : CapabilityClaims) : Type 0 where
  pub version : c.version ≡ pos 1
  pub identities : All (λ s. valid_identity s ≡ true) (identities c)
  pub generation : 0 < c.generation
  pub operation : Text
  pub operations : c.operations ≡ operation ∷ []
  pub jti : valid_encoded_size c.jti 16 ≡ true
  pub request_digest : valid_encoded_size c.request_digest 32 ≡ true
  pub lifetime : Lifetime c
  pub amounts : Amounts c.bounds
  pub uses :
      Uses operation
        (Amounts.duration amounts)
        (Amounts.request amounts)
        (Amounts.response amounts)
        c.bounds.port

rename :
    (operation : Text) (port : ℕ) {d e q r p s : ℤ}
    → d ≡ e
    → q ≡ r
    → p ≡ s
    → bounds_fit operation (record {
      max_duration_millis = d;
      max_request_bytes = q;
      max_response_bytes = p;
      port = port;
    })
      ≡ true
    → bounds_fit operation (record {
      max_duration_millis = e;
      max_request_bytes = r;
      max_response_bytes = s;
      port = port;
    })
      ≡ true
rename operation port a b c h = cc

bounds-Amounts :
    (operation : Text) (b : CapabilityBounds)
    → valid_bounds operation b ≡ true
    → (a : Amounts b) × Uses operation
        (Amounts.duration a)
        (Amounts.request a)
        (Amounts.response a)
        b.port
unfolding valid_bounds
bounds-Amounts operation b h =
    let l =
      amounts_lem b.max_duration_millis b.max_request_bytes b.max_response_bytes b.port
        (ground arith) in
    (
      record {
        duration = l.0;
        request = l.1;
        response = l.2;
        max_duration_millis = l.3;
        max_request_bytes = l.4;
        max_response_bytes = l.5;
        duration_fits = l.6;
        request_fits = l.7;
        response_fits = l.8;
        port_fits = l.9;
      },
      permits operation l.0 l.1 l.2 b.port (rename operation b.port l.3 l.4 l.5 (ground arith)),
    )

validate_operation-one :
    (c : CapabilityClaims) (os : List Text)
    → validate_operation c os ≡ ok tt
    → (o : Text) × (os ≡ o ∷ [])
      × (valid_encoded_size c.jti 16 ≡ true)
      × (valid_encoded_size c.request_digest 32 ≡ true)
      × (valid_lifetime c ≡ true)
      × (valid_bounds o c.bounds ≡ true)
unfolding validate_operation
validate_operation-one c [] h = cc
validate_operation-one c (o ∷ []) h =
    let a = >>-eq-ok (require (valid_operation o) invalid) _ h in
    let b = >>-eq-ok (require (valid_encoded_size c.jti 16) invalid) _ a.1 in
    let d = >>-eq-ok (require (valid_encoded_size c.request_digest 32) invalid) _ b.1 in
    let e = >>-eq-ok (require (valid_lifetime c) invalid) _ d.1 in
    (
      o,
      refl,
      require-ok _ invalid b.0,
      require-ok _ invalid d.0,
      require-ok _ invalid e.0,
      require-ok _ invalid e.1,
    )
validate_operation-one c (o ∷ p ∷ os) h = cc

-- The claims that validateCapabilityClaims accepts are valid, where the expiry is an int64.
pub validate_capability_claims_sound :
    (c : CapabilityClaims)
    → BelowMax c.expires_at
    → validate_capability_claims c ≡ ok tt
    → IsValid c
unfolding validate_capability_claims int_beq
validate_capability_claims_sound c m h =
    let a = >>-eq-ok (require (int_beq c.version (pos 1)) invalid) _ h in
    let b = >>-eq-ok (require (all valid_identity (identities c)) invalid) _ a.1 in
    let d = >>-eq-ok (require (not (c.generation == 0)) invalid) _ b.1 in
    let o = validate_operation-one c c.operations d.1 in
    let u = bounds-Amounts o.0 c.bounds o.5 in
    record {
      version = version_one c.version (require-ok (int_beq c.version (pos 1)) invalid a.0);
      identities =
          (all-All valid_identity (identities c)).0
            (require-ok (all valid_identity (identities c)) invalid b.0);
      generation = ground (arith, require-ok (not (c.generation == 0)) invalid d.0);
      operation = o.0;
      operations = o.1;
      jti = o.2;
      request_digest = o.3;
      lifetime = (valid_lifetime-Lifetime c m).0 o.4;
      amounts = u.0;
      uses = u.1;
    }
  where
    version_one : (v : ℤ) → int_beq v (pos 1) ≡ true → v ≡ pos 1
    version_one (pos n) e = ap pos (ground arith)
    version_one (negsuc n) e = cc
