-- ===== src/Capability/Acceptance.antt =====
-- validateCapabilityClaims accepts valid claims, so that it accepts no others and all of those.
use brezel.Common.{
  ℕ, ◌≤◌, ◌≡◌, ◌↔◌, refl, sym, subst, arith, true, nat_eq, all-All, ℤ, pos, int_lt, int_beq, Text,
  text_eq, text_beq, ok,
}
use brezel.Capability.{
  CapabilityBounds, CapabilityClaims, max_operation_millis, max_capability_bytes,
}
use brezel.Capability.Claims.{
  valid_operation, valid_identity, valid_bounds, bounds_fit, out_of_range, validate_operation,
  validate_capability_claims, identities,
}
use brezel.Capability.Amounts.{
  BelowMax, valid_lifetime-Lifetime, Amounts, Uses, command, reads, writes, proxies, tunnels,
}
use brezel.Capability.Validity.{IsValid, validate_capability_claims_sound}

abbrev bounds_of : ℕ → ℕ → ℕ → ℕ → CapabilityBounds
bounds_of d q p port = record {
  max_duration_millis = pos d;
  max_request_bytes = pos q;
  max_response_bytes = pos p;
  port = port;
}

bounds_allowed :
    (op : Text) (d q p port : ℕ)
    → d ≤ max_operation_millis
    → q ≤ max_capability_bytes
    → p ≤ max_capability_bytes
    → port ≤ 65535
    → Uses op d q p port
    → (valid_operation op ≡ true) × (valid_bounds op (bounds_of d q p port) ≡ true)
unfolding valid_operation valid_bounds bounds_fit out_of_range int_lt int_beq text_beq
bounds_allowed op d q p port a b c e (command o x y z w) =
    subst (λ k. (valid_operation k ≡ true) × (valid_bounds k (bounds_of d q p port) ≡ true)) (sym o)
      (refl, ground arith)
bounds_allowed op d q p port a b c e (reads o x y z w) =
    subst (λ k. (valid_operation k ≡ true) × (valid_bounds k (bounds_of d q p port) ≡ true)) (sym o)
      (refl, ground arith)
bounds_allowed op d q p port a b c e (writes o x y z w) =
    subst (λ k. (valid_operation k ≡ true) × (valid_bounds k (bounds_of d q p port) ≡ true)) (sym o)
      (refl, ground arith)
bounds_allowed op d q p port a b c e (proxies o x y z w) =
    subst (λ k. (valid_operation k ≡ true) × (valid_bounds k (bounds_of d q p port) ≡ true)) (sym o)
      (refl, ground arith)
bounds_allowed op d q p port a b c e (tunnels o x y z w) =
    subst (λ k. (valid_operation k ≡ true) × (valid_bounds k (bounds_of d q p port) ≡ true)) (sym o)
      (refl, ground arith)

same_bounds :
    (b : CapabilityBounds) (a : Amounts b)
    → bounds_of (Amounts.duration a) (Amounts.request a) (Amounts.response a) b.port ≡ b
same_bounds b a =
    rebuilt b.port (sym (Amounts.max_duration_millis a)) (sym (Amounts.max_request_bytes a))
      (sym (Amounts.max_response_bytes a))
  where
    rebuilt :
        {d e q r p s : ℤ} (port : ℕ)
        → d ≡ e
        → q ≡ r
        → p ≡ s
        → Path CapabilityBounds
            (record {
              max_duration_millis = d;
              max_request_bytes = q;
              max_response_bytes = p;
              port = port;
            })
            (record {
              max_duration_millis = e;
              max_request_bytes = r;
              max_response_bytes = s;
              port = port;
            })
    rebuilt port x y z = cc

validate_operation_complete :
    (c : CapabilityClaims)
    → BelowMax c.expires_at
    → IsValid c
    → validate_operation c c.operations ≡ ok tt
unfolding validate_operation
validate_operation_complete c m v =
    let a = IsValid.amounts v in
    let u =
      bounds_allowed (IsValid.operation v) (Amounts.duration a) (Amounts.request a)
        (Amounts.response a) c.bounds.port (Amounts.duration_fits a) (Amounts.request_fits a)
        (Amounts.response_fits a) (Amounts.port_fits a) (IsValid.uses v) in
    let fits : valid_bounds (IsValid.operation v) c.bounds ≡ true =
      subst (λ b. valid_bounds (IsValid.operation v) b ≡ true) (same_bounds c.bounds a) u.1 in
    subst (λ os. validate_operation c os ≡ ok tt) (sym (IsValid.operations v))
      (ground (
        arith,
        u.0,
        IsValid.jti v,
        IsValid.request_digest v,
        (valid_lifetime-Lifetime c m).1 (IsValid.lifetime v),
        fits,
      ))

-- Where their expiry is an int64, validateCapabilityClaims accepts claims exactly if they are valid:
-- version 1, well-formed identities, a positive generation, one operation, an id of 16 and a digest of
-- 32 encoded bytes, a positive time of issue, a life that starts no earlier and ends at most thirty
-- seconds after it, and bounds within their limits and of the kinds that the operation uses.
pub validate_capability_claims_iff :
    (c : CapabilityClaims)
    → BelowMax c.expires_at
    → (validate_capability_claims c ≡ ok tt) ↔ IsValid c
unfolding validate_capability_claims int_beq
validate_capability_claims_iff c m = (
  validate_capability_claims_sound c m,
  λ v. ground (
    arith,
    one c.version (IsValid.version v),
    (all-All valid_identity (identities c)).1 (IsValid.identities v),
    IsValid.generation v,
    validate_operation_complete c m v,
  ),
)
  where
    one : (v : ℤ) → v ≡ pos 1 → int_beq v (pos 1) ≡ true
    one v e = subst (λ k. int_beq k (pos 1) ≡ true) (sym e) refl
