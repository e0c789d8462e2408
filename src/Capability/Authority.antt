-- ===== src/Capability/Authority.antt =====
-- What a successful Verify has established.
use brezel.Common.{
  ℕ, ◌≡◌, subst, ap, ◌∙◌, true, false, not, ◌&&◌, ◌||◌, List, [], ◌∷◌, ◌++◌, inl, inr, arith, some,
  Option-cases, ◌==◌, nat_eq, length, all, leb, ℤ, int_lt, Text, text_eq, text_beq_iff, lookup, ok,
  require, or_fail, or_fail-ok, require-ok, ok_injective, >>-eq-ok, >>=-eq-ok, base64_decode,
  base64_encode, Time,
}
use brezel.Capability.{
  malformed, invalid, mismatch, unknown_key, not_initialized, not_yet_valid, expired,
  invalid_signature, CapabilityClaims, CapabilityExpected, CapabilityHeader, max_capability_size,
}
use brezel.Capability.Claims.{
  valid_encoded_size, equal_digest, validate_capability_claims, validate_expected,
  expected_identities, valid_context, valid_identity,
}
use brezel.Capability.Amounts.{BelowMax}
use brezel.Capability.Validity.{IsValid, validate_capability_claims_sound}
use brezel.Capability.Tokens.{
  Formats, Crypto, Segments, CapabilityVerifier, authenticate, match_claims, verify, check_claims,
  check_signature, within_window, same_request, first_is, is_ok, three_parts, split_dots,
  decode_canonical_segment, capability_message, unix, dot,
}

-- The token is signed, by the key that its claims name, over the segments that hold them.
pub record Signed (f : Formats) (v : CapabilityVerifier) (token : Text) (c : CapabilityClaims)
    : Type 0 where
  pub segments : Segments
  pub public : Text
  pub signature : Text
  pub split : three_parts (split_dots token) ≡ some segments
  pub key : lookup c.key_id v.keys ≡ some public
  pub decoded : base64_decode (Segments.signature segments) ≡ some signature
  pub verified :
      f.crypto.verify public
        (capability_message (Segments.header segments ++ dot ∷ Segments.claims segments))
        signature
      ≡ true
  pub holds : decode_canonical_segment f.claims (Segments.claims segments) ≡ some c

-- The claims are those of the request.
pub record Requested (c : CapabilityClaims) (e : CapabilityExpected) : Type 0 where
  pub audience : c.audience ≡ e.audience
  pub node_id : c.node_id ≡ e.node_id
  pub boot_epoch : c.boot_epoch ≡ e.boot_epoch
  pub route_id : c.route_id ≡ e.route_id
  pub generation : c.generation ≡ e.generation
  pub project_id : c.project_id ≡ e.project_id
  pub sandbox_id : c.sandbox_id ≡ e.sandbox_id
  pub operations : c.operations ≡ e.operation ∷ []
  pub request_digest : c.request_digest ≡ e.request_digest

-- The time is in the claims' window.
pub record Open (now : ℤ) (c : CapabilityClaims) : Type 0 where
  pub issued : int_lt now c.issued_at ≡ false
  pub started : int_lt now c.not_before ≡ false
  pub live : int_lt now c.expires_at ≡ true

within_window-Open : (now : ℤ) (c : CapabilityClaims) → within_window now c ≡ ok tt → Open now c
unfolding within_window
within_window-Open now c h =
    let a =
      >>-eq-ok (require (not (int_lt now c.issued_at || int_lt now c.not_before)) not_yet_valid) _
        h in
    record {
      issued = ground (arith, require-ok _ not_yet_valid a.0);
      started = ground (arith, require-ok _ not_yet_valid a.0);
      live = require-ok (int_lt now c.expires_at) expired a.1;
    }

check_claims-ok :
    (v : CapabilityVerifier) (now : ℤ) (key : Text) (c d : CapabilityClaims)
    → check_claims v now key c ≡ ok d
    → (c ≡ d)
      × (key ≡ c.key_id)
      × (validate_capability_claims c ≡ ok tt)
      × (c.issuer ≡ v.issuer)
      × Open now c
unfolding check_claims
check_claims-ok v now key c d h =
    let a = >>-eq-ok (require (key == c.key_id) invalid) _ h in
    let b = >>-eq-ok (validate_capability_claims c) _ a.1 in
    let e = >>-eq-ok (require (c.issuer == v.issuer) mismatch) _ b.1 in
    let w = >>-eq-ok (within_window now c) (ok c) e.1 in
    (
      ok_injective w.1,
      (text_beq_iff key c.key_id).0 (require-ok _ invalid a.0),
      b.0,
      (text_beq_iff c.issuer v.issuer).0 (require-ok _ mismatch e.0),
      within_window-Open now c w.0,
    )

digest_unique :
    (a b : Text) (n : ℕ)
    → valid_encoded_size a n ≡ true
    → valid_encoded_size b n ≡ true
    → equal_digest a b ≡ true
    → a ≡ b
unfolding valid_encoded_size equal_digest
digest_unique a b n p q h = elim (Option-cases (base64_decode a)) [
  | inl e ↦ ground arith
  | inr e ↦ elim (Option-cases (base64_decode b)) [
    | inl k ↦ ground arith
    | inr k ↦ ground (
      arith,
      text_beq_iff (base64_encode e.0) a,
      text_beq_iff (base64_encode k.0) b,
      text_beq_iff e.0 k.0,
    )
  ]
]

same_request-Requested :
    (c : CapabilityClaims) (e : CapabilityExpected) (o : Text)
    → c.operations ≡ o ∷ []
    → valid_encoded_size c.request_digest 32 ≡ true
    → valid_encoded_size e.request_digest 32 ≡ true
    → same_request c e ≡ true
    → Requested c e
unfolding same_request first_is
same_request-Requested c e o one p q h = record {
  audience = ground (arith, text_beq_iff c.audience e.audience);
  node_id = ground (arith, text_beq_iff c.node_id e.node_id);
  boot_epoch = ground (arith, text_beq_iff c.boot_epoch e.boot_epoch);
  route_id = ground (arith, text_beq_iff c.route_id e.route_id);
  generation = ground arith;
  project_id = ground (arith, text_beq_iff c.project_id e.project_id);
  sandbox_id = ground (arith, text_beq_iff c.sandbox_id e.sandbox_id);
  operations = one ∙ ap (λ t. t ∷ []) (the_first c.operations one (ground arith));
  request_digest = digest_unique c.request_digest e.request_digest 32 p q (ground arith);
}
  where
    the_first : (os : List Text) → os ≡ o ∷ [] → first_is os e.operation ≡ true → o ≡ e.operation
    the_first os same fits =
        (text_beq_iff o e.operation).0 (subst (λ l. first_is l e.operation ≡ true) same fits)

pub match_claims-Requested :
    (v : CapabilityVerifier) (c : CapabilityClaims) (e : CapabilityExpected)
    → IsValid c
    → match_claims v c e ≡ ok tt
    → Requested c e
unfolding match_claims validate_expected
match_claims-Requested v c e valid h =
    let a = >>-eq-ok (require (not (length v.keys == 0)) not_initialized) _ h in
    let b =
      >>-eq-ok (require (is_ok (validate_capability_claims c) && c.issuer == v.issuer) mismatch) _
        a.1 in
    let x = >>-eq-ok (validate_expected e) _ b.1 in
    let g = >>-eq-ok (require (all valid_identity (expected_identities e)) mismatch) _ x.0 in
    same_request-Requested c e (IsValid.operation valid) (IsValid.operations valid)
      (IsValid.request_digest valid) (ground (arith, require-ok (valid_context e) mismatch g.1))
      (require-ok (same_request c e) mismatch x.1)

-- What Authenticate has established of the claims that it returns.
pub record Authentic (f : Formats) (v : CapabilityVerifier) (clock : Time) (token : Text)
    (c : CapabilityClaims) : Type 0 where
  pub signed : Signed f v token c
  pub valid : IsValid c
  pub issuer : c.issuer ≡ v.issuer
  pub window : Open (unix clock.instant) c

check_signature-ok :
    (crypto : Crypto) (public : Text) (s : Segments)
    → check_signature crypto public s ≡ ok tt
    → (signature : Text) × (base64_decode s.signature ≡ some signature)
      × (crypto.verify public (capability_message (s.header ++ dot ∷ s.claims)) signature ≡ true)
unfolding check_signature
check_signature-ok crypto public s h =
    let a = >>=-eq-ok (or_fail (base64_decode s.signature) malformed) _ h in
    let b = >>-eq-ok (require (length a.0 == 64) malformed) _ a.2 in
    (
      a.0,
      or_fail-ok (base64_decode s.signature) malformed a.0 a.1,
      require-ok _ invalid_signature b.1,
    )

-- The claims that a JSON decoder gives have int64 times.
abbrev pub DecodesInt64 : Formats → Type 0
DecodesInt64 f =
    (segment : Text) (c : CapabilityClaims)
    → decode_canonical_segment f.claims segment ≡ some c
    → BelowMax c.expires_at

pub authenticate-Authentic :
    (f : Formats)
    → DecodesInt64 f
    → (v : CapabilityVerifier) (clock : Time) (token : Text) (c : CapabilityClaims)
    → authenticate f v clock token ≡ ok c
    → Authentic f v clock token c
unfolding authenticate
authenticate-Authentic f int64 v clock token c h =
    let a = >>-eq-ok (require (not (length v.keys == 0)) not_initialized) _ h in
    let b =
      >>-eq-ok
        (require (not (length token == 0) && leb (length token) max_capability_size) malformed) _
        a.1 in
    let s = >>=-eq-ok (or_fail (three_parts (split_dots token)) malformed) _ b.1 in
    let t =
      >>=-eq-ok (or_fail (decode_canonical_segment f.headers (Segments.header s.0)) malformed) _
        s.2 in
    let k = >>-eq-ok (require _ invalid) _ t.2 in
    let p = >>=-eq-ok (or_fail (lookup (CapabilityHeader.key_id t.0) v.keys) unknown_key) _ k.1 in
    let g = >>-eq-ok (check_signature f.crypto p.0 s.0) _ p.2 in
    let d =
      >>=-eq-ok (or_fail (decode_canonical_segment f.claims (Segments.claims s.0)) malformed) _
        g.1 in
    let w = check_claims-ok v (unix clock.instant) (CapabilityHeader.key_id t.0) d.0 c d.2 in
    let sig = check_signature-ok f.crypto p.0 s.0 g.0 in
    let held =
      or_fail-ok (decode_canonical_segment f.claims (Segments.claims s.0)) malformed d.0 d.1 in
    subst (Authentic f v clock token) w.0 (record {
      signed = record {
        segments = s.0;
        public = p.0;
        signature = sig.0;
        split = or_fail-ok (three_parts (split_dots token)) malformed s.0 s.1;
        key =
            subst (λ k. lookup k v.keys ≡ some p.0) w.1
              (or_fail-ok (lookup (CapabilityHeader.key_id t.0) v.keys) unknown_key p.0 p.1);
        decoded = sig.1;
        verified = sig.2;
        holds = held;
      };
      valid = validate_capability_claims_sound d.0 (int64 (Segments.claims s.0) d.0 held) w.2;
      issuer = w.3;
      window = w.4;
    })

-- Where the decoder gives int64 times, claims that Verify returns at a time stand in the token
-- under a signature that holds for the verifier's key of their key id, are valid (one operation,
-- bounds that fit it, a life of thirty seconds at most), name the verifier's issuer, are in their
-- window at that time, and are in every field those of the expected request.
pub verify-authority :
    (f : Formats)
    → DecodesInt64 f
    → (v : CapabilityVerifier) (clock : Time) (token : Text) (e : CapabilityExpected)
      (c : CapabilityClaims)
    → verify f v clock token e ≡ ok c
    → Authentic f v clock token c × Requested c e
unfolding verify
verify-authority f int64 v clock token e c h =
    let a = >>=-eq-ok (authenticate f v clock token) _ h in
    let b = >>-eq-ok (match_claims v a.0 e) (ok a.0) a.2 in
    let authentic = authenticate-Authentic f int64 v clock token a.0 a.1 in
    subst (λ d. Authentic f v clock token d × Requested d e) (ok_injective b.1)
      (authentic, match_claims-Requested v a.0 e (Authentic.valid authentic) b.0)
