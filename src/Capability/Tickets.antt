-- ===== src/Capability/Tickets.antt =====
-- A token that Issue makes is one that Authenticate accepts.
use brezel.Common.{
  ◌+◌, ◌≤◌, ◌<◌, ◌≡◌, ◌≢◌, refl, sym, subst, ap, ◌∙◌, not, ◌&&◌, List, [], ◌∷◌, ◌++◌, arith, Option,
  some, ◌==◌, nat_eq, length, All, ltb, Text, text_eq, text_beq_iff, lookup, ok, require, or_fail,
  ok_injective, >>-eq-ok, >>=-eq-ok, base64_encode, base64_encode-dotless, base64_encode-empty,
  if◌then◌else◌, Time, is_zero,
}
use brezel.Capability.{
  invalid, not_initialized, no_random, no_encoding, CapabilityClaims, CapabilityHeader,
  max_capability_size,
}
use brezel.Capability.Claims.{validate_capability_claims}
use brezel.Capability.Tokens.{
  Formats, CapabilityVerifier, CapabilitySigner, CapabilityIssue, authenticate, three_parts,
  split_dots, capability_message, unix, dot, token_type, token_algorithm, issue, issued_claims,
  seal, whole_ttl, truncated,
}
use brezel.Capability.Authority.{Open}
use brezel.Capability.Parts.{
  split_dots_token, Marshals, decode_canonical_segment-encode, KeyPair, check_claims_accepts,
  check_signature_accepts,
}

length-keys : (k p : Text) (keys : List (Text × Text)) → lookup k keys ≡ some p → length keys ≢ 0
unfolding lookup
length-keys k p [] h e = cc
length-keys k p (x ∷ keys) h e = omega arith

length-token : (a b : Text) → length (a ++ dot ∷ b) ≢ 0
length-token [] b e = omega arith
length-token (x ∷ a) b e = omega arith

abbrev sealed : Formats → Text → Text → Text → Text
sealed f private header body =
    let input = base64_encode header ++ dot ∷ base64_encode body in
    input ++ dot ∷ base64_encode (f.crypto.sign private (capability_message input))

abbrev pub header_of : Text → CapabilityHeader
header_of key_id = record { type = token_type; algorithm = token_algorithm; key_id = key_id }

some_signature : (s : Text) → length s ≡ 64 → s ≢ []
some_signature [] h e = omega arith
some_signature (x ∷ s) h e = cc

three_parts-sealed :
    (f : Formats) (private public header body : Text)
    → KeyPair f.crypto private public
    → All (λ b. b < 256) header
    → header ≢ []
    → All (λ b. b < 256) body
    → body ≢ []
    → three_parts (split_dots (sealed f private header body))
      ≡ some (record {
        header = base64_encode header;
        claims = base64_encode body;
        signature = base64_encode (
            f.crypto.sign private
              (capability_message (base64_encode header ++ dot ∷ base64_encode body)));
      })
unfolding three_parts
three_parts-sealed f private public header body pair h hn b bn =
    let m = capability_message (base64_encode header ++ dot ∷ base64_encode body) in
    let sig = f.crypto.sign private m in
    rw
      (split_dots_token (base64_encode header) (base64_encode body) (base64_encode sig)
        (base64_encode-dotless header h) (base64_encode-dotless body b)
        (base64_encode-dotless sig (KeyPair.bytes pair m)))
      (ground (
        arith,
        text_beq_iff (base64_encode header) [],
        text_beq_iff (base64_encode body) [],
        text_beq_iff (base64_encode sig) [],
        base64_encode-empty header hn,
        base64_encode-empty body bn,
        base64_encode-empty sig (some_signature sig (KeyPair.size pair m)),
      ))

authenticate-sealed :
    (f : Formats) (v : CapabilityVerifier) (clock : Time) (c : CapabilityClaims)
    (k private public : Text)
    → k ≡ c.key_id
    → KeyPair f.crypto private public
    → (mh : Marshals f.headers (header_of k)) (mc : Marshals f.claims c)
    → lookup k v.keys ≡ some public
    → length (sealed f private (Marshals.text mh) (Marshals.text mc)) ≤ max_capability_size
    → validate_capability_claims c ≡ ok tt
    → c.issuer ≡ v.issuer
    → Open (unix clock.instant) c
    → authenticate f v clock (sealed f private (Marshals.text mh) (Marshals.text mc)) ≡ ok c
unfolding authenticate
authenticate-sealed f v clock c k private public same pair mh mc key size valid issuer window =
    let h = Marshals.text mh in
    let b = Marshals.text mc in
    ground (
      arith,
      length-keys k public v.keys key,
      three_parts-sealed f private public h b pair (Marshals.bytes mh) (Marshals.some_text mh)
          (Marshals.bytes mc) (Marshals.some_text mc),
      decode_canonical_segment-encode f.headers (header_of k) mh,
      decode_canonical_segment-encode f.claims c mc,
      check_signature_accepts f.crypto private public pair (base64_encode h) (base64_encode b),
      check_claims_accepts v (unix clock.instant) k c same valid issuer window,
      text_beq_iff token_type token_type,
      text_beq_iff token_algorithm token_algorithm,
      length-token (base64_encode h ++ dot ∷ base64_encode b) (
          base64_encode (
            f.crypto.sign private (capability_message (base64_encode h ++ dot ∷ base64_encode b)))),
    )

-- What a successful Issue went through.
record Issued (f : Formats) (s : CapabilitySigner) (token : Text) (c : CapabilityClaims)
    : Type 0 where
  key_id : c.key_id ≡ s.key_id
  issuer : c.issuer ≡ s.issuer
  valid : validate_capability_claims c ≡ ok tt
  made : seal f s c ≡ ok (token, c)

seal-same :
    (f : Formats) (s : CapabilitySigner) (c d : CapabilityClaims) (token : Text)
    → seal f s c ≡ ok (token, d)
    → c ≡ d
unfolding seal
seal-same f s c d token h =
    let a = >>=-eq-ok (or_fail (f.headers.marshal (header_of s.key_id)) no_encoding) _ h in
    let b = >>=-eq-ok (or_fail (f.claims.marshal c) no_encoding) _ a.2 in
    ap (λ x. x.1) (ok_injective b.2)

issue-Issued :
    (f : Formats) (s : CapabilitySigner) (clock : Time) (random : Option Text) (r : CapabilityIssue)
    (token : Text) (c : CapabilityClaims)
    → issue f s clock random r ≡ ok (token, c)
    → Issued f s token c
unfolding issue issued_claims
issue-Issued f s clock random r token c h =
    let a = >>-eq-ok (require (length s.private == 64) not_initialized) _ h in
    let t = >>=-eq-ok (or_fail (whole_ttl r.ttl) invalid) _ a.1 in
    let now = truncated clock in
    let not_before = if is_zero r.not_before then now else truncated r.not_before in
    let b =
      >>-eq-ok (require (not (ltb not_before now) && ltb not_before (now + t.0)) invalid) _ t.2 in
    let n = >>=-eq-ok (or_fail random no_random) _ b.1 in
    let d = issued_claims s r now not_before (now + t.0) n.0 in
    let e = >>-eq-ok (validate_capability_claims d) _ n.2 in
    subst (Issued f s token) (seal-same f s d c token e.1) (record {
      key_id = refl;
      issuer = refl;
      valid = e.0;
      made = e.1 ∙ ap (λ x. ok (token, x)) (sym (seal-same f s d c token e.1));
    })

seal-sealed :
    (f : Formats) (s : CapabilitySigner) (c : CapabilityClaims) (token : Text)
    (mh : Marshals f.headers (header_of s.key_id)) (mc : Marshals f.claims c)
    → seal f s c ≡ ok (token, c)
    → sealed f s.private (Marshals.text mh) (Marshals.text mc) ≡ token
unfolding seal
seal-sealed f s c token mh mc h =
    ap (λ x. x.0) (ok_injective (rw (Marshals.marshal mh, Marshals.marshal mc) at h))

-- A token and the claims that Issue returns together are such that Authenticate of the token, at any
-- time in the claims' window, by a verifier with the signer's issuer and its public key under its
-- key id, returns those claims. The conditions: the keys are a pair, encoding/json gives back the
-- header and the claims (whose strings it alters where they are no UTF-8), and the token is not longer
-- than maxCapabilitySize, which Issue does not test.
pub authenticate-issue :
    (f : Formats) (s : CapabilitySigner) (public : Text)
    → KeyPair f.crypto s.private public
    → (clock : Time) (random : Option Text) (r : CapabilityIssue) (token : Text)
      (c : CapabilityClaims)
    → issue f s clock random r ≡ ok (token, c)
    → Marshals f.headers (header_of s.key_id)
    → Marshals f.claims c
    → length token ≤ max_capability_size
    → (v : CapabilityVerifier) (later : Time) → v.issuer ≡ s.issuer
    → lookup s.key_id v.keys ≡ some public
    → Open (unix later.instant) c
    → authenticate f v later token ≡ ok c
authenticate-issue f s public pair clock random r token c h mh mc size v later issuer key window =
    let i = issue-Issued f s clock random r token c h in
    let made = seal-sealed f s c token mh mc (Issued.made i) in
    subst (λ t. authenticate f v later t ≡ ok c) made
      (authenticate-sealed f v later c s.key_id s.private public (sym (Issued.key_id i)) pair mh mc
        key (subst (λ t. length t ≤ max_capability_size) (sym made) size) (Issued.valid i)
        (Issued.issuer i ∙ sym issuer) window)
