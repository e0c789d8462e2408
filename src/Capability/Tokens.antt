-- ===== src/Capability/Tokens.antt =====
-- internal/node/capability.go: the signer and the verifier. encoding/json and crypto/ed25519 are
-- parameters; the error text of a wrapped sentinel is dropped.
use brezel.Common.{
  ℕ, ◌+◌, ◌*◌, ◌/◌, ◌%◌, Bool, true, false, not, ◌&&◌, ◌||◌, List, [], ◌∷◌, ◌++◌, Option, none,
  some, ltb, leb, ◌==◌, nat_eq, if◌then◌else◌, length, lookup, insert, ℤ, pos, negsuc, int_lt,
  int64_sub, Text, text_eq, codes, base64_encode, base64_decode, split_on, Result, ok, err, ◌>>◌,
  ◌>>=◌, require, or_fail, Time, is_zero,
}
use brezel.Capability.{
  Error, not_initialized, malformed, invalid, unknown_key, invalid_signature, not_yet_valid,
  expired, mismatch, no_random, no_encoding, bad_identity, bad_key, no_keys, CapabilityBounds,
  CapabilityHeader, CapabilityClaims, CapabilityExpected, max_capability_size, max_capability_ttl,
  capability_version,
}
use brezel.Capability.Claims.{
  valid_operation, valid_identity, equal_digest, validate_capability_claims, validate_expected,
}

-- encoding/json for a type `A`: `decode` is the first value that a Decoder with
-- DisallowUnknownFields reads, with whether a second Decode reports io.EOF.
pub record Json (A : Type 0) : Type 0 where
  pub decode : Text → Option (A × Bool)
  pub marshal : A → Option Text

pub record Crypto : Type 0 where
  pub sign : Text → Text → Text
  pub verify : Text → Text → Text → Bool
  -- SHA-256
  pub hash : Text → Text

pub record Formats : Type 0 where
  pub headers : Json CapabilityHeader
  pub claims : Json CapabilityClaims
  pub crypto : Crypto

abbrev pub token_type : Text
token_type = codes "BREZEL-NODE-CAPABILITY"

abbrev pub token_algorithm : Text
token_algorithm = codes "EdDSA"

abbrev pub sign_domain : Text
sign_domain = codes "brezel.node.capability.v1" ++ 0 ∷ []

unfoldable pub capability_message : Text → Text
capability_message signing_input = sign_domain ++ signing_input

abbrev pub digest_domain : Text
digest_domain = codes "brezel.node.request.v1" ++ 0 ∷ []

unfoldable pub request_digest : Crypto → Text → Text → Result Error Text
request_digest crypto operation canonical_request =
    require (valid_operation operation) invalid
    >> ok (base64_encode (crypto.hash (digest_domain ++ operation ++ 0 ∷ canonical_request)))

unfoldable pub decode_canonical_segment : {A : Type 0} → Json A → Text → Option A
decode_canonical_segment json segment = elim (base64_decode segment) [
  | none ↦ none
  | some decoded ↦ elim (json.decode decoded) [
    | none ↦ none
    | some (value, last) ↦ elim (json.marshal value) [
      | none ↦ none
      | some canonical ↦ if last && canonical == decoded then some value else none
    ]
  ]
]

abbrev pub dot : ℕ
dot = b'.'

-- strings.Split(token, ".")
unfoldable pub split_dots : Text → List Text
split_dots s = split_on dot s

pub record Segments : Type 0 where
  pub header : Text
  pub claims : Text
  pub signature : Text

unfoldable pub three_parts : List Text → Option Segments
three_parts (a ∷ b ∷ c ∷ []) =
    if a == [] || (b == [] || c == [])
    then none
    else some (record { header = a; claims = b; signature = c })
three_parts _ = none

pub record CapabilityVerifier : Type 0 where
  pub issuer : Text
  pub keys : List (Text × Text)

unfoldable pub copy_keys : List (Text × Text) → Result Error (List (Text × Text))
copy_keys [] = ok []
copy_keys ((key_id, public) ∷ keys) =
    require (valid_identity key_id) bad_identity
    >> (require (length public == 32) bad_key
        >> (copy_keys keys >>= λ copied. ok (insert key_id public copied)))

unfoldable pub new_capability_verifier : Text → List (Text × Text) → Result Error CapabilityVerifier
new_capability_verifier issuer keys =
    require (valid_identity issuer) bad_identity
    >> (require (not (length keys == 0)) no_keys
        >> (copy_keys keys >>= λ copied. ok (record { issuer = issuer; keys = copied })))

abbrev pub second : ℕ
second = 1000000000

-- `t.Unix()` for a time that many nanoseconds after the zero time
unfoldable pub unix : ℕ → ℤ
unix t = int64_sub (pos (t / second)) (pos 62135596800)

-- `now < claims.IssuedAt || now < claims.NotBefore`, and the expiry
unfoldable pub within_window : ℤ → CapabilityClaims → Result Error (Unit {0})
within_window now c =
    require (not (int_lt now c.issued_at || int_lt now c.not_before)) not_yet_valid
    >> require (int_lt now c.expires_at) expired

-- The end of Authenticate, on the decoded claims
unfoldable pub check_claims :
    CapabilityVerifier → ℤ → Text → CapabilityClaims → Result Error CapabilityClaims
check_claims v now key_id c =
    require (key_id == c.key_id) invalid
    >> (validate_capability_claims c
        >> (require (c.issuer == v.issuer) mismatch >> (within_window now c >> ok c)))

-- The signature and what it covers
unfoldable pub check_signature : Crypto → Text → Segments → Result Error (Unit {0})
check_signature crypto public s = or_fail (base64_decode s.signature) malformed >>= λ signature.
    require (length signature == 64) malformed
    >> require (crypto.verify public (capability_message (s.header ++ dot ∷ s.claims)) signature)
        invalid_signature

unfoldable pub authenticate :
    Formats → CapabilityVerifier → Time → Text → Result Error CapabilityClaims
authenticate f v clock token =
    require (not (length v.keys == 0)) not_initialized
    >> (require (not (length token == 0) && leb (length token) max_capability_size) malformed
        >> (or_fail (three_parts (split_dots token)) malformed >>= λ s.
            or_fail (decode_canonical_segment f.headers s.header) malformed >>= λ header.
            require (header.type == token_type && header.algorithm == token_algorithm) invalid
            >> (or_fail (lookup header.key_id v.keys) unknown_key >>= λ public.
                check_signature f.crypto public s
                >> (or_fail (decode_canonical_segment f.claims s.claims) malformed >>= λ claims.
                    check_claims v (unix clock.instant) header.key_id claims))))

unfoldable pub first_is : List Text → Text → Bool
first_is [] operation = false
first_is (o ∷ os) operation = o == operation

unfoldable pub same_request : CapabilityClaims → CapabilityExpected → Bool
same_request c e =
    c.audience == e.audience
    && (c.node_id == e.node_id
        && (c.boot_epoch == e.boot_epoch
            && (c.route_id == e.route_id
                && (c.generation == e.generation
                    && (c.project_id == e.project_id
                        && (c.sandbox_id == e.sandbox_id
                            && (first_is c.operations e.operation
                                && equal_digest c.request_digest e.request_digest)))))))

unfoldable pub is_ok : {A : Type 0} → Result Error A → Bool
is_ok (ok value) = true
is_ok (err why) = false

-- Match
unfoldable pub match_claims :
    CapabilityVerifier → CapabilityClaims → CapabilityExpected → Result Error (Unit {0})
match_claims v c e =
    require (not (length v.keys == 0)) not_initialized
    >> (require (is_ok (validate_capability_claims c) && c.issuer == v.issuer) mismatch
        >> (validate_expected e >> require (same_request c e) mismatch))

unfoldable pub verify :
    Formats → CapabilityVerifier → Time → Text → CapabilityExpected → Result Error CapabilityClaims
verify f v clock token e =
    authenticate f v clock token >>= λ claims. match_claims v claims e >> ok claims

pub record CapabilitySigner : Type 0 where
  pub issuer : Text
  pub key_id : Text
  pub private : Text

unfoldable pub new_capability_signer : Text → Text → Text → Result Error CapabilitySigner
new_capability_signer issuer key_id private =
    require (valid_identity issuer) bad_identity
    >> (require (valid_identity key_id) bad_identity
        >> (require (length private == 64) bad_key
            >> ok (record { issuer = issuer; key_id = key_id; private = private })))

pub record CapabilityIssue : Type 0 where
  pub audience : Text
  pub node_id : Text
  pub boot_epoch : Text
  pub route_id : Text
  pub generation : ℕ
  pub project_id : Text
  pub sandbox_id : Text
  pub operation : Text
  pub request_digest : Text
  pub bounds : CapabilityBounds
  -- In nanoseconds
  pub ttl : ℤ
  pub not_before : Time

-- `request.TTL < time.Second || request.TTL > MaxCapabilityTTL || request.TTL%time.Second != 0`
unfoldable pub whole_ttl : ℤ → Option ℕ
whole_ttl (pos n) =
    if ltb n second || (ltb (max_capability_ttl * second) n || not (n % second == 0))
    then none
    else some n
whole_ttl (negsuc n) = none

-- `t.UTC().Truncate(time.Second)`, as its instant
abbrev pub truncated : Time → ℕ
truncated t = t.instant / second * second

unfoldable pub issued_claims :
    CapabilitySigner → CapabilityIssue → ℕ → ℕ → ℕ → Text → CapabilityClaims
issued_claims s r now not_before expires nonce = record {
  version = pos capability_version;
  key_id = s.key_id;
  issuer = s.issuer;
  audience = r.audience;
  node_id = r.node_id;
  boot_epoch = r.boot_epoch;
  route_id = r.route_id;
  generation = r.generation;
  project_id = r.project_id;
  sandbox_id = r.sandbox_id;
  jti = base64_encode nonce;
  operations = r.operation ∷ [];
  request_digest = r.request_digest;
  issued_at = unix now;
  not_before = unix not_before;
  expires_at = unix expires;
  bounds = r.bounds;
}

-- The end of Issue: the encoding and the signature
unfoldable pub seal :
    Formats → CapabilitySigner → CapabilityClaims → Result Error (Text × CapabilityClaims)
seal f s claims =
    or_fail
      (f.headers.marshal
        (record { type = token_type; algorithm = token_algorithm; key_id = s.key_id }))
      no_encoding
    >>= λ header. or_fail (f.claims.marshal claims) no_encoding >>= λ body.
        let input = base64_encode header ++ dot ∷ base64_encode body in
        ok (
          input ++ dot ∷ base64_encode (f.crypto.sign s.private (capability_message input)),
          claims,
        )

-- Issue at the time `clock`, with the bytes that the random source gives
unfoldable pub issue :
    Formats
    → CapabilitySigner
    → Time
    → Option Text
    → CapabilityIssue
    → Result Error (Text × CapabilityClaims)
issue f s clock random r =
    require (length s.private == 64) not_initialized
    >> (or_fail (whole_ttl r.ttl) invalid >>= λ ttl.
        let now = truncated clock in
        let not_before = if is_zero r.not_before then now else truncated r.not_before in
        require (not (ltb not_before now) && ltb not_before (now + ttl)) invalid
        >> (or_fail random no_random >>= λ nonce.
            let claims = issued_claims s r now not_before (now + ttl) nonce in
            validate_capability_claims claims >> seal f s claims))
