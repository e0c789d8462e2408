-- ===== src/Capability/Claims.antt =====
-- internal/node/capability.go: validateCapabilityClaims, validateExpected, validateBounds and the
-- tests they use. Go ranges over a map of the identities, in no fixed order; every identity's error
-- is the same sentinel, so the order makes no difference here.
use brezel.Common.{
  ℕ, Bool, false, not, ◌&&◌, ◌||◌, List, [], ◌∷◌, none, some, ltb, leb, ◌==◌, nat_eq, if◌then◌else◌,
  length, any, all, ℤ, pos, int_lt, int_beq, int64_sub, Text, text_eq, trim_space, runes,
  base64_encode, base64_decode, Result, err, ◌>>◌, require,
}
use brezel.Capability.{
  Error, invalid, mismatch, CapabilityBounds, CapabilityClaims, CapabilityExpected, run_command,
  read_file, write_file, proxy_port, web_socket, max_operation_millis, max_capability_bytes,
  max_capability_ttl, capability_version,
}

unfoldable pub valid_operation : Text → Bool
valid_operation operation =
    any (λ known. operation == known)
      (run_command ∷ read_file ∷ write_file ∷ proxy_port ∷ web_socket ∷ [])

-- validateIdentity
unfoldable pub valid_identity : Text → Bool
valid_identity value =
    not (value == [])
    && (leb (length value) 256
        && (trim_space value == value
            && all (λ r. not (ltb r.point 32 || r.point == 127)) (runes value)))

unfoldable pub valid_encoded_size : Text → ℕ → Bool
valid_encoded_size value size = elim (base64_decode value) [
  | none ↦ false
  | some decoded ↦ length decoded == size && base64_encode decoded == value
]

-- equalDigest
unfoldable pub equal_digest : Text → Text → Bool
equal_digest left right = elim (base64_decode left) [
  | none ↦ false
  | some l ↦ elim (base64_decode right) [
    | none ↦ false
    | some r ↦ length l == 32 && (length r == 32 && l == r)
  ]
]

abbrev is_negative : ℤ → Bool
is_negative v = int_lt v (pos 0)

abbrev is_nil : ℤ → Bool
is_nil v = int_beq v (pos 0)

-- The first test of validateBounds
unfoldable pub out_of_range : CapabilityBounds → Bool
out_of_range b =
    is_negative b.max_duration_millis
    || (int_lt (pos max_operation_millis) b.max_duration_millis
        || (is_negative b.max_request_bytes
            || (int_lt (pos max_capability_bytes) b.max_request_bytes
                || (is_negative b.max_response_bytes
                    || (int_lt (pos max_capability_bytes) b.max_response_bytes
                        || ltb 65535 b.port)))))

unfoldable pub bounds_fit : Text → CapabilityBounds → Bool
bounds_fit operation b =
    if operation == run_command
    then not (
        is_nil b.max_duration_millis
        || (is_nil b.max_response_bytes || (not (is_nil b.max_request_bytes) || not (b.port == 0))))
    else if operation == read_file
    then not (
        is_nil b.max_response_bytes
        || (not (is_nil b.max_duration_millis)
            || (not (is_nil b.max_request_bytes) || not (b.port == 0))))
    else if operation == write_file
    then not (
        is_nil b.max_request_bytes
        || (not (is_nil b.max_duration_millis)
            || (not (is_nil b.max_response_bytes) || not (b.port == 0))))
    else if operation == proxy_port
    then not (
        b.port == 0
        || (is_nil b.max_duration_millis
            || (is_nil b.max_request_bytes || is_nil b.max_response_bytes)))
    else if operation == web_socket
    then not (
        b.port == 0
        || (is_nil b.max_duration_millis
            || (is_nil b.max_request_bytes || is_nil b.max_response_bytes)))
    else false

-- validateBounds
unfoldable pub valid_bounds : Text → CapabilityBounds → Bool
valid_bounds operation b = not (out_of_range b) && bounds_fit operation b

unfoldable pub valid_lifetime : CapabilityClaims → Bool
valid_lifetime c = not (
    not (int_lt (pos 0) c.issued_at)
    || (int_lt c.not_before c.issued_at
        || (not (int_lt c.not_before c.expires_at)
            || int_lt (pos max_capability_ttl) (int64_sub c.expires_at c.issued_at))))

-- `len(claims.Operations) != 1 || !validOperation(claims.Operations[0])`, then the tests after it,
-- of which the last reads the operation again.
unfoldable pub validate_operation : CapabilityClaims → List Text → Result Error (Unit {0})
validate_operation c [] = err invalid
validate_operation c (operation ∷ []) =
    require (valid_operation operation) invalid
    >> (require (valid_encoded_size c.jti 16) invalid
        >> (require (valid_encoded_size c.request_digest 32) invalid
            >> (require (valid_lifetime c) invalid
                >> require (valid_bounds operation c.bounds) invalid)))
validate_operation c (operation ∷ more ∷ rest) = err invalid

abbrev pub identities : CapabilityClaims → List Text
identities c =
    c.key_id ∷ c.issuer ∷ c.audience ∷ c.node_id ∷ c.boot_epoch ∷ c.route_id ∷ c.project_id
    ∷ c.sandbox_id ∷ []

unfoldable pub validate_capability_claims : CapabilityClaims → Result Error (Unit {0})
validate_capability_claims c =
    require (int_beq c.version (pos capability_version)) invalid
    >> (require (all valid_identity (identities c)) invalid
        >> (require (not (c.generation == 0)) invalid >> validate_operation c c.operations))

abbrev pub expected_identities : CapabilityExpected → List Text
expected_identities e =
    e.audience ∷ e.node_id ∷ e.boot_epoch ∷ e.route_id ∷ e.project_id ∷ e.sandbox_id ∷ []

abbrev pub valid_context : CapabilityExpected → Bool
valid_context e =
    not (e.generation == 0)
    && (valid_operation e.operation && valid_encoded_size e.request_digest 32)

unfoldable pub validate_expected : CapabilityExpected → Result Error (Unit {0})
validate_expected e =
    require (all valid_identity (expected_identities e)) mismatch
    >> require (valid_context e) mismatch
