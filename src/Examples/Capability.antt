-- ===== src/Examples/Capability.antt =====
-- A capability for one command, with a codec that knows one header and one body, and signatures that
-- hold the first byte of the key.
use brezel.Common.{
  ℕ, zero, suc, ◌≡◌, ◌*◌, ◌+◌, refl, [], ◌∷◌, ◌++◌, none, some, arith, lookup, insert, ok, Text,
  text_eq, text_beq, codes, trim_space, runes, is_space, Time, east, base64_encode, split_on,
  in_front, base64_decode, pos, int_lt, int_beq, int64_sub, wrap_int64, true, ◌==◌, nat_eq,
  if◌then◌else◌,
}
use brezel.Capability.{CapabilityClaims, CapabilityExpected, run_command}
use brezel.Capability.Claims.{
  valid_operation, valid_identity, valid_encoded_size, valid_lifetime, valid_bounds, bounds_fit,
  out_of_range, validate_operation, validate_capability_claims, equal_digest, validate_expected,
}
use brezel.Capability.Tokens.{
  Formats, CapabilityVerifier, CapabilitySigner, CapabilityIssue, authenticate, match_claims,
  verify, check_claims, check_signature, within_window, same_request, first_is, is_ok, three_parts,
  split_dots, decode_canonical_segment, capability_message, unix, issue, issued_claims, seal,
  whole_ttl,
}
use brezel.Capability.Authority.{Authentic, Requested, DecodesInt64, verify-authority}
use brezel.Common.{◌↔◌}
use brezel.Capability.Validity.{IsValid}
use brezel.Capability.Acceptance.{validate_capability_claims_iff}
use brezel.Capability.Parts.{KeyPair}
use brezel.Capability.Tickets.{header_of, authenticate-issue}

capability : Unit {0}
unfolding lookup insert text_beq trim_space runes is_space base64_encode base64_decode int_lt
    int_beq int64_sub wrap_int64 valid_operation valid_identity valid_encoded_size valid_lifetime
    valid_bounds bounds_fit out_of_range validate_operation validate_capability_claims equal_digest
    validate_expected authenticate match_claims verify check_claims check_signature within_window
    same_request first_is is_ok three_parts split_dots split_on in_front decode_canonical_segment
    capability_message unix issue issued_claims seal whole_ttl
capability = tt

abbrev pub repeat : ℕ → Text
repeat zero = []
repeat (suc n) = 7 ∷ repeat n

abbrev pub claims : CapabilityClaims
claims = record {
  version = pos 1;
  key_id = codes "k";
  issuer = codes "i";
  audience = codes "a";
  node_id = codes "n";
  boot_epoch = codes "b";
  route_id = codes "r1";
  generation = 1;
  project_id = codes "p";
  sandbox_id = codes "sbx";
  jti = base64_encode (repeat 16);
  operations = run_command ∷ [];
  request_digest = base64_encode (repeat 32);
  issued_at = pos 100;
  not_before = pos 100;
  expires_at = pos 120;
  bounds = record {
    max_duration_millis = pos 5;
    max_request_bytes = pos 0;
    max_response_bytes = pos 9;
    port = 0;
  };
}

abbrev pub formats : Formats
formats = record {
  headers = record {
    decode = λ t. if t == 1 ∷ [] then some (header_of (codes "k"), true) else none;
    marshal = λ h. some (1 ∷ []);
  };
  claims = record {
    decode = λ t. if t == 2 ∷ [] then some (claims, true) else none;
    marshal = λ c. some (2 ∷ []);
  };
  crypto = record {
    sign = λ key message. repeat 64;
    verify = λ key message signature. signature == repeat 64;
    hash = λ t. repeat 32;
  };
}

abbrev pub verifier : CapabilityVerifier
verifier = record { issuer = codes "i"; keys = (codes "k", repeat 32) ∷ [] }

abbrev expected : CapabilityExpected
expected = record {
  audience = codes "a";
  node_id = codes "n";
  boot_epoch = codes "b";
  route_id = codes "r1";
  generation = 1;
  project_id = codes "p";
  sandbox_id = codes "sbx";
  operation = run_command;
  request_digest = base64_encode (repeat 32);
}

abbrev pub at : ℕ → Time
at seconds = record { instant = (62135596800 + seconds) * 1000000000; offset = east 0 }

abbrev pub token : Text
token =
    (base64_encode (1 ∷ []) ++ b'.' ∷ base64_encode (2 ∷ [])) ++ b'.' ∷ base64_encode (repeat 64)

pub decodes : DecodesInt64 formats
unfolding capability
decodes segment c h = ground arith

verify-authority_example :
    Authentic formats verifier (at 110) token claims × Requested claims expected
unfolding capability
verify-authority_example =
    verify-authority formats decodes verifier (at 110) token expected claims refl

abbrev signer : CapabilitySigner
signer = record { issuer = codes "i"; key_id = codes "k"; private = repeat 64 }

abbrev request : CapabilityIssue
request = record {
  audience = codes "a";
  node_id = codes "n";
  boot_epoch = codes "b";
  route_id = codes "r1";
  generation = 1;
  project_id = codes "p";
  sandbox_id = codes "sbx";
  operation = run_command;
  request_digest = base64_encode (repeat 32);
  bounds = CapabilityClaims.bounds claims;
  ttl = pos 20000000000;
  not_before = record { instant = 0; offset = east 0 };
}

pair : KeyPair (Formats.crypto formats) (repeat 64) (repeat 32)
unfolding capability
pair = record { verifies = λ m. refl; size = λ m. refl; bytes = λ m. ground arith }

authenticate-issue_example : authenticate formats verifier (at 119) token ≡ ok claims
unfolding capability
authenticate-issue_example =
    authenticate-issue formats signer (repeat 32) pair (at 100) (some (repeat 16)) request token
      claims refl
      (record {
        text = 1 ∷ [];
        marshal = refl;
        decode = refl;
        bytes = (omega arith, tt);
        some_text = λ e. cc;
      })
      (record {
        text = 2 ∷ [];
        marshal = refl;
        decode = refl;
        bytes = (omega arith, tt);
        some_text = λ e. cc;
      })
      (ground arith) verifier (at 119) refl refl
      (record { issued = refl; started = refl; live = refl })

validate_capability_claims_iff_example :
    (validate_capability_claims claims ≡ ok tt) ↔ IsValid claims
validate_capability_claims_iff_example = validate_capability_claims_iff claims (ground arith)
