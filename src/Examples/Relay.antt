-- ===== src/Examples/Relay.antt =====
-- A relay with one route, and a request for it.
use brezel.Common.{
  ℕ, ◌+◌, ◌*◌, ◌≡◌, refl, false, [], ◌∷◌, ◌++◌, some, lookup, insert, delete, err, Text, text_eq,
  text_beq, codes, east, trim_space, runes, is_space, contains_any, has_prefix, base64_encode,
  base64_decode, split_on, in_front, int_lt, int_beq, int64_sub, wrap_int64, safe_name,
}
use brezel.Ledger.Types.{state_beq, key_beq, binding_from_disk}
use brezel.Ledger.Operations.{active_count, refuse}
use brezel.Ledger.Checks.{valid_route_identity}
use brezel.Ledger.Leases.{
  acquire_operation, admit, release, release_operation, current_entry, held_entry, operation_key,
}
use brezel.Replay.{
  use_jti, push, purge, purged, consume, is_used, valid_identifier, drop_expired, recorded,
}
use brezel.Capability.{CapabilityClaims, run_command}
use brezel.Capability.Claims.{
  valid_operation, valid_identity, valid_encoded_size, valid_lifetime, valid_bounds, bounds_fit,
  out_of_range, validate_operation, validate_capability_claims, equal_digest, validate_expected,
}
use brezel.Capability.Tokens.{
  authenticate, match_claims, check_claims, check_signature, within_window, same_request, first_is,
  is_ok, three_parts, split_dots, decode_canonical_segment, capability_message, unix,
}
use brezel.Capability.Authority.{Authentic}
use brezel.Relay.{
  RelayServer, RelayAuthorization, SandboxBinding, capability_rejected, relay_capability,
  relay_route_id, own_claims, checked_claims, authenticate_request, from_unix, bindable_id,
  bindable, bind_authorized_sandbox, ledger_refusal, release_lease, sole_operation, handed_out,
  spent, leased, after_acquire, authorize_request,
}
use brezel.Relay.Admission.{authorize_request-refused}
use brezel.Relay.Authority.{Admitted, authorize_request_sound}
use brezel.Examples.Ledger.{sample, sample-Inv, sample_lease}
use brezel.Examples.Capability.{claims, formats, verifier, token, at, decodes, repeat}

relay : Unit {0}
unfolding lookup insert delete text_beq trim_space runes is_space contains_any has_prefix
    base64_encode base64_decode split_on in_front int_lt int_beq int64_sub wrap_int64 safe_name
    state_beq key_beq binding_from_disk active_count refuse valid_route_identity acquire_operation
    admit release release_operation current_entry held_entry use_jti push purge purged consume
    is_used valid_identifier drop_expired recorded valid_operation valid_identity valid_encoded_size
    valid_lifetime valid_bounds bounds_fit out_of_range validate_operation
    validate_capability_claims equal_digest validate_expected authenticate match_claims check_claims
    check_signature within_window same_request first_is is_ok three_parts split_dots
    decode_canonical_segment capability_message unix relay_capability relay_route_id own_claims
    checked_claims authenticate_request from_unix bindable_id bindable bind_authorized_sandbox
    ledger_refusal release_lease sole_operation handed_out spent leased after_acquire
    authorize_request
relay = tt

abbrev server : RelayServer
server = record {
  node_id = codes "n";
  boot_epoch = codes "b";
  audience = codes "a";
  ledger = sample;
  verifier = verifier;
  replay = record { used = []; expires = []; max_live = 4 };
  draining = false;
}

abbrev authorization : RelayAuthorization
authorization = record { route_id = codes "r1"; claims = claims }

abbrev now : ℕ
now = (62135596800 + 110) * 1000000000

abbrev after : RelayServer
after = (authorize_request server authorization (base64_encode (repeat 32)) now now).0

abbrev binding : SandboxBinding
binding = record {
  project_id = codes "p";
  sandbox_id = codes "sbx";
  backend_id = codes "e1";
  revision = 1;
  expires_at = record { instant = (62135596800 + 120) * 1000000000; offset = east 0 };
}

authorize_request_sound_example :
    ((t : Text) × (relay_capability ((codes "BrezelCapability " ++ token) ∷ []) ≡ some t)
      × Authentic formats verifier (at 110) t claims)
    × (CapabilityClaims.operations claims ≡ run_command ∷ [])
    × Admitted server after authorization (base64_encode (repeat 32)) binding
unfolding relay
authorize_request_sound_example =
    authorize_request_sound formats decodes server after (at 110) (codes "r1" ∷ [])
      ((codes "BrezelCapability " ++ token) ∷ []) run_command authorization
      (base64_encode (repeat 32)) now now binding sample_lease refl refl

-- A request with another digest is refused, after the lease was taken.
refused_test :
    (authorize_request server authorization (base64_encode (codes "")) now now).1
    ≡ err capability_rejected
unfolding relay
refused_test = refl

authorize_request-refused_example :
    active_count
      (authorize_request server authorization (base64_encode (codes "")) now now).0.ledger.active
      (operation_key (codes "r1") (codes "p") (codes "sbx") 1)
    ≡ active_count sample.active (operation_key (codes "r1") (codes "p") (codes "sbx") 1)
unfolding relay
authorize_request-refused_example =
    authorize_request-refused server authorization (base64_encode (codes "")) now now
      capability_rejected (operation_key (codes "r1") (codes "p") (codes "sbx") 1) sample-Inv refl
