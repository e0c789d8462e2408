-- ===== src/Examples/Ledger.antt =====
-- Small node ledgers.
use brezel.Common.{
  ◌≡◌, ◌≢◌, ◌⊎◌, ◌↔◌, refl, sym, subst, true, false, [], ◌∷◌, none, some, arith, nat_eq, ok, Text,
  text_eq, text_beq, codes, east, ◌++◌, hex_decode, lookup, insert, delete, safe_name, valid_utf8,
  trim_space, runes, is_space, is_control, hex_encode,
}
use brezel.Ledger.Types.{
  ready, draining, DiskEntry, DiskState, binding_from_disk, state_beq, key_beq,
}
use brezel.Ledger.Checks.{
  validate_disk_state, check_routes, check_common, check_target, note_entry, valid_state,
  valid_engine_id, valid_route_identity, sandbox_key,
}
use brezel.Ledger.Disk.{
  Faults, persist, encoded, validated, checksum_state, write_file, decode_and_validate,
  checksum_matches,
}
use brezel.Ledger.Operations.{Ledger, active_count, refuse, open_ledger}
use brezel.Ledger.Leases.{
  acquire_operation, admit, release, release_operation, resolve_current, current_entry,
  operation_key, Lease,
}
use brezel.Ledger.Validity.{IsValid, validate_disk_state_iff}
use brezel.Ledger.Steps.{here, next, acquires}
use brezel.Ledger.Invariant.{Inv, Reach-Inv}
use brezel.Ledger.Fencing.{resolve_current-fenced}
use brezel.Ledger.Recovery.{ReadsBack}
use brezel.Examples.Codec.{
  digest, text_out, state_bytes, sample_codec, sample_codec-Keyed, sample_codec-CodecLaws,
  envelope_in, routes_in, entry_in, offset_in, state_in, state_of, text_in, first_bytes, number,
  filled,
}
use brezel.Ledger.Reopen.{open_ledger-Inv, opened_at, open_ledger-persist}
use brezel.Ledger.Release.{release-acquire_operation}

program : Unit {0}
unfolding validate_disk_state check_routes check_common check_target note_entry valid_state
    valid_engine_id valid_route_identity sandbox_key safe_name valid_utf8 trim_space runes is_space
    is_control text_beq state_beq lookup insert delete active_count refuse acquire_operation admit
    resolve_current current_entry release release_operation binding_from_disk key_beq
program = tt

reading : Unit {0}
unfolding envelope_in routes_in entry_in offset_in state_in state_of text_in first_bytes number
    filled
reading = tt

abbrev pub entry : DiskEntry
entry = record {
  route_id = codes "r1";
  project_id = codes "p";
  sandbox_id = codes "sbx";
  engine_id = codes "e1";
  generation = 1;
  state = ready;
  last_activity = record { instant = 5; offset = east 0 };
}

abbrev sample_state : DiskState
sample_state = record {
  schema_version = 1;
  last_generation = 2;
  routes = (codes "r1", entry) ∷ [];
  routes_nil = false;
}

abbrev pub sample : Ledger
sample = record { state = sample_state; active = []; lock_file = true; closed = false; disk = none }

sample_valid : validate_disk_state sample_state ≡ ok tt
unfolding program
sample_valid = refl

sample-IsValid : IsValid sample_state
sample-IsValid = (validate_disk_state_iff sample_state).0 sample_valid

pub sample-Inv : Inv sample
unfolding program
sample-Inv = record {
  well = record { valid = sample-IsValid; keyed = (tt, tt) };
  held = λ key busy. absurd (busy refl);
  drained = λ shut. refl;
}

abbrev busy_sample : Ledger
busy_sample = (acquire_operation sample (codes "r1") (codes "p") (codes "sbx") 1).0

abbrev pub sample_lease : Lease
sample_lease = record {
  key = operation_key (codes "r1") (codes "p") (codes "sbx") 1;
  outcome = none;
}

abbrev no_faults : Faults
no_faults step = false

resolve_current-fenced_example :
    (codes "r1" ≡ codes "r1")
    × (codes "p" ≡ codes "p")
    × (codes "sbx" ≡ codes "sbx")
    × (codes "e1" ≡ codes "e1")
unfolding program
resolve_current-fenced_example =
    resolve_current-fenced sample_codec sample busy_sample (codes "r1") (codes "r1") (codes "p")
      (codes "sbx") ready entry (binding_from_disk entry) sample-Inv
      (next here (acquires (codes "r1") (codes "p") (codes "sbx") 1)) refl (λ p. cc) refl

-- A state with two routes, which the codec writes and reads.
abbrev second_entry : DiskEntry
second_entry = record entry {
  route_id = codes "r2";
  sandbox_id = codes "sb2";
  engine_id = codes "e2";
  generation = 2;
  state = draining;
  last_activity = record { instant = 9; offset = east 0 };
}

abbrev two_routes : DiskState
two_routes = record sample_state { routes = (codes "r1", entry) ∷ (codes "r2", second_entry) ∷ [] }

abbrev two_routes_text : Text
two_routes_text = text_out (hex_encode digest) ++ state_bytes two_routes

ReadBack : Text → Text → Type 0
ReadBack sum bytes =
    (rest : Text) × (sample_codec.decode bytes
      ≡ some (record { state = two_routes; checksum = sum }, rest))
    × (sample_codec.at_end rest ≡ true)

two_routes-ReadsBack : ReadsBack sample_codec two_routes
unfolding program reading ReadBack checksum_state hex_encode
two_routes-ReadsBack sum bytes summed written =
    let same : hex_encode digest ≡ sum = ground arith in
    let text : two_routes_text ≡ bytes =
      subst (λ x. text_out x ++ state_bytes two_routes ≡ bytes) (sym same) (ground arith) in
    subst (λ x. ReadBack x bytes) same (subst (ReadBack (hex_encode digest)) text ([], refl, refl))

two_routes_test : (persist sample_codec no_faults two_routes none).1 ≡ ok tt
unfolding reading program persist encoded validated checksum_state hex_encode write_file
two_routes_test = refl

open_ledger-persist_example :
    (((persist sample_codec no_faults two_routes none).0 ≡ none)
      × ((persist sample_codec no_faults two_routes none).1 ≢ ok tt))
    ⊎ ((open_ledger sample_codec no_faults (persist sample_codec no_faults two_routes none).0).1
        ≡ ok (opened_at (persist sample_codec no_faults two_routes none).0 two_routes))
open_ledger-persist_example =
    open_ledger-persist sample_codec sample_codec-CodecLaws no_faults no_faults two_routes none
      two_routes-ReadsBack

open_ledger-Inv_example : Inv (opened_at (some two_routes_text) two_routes)
unfolding reading program open_ledger decode_and_validate checksum_state checksum_matches hex_encode
    hex_decode
open_ledger-Inv_example =
    open_ledger-Inv sample_codec sample_codec-Keyed no_faults (some two_routes_text)
      (opened_at (some two_routes_text) two_routes) refl

Reach-Inv_example : Inv busy_sample
Reach-Inv_example =
    Reach-Inv sample_codec (next here (acquires (codes "r1") (codes "p") (codes "sbx") 1))
      sample-Inv

release-acquire_operation_example :
    ((release busy_sample sample_lease).2 ≡ ok tt)
    × (active_count (release busy_sample sample_lease).0.active sample_lease.key ≡ 0)
    × (release (release busy_sample sample_lease).0 (release busy_sample sample_lease).1
        ≡ ((release busy_sample sample_lease).0, (release busy_sample sample_lease).1, ok tt))
unfolding program
release-acquire_operation_example =
    release-acquire_operation sample busy_sample (codes "r1") (codes "p") (codes "sbx") 1
      (binding_from_disk entry) sample_lease sample_lease.key sample-Inv refl

validate_disk_state_iff_example : (validate_disk_state sample_state ≡ ok tt) ↔ IsValid sample_state
validate_disk_state_iff_example = validate_disk_state_iff sample_state
