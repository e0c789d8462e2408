-- ===== src/Examples/Warm.antt =====
-- A strict warm pool of two slots.
use brezel.Common.{
  seconds_of, after, second, ◌+◌, ◌*◌, ◌≡◌, ◌⊎◌, refl, true, false, List, [], ◌∷◌, some, arith,
  length, All, any, Text, text_eq, text_beq, codes, pos, ok, err, ◌==◌, contains, int_lt,
  wrap_int64, int64_add, time_sub, is_alnum, contains_any, trim_space, runes, is_space,
}
use brezel.Domain.States.{running, state_code}
use brezel.Domain.Lifetimes.{full_state}
use brezel.Domain.Resources.{valid_destination}
use brezel.Warm.Slots.{
  Slot, available, slot_state_beq, in_state, update_rows, delete_row, insert_row, query_one,
  select_rows, by_creation, ordered, first_row, oldest_available, backend_taken, claim_taken,
}
use brezel.Warm.World.{
  Outside, World, CreateRequest, Event, History, statement, deleted, pure, raise, resume, ◌>>=◌,
  ◌>>◌, settled, attempt, inner_create, inner_find, inner_inspect, inner_set_timeout, inner_delete,
  now,
}
use brezel.Warm.Statements.{
  Config, ran, execute, query, rolled_back, transaction, commit, drew, random_id, inserted,
  insert_slot, insert_missing, local_ids, fill, reserve_missing, update_slot, mark_available,
  claim_slot, claim_found, begin_claim, is_claim, confirm, finish_claim, quarantine, mark_deleting,
  retire_available, find_claim, find_backend, list_states, remove, close,
}
use brezel.Warm.Methods.{
  is_running, unless_missing, of_inner, expect, whether, quarantined, destroyed, discard,
  create_recovered, create_answered, create_slot, joined, create_reserved, refill,
  refill_after_failure, expiring, recover_found, recover_creating_slot, recover_inspected,
  recover_slot, recover_slots, recover, prime, retired, maintain_slot, maintain_slots, maintain,
}
use brezel.Warm.Serving.{
  is_template_byte, safe_template_id, outlives_slot, accepted_config, same_texts, same_network,
  is_empty, seconds_left, eligible, abandoned, give_up, reset_claim, verify_claim, complete_claim,
  create_inner, oversubscribed, claim_or_create, serve_claim, serve_fresh, serve, create,
  find_remote, find, delete_slot, delete_remote,
}
use brezel.Warm.Calls.{Call, priming, maintenance, creation, call, run}
use brezel.Warm.Backing.{created_ids, reserved_ids}
use brezel.Warm.Differing.{published_ids, claimed_ids, Distinct}
use brezel.Warm.Single.{run_single_use}
use brezel.Warm.Destruction.{Confirmed, discard-destroys, delete_remote-destroys}

warm : Unit {0}
unfolding slot_state_beq in_state update_rows delete_row insert_row query_one select_rows
    by_creation ordered first_row oldest_available backend_taken claim_taken pure raise resume ◌>>=◌
    ◌>>◌ settled attempt inner_create inner_find inner_inspect inner_set_timeout inner_delete now
    seconds_of after ran execute query rolled_back transaction commit drew random_id inserted
    insert_slot insert_missing fill reserve_missing update_slot mark_available claim_slot
    claim_found begin_claim is_claim confirm finish_claim quarantine mark_deleting retire_available
    find_claim find_backend list_states remove is_running unless_missing of_inner expect whether
    quarantined destroyed discard create_recovered create_answered create_slot joined
    create_reserved refill refill_after_failure expiring recover_found recover_creating_slot
    recover_inspected recover_slot recover_slots recover prime retired maintain_slot maintain_slots
    maintain is_template_byte safe_template_id outlives_slot accepted_config same_texts same_network
    is_empty seconds_left eligible abandoned give_up reset_claim verify_claim complete_claim
    create_inner oversubscribed claim_or_create serve_claim serve_fresh serve create find_remote
    find delete_slot delete_remote call run published_ids claimed_ids created_ids reserved_ids
    local_ids text_beq state_code int_lt wrap_int64 int64_add time_sub is_alnum close
    valid_destination trim_space runes is_space contains_any
warm = tt

abbrev config : Config
config = record {
  target = 2;
  template_id = codes "python";
  slot_ttl = 3600 * second;
  max_claim_ttl = 600 * second;
  prime_concurrency = 1;
  network = record { allow_internet = false; deny_out = []; allow_out = [] };
  strict = true;
}

-- Each sandbox of the backend has the id that it was created for, and every call succeeds.
abbrev outside : Outside
outside = record {
  now = λ h. 10_000 * second + length h;
  faulty = λ h. false;
  random = λ h. some (length h ∷ []);
  on_create = λ h request. ok (record { id = request.local_sandbox_id; state = running });
  on_find = λ h local project. err brezel.Warm.World.not_found;
  on_inspect = λ h id. ok (record { id = id; state = running });
  on_set_timeout = λ h id seconds. ok tt;
  on_delete = λ h id. ok tt;
}

abbrev request : CreateRequest
request = record {
  local_sandbox_id = codes "box";
  project_id = codes "ada";
  template_id = codes "python";
  lifecycle = record {
    standby_after_seconds = pos 0;
    standby_grace_seconds = pos 0;
    expires_after_seconds = pos 60;
    standby_checkpoint = full_state;
    auto_resume = false;
  };
  network = record { allow_internet = false; deny_out = []; allow_out = [] };
  environment = [];
  workspace_mounts = [];
}

abbrev start : World
start = record { rows = []; closed = false; history = [] }

abbrev traffic : List Call
traffic = priming ∷ creation request ∷ maintenance ∷ []

accepted_test : accepted_config config ≡ true
unfolding warm
accepted_test = refl

-- The sandbox that the traffic hands out.
abbrev handed : Text
handed = 119 ∷ 97 ∷ 114 ∷ 109 ∷ 95 ∷ 6 ∷ []

claimed_test : claimed_ids (run outside config traffic start).history ≡ handed ∷ []
unfolding warm
claimed_test = refl

created_test : length (created_ids (run outside config traffic start).history) ≡ 2
unfolding warm
created_test = refl

run_single_use_example :
    Distinct (claimed_ids (run outside config traffic start).history)
    × All
        (λ s.
          s.state ≡ available
          → contains s.backend_id (claimed_ids (run outside config traffic start).history) ≡ false)
        (run outside config traffic start).rows
unfolding warm
run_single_use_example =
    run_single_use outside config traffic start refl refl (((λ p. ground arith, tt)), (tt, tt))

abbrev expired : Slot
expired = record {
  id = codes "wps_1";
  backend_id = codes "warm_2";
  local_id = codes "warm_2";
  state = available;
  claim_project_id = [];
  claim_sandbox_id = [];
  created_at = 5;
  expires_at = 10;
  claim_expires_at = 0;
}

abbrev stocked : World
stocked = record { rows = expired ∷ []; closed = false; history = [] }

discard-destroys_example :
    (h : History) × ((discard outside config expired stocked).0.history ≡ statement ∷ h)
    × ((codes "warm_2" ≡ []) ⊎ Confirmed (codes "warm_2") h)
    × (any (λ r. r.id == codes "wps_1") (discard outside config expired stocked).0.rows ≡ false)
unfolding warm
discard-destroys_example =
    discard-destroys outside config expired stocked (discard outside config expired stocked).0 refl

delete_remote-destroys_example :
    Confirmed (codes "warm_2") (delete_remote outside config (codes "warm_2") stocked).0.history
unfolding warm
delete_remote-destroys_example =
    delete_remote-destroys outside config (codes "warm_2") stocked
      (delete_remote outside config (codes "warm_2") stocked).0 refl

-- `MaxClaimTTL+claimSafety` leaves the range of an int64, and New takes the configuration.
wrapped_test :
    accepted_config
      (record config { max_claim_ttl = 9_223_372_036 * second; slot_ttl = 3600 * second })
    ≡ true
unfolding warm
wrapped_test = refl
