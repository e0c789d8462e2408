-- ===== src/Examples/Store.antt =====
-- A file store with a sandbox and an operation.
use brezel.Common.{
  ◌≡◌, ◌≢◌, ◌⊎◌, refl, subst, true, false, List, [], ◌∷◌, Option, none, some, length, ◌==◌, nat_eq,
  if◌then◌else◌, Text, text_eq, text_beq, codes, pos, Result, ok, err, insert, lookup, split_on,
  in_front, safe_name, is_alnum, is_name_byte, contains_any, trim_space, runes, is_space, int_lt,
  int_beq, int64_add, wrap_int64, seconds_of, after, hex_decode,
}
use brezel.Domain.States.{state_code, running}
use brezel.Domain.Records.{Sandbox, Operation, Event}
use brezel.Ledger.Disk.{Faults, write_file, before_replace}
use brezel.Admission.{idempotent_operation}
use brezel.Examples.Admission.{noon, store}
use brezel.Store.{
  Error, State, new_state, scoped_key, idempotency_key, require_scoped_identity, valid_assignment,
  names_operation, valid_digest, valid_state, validate_state, not_found,
}
use brezel.Store.Files.{
  Codec, FileStore, failed_disk, replace_file, when_open, get_sandbox, in_stream, sequence_after,
  next_sandbox_event_sequence, valid_event, validate_sandbox_event, eligible_at,
  advance_sandbox_activity, held, clone_event_details, clone_events, clone_state, encoded, written,
  persist, installed, update, sandbox_event, append_sandbox_event, record_activity,
  record_sandbox_activity, close, migrated, opened, decoded, open_validated, open_decoded,
  open_file,
}
use brezel.Store.Reachable.{Call, updating, recording, call, run, run-scoped}
use brezel.Store.Sequences.{Ordered, append_sandbox_event-Ordered}
use brezel.Store.Durable.{update-durable}

unfoldable pub files : Unit {0}
unfolding scoped_key idempotency_key require_scoped_identity valid_assignment names_operation
    valid_digest valid_state validate_state failed_disk replace_file when_open get_sandbox in_stream
    sequence_after next_sandbox_event_sequence valid_event validate_sandbox_event eligible_at
    advance_sandbox_activity held clone_event_details clone_events clone_state encoded written
    persist installed update sandbox_event append_sandbox_event record_activity
    record_sandbox_activity close migrated opened decoded open_validated open_decoded open_file call
    run write_file before_replace insert lookup split_on in_front safe_name is_alnum is_name_byte
    contains_any trim_space runes is_space int_lt int_beq int64_add wrap_int64 seconds_of after
    hex_decode text_beq state_code idempotent_operation
files = tt

-- A coding of two states, of the new one and of one with a sandbox.
abbrev pub codec : Codec
codec = record {
  marshal = λ s. some (length s.sandboxes ∷ []);
  unmarshal =
      λ bytes. elim bytes [ [] ↦ none | b ∷ bs ↦ if b == 0 then some new_state else some store ];
  normalize = λ details. some details;
}

abbrev pub fine : Faults
fine step = false

abbrev opened_store : FileStore
opened_store = record { state = new_state; closed = false; disk = some (0 ∷ []) }

abbrev calls : List Call
calls =
    updating fine (λ s. ok store)
    ∷ recording fine (codes "p") (codes "s1") noon
    ∷ updating (λ step. true) (λ s. ok new_state)
    ∷ []

opened_test : open_file codec fine none ≡ (some (0 ∷ []), ok opened_store)
unfolding files
opened_test = refl

run-scoped_example :
    ((project id : Text) (v : Sandbox)
      → get_sandbox (run codec calls opened_store) project id ≡ ok v
      → (v.project_id ≡ project) × (v.id ≡ id))
    × ((project kind key : Text) (op : Operation)
        → idempotent_operation (run codec calls opened_store).state project kind key ≡ some op
        → (op.project_id ≡ project) × (op.kind ≡ kind) × (op.idempotency_key ≡ key))
unfolding files
run-scoped_example = run-scoped codec fine none (some (0 ∷ [])) opened_store calls refl

other_project_test :
    get_sandbox (run codec calls opened_store) (codes "q") (codes "s1") ≡ err not_found
unfolding files
other_project_test = refl

abbrev pub stored : FileStore
stored = record { state = store; closed = false; disk = some (1 ∷ []) }

abbrev event : Event
event = record {
  id = codes "e";
  sequence = pos 0;
  project_id = codes "p";
  resource_id = codes "s1";
  operation_id = [];
  kind = codes "sandbox.running";
  state = running;
  at = noon;
  details = none;
}

append_sandbox_event-Ordered_example :
    Ordered (append_sandbox_event codec fine stored event).0.state.events
append_sandbox_event-Ordered_example =
    append_sandbox_event-Ordered codec fine stored event (record { numbered = tt; follows = tt })

abbrev filling : State → Result Error State
filling s = ok store

abbrev filled : FileStore × Result Error (Unit {0})
unfolding files
filled = update codec fine opened_store filling

update-durable_example :
    ((filled.1 ≡ ok tt)
      × (open_file codec fine filled.0.disk
          ≡ (filled.0.disk, ok (record filled.0 { closed = false }))))
    ⊎ ((filled.1 ≢ ok tt) × (filled.0.state ≡ new_state))
unfolding files
update-durable_example =
    update-durable codec fine fine opened_store filled.0 filling filled.1 refl
      (λ bytes h. subst (λ b. codec.unmarshal b ≡ some store) (bytes_lem bytes h) refl)
  where
    bytes_lem : (bytes : Text) → Path (Option Text) (some (1 ∷ [])) (some bytes) → 1 ∷ [] ≡ bytes
    bytes_lem bytes h = cc
