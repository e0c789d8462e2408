-- ===== src/Examples/Controller.antt =====
-- A controller with one sandbox, which is paused.
use brezel.Common.{◌≡◌, refl, true, List, [], ◌∷◌, none, some, codes, length, ok}
use brezel.Domain.States.{pausing, standby, can_transition}
use brezel.Examples.Admission.{noon, running_sandbox}
use brezel.Examples.Store.{codec, fine, stored, files}
use brezel.Store.{scoped_key}
use brezel.Domain.Records.{Operation}
use brezel.Controller.Types.{
  Outside, is_key_byte, safe_idempotency_key, require_mutation, same_state, event_for, append_event,
  put_sandbox, put_operation, put_idempotency, guests_of, has_active_guest_operations,
}
use brezel.Controller.Transitions.{
  moved, new_operation, Called, translate_store, translated, find_sandbox, after_write,
  lookup_idempotency, begin_write, begin_with, begin_transition, end_write, noted,
  complete_transition,
}
use brezel.Controller.Actions.{
  remove_key, free_to_move, reread, begin_moved, checked, replay_or, begin_action, end_action,
}
use brezel.Controller.Guests.{may_serve, acquire_guest_operation}
use brezel.Controller.Worlds.{
  World, Act, pause, ending, acquiring, started, at_index, without, ended, step, run,
}
use brezel.Controller.Writes.{state_at}
use brezel.Controller.Stored.{begin_transition-finds}
use brezel.Controller.Reached.{Fenced, run-Fenced}

unfoldable pub controller : Unit {0}
unfolding files can_transition is_key_byte safe_idempotency_key require_mutation same_state
    event_for append_event put_sandbox put_operation put_idempotency guests_of
    has_active_guest_operations translate_store translated find_sandbox after_write
    lookup_idempotency begin_write begin_with begin_transition end_write noted complete_transition
    remove_key free_to_move reread begin_moved checked replay_or begin_action end_action may_serve
    acquire_guest_operation started at_index without ended step run
controller = tt

abbrev pub outside : Outside
outside = record { now = noon; op_id = some (codes "op_1"); event_id = codes "evt_1"; fails = fine }

abbrev waiting : World
waiting = record {
  service = record {
    files = stored;
    active_guest_ops = [];
    active_guest_ops_by_project = [];
    active_backend_mutations = [];
    recent_activity = [];
  };
  pending = [];
}

abbrev pausing_s1 : List (Outside × Act)
pausing_s1 =
    (outside, pause (codes "p") (codes "s1") (codes "pause-s1-now"))
    ∷ (outside, pause (codes "p") (codes "s1") (codes "again-s1-now"))
    ∷ (outside, acquiring 4 (codes "p") (codes "s1") (codes "guest"))
    ∷ []

one_waits_test : length (run codec pausing_s1 waiting).pending ≡ 1
unfolding controller
one_waits_test = refl

run-Fenced_example : Fenced (run codec pausing_s1 waiting)
unfolding controller
run-Fenced_example = run-Fenced codec pausing_s1 waiting refl refl

abbrev paused : List (Outside × Act)
paused =
    (outside, pause (codes "p") (codes "s1") (codes "pause-s1-now"))
    ∷ (
      outside,
      ending 0
          (record {
            backend_id = codes "b1";
            node_id = [];
            node_route_id = [];
            node_generation = 0;
          })
          none,
    )
    ∷ []

paused_test :
    state_at (scoped_key (codes "p") (codes "s1")) (run codec paused waiting).service.files
    ≡ some standby
unfolding controller
paused_test = refl

abbrev pub began : Called Operation
unfolding controller
began =
    begin_transition codec outside waiting.service running_sandbox (codes "pause-s1-now")
      (codes "pause_sandbox:s1") pausing

begin_transition-finds_example :
    (find_sandbox began.0 (codes "p") (codes "s1")
      ≡ ok (moved outside pausing none running_sandbox))
    × (can_transition running_sandbox.state pausing ≡ true)
unfolding controller
begin_transition-finds_example =
    begin_transition-finds codec outside waiting.service began.0 (codes "p") (codes "s1")
      running_sandbox (codes "pause-s1-now") (codes "pause_sandbox:s1") pausing
      (new_operation codec outside running_sandbox (codes "pause-s1-now") (codes "pause_sandbox:s1")
        (codes "op_1"))
      refl refl
