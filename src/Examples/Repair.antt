-- ===== src/Examples/Repair.antt =====
-- A controller that reconciles a sandbox while a request asks to pause it, and one that restarts.
use brezel.Common.{
  ◌≡◌, refl, true, false, List, [], ◌∷◌, none, some, codes, length, err, insert, text_eq,
}
use brezel.Domain.States.{running, pausing, failed, terminal}
use brezel.Examples.Admission.{noon, running_sandbox, store}
use brezel.Examples.Store.{codec, stored, files}
use brezel.Examples.Controller.{controller, outside, began}
use brezel.Store.{scoped_key}
use brezel.Store.Files.{FileStore}
use brezel.Controller.Types.{conflict, Outside}
use brezel.Controller.Transitions.{moved, is_target, begin_expiration, mark_unknown}
use brezel.Controller.Actions.{begin_delete}
use brezel.Controller.Observed.{
  same_sandbox_reconcile_version, same_failure, same_reconcile_observation, operation_code,
  same_operation_version, supersedes, latest, unfinished, latest_incomplete_operations, prefixes_of,
  latest_reconcile_operations, settle, unchanged, is_superseded, unless_superseded,
  observation_write, commit_observation, mark_unknown_observation,
}
use brezel.Controller.Repair.{
  failed_or, Answer, remote, is_not_found, if_found, unless_cancelled, busy, finished, then_cleanup,
  is_cleanup, cleanup_of, look, judged, inspected, route_observed, route_reconciled, begin_cleanup,
  end_cleanup, begin_missing, end_missing,
}
use brezel.Controller.Worlds.{pause}
use brezel.Controller.Writes.{state_at}
use brezel.Controller.Reading.{read}
use brezel.Controller.System.{
  System, Move, act, looking, proceeding, remembered, gone_on, proceeded, let_go, proceed, finish,
  acted, move, run_system,
}
use brezel.Controller.Holding.{Excluded}
use brezel.Controller.Together.{run_system-Excluded, run_system-settles}
use brezel.Controller.Expiring.{expired-stuck}

repairs : Unit {0}
unfolding controller terminal is_target begin_expiration mark_unknown same_sandbox_reconcile_version
    same_failure same_reconcile_observation operation_code same_operation_version supersedes latest
    unfinished latest_incomplete_operations prefixes_of latest_reconcile_operations settle unchanged
    is_superseded unless_superseded observation_write commit_observation mark_unknown_observation
    is_not_found if_found unless_cancelled failed_or busy finished then_cleanup is_cleanup
    cleanup_of look judged inspected route_observed route_reconciled begin_cleanup end_cleanup
    begin_missing end_missing begin_delete remembered gone_on proceeded let_go proceed finish acted
    move run_system
repairs = tt

abbrev quiet : FileStore → System
quiet files = record {
  service = record {
    files = files;
    active_guest_ops = [];
    active_guest_ops_by_project = [];
    active_backend_mutations = [];
    recent_activity = [];
  };
  pending = [];
  seen = [];
  held = [];
}

-- before the sandbox expires
abbrev early : Outside
early = record outside { now = record noon { instant = 4 } }

abbrev answer : Answer
answer = record {
  is_cancelled = false;
  inspection = remote (codes "b") running;
  placement = record {
    backend_id = codes "b";
    node_id = codes "n";
    node_route_id = codes "r";
    node_generation = 1;
  };
  required = true;
  undeleted = false;
  failure = none;
  candidates = [];
}

-- The sandbox is reconciled up to the change of its route, and then asked to pause.
abbrev rerouted : List (Outside × Move)
rerouted =
    (early, looking false (codes "p") (codes "s1"))
    ∷ (early, proceeding 0 answer)
    ∷ (early, proceeding 0 answer)
    ∷ (early, act (pause (codes "p") (codes "s1") (codes "pause-s1-now")))
    ∷ []

holds_test : length (run_system codec rerouted (quiet stored)).held ≡ 1
unfolding repairs
holds_test = refl

pause_refused_test : length (run_system codec rerouted (quiet stored)).pending ≡ 0
unfolding repairs
pause_refused_test = refl

run_system-Excluded_example : Excluded (run_system codec rerouted (quiet stored))
unfolding repairs
run_system-Excluded_example = run_system-Excluded codec rerouted (quiet stored) refl refl refl refl

abbrev failed_files : FileStore
failed_files = record stored {
  state = record store {
    sandboxes =
        insert (scoped_key (codes "p") (codes "s1")) (record running_sandbox { state = failed })
          store.sandboxes;
  };
}

run_system-settles_example :
    state_at
      (scoped_key (codes "p") (codes "s1"))
      (run_system codec rerouted (quiet failed_files)).service.files
    ≡ some failed
unfolding repairs
run_system-settles_example =
    run_system-settles codec rerouted (quiet failed_files) (scoped_key (codes "p") (codes "s1"))
      failed refl refl refl refl refl refl

expired-stuck_example :
    (look codec outside false began.0 (codes "p") (codes "s1") ≡ (began.0, err conflict))
    × (read codec outside began.0 (codes "p") (codes "s1") answer ≡ (began.0, err conflict))
    × (begin_delete codec outside began.0 (codes "p") (codes "s1") (codes "delete-s1-now")
        ≡ (began.0, err conflict))
unfolding repairs
expired-stuck_example =
    expired-stuck codec outside began.0 (codes "p") (codes "s1") (codes "delete-s1-now") answer
      (moved outside pausing none running_sandbox) refl refl refl refl refl refl refl refl refl refl
