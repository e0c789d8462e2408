-- ===== src/Examples/Admission.antt =====
-- A store with an environment, a workspace and a sandbox of one project.
use brezel.Common.{
  ◌≡◌, refl, false, [], ◌∷◌, ◌++◌, none, lookup, insert, Text, text_eq, text_beq, codes, err, Time,
  east, pos,
}
use brezel.Domain.States.{SandboxState, terminal}
use brezel.Domain.Lifetimes.{Lifecycle, other}
use brezel.Domain.Resources.{Environment, NetworkPolicy}
use brezel.Domain.Records.{Sandbox, Workspace, WorkspaceState}
use brezel.Admission.{
  idempotent_operation, attach, count_sandboxes, collect, found_checkpoint, wanted_revision,
  found_environment, fresh_snapshot, recorded_digest, snapshot_for, read_sandbox_admission_fallback,
  CreateSandboxInput, Limits, conflict, workspace_ids_of, admission_query, restore_from,
  need_connectors, mount_workspaces, admit_fresh, admit_snapshot, admit_sandbox_create,
}
use brezel.Store.{new_state, State, scoped_key, idempotency_key}
use brezel.Admission.Sound.{Grounds, admit_sandbox_create-Grounds}

admission : Unit {0}
unfolding lookup insert text_beq terminal scoped_key idempotency_key idempotent_operation attach
    count_sandboxes collect found_checkpoint wanted_revision found_environment fresh_snapshot
    recorded_digest snapshot_for read_sandbox_admission_fallback workspace_ids_of admission_query
    restore_from need_connectors mount_workspaces admit_fresh admit_snapshot admit_sandbox_create
admission = tt

abbrev pub noon : Time
noon = record { instant = 5; offset = east 0 }

abbrev pub lifecycle : Lifecycle
lifecycle = record {
  standby_after_seconds = pos 0;
  standby_grace_seconds = pos 0;
  expires_after_seconds = pos 60;
  standby_checkpoint = other;
  auto_resume = false;
}

abbrev pub network : NetworkPolicy
network = record { allow_internet = false; allow_out = []; deny_out = [] }

abbrev pub environment : Environment
environment = record {
  revision_id = codes "env1";
  project_id = codes "p";
  name = codes "base";
  backend = codes "microvm";
  backend_template = codes "t";
  image_digest = [];
  policy_revision = [];
  created_at = noon;
}

abbrev pub workspace : Text → Workspace
workspace id = record {
  id = id;
  project_id = codes "p";
  name = id;
  backend_id = codes "v";
  backend_name = codes "volume";
  state = WorkspaceState.ready;
  cleanup_target = none;
  created_at = noon;
  updated_at = noon;
  failure = none;
}

abbrev pub running_sandbox : Sandbox
running_sandbox = record {
  id = codes "s1";
  project_id = codes "p";
  environment_revision = codes "env1";
  source_checkpoint_id = [];
  backend = codes "microvm";
  backend_id = codes "b";
  node_id = [];
  node_route_id = [];
  node_generation = 0;
  state = SandboxState.running;
  cleanup_target = none;
  lifecycle = lifecycle;
  network = network;
  connector_revisions = [];
  workspace_mounts = record { workspace_id = codes "w2"; path = codes "/data" } ∷ [];
  created_at = noon;
  updated_at = noon;
  last_active_at = noon;
  standby_eligible_at = noon;
  expires_at = noon;
  revision = pos 1;
  failure = none;
}

abbrev pub store : State
store = record new_state {
  environments = (codes "p" ++ 0 ∷ codes "env1", environment) ∷ [];
  sandboxes = (codes "p" ++ 0 ∷ codes "s1", running_sandbox) ∷ [];
  operations = [];
  checkpoints = [];
  workspaces =
      (codes "p" ++ 0 ∷ codes "w1", workspace (codes "w1"))
      ∷ (codes "p" ++ 0 ∷ codes "w2", workspace (codes "w2"))
      ∷ [];
  connectors = [];
  idempotency = [];
  idempotency_digests = [];
}

abbrev limits : Limits
limits = record { max_active_sandboxes_per_project = 2; max_active_sandboxes_total = 5 }

abbrev input : Text → CreateSandboxInput
input w = record {
  environment_revision = codes "env1";
  checkpoint_id = [];
  lifecycle = lifecycle;
  network = network;
  connector_revisions = [];
  workspace_mounts = record { workspace_id = w; path = codes "/data" } ∷ [];
}

admit_sandbox_create-Grounds_example :
    Grounds limits store (codes "p") (input (codes "w1")) (input (codes "w1")) environment none
unfolding admission
admit_sandbox_create-Grounds_example =
    admit_sandbox_create-Grounds limits store (codes "p") (codes "key") (codes "digest")
      (input (codes "w1")) (input (codes "w1")) environment none
      (record { name = codes "volume"; path = codes "/data" } ∷ []) refl

-- The running sandbox holds the other workspace.
attached_test :
    admit_sandbox_create limits store
      (codes "p")
      (codes "key")
      (codes "digest")
      (input (codes "w2"))
    ≡ err conflict
unfolding admission
attached_test = refl
