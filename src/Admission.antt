-- ===== src/Admission.antt =====
-- internal/service/sandbox_admission.go: what the creation of a sandbox needs of the store, and the
-- decision to admit it. View is taken to
-- succeed, and the snapshot is read from the whole state; the indexed reader of SQLite is left out.
pub mod Grounds
pub mod Sound
use brezel.Common.{
  ℕ, suc, ◌+◌, Bool, true, false, not, ◌&&◌, ◌||◌, List, [], ◌∷◌, ◌++◌, Option, none, some, leb,
  ◌==◌, nat_eq, if◌then◌else◌, lookup, insert, contains, Text, text_eq, codes, Result, ok, err,
  ◌>>◌, ◌>>=◌, require, or_fail,
}
use brezel.Domain.States.{terminal}
use brezel.Domain.Lifetimes.{Lifecycle, CheckpointKind, filesystem, is_filesystem}
use brezel.Domain.Mounts.{WorkspaceMount}
use brezel.Domain.Resources.{Environment, NetworkPolicy}
use brezel.Store.{State, scoped_key, idempotency_key}
use brezel.Domain.Records.{Sandbox, Operation, Checkpoint, Workspace, Connector, WorkspaceState}

pub data Error : Type 0 where
  not_found conflict denied quota capacity : Error

unfoldable pub idempotent_operation : State → Text → Text → Text → Option Operation
idempotent_operation state project kind key =
    elim (lookup (idempotency_key project kind key) state.idempotency) [
      | none ↦ none
      | some id ↦ lookup (scoped_key project id) state.operations
    ]

pub record SandboxAdmissionQuery : Type 0 where
  pub project_id : Text
  pub idempotency_kind : Text
  pub idempotency_key : Text
  pub environment_revision : Text
  pub checkpoint_id : Text
  pub connector_revisions : List Text
  pub workspace_ids : List Text

pub record SandboxAdmissionSnapshot : Type 0 where
  -- An operation that was found, with its recorded digest
  pub idempotency : Option (Operation × Text)
  pub active_for_project : ℕ
  pub active_total : ℕ
  pub environment : Option Environment
  pub checkpoint : Option Checkpoint
  pub connectors : List (Text × Connector)
  pub workspaces : List (Text × Workspace)
  pub attached_workspace_ids : List Text

abbrev pub empty_snapshot : SandboxAdmissionSnapshot
empty_snapshot = record {
  idempotency = none;
  active_for_project = 0;
  active_total = 0;
  environment = none;
  checkpoint = none;
  connectors = [];
  workspaces = [];
  attached_workspace_ids = [];
}

unfoldable pub attach : List WorkspaceMount → List Text → List Text
attach [] ids = ids
attach (mount ∷ mounts) ids = attach mounts (mount.workspace_id ∷ ids)

-- The loop over the sandboxes
unfoldable pub count_sandboxes :
    Text → List (Text × Sandbox) → SandboxAdmissionSnapshot → SandboxAdmissionSnapshot
count_sandboxes project [] out = out
count_sandboxes project ((key, sandbox) ∷ rest) out = count_sandboxes project rest (
    if terminal sandbox.state
    then out
    else if sandbox.project_id == project
    then record out {
      active_total = out.active_total + 1;
      active_for_project = out.active_for_project + 1;
      attached_workspace_ids = attach sandbox.workspace_mounts out.attached_workspace_ids;
    }
    else record out { active_total = out.active_total + 1 })

-- The entries of a project's table under the ids that are asked for
unfoldable pub collect :
    {V : Type 0} → Text → List (Text × V) → List Text → List (Text × V) → List (Text × V)
collect project table [] out = out
collect project table (id ∷ ids) out =
    collect project table ids
      (elim (lookup (scoped_key project id) table) [ none ↦ out | some v ↦ insert id v out ])

unfoldable pub found_checkpoint : SandboxAdmissionQuery → State → Option Checkpoint
found_checkpoint q state =
    if q.checkpoint_id == []
    then none
    else lookup (scoped_key q.project_id q.checkpoint_id) state.checkpoints

unfoldable pub wanted_revision : SandboxAdmissionQuery → Option Checkpoint → Text
wanted_revision q none = q.environment_revision
wanted_revision q (some checkpoint) = checkpoint.environment_revision

unfoldable pub found_environment : Text → State → Text → Option Environment
found_environment project state revision =
    if revision == [] then none else lookup (scoped_key project revision) state.environments

-- The snapshot for a key without an operation
unfoldable pub fresh_snapshot : State → SandboxAdmissionQuery → SandboxAdmissionSnapshot
fresh_snapshot state q =
    let checkpoint = found_checkpoint q state in
    record (count_sandboxes q.project_id state.sandboxes empty_snapshot) {
      checkpoint = checkpoint;
      environment = found_environment q.project_id state (wanted_revision q checkpoint);
      connectors = collect q.project_id state.connectors q.connector_revisions [];
      workspaces = collect q.project_id state.workspaces q.workspace_ids [];
    }

unfoldable pub recorded_digest : State → Text → Text
recorded_digest state key = elim (lookup key state.idempotency_digests) [
  | none ↦ []
  | some digest ↦ digest
]

-- The snapshot for the operation that the key has, if it has one
unfoldable pub snapshot_for :
    State → SandboxAdmissionQuery → Option Operation → SandboxAdmissionSnapshot
snapshot_for state q none = fresh_snapshot state q
snapshot_for state q (some operation) = record empty_snapshot {
  idempotency = some (
    operation,
    recorded_digest state (idempotency_key q.project_id q.idempotency_kind q.idempotency_key),
  );
}

-- readSandboxAdmissionFallback
unfoldable pub read_sandbox_admission_fallback :
    State → SandboxAdmissionQuery → SandboxAdmissionSnapshot
read_sandbox_admission_fallback state q =
    snapshot_for state q
      (idempotent_operation state q.project_id q.idempotency_kind q.idempotency_key)

pub record CreateSandboxInput : Type 0 where
  pub environment_revision : Text
  pub checkpoint_id : Text
  pub lifecycle : Lifecycle
  pub network : NetworkPolicy
  pub connector_revisions : List Text
  pub workspace_mounts : List WorkspaceMount

-- The limits of the service that admission tests
pub record Limits : Type 0 where
  pub max_active_sandboxes_per_project : ℕ
  pub max_active_sandboxes_total : ℕ

pub record BackendMount : Type 0 where
  pub name : Text
  pub path : Text

-- What admitSandboxCreate returns without an error: the operation of an earlier request with the
-- key, or the resources of the new one. Go's zero checkpoint is `none`.
pub data Admitted : Type 0 where
  replayed : Operation → Admitted
  fresh : Environment → Option Checkpoint → List BackendMount → Admitted

unfoldable pub workspace_ids_of : List WorkspaceMount → List Text
workspace_ids_of [] = []
workspace_ids_of (mount ∷ mounts) = mount.workspace_id ∷ workspace_ids_of mounts

unfoldable pub admission_query : Text → Text → CreateSandboxInput → SandboxAdmissionQuery
admission_query project key input = record {
  project_id = project;
  idempotency_kind = codes "create_sandbox";
  idempotency_key = key;
  environment_revision = input.environment_revision;
  checkpoint_id = input.checkpoint_id;
  connector_revisions = input.connector_revisions;
  workspace_ids = workspace_ids_of input.workspace_mounts;
}

-- The checkpoint to restore from, with the input that its revision has replaced
unfoldable pub restore_from :
    SandboxAdmissionSnapshot
    → CreateSandboxInput
    → Result Error (CreateSandboxInput × Option Checkpoint)
restore_from snapshot input =
    if input.checkpoint_id == []
    then ok (input, none)
    else or_fail snapshot.checkpoint not_found >>= λ checkpoint.
        require (is_filesystem checkpoint.kind && not (checkpoint.backend_ref == [])) denied
        >> ok (
          record input { environment_revision = checkpoint.environment_revision },
          some checkpoint,
        )

unfoldable pub need_connectors : List (Text × Connector) → List Text → Result Error (Unit {0})
need_connectors connectors [] = ok tt
need_connectors connectors (revision ∷ revisions) =
    or_fail (lookup revision connectors) not_found >>= λ connector.
    need_connectors connectors revisions

abbrev pub is_ready : WorkspaceState → Bool
is_ready WorkspaceState.ready = true
is_ready _ = false

-- The loop over the workspace mounts
unfoldable pub mount_workspaces :
    SandboxAdmissionSnapshot → List WorkspaceMount → Result Error (List BackendMount)
mount_workspaces snapshot [] = ok []
mount_workspaces snapshot (mount ∷ mounts) =
    or_fail (lookup mount.workspace_id snapshot.workspaces) not_found >>= λ workspace.
    require (is_ready workspace.state && not (workspace.backend_name == [])) conflict
    >> (require (not (contains mount.workspace_id snapshot.attached_workspace_ids)) conflict
        >> (mount_workspaces snapshot mounts >>= λ rest.
            ok (record { name = workspace.backend_name; path = mount.path } ∷ rest)))

-- Admission without an earlier operation
unfoldable pub admit_fresh :
    Limits
    → SandboxAdmissionSnapshot
    → CreateSandboxInput
    → Result Error (CreateSandboxInput × Admitted)
admit_fresh limits snapshot input =
    require (not (leb limits.max_active_sandboxes_per_project snapshot.active_for_project)) quota
    >> (require (not (leb limits.max_active_sandboxes_total snapshot.active_total)) capacity
        >> (restore_from snapshot input >>= λ restored.
            or_fail snapshot.environment not_found >>= λ environment.
            require (environment.revision_id == restored.0.environment_revision) not_found
            >> (need_connectors snapshot.connectors input.connector_revisions
                >> (mount_workspaces snapshot input.workspace_mounts >>= λ mounts.
                    ok (restored.0, fresh environment restored.1 mounts)))))

-- admitSandboxCreate on a snapshot and what it says of an earlier operation; the input comes back with
-- the revision that it then has
unfoldable pub admit_snapshot :
    Limits
    → SandboxAdmissionSnapshot
    → Text
    → CreateSandboxInput
    → Option (Operation × Text)
    → Result Error (CreateSandboxInput × Admitted)
admit_snapshot limits snapshot digest input none = admit_fresh limits snapshot input
admit_snapshot limits snapshot digest input (some (operation, recorded)) =
    require (recorded == [] || recorded == digest) conflict >> ok (input, replayed operation)

-- admitSandboxCreate
unfoldable pub admit_sandbox_create :
    Limits
    → State
    → Text
    → Text
    → Text
    → CreateSandboxInput
    → Result Error (CreateSandboxInput × Admitted)
admit_sandbox_create limits state project key digest input =
    let snapshot = read_sandbox_admission_fallback state (admission_query project key input) in
    admit_snapshot limits snapshot digest input snapshot.idempotency
