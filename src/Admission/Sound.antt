-- ===== src/Admission/Sound.antt =====
-- The admission of a new sandbox, as a statement about the store.
use brezel.Common.{
  ◌<◌, ◌≡◌, subst, arith, true, not, List, [], Option, none, some, leb, ◌==◌, nat_eq, if_cases,
  lookup, All, All-map, inl, inr, Text, text_eq, text_beq_iff, ok, require, or_fail, or_fail-ok,
  require-ok, ok_injective, >>-eq-ok, >>=-eq-ok,
}
use brezel.Domain.Mounts.{WorkspaceMount}
use brezel.Domain.Resources.{Environment}
use brezel.Domain.Records.{Operation, Checkpoint}
use brezel.Admission.{
  not_found, quota, capacity, idempotent_operation, SandboxAdmissionQuery, SandboxAdmissionSnapshot,
  empty_snapshot, count_sandboxes, collect, found_checkpoint, wanted_revision, found_environment,
  fresh_snapshot, snapshot_for, read_sandbox_admission_fallback, CreateSandboxInput, Limits,
  BackendMount, Admitted, replayed, fresh, admission_query, restore_from, need_connectors,
  mount_workspaces, workspace_ids_of, admit_fresh, admit_snapshot, admit_sandbox_create,
}
use brezel.Store.{State, scoped_key}
use brezel.Admission.Grounds.{
  active, active_in, Counted, count_sandboxes-Counted, lookup-collect, Mountable, Mounted,
  mount_workspaces-Mounted, Connected, need_connectors-found, Sourced, Restored,
  restore_from-Restored,
}

-- The grounds of an admission, in the state of the store.
pub record Grounds (limits : Limits) (state : State) (p : Text) (input input' : CreateSandboxInput)
    (environment : Environment) (source : Option Checkpoint) : Type 0 where
  pub within_quota : active_in p state.sandboxes < limits.max_active_sandboxes_per_project
  pub within_capacity : active state.sandboxes < limits.max_active_sandboxes_total
  pub stored :
      lookup (scoped_key p input'.environment_revision) state.environments ≡ some environment
  pub revision : environment.revision_id ≡ input'.environment_revision
  pub sourced : Sourced p state input source
  pub connectors : All (Connected p state) input.connector_revisions
  pub mounts : All (Mountable p state) input.workspace_mounts

found_environment-stored :
    (p : Text) (state : State) (revision : Text) (e : Environment)
    → found_environment p state revision ≡ some e
    → lookup (scoped_key p revision) state.environments ≡ some e
unfolding found_environment
found_environment-stored p state revision e =
    if_cases (λ o. o ≡ some e → lookup (scoped_key p revision) state.environments ≡ some e)
      (revision == []) _ _ (λ empty h. absurd (ground arith)) (λ named h. h)

abbrev Grounded :
    Limits → State → Text → CreateSandboxInput → CreateSandboxInput × Admitted → Type 0
Grounded limits state p input (input', replayed operation) = Unit
Grounded limits state p input (input', fresh e source mounts) =
    Grounds limits state p input input' e source

below_quota :
    (limits : Limits) (state : State) (p : Text)
    → not (
        leb limits.max_active_sandboxes_per_project (
          SandboxAdmissionSnapshot.active_for_project
            (count_sandboxes p state.sandboxes empty_snapshot)))
      ≡ true
    → active_in p state.sandboxes < limits.max_active_sandboxes_per_project
below_quota limits state p h =
    ground (arith, Counted.project (count_sandboxes-Counted p state.sandboxes empty_snapshot))

below_capacity :
    (limits : Limits) (state : State) (p : Text)
    → not (
        leb limits.max_active_sandboxes_total (
          SandboxAdmissionSnapshot.active_total (count_sandboxes p state.sandboxes empty_snapshot)))
      ≡ true
    → active state.sandboxes < limits.max_active_sandboxes_total
below_capacity limits state p h =
    ground (arith, Counted.total (count_sandboxes-Counted p state.sandboxes empty_snapshot))

collected :
    {B : Type 0} (p : Text) (table : List (Text × B)) (ids : List Text) (id : Text) (v : B)
    → lookup id (collect p table ids []) ≡ some v
    → lookup (scoped_key p id) table ≡ some v
unfolding lookup
collected p table ids id v h = elim (lookup-collect p table ids [] id v h) [
  | inl nothing ↦ absurd (ground arith)
  | inr stored ↦ stored
]

mounted :
    (limits : Limits) (state : State) (p key : Text) (input : CreateSandboxInput)
    (m : WorkspaceMount)
    → Mounted (fresh_snapshot state (admission_query p key input)) m
    → Mountable p state m
unfolding fresh_snapshot admission_query
mounted limits state p key input m w = record {
  workspace = Mounted.workspace w;
  stored =
      collected p state.workspaces (workspace_ids_of input.workspace_mounts) m.workspace_id
        (Mounted.workspace w) (Mounted.found w);
  ready = Mounted.ready w;
  free = ground (
    arith,
    Mounted.free w,
    Counted.attached (count_sandboxes-Counted p state.sandboxes empty_snapshot) m.workspace_id,
  );
}

admit_fresh-Grounds :
    (limits : Limits) (state : State) (p key : Text) (input input' : CreateSandboxInput)
    (e : Environment) (source : Option Checkpoint) (mounts : List BackendMount)
    → admit_fresh limits (fresh_snapshot state (admission_query p key input)) input
      ≡ ok (input', fresh e source mounts)
    → Grounds limits state p input input' e source
unfolding admit_fresh fresh_snapshot admission_query Connected
admit_fresh-Grounds limits state p key input input' e source mounts h =
    let q = admission_query p key input in
    let snapshot = fresh_snapshot state q in
    let a =
      >>-eq-ok
        (require
          (not (
            leb limits.max_active_sandboxes_per_project
              (SandboxAdmissionSnapshot.active_for_project snapshot)))
          quota)
        _ h in
    let b =
      >>-eq-ok
        (require
          (not (
            leb limits.max_active_sandboxes_total (SandboxAdmissionSnapshot.active_total snapshot)))
          capacity)
        _ a.1 in
    let r = >>=-eq-ok (restore_from snapshot input) _ b.1 in
    let n = >>=-eq-ok (or_fail (SandboxAdmissionSnapshot.environment snapshot) not_found) _ r.2 in
    let v =
      >>-eq-ok
        (require (Environment.revision_id n.0 == CreateSandboxInput.environment_revision r.0.0)
          not_found)
        _ n.2 in
    let c =
      >>-eq-ok
        (need_connectors (SandboxAdmissionSnapshot.connectors snapshot) input.connector_revisions) _
        v.1 in
    let m = >>=-eq-ok (mount_workspaces snapshot input.workspace_mounts) _ c.1 in
    let restored = restore_from-Restored p key state input r.0.0 r.0.1 r.1 in
    let held =
      or_fail-ok (found_environment p state (wanted_revision q (found_checkpoint q state)))
        not_found n.0 n.1 in
    subst (Grounded limits state p input) (ok_injective m.2) (record {
      within_quota = below_quota limits state p (require-ok _ quota a.0);
      within_capacity = below_capacity limits state p (require-ok _ capacity b.0);
      stored =
          subst (λ k. lookup (scoped_key p k) state.environments ≡ some n.0)
            (Restored.revision restored)
            (found_environment-stored p state (wanted_revision q (found_checkpoint q state)) n.0
              held);
      revision =
          (text_beq_iff (Environment.revision_id n.0)
              (CreateSandboxInput.environment_revision r.0.0)).0
            (require-ok _ not_found v.0);
      sourced = Restored.sourced restored;
      connectors =
          All-map _ (Connected p state)
            (λ k c. (c.0, collected p state.connectors input.connector_revisions k c.0 c.1))
            input.connector_revisions
            (need_connectors-found (SandboxAdmissionSnapshot.connectors snapshot)
              input.connector_revisions c.0);
      mounts =
          All-map (Mounted snapshot) (Mountable p state) (mounted limits state p key input)
            input.workspace_mounts
            (mount_workspaces-Mounted snapshot input.workspace_mounts m.0 m.1);
    })

fresh_snapshot-new :
    (state : State) (q : SandboxAdmissionQuery)
    → SandboxAdmissionSnapshot.idempotency (fresh_snapshot state q) ≡ none
unfolding fresh_snapshot
fresh_snapshot-new state q =
    Counted.kept (count_sandboxes-Counted q.project_id state.sandboxes empty_snapshot)

admit_snapshot-Grounds :
    (limits : Limits) (state : State) (p key digest : Text) (input input' : CreateSandboxInput)
    (e : Environment) (source : Option Checkpoint) (mounts : List BackendMount)
    (o : Option Operation)
    → admit_snapshot limits
        (snapshot_for state (admission_query p key input) o)
        digest
        input
        (SandboxAdmissionSnapshot.idempotency (snapshot_for state (admission_query p key input) o))
      ≡ ok (input', fresh e source mounts)
    → Grounds limits state p input input' e source
unfolding snapshot_for admit_snapshot
admit_snapshot-Grounds limits state p key digest input input' e source mounts none h =
    admit_fresh-Grounds limits state p key input input' e source mounts (
      subst
        (λ k.
          admit_snapshot limits (fresh_snapshot state (admission_query p key input)) digest input k
          ≡ ok (input', fresh e source mounts))
        (fresh_snapshot-new state (admission_query p key input)) h)
admit_snapshot-Grounds limits state p key digest input input' e source mounts (some operation) h =
    absurd (ground arith)

-- If admitSandboxCreate admits a sandbox that no earlier request with its key has created: the project
-- and the service have fewer sandboxes that are not terminal than their limits; the environment
-- stands in the store under the project and the revision that the input then has; the checkpoint,
-- if the input names one, is the project's and of the file system; every connector is the project's;
-- and every workspace that is mounted is the project's, ready, and mounted by no sandbox of the
-- project that is not terminal.
pub admit_sandbox_create-Grounds :
    (limits : Limits) (state : State) (p key digest : Text) (input input' : CreateSandboxInput)
    (e : Environment) (source : Option Checkpoint) (mounts : List BackendMount)
    → admit_sandbox_create limits state p key digest input ≡ ok (input', fresh e source mounts)
    → Grounds limits state p input input' e source
unfolding admit_sandbox_create read_sandbox_admission_fallback
admit_sandbox_create-Grounds limits state p key digest input input' e source mounts =
    let q = admission_query p key input in
    admit_snapshot-Grounds limits state p key digest input input' e source mounts
      (idempotent_operation state q.project_id q.idempotency_kind q.idempotency_key)
