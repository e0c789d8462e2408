-- ===== src/Admission/Grounds.antt =====
-- What the admission of a new sandbox rests on, in the state of the store.
use brezel.Common.{
  ℕ, suc, ◌+◌, ◌≡◌, refl, sym, subst, ap, ◌∙◌, arith, Bool, true, false, not, ◌&&◌, ◌||◌, List, [],
  ◌∷◌, Option, none, some, ◌==◌, nat_eq, if◌then◌else◌, if_cases, lookup, insert, lookup-insert,
  contains, any, All, Option-cases, ◌⊎◌, inl, inr, Text, text_eq, text_beq_iff, text_cases, ok,
  require, or_fail, or_fail-ok, require-ok, ok_injective, >>-eq-ok, >>=-eq-ok,
}
use brezel.Domain.States.{terminal}
use brezel.Domain.Lifetimes.{is_filesystem}
use brezel.Domain.Mounts.{WorkspaceMount}
use brezel.Domain.Records.{Sandbox, Checkpoint, Workspace, Connector}
use brezel.Admission.{
  not_found, conflict, denied, SandboxAdmissionSnapshot, attach, count_sandboxes, collect,
  found_checkpoint, wanted_revision, fresh_snapshot, CreateSandboxInput, BackendMount,
  admission_query, restore_from, need_connectors, is_ready, mount_workspaces,
}
use brezel.Store.{State, scoped_key}

-- The sandboxes that are not terminal, of all projects and of one.
abbrev pub active : List (Text × Sandbox) → ℕ
active [] = 0
active ((k, s) ∷ rest) = if terminal s.state then active rest else suc (active rest)

abbrev pub active_in : Text → List (Text × Sandbox) → ℕ
active_in project [] = 0
active_in project ((k, s) ∷ rest) =
    if not (terminal s.state) && s.project_id == project
    then suc (active_in project rest)
    else active_in project rest

-- A sandbox of the project that is not terminal has the workspace mounted.
abbrev pub holds : Text → Text → Text × Sandbox → Bool
holds project workspace (k, s) =
    not (terminal s.state)
    && (s.project_id == project && any (λ m. workspace == m.workspace_id) s.workspace_mounts)

contains-attach :
    (w : Text) (ms : List WorkspaceMount) (ids : List Text)
    → contains w (attach ms ids) ≡ (any (λ m. w == m.workspace_id) ms || contains w ids)
unfolding attach
contains-attach w [] ids = refl
contains-attach w (m ∷ ms) ids = contains-attach w ms (m.workspace_id ∷ ids) ∙ ground arith

-- What the loop over the sandboxes has counted.
pub record Counted (p : Text) (l : List (Text × Sandbox)) (out end : SandboxAdmissionSnapshot)
    : Type 0 where
  pub kept : end.idempotency ≡ out.idempotency
  pub total : end.active_total ≡ out.active_total + active l
  pub project : end.active_for_project ≡ out.active_for_project + active_in p l
  pub attached :
      (w : Text)
      → contains w end.attached_workspace_ids
        ≡ (contains w out.attached_workspace_ids || any (holds p w) l)

pub count_sandboxes-Counted :
    (p : Text) (l : List (Text × Sandbox)) (out : SandboxAdmissionSnapshot)
    → Counted p l out (count_sandboxes p l out)
unfolding count_sandboxes
count_sandboxes-Counted p [] out = record {
  kept = refl;
  total = omega arith;
  project = omega arith;
  attached = λ w. ground arith;
}
count_sandboxes-Counted p ((k, s) ∷ l) out =
    let next =
      if terminal s.state
      then out
      else if s.project_id == p
      then record out {
        active_total = out.active_total + 1;
        active_for_project = out.active_for_project + 1;
        attached_workspace_ids = attach s.workspace_mounts out.attached_workspace_ids;
      }
      else record out { active_total = out.active_total + 1 } in
    let rest = count_sandboxes-Counted p l next in
    record {
      kept = ground (arith, Counted.kept rest);
      total = ground (arith, Counted.total rest);
      project = ground (arith, Counted.project rest);
      attached = λ w. ground (
        arith,
        Counted.attached rest w,
        contains-attach w s.workspace_mounts out.attached_workspace_ids,
      );
    }

inserted :
    {B : Type 0} (p : Text) (table out : List (Text × B)) (id i : Text) (v w : B)
    → lookup id (insert i w out) ≡ some v
    → lookup (scoped_key p i) table ≡ some w
    → (lookup id out ≡ some v) ⊎ (lookup (scoped_key p id) table ≡ some v)
inserted p table out id i v w here stored = elim (text_cases id i) [
  | inl same ↦ inr (
      subst (λ j. lookup (scoped_key p j) table ≡ some v) (sym same)
        (stored ∙ ground (arith, lookup-insert i id w out, text_beq_iff id i)))
  | inr other ↦ inl (ground (arith, lookup-insert i id w out, text_beq_iff id i))
]

pub lookup-collect :
    {B : Type 0} (p : Text) (table : List (Text × B)) (ids : List Text) (out : List (Text × B))
    (id : Text) (v : B)
    → lookup id (collect p table ids out) ≡ some v
    → (lookup id out ≡ some v) ⊎ (lookup (scoped_key p id) table ≡ some v)
unfolding collect
lookup-collect p table [] out id v h = inl h
lookup-collect p table (i ∷ ids) out id v h = elim (Option-cases (lookup (scoped_key p i) table)) [
  | inl missing ↦ lookup-collect p table ids out id v (rw missing at h)
  | inr stored ↦ elim (lookup-collect p table ids (insert i stored.0 out) id v (rw stored.1 at h)) [
    | inr there ↦ inr there
    | inl here ↦ inserted p table out id i v stored.0 here stored.1
  ]
]

-- What is needed of a workspace that is mounted.
pub record Mountable (p : Text) (state : State) (m : WorkspaceMount) : Type 0 where
  pub workspace : Workspace
  pub stored : lookup (scoped_key p m.workspace_id) state.workspaces ≡ some workspace
  pub ready : is_ready (Workspace.state workspace) ≡ true
  pub free : any (holds p m.workspace_id) state.sandboxes ≡ false

pub record Mounted (snapshot : SandboxAdmissionSnapshot) (m : WorkspaceMount) : Type 0 where
  pub workspace : Workspace
  pub found : lookup m.workspace_id snapshot.workspaces ≡ some workspace
  pub ready : is_ready (Workspace.state workspace) ≡ true
  pub free : contains m.workspace_id snapshot.attached_workspace_ids ≡ false

pub mount_workspaces-Mounted :
    (snapshot : SandboxAdmissionSnapshot) (ms : List WorkspaceMount) (r : List BackendMount)
    → mount_workspaces snapshot ms ≡ ok r
    → All (Mounted snapshot) ms
unfolding mount_workspaces
mount_workspaces-Mounted snapshot [] r h = tt
mount_workspaces-Mounted snapshot (m ∷ ms) r h =
    let w = >>=-eq-ok (or_fail (lookup m.workspace_id snapshot.workspaces) not_found) _ h in
    let a =
      >>-eq-ok
        (require (is_ready (Workspace.state w.0) && not (Workspace.backend_name w.0 == []))
          conflict)
        _ w.2 in
    let b =
      >>-eq-ok (require (not (contains m.workspace_id snapshot.attached_workspace_ids)) conflict) _
        a.1 in
    let rest = >>=-eq-ok (mount_workspaces snapshot ms) _ b.1 in
    (
      record {
        workspace = w.0;
        found = or_fail-ok (lookup m.workspace_id snapshot.workspaces) not_found w.0 w.1;
        ready = ground (
          arith,
          require-ok (is_ready (Workspace.state w.0) && not (Workspace.backend_name w.0 == []))
              conflict a.0,
        );
        free = ground (
          arith,
          require-ok (not (contains m.workspace_id snapshot.attached_workspace_ids)) conflict b.0,
        );
      },
      mount_workspaces-Mounted snapshot ms rest.0 rest.1,
    )

unfoldable pub Connected : Text → State → Text → Type 0
Connected p state revision =
    (c : Connector) × (lookup (scoped_key p revision) state.connectors ≡ some c)

pub need_connectors-found :
    (connectors : List (Text × Connector)) (rs : List Text)
    → need_connectors connectors rs ≡ ok tt
    → All (λ r. (c : Connector) × (lookup r connectors ≡ some c)) rs
unfolding need_connectors
need_connectors-found connectors [] h = tt
need_connectors-found connectors (r ∷ rs) h =
    let c = >>=-eq-ok (or_fail (lookup r connectors) not_found) _ h in
    (
      (c.0, or_fail-ok (lookup r connectors) not_found c.0 c.1),
      need_connectors-found connectors rs c.2,
    )

-- Where the sandbox comes from: an environment that the input names, or a checkpoint of the project.
unfoldable pub Sourced : Text → State → CreateSandboxInput → Option Checkpoint → Type 0
Sourced p state input source =
    ((input.checkpoint_id ≡ []) × (source ≡ none))
    ⊎ ((c : Checkpoint) × (source ≡ some c)
        × (lookup (scoped_key p input.checkpoint_id) state.checkpoints ≡ some c)
        × (is_filesystem c.kind ≡ true))

pub record Restored (p key : Text) (state : State) (input input' : CreateSandboxInput)
    (source : Option Checkpoint) : Type 0 where
  pub sourced : Sourced p state input source
  pub revision :
      wanted_revision
        (admission_query p key input)
        (found_checkpoint (admission_query p key input) state)
      ≡ input'.environment_revision

pub chosen :
    {A : Type 0} {b : Bool} {o : Option A} {a : A}
    → b ≡ false
    → (if b then none else o) ≡ some a
    → o ≡ some a
chosen e h = ground arith

pub restore_from-Restored :
    (p key : Text) (state : State) (input input' : CreateSandboxInput) (source : Option Checkpoint)
    → restore_from (fresh_snapshot state (admission_query p key input)) input ≡ ok (input', source)
    → Restored p key state input input' source
unfolding restore_from fresh_snapshot admission_query found_checkpoint Sourced wanted_revision
restore_from-Restored p key state input input' source =
    if_cases (λ out. out ≡ ok (input', source) → Restored p key state input input' source)
      (input.checkpoint_id == []) _ _
      (λ no_id h. record {
        sourced =
            inl
              ((text_beq_iff input.checkpoint_id []).0 no_id, sym (ap (λ x. x.1) (ok_injective h)));
        revision = rw no_id (
            ap (λ (x : CreateSandboxInput × Option Checkpoint). x.0.environment_revision)
              (ok_injective h));
      })
      (λ id h.
        let q = admission_query p key input in
        let c = >>=-eq-ok (or_fail (found_checkpoint q state) not_found) _ h in
        let fits =
          >>-eq-ok
            (require (is_filesystem (Checkpoint.kind c.0) && not (Checkpoint.backend_ref c.0 == []))
              denied)
            _ c.2 in
        let found = or_fail-ok (found_checkpoint q state) not_found c.0 c.1 in
        record {
          sourced = inr (
            c.0,
            sym (ap (λ x. x.1) (ok_injective fits.1)),
            chosen id found,
            ground (
              arith,
              require-ok
                  (is_filesystem (Checkpoint.kind c.0) && not (Checkpoint.backend_ref c.0 == []))
                  denied fits.0,
            ),
          );
          revision = rw found (
              ap (λ (x : CreateSandboxInput × Option Checkpoint). x.0.environment_revision)
                (ok_injective fits.1));
        })
