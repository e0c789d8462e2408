-- ===== src/Domain/Records.antt =====
-- internal/domain/types.go: the records that the store keeps.
use brezel.Common.{ℕ, Bool, List, Option, Text, Time, ℤ}
use brezel.Domain.States.{SandboxState}
use brezel.Domain.Lifetimes.{Lifecycle, CheckpointKind}
use brezel.Domain.Mounts.{WorkspaceMount}
use brezel.Domain.Resources.{NetworkPolicy}

pub data WorkspaceState : Type 0 where
  preparing ready deleting deleted failed unknown : WorkspaceState

pub data OperationState : Type 0 where
  pending running succeeded failed : OperationState

pub record Failure : Type 0 where
  pub code : Text
  pub message : Text
  pub retryable : Bool

pub record Workspace : Type 0 where
  pub id : Text
  pub project_id : Text
  pub name : Text
  pub backend_id : Text
  pub backend_name : Text
  pub state : WorkspaceState
  pub cleanup_target : Option WorkspaceState
  pub created_at : Time
  pub updated_at : Time
  pub failure : Option Failure

pub record Sandbox : Type 0 where
  pub id : Text
  pub project_id : Text
  pub environment_revision : Text
  pub source_checkpoint_id : Text
  pub backend : Text
  pub backend_id : Text
  pub node_id : Text
  pub node_route_id : Text
  pub node_generation : ℕ
  pub state : SandboxState
  pub cleanup_target : Option SandboxState
  pub lifecycle : Lifecycle
  pub network : NetworkPolicy
  pub connector_revisions : List Text
  pub workspace_mounts : List WorkspaceMount
  pub created_at : Time
  pub updated_at : Time
  pub last_active_at : Time
  pub standby_eligible_at : Time
  pub expires_at : Time
  pub revision : ℤ
  pub failure : Option Failure

pub record Operation : Type 0 where
  pub id : Text
  pub project_id : Text
  pub kind : Text
  pub resource_id : Text
  pub state : OperationState
  pub idempotency_key : Text
  pub created_at : Time
  pub updated_at : Time
  pub failure : Option Failure

pub record Checkpoint : Type 0 where
  pub id : Text
  pub project_id : Text
  pub source_sandbox_id : Text
  pub environment_revision : Text
  pub backend : Text
  pub backend_ref : Text
  pub kind : CheckpointKind
  pub created_at : Time

pub record Connector : Type 0 where
  pub revision_id : Text
  pub project_id : Text
  pub name : Text
  pub destination : Text
  pub allowed_methods : List Text
  pub allowed_paths : List Text
  pub credential_ref : Text
  pub allow_private_network : Bool
  pub status : Text
  pub created_at : Time

-- The details are their JSON text, and `none` for nil.
pub record Event : Type 0 where
  pub id : Text
  pub sequence : ℤ
  pub project_id : Text
  pub resource_id : Text
  pub operation_id : Text
  pub kind : Text
  pub state : SandboxState
  pub at : Time
  pub details : Option Text
