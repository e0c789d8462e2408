-- ===== src/Controller/Worlds.antt =====
-- The controller of internal/service with the lifecycle actions that wait for their backend call:
-- any steps may come between the two steps of an action.
use brezel.Common.{ℕ, zero, suc, List, [], ◌∷◌, Option, none, some, Text, codes, Time, ok, err}
use brezel.Domain.States.{SandboxState, running, pausing, standby, resuming, deleted}
use brezel.Domain.Records.{Sandbox, Operation}
use brezel.Store.{scoped_key}
use brezel.Store.Files.{Codec}
use brezel.Controller.Types.{Service, Outside}
use brezel.Controller.Transitions.{Called, record_activity}
use brezel.Controller.Actions.{
  Begun, replayed, begun, Placement, placed, begin_action, begin_delete, end_action, pause_if_idle,
}
use brezel.Controller.Guests.{acquire_guest_operation, release_guest_operation}

-- An action in its backend call: its sandbox, its operation and what it leads to.
pub record Pending : Type 0 where
  pub key : Text
  pub sandbox : Sandbox
  pub op : Operation
  pub target : SandboxState

pub record World : Type 0 where
  pub service : Service
  pub pending : List Pending

-- A step, with the project, the sandbox and the idempotency key of its request.
pub data Act : Type 0 where
  pause resume deletion idle_pause : Text → Text → Text → Act
  -- the end of the n-th action: where the sandbox runs now, and the failure's code
  ending : ℕ → Placement → Option Text → Act
  acquiring : ℕ → Text → Text → Text → Act
  releasing : Text → Text → Text → Sandbox → Act
  activity : Text → Text → Time → Act

unfoldable pub started : Text → SandboxState → List Pending → Called Begun → World
started key target pending (s, ok (begun sandbox op)) = record {
  service = s;
  pending = record { key = key; sandbox = sandbox; op = op; target = target } ∷ pending;
}
started key target pending (s, ok (replayed sandbox op)) = record { service = s; pending = pending }
started key target pending (s, err e) = record { service = s; pending = pending }

unfoldable pub idly : Called (Option Begun) → Called Begun
idly (s, ok (some b)) = (s, ok b)
idly (s, ok none) = (s, err brezel.Controller.Types.conflict)
idly (s, err e) = (s, err e)

unfoldable pub at_index : {A : Type 0} → ℕ → List A → Option A
at_index n [] = none
at_index zero (p ∷ ps) = some p
at_index (suc n) (p ∷ ps) = at_index n ps

unfoldable pub without : {A : Type 0} → ℕ → List A → List A
without n [] = []
without zero (p ∷ ps) = ps
without (suc n) (p ∷ ps) = p ∷ without n ps

module _ (c : Codec) where
  unfoldable pub ended : Outside → World → ℕ → Placement → Option Text → Option Pending → World
  ended o w n place failure none = w
  ended o w n place failure (some p) = record {
    service = end_action c o w.service p.key (placed place p.sandbox) p.op p.target failure;
    pending = without n w.pending;
  }

  unfoldable pub step : Outside → Act → World → World
  step o (pause project id key) w =
      started (scoped_key project id) standby w.pending
        (begin_action c o w.service project id key (codes "pause_sandbox") running pausing)
  step o (resume project id key) w =
      started (scoped_key project id) running w.pending
        (begin_action c o w.service project id key (codes "resume_sandbox") standby resuming)
  step o (deletion project id key) w =
      started (scoped_key project id) deleted w.pending (begin_delete c o w.service project id key)
  step o (idle_pause project id key) w =
      started (scoped_key project id) standby w.pending
        (idly (pause_if_idle c o w.service project id key))
  step o (ending n place failure) w = ended o w n place failure (at_index n w.pending)
  step o (acquiring limit project id operation) w = record {
    service = (acquire_guest_operation c o w.service limit project id operation).0;
    pending = w.pending;
  }
  step o (releasing project id operation sandbox) w = record {
    service = release_guest_operation c o w.service project id operation sandbox;
    pending = w.pending;
  }
  step o (activity project id at) w = record {
    service = (record_activity c o w.service project id at).0;
    pending = w.pending;
  }

  unfoldable pub run : List (Outside × Act) → World → World
  unfolding step
  run [] w = w
  run ((o, a) ∷ rest) w = run rest (step o a w)
