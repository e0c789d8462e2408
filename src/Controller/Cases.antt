-- ===== src/Controller/Cases.antt =====
-- The kinds of step of internal/service's lifecycle actions and guest operations.
use brezel.Common.{ℕ, refl, Option, Text, codes}
use brezel.Domain.States.{SandboxState, running, pausing, standby, resuming, deleted}
use brezel.Store.Files.{Codec}
use brezel.Controller.Types.{Service, Outside}
use brezel.Controller.Transitions.{Called, find_sandbox}
use brezel.Controller.Actions.{Begun, Placement, pause_if_idle}
use brezel.Controller.Writes.{Valid}
use brezel.Controller.Keeping.{Starts}
use brezel.Controller.Exclusion.{
  begin_action-Starts, begin_delete-Starts, activity_lem, idle-Starts, pausing_lem, resuming_lem,
}
use brezel.Controller.Serving.{Quiet, acquire-Quiet, release-Quiet}
use brezel.Controller.Worlds.{
  World, Act, pause, resume, deletion, idle_pause, ending, acquiring, releasing, activity, started,
  at_index, ended, step,
}

-- A step begins an action, ends one, or changes no sandbox's state.
pub step_cases :
    (c : Codec) (o : Outside) (Q : World → Type 0) (a : Act) (w : World)
    → Valid w.service.files
    → ((key : Text) (target : SandboxState) (out : Called Begun)
        → Starts key w.service out
        → Q (started key target w.pending out))
    → ((n : ℕ) (place : Placement) (failure : Option Text)
        → Q (ended c o w n place failure (at_index n w.pending)))
    → ((t : Service) → Quiet w.service t → Q (record { service = t; pending = w.pending }))
    → Q (step c o a w)
unfolding step pause_if_idle
step_cases c o Q (pause project id key) w valid begins ends keeps = begins _ standby _ (
    begin_action-Starts c o w.service project id key (codes "pause_sandbox") running pausing valid
      pausing_lem)
step_cases c o Q (resume project id key) w valid begins ends keeps = begins _ running _ (
    begin_action-Starts c o w.service project id key (codes "resume_sandbox") standby resuming valid
      resuming_lem)
step_cases c o Q (deletion project id key) w valid begins ends keeps =
    begins _ deleted _ (begin_delete-Starts c o w.service project id key valid)
step_cases c o Q (idle_pause project id key) w valid begins ends keeps =
    begins _ standby _
      (idle-Starts c o w.service project id key (find_sandbox w.service project id) valid refl)
step_cases c o Q (ending n place failure) w valid begins ends keeps = ends n place failure
step_cases c o Q (acquiring limit project id operation) w valid begins ends keeps =
    keeps _ (acquire-Quiet c o w.service limit project id operation valid)
step_cases c o Q (releasing project id operation sandbox) w valid begins ends keeps =
    keeps _ (release-Quiet c o w.service project id operation sandbox valid)
step_cases c o Q (activity project id at) w valid begins ends keeps =
    keeps _ (activity_lem c o w.service project id at valid)
