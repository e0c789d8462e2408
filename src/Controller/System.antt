-- ===== src/Controller/System.antt =====
-- The controller of internal/service with its reconciliation: any steps of the lifecycle actions,
-- the guest operations and the reconciliations of sandboxes may come between each other.
use brezel.Common.{ℕ, Bool, List, [], ◌∷◌, Option, none, some, Text, ok, err}
use brezel.Store.Files.{Codec}
use brezel.Controller.Types.{Service, Outside}
use brezel.Controller.Transitions.{Called}
use brezel.Controller.Repair.{
  Next, done, cleanup, observing, routing, missing, cleaning, removing, rerouting, Answer, look,
  inspected, route_observed, route_reconciled, begin_cleanup, end_cleanup, begin_missing,
  end_missing,
}
use brezel.Controller.Reading.{read}
use brezel.Controller.Worlds.{Pending, World, Act, at_index, without, step}

-- A reconciliation of a sandbox between two of its steps.
pub record Repair : Type 0 where
  pub project : Text
  pub id : Text
  pub next : Next

-- The lifecycle actions, the reconciliations without a lock, and those that hold one.
pub record System : Type 0 where
  pub service : Service
  pub pending : List Pending
  pub seen : List Repair
  pub held : List Repair

pub data Move : Type 0 where
  act : Act → Move
  -- the start of a reconciliation, whose context may be cancelled
  looking : Bool → Text → Text → Move
  -- GetSandbox
  reading : Text → Text → Answer → Move
  -- the next step of the n-th reconciliation without a lock, and of the n-th with one
  proceeding finishing : ℕ → Answer → Move

-- The reconciliation goes on, or has ended.
unfoldable pub remembered : Text → Text → Next → System → System
remembered project id done y = y
remembered project id (cleaning v) y = record y {
  held = record { project = project; id = id; next = cleaning v } ∷ y.held;
}
remembered project id (removing v) y = record y {
  held = record { project = project; id = id; next = removing v } ∷ y.held;
}
remembered project id (rerouting v w state) y = record y {
  held = record { project = project; id = id; next = rerouting v w state } ∷ y.held;
}
remembered project id next y = record y {
  seen = record { project = project; id = id; next = next } ∷ y.seen;
}

unfoldable pub gone_on : Text → Text → System → Called Next → System
gone_on project id y (s, err e) = record y { service = s }
gone_on project id y (s, ok next) = remembered project id next (record y { service = s })

module _ (c : Codec) where
  unfoldable pub proceeded : Outside → Service → Text → Text → Next → Answer → Called Next
  proceeded o s project id cleanup a = begin_cleanup c s project id
  proceeded o s project id (observing revision backend_id) a =
      inspected c o s project id revision backend_id a
  proceeded o s project id (routing expected observed state) a =
      route_observed c o s project id expected observed state a
  proceeded o s project id (missing v) a = begin_missing c s project id v
  proceeded o s project id _ a = (s, ok done)

  unfoldable pub let_go : Outside → Service → Text → Text → Next → Answer → Service
  let_go o s project id (cleaning v) a = (end_cleanup c o s project id v a).0
  let_go o s project id (removing v) a = (end_missing c o s project id v a).0
  let_go o s project id (rerouting expected observed state) a =
      (route_reconciled c o s project id expected observed state a).0
  let_go o s project id _ a = s

  unfoldable pub proceed : Outside → System → ℕ → Answer → Option Repair → System
  proceed o y n a none = y
  proceed o y n a (some r) =
      gone_on r.project r.id (record y { seen = without n y.seen })
        (proceeded o y.service r.project r.id r.next a)

  unfoldable pub finish : Outside → System → ℕ → Answer → Option Repair → System
  finish o y n a none = y
  finish o y n a (some r) = record y {
    service = let_go o y.service r.project r.id r.next a;
    held = without n y.held;
  }

  unfoldable pub acted : World → System → System
  acted w y = record y { service = w.service; pending = w.pending }

  unfoldable pub move : Outside → Move → System → System
  move o (act a) y = acted (step c o a (record { service = y.service; pending = y.pending })) y
  move o (looking is_cancelled project id) y =
      gone_on project id y (look c o is_cancelled y.service project id)
  move o (reading project id a) y = record y { service = (read c o y.service project id a).0 }
  move o (proceeding n a) y = proceed o y n a (at_index n y.seen)
  move o (finishing n a) y = finish o y n a (at_index n y.held)

  unfoldable pub run_system : List (Outside × Move) → System → System
  unfolding move
  run_system [] y = y
  run_system ((o, m) ∷ rest) y = run_system rest (move o m y)
