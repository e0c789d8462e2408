-- ===== src/Controller/Together.antt =====
-- What holds in every reached state of internal/service's controller with its reconciliation.
use brezel.Common.{
  ℕ, ◌≡◌, ◌≢◌, refl, sym, subst, true, List, [], ◌∷◌, Option, none, some, All, Apart, All-map, Text,
  text_eq,
}
use brezel.Domain.States.{SandboxState, terminal}
use brezel.Store.{scoped_key}
use brezel.Store.Files.{Codec}
use brezel.Controller.Types.{Service, Outside}
use brezel.Controller.Repair.{
  Next, done, cleanup, observing, routing, missing, cleaning, removing, rerouting, Answer, look,
}
use brezel.Controller.Writes.{Valid, state_at}
use brezel.Controller.Keeping.{Guarded}
use brezel.Controller.Worlds.{Act, at_index, without, step}
use brezel.Controller.Reached.{unoccupied-Fenced, at_index-All, without-All, step-Fenced}
use brezel.Controller.Stepping.{Settled, Steps, ok-Steps}
use brezel.Controller.Repairing.{
  look-Steps, inspected-Steps, route_observed-Steps, begin_cleanup-Steps, begin_missing-Steps,
}
use brezel.Controller.Finishing.{
  route_reconciled-Finishes, end_cleanup-Finishes, end_missing-Finishes,
}
use brezel.Controller.Foreign.{step-Spares, step-Settled}
use brezel.Controller.Reading.{read}
use brezel.Controller.Read.{read-Steady}
use brezel.Controller.Holding.{served}
use brezel.Controller.System.{
  reading, Repair, System, Move, act, looking, proceeding, finishing, proceeded, let_go, proceed,
  finish, acted, move, run_system,
}
use brezel.Controller.Holding.{
  place_of, Own, Holds, Distinct, world, Excluded, Kept, gone_on-Kept, gone_on-Settled, released,
}

module _ (c : Codec) where
  proceeded-Steps :
      (o : Outside) (s : Service) (project id : Text) (n : Next) (a : Answer)
      → Valid s.files
      → Own (scoped_key project id) n
      → Steps (scoped_key project id) s (proceeded c o s project id n a)
  unfolding proceeded
  proceeded-Steps o s project id cleanup a valid own = begin_cleanup-Steps c s project id valid
  proceeded-Steps o s project id (observing revision backend_id) a valid own =
      inspected-Steps c o s project id revision backend_id a valid
  proceeded-Steps o s project id (routing v w state) a valid own =
      route_observed-Steps c o s project id v w state a valid own
  proceeded-Steps o s project id (missing v) a valid own =
      begin_missing-Steps c s project id v valid
  proceeded-Steps o s project id done a valid own = ok-Steps (scoped_key project id) s done valid tt
  proceeded-Steps o s project id (cleaning v) a valid own =
      ok-Steps (scoped_key project id) s done valid tt
  proceeded-Steps o s project id (removing v) a valid own =
      ok-Steps (scoped_key project id) s done valid tt
  proceeded-Steps o s project id (rerouting v w state) a valid own =
      ok-Steps (scoped_key project id) s done valid tt

  -- What letting go of a lock keeps.
  abbrev LetsGo : Text → Service → Service → Type 0
  LetsGo key s t = Valid t.files × ((k : Text) → k ≢ key → Guarded k s t) × Settled s.files t.files

  same-LetsGo : (key : Text) (s : Service) → Valid s.files → LetsGo key s s
  same-LetsGo key s valid = (valid, λ k other h. (h, (λ g. g), refl), λ k a t h. h)

  let_go-LetsGo :
      (o : Outside) (s : Service) (project id : Text) (n : Next) (a : Answer)
      → Valid s.files
      → Own (scoped_key project id) n
      → LetsGo (scoped_key project id) s (let_go c o s project id n a)
  unfolding let_go
  let_go-LetsGo o s project id (cleaning v) a valid own =
      end_cleanup-Finishes c o s project id v a valid own
  let_go-LetsGo o s project id (removing v) a valid own =
      end_missing-Finishes c o s project id v a valid own
  let_go-LetsGo o s project id (rerouting v w state) a valid own =
      route_reconciled-Finishes c o s project id v w state a valid own
  let_go-LetsGo o s project id done a valid own = same-LetsGo (scoped_key project id) s valid
  let_go-LetsGo o s project id cleanup a valid own = same-LetsGo (scoped_key project id) s valid
  let_go-LetsGo o s project id (observing revision backend_id) a valid own =
      same-LetsGo (scoped_key project id) s valid
  let_go-LetsGo o s project id (routing v w state) a valid own =
      same-LetsGo (scoped_key project id) s valid
  let_go-LetsGo o s project id (missing v) a valid own = same-LetsGo (scoped_key project id) s valid

  -- A step keeps what holds, and every terminal state.
  abbrev Keeps : System → System → Type 0
  Keeps y z = Kept z × Settled y.service.files z.service.files

  proceed-Keeps :
      (o : Outside) (y : System) (n : ℕ) (a : Answer) (r : Option Repair)
      → at_index n y.seen ≡ r
      → Kept y
      → Keeps y (proceed c o y n a r)
  unfolding proceed
  proceed-Keeps o y n a none at kept = (kept, λ k b over h. h)
  proceed-Keeps o y n a (some r) at kept =
      let rest = record y { seen = without n y.seen } in
      let own = at_index-All (λ (q : Repair). Own (place_of q) q.next) n y.seen r at kept.1.0 in
      let st = proceeded-Steps o y.service r.project r.id r.next a kept.0.0.0 own in
      let kept' : Kept rest = (
        kept.0,
        (without-All (λ (q : Repair). Own (place_of q) q.next) n y.seen kept.1.0, kept.1.1),
      ) in
      (
        gone_on-Kept rest r.project r.id (proceeded c o y.service r.project r.id r.next a) st kept',
        gone_on-Settled rest r.project r.id (proceeded c o y.service r.project r.id r.next a) st,
      )

  finish-Keeps :
      (o : Outside) (y : System) (n : ℕ) (a : Answer) (r : Option Repair)
      → at_index n y.held ≡ r
      → Kept y
      → Keeps y (finish c o y n a r)
  unfolding finish
  finish-Keeps o y n a none at kept = (kept, λ k b over h. h)
  finish-Keeps o y n a (some r) at kept =
      let own = at_index-All (λ (q : Repair). Own (place_of q) q.next) n y.held r at kept.1.1 in
      let (valid, guarded, settled) =
        let_go-LetsGo o y.service r.project r.id r.next a kept.0.0.0 own in
      (released y (let_go c o y.service r.project r.id r.next a) n r at valid guarded kept, settled)

  acted-Kept :
      (o : Outside) (a : Act) (y : System)
      → Kept y
      → Kept (acted c (step c o a (record { service = y.service; pending = y.pending })) y)
  unfolding acted
  acted-Kept o a y ((fenced, apart, holds), owned) =
      let w = world y in
      let next = step c o a w in
      (
        (
          step-Fenced c o a w fenced,
          apart,
          All-map (Holds y.service y.pending) (Holds next.service next.pending)
              (λ r (locked, idle, spared).
                let (guarded, spares) = step-Spares c (place_of r) o a w fenced spared in
                let kept = guarded locked in (kept.0, kept.1 idle, spares locked))
              y.held holds,
        ),
        owned,
      )

  move-Keeps : (o : Outside) (m : Move) (y : System) → Kept y → Keeps y (move c o m y)
  unfolding move acted
  move-Keeps o (act a) y kept = (acted-Kept o a y kept, step-Settled c o a (world y) kept.0.0)
  move-Keeps o (looking b project id) y kept =
      let st = look-Steps c o b y.service project id kept.0.0.0 in
      (
        gone_on-Kept y project id (look c o b y.service project id) st kept,
        gone_on-Settled y project id (look c o b y.service project id) st,
      )
  move-Keeps o (reading project id a) y kept =
      let (valid, guarded, settled) = read-Steady c o y.service project id a kept.0.0.0 in
      (served y (read c o y.service project id a).0 valid guarded kept, settled)
  move-Keeps o (proceeding n a) y kept = proceed-Keeps o y n a (at_index n y.seen) refl kept
  move-Keeps o (finishing n a) y kept = finish-Keeps o y n a (at_index n y.held) refl kept

  run-Keeps : (moves : List (Outside × Move)) (y : System) → Kept y → Keeps y (run_system c moves y)
  unfolding run_system
  run-Keeps [] y kept = (kept, λ k b over h. h)
  run-Keeps ((o, m) ∷ moves) y kept =
      let (mid, settled) = move-Keeps o m y kept in
      let (end, settles) = run-Keeps moves (move c o m y) mid in
      (end, λ k b over h. settles k b over (settled k b over h))

  unoccupied-Kept :
      (y : System) → Valid y.service.files → y.pending ≡ [] → y.seen ≡ [] → y.held ≡ [] → Kept y
  unoccupied-Kept y valid pending seen held = (
    (
      unoccupied-Fenced (world y) valid pending,
      subst (Apart Distinct) (sym held) tt,
      subst (All (Holds y.service y.pending)) (sym held) tt,
    ),
    (
      subst (All (λ (r : Repair). Own (place_of r) r.next)) (sym seen) tt,
      subst (All (λ (r : Repair). Own (place_of r) r.next)) (sym held) tt,
    ),
  )

  -- From a controller with a valid store, where nothing waits, whatever requests, guest
  -- operations, ends of backend calls, calls of GetSandbox and steps of reconciliations come, in
  -- any order, with any answers of the backend and the node and any failing calls of the file
  -- system: the store stays valid, and the lifecycle actions that wait and the reconciliations
  -- that wait with a lock are all of different sandboxes, each of which is locked and has no guest
  -- operation; and the sandbox of each such action has in the store the state with which the
  -- action called the backend, from which the unknown state is allowed.
  pub run_system-Excluded :
      (moves : List (Outside × Move)) (y : System)
      → Valid y.service.files
      → y.pending ≡ []
      → y.seen ≡ []
      → y.held ≡ []
      → Excluded (run_system c moves y)
  run_system-Excluded moves y valid pending seen held =
      (run-Keeps moves y (unoccupied-Kept y valid pending seen held)).0.0

  -- From a controller with a valid store, where nothing waits, whatever requests, guest
  -- operations, ends of backend calls, calls of GetSandbox and steps of reconciliations come, in
  -- any order, with any answers of the backend and the node and any failing calls of the file
  -- system: a sandbox whose stored state is deleted, expired or failed keeps that state.
  pub run_system-settles :
      (moves : List (Outside × Move)) (y : System) (k : Text) (a : SandboxState)
      → Valid y.service.files
      → y.pending ≡ []
      → y.seen ≡ []
      → y.held ≡ []
      → terminal a ≡ true
      → state_at k y.service.files ≡ some a
      → state_at k (run_system c moves y).service.files ≡ some a
  run_system-settles moves y k a valid pending seen held over was =
      (run-Keeps moves y (unoccupied-Kept y valid pending seen held)).1 k a over was
