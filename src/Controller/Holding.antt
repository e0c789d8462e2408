-- ===== src/Controller/Holding.antt =====
-- What the steps of internal/service's reconciliation keep of the locks that others hold.
use brezel.Common.{
  ℕ, ◌≡◌, ◌≢◌, refl, sym, subst, arith, true, List, [], ◌∷◌, some, All, Apart, All-map, contains,
  Text, text_eq, ok, err,
}
use brezel.Store.{scoped_key}
use brezel.Controller.Types.{Service, key_of, guests_of}
use brezel.Controller.Transitions.{Called}
use brezel.Controller.Repair.{
  Next, done, cleanup, observing, routing, missing, cleaning, removing, rerouting,
}
use brezel.Controller.Writes.{Valid}
use brezel.Controller.Keeping.{Guarded, Locked-Guarded}
use brezel.Controller.Worlds.{Pending, World, at_index, without}
use brezel.Controller.Reached.{
  Exclusive, Fenced, Quiet-Fenced, at_index-All, without-All, without-Apart, without-others,
  both_All,
}
use brezel.Controller.Stepping.{Settled, Takes, After, Steps}
use brezel.Controller.Foreign.{Spared}
use brezel.Controller.System.{Repair, System, remembered, gone_on}

abbrev pub place_of : Repair → Text
place_of r = scoped_key r.project r.id

-- What a reconciliation is to write is of its sandbox.
abbrev pub Own : Text → Next → Type 0
Own key (routing expected observed state) = key_of observed ≡ key
Own key (cleaning v) = key_of v ≡ key
Own key (removing v) = key_of v ≡ key
Own key (rerouting expected observed state) = key_of observed ≡ key
Own key _ = Unit

-- A reconciliation that holds a lock: no guest operation runs, and no lifecycle action waits.
abbrev pub Holds : Service → List Pending → Repair → Type 0
Holds s ps r =
    (contains (place_of r) s.active_backend_mutations ≡ true)
    × (guests_of s (place_of r) ≡ [])
    × Spared (place_of r) ps

abbrev pub Distinct : Repair → Repair → Type 0
Distinct r q = place_of r ≢ place_of q

abbrev pub world : System → World
world y = record { service = y.service; pending = y.pending }

-- The lifecycle actions and the reconciliations that hold a lock have their sandboxes to themselves.
abbrev pub Excluded : System → Type 0
Excluded y =
    Fenced (record { service = y.service; pending = y.pending })
    × Apart Distinct y.held
    × All (Holds y.service y.pending) y.held

abbrev pub Owned : System → Type 0
Owned y =
    All (λ (r : Repair). Own (place_of r) r.next) y.seen
    × All (λ (r : Repair). Own (place_of r) r.next) y.held

abbrev pub Kept : System → Type 0
Kept y = Excluded y × Owned y

Guarded-Holds :
    (s t : Service) (ps : List Pending) (r : Repair)
    → Guarded (place_of r) s t
    → Holds s ps r
    → Holds t ps r
Guarded-Holds s t ps r g (locked, idle, spared) =
    let kept = g locked in (kept.0, kept.1 idle, spared)

-- A step that keeps every locked sandbox.
pub served :
    (y : System) (t : Service)
    → Valid t.files
    → ((k : Text) → Guarded k y.service t)
    → Kept y
    → Kept (record y { service = t })
served y t valid guarded ((fenced, apart, holds), owned) = (
  (
    Quiet-Fenced y.service t y.pending valid guarded fenced,
    apart,
    All-map (Holds y.service y.pending) (Holds t y.pending)
        (λ r. Guarded-Holds y.service t y.pending r (guarded (place_of r))) y.held holds,
  ),
  owned,
)

-- A reconciliation takes a lock.
taken :
    (y : System) (t : Service) (r : Repair)
    → Kept y
    → Kept (record y { service = t })
    → Takes y.service t (place_of r)
    → Own (place_of r) r.next
    → Kept (record y { service = t; held = r ∷ y.held })
taken y t r ((fenced, apart, holds), owned) ((fenced', apart', holds'), owned') (free, locked, idle)
      own =
    let fresh : (k : Text) → contains k y.service.active_backend_mutations ≡ true → k ≢ place_of r =
      λ k h same.
        ground
          (arith, subst (λ x. contains x y.service.active_backend_mutations ≡ true) same h, free) in
    (
      (
        fenced',
        (
          All-map (Holds y.service y.pending) (Distinct r)
              (λ q (there, idle_, spared) same. fresh (place_of q) there (sym same)) y.held holds,
          apart,
        ),
        (
          (
            locked,
            idle,
            All-map (Exclusive y.service) (λ p. p.key ≢ place_of r)
                (λ p (own_, leaves). fresh p.key own_.0) y.pending fenced.2,
          ),
          holds',
        ),
      ),
      (owned.0, (own, owned.1)),
    )

remembered-Kept :
    (y : System) (project id : Text) (t : Service) (n : Next)
    → Kept y
    → Kept (record y { service = t })
    → After y.service t (scoped_key project id) n
    → Kept (remembered project id n (record y { service = t }))
unfolding remembered
remembered-Kept y project id t done kept kept' after = kept'
remembered-Kept y project id t cleanup kept kept' after = (kept'.0, ((tt, kept'.1.0), kept'.1.1))
remembered-Kept y project id t (observing revision backend_id) kept kept' after =
    (kept'.0, ((tt, kept'.1.0), kept'.1.1))
remembered-Kept y project id t (routing v w state) kept kept' after =
    (kept'.0, ((after, kept'.1.0), kept'.1.1))
remembered-Kept y project id t (missing v) kept kept' after =
    (kept'.0, ((tt, kept'.1.0), kept'.1.1))
remembered-Kept y project id t (cleaning v) kept kept' (takes, own) =
    taken y t (record { project = project; id = id; next = cleaning v }) kept kept' takes own
remembered-Kept y project id t (removing v) kept kept' (takes, own) =
    taken y t (record { project = project; id = id; next = removing v }) kept kept' takes own
remembered-Kept y project id t (rerouting v w state) kept kept' (takes, own) =
    taken y t (record { project = project; id = id; next = rerouting v w state }) kept kept' takes
      own

pub gone_on-Kept :
    (y : System) (project id : Text) (out : Called Next)
    → Steps (scoped_key project id) y.service out
    → Kept y
    → Kept (gone_on project id y out)
unfolding gone_on
gone_on-Kept y project id (t, err e) st kept = served y t st.valid st.guarded kept
gone_on-Kept y project id (t, ok n) st kept =
    remembered-Kept y project id t n kept (served y t st.valid st.guarded kept) (st.after n refl)

pub gone_on-Settled :
    (y : System) (project id : Text) (out : Called Next)
    → Steps (scoped_key project id) y.service out
    → Settled y.service.files (gone_on project id y out).service.files
unfolding gone_on remembered
gone_on-Settled y project id (t, err e) st = st.settled
gone_on-Settled y project id (t, ok done) st = st.settled
gone_on-Settled y project id (t, ok cleanup) st = st.settled
gone_on-Settled y project id (t, ok (observing revision backend_id)) st = st.settled
gone_on-Settled y project id (t, ok (routing v w state)) st = st.settled
gone_on-Settled y project id (t, ok (missing v)) st = st.settled
gone_on-Settled y project id (t, ok (cleaning v)) st = st.settled
gone_on-Settled y project id (t, ok (removing v)) st = st.settled
gone_on-Settled y project id (t, ok (rerouting v w state)) st = st.settled

-- A step that lets go of one lock.
pub released :
    (y : System) (t : Service) (n : ℕ) (r : Repair)
    → at_index n y.held ≡ some r
    → Valid t.files
    → ((k : Text) → k ≢ place_of r → Guarded k y.service t)
    → Kept y
    → Kept (record y { service = t; held = without n y.held })
released y t n r at valid guarded ((fenced, apart, holds), owned) =
    let own = at_index-All (Holds y.service y.pending) n y.held r at holds in
    (
      (
        (
          valid,
          fenced.1,
          All-map (λ p. (p.key ≢ place_of r) × Exclusive y.service p) (Exclusive t)
              (λ p (other, (locked, leaves)).
                (Locked-Guarded y.service t p.key p.sandbox (guarded p.key other) locked, leaves))
              y.pending
              (both_All (λ p. p.key ≢ place_of r) (Exclusive y.service) y.pending own.2 fenced.2),
        ),
        without-Apart Distinct n y.held apart,
        All-map (λ q. Distinct r q × Holds y.service y.pending q) (Holds t y.pending)
            (λ q (other, h).
              Guarded-Holds y.service t y.pending q (guarded (place_of q) (λ e. other (sym e))) h)
            (without n y.held)
            (both_All (Distinct r) (Holds y.service y.pending) (without n y.held)
              (without-others Distinct (λ x z ne e. ne (sym e)) n y.held r at apart)
              (without-All (Holds y.service y.pending) n y.held holds)),
      ),
      (owned.0, without-All (λ (q : Repair). Own (place_of q) q.next) n y.held owned.1),
    )
