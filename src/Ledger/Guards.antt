-- ===== src/Ledger/Guards.antt =====
-- The changes of nodeledger's methods lead from valid states to valid states.
use brezel.Common.{
  ℕ, ◌+◌, ◌≤◌, ◌<◌, ◌≡◌, ◌≢◌, refl, sym, ◌∙◌, ◌⊎◌, inl, inr, true, false, List, [], ◌∷◌, some,
  arith, ◌==◌, nat_eq, Bool-cases, length, Apart-delete, delete-Keyed, length-insert-le,
  length-insert_held, length-delete-le, ok, Text, text_eq, safe_name, Time, is_zero, is_utc_offset,
  lookup, insert, All-delete, All-lookup,
}
use brezel.Ledger.Types.{
  State, attaching, ready, draining, standby, released, unrecognised, state_eq, state_beq_iff,
  DiskEntry, DiskState, OperationKey, max_routes,
}
use brezel.Ledger.Checks.{
  valid_state, allowed_transition, valid_engine_id, valid_route_identity, sandbox_key,
}
use brezel.Ledger.Operations.{
  bind_change, rebind_change, transition_change, touch_change, remove_change,
}
use brezel.Ledger.Changes.{
  bind_change-Bound, rebind_change-Rebound, transition_change-Moved, touch_change-Touched,
  remove_change-Expected, new_entry, moved,
}
use brezel.Ledger.Validity.{EntryValid, Separate}
use brezel.Ledger.Storing.{
  assignment_conflicts-Free, Separate-sym, WellFormed, store_fresh-WellFormed,
  store_same-WellFormed,
}

stored-EntryValid :
    (s : DiskState) (route : Text) (old : DiskEntry)
    → WellFormed s
    → lookup route s.routes ≡ some old
    → EntryValid s.last_generation route old
stored-EntryValid s route old w held = All-lookup _ route old s.routes w.valid.entries held

named_key : (c : Text × DiskEntry) (n : ℕ) → EntryValid n c.0 c.1 → c.0 ≢ []
unfolding valid_route_identity safe_name
named_key c n u p = unnamed c.1.route_id (sym u.keyed ∙ p) (ground arith)
  where
    unnamed : (t : Text) → t ≡ [] → safe_name t ≢ true
    unnamed [] p h = cc
    unnamed (x ∷ t) p h = cc

-- Bind: the route that it adds fits in, if there is room for one more.
pub bind_change-WellFormed :
    (route project sandbox engine : Text) (at : Time) (s next : DiskState) (e : DiskEntry)
    → WellFormed s
    → valid_route_identity route project sandbox ≡ true
    → valid_engine_id engine ≡ true
    → is_zero at ≡ false
    → is_utc_offset at.offset ≡ true
    → length s.routes < max_routes
    → bind_change route project sandbox engine at s ≡ ok (next, e)
    → WellFormed next
unfolding valid_state
bind_change-WellFormed route project sandbox engine at s next e w ids target timed in_utc room h =
    let b = bind_change-Bound route project sandbox engine at s next e h in
    let v : EntryValid (s.last_generation + 1) route
        (new_entry route project sandbox engine (s.last_generation + 1) at) =
      record {
        keyed = refl;
        named = ids;
        positive = omega arith;
        clocked = omega arith;
        known = refl;
        timed = timed;
        in_utc = in_utc;
        target = inr (λ p. cc, target);
      } in
    let free = assignment_conflicts-Free s.routes [] project sandbox engine b.free in
    rw (b.stored, b.entry)
      (store_fresh-WellFormed s route []
        (new_entry route project sandbox engine (s.last_generation + 1) at) w refl v free
        (λ c other u. named_key c s.last_generation u)
        (omega (
          arith,
          length-insert-le route (new_entry route project sandbox engine (s.last_generation + 1) at)
              s.routes,
        )))

-- Rebind
pub rebind_change-WellFormed :
    (route : Text) (expected : ℕ) (state : State) (engine : Text) (at : Time) (s next : DiskState)
    (e : DiskEntry)
    → WellFormed s
    → valid_engine_id engine ≡ true
    → is_zero at ≡ false
    → is_utc_offset at.offset ≡ true
    → rebind_change route expected state engine at s ≡ ok (next, e)
    → WellFormed next
unfolding valid_state
rebind_change-WellFormed route expected state engine at s next e w target timed in_utc h =
    let (old, x, b) = rebind_change-Rebound route expected state engine at s next e h in
    let u = stored-EntryValid s route old w x.held in
    let e' : DiskEntry = record {
      route_id = old.route_id;
      project_id = old.project_id;
      sandbox_id = old.sandbox_id;
      engine_id = engine;
      generation = s.last_generation + 1;
      state = attaching;
      last_activity = at;
    } in
    let v : EntryValid (s.last_generation + 1) route e' = record {
      keyed = u.keyed;
      named = u.named;
      positive = omega arith;
      clocked = omega arith;
      known = refl;
      timed = timed;
      in_utc = in_utc;
      target = inr (λ p. cc, target);
    } in
    let free =
      assignment_conflicts-Free s.routes route old.project_id old.sandbox_id engine b.free in
    let room : length (insert route e' s.routes) ≤ max_routes =
      rw (length-insert_held route e' old s.routes x.held) w.valid.bounded in
    rw (b.stored, b.entry)
      (store_fresh-WellFormed s route route e' w refl v free (λ c other u. other) room)

pub allowed_transition-known :
    (from to : State)
    → allowed_transition from to ≡ true
    → (valid_state to ≡ true) × (from ≢ released)
unfolding allowed_transition valid_state
allowed_transition-known attaching to h =
    (ground (arith, state_beq_iff to ready, state_beq_iff to released), λ p. cc)
allowed_transition-known ready to h = (ground (arith, state_beq_iff to draining), λ p. cc)
allowed_transition-known draining to h = (
  ground (arith, state_beq_iff to ready, state_beq_iff to standby, state_beq_iff to released),
  λ p. cc,
)
allowed_transition-known standby to h = (ground (arith, state_beq_iff to released), λ p. cc)
allowed_transition-known released to h = cc
allowed_transition-known (unrecognised t) to h = cc

moved-EntryValid :
    (n : ℕ) (k : Text) (old : DiskEntry) (to : State)
    → valid_state to ≡ true
    → old.state ≢ released
    → EntryValid n k old
    → EntryValid n k (moved old to)
moved-EntryValid n k old to known live v = record {
  keyed = v.keyed;
  named = v.named;
  positive = v.positive;
  clocked = v.clocked;
  known = known;
  timed = v.timed;
  in_utc = v.in_utc;
  target = elim (Bool-cases (to == released)) [
    | inl done ↦ inl ((state_beq_iff to released).0 done, rw done)
    | inr more ↦ inr (λ p. ground (arith, state_beq_iff to released), ground arith)
  ];
}

live_targets :
    (old b : DiskEntry)
    → old.state ≢ released
    → Separate old b
    → (b.state ≡ released)
      ⊎ ((old.engine_id ≢ b.engine_id)
          × (sandbox_key old.project_id old.sandbox_id ≢ sandbox_key b.project_id b.sandbox_id))
live_targets old b live sep = elim sep.targets [ inl p ↦ absurd (live p) | inr t ↦ t ]

moved-Separate :
    (old b : DiskEntry) (to : State)
    → old.state ≢ released
    → Separate old b
    → Separate (moved old to) b
moved-Separate old b to live sep = record {
  generations = sep.generations;
  targets = elim (Bool-cases (to == released)) [
    | inl done ↦ inl ((state_beq_iff to released).0 done)
    | inr more ↦ inr (rw more (live_targets old b live sep))
  ];
}

-- Transition
pub transition_change-WellFormed :
    (active : List (OperationKey × ℕ)) (route : Text) (expected : ℕ) (from to : State)
    (s next : DiskState) (e : DiskEntry)
    → WellFormed s
    → transition_change active route expected from to s ≡ ok (next, e)
    → WellFormed next
transition_change-WellFormed active route expected from to s next e w h =
    let (old, x, b) = transition_change-Moved active route expected from to s next e h in
    let (known, live) = allowed_transition-known from to b.allowed in
    let live' : old.state ≢ released = λ p. live (sym x.in_state ∙ p) in
    rw (b.stored, b.entry)
      (store_same-WellFormed s route old (moved old to) w x.held refl
        (moved-EntryValid s.last_generation route old to known live'
          (stored-EntryValid s route old w x.held))
        (λ c sep. moved-Separate old c.1 to live' sep))

pub touch_change-WellFormed :
    (route : Text) (expected : ℕ) (state : State) (at : Time) (s next : DiskState) (e : DiskEntry)
    → WellFormed s
    → is_zero at ≡ false
    → is_utc_offset at.offset ≡ true
    → touch_change route expected state at s ≡ ok (next, e)
    → WellFormed next
touch_change-WellFormed route expected state at s next e w timed in_utc h =
    let (old, x, b) = touch_change-Touched route expected state at s next e h in
    let v = stored-EntryValid s route old w x.held in
    let e' : DiskEntry = record {
      route_id = old.route_id;
      project_id = old.project_id;
      sandbox_id = old.sandbox_id;
      engine_id = old.engine_id;
      generation = old.generation;
      state = old.state;
      last_activity = at;
    } in
    rw (b.stored, b.entry)
      (store_same-WellFormed s route old e' w x.held refl
        (record {
          keyed = v.keyed;
          named = v.named;
          positive = v.positive;
          clocked = v.clocked;
          known = v.known;
          timed = timed;
          in_utc = in_utc;
          target = v.target;
        })
        (λ c sep. record { generations = sep.generations; targets = sep.targets }))

pub remove_change-WellFormed :
    (route : Text) (expected : ℕ) (state : State) (s next : DiskState)
    → WellFormed s
    → remove_change route expected state s ≡ ok (next, tt)
    → WellFormed next
remove_change-WellFormed route expected state s next w h =
    let (old, x, stored) = remove_change-Expected route expected state s next h in
    rw stored (record {
      valid = record {
        versioned = w.valid.versioned;
        present = w.valid.present;
        bounded = omega (arith, length-delete-le route s.routes, w.valid.bounded);
        entries = All-delete _ route s.routes w.valid.entries;
        apart = Apart-delete _ Separate-sym route s.routes w.valid.apart;
      };
      keyed = delete-Keyed route s.routes w.keyed;
    })
