-- ===== src/Ledger/Changes.antt =====
-- What a change that succeeds found in the state, and what it wrote there.
use brezel.Common.{
  ℕ, ◌+◌, ◌≡◌, ◌≢◌, true, false, none, some, arith, ◌==◌, nat_eq, ok, >>=-eq-ok, ◌⊎◌, Text, text_eq,
  Time, before, if◌then◌else◌, lookup, delete, List, [], Option-cases, inl, inr,
}
use brezel.Ledger.Types.{
  State, attaching, draining, standby, released, state_eq, state_beq_iff, DiskEntry, DiskState,
  OperationKey, max_uint64,
}
use brezel.Ledger.Checks.{allowed_transition, next_generation, assignment_conflicts}
use brezel.Ledger.Operations.{
  store_entry, bind_change, expect, rebind_change, transition_change, touch_change, remove_change,
  has_active_operations,
}

abbrev pub new_entry : Text → Text → Text → Text → ℕ → Time → DiskEntry
new_entry route project sandbox engine generation at = record {
  route_id = route;
  project_id = project;
  sandbox_id = sandbox;
  engine_id = engine;
  generation = generation;
  state = attaching;
  last_activity = at;
}

-- An entry after a change of state: a released one has lost its engine.
abbrev pub moved : DiskEntry → State → DiskEntry
moved e to = record e { state = to; engine_id = if to == released then [] else e.engine_id }

pub record Bound (route project sandbox engine : Text) (at : Time) (s next : DiskState)
    (e : DiskEntry) : Type 0 where
  pub absent : lookup route s.routes ≡ none
  pub free : assignment_conflicts s.routes [] project sandbox engine ≡ false
  pub clock : s.last_generation ≢ max_uint64
  pub entry : e ≡ new_entry route project sandbox engine (s.last_generation + 1) at
  pub stored : next ≡ store_entry (record s { last_generation = s.last_generation + 1 }) route e

pub bind_change-Bound :
    (route project sandbox engine : Text) (at : Time) (s next : DiskState) (e : DiskEntry)
    → bind_change route project sandbox engine at s ≡ ok (next, e)
    → Bound route project sandbox engine at s next e
unfolding bind_change next_generation
bind_change-Bound route project sandbox engine at s next e h = record {
  absent = ground arith;
  free = ground arith;
  clock = ground arith;
  entry = ground arith;
  stored = ground arith;
}

-- The compare of a compare-and-swap has passed.
pub record Expected (route : Text) (generation : ℕ) (state : State) (s : DiskState)
    (old : DiskEntry) : Type 0 where
  pub held : lookup route s.routes ≡ some old
  pub current : old.generation ≡ generation
  pub in_state : old.state ≡ state

pub expect-Expected :
    (route : Text) (generation : ℕ) (state : State) (s : DiskState) (old : DiskEntry)
    → expect route generation state s ≡ ok old
    → Expected route generation state s old
unfolding expect
expect-Expected route generation state s old h = elim (Option-cases (lookup route s.routes)) [
  | inl missing ↦ absurd (ground arith)
  | inr (e, held) ↦ record {
    held = ground arith;
    current = ground arith;
    in_state = ground (arith, state_beq_iff e.state state);
  }
]

pub record Rebound (route engine : Text) (at : Time) (s next : DiskState) (old e : DiskEntry)
    : Type 0 where
  pub forward : before at old.last_activity ≡ false
  pub free : assignment_conflicts s.routes route old.project_id old.sandbox_id engine ≡ false
  pub clock : s.last_generation ≢ max_uint64
  pub entry : e ≡ record old {
    engine_id = engine;
    generation = s.last_generation + 1;
    state = attaching;
    last_activity = at;
  }
  pub stored : next ≡ store_entry (record s { last_generation = s.last_generation + 1 }) route e

pub rebind_change-Rebound :
    (route : Text) (expected : ℕ) (state : State) (engine : Text) (at : Time) (s next : DiskState)
    (e : DiskEntry)
    → rebind_change route expected state engine at s ≡ ok (next, e)
    → (old : DiskEntry) × Expected route expected state s old × Rebound route engine at s next old e
unfolding rebind_change next_generation
rebind_change-Rebound route expected state engine at s next e h =
    let (old, found, rest) = >>=-eq-ok (expect route expected state s) _ h in
    (
      old,
      expect-Expected route expected state s old found,
      record {
        forward = ground arith;
        free = ground arith;
        clock = ground arith;
        entry = ground arith;
        stored = ground arith;
      },
    )

pub record Moved (active : List (OperationKey × ℕ)) (route : Text) (from to : State)
    (s next : DiskState) (old e : DiskEntry) : Type 0 where
  pub allowed : allowed_transition from to ≡ true
  pub quiet :
      (from ≡ draining)
      → ((to ≡ standby) ⊎ (to ≡ released))
      → has_active_operations active old ≡ false
  pub entry : e ≡ moved old to
  pub stored : next ≡ store_entry s route e

pub transition_change-Moved :
    (active : List (OperationKey × ℕ)) (route : Text) (expected : ℕ) (from to : State)
    (s next : DiskState) (e : DiskEntry)
    → transition_change active route expected from to s ≡ ok (next, e)
    → (old : DiskEntry) × Expected route expected from s old
      × Moved active route from to s next old e
unfolding transition_change
transition_change-Moved active route expected from to s next e h =
    let (old, found, rest) = >>=-eq-ok (expect route expected from s) _ h in
    (
      old,
      expect-Expected route expected from s old found,
      record {
        allowed = ground arith;
        quiet = λ f t. ground (
          arith,
          state_beq_iff from draining,
          state_beq_iff to standby,
          state_beq_iff to released,
        );
        entry = ground arith;
        stored = ground arith;
      },
    )

pub record Touched (route : Text) (at : Time) (s next : DiskState) (old e : DiskEntry)
    : Type 0 where
  pub forward : before at old.last_activity ≡ false
  pub entry : e ≡ record old { last_activity = at }
  pub stored : next ≡ store_entry s route e

pub touch_change-Touched :
    (route : Text) (expected : ℕ) (state : State) (at : Time) (s next : DiskState) (e : DiskEntry)
    → touch_change route expected state at s ≡ ok (next, e)
    → (old : DiskEntry) × Expected route expected state s old × Touched route at s next old e
unfolding touch_change
touch_change-Touched route expected state at s next e h =
    let (old, found, rest) = >>=-eq-ok (expect route expected state s) _ h in
    (
      old,
      expect-Expected route expected state s old found,
      record { forward = ground arith; entry = ground arith; stored = ground arith },
    )

pub remove_change-Expected :
    (route : Text) (expected : ℕ) (state : State) (s next : DiskState)
    → remove_change route expected state s ≡ ok (next, tt)
    → (old : DiskEntry) × Expected route expected state s old
      × (next ≡ record s { routes = delete route s.routes })
unfolding remove_change
remove_change-Expected route expected state s next h =
    let (old, found, rest) = >>=-eq-ok (expect route expected state s) _ h in
    (old, expect-Expected route expected state s old found, ground arith)
