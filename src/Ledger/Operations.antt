-- ===== src/Ledger/Operations.antt =====
-- The methods of nodeledger's Ledger. The mutex makes each call one step.
use brezel.Common.{
  ℕ, Bool, true, false, not, ◌&&◌, ◌||◌, List, [], Option, none, some, leb, ◌==◌, nat_eq,
  if◌then◌else◌, length, Result, ok, err, ◌>>=◌, ◌>>◌, require, or_fail, Text, text_eq, safe_name,
  Time, before, lookup, insert, delete,
}
use brezel.Ledger.Types.{
  State, attaching, ready, draining, standby, released, state_eq, DiskEntry, DiskState,
  OperationKey, key_eq, Binding, Error, not_found, conflict, stale_generation, state_conflict,
  illegal_transition, active_operations, ledger_closed, corrupt, invalid, new_disk_state,
  binding_from_disk, max_ledger_bytes,
}
use brezel.Ledger.Checks.{
  valid_state, allowed_transition, valid_engine_id, validate_route_input, normalize_activity,
  next_generation, assignment_conflicts, clone_disk_state,
}
use brezel.Ledger.Disk.{Codec, Faults, validated, persist, decode_and_validate}

-- `active` counts the operations in flight under each key, and `disk` is the ledger's file.
pub record Ledger : Type 0 where
  pub state : DiskState
  pub active : List (OperationKey × ℕ)
  pub lock_file : Bool
  pub closed : Bool
  pub disk : Option Text

abbrev pub Change : Type 0 → Type 0
Change A = DiskState → Result Error (DiskState × A)

-- The count of a key, 0 where the map has none.
unfoldable pub active_count : List (OperationKey × ℕ) → OperationKey → ℕ
active_count active key = elim (lookup key active) [ none ↦ 0 | some n ↦ n ]

abbrev pub entry_key : DiskEntry → OperationKey
entry_key e = record {
  route_id = e.route_id;
  project_id = e.project_id;
  sandbox_id = e.sandbox_id;
  generation = e.generation;
}

unfoldable pub has_active_operations : List (OperationKey × ℕ) → DiskEntry → Bool
has_active_operations active e = not (active_count active (entry_key e) == 0)

-- `next.Routes[routeID] = e`
unfoldable pub store_entry : DiskState → Text → DiskEntry → DiskState
store_entry s route e = record s { routes = insert route e s.routes }

-- The function that each method hands to update.
unfoldable pub bind_change : Text → Text → Text → Text → Time → Change DiskEntry
unfolding store_entry
bind_change route project sandbox engine at s = do
  elim (lookup route s.routes) [ none ↦ ok tt | some e ↦ err conflict ]
  require (not (assignment_conflicts s.routes [] project sandbox engine)) conflict
  generation ← next_generation s.last_generation
  let e : DiskEntry = record {
    route_id = route;
    project_id = project;
    sandbox_id = sandbox;
    engine_id = engine;
    generation = generation;
    state = attaching;
    last_activity = at;
  }
  ok (store_entry (record s { last_generation = generation }) route e, e)

-- The compare part of the compare-and-swap methods.
unfoldable pub expect : Text → ℕ → State → DiskState → Result Error DiskEntry
expect route generation state s = do
  current ← or_fail (lookup route s.routes) not_found
  require (current.generation == generation) stale_generation
  require (current.state == state) state_conflict
  ok current

unfoldable pub rebind_change : Text → ℕ → State → Text → Time → Change DiskEntry
unfolding store_entry expect
rebind_change route expected expected_state engine at s = do
  current ← expect route expected expected_state s
  require (not (before at current.last_activity)) invalid
  require (not (assignment_conflicts s.routes route current.project_id current.sandbox_id engine))
      conflict
  generation ← next_generation s.last_generation
  let e : DiskEntry = record current {
    engine_id = engine;
    generation = generation;
    state = attaching;
    last_activity = at;
  }
  ok (store_entry (record s { last_generation = generation }) route e, e)

unfoldable pub transition_change :
    List (OperationKey × ℕ) → Text → ℕ → State → State → Change DiskEntry
unfolding store_entry expect has_active_operations
transition_change active route expected from to s = do
  current ← expect route expected from s
  require (allowed_transition from to) illegal_transition
  require
      (not (
        from == draining
        && ((to == standby || to == released) && has_active_operations active current)))
      active_operations
  let e : DiskEntry = record current {
    state = to;
    engine_id = if to == released then [] else current.engine_id;
  }
  ok (store_entry s route e, e)

unfoldable pub touch_change : Text → ℕ → State → Time → Change DiskEntry
unfolding store_entry expect
touch_change route expected expected_state at s = do
  current ← expect route expected expected_state s
  require (not (before at current.last_activity)) invalid
  let e : DiskEntry = record current { last_activity = at }
  ok (store_entry s route e, e)

unfoldable pub remove_change : Text → ℕ → State → Change (Unit {0})
unfolding expect
remove_change route expected expected_state s = do
  current ← expect route expected expected_state s
  ok (record s { routes = delete route s.routes }, tt)

-- The end of update: what is on disk counts only if persist says so.
unfoldable pub commit :
    {A : Type 0}
    → Ledger
    → DiskState
    → A
    → Option Text × Result Error (Unit {0})
    → Ledger × Result Error A
commit l next a (disk, ok u) = (record l { state = next; disk = disk }, ok a)
commit l next a (disk, err e) = (record l { disk = disk }, err e)

-- A call refused before the lock is taken.
unfoldable pub refuse :
    {A B : Type 0}
    → Ledger
    → Result Error B
    → (B → Ledger × Result Error A)
    → Ledger × Result Error A
refuse l (err e) f = (l, err e)
refuse l (ok b) f = f b

abbrev pub bound : Ledger × Result Error DiskEntry → Ledger × Result Error Binding
bound (l, r) = (l, (do e ← r; ok (binding_from_disk e)))

abbrev pub fresh_ledger : Option Text → Ledger
fresh_ledger disk = record {
  state = new_disk_state;
  active = [];
  lock_file = true;
  closed = false;
  disk = disk;
}

module _ (c : Codec) where
  unfoldable pub update : {A : Type 0} → Faults → Ledger → Change A → Ledger × Result Error A
  unfolding commit refuse
  update fails l fn = refuse l (require (not l.closed) ledger_closed) (λ _.
      refuse l (fn (clone_disk_state l.state)) (λ (next, a).
        refuse l (validated next) (λ _. commit l next a (persist c fails next l.disk))))

  unfoldable pub bind :
      Faults → Ledger → Text → Text → Text → Text → Time → Ledger × Result Error Binding
  unfolding update refuse
  bind fails l route project sandbox engine at =
      refuse l (validate_route_input route project sandbox engine) (λ _.
        refuse l (normalize_activity at)
          (λ at'. bound (update fails l (bind_change route project sandbox engine at'))))

  unfoldable pub rebind :
      Faults → Ledger → Text → ℕ → State → Text → Time → Ledger × Result Error Binding
  unfolding update refuse
  rebind fails l route expected expected_state engine at =
      refuse l (require (safe_name route && valid_engine_id engine) invalid) (λ _.
        refuse l (require (expected_state == standby) illegal_transition) (λ _.
          refuse l (normalize_activity at) (λ at'.
            bound (update fails l (rebind_change route expected expected_state engine at')))))

  unfoldable pub transition :
      Faults → Ledger → Text → ℕ → State → State → Ledger × Result Error Binding
  unfolding update refuse
  transition fails l route expected from to =
      refuse l (require (safe_name route && (valid_state from && valid_state to)) invalid)
        (λ _. bound (update fails l (transition_change l.active route expected from to)))

  unfoldable pub touch : Faults → Ledger → Text → ℕ → State → Time → Ledger × Result Error Binding
  unfolding update refuse
  touch fails l route expected expected_state at =
      refuse l
        (require (safe_name route && (expected_state == ready || expected_state == draining))
          invalid)
        (λ _.
          refuse l (normalize_activity at)
            (λ at'. bound (update fails l (touch_change route expected expected_state at'))))

  unfoldable pub remove : Faults → Ledger → Text → ℕ → State → Ledger × Result Error (Unit {0})
  unfolding update refuse
  remove fails l route expected expected_state =
      refuse l (require (safe_name route && expected_state == released) invalid)
        (λ _. update fails l (remove_change route expected expected_state))

  -- Open once the lock is held: a missing file is created, any other is read and checked.
  unfoldable pub open_ledger : Faults → Option Text → Option Text × Result Error Ledger
  open_ledger fails none =
      let (disk, r) = persist c fails new_disk_state none in (disk, (do r; ok (fresh_ledger disk)))
  open_ledger fails (some bytes) = (
    some bytes,
    (do
      require (not (bytes == []) && leb (length bytes) max_ledger_bytes) corrupt
      state ← decode_and_validate c bytes
      ok (record (fresh_ledger (some bytes)) { state = state })),
  )
