-- ===== src/Ledger/Checks.antt =====
-- validateDiskState, its helpers, and the guards of nodeledger that look at the routes.
use brezel.Common.{
  ℕ, ◌+◌, ◌≡◌, refl, Bool, true, false, not, ◌&&◌, ◌||◌, List, [], ◌∷◌, ◌++◌, ltb, leb, ◌==◌,
  nat_eq, if◌then◌else◌, length, all, contains, Result, ok, err, ◌>>◌, require, Text, text_eq,
  safe_name, runes, Rune, valid_utf8, trim_space, is_space, is_control, Time, is_zero,
  is_utc_offset, utc, codes, text_beq,
}
use brezel.Ledger.Types.{
  State, attaching, ready, draining, standby, released, unrecognised, state_eq, DiskEntry, Routes,
  DiskState, Problem, schema, missing_routes, route_count, key_mismatch, bad_identity,
  generation_clock, shared_generation, bad_state, bad_activity, retained_engine, bad_engine,
  shared_engine, shared_sandbox, Error, invalid, generation_exhausted, current_schema_version,
  max_routes, max_engine_id_bytes, max_uint64,
}

unfoldable pub valid_state : State → Bool
valid_state attaching = true
valid_state ready = true
valid_state draining = true
valid_state standby = true
valid_state released = true
valid_state (unrecognised t) = false

unfoldable pub allowed_transition : State → State → Bool
allowed_transition attaching to = to == ready || to == released
allowed_transition ready to = to == draining
allowed_transition draining to = to == ready || (to == standby || to == released)
allowed_transition standby to = to == released
allowed_transition _ to = false

unfoldable pub valid_engine_id : Text → Bool
valid_engine_id e =
    not (e == [])
    && (leb (length e) max_engine_id_bytes
        && (valid_utf8 e
            && (trim_space e == e
                && all (λ (r : Rune). not (is_control r.point || is_space r.point)) (runes e))))

unfoldable pub valid_route_identity : Text → Text → Text → Bool
valid_route_identity route project sandbox =
    safe_name route && (safe_name project && safe_name sandbox)

unfoldable pub validate_route_input : Text → Text → Text → Text → Result Error (Unit {0})
validate_route_input route project sandbox engine = do
  require (valid_route_identity route project sandbox) invalid
  require (valid_engine_id engine) invalid

unfoldable pub normalize_activity : Time → Result Error Time
normalize_activity at = if is_zero at then err invalid else ok (utc at)

unfoldable pub next_generation : ℕ → Result Error ℕ
next_generation current =
    if current == max_uint64 then err generation_exhausted else ok (current + 1)

unfoldable pub sandbox_key : Text → Text → Text
sandbox_key project sandbox = project ++ (0 ∷ sandbox)

-- The identities that the loop of validateDiskState has met.
pub record Seen : Type 0 where
  pub generations : List ℕ
  pub engine_ids : List Text
  pub sandboxes : List Text

-- The body of the loop up to the test for a released route.
unfoldable pub check_common : ℕ → Seen → Text → DiskEntry → Result Problem (Unit {0})
check_common last_generation seen key e = do
  require (key == e.route_id) key_mismatch
  require (valid_route_identity e.route_id e.project_id e.sandbox_id) bad_identity
  require (not (e.generation == 0 || ltb last_generation e.generation)) generation_clock
  require (not (contains e.generation seen.generations)) shared_generation
  require (valid_state e.state) bad_state
  require (not (is_zero e.last_activity) && is_utc_offset e.last_activity.offset) bad_activity

-- The rest of the body for a route that still has an engine.
unfoldable pub check_engine : Seen → DiskEntry → Result Problem (Unit {0})
check_engine seen e = do
  require (valid_engine_id e.engine_id) bad_engine
  require (not (contains e.engine_id seen.engine_ids)) shared_engine
  require (not (contains (sandbox_key e.project_id e.sandbox_id) seen.sandboxes)) shared_sandbox

unfoldable pub check_target : Seen → DiskEntry → Result Problem (Unit {0})
unfolding check_engine
check_target seen e =
    if e.state == released then require (e.engine_id == []) retained_engine else check_engine seen e

-- What the body adds to the identities that were met.
unfoldable pub note_entry : Seen → DiskEntry → Seen
note_entry seen e = record {
  generations = e.generation ∷ seen.generations;
  engine_ids = if e.state == released then seen.engine_ids else e.engine_id ∷ seen.engine_ids;
  sandboxes =
      if e.state == released
      then seen.sandboxes
      else sandbox_key e.project_id e.sandbox_id ∷ seen.sandboxes;
}

unfoldable pub check_routes : ℕ → Seen → Routes → Result Problem (Unit {0})
check_routes last_generation seen [] = ok tt
check_routes last_generation seen ((key, e) ∷ m) = do
  check_common last_generation seen key e
  check_target seen e
  check_routes last_generation (note_entry seen e) m

abbrev pub none_seen : Seen
none_seen = record { generations = []; engine_ids = []; sandboxes = [] }

unfoldable pub validate_disk_state : DiskState → Result Problem (Unit {0})
validate_disk_state s = do
  require (s.schema_version == current_schema_version) schema
  require (not s.routes_nil) missing_routes
  require (leb (length s.routes) max_routes) route_count
  check_routes s.last_generation none_seen s.routes

unfoldable pub assignment_conflicts : Routes → Text → Text → Text → Text → Bool
assignment_conflicts [] except project sandbox engine = false
assignment_conflicts ((route, e) ∷ m) except project sandbox engine =
    (not (route == except || e.state == released)
      && (e.engine_id == engine || (e.project_id == project && e.sandbox_id == sandbox)))
    || assignment_conflicts m except project sandbox engine

unfoldable pub clone_disk_state : DiskState → DiskState
clone_disk_state s = record s { routes_nil = false }

engine_id_test : valid_engine_id (codes "e2b-1") ≡ true
unfolding valid_engine_id valid_utf8 trim_space is_space is_control runes text_beq
engine_id_test = refl
