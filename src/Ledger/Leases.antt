-- ===== src/Ledger/Leases.antt =====
-- The in-memory methods of nodeledger's Ledger: operation leases, lookups, List and Close.
use brezel.Common.{
  ℕ, ◌+◌, ◌-◌, true, not, ◌&&◌, ◌||◌, List, [], ◌∷◌, map, Option, none, some, ◌==◌, nat_eq,
  if◌then◌else◌, length, Result, ok, err, ◌>>=◌, ◌>>◌, require, or_fail, Text, text_eq, text_lt,
  safe_name, lookup, insert, delete,
}
use brezel.Ledger.Types.{
  State, ready, draining, state_eq, DiskEntry, OperationKey, key_eq, Route, Binding, Error,
  not_found, stale_generation, state_conflict, active_operations, ledger_closed, invalid,
  binding_from_disk, public_from_disk, max_uint64,
}
use brezel.Ledger.Checks.{valid_state, valid_route_identity}
use brezel.Ledger.Operations.{Ledger, active_count, refuse}

-- The route under which a capability may act, or the reason why there is none.
unfoldable pub current_entry : Ledger → Text → Text → Text → ℕ → State → Result Error DiskEntry
current_entry l route project sandbox expected state = do
  require (not l.closed) ledger_closed
  e ← or_fail (lookup route l.state.routes) not_found
  require (e.project_id == project && e.sandbox_id == sandbox) not_found
  require (e.generation == expected) stale_generation
  require (e.state == state) state_conflict
  ok e

abbrev pub operation_key : Text → Text → Text → ℕ → OperationKey
operation_key route project sandbox generation = record {
  route_id = route;
  project_id = project;
  sandbox_id = sandbox;
  generation = generation;
}

-- An OperationLease: `outcome` is what the one call that sync.Once lets through returned.
pub record Lease : Type 0 where
  pub key : OperationKey
  pub outcome : Option (Result Error (Unit {0}))

-- The end of AcquireOperation: one more operation under the key.
unfoldable pub admit : Ledger → OperationKey → DiskEntry → Ledger × Result Error (Binding × Lease)
unfolding active_count
admit l key e = if active_count l.active key == max_uint64 then (l, err active_operations) else (
  record l { active = insert key (active_count l.active key + 1) l.active },
  ok (binding_from_disk e, record { key = key; outcome = none }),
)

unfoldable pub acquire_operation :
    Ledger → Text → Text → Text → ℕ → Ledger × Result Error (Binding × Lease)
unfolding refuse current_entry admit
acquire_operation l route project sandbox expected =
    refuse l (require (valid_route_identity route project sandbox && not (expected == 0)) invalid)
      λ _.
        refuse l (current_entry l route project sandbox expected ready)
          λ e. admit l (operation_key route project sandbox expected) e

unfoldable pub held_entry : Ledger → OperationKey → Result Error DiskEntry
held_entry l key = do
  e ← or_fail (lookup key.route_id l.state.routes) state_conflict
  require
      (e.project_id == key.project_id
        && (e.sandbox_id == key.sandbox_id && e.generation == key.generation))
      state_conflict
  require (e.state == ready || e.state == draining) state_conflict
  ok e

unfoldable pub release_operation : Ledger → OperationKey → Ledger × Result Error (Unit {0})
unfolding refuse held_entry active_count
release_operation l key = refuse l (require (not l.closed) ledger_closed) λ _.
    refuse l (require (not (active_count l.active key == 0)) invalid) λ _.
      refuse l (held_entry l key) λ e.
        let count = active_count l.active key in
        (
          record l {
            active = if count == 1 then delete key l.active else insert key (count - 1) l.active;
          },
          ok tt,
        )

-- Release: the first call does the work, and every later one repeats its result.
unfoldable pub release : Ledger → Lease → Ledger × Lease × Result Error (Unit {0})
release l lease = elim lease.outcome [
  | some r ↦ (l, lease, r)
  | none ↦ let (l', r) = release_operation l lease.key in (l', record lease { outcome = some r }, r)
]

-- The flock and the close of the lock file are taken to succeed.
unfoldable pub close : Ledger → Ledger × Result Error (Unit {0})
close l =
    if l.closed
    then (l, ok tt)
    else if length l.active == 0
    then (record l { closed = true }, ok tt)
    else (l, err active_operations)

unfoldable pub resolve : Ledger → Text → Result Error Binding
resolve l route = do
  require (safe_name route) invalid
  require (not l.closed) ledger_closed
  e ← or_fail (lookup route l.state.routes) not_found
  ok (binding_from_disk e)

unfoldable pub resolve_current : Ledger → Text → Text → Text → ℕ → State → Result Error Binding
unfolding current_entry
resolve_current l route project sandbox expected state = do
  require (valid_route_identity route project sandbox && valid_state state) invalid
  e ← current_entry l route project sandbox expected state
  ok (binding_from_disk e)

-- sort.Slice by route id
unfoldable pub insert_route : Route → List Route → List Route
insert_route r [] = r ∷ []
insert_route r (q ∷ qs) =
    if text_lt q.route_id r.route_id then q ∷ insert_route r qs else r ∷ q ∷ qs

unfoldable pub sort_routes : List Route → List Route
unfolding insert_route
sort_routes [] = []
sort_routes (r ∷ rs) = insert_route r (sort_routes rs)

unfoldable pub list_routes : Ledger → Result Error (List Route)
unfolding sort_routes
list_routes l = do
  require (not l.closed) ledger_closed
  ok (sort_routes (map (λ e. public_from_disk e.1) l.state.routes))
