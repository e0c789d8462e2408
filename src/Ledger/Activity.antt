-- ===== src/Ledger/Activity.antt =====
-- The operations in flight and the routes that they run on.
use brezel.Common.{
  ℕ, ◌+◌, ◌≡◌, ◌≢◌, sym, ap, ◌∙◌, subst, ◌⊎◌, inl, inr, true, false, List, none, some, arith, ◌==◌,
  nat_eq, Bool-cases, Option-cases, if◌then◌else◌, ok, Text, text_eq, text_beq_iff, text_cases,
  lookup, insert, delete, lookup-insert, lookup-delete,
}
use brezel.Ledger.Types.{
  State, ready, draining, standby, released, state_eq, state_beq_iff, DiskEntry, DiskState,
  OperationKey, key_eq,
}
use brezel.Ledger.Checks.{allowed_transition, clone_disk_state}
use brezel.Ledger.Operations.{Ledger, active_count, entry_key, has_active_operations, store_entry}
use brezel.Ledger.Leases.{current_entry}
use brezel.Ledger.Changes.{
  bind_change-Bound, rebind_change-Rebound, transition_change-Moved, touch_change-Touched,
  remove_change-Expected,
}
use brezel.Ledger.Steps.{Effect, bound, rebound, moved, touched, removed}

-- A route that still is under the assignment of a key, and serves or drains.
pub record HeldBy (s : DiskState) (key : OperationKey) (e : DiskEntry) : Type 0 where
  pub stored : lookup key.route_id s.routes ≡ some e
  pub assigned : entry_key e ≡ key
  pub serving : (e.state ≡ ready) ⊎ (e.state ≡ draining)

abbrev pub Held : DiskState → OperationKey → Type 0
Held s key = (e : DiskEntry) × HeldBy s key e

-- Rewriting another route leaves a held one alone.
stored_elsewhere :
    (s : DiskState) (n : ℕ) (route : Text) (f : DiskEntry) (key : OperationKey)
    → (key.route_id ≢ route)
    → Held s key
    → Held (store_entry (record s { last_generation = n }) route f) key
unfolding store_entry
stored_elsewhere s n route f key other (e, h) = (
  e,
  record {
    stored =
        ground
          (arith, lookup-insert route key.route_id f s.routes, text_beq_iff key.route_id route);
    assigned = h.assigned;
    serving = h.serving;
  },
)

stored_here :
    (s : DiskState) (route : Text) (f : DiskEntry) (key : OperationKey)
    → key.route_id ≡ route
    → entry_key f ≡ key
    → (f.state ≡ ready) ⊎ (f.state ≡ draining)
    → Held (store_entry s route f) key
unfolding store_entry
stored_here s route f key here assigned serving = (
  f,
  record {
    stored =
        ground
          (arith, lookup-insert route key.route_id f s.routes, text_beq_iff key.route_id route);
    assigned = assigned;
    serving = serving;
  },
)

-- The entry of a held key, when its route has been looked up.
same_entry :
    (s : DiskState) (route : Text) (key : OperationKey) (old : DiskEntry)
    → key.route_id ≡ route
    → lookup route s.routes ≡ some old
    → Held s key
    → (entry_key old ≡ key) × ((old.state ≡ ready) ⊎ (old.state ≡ draining))
same_entry s route key old here found (e, h) =
    let same : e ≡ old = ground arith in
    (
      subst (λ x. entry_key x ≡ key) same h.assigned,
      subst (λ x. (x.state ≡ ready) ⊎ (x.state ≡ draining)) same h.serving,
    )

-- A transition out of a serving state with work in flight leads to a serving state.
still_serving :
    (active : List (OperationKey × ℕ)) (old : DiskEntry) (from to : State)
    → allowed_transition from to ≡ true
    → (from ≡ ready) ⊎ (from ≡ draining)
    → active_count active (entry_key old) ≢ 0
    → ((from ≡ draining)
        → ((to ≡ standby) ⊎ (to ≡ released))
        → has_active_operations active old ≡ false)
    → (to ≡ ready) ⊎ (to ≡ draining)
unfolding allowed_transition has_active_operations
still_serving active old from to allowed (inl p) busy quiet =
    inr (ground (arith, state_beq_iff to draining))
still_serving active old from to allowed (inr p) busy quiet = elim (Bool-cases (to == ready)) [
  | inl h ↦ inl ((state_beq_iff to ready).0 h)
  | inr h ↦ absurd (busy (stopped (quiet p (halted p h))))
]
  where
    halted : from ≡ draining → (to == ready) ≡ false → (to ≡ standby) ⊎ (to ≡ released)
    halted p h = ground (arith, state_beq_iff to standby, state_beq_iff to released)

    stopped : has_active_operations active old ≡ false → active_count active (entry_key old) ≡ 0
    stopped h = ground arith

-- No change takes away a route on which an operation is in flight.
pub Effect-Held :
    (l : Ledger) (next : DiskState) (key : OperationKey)
    → Effect l next
    → active_count l.active key ≢ 0
    → Held (clone_disk_state l.state) key
    → Held next key
Effect-Held l next key (bound route project sandbox engine at e _ _ _ _ h) busy held =
    let s = clone_disk_state l.state in
    let b = bind_change-Bound route project sandbox engine at s next e h in
    elim (text_cases key.route_id route) [
      | inl here ↦ absurd (never s route key here b.absent held)
      | inr other ↦ rw b.stored (stored_elsewhere s (s.last_generation + 1) route e key other held)
    ]
  where
    never :
        (s : DiskState) (route : Text) (key : OperationKey)
        → key.route_id ≡ route
        → lookup route s.routes ≡ none
        → Held s key
        → ⊥
    never s route key here absent (f, k) = ground (arith, k.stored)
Effect-Held l next key (rebound route expected state engine at e st _ _ _ h) busy held =
    let s = clone_disk_state l.state in
    let (old, x, b) = rebind_change-Rebound route expected state engine at s next e h in
    elim (text_cases key.route_id route) [
      | inl here ↦
          absurd (idle old.state (x.in_state ∙ st) (same_entry s route key old here x.held held).1)
      | inr other ↦ rw b.stored (stored_elsewhere s (s.last_generation + 1) route e key other held)
    ]
  where
    idle : (t : State) → t ≡ standby → (t ≡ ready) ⊎ (t ≡ draining) → ⊥
    idle t p q = ground arith
Effect-Held l next key (moved route expected from to e h) busy held =
    let s = clone_disk_state l.state in
    let (old, x, b) = transition_change-Moved l.active route expected from to s next e h in
    elim (text_cases key.route_id route) [
      | inl here ↦
          let (assigned, serving) = same_entry s route key old here x.held held in
          let serves : (from ≡ ready) ⊎ (from ≡ draining) =
            subst (λ t. (t ≡ ready) ⊎ (t ≡ draining)) x.in_state serving in
          rw b.stored (
            stored_here s route e key here (ground arith) (
              subst (λ f. (f.state ≡ ready) ⊎ (f.state ≡ draining)) (sym b.entry)
                (still_serving l.active old from to b.allowed serves
                  (λ p. busy (ap (active_count l.active) (sym assigned) ∙ p)) b.quiet)))
      | inr other ↦ rw b.stored (stored_elsewhere s s.last_generation route e key other held)
    ]
Effect-Held l next key (touched route expected state at e _ _ h) busy held =
    let s = clone_disk_state l.state in
    let (old, x, t) = touch_change-Touched route expected state at s next e h in
    elim (text_cases key.route_id route) [
      | inl here ↦
          let (assigned, serving) = same_entry s route key old here x.held held in
          rw t.stored (
            stored_here s route e key here (ground arith)
              (subst (λ f. (f.state ≡ ready) ⊎ (f.state ≡ draining)) (sym t.entry) serving))
      | inr other ↦ rw t.stored (stored_elsewhere s s.last_generation route e key other held)
    ]
Effect-Held l next key (removed route expected state st h) busy (f, k) =
    let s = clone_disk_state l.state in
    let (old, x, stored) = remove_change-Expected route expected state s next h in
    elim (text_cases key.route_id route) [
      | inl here ↦
          absurd
            (gone old.state (x.in_state ∙ st) (same_entry s route key old here x.held (f, k)).1)
      | inr other ↦ rw stored (
        f,
        record {
          stored =
              ground
                (arith, lookup-delete route key.route_id s.routes, text_beq_iff key.route_id route);
          assigned = k.assigned;
          serving = k.serving;
        },
      )
    ]
  where
    gone : (t : State) → t ≡ released → (t ≡ ready) ⊎ (t ≡ draining) → ⊥
    gone t p q = ground arith

-- The checks of a lookup for traffic have passed.
pub record Current (l : Ledger) (route project sandbox : Text) (expected : ℕ) (state : State)
    (e : DiskEntry) : Type 0 where
  pub live : l.closed ≡ false
  pub stored : lookup route l.state.routes ≡ some e
  pub owner : e.project_id ≡ project
  pub box : e.sandbox_id ≡ sandbox
  pub assigned : e.generation ≡ expected
  pub serving : e.state ≡ state

pub current_entry-Current :
    (l : Ledger) (route project sandbox : Text) (expected : ℕ) (state : State) (e : DiskEntry)
    → current_entry l route project sandbox expected state ≡ ok e
    → Current l route project sandbox expected state e
unfolding current_entry
current_entry-Current l route project sandbox expected state e h =
    elim (Option-cases (lookup route l.state.routes)) [
      | inl missing ↦ absurd (ground arith)
      | inr (f, stored) ↦ record {
        live = ground arith;
        stored = ground arith;
        owner = ground (arith, text_beq_iff f.project_id project);
        box = ground (arith, text_beq_iff f.sandbox_id sandbox);
        assigned = ground arith;
        serving = ground (arith, state_beq_iff f.state state);
      }
    ]

pub active_count-insert :
    (k j : OperationKey) (n : ℕ) (m : List (OperationKey × ℕ))
    → active_count (insert k n m) j ≡ (if j == k then n else active_count m j)
unfolding active_count
active_count-insert k j n m = ground (arith, lookup-insert k j n m)

pub active_count-delete :
    (k j : OperationKey) (m : List (OperationKey × ℕ))
    → active_count (delete k m) j ≡ (if j == k then 0 else active_count m j)
unfolding active_count
active_count-delete k j m = ground (arith, lookup-delete k j m)
