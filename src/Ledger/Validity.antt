-- ===== src/Ledger/Validity.antt =====
-- What validateDiskState accepts, said without its loop and its sets.
use brezel.Common.{
  ℕ, ◌≤◌, ◌<◌, ◌≡◌, ◌≢◌, refl, ◌↔◌, ◌⊎◌, inr, true, false, List, [], ◌∷◌, arith, nat_eq, length,
  All, Apart, All-map, contains, ok, >>-eq-ok, Text, text_eq, text_beq_iff, is_zero, is_utc_offset,
}
use brezel.Ledger.Types.{
  released, state_eq, state_beq_iff, DiskEntry, Routes, DiskState, current_schema_version,
  max_routes,
}
use brezel.Ledger.Checks.{
  valid_state, valid_engine_id, valid_route_identity, sandbox_key, Seen, none_seen, check_common,
  check_target, note_entry, check_routes, validate_disk_state,
}

-- A stored route by itself, under the ledger's generation clock.
pub record EntryValid (last_generation : ℕ) (key : Text) (e : DiskEntry) : Type 0 where
  pub keyed : key ≡ e.route_id
  pub named : valid_route_identity e.route_id e.project_id e.sandbox_id ≡ true
  pub positive : 0 < e.generation
  pub clocked : e.generation ≤ last_generation
  pub known : valid_state e.state ≡ true
  pub timed : is_zero e.last_activity ≡ false
  pub in_utc : is_utc_offset e.last_activity.offset ≡ true
  pub target :
      ((e.state ≡ released) × (e.engine_id ≡ []))
      ⊎ ((e.state ≢ released) × (valid_engine_id e.engine_id ≡ true))

-- Two stored routes: no shared generation, and while both are live no shared engine or sandbox.
pub record Separate (a b : DiskEntry) : Type 0 where
  pub generations : a.generation ≢ b.generation
  pub targets :
      (a.state ≡ released)
      ⊎ (b.state ≡ released)
      ⊎ ((a.engine_id ≢ b.engine_id)
          × (sandbox_key a.project_id a.sandbox_id ≢ sandbox_key b.project_id b.sandbox_id))

pub record IsValid (s : DiskState) : Type 0 where
  pub versioned : s.schema_version ≡ current_schema_version
  pub present : s.routes_nil ≡ false
  pub bounded : length s.routes ≤ max_routes
  pub entries : All (λ r. EntryValid s.last_generation r.0 r.1) s.routes
  pub apart : Apart (λ a b. Separate a.1 b.1) s.routes

record Unseen (seen : Seen) (e : DiskEntry) : Type 0 where
  generation : contains e.generation seen.generations ≡ false
  target :
      (e.state ≡ released)
      ⊎ ((contains e.engine_id seen.engine_ids ≡ false)
          × (contains (sandbox_key e.project_id e.sandbox_id) seen.sandboxes ≡ false))

check_entry_sound :
    (n : ℕ) (seen : Seen) (key : Text) (e : DiskEntry)
    → check_common n seen key e ≡ ok tt
    → check_target seen e ≡ ok tt
    → EntryValid n key e × Unseen seen e
unfolding check_common check_target
check_entry_sound n seen key e h k = (
  ground (
    arith,
    text_beq_iff key e.route_id,
    state_beq_iff e.state released,
    text_beq_iff e.engine_id [],
  ),
  ground (arith, state_beq_iff e.state released),
)

check_entry_complete :
    (n : ℕ) (seen : Seen) (key : Text) (e : DiskEntry)
    → EntryValid n key e
    → Unseen seen e
    → (check_common n seen key e ≡ ok tt) × (check_target seen e ≡ ok tt)
unfolding check_common check_target
check_entry_complete n seen key e v u = (
  ground (arith, text_beq_iff key e.route_id),
  ground (arith, state_beq_iff e.state released, text_beq_iff e.engine_id []),
)

Unseen-note :
    (seen : Seen) (e f : DiskEntry) → Unseen (note_entry seen e) f ↔ (Unseen seen f × Separate e f)
unfolding note_entry
Unseen-note seen e f = (
  λ h. ground (
    arith,
    state_beq_iff e.state released,
    text_beq_iff f.engine_id e.engine_id,
    text_beq_iff (sandbox_key f.project_id f.sandbox_id) (sandbox_key e.project_id e.sandbox_id),
  ),
  λ h. ground (
    arith,
    state_beq_iff e.state released,
    text_beq_iff f.engine_id e.engine_id,
    text_beq_iff (sandbox_key f.project_id f.sandbox_id) (sandbox_key e.project_id e.sandbox_id),
  ),
)

check_routes_sound :
    (n : ℕ) (seen : Seen) (m : Routes)
    → check_routes n seen m ≡ ok tt
    → All (λ r. EntryValid n r.0 r.1) m
      × Apart (λ a b. Separate a.1 b.1) m
      × All (λ r. Unseen seen r.1) m
unfolding check_routes
check_routes_sound n seen [] h = (tt, tt, tt)
check_routes_sound n seen ((key, e) ∷ m) h =
    let (common, h') = >>-eq-ok (check_common n seen key e) _ h in
    let (target, rest) = >>-eq-ok (check_target seen e) _ h' in
    let (v, u) = check_entry_sound n seen key e common target in
    let (vs, seps, us) = check_routes_sound n (note_entry seen e) m rest in
    let split =
      λ (r : Text × DiskEntry) (w : Unseen (note_entry seen e) r.1). (Unseen-note seen e r.1).0 w in
    (
      (v, vs),
      (All-map _ _ (λ r w. (split r w).1) m us, seps),
      (u, All-map _ _ (λ r w. (split r w).0) m us),
    )

All-both {ℓ κ μ} :
    {A : Type ℓ} (P : A → Type κ) (Q : A → Type μ) (xs : List A)
    → All P xs
    → All Q xs
    → All (λ x. P x × Q x) xs
All-both P Q [] h k = tt
All-both P Q (x ∷ xs) h k = ((h.0, k.0), All-both P Q xs h.1 k.1)

check_routes_complete :
    (n : ℕ) (seen : Seen) (m : Routes)
    → All (λ r. EntryValid n r.0 r.1) m
    → Apart (λ a b. Separate a.1 b.1) m
    → All (λ r. Unseen seen r.1) m
    → check_routes n seen m ≡ ok tt
unfolding check_routes
check_routes_complete n seen [] v s u = refl
check_routes_complete n seen ((key, e) ∷ m) v s u =
    let (common, target) = check_entry_complete n seen key e v.0 u.0 in
    rw (common, target)
      (check_routes_complete n (note_entry seen e) m v.1 s.1
        (All-map _ _ (λ r h. (Unseen-note seen e r.1).1 h) m (All-both _ _ m u.1 s.0)))

All-Unseen : (m : Routes) → All (λ r. Unseen none_seen r.1) m
All-Unseen [] = tt
All-Unseen (r ∷ m) = (record { generation = refl; target = inr (refl, refl) }, All-Unseen m)

-- validateDiskState accepts a state exactly if the state is valid: current schema, a map, at most
-- maxRoutes routes, each entry well-formed under the generation clock, and any two with different
-- generations and, while both are live, different engines and sandboxes.
pub validate_disk_state_iff : (s : DiskState) → (validate_disk_state s ≡ ok tt) ↔ IsValid s
unfolding validate_disk_state
validate_disk_state_iff s = (
  λ h.
      let routes : check_routes s.last_generation none_seen s.routes ≡ ok tt = ground arith in
      let (v, sep, _) = check_routes_sound s.last_generation none_seen s.routes routes in
      record {
        versioned = ground arith;
        present = ground arith;
        bounded = ground arith;
        entries = v;
        apart = sep;
      },
  λ v.
      let routes =
        check_routes_complete s.last_generation none_seen s.routes v.entries v.apart
          (All-Unseen s.routes) in
      ground arith,
)
