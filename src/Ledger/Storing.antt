-- ===== src/Ledger/Storing.antt =====
-- How storing an entry keeps the routes of a nodeledger state valid.
use brezel.Common.{
  ℕ, ◌+◌, ◌≤◌, ◌≡◌, ◌≢◌, sym, ◌⊎◌, inl, inr, true, false, [], ◌∷◌, some, arith, nat_eq, length, all,
  All, All-map, Keyed, Others, Apart-insert, Apart-lookup, insert-Keyed, length-insert_held, Text,
  text_eq, text_beq_iff, safe_name, is_name_byte, lookup, insert, All-insert,
}
use brezel.Ledger.Types.{
  released, state_eq, state_beq_iff, DiskEntry, Routes, DiskState, max_routes,
}
use brezel.Ledger.Checks.{valid_route_identity, sandbox_key, assignment_conflicts}
use brezel.Ledger.Operations.{store_entry}
use brezel.Ledger.Validity.{EntryValid, Separate, IsValid}

abbrev NoNul : Text → Type 0
NoNul = All (λ c. c ≢ 0)

safe_name-NoNul : (s : Text) → safe_name s ≡ true → NoNul s
unfolding safe_name
safe_name-NoNul [] h = tt
safe_name-NoNul (c ∷ cs) h = (ground arith, rest cs (ground arith))
  where
    rest : (s : Text) → all is_name_byte s ≡ true → NoNul s
    rest [] h = tt
    rest (d ∷ s) h = (ground arith, rest s (ground arith))

sandbox_key-injective :
    (p q s t : Text) → NoNul p → NoNul q → sandbox_key p s ≡ sandbox_key q t → (p ≡ q) × (s ≡ t)
unfolding sandbox_key
sandbox_key-injective [] [] s t h k e = ground arith
sandbox_key-injective [] (d ∷ q) s t h k e = ground arith
sandbox_key-injective (c ∷ p) [] s t h k e = ground arith
sandbox_key-injective (c ∷ p) (d ∷ q) s t h k e =
    ground (arith, sandbox_key-injective p q s t h.1 k.1)

-- What a passed test for conflicts says of each stored route.
abbrev pub Free : Text → Text → Text → Text → Text × DiskEntry → Type 0
Free except project sandbox engine r =
    (r.0 ≡ except)
    ⊎ (r.1.state ≡ released)
    ⊎ ((r.1.engine_id ≢ engine) × ¬ ((r.1.project_id ≡ project) × (r.1.sandbox_id ≡ sandbox)))

pub assignment_conflicts-Free :
    (m : Routes) (x p s e : Text) → assignment_conflicts m x p s e ≡ false → All (Free x p s e) m
unfolding assignment_conflicts
assignment_conflicts-Free [] x p s e h = tt
assignment_conflicts-Free ((k, r) ∷ m) x p s e h = (
  ground (
    arith,
    text_beq_iff k x,
    state_beq_iff r.state released,
    text_beq_iff r.engine_id e,
    text_beq_iff r.project_id p,
    text_beq_iff r.sandbox_id s,
  ),
  assignment_conflicts-Free m x p s e (ground arith),
)

pub Separate-sym : (a b : Text × DiskEntry) → Separate a.1 b.1 → Separate b.1 a.1
Separate-sym a b s = record { generations = λ p. s.generations (sym p); targets = flip s.targets }
  where
    flip :
        (a.1.state ≡ released)
          ⊎ (b.1.state ≡ released)
          ⊎ ((a.1.engine_id ≢ b.1.engine_id)
              × (sandbox_key a.1.project_id a.1.sandbox_id
                  ≢ sandbox_key b.1.project_id b.1.sandbox_id))
        → (b.1.state ≡ released)
          ⊎ (a.1.state ≡ released)
          ⊎ ((b.1.engine_id ≢ a.1.engine_id)
              × (sandbox_key b.1.project_id b.1.sandbox_id
                  ≢ sandbox_key a.1.project_id a.1.sandbox_id))
    flip (inl h) = inr (inl h)
    flip (inr (inl h)) = inl h
    flip (inr (inr (h, k))) = inr (inr (λ p. h (sym p), λ p. k (sym p)))

EntryValid-mono : (m n : ℕ) (k : Text) (e : DiskEntry) → m ≤ n → EntryValid m k e → EntryValid n k e
EntryValid-mono m n k e h v = record {
  keyed = v.keyed;
  named = v.named;
  positive = v.positive;
  clocked = omega arith;
  known = v.known;
  timed = v.timed;
  in_utc = v.in_utc;
  target = v.target;
}

-- A route that is new to the clock and free of conflicts stands apart from each stored one.
fresh_apart :
    (n : ℕ) (route except : Text) (e : DiskEntry) (b : Text × DiskEntry)
    → EntryValid (n + 1) route e
    → e.generation ≡ n + 1
    → EntryValid n b.0 b.1
    → Free except e.project_id e.sandbox_id e.engine_id b
    → b.0 ≢ except
    → Separate e b.1
unfolding valid_route_identity
fresh_apart n route except e b v g w free other = record {
  generations = λ p. ground arith;
  targets = sort free;
}
  where
    project_nul : NoNul e.project_id
    project_nul = safe_name-NoNul e.project_id (ground arith)

    stored_nul : NoNul b.1.project_id
    stored_nul = safe_name-NoNul b.1.project_id (ground arith)

    sort :
        Free except e.project_id e.sandbox_id e.engine_id b
        → (e.state ≡ released)
          ⊎ (b.1.state ≡ released)
          ⊎ ((e.engine_id ≢ b.1.engine_id)
              × (sandbox_key e.project_id e.sandbox_id ≢ sandbox_key b.1.project_id b.1.sandbox_id))
    sort (inl h) = absurd (other h)
    sort (inr (inl h)) = inr (inl h)
    sort (inr (inr (h, k))) = inr (
        inr (
          λ p. h (sym p),
          λ p.
              let (q, r) =
                sandbox_key-injective e.project_id b.1.project_id e.sandbox_id b.1.sandbox_id
                  project_nul stored_nul p in
              k (sym q, sym r),
        ))

pub record WellFormed (s : DiskState) : Type 0 where
  pub valid : IsValid s
  pub keyed : Keyed s.routes

-- A new or rebound route, under a generation of its own.
pub store_fresh-WellFormed :
    (s : DiskState) (route except : Text) (e : DiskEntry)
    → WellFormed s
    → e.generation ≡ s.last_generation + 1
    → EntryValid (s.last_generation + 1) route e
    → All (Free except e.project_id e.sandbox_id e.engine_id) s.routes
    → ((b : Text × DiskEntry) → b.0 ≢ route → EntryValid s.last_generation b.0 b.1 → b.0 ≢ except)
    → length (insert route e s.routes) ≤ max_routes
    → WellFormed (store_entry (record s { last_generation = s.last_generation + 1 }) route e)
unfolding store_entry
store_fresh-WellFormed s route except e w g v free named room = record {
  valid = record {
    versioned = w.valid.versioned;
    present = w.valid.present;
    bounded = room;
    entries = All-insert _ route e s.routes v (
        All-map _ _
          (λ b h. EntryValid-mono s.last_generation (s.last_generation + 1) b.0 b.1 (omega arith) h)
          s.routes w.valid.entries);
    apart =
        Apart-insert _ Separate-sym route e s.routes w.keyed w.valid.apart
          (others s.routes w.valid.entries free);
  };
  keyed = insert-Keyed route e s.routes w.keyed;
}
  where
    others :
        (m : Routes)
        → All (λ b. EntryValid s.last_generation b.0 b.1) m
        → All (Free except e.project_id e.sandbox_id e.engine_id) m
        → Others route (λ b. Separate e b.1) m
    others [] a f = tt
    others (b ∷ m) a f = (
      λ other. fresh_apart s.last_generation route except e b v g a.0 f.0 (named b other a.0),
      others m a.1 f.1,
    )

-- A route rewritten in place under its generation.
pub store_same-WellFormed :
    (s : DiskState) (route : Text) (old e : DiskEntry)
    → WellFormed s
    → lookup route s.routes ≡ some old
    → e.generation ≡ old.generation
    → EntryValid s.last_generation route e
    → ((b : Text × DiskEntry) → Separate old b.1 → Separate e b.1)
    → WellFormed (store_entry s route e)
unfolding store_entry
store_same-WellFormed s route old e w held same v keeps = record {
  valid = record {
    versioned = w.valid.versioned;
    present = w.valid.present;
    bounded = rw (length-insert_held route e old s.routes held) w.valid.bounded;
    entries = All-insert _ route e s.routes v w.valid.entries;
    apart = Apart-insert _ Separate-sym route e s.routes w.keyed w.valid.apart (
        All-map _ _ (λ b h other. keeps b (h other)) s.routes
          (Apart-lookup _ Separate-sym route old s.routes w.valid.apart held));
  };
  keyed = insert-Keyed route e s.routes w.keyed;
}
