-- ===== src/Ledger/Fencing.antt =====
-- A generation names one assignment for ever: what a capability for it may still reach.
use brezel.Common.{
  ℕ, ◌≤◌, ◌<◌, ◌≡◌, ◌≢◌, refl, sym, ap, ◌∙◌, subst, ◌⊎◌, inl, inr, ◌&&◌, some, arith, ◌==◌, nat_eq,
  Bool-cases, ok, >>=-eq-ok, >>-eq-ok, require, Text, text_eq, text_beq_iff, text_cases, lookup,
  lookup-insert, lookup-delete, All-lookup, Apart-lookup,
}
use brezel.Ledger.Types.{
  State, released, state_eq, state_beq_iff, DiskEntry, DiskState, Binding, binding_from_disk,
  invalid,
}
use brezel.Ledger.Checks.{clone_disk_state, valid_route_identity, valid_state}
use brezel.Ledger.Disk.{Codec}
use brezel.Ledger.Operations.{Ledger, store_entry}
use brezel.Ledger.Leases.{current_entry, resolve_current}
use brezel.Ledger.Kept.{state-acquire_operation, state-release_operation, state-close}
use brezel.Ledger.Changes.{
  moved as moved_entry, bind_change-Bound, rebind_change-Rebound, transition_change-Moved,
  touch_change-Touched, remove_change-Expected,
}
use brezel.Ledger.Storing.{WellFormed, Separate-sym}
use brezel.Ledger.Guards.{allowed_transition-known}
use brezel.Ledger.Steps.{
  Effect, bound, rebound, moved, touched, removed, Outcome, unchanged, changed, Step, binds,
  rebinds, transitions, touches, removes, acquires, releases, closes, Reach, here, next,
  bind-Outcome, rebind-Outcome, transition-Outcome, touch-Outcome, remove-Outcome,
}
use brezel.Ledger.Activity.{current_entry-Current}
use brezel.Ledger.Invariant.{Inv, clone_disk_state-same, Reach-Inv}

-- The same assignment later on: its engine is kept until it is released, which is for good.
pub record Descends (e f : DiskEntry) : Type 0 where
  pub generation : f.generation ≡ e.generation
  pub project : f.project_id ≡ e.project_id
  pub sandbox : f.sandbox_id ≡ e.sandbox_id
  pub target : (f.engine_id ≡ e.engine_id) ⊎ (f.state ≡ released)
  pub final : e.state ≡ released → f.state ≡ released

abbrev Origin : DiskState → Text → DiskEntry → Type 0
Origin s route f =
    ((e : DiskEntry) × (lookup route s.routes ≡ some e) × Descends e f)
    ⊎ (s.last_generation < f.generation)

-- Every assignment of the later state comes from the earlier one or has a generation past it.
pub record Later (s t : DiskState) : Type 0 where
  pub clock : s.last_generation ≤ t.last_generation
  pub origin : (route : Text) (f : DiskEntry) → lookup route t.routes ≡ some f → Origin s route f

Descends-refl : (e : DiskEntry) → Descends e e
Descends-refl e = record {
  generation = refl;
  project = refl;
  sandbox = refl;
  target = inl refl;
  final = λ p. p;
}

Descends-trans : (e f g : DiskEntry) → Descends e f → Descends f g → Descends e g
Descends-trans e f g d h = record {
  generation = h.generation ∙ d.generation;
  project = h.project ∙ d.project;
  sandbox = h.sandbox ∙ d.sandbox;
  target = both d.target h.target;
  final = λ p. h.final (d.final p);
}
  where
    both :
        (f.engine_id ≡ e.engine_id) ⊎ (f.state ≡ released)
        → (g.engine_id ≡ f.engine_id) ⊎ (g.state ≡ released)
        → (g.engine_id ≡ e.engine_id) ⊎ (g.state ≡ released)
    both (inl p) (inl q) = inl (q ∙ p)
    both (inr p) t = inr (h.final p)
    both p (inr q) = inr q

Later-refl : (s : DiskState) → Later s s
Later-refl s = record { clock = omega arith; origin = λ route f h. inl (f, h, Descends-refl f) }

Later-trans : {s t u : DiskState} → Later s t → Later t u → Later s u
Later-trans {s} {t} {u} a b = record {
  clock = omega (arith, a.clock, b.clock);
  origin = λ route g h. trace route g (b.origin route g h);
}
  where
    trace : (route : Text) (g : DiskEntry) → Origin t route g → Origin s route g
    trace route g (inr late) = inr (omega (arith, a.clock))
    trace route g (inl (f, h, d)) = elim (a.origin route f h) [
      | inl (e, k, d') ↦ inl (e, k, Descends-trans e f g d' d)
      | inr late ↦ inr (omega (arith, d.generation))
    ]

-- A route stored anew, as a descendant or under a later generation.
stored_Later :
    (s : DiskState) (n : ℕ) (route : Text) (e : DiskEntry)
    → s.last_generation ≤ n
    → Origin s route e
    → Later s (store_entry (record s { last_generation = n }) route e)
unfolding store_entry
stored_Later s n route e grows from = record {
  clock = grows;
  origin = λ r f h. elim (text_cases r route) [
    | inl same ↦
        let stored : e ≡ f =
          ground (arith, lookup-insert route r e s.routes, text_beq_iff r route) in
        subst (λ x. Origin s x f) (sym same) (subst (Origin s route) stored from)
    | inr other ↦
        inl (
          f,
          ground (arith, lookup-insert route r e s.routes, text_beq_iff r route),
          Descends-refl f,
        )
  ];
}

moved-Descends :
    (old : DiskEntry) (to : State) → old.state ≢ released → Descends old (moved_entry old to)
moved-Descends old to live = record {
  generation = refl;
  project = refl;
  sandbox = refl;
  target = elim (Bool-cases (to == released)) [
    | inl done ↦ inr ((state_beq_iff to released).0 done)
    | inr more ↦ inl (rw more)
  ];
  final = λ p. absurd (live p);
}

Effect-Later : (l : Ledger) (n : DiskState) → Effect l n → Later (clone_disk_state l.state) n
Effect-Later l n (bound route project sandbox engine at e _ _ _ _ h) =
    let b = bind_change-Bound route project sandbox engine at _ n e h in
    rw b.stored
      (stored_Later (clone_disk_state l.state) _ route e (omega arith) (inr (ground arith)))
Effect-Later l n (rebound route expected state engine at e _ _ _ _ h) =
    let (old, x, b) = rebind_change-Rebound route expected state engine at _ n e h in
    rw b.stored
      (stored_Later (clone_disk_state l.state) _ route e (omega arith) (inr (ground arith)))
Effect-Later l n (moved route expected from to e h) =
    let (old, x, b) = transition_change-Moved l.active route expected from to _ n e h in
    rw b.stored (
      stored_Later (clone_disk_state l.state) _ route e (omega arith) (
        inl (
          old,
          x.held,
          subst (Descends old) (sym b.entry) (
              moved-Descends old to
                (λ p. (allowed_transition-known from to b.allowed).1 (sym x.in_state ∙ p))),
        )))
Effect-Later l n (touched route expected state at e _ _ h) =
    let (old, x, b) = touch_change-Touched route expected state at _ n e h in
    rw b.stored (
      stored_Later (clone_disk_state l.state) _ route e (omega arith) (
        inl (
          old,
          x.held,
          subst (Descends old) (sym b.entry) (record {
            generation = refl;
            project = refl;
            sandbox = refl;
            target = inl refl;
            final = λ p. p;
          }),
        )))
Effect-Later l n (removed route expected state _ h) =
    let (old, x, stored) = remove_change-Expected route expected state _ n h in
    rw stored (record {
      clock = omega arith;
      origin = λ r f k. inl (
        f,
        ground (arith, lookup-delete route r (clone_disk_state l.state).routes),
        Descends-refl f,
      );
    })

Outcome-Later : {l m : Ledger} → Inv l → Outcome l m → Later l.state m.state
Outcome-Later {l} v (unchanged d) = Later-refl l.state
Outcome-Later {l} v (changed n d live effect valid) =
    subst (λ s. Later s n) (clone_disk_state-same l.state v.well) (Effect-Later l n effect)

-- The in-memory calls leave the routes alone.
same_state : (s t : DiskState) → t ≡ s → Later s t
same_state s t e = subst (Later s) (sym e) (Later-refl s)

module _ (c : Codec) where
  Step-Later : {l m : Ledger} → Inv l → Step c l m → Later l.state m.state
  Step-Later {l} v (binds fails r p s e at) = Outcome-Later v (bind-Outcome c fails l r p s e at)
  Step-Later {l} v (rebinds fails r n t e at) =
      Outcome-Later v (rebind-Outcome c fails l r n t e at)
  Step-Later {l} v (transitions fails r n t u) =
      Outcome-Later v (transition-Outcome c fails l r n t u)
  Step-Later {l} v (touches fails r n t at) = Outcome-Later v (touch-Outcome c fails l r n t at)
  Step-Later {l} v (removes fails r n t) = Outcome-Later v (remove-Outcome c fails l r n t)
  Step-Later {l} v (acquires r p s n) = same_state l.state _ (state-acquire_operation l r p s n)
  Step-Later {l} v (releases key) = same_state l.state _ (state-release_operation l key)
  Step-Later {l} v closes = same_state l.state _ (state-close l)

  -- No history takes the generation clock back, and every route that it leads to descends from one
  -- that was there under the same id and generation, or has a generation past the old clock.
  pub Reach-Later : {l m : Ledger} → Inv l → Reach c l m → Later l.state m.state
  Reach-Later {l} v here = Later-refl l.state
  Reach-Later v (next r st) = Later-trans (Reach-Later v r) (Step-Later (Reach-Inv c r v) st)

-- In a well-formed state a generation belongs to one route.
pub generation_unique :
    (s : DiskState) (r q : Text) (e f : DiskEntry)
    → WellFormed s
    → lookup r s.routes ≡ some e
    → lookup q s.routes ≡ some f
    → f.generation ≡ e.generation
    → q ≡ r
generation_unique s r q e f w h k same = elim (text_cases q r) [
  | inl p ↦ p
  | inr other ↦
      let apart =
        All-lookup _ q f s.routes (Apart-lookup _ Separate-sym r e s.routes w.valid.apart h) k in
      absurd ((apart other).generations (sym same))
]

some_same : {A : Type 0} {a b : A} → some a ≡ some b → a ≡ b
some_same p = cc

module _ (c : Codec) where
  -- From a ledger with the invariant, and after any sequence of calls, ResolveCurrent for the
  -- generation of a route that was stored at the start, in any state but released, succeeds only for
  -- that route id, project and sandbox, and gives the engine that the route had.
  pub resolve_current-fenced :
      (l m : Ledger) (r q project sandbox : Text) (state : State) (e : DiskEntry) (b : Binding)
      → Inv l
      → Reach c l m
      → lookup r l.state.routes ≡ some e
      → state ≢ released
      → resolve_current m q project sandbox e.generation state ≡ ok b
      → (q ≡ r) × (project ≡ e.project_id) × (sandbox ≡ e.sandbox_id) × (b.engine_id ≡ e.engine_id)
  unfolding resolve_current binding_from_disk
  resolve_current-fenced l m r q project sandbox state e b v reach held live h =
      let (checked, h') =
        >>-eq-ok (require (valid_route_identity q project sandbox && valid_state state) invalid) _
          h in
      let (f, found, result) =
        >>=-eq-ok (current_entry m q project sandbox e.generation state) _ h' in
      let cur = current_entry-Current m q project sandbox e.generation state f found in
      elim ((Reach-Later c v reach).origin q f cur.stored) [
        | inr late ↦
            let known = All-lookup _ r e l.state.routes v.well.valid.entries held in
            absurd (omega (arith, cur.assigned, known.clocked))
        | inl (g, k, d) ↦
            let one =
              generation_unique l.state r q e g v.well held k (sym d.generation ∙ cur.assigned) in
            let same : g ≡ e = some_same (sym k ∙ ap (λ x. lookup x l.state.routes) one ∙ held) in
            (
              one,
              sym cur.owner ∙ d.project ∙ ap (λ (x : DiskEntry). x.project_id) same,
              sym cur.box ∙ d.sandbox ∙ ap (λ (x : DiskEntry). x.sandbox_id) same,
              elim d.target [
                | inl kept ↦
                    let out : b.engine_id ≡ f.engine_id = ground arith in
                    out ∙ kept ∙ ap (λ (x : DiskEntry). x.engine_id) same
                | inr gone ↦ absurd (live (sym cur.serving ∙ gone))
              ],
            )
      ]
