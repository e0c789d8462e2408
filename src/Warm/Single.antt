-- ===== src/Warm/Single.antt =====
-- A sandbox that the pool has published as a slot is claimed at most once.
use brezel.Common.{
  ℕ, ◌≡◌, ◌≢◌, refl, sym, subst, ap, ◌⊎◌, inl, inr, Bool, true, false, ◌||◌, List, [], ◌∷◌, Option,
  none, some, arith, if_cases, ◌==◌, All, All-map, any, contains, Text, text_eq, text_beq_iff,
}
use brezel.Warm.Slots.{
  creating, available, slot_state_eq, slot_state_beq_iff, in_state, Slot, Table, update_rows,
  delete_row, insert_row,
}
use brezel.Warm.World.{Outside, World, inner_create}
use brezel.Warm.Statements.{Config, close, made_available, made_claiming}
use brezel.Warm.Picking.{Invariant, In}
use brezel.Warm.Invariants.{Kept-atoms, Kept-refills, reserve_missing-Kept}
use brezel.Warm.Calls.{Call, run, run_within}
use brezel.Warm.Differing.{
  published_ids, claimed_ids, Distinct, Differ, Free, Sound, SingleUse, updated, All-update,
  Apart-update, All-delete_row, Apart-delete_row, All-In, others, silent_ids, absent, missed,
}

outside :
    (x : Text) (pubs taken : List Text)
    → contains x pubs ≡ false
    → All (λ b. contains b pubs ≡ true) taken
    → contains x taken ≡ false
outside x pubs taken new known = absent x taken (
    All-map (λ b. contains b pubs ≡ true) (λ y. x ≢ y) (λ y k p. missed y x pubs k new (sym p))
      taken known)

published_Differ :
    (pubs taken : List Text) (id bid : Text) (r t : Slot)
    → contains bid pubs ≡ false
    → Free pubs taken r
    → Free pubs taken t
    → Differ r t
    → Differ
        (updated (in_state id creating) (made_available bid) r)
        (updated (in_state id creating) (made_available bid) t)
unfolding in_state
published_Differ pubs taken id bid r t new fr ft d =
    if_cases (λ x. Differ x (updated (in_state id creating) (made_available bid) t))
      (in_state id creating r) _ _
      (λ here.
        if_cases (λ x. Differ (made_available bid r) x) (in_state id creating t) _ _
          (λ there. absurd (d.0 (ground (arith, text_beq_iff r.id id, text_beq_iff t.id id))))
          (λ elsewhere. (d.0, λ a b p. missed t.backend_id bid pubs (ft b).0 new (sym p))))
      (λ elsewhere.
        if_cases (λ x. Differ r x) (in_state id creating t) _ _
          (λ there. (d.0, λ a b p. missed r.backend_id bid pubs (fr a).0 new p)) (λ apart. d))

published_Free :
    (pubs taken : List Text) (id bid : Text) (r : Slot)
    → contains bid pubs ≡ false
    → contains bid taken ≡ false
    → Free pubs taken r
    → Free (bid ∷ pubs) taken (updated (in_state id creating) (made_available bid) r)
published_Free pubs taken id bid r new unclaimed fr =
    if_cases (Free (bid ∷ pubs) taken) (in_state id creating r) _ _
      (λ here a. (ground (arith, text_beq_iff bid bid), unclaimed))
      (λ elsewhere a. (ground (arith, (fr a).0), (fr a).1))

published_Sound :
    (pubs taken : List Text) (rows : Table) (id bid : Text)
    → contains bid pubs ≡ false
    → Sound pubs taken rows
    → Sound (bid ∷ pubs) taken (update_rows (in_state id creating) (made_available bid) rows)
published_Sound pubs taken rows id bid new s = record {
  differ =
      Apart-update (Free pubs taken) (in_state id creating) (made_available bid)
        (λ r t fr ft d. published_Differ pubs taken id bid r t new fr ft d) rows s.free s.differ;
  free =
      All-update (Free pubs taken) (Free (bid ∷ pubs) taken) (in_state id creating)
        (made_available bid)
        (λ r fr. published_Free pubs taken id bid r new (outside bid pubs taken new s.known) fr)
        rows s.free;
  once = s.once;
  known =
      All-map (λ b. contains b pubs ≡ true) (λ b. contains b (bid ∷ pubs) ≡ true)
        (λ b k. ground arith) taken s.known;
}

-- A change that keeps ids and leaves no row available.
moved_Differ :
    (test : Slot → Bool) (change : Slot → Slot) (r t : Slot)
    → ((s : Slot) → (change s).id ≡ s.id)
    → ((s : Slot) → (change s).state ≢ available)
    → Differ r t
    → Differ (updated test change r) (updated test change t)
moved_Differ test change r t same gone d =
    if_cases (λ x. Differ x (updated test change t)) (test r) _ _
      (λ here.
        if_cases (λ x. Differ (change r) x) (test t) _ _
          (λ there. (λ p. d.0 (cc (p, same r, same t)), λ a b p. gone r a))
          (λ elsewhere. (λ p. d.0 (cc (p, same r)), λ a b p. gone r a)))
      (λ elsewhere.
        if_cases (λ x. Differ r x) (test t) _ _
          (λ there. (λ p. d.0 (cc (p, same t)), λ a b p. gone t b)) (λ apart. d))

moved_Free :
    (pubs taken : List Text) (test : Slot → Bool) (change : Slot → Slot) (r : Slot)
    → ((s : Slot) → (change s).state ≢ available)
    → Free pubs taken r
    → Free pubs taken (updated test change r)
moved_Free pubs taken test change r gone fr =
    if_cases (Free pubs taken) (test r) _ _ (λ here a. absurd (gone r a)) (λ elsewhere. fr)

moved_Sound :
    (pubs taken : List Text) (rows : Table) (test : Slot → Bool) (change : Slot → Slot)
    → ((s : Slot) → (change s).id ≡ s.id)
    → ((s : Slot) → (change s).state ≢ available)
    → Sound pubs taken rows
    → Sound pubs taken (update_rows test change rows)
moved_Sound pubs taken rows test change same gone s = record {
  differ =
      Apart-update (Free pubs taken) test change
        (λ r t fr ft d. moved_Differ test change r t same gone d) rows s.free s.differ;
  free =
      All-update (Free pubs taken) (Free pubs taken) test change
        (λ r fr. moved_Free pubs taken test change r gone fr) rows s.free;
  once = s.once;
  known = s.known;
}

claimed_Free :
    (pubs taken : List Text) (s r : Slot) (project sandbox : Text) (until : ℕ)
    → s.state ≡ available
    → (r ≡ s) ⊎ Differ r s
    → Free pubs taken r
    → Free pubs
        (s.backend_id ∷ taken)
        (updated (in_state s.id available) (made_claiming project sandbox until) r)
unfolding in_state
claimed_Free pubs taken s r project sandbox until free other fr =
    if_cases (Free pubs (s.backend_id ∷ taken)) (in_state s.id available r) _ _
      (λ here a. absurd cc)
      (λ elsewhere a. elim other [
        | inl p ↦ absurd (
            ground
              (arith, ap Slot.id p, text_beq_iff r.id s.id, slot_state_beq_iff r.state available))
        | inr d ↦
            let differs = d.1 a free in
            ((fr a).0, ground (arith, (fr a).1, text_beq_iff r.backend_id s.backend_id, differs))
      ])

claimed_Sound :
    (pubs taken : List Text) (rows : Table) (s : Slot) (project sandbox : Text) (until : ℕ)
    → In s rows
    → s.state ≡ available
    → Sound pubs taken rows
    → Sound pubs
        (s.backend_id ∷ taken)
        (update_rows (in_state s.id available) (made_claiming project sandbox until) rows)
claimed_Sound pubs taken rows s project sandbox until row free sound =
    let own = All-In (Free pubs taken) s rows row sound.free free in
    let moved =
      moved_Sound pubs taken rows (in_state s.id available) (made_claiming project sandbox until)
        (λ r. refl) (λ r e. cc) sound in
    record {
      differ = moved.differ;
      free =
          All-update (λ r. ((r ≡ s) ⊎ Differ r s) × Free pubs taken r)
            (Free pubs (s.backend_id ∷ taken)) (in_state s.id available)
            (made_claiming project sandbox until)
            (λ r p. claimed_Free pubs taken s r project sandbox until free p.0 p.1) rows
            (paired rows (others s rows row sound.differ) sound.free);
      once = (differing s.backend_id taken own.1, sound.once);
      known = (own.0, sound.known);
    }
  where
    paired :
        (xs : Table)
        → All (λ r. (r ≡ s) ⊎ Differ r s) xs
        → All (Free pubs taken) xs
        → All (λ r. ((r ≡ s) ⊎ Differ r s) × Free pubs taken r) xs
    paired [] a b = tt
    paired (x ∷ xs) a b = ((a.0, b.0), paired xs a.1 b.1)

    differing : (x : Text) (xs : List Text) → contains x xs ≡ false → All (λ y. x ≢ y) xs
    differing x [] h = tt
    differing x (y ∷ ys) h = (λ p. ground (arith, text_beq_iff x y), differing x ys (ground arith))

some_injective : (x y : Table) → Path (Option Table) (some x) (some y) → x ≡ y
some_injective x y p = ap (λ (o : Option Table). elim o [ none ↦ x | some r ↦ r ]) p

inserted_Differ :
    (s : Slot) (rows : Table)
    → s.state ≡ creating
    → any (λ r. r.id == s.id || r.local_id == s.local_id) rows ≡ false
    → All (Differ s) rows
inserted_Differ s [] new h = tt
inserted_Differ s (r ∷ rows) new h = (
  (λ p. ground (arith, text_beq_iff r.id s.id, sym p), λ a b p. absurd cc),
  inserted_Differ s rows new (ground arith),
)

inserted_Sound :
    (pubs taken : List Text) (rows more : Table) (s : Slot)
    → s.state ≡ creating
    → insert_row s rows ≡ some more
    → Sound pubs taken rows
    → Sound pubs taken more
unfolding insert_row
inserted_Sound pubs taken rows more s new e sound =
    if_cases (λ (out : Option Table). out ≡ some more → Sound pubs taken more)
      (any (λ r. r.id == s.id || r.local_id == s.local_id) rows) _ _ (λ clash h. absurd cc)
      (λ fresh h. subst (Sound pubs taken) (some_injective (s ∷ rows) more h) (record {
        differ = (inserted_Differ s rows new fresh, sound.differ);
        free = (λ a. absurd cc, sound.free);
        once = sound.once;
        known = sound.known;
      }))
      e

removed_Sound :
    (pubs taken : List Text) (rows : Table) (id : Text)
    → Sound pubs taken rows
    → Sound pubs taken (delete_row id rows)
removed_Sound pubs taken rows id s = record {
  differ = Apart-delete_row id rows s.differ;
  free = All-delete_row (Free pubs taken) id rows s.free;
  once = s.once;
  known = s.known;
}

single_use : Invariant SingleUse
unfolding published_ids claimed_ids
single_use = record {
  quiet = λ rows h e q p distinct.
      let (pubs, taken) = silent_ids e h q in rw (pubs, taken) (p (subst Distinct pubs distinct));
  publishing = λ rows h id bid p distinct.
      published_Sound (published_ids h) (claimed_ids h) rows id bid
        (absent bid (published_ids h) distinct.0) (p distinct.1);
  claiming_row = λ rows h s project sandbox until row free p distinct.
      claimed_Sound (published_ids h) (claimed_ids h) rows s project sandbox until row free
        (p distinct);
  retiring = λ rows h test change same gone p distinct.
      moved_Sound (published_ids h) (claimed_ids h) rows test change same gone (p distinct);
  removing =
      λ rows h id p distinct. removed_Sound (published_ids h) (claimed_ids h) rows id (p distinct);
}

-- However calls of the pool's methods follow each other from an empty table, and however its
-- backend, the database and the clock behave: if the backend never gives the pool one id for two
-- slots, then no id is handed to two claims, and no slot that is available has been handed to any.
pub run_single_use :
    (o : Outside) (c : Config) (calls : List Call) (w : World)
    → w.rows ≡ []
    → w.history ≡ []
    → Distinct (published_ids (run o c calls w).history)
    → Distinct (claimed_ids (run o c calls w).history)
      × All
          (λ s.
            s.state ≡ available
            → contains s.backend_id (claimed_ids (run o c calls w).history) ≡ false)
          (run o c calls w).rows
unfolding close inner_create published_ids claimed_ids
run_single_use o c calls w empty start distinct =
    let started : SingleUse w.rows w.history =
      rw (empty, start) (λ d. record { differ = tt; free = tt; once = tt; known = tt }) in
    let reserves =
      reserve_missing-Kept single_use o
        (λ rows more h s new e p d.
          inserted_Sound (published_ids h) (claimed_ids h) rows more s new e (p d))
        c in
    let sound =
      run_within (Kept-atoms single_use o c)
        (Kept-refills single_use o c reserves (λ rows h request r p. p)) (record { at = λ v p. p })
        (λ request loose. record { at = λ v p. p }) calls w started distinct in
    let h = (run o c calls w).history in
    (
      sound.once,
      All-map (Free (published_ids h) (claimed_ids h))
          (λ s. s.state ≡ available → contains s.backend_id (claimed_ids h) ≡ false)
          (λ s fr a. (fr a).1) (run o c calls w).rows sound.free,
    )
