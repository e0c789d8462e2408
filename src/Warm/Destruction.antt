-- ===== src/Warm/Destruction.antt =====
-- The destruction of slots and of customers' sandboxes in internal/backend/warm/pool.go: what
-- discardSlot and Delete have done where they succeed.
use brezel.Common.{
  ◌≡◌, refl, ◌⊎◌, inl, inr, sym, ap, subst, true, false, [], ◌∷◌, Option, arith, Bool-cases, ◌==◌,
  any, Text, text_eq, text_beq_iff, Result, ok, err,
}
use brezel.Warm.Slots.{slot_state_eq, Slot, Table, delete_row}
use brezel.Warm.World.{
  BackendError, not_found, failing, Error, Event, statement, deleted, History, Outside, World, Exec,
  pure, raise, resume, ◌>>=◌, ◌>>◌, inner_delete, inner, logged,
}
use brezel.Warm.Statements.{Config, ran, remove, find_backend}
use brezel.Warm.Methods.{unless_missing, whether, quarantined, destroyed, discard}
use brezel.Warm.Serving.{delete_slot, delete_remote}
use brezel.Warm.Picking.{Invariant}
use brezel.Warm.Invariants.{Kept-atoms, Kept-refills, reserve_missing-Kept, execute_cases}
use brezel.Warm.Served.{delete_slot-Within}

-- The backend has answered a deletion of this id: done, or nothing there.
abbrev pub Confirmed : Text → History → Type 0
Confirmed id [] = true ≡ false
Confirmed id (deleted x (ok u) ∷ h) = (x ≡ id) ⊎ Confirmed id h
Confirmed id (deleted x (err not_found) ∷ h) = (x ≡ id) ⊎ Confirmed id h
Confirmed id (_ ∷ h) = Confirmed id h

Confirmed-later : (id : Text) (e : Event) (h : History) → Confirmed id h → Confirmed id (e ∷ h)
Confirmed-later id (deleted x (ok u)) h c = inr c
Confirmed-later id (deleted x (err not_found)) h c = inr c
Confirmed-later id (deleted x (err failing)) h c = c
Confirmed-later id _ h c = c

Confirmed-stays : (id : Text) → Invariant (λ rows h. Confirmed id h)
Confirmed-stays id = record {
  quiet = λ rows h e q p. Confirmed-later id e h p;
  publishing = λ rows h slot backend_id p. p;
  claiming_row = λ rows h s project sandbox until row free p. p;
  retiring = λ rows h test change same gone p. p;
  removing = λ rows h slot p. p;
}

-- The parts of a block that succeeds.
resume_ok :
    {A B : Type 0} (next : A → Exec B) (out : World × Result Error A) (v : World) (b : B)
    → resume next out ≡ (v, ok b)
    → (mid : World) × (a : A) × (out ≡ (mid, ok a)) × (next a mid ≡ (v, ok b))
unfolding resume
resume_ok next (w, ok a) v b h = (w, a, refl, h)
resume_ok next (w, err e) v b h = absurd (ground arith)

answered_ok :
    (id : Text) (why : Error) (w v : World) (r : Result BackendError (Unit {0}))
    → unless_missing r why (logged w (deleted id r)) ≡ (v, ok tt)
    → Confirmed id v.history
unfolding unless_missing pure raise
answered_ok id why w v (ok u) h =
    subst (λ x. Confirmed id x.history) (ap (λ out. out.0) h) (inl refl)
answered_ok id why w v (err not_found) h =
    subst (λ x. Confirmed id x.history) (ap (λ out. out.0) h) (inl refl)
answered_ok id why w v (err failing) h = absurd (ground arith)

module _ (o : Outside) (c : Config) where
  destroyed_ok :
      (id : Text) (why : Error) (w v : World)
      → destroyed o c id why w ≡ (v, ok tt)
      → (id ≡ []) ⊎ Confirmed id v.history
  unfolding destroyed whether ◌>>=◌ resume inner_delete
  destroyed_ok id why w v h = elim (Bool-cases (id == [])) [
    | inl blank ↦ inl (ground (arith, text_beq_iff id []))
    | inr given ↦ inr (answered_ok id why w v (o.on_delete w.history id) (ground (arith, given)))
  ]

  delete_row_gone : (id : Text) (rows : Table) → any (λ s. s.id == id) (delete_row id rows) ≡ false
  unfolding delete_row
  delete_row_gone id [] = refl
  delete_row_gone id (s ∷ rows) = ground (arith, delete_row_gone id rows)

  remove_ok :
      (id : Text) (w v : World)
      → remove o id w ≡ (v, ok tt)
      → (v.history ≡ statement ∷ w.history) × (any (λ s. s.id == id) v.rows ≡ false)
  unfolding remove ran
  remove_ok id w v =
      execute_cases
        (λ (out : World × Result Error (Unit {0})).
          out ≡ (v, ok tt)
          → (v.history ≡ statement ∷ w.history) × (any (λ s. s.id == id) v.rows ≡ false))
        o _ w (λ h. absurd (ground arith))
        (λ h. (
          ap (λ out. World.history out.0) (sym h),
          subst (λ (x : World). any (λ s. s.id == id) x.rows ≡ false) (ap (λ out. out.0) h)
              (delete_row_gone id w.rows),
        ))

  -- A discard that succeeds ends with a statement of the database, before which the backend has
  -- confirmed that the slot's sandbox is destroyed or is not there, if the slot has a backend id,
  -- and after which the slot's row is gone.
  pub discard-destroys :
      (s : Slot) (w v : World)
      → discard o c s w ≡ (v, ok tt)
      → (h : History) × (v.history ≡ statement ∷ h)
        × ((s.backend_id ≡ []) ⊎ Confirmed s.backend_id h)
        × (any (λ r. r.id == s.id) v.rows ≡ false)
  unfolding discard ◌>>◌ ◌>>=◌ resume
  discard-destroys s w v h =
      let destroy = destroyed o c s.backend_id (inner failing) in
      let forget = λ (u : Unit {0}). remove o s.id in
      let (mid, u, first, rest) =
        resume_ok (λ (u : Unit {0}). destroy >> remove o s.id) (quarantined o c s w) v tt h in
      let (late, u', second, last) = resume_ok forget (destroy mid) v tt rest in
      let gone = remove_ok s.id late v last in
      (late.history, gone.0, destroyed_ok s.backend_id (inner failing) mid late second, gone.1)

  delete_slot-Confirmed :
      (id : Text) (pooled : Option Slot) (w : World)
      → Confirmed id w.history
      → Confirmed id (delete_slot o c pooled w).0.history
  delete_slot-Confirmed id pooled w =
      let stays = Confirmed-stays id in
      let reserves = reserve_missing-Kept stays o (λ rows more h s new e p. p) c in
      (delete_slot-Within (Kept-atoms stays o c)
          (Kept-refills stays o c reserves (λ rows h request r p. p)) pooled).at
        w

  -- A Delete of a customer's sandbox that succeeds has had the backend confirm that the sandbox is
  -- destroyed or is not there.
  pub delete_remote-destroys :
      (id : Text) (w v : World) → delete_remote o c id w ≡ (v, ok tt) → Confirmed id v.history
  unfolding delete_remote ◌>>=◌ ◌>>◌ resume inner_delete
  delete_remote-destroys id w v h =
      let why = inner failing in
      let (mid, pooled, first, rest) =
        resume_ok
          (λ (pooled : Option Slot).
            inner_delete o id >>= λ r. unless_missing r why >> delete_slot o c pooled)
          (find_backend o id w) v tt h in
      let r = o.on_delete mid.history id in
      let (late, u, second, last) =
        resume_ok (λ (u : Unit {0}). delete_slot o c pooled)
          (unless_missing r why (logged mid (deleted id r))) v tt rest in
      subst (λ x. Confirmed id x.history) (ap (λ out. out.0) last)
        (delete_slot-Confirmed id pooled late (answered_ok id why mid late r second))
