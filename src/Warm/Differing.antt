-- ===== src/Warm/Differing.antt =====
-- What slots of the table have to do with each other and with the backend ids in the history.
use brezel.Common.{
  ◌≡◌, ◌≢◌, refl, sym, subst, ◌⊎◌, inl, inr, Bool, true, false, List, [], ◌∷◌, arith, if_cases,
  Bool-cases, ◌==◌, if◌then◌else◌, All, Apart, All-map, contains, Text, text_eq, text_beq_iff,
}
use brezel.Warm.Slots.{available, slot_state_eq, Slot, Table, update_rows, delete_row}
use brezel.Warm.World.{
  Event, statement, drawn, reserved, published, claimed_for, created, found, inspected, timed,
  deleted, History,
}
use brezel.Warm.Picking.{silent, In}

-- The backend ids that were published and that were claimed, with the last one first.
unfoldable pub published_ids : History → List Text
published_ids [] = []
published_ids (published id ∷ h) = id ∷ published_ids h
published_ids (_ ∷ h) = published_ids h

unfoldable pub claimed_ids : History → List Text
claimed_ids [] = []
claimed_ids (claimed_for id project sandbox ∷ h) = id ∷ claimed_ids h
claimed_ids (_ ∷ h) = claimed_ids h

abbrev pub Distinct : List Text → Type 0
Distinct = Apart (λ x y. x ≢ y)

-- Two slots have two ids, and two backend ids where both are available.
abbrev pub Differ : Slot → Slot → Type 0
Differ r s =
    (r.id ≢ s.id) × (r.state ≡ available → s.state ≡ available → r.backend_id ≢ s.backend_id)

-- An available slot is published and has no claim.
abbrev pub Free : List Text → List Text → Slot → Type 0
Free pubs taken s =
    s.state ≡ available
    → (contains s.backend_id pubs ≡ true) × (contains s.backend_id taken ≡ false)

pub record Sound (pubs taken : List Text) (rows : Table) : Type 0 where
  pub differ : Apart Differ rows
  pub free : All (Free pubs taken) rows
  pub once : Distinct taken
  pub known : All (λ b. contains b pubs ≡ true) taken

abbrev pub SingleUse : Table → History → Type 0
SingleUse rows h = Distinct (published_ids h) → Sound (published_ids h) (claimed_ids h) rows

abbrev pub updated : (Slot → Bool) → (Slot → Slot) → Slot → Slot
updated test change s = if test s then change s else s

pub All-update {ℓ κ} :
    (P : Slot → Type ℓ) (Q : Slot → Type κ) (test : Slot → Bool) (change : Slot → Slot)
    → ((s : Slot) → P s → Q (updated test change s))
    → (rows : Table) → All P rows
    → All Q (update_rows test change rows)
unfolding update_rows
All-update P Q test change f [] h = tt
All-update P Q test change f (s ∷ rows) h = (f s h.0, All-update P Q test change f rows h.1)

pub Apart-update {ℓ} :
    (T : Slot → Type ℓ) (test : Slot → Bool) (change : Slot → Slot)
    → ((r s : Slot)
        → T r
        → T s
        → Differ r s
        → Differ (updated test change r) (updated test change s))
    → (rows : Table) → All T rows
    → Apart Differ rows
    → Apart Differ (update_rows test change rows)
unfolding update_rows
Apart-update T test change f [] t h = tt
Apart-update T test change f (r ∷ rows) t h = (
  All-update (λ s. T s × Differ r s) (Differ (updated test change r)) test change
      (λ s p. f r s t.0 p.0 p.1) rows (both rows t.1 h.0),
  Apart-update T test change f rows t.1 h.1,
)
  where
    both : (xs : Table) → All T xs → All (Differ r) xs → All (λ s. T s × Differ r s) xs
    both [] a b = tt
    both (x ∷ xs) a b = ((a.0, b.0), both xs a.1 b.1)

pub All-delete_row {ℓ} :
    (P : Slot → Type ℓ) (id : Text) (rows : Table) → All P rows → All P (delete_row id rows)
unfolding delete_row
All-delete_row P id [] h = tt
All-delete_row P id (s ∷ rows) h =
    if_cases (All P) (s.id == id) _ _ (λ e. All-delete_row P id rows h.1)
      (λ e. (h.0, All-delete_row P id rows h.1))

pub Apart-delete_row :
    (id : Text) (rows : Table) → Apart Differ rows → Apart Differ (delete_row id rows)
unfolding delete_row
Apart-delete_row id [] h = tt
Apart-delete_row id (s ∷ rows) h =
    if_cases (Apart Differ) (s.id == id) _ _ (λ e. Apart-delete_row id rows h.1)
      (λ e. (All-delete_row (Differ s) id rows h.0, Apart-delete_row id rows h.1))

-- What a member has in common with the others.
pub All-In {ℓ} : (P : Slot → Type ℓ) (s : Slot) (rows : Table) → In s rows → All P rows → P s
All-In P s [] h a = absurd cc
All-In P s (r ∷ rows) (inl p) a = subst P p a.0
All-In P s (r ∷ rows) (inr q) a = All-In P s rows q a.1

Differ-sym : (r s : Slot) → Differ r s → Differ s r
Differ-sym r s d = (λ p. d.0 (sym p), λ a b p. d.1 b a (sym p))

pub others :
    (s : Slot) (rows : Table) → In s rows → Apart Differ rows → All (λ r. (r ≡ s) ⊎ Differ r s) rows
others s [] h a = tt
others s (r ∷ rows) (inl p) a = (
  inl p,
  All-map (Differ r) (λ t. (t ≡ s) ⊎ Differ t s)
      (λ t d. inr (Differ-sym s t (subst (λ x. Differ x t) p d))) rows a.0,
)
others s (r ∷ rows) (inr q) a = (inr (All-In (Differ r) s rows q a.0), others s rows q a.1)

pub silent_ids :
    (e : Event) (h : History)
    → silent e ≡ true
    → (published_ids (e ∷ h) ≡ published_ids h) × (claimed_ids (e ∷ h) ≡ claimed_ids h)
unfolding published_ids claimed_ids
silent_ids (published id) h q = absurd cc
silent_ids (claimed_for id project sandbox) h q = absurd cc
silent_ids statement h q = (refl, refl)
silent_ids drawn h q = (refl, refl)
silent_ids (reserved ids) h q = (refl, refl)
silent_ids (created request r) h q = absurd cc
silent_ids (found local project r) h q = (refl, refl)
silent_ids (inspected id r) h q = (refl, refl)
silent_ids (timed id n r) h q = (refl, refl)
silent_ids (deleted id r) h q = (refl, refl)

-- No name is in a list that holds another in each place.
pub absent : (x : Text) (xs : List Text) → All (λ y. x ≢ y) xs → contains x xs ≡ false
absent x [] h = refl
absent x (y ∷ ys) h =
    let rest = absent x ys h.1 in
    elim (Bool-cases (x == y)) [
      | inl same ↦ absurd (h.0 (ground (arith, text_beq_iff x y)))
      | inr differ ↦ ground arith
    ]

pub missed : (x y : Text) (xs : List Text) → contains x xs ≡ true → contains y xs ≡ false → x ≢ y
missed x y xs a b p = ground (arith, subst (λ z. contains z xs ≡ true) p a)
