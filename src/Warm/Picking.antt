-- ===== src/Warm/Picking.antt =====
-- What the pool's statements ask of a predicate on the table and the history, and the row that
-- beginClaim in internal/backend/warm/pool.go picks.
use brezel.Common.{
  ℕ, ◌≤◌, ◌≡◌, ◌≢◌, subst, ◌⊎◌, inl, inr, Bool, true, false, [], ◌∷◌, some, arith, leb, if_cases,
  Text, text_eq,
}
use brezel.Warm.Slots.{
  creating, available, slot_state_eq, slot_state_beq_iff, Slot, Table, in_state, update_rows,
  delete_row, select_rows, by_creation, ordered, first_row, oldest_available,
}
use brezel.Warm.World.{Event, published, claimed_for, created, History}
use brezel.Warm.Statements.{made_available, made_claiming}

-- An event by which no slot changes hands and no sandbox is created.
abbrev pub silent : Event → Bool
silent (published id) = false
silent (claimed_for id project sandbox) = false
silent (created request r) = false
silent _ = true

abbrev pub In : Slot → Table → Type 0
In s [] = true ≡ false
In s (r ∷ rows) = (r ≡ s) ⊎ In s rows

pub record Invariant (P : Table → History → Type 0) : Type 0 where
  pub quiet : (rows : Table) (h : History) (e : Event) → silent e ≡ true → P rows h → P rows (e ∷ h)
  pub publishing :
      (rows : Table) (h : History) (id backend_id : Text)
      → P rows h
      → P
          (update_rows (in_state id creating) (made_available backend_id) rows)
          (published backend_id ∷ h)
  pub claiming_row :
      (rows : Table) (h : History) (s : Slot) (project sandbox : Text) (until : ℕ)
      → In s rows
      → s.state ≡ available
      → P rows h
      → P
          (update_rows (in_state s.id available) (made_claiming project sandbox until) rows)
          (claimed_for s.backend_id project sandbox ∷ h)
  pub retiring :
      (rows : Table) (h : History) (test : Slot → Bool) (change : Slot → Slot)
      → ((s : Slot) → (change s).id ≡ s.id)
      → ((s : Slot) → (change s).state ≢ available)
      → P rows h
      → P (update_rows test change rows) h
  pub removing : (rows : Table) (h : History) (id : Text) → P rows h → P (delete_row id rows) h

-- The first row of a query, and what the query says of it.
In-by_creation : (s r : Slot) (rows : Table) → In s (by_creation r rows) → (r ≡ s) ⊎ In s rows
unfolding by_creation
In-by_creation s r [] h = h
In-by_creation s r (t ∷ rows) h =
    if_cases (λ (out : Table). In s out → (r ≡ s) ⊎ ((t ≡ s) ⊎ In s rows))
      (leb r.created_at t.created_at) _ _ (λ e h. h)
      (λ e h. elim h [
        | inl p ↦ inr (inl p)
        | inr deeper ↦ elim (In-by_creation s r rows deeper) [ inl p ↦ inl p | inr q ↦ inr (inr q) ]
      ])
      h

In-ordered : (s : Slot) (rows : Table) → In s (ordered rows) → In s rows
unfolding ordered
In-ordered s [] h = h
In-ordered s (r ∷ rows) h = elim (In-by_creation s r (ordered rows) h) [
  | inl p ↦ inl p
  | inr q ↦ inr (In-ordered s rows q)
]

In-select_rows :
    (s : Slot) (test : Slot → Bool) (rows : Table)
    → In s (select_rows test rows)
    → In s rows × (test s ≡ true)
unfolding select_rows
In-select_rows s test [] h = absurd cc
In-select_rows s test (r ∷ rows) h =
    if_cases (λ (out : Table). In s out → ((r ≡ s) ⊎ In s rows) × (test s ≡ true)) (test r) _ _
      (λ e h. elim h [
        | inl p ↦ (inl p, subst (λ x. test x ≡ true) p e)
        | inr deeper ↦ let inner = In-select_rows s test rows deeper in (inr inner.0, inner.1)
      ])
      (λ e h. let inner = In-select_rows s test rows h in (inr inner.0, inner.1)) h

In-first_row : (s : Slot) (rows : Table) → first_row rows ≡ some s → In s rows
unfolding first_row
In-first_row s [] h = absurd cc
In-first_row s (r ∷ rows) h = inl cc

-- beginClaim selects a row of the table that is available and lives long enough.
pub oldest_available_lem :
    (s : Slot) (deadline : ℕ) (rows : Table)
    → oldest_available deadline rows ≡ some s
    → In s rows × (s.state ≡ available) × (deadline ≤ s.expires_at)
unfolding oldest_available
oldest_available_lem s deadline rows h =
    let (row, passed) = In-select_rows s _ rows (In-ordered s _ (In-first_row s _ h)) in
    (row, ground (arith, slot_state_beq_iff s.state available), ground arith)
