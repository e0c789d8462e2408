-- ===== src/Warm/Slots.antt =====
-- The table warm_slots of internal/backend/warm/pool.go, and the statements that the pool runs on
-- it. Rows are a list with one row for each id. Times are nanoseconds since Go's zero time, which
-- order as their UnixNano does for the dates that it can represent.
use brezel.Common.{
  ℕ, ◌≡◌, ◌↔◌, Bool, true, not, ◌&&◌, ◌||◌, List, [], ◌∷◌, Option, none, some, arith, leb,
  Comparable, ◌==◌, nat_eq, if◌then◌else◌, any, Text, text_eq,
}

pub data SlotState : Type 0 where
  creating available claiming claimed deleting : SlotState

abbrev pub rank : SlotState → ℕ
rank creating = 0
rank available = 1
rank claiming = 2
rank claimed = 3
rank deleting = 4

unfoldable pub slot_state_beq : SlotState → SlotState → Bool
slot_state_beq a b = rank a == rank b

pub slot_state_beq_iff : (a b : SlotState) → (slot_state_beq a b ≡ true) ↔ (a ≡ b)
unfolding slot_state_beq
slot_state_beq_iff a b = (λ h. ground arith, λ h. ground arith)

instance abbrev pub slot_state_eq : Comparable SlotState
slot_state_eq = record { equal = slot_state_beq; equal_iff = slot_state_beq_iff }

pub record Slot : Type 0 where
  pub id : Text
  pub backend_id : Text
  pub local_id : Text
  pub state : SlotState
  pub claim_project_id : Text
  pub claim_sandbox_id : Text
  pub created_at : ℕ
  pub expires_at : ℕ
  pub claim_expires_at : ℕ

abbrev pub Table : Type 0
Table = List Slot

-- `WHERE id = ? AND state = ?`
unfoldable pub in_state : Text → SlotState → Slot → Bool
in_state id from s = s.id == id && s.state == from

-- `UPDATE warm_slots SET ... WHERE ...`
unfoldable pub update_rows : (Slot → Bool) → (Slot → Slot) → Table → Table
update_rows test change [] = []
update_rows test change (s ∷ rows) = (if test s then change s else s) ∷ update_rows test change rows

-- `DELETE FROM warm_slots WHERE id = ?`
unfoldable pub delete_row : Text → Table → Table
delete_row id [] = []
delete_row id (s ∷ rows) = if s.id == id then delete_row id rows else s ∷ delete_row id rows

-- `INSERT INTO warm_slots`, which the primary key and the unique local_id may refuse
unfoldable pub insert_row : Slot → Table → Option Table
insert_row s rows =
    if any (λ r. r.id == s.id || r.local_id == s.local_id) rows then none else some (s ∷ rows)

-- The first row of a query, as a Scan of one row reads it.
unfoldable pub query_one : (Slot → Bool) → Table → Option Slot
query_one test [] = none
query_one test (s ∷ rows) = if test s then some s else query_one test rows

unfoldable pub select_rows : (Slot → Bool) → Table → Table
select_rows test [] = []
select_rows test (s ∷ rows) = let rest = select_rows test rows in if test s then s ∷ rest else rest

-- The insertion of a row into rows in the order of their creation.
unfoldable pub by_creation : Slot → Table → Table
by_creation s [] = s ∷ []
by_creation s (r ∷ rows) =
    if leb s.created_at r.created_at then s ∷ r ∷ rows else r ∷ by_creation s rows

-- `ORDER BY created_at`
unfoldable pub ordered : Table → Table
ordered [] = []
ordered (s ∷ rows) = by_creation s (ordered rows)

unfoldable pub first_row : Table → Option Slot
first_row [] = none
first_row (s ∷ rows) = some s

-- The row that beginClaim selects: `state = 'available' AND expires_at >= ?`, the oldest.
unfoldable pub oldest_available : ℕ → Table → Option Slot
oldest_available deadline rows =
    first_row (ordered (select_rows (λ s. s.state == available && leb deadline s.expires_at) rows))

-- The rows of another slot under this backend id: the index warm_slots_backend_id.
unfoldable pub backend_taken : Text → Text → Table → Bool
backend_taken id backend_id rows =
    not (backend_id == []) && any (λ r. not (r.id == id) && r.backend_id == backend_id) rows

-- The index warm_slots_claim.
unfoldable pub claim_taken : Text → Text → Text → Table → Bool
claim_taken id project sandbox rows =
    not (project == [] || sandbox == [])
    && any
        (λ r. not (r.id == id) && (r.claim_project_id == project && r.claim_sandbox_id == sandbox))
        rows
