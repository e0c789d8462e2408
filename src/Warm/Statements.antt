-- ===== src/Warm/Statements.antt =====
-- The methods of internal/backend/warm/pool.go that hold p.mu: each is one statement or one
-- transaction. A statement may fail at any time, and does on a closed database; one that fails has no
-- effect, so a commit that takes effect and still returns an error is not modelled.
use brezel.Common.{
  second, after, ℕ, zero, suc, ◌+◌, ◌-◌, ◌*◌, Bool, true, false, ◌&&◌, ◌||◌, List, [], ◌∷◌, ◌++◌,
  Option, none, some, leb, ◌==◌, nat_eq, if◌then◌else◌, length, contains, Text, text_eq, codes, ℤ,
  pos, int64_add, Result, ok, err,
}
use brezel.Domain.Resources.{NetworkPolicy}
use brezel.Warm.Slots.{
  SlotState, creating, available, claiming, claimed, deleting, slot_state_eq, Slot, Table, in_state,
  update_rows, delete_row, insert_row, query_one, select_rows, ordered, oldest_available,
  backend_taken, claim_taken,
}
use brezel.Warm.World.{
  Error, database, no_randomness, pool_closed, reservation_changed, claim_not_exclusive,
  claim_changed, Event, statement, drawn, reserved, published, claimed_for, Outside, World, Exec,
  pure, ◌>>=◌, ◌>>◌, logged, now,
}

pub record Config : Type 0 where
  pub target : ℕ
  pub template_id : Text
  pub slot_ttl : ℕ
  pub max_claim_ttl : ℕ
  pub prime_concurrency : ℕ
  pub network : NetworkPolicy
  pub strict : Bool

abbrev pub claim_safety : ℕ
claim_safety = 30 * second

-- The rows that a statement leaves, the event that it is, and its result.
abbrev pub Statement : Type 0 → Type 0
Statement A = Table → Table × Event × Result Error A

unfoldable pub ran : {A : Type 0} → World → Table × Event × Result Error A → World × Result Error A
ran w (rows, e, r) = (record w { rows = rows; history = e ∷ w.history }, r)

unfoldable pub execute : {A : Type 0} → Outside → Statement A → Exec A
unfolding ran
execute o act w =
    if w.closed || o.faulty w.history
    then (logged w statement, err database)
    else ran w (act w.rows)

-- A statement that reads.
unfoldable pub query : {A : Type 0} → Outside → (Table → A) → Exec A
query o read = execute o (λ rows. (rows, statement, ok (read rows)))

-- `tx.Commit`, after a deferred `tx.Rollback`
unfoldable pub rolled_back : {A : Type 0} → Table → World × Result Error A → World × Result Error A
rolled_back rows (w, ok a) = (w, ok a)
rolled_back rows (w, err e) = (record w { rows = rows }, err e)

unfoldable pub transaction : {A : Type 0} → Exec A → Exec A
transaction act w = rolled_back w.rows (act w)

-- The commit, with the event that the transaction is.
unfoldable pub commit : Outside → Event → Exec (Unit {0})
commit o e = execute o (λ rows. (rows, e, ok tt))

unfoldable pub drew : World → Text → Option Text → World × Result Error Text
drew w prefix none = (logged w drawn, err no_randomness)
drew w prefix (some digits) = (logged w drawn, ok (prefix ++ 95 ∷ digits))

unfoldable pub random_id : Outside → Text → Exec Text
unfolding drew
random_id o prefix w = drew w prefix (o.random w.history)

abbrev pub reservation : Config → ℕ → Text → Text → Slot
reservation c at id local_id = record {
  id = id;
  backend_id = [];
  local_id = local_id;
  state = creating;
  claim_project_id = [];
  claim_sandbox_id = [];
  created_at = at;
  expires_at = at + c.slot_ttl;
  claim_expires_at = 0;
}

unfoldable pub inserted : Table → Option Table → Table × Event × Result Error (Unit {0})
inserted rows none = (rows, statement, err database)
inserted rows (some more) = (more, statement, ok tt)

unfoldable pub insert_slot : Outside → Slot → Exec (Unit {0})
unfolding inserted
insert_slot o s = execute o (λ rows. inserted rows (insert_row s rows))

unfoldable pub insert_missing : Outside → Config → ℕ → ℕ → Exec (List Slot)
insert_missing o c at zero = pure []
insert_missing o c at (suc missing) = do
  id ← random_id o (codes "wps")
  local_id ← random_id o (codes "warm")
  insert_slot o (reservation c at id local_id)
  rest ← insert_missing o c at missing
  pure (reservation c at id local_id ∷ rest)

unfoldable pub local_ids : List Slot → List Text
local_ids [] = []
local_ids (s ∷ slots) = s.local_id ∷ local_ids slots

-- The slots that are missing, from the number of rows.
unfoldable pub fill : Outside → Config → ℕ → Exec (List Slot)
fill o c count =
    if leb c.target count
    then pure []
    else transaction (do
      at ← now o
      slots ← insert_missing o c at (c.target - count)
      commit o (reserved (local_ids slots))
      pure slots)

unfoldable pub reserve_missing : Outside → Config → Exec (List Slot)
reserve_missing o c w =
    if w.closed then (w, err pool_closed) else (do count ← query o length; fill o c count) w

-- The rows under a condition on the id and the state after an UPDATE of them, and the result if
-- there is such a row.
unfoldable pub update_slot :
    Text → SlotState → Bool → Error → (Slot → Slot) → Event → Statement (Unit {0})
update_slot id from taken why change e rows = elim (query_one (in_state id from) rows) [
  | none ↦ (rows, statement, err why)
  | some s ↦
      if taken
      then (rows, statement, err database)
      else (update_rows (in_state id from) change rows, e, ok tt)
]

abbrev pub made_available : Text → Slot → Slot
made_available backend_id s = record s { backend_id = backend_id; state = available }

unfoldable pub mark_available : Outside → Text → Text → Exec (Unit {0})
mark_available o id backend_id = execute o λ rows.
    update_slot id creating (backend_taken id backend_id rows) reservation_changed
      (made_available backend_id) (published backend_id) rows

abbrev pub made_claiming : Text → Text → ℕ → Slot → Slot
made_claiming project sandbox until s = record s {
  state = claiming;
  claim_project_id = project;
  claim_sandbox_id = sandbox;
  claim_expires_at = until;
}

-- The UPDATE of beginClaim.
unfoldable pub claim_slot : Outside → Text → Text → ℕ → Slot → Exec (Unit {0})
claim_slot o project sandbox until s = execute o λ rows.
    update_slot s.id available (claim_taken s.id project sandbox rows) claim_not_exclusive
      (made_claiming project sandbox until) statement rows

unfoldable pub claim_found : Outside → Text → Text → ℤ → Option Slot → Exec (Option Slot)
claim_found o project sandbox ttl none = pure none
claim_found o project sandbox ttl (some s) = do
  at ← now o
  claim_slot o project sandbox (after at ttl) s
  commit o (claimed_for s.backend_id project sandbox)
  pure (some (made_claiming project sandbox (after at ttl) s))

unfoldable pub begin_claim : Outside → Text → Text → ℤ → Exec (Option Slot)
begin_claim o project sandbox ttl = transaction (do
  at ← now o
  found ← query o (oldest_available (after at (int64_add ttl (pos claim_safety))))
  claim_found o project sandbox ttl found)

-- The condition of finishClaim on its row.
unfoldable pub is_claim : Text → Text → Text → Slot → Bool
is_claim id project sandbox s =
    in_state id claiming s && (s.claim_project_id == project && s.claim_sandbox_id == sandbox)

unfoldable pub confirm : Text → Text → Text → Statement (Unit {0})
confirm id project sandbox rows = elim (query_one (is_claim id project sandbox) rows) [
  | none ↦ (rows, statement, err claim_changed)
  | some s ↦ (
    update_rows (is_claim id project sandbox) (λ r. record r { state = claimed }) rows,
    statement,
    ok tt,
  )
]

unfoldable pub finish_claim : Outside → Text → Text → Text → Exec (Unit {0})
finish_claim o id project sandbox = execute o (confirm id project sandbox)

unfoldable pub quarantine : Text → SlotState → Statement Bool
quarantine id from rows = elim (query_one (in_state id from) rows) [
  | none ↦ (rows, statement, ok false)
  | some s ↦
      (update_rows (in_state id from) (λ r. record r { state = deleting }) rows, statement, ok true)
]

unfoldable pub mark_deleting : Outside → Text → SlotState → Exec Bool
mark_deleting o id from = execute o (quarantine id from)

unfoldable pub retire_available : Outside → Text → Exec Bool
retire_available o id = mark_deleting o id available

unfoldable pub find_claim : Outside → Text → Text → Exec (Option Slot)
find_claim o project sandbox = query o (
    query_one λ s.
      (s.claim_project_id == project && s.claim_sandbox_id == sandbox)
      && (s.state == claiming || s.state == claimed))

unfoldable pub find_backend : Outside → Text → Exec (Option Slot)
find_backend o backend_id = query o (query_one (λ s. s.backend_id == backend_id))

unfoldable pub list_states : Outside → List SlotState → Exec Table
list_states o states = query o (λ rows. ordered (select_rows (λ s. contains s.state states) rows))

unfoldable pub remove : Outside → Text → Exec (Unit {0})
remove o id = execute o (λ rows. (delete_row id rows, statement, ok tt))

-- Close: the database takes no further statement.
unfoldable pub close : Exec (Unit {0})
close w = (record w { closed = true }, ok tt)
