-- ===== src/Warm/Capacity.antt =====
-- The bounds of a pool in internal/backend/warm/pool.go: on the rows of its table, and on what a
-- strict pool asks its backend for.
use brezel.Common.{ℕ, ◌+◌, ◌-◌, ◌≤◌, ◌≡◌, List, arith, length, text_eq, Result, ok, err}
use brezel.Warm.Slots.{slot_state_eq, Slot, Table}
use brezel.Warm.World.{Error, History, Outside, World, Exec}
use brezel.Warm.Statements.{Config, rolled_back}
use brezel.Warm.Within.{Within}

module _ (target : ℕ) where
  abbrev pub Fits : Table → History → Type 0
  Fits rows h = length rows ≤ target

-- What a call adds to the table.
record Adds (n : ℕ) {A : Type 0} (m : Exec A) : Type 0 where
  at : (w : World) → length (m w).0.rows ≤ length w.rows + n

module _ (o : Outside) where
  module _ (c : Config) where
    filled :
        (count : ℕ) (w : World) (out : World × Result Error (List Slot))
        → length w.rows ≤ c.target
        → length w.rows ≡ count
        → length out.0.rows ≤ length w.rows + (c.target - count)
        → length (rolled_back w.rows out).0.rows ≤ c.target
    unfolding rolled_back
    filled count w (v, ok a) few e h = omega arith
    filled count w (v, err e) few e' h = few
