-- ===== src/Common/Clock.antt =====
-- time.Time: nanoseconds since Go's zero time (later ones only), and the zone's offset from UTC.
-- A monotonic reading is never kept, since every comparison is between stored or UTC values.
use Prim.Native.Nat.{ℕ}
use mathlib.Core.Bool.{Bool}
use brezel.Common.Tests.{ltb, ◌==◌, nat_eq}

pub data Offset : Type 0 where
  east : ℕ → Offset
  west : ℕ → Offset

pub record Time : Type 0 where
  pub instant : ℕ
  pub offset : Offset

abbrev pub is_utc_offset : Offset → Bool
is_utc_offset (east s) = s == 0
is_utc_offset (west s) = s == 0

abbrev pub is_zero : Time → Bool
is_zero t = t.instant == 0

-- `a.Before(b)`
abbrev pub before : Time → Time → Bool
before a b = ltb a.instant b.instant

-- `t.UTC()`
abbrev pub utc : Time → Time
utc t = record t { offset = east 0 }
