-- ===== src/Common/Signed.antt =====
-- Go's signed integers.
use Prim.Native.Nat.{ℕ, suc, ◌+◌, ◌*◌, ◌-◌, ◌%◌, ◌^◌}
use mathlib.Core.Bool.{Bool, true, false}
use brezel.Common.Tests.{ltb, leb, ◌==◌, nat_eq, if◌then◌else◌}

pub data ℤ : Type 0 where
  pos : ℕ → ℤ
  -- `negsuc n` is `-(n + 1)`.
  negsuc : ℕ → ℤ

unfoldable pub int_lt : ℤ → ℤ → Bool
int_lt (pos a) (pos b) = ltb a b
int_lt (pos a) (negsuc b) = false
int_lt (negsuc a) (pos b) = true
int_lt (negsuc a) (negsuc b) = ltb b a

unfoldable pub int_beq : ℤ → ℤ → Bool
int_beq (pos a) (pos b) = a == b
int_beq (negsuc a) (negsuc b) = a == b
int_beq (pos a) (negsuc b) = false
int_beq (negsuc a) (pos b) = false

-- The value of an int64 that stands for an integer, 2^64 apart from it.
unfoldable pub wrap_int64 : ℤ → ℤ
wrap_int64 (pos n) = let r = n % 2 ^ 64 in if ltb r (2 ^ 63) then pos r else negsuc (2 ^ 64 - 1 - r)
wrap_int64 (negsuc n) =
    let r = n % 2 ^ 64 in if ltb r (2 ^ 63) then negsuc r else pos (2 ^ 64 - 1 - r)

minus : ℕ → ℕ → ℤ
minus a b = if leb b a then pos (a - b) else negsuc (b - a - 1)

exact_sub : ℤ → ℤ → ℤ
unfolding minus
exact_sub (pos a) (pos b) = minus a b
exact_sub (pos a) (negsuc b) = pos (suc (a + b))
exact_sub (negsuc a) (pos b) = negsuc (a + b)
exact_sub (negsuc a) (negsuc b) = minus b a

-- `a - b` of type int64
unfoldable pub int64_sub : ℤ → ℤ → ℤ
unfolding exact_sub wrap_int64
int64_sub a b = wrap_int64 (exact_sub a b)

exact_add : ℤ → ℤ → ℤ
unfolding minus
exact_add (pos a) (pos b) = pos (a + b)
exact_add (pos a) (negsuc b) = minus a (suc b)
exact_add (negsuc a) (pos b) = minus b (suc a)
exact_add (negsuc a) (negsuc b) = negsuc (suc (a + b))

-- `a + b` of type int64
unfoldable pub int64_add : ℤ → ℤ → ℤ
unfolding exact_add wrap_int64
int64_add a b = wrap_int64 (exact_add a b)

-- The difference of two times as a time.Duration, which stays within an int64.
within_int64 : ℕ → ℕ
within_int64 n = if leb n (2 ^ 63 - 1) then n else 2 ^ 63 - 1

unfoldable pub time_sub : ℕ → ℕ → ℤ
unfolding within_int64
time_sub t u = if leb u t then pos (within_int64 (t - u)) else negsuc (within_int64 (u - t - 1))

abbrev pub second : ℕ
second = 10 ^ 9

-- A number of seconds as a time.Duration, an int64 of nanoseconds.
unfoldable pub seconds_of : ℤ → ℤ
seconds_of (pos s) = wrap_int64 (pos (s * second))
seconds_of (negsuc s) = wrap_int64 (negsuc (s * second + (second - 1)))

-- `t.Add(d)`
unfoldable pub after : ℕ → ℤ → ℕ
after t (pos d) = t + d
after t (negsuc d) = t - (d + 1)
