-- ===== src/Common/Bytes.antt =====
-- Go strings as lists of bytes, with what the program takes of package strings, unicode, utf8 and
-- regexp.
use Prim.Native.Nat.{ℕ, zero, suc, ◌+◌, ◌-◌, ◌*◌}
use Prim.Native.Char.{code}
use Prim.Native.String.{String}
use mathlib.Core.Path.{◌≡◌, refl}
use mathlib.Core.Logic.{◌↔◌, ◌⊎◌, ◌≢◌, inl, inr}
use mathlib.Core.Bool.{Bool, true, false, ◌&&◌, ◌||◌}
use mathlib.Core.List.{List, [], ◌∷◌, ◌++◌, reverse}
use native.Mathlib.Omega.{arith}
use brezel.Common.Tests.{ltb, leb, Comparable, ◌==◌, nat_eq, if◌then◌else◌, Bool-cases}
use brezel.Common.Lists.{length, all, any}

abbrev pub Text : Type 0
Text = List ℕ

-- The bytes of an ASCII literal.
abbrev pub codes : String → Text
codes (String.◌∷◌ letter rest) = code letter ∷ codes rest
codes String.[] = []

unfoldable pub text_beq : List ℕ → List ℕ → Bool
text_beq [] [] = true
text_beq [] (y ∷ ys) = false
text_beq (x ∷ xs) [] = false
text_beq (x ∷ xs) (y ∷ ys) = x == y && text_beq xs ys

pub text_beq_iff : (a b : List ℕ) → (text_beq a b ≡ true) ↔ (a ≡ b)
unfolding text_beq
text_beq_iff [] [] = (λ h. refl, λ h. refl)
text_beq_iff [] (y ∷ ys) = (λ h. cc, λ h. cc)
text_beq_iff (x ∷ xs) [] = (λ h. cc, λ h. cc)
text_beq_iff (x ∷ xs) (y ∷ ys) =
    (λ h. ground (arith, text_beq_iff xs ys), λ h. ground (arith, text_beq_iff xs ys))

instance abbrev pub text_eq : Comparable (List ℕ)
text_eq = record { equal = text_beq; equal_iff = text_beq_iff }

pub text_cases : (a b : Text) → (a ≡ b) ⊎ (a ≢ b)
text_cases a b = elim (Bool-cases (a == b)) [
  | inl h ↦ inl ((text_beq_iff a b).0 h)
  | inr h ↦ inr (λ p. ground (arith, text_beq_iff a b))
]

-- The order of Go strings, byte by byte.
unfoldable pub text_lt : Text → Text → Bool
text_lt a [] = false
text_lt [] (y ∷ ys) = true
text_lt (x ∷ xs) (y ∷ ys) = ltb x y || (x == y && text_lt xs ys)

abbrev pub between : ℕ → ℕ → ℕ → Bool
between lo hi c = leb lo c && leb c hi

unfoldable pub is_alnum : ℕ → Bool
is_alnum c = between b'A' b'Z' c || (between b'a' b'z' c || between b'0' b'9' c)

unfoldable pub is_name_byte : ℕ → Bool
unfolding is_alnum
is_name_byte c = is_alnum c || (c == b'.' || (c == b'_' || c == b'-'))

-- `^[A-Za-z0-9][A-Za-z0-9._-]{0,127}$`
unfoldable pub safe_name : Text → Bool
unfolding is_name_byte
safe_name [] = false
safe_name (c ∷ cs) = is_alnum c && (leb (length cs) 127 && all is_name_byte cs)

-- A decoded code point with the bytes it stands on; `valid` is false for a byte that begins no
-- well-formed UTF-8 sequence, which Go reads as U+FFFD of width one.
pub record Rune : Type 0 where
  pub point : ℕ
  pub raw : List ℕ
  pub valid : Bool

abbrev is_tail : ℕ → Bool
is_tail c = between 0x80 0xbf c

bad_rune : ℕ → Rune
bad_rune b = record { point = 0xfffd; raw = b ∷ []; valid = false }

two_bytes : ℕ → List ℕ → Rune
unfolding bad_rune
two_bytes b [] = bad_rune b
two_bytes b (c ∷ r) =
    if is_tail c
    then record { point = (b - 0xc0) * 64 + (c - 0x80); raw = b ∷ c ∷ []; valid = true }
    else bad_rune b

three_bytes : ℕ → ℕ → ℕ → List ℕ → Rune
unfolding bad_rune
three_bytes lo hi b (c ∷ d ∷ r) =
    if between lo hi c && is_tail d
    then record {
      point = (b - 0xe0) * 4096 + (c - 0x80) * 64 + (d - 0x80);
      raw = b ∷ c ∷ d ∷ [];
      valid = true;
    }
    else bad_rune b
three_bytes lo hi b _ = bad_rune b

four_bytes : ℕ → ℕ → ℕ → List ℕ → Rune
unfolding bad_rune
four_bytes lo hi b (c ∷ d ∷ e ∷ r) =
    if between lo hi c && (is_tail d && is_tail e)
    then record {
      point = (b - 0xf0) * 262144 + (c - 0x80) * 4096 + (d - 0x80) * 64 + (e - 0x80);
      raw = b ∷ c ∷ d ∷ e ∷ [];
      valid = true;
    }
    else bad_rune b
four_bytes lo hi b _ = bad_rune b

-- utf8.DecodeRune at the byte `b` followed by `r`
decode_rune : ℕ → List ℕ → Rune
unfolding two_bytes three_bytes four_bytes bad_rune
decode_rune b r =
    if ltb b 0x80
    then record { point = b; raw = b ∷ []; valid = true }
    else if between 0xc2 0xdf b
    then two_bytes b r
    else if b == 0xe0
    then three_bytes 0xa0 0xbf b r
    else if b == 0xed
    then three_bytes 0x80 0x9f b r
    else if between 0xe1 0xef b
    then three_bytes 0x80 0xbf b r
    else if b == 0xf0
    then four_bytes 0x90 0xbf b r
    else if b == 0xf4
    then four_bytes 0x80 0x8f b r
    else if between 0xf1 0xf3 b
    then four_bytes 0x80 0xbf b r
    else bad_rune b

runes_from : ℕ → List ℕ → List Rune
unfolding decode_rune
runes_from skip [] = []
runes_from (suc k) (b ∷ bs) = runes_from k bs
runes_from zero (b ∷ bs) = let r = decode_rune b bs in r ∷ runes_from (length r.raw - 1) bs

-- The code points of a string, as `range` yields them.
unfoldable pub runes : Text → List Rune
unfolding runes_from
runes s = runes_from 0 s

-- utf8.ValidString
unfoldable pub valid_utf8 : Text → Bool
unfolding runes
valid_utf8 s = all (λ r. r.valid) (runes s)

-- unicode.IsSpace
unfoldable pub is_space : ℕ → Bool
is_space c =
    between 9 13 c
    || (c == 32
        || (c == 0x85
            || (c == 0xa0
                || (c == 0x1680
                    || (between 0x2000 0x200a c
                        || (c == 0x2028
                            || (c == 0x2029 || (c == 0x202f || (c == 0x205f || c == 0x3000)))))))))

-- unicode.IsControl
unfoldable pub is_control : ℕ → Bool
is_control c = ltb c 32 || between 127 159 c

drop_spaces : List Rune → List Rune
unfolding is_space
drop_spaces [] = []
drop_spaces (r ∷ rs) = if is_space r.point then drop_spaces rs else r ∷ rs

bytes_of : List Rune → Text
bytes_of [] = []
bytes_of (r ∷ rs) = r.raw ++ bytes_of rs

-- strings.TrimSpace
unfoldable pub trim_space : Text → Text
unfolding runes drop_spaces bytes_of
trim_space s = bytes_of (reverse (drop_spaces (reverse (drop_spaces (runes s)))))

unfoldable pub has_prefix : Text → Text → Bool
has_prefix s [] = true
has_prefix [] (p ∷ ps) = false
has_prefix (c ∷ s) (p ∷ ps) = c == p && has_prefix s ps

-- strings.ContainsAny for a set of ASCII bytes
unfoldable pub contains_any : Text → Text → Bool
contains_any s set = any (λ c. any (λ d. c == d) set) s

-- strings.ToLower on ASCII letters
unfoldable pub to_lower : Text → Text
to_lower [] = []
to_lower (c ∷ cs) = (if between b'A' b'Z' c then c + 32 else c) ∷ to_lower cs

unfoldable pub in_front : ℕ → List Text → List Text
in_front c [] = (c ∷ []) ∷ []
in_front c (part ∷ parts) = (c ∷ part) ∷ parts

-- strings.Split at one ASCII byte
unfoldable pub split_on : ℕ → Text → List Text
unfolding in_front
split_on sep [] = [] ∷ []
split_on sep (c ∷ cs) =
    let rest = split_on sep cs in if c == sep then [] ∷ rest else in_front c rest

safe_name_test : safe_name (codes "sbx_01.a-B") ≡ true
unfolding safe_name
safe_name_test = refl

trim_test : trim_space (codes " \t a b" ++ 0xe2 ∷ 0x80 ∷ 0x83 ∷ []) ≡ codes "a b"
unfolding trim_space
trim_test = refl

valid_test : valid_utf8 (codes "abc" ++ 0xc3 ∷ 0x28 ∷ []) ≡ false
unfolding valid_utf8
valid_test = refl
