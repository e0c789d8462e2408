-- ===== src/Common/Base64.antt =====
-- base64.RawURLEncoding: EncodeToString, and DecodeString of its Strict form.
use Prim.Native.Nat.{ℕ, ◌+◌, ◌-◌, ◌*◌, ◌/◌, ◌%◌, ◌<◌, ◌≤◌}
use mathlib.Core.Path.{◌≡◌, refl}
use mathlib.Core.Logic.{◌≢◌}
use mathlib.Core.Bool.{◌&&◌, ◌||◌}
use mathlib.Core.Option.{Option, none, some}
use mathlib.Core.List.{List, [], ◌∷◌}
use native.Mathlib.Omega.{arith}
use brezel.Common.Tests.{ltb, leb, ◌==◌, nat_eq, if◌then◌else◌}
use brezel.Common.Lists.{All}
use brezel.Common.Bytes.{Text}

letter : ℕ → ℕ
letter n =
    if ltb n 26
    then n + 65
    else if ltb n 52
    then n + 71
    else if ltb n 62
    then n - 4
    else if n == 62
    then b'-'
    else b'_'

sextet : ℕ → Option ℕ
sextet c =
    if leb 65 c && leb c 90
    then some (c - 65)
    else if leb 97 c && leb c 122
    then some (c - 71)
    else if leb 48 c && leb c 57
    then some (c + 4)
    else if c == b'-'
    then some 62
    else if c == b'_'
    then some 63
    else none

-- The six-bit groups of the bytes.
groups : Text → List ℕ
groups [] = []
groups (a ∷ []) = (a / 4) ∷ (a % 4 * 16) ∷ []
groups (a ∷ b ∷ []) = (a / 4) ∷ (a % 4 * 16 + b / 16) ∷ (b % 16 * 4) ∷ []
groups (a ∷ b ∷ c ∷ r) =
    (a / 4) ∷ (a % 4 * 16 + b / 16) ∷ (b % 16 * 4 + c / 64) ∷ (c % 64) ∷ groups r

letters : List ℕ → Text
unfolding letter
letters [] = []
letters (n ∷ ns) = letter n ∷ letters ns

unfoldable pub base64_encode : Text → Text
unfolding groups letters
base64_encode s = letters (groups s)

-- The values of the letters; line ends are passed over, as the decoder does even when it is strict.
sextets : Text → Option (List ℕ)
unfolding sextet
sextets [] = some []
sextets (c ∷ cs) =
    let rest = sextets cs in
    if c == 10 || c == 13 then rest else elim (sextet c) [
      | none ↦ none
      | some n ↦ elim rest [ none ↦ none | some ns ↦ some (n ∷ ns) ]
    ]

-- The bytes of the groups; the strict decoder refuses bits that are left over.
joined : List ℕ → Option Text
joined [] = some []
joined (a ∷ []) = none
joined (a ∷ b ∷ []) = if b % 16 == 0 then some ((a * 4 + b / 16) ∷ []) else none
joined (a ∷ b ∷ c ∷ []) =
    if c % 4 == 0 then some ((a * 4 + b / 16) ∷ (b % 16 * 16 + c / 4) ∷ []) else none
joined (a ∷ b ∷ c ∷ d ∷ r) = elim (joined r) [
  | none ↦ none
  | some bytes ↦ some ((a * 4 + b / 16) ∷ (b % 16 * 16 + c / 4) ∷ (c % 4 * 64 + d) ∷ bytes)
]

unfoldable pub base64_decode : Text → Option Text
unfolding sextets joined
base64_decode s = elim (sextets s) [ none ↦ none | some ns ↦ joined ns ]

sextet-letter : (n : ℕ) → n < 64 → sextet (letter n) ≡ some n
unfolding sextet letter
sextet-letter n h = ground arith

letter_byte : (n : ℕ) → n < 64 → (letter n < 128) × (45 ≤ letter n) × (letter n ≢ b'.')
unfolding letter
letter_byte n h = (ground (arith), ground (arith), λ e. ground (arith))

sextets-letters : (ns : List ℕ) → All (λ n. n < 64) ns → sextets (letters ns) ≡ some ns
unfolding sextets letters
sextets-letters [] h = refl
sextets-letters (n ∷ ns) h =
    ground (arith, sextet-letter n h.0, letter_byte n h.0, sextets-letters ns h.1)

groups-small : (s : Text) → All (λ b. b < 256) s → All (λ n. n < 64) (groups s)
unfolding groups
groups-small [] h = tt
groups-small (a ∷ []) h = (omega arith, (omega arith, tt))
groups-small (a ∷ b ∷ []) h = (omega arith, (omega arith, (omega arith, tt)))
groups-small (a ∷ b ∷ c ∷ r) h =
    (omega arith, (omega arith, (omega arith, (omega arith, groups-small r h.1.1.1))))

joined-groups : (s : Text) → All (λ b. b < 256) s → joined (groups s) ≡ some s
unfolding groups joined
joined-groups [] h = refl
joined-groups (a ∷ []) h = ground arith
joined-groups (a ∷ b ∷ []) h = ground arith
joined-groups (a ∷ b ∷ c ∷ r) h = ground (arith, joined-groups r h.1.1.1)

pub base64_decode-encode :
    (s : Text) → All (λ b. b < 256) s → base64_decode (base64_encode s) ≡ some s
unfolding base64_decode base64_encode
base64_decode-encode s h =
    ground (arith, sextets-letters (groups s) (groups-small s h), joined-groups s h)

letters-dotless : (ns : List ℕ) → All (λ n. n < 64) ns → All (λ c. c ≢ b'.') (letters ns)
unfolding letters
letters-dotless [] h = tt
letters-dotless (n ∷ ns) h = ((letter_byte n h.0).2, letters-dotless ns h.1)

pub base64_encode-dotless :
    (s : Text) → All (λ b. b < 256) s → All (λ c. c ≢ b'.') (base64_encode s)
unfolding base64_encode
base64_encode-dotless s h = letters-dotless (groups s) (groups-small s h)

pub base64_encode-empty : (s : Text) → s ≢ [] → base64_encode s ≢ []
unfolding base64_encode groups letters
base64_encode-empty [] h e = h refl
base64_encode-empty (a ∷ []) h e = cc
base64_encode-empty (a ∷ b ∷ []) h e = cc
base64_encode-empty (a ∷ b ∷ c ∷ r) h e = cc
