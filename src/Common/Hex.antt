-- ===== src/Common/Hex.antt =====
-- encoding/hex over lists of bytes.
use Prim.Native.Nat.{ℕ, ◌+◌, ◌-◌, ◌*◌, ◌/◌, ◌%◌, ◌<◌}
use mathlib.Core.Path.{◌≡◌, refl, sym, ap, ◌∙◌}
use mathlib.Core.Bool.{false}
use mathlib.Core.Option.{Option, none, some}
use mathlib.Core.List.{List, [], ◌∷◌}
use native.Mathlib.Omega.{arith}
use brezel.Common.Tests.{ltb, if◌then◌else◌}
use brezel.Common.Lists.{All}
use brezel.Common.Bytes.{Text, between, to_lower}

hex_digit : ℕ → ℕ
hex_digit n = if ltb n 10 then b'0' + n else b'a' + (n - 10)

digit_value : ℕ → Option ℕ
digit_value c =
    if between b'0' b'9' c
    then some (c - b'0')
    else if between b'a' b'f' c
    then some (c - b'a' + 10)
    else if between b'A' b'F' c
    then some (c - b'A' + 10)
    else none

-- hex.EncodeToString
unfoldable pub hex_encode : List ℕ → Text
unfolding hex_digit
hex_encode [] = []
hex_encode (b ∷ bs) = hex_digit (b / 16) ∷ hex_digit (b % 16) ∷ hex_encode bs

joined : Option ℕ → Option ℕ → Option (List ℕ) → Option (List ℕ)
joined (some h) (some l) (some bs) = some ((h * 16 + l) ∷ bs)
joined _ _ _ = none

-- hex.DecodeString; `none` is an odd length or a byte that is no digit
unfoldable pub hex_decode : Text → Option (List ℕ)
unfolding digit_value joined
hex_decode [] = some []
hex_decode (c ∷ []) = none
hex_decode (c ∷ d ∷ s) = joined (digit_value c) (digit_value d) (hex_decode s)

digit_value-hex_digit : (n : ℕ) → n < 16 → digit_value (hex_digit n) ≡ some n
unfolding digit_value hex_digit
digit_value-hex_digit n h = ground arith

pub hex_decode-encode : (bs : List ℕ) → All (λ b. b < 256) bs → hex_decode (hex_encode bs) ≡ some bs
unfolding hex_decode hex_encode
hex_decode-encode [] h = refl
hex_decode-encode (b ∷ bs) h = ground (
  arith,
  digit_value-hex_digit (b / 16),
  digit_value-hex_digit (b % 16),
  hex_decode-encode bs h.1,
)

-- No letter of the text is a capital.
abbrev pub Uncapped : Text → Type 0
Uncapped s = All (λ c. between b'A' b'Z' c ≡ false) s

pub to_lower-Uncapped : (s : Text) → Uncapped (to_lower s)
unfolding to_lower
to_lower-Uncapped [] = tt
to_lower-Uncapped (c ∷ s) = (ground arith, to_lower-Uncapped s)

digit_value_same :
    (c d : ℕ) (n : ℕ)
    → between b'A' b'Z' c ≡ false
    → between b'A' b'Z' d ≡ false
    → digit_value c ≡ some n
    → digit_value d ≡ some n
    → c ≡ d
unfolding digit_value
digit_value_same c d n p q h k = ground arith

digit_value_small : (c n : ℕ) → digit_value c ≡ some n → n < 16
unfolding digit_value
digit_value_small c n h = ground arith

joined-parts :
    (h l : Option ℕ) (r : Option (List ℕ)) (bs : List ℕ)
    → joined h l r ≡ some bs
    → (a : ℕ) × (b : ℕ) × (rest : List ℕ) × (h ≡ some a)
      × (l ≡ some b)
      × (r ≡ some rest)
      × (bs ≡ (a * 16 + b) ∷ rest)
unfolding joined
joined-parts (some a) (some b) (some rest) bs e = (a, b, rest, refl, refl, refl, ground arith)
joined-parts (some a) (some b) none bs e = absurd (ground arith)
joined-parts (some a) none r bs e = absurd (ground arith)
joined-parts none l r bs e = absurd (ground arith)

cons_parts : {a b : ℕ} {r s : List ℕ} → Path (List ℕ) (a ∷ r) (b ∷ s) → (a ≡ b) × (r ≡ s)
cons_parts p = (cc, cc)

pub hex_decode_injective :
    (s t : Text) (bs : List ℕ)
    → Uncapped s
    → Uncapped t
    → hex_decode s ≡ some bs
    → hex_decode t ≡ some bs
    → s ≡ t
unfolding hex_decode
hex_decode_injective [] [] bs p q h k = refl
hex_decode_injective [] (d ∷ []) bs p q h k = absurd (ground arith)
hex_decode_injective [] (d ∷ e ∷ t) bs p q h k =
    let y = joined-parts (digit_value d) (digit_value e) (hex_decode t) bs k in
    absurd (ground (arith, y.6, h))
hex_decode_injective (c ∷ []) t bs p q h k = absurd (ground arith)
hex_decode_injective (b ∷ c ∷ s) [] bs p q h k =
    let x = joined-parts (digit_value b) (digit_value c) (hex_decode s) bs h in
    absurd (ground (arith, x.6, k))
hex_decode_injective (b ∷ c ∷ s) (d ∷ []) bs p q h k = absurd (ground arith)
hex_decode_injective (b ∷ c ∷ s) (d ∷ e ∷ t) bs p q h k =
    let x = joined-parts (digit_value b) (digit_value c) (hex_decode s) bs h in
    let y = joined-parts (digit_value d) (digit_value e) (hex_decode t) bs k in
    let heads = cons_parts (sym x.6 ∙ y.6) in
    let high : x.0 ≡ y.0 =
      omega (arith, heads.0, digit_value_small c x.1 x.4, digit_value_small e y.1 y.4) in
    let low : x.1 ≡ y.1 =
      omega (arith, heads.0, digit_value_small c x.1 x.4, digit_value_small e y.1 y.4) in
    let first = digit_value_same b d x.0 p.0 q.0 x.3 (y.3 ∙ ap some (sym high)) in
    let second = digit_value_same c e x.1 p.1.0 q.1.0 x.4 (y.4 ∙ ap some (sym low)) in
    let rest = hex_decode_injective s t x.2 p.1.1 q.1.1 x.5 (y.5 ∙ ap some (sym heads.1)) in cc
