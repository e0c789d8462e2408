-- ===== src/Capability/Parts.antt =====
-- How the parts of a token are put together and taken apart again.
use brezel.Common.{
  ◌<◌, ◌≡◌, ◌≢◌, refl, ap, ◌∙◌, true, [], ◌∷◌, ◌++◌, arith, some, nat_eq, length, All, ℤ, Text,
  text_eq, text_beq_iff, ok, base64_encode, split_on, in_front, base64_decode-encode,
}
use brezel.Capability.{CapabilityClaims}
use brezel.Capability.Claims.{validate_capability_claims}
use brezel.Capability.Tokens.{
  Json, Crypto, CapabilityVerifier, check_claims, check_signature, within_window, split_dots,
  decode_canonical_segment, capability_message, dot,
}
use brezel.Capability.Authority.{Open}

abbrev Dotless : Text → Type 0
Dotless s = All (λ c. c ≢ dot) s

split_dots_one : (s : Text) → Dotless s → split_dots s ≡ s ∷ []
unfolding split_dots split_on in_front
split_dots_one [] h = refl
split_dots_one (c ∷ s) h = ground (arith, split_dots_one s h.1)

split_dots_front : (s rest : Text) → Dotless s → split_dots (s ++ dot ∷ rest) ≡ s ∷ split_dots rest
unfolding split_dots split_on in_front
split_dots_front [] rest h = refl
split_dots_front (c ∷ s) rest h = ground (arith, split_dots_front s rest h.1)

pub split_dots_token :
    (a b c : Text)
    → Dotless a
    → Dotless b
    → Dotless c
    → split_dots ((a ++ dot ∷ b) ++ dot ∷ c) ≡ a ∷ b ∷ c ∷ []
unfolding split_dots split_on in_front
split_dots_token [] b c p q r =
    ap (λ l. [] ∷ l) (split_dots_front b c q ∙ ap (λ l. b ∷ l) (split_dots_one c r))
split_dots_token (x ∷ a) b c p q r = ground (arith, split_dots_token a b c p.1 q r)

-- What the JSON of a value `a` does: it is a non-empty string of bytes, from which the decoder reads
-- `a` back and nothing more.
pub record Marshals {A : Type 0} (json : Json A) (a : A) : Type 0 where
  pub text : Text
  pub marshal : json.marshal a ≡ some text
  pub decode : json.decode text ≡ some (a, true)
  pub bytes : All (λ b. b < 256) text
  pub some_text : text ≢ []

pub decode_canonical_segment-encode :
    {A : Type 0} (json : Json A) (a : A) (m : Marshals json a)
    → decode_canonical_segment json (base64_encode (Marshals.text m)) ≡ some a
unfolding decode_canonical_segment
decode_canonical_segment-encode json a m = ground (
  arith,
  base64_decode-encode (Marshals.text m) (Marshals.bytes m),
  text_beq_iff (Marshals.text m) (Marshals.text m),
  Marshals.marshal m,
  Marshals.decode m,
)

-- ed25519: the keys belong together, and a signature has 64 bytes.
pub record KeyPair (crypto : Crypto) (private public : Text) : Type 0 where
  pub verifies : (m : Text) → crypto.verify public m (crypto.sign private m) ≡ true
  pub size : (m : Text) → length (crypto.sign private m) ≡ 64
  pub bytes : (m : Text) → All (λ b. b < 256) (crypto.sign private m)

pub check_claims_accepts :
    (v : CapabilityVerifier) (now : ℤ) (key : Text) (c : CapabilityClaims)
    → key ≡ c.key_id
    → validate_capability_claims c ≡ ok tt
    → c.issuer ≡ v.issuer
    → Open now c
    → check_claims v now key c ≡ ok c
unfolding check_claims within_window
check_claims_accepts v now key c k h i o = ground (
  arith,
  text_beq_iff key c.key_id,
  text_beq_iff c.issuer v.issuer,
  Open.issued o,
  Open.started o,
  Open.live o,
)

pub check_signature_accepts :
    (crypto : Crypto) (private public : Text) (pair : KeyPair crypto private public) (a b : Text)
    → check_signature crypto public (record {
      header = a;
      claims = b;
      signature = base64_encode (crypto.sign private (capability_message (a ++ dot ∷ b)));
    })
      ≡ ok tt
unfolding check_signature
check_signature_accepts crypto private public pair a b =
    let m = capability_message (a ++ dot ∷ b) in
    ground (
      arith,
      base64_decode-encode (crypto.sign private m) (KeyPair.bytes pair m),
      KeyPair.size pair m,
      KeyPair.verifies pair m,
    )
