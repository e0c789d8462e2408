-- ===== src/Examples/Access.antt =====
-- A policy of two principals.
use brezel.Common.{
  ℕ, zero, suc, ◌≡◌, refl, true, false, List, [], ◌∷◌, any, Text, codes, text_beq, text_lt, runes,
  is_space, trim_space, to_lower, hex_decode, safe_name, pos, int_beq,
}
use brezel.Access.{
  PolicyDocument, Principal, project_set, decoded_digest, parse_principals, insert_sorted,
  sort_principals, parse, compare_all, authorize,
}
use brezel.Access.Tenancy.{owns, grants, authorize-parse}
use brezel.Access.Digests.{parse-exclusive}
use brezel.Common.{Apart, ◌&&◌}

policy : Unit {0}
unfolding project_set decoded_digest parse_principals insert_sorted sort_principals parse
    compare_all authorize text_beq text_lt runes is_space trim_space to_lower hex_decode safe_name
    int_beq
policy = tt

abbrev repeat : ℕ → ℕ → Text
repeat zero c = []
repeat (suc n) c = c ∷ repeat n c

abbrev document : PolicyDocument
document = record {
  version = pos 1;
  principals =
      record {
        name = codes "ops";
        token_sha256 = repeat 64 b'A';
        projects = codes "p1" ∷ codes "p2" ∷ [];
      }
      ∷ record { name = codes "ci"; token_sha256 = repeat 64 b'1'; projects = codes "p2" ∷ [] }
      ∷ [];
}

-- A hash that gives the digest of `ci` to one token.
abbrev toy_hash : Text → Text
toy_hash token = repeat 32 17

abbrev parsed : List Principal
parsed =
    record { name = codes "ci"; digest = repeat 32 17; projects = codes "p2" ∷ [] }
    ∷ record { name = codes "ops"; digest = repeat 32 170; projects = codes "p2" ∷ codes "p1" ∷ [] }
    ∷ []

authorize-parse_example : authorize toy_hash parsed (codes "t") (codes "p1") ≡ (
  any (owns (toy_hash (codes "t"))) document.principals,
  any (grants (toy_hash (codes "t")) (codes "p1")) document.principals,
)
unfolding policy
authorize-parse_example =
    authorize-parse toy_hash document parsed refl (codes "t") (codes "p1") (λ e. cc)

-- `ci` is known, and has no part in p1.
authorize_test : authorize toy_hash parsed (codes "t") (codes "p1") ≡ (true, false)
unfolding policy
authorize_test = refl

parse-exclusive_example :
    Apart (λ i j. (digest : Text) → (owns digest i && owns digest j) ≡ false) document.principals
unfolding policy
parse-exclusive_example = parse-exclusive document parsed refl
