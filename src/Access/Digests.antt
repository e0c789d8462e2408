-- ===== src/Access/Digests.antt =====
-- A token's digest belongs to one principal.
use brezel.Common.{
  ◌≡◌, ◌≢◌, arith, true, false, not, ◌&&◌, List, [], ◌∷◌, some, All, All-map, Apart, contains,
  length, ◌==◌, nat_eq, Option-cases, Bool-cases, inl, inr, Text, text_eq, text_beq_iff, safe_name,
  hex_decode, hex_decode_injective, to_lower-Uncapped, trim_space, ok, require, or_fail, require-ok,
  >>-eq-ok, >>=-eq-ok, pos, int_beq,
}
use brezel.Access.{
  bad_version, no_principals, bad_name, name_twice, bad_digest, digest_twice, no_projects,
  PrincipalDocument, PolicyDocument, Principal, project_set, decoded_digest, digest_text,
  parse_principals, parse,
}
use brezel.Access.Tenancy.{owns}

abbrev OtherDigest : PrincipalDocument → PrincipalDocument → Type 0
OtherDigest i j = digest_text i ≢ digest_text j

-- Neither the texts seen nor the later entries repeat a digest.
parse_principals-Apart :
    (names digests : List Text) (items : List PrincipalDocument) (ps : List Principal)
    → parse_principals names digests items ≡ ok ps
    → All (λ i. contains (digest_text i) digests ≡ false) items × Apart OtherDigest items
unfolding parse_principals
parse_principals-Apart names digests [] ps h = (tt, tt)
parse_principals-Apart names digests (item ∷ items) ps h =
    let a = >>-eq-ok (require (safe_name item.name) bad_name) _ h in
    let b = >>-eq-ok (require (not (contains item.name names)) name_twice) _ a.1 in
    let d = >>=-eq-ok (or_fail (decoded_digest (digest_text item)) bad_digest) _ b.1 in
    let e = >>-eq-ok (require (not (contains (digest_text item) digests)) digest_twice) _ d.2 in
    let n = >>-eq-ok (require (not (length item.projects == 0)) no_projects) _ e.1 in
    let s = >>=-eq-ok (project_set [] item.projects) _ n.1 in
    let r =
      >>=-eq-ok (parse_principals (item.name ∷ names) (digest_text item ∷ digests) items) _ s.2 in
    let rest =
      parse_principals-Apart (item.name ∷ names) (digest_text item ∷ digests) items r.0 r.1 in
    (
      (
        ground (arith, require-ok (not (contains (digest_text item) digests)) digest_twice e.0),
        All-map _ (λ i. contains (digest_text i) digests ≡ false) (λ i h. ground arith) items
            rest.0,
      ),
      (
        All-map _ (OtherDigest item)
            (λ i h same. ground (arith, text_beq_iff (digest_text i) (digest_text item))) items
            rest.0,
        rest.1,
      ),
    )

owned :
    (digest : Text) (item : PrincipalDocument)
    → owns digest item ≡ true
    → hex_decode (digest_text item) ≡ some digest
unfolding decoded_digest
owned digest item h = elim (Option-cases (hex_decode (digest_text item))) [
  | inl missing ↦ absurd (ground arith)
  | inr found ↦ ground (arith, found.1, text_beq_iff digest found.0)
]

-- Two entries with different texts do not have the same digest.
exclusive :
    (i j : PrincipalDocument)
    → OtherDigest i j
    → (digest : Text) → (owns digest i && owns digest j) ≡ false
exclusive i j differ digest = elim (Bool-cases (owns digest i)) [
  | inr other ↦ ground arith
  | inl first ↦ elim (Bool-cases (owns digest j)) [
    | inr other ↦ ground arith
    | inl second ↦ absurd (
        differ (
          hex_decode_injective (digest_text i) (digest_text j) digest
            (to_lower-Uncapped (trim_space i.token_sha256))
            (to_lower-Uncapped (trim_space j.token_sha256)) (owned digest i first)
            (owned digest j second)))
  ]
]

Apart-map :
    {A : Type 0} (R S : A → A → Type 0)
    → ((x y : A) → R x y → S x y)
    → (xs : List A) → Apart R xs
    → Apart S xs
Apart-map R S f [] h = tt
Apart-map R S f (x ∷ xs) h = (All-map (R x) (S x) (f x) xs h.0, Apart-map R S f xs h.1)

-- In a document from which a policy is parsed, no digest is that of two principals.
pub parse-exclusive :
    (document : PolicyDocument) (ps : List Principal)
    → parse document ≡ ok ps
    → Apart (λ i j. (digest : Text) → (owns digest i && owns digest j) ≡ false) document.principals
unfolding parse
parse-exclusive document ps h =
    let a = >>-eq-ok (require (int_beq document.version (pos 1)) bad_version) _ h in
    let b = >>-eq-ok (require (not (length document.principals == 0)) no_principals) _ a.1 in
    let p = >>=-eq-ok (parse_principals [] [] document.principals) _ b.1 in
    Apart-map OtherDigest _ exclusive document.principals
      (parse_principals-Apart [] [] document.principals p.0 p.1).1
