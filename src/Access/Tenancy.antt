-- ===== src/Access/Tenancy.antt =====
-- What a policy authorizes, in terms of the document that it was parsed from.
use brezel.Common.{
  ◌≡◌, ◌≢◌, refl, sym, subst, ap, ◌∙◌, arith, Bool, false, not, ◌&&◌, ◌||◌, List, [], ◌∷◌, none,
  some, any, contains, length, ◌==◌, nat_eq, Text, text_eq, text_lt, text_beq_iff, safe_name, ok,
  require, or_fail, or_fail-ok, ok_injective, >>-eq-ok, >>=-eq-ok, pos, int_beq, if◌then◌else◌,
  if_cases,
}
use brezel.Access.{
  bad_version, no_principals, bad_name, name_twice, bad_digest, digest_twice, no_projects,
  bad_project, project_twice, PrincipalDocument, PolicyDocument, Principal, project_set,
  decoded_digest, digest_text, parse_principals, insert_sorted, sort_principals, parse, compare_all,
  authorize,
}

-- The entry has the digest of the token, and binds it to the project.
abbrev pub owns : Text → PrincipalDocument → Bool
owns digest item = elim (decoded_digest (digest_text item)) [ none ↦ false | some d ↦ digest == d ]

abbrev pub grants : Text → Text → PrincipalDocument → Bool
grants digest project_id item = owns digest item && contains project_id item.projects

abbrev held : Text → Principal → Bool
held digest p = digest == p.digest

abbrev bound : Text → Text → Principal → Bool
bound digest project_id p = digest == p.digest && contains project_id p.projects

compare_all_lem :
    (digest project_id : Text) (a b : Bool) (ps : List Principal)
    → compare_all digest project_id a b ps
      ≡ (a || any (held digest) ps, b || any (bound digest project_id) ps)
unfolding compare_all
compare_all_lem digest project_id a b [] = ground arith
compare_all_lem digest project_id a b (p ∷ ps) =
    compare_all_lem digest project_id (a || digest == p.digest)
      (if contains project_id p.projects then b || digest == p.digest else b) ps
    ∙ ground arith

any-insert_sorted :
    (f : Principal → Bool) (p : Principal) (ps : List Principal)
    → any f (insert_sorted p ps) ≡ (f p || any f ps)
unfolding insert_sorted
any-insert_sorted f p [] = refl
any-insert_sorted f p (q ∷ qs) =
    if_cases (λ out. any f out ≡ (f p || (f q || any f qs))) (text_lt q.name p.name) _ _
      (λ after. ground (arith, any-insert_sorted f p qs)) (λ before. refl)

any-sort_principals :
    (f : Principal → Bool) (ps : List Principal) → any f (sort_principals ps) ≡ any f ps
unfolding sort_principals
any-sort_principals f [] = refl
any-sort_principals f (p ∷ ps) =
    any-insert_sorted f p (sort_principals ps) ∙ ap (λ b. f p || b) (any-sort_principals f ps)

contains-project_set :
    (x : Text) (seen projects set : List Text)
    → project_set seen projects ≡ ok set
    → contains x set ≡ (contains x seen || contains x projects)
unfolding project_set
contains-project_set x seen [] set h = ap (contains x) (sym (ok_injective h)) ∙ ground arith
contains-project_set x seen (p ∷ projects) set h =
    let a = >>-eq-ok (require (safe_name p) bad_project) _ h in
    let b = >>-eq-ok (require (not (contains p seen)) project_twice) _ a.1 in
    contains-project_set x (p ∷ seen) projects set b.1 ∙ ground arith

-- A parsed list answers as its document does.
record Answers (ps : List Principal) (items : List PrincipalDocument) : Type 0 where
  owner : (digest : Text) → any (held digest) ps ≡ any (owns digest) items
  grant :
      (digest project_id : Text)
      → any (bound digest project_id) ps ≡ any (grants digest project_id) items

parse_principals-Answers :
    (names digests : List Text) (items : List PrincipalDocument) (ps : List Principal)
    → parse_principals names digests items ≡ ok ps
    → Answers ps items
unfolding parse_principals
parse_principals-Answers names digests [] ps h =
    subst (λ l. Answers l []) (ok_injective h) (record { owner = λ d. refl; grant = λ d p. refl })
parse_principals-Answers names digests (item ∷ items) ps h =
    let a = >>-eq-ok (require (safe_name item.name) bad_name) _ h in
    let b = >>-eq-ok (require (not (contains item.name names)) name_twice) _ a.1 in
    let d = >>=-eq-ok (or_fail (decoded_digest (digest_text item)) bad_digest) _ b.1 in
    let e = >>-eq-ok (require (not (contains (digest_text item) digests)) digest_twice) _ d.2 in
    let n = >>-eq-ok (require (not (length item.projects == 0)) no_projects) _ e.1 in
    let s = >>=-eq-ok (project_set [] item.projects) _ n.1 in
    let r =
      >>=-eq-ok (parse_principals (item.name ∷ names) (digest_text item ∷ digests) items) _ s.2 in
    let rest =
      parse_principals-Answers (item.name ∷ names) (digest_text item ∷ digests) items r.0 r.1 in
    let found = or_fail-ok (decoded_digest (digest_text item)) bad_digest d.0 d.1 in
    subst (λ l. Answers l (item ∷ items)) (ok_injective r.2)
      (record {
        owner = λ digest. ground (arith, found, rest.owner digest);
        grant = λ digest project_id. ground (
          arith,
          found,
          rest.grant digest project_id,
          contains-project_set project_id [] item.projects s.0 s.1,
        );
      })

-- Authorize, by a policy that has been parsed from a document, of a token that is not empty: it
-- is authenticated exactly if some principal of the document has the digest of the token, and
-- authorized exactly if one with that digest lists the project.
pub authorize-parse :
    (sha256 : Text → Text) (document : PolicyDocument) (ps : List Principal)
    → parse document ≡ ok ps
    → (token project_id : Text) → token ≢ []
    → authorize sha256 ps token project_id ≡ (
      any (owns (sha256 token)) document.principals,
      any (grants (sha256 token) project_id) document.principals,
    )
unfolding authorize parse
authorize-parse sha256 document ps h token project_id some_token =
    let a = >>-eq-ok (require (int_beq document.version (pos 1)) bad_version) _ h in
    let b = >>-eq-ok (require (not (length document.principals == 0)) no_principals) _ a.1 in
    let p = >>=-eq-ok (parse_principals [] [] document.principals) _ b.1 in
    let answers = parse_principals-Answers [] [] document.principals p.0 p.1 in
    let digest = sha256 token in
    if_cases
      (λ out. out ≡ (
        any (owns digest) document.principals,
        any (grants digest project_id) document.principals,
      ))
      (token == []) _ _ (λ none. absurd (some_token ((text_beq_iff token []).0 none)))
      (λ some.
        ap (compare_all digest project_id false false) (sym (ok_injective p.2))
        ∙ (compare_all_lem digest project_id false false (sort_principals p.0)
            ∙ ground (
              arith,
              any-sort_principals (held digest) p.0,
              any-sort_principals (bound digest project_id) p.0,
              Answers.owner answers digest,
              Answers.grant answers digest project_id,
            )))
