-- ===== src/Access.antt =====
-- internal/access/policy.go: the policy that binds tokens to projects. The file and its JSON are
-- left out: a policy begins as the decoded document. SHA-256 is a parameter.
pub mod Tenancy
pub mod Digests
use brezel.Common.{
  ℕ, Bool, true, false, not, ◌&&◌, ◌||◌, List, [], ◌∷◌, Option, none, some, contains, length, ◌==◌,
  nat_eq, ltb, Text, text_eq, text_lt, safe_name, trim_space, to_lower, hex_decode, Result, ok, err,
  ◌>>◌, ◌>>=◌, require, or_fail, ℤ, pos, int_beq, if◌then◌else◌, any,
}

pub data Error : Type 0 where
  bad_version no_principals bad_name name_twice bad_digest digest_twice no_projects : Error
  bad_project project_twice : Error

pub record PrincipalDocument : Type 0 where
  pub name : Text
  pub token_sha256 : Text
  pub projects : List Text

pub record PolicyDocument : Type 0 where
  pub version : ℤ
  pub principals : List PrincipalDocument

pub record Principal : Type 0 where
  pub name : Text
  pub digest : Text
  pub projects : List Text

-- The set of a principal's projects
unfoldable pub project_set : List Text → List Text → Result Error (List Text)
project_set seen [] = ok seen
project_set seen (project ∷ projects) =
    require (safe_name project) bad_project
    >> (require (not (contains project seen)) project_twice
        >> project_set (project ∷ seen) projects)

-- The digest of 32 bytes that a text stands for
unfoldable pub decoded_digest : Text → Option Text
decoded_digest text = elim (hex_decode text) [
  | none ↦ none
  | some raw ↦ if length raw == 32 then some raw else none
]

abbrev pub digest_text : PrincipalDocument → Text
digest_text item = to_lower (trim_space item.token_sha256)

-- The loop over the principals, with the names and the digests seen
unfoldable pub parse_principals :
    List Text → List Text → List PrincipalDocument → Result Error (List Principal)
parse_principals names digests [] = ok []
parse_principals names digests (item ∷ items) =
    require (safe_name item.name) bad_name
    >> (require (not (contains item.name names)) name_twice
        >> (or_fail (decoded_digest (digest_text item)) bad_digest >>= λ digest.
            require (not (contains (digest_text item) digests)) digest_twice
            >> (require (not (length item.projects == 0)) no_projects
                >> (project_set [] item.projects >>= λ projects.
                    parse_principals (item.name ∷ names) (digest_text item ∷ digests) items
                    >>= λ rest. ok (
                        record { name = item.name; digest = digest; projects = projects }
                        ∷ rest)))))

-- sort.Slice by name
unfoldable pub insert_sorted : Principal → List Principal → List Principal
insert_sorted p [] = p ∷ []
insert_sorted p (q ∷ qs) = if text_lt q.name p.name then q ∷ insert_sorted p qs else p ∷ q ∷ qs

unfoldable pub sort_principals : List Principal → List Principal
sort_principals [] = []
sort_principals (p ∷ ps) = insert_sorted p (sort_principals ps)

unfoldable pub parse : PolicyDocument → Result Error (List Principal)
parse document =
    require (int_beq document.version (pos 1)) bad_version
    >> (require (not (length document.principals == 0)) no_principals
        >> (parse_principals [] [] document.principals >>= λ principals.
            ok (sort_principals principals)))

-- The loop of Authorize, with both results so far; Go's `|=` on 0 and 1
unfoldable pub compare_all : Text → Text → Bool → Bool → List Principal → Bool × Bool
compare_all digest project_id authenticated authorized [] = (authenticated, authorized)
compare_all digest project_id authenticated authorized (item ∷ items) =
    let match = digest == item.digest in
    compare_all digest project_id (authenticated || match)
      (if contains project_id item.projects then authorized || match else authorized) items

unfoldable pub authorize : (Text → Text) → List Principal → Text → Text → Bool × Bool
authorize sha256 principals token project_id =
    if token == []
    then (false, false)
    else compare_all (sha256 token) project_id false false principals
