-- ===== src/Domain/Paths.antt =====
-- The test that ValidateWorkspaceMounts of internal/domain/validation.go makes of a mount's path,
-- with path.Clean of an absolute path.
use brezel.Common.{
  ◌≤◌, ◌≡◌, ◌≢◌, refl, Bool, not, ◌||◌, List, [], ◌∷◌, ◌++◌, any, length, leb, All, nat_eq,
  text_beq, Text, text_eq, codes, has_prefix, split_on, ◌==◌, if◌then◌else◌,
}

unfoldable pub parent : List Text → List Text
parent [] = []
parent (last ∷ above) = above

-- The elements of a path, with the last one first, after those of `done`.
unfoldable pub elements : List Text → List Text → List Text
unfolding parent
elements done [] = done
elements done (part ∷ parts) =
    elements
      (if part == [] || part == codes "."
        then done
        else if part == codes ".."
        then parent done
        else part ∷ done)
      parts

unfoldable pub joined : List Text → Text
joined [] = []
joined (last ∷ above) = joined above ++ b'/' ∷ last

unfoldable pub rooted : Text → Text
rooted [] = codes "/"
rooted (c ∷ cs) = c ∷ cs

-- path.Clean of a path that begins with a slash
unfoldable pub clean_rooted : Text → Text
unfolding elements joined rooted
clean_rooted p = rooted (joined (elements [] (split_on b'/' p)))

unfoldable pub valid_mount_path : Text → Bool
valid_mount_path p = not (
    not (leb (length p) 4096)
    || (not (has_prefix p (codes "/"))
        || (p == codes "/" || (not (clean_rooted p == p) || any (λ c. c == 0) p))))

clean_test : clean_rooted (codes "/a//b/./c/../../d/") ≡ codes "/a/d"
unfolding clean_rooted split_on text_beq
clean_test = refl

abbrev pub Plain : Text → Type 0
Plain part = All (λ c. c ≢ b'/') part

-- The name of a file or of a directory that is neither "." nor "..".
abbrev pub Element : Text → Type 0
Element part = (part ≢ []) × (part ≢ codes ".") × (part ≢ codes "..") × Plain part

abbrev pub spelled : List Text → Text
spelled [] = []
spelled (part ∷ parts) = b'/' ∷ part ++ spelled parts

-- A path of at most 4096 bytes without NUL that goes from the root down through one element or more.
pub record IsMountPath (p : Text) : Type 0 where
  pub short : length p ≤ 4096
  pub no_nul : All (λ c. c ≢ 0) p
  pub parts : List Text
  pub below_root : parts ≢ []
  pub named : All Element parts
  pub spelling : p ≡ spelled parts
