-- ===== src/Domain/Cleaning.antt =====
-- What the test of a mount's path in internal/domain/validation.go accepts, by path.Clean's scan of
-- the elements of a path.
use brezel.Common.{
  ℕ, ◌≡◌, ◌≢◌, ◌↔◌, refl, sym, ap, ◌∙◌, inl, inr, true, false, ◌||◌, List, [], ◌∷◌, ◌++◌,
  append_assoc, append-nil, any, arith, All, Bool-cases, if_cases, nat_eq, nat_beq_iff, text_beq,
  text_beq_iff, Text, text_eq, codes, has_prefix, split_on, in_front, ◌==◌,
}
use brezel.Domain.Paths.{
  parent, elements, joined, rooted, clean_rooted, valid_mount_path, Plain, Element, spelled,
  IsMountPath,
}

-- What the scan of the elements does to a path that is spelled from them.
split-part :
    (part : Text) (rest : List Text) (tail : Text)
    → Plain part
    → split_on b'/' tail ≡ [] ∷ rest
    → split_on b'/' (part ++ tail) ≡ part ∷ rest
unfolding split_on in_front
split-part [] rest tail plain h = h
split-part (c ∷ cs) rest tail plain h =
    let deeper = split-part cs rest tail plain.1 h in
    elim (Bool-cases (c == b'/')) [
      | inl slash ↦ absurd (plain.0 (ground (arith, nat_beq_iff c b'/')))
      | inr other ↦ rw other (rw deeper refl)
    ]

split-spelled : (parts : List Text) → All Element parts → split_on b'/' (spelled parts) ≡ [] ∷ parts
unfolding split_on
split-spelled [] h = refl
split-spelled (part ∷ parts) h =
    ap (λ ps. [] ∷ ps) (split-part part parts (spelled parts) h.0.3 (split-spelled parts h.1))

elements_keep :
    (done parts : List Text) (part : Text)
    → Element part
    → elements done (part ∷ parts) ≡ elements (part ∷ done) parts
unfolding elements
elements_keep done parts part h =
    let some_ : (part == []) ≡ false = ground (arith, text_beq_iff part []) in
    let here : (part == codes ".") ≡ false = ground (arith, text_beq_iff part (codes ".")) in
    let up : (part == codes "..") ≡ false = ground (arith, text_beq_iff part (codes "..")) in
    rw some_ (rw here (rw up refl))

joined-elements :
    (parts done : List Text)
    → All Element parts
    → joined (elements done parts) ≡ joined done ++ spelled parts
unfolding joined elements
joined-elements [] done h = sym (append-nil (joined done))
joined-elements (part ∷ parts) done h =
    ap joined (elements_keep done parts part h.0)
    ∙ joined-elements parts (part ∷ done) h.1
    ∙ append_assoc (joined done) (b'/' ∷ part) (spelled parts)

clean_rooted-spelled :
    (parts : List Text)
    → parts ≢ []
    → All Element parts
    → clean_rooted (spelled parts) ≡ spelled parts
unfolding clean_rooted elements joined rooted text_beq
clean_rooted-spelled [] some_ h = absurd (some_ refl)
clean_rooted-spelled (part ∷ parts) some_ h =
    ap (λ ps. rooted (joined (elements [] ps))) (split-spelled (part ∷ parts) h)
    ∙ ap rooted (joined-elements (part ∷ parts) [] h)

-- What path.Clean leaves are elements.
split_on-Plain : (p : Text) → All Plain (split_on b'/' p)
unfolding split_on in_front
split_on-Plain [] = (tt, tt)
split_on-Plain (c ∷ cs) = elim (Bool-cases (c == b'/')) [
  | inl slash ↦ rw slash (tt, split_on-Plain cs)
  | inr other ↦ rw other (
      fronted (λ p. absurd (ground (arith, nat_beq_iff c b'/'))) (split_on b'/' cs)
        (split_on-Plain cs))
]
  where
    fronted : c ≢ b'/' → (ps : List Text) → All Plain ps → All Plain (in_front c ps)
    fronted no_slash [] h = ((no_slash, tt), tt)
    fronted no_slash (part ∷ parts) h = ((no_slash, h.0), h.1)

elements-Element :
    (parts done : List Text)
    → All Plain parts
    → All Element done
    → All Element (elements done parts)
unfolding elements parent
elements-Element [] done plain h = h
elements-Element (part ∷ parts) done plain h = elements-Element parts _ plain.1 (
    if_cases (All Element) (part == [] || part == codes ".") _ _ (λ skipped. h)
      (λ name.
        if_cases (All Element) (part == codes "..") _ _ (λ up. above done h)
          (λ down. (
            (
              λ p. absurd (ground (arith, text_beq_iff part [])),
              λ p. absurd (ground (arith, text_beq_iff part (codes "."))),
              λ p. absurd (ground (arith, text_beq_iff part (codes ".."))),
              plain.0,
            ),
            h,
          ))))
  where
    above : (es : List Text) → All Element es → All Element (parent es)
    above [] h = h
    above (last ∷ es) h = h.1

spelled-last :
    (parts : List Text) (part : Text) → spelled (parts ++ part ∷ []) ≡ spelled parts ++ b'/' ∷ part
spelled-last [] part = ap (λ x. b'/' ∷ x) (append-nil part)
spelled-last (first ∷ parts) part =
    ap (λ (x : Text). b'/' ∷ first ++ x) (spelled-last parts part)
    ∙ sym (append_assoc (b'/' ∷ first) (spelled parts) (b'/' ∷ part))

unjoined :
    (es : List Text)
    → All Element es
    → (parts : List Text) × All Element parts × (joined es ≡ spelled parts)
unfolding joined
unjoined [] h = ([], tt, refl)
unjoined (last ∷ above) h =
    let (parts, named, same) = unjoined above h.1 in
    (
      parts ++ last ∷ [],
      with_last parts named h.0,
      ap (λ (x : Text). x ++ b'/' ∷ last) same ∙ sym (spelled-last parts last),
    )
  where
    with_last :
        (parts : List Text) → All Element parts → Element last → All Element (parts ++ last ∷ [])
    with_last [] named e = (e, tt)
    with_last (part ∷ parts) named e = (named.0, with_last parts named.1 e)

no_nul_iff : (p : Text) → (any (λ c. c == 0) p ≡ false) ↔ All (λ c. c ≢ 0) p
no_nul_iff [] = (λ h. tt, λ h. refl)
no_nul_iff (c ∷ cs) =
    let rest = no_nul_iff cs in
    (
      λ h. (λ z. absurd (ground (arith, nat_beq_iff c 0)), rest.0 (ground arith)),
      λ h. ground (arith, nat_beq_iff c 0, rest.1 h.1, h.0),
    )

rooted-append : (t u : Text) (c : ℕ) → rooted (t ++ c ∷ u) ≡ t ++ c ∷ u
unfolding rooted
rooted-append [] u c = refl
rooted-append (d ∷ t) u c = refl

append_some : (t u : Text) (c : ℕ) → t ++ c ∷ u ≢ []
append_some [] u c h = cc
append_some (d ∷ t) u c h = cc

clean-spelled :
    (p : Text)
    → p ≢ codes "/"
    → (es : List Text) → All Element es
    → rooted (joined es) ≡ p
    → (parts : List Text) × (parts ≢ []) × All Element parts × (p ≡ spelled parts)
unfolding joined rooted
clean-spelled p below [] named clean = absurd (below (sym clean))
clean-spelled p below (last ∷ above) named clean =
    let (parts, fine, same) = unjoined (last ∷ above) named in
    (
      parts,
      λ none_. append_some (joined above) last b'/' (same ∙ ap spelled none_),
      fine,
      sym clean ∙ rooted-append (joined above) last b'/' ∙ same,
    )

valid-IsMountPath : (p : Text) → valid_mount_path p ≡ true → IsMountPath p
unfolding valid_mount_path clean_rooted
valid-IsMountPath p h =
    let below : p ≢ codes "/" = λ e. absurd (ground (arith, text_beq_iff p (codes "/"))) in
    let clean : clean_rooted p ≡ p = ground (arith, text_beq_iff (clean_rooted p) p) in
    let (parts, some_, fine, same) =
      clean-spelled p below (elements [] (split_on b'/' p))
        (elements-Element (split_on b'/' p) [] (split_on-Plain p) tt) clean in
    let no_nul : any (λ c. c == 0) p ≡ false = ground arith in
    record {
      short = ground arith;
      no_nul = (no_nul_iff p).0 no_nul;
      parts = parts;
      below_root = some_;
      named = fine;
      spelling = same;
    }

spelled-below :
    (parts : List Text)
    → parts ≢ []
    → All Element parts
    → (has_prefix (spelled parts) (codes "/") ≡ true) × (spelled parts ≢ codes "/")
unfolding has_prefix
spelled-below [] some_ named = absurd (some_ refl)
spelled-below ([] ∷ parts) some_ named = absurd (named.0.0 refl)
spelled-below ((c ∷ cs) ∷ parts) some_ named = (refl, λ e. cc)

IsMountPath-valid : (p : Text) → IsMountPath p → valid_mount_path p ≡ true
unfolding valid_mount_path
IsMountPath-valid p m =
    let (absolute, below) = spelled-below m.parts m.below_root m.named in
    let clean : clean_rooted p ≡ p =
      ap clean_rooted m.spelling
      ∙ clean_rooted-spelled m.parts m.below_root m.named
      ∙ sym m.spelling in
    let absolute' : has_prefix p (codes "/") ≡ true =
      ap (λ x. has_prefix x (codes "/")) m.spelling ∙ absolute in
    let below' : (p == codes "/") ≡ false =
      ground (arith, text_beq_iff p (codes "/"), m.spelling, below) in
    ground (
      arith,
      m.short,
      absolute',
      below',
      clean,
      text_beq_iff (clean_rooted p) p,
      (no_nul_iff p).1 m.no_nul,
    )

pub valid_mount_path_iff : (p : Text) → (valid_mount_path p ≡ true) ↔ IsMountPath p
valid_mount_path_iff p = (valid-IsMountPath p, IsMountPath-valid p)
