-- ===== src/Store/Scopes.antt =====
-- A valid state keeps projects apart: what stands under a project's key is the project's.
use brezel.Common.{
  ℕ, ◌≡◌, ◌≢◌, refl, sym, subst, ap, ◌∙◌, inl, inr, arith, Bool, true, false, not, ◌&&◌, List, [],
  ◌∷◌, ◌++◌, some, ◌==◌, nat_eq, all, All, All-map, all-All, if_cases, lookup, All-lookup, Text,
  text_eq, text_beq_iff, safe_name, is_alnum, is_name_byte, contains_any, in_front, split_on, ok,
  require, or_fail-ok, >>-eq-ok, Option-cases,
}
use brezel.Domain.Records.{Sandbox, Operation}
use brezel.Store.{
  State, scoped_key, idempotency_key, require_scoped_identity, valid_assignment, names_operation,
  valid_state, has_break,
}
use brezel.Store.Files.{FileStore, get_sandbox, when_open}
use brezel.Admission.{idempotent_operation}

-- A text without a zero byte.
abbrev pub Nonzero : Text → Type 0
Nonzero = All (λ c. c ≢ 0)

safe_name-Nonzero : (s : Text) → safe_name s ≡ true → Nonzero s
unfolding safe_name is_alnum is_name_byte
safe_name-Nonzero [] h = tt
safe_name-Nonzero (c ∷ cs) h = (
  λ p. ground arith,
  All-map (λ x. is_name_byte x ≡ true) (λ x. x ≢ 0) (λ x q p. ground arith) cs
      ((all-All is_name_byte cs).0 (ground arith)),
)

has_break-Nonzero : (s : Text) → has_break s ≡ false → Nonzero s
unfolding contains_any
has_break-Nonzero [] h = tt
has_break-Nonzero (c ∷ cs) h = (λ p. ground arith, has_break-Nonzero cs (ground arith))

cons-inj : (x y : ℕ) (xs ys : Text) → x ∷ xs ≡ y ∷ ys → (x ≡ y) × (xs ≡ ys)
cons-inj x y xs ys p = (
  ap (λ (l : Text). elim l [ [] ↦ x | a ∷ as_ ↦ a ]) p,
  ap (λ (l : Text). elim l [ [] ↦ xs | a ∷ as_ ↦ as_ ]) p,
)

-- A key of two texts without a zero byte is no other pair's key.
pub scoped_key_injective :
    (p i q j : Text) → Nonzero p → Nonzero i → scoped_key p i ≡ scoped_key q j → (p ≡ q) × (i ≡ j)
unfolding scoped_key
scoped_key_injective [] i [] j np ni h = (refl, (cons-inj 0 0 i j h).1)
scoped_key_injective [] i (y ∷ q) j np ni h =
    absurd (holds i q ni (cons-inj 0 y i (q ++ 0 ∷ j) h).1)
  where
    holds : (i q : Text) → Nonzero i → i ≢ q ++ 0 ∷ j
    holds [] [] n e = cc
    holds [] (y ∷ q) n e = cc
    holds (x ∷ i) [] n e = n.0 (cons-inj x 0 i j e).0
    holds (x ∷ i) (y ∷ q) n e = holds i q n.1 (cons-inj x y i (q ++ 0 ∷ j) e).1
scoped_key_injective (x ∷ p) i [] j np ni h = absurd (np.0 (cons-inj x 0 (p ++ 0 ∷ i) j h).0)
scoped_key_injective (x ∷ p) i (y ∷ q) j np ni h =
    let (same, rest) = cons-inj x y (p ++ 0 ∷ i) (q ++ 0 ∷ j) h in
    let (pq, ij) = scoped_key_injective p i q j np.1 ni rest in (cc, ij)

pub all-lookup :
    {A : Type 0} (test : Text × A → Bool) (k : Text) (v : A) (m : List (Text × A))
    → all test m ≡ true
    → lookup k m ≡ some v
    → test (k, v) ≡ true
all-lookup test k v m h e = All-lookup (λ x. test x ≡ true) k v m ((all-All test m).0 h) e

-- The entry under a key has the identity that the key is made of.
identity_lem :
    (p i q j : Text) → require_scoped_identity (scoped_key q j) p i ≡ true → (p ≡ q) × (i ≡ j)
unfolding require_scoped_identity
identity_lem p i q j h =
    scoped_key_injective p i q j (safe_name-Nonzero p (ground arith))
      (has_break-Nonzero i (ground arith))
      (ground (arith, text_beq_iff (scoped_key q j) (scoped_key p i)))

-- In a valid state, the sandbox that is found for a project and an id has both.
pub get_sandbox-scoped :
    (s : FileStore) (project id : Text) (v : Sandbox)
    → valid_state s.state ≡ true
    → get_sandbox s project id ≡ ok v
    → (v.project_id ≡ project) × (v.id ≡ id)
unfolding get_sandbox when_open valid_state
get_sandbox-scoped s project id v valid h =
    let (open_, there) = >>-eq-ok (require (not s.closed) _) _ h in
    let entry =
      all-lookup (λ (key, x). require_scoped_identity key x.project_id x.id && valid_assignment x)
        (scoped_key project id) v s.state.sandboxes (ground arith)
        (or_fail-ok (lookup (scoped_key project id) s.state.sandboxes) _ v there) in
    identity_lem v.project_id v.id project id (ground arith)

-- The parts of a text between its zero bytes.
split_on-some : (s : Text) → (h : Text) × (t : List Text) × (split_on 0 s ≡ h ∷ t)
unfolding split_on in_front
split_on-some [] = ([], [], refl)
split_on-some (c ∷ s) = front c (split_on-some s)
  where
    front :
        (c : ℕ)
        → (h : Text) × (t : List Text) × (split_on 0 s ≡ h ∷ t)
        → (h : Text) × (t : List Text) × (split_on 0 (c ∷ s) ≡ h ∷ t)
    front c (h, t, e) =
        if_cases (λ (l : List Text). (h : Text) × (t : List Text) × (l ≡ h ∷ t)) (c == 0) _ _
          (λ z. ([], split_on 0 s, refl)) (λ z. (c ∷ h, t, ap (in_front c) e))

in_front-append :
    (c : ℕ) (h : Text) (t l parts : List Text)
    → parts ≡ h ∷ t
    → in_front c (parts ++ l) ≡ in_front c parts ++ l
unfolding in_front
in_front-append c h t l parts e = rw e refl

split_on-append : (a b : Text) → split_on 0 (a ++ 0 ∷ b) ≡ split_on 0 a ++ split_on 0 b
unfolding split_on
split_on-append [] b = refl
split_on-append (c ∷ a) b =
    let (h, t, e) = split_on-some a in
    ground (arith, split_on-append a b, in_front-append c h t (split_on 0 b) (split_on 0 a) e)

split_on-single : (s x : Text) → split_on 0 s ≡ x ∷ [] → x ≡ s
unfolding split_on in_front
split_on-single [] x h = cc
split_on-single (c ∷ s) x h =
    let (f, t, e) = split_on-some s in
    if_cases (λ (l : List Text). l ≡ x ∷ [] → x ≡ c ∷ s) (c == 0) _ _ (λ z l. absurd cc)
      (λ z l.
        let one : (c ∷ f) ∷ t ≡ x ∷ [] = sym (ap (in_front c) e) ∙ l in
        let last : t ≡ [] = cc in let inner = split_on-single s f (e ∙ ap (λ r. f ∷ r) last) in cc)
      h

-- A list of three that is the join of three lists with an element each.
single_parts :
    (operations : List (Text × Operation)) (id p k x : Text) (ps ks xs : List Text)
    → names_operation operations id ((p ∷ ps) ++ ((k ∷ ks) ++ (x ∷ xs))) ≡ true
    → (ps ≡ []) × (ks ≡ []) × (xs ≡ [])
unfolding names_operation
single_parts operations id p k x [] [] [] h = (refl, refl, refl)
single_parts operations id p k x [] [] (y ∷ xs) h = absurd cc
single_parts operations id p k x [] (y ∷ []) xs h = absurd cc
single_parts operations id p k x [] (y ∷ z ∷ ks) xs h = absurd cc
single_parts operations id p k x (y ∷ []) [] xs h = absurd cc
single_parts operations id p k x (y ∷ []) (z ∷ ks) xs h = absurd cc
single_parts operations id p k x (y ∷ z ∷ []) ks xs h = absurd cc
single_parts operations id p k x (y ∷ z ∷ w ∷ ps) ks xs h = absurd cc

key_parts :
    (operations : List (Text × Operation)) (id p k x : Text)
    → names_operation operations id (split_on 0 (idempotency_key p k x)) ≡ true
    → split_on 0 (idempotency_key p k x) ≡ p ∷ k ∷ x ∷ []
unfolding idempotency_key
key_parts operations id p k x h =
    let (a, as_, ea) = split_on-some p in
    let (b, bs, eb) = split_on-some k in
    let (d, ds, ed) = split_on-some x in
    let whole : split_on 0 (p ++ 0 ∷ (k ++ 0 ∷ x)) ≡ (a ∷ as_) ++ ((b ∷ bs) ++ (d ∷ ds)) =
      split_on-append p (k ++ 0 ∷ x)
      ∙ (ap (λ l. split_on 0 p ++ l) (split_on-append k x) ∙ rw (ea, eb, ed) refl) in
    let (na, nb, nd) =
      single_parts operations id a b d as_ bs ds
        (subst (λ l. names_operation operations id l ≡ true) whole h) in
    let pa = split_on-single p a (ea ∙ ap (λ r. a ∷ r) na) in
    let pb = split_on-single k b (eb ∙ ap (λ r. b ∷ r) nb) in
    let pd = split_on-single x d (ed ∙ ap (λ r. d ∷ r) nd) in
    whole ∙ rw (na, nb, nd, pa, pb, pd) refl

named_lem :
    (operations : List (Text × Operation)) (id p k x : Text) (op : Operation)
    → names_operation operations id (p ∷ k ∷ x ∷ []) ≡ true
    → lookup (scoped_key p id) operations ≡ some op
    → (op.project_id ≡ p) × (op.kind ≡ k) × (op.idempotency_key ≡ x)
unfolding names_operation
named_lem operations id p k x op h e = (
  ground (arith, e, text_beq_iff op.project_id p),
  ground (arith, e, text_beq_iff op.kind k),
  ground (arith, e, text_beq_iff op.idempotency_key x),
)

-- In a valid state, the operation that an idempotency key finds is of the project, the kind and
-- the key that it was asked for.
pub idempotent_operation-scoped :
    (state : State) (project kind key : Text) (op : Operation)
    → valid_state state ≡ true
    → idempotent_operation state project kind key ≡ some op
    → (op.project_id ≡ project) × (op.kind ≡ kind) × (op.idempotency_key ≡ key)
unfolding idempotent_operation valid_state
idempotent_operation-scoped state project kind key op valid h =
    elim (Option-cases (lookup (idempotency_key project kind key) state.idempotency)) [
      | inl missing ↦ absurd (ground (arith, missing))
      | inr (id, at) ↦
          let named =
            all-lookup (λ (key, id). names_operation state.operations id (split_on 0 key))
              (idempotency_key project kind key) id state.idempotency (ground arith) at in
          let parts = key_parts state.operations id project kind key named in
          let there : lookup (scoped_key project id) state.operations ≡ some op =
            ground (arith, at) in
          named_lem state.operations id project kind key op
            (subst (λ l. names_operation state.operations id l ≡ true) parts named) there
    ]
