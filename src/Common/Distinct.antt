-- ===== src/Common/Distinct.antt =====
-- Maps with one entry for each key, and relations between the entries of such a map.
use Prim.Native.Nat.{◌+◌, ◌≤◌}
use mathlib.Core.Path.{◌≡◌, sym, subst}
use mathlib.Core.Logic.{◌≢◌, inl, inr}
use mathlib.Core.List.{List, [], ◌∷◌}
use mathlib.Core.Option.{some}
use native.Mathlib.Omega.{arith}
use brezel.Common.Tests.{Comparable, ◌==◌, Bool-cases}
use brezel.Common.Lists.{length, All, Apart, All-map}
use brezel.Common.Maps.{lookup, insert, delete, All-insert, All-delete, All-lookup}

abbrev pub Keyed {ℓ κ} : {K : Type ℓ} {V : Type κ} → List (K × V) → Type ℓ
Keyed = Apart (λ a b. a.0 ≢ b.0)

-- The entries under the other keys.
abbrev pub Others {ℓ κ μ} :
    {K : Type ℓ} {V : Type κ} → K → (K × V → Type μ) → List (K × V) → Type (ℓ ⊔ μ)
Others k P = All (λ b. b.0 ≢ k → P b)

pub All-Others {ℓ κ μ} :
    {K : Type ℓ} {V : Type κ} (k : K) (P : K × V → Type μ) (m : List (K × V))
    → All (λ b. k ≢ b.0) m
    → Others k P m
    → All P m
All-Others k P [] h o = tt
All-Others k P (b ∷ m) h o = (o.0 (λ p. h.0 (sym p)), All-Others k P m h.1 o.1)

module _ {ℓ κ μ} {K : Type ℓ} {V : Type κ} ⦃e : Comparable K⦄ (R : K × V → K × V → Type μ)
    (R-sym : (a b : K × V) → R a b → R b a) where
  pub Apart-insert :
      (k : K) (v : V) (m : List (K × V))
      → Keyed m
      → Apart R m
      → Others k (R (k, v)) m
      → Apart R (insert k v m)
  unfolding insert
  Apart-insert k v [] d a o = (tt, tt)
  Apart-insert k v ((j, w) ∷ m) d a o = elim (Bool-cases (k == j)) [
    | inl hit ↦
        let here : j ≡ k = ground (arith, e.equal_iff k j) in
        rw hit (All-Others k (R (k, v)) m (subst (λ x. All (λ b. x ≢ b.0) m) here d.0) o.1, a.1)
    | inr miss ↦
        let other : j ≢ k = λ p. ground (arith, e.equal_iff k j) in
        rw miss (
          All-insert (R (j, w)) k v m (R-sym (k, v) (j, w) (o.0 other)) a.0,
          Apart-insert k v m d.1 a.1 o.1,
        )
  ]

  pub Apart-delete : (k : K) (m : List (K × V)) → Apart R m → Apart R (delete k m)
  unfolding delete
  Apart-delete k [] a = tt
  Apart-delete k ((j, w) ∷ m) a = elim (Bool-cases (k == j)) [
    | inl hit ↦ rw hit (Apart-delete k m a.1)
    | inr miss ↦ rw miss (All-delete (R (j, w)) k m a.0, Apart-delete k m a.1)
  ]

  -- What holds between the entry of a key and those of the others.
  pub Apart-lookup :
      (k : K) (v : V) (m : List (K × V)) → Apart R m → lookup k m ≡ some v → Others k (R (k, v)) m
  unfolding lookup
  Apart-lookup k v [] a h = tt
  Apart-lookup k v ((j, w) ∷ m) a h = elim (Bool-cases (k == j)) [
    | inl hit ↦
        let here : (j, w) ≡ (k, v) = ground (arith, e.equal_iff k j) in
        (
          λ other. absurd (other (sym ((e.equal_iff k j).0 hit))),
          subst (λ x. Others k (R x) m) here (All-map _ _ (λ b r _. r) m a.0),
        )
    | inr miss ↦
        let rest : lookup k m ≡ some v = ground arith in
        (
          λ _. R-sym (j, w) (k, v) (All-lookup (R (j, w)) k v m a.0 rest),
          Apart-lookup k v m a.1 rest,
        )
  ]

module _ {ℓ κ} {K : Type ℓ} {V : Type κ} ⦃e : Comparable K⦄ where
  ne-sym : (a b : K × V) → a.0 ≢ b.0 → b.0 ≢ a.0
  ne-sym a b h p = h (sym p)

  Others-apart : (k : K) (v : V) (m : List (K × V)) → Others k (λ b. k ≢ b.0) m
  Others-apart k v [] = tt
  Others-apart k v (b ∷ m) = (λ h p. h (sym p), Others-apart k v m)

  pub insert-Keyed : (k : K) (v : V) (m : List (K × V)) → Keyed m → Keyed (insert k v m)
  insert-Keyed k v m d = Apart-insert (λ a b. a.0 ≢ b.0) ne-sym k v m d d (Others-apart k v m)

  pub delete-Keyed : (k : K) (m : List (K × V)) → Keyed m → Keyed (delete k m)
  delete-Keyed k m d = Apart-delete (λ a b. a.0 ≢ b.0) ne-sym k m d

  pub length-insert-le : (k : K) (v : V) (m : List (K × V)) → length (insert k v m) ≤ length m + 1
  unfolding insert
  length-insert-le k v [] = omega arith
  length-insert-le k v ((j, w) ∷ m) = ground (arith, length-insert-le k v m)

  pub length-insert_held :
      (k : K) (v w : V) (m : List (K × V)) → lookup k m ≡ some w → length (insert k v m) ≡ length m
  unfolding insert lookup
  length-insert_held k v w [] h = cc
  length-insert_held k v w ((j, u) ∷ m) h = ground (arith, length-insert_held k v w m)

  pub length-delete-le : (k : K) (m : List (K × V)) → length (delete k m) ≤ length m
  unfolding delete
  length-delete-le k [] = omega arith
  length-delete-le k ((j, w) ∷ m) = ground (arith, length-delete-le k m)
