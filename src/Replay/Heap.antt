-- ===== src/Replay/Heap.antt =====
-- The heap of expiries: its order, and that it covers the map through a purge.
use brezel.Common.{
  ℕ, ◌≤◌, ◌<◌, ◌≡◌, ◌≢◌, ap, subst, ◌∙◌, false, List, [], ◌∷◌, some, arith, nat_eq, ltb, leb, All,
  Apart, if_cases, ◌⊎◌, inl, inr, length, lookup, lookup-delete, length-delete-le, Text, text_eq,
  text_beq_iff,
}
use brezel.Replay.{Expiry, push, recorded, drop_expired, purge}

abbrev Listed : Expiry → List Expiry → Type 0
Listed e [] = ⊥
Listed e (x ∷ xs) = ((e.0 ≡ x.0) × (e.1 ≡ x.1)) ⊎ Listed e xs

abbrev pub Sorted : List Expiry → Type 0
Sorted = Apart (λ x y. x.1 ≤ y.1)

-- Every identifier of the map stands in the heap with its expiry.
abbrev pub Covered : List Expiry → List (Text × ℕ) → Type 0
Covered xs used = (k : Text) (t : ℕ) → lookup k used ≡ some t → Listed (k, t) xs

pub push-Listed_new :
    (e x : Expiry) (xs : List Expiry) → e.0 ≡ x.0 → e.1 ≡ x.1 → Listed e (push x xs)
unfolding push
push-Listed_new e x [] p q = inl (p, q)
push-Listed_new e x (y ∷ ys) p q =
    if_cases (Listed e) (ltb y.1 x.1) _ _ (λ h. inr (push-Listed_new e x ys p q)) (λ h. inl (p, q))

pub push-Listed : (e x : Expiry) (xs : List Expiry) → Listed e xs → Listed e (push x xs)
unfolding push
push-Listed e x [] h = absurd h
push-Listed e x (y ∷ ys) h =
    if_cases (Listed e) (ltb y.1 x.1) _ _
      (λ later. elim h [ inl here ↦ inl here | inr there ↦ inr (push-Listed e x ys there) ])
      (λ first. inr h)

push-All :
    (R : Expiry → Type 0) (x : Expiry) (xs : List Expiry) → R x → All R xs → All R (push x xs)
unfolding push
push-All R x [] rx h = (rx, tt)
push-All R x (y ∷ ys) rx h =
    if_cases (All R) (ltb y.1 x.1) _ _ (λ later. (h.0, push-All R x ys rx h.1)) (λ first. (rx, h))

All-le : (lo hi : ℕ) (xs : List Expiry) → lo ≤ hi → All (λ e. hi ≤ e.1) xs → All (λ e. lo ≤ e.1) xs
All-le lo hi [] h a = tt
All-le lo hi (x ∷ xs) h a = (omega arith, All-le lo hi xs h a.1)

pub push-Sorted : (x : Expiry) (xs : List Expiry) → Sorted xs → Sorted (push x xs)
unfolding push
push-Sorted x [] h = (tt, tt)
push-Sorted x (y ∷ ys) h =
    if_cases Sorted (ltb y.1 x.1) _ _
      (λ later. (push-All (λ e. y.1 ≤ e.1) x ys (ground (arith)) h.0, push-Sorted x ys h.1))
      (λ first. ((ground (arith), All-le x.1 y.1 ys (ground (arith)) h.0), h))

Listed-le :
    (e : Expiry) (lo : ℕ) (xs : List Expiry) → All (λ x. lo ≤ x.1) xs → Listed e xs → lo ≤ e.1
Listed-le e lo [] a h = absurd h
Listed-le e lo (x ∷ xs) a (inl here) = ground (arith)
Listed-le e lo (x ∷ xs) a (inr there) = Listed-le e lo xs a.1 there

-- What a purge at `now` leaves.
abbrev Fresh : ℕ → ℕ → List Expiry × List (Text × ℕ) → Type 0
Fresh now n out =
    Sorted out.0
    × Covered out.0 out.1
    × (length out.1 ≤ n)
    × ((k : Text) (t : ℕ) → lookup k out.1 ≡ some t → now < t)

unrecorded :
    (x : Expiry) (used : List (Text × ℕ))
    → lookup x.0 used ≡ some x.1
    → recorded x.0 x.1 used ≢ false
unfolding recorded
unrecorded x used h e = ground (arith)

drop_expired-Covered :
    (x : Expiry) (xs : List Expiry) (used : List (Text × ℕ))
    → Covered (x ∷ xs) used
    → Covered xs (drop_expired x used)
unfolding drop_expired recorded
drop_expired-Covered x xs used h k t =
    if_cases Passes (recorded x.0 x.1 used) _ _
      (λ stands there. elim (h k t (ground (arith, lookup-delete x.0 k used))) [
        | inl here ↦ absurd (ground (arith, lookup-delete x.0 k used, text_beq_iff k x.0))
        | inr later ↦ later
      ])
      (λ passed there. elim (h k t there) [
        | inl here ↦ absurd (
            unrecorded x used
              (subst (λ j. lookup j used ≡ some x.1) here.0 (there ∙ ap some here.1)) passed)
        | inr later ↦ later
      ])
  where
    Passes : List (Text × ℕ) → Type 0
    Passes out = lookup k out ≡ some t → Listed (k, t) xs

length-drop_expired-le :
    (x : Expiry) (used : List (Text × ℕ)) → length (drop_expired x used) ≤ length used
unfolding drop_expired recorded
length-drop_expired-le x used = ground (arith, length-delete-le x.0 used)

pub purge-Fresh :
    (now : ℕ) (xs : List Expiry) (used : List (Text × ℕ)) (n : ℕ)
    → Sorted xs
    → Covered xs used
    → length used ≤ n
    → Fresh now n (purge now xs used)
unfolding purge
purge-Fresh now [] used n s c b = (s, c, b, λ k t there. absurd (c k t there))
purge-Fresh now (x ∷ xs) used n s c b =
    if_cases (Fresh now n) (leb x.1 now) _ _
      (λ old.
        purge-Fresh now xs (drop_expired x used) n s.1 (drop_expired-Covered x xs used c)
          (omega (arith, length-drop_expired-le x used, b)))
      (λ live. (
        s,
        c,
        b,
        λ k t there.
            ground (arith, Listed-le (k, t) x.1 (x ∷ xs) (omega arith, s.0) (c k t there), live),
      ))
