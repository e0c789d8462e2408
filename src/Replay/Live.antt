-- ===== src/Replay/Live.antt =====
-- The cache is bounded, and is full only of identifiers that have not expired.
use brezel.Common.{
  ℕ, ◌≤◌, ◌<◌, ◌≡◌, ◌≢◌, refl, subst, ◌∙◌, Bool, true, false, not, ◌||◌, List, [], ◌∷◌, some, arith,
  ◌==◌, nat_eq, ltb, leb, if_cases, inl, inr, length, lookup, lookup-insert, length-insert-le, Text,
  text_eq, text_beq_iff, text_cases, Result, err,
}
use brezel.Replay.{
  Error, replay_capacity, not_initialized, invalid_identifier, already_expired, ReplayCache,
  valid_identifier, consume, purged, use_jti, new_replay_cache, len,
}
use brezel.Replay.Once.{Call, run}
use brezel.Replay.Heap.{Sorted, Covered, push-Listed_new, push-Listed, push-Sorted, purge-Fresh}

-- A cache that has been in use: bounded, with its heap in order and every identifier in it.
pub record Ordered (c : ReplayCache) : Type 0 where
  pub sorted : Sorted c.expires
  pub covered : Covered c.expires c.used
  pub bounded : length c.used ≤ c.max_live

-- What holds of a cache after a call that began with the bound `n` and the time `now`.
record After (n now : ℕ) (out : ReplayCache × Result Error (Unit {0})) : Type 0 where
  kept : Ordered out.0
  bound : out.0.max_live ≡ n
  full :
      out.1 ≡ err replay_capacity
      → (length out.0.used ≡ n) × ((k : Text) (t : ℕ) → lookup k out.0.used ≡ some t → now < t)

consume-After :
    (c : ReplayCache) (now at : ℕ) (jti : Text) (b : Bool)
    → Ordered c
    → ((k : Text) (t : ℕ) → lookup k c.used ≡ some t → now < t)
    → After c.max_live now (consume c jti at b)
unfolding consume
consume-After c now at jti true o live = record { kept = o; bound = refl; full = λ h. cc }
consume-After c now at jti false o live =
    if_cases (After c.max_live now) (leb c.max_live (length c.used)) _ _
      (λ full. record { kept = o; bound = refl; full = λ h. (ground (arith, o.bounded), live) })
      (λ room. record {
        kept = record {
          sorted = push-Sorted (jti, at) c.expires o.sorted;
          covered = λ k t there. elim (text_cases k jti) [
            | inl same ↦
                push-Listed_new (k, t) (jti, at) c.expires same
                  (ground (arith, lookup-insert jti k at c.used, text_beq_iff k jti))
            | inr other ↦
                push-Listed (k, t) (jti, at) c.expires
                  (o.covered k t
                    (ground (arith, lookup-insert jti k at c.used, text_beq_iff k jti)))
          ];
          bounded = ground (arith, length-insert-le jti at c.used);
        };
        bound = refl;
        full = λ h. cc;
      })

purged-Ordered :
    (c : ReplayCache) (now : ℕ)
    → Ordered c
    → Ordered (purged c now)
      × ((k : Text) (t : ℕ) → lookup k (purged c now).used ≡ some t → now < t)
unfolding purged
purged-Ordered c now o =
    let f = purge-Fresh now c.expires c.used c.max_live o.sorted o.covered o.bounded in
    (record { sorted = f.0; covered = f.1; bounded = f.2 }, f.3)

use_jti-After :
    (c : ReplayCache) (now : ℕ) (jti : Text) (at : ℕ)
    → Ordered c
    → After c.max_live now (use_jti c now jti at)
unfolding use_jti purged
use_jti-After c now jti at o =
    if_cases Fine (ltb c.max_live 1) _ _ (λ e. same not_initialized (λ p. cc))
      (λ e.
        if_cases Fine (not (valid_identifier jti)) _ _ (λ e. same invalid_identifier (λ p. cc))
          (λ e.
            if_cases Fine (at == 0 || leb at now) _ _ (λ e. same already_expired (λ p. cc))
              (λ e.
                consume-After (purged c now) now at jti _ (purged-Ordered c now o).0
                  (purged-Ordered c now o).1)))
  where
    Fine : ReplayCache × Result Error (Unit {0}) → Type 0
    Fine out = After c.max_live now out

    same : (e : Error) → e ≢ replay_capacity → Fine (c, err e)
    same e other = record { kept = o; bound = refl; full = λ p. absurd (other (cc)) }

run-Ordered :
    (c : ReplayCache) (us : List Call)
    → Ordered c
    → Ordered (run c us) × ((run c us).max_live ≡ c.max_live)
unfolding run
run-Ordered c [] o = (o, refl)
run-Ordered c (u ∷ us) o =
    let next = use_jti-After c u.now u.jti u.at o in
    let rest = run-Ordered (use_jti c u.now u.jti u.at).0 us (After.kept next) in
    (rest.0, rest.1 ∙ After.bound next)

new_replay_cache-Ordered :
    (n : ℕ) (c : ReplayCache) → new_replay_cache n ≡ some c → Ordered c × (c.max_live ≡ n)
unfolding new_replay_cache lookup
new_replay_cache-Ordered n c =
    if_cases (λ out. out ≡ some c → Ordered c × (c.max_live ≡ n)) (ltb n 1) _ _ (λ none h. cc)
      (λ some h.
        subst (λ d. Ordered d × (d.max_live ≡ n)) (the_new h)
          (record { sorted = tt; covered = nothing; bounded = omega arith }, refl))
  where
    the_new : {a b : ReplayCache} → some a ≡ some b → a ≡ b
    the_new h = cc

    nothing : Covered [] []
    nothing k t there = ground (arith)

-- After any calls of Use on a new cache, at any times, Len is at most the capacity; and a call of
-- Use at `now` fails with ErrReplayCapacity only if it leaves exactly that many identifiers in the
-- cache and each of them expires later than `now`.
pub use_jti-full :
    (n : ℕ) (c : ReplayCache)
    → new_replay_cache n ≡ some c
    → (us : List Call) (now : ℕ) (jti : Text) (at : ℕ)
    → (len (run c us) ≤ n)
      × ((use_jti (run c us) now jti at).1 ≡ err replay_capacity
          → (len (use_jti (run c us) now jti at).0 ≡ n)
            × ((k : Text) (t : ℕ)
                → lookup k (use_jti (run c us) now jti at).0.used ≡ some t
                → now < t))
unfolding len
use_jti-full n c new us now jti at =
    let fresh = new_replay_cache-Ordered n c new in
    let used = run-Ordered c us fresh.0 in
    let next = use_jti-After (run c us) now jti at used.0 in
    let size = used.1 ∙ fresh.1 in
    (
      subst (λ m. length (run c us).used ≤ m) size (Ordered.bounded used.0),
      λ h. ((After.full next h).0 ∙ size, (After.full next h).1),
    )
