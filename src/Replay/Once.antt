-- ===== src/Replay/Once.antt =====
-- An identifier is spent once.
use brezel.Common.{
  ℕ, ◌≤◌, ◌<◌, ◌≡◌, ◌≢◌, refl, Bool, true, false, not, ◌||◌, List, [], ◌∷◌, some, arith, ◌==◌,
  nat_eq, ltb, leb, All, if_cases, lookup, lookup-insert, lookup-delete, Text, text_eq,
  text_beq_iff, Result, ok,
}
use brezel.Replay.{
  Error, Expiry, ReplayCache, recorded, drop_expired, purge, valid_identifier, consume, is_used,
  purged, use_jti,
}

drop_expired_keeps :
    (now t : ℕ) (jti : Text) (x : Expiry) (used : List (Text × ℕ))
    → now < t
    → x.1 ≤ now
    → lookup jti used ≡ some t
    → lookup jti (drop_expired x used) ≡ some t
unfolding drop_expired recorded
drop_expired_keeps now t jti x used later old h =
    ground (arith, lookup-delete x.0 jti used, text_beq_iff jti x.0)

-- An identifier that expires later than `now` stays through a purge at `now`.
purge_keeps :
    (now t : ℕ) (jti : Text) (xs : List Expiry) (used : List (Text × ℕ))
    → now < t
    → lookup jti used ≡ some t
    → lookup jti (purge now xs used).1 ≡ some t
unfolding purge
purge_keeps now t jti [] used later h = h
purge_keeps now t jti (x ∷ xs) used later h =
    if_cases (λ (out : List Expiry × List (Text × ℕ)). lookup jti out.1 ≡ some t) (leb x.1 now) _ _
      (λ old.
        purge_keeps now t jti xs (drop_expired x used) later
          (drop_expired_keeps now t jti x used later (ground arith) h))
      (λ fresh. h)

-- A call of Use at `now` for `jti` until `at`.
pub record Call : Type 0 where
  pub now : ℕ
  pub jti : Text
  pub at : ℕ

unfoldable pub run : ReplayCache → List Call → ReplayCache
run c [] = c
run c (u ∷ us) = run (use_jti c u.now u.jti u.at).0 us

abbrev pub Spent : Text → ℕ → ReplayCache → Type 0
Spent jti t c = lookup jti c.used ≡ some t

consume-Spent :
    (c : ReplayCache) (jti k : Text) (t at : ℕ) (b : Bool)
    → is_used k c.used ≡ b
    → Spent jti t c
    → Spent jti t (consume c k at b).0
unfolding consume is_used
consume-Spent c jti k t at true e h = h
consume-Spent c jti k t at false e h =
    ground (arith, lookup-insert k jti at c.used, text_beq_iff jti k)

use_jti-Spent :
    (c : ReplayCache) (u : Call) (jti : Text) (t : ℕ)
    → u.now < t
    → Spent jti t c
    → Spent jti t (use_jti c u.now u.jti u.at).0
unfolding use_jti purged
use_jti-Spent c u jti t later h =
    if_cases Kept (ltb c.max_live 1) _ _ (λ e. h)
      (λ e.
        if_cases Kept (not (valid_identifier u.jti)) _ _ (λ e. h)
          (λ e.
            if_cases Kept (u.at == 0 || leb u.at u.now) _ _ (λ e. h)
              (λ e.
                consume-Spent (purged c u.now) jti u.jti t u.at _ refl
                  (purge_keeps u.now t jti c.expires c.used later h))))
  where
    Kept : ReplayCache × Result Error (Unit {0}) → Type 0
    Kept out = Spent jti t out.0

run-Spent :
    (c : ReplayCache) (us : List Call) (jti : Text) (t : ℕ)
    → All (λ u. u.now < t) us
    → Spent jti t c
    → Spent jti t (run c us)
unfolding run
run-Spent c [] jti t early h = h
run-Spent c (u ∷ us) jti t early h =
    run-Spent (use_jti c u.now u.jti u.at).0 us jti t early.1 (use_jti-Spent c u jti t early.0 h)

consume-ok :
    (c : ReplayCache) (jti : Text) (at : ℕ) (b : Bool)
    → (consume c jti at b).1 ≡ ok tt
    → Spent jti at (consume c jti at b).0
unfolding consume
consume-ok c jti at true good = cc
consume-ok c jti at false good =
    ground (arith, lookup-insert jti jti at c.used, text_beq_iff jti jti)

consume-refused :
    (c : ReplayCache) (jti : Text) (t at : ℕ) (b : Bool)
    → is_used jti c.used ≡ b
    → Spent jti t c
    → (consume c jti at b).1 ≢ ok tt
unfolding consume is_used
consume-refused c jti t at true e h good = cc
consume-refused c jti t at false e h good = ground (arith)

-- A successful call leaves its identifier in the cache, and is only made for a later expiry.
pub use_jti-ok :
    (c : ReplayCache) (now : ℕ) (jti : Text) (at : ℕ)
    → (use_jti c now jti at).1 ≡ ok tt
    → Spent jti at (use_jti c now jti at).0
unfolding use_jti
use_jti-ok c now jti at =
    if_cases Left (ltb c.max_live 1) _ _ (λ e h. cc)
      (λ e.
        if_cases Left (not (valid_identifier jti)) _ _ (λ e h. cc)
          (λ e.
            if_cases Left (at == 0 || leb at now) _ _ (λ e h. cc)
              (λ e. consume-ok (purged c now) jti at _)))
  where
    Left : ReplayCache × Result Error (Unit {0}) → Type 0
    Left out = out.1 ≡ ok tt → Spent jti at out.0

-- An identifier in the cache is not consumed again.
use_jti-refused :
    (c : ReplayCache) (now : ℕ) (jti : Text) (t at : ℕ)
    → now < t
    → Spent jti t c
    → (use_jti c now jti at).1 ≢ ok tt
unfolding use_jti purged
use_jti-refused c now jti t at later h =
    if_cases Refused (ltb c.max_live 1) _ _ (λ e good. cc)
      (λ e.
        if_cases Refused (not (valid_identifier jti)) _ _ (λ e good. cc)
          (λ e.
            if_cases Refused (at == 0 || leb at now) _ _ (λ e good. cc)
              (λ e.
                consume-refused (purged c now) jti t at _ refl
                  (purge_keeps now t jti c.expires c.used later h))))
  where
    Refused : ReplayCache × Result Error (Unit {0}) → Type 0
    Refused out = out.1 ≢ ok tt

-- After a Use of an identifier has succeeded, and then any calls of Use at times before its expiry,
-- every further Use of it at such a time fails, whatever expiry the caller gives.
pub use_jti-once :
    (c : ReplayCache) (now : ℕ) (jti : Text) (t : ℕ)
    → (use_jti c now jti t).1 ≡ ok tt
    → (us : List Call) → All (λ u. u.now < t) us
    → (later at : ℕ) → later < t
    → (use_jti (run (use_jti c now jti t).0 us) later jti at).1 ≢ ok tt
use_jti-once c now jti t good us early later at before =
    use_jti-refused (run (use_jti c now jti t).0 us) later jti t at before
      (run-Spent (use_jti c now jti t).0 us jti t early (use_jti-ok c now jti t good))
