-- ===== src/Replay.antt =====
-- internal/node/replay.go: the cache that lets a relay spend a capability identifier once.
-- Times are nanoseconds since Go's zero time. container/heap is a list in order of expiry, whose
-- head is the least element that heap.Pop returns.
pub mod Once
pub mod Heap
pub mod Live
use brezel.Common.{
  ℕ, ◌+◌, Bool, true, false, not, ◌&&◌, ◌||◌, List, [], ◌∷◌, Option, none, some, ltb, leb, ◌==◌,
  nat_eq, if◌then◌else◌, length, lookup, insert, delete, Text, text_eq, trim_space, contains_any,
  Result, ok, err,
}

pub data Error : Type 0 where
  not_initialized invalid_identifier already_expired capability_replay replay_capacity : Error

abbrev pub Expiry : Type 0
Expiry = Text × ℕ

pub record ReplayCache : Type 0 where
  pub used : List (Text × ℕ)
  pub expires : List Expiry
  pub max_live : ℕ

unfoldable pub new_replay_cache : ℕ → Option ReplayCache
new_replay_cache max_live =
    if ltb max_live 1 then none else some (record { used = []; expires = []; max_live = max_live })

-- heap.Push
unfoldable pub push : Expiry → List Expiry → List Expiry
push x [] = x ∷ []
push x (y ∷ ys) = if ltb y.1 x.1 then y ∷ push x ys else x ∷ y ∷ ys

unfoldable pub recorded : Text → ℕ → List (Text × ℕ) → Bool
recorded jti at used = elim (lookup jti used) [ none ↦ false | some t ↦ t == at ]

-- The body of the loop over the heap: an identifier is dropped if it stands at that expiry.
unfoldable pub drop_expired : Expiry → List (Text × ℕ) → List (Text × ℕ)
drop_expired x used = if recorded x.0 x.1 used then delete x.0 used else used

unfoldable pub purge : ℕ → List Expiry → List (Text × ℕ) → List Expiry × List (Text × ℕ)
purge now [] used = ([], used)
purge now (x ∷ xs) used =
    let rest = purge now xs (drop_expired x used) in if leb x.1 now then rest else (x ∷ xs, used)

unfoldable pub valid_identifier : Text → Bool
valid_identifier jti =
    not (trim_space jti == [])
    && (leb (length jti) 256 && not (contains_any jti (0 ∷ 13 ∷ 10 ∷ [])))

-- The end of Use, on the purged cache.
unfoldable pub consume : ReplayCache → Text → ℕ → Bool → ReplayCache × Result Error (Unit {0})
consume c jti at true = (c, err capability_replay)
consume c jti at false =
    if leb c.max_live (length c.used)
    then (c, err replay_capacity)
    else (record c { used = insert jti at c.used; expires = push (jti, at) c.expires }, ok tt)

unfoldable pub is_used : Text → List (Text × ℕ) → Bool
is_used jti used = elim (lookup jti used) [ none ↦ false | some t ↦ true ]

unfoldable pub purged : ReplayCache → ℕ → ReplayCache
purged c now = record c {
  used = (purge now c.expires c.used).1;
  expires = (purge now c.expires c.used).0;
}

-- Use at the time `now`
unfoldable pub use_jti : ReplayCache → ℕ → Text → ℕ → ReplayCache × Result Error (Unit {0})
use_jti c now jti at =
    if ltb c.max_live 1
    then (c, err not_initialized)
    else if not (valid_identifier jti)
    then (c, err invalid_identifier)
    else if at == 0 || leb at now
    then (c, err already_expired)
    else consume (purged c now) jti at (is_used jti (purged c now).used)

-- Len
unfoldable pub len : ReplayCache → ℕ
len c = length c.used
