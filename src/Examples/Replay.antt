-- ===== src/Examples/Replay.antt =====
-- A replay cache of two identifiers.
use brezel.Common.{
  ℕ, ◌≡◌, ◌≢◌, ◌≤◌, ◌<◌, refl, List, [], ◌∷◌, some, arith, lookup, insert, delete, ok, err, Text,
  text_eq, text_beq, codes, trim_space, runes, is_space, contains_any,
}
use brezel.Replay.{
  ReplayCache, replay_capacity, capability_replay, new_replay_cache, use_jti, push, purge, purged,
  consume, is_used, valid_identifier, drop_expired, recorded, len,
}
use brezel.Replay.Once.{Call, run, use_jti-once}
use brezel.Replay.Live.{use_jti-full}

replay : Unit {0}
unfolding new_replay_cache use_jti push purge purged consume is_used valid_identifier drop_expired
    recorded len run lookup insert delete text_beq trim_space runes is_space contains_any
replay = tt

abbrev fresh : ReplayCache
fresh = record { used = []; expires = []; max_live = 2 }

abbrev traffic : List Call
traffic =
    record { now = 2; jti = codes "b"; at = 4 }
    ∷ record { now = 5; jti = codes "c"; at = 20 }
    ∷ record { now = 6; jti = codes "a"; at = 30 }
    ∷ []

use_jti-once_example :
    (use_jti (run (use_jti fresh 1 (codes "a") 10).0 traffic) 9 (codes "a") 50).1 ≢ ok tt
unfolding replay
use_jti-once_example =
    use_jti-once fresh 1 (codes "a") 10 refl traffic (omega arith, (omega arith, (omega arith, tt)))
      9 50 (omega arith)

-- The expired `b` made room for `c`, and the cache refuses the replay of `a`.
replay_test :
    (use_jti (run (use_jti fresh 1 (codes "a") 10).0 traffic) 9 (codes "a") 50).1
    ≡ err capability_replay
unfolding replay
replay_test = refl

full_test :
    (use_jti (run (use_jti fresh 1 (codes "a") 10).0 traffic) 9 (codes "d") 50).1
    ≡ err replay_capacity
unfolding replay
full_test = refl

use_jti-full_example :
    (len (run fresh traffic) ≤ 2)
    × ((use_jti (run fresh traffic) 7 (codes "d") 40).1 ≡ err replay_capacity
        → (len (use_jti (run fresh traffic) 7 (codes "d") 40).0 ≡ 2)
          × ((k : Text) (t : ℕ)
              → lookup k (use_jti (run fresh traffic) 7 (codes "d") 40).0.used ≡ some t
              → 7 < t))
unfolding replay
use_jti-full_example = use_jti-full 2 fresh refl traffic 7 (codes "d") 40
