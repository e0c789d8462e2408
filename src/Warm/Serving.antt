-- ===== src/Warm/Serving.antt =====
-- The methods of internal/backend/warm/pool.go for a sandbox of a customer: New's tests of the
-- configuration, Create, Find and Delete. A list stands for a slice, so that an empty one and nil,
-- which reflect.DeepEqual tells apart, are one.
use brezel.Common.{
  second, seconds_of, ℕ, ◌+◌, ◌-◌, ◌*◌, ◌/◌, ◌%◌, Bool, true, false, not, ◌&&◌, ◌||◌, List, [], ◌∷◌,
  Option, none, some, ltb, leb, ◌==◌, nat_eq, if◌then◌else◌, all, length, is_alnum, Text, text_eq,
  pos, int_lt, wrap_int64, Result, ok, err,
}
use brezel.Domain.States.{running}
use brezel.Domain.Resources.{NetworkPolicy, valid_destination}
use brezel.Warm.Slots.{claiming, slot_state_eq, Slot}
use brezel.Warm.World.{
  Remote, CreateRequest, BackendError, failing, Error, capacity_unavailable, timeout_reset,
  warm_unavailable, reset_undiscarded, unusable_undiscarded, inner, Outside, Exec, pure, raise,
  ◌>>=◌, ◌>>◌, attempt, inner_create, inner_find, inner_inspect, inner_set_timeout, inner_delete,
  now,
}
use brezel.Warm.Statements.{
  Config, claim_safety, begin_claim, finish_claim, find_claim, find_backend, remove,
}
use brezel.Warm.Methods.{
  is_running, unless_missing, of_inner, whether, discard, refill_after_failure,
}

-- safeTemplateID
unfoldable pub is_template_byte : ℕ → Bool
is_template_byte b = is_alnum b || (b == 46 || (b == 95 || (b == 58 || b == 45)))

unfoldable pub safe_template_id : Text → Bool
safe_template_id [] = false
safe_template_id (b ∷ bs) = is_alnum b && (all is_template_byte bs && leb (length bs) 199)

-- `config.MaxClaimTTL+claimSafety >= config.SlotTTL`, in int64
unfoldable pub outlives_slot : Config → Bool
outlives_slot c = not (int_lt (wrap_int64 (pos (c.max_claim_ttl + claim_safety))) (pos c.slot_ttl))

-- The tests of New on a configuration with a path and a backend.
unfoldable pub accepted_config : Config → Bool
accepted_config c =
    not (ltb c.target 1 || ltb 4096 c.target)
    && (safe_template_id c.template_id
        && (not (
              ltb c.slot_ttl (60 * second)
              || (ltb (30 * 24 * 3600 * second) c.slot_ttl || not (c.slot_ttl % second == 0)))
            && (not (
                  ltb c.max_claim_ttl (30 * second)
                  || (not (c.max_claim_ttl % second == 0) || outlives_slot c))
                && (not (ltb c.prime_concurrency 1 || ltb c.target c.prime_concurrency)
                    && (all valid_destination c.network.allow_out
                        && all valid_destination c.network.deny_out)))))

unfoldable pub same_texts : List Text → List Text → Bool
same_texts [] [] = true
same_texts (x ∷ xs) (y ∷ ys) = x == y && same_texts xs ys
same_texts _ _ = false

-- reflect.DeepEqual of two policies
unfoldable pub same_network : NetworkPolicy → NetworkPolicy → Bool
same_network a b =
    (if a.allow_internet then b.allow_internet else not b.allow_internet)
    && (same_texts a.allow_out b.allow_out && same_texts a.deny_out b.deny_out)

unfoldable pub is_empty : {A : Type 0} → List A → Bool
is_empty [] = true
is_empty (x ∷ xs) = false

-- Seconds until the end of a claim, at least one.
unfoldable pub seconds_left : ℕ → ℕ → ℕ
seconds_left until at = if leb until at then 1 else (until - at + (second - 1)) / second

module _ (o : Outside) (c : Config) where
  unfoldable pub eligible : CreateRequest → Bool
  eligible request =
      request.template_id == c.template_id
      && (is_empty request.environment
          && (is_empty request.workspace_mounts
              && (not (int_lt request.lifecycle.expires_after_seconds (pos 30))
                  && (not (
                        int_lt (pos c.max_claim_ttl)
                          (seconds_of request.lifecycle.expires_after_seconds))
                      && same_network request.network c.network))))

  -- The error of a slot that could not be destroyed either.
  unfoldable pub abandoned : Error → Result Error (Unit {0}) → Exec (Unit {0})
  abandoned undiscarded (ok u) = pure tt
  abandoned undiscarded (err e) = raise undiscarded

  -- The end of completeClaim on a slot that it cannot hand out.
  unfoldable pub give_up : Slot → Error → Error → Exec Remote
  give_up s undiscarded why = do
    gone ← attempt (discard o c s)
    abandoned undiscarded gone
    refill_after_failure o c
    raise why

  -- completeClaim after SetTimeout
  unfoldable pub reset_claim : Slot → Text → Text → Result BackendError (Unit {0}) → Exec Remote
  reset_claim s project sandbox (err e) = give_up s reset_undiscarded timeout_reset
  reset_claim s project sandbox (ok u) = do
    finish_claim o s.id project sandbox
    pure (record { id = s.backend_id; state = running })

  -- completeClaim after Inspect
  unfoldable pub verify_claim : Slot → Result BackendError Remote → Exec Remote
  verify_claim s (err e) = give_up s unusable_undiscarded warm_unavailable
  verify_claim s (ok r) =
      whether (is_running r) (pure r) (give_up s unusable_undiscarded warm_unavailable)

  unfoldable pub complete_claim : Slot → Text → Text → Exec Remote
  complete_claim s project sandbox =
      whether (s.state == claiming)
        (do
          at ← now o
          r ← inner_set_timeout o s.backend_id (pos (seconds_left s.claim_expires_at at))
          reset_claim s project sandbox r)
        (do r ← inner_inspect o s.backend_id; verify_claim s r)

  unfoldable pub create_inner : CreateRequest → Exec Remote
  create_inner request = do r ← inner_create o request; of_inner r

  -- Without a slot for it, a request goes to the backend, unless the pool is strict.
  unfoldable pub oversubscribed : CreateRequest → Exec Remote
  oversubscribed request = whether c.strict (raise capacity_unavailable) (create_inner request)

  -- `!errors.Is(claimErr, errWarmUnavailable) || p.config.Strict`
  unfoldable pub claim_or_create : CreateRequest → Result Error Remote → Exec Remote
  claim_or_create request (ok r) = pure r
  claim_or_create request (err warm_unavailable) =
      whether c.strict (raise warm_unavailable) (create_inner request)
  claim_or_create request (err e) = raise e

  unfoldable pub serve_claim : CreateRequest → Slot → Exec Remote
  serve_claim request s = do
    r ← attempt (complete_claim s request.project_id request.local_sandbox_id)
    claim_or_create request r

  unfoldable pub serve_fresh : CreateRequest → Option Slot → Exec Remote
  serve_fresh request none = oversubscribed request
  serve_fresh request (some s) = serve_claim request s

  -- Create, by whether the request already has a claim.
  unfoldable pub serve : CreateRequest → Option Slot → Exec Remote
  serve request (some s) = serve_claim request s
  serve request none = do
    s ←
        begin_claim o request.project_id request.local_sandbox_id
          (seconds_of request.lifecycle.expires_after_seconds)
    serve_fresh request s

  unfoldable pub create : CreateRequest → Exec Remote
  create request =
      whether (eligible request)
        (do
          existing ← find_claim o request.project_id request.local_sandbox_id
          serve request existing)
        (oversubscribed request)

  unfoldable pub find_remote : Text → Text → Option Slot → Exec Remote
  find_remote local project none = do r ← inner_find o local project; of_inner r
  find_remote local project (some s) = complete_claim s project local

  unfoldable pub find : Text → Text → Exec Remote
  find local project = do s ← find_claim o project local; find_remote local project s

  unfoldable pub delete_slot : Option Slot → Exec (Unit {0})
  delete_slot none = pure tt
  delete_slot (some s) = do remove o s.id; refill_after_failure o c

  unfoldable pub delete_remote : Text → Exec (Unit {0})
  delete_remote id = do
    pooled ← find_backend o id
    r ← inner_delete o id
    unless_missing r (inner failing)
    delete_slot pooled
