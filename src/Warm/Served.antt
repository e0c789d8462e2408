-- ===== src/Warm/Served.antt =====
-- What the pool does for a customer keeps every relation that its parts and a refill keep, if it is
-- strict or the relation allows its backend to create the sandbox.
use brezel.Common.{Bool, true, false, ◌≡◌, refl, Option, none, some, Text, text_eq, Result, ok, err}
use brezel.Warm.Slots.{Slot, slot_state_eq}
use brezel.Warm.World.{
  Remote, CreateRequest, BackendError, Error, Outside, World, Exec, inner_create, warm_unavailable,
}
use brezel.Warm.Statements.{Config}
use brezel.Warm.Methods.{whether, refill}
use brezel.Warm.Serving.{
  give_up, reset_claim, verify_claim, complete_claim, create_inner, oversubscribed, claim_or_create,
  serve_claim, serve_fresh, serve, create, find_remote, find, delete_slot, delete_remote,
}
use brezel.Warm.Within.{Within, Atoms, blocks, bind-Within, of_inner-Within}
use brezel.Warm.Serving.{abandoned}
use brezel.Warm.Upkeep.{discard-Within, refill_after_failure-Within}

module _ {o : Outside} {c : Config} {R : World → World → Type 0} (atoms : Atoms o c R)
    (refills : (w : World) → R w (refill o c w).0) where
  abandoned-Within :
      (undiscarded : Error) (r : Result Error (Unit {0})) → Within R (abandoned o c undiscarded r)
  unfolding abandoned
  abandoned-Within undiscarded (ok u) = search blocks
  abandoned-Within undiscarded (err e) = search blocks

  give_up-Within : (s : Slot) (undiscarded why : Error) → Within R (give_up o c s undiscarded why)
  unfolding give_up
  give_up-Within s undiscarded why =
      search (blocks, discard-Within, abandoned-Within, refill_after_failure-Within)

  reset_claim-Within :
      (s : Slot) (project sandbox : Text) (r : Result BackendError (Unit {0}))
      → Within R (reset_claim o c s project sandbox r)
  unfolding reset_claim
  reset_claim-Within s project sandbox (ok u) = search blocks
  reset_claim-Within s project sandbox (err e) = search (give_up-Within)

  verify_claim-Within :
      (s : Slot) (r : Result BackendError Remote) → Within R (verify_claim o c s r)
  unfolding verify_claim
  verify_claim-Within s (ok r) = search (blocks, give_up-Within)
  verify_claim-Within s (err e) = search (give_up-Within)

  complete_claim-Within :
      (s : Slot) (project sandbox : Text) → Within R (complete_claim o c s project sandbox)
  unfolding complete_claim
  complete_claim-Within s project sandbox = search (blocks, reset_claim-Within, verify_claim-Within)

  find_remote-Within :
      (local project : Text) (s : Option Slot) → Within R (find_remote o c local project s)
  unfolding find_remote
  find_remote-Within local project none = search blocks
  find_remote-Within local project (some s) = search (complete_claim-Within)

  pub find-Within : (local project : Text) → Within R (find o c local project)
  unfolding find
  find-Within local project = search (blocks, find_remote-Within)

  pub delete_slot-Within : (s : Option Slot) → Within R (delete_slot o c s)
  unfolding delete_slot
  delete_slot-Within none = search blocks
  delete_slot-Within (some s) = search (blocks, refill_after_failure-Within)

  pub delete_remote-Within : (id : Text) → Within R (delete_remote o c id)
  unfolding delete_remote
  delete_remote-Within id = search (blocks, delete_slot-Within)

module _ {o : Outside} {c : Config} {R : World → World → Type 0} (atoms : Atoms o c R)
    (refills : (w : World) → R w (refill o c w).0) (request : CreateRequest)
    (direct : c.strict ≡ false → Within R (inner_create o request)) where
  unless_strict-Within :
      (m : Exec Remote) (b : Bool)
      → c.strict ≡ b
      → Within R m
      → Within R (whether b m (create_inner o c request))
  unfolding whether create_inner
  unless_strict-Within m true e h = h
  unless_strict-Within m false e h =
      bind-Within atoms.chained (inner_create o request) _ (direct e)
        (of_inner-Within atoms.chained)

  oversubscribed-Within : Within R (oversubscribed o c request)
  unfolding oversubscribed
  oversubscribed-Within = unless_strict-Within _ c.strict refl (search blocks)

  claim_or_create-Within : (r : Result Error Remote) → Within R (claim_or_create o c request r)
  unfolding claim_or_create
  claim_or_create-Within (ok r) = search blocks
  claim_or_create-Within (err warm_unavailable) =
      unless_strict-Within _ c.strict refl (search blocks)
  claim_or_create-Within (err _) = search blocks

  serve_claim-Within : (s : Slot) → Within R (serve_claim o c request s)
  unfolding serve_claim
  serve_claim-Within s =
      let completed =
        complete_claim-Within atoms refills s request.project_id request.local_sandbox_id in
      search (blocks, claim_or_create-Within)

  serve_fresh-Within : (s : Option Slot) → Within R (serve_fresh o c request s)
  unfolding serve_fresh
  serve_fresh-Within none = oversubscribed-Within
  serve_fresh-Within (some s) = serve_claim-Within s

  serve-Within : (s : Option Slot) → Within R (serve o c request s)
  unfolding serve
  serve-Within none = search (blocks, serve_fresh-Within)
  serve-Within (some s) = serve_claim-Within s

  pub create-Within : Within R (create o c request)
  unfolding create
  create-Within = search (blocks, serve-Within, oversubscribed-Within)
