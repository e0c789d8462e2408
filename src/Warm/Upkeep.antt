-- ===== src/Warm/Upkeep.antt =====
-- What the pool does for its slots keeps every relation that its parts keep: a refill if the
-- reservation and the creation of slots keep it, and the rest if a refill does.
use brezel.Common.{Bool, List, [], ◌∷◌, Text, text_eq, Result, ok, err}
use brezel.Warm.Slots.{
  SlotState, creating, available, claiming, claimed, deleting, Slot, Table, slot_state_eq,
}
use brezel.Warm.World.{
  Remote, BackendError, not_found, failing, Error, Outside, World, inner_create,
}
use brezel.Warm.Statements.{Config, reserve_missing}
use brezel.Warm.Methods.{
  slot_request, quarantined, destroyed, discard, create_recovered, create_answered, create_slot,
  joined, create_reserved, refill, refill_after_failure, recover_found, recover_creating_slot,
  recover_inspected, recover_slot, recover_slots, recover, prime, retired, maintain_slot,
  maintain_slots, maintain,
}
use brezel.Warm.Within.{Within, Atoms, blocks, bind-Within, then-Within, attempt-Within}

module _ {o : Outside} {c : Config} {R : World → World → Type 0} (atoms : Atoms o c R) where
  quarantined-Within : (s : Slot) → Within R (quarantined o c s)
  unfolding quarantined
  quarantined-Within s = search blocks

  destroyed-Within : (id : Text) (why : Error) → Within R (destroyed o c id why)
  unfolding destroyed
  destroyed-Within id why = search blocks

  pub discard-Within : (s : Slot) → Within R (discard o c s)
  unfolding discard
  discard-Within s = search (blocks, quarantined-Within, destroyed-Within)

  create_recovered-Within :
      (s : Slot) (r : Result BackendError Remote) → Within R (create_recovered o c s r)
  unfolding create_recovered
  create_recovered-Within s (ok r) = search blocks
  create_recovered-Within s (err not_found) = search blocks
  create_recovered-Within s (err failing) = search blocks

  pub create_answered-Within :
      (s : Slot) (r : Result BackendError Remote) → Within R (create_answered o c s r)
  unfolding create_answered
  create_answered-Within s (ok r) = search (blocks, destroyed-Within)
  create_answered-Within s (err e) = search (blocks, create_recovered-Within)

  pub joined-Within : (a b : Result Error (Unit {0})) → Within R (joined o c a b)
  unfolding joined
  joined-Within (ok u) (ok v) = search blocks
  joined-Within (ok u) (err e) = search blocks
  joined-Within (err e) b = search blocks

module _ {o : Outside} {c : Config} {R : World → World → Type 0} (atoms : Atoms o c R)
    (reserves : Within R (reserve_missing o c))
    (creates : (s : Slot) → Within R (inner_create o (slot_request o c s))) where
  create_slot-Within : (s : Slot) → Within R (create_slot o c s)
  unfolding create_slot
  create_slot-Within s = search (blocks, creates, create_answered-Within)

  create_reserved-Within : (reserved : List Slot) → Within R (create_reserved o c reserved)
  unfolding create_reserved
  create_reserved-Within [] = search blocks
  create_reserved-Within (s ∷ reserved) =
      bind-Within atoms.chained _ _ (search (blocks, create_slot-Within)) λ first.
        bind-Within atoms.chained _ _
          (attempt-Within atoms.chained _ (create_reserved-Within reserved))
          λ rest. joined-Within atoms first rest

  pub refill-Within : Within R (refill o c)
  unfolding refill
  refill-Within = search (blocks, reserves, create_reserved-Within)

module _ {o : Outside} {c : Config} {R : World → World → Type 0} (atoms : Atoms o c R)
    (refills : (w : World) → R w (refill o c w).0) where
  pub refilled-Within : Within R (refill o c)
  refilled-Within = record { at = refills }

  pub refill_after_failure-Within : Within R (refill_after_failure o c)
  unfolding refill_after_failure
  refill_after_failure-Within = search (blocks, refilled-Within)

  recover_found-Within :
      (s : Slot) (r : Result BackendError Remote) → Within R (recover_found o c s r)
  unfolding recover_found
  recover_found-Within s (ok r) = search (blocks, destroyed-Within)
  recover_found-Within s (err not_found) = search blocks
  recover_found-Within s (err failing) = search blocks

  recover_creating_slot-Within : (s : Slot) → Within R (recover_creating_slot o c s)
  unfolding recover_creating_slot
  recover_creating_slot-Within s = search (blocks, recover_found-Within)

  recover_inspected-Within :
      (s : Slot) (r : Result BackendError Remote) → Within R (recover_inspected o c s r)
  unfolding recover_inspected
  recover_inspected-Within s (ok r) = search (blocks, discard-Within)
  recover_inspected-Within s (err not_found) = search (blocks, discard-Within)
  recover_inspected-Within s (err failing) = search blocks

  recover_slot-Within : (s : Slot) (state : SlotState) → Within R (recover_slot o c s state)
  unfolding recover_slot
  recover_slot-Within s creating = search (recover_creating_slot-Within)
  recover_slot-Within s available = search (blocks, discard-Within, recover_inspected-Within)
  recover_slot-Within s deleting = search (discard-Within)
  recover_slot-Within s claiming = search blocks
  recover_slot-Within s claimed = search blocks

  recover_slots-Within : (rows : Table) → Within R (recover_slots o c rows)
  unfolding recover_slots
  recover_slots-Within [] = search blocks
  recover_slots-Within (s ∷ rows) =
      then-Within atoms.chained _ _ (recover_slot-Within s s.state) (recover_slots-Within rows)

  pub prime-Within : Within R (prime o c)
  unfolding prime recover
  prime-Within = search (blocks, recover_slots-Within, refilled-Within)

  retired-Within : (s : Slot) (moved : Bool) → Within R (retired o c s moved)
  unfolding retired
  retired-Within s moved = search (blocks, discard-Within, refilled-Within)

  maintain_slot-Within : (s : Slot) (state : SlotState) → Within R (maintain_slot o c s state)
  unfolding maintain_slot
  maintain_slot-Within s creating = search (blocks, recover_creating_slot-Within, refilled-Within)
  maintain_slot-Within s deleting = search (blocks, discard-Within, refilled-Within)
  maintain_slot-Within s available = search (blocks, retired-Within)
  maintain_slot-Within s claiming = search (blocks, retired-Within)
  maintain_slot-Within s claimed = search (blocks, retired-Within)

  maintain_slots-Within : (rows : Table) → Within R (maintain_slots o c rows)
  unfolding maintain_slots
  maintain_slots-Within [] = search blocks
  maintain_slots-Within (s ∷ rows) =
      then-Within atoms.chained _ _ (maintain_slot-Within s s.state) (maintain_slots-Within rows)

  pub maintain-Within : Within R (maintain o c)
  unfolding maintain
  maintain-Within = search (blocks, maintain_slots-Within, refilled-Within)
