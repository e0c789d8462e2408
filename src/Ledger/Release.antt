-- ===== src/Ledger/Release.antt =====
-- Operation leases: who holds one can give it back, once.
use brezel.Common.{
  ℕ, ◌+◌, ◌-◌, ◌≡◌, ◌≢◌, refl, ap, ◌∙◌, subst, inl, inr, false, not, ◌&&◌, none, arith, ◌==◌,
  nat_eq, Bool-cases, if◌then◌else◌, ok, require, Text, text_eq, text_beq_iff, lookup, insert,
  delete,
}
use brezel.Ledger.Types.{
  ready, draining, state_eq, state_beq_iff, DiskEntry, OperationKey, key_eq, key_beq_iff, Binding,
  ledger_closed, invalid,
}
use brezel.Ledger.Operations.{Ledger, active_count}
use brezel.Ledger.Leases.{
  current_entry, operation_key, admit, acquire_operation, held_entry, release_operation, release,
  Lease,
}
use brezel.Ledger.Steps.{refuse_passed, refuse_ok}
use brezel.Ledger.Checks.{valid_route_identity}
use brezel.Ledger.Activity.{HeldBy, active_count-insert, active_count-delete}
use brezel.Ledger.Invariant.{Inv, acquire_operation-Inv}

held_entry-Held :
    (l : Ledger) (key : OperationKey) (e : DiskEntry)
    → HeldBy l.state key e
    → held_entry l key ≡ ok e
unfolding held_entry
held_entry-Held l key e h = rw h.stored (
    ground (
      arith,
      text_beq_iff e.project_id key.project_id,
      text_beq_iff e.sandbox_id key.sandbox_id,
      state_beq_iff e.state ready,
      state_beq_iff e.state draining,
    ))

open_with_work :
    (l : Ledger) (key : OperationKey) → Inv l → active_count l.active key ≢ 0 → l.closed ≡ false
unfolding active_count lookup
open_with_work l key v busy = elim (Bool-cases l.closed) [
  | inr live ↦ live
  | inl shut ↦ absurd (busy (rw (v.drained shut)))
]

abbrev fewer : Ledger → OperationKey → Ledger
fewer l key = record l {
  active =
      if active_count l.active key == 1
      then delete key l.active
      else insert key (active_count l.active key - 1) l.active;
}

released_ok :
    (l : Ledger) (key : OperationKey) (e : DiskEntry)
    → l.closed ≡ false
    → active_count l.active key ≢ 0
    → held_entry l key ≡ ok e
    → release_operation l key ≡ (fewer l key, ok tt)
unfolding release_operation
released_ok l key e live busy found =
    refuse_passed l (require (not l.closed) ledger_closed) tt _ (ground arith)
    ∙ refuse_passed l (require (not (active_count l.active key == 0)) invalid) tt _ (ground arith)
    ∙ refuse_passed l (held_entry l key) e _ found

-- Under the invariant an operation in flight can be released: the count of its key falls by one
-- and every other count stays.
pub release_operation-held :
    (l : Ledger) (key j : OperationKey)
    → Inv l
    → active_count l.active key ≢ 0
    → ((release_operation l key).1 ≡ ok tt)
      × (active_count (release_operation l key).0.active j
          ≡ (if j == key then active_count l.active key - 1 else active_count l.active j))
release_operation-held l key j v busy =
    let live = open_with_work l key v busy in
    let (e, h) = v.held key busy in
    let found = held_entry-Held l key e h in
    rw (released_ok l key e live busy found) (
      refl,
      ground (
        arith,
        active_count-insert key j (active_count l.active key - 1) l.active,
        active_count-delete key j l.active,
      ),
    )

-- An operation that was admitted: the lease, and the ledger with one more under its key.
pub record Admitted (l m : Ledger) (key : OperationKey) (b : Binding) (lease : Lease) : Type 0 where
  pub counted : m ≡ record l { active = insert key (active_count l.active key + 1) l.active }
  pub leased : lease ≡ record { key = key; outcome = none }

Admitted-branch :
    (l m : Ledger) (key : OperationKey) (e : DiskEntry) (b : Binding) (lease : Lease)
    → admit l key e ≡ (m, ok (b, lease))
    → Admitted l m key b lease
unfolding admit
Admitted-branch l m key e b lease h = record { counted = ground arith; leased = ground arith }

acquire_operation-Admitted :
    (l m : Ledger) (route project sandbox : Text) (expected : ℕ) (b : Binding) (lease : Lease)
    → acquire_operation l route project sandbox expected ≡ (m, ok (b, lease))
    → Admitted l m (operation_key route project sandbox expected) b lease
unfolding acquire_operation
acquire_operation-Admitted l m route project sandbox expected b lease h =
    let (o, _, h₁) =
      refuse_ok l m
        (require (valid_route_identity route project sandbox && not (expected == 0)) invalid) _ h in
    let (e, found, h₂) =
      refuse_ok l m (current_entry l route project sandbox expected ready) _ h₁ in
    Admitted-branch l m (operation_key route project sandbox expected) e b lease h₂

-- Under the invariant, Release of a lease that AcquireOperation has just returned succeeds, every
-- count of operations is then what it was before the acquisition, and a second Release returns
-- success again and changes nothing.
pub release-acquire_operation :
    (l m : Ledger) (route project sandbox : Text) (expected : ℕ) (b : Binding) (lease : Lease)
    (j : OperationKey)
    → Inv l
    → acquire_operation l route project sandbox expected ≡ (m, ok (b, lease))
    → let (n, spent, r) = release m lease in
      (r ≡ ok tt)
      × (active_count n.active j ≡ active_count l.active j)
      × (release n spent ≡ (n, spent, ok tt))
unfolding release
release-acquire_operation l m route project sandbox expected b lease j v h =
    let a = acquire_operation-Admitted l m route project sandbox expected b lease h in
    let key = operation_key route project sandbox expected in
    let w : Inv m =
      subst Inv (ap (λ o. o.0) h) (acquire_operation-Inv l route project sandbox expected v) in
    let one : active_count m.active key ≡ active_count l.active key + 1 = ground (
      arith,
      active_count-insert key key (active_count l.active key + 1) l.active,
      key_beq_iff key key,
    ) in
    let (fine, counts) = release_operation-held m key j w (ground arith) in
    rw a.leased (
      fine,
      ground (
        arith,
        counts,
        one,
        active_count-insert key j (active_count l.active key + 1) l.active,
        key_beq_iff j key,
      ),
      rw fine,
    )
