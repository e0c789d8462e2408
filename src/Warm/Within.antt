-- ===== src/Warm/Within.antt =====
-- A relation between the worlds before and after a call that the pool's statements and its calls of
-- the backend keep is kept by what its methods compose of them.
use brezel.Common.{Bool, true, false, List, Text, text_eq, Result, ok, err, ℤ}
use brezel.Warm.Slots.{SlotState, available, Table, slot_state_eq}
use brezel.Warm.World.{
  BackendError, not_found, failing, Error, Outside, World, Exec, pure, raise, resume, settled,
  ◌>>=◌, ◌>>◌, attempt, inner_find, inner_inspect, inner_set_timeout, inner_delete, now, inner,
}
use brezel.Warm.Statements.{
  Config, query, mark_available, begin_claim, finish_claim, mark_deleting, retire_available,
  find_claim, find_backend, list_states, remove,
}
use brezel.Warm.Methods.{unless_missing, of_inner, expect, whether}

pub record Within (R : World → World → Type 0) {A : Type 0} (m : Exec A) : Type 0 where
  pub at : (w : World) → R w (m w).0

-- What makes a do block of calls that keep a relation keep it.
pub record Chained (R : World → World → Type 0) : Type 0 where
  pub same : (w : World) → R w w
  pub along : {u v w : World} → R u v → R v w → R u w

-- What the methods are made of, but for the reservation and the creation of slots.
pub record Atoms (o : Outside) (c : Config) (R : World → World → Type 0) : Type 1 where
  pub chained : Chained R
  pub publishes : (id backend_id : Text) → Within R (mark_available o id backend_id)
  pub claims : (project sandbox : Text) (ttl : ℤ) → Within R (begin_claim o project sandbox ttl)
  pub confirms : (id project sandbox : Text) → Within R (finish_claim o id project sandbox)
  pub quarantines : (id : Text) (from : SlotState) → Within R (mark_deleting o id from)
  pub removes : (id : Text) → Within R (remove o id)
  pub queries : {A : Type 0} (read : Table → A) → Within R (query o read)
  pub finds : (local project : Text) → Within R (inner_find o local project)
  pub inspects : (id : Text) → Within R (inner_inspect o id)
  pub times : (id : Text) (seconds : ℤ) → Within R (inner_set_timeout o id seconds)
  pub deletes : (id : Text) → Within R (inner_delete o id)

module _ {R : World → World → Type 0} (chain : Chained R) where
  pub pure-Within : {A : Type 0} (a : A) → Within R (pure a)
  unfolding pure
  pure-Within a = record { at = chain.same }

  pub raise-Within : {A : Type 0} (e : Error) → Within R (raise {A = A} e)
  unfolding raise
  raise-Within e = record { at = chain.same }

  pub now-Within : (o : Outside) → Within R (now o)
  unfolding now
  now-Within o = record { at = chain.same }

  resumed :
      {A B : Type 0} (next : A → Exec B) (u : World) (out : World × Result Error A)
      → R u out.0
      → ((a : A) → Within R (next a))
      → R u (resume next out).0
  unfolding resume
  resumed next u (w, ok a) r k = chain.along r ((k a).at w)
  resumed next u (w, err e) r k = r

  pub bind-Within :
      {A B : Type 0} (m : Exec A) (next : A → Exec B)
      → Within R m
      → ((a : A) → Within R (next a))
      → Within R (m >>= next)
  unfolding ◌>>=◌ resume
  bind-Within m next first k = record { at = λ w. resumed next w (m w) (first.at w) k }

  pub then-Within :
      {A B : Type 0} (m : Exec A) (next : Exec B)
      → Within R m
      → Within R next
      → Within R (m >> next)
  unfolding ◌>>◌
  then-Within m next first k = bind-Within m (λ _. next) first (λ _. k)

  settled_lem :
      {A : Type 0} (u : World) (out : World × Result Error A) → R u out.0 → R u (settled out).0
  unfolding settled
  settled_lem u (w, r) h = h

  pub attempt-Within : {A : Type 0} (m : Exec A) → Within R m → Within R (attempt m)
  unfolding attempt settled
  attempt-Within m h = record { at = λ w. settled_lem w (m w) (h.at w) }

  pub whether-Within :
      {A : Type 0} (b : Bool) (m n : Exec A) → Within R m → Within R n → Within R (whether b m n)
  unfolding whether
  whether-Within true m n h k = h
  whether-Within false m n h k = k

  pub of_inner-Within : {A : Type 0} (r : Result BackendError A) → Within R (of_inner r)
  unfolding of_inner
  of_inner-Within (ok a) = pure-Within a
  of_inner-Within (err e) = raise-Within (inner e)

  pub unless_missing-Within :
      (r : Result BackendError (Unit {0})) (why : Error) → Within R (unless_missing r why)
  unfolding unless_missing
  unless_missing-Within (ok u) why = pure-Within tt
  unless_missing-Within (err not_found) why = pure-Within tt
  unless_missing-Within (err failing) why = raise-Within why

  pub expect-Within : (b : Bool) (why : Error) → Within R (expect b why)
  unfolding expect
  expect-Within true why = pure-Within tt
  expect-Within false why = raise-Within why

module _ {o : Outside} {c : Config} {R : World → World → Type 0} (atoms : Atoms o c R) where
  pub mark_available-Within : (id backend_id : Text) → Within R (mark_available o id backend_id)
  mark_available-Within = atoms.publishes

  pub begin_claim-Within : (p s : Text) (ttl : ℤ) → Within R (begin_claim o p s ttl)
  begin_claim-Within = atoms.claims

  pub finish_claim-Within : (id p s : Text) → Within R (finish_claim o id p s)
  finish_claim-Within = atoms.confirms

  pub mark_deleting-Within : (id : Text) (from : SlotState) → Within R (mark_deleting o id from)
  mark_deleting-Within = atoms.quarantines

  pub retire_available-Within : (id : Text) → Within R (retire_available o id)
  unfolding retire_available
  retire_available-Within id = atoms.quarantines id available

  pub remove-Within : (id : Text) → Within R (remove o id)
  remove-Within = atoms.removes

  pub find_claim-Within : (p s : Text) → Within R (find_claim o p s)
  unfolding find_claim
  find_claim-Within p s = atoms.queries _

  pub find_backend-Within : (id : Text) → Within R (find_backend o id)
  unfolding find_backend
  find_backend-Within id = atoms.queries _

  pub list_states-Within : (states : List SlotState) → Within R (list_states o states)
  unfolding list_states
  list_states-Within states = atoms.queries _

  pub inner_find-Within : (local project : Text) → Within R (inner_find o local project)
  inner_find-Within = atoms.finds

  pub inner_inspect-Within : (id : Text) → Within R (inner_inspect o id)
  inner_inspect-Within = atoms.inspects

  pub inner_set_timeout-Within : (id : Text) (n : ℤ) → Within R (inner_set_timeout o id n)
  inner_set_timeout-Within = atoms.times

  pub inner_delete-Within : (id : Text) → Within R (inner_delete o id)
  inner_delete-Within = atoms.deletes

pub ruleset blocks = (
  pure-Within, raise-Within, now-Within, bind-Within, then-Within, attempt-Within, whether-Within,
  of_inner-Within, unless_missing-Within, expect-Within, mark_available-Within, begin_claim-Within,
  finish_claim-Within, mark_deleting-Within, retire_available-Within, remove-Within,
  find_claim-Within, find_backend-Within, list_states-Within, inner_find-Within,
  inner_inspect-Within, inner_set_timeout-Within, inner_delete-Within,
)
