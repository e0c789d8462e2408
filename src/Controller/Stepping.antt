-- ===== src/Controller/Stepping.antt =====
-- The parts of a step of internal/service's reconciliation, and what each does to the sandboxes.
use brezel.Common.{
  none, Option, ◌≡◌, refl, sym, ◌∙◌, subst, ap, inl, inr, arith, Bool, true, false, [], some,
  nat_eq, ◌==◌, if_cases, Bool-cases, length-eq-zero, contains, Text, text_eq, text_beq_iff, Result,
  ok, err,
}
use brezel.Domain.States.{SandboxState, terminal}
use brezel.Domain.Records.{Sandbox}
use brezel.Store.{scoped_key}
use brezel.Store.Files.{FileStore}
use brezel.Controller.Types.{
  Error, cancelled, Service, key_of, guests_of, has_active_guest_operations,
}
use brezel.Controller.Transitions.{Called}
use brezel.Controller.Actions.{locked_for}
use brezel.Controller.Repair.{
  failed_or, Next, done, cleanup, observing, routing, missing, cleaning, removing, rerouting,
  is_not_found, if_found, unless_cancelled, done_if, busy, finished, then_cleanup,
}
use brezel.Controller.Writes.{Valid, state_at}
use brezel.Controller.Keeping.{Guarded}
use brezel.Controller.Committing.{Commits}

-- A sandbox in a terminal state stays in it.
abbrev pub Settled : FileStore → FileStore → Type 0
Settled f g =
    (k : Text) (a : SandboxState)
    → terminal a ≡ true
    → state_at k f ≡ some a
    → state_at k g ≡ some a

-- The lock is new and no guest operation runs.
abbrev pub Takes : Service → Service → Text → Type 0
Takes s t key =
    (contains key s.active_backend_mutations ≡ false)
    × (contains key t.active_backend_mutations ≡ true)
    × (guests_of t key ≡ [])

-- What a step has seen to for the one that follows.
abbrev pub After : Service → Service → Text → Next → Type 0
After s t key done = Unit
After s t key cleanup = Unit
After s t key (observing revision backend_id) = Unit
After s t key (routing expected observed state) = key_of observed ≡ key
After s t key (missing v) = Unit
After s t key (cleaning v) = Takes s t key × (key_of v ≡ key)
After s t key (removing v) = Takes s t key × (key_of v ≡ key)
After s t key (rerouting expected observed state) = Takes s t key × (key_of observed ≡ key)

pub record Steps (key : Text) (s : Service) (out : Called Next) : Type 0 where
  pub valid : Valid out.0.files
  pub guarded : (k : Text) → Guarded k s out.0
  pub settled : Settled s.files out.0.files
  pub after : (n : Next) → out.1 ≡ ok n → After s out.0 key n

-- The cases of the parts that every step has.
pub unless_cancelled_cases :
    (Q : Called Next → Type 0) (s : Service) (b : Bool) (rest : Called Next)
    → Q (s, err cancelled)
    → Q rest
    → Q (unless_cancelled s b rest)
unfolding unless_cancelled
unless_cancelled_cases Q s true rest stop go = stop
unless_cancelled_cases Q s false rest stop go = go

pub if_found_cases :
    (Q : Called Next → Type 0) (s : Service) (r : Result Error Sandbox)
    (next : Sandbox → Called Next)
    → Q (s, ok done)
    → ((e : Error) → Q (s, err e))
    → ((v : Sandbox) → r ≡ ok v → Q (next v))
    → Q (if_found s r next)
unfolding if_found
if_found_cases Q s (ok v) next gone failed go = go v refl
if_found_cases Q s (err e) next gone failed go =
    if_cases (λ (x : Result Error Next). Q (s, x)) (is_not_found e) (ok done) (err e) (λ h. gone)
      (λ h. failed e)

pub done_if_cases :
    (Q : Called Next → Type 0) (s : Service) (test : Bool) (rest : Called Next)
    → Q (s, ok done)
    → (test ≡ false → Q rest)
    → Q (done_if s test rest)
done_if_cases Q s test rest stop go = if_cases Q test (s, ok done) rest (λ h. stop) go

pub failed_or_cases :
    (Q : Called Next → Type 0) (failure : Option Text) (bad : Text → Called Next)
    (rest : Called Next)
    → ((code : Text) → Q (bad code))
    → Q rest
    → Q (failed_or failure bad rest)
unfolding failed_or
failed_or_cases Q none bad rest stop go = go
failed_or_cases Q (some code) bad rest stop go = stop code

pub ok-Steps :
    (key : Text) (s : Service) (n : Next) → Valid s.files → After s s key n → Steps key s (s, ok n)
ok-Steps key s n valid after = record {
  valid = valid;
  guarded = λ k h. (h, λ g. g, refl);
  settled = λ k a t h. h;
  after = λ m h. let same : n ≡ m = cc in subst (After s s key) same after;
}

pub err-Steps : (key : Text) (s : Service) (e : Error) → Valid s.files → Steps key s (s, err e)
err-Steps key s e valid = record {
  valid = valid;
  guarded = λ k h. (h, λ g. g, refl);
  settled = λ k a t h. h;
  after = λ m h. absurd cc;
}

-- A write for a sandbox that is not locked and not terminal.
pub Commits-Guarded :
    (key k : Text) (s t : Service)
    → Commits key s t
    → contains key s.active_backend_mutations ≡ false
    → Guarded k s t
unfolding guests_of
Commits-Guarded key k s t (local, active, guests) free locked = (
  ap (contains k) active ∙ locked,
  (λ none_. ap (λ ops. guests_of (record s { active_guest_ops = ops }) k) guests ∙ none_),
  local.1 k
      (λ p. ground (arith, subst (λ x. contains x s.active_backend_mutations ≡ true) p locked)),
)

pub Commits-Settled :
    (key : Text) (s t : Service) (a : SandboxState)
    → Commits key s t
    → state_at key s.files ≡ some a
    → terminal a ≡ false
    → Settled s.files t.files
Commits-Settled key s t a (local, active, guests) was live k b over h =
    elim (Bool-cases (k == key)) [
      | inl here ↦
          let equal : k ≡ key = ground (arith, text_beq_iff k key) in
          let both : some b ≡ some a =
            sym h ∙ subst (λ x. state_at x s.files ≡ some a) (sym equal) was in
          absurd (ground (arith, subst (λ x. terminal x ≡ true) (some_injective both) over))
      | inr elsewhere ↦ local.1 k (λ p. ground (arith, text_beq_iff k key, p)) ∙ h
    ]
  where
    some_injective : {x y : SandboxState} → some x ≡ some y → x ≡ y
    some_injective h = cc

pub Commits-Steps :
    (key : Text) (s : Service) (a : SandboxState) (out : Called Next)
    → Commits key s out.0
    → contains key s.active_backend_mutations ≡ false
    → state_at key s.files ≡ some a
    → terminal a ≡ false
    → ((n : Next) → out.1 ≡ ok n → After s out.0 key n)
    → Steps key s out
Commits-Steps key s a out commits free was live after = record {
  valid = commits.0.0;
  guarded = λ k. Commits-Guarded key k s out.0 commits free;
  settled = Commits-Settled key s out.0 a commits was live;
  after = after;
}

pub finished-after :
    (s : Service) (key : Text) (r : Called (Unit {0})) (n : Next)
    → (finished r).1 ≡ ok n
    → After s (finished r).0 key n
unfolding finished
finished-after s key (t, ok u) n h = let same : done ≡ n = cc in subst (After s t key) same tt
finished-after s key (t, err e) n h = absurd cc

pub finished-service : (r : Called (Unit {0})) → (finished r).0 ≡ r.0
unfolding finished
finished-service (t, ok u) = refl
finished-service (t, err e) = refl

pub cleanup-after :
    (s : Service) (key : Text) (r : Called Sandbox) (n : Next)
    → (then_cleanup r).1 ≡ ok n
    → After s (then_cleanup r).0 key n
unfolding then_cleanup
cleanup-after s key (t, ok u) n h = let same : cleanup ≡ n = cc in subst (After s t key) same tt
cleanup-after s key (t, err e) n h = absurd cc

pub cleanup-service : (r : Called Sandbox) → (then_cleanup r).0 ≡ r.0
unfolding then_cleanup
cleanup-service (t, ok u) = refl
cleanup-service (t, err e) = refl

-- The lock is taken.
pub Takes-Steps :
    (key : Text) (s : Service) (n : Next)
    → Valid s.files
    → (Takes s (locked_for key s) key → After s (locked_for key s) key n)
    → contains key s.active_backend_mutations ≡ false
    → guests_of s key ≡ []
    → Steps key s (locked_for key s, ok n)
unfolding guests_of
Takes-Steps key s n valid after free idle = record {
  valid = valid;
  guarded = λ k locked. (ground (arith, locked), λ g. g, refl);
  settled = λ k a t h. h;
  after = λ m h.
      let same : n ≡ m = cc in
      subst (After s (locked_for key s) key) same
        (after (free, ground (arith, text_beq_iff key key), idle));
}

pub busy_lem :
    (s : Service) (project id : Text)
    → busy s project id ≡ false
    → (contains (scoped_key project id) s.active_backend_mutations ≡ false)
      × (guests_of s (scoped_key project id) ≡ [])
unfolding busy has_active_guest_operations
busy_lem s project id h =
    (ground (arith, h), length-eq-zero (guests_of s (scoped_key project id)) (ground (arith, h)))
