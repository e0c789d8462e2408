-- ===== src/Controller/Serving.antt =====
-- The guest operations of internal/service, which leave the state of every sandbox.
use brezel.Common.{
  ℕ, ◌≡◌, ◌≢◌, refl, subst, arith, true, false, not, List, [], ◌∷◌, nat_eq, if_cases, leb, length,
  contains, insert, lookup-insert, lookup-delete, Text, text_eq, text_beq_iff, Time, int_lt, pos,
  Result, ok, err, require, require-ok, >>-eq-ok,
}
use brezel.Domain.Records.{Sandbox}
use brezel.Store.{scoped_key}
use brezel.Store.Files.{Codec}
use brezel.Controller.Types.{Error, conflict, Service, Outside, guests_of}
use brezel.Controller.Transitions.{Called, record_activity}
use brezel.Controller.Actions.{remove_key, checked}
use brezel.Controller.Guests.{
  may_serve, registered, started_at, record_start, acquired, acquire_guest_operation, unregistered,
  record_release, release_guest_operation,
}
use brezel.Controller.Writes.{Valid, state_at}
use brezel.Controller.Keeping.{Guarded}
use brezel.Controller.Exclusion.{activity_lem}

-- A step that changes no sandbox's state and leaves the locked ones locked.
abbrev pub Quiet : Service → Service → Type 0
Quiet s t =
    Valid t.files
    × ((k : Text) → Guarded k s t)
    × ((k : Text) → state_at k t.files ≡ state_at k s.files)

module _ (c : Codec) (o : Outside) where
  Quiet-same : (s : Service) → Valid s.files → Quiet s s
  Quiet-same s valid = (valid, λ k h. (h, λ none_. none_, refl), λ k. refl)

  checked_cases :
      {A B : Type 0} (Q : Service → Type 0) (s : Service) (r : Result Error A) (next : A → Called B)
      → Q s
      → ((a : A) → r ≡ ok a → Q (next a).0)
      → Q (checked s r next).0
  unfolding checked
  checked_cases Q s (ok a) next q f = f a refl
  checked_cases Q s (err e) next q f = q

  started_at-Quiet :
      (s : Service) (key : Text) (at : Time) (out : Called Sandbox)
      → Quiet s out.0
      → Quiet s (started_at c key at out).0
  unfolding started_at guests_of
  started_at-Quiet s key at (t, ok v) q = q
  started_at-Quiet s key at (t, err e) q = q

  record_start-Quiet :
      (s : Service) (project id : Text) (sandbox : Sandbox)
      → Valid s.files
      → Quiet s (record_start c o s project id sandbox).0
  unfolding record_start
  record_start-Quiet s project id sandbox valid =
      if_cases (λ (out : Called Sandbox). Quiet s out.0)
        (int_lt (pos 0) sandbox.lifecycle.standby_after_seconds) _ _
        (λ e.
          started_at-Quiet s (scoped_key project id) o.now (record_activity c o s project id o.now)
            (activity_lem c o s project id o.now valid))
        (λ e. Quiet-same s valid)

  acquired-Quiet :
      (s : Service) (project id operation : Text) (out : Called Sandbox)
      → contains (scoped_key project id) s.active_backend_mutations ≡ false
      → Quiet s out.0
      → Quiet s (acquired c project id operation out).0
  unfolding acquired registered guests_of
  acquired-Quiet s project id operation (t, err e) free q = q
  acquired-Quiet s project id operation (t, ok v) free q = (
    q.0,
    λ k locked.
        let kept = q.1 k locked in
        let other : k ≢ scoped_key project id =
          λ p. ground (arith, subst (λ x. contains x s.active_backend_mutations ≡ true) p locked) in
        (
          kept.0,
          λ none_.
              let was = kept.1 none_ in
              ground (
                arith,
                was,
                lookup-insert (scoped_key project id) k
                    (operation ∷ remove_key operation (guests_of t (scoped_key project id)))
                    t.active_guest_ops,
                text_beq_iff k (scoped_key project id),
                other,
              ),
          kept.2,
        ),
    q.2,
  )

  may_serve_lem :
      (s : Service) (limit : ℕ) (project id : Text) (sandbox : Sandbox)
      → may_serve c o s limit project id sandbox ≡ ok tt
      → contains (scoped_key project id) s.active_backend_mutations ≡ false
  unfolding may_serve
  may_serve_lem s limit project id sandbox h =
      let first =
        require-ok (not (contains (scoped_key project id) s.active_backend_mutations)) conflict
          (>>-eq-ok
            (require (not (contains (scoped_key project id) s.active_backend_mutations)) conflict) _
            h).0 in
      ground (arith, first)

  pub acquire-Quiet :
      (s : Service) (limit : ℕ) (project id operation : Text)
      → Valid s.files
      → Quiet s (acquire_guest_operation c o s limit project id operation).0
  unfolding acquire_guest_operation
  acquire-Quiet s limit project id operation valid =
      checked_cases (Quiet s) s _ _ (Quiet-same s valid) λ sandbox h.
        checked_cases (Quiet s) s (may_serve c o s limit project id sandbox) _ (Quiet-same s valid)
          λ u may.
            acquired-Quiet s project id operation (record_start c o s project id sandbox)
              (may_serve_lem s limit project id sandbox may)
              (record_start-Quiet s project id sandbox valid)

  record_release-Quiet :
      (s : Service) (project id : Text) (sandbox : Sandbox)
      → Valid s.files
      → Quiet s (record_release c o s project id sandbox)
  unfolding record_release guests_of
  record_release-Quiet s project id sandbox valid =
      let noted_ = record s {
        recent_activity = insert (scoped_key project id) o.now s.recent_activity;
      } in
      if_cases (Quiet s) (int_lt (pos 0) sandbox.lifecycle.standby_after_seconds) _ _
        (λ e. activity_lem c o noted_ project id o.now valid) (λ e. Quiet-same s valid)

  unregistered_none :
      (s : Service) (project key operation k : Text)
      → guests_of s k ≡ []
      → guests_of (unregistered c s project key operation) k ≡ []
  unfolding unregistered guests_of remove_key
  unregistered_none s project key operation k none_ =
      let left = remove_key operation (guests_of s key) in
      let Empty_at =
        λ (ops : List (Text × List Text)). guests_of (record s { active_guest_ops = ops }) k ≡ [] in
      if_cases Empty_at (leb (length left) 0) _ _
        (λ e. ground (arith, lookup-delete key k s.active_guest_ops, none_))
        (λ e.
          let other : k ≢ key = λ p.
            let gone : guests_of s key ≡ [] = subst (λ x. guests_of s x ≡ []) p none_ in
            ground
              (arith, subst (λ ids. leb (length (remove_key operation ids)) 0 ≡ false) gone e) in
          ground
            (arith, none_, other, lookup-insert key k left s.active_guest_ops, text_beq_iff k key))

  pub release-Quiet :
      (s : Service) (project id operation : Text) (sandbox : Sandbox)
      → Valid s.files
      → Quiet s (release_guest_operation c o s project id operation sandbox)
  unfolding release_guest_operation unregistered
  release-Quiet s project id operation sandbox valid =
      let (v, g, same) = record_release-Quiet s project id sandbox valid in
      (
        v,
        λ k locked.
            let kept = g k locked in
            (
              kept.0,
              λ none_.
                  unregistered_none (record_release c o s project id sandbox) project
                    (scoped_key project id) operation k (kept.1 none_),
              kept.2,
            ),
        same,
      )
