-- ===== src/Controller/Read.antt =====
-- What GetSandbox of internal/service keeps of the sandboxes.
use brezel.Common.{
  ◌≡◌, refl, sym, ◌∙◌, subst, ap, arith, not, ◌&&◌, ◌||◌, [], Option, none, some, nat_eq, ◌==◌,
  if_cases, contains, lookup, Text, text_eq, codes, Time, before, Result, ok, err, ok_injective,
}
use brezel.Domain.States.{SandboxState, deleting, deleted, expired, terminal, can_transition}
use brezel.Domain.Records.{Sandbox, Operation}
use brezel.Store.{State, scoped_key}
use brezel.Store.Files.{Codec, FileStore, update}
use brezel.Controller.Types.{
  Error, Service, Outside, same_state, key_of, has_active_guest_operations, append_event,
  put_sandbox,
}
use brezel.Controller.Transitions.{
  Called, find_sandbox, after_write, moved, plain_write, begin_expiration, mark_unknown, is_target,
}
use brezel.Controller.Actions.{placed}
use brezel.Controller.Repair.{Inspection, absent, unreachable, remote, Answer, is_cleanup}
use brezel.Controller.Reading.{
  succeeded_at, complete_latest_operation, cleaned_write, cleaned_route, cleaned_backend,
  cleaned_found, reconcile_cleanup_for, reconcile_cleanup, expired_then, expire, mark_missing,
  observed_write, told, read_found, read,
}
use brezel.Controller.Writes.{Valid}
use brezel.Controller.Keeping.{Guarded, found}
use brezel.Controller.Committing.{
  Away, Commits, same-Commits, put-Away, plain-Away, written-Commits, begin_expiration-Commits,
}
use brezel.Controller.Stepping.{Settled, Commits-Guarded, Commits-Settled}

succeeded_at-sandboxes :
    (now : Time) (entry : Option (Text × Operation)) (st : State)
    → (succeeded_at now entry st).sandboxes ≡ st.sandboxes
unfolding succeeded_at
succeeded_at-sandboxes now none st = refl
succeeded_at-sandboxes now (some (key, op)) st = refl

completed-sandboxes :
    (project resource prefix : Text) (now : Time) (st : State)
    → (complete_latest_operation project resource prefix now st).sandboxes ≡ st.sandboxes
unfolding complete_latest_operation
completed-sandboxes project resource prefix now st = succeeded_at-sandboxes now _ st

-- Two writes at one key.
Commits-twice : (key : Text) (s t u : Service) → Commits key s t → Commits key t u → Commits key s u
Commits-twice key s t u (first, active, guests) (second, active', guests') =
    ((second.0, λ k other. second.1 k other ∙ first.1 k other), active' ∙ active, guests' ∙ guests)

module _ (c : Codec) where
  mark_unknown-Commits :
      (o : Outside) (s : Service) (v : Sandbox) (code : Text)
      → Valid s.files
      → Commits (key_of v) s (mark_unknown c o s v code).0
  unfolding mark_unknown
  mark_unknown-Commits o s v code valid =
      written-Commits c o s _ (key_of v) _ (plain-Away c o _ (codes "sandbox.unknown") _) valid

  cleaned-Away :
      (o : Outside) (next : Sandbox) (target : SandboxState) (st made : State)
      → Path (Result brezel.Store.Error State) (ok (cleaned_write c o next target st)) (ok made)
      → Away (key_of next) st made
  unfolding cleaned_write append_event put_sandbox
  cleaned-Away o next target st made h k other =
      let put = put_sandbox next st in
      let same : (cleaned_write c o next target st).sandboxes ≡ put.sandboxes =
        if_cases (λ (x : State). x.sandboxes ≡ put.sandboxes) (same_state target deleted)
          (complete_latest_operation next.project_id next.id (codes "delete_sandbox:") o.now put)
          put (λ e. completed-sandboxes next.project_id next.id (codes "delete_sandbox:") o.now put)
          (λ e. refl) in
      ap (λ (x : State). lookup k x.sandboxes) (sym (ok_injective h))
      ∙ (ap (lookup k) same ∙ put-Away (key_of next) next st k other)

  cleaned_route-Commits :
      (o : Outside) (s : Service) (routed : Sandbox) (target : SandboxState) (failure : Option Text)
      → Valid s.files
      → Commits (key_of routed) s (cleaned_route c o s routed target failure).0
  unfolding cleaned_route
  cleaned_route-Commits o s routed target (some code) valid =
      mark_unknown-Commits o s routed _ valid
  cleaned_route-Commits o s routed target none valid =
      let next = moved o target none routed in
      written-Commits c o s next (key_of routed) (λ st. ok (cleaned_write c o next target st))
        (cleaned-Away o next target) valid

  cleaned_backend-Commits :
      (o : Outside) (s : Service) (v : Sandbox) (target : SandboxState) (a : Answer)
      → Valid s.files
      → Commits (key_of v) s (cleaned_backend c o s v target a).0
  unfolding cleaned_backend
  cleaned_backend-Commits o s v target a valid =
      if_cases (λ (out : Called Sandbox). Commits (key_of v) s out.0)
        (not (v.backend_id == []) && a.undeleted) _ _ (λ e. mark_unknown-Commits o s v _ valid)
        (λ e.
          cleaned_route-Commits o s (placed (record a.placement { backend_id = v.backend_id }) v)
            target a.failure valid)

  cleaned_found-Commits :
      (o : Outside) (s : Service) (v : Sandbox) (target : SandboxState) (a : Answer)
      (i : Inspection)
      → Valid s.files
      → Commits (key_of v) s (cleaned_found c o s v target a i).0
  unfolding cleaned_found
  cleaned_found-Commits o s v target a absent valid = cleaned_backend-Commits o s v target a valid
  cleaned_found-Commits o s v target a unreachable valid = mark_unknown-Commits o s v _ valid
  cleaned_found-Commits o s v target a (remote id state) valid =
      cleaned_backend-Commits o s (record v { backend_id = id }) target a valid

  cleanup_for-Commits :
      (o : Outside) (s : Service) (v : Sandbox) (a : Answer) (target : Option SandboxState)
      → Valid s.files
      → Commits (key_of v) s (reconcile_cleanup_for c o s v a target).0
  unfolding reconcile_cleanup_for
  cleanup_for-Commits o s v a none valid = same-Commits (key_of v) s valid
  cleanup_for-Commits o s v a (some target) valid =
      let Goal = λ (out : Called Sandbox). Commits (key_of v) s out.0 in
      if_cases Goal (not (same_state target deleted) && not (same_state target expired)) _ _
        (λ e. same-Commits (key_of v) s valid)
        (λ e.
          if_cases Goal (v.backend_id == []) _ _
            (λ e. cleaned_found-Commits o s v target a a.inspection valid)
            (λ e. cleaned_backend-Commits o s v target a valid))

  after_write-ok :
      {A : Type 0} (s : Service) (a b : A) (out : FileStore × Result brezel.Store.Error (Unit {0}))
      → (after_write s a out).1 ≡ ok b
      → a ≡ b
  unfolding after_write
  after_write-ok s a b (files, ok u) h = ok_injective h
  after_write-ok s a b (files, err e) h = absurd cc

  expiration-key :
      (o : Outside) (s : Service) (v w : Sandbox)
      → (begin_expiration c o s v).1 ≡ ok w
      → key_of w ≡ key_of v
  unfolding begin_expiration
  expiration-key o s v w h =
      let Goal = λ (out : Called Sandbox). out.1 ≡ ok w → key_of w ≡ key_of v in
      let next = record (moved o deleting v.failure v) { cleanup_target = some expired } in
      if_cases Goal (is_target c v.cleanup_target deleted) _ _ (λ e h. absurd cc)
        (λ e.
          if_cases Goal (same_state v.state deleting && is_target c v.cleanup_target expired) _ _
            (λ e h. ap (λ (x : Sandbox). key_of x) (sym (ok_injective h)))
            (λ e.
              if_cases Goal
                (not (same_state v.state deleting) && not (can_transition v.state deleting)) _ _
                (λ e h. absurd cc)
                (λ e h.
                  ap (λ (x : Sandbox). key_of x)
                    (sym (
                      after_write-ok s next w
                        (update c o.fails s.files
                          (λ st. ok (plain_write c o next (codes "sandbox.expiring") none st)))
                        h)))))
        h

  expired_then-Commits :
      (o : Outside) (s : Service) (key : Text) (a : Answer) (out : Called Sandbox)
      → Commits key s out.0
      → ((w : Sandbox) → out.1 ≡ ok w → key_of w ≡ key)
      → Commits key s (expired_then c o a out).0
  unfolding expired_then reconcile_cleanup
  expired_then-Commits o s key a (t, err e) commits own = commits
  expired_then-Commits o s key a (t, ok w) commits own =
      Commits-twice key s t (reconcile_cleanup_for c o t w a w.cleanup_target).0 commits (
        subst (λ k. Commits k t (reconcile_cleanup_for c o t w a w.cleanup_target).0) (own w refl)
          (cleanup_for-Commits o t w a w.cleanup_target commits.0.0))

  told-Commits :
      (o : Outside) (s : Service) (v : Sandbox) (i : Inspection)
      → Valid s.files
      → Commits (key_of v) s (told c o s v i).0
  unfolding told mark_missing observed_write
  told-Commits o s v absent valid =
      written-Commits c o s _ (key_of v) _ (plain-Away c o _ (codes "sandbox.failed") _) valid
  told-Commits o s v unreachable valid = mark_unknown-Commits o s v _ valid
  told-Commits o s v (remote id state) valid =
      if_cases (λ (out : Called Sandbox). Commits (key_of v) s out.0) (same_state state v.state) _ _
        (λ e. same-Commits (key_of v) s valid)
        (λ e.
          written-Commits c o s (moved o state none v) (key_of v) _
            (plain-Away c o (moved o state none v) (codes "sandbox.observed") none) valid)

  -- A step that keeps every locked sandbox and every terminal state.
  abbrev pub Steady : Service → Service → Type 0
  Steady s t = Valid t.files × ((k : Text) → Guarded k s t) × Settled s.files t.files

  same-Steady : (s : Service) → Valid s.files → Steady s s
  same-Steady s valid = (valid, λ k h. (h, (λ g. g), refl), λ k a t h. h)

  read_found-Steady :
      (o : Outside) (s : Service) (project id : Text) (a : Answer) (r : Result Error Sandbox)
      → Valid s.files
      → find_sandbox s project id ≡ r
      → Steady s (read_found c o s project id a r).0
  unfolding read_found expire reconcile_cleanup
  read_found-Steady o s project id a (err e) valid h = same-Steady s valid
  read_found-Steady o s project id a (ok v) valid h =
      let key = scoped_key project id in
      let Goal = λ (out : Called Sandbox). Steady s out.0 in
      let (own, was) = found s project id v valid h in
      if_cases Goal (contains key s.active_backend_mutations || terminal v.state) _ _
        (λ e. same-Steady s valid)
        (λ free.
          let steady : (t : Service) → Commits (key_of v) s t → Steady s t = λ t commits.
            let here = subst (λ k. Commits k s t) own commits in
            (
              here.0.0,
              (λ k. Commits-Guarded key k s t here (ground (arith, free))),
              Commits-Settled key s t v.state here was (ground (arith, free)),
            ) in
          if_cases Goal (is_cleanup c v) _ _
            (λ e. steady _ (cleanup_for-Commits o s v a v.cleanup_target valid))
            (λ e.
              if_cases Goal (not (before o.now v.expires_at)) _ _
                (λ e. steady _ (
                  expired_then-Commits o s (key_of v) a (begin_expiration c o s v)
                    (begin_expiration-Commits c o s v valid) (expiration-key o s v)))
                (λ e.
                  if_cases Goal (v.backend_id == [] || has_active_guest_operations s project id) _ _
                    (λ e. same-Steady s valid)
                    (λ e. steady _ (told-Commits o s v a.inspection valid)))))

  pub read-Steady :
      (o : Outside) (s : Service) (project id : Text) (a : Answer)
      → Valid s.files
      → Steady s (read c o s project id a).0
  unfolding read
  read-Steady o s project id a valid =
      read_found-Steady o s project id a (find_sandbox s project id) valid refl
