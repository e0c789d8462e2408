-- ===== src/Controller/Exclusion.antt =====
-- What the first steps of internal/service's lifecycle actions do, and a record of activity.
use brezel.Common.{
  ◌≡◌, refl, ◌⊎◌, inl, inr, arith, true, false, not, ◌||◌, [], Option, none, some, nat_eq, if_cases,
  length, length-eq-zero, leb, contains, Text, text_eq, Time, before, is_zero, int_beq, pos, Result,
  ok, err, ◌>>◌, >>-eq-ok,
}
use brezel.Domain.States.{
  SandboxState, running, pausing, resuming, deleting, unknown, can_transition,
}
use brezel.Domain.Records.{Sandbox}
use brezel.Store.{State, scoped_key, validate_state, valid_state}
use brezel.Store.Files.{Codec, FileStore, standby_eligible_at}
use brezel.Store.Reachable.{record_sandbox_activity-Valid}
use brezel.Controller.Types.{
  Error, conflict, Service, Outside, require_mutation, same_state, key_of, guests_of,
  has_active_guest_operations,
}
use brezel.Controller.Transitions.{Called, find_sandbox, activity_noted, record_activity}
use brezel.Controller.Actions.{
  Begun, free_to_move, checked, begin_action, begin_delete, dropped, kept, later_activity,
  begin_idle_pause, idle_tests,
}
use brezel.Controller.Writes.{Valid, state_at, activity-state_at}
use brezel.Controller.Worlds.{idly}
use brezel.Controller.Keeping.{Guarded, Starts, refused-Starts, found}
use brezel.Controller.Starting.{begin_transition-Starts, free_lem, checked-Starts, replay-Starts}

pub pausing_lem : can_transition pausing unknown ≡ true
unfolding can_transition
pausing_lem = refl

pub resuming_lem : can_transition resuming unknown ≡ true
unfolding can_transition
resuming_lem = refl

deleting_lem : can_transition deleting unknown ≡ true
unfolding can_transition
deleting_lem = refl

module _ (c : Codec) (o : Outside) where
  pub begin_action-Starts :
      (s : Service) (project id key kind : Text) (from transitional : SandboxState)
      → Valid s.files
      → can_transition transitional unknown ≡ true
      → Starts (scoped_key project id) s (begin_action c o s project id key kind from transitional)
  unfolding begin_action
  begin_action-Starts s project id key kind from transitional valid leaves =
      let place = scoped_key project id in
      checked-Starts c o place s (require_mutation project key >> find_sandbox s project id) _ valid
        λ sandbox h. replay-Starts c o place s sandbox _ _ valid (
          checked-Starts c o place s (free_to_move s project id (same_state sandbox.state from)) _
            valid
            λ u f.
              let (new, none_) = free_lem c o s project id (same_state sandbox.state from) f in
              let own =
                found s project id sandbox valid (>>-eq-ok (require_mutation project key) _ h).1 in
              begin_transition-Starts c o s project id sandbox key _ transitional valid new none_
                own.0 own.1 leaves)

  pub begin_delete-Starts :
      (s : Service) (project id key : Text)
      → Valid s.files
      → Starts (scoped_key project id) s (begin_delete c o s project id key)
  unfolding begin_delete
  begin_delete-Starts s project id key valid =
      let place = scoped_key project id in
      checked-Starts c o place s (require_mutation project key >> find_sandbox s project id) _ valid
        λ sandbox h. replay-Starts c o place s sandbox _ _ valid (
          checked-Starts c o place s (free_to_move s project id _) _ valid λ u f.
            let (new, none_) = free_lem c o s project id _ f in
            let own =
              found s project id sandbox valid (>>-eq-ok (require_mutation project key) _ h).1 in
            begin_transition-Starts c o s project id _ key _ _ valid new none_ own.0 own.1
              deleting_lem)

  -- The activity of a sandbox.
  recorded_lem :
      (s : Service) (key : Text) (out : FileStore × Result brezel.Store.Error Sandbox)
      → Valid out.0
      → ((k : Text) → state_at k out.0 ≡ state_at k s.files)
      → Valid (activity_noted c s key out).0.files
        × ((k : Text) → Guarded k s (activity_noted c s key out).0)
        × ((k : Text) → state_at k (activity_noted c s key out).0.files ≡ state_at k s.files)
  unfolding activity_noted guests_of
  recorded_lem s key (files, ok v) valid states = (valid, λ k h. (h, λ g. g, states k), states)
  recorded_lem s key (files, err e) valid states = (valid, λ k h. (h, λ g. g, states k), states)

  pub activity_lem :
      (s : Service) (project id : Text) (at : Time)
      → Valid s.files
      → Valid (record_activity c o s project id at).0.files
        × ((k : Text) → Guarded k s (record_activity c o s project id at).0)
        × ((k : Text)
            → state_at k (record_activity c o s project id at).0.files ≡ state_at k s.files)
  unfolding record_activity
  activity_lem s project id at valid =
      recorded_lem s (scoped_key project id) _
        (record_sandbox_activity-Valid c o.fails s.files project id at valid)
        (λ k. activity-state_at c o.fails s.files project id at k)

  dropped-Starts :
      {A : Type 0} (key : Text) (s : Service) (out : Called A)
      → Valid out.0.files
      → ((k : Text) → Guarded k s out.0)
      → ((k : Text) → state_at k out.0.files ≡ state_at k s.files)
      → Starts key s (idly (dropped c out))
  unfolding idly dropped
  dropped-Starts key s (t, ok a) valid g same = record {
    legal = λ k. inl (same k);
    valid = valid;
    guarded = g;
    fresh = λ sandbox op h. absurd cc;
  }
  dropped-Starts key s (t, err e) valid g same = record {
    legal = λ k. inl (same k);
    valid = valid;
    guarded = g;
    fresh = λ sandbox op h. absurd cc;
  }

  kept-Starts :
      (key : Text) (s : Service) (out : Called Begun)
      → Starts key s out
      → Starts key s (idly (kept c out))
  unfolding idly kept
  kept-Starts key s (t, ok b) h = h
  kept-Starts key s (t, err e) h = h

  nothing-Starts :
      (key : Text) (s : Service) (e : Result Error (Option Begun))
      → Valid s.files
      → (e ≡ ok none) ⊎ ((why : Error) × (e ≡ err why))
      → Starts key s (idly (s, e))
  unfolding idly
  nothing-Starts key s (ok none) valid quiet = refused-Starts key s conflict valid
  nothing-Starts key s (ok (some b)) valid (inl h) = absurd cc
  nothing-Starts key s (ok (some b)) valid (inr h) = absurd (ground (arith, h.1))
  nothing-Starts key s (err e) valid quiet = refused-Starts key s e valid

  idle_pause-Starts :
      (s : Service) (project id key : Text) (sandbox : Sandbox)
      → Valid s.files
      → contains (scoped_key project id) s.active_backend_mutations ≡ false
      → guests_of s (scoped_key project id) ≡ []
      → key_of sandbox ≡ scoped_key project id
      → state_at (scoped_key project id) s.files ≡ some sandbox.state
      → Starts (scoped_key project id) s (idly (begin_idle_pause c o s project id key sandbox))
  unfolding begin_idle_pause
  idle_pause-Starts s project id key sandbox valid new none_ own was =
      let place = scoped_key project id in
      let last = later_activity c s place sandbox in
      let Goal = λ (out : Called (Option Begun)). Starts place s (idly out) in
      if_cases Goal (is_zero last) _ _
        (λ unknown_.
          let (v, g, same) = activity_lem s project id o.now valid in
          dropped-Starts place s (record_activity c o s project id o.now) v g same)
        (λ known.
          if_cases Goal (before o.now (standby_eligible_at sandbox.lifecycle last)) _ _
            (λ early. nothing-Starts place s (ok none) valid (inl refl))
            (λ late. kept-Starts place s _ (
              begin_transition-Starts c o s project id sandbox key _ pausing valid new none_ own was
                pausing_lem)))

  pub idle-Starts :
      (s : Service) (project id key : Text) (r : Result Error Sandbox)
      → Valid s.files
      → find_sandbox s project id ≡ r
      → Starts (scoped_key project id) s (idly (checked s r (idle_tests c o s project id key)))
  unfolding checked idle_tests has_active_guest_operations
  idle-Starts s project id key (err e) valid h =
      nothing-Starts (scoped_key project id) s (err e) valid (inr (e, refl))
  idle-Starts s project id key (ok sandbox) valid h =
      let place = scoped_key project id in
      let Goal = λ (out : Called (Option Begun)). Starts place s (idly out) in
      let nothing = nothing-Starts place s (ok none) valid (inl refl) in
      if_cases Goal
        (not (same_state sandbox.state running)
          || int_beq sandbox.lifecycle.standby_after_seconds (pos 0))
        _ _ (λ e. nothing)
        (λ e.
          if_cases Goal
            (contains place s.active_backend_mutations || leb 1 (length (guests_of s place))) _ _
            (λ busy. nothing)
            (λ free.
              idle_pause-Starts s project id key sandbox valid (ground (arith, free))
                (length-eq-zero (guests_of s place) (ground (arith, free)))
                (found s project id sandbox valid h).0 (found s project id sandbox valid h).1))
