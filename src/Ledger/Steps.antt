-- ===== src/Ledger/Steps.antt =====
-- The ledger as a transition system: one step for each call of a method that changes it.
use brezel.Common.{
  ℕ, ◌≡◌, refl, true, false, not, ◌&&◌, ◌||◌, arith, ◌==◌, nat_eq, Result, ok, err, require, Text,
  text_eq, Time, is_zero, is_utc_offset, Option, safe_name,
}
use brezel.Ledger.Types.{
  State, standby, ready, draining, released, state_eq, state_beq_iff, DiskState, DiskEntry,
  OperationKey, key_eq, Error, ledger_closed, invalid, illegal_transition,
}
use brezel.Ledger.Checks.{
  valid_state, valid_engine_id, valid_route_identity, validate_route_input, normalize_activity,
  clone_disk_state,
}
use brezel.Ledger.Disk.{Codec, Faults, validated, persist}
use brezel.Ledger.Operations.{
  Ledger, Change, bind_change, rebind_change, transition_change, touch_change, remove_change,
  commit, refuse, update, bind, rebind, transition, touch, remove,
}
use brezel.Ledger.Leases.{acquire_operation, release_operation, close}

-- A refused call leaves the ledger as it was.
pub refuse_cases {ℓ} :
    {A B : Type 0} (Q : Ledger → Type ℓ) (l : Ledger) (r : Result Error B)
    (f : B → Ledger × Result Error A)
    → Q l
    → ((b : B) → r ≡ ok b → Q (f b).0)
    → Q (refuse l r f).0
unfolding refuse
refuse_cases Q l (err e) f kept went = kept
refuse_cases Q l (ok b) f kept went = went b refl

pub refuse_passed :
    {A B : Type 0} (l : Ledger) (r : Result Error B) (b : B) (f : B → Ledger × Result Error A)
    → r ≡ ok b
    → refuse l r f ≡ f b
unfolding refuse
refuse_passed l r b f e = rw (e, refuse)

-- A call that succeeds has passed its checks.
pub refuse_ok :
    {A B : Type 0} (l m : Ledger) (r : Result Error B) (f : B → Ledger × Result Error A) {a : A}
    → refuse l r f ≡ (m, ok a)
    → (b : B) × (r ≡ ok b) × (f b ≡ (m, ok a))
unfolding refuse
refuse_ok l m (ok b) f h = (b, refl, h)
refuse_ok l m (err e) f h = absurd (ground arith)

commit_cases {ℓ} :
    {A : Type 0} (Q : Ledger → Type ℓ) (l : Ledger) (next : DiskState) (a : A)
    (out : Option Text × Result Error (Unit {0}))
    → ((d : Option Text) → Q (record l { disk = d }))
    → ((d : Option Text) → Q (record l { state = next; disk = d }))
    → Q (commit l next a out).0
unfolding commit
commit_cases Q l next a (d, ok u) kept went = went d
commit_cases Q l next a (d, err e) kept went = kept d

-- The changes that the methods make to the state, with the input checks that each has passed.
pub data Effect (l : Ledger) (next : DiskState) : Type 0 where
  bound :
      (route project sandbox engine : Text) (at : Time) (e : DiskEntry)
      → valid_route_identity route project sandbox ≡ true
      → valid_engine_id engine ≡ true
      → is_zero at ≡ false
      → is_utc_offset at.offset ≡ true
      → bind_change route project sandbox engine at (clone_disk_state l.state) ≡ ok (next, e)
      → Effect l next
  rebound :
      (route : Text) (expected : ℕ) (state : State) (engine : Text) (at : Time) (e : DiskEntry)
      → state ≡ standby
      → valid_engine_id engine ≡ true
      → is_zero at ≡ false
      → is_utc_offset at.offset ≡ true
      → rebind_change route expected state engine at (clone_disk_state l.state) ≡ ok (next, e)
      → Effect l next
  moved :
      (route : Text) (expected : ℕ) (from to : State) (e : DiskEntry)
      → transition_change l.active route expected from to (clone_disk_state l.state) ≡ ok (next, e)
      → Effect l next
  touched :
      (route : Text) (expected : ℕ) (state : State) (at : Time) (e : DiskEntry)
      → is_zero at ≡ false
      → is_utc_offset at.offset ≡ true
      → touch_change route expected state at (clone_disk_state l.state) ≡ ok (next, e)
      → Effect l next
  removed :
      (route : Text) (expected : ℕ) (state : State)
      → state ≡ released
      → remove_change route expected state (clone_disk_state l.state) ≡ ok (next, tt)
      → Effect l next

-- The ledger after a call of a method that writes the file: as before but for the file, or with
-- one of the changes in it.
pub data Outcome (l : Ledger) : Ledger → Type 0 where
  unchanged : (d : Option Text) → Outcome l (record l { disk = d })
  changed :
      (next : DiskState) (d : Option Text)
      → l.closed ≡ false
      → Effect l next
      → validated next ≡ ok tt
      → Outcome l (record l { state = next; disk = d })

normalize_activity-utc :
    (at at' : Time)
    → normalize_activity at ≡ ok at'
    → (is_zero at' ≡ false) × (is_utc_offset at'.offset ≡ true)
unfolding normalize_activity
normalize_activity-utc at at' h = (ground arith, ground arith)

module _ (c : Codec) where
  -- An update changes the state only to what its function made of it.
  pub update_cases {ℓ} :
      {A : Type 0} (Q : Ledger → Type ℓ) (fails : Faults) (l : Ledger) (fn : Change A)
      → ((d : Option Text) → Q (record l { disk = d }))
      → ((next : DiskState) (a : A) (d : Option Text)
          → l.closed ≡ false
          → fn (clone_disk_state l.state) ≡ ok (next, a)
          → validated next ≡ ok tt
          → Q (record l { state = next; disk = d }))
      → Q (update c fails l fn).0
  unfolding update
  update_cases Q fails l fn kept went =
      refuse_cases Q l (require (not l.closed) ledger_closed) _ (kept l.disk) λ o live.
        refuse_cases Q l (fn (clone_disk_state l.state)) _ (kept l.disk) λ (next, a) e.
          refuse_cases Q l (validated next) _ (kept l.disk) λ u v.
            commit_cases Q l next a (persist c fails next l.disk) kept
              (λ d. went next a d (ground arith) e v)

  -- A call of a method, by the ledger after it.
  pub data Step (l : Ledger) : Ledger → Type 0 where
    binds :
        (fails : Faults) (route project sandbox engine : Text) (at : Time)
        → Step l (bind c fails l route project sandbox engine at).0
    rebinds :
        (fails : Faults) (route : Text) (expected : ℕ) (state : State) (engine : Text) (at : Time)
        → Step l (rebind c fails l route expected state engine at).0
    transitions :
        (fails : Faults) (route : Text) (expected : ℕ) (from to : State)
        → Step l (transition c fails l route expected from to).0
    touches :
        (fails : Faults) (route : Text) (expected : ℕ) (state : State) (at : Time)
        → Step l (touch c fails l route expected state at).0
    removes :
        (fails : Faults) (route : Text) (expected : ℕ) (state : State)
        → Step l (remove c fails l route expected state).0
    acquires :
        (route project sandbox : Text) (expected : ℕ)
        → Step l (acquire_operation l route project sandbox expected).0
    releases : (key : OperationKey) → Step l (release_operation l key).0
    closes : Step l (close l).0

  pub data Reach (l : Ledger) : Ledger → Type 0 where
    here : Reach l l
    next : {m n : Ledger} → Reach l m → Step m n → Reach l n

  update-Outcome :
      {A : Type 0} (fails : Faults) (l : Ledger) (fn : Change A)
      → ((next : DiskState) (a : A) → fn (clone_disk_state l.state) ≡ ok (next, a) → Effect l next)
      → Outcome l (update c fails l fn).0
  update-Outcome fails l fn effect =
      update_cases (Outcome l) fails l fn unchanged
        λ next a d live e v. changed next d live (effect next a e) v

  refused : (l : Ledger) → Outcome l l
  refused l = unchanged l.disk

  pub bind-Outcome :
      (fails : Faults) (l : Ledger) (route project sandbox engine : Text) (at : Time)
      → Outcome l (bind c fails l route project sandbox engine at).0
  unfolding bind validate_route_input
  bind-Outcome fails l route project sandbox engine at =
      refuse_cases (Outcome l) l (validate_route_input route project sandbox engine) _ (refused l)
        λ o ids. refuse_cases (Outcome l) l (normalize_activity at) _ (refused l) λ at' time.
          let (timed, in_utc) = normalize_activity-utc at at' time in
          update-Outcome fails l (bind_change route project sandbox engine at') λ next e h.
            bound route project sandbox engine at' e (ground arith) (ground arith) timed in_utc h

  pub rebind-Outcome :
      (fails : Faults) (l : Ledger) (route : Text) (expected : ℕ) (state : State) (engine : Text)
      (at : Time)
      → Outcome l (rebind c fails l route expected state engine at).0
  unfolding rebind
  rebind-Outcome fails l route expected state engine at =
      refuse_cases (Outcome l) l (require (safe_name route && valid_engine_id engine) invalid) _
        (refused l)
        λ o ids.
          refuse_cases (Outcome l) l (require (state == standby) illegal_transition) _ (refused l)
            λ o' st. refuse_cases (Outcome l) l (normalize_activity at) _ (refused l) λ at' time.
              let (timed, in_utc) = normalize_activity-utc at at' time in
              update-Outcome fails l (rebind_change route expected state engine at') λ next e h.
                rebound route expected state engine at' e
                  (ground (arith, state_beq_iff state standby)) (ground arith) timed in_utc h

  pub transition-Outcome :
      (fails : Faults) (l : Ledger) (route : Text) (expected : ℕ) (from to : State)
      → Outcome l (transition c fails l route expected from to).0
  unfolding transition
  transition-Outcome fails l route expected from to =
      refuse_cases (Outcome l) l
        (require (safe_name route && (valid_state from && valid_state to)) invalid) _ (refused l)
        λ o ids.
          update-Outcome fails l (transition_change l.active route expected from to)
            λ next e h. moved route expected from to e h

  pub touch-Outcome :
      (fails : Faults) (l : Ledger) (route : Text) (expected : ℕ) (state : State) (at : Time)
      → Outcome l (touch c fails l route expected state at).0
  unfolding touch
  touch-Outcome fails l route expected state at =
      refuse_cases (Outcome l) l
        (require (safe_name route && (state == ready || state == draining)) invalid) _ (refused l)
        λ o ids. refuse_cases (Outcome l) l (normalize_activity at) _ (refused l) λ at' time.
          let (timed, in_utc) = normalize_activity-utc at at' time in
          update-Outcome fails l (touch_change route expected state at')
            λ next e h. touched route expected state at' e timed in_utc h

  pub remove-Outcome :
      (fails : Faults) (l : Ledger) (route : Text) (expected : ℕ) (state : State)
      → Outcome l (remove c fails l route expected state).0
  unfolding remove
  remove-Outcome fails l route expected state =
      refuse_cases (Outcome l) l (require (safe_name route && state == released) invalid) _
        (refused l)
        λ o ids.
          update-Outcome fails l (remove_change route expected state) λ next e h.
            removed route expected state (ground (arith, state_beq_iff state released)) h
