-- ===== src/Store/Durable.antt =====
-- What an Update of a FileStore leaves in memory and in the file.
use brezel.Common.{
  ◌≡◌, ◌≢◌, refl, sym, ◌∙◌, subst, ap, ◌⊎◌, inl, inr, arith, true, false, not, ◌||◌, Option, some,
  leb, if_cases, length, Text, ℤ, pos, int_beq, Result, ok, err, require, require-ok, or_fail,
  or_fail-ok, >>-eq-ok, >>=-eq-ok, ok_injective,
}
use brezel.Ledger.Disk.{Faults, write_file, before_replace, open_directory, sync_directory}
use brezel.Store.{Error, encode_failed, too_large, State, validate_state, current_schema_version}
use brezel.Store.Files.{
  Codec, FileStore, max_state_bytes, replace_file, failed_disk, written, when_open, Called, held,
  clone_state, encoded, persist, installed, update, migrated, decoded, opened, open_validated,
  open_decoded, open_file,
}

replace_file-ok :
    (fails : Faults) (bytes : Text) (disk d : Option Text)
    → replace_file fails bytes disk ≡ (d, ok tt)
    → d ≡ some bytes
unfolding replace_file write_file failed_disk
replace_file-ok fails bytes disk d h =
    if_cases
      (λ (out : Option Text × Result brezel.Ledger.Types.Error (Unit {0})).
        failed_disk out ≡ (d, ok tt) → d ≡ some bytes)
      (before_replace fails) _ _ (λ e r. absurd cc)
      (λ e.
        if_cases
          (λ (out : Option Text × Result brezel.Ledger.Types.Error (Unit {0})).
            failed_disk out ≡ (d, ok tt) → d ≡ some bytes)
          (fails open_directory || fails sync_directory) _ _ (λ k r. absurd cc)
          (λ k r. sym (ap (λ out. out.0) r)))
      h

module _ (c : Codec) where
  encoded_lem :
      (s : State) (bytes : Text)
      → encoded c s ≡ ok bytes
      → (c.marshal s ≡ some bytes) × (leb (length bytes) max_state_bytes ≡ true)
  unfolding encoded
  encoded_lem s bytes h =
      let (out, made, rest) = >>=-eq-ok (or_fail (c.marshal s) encode_failed) _ h in
      let (fits, same) =
        >>-eq-ok (require (leb (length out) max_state_bytes) too_large) (ok out) rest in
      let equal = ok_injective same in
      (
        or_fail-ok (c.marshal s) encode_failed bytes
            (subst (λ x. or_fail (c.marshal s) encode_failed ≡ ok x) equal made),
        subst (λ x. leb (length x) max_state_bytes ≡ true) equal
            (require-ok (leb (length out) max_state_bytes) too_large fits),
      )

  written-ok :
      (fails : Faults) (disk d : Option Text) (s : State) (r : Result Error Text)
      → encoded c s ≡ r
      → written c fails disk r ≡ (d, ok tt)
      → (bytes : Text) × (d ≡ some bytes)
        × (c.marshal s ≡ some bytes)
        × (leb (length bytes) max_state_bytes ≡ true)
  unfolding written
  written-ok fails disk d s (err e) same k = absurd cc
  written-ok fails disk d s (ok bytes) same k =
      let (out, size) = encoded_lem s bytes same in
      (bytes, replace_file-ok fails bytes disk d k, out, size)

  installed-ok :
      (s t : FileStore) (next : State) (out : Option Text × Result Error (Unit {0}))
      → installed c s next tt out ≡ (t, ok tt)
      → (out ≡ (t.disk, ok tt)) × (t.state ≡ next) × (t.closed ≡ s.closed)
  unfolding installed
  installed-ok s t next (d, ok u) h =
      let same = ap (λ (x : Called (Unit {0})). x.0) h in
      (
        ap (λ (x : FileStore). (x.disk, ok tt)) same,
        sym (ap FileStore.state same),
        sym (ap FileStore.closed same),
      )
  installed-ok s t next (d, err e) h = absurd (ground arith)

  held-ok :
      {A : Type 0} (s t : FileStore) (r : Result Error A) (next : A → Called (Unit {0}))
      → held s r next ≡ (t, ok tt)
      → (a : A) × (r ≡ ok a) × (next a ≡ (t, ok tt))
  unfolding held
  held-ok s t (ok a) next h = (a, refl, h)
  held-ok s t (err e) next h = absurd (ground arith)

  versioned : (s : State) → validate_state s ≡ ok tt → int_beq s.schema_version (pos 0) ≡ false
  unfolding validate_state int_beq
  versioned s valid = of_version s.schema_version (ground arith)
    where
      of_version : (v : ℤ) → int_beq v current_schema_version ≡ true → int_beq v (pos 0) ≡ false
      of_version (pos n) h = ground arith
      of_version (ℤ.negsuc n) h = absurd cc

  reopens :
      (fails : Faults) (s : State) (bytes : Text)
      → c.unmarshal bytes ≡ some s
      → leb (length bytes) max_state_bytes ≡ true
      → validate_state s ≡ ok tt
      → open_file c fails (some bytes)
        ≡ (some bytes, ok (record { state = s; closed = false; disk = some bytes }))
  unfolding open_file decoded open_decoded open_validated opened migrated
  reopens fails s bytes back size valid =
      let read : decoded c bytes ≡ ok s = ground (arith, back, size) in
      let current = versioned s valid in
      let same : migrated c s ≡ s = rw (current, migrated) refl in
      ap (open_decoded c fails bytes) read
      ∙ (ap (open_validated c fails bytes s) (ap validate_state same ∙ valid) ∙ rw current refl)

  update-reopens :
      (fails later : Faults) (s t : FileStore) (fn : State → Result Error State)
      → update c fails s fn ≡ (t, ok tt)
      → ((bytes : Text) → c.marshal t.state ≡ some bytes → c.unmarshal bytes ≡ some t.state)
      → open_file c later t.disk ≡ (t.disk, ok (record t { closed = false }))
  unfolding update when_open persist
  update-reopens fails later s t fn h law =
      let (next, chain, put) =
        held-ok s t _ (λ next. installed c s next tt (persist c fails next s.disk)) h in
      let (open_, opened_) = >>-eq-ok (require (not s.closed) _) _ chain in
      let (copy, copied, rest) = >>=-eq-ok (clone_state c s.state) _ opened_ in
      let (made, called, checks) = >>=-eq-ok (fn copy) _ rest in
      let (valid, same) = >>-eq-ok (validate_state made) (ok made) checks in
      let (wrote, state, closed_) = installed-ok s t next (persist c fails next s.disk) put in
      let (bytes, disk, out, size) =
        written-ok fails s.disk t.disk next (encoded c next) refl wrote in
      let marshalled = subst (λ x. c.marshal x ≡ some bytes) (sym state) out in
      let checked : validate_state t.state ≡ ok tt =
        subst (λ x. validate_state x ≡ ok tt) (ok_injective same ∙ sym state) valid in
      subst
        (λ d. open_file c later d ≡ (d, ok (record { state = t.state; closed = false; disk = d })))
        (sym disk) (reopens later t.state bytes (law bytes marshalled) size checked)

  installed-err :
      (s t : FileStore) (next : State) (out : Option Text × Result Error (Unit {0})) (e : Error)
      → installed c s next tt out ≡ (t, err e)
      → t.state ≡ s.state
  unfolding installed
  installed-err s t next (d, ok u) e h = absurd (ground arith)
  installed-err s t next (d, err f) e h =
      sym (ap (λ (x : Called (Unit {0})). FileStore.state x.0) h)

  held-err :
      {A : Type 0} (s t : FileStore) (r : Result Error A) (next : A → State)
      (out : A → Option Text × Result Error (Unit {0})) (e : Error)
      → held s r (λ a. installed c s (next a) tt (out a)) ≡ (t, err e)
      → t.state ≡ s.state
  unfolding held
  held-err s t (ok a) next out e h = installed-err s t (next a) (out a) e h
  held-err s t (err f) next out e h = sym (ap (λ (x : Called (Unit {0})). FileStore.state x.0) h)

  -- An Update that succeeds leaves a file from which OpenFile reads the state of the store, if
  -- encoding/json reads back what it wrote of that state; and one that fails, in the function, in
  -- the validation or in the file system, leaves the state that was there.
  pub update-durable :
      (fails later : Faults) (s t : FileStore) (fn : State → Result Error State)
      (r : Result Error (Unit {0}))
      → update c fails s fn ≡ (t, r)
      → ((bytes : Text) → c.marshal t.state ≡ some bytes → c.unmarshal bytes ≡ some t.state)
      → ((r ≡ ok tt) × (open_file c later t.disk ≡ (t.disk, ok (record t { closed = false }))))
        ⊎ ((r ≢ ok tt) × (t.state ≡ s.state))
  unfolding update
  update-durable fails later s t fn (ok u) h law =
      inl (refl, update-reopens fails later s t fn h law)
  update-durable fails later s t fn (err e) h law =
      inr (λ p. cc, held-err s t _ (λ next. next) (λ next. persist c fails next s.disk) e h)
