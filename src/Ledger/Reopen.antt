-- ===== src/Ledger/Reopen.antt =====
-- Open of nodeledger after a write, and the invariant of what it returns.
use brezel.Common.{
  ◌≡◌, ◌≢◌, refl, subst, ◌⊎◌, inl, inr, true, not, ◌&&◌, [], none, some, arith, ◌==◌, leb, length,
  Option, ok, Result-cases, >>=-eq-ok, >>-eq-ok, or_fail, require, Text, text_eq, text_beq_iff,
  Keyed, lookup,
}
use brezel.Ledger.Types.{DiskState, DiskEnvelope, corrupt, new_disk_state, max_ledger_bytes, key_eq}
use brezel.Ledger.Checks.{validate_disk_state}
use brezel.Ledger.Disk.{
  Codec, Faults, encoded, persist, checksum_state, checksum_matches, decode_and_validate,
}
use brezel.Ledger.Operations.{Ledger, open_ledger, fresh_ledger, active_count}
use brezel.Ledger.Validity.{IsValid}
use brezel.Ledger.Invariant.{Inv}
use brezel.Ledger.Recovery.{
  CodecLaws, ReadsBack, decode_and_validate-IsValid, persist-atomic, persist-durable,
  decode_and_validate-encoded, accepted,
}

abbrev pub opened_at : Option Text → DiskState → Ledger
opened_at disk s = record (fresh_ledger disk) { state = s }

new_disk_state-IsValid : IsValid new_disk_state
new_disk_state-IsValid = record {
  versioned = refl;
  present = refl;
  bounded = omega arith;
  entries = tt;
  apart = tt;
}

module _ (c : Codec) (laws : CodecLaws c) where
  open_encoded :
      (fails : Faults) (s : DiskState) (bytes : Text)
      → ReadsBack c s
      → encoded c s ≡ ok bytes
      → (open_ledger c fails (some bytes)).1 ≡ ok (opened_at (some bytes) s)
  unfolding open_ledger
  open_encoded fails s bytes reads_back fine =
      let (decoded, full, small) = decode_and_validate-encoded c laws s bytes reads_back fine in
      let sized : (not (bytes == []) && leb (length bytes) max_ledger_bytes) ≡ true =
        ground (arith, text_beq_iff bytes []) in
      rw sized (rw decoded)

  -- If a state's text with its checksum is read back as the two with nothing behind, an empty text
  -- holds no value and a digest is 32 bytes, then after a persist of the state in which any of the
  -- file system calls may fail, either the file is what it was and persist has returned an error,
  -- or Open of the file returns a ledger with exactly that state.
  pub open_ledger-persist :
      (fails later : Faults) (s : DiskState) (disk : Option Text)
      → ReadsBack c s
      → (((persist c fails s disk).0 ≡ disk) × ((persist c fails s disk).1 ≢ ok tt))
        ⊎ ((open_ledger c later (persist c fails s disk).0).1
            ≡ ok (opened_at (persist c fails s disk).0 s))
  open_ledger-persist fails later s disk reads_back = elim (persist-outcome) [
    | inl failed ↦ inl failed
    | inr (bytes, fine, replaced) ↦ inr (rw replaced (open_encoded later s bytes reads_back fine))
  ]
    where
      persist-outcome :
          (((persist c fails s disk).0 ≡ disk) × ((persist c fails s disk).1 ≢ ok tt))
          ⊎ ((bytes : Text) × (encoded c s ≡ ok bytes) × ((persist c fails s disk).0 ≡ some bytes))
      persist-outcome = elim (persist-atomic c fails s disk) [
        | inr written ↦ inr written
        | inl kept ↦ elim (Result-cases (persist c fails s disk).1) [
          | inr (e, failed) ↦ inl (kept, λ p. cc)
          | inl (tt', fine) ↦ inr (persist-durable c fails s disk fine)
        ]
      ]

opened_at-Inv :
    (disk : Option Text) (s : DiskState) → IsValid s → Keyed s.routes → Inv (opened_at disk s)
unfolding active_count lookup
opened_at-Inv disk s valid keyed = record {
  well = record { valid = valid; keyed = keyed };
  held = λ key busy. absurd (busy refl);
  drained = λ shut. refl;
}

module _ (c : Codec)
    (maps_keyed : (bytes rest : Text) (envelope : DiskEnvelope)
      → c.decode bytes ≡ some (envelope, rest)
      → Keyed envelope.state.routes) where
  decode_and_validate-Keyed :
      (bytes : Text) (s : DiskState) → decode_and_validate c bytes ≡ ok s → Keyed s.routes
  unfolding decode_and_validate
  decode_and_validate-Keyed bytes s h =
      let (found, read, h₁) = >>=-eq-ok (or_fail (c.decode bytes) corrupt) _ h in
      let (_, h₂) = >>-eq-ok (require (c.at_end found.1) corrupt) _ h₁ in
      let (want, _, h₃) = >>=-eq-ok (or_fail (checksum_state c found.0.state) corrupt) _ h₂ in
      let (_, h₄) = >>-eq-ok (require (checksum_matches want found.0.checksum) corrupt) _ h₃ in
      let (valid, same) = accepted (validate_disk_state found.0.state) found.0.state s h₄ in
      subst (λ (t : DiskState). Keyed t.routes) same
        (maps_keyed bytes found.1 found.0 (ground arith))

  -- If a decoded map has one entry for each key, then whatever bytes Open meets and whichever calls
  -- of the file system fail, a ledger that it returns satisfies the invariant that the ledger's
  -- calls keep: its state is valid with one entry for each route, every key with operations under
  -- way has its route stored, and if it is closed it has none.
  pub open_ledger-Inv :
      (fails : Faults) (disk : Option Text) (l : Ledger)
      → (open_ledger c fails disk).1 ≡ ok l
      → Inv l
  unfolding open_ledger
  open_ledger-Inv fails none l h =
      let (_, made) = >>-eq-ok (persist c fails new_disk_state none).1 _ h in
      let same : opened_at (persist c fails new_disk_state none).0 new_disk_state ≡ l =
        ground arith in
      subst Inv same (opened_at-Inv _ new_disk_state new_disk_state-IsValid tt)
  open_ledger-Inv fails (some bytes) l h =
      let (_, h₁) =
        >>-eq-ok (require (not (bytes == []) && leb (length bytes) max_ledger_bytes) corrupt) _ h in
      let (s, decoded, made) = >>=-eq-ok (decode_and_validate c bytes) _ h₁ in
      let same : opened_at (some bytes) s ≡ l = ground arith in
      subst Inv same (
        opened_at-Inv (some bytes) s (decode_and_validate-IsValid c bytes s decoded)
          (decode_and_validate-Keyed bytes s decoded))
