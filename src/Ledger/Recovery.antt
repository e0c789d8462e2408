-- ===== src/Ledger/Recovery.antt =====
-- What Open finds after a write of nodeledger, completed or cut short.
use brezel.Common.{
  ◌≤◌, ◌<◌, ◌≡◌, ◌≢◌, refl, ap, ◌∙◌, subst, ◌⊎◌, inl, inr, true, ◌||◌, [], none, some, arith,
  nat_eq, if_cases, Option, Option-cases, length, All, Result, ok, err, Result-cases, or_fail,
  >>=-eq-ok, >>-eq-ok, require, Text, text_eq, text_beq_iff, hex_encode, hex_decode,
  hex_decode-encode,
}
use brezel.Ledger.Types.{DiskState, Problem, Error, corrupt, disk_failure, max_ledger_bytes, key_eq}
use brezel.Ledger.Checks.{validate_disk_state}
use brezel.Ledger.Disk.{
  Codec, Faults, open_directory, sync_directory, validated, checksum_state, encoded, before_replace,
  write_file, persist, checksum_matches, decode_and_validate,
}
use brezel.Ledger.Validity.{IsValid, validate_disk_state_iff}
use brezel.Ledger.Invariant.{validated-IsValid}

-- What encoding/json and crypto/sha256 promise: an empty text holds no value, and a digest is 32
-- bytes.
pub record CodecLaws (c : Codec) : Type 0 where
  pub nothing_in_nothing : c.decode [] ≡ none
  pub digest_bytes : (t : Text) → All (λ b. b < 256) (c.sum256 t)
  pub digest_length : (t : Text) → length (c.sum256 t) ≡ 32

-- The text of this state with its checksum, if there is one, is read back as the two with nothing
-- behind it: the state is in the form in which it is decoded.
abbrev pub ReadsBack : Codec → DiskState → Type 0
ReadsBack c s =
    (sum bytes : Text)
    → checksum_state c s ≡ some sum
    → c.marshal_envelope (record { state = s; checksum = sum }) ≡ some bytes
    → (rest : Text) × (c.decode bytes ≡ some (record { state = s; checksum = sum }, rest))
      × (c.at_end rest ≡ true)

pub accepted :
    (r : Result Problem (Unit {0})) (e s : DiskState)
    → (elim r as (λ _. Result Error DiskState) [ ok u ↦ ok e | err p ↦ err corrupt ]) ≡ ok s
    → (r ≡ ok tt) × (e ≡ s)
accepted (ok tt) e s h = (refl, ground arith)
accepted (err p) e s h = cc

-- What the branches of write_file can leave in the file.
abbrev Replaced : Text → Option Text → Option Text × Result Error (Unit {0}) → Type 0
Replaced bytes disk out = ((out.0 ≡ disk) × (out.1 ≡ err disk_failure)) ⊎ (out.0 ≡ some bytes)

write_file-Replaced :
    (fails : Faults) (bytes : Text) (disk : Option Text)
    → Replaced bytes disk (write_file fails bytes disk)
unfolding write_file
write_file-Replaced fails bytes disk =
    if_cases (Replaced bytes disk) (before_replace fails) _ _ (λ _. inl (refl, refl))
      λ _.
        if_cases (Replaced bytes disk) (fails open_directory || fails sync_directory) _ _
          (λ _. inr refl) (λ _. inr refl)

module _ (c : Codec) where
  -- A state that decodes is valid: anything else is refused as corrupt.
  pub decode_and_validate-IsValid :
      (bytes : Text) (s : DiskState) → decode_and_validate c bytes ≡ ok s → IsValid s
  unfolding decode_and_validate
  decode_and_validate-IsValid bytes s h =
      let (found, _, h₁) = >>=-eq-ok (or_fail (c.decode bytes) corrupt) _ h in
      let (_, h₂) = >>-eq-ok (require (c.at_end found.1) corrupt) _ h₁ in
      let (want, _, h₃) = >>=-eq-ok (or_fail (checksum_state c found.0.state) corrupt) _ h₂ in
      let (_, h₄) = >>-eq-ok (require (checksum_matches want found.0.checksum) corrupt) _ h₃ in
      let (valid, same) = accepted (validate_disk_state found.0.state) found.0.state s h₄ in
      subst IsValid same ((validate_disk_state_iff found.0.state).0 valid)

  persist-encoded :
      (fails : Faults) (s : DiskState) (disk : Option Text) (bytes : Text)
      → encoded c s ≡ ok bytes
      → persist c fails s disk ≡ write_file fails bytes disk
  unfolding persist
  persist-encoded fails s disk bytes fine = rw (fine, persist)

  persist-refused :
      (fails : Faults) (s : DiskState) (disk : Option Text) (e : Error)
      → encoded c s ≡ err e
      → persist c fails s disk ≡ (disk, err e)
  unfolding persist
  persist-refused fails s disk e refused = rw (refused, persist)

  -- Whatever fails, the file afterwards is the old one or the whole new one.
  pub persist-atomic :
      (fails : Faults) (s : DiskState) (disk : Option Text)
      → ((persist c fails s disk).0 ≡ disk)
        ⊎ ((bytes : Text) × (encoded c s ≡ ok bytes) × ((persist c fails s disk).0 ≡ some bytes))
  persist-atomic fails s disk = elim (Result-cases (encoded c s)) [
    | inr (e, refused) ↦ inl (ap (λ o. o.0) (persist-refused fails s disk e refused))
    | inl (bytes, fine) ↦
        rw (persist-encoded fails s disk bytes fine) (elim (write_file-Replaced fails bytes disk) [
          | inl kept ↦ inl kept.0
          | inr replaced ↦ inr (bytes, fine, replaced)
        ])
  ]

  -- A persist that reports success has replaced the file.
  pub persist-durable :
      (fails : Faults) (s : DiskState) (disk : Option Text)
      → (persist c fails s disk).1 ≡ ok tt
      → (bytes : Text) × (encoded c s ≡ ok bytes) × ((persist c fails s disk).0 ≡ some bytes)
  persist-durable fails s disk h = elim (Result-cases (encoded c s)) [
    | inr (e, refused) ↦ absurd (ground (arith, persist-refused fails s disk e refused))
    | inl (bytes, fine) ↦
        let same = persist-encoded fails s disk bytes fine in
        elim (write_file-Replaced fails bytes disk) [
          | inl kept ↦ absurd (ground (arith, same))
          | inr replaced ↦ (bytes, fine, ap (λ o. o.0) same ∙ replaced)
        ]
  ]

module _ (c : Codec) (laws : CodecLaws c) where
  checksum_matches_self :
      (s : DiskState) (sum : Text) → checksum_state c s ≡ some sum → checksum_matches sum sum ≡ true
  unfolding checksum_state checksum_matches
  checksum_matches_self s sum h = elim (Option-cases (c.marshal_state s)) [
    | inl missing ↦ absurd (ground arith)
    | inr (t, found) ↦
        let digest = c.sum256 t in
        let spelled : sum ≡ hex_encode digest = ground arith in
        let decoded : hex_decode sum ≡ some digest =
          ap hex_decode spelled ∙ hex_decode-encode digest (laws.digest_bytes t) in
        ground (arith, laws.digest_length t, text_beq_iff digest digest)
  ]

  -- What persist writes is what Open reads.
  pub decode_and_validate-encoded :
      (s : DiskState) (bytes : Text)
      → ReadsBack c s
      → encoded c s ≡ ok bytes
      → (decode_and_validate c bytes ≡ ok s) × (bytes ≢ []) × (length bytes ≤ max_ledger_bytes)
  unfolding encoded decode_and_validate
  decode_and_validate-encoded s bytes reads_back h =
      let (valid, h₁) = >>-eq-ok (validated s) _ h in
      let (sum, summed, h₂) = >>=-eq-ok (or_fail (checksum_state c s) disk_failure) _ h₁ in
      let (out, written, h₃) =
        >>=-eq-ok (or_fail (c.marshal_envelope (record { state = s; checksum = sum })) disk_failure)
          _ h₂ in
      let valid' = (validate_disk_state_iff s).1 (validated-IsValid s valid) in
      let small : length bytes ≤ max_ledger_bytes = ground arith in
      let summed' : checksum_state c s ≡ some sum = ground arith in
      let (rest, read, at_end) = reads_back sum bytes summed' (ground arith) in
      (
        rw read (rw at_end (rw summed' (rw (checksum_matches_self s sum summed') (rw valid')))),
        λ p. cc (laws.nothing_in_nothing, read),
        small,
      )
