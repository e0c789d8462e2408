-- ===== src/Ledger/Disk.antt =====
-- persist, Open, decodeAndValidate and checksumState of nodeledger, over one file whose content
-- the ledger replaces whole. encoding/json and crypto/sha256 are the record `Codec`.
use brezel.Common.{
  ℕ, Bool, false, ◌&&◌, ◌||◌, List, Option, none, some, leb, ◌==◌, nat_eq, if◌then◌else◌, length,
  Result, ok, err, ◌>>=◌, ◌>>◌, require, or_fail, Text, text_eq, hex_encode, hex_decode,
}
use brezel.Ledger.Types.{
  DiskState, DiskEnvelope, Problem, Error, corrupt, invalid, invalid_state, bad_identity,
  bad_engine, disk_failure, max_ledger_bytes,
}
use brezel.Ledger.Checks.{validate_disk_state}

-- json.Marshal of a state and of an envelope (`none`: an error), sha256.Sum256, the first value
-- that a json.Decoder refusing unknown fields reads with the rest of its input, and whether a
-- second Decode of that rest meets io.EOF.
pub record Codec : Type 0 where
  pub marshal_state : DiskState → Option Text
  pub marshal_envelope : DiskEnvelope → Option Text
  pub sum256 : Text → List ℕ
  pub decode : Text → Option (DiskEnvelope × Text)
  pub at_end : Text → Bool

-- The file system calls of persist, in their order.
pub data DiskStep : Type 0 where
  create_temp protect_temp write_temp sync_temp close_temp : DiskStep
  replace open_directory sync_directory : DiskStep

-- Which of the calls fail.
abbrev pub Faults : Type 0
Faults = DiskStep → Bool

-- `errors.Is(err, ErrInvalid)` holds for two of the problems.
unfoldable pub problem_error : Problem → Error
problem_error bad_identity = invalid
problem_error bad_engine = invalid
problem_error p = invalid_state p

unfoldable pub validated : DiskState → Result Error (Unit {0})
validated s = elim (validate_disk_state s) [ ok u ↦ ok tt | err p ↦ err (problem_error p) ]

-- The calls up to os.Rename leave the file alone, and the two after it find it replaced.
unfoldable pub before_replace : Faults → Bool
before_replace fails =
    fails create_temp
    || (fails protect_temp
        || (fails write_temp || (fails sync_temp || (fails close_temp || fails replace))))

unfoldable pub write_file : Faults → Text → Option Text → Option Text × Result Error (Unit {0})
unfolding before_replace
write_file fails bytes disk =
    if before_replace fails
    then (disk, err disk_failure)
    else if fails open_directory || fails sync_directory
    then (some bytes, err disk_failure)
    else (some bytes, ok tt)

unfoldable pub checksum_matches : Text → Text → Bool
checksum_matches want got = elim (hex_decode want) [
  | none ↦ false
  | some w ↦ elim (hex_decode got) [ none ↦ false | some g ↦ length g == 32 && w == g ]
]

module _ (c : Codec) where
  unfoldable pub checksum_state : DiskState → Option Text
  checksum_state s = elim (c.marshal_state s) [
    | none ↦ none
    | some bytes ↦ some (hex_encode (c.sum256 bytes))
  ]

  -- The bytes that persist writes.
  unfoldable pub encoded : DiskState → Result Error Text
  encoded s = do
    validated s
    sum ← or_fail (checksum_state s) disk_failure
    bytes ← or_fail (c.marshal_envelope (record { state = s; checksum = sum })) disk_failure
    require (leb (length bytes) max_ledger_bytes) invalid
    ok bytes

  unfoldable pub persist : Faults → DiskState → Option Text → Option Text × Result Error (Unit {0})
  persist fails s disk = elim (encoded s) [
    | err e ↦ (disk, err e)
    | ok bytes ↦ write_file fails bytes disk
  ]

  unfoldable pub decode_and_validate : Text → Result Error DiskState
  decode_and_validate bytes = do
    (envelope, rest) ← or_fail (c.decode bytes) corrupt
    require (c.at_end rest) corrupt
    want ← or_fail (checksum_state envelope.state) corrupt
    require (checksum_matches want envelope.checksum) corrupt
    elim (validate_disk_state envelope.state) [ ok u ↦ ok envelope.state | err p ↦ err corrupt ]
