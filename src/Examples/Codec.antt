-- ===== src/Examples/Codec.antt =====
-- A codec of ledger files in place of encoding/json: texts with their lengths in front, and the
-- entries of the map with their number in front.
use brezel.Common.{
  ℕ, zero, suc, ◌≡◌, refl, subst, Keyed, insert, insert-Keyed, false, List, [], ◌∷◌, ◌++◌, Option,
  none, some, arith, ◌==◌, nat_eq, if◌then◌else◌, length, Result, ok, err, ◌>>=◌, >>=-eq-ok, Text,
  text_eq, Offset, east, west,
}
use brezel.Ledger.Types.{
  State, attaching, ready, draining, standby, released, unrecognised, Error, corrupt, DiskEntry,
  Routes, DiskState, DiskEnvelope,
}
use brezel.Ledger.Disk.{Codec}
use brezel.Ledger.Recovery.{CodecLaws}

-- SHA-256 has 32 bytes; here they are all zero.
abbrev pub digest : List ℕ
digest =
    0 ∷ 0 ∷ 0 ∷ 0 ∷ 0 ∷ 0 ∷ 0 ∷ 0 ∷ 0 ∷ 0 ∷ 0 ∷ 0 ∷ 0 ∷ 0 ∷ 0 ∷ 0 ∷ 0 ∷ 0 ∷ 0 ∷ 0 ∷ 0 ∷ 0 ∷ 0 ∷ 0
    ∷ 0 ∷ 0 ∷ 0 ∷ 0 ∷ 0 ∷ 0 ∷ 0 ∷ 0 ∷ []

abbrev pub text_out : Text → Text
text_out t = length t ∷ t

abbrev pub state_out : State → Text
state_out attaching = 0 ∷ []
state_out ready = 1 ∷ []
state_out draining = 2 ∷ []
state_out standby = 3 ∷ []
state_out released = 4 ∷ []
state_out (unrecognised t) = 5 ∷ text_out t

abbrev pub offset_out : Offset → Text
offset_out (east s) = 0 ∷ s ∷ []
offset_out (west s) = 1 ∷ s ∷ []

abbrev pub entry_out : DiskEntry → Text
entry_out e =
    text_out e.route_id
    ++ (text_out e.project_id
        ++ (text_out e.sandbox_id
            ++ (text_out e.engine_id
                ++ e.generation
                  ∷ (state_out e.state
                      ++ e.last_activity.instant ∷ offset_out e.last_activity.offset))))

abbrev pub routes_out : Routes → Text
routes_out [] = []
routes_out ((key, e) ∷ routes) = text_out key ++ (entry_out e ++ routes_out routes)

abbrev pub state_bytes : DiskState → Text
state_bytes s = s.schema_version ∷ s.last_generation ∷ length s.routes ∷ routes_out s.routes

-- What a part is read from: the part with the rest of the input.
abbrev pub Read : Type 0 → Type 0
Read A = Result Error (A × Text)

unfoldable pub number : Text → Read ℕ
number [] = err corrupt
number (n ∷ rest) = ok (n, rest)

unfoldable pub first_bytes : ℕ → Text → Read Text
first_bytes zero rest = ok ([], rest)
first_bytes (suc n) [] = err corrupt
first_bytes (suc n) (b ∷ bytes) = do (t, rest) ← first_bytes n bytes; ok (b ∷ t, rest)

unfoldable pub text_in : Text → Read Text
unfolding number first_bytes
text_in bytes = do (n, rest) ← number bytes; first_bytes n rest

unfoldable pub state_of : ℕ → Text → Read State
unfolding text_in
state_of zero rest = ok (attaching, rest)
state_of (suc zero) rest = ok (ready, rest)
state_of (suc (suc zero)) rest = ok (draining, rest)
state_of (suc (suc (suc zero))) rest = ok (standby, rest)
state_of (suc (suc (suc (suc zero)))) rest = ok (released, rest)
state_of (suc (suc (suc (suc (suc n))))) rest = do
  (t, rest') ← text_in rest
  ok (unrecognised t, rest')

unfoldable pub state_in : Text → Read State
unfolding number state_of
state_in bytes = do (n, rest) ← number bytes; state_of n rest

unfoldable pub offset_in : Text → Read Offset
unfolding number
offset_in bytes = do
  (side, b) ← number bytes
  (s, rest) ← number b
  ok (if side == 0 then east s else west s, rest)

unfoldable pub entry_in : Text → Read DiskEntry
unfolding number text_in state_in offset_in
entry_in bytes = do
  (route_id, b) ← text_in bytes
  (project_id, c) ← text_in b
  (sandbox_id, d) ← text_in c
  (engine_id, e) ← text_in d
  (generation, f) ← number e
  (state, g) ← state_in f
  (instant, h) ← number g
  (offset, rest) ← offset_in h
  ok (
    record {
      route_id = route_id;
      project_id = project_id;
      sandbox_id = sandbox_id;
      engine_id = engine_id;
      generation = generation;
      state = state;
      last_activity = record { instant = instant; offset = offset };
    },
    rest,
  )

unfoldable pub routes_in : ℕ → Text → Read Routes
unfolding entry_in text_in
routes_in zero bytes = ok ([], bytes)
routes_in (suc n) bytes = do
  (key, b) ← text_in bytes
  (e, c) ← entry_in b
  (routes, rest) ← routes_in n c
  ok ((key, e) ∷ routes, rest)

-- The entries put into a map one by one.
unfoldable pub filled : Routes → Routes → Routes
filled done [] = done
filled done ((key, e) ∷ routes) = filled (insert key e done) routes

filled-Keyed : (done routes : Routes) → Keyed done → Keyed (filled done routes)
unfolding filled
filled-Keyed done [] h = h
filled-Keyed done ((key, e) ∷ routes) h =
    filled-Keyed (insert key e done) routes (insert-Keyed key e done h)

unfoldable pub envelope_in : Text → Read DiskEnvelope
unfolding text_in number routes_in
envelope_in bytes = do
  (checksum, b) ← text_in bytes
  (version, c) ← number b
  (last, d) ← number c
  (n, e) ← number d
  (routes, rest) ← routes_in n e
  ok (
    record {
      state = record {
        schema_version = version;
        last_generation = last;
        routes = filled [] routes;
        routes_nil = false;
      };
      checksum = checksum;
    },
    rest,
  )

abbrev pub found : {A : Type 0} → Read A → Option (A × Text)
found (ok x) = some x
found (err e) = none

abbrev pub sample_codec : Codec
unfolding envelope_in
sample_codec = record {
  marshal_state = λ s. some (state_bytes s);
  marshal_envelope = λ e. some (text_out e.checksum ++ state_bytes e.state);
  sum256 = λ t. digest;
  decode = λ bytes. found (envelope_in bytes);
  at_end = λ rest. length rest == 0;
}

found_cases :
    {A : Type 0} (r : Read A) (a : A) (rest : Text) → found r ≡ some (a, rest) → r ≡ ok (a, rest)
found_cases (ok x) a rest h = ground arith
found_cases (err e) a rest h = absurd cc

pub sample_codec-Keyed :
    (bytes rest : Text) (e : DiskEnvelope)
    → sample_codec.decode bytes ≡ some (e, rest)
    → Keyed e.state.routes
unfolding envelope_in
sample_codec-Keyed bytes rest e h =
    let (checksum, _, h₁) =
      >>=-eq-ok (text_in bytes) _ (found_cases (envelope_in bytes) e rest h) in
    let (version, _, h₂) = >>=-eq-ok (number checksum.1) _ h₁ in
    let (last, _, h₃) = >>=-eq-ok (number version.1) _ h₂ in
    let (n, _, h₄) = >>=-eq-ok (number last.1) _ h₃ in
    let (routes, _, h₅) = >>=-eq-ok (routes_in n.0 n.1) _ h₄ in
    let same : filled [] routes.0 ≡ e.state.routes = ground arith in
    subst Keyed same (filled-Keyed [] routes.0 tt)

pub sample_codec-CodecLaws : CodecLaws sample_codec
unfolding envelope_in text_in number
sample_codec-CodecLaws = record {
  nothing_in_nothing = refl;
  digest_bytes = λ t. omega arith;
  digest_length = λ t. refl;
}
