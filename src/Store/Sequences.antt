-- ===== src/Store/Sequences.antt =====
-- The events of a sandbox are numbered upwards, in the order in which they are appended.
use brezel.Common.{
  ℕ, ◌+◌, ◌^◌, ◌<◌, ◌≤◌, ◌≡◌, refl, sym, ◌∙◌, subst, inl, inr, arith, true, false, not, ◌&&◌, List,
  [], ◌∷◌, ◌++◌, Option, All, Apart, All-map, if_cases, leb, lookup, Text, text_eq, text_beq_iff, ℤ,
  pos, negsuc, int_lt, int64_add, wrap_int64, Result, ok, err, require, or_fail, >>-eq-ok,
  >>=-eq-ok, ok_injective, Bool-cases,
}
use brezel.Domain.Records.{Event}
use brezel.Ledger.Disk.{Faults}
use brezel.Store.{Error, not_found, State, scoped_key}
use brezel.Store.Files.{
  Codec, FileStore, when_open, held, clone_event_details, persist, installed, in_stream,
  sequence_after, next_sandbox_event_sequence, valid_event, validate_sandbox_event, sandbox_event,
  append_sandbox_event,
}

abbrev pub number : ℤ → ℕ
number (pos n) = n
number (negsuc n) = 0

-- A sequence is a positive int64.
abbrev pub Numbered : Event → Type 0
Numbered e = (1 ≤ number e.sequence) × (number e.sequence < 2 ^ 63)

-- The later of two events of a stream has the larger number.
abbrev pub Follows : Event → Event → Type 0
Follows a b = in_stream a.project_id a.resource_id b ≡ true → number a.sequence < number b.sequence

pub record Ordered (events : List Event) : Type 0 where
  pub numbered : All Numbered events
  pub follows : Apart Follows events

abbrev Below : Text → Text → ℕ → Event → Type 0
Below project resource m e = in_stream project resource e ≡ true → number e.sequence < m

-- A stream without an event leaves the sequence as it is.
sequence_after-none :
    (project resource : Text) (q : ℤ) (events : List Event)
    → All (λ e. in_stream project resource e ≡ false) events
    → sequence_after project resource q events ≡ q
unfolding sequence_after
sequence_after-none project resource q [] h = refl
sequence_after-none project resource q (e ∷ events) h =
    ground (arith, sequence_after-none project resource q events h.1)

followers :
    (project resource : Text) (e : Event) (events : List Event)
    → in_stream project resource e ≡ true
    → 2 ^ 63 ≤ number e.sequence + 1
    → All Numbered events
    → All (Follows e) events
    → All (λ b. in_stream project resource b ≡ false) events
unfolding in_stream
followers project resource e [] here big n f = tt
followers project resource e (b ∷ events) here big n f = (
  elim (Bool-cases (in_stream project resource b)) [
    | inl there ↦
        let after = f.0 (
          ground (arith, text_beq_iff e.project_id project, text_beq_iff e.resource_id resource)) in
        absurd (omega arith)
    | inr elsewhere ↦ elsewhere
  ],
  followers project resource e events here big n.1 f.1,
)

next_int64 : (n : ℕ) → n + 1 < 2 ^ 63 → int64_add (pos n) (pos 1) ≡ pos (n + 1)
unfolding int64_add wrap_int64
next_int64 n h = ground arith

wrapped_int64 :
    (n : ℕ) → n < 2 ^ 63 → 2 ^ 63 ≤ n + 1 → int_lt (int64_add (pos n) (pos 1)) (pos 1) ≡ true
unfolding int64_add wrap_int64 int_lt
wrapped_int64 n h k = ground arith

of_number : (z : ℤ) → 1 ≤ number z → z ≡ pos (number z)
of_number (pos n) h = refl
of_number (negsuc n) h = absurd (omega arith)

Above : Text → Text → ℕ → ℤ → List Event → Type 0
Above project resource q end events =
    (m : ℕ) × (end ≡ pos m) × (q ≤ m) × (m < 2 ^ 63) × All (Below project resource m) events

-- The sequence of a new event, if validation accepts it, is above all of the stream's.
sequence_after-Above :
    (project resource : Text) (q : ℕ) (events : List Event)
    → 1 ≤ q
    → q < 2 ^ 63
    → All Numbered events
    → Apart Follows events
    → int_lt (sequence_after project resource (pos q) events) (pos 1) ≡ false
    → Above project resource q (sequence_after project resource (pos q) events) events
unfolding sequence_after Above int_lt
sequence_after-Above project resource q [] one fits n f h = (q, refl, omega arith, fits, tt)
sequence_after-Above project resource q (e ∷ events) one fits n f h =
    if_cases
      (λ z.
        int_lt (sequence_after project resource z events) (pos 1) ≡ false
        → Above project resource q (sequence_after project resource z events) (e ∷ events))
      (in_stream project resource e && not (int_lt e.sequence (pos q))) _ _
      (λ counted.
        let number_e = number e.sequence in
        let value = of_number e.sequence n.0.0 in
        elim (Bool-cases (leb (2 ^ 63) (number_e + 1))) [
          | inl big ↦ λ fine.
              let wrapped : int_lt (int64_add e.sequence (pos 1)) (pos 1) ≡ true =
                subst (λ z. int_lt (int64_add z (pos 1)) (pos 1) ≡ true) (sym value)
                  (wrapped_int64 number_e n.0.1 (ground arith)) in
              let alone =
                sequence_after-none project resource (int64_add e.sequence (pos 1)) events
                  (followers project resource e events (ground arith) (ground arith) n.1 f.0) in
              absurd (ground (arith, alone, wrapped))
          | inr small ↦ λ fine.
              let larger : int64_add e.sequence (pos 1) ≡ pos (number_e + 1) =
                subst (λ z. int64_add z (pos 1) ≡ pos (number_e + 1)) (sym value)
                  (next_int64 number_e (ground arith)) in
              let grown : q ≤ number_e = ground (arith, value) in
              let (m, end, above, top, below) =
                sequence_after-Above project resource (number_e + 1) events (omega arith)
                  (ground arith) n.1 f.1
                  (subst (λ z. int_lt (sequence_after project resource z events) (pos 1) ≡ false)
                    larger fine) in
              (
                m,
                subst (λ z. sequence_after project resource z events ≡ pos m) (sym larger) end,
                omega arith,
                top,
                (λ here. omega arith, below),
              )
        ])
      (λ passed fine.
        let (m, end, above, top, below) =
          sequence_after-Above project resource q events one fits n.1 f.1 fine in
        let less : in_stream project resource e ≡ true → number e.sequence < q =
          λ here. ground (arith, of_number e.sequence n.0.0) in
        (m, end, above, top, (λ here. let l = less here in omega arith, below)))
      h

Apart-append :
    (events : List Event) (e : Event)
    → Apart Follows events
    → All (λ a. Follows a e) events
    → Apart Follows (events ++ e ∷ [])
Apart-append [] e h f = (tt, tt)
Apart-append (a ∷ events) e h f =
    (extended (Follows a) events h.0 f.0, Apart-append events e h.1 f.1)
  where
    extended : (P : Event → Type 0) (xs : List Event) → All P xs → P e → All P (xs ++ e ∷ [])
    extended P [] a p = (p, tt)
    extended P (x ∷ xs) a p = (a.0, extended P xs a.1 p)

All-append :
    (events : List Event) (e : Event)
    → All Numbered events
    → Numbered e
    → All Numbered (events ++ e ∷ [])
All-append [] e h n = (n, tt)
All-append (a ∷ events) e h n = (h.0, All-append events e h.1 n)

module _ (c : Codec) where
  numbered_event :
      (s : FileStore) (e : Event)
      → Ordered s.state.events
      → e.sequence ≡ next_sandbox_event_sequence s.state.events e.project_id e.resource_id
      → validate_sandbox_event e ≡ ok tt
      → Ordered (s.state.events ++ e ∷ [])
  unfolding next_sandbox_event_sequence validate_sandbox_event valid_event Above in_stream
  numbered_event s e o same valid =
      let positive : int_lt e.sequence (pos 1) ≡ false = ground arith in
      let (m, end, above, top, below) =
        sequence_after-Above e.project_id e.resource_id 1 s.state.events (omega arith) (omega arith)
          o.numbered o.follows (subst (λ z. int_lt z (pos 1) ≡ false) same positive) in
      let value : e.sequence ≡ pos m = same ∙ end in
      record {
        numbered =
            All-append s.state.events e o.numbered
              (subst (λ z. (1 ≤ number z) × (number z < 2 ^ 63)) (sym value) (above, top));
        follows = Apart-append s.state.events e o.follows (
            All-map (Below e.project_id e.resource_id m) (λ a. Follows a e)
              (λ a less here.
                subst (λ z. number a.sequence < number z) (sym value)
                  (less (
                    ground (
                      arith,
                      text_beq_iff e.project_id a.project_id,
                      text_beq_iff e.resource_id a.resource_id,
                      text_beq_iff a.project_id e.project_id,
                      text_beq_iff a.resource_id e.resource_id,
                    ))))
              s.state.events below);
      }

  sandbox_event-Ordered :
      (s : FileStore) (event e : Event)
      → Ordered s.state.events
      → sandbox_event c s event ≡ ok e
      → Ordered (s.state.events ++ e ∷ [])
  unfolding sandbox_event when_open
  sandbox_event-Ordered s event e o h =
      let (open_, chain) = >>-eq-ok (require (not s.closed) _) _ h in
      let (current, found, rest) =
        >>=-eq-ok
          (or_fail (lookup (scoped_key event.project_id event.resource_id) s.state.sandboxes)
            not_found)
          _ chain in
      let (details, cloned, checks) =
        >>=-eq-ok (clone_event_details c.normalize event.details) _ rest in
      let next = record event {
        details = details;
        state = current.state;
        sequence = next_sandbox_event_sequence s.state.events event.project_id event.resource_id;
      } in
      let (valid, same) = >>-eq-ok (validate_sandbox_event next) (ok next) checks in
      subst (λ x. Ordered (s.state.events ++ x ∷ [])) (ok_injective same)
        (numbered_event s next o refl valid)

  installed-Ordered :
      (s : FileStore) (next : State) (out : Option Text × Result Error (Unit {0}))
      → Ordered s.state.events
      → Ordered next.events
      → Ordered (installed c s next tt out).0.state.events
  unfolding installed
  installed-Ordered s next (d, ok u) o n = n
  installed-Ordered s next (d, err e) o n = o

  -- If the events of a store are numbered by positive int64s that grow along each stream, they are
  -- after any call of AppendSandboxEvent too, where the file system may fail: a sequence that would
  -- leave the range of an int64 is refused.
  pub append_sandbox_event-Ordered :
      (fails : Faults) (s : FileStore) (event : Event)
      → Ordered s.state.events
      → Ordered (append_sandbox_event c fails s event).0.state.events
  unfolding append_sandbox_event held
  append_sandbox_event-Ordered fails s event o = appended (sandbox_event c s event) refl
    where
      appended :
          (r : Result Error Event)
          → sandbox_event c s event ≡ r
          → Ordered
              (held s r (λ e.
                let next = record s.state { events = s.state.events ++ e ∷ [] } in
                installed c s next tt (persist c fails next s.disk))).0.state.events
      appended (err e) h = o
      appended (ok e) h =
          let next = record s.state { events = s.state.events ++ e ∷ [] } in
          installed-Ordered s next (persist c fails next s.disk) o
            (sandbox_event-Ordered s event e o h)
