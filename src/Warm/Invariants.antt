-- ===== src/Warm/Invariants.antt =====
-- A predicate on the table and the history that the pool's statements keep is kept by the parts
-- that its methods are made of.
use brezel.Common.{
  after, ℕ, zero, suc, ◌≡◌, refl, inl, inr, Bool, true, ◌||◌, List, [], ◌∷◌, Option, none, some,
  leb, if_cases, Option-cases, length, Text, text_eq, codes, ℤ, pos, int64_add, Result, ok, err,
}
use brezel.Warm.Slots.{
  SlotState, creating, available, claimed, deleting, slot_state_eq, Slot, Table, in_state,
  update_rows, delete_row, insert_row, query_one, oldest_available,
}
use brezel.Warm.World.{
  Remote, CreateRequest, BackendError, Error, database, Event, statement, drawn, reserved,
  published, claimed_for, created, History, Outside, World, Exec, pure, resume, ◌>>=◌, ◌>>◌, logged,
  inner_create, inner_find, inner_inspect, inner_set_timeout, inner_delete, now,
}
use brezel.Warm.Statements.{
  Config, claim_safety, Statement, ran, execute, query, rolled_back, transaction, commit, drew,
  random_id, reservation, inserted, insert_slot, insert_missing, local_ids, fill, reserve_missing,
  update_slot, mark_available, made_claiming, claim_slot, claim_found, begin_claim, is_claim,
  confirm, finish_claim, quarantine, mark_deleting, remove,
}
use brezel.Warm.Methods.{slot_request, refill}
use brezel.Warm.Within.{Within, Chained, Atoms, bind-Within, then-Within, pure-Within, now-Within}
use brezel.Warm.Picking.{In, Invariant, silent, oldest_available_lem}
use brezel.Warm.Upkeep.{refill-Within}

-- A statement does not run, or leaves its rows and its event.
pub execute_cases :
    {A : Type 0} (Q : World × Result Error A → Type 0) (o : Outside) (act : Statement A) (w : World)
    → Q (logged w statement, err database)
    → Q (ran w (act w.rows))
    → Q (execute o act w)
unfolding execute
execute_cases Q o act w kept went =
    if_cases Q (w.closed || o.faulty w.history) _ _ (λ e. kept) (λ e. went)

execute_at :
    {A : Type 0} (Q : World → Type 0) (o : Outside) (act : Statement A) (w : World)
    → Q (logged w statement)
    → Q (record w { rows = (act w.rows).0; history = (act w.rows).1 ∷ w.history })
    → Q (execute o act w).0
unfolding ran
execute_at Q o act w kept went = execute_cases (λ out. Q out.0) o act w kept went

update_slot_cases :
    (Q : Table × Event × Result Error (Unit {0}) → Type 0) (id : Text) (from : SlotState)
    (taken : Bool) (why : Error) (change : Slot → Slot) (e : Event) (rows : Table)
    → ((why' : Error) → Q (rows, statement, err why'))
    → Q (update_rows (in_state id from) change rows, e, ok tt)
    → Q (update_slot id from taken why change e rows)
unfolding update_slot
update_slot_cases Q id from taken why change e rows kept went =
    elim (Option-cases (query_one (in_state id from) rows)) [
      | inl none_ ↦ rw (none_, update_slot) (kept why)
      | inr (s, row) ↦ rw (row, update_slot) (if_cases Q taken _ _ (λ t. kept database) (λ t. went))
    ]

module _ {P : Table → History → Type 0} (inv : Invariant P) (o : Outside) where
  abbrev Kept : World → World → Type 0
  Kept u v = P u.rows u.history → P v.rows v.history

  mark_available-Kept : (id backend_id : Text) → Within Kept (mark_available o id backend_id)
  unfolding mark_available
  mark_available-Kept id backend_id = record {
    at = λ w p.
        execute_at (λ v. P v.rows v.history) o _ w (inv.quiet w.rows w.history statement refl p)
          (update_slot_cases (λ out. P out.0 (out.1 ∷ w.history)) id creating _ _ _
            (published backend_id) w.rows (λ why. inv.quiet w.rows w.history statement refl p)
            (inv.publishing w.rows w.history id backend_id p));
  }

  remove-Kept : (id : Text) → Within Kept (remove o id)
  unfolding remove
  remove-Kept id = record {
    at = λ w p.
        execute_at (λ v. P v.rows v.history) o _ w (inv.quiet w.rows w.history statement refl p)
          (inv.quiet (delete_row id w.rows) w.history statement refl
            (inv.removing w.rows w.history id p));
  }

  query-Kept : {A : Type 0} (read : Table → A) → Within Kept (query o read)
  unfolding query
  query-Kept read = record {
    at = λ w p.
        execute_at (λ v. P v.rows v.history) o _ w (inv.quiet w.rows w.history statement refl p)
          (inv.quiet w.rows w.history statement refl p);
  }

  quarantine_at :
      (rows : Table) (h : History) (id : Text) (from : SlotState)
      → P rows h
      → P (quarantine id from rows).0 ((quarantine id from rows).1 ∷ h)
  unfolding quarantine
  quarantine_at rows h id from p = elim (Option-cases (query_one (in_state id from) rows)) [
    | inl none_ ↦ rw (none_, quarantine) (inv.quiet rows h statement refl p)
    | inr (s, row) ↦
        rw (row, quarantine)
          (inv.quiet _ h statement refl (
            inv.retiring rows h (in_state id from) (λ r. record r { state = deleting }) (λ r. refl)
              (λ r e. cc) p))
  ]

  mark_deleting-Kept : (id : Text) (from : SlotState) → Within Kept (mark_deleting o id from)
  unfolding mark_deleting
  mark_deleting-Kept id from = record {
    at = λ w p.
        execute_at (λ v. P v.rows v.history) o _ w (inv.quiet w.rows w.history statement refl p)
          (quarantine_at w.rows w.history id from p);
  }

  confirm_at :
      (rows : Table) (h : History) (id project sandbox : Text)
      → P rows h
      → P (confirm id project sandbox rows).0 ((confirm id project sandbox rows).1 ∷ h)
  unfolding confirm
  confirm_at rows h id project sandbox p =
      elim (Option-cases (query_one (is_claim id project sandbox) rows)) [
        | inl none_ ↦ rw (none_, confirm) (inv.quiet rows h statement refl p)
        | inr (s, row) ↦
            rw (row, confirm)
              (inv.quiet _ h statement refl (
                inv.retiring rows h (is_claim id project sandbox)
                  (λ r. record r { state = claimed }) (λ r. refl) (λ r e. cc) p))
      ]

  finish_claim-Kept : (id project sandbox : Text) → Within Kept (finish_claim o id project sandbox)
  unfolding finish_claim
  finish_claim-Kept id project sandbox = record {
    at = λ w p.
        execute_at (λ v. P v.rows v.history) o _ w (inv.quiet w.rows w.history statement refl p)
          (confirm_at w.rows w.history id project sandbox p);
  }

  -- What a transaction leaves, by what its statements left.
  abbrev Left : {A : Type 0} → Table → World × Result Error A → Type 0
  Left rows out = P (rolled_back rows out).0.rows (rolled_back rows out).0.history

  commit_at :
      {A : Type 0} (rows : Table) (w : World) (e : Event) (a : A)
      → P rows (statement ∷ w.history)
      → P w.rows (e ∷ w.history)
      → Left rows ((commit o e >> pure a) w)
  unfolding commit ◌>>◌ ◌>>=◌ resume ran rolled_back pure
  commit_at rows w e a kept went =
      execute_cases (λ out. Left rows (resume (λ _. pure a) out)) o (λ now_. (now_, e, ok tt)) w
        kept went

  claim_found_at :
      (w : World) (project sandbox : Text) (ttl : ℤ) (s : Slot)
      → In s w.rows
      → s.state ≡ available
      → P w.rows w.history
      → Left w.rows (claim_found o project sandbox ttl (some s) w)
  unfolding claim_found claim_slot ◌>>=◌ ◌>>◌ resume now rolled_back ran
  claim_found_at w project sandbox ttl s row free p =
      let until = after (o.now w.history) ttl in
      let end =
        commit o (claimed_for s.backend_id project sandbox)
        >> pure (some (made_claiming project sandbox until s)) in
      let kept = inv.quiet w.rows w.history statement refl p in
      execute_cases (λ out. Left w.rows (resume (λ (u : Unit {0}). end) out)) o _ w kept
        (update_slot_cases (λ out. Left w.rows (resume (λ (u : Unit {0}). end) (ran w out))) s.id
          available _ _ _ _ w.rows (λ why. kept)
          (commit_at w.rows
            (record w {
              rows =
                  update_rows (in_state s.id available) (made_claiming project sandbox until)
                    w.rows;
              history = statement ∷ w.history;
            })
            (claimed_for s.backend_id project sandbox) _
            (inv.quiet w.rows (statement ∷ w.history) statement refl kept)
            (inv.claiming_row w.rows (statement ∷ w.history) s project sandbox until row free
              kept)))

  found_at :
      (w : World) (project sandbox : Text) (ttl : ℤ) (deadline : ℕ) (s : Option Slot)
      → oldest_available deadline w.rows ≡ s
      → P w.rows w.history
      → Left w.rows (claim_found o project sandbox ttl s w)
  unfolding claim_found rolled_back pure
  found_at w project sandbox ttl deadline none e p = p
  found_at w project sandbox ttl deadline (some s) e p =
      let picked = oldest_available_lem s deadline w.rows e in
      claim_found_at w project sandbox ttl s picked.0 picked.1 p

  begin_claim-Kept :
      (project sandbox : Text) (ttl : ℤ) → Within Kept (begin_claim o project sandbox ttl)
  unfolding begin_claim transaction query ◌>>=◌ resume now rolled_back ran
  begin_claim-Kept project sandbox ttl = record {
    at = λ w p.
        let deadline = after (o.now w.history) (int64_add ttl (pos claim_safety)) in
        let kept = inv.quiet w.rows w.history statement refl p in
        execute_cases (λ out. Left w.rows (resume (claim_found o project sandbox ttl) out)) o _ w
          kept (found_at (logged w statement) project sandbox ttl deadline _ refl kept);
  }

  -- Nothing but the rows of the predicate's change matters to the history.
  abbrev ApartOf : World → World → Type 0
  ApartOf u v = ((rows : Table) → P rows u.history → P rows v.history) × Kept u v

  ApartOf-chained : Chained ApartOf
  ApartOf-chained = record {
    same = λ w. (λ rows p. p, λ p. p);
    along = λ a b. (λ rows p. b.0 rows (a.0 rows p), λ p. b.1 (a.1 p));
  }

  random_id-Kept : (prefix : Text) → Within ApartOf (random_id o prefix)
  unfolding random_id drew
  random_id-Kept prefix = record { at = λ w. drawn_at w (o.random w.history) }
    where
      drawn_at : (w : World) (r : Option Text) → ApartOf w (drew w prefix r).0
      drawn_at w none =
          (λ rows. inv.quiet rows w.history drawn refl, inv.quiet w.rows w.history drawn refl)
      drawn_at w (some d) =
          (λ rows. inv.quiet rows w.history drawn refl, inv.quiet w.rows w.history drawn refl)

  commit-Kept : (e : Event) → silent e ≡ true → Within ApartOf (commit o e)
  unfolding commit
  commit-Kept e quiet = record {
    at = λ w.
        let step = λ (rows : Table). inv.quiet rows w.history statement refl in
        let end = λ (rows : Table). inv.quiet rows w.history e quiet in
        execute_at (ApartOf w) o _ w (step, step w.rows) (end, end w.rows);
  }

  module _
      (inserting : (rows more : Table) (h : History) (s : Slot)
        → s.state ≡ creating
        → insert_row s rows ≡ some more
        → P rows h
        → P more h) where
    inserted_at :
        (w : World) (s : Slot) (more : Option Table)
        → s.state ≡ creating
        → insert_row s w.rows ≡ more
        → P w.rows w.history
        → P (inserted w.rows more).0 ((inserted w.rows more).1 ∷ w.history)
    unfolding inserted
    inserted_at w s none new e p = inv.quiet w.rows w.history statement refl p
    inserted_at w s (some more) new e p =
        inv.quiet more w.history statement refl (inserting w.rows more w.history s new e p)

    inserted_quiet :
        (w : World) (more : Option Table) (rows : Table)
        → P rows w.history
        → P rows ((inserted w.rows more).1 ∷ w.history)
    unfolding inserted
    inserted_quiet w none rows p = inv.quiet rows w.history statement refl p
    inserted_quiet w (some more) rows p = inv.quiet rows w.history statement refl p

    insert_slot-Kept : (s : Slot) → s.state ≡ creating → Within ApartOf (insert_slot o s)
    unfolding insert_slot
    insert_slot-Kept s new = record {
      at = λ w.
          let step = λ (rows : Table). inv.quiet rows w.history statement refl in
          execute_at (ApartOf w) o _ w (step, step w.rows)
            (inserted_quiet w (insert_row s w.rows), inserted_at w s _ new refl);
    }

    pub insert_missing-Kept : (c : Config) (at n : ℕ) → Within ApartOf (insert_missing o c at n)
    unfolding insert_missing
    insert_missing-Kept c at zero = pure-Within ApartOf-chained []
    insert_missing-Kept c at (suc n) =
        let chain = ApartOf-chained in
        bind-Within chain _ _ (random_id-Kept (codes "wps")) λ id.
          bind-Within chain _ _ (random_id-Kept (codes "warm")) λ local_id.
            then-Within chain _ _ (insert_slot-Kept (reservation c at id local_id) refl) (
              bind-Within chain _ _ (insert_missing-Kept c at n)
                λ rest. pure-Within chain (reservation c at id local_id ∷ rest))

    transaction-Kept : {A : Type 0} (m : Exec A) → Within ApartOf m → Within Kept (transaction m)
    unfolding transaction rolled_back
    transaction-Kept m h = record { at = λ w. rolled_at w (m w) (h.at w) }
      where
        rolled_at :
            {A : Type 0} (w : World) (out : World × Result Error A)
            → ApartOf w out.0
            → Kept w (rolled_back w.rows out).0
        rolled_at w (v, ok a) h = h.1
        rolled_at w (v, err e) h = h.0 w.rows

    Kept-chained : Chained Kept
    Kept-chained = record { same = λ w p. p; along = λ a b p. b (a p) }

    fill-Kept : (c : Config) (count : ℕ) → Within Kept (fill o c count)
    unfolding fill
    fill-Kept c count =
        if_cases (Within Kept) (leb c.target count) _ _ (λ e. pure-Within Kept-chained [])
          (λ e. transaction-Kept _ (
            bind-Within ApartOf-chained _ _ (now-Within ApartOf-chained o) λ at.
              bind-Within ApartOf-chained _ _ (insert_missing-Kept c at _) λ slots.
                then-Within ApartOf-chained _ _ (commit-Kept (reserved (local_ids slots)) refl)
                  (pure-Within ApartOf-chained slots)))

    pub reserve_missing-Kept : (c : Config) → Within Kept (reserve_missing o c)
    unfolding reserve_missing
    reserve_missing-Kept c = record {
      at = λ w.
          if_cases (λ (out : World × Result Error (List Slot)). Kept w out.0) w.closed _ _
            (λ e p. p) (λ e. (bind-Within Kept-chained _ _ (query-Kept length) (fill-Kept c)).at w);
    }

  pub Kept-atoms : (c : Config) → Atoms o c Kept
  unfolding inner_find inner_inspect inner_set_timeout inner_delete
  Kept-atoms c = record {
    chained = record { same = λ w p. p; along = λ a b p. b (a p) };
    publishes = mark_available-Kept;
    claims = begin_claim-Kept;
    confirms = finish_claim-Kept;
    quarantines = mark_deleting-Kept;
    removes = remove-Kept;
    queries = query-Kept;
    finds = λ local project. record { at = λ w p. inv.quiet w.rows w.history _ refl p };
    inspects = λ id. record { at = λ w p. inv.quiet w.rows w.history _ refl p };
    times = λ id n. record { at = λ w p. inv.quiet w.rows w.history _ refl p };
    deletes = λ id. record { at = λ w p. inv.quiet w.rows w.history _ refl p };
  }

  pub Kept-refills :
      (c : Config)
      → Within Kept (reserve_missing o c)
      → ((rows : Table) (h : History) (request : CreateRequest) (r : Result BackendError Remote)
          → P rows h
          → P rows (created request r ∷ h))
      → (w : World) → Kept w (refill o c w).0
  unfolding inner_create
  Kept-refills c reserves asks =
      (refill-Within (Kept-atoms c) reserves
        λ s. record { at = λ w p. asks w.rows w.history (slot_request o c s) _ p }).at
