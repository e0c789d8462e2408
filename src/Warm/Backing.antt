-- ===== src/Warm/Backing.antt =====
-- What refillOnce, createSlots and createSlot of internal/backend/warm/pool.go ask the backend for:
-- sandboxes of slots that reserveMissing has put into the table.
use brezel.Common.{
  ℕ, suc, ◌+◌, ◌-◌, ◌≤◌, ◌<◌, ◌≡◌, refl, true, List, [], ◌∷◌, ◌++◌, arith, leb, if_cases,
  if◌then◌else◌, ◌==◌, length, Text, text_eq, text_beq_iff, Result, ok, err,
}
use brezel.Warm.Slots.{Slot, Table}
use brezel.Warm.World.{
  Remote, BackendError, Error, Event, statement, reserved, created, History, Outside, World, Exec,
  inner_create, logged, settled, attempt, resume, ◌>>=◌, ◌>>◌, pure, now,
}
use brezel.Warm.Statements.{
  Config, local_ids, insert_missing, fill, query, reserve_missing, ran, rolled_back, transaction,
  commit,
}
use brezel.Warm.Methods.{pool_project, slot_request, create_slot, create_reserved, refill}
use brezel.Warm.Picking.{Invariant, silent}
use brezel.Warm.Upkeep.{create_answered-Within, joined-Within}
use brezel.Warm.Invariants.{Kept-atoms, insert_missing-Kept, execute_cases}

-- The local ids of the sandboxes that the backend was asked for, and of the slots that were
-- reserved, with the last ones first.
unfoldable pub created_ids : History → List Text
created_ids [] = []
created_ids (created request r ∷ h) = request.local_sandbox_id ∷ created_ids h
created_ids (_ ∷ h) = created_ids h

unfoldable pub reserved_ids : History → List Text
reserved_ids [] = []
reserved_ids (reserved ids ∷ h) = ids ++ reserved_ids h
reserved_ids (_ ∷ h) = reserved_ids h

abbrev pub count : Text → List Text → ℕ
count x [] = 0
count x (y ∷ ys) = if x == y then suc (count x ys) else count x ys

count-append : (x : Text) (xs ys : List Text) → count x (xs ++ ys) ≡ count x xs + count x ys
count-append x [] ys = omega arith
count-append x (y ∷ xs) ys = ground (arith, count-append x xs ys)

-- Each time that the backend is asked for a sandbox, it is one of the pool's project with a local id
-- for which the pool has by then reserved more slots than it has asked for sandboxes.
abbrev pub Backed : History → Type 0
Backed [] = Unit
Backed (created request r ∷ h) =
    (request.project_id ≡ pool_project)
    × (count request.local_sandbox_id (created_ids h)
        < count request.local_sandbox_id (reserved_ids h))
    × Backed h
Backed (_ ∷ h) = Backed h

-- The sandboxes of these slots may be asked for.
abbrev pub Ready : List Text → History → Type 0
Ready ids h =
    Backed h × ((id : Text) → count id (created_ids h) + count id ids ≤ count id (reserved_ids h))

pub Backed-Ready : (h : History) → Backed h → Ready [] h
unfolding created_ids reserved_ids
Backed-Ready [] b = (tt, λ id. omega arith)
Backed-Ready (created request r ∷ h) b =
    let rest = Backed-Ready h b.2 in
    (b, λ id. ground (arith, rest.1 id, text_beq_iff id request.local_sandbox_id, b.1))
Backed-Ready (reserved ids ∷ h) b =
    let rest = Backed-Ready h b in
    (b, λ id. ground (arith, rest.1 id, count-append id ids (reserved_ids h)))
Backed-Ready (_ ∷ h) b = Backed-Ready h b

silent-Ready :
    (ids : List Text) (e : Event) (h : History) → silent e ≡ true → Ready ids h → Ready ids (e ∷ h)
unfolding created_ids reserved_ids
silent-Ready ids (created request r) h q p = absurd cc
silent-Ready ids (reserved more) h q p =
    (p.0, λ id. ground (arith, p.1 id, count-append id more (reserved_ids h)))
silent-Ready ids _ h q p = p

pub ready : (ids : List Text) → Invariant (λ rows h. Ready ids h)
unfolding created_ids reserved_ids
ready ids = record {
  quiet = λ rows h e q p. silent-Ready ids e h q p;
  publishing = λ rows h id backend_id p. p;
  claiming_row = λ rows h s project sandbox until row free p. p;
  retiring = λ rows h test change same gone p. p;
  removing = λ rows h id p. p;
}

module _ (o : Outside) (c : Config) where
  asked :
      (s : Slot) (ids : List Text) (h : History) (r : Result BackendError Remote)
      → Ready (s.local_id ∷ ids) h
      → Ready ids (created (slot_request o c s) r ∷ h)
  unfolding created_ids reserved_ids
  asked s ids h r p = (
    (refl, ground (arith, p.1 s.local_id, text_beq_iff s.local_id s.local_id), p.0),
    λ id. ground (arith, p.1 id),
  )

  create_slot-Ready :
      (s : Slot) (ids : List Text) (w : World)
      → Ready (s.local_id ∷ ids) w.history
      → Ready ids (create_slot o c s w).0.history
  unfolding create_slot ◌>>=◌ resume inner_create
  create_slot-Ready s ids w p =
      let r = o.on_create w.history (slot_request o c s) in
      (create_answered-Within (Kept-atoms (ready ids) o c) s r).at
        (logged w (created (slot_request o c s) r)) (asked s ids w.history r p)

  attempted :
      {A B : Type 0} (P : World → Type 0) (m : Exec A) (next : Result Error A → Exec B) (w : World)
      → ((r : Result Error A) → P (next r (m w).0).0)
      → P ((attempt m >>= next) w).0
  unfolding attempt settled ◌>>=◌ resume
  attempted P m next w h = h (m w).1

  create_reserved-Ready :
      (slots : List Slot) (w : World)
      → Ready (local_ids slots) w.history
      → Ready [] (create_reserved o c slots w).0.history
  unfolding create_reserved local_ids pure
  create_reserved-Ready [] w p = p
  create_reserved-Ready (s ∷ slots) w p =
      attempted (λ v. Ready [] v.history) (create_slot o c s) _ w
        λ first.
          let v = (create_slot o c s w).0 in
          attempted (λ v. Ready [] v.history) (create_reserved o c slots) _ v
            λ rest.
              (joined-Within (Kept-atoms (ready []) o c) first rest).at
                (create_reserved o c slots v).0
                (create_reserved-Ready slots v (create_slot-Ready s (local_ids slots) w p))

  -- The sandboxes of the slots that a reservation returns may be asked for.
  abbrev Reserved : World × Result Error (List Slot) → Type 0
  Reserved (v, ok slots) = Ready (local_ids slots) v.history
  Reserved (v, err e) = Ready [] v.history

  committed :
      (out : World × Result Error (List Slot))
      → Ready [] out.0.history
      → Reserved (resume (λ slots. commit o (reserved (local_ids slots)) >> pure slots) out)
  unfolding resume commit ◌>>◌ ◌>>=◌ ran pure created_ids reserved_ids
  committed (v, err e) p = p
  committed (v, ok slots) p =
      execute_cases (λ out. Reserved (resume (λ (u : Unit {0}). pure slots) out)) o _ v p
        (
          p.0,
          λ id. ground (arith, p.1 id, count-append id (local_ids slots) (reserved_ids v.history)),
        )

  rolled_back-Reserved :
      (rows : Table) (out : World × Result Error (List Slot))
      → Reserved out
      → Reserved (rolled_back rows out)
  unfolding rolled_back
  rolled_back-Reserved rows (v, ok slots) p = p
  rolled_back-Reserved rows (v, err e) p = p

  fill-Reserved : (n : ℕ) (w : World) → Ready [] w.history → Reserved (fill o c n w)
  unfolding fill transaction pure now ◌>>=◌ resume local_ids
  fill-Reserved n w p =
      if_cases (λ (m : Exec (List Slot)). Reserved (m w)) (leb c.target n) _ _ (λ full. p)
        (λ room.
          let at = o.now w.history in
          let missing = c.target - n in
          let inserts =
            insert_missing-Kept (ready []) o (λ rows more h s new e q. q) c at missing in
          rolled_back-Reserved w.rows _
            (committed (insert_missing o c at missing w) ((inserts.at w).1 p)))

  reserve_missing-Reserved : (w : World) → Ready [] w.history → Reserved (reserve_missing o c w)
  unfolding reserve_missing query ◌>>=◌ resume ran created_ids reserved_ids
  reserve_missing-Reserved w p =
      if_cases Reserved w.closed _ _ (λ e. p)
        (λ e.
          execute_cases (λ out. Reserved (resume (fill o c) out)) o _ w p
            (fill-Reserved (length w.rows) (logged w statement) p))

  pub refill-Ready : (w : World) → Ready [] w.history → Ready [] (refill o c w).0.history
  unfolding refill ◌>>=◌ resume
  refill-Ready w p = created_all (reserve_missing o c w) (reserve_missing-Reserved w p)
    where
      created_all :
          (out : World × Result Error (List Slot))
          → Reserved out
          → Ready [] (resume (create_reserved o c) out).0.history
      created_all (v, ok slots) q = create_reserved-Ready slots v q
      created_all (v, err e) q = q
