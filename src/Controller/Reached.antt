-- ===== src/Controller/Reached.antt =====
-- What holds in every reached world of internal/service's controller.
use brezel.Common.{
  ℕ, zero, suc, ◌≡◌, ◌≢◌, refl, sym, subst, arith, true, List, [], ◌∷◌, Option, none, some, All,
  Apart, All-map, contains, Text, text_eq, ok, err,
}
use brezel.Domain.States.{SandboxState, unknown, can_transition}
use brezel.Store.Files.{Codec}
use brezel.Controller.Types.{Service, Outside}
use brezel.Controller.Transitions.{Called}
use brezel.Controller.Actions.{Begun, replayed, begun, Placement, placed}
use brezel.Controller.Writes.{Valid}
use brezel.Controller.Keeping.{Guarded, Locked, Locked-Guarded, Starts}
use brezel.Controller.Cases.{step_cases}
use brezel.Controller.Endings.{end_action-Only}
use brezel.Controller.Worlds.{Pending, World, Act, started, at_index, without, ended, step, run}

abbrev pub Separate : Pending → Pending → Type 0
Separate p q = p.key ≢ q.key

abbrev pub Exclusive : Service → Pending → Type 0
Exclusive s p = Locked s p.key p.sandbox × (can_transition p.sandbox.state unknown ≡ true)

-- The store is valid, each pending action has its sandbox to itself, and no two are of one sandbox.
abbrev pub Fenced : World → Type 0
Fenced w = Valid w.service.files × Apart Separate w.pending × All (Exclusive w.service) w.pending

pub Quiet-Fenced :
    (s t : Service) (ps : List Pending)
    → Valid t.files
    → ((k : Text) → Guarded k s t)
    → Fenced (record { service = s; pending = ps })
    → Fenced (record { service = t; pending = ps })
Quiet-Fenced s t ps valid guarded h = (
  valid,
  h.1,
  All-map (Exclusive s) (Exclusive t)
      (λ p (locked, leaves). (Locked-Guarded s t p.key p.sandbox (guarded p.key) locked, leaves)) ps
      h.2,
)

started-Fenced :
    (s : Service) (key : Text) (target : SandboxState) (ps : List Pending) (out : Called Begun)
    → Starts key s out
    → Fenced (record { service = s; pending = ps })
    → Fenced (started key target ps out)
unfolding started
started-Fenced s key target ps (t, err e) st h = Quiet-Fenced s t ps st.valid st.guarded h
started-Fenced s key target ps (t, ok (replayed v op)) st h =
    Quiet-Fenced s t ps st.valid st.guarded h
started-Fenced s key target ps (t, ok (begun v op)) st h =
    let (valid, apart, each) = Quiet-Fenced s t ps st.valid st.guarded h in
    let (new, own, leaves) = st.fresh v op refl in
    let p : Pending = record { key = key; sandbox = v; op = op; target = target } in
    let others =
      All-map (Exclusive s) (Separate p)
        (λ q (locked, waits) same.
          ground
            (arith, subst (λ k. contains k s.active_backend_mutations ≡ true) (sym same) locked.0))
        ps h.2 in
    (valid, (others, apart), ((own, leaves), each))

pub unoccupied-Fenced : (w : World) → Valid w.service.files → w.pending ≡ [] → Fenced w
unoccupied-Fenced w valid nothing = (
  valid,
  subst (Apart Separate) (sym nothing) tt,
  subst (All (Exclusive w.service)) (sym nothing) tt,
)

-- The n-th element, and that the others differ from it.
pub at_index-All :
    {A : Type 0} (P : A → Type 0) (n : ℕ) (ps : List A) (p : A)
    → at_index n ps ≡ some p
    → All P ps
    → P p
unfolding at_index
at_index-All P n [] p h all = absurd cc
at_index-All P zero (q ∷ ps) p h all = let same : q ≡ p = cc in subst P same all.0
at_index-All P (suc n) (q ∷ ps) p h all = at_index-All P n ps p h all.1

pub without-All :
    {A : Type 0} (P : A → Type 0) (n : ℕ) (ps : List A) → All P ps → All P (without n ps)
unfolding without
without-All P n [] all = tt
without-All P zero (q ∷ ps) all = all.1
without-All P (suc n) (q ∷ ps) all = (all.0, without-All P n ps all.1)

pub without-Apart :
    {A : Type 0} (R : A → A → Type 0) (n : ℕ) (ps : List A) → Apart R ps → Apart R (without n ps)
unfolding without
without-Apart R n [] apart = tt
without-Apart R zero (q ∷ ps) apart = apart.1
without-Apart R (suc n) (q ∷ ps) apart =
    (without-All (R q) n ps apart.0, without-Apart R n ps apart.1)

pub without-others :
    {A : Type 0} (R : A → A → Type 0) (flip : (x y : A) → R x y → R y x) (n : ℕ) (ps : List A)
    (p : A)
    → at_index n ps ≡ some p
    → Apart R ps
    → All (R p) (without n ps)
unfolding at_index without
without-others R flip n [] p h apart = tt
without-others R flip zero (q ∷ ps) p h apart =
    let same : q ≡ p = cc in subst (λ x. All (R x) ps) same apart.0
without-others R flip (suc n) (q ∷ ps) p h apart =
    (flip q p (at_index-All (R q) n ps p h apart.0), without-others R flip n ps p h apart.1)

-- Both of two predicates.
pub both_All :
    {A : Type 0} (P Q : A → Type 0) (ps : List A) → All P ps → All Q ps → All (λ p. P p × Q p) ps
both_All P Q [] a b = tt
both_All P Q (p ∷ ps) a b = ((a.0, b.0), both_All P Q ps a.1 b.1)

module _ (c : Codec) where
  ended-Fenced :
      (o : Outside) (w : World) (n : ℕ) (place : Placement) (failure : Option Text)
      (r : Option Pending)
      → at_index n w.pending ≡ r
      → Fenced w
      → Fenced (ended c o w n place failure r)
  unfolding ended
  ended-Fenced o w n place failure none at h = h
  ended-Fenced o w n place failure (some p) at (valid, apart, each) =
      let own = at_index-All (Exclusive w.service) n w.pending p at each in
      let (v, only, legal) =
        end_action-Only c o w.service p.key (placed place p.sandbox) p.op p.target failure own.0.2
          valid own.0.3 own.1 in
      let rest = without n w.pending in
      (
        v,
        without-Apart Separate n w.pending apart,
        All-map (λ q. Separate p q × Exclusive w.service q) _
            (λ q (other, (locked, waits)). (
              Locked-Guarded w.service _ q.key q.sandbox (only q.key (λ e. other (sym e))) locked,
              waits,
            ))
            rest
            (both_All (Separate p) (Exclusive w.service) rest
              (without-others Separate (λ x y ne e. ne (sym e)) n w.pending p at apart)
              (without-All (Exclusive w.service) n w.pending each)),
      )

  pub step-Fenced : (o : Outside) (a : Act) (w : World) → Fenced w → Fenced (step c o a w)
  step-Fenced o a w h =
      step_cases c o Fenced a w h.0
        (λ key target out st. started-Fenced w.service key target w.pending out st h)
        (λ n place failure. ended-Fenced o w n place failure (at_index n w.pending) refl h)
        (λ t q. Quiet-Fenced w.service t w.pending q.0 q.1 h)

  run_lem : (acts : List (Outside × Act)) (w : World) → Fenced w → Fenced (run c acts w)
  unfolding run
  run_lem [] w h = h
  run_lem ((o, a) ∷ acts) w h = run_lem acts (step c o a w) (step-Fenced o a w h)

  -- From a controller with a valid store and no action that waits for its call, whatever requests,
  -- ends of calls, guest operations and records of activity come, in any order and with any failing
  -- calls of the file system: the store stays valid, no two waiting actions are of one sandbox, and
  -- the sandbox of each waiting action is locked, has no guest operation, and has in the store the
  -- state with which the action called the backend, from which the unknown state is allowed.
  pub run-Fenced :
      (acts : List (Outside × Act)) (w : World)
      → Valid w.service.files
      → w.pending ≡ []
      → Fenced (run c acts w)
  run-Fenced acts w valid nothing = run_lem acts w (unoccupied-Fenced w valid nothing)
