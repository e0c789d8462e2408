-- ===== src/Controller/Foreign.antt =====
-- What the steps of internal/service's lifecycle actions leave of a sandbox that another holder has
-- locked, and of one in a terminal state.
use brezel.Common.{
  ℕ, ◌≡◌, ◌≢◌, refl, sym, ◌∙◌, subst, inl, inr, arith, true, false, List, Option, none, some, All,
  contains, Text, text_eq, ok, err,
}
use brezel.Domain.States.{SandboxState, terminal, can_transition, can_transition-terminal}
use brezel.Store.Files.{Codec}
use brezel.Controller.Types.{Service, Outside}
use brezel.Controller.Transitions.{Called}
use brezel.Controller.Actions.{Begun, replayed, begun, Placement, placed}
use brezel.Controller.Writes.{Moves}
use brezel.Controller.Keeping.{Guarded, Starts}
use brezel.Controller.Cases.{step_cases}
use brezel.Controller.Endings.{end_action-Only}
use brezel.Controller.Worlds.{Pending, World, Act, started, at_index, ended, step}
use brezel.Controller.Reached.{Exclusive, Fenced, at_index-All, without-All}
use brezel.Controller.Moves.{step-Legal}
use brezel.Controller.Stepping.{Settled}

-- No waiting action is of the sandbox under a key.
abbrev pub Spared : Text → List Pending → Type 0
Spared k ps = All (λ p. p.key ≢ k) ps

-- A step keeps a locked sandbox under a key that no waiting action has.
abbrev pub Spares : Text → Service → World → Type 0
Spares k s w =
    Guarded k s w.service × (contains k s.active_backend_mutations ≡ true → Spared k w.pending)

started-Spares :
    (k : Text) (s : Service) (key : Text) (target : SandboxState) (ps : List Pending)
    (out : Called Begun)
    → Starts key s out
    → Spared k ps
    → Spares k s (started key target ps out)
unfolding started
started-Spares k s key target ps (t, err e) st spared = (st.guarded k, λ h. spared)
started-Spares k s key target ps (t, ok (replayed v op)) st spared = (st.guarded k, λ h. spared)
started-Spares k s key target ps (t, ok (begun v op)) st spared =
    let (new, own, leaves) = st.fresh v op refl in
    (
      st.guarded k,
      λ locked. (
        λ same.
            ground
              (arith, subst (λ x. contains x s.active_backend_mutations ≡ false) same new, locked),
        spared,
      ),
    )

module _ (c : Codec) where
  ended-Spares :
      (k : Text) (o : Outside) (w : World) (n : ℕ) (place : Placement) (failure : Option Text)
      (r : Option Pending)
      → at_index n w.pending ≡ r
      → Fenced w
      → Spared k w.pending
      → Spares k w.service (ended c o w n place failure r)
  unfolding ended
  ended-Spares k o w n place failure none at h spared =
      ((λ locked. (locked, (λ g. g), refl)), λ locked. spared)
  ended-Spares k o w n place failure (some p) at (valid, apart, each) spared =
      let own = at_index-All (Exclusive w.service) n w.pending p at each in
      let only =
        end_action-Only c o w.service p.key (placed place p.sandbox) p.op p.target failure own.0.2
          valid own.0.3 own.1 in
      let other = at_index-All (λ q. q.key ≢ k) n w.pending p at spared in
      (only.1 k (λ e. other (sym e)), λ locked. without-All (λ q. q.key ≢ k) n w.pending spared)

  pub step-Spares :
      (k : Text) (o : Outside) (a : Act) (w : World)
      → Fenced w
      → Spared k w.pending
      → Spares k w.service (step c o a w)
  step-Spares k o a w h spared =
      step_cases c o (Spares k w.service) a w h.0
        (λ key target out st. started-Spares k w.service key target w.pending out st spared)
        (λ n place failure. ended-Spares k o w n place failure (at_index n w.pending) refl h spared)
        (λ t q. (q.1 k, λ locked. spared))

  final_lem : (a b : SandboxState) → terminal a ≡ true → can_transition a b ≡ false
  final_lem a b over = elim (can_transition-terminal a) [
    | inl (same, none_) ↦ none_ b
    | inr more ↦ absurd (let live = more.0 in cc)
  ]

  Moves-settled :
      (a : SandboxState) (x y : Option SandboxState)
      → Moves x y
      → terminal a ≡ true
      → x ≡ some a
      → y ≡ some a
  Moves-settled a x y (inl same) over was = same ∙ was
  Moves-settled a x y (inr (from, to, before_, after_, allowed_)) over was =
      let none_ = final_lem a to over in
      let equal : from ≡ a = cc in
      absurd (ground (arith, subst (λ z. can_transition z to ≡ true) equal allowed_, none_))

  pub step-Settled :
      (o : Outside) (a : Act) (w : World)
      → Fenced w
      → Settled w.service.files (step c o a w).service.files
  step-Settled o a w h k b over was = Moves-settled b _ _ (step-Legal c o a w h k) over was
