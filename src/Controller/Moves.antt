-- ===== src/Controller/Moves.antt =====
-- How internal/service moves the states of sandboxes.
use brezel.Common.{ℕ, ◌≡◌, refl, inl, List, Option, none, some, Text, text_eq, ok, err}
use brezel.Domain.States.{SandboxState, Runs}
use brezel.Store.Files.{Codec}
use brezel.Controller.Types.{Service, Outside}
use brezel.Controller.Transitions.{Called}
use brezel.Controller.Actions.{Begun, replayed, begun, Placement, placed}
use brezel.Controller.Writes.{Legal}
use brezel.Controller.Keeping.{Starts}
use brezel.Controller.Cases.{step_cases}
use brezel.Controller.Endings.{end_action-Only}
use brezel.Controller.Worlds.{Pending, World, Act, started, at_index, ended, step}
use brezel.Controller.Reached.{Exclusive, Fenced, at_index-All}

started-Legal :
    (s : Service) (key : Text) (target : SandboxState) (ps : List Pending) (out : Called Begun)
    → Starts key s out
    → Legal s.files (started key target ps out).service.files
unfolding started
started-Legal s key target ps (t, err e) st = st.legal
started-Legal s key target ps (t, ok (replayed v op)) st = st.legal
started-Legal s key target ps (t, ok (begun v op)) st = st.legal

module _ (c : Codec) where
  ended-Legal :
      (o : Outside) (w : World) (n : ℕ) (place : Placement) (failure : Option Text)
      (r : Option Pending)
      → at_index n w.pending ≡ r
      → Fenced w
      → Legal w.service.files (ended c o w n place failure r).service.files
  unfolding ended
  ended-Legal o w n place failure none at h = λ k. inl refl
  ended-Legal o w n place failure (some p) at (valid, apart, each) =
      let own = at_index-All (Exclusive w.service) n w.pending p at each in
      (end_action-Only c o w.service p.key (placed place p.sandbox) p.op p.target failure own.0.2
        valid own.0.3 own.1).2

  pub step-Legal :
      (o : Outside) (a : Act) (w : World)
      → Fenced w
      → Legal w.service.files (step c o a w).service.files
  step-Legal o a w h =
      step_cases c o (λ v. Legal w.service.files v.service.files) a w h.0
        (λ key target out st. started-Legal w.service key target w.pending out st)
        (λ n place failure. ended-Legal o w n place failure (at_index n w.pending) refl h)
        (λ t q k. inl (q.2 k))

  -- A sandbox in a state is then in one that the domain's transitions lead to.
  abbrev pub Follows : Option SandboxState → Option SandboxState → Type 0
  Follows before_ after_ =
      (from : SandboxState)
      → before_ ≡ some from
      → (to : SandboxState) × (after_ ≡ some to) × Runs from to
