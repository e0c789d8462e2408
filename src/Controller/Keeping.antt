-- ===== src/Controller/Keeping.antt =====
-- What a step of internal/service keeps of the sandboxes that lifecycle actions have locked.
use brezel.Common.{
  inl, ◌≡◌, refl, ◌∙◌, ap, arith, true, false, not, [], some, nat_eq, contains, lookup, Text,
  text_eq, Result, ok, err, require, or_fail-ok, >>-eq-ok, ok_injective,
}
use brezel.Domain.States.{unknown, can_transition}
use brezel.Domain.Records.{Sandbox, Operation}
use brezel.Store.{State, scoped_key, validate_state, valid_state}
use brezel.Store.Files.{get_sandbox, when_open}
use brezel.Store.Scopes.{get_sandbox-scoped}
use brezel.Controller.Types.{Error, Service, key_of, guests_of}
use brezel.Controller.Transitions.{Called, translated, find_sandbox}
use brezel.Controller.Actions.{Begun, begun}
use brezel.Controller.Writes.{Valid, state_of, state_at, Legal}

-- A service keeps the sandbox under a key, if a lifecycle action has locked it.
abbrev pub Guarded : Text → Service → Service → Type 0
Guarded k s t =
    contains k s.active_backend_mutations ≡ true
    → (contains k t.active_backend_mutations ≡ true)
      × (guests_of s k ≡ [] → guests_of t k ≡ [])
      × (state_at k t.files ≡ state_at k s.files)

-- The sandbox of an action is locked, has no guest operation, and has the state in the store that
-- the action has read.
abbrev pub Locked : Service → Text → Sandbox → Type 0
Locked s key sandbox =
    (contains key s.active_backend_mutations ≡ true)
    × (guests_of s key ≡ [])
    × (key_of sandbox ≡ key)
    × (state_at key s.files ≡ some sandbox.state)

pub Locked-Guarded :
    (s t : Service) (key : Text) (sandbox : Sandbox)
    → Guarded key s t
    → Locked s key sandbox
    → Locked t key sandbox
Locked-Guarded s t key sandbox g h = let kept = g h.0 in (kept.0, kept.1 h.1, h.2, kept.2 ∙ h.3)

-- What the first step of an action does.
pub record Starts (key : Text) (s : Service) (out : Called Begun) : Type 0 where
  pub valid : Valid out.0.files
  pub guarded : (k : Text) → Guarded k s out.0
  pub fresh :
      (sandbox : Sandbox) (op : Operation)
      → out.1 ≡ ok (begun sandbox op)
      → (contains key s.active_backend_mutations ≡ false)
        × Locked out.0 key sandbox
        × (can_transition sandbox.state unknown ≡ true)
  pub legal : Legal s.files out.0.files

pub refused-Starts :
    (key : Text) (s : Service) (e : Error) → Valid s.files → Starts key s (s, err e)
refused-Starts key s e v = record {
  valid = v;
  guarded = λ k h. (h, λ g. g, refl);
  fresh = λ sandbox op h. absurd cc;
  legal = λ k. inl refl;
}

translated-ok :
    (r : Result brezel.Store.Error Sandbox) (v : Sandbox) → translated r ≡ ok v → r ≡ ok v
unfolding translated
translated-ok (ok a) v h = ap ok (ok_injective h)
translated-ok (err e) v h = absurd cc

pub found :
    (s : Service) (project id : Text) (v : Sandbox)
    → Valid s.files
    → find_sandbox s project id ≡ ok v
    → (key_of v ≡ scoped_key project id) × (state_at (scoped_key project id) s.files ≡ some v.state)
unfolding find_sandbox get_sandbox when_open validate_state
found s project id v valid h =
    let got = translated-ok (get_sandbox s.files project id) v h in
    let same = get_sandbox-scoped s.files project id v (ground arith) got in
    let there =
      or_fail-ok (lookup (scoped_key project id) s.files.state.sandboxes) _ v
        (>>-eq-ok (require (not s.files.closed) _) _ got).1 in
    (rw (same.0, same.1) refl, ap state_of there)
