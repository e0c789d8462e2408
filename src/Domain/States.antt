-- ===== src/Domain/States.antt =====
-- internal/domain/validation.go, CanTransition: the life of a sandbox.
use brezel.Common.{ℕ, ◌≡◌, refl, nat_eq, Bool, true, false, ◌⊎◌, inl, inr, List, [], ◌∷◌, contains}

pub data SandboxState : Type 0 where
  requested preparing running pausing standby resuming deleting deleted expired failed unknown :
      SandboxState

-- The states that the inner map of a state holds; a state without an entry has a nil map.
unfoldable pub allowed : SandboxState → List SandboxState
allowed requested = preparing ∷ failed ∷ []
allowed preparing = running ∷ failed ∷ unknown ∷ []
allowed running = pausing ∷ standby ∷ deleting ∷ expired ∷ unknown ∷ []
allowed pausing = standby ∷ unknown ∷ failed ∷ []
allowed standby = resuming ∷ running ∷ deleting ∷ expired ∷ unknown ∷ []
allowed resuming = running ∷ unknown ∷ failed ∷ []
allowed deleting = deleted ∷ expired ∷ unknown ∷ failed ∷ []
allowed unknown = running ∷ standby ∷ deleting ∷ deleted ∷ expired ∷ failed ∷ []
allowed _ = []

unfoldable pub state_code : SandboxState → ℕ
state_code requested = 0
state_code preparing = 1
state_code running = 2
state_code pausing = 3
state_code standby = 4
state_code resuming = 5
state_code deleting = 6
state_code deleted = 7
state_code expired = 8
state_code failed = 9
state_code unknown = 10

unfoldable pub can_transition : SandboxState → SandboxState → Bool
unfolding allowed state_code
can_transition from to = contains (state_code to) (codes_of (allowed from))
  where
    codes_of : List SandboxState → List ℕ
    codes_of [] = []
    codes_of (s ∷ ss) = state_code s ∷ codes_of ss

-- A sequence of transitions.
pub data Runs : SandboxState → SandboxState → Type 0 where
  stays : {s : SandboxState} → Runs s s
  moves : {s t u : SandboxState} → can_transition s t ≡ true → Runs t u → Runs s u

-- internal/service/service.go, terminal
unfoldable pub terminal : SandboxState → Bool
terminal deleted = true
terminal expired = true
terminal failed = true
terminal _ = false

-- Every state is terminal and has no transition, or is not and has a sequence of transitions to a
-- terminal one.
pub can_transition-terminal :
    (s : SandboxState)
    → ((terminal s ≡ true) × ((t : SandboxState) → can_transition s t ≡ false))
      ⊎ ((terminal s ≡ false) × (t : SandboxState) × (terminal t ≡ true) × Runs s t)
unfolding can_transition allowed state_code terminal
can_transition-terminal requested = inr (refl, failed, refl, moves refl stays)
can_transition-terminal preparing = inr (refl, failed, refl, moves refl stays)
can_transition-terminal running = inr (refl, expired, refl, moves refl stays)
can_transition-terminal pausing = inr (refl, failed, refl, moves refl stays)
can_transition-terminal standby = inr (refl, expired, refl, moves refl stays)
can_transition-terminal resuming = inr (refl, failed, refl, moves refl stays)
can_transition-terminal deleting = inr (refl, deleted, refl, moves refl stays)
can_transition-terminal deleted = inl (refl, λ t. refl)
can_transition-terminal expired = inl (refl, λ t. refl)
can_transition-terminal failed = inl (refl, λ t. refl)
can_transition-terminal unknown = inr (refl, deleted, refl, moves refl stays)
