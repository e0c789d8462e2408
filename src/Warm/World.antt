-- ===== src/Warm/World.antt =====
-- What the pool of internal/backend/warm/pool.go runs in: its table and flag, the calls that it
-- makes of its backend, the clock, the random source and the database's faults. These outside parts
-- answer by the history of the events before, so that any behaviour of theirs is covered.
use brezel.Common.{ℕ, Bool, List, ◌∷◌, Option, Text, ℤ, Result, ok, err}
use brezel.Domain.States.{SandboxState}
use brezel.Domain.Lifetimes.{Lifecycle}
use brezel.Domain.Mounts.{WorkspaceMount}
use brezel.Domain.Resources.{NetworkPolicy}
use brezel.Warm.Slots.{Table}

-- backend.Sandbox and backend.CreateRequest
pub record Remote : Type 0 where
  pub id : Text
  pub state : SandboxState

pub record CreateRequest : Type 0 where
  pub local_sandbox_id : Text
  pub project_id : Text
  pub template_id : Text
  pub lifecycle : Lifecycle
  pub network : NetworkPolicy
  pub environment : List (Text × Text)
  pub workspace_mounts : List WorkspaceMount

-- An error of the backend, by whether errors.Is finds ErrNotFound in it.
pub data BackendError : Type 0 where
  not_found failing : BackendError

pub data Error : Type 0 where
  database no_randomness pool_closed : Error
  reservation_changed claim_not_exclusive claim_changed ownership_changed : Error
  not_running capacity_unavailable timeout_reset warm_unavailable : Error
  reset_undiscarded unusable_undiscarded : Error
  recover_creating recover_unusable create_failed create_refill : Error
  inner : BackendError → Error

-- What the pool has done outside itself: a statement of the database, with the local ids of
-- the slots that it reserved or the backend id of the one that it published or claimed, a draw of random bytes, or a call of the backend.
pub data Event : Type 0 where
  statement drawn : Event
  reserved : List Text → Event
  published : Text → Event
  claimed_for : Text → Text → Text → Event
  created : CreateRequest → Result BackendError Remote → Event
  found : Text → Text → Result BackendError Remote → Event
  inspected : Text → Result BackendError Remote → Event
  timed : Text → ℤ → Result BackendError (Unit {0}) → Event
  deleted : Text → Result BackendError (Unit {0}) → Event

abbrev pub History : Type 0
History = List Event

pub record Outside : Type 0 where
  pub now : History → ℕ
  pub faulty : History → Bool
  pub random : History → Option Text
  pub on_create : History → CreateRequest → Result BackendError Remote
  pub on_find : History → Text → Text → Result BackendError Remote
  pub on_inspect : History → Text → Result BackendError Remote
  pub on_set_timeout : History → Text → ℤ → Result BackendError (Unit {0})
  pub on_delete : History → Text → Result BackendError (Unit {0})

pub record World : Type 0 where
  pub rows : Table
  pub closed : Bool
  pub history : History

-- A method of the pool.
abbrev pub Exec : Type 0 → Type 0
Exec A = World → World × Result Error A

unfoldable pub pure : {A : Type 0} → A → Exec A
pure a w = (w, ok a)

unfoldable pub raise : {A : Type 0} → Error → Exec A
raise e w = (w, err e)

unfoldable pub resume :
    {A B : Type 0} → (A → Exec B) → World × Result Error A → World × Result Error B
resume next (w, ok a) = next a w
resume next (w, err e) = (w, err e)

infixl 5 ◌>>=◌ ◌>>◌
unfoldable pub ◌>>=◌ : {A B : Type 0} → Exec A → (A → Exec B) → Exec B
unfolding resume
◌>>=◌ first next w = resume next (first w)

unfoldable pub ◌>>◌ : {A B : Type 0} → Exec A → Exec B → Exec B
unfolding ◌>>=◌
first >> next = first >>= λ _. next

-- A call whose error the caller looks at.
unfoldable pub settled :
    {A : Type 0} → World × Result Error A → World × Result Error (Result Error A)
settled (w, r) = (w, ok r)

unfoldable pub attempt : {A : Type 0} → Exec A → Exec (Result Error A)
unfolding settled
attempt call w = settled (call w)

-- The event that the history gains.
abbrev pub logged : World → Event → World
logged w e = record w { history = e ∷ w.history }

unfoldable pub inner_create : Outside → CreateRequest → Exec (Result BackendError Remote)
inner_create o request w =
    let r = o.on_create w.history request in (logged w (created request r), ok r)

unfoldable pub inner_find : Outside → Text → Text → Exec (Result BackendError Remote)
inner_find o local project w =
    let r = o.on_find w.history local project in (logged w (found local project r), ok r)

unfoldable pub inner_inspect : Outside → Text → Exec (Result BackendError Remote)
inner_inspect o id w = let r = o.on_inspect w.history id in (logged w (inspected id r), ok r)

unfoldable pub inner_set_timeout : Outside → Text → ℤ → Exec (Result BackendError (Unit {0}))
inner_set_timeout o id seconds w =
    let r = o.on_set_timeout w.history id seconds in (logged w (timed id seconds r), ok r)

unfoldable pub inner_delete : Outside → Text → Exec (Result BackendError (Unit {0}))
inner_delete o id w = let r = o.on_delete w.history id in (logged w (deleted id r), ok r)

-- time.Now()
unfoldable pub now : Outside → Exec ℕ
now o w = (w, ok (o.now w.history))
