-- ===== src/Warm/Calls.antt =====
-- A run of the pool: any calls of its methods, each with what the outside then does.
use brezel.Common.{false, ◌≡◌, List, [], ◌∷◌, Text}
use brezel.Warm.World.{CreateRequest, Outside, World, inner_create}
use brezel.Warm.Statements.{Config, close}
use brezel.Warm.Methods.{prime, maintain, refill}
use brezel.Warm.Serving.{create, find, delete_remote}
use brezel.Warm.Within.{Within, Atoms}
use brezel.Warm.Upkeep.{prime-Within, maintain-Within}
use brezel.Warm.Served.{create-Within, find-Within, delete_remote-Within}

pub data Call : Type 0 where
  priming maintenance closing : Call
  creation : CreateRequest → Call
  lookup : Text → Text → Call
  deletion : Text → Call

module _ (o : Outside) (c : Config) where
  unfoldable pub call : Call → World → World
  call priming w = (prime o c w).0
  call maintenance w = (maintain o c w).0
  call closing w = (close w).0
  call (creation request) w = (create o c request w).0
  call (lookup local project) w = (find o c local project w).0
  call (deletion id) w = (delete_remote o c id w).0

  unfoldable pub run : List Call → World → World
  unfolding call
  run [] w = w
  run (x ∷ xs) w = run xs (call x w)

module _ {o : Outside} {c : Config} {R : World → World → Type 0} (atoms : Atoms o c R)
    (refills : (w : World) → R w (refill o c w).0) (closes : Within R close)
    (direct : (request : CreateRequest)
      → c.strict ≡ false
      → Within R (inner_create o request)) where
  call_within : (x : Call) (w : World) → R w (call o c x w)
  unfolding call
  call_within priming w = (prime-Within atoms refills).at w
  call_within maintenance w = (maintain-Within atoms refills).at w
  call_within closing w = closes.at w
  call_within (creation request) w = (create-Within atoms refills request (direct request)).at w
  call_within (lookup local project) w = (find-Within atoms refills local project).at w
  call_within (deletion id) w = (delete_remote-Within atoms refills id).at w

  pub run_within : (xs : List Call) (w : World) → R w (run o c xs w)
  unfolding run call
  run_within [] w = atoms.chained.same w
  run_within (x ∷ xs) w = atoms.chained.along (call_within x w) (run_within xs (call o c x w))
