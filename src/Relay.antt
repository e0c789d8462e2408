-- ===== src/Relay.antt =====
-- internal/node/relay_server.go: how the relay admits an operation. It authenticates the token of a
-- request, leases the route's generation in the ledger, matches the claims against it, spends the
-- token's identifier, and hands out a binding; and internal/node/dataplane.go, BindAuthorizedSandbox.
pub mod Admission
pub mod Findings
pub mod Authority
use brezel.Common.{
  ℕ, ◌+◌, ◌-◌, ◌*◌, ◌^◌, Bool, true, false, not, ◌&&◌, ◌||◌, List, [], ◌∷◌, ◌++◌, Option, none,
  some, length, ltb, leb, ◌==◌, nat_eq, all, if◌then◌else◌, ℤ, pos, negsuc, Text, text_eq, codes,
  trim_space, contains_any, has_prefix, Time, east, Result, ok, err, Comparable,
}
use brezel.Ledger.Types.{State, ready, draining, state_eq, Route, Binding, binding_from_disk}
use brezel.Ledger.Operations.{Ledger}
use brezel.Ledger.Leases.{Lease, acquire_operation, release, resolve}
use brezel.Replay
use brezel.Replay.{ReplayCache, use_jti}
use brezel.Capability
use brezel.Ledger.Types
use brezel.Capability.{CapabilityClaims, CapabilityExpected}
use brezel.Capability.Tokens.{
  CapabilityVerifier, Formats, authenticate, match_claims, first_is, second,
}

-- The status and code of a refused request.
pub data Refusal : Type 0 where
  is_draining missing_route invalid_authorization capability_rejected : Refusal
  route_changed route_not_found invalid_route not_ready : Refusal

pub record RelayServer : Type 0 where
  pub node_id : Text
  pub boot_epoch : Text
  pub audience : Text
  pub ledger : Ledger
  pub verifier : CapabilityVerifier
  pub replay : ReplayCache
  pub draining : Bool

-- The values of the Authorization header
unfoldable pub relay_capability : List Text → Option Text
relay_capability (value ∷ []) =
    if has_prefix value (codes "BrezelCapability ")
    then usable (without (codes "BrezelCapability ") value)
    else none
  where
    without : Text → Text → Text
    without [] s = s
    without (p ∷ ps) [] = []
    without (p ∷ ps) (c ∷ s) = without ps s

    usable : Text → Option Text
    usable token =
        if token == [] || contains_any token (32 ∷ 9 ∷ 13 ∷ 10 ∷ 44 ∷ []) then none else some token
relay_capability _ = none

-- The values of the route header
unfoldable pub relay_route_id : List Text → Option Text
relay_route_id (value ∷ []) =
    if not (value == [])
      && (trim_space value == value && not (contains_any value (44 ∷ 0 ∷ 13 ∷ 10 ∷ [])))
    then some value
    else none
relay_route_id _ = none

pub record RelayAuthorization : Type 0 where
  pub route_id : Text
  pub claims : CapabilityClaims

unfoldable pub own_claims : RelayServer → Text → Text → CapabilityClaims → Bool
own_claims s route operation c =
    c.audience == s.audience
    && (c.node_id == s.node_id
        && (c.boot_epoch == s.boot_epoch
            && (c.route_id == route
                && (length c.operations == 1 && first_is c.operations operation))))

unfoldable pub checked_claims :
    RelayServer
    → Text
    → Text
    → Result Capability.Error CapabilityClaims
    → Result Refusal RelayAuthorization
checked_claims s route operation (err why) = err capability_rejected
checked_claims s route operation (ok c) =
    if own_claims s route operation c
    then ok (record { route_id = route; claims = c })
    else err capability_rejected

-- authenticate, on the two headers
unfoldable pub authenticate_request :
    Formats → RelayServer → Time → List Text → List Text → Text → Result Refusal RelayAuthorization
authenticate_request f s clock routes authorizations operation =
    if s.draining then err is_draining else elim (relay_route_id routes) [
      | none ↦ err missing_route
      | some route ↦ elim (relay_capability authorizations) [
        | none ↦ err invalid_authorization
        | some token ↦ checked_claims s route operation (authenticate f s.verifier clock token)
      ]
    ]

-- `time.Unix(seconds, 0)`, which no claims that were authenticated put before the zero time
unfoldable pub from_unix : ℤ → Time
from_unix (pos n) = record { instant = (n + 62135596800) * second; offset = east 0 }
from_unix (negsuc n) = record { instant = (62135596800 - (n + 1)) * second; offset = east 0 }

-- A SandboxBinding that BindAuthorizedSandbox returns
pub record SandboxBinding : Type 0 where
  pub project_id : Text
  pub sandbox_id : Text
  pub backend_id : Text
  pub revision : ℕ
  pub expires_at : Time

unfoldable pub bindable_id : Text → Bool
bindable_id value = not (trim_space value == [] || contains_any value (0 ∷ 13 ∷ 10 ∷ []))

-- The tests of BindAuthorizedSandbox, for the operation id `relay`
unfoldable pub bindable : SandboxBinding → ℕ → Bool
bindable b now =
    all bindable_id (b.project_id ∷ b.sandbox_id ∷ b.backend_id ∷ codes "relay" ∷ [])
    && (not (ltb b.revision 1)
        && not (b.expires_at.instant == 0 || not (ltb now b.expires_at.instant)))

-- BindAuthorizedSandbox at the binding clock's time `now`
unfoldable pub bind_authorized_sandbox : SandboxBinding → ℕ → Option SandboxBinding
bind_authorized_sandbox b now = if bindable b now then some b else none

-- The arguments that authorize gives to BindAuthorizedSandbox
abbrev pub binding_for : CapabilityClaims → Binding → SandboxBinding
binding_for c current = record {
  project_id = current.route.project_id;
  sandbox_id = current.route.sandbox_id;
  backend_id = current.engine_id;
  revision = current.route.generation;
  expires_at = from_unix c.expires_at;
}

-- writeRelayLedgerError
unfoldable pub ledger_refusal : Types.Error → Refusal
ledger_refusal Types.not_found = route_not_found
ledger_refusal Types.invalid = invalid_route
ledger_refusal Types.stale_generation = route_changed
ledger_refusal Types.state_conflict = route_changed
ledger_refusal Types.active_operations = route_changed
ledger_refusal _ = not_ready

-- releaseLease
unfoldable pub release_lease : RelayServer → Lease → RelayServer
release_lease s lease = record s { ledger = (release s.ledger lease).0 }

-- `claims.Operations[0]`, which claims that were authenticated have
unfoldable pub sole_operation : List Text → Text
sole_operation [] = []
sole_operation (o ∷ os) = o

abbrev pub expected_at : RelayServer → CapabilityClaims → Route → Text → CapabilityExpected
expected_at s c public digest = record {
  audience = s.audience;
  node_id = s.node_id;
  boot_epoch = s.boot_epoch;
  route_id = public.route_id;
  generation = public.generation;
  project_id = public.project_id;
  sandbox_id = public.sandbox_id;
  operation = sole_operation c.operations;
  request_digest = digest;
}

abbrev pub Authorized : Type 0
Authorized = RelayServer × Result Refusal (SandboxBinding × Lease)

-- The binding, once the identifier is spent
unfoldable pub handed_out : RelayServer → Lease → Option SandboxBinding → Authorized
handed_out s lease none = (release_lease s lease, err route_changed)
handed_out s lease (some binding) = (s, ok (binding, lease))

-- The outcome of Use
unfoldable pub spent :
    RelayServer
    → CapabilityClaims
    → Binding
    → Lease
    → ℕ
    → ReplayCache × Result Replay.Error (Unit {0})
    → Authorized
spent s c current lease bind_now (cache, err why) =
    (release_lease (record s { replay = cache }) lease, err capability_rejected)
spent s c current lease bind_now (cache, ok done) =
    handed_out (record s { replay = cache }) lease
      (bind_authorized_sandbox (binding_for c current) bind_now)

-- What follows the lease: the checks, each of which gives the lease back where it refuses.
unfoldable pub leased : RelayServer → CapabilityClaims → Text → ℕ → ℕ → Binding → Lease → Authorized
leased s c digest use_now bind_now current lease =
    if ltb (2 ^ 63 - 1) current.route.generation || current.engine_id == []
    then (release_lease s lease, err route_changed)
    else elim (match_claims s.verifier c (expected_at s c current.route digest)) [
      | err why ↦ (release_lease s lease, err capability_rejected)
      | ok matched ↦
          spent s c current lease bind_now
            (use_jti s.replay use_now c.jti (from_unix c.expires_at).instant)
    ]

unfoldable pub after_acquire :
    RelayServer
    → CapabilityClaims
    → Text
    → ℕ
    → ℕ
    → Ledger × Result Types.Error (Binding × Lease)
    → Authorized
after_acquire s c digest use_now bind_now (l, err why) =
    (record s { ledger = l }, err (ledger_refusal why))
after_acquire s c digest use_now bind_now (l, ok (current, lease)) =
    leased (record s { ledger = l }) c digest use_now bind_now current lease

-- authorize, with the times that the replay cache and the binding read
unfoldable pub authorize_request : RelayServer → RelayAuthorization → Text → ℕ → ℕ → Authorized
authorize_request s a digest use_now bind_now =
    let c = a.claims in
    after_acquire s c digest use_now bind_now
      (acquire_operation s.ledger a.route_id c.project_id c.sandbox_id c.generation)

-- The check that a binding makes of the ledger before each use: `active` until it is released.
unfoldable pub still_bound :
    RelayServer → Bool → SandboxBinding → Text → Text → Text → Text → ℕ → Bool
still_bound s active b route project sandbox engine revision =
    if not active || (ltb revision 1 || not (revision == b.revision))
    then false
    else elim (resolve s.ledger route) [
      | err why ↦ false
      | ok current ↦
          current.route.project_id == project
          && (current.route.sandbox_id == sandbox
              && (current.route.generation == b.revision
                  && ((current.route.state == ready || current.route.state == draining)
                      && (current.engine_id == b.backend_id && engine == b.backend_id))))
    ]
