-- ===== src/Lib.antt =====
-- Brezel: stateful agent sandboxes, modelled and verified in part.
--
-- Brezel runs untrusted agent commands in microVMs. A controller (internal/service) keeps the
-- durable state of sandboxes, and each node runs a relay that serves one operation for one signed
-- capability. The relay authenticates the capability, takes a lease on the route's generation in
-- the node's ledger, matches the capability with the entry it found, spends the capability's
-- identifier and hands out a binding to the entry's engine. A request to the controller is
-- authorized by the access policy, and the resources it names are validated by internal/domain.
--
-- Files and what they model:
--   Common         Go's maps, strings, times, signed integers, hex, base64 and error returns, and
--                  lemmas on them
--   Ledger         internal/nodeledger/ledger.go: Types the data, Checks the validation of a state,
--                  Disk the persistence, Operations the compare-and-swap methods, Leases operation
--                  leases and lookups. Validity says what validation accepts, Changes, Storing and
--                  Guards what each method does to a state, Steps the ledger as a transition system, and
--                  Invariant, Activity, Kept, Release, Fencing, Recovery and Reopen hold its theorems
--   Replay         internal/node/replay.go, the cache of spent identifiers; Once, Heap and Live
--                  hold its theorems
--   Capability     internal/node/capability.go: Claims the validation, Tokens the signer and the
--                  verifier; Amounts, Validity, Acceptance, Authority, Parts and Tickets hold the
--                  theorems
--   Relay          internal/node/relay_server.go, authenticate and authorize, and
--                  BindAuthorizedSandbox of internal/node/dataplane.go, on top of the three above;
--                  Admission, Findings and Authority hold the theorems
--   Domain         internal/domain/validation.go and types.go: States the states of a sandbox (with
--                  terminal of internal/service/service.go), Lifetimes, Mounts, with the test of
--                  their paths in Paths, and Resources the validation of what a request names,
--                  Cleaning what path.Clean leaves, Records the records of the store. The states are
--                  those of CanTransition, in which expired is final: docs/ARCHITECTURE.md has it go
--                  on to deleting
--   Store          internal/store/store.go: the state, its keys and its validation; Files the methods
--                  of FileStore; Scopes, Reachable, Sequences and Durable hold its theorems
--   Warm           internal/backend/warm/pool.go: Slots the table and its queries, World what the
--                  pool runs in, Statements the methods that hold the mutex, Methods and Serving
--                  those that call the backend. Within, Upkeep and Served show that a relation kept
--                  by the parts, and by a refill, is kept by every method, Picking and Invariants that a predicate on
--                  the table and the history is kept by the parts, and Calls that it is by any run;
--                  Backing says what a refill asks the backend for; Capacity, Differing, Single and
--                  Destruction hold the theorems
--   Access         internal/access/policy.go; Tenancy and Digests hold its theorems
--   Admission      internal/service/sandbox_admission.go, on the state of Store; Grounds and Sound hold its theorem
--   Controller     internal/service/service.go and guest.go, on Store: Types the Service, its requests and
--                  events, Transitions what the methods write, Actions the lifecycle actions in the two
--                  steps around their backend call, Guests the guest operations, Worlds the actions
--                  that wait for their calls. Writes says what a write does to the sandboxes, Keeping
--                  what a step keeps of them, Starting and Exclusion what the first steps do, Endings
--                  the second ones, Serving the guest operations, Cases the kinds of step; Reached, Moves and Stored hold the
--                  theorems. Observed is what reconciliation compares and writes, Repair its steps for
--                  one sandbox, Reading GetSandbox, System the controller with both. Committing, Stepping, Repairing,
--                  Finishing and Read say what these steps keep, Foreign what the actions keep of a sandbox that
--                  a reconciliation holds, Holding what any step keeps of the locks; Together and
--                  Expiring hold the theorems
--   Examples       the theorems at concrete inputs, and tests
--
-- The warm pool makes sandboxes of one template ready on a node's backend before a customer asks.
-- Its outside - the backend, the clock, the random bytes and the database's faults - is a function
-- of the history of events, about which nothing is assumed where a theorem does not say so.
--
-- Conventions: a Go string is its list of bytes, a Go map an association list in which the entry
-- of a key is the first one, a time the nanoseconds since Go's zero time with its zone, an int64 an
-- integer whose sums and differences wrap around. Every method of a mutex-guarded object is one
-- step, or two if it lets go of the mutex around a call; but a method of the warm pool, which takes
-- and releases its mutex for each statement, is one step as well, so no two of them interleave, and a
-- statement of its database that fails has no effect. Clocks and random bytes are arguments. Errors
-- are values; wrapped errors keep only the sentinel that errors.Is would find. No model needs fuel: every loop is structural recursion.
--
-- Outside the model: encoding/json and crypto/sha256 of the ledger are the record Codec of
-- Ledger/Disk, with the laws that a theorem names: Ledger/Recovery.CodecLaws, ReadsBack of the one
-- state that is written, and one entry for each key of a decoded map; those of capabilities and ed25519 are
-- Formats of Capability/Tokens; encoding/json of the
-- store is Codec of Store/Files; the file system is the outcome of each of persist's calls;
-- permissions, ownership and locking of files are left out, and so are the HTTP handlers around the
-- relay, the indexed reads of the SQLite store, the service's creation and checkpoints of
-- sandboxes and its workspaces, net/url (with ValidateConnector) and the constant time of comparisons.
pub mod Common
pub mod Ledger
pub mod Replay
pub mod Warm
pub mod Capability
pub mod Domain
pub mod Access
pub mod Store
pub mod Controller
pub mod Relay
pub mod Admission
pub mod Examples
