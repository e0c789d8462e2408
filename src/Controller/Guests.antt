-- ===== src/Controller/Guests.antt =====
-- The guest operations of internal/service/guest.go.
use brezel.Common.{
  ℕ, ◌+◌, ◌-◌, not, ◌&&◌, ◌||◌, [], ◌∷◌, none, some, leb, ◌==◌, nat_eq, if◌then◌else◌, contains,
  length, lookup, insert, delete, Text, text_eq, safe_name, trim_space, contains_any, int_lt, pos,
  Time, before, Result, ok, err, ◌>>◌, require,
}
use brezel.Domain.States.{running, standby}
use brezel.Domain.Records.{Sandbox}
use brezel.Store.{scoped_key}
use brezel.Store.Files.{Codec}
use brezel.Controller.Types.{
  Error, invalid, conflict, quota, backend_error, Service, Outside, same_state, guests_of,
}
use brezel.Controller.Transitions.{Called, find_sandbox, record_activity}
use brezel.Controller.Actions.{remove_key, checked}

module _ (c : Codec) where
  unfoldable pub count_of : Service → Text → ℕ
  count_of s project = elim (lookup project s.active_guest_ops_by_project) [ none ↦ 0 | some n ↦ n ]

  unfoldable pub may_serve : Outside → Service → ℕ → Text → Text → Sandbox → Result Error (Unit {0})
  may_serve o s limit project id sandbox =
      require (not (contains (scoped_key project id) s.active_backend_mutations)) conflict
      >> (require (before o.now sandbox.expires_at) conflict
          >> (require
                (same_state sandbox.state running
                  || same_state sandbox.state standby && sandbox.lifecycle.auto_resume)
                conflict
              >> (require (not (sandbox.backend_id == [])) backend_error
                  >> require (not (leb limit (count_of s project))) quota)))

  -- The registration of an operation with its sandbox and its project.
  unfoldable pub registered : Service → Text → Text → Text → Service
  registered s project key operation = record s {
    active_guest_ops =
        insert key (operation ∷ remove_key operation (guests_of s key)) s.active_guest_ops;
    active_guest_ops_by_project =
        insert project (count_of s project + 1) s.active_guest_ops_by_project;
  }

  -- `s.recentActivity[key] = startedAt`
  unfoldable pub started_at : Text → Time → Called Sandbox → Called Sandbox
  started_at key at (s, err e) = (s, err e)
  started_at key at (s, ok sandbox) =
      (record s { recent_activity = insert key at s.recent_activity }, ok sandbox)

  unfoldable pub record_start : Outside → Service → Text → Text → Sandbox → Called Sandbox
  record_start o s project id sandbox =
      if int_lt (pos 0) sandbox.lifecycle.standby_after_seconds
      then started_at (scoped_key project id) o.now (record_activity c o s project id o.now)
      else (s, ok sandbox)

  unfoldable pub acquired : Text → Text → Text → Called Sandbox → Called Sandbox
  acquired project id operation (s, err e) = (s, err e)
  acquired project id operation (s, ok sandbox) =
      (registered s project (scoped_key project id) operation, ok sandbox)

  unfoldable pub acquire_guest_operation :
      Outside → Service → ℕ → Text → Text → Text → Called Sandbox
  acquire_guest_operation o s limit project id operation =
      checked s
        (require (safe_name project) invalid
          >> (require (not (trim_space id == [] || contains_any id (13 ∷ 10 ∷ []))) invalid
              >> find_sandbox s project id))
        λ sandbox.
          checked s (may_serve o s limit project id sandbox)
            λ u. acquired project id operation (record_start o s project id sandbox)

  -- The removal of an operation: a sandbox or a project without operations has no entry.
  unfoldable pub unregistered : Service → Text → Text → Text → Service
  unregistered s project key operation =
      let left = remove_key operation (guests_of s key) in
      record s {
        active_guest_ops =
            if leb (length left) 0
            then delete key s.active_guest_ops
            else insert key left s.active_guest_ops;
        active_guest_ops_by_project =
            if leb (count_of s project) 1
            then delete project s.active_guest_ops_by_project
            else insert project (count_of s project - 1) s.active_guest_ops_by_project;
      }

  unfoldable pub record_release : Outside → Service → Text → Text → Sandbox → Service
  record_release o s project id sandbox =
      let noted = record s {
        recent_activity = insert (scoped_key project id) o.now s.recent_activity;
      } in
      if int_lt (pos 0) sandbox.lifecycle.standby_after_seconds
      then (record_activity c o noted project id o.now).0
      else s

  unfoldable pub release_guest_operation :
      Outside → Service → Text → Text → Text → Sandbox → Service
  release_guest_operation o s project id operation sandbox =
      unregistered (record_release o s project id sandbox) project (scoped_key project id) operation
