-- ===== src/Domain/Resources.antt =====
-- internal/domain/validation.go: ValidateProjectID, ValidateEnvironment, ValidateWorkspaceName and
-- ValidateNetwork.
use brezel.Common.{
  Bool, not, ◌||◌, List, [], ◌∷◌, ◌++◌, all, Text, text_eq, codes, safe_name, trim_space,
  has_prefix, Time, contains_any, ◌==◌, Result, ◌>>◌, require,
}

pub data Error : Type 0 where
  bad_project bad_environment_name unsupported_backend no_template mutable_image : Error
  bad_destination bad_workspace_name : Error

pub record Environment : Type 0 where
  pub revision_id : Text
  pub project_id : Text
  pub name : Text
  pub backend : Text
  pub backend_template : Text
  pub image_digest : Text
  pub policy_revision : Text
  pub created_at : Time

pub record NetworkPolicy : Type 0 where
  pub allow_internet : Bool
  pub allow_out : List Text
  pub deny_out : List Text

unfoldable pub validate_project_id : Text → Result Error (Unit {0})
validate_project_id id = require (safe_name id) bad_project

unfoldable pub validate_workspace_name : Text → Result Error (Unit {0})
validate_workspace_name name = require (safe_name name) bad_workspace_name

unfoldable pub validate_environment : Environment → Result Error (Unit {0})
validate_environment e =
    validate_project_id e.project_id
    >> (require (safe_name e.name) bad_environment_name
        >> (require (e.backend == codes "microvm") unsupported_backend
            >> (require (not (trim_space e.backend_template == [])) no_template
                >> require (e.image_digest == [] || has_prefix e.image_digest (codes "sha256:"))
                    mutable_image)))

unfoldable pub valid_destination : Text → Bool
valid_destination d = not (trim_space d == [] || contains_any d (13 ∷ 10 ∷ []))

unfoldable pub validate_network : NetworkPolicy → Result Error (Unit {0})
validate_network n = require (all valid_destination (n.allow_out ++ n.deny_out)) bad_destination
