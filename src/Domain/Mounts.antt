-- ===== src/Domain/Mounts.antt =====
-- internal/domain/validation.go, ValidateWorkspaceMounts.
use brezel.Common.{
  ◌≡◌, ◌≢◌, ◌↔◌, refl, true, false, not, List, [], ◌∷◌, contains, arith, All, Apart, nat_eq,
  text_beq_iff, All-map, Text, text_eq, safe_name, Result, ok, ◌>>◌, require, require-ok, >>-eq-ok,
}
use brezel.Domain.Paths.{valid_mount_path, IsMountPath}
use brezel.Domain.Cleaning.{valid_mount_path_iff}

pub data Error : Type 0 where
  bad_workspace_id unclean_path workspace_twice path_twice : Error

pub record WorkspaceMount : Type 0 where
  pub workspace_id : Text
  pub path : Text

unfoldable pub check_mounts : List Text → List Text → List WorkspaceMount → Result Error (Unit {0})
check_mounts workspaces paths [] = ok tt
check_mounts workspaces paths (mount ∷ mounts) =
    require (safe_name mount.workspace_id) bad_workspace_id
    >> (require (valid_mount_path mount.path) unclean_path
        >> (require (not (contains mount.workspace_id workspaces)) workspace_twice
            >> (require (not (contains mount.path paths)) path_twice
                >> check_mounts (mount.workspace_id ∷ workspaces) (mount.path ∷ paths) mounts)))

unfoldable pub validate_workspace_mounts : List WorkspaceMount → Result Error (Unit {0})
validate_workspace_mounts mounts = check_mounts [] [] mounts

-- The id is a safe name and the path goes from the root down through elements.
pub record IsMount (m : WorkspaceMount) : Type 0 where
  pub id : safe_name m.workspace_id ≡ true
  pub path : IsMountPath m.path

abbrev pub OtherWorkspace : WorkspaceMount → WorkspaceMount → Type 0
OtherWorkspace m n = m.workspace_id ≢ n.workspace_id

abbrev pub OtherPath : WorkspaceMount → WorkspaceMount → Type 0
OtherPath m n = m.path ≢ n.path

-- A mount that the loop accepts after the ids and paths that it has seen.
abbrev Fits : List Text → List Text → WorkspaceMount → Type 0
Fits ws ps m = IsMount m × (contains m.workspace_id ws ≡ false) × (contains m.path ps ≡ false)

All-Fits :
    (ws ps : List Text) (m : WorkspaceMount) (ms : List WorkspaceMount)
    → All (Fits (m.workspace_id ∷ ws) (m.path ∷ ps)) ms
      ↔ (All (Fits ws ps) ms × All (OtherWorkspace m) ms × All (OtherPath m) ms)
All-Fits ws ps m [] = (λ h. (tt, tt, tt), λ h. tt)
All-Fits ws ps m (n ∷ ms) =
    let rest = All-Fits ws ps m ms in
    (
      λ h. (
        ((h.0.0, ground arith, ground arith), (rest.0 h.1).0),
        (λ e. ground (arith, text_beq_iff n.workspace_id m.workspace_id), (rest.0 h.1).1),
        (λ e. ground (arith, text_beq_iff n.path m.path), (rest.0 h.1).2),
      ),
      λ h. (
        (
          h.0.0.0,
          ground (arith, text_beq_iff n.workspace_id m.workspace_id),
          ground (arith, text_beq_iff n.path m.path),
        ),
        rest.1 (h.0.1, h.1.1, h.2.1),
      ),
    )

check_mounts_iff :
    (ws ps : List Text) (ms : List WorkspaceMount)
    → (check_mounts ws ps ms ≡ ok tt)
      ↔ (All (Fits ws ps) ms × Apart OtherWorkspace ms × Apart OtherPath ms)
unfolding check_mounts
check_mounts_iff ws ps [] = (λ h. (tt, tt, tt), λ h. refl)
check_mounts_iff ws ps (m ∷ ms) =
    let rest = check_mounts_iff (m.workspace_id ∷ ws) (m.path ∷ ps) ms in
    let fits = All-Fits ws ps m ms in
    (
      λ h.
          let a = >>-eq-ok (require (safe_name m.workspace_id) bad_workspace_id) _ h in
          let b = >>-eq-ok (require (valid_mount_path m.path) unclean_path) _ a.1 in
          let c = >>-eq-ok (require (not (contains m.workspace_id ws)) workspace_twice) _ b.1 in
          let d = >>-eq-ok (require (not (contains m.path ps)) path_twice) _ c.1 in
          let r = rest.0 d.1 in
          let f = fits.0 r.0 in
          (
            (
              (
                record {
                  id = require-ok _ bad_workspace_id a.0;
                  path = (valid_mount_path_iff m.path).0 (require-ok _ unclean_path b.0);
                },
                ground (arith, require-ok (not (contains m.workspace_id ws)) workspace_twice c.0),
                ground (arith, require-ok (not (contains m.path ps)) path_twice d.0),
              ),
              f.0,
            ),
            (f.1, r.1),
            (f.2, r.2),
          ),
      λ h. ground (
        arith,
        IsMount.id h.0.0.0,
        (valid_mount_path_iff m.path).1 (IsMount.path h.0.0.0),
        h.0.0.1,
        h.0.0.2,
        rest.1 (fits.1 (h.0.1, h.1.0, h.2.0), h.1.1, h.2.1),
      ),
    )

-- ValidateWorkspaceMounts accepts a list of mounts exactly if each of them has a safe id and a path
-- of at most 4096 bytes without NUL that is a slash and an element, once or more, where an element
-- is a name without slashes that is not empty, "." or "..", and any two mounts differ in both.
pub validate_workspace_mounts_iff :
    (ms : List WorkspaceMount)
    → (validate_workspace_mounts ms ≡ ok tt)
      ↔ (All IsMount ms × Apart OtherWorkspace ms × Apart OtherPath ms)
unfolding validate_workspace_mounts
validate_workspace_mounts_iff ms =
    let loop = check_mounts_iff [] [] ms in
    (
      λ h. (All-map (Fits [] []) IsMount (λ m f. f.0) ms (loop.0 h).0, (loop.0 h).1, (loop.0 h).2),
      λ h. loop.1 (All-map IsMount (Fits [] []) (λ m v. (v, refl, refl)) ms h.0, h.1, h.2),
    )
