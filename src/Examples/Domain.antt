-- ===== src/Examples/Domain.antt =====
-- Lifecycles and mounts.
use brezel.Common.{
  ◌≡◌, ◌↔◌, refl, true, false, List, [], ◌∷◌, All, Apart, codes, text_beq, pos, int_lt, int_beq,
  int64_add, wrap_int64, ok, err, safe_name, split_on, in_front, has_prefix,
}
use brezel.Domain.Lifetimes.{
  Lifecycle, IsValid, validate_lifecycle, validate_lifecycle-IsValid, full_state, filesystem,
  filesystem_auto_resume,
}
use brezel.Domain.Mounts.{
  WorkspaceMount, IsMount, OtherWorkspace, OtherPath, validate_workspace_mounts,
  validate_workspace_mounts_iff, check_mounts, path_twice,
}
use brezel.Domain.Paths.{valid_mount_path, clean_rooted}
use brezel.Domain.States.{
  can_transition-terminal, terminal, can_transition, Runs, SandboxState, unknown,
}
use brezel.Common.{◌⊎◌}

resources : Unit {0}
unfolding validate_lifecycle int_lt int_beq int64_add wrap_int64 validate_workspace_mounts
    check_mounts valid_mount_path clean_rooted safe_name split_on in_front has_prefix text_beq
resources = tt

abbrev lifecycle : Lifecycle
lifecycle = record {
  standby_after_seconds = pos 60;
  standby_grace_seconds = pos 10;
  expires_after_seconds = pos 3600;
  standby_checkpoint = full_state;
  auto_resume = true;
}

validate_lifecycle-IsValid_example : (validate_lifecycle lifecycle ≡ ok tt) ↔ IsValid lifecycle
validate_lifecycle-IsValid_example = validate_lifecycle-IsValid lifecycle

lifecycle_test : validate_lifecycle lifecycle ≡ ok tt
unfolding resources
lifecycle_test = refl

resume_test :
    validate_lifecycle (record lifecycle { standby_checkpoint = filesystem })
    ≡ err filesystem_auto_resume
unfolding resources
resume_test = refl

abbrev mounts : List WorkspaceMount
mounts =
    record { workspace_id = codes "w1"; path = codes "/data" }
    ∷ record { workspace_id = codes "w2"; path = codes "/src/x" }
    ∷ []

validate_workspace_mounts_iff_example :
    (validate_workspace_mounts mounts ≡ ok tt)
    ↔ (All IsMount mounts × Apart OtherWorkspace mounts × Apart OtherPath mounts)
validate_workspace_mounts_iff_example = validate_workspace_mounts_iff mounts

mounts_test : validate_workspace_mounts mounts ≡ ok tt
unfolding resources
mounts_test = refl

twice_test :
    validate_workspace_mounts (record { workspace_id = codes "w3"; path = codes "/src/x" } ∷ mounts)
    ≡ err path_twice
unfolding resources
twice_test = refl

can_transition-terminal_example :
    ((terminal unknown ≡ true) × ((t : SandboxState) → can_transition unknown t ≡ false))
    ⊎ ((terminal unknown ≡ false) × (t : SandboxState) × (terminal t ≡ true) × Runs unknown t)
can_transition-terminal_example = can_transition-terminal unknown
