-- ===== src/Domain/Lifetimes.antt =====
-- internal/domain/validation.go, ValidateLifecycle.
use brezel.Common.{
  ℕ, ◌+◌, ◌*◌, ◌≤◌, ◌<◌, ◌≡◌, ◌↔◌, ◌⊎◌, inl, inr, refl, sym, subst, Bool-cases, Bool, true, false,
  not, ◌&&◌, ◌||◌, arith, ◌==◌, nat_eq, ℤ, pos, negsuc, int_lt, int_beq, int64_add, wrap_int64,
  Result, ok, ◌>>◌, require,
}

-- A CheckpointKind is a string; `other` is one that is no constant of the type.
pub data CheckpointKind : Type 0 where
  filesystem full_state other : CheckpointKind

pub data Error : Type 0 where
  expiry_out_of_range negative_standby grace_out_of_range grace_without_standby : Error
  standby_after_expiry grace_after_expiry unknown_checkpoint filesystem_auto_resume
        auto_resume_without_standby :
      Error

pub record Lifecycle : Type 0 where
  pub standby_after_seconds : ℤ
  pub standby_grace_seconds : ℤ
  pub expires_after_seconds : ℤ
  pub standby_checkpoint : CheckpointKind
  pub auto_resume : Bool

abbrev pub max_expiry : ℕ
max_expiry = 30 * 24 * 60 * 60

abbrev pub known_kind : CheckpointKind → Bool
known_kind filesystem = true
known_kind full_state = true
known_kind other = false

abbrev pub is_filesystem : CheckpointKind → Bool
is_filesystem filesystem = true
is_filesystem full_state = false
is_filesystem other = false

-- `if test { return why }`
abbrev pub deny : Bool → Error → Result Error (Unit {0})
deny test why = require (not test) why

unfoldable pub validate_lifecycle : Lifecycle → Result Error (Unit {0})
validate_lifecycle l =
    let standby = int_lt (pos 0) l.standby_after_seconds in
    let no_standby = int_beq l.standby_after_seconds (pos 0) in
    deny
      (int_lt l.expires_after_seconds (pos 30) || int_lt (pos max_expiry) l.expires_after_seconds)
      expiry_out_of_range
    >> (deny (int_lt l.standby_after_seconds (pos 0)) negative_standby
        >> (deny
              (int_lt l.standby_grace_seconds (pos 0) || int_lt (pos 300) l.standby_grace_seconds)
              grace_out_of_range
            >> (deny (no_standby && int_lt (pos 0) l.standby_grace_seconds) grace_without_standby
                >> (deny (standby && not (int_lt l.standby_after_seconds l.expires_after_seconds))
                      standby_after_expiry
                    >> (deny
                          (standby
                            && not (
                                int_lt (int64_add l.standby_after_seconds l.standby_grace_seconds)
                                  l.expires_after_seconds))
                          grace_after_expiry
                        >> (deny (standby && not (known_kind l.standby_checkpoint))
                              unknown_checkpoint
                            >> (deny
                                  (standby && (l.auto_resume && is_filesystem l.standby_checkpoint))
                                  filesystem_auto_resume
                                >> deny (l.auto_resume && no_standby)
                                    auto_resume_without_standby)))))))

-- The lifecycles that make sense, in seconds: an expiry of 30 seconds to 30 days and a grace of at
-- most 300; and either no standby, grace or resumption at all, or a standby whose idle and grace
-- periods end before the expiry, of a known kind, from which only a full state resumes by itself.
pub record Sensible (a g x : ℕ) (k : CheckpointKind) (resumes : Bool) : Type 0 where
  pub least : 30 ≤ x
  pub most : x ≤ max_expiry
  pub grace : g ≤ 300
  pub standby :
      ((a ≡ 0) × (g ≡ 0) × (resumes ≡ false))
      ⊎ ((0 < a) × (a + g < x) × (known_kind k ≡ true) × ((resumes && is_filesystem k) ≡ false))

pub record IsValid (l : Lifecycle) : Type 0 where
  pub standby_after : ℕ
  pub grace : ℕ
  pub expires_after : ℕ
  pub standby_after_seconds : l.standby_after_seconds ≡ pos standby_after
  pub standby_grace_seconds : l.standby_grace_seconds ≡ pos grace
  pub expires_after_seconds : l.expires_after_seconds ≡ pos expires_after
  pub sensible : Sensible standby_after grace expires_after l.standby_checkpoint l.auto_resume

abbrev of_counts : ℤ → ℤ → ℤ → CheckpointKind → Bool → Lifecycle
of_counts a g x k r = record {
  standby_after_seconds = a;
  standby_grace_seconds = g;
  expires_after_seconds = x;
  standby_checkpoint = k;
  auto_resume = r;
}

sensible_lem :
    (a g x : ℕ) (k : CheckpointKind) (r : Bool)
    → (validate_lifecycle (of_counts (pos a) (pos g) (pos x) k r) ≡ ok tt) ↔ Sensible a g x k r
unfolding validate_lifecycle int_lt int_beq int64_add wrap_int64
sensible_lem a g x k r = (
  λ h. record {
    least = ground arith;
    most = ground arith;
    grace = ground arith;
    standby = elim (Bool-cases (a == 0)) [
      | inl none ↦ inl (ground arith, ground arith, ground arith)
      | inr some ↦ inr (ground arith, ground arith, ground arith, ground arith)
    ];
  },
  λ v. elim (Sensible.standby v) [
    | inl up ↦ ground (arith, Sensible.least v, Sensible.most v, Sensible.grace v)
    | inr by ↦ ground (arith, Sensible.least v, Sensible.most v, Sensible.grace v)
  ],
)

counted :
    (a g x : ℤ) (k : CheckpointKind) (r : Bool)
    → validate_lifecycle (of_counts a g x k r) ≡ ok tt
    → (b : ℕ) × (h : ℕ) × (y : ℕ) × (a ≡ pos b) × (g ≡ pos h) × (x ≡ pos y)
unfolding validate_lifecycle int_lt int_beq
counted (pos a) (pos g) (pos x) k r e = (a, g, x, refl, refl, refl)
counted (pos a) (pos g) (negsuc x) k r e = ground arith
counted (pos a) (negsuc g) x k r e = ground arith
counted (negsuc a) g x k r e = ground arith

renamed :
    {a b g h x y : ℤ} (k : CheckpointKind) (r : Bool)
    → a ≡ b
    → g ≡ h
    → x ≡ y
    → of_counts a g x k r ≡ of_counts b h y k r
renamed k r p q s = cc

-- ValidateLifecycle accepts a lifecycle exactly if its times are not negative and sensible: an expiry
-- of 30 seconds to 30 days, a grace of at most 300, and either no standby, grace or automatic
-- resumption, or a standby whose idle and grace periods end before the expiry, of a known kind, which
-- is a full state if the sandbox resumes automatically.
pub validate_lifecycle-IsValid : (l : Lifecycle) → (validate_lifecycle l ≡ ok tt) ↔ IsValid l
validate_lifecycle-IsValid l = (
  λ h.
      let n =
        counted l.standby_after_seconds l.standby_grace_seconds l.expires_after_seconds
          l.standby_checkpoint l.auto_resume h in
      record {
        standby_after = n.0;
        grace = n.1;
        expires_after = n.2;
        standby_after_seconds = n.3;
        standby_grace_seconds = n.4;
        expires_after_seconds = n.5;
        sensible = (sensible_lem n.0 n.1 n.2 l.standby_checkpoint l.auto_resume).0 (
            subst (λ m. validate_lifecycle m ≡ ok tt)
              (renamed l.standby_checkpoint l.auto_resume n.3 n.4 n.5) h);
      },
  λ v.
      subst (λ m. validate_lifecycle m ≡ ok tt)
        (sym (
          renamed l.standby_checkpoint l.auto_resume v.standby_after_seconds v.standby_grace_seconds
            v.expires_after_seconds))
        ((sensible_lem v.standby_after v.grace v.expires_after l.standby_checkpoint l.auto_resume).1
          v.sensible),
)
