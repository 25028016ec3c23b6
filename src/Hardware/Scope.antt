-- ===== src/Hardware/Scope.antt =====
-- When a contract passes `validate_scope` of src/mcp_venus_os/hardware_contracts.py.
use mcp_venus_os.Prelude.{
  ◌≡◌, ◌↔◌, ◌⊎◌, refl, true, not, ◌&&◌, ◌||◌, some, List, [], ◌∷◌, map, All, all_iff, all-keep,
  all-&&, all, any, arith, str_eq, str_eq_iff,
}
use mcp_venus_os.Prelude.Int.{eqb_ℤ_iff}
use mcp_venus_os.Hardware.{
  Role, venus_firmware, target_product, target_firmware, bms_product, bms_firmware, role_eq,
  IdentityProbe, HardwareWriteContract, same_roles, expected_roles, is_target_role, is_bms_role,
  same_device, target_probes_ok, bms_probes_ok, validate_scope,
}
use mcp_venus_os.Hardware.Semantics.{IsModeContract, IsRangeContract, value_semantics_iff}

-- Some probe of the contract has the role.
abbrev pub Covers : List IdentityProbe → Role → Type 0
Covers [] r = ⊥
Covers (p ∷ ps) r = (p.role ≡ r) ⊎ Covers ps r

-- Probes of the target's product and firmware are on the target; those of the BMS on a battery.
abbrev pub ScopedAs : Role → HardwareWriteContract → IdentityProbe → Type 0
ScopedAs target_product c p = (p.device_type ≡ c.device_type) × (p.instance_id ≡ c.instance_id)
ScopedAs target_firmware c p = (p.device_type ≡ c.device_type) × (p.instance_id ≡ c.instance_id)
ScopedAs bms_product c p = p.device_type ≡ "battery"
ScopedAs bms_firmware c p = p.device_type ≡ "battery"
ScopedAs venus_firmware c p = Unit

abbrev pub IsScoped : HardwareWriteContract → IdentityProbe → Type 0
IsScoped c p = ScopedAs p.role c p

pub record IsWellScoped (c : HardwareWriteContract) : Type 0 where
  pub complete : All (Covers c.identity) expected_roles
  pub scoped : All (IsScoped c) c.identity
  pub meaning : IsModeContract c ⊎ IsRangeContract c

role_eq_iff : (a b : Role) → (role_eq a b ≡ true) ↔ (a ≡ b)
unfolding role_eq
role_eq_iff venus_firmware venus_firmware = ground arith
role_eq_iff target_product target_product = ground arith
role_eq_iff target_firmware target_firmware = ground arith
role_eq_iff bms_product bms_product = ground arith
role_eq_iff bms_firmware bms_firmware = ground arith
role_eq_iff _ _ = ground arith

is_expected : (r : Role) → any (role_eq r) expected_roles ≡ true
unfolding role_eq
is_expected venus_firmware = refl
is_expected _ = refl

all_expected : (rs : List Role) → all (λ r. any (role_eq r) expected_roles) rs ≡ true
all_expected [] = refl
all_expected (r ∷ rs) = ground (arith, is_expected r, all_expected rs)

any-Covers :
    (ps : List IdentityProbe) (r : Role)
    → (any (role_eq r) (map (λ p. p.role) ps) ≡ true) ↔ Covers ps r
any-Covers [] r = ground arith
any-Covers (p ∷ ps) r = ground (
  arith,
  (role_eq_iff r p.role).0,
  (role_eq_iff r p.role).1,
  (any-Covers ps r).0,
  (any-Covers ps r).1,
)

same_roles_iff :
    (ps : List IdentityProbe)
    → (same_roles (map (λ p. p.role) ps) expected_roles ≡ true) ↔ All (Covers ps) expected_roles
same_roles_iff ps =
    rw (all_expected (map (λ p. p.role) ps)) (all_iff _ (Covers ps) expected_roles (any-Covers ps))

scoped_as :
    (r : Role) (c : HardwareWriteContract) (p : IdentityProbe)
    → ((not (is_target_role r) || same_device c p)
          && (not (is_bms_role r) || str_eq p.device_type "battery")
        ≡ true)
      ↔ ScopedAs r c p
unfolding is_target_role is_bms_role
scoped_as venus_firmware c p = ground arith
scoped_as _ c p = ground (
  arith,
  str_eq_iff p.device_type c.device_type,
  eqb_ℤ_iff p.instance_id c.instance_id,
  str_eq_iff p.device_type "battery",
)

probes_iff :
    (c : HardwareWriteContract)
    → (target_probes_ok c && bms_probes_ok c ≡ true) ↔ All (IsScoped c) c.identity
unfolding target_probes_ok bms_probes_ok
probes_iff c =
    rw (all-keep, all-keep, all-&&) (all_iff _ (IsScoped c) c.identity (λ p. scoped_as p.role c p))

-- A contract passes its validator, unchanged, exactly when its probes cover the five roles and are
-- on the right devices, and it is a well-formed mode contract or range contract.
pub validate_scope_iff : (c : HardwareWriteContract) → (validate_scope c ≡ some c) ↔ IsWellScoped c
unfolding validate_scope
validate_scope_iff c = (
  λ h. record {
    complete = (same_roles_iff c.identity).0 (ground arith);
    scoped = (probes_iff c).0 (ground arith);
    meaning = (value_semantics_iff c).0 (ground arith);
  },
  λ w.
      let complete = (same_roles_iff c.identity).1 w.complete in
      let scoped = (probes_iff c).1 w.scoped in
      let meaning = (value_semantics_iff c).1 w.meaning in ground arith,
)
