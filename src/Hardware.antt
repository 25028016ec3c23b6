-- ===== src/Hardware.antt =====
-- src/mcp_venus_os/hardware_contracts.py: reviewed write contracts and their validator.
-- The pydantic model is a record; `validate_scope` is its model validator.
pub mod Validation
pub mod Semantics
pub mod Scope
pub mod Approval
pub mod Gate
pub mod Patterns
pub mod Tests
use mcp_venus_os.Prelude.{
  String, Bool, true, false, not, ◌&&◌, ◌||◌, Option, none, some, List, [], ◌∷◌, map, all, any,
  keep, str_eq, starts_with, if◌then◌else◌,
}
use mcp_venus_os.Prelude.Int.{ℤ, pos, eqb_ℤ}
use mcp_venus_os.Value.{Number, int, num_le, math_isfinite}

pub data Role : Type 0 where
  venus_firmware target_product target_firmware bms_product bms_firmware : Role

-- The literal of a role.
unfoldable pub role_name : Role → String
role_name venus_firmware = "venus_firmware"
role_name target_product = "target_product"
role_name target_firmware = "target_firmware"
role_name bms_product = "bms_product"
role_name bms_firmware = "bms_firmware"

-- `str | StrictInt`
pub data Expected : Type 0 where
  text : String → Expected
  whole : ℤ → Expected

pub data ValueUnit : Type 0 where
  mode ampere percent : ValueUnit

pub record IdentityProbe : Type 0 where
  pub role : Role
  pub device_type : String
  pub instance_id : ℤ
  pub path : String
  pub expected : Expected

pub record HardwareWriteContract : Type 0 where
  pub contract_id : String
  pub portal_id : String
  pub device_type : String
  pub instance_id : ℤ
  pub path : String
  pub identity : List IdentityProbe
  pub reviewed_by : String
  pub evidence_sha256 : String
  pub semantics : String
  pub mode_codes : List (String × ℤ)
  pub unit : ValueUnit
  pub minimum : Option Number
  pub maximum : Option Number

-- `_finite`: an int that is too large for a float is not finite.
unfoldable pub finite_number : Number → Bool
finite_number n = elim (math_isfinite n) [ some b ↦ b | none ↦ false ]

unfoldable pub role_eq : Role → Role → Bool
unfolding role_name
role_eq a b = str_eq (role_name a) (role_name b)

unfoldable pub unit_eq : ValueUnit → ValueUnit → Bool
unit_eq mode mode = true
unit_eq ampere ampere = true
unit_eq percent percent = true
unit_eq _ _ = false

abbrev pub expected_roles : List Role
expected_roles = venus_firmware ∷ target_product ∷ target_firmware ∷ bms_product ∷ bms_firmware ∷ []

-- `roles == expected`, of sets.
abbrev pub same_roles : List Role → List Role → Bool
same_roles xs ys = all (λ x. any (role_eq x) ys) xs && all (λ y. any (role_eq y) xs) ys

-- The bounds of a contract that is not about modes.
abbrev pub bounds_ok : ValueUnit → Option Number → Option Number → Bool
bounds_ok u (some low) (some high) =
    finite_number low
    && finite_number high
    && num_le (int (pos 0)) low
    && num_le low high
    && (not (unit_eq u percent) || num_le high (int (pos 100)))
bounds_ok u _ _ = false

abbrev pub is_none {ℓ} : {A : Type ℓ} → Option A → Bool
is_none none = true
is_none (some a) = false

abbrev pub is_empty {ℓ} : {A : Type ℓ} → List A → Bool
is_empty [] = true
is_empty (x ∷ xs) = false

-- `probe.role.startswith("target_")` and `probe.role.startswith("bms_")`
unfoldable pub is_target_role : Role → Bool
unfolding role_name starts_with
is_target_role r = starts_with (role_name r) "target_"

unfoldable pub is_bms_role : Role → Bool
unfolding role_name starts_with
is_bms_role r = starts_with (role_name r) "bms_"

abbrev pub same_device : HardwareWriteContract → IdentityProbe → Bool
same_device c p = str_eq p.device_type c.device_type && eqb_ℤ p.instance_id c.instance_id

-- `all(... for probe in self.identity if ...)`, a filter and a test.
unfoldable pub target_probes_ok : HardwareWriteContract → Bool
unfolding is_target_role
target_probes_ok c = all (same_device c) (keep (λ p. is_target_role p.role) c.identity)

unfoldable pub bms_probes_ok : HardwareWriteContract → Bool
unfolding is_bms_role
bms_probes_ok c =
    all (λ p. str_eq p.device_type "battery") (keep (λ p. is_bms_role p.role) c.identity)

unfoldable pub mode_contract_ok : HardwareWriteContract → Bool
unfolding unit_eq
mode_contract_ok c =
    str_eq c.device_type "vebus"
    && unit_eq c.unit mode
    && not (is_empty c.mode_codes)
    && (is_none c.minimum && is_none c.maximum)

-- `self.device_type == expected_type and self.unit == unit`
unfoldable pub quantity_ok : HardwareWriteContract → Bool
unfolding unit_eq
quantity_ok c =
    if str_eq c.path "SocLimit"
    then str_eq c.device_type "battery" && unit_eq c.unit percent
    else str_eq c.device_type "vebus" && unit_eq c.unit ampere

unfoldable pub range_contract_ok : HardwareWriteContract → Bool
unfolding quantity_ok unit_eq finite_number
range_contract_ok c = quantity_ok c && is_empty c.mode_codes && bounds_ok c.unit c.minimum c.maximum

-- The two forms of a contract: a mode with codes, or a range with its unit.
unfoldable pub value_semantics_ok : HardwareWriteContract → Bool
unfolding mode_contract_ok range_contract_ok
value_semantics_ok c = if str_eq c.path "Mode" then mode_contract_ok c else range_contract_ok c

-- `none` is the ValueError of the validator.
pub validate_scope : HardwareWriteContract → Option HardwareWriteContract
unfolding role_eq target_probes_ok bms_probes_ok value_semantics_ok
validate_scope c =
    if same_roles (map (λ p. p.role) c.identity) expected_roles
      && target_probes_ok c
      && bms_probes_ok c
      && value_semantics_ok c
    then some c
    else none
