-- ===== src/Hardware/Validation.antt =====
-- src/mcp_venus_os/hardware_contracts.py, `validate_hardware_write`: the gate before a write.
use mcp_venus_os.Prelude.{
  String, Bool, false, not, ◌&&◌, ◌||◌, Option, none, some, List, [], ◌∷◌, keep, lookup, str_eq,
  if◌then◌else◌,
}
use mcp_venus_os.Prelude.Int.{ℤ, pos, eqb_ℤ}
use mcp_venus_os.Value.{Number, int, Payload, num, str, num_le, num_eq}
use mcp_venus_os.Hardware.{
  Role, Expected, text, whole, IdentityProbe, HardwareWriteContract, finite_number,
}

pub data Problem : Type 0 where
  no_single_contract : Problem
  bad_freshness_limit : Problem
  identity_missing : Role → Problem
  identity_changed : Role → Problem
  not_a_finite_number : Problem
  mode_not_qualified : Problem
  outside_range : Problem

-- `read(device_type, instance, path)`: a value and its age, if there is one.
abbrev pub Reader : Type 0
Reader = String → ℤ → String → Option (Payload × Number)

abbrev pub same_text? : Option String → String → Bool
same_text? none t = false
same_text? (some s) t = str_eq s t

unfoldable pub same_target : Option String → String → ℤ → String → HardwareWriteContract → Bool
same_target portal device_type inst path c =
    same_text? portal c.portal_id
    && str_eq c.device_type device_type
    && eqb_ℤ c.instance_id inst
    && str_eq c.path path

-- The types agree, a bool being no int, and the values are equal.
abbrev pub same_value : Payload → Expected → Bool
same_value (str s) (text t) = str_eq s t
same_value (num (int n)) (whole m) = eqb_ℤ n m
same_value _ _ = false

abbrev fresh : Number → Number → Bool
fresh max_age age = finite_number age && num_le (int (pos 0)) age && num_le age max_age

abbrev check_observed : Number → IdentityProbe → Option (Payload × Number) → Option Problem
check_observed max_age p none = some (identity_missing p.role)
check_observed max_age p (some (observed, age)) =
    if same_value observed p.expected && fresh max_age age
    then none
    else some (identity_changed p.role)

-- One round of the loop over the probes.
unfoldable pub check_probe : Reader → Number → IdentityProbe → Option Problem
check_probe read max_age p = check_observed max_age p (read p.device_type p.instance_id p.path)

-- The loop: the first probe with a problem ends it.
unfoldable pub check_probes : Reader → Number → List IdentityProbe → Option Problem
check_probes read max_age [] = none
check_probes read max_age (p ∷ ps) =
    let rest = check_probes read max_age ps in
    elim (check_probe read max_age p) [ none ↦ rest | some problem ↦ some problem ]

abbrev pub mode_code_is : Option ℤ → Number → Bool
mode_code_is none n = false
mode_code_is (some code) n = num_eq (int code) n

abbrev pub mode_qualified : Option String → List (String × ℤ) → Number → Bool
mode_qualified none codes n = false
mode_qualified (some m) codes n = mode_code_is (lookup m codes) n

abbrev pub in_range : Option Number → Option Number → Number → Bool
in_range (some low) (some high) n = num_le low n && num_le n high
in_range _ _ n = false

abbrev pub Checked : Type 0
Checked = Option HardwareWriteContract × Option Problem

-- The tests on the value, after the probes.
unfoldable pub check_value : HardwareWriteContract → String → Option String → Payload → Checked
check_value c path semantic_mode (num n) =
    if not (finite_number n)
    then (none, some not_a_finite_number)
    else if str_eq path "Mode"
    then (if mode_qualified semantic_mode c.mode_codes n
        then (some c, none)
        else (none, some mode_not_qualified))
    else if in_range c.minimum c.maximum n
    then (some c, none)
    else (none, some outside_range)
check_value c path semantic_mode _ = (none, some not_a_finite_number)

abbrev pub after_probes : Option Problem → Checked → Checked
after_probes none r = r
after_probes (some problem) r = (none, some problem)

unfoldable pub check_contract :
    HardwareWriteContract → String → Payload → Option String → Reader → Number → Checked
check_contract c path value semantic_mode read max_age =
    if not (finite_number max_age) || num_le max_age (int (pos 0))
    then (none, some bad_freshness_limit)
    else after_probes (check_probes read max_age c.identity)
        (check_value c path semantic_mode value)

-- `len(matches) != 1`
abbrev pub sole : List HardwareWriteContract → Option HardwareWriteContract
sole (c ∷ []) = some c
sole _ = none

unfoldable pub validate_hardware_write :
    List HardwareWriteContract
    → Option String
    → String
    → ℤ
    → String
    → Payload
    → Option String
    → Reader
    → Number
    → Checked
validate_hardware_write contracts portal device_type inst path value semantic_mode read max_age =
    elim (sole (keep (same_target portal device_type inst path) contracts)) [
      | none ↦ (none, some no_single_contract)
      | some c ↦ check_contract c path value semantic_mode read max_age
    ]
