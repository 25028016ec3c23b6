-- ===== src/Hardware/Tests.antt =====
-- Runs of the hardware gate at concrete contracts, and the theorems at those inputs.
use mcp_venus_os.Prelude.{
  All, split_slash, ◌≡◌, ◌↔◌, refl, String, Option, none, some, List, [], ◌∷◌, lookup,
}
use mcp_venus_os.Prelude.Int.{ℤ, pos}
use mcp_venus_os.Value.{Number, int, num, str, one_units, overflow_bound, math_isfinite}
use mcp_venus_os.Hardware.{
  venus_firmware, target_product, target_firmware, bms_product, bms_firmware, text, percent,
  IdentityProbe, Role, HardwareWriteContract, validate_scope, finite_number, role_eq,
}
use mcp_venus_os.Hardware.Validation.{
  Reader, validate_hardware_write, check_contract, check_probes, check_probe, check_value,
  same_target, Problem, identity_changed, outside_range,
}
use mcp_venus_os.Hardware.Gate.{IsApproved, validate_hardware_write_iff}
use mcp_venus_os.Hardware.Patterns.{load_contract, contract_fields_ok, probe_fields_ok}
use mcp_venus_os.Hardware.Patterns.Topics.{IsNamed, load_contract-IsNamed}
use mcp_venus_os.Hardware.Scope.{IsWellScoped, validate_scope_iff}

abbrev pub probe : Role → String → ℤ → String → IdentityProbe
probe r device n path = record {
  role = r;
  device_type = device;
  instance_id = n;
  path = path;
  expected = text "v";
}

abbrev pub probes : List IdentityProbe
probes =
    probe venus_firmware "system" (pos 0) "FirmwareVersion"
    ∷ probe target_product "battery" (pos 2) "ProductId"
    ∷ probe target_firmware "battery" (pos 2) "FirmwareVersion"
    ∷ probe bms_product "battery" (pos 2) "ProductId"
    ∷ probe bms_firmware "battery" (pos 2) "FirmwareVersion"
    ∷ []

-- A reviewed contract for the SoC limit of a battery.
abbrev pub soc_contract : HardwareWriteContract
soc_contract = record {
  contract_id = "soc";
  portal_id = "p1";
  device_type = "battery";
  instance_id = pos 2;
  path = "SocLimit";
  identity = probes;
  reviewed_by = "op";
  evidence_sha256 = "e";
  semantics = "percent of full charge";
  mode_codes = [];
  unit = percent;
  minimum = some (int (pos 10));
  maximum = some (int (pos 90));
}

-- Every item was read two seconds ago with the value "v".
abbrev pub steady : Reader
steady device n path = some (str "v", int (pos 2))

gate : Unit {0}
unfolding validate_hardware_write check_contract check_probes check_probe check_value same_target
    finite_number math_isfinite one_units overflow_bound lookup
gate = tt

scope : Unit {0}
unfolding validate_scope
scope = tt

abbrev run : ℤ → Reader → Number → Option HardwareWriteContract × Option Problem
run n read age =
    validate_hardware_write (soc_contract ∷ []) (some "p1") "battery" (pos 2) "SocLimit"
      (num (int n)) none read age

approves : run (pos 50) steady (int (pos 60)) ≡ (some soc_contract, none)
unfolding gate
approves = refl

refuses :
    (run (pos 95) steady (int (pos 60)) ≡ (none, some outside_range))
    × (run (pos 50) steady (int (pos 1)) ≡ (none, some (identity_changed venus_firmware)))
unfolding gate
refuses = (refl, refl)

scopes : validate_scope soc_contract ≡ some soc_contract
unfolding scope role_eq finite_number math_isfinite one_units overflow_bound
scopes = refl

validate_hardware_write_iff_example :
    (run (pos 50) steady (int (pos 60)) ≡ (some soc_contract, none))
    ↔ IsApproved
        (soc_contract ∷ [])
        (some "p1")
        "battery"
        (pos 2)
        "SocLimit"
        (num (int (pos 50)))
        none
        steady
        (int (pos 60))
        soc_contract
validate_hardware_write_iff_example =
    validate_hardware_write_iff (num (int (pos 50))) none "SocLimit" steady (int (pos 60))
      (soc_contract ∷ []) (some "p1") "battery" (pos 2) soc_contract

validate_scope_iff_example :
    (validate_scope soc_contract ≡ some soc_contract) ↔ IsWellScoped soc_contract
validate_scope_iff_example = validate_scope_iff soc_contract

-- With a digest of 64 digits, the contract is accepted.
abbrev reviewed : HardwareWriteContract
reviewed = record soc_contract {
  evidence_sha256 = "0123456789abcdef0123456789abcdef0123456789abcdef0123456789abcdef";
}

accepted : load_contract reviewed ≡ some reviewed
unfolding scope role_eq finite_number math_isfinite one_units overflow_bound load_contract
    contract_fields_ok probe_fields_ok split_slash
accepted = refl

load_contract-IsNamed_example :
    IsNamed "N/p1" "battery" (pos 2) "SocLimit"
    × All (λ p. IsNamed "N/p1" p.device_type p.instance_id p.path) probes
load_contract-IsNamed_example = load_contract-IsNamed reviewed reviewed accepted
