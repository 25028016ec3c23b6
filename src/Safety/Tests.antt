-- ===== src/Safety/Tests.antt =====
-- Runs of the write gate and of the confirmations, and the theorems at those inputs.
use mcp_venus_os.Prelude.{◌≡◌, ◌↔◌, refl, String, Bool, true, false, ◌&&◌, some, [], ◌∷◌, lookup}
use mcp_venus_os.Prelude.Int.{pos}
use mcp_venus_os.Value.{num, int, one_units, overflow_bound, math_isfinite}
use mcp_venus_os.Config.{SafetyConfig, default_safety, load_safety}
use mcp_venus_os.Safety.{
  Check, returned, raised, overflow_error, Params, allow, deny, writes_disabled, path_not_allowed,
  validate_write_path, operation_device_type, validate_charge_current, validate_discharge_current,
  validate_current, validate_soc_limit, validate_mode, validate_ssh_command, deny_patterns,
}
use mcp_venus_os.Safety.Operation.{
  ask, validate_write_operation, check_path, check_params, check_command, check_confirmed,
}
use mcp_venus_os.Safety.Gate.{allows, asks, IsPermitted}
use mcp_venus_os.Safety.Permitted.{validate_write_operation_iff}
use mcp_venus_os.Safety.Asking.{asks_iff_confirmable}
use mcp_venus_os.Safety.Currents.{IsHugeInt, charge_current_raises_iff}

abbrev live : SafetyConfig
live = record default_safety { enable_writes = true }

-- No pattern is found.
abbrev finds_nothing : String → String → Bool
finds_nothing pattern command = false

abbrev soc_params : Params
soc_params = ("soc_limit", num (int (pos 50))) ∷ ("instance", num (int (pos 0))) ∷ []

whole_gate : Unit {0}
unfolding validate_write_operation check_path check_params check_command check_confirmed
    validate_write_path operation_device_type validate_charge_current validate_discharge_current
    validate_current validate_soc_limit validate_mode validate_ssh_command deny_patterns lookup
    math_isfinite one_units overflow_bound
whole_gate = tt

abbrev set_soc : SafetyConfig → Bool → String → Check
set_soc cfg confirmed path =
    validate_write_operation finds_nothing cfg "set_soc_limit" soc_params confirmed (some path)

gate_tests :
    (set_soc default_safety true "SocLimit" ≡ returned (deny writes_disabled))
    × (set_soc live true "SocLimit" ≡ returned allow)
    × (set_soc live false "SocLimit" ≡ returned (ask "set_soc_limit" soc_params))
    × (set_soc live true "Mode"
        ≡ returned (deny (path_not_allowed "Mode" "battery" ("SocLimit" ∷ []))))
unfolding whole_gate
gate_tests = (refl, refl, refl, refl)

live_loads : load_safety live ≡ some live
unfolding load_safety one_units
live_loads = refl

validate_write_operation_iff_example :
    (allows (set_soc live true "SocLimit") ≡ true)
    ↔ IsPermitted finds_nothing live "set_soc_limit" soc_params true (some "SocLimit")
validate_write_operation_iff_example =
    validate_write_operation_iff finds_nothing live "set_soc_limit" soc_params (some "SocLimit")
      true live_loads

asks_iff_confirmable_example :
    asks (set_soc live false "SocLimit") ≡ (true && allows (set_soc live true "SocLimit"))
asks_iff_confirmable_example =
    asks_iff_confirmable finds_nothing live "set_soc_limit" soc_params false (some "SocLimit")

charge_current_raises_iff_example :
    (validate_charge_current live (num (int (pos 7))) ≡ raised overflow_error)
    ↔ IsHugeInt (num (int (pos 7)))
charge_current_raises_iff_example = charge_current_raises_iff live (num (int (pos 7)))
