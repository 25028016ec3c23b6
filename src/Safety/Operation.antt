-- ===== src/Safety/Operation.antt =====
-- src/mcp_venus_os/safety.py, `validate_write_operation`: the checks in their order.
use mcp_venus_os.Prelude.{
  String, Bool, true, false, not, ◌&&◌, Option, none, some, lookup, str_eq, if◌then◌else◌,
}
use mcp_venus_os.Value.{Payload, str}
use mcp_venus_os.Config.{SafetyConfig}
use mcp_venus_os.Safety.{
  writes_disabled, confirmation_required, Params, SafetyCheckResult, allow, deny, Check, returned,
  unless_denied, validate_write_path, validate_ssh_command, validate_charge_current,
  validate_discharge_current, validate_soc_limit, validate_mode,
}

-- `if key in params`
abbrev pub check_param : (Payload → Check) → Option Payload → Check
check_param check none = returned allow
check_param check (some v) = check v

abbrev pub get_or_empty : Option Payload → Payload
get_or_empty none = str ""
get_or_empty (some v) = v

-- 3b: the command of cerbo_ssh_exec.
unfoldable pub check_command : (String → String → Bool) → SafetyConfig → String → Params → Check
check_command searches cfg operation params =
    if str_eq operation "cerbo_ssh_exec"
    then validate_ssh_command searches cfg (get_or_empty (lookup "command" params))
    else returned allow

-- 2: the allowlist of paths.
unfoldable pub check_path : SafetyConfig → String → Option String → Check
check_path cfg operation dbus_path =
    if str_eq operation "cerbo_ssh_exec"
    then returned allow
    else returned (validate_write_path cfg operation dbus_path)

abbrev pub charge_check : SafetyConfig → Params → Check
charge_check cfg params = check_param (validate_charge_current cfg) (lookup "charge_current" params)

abbrev pub discharge_check : SafetyConfig → Params → Check
discharge_check cfg params =
    check_param (validate_discharge_current cfg) (lookup "discharge_current" params)

abbrev pub soc_check : SafetyConfig → Params → Check
soc_check cfg params =
    check_param (λ v. returned (validate_soc_limit cfg v)) (lookup "soc_limit" params)

abbrev pub mode_check : SafetyConfig → Params → Check
mode_check cfg params = check_param (λ v. returned (validate_mode cfg v)) (lookup "mode" params)

-- 3: the parameters.
unfoldable pub check_params : SafetyConfig → Params → Check
check_params cfg params = unless_denied (charge_check cfg params) (
    unless_denied (discharge_check cfg params)
      (unless_denied (soc_check cfg params) (mode_check cfg params)))

abbrev pub ask : String → Params → SafetyCheckResult
ask operation params = record {
  allowed = false;
  reason = some confirmation_required;
  requires_confirmation = true;
  confirmation_message = some (operation, params);
}

-- 4: the confirmation.
unfoldable pub check_confirmed : SafetyConfig → String → Params → Bool → Check
check_confirmed cfg operation params confirmed =
    if cfg.require_confirmation && not confirmed
    then returned (ask operation params)
    else returned allow

-- The main gate: the first check that fails decides.
unfoldable pub validate_write_operation :
    (String → String → Bool) → SafetyConfig → String → Params → Bool → Option String → Check
validate_write_operation searches cfg operation params confirmed dbus_path =
    if not cfg.enable_writes
    then returned (deny writes_disabled)
    else unless_denied (check_path cfg operation dbus_path) (
        unless_denied (check_params cfg params) (
          unless_denied (check_command searches cfg operation params)
            (check_confirmed cfg operation params confirmed)))
