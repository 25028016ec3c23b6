-- ===== src/Safety/Permitted.antt =====
-- The main gate of src/mcp_venus_os/safety.py as a whole: which operations it permits, and when a
-- confirmation is all that is missing.
use mcp_venus_os.Prelude.{
  ◌≡◌, ◌↔◌, ◌≢◌, ◌⊎◌, refl, String, Bool, true, false, Option, none, some, lookup, arith,
  str_eq_iff,
}
use mcp_venus_os.Value.{Payload, is_finite}
use mcp_venus_os.Config.{SafetyConfig, load_safety}
use mcp_venus_os.Safety.{
  Check, returned, Params, operation_device_type, validate_write_path, validate_charge_current,
  validate_discharge_current, validate_soc_limit, validate_mode,
}
use mcp_venus_os.Safety.Operation.{
  check_param, check_command, check_path, check_params, charge_check, discharge_check, soc_check,
  mode_check, check_confirmed, validate_write_operation, get_or_empty,
}
use mcp_venus_os.Safety.Gate.{
  allows, unless_iff, IsCurrent, IsSoc, IsMode, IfGiven, IsListedPath, IsHarmless, IsPermitted,
  IsCurrent-iff, IsSoc-iff, IsMode-iff, command_iff, path_for_iff,
}

param_iff :
    (check : Payload → Check) (P : Payload → Type 0) (o : Option Payload)
    → ((v : Payload) → (allows (check v) ≡ true) ↔ P v)
    → (allows (check_param check o) ≡ true) ↔ IfGiven P o
param_iff check P none h = (λ _. tt, λ _. refl)
param_iff check P (some v) h = h v

limits_finite :
    (cfg : SafetyConfig)
    → load_safety cfg ≡ some cfg
    → (is_finite cfg.max_charge_current ≡ true) × (is_finite cfg.max_discharge_current ≡ true)
unfolding load_safety
limits_finite cfg h = ground arith

module _ (searches : String → String → Bool) (cfg : SafetyConfig) (operation : String)
    (params : Params) (dbus_path : Option String) where
  path_iff : (allows (check_path cfg operation dbus_path) ≡ true) ↔ (
      (operation ≡ "cerbo_ssh_exec") ⊎ IsListedPath cfg (operation_device_type operation) dbus_path)
  unfolding check_path validate_write_path
  path_iff = ground (
    arith,
    str_eq_iff operation "cerbo_ssh_exec",
    (path_for_iff cfg (operation_device_type operation) dbus_path).0,
    (path_for_iff cfg (operation_device_type operation) dbus_path).1,
  )

  params_iff :
      load_safety cfg ≡ some cfg
      → (allows (check_params cfg params) ≡ true) ↔ (
          IfGiven (IsCurrent cfg.max_charge_current) (lookup "charge_current" params)
          × IfGiven (IsCurrent cfg.max_discharge_current) (lookup "discharge_current" params)
          × IfGiven (IsSoc cfg) (lookup "soc_limit" params)
          × IfGiven (IsMode cfg) (lookup "mode" params))
  unfolding check_params validate_charge_current validate_discharge_current
  params_iff loaded =
      let (charge_finite, discharge_finite) = limits_finite cfg loaded in
      let charge =
        param_iff (validate_charge_current cfg) (IsCurrent cfg.max_charge_current)
          (lookup "charge_current" params) (λ v. IsCurrent-iff _ _ v charge_finite) in
      let discharge =
        param_iff (validate_discharge_current cfg) (IsCurrent cfg.max_discharge_current)
          (lookup "discharge_current" params) (λ v. IsCurrent-iff _ _ v discharge_finite) in
      let soc =
        param_iff (λ v. returned (validate_soc_limit cfg v)) (IsSoc cfg) (lookup "soc_limit" params)
          (IsSoc-iff cfg) in
      let mode =
        param_iff (λ v. returned (validate_mode cfg v)) (IsMode cfg) (lookup "mode" params)
          (IsMode-iff cfg) in
      let split =
        unless_iff (charge_check cfg params) (discharge_check cfg params) (soc_check cfg params)
          (mode_check cfg params) in
      (
        λ e. let (a, b, c, d) = split.0 e in (charge.0 a, discharge.0 b, soc.0 c, mode.0 d),
        λ (a, b, c, d). split.1 (charge.1 a, discharge.1 b, soc.1 c, mode.1 d),
      )

  command_part_iff : (allows (check_command searches cfg operation params) ≡ true) ↔ (
      (operation ≢ "cerbo_ssh_exec")
      ⊎ IsHarmless searches cfg.ssh_command_deny_patterns (get_or_empty (lookup "command" params)))
  unfolding check_command
  command_part_iff = ground (
    arith,
    str_eq_iff operation "cerbo_ssh_exec",
    (command_iff searches cfg (get_or_empty (lookup "command" params))).0,
    (command_iff searches cfg (get_or_empty (lookup "command" params))).1,
  )

  confirmed_iff :
      (confirmed : Bool)
      → (allows (check_confirmed cfg operation params confirmed) ≡ true)
        ↔ ((cfg.require_confirmation ≡ false) ⊎ (confirmed ≡ true))
  unfolding check_confirmed
  confirmed_iff confirmed = ground arith

  parts :
      (confirmed : Bool)
      → (allows (validate_write_operation searches cfg operation params confirmed dbus_path) ≡ true)
        ↔ ((cfg.enable_writes ≡ true)
            × (allows (check_path cfg operation dbus_path) ≡ true)
            × (allows (check_params cfg params) ≡ true)
            × (allows (check_command searches cfg operation params) ≡ true)
            × (allows (check_confirmed cfg operation params confirmed) ≡ true))
  unfolding validate_write_operation
  parts confirmed = ground (
    arith,
    unless_iff (check_path cfg operation dbus_path) (check_params cfg params)
        (check_command searches cfg operation params)
        (check_confirmed cfg operation params confirmed),
  )

  -- Under a configuration that validates, the gate lets an operation through exactly when writes
  -- are enabled, the path is on the allowlist, every given parameter is in range, no deny pattern
  -- matches the command, and the operation is confirmed where that is required.
  pub validate_write_operation_iff :
      (confirmed : Bool)
      → load_safety cfg ≡ some cfg
      → (allows (validate_write_operation searches cfg operation params confirmed dbus_path) ≡ true)
        ↔ IsPermitted searches cfg operation params confirmed dbus_path
  validate_write_operation_iff confirmed loaded = (
    λ h.
        let (enabled, path, rest, command, asked) = (parts confirmed).0 h in
        let (charge, discharge, soc, mode) = (params_iff loaded).0 rest in
        record {
          enabled = enabled;
          path = path_iff.0 path;
          charge = charge;
          discharge = discharge;
          soc = soc;
          mode = mode;
          command = command_part_iff.0 command;
          confirmation = (confirmed_iff confirmed).0 asked;
        },
    λ p. (parts confirmed).1 (
      p.enabled,
      path_iff.1 p.path,
      (params_iff loaded).1 (p.charge, p.discharge, p.soc, p.mode),
      command_part_iff.1 p.command,
      (confirmed_iff confirmed).1 p.confirmation,
    ),
  )
