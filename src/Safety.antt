-- ===== src/Safety.antt =====
-- src/mcp_venus_os/safety.py: the gate in front of every write tool, and the pending
-- confirmations. `re.search` over an operator's pattern is the parameter `searches`. A reason is
-- the template of its message with the values that the message shows.
pub mod Operation
pub mod Gate
pub mod Permitted
pub mod Asking
pub mod Tests
pub mod Currents
pub mod Confirmations
use mcp_venus_os.Prelude.{
  String, Bool, true, false, Option, none, some, List, [], ◌∷◌, elem, lookup, if◌then◌else◌,
}
use mcp_venus_os.Prelude.Int.{ℤ, pos, ltb_ℤ}
use mcp_venus_os.Value.{Float, Number, int, float, Payload, num, str, num_lt, math_isfinite}
use mcp_venus_os.Config.{SafetyConfig}

pub data Quantity : Type 0 where
  charge_current discharge_current : Quantity

pub data Reason : Type 0 where
  path_not_allowed : String → String → List String → Reason
  command_denied : String → Reason
  not_finite_current : Quantity → Reason
  negative_current : Quantity → Reason
  current_too_high : Quantity → Number → Float → Reason
  soc_not_integer : Reason
  soc_too_low : ℤ → ℤ → Reason
  soc_too_high : ℤ → ℤ → Reason
  mode_not_allowed : Payload → List String → Reason
  writes_disabled : Reason
  confirmation_required : Reason

abbrev pub Params : Type 0
Params = List (String × Payload)

pub record SafetyCheckResult : Type 0 where
  pub allowed : Bool
  pub reason : Option Reason
  pub requires_confirmation : Bool
  pub confirmation_message : Option (String × Params)

abbrev pub allow : SafetyCheckResult
allow = record {
  allowed = true;
  reason = none;
  requires_confirmation = false;
  confirmation_message = none;
}

abbrev pub deny : Reason → SafetyCheckResult
deny r = record {
  allowed = false;
  reason = some r;
  requires_confirmation = false;
  confirmation_message = none;
}

-- What a check may raise: `math.isfinite` and `in` on values of other types.
pub data Raised : Type 0 where
  overflow_error type_error : Raised

pub data Check : Type 0 where
  returned : SafetyCheckResult → Check
  raised : Raised → Check

-- `if not result.allowed: return result`, and an exception goes on up.
abbrev pub unless_denied : Check → Check → Check
unless_denied (raised e) rest = raised e
unless_denied (returned r) rest = if r.allowed then rest else returned r

-- _OPERATION_DEVICE_TYPE
abbrev pub operation_device_types : List (String × String)
operation_device_types =
    ("set_inverter_mode", "vebus")
    ∷ ("set_charge_current_limit", "vebus")
    ∷ ("set_soc_limit", "battery")
    ∷ []

-- _OPERATION_DBUS_PATH
abbrev pub operation_dbus_paths : List (String × String)
operation_dbus_paths =
    ("set_inverter_mode", "Mode")
    ∷ ("set_charge_current_limit", "Dc/0/MaxChargeCurrent")
    ∷ ("set_soc_limit", "SocLimit")
    ∷ []

unfoldable pub operation_device_type : String → Option String
unfolding lookup
operation_device_type operation = lookup operation operation_device_types

unfoldable pub operation_dbus_path : String → Option String
unfolding lookup
operation_dbus_path operation = lookup operation operation_dbus_paths

abbrev pub or_empty : Option (List String) → List String
or_empty none = []
or_empty (some l) = l

abbrev pub allowed_paths : SafetyConfig → String → List String
allowed_paths cfg dtype = or_empty (lookup dtype cfg.write_path_allowlist)

abbrev pub path_result : String → List String → Option String → SafetyCheckResult
path_result dtype allowed none = allow
path_result dtype allowed (some path) =
    if elem path allowed then allow else deny (path_not_allowed path dtype allowed)

abbrev pub path_for : SafetyConfig → Option String → Option String → SafetyCheckResult
path_for cfg none dbus_path = allow
path_for cfg (some dtype) dbus_path = path_result dtype (allowed_paths cfg dtype) dbus_path

-- `_validate_write_path`
unfoldable pub validate_write_path : SafetyConfig → String → Option String → SafetyCheckResult
validate_write_path cfg operation dbus_path =
    path_for cfg (operation_device_type operation) dbus_path

-- The loop over the deny patterns.
unfoldable pub deny_patterns : (String → String → Bool) → List String → String → SafetyCheckResult
deny_patterns searches [] command = allow
deny_patterns searches (pattern ∷ patterns) command =
    let rest = deny_patterns searches patterns command in
    if searches pattern command then deny (command_denied pattern) else rest

-- `re.search` of a value that is no text raises TypeError, if there is a pattern to search.
abbrev pub search_command : (String → String → Bool) → List String → Payload → Check
search_command searches patterns (str command) = returned (deny_patterns searches patterns command)
search_command searches [] _ = returned allow
search_command searches (pattern ∷ patterns) _ = raised type_error

-- `_validate_ssh_command`
unfoldable pub validate_ssh_command : (String → String → Bool) → SafetyConfig → Payload → Check
validate_ssh_command searches cfg command =
    search_command searches cfg.ssh_command_deny_patterns command

abbrev pub finite_current : Quantity → Float → Number → Option Bool → Check
finite_current q most n none = raised overflow_error
finite_current q most n (some false) = returned (deny (not_finite_current q))
finite_current q most n (some true) =
    if num_lt n (int (pos 0))
    then returned (deny (negative_current q))
    else if num_lt (float most) n
    then returned (deny (current_too_high q n most))
    else returned allow

-- The body that `validate_charge_current` and `validate_discharge_current` share.
unfoldable pub validate_current : Quantity → Float → Payload → Check
validate_current q most (num n) = finite_current q most n (math_isfinite n)
validate_current q most _ = returned (deny (not_finite_current q))

unfoldable pub validate_charge_current : SafetyConfig → Payload → Check
validate_charge_current cfg current = validate_current charge_current cfg.max_charge_current current

unfoldable pub validate_discharge_current : SafetyConfig → Payload → Check
validate_discharge_current cfg current =
    validate_current discharge_current cfg.max_discharge_current current

unfoldable pub validate_soc_limit : SafetyConfig → Payload → SafetyCheckResult
validate_soc_limit cfg (num (int soc)) =
    if ltb_ℤ soc cfg.min_soc_limit
    then deny (soc_too_low soc cfg.min_soc_limit)
    else if ltb_ℤ cfg.max_soc_limit soc
    then deny (soc_too_high soc cfg.max_soc_limit)
    else allow
validate_soc_limit cfg _ = deny soc_not_integer

-- `mode not in self.config.allowed_modes`: a value that is no text is in no list of texts.
unfoldable pub validate_mode : SafetyConfig → Payload → SafetyCheckResult
validate_mode cfg (str mode) =
    if elem mode cfg.allowed_modes
    then allow
    else deny (mode_not_allowed (str mode) cfg.allowed_modes)
validate_mode cfg mode = deny (mode_not_allowed mode cfg.allowed_modes)
