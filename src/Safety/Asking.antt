-- ===== src/Safety/Asking.antt =====
-- When the gate of src/mcp_venus_os/safety.py asks for a confirmation.
use mcp_venus_os.Prelude.{
  ◌≡◌, refl, String, Bool, true, false, not, ◌&&◌, Option, none, some, List, [], ◌∷◌, lookup, arith,
}
use mcp_venus_os.Value.{Float, Number, Payload, null, num, int, float, str, math_isfinite}
use mcp_venus_os.Config.{SafetyConfig}
use mcp_venus_os.Safety.{
  Quantity, Check, returned, Params, unless_denied, operation_device_type, path_for,
  validate_write_path, deny_patterns, search_command, validate_ssh_command, finite_current,
  validate_current, validate_charge_current, validate_discharge_current, validate_soc_limit,
  validate_mode,
}
use mcp_venus_os.Safety.Operation.{
  check_param, check_command, check_path, check_params, charge_check, discharge_check, soc_check,
  mode_check, check_confirmed, validate_write_operation, get_or_empty,
}
use mcp_venus_os.Safety.Gate.{allows, asks, asks-unless_denied, unless_iff}

-- No check but the last asks.
path_for-quiet :
    (cfg : SafetyConfig) (dtype dbus_path : Option String)
    → (path_for cfg dtype dbus_path).requires_confirmation ≡ false
path_for-quiet cfg none dbus_path = refl
path_for-quiet cfg (some d) none = refl
path_for-quiet cfg (some d) (some path) = ground arith

path-quiet :
    (cfg : SafetyConfig) (operation : String) (dbus_path : Option String)
    → asks (check_path cfg operation dbus_path) ≡ false
unfolding check_path validate_write_path
path-quiet cfg operation dbus_path =
    ground (arith, path_for-quiet cfg (operation_device_type operation) dbus_path)

finite_current-quiet :
    (q : Quantity) (most : Float) (n : Number) (o : Option Bool)
    → asks (finite_current q most n o) ≡ false
finite_current-quiet q most n o = ground arith

current-quiet :
    (q : Quantity) (most : Float) (v : Payload) → asks (validate_current q most v) ≡ false
unfolding validate_current
current-quiet q most (num n) = finite_current-quiet q most n (math_isfinite n)
current-quiet q most _ = refl

soc-quiet :
    (cfg : SafetyConfig) (v : Payload) → (validate_soc_limit cfg v).requires_confirmation ≡ false
unfolding validate_soc_limit
soc-quiet cfg (num (int n)) = ground arith
soc-quiet cfg (num (float x)) = refl
soc-quiet cfg _ = refl

mode-quiet :
    (cfg : SafetyConfig) (v : Payload) → (validate_mode cfg v).requires_confirmation ≡ false
unfolding validate_mode
mode-quiet cfg (str m) = ground arith
mode-quiet cfg _ = refl

param-quiet :
    (check : Payload → Check) (o : Option Payload)
    → ((v : Payload) → asks (check v) ≡ false)
    → asks (check_param check o) ≡ false
param-quiet check none h = refl
param-quiet check (some v) h = h v

patterns-quiet :
    (searches : String → String → Bool) (ps : List String) (c : String)
    → (deny_patterns searches ps c).requires_confirmation ≡ false
unfolding deny_patterns
patterns-quiet searches [] c = refl
patterns-quiet searches (p ∷ ps) c = ground (arith, patterns-quiet searches ps c)

search-quiet :
    (searches : String → String → Bool) (ps : List String) (v : Payload)
    → asks (search_command searches ps v) ≡ false
search-quiet searches ps (str c) = patterns-quiet searches ps c
search-quiet searches [] null = refl
search-quiet searches [] _ = refl
search-quiet searches (p ∷ ps) _ = refl

command-quiet :
    (searches : String → String → Bool) (cfg : SafetyConfig) (operation : String) (params : Params)
    → asks (check_command searches cfg operation params) ≡ false
unfolding check_command validate_ssh_command
command-quiet searches cfg operation params = ground (
  arith,
  search-quiet searches cfg.ssh_command_deny_patterns (get_or_empty (lookup "command" params)),
)

-- Three checks that do not ask leave the question to the fourth.
asks_last :
    (a b c d : Check)
    → asks a ≡ false
    → asks b ≡ false
    → asks c ≡ false
    → asks (unless_denied a (unless_denied b (unless_denied c d)))
      ≡ (allows a && (allows b && (allows c && asks d)))
asks_last a b c d h k l =
    rw (asks-unless_denied a _ h, asks-unless_denied b _ k, asks-unless_denied c _ l) refl

params-quiet : (cfg : SafetyConfig) (params : Params) → asks (check_params cfg params) ≡ false
unfolding check_params validate_charge_current validate_discharge_current
params-quiet cfg params =
    let charge =
      param-quiet (validate_charge_current cfg) (lookup "charge_current" params)
        (current-quiet _ cfg.max_charge_current) in
    let discharge =
      param-quiet (validate_discharge_current cfg) (lookup "discharge_current" params)
        (current-quiet _ cfg.max_discharge_current) in
    let soc =
      param-quiet (λ v. returned (validate_soc_limit cfg v)) (lookup "soc_limit" params)
        (soc-quiet cfg) in
    let mode =
      param-quiet (λ v. returned (validate_mode cfg v)) (lookup "mode" params) (mode-quiet cfg) in
    let last =
      asks_last (charge_check cfg params) (discharge_check cfg params) (soc_check cfg params)
        (mode_check cfg params) charge discharge soc in
    ground arith

-- The gate asks for a confirmation exactly when one is required and not given, and the same
-- operation would be let through if it were confirmed.
pub asks_iff_confirmable :
    (searches : String → String → Bool) (cfg : SafetyConfig) (operation : String) (params : Params)
    (confirmed : Bool) (dbus_path : Option String)
    → asks (validate_write_operation searches cfg operation params confirmed dbus_path) ≡ (
        cfg.require_confirmation
        && not confirmed
        && allows (validate_write_operation searches cfg operation params true dbus_path))
unfolding validate_write_operation check_confirmed
asks_iff_confirmable searches cfg operation params confirmed dbus_path =
    let path = check_path cfg operation dbus_path in
    let rest = check_params cfg params in
    let command = check_command searches cfg operation params in
    let open_question =
      asks_last path rest command (check_confirmed cfg operation params confirmed)
        (path-quiet cfg operation dbus_path) (params-quiet cfg params)
        (command-quiet searches cfg operation params) in
    let confirmed_now = unless_iff path rest command (check_confirmed cfg operation params true) in
    ground (arith, open_question, confirmed_now)
