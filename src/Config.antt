-- ===== src/Config.antt =====
-- src/mcp_venus_os/config.py: the settings that the program reads, with their defaults and their
-- validators. The environment variables that pydantic-settings reads are not modelled: a
-- configuration is a record, and its validators are functions.
use mcp_venus_os.Prelude.{
  ℕ, String, ◌<>◌, Bool, true, false, ◌&&◌, Option, none, some, List, [], ◌∷◌, if◌then◌else◌,
}
use mcp_venus_os.Prelude.Int.{ℤ, pos, scale, ltb_ℤ, leb_ℤ}
use mcp_venus_os.Value.{Float, finite, Payload, bool, is_finite, float_le, one_units}
use mcp_venus_os.Hardware.{HardwareWriteContract}

-- A float that is a whole number.
abbrev pub whole_float : ℕ → Float
whole_float n = finite (scale (pos n) one_units)

pub record DbusConfig : Type 0 where
  pub bus_type : String
  pub service_name : String

abbrev pub default_dbus : DbusConfig
default_dbus = record { bus_type = "system"; service_name = "com.victronenergy" }

pub record MqttConfig : Type 0 where
  pub host : String
  pub port : ℤ
  pub username : Option String
  pub password : Option String
  pub client_id : String
  pub portal_id : Option String
  pub stale_after_seconds : Float
  pub tls : Bool

abbrev pub default_mqtt : MqttConfig
default_mqtt = record {
  host = "localhost";
  port = pos 1883;
  username = none;
  password = none;
  client_id = "mcp-venus-os";
  portal_id = none;
  stale_after_seconds = whole_float 60;
  tls = false;
}

abbrev pub portal_topic : String → Option String → Option String
portal_topic letter none = none
portal_topic letter (some String.[]) = none
portal_topic letter (some (String.◌∷◌ c s)) = some (letter <> "/" <> String.◌∷◌ c s)

-- `topic_prefix`; `none` is MissingPortalIdError, also for an empty portal.
unfoldable pub topic_prefix : MqttConfig → Option String
topic_prefix config = portal_topic "N" config.portal_id

pub record SshConfig : Type 0 where
  pub host : Option String
  pub port : ℤ
  pub user : String
  pub key_path : Option String
  pub password : Option String
  pub timeout_s : Float
  pub known_hosts : Option String

abbrev pub default_ssh : SshConfig
default_ssh = record {
  host = none;
  port = pos 22;
  user = "root";
  key_path = none;
  password = none;
  timeout_s = whole_float 15;
  known_hosts = none;
}

-- `bool(s)` of an optional text.
abbrev pub is_given : Option String → Bool
is_given none = false
is_given (some String.[]) = false
is_given (some (String.◌∷◌ c s)) = true

-- `self.host or get_config().mqtt.host`
unfoldable pub effective_host : SshConfig → MqttConfig → String
effective_host config mqtt = elim config.host [
  | none ↦ mqtt.host
  | some h ↦ if is_given (some h) then h else mqtt.host
]

pub record SafetyConfig : Type 0 where
  pub enable_writes : Bool
  pub require_confirmation : Bool
  pub hardware_write_contracts : List HardwareWriteContract
  pub max_charge_current : Float
  pub max_discharge_current : Float
  pub min_soc_limit : ℤ
  pub max_soc_limit : ℤ
  pub allowed_modes : List String
  pub write_path_allowlist : List (String × List String)
  pub ssh_command_deny_patterns : List String

abbrev pub default_safety : SafetyConfig
default_safety = record {
  enable_writes = false;
  require_confirmation = true;
  hardware_write_contracts = [];
  max_charge_current = whole_float 100;
  max_discharge_current = whole_float 100;
  min_soc_limit = pos 10;
  max_soc_limit = pos 100;
  allowed_modes = "on" ∷ "off" ∷ "charger_only" ∷ "inverter_only" ∷ "eco" ∷ [];
  write_path_allowlist =
      ("vebus", "Mode" ∷ "Dc/0/MaxChargeCurrent" ∷ "Ac/ActiveIn/CurrentLimit" ∷ [])
      ∷ ("battery", "SocLimit" ∷ [])
      ∷ ("solarcharger", "Mode" ∷ "Dc/0/MaxChargeCurrent" ∷ [])
      ∷ [];
  ssh_command_deny_patterns =
      "\\brm\\s+-rf\\s+/(?:\\s|$)" ∷ "\\bmkfs" ∷ "\\bdd\\s+if=" ∷ "\\bcurl\\b.*\\|\\s*(?:ba)?sh"
      ∷ "\\bwget\\b.*\\|\\s*(?:ba)?sh" ∷ "\\bshutdown\\b" ∷ "\\breboot\\b" ∷ "\\bhalt\\b"
      ∷ "\\bpoweroff\\b" ∷ "\\bflash\\.sh\\b" ∷ [];
}

-- The validator that stands before the numeric limits: `none` is ValueError.
unfoldable pub reject_boolean_limits : Payload → Option Payload
reject_boolean_limits (bool b) = none
reject_boolean_limits value = some value

-- `ge=0, allow_inf_nan=False`
abbrev pub current_limit_ok : Float → Bool
current_limit_ok x = is_finite x && float_le (finite (pos 0)) x

-- `ge=0, le=100`
abbrev pub soc_limit_ok : ℤ → Bool
soc_limit_ok n = leb_ℤ (pos 0) n && leb_ℤ n (pos 100)

-- The field constraints of the limits.
unfoldable pub limit_fields_ok : SafetyConfig → Bool
limit_fields_ok cfg =
    current_limit_ok cfg.max_charge_current
    && current_limit_ok cfg.max_discharge_current
    && soc_limit_ok cfg.min_soc_limit
    && soc_limit_ok cfg.max_soc_limit

-- `none` is ValueError.
unfoldable pub validate_soc_range : SafetyConfig → Option SafetyConfig
validate_soc_range cfg = if ltb_ℤ cfg.max_soc_limit cfg.min_soc_limit then none else some cfg

-- A configuration is made only if the fields and the model validate.
unfoldable pub load_safety : SafetyConfig → Option SafetyConfig
unfolding limit_fields_ok validate_soc_range
load_safety cfg = if limit_fields_ok cfg then validate_soc_range cfg else none

pub record ServerConfig : Type 0 where
  pub dbus : DbusConfig
  pub mqtt : MqttConfig
  pub safety : SafetyConfig
  pub ssh : SshConfig
  pub root_password : Option String
  pub transport_backend : String
  pub server_transport : String
  pub server_host : String
  pub server_port : ℤ
  pub server_auth_token : Option String
  pub log_level : String

abbrev pub default_server : ServerConfig
default_server = record {
  dbus = default_dbus;
  mqtt = default_mqtt;
  safety = default_safety;
  ssh = default_ssh;
  root_password = none;
  transport_backend = "mqtt";
  server_transport = "stdio";
  server_host = "127.0.0.1";
  server_port = pos 8000;
  server_auth_token = none;
  log_level = "INFO";
}
