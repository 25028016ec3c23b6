-- ===== src/Telemetry.antt =====
-- src/mcp_venus_os/telemetry.py: the read paths, the broker filters and the topics to refresh.
-- `topic_matches_sub` of paho-mqtt is the parameter `matches`; which code points from 128 on are
-- digits for `str.isdigit` is the parameter `other_digit`. Sets are lists without repetition.
pub mod Filters
pub mod Refresh
pub mod Tests
use Prim.Native.Char.{code}
use mcp_venus_os.Prelude.{
  ℕ, String, ◌<>◌, Bool, true, false, not, ◌&&◌, ◌||◌, Option, none, some, List, [], ◌∷◌, ◌++◌, map,
  keep, any, add, add_all, elem, lookup, str_eq, starts_with, after_prefix, partition_slash,
  has_char, show_ℤ, sorted, leb, ◌==◌, if◌then◌else◌,
}
use mcp_venus_os.Prelude.Int.{ℤ}
use mcp_venus_os.Hardware.{IdentityProbe, HardwareWriteContract}

-- The candidates of each field of a tool.
abbrev pub FieldPaths : Type 0
FieldPaths = List (String × List String)

abbrev pub battery_paths : FieldPaths
battery_paths =
    ("soc", "Soc" ∷ [])
    ∷ ("voltage", "Dc/0/Voltage" ∷ "Voltage" ∷ [])
    ∷ ("current", "Dc/0/Current" ∷ "Current" ∷ [])
    ∷ ("power", "Dc/0/Power" ∷ "Power" ∷ [])
    ∷ ("temperature", "Dc/0/Temperature" ∷ "Temperature" ∷ [])
    ∷ ("status", "Status" ∷ [])
    ∷ ("time_to_go", "TimeToGo" ∷ [])
    ∷ []

abbrev pub pv_paths : FieldPaths
pv_paths =
    ("power", "Ac/Power" ∷ "Yield/Power" ∷ [])
    ∷ ("voltage", "Ac/L1/Voltage" ∷ "Ac/L2/Voltage" ∷ "Ac/L3/Voltage" ∷ "Pv/V" ∷ [])
    ∷ ("current", "Ac/L1/Current" ∷ "Ac/L2/Current" ∷ "Ac/L3/Current" ∷ "Pv/I" ∷ [])
    ∷ ("yield_today", "Ac/Energy/Daily" ∷ "Yield/Today" ∷ [])
    ∷ ("yield_total", "Ac/Energy/Forward" ∷ "Yield/Pv" ∷ "Yield/User" ∷ [])
    ∷ []

abbrev pub grid_paths : FieldPaths
grid_paths =
    ("power", "Ac/Power" ∷ "Ac/L1/Power" ∷ "Ac/L2/Power" ∷ "Ac/L3/Power" ∷ [])
    ∷ ("voltage", "Ac/L1/Voltage" ∷ "Ac/L2/Voltage" ∷ "Ac/L3/Voltage" ∷ [])
    ∷ ("current", "Ac/L1/Current" ∷ "Ac/L2/Current" ∷ "Ac/L3/Current" ∷ [])
    ∷ ("frequency", "Ac/Frequency" ∷ "Ac/L1/Frequency" ∷ [])
    ∷ ("status", "Connected" ∷ [])
    ∷ []

abbrev pub inverter_paths : FieldPaths
inverter_paths =
    ("mode", "Mode" ∷ [])
    ∷ ("state", "State" ∷ [])
    ∷ ("ac_power_out", "Ac/Out/P" ∷ [])
    ∷ ("ac_power_in", "Ac/ActiveIn/P" ∷ [])
    ∷ ("dc_power", "Dc/0/Power" ∷ "Dc/Pv/Power" ∷ [])
    ∷ ("temperature", "Dc/0/Temperature" ∷ "Temperature" ∷ [])
    ∷ []

abbrev pub read_paths : List (String × FieldPaths)
read_paths =
    ("battery", battery_paths)
    ∷ ("solarcharger", pv_paths)
    ∷ ("pvinverter", pv_paths)
    ∷ ("grid", grid_paths)
    ∷ ("vebus", inverter_paths)
    ∷ []

abbrev pub discovery_paths : List (String × String)
discovery_paths =
    ("digitalinputs", "Devices/+/Type")
    ∷ ("logger", "Storage/MountState")
    ∷ ("modbustcp", "Services/Count")
    ∷ ("settings", "Settings/Vrmlogger/LogInterval")
    ∷ []

-- `f"{prefix}/{device_type}/{instance}/{path}"`
abbrev pub item_topic : String → String → ℤ → String → String
item_topic prefix device_type inst path =
    prefix <> "/" <> device_type <> "/" <> show_ℤ inst <> "/" <> path

abbrev pub probe_topic : String → IdentityProbe → String
probe_topic prefix p = item_topic prefix p.device_type p.instance_id p.path

-- The topics of one contract: its target and its identity.
abbrev pub topics_of : String → HardwareWriteContract → List String
topics_of prefix c =
    item_topic prefix c.device_type c.instance_id c.path ∷ map (probe_topic prefix) c.identity

contract_topics_from : String → List HardwareWriteContract → List String → List String
contract_topics_from prefix [] topics = topics
contract_topics_from prefix (c ∷ cs) topics =
    contract_topics_from prefix cs
      (if str_eq prefix ("N/" <> c.portal_id) then add_all (topics_of prefix c) topics else topics)

pub contract_topics : String → List HardwareWriteContract → List String
contract_topics prefix contracts = contract_topics_from prefix contracts []

abbrev family_filters : String → List (String × String) → List String
family_filters prefix [] = []
family_filters prefix ((family, path) ∷ rest) =
    (prefix <> "/" <> family <> "/+/" <> path) ∷ family_filters prefix rest

-- The nested paths of one device type.
abbrev nested_filters : String → String → FieldPaths → List String
nested_filters prefix device_type [] = []
nested_filters prefix device_type ((field, paths) ∷ rest) =
    map (λ path. prefix <> "/" <> device_type <> "/+/" <> path) (keep (has_char b'/') paths)
    ++ nested_filters prefix device_type rest

abbrev tool_filters : String → List (String × FieldPaths) → List String
tool_filters prefix [] = []
tool_filters prefix ((device_type, fields) ∷ rest) =
    nested_filters prefix device_type fields ++ tool_filters prefix rest

-- The filters before the contracts are looked at.
pub base_filters : String → List String
unfolding has_char
base_filters prefix = add_all (tool_filters prefix read_paths) (
    add_all (family_filters prefix discovery_paths) (
      add_all
        ((prefix <> "/+/+/+")
          ∷ (prefix <> "/+/+/Mgmt/+")
          ∷ (prefix <> "/full_publish_completed")
          ∷ [])
        []))

-- The loop over the contract topics: a topic that a filter covers is not added.
pub cover : (String → String → Bool) → List String → List String → List String
cover matches [] filters = filters
cover matches (topic ∷ topics) filters =
    cover matches topics
      (if any (λ pattern. matches pattern topic) filters then filters else add topic filters)

pub subscriptions : (String → String → Bool) → String → List HardwareWriteContract → List String
subscriptions matches prefix contracts =
    cover matches (contract_topics prefix contracts) (base_filters prefix)

abbrev pub with_identifier : String → Option (String × String) → Option (String × String × String)
with_identifier family none = none
with_identifier family (some (identifier, path)) = some (family, identifier, path)

abbrev pub with_family : Option (String × String) → Option (String × String × String)
with_family none = none
with_family (some (family, more)) = with_identifier family (partition_slash more)

abbrev pub with_rest : Option String → Option (String × String × String)
with_rest none = none
with_rest (some rest) = with_family (partition_slash rest)

-- The parts of a topic behind the prefix: family, instance and path.
abbrev pub item_parts : String → String → Option (String × String × String)
item_parts prefix topic = with_rest (after_prefix topic (prefix <> "/"))

module _ (other_digit : ℕ → Bool) where
  abbrev pub is_digit : ℕ → Bool
  is_digit c = (leb b'0' c && leb c b'9') || (leb 128 c && other_digit c)

  abbrev pub all_digits : String → Bool
  all_digits String.[] = true
  all_digits (String.◌∷◌ c s) = is_digit (code c) && all_digits s

  -- `s.isdigit()`
  abbrev pub isdigit : String → Bool
  isdigit s = not (str_eq s "") && all_digits s

  abbrev pub fields_of : String → FieldPaths
  fields_of family = elim (lookup family read_paths) [ none ↦ [] | some fields ↦ fields ]

  -- `any(path in candidates for candidates in fields.values())`
  abbrev pub is_read_path : String → String → Bool
  is_read_path family path = any (λ field. elem path field.1) (fields_of family)

  abbrev pub wanted : List String → String → Option (String × String × String) → Bool
  wanted required topic none = false
  wanted required topic (some (family, identifier, path)) =
      isdigit identifier && (elem topic required || is_read_path family path)

  -- One round of the loop over the cached topics.
  unfoldable pub is_target : String → List String → String → Bool
  is_target prefix required topic = wanted required topic (item_parts prefix topic)

  targets_from : String → List String → List String → List String → List String
  targets_from prefix required [] targets = targets
  targets_from prefix required (topic ∷ cached) targets =
      targets_from prefix required cached
        (if is_target prefix required topic then add topic targets else targets)

  -- A topic without wildcards.
  abbrev pub is_exact : String → Bool
  is_exact topic = not (has_char b'+' topic) && not (has_char b'#' topic)

  abbrev pub required_topics : String → List HardwareWriteContract → List String → List String
  required_topics prefix contracts explicit =
      add_all (keep is_exact explicit) (contract_topics prefix contracts)

  pub refresh_topics : String → List String → List HardwareWriteContract → List String → List String
  unfolding targets_from
  refresh_topics prefix cached contracts explicit =
      sorted (targets_from prefix (required_topics prefix contracts explicit) cached [])
