-- ===== src/Reads/Tests.antt =====
-- The read tools of src/mcp_venus_os/server.py over a small cache, and the theorems at that input.
use mcp_venus_os.Prelude.{
  ℕ, ◌≡◌, ◌≤◌, ◌<◌, ◌+◌, ◌/◌, map, arith, refl, String, true, false, ◌||◌, ◌&&◌, Option, none, some,
  List, [], ◌∷◌, lookup, insert, split_slash, after_prefix, elem, show_ℕ, show_ℤ, str_eq,
  starts_with, ends_with, sorted, ◌*◌, if◌then◌else◌,
}
use mcp_venus_os.Prelude.Int.{ℤ, pos}
use mcp_venus_os.Value.{
  Float, float, finite, int, null, bool, num, str, one_units, num_lt, overflow_bound,
}
use mcp_venus_os.Value.Arithmetic.{bit_length, round_to, nearest, float_add, float_mul, round_tenth}
use mcp_venus_os.Config.{whole_float}
use mcp_venus_os.Telemetry.{battery_paths}
use mcp_venus_os.Capabilities.{
  marks, is_capability_topic, caps_of_topic, detect_from, detect_capabilities,
}
use mcp_venus_os.Mqtt.{Client, initial}
use mcp_venus_os.Mqtt.Cache.{read_path, read_first}
use mcp_venus_os.Mqtt.Devices.{device_parts, collect, place_device, sort_devices, list_devices}
use mcp_venus_os.Write.{round_double, number_to_float}
use mcp_venus_os.Reads.{collect_fields, collect_mqtt, pv_vxi_fallback}
use mcp_venus_os.Reads.Stale.{IsAged, ages_of, collect_mqtt-IsCollected}
use mcp_venus_os.Reads.Readers.{
  Answer, single, all_of, place_instance, instances_of, read_instances, read_types,
  read_all_instances, instance_device_type, get_battery_soc, get_pv_power,
}
use mcp_venus_os.Reads.Registry.{Registry, register_all, apply_capability_tools}
use mcp_venus_os.Reads.Registry.Counts.{count, IsConsistent}
use mcp_venus_os.Reads.Registry.Consistent.{apply_capability_tools-IsConsistent}
use mcp_venus_os.Reads.Ready.{Ready, done_topic, mqtt_ready, mqtt_warmup_timeout}
use mcp_venus_os.Reads.Ready.Ending.{Sleeps, EndsAt, mqtt_ready-ends}
use mcp_venus_os.Reads.Tanks.{
  one_tank, decimal, tank_of, place_tank, tank_instances, tank_readings, get_tank_level,
}
use mcp_venus_os.Reads.Tanks.Filled.{IsFilledAnswer, get_tank_level-IsFilled}

abbrev home : Client
home = record (initial "p1" []) {
  cache =
      ("N/p1/battery/2/Soc", (num (int (pos 80)), 10 * one_units))
      ∷ ("N/p1/battery/2/Dc/0/Power", (num (int (pos 500)), 40 * one_units))
      ∷ ("N/p1/battery/1/Dc/0/Power", (num (float (whole_float 7)), 40 * one_units))
      ∷ ("N/p1/solarcharger/3/Pv/V", (num (int (pos 100)), 40 * one_units))
      ∷ ("N/p1/solarcharger/3/Pv/I", (num (int (pos 4)), 40 * one_units))
      ∷ ("tank/4/Level", (num (int (pos 55)), 40 * one_units))
      ∷ ("tank/04/Level", (num (int (pos 66)), 40 * one_units))
      ∷ ("inverter/state", (str "on", 40 * one_units))
      ∷ [];
}

abbrev at_home : ℕ → Client
at_home i = home

abbrev at_80 : ℕ → ℕ
at_80 i = 80 * one_units

abbrev digit_of : String → Option ℤ
digit_of s =
    if str_eq s "1"
    then some (pos 1)
    else if str_eq s "2"
    then some (pos 2)
    else if str_eq s "3"
    then some (pos 3)
    else none

abbrev no_float : String → Option Float
no_float s = none

whole_read : Unit {0}
unfolding collect_fields collect_mqtt pv_vxi_fallback place_instance instances_of read_instances
    read_types read_all_instances instance_device_type get_battery_soc get_pv_power read_path
    read_first device_parts collect place_device sort_devices list_devices lookup insert split_slash
    after_prefix show_ℕ show_ℤ one_units bit_length round_to nearest float_add float_mul round_tenth
    round_double number_to_float overflow_bound
whole_read = tt

-- The SoC is 70 s old, which is above the limit of 60 s, and the power's 40 s are not.
soc_lem :
    get_battery_soc digit_of at_home at_80 (whole_float 60) (pos 2)
    ≡ some (
        single (
          ("instance", num (int (pos 2)))
          ∷ ("soc", num (int (pos 80)))
          ∷ ("voltage", null)
          ∷ ("current", null)
          ∷ ("power", num (int (pos 500)))
          ∷ ("temperature", null)
          ∷ ("status", null)
          ∷ ("time_to_go", null)
          ∷ ("stale", bool true)
          ∷ ("age_seconds", num (float (whole_float 70)))
          ∷ []))
unfolding whole_read
soc_lem = refl

abbrev sum_of : Option Answer → Option Float
sum_of (some (all_of readings total)) = total
sum_of _ = none

sums_lem :
    (sum_of (get_battery_soc digit_of at_home at_80 (whole_float 60) (pos 0))
      ≡ some (whole_float 507))
    × (sum_of (get_pv_power digit_of at_home at_80 (whole_float 60) no_float (pos 0))
        ≡ some (whole_float 400))
unfolding whole_read
sums_lem = (refl, refl)

not_negative : num_lt (float (whole_float 60)) (float (finite (pos 0))) ≡ false
unfolding one_units
not_negative = refl

collect_mqtt-IsCollected_example :
    (lookup "stale" (collect_mqtt at_home at_80 (whole_float 60) "battery" (pos 2) 0 battery_paths)
      ≡ some (bool true))
    × IsAged at_home at_80 "battery"
        (pos 2)
        (whole_float 60)
        (ages_of at_home at_80 "battery" (pos 2) 0 battery_paths)
        (lookup "age_seconds"
          (collect_mqtt at_home at_80 (whole_float 60) "battery" (pos 2) 0 battery_paths))
    × (lookup "soc" (collect_mqtt at_home at_80 (whole_float 60) "battery" (pos 2) 0 battery_paths)
        ≡ some (num (int (pos 80))))
unfolding whole_read
collect_mqtt-IsCollected_example =
    collect_mqtt-IsCollected at_home at_80 "battery" (pos 2) (whole_float 60) 0 battery_paths "soc"
      not_negative refl refl

tank_lem :
    get_tank_level (whole_float 60) at_home at_80 (pos 0)
    ≡ one_tank (record {
      tank = pos 4;
      level = num (int (pos 55));
      stale = false;
      age_seconds = some (whole_float 40);
    })
unfolding whole_read decimal tank_of place_tank tank_instances tank_readings get_tank_level
tank_lem = refl

get_tank_level-IsFilled_example :
    IsFilledAnswer
      (whole_float 60)
      home
      at_80
      (get_tank_level (whole_float 60) at_home at_80 (pos 0))
get_tank_level-IsFilled_example = get_tank_level-IsFilled (whole_float 60) home at_80 (pos 0) refl

abbrev unregistered : Registry
unregistered = record { registered = []; tools = [] }

unregistered-IsConsistent : IsConsistent unregistered
unregistered-IsConsistent t = refl

abbrev topics : List String
topics = "N/p1/battery/2/Soc" ∷ "tank/4/Level" ∷ "inverter/state" ∷ []

registered_lem : (apply_capability_tools topics false unregistered).0 ≡ "control" ∷ "pump" ∷ []
unfolding apply_capability_tools register_all marks is_capability_topic caps_of_topic detect_from
    detect_capabilities sorted starts_with ends_with lookup
registered_lem = refl

apply_capability_tools-IsConsistent_example :
    IsConsistent (apply_capability_tools topics true unregistered).1
    × ((t : String) → count t (apply_capability_tools topics true unregistered).1.tools ≤ 1)
    × ((x : String)
        → elem x (apply_capability_tools topics true unregistered).1.registered
          ≡ (elem x [] || elem x (detect_capabilities topics) || (str_eq x "ssh" && true)))
    × (apply_capability_tools topics true (apply_capability_tools topics true unregistered).1
        ≡ ([], (apply_capability_tools topics true unregistered).1))
apply_capability_tools-IsConsistent_example =
    apply_capability_tools-IsConsistent topics true unregistered unregistered-IsConsistent

-- Rounds of a quarter of a second; the mark never comes.
abbrev quarter : ℕ
quarter = one_units / 4

abbrev by_quarters : ℕ → ℕ
by_quarters i = i * quarter

by_quarters-Sleeps : Sleeps at_home by_quarters quarter
by_quarters-Sleeps = record { onward = grind arith; rounds = λ i late. grind arith }

rounds_suffice : mqtt_warmup_timeout < 81 * quarter
unfolding mqtt_warmup_timeout one_units
rounds_suffice = omega arith

mqtt_ready-ends_example :
    (last : ℕ) × (mqtt_ready at_home by_quarters 82 none false unregistered
      ≡ some (
          Ready.ready last
            (apply_capability_tools (map (λ entry. entry.0) home.cache) false unregistered).1))
    × EndsAt at_home by_quarters quarter
        (done_topic at_home by_quarters)
        (by_quarters 0 + mqtt_warmup_timeout)
        0
        last
mqtt_ready-ends_example =
    mqtt_ready-ends at_home by_quarters quarter 81 false unregistered by_quarters-Sleeps
      rounds_suffice
