-- ===== src/Write/Tests.antt =====
-- A write of the SoC limit through src/mcp_venus_os/server.py, and the theorems at that input.
use mcp_venus_os.Prelude.{
  ℕ, ◌*◌, ◌≡◌, ◌↔◌, refl, String, Bool, true, false, Option, none, some, [], ◌∷◌, arith, lookup,
  show_ℤ,
}
use mcp_venus_os.Prelude.Int.{ℤ, pos}
use mcp_venus_os.Value.{
  Float, int, float, num, str, obj, entry, end, one_units, overflow_bound, math_isfinite,
}
use mcp_venus_os.Config.{SafetyConfig, default_safety, load_safety, whole_float}
use mcp_venus_os.Hardware.{finite_number, role_eq, unit_eq}
use mcp_venus_os.Hardware.Validation.{
  validate_hardware_write, check_contract, check_probes, check_probe, check_value, same_target,
}
use mcp_venus_os.Hardware.Tests.{soc_contract, steady}
use mcp_venus_os.Mqtt.{Client, initial}
use mcp_venus_os.Mqtt.Cache.{read_path, read_path_since}
use mcp_venus_os.Write.Client.{IsCached, moments, mqtt_write_and_verify-IsCached}
use mcp_venus_os.Write.{Moment, values_match, contract_eq, round_double, number_to_float}
use mcp_venus_os.Write.Verify.{
  Request, Verified, verified, gate, still_qualified, acknowledge, verify_loop, after_publish,
  mqtt_write_and_verify, write_verify_timeout,
}
use mcp_venus_os.Write.Acknowledged.{IsVerified, mqtt_write_and_verify-IsVerified}
use mcp_venus_os.Write.Terminates.{Sleeps, is_result, mqtt_write_and_verify-result}
use mcp_venus_os.Write.Matching.{IsReadAs, HasFloat, values_match_iff, values_match-ints}
use mcp_venus_os.Write.Tools.{set_inverter_mode, set_charge_current_limit, set_soc_limit}
use mcp_venus_os.Write.Gated.{
  IsGatedMode, IsGated, current_request, soc_request, write_tools-IsGated,
}

-- No text is a float.
abbrev no_float : String → Option Float
no_float s = none

abbrev live : SafetyConfig
live = record default_safety { enable_writes = true; hardware_write_contracts = soc_contract ∷ [] }

-- A second passes from a moment to the next; every read-back shows 50.
abbrev world : ℕ → Moment
world i = record {
  safety = live;
  portal_id = some "p1";
  stale_after_seconds = whole_float 60;
  now = i * one_units;
  read = steady;
  read_since = λ device inst path since. some (num (int (pos 50)), int (pos 1));
  publish_fails = false;
}

abbrev limit_to_50 : Request
limit_to_50 = record {
  device_type = "battery";
  inst = pos 2;
  path = "SocLimit";
  value = num (int (pos 50));
  semantic_mode = none;
}

abbrev success : Verified
success = record {
  value = num (int (pos 50));
  topic = "W/p1/battery/2/SocLimit";
  deadline = 7 * one_units;
  verified_at = 6 * one_units;
  contract_id = "soc";
  evidence_sha256 = "e";
}

whole_write : Unit {0}
unfolding mqtt_write_and_verify gate still_qualified acknowledge verify_loop after_publish
    write_verify_timeout values_match contract_eq round_double number_to_float unit_eq role_eq
    validate_hardware_write check_contract check_probes check_probe check_value same_target
    finite_number math_isfinite one_units overflow_bound lookup show_ℤ load_safety
whole_write = tt

succeeds : (mqtt_write_and_verify no_float 5 world limit_to_50).0 ≡ some (verified success)
unfolding whole_write
succeeds = refl

mqtt_write_and_verify-IsVerified_example : IsVerified no_float world limit_to_50 success
mqtt_write_and_verify-IsVerified_example =
    mqtt_write_and_verify-IsVerified no_float world limit_to_50 5 success succeeds

world-Sleeps : Sleeps one_units world
world-Sleeps i late = omega arith

mqtt_write_and_verify-result_example :
    is_result (mqtt_write_and_verify no_float 6 world limit_to_50).0 ≡ true
unfolding write_verify_timeout
mqtt_write_and_verify-result_example =
    mqtt_write_and_verify-result no_float world limit_to_50 one_units 5 world-Sleeps (omega arith)
      (omega arith)

values_match_iff_example :
    (values_match no_float
        (obj (entry "value" (num (int (pos 50))) end))
        (num (float (whole_float 50)))
      ≡ true)
    ↔ ((x : ℤ) × IsReadAs no_float (obj (entry "value" (num (int (pos 50))) end)) x
        × HasFloat no_float (num (float (whole_float 50))) x)
values_match_iff_example =
    values_match_iff no_float (obj (entry "value" (num (int (pos 50))) end))
      (num (float (whole_float 50)))

values_match-ints_example :
    ((values_match no_float (num (int (pos 3))) (num (int (pos 4))) ≡ true) ↔ (pos 3 ≡ pos 4))
    × ((values_match no_float (obj (entry "value" (num (int (pos 3))) end)) (num (int (pos 4)))
          ≡ true)
        ↔ (pos 3 ≡ pos 4))
values_match-ints_example = values_match-ints no_float (pos 3) (pos 4) (omega arith) (omega arith)

-- No pattern is found.
abbrev finds_nothing : String → String → Bool
finds_nothing pattern command = false

live_loads : load_safety live ≡ some live
unfolding load_safety one_units
live_loads = refl

write_tools-IsGated_example :
    IsGatedMode finds_nothing no_float 5 world "mqtt" true "on"
      (pos 2)
      true
      (set_inverter_mode finds_nothing no_float 5 world "mqtt" true "on" (pos 2) true).1
    × IsGated finds_nothing no_float 5 world "mqtt" true "set_charge_current_limit"
        (("charge_current", num (float (whole_float 20))) ∷ ("instance", num (int (pos 2))) ∷ [])
        true
        "Dc/0/MaxChargeCurrent"
        (current_request finds_nothing no_float 5 world "mqtt" true (whole_float 20) (pos 2))
        (set_charge_current_limit finds_nothing no_float 5 world "mqtt" true
          (whole_float 20)
          (pos 2)
          true).1
    × IsGated finds_nothing no_float 5 world "mqtt" true "set_soc_limit"
        (("soc_limit", num (int (pos 50))) ∷ ("instance", num (int (pos 2))) ∷ [])
        true
        "SocLimit"
        (soc_request finds_nothing no_float 5 world "mqtt" true (pos 50) (pos 2))
        (set_soc_limit finds_nothing no_float 5 world "mqtt" true (pos 50) (pos 2) true).1
write_tools-IsGated_example =
    write_tools-IsGated finds_nothing no_float 5 world "mqtt" true "on" (whole_float 20) (pos 50)
      (pos 2) true live_loads

-- A client whose cache identifies the target, and from moment 2 on shows the new limit.
abbrev identified : Client
identified = record (initial "p1" (soc_contract ∷ [])) {
  client = some 7;
  connected = true;
  cache =
      ("N/p1/system/0/FirmwareVersion", (str "v", 0))
      ∷ ("N/p1/battery/2/ProductId", (str "v", 0))
      ∷ ("N/p1/battery/2/FirmwareVersion", (str "v", 0))
      ∷ ("N/p1/battery/2/SocLimit", (num (int (pos 50)), 2 * one_units))
      ∷ [];
}

client_succeeds :
    (mqtt_write_and_verify no_float 5
      (moments no_float 5 limit_to_50
        (λ i. live)
        (whole_float 60)
        (λ i. i * one_units)
        (λ i. identified))
      limit_to_50).0
    ≡ some (verified success)
unfolding whole_write read_path read_path_since
client_succeeds = refl

mqtt_write_and_verify-IsCached_example :
    IsCached no_float 5 limit_to_50
      (λ i. live)
      (whole_float 60)
      (λ i. i * one_units)
      (λ i. identified)
mqtt_write_and_verify-IsCached_example =
    mqtt_write_and_verify-IsCached no_float 5 limit_to_50 (λ i. live) (whole_float 60)
      (λ i. i * one_units) (λ i. identified) success client_succeeds
