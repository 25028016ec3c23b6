-- ===== src/Reads/Readers.antt =====
-- The fan-out over all instances and the read tools of src/mcp_venus_os/server.py. `parse_int` is `int` of a
-- text in the device list.
use mcp_venus_os.Prelude.{
  ℕ, ◌+◌, String, Bool, true, false, ◌&&◌, Option, none, some, List, [], ◌∷◌, lookup, str_eq,
  length, any, if◌then◌else◌,
}
use mcp_venus_os.Prelude.Int.{ℤ, pos, leb_ℤ, eqb_ℤ}
use mcp_venus_os.Value.{Float, finite, int, Payload, bool, num, str}
use mcp_venus_os.Value.Arithmetic.{float_add, round_tenth}
use mcp_venus_os.Telemetry.{FieldPaths, battery_paths, pv_paths, grid_paths, inverter_paths}
use mcp_venus_os.Mqtt.{Client}
use mcp_venus_os.Mqtt.Devices.{Device, list_devices}
use mcp_venus_os.Readings.{Reading, decode_vebus_enums}
use mcp_venus_os.Write.{number_to_float}
use mcp_venus_os.Reads.{collect_mqtt, merge, pv_vxi_fallback}

-- What a tool returns of one device, or of all.
pub data Answer : Type 0 where
  single : Reading → Answer
  all_of : List Reading → Option Float → Answer

-- The readings so far, the last one first, the sum of their powers, and the number of the next read.
pub record Fan : Type 0 where
  pub readings : List Reading
  pub total_power : Float
  pub has_power : Bool
  pub at : ℕ

abbrev pub added : Option Float → Fan → Option Fan
added none f = none
added (some x) f = some (record f { total_power = float_add f.total_power x; has_power = true })

-- `if isinstance(power, (int, float)): total_power += power`, a bool being an int.
abbrev pub add_power : Option Payload → Fan → Option Fan
add_power (some (num n)) f = added (number_to_float n) f
add_power (some (bool b)) f = added (number_to_float (int (if b then pos 1 else pos 0))) f
add_power _ f = some f

unfoldable pub place_instance : ℤ → List ℤ → List ℤ
place_instance n [] = n ∷ []
place_instance n (m ∷ ms) = if leb_ℤ n m then n ∷ m ∷ ms else m ∷ place_instance n ms

-- `sorted(d["instance"] for d in devices if d["device_type"] == device_type)`
unfoldable pub instances_of : String → List Device → List ℤ
instances_of device_type [] = []
instances_of device_type ((a, n) ∷ ds) =
    let rest = instances_of device_type ds in
    if str_eq a device_type then place_instance n rest else rest

abbrev pub named : String → ℤ → Reading
named device_type inst = ("device_type", str device_type) ∷ ("instance", num (int inst)) ∷ []

abbrev pub numbered : ℤ → Reading
numbered inst = ("instance", num (int inst)) ∷ []

abbrev pub reversed : List Reading → List Reading → List Reading
reversed [] done = done
reversed (r ∷ rs) done = reversed rs (r ∷ done)

module _ (parse_int : String → Option ℤ) (look : ℕ → Client) (now : ℕ → ℕ)
    (stale_after : Float) where
  module _ (fields : FieldPaths) (postprocess : Reading → Option Reading) where
    abbrev pub then_add : Option Reading → Fan → Option Fan
    then_add none f = none
    then_add (some r) f = add_power (lookup "power" r) (record f { readings = r ∷ f.readings })

    -- One round of the inner loop.
    abbrev pub read_instance : String → ℤ → Fan → Option Fan
    read_instance device_type inst f =
        then_add
          (postprocess (
            merge (named device_type inst)
              (collect_mqtt look now stale_after device_type inst f.at fields)))
          (record f { at = f.at + length fields })

    unfoldable pub read_instances : String → List ℤ → Fan → Option Fan
    read_instances device_type [] f = some f
    read_instances device_type (inst ∷ insts) f = elim (read_instance device_type inst f) [
      | none ↦ none
      | some g ↦ read_instances device_type insts g
    ]

    -- The device list is read once for each type.
    unfoldable pub read_types : List String → Fan → Option Fan
    read_types [] f = some f
    read_types (device_type ∷ types) f =
        elim (read_instances device_type
          (instances_of device_type (list_devices parse_int (look f.at)))
          (record f { at = f.at + 1 })) [ none ↦ none | some g ↦ read_types types g ]

    abbrev pub start : ℕ → Fan
    start i = record { readings = []; total_power = finite (pos 0); has_power = false; at = i }

    abbrev pub answer_of : Option Fan → Option Answer
    answer_of none = none
    answer_of (some f) = some (
        all_of (reversed f.readings [])
          (if f.has_power then some (round_tenth f.total_power) else none))

    -- `_read_all_instances`
    unfoldable pub read_all_instances : List String → Option Answer
    read_all_instances types = answer_of (read_types types (start 0))

  abbrev pub is_device : String → ℤ → Device → Bool
  is_device device_type inst (a, n) = str_eq a device_type && eqb_ℤ n inst

  abbrev pub first_type : String → ℤ → List Device → List String → String
  first_type otherwise inst devices [] = otherwise
  first_type otherwise inst devices (t ∷ types) =
      if any (is_device t inst) devices then t else first_type otherwise inst devices types

  -- `_instance_device_type`, of a first type and others.
  unfoldable pub instance_device_type : String → List String → ℤ → String
  instance_device_type first others inst =
      first_type first inst (list_devices parse_int (look 0)) (first ∷ others)

  abbrev pub single_of : Option Reading → Option Answer
  single_of none = none
  single_of (some r) = some (single r)

  -- The common frame of the four read tools over MQTT.
  abbrev pub read_tool :
      FieldPaths → String → List String → (Reading → Option Reading) → ℤ → Option Answer
  read_tool fields first others postprocess inst =
      if leb_ℤ inst (pos 0)
      then read_all_instances fields postprocess (first ∷ others)
      else single_of (
          postprocess (
            merge (numbered inst) (
              collect_mqtt look now stale_after (instance_device_type first others inst) inst 1
                fields)))

  abbrev pub as_it_is : Reading → Option Reading
  as_it_is r = some r

  unfoldable pub get_battery_soc : ℤ → Option Answer
  get_battery_soc inst = read_tool battery_paths "battery" [] as_it_is inst

  unfoldable pub get_grid_status : ℤ → Option Answer
  get_grid_status inst = read_tool grid_paths "grid" [] as_it_is inst

  module _ (float_of_text : String → Option Float) where
    unfoldable pub get_pv_power : ℤ → Option Answer
    get_pv_power inst =
        read_tool pv_paths "solarcharger" ("pvinverter" ∷ []) (pv_vxi_fallback float_of_text) inst

  module _ (show : Payload → String) where
    unfoldable pub get_inverter_status : ℤ → Option Answer
    get_inverter_status inst = read_tool inverter_paths "vebus" [] (decode_vebus_enums show) inst
