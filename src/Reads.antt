-- ===== src/Reads.antt =====
-- The read tools of src/mcp_venus_os/server.py over the cache of the MQTT client. Other threads change the
-- client while a tool reads: `look i` is the client and `now i` the clock that the i-th read of a tool
-- finds. A dictionary that a tool returns is an association list; `none` is an exception.
pub mod Readers
pub mod Tanks
pub mod Registry
pub mod Ready
pub mod Backends
pub mod Ages
pub mod Stale
pub mod Tests
use mcp_venus_os.Prelude.{
  ℕ, zero, suc, ◌+◌, String, Bool, true, false, not, ◌&&◌, ◌||◌, Option, none, some, List, [], ◌∷◌,
  ◌++◌, lookup, insert, str_eq, if◌then◌else◌,
}
use mcp_venus_os.Prelude.Int.{ℤ, pos, leb_ℤ, eqb_ℤ}
use mcp_venus_os.Value.{
  Float, finite, Number, int, float, Payload, null, bool, num, str, arr, obj, num_lt,
}
use mcp_venus_os.Value.Arithmetic.{float_add, float_mul, round_tenth, round_number}
use mcp_venus_os.Telemetry.{FieldPaths}
use mcp_venus_os.Mqtt.{Client}
use mcp_venus_os.Mqtt.Cache.{read_first}
use mcp_venus_os.Mqtt.Devices.{Device, list_devices}
use mcp_venus_os.Readings.{Reading}
use mcp_venus_os.Write.{number_to_float}

-- `max(a, b)`
abbrev pub num_max : Number → Number → Number
num_max a b = if num_lt a b then b else a

-- What the loop over the fields has collected.
pub record Collected : Type 0 where
  pub out : Reading
  pub max_age : Number
  pub seen_any : Bool

abbrev pub with_field : String → Option (Payload × Number) → Collected → Collected
with_field field none s = record s { out = insert field null s.out }
with_field field (some (value, age)) s = record {
  out = insert field value s.out;
  max_age = num_max s.max_age age;
  seen_any = true;
}

module _ (look : ℕ → Client) (now : ℕ → ℕ) (stale_after : Float) where
  unfoldable pub collect_fields : String → ℤ → ℕ → FieldPaths → Collected → Collected
  collect_fields device_type inst i [] s = s
  collect_fields device_type inst i ((field, candidates) ∷ rest) s =
      collect_fields device_type inst (i + 1) rest
        (with_field field (read_first (now i) (look i) device_type inst candidates) s)

  abbrev pub with_ages : Collected → Reading
  with_ages s = insert "age_seconds" (if s.seen_any then num (round_number s.max_age) else null) (
      insert "stale" (bool ((s.seen_any && num_lt (float stale_after) s.max_age) || not s.seen_any))
        s.out)

  abbrev pub nothing_collected : Collected
  nothing_collected = record { out = []; max_age = float (finite (pos 0)); seen_any = false }

  -- `_collect_mqtt`, whose first read is the i-th.
  unfoldable pub collect_mqtt : String → ℤ → ℕ → FieldPaths → Reading
  collect_mqtt device_type inst i fields =
      with_ages (collect_fields device_type inst i fields nothing_collected)

-- `d | e` of dictionaries.
abbrev pub merge : Reading → Reading → Reading
merge d [] = d
merge d ((k, v) ∷ e) = merge (insert k v d) e

-- `reading[key]` where the key is there.
abbrev pub field_of : String → Reading → Payload
field_of key reading = elim (lookup key reading) [ none ↦ null | some v ↦ v ]

abbrev pub is_null : Payload → Bool
is_null null = true
is_null _ = false

-- What `float` of a value raises: TypeError and ValueError are caught, OverflowError is not.
pub data Converted : Type 0 where
  converted : Float → Converted
  caught overflow : Converted

abbrev pub of_number : Option Float → Converted
of_number none = overflow
of_number (some x) = converted x

abbrev pub of_text : Option Float → Converted
of_text none = caught
of_text (some x) = converted x

module _ (float_of_text : String → Option Float) where
  -- `float(value)`
  abbrev pub convert : Payload → Converted
  convert (num n) = of_number (number_to_float n)
  convert (bool b) = of_number (number_to_float (int (if b then pos 1 else pos 0)))
  convert (str s) = of_text (float_of_text s)
  convert _ = caught

  abbrev pub with_power : Converted → Converted → Reading → Option Reading
  with_power (converted v) (converted i) reading =
      some (insert "power" (num (float (round_tenth (float_mul v i)))) reading)
  with_power overflow i reading = none
  with_power (converted v) overflow reading = none
  with_power caught i reading = some reading
  with_power (converted v) caught reading = some reading

  -- `_pv_vxi_fallback`
  unfoldable pub pv_vxi_fallback : Reading → Option Reading
  pv_vxi_fallback reading =
      if is_null (field_of "power" reading)
        && not (is_null (field_of "voltage" reading))
        && not (is_null (field_of "current" reading))
      then with_power (convert (field_of "voltage" reading)) (convert (field_of "current" reading))
          reading
      else some reading
