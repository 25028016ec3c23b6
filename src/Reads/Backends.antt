-- ===== src/Reads/Backends.antt =====
-- The two backends of the read tools in src/mcp_venus_os/server.py: the warmed-up MQTT client, or D-Bus
-- if the configuration says so.
use mcp_venus_os.Prelude.{
  String, Bool, not, Option, none, some, [], ◌∷◌, ◌++◌, str_eq, if◌then◌else◌,
}
use mcp_venus_os.Prelude.Int.{ℤ}
use mcp_venus_os.Value.{Float, Payload, null, num, str, int, float}
use mcp_venus_os.Mqtt.Lifecycle.{ConnectError}
use mcp_venus_os.Dbus.{Bus, Op, Result}
use mcp_venus_os.Dbus.Getters.{BatteryData, PvData, GridData, InverterData}
use mcp_venus_os.Readings.{Reading}
use mcp_venus_os.Reads.Readers.{Answer, numbered}

abbrev pub of_float : Float → Payload
of_float x = num (float x)

abbrev pub of_time_to_go : Option ℤ → Payload
of_time_to_go none = null
of_time_to_go (some n) = num (int n)

-- The dictionaries that the tools make of the data of the D-Bus client.
abbrev pub battery_reading : ℤ → BatteryData → Reading
battery_reading inst d =
    numbered inst
    ++ ("soc", of_float d.soc)
      ∷ ("voltage", of_float d.voltage)
      ∷ ("current", of_float d.current)
      ∷ ("power", of_float d.power)
      ∷ ("temperature", of_float d.temperature)
      ∷ ("status", str d.status)
      ∷ ("time_to_go", of_time_to_go d.time_to_go)
      ∷ []

abbrev pub pv_reading : ℤ → PvData → Reading
pv_reading inst d =
    numbered inst
    ++ ("power", of_float d.power)
      ∷ ("voltage", of_float d.voltage)
      ∷ ("current", of_float d.current)
      ∷ ("yield_today", of_float d.yield_today)
      ∷ ("yield_total", of_float d.yield_total)
      ∷ []

abbrev pub grid_reading : ℤ → GridData → Reading
grid_reading inst d =
    numbered inst
    ++ ("power", of_float d.power)
      ∷ ("voltage", of_float d.voltage)
      ∷ ("current", of_float d.current)
      ∷ ("frequency", of_float d.frequency)
      ∷ ("status", str d.status)
      ∷ []

abbrev pub inverter_reading : ℤ → InverterData → Reading
inverter_reading inst d =
    numbered inst
    ++ ("mode", str d.mode)
      ∷ ("state", str d.state)
      ∷ ("ac_power_out", of_float d.ac_power_out)
      ∷ ("ac_power_in", of_float d.ac_power_in)
      ∷ ("dc_power", of_float d.dc_power)
      ∷ ("temperature", of_float d.temperature)
      ∷ []

-- What a read tool ends with. The MQTT client is not ready, or the tool raises or answers over it; or the
-- D-Bus client raises or answers.
pub data Read : Type 0 where
  not_ready : ConnectError → Read
  over_mqtt : Option Answer → Read
  over_dbus : Result Reading → Read

-- `_use_mqtt`
abbrev pub use_mqtt : String → Bool
use_mqtt transport_backend = not (str_eq transport_backend "dbus")

abbrev pub with_reading : {D : Type 0} → (D → Reading) → Result D × Bus → Read × Bus
with_reading make (Result.ok d, b) = (over_dbus (Result.ok (make d)), b)
with_reading make (Result.err e, b) = (over_dbus (Result.err e), b)

abbrev pub with_client : Option ConnectError → Option Answer → Read
with_client none answer = over_mqtt answer
with_client (some e) answer = not_ready e

-- A read tool, of its run over the MQTT client, the getter of the D-Bus client and the dictionary of its
-- data.
unfoldable pub read_over :
    {D : Type 0}
    → String
    → Option ConnectError
    → Option Answer
    → Op D
    → (D → Reading)
    → Bus
    → Read × Bus
read_over transport_backend connected answer getter make b =
    if use_mqtt transport_backend
    then (with_client connected answer, b)
    else with_reading make (getter b)
