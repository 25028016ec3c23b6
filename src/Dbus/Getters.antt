-- ===== src/Dbus/Getters.antt =====
-- The getters of src/mcp_venus_os/dbus_client.py: each reads its properties one after the other, and a
-- failure of one is its failure.
use mcp_venus_os.Prelude.{ℕ, Bool, String, ◌<>◌, Option, List, str_eq, if◌then◌else◌}
use mcp_venus_os.Prelude.Int.{ℤ}
use mcp_venus_os.Value.{Float, Payload}
use mcp_venus_os.Config.{DbusConfig}
use mcp_venus_os.Dbus.{
  ok, Call, Answer, Op, ◌>>=◌, ◌>>◌, pure, to_float, optional_int, connect, get_property,
  service_of,
}

pub record BatteryData : Type 0 where
  pub soc : Float
  pub voltage : Float
  pub current : Float
  pub power : Float
  pub temperature : Float
  pub status : String
  pub time_to_go : Option ℤ

pub record PvData : Type 0 where
  pub power : Float
  pub voltage : Float
  pub current : Float
  pub yield_today : Float
  pub yield_total : Float

pub record GridData : Type 0 where
  pub power : Float
  pub voltage : Float
  pub current : Float
  pub frequency : Float
  pub status : String

pub record InverterData : Type 0 where
  pub mode : String
  pub state : String
  pub ac_power_out : Float
  pub ac_power_in : Float
  pub dc_power : Float
  pub temperature : Float

-- `device_type.capitalize()` of the device types that the client asks for.
abbrev pub capitalized : String → String
capitalized device_type =
    if str_eq device_type "battery"
    then "Battery"
    else if str_eq device_type "solarcharger"
    then "Solarcharger"
    else if str_eq device_type "vebus"
    then "Vebus"
    else device_type

module _ (connects : ℕ → Bool) (answer : List Call → Call → Answer) (config : DbusConfig)
    (parse_int : String → Option ℤ) (parse_float : String → Option Float)
    (show : Payload → String) where
  -- A property of the device's service and object.
  abbrev pub read : String → ℤ → String → String → Op Payload
  read device_type inst interface name =
      get_property connects answer (service_of connects answer config inst device_type)
        ("/" <> capitalized device_type) interface name

  abbrev pub as_float : Payload → Op Float
  as_float v = pure (to_float parse_float v)

  unfoldable pub get_battery_data : ℤ → Op BatteryData
  get_battery_data inst = do
    connect connects answer
    soc ← read "battery" inst "com.victronenergy.Battery" "Soc"
    voltage ← read "battery" inst "com.victronenergy.Battery" "Voltage"
    current ← read "battery" inst "com.victronenergy.Battery" "Current"
    power ← read "battery" inst "com.victronenergy.Battery" "Power"
    temperature ← read "battery" inst "com.victronenergy.Battery" "Temperature"
    status ← read "battery" inst "com.victronenergy.Battery" "Status"
    time_to_go ← read "battery" inst "com.victronenergy.Battery" "TimeToGo"
    soc_float ← as_float soc
    voltage_float ← as_float voltage
    current_float ← as_float current
    power_float ← as_float power
    temperature_float ← as_float temperature
    time_to_go_int ← pure (optional_int parse_int time_to_go)
    pure (
        ok (record {
          soc = soc_float;
          voltage = voltage_float;
          current = current_float;
          power = power_float;
          temperature = temperature_float;
          status = show status;
          time_to_go = time_to_go_int;
        }))

  unfoldable pub get_pv_data : ℤ → Op PvData
  get_pv_data inst = do
    connect connects answer
    power ← read "solarcharger" inst "com.victronenergy.Solarcharger" "PvPower"
    voltage ← read "solarcharger" inst "com.victronenergy.Solarcharger" "PvVoltage"
    current ← read "solarcharger" inst "com.victronenergy.Solarcharger" "PvCurrent"
    yield_today ← read "solarcharger" inst "com.victronenergy.Solarcharger" "YieldToday"
    yield_total ← read "solarcharger" inst "com.victronenergy.Solarcharger" "YieldTotal"
    power_float ← as_float power
    voltage_float ← as_float voltage
    current_float ← as_float current
    yield_today_float ← as_float yield_today
    yield_total_float ← as_float yield_total
    pure (
        ok (record {
          power = power_float;
          voltage = voltage_float;
          current = current_float;
          yield_today = yield_today_float;
          yield_total = yield_total_float;
        }))

  unfoldable pub get_grid_data : ℤ → Op GridData
  get_grid_data inst = do
    connect connects answer
    power ← read "vebus" inst "com.victronenergy.Vebus" "AcPowerOut"
    voltage ← read "vebus" inst "com.victronenergy.Vebus" "AcVoltageOut"
    current ← read "vebus" inst "com.victronenergy.Vebus" "AcCurrentOut"
    frequency ← read "vebus" inst "com.victronenergy.Vebus" "AcFrequencyOut"
    status ← read "vebus" inst "com.victronenergy.Vebus" "AcActiveInState"
    power_float ← as_float power
    voltage_float ← as_float voltage
    current_float ← as_float current
    frequency_float ← as_float frequency
    pure (
        ok (record {
          power = power_float;
          voltage = voltage_float;
          current = current_float;
          frequency = frequency_float;
          status = show status;
        }))

  unfoldable pub get_inverter_data : ℤ → Op InverterData
  get_inverter_data inst = do
    connect connects answer
    mode ← read "vebus" inst "com.victronenergy.Vebus" "Mode"
    state ← read "vebus" inst "com.victronenergy.Vebus" "State"
    ac_power_out ← read "vebus" inst "com.victronenergy.Vebus" "AcPowerOut"
    ac_power_in ← read "vebus" inst "com.victronenergy.Vebus" "AcPowerIn"
    dc_power ← read "vebus" inst "com.victronenergy.Vebus" "DcPower"
    temperature ← read "vebus" inst "com.victronenergy.Vebus" "Temperature"
    ac_power_out_float ← as_float ac_power_out
    ac_power_in_float ← as_float ac_power_in
    dc_power_float ← as_float dc_power
    temperature_float ← as_float temperature
    pure (
        ok (record {
          mode = show mode;
          state = show state;
          ac_power_out = ac_power_out_float;
          ac_power_in = ac_power_in_float;
          dc_power = dc_power_float;
          temperature = temperature_float;
        }))
