-- ===== src/Dbus/Tests.antt =====
-- A bus that answers, for src/mcp_venus_os/dbus_client.py, and the theorem at that input.
use mcp_venus_os.Prelude.{
  ℕ, ◌≡◌, refl, String, Bool, true, false, Option, none, some, List, [], ◌∷◌, str_eq, starts_with,
  show_ℕ, show_ℤ, if◌then◌else◌,
}
use mcp_venus_os.Prelude.Int.{ℤ, pos}
use mcp_venus_os.Value.{Float, int, Payload, num, overflow_bound, one_units}
use mcp_venus_os.Value.Arithmetic.{bit_length, round_to}
use mcp_venus_os.Write.{round_double, number_to_float}
use mcp_venus_os.Config.{default_dbus, whole_float}
use mcp_venus_os.Dbus.{
  ok, err, call_error, Call, Answer, value_answer, names_answer, error_answer, Bus, ◌>>=◌, pure,
  connect, get_property, split_dot,
}
use mcp_venus_os.Dbus.Getters.{get_battery_data, get_pv_data, get_grid_data, get_inverter_data}
use mcp_venus_os.Dbus.Listing.{device_of, devices_of, list_devices}
use mcp_venus_os.Dbus.Calls.{Calls}
use mcp_venus_os.Dbus.ReadOnly.{gets, names_call, dbus-Calls}

abbrev reached : ℕ → Bool
reached i = true

abbrev name_of : List String → String
name_of (interface ∷ name ∷ []) = name
name_of _ = ""

-- Every property is 5, but for the temperature.
abbrev fives : Payload → List Call → Call → Answer
fives v calls c =
    if str_eq c.member "ListNames"
    then names_answer ("com.victronenergy.battery.1" ∷ ":1.7" ∷ "com.victronenergy.settings" ∷ [])
    else if str_eq (name_of c.body) "Temperature"
    then error_answer
    else value_answer v

abbrev five : Payload
five = num (int (pos 5))

abbrev one_digit : String → Option ℤ
one_digit s = if str_eq s "1" then some (pos 1) else none

abbrev no_float : String → Option Float
no_float s = none

abbrev shown : Payload → String
shown v = "5"

abbrev idle : Bus
idle = record { has_bus = false; connected = false; calls = [] }

whole_bus : Unit {0}
unfolding connect get_property ◌>>=◌ pure split_dot get_battery_data get_pv_data device_of
    devices_of list_devices starts_with show_ℕ show_ℤ number_to_float round_double bit_length
    round_to overflow_bound one_units
whole_bus = tt

battery_lem :
    (get_battery_data reached (fives five) default_dbus one_digit no_float shown (pos 0) idle).0
    ≡ err call_error
unfolding whole_bus
battery_lem = refl

pv_lem :
    (get_pv_data reached (fives five) default_dbus one_digit no_float shown (pos 0) idle).0
    ≡ ok (record {
      power = whole_float 5;
      voltage = whole_float 5;
      current = whole_float 5;
      yield_today = whole_float 5;
      yield_total = whole_float 5;
    })
unfolding whole_bus
pv_lem = refl

devices_lem :
    (list_devices default_dbus one_digit reached (fives five) idle).0
    ≡ ok (
        record { service = "com.victronenergy.battery.1"; device_type = "battery"; inst = pos 1 }
        ∷ [])
unfolding whole_bus
devices_lem = refl

dbus-Calls_example :
    Calls
      (gets reached
        (fives five)
        default_dbus
        one_digit
        no_float
        shown
        "battery"
        "Battery"
        (pos 0)
        ("Soc" ∷ "Voltage" ∷ "Current" ∷ "Power" ∷ "Temperature" ∷ "Status" ∷ "TimeToGo" ∷ []))
      (get_battery_data reached (fives five) default_dbus one_digit no_float shown (pos 0))
    × Calls
        (gets reached
          (fives five)
          default_dbus
          one_digit
          no_float
          shown
          "solarcharger"
          "Solarcharger"
          (pos 0)
          ("PvPower" ∷ "PvVoltage" ∷ "PvCurrent" ∷ "YieldToday" ∷ "YieldTotal" ∷ []))
        (get_pv_data reached (fives five) default_dbus one_digit no_float shown (pos 0))
    × Calls
        (gets reached (fives five) default_dbus one_digit no_float shown "vebus" "Vebus" (pos 0) (
          "AcPowerOut" ∷ "AcVoltageOut" ∷ "AcCurrentOut" ∷ "AcFrequencyOut" ∷ "AcActiveInState"
          ∷ []))
        (get_grid_data reached (fives five) default_dbus one_digit no_float shown (pos 0))
    × Calls
        (gets reached
          (fives five)
          default_dbus
          one_digit
          no_float
          shown
          "vebus"
          "Vebus"
          (pos 0)
          ("Mode" ∷ "State" ∷ "AcPowerOut" ∷ "AcPowerIn" ∷ "DcPower" ∷ "Temperature" ∷ []))
        (get_inverter_data reached (fives five) default_dbus one_digit no_float shown (pos 0))
    × Calls
        (names_call reached (fives five) ∷ [])
        (list_devices default_dbus one_digit reached (fives five))
dbus-Calls_example = dbus-Calls reached (fives five) default_dbus one_digit no_float shown (pos 0)
