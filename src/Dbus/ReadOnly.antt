-- ===== src/Dbus/ReadOnly.antt =====
-- What the D-Bus client of src/mcp_venus_os/dbus_client.py asks of the bus: it only reads.
use mcp_venus_os.Prelude.{ℕ, String, ◌<>◌, map, show_ℤ, Bool, Option, List, [], ◌∷◌}
use mcp_venus_os.Prelude.Int.{ℤ}
use mcp_venus_os.Value.{Float, Payload}
use mcp_venus_os.Config.{DbusConfig}
use mcp_venus_os.Dbus.{Call, Answer, Op, ◌>>=◌, get_of, service_of}
use mcp_venus_os.Dbus.Getters.{
  capitalized, read, get_battery_data, get_pv_data, get_grid_data, get_inverter_data,
}
use mcp_venus_os.Dbus.Listing.{list_names, list_devices}
use mcp_venus_os.Dbus.Calls.{
  Calls, bind-Calls, pure-Calls, then-Calls, connect-Calls, call-Calls, property-Calls,
}

module _ (connects : ℕ → Bool) (answer : List Call → Call → Answer) where
  -- The call that lists the names of the bus.
  abbrev pub names_call : Call
  names_call = record {
    destination = "org.freedesktop.DBus";
    path = "/org/freedesktop/DBus";
    interface = "org.freedesktop.DBus";
    member = "ListNames";
    body = [];
  }

  list-Calls :
      (config : DbusConfig) (parse_int : String → Option ℤ)
      → Calls (names_call ∷ []) (list_devices config parse_int connects answer)
  unfolding list_devices
  list-Calls config parse_int =
      bind-Calls [] (names_call ∷ []) _ _ (connect-Calls connects answer) (λ u.
        bind-Calls (names_call ∷ []) [] _ _
          (call-Calls connects answer (list_names config parse_int))
          (λ a. then-Calls [] _ _ (λ ns. pure-Calls _)))

  module _ (config : DbusConfig) (parse_int : String → Option ℤ)
      (parse_float : String → Option Float) (show : Payload → String) where
    -- The calls that read properties of one interface of a device, in their order.
    abbrev pub gets : String → String → ℤ → List String → List Call
    gets device_type object inst names =
        map
          (λ name. record {
            destination = config.service_name <> "." <> device_type <> "." <> show_ℤ inst;
            path = "/" <> object;
            interface = "org.freedesktop.DBus.Properties";
            member = "Get";
            body = ("com.victronenergy." <> object) ∷ name ∷ [];
          })
          names

    get-Calls :
        {B : Type 0} (device_type interface name : String) (inst : ℤ) (ys : List Call)
        (f : Payload → Op B)
        → ((v : Payload) → Calls ys (f v))
        → Calls
            (get_of connects answer
                (service_of connects answer config inst device_type)
                ("/" <> capitalized device_type)
                interface
                name
              ∷ ys)
            (read connects answer config parse_int parse_float show device_type inst interface name
              >>= f)
    get-Calls device_type interface name inst ys f k =
        bind-Calls _ ys _ f (property-Calls connects answer _ _ interface name) k

    battery-Calls :
        (inst : ℤ)
        → Calls
            (gets "battery" "Battery" inst (
              "Soc" ∷ "Voltage" ∷ "Current" ∷ "Power" ∷ "Temperature" ∷ "Status" ∷ "TimeToGo" ∷ []))
            (get_battery_data connects answer config parse_int parse_float show inst)
    unfolding get_battery_data
    battery-Calls inst = bind-Calls [] _ _ _ (connect-Calls connects answer) (λ u.
        get-Calls _ _ _ inst _ _ (λ v0. get-Calls _ _ _ inst _ _ (λ v1.
          get-Calls _ _ _ inst _ _ (λ v2. get-Calls _ _ _ inst _ _ (λ v3.
            get-Calls _ _ _ inst _ _ (λ v4. get-Calls _ _ _ inst _ _ (λ v5.
              get-Calls _ _ _ inst _ _ (λ v6. then-Calls [] _ _ (λ w0. then-Calls [] _ _ (λ w1.
                then-Calls [] _ _ (λ w2. then-Calls [] _ _ (λ w3.
                  then-Calls [] _ _ (λ w4. then-Calls [] _ _ (λ w5. pure-Calls _))))))))))))))

    pv-Calls :
        (inst : ℤ)
        → Calls
            (gets "solarcharger" "Solarcharger" inst
              ("PvPower" ∷ "PvVoltage" ∷ "PvCurrent" ∷ "YieldToday" ∷ "YieldTotal" ∷ []))
            (get_pv_data connects answer config parse_int parse_float show inst)
    unfolding get_pv_data
    pv-Calls inst = bind-Calls [] _ _ _ (connect-Calls connects answer) (λ u.
        get-Calls _ _ _ inst _ _ (λ v0. get-Calls _ _ _ inst _ _ (λ v1.
          get-Calls _ _ _ inst _ _ (λ v2. get-Calls _ _ _ inst _ _ (λ v3.
            get-Calls _ _ _ inst _ _ (λ v4. then-Calls [] _ _ (λ w0. then-Calls [] _ _ (λ w1.
              then-Calls [] _ _
                (λ w2. then-Calls [] _ _ (λ w3. then-Calls [] _ _ (λ w4. pure-Calls _)))))))))))

    grid-Calls :
        (inst : ℤ)
        → Calls
            (gets "vebus" "Vebus" inst (
              "AcPowerOut" ∷ "AcVoltageOut" ∷ "AcCurrentOut" ∷ "AcFrequencyOut" ∷ "AcActiveInState"
              ∷ []))
            (get_grid_data connects answer config parse_int parse_float show inst)
    unfolding get_grid_data
    grid-Calls inst = bind-Calls [] _ _ _ (connect-Calls connects answer) (λ u.
        get-Calls _ _ _ inst _ _ (λ v0. get-Calls _ _ _ inst _ _ (λ v1.
          get-Calls _ _ _ inst _ _ (λ v2. get-Calls _ _ _ inst _ _ (λ v3.
            get-Calls _ _ _ inst _ _ (λ v4. then-Calls [] _ _ (λ w0.
              then-Calls [] _ _
                (λ w1. then-Calls [] _ _ (λ w2. then-Calls [] _ _ (λ w3. pure-Calls _))))))))))

    inverter-Calls :
        (inst : ℤ)
        → Calls
            (gets "vebus" "Vebus" inst
              ("Mode" ∷ "State" ∷ "AcPowerOut" ∷ "AcPowerIn" ∷ "DcPower" ∷ "Temperature" ∷ []))
            (get_inverter_data connects answer config parse_int parse_float show inst)
    unfolding get_inverter_data
    inverter-Calls inst = bind-Calls [] _ _ _ (connect-Calls connects answer) (λ u.
        get-Calls _ _ _ inst _ _ (λ v0. get-Calls _ _ _ inst _ _ (λ v1.
          get-Calls _ _ _ inst _ _ (λ v2. get-Calls _ _ _ inst _ _ (λ v3.
            get-Calls _ _ _ inst _ _ (λ v4. get-Calls _ _ _ inst _ _ (λ v5. then-Calls [] _ _ (λ w0.
              then-Calls [] _ _
                (λ w1. then-Calls [] _ _ (λ w2. then-Calls [] _ _ (λ w3. pure-Calls _)))))))))))

    -- Every getter reads the listed properties of the device's object over its service, each once and in
    -- this order, and the device list asks once for the names of the bus: if it returns, exactly these
    -- calls were made, and if it fails, only the first ones of them.
    pub dbus-Calls :
        (inst : ℤ)
        → Calls
            (gets "battery" "Battery" inst (
              "Soc" ∷ "Voltage" ∷ "Current" ∷ "Power" ∷ "Temperature" ∷ "Status" ∷ "TimeToGo" ∷ []))
            (get_battery_data connects answer config parse_int parse_float show inst)
          × Calls
              (gets "solarcharger" "Solarcharger" inst
                ("PvPower" ∷ "PvVoltage" ∷ "PvCurrent" ∷ "YieldToday" ∷ "YieldTotal" ∷ []))
              (get_pv_data connects answer config parse_int parse_float show inst)
          × Calls
              (gets "vebus" "Vebus" inst (
                "AcPowerOut" ∷ "AcVoltageOut" ∷ "AcCurrentOut" ∷ "AcFrequencyOut"
                ∷ "AcActiveInState" ∷ []))
              (get_grid_data connects answer config parse_int parse_float show inst)
          × Calls
              (gets "vebus" "Vebus" inst
                ("Mode" ∷ "State" ∷ "AcPowerOut" ∷ "AcPowerIn" ∷ "DcPower" ∷ "Temperature" ∷ []))
              (get_inverter_data connects answer config parse_int parse_float show inst)
          × Calls (names_call ∷ []) (list_devices config parse_int connects answer)
    dbus-Calls inst = (
      battery-Calls inst,
      pv-Calls inst,
      grid-Calls inst,
      inverter-Calls inst,
      list-Calls config parse_int,
    )
