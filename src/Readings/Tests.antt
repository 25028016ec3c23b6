-- ===== src/Readings/Tests.antt =====
-- A reading of an inverter that is on, decoded as src/mcp_venus_os/server.py does.
use mcp_venus_os.Prelude.{◌≡◌, refl, String, false, some, [], ◌∷◌, lookup, insert, str_eq}
use mcp_venus_os.Prelude.Int.{pos}
use mcp_venus_os.Value.{int, Payload, num, str, one_units}
use mcp_venus_os.Write.Tools.{mode_code}
use mcp_venus_os.Readings.{Reading, decode_vebus_enums}
use mcp_venus_os.Readings.Names.{decode_vebus_enums-names}

abbrev show : Payload → String
show value = "?"

abbrev inverter_on : Reading
inverter_on = ("mode", num (int (pos 3))) ∷ ("state", num (int (pos 9))) ∷ []

abbrev named_on : Reading
named_on =
    ("mode", num (int (pos 3)))
    ∷ ("state", num (int (pos 9)))
    ∷ ("mode_name", str "on")
    ∷ ("state_name", str "inverting")
    ∷ []

decodes : decode_vebus_enums show inverter_on ≡ some named_on
unfolding decode_vebus_enums lookup insert one_units
decodes = refl

decode_vebus_enums-names_example :
    (lookup "mode_name" named_on ≡ some (str "on"))
    × ((j : String)
        → str_eq "mode_name" j ≡ false
        → str_eq "state_name" j ≡ false
        → lookup j named_on ≡ lookup j inverter_on)
unfolding mode_code lookup
decode_vebus_enums-names_example =
    decode_vebus_enums-names show "on" (pos 3) inverter_on named_on refl refl decodes
