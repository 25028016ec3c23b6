-- ===== src/Readings.antt =====
-- `_decode_vebus_enums` of src/mcp_venus_os/server.py. `show` is the text that an f-string makes of a
-- value; `none` is the TypeError for a value that is no key of a dictionary.
pub mod Names
pub mod Tests
use mcp_venus_os.Prelude.{
  ℕ, String, ◌<>◌, Bool, true, false, Option, none, some, List, [], ◌∷◌, lookup, insert,
  if◌then◌else◌,
}
use mcp_venus_os.Prelude.Int.{ℤ, pos}
use mcp_venus_os.Value.{Number, int, Payload, null, bool, num, str, arr, obj, num_eq}
use mcp_venus_os.Write.Tools.{mode_codes}

-- VEBUS_STATES
abbrev pub vebus_states : List (String × ℤ)
vebus_states =
    ("off", pos 0)
    ∷ ("low_power", pos 1)
    ∷ ("fault", pos 2)
    ∷ ("bulk", pos 3)
    ∷ ("absorption", pos 4)
    ∷ ("float", pos 5)
    ∷ ("storage", pos 6)
    ∷ ("equalize", pos 7)
    ∷ ("passthru", pos 8)
    ∷ ("inverting", pos 9)
    ∷ ("power_assist", pos 10)
    ∷ ("power_supply", pos 11)
    ∷ ("external_control", pos 252)
    ∷ []

-- `MODE_CODES["vebus"]`
abbrev pub vebus_modes : List (String × ℤ)
vebus_modes =
    ("charger_only", pos 1) ∷ ("inverter_only", pos 2) ∷ ("on", pos 3) ∷ ("off", pos 4) ∷ []

pub data Found : Type 0 where
  name_of : String → Found
  unknown : Found
  type_error : Found

-- The name of a number among names with their codes.
abbrev pub find_code : Number → List (String × ℤ) → Found
find_code n [] = unknown
find_code n ((name, code) ∷ codes) =
    let rest = find_code n codes in if num_eq (int code) n then name_of name else rest

-- `codes.get(value)`: True and False are equal to 1 and 0.
abbrev pub find_name : Payload → List (String × ℤ) → Found
find_name (num n) codes = find_code n codes
find_name (bool b) codes = find_code (int (if b then pos 1 else pos 0)) codes
find_name (arr items) codes = type_error
find_name (obj entries) codes = type_error
find_name (str s) codes = unknown
find_name null codes = unknown

abbrev pub Reading : Type 0
Reading = List (String × Payload)

module _ (show : Payload → String) where
  abbrev pub put_name : String → Payload → Found → Reading → Option Reading
  put_name key value (name_of name) reading = some (insert key (str name) reading)
  put_name key value unknown reading = some (insert key (str ("code " <> show value)) reading)
  put_name key value type_error reading = none

  -- One of the two parts: a field that is missing or None gets no name.
  abbrev pub name_field : String → List (String × ℤ) → Option Payload → Reading → Option Reading
  name_field key codes none reading = some reading
  name_field key codes (some null) reading = some reading
  name_field key codes (some value) reading = put_name key value (find_name value codes) reading

  unfoldable pub decode_vebus_enums : Reading → Option Reading
  decode_vebus_enums reading =
      elim (name_field "mode_name" vebus_modes (lookup "mode" reading) reading) [
        | none ↦ none
        | some named ↦ name_field "state_name" vebus_states (lookup "state" named) named
      ]
