-- ===== src/Write/Tools.antt =====
-- The write tools of src/mcp_venus_os/server.py: the gate for safety and confirmation, then the write.
-- Whether `_mqtt_ready` returns a client is the argument `ready`; the mode codes are data.
use mcp_venus_os.Prelude.{
  ℕ, ◌+◌, String, Bool, not, ◌&&◌, Option, none, some, List, [], ◌∷◌, lookup, str_eq, if◌then◌else◌,
}
use mcp_venus_os.Prelude.Int.{ℤ, pos}
use mcp_venus_os.Value.{Float, int, float, num, str}
use mcp_venus_os.Config.{SafetyConfig}
use mcp_venus_os.Safety.{Reason, Params, Check, returned, raised, Raised}
use mcp_venus_os.Safety.Operation.{validate_write_operation}
use mcp_venus_os.Write.{Moment}
use mcp_venus_os.Write.Verify.{Request, Publish, WriteResult, mqtt_write_and_verify}

-- MODE_CODES
abbrev pub mode_codes : List (String × List (String × ℤ))
mode_codes =
    (
      "vebus",
      ("charger_only", pos 1) ∷ ("inverter_only", pos 2) ∷ ("on", pos 3) ∷ ("off", pos 4) ∷ [],
    )
    ∷ (
      "inverter",
      ("charger_only", pos 1)
          ∷ ("inverter_only", pos 2)
          ∷ ("on", pos 3)
          ∷ ("off", pos 4)
          ∷ ("eco", pos 5)
          ∷ [],
    )
    ∷ ("solarcharger", ("on", pos 1) ∷ ("off", pos 4) ∷ [])
    ∷ []

-- `_mode_code`
unfoldable pub mode_code : String → String → Option ℤ
unfolding lookup
mode_code device_type mode = elim (lookup device_type mode_codes) [
  | none ↦ none
  | some codes ↦ lookup mode codes
]

pub data ToolResult : Type 0 where
  confirmation_needed : Option (String × Params) → ToolResult
  denied : Option Reason → ToolResult
  gate_raised : Raised → ToolResult
  not_ready : ToolResult
  no_mode_code : String → ToolResult
  dbus_not_implemented : ToolResult
  -- No result if the fuel of the verification ran out.
  wrote : Option WriteResult → ToolResult

abbrev pub gate_error : Check → Option ToolResult
gate_error (raised e) = some (gate_raised e)
gate_error (returned r) =
    if not r.allowed && r.requires_confirmation
    then some (confirmation_needed r.confirmation_message)
    else if not r.allowed
    then some (denied r.reason)
    else none

module _ (searches : String → String → Bool) where
  -- `_confirm_gate`: an error to return, or none.
  unfoldable pub confirm_gate :
      SafetyConfig → String → Params → Bool → Option String → Option ToolResult
  confirm_gate safety operation params confirmed dbus_path =
      gate_error (validate_write_operation searches safety operation params confirmed dbus_path)

  module _ (float_of_text : String → Option Float) (fuel : ℕ) (moments : ℕ → Moment)
      (transport_backend : String) (ready : Bool) where
    abbrev pub wrote_with : Option WriteResult × List Publish → ToolResult × List Publish
    wrote_with (r, published) = (wrote r, published)

    -- The write of a tool, whose observations start after the gate's moment 0.
    abbrev pub write : Request → ToolResult × List Publish
    write q = wrote_with (mqtt_write_and_verify float_of_text fuel (λ i. moments (i + 1)) q)

    abbrev pub write_mode : String → ℤ → Option ℤ → ToolResult × List Publish
    write_mode mode inst none = (no_mode_code mode, [])
    write_mode mode inst (some code) = write (record {
      device_type = "vebus";
      inst = inst;
      path = "Mode";
      value = num (int code);
      semantic_mode = some mode;
    })

    -- The common frame of the tools: the gate's error, or the backend's write.
    abbrev pub guarded : Option ToolResult → ToolResult × List Publish → ToolResult × List Publish
    guarded (some e) r = (e, [])
    guarded none r =
        if str_eq transport_backend "dbus"
        then (dbus_not_implemented, [])
        else if ready
        then r
        else (not_ready, [])

    unfoldable pub set_inverter_mode : String → ℤ → Bool → ToolResult × List Publish
    set_inverter_mode mode inst confirmed =
        guarded
          (confirm_gate (moments 0).safety "set_inverter_mode"
            (("mode", str mode) ∷ ("instance", num (int inst)) ∷ []) confirmed (some "Mode"))
          (write_mode mode inst (mode_code "vebus" mode))

    unfoldable pub set_charge_current_limit : Float → ℤ → Bool → ToolResult × List Publish
    set_charge_current_limit current inst confirmed =
        guarded
          (confirm_gate (moments 0).safety "set_charge_current_limit"
            (("charge_current", num (float current)) ∷ ("instance", num (int inst)) ∷ []) confirmed
            (some "Dc/0/MaxChargeCurrent"))
          (write (record {
            device_type = "vebus";
            inst = inst;
            path = "Dc/0/MaxChargeCurrent";
            value = num (float current);
            semantic_mode = none;
          }))

    unfoldable pub set_soc_limit : ℤ → ℤ → Bool → ToolResult × List Publish
    set_soc_limit soc_limit inst confirmed =
        guarded
          (confirm_gate (moments 0).safety "set_soc_limit"
            (("soc_limit", num (int soc_limit)) ∷ ("instance", num (int inst)) ∷ []) confirmed
            (some "SocLimit"))
          (write (record {
            device_type = "battery";
            inst = inst;
            path = "SocLimit";
            value = num (int soc_limit);
            semantic_mode = none;
          }))
