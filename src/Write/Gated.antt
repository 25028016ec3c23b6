-- ===== src/Write/Gated.antt =====
-- No write tool of src/mcp_venus_os/server.py publishes past the gates.
use mcp_venus_os.Prelude.{
  ℕ, ◌+◌, ◌≡◌, ◌⊎◌, inl, inr, refl, ◌∙◌, String, Bool, true, false, Option, none, some, List, [],
  ◌∷◌, str_eq, if◌then◌else◌, arith,
}
use mcp_venus_os.Prelude.Int.{ℤ}
use mcp_venus_os.Value.{Float, int, float, num, str}
use mcp_venus_os.Config.{load_safety}
use mcp_venus_os.Safety.{Params, Check, returned, raised}
use mcp_venus_os.Safety.Operation.{validate_write_operation}
use mcp_venus_os.Safety.Gate.{allows, IsPermitted}
use mcp_venus_os.Safety.Permitted.{validate_write_operation_iff}
use mcp_venus_os.Write.{Moment}
use mcp_venus_os.Write.Verify.{Request, Publish}
use mcp_venus_os.Write.Published.{IsPublication, mqtt_write_and_verify-approved}
use mcp_venus_os.Write.Tools.{
  ToolResult, dbus_not_implemented, not_ready, no_mode_code, gate_error, confirm_gate, write,
  write_mode, guarded, mode_code, set_inverter_mode, set_charge_current_limit, set_soc_limit,
}

abbrev pub_of : ToolResult × List Publish → List Publish
pub_of r = r.1

pub gate_error-none : (c : Check) → gate_error c ≡ none → allows c ≡ true
gate_error-none (raised e) h = absurd (cc h)
gate_error-none (returned r) h = ground arith

module _ (searches : String → String → Bool) (float_of_text : String → Option Float) (fuel : ℕ)
    (moments : ℕ → Moment) (transport_backend : String) (ready : Bool) where
  -- The tool published nothing, or one approved publication that the safety gate permits.
  abbrev pub IsGated : String → Params → Bool → String → Request → List Publish → Type 0
  IsGated operation params confirmed path q published =
      (published ≡ [])
      ⊎ ((p : Publish) × (published ≡ p ∷ [])
          × IsPermitted searches (moments 0).safety operation params confirmed (some path)
          × IsPublication (moments 1) q p)

  abbrev Loaded : Type 0
  Loaded = load_safety (moments 0).safety ≡ some (moments 0).safety

  -- What the frame of a tool publishes is published by its write, and the gate gave no error.
  guarded-published :
      (e : Option ToolResult) (r : ToolResult × List Publish)
      → ((guarded searches float_of_text fuel moments transport_backend ready e r).1 ≡ [])
        ⊎ ((e ≡ none)
            × ((guarded searches float_of_text fuel moments transport_backend ready e r).1 ≡ r.1))
  guarded-published (some e) r = inl refl
  guarded-published none r = elim (by_backend (str_eq transport_backend "dbus") ready) [
    | inl silent ↦ inl silent
    | inr same ↦ inr (refl, same)
  ]
    where
      by_backend :
          (a b : Bool)
          → (pub_of (if a then (dbus_not_implemented, []) else if b then r else (not_ready, []))
              ≡ [])
            ⊎ (pub_of (if a then (dbus_not_implemented, []) else if b then r else (not_ready, []))
                ≡ r.1)
      by_backend true b = inl refl
      by_backend false true = inr refl
      by_backend false false = inl refl

  write-IsGated :
      (operation : String) (params : Params) (confirmed : Bool) (path : String) (q : Request)
      (r : ToolResult × List Publish)
      → Loaded
      → ((r.1 ≡ []) ⊎ ((p : Publish) × (r.1 ≡ p ∷ []) × IsPublication (moments 1) q p))
      → IsGated operation params confirmed path q
          (guarded searches float_of_text fuel moments transport_backend ready
            (confirm_gate searches (moments 0).safety operation params confirmed (some path))
            r).1
  unfolding confirm_gate
  write-IsGated operation params confirmed path q r loaded published =
      let check =
        validate_write_operation searches (moments 0).safety operation params confirmed
          (some path) in
      elim (guarded-published (gate_error check) r) [
        | inl silent ↦ inl silent
        | inr (passed, same) ↦ elim published [
          | inl silent ↦ inl (same ∙ silent)
          | inr (p, one, publication) ↦ inr (
            p,
            same ∙ one,
            (validate_write_operation_iff searches (moments 0).safety operation params (some path)
                  confirmed loaded).0
                (gate_error-none check passed),
            publication,
          )
        ]
      ]

  write-approved :
      (q : Request)
      → ((write searches float_of_text fuel moments transport_backend ready q).1 ≡ [])
        ⊎ ((p : Publish) × ((write searches float_of_text fuel moments transport_backend ready q).1
              ≡ p ∷ [])
            × IsPublication (moments 1) q p)
  write-approved q = mqtt_write_and_verify-approved float_of_text fuel (λ i. moments (i + 1)) q

  abbrev pub mode_params : String → ℤ → Params
  mode_params mode inst = ("mode", str mode) ∷ ("instance", num (int inst)) ∷ []

  abbrev pub mode_request : ℤ → String → ℤ → Request
  mode_request code mode inst = record {
    device_type = "vebus";
    inst = inst;
    path = "Mode";
    value = num (int code);
    semantic_mode = some mode;
  }

  -- The request of a mode that has a code; another mode is not written.
  abbrev pub IsGatedMode : String → ℤ → Bool → List Publish → Type 0
  IsGatedMode mode inst confirmed published =
      (published ≡ [])
      ⊎ ((code : ℤ) × (mode_code "vebus" mode ≡ some code)
          × IsGated "set_inverter_mode" (mode_params mode inst) confirmed "Mode"
              (mode_request code mode inst) published)

  set_inverter_mode-published :
      (mode : String) (inst : ℤ) (confirmed : Bool)
      → Loaded
      → IsGatedMode mode inst confirmed
          (set_inverter_mode searches float_of_text fuel moments transport_backend ready mode inst
            confirmed).1
  unfolding set_inverter_mode
  set_inverter_mode-published mode inst confirmed loaded = by_code (mode_code "vebus" mode) refl
    where
      by_code :
          (o : Option ℤ)
          → mode_code "vebus" mode ≡ o
          → IsGatedMode mode inst confirmed
              (guarded searches float_of_text fuel moments transport_backend ready
                (confirm_gate searches
                  (moments 0).safety
                  "set_inverter_mode"
                  (mode_params mode inst)
                  confirmed
                  (some "Mode"))
                (write_mode searches float_of_text fuel moments transport_backend ready mode inst
                  o)).1
      by_code none e =
          elim (guarded-published
            (confirm_gate searches (moments 0).safety "set_inverter_mode" (mode_params mode inst)
              confirmed (some "Mode"))
            (no_mode_code mode, [])) [ inl silent ↦ inl silent | inr (passed, same) ↦ inl same ]
      by_code (some code) e = inr (
        code,
        e,
        write-IsGated "set_inverter_mode" (mode_params mode inst) confirmed "Mode"
            (mode_request code mode inst) _ loaded (write-approved (mode_request code mode inst)),
      )

  abbrev pub current_request : Float → ℤ → Request
  current_request current inst = record {
    device_type = "vebus";
    inst = inst;
    path = "Dc/0/MaxChargeCurrent";
    value = num (float current);
    semantic_mode = none;
  }

  abbrev pub soc_request : ℤ → ℤ → Request
  soc_request soc_limit inst = record {
    device_type = "battery";
    inst = inst;
    path = "SocLimit";
    value = num (int soc_limit);
    semantic_mode = none;
  }

  -- Under a configuration that validates, each write tool publishes nothing, or exactly once: then
  -- the safety gate permits its operation at moment 0, and the publication carries its value to the
  -- item of a contract that approves it at moment 1. A mode is written with its own code only.
  pub write_tools-IsGated :
      (mode : String) (current : Float) (soc_limit inst : ℤ) (confirmed : Bool)
      → load_safety (moments 0).safety ≡ some (moments 0).safety
      → IsGatedMode mode inst confirmed
          (set_inverter_mode searches float_of_text fuel moments transport_backend ready mode inst
            confirmed).1
        × IsGated "set_charge_current_limit"
            (("charge_current", num (float current)) ∷ ("instance", num (int inst)) ∷ [])
            confirmed
            "Dc/0/MaxChargeCurrent"
            (current_request current inst)
            (set_charge_current_limit searches float_of_text fuel moments transport_backend ready
              current inst confirmed).1
        × IsGated "set_soc_limit"
            (("soc_limit", num (int soc_limit)) ∷ ("instance", num (int inst)) ∷ [])
            confirmed
            "SocLimit"
            (soc_request soc_limit inst)
            (set_soc_limit searches float_of_text fuel moments transport_backend ready soc_limit
              inst confirmed).1
  unfolding set_charge_current_limit set_soc_limit
  write_tools-IsGated mode current soc_limit inst confirmed loaded = (
    set_inverter_mode-published mode inst confirmed loaded,
    write-IsGated "set_charge_current_limit" _ confirmed "Dc/0/MaxChargeCurrent"
        (current_request current inst) _ loaded (write-approved (current_request current inst)),
    write-IsGated "set_soc_limit" _ confirmed "SocLimit" (soc_request soc_limit inst) _ loaded
        (write-approved (soc_request soc_limit inst)),
  )
