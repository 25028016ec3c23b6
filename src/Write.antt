-- ===== src/Write.antt =====
-- The write path of src/mcp_venus_os/server.py. A write runs while other threads change the cache and
-- the settings, so what it observes is a sequence of moments: the clock, the settings and what a read
-- of the client returns then. `float_of_text` is `float` of a text.
pub mod Verify
pub mod Tools
pub mod Published
pub mod Acknowledged
pub mod Terminates
pub mod Client
pub mod Matching
pub mod Gated
pub mod Tests
use mcp_venus_os.Prelude.{
  ℕ, zero, suc, ◌+◌, ◌-◌, ◌*◌, ◌/◌, ◌%◌, ◌^◌, String, ◌<>◌, Bool, true, false, not, ◌&&◌, ◌||◌,
  Option, none, some, List, [], ◌∷◌, lookup, ltb, leb, ◌==◌, str_eq, length, if◌then◌else◌,
}
use mcp_venus_os.Prelude.Int.{ℤ, pos, negsuc, abs, scale, eqb_ℤ}
use mcp_venus_os.Value.{
  bool, Float, finite, Number, int, float, Payload, num, str, obj, null, Entries, end, entry,
  one_units, overflow_bound, num_eq, is_finite, float_eq,
}
use mcp_venus_os.Value.Arithmetic.{bit_length, round_to}
use mcp_venus_os.Config.{SafetyConfig}
use mcp_venus_os.Hardware.{
  Expected, text, whole, ValueUnit, unit_eq, IdentityProbe, role_eq, HardwareWriteContract,
}
use mcp_venus_os.Hardware.Validation.{Reader, Problem, Checked, validate_hardware_write}

-- What an observation of the settings, the clock and the client finds.
pub record Moment : Type 0 where
  pub safety : SafetyConfig
  pub portal_id : Option String
  pub stale_after_seconds : Float
  pub now : ℕ
  -- `client.read_path` and `client.read_path_since`
  pub read : Reader
  pub read_since : String → ℤ → String → ℕ → Option (Payload × Number)
  -- `client.publish` raises MQTTError.
  pub publish_fails : Bool

-- The double next to a natural number below 2^1024.
unfoldable pub round_double : ℕ → ℕ
round_double n = if ltb n (2 ^ 53) then n else round_to (2 ^ (bit_length 1024 n - 53)) n

abbrev pub rounded : ℤ → ℤ
rounded (pos n) = pos (round_double n)
rounded (negsuc n) = negsuc (round_double (suc n) - 1)

-- `float(n)` of an int or a float; `none` is OverflowError.
unfoldable pub number_to_float : Number → Option Float
number_to_float (int n) =
    if ltb (abs n) overflow_bound then some (finite (scale (rounded n) one_units)) else none
number_to_float (float x) = some x

-- `received.get("value")` of a dictionary, a missing key being None.
abbrev pub get_value : Entries → Payload
get_value end = null
get_value (entry key v rest) = let more = get_value rest in if str_eq key "value" then v else more

abbrev pub echoed : Payload → Payload
echoed (obj entries) = get_value entries
echoed p = p

-- `isinstance(value, bool)`
abbrev pub is_bool : Payload → Bool
is_bool (bool b) = true
is_bool _ = false

module _ (float_of_text : String → Option Float) where
  -- `float(value)`; `none` is TypeError, ValueError or OverflowError.
  abbrev pub to_float : Payload → Option Float
  to_float (num n) = number_to_float n
  to_float (bool b) = number_to_float (int (if b then pos 1 else pos 0))
  to_float (str s) = float_of_text s
  to_float _ = none

  abbrev pub same_floats : Option Float → Option Float → Bool
  same_floats (some a) (some b) = is_finite a && is_finite b && float_eq a b
  same_floats _ _ = false

  -- `_values_match`
  unfoldable pub values_match : Payload → Payload → Bool
  values_match received expected =
      if is_bool (echoed received) || is_bool expected
      then false
      else same_floats (to_float (echoed received)) (to_float expected)

abbrev pub expected_eq : Expected → Expected → Bool
expected_eq (text s) (text t) = str_eq s t
expected_eq (whole n) (whole m) = eqb_ℤ n m
expected_eq _ _ = false

abbrev pub probe_eq : IdentityProbe → IdentityProbe → Bool
probe_eq p q =
    role_eq p.role q.role
    && str_eq p.device_type q.device_type
    && eqb_ℤ p.instance_id q.instance_id
    && str_eq p.path q.path
    && expected_eq p.expected q.expected

abbrev pub probes_eq : List IdentityProbe → List IdentityProbe → Bool
probes_eq [] [] = true
probes_eq (p ∷ ps) (q ∷ qs) = probe_eq p q && probes_eq ps qs
probes_eq _ _ = false

abbrev pub code_is : Option ℤ → ℤ → Bool
code_is none n = false
code_is (some m) n = eqb_ℤ m n

abbrev pub codes_in : List (String × ℤ) → List (String × ℤ) → Bool
codes_in [] d = true
codes_in ((k, n) ∷ c) d = code_is (lookup k d) n && codes_in c d

-- `==` of two dictionaries, whose order does not matter.
abbrev pub codes_eq : List (String × ℤ) → List (String × ℤ) → Bool
codes_eq c d = length c == length d && codes_in c d

abbrev pub bound_eq : Option Number → Option Number → Bool
bound_eq none none = true
bound_eq (some a) (some b) = num_eq a b
bound_eq _ _ = false

-- `==` of two contracts: every field.
unfoldable pub contract_eq : HardwareWriteContract → HardwareWriteContract → Bool
contract_eq c d =
    str_eq c.contract_id d.contract_id
    && str_eq c.portal_id d.portal_id
    && str_eq c.device_type d.device_type
    && eqb_ℤ c.instance_id d.instance_id
    && str_eq c.path d.path
    && probes_eq c.identity d.identity
    && str_eq c.reviewed_by d.reviewed_by
    && str_eq c.evidence_sha256 d.evidence_sha256
    && str_eq c.semantics d.semantics
    && codes_eq c.mode_codes d.mode_codes
    && unit_eq c.unit d.unit
    && bound_eq c.minimum d.minimum
    && bound_eq c.maximum d.maximum
