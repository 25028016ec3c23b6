-- ===== src/Write/Verify.antt =====
-- `_mqtt_write_and_verify` of src/mcp_venus_os/server.py. The moments that it observes follow each
-- other; between two of them anything may change. The elapsed time is not rounded for display.
use mcp_venus_os.Prelude.{
  ℕ, zero, suc, ◌+◌, ◌*◌, String, Bool, false, ◌&&◌, Option, none, some, List, [], ◌∷◌, ltb,
  if◌then◌else◌,
}
use mcp_venus_os.Prelude.Int.{ℤ}
use mcp_venus_os.Value.{Float, Number, float, Payload, obj, entry, end, one_units}
use mcp_venus_os.Config.{portal_topic}
use mcp_venus_os.Hardware.{HardwareWriteContract, is_none}
use mcp_venus_os.Hardware.Validation.{Problem, Checked, validate_hardware_write}
use mcp_venus_os.Telemetry.{item_topic}
use mcp_venus_os.Write.{Moment, values_match, contract_eq}

-- WRITE_VERIFY_TIMEOUT_S
unfoldable pub write_verify_timeout : ℕ
write_verify_timeout = 5 * one_units

pub record Verified : Type 0 where
  pub value : Payload
  pub topic : String
  -- The readings of the clock that the elapsed time is taken from.
  pub deadline : ℕ
  pub verified_at : ℕ
  pub contract_id : String
  pub evidence_sha256 : String

pub data WriteResult : Type 0 where
  refused : Option Problem → WriteResult
  missing_portal : WriteResult
  publish_failed : WriteResult
  qualification_changed : WriteResult
  verified : Verified → WriteResult
  not_reflected : String → Payload → WriteResult

-- A call of `client.publish`.
pub record Publish : Type 0 where
  pub topic : String
  pub payload : Payload

-- What is written, and where.
pub record Request : Type 0 where
  pub device_type : String
  pub inst : ℤ
  pub path : String
  pub value : Payload
  pub semantic_mode : Option String

-- The hardware gate at a moment.
unfoldable pub gate : Moment → Request → Checked
gate w q =
    validate_hardware_write w.safety.hardware_write_contracts w.portal_id q.device_type q.inst
      q.path q.value q.semantic_mode w.read (float w.stale_after_seconds)

-- `problem is None and current == contract`
abbrev pub same_approval : HardwareWriteContract → Checked → Bool
same_approval contract (none, problem) = false
same_approval contract (some current, problem) = is_none problem && contract_eq current contract

-- `still_qualified`
unfoldable pub still_qualified : Moment → Request → HardwareWriteContract → Bool
still_qualified w q contract = w.safety.enable_writes && same_approval contract (gate w q)

-- `{"value": value}`
abbrev pub wrapped : Payload → Payload
wrapped value = obj (entry "value" value end)

module _ (float_of_text : String → Option Float) (moments : ℕ → Moment) (q : Request)
    (contract : HardwareWriteContract) (topic : String) (written_at deadline : ℕ) where
  abbrev pub reflects : Option (Payload × Number) → Bool
  reflects none = false
  reflects (some (received, age)) = values_match float_of_text received q.value

  abbrev pub success : ℕ → WriteResult
  success i = verified (record {
    value = q.value;
    topic = topic;
    deadline = deadline;
    verified_at = (moments i).now;
    contract_id = contract.contract_id;
    evidence_sha256 = contract.evidence_sha256;
  })

  -- The acknowledgement of a read-back: the qualification is checked at its own moment.
  unfoldable pub acknowledge : ℕ → WriteResult
  acknowledge i =
      if still_qualified (moments i) q contract then success (i + 1) else qualification_changed

  -- The loop from its i-th moment on, with fuel: a round looks at the clock, then at the cache.
  unfoldable pub verify_loop : ℕ → ℕ → Option WriteResult
  verify_loop zero i = none
  verify_loop (suc f) i =
      let later = verify_loop f (i + 2) in
      if ltb (moments i).now deadline
      then (if reflects ((moments (i + 1)).read_since q.device_type q.inst q.path written_at)
          then some (acknowledge (i + 2))
          else later)
      else some (not_reflected topic q.value)

module _ (float_of_text : String → Option Float) (fuel : ℕ) (moments : ℕ → Moment)
    (q : Request) where
  -- The part behind the publication: moment 1 is its time, the deadline is set at moment 2.
  unfoldable pub after_publish : HardwareWriteContract → String → Option WriteResult
  after_publish contract topic =
      if (moments 1).publish_fails
      then some publish_failed
      else verify_loop float_of_text moments q contract topic (moments 1).now
          ((moments 2).now + write_verify_timeout) fuel 3

  abbrev pub publish_to : HardwareWriteContract → Option String → Option WriteResult × List Publish
  publish_to contract none = (some missing_portal, [])
  publish_to contract (some prefix) =
      let topic = item_topic prefix q.device_type q.inst q.path in
      (after_publish contract topic, record { topic = topic; payload = wrapped q.value } ∷ [])

  abbrev pub after_gate : Checked → Option WriteResult × List Publish
  after_gate (none, problem) = (some (refused problem), [])
  after_gate (some contract, some problem) = (some (refused (some problem)), [])
  after_gate (some contract, none) = publish_to contract (portal_topic "W" (moments 0).portal_id)

  -- `_mqtt_write_and_verify`: its result, if the fuel was enough, and its publications.
  unfoldable pub mqtt_write_and_verify : Option WriteResult × List Publish
  mqtt_write_and_verify = after_gate (gate (moments 0) q)
