-- ===== src/Write/Published.antt =====
-- What src/mcp_venus_os/server.py publishes in a write, and what an acknowledgement means.
use mcp_venus_os.Prelude.{
  ℕ, ◌≡◌, ◌⊎◌, inl, inr, refl, sym, ap, ◌∙◌, String, ◌<>◌, Option, none, some, List, [], ◌∷◌,
}
use mcp_venus_os.Value.{Float, float}
use mcp_venus_os.Config.{portal_topic}
use mcp_venus_os.Hardware.{HardwareWriteContract}
use mcp_venus_os.Hardware.Validation.{Checked}
use mcp_venus_os.Hardware.Gate.{IsApproved, validate_hardware_write_iff}
use mcp_venus_os.Telemetry.{item_topic}
use mcp_venus_os.Write.{Moment}
use mcp_venus_os.Write.Verify.{
  Request, Publish, WriteResult, gate, wrapped, publish_to, after_gate, mqtt_write_and_verify,
}

-- A write that the hardware gate approves at a moment.
abbrev pub ApprovedAt : Moment → Request → HardwareWriteContract → Type 0
ApprovedAt w q c = gate w q ≡ (some c, none)

-- The gate of the write, as the description of an approved write.
pub ApprovedAt-IsApproved :
    (w : Moment) (q : Request) (c : HardwareWriteContract)
    → ApprovedAt w q c
    → IsApproved w.safety.hardware_write_contracts w.portal_id q.device_type q.inst q.path q.value
        q.semantic_mode w.read
        (float w.stale_after_seconds)
        c
unfolding gate
ApprovedAt-IsApproved w q c h =
    (validate_hardware_write_iff q.value q.semantic_mode q.path w.read (float w.stale_after_seconds)
        w.safety.hardware_write_contracts w.portal_id q.device_type q.inst c).0
      h

-- The approval of a write by a contract at a moment, as the hardware gate is described.
abbrev pub IsApprovedAt : Moment → Request → HardwareWriteContract → Type 0
IsApprovedAt w q c =
    IsApproved w.safety.hardware_write_contracts w.portal_id q.device_type q.inst q.path q.value
      q.semantic_mode w.read (float w.stale_after_seconds) c

-- A publication that a contract approves at a moment: the value, wrapped, to the contract's item.
pub record IsPublication (w : Moment) (q : Request) (p : Publish) : Type 0 where
  pub contract : HardwareWriteContract
  pub approved : IsApprovedAt w q contract
  pub to_item :
      p.topic
      ≡ item_topic
          ("W" <> "/" <> contract.portal_id)
          contract.device_type
          contract.instance_id
          contract.path
  pub carries : p.payload ≡ wrapped q.value

-- The prefix for a portal is that of a contract for it, or there is none.
portal_topic-portal :
    (portal : Option String) (s prefix : String)
    → portal ≡ some s
    → portal_topic "W" portal ≡ some prefix
    → prefix ≡ "W" <> "/" <> s
portal_topic-portal none s prefix e h = absurd (cc e)
portal_topic-portal (some String.[]) s prefix e h = absurd (cc h)
portal_topic-portal (some (String.◌∷◌ c r)) s prefix e h =
    let given : String.◌∷◌ c r ≡ s = cc e in
    let made : "W" <> "/" <> String.◌∷◌ c r ≡ prefix = cc h in
    sym made ∙ ap (λ (t : String). "W" <> "/" <> t) given

module _ (float_of_text : String → Option Float) (fuel : ℕ) (moments : ℕ → Moment)
    (q : Request) where
  abbrev Outcome : Type 0
  Outcome = Option WriteResult × List Publish

  abbrev IsSilentOrApproved : List Publish → Type 0
  IsSilentOrApproved published =
      (published ≡ []) ⊎ ((p : Publish) × (published ≡ p ∷ []) × IsPublication (moments 0) q p)

  publication :
      (c : HardwareWriteContract) (prefix : String)
      → IsApprovedAt (moments 0) q c
      → portal_topic "W" (moments 0).portal_id ≡ some prefix
      → IsPublication (moments 0) q (record {
        topic = item_topic prefix q.device_type q.inst q.path;
        payload = wrapped q.value;
      })
  publication c prefix a e =
      let (portal, device, inst, path) = a.targets in
      record {
        contract = c;
        approved = a;
        to_item = rw (portal_topic-portal _ c.portal_id prefix portal e, device, inst, path) refl;
        carries = refl;
      }

  publish_to-approved :
      (c : HardwareWriteContract) (o : Option String)
      → portal_topic "W" (moments 0).portal_id ≡ o
      → IsApprovedAt (moments 0) q c
      → IsSilentOrApproved (publish_to float_of_text fuel moments q c o).1
  publish_to-approved c none e a = inl refl
  publish_to-approved c (some prefix) e a = inr (_, refl, publication c prefix a e)

  after_gate-approved :
      (r : Checked)
      → gate (moments 0) q ≡ r
      → IsSilentOrApproved (after_gate float_of_text fuel moments q r).1
  after_gate-approved (none, problem) e = inl refl
  after_gate-approved (some c, some problem) e = inl refl
  after_gate-approved (some c, none) e =
      publish_to-approved c (portal_topic "W" (moments 0).portal_id) refl
        (ApprovedAt-IsApproved (moments 0) q c e)

  -- A write publishes nothing, or exactly once: the wrapped value to the item of a contract that
  -- approves the write at the moment of the gate.
  pub mqtt_write_and_verify-approved :
      ((mqtt_write_and_verify float_of_text fuel moments q).1 ≡ [])
      ⊎ ((p : Publish) × ((mqtt_write_and_verify float_of_text fuel moments q).1 ≡ p ∷ [])
          × IsPublication (moments 0) q p)
  unfolding mqtt_write_and_verify
  mqtt_write_and_verify-approved = after_gate-approved (gate (moments 0) q) refl
