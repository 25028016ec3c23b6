-- ===== src/Write/Acknowledged.antt =====
-- What a verified write of src/mcp_venus_os/server.py means.
use mcp_venus_os.Prelude.{
  ℕ, zero, suc, ◌+◌, ◌≡◌, inl, inr, refl, String, Bool, true, false, Option, none, some, ltb,
  if◌then◌else◌, arith, &&_iff, Bool-cases,
}
use mcp_venus_os.Value.{Float, Number, Payload}
use mcp_venus_os.Config.{portal_topic}
use mcp_venus_os.Hardware.{HardwareWriteContract}
use mcp_venus_os.Hardware.Validation.{Checked}
use mcp_venus_os.Write.{Moment, values_match, contract_eq}
use mcp_venus_os.Write.Verify.{
  Request, WriteResult, Verified, publish_failed, verified, not_reflected, gate, same_approval,
  still_qualified, reflects, acknowledge, verify_loop, after_publish, publish_to, after_gate,
  mqtt_write_and_verify, write_verify_timeout,
}
use mcp_venus_os.Write.Published.{IsApprovedAt, ApprovedAt-IsApproved}

module _ (float_of_text : String → Option Float) (moments : ℕ → Moment) (q : Request) where
  -- A read-back at a moment: a value that was received since the write, and matches it.
  pub record IsReadBack (i : ℕ) (since : ℕ) : Type 0 where
    pub received : Payload
    pub age : Number
    pub returned : (moments i).read_since q.device_type q.inst q.path since ≡ some (received, age)
    pub matching : values_match float_of_text received q.value ≡ true

  -- The write is still allowed and approved at a moment, by an equal contract.
  pub record IsStillApproved (i : ℕ) (c : HardwareWriteContract) : Type 0 where
    pub enabled : (moments i).safety.enable_writes ≡ true
    pub current : HardwareWriteContract
    pub approved : IsApprovedAt (moments i) q current
    pub unchanged : contract_eq current c ≡ true

  still_qualified-IsStillApproved :
      (i : ℕ) (c : HardwareWriteContract)
      → still_qualified (moments i) q c ≡ true
      → IsStillApproved i c
  unfolding still_qualified
  still_qualified-IsStillApproved i c h =
      let (on, same) = (&&_iff _ _).0 h in by_gate (gate (moments i) q) refl on same
    where
      by_gate :
          (r : Checked)
          → gate (moments i) q ≡ r
          → (moments i).safety.enable_writes ≡ true
          → same_approval c r ≡ true
          → IsStillApproved i c
      by_gate (none, problem) e on same = absurd (cc same)
      by_gate (some d, some problem) e on same = absurd (cc same)
      by_gate (some d, none) e on same = record {
        enabled = on;
        current = d;
        approved = ApprovedAt-IsApproved (moments i) q d e;
        unchanged = same;
      }

  module _ (c : HardwareWriteContract) (topic : String) (written_at deadline : ℕ) where
    -- The rounds of the loop before an acknowledgement at its moment.
    pub record IsAcknowledged (v : Verified) : Type 0 where
      pub round : ℕ
      pub in_time : ltb (moments round).now deadline ≡ true
      pub read_back : IsReadBack (round + 1) written_at
      pub approval : IsStillApproved (round + 2) c
      pub value : v.value ≡ q.value
      pub contract_id : v.contract_id ≡ c.contract_id
      pub evidence : v.evidence_sha256 ≡ c.evidence_sha256

    abbrev loop : ℕ → ℕ → Option WriteResult
    loop = verify_loop float_of_text moments q c topic written_at deadline

    reflects-IsReadBack :
        (i : ℕ) (o : Option (Payload × Number))
        → (moments i).read_since q.device_type q.inst q.path written_at ≡ o
        → reflects float_of_text moments q c topic written_at deadline o ≡ true
        → IsReadBack i written_at
    reflects-IsReadBack i none e h = absurd (cc h)
    reflects-IsReadBack i (some (received, age)) e h = record {
      received = received;
      age = age;
      returned = e;
      matching = h;
    }

    acknowledge-IsStillApproved :
        (i : ℕ) (v : Verified)
        → acknowledge float_of_text moments q c topic written_at deadline i ≡ verified v
        → IsStillApproved i c
    unfolding acknowledge
    acknowledge-IsStillApproved i v h = elim (Bool-cases (still_qualified (moments i) q c)) [
      | inl e ↦ still_qualified-IsStillApproved i c e
      | inr e ↦ absurd (ground arith)
    ]

    acknowledge-Verified :
        (i : ℕ) (v : Verified)
        → acknowledge float_of_text moments q c topic written_at deadline i ≡ verified v
        → (v.value ≡ q.value)
          × (v.contract_id ≡ c.contract_id)
          × (v.evidence_sha256 ≡ c.evidence_sha256)
    unfolding acknowledge
    acknowledge-Verified i v h = elim (Bool-cases (still_qualified (moments i) q c)) [
      | inl e ↦ (ground arith, ground arith, ground arith)
      | inr e ↦ absurd (ground arith)
    ]

    verify_loop-IsAcknowledged :
        (fuel i : ℕ) (v : Verified) → loop fuel i ≡ some (verified v) → IsAcknowledged v
    unfolding verify_loop
    verify_loop-IsAcknowledged zero i v h = absurd (cc h)
    verify_loop-IsAcknowledged (suc f) i v h =
        round (ltb (moments i).now deadline) refl
          (reflects float_of_text moments q c topic written_at deadline
            ((moments (i + 1)).read_since q.device_type q.inst q.path written_at))
          refl (verify_loop-IsAcknowledged f (i + 2) v) h
      where
        round :
            (a : Bool)
            → ltb (moments i).now deadline ≡ a
            → (b : Bool)
            → reflects float_of_text moments q c topic written_at deadline
                ((moments (i + 1)).read_since q.device_type q.inst q.path written_at)
              ≡ b
            → (loop f (i + 2) ≡ some (verified v) → IsAcknowledged v)
            → (if a
                then (if b
                    then some
                        (acknowledge float_of_text moments q c topic written_at deadline (i + 2))
                    else loop f (i + 2))
                else some (not_reflected topic q.value))
              ≡ some (verified v)
            → IsAcknowledged v
        round false e b k ih h = absurd (cc h)
        round true e false k ih h = ih h
        round true e true k ih h =
            let (value, contract_id, evidence) = acknowledge-Verified (i + 2) v (cc h) in
            record {
              round = i;
              in_time = e;
              read_back = reflects-IsReadBack (i + 1) _ refl k;
              approval = acknowledge-IsStillApproved (i + 2) v (cc h);
              value = value;
              contract_id = contract_id;
              evidence = evidence;
            }

  -- A verified result, traced back: the gate approved the write at moment 0, and later a round of
  -- the loop read the value back and found the approval unchanged.
  pub record IsVerified (v : Verified) : Type 0 where
    pub contract : HardwareWriteContract
    pub topic : String
    pub approved : IsApprovedAt (moments 0) q contract
    pub accepted : (moments 1).publish_fails ≡ false
    pub acknowledged :
        IsAcknowledged contract topic (moments 1).now ((moments 2).now + write_verify_timeout) v

  module _ (fuel : ℕ) where
    after_publish-IsVerified :
        (c : HardwareWriteContract) (topic : String) (v : Verified)
        → IsApprovedAt (moments 0) q c
        → after_publish float_of_text fuel moments q c topic ≡ some (verified v)
        → IsVerified v
    unfolding after_publish
    after_publish-IsVerified c topic v a h = sent (moments 1).publish_fails refl h
      where
        sent :
            (b : Bool)
            → (moments 1).publish_fails ≡ b
            → (if b
                then some publish_failed
                else verify_loop float_of_text moments q c topic
                    (moments 1).now
                    ((moments 2).now + write_verify_timeout)
                    fuel
                    3)
              ≡ some (verified v)
            → IsVerified v
        sent true e k = absurd (cc k)
        sent false e k = record {
          contract = c;
          topic = topic;
          approved = a;
          accepted = e;
          acknowledged =
              verify_loop-IsAcknowledged c topic (moments 1).now
                ((moments 2).now + write_verify_timeout) fuel 3 v k;
        }

    after_gate-IsVerified :
        (r : Checked) (v : Verified)
        → gate (moments 0) q ≡ r
        → (after_gate float_of_text fuel moments q r).0 ≡ some (verified v)
        → IsVerified v
    after_gate-IsVerified (none, problem) v e h = absurd (cc h)
    after_gate-IsVerified (some c, some problem) v e h = absurd (cc h)
    after_gate-IsVerified (some c, none) v e h =
        by_prefix (portal_topic "W" (moments 0).portal_id) h
      where
        by_prefix :
            (o : Option String)
            → (publish_to float_of_text fuel moments q c o).0 ≡ some (verified v)
            → IsVerified v
        by_prefix none k = absurd (cc k)
        by_prefix (some prefix) k =
            after_publish-IsVerified c _ v (ApprovedAt-IsApproved (moments 0) q c e) k

    -- A write reports success only if a contract approved it, the publication was accepted, and in
    -- some round before the deadline a read-back received since the publication matched the value
    -- and the gate, run again with writes enabled, still approved the write by an equal contract.
    pub mqtt_write_and_verify-IsVerified :
        (v : Verified)
        → (mqtt_write_and_verify float_of_text fuel moments q).0 ≡ some (verified v)
        → IsVerified v
    unfolding mqtt_write_and_verify
    mqtt_write_and_verify-IsVerified v h = after_gate-IsVerified (gate (moments 0) q) v refl h
