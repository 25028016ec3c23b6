-- ===== src/Write/Terminates.antt =====
-- The verification loop of src/mcp_venus_os/server.py ends: every round sleeps, so the deadline comes.
use mcp_venus_os.Prelude.{
  ℕ, zero, suc, ◌+◌, ◌*◌, ◌≤◌, ◌≡◌, refl, String, Bool, true, false, Option, none, some, ltb, arith,
}
use mcp_venus_os.Value.{Float}
use mcp_venus_os.Config.{portal_topic}
use mcp_venus_os.Hardware.{HardwareWriteContract}
use mcp_venus_os.Hardware.Validation.{Checked}
use mcp_venus_os.Write.{Moment}
use mcp_venus_os.Write.Verify.{
  Request, WriteResult, gate, verify_loop, after_publish, publish_to, after_gate,
  mqtt_write_and_verify, write_verify_timeout,
}

-- From a moment of one round of the loop to that of the next, a step of the clock passes: the sleep.
abbrev pub Sleeps : ℕ → (ℕ → Moment) → Type 0
Sleeps step moments = (i : ℕ) → 3 ≤ i → (moments i).now + step ≤ (moments (i + 2)).now

abbrev pub is_result : Option WriteResult → Bool
is_result none = false
is_result (some r) = true

module _ (float_of_text : String → Option Float) (moments : ℕ → Moment) (q : Request)
    (step : ℕ) where
  module _ (c : HardwareWriteContract) (topic : String) (written_at deadline : ℕ) where
    abbrev loop : ℕ → ℕ → Option WriteResult
    loop = verify_loop float_of_text moments q c topic written_at deadline

    -- One round ends the loop, or the rest of it does.
    verify_loop-round :
        (fuel i : ℕ)
        → (ltb (moments i).now deadline ≡ true → is_result (loop fuel (i + 2)) ≡ true)
        → is_result (loop (suc fuel) i) ≡ true
    unfolding verify_loop
    verify_loop-round fuel i h = ground arith

    verify_loop-result :
        (fuel i : ℕ)
        → Sleeps step moments
        → 3 ≤ i
        → deadline ≤ (moments i).now + fuel * step
        → is_result (loop (suc fuel) i) ≡ true
    verify_loop-result zero i sleeps late h = verify_loop-round 0 i (λ early. absurd (ground arith))
    verify_loop-result (suc f) i sleeps late h = verify_loop-round (suc f) i (λ early.
        verify_loop-result f (i + 2) sleeps (omega arith)
          (let passed = sleeps i late in omega arith))

  after_publish-result :
      (fuel : ℕ) (c : HardwareWriteContract) (topic : String)
      → Sleeps step moments
      → (moments 2).now ≤ (moments 3).now
      → write_verify_timeout ≤ fuel * step
      → is_result (after_publish float_of_text (suc fuel) moments q c topic) ≡ true
  unfolding after_publish
  after_publish-result fuel c topic sleeps onward enough =
      let ended =
        verify_loop-result c topic (moments 1).now ((moments 2).now + write_verify_timeout) fuel 3
          sleeps (omega arith) (omega arith) in
      ground arith

  after_gate-result :
      (fuel : ℕ) (r : Checked)
      → Sleeps step moments
      → (moments 2).now ≤ (moments 3).now
      → write_verify_timeout ≤ fuel * step
      → is_result (after_gate float_of_text (suc fuel) moments q r).0 ≡ true
  after_gate-result fuel (none, problem) sleeps onward enough = refl
  after_gate-result fuel (some c, some problem) sleeps onward enough = refl
  after_gate-result fuel (some c, none) sleeps onward enough =
      by_prefix (portal_topic "W" (moments 0).portal_id)
    where
      by_prefix :
          (o : Option String)
          → is_result (publish_to float_of_text (suc fuel) moments q c o).0 ≡ true
      by_prefix none = refl
      by_prefix (some prefix) = after_publish-result fuel c _ sleeps onward enough

  -- A write ends with a result: if every round of the loop takes at least a step of the clock, the
  -- clock does not run backwards between the deadline and the loop, and the fuel's steps cover the
  -- timeout of five seconds, then one round more than that is enough.
  pub mqtt_write_and_verify-result :
      (fuel : ℕ)
      → Sleeps step moments
      → (moments 2).now ≤ (moments 3).now
      → write_verify_timeout ≤ fuel * step
      → is_result (mqtt_write_and_verify float_of_text (suc fuel) moments q).0 ≡ true
  unfolding mqtt_write_and_verify
  mqtt_write_and_verify-result fuel sleeps onward enough =
      after_gate-result fuel (gate (moments 0) q) sleeps onward enough
