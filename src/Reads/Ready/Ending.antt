-- ===== src/Reads/Ready/Ending.antt =====
-- The warm-up of src/mcp_venus_os/server.py ends, and not before the mark or the timeout.
use mcp_venus_os.Prelude.{
  ℕ, zero, suc, ◌+◌, ◌*◌, ◌≤◌, ◌<◌, ◌≡◌, ◌⊎◌, inl, inr, refl, String, Bool, true, false, Option,
  none, some, map, ltb, arith, if◌then◌else◌, Bool-cases, ◌==◌, ==_iff,
}
use mcp_venus_os.Mqtt.{Client}
use mcp_venus_os.Reads.Registry.{Registry, apply_capability_tools}
use mcp_venus_os.Reads.Ready.{
  Ready, is_marked, wait_marked, await_marked, done_topic, mqtt_ready, mqtt_warmup_timeout,
}

module _ (look : ℕ → Client) (now : ℕ → ℕ) (step : ℕ) where
  -- The clock moves on by a step in each round of the wait, and not back before it.
  pub record Sleeps : Type 0 where
    pub onward : now 0 ≤ now 1
    pub rounds : (i : ℕ) → 1 ≤ i → now i + step ≤ now (i + 1)

  -- The wait ends in a round with the mark, or past the deadline, and none before it has the mark.
  pub record EndsAt (topic : String) (deadline from last : ℕ) : Type 0 where
    pub ended : (is_marked topic (look last) ≡ true) ⊎ (deadline < now last)
    pub waited : (i : ℕ) → from ≤ i → i < last → is_marked topic (look i) ≡ false

  abbrev Ends : String → ℕ → ℕ → Option ℕ → Type 0
  Ends topic deadline from o = (last : ℕ) × (o ≡ some last) × EndsAt topic deadline from last

  one_more :
      (topic : String) (deadline i : ℕ) (o : Option ℕ)
      → is_marked topic (look i) ≡ false
      → Ends topic deadline (i + 1) o
      → Ends topic deadline i o
  one_more topic deadline i o unmarked (last, e, h) =
      (last, e, record { ended = h.ended; waited = before })
    where
      before : (j : ℕ) → i ≤ j → j < last → is_marked topic (look j) ≡ false
      before j low high = elim (Bool-cases (j == i)) [
        | inl e ↦ let same = (==_iff j i).0 e in rw same unmarked
        | inr e ↦ h.waited j (ground arith) high
      ]

  -- A round ends the wait, or finds no mark before the deadline.
  round-Ends :
      (topic : String) (deadline i : ℕ) (later : Option ℕ)
      → (ltb deadline (now i) ≡ false → Ends topic deadline (i + 1) later)
      → Ends topic deadline i (
          if is_marked topic (look i)
          then some i
          else if ltb deadline (now i)
          then some i
          else later)
  round-Ends topic deadline i later h =
      by_tests (is_marked topic (look i)) refl (ltb deadline (now i)) refl
    where
      here : (is_marked topic (look i) ≡ true) ⊎ (deadline < now i) → Ends topic deadline i (some i)
      here e = (i, refl, record { ended = e; waited = λ j low high. absurd (omega arith) })

      by_tests :
          (a : Bool)
          → is_marked topic (look i) ≡ a
          → (b : Bool) → ltb deadline (now i) ≡ b
          → Ends topic deadline i (if a then some i else if b then some i else later)
      by_tests true e b f = here (inl e)
      by_tests false e true f = here (inr (ground arith))
      by_tests false e false f = one_more topic deadline i later e (h f)

  wait_marked-Ends :
      (topic : String) (deadline fuel i : ℕ)
      → Sleeps
      → 1 ≤ i
      → deadline < now i + fuel * step
      → Ends topic deadline i (wait_marked look now topic deadline (suc fuel) i)
  unfolding wait_marked
  wait_marked-Ends topic deadline zero i sleeps late enough =
      round-Ends topic deadline i _ (λ early. absurd (ground arith))
  wait_marked-Ends topic deadline (suc f) i sleeps late enough =
      round-Ends topic deadline i _ (λ early.
        wait_marked-Ends topic deadline f (i + 1) sleeps (omega arith)
          (let passed = sleeps.rounds i late in omega arith))

  await_marked-Ends :
      (fuel : ℕ)
      → Sleeps
      → mqtt_warmup_timeout < fuel * step
      → Ends
          (done_topic look now)
          (now 0 + mqtt_warmup_timeout)
          0
          (await_marked look now (suc fuel))
  unfolding await_marked
  await_marked-Ends fuel sleeps enough = by_test (is_marked topic (look 0)) refl _ (
      wait_marked-Ends topic (now 0 + mqtt_warmup_timeout) fuel 1 sleeps (omega arith)
        (let o = sleeps.onward in omega arith))
    where
      topic : String
      topic = done_topic look now

      by_test :
          (b : Bool)
          → is_marked topic (look 0) ≡ b
          → (o : Option ℕ) → Ends topic (now 0 + mqtt_warmup_timeout) 1 o
          → Ends topic (now 0 + mqtt_warmup_timeout) 0 (if b then some 0 else o)
      by_test true e o h =
          (0, refl, record { ended = inl e; waited = λ j low high. absurd (omega arith) })
      by_test false e o h = one_more topic (now 0 + mqtt_warmup_timeout) 0 o e h

  -- If connect succeeds, each round of the wait takes a step of the clock, which does not run back
  -- before it, and the fuel's steps exceed the timeout of 20 seconds, then with one round more the
  -- warm-up ends: in the first round whose cache has the mark, or past the timeout with no mark in
  -- any round before; and it registers the tools for the topics that are cached after that round.
  pub mqtt_ready-ends :
      (fuel : ℕ) (configured : Bool) (r : Registry)
      → Sleeps
      → mqtt_warmup_timeout < fuel * step
      → (last : ℕ) × (mqtt_ready look now (suc fuel) none configured r
          ≡ some (
              Ready.ready last
                (apply_capability_tools
                  (map (λ entry. entry.0) (look (last + 1)).cache)
                  configured
                  r).1))
        × EndsAt (done_topic look now) (now 0 + mqtt_warmup_timeout) 0 last
  unfolding mqtt_ready
  mqtt_ready-ends fuel configured r sleeps enough =
      let (last, e, h) = await_marked-Ends fuel sleeps enough in (last, rw e refl, h)
