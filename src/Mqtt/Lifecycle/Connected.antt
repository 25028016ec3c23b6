-- ===== src/Mqtt/Lifecycle/Connected.antt =====
-- What a finished wait for the connection means in src/mcp_venus_os/mqtt_client.py.
use mcp_venus_os.Prelude.{
  ℕ, zero, suc, ◌+◌, ◌<◌, ◌≤◌, ◌≡◌, ◌⊎◌, subst, true, false, none, ◌==◌, ==_iff, arith, Bool-cases,
  inl, inr,
}
use mcp_venus_os.Mqtt.{Client, is_transport}
use mcp_venus_os.Mqtt.Lifecycle.{wait_connected}

-- What every poll but the last one sees: the transport is owned, and not connected yet.
abbrev pub IsWaiting : ℕ → Client → Type 0
IsWaiting transport c =
    (is_transport transport c.client ≡ true) × (c.stopping ≡ false) × (c.connected ≡ false)

-- A poll that finds the transport connected, and the polls in front of it that wait for it.
pub record IsConnectedAt (transport : ℕ) (look : ℕ → Client) (first n last : ℕ) : Type 0 where
  pub begun : first ≤ last
  pub in_time : last < first + n
  pub owned : is_transport transport (look last).client ≡ true
  pub running : (look last).stopping ≡ false
  pub connection : (look last).connected ≡ true
  pub waited : (j : ℕ) → first ≤ j → j < last → IsWaiting transport (look j)

module _ (transport : ℕ) (look : ℕ → Client) where
  wait_connected_step :
      (n i : ℕ)
      → wait_connected transport look (suc n) i ≡ none
      → (is_transport transport (look i).client ≡ true)
        × ((look i).stopping ≡ false)
        × (((look i).connected ≡ true)
            ⊎ (((look i).connected ≡ false) × (wait_connected transport look n (i + 1) ≡ none)))
  unfolding wait_connected
  wait_connected_step n i h = ground arith

  earlier :
      (i last : ℕ)
      → IsWaiting transport (look i)
      → ((j : ℕ) → i + 1 ≤ j → j < last → IsWaiting transport (look j))
      → (j : ℕ) → i ≤ j
      → j < last
      → IsWaiting transport (look j)
  earlier i last now later j from_i before = elim (Bool-cases (i == j)) [
    | inl same ↦ subst (λ (k : ℕ). IsWaiting transport (look k)) ((==_iff i j).0 same) now
    | inr other ↦ later j (ground arith) before
  ]

  -- The wait for a connection succeeds only if some poll in time found the owned transport
  -- connected and not stopping, and every poll before it found that transport still waiting.
  pub wait_connected-IsConnectedAt :
      (n i : ℕ)
      → wait_connected transport look n i ≡ none
      → (last : ℕ) × IsConnectedAt transport look i n last
  unfolding wait_connected
  wait_connected-IsConnectedAt zero i h = absurd (cc h)
  wait_connected-IsConnectedAt (suc n) i h =
      let (owned, running, rest) = wait_connected_step n i h in
      by_connection owned running (wait_connected-IsConnectedAt n (i + 1)) rest
    where
      by_connection :
          is_transport transport (look i).client ≡ true
          → (look i).stopping ≡ false
          → (wait_connected transport look n (i + 1) ≡ none
              → (last : ℕ) × IsConnectedAt transport look (i + 1) n last)
          → ((look i).connected ≡ true)
            ⊎ (((look i).connected ≡ false) × (wait_connected transport look n (i + 1) ≡ none))
          → (last : ℕ) × IsConnectedAt transport look i (suc n) last
      by_connection owned running ih (inl connection) = (
        i,
        record {
          begun = omega arith;
          in_time = omega arith;
          owned = owned;
          running = running;
          connection = connection;
          waited = λ j from_i before. absurd (omega arith);
        },
      )
      by_connection owned running ih (inr (waiting, rest)) =
          let (last, c) = ih rest in
          let begun = c.begun in
          let in_time = c.in_time in
          (
            last,
            record {
              begun = omega arith;
              in_time = omega arith;
              owned = c.owned;
              running = c.running;
              connection = c.connection;
              waited = earlier i last (owned, running, waiting) c.waited;
            },
          )
