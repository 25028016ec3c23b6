-- ===== src/Reads/Ready.antt =====
-- The warm-up of src/mcp_venus_os/server.py in front of every tool over MQTT: connect, wait for the mark
-- that ends the gateway's first full publish, and register the tools. `look i` and `now i` are what the
-- i-th round finds; the outcome of `connect` is an argument, see Mqtt/Lifecycle.antt.
pub mod Ending
use mcp_venus_os.Prelude.{
  ℕ, zero, suc, ◌+◌, ◌*◌, ◌/◌, String, ◌<>◌, Bool, true, false, Option, none, some, List, [], ◌∷◌,
  map, lookup, ltb, if◌then◌else◌,
}
use mcp_venus_os.Value.{one_units}
use mcp_venus_os.Mqtt.{Client, prefix}
use mcp_venus_os.Mqtt.Lifecycle.{ConnectError, is_some}
use mcp_venus_os.Reads.Registry.{Registry, apply_capability_tools}

-- MQTT_WARMUP_TIMEOUT_S
unfoldable pub mqtt_warmup_timeout : ℕ
mqtt_warmup_timeout = 20 * one_units

-- What a warm-up ends with: the error of `connect`, or the round whose cache the tools are registered
-- for, with the registry.
pub data Ready : Type 0 where
  refused : ConnectError → Ready
  ready : ℕ → Registry → Ready

-- `done_topic in client._cache`
abbrev pub is_marked : String → Client → Bool
is_marked done_topic c = is_some (lookup done_topic c.cache)

module _ (look : ℕ → Client) (now : ℕ → ℕ) where
  -- The rounds of the wait; `none` is the end of the fuel.
  unfoldable pub wait_marked : String → ℕ → ℕ → ℕ → Option ℕ
  wait_marked done_topic deadline zero i = none
  wait_marked done_topic deadline (suc fuel) i =
      let later = wait_marked done_topic deadline fuel (i + 1) in
      if is_marked done_topic (look i)
      then some i
      else if ltb deadline (now i)
      then some i
      else later

  abbrev pub done_topic : String
  done_topic = prefix (look 0) <> "/full_publish_completed"

  -- The test before the wait, which sets the deadline.
  unfoldable pub await_marked : ℕ → Option ℕ
  await_marked fuel =
      let waited = wait_marked done_topic (now 0 + mqtt_warmup_timeout) fuel 1 in
      if is_marked done_topic (look 0) then some 0 else waited

  abbrev pub registered_at : Bool → Registry → Option ℕ → Option Ready
  registered_at configured r none = none
  registered_at configured r (some i) = some (
      ready i (apply_capability_tools (map (λ entry. entry.0) (look (i + 1)).cache) configured r).1)

  -- `_mqtt_ready`, of the outcome of `connect`, whether SSH is configured, and the registry.
  unfoldable pub mqtt_ready : ℕ → Option ConnectError → Bool → Registry → Option Ready
  mqtt_ready fuel (some e) configured r = some (refused e)
  mqtt_ready fuel none configured r = registered_at configured r (await_marked fuel)
