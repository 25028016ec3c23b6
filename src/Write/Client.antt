-- ===== src/Write/Client.antt =====
-- The write of src/mcp_venus_os/server.py over the client of src/mcp_venus_os/mqtt_client.py: what the
-- client's cache held when a write was acknowledged.
use mcp_venus_os.Prelude.{ℕ, ◌+◌, ◌≡◌, String, true, not, ◌&&◌, Option, some, lookup, leb}
use mcp_venus_os.Value.{Float, Payload}
use mcp_venus_os.Config.{SafetyConfig}
use mcp_venus_os.Telemetry.{item_topic}
use mcp_venus_os.Mqtt.{Client, prefix}
use mcp_venus_os.Mqtt.Cache.{read_path, read_path_since}
use mcp_venus_os.Mqtt.Cache.Fresh.{read_path_since_iff}
use mcp_venus_os.Mqtt.Lifecycle.{is_some}
use mcp_venus_os.Write.{Moment, values_match}
use mcp_venus_os.Write.Verify.{Request, Verified, verified, mqtt_write_and_verify}
use mcp_venus_os.Write.Acknowledged.{mqtt_write_and_verify-IsVerified}

-- What an observation finds, given the settings, the clock and the client.
abbrev pub moment_of : SafetyConfig → Float → ℕ → Client → Moment
moment_of safety stale_after now c = record {
  safety = safety;
  portal_id = some c.portal;
  stale_after_seconds = stale_after;
  now = now;
  read = read_path now c;
  read_since = read_path_since now c;
  publish_fails = not (is_some c.client && c.connected);
}

module _ (float_of_text : String → Option Float) (fuel : ℕ) (q : Request)
    (safety : ℕ → SafetyConfig) (stale_after : Float) (clock : ℕ → ℕ) (client : ℕ → Client) where
  abbrev pub moments : ℕ → Moment
  moments i = moment_of (safety i) stale_after (clock i) (client i)

  -- The client's entry that acknowledged the write, at one of its moments.
  pub record IsCached : Type 0 where
    pub at : ℕ
    pub value : Payload
    pub received_at : ℕ
    pub entry :
        lookup (item_topic (prefix (client at)) q.device_type q.inst q.path) (client at).cache
        ≡ some (value, received_at)
    pub since_written : leb (clock 1) received_at ≡ true
    pub matching : values_match float_of_text value q.value ≡ true

  -- If a write over the client reports success, then at some moment the client's cache held a value
  -- for the written item that matches it and was received no earlier than the publication.
  pub mqtt_write_and_verify-IsCached :
      (v : Verified)
      → (mqtt_write_and_verify float_of_text fuel moments q).0 ≡ some (verified v)
      → IsCached
  mqtt_write_and_verify-IsCached v h =
      let a = (mqtt_write_and_verify-IsVerified float_of_text moments q fuel v h).acknowledged in
      let i = a.round + 1 in
      let (received_at, entry, since, age) =
        (read_path_since_iff (clock i) (client i) q.device_type q.inst q.path (clock 1)
            a.read_back.received a.read_back.age).0
          a.read_back.returned in
      record {
        at = i;
        value = a.read_back.received;
        received_at = received_at;
        entry = entry;
        since_written = since;
        matching = a.read_back.matching;
      }
