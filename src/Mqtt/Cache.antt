-- ===== src/Mqtt/Cache.antt =====
-- Reading the cache of src/mcp_venus_os/mqtt_client.py.
pub mod Fresh
use mcp_venus_os.Prelude.{
  ℕ, ◌-◌, String, Bool, Option, none, some, List, [], ◌∷◌, lookup, ltb, if◌then◌else◌,
}
use mcp_venus_os.Prelude.Int.{ℤ, sub_ℕ}
use mcp_venus_os.Value.{Payload, Number, float, finite}
use mcp_venus_os.Telemetry.{item_topic}
use mcp_venus_os.Mqtt.{Client, prefix}

-- The value with its age at a reading of the clock.
abbrev pub aged : ℕ → Option (Payload × ℕ) → Option (Payload × Number)
aged now none = none
aged now (some (value, received_at)) = some (value, float (finite (sub_ℕ now received_at)))

abbrev pub cached : Client → String → ℤ → String → Option (Payload × ℕ)
cached c device_type inst path = lookup (item_topic (prefix c) device_type inst path) c.cache

unfoldable pub read_path : ℕ → Client → String → ℤ → String → Option (Payload × Number)
read_path now c device_type inst path = aged now (cached c device_type inst path)

-- The first candidate that is cached.
unfoldable pub read_first : ℕ → Client → String → ℤ → List String → Option (Payload × Number)
read_first now c device_type inst [] = none
read_first now c device_type inst (path ∷ paths) =
    let rest = read_first now c device_type inst paths in
    elim (read_path now c device_type inst path) [ none ↦ rest | some r ↦ some r ]

abbrev pub not_before : ℕ → Option (Payload × ℕ) → Option (Payload × ℕ)
not_before since none = none
not_before since (some (value, received_at)) =
    if ltb received_at since then none else some (value, received_at)

unfoldable pub read_path_since : ℕ → Client → String → ℤ → String → ℕ → Option (Payload × Number)
read_path_since now c device_type inst path since =
    aged now (not_before since (cached c device_type inst path))
