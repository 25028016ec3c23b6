-- ===== src/Mqtt/Messages.antt =====
-- The path of a message in src/mcp_venus_os/mqtt_client.py: queued by the network thread, decoded by
-- the worker, cached and delivered. `loads` decodes a payload's bytes as UTF-8 JSON; `none` is an
-- exception of either, which is logged. A log interval of ten seconds is in units of 2^-1074 s.
pub mod Caching
pub mod Latest
use mcp_venus_os.Prelude.{
  ℕ, ◌+◌, ◌*◌, String, ◌<>◌, Bool, true, false, ◌&&◌, ◌||◌, Option, none, some, List, [], ◌∷◌, ◌++◌,
  insert, remove, length, leb, ltb, starts_with, str_eq, if◌then◌else◌,
}
use mcp_venus_os.Value.{Payload, obj, end, entry, one_units}
use mcp_venus_os.Capabilities.{is_capability_topic}
use mcp_venus_os.Mqtt.{
  Message, Received, Client, Effect, warned_overflow, inbox_maxsize, stale, prefix, serial_topic,
}
use mcp_venus_os.Mqtt.Callbacks.{notify_callbacks}

-- DROP_LOG_INTERVAL_S
unfoldable pub drop_log_interval : ℕ
drop_log_interval = 10 * one_units

-- The first part of `_on_message`, under the lock: what it leaves, and whether the queue is full.
unfoldable pub enqueue : ℕ → Message → ℕ → Client → Client × Bool
enqueue transport message received_at c =
    if stale c transport
    then (c, false)
    else let c' = record c { last_received_at = some received_at } in
      if ltb (length c.inbox) inbox_maxsize
      then (
        record c' {
          inbox =
              c.inbox
              ++ some
                  (record { transport = transport; message = message; received_at = received_at })
                ∷ [];
        },
        false,
      )
      else (c', true)

-- The warning, at most once in the interval.
abbrev pub warn_dropped : ℕ → Client → Client × List Effect
warn_dropped now c =
    if leb (c.last_drop_log + drop_log_interval) now
    then (record c { last_drop_log = now }, warned_overflow ∷ [])
    else (c, [])

-- The second part of `_on_message`, the handler of `queue.Full`: it counts the drop if the transport is
-- still the current one. Between the two parts, other threads may change the client. `now` is another
-- reading of the clock than the first part's.
unfoldable pub drop_message : ℕ → ℕ → Client → Client × List Effect
drop_message transport now c =
    warn_dropped now
      (if stale c transport then c else record c { inbox_dropped = c.inbox_dropped + 1 })

-- The gateway wraps an item's value as {"value": X}.
abbrev pub unwrap : Payload → Payload
unwrap (obj (entry key v end)) = if str_eq key "value" then v else obj (entry key v end)
unwrap p = p

module _ (matches : String → String → Bool) (loads : List ℕ → Option Payload) where
  -- An empty notification: the item disappeared.
  abbrev pub forget : String → Client → Client
  forget topic c = record c {
    cache = remove topic c.cache;
    retained_serial_seen = if str_eq topic (serial_topic c) then false else c.retained_serial_seen;
  }

  abbrev pub is_cached_topic : String → Client → Bool
  is_cached_topic topic c = starts_with topic (prefix c <> "/") || is_capability_topic topic

  -- A decoded message: the retained serial is only noted, the rest is cached and delivered.
  abbrev pub store : Message → Payload → ℕ → Client → Client × List Effect
  store message payload received_at c =
      if str_eq message.topic (serial_topic c) && message.retain
      then (record c { retained_serial_seen = true }, [])
      else (
        (if is_cached_topic message.topic c
            then record c { cache = insert message.topic (payload, received_at) c.cache }
            else c),
        notify_callbacks matches message.topic payload c,
      )

  abbrev pub decode : Message → ℕ → Option Payload → Client → Client × List Effect
  decode message received_at none c = (c, [])
  decode message received_at (some payload) c = store message (unwrap payload) received_at c

  abbrev pub is_empty_payload : List ℕ → Bool
  is_empty_payload [] = true
  is_empty_payload (b ∷ bs) = false

  -- `_handle_message`. The callbacks are called outside the lock: the registrations that get the payload
  -- are those of the moment at which the message is cached.
  unfoldable pub handle_message : Received → Client → Client × List Effect
  handle_message r c =
      if stale c r.transport
      then (c, [])
      else if is_empty_payload r.message.payload
      then (forget r.message.topic c, [])
      else decode r.message r.received_at (loads r.message.payload) c

  abbrev pub handle_entry : Option Received → Client → Client × List Effect
  handle_entry none c = (c, [])
  handle_entry (some r) c = handle_message r c

  -- `get_nowait` or `get` of one entry, and its handling.
  unfoldable pub take_entry :
      Client → Option Received → List (Option Received) → Client × List Effect
  take_entry c e rest = handle_entry e (record c { inbox = rest })

  -- `_drain_inbox`, over the entries that are queued.
  unfoldable pub drain_inbox : List (Option Received) → Client → Client × List Effect
  unfolding take_entry
  drain_inbox [] c = (record c { inbox = [] }, [])
  drain_inbox (e ∷ rest) c =
      let (c', effects) = take_entry c e rest in
      let (c'', later) = drain_inbox rest c' in (c'', effects ++ later)
