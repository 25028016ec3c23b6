-- ===== src/Mqtt/Session.antt =====
-- The session and socket callbacks of src/mcp_venus_os/mqtt_client.py. `sample_socket` reads kernel
-- metadata of a socket, and is an argument.
pub mod Invariant
use mcp_venus_os.Prelude.{
  ℕ, suc, ◌+◌, ◌-◌, String, ◌<>◌, Bool, true, false, not, ◌&&◌, ◌||◌, Option, none, some, List, [],
  ◌∷◌, ◌++◌, map, add_all, keep, sorted, length, ltb, leb, ◌==◌, str_eq, if◌then◌else◌,
}
use mcp_venus_os.Value.{Payload, str}
use mcp_venus_os.Mqtt.{
  TransportEvent, EventKind, socket_open, pingreq_attempt, pingresp_decoded,
  output_drained_after_pingreq, socket_close, Registration, Client, Diagnostics, Effect, subscribed,
  published, warned_disconnected, stale, is_transport, base_subscriptions, covered_by_base,
  transport_event_limit,
}

-- The patterns that have callbacks.
abbrev pub explicit_patterns : List (String × Registration) → List String
explicit_patterns [] = []
explicit_patterns ((pattern, r) ∷ rest) =
    let more = explicit_patterns rest in elim r.callbacks [ [] ↦ more | cb ∷ cbs ↦ pattern ∷ more ]

-- The part of `_on_connect` under the lock.
unfoldable pub begin_session : Bool → ℕ → Client → Client
begin_session accepted now c =
    if accepted
    then record c {
      connected = true;
      connection_epoch = c.connection_epoch + 1;
      session_started_at = some now;
      last_received_at = none;
      last_pingreq_at = none;
      last_pingresp_at = none;
      pingreq_attempts = 0;
      pingresp_received = 0;
      disconnect_callbacks = 0;
      inbox_dropped = 0;
      pending_pingreq_generation = none;
    }
    else record c { connected = false }

-- The subscriptions and the request for the item tree that follow.
unfoldable pub connect_effects : (String → String → Bool) → Client → List Effect
connect_effects matches c =
    let additional =
      keep (λ pattern. not (covered_by_base matches c pattern)) (explicit_patterns c.callbacks) in
    map subscribed (sorted (add_all additional (base_subscriptions matches c)))
    ++ published ("R/" <> c.portal <> "/keepalive") (str "") ∷ []

unfoldable pub on_connect : (String → String → Bool) → ℕ → Bool → ℕ → Client → Client × List Effect
on_connect matches transport accepted now c =
    if stale c transport
    then (c, [])
    else let c' = begin_session accepted now c in
      (c', if accepted then connect_effects matches c' else [])

-- `age`
abbrev pub age_of : ℕ → Option ℕ → Option ℕ
age_of now none = none
age_of now (some received_at) = some (now - received_at)

abbrev pub same_revision : Option ℕ → ℕ → Bool
same_revision none revision = false
same_revision (some reported) revision = reported == revision

abbrev pub diagnose : ℕ → Client → Diagnostics
diagnose now c = record {
  epoch = c.connection_epoch;
  disconnect_callback = c.disconnect_callbacks;
  duplicate_in_epoch = ltb 1 c.disconnect_callbacks;
  session_age = age_of now c.session_started_at;
  notification_age = age_of now c.last_received_at;
  pingreq_attempt_age = age_of now c.last_pingreq_at;
  pingresp_age = age_of now c.last_pingresp_at;
  attempts = c.pingreq_attempts;
  responses = c.pingresp_received;
  inbox_depth = length c.inbox;
  dropped = c.inbox_dropped;
  generation = c.socket_generation;
  events_repeated = same_revision c.reported_revision c.transport_event_revision;
  events =
      if same_revision c.reported_revision c.transport_event_revision
      then []
      else c.transport_events;
}

unfoldable pub on_disconnect : ℕ → ℕ → Client → Client × List Effect
on_disconnect transport now c =
    if stale c transport
    then (c, [])
    else let c' = record c {
      connected = false;
      disconnect_callbacks = c.disconnect_callbacks + 1;
    } in
      (
        record c' { reported_revision = some c'.transport_event_revision },
        warned_disconnected (diagnose now c') ∷ [],
      )

-- `deque(maxlen=n).append`: an item behind a full deque pushes the first out.
abbrev pub append_bounded {ℓ} : {A : Type ℓ} → ℕ → List A → A → List A
append_bounded n [] a = a ∷ []
append_bounded n (x ∷ xs) a = if ltb (length (x ∷ xs)) n then x ∷ (xs ++ a ∷ []) else xs ++ a ∷ []

module _ (sample_socket : Option ℕ → Payload) where
  -- `_record_transport_event`
  unfoldable pub record_transport_event : EventKind → ℕ → Client → Client
  record_transport_event kind observed_at c = record c {
    transport_events = append_bounded transport_event_limit c.transport_events (record {
      observed_at = observed_at;
      kind = kind;
      generation = c.socket_generation;
      sample = sample_socket c.diagnostic_socket;
    });
    transport_event_revision = c.transport_event_revision + 1;
  }

  unfoldable pub on_log : ℕ → String → ℕ → Client → Client
  on_log transport message now c =
      if not (str_eq message "Sending PINGREQ" || str_eq message "Received PINGRESP")
      then c
      else if stale c transport || not c.connected
      then c
      else if str_eq message "Sending PINGREQ"
      then record_transport_event pingreq_attempt now (record c {
        last_pingreq_at = some now;
        pingreq_attempts = c.pingreq_attempts + 1;
        pending_pingreq_generation = some c.socket_generation;
      })
      else record_transport_event pingresp_decoded now
          (record c { last_pingresp_at = some now; pingresp_received = c.pingresp_received + 1 })

  -- `current` is `client.socket()`.
  unfoldable pub on_socket_open : ℕ → Option ℕ → ℕ → ℕ → Client → Client
  on_socket_open transport current sock now c =
      if stale c transport || not (is_transport sock current)
      then c
      else record_transport_event socket_open now (record c {
        socket_generation = c.socket_generation + 1;
        diagnostic_socket = some sock;
        pending_pingreq_generation = none;
        transport_events = [];
      })

  -- `want_write` is `client.want_write()`.
  unfoldable pub on_socket_unregister_write : ℕ → Option ℕ → Bool → ℕ → ℕ → Client → Client
  on_socket_unregister_write transport current want_write sock now c =
      if stale c transport
        || not c.connected
        || not (is_transport sock c.diagnostic_socket)
        || not (is_transport sock current)
        || want_write
        || not (same_revision c.pending_pingreq_generation c.socket_generation)
      then c
      else record_transport_event output_drained_after_pingreq now
          (record c { pending_pingreq_generation = none })

  unfoldable pub on_socket_close : ℕ → ℕ → ℕ → Client → Client
  on_socket_close transport sock now c =
      if stale c transport || not (is_transport sock c.diagnostic_socket)
      then c
      else let c' = record_transport_event socket_close now c in
        record c' { diagnostic_socket = none; pending_pingreq_generation = none }
