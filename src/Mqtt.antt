-- ===== src/Mqtt.antt =====
-- `MQTTClient` of src/mcp_venus_os/mqtt_client.py: its state and what its methods share. A method
-- is a function of the state under its lock; what it does to the outside is a list of effects. The
-- objects of paho-mqtt (a transport, a socket) and the callbacks are numbered. A reading of the
-- monotonic clock is a number of units of 2^-1074 s, as the floats of Value.antt are, and the
-- difference of two readings is exact. The portal is configured: `portal` is its id.
pub mod Session
pub mod Callbacks
pub mod Messages
pub mod Cache
pub mod Steps
pub mod Reachable
pub mod Registers
pub mod Worker
pub mod Lifecycle
pub mod Feed
pub mod Devices
pub mod Tests
use mcp_venus_os.Prelude.{
  ℕ, ◌+◌, ◌*◌, ◌/◌, ◌-◌, String, ◌<>◌, Bool, true, false, not, ◌&&◌, ◌||◌, Option, none, some, List,
  [], ◌∷◌, ◌++◌, any, all, keep, add_all, elem, sorted, has_char, ltb, ◌==◌, length, if◌then◌else◌,
}
use mcp_venus_os.Value.{Payload, one_units}
use mcp_venus_os.Hardware.{HardwareWriteContract}
use mcp_venus_os.Capabilities.{capability_subscriptions}
use mcp_venus_os.Telemetry.{subscriptions}

-- INBOX_MAXSIZE and TRANSPORT_EVENT_LIMIT
abbrev pub inbox_maxsize : ℕ
inbox_maxsize = 50000

abbrev pub transport_event_limit : ℕ
transport_event_limit = 12

-- SUPPRESS_REPUBLISH
abbrev pub suppress_republish : String
suppress_republish = "{\"keepalive-options\":[\"suppress-republish\"]}"

pub record Message : Type 0 where
  pub topic : String
  pub payload : List ℕ
  pub retain : Bool

-- What the network thread queues: the transport, the message and its receive time.
pub record Received : Type 0 where
  pub transport : ℕ
  pub message : Message
  pub received_at : ℕ

pub data EventKind : Type 0 where
  socket_open pingreq_attempt pingresp_decoded output_drained_after_pingreq socket_close : EventKind

pub record TransportEvent : Type 0 where
  pub observed_at : ℕ
  pub kind : EventKind
  pub generation : ℕ
  pub sample : Payload

-- A registered pattern: its place in the order of registration, and its callbacks.
pub record Registration : Type 0 where
  pub sequence : ℕ
  pub callbacks : List ℕ

pub record Client : Type 0 where
  pub portal : String
  pub contracts : List HardwareWriteContract
  pub client : Option ℕ
  pub connected : Bool
  pub stopping : Bool
  pub worker_stop : Bool
  pub callbacks : List (String × Registration)
  pub callback_sequence : ℕ
  pub cache : List (String × (Payload × ℕ))
  pub retained_serial_seen : Bool
  -- `none` is the sentinel that stops the worker.
  pub inbox : List (Option Received)
  pub last_drop_log : ℕ
  pub connection_epoch : ℕ
  pub session_started_at : Option ℕ
  pub last_received_at : Option ℕ
  pub last_pingreq_at : Option ℕ
  pub last_pingresp_at : Option ℕ
  pub pingreq_attempts : ℕ
  pub pingresp_received : ℕ
  pub disconnect_callbacks : ℕ
  pub inbox_dropped : ℕ
  pub socket_generation : ℕ
  pub diagnostic_socket : Option ℕ
  pub pending_pingreq_generation : Option ℕ
  pub transport_events : List TransportEvent
  pub transport_event_revision : ℕ
  -- `none` is -1: no revision was reported.
  pub reported_revision : Option ℕ

-- `__init__`
abbrev pub initial : String → List HardwareWriteContract → Client
initial portal contracts = record {
  portal = portal;
  contracts = contracts;
  client = none;
  connected = false;
  stopping = false;
  worker_stop = false;
  callbacks = [];
  callback_sequence = 0;
  cache = [];
  retained_serial_seen = false;
  inbox = [];
  last_drop_log = 0;
  connection_epoch = 0;
  session_started_at = none;
  last_received_at = none;
  last_pingreq_at = none;
  last_pingresp_at = none;
  pingreq_attempts = 0;
  pingresp_received = 0;
  disconnect_callbacks = 0;
  inbox_dropped = 0;
  socket_generation = 0;
  diagnostic_socket = none;
  pending_pingreq_generation = none;
  transport_events = [];
  transport_event_revision = 0;
  reported_revision = none;
}

-- What the warning of a disconnect shows; an age is the time since a reading, if there was one. The
-- ages are not rounded, and whether the network thread is alive is left out.
pub record Diagnostics : Type 0 where
  pub epoch : ℕ
  pub disconnect_callback : ℕ
  pub duplicate_in_epoch : Bool
  pub session_age : Option ℕ
  pub notification_age : Option ℕ
  pub pingreq_attempt_age : Option ℕ
  pub pingresp_age : Option ℕ
  pub attempts : ℕ
  pub responses : ℕ
  pub inbox_depth : ℕ
  pub dropped : ℕ
  pub generation : ℕ
  pub events_repeated : Bool
  pub events : List TransportEvent

pub data Effect : Type 0 where
  subscribed unsubscribed : String → Effect
  published : String → Payload → Effect
  warned_disconnected : Diagnostics → Effect
  warned_overflow : Effect
  delivered : ℕ → Payload → Effect

abbrev pub prefix : Client → String
prefix c = "N/" <> c.portal

abbrev pub write_prefix : Client → String
write_prefix c = "W/" <> c.portal

abbrev pub serial_topic : Client → String
serial_topic c = prefix c <> "/system/0/Serial"

abbrev pub is_transport : ℕ → Option ℕ → Bool
is_transport t none = false
is_transport t (some u) = t == u

-- `client is not self.client or self._stopping`
abbrev pub stale : Client → ℕ → Bool
stale c transport = not (is_transport transport c.client) || c.stopping

module _ (matches : String → String → Bool) where
  -- `_base_subscriptions`
  unfoldable pub base_subscriptions : Client → List String
  base_subscriptions c =
      add_all capability_subscriptions (subscriptions matches (prefix c) c.contracts)

  -- `_covered_by_base`
  unfoldable pub covered_by_base : Client → String → Bool
  covered_by_base c pattern =
      elem pattern (base_subscriptions c)
      || (not (has_char b'+' pattern)
          && not (has_char b'#' pattern)
          && any (λ owned. matches owned pattern) (base_subscriptions c))
