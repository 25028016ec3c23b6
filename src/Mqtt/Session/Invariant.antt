-- ===== src/Mqtt/Session/Invariant.antt =====
-- What holds of the state of src/mcp_venus_os/mqtt_client.py after any sequence of its callbacks:
-- the network thread's, the worker's and the callers' steps, in any order.
pub mod Sockets
use mcp_venus_os.Prelude.{
  ℕ, ◌+◌, ◌≡◌, refl, String, Bool, true, false, not, ◌&&◌, ◌||◌, Option, none, some, List, [], ◌∷◌,
  ◌++◌, length, leb, ◌==◌, if◌then◌else◌, arith,
}
use mcp_venus_os.Hardware.{HardwareWriteContract}
use mcp_venus_os.Mqtt.{Client, Effect, initial, stale, inbox_maxsize, transport_event_limit}
use mcp_venus_os.Mqtt.Session.{begin_session, on_connect, on_disconnect, append_bounded}

abbrev pending_ok : Option ℕ → ℕ → Bool
pending_ok none generation = true
pending_ok (some g) generation = g == generation

abbrev reported_ok : Option ℕ → ℕ → Bool
reported_ok none revision = true
reported_ok (some r) revision = leb r revision

abbrev is_set : Option ℕ → Bool
is_set none = false
is_set (some n) = true

-- The ring of transport events and the inbox keep their bounds, a pending ping belongs to the
-- current socket, the reported revision is one that was reached, and a connected client has a
-- transport and the start of its session.
pub record WellFormed (c : Client) : Type 0 where
  pub events_bounded : leb (length c.transport_events) transport_event_limit ≡ true
  pub inbox_bounded : leb (length c.inbox) inbox_maxsize ≡ true
  pub ping_of_socket : pending_ok c.pending_pingreq_generation c.socket_generation ≡ true
  pub report_reached : reported_ok c.reported_revision c.transport_event_revision ≡ true
  pub session_known : (not c.connected || (is_set c.client && is_set c.session_started_at)) ≡ true

module _ {ℓ} {A : Type ℓ} where
  pub length-snoc : (xs : List A) (a : A) → length (xs ++ a ∷ []) ≡ length xs + 1
  length-snoc [] a = refl
  length-snoc (x ∷ xs) a = ground (arith, length-snoc xs a)

  pub length-append_bounded :
      (n : ℕ) (xs : List A) (a : A)
      → leb 1 n ≡ true
      → leb (length xs) n ≡ true
      → leb (length (append_bounded n xs a)) n ≡ true
  length-append_bounded n [] a h k = h
  length-append_bounded n (x ∷ xs) a h k = ground (arith, length-snoc xs a)

pub initial-WellFormed :
    (portal : String) (contracts : List HardwareWriteContract)
    → WellFormed (initial portal contracts)
initial-WellFormed portal contracts = record {
  events_bounded = refl;
  inbox_bounded = refl;
  ping_of_socket = refl;
  report_reached = refl;
  session_known = refl;
}

begin_session-WellFormed :
    (accepted : Bool) (now : ℕ) (c : Client)
    → is_set c.client ≡ true
    → WellFormed c
    → WellFormed (begin_session accepted now c)
unfolding begin_session
begin_session-WellFormed true now c t w = record {
  events_bounded = w.events_bounded;
  inbox_bounded = w.inbox_bounded;
  ping_of_socket = refl;
  report_reached = w.report_reached;
  session_known = ground arith;
}
begin_session-WellFormed false now c t w = record {
  events_bounded = w.events_bounded;
  inbox_bounded = w.inbox_bounded;
  ping_of_socket = w.ping_of_socket;
  report_reached = w.report_reached;
  session_known = refl;
}

-- A callback of the current transport finds a client.
current_is_set : (t : ℕ) (c : Client) → stale c t ≡ false → is_set c.client ≡ true
current_is_set t c h = ground arith

-- A guard that returns the state as it is keeps what holds of it.
pub if-WellFormed :
    (b : Bool) (c d : Client)
    → WellFormed c
    → (b ≡ false → WellFormed d)
    → WellFormed (if b then c else d)
if-WellFormed true c d w f = w
if-WellFormed false c d w f = f refl

pub guard-WellFormed :
    (b : Bool) (c : Client) (r : Client × List Effect)
    → WellFormed c
    → (b ≡ false → WellFormed r.0)
    → WellFormed (if b then (c, []) else r).0
guard-WellFormed true c r w f = w
guard-WellFormed false c r w f = f refl

module _ (matches : String → String → Bool) where
  pub on_connect-WellFormed :
      (t : ℕ) (accepted : Bool) (now : ℕ) (c : Client)
      → WellFormed c
      → WellFormed (on_connect matches t accepted now c).0
  unfolding on_connect
  on_connect-WellFormed t accepted now c w =
      guard-WellFormed (stale c t) c _ w
        (λ e. begin_session-WellFormed accepted now c (current_is_set t c e) w)

pub on_disconnect-WellFormed :
    (t now : ℕ) (c : Client) → WellFormed c → WellFormed (on_disconnect t now c).0
unfolding on_disconnect
on_disconnect-WellFormed t now c w = guard-WellFormed (stale c t) c _ w (λ e. record {
  events_bounded = w.events_bounded;
  inbox_bounded = w.inbox_bounded;
  ping_of_socket = w.ping_of_socket;
  report_reached = ground arith;
  session_known = refl;
})
