-- ===== src/Mqtt/Lifecycle/Quiet.antt =====
-- What a stop of the transport silences, and what a finished wait for the connection means, in
-- src/mcp_venus_os/mqtt_client.py.
use mcp_venus_os.Prelude.{
  ℕ, ◌+◌, ◌∷◌, leb, ◌≡◌, refl, ap, String, Bool, true, false, ◌||◌, Option, none, some, List, [],
  if◌then◌else◌, arith,
}
use mcp_venus_os.Value.{Payload}
use mcp_venus_os.Mqtt.{Client, Message, Received, stale, warned_overflow}
use mcp_venus_os.Mqtt.Session.{
  on_connect, on_disconnect, on_log, on_socket_open, on_socket_unregister_write, on_socket_close,
}
use mcp_venus_os.Mqtt.Messages.{
  enqueue, drop_message, warn_dropped, drop_log_interval, handle_message,
}
use mcp_venus_os.Mqtt.Session.Invariant.{WellFormed, length-snoc}
use mcp_venus_os.Mqtt.Lifecycle.{
  Threads, begin_stop, finish_stop, drop_ended, is_some, start_transport, start_loop, is_alive,
}

stale_of_stopping : (t : ℕ) (c : Client) → c.stopping ≡ true → stale c t ≡ true
stale_of_stopping t c h = ground arith

if_true {ℓ} : {A : Type ℓ} (b : Bool) (x y : A) → b ≡ true → (if b then x else y) ≡ x
if_true true x y h = refl
if_true false x y h = absurd (cc h)

-- What the callbacks of a transport and the handling of its messages do that find the client stopping:
-- nothing, but for the warning of a callback that found the inbox full before.
pub record IsQuiet (matches : String → String → Bool) (loads : List ℕ → Option Payload)
    (sample_socket : Option ℕ → Payload) (c : Client) : Type 0 where
  pub connects : (t : ℕ) (accepted : Bool) (now : ℕ) → on_connect matches t accepted now c ≡ (c, [])
  pub disconnects : (t now : ℕ) → on_disconnect t now c ≡ (c, [])
  pub logs : (t : ℕ) (message : String) (now : ℕ) → on_log sample_socket t message now c ≡ c
  pub opens :
      (t : ℕ) (current : Option ℕ) (sock now : ℕ)
      → on_socket_open sample_socket t current sock now c ≡ c
  pub drains :
      (t : ℕ) (current : Option ℕ) (want_write : Bool) (sock now : ℕ)
      → on_socket_unregister_write sample_socket t current want_write sock now c ≡ c
  pub closes : (t sock now : ℕ) → on_socket_close sample_socket t sock now c ≡ c
  pub queues : (t : ℕ) (m : Message) (received_at : ℕ) → enqueue t m received_at c ≡ (c, false)
  pub overflows :
      (t now : ℕ)
      → drop_message t now c ≡ (
          if leb (c.last_drop_log + drop_log_interval) now
          then (record c { last_drop_log = now }, warned_overflow ∷ [])
          else (c, []))
  pub handles : (r : Received) → handle_message matches loads r c ≡ (c, [])

-- Each of them looks whether the client is stopping.
pub stopping-IsQuiet :
    (matches : String → String → Bool) (loads : List ℕ → Option Payload)
    (sample_socket : Option ℕ → Payload) (c : Client)
    → c.stopping ≡ true
    → IsQuiet matches loads sample_socket c
unfolding on_connect on_disconnect on_log on_socket_open on_socket_unregister_write on_socket_close
    enqueue drop_message handle_message
stopping-IsQuiet matches loads sample_socket c h = record {
  connects = λ t accepted now. if_true _ _ _ (stale_of_stopping t c h);
  disconnects = λ t now. if_true _ _ _ (stale_of_stopping t c h);
  logs = λ t message now. let s = stale_of_stopping t c h in ground arith;
  opens = λ t current sock now. let s = stale_of_stopping t c h in ground arith;
  drains = λ t current want_write sock now. let s = stale_of_stopping t c h in ground arith;
  closes = λ t sock now. let s = stale_of_stopping t c h in ground arith;
  queues = λ t m received_at. if_true _ _ _ (stale_of_stopping t c h);
  overflows = λ t now. ap (warn_dropped now) (if_true _ _ _ (stale_of_stopping t c h));
  handles = λ r. if_true _ _ _ (stale_of_stopping r.transport c h);
}

pub begin_stop-WellFormed : (c : Client) → WellFormed c → WellFormed (begin_stop c)
unfolding begin_stop
begin_stop-WellFormed c w = record {
  events_bounded = w.events_bounded;
  inbox_bounded = let bound = w.inbox_bounded in let n = length-snoc c.inbox none in ground arith;
  ping_of_socket = w.ping_of_socket;
  report_reached = w.report_reached;
  session_known = refl;
}

pub finish_stop-WellFormed :
    (t : Threads) (c : Client) → c.connected ≡ false → WellFormed c → WellFormed (finish_stop t c)
unfolding finish_stop
finish_stop-WellFormed t c off w =
    by_threads (is_some (drop_ended t.worker) || is_some (drop_ended t.loop_thread))
  where
    by_threads :
        (b : Bool)
        → WellFormed (
            if b then c else record c {
              client = none;
              diagnostic_socket = none;
              pending_pingreq_generation = none;
              inbox = [];
              stopping = false;
            })
    by_threads true = w
    by_threads false = record {
      events_bounded = w.events_bounded;
      inbox_bounded = refl;
      ping_of_socket = refl;
      report_reached = w.report_reached;
      session_known = ground arith;
    }

-- A new transport, with whatever becomes of the worker's event.
owned-WellFormed :
    (transport : ℕ) (event : Bool) (c : Client)
    → WellFormed c
    → WellFormed (record c {
      client = some transport;
      stopping = false;
      connected = false;
      worker_stop = event;
    })
owned-WellFormed transport event c w = record {
  events_bounded = w.events_bounded;
  inbox_bounded = w.inbox_bounded;
  ping_of_socket = w.ping_of_socket;
  report_reached = w.report_reached;
  session_known = refl;
}

pub start_transport-WellFormed :
    (transport : ℕ) (loop_ok : Bool) (t : Threads) (c : Client)
    → WellFormed c
    → WellFormed (start_transport transport loop_ok t c).0
unfolding start_transport
start_transport-WellFormed transport loop_ok t c w = by_answers loop_ok (is_alive t.worker)
  where
    by_answers :
        (ok alive : Bool)
        → WellFormed
            (start_loop ok (
              if alive
              then (record c { client = some transport; stopping = false; connected = false }, t)
              else (
                record c {
                  client = some transport;
                  stopping = false;
                  connected = false;
                  worker_stop = false;
                },
                record t { worker = some true },
              ))).0
    by_answers true true = owned-WellFormed transport c.worker_stop c w
    by_answers true false = owned-WellFormed transport false c w
    by_answers false true = owned-WellFormed transport true c w
    by_answers false false = owned-WellFormed transport true c w
