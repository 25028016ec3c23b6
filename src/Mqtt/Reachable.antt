-- ===== src/Mqtt/Reachable.antt =====
-- Every order of the steps of src/mcp_venus_os/mqtt_client.py: the callbacks of the network thread, the
-- worker that takes a message and handles it, and the callers that register callbacks, each step what
-- one thread does in one piece; and the stops and starts of the transport under the lifecycle lock.
pub mod Stopping
pub mod Invariant
use mcp_venus_os.Prelude.{ℕ, ◌≡◌, String, Bool, Option, some, List, ◌∷◌, arith}
use mcp_venus_os.Value.{Payload}
use mcp_venus_os.Hardware.{HardwareWriteContract}
use mcp_venus_os.Mqtt.{Client, Message, Received, Effect, initial}
use mcp_venus_os.Mqtt.Session.{
  on_connect, on_disconnect, on_log, on_socket_open, on_socket_unregister_write, on_socket_close,
}
use mcp_venus_os.Mqtt.Callbacks.{subscribe, unsubscribe}
use mcp_venus_os.Mqtt.Messages.{enqueue, drop_message, handle_message}
use mcp_venus_os.Mqtt.Lifecycle.{Threads, begin_stop, finish_stop, start_transport}

-- Whether a stop of the transport is under way, between the two parts that surround its joins. The
-- lifecycle lock lets no other stop or start begin meanwhile.
pub data Phase : Type 0 where
  unlocked in_stop : Phase

module _ (matches : String → String → Bool) (loads : List ℕ → Option Payload)
    (sample_socket : Option ℕ → Payload) where
  -- What one thread does in one piece.
  pub data Step : Client → Client → Type 0 where
    connects :
        (c : Client) (t : ℕ) (accepted : Bool) (now : ℕ)
        → Step c (on_connect matches t accepted now c).0
    disconnects : (c : Client) (t now : ℕ) → Step c (on_disconnect t now c).0
    logs :
        (c : Client) (t : ℕ) (message : String) (now : ℕ)
        → Step c (on_log sample_socket t message now c)
    opens :
        (c : Client) (t : ℕ) (current : Option ℕ) (sock now : ℕ)
        → Step c (on_socket_open sample_socket t current sock now c)
    drains :
        (c : Client) (t : ℕ) (current : Option ℕ) (want_write : Bool) (sock now : ℕ)
        → Step c (on_socket_unregister_write sample_socket t current want_write sock now c)
    closes : (c : Client) (t sock now : ℕ) → Step c (on_socket_close sample_socket t sock now c)
    queues :
        (c : Client) (t : ℕ) (m : Message) (received_at : ℕ) → Step c (enqueue t m received_at c).0
    -- The second part of a callback that found the inbox full.
    overflows : (c : Client) (t now : ℕ) → Step c (drop_message t now c).0
    -- The worker takes the first entry, and handles one that it took.
    takes :
        (c : Client) (e : Option Received) (rest : List (Option Received))
        → c.inbox ≡ e ∷ rest
        → Step c (record c { inbox = rest })
    handles : (c : Client) (r : Received) → Step c (handle_message matches loads r c).0
    subscribes :
        (c : Client) (pattern : String) (callback : ℕ)
        → Step c (subscribe matches pattern callback c).0
    unsubscribes :
        (c : Client) (pattern : String) (callback : ℕ) (r : Client × List Effect)
        → unsubscribe matches pattern callback c ≡ some r
        → Step c r.0

  -- A step of a thread, which may come at any time, and what is done under the lifecycle lock: a stop
  -- begins, it ends when the threads that it joined are as they are, or a transport is started.
  pub data Move : Phase → Client → Phase → Client → Type 0 where
    runs : {p : Phase} {c d : Client} → Step c d → Move p c p d
    stops : (c : Client) → Move unlocked c in_stop (begin_stop c)
    stopped : (c : Client) (t : Threads) → Move in_stop c unlocked (finish_stop t c)
    starts_transport :
        (c : Client) (transport : ℕ) (loop_ok : Bool) (t : Threads)
        → Move unlocked c unlocked (start_transport transport loop_ok t c).0

  -- The states that some sequence of moves leads to, from a new client that is given a transport.
  pub data Reachable (portal : String) (contracts : List HardwareWriteContract)
      : Phase → Client → Type 0 where
    starts :
        (transport : Option ℕ)
        → Reachable portal contracts unlocked
            (record (initial portal contracts) { client = transport })
    steps :
        {p q : Phase} (c d : Client)
        → Reachable portal contracts p c
        → Move p c q d
        → Reachable portal contracts q d
