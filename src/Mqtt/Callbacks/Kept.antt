-- ===== src/Mqtt/Callbacks/Kept.antt =====
-- What src/mcp_venus_os/mqtt_client.py does besides registering leaves the registered callbacks as they
-- are.
use mcp_venus_os.Prelude.{ℕ, ◌≡◌, refl, String, Bool, Option, List, arith}
use mcp_venus_os.Value.{Payload}
use mcp_venus_os.Mqtt.{Client, Message, Received, Registration}
use mcp_venus_os.Mqtt.Session.{
  begin_session, on_connect, on_disconnect, on_log, on_socket_open, on_socket_unregister_write,
  on_socket_close, record_transport_event,
}
use mcp_venus_os.Mqtt.Messages.{enqueue, drop_message, handle_message}
use mcp_venus_os.Mqtt.Lifecycle.{Threads, begin_stop, finish_stop, start_transport}

-- The callbacks and the number of the next registration.
abbrev pub registry : Client → List (String × Registration) × ℕ
registry c = (c.callbacks, c.callback_sequence)

pub handle_message-registry :
    (matches : String → String → Bool) (loads : List ℕ → Option Payload) (r : Received) (c : Client)
    → registry (handle_message matches loads r c).0 ≡ registry c
unfolding handle_message
handle_message-registry matches loads r c = ground arith

module _ (matches : String → String → Bool) where
  pub on_connect-registry :
      (t : ℕ) (accepted : Bool) (now : ℕ) (c : Client)
      → registry (on_connect matches t accepted now c).0 ≡ registry c
  unfolding on_connect begin_session
  on_connect-registry t accepted now c = ground arith

pub on_disconnect-registry :
    (t now : ℕ) (c : Client) → registry (on_disconnect t now c).0 ≡ registry c
unfolding on_disconnect
on_disconnect-registry t now c = ground arith

pub enqueue-registry :
    (t : ℕ) (m : Message) (received_at : ℕ) (c : Client)
    → registry (enqueue t m received_at c).0 ≡ registry c
unfolding enqueue
enqueue-registry t m received_at c = ground arith

pub drop_message-registry :
    (t now : ℕ) (c : Client) → registry (drop_message t now c).0 ≡ registry c
unfolding drop_message
drop_message-registry t now c = ground arith

pub begin_stop-registry : (c : Client) → registry (begin_stop c) ≡ registry c
unfolding begin_stop
begin_stop-registry c = refl

pub finish_stop-registry : (t : Threads) (c : Client) → registry (finish_stop t c) ≡ registry c
unfolding finish_stop
finish_stop-registry t c = ground arith

pub start_transport-registry :
    (transport : ℕ) (loop_ok : Bool) (t : Threads) (c : Client)
    → registry (start_transport transport loop_ok t c).0 ≡ registry c
unfolding start_transport
start_transport-registry transport loop_ok t c = ground arith

module _ (sample_socket : Option ℕ → Payload) where
  pub on_log-registry :
      (t : ℕ) (message : String) (now : ℕ) (c : Client)
      → registry (on_log sample_socket t message now c) ≡ registry c
  unfolding on_log record_transport_event
  on_log-registry t message now c = ground arith

  pub on_socket_open-registry :
      (t : ℕ) (current : Option ℕ) (sock now : ℕ) (c : Client)
      → registry (on_socket_open sample_socket t current sock now c) ≡ registry c
  unfolding on_socket_open record_transport_event
  on_socket_open-registry t current sock now c = ground arith

  pub on_socket_unregister_write-registry :
      (t : ℕ) (current : Option ℕ) (want_write : Bool) (sock now : ℕ) (c : Client)
      → registry (on_socket_unregister_write sample_socket t current want_write sock now c)
        ≡ registry c
  unfolding on_socket_unregister_write record_transport_event
  on_socket_unregister_write-registry t current want_write sock now c = ground arith

  pub on_socket_close-registry :
      (t sock now : ℕ) (c : Client)
      → registry (on_socket_close sample_socket t sock now c) ≡ registry c
  unfolding on_socket_close record_transport_event
  on_socket_close-registry t sock now c = ground arith
