-- ===== src/Mqtt/Registers/Kept.antt =====
-- What src/mcp_venus_os/mqtt_client.py does besides handling a message leaves the cache as it is.
use mcp_venus_os.Prelude.{ℕ, ◌≡◌, refl, String, Bool, Option, some, List, arith}
use mcp_venus_os.Value.{Payload}
use mcp_venus_os.Mqtt.{Client, Message, Effect}
use mcp_venus_os.Mqtt.Session.{
  begin_session, on_connect, on_disconnect, on_log, on_socket_open, on_socket_unregister_write,
  on_socket_close, record_transport_event,
}
use mcp_venus_os.Mqtt.Callbacks.{subscribe, unsubscribe}
use mcp_venus_os.Mqtt.Messages.{enqueue, drop_message}
use mcp_venus_os.Mqtt.Lifecycle.{Threads, begin_stop, finish_stop, start_transport}

module _ (matches : String → String → Bool) where
  pub on_connect-cache :
      (t : ℕ) (accepted : Bool) (now : ℕ) (c : Client)
      → (on_connect matches t accepted now c).0.cache ≡ c.cache
  unfolding on_connect begin_session
  on_connect-cache t accepted now c = ground arith

  pub subscribe-cache :
      (pattern : String) (callback : ℕ) (c : Client)
      → (subscribe matches pattern callback c).0.cache ≡ c.cache
  unfolding subscribe
  subscribe-cache pattern callback c = ground arith

  pub unsubscribe-cache :
      (pattern : String) (callback : ℕ) (c : Client) (r : Client × List Effect)
      → unsubscribe matches pattern callback c ≡ some r
      → r.0.cache ≡ c.cache
  unfolding unsubscribe
  unsubscribe-cache pattern callback c r e = ground arith

pub on_disconnect-cache : (t now : ℕ) (c : Client) → (on_disconnect t now c).0.cache ≡ c.cache
unfolding on_disconnect
on_disconnect-cache t now c = ground arith

pub enqueue-cache :
    (t : ℕ) (m : Message) (received_at : ℕ) (c : Client)
    → (enqueue t m received_at c).0.cache ≡ c.cache
unfolding enqueue
enqueue-cache t m received_at c = ground arith

pub drop_message-cache : (t now : ℕ) (c : Client) → (drop_message t now c).0.cache ≡ c.cache
unfolding drop_message
drop_message-cache t now c = ground arith

pub begin_stop-cache : (c : Client) → (begin_stop c).cache ≡ c.cache
unfolding begin_stop
begin_stop-cache c = refl

pub finish_stop-cache : (t : Threads) (c : Client) → (finish_stop t c).cache ≡ c.cache
unfolding finish_stop
finish_stop-cache t c = ground arith

pub start_transport-cache :
    (transport : ℕ) (loop_ok : Bool) (t : Threads) (c : Client)
    → (start_transport transport loop_ok t c).0.cache ≡ c.cache
unfolding start_transport
start_transport-cache transport loop_ok t c = ground arith

module _ (sample_socket : Option ℕ → Payload) where
  pub on_log-cache :
      (t : ℕ) (message : String) (now : ℕ) (c : Client)
      → (on_log sample_socket t message now c).cache ≡ c.cache
  unfolding on_log record_transport_event
  on_log-cache t message now c = ground arith

  pub on_socket_open-cache :
      (t : ℕ) (current : Option ℕ) (sock now : ℕ) (c : Client)
      → (on_socket_open sample_socket t current sock now c).cache ≡ c.cache
  unfolding on_socket_open record_transport_event
  on_socket_open-cache t current sock now c = ground arith

  pub on_socket_unregister_write-cache :
      (t : ℕ) (current : Option ℕ) (want_write : Bool) (sock now : ℕ) (c : Client)
      → (on_socket_unregister_write sample_socket t current want_write sock now c).cache ≡ c.cache
  unfolding on_socket_unregister_write record_transport_event
  on_socket_unregister_write-cache t current want_write sock now c = ground arith

  pub on_socket_close-cache :
      (t sock now : ℕ) (c : Client) → (on_socket_close sample_socket t sock now c).cache ≡ c.cache
  unfolding on_socket_close record_transport_event
  on_socket_close-cache t sock now c = ground arith
