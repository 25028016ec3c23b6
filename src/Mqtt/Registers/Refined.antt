-- ===== src/Mqtt/Registers/Refined.antt =====
-- The cache of src/mcp_venus_os/mqtt_client.py implements the registers, whatever the threads do.
use mcp_venus_os.Prelude.{
  ℕ, ◌≡◌, refl, ap, ◌∙◌, String, Bool, true, false, not, ◌&&◌, ◌||◌, Option, none, some, List, [],
  lookup, str_eq, if◌then◌else◌,
}
use mcp_venus_os.Value.{Payload}
use mcp_venus_os.Hardware.{HardwareWriteContract}
use mcp_venus_os.Mqtt.{Client, Received, stale, serial_topic}
use mcp_venus_os.Mqtt.Messages.{
  is_cached_topic, is_empty_payload, unwrap, handle_message, decode, forget,
}
use mcp_venus_os.Mqtt.Messages.Caching.{entry_at, fst_of, stored_entry, forgotten_entry}
use mcp_venus_os.Mqtt.Reachable.{Phase, Step, Move, Reachable}
use mcp_venus_os.Mqtt.Registers.{
  Registers, Saying, obey, decoded_saying, saying, act, act_move, registers_of,
}
use mcp_venus_os.Mqtt.Registers.Kept.{
  on_connect-cache, subscribe-cache, unsubscribe-cache, on_disconnect-cache, enqueue-cache,
  drop_message-cache, begin_stop-cache, finish_stop-cache, start_transport-cache, on_log-cache,
  on_socket_open-cache, on_socket_unregister_write-cache, on_socket_close-cache,
}

abbrev Cache : Type 0
Cache = List (String × (Payload × ℕ))

-- Each register holds what the cache has under its topic.
abbrev Refines : Cache → Registers → Type 0
Refines cache registers = (x : String) → lookup x cache ≡ registers x

kept-Refines :
    (k l : Cache) (registers : Registers) → l ≡ k → Refines k registers → Refines l registers
kept-Refines k l registers same h x = ap (lookup x) same ∙ h x

-- A message does the same to registers that hold the same.
obey-same :
    (s : Saying) (topic : String) (f g : Registers)
    → ((x : String) → f x ≡ g x)
    → (x : String) → obey s topic f x ≡ obey s topic g x
obey-same Saying.silence topic f g h x = h x
obey-same Saying.removal topic f g h x = rw (h x) refl
obey-same (Saying.arrival value at) topic f g h x = rw (h x) refl

module _ (matches : String → String → Bool) (loads : List ℕ → Option Payload) where
  abbrev held : Client → Registers
  held c x = entry_at matches loads x c

  decode-obeys :
      (c : Client) (r : Received) (o : Option Payload) (x : String)
      → entry_at matches loads x (fst_of (decode matches loads r.message r.received_at o c))
        ≡ obey (decoded_saying matches loads c r o) r.message.topic (held c) x
  decode-obeys c r none x = refl
  decode-obeys c r (some p) x =
      stored_entry matches loads x r.message (unwrap p) r.received_at c
      ∙ by_test (
          (str_eq r.message.topic (serial_topic c) && r.message.retain)
          || not (is_cached_topic matches loads r.message.topic c))
    where
      by_test :
          (b : Bool)
          → (if b
              then entry_at matches loads x c
              else if str_eq r.message.topic x
              then some (unwrap p, r.received_at)
              else entry_at matches loads x c)
            ≡ obey
                (if b then Saying.silence else Saying.arrival (unwrap p) r.received_at)
                r.message.topic
                (held c)
                x
      by_test true = refl
      by_test false = refl

  -- A message that is handled does to the cache what it says.
  handle_message-obeys :
      (r : Received) (c : Client) (x : String)
      → entry_at matches loads x (handle_message matches loads r c).0
        ≡ obey (saying matches loads c r) r.message.topic (held c) x
  unfolding handle_message
  handle_message-obeys r c x =
      by_tests (stale c r.transport) (is_empty_payload matches loads r.message.payload)
    where
      by_tests :
          (a b : Bool)
          → entry_at matches loads x (
              fst_of (
                if a
                then (c, [])
                else if b
                then (forget matches loads r.message.topic c, [])
                else decode matches loads r.message r.received_at (loads r.message.payload) c))
            ≡ obey
                (if a
                  then Saying.silence
                  else if b
                  then Saying.removal
                  else decoded_saying matches loads c r (loads r.message.payload))
                r.message.topic
                (held c)
                x
      by_tests true b = refl
      by_tests false true = forgotten_entry matches loads x r.message.topic c
      by_tests false false = decode-obeys c r (loads r.message.payload) x

  module _ (sample_socket : Option ℕ → Payload) where
    -- One step of any thread is one step of the registers.
    Step-Refines :
        {c d : Client} (s : Step matches loads sample_socket c d) (registers : Registers)
        → Refines c.cache registers
        → Refines d.cache (act matches loads sample_socket s registers)
    Step-Refines (Step.connects c t accepted now) registers h =
        kept-Refines c.cache _ registers (on_connect-cache matches t accepted now c) h
    Step-Refines (Step.disconnects c t now) registers h =
        kept-Refines c.cache _ registers (on_disconnect-cache t now c) h
    Step-Refines (Step.logs c t message now) registers h =
        kept-Refines c.cache _ registers (on_log-cache sample_socket t message now c) h
    Step-Refines (Step.opens c t current sock now) registers h =
        kept-Refines c.cache _ registers (on_socket_open-cache sample_socket t current sock now c) h
    Step-Refines (Step.drains c t current want_write sock now) registers h =
        kept-Refines c.cache _ registers
          (on_socket_unregister_write-cache sample_socket t current want_write sock now c) h
    Step-Refines (Step.closes c t sock now) registers h =
        kept-Refines c.cache _ registers (on_socket_close-cache sample_socket t sock now c) h
    Step-Refines (Step.queues c t m received_at) registers h =
        kept-Refines c.cache _ registers (enqueue-cache t m received_at c) h
    Step-Refines (Step.overflows c t now) registers h =
        kept-Refines c.cache _ registers (drop_message-cache t now c) h
    Step-Refines (Step.takes c e rest p) registers h = h
    Step-Refines (Step.handles c r) registers h = λ x.
        handle_message-obeys r c x
        ∙ obey-same (saying matches loads c r) r.message.topic (held c) registers h x
    Step-Refines (Step.subscribes c pattern callback) registers h =
        kept-Refines c.cache _ registers (subscribe-cache matches pattern callback c) h
    Step-Refines (Step.unsubscribes c pattern callback r e) registers h =
        kept-Refines c.cache _ registers (unsubscribe-cache matches pattern callback c r e) h

    Move-Refines :
        {p q : Phase} {c d : Client} (m : Move matches loads sample_socket p c q d)
        (registers : Registers)
        → Refines c.cache registers
        → Refines d.cache (act_move matches loads sample_socket m registers)
    Move-Refines (Move.runs s) registers h = Step-Refines s registers h
    Move-Refines (Move.stops c) registers h =
        kept-Refines c.cache _ registers (begin_stop-cache c) h
    Move-Refines (Move.stopped c t) registers h =
        kept-Refines c.cache _ registers (finish_stop-cache t c) h
    Move-Refines (Move.starts_transport c transport loop_ok t) registers h =
        kept-Refines c.cache _ registers (start_transport-cache transport loop_ok t c) h

    -- After any run of the client's threads in any order, the cache has under each topic what the
    -- register of the topic holds when the messages of the run are obeyed in the order in which they
    -- were handled, from empty registers.
    pub Reachable-Refines :
        (portal : String) (contracts : List HardwareWriteContract) (p : Phase) (c : Client)
        (run : Reachable matches loads sample_socket portal contracts p c) (x : String)
        → lookup x c.cache ≡ registers_of matches loads sample_socket portal contracts run x
    unfolding lookup
    Reachable-Refines portal contracts _ _ (Reachable.starts transport) x = refl
    Reachable-Refines portal contracts _ _ (Reachable.steps {p} c d run m) x =
        Move-Refines m (registers_of matches loads sample_socket portal contracts run)
          (Reachable-Refines portal contracts p c run) x
