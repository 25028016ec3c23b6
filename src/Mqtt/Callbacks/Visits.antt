-- ===== src/Mqtt/Callbacks/Visits.antt =====
-- The order in which paho's index visits the patterns that match a topic, in
-- src/mcp_venus_os/mqtt_client.py: it does not show in what is delivered.
use mathlib.Core.List.{Permᴰ}
use mcp_venus_os.Prelude.{ℕ, ◌≡◌, refl, sym, ap, String, Bool, Option, List, map, subst}
use mcp_venus_os.Value.{Payload}
use mcp_venus_os.Hardware.{HardwareWriteContract}
use mcp_venus_os.Mqtt.{Registration, Client, delivered}
use mcp_venus_os.Mqtt.Callbacks.{flatten_callbacks, matching, deliver_visited, notify_callbacks}
use mcp_venus_os.Mqtt.Callbacks.Sorting.{by_sequence-Perm}
use mcp_venus_os.Mqtt.Callbacks.Numbered.{
  IsNumbered, subscribe-IsNumbered, unsubscribe-IsNumbered, matching-Distinct,
}
use mcp_venus_os.Mqtt.Callbacks.Kept.{
  registry, handle_message-registry, on_connect-registry, on_disconnect-registry, enqueue-registry,
  drop_message-registry, begin_stop-registry, finish_stop-registry, start_transport-registry,
  on_log-registry, on_socket_open-registry, on_socket_unregister_write-registry,
  on_socket_close-registry,
}
use mcp_venus_os.Mqtt.Reachable.{Phase, Step, Move, Reachable}

abbrev Numbering : Client → Type 0
Numbering c = IsNumbered c.callbacks c.callback_sequence

kept-Numbering :
    (r q : List (String × Registration) × ℕ) → q ≡ r → IsNumbered r.0 r.1 → IsNumbered q.0 q.1
kept-Numbering r q e i = subst (λ x. IsNumbered x.0 x.1) (sym e) i

module _ (matches : String → String → Bool) (loads : List ℕ → Option Payload)
    (sample_socket : Option ℕ → Payload) where
  Step-Numbering : {c d : Client} → Step matches loads sample_socket c d → Numbering c → Numbering d
  Step-Numbering (Step.connects c t accepted now) i =
      kept-Numbering (registry c) _ (on_connect-registry matches t accepted now c) i
  Step-Numbering (Step.disconnects c t now) i =
      kept-Numbering (registry c) _ (on_disconnect-registry t now c) i
  Step-Numbering (Step.logs c t message now) i =
      kept-Numbering (registry c) _ (on_log-registry sample_socket t message now c) i
  Step-Numbering (Step.opens c t current sock now) i =
      kept-Numbering (registry c) _ (on_socket_open-registry sample_socket t current sock now c) i
  Step-Numbering (Step.drains c t current want_write sock now) i =
      kept-Numbering (registry c) _
        (on_socket_unregister_write-registry sample_socket t current want_write sock now c) i
  Step-Numbering (Step.closes c t sock now) i =
      kept-Numbering (registry c) _ (on_socket_close-registry sample_socket t sock now c) i
  Step-Numbering (Step.queues c t m received_at) i =
      kept-Numbering (registry c) _ (enqueue-registry t m received_at c) i
  Step-Numbering (Step.overflows c t now) i =
      kept-Numbering (registry c) _ (drop_message-registry t now c) i
  Step-Numbering (Step.takes c e rest p) i = i
  Step-Numbering (Step.handles c r) i =
      kept-Numbering (registry c) _ (handle_message-registry matches loads r c) i
  Step-Numbering (Step.subscribes c pattern callback) i =
      subscribe-IsNumbered matches pattern callback c i
  Step-Numbering (Step.unsubscribes c pattern callback r e) i =
      unsubscribe-IsNumbered matches pattern callback c r i e

  Move-Numbering :
      {p q : Phase} {c d : Client}
      → Move matches loads sample_socket p c q d
      → Numbering c
      → Numbering d
  Move-Numbering (Move.runs s) i = Step-Numbering s i
  Move-Numbering (Move.stops c) i = kept-Numbering (registry c) _ (begin_stop-registry c) i
  Move-Numbering (Move.stopped c t) i = kept-Numbering (registry c) _ (finish_stop-registry t c) i
  Move-Numbering (Move.starts_transport c transport loop_ok t) i =
      kept-Numbering (registry c) _ (start_transport-registry transport loop_ok t c) i

  Reachable-Numbering :
      (portal : String) (contracts : List HardwareWriteContract) (p : Phase) (c : Client)
      → Reachable matches loads sample_socket portal contracts p c
      → Numbering c
  Reachable-Numbering portal contracts _ _ (Reachable.starts transport) = record {
    below = λ n l. refl;
    differ = λ n. refl;
  }
  Reachable-Numbering portal contracts _ _ (Reachable.steps {p} c d r m) =
      Move-Numbering m (Reachable-Numbering portal contracts p c r)

  -- In every state that the client's threads reach in any order, whatever order the index visits the
  -- matching registrations in, a payload is delivered to the same callbacks in the same order as when
  -- they are visited in the order of the dictionary.
  pub notify_callbacks-visited :
      (portal : String) (contracts : List HardwareWriteContract) (p : Phase) (c : Client)
      → Reachable matches loads sample_socket portal contracts p c
      → (topic : String) (payload : Payload) (visited : List Registration)
      → Permᴰ (matching matches topic c.callbacks) visited
      → deliver_visited payload visited ≡ notify_callbacks matches topic payload c
  unfolding notify_callbacks
  notify_callbacks-visited portal contracts p c r topic payload visited order =
      ap (λ rs. map (λ callback. delivered callback payload) (flatten_callbacks rs))
        (sym (
          by_sequence-Perm order (
            matching-Distinct matches topic c.callbacks c.callback_sequence
              (Reachable-Numbering portal contracts p c r))))
