-- ===== src/Mqtt/Reachable/Invariant.antt =====
-- What holds of the client of src/mcp_venus_os/mqtt_client.py after every sequence of moves.
use mcp_venus_os.Prelude.{ℕ, ◌≡◌, refl, String, Bool, Option, List, ◌∷◌, arith}
use mcp_venus_os.Value.{Payload}
use mcp_venus_os.Hardware.{HardwareWriteContract}
use mcp_venus_os.Mqtt.{Client, Received}
use mcp_venus_os.Mqtt.Session.Invariant.{
  WellFormed, initial-WellFormed, on_connect-WellFormed, on_disconnect-WellFormed,
}
use mcp_venus_os.Mqtt.Session.Invariant.Sockets.{
  on_log-WellFormed, on_socket_open-WellFormed, on_socket_unregister_write-WellFormed,
  on_socket_close-WellFormed,
}
use mcp_venus_os.Mqtt.Lifecycle.Quiet.{
  begin_stop-WellFormed, finish_stop-WellFormed, start_transport-WellFormed,
}
use mcp_venus_os.Mqtt.Steps.{enqueue-WellFormed, drop_message-WellFormed, handle_message-WellFormed}
use mcp_venus_os.Mqtt.Steps.Registering.{subscribe-WellFormed, unsubscribe-WellFormed}
use mcp_venus_os.Mqtt.Reachable.{Step, Move, Phase, Reachable}
use mcp_venus_os.Mqtt.Reachable.Stopping.{Halted, Reachable-Halted}

module _ (matches : String → String → Bool) (loads : List ℕ → Option Payload)
    (sample_socket : Option ℕ → Payload) where
  takes-WellFormed :
      (c : Client) (e : Option Received) (rest : List (Option Received))
      → c.inbox ≡ e ∷ rest
      → WellFormed c
      → WellFormed (record c { inbox = rest })
  takes-WellFormed c e rest p w = record {
    events_bounded = w.events_bounded;
    inbox_bounded = ground arith;
    ping_of_socket = w.ping_of_socket;
    report_reached = w.report_reached;
    session_known = w.session_known;
  }

  -- One step of any thread keeps the invariant.
  pub Step-WellFormed :
      {c d : Client} → Step matches loads sample_socket c d → WellFormed c → WellFormed d
  Step-WellFormed (Step.connects c t accepted now) w =
      on_connect-WellFormed matches t accepted now c w
  Step-WellFormed (Step.disconnects c t now) w = on_disconnect-WellFormed t now c w
  Step-WellFormed (Step.logs c t message now) w = on_log-WellFormed sample_socket t message now c w
  Step-WellFormed (Step.opens c t current sock now) w =
      on_socket_open-WellFormed sample_socket t current sock now c w
  Step-WellFormed (Step.drains c t current want_write sock now) w =
      on_socket_unregister_write-WellFormed sample_socket t current want_write sock now c w
  Step-WellFormed (Step.closes c t sock now) w =
      on_socket_close-WellFormed sample_socket t sock now c w
  Step-WellFormed (Step.queues c t m received_at) w = enqueue-WellFormed t m received_at c w
  Step-WellFormed (Step.overflows c t now) w = drop_message-WellFormed t now c w
  Step-WellFormed (Step.takes c e rest p) w = takes-WellFormed c e rest p w
  Step-WellFormed (Step.handles c r) w = handle_message-WellFormed matches loads r c w
  Step-WellFormed (Step.subscribes c pattern callback) w =
      subscribe-WellFormed matches pattern callback c w
  Step-WellFormed (Step.unsubscribes c pattern callback r e) w =
      unsubscribe-WellFormed matches pattern callback c r w e

  Move-WellFormed :
      {p q : Phase} {c d : Client}
      → Move matches loads sample_socket p c q d
      → Halted matches loads sample_socket p c
      → WellFormed c
      → WellFormed d
  Move-WellFormed (Move.runs s) h w = Step-WellFormed s w
  Move-WellFormed (Move.stops c) h w = begin_stop-WellFormed c w
  Move-WellFormed (Move.stopped c t) (s, off) w = finish_stop-WellFormed t c off w
  Move-WellFormed (Move.starts_transport c transport loop_ok t) h w =
      start_transport-WellFormed transport loop_ok t c w

  -- In every state that the callbacks, the worker and the callers reach in any order, with stops and
  -- starts of the transport that the lifecycle lock keeps apart, the ring holds
  -- at most 12 transport events and the inbox at most 50000 entries, a pending ping belongs to the
  -- current socket, the reported revision is at most the current one, and a connected client has a
  -- transport and the start of its session.
  pub Reachable-WellFormed :
      (portal : String) (contracts : List HardwareWriteContract) (p : Phase) (c : Client)
      → Reachable matches loads sample_socket portal contracts p c
      → WellFormed c
  Reachable-WellFormed portal contracts _ _ (Reachable.starts transport) =
      let w = initial-WellFormed portal contracts in
      record {
        events_bounded = w.events_bounded;
        inbox_bounded = w.inbox_bounded;
        ping_of_socket = w.ping_of_socket;
        report_reached = w.report_reached;
        session_known = refl;
      }
  Reachable-WellFormed portal contracts _ _ (Reachable.steps {p} c d r m) =
      Move-WellFormed m (Reachable-Halted matches loads sample_socket portal contracts p c r)
        (Reachable-WellFormed portal contracts p c r)
