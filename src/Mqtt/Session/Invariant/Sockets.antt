-- ===== src/Mqtt/Session/Invariant/Sockets.antt =====
-- The log and socket callbacks of src/mcp_venus_os/mqtt_client.py keep the session's invariant.
use mcp_venus_os.Prelude.{
  ℕ, ◌+◌, refl, String, Bool, true, false, not, ◌||◌, Option, none, some, [], str_eq, if◌then◌else◌,
  arith,
}
use mcp_venus_os.Value.{Payload}
use mcp_venus_os.Mqtt.{
  Client, EventKind, pingreq_attempt, pingresp_decoded, socket_close, socket_open,
  output_drained_after_pingreq, stale, is_transport, transport_event_limit,
}
use mcp_venus_os.Mqtt.Session.{
  record_transport_event, on_log, on_socket_open, on_socket_unregister_write, on_socket_close,
  same_revision,
}
use mcp_venus_os.Mqtt.Session.Invariant.{WellFormed, length-append_bounded, if-WellFormed}

module _ (sample_socket : Option ℕ → Payload) where
  record_transport_event-WellFormed :
      (kind : EventKind) (now : ℕ) (c : Client)
      → WellFormed c
      → WellFormed (record_transport_event sample_socket kind now c)
  unfolding record_transport_event
  record_transport_event-WellFormed kind now c w = record {
    events_bounded =
        length-append_bounded transport_event_limit c.transport_events _ refl w.events_bounded;
    inbox_bounded = w.inbox_bounded;
    ping_of_socket = w.ping_of_socket;
    report_reached = let r = w.report_reached in ground arith;
    session_known = w.session_known;
  }

  pub on_log-WellFormed :
      (t : ℕ) (message : String) (now : ℕ) (c : Client)
      → WellFormed c
      → WellFormed (on_log sample_socket t message now c)
  unfolding on_log
  on_log-WellFormed t message now c w =
      if-WellFormed (not (str_eq message "Sending PINGREQ" || str_eq message "Received PINGRESP")) c
        _ w
        (λ known.
          if-WellFormed (stale c t || not c.connected) c _ w
            (λ live. sent_or_received (str_eq message "Sending PINGREQ")))
    where
      sent_or_received :
          (sent : Bool)
          → WellFormed (
              if sent
              then record_transport_event sample_socket pingreq_attempt now (record c {
                last_pingreq_at = some now;
                pingreq_attempts = c.pingreq_attempts + 1;
                pending_pingreq_generation = some c.socket_generation;
              })
              else record_transport_event sample_socket pingresp_decoded now (record c {
                last_pingresp_at = some now;
                pingresp_received = c.pingresp_received + 1;
              }))
      sent_or_received true =
          record_transport_event-WellFormed pingreq_attempt now
            (record c {
              last_pingreq_at = some now;
              pingreq_attempts = c.pingreq_attempts + 1;
              pending_pingreq_generation = some c.socket_generation;
            })
            (record {
              events_bounded = w.events_bounded;
              inbox_bounded = w.inbox_bounded;
              ping_of_socket = ground arith;
              report_reached = w.report_reached;
              session_known = w.session_known;
            })
      sent_or_received false =
          record_transport_event-WellFormed pingresp_decoded now
            (record c { last_pingresp_at = some now; pingresp_received = c.pingresp_received + 1 })
            (record {
              events_bounded = w.events_bounded;
              inbox_bounded = w.inbox_bounded;
              ping_of_socket = w.ping_of_socket;
              report_reached = w.report_reached;
              session_known = w.session_known;
            })

  pub on_socket_open-WellFormed :
      (t : ℕ) (current : Option ℕ) (sock now : ℕ) (c : Client)
      → WellFormed c
      → WellFormed (on_socket_open sample_socket t current sock now c)
  unfolding on_socket_open
  on_socket_open-WellFormed t current sock now c w =
      if-WellFormed (stale c t || not (is_transport sock current)) c _ w (λ e.
        record_transport_event-WellFormed socket_open now
          (record c {
            socket_generation = c.socket_generation + 1;
            diagnostic_socket = some sock;
            pending_pingreq_generation = none;
            transport_events = [];
          })
          (record {
            events_bounded = refl;
            inbox_bounded = w.inbox_bounded;
            ping_of_socket = refl;
            report_reached = w.report_reached;
            session_known = w.session_known;
          }))

  -- A pending ping is settled, whatever socket is the diagnostic one.
  settled-WellFormed :
      (sock : Option ℕ) (c : Client)
      → WellFormed c
      → WellFormed (record c { diagnostic_socket = sock; pending_pingreq_generation = none })
  settled-WellFormed sock c w = record {
    events_bounded = w.events_bounded;
    inbox_bounded = w.inbox_bounded;
    ping_of_socket = refl;
    report_reached = w.report_reached;
    session_known = w.session_known;
  }

  pub on_socket_unregister_write-WellFormed :
      (t : ℕ) (current : Option ℕ) (want_write : Bool) (sock now : ℕ) (c : Client)
      → WellFormed c
      → WellFormed (on_socket_unregister_write sample_socket t current want_write sock now c)
  unfolding on_socket_unregister_write
  on_socket_unregister_write-WellFormed t current want_write sock now c w =
      if-WellFormed
        (stale c t
          || not c.connected
          || not (is_transport sock c.diagnostic_socket)
          || not (is_transport sock current)
          || want_write
          || not (same_revision c.pending_pingreq_generation c.socket_generation))
        c _ w
        (λ e.
          record_transport_event-WellFormed output_drained_after_pingreq now
            (record c { pending_pingreq_generation = none })
            (settled-WellFormed c.diagnostic_socket c w))

  pub on_socket_close-WellFormed :
      (t sock now : ℕ) (c : Client)
      → WellFormed c
      → WellFormed (on_socket_close sample_socket t sock now c)
  unfolding on_socket_close
  on_socket_close-WellFormed t sock now c w =
      if-WellFormed (stale c t || not (is_transport sock c.diagnostic_socket)) c _ w
        (λ e. settled-WellFormed none _ (record_transport_event-WellFormed socket_close now c w))
