-- ===== src/Mqtt/Steps.antt =====
-- The message steps of src/mcp_venus_os/mqtt_client.py keep the session's invariant.
pub mod Registering
use mcp_venus_os.Prelude.{
  ℕ, ◌+◌, ◌≡◌, refl, String, Bool, true, false, ◌&&◌, Option, none, some, List, [], ◌∷◌, ◌++◌,
  length, leb, ltb, str_eq, if◌then◌else◌, arith, insert,
}
use mcp_venus_os.Value.{Payload}
use mcp_venus_os.Mqtt.{
  Client, Message, Received, Registration, Effect, stale, serial_topic, inbox_maxsize,
}
use mcp_venus_os.Mqtt.Messages.{
  enqueue, drop_message, warn_dropped, drop_log_interval, is_cached_topic, is_empty_payload, unwrap,
  handle_message, decode, store,
}
use mcp_venus_os.Mqtt.Session.Invariant.{WellFormed, length-snoc, guard-WellFormed}

-- A change of the cache, the callbacks or the counters of messages leaves the session as it is.
abbrev pub changed :
    List (String × (Payload × ℕ))
    → Bool
    → List (String × Registration)
    → ℕ
    → Option ℕ
    → ℕ
    → ℕ
    → Client
    → Client
changed cache seen callbacks sequence last_received dropped logged c = record c {
  cache = cache;
  retained_serial_seen = seen;
  callbacks = callbacks;
  callback_sequence = sequence;
  last_received_at = last_received;
  inbox_dropped = dropped;
  last_drop_log = logged;
}

pub changed-WellFormed :
    (cache : List (String × (Payload × ℕ))) (seen : Bool) (callbacks : List (String × Registration))
    (sequence : ℕ) (last_received : Option ℕ) (dropped logged : ℕ) (c : Client)
    → WellFormed c
    → WellFormed (changed cache seen callbacks sequence last_received dropped logged c)
changed-WellFormed cache seen callbacks sequence last_received dropped logged c w = record {
  events_bounded = w.events_bounded;
  inbox_bounded = w.inbox_bounded;
  ping_of_socket = w.ping_of_socket;
  report_reached = w.report_reached;
  session_known = w.session_known;
}

recached-WellFormed :
    (cache : List (String × (Payload × ℕ))) (seen : Bool) (c : Client)
    → WellFormed c
    → WellFormed (record c { cache = cache; retained_serial_seen = seen })
recached-WellFormed cache seen c w =
    changed-WellFormed cache seen c.callbacks c.callback_sequence c.last_received_at c.inbox_dropped
      c.last_drop_log c w

pub relisted-WellFormed :
    (callbacks : List (String × Registration)) (sequence : ℕ) (c : Client)
    → WellFormed c
    → WellFormed (record c { callbacks = callbacks; callback_sequence = sequence })
relisted-WellFormed callbacks sequence c w =
    changed-WellFormed c.cache c.retained_serial_seen callbacks sequence c.last_received_at
      c.inbox_dropped c.last_drop_log c w

counted-WellFormed :
    (last_received : Option ℕ) (dropped logged : ℕ) (c : Client)
    → WellFormed c
    → WellFormed (record c {
      last_received_at = last_received;
      inbox_dropped = dropped;
      last_drop_log = logged;
    })
counted-WellFormed last_received dropped logged c w =
    changed-WellFormed c.cache c.retained_serial_seen c.callbacks c.callback_sequence last_received
      dropped logged c w

branch-WellFormed :
    (b : Bool) (r q : Client × List Effect)
    → (b ≡ true → WellFormed r.0)
    → (b ≡ false → WellFormed q.0)
    → WellFormed (if b then r else q).0
branch-WellFormed true r q f g = f refl
branch-WellFormed false r q f g = g refl

warn_dropped-WellFormed : (now : ℕ) (c : Client) → WellFormed c → WellFormed (warn_dropped now c).0
warn_dropped-WellFormed now c w =
    branch-WellFormed (leb (c.last_drop_log + drop_log_interval) now) _ _
      (λ e. counted-WellFormed c.last_received_at c.inbox_dropped now c w) (λ e. w)

pub drop_message-WellFormed :
    (t now : ℕ) (c : Client) → WellFormed c → WellFormed (drop_message t now c).0
unfolding drop_message
drop_message-WellFormed t now c w = by_test (stale c t)
  where
    by_test :
        (b : Bool)
        → WellFormed
            (warn_dropped now (if b then c else record c { inbox_dropped = c.inbox_dropped + 1 })).0
    by_test true = warn_dropped-WellFormed now c w
    by_test false =
        warn_dropped-WellFormed now (record c { inbox_dropped = c.inbox_dropped + 1 })
          (counted-WellFormed c.last_received_at (c.inbox_dropped + 1) c.last_drop_log c w)

pub enqueue-WellFormed :
    (t : ℕ) (m : Message) (received_at : ℕ) (c : Client)
    → WellFormed c
    → WellFormed (enqueue t m received_at c).0
unfolding enqueue
enqueue-WellFormed t m received_at c w =
    by_tests (stale c t) (ltb (length c.inbox) inbox_maxsize) refl
  where
    entry : Option Received
    entry = some (record { transport = t; message = m; received_at = received_at })

    fits :
        ltb (length c.inbox) inbox_maxsize ≡ true
        → WellFormed
            (record c { last_received_at = some received_at; inbox = c.inbox ++ entry ∷ [] })
    fits e = record {
      events_bounded = w.events_bounded;
      inbox_bounded = let n = length-snoc c.inbox entry in ground arith;
      ping_of_socket = w.ping_of_socket;
      report_reached = w.report_reached;
      session_known = w.session_known;
    }

    left : Client × Bool → Client
    left r = r.0

    by_tests :
        (a b : Bool)
        → ltb (length c.inbox) inbox_maxsize ≡ b
        → WellFormed (
            left (
              if a
              then (c, false)
              else if b
              then (
                record c { last_received_at = some received_at; inbox = c.inbox ++ entry ∷ [] },
                false,
              )
              else (record c { last_received_at = some received_at }, true)))
    by_tests true b e = w
    by_tests false true e = fits e
    by_tests false false e =
        counted-WellFormed (some received_at) c.inbox_dropped c.last_drop_log c w

module _ (matches : String → String → Bool) (loads : List ℕ → Option Payload) where
  store-WellFormed :
      (m : Message) (p : Payload) (received_at : ℕ) (c : Client)
      → WellFormed c
      → WellFormed (store matches loads m p received_at c).0
  store-WellFormed m p received_at c w =
      branch-WellFormed (str_eq m.topic (serial_topic c) && m.retain) _ _
        (λ e. recached-WellFormed c.cache true c w)
        (λ e. cached_or_not (is_cached_topic matches loads m.topic c))
    where
      cached_or_not :
          (b : Bool)
          → WellFormed
              (if b then record c { cache = insert m.topic (p, received_at) c.cache } else c)
      cached_or_not true =
          recached-WellFormed (insert m.topic (p, received_at) c.cache) c.retained_serial_seen c w
      cached_or_not false = w

  decode-WellFormed :
      (m : Message) (received_at : ℕ) (o : Option Payload) (c : Client)
      → WellFormed c
      → WellFormed (decode matches loads m received_at o c).0
  decode-WellFormed m received_at none c w = w
  decode-WellFormed m received_at (some p) c w = store-WellFormed m (unwrap p) received_at c w

  pub handle_message-WellFormed :
      (r : Received) (c : Client) → WellFormed c → WellFormed (handle_message matches loads r c).0
  unfolding handle_message
  handle_message-WellFormed r c w = guard-WellFormed (stale c r.transport) c _ w (λ e.
      branch-WellFormed (is_empty_payload matches loads r.message.payload) _ _
        (λ empty. recached-WellFormed _ _ c w)
        (λ full. decode-WellFormed r.message r.received_at (loads r.message.payload) c w))
