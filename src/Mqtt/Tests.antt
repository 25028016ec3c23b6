-- ===== src/Mqtt/Tests.antt =====
-- Runs of the client of src/mcp_venus_os/mqtt_client.py, and the theorems at those inputs.
use mathlib.Core.List.{Memᴰ}
use mcp_venus_os.Prelude.{
  ℕ, ◌≡◌, ◌↔◌, inr, has_char, refl, String, Bool, arith, if◌then◌else◌, true, false, Option, none,
  some, List, [], ◌∷◌, lookup, str_eq, starts_with, leb, show_ℤ,
}
use mcp_venus_os.Prelude.Int.{ℤ, pos}
use mcp_venus_os.Value.{Payload, num, int, null}
use mcp_venus_os.Telemetry.{required_topics}
use mcp_venus_os.Telemetry.Refresh.{IsWanted, refresh_topics_iff}
use mcp_venus_os.Mqtt.{Client, Received, initial}
use mcp_venus_os.Mqtt.Session.{on_connect, on_disconnect, explicit_patterns}
use mcp_venus_os.Mqtt.Session.Invariant.{WellFormed}
use mcp_venus_os.Mqtt.Messages.{drop_message, drop_log_interval, handle_message}
use mcp_venus_os.Mqtt.Registers.{registers_of}
use mcp_venus_os.Mqtt.Registers.Refined.{Reachable-Refines}
use mcp_venus_os.Mqtt.Cache.{read_path_since}
use mcp_venus_os.Mqtt.Cache.Fresh.{age_at, read_path_since_iff}
use mcp_venus_os.Mqtt.Worker.{Round, Task, process_inbox}
use mcp_venus_os.Mqtt.Worker.Paced.{handled, obtained, IsPaced, process_inbox-IsPaced}
use mcp_venus_os.Mqtt.Lifecycle.{
  Threads, begin_stop, finish_stop, wait_connected, connect_wait_steps,
}
use mcp_venus_os.Mqtt.Feed.{Feed, maintain_read_feed, refresh_candidates}
use mcp_venus_os.Mqtt.Feed.Bounded.{IsReadOnly, maintain_read_feed-IsReadOnly}
use mcp_venus_os.Mqtt.Feed.Drains.{Tick, IsLive, IsRequested}
use mcp_venus_os.Mqtt.Feed.Draining.{run_ticks, StaysEligible, run_ticks-IsRequested}
use mcp_venus_os.Mqtt.Devices.{list_devices}
use mcp_venus_os.Mqtt.Devices.Shaped.{IsTopicOf, list_devices-Shaped}
use mcp_venus_os.Mqtt.Reachable.{Reachable, Step, Move, unlocked}
use mcp_venus_os.Mqtt.Reachable.Stopping.{During, IsHeld, During-IsHeld}
use mcp_venus_os.Mqtt.Reachable.Invariant.{Reachable-WellFormed}

-- A decoder that reads every payload as 5, and no socket metadata.
abbrev five : Payload
five = num (int (pos 5))

abbrev loads : List ℕ → Option Payload
loads bytes = some five

abbrev no_sample : Option ℕ → Payload
no_sample sock = null

abbrev new_client : Client
new_client = record (initial "p" []) { client = some 7 }

abbrev soc_topic : String
soc_topic = "N/p/battery/0/Soc"

abbrev soc_message : Received
soc_message = record {
  transport = 7;
  message = record { topic = soc_topic; payload = 53 ∷ []; retain = false };
  received_at = 3;
}

abbrev with_soc : Client
with_soc = record new_client { cache = (soc_topic, (five, 3)) ∷ [] }

read_path_since_iff_example :
    (read_path_since 10 with_soc "battery" (pos 0) "Soc" 4 ≡ some (five, age_at 10 3)) ↔ (
      (at : ℕ) × (lookup soc_topic with_soc.cache ≡ some (five, at))
      × (leb 4 at ≡ true)
      × (age_at 10 3 ≡ age_at 10 at))
unfolding show_ℤ
read_path_since_iff_example =
    read_path_since_iff 10 with_soc "battery" (pos 0) "Soc" 4 five (age_at 10 3)

-- A connection, a stop with a disconnection meanwhile, and its end.
abbrev connected_client : Client
connected_client = (on_connect str_eq 7 true 5 new_client).0

abbrev ended : Threads
ended = record { worker = some false; loop_thread = none }

stopped_run :
    Reachable str_eq loads no_sample "p" [] unlocked
      (finish_stop ended (on_disconnect 7 12 (begin_stop connected_client)).0)
stopped_run =
    Reachable.steps _ _
      (Reachable.steps _ _
        (Reachable.steps _ _
          (Reachable.steps _ _ (Reachable.starts (some 7))
            (Move.runs (Step.connects new_client 7 true 5)))
          (Move.stops connected_client))
        (Move.runs (Step.disconnects (begin_stop connected_client) 7 12)))
      (Move.stopped (on_disconnect 7 12 (begin_stop connected_client)).0 ended)

Reachable-WellFormed_example :
    WellFormed (finish_stop ended (on_disconnect 7 12 (begin_stop connected_client)).0)
Reachable-WellFormed_example =
    Reachable-WellFormed str_eq loads no_sample "p" [] unlocked
      (finish_stop ended (on_disconnect 7 12 (begin_stop connected_client)).0) stopped_run

-- A run that handles a message.
abbrev handled_run :
    Reachable str_eq loads no_sample "p" [] unlocked
      (handle_message str_eq loads soc_message new_client).0
handled_run =
    Reachable.steps _ _ (Reachable.starts (some 7))
      (Move.runs (Step.handles new_client soc_message))

handled_register : registers_of str_eq loads no_sample "p" [] handled_run soc_topic ≡ some (five, 3)
unfolding starts_with
handled_register = refl

Reachable-Refines_example :
    lookup soc_topic (handle_message str_eq loads soc_message new_client).0.cache
    ≡ registers_of str_eq loads no_sample "p" [] handled_run soc_topic
Reachable-Refines_example =
    Reachable-Refines str_eq loads no_sample "p" [] unlocked _ handled_run soc_topic

-- During a stop the worker handles a message that it took before, and a callback that found the inbox
-- full goes on.
During-IsHeld_example :
    IsHeld str_eq loads no_sample connected_client
      (drop_message 7 drop_log_interval
        (handle_message str_eq loads soc_message (begin_stop connected_client)).0).0
During-IsHeld_example = During-IsHeld str_eq loads no_sample connected_client _ (
    During.goes_on _ _
      (During.goes_on _ _ During.begins (Step.handles (begin_stop connected_client) soc_message))
      (Step.overflows (handle_message str_eq loads soc_message (begin_stop connected_client)).0 7
        drop_log_interval))

-- The third poll finds the connection.
abbrev polls : ℕ → Client
polls i = record new_client { connected = leb 2 i }

connects_in_time : wait_connected 7 polls connect_wait_steps 0 ≡ none
unfolding wait_connected
connects_in_time = refl

-- A message, an empty inbox, and the sentinel.
abbrev worker_rounds : List Round
worker_rounds =
    record { stop = false; got = some (some soc_message) }
    ∷ record { stop = false; got = none }
    ∷ record { stop = false; got = some none }
    ∷ []

worker_run :
    process_inbox worker_rounds 0 ≡ Task.maintains ∷ Task.handles soc_message ∷ Task.maintains ∷ []
unfolding process_inbox
worker_run = refl

process_inbox-IsPaced_example :
    (handled (process_inbox worker_rounds 0) ≡ obtained worker_rounds)
    × IsPaced 0 (process_inbox worker_rounds 0)
process_inbox-IsPaced_example = process_inbox-IsPaced worker_rounds

-- No code point from 128 on is a digit.
abbrev no_digit : ℕ → Bool
no_digit c = false

abbrev fed : Client
fed = record with_soc { connected = true; connection_epoch = 1 }

abbrev due : Feed
due = record {
  maintenance_epoch = some 1;
  next_keepalive = 0;
  next_refresh = 0;
  next_refresh_batch = 0;
  refresh_cursor = 0;
  pending_refresh = soc_topic ∷ [];
}

maintain_read_feed-IsReadOnly_example :
    IsReadOnly no_digit
      (λ i. fed)
      (λ i. true)
      5
      "p"
      9
      (maintain_read_feed no_digit (λ i. fed) (λ i. true) 5 due)
maintain_read_feed-IsReadOnly_example =
    maintain_read_feed-IsReadOnly no_digit (λ i. fed) (λ i. true) 5 "p" due (λ i. refl)
      (omega arith)

-- A maintenance while the session is up.
abbrev tick : Tick
tick = record { look = λ i. fed; accepts = λ i. true; now = 5 }

tick-IsLive : IsLive 7 1 tick
tick-IsLive = record { owned = refl; same_epoch = refl; may = λ i. refl; accepted = λ i. refl }

soc-IsWanted :
    IsWanted no_digit "N/p" (required_topics no_digit "N/p" [] (explicit_patterns [])) soc_topic
unfolding has_char lookup
soc-IsWanted = record {
  family = "battery";
  identifier = "0";
  path = "Soc";
  item = record { shape = refl; plain_family = refl; plain_identifier = refl };
  numeric = refl;
  consumed = inr refl;
}

soc-StaysEligible : StaysEligible no_digit soc_topic (tick ∷ [])
unfolding refresh_candidates
soc-StaysEligible = (
  (refresh_topics_iff no_digit soc_topic "N/p" (soc_topic ∷ []) [] (explicit_patterns [])).1
      (refl, soc-IsWanted),
  tt,
)

run_ticks-IsRequested_example : IsRequested soc_topic (run_ticks no_digit (tick ∷ []) due).1
run_ticks-IsRequested_example =
    run_ticks-IsRequested no_digit 7 1 (tick ∷ []) due soc_topic refl (tick-IsLive, omega arith, tt)
      soc-StaysEligible (Memᴰ.head refl)

-- Only "0" is read as an int.
abbrev zero_only : String → Option ℤ
zero_only s = if str_eq s "0" then some (pos 0) else none

list_devices-Shaped_example : Memᴰ ("battery", pos 0) (list_devices zero_only with_soc) ↔ (
    (topic : String) × Memᴰ topic (soc_topic ∷ [])
    × IsTopicOf zero_only ("battery", pos 0) with_soc topic)
list_devices-Shaped_example = list_devices-Shaped zero_only ("battery", pos 0) with_soc
