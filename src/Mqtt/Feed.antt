-- ===== src/Mqtt/Feed.antt =====
-- The read feed of src/mcp_venus_os/mqtt_client.py, which the worker maintains: keepalives and paced
-- requests for single items. It looks at the client several times, and between two looks other
-- threads may change it: `look i` is the i-th, `accepts i` whether paho accepts a publication there.
pub mod Requests
pub mod Bounded
pub mod Drains
pub mod Paced
pub mod Draining
use mcp_venus_os.Prelude.{
  ℕ, zero, suc, ◌+◌, ◌*◌, ◌/◌, ◌%◌, String, ◌<>◌, Bool, true, false, not, ◌&&◌, ◌||◌, Option, none,
  some, List, [], ◌∷◌, ◌++◌, map, add, elem, length, leb, ltb, str_eq, if◌then◌else◌, ◌==◌,
}
use mcp_venus_os.Value.{one_units}
use mcp_venus_os.Telemetry.{refresh_topics}
use mcp_venus_os.Mqtt.{Client, prefix, serial_topic, is_transport, suppress_republish}
use mcp_venus_os.Mqtt.Session.{explicit_patterns, same_revision}

-- APPLICATION_KEEPALIVE_S, REFRESH_INTERVAL_S, REFRESH_BATCH_INTERVAL_S
unfoldable pub application_keepalive : ℕ
application_keepalive = 30 * one_units

unfoldable pub refresh_interval : ℕ
refresh_interval = 30 * one_units

unfoldable pub refresh_batch_interval : ℕ
refresh_batch_interval = one_units / 4

-- REFRESH_BATCH_SIZE and MAX_REFRESH_TOPICS
abbrev pub refresh_batch_size : ℕ
refresh_batch_size = 8

abbrev pub max_refresh_topics : ℕ
max_refresh_topics = 512

-- The part of the client's state that only the worker uses; `none` is the epoch -1.
pub record Feed : Type 0 where
  pub maintenance_epoch : Option ℕ
  pub next_keepalive : ℕ
  pub next_refresh : ℕ
  pub next_refresh_batch : ℕ
  pub refresh_cursor : ℕ
  pub pending_refresh : List String

-- A publication that is handed to paho.
pub record ReadRequest : Type 0 where
  pub topic : String
  pub payload : String

-- `topic[2:]`
abbrev pub without_letter : String → String
without_letter String.[] = ""
without_letter (String.◌∷◌ a String.[]) = ""
without_letter (String.◌∷◌ a (String.◌∷◌ b s)) = s

abbrev pub take {ℓ} : {A : Type ℓ} → ℕ → List A → List A
take zero xs = []
take (suc n) [] = []
take (suc n) (x ∷ xs) = x ∷ take n xs

abbrev pub drop {ℓ} : {A : Type ℓ} → ℕ → List A → List A
drop zero xs = xs
drop (suc n) [] = []
drop (suc n) (x ∷ xs) = drop n xs

abbrev pub observed_topics : Client → List String
observed_topics c =
    let cached = map (λ entry. entry.0) c.cache in
    if c.retained_serial_seen then add (serial_topic c) cached else cached

-- `_refresh_candidates`
unfoldable pub refresh_candidates : (ℕ → Bool) → Client → List String
refresh_candidates other_digit c =
    refresh_topics other_digit (prefix c) (observed_topics c) c.contracts
      (explicit_patterns c.callbacks)

-- The test of `_publish_read` under the lock.
abbrev pub may_read : ℕ → ℕ → Client → Bool
may_read transport epoch c = not (
    c.stopping
    || c.worker_stop
    || not c.connected
    || not (is_transport transport c.client)
    || not (epoch == c.connection_epoch))

-- `_publish_read`: whether paho accepted it, and what was handed to paho.
unfoldable pub publish_read : Client → Bool → ℕ → ℕ → String → String → Bool × List ReadRequest
publish_read c accepted transport epoch topic payload =
    if may_read transport epoch c
    then (accepted, record { topic = topic; payload = payload } ∷ [])
    else (false, [])

-- The test in front of each request of a batch.
abbrev pub is_gone : ℕ → ℕ → Client → Bool
is_gone transport epoch c =
    c.stopping || not (is_transport transport c.client) || not (epoch == c.connection_epoch)

abbrev pub refresh_payload : Client → String → String
refresh_payload c topic = if str_eq topic (serial_topic c) then suppress_republish else ""

-- A request that was not accepted goes back to the front, and ends the batch.
abbrev pub after_try :
    String
    → List String
    → Bool × List ReadRequest
    → List String × List ReadRequest
    → List String × List ReadRequest
after_try topic rest (true, sent) (left, more) = (left, sent ++ more)
after_try topic rest (false, sent) later = (topic ∷ rest, sent)

module _ (other_digit : ℕ → Bool) (look : ℕ → Client) (accepts : ℕ → Bool) (now : ℕ) where
  -- The loop of a batch over the pending topics; a topic that is not eligible any more is dropped.
  unfoldable pub send_batch :
      ℕ → ℕ → List String → ℕ → ℕ → List String → List String × List ReadRequest
  send_batch transport epoch eligible zero i pending = (pending, [])
  send_batch transport epoch eligible (suc n) i [] = ([], [])
  send_batch transport epoch eligible (suc n) i (topic ∷ rest) =
      let later = send_batch transport epoch eligible n (i + 2) rest in
      if is_gone transport epoch (look i)
      then (topic ∷ rest, [])
      else if not (elem topic eligible)
      then later
      else after_try topic rest
          (publish_read (look (i + 1)) (accepts (i + 1)) transport epoch
            ("R/" <> without_letter topic) (refresh_payload (look i) topic))
          later

  -- The rotation of the candidates from the cursor on, cut to the bound.
  abbrev pub select : ℕ → List String → List String
  select start candidates = take max_refresh_topics (drop start candidates ++ take start candidates)

  abbrev pub is_empty_list : List String → Bool
  is_empty_list [] = true
  is_empty_list (x ∷ xs) = false

  abbrev pub start_of : Feed → List String → ℕ
  start_of f candidates = f.refresh_cursor % length candidates

  -- A new round: the next topics to ask for.
  unfoldable pub refill : List String → Feed → Feed
  refill candidates f =
      if leb f.next_refresh now && is_empty_list f.pending_refresh
      then (if is_empty_list candidates
          then record f { next_refresh = now + refresh_interval }
          else record f {
            pending_refresh = f.pending_refresh ++ select (start_of f candidates) candidates;
            refresh_cursor =
                (start_of f candidates + length (select (start_of f candidates) candidates))
                % length candidates;
            next_refresh = now + refresh_interval;
          })
      else f

  abbrev pub put_batch : Feed → List String × List ReadRequest → Feed × List ReadRequest
  put_batch f (left, sent) =
      (record f { pending_refresh = left; next_refresh_batch = now + refresh_batch_interval }, sent)

  -- The part behind the keepalive.
  unfoldable pub refresh : ℕ → ℕ → Feed → Feed × List ReadRequest
  refresh transport epoch f =
      if ltb now f.next_refresh_batch || (ltb now f.next_refresh && is_empty_list f.pending_refresh)
      then (f, [])
      else let candidates = refresh_candidates other_digit (look 2) in
        let f' = refill candidates f in
        put_batch f' (send_batch transport epoch candidates refresh_batch_size 3 f'.pending_refresh)

  abbrev pub after_keepalive : Feed → Bool × List ReadRequest → Feed × List ReadRequest
  after_keepalive f (accepted, sent) = (
    record f { next_keepalive = now + (if accepted then application_keepalive else one_units) },
    sent,
  )

  unfoldable pub keepalive : ℕ → ℕ → Feed → Feed × List ReadRequest
  keepalive transport epoch f =
      if leb f.next_keepalive now
      then after_keepalive f (
          publish_read (look 1) (accepts 1) transport epoch
            ("R/" <> (look 1).portal <> "/keepalive") suppress_republish)
      else (f, [])

  abbrev pub join_requests :
      Feed × List ReadRequest → (Feed → Feed × List ReadRequest) → Feed × List ReadRequest
  join_requests (f, sent) next = let (f', more) = next f in (f', sent ++ more)

  -- A new session: everything is scheduled anew.
  abbrev pub new_epoch : ℕ → Feed → Feed
  new_epoch epoch f = record f {
    maintenance_epoch = some epoch;
    pending_refresh = [];
    next_keepalive = now + application_keepalive;
    next_refresh = now + refresh_interval;
    next_refresh_batch = now;
  }

  abbrev pub maintain_with : Client → Option ℕ → Feed → Feed × List ReadRequest
  maintain_with c none f = (f, [])
  maintain_with c (some transport) f =
      if c.stopping || c.worker_stop || not c.connected
      then (f, [])
      else if not (same_revision f.maintenance_epoch c.connection_epoch)
      then (new_epoch c.connection_epoch f, [])
      else join_requests (keepalive transport c.connection_epoch f)
          (refresh transport c.connection_epoch)

  -- `_maintain_read_feed`
  unfoldable pub maintain_read_feed : Feed → Feed × List ReadRequest
  maintain_read_feed f = maintain_with (look 0) (look 0).client f
