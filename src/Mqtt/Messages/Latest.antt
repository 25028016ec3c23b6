-- ===== src/Mqtt/Messages/Latest.antt =====
-- What the cache of src/mcp_venus_os/mqtt_client.py holds after an inbox is drained.
use mcp_venus_os.Prelude.{
  ℕ, ◌≡◌, refl, sym, subst, ap, ◌∙◌, String, Bool, true, false, ◌&&◌, Option, none, some, List, [],
  ◌∷◌, ◌++◌, lookup, str_eq, str_eq_iff, if◌then◌else◌, arith, All,
}
use mcp_venus_os.Value.{Payload}
use mcp_venus_os.Mqtt.{Client, Received, stale, serial_topic}
use mcp_venus_os.Mqtt.Messages.{
  is_cached_topic, is_empty_payload, unwrap, handle_message, decode, store, forget, take_entry,
  drain_inbox,
}
use mcp_venus_os.Mqtt.Messages.Caching.{
  Origin, entry_at, fst_of, stored_entry, forgotten_entry, SameOwner, handle_message-SameOwner,
}

module _ (matches : String → String → Bool) (loads : List ℕ → Option Payload) where
  abbrev after : Received → Client → Client
  after r c = (handle_message matches loads r c).0

  abbrev drained : List (Option Received) → Client → Client
  drained es c = (drain_inbox matches loads es c).0

  Origin-SameOwner :
      (c d : Client) (x : String) (v : Payload) (time : ℕ) (r : Received)
      → SameOwner matches loads c d
      → Origin matches loads c x v time r
      → Origin matches loads d x v time r
  Origin-SameOwner c d x v time r (portal, client, stopping) o = record {
    current = rw client (rw stopping o.current);
    on_topic = o.on_topic;
    nonempty = o.nonempty;
    decoded = o.decoded;
    decodes = o.decodes;
    unwraps = o.unwraps;
    received = o.received;
    live = rw portal o.live;
    kept = rw portal o.kept;
  }

  -- A message on another topic leaves the entry.
  handle_message-other :
      (x : String) (r : Received) (c : Client)
      → str_eq r.message.topic x ≡ false
      → entry_at matches loads x (after r c) ≡ entry_at matches loads x c
  unfolding handle_message
  handle_message-other x r c h = by_cases (loads r.message.payload)
    where
      by_cases :
          (o : Option Payload)
          → entry_at matches loads x (
              fst_of (
                if stale c r.transport
                then (c, [])
                else if is_empty_payload matches loads r.message.payload
                then (forget matches loads r.message.topic c, [])
                else decode matches loads r.message r.received_at o c))
            ≡ entry_at matches loads x c
      by_cases none = let f = forgotten_entry matches loads x r.message.topic c in ground arith
      by_cases (some p) =
          let f = forgotten_entry matches loads x r.message.topic c in
          let s = stored_entry matches loads x r.message (unwrap p) r.received_at c in ground arith

  -- A message with a value for the topic leaves it there, with its receive time.
  handle_message-caches :
      (x : String) (r : Received) (c : Client) (v : Payload) (time : ℕ)
      → Origin matches loads c x v time r
      → entry_at matches loads x (after r c) ≡ some (v, time)
  unfolding handle_message
  handle_message-caches x r c v time o =
      rw (o.current, after)
        (rw o.nonempty (
          rw o.decodes (
            is_put
            ∙ (ap (λ u. some (u, r.received_at)) o.unwraps ∙ ap (λ at. some (v, at)) o.received))))
    where
      is_put :
          (entry_at matches loads x
            (store matches loads r.message (unwrap o.decoded) r.received_at c).0)
          ≡ some (unwrap o.decoded, r.received_at)
      is_put =
          let live =
            subst (λ (t : String). (str_eq t (serial_topic c) && r.message.retain) ≡ false)
              (sym o.on_topic) o.live in
          let kept =
            subst (λ (t : String). is_cached_topic matches loads t c ≡ true) (sym o.on_topic)
              o.kept in
          let same = (str_eq_iff r.message.topic x).1 o.on_topic in
          stored_entry matches loads x r.message (unwrap o.decoded) r.received_at c
          ∙ rw live (rw kept (rw same refl))

  drained-SameOwner :
      (es : List (Option Received)) (c : Client) → SameOwner matches loads c (drained es c)
  unfolding drain_inbox take_entry
  drained-SameOwner [] c = (refl, refl, refl)
  drained-SameOwner (none ∷ es) c = drained-SameOwner es (record c { inbox = es })
  drained-SameOwner (some r ∷ es) c =
      let d = record c { inbox = es } in
      let (p, q, s) = handle_message-SameOwner matches loads r d in
      let (p', q', s') = drained-SameOwner es (after r d) in (p' ∙ p, q' ∙ q, s' ∙ s)

  abbrev IsOff : String → Option Received → Type 0
  IsOff x none = Unit
  IsOff x (some r) = str_eq r.message.topic x ≡ false

  drained-other :
      (x : String) (es : List (Option Received)) (c : Client)
      → All (IsOff x) es
      → lookup x (drained es c).cache ≡ lookup x c.cache
  unfolding drain_inbox take_entry
  drained-other x [] c h = refl
  drained-other x (none ∷ es) c (h, k) = drained-other x es (record c { inbox = es }) k
  drained-other x (some r ∷ es) c (h, k) =
      drained-other x es (after r (record c { inbox = es })) k
      ∙ handle_message-other x r (record c { inbox = es }) h

  -- The last message of the inbox on a topic, if it carries a value for the cache, determines what
  -- the topic's entry is after the inbox is drained: its value and its receive time.
  pub drain_inbox-latest :
      (x : String) (before later : List (Option Received)) (r : Received) (c : Client) (v : Payload)
      (time : ℕ)
      → Origin matches loads c x v time r
      → All (IsOff x) later
      → lookup x (drain_inbox matches loads (before ++ some r ∷ later) c).0.cache ≡ some (v, time)
  unfolding drain_inbox take_entry
  drain_inbox-latest x [] later r c v time o h =
      drained-other x later (after r (record c { inbox = later })) h
      ∙ handle_message-caches x r (record c { inbox = later }) v time
          (Origin-SameOwner c (record c { inbox = later }) x v time r (refl, refl, refl) o)
  drain_inbox-latest x (none ∷ before) later r c v time o h =
      let rest = before ++ some r ∷ later in
      drain_inbox-latest x before later r (record c { inbox = rest }) v time
        (Origin-SameOwner c (record c { inbox = rest }) x v time r (refl, refl, refl) o) h
  drain_inbox-latest x (some q ∷ before) later r c v time o h =
      let rest = before ++ some r ∷ later in
      let d = record c { inbox = rest } in
      drain_inbox-latest x before later r (after q d) v time
        (Origin-SameOwner d (after q d) x v time r (handle_message-SameOwner matches loads q d)
          (Origin-SameOwner c d x v time r (refl, refl, refl) o))
        h
