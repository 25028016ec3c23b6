-- ===== src/Mqtt/Messages/Caching.antt =====
-- What the cache of src/mcp_venus_os/mqtt_client.py holds after messages are handled.
use mcp_venus_os.Prelude.{
  ℕ, ◌≡◌, ◌⊎◌, inl, inr, refl, sym, subst, ◌∙◌, String, Bool, true, false, not, ◌&&◌, ◌||◌, Option,
  none, some, List, [], lookup, lookup-insert, lookup-remove, str_eq, str_eq_iff, if◌then◌else◌,
  arith,
}
use mcp_venus_os.Value.{Payload}
use mcp_venus_os.Mqtt.{Client, Message, Received, Effect, stale, serial_topic}
use mcp_venus_os.Mqtt.Messages.{
  is_cached_topic, is_empty_payload, unwrap, handle_message, decode, store, forget,
}

neither : (a b : Bool) → (a || not b) ≡ false → (a ≡ false) × (b ≡ true)
neither a b h = ground arith

abbrev pub fst_of : Client × List Effect → Client
fst_of r = r.0

module _ (matches : String → String → Bool) (loads : List ℕ → Option Payload) where
  -- A message that puts a value under a topic: it came over the current transport, it is not a
  -- retained serial number, and its decoded payload is the value, or wraps it.
  pub record Origin (c : Client) (x : String) (v : Payload) (at : ℕ) (r : Received) : Type 0 where
    pub current : stale c r.transport ≡ false
    pub on_topic : r.message.topic ≡ x
    pub nonempty : is_empty_payload matches loads r.message.payload ≡ false
    pub decoded : Payload
    pub decodes : loads r.message.payload ≡ some decoded
    pub unwraps : unwrap decoded ≡ v
    pub received : r.received_at ≡ at
    pub live : (str_eq x (serial_topic c) && r.message.retain) ≡ false
    pub kept : is_cached_topic matches loads x c ≡ true

  abbrev pub entry_at : String → Client → Option (Payload × ℕ)
  entry_at x c = lookup x c.cache

  -- A stored payload is the entry of its topic, if the topic is cached.
  pub stored_entry :
      (x : String) (m : Message) (p : Payload) (at : ℕ) (c : Client)
      → entry_at x (store matches loads m p at c).0 ≡ (
          if (str_eq m.topic (serial_topic c) && m.retain)
            || not (is_cached_topic matches loads m.topic c)
          then entry_at x c
          else if str_eq m.topic x
          then some (p, at)
          else entry_at x c)
  stored_entry x m p at c = ground (arith, lookup-insert m.topic x (p, at) c.cache)

  pub forgotten_entry :
      (x topic : String) (c : Client)
      → entry_at x (forget matches loads topic c) ≡ (if str_eq topic x then none else entry_at x c)
  forgotten_entry x topic c = lookup-remove topic x c.cache

  -- A message with a value: what it leaves under a topic.
  decoded_entry :
      (x : String) (m : Message) (at : ℕ) (o : Option Payload) (c : Client) (v : Payload) (time : ℕ)
      → entry_at x (decode matches loads m at o c).0 ≡ some (v, time)
      → (entry_at x c ≡ some (v, time))
        ⊎ ((p : Payload) × (o ≡ some p)
            × (unwrap p ≡ v)
            × (at ≡ time)
            × (m.topic ≡ x)
            × ((str_eq x (serial_topic c) && m.retain) ≡ false)
            × (is_cached_topic matches loads x c ≡ true))
  decoded_entry x m at none c v time h = inl h
  decoded_entry x m at (some p) c v time h =
      by_cases
        ((str_eq m.topic (serial_topic c) && m.retain)
          || not (is_cached_topic matches loads m.topic c))
        refl (str_eq m.topic x) refl (sym (stored_entry x m (unwrap p) at c) ∙ h)
    where
      by_cases :
          (a : Bool)
          → ((str_eq m.topic (serial_topic c) && m.retain)
              || not (is_cached_topic matches loads m.topic c))
            ≡ a
          → (b : Bool) → str_eq m.topic x ≡ b
          → (if a then entry_at x c else if b then some (unwrap p, at) else entry_at x c)
            ≡ some (v, time)
          → (entry_at x c ≡ some (v, time))
            ⊎ ((q : Payload) × (some p ≡ some q)
                × (unwrap q ≡ v)
                × (at ≡ time)
                × (m.topic ≡ x)
                × ((str_eq x (serial_topic c) && m.retain) ≡ false)
                × (is_cached_topic matches loads x c ≡ true))
      by_cases true e b f k = inl k
      by_cases false e false f k = inl k
      by_cases false e true f k =
          let same = (str_eq_iff m.topic x).0 f in
          let (serial, cached) = neither _ _ e in
          inr (
            p,
            refl,
            cc k,
            cc k,
            same,
            subst (λ (t : String). (str_eq t (serial_topic c) && m.retain) ≡ false) same serial,
            subst (λ (t : String). is_cached_topic matches loads t c ≡ true) same cached,
          )

  -- The value under a topic after one message was there before, or the message put it there.
  pub handle_message-entry :
      (x : String) (r : Received) (c : Client) (v : Payload) (time : ℕ)
      → entry_at x (handle_message matches loads r c).0 ≡ some (v, time)
      → (entry_at x c ≡ some (v, time)) ⊎ Origin c x v time r
  unfolding handle_message
  handle_message-entry x r c v time h =
      by_cases (stale c r.transport) refl (is_empty_payload matches loads r.message.payload) refl h
    where
      by_cases :
          (a : Bool)
          → stale c r.transport ≡ a
          → (b : Bool) → is_empty_payload matches loads r.message.payload ≡ b
          → entry_at x (
              fst_of (
                if a
                then (c, [])
                else if b
                then (forget matches loads r.message.topic c, [])
                else decode matches loads r.message r.received_at (loads r.message.payload) c))
            ≡ some (v, time)
          → (entry_at x c ≡ some (v, time)) ⊎ Origin c x v time r
      by_cases true e b f k = inl k
      by_cases false e true f k = inl (let l = forgotten_entry x r.message.topic c in ground arith)
      by_cases false e false f k =
          elim (decoded_entry x r.message r.received_at (loads r.message.payload) c v time k) [
            | inl old ↦ inl old
            | inr (p, decodes, unwraps, received, on_topic, live, kept) ↦ inr (record {
              current = e;
              on_topic = on_topic;
              nonempty = f;
              decoded = p;
              decodes = decodes;
              unwraps = unwraps;
              received = received;
              live = live;
              kept = kept;
            })
          ]

  -- Handling keeps the portal, the transport and the mark of a stop.
  abbrev pub SameOwner : Client → Client → Type 0
  SameOwner c d = (d.portal ≡ c.portal) × (d.client ≡ c.client) × (d.stopping ≡ c.stopping)

  pub handle_message-SameOwner :
      (r : Received) (c : Client) → SameOwner c (handle_message matches loads r c).0
  unfolding handle_message
  handle_message-SameOwner r c = (ground arith, ground arith, ground arith)
