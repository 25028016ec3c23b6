-- ===== src/Mqtt/Feed/Drains.antt =====
-- One batch of the read feed of src/mcp_venus_os/mqtt_client.py while the session is up: it takes topics off
-- the pending ones, and asks for those that are eligible.
use mathlib.Core.List.{Memᴰ}
use mcp_venus_os.Prelude.{
  ℕ, zero, suc, ◌+◌, String, ◌<>◌, Bool, true, false, not, ◌||◌, some, List, [], ◌∷◌, ◌++◌, elem,
  if◌then◌else◌, ◌==◌, ◌≡◌, refl, sym, ap,
}
use mcp_venus_os.Mqtt.{Client, is_transport}
use mcp_venus_os.Mqtt.Feed.{
  ReadRequest, without_letter, take, drop, may_read, publish_read, is_gone, refresh_payload,
  after_try, send_batch,
}

-- A request for the topic is among those that were handed to paho.
abbrev pub IsRequested : String → List ReadRequest → Type 0
IsRequested topic sent = (r : ReadRequest) × Memᴰ r sent × (r.topic ≡ "R/" <> without_letter topic)

pub Requested-behind :
    (topic : String) (xs ys : List ReadRequest)
    → IsRequested topic ys
    → IsRequested topic (xs ++ ys)
Requested-behind topic [] ys h = h
Requested-behind topic (x ∷ xs) ys h =
    let (r, m, e) = Requested-behind topic xs ys h in (r, Memᴰ.tail m, e)

pub Requested-before :
    (topic : String) (xs ys : List ReadRequest)
    → IsRequested topic xs
    → IsRequested topic (xs ++ ys)
Requested-before topic [] ys (r, m, e) = elim m [ ]
Requested-before topic (x ∷ xs) ys (r, Memᴰ.head f, e) = (r, Memᴰ.head f, e)
Requested-before topic (x ∷ xs) ys (r, Memᴰ.tail m, e) =
    let (q, k, g) = Requested-before topic xs ys (r, m, e) in (q, Memᴰ.tail k, g)

-- A maintenance: what it sees of the client, what paho accepts, and when it is.
pub record Tick : Type 0 where
  pub look : ℕ → Client
  pub accepts : ℕ → Bool
  pub now : ℕ

-- The session with this transport and epoch is up throughout, and paho accepts.
pub record IsLive (transport epoch : ℕ) (t : Tick) : Type 0 where
  pub owned : (t.look 0).client ≡ some transport
  pub same_epoch : (t.look 0).connection_epoch ≡ epoch
  pub may : (i : ℕ) → may_read transport epoch (t.look i) ≡ true
  pub accepted : (i : ℕ) → t.accepts i ≡ true

may-here :
    (transport epoch : ℕ) (c : Client)
    → may_read transport epoch c ≡ true
    → is_gone transport epoch c ≡ false
may-here transport epoch c h =
    by_tests c.stopping c.worker_stop c.connected (is_transport transport c.client)
      (epoch == c.connection_epoch) h
  where
    by_tests :
        (a b d e g : Bool)
        → not (a || b || not d || not e || not g) ≡ true
        → (a || not e || not g) ≡ false
    by_tests true b d e g h = absurd (cc h)
    by_tests false true d e g h = absurd (cc h)
    by_tests false false false e g h = absurd (cc h)
    by_tests false false true false g h = absurd (cc h)
    by_tests false false true true false h = absurd (cc h)
    by_tests false false true true true h = refl

pub may-up :
    (transport epoch : ℕ) (c : Client)
    → may_read transport epoch c ≡ true
    → (c.stopping || c.worker_stop || not c.connected) ≡ false
may-up transport epoch c h =
    by_tests c.stopping c.worker_stop c.connected (is_transport transport c.client)
      (epoch == c.connection_epoch) h
  where
    by_tests :
        (a b d e g : Bool)
        → not (a || b || not d || not e || not g) ≡ true
        → (a || b || not d) ≡ false
    by_tests true b d e g h = absurd (cc h)
    by_tests false true d e g h = absurd (cc h)
    by_tests false false false e g h = absurd (cc h)
    by_tests false false true e g h = refl

abbrev pub Batch : Type 0
Batch = List String × List ReadRequest

module _ (other_digit : ℕ → Bool) (transport epoch : ℕ) (t : Tick)
    (live : IsLive transport epoch t) where
  module _ (wanted : List String) where
    abbrev pub batch : ℕ → ℕ → List String → Batch
    batch n i pending =
        send_batch other_digit t.look t.accepts t.now transport epoch wanted n i pending

    abbrev request : ℕ → String → ReadRequest
    request i topic = record {
      topic = "R/" <> without_letter topic;
      payload = refresh_payload (t.look i) topic;
    }

    publish-accepted :
        (i : ℕ) (topic payload : String)
        → publish_read (t.look i) (t.accepts i) transport epoch topic payload
          ≡ (true, record { topic = topic; payload = payload } ∷ [])
    unfolding publish_read
    publish-accepted i topic payload = rw (live.may i, live.accepted i) refl

    -- What a batch of n from the i-th look on does: it takes n topics off, and asks for the wanted ones.
    abbrev pub Drains : ℕ → List String → Batch → Type 0
    Drains n pending (left, sent) =
        (left ≡ drop n pending)
        × ((p : String) → Memᴰ p (take n pending) → elem p wanted ≡ true → IsRequested p sent)

    skip-Drains :
        (n : ℕ) (p : String) (rest : List String) (later : Batch)
        → elem p wanted ≡ false
        → Drains n rest later
        → Drains (suc n) (p ∷ rest) later
    skip-Drains n p rest (left, sent) unwanted (e, f) = (e, requested)
      where
        requested :
            (q : String) → Memᴰ q (p ∷ take n rest) → elem q wanted ≡ true → IsRequested q sent
        requested q (Memᴰ.head g) w = absurd (cc (g, w, unwanted))
        requested q (Memᴰ.tail m) w = f q m w

    send-Drains :
        (n i : ℕ) (p : String) (rest : List String) (later : Batch)
        → Drains n rest later
        → Drains (suc n) (p ∷ rest) (after_try p rest (true, request i p ∷ []) later)
    send-Drains n i p rest (left, sent) (e, f) = (e, requested)
      where
        requested :
            (q : String)
            → Memᴰ q (p ∷ take n rest)
            → elem q wanted ≡ true
            → IsRequested q (request i p ∷ sent)
        requested q (Memᴰ.head g) w =
            (request i p, Memᴰ.head refl, ap (λ s. "R/" <> without_letter s) (sym g))
        requested q (Memᴰ.tail m) w = Requested-behind q (request i p ∷ []) sent (f q m w)

    pub send_batch-Drains : (n i : ℕ) (pending : List String) → Drains n pending (batch n i pending)
    unfolding send_batch
    send_batch-Drains zero i pending = (refl, λ p m w. elim m [ ])
    send_batch-Drains (suc n) i [] = (refl, λ p m w. elim m [ ])
    send_batch-Drains (suc n) i (p ∷ rest) =
        rw
          (
            may-here transport epoch (t.look i) (live.may i),
            publish-accepted (i + 1) ("R/" <> without_letter p) (refresh_payload (t.look i) p),
          )
          (by_test (elem p wanted) refl (batch n (i + 2) rest) (send_batch-Drains n (i + 2) rest))
      where
        by_test :
            (b : Bool)
            → elem p wanted ≡ b
            → (later : Batch) → Drains n rest later
            → Drains
                (suc n)
                (p ∷ rest)
                (if not b then later else after_try p rest (true, request i p ∷ []) later)
        by_test false e later h = skip-Drains n p rest later e h
        by_test true e later h = send-Drains n i p rest later h
