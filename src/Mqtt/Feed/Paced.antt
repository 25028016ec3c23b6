-- ===== src/Mqtt/Feed/Paced.antt =====
-- One maintenance of the read feed of src/mcp_venus_os/mqtt_client.py while the session is up and topics are
-- pending: it sends the next batch.
use mathlib.Core.List.{Memᴰ}
use mcp_venus_os.Prelude.{
  ℕ, ◌+◌, String, Bool, true, false, ◌&&◌, ◌||◌, Option, some, List, [], ◌∷◌, elem, ==_iff, leb,
  ltb, if◌then◌else◌, ◌≡◌, refl, sym, ◌∙◌,
}
use mcp_venus_os.Mqtt.Session.{same_revision}
use mcp_venus_os.Mqtt.Feed.{
  Feed, ReadRequest, take, drop, refresh_candidates, refill, put_batch, refresh, after_keepalive,
  keepalive, join_requests, is_empty_list, maintain_read_feed, refresh_batch_size,
  refresh_batch_interval,
}
use mcp_venus_os.Mqtt.Feed.Drains.{
  Tick, IsLive, IsRequested, Requested-behind, may-up, Batch, batch, Drains, send_batch-Drains,
}

&&-false : (b : Bool) → (b && false) ≡ false
&&-false true = refl
&&-false false = refl

module _ (other_digit : ℕ → Bool) (transport epoch : ℕ) (t : Tick)
    (live : IsLive transport epoch t) where
  abbrev pub eligible : List String
  eligible = refresh_candidates other_digit (t.look 2)

  -- What a maintenance leaves of these pending topics for the next one, and what it sends.
  abbrev pub IsPaced : List String → Feed × List ReadRequest → Type 0
  IsPaced pending (f, sent) =
      (f.maintenance_epoch ≡ some epoch)
      × (f.next_refresh_batch ≡ t.now + refresh_batch_interval)
      × (f.pending_refresh ≡ drop refresh_batch_size pending)
      × ((p : String)
          → Memᴰ p (take refresh_batch_size pending)
          → elem p eligible ≡ true
          → IsRequested p sent)

  refill-pending :
      (candidates : List String) (f : Feed) (p : String) (rest : List String)
      → f.pending_refresh ≡ p ∷ rest
      → refill other_digit t.look t.accepts t.now candidates f ≡ f
  unfolding refill
  refill-pending candidates f p rest e = rw (e, &&-false (leb f.next_refresh t.now)) refl

  put_batch-IsPaced :
      (f : Feed) (r : Batch)
      → f.maintenance_epoch ≡ some epoch
      → Drains other_digit transport epoch t live eligible refresh_batch_size f.pending_refresh r
      → IsPaced f.pending_refresh (put_batch other_digit t.look t.accepts t.now f r)
  put_batch-IsPaced f (left, sent) e (d, g) = (e, refl, d, g)

  goes_on :
      (f : Feed) (p : String) (rest : List String)
      → f.pending_refresh ≡ p ∷ rest
      → ltb t.now f.next_refresh_batch ≡ false
      → (ltb t.now f.next_refresh_batch
          || (ltb t.now f.next_refresh
              && is_empty_list other_digit t.look t.accepts t.now f.pending_refresh))
        ≡ false
  goes_on f p rest e due = rw (due, e) (&&-false (ltb t.now f.next_refresh))

  refresh-sends :
      (f : Feed) (p : String) (rest : List String)
      → f.pending_refresh ≡ p ∷ rest
      → ltb t.now f.next_refresh_batch ≡ false
      → refresh other_digit t.look t.accepts t.now transport epoch f
        ≡ put_batch other_digit t.look t.accepts t.now f (
            batch other_digit transport epoch t live eligible refresh_batch_size 3
              f.pending_refresh)
  unfolding refresh
  refresh-sends f p rest e due =
      rw (goes_on f p rest e due, refill-pending eligible f p rest e) refl

  refresh-IsPaced :
      (f : Feed) (p : String) (rest : List String)
      → f.pending_refresh ≡ p ∷ rest
      → f.maintenance_epoch ≡ some epoch
      → ltb t.now f.next_refresh_batch ≡ false
      → IsPaced f.pending_refresh (refresh other_digit t.look t.accepts t.now transport epoch f)
  refresh-IsPaced f p rest e same due = rw (refresh-sends f p rest e due) (
      put_batch-IsPaced f _ same (
        send_batch-Drains other_digit transport epoch t live eligible refresh_batch_size 3
          f.pending_refresh))

  -- What a keepalive leaves alone.
  abbrev IsKept : Feed → Feed × List ReadRequest → Type 0
  IsKept f (g, sent) =
      (g.maintenance_epoch ≡ f.maintenance_epoch)
      × (g.next_refresh_batch ≡ f.next_refresh_batch)
      × (g.pending_refresh ≡ f.pending_refresh)

  keepalive-IsKept :
      (f : Feed) → IsKept f (keepalive other_digit t.look t.accepts t.now transport epoch f)
  unfolding keepalive
  keepalive-IsKept f = by_test (leb f.next_keepalive t.now) _
    where
      by_test :
          (b : Bool) (r : Bool × List ReadRequest)
          → IsKept f (if b then after_keepalive other_digit t.look t.accepts t.now f r else (f, []))
      by_test true (accepted, sent) = (refl, refl, refl)
      by_test false r = (refl, refl, refl)

  join_requests-IsPaced :
      (f : Feed) (r : Feed × List ReadRequest) (next : Feed → Feed × List ReadRequest)
      → IsKept f r
      → ((g : Feed) → IsKept f (g, []) → IsPaced f.pending_refresh (next g))
      → IsPaced f.pending_refresh (join_requests other_digit t.look t.accepts t.now r next)
  join_requests-IsPaced f (g, sent) next kept h =
      let (e, n, d, asked) = h g kept in
      (e, n, d, λ p m w. Requested-behind p sent (next g).1 (asked p m w))

  same_revision-same : (e : Option ℕ) → e ≡ some epoch → same_revision e epoch ≡ true
  same_revision-same e h = rw h ((==_iff epoch epoch).1 refl)

  maintain_read_feed-joins :
      (f : Feed)
      → f.maintenance_epoch ≡ some epoch
      → maintain_read_feed other_digit t.look t.accepts t.now f
        ≡ join_requests other_digit t.look t.accepts t.now
            (keepalive other_digit t.look t.accepts t.now transport epoch f)
            (refresh other_digit t.look t.accepts t.now transport epoch)
  unfolding maintain_read_feed
  maintain_read_feed-joins f same =
      rw
        (
          live.owned,
          may-up transport epoch (t.look 0) (live.may 0),
          live.same_epoch,
          same_revision-same f.maintenance_epoch same,
        )
        refl

  pub maintain_read_feed-IsPaced :
      (f : Feed) (p : String) (rest : List String)
      → f.pending_refresh ≡ p ∷ rest
      → f.maintenance_epoch ≡ some epoch
      → ltb t.now f.next_refresh_batch ≡ false
      → IsPaced f.pending_refresh (maintain_read_feed other_digit t.look t.accepts t.now f)
  maintain_read_feed-IsPaced f p rest e same due = rw (maintain_read_feed-joins f same) (
      join_requests-IsPaced f _ (refresh other_digit t.look t.accepts t.now transport epoch)
        (keepalive-IsKept f) after)
    where
      after :
          (g : Feed)
          → IsKept f (g, [])
          → IsPaced f.pending_refresh (refresh other_digit t.look t.accepts t.now transport epoch g)
      after g (s, n, q) = rw (sym q) (refresh-IsPaced g p rest (q ∙ e) (s ∙ same) (rw n due))
