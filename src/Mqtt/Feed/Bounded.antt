-- ===== src/Mqtt/Feed/Bounded.antt =====
-- One maintenance of the read feed of src/mcp_venus_os/mqtt_client.py only reads, and is bounded.
use mcp_venus_os.Prelude.{
  All-++, ℕ, zero, suc, ◌+◌, ◌≤◌, ◌≡◌, refl, ap, String, ◌<>◌, Bool, true, false, not, ◌&&◌, ◌||◌,
  Option, none, some, List, [], ◌∷◌, All, length, leb, if◌then◌else◌, arith, &&_iff,
}
use mcp_venus_os.Mqtt.{Client, suppress_republish}
use mcp_venus_os.Mqtt.Session.{same_revision}
use mcp_venus_os.Mqtt.Feed.{
  Feed, ReadRequest, refresh_candidates, publish_read, put_batch, refill, refresh, keepalive,
  after_keepalive, join_requests, maintain_with, maintain_read_feed, refresh_batch_size, take,
  select, max_refresh_topics, is_empty_list, start_of,
}
use mcp_venus_os.Mqtt.Feed.Requests.{
  IsRead, IsBatch, length-++, candidate_below, publish_read-All, publish_read-length,
  send_batch-IsBatch,
}

length-take {ℓ} : {A : Type ℓ} (n : ℕ) (xs : List A) → length (take n xs) ≤ n
length-take zero xs = omega arith
length-take (suc n) [] = omega arith
length-take (suc n) (x ∷ xs) = let h = length-take n xs in omega arith

abbrev IsBounded : Feed → Type 0
IsBounded f = length f.pending_refresh ≤ max_refresh_topics

if-IsBounded :
    (b : Bool) (f g : Feed)
    → (b ≡ true → IsBounded f)
    → (b ≡ false → IsBounded g)
    → IsBounded (if b then f else g)
if-IsBounded true f g h k = h refl
if-IsBounded false f g h k = k refl

module _ (other_digit : ℕ → Bool) (look : ℕ → Client) (accepts : ℕ → Bool) (now : ℕ)
    (portal : String) where
  -- What one maintenance leaves and sends, with a bound on the number of requests.
  pub record IsReadOnly (n : ℕ) (r : Feed × List ReadRequest) : Type 0 where
    pub reads : All (IsRead portal) r.1
    pub few : length r.1 ≤ n
    pub bounded : length r.0.pending_refresh ≤ max_refresh_topics

  empty_list : (xs : List String) → is_empty_list other_digit look accepts now xs ≡ true → xs ≡ []
  empty_list [] h = refl
  empty_list (x ∷ xs) h = absurd (cc h)

  refill-IsBounded :
      (candidates : List String) (f : Feed)
      → IsBounded f
      → IsBounded (refill other_digit look accepts now candidates f)
  unfolding refill
  refill-IsBounded candidates f h =
      let chosen =
        select other_digit look accepts now (start_of other_digit look accepts now f candidates)
          candidates in
      if-IsBounded
        (leb f.next_refresh now && is_empty_list other_digit look accepts now f.pending_refresh) _ f
        (λ due.
          if-IsBounded (is_empty_list other_digit look accepts now candidates) _ _ (λ nothing. h)
            (λ some_left.
              let none_pending = empty_list f.pending_refresh ((&&_iff _ _).0 due).1 in
              rw none_pending (length-take max_refresh_topics _)))
        (λ waiting. h)

  abbrev Outcome : Type 0
  Outcome = Feed × List ReadRequest

  if-IsReadOnly :
      (n : ℕ) (b : Bool) (r q : Outcome)
      → IsReadOnly n r
      → IsReadOnly n q
      → IsReadOnly n (if b then r else q)
  if-IsReadOnly n true r q h k = h
  if-IsReadOnly n false r q h k = k

  idle-IsReadOnly : (n : ℕ) (f : Feed) → IsBounded f → IsReadOnly n (f, [])
  idle-IsReadOnly n f h = record { reads = tt; few = omega arith; bounded = h }

  put_batch-IsReadOnly :
      (n : ℕ) (f : Feed) (r : List String × List ReadRequest)
      → IsBounded f
      → IsBatch other_digit look accepts now portal n f.pending_refresh r
      → IsReadOnly n (put_batch other_digit look accepts now f r)
  put_batch-IsReadOnly n f (left, sent) h (a, l, k) = record {
    reads = a;
    few = l;
    bounded = omega arith;
  }

  refresh-IsReadOnly :
      (transport epoch : ℕ) (f : Feed)
      → (look 2).portal ≡ portal
      → IsBounded f
      → IsReadOnly refresh_batch_size (refresh other_digit look accepts now transport epoch f)
  unfolding refresh
  refresh-IsReadOnly transport epoch f same h =
      let candidates = refresh_candidates other_digit (look 2) in
      let f' = refill other_digit look accepts now candidates f in
      if-IsReadOnly refresh_batch_size _ (f, []) _ (idle-IsReadOnly refresh_batch_size f h)
        (put_batch-IsReadOnly refresh_batch_size f' _ (refill-IsBounded candidates f h) (
          send_batch-IsBatch other_digit look accepts now portal transport epoch candidates
            refresh_batch_size 3 f'.pending_refresh
            (λ t e. candidate_below other_digit look accepts now portal (look 2) t same e)))

  keepalive-IsReadOnly :
      (transport epoch : ℕ) (f : Feed)
      → (look 1).portal ≡ portal
      → IsBounded f
      → IsReadOnly 1 (keepalive other_digit look accepts now transport epoch f)
  unfolding keepalive
  keepalive-IsReadOnly transport epoch f same h =
      let topic = "R/" <> (look 1).portal <> "/keepalive" in
      if-IsReadOnly 1 (leb f.next_keepalive now) _ (f, [])
        (after_publish (publish_read (look 1) (accepts 1) transport epoch topic suppress_republish)
          (publish_read-All other_digit look accepts now portal (look 1) (accepts 1) transport epoch
            topic suppress_republish
            ("keepalive", ap (λ (p : String). "R/" <> p <> "/keepalive") same))
          (publish_read-length other_digit look accepts now portal (look 1) (accepts 1) transport
            epoch topic suppress_republish))
        (idle-IsReadOnly 1 f h)
    where
      after_publish :
          (r : Bool × List ReadRequest)
          → All (IsRead portal) r.1
          → length r.1 ≤ 1
          → IsReadOnly 1 (after_keepalive other_digit look accepts now f r)
      after_publish (accepted, sent) a l = record { reads = a; few = l; bounded = h }

  join_requests-IsReadOnly :
      (n m : ℕ) (r : Outcome) (next : Feed → Outcome)
      → IsReadOnly n r
      → ((f : Feed) → IsBounded f → IsReadOnly m (next f))
      → IsReadOnly (n + m) (join_requests other_digit look accepts now r next)
  join_requests-IsReadOnly n m (f, sent) next h k =
      let after = k f h.bounded in
      let count = length-++ sent (next f).1 in
      let few = h.few in
      let more = after.few in
      record {
        reads = All-++ (IsRead portal) sent (next f).1 h.reads after.reads;
        few = omega arith;
        bounded = after.bounded;
      }

  maintain_with-IsReadOnly :
      (c : Client) (transport : Option ℕ) (f : Feed)
      → ((i : ℕ) → (look i).portal ≡ portal)
      → IsBounded f
      → IsReadOnly 9 (maintain_with other_digit look accepts now c transport f)
  maintain_with-IsReadOnly c none f same h = idle-IsReadOnly 9 f h
  maintain_with-IsReadOnly c (some t) f same h =
      if-IsReadOnly 9 (c.stopping || c.worker_stop || not c.connected) (f, []) _
        (idle-IsReadOnly 9 f h)
        (if-IsReadOnly 9 (not (same_revision f.maintenance_epoch c.connection_epoch)) _ _
          (record { reads = tt; few = omega arith; bounded = omega arith })
          (join_requests-IsReadOnly 1 8
            (keepalive other_digit look accepts now t c.connection_epoch f)
            (refresh other_digit look accepts now t c.connection_epoch)
            (keepalive-IsReadOnly t c.connection_epoch f (same 1) h)
            (λ g k. refresh-IsReadOnly t c.connection_epoch g (same 2) k)))

  -- One maintenance of the read feed sends at most nine requests, each to a topic under R/ and the
  -- portal, and keeps the pending topics at 512 at most, whatever other threads do meanwhile.
  pub maintain_read_feed-IsReadOnly :
      (f : Feed)
      → ((i : ℕ) → (look i).portal ≡ portal)
      → length f.pending_refresh ≤ max_refresh_topics
      → IsReadOnly 9 (maintain_read_feed other_digit look accepts now f)
  unfolding maintain_read_feed
  maintain_read_feed-IsReadOnly f same h =
      maintain_with-IsReadOnly (look 0) (look 0).client f same h
