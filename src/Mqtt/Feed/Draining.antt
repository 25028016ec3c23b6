-- ===== src/Mqtt/Feed/Draining.antt =====
-- The read feed of src/mcp_venus_os/mqtt_client.py over several maintenances by the worker.
use mathlib.Core.List.{Memᴰ}
use mcp_venus_os.Prelude.{
  ℕ, zero, suc, ◌+◌, ◌*◌, ◌≤◌, String, Bool, true, false, some, List, [], ◌∷◌, ◌++◌, elem, length,
  ltb, ◌≡◌, ◌⊎◌, inl, inr, refl, sym, arith,
}
use mcp_venus_os.Mqtt.Feed.{
  Feed, ReadRequest, take, drop, refresh_candidates, maintain_read_feed, refresh_batch_size,
  refresh_batch_interval,
}
use mcp_venus_os.Mqtt.Feed.Drains.{Tick, IsLive, IsRequested, Requested-behind, Requested-before}
use mcp_venus_os.Mqtt.Feed.Paced.{maintain_read_feed-IsPaced}

take-split {ℓ} :
    {A : Type ℓ} (x : A) (n k j : ℕ) (xs : List A)
    → j ≡ n + k
    → Memᴰ x (take j xs)
    → Memᴰ x (take n xs) ⊎ Memᴰ x (take k (drop n xs))
take-split x zero k j xs e m = let same : j ≡ k = omega arith in inr (rw (sym same) m)
take-split x (suc n) k zero xs e m = elim m [ ]
take-split x (suc n) k (suc j) [] e m = elim m [ ]
take-split x (suc n) k (suc j) (y ∷ xs) e (Memᴰ.head f) = inl (Memᴰ.head f)
take-split x (suc n) k (suc j) (y ∷ xs) e (Memᴰ.tail m) =
    elim (take-split x n k j xs (omega arith) m) [ inl h ↦ inl (Memᴰ.tail h) | inr h ↦ inr h ]

take-nonempty {ℓ} :
    {A : Type ℓ} (x : A) (n : ℕ) (xs : List A)
    → Memᴰ x (take n xs)
    → (y : A) × (rest : List A) × (xs ≡ y ∷ rest)
take-nonempty x zero xs m = elim m [ ]
take-nonempty x (suc n) [] m = elim m [ ]
take-nonempty x (suc n) (y ∷ xs) m = (y, xs, refl)

not_early : (a b : ℕ) → a ≤ b → ltb b a ≡ false
not_early a b h = ground arith

batch_more : (k : ℕ) → refresh_batch_size * suc k ≡ refresh_batch_size + refresh_batch_size * k
batch_more k = omega arith

module _ (other_digit : ℕ → Bool) where
  -- The maintenances one after the other, and all that they send.
  abbrev pub run_ticks : List Tick → Feed → Feed × List ReadRequest
  run_ticks [] f = (f, [])
  run_ticks (t ∷ ticks) f =
      let (g, sent) = maintain_read_feed other_digit t.look t.accepts t.now f in
      let (h, more) = run_ticks ticks g in (h, sent ++ more)

  -- The topic may be asked for at every maintenance.
  abbrev pub StaysEligible : String → List Tick → Type 0
  StaysEligible topic [] = Unit
  StaysEligible topic (t ∷ ticks) =
      (elem topic (refresh_candidates other_digit (t.look 2)) ≡ true) × StaysEligible topic ticks

  module _ (transport epoch : ℕ) where
    -- The session is up at every maintenance, and each comes when the next batch is due.
    abbrev pub IsRun : ℕ → List Tick → Type 0
    IsRun due [] = Unit
    IsRun due (t ∷ ticks) =
        IsLive transport epoch t × (due ≤ t.now) × IsRun (t.now + refresh_batch_interval) ticks

    -- While the session is up, paho accepts and each maintenance comes when the next batch is due, every
    -- one of the first 8 * n pending topics has been asked for after n maintenances, if it may be asked
    -- for at each of them.
    pub run_ticks-IsRequested :
        (ticks : List Tick) (f : Feed) (topic : String)
        → f.maintenance_epoch ≡ some epoch
        → IsRun f.next_refresh_batch ticks
        → StaysEligible topic ticks
        → Memᴰ topic (take (refresh_batch_size * length ticks) f.pending_refresh)
        → IsRequested topic (run_ticks ticks f).1
    run_ticks-IsRequested [] f topic same run stays m = elim m [ ]
    run_ticks-IsRequested (t ∷ ticks) f topic same (live, due, run) (now, stays) m =
        let (p, rest, e) = take-nonempty topic _ f.pending_refresh m in
        let (kept, next, left, asked) =
          maintain_read_feed-IsPaced other_digit transport epoch t live f p rest e same
            (not_early _ _ due) in
        let step = maintain_read_feed other_digit t.look t.accepts t.now f in
        let later = run_ticks ticks step.0 in
        elim (take-split topic refresh_batch_size (refresh_batch_size * length ticks) _
          f.pending_refresh (batch_more (length ticks)) m) [
            | inl h ↦ Requested-before topic step.1 later.1 (asked topic h now)
            | inr h ↦
                Requested-behind topic step.1 later.1
                  (run_ticks-IsRequested ticks step.0 topic kept (rw next run) stays (rw left h))
          ]
