-- ===== src/Reads/Tanks/Filled.antt =====
-- The tanks that src/mcp_venus_os/server.py discovers are those of which the cache has a level.
use mcp_venus_os.Prelude.{
  ℕ, ◌+◌, String, Bool, true, false, ◌==◌, Option, none, some, List, [], ◌∷◌, map, lookup, All,
  All-map, str_eq_refl, subst, str_eq, ltb, if◌then◌else◌, ◌≡◌, refl,
}
use mcp_venus_os.Prelude.Int.{ℤ, pos, leb_ℤ}
use mcp_venus_os.Value.{Float, Payload}
use mcp_venus_os.Mqtt.{Client}
use mcp_venus_os.Reads.Tanks.{
  tank_of, place_tank, with_tank, tank_instances, TankReading, tank_reading, level_topic,
  tank_readings, tank_answer, TankAnswer, one_tank, tanks, get_tank_level,
}
use mcp_venus_os.Reads.Tanks.Topics.{tank_of_lem}

abbrev is_cached : Option (Payload × ℕ) → Bool
is_cached none = false
is_cached (some e) = true

abbrev Cache : Type 0
Cache = List (String × (Payload × ℕ))

keys : Cache → List String
keys cache = map (λ entry. entry.0) cache

-- A key of a dictionary is cached.
cached_keys : (cache : Cache) → All (λ k. is_cached (lookup k cache) ≡ true) (keys cache)
unfolding keys lookup
cached_keys [] = tt
cached_keys ((k, v) ∷ cache) = (
  rw (str_eq_refl k) refl,
  All-map (λ j h. by_key (str_eq k j) (lookup j cache) h) (map (λ entry. entry.0) cache)
      (cached_keys cache),
)
  where
    by_key :
        (b : Bool) (o : Option (Payload × ℕ))
        → is_cached o ≡ true
        → is_cached (if b then some v else o) ≡ true
    by_key true o h = refl
    by_key false o h = h

module _ (P : ℕ → Type 0) where
  place-All : (n : ℕ) (ns : List ℕ) → P n → All P ns → All P (place_tank n ns)
  unfolding place_tank
  place-All n [] p h = (p, tt)
  place-All n (m ∷ ms) p (q, h) = by_order (n == m) (ltb n m) (place-All n ms p h)
    where
      by_order :
          (a b : Bool)
          → All P (place_tank n ms)
          → All P (if a then m ∷ ms else if b then n ∷ m ∷ ms else m ∷ place_tank n ms)
      by_order true b ih = (q, h)
      by_order false true ih = (p, (q, h))
      by_order false false ih = (q, ih)

  instances-All :
      (topics : List String)
      → All (λ t. (n : ℕ) → tank_of t ≡ some n → P n) topics
      → All P (tank_instances topics)
  unfolding tank_instances
  instances-All [] h = tt
  instances-All (t ∷ ts) (p, h) = by_tank (tank_of t) p (instances-All ts h)
    where
      by_tank :
          (o : Option ℕ)
          → ((n : ℕ) → o ≡ some n → P n)
          → All P (tank_instances ts)
          → All P (with_tank o (tank_instances ts))
      by_tank none k ih = ih
      by_tank (some n) k ih = place-All n (tank_instances ts) (k n refl) ih

module _ (stale_after : Float) (c : Client) (now : ℕ → ℕ) where
  abbrev look : ℕ → Client
  look i = c

  -- The reading shows the level that the cache holds for its tank.
  abbrev pub IsFilledReading : TankReading → Type 0
  IsFilledReading r =
      (value : Payload) × (received_at : ℕ) × (lookup (level_topic stale_after (λ i. c) now r.tank)
          c.cache
        ≡ some (value, received_at))
      × (r.level ≡ value)

  abbrev pub IsFilledAnswer : TankAnswer → Type 0
  IsFilledAnswer (one_tank r) = IsFilledReading r
  IsFilledAnswer (tanks rs) = All IsFilledReading rs

  reading-Filled :
      (n : ℤ) (at : ℕ) (o : Option (Payload × ℕ))
      → lookup (level_topic stale_after (λ i. c) now n) c.cache ≡ o
      → is_cached o ≡ true
      → IsFilledReading (tank_reading stale_after n at o)
  reading-Filled n at none e h = absurd (cc h)
  reading-Filled n at (some (value, received_at)) e h = (value, received_at, e, refl)

  readings-Filled :
      (i : ℕ) (ns : List ℕ)
      → All
          (λ n. is_cached (lookup (level_topic stale_after (λ j. c) now (pos n)) c.cache) ≡ true)
          ns
      → All IsFilledReading (tank_readings stale_after (λ j. c) now i (map pos ns))
  unfolding tank_readings
  readings-Filled i [] h = tt
  readings-Filled i (n ∷ ns) (p, h) =
      (reading-Filled (pos n) (now i) _ refl p, readings-Filled (i + 1) ns h)

  answer-Filled :
      (rs : List TankReading)
      → All IsFilledReading rs
      → IsFilledAnswer (tank_answer stale_after (λ j. c) now rs)
  answer-Filled [] h = tt
  answer-Filled (r ∷ []) (p, h) = p
  answer-Filled (r ∷ q ∷ rs) h = h

  -- While the cache stays as it is, a request for all tanks answers with readings that each show the
  -- level that the cache holds for that tank: no tank is found under a name that it is not read by.
  pub get_tank_level-IsFilled :
      (inst : ℤ)
      → leb_ℤ inst (pos 0) ≡ true
      → IsFilledAnswer (get_tank_level stale_after (λ j. c) now inst)
  unfolding get_tank_level keys
  get_tank_level-IsFilled inst h = rw h (
      answer-Filled _ (
        readings-Filled 1 (tank_instances (keys c.cache)) (
          instances-All _ (keys c.cache) (
            All-map
              (λ t k n e.
                subst (λ x. is_cached (lookup x c.cache) ≡ true)
                  (tank_of_lem stale_after (λ j. c) now t n e) k)
              (keys c.cache) (cached_keys c.cache)))))
