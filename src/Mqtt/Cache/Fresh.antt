-- ===== src/Mqtt/Cache/Fresh.antt =====
-- What the reads of the cache in src/mcp_venus_os/mqtt_client.py return.
use mcp_venus_os.Prelude.{
  ℕ, ◌≡◌, ◌↔◌, refl, ap, ◌∙◌, String, Bool, true, false, Option, none, some, List, [], ◌∷◌, ◌++◌,
  lookup, leb, ltb, if◌then◌else◌, arith, All,
}
use mcp_venus_os.Prelude.Int.{ℤ, sub_ℕ}
use mcp_venus_os.Value.{Payload, Number, float, finite}
use mcp_venus_os.Telemetry.{item_topic}
use mcp_venus_os.Mqtt.{Client, prefix}
use mcp_venus_os.Mqtt.Cache.{aged, cached, read_path, read_first, not_before, read_path_since}

-- The age of a value at a reading of the clock, in seconds as a float.
abbrev pub age_at : ℕ → ℕ → Number
age_at now at = float (finite (sub_ℕ now at))

module _ (now : ℕ) (c : Client) (device_type : String) (inst : ℤ) where
  -- A read with a deadline returns a value and an age exactly when the cache holds that value,
  -- received at the deadline or later, and the age is the time since.
  pub read_path_since_iff :
      (path : String) (since : ℕ) (v : Payload) (age : Number)
      → (read_path_since now c device_type inst path since ≡ some (v, age)) ↔ (
          (at : ℕ) × (lookup (item_topic (prefix c) device_type inst path) c.cache ≡ some (v, at))
          × (leb since at ≡ true)
          × (age ≡ age_at now at))
  unfolding read_path_since
  read_path_since_iff path since v age =
      (sound (cached c device_type inst path), λ (at, e, l, a). complete at e l a)
    where
      sound :
          (o : Option (Payload × ℕ))
          → aged now (not_before since o) ≡ some (v, age)
          → (at : ℕ) × (o ≡ some (v, at)) × (leb since at ≡ true) × (age ≡ age_at now at)
      sound none h = absurd (cc h)
      sound (some (w, at)) h = in_time (ltb at since) refl h
        where
          in_time :
              (b : Bool)
              → ltb at since ≡ b
              → aged now (if b then none else some (w, at)) ≡ some (v, age)
              → (t : ℕ) × (◌≡◌ {A = Option (Payload × ℕ)} (some (w, at)) (some (v, t)))
                × (leb since t ≡ true)
                × (age ≡ age_at now t)
          in_time true e k = absurd (cc k)
          in_time false e k = (at, ap (λ (x : Payload). some (x, at)) (cc k), ground arith, cc k)

      complete :
          (at : ℕ)
          → cached c device_type inst path ≡ some (v, at)
          → leb since at ≡ true
          → age ≡ age_at now at
          → aged now (not_before since (cached c device_type inst path)) ≡ some (v, age)
      complete at e l a = rw e (ap (aged now) (kept at l) ∙ ap (λ (x : Number). some (v, x)) (cc a))
        where
          kept : (t : ℕ) → leb since t ≡ true → not_before since (some (v, t)) ≡ some (v, t)
          kept t k = ground arith

  -- The first of the candidates that is cached, with what stands around it.
  pub record First (paths : List String) (r : Payload × Number) : Type 0 where
    pub before : List String
    pub path : String
    pub behind : List String
    pub split : paths ≡ before ++ path ∷ behind
    pub missing : All (λ p. read_path now c device_type inst p ≡ none) before
    pub found : read_path now c device_type inst path ≡ some r

  abbrev first_of :
      Option (Payload × Number) → Option (Payload × Number) → Option (Payload × Number)
  first_of o rest = elim o [ none ↦ rest | some r ↦ some r ]

  read_first_sound :
      (paths : List String) (r : Payload × Number)
      → read_first now c device_type inst paths ≡ some r
      → First paths r
  unfolding read_first
  read_first_sound [] r h = absurd (cc h)
  read_first_sound (p ∷ ps) r h =
      by_cases (read_path now c device_type inst p) refl (read_first_sound ps r) h
    where
      by_cases :
          (o : Option (Payload × Number))
          → read_path now c device_type inst p ≡ o
          → (read_first now c device_type inst ps ≡ some r → First ps r)
          → first_of o (read_first now c device_type inst ps) ≡ some r
          → First (p ∷ ps) r
      by_cases none e ih k =
          let f = ih k in
          record {
            before = p ∷ f.before;
            path = f.path;
            behind = f.behind;
            split = ap (λ (l : List String). p ∷ l) f.split;
            missing = (e, f.missing);
            found = f.found;
          }
      by_cases (some q) e ih k = record {
        before = [];
        path = p;
        behind = ps;
        split = refl;
        missing = tt;
        found = e ∙ k;
      }

  read_first_of_split :
      (before behind : List String) (path : String) (r : Payload × Number)
      → All (λ p. read_path now c device_type inst p ≡ none) before
      → read_path now c device_type inst path ≡ some r
      → read_first now c device_type inst (before ++ path ∷ behind) ≡ some r
  unfolding read_first
  read_first_of_split [] behind path r h k = rw (k, read_first) refl
  read_first_of_split (p ∷ ps) behind path r (e, h) k =
      rw (e, read_first) (read_first_of_split ps behind path r h k)

  -- Reading a list of candidates returns a value exactly when it is the value of one candidate, and
  -- the candidates in front of that one are not cached.
  pub read_first_iff :
      (paths : List String) (r : Payload × Number)
      → (read_first now c device_type inst paths ≡ some r) ↔ First paths r
  read_first_iff paths r = (
    read_first_sound paths r,
    λ f. rw f.split (read_first_of_split f.before f.behind f.path r f.missing f.found),
  )
