-- ===== src/Mqtt/Devices/Listed.antt =====
-- Which devices the list of src/mcp_venus_os/mqtt_client.py holds.
use mcp_venus_os.Prelude.{
  ◌≡◌, refl, sym, ◌∙◌, String, Bool, true, false, not, ◌&&◌, ◌||◌, Option, none, some, List, [],
  ◌∷◌, any, all, map, str_eq, str_eq_iff, if◌then◌else◌, arith,
}
use mcp_venus_os.Prelude.Int.{ℤ, eqb_ℤ, eqb_ℤ_iff}
use mcp_venus_os.Mqtt.{Client}
use mcp_venus_os.Mqtt.Devices.{
  Device, device_parts, same_pair, is_seen, device_of, append_device, visit, collect, place_device,
  sort_devices, list_devices, first_instance, discover_instance,
}

module _ (parse_int : String → Option ℤ) (d : Device) where
  abbrev pub same_device : Device → Bool
  same_device (a, n) = str_eq d.0 a && eqb_ℤ d.1 n

  -- A device of a list.
  abbrev pub is_listed : List Device → Bool
  is_listed = any same_device

  abbrev pub is_it : Option Device → Bool
  is_it none = false
  is_it (some e) = same_device e

  -- The pair names the device.
  abbrev pub names : String × String → Bool
  names p = is_it (device_of parse_int p)

  abbrev pub topic_names : Option (String × String) → Bool
  topic_names none = false
  topic_names (some p) = names p

  -- A device that a seen pair names is in the list.
  abbrev kept : List (String × String) → List Device → Bool
  kept seen devices = all (λ p. not (names p) || is_listed devices) seen

  names_same : (p q : String × String) → same_pair p q ≡ true → names p ≡ names q
  names_same (a, b) (x, y) h =
      let e : a ≡ x = (str_eq_iff a x).0 (ground arith) in
      let f : b ≡ y = (str_eq_iff b y).0 (ground arith) in rw (e, f) refl

  seen_kept :
      (p : String × String) (seen : List (String × String)) (devices : List Device)
      → is_seen p seen ≡ true
      → kept seen devices ≡ true
      → names p ≡ true
      → is_listed devices ≡ true
  seen_kept p [] devices h k n = absurd (cc h)
  seen_kept p (q ∷ seen) devices h k n = ground (arith, names_same p q, seen_kept p seen devices)

  kept_more :
      (seen : List (String × String)) (e : Option Device) (devices : List Device)
      → kept seen devices ≡ true
      → kept seen (append_device parse_int devices e) ≡ true
  kept_more [] e devices h = refl
  kept_more (q ∷ seen) none devices h = h
  kept_more (q ∷ seen) (some e) devices h = ground (arith, kept_more seen (some e) devices)

  append-listed :
      (devices : List Device) (e : Option Device)
      → is_listed (append_device parse_int devices e) ≡ (is_it e || is_listed devices)
  append-listed devices none = refl
  append-listed devices (some e) = refl

  collect-listed :
      (c : Client) (topics : List String) (seen : List (String × String)) (devices : List Device)
      → kept seen devices ≡ true
      → is_listed (collect parse_int c topics (seen, devices))
        ≡ (is_listed devices || any (λ t. topic_names (device_parts c t)) topics)
  unfolding collect
  collect-listed c [] seen devices h = ground arith
  collect-listed c (topic ∷ topics) seen devices h =
      by_parts (device_parts c topic) (λ s ds k. collect-listed c topics s ds k)
    where
      by_parts :
          (o : Option (String × String))
          → ((s : List (String × String)) (ds : List Device)
              → kept s ds ≡ true
              → is_listed (collect parse_int c topics (s, ds))
                ≡ (is_listed ds || any (λ t. topic_names (device_parts c t)) topics))
          → is_listed (collect parse_int c topics (visit parse_int o (seen, devices))) ≡ (
              is_listed devices
              || (topic_names o || any (λ t. topic_names (device_parts c t)) topics))
      by_parts none ih = ih seen devices h
      by_parts (some p) ih = by_seen (is_seen p seen) refl
        where
          by_seen :
              (b : Bool)
              → is_seen p seen ≡ b
              → is_listed (
                  collect parse_int c topics (
                    if b
                    then (seen, devices)
                    else (p ∷ seen, append_device parse_int devices (device_of parse_int p))))
                ≡ (is_listed devices
                    || (names p || any (λ t. topic_names (device_parts c t)) topics))
          by_seen true e =
              let listed = seen_kept p seen devices e h in ih seen devices h ∙ ground arith
          by_seen false e =
              let more = append-listed devices (device_of parse_int p) in
              let still = kept_more seen (device_of parse_int p) devices h in
              ih (p ∷ seen) (append_device parse_int devices (device_of parse_int p)) (ground arith)
              ∙ ground arith

  place-listed :
      (e : Device) (ds : List Device)
      → is_listed (place_device parse_int e ds) ≡ (same_device e || is_listed ds)
  unfolding place_device
  place-listed e [] = refl
  place-listed e (x ∷ xs) = ground (arith, place-listed e xs)

  sort-listed : (ds : List Device) → is_listed (sort_devices parse_int ds) ≡ is_listed ds
  unfolding sort_devices
  sort-listed [] = refl
  sort-listed (x ∷ xs) = ground (arith, place-listed x (sort_devices parse_int xs), sort-listed xs)

  -- A device is listed exactly when a cached topic names it: below the prefix, its first level is
  -- the device's type and its second level is a text of the device's instance.
  pub list_devices-listed :
      (c : Client)
      → is_listed (list_devices parse_int c)
        ≡ any (λ t. topic_names (device_parts c t)) (map (λ entry. entry.0) c.cache)
  unfolding list_devices
  list_devices-listed c =
      sort-listed (collect parse_int c (map (λ entry. entry.0) c.cache) ([], []))
      ∙ collect-listed c (map (λ entry. entry.0) c.cache) [] [] refl

module _ (parse_int : String → Option ℤ) where
  first_listed :
      (t : String) (ds : List Device) (n : ℤ)
      → first_instance parse_int t ds ≡ some n
      → is_listed parse_int (t, n) ds ≡ true
  first_listed t [] n h = absurd (cc h)
  first_listed t ((a, m) ∷ ds) n h =
      ground (arith, first_listed t ds n, str_eq_iff a t, str_eq_iff t a, eqb_ℤ_iff n m)

  none_listed :
      (t : String) (ds : List Device) (n : ℤ)
      → first_instance parse_int t ds ≡ none
      → is_listed parse_int (t, n) ds ≡ false
  none_listed t [] n h = refl
  none_listed t ((a, m) ∷ ds) n h =
      ground (arith, none_listed t ds n, str_eq_iff a t, str_eq_iff t a)

  -- Discovery returns an instance only if a cached topic names a device of that type and instance,
  -- and returns none only if no cached topic names a device of that type.
  pub discover_instance-listed :
      (c : Client) (t : String) (n : ℤ)
      → (discover_instance parse_int c t ≡ some n
          → any (λ x. topic_names parse_int (t, n) (device_parts c x)) (map (λ e. e.0) c.cache)
            ≡ true)
        × (discover_instance parse_int c t ≡ none
            → any (λ x. topic_names parse_int (t, n) (device_parts c x)) (map (λ e. e.0) c.cache)
              ≡ false)
  unfolding discover_instance
  discover_instance-listed c t n = (
    λ h.
        sym (list_devices-listed parse_int (t, n) c)
        ∙ first_listed t (list_devices parse_int c) n h,
    λ h.
        sym (list_devices-listed parse_int (t, n) c) ∙ none_listed t (list_devices parse_int c) n h,
  )
