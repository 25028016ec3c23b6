-- ===== src/Mqtt/Devices/Shaped.antt =====
-- The shape of the topics from which src/mcp_venus_os/mqtt_client.py lists its devices.
use mathlib.Core.List.{Memᴰ}
use mcp_venus_os.Prelude.{
  ◌≡◌, ◌↔◌, ◌⊎◌, inl, inr, refl, sym, ap, ◌∙◌, String, ◌<>◌, true, false, Option, none, some, List,
  [], ◌∷◌, any_iff, subst, map, split_slash, partition_slash, partition_slash_iff, after_prefix,
  after_prefix_iff, has_char, has_char-append, slash-append, IsSplit, split_slash-IsSplit, str_eq,
  str_eq_iff, &&_iff, arith,
}
use mcp_venus_os.Prelude.Int.{ℤ, eqb_ℤ, eqb_ℤ_iff}
use mcp_venus_os.Mqtt.{Client, prefix}
use mcp_venus_os.Mqtt.Devices.{Device, first_two, parts_behind, device_parts, list_devices}
use mcp_venus_os.Mqtt.Devices.Listed.{same_device, is_it, names, topic_names, list_devices-listed}

-- A text has a first and a second level, and perhaps more.
abbrev pub HasLevels : String → String → String → Type 0
HasLevels s a b =
    (has_char b'/' a ≡ false)
    × (has_char b'/' b ≡ false)
    × ((s ≡ a <> "/" <> b) ⊎ ((rest : String) × (s ≡ a <> "/" <> b <> "/" <> rest)))

parts_of :
    (s a b : String)
    → partition_slash s ≡ some (a, b)
    → (s ≡ a <> "/" <> b) × (has_char b'/' a ≡ false)
parts_of s a b e = (partition_slash_iff s a b).0 e

slash_between : (a b : String) → has_char b'/' (a <> "/" <> b) ≡ true
unfolding has_char
slash_between a b = has_char-append b'/' a ("/" <> b) ∙ rw (slash-append b) (ground arith)

no_parts : (s : String) → has_char b'/' s ≡ false → split_slash s ≡ s ∷ []
no_parts s h = by_parts (partition_slash s) refl (split_slash-IsSplit s)
  where
    by_parts :
        (o : Option (String × String))
        → partition_slash s ≡ o
        → IsSplit s o (split_slash s)
        → split_slash s ≡ s ∷ []
    by_parts none e k = k.0
    by_parts (some (a, b)) e k =
        let has = ap (has_char b'/') (parts_of s a b e).0 ∙ slash_between a b in
        absurd (cc (has, h))

some_parts :
    (s a b : String)
    → (s ≡ a <> "/" <> b)
    → has_char b'/' a ≡ false
    → split_slash s ≡ a ∷ split_slash b
some_parts s a b e h =
    by_parts (partition_slash s) ((partition_slash_iff s a b).1 (e, h)) (split_slash-IsSplit s)
  where
    by_parts :
        (o : Option (String × String))
        → o ≡ some (a, b)
        → IsSplit s o (split_slash s)
        → split_slash s ≡ a ∷ split_slash b
    by_parts none f k = absurd (cc f)
    by_parts (some (x, y)) f k = k ∙ cc f

pub first_two-HasLevels :
    (s a b : String) → (first_two (split_slash s) ≡ some (a, b)) ↔ HasLevels s a b
first_two-HasLevels s a b = (
  outer (partition_slash s) refl (split_slash-IsSplit s),
  λ (h, k, o). elim o [
    | inl e ↦ ap first_two (some_parts s a b e h ∙ ap (λ (l : List String). a ∷ l) (no_parts b k))
    | inr (rest, e) ↦ ap first_two (
        some_parts s a (b <> "/" <> rest) e h
        ∙ ap (λ (l : List String). a ∷ l) (some_parts (b <> "/" <> rest) b rest refl k))
  ],
)
  where
    inner :
        (x y : String)
        → (s ≡ x <> "/" <> y)
        → has_char b'/' x ≡ false
        → (o : Option (String × String)) → partition_slash y ≡ o
        → IsSplit y o (split_slash y)
        → first_two (x ∷ split_slash y) ≡ some (a, b)
        → HasLevels s a b
    inner x y e h none f (k, free) g =
        let pair : some (x, y) ≡ some (a, b) =
          sym (ap (λ (l : List String). first_two (x ∷ l)) k) ∙ g in
        let p : x ≡ a = cc pair in
        let q : y ≡ b = cc pair in (rw (← p) h, rw (← q) free, inl (e ∙ rw (p, q) refl))
    inner x y e h (some (z, t)) f k g =
        let pair : some (x, z) ≡ some (a, b) =
          sym (ap (λ (l : List String). first_two (x ∷ l)) k) ∙ g in
        let p : x ≡ a = cc pair in
        let q : z ≡ b = cc pair in
        let (whole, free) = parts_of y z t f in
        (rw (← p) h, rw (← q) free, inr (t, e ∙ rw (whole, p, q) refl))

    outer :
        (o : Option (String × String))
        → partition_slash s ≡ o
        → IsSplit s o (split_slash s)
        → first_two (split_slash s) ≡ some (a, b)
        → HasLevels s a b
    outer none f (k, free) g = absurd (cc (sym (ap first_two k) ∙ g))
    outer (some (x, y)) f k g =
        let (whole, free) = parts_of s x y f in
        inner x y whole free (partition_slash y) refl (split_slash-IsSplit y)
          (sym (ap first_two k) ∙ g)

module _ (parse_int : String → Option ℤ) (d : Device) where
  -- A topic below the portal's prefix, whose first level is the type of the device, and whose second
  -- level is a text of the instance.
  abbrev pub IsTopicOf : Client → String → Type 0
  IsTopicOf c topic =
      (below : String) × (identifier : String) × (topic ≡ (("N/" <> c.portal) <> "/") <> below)
      × HasLevels below d.0 identifier
      × (parse_int identifier ≡ some d.1)

  same-device : (e : Device) → (same_device parse_int d e ≡ true) ↔ (e ≡ d)
  same-device (a, n) = (
    λ h.
        let (s, t) = (&&_iff (str_eq d.0 a) (eqb_ℤ d.1 n)).0 h in
        λ i. (sym ((str_eq_iff d.0 a).0 s) i, sym ((eqb_ℤ_iff d.1 n).0 t) i),
    λ e. (&&_iff (str_eq d.0 a) (eqb_ℤ d.1 n)).1 (
      (str_eq_iff d.0 a).1 (sym (ap (λ (x : Device). x.0) e)),
      (eqb_ℤ_iff d.1 n).1 (sym (ap (λ (x : Device). x.1) e)),
    ),
  )

  names_iff :
      (a b : String) → (names parse_int d (a, b) ≡ true) ↔ ((a ≡ d.0) × (parse_int b ≡ some d.1))
  names_iff a b = by_number (parse_int b)
    where
      by_number :
          (o : Option ℤ)
          → (is_it parse_int d (elim o [ none ↦ none | some n ↦ some (a, n) ]) ≡ true)
            ↔ ((a ≡ d.0) × (o ≡ some d.1))
      by_number none = (λ h. absurd (cc h), λ (e, f). absurd (cc f))
      by_number (some n) = (
        λ h.
            let e = (same-device (a, n)).0 h in
            (ap (λ (x : Device). x.0) e, ap (λ (x : Device). some x.1) e),
        λ (e, f). (same-device (a, n)).1 (let g : n ≡ d.1 = cc f in λ i. (e i, g i)),
      )

  topic_names-IsTopicOf :
      (c : Client) (topic : String)
      → (topic_names parse_int d (device_parts c topic) ≡ true) ↔ IsTopicOf c topic
  unfolding device_parts
  topic_names-IsTopicOf c topic = (
    outer (after_prefix topic (prefix c <> "/")) refl,
    λ (below, b, e, l, f).
        rw
          (
            (after_prefix_iff topic (prefix c <> "/") below).1 e,
            (first_two-HasLevels below d.0 b).1 l,
          )
          ((names_iff d.0 b).1 (refl, f)),
  )
    where
      inner :
          (below : String)
          → (topic ≡ (prefix c <> "/") <> below)
          → (o : Option (String × String)) → first_two (split_slash below) ≡ o
          → topic_names parse_int d o ≡ true
          → IsTopicOf c topic
      inner below e none f h = absurd (cc h)
      inner below e (some (a, b)) f h =
          let (p, q) = (names_iff a b).0 h in
          (below, b, e, (first_two-HasLevels below d.0 b).0 (f ∙ (λ i. some (p i, b))), q)

      outer :
          (o : Option String)
          → after_prefix topic (prefix c <> "/") ≡ o
          → topic_names parse_int d (parts_behind o) ≡ true
          → IsTopicOf c topic
      outer none f h = absurd (cc h)
      outer (some below) f h =
          inner below ((after_prefix_iff topic (prefix c <> "/") below).0 f)
            (first_two (split_slash below)) refl h

  -- A device is listed exactly when a topic of the cache names it: the topic is "N/", the portal, a
  -- slash, the type of the device, a slash and a text that is read as the instance, the type and the
  -- text without a slash, and perhaps another slash and more.
  pub list_devices-Shaped :
      (c : Client)
      → Memᴰ d (list_devices parse_int c)
        ↔ ((topic : String) × Memᴰ topic (map (λ entry. entry.0) c.cache) × IsTopicOf c topic)
  list_devices-Shaped c = (
    λ m.
        let listed =
          (any_iff (same_device parse_int d) (list_devices parse_int c)).1
            (d, m, (same-device d).1 refl) in
        let (t, k, h) =
          (any_iff _ (map (λ entry. entry.0) c.cache)).0
            (sym (list_devices-listed parse_int d c) ∙ listed) in
        (t, k, (topic_names-IsTopicOf c t).0 h),
    λ (t, k, h).
        let found =
          (any_iff (λ x. topic_names parse_int d (device_parts c x))
              (map (λ entry. entry.0) c.cache)).1
            (t, k, (topic_names-IsTopicOf c t).1 h) in
        let (e, m, s) =
          (any_iff (same_device parse_int d) (list_devices parse_int c)).0
            (list_devices-listed parse_int d c ∙ found) in
        subst (λ x. Memᴰ x (list_devices parse_int c)) ((same-device e).0 s) m,
  )
