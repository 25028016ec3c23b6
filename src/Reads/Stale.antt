-- ===== src/Reads/Stale.antt =====
-- What `_collect_mqtt` of src/mcp_venus_os/server.py returns: the fields, and when they are stale.
use mcp_venus_os.Prelude.{
  ℕ, ◌+◌, String, Bool, true, false, not, ◌&&◌, ◌||◌, Option, none, some, List, [], ◌∷◌, any, all,
  lookup, insert, lookup-insert, str_eq, if◌then◌else◌, ◌≡◌, ◌⊎◌, inl, inr, refl, sym, subst, ap,
  ◌∙◌, arith,
}
use mcp_venus_os.Prelude.Int.{ℤ, pos}
use mcp_venus_os.Value.{Float, finite, Number, float, Payload, null, bool, num, num_lt}
use mcp_venus_os.Telemetry.{FieldPaths}
use mcp_venus_os.Mqtt.{Client}
use mcp_venus_os.Mqtt.Cache.{read_first}
use mcp_venus_os.Readings.{Reading}
use mcp_venus_os.Reads.{
  Collected, with_field, collect_fields, with_ages, nothing_collected, collect_mqtt,
}
use mcp_venus_os.Value.Arithmetic.{round_number}
use mcp_venus_os.Reads.Ages.{
  is_age, is_dated, read_first-dated, fold_max, age_of, below-fold, IsGreatest, fold_max-IsGreatest,
}

abbrev is_nil : List Number → Bool
is_nil [] = true
is_nil (a ∷ ages) = false

abbrev pub prepend : Option (Payload × Number) → List Number → List Number
prepend none ages = ages
prepend (some (v, a)) ages = a ∷ ages

abbrev pub value_of : Option (Payload × Number) → Payload
value_of none = null
value_of (some (v, a)) = v

abbrev pub or_this : Option Payload → Option Payload → Option Payload
or_this none o = o
or_this (some v) o = some v

or_nothing : (o : Option Payload) → or_this o none ≡ o
or_nothing none = refl
or_nothing (some v) = refl

module _ (look : ℕ → Client) (now : ℕ → ℕ) (device_type : String) (inst : ℤ) where
  abbrev read_at : ℕ → List String → Option (Payload × Number)
  read_at i candidates = read_first (now i) (look i) device_type inst candidates

  -- The ages of the fields of which a candidate is cached.
  abbrev pub ages_of : ℕ → FieldPaths → List Number
  ages_of i [] = []
  ages_of i ((field, candidates) ∷ rest) = prepend (read_at i candidates) (ages_of (i + 1) rest)

  -- What is read for a field, null where no candidate is cached; the last entry of its name counts.
  abbrev pub read_of : String → ℕ → FieldPaths → Option Payload
  read_of key i [] = none
  read_of key i ((field, candidates) ∷ rest) =
      or_this (read_of key (i + 1) rest)
        (if str_eq field key then some (value_of (read_at i candidates)) else none)

  dated-ages : (i : ℕ) (fields : FieldPaths) → all is_age (ages_of i fields) ≡ true
  dated-ages i [] = refl
  dated-ages i ((field, candidates) ∷ rest) =
      by_read (read_at i candidates) (read_first-dated (now i) (look i) device_type inst candidates)
        (dated-ages (i + 1) rest)
    where
      by_read :
          (o : Option (Payload × Number))
          → is_dated o ≡ true
          → all is_age (ages_of (i + 1) rest) ≡ true
          → all is_age (prepend o (ages_of (i + 1) rest)) ≡ true
      by_read none d h = h
      by_read (some (v, a)) d h = ground arith

  module _ (stale_after : Float) where
    abbrev fields_after : ℕ → FieldPaths → Collected → Collected
    fields_after i fields s = collect_fields look now stale_after device_type inst i fields s

    fields-max :
        (i : ℕ) (fields : FieldPaths) (s : Collected)
        → (fields_after i fields s).max_age ≡ fold_max s.max_age (ages_of i fields)
    unfolding collect_fields
    fields-max i [] s = refl
    fields-max i ((field, candidates) ∷ rest) s =
        by_read (read_at i candidates) (λ t. fields-max (i + 1) rest t)
      where
        by_read :
            (o : Option (Payload × Number))
            → ((t : Collected)
                → (fields_after (i + 1) rest t).max_age ≡ fold_max t.max_age (ages_of (i + 1) rest))
            → (fields_after (i + 1) rest (with_field field o s)).max_age
              ≡ fold_max s.max_age (prepend o (ages_of (i + 1) rest))
        by_read none ih = ih _
        by_read (some (v, a)) ih = ih _

    fields-seen :
        (i : ℕ) (fields : FieldPaths) (s : Collected)
        → (fields_after i fields s).seen_any ≡ (s.seen_any || not (is_nil (ages_of i fields)))
    unfolding collect_fields
    fields-seen i [] s = ground arith
    fields-seen i ((field, candidates) ∷ rest) s =
        by_read (read_at i candidates) (λ t. fields-seen (i + 1) rest t)
      where
        by_read :
            (o : Option (Payload × Number))
            → ((t : Collected)
                → (fields_after (i + 1) rest t).seen_any
                  ≡ (t.seen_any || not (is_nil (ages_of (i + 1) rest))))
            → (fields_after (i + 1) rest (with_field field o s)).seen_any
              ≡ (s.seen_any || not (is_nil (prepend o (ages_of (i + 1) rest))))
        by_read none ih = ih _
        by_read (some (v, a)) ih = ih _ ∙ ground arith

    fields-value :
        (key : String) (i : ℕ) (fields : FieldPaths) (s : Collected)
        → lookup key (fields_after i fields s).out
          ≡ or_this (read_of key i fields) (lookup key s.out)
    unfolding collect_fields
    fields-value key i [] s = refl
    fields-value key i ((field, candidates) ∷ rest) s =
        by_read (read_at i candidates) (λ t. fields-value key (i + 1) rest t)
      where
        by_read :
            (o : Option (Payload × Number))
            → ((t : Collected)
                → lookup key (fields_after (i + 1) rest t).out
                  ≡ or_this (read_of key (i + 1) rest) (lookup key t.out))
            → lookup key (fields_after (i + 1) rest (with_field field o s)).out
              ≡ or_this
                  (or_this
                    (read_of key (i + 1) rest)
                    (if str_eq field key then some (value_of o) else none))
                  (lookup key s.out)
        by_read none ih = ih _ ∙ ground (arith, lookup-insert field key null s.out)
        by_read (some (v, a)) ih = ih _ ∙ ground (arith, lookup-insert field key v s.out)

    abbrev stale_of : Collected → Bool
    stale_of s = (s.seen_any && num_lt (float stale_after) s.max_age) || not s.seen_any

    with_ages-stale :
        (s : Collected)
        → lookup "stale" (with_ages look now stale_after s) ≡ some (bool (stale_of s))
    with_ages-stale s =
        lookup-insert "age_seconds" "stale" _ (insert "stale" (bool (stale_of s)) s.out)
        ∙ lookup-insert "stale" "stale" (bool (stale_of s)) s.out

    with_ages-value :
        (key : String) (s : Collected)
        → str_eq "stale" key ≡ false
        → str_eq "age_seconds" key ≡ false
        → lookup key (with_ages look now stale_after s) ≡ lookup key s.out
    with_ages-value key s n m =
        lookup-insert "age_seconds" key _ (insert "stale" (bool (stale_of s)) s.out)
        ∙ rw m (lookup-insert "stale" key (bool (stale_of s)) s.out ∙ rw n refl)

    stale_lem :
        (ages : List Number) (seen : Bool) (m : Number)
        → num_lt (float stale_after) (age_of (pos 0)) ≡ false
        → all is_age ages ≡ true
        → seen ≡ not (is_nil ages)
        → m ≡ fold_max (age_of (pos 0)) ages
        → ((seen && num_lt (float stale_after) m) || not seen)
          ≡ (is_nil ages || any (num_lt (float stale_after)) ages)
    stale_lem ages seen m z d e f =
        rw (e, f, below-fold stale_after (pos 0) ages d, z) (ground arith)

    -- Null where nothing is cached, or else the greatest of the ages and zero, rounded.
    abbrev pub IsAged : List Number → Option Payload → Type 0
    IsAged ages shown =
        ((is_nil ages ≡ true) × (shown ≡ some null))
        ⊎ ((is_nil ages ≡ false)
            × (m : Number) × IsGreatest (age_of (pos 0)) ages m
            × (shown ≡ some (num (round_number m))))

    abbrev shown_age : Bool → Number → Payload
    shown_age seen m = if seen then num (round_number m) else null

    with_ages-age :
        (s : Collected)
        → lookup "age_seconds" (with_ages look now stale_after s)
          ≡ some (shown_age s.seen_any s.max_age)
    with_ages-age s =
        lookup-insert "age_seconds" "age_seconds" (shown_age s.seen_any s.max_age)
          (insert "stale" (bool (stale_of s)) s.out)

    age_lem :
        (ages : List Number) (seen : Bool) (m : Number)
        → all is_age ages ≡ true
        → seen ≡ not (is_nil ages)
        → m ≡ fold_max (age_of (pos 0)) ages
        → IsAged ages (some (shown_age seen m))
    age_lem [] seen m d e f = inl (refl, rw e refl)
    age_lem (a ∷ ages) seen m d e f = inr (
      refl,
      fold_max (age_of (pos 0)) (a ∷ ages),
      fold_max-IsGreatest (pos 0) (a ∷ ages) d,
      rw (e, f) refl,
    )

    abbrev reading : ℕ → FieldPaths → Reading
    reading i fields = collect_mqtt look now stale_after device_type inst i fields

    -- If the limit is not negative, a reading is stale exactly if no field was cached or the age of one
    -- is above the limit; its age is null if no field was cached, or else the greatest age, or zero,
    -- rounded; and each key but these two has what is read for the field of that name, null where no
    -- candidate is cached.
    pub collect_mqtt-IsCollected :
        (i : ℕ) (fields : FieldPaths) (key : String)
        → num_lt (float stale_after) (float (finite (pos 0))) ≡ false
        → str_eq "stale" key ≡ false
        → str_eq "age_seconds" key ≡ false
        → (lookup "stale" (reading i fields)
            ≡ some (
                bool (
                  is_nil (ages_of i fields)
                  || any (num_lt (float stale_after)) (ages_of i fields))))
          × IsAged (ages_of i fields) (lookup "age_seconds" (reading i fields))
          × (lookup key (reading i fields) ≡ read_of key i fields)
    unfolding collect_mqtt lookup
    collect_mqtt-IsCollected i fields key z n m =
        let s = fields_after i fields (nothing_collected look now stale_after) in
        (
          with_ages-stale s
              ∙ ap (λ (b : Bool). some (bool b))
                  (stale_lem (ages_of i fields) s.seen_any s.max_age z (dated-ages i fields)
                    (fields-seen i fields (nothing_collected look now stale_after))
                    (fields-max i fields (nothing_collected look now stale_after))),
          subst (IsAged (ages_of i fields)) (sym (with_ages-age s)) (
              age_lem (ages_of i fields) s.seen_any s.max_age (dated-ages i fields)
                (fields-seen i fields (nothing_collected look now stale_after))
                (fields-max i fields (nothing_collected look now stale_after))),
          with_ages-value key s n m
              ∙ (fields-value key i fields (nothing_collected look now stale_after)
                  ∙ or_nothing (read_of key i fields)),
        )
