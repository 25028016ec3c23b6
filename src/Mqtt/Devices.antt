-- ===== src/Mqtt/Devices.antt =====
-- The device list of src/mcp_venus_os/mqtt_client.py. `parse_int` is `int` of a text, with `none` for
-- ValueError.
pub mod Listed
pub mod Shaped
use mcp_venus_os.Prelude.{
  String, ◌<>◌, Bool, ◌&&◌, Option, none, some, List, [], ◌∷◌, any, map, after_prefix, split_slash,
  str_eq, if◌then◌else◌, text_le,
}
use mcp_venus_os.Prelude.Int.{ℤ, leb_ℤ}
use mcp_venus_os.Mqtt.{Client, prefix}

abbrev pub Device : Type 0
Device = String × ℤ

abbrev pub first_two : List String → Option (String × String)
first_two [] = none
first_two (a ∷ []) = none
first_two (a ∷ b ∷ rest) = some (a, b)

abbrev pub parts_behind : Option String → Option (String × String)
parts_behind none = none
parts_behind (some rest) = first_two (split_slash rest)

-- The first two levels of a topic below the prefix.
unfoldable pub device_parts : Client → String → Option (String × String)
device_parts c topic = parts_behind (after_prefix topic (prefix c <> "/"))

abbrev pub same_pair : String × String → String × String → Bool
same_pair (a, b) (x, y) = str_eq a x && str_eq b y

-- `(rest[0], rest[1]) in seen`
abbrev pub is_seen : String × String → List (String × String) → Bool
is_seen p = any (same_pair p)

module _ (parse_int : String → Option ℤ) where
  abbrev pub device_of : String × String → Option Device
  device_of (family, identifier) = elim (parse_int identifier) [
    | none ↦ none
    | some n ↦ some (family, n)
  ]

  abbrev pub append_device : List Device → Option Device → List Device
  append_device devices none = devices
  append_device devices (some d) = d ∷ devices

  -- One round of the loop: what is seen, and the devices so far, the last one first.
  abbrev pub visit :
      Option (String × String)
      → List (String × String) × List Device
      → List (String × String) × List Device
  visit none (seen, devices) = (seen, devices)
  visit (some p) (seen, devices) =
      if is_seen p seen then (seen, devices) else (p ∷ seen, append_device devices (device_of p))

  unfoldable pub collect : Client → List String → List (String × String) × List Device → List Device
  collect c [] (seen, devices) = devices
  collect c (topic ∷ topics) state = collect c topics (visit (device_parts c topic) state)

  -- `(d["device_type"], d["instance"])` in its order.
  abbrev pub device_le : Device → Device → Bool
  device_le (a, n) (b, m) = if str_eq a b then leb_ℤ n m else text_le a b

  unfoldable pub place_device : Device → List Device → List Device
  place_device d [] = d ∷ []
  place_device d (e ∷ es) = if device_le d e then d ∷ e ∷ es else e ∷ place_device d es

  unfoldable pub sort_devices : List Device → List Device
  sort_devices [] = []
  sort_devices (d ∷ ds) = place_device d (sort_devices ds)

  -- `list_devices`
  unfoldable pub list_devices : Client → List Device
  list_devices c = sort_devices (collect c (map (λ entry. entry.0) c.cache) ([], []))

  abbrev pub first_instance : String → List Device → Option ℤ
  first_instance t [] = none
  first_instance t ((a, n) ∷ ds) =
      let rest = first_instance t ds in if str_eq a t then some n else rest

  -- `discover_instance`
  unfoldable pub discover_instance : Client → String → Option ℤ
  discover_instance c device_type = first_instance device_type (list_devices c)
