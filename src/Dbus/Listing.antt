-- ===== src/Dbus/Listing.antt =====
-- The device list of src/mcp_venus_os/dbus_client.py.
use mathlib.Core.List.{Memᴰ}
use mcp_venus_os.Prelude.{
  ℕ, String, ◌<>◌, Bool, Option, none, some, List, [], ◌∷◌, starts_with, if◌then◌else◌, ◌≡◌, ◌↔◌,
  refl, sym, ap, ◌∙◌,
}
use mcp_venus_os.Prelude.Int.{ℤ}
use mcp_venus_os.Config.{DbusConfig}
use mcp_venus_os.Dbus.{
  call_error, transport_error, malformed, Result, ok, err, Call, Answer, value_answer, names_answer,
  error_answer, raises, Op, ◌>>=◌, ◌>>◌, pure, connect, call, split_dot,
}

pub record DbusDevice : Type 0 where
  pub service : String
  pub device_type : String
  pub inst : ℤ

-- `(parts[-2], parts[-1])` of a list of three parts or more.
abbrev pub last_two : String → String → List String → String × String
last_two a b [] = (a, b)
last_two a b (c ∷ rest) = last_two b c rest

abbrev pub type_and_instance : List String → Option (String × String)
type_and_instance (a ∷ b ∷ c ∷ rest) = some (last_two b c rest)
type_and_instance _ = none

module _ (config : DbusConfig) (parse_int : String → Option ℤ) where
  abbrev pub with_instance : String → String → Option ℤ → Option DbusDevice
  with_instance name device_type none = none
  with_instance name device_type (some n) =
      some (record { service = name; device_type = device_type; inst = n })

  abbrev pub device_of_parts : String → Option (String × String) → Option DbusDevice
  device_of_parts name none = none
  device_of_parts name (some (device_type, identifier)) =
      with_instance name device_type (parse_int identifier)

  -- The device that a name of the bus stands for.
  unfoldable pub device_of : String → Option DbusDevice
  device_of name =
      if starts_with name (config.service_name <> ".")
      then device_of_parts name (type_and_instance (split_dot name))
      else none

  abbrev pub prepend : Option DbusDevice → List DbusDevice → List DbusDevice
  prepend none devices = devices
  prepend (some d) devices = d ∷ devices

  unfoldable pub devices_of : List String → List DbusDevice
  devices_of [] = []
  devices_of (name ∷ names) = prepend (device_of name) (devices_of names)

  abbrev pub list_names : Call
  list_names = record {
    destination = "org.freedesktop.DBus";
    path = "/org/freedesktop/DBus";
    interface = "org.freedesktop.DBus";
    member = "ListNames";
    body = [];
  }

  abbrev pub names_of : Answer → Result (List String)
  names_of (names_answer ns) = ok ns
  names_of (value_answer v) = err malformed
  names_of error_answer = err call_error
  names_of raises = err transport_error

  module _ (connects : ℕ → Bool) (answer : List Call → Call → Answer) where
    -- `list_devices`
    unfoldable pub list_devices : Op (List DbusDevice)
    list_devices = do
      connect connects answer
      a ← call connects answer list_names
      ns ← pure (names_of a)
      pure (ok (devices_of ns))

  -- A device is in the list exactly if one of the names stands for it.
  pub devices_of_iff :
      (d : DbusDevice) (names : List String)
      → Memᴰ d (devices_of names) ↔ ((name : String) × Memᴰ name names × (device_of name ≡ some d))
  unfolding devices_of
  devices_of_iff d [] = (λ m. elim m [ ], λ (name, m, e). elim m [ ])
  devices_of_iff d (name ∷ names) = (
    found (device_of name) refl (devices_of_iff d names).0,
    λ (n, m, e). kept m e (devices_of_iff d names).1,
  )
    where
      found :
          (o : Option DbusDevice)
          → device_of name ≡ o
          → (Memᴰ d (devices_of names) → (n : String) × Memᴰ n names × (device_of n ≡ some d))
          → Memᴰ d (prepend o (devices_of names))
          → (n : String) × Memᴰ n (name ∷ names) × (device_of n ≡ some d)
      found none e ih m = let (n, k, f) = ih m in (n, Memᴰ.tail k, f)
      found (some x) e ih (Memᴰ.head f) = (name, Memᴰ.head refl, e ∙ ap some (sym f))
      found (some x) e ih (Memᴰ.tail m) = let (n, k, f) = ih m in (n, Memᴰ.tail k, f)

      later :
          (o : Option DbusDevice)
          → Memᴰ d (devices_of names)
          → Memᴰ d (prepend o (devices_of names))
      later none m = m
      later (some x) m = Memᴰ.tail m

      here : (o : Option DbusDevice) → o ≡ some d → Memᴰ d (prepend o (devices_of names))
      here none e = absurd (cc e)
      here (some x) e = Memᴰ.head (cc e)

      kept :
          {n : String}
          → Memᴰ n (name ∷ names)
          → device_of n ≡ some d
          → (((k : String) × Memᴰ k names × (device_of k ≡ some d)) → Memᴰ d (devices_of names))
          → Memᴰ d (prepend (device_of name) (devices_of names))
      kept {n} (Memᴰ.head f) e ih = here (device_of name) (ap device_of (sym f) ∙ e)
      kept {n} (Memᴰ.tail m) e ih = later (device_of name) (ih (n, m, e))
