-- ===== src/Dbus.antt =====
-- src/mcp_venus_os/dbus_client.py: the D-Bus client. A call and what the bus answers to it are values:
-- `answer calls c` is the answer to the call `c` after the calls before it. `parse_int` is `int` and
-- `parse_float` is `float` of a text, and `show` is `str` of a value.
pub mod Getters
pub mod Calls
pub mod ReadOnly
pub mod Listing
pub mod Tests
use Prim.Native.Char.{Char, code}
use mcp_venus_os.Prelude.{
  ℕ, ◌/◌, ◌-◌, String, ◌<>◌, Bool, true, false, not, ◌&&◌, Option, none, some, List, [], ◌∷◌, ◌++◌,
  starts_with, show_ℤ, length, leb, ◌==◌, str_eq, push_head, if◌then◌else◌,
}
use mcp_venus_os.Prelude.Int.{ℤ, pos, negsuc, neg_part, pos_part, sub_ℕ, eqb_ℤ}
use mcp_venus_os.Value.{
  Float, finite, inf, neg_inf, nan, Number, int, float, Payload, null, bool, num, str, arr, obj,
  nil, end, num_eq, one_units,
}
use mcp_venus_os.Config.{DbusConfig}
use mcp_venus_os.Write.{number_to_float}

pub data DbusError : Type 0 where
  not_connected : DbusError
  call_error : DbusError
  -- What the bus itself raises, and an answer of another form than the code expects.
  transport_error malformed : DbusError
  type_error value_error overflow_error : DbusError

pub data Result {ℓ} (A : Type ℓ) : Type ℓ where
  ok : A → Result A
  err : DbusError → Result A

pub record Call : Type 0 where
  pub destination : String
  pub path : String
  pub interface : String
  pub member : String
  pub body : List String

pub data Answer : Type 0 where
  -- The value of the variant in the body, or the names.
  value_answer : Payload → Answer
  names_answer : List String → Answer
  error_answer : Answer
  raises : Answer

-- The client: whether it has a bus, `_connected`, and the calls that it has made.
pub record Bus : Type 0 where
  pub has_bus : Bool
  pub connected : Bool
  pub calls : List Call

-- An operation of the client.
abbrev pub Op : Type 0 → Type 0
Op A = Bus → Result A × Bus

abbrev pub follow : {A B : Type 0} → (A → Op B) → Result A × Bus → Result B × Bus
follow f (ok a, b) = f a b
follow f (err e, b) = (err e, b)

infixl 5 ◌>>=◌ ◌>>◌
unfoldable pub ◌>>=◌ : {A B : Type 0} → Op A → (A → Op B) → Op B
◌>>=◌ m f b = follow f (m b)

abbrev pub ◌>>◌ : {B : Type 0} → Op (Unit {0}) → Op B → Op B
m >> k = m >>= λ _. k

-- A computation that does not use the bus.
unfoldable pub pure : {A : Type 0} → Result A → Op A
pure r b = (r, b)

-- `float(value)`
abbrev pub float_result : Option Float → Result Float
float_result none = err overflow_error
float_result (some x) = ok x

abbrev pub text_result : {A : Type 0} → Option A → Result A
text_result none = err value_error
text_result (some x) = ok x

abbrev pub to_float : (String → Option Float) → Payload → Result Float
to_float parse_float (num n) = float_result (number_to_float n)
to_float parse_float (bool b) = float_result (number_to_float (int (if b then pos 1 else pos 0)))
to_float parse_float (str s) = text_result (parse_float s)
to_float parse_float _ = err type_error

-- The integral part of a float, towards zero.
abbrev pub truncated : ℤ → ℤ
truncated (pos n) = pos (n / one_units)
truncated (negsuc n) = sub_ℕ 0 (neg_part (negsuc n) / one_units)

-- `int(value)`
abbrev pub to_int : (String → Option ℤ) → Payload → Result ℤ
to_int parse_int (num (int n)) = ok n
to_int parse_int (num (float (finite a))) = ok (truncated a)
to_int parse_int (num (float nan)) = err value_error
to_int parse_int (num (float inf)) = err overflow_error
to_int parse_int (num (float neg_inf)) = err overflow_error
to_int parse_int (bool b) = ok (if b then pos 1 else pos 0)
to_int parse_int (str s) = text_result (parse_int s)
to_int parse_int _ = err type_error

-- `bool(value)`
abbrev pub is_true : Payload → Bool
is_true null = false
is_true (bool b) = b
is_true (num n) = not (num_eq n (int (pos 0)))
is_true (str String.[]) = false
is_true (str (String.◌∷◌ c s)) = true
is_true (arr nil) = false
is_true (obj end) = false
is_true _ = true

-- `int(time_to_go) if time_to_go else None`
abbrev pub optional_int : (String → Option ℤ) → Payload → Result (Option ℤ)
optional_int parse_int v = if is_true v then wrapped (to_int parse_int v) else ok none
  where
    wrapped : Result ℤ → Result (Option ℤ)
    wrapped (ok n) = ok (some n)
    wrapped (err e) = err e

module _ (connects : ℕ → Bool) (answer : List Call → Call → Answer) where
  -- `connect`: after how many calls it is tried decides whether the bus can be reached.
  unfoldable pub connect : Op (Unit {0})
  connect b =
      if b.connected
      then (ok tt, b)
      else if connects (length b.calls)
      then (ok tt, record b { has_bus = true; connected = true })
      else (err transport_error, b)

  -- `disconnect`: the bus object is kept.
  unfoldable pub disconnect : Op (Unit {0})
  disconnect b = (ok tt, if b.has_bus && b.connected then record b { connected = false } else b)

  -- `await self.bus.call(msg)`
  abbrev pub call : Call → Op Answer
  call c b =
      if b.has_bus
      then (ok (answer b.calls c), record b { calls = b.calls ++ c ∷ [] })
      else (err not_connected, b)

  abbrev pub property_of : Answer → Result Payload
  property_of (value_answer v) = ok v
  property_of (names_answer ns) = err malformed
  property_of error_answer = err call_error
  property_of raises = err transport_error

  abbrev pub get_of : String → String → String → String → Call
  get_of service path interface name = record {
    destination = service;
    path = path;
    interface = "org.freedesktop.DBus.Properties";
    member = "Get";
    body = interface ∷ name ∷ [];
  }

  -- `_get_property`
  unfoldable pub get_property : String → String → String → String → Op Payload
  get_property service path interface name =
      call (get_of service path interface name) >>= λ a. pure (property_of a)

  -- `_service_path`
  abbrev pub service_of : DbusConfig → ℤ → String → String
  service_of config inst device_type =
      config.service_name <> "." <> device_type <> "." <> show_ℤ inst

-- `name.split(".")`
unfoldable pub split_dot : String → List String
split_dot String.[] = "" ∷ []
split_dot (String.◌∷◌ c s) =
    let parts = split_dot s in if code c == 46 then "" ∷ parts else push_head c parts
