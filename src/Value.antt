-- ===== src/Value.antt =====
-- The Python values that the program passes around: the decoded JSON payloads of
-- src/mcp_venus_os/mqtt_client.py (`Payload`) and the `object`/`Any` arguments of safety.py and
-- hardware_contracts.py. A finite float is an integral number of units of 2^-1074, the least
-- positive double, so comparisons between ints and floats are exact, as Python's are.
pub mod Order
pub mod Arithmetic
use mcp_venus_os.Prelude.{
  ℕ, ◌-◌, ◌^◌, ◌<◌, String, ◌≡◌, Bool, true, false, ◌&&◌, Option, none, some, ltb, str_eq,
  if◌then◌else◌,
}
use mcp_venus_os.Prelude.Int.{ℤ, abs, leb_ℤ, ltb_ℤ, eqb_ℤ, scale}

pub data Float : Type 0 where
  finite : ℤ → Float
  inf neg_inf nan : Float

-- `int | float`, without `bool`.
pub data Number : Type 0 where
  int : ℤ → Number
  float : Float → Number

mutual
  pub data Payload : Type 0 where
    null : Payload
    bool : Bool → Payload
    num : Number → Payload
    str : String → Payload
    arr : Items → Payload
    obj : Entries → Payload

  pub data Items : Type 0 where
    nil : Items
    cons : Payload → Items → Items

  pub data Entries : Type 0 where
    end : Entries
    entry : String → Payload → Entries → Entries

-- How many units of 2^-1074 one is.
unfoldable pub one_units : ℕ
one_units = 2 ^ 1074

-- The exact value of a number, in units; it need not be one of the doubles.
abbrev pub exact : Number → Float
exact (int n) = finite (scale n one_units)
exact (float x) = x

abbrev pub float_le : Float → Float → Bool
float_le (finite a) (finite b) = leb_ℤ a b
float_le neg_inf (finite b) = true
float_le neg_inf neg_inf = true
float_le neg_inf inf = true
float_le (finite a) inf = true
float_le inf inf = true
float_le _ _ = false

abbrev pub float_eq : Float → Float → Bool
float_eq (finite a) (finite b) = eqb_ℤ a b
float_eq inf inf = true
float_eq neg_inf neg_inf = true
float_eq _ _ = false

abbrev pub float_lt : Float → Float → Bool
float_lt (finite a) (finite b) = ltb_ℤ a b
float_lt neg_inf (finite b) = true
float_lt neg_inf inf = true
float_lt (finite a) inf = true
float_lt _ _ = false

-- `a <= b`, `a < b` and `a == b` of Python on ints and floats.
abbrev pub num_le : Number → Number → Bool
num_le a b = float_le (exact a) (exact b)

abbrev pub num_lt : Number → Number → Bool
num_lt a b = float_lt (exact a) (exact b)

abbrev pub num_eq : Number → Number → Bool
num_eq a b = float_eq (exact a) (exact b)

-- The least int above the doubles: from here on `float(n)` raises OverflowError.
unfoldable pub overflow_bound : ℕ
overflow_bound = 2 ^ 1024 - 2 ^ 970

abbrev pub is_finite : Float → Bool
is_finite (finite a) = true
is_finite _ = false

-- `math.isfinite(n)`; `none` is OverflowError.
unfoldable pub math_isfinite : Number → Option Bool
math_isfinite (int n) = if ltb (abs n) overflow_bound then some true else none
math_isfinite (float x) = some (is_finite x)
