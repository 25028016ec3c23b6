-- ===== src/Value/Arithmetic.antt =====
-- The sums, the products and the rounding of Python's floats: the nearest double of an exact result,
-- and of two the one whose last digit is even. There is one zero.
use mcp_venus_os.Prelude.{
  ℕ, zero, suc, ◌+◌, ◌-◌, ◌*◌, ◌/◌, ◌%◌, ◌^◌, Bool, true, false, ltb, ◌==◌, if◌then◌else◌, ◌≡◌,
  refl,
}
use mcp_venus_os.Prelude.Int.{ℤ, pos, negsuc, pos_part, neg_part, abs, sub_ℕ}
use mcp_venus_os.Value.{Float, finite, inf, neg_inf, nan, Number, int, float, one_units}

-- The number of binary digits, with fuel.
unfoldable pub bit_length : ℕ → ℕ → ℕ
bit_length zero n = 0
bit_length (suc f) n = let rest = bit_length f (n / 2) in if n == 0 then 0 else rest + 1

-- The multiple of a spacing that is nearest, and of two the even one.
unfoldable pub round_to : ℕ → ℕ → ℕ
round_to spacing n =
    let below = n / spacing in
    let over = n % spacing * 2 in
    if ltb over spacing
    then below * spacing
    else if ltb spacing over
    then (below + 1) * spacing
    else if below % 2 == 0
    then below * spacing
    else (below + 1) * spacing

abbrev is_negative : ℤ → Bool
is_negative (pos n) = false
is_negative (negsuc n) = true

abbrev signed : Bool → ℕ → ℤ
signed true n = sub_ℕ 0 n
signed false n = pos n

-- From here on, in units, a result is an infinity.
abbrev infinite_units : ℕ
infinite_units = 2 ^ 2098

abbrev bounded : Bool → ℕ → Float
bounded negative n =
    if ltb n infinite_units then finite (signed negative n) else if negative then neg_inf else inf

-- The double next to the fraction `n / d` of units: it has at most 53 binary digits.
unfoldable pub nearest : Bool → ℕ → ℕ → Float
nearest negative n d =
    let spacing = 2 ^ (bit_length 4300 (n / d) - 53) in
    bounded negative (round_to (d * spacing) n / d)

abbrev pub add_ℤ : ℤ → ℤ → ℤ
add_ℤ a b = sub_ℕ (pos_part a + pos_part b) (neg_part a + neg_part b)

-- `a + b`
unfoldable pub float_add : Float → Float → Float
float_add (finite a) (finite b) = let sum = add_ℤ a b in nearest (is_negative sum) (abs sum) 1
float_add nan b = nan
float_add (finite a) b = b
float_add inf neg_inf = nan
float_add inf nan = nan
float_add inf b = inf
float_add neg_inf inf = nan
float_add neg_inf nan = nan
float_add neg_inf b = neg_inf

abbrev differ : Bool → Bool → Bool
differ true b = if b then false else true
differ false b = b

abbrev is_zero : ℤ → Bool
is_zero a = abs a == 0

abbrev infinity : Bool → Float
infinity negative = if negative then neg_inf else inf

abbrev infinite_times : Bool → ℤ → Float
infinite_times negative a = if is_zero a then nan else infinity (differ negative (is_negative a))

-- `a * b`
unfoldable pub float_mul : Float → Float → Float
float_mul (finite a) (finite b) =
    nearest (differ (is_negative a) (is_negative b)) (abs a * abs b) one_units
float_mul nan b = nan
float_mul (finite a) inf = infinite_times false a
float_mul (finite a) neg_inf = infinite_times true a
float_mul (finite a) nan = nan
float_mul inf (finite b) = infinite_times false b
float_mul neg_inf (finite b) = infinite_times true b
float_mul inf inf = inf
float_mul inf neg_inf = neg_inf
float_mul neg_inf inf = neg_inf
float_mul neg_inf neg_inf = inf
float_mul _ nan = nan

-- `round(x, 1)` of a float: the double next to the nearest decimal with one digit.
unfoldable pub round_tenth : Float → Float
round_tenth (finite a) = nearest (is_negative a) (round_to one_units (abs a * 10)) 10
round_tenth x = x

-- `round(x, 1)`
abbrev pub round_number : Number → Number
round_number (int n) = int n
round_number (float x) = float (round_tenth x)

-- 0.1 is 3602879701896397 / 2^55, and 3 * 0.1 is 0.30000000000000004.
abbrev a_tenth : Float
a_tenth = finite (pos (3602879701896397 * 2 ^ 1019))

sums : float_add a_tenth (float_add a_tenth a_tenth) ≡ finite (pos (5404319552844596 * 2 ^ 1020))
unfolding float_add nearest bit_length round_to one_units
sums = refl

rounds :
    (round_tenth (finite (pos (5404319552844596 * 2 ^ 1020)))
      ≡ finite (pos (5404319552844595 * 2 ^ 1020)))
    × (round_tenth a_tenth ≡ a_tenth)
unfolding round_tenth nearest bit_length round_to one_units
rounds = (refl, refl)

products :
    float_mul (finite (pos (2 ^ 1075))) (finite (negsuc (5 * 2 ^ 1073 - 1)))
    ≡ finite (negsuc (5 * 2 ^ 1074 - 1))
unfolding float_mul nearest bit_length round_to one_units
products = refl
