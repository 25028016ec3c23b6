-- ===== src/Value/Order.antt =====
-- Comparisons of ints and floats, as in Value.antt.
use mcp_venus_os.Prelude.{◌≡◌, ◌↔◌, true, false, some, arith}
use mcp_venus_os.Prelude.Int.{pos, negsuc}
use mcp_venus_os.Value.{
  Float, finite, inf, neg_inf, nan, Number, int, float, exact, float_le, float_lt, num_le, num_lt,
  is_finite, math_isfinite,
}

-- Between finite values, "not less" is "at most" the other way round.
pub not-float_lt :
    (x y : Float)
    → is_finite x ≡ true
    → is_finite y ≡ true
    → (float_lt x y ≡ false) ↔ (float_le y x ≡ true)
not-float_lt (finite a) (finite b) h k = ground arith
not-float_lt inf y h k = absurd (ground arith)
not-float_lt neg_inf y h k = absurd (ground arith)
not-float_lt nan y h k = absurd (ground arith)
not-float_lt (finite a) inf h k = absurd (ground arith)
not-float_lt (finite a) neg_inf h k = absurd (ground arith)
not-float_lt (finite a) nan h k = absurd (ground arith)

pub is_finite-exact : (n : Number) → math_isfinite n ≡ some true → is_finite (exact n) ≡ true
unfolding math_isfinite
is_finite-exact (int (pos k)) h = ground arith
is_finite-exact (int (negsuc k)) h = ground arith
is_finite-exact (float x) h = ground arith

pub not-num_lt :
    (a b : Number)
    → is_finite (exact a) ≡ true
    → is_finite (exact b) ≡ true
    → (num_lt a b ≡ false) ↔ (num_le b a ≡ true)
not-num_lt a b = not-float_lt (exact a) (exact b)
