-- ===== src/Prelude/Text/Digits.antt =====
-- A number that is not negative is shown by ASCII digits.
use Prim.Native.Nat.{ℕ, zero, suc, ◌/◌, ◌%◌}
use Prim.Native.String.{String, [], ◌∷◌}
use mathlib.Core.Path.{◌≡◌, refl}
use mathlib.Core.Bool.{Bool, true, false, ◌&&◌}
use native.Mathlib.Omega.{arith}
use text.Mathlib.TextLemmas.{nil-append, cons-append}
use mcp_venus_os.Prelude.Tests.{◌==◌, leb, if◌then◌else◌}
use mcp_venus_os.Prelude.Int.{pos}
use mcp_venus_os.Prelude.Text.{◌<>◌, all_chars, digit, digits, show_ℤ}

-- An ASCII digit.
abbrev pub is_ascii_digit : ℕ → Bool
is_ascii_digit c = leb b'0' c && leb c b'9'

data IsDecimal : String → Type 0 where
  shown : (s : String) → all_chars is_ascii_digit s ≡ true → IsDecimal s

decimal_chars : {s : String} → IsDecimal s → all_chars is_ascii_digit s ≡ true
decimal_chars (shown s h) = h

either-IsDecimal :
    (b : Bool) (s t : String) → IsDecimal s → IsDecimal t → IsDecimal (if b then s else t)
either-IsDecimal true s t h k = h
either-IsDecimal false s t h k = k

digit-IsDecimal : (n : ℕ) → IsDecimal (digit n)
digit-IsDecimal n = either-IsDecimal (n == 0) "0" _ (shown "0" refl) (
    either-IsDecimal (n == 1) "1" _ (shown "1" refl) (
      either-IsDecimal (n == 2) "2" _ (shown "2" refl) (
        either-IsDecimal (n == 3) "3" _ (shown "3" refl) (
          either-IsDecimal (n == 4) "4" _ (shown "4" refl) (
            either-IsDecimal (n == 5) "5" _ (shown "5" refl) (
              either-IsDecimal (n == 6) "6" _ (shown "6" refl) (
                either-IsDecimal (n == 7) "7" _ (shown "7" refl)
                  (either-IsDecimal (n == 8) "8" "9" (shown "8" refl) (shown "9" refl)))))))))

all_chars-append :
    (p : ℕ → Bool) (s t : String)
    → all_chars p s ≡ true
    → all_chars p t ≡ true
    → all_chars p (s <> t) ≡ true
all_chars-append p [] t h k = rw nil-append k
all_chars-append p (c ∷ s) t h k = rw cons-append (ground (arith, all_chars-append p s t))

digits-IsDecimal : (fuel n : ℕ) (rest : String) → IsDecimal rest → IsDecimal (digits fuel n rest)
unfolding digits
digits-IsDecimal zero n rest h = h
digits-IsDecimal (suc fuel) n rest h =
    let d = digit (n % 10) in
    either-IsDecimal (n == 0) rest (digits fuel (n / 10) (d <> rest)) h (
      digits-IsDecimal fuel (n / 10) (d <> rest) (
        shown (d <> rest) (
          all_chars-append is_ascii_digit d rest (decimal_chars (digit-IsDecimal (n % 10)))
            (decimal_chars h))))

-- A number that is not negative is shown by digits.
pub show_ℤ-all_chars : (n : ℕ) → all_chars is_ascii_digit (show_ℤ (pos n)) ≡ true
unfolding show_ℤ
show_ℤ-all_chars n = decimal_chars (
    either-IsDecimal (n == 0) "0" (digits n n "") (shown "0" refl)
      (digits-IsDecimal n n "" (shown "" refl)))
