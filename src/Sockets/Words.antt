-- ===== src/Sockets/Words.antt =====
-- The numbers that src/mcp_venus_os/socket_diagnostics.py reads from bytes are there, and fit their width.
use mcp_venus_os.Prelude.{
  ℕ, zero, suc, ◌+◌, ◌^◌, ◌≤◌, ◌<◌, ◌≡◌, refl, Bool, true, false, Option, some, List, [], ◌∷◌, All,
  length, arith,
}
use mcp_venus_os.Sockets.{get_elem?, word_of, in_order, unpack_from}

-- What a byte is.
abbrev pub IsByte : ℕ → Type 0
IsByte b = b < 256

abbrev pub IsThere : Option ℕ → ℕ → Type 0
IsThere o bound = (n : ℕ) × (o ≡ some n) × (n < bound)

pub get_elem?-IsThere :
    (raw : List ℕ) (i : ℕ) → All IsByte raw → i < length raw → IsThere (get_elem? raw i) 256
unfolding get_elem?
get_elem?-IsThere [] i h k = absurd (omega arith)
get_elem?-IsThere (b ∷ raw) zero (p, h) k = (b, refl, p)
get_elem?-IsThere (b ∷ raw) (suc i) (p, h) k = get_elem?-IsThere raw i h (omega arith)

word_of-lt : (a b c d : ℕ) → IsByte a → IsByte b → IsByte c → IsByte d → word_of a b c d < 2 ^ 32
word_of-lt a b c d p q r s = omega arith

in_order-IsThere :
    (little : Bool) (o p q r : Option ℕ)
    → IsThere o 256
    → IsThere p 256
    → IsThere q 256
    → IsThere r 256
    → IsThere (in_order little o p q r) (2 ^ 32)
in_order-IsThere true o p q r (a, e, i) (b, f, j) (c, g, k) (d, h, l) =
    rw (e, f, g, h) (word_of a b c d, refl, word_of-lt a b c d i j k l)
in_order-IsThere false o p q r (a, e, i) (b, f, j) (c, g, k) (d, h, l) =
    rw (e, f, g, h) (word_of d c b a, refl, word_of-lt d c b a l k j i)

pub unpack_from-IsThere :
    (little : Bool) (raw : List ℕ) (offset : ℕ)
    → All IsByte raw
    → offset + 4 ≤ length raw
    → IsThere (unpack_from little raw offset) (2 ^ 32)
unfolding unpack_from
unpack_from-IsThere little raw offset h k =
    in_order-IsThere little _ _ _ _ (get_elem?-IsThere raw offset h (omega arith))
      (get_elem?-IsThere raw (offset + 1) h (omega arith))
      (get_elem?-IsThere raw (offset + 2) h (omega arith))
      (get_elem?-IsThere raw (offset + 3) h (omega arith))
