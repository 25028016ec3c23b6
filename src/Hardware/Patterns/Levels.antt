-- ===== src/Hardware/Patterns/Levels.antt =====
-- The texts that the patterns of src/mcp_venus_os/hardware_contracts.py let through, as levels of a topic.
use Prim.Native.Char.{code}
use mathlib.Core.List.{Memᴰ}
use mcp_venus_os.Prelude.{
  ℕ, ◌≡◌, refl, sym, subst, ◌∙◌, String, ◌<>◌, Bool, true, false, ◌&&◌, ◌||◌, List, [], ◌∷◌, All,
  all, elem, elem_iff, all_chars, is_ascii_digit, has_char, has_char-all_chars, has_char-append,
  show_ℤ, show_ℤ-all_chars, split_slash, push_head, ◌==◌, &&_iff, arith, if◌then◌else◌,
}
use mcp_venus_os.Prelude.Int.{ℤ, pos, negsuc, leb_ℤ}
use mcp_venus_os.Hardware.Patterns.{
  is_lower, is_type_char, is_path_char, starts_and_goes_on, is_item_path,
}

-- A text without a wildcard, and one without a slash either.
pub record IsExact (s : String) : Type 0 where
  pub no_plus : has_char b'+' s ≡ false
  pub no_hash : has_char b'#' s ≡ false

pub record IsLevel (s : String) : Type 0 where
  pub no_slash : has_char b'/' s ≡ false
  pub exact : IsExact s

pub chars-IsLevel :
    (p : ℕ → Bool) (s : String)
    → p b'/' ≡ false
    → p b'+' ≡ false
    → p b'#' ≡ false
    → all_chars p s ≡ true
    → IsLevel s
chars-IsLevel p s slash plus hash h = record {
  no_slash = has_char-all_chars p b'/' s slash h;
  exact = record {
    no_plus = has_char-all_chars p b'+' s plus h;
    no_hash = has_char-all_chars p b'#' s hash h;
  };
}

-- The first character passes the test of the others too.
pub goes_on :
    (first other : ℕ → Bool) (s : String)
    → ((k : ℕ) → first k ≡ true → other k ≡ true)
    → starts_and_goes_on first other s ≡ true
    → all_chars other s ≡ true
goes_on first other String.[] within h = refl
goes_on first other (String.◌∷◌ c s) within h =
    let (head, more) = (&&_iff (first (code c)) (all_chars other s)).0 h in
    (&&_iff (other (code c)) (all_chars other s)).1 (within (code c) head, more)

pub type-IsLevel : (s : String) → starts_and_goes_on is_lower is_type_char s ≡ true → IsLevel s
type-IsLevel s h =
    chars-IsLevel is_type_char s refl refl refl
      (goes_on is_lower is_type_char s (λ k e. ground arith) h)

pub inst-IsLevel : (n : ℤ) → leb_ℤ (pos 0) n ≡ true → IsLevel (show_ℤ n)
inst-IsLevel (pos n) h =
    chars-IsLevel is_ascii_digit (show_ℤ (pos n)) refl refl refl (show_ℤ-all_chars n)
inst-IsLevel (negsuc n) h = absurd (ground arith)

abbrev or_slash : (ℕ → Bool) → ℕ → Bool
or_slash p k = p k || k == b'/'

-- A text whose levels have certain characters has these and slashes.
levels_chars :
    (p : ℕ → Bool) (s : String)
    → all (all_chars p) (split_slash s) ≡ true
    → all_chars (or_slash p) s ≡ true
unfolding split_slash
levels_chars p String.[] h = refl
levels_chars p (String.◌∷◌ c s) h =
    by_test (code c == b'/') refl (split_slash s) (levels_chars p s) h
  where
    by_test :
        (b : Bool)
        → (code c == b'/') ≡ b
        → (parts : List String) → (all (all_chars p) parts ≡ true → all_chars (or_slash p) s ≡ true)
        → all (all_chars p) (if b then "" ∷ parts else push_head c parts) ≡ true
        → (or_slash p (code c) && all_chars (or_slash p) s) ≡ true
    by_test true e parts ih k = ground (arith, ih k)
    by_test false e [] ih k = ground (arith, ih refl)
    by_test false e (part ∷ parts) ih k =
        let (first, more) =
          (&&_iff (p (code c) && all_chars p part) (all (all_chars p) parts)).0 k in
        let (head, tail) = (&&_iff (p (code c)) (all_chars p part)).0 first in
        ground (arith, ih ((&&_iff (all_chars p part) (all (all_chars p) parts)).1 (tail, more)))

levels_goes_on :
    (parts : List String)
    → all (starts_and_goes_on is_path_char is_path_char) parts ≡ true
    → all (all_chars is_path_char) parts ≡ true
levels_goes_on [] h = refl
levels_goes_on (part ∷ parts) h =
    let (first, more) = (&&_iff (starts_and_goes_on is_path_char is_path_char part) _).0 h in
    (&&_iff (all_chars is_path_char part) _).1
      (goes_on is_path_char is_path_char part (λ k e. e) first, levels_goes_on parts more)

pub path-IsExact : (s : String) → is_item_path s ≡ true → IsExact s
path-IsExact s h =
    let good = levels_chars is_path_char s (levels_goes_on (split_slash s) h) in
    record {
      no_plus = has_char-all_chars (or_slash is_path_char) b'+' s refl good;
      no_hash = has_char-all_chars (or_slash is_path_char) b'#' s refl good;
    }

-- One of the listed texts.
pub listed :
    (P : String → Type 0) (s : String) (xs : List String) → elem s xs ≡ true → All P xs → P s
listed P s xs h k = by_member xs ((elem_iff s xs).0 h) k
  where
    by_member : (ys : List String) → Memᴰ s ys → All P ys → P s
    by_member [] m k = elim m [ ]
    by_member (y ∷ ys) (Memᴰ.head e) (p, k) = subst P (sym e) p
    by_member (y ∷ ys) (Memᴰ.tail m) (p, k) = by_member ys m k

pub exact-append : (s t : String) → IsExact s → IsExact t → IsExact (s <> t)
exact-append s t h k = record {
  no_plus = has_char-append b'+' s t ∙ rw (h.no_plus, k.no_plus) refl;
  no_hash = has_char-append b'#' s t ∙ rw (h.no_hash, k.no_hash) refl;
}

slash-IsExact : IsExact "/"
unfolding has_char
slash-IsExact = record { no_plus = refl; no_hash = refl }

pub under : (s t : String) → IsExact s → IsExact t → IsExact (s <> "/" <> t)
under s t h k = exact-append s ("/" <> t) h (exact-append "/" t slash-IsExact k)
