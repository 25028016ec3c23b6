-- ===== src/Prelude/TextLaws.antt =====
-- Laws of the operations on texts: what stands behind a prefix, and the parts at the first slash.
use Prim.Native.Nat.{ℕ}
use Prim.Native.Char.{Char, code}
use Prim.Native.String.{String, [], ◌∷◌}
use mathlib.Core.Path.{◌≡◌, refl, ap}
use mathlib.Core.Logic.{◌↔◌, inl, inr}
use mathlib.Core.Bool.{Bool, true, false, ◌||◌}
use mathlib.Core.Option.{Option, none, some}
use native.Mathlib.Omega.{arith}
use text.Mathlib.TextEquality.{Char-path}
use text.Mathlib.TextLemmas.{nil-append, cons-append}
use mcp_venus_os.Prelude.Tests.{◌==◌, ==_iff, &&_iff, Bool-cases}
use mcp_venus_os.Prelude.Text.{◌<>◌, after_prefix, partition_slash, has_char, all_chars}

pub same_char : (c d : Char) → (code c == code d) ≡ true → c ≡ d
same_char c d h = Char-path c d ((==_iff (code c) (code d)).0 h)

char_refl : (c : Char) → (code c == code c) ≡ true
char_refl c = (==_iff (code c) (code c)).1 refl

behind : (s p rest : String) → after_prefix s p ≡ some rest → s ≡ p <> rest
unfolding after_prefix
behind [] [] rest h = rw nil-append (ground arith)
behind (c ∷ s) [] rest h = rw nil-append (ground arith)
behind [] (d ∷ p) rest h = absurd (cc h)
behind (c ∷ s) (d ∷ p) rest h = elim (Bool-cases (code c == code d)) [
  | inl e ↦
      let ih = behind s p rest (ground arith) in rw cons-append (λ i. same_char c d e i ∷ ih i)
  | inr e ↦ absurd (ground arith)
]

after_prefix-append : (p rest : String) → after_prefix (p <> rest) p ≡ some rest
unfolding after_prefix
after_prefix-append [] rest = rw nil-append refl
after_prefix-append (d ∷ p) rest = rw cons-append (ground (arith, after_prefix-append p rest))

-- A rest stands behind a prefix exactly when the text is the prefix and the rest.
pub after_prefix_iff : (s p rest : String) → (after_prefix s p ≡ some rest) ↔ (s ≡ p <> rest)
after_prefix_iff s p rest = (behind s p rest, λ e. rw e (after_prefix-append p rest))

pub slash-append : (b : String) → "/" <> b ≡ "/" ∷ b
slash-append b = rw (cons-append, nil-append) refl

at_slash :
    (s a b : String)
    → partition_slash s ≡ some (a, b)
    → (s ≡ a <> "/" <> b) × (has_char b'/' a ≡ false)
unfolding partition_slash has_char
at_slash [] a b h = absurd (cc h)
at_slash (c ∷ s) a b h = elim (Bool-cases (code c == b'/')) [
  | inl e ↦
      let empty : a ≡ "" = ground arith in
      let same : b ≡ s = ground arith in
      (rw (empty, same, nil-append, slash-append) (λ i. same_char c "/" e i ∷ s), rw empty refl)
  | inr e ↦ later (at_slash s) (partition_slash s) refl e
]
  where
    later :
        ((a' b' : String)
          → partition_slash s ≡ some (a', b')
          → (s ≡ a' <> "/" <> b') × (has_char b'/' a' ≡ false))
        → (o : Option (String × String)) → partition_slash s ≡ o
        → (code c == b'/') ≡ false
        → (c ∷ s ≡ a <> "/" <> b) × (has_char b'/' a ≡ false)
    later ih_here none e k = absurd (ground arith)
    later ih_here (some (a', b')) e k =
        let head : a ≡ c ∷ a' = ground arith in
        let rest : b ≡ b' = ground arith in
        let (ih, free) = ih_here a' b' e in
        (rw (head, rest, cons-append) (ap (λ (t : String). c ∷ t) ih), rw head (ground arith))

partition_slash-append :
    (a b : String) → has_char b'/' a ≡ false → partition_slash (a <> "/" <> b) ≡ some (a, b)
unfolding partition_slash has_char
partition_slash-append [] b h = rw (nil-append, slash-append) refl
partition_slash-append (c ∷ a) b h =
    rw cons-append (ground (arith, partition_slash-append a b (ground arith)))

-- A text is parted into what stands before its first slash and what stands behind it.
pub partition_slash_iff :
    (s a b : String)
    → (partition_slash s ≡ some (a, b)) ↔ ((s ≡ a <> "/" <> b) × (has_char b'/' a ≡ false))
partition_slash_iff s a b = (at_slash s a b, λ (e, h). rw e (partition_slash-append a b h))

-- A text whose characters all pass a test has no character that does not.
pub has_char-all_chars :
    (p : ℕ → Bool) (k : ℕ) (s : String) → p k ≡ false → all_chars p s ≡ true → has_char k s ≡ false
unfolding has_char
has_char-all_chars p k [] n h = refl
has_char-all_chars p k (c ∷ s) n h = elim (Bool-cases (code c == k)) [
  | inl e ↦
      let same = (==_iff (code c) k).0 e in
      let (head, more) = (&&_iff (p (code c)) (all_chars p s)).0 h in
      absurd (cc (ap p same, n, head))
  | inr e ↦
      let (head, more) = (&&_iff (p (code c)) (all_chars p s)).0 h in
      ground (arith, has_char-all_chars p k s n more)
]

pub has_char-append : (k : ℕ) (s t : String) → has_char k (s <> t) ≡ (has_char k s || has_char k t)
unfolding has_char
has_char-append k [] t = rw nil-append refl
has_char-append k (c ∷ s) t = rw cons-append (ground (arith, has_char-append k s t))
