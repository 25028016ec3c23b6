-- ===== src/Prelude/Text.antt =====
-- Python's operations on texts that the program uses.
pub mod Digits
pub mod Splitting
use Prim.Native.Nat.{ℕ, zero, suc, ◌/◌, ◌%◌}
use Prim.Native.Char.{Char, code}
use Prim.Native.String
use Prim.Native.String.{String, [], ◌∷◌}
use mathlib.Core.Path.{◌≡◌, refl}
use mathlib.Core.Bool.{Bool, true, false, not, ◌&&◌, ◌||◌}
use mathlib.Core.Option.{Option, none, some}
use mathlib.Core.List.{List, [], ◌∷◌}
use text.Mathlib.Text.{is_le, ◌==◌ as str_eq}
use mcp_venus_os.Prelude.Tests.{◌==◌, if◌then◌else◌}
use mcp_venus_os.Prelude.Lists.{elem, keep}
use native.Mathlib.Omega.{arith}
use text.Mathlib.TextEquality.{eq_iff}
use mcp_venus_os.Prelude.Int.{ℤ, pos, negsuc}

infixr 66 ◌<>◌
-- Concatenation, as in an f-string.
abbrev pub ◌<>◌ : String → String → String
s <> t = String.◌++◌ s t

-- `s.startswith(p)`
unfoldable pub starts_with : String → String → Bool
starts_with [] [] = true
starts_with (c ∷ s) [] = true
starts_with [] (d ∷ p) = false
starts_with (c ∷ s) (d ∷ p) = code c == code d && starts_with s p

-- `s[:n]`
unfoldable pub take : ℕ → String → String
take zero s = []
take (suc n) [] = []
take (suc n) (c ∷ s) = c ∷ take n s

-- `s.endswith(p)`
unfoldable pub ends_with : String → String → Bool
unfolding starts_with
ends_with [] p = starts_with [] p && starts_with p []
ends_with (c ∷ s) p = (starts_with (c ∷ s) p && starts_with p (c ∷ s)) || ends_with s p

-- What is left of a text behind a prefix that it starts with, `s[len(p):]`.
unfoldable pub after_prefix : String → String → Option String
after_prefix s [] = some s
after_prefix [] (d ∷ p) = none
after_prefix (c ∷ s) (d ∷ p) =
    let rest = after_prefix s p in if code c == code d then rest else none

abbrev pub push_head : Char → List String → List String
push_head c [] = (c ∷ []) ∷ []
push_head c (part ∷ parts) = (c ∷ part) ∷ parts

-- `s.split("/")`
unfoldable pub split_slash : String → List String
split_slash [] = [] ∷ []
split_slash (c ∷ s) =
    let parts = split_slash s in if code c == b'/' then [] ∷ parts else push_head c parts

-- `s.split("/", 1)` where there is a slash.
unfoldable pub partition_slash : String → Option (String × String)
partition_slash [] = none
partition_slash (c ∷ s) =
    let rest = partition_slash s in
    if code c == b'/'
    then some ("", s)
    else elim rest [ none ↦ none | some (a, b) ↦ some (c ∷ a, b) ]

-- `c in s` of one character.
unfoldable pub has_char : ℕ → String → Bool
has_char k [] = false
has_char k (c ∷ s) = code c == k || has_char k s

-- `len(s)`
abbrev pub chars : String → ℕ
chars [] = 0
chars (c ∷ s) = suc (chars s)

-- A test of every character.
abbrev pub all_chars : (ℕ → Bool) → String → Bool
all_chars p [] = true
all_chars p (c ∷ s) = p (code c) && all_chars p s

abbrev digit : ℕ → String
digit n =
    if n == 0
    then "0"
    else if n == 1
    then "1"
    else if n == 2
    then "2"
    else if n == 3
    then "3"
    else if n == 4
    then "4"
    else if n == 5
    then "5"
    else if n == 6
    then "6"
    else if n == 7
    then "7"
    else if n == 8
    then "8"
    else "9"

-- The decimal digits of a number in front of `rest`; a number has at most as many as its size.
digits : ℕ → ℕ → String → String
digits zero n rest = rest
digits (suc fuel) n rest =
    let more = digits fuel (n / 10) (digit (n % 10) <> rest) in if n == 0 then rest else more

-- `str(n)`
unfoldable pub show_ℕ : ℕ → String
unfolding digits
show_ℕ n = if n == 0 then "0" else digits n n ""

unfoldable pub show_ℤ : ℤ → String
unfolding show_ℕ
show_ℤ (pos n) = show_ℕ n
show_ℤ (negsuc n) = "-" <> show_ℕ (suc n)

-- Sets of texts, as lists without repetition.
abbrev pub add : String → List String → List String
add x xs = if elem x xs then xs else x ∷ xs

abbrev pub add_all : List String → List String → List String
add_all [] xs = xs
add_all (y ∷ ys) xs = add_all ys (add y xs)

pub elem-add : (x y : String) (xs : List String) → elem x (add y xs) ≡ (str_eq x y || elem x xs)
elem-add x y xs = ground (arith, eq_iff x y)

pub elem-add_all :
    (x : String) (ys xs : List String) → elem x (add_all ys xs) ≡ (elem x ys || elem x xs)
elem-add_all x [] xs = refl
elem-add_all x (y ∷ ys) xs = ground (arith, elem-add x y xs, elem-add_all x ys (add y xs))

-- No text stands twice in the list.
abbrev pub distinct : List String → Bool
distinct [] = true
distinct (x ∷ xs) = not (elem x xs) && distinct xs

pub distinct-add : (x : String) (xs : List String) → distinct xs ≡ true → distinct (add x xs) ≡ true
distinct-add x xs h = ground arith

elem-keep :
    (p : String → Bool) (x : String) (xs : List String)
    → elem x xs ≡ false
    → elem x (keep p xs) ≡ false
elem-keep p x [] h = refl
elem-keep p x (y ∷ ys) h = ground (arith, elem-keep p x ys)

pub distinct-keep :
    (p : String → Bool) (xs : List String) → distinct xs ≡ true → distinct (keep p xs) ≡ true
distinct-keep p [] h = refl
distinct-keep p (x ∷ xs) h = ground (arith, distinct-keep p xs, elem-keep p x xs)

abbrev pub text_le : String → String → Bool
text_le s t = is_le (String.compare s t)

place : String → List String → List String
place x [] = x ∷ []
place x (y ∷ ys) = if text_le x y then x ∷ y ∷ ys else y ∷ place x ys

-- `sorted(xs)`
unfoldable pub sorted : List String → List String
unfolding place
sorted [] = []
sorted (x ∷ xs) = place x (sorted xs)

elem-place : (x y : String) (ys : List String) → elem x (place y ys) ≡ (str_eq x y || elem x ys)
unfolding place
elem-place x y [] = refl
elem-place x y (z ∷ zs) = ground (arith, elem-place x y zs)

-- Sorting keeps the elements.
pub elem-sorted : (x : String) (ys : List String) → elem x (sorted ys) ≡ elem x ys
unfolding sorted
elem-sorted x [] = refl
elem-sorted x (y ∷ ys) = ground (arith, elem-place x y (sorted ys), elem-sorted x ys)

shows : (show_ℤ (pos 1070) ≡ "1070") × (show_ℤ (negsuc 4) ≡ "-5")
unfolding show_ℤ
shows = (refl, refl)

splits : split_slash "a//b" ≡ "a" ∷ "" ∷ "b" ∷ []
unfolding split_slash
splits = refl

suffixes : (ends_with "tank/" "/" ≡ true) × (ends_with "a/b" "/" ≡ false)
unfolding ends_with
suffixes = (refl, refl)

distinct-place :
    (x : String) (ys : List String) → distinct (place x ys) ≡ (not (elem x ys) && distinct ys)
unfolding place
distinct-place x [] = refl
distinct-place x (y ∷ ys) =
    ground (arith, distinct-place x ys, elem-place y x ys, eq_iff x y, eq_iff y x)

-- Sorting repeats nothing.
pub distinct-sorted : (xs : List String) → distinct (sorted xs) ≡ distinct xs
unfolding sorted
distinct-sorted [] = refl
distinct-sorted (x ∷ xs) =
    ground (arith, distinct-place x (sorted xs), elem-sorted x xs, distinct-sorted xs)
