-- ===== src/Prelude/Text/Splitting.antt =====
-- What `split("/")` gives: the parts up to the first slash and behind it.
use Prim.Native.Char.{code}
use Prim.Native.String.{String, [], ◌∷◌}
use mathlib.Core.Path.{◌≡◌, refl, ap}
use mathlib.Core.Bool.{Bool, true, false}
use mathlib.Core.Option.{Option, none, some}
use native.Mathlib.Omega.{arith}
use mathlib.Core.List.{List}
use mcp_venus_os.Prelude.Tests.{◌==◌, if◌then◌else◌}
use mcp_venus_os.Prelude.Text.{push_head, split_slash, partition_slash, has_char}

-- The split of a text, by its parts at the first slash.
abbrev pub IsSplit : String → Option (String × String) → List String → Type 0
IsSplit s none parts = (parts ≡ List.◌∷◌ s List.[]) × (has_char b'/' s ≡ false)
IsSplit s (some (a, b)) parts = parts ≡ List.◌∷◌ a (split_slash b)

pub split_slash-IsSplit : (s : String) → IsSplit s (partition_slash s) (split_slash s)
unfolding split_slash partition_slash has_char
split_slash-IsSplit [] = (refl, refl)
split_slash-IsSplit (c ∷ s) =
    by_test (code c == b'/') refl (partition_slash s) (split_slash s) (split_slash-IsSplit s)
  where
    by_test :
        (b : Bool)
        → (code c == b'/') ≡ b
        → (o : Option (String × String)) (parts : List String) → IsSplit s o parts
        → IsSplit
            (c ∷ s)
            (if b then some ("", s) else elim o [ none ↦ none | some (a, r) ↦ some (c ∷ a, r) ])
            (if b then List.◌∷◌ [] (split_slash s) else push_head c parts)
    by_test true e o parts h = refl
    by_test false e none parts (h, k) = (ap (push_head c) h, ground arith)
    by_test false e (some (a, r)) parts h = ap (push_head c) h
