-- ===== src/Mqtt/Callbacks/Sorting.antt =====
-- Sorting registrations by their numbers in src/mcp_venus_os/mqtt_client.py: the order of the input
-- does not matter when the numbers differ.
use mathlib.Core.List.{Permᴰ}
use mcp_venus_os.Prelude.{
  ℕ, ◌≡◌, refl, ap, ◌∙◌, Bool, true, false, List, [], ◌∷◌, leb, ◌==◌, arith, subst,
}
use mcp_venus_os.Mqtt.{Registration}
use mcp_venus_os.Mqtt.Callbacks.{place_by_sequence, by_sequence}
use mcp_venus_os.Mqtt.Callbacks.Delivery.{count}

abbrev pub has_sequence : ℕ → Registration → Bool
has_sequence n r = r.sequence == n

-- No two registrations of a list have the same number.
abbrev pub Distinct : List Registration → Type 0
Distinct rs = (n : ℕ) → leb (count (has_sequence n) rs) 1 ≡ true

place_by_sequence_comm :
    (r s : Registration) (xs : List Registration)
    → (r.sequence == s.sequence) ≡ false
    → place_by_sequence r (place_by_sequence s xs) ≡ place_by_sequence s (place_by_sequence r xs)
unfolding place_by_sequence
place_by_sequence_comm r s [] h = ground arith
place_by_sequence_comm r s (x ∷ xs) h = ground (arith, place_by_sequence_comm r s xs h)

Distinct-tail : (r : Registration) (rs : List Registration) → Distinct (r ∷ rs) → Distinct rs
Distinct-tail r rs d n = let h = d n in ground arith

Distinct-differ :
    (r s : Registration) (rs : List Registration)
    → Distinct (r ∷ s ∷ rs)
    → (r.sequence == s.sequence) ≡ false
Distinct-differ r s rs d = let h = d s.sequence in ground arith

count-Perm :
    (p : Registration → Bool) {xs ys : List Registration} → Permᴰ xs ys → count p xs ≡ count p ys
count-Perm p Permᴰ.nil = refl
count-Perm p (Permᴰ.cons {a} {b} e d) = let h = count-Perm p d in let k = ap p e in ground arith
count-Perm p (Permᴰ.swap {a} {b} {a'} {b'} e f) = let h = ap p e in let k = ap p f in ground arith
count-Perm p (Permᴰ.trans d e) = count-Perm p d ∙ count-Perm p e

Distinct-Perm : {xs ys : List Registration} → Permᴰ xs ys → Distinct xs → Distinct ys
Distinct-Perm m d n = subst (λ k. leb k 1 ≡ true) (count-Perm (has_sequence n) m) (d n)

-- Two orders of the same registrations are sorted to one.
pub by_sequence-Perm :
    {xs ys : List Registration} → Permᴰ xs ys → Distinct xs → by_sequence xs ≡ by_sequence ys
unfolding by_sequence
by_sequence-Perm Permᴰ.nil d = refl
by_sequence-Perm (Permᴰ.cons {a} {b} {l₁} e m) d =
    ap (λ r. place_by_sequence r (by_sequence l₁)) e
    ∙ ap (place_by_sequence b) (by_sequence-Perm m (Distinct-tail a l₁ d))
by_sequence-Perm (Permᴰ.swap {a} {b} {a'} {b'} {l} e f) d =
    place_by_sequence_comm a b (by_sequence l) (Distinct-differ a b l d)
    ∙ (ap (λ r. place_by_sequence r (place_by_sequence a (by_sequence l))) f
        ∙ ap (λ r. place_by_sequence a' (place_by_sequence r (by_sequence l))) e)
by_sequence-Perm (Permᴰ.trans m k) d = by_sequence-Perm m d ∙ by_sequence-Perm k (Distinct-Perm m d)
