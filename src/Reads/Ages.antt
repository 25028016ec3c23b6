-- ===== src/Reads/Ages.antt =====
-- The ages that reads of src/mcp_venus_os/mqtt_client.py give, and their maximum.
use mathlib.Core.List.{Memᴰ}
use mcp_venus_os.Prelude.{
  if◌then◌else◌, ℕ, String, Bool, true, false, ◌||◌, Option, none, some, List, [], ◌∷◌, any, all,
  ◌≡◌, refl, sym, ap, ◌∙◌, arith, inl, inr, Bool-cases,
}
use mcp_venus_os.Prelude.Int.{ℤ}
use mcp_venus_os.Value.{Float, finite, inf, neg_inf, nan, Number, int, float, Payload, num_lt}
use mcp_venus_os.Mqtt.{Client}
use mcp_venus_os.Mqtt.Cache.{aged, cached, read_path, read_first}
use mcp_venus_os.Reads.{num_max}

abbrev pub is_age : Number → Bool
is_age (float (finite x)) = true
is_age _ = false

abbrev pub is_dated : Option (Payload × Number) → Bool
is_dated none = true
is_dated (some (v, a)) = is_age a

read_path-dated : (now : ℕ) (o : Option (Payload × ℕ)) → is_dated (aged now o) ≡ true
read_path-dated now none = refl
read_path-dated now (some (v, at)) = refl

pub read_first-dated :
    (now : ℕ) (c : Client) (t : String) (n : ℤ) (paths : List String)
    → is_dated (read_first now c t n paths) ≡ true
unfolding read_first read_path
read_first-dated now c t n [] = refl
read_first-dated now c t n (p ∷ ps) = by_first (cached c t n p) (read_first-dated now c t n ps)
  where
    by_first :
        (o : Option (Payload × ℕ))
        → is_dated (read_first now c t n ps) ≡ true
        → is_dated (elim (aged now o) [ none ↦ read_first now c t n ps | some r ↦ some r ]) ≡ true
    by_first none h = h
    by_first (some (v, at)) h = refl

abbrev pub fold_max : Number → List Number → Number
fold_max m [] = m
fold_max m (a ∷ ages) = fold_max (num_max m a) ages

abbrev pub age_of : ℤ → Number
age_of x = float (finite x)

-- A limit is below a maximum if it is below one of the two.
below-max :
    (limit : Float) (x y : ℤ)
    → num_lt (float limit) (num_max (age_of x) (age_of y))
      ≡ (num_lt (float limit) (age_of x) || num_lt (float limit) (age_of y))
below-max (finite l) x y = ground arith
below-max inf x y = ground arith
below-max neg_inf x y = ground arith
below-max nan x y = ground arith

max-age : (x y : ℤ) → (z : ℤ) × (num_max (age_of x) (age_of y) ≡ age_of z)
max-age x y = elim (Bool-cases (num_lt (age_of x) (age_of y))) [
  | inl e ↦ (y, rw e refl)
  | inr e ↦ (x, rw e refl)
]

pub below-fold :
    (limit : Float) (x : ℤ) (ages : List Number)
    → all is_age ages ≡ true
    → num_lt (float limit) (fold_max (age_of x) ages)
      ≡ (num_lt (float limit) (age_of x) || any (num_lt (float limit)) ages)
below-fold limit x [] h = ground arith
below-fold limit x (float (finite y) ∷ ages) h =
    let (z, e) = max-age x y in
    ap (λ (m : Number). num_lt (float limit) (fold_max m ages)) e
    ∙ (below-fold limit z ages (ground arith)
        ∙ (ap (λ (m : Number). num_lt (float limit) m || any (num_lt (float limit)) ages) (sym e)
            ∙ ground (arith, below-max limit x y)))
below-fold limit x (float inf ∷ ages) h = absurd (ground arith)
below-fold limit x (float neg_inf ∷ ages) h = absurd (ground arith)
below-fold limit x (float nan ∷ ages) h = absurd (ground arith)
below-fold limit x (int n ∷ ages) h = absurd (ground arith)

-- A number among the ages and a first one, with none of these above it.
pub record IsGreatest (first : Number) (ages : List Number) (m : Number) : Type 0 where
  pub member : Memᴰ m (first ∷ ages)
  pub first_below : num_lt m first ≡ false
  pub none_above : any (num_lt m) ages ≡ false

member-fold : (m : Number) (ages : List Number) → Memᴰ (fold_max m ages) (m ∷ ages)
member-fold m [] = Memᴰ.head refl
member-fold m (a ∷ ages) = by_test (num_lt m a) (member-fold (num_max m a) ages)
  where
    by_test :
        (b : Bool)
        → Memᴰ (fold_max (if b then a else m) ages) ((if b then a else m) ∷ ages)
        → Memᴰ (fold_max (if b then a else m) ages) (m ∷ a ∷ ages)
    by_test true k = Memᴰ.tail k
    by_test false (Memᴰ.head e) = Memᴰ.head e
    by_test false (Memᴰ.tail k) = Memᴰ.tail (Memᴰ.tail k)

fold-age :
    (x : ℤ) (ages : List Number)
    → all is_age ages ≡ true
    → (z : ℤ) × (fold_max (age_of x) ages ≡ age_of z)
fold-age x [] h = (x, refl)
fold-age x (float (finite y) ∷ ages) h =
    let (z, e) = max-age x y in
    let (w, f) = fold-age z ages (ground arith) in (w, ap (λ (m : Number). fold_max m ages) e ∙ f)
fold-age x (float inf ∷ ages) h = absurd (ground arith)
fold-age x (float neg_inf ∷ ages) h = absurd (ground arith)
fold-age x (float nan ∷ ages) h = absurd (ground arith)
fold-age x (int n ∷ ages) h = absurd (ground arith)

not_above_itself : (z : ℤ) → num_lt (age_of z) (age_of z) ≡ false
not_above_itself z = ground arith

pub fold_max-IsGreatest :
    (x : ℤ) (ages : List Number)
    → all is_age ages ≡ true
    → IsGreatest (age_of x) ages (fold_max (age_of x) ages)
fold_max-IsGreatest x ages h =
    let (z, e) = fold-age x ages h in
    let split = below-fold (finite z) x ages h in
    let self : num_lt (age_of z) (fold_max (age_of x) ages) ≡ false = rw e (not_above_itself z) in
    record {
      member = member-fold (age_of x) ages;
      first_below = rw e (ground arith);
      none_above = rw e (ground arith);
    }
