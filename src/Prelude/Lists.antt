-- ===== src/Prelude/Lists.antt =====
-- Lists with Boolean tests, and Python's dictionaries with text keys as association lists.
use Prim.Native.Nat.{ℕ, suc}
use Prim.Native.String.{String}
use mathlib.Core.Path.{◌≡◌, refl, ap, ◌∙◌}
use mathlib.Core.Logic.{◌↔◌, inl, inr}
use mathlib.Core.Bool.{Bool, true, false, not, ◌&&◌, ◌||◌}
use mathlib.Core.Option.{Option, none, some}
use mathlib.Core.List.{List, [], ◌∷◌, ◌++◌, Memᴰ}
use native.Mathlib.Omega.{arith}
use text.Mathlib.Text.{◌==◌}
use text.Mathlib.TextEquality.{eq_iff}
use mcp_venus_os.Prelude.Tests.{if◌then◌else◌, &&_iff, Bool-cases}

abbrev pub All {ℓ κ} : {A : Type ℓ} → (A → Type κ) → List A → Type κ
All P [] = Unit
All P (x ∷ xs) = P x × All P xs

pub some_injective {ℓ} : {A : Type ℓ} {a b : A} → some a ≡ some b → a ≡ b
some_injective e = cc e

module _ {ℓ} {A : Type ℓ} where
  abbrev pub length : List A → ℕ
  length [] = 0
  length (x ∷ xs) = suc (length xs)

  abbrev pub all : (A → Bool) → List A → Bool
  all p [] = true
  all p (x ∷ xs) = p x && all p xs

  abbrev pub any : (A → Bool) → List A → Bool
  any p [] = false
  any p (x ∷ xs) = p x || any p xs

  -- A comprehension with a condition.
  abbrev pub keep : (A → Bool) → List A → List A
  keep p [] = []
  keep p (x ∷ xs) = let rest = keep p xs in if p x then x ∷ rest else rest

  pub All-map {κ ι} :
      {P : A → Type κ} {Q : A → Type ι} (f : (x : A) → P x → Q x) (xs : List A)
      → All P xs
      → All Q xs
  All-map f [] h = tt
  All-map f (x ∷ xs) (p, h) = (f x p, All-map f xs h)

  -- A test that decides a predicate at each element decides it over the list.
  pub all_iff {κ} :
      (p : A → Bool) (P : A → Type κ) (xs : List A)
      → ((x : A) → (p x ≡ true) ↔ P x)
      → (all p xs ≡ true) ↔ All P xs
  all_iff p P [] h = (λ _. tt, λ _. refl)
  all_iff p P (x ∷ xs) h = (
    λ e. let (a, b) = (&&_iff (p x) (all p xs)).0 e in ((h x).0 a, (all_iff p P xs h).0 b),
    λ (a, b). (&&_iff (p x) (all p xs)).1 ((h x).1 a, (all_iff p P xs h).1 b),
  )

  -- A test of what a filter keeps is a test of each element that passes the filter.
  pub all-keep : (p q : A → Bool) (xs : List A) → all q (keep p xs) ≡ all (λ x. not (p x) || q x) xs
  all-keep p q [] = refl
  all-keep p q (x ∷ xs) = ground (arith, all-keep p q xs)

  pub all-&& : (p q : A → Bool) (xs : List A) → (all p xs && all q xs) ≡ all (λ x. p x && q x) xs
  all-&& p q [] = refl
  all-&& p q (x ∷ xs) = ground (arith, all-&& p q xs)

  -- The one element of a filtered list, with what stood before and behind it.
  pub record Alone (p : A → Bool) (xs : List A) (x : A) : Type ℓ where
    pub before : List A
    pub after : List A
    pub split : xs ≡ before ++ x ∷ after
    pub chosen : p x ≡ true
    pub none_before : All (λ y. p y ≡ false) before
    pub none_after : All (λ y. p y ≡ false) after

  pub keep-nil : (p : A → Bool) (xs : List A) → keep p xs ≡ [] → All (λ y. p y ≡ false) xs
  keep-nil p [] h = tt
  keep-nil p (x ∷ xs) h = elim (Bool-cases (p x)) [
    | inl e ↦ absurd (ground arith)
    | inr e ↦ (e, keep-nil p xs (ground arith))
  ]

  pub keep-of_none : (p : A → Bool) (xs : List A) → All (λ y. p y ≡ false) xs → keep p xs ≡ []
  keep-of_none p [] h = refl
  keep-of_none p (x ∷ xs) (e, h) = ground (arith, keep-of_none p xs h)

  pub keep-Alone : (p : A → Bool) (xs : List A) (x : A) → keep p xs ≡ x ∷ [] → Alone p xs x
  keep-Alone p [] x h = absurd (ground arith)
  keep-Alone p (y ∷ ys) x h = elim (Bool-cases (p y)) [
    | inl e ↦ record {
      before = [];
      after = ys;
      split = ground arith;
      chosen = ground arith;
      none_before = tt;
      none_after = keep-nil p ys (ground arith);
    }
    | inr e ↦
        let rest = keep-Alone p ys x (ground arith) in
        record {
          before = y ∷ rest.before;
          after = rest.after;
          split = ap (λ (l : List A). y ∷ l) rest.split;
          chosen = rest.chosen;
          none_before = (e, rest.none_before);
          none_after = rest.none_after;
        }
  ]

  keep-split :
      (p : A → Bool) (before after : List A) (x : A)
      → p x ≡ true
      → All (λ y. p y ≡ false) before
      → All (λ y. p y ≡ false) after
      → keep p (before ++ x ∷ after) ≡ x ∷ []
  keep-split p [] after x e h k = ground (arith, keep-of_none p after k)
  keep-split p (y ∷ ys) after x e (f, h) k = ground (arith, keep-split p ys after x e h k)

  pub Alone-keep : (p : A → Bool) (xs : List A) (x : A) → Alone p xs x → keep p xs ≡ x ∷ []
  Alone-keep p xs x a =
      rw a.split (keep-split p a.before a.after x a.chosen a.none_before a.none_after)

-- What a filter keeps is what passes it.
pub any_iff {ℓ} :
    {A : Type ℓ} (p : A → Bool) (xs : List A)
    → (any p xs ≡ true) ↔ ((x : A) × Memᴰ x xs × (p x ≡ true))
any_iff {A = A} p [] = (λ h. absurd (cc h), λ (x, m, h). elim m [ ])
any_iff {A = A} p (y ∷ ys) =
    let ih = any_iff p ys in (by_test (p y) refl ih.0, λ (x, m, h). found x m h ih.1)
  where
    by_test :
        (b : Bool)
        → p y ≡ b
        → (any p ys ≡ true → (x : A) × Memᴰ x ys × (p x ≡ true))
        → (b || any p ys) ≡ true
        → (x : A) × Memᴰ x (y ∷ ys) × (p x ≡ true)
    by_test true e ih h = (y, Memᴰ.head refl, e)
    by_test false e ih h = let (x, m, k) = ih h in (x, Memᴰ.tail m, k)

    found :
        (x : A)
        → Memᴰ x (y ∷ ys)
        → p x ≡ true
        → ((x : A) × Memᴰ x ys × (p x ≡ true) → any p ys ≡ true)
        → (p y || any p ys) ≡ true
    found x (Memᴰ.head e) h ih = let same : p x ≡ p y = ap p e in ground arith
    found x (Memᴰ.tail m) h ih = let k = ih (x, m, h) in ground arith

pub Mem-keep_iff {ℓ} :
    {A : Type ℓ} (p : A → Bool) (x : A) (xs : List A)
    → Memᴰ x (keep p xs) ↔ (Memᴰ x xs × (p x ≡ true))
Mem-keep_iff p x [] = (λ m. elim m [ ], λ (m, e). elim m [ ])
Mem-keep_iff p x (y ∷ ys) =
    let ih = Mem-keep_iff p x ys in (kept ih (p y) refl, λ (m, e). passed ih (p y) refl m e)
  where
    kept :
        Memᴰ x (keep p ys) ↔ (Memᴰ x ys × (p x ≡ true))
        → (b : Bool) → p y ≡ b
        → Memᴰ x (if b then y ∷ keep p ys else keep p ys)
        → Memᴰ x (y ∷ ys) × (p x ≡ true)
    kept ih true e (Memᴰ.head f) = (Memᴰ.head f, ap p f ∙ e)
    kept ih true e (Memᴰ.tail m) = let (n, k) = ih.0 m in (Memᴰ.tail n, k)
    kept ih false e m = let (n, k) = ih.0 m in (Memᴰ.tail n, k)

    passed :
        Memᴰ x (keep p ys) ↔ (Memᴰ x ys × (p x ≡ true))
        → (b : Bool) → p y ≡ b
        → Memᴰ x (y ∷ ys)
        → p x ≡ true
        → Memᴰ x (if b then y ∷ keep p ys else keep p ys)
    passed ih true e (Memᴰ.head f) k = Memᴰ.head f
    passed ih true e (Memᴰ.tail m) k = Memᴰ.tail (ih.1 (m, k))
    passed ih false e (Memᴰ.head f) k = let off : p x ≡ false = ap p f ∙ e in absurd (ground arith)
    passed ih false e (Memᴰ.tail m) k = ih.1 (m, k)

pub All-++ {ℓ κ} :
    {A : Type ℓ} (P : A → Type κ) (xs ys : List A) → All P xs → All P ys → All P (xs ++ ys)
All-++ P [] ys h k = k
All-++ P (x ∷ xs) ys (p, h) k = (p, All-++ P xs ys h k)

-- `x in xs`, of texts.
abbrev pub elem : String → List String → Bool
elem x [] = false
elem x (y ∷ ys) = x == y || elem x ys

pub elem_iff : (x : String) (xs : List String) → (elem x xs ≡ true) ↔ Memᴰ x xs
elem_iff x xs = (sound xs, complete xs)
  where
    sound : (ys : List String) → elem x ys ≡ true → Memᴰ x ys
    sound [] h = absurd (ground arith)
    sound (y ∷ ys) h = elim (Bool-cases (x == y)) [
      | inl e ↦ Memᴰ.head ((eq_iff x y).0 e)
      | inr e ↦ Memᴰ.tail (sound ys (ground arith))
    ]

    complete : (ys : List String) → Memᴰ x ys → elem x ys ≡ true
    complete [] m = elim m [ ]
    complete (y ∷ ys) (Memᴰ.head e) = ground (arith, eq_iff x y)
    complete (y ∷ ys) (Memᴰ.tail m) = ground (arith, complete ys m)

module _ {ℓ} {V : Type ℓ} where
  -- `d.get(k)`
  unfoldable pub lookup : String → List (String × V) → Option V
  lookup k [] = none
  lookup k ((j, v) ∷ d) = if j == k then some v else lookup k d

  -- `d[k] = v`: a key that is there keeps its place.
  unfoldable pub insert : String → V → List (String × V) → List (String × V)
  insert k v [] = (k, v) ∷ []
  insert k v ((j, w) ∷ d) = if j == k then (k, v) ∷ d else (j, w) ∷ insert k v d

  -- `d.pop(k, None)`
  unfoldable pub remove : String → List (String × V) → List (String × V)
  remove k [] = []
  remove k ((j, w) ∷ d) = let rest = remove k d in if j == k then rest else (j, w) ∷ rest

  pub lookup-insert :
      (k j : String) (v : V) (d : List (String × V))
      → lookup j (insert k v d) ≡ (if k == j then some v else lookup j d)
  unfolding lookup insert
  lookup-insert k j v [] = refl
  lookup-insert k j v ((i, w) ∷ d) =
      ground (arith, eq_iff k j, eq_iff i k, eq_iff i j, lookup-insert k j v d)

  pub lookup-remove :
      (k j : String) (d : List (String × V))
      → lookup j (remove k d) ≡ (if k == j then none else lookup j d)
  unfolding lookup remove
  lookup-remove k j [] = ground arith
  lookup-remove k j ((i, w) ∷ d) =
      ground (arith, eq_iff k j, eq_iff i k, eq_iff i j, lookup-remove k j d)
