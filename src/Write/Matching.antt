-- ===== src/Write/Matching.antt =====
-- When `_values_match` of src/mcp_venus_os/server.py accepts a read-back.
use mcp_venus_os.Prelude.{
  ℕ, suc, ◌+◌, ◌*◌, ◌^◌, ◌<◌, ◌≤◌, ◌≡◌, ◌↔◌, refl, sym, ap, ◌∙◌, ◌⊎◌, inl, inr, subst, Bool,
  Bool-cases, ◌||◌, false, if◌then◌else◌, str_eq, str_eq_iff, String, true, Option, none, some, ltb,
  arith,
}
use native.Mathlib.Nat.{eq_of_mul-eq-mul_right}
use mcp_venus_os.Prelude.Int.{ℤ, pos, negsuc, abs, scale, eqb_ℤ_iff}
use mcp_venus_os.Value.{
  Float, finite, inf, neg_inf, nan, int, float, Payload, null, bool, num, str, arr, obj, Entries,
  entry, end, one_units, overflow_bound,
}
use mcp_venus_os.Write.{
  values_match, to_float, same_floats, echoed, get_value, is_bool, number_to_float, round_double,
  rounded,
}

small_is_in_range : 2 ^ 53 ≤ overflow_bound
unfolding overflow_bound
small_is_in_range = omega arith

one_is_positive : 0 < one_units
unfolding one_units
one_is_positive = omega arith

module _ (float_of_text : String → Option Float) where
  -- Two conversions to the same finite float.
  abbrev pub IsSameFloat : Option Float → Option Float → Type 0
  IsSameFloat a b = (x : ℤ) × (a ≡ some (finite x)) × (b ≡ some (finite x))

  same_floats-some :
      (x y : Float)
      → same_floats float_of_text (some x) (some y) ≡ true
      → IsSameFloat (some x) (some y)
  same_floats-some (finite x) (finite y) h =
      let e : x ≡ y = (eqb_ℤ_iff x y).0 (ground arith) in (x, refl, cc e)
  same_floats-some (finite x) inf h = absurd (ground arith)
  same_floats-some (finite x) neg_inf h = absurd (ground arith)
  same_floats-some (finite x) nan h = absurd (ground arith)
  same_floats-some inf y h = absurd (ground arith)
  same_floats-some neg_inf y h = absurd (ground arith)
  same_floats-some nan y h = absurd (ground arith)

  same_floats_sound : (a b : Option Float) → same_floats float_of_text a b ≡ true → IsSameFloat a b
  same_floats_sound none b h = absurd (cc h)
  same_floats_sound (some x) none h = absurd (cc h)
  same_floats_sound (some x) (some y) h = same_floats-some x y h

  same_floats_complete :
      (a b : Option Float) → IsSameFloat a b → same_floats float_of_text a b ≡ true
  same_floats_complete a b (x, e, g) = rw (e, g) ((eqb_ℤ_iff x x).1 refl)

  -- The float of a value, in units: an int below the bound of the floats is rounded, a float is finite,
  -- and a text is parsed. A bool, null, a list and a dictionary have none.
  abbrev pub HasFloat : Payload → ℤ → Type 0
  HasFloat (num (int n)) x = (ltb (abs n) overflow_bound ≡ true) × (x ≡ scale (rounded n) one_units)
  HasFloat (num (float f)) x = f ≡ finite x
  HasFloat (str s) x = float_of_text s ≡ some (finite x)
  HasFloat _ x = ⊥

  -- The first entry under "value" has the float.
  abbrev pub HasValue : Entries → ℤ → Type 0
  HasValue end x = ⊥
  HasValue (entry key v rest) x =
      ((key ≡ "value") × HasFloat v x) ⊎ ((¬ (key ≡ "value")) × HasValue rest x)

  -- A read-back, which may be a dictionary around the value.
  abbrev pub IsReadAs : Payload → ℤ → Type 0
  IsReadAs (obj entries) x = HasValue entries x
  IsReadAs p x = HasFloat p x

  abbrev Converts : Payload → ℤ → Type 0
  Converts p x = (is_bool p ≡ false) × (to_float float_of_text p ≡ some (finite x))

  int-HasFloat : (n x : ℤ) → (number_to_float (int n) ≡ some (finite x)) ↔ HasFloat (num (int n)) x
  unfolding number_to_float
  int-HasFloat n x = by_bound (ltb (abs n) overflow_bound)
    where
      by_bound :
          (b : Bool)
          → ((if b then some (finite (scale (rounded n) one_units)) else none) ≡ some (finite x))
            ↔ ((b ≡ true) × (x ≡ scale (rounded n) one_units))
      by_bound true = (λ h. (refl, cc h), λ (e, f). rw f refl)
      by_bound false = (λ h. absurd (cc h), λ (e, f). absurd (cc e))

  Converts-HasFloat : (p : Payload) (x : ℤ) → Converts p x ↔ HasFloat p x
  unfolding number_to_float
  Converts-HasFloat (num (int n)) x =
      (λ (b, h). (int-HasFloat n x).0 h, λ h. (refl, (int-HasFloat n x).1 h))
  Converts-HasFloat (num (float f)) x = (λ (b, h). cc h, λ h. (refl, rw h refl))
  Converts-HasFloat (str s) x = (λ (b, h). h, λ h. (refl, h))
  Converts-HasFloat null x = (λ (b, h). absurd (cc h), λ h. absurd h)
  Converts-HasFloat (bool b) x = (λ (e, h). absurd (cc e), λ h. absurd h)
  Converts-HasFloat (arr l) x = (λ (b, h). absurd (cc h), λ h. absurd h)
  Converts-HasFloat (obj l) x = (λ (b, h). absurd (cc h), λ h. absurd h)

  HasValue-iff : (entries : Entries) (x : ℤ) → HasFloat (get_value entries) x ↔ HasValue entries x
  HasValue-iff end x = (λ h. h, λ h. h)
  HasValue-iff (entry key v rest) x = elim (Bool-cases (str_eq key "value")) [
    | inl e ↦
        let same = (str_eq_iff key "value").0 e in
        (
          λ h. inl (same, subst (λ p. HasFloat p x) (rw e refl) h),
          λ o. elim o [
            | inl (k, h) ↦ subst (λ p. HasFloat p x) (rw e refl) h
            | inr (k, h) ↦ absurd (k same)
          ],
        )
    | inr e ↦
        let other : ¬ (key ≡ "value") = λ k. absurd (cc (e, (str_eq_iff key "value").1 k)) in
        (
          λ h. inr (other, (HasValue-iff rest x).0 (subst (λ p. HasFloat p x) (rw e refl) h)),
          λ o. elim o [
            | inl (k, h) ↦ absurd (other k)
            | inr (k, h) ↦ subst (λ p. HasFloat p x) (rw e refl) ((HasValue-iff rest x).1 h)
          ],
        )
  ]

  echoed-IsReadAs : (p : Payload) (x : ℤ) → HasFloat (echoed p) x ↔ IsReadAs p x
  echoed-IsReadAs (obj entries) x = HasValue-iff entries x
  echoed-IsReadAs (num n) x = (λ h. h, λ h. h)
  echoed-IsReadAs (str s) x = (λ h. h, λ h. h)
  echoed-IsReadAs null x = (λ h. h, λ h. h)
  echoed-IsReadAs (bool b) x = (λ h. h, λ h. h)
  echoed-IsReadAs (arr l) x = (λ h. h, λ h. h)

  -- A read-back is accepted exactly when it, or the first "value" of it if it is a dictionary, and the
  -- written value have the same finite float. No bool has one.
  pub values_match_iff :
      (received expected : Payload)
      → (values_match float_of_text received expected ≡ true)
        ↔ ((x : ℤ) × IsReadAs received x × HasFloat expected x)
  unfolding values_match
  values_match_iff received expected = (
    λ h.
        let (b, c, s) = unguarded (is_bool (echoed received)) (is_bool expected) h in
        let (x, e, f) = same_floats_sound _ _ s in
        (
          x,
          (echoed-IsReadAs received x).0 ((Converts-HasFloat (echoed received) x).0 (b, e)),
          (Converts-HasFloat expected x).0 (c, f),
        ),
    λ (x, p, q).
        let (b, e) = (Converts-HasFloat (echoed received) x).1 ((echoed-IsReadAs received x).1 p) in
        let (c, f) = (Converts-HasFloat expected x).1 q in
        rw (b, c) (same_floats_complete _ _ (x, e, f)),
  )
    where
      unguarded :
          {s : Bool} (b c : Bool)
          → (if b || c then false else s) ≡ true
          → (b ≡ false) × (c ≡ false) × (s ≡ true)
      unguarded {s} b c h = ground arith

  abs-scale : (n : ℤ) (k : ℕ) → 0 < k → abs (scale n k) ≡ abs n * k
  abs-scale (pos n) k h = refl
  abs-scale (negsuc n) k h = let split : suc n * k ≡ n * k + k = omega arith in ground arith

  same_abs : (n m : ℤ) (k : ℕ) → 0 < k → scale n k ≡ scale m k → abs n ≡ abs m
  same_abs n m k h e =
      eq_of_mul-eq-mul_right k h (abs n) (abs m)
        (sym (abs-scale n k h) ∙ (ap abs e ∙ abs-scale m k h))

  scale_injective : (n m : ℤ) (k : ℕ) → 0 < k → scale n k ≡ scale m k → n ≡ m
  scale_injective (pos n) (pos m) k h e = ap (λ (i : ℕ). pos i) (same_abs (pos n) (pos m) k h e)
  scale_injective (pos n) (negsuc m) k h e = absurd (ground arith)
  scale_injective (negsuc n) (pos m) k h e = absurd (ground arith)
  scale_injective (negsuc n) (negsuc m) k h e =
      let a = same_abs (negsuc n) (negsuc m) k h e in ground arith

  rounded_small : (n : ℤ) → abs n < 2 ^ 53 → rounded n ≡ n
  unfolding round_double
  rounded_small (pos n) h = ground arith
  rounded_small (negsuc n) h = ground arith

  -- For ints below 2^53, mode codes and percentages among them, a read-back n is accepted for the
  -- written m, bare or as {"value": n}, exactly when they are equal.
  pub values_match-ints :
      (n m : ℤ)
      → abs n < 2 ^ 53
      → abs m < 2 ^ 53
      → ((values_match float_of_text (num (int n)) (num (int m)) ≡ true) ↔ (n ≡ m))
        × ((values_match float_of_text (obj (entry "value" (num (int n)) end)) (num (int m)) ≡ true)
            ↔ (n ≡ m))
  values_match-ints n m h k = (
    accepts (num (int n)) (λ x. (λ a. a, λ a. a)),
    accepts (obj (entry "value" (num (int n)) end)) (λ x. (unwrapped x, λ a. inl (refl, a))),
  )
    where
      unwrapped :
          (x : ℤ) → IsReadAs (obj (entry "value" (num (int n)) end)) x → HasFloat (num (int n)) x
      unwrapped x (inl (e, a)) = a
      unwrapped x (inr (f, a)) = absurd a

      below_bound : (i : ℤ) → abs i < 2 ^ 53 → ltb (abs i) overflow_bound ≡ true
      below_bound i l = let large = small_is_in_range in ground arith

      accepts :
          (received : Payload)
          → ((x : ℤ) → IsReadAs received x ↔ HasFloat (num (int n)) x)
          → (values_match float_of_text received (num (int m)) ≡ true) ↔ (n ≡ m)
      accepts received r = (
        λ a.
            let (x, p, q) = (values_match_iff received (num (int m))).0 a in
            scale_injective n m one_units one_is_positive (
              ap (λ i. scale i one_units) (sym (rounded_small n h))
              ∙ (sym ((r x).0 p).1 ∙ (q.1 ∙ ap (λ i. scale i one_units) (rounded_small m k)))),
        λ a. (values_match_iff received (num (int m))).1 (
          scale (rounded n) one_units,
          (r (scale (rounded n) one_units)).1 (below_bound n h, refl),
          (below_bound m k, ap (λ i. scale (rounded i) one_units) a),
        ),
      )
