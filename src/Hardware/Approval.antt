-- ===== src/Hardware/Approval.antt =====
-- When each test of the hardware gate of src/mcp_venus_os/hardware_contracts.py passes: the target, the
-- identity probes and the value.
use mcp_venus_os.Prelude.{
  ◌≡◌, ◌↔◌, ◌≢◌, ◌⊎◌, refl, String, true, false, Option, none, some, List, [], ◌∷◌, All, lookup,
  arith, str_eq, str_eq_iff, inl, inr, Bool-cases,
}
use mcp_venus_os.Prelude.Int.{ℤ, pos, eqb_ℤ_iff}
use mcp_venus_os.Value.{Number, int, Payload, num, str, null, num_le, num_eq}
use mcp_venus_os.Hardware.{
  Expected, text, whole, IdentityProbe, HardwareWriteContract, finite_number,
}
use mcp_venus_os.Hardware.Validation.{
  Reader, same_value, same_target, check_probe, check_probes, mode_qualified, in_range, check_value,
}

-- The value that an identity probe must have been observed with.
abbrev pub Observed : Expected → Payload
Observed (text t) = str t
Observed (whole n) = num (int n)

-- A finite, positive limit.
abbrev pub IsLimit : Number → Type 0
IsLimit max_age = (finite_number max_age ≡ true) × (num_le max_age (int (pos 0)) ≡ false)

abbrev pub IsFresh : Number → Number → Type 0
IsFresh max_age age =
    (finite_number age ≡ true) × (num_le (int (pos 0)) age ≡ true) × (num_le age max_age ≡ true)

-- The probe's item was read with exactly the expected value, and is fresh.
abbrev pub IsConfirmed : Reader → Number → IdentityProbe → Type 0
IsConfirmed read max_age p =
    (age : Number) × (read p.device_type p.instance_id p.path ≡ some (Observed p.expected, age))
    × IsFresh max_age age

-- The contract is for this portal, device and path.
abbrev pub Targets : Option String → String → ℤ → String → HardwareWriteContract → Type 0
Targets portal device_type inst path c =
    (portal ≡ some c.portal_id)
    × (c.device_type ≡ device_type)
    × (c.instance_id ≡ inst)
    × (c.path ≡ path)

-- The code of a mode that the contract lists.
abbrev pub IsModeWrite : HardwareWriteContract → String → Option String → Number → Type 0
IsModeWrite c path semantic_mode n =
    (path ≡ "Mode")
    × (m : String) × (code : ℤ) × (semantic_mode ≡ some m)
    × (lookup m c.mode_codes ≡ some code)
    × (num_eq (int code) n ≡ true)

-- A value between the contract's bounds.
abbrev pub IsRangeWrite : HardwareWriteContract → String → Number → Type 0
IsRangeWrite c path n =
    (path ≢ "Mode")
    × (low : Number) × (high : Number) × (c.minimum ≡ some low)
    × (c.maximum ≡ some high)
    × (num_le low n ≡ true)
    × (num_le n high ≡ true)

abbrev pub IsMeant : HardwareWriteContract → String → Option String → Payload → Type 0
IsMeant c path semantic_mode value =
    (n : Number) × (value ≡ num n)
    × (finite_number n ≡ true)
    × (IsModeWrite c path semantic_mode n ⊎ IsRangeWrite c path n)

same_value_iff : (v : Payload) (e : Expected) → (same_value v e ≡ true) ↔ (v ≡ Observed e)
same_value_iff (str s) (text t) = ground (arith, str_eq_iff s t)
same_value_iff (num (int n)) (whole m) = ground (arith, eqb_ℤ_iff n m)
same_value_iff v (text t) = ground arith
same_value_iff v (whole m) = ground arith

pub same_target_iff :
    (portal : Option String) (device_type : String) (inst : ℤ) (path : String)
    (c : HardwareWriteContract)
    → (same_target portal device_type inst path c ≡ true) ↔ Targets portal device_type inst path c
unfolding same_target
same_target_iff none device_type inst path c = ground arith
same_target_iff (some s) device_type inst path c = ground (
  arith,
  str_eq_iff s c.portal_id,
  str_eq_iff c.device_type device_type,
  eqb_ℤ_iff c.instance_id inst,
  str_eq_iff c.path path,
)

module _ (read : Reader) (max_age : Number) where
  check_probe_iff :
      (p : IdentityProbe) → (check_probe read max_age p ≡ none) ↔ IsConfirmed read max_age p
  unfolding check_probe
  check_probe_iff p = (confirmed (read p.device_type p.instance_id p.path) refl, observed)
    where
      confirmed :
          (o : Option (Payload × Number))
          → read p.device_type p.instance_id p.path ≡ o
          → check_probe read max_age p ≡ none
          → IsConfirmed read max_age p
      confirmed none e h = absurd (ground arith)
      confirmed (some (v, age)) e h =
          (age, ground (arith, same_value_iff v p.expected), ground arith)

      observed : IsConfirmed read max_age p → check_probe read max_age p ≡ none
      observed (age, e, h) =
          ground (arith, (same_value_iff (Observed p.expected) p.expected).1 refl)

  check_probes-cons :
      (p : IdentityProbe) (ps : List IdentityProbe)
      → (check_probes read max_age (p ∷ ps) ≡ none)
        ↔ ((check_probe read max_age p ≡ none) × (check_probes read max_age ps ≡ none))
  unfolding check_probes
  check_probes-cons p ps = ground arith

  pub check_probes_iff :
      (ps : List IdentityProbe)
      → (check_probes read max_age ps ≡ none) ↔ All (IsConfirmed read max_age) ps
  unfolding check_probes
  check_probes_iff [] = (λ _. tt, λ _. refl)
  check_probes_iff (p ∷ ps) = (
    λ e.
        let (a, b) = (check_probes-cons p ps).0 e in
        ((check_probe_iff p).0 a, (check_probes_iff ps).0 b),
    λ (a, b). (check_probes-cons p ps).1 ((check_probe_iff p).1 a, (check_probes_iff ps).1 b),
  )

mode_qualified_iff :
    (semantic_mode : Option String) (codes : List (String × ℤ)) (n : Number)
    → (mode_qualified semantic_mode codes n ≡ true) ↔ (
        (m : String) × (code : ℤ) × (semantic_mode ≡ some m)
        × (lookup m codes ≡ some code)
        × (num_eq (int code) n ≡ true))
mode_qualified_iff none codes n =
    (λ h. absurd (ground arith), λ (m, code, e, l, h). absurd (ground arith))
mode_qualified_iff (some s) codes n =
    (listed (lookup s codes) refl, λ (m, code, e, l, h). ground arith)
  where
    listed :
        (o : Option ℤ)
        → lookup s codes ≡ o
        → mode_qualified (some s) codes n ≡ true
        → (m : String) × (code : ℤ) × (some s ≡ some m)
          × (lookup m codes ≡ some code)
          × (num_eq (int code) n ≡ true)
    listed none e h = absurd (ground arith)
    listed (some code) e h = (s, code, refl, e, ground arith)

in_range_iff :
    (low? high? : Option Number) (n : Number)
    → (in_range low? high? n ≡ true) ↔ (
        (low : Number) × (high : Number) × (low? ≡ some low)
        × (high? ≡ some high)
        × (num_le low n ≡ true)
        × (num_le n high ≡ true))
in_range_iff (some low) (some high) n = (
  λ h. (low, high, refl, refl, ground arith, ground arith),
  λ (low', high', e, f, h, k). ground arith,
)
in_range_iff (some low) none n =
    (λ h. absurd (ground arith), λ (low, high, e, f, h, k). absurd (ground arith))
in_range_iff none _ n =
    (λ h. absurd (ground arith), λ (low, high, e, f, h, k). absurd (ground arith))

pub check_value_iff :
    (c d : HardwareWriteContract) (path : String) (semantic_mode : Option String) (value : Payload)
    → (check_value c path semantic_mode value ≡ (some d, none))
      ↔ ((c ≡ d) × IsMeant c path semantic_mode value)
unfolding check_value
check_value_iff c d path semantic_mode (num n) = (
  λ e. (ground arith, (n, refl, ground arith, meaning e)),
  λ (same, (k, e, f, meant)). rw (← same) (passes k e f meant),
)
  where
    meaning :
        check_value c path semantic_mode (num n) ≡ (some d, none)
        → IsModeWrite c path semantic_mode n ⊎ IsRangeWrite c path n
    meaning e = elim (Bool-cases (str_eq path "Mode")) [
      | inl m ↦
          let (s, code, a, b, k) =
            (mode_qualified_iff semantic_mode c.mode_codes n).0 (ground arith) in
          inl ((str_eq_iff path "Mode").0 m, s, code, a, b, k)
      | inr m ↦
          let (low, high, a, b, k, l) = (in_range_iff c.minimum c.maximum n).0 (ground arith) in
          inr ((λ q. ground (arith, str_eq_iff path "Mode")), low, high, a, b, k, l)
    ]

    passes :
        (k : Number)
        → num n ≡ num k
        → finite_number k ≡ true
        → IsModeWrite c path semantic_mode k ⊎ IsRangeWrite c path k
        → check_value c path semantic_mode (num n) ≡ (some c, none)
    passes k e f (inl (m, s, code, a, b, q)) =
        let h = (mode_qualified_iff semantic_mode c.mode_codes k).1 (s, code, a, b, q) in
        ground (arith, h, str_eq_iff path "Mode")
    passes k e f (inr (m, low, high, a, b, q, r)) =
        let h = (in_range_iff c.minimum c.maximum k).1 (low, high, a, b, q, r) in
        ground (arith, h, str_eq_iff path "Mode")
check_value_iff c d path semantic_mode null =
    (λ e. absurd (ground arith), λ (same, (k, e, f, w)). absurd (ground arith))
check_value_iff c d path semantic_mode _ =
    (λ e. absurd (ground arith), λ (same, (k, e, f, w)). absurd (ground arith))
