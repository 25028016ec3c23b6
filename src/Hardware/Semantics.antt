-- ===== src/Hardware/Semantics.antt =====
-- The two forms of a contract that src/mcp_venus_os/hardware_contracts.py accepts: a mode with codes, or
-- a range with its unit.
use mcp_venus_os.Prelude.{
  ◌≡◌, ◌↔◌, ◌≢◌, ◌⊎◌, refl, String, true, Option, none, some, List, [], &&_iff, arith, str_eq,
  str_eq_iff, inl, inr, Bool-cases,
}
use mcp_venus_os.Prelude.Int.{ℤ, pos}
use mcp_venus_os.Value.{Number, int, num_le}
use mcp_venus_os.Hardware.{
  ValueUnit, mode, ampere, percent, unit_eq, HardwareWriteContract, finite_number, bounds_ok,
  is_empty, mode_contract_ok, quantity_ok, range_contract_ok, value_semantics_ok,
}

-- A contract about the mode of a VE.Bus device lists codes and no bounds.
pub record IsModeContract (c : HardwareWriteContract) : Type 0 where
  pub path : c.path ≡ "Mode"
  pub device : c.device_type ≡ "vebus"
  pub unit : c.unit ≡ mode
  pub codes : c.mode_codes ≢ []
  pub no_minimum : c.minimum ≡ none
  pub no_maximum : c.maximum ≡ none

-- What the range is of: a battery's state of charge, or a current.
abbrev pub IsQuantity : HardwareWriteContract → Type 0
IsQuantity c =
    ((c.path ≡ "SocLimit") × (c.device_type ≡ "battery") × (c.unit ≡ percent))
    ⊎ ((c.path ≢ "SocLimit") × (c.device_type ≡ "vebus") × (c.unit ≡ ampere))

-- A contract about a quantity has finite bounds in order, at least 0, and a percentage ends at 100.
pub record IsRangeContract (c : HardwareWriteContract) : Type 0 where
  pub path : c.path ≢ "Mode"
  pub quantity : IsQuantity c
  pub no_codes : c.mode_codes ≡ []
  pub low : Number
  pub high : Number
  pub minimum : c.minimum ≡ some low
  pub maximum : c.maximum ≡ some high
  pub finite_low : finite_number low ≡ true
  pub finite_high : finite_number high ≡ true
  pub nonnegative : num_le (int (pos 0)) low ≡ true
  pub ordered : num_le low high ≡ true
  pub at_most_100 : (c.unit ≢ percent) ⊎ (num_le high (int (pos 100)) ≡ true)

bounds_iff :
    (u : ValueUnit) (low high : Number)
    → (bounds_ok u (some low) (some high) ≡ true) ↔ (
        (finite_number low ≡ true)
        × (finite_number high ≡ true)
        × (num_le (int (pos 0)) low ≡ true)
        × (num_le low high ≡ true)
        × ((u ≢ percent) ⊎ (num_le high (int (pos 100)) ≡ true)))
unfolding unit_eq
bounds_iff mode low high = ground arith
bounds_iff _ low high = ground arith

bounds_found :
    (u : ValueUnit) (low? high? : Option Number)
    → bounds_ok u low? high? ≡ true
    → (low : Number) × (high : Number) × (low? ≡ some low)
      × (high? ≡ some high)
      × (finite_number low ≡ true)
      × (finite_number high ≡ true)
      × (num_le (int (pos 0)) low ≡ true)
      × (num_le low high ≡ true)
      × ((u ≢ percent) ⊎ (num_le high (int (pos 100)) ≡ true))
bounds_found u none high? h = absurd (cc h)
bounds_found u (some low) none h = absurd (cc h)
bounds_found u (some low) (some high) h =
    let (a, b, k, l, m) = (bounds_iff u low high).0 h in (low, high, refl, refl, a, b, k, l, m)

unit_eq_iff : (a b : ValueUnit) → (unit_eq a b ≡ true) ↔ (a ≡ b)
unfolding unit_eq
unit_eq_iff mode mode = ground arith
unit_eq_iff ampere ampere = ground arith
unit_eq_iff percent percent = ground arith
unit_eq_iff _ _ = ground arith

IsModeContract-sound :
    (c : HardwareWriteContract) → c.path ≡ "Mode" → mode_contract_ok c ≡ true → IsModeContract c
unfolding mode_contract_ok
IsModeContract-sound c e h = record {
  path = e;
  device = ground (arith, str_eq_iff c.device_type "vebus");
  unit = ground (arith, unit_eq_iff c.unit mode);
  codes = ground arith;
  no_minimum = ground arith;
  no_maximum = ground arith;
}

IsModeContract-complete : (c : HardwareWriteContract) → IsModeContract c → mode_contract_ok c ≡ true
unfolding mode_contract_ok
IsModeContract-complete c m =
    let device = m.device in
    let unit = m.unit in
    let codes = m.codes in
    let low = m.no_minimum in
    let high = m.no_maximum in
    ground (arith, str_eq_iff c.device_type "vebus", unit_eq_iff c.unit mode)

IsQuantity-iff : (c : HardwareWriteContract) → (quantity_ok c ≡ true) ↔ IsQuantity c
unfolding quantity_ok
IsQuantity-iff c = ground (
  arith,
  str_eq_iff c.path "SocLimit",
  str_eq_iff c.device_type "battery",
  str_eq_iff c.device_type "vebus",
  unit_eq_iff c.unit percent,
  unit_eq_iff c.unit ampere,
)

is_empty_iff : (codes : List (String × ℤ)) → (is_empty codes ≡ true) ↔ (codes ≡ [])
is_empty_iff codes = ground arith

IsRangeContract-sound :
    (c : HardwareWriteContract) → c.path ≢ "Mode" → range_contract_ok c ≡ true → IsRangeContract c
unfolding range_contract_ok
IsRangeContract-sound c n h =
    let (rest, bounds) = (&&_iff _ _).0 h in
    let (quantity, empty) = (&&_iff _ _).0 rest in
    let (low, high, e, f, a, b, k, l, m) = bounds_found c.unit c.minimum c.maximum bounds in
    record {
      path = n;
      quantity = (IsQuantity-iff c).0 quantity;
      no_codes = (is_empty_iff c.mode_codes).0 empty;
      low = low;
      high = high;
      minimum = e;
      maximum = f;
      finite_low = a;
      finite_high = b;
      nonnegative = k;
      ordered = l;
      at_most_100 = m;
    }

IsRangeContract-complete :
    (c : HardwareWriteContract) → IsRangeContract c → range_contract_ok c ≡ true
unfolding range_contract_ok
IsRangeContract-complete c r =
    let quantity = (IsQuantity-iff c).1 r.quantity in
    let empty = (is_empty_iff c.mode_codes).1 r.no_codes in
    let bounds =
      (bounds_iff c.unit r.low r.high).1
        (r.finite_low, r.finite_high, r.nonnegative, r.ordered, r.at_most_100) in
    rw (r.minimum, r.maximum) ((&&_iff _ _).1 ((&&_iff _ _).1 (quantity, empty), bounds))

pub value_semantics_iff :
    (c : HardwareWriteContract)
    → (value_semantics_ok c ≡ true) ↔ (IsModeContract c ⊎ IsRangeContract c)
unfolding value_semantics_ok
value_semantics_iff c = (
  λ h. elim (Bool-cases (str_eq c.path "Mode")) [
    | inl e ↦ inl (IsModeContract-sound c ((str_eq_iff c.path "Mode").0 e) (ground arith))
    | inr e ↦
        inr (IsRangeContract-sound c (ground (arith, str_eq_iff c.path "Mode")) (ground arith))
  ],
  elim [
    | inl m ↦
        let path = m.path in ground (arith, IsModeContract-complete c m, str_eq_iff c.path "Mode")
    | inr r ↦
        let path = r.path in ground (arith, IsRangeContract-complete c r, str_eq_iff c.path "Mode")
  ],
)
