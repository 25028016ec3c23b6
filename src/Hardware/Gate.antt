-- ===== src/Hardware/Gate.antt =====
-- What the hardware gate of src/mcp_venus_os/hardware_contracts.py lets through: an independent
-- description of an approved write.
use mcp_venus_os.Prelude.{
  ◌≡◌, ◌↔◌, refl, ◌∙◌, ap, String, true, Option, none, some, List, [], ◌∷◌, All, All-map,
  not_of_false, false_of_not, ◌++◌, Alone, keep, keep-Alone, Alone-keep, arith, inl, inr,
  Option-cases,
}
use mcp_venus_os.Prelude.Int.{ℤ}
use mcp_venus_os.Value.{Number, Payload, num}
use mcp_venus_os.Hardware.{HardwareWriteContract}
use mcp_venus_os.Hardware.Validation.{
  Reader, same_target, check_probes, check_value, check_contract, sole, Checked,
  validate_hardware_write,
}
use mcp_venus_os.Hardware.Approval.{
  IsLimit, IsConfirmed, Targets, IsMeant, same_target_iff, check_probes_iff, check_value_iff,
}

-- The one contract for the target approves the write: no other contract of the list is for it.
pub record IsApproved (contracts : List HardwareWriteContract) (portal : Option String)
    (device_type : String) (inst : ℤ) (path : String) (value : Payload)
    (semantic_mode : Option String) (read : Reader) (max_age : Number) (c : HardwareWriteContract)
    : Type 0 where
  pub before : List HardwareWriteContract
  pub after : List HardwareWriteContract
  pub listed : contracts ≡ before ++ c ∷ after
  pub targets : Targets portal device_type inst path c
  pub others_before : All (λ x. ¬ Targets portal device_type inst path x) before
  pub others_after : All (λ x. ¬ Targets portal device_type inst path x) after
  pub limit : IsLimit max_age
  pub confirmed : All (IsConfirmed read max_age) c.identity
  pub meant : IsMeant c path semantic_mode value

sole_iff :
    (l : List HardwareWriteContract) (c : HardwareWriteContract) → (sole l ≡ some c) ↔ (l ≡ c ∷ [])
sole_iff [] c = ground arith
sole_iff (x ∷ []) c = ground arith
sole_iff (x ∷ y ∷ l) c = ground arith

module _ (value : Payload) (semantic_mode : Option String) (path : String) (read : Reader)
    (max_age : Number) where
  check_contract_iff :
      (c d : HardwareWriteContract)
      → (check_contract c path value semantic_mode read max_age ≡ (some d, none)) ↔ (
          IsLimit max_age
          × (check_probes read max_age c.identity ≡ none)
          × (check_value c path semantic_mode value ≡ (some d, none)))
  unfolding check_contract
  check_contract_iff c d = ground arith

  module _ (contracts : List HardwareWriteContract) (portal : Option String) (device_type : String)
      (inst : ℤ) where
    targets? :
        (y : HardwareWriteContract)
        → (same_target portal device_type inst path y ≡ true)
          ↔ Targets portal device_type inst path y
    targets? y = same_target_iff portal device_type inst path y

    approved :
        (o : Option HardwareWriteContract) (c : HardwareWriteContract)
        → sole (keep (same_target portal device_type inst path) contracts) ≡ o
        → validate_hardware_write contracts portal device_type inst path value semantic_mode read
            max_age
          ≡ (some c, none)
        → IsApproved contracts portal device_type inst path value semantic_mode read max_age c
    unfolding validate_hardware_write
    approved none c e h = absurd (ground arith)
    approved (some x) c e h =
        let (limit, probes, rest) = (check_contract_iff x c).0 (ground arith) in
        let (same, meant) = (check_value_iff x c path semantic_mode value).0 rest in
        let alone =
          keep-Alone (same_target portal device_type inst path) contracts c
            ((sole_iff _ c).0 (e ∙ ap some same)) in
        record {
          before = alone.before;
          after = alone.after;
          listed = alone.split;
          targets = (same_target_iff portal device_type inst path c).0 alone.chosen;
          others_before = All-map (λ y. not_of_false _ (targets? y)) _ alone.none_before;
          others_after = All-map (λ y. not_of_false _ (targets? y)) _ alone.none_after;
          limit = limit;
          confirmed = rw (← same) ((check_probes_iff read max_age x.identity).0 probes);
          meant = rw (← same) meant;
        }

    only :
        (c : HardwareWriteContract)
        → IsApproved contracts portal device_type inst path value semantic_mode read max_age c
        → Alone (same_target portal device_type inst path) contracts c
    only c a = record {
      before = a.before;
      after = a.after;
      split = a.listed;
      chosen = (targets? c).1 a.targets;
      none_before = All-map (λ y. false_of_not _ (targets? y)) _ a.others_before;
      none_after = All-map (λ y. false_of_not _ (targets? y)) _ a.others_after;
    }

    -- The gate returns a contract exactly when that contract is the only one for the target, every
    -- identity probe was read with the expected value and is fresh, and the value is qualified.
    pub validate_hardware_write_iff :
        (c : HardwareWriteContract)
        → (validate_hardware_write contracts portal device_type inst path value semantic_mode read
              max_age
            ≡ (some c, none))
          ↔ IsApproved contracts portal device_type inst path value semantic_mode read max_age c
    unfolding validate_hardware_write
    validate_hardware_write_iff c = (
      approved (sole (keep (same_target portal device_type inst path) contracts)) c refl,
      λ a.
          let found = (sole_iff _ c).1 (Alone-keep _ contracts c (only c a)) in
          let probes = (check_probes_iff read max_age c.identity).1 a.confirmed in
          let rest = (check_value_iff c c path semantic_mode value).1 (refl, a.meant) in
          ground (arith, found, (check_contract_iff c c).1 (a.limit, probes, rest)),
    )

-- A contract or an error, not both and not neither.
abbrev pub IsDecided : Checked → Type 0
IsDecided (some c, none) = Unit
IsDecided (none, some problem) = Unit
IsDecided _ = ⊥

check_value-IsDecided :
    (c : HardwareWriteContract) (path : String) (semantic_mode : Option String) (value : Payload)
    → IsDecided (check_value c path semantic_mode value)
unfolding check_value
check_value-IsDecided c path semantic_mode (num n) = ground arith
check_value-IsDecided c path semantic_mode _ = tt

-- Whatever it is given, the gate returns a contract and no error, or an error and no contract.
pub validate_hardware_write-IsDecided :
    (contracts : List HardwareWriteContract) (portal : Option String) (device_type : String)
    (inst : ℤ) (path : String) (value : Payload) (semantic_mode : Option String) (read : Reader)
    (max_age : Number)
    → IsDecided (
        validate_hardware_write contracts portal device_type inst path value semantic_mode read
          max_age)
unfolding validate_hardware_write check_contract
validate_hardware_write-IsDecided contracts portal device_type inst path value sm read max_age =
    elim (Option-cases (sole (keep (same_target portal device_type inst path) contracts))) [
      | inl e ↦ ground arith
      | inr (c, e) ↦ ground (arith, check_value-IsDecided c path sm value)
    ]
