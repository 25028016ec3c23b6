-- ===== src/Safety/Currents.antt =====
-- What the current checks of src/mcp_venus_os/safety.py do with values that are no finite number.
use mcp_venus_os.Prelude.{◌≤◌, ◌≡◌, ◌↔◌, refl, arith}
use mcp_venus_os.Prelude.Int.{ℤ, abs}
use mcp_venus_os.Value.{
  Float, Number, int, float, Payload, null, num, math_isfinite, overflow_bound,
}
use mcp_venus_os.Config.{SafetyConfig}
use mcp_venus_os.Safety.{
  raised, overflow_error, Raised, Quantity, finite_current, validate_current,
  validate_charge_current,
}

-- An int beyond the doubles.
abbrev pub IsHugeInt : Payload → Type 0
IsHugeInt v = (n : ℤ) × (v ≡ num (int n)) × (overflow_bound ≤ abs n)

finite_current-raises :
    (q : Quantity) (most : Float) (n : Number) (e : Raised)
    → finite_current q most n (math_isfinite n) ≡ raised e
    → (e ≡ overflow_error) × IsHugeInt (num n)
unfolding math_isfinite
finite_current-raises q most (int n) e h = (ground arith, (n, refl, ground arith))
finite_current-raises q most (float x) e h = absurd (ground arith)

current-raises :
    (q : Quantity) (most : Float) (v : Payload) (e : Raised)
    → validate_current q most v ≡ raised e
    → (e ≡ overflow_error) × IsHugeInt v
unfolding validate_current
current-raises q most (num n) e h = finite_current-raises q most n e h
current-raises q most null e h = absurd (cc h)
current-raises q most _ e h = absurd (cc h)

-- The charge-current check raises, instead of denying, exactly for an int whose conversion to a
-- float overflows, and then it raises OverflowError.
pub charge_current_raises_iff :
    (cfg : SafetyConfig) (v : Payload)
    → (validate_charge_current cfg v ≡ raised overflow_error) ↔ IsHugeInt v
unfolding validate_charge_current validate_current math_isfinite
charge_current_raises_iff cfg v = (
  λ h. (current-raises _ cfg.max_charge_current v overflow_error h).1,
  λ (n, e, big). rw e (huge n big),
)
  where
    huge :
        (n : ℤ)
        → overflow_bound ≤ abs n
        → validate_charge_current cfg (num (int n)) ≡ raised overflow_error
    huge n big = ground arith
