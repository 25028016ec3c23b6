-- ===== src/Safety/Gate.antt =====
-- What the write gate of src/mcp_venus_os/safety.py lets through, and when it asks.
use mathlib.Core.List.{Memᴰ}
use mcp_venus_os.Prelude.{
  ◌≡◌, ◌↔◌, ◌≢◌, ◌⊎◌, refl, sym, subst, String, Bool, true, false, ◌&&◌, Option, none, some, List,
  [], ◌∷◌, All, elem_iff, lookup, arith, inl, inr,
}
use mcp_venus_os.Prelude.Int.{ℤ, pos, ◌≤ℤ◌}
use mcp_venus_os.Value.{
  Float, Number, int, float, Payload, num, str, num_le, math_isfinite, is_finite,
}
use mcp_venus_os.Value.Order.{is_finite-exact, not-num_lt}
use mcp_venus_os.Config.{SafetyConfig}
use mcp_venus_os.Safety.{
  Quantity, Check, returned, raised, Params, unless_denied, operation_device_type, allowed_paths,
  path_for, search_command, finite_current, deny_patterns, validate_ssh_command, validate_current,
  validate_soc_limit, validate_mode,
}
use mcp_venus_os.Safety.Operation.{get_or_empty}

-- The outcome lets the operation through.
abbrev pub allows : Check → Bool
allows (returned r) = r.allowed
allows (raised e) = false

-- The outcome asks for a confirmation.
abbrev pub asks : Check → Bool
asks (returned r) = r.requires_confirmation
asks (raised e) = false

allows-unless_denied : (a b : Check) → allows (unless_denied a b) ≡ (allows a && allows b)
allows-unless_denied (returned r) b = ground arith
allows-unless_denied (raised e) b = refl

pub asks-unless_denied :
    (a b : Check) → asks a ≡ false → asks (unless_denied a b) ≡ (allows a && asks b)
asks-unless_denied (returned r) b h = ground arith
asks-unless_denied (raised e) b h = refl

pub unless_iff :
    (a b c d : Check)
    → (allows (unless_denied a (unless_denied b (unless_denied c d))) ≡ true)
      ↔ ((allows a ≡ true) × (allows b ≡ true) × (allows c ≡ true) × (allows d ≡ true))
unless_iff a b c d =
    rw (allows-unless_denied, allows-unless_denied, allows-unless_denied) (ground arith)

-- A finite number from 0 to the limit.
abbrev pub IsCurrent : Float → Payload → Type 0
IsCurrent most v =
    (n : Number) × (v ≡ num n)
    × (math_isfinite n ≡ some true)
    × (num_le (int (pos 0)) n ≡ true)
    × (num_le n (float most) ≡ true)

-- An integer within the configured percentages; a bool is none.
abbrev pub IsSoc : SafetyConfig → Payload → Type 0
IsSoc cfg v = (n : ℤ) × (v ≡ num (int n)) × (cfg.min_soc_limit ≤ℤ n) × (n ≤ℤ cfg.max_soc_limit)

abbrev pub IsMode : SafetyConfig → Payload → Type 0
IsMode cfg v = (m : String) × (v ≡ str m) × Memᴰ m cfg.allowed_modes

-- The parameter is not there, or satisfies the predicate.
abbrev pub IfGiven : (Payload → Type 0) → Option Payload → Type 0
IfGiven P none = Unit
IfGiven P (some v) = P v

-- The operation has no device, no path is written, or the path is on the device's list.
abbrev pub IsListedPath : SafetyConfig → Option String → Option String → Type 0
IsListedPath cfg none dbus_path = Unit
IsListedPath cfg (some dtype) none = Unit
IsListedPath cfg (some dtype) (some path) = Memᴰ path (allowed_paths cfg dtype)

-- A text that no deny pattern is found in; with no patterns nothing is searched.
abbrev pub IsHarmless : (String → String → Bool) → List String → Payload → Type 0
IsHarmless searches patterns v =
    (patterns ≡ []) ⊎ ((c : String) × (v ≡ str c) × All (λ p. searches p c ≡ false) patterns)

pub record IsPermitted (searches : String → String → Bool) (cfg : SafetyConfig) (operation : String)
    (params : Params) (confirmed : Bool) (dbus_path : Option String) : Type 0 where
  pub enabled : cfg.enable_writes ≡ true
  pub path :
      (operation ≡ "cerbo_ssh_exec") ⊎ IsListedPath cfg (operation_device_type operation) dbus_path
  pub charge : IfGiven (IsCurrent cfg.max_charge_current) (lookup "charge_current" params)
  pub discharge : IfGiven (IsCurrent cfg.max_discharge_current) (lookup "discharge_current" params)
  pub soc : IfGiven (IsSoc cfg) (lookup "soc_limit" params)
  pub mode : IfGiven (IsMode cfg) (lookup "mode" params)
  pub command :
      (operation ≢ "cerbo_ssh_exec")
      ⊎ IsHarmless searches cfg.ssh_command_deny_patterns (get_or_empty (lookup "command" params))
  pub confirmation : (cfg.require_confirmation ≡ false) ⊎ (confirmed ≡ true)

pub IsCurrent-iff :
    (q : Quantity) (most : Float) (v : Payload)
    → is_finite most ≡ true
    → (allows (validate_current q most v) ≡ true) ↔ IsCurrent most v
unfolding validate_current
IsCurrent-iff q most (num n) h = (
  λ e. let (f, a, b) = bounded (math_isfinite n) refl e in (n, refl, f, a, b),
  λ (k, e, f, a, b).
      let same : k ≡ n = cc in
      let g : math_isfinite n ≡ some true = rw (← same) f in
      let low = (not-num_lt n (int (pos 0)) (is_finite-exact n g) refl).1 (rw (← same) a) in
      let high = (not-num_lt (float most) n h (is_finite-exact n g)).1 (rw (← same) b) in
      ground arith,
)
  where
    bounded :
        (o : Option Bool)
        → math_isfinite n ≡ o
        → allows (finite_current q most n o) ≡ true
        → (math_isfinite n ≡ some true)
          × (num_le (int (pos 0)) n ≡ true)
          × (num_le n (float most) ≡ true)
    bounded none e k = absurd (ground arith)
    bounded (some false) e k = absurd (ground arith)
    bounded (some true) e k = (
      e,
      (not-num_lt n (int (pos 0)) (is_finite-exact n e) refl).0 (ground arith),
      (not-num_lt (float most) n h (is_finite-exact n e)).0 (ground arith),
    )
IsCurrent-iff q most _ h = (λ e. absurd (ground arith), λ (n, e, a, b, c). absurd (ground arith))

pub IsSoc-iff :
    (cfg : SafetyConfig) (v : Payload) → ((validate_soc_limit cfg v).allowed ≡ true) ↔ IsSoc cfg v
unfolding validate_soc_limit
IsSoc-iff cfg (num (int n)) =
    (λ e. (n, refl, ground arith, ground arith), λ (m, e, a, b). ground arith)
IsSoc-iff cfg (num (float x)) = (λ e. absurd (ground arith), λ (n, e, a, b). absurd (ground arith))
IsSoc-iff cfg _ = (λ e. absurd (ground arith), λ (n, e, a, b). absurd (ground arith))

pub IsMode-iff :
    (cfg : SafetyConfig) (v : Payload) → ((validate_mode cfg v).allowed ≡ true) ↔ IsMode cfg v
unfolding validate_mode
IsMode-iff cfg (str m) = (
  λ e. (m, refl, (elem_iff m cfg.allowed_modes).0 (ground arith)),
  λ (k, e, mem). let h = (elem_iff k cfg.allowed_modes).1 mem in ground arith,
)
IsMode-iff cfg _ = (λ e. absurd (ground arith), λ (m, e, a). absurd (ground arith))

patterns_iff :
    (searches : String → String → Bool) (ps : List String) (c : String)
    → ((deny_patterns searches ps c).allowed ≡ true) ↔ All (λ p. searches p c ≡ false) ps
unfolding deny_patterns
patterns_iff searches [] c = ground arith
patterns_iff searches (p ∷ ps) c =
    ground (arith, (patterns_iff searches ps c).0, (patterns_iff searches ps c).1)

search_iff :
    (searches : String → String → Bool) (ps : List String) (v : Payload)
    → (allows (search_command searches ps v) ≡ true) ↔ IsHarmless searches ps v
search_iff searches [] (str c) = (λ e. inl refl, λ m. (patterns_iff searches [] c).1 tt)
search_iff searches (p ∷ ps) (str c) = (
  λ e. inr (c, refl, (patterns_iff searches (p ∷ ps) c).0 e),
  elim [
    | inl e ↦ absurd (ground arith)
    | inr (d, e, h) ↦
        let same : c ≡ d = cc in
        (patterns_iff searches (p ∷ ps) c).1
          (subst (λ t. All (λ q. searches q t ≡ false) (p ∷ ps)) (sym same) h)
  ],
)
search_iff searches [] _ = (λ e. inl refl, λ m. refl)
search_iff searches (p ∷ ps) _ = (
  λ e. absurd (ground arith),
  elim [ inl e ↦ absurd (ground arith) | inr (d, e, h) ↦ absurd (ground arith) ],
)

pub command_iff :
    (searches : String → String → Bool) (cfg : SafetyConfig) (v : Payload)
    → (allows (validate_ssh_command searches cfg v) ≡ true)
      ↔ IsHarmless searches cfg.ssh_command_deny_patterns v
unfolding validate_ssh_command
command_iff searches cfg v = search_iff searches cfg.ssh_command_deny_patterns v

pub path_for_iff :
    (cfg : SafetyConfig) (dtype : Option String) (dbus_path : Option String)
    → ((path_for cfg dtype dbus_path).allowed ≡ true) ↔ IsListedPath cfg dtype dbus_path
path_for_iff cfg none dbus_path = ground arith
path_for_iff cfg (some d) none = ground arith
path_for_iff cfg (some d) (some path) = (
  λ e. (elem_iff path (allowed_paths cfg d)).0 (ground arith),
  λ m. let h = (elem_iff path (allowed_paths cfg d)).1 m in ground arith,
)
