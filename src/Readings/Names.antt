-- ===== src/Readings/Names.antt =====
-- The names that src/mcp_venus_os/server.py shows for the codes that it writes.
use mcp_venus_os.Prelude.{
  ◌≡◌, refl, sym, ap, ◌∙◌, subst, String, ◌<>◌, false, Option, none, some, List, lookup,
  lookup-insert, str_eq, str_eq_iff, arith,
}
use mcp_venus_os.Prelude.Int.{ℤ}
use mcp_venus_os.Value.{int, Payload, null, bool, num, str, arr, obj, one_units}
use mcp_venus_os.Write.Tools.{mode_code}
use mcp_venus_os.Readings.{
  Found, name_of, unknown, type_error, find_name, name_field, put_name, Reading, decode_vebus_enums,
  vebus_modes, vebus_states,
}

find_written :
    (mode : String) (code : ℤ)
    → mode_code "vebus" mode ≡ some code
    → find_name (num (int code)) vebus_modes ≡ name_of mode
unfolding mode_code lookup one_units
find_written mode code h = ground (
  arith,
  str_eq_iff "charger_only" mode,
  str_eq_iff "inverter_only" mode,
  str_eq_iff "on" mode,
  str_eq_iff "off" mode,
)

module _ (show : Payload → String) where
  put_name-other :
      (key j : String) (value : Payload) (f : Found) (reading r : Reading)
      → str_eq key j ≡ false
      → put_name show key value f reading ≡ some r
      → lookup j r ≡ lookup j reading
  put_name-other key j value (name_of name) reading r h e =
      sym (ap (λ (o : Reading). lookup j o) (cc e))
      ∙ (lookup-insert key j (str name) reading ∙ rw h refl)
  put_name-other key j value unknown reading r h e =
      sym (ap (λ (o : Reading). lookup j o) (cc e))
      ∙ (lookup-insert key j (str ("code " <> show value)) reading ∙ rw h refl)
  put_name-other key j value type_error reading r h e = absurd (cc e)

  -- A part leaves every other field as it is.
  name_field-other :
      (key j : String) (codes : List (String × ℤ)) (o : Option Payload) (reading r : Reading)
      → str_eq key j ≡ false
      → name_field show key codes o reading ≡ some r
      → lookup j r ≡ lookup j reading
  name_field-other key j codes none reading r h e = ap (λ (o : Reading). lookup j o) (sym (cc e))
  name_field-other key j codes (some null) reading r h e =
      ap (λ (o : Reading). lookup j o) (sym (cc e))
  name_field-other key j codes (some (bool b)) reading r h e =
      put_name-other key j (bool b) _ reading r h e
  name_field-other key j codes (some (num n)) reading r h e =
      put_name-other key j (num n) _ reading r h e
  name_field-other key j codes (some (str s)) reading r h e =
      put_name-other key j (str s) unknown reading r h e
  name_field-other key j codes (some (arr items)) reading r h e = absurd (cc e)
  name_field-other key j codes (some (obj entries)) reading r h e = absurd (cc e)

  mode_named :
      (mode : String) (code : ℤ) (reading named : Reading)
      → mode_code "vebus" mode ≡ some code
      → name_field show "mode_name" vebus_modes (some (num (int code))) reading ≡ some named
      → lookup "mode_name" named ≡ some (str mode)
  mode_named mode code reading named h e =
      let found = find_written mode code h in
      let put : put_name show "mode_name" (num (int code)) (name_of mode) reading ≡ some named =
        subst (λ (f : Found). put_name show "mode_name" (num (int code)) f reading ≡ some named)
          found e in
      sym (ap (λ (o : Reading). lookup "mode_name" o) (cc put))
      ∙ lookup-insert "mode_name" "mode_name" (str mode) reading

  -- A reading whose mode is the code that set_inverter_mode writes for a mode gets that mode's name,
  -- and the decoding changes no field but mode_name and state_name.
  pub decode_vebus_enums-names :
      (mode : String) (code : ℤ) (reading r : Reading)
      → mode_code "vebus" mode ≡ some code
      → lookup "mode" reading ≡ some (num (int code))
      → decode_vebus_enums show reading ≡ some r
      → (lookup "mode_name" r ≡ some (str mode))
        × ((j : String)
            → str_eq "mode_name" j ≡ false
            → str_eq "state_name" j ≡ false
            → lookup j r ≡ lookup j reading)
  unfolding decode_vebus_enums
  decode_vebus_enums-names mode code reading r h e d =
      by_named (name_field show "mode_name" vebus_modes (lookup "mode" reading) reading) refl d
    where
      by_named :
          (o : Option Reading)
          → name_field show "mode_name" vebus_modes (lookup "mode" reading) reading ≡ o
          → elim o [
            | none ↦ none
            | some named ↦ name_field show "state_name" vebus_states (lookup "state" named) named
          ]
            ≡ some r
          → (lookup "mode_name" r ≡ some (str mode))
            × ((j : String)
                → str_eq "mode_name" j ≡ false
                → str_eq "state_name" j ≡ false
                → lookup j r ≡ lookup j reading)
      by_named none p k = absurd (cc k)
      by_named (some named) p k = (
        name_field-other "state_name" "mode_name" vebus_states (lookup "state" named) named r refl k
            ∙ mode_named mode code reading named h (
                subst
                  (λ (o : Option Payload).
                    name_field show "mode_name" vebus_modes o reading ≡ some named)
                  e p),
        λ j a b.
            name_field-other "state_name" j vebus_states (lookup "state" named) named r b k
            ∙ name_field-other "mode_name" j vebus_modes (lookup "mode" reading) reading named a p,
      )
