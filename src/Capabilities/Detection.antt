-- ===== src/Capabilities/Detection.antt =====
-- Which capabilities are detected, of src/mcp_venus_os/capabilities.py.
use mcp_venus_os.Prelude.{
  ◌≡◌, refl, String, Bool, true, false, ◌&&◌, ◌||◌, List, [], ◌∷◌, any, add, elem, elem-add, str_eq,
  str_eq_iff, starts_with, ends_with, if◌then◌else◌, arith, subst, sym,
}
use mcp_venus_os.Capabilities.{
  capability_markers, venus_prefixes, marks, is_capability_topic, caps_of_topic, detect_from,
  detect_capabilities,
}

-- The topics of the two companion services.
abbrev pub is_control_topic : String → Bool
is_control_topic t = str_eq t "inverter/state"

abbrev pub is_pump_topic : String → Bool
is_pump_topic t = starts_with t "tank/"

marks-control : (t : String) → marks t "inverter/state" ≡ is_control_topic t
unfolding marks ends_with starts_with
marks-control t = ground arith

pump_self : (t : String) → str_eq t "tank/" ≡ true → is_pump_topic t ≡ true
unfolding starts_with
pump_self t h = subst (λ s. is_pump_topic s ≡ true) (sym ((str_eq_iff t "tank/").0 h)) refl

marks-pump : (t : String) → marks t "tank/" ≡ is_pump_topic t
unfolding marks ends_with
marks-pump t = ground (arith, pump_self t)

-- Neither service's topics stand in the trees of the gateway.
pump_outside : (t : String) → is_pump_topic t ≡ true → any (starts_with t) venus_prefixes ≡ false
unfolding starts_with
pump_outside String.[] h = absurd (cc h)
pump_outside (String.◌∷◌ c s) h = ground arith

control_outside :
    (t : String) → is_control_topic t ≡ true → any (starts_with t) venus_prefixes ≡ false
unfolding starts_with
control_outside t h =
    subst (λ s. any (starts_with s) venus_prefixes ≡ false)
      (sym ((str_eq_iff t "inverter/state").0 h)) refl

is_capability_topic_lem :
    (t : String) → is_capability_topic t ≡ (is_control_topic t || is_pump_topic t)
unfolding is_capability_topic
is_capability_topic_lem t =
    ground (arith, marks-control t, marks-pump t, pump_outside t, control_outside t)

module _ (x : String) where
  -- What one topic adds.
  abbrev adds : String → Bool
  adds t = (str_eq x "control" && is_control_topic t) || (str_eq x "pump" && is_pump_topic t)

  caps_of_topic_lem :
      (t : String) (caps : List String)
      → elem x (caps_of_topic t capability_markers caps) ≡ (adds t || elem x caps)
  unfolding caps_of_topic
  caps_of_topic_lem t caps =
      let first = if marks t "inverter/state" || false then add "control" caps else caps in
      ground
        (arith, marks-control t, marks-pump t, elem-add x "control" caps, elem-add x "pump" first)

  detect_from_lem :
      (ts caps : List String) → elem x (detect_from ts caps) ≡ (any adds ts || elem x caps)
  unfolding detect_from
  detect_from_lem [] caps = refl
  detect_from_lem (t ∷ ts) caps =
      let now = if is_capability_topic t then caps_of_topic t capability_markers caps else caps in
      ground (arith, is_capability_topic_lem t, caps_of_topic_lem t caps, detect_from_lem ts now)

any-adds :
    (x : String) (ts : List String)
    → any (adds x) ts ≡ (
        (str_eq x "control" && any is_control_topic ts)
        || (str_eq x "pump" && any is_pump_topic ts))
any-adds x [] = ground arith
any-adds x (t ∷ ts) = ground (arith, any-adds x ts)

-- "control" is detected exactly when the topic "inverter/state" is among the topics, "pump" exactly
-- when some topic starts with "tank/", and nothing else is ever detected.
pub detect_capabilities_lem :
    (x : String) (topics : List String)
    → elem x (detect_capabilities topics) ≡ (
        (str_eq x "control" && any is_control_topic topics)
        || (str_eq x "pump" && any is_pump_topic topics))
unfolding detect_capabilities
detect_capabilities_lem x topics = ground (arith, detect_from_lem x topics [], any-adds x topics)
