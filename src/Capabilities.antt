-- ===== src/Capabilities.antt =====
-- src/mcp_venus_os/capabilities.py: companion services are detected by their topics.
pub mod Detection
use mcp_venus_os.Prelude.{
  String, ◌<>◌, Bool, true, false, not, ◌&&◌, ◌||◌, List, [], ◌∷◌, ◌++◌, map, any, add, str_eq,
  starts_with, ends_with, if◌then◌else◌,
}

-- CAPABILITY_MARKERS
abbrev pub capability_markers : List (String × List String)
capability_markers = ("control", "inverter/state" ∷ []) ∷ ("pump", "tank/" ∷ []) ∷ []

-- _VENUS_PREFIXES
abbrev pub venus_prefixes : List String
venus_prefixes = "N/" ∷ "W/" ∷ "R/" ∷ []

-- `topic == marker or (marker.endswith("/") and topic.startswith(marker))`
unfoldable pub marks : String → String → Bool
marks topic marker = str_eq topic marker || (ends_with marker "/" && starts_with topic marker)

unfoldable pub is_capability_topic : String → Bool
is_capability_topic topic =
    if any (starts_with topic) venus_prefixes
    then false
    else any (λ entry. any (marks topic) entry.1) capability_markers

abbrev subscription_for : String → String
subscription_for marker = if ends_with marker "/" then marker <> "#" else marker

subscriptions_of : List (String × List String) → List String
subscriptions_of [] = []
subscriptions_of ((capability, markers) ∷ entries) =
    map subscription_for markers ++ subscriptions_of entries

pub capability_subscriptions : List String
unfolding subscriptions_of ends_with
capability_subscriptions = subscriptions_of capability_markers

-- The inner loop: the capabilities of one topic.
unfoldable pub caps_of_topic : String → List (String × List String) → List String → List String
caps_of_topic topic [] caps = caps
caps_of_topic topic ((cap, markers) ∷ entries) caps =
    caps_of_topic topic entries (if any (marks topic) markers then add cap caps else caps)

-- The outer loop.
unfoldable pub detect_from : List String → List String → List String
detect_from [] caps = caps
detect_from (topic ∷ topics) caps =
    detect_from topics
      (if is_capability_topic topic then caps_of_topic topic capability_markers caps else caps)

unfoldable pub detect_capabilities : List String → List String
detect_capabilities topics = detect_from topics []
