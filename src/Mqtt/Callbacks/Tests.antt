-- ===== src/Mqtt/Callbacks/Tests.antt =====
-- Two patterns that both match, registered in src/mcp_venus_os/mqtt_client.py, and the theorems on
-- delivery and registration at them.
use mathlib.Core.List.{Permᴰ}
use mcp_venus_os.Prelude.{
  ℕ, ◌≡◌, refl, String, Bool, true, Option, some, List, [], ◌∷◌, lookup, insert, str_eq,
}
use mcp_venus_os.Prelude.Int.{pos}
use mcp_venus_os.Value.{Payload, num, int, null}
use mcp_venus_os.Mqtt.{Registration, Client, Effect, delivered, initial}
use mcp_venus_os.Mqtt.Reachable.{Reachable, Step, Move, unlocked}
use mcp_venus_os.Mqtt.Callbacks.{
  subscribe, unsubscribe, matching, place_by_sequence, by_sequence, deliver_visited,
  notify_callbacks,
}
use mcp_venus_os.Mqtt.Callbacks.Delivery.{IsDelivery, notify_callbacks-IsDelivery}
use mcp_venus_os.Mqtt.Callbacks.Undo.{unsubscribe-subscribe}
use mcp_venus_os.Mqtt.Callbacks.Visits.{notify_callbacks-visited}

abbrev five : Payload
five = num (int (pos 5))

abbrev new_client : Client
new_client = record (initial "p" []) { client = some 7 }

-- Every pattern matches, every payload is 5, and no socket has metadata.
abbrev match_all : String → String → Bool
match_all pattern topic = true

abbrev read_five : List ℕ → Option Payload
read_five bytes = some five

abbrev no_sample : Option ℕ → Payload
no_sample sock = null

abbrev once_registered : Client
once_registered = (subscribe match_all "a/+" 1 new_client).0

abbrev twice_registered : Client
twice_registered = (subscribe match_all "a/#" 2 once_registered).0

abbrev first : Registration
first = record { sequence = 0; callbacks = 1 ∷ [] }

abbrev second : Registration
second = record { sequence = 1; callbacks = 2 ∷ [] }

delivers_twice :
    notify_callbacks match_all "a/b" five twice_registered
    ≡ delivered 1 five ∷ delivered 2 five ∷ []
unfolding notify_callbacks matching by_sequence place_by_sequence subscribe lookup insert
delivers_twice = refl

reached : Reachable match_all read_five no_sample "p" [] unlocked twice_registered
reached =
    Reachable.steps _ _
      (Reachable.steps _ _ (Reachable.starts (some 7))
        (Move.runs (Step.subscribes new_client "a/+" 1)))
      (Move.runs (Step.subscribes once_registered "a/#" 2))

-- The index visits the second pattern before the first.
other_order : Permᴰ (matching match_all "a/b" twice_registered.callbacks) (second ∷ first ∷ [])
unfolding matching subscribe lookup insert
other_order = Permᴰ.swap refl refl

notify_callbacks-visited_example :
    deliver_visited five (second ∷ first ∷ [])
    ≡ notify_callbacks match_all "a/b" five twice_registered
notify_callbacks-visited_example =
    notify_callbacks-visited match_all read_five no_sample "p" [] unlocked twice_registered reached
      "a/b" five (second ∷ first ∷ []) other_order

unsubscribe-subscribe_example :
    (r : Client × List Effect) × (unsubscribe str_eq "a/b" 9 (subscribe str_eq "a/b" 9 new_client).0
      ≡ some r)
    × ((j : String) → lookup j r.0.callbacks ≡ lookup j new_client.callbacks)
unfolding lookup
unsubscribe-subscribe_example = unsubscribe-subscribe "a/b" 9 str_eq new_client refl

notify_callbacks-IsDelivery_example :
    IsDelivery match_all "a/b" five twice_registered
      (notify_callbacks match_all "a/b" five twice_registered)
notify_callbacks-IsDelivery_example =
    notify_callbacks-IsDelivery match_all "a/b" five twice_registered
