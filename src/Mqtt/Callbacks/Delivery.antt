-- ===== src/Mqtt/Callbacks/Delivery.antt =====
-- The order and the targets of delivery, and how a registration is undone, in
-- src/mcp_venus_os/mqtt_client.py.
use mcp_venus_os.Prelude.{
  ℕ, ◌+◌, ◌≡◌, refl, ◌∙◌, String, Bool, true, ◌&&◌, List, [], ◌∷◌, map, leb, if◌then◌else◌, arith,
  all,
}
use mcp_venus_os.Value.{Payload}
use mcp_venus_os.Mqtt.{Registration, Client, Effect, delivered}
use mcp_venus_os.Mqtt.Callbacks.{
  place_by_sequence, by_sequence, matching, flatten_callbacks, notify_callbacks,
}

-- Registered no earlier than at a place of the order.
abbrev from_place : ℕ → List Registration → Bool
from_place n = all (λ r. leb n r.sequence)

abbrev pub is_ordered : List Registration → Bool
is_ordered [] = true
is_ordered (r ∷ rs) = from_place r.sequence rs && is_ordered rs

from_place-place :
    (n : ℕ) (r : Registration) (rs : List Registration)
    → from_place n (place_by_sequence r rs) ≡ (leb n r.sequence && from_place n rs)
unfolding place_by_sequence
from_place-place n r [] = refl
from_place-place n r (x ∷ xs) = ground (arith, from_place-place n r xs)

from_place_earlier :
    (n m : ℕ) (rs : List Registration)
    → leb n m ≡ true
    → from_place m rs ≡ true
    → from_place n rs ≡ true
from_place_earlier n m [] h k = refl
from_place_earlier n m (x ∷ xs) h k = ground (arith, from_place_earlier n m xs)

place_ordered :
    (r : Registration) (rs : List Registration)
    → is_ordered rs ≡ true
    → is_ordered (place_by_sequence r rs) ≡ true
unfolding place_by_sequence
place_ordered r [] h = refl
place_ordered r (x ∷ xs) h = ground (
  arith,
  place_ordered r xs,
  from_place-place x.sequence r xs,
  from_place_earlier r.sequence x.sequence xs,
)

by_sequence_ordered : (rs : List Registration) → is_ordered (by_sequence rs) ≡ true
unfolding by_sequence
by_sequence_ordered [] = refl
by_sequence_ordered (r ∷ rs) = place_ordered r (by_sequence rs) (by_sequence_ordered rs)

-- A test of every registration gives the same before and after the sort.
all-place :
    (p : Registration → Bool) (r : Registration) (rs : List Registration)
    → all p (place_by_sequence r rs) ≡ (p r && all p rs)
unfolding place_by_sequence
all-place p r [] = refl
all-place p r (x ∷ xs) = ground (arith, all-place p r xs)

-- The number of registrations that pass a test.
abbrev pub count : (Registration → Bool) → List Registration → ℕ
count p [] = 0
count p (r ∷ rs) = (if p r then 1 else 0) + count p rs

count-place :
    (p : Registration → Bool) (r : Registration) (rs : List Registration)
    → count p (place_by_sequence r rs) ≡ (if p r then 1 else 0) + count p rs
unfolding place_by_sequence
count-place p r [] = refl
count-place p r (x ∷ xs) = ground (arith, count-place p r xs)

count-by_sequence :
    (p : Registration → Bool) (rs : List Registration) → count p (by_sequence rs) ≡ count p rs
unfolding by_sequence
count-by_sequence p [] = refl
count-by_sequence p (r ∷ rs) =
    ground (arith, count-place p r (by_sequence rs), count-by_sequence p rs)

-- The number of registered patterns that match a topic and pass a test.
abbrev pub count_matching :
    (String → String → Bool) → String → (Registration → Bool) → List (String × Registration) → ℕ
count_matching matches topic p [] = 0
count_matching matches topic p ((pattern, r) ∷ rest) =
    (if matches pattern topic && p r then 1 else 0) + count_matching matches topic p rest

count-matching :
    (matches : String → String → Bool) (topic : String) (p : Registration → Bool)
    (d : List (String × Registration))
    → count p (matching matches topic d) ≡ count_matching matches topic p d
unfolding matching
count-matching matches topic p [] = refl
count-matching matches topic p ((pattern, r) ∷ rest) =
    ground (arith, count-matching matches topic p rest)

-- What is delivered for a topic: every callback of the matching registrations, in their order.
pub record IsDelivery (matches : String → String → Bool) (topic : String) (payload : Payload)
    (c : Client) (effects : List Effect) : Type 0 where
  pub registrations : List Registration
  pub in_order : is_ordered registrations ≡ true
  pub all_matching :
      (p : Registration → Bool) → count p registrations ≡ count_matching matches topic p c.callbacks
  pub delivers :
      effects ≡ map (λ callback. delivered callback payload) (flatten_callbacks registrations)

-- A payload is delivered to the callbacks of exactly the registrations whose pattern matches the
-- topic, each as often as it is registered, in the order in which the patterns were registered.
pub notify_callbacks-IsDelivery :
    (matches : String → String → Bool) (topic : String) (payload : Payload) (c : Client)
    → IsDelivery matches topic payload c (notify_callbacks matches topic payload c)
unfolding notify_callbacks
notify_callbacks-IsDelivery matches topic payload c =
    let found = matching matches topic c.callbacks in
    record {
      registrations = by_sequence found;
      in_order = by_sequence_ordered found;
      all_matching = λ p. count-by_sequence p found ∙ count-matching matches topic p c.callbacks;
      delivers = refl;
    }
