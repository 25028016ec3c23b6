-- ===== src/Mqtt/Callbacks.antt =====
-- Callback registration and delivery in src/mcp_venus_os/mqtt_client.py. `iter_match` of paho's
-- matcher visits the registered patterns that match a topic: the parameter `matches`.
pub mod Delivery
pub mod Undo
pub mod Sorting
pub mod Numbered
pub mod Kept
pub mod Visits
pub mod Tests
use mcp_venus_os.Prelude.{
  ℕ, ◌+◌, String, Bool, true, false, not, ◌&&◌, ◌||◌, Option, none, some, List, [], ◌∷◌, ◌++◌, map,
  keep, lookup, insert, remove, leb, ◌==◌, if◌then◌else◌,
}
use mcp_venus_os.Value.{Payload}
use mcp_venus_os.Mqtt.{
  Registration, Client, Effect, subscribed, unsubscribed, delivered, covered_by_base,
}

-- `list.append`, in the registration of a pattern or in a new one.
abbrev pub register : ℕ → String → Option Registration → Client → Client
register callback pattern none c = record c {
  callbacks =
      insert pattern (record { sequence = c.callback_sequence; callbacks = callback ∷ [] })
        c.callbacks;
  callback_sequence = c.callback_sequence + 1;
}
register callback pattern (some r) c = record c {
  callbacks = insert pattern (record r { callbacks = r.callbacks ++ callback ∷ [] }) c.callbacks;
}

-- `self.client and self._connected and not self._covered_by_base(pattern)`
abbrev pub needs_broker : (String → String → Bool) → Client → String → Bool
needs_broker matches c pattern = elim c.client [
  | none ↦ false
  | some t ↦ c.connected && not (covered_by_base matches c pattern)
]

unfoldable pub subscribe : (String → String → Bool) → String → ℕ → Client → Client × List Effect
subscribe matches pattern callback c =
    let c' = register callback pattern (lookup pattern c.callbacks) c in
    (c', if needs_broker matches c' pattern then subscribed pattern ∷ [] else [])

-- `list.remove`: the first occurrence; `none` is ValueError.
unfoldable pub remove_callback : ℕ → List ℕ → Option (List ℕ)
remove_callback callback [] = none
remove_callback callback (x ∷ xs) =
    let rest = remove_callback callback xs in
    if x == callback then some xs else elim rest [ none ↦ none | some ys ↦ some (x ∷ ys) ]

abbrev pub put_back : String → Registration → List ℕ → Client → Client × Bool
put_back pattern r [] c = (record c { callbacks = remove pattern c.callbacks }, true)
put_back pattern r (x ∷ xs) c =
    (record c { callbacks = insert pattern (record r { callbacks = x ∷ xs }) c.callbacks }, false)

-- The part under the lock: the new state, and whether the pattern is gone; `none` is ValueError.
abbrev pub unregister : ℕ → String → Option Registration → Client → Option (Client × Bool)
unregister callback pattern none c = some (c, false)
unregister callback pattern (some r) c = elim (remove_callback callback r.callbacks) [
  | none ↦ none
  | some rest ↦ some (put_back pattern r rest c)
]

abbrev pub unsubscribe_effects : (String → String → Bool) → String → Client × Bool → List Effect
unsubscribe_effects matches pattern (c, removed) =
    if removed && needs_broker matches c pattern then unsubscribed pattern ∷ [] else []

unfoldable pub unsubscribe :
    (String → String → Bool) → String → ℕ → Client → Option (Client × List Effect)
unsubscribe matches pattern callback c =
    elim (unregister callback pattern (lookup pattern c.callbacks) c) [
      | none ↦ none
      | some r ↦ some (r.0, unsubscribe_effects matches pattern r)
    ]

-- `sorted(matches, key=lambda item: item[0])`
unfoldable pub place_by_sequence : Registration → List Registration → List Registration
place_by_sequence r [] = r ∷ []
place_by_sequence r (x ∷ xs) =
    if leb r.sequence x.sequence then r ∷ x ∷ xs else x ∷ place_by_sequence r xs

unfoldable pub by_sequence : List Registration → List Registration
by_sequence [] = []
by_sequence (r ∷ rs) = place_by_sequence r (by_sequence rs)

-- The registrations whose pattern matches the topic.
unfoldable pub matching :
    (String → String → Bool) → String → List (String × Registration) → List Registration
matching matches topic [] = []
matching matches topic ((pattern, r) ∷ rest) =
    let more = matching matches topic rest in if matches pattern topic then r ∷ more else more

abbrev pub flatten_callbacks : List Registration → List ℕ
flatten_callbacks [] = []
flatten_callbacks (r ∷ rs) = r.callbacks ++ flatten_callbacks rs

-- The callbacks of the registrations that the index visits, called in order of their sequence numbers.
abbrev pub deliver_visited : Payload → List Registration → List Effect
deliver_visited payload visited =
    map (λ callback. delivered callback payload) (flatten_callbacks (by_sequence visited))

-- `_notify_callbacks`: a callback that raises is logged, and the next one is called. The index is
-- visited here in the order of the dictionary.
unfoldable pub notify_callbacks : (String → String → Bool) → String → Payload → Client → List Effect
notify_callbacks matches topic payload c =
    deliver_visited payload (matching matches topic c.callbacks)
