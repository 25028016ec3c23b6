-- ===== src/Reads/Tanks.antt =====
-- The companion-service tools of src/mcp_venus_os/server.py: the water tanks and the state that the
-- inverter control publishes. The i-th look at the client finds `look i`, and the clock `now i`.
pub mod Topics
pub mod Filled
use Prim.Native.Char.{code}
use mcp_venus_os.Prelude.{
  chars, ℕ, zero, suc, ◌+◌, ◌-◌, ◌*◌, String, ◌<>◌, Bool, true, false, not, ◌&&◌, ◌||◌, Option,
  none, some, List, [], ◌∷◌, map, lookup, split_slash, show_ℕ, show_ℤ, str_eq, ltb, leb, ◌==◌,
  if◌then◌else◌,
}
use mcp_venus_os.Prelude.Int.{ℤ, pos, leb_ℤ, sub_ℕ}
use mcp_venus_os.Value.{Float, finite, float, Payload, null, num_lt}
use mcp_venus_os.Value.Arithmetic.{round_tenth}
use mcp_venus_os.Mqtt.{Client}

-- `s.isascii() and s.isdecimal()`, of a text that is not empty.
abbrev pub all_digits : String → Bool
all_digits String.[] = true
all_digits (String.◌∷◌ c s) = leb 48 (code c) && leb (code c) 57 && all_digits s

abbrev pub is_decimal : String → Bool
is_decimal String.[] = false
is_decimal (String.◌∷◌ c s) = all_digits (String.◌∷◌ c s)

abbrev pub value_from : ℕ → String → ℕ
value_from n String.[] = n
value_from n (String.◌∷◌ c s) = value_from (n * 10 + (code c - 48)) s

-- `int(identifier)` of decimal digits: `none` is the ValueError beyond Python's limit of 4300.
unfoldable pub decimal : String → Option ℕ
decimal s = if leb (chars s) 4300 then some (value_from 0 s) else none

-- `str(discovered) == identifier`
abbrev pub if_canonical : String → Option ℕ → Option ℕ
if_canonical identifier none = none
if_canonical identifier (some n) = if str_eq (show_ℕ n) identifier then some n else none

abbrev pub identified : String → Option ℕ
identified identifier =
    if is_decimal identifier then if_canonical identifier (decimal identifier) else none

abbrev pub tank_of_parts : List String → Option ℕ
tank_of_parts (a ∷ identifier ∷ b ∷ []) =
    if str_eq a "tank" && str_eq b "Level" then identified identifier else none
tank_of_parts _ = none

-- The tank that a topic names.
unfoldable pub tank_of : String → Option ℕ
tank_of topic = tank_of_parts (split_slash topic)

-- The set of instances, in its order.
unfoldable pub place_tank : ℕ → List ℕ → List ℕ
place_tank n [] = n ∷ []
place_tank n (m ∷ ms) =
    if n == m then m ∷ ms else if ltb n m then n ∷ m ∷ ms else m ∷ place_tank n ms

abbrev pub with_tank : Option ℕ → List ℕ → List ℕ
with_tank none ns = ns
with_tank (some n) ns = place_tank n ns

unfoldable pub tank_instances : List String → List ℕ
tank_instances [] = []
tank_instances (topic ∷ topics) = with_tank (tank_of topic) (tank_instances topics)

pub record TankReading : Type 0 where
  pub tank : ℤ
  pub level : Payload
  pub stale : Bool
  -- No age is given where nothing is cached.
  pub age_seconds : Option Float

pub data TankAnswer : Type 0 where
  one_tank : TankReading → TankAnswer
  tanks : List TankReading → TankAnswer

-- The age of an entry, and whether it is above the limit.
abbrev pub age_of : ℕ → ℕ → Float
age_of now received_at = finite (sub_ℕ now received_at)

abbrev pub is_stale : Float → Float → Bool
is_stale stale_after age = num_lt (float stale_after) (float age)

module _ (stale_after : Float) where
  abbrev pub tank_reading : ℤ → ℕ → Option (Payload × ℕ) → TankReading
  tank_reading inst now none = record {
    tank = inst;
    level = null;
    stale = true;
    age_seconds = none;
  }
  tank_reading inst now (some (value, received_at)) =
      let age = age_of now received_at in
      record {
        tank = inst;
        level = value;
        stale = is_stale stale_after age;
        age_seconds = some (round_tenth age);
      }

  module _ (look : ℕ → Client) (now : ℕ → ℕ) where
    abbrev pub level_topic : ℤ → String
    level_topic inst = "tank/" <> show_ℤ inst <> "/Level"

    unfoldable pub tank_readings : ℕ → List ℤ → List TankReading
    tank_readings i [] = []
    tank_readings i (inst ∷ insts) =
        tank_reading inst (now i) (lookup (level_topic inst) (look i).cache)
        ∷ tank_readings (i + 1) insts

    -- The instances that are asked for, or found by the first look.
    abbrev pub tank_targets : ℤ → List ℤ
    tank_targets inst =
        if leb_ℤ inst (pos 0)
        then map pos (tank_instances (map (λ entry. entry.0) (look 0).cache))
        else inst ∷ []

    abbrev pub tank_answer : List TankReading → TankAnswer
    tank_answer (r ∷ []) = one_tank r
    tank_answer rs = tanks rs

    -- `get_tank_level`
    unfoldable pub get_tank_level : ℤ → TankAnswer
    get_tank_level inst = tank_answer (tank_readings 1 (tank_targets inst))

    -- `get_control_state`: the document, whether it is stale, and its age; none if it is missing.
    abbrev pub control_of : Option (Payload × ℕ) → Option (Payload × Bool × Float)
    control_of none = none
    control_of (some (payload, received_at)) =
        let age = age_of (now 0) received_at in
        some (payload, is_stale stale_after age, round_tenth age)

    unfoldable pub get_control_state : Option (Payload × Bool × Float)
    get_control_state = control_of (lookup "inverter/state" (look 0).cache)
