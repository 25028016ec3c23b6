-- ===== src/Mqtt/Registers.antt =====
-- What src/mcp_venus_os/mqtt_client.py promises of its cache: one register for each topic, which holds
-- what the last message on that topic said. A message that is handled changes the register of its
-- topic at most, and nothing else that a thread does changes any.
pub mod Kept
pub mod Refined
use mcp_venus_os.Prelude.{
  ℕ, String, Bool, true, false, not, ◌&&◌, ◌||◌, Option, none, some, List, [], ◌∷◌, str_eq,
  if◌then◌else◌,
}
use mcp_venus_os.Value.{Payload}
use mcp_venus_os.Hardware.{HardwareWriteContract}
use mcp_venus_os.Mqtt.{Client, Received, stale, serial_topic}
use mcp_venus_os.Mqtt.Messages.{is_cached_topic, is_empty_payload, unwrap}
use mcp_venus_os.Mqtt.Reachable.{Phase, Step, Move, Reachable}

-- A register holds a value with its receive time, or nothing.
abbrev pub Registers : Type 0
Registers = String → Option (Payload × ℕ)

-- What a message says of the register of its topic.
pub data Saying : Type 0 where
  silence : Saying
  removal : Saying
  arrival : Payload → ℕ → Saying

abbrev pub put : String → Option (Payload × ℕ) → Registers → Registers
put topic entry registers x = if str_eq topic x then entry else registers x

abbrev pub obey : Saying → String → Registers → Registers
obey Saying.silence topic registers = registers
obey Saying.removal topic registers = put topic none registers
obey (Saying.arrival value received_at) topic registers =
    put topic (some (value, received_at)) registers

module _ (matches : String → String → Bool) (loads : List ℕ → Option Payload) where
  abbrev pub decoded_saying : Client → Received → Option Payload → Saying
  decoded_saying c r none = Saying.silence
  decoded_saying c r (some payload) =
      if (str_eq r.message.topic (serial_topic c) && r.message.retain)
        || not (is_cached_topic matches loads r.message.topic c)
      then Saying.silence
      else Saying.arrival (unwrap payload) r.received_at

  -- Nothing, if the transport was replaced, the payload does not decode, or the topic is not cached.
  abbrev pub saying : Client → Received → Saying
  saying c r =
      if stale c r.transport
      then Saying.silence
      else if is_empty_payload matches loads r.message.payload
      then Saying.removal
      else decoded_saying c r (loads r.message.payload)

  module _ (sample_socket : Option ℕ → Payload) where
    abbrev pub act : {c d : Client} → Step matches loads sample_socket c d → Registers → Registers
    act (Step.handles c r) registers = obey (saying c r) r.message.topic registers
    act _ registers = registers

    abbrev pub act_move :
        {p q : Phase} {c d : Client}
        → Move matches loads sample_socket p c q d
        → Registers
        → Registers
    act_move (Move.runs s) registers = act s registers
    act_move _ registers = registers

    -- The registers after a run, which are empty at its start.
    abbrev pub registers_of :
        (portal : String) (contracts : List HardwareWriteContract) {p : Phase} {c : Client}
        → Reachable matches loads sample_socket portal contracts p c
        → Registers
    registers_of portal contracts (Reachable.starts transport) = λ x. none
    registers_of portal contracts (Reachable.steps c d run m) =
        act_move m (registers_of portal contracts run)
