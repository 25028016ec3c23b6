-- ===== src/Mqtt/Lifecycle.antt =====
-- The transport's life in src/mcp_venus_os/mqtt_client.py: connect, start, stop and publish. Whether
-- a thread is alive and how paho answers are arguments; a thread that is owned is `some` of whether
-- it is alive; the orders to paho that have no answer are left out. The steps around the joins of `_stop_transport` are functions of their own.
pub mod Quiet
pub mod Connected
use mcp_venus_os.Prelude.{
  ℕ, zero, suc, ◌+◌, String, Bool, true, false, not, ◌&&◌, ◌||◌, Option, none, some, List, [], ◌∷◌,
  ◌++◌, length, ltb, if◌then◌else◌,
}
use mcp_venus_os.Value.{Payload}
use mcp_venus_os.Mqtt.{Client, Received, is_transport, inbox_maxsize}

-- The threads that the client owns.
pub record Threads : Type 0 where
  pub worker : Option Bool
  pub loop_thread : Option Bool

abbrev pub is_alive : Option Bool → Bool
is_alive none = false
is_alive (some alive) = alive

abbrev pub is_some {ℓ} : {A : Type ℓ} → Option A → Bool
is_some none = false
is_some (some a) = true

-- `put_nowait(None)`, a full queue being passed over.
abbrev pub put_sentinel : List (Option Received) → List (Option Received)
put_sentinel inbox = if ltb (length inbox) inbox_maxsize then inbox ++ none ∷ [] else inbox

-- `_stop_transport` up to the joins.
unfoldable pub begin_stop : Client → Client
begin_stop c = record c {
  stopping = true;
  connected = false;
  worker_stop = true;
  inbox = put_sentinel c.inbox;
}

-- A thread that ended is owned no longer.
abbrev pub drop_ended : Option Bool → Option Bool
drop_ended none = none
drop_ended (some true) = some true
drop_ended (some false) = none

abbrev pub ended_threads : Threads → Threads
ended_threads t = record { worker = drop_ended t.worker; loop_thread = drop_ended t.loop_thread }

-- `_stop_transport` behind the joins, over the threads as they are then.
unfoldable pub finish_stop : Threads → Client → Client
finish_stop t c =
    if is_some (drop_ended t.worker) || is_some (drop_ended t.loop_thread) then c else record c {
      client = none;
      diagnostic_socket = none;
      pending_pingreq_generation = none;
      inbox = [];
      stopping = false;
    }

-- `_start_worker`
abbrev pub start_worker : Threads → Client → Client × Threads
start_worker t c =
    if is_alive t.worker
    then (c, t)
    else (record c { worker_stop = false }, record t { worker = some true })

abbrev pub start_loop : Bool → Client × Threads → Client × Threads × Bool
start_loop true (c, t) = (c, record t { loop_thread = some true }, true)
start_loop false (c, t) = (record c { worker_stop = true }, t, false)

-- `_start_transport`: the state, the threads, and whether `loop_start` succeeded; else MQTTError.
unfoldable pub start_transport : ℕ → Bool → Threads → Client → Client × Threads × Bool
start_transport transport loop_ok t c =
    start_loop loop_ok
      (start_worker t (record c { client = some transport; stopping = false; connected = false }))

pub data ConnectError : Type 0 where
  not_connected connection_timeout mqtt_error : ConnectError

-- `self._stopping or (self.client is not None and the loop thread is not alive)`
unfoldable pub must_stop : Threads → Client → Bool
must_stop t c = c.stopping || (is_some c.client && not (is_alive t.loop_thread))

abbrev pub started_or_error : Client × Threads × Bool → Client × Threads × Option ConnectError
started_or_error (c, t, true) = (c, t, none)
started_or_error (c, t, false) = (c, t, some mqtt_error)

-- The creation of a transport if there is none.
abbrev pub ensure_started : ℕ → Bool → Threads → Client → Client × Threads × Option ConnectError
ensure_started transport loop_ok t c =
    if is_some c.client
    then (c, t, none)
    else started_or_error (start_transport transport loop_ok t c)

-- A transport that is owned after the stop cannot be replaced.
abbrev pub restart : ℕ → Bool → Threads → Client → Client × Threads × Option ConnectError
restart transport loop_ok t c =
    if is_some c.client then (c, t, some not_connected) else ensure_started transport loop_ok t c

-- `connect` under the lifecycle lock: `joined` are the threads after the joins of a stop.
unfoldable pub connect_locked :
    ℕ → Bool → Threads → Threads → Client → Client × Threads × Option ConnectError
connect_locked transport loop_ok joined t c =
    if must_stop t c
    then restart transport loop_ok (ended_threads joined) (finish_stop joined (begin_stop c))
    else ensure_started transport loop_ok t c

-- CONNECT_WAIT_STEPS
abbrev pub connect_wait_steps : ℕ
connect_wait_steps = 50

-- The wait for the connection, over what successive polls see; `none` is a connection.
unfoldable pub wait_connected : ℕ → (ℕ → Client) → ℕ → ℕ → Option ConnectError
wait_connected transport look zero i = some connection_timeout
wait_connected transport look (suc n) i =
    let later = wait_connected transport look n (i + 1) in
    if not (is_transport transport (look i).client) || (look i).stopping
    then some not_connected
    else if (look i).connected
    then none
    else later

-- `publish`: what is handed to the transport; `none` is NotConnectedError.
unfoldable pub publish : String → Payload → Client → Option (ℕ × String × Payload)
publish topic payload c = elim c.client [
  | none ↦ none
  | some transport ↦ if c.connected then some (transport, topic, payload) else none
]
