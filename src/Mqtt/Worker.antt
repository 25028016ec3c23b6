-- ===== src/Mqtt/Worker.antt =====
-- The loop of the worker thread of src/mcp_venus_os/mqtt_client.py: which steps it takes, and in which
-- order. What a round finds is given: whether a stop is asked for, and what the wait for an entry of
-- the inbox brings.
pub mod Paced
use mcp_venus_os.Prelude.{
  ℕ, ◌+◌, Bool, Option, none, some, List, [], ◌∷◌, ◌++◌, leb, if◌then◌else◌, ◌==◌,
}
use mcp_venus_os.Mqtt.{Received}

-- INBOX_PROCESS_BATCH_SIZE
abbrev pub inbox_process_batch_size : ℕ
inbox_process_batch_size = 64

-- A round: `_worker_stop.is_set()` at its start, and the result of `_inbox.get`, where `none` is
-- `queue.Empty` and `some none` the sentinel of a stop.
pub record Round : Type 0 where
  pub stop : Bool
  pub got : Option (Option Received)

-- A step of the worker: a maintenance of the read feed, the handling of a message, or a short sleep.
pub data Task : Type 0 where
  maintains : Task
  handles : Received → Task
  sleeps : Task

-- The maintenance at the start of a batch.
abbrev pub at_start : ℕ → List Task
at_start processed = if processed == 0 then Task.maintains ∷ [] else []

abbrev pub after_message : (ℕ → List Task) → ℕ → List Task
after_message later processed =
    if leb inbox_process_batch_size processed then Task.sleeps ∷ later 0 else later processed

abbrev pub after_get : (ℕ → List Task) → ℕ → Option (Option Received) → List Task
after_get later processed none = Task.maintains ∷ later processed
after_get later processed (some none) = []
after_get later processed (some (some r)) = Task.handles r ∷ after_message later (processed + 1)

-- `_process_inbox`, over its rounds and the count of the messages of the batch.
unfoldable pub process_inbox : List Round → ℕ → List Task
process_inbox [] processed = []
process_inbox (r ∷ rounds) processed =
    if r.stop then [] else at_start processed ++ after_get (process_inbox rounds) processed r.got
