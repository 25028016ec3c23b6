-- ===== src/Mqtt/Worker/Paced.antt =====
-- The worker of src/mcp_venus_os/mqtt_client.py handles what it gets, and maintains the read feed.
use mcp_venus_os.Prelude.{
  ℕ, suc, ◌+◌, ◌≤◌, ◌≡◌, ◌⊎◌, inl, inr, refl, ap, ◌∙◌, arith, Bool, true, false, Option, none, some,
  List, [], ◌∷◌, ◌++◌, leb, if◌then◌else◌, ◌==◌,
}
use mcp_venus_os.Mqtt.{Received}
use mcp_venus_os.Mqtt.Worker.{
  Round, Task, inbox_process_batch_size, at_start, after_get, process_inbox,
}

-- The messages that the tasks handle.
abbrev pub handled : List Task → List Received
handled [] = []
handled (Task.maintains ∷ tasks) = handled tasks
handled (Task.handles r ∷ tasks) = r ∷ handled tasks
handled (Task.sleeps ∷ tasks) = handled tasks

abbrev got_before : List Received → Option (Option Received) → List Received
got_before later none = later
got_before later (some none) = []
got_before later (some (some r)) = r ∷ later

-- The messages that the rounds bring before a stop.
abbrev pub obtained : List Round → List Received
obtained [] = []
obtained (r ∷ rounds) = if r.stop then [] else got_before (obtained rounds) r.got

-- Not more than a batch of messages is handled without a maintenance, after k of them.
abbrev pub IsPaced : ℕ → List Task → Type 0
IsPaced k [] = Unit
IsPaced k (Task.maintains ∷ tasks) = IsPaced 0 tasks
IsPaced k (Task.handles r ∷ tasks) = (suc k ≤ inbox_process_batch_size) × IsPaced (suc k) tasks
IsPaced k (Task.sleeps ∷ tasks) = IsPaced k tasks

at_start-handled :
    (processed : ℕ) (tasks : List Task) → handled (at_start processed ++ tasks) ≡ handled tasks
at_start-handled processed tasks = by_test (processed == 0)
  where
    by_test :
        (b : Bool) → handled ((if b then Task.maintains ∷ [] else []) ++ tasks) ≡ handled tasks
    by_test true = refl
    by_test false = refl

after_get-handled :
    (later : ℕ → List Task) (processed : ℕ) (got : Option (Option Received)) (rs : List Received)
    → ((n : ℕ) → handled (later n) ≡ rs)
    → handled (after_get later processed got) ≡ got_before rs got
after_get-handled later processed none rs h = h processed
after_get-handled later processed (some none) rs h = refl
after_get-handled later processed (some (some r)) rs h =
    ap (λ xs. r ∷ xs) (by_test (leb inbox_process_batch_size (processed + 1)))
  where
    by_test : (b : Bool) → handled (if b then Task.sleeps ∷ later 0 else later (processed + 1)) ≡ rs
    by_test true = h 0
    by_test false = h (processed + 1)

unless_stopped-handled :
    (stop : Bool) (tasks : List Task) (rs : List Received)
    → handled tasks ≡ rs
    → handled (if stop then [] else tasks) ≡ (if stop then [] else rs)
unless_stopped-handled true tasks rs e = refl
unless_stopped-handled false tasks rs e = e

process_inbox-handled :
    (rounds : List Round) (processed : ℕ)
    → handled (process_inbox rounds processed) ≡ obtained rounds
unfolding process_inbox
process_inbox-handled [] processed = refl
process_inbox-handled (r ∷ rounds) processed = unless_stopped-handled r.stop _ _ (
    at_start-handled processed (after_get (process_inbox rounds) processed r.got)
    ∙ after_get-handled (process_inbox rounds) processed r.got (obtained rounds)
        (process_inbox-handled rounds))

-- The count of the batch is no less than that of the messages since the last maintenance, or a
-- maintenance comes first.
abbrev IsCounted : ℕ → ℕ → Type 0
IsCounted k processed =
    (suc processed ≤ inbox_process_batch_size) × ((k ≤ processed) ⊎ (processed ≡ 0))

after_get-IsPaced :
    (later : ℕ → List Task) (k processed : ℕ) (got : Option (Option Received))
    → suc processed ≤ inbox_process_batch_size
    → k ≤ processed
    → ((j n : ℕ) → IsCounted j n → IsPaced j (later n))
    → IsPaced k (after_get later processed got)
after_get-IsPaced later k processed none room few h = h 0 processed (room, inl (omega arith))
after_get-IsPaced later k processed (some none) room few h = tt
after_get-IsPaced later k processed (some (some r)) room few h =
    (omega arith, by_test (leb inbox_process_batch_size (processed + 1)) refl)
  where
    by_test :
        (b : Bool)
        → leb inbox_process_batch_size (processed + 1) ≡ b
        → IsPaced (suc k) (if b then Task.sleeps ∷ later 0 else later (processed + 1))
    by_test true e = h (suc k) 0 (omega arith, inr refl)
    by_test false e = h (suc k) (processed + 1) (ground arith, inl (omega arith))

at_start-IsPaced :
    (k processed : ℕ) (tasks : List Task)
    → IsCounted k processed
    → ((j : ℕ) → j ≤ processed → IsPaced j tasks)
    → IsPaced k (at_start processed ++ tasks)
at_start-IsPaced k processed tasks (room, few) h = by_test (processed == 0) refl
  where
    by_test :
        (b : Bool)
        → (processed == 0) ≡ b
        → IsPaced k ((if b then Task.maintains ∷ [] else []) ++ tasks)
    by_test true e = h 0 (omega arith)
    by_test false e = h k (ground arith)

unless_stopped-IsPaced :
    (k : ℕ) (stop : Bool) (tasks : List Task)
    → IsPaced k tasks
    → IsPaced k (if stop then [] else tasks)
unless_stopped-IsPaced k true tasks h = tt
unless_stopped-IsPaced k false tasks h = h

rounds-IsPaced :
    (rounds : List Round) (k processed : ℕ)
    → IsCounted k processed
    → IsPaced k (process_inbox rounds processed)
unfolding process_inbox
rounds-IsPaced [] k processed h = tt
rounds-IsPaced (r ∷ rounds) k processed h = unless_stopped-IsPaced k r.stop _ (
    at_start-IsPaced k processed _ h (λ j few.
      after_get-IsPaced (process_inbox rounds) j processed r.got h.0 few (rounds-IsPaced rounds)))

-- The worker handles exactly the messages that its rounds bring before a stop or the sentinel, in
-- that order, and never more than 64 of them without a maintenance of the read feed in between.
pub process_inbox-IsPaced :
    (rounds : List Round)
    → (handled (process_inbox rounds 0) ≡ obtained rounds) × IsPaced 0 (process_inbox rounds 0)
process_inbox-IsPaced rounds =
    (process_inbox-handled rounds 0, rounds-IsPaced rounds 0 0 (omega arith, inr refl))
