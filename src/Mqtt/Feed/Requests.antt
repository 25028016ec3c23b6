-- ===== src/Mqtt/Feed/Requests.antt =====
-- What the read feed of src/mcp_venus_os/mqtt_client.py hands to the broker.
use text.Mathlib.TextLemmas.{nil-append, cons-append, append_assoc}
use mcp_venus_os.Prelude.{
  All-++, ℕ, zero, suc, ◌+◌, ◌≤◌, ◌≡◌, refl, ap, ◌∙◌, String, ◌<>◌, Bool, true, false, not, List,
  [], ◌∷◌, ◌++◌, All, length, elem, if◌then◌else◌, arith,
}
use mcp_venus_os.Telemetry.Refresh.{refresh_topics_iff}
use mcp_venus_os.Mqtt.{Client, prefix}
use mcp_venus_os.Mqtt.Session.{explicit_patterns}
use mcp_venus_os.Mqtt.Feed.{
  ReadRequest, without_letter, observed_topics, refresh_candidates, may_read, publish_read, is_gone,
  refresh_payload, after_try, send_batch,
}

abbrev requests_of : Bool × List ReadRequest → List ReadRequest
requests_of r = r.1

-- A request to read below the portal.
abbrev pub IsRead : String → ReadRequest → Type 0
IsRead portal r = (rest : String) × (r.topic ≡ "R/" <> portal <> "/" <> rest)

without_letter-append : (s : String) → without_letter ("N/" <> s) ≡ s
without_letter-append s = rw (cons-append, cons-append, nil-append) refl

without_letter-prefix :
    (portal rest : String)
    → without_letter ((("N/" <> portal) <> "/") <> rest) ≡ portal <> "/" <> rest
without_letter-prefix portal rest =
    ap without_letter
      (append_assoc ("N/" <> portal) "/" rest ∙ append_assoc "N/" portal ("/" <> rest))
    ∙ without_letter-append (portal <> "/" <> rest)

pub length-++ {ℓ} : {A : Type ℓ} (xs ys : List A) → length (xs ++ ys) ≡ length xs + length ys
length-++ [] ys = omega arith
length-++ (x ∷ xs) ys = ground (arith, length-++ xs ys)

module _ (other_digit : ℕ → Bool) (look : ℕ → Client) (accepts : ℕ → Bool) (now : ℕ)
    (portal : String) where
  -- A candidate is an item below the portal.
  pub candidate_below :
      (c : Client) (t : String)
      → c.portal ≡ portal
      → elem t (refresh_candidates other_digit c) ≡ true
      → (rest : String) × (without_letter t ≡ portal <> "/" <> rest)
  unfolding refresh_candidates
  candidate_below c t same h =
      let (cached, w) =
        (refresh_topics_iff other_digit t (prefix c) (observed_topics c) c.contracts
            (explicit_patterns c.callbacks)).0
          h in
      let rest = w.family <> "/" <> w.identifier <> "/" <> w.path in
      (
        rest,
        ap without_letter (w.item.shape ∙ ap (λ p. (("N/" <> p) <> "/") <> rest) same)
            ∙ without_letter-prefix portal rest,
      )

  pub publish_read-All :
      (c : Client) (accepted : Bool) (transport epoch : ℕ) (topic payload : String)
      → (rest : String) × (topic ≡ "R/" <> portal <> "/" <> rest)
      → All (IsRead portal) (publish_read c accepted transport epoch topic payload).1
  unfolding publish_read
  publish_read-All c accepted transport epoch topic payload r = by_test (may_read transport epoch c)
    where
      by_test :
          (b : Bool)
          → All (IsRead portal) (
              requests_of (
                if b
                then (accepted, record { topic = topic; payload = payload } ∷ [])
                else (false, [])))
      by_test true = (r, tt)
      by_test false = tt

  pub publish_read-length :
      (c : Client) (accepted : Bool) (transport epoch : ℕ) (topic payload : String)
      → length (publish_read c accepted transport epoch topic payload).1 ≤ 1
  unfolding publish_read
  publish_read-length c accepted transport epoch topic payload =
      by_test (may_read transport epoch c)
    where
      by_test :
          (b : Bool)
          → length (
              requests_of (
                if b
                then (accepted, record { topic = topic; payload = payload } ∷ [])
                else (false, [])))
            ≤ 1
      by_test true = omega arith
      by_test false = omega arith

  -- What holds of the requests of a batch and of what it leaves pending.
  abbrev pub IsBatch : ℕ → List String → List String × List ReadRequest → Type 0
  IsBatch n pending (left, sent) =
      All (IsRead portal) sent × (length sent ≤ n) × (length left ≤ length pending)

  after_try-IsBatch :
      (n : ℕ) (topic : String) (rest : List String) (t : Bool × List ReadRequest)
      (later : List String × List ReadRequest)
      → All (IsRead portal) t.1
      → length t.1 ≤ 1
      → IsBatch n rest later
      → IsBatch (suc n) (topic ∷ rest) (after_try topic rest t later)
  after_try-IsBatch n topic rest (true, sent) (left, more) a l (b, m, k) = (
    All-++ (IsRead portal) sent more a b,
    (let e = length-++ sent more in omega arith),
    omega arith,
  )
  after_try-IsBatch n topic rest (false, sent) (left, more) a l (b, m, k) =
      (a, omega arith, omega arith)

  IsBatch-weaken :
      (n : ℕ) (topic : String) (rest : List String) (later : List String × List ReadRequest)
      → IsBatch n rest later
      → IsBatch (suc n) (topic ∷ rest) later
  IsBatch-weaken n topic rest (left, more) (b, m, k) = (b, omega arith, omega arith)

  pub send_batch-IsBatch :
      (transport epoch : ℕ) (eligible : List String) (n i : ℕ) (pending : List String)
      → ((t : String)
          → elem t eligible ≡ true
          → (rest : String) × (without_letter t ≡ portal <> "/" <> rest))
      → IsBatch n pending
          (send_batch other_digit look accepts now transport epoch eligible n i pending)
  unfolding send_batch
  send_batch-IsBatch transport epoch eligible zero i pending below = (tt, omega arith, omega arith)
  send_batch-IsBatch transport epoch eligible (suc n) i [] below = (tt, omega arith, omega arith)
  send_batch-IsBatch transport epoch eligible (suc n) i (topic ∷ rest) below =
      by_tests (is_gone transport epoch (look i)) (elem topic eligible) refl
        (send_batch other_digit look accepts now transport epoch eligible n (i + 2) rest)
        (send_batch-IsBatch transport epoch eligible n (i + 2) rest below)
    where
      by_tests :
          (gone known : Bool)
          → elem topic eligible ≡ known
          → (later : List String × List ReadRequest) → IsBatch n rest later
          → IsBatch (suc n) (topic ∷ rest) (
              if gone
              then (topic ∷ rest, [])
              else if not known
              then later
              else after_try topic rest
                  (publish_read
                    (look (i + 1))
                    (accepts (i + 1))
                    transport
                    epoch
                    ("R/" <> without_letter topic)
                    (refresh_payload (look i) topic))
                  later)
      by_tests true known e later h = (tt, omega arith, omega arith)
      by_tests false false e later h = IsBatch-weaken n topic rest later h
      by_tests false true e later h =
          let (tail, shape) = below topic e in
          after_try-IsBatch n topic rest _ later
            (publish_read-All (look (i + 1)) (accepts (i + 1)) transport epoch
              ("R/" <> without_letter topic) (refresh_payload (look i) topic)
              (tail, ap (λ (s : String). "R/" <> s) shape))
            (publish_read-length (look (i + 1)) (accepts (i + 1)) transport epoch
              ("R/" <> without_letter topic) (refresh_payload (look i) topic))
            h
