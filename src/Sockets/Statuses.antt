-- ===== src/Sockets/Statuses.antt =====
-- The entries and the statuses of the mappings that src/mcp_venus_os/socket_diagnostics.py joins.
use mcp_venus_os.Prelude.{
  ◌^◌, ◌<◌, ◌≡◌, refl, subst, ◌∙◌, String, ◌<>◌, Bool, true, false, some, List, [], ◌∷◌, All, elem,
  insert, lookup, lookup-insert, str_eq, str_eq_iff, str_eq_refl, if◌then◌else◌,
}
use mcp_venus_os.Sockets.{Entry, Sample, update, only}
use mcp_venus_os.Sockets.Fields.{numeric_names, words, IsNumeric, TcpShape, QueueShape}

abbrev pub status_names : List String
status_names = "status" ∷ "tcp_info_status" ∷ "recv_queue_status" ∷ "send_queue_status" ∷ []

-- A listed measurement below 2^32, or a listed status with one of the fixed words.
abbrev pub IsAllowed : String × Entry → Type 0
IsAllowed (name, Entry.number n) = (elem name numeric_names ≡ true) × (n < 2 ^ 32)
IsAllowed (name, Entry.word w) = (elem name status_names ≡ true) × (elem w words ≡ true)

-- Dictionaries.
pub All-insert :
    (name : String) (v : Entry) (d : Sample)
    → IsAllowed (name, v)
    → All IsAllowed d
    → All IsAllowed (insert name v d)
unfolding insert
All-insert name v [] p h = (p, tt)
All-insert name v ((j, w) ∷ d) p (q, h) =
    by_test (str_eq j name) (insert name v d) (All-insert name v d p h)
  where
    by_test :
        (b : Bool) (later : Sample)
        → All IsAllowed later
        → All IsAllowed (if b then (name, v) ∷ d else (j, w) ∷ later)
    by_test true later k = (p, h)
    by_test false later k = (q, k)

pub All-update : (d e : Sample) → All IsAllowed d → All IsAllowed e → All IsAllowed (update d e)
unfolding update
All-update d [] h k = h
All-update d ((name, v) ∷ e) h (p, k) = All-update (insert name v d) e (All-insert name v d p h) k

pub lookup-update :
    (key : String) (d e : Sample)
    → All (λ f. str_eq f.0 key ≡ false) e
    → lookup key (update d e) ≡ lookup key d
unfolding update
lookup-update key d [] h = refl
lookup-update key d ((name, v) ∷ e) (p, h) =
    lookup-update key (insert name v d) e h ∙ (lookup-insert name key v d ∙ rw p refl)

-- Measurements.
numeric-IsAllowed : (s : Sample) → All IsNumeric s → All IsAllowed s
numeric-IsAllowed [] h = tt
numeric-IsAllowed ((name, Entry.number n) ∷ s) (p, h) = (p, numeric-IsAllowed s h)
numeric-IsAllowed ((name, Entry.word w) ∷ s) (p, h) = elim p [ ]

numeric-other :
    (key : String) (s : Sample)
    → elem key numeric_names ≡ false
    → All IsNumeric s
    → All (λ f. str_eq f.0 key ≡ false) s
numeric-other key [] e h = tt
numeric-other key ((name, Entry.word w) ∷ s) e (p, h) = elim p [ ]
numeric-other key ((name, Entry.number n) ∷ s) e ((p, small), h) =
    (differs (str_eq name key) refl, numeric-other key s e h)
  where
    differs : (b : Bool) → str_eq name key ≡ b → str_eq name key ≡ false
    differs false f = f
    differs true f =
        let same = (str_eq_iff name key).0 f in
        absurd (cc (subst (λ x. elem x numeric_names ≡ true) same p, e))

-- The status of each part, in the mapping of the three.
abbrev pub HasStatus : String → Sample → Type 0
HasStatus key s = (w : String) × (lookup key s ≡ some (Entry.word w))

pub TcpShape-IsAllowed : (t : Sample) → TcpShape t → All IsAllowed t
TcpShape-IsAllowed _ (TcpShape.status_only w e) = ((refl, e), tt)
TcpShape-IsAllowed _ (TcpShape.with_numbers a b h k) =
    All-update _ b (All-update _ a ((refl, refl), tt) (numeric-IsAllowed a h))
      (numeric-IsAllowed b k)

pub TcpShape-HasStatus : (t : Sample) → TcpShape t → HasStatus "tcp_info_status" t
unfolding lookup
TcpShape-HasStatus _ (TcpShape.status_only w e) = (w, refl)
TcpShape-HasStatus _ (TcpShape.with_numbers a b h k) = (
  "ok",
  lookup-update "tcp_info_status" _ b (numeric-other "tcp_info_status" b refl k)
      ∙ lookup-update "tcp_info_status" (only "tcp_info_status" "ok") a
          (numeric-other "tcp_info_status" a refl h),
)

-- A queue whose two names are listed.
pub QueueShape-IsAllowed :
    (name : String) (s : Sample)
    → elem (name <> "_status") status_names ≡ true
    → elem (name <> "_bytes") numeric_names ≡ true
    → QueueShape name s
    → All IsAllowed s
QueueShape-IsAllowed name _ p q (QueueShape.no_size w e) = ((p, e), tt)
QueueShape-IsAllowed name _ p q (QueueShape.with_size n small) = ((p, refl), ((q, small), tt))

pub QueueShape-other :
    (name key : String) (s : Sample)
    → str_eq (name <> "_status") key ≡ false
    → str_eq (name <> "_bytes") key ≡ false
    → QueueShape name s
    → All (λ f. str_eq f.0 key ≡ false) s
QueueShape-other name key _ p q (QueueShape.no_size w e) = (p, tt)
QueueShape-other name key _ p q (QueueShape.with_size n small) = (p, (q, tt))

-- The status of a queue behind any other mapping.
pub QueueShape-HasStatus :
    (name : String) (d s : Sample)
    → str_eq (name <> "_bytes") (name <> "_status") ≡ false
    → QueueShape name s
    → HasStatus (name <> "_status") (update d s)
unfolding update
QueueShape-HasStatus name d _ p (QueueShape.no_size w e) = (
  w,
  lookup-insert (name <> "_status") (name <> "_status") (Entry.word w) d
      ∙ rw (str_eq_refl (name <> "_status")) refl,
)
QueueShape-HasStatus name d _ p (QueueShape.with_size n small) = (
  "ok",
  lookup-insert (name <> "_bytes") (name <> "_status") (Entry.number n)
        (insert (name <> "_status") (Entry.word "ok") d)
      ∙ rw p (
          lookup-insert (name <> "_status") (name <> "_status") (Entry.word "ok") d
          ∙ rw (str_eq_refl (name <> "_status")) refl),
)
