-- ===== src/Sockets/Fields.antt =====
-- What the parts of src/mcp_venus_os/socket_diagnostics.py give: each of the two comprehensions, TCP_INFO, and
-- the size of one queue.
use mcp_venus_os.Prelude.{
  ℕ, ◌+◌, ◌-◌, ◌^◌, ◌≤◌, ◌<◌, ◌≡◌, refl, String, ◌<>◌, Bool, true, false, Option, none, some, List,
  [], ◌∷◌, ◌++◌, map, All, elem, all, all_iff, length, leb, ltb, &&_iff, ◌&&◌, arith, if◌then◌else◌,
  ◌==◌, ==_iff,
}
use mcp_venus_os.Prelude.Int.{pos, negsuc}
use mcp_venus_os.Sockets.{
  Entry, Sample, Answer, Platform, Socket, tcp_info_size, byte_fields, u32_fields, get_elem?,
  unpack_from, put_number, byte_entries, u32_entries, update, only, measured, of_answer, tcp_info,
  of_value, of_word, of_ioctl, queue,
}
use mcp_venus_os.Sockets.Words.{IsByte, IsThere, get_elem?-IsThere, unpack_from-IsThere}

-- The names of the measurements, and all texts that a sample has as values.
abbrev pub numeric_names : List String
numeric_names =
    byte_fields ++ map (λ f. f.0) u32_fields ++ "recv_queue_bytes" ∷ "send_queue_bytes" ∷ []

abbrev pub words : List String
words = "ok" ∷ "partial" ∷ "no_socket" ∷ "closed" ∷ "unsupported" ∷ "unavailable" ∷ "short" ∷ []

-- A measurement of 32 bits at most.
abbrev pub IsNumeric : String × Entry → Type 0
IsNumeric (name, Entry.number n) = (elem name numeric_names ≡ true) × (n < 2 ^ 32)
IsNumeric (name, Entry.word s) = ⊥

abbrev IsNumbers : Option Sample → Type 0
IsNumbers o = (s : Sample) × (o ≡ some s) × All IsNumeric s

put_number-IsNumbers :
    (name : String) (o : Option ℕ) (rest : Option Sample)
    → elem name numeric_names ≡ true
    → IsThere o (2 ^ 32)
    → IsNumbers rest
    → IsNumbers (put_number name o rest)
put_number-IsNumbers name o rest known (n, e, small) (s, f, h) =
    rw (e, f) ((name, Entry.number n) ∷ s, refl, ((known, small), h))

widened : (o : Option ℕ) → IsThere o 256 → IsThere o (2 ^ 32)
widened o (n, e, small) = (n, e, omega arith)

abbrev is_name : String → Bool
is_name name = elem name numeric_names

abbrev fits : String × ℕ → Bool
fits (name, offset) = elem name numeric_names && leb (offset + 4) tcp_info_size

holds {ℓ} : {A : Type ℓ} (p : A → Bool) (xs : List A) → all p xs ≡ true → All (λ x. p x ≡ true) xs
holds p xs = (all_iff p (λ x. p x ≡ true) xs (λ x. (λ e. e, λ e. e))).0

byte_entries-IsNumbers :
    (raw : List ℕ) (offset : ℕ) (names : List String)
    → All IsByte raw
    → offset + length names ≤ length raw
    → All (λ name. is_name name ≡ true) names
    → IsNumbers (byte_entries raw offset names)
unfolding byte_entries
byte_entries-IsNumbers raw offset [] h room known = ([], refl, tt)
byte_entries-IsNumbers raw offset (name ∷ names) h room (k, known) =
    put_number-IsNumbers name _ _ k
      (widened (get_elem? raw offset) (get_elem?-IsThere raw offset h (omega arith)))
      (byte_entries-IsNumbers raw (offset + 1) names h (omega arith) known)

u32_entries-IsNumbers :
    (little : Bool) (raw : List ℕ) (fields : List (String × ℕ))
    → All IsByte raw
    → tcp_info_size ≤ length raw
    → All (λ f. fits f ≡ true) fields
    → IsNumbers (u32_entries little raw fields)
unfolding u32_entries
u32_entries-IsNumbers little raw [] h room known = ([], refl, tt)
u32_entries-IsNumbers little raw ((name, offset) ∷ fields) h room (k, known) =
    let (listed, low) = (&&_iff _ _).0 k in
    put_number-IsNumbers name _ _ listed (unpack_from-IsThere little raw offset h (ground arith))
      (u32_entries-IsNumbers little raw fields h room known)

-- What `_tcp_info` gives.
pub data TcpShape : Sample → Type 0 where
  status_only : (w : String) → elem w words ≡ true → TcpShape (only "tcp_info_status" w)
  with_numbers :
      (a b : Sample)
      → All IsNumeric a
      → All IsNumeric b
      → TcpShape (update (update (only "tcp_info_status" "ok") a) b)

-- What `_queue` gives under a name.
pub data QueueShape (name : String) : Sample → Type 0 where
  no_size : (w : String) → elem w words ≡ true → QueueShape name (only (name <> "_status") w)
  with_size :
      (n : ℕ)
      → n < 2 ^ 32
      → QueueShape name
          ((name <> "_status", Entry.word "ok") ∷ (name <> "_bytes", Entry.number n) ∷ [])

abbrev pub Shaped : (Sample → Type 0) → Option Sample → Type 0
Shaped Shape o = (s : Sample) × (o ≡ some s) × Shape s

-- The kernel answers with bytes, if it answers.
abbrev pub IsBytes : Answer → Type 0
IsBytes (Answer.bytes raw) = All IsByte raw
IsBytes _ = Unit

measured-Shaped : (o p : Option Sample) → IsNumbers o → IsNumbers p → Shaped TcpShape (measured o p)
measured-Shaped o p (a, e, h) (b, f, k) = rw (e, f) (_, refl, TcpShape.with_numbers a b h k)

of_answer-Shaped :
    (little : Bool) (answer : Answer) → IsBytes answer → Shaped TcpShape (of_answer little answer)
of_answer-Shaped little Answer.raises h = (_, refl, TcpShape.status_only "unavailable" refl)
of_answer-Shaped little Answer.other h = (_, refl, TcpShape.status_only "unavailable" refl)
of_answer-Shaped little (Answer.bytes raw) h = by_test (ltb (length raw) tcp_info_size) refl
  where
    by_test :
        (b : Bool)
        → ltb (length raw) tcp_info_size ≡ b
        → Shaped TcpShape (
            if b
            then some (only "tcp_info_status" "short")
            else measured (byte_entries raw 0 byte_fields) (u32_entries little raw u32_fields))
    by_test true e = (_, refl, TcpShape.status_only "short" refl)
    by_test false e =
        let room : 104 ≤ length raw = ground arith in
        measured-Shaped _ _
          (byte_entries-IsNumbers raw 0 byte_fields h (omega arith)
            (holds is_name byte_fields refl))
          (u32_entries-IsNumbers little raw u32_fields h room (holds fits u32_fields refl))

pub tcp_info-Shaped :
    (p : Platform) (sock : Socket)
    → IsBytes (sock.getsockopt tcp_info_size)
    → Shaped TcpShape (tcp_info p sock)
unfolding tcp_info
tcp_info-Shaped p sock h = by_test p.has_tcp_info
  where
    by_test :
        (b : Bool)
        → Shaped TcpShape (
            if b
            then of_answer p.little_endian (sock.getsockopt tcp_info_size)
            else some (only "tcp_info_status" "unsupported"))
    by_test true = of_answer-Shaped p.little_endian (sock.getsockopt tcp_info_size) h
    by_test false = (_, refl, TcpShape.status_only "unsupported" refl)

of_word-Shaped :
    (name : String) (o : Option ℕ) → IsThere o (2 ^ 32) → Shaped (QueueShape name) (of_word name o)
of_word-Shaped name o (w, e, small) = rw e (by_test (ltb w (2 ^ 31)))
  where
    by_test :
        (b : Bool)
        → Shaped
            (QueueShape name)
            (some (of_value name (if b then pos w else negsuc (2 ^ 32 - w - 1))))
    by_test true = (_, refl, QueueShape.with_size w small)
    by_test false = (_, refl, QueueShape.no_size "unavailable" refl)

of_ioctl-Shaped :
    (little : Bool) (name : String) (answer : Answer)
    → IsBytes answer
    → Shaped (QueueShape name) (of_ioctl little name answer)
of_ioctl-Shaped little name Answer.raises h = (_, refl, QueueShape.no_size "unavailable" refl)
of_ioctl-Shaped little name Answer.other h = (_, refl, QueueShape.no_size "unavailable" refl)
of_ioctl-Shaped little name (Answer.bytes raw) h = by_test (length raw == 4) refl
  where
    by_test :
        (b : Bool)
        → (length raw == 4) ≡ b
        → Shaped (QueueShape name) (
            if b
            then of_word name (unpack_from little raw 0)
            else some (only (name <> "_status") "unavailable"))
    by_test true e =
        let four = (==_iff (length raw) 4).0 e in
        of_word-Shaped name _ (unpack_from-IsThere little raw 0 h (omega arith))
    by_test false e = (_, refl, QueueShape.no_size "unavailable" refl)

pub queue-Shaped :
    (p : Platform) (sock : Socket) (request : Option ℕ) (name : String)
    → ((r : ℕ) → IsBytes (sock.ioctl r))
    → Shaped (QueueShape name) (queue p sock request name)
unfolding queue
queue-Shaped p sock none name h = (_, refl, QueueShape.no_size "unsupported" refl)
queue-Shaped p sock (some request) name h = by_test p.has_fcntl
  where
    by_test :
        (b : Bool)
        → Shaped (QueueShape name) (
            if b
            then of_ioctl p.little_endian name (sock.ioctl request)
            else some (only (name <> "_status") "unsupported"))
    by_test true = of_ioctl-Shaped p.little_endian name (sock.ioctl request) (h request)
    by_test false = (_, refl, QueueShape.no_size "unsupported" refl)
