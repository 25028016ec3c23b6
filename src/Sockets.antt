-- ===== src/Sockets.antt =====
-- The socket metadata of src/mcp_venus_os/socket_diagnostics.py: TCP_INFO and the two queue sizes of one
-- socket. What the platform has and what the kernel answers are parameters; `none` is an exception
-- that leaves the function.
pub mod Words
pub mod Fields
pub mod Statuses
pub mod Sampled
pub mod Tests
use mcp_venus_os.Prelude.{
  ℕ, zero, suc, ◌+◌, ◌-◌, ◌*◌, ◌^◌, String, ◌<>◌, Bool, true, false, not, ◌&&◌, ◌||◌, Option, none,
  some, List, [], ◌∷◌, insert, lookup, length, ltb, str_eq, if◌then◌else◌, ◌==◌,
}
use mcp_venus_os.Prelude.Int.{ℤ, pos, negsuc, ltb_ℤ}

-- A value of the mapping: `int | str`.
pub data Entry : Type 0 where
  number : ℕ → Entry
  word : String → Entry

abbrev pub Sample : Type 0
Sample = List (String × Entry)

-- What a call answers: it raises, it gives what is not `bytes`, or bytes.
pub data Answer : Type 0 where
  raises other : Answer
  bytes : List ℕ → Answer

-- What `fileno()` answers: it raises, it gives what is no int or a bool, or an int.
pub data Descriptor : Type 0 where
  raises no_int : Descriptor
  descriptor : ℤ → Descriptor

-- The byte order, whether `sys.platform` is "linux", whether `socket` has TCP_INFO, whether there is
-- `fcntl`, and the two requests of `termios`.
pub record Platform : Type 0 where
  pub little_endian : Bool
  pub is_linux : Bool
  pub has_tcp_info : Bool
  pub has_fcntl : Bool
  pub fionread : Option ℕ
  pub tiocoutq : Option ℕ

pub record Socket : Type 0 where
  pub fileno : Descriptor
  -- `getsockopt(IPPROTO_TCP, TCP_INFO, length)`
  pub getsockopt : ℕ → Answer
  -- `fcntl.ioctl(sock, request, ...)`
  pub ioctl : ℕ → Answer

-- _TCP_INFO_SIZE, _BYTE_FIELDS and _U32_FIELDS
abbrev pub tcp_info_size : ℕ
tcp_info_size = 104

abbrev pub byte_fields : List String
byte_fields = "state" ∷ "ca_state" ∷ "retransmits" ∷ "probes" ∷ "backoff" ∷ []

abbrev pub u32_fields : List (String × ℕ)
u32_fields =
    ("rto_us", 8)
    ∷ ("unacked", 24)
    ∷ ("lost", 32)
    ∷ ("retrans", 36)
    ∷ ("last_data_sent_ms", 44)
    ∷ ("last_data_recv_ms", 52)
    ∷ ("last_ack_recv_ms", 56)
    ∷ ("rtt_us", 68)
    ∷ ("rttvar_us", 72)
    ∷ ("snd_cwnd", 80)
    ∷ ("total_retrans", 100)
    ∷ []

-- `raw[i]`; `none` is IndexError.
unfoldable pub get_elem? {ℓ} : {A : Type ℓ} → List A → ℕ → Option A
get_elem? [] i = none
get_elem? (x ∷ xs) zero = some x
get_elem? (x ∷ xs) (suc i) = get_elem? xs i

abbrev pub word_of : ℕ → ℕ → ℕ → ℕ → ℕ
word_of a b c d = a + 256 * b + 65536 * c + 16777216 * d

-- Four bytes in the platform's order.
abbrev pub in_order : Bool → Option ℕ → Option ℕ → Option ℕ → Option ℕ → Option ℕ
in_order true (some a) (some b) (some c) (some d) = some (word_of a b c d)
in_order false (some a) (some b) (some c) (some d) = some (word_of d c b a)
in_order _ _ _ _ _ = none

-- `_U32.unpack_from(raw, offset)[0]`; `none` is struct.error.
unfoldable pub unpack_from : Bool → List ℕ → ℕ → Option ℕ
unpack_from little raw offset =
    in_order little (get_elem? raw offset) (get_elem? raw (offset + 1)) (get_elem? raw (offset + 2))
      (get_elem? raw (offset + 3))

abbrev pub put_number : String → Option ℕ → Option Sample → Option Sample
put_number name (some n) (some rest) = some ((name, number n) ∷ rest)
put_number _ _ _ = none

-- The two comprehensions.
unfoldable pub byte_entries : List ℕ → ℕ → List String → Option Sample
byte_entries raw offset [] = some []
byte_entries raw offset (name ∷ names) =
    put_number name (get_elem? raw offset) (byte_entries raw (offset + 1) names)

unfoldable pub u32_entries : Bool → List ℕ → List (String × ℕ) → Option Sample
u32_entries little raw [] = some []
u32_entries little raw ((name, offset) ∷ fields) =
    put_number name (unpack_from little raw offset) (u32_entries little raw fields)

-- `dict.update`
unfoldable pub update : Sample → Sample → Sample
update d [] = d
update d ((name, value) ∷ more) = update (insert name value d) more

abbrev pub only : String → String → Sample
only name status = (name, word status) ∷ []

abbrev pub measured : Option Sample → Option Sample → Option Sample
measured (some a) (some b) = some (update (update (only "tcp_info_status" "ok") a) b)
measured _ _ = none

abbrev pub of_answer : Bool → Answer → Option Sample
of_answer little (bytes raw) =
    if ltb (length raw) tcp_info_size
    then some (only "tcp_info_status" "short")
    else measured (byte_entries raw 0 byte_fields) (u32_entries little raw u32_fields)
of_answer little _ = some (only "tcp_info_status" "unavailable")

-- `_tcp_info`
unfoldable pub tcp_info : Platform → Socket → Option Sample
tcp_info p sock =
    if p.has_tcp_info
    then of_answer p.little_endian (sock.getsockopt tcp_info_size)
    else some (only "tcp_info_status" "unsupported")

-- `_C_INT`: the number that a pattern of 32 bits stands for.
abbrev pub signed32 : ℕ → ℤ
signed32 w = if ltb w (2 ^ 31) then pos w else negsuc (2 ^ 32 - w - 1)

abbrev pub of_value : String → ℤ → Sample
of_value name (pos n) = (name <> "_status", word "ok") ∷ (name <> "_bytes", number n) ∷ []
of_value name (negsuc n) = only (name <> "_status") "unavailable"

abbrev pub of_word : String → Option ℕ → Option Sample
of_word name none = none
of_word name (some w) = some (of_value name (signed32 w))

abbrev pub of_ioctl : Bool → String → Answer → Option Sample
of_ioctl little name (bytes raw) =
    if length raw == 4
    then of_word name (unpack_from little raw 0)
    else some (only (name <> "_status") "unavailable")
of_ioctl little name _ = some (only (name <> "_status") "unavailable")

-- `_queue`, of a socket, a request and a name.
unfoldable pub queue : Platform → Socket → Option ℕ → String → Option Sample
queue p sock none name = some (only (name <> "_status") "unsupported")
queue p sock (some request) name =
    if p.has_fcntl
    then of_ioctl p.little_endian name (sock.ioctl request)
    else some (only (name <> "_status") "unsupported")

-- `status == "ok"`; `none` is KeyError.
abbrev pub is_ok : Option Entry → Option Bool
is_ok none = none
is_ok (some (number n)) = some false
is_ok (some (word s)) = some (str_eq s "ok")

abbrev pub all_ok : Option Bool → Option Bool → Option Bool → Option Bool
all_ok (some a) (some b) (some c) = some (a && b && c)
all_ok _ _ _ = none

abbrev pub put_status : Sample → Option Bool → Option Sample
put_status result none = none
put_status result (some ok) = some (insert "status" (word (if ok then "ok" else "partial")) result)

abbrev pub with_status : Sample → Option Sample
with_status result = put_status result (
    all_ok (is_ok (lookup "tcp_info_status" result)) (is_ok (lookup "recv_queue_status" result))
      (is_ok (lookup "send_queue_status" result)))

abbrev pub joined : Option Sample → Option Sample → Option Sample → Option Sample
joined (some t) (some r) (some s) = with_status (update (update t r) s)
joined _ _ _ = none

abbrev pub open_sample : Platform → Socket → Option Sample
open_sample p sock =
    joined (tcp_info p sock) (queue p sock p.fionread "recv_queue")
      (queue p sock p.tiocoutq "send_queue")

abbrev pub of_descriptor : Platform → Socket → Descriptor → Option Sample
of_descriptor p sock (descriptor n) =
    if ltb_ℤ n (pos 0) then some (only "status" "closed") else open_sample p sock
of_descriptor p sock _ = some (only "status" "unavailable")

-- `sample_socket`
unfoldable pub sample_socket : Platform → Option Socket → Option Sample
sample_socket p none = some (only "status" "no_socket")
sample_socket p (some sock) =
    if p.is_linux then of_descriptor p sock sock.fileno else some (only "status" "unsupported")
