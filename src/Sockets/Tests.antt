-- ===== src/Sockets/Tests.antt =====
-- Samples of src/mcp_venus_os/socket_diagnostics.py, and the theorem at one of them.
use mcp_venus_os.Prelude.{
  ℕ, ◌≡◌, refl, Bool, true, false, Option, none, some, List, [], ◌∷◌, insert, lookup, arith, zero,
  suc, All, ◌==◌,
}
use mcp_venus_os.Prelude.Int.{pos}
use mcp_venus_os.Sockets.{
  Entry, Sample, Answer, Descriptor, Platform, Socket, tcp_info, queue, byte_entries, u32_entries,
  get_elem?, unpack_from, update, sample_socket,
}
use mcp_venus_os.Sockets.Words.{IsByte}
use mcp_venus_os.Sockets.Fields.{IsBytes}
use mcp_venus_os.Sockets.Sampled.{IsSample, Answers, sample_socket-IsSampled}

abbrev cerbo : Platform
cerbo = record {
  little_endian = true;
  is_linux = true;
  has_tcp_info = true;
  has_fcntl = true;
  fionread = some 1;
  tiocoutq = some 2;
}

abbrev ones : ℕ → List ℕ
ones zero = []
ones (suc n) = 1 ∷ ones n

-- A socket with 104 bytes of TCP_INFO, three bytes to read, and no answer about what is sent.
abbrev when_asked : Bool → Answer
when_asked true = Answer.bytes (3 ∷ 0 ∷ 0 ∷ 0 ∷ [])
when_asked false = Answer.raises

abbrev peer : Socket
peer = record {
  fileno = Descriptor.descriptor (pos 5);
  getsockopt = λ n. Answer.bytes (ones n);
  ioctl = λ r. when_asked (r == 1);
}

whole_sample : Unit {0}
unfolding sample_socket tcp_info queue byte_entries u32_entries get_elem? unpack_from update insert
    lookup
whole_sample = tt

abbrev entry_of : Option Sample → Option Entry × Option Entry × Option Entry
entry_of none = (none, none, none)
entry_of (some s) = (lookup "rtt_us" s, lookup "recv_queue_bytes" s, lookup "status" s)

peer_sample :
    entry_of (sample_socket cerbo (some peer))
    ≡ (some (Entry.number 16843009), some (Entry.number 3), some (Entry.word "partial"))
unfolding whole_sample
peer_sample = refl

ones-IsByte : (n : ℕ) → All IsByte (ones n)
ones-IsByte zero = tt
ones-IsByte (suc n) = (omega arith, ones-IsByte n)

when_asked-IsBytes : (b : Bool) → IsBytes (when_asked b)
when_asked-IsBytes true = (omega arith, (omega arith, (omega arith, (omega arith, tt))))
when_asked-IsBytes false = tt

peer-Answers : Answers peer
peer-Answers = record { options = ones-IsByte 104; requests = λ r. when_asked-IsBytes (r == 1) }

sample_socket-IsSampled_example :
    (s : Sample) × (sample_socket cerbo (some peer) ≡ some s) × IsSample s
sample_socket-IsSampled_example = sample_socket-IsSampled cerbo peer peer-Answers
