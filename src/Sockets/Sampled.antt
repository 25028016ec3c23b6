-- ===== src/Sockets/Sampled.antt =====
-- A sample of src/mcp_venus_os/socket_diagnostics.py: it is always there, says only what it may, and its
-- status sums up those of its parts.
use mcp_venus_os.Prelude.{
  ℕ, ◌≡◌, ◌↔◌, refl, sym, ap, ◌∙◌, String, Bool, true, false, ◌&&◌, Option, some, All, elem, insert,
  lookup, lookup-insert, str_eq, str_eq_iff, &&_iff, if◌then◌else◌,
}
use mcp_venus_os.Prelude.Int.{pos, ltb_ℤ}
use mcp_venus_os.Sockets.{
  Entry, Sample, Descriptor, Platform, Socket, tcp_info_size, update, only, is_ok, with_status,
  open_sample, of_descriptor, sample_socket,
}
use mcp_venus_os.Sockets.Fields.{
  words, IsBytes, TcpShape, QueueShape, tcp_info-Shaped, queue-Shaped,
}
use mcp_venus_os.Sockets.Statuses.{
  IsAllowed, All-insert, All-update, lookup-update, HasStatus, TcpShape-IsAllowed,
  TcpShape-HasStatus, QueueShape-IsAllowed, QueueShape-other, QueueShape-HasStatus,
}

abbrev pub IsOkAt : String → Sample → Type 0
IsOkAt name s = lookup name s ≡ some (Entry.word "ok")

pub record IsSample (s : Sample) : Type 0 where
  pub allowed : All IsAllowed s
  pub status :
      IsOkAt "status" s
      ↔ (IsOkAt "tcp_info_status" s × IsOkAt "recv_queue_status" s × IsOkAt "send_queue_status" s)

-- Sums of statuses.
ok_iff : (w : String) → (some (Entry.word w) ≡ some (Entry.word "ok")) ↔ (str_eq w "ok" ≡ true)
ok_iff w = (
  λ e. let same = ap is_ok e in cc same,
  λ e. ap (λ t. some (Entry.word t)) ((str_eq_iff w "ok").0 e),
)

abbrev summed : Bool → String
summed ok = if ok then "ok" else "partial"

summed-ok : (b : Bool) → str_eq (summed b) "ok" ≡ b
summed-ok true = refl
summed-ok false = refl

summed-listed : (b : Bool) → elem (summed b) words ≡ true
summed-listed true = refl
summed-listed false = refl

sum_iff :
    (x y z : String)
    → (some (Entry.word (summed (str_eq x "ok" && str_eq y "ok" && str_eq z "ok")))
        ≡ some (Entry.word "ok"))
      ↔ ((some (Entry.word x) ≡ some (Entry.word "ok"))
          × (some (Entry.word y) ≡ some (Entry.word "ok"))
          × (some (Entry.word z) ≡ some (Entry.word "ok")))
sum_iff x y z =
    let together = str_eq x "ok" && str_eq y "ok" && str_eq z "ok" in
    (
      λ e.
          let all_true = sym (summed-ok together) ∙ (ok_iff (summed together)).0 e in
          let (xy, c) = (&&_iff _ _).0 all_true in
          let (a, b) = (&&_iff _ _).0 xy in ((ok_iff x).1 a, (ok_iff y).1 b, (ok_iff z).1 c),
      λ (a, b, c). (ok_iff (summed together)).1 (
          summed-ok together
          ∙ (&&_iff _ _).1 ((&&_iff _ _).1 ((ok_iff x).0 a, (ok_iff y).0 b), (ok_iff z).0 c)),
    )

abbrev IsSampled : Option Sample → Type 0
IsSampled o = (s : Sample) × (o ≡ some s) × IsSample s

-- The mapping of one text.
only-IsSampled :
    (w : String) → elem w words ≡ true → str_eq w "ok" ≡ false → IsSampled (some (only "status" w))
unfolding lookup
only-IsSampled w e f = (
  only "status" w,
  refl,
  record {
    allowed = ((refl, e), tt);
    status = (λ h. absurd (cc ((ok_iff w).0 h, f)), λ (a, b, c). absurd (cc a));
  },
)

with_status-IsSampled :
    (u : Sample)
    → All IsAllowed u
    → HasStatus "tcp_info_status" u
    → HasStatus "recv_queue_status" u
    → HasStatus "send_queue_status" u
    → IsSampled (with_status u)
with_status-IsSampled u allowed (x, a) (y, b) (z, c) =
    rw (a, b, c)
      (
        insert "status" v u,
        refl,
        record {
          allowed = All-insert "status" v u (refl, summed-listed together) allowed;
          status =
              rw
                (
                  lookup-insert "status" "status" v u,
                  lookup-insert "status" "tcp_info_status" v u,
                  lookup-insert "status" "recv_queue_status" v u,
                  lookup-insert "status" "send_queue_status" v u,
                  a,
                  b,
                  c,
                )
                (sum_iff x y z);
        },
      )
  where
    together : Bool
    together = str_eq x "ok" && str_eq y "ok" && str_eq z "ok"

    v : Entry
    v = Entry.word (summed together)

joined-IsSampled :
    (t r s : Sample)
    → TcpShape t
    → QueueShape "recv_queue" r
    → QueueShape "send_queue" s
    → IsSampled (with_status (update (update t r) s))
joined-IsSampled t r s tcp recv send =
    let (x, a) = TcpShape-HasStatus t tcp in
    let (y, b) = QueueShape-HasStatus "recv_queue" t r refl recv in
    let (z, c) = QueueShape-HasStatus "send_queue" (update t r) s refl send in
    with_status-IsSampled (update (update t r) s)
      (All-update (update t r) s
        (All-update t r (TcpShape-IsAllowed t tcp)
          (QueueShape-IsAllowed "recv_queue" r refl refl recv))
        (QueueShape-IsAllowed "send_queue" s refl refl send))
      (
        x,
        lookup-update "tcp_info_status" (update t r) s
              (QueueShape-other "send_queue" "tcp_info_status" s refl refl send)
            ∙ (lookup-update "tcp_info_status" t r
                  (QueueShape-other "recv_queue" "tcp_info_status" r refl refl recv)
                ∙ a),
      )
      (
        y,
        lookup-update "recv_queue_status" (update t r) s
              (QueueShape-other "send_queue" "recv_queue_status" s refl refl send)
            ∙ b,
      )
      (z, c)

-- What the kernel answers with is bytes, where it is a `bytes`.
pub record Answers (sock : Socket) : Type 0 where
  pub options : IsBytes (sock.getsockopt tcp_info_size)
  pub requests : (r : ℕ) → IsBytes (sock.ioctl r)

open-IsSampled : (p : Platform) (sock : Socket) → Answers sock → IsSampled (open_sample p sock)
open-IsSampled p sock h =
    let (t, e, tcp) = tcp_info-Shaped p sock h.options in
    let (r, f, recv) = queue-Shaped p sock p.fionread "recv_queue" h.requests in
    let (s, g, send) = queue-Shaped p sock p.tiocoutq "send_queue" h.requests in
    rw (e, f, g) (joined-IsSampled t r s tcp recv send)

if-IsSampled :
    (b : Bool) (o p : Option Sample) → IsSampled o → IsSampled p → IsSampled (if b then o else p)
if-IsSampled true o p h k = h
if-IsSampled false o p h k = k

of_descriptor-IsSampled :
    (p : Platform) (sock : Socket) (d : Descriptor)
    → Answers sock
    → IsSampled (of_descriptor p sock d)
of_descriptor-IsSampled p sock Descriptor.raises h = only-IsSampled "unavailable" refl refl
of_descriptor-IsSampled p sock Descriptor.no_int h = only-IsSampled "unavailable" refl refl
of_descriptor-IsSampled p sock (Descriptor.descriptor n) h =
    if-IsSampled (ltb_ℤ n (pos 0)) _ _ (only-IsSampled "closed" refl refl) (open-IsSampled p sock h)

-- Of a socket whose kernel answers with bytes where it answers with a `bytes` object, a sample never
-- raises; its entries are listed measurements below 2^32 and listed statuses with one of seven fixed
-- words, and its status is ok exactly if those of TCP_INFO and of both queues are.
pub sample_socket-IsSampled :
    (p : Platform) (sock : Socket)
    → Answers sock
    → (s : Sample) × (sample_socket p (some sock) ≡ some s) × IsSample s
unfolding sample_socket
sample_socket-IsSampled p sock h =
    if-IsSampled p.is_linux _ _ (of_descriptor-IsSampled p sock sock.fileno h)
      (only-IsSampled "unsupported" refl refl)
