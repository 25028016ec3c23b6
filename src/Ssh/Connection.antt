-- ===== src/Ssh/Connection.antt =====
-- The shared connection of src/mcp_venus_os/ssh_client.py: opened when it is needed, closed when a command
-- fails on it, and `run`. What the world answers is a sequence of moments, one for each operation that
-- waits for it.
use mcp_venus_os.Prelude.{
  ℕ, suc, ◌+◌, ◌==◌, String, ◌<>◌, Bool, true, false, Option, none, some, List, [], ◌∷◌, ◌++◌,
  if◌then◌else◌,
}
use mcp_venus_os.Prelude.Int.{ℤ, pos, eqb_ℤ}
use mcp_venus_os.Value.{Float, finite, float_eq}
use mcp_venus_os.Config.{SshConfig}
use mcp_venus_os.Ssh.{
  Exn, permission_denied, os_error, timeout_error, ssh_error, other_error, Outcome, returned,
  raised, Reply, ran, failed, Sent, truncate,
}
use mcp_venus_os.Ssh.Keys.{PublicKey, ConnectOptions, connect_options}

-- A command that asyncssh ran to its end.
pub record Completed : Type 0 where
  pub exit_status : Option ℤ
  pub stdout : String
  pub stderr : String

pub record Moment (Key : Type 0) : Type 0 where
  -- `self._conn.is_closed()`
  pub closed : Bool
  pub connect : ConnectOptions Key → Option Exn
  pub answer : Sent → Outcome Completed
  pub elapsed_s : Float
  -- A connection of its own, with the milliseconds that it took.
  pub probe : Outcome ℕ

-- What the operations are given: the configuration, the keys and the moments.
pub record Device : Type 1 where
  pub Key : Type 0
  pub public_of : Key → Option PublicKey
  pub read_private_key : String → Option Key
  pub config : SshConfig
  pub effective_host : String
  pub moments : ℕ → Moment Key

-- `_conn`, and the number of the connection that is opened next.
pub record Conn : Type 0 where
  pub conn : Option ℕ
  pub next : ℕ

-- A client with the commands that it has sent, the connections that it has called `close` of, and the
-- number of moments that have passed.
pub record Session : Type 0 where
  pub connection : Conn
  pub sent : List Sent
  pub closed : List ℕ
  pub at : ℕ

module _ (d : Device) where
  abbrev pub options : Outcome (ConnectOptions d.Key)
  options = connect_options d.Key d.public_of d.read_private_key d.effective_host d.config

  abbrev pub opened : Option Exn → Conn → Outcome ℕ × Conn
  opened (some e) c = (raised e, c)
  opened none c = (returned c.next, record { conn = some c.next; next = suc c.next })

  abbrev pub open_conn :
      (ConnectOptions d.Key → Option Exn) → Outcome (ConnectOptions d.Key) → Conn → Outcome ℕ × Conn
  open_conn connect (raised e) c = (raised e, c)
  open_conn connect (returned o) c = opened (connect o) c

  abbrev pub conn_or_open :
      Bool → (ConnectOptions d.Key → Option Exn) → Option ℕ → Conn → Outcome ℕ × Conn
  conn_or_open closed connect none c = open_conn connect options c
  conn_or_open closed connect (some h) c =
      if closed then open_conn connect options c else (returned h, c)

  -- `_ensure_conn`
  unfoldable pub ensure_conn : Moment d.Key → Conn → Outcome ℕ × Conn
  ensure_conn w c = conn_or_open w.closed w.connect c.conn c

  abbrev pub is_expected : Option ℕ → ℕ → Bool
  is_expected none h = true
  is_expected (some e) h = e == h

  abbrev pub close_if : Bool → ℕ → Conn → Option ℕ × Conn
  close_if true h c = (some h, record c { conn = none })
  close_if false h c = (none, c)

  abbrev pub close_of : Option ℕ → Option ℕ → Conn → Option ℕ × Conn
  close_of expected none c = (none, c)
  close_of expected (some h) c = close_if (is_expected expected h) h c

  -- `_close_connection`, with the connection that it calls `close` of.
  unfoldable pub close_connection : Option ℕ → Conn → Option ℕ × Conn
  close_connection expected c = close_of expected c.conn c

  abbrev pub closing : Option ℕ → List ℕ
  closing none = []
  closing (some h) = h ∷ []

  abbrev pub closed_in : Session → Option ℕ × Conn → Session
  closed_in s (called, c) = record s { connection = c; closed = s.closed ++ closing called }

  -- `if conn is not None: await self._close_connection(conn)`
  abbrev pub close_after : Option ℕ → Session → Session
  close_after none s = s
  close_after (some h) s = closed_in s (close_connection (some h) s.connection)

  -- `except (OSError, TimeoutError, asyncssh.Error) as exc`: the text of one that is caught.
  abbrev pub caught : Exn → Option String
  caught (permission_denied text) = some text
  caught (os_error text) = some text
  caught (timeout_error text) = some text
  caught (ssh_error text) = some text
  caught other_error = none

  abbrev pub fail_with : Option ℕ → Option String → Session → Option Reply × Session
  fail_with h none s = (none, s)
  fail_with h (some text) s = (some (failed ("ssh failed: " <> text)), close_after h s)

  -- The clauses of `run` that catch what is raised.
  abbrev pub run_raised : Option ℕ → Exn → Session → Option Reply × Session
  run_raised h (permission_denied text) s =
      (some (failed "ssh permission denied — check key/password"), s)
  run_raised h e s = fail_with h (caught e) s

  abbrev pub is_zero_code : Option ℤ → Bool
  is_zero_code none = false
  is_zero_code (some n) = eqb_ℤ n (pos 0)

  abbrev pub answered : Float → ℕ → Outcome Completed → Session → Option Reply × Session
  answered elapsed h (raised e) s = run_raised (some h) e s
  answered elapsed h (returned r) s = (
    some (
        ran (is_zero_code r.exit_status) r.exit_status (truncate r.stdout) (truncate r.stderr)
          elapsed),
    s,
  )

  abbrev pub send : Moment d.Key → Sent → Outcome ℕ × Conn → Session → Option Reply × Session
  send w m (raised e, c) s = run_raised none e (record s { connection = c })
  send w m (returned h, c) s =
      answered w.elapsed_s h (w.answer m) (record s { connection = c; sent = s.sent ++ m ∷ [] })

  -- `timeout_s or self.config.timeout_s`
  abbrev pub or_timeout : Option Float → Float
  or_timeout none = d.config.timeout_s
  or_timeout (some t) = if float_eq t (finite (pos 0)) then d.config.timeout_s else t

  abbrev pub command_of : String → Option Float → Sent
  command_of command timeout_s = record {
    command = command;
    input = none;
    timeout_s = some (or_timeout timeout_s);
  }

  -- The moment of an operation passes.
  abbrev pub advance : Session → Session
  advance s = record s { at = s.at + 1 }

  -- `run`; no reply where an exception passes.
  unfoldable pub run : String → Option Float → Session → Option Reply × Session
  run command timeout_s s =
      let w = d.moments s.at in
      send w (command_of command timeout_s) (ensure_conn w s.connection) (advance s)
