-- ===== src/Ssh/Single.antt =====
-- Every order in which the tasks of src/mcp_venus_os/ssh_client.py share the connection: the lock makes
-- `_ensure_conn` and `_close_connection` one step each, between which other tasks may come.
pub mod Failing
use mcp_venus_os.Prelude.{
  ℕ, suc, String, Bool, true, false, not, ◌&&◌, ◌||◌, ◌==◌, ltb, Option, none, some, ◌≡◌, ◌⊎◌, inl,
  inr, refl, sym, ap, ◌∙◌, arith, Bool-cases, ==_iff, if◌then◌else◌,
}
use mcp_venus_os.Ssh.{Exn, Outcome, returned, raised}
use mcp_venus_os.Ssh.Keys.{ConnectOptions}
use mcp_venus_os.Ssh.Connection.{
  Moment, Device, Conn, options, opened, open_conn, conn_or_open, ensure_conn, is_expected,
  close_if, close_of, close_connection,
}

-- The client's connection, and which of all the connections that were opened are open.
pub record World : Type 0 where
  pub connection : Conn
  pub live : ℕ → Bool

-- `self._conn.is_closed()`
abbrev pub closed_of : (ℕ → Bool) → Option ℕ → Bool
closed_of live none = true
closed_of live (some h) = not (live h)

-- What is open once the connections between two numbers are opened.
abbrev pub open_after : Conn → Conn → (ℕ → Bool) → ℕ → Bool
open_after before after live j = (ltb j after.next && not (ltb j before.next)) || live j

-- asyncssh: a connection that is closed is not open, and the others are as they were.
abbrev pub IsClosing : Option ℕ → (ℕ → Bool) → (ℕ → Bool) → Type 0
IsClosing none before after = (j : ℕ) → after j ≡ before j
IsClosing (some h) before after =
    (after h ≡ false) × ((j : ℕ) → (j == h) ≡ false → after j ≡ before j)

module _ (d : Device) where
  abbrev pub ensured : World → Outcome ℕ × Conn → World
  ensured w (r, c) = record { connection = c; live = open_after w.connection c w.live }

  abbrev pub closed_with : World → Option ℕ → (ℕ → Bool) → World
  closed_with w expected after = record {
    connection = (close_connection d expected w.connection).1;
    live = after;
  }

  pub data Step : World → World → Type 0 where
    ensures :
        (w : World) (m : Moment d.Key)
        → m.closed ≡ closed_of w.live w.connection.conn
        → Step w (ensured w (ensure_conn d m w.connection))
    -- A command fails on a connection, or the client is closed.
    closes :
        (w : World) (expected : Option ℕ) (after : ℕ → Bool)
        → IsClosing (close_connection d expected w.connection).0 w.live after
        → Step w (closed_with w expected after)
    -- The peer closes a connection.
    drops :
        (w : World) (h : ℕ) (after : ℕ → Bool)
        → IsClosing (some h) w.live after
        → Step w (record w { live = after })

  pub data Reachable : World → Type 0 where
    starts : Reachable (record { connection = record { conn = none; next = 0 }; live = λ j. false })
    steps : (w v : World) → Reachable w → Step w v → Reachable v

  -- Only the connection that the client holds is open.
  abbrev pub IsSingle : World → Type 0
  IsSingle w = (j : ℕ) → w.live j ≡ true → w.connection.conn ≡ some j

  opened-IsSingle :
      (w : World) (e : Option Exn)
      → IsSingle w
      → ((j : ℕ) → w.live j ≡ false)
      → IsSingle (ensured w (opened d e w.connection))
  opened-IsSingle w (some e) s n j h = s j (ground arith)
  opened-IsSingle w none s n j h =
      let none_open = n j in let same : j ≡ w.connection.next = ground arith in ap some (sym same)

  open_conn-IsSingle :
      (w : World) (connect : ConnectOptions d.Key → Option Exn) (o : Outcome (ConnectOptions d.Key))
      → IsSingle w
      → ((j : ℕ) → w.live j ≡ false)
      → IsSingle (ensured w (open_conn d connect o w.connection))
  open_conn-IsSingle w connect (raised e) s n j h = s j (ground arith)
  open_conn-IsSingle w connect (returned o) s n j h = opened-IsSingle w (connect o) s n j h

  none_open :
      (w : World)
      → IsSingle w
      → closed_of w.live w.connection.conn ≡ true
      → (j : ℕ) → w.live j ≡ false
  none_open w s c j = elim (Bool-cases (w.live j)) [
    | inr e ↦ e
    | inl e ↦ let held = ap (λ (o : Option ℕ). closed_of w.live o) (s j e) in absurd (ground arith)
  ]

  ensured-IsSingle :
      (w : World) (closed : Bool) (connect : ConnectOptions d.Key → Option Exn) (o : Option ℕ)
      → IsSingle w
      → o ≡ w.connection.conn
      → closed ≡ closed_of w.live o
      → IsSingle (ensured w (conn_or_open d closed connect o w.connection))
  ensured-IsSingle w closed connect none s e c =
      open_conn-IsSingle w connect (options d) s
        (none_open w s (sym (ap (λ (o : Option ℕ). closed_of w.live o) e)))
  ensured-IsSingle w true connect (some h) s e c =
      open_conn-IsSingle w connect (options d) s
        (none_open w s (sym (c ∙ ap (λ (o : Option ℕ). closed_of w.live o) e)))
  ensured-IsSingle w false connect (some h) s e c = λ j k. s j (ground arith)

  closing-IsSingle :
      (w : World) (h : ℕ) (after : ℕ → Bool) (c : Conn)
      → IsSingle w
      → w.connection.conn ≡ some h
      → IsClosing (some h) w.live after
      → (j : ℕ) → after j ≡ true
      → c.conn ≡ some j
  closing-IsSingle w h after c s e (shut, same) j k = elim (Bool-cases (j == h)) [
    | inl f ↦
        let eq = (==_iff j h).0 f in let off : after j ≡ false = rw eq shut in absurd (ground arith)
    | inr f ↦
        let on : w.live j ≡ true = sym (same j f) ∙ k in
        let held : some h ≡ some j = sym e ∙ s j on in
        let eq : h ≡ j = cc held in absurd (ground (arith, ==_iff j h))
  ]

  closed-IsSingle :
      (w : World) (expected o : Option ℕ) (after : ℕ → Bool)
      → IsSingle w
      → o ≡ w.connection.conn
      → IsClosing (close_of d expected o w.connection).0 w.live after
      → (j : ℕ) → after j ≡ true
      → (close_of d expected o w.connection).1.conn ≡ some j
  closed-IsSingle w expected none after s e = λ same j k. s j (sym (same j) ∙ k)
  closed-IsSingle w expected (some h) after s e = by_expected (is_expected d expected h)
    where
      by_expected :
          (b : Bool)
          → IsClosing (close_if d b h w.connection).0 w.live after
          → (j : ℕ) → after j ≡ true
          → (close_if d b h w.connection).1.conn ≡ some j
      by_expected true c =
          closing-IsSingle w h after (record w.connection { conn = none }) s (sym e) c
      by_expected false same = λ j k. s j (sym (same j) ∙ k)

  dropped-IsSingle :
      (w : World) (h : ℕ) (after : ℕ → Bool)
      → IsSingle w
      → IsClosing (some h) w.live after
      → IsSingle (record w { live = after })
  dropped-IsSingle w h after s (shut, same) j k = elim (Bool-cases (j == h)) [
    | inl f ↦
        let eq = (==_iff j h).0 f in let off : after j ≡ false = rw eq shut in absurd (ground arith)
    | inr f ↦ s j (sym (same j f) ∙ k)
  ]

  Step-IsSingle : {w v : World} → Step w v → IsSingle w → IsSingle v
  unfolding ensure_conn close_connection
  Step-IsSingle (ensures w m c) s = ensured-IsSingle w m.closed m.connect w.connection.conn s refl c
  Step-IsSingle (closes w expected after c) s =
      closed-IsSingle w expected w.connection.conn after s refl c
  Step-IsSingle (drops w h after c) s = dropped-IsSingle w h after s c

  -- However the tasks that run commands, close the client or see their connection fail interleave,
  -- and whenever the peer closes a connection, at most one connection is open, and it is the one that
  -- the client holds: none is leaked.
  pub Reachable-IsSingle : (w : World) → Reachable w → IsSingle w
  Reachable-IsSingle _ starts = λ j h. absurd (ground arith)
  Reachable-IsSingle _ (steps w v r s) = Step-IsSingle s (Reachable-IsSingle w r)
