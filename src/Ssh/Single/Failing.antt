-- ===== src/Ssh/Single/Failing.antt =====
-- What a command that fails does to the connections of src/mcp_venus_os/ssh_client.py.
use mcp_venus_os.Prelude.{
  ℕ, String, ◌++◌, Bool, true, false, ◌==◌, Option, none, some, ◌≡◌, inl, inr, refl, sym, ◌∙◌,
  arith, Bool-cases, ==_iff,
}
use mcp_venus_os.Value.{Float}
use mcp_venus_os.Ssh.{
  Exn, permission_denied, os_error, timeout_error, ssh_error, other_error, returned, raised,
}
use mcp_venus_os.Ssh.Connection.{
  Completed, Device, Conn, Session, close_if, close_of, close_connection, closing, fail_with,
  answered,
}
use mcp_venus_os.Ssh.Operations.{password_answered}
use mcp_venus_os.Ssh.Single.{World, IsClosing, Reachable, IsSingle, Reachable-IsSingle}

module _ (d : Device) where
  -- The connection is not open, and no other is closed or given up.
  abbrev pub IsShut : World → ℕ → Conn → (ℕ → Bool) → Type 0
  IsShut w h c after =
      (after h ≡ false)
      × ((j : ℕ) → (j == h) ≡ false → after j ≡ w.live j)
      × ((j : ℕ) → (j == h) ≡ false → w.connection.conn ≡ some j → c.conn ≡ some j)

  unheld : (w : World) (h : ℕ) → IsSingle d w → w.connection.conn ≡ none → w.live h ≡ false
  unheld w h s e = elim (Bool-cases (w.live h)) [ inl k ↦ absurd (cc (s h k)) | inr k ↦ k ]

  unheld_other :
      (w : World) (h i : ℕ)
      → IsSingle d w
      → w.connection.conn ≡ some i
      → (h == i) ≡ false
      → w.live h ≡ false
  unheld_other w h i s e n = elim (Bool-cases (w.live h)) [
    | inl k ↦
        let held : some i ≡ some h = sym e ∙ s h k in
        let same : i ≡ h = cc held in absurd (ground (arith, ==_iff h i))
    | inr k ↦ k
  ]

  close_of-IsShut :
      (w : World) (h : ℕ) (o : Option ℕ) (after : ℕ → Bool)
      → IsSingle d w
      → w.connection.conn ≡ o
      → IsClosing (close_of d (some h) o w.connection).0 w.live after
      → IsShut w h (close_of d (some h) o w.connection).1 after
  close_of-IsShut w h none after s e = λ same. (same h ∙ unheld w h s e, λ j n. same j, λ j n k. k)
  close_of-IsShut w h (some i) after s e = by_expected (h == i) refl
    where
      by_expected :
          (b : Bool)
          → (h == i) ≡ b
          → IsClosing (close_if d b i w.connection).0 w.live after
          → IsShut w h (close_if d b i w.connection).1 after
      by_expected true f = λ (shut, same).
          let eq : h ≡ i = (==_iff h i).0 f in
          (
            rw eq shut,
            λ j n. same j (rw (← eq) n),
            λ j n k.
                let held : some i ≡ some j = sym e ∙ k in
                let eqj : i ≡ j = cc held in absurd (ground (arith, ==_iff j h)),
          )
      by_expected false f = λ same. (same h ∙ unheld_other w h i s e f, λ j n. same j, λ j n k. k)

  -- A close of a connection, in any state that the tasks reach, leaves it not open.
  close_connection-IsShut :
      (w : World) (h : ℕ) (after : ℕ → Bool)
      → Reachable d w
      → IsClosing (close_connection d (some h) w.connection).0 w.live after
      → IsShut w h (close_connection d (some h) w.connection).1 after
  unfolding close_connection
  close_connection-IsShut w h after r =
      close_of-IsShut w h w.connection.conn after (Reachable-IsSingle d w r) refl

  -- From a state to a later one the client calls `close` of one connection at most, after which the
  -- connection is not open, every other is as open as before, and one that the client holds since then
  -- is still held.
  abbrev pub Shuts : (ℕ → Bool) → ℕ → Session → Session → Type 0
  Shuts live h s t =
      (called : Option ℕ) × (t.closed ≡ s.closed ++ closing d called)
      × ((after : ℕ → Bool)
          → IsClosing called live after
          → IsShut (record { connection = s.connection; live = live }) h t.connection after)

  -- OSError, TimeoutError and the errors of asyncssh other than PermissionDenied.
  abbrev pub IsBroken : Exn → Type 0
  IsBroken (os_error t) = Unit
  IsBroken (timeout_error t) = Unit
  IsBroken (ssh_error t) = Unit
  IsBroken (permission_denied t) = ⊥
  IsBroken other_error = ⊥

  -- What `run` and `enable_root_password` do with an exception of a command on a connection.
  pub record IsHandled (live : ℕ → Bool) (h : ℕ) (s : Session) (e : Exn) : Type 0 where
    pub run_shuts :
        (elapsed : Float) → IsBroken e → Shuts live h s (answered d elapsed h (raised e) s).1
    pub run_keeps : (elapsed : Float) → ¬ IsBroken e → (answered d elapsed h (raised e) s).1 ≡ s
    pub password_shuts :
        (e ≡ other_error → ⊥) → Shuts live h s (password_answered d h (raised e) s).1
    pub replies_keep :
        (elapsed : Float) (r : Completed)
        → ((answered d elapsed h (returned r) s).1 ≡ s)
          × ((password_answered d h (returned r) s).1 ≡ s)

  caught-Shuts :
      (live : ℕ → Bool) (h : ℕ) (s : Session) (text : String)
      → Reachable d (record { connection = s.connection; live = live })
      → Shuts live h s (fail_with d (some h) (some text) s).1
  caught-Shuts live h s text r = (
    (close_connection d (some h) s.connection).0,
    refl,
    λ after c.
        close_connection-IsShut (record { connection = s.connection; live = live }) h after r c,
  )

  -- In any state that the tasks reach, a command of `run` that ends with OSError, TimeoutError or an
  -- error of asyncssh other than PermissionDenied, and one of `enable_root_password` that ends with any
  -- of these or PermissionDenied, shuts its connection: it is not open afterwards, every other is as
  -- open as before, and the client still holds one that another task has opened since. A command that
  -- ends with any exit status, and for `run` PermissionDenied and other exceptions, close nothing.
  pub failures-IsShut :
      (live : ℕ → Bool) (h : ℕ) (s : Session) (e : Exn)
      → Reachable d (record { connection = s.connection; live = live })
      → IsHandled live h s e
  failures-IsShut live h s (os_error t) r = record {
    run_shuts = λ x b. caught-Shuts live h s t r;
    run_keeps = λ x n. absurd (n tt);
    password_shuts = λ n. caught-Shuts live h s t r;
    replies_keep = λ x c. (refl, refl);
  }
  failures-IsShut live h s (timeout_error t) r = record {
    run_shuts = λ x b. caught-Shuts live h s t r;
    run_keeps = λ x n. absurd (n tt);
    password_shuts = λ n. caught-Shuts live h s t r;
    replies_keep = λ x c. (refl, refl);
  }
  failures-IsShut live h s (ssh_error t) r = record {
    run_shuts = λ x b. caught-Shuts live h s t r;
    run_keeps = λ x n. absurd (n tt);
    password_shuts = λ n. caught-Shuts live h s t r;
    replies_keep = λ x c. (refl, refl);
  }
  failures-IsShut live h s (permission_denied t) r = record {
    run_shuts = λ x b. absurd b;
    run_keeps = λ x n. refl;
    password_shuts = λ n. caught-Shuts live h s t r;
    replies_keep = λ x c. (refl, refl);
  }
  failures-IsShut live h s other_error r = record {
    run_shuts = λ x b. absurd b;
    run_keeps = λ x n. refl;
    password_shuts = λ n. absurd (n refl);
    replies_keep = λ x c. (refl, refl);
  }
