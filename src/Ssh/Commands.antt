-- ===== src/Ssh/Commands.antt =====
-- What `run` of src/mcp_venus_os/ssh_client.py sends.
use mcp_venus_os.Prelude.{
  ℕ, String, Option, none, some, List, [], ◌∷◌, ◌++◌, ◌≡◌, ◌⊎◌, inl, inr, refl,
}
use mcp_venus_os.Value.{Float}
use mcp_venus_os.Ssh.{
  Exn, permission_denied, os_error, timeout_error, ssh_error, other_error, Outcome, returned,
  raised, Reply, Sent,
}
use mcp_venus_os.Ssh.Connection.{
  Moment, Completed, Device, Conn, Session, close_after, run_raised, answered, send, command_of,
  run,
}

abbrev pub sent_of : Option Reply × Session → List Sent
sent_of r = r.1.sent

module _ (d : Device) where
  pub close_after-sent : (h : Option ℕ) (s : Session) → (close_after d h s).sent ≡ s.sent
  close_after-sent none s = refl
  close_after-sent (some h) s = refl

  run_raised-sent : (h : Option ℕ) (e : Exn) (s : Session) → sent_of (run_raised d h e s) ≡ s.sent
  run_raised-sent h (permission_denied t) s = refl
  run_raised-sent h (os_error t) s = close_after-sent h s
  run_raised-sent h (timeout_error t) s = close_after-sent h s
  run_raised-sent h (ssh_error t) s = close_after-sent h s
  run_raised-sent h other_error s = refl

  answered-sent :
      (elapsed : Float) (h : ℕ) (o : Outcome Completed) (s : Session)
      → sent_of (answered d elapsed h o s) ≡ s.sent
  answered-sent elapsed h (returned r) s = refl
  answered-sent elapsed h (raised e) s = run_raised-sent (some h) e s

  send-sent :
      (w : Moment d.Key) (m : Sent) (o : Outcome ℕ × Conn) (s : Session)
      → (sent_of (send d w m o s) ≡ s.sent) ⊎ (sent_of (send d w m o s) ≡ s.sent ++ m ∷ [])
  send-sent w m (raised e, c) s = inl (run_raised-sent none e (record s { connection = c }))
  send-sent w m (returned h, c) s = inr (answered-sent w.elapsed_s h (w.answer m) _)

  -- A run sends its command or nothing.
  pub run-sent :
      (command : String) (timeout_s : Option Float) (s : Session)
      → (sent_of (run d command timeout_s s) ≡ s.sent)
        ⊎ (sent_of (run d command timeout_s s) ≡ s.sent ++ command_of d command timeout_s ∷ [])
  unfolding run
  run-sent command timeout_s s = send-sent (d.moments s.at) (command_of d command timeout_s) _ _
