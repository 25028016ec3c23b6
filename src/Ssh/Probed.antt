-- ===== src/Ssh/Probed.antt =====
-- The reachability probe of src/mcp_venus_os/ssh_client.py, whose clause for OSError stands before the one
-- for TimeoutError.
use mcp_venus_os.Prelude.{ℕ, String, Option, none, some, ◌≡◌, refl}
use mcp_venus_os.Ssh.{
  Exn, permission_denied, os_error, timeout_error, ssh_error, other_error, returned, raised, Reply,
  reachable, unreachable,
}
use mcp_venus_os.Ssh.Connection.{Device, Session, advance}
use mcp_venus_os.Ssh.Operations.{probed, available}

-- What the probe reports of an exception, or none where it goes on up.
abbrev pub report_of : String → Exn → Option Reply
report_of host (os_error text) = some (unreachable host text)
report_of host (timeout_error text) = some (unreachable host text)
report_of host _ = none

module _ (d : Device) where
  probed-raised : (e : Exn) → probed d (raised e) ≡ report_of d.effective_host e
  probed-raised (permission_denied t) = refl
  probed-raised (os_error t) = refl
  probed-raised (timeout_error t) = refl
  probed-raised (ssh_error t) = refl
  probed-raised other_error = refl

  -- The probe reports a connection with its host, port and latency, and every OSError as unreachable
  -- with the exception's own text, which a timeout's report has too, instead of the word that the
  -- clause for it would give; any other exception goes on up. It sends no command and opens no
  -- shared connection.
  pub available-reports :
      (s : Session)
      → ((latency : ℕ)
          → (d.moments s.at).probe ≡ returned latency
          → available d s ≡ (some (reachable d.effective_host d.config.port latency), advance d s))
        × ((e : Exn)
            → (d.moments s.at).probe ≡ raised e
            → available d s ≡ (report_of d.effective_host e, advance d s))
  unfolding available
  available-reports s = (λ latency h. rw h refl, λ e h. rw (h, probed-raised e) refl)
