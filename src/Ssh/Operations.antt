-- ===== src/Ssh/Operations.antt =====
-- The operations of src/mcp_venus_os/ssh_client.py on the Cerbo itself: reachability, the firmware and the
-- root password.
use Prim.Native.Char.{code}
use mcp_venus_os.Prelude.{
  ℕ, ◌+◌, ◌==◌, String, ◌<>◌, Bool, true, false, not, ◌&&◌, ◌||◌, Option, none, some, List, [], ◌∷◌,
  ◌++◌, leb, if◌then◌else◌, ◌≡◌, refl,
}
use mcp_venus_os.Config.{whole_float}
use mcp_venus_os.Ssh.{
  Exn, os_error, timeout_error, Outcome, returned, raised, Reply, failed, reachable, unreachable,
  version_of, password_set, success, stdout_of, Sent, truncate,
}
use mcp_venus_os.Ssh.Lines.{splitlines, filled, first_of, is_empty}
use mcp_venus_os.Ssh.Connection.{
  Moment, Completed, Device, Conn, Session, ensure_conn, fail_with, caught, is_zero_code, advance,
  run,
}

-- `isinstance(exc, OSError)`, which a TimeoutError is.
abbrev pub is_os_error : Exn → Bool
is_os_error (os_error text) = true
is_os_error (timeout_error text) = true
is_os_error _ = false

abbrev pub is_timeout : Exn → Bool
is_timeout (timeout_error text) = true
is_timeout _ = false

-- `str(exc)` of one.
abbrev pub text_of : Exn → String
text_of (os_error text) = text
text_of (timeout_error text) = text
text_of _ = ""

abbrev lowered : ℕ → ℕ
lowered k = if leb 65 k && leb k 90 then k + 32 else k

abbrev lowered_starts : String → String → Bool
lowered_starts s String.[] = true
lowered_starts String.[] (String.◌∷◌ d p) = false
lowered_starts (String.◌∷◌ c s) (String.◌∷◌ d p) = lowered (code c) == code d && lowered_starts s p

-- `p in s.lower()` of letters `p` that only ASCII letters become.
unfoldable pub lowered_contains : String → String → Bool
lowered_contains p String.[] = lowered_starts "" p
lowered_contains p (String.◌∷◌ c s) = lowered_starts (String.◌∷◌ c s) p || lowered_contains p s

module _ (d : Device) where
  -- The clauses of `available`, in their order.
  abbrev pub probed : Outcome ℕ → Option Reply
  probed (returned latency) = some (reachable d.effective_host d.config.port latency)
  probed (raised e) =
      if is_os_error e
      then some (unreachable d.effective_host (text_of e))
      else if is_timeout e
      then some (unreachable d.effective_host "timeout")
      else none

  -- `available`
  unfoldable pub available : Session → Option Reply × Session
  available s = (probed (d.moments s.at).probe, advance d s)

  -- What follows a command whose reply is needed: an exception goes on up.
  abbrev pub and_then :
      (Reply → Session → Option Reply × Session) → Option Reply × Session → Option Reply × Session
  and_then f (none, s) = (none, s)
  and_then f (some r, s) = f r s

  abbrev pub version_reply : Reply → Session → Option Reply × Session
  version_reply r s = (
    some (
        if success r
        then version_of (first_of (filled (splitlines (stdout_of r)))) (stdout_of r)
        else r),
    s,
  )

  -- `firmware_version`
  unfoldable pub firmware_version : Session → Option Reply × Session
  firmware_version s = and_then version_reply (run d "cat /opt/victronenergy/version" none s)

  -- _SWUPDATE_CANDIDATES
  abbrev pub swupdate_candidates : List String
  swupdate_candidates =
      "/opt/victronenergy/swupdate-scripts/check-updates.sh"
      ∷ "/opt/victronenergy/swupdate-scripts/check-swupdate.sh" ∷ []

  -- The first candidate that the device has; no result where an exception passes.
  abbrev pub found_script :
      String
      → Option Reply × Session
      → (Session → Option (Option String) × Session)
      → Option (Option String) × Session
  found_script candidate (none, s) next = (none, s)
  found_script candidate (some r, s) next = if success r then (some (some candidate), s) else next s

  abbrev pub script_among : List String → Session → Option (Option String) × Session
  script_among [] s = (some none, s)
  script_among (candidate ∷ rest) s =
      found_script candidate (run d ("[ -f " <> candidate <> " ] && echo y") none s)
        (script_among rest)

  -- `_swupdate_script`
  unfoldable pub swupdate_script : Session → Option (Option String) × Session
  swupdate_script s = script_among swupdate_candidates s

  abbrev pub with_script :
      (String → Session → Option Reply × Session)
      → Option (Option String) × Session
      → Option Reply × Session
  with_script f (none, s) = (none, s)
  with_script f (some none, s) = (some (failed "no swupdate check script found on device"), s)
  with_script f (some (some script), s) = f script s

  -- `check_updates`
  unfoldable pub check_updates : Session → Option Reply × Session
  check_updates s = with_script (λ script. run d script none) (swupdate_script s)

  -- `apply_updates`
  unfoldable pub apply_updates : Session → Option Reply × Session
  apply_updates s =
      with_script (λ script. run d (script <> " -force -update") (some (whole_float 900)))
        (swupdate_script s)

  abbrev pub chpasswd : String → Sent
  chpasswd password = record {
    command = "chpasswd 2>&1";
    input = some ("root:" <> password <> "\n");
    timeout_s = none;
  }

  -- `result.stderr or result.stdout or ""`
  abbrev pub output_of : Completed → String
  output_of r = if is_empty r.stderr then r.stdout else r.stderr

  abbrev pub password_answered : ℕ → Outcome Completed → Session → Option Reply × Session
  password_answered h (raised e) s = fail_with d (some h) (caught d e) s
  password_answered h (returned r) s = (
    some (
        password_set (is_zero_code d r.exit_status && not (lowered_contains "password" r.stderr))
          (truncate (output_of r))),
    s,
  )

  abbrev pub send_password :
      Moment d.Key → Sent → Outcome ℕ × Conn → Session → Option Reply × Session
  send_password w m (raised e, c) s = fail_with d none (caught d e) (record s { connection = c })
  send_password w m (returned h, c) s =
      password_answered h (w.answer m) (record s { connection = c; sent = s.sent ++ m ∷ [] })

  -- `enable_root_password`
  unfoldable pub enable_root_password : String → Session → Option Reply × Session
  enable_root_password password s =
      let w = d.moments s.at in
      send_password w (chpasswd password) (ensure_conn d w s.connection) (advance d s)

contains_lem :
    (lowered_contains "password" "BAD PassWord: x" ≡ true)
    × (lowered_contains "password" "passwd" ≡ false)
unfolding lowered_contains
contains_lem = (refl, refl)
