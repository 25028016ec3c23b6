-- ===== src/Ssh/Gated/Reading.antt =====
-- The tools of src/mcp_venus_os/server.py that only read from the Cerbo.
use mcp_venus_os.Prelude.{
  ℕ, String, ◌<>◌, Bool, true, false, Option, none, some, List, [], ◌∷◌, ◌≡◌, refl, if◌then◌else◌,
}
use mcp_venus_os.Ssh.{Reply, not_installed, Sent, success, is_reachable}
use mcp_venus_os.Ssh.Keys.{configured}
use mcp_venus_os.Ssh.Connection.{Device, Session, command_of, run}
use mcp_venus_os.Ssh.Commands.{sent_of}
use mcp_venus_os.Ssh.Operations.{
  and_then, available, version_reply, firmware_version, check_updates,
}
use mcp_venus_os.Ssh.Packages.{
  setuphelper_dir, status_of, list_packages, if_installed, setuphelper_status,
}
use mcp_venus_os.Ssh.Tools.{
  ToolReply, not_configured, addresses, replied_with, with_client, address_command, addresses_of,
  ip_after, cerbo_ssh_available, cerbo_version, cerbo_ip, cerbo_check_updates,
  setuphelper_status_tool,
}
use mcp_venus_os.Ssh.Gated.{
  tool_sent, Sends, Sends-refl, Sends-trans, run-Sends, nth, nth-Mem, and_then-Sends,
}
use mcp_venus_os.Ssh.Gated.Scripts.{with_script-Sends}

module _ (d : Device) where
  abbrev fixed : String → Sent
  fixed command = command_of d command none

  -- The commands that only read.
  abbrev pub read_commands : List Sent
  read_commands =
      fixed "cat /opt/victronenergy/version"
      ∷ fixed "ip -4 -o addr show scope global 2>/dev/null | awk '{print $4}'"
      ∷ fixed "[ -f /opt/victronenergy/swupdate-scripts/check-updates.sh ] && echo y"
      ∷ fixed "[ -f /opt/victronenergy/swupdate-scripts/check-swupdate.sh ] && echo y"
      ∷ fixed "/opt/victronenergy/swupdate-scripts/check-updates.sh"
      ∷ fixed "/opt/victronenergy/swupdate-scripts/check-swupdate.sh"
      ∷ fixed "[ -d /data/SetupHelper ] && echo y"
      ∷ fixed "grep -m1 '^version' /data/SetupHelper/PackageManager.py 2>/dev/null"
      ∷ fixed "ls /data/packageManager 2>/dev/null"
      ∷ []

  -- A fixed command of the list.
  run-read :
      (command : String) (s : Session) (n : ℕ)
      → nth n read_commands ≡ some (fixed command)
      → Sends read_commands s.sent (sent_of (run d command none s))
  run-read command s n h =
      run-Sends d read_commands command none s (nth-Mem n (fixed command) read_commands h)

  with_client-Sends :
      (f : Session → ToolReply × Session) (s : Session)
      → Sends read_commands s.sent (tool_sent (f s))
      → Sends read_commands s.sent (tool_sent (with_client d f s))
  with_client-Sends f s h = by_configured (configured d.config)
    where
      by_configured :
          (b : Bool)
          → Sends read_commands s.sent (tool_sent (if b then f s else (not_configured, s)))
      by_configured true = h
      by_configured false = Sends-refl read_commands s.sent s.sent refl

  abbrev pub OnlyReads : (Session → ToolReply × Session) → Type 0
  OnlyReads tool = (s : Session) → Sends read_commands s.sent (tool_sent (tool s))

  reply-Sends :
      (op : Session → Option Reply × Session) (s : Session)
      → Sends read_commands s.sent (sent_of (op s))
      → Sends read_commands s.sent (tool_sent (with_client d (λ t. replied_with d (op t)) s))
  reply-Sends op s h = with_client-Sends (λ t. replied_with d (op t)) s h

  version-Sends : OnlyReads (cerbo_version d)
  unfolding cerbo_version firmware_version
  version-Sends s = reply-Sends (firmware_version d) s (
      and_then-Sends d read_commands s.sent (version_reply d)
        (run d "cat /opt/victronenergy/version" none s)
        (run-read "cat /opt/victronenergy/version" s 0 refl)
        (λ p t. Sends-refl read_commands t.sent t.sent refl))

  addresses-Sends :
      (mqtt_host : String) (before : List Sent) (r : Option Reply × Session)
      → Sends read_commands before (sent_of r)
      → Sends read_commands before (tool_sent (addresses_of d mqtt_host r))
  addresses-Sends mqtt_host before (none, s) h = h
  addresses-Sends mqtt_host before (some p, s) h = h

  ip_after-Sends :
      (mqtt_host : String) (before : List Sent) (r : Option Reply × Session)
      → Sends read_commands before (sent_of r)
      → Sends read_commands before (tool_sent (ip_after d mqtt_host r))
  ip_after-Sends mqtt_host before (none, s) h = h
  ip_after-Sends mqtt_host before (some p, s) h =
      Sends-trans read_commands before s.sent _ h (by_reachable (is_reachable p))
    where
      reached :
          Sends read_commands s.sent
            (tool_sent (addresses_of d mqtt_host (run d (address_command d) none s)))
      reached = addresses-Sends mqtt_host s.sent _ (run-read (address_command d) s 1 refl)

      by_reachable :
          (b : Bool)
          → Sends read_commands s.sent (
              tool_sent (
                if b
                then addresses_of d mqtt_host (run d (address_command d) none s)
                else (addresses mqtt_host false [], s)))
      by_reachable true = reached
      by_reachable false = Sends-refl read_commands s.sent s.sent refl

  ip-Sends : (mqtt_host : String) → OnlyReads (cerbo_ip d mqtt_host)
  unfolding cerbo_ip available
  ip-Sends mqtt_host s =
      with_client-Sends (λ t. ip_after d mqtt_host (available d t)) s
        (ip_after-Sends mqtt_host s.sent (available d s)
          (Sends-refl read_commands s.sent s.sent refl))

  updates-Sends : OnlyReads (cerbo_check_updates d)
  unfolding cerbo_check_updates check_updates
  updates-Sends s = reply-Sends (check_updates d) s (
      with_script-Sends d read_commands (λ script. run d script none) s
        (
          (
            nth-Mem 2 _ read_commands refl,
            λ t. run-read "/opt/victronenergy/swupdate-scripts/check-updates.sh" t 4 refl,
          ),
          (
            (
              nth-Mem 3 _ read_commands refl,
              λ t. run-read "/opt/victronenergy/swupdate-scripts/check-swupdate.sh" t 5 refl,
            ),
            tt,
          ),
        ))

  status-Sends : OnlyReads (setuphelper_status_tool d)
  unfolding setuphelper_status_tool setuphelper_status
  status-Sends s = reply-Sends (setuphelper_status d) s (
      and_then-Sends d read_commands s.sent (if_installed d)
        (run d "[ -d /data/SetupHelper ] && echo y" none s)
        (run-read "[ -d /data/SetupHelper ] && echo y" s 6 refl) installed_then)
    where
      listed :
          (version : Reply) (t : Session)
          → Sends read_commands t.sent (sent_of (list_packages d version t))
      listed version t =
          and_then-Sends d read_commands t.sent (status_of d version)
            (run d "ls /data/packageManager 2>/dev/null" none t)
            (run-read "ls /data/packageManager 2>/dev/null" t 8 refl)
            (λ p u. Sends-refl read_commands u.sent u.sent refl)

      versioned :
          (b : Bool) (t : Session)
          → Sends read_commands t.sent (
              sent_of (
                if b
                then and_then d (list_packages d) (
                    run d
                      ("grep -m1 '^version' " <> setuphelper_dir
                        <> "/PackageManager.py 2>/dev/null")
                      none
                      t)
                else (some not_installed, t)))
      versioned true t =
          and_then-Sends d read_commands t.sent (list_packages d)
            (run d "grep -m1 '^version' /data/SetupHelper/PackageManager.py 2>/dev/null" none t)
            (run-read "grep -m1 '^version' /data/SetupHelper/PackageManager.py 2>/dev/null" t 7
              refl)
            listed
      versioned false t = Sends-refl read_commands t.sent t.sent refl

      installed_then :
          (p : Reply) (t : Session) → Sends read_commands t.sent (sent_of (if_installed d p t))
      installed_then p t = versioned (success p) t

  probe_sent : (s : Session) → tool_sent (cerbo_ssh_available d s) ≡ s.sent
  unfolding cerbo_ssh_available available
  probe_sent s = by_configured (configured d.config)
    where
      by_configured :
          (b : Bool)
          → tool_sent (if b then replied_with d (available d s) else (not_configured, s)) ≡ s.sent
      by_configured true = refl
      by_configured false = refl

  -- The tools that only read send nothing but the nine fixed commands that read the version, the
  -- addresses, the update scripts and their findings, and the installed packages; the probe of the
  -- port sends none.
  pub reading_tools-Sends :
      (mqtt_host : String)
      → ((s : Session) → tool_sent (cerbo_ssh_available d s) ≡ s.sent)
        × OnlyReads (cerbo_version d)
        × OnlyReads (cerbo_ip d mqtt_host)
        × OnlyReads (cerbo_check_updates d)
        × OnlyReads (setuphelper_status_tool d)
  reading_tools-Sends mqtt_host =
      (probe_sent, version-Sends, ip-Sends mqtt_host, updates-Sends, status-Sends)
