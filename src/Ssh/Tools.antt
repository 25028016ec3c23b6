-- ===== src/Ssh/Tools.antt =====
-- The tools of src/mcp_venus_os/server.py that manage the Cerbo over SSH. A password that is generated is
-- the argument `token`.
use mcp_venus_os.Prelude.{
  String, Bool, true, false, not, ◌&&◌, Option, none, some, List, [], ◌∷◌, if◌then◌else◌,
}
use mcp_venus_os.Value.{Float, bool, str}
use mcp_venus_os.Config.{SafetyConfig, is_given}
use mcp_venus_os.Safety.{Params}
use mcp_venus_os.Write.Tools.{ToolResult, confirm_gate}
use mcp_venus_os.Ssh.{Reply, success, stdout_of, is_reachable}
use mcp_venus_os.Ssh.Lines.{splitlines, stripped}
use mcp_venus_os.Ssh.Keys.{configured}
use mcp_venus_os.Ssh.Connection.{Device, Session, run}
use mcp_venus_os.Ssh.Operations.{
  available, firmware_version, check_updates, apply_updates, enable_root_password,
}
use mcp_venus_os.Ssh.Packages.{
  setuphelper_status, setuphelper_install_package, setuphelper_remove_package,
}

pub data ToolReply : Type 0 where
  refused : ToolResult → ToolReply
  not_configured : ToolReply
  -- No reply where an exception passes.
  replied : Option Reply → ToolReply
  addresses : String → Bool → List String → ToolReply
  -- The reply of `chpasswd`, a generated password, the host and the user.
  enabled : Reply → Option String → String → String → ToolReply

module _ (d : Device) where
  abbrev pub replied_with : Option Reply × Session → ToolReply × Session
  replied_with (r, s) = (replied r, s)

  -- `_ssh_client_or_error`, and what a tool does with a client.
  abbrev pub with_client : (Session → ToolReply × Session) → Session → ToolReply × Session
  with_client f s = if configured d.config then f s else (not_configured, s)

  unfoldable pub cerbo_ssh_available : Session → ToolReply × Session
  cerbo_ssh_available s = with_client (λ t. replied_with (available d t)) s

  unfoldable pub cerbo_version : Session → ToolReply × Session
  cerbo_version s = with_client (λ t. replied_with (firmware_version d t)) s

  abbrev pub address_command : String
  address_command = "ip -4 -o addr show scope global 2>/dev/null | awk '{print $4}'"

  abbrev pub addresses_of : String → Option Reply × Session → ToolReply × Session
  addresses_of mqtt_host (none, s) = (replied none, s)
  addresses_of mqtt_host (some r, s) =
      (addresses mqtt_host true (stripped (splitlines (stdout_of r))), s)

  abbrev pub ip_after : String → Option Reply × Session → ToolReply × Session
  ip_after mqtt_host (none, s) = (replied none, s)
  ip_after mqtt_host (some probe, s) =
      if is_reachable probe
      then addresses_of mqtt_host (run d address_command none s)
      else (addresses mqtt_host false [], s)

  unfoldable pub cerbo_ip : String → Session → ToolReply × Session
  cerbo_ip mqtt_host s = with_client (λ t. ip_after mqtt_host (available d t)) s

  unfoldable pub cerbo_check_updates : Session → ToolReply × Session
  cerbo_check_updates s = with_client (λ t. replied_with (check_updates d t)) s

  -- The tool `setuphelper_status`.
  unfoldable pub setuphelper_status_tool : Session → ToolReply × Session
  setuphelper_status_tool s = with_client (λ t. replied_with (setuphelper_status d t)) s

  module _ (searches : String → String → Bool) (safety : SafetyConfig) where
    -- The gate's error, or what the tool does with a client.
    abbrev pub unless_refused :
        Option ToolResult → (Session → ToolReply × Session) → Session → ToolReply × Session
    unless_refused (some e) f s = (refused e, s)
    unless_refused none f s = with_client f s

    abbrev pub gated :
        String → Params → Bool → (Session → ToolReply × Session) → Session → ToolReply × Session
    gated operation params confirmed f s =
        unless_refused (confirm_gate searches safety operation params confirmed none) f s

    unfoldable pub cerbo_firmware_update : Bool → Session → ToolReply × Session
    cerbo_firmware_update confirmed s =
        gated "cerbo_firmware_update" [] confirmed (λ t. replied_with (apply_updates d t)) s

    abbrev pub or_text : Option String → String → String
    or_text none otherwise = otherwise
    or_text (some s) otherwise = if is_given (some s) then s else otherwise

    -- `password or get_config().cerbo.root_password or secrets.token_urlsafe(12)`
    abbrev pub chosen_password : Option String → Option String → String → String
    chosen_password password root_password token = or_text password (or_text root_password token)

    abbrev pub shown_password : Bool → Bool → String → Option String
    shown_password ok given pwd = if ok && not given then some pwd else none

    abbrev pub enabled_of : Bool → String → Option Reply × Session → ToolReply × Session
    enabled_of given pwd (none, s) = (replied none, s)
    enabled_of given pwd (some r, s) =
        (enabled r (shown_password (success r) given pwd) d.effective_host d.config.user, s)

    unfoldable pub cerbo_enable_ssh :
        Option String → Option String → String → Bool → Session → ToolReply × Session
    cerbo_enable_ssh password root_password token confirmed s =
        let pwd = chosen_password password root_password token in
        gated "cerbo_enable_ssh" (("set_root_password", bool true) ∷ []) confirmed
          (λ t.
            enabled_of (if is_given password then true else is_given root_password) pwd
              (enable_root_password d pwd t))
          s

    -- The tool `setuphelper_install_package`.
    unfoldable pub install_package_tool : String → String → Bool → Session → ToolReply × Session
    install_package_tool pkg repo confirmed s =
        gated "setuphelper_install_package" (("package", str pkg) ∷ ("repo", str repo) ∷ [])
          confirmed (λ t. replied_with (setuphelper_install_package d pkg repo t)) s

    -- The tool `setuphelper_remove_package`.
    unfoldable pub remove_package_tool : String → Bool → Session → ToolReply × Session
    remove_package_tool pkg confirmed s =
        gated "setuphelper_remove_package" (("package", str pkg) ∷ []) confirmed
          (λ t. replied_with (setuphelper_remove_package d pkg t)) s

    unfoldable pub cerbo_ssh_exec : String → Float → Bool → Session → ToolReply × Session
    cerbo_ssh_exec command timeout_s confirmed s =
        gated "cerbo_ssh_exec" (("command", str command) ∷ []) confirmed
          (λ t. replied_with (run d command (some timeout_s) t)) s
