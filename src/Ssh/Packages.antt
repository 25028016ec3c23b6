-- ===== src/Ssh/Packages.antt =====
-- The SetupHelper operations of src/mcp_venus_os/ssh_client.py: packages under /data.
pub mod Inert
use mcp_venus_os.Prelude.{
  String, ◌<>◌, Bool, Option, none, some, List, [], ◌∷◌, split_slash, if◌then◌else◌,
}
use mcp_venus_os.Config.{whole_float}
use mcp_venus_os.Ssh.{
  Reply, failed, not_installed, installed, success, stdout_of, valid_package_name, valid_repo,
}
use mcp_venus_os.Ssh.Lines.{splitlines, stripped, strip, or_none}
use mcp_venus_os.Ssh.Connection.{Device, Session, run}
use mcp_venus_os.Ssh.Operations.{and_then}

-- SETUPHELPER_DIR
abbrev pub setuphelper_dir : String
setuphelper_dir = "/data/SetupHelper"

-- PACKAGE_MANAGER_DIR
abbrev pub package_manager_dir : String
package_manager_dir = "/data/packageManager"

-- `repo.split("/")[1]`; `none` is IndexError.
abbrev pub second : List String → Option String
second (owner ∷ name ∷ rest) = some name
second _ = none

-- The script of an installation.
abbrev pub install_script : String → String → String → String
install_script pkg repo repo_name =
    "set -eu; " <> "stage=$(mktemp -d /data/.mcp-package.XXXXXX); "
    <> "trap 'rm -rf \"$stage\"' EXIT HUP INT TERM; "
    <> "wget -qO \"$stage/release.tar.gz\" https://github.com/" <> repo
    <> "/archive/refs/heads/main.tar.gz; " <> "tar -xzf \"$stage/release.tar.gz\" -C \"$stage\"; "
    <> "test -f \"$stage/" <> repo_name <> "-main/setup\"; " <> "mkdir -p /data/" <> pkg <> "; "
    <> "cp -a \"$stage/" <> repo_name <> "-main/.\" /data/" <> pkg <> "/; " <> "cd /data/" <> pkg
    <> "; " <> "scriptAction=INSTALL packageName=" <> pkg <> " scriptDir=/data/" <> pkg <> " "
    <> "bash /data/" <> pkg <> "/setup install </dev/null"

abbrev pub remove_script : String → String
remove_script pkg =
    "test -f /data/" <> pkg <> "/setup && bash /data/" <> pkg <> "/setup uninstall </dev/null"

module _ (d : Device) where
  abbrev pub status_of : Reply → Reply → Session → Option Reply × Session
  status_of version packages s = (
    some (
        installed (or_none (strip (stdout_of version)))
          (stripped (splitlines (stdout_of packages)))),
    s,
  )

  abbrev pub list_packages : Reply → Session → Option Reply × Session
  list_packages version s =
      and_then d (status_of version) (run d ("ls " <> package_manager_dir <> " 2>/dev/null") none s)

  abbrev pub if_installed : Reply → Session → Option Reply × Session
  if_installed probe s =
      if success probe
      then and_then d list_packages (
          run d ("grep -m1 '^version' " <> setuphelper_dir <> "/PackageManager.py 2>/dev/null") none
            s)
      else (some not_installed, s)

  -- `setuphelper_status`
  unfoldable pub setuphelper_status : Session → Option Reply × Session
  setuphelper_status s =
      and_then d if_installed (run d ("[ -d " <> setuphelper_dir <> " ] && echo y") none s)

  abbrev pub install_named : String → String → Option String → Session → Option Reply × Session
  install_named pkg repo none s = (none, s)
  install_named pkg repo (some repo_name) s =
      run d (install_script pkg repo repo_name) (some (whole_float 300)) s

  -- `setuphelper_install_package`
  unfoldable pub setuphelper_install_package : String → String → Session → Option Reply × Session
  setuphelper_install_package pkg repo s =
      if valid_package_name pkg
      then (if valid_repo repo
          then install_named pkg repo (second (split_slash repo)) s
          else (some (failed "repo must be owner/repository"), s))
      else (some (failed "invalid SetupHelper package name"), s)

  -- `setuphelper_remove_package`
  unfoldable pub setuphelper_remove_package : String → Session → Option Reply × Session
  setuphelper_remove_package pkg s =
      if valid_package_name pkg
      then run d (remove_script pkg) (some (whole_float 300)) s
      else (some (failed "invalid SetupHelper package name"), s)
