-- ===== src/Ssh/Packages/Inert.antt =====
-- What the package operations of src/mcp_venus_os/ssh_client.py put on a command line.
use mcp_venus_os.Prelude.{
  String, Bool, true, false, some, List, [], ◌∷◌, ◌++◌, ◌≡◌, ◌⊎◌, inl, inr, refl, split_slash,
  if◌then◌else◌,
}
use mcp_venus_os.Config.{whole_float}
use mcp_venus_os.Ssh.{failed, Sent, valid_package_name, valid_repo}
use mcp_venus_os.Ssh.Connection.{Device, Session, command_of, run}
use mcp_venus_os.Ssh.Packages.{
  second, install_script, remove_script, install_named, setuphelper_install_package,
  setuphelper_remove_package,
}
use mcp_venus_os.Ssh.Commands.{sent_of, run-sent}
use mcp_venus_os.Ssh.Names.{IsPackageName, IsRepository, valid-IsPackageName, valid_repo-parts}

module _ (d : Device) where
  -- Nothing more was sent, or the script of an installation with inert names.
  abbrev pub IsInstallation : String → String → List Sent → List Sent → Type 0
  IsInstallation pkg repo before after =
      (after ≡ before)
      ⊎ ((owner : String) × (name : String) × IsPackageName pkg
          × IsRepository repo owner name
          × (after
              ≡ before
                ++ command_of d (install_script pkg repo name) (some (whole_float 300)) ∷ []))

  abbrev pub IsRemoval : String → List Sent → List Sent → Type 0
  IsRemoval pkg before after =
      (after ≡ before)
      ⊎ (IsPackageName pkg
          × (after ≡ before ++ command_of d (remove_script pkg) (some (whole_float 300)) ∷ []))

  install-sent :
      (pkg repo : String) (s : Session)
      → IsInstallation pkg repo s.sent (sent_of (setuphelper_install_package d pkg repo s))
  unfolding setuphelper_install_package
  install-sent pkg repo s = by_tests (valid_package_name pkg) (valid_repo repo) refl refl
    where
      named :
          (owner name : String)
          → second (split_slash repo) ≡ some name
          → IsRepository repo owner name
          → IsPackageName pkg
          → IsInstallation pkg repo s.sent
              (sent_of (install_named d pkg repo (second (split_slash repo)) s))
      named owner name e r p =
          rw e (elim (run-sent d (install_script pkg repo name) (some (whole_float 300)) s) [
            | inl same ↦ inl same
            | inr one ↦ inr (owner, name, p, r, one)
          ])

      by_tests :
          (a b : Bool)
          → valid_package_name pkg ≡ a
          → valid_repo repo ≡ b
          → IsInstallation pkg repo s.sent (
              sent_of (
                if a
                then (if b
                    then install_named d pkg repo (second (split_slash repo)) s
                    else (some (failed "repo must be owner/repository"), s))
                else (some (failed "invalid SetupHelper package name"), s)))
      by_tests false b e f = inl refl
      by_tests true false e f = inl refl
      by_tests true true e f =
          let (owner, name, g, r) = valid_repo-parts repo f in
          named owner name g r (valid-IsPackageName pkg e)

  remove-sent :
      (pkg : String) (s : Session)
      → IsRemoval pkg s.sent (sent_of (setuphelper_remove_package d pkg s))
  unfolding setuphelper_remove_package
  remove-sent pkg s = by_test (valid_package_name pkg) refl
    where
      by_test :
          (a : Bool)
          → valid_package_name pkg ≡ a
          → IsRemoval pkg s.sent (
              sent_of (
                if a
                then run d (remove_script pkg) (some (whole_float 300)) s
                else (some (failed "invalid SetupHelper package name"), s)))
      by_test false e = inl refl
      by_test true e = elim (run-sent d (remove_script pkg) (some (whole_float 300)) s) [
        | inl same ↦ inl same
        | inr one ↦ inr (valid-IsPackageName pkg e, one)
      ]

  -- Installing or removing a package sends no command or one, which is the script for that package,
  -- and then the package's name, the owner and the name of the repository have no character that a
  -- shell gives a meaning, the repository is the owner and the name around its one slash, and the
  -- package's name is not empty and begins with neither a dash nor a dot.
  pub packages-inert :
      (pkg repo : String) (s : Session)
      → IsInstallation pkg repo s.sent (sent_of (setuphelper_install_package d pkg repo s))
        × IsRemoval pkg s.sent (sent_of (setuphelper_remove_package d pkg s))
  packages-inert pkg repo s = (install-sent pkg repo s, remove-sent pkg s)
