-- ===== src/Ssh/Tests.antt =====
-- A device that answers, over src/mcp_venus_os/ssh_client.py, and the theorems at that input.
use mathlib.Core.List.{Memᴰ}
use mcp_venus_os.Prelude.{
  ◌≡◌, ◌↔◌, refl, String, Bool, true, false, Option, none, some, List, [], ◌∷◌, ◌==◌, split_slash,
  partition_slash, show_ℕ, if◌then◌else◌,
}
use mcp_venus_os.Prelude.Int.{pos}
use mcp_venus_os.Value.{finite, one_units}
use mcp_venus_os.Config.{SafetyConfig, SshConfig, default_ssh, default_safety, load_safety}
use mcp_venus_os.Ssh.{
  os_error, timeout_error, ssh_error, returned, raised, failed, unreachable, version_of,
  valid_package_name, valid_repo, truncate,
}
use mcp_venus_os.Ssh.Lines.{splitlines, strip}
use mcp_venus_os.Ssh.Keys.{
  PublicKey, rsa_key, ed25519_key, configured, strong_key, known_hosts, connect_options,
}
use mcp_venus_os.Ssh.Connection.{
  Moment, Device, Session, options, ensure_conn, close_connection, command_of, run,
}
use mcp_venus_os.Ssh.Operations.{firmware_version, available}
use mcp_venus_os.Ssh.Packages.{setuphelper_install_package}
use mcp_venus_os.Ssh.Tools.{
  cerbo_ssh_available, cerbo_version, cerbo_ip, cerbo_check_updates, setuphelper_status_tool,
}
use mcp_venus_os.Ssh.Keys.{ConnectOptions}
use mcp_venus_os.Ssh.Trusted.{IsStrongKey, UsesKey, IsHardened, known, options-IsTrusted}
use mcp_venus_os.Ssh.Single.{World, ensured, ensures, Reachable, starts, steps, Reachable-IsSingle}
use mcp_venus_os.Ssh.Single.Failing.{IsHandled, failures-IsShut}
use mcp_venus_os.Ssh.Gated.{tool_sent}
use mcp_venus_os.Ssh.Gated.Reading.{OnlyReads, reading_tools-Sends}

abbrev config : SshConfig
config = record default_ssh { key_path = some "~/.ssh/cerbo" }

abbrev answers : Moment PublicKey
answers = record {
  closed = false;
  connect = λ o. none;
  answer = λ m. returned (record { exit_status = some (pos 0); stdout = "v3.75\n"; stderr = "" });
  elapsed_s = finite (pos 0);
  probe = raised (timeout_error "");
}

abbrev refuses : Moment PublicKey
refuses = record answers { answer = λ m. raised (ssh_error "reset") }

abbrev cerbo : Device
cerbo = record {
  Key = PublicKey;
  public_of = λ key. some key;
  read_private_key = λ path. some ed25519_key;
  config = config;
  effective_host = "10.0.0.2";
  moments = λ i. if i == 0 then answers else refuses;
}

abbrev fresh : Session
fresh = record { connection = record { conn = none; next = 0 }; sent = []; closed = []; at = 0 }

abbrev held : Session
held = record {
  connection = record { conn = some 0; next = 1 };
  sent = command_of cerbo "uname" none ∷ [];
  closed = [];
  at = 1;
}

whole_run : Unit {0}
unfolding run ensure_conn close_connection connect_options known_hosts strong_key firmware_version
    splitlines strip truncate valid_package_name valid_repo setuphelper_install_package available
    configured load_safety split_slash partition_slash show_ℕ one_units
whole_run = tt

version_lem : (firmware_version cerbo fresh).0 ≡ some (version_of (some "v3.75") "v3.75\n")
unfolding whole_run
version_lem = refl

-- A command that fails leaves the client without a connection.
fails_lem : run cerbo "reboot" none held ≡ (
  some (failed "ssh failed: reset"),
  record {
    connection = record { conn = none; next = 1 };
    sent = command_of cerbo "uname" none ∷ command_of cerbo "reboot" none ∷ [];
    closed = 0 ∷ [];
    at = 2;
  },
)
unfolding whole_run
fails_lem = refl

names_lem :
    (valid_package_name "../etc" ≡ false)
    × (valid_package_name "GuiMods" ≡ true)
    × (valid_repo "kwindrem/GuiMods" ≡ true)
    × (valid_repo "a/b;reboot" ≡ false)
unfolding whole_run
names_lem = (refl, refl, refl, refl)

timeout_lem : (available cerbo fresh).0 ≡ some (unreachable "10.0.0.2" "")
unfolding whole_run
timeout_lem = refl

abbrev no_match : String → String → Bool
no_match pattern command = false

abbrev writable : SafetyConfig
writable = record default_safety { enable_writes = true }

reading_tools-Sends_example :
    ((s : Session) → tool_sent (cerbo_ssh_available cerbo s) ≡ s.sent)
    × OnlyReads cerbo (cerbo_version cerbo)
    × OnlyReads cerbo (cerbo_ip cerbo "venus.local")
    × OnlyReads cerbo (cerbo_check_updates cerbo)
    × OnlyReads cerbo (setuphelper_status_tool cerbo)
reading_tools-Sends_example = reading_tools-Sends cerbo "venus.local"

-- The world once a first connection is opened.
abbrev unopened : World
unopened = record { connection = record { conn = none; next = 0 }; live = λ j. false }

abbrev once : World
once = ensured cerbo unopened (returned 0, record { conn = some 0; next = 1 })

opens :
    ensure_conn cerbo (record answers { closed = true }) unopened.connection
    ≡ (returned 0, record { conn = some 0; next = 1 })
unfolding whole_run
opens = refl

once-Reachable : Reachable cerbo once
unfolding whole_run
once-Reachable =
    steps unopened once starts (ensures unopened (record answers { closed = true }) refl)

Reachable-IsSingle_example : once.connection.conn ≡ some 0
Reachable-IsSingle_example = Reachable-IsSingle cerbo once once-Reachable 0 refl

-- The connection of `once` breaks while a command runs on it.
abbrev running : Session
running = record { connection = once.connection; sent = []; closed = []; at = 1 }

running-Reachable : Reachable cerbo (record { connection = once.connection; live = once.live })
running-Reachable = once-Reachable

failures-IsShut_example : IsHandled cerbo once.live 0 running (os_error "broken pipe")
failures-IsShut_example =
    failures-IsShut cerbo once.live 0 running (os_error "broken pipe") running-Reachable

options-IsTrusted_example :
    (((o : ConnectOptions PublicKey) × (options cerbo ≡ returned o))
      ↔ ((keys : Option (List PublicKey)) × UsesKey cerbo (some "~/.ssh/cerbo") keys))
    × ((o : ConnectOptions PublicKey)
        → options cerbo ≡ returned o
        → (keys : Option (List PublicKey)) × UsesKey cerbo (some "~/.ssh/cerbo") keys
          × IsHardened cerbo keys o)
    × ((key : PublicKey)
        → Memᴰ key (known cerbo (rsa_key 1024 ∷ ed25519_key ∷ [], [], [])).0
          ↔ (Memᴰ key (rsa_key 1024 ∷ ed25519_key ∷ []) × IsStrongKey cerbo key))
    × ((known cerbo (rsa_key 1024 ∷ ed25519_key ∷ [], [], [])).1 ≡ [])
    × ((known cerbo (rsa_key 1024 ∷ ed25519_key ∷ [], [], [])).2 ≡ [])
options-IsTrusted_example = options-IsTrusted cerbo (rsa_key 1024 ∷ ed25519_key ∷ []) [] []
