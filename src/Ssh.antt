-- ===== src/Ssh.antt =====
-- src/mcp_venus_os/ssh_client.py: the values that the SSH client works with. An exception is a value,
-- and an operation that raises one which its code does not catch has no reply.
pub mod Lines
pub mod Keys
pub mod Connection
pub mod Operations
pub mod Packages
pub mod Tools
pub mod Names
pub mod Commands
pub mod Trusted
pub mod Single
pub mod Gated
pub mod Probed
pub mod Tests
use Prim.Native.Char.{code}
use mcp_venus_os.Prelude.{
  chars, ℕ, suc, ◌-◌, String, ◌<>◌, Bool, true, false, ◌&&◌, ◌||◌, Option, none, some, List, take,
  partition_slash, all_chars, show_ℕ, ltb, leb, ◌==◌, if◌then◌else◌,
}
use mcp_venus_os.Prelude.Int.{ℤ}
use mcp_venus_os.Value.{Float}

-- What a call of asyncssh or of asyncio raises, with the text of the exception. A TimeoutError is an
-- OSError, and a KeyExchangeFailed is an asyncssh.Error.
pub data Exn : Type 0 where
  permission_denied : String → Exn
  os_error : String → Exn
  timeout_error : String → Exn
  ssh_error : String → Exn
  other_error : Exn

pub data Outcome {ℓ} (A : Type ℓ) : Type ℓ where
  returned : A → Outcome A
  raised : Exn → Outcome A

-- The dictionaries that the operations return.
pub data Reply : Type 0 where
  ran : Bool → Option ℤ → String → String → Float → Reply
  failed : String → Reply
  reachable : String → ℤ → ℕ → Reply
  unreachable : String → String → Reply
  version_of : Option String → String → Reply
  not_installed : Reply
  installed : Option String → List String → Reply
  password_set : Bool → String → Reply

-- `reply.get("success")`
abbrev pub success : Reply → Bool
success (ran ok code out err elapsed) = ok
success (failed e) = false
success (password_set ok err) = ok
success _ = true

-- `reply.get("stdout", "")`
abbrev pub stdout_of : Reply → String
stdout_of (ran ok code out err elapsed) = out
stdout_of _ = ""

-- `reply.get("reachable", False)`
abbrev pub is_reachable : Reply → Bool
is_reachable (reachable host port latency) = true
is_reachable _ = false

-- `[A-Za-z0-9]`
abbrev pub is_alnum : ℕ → Bool
is_alnum k = (leb 48 k && leb k 57) || (leb 65 k && leb k 90) || (leb 97 k && leb k 122)

-- `[A-Za-z0-9_.-]`
abbrev pub is_name_char : ℕ → Bool
is_name_char k = is_alnum k || k == 95 || k == 46 || k == 45

-- `valid_package_name`
unfoldable pub valid_package_name : String → Bool
valid_package_name String.[] = false
valid_package_name (String.◌∷◌ c s) = is_alnum (code c) && all_chars is_name_char s

-- `[A-Za-z0-9_.-]+`
abbrev pub is_word : String → Bool
is_word String.[] = false
is_word (String.◌∷◌ c s) = is_name_char (code c) && all_chars is_name_char s

abbrev pub both_words : Option (String × String) → Bool
both_words none = false
both_words (some (a, b)) = is_word a && is_word b

-- The pattern of `owner/repository`: a word has no slash, so the first is the only one.
unfoldable pub valid_repo : String → Bool
valid_repo repo = both_words (partition_slash repo)

-- _MAX_OUTPUT
abbrev pub max_output : ℕ
max_output = 4096

-- `_truncate`
unfoldable pub truncate : String → String
truncate text =
    if ltb max_output (chars text)
    then take max_output text <> "… (+" <> show_ℕ (chars text - max_output) <> "b)"
    else text

-- A command with its standard input and its time limit.
pub record Sent : Type 0 where
  pub command : String
  pub input : Option String
  pub timeout_s : Option Float
