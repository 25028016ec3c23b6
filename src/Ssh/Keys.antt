-- ===== src/Ssh/Keys.antt =====
-- The key policy of src/mcp_venus_os/ssh_client.py and the options of its connections. Keys, the reading
-- of a key file and the public half of a key are parameters: `public_of` gives none where it cannot be
-- exported or loaded, `read_private_key` where it raises OSError or KeyImportError.
use mcp_venus_os.Prelude.{
  ℕ, String, Bool, true, false, Option, none, some, List, [], ◌∷◌, leb, keep, if◌then◌else◌,
}
use mcp_venus_os.Prelude.Int.{ℤ}
use mcp_venus_os.Value.{Float}
use mcp_venus_os.Config.{SshConfig, is_given}
use mcp_venus_os.Ssh.{ssh_error, Outcome, returned, raised}

pub data Curve : Type 0 where
  secp256r1 secp384r1 secp521r1 : Curve
  other_curve : Curve

-- The classes of public keys of the cryptography package.
pub data PublicKey : Type 0 where
  rsa_key : ℕ → PublicKey
  ec_key : Curve → PublicKey
  ed25519_key ed448_key : PublicKey
  other_key : PublicKey

abbrev pub named_curve : Curve → Bool
named_curve other_curve = false
named_curve _ = true

abbrev pub strong_public : Option PublicKey → Bool
strong_public none = false
strong_public (some (rsa_key size)) = leb 2048 size
strong_public (some (ec_key curve)) = named_curve curve
strong_public (some ed25519_key) = true
strong_public (some ed448_key) = true
strong_public (some other_key) = false

-- `configured`
unfoldable pub configured : SshConfig → Bool
configured config = if is_given config.key_path then true else is_given config.password

module _ (Key : Type 0) where
  -- The arguments of `asyncssh.connect`, but for its callback of known hosts.
  pub record ConnectOptions : Type 0 where
    pub host : String
    pub port : ℤ
    pub username : String
    pub kex_algs : List String
    pub server_host_key_algs : String
    pub signature_algs : String
    pub client_keys : Option (List Key)
    pub client_certs : List Key
    pub agent_path : Option String
    pub agent_forwarding : Bool
    pub pkcs11_provider : Option String
    pub gss_kex : Bool
    pub gss_auth : Bool
    pub host_based_auth : Bool
    pub x509_trusted_certs : Option String
    pub mac_algs : List String
    pub connect_timeout : Float
    pub login_timeout : Float
    pub password : Option String

  abbrev pub base_options : String → SshConfig → ConnectOptions
  base_options effective_host config = record {
    host = effective_host;
    port = config.port;
    username = config.user;
    kex_algs =
        "curve25519-sha256" ∷ "curve25519-sha256@libssh.org" ∷ "ecdh-sha2-nistp256"
        ∷ "ecdh-sha2-nistp384" ∷ "ecdh-sha2-nistp521" ∷ "diffie-hellman-group14-sha256"
        ∷ "diffie-hellman-group16-sha512" ∷ [];
    server_host_key_algs = "-*ssh-rsa*,*ssh-dss*,*-cert-*";
    signature_algs = "-*ssh-rsa*,*ssh-dss*";
    client_keys = none;
    client_certs = [];
    agent_path = none;
    agent_forwarding = false;
    pkcs11_provider = none;
    gss_kex = false;
    gss_auth = false;
    host_based_auth = false;
    x509_trusted_certs = none;
    mac_algs =
        "hmac-sha2-256-etm@openssh.com" ∷ "hmac-sha2-512-etm@openssh.com" ∷ "hmac-sha2-256"
        ∷ "hmac-sha2-512" ∷ [];
    connect_timeout = config.timeout_s;
    login_timeout = config.timeout_s;
    password = none;
  }

  module _ (public_of : Key → Option PublicKey) where
    -- `_strong_key`
    unfoldable pub strong_key : Key → Bool
    strong_key key = strong_public (public_of key)

    -- `_known_hosts`, of what `match_known_hosts` returns: the trusted keys, those of certificate
    -- authorities and the revoked ones.
    unfoldable pub known_hosts : List Key × List Key × List Key → List Key × List Key × List Key
    known_hosts (trusted, authorities, revoked) = (keep strong_key trusted, [], revoked)

    module _ (read_private_key : String → Option Key) where
      -- The key that the configuration names, or the error.
      abbrev pub checked_key : Option Key → Outcome (Option (List Key))
      checked_key none = raised (ssh_error "Unable to load configured SSH client key")
      checked_key (some key) =
          if strong_key key
          then returned (some (key ∷ []))
          else raised (ssh_error "Configured SSH client key does not meet key policy")

      abbrev pub client_keys_of : Option String → Outcome (Option (List Key))
      client_keys_of none = returned none
      client_keys_of (some path) =
          if is_given (some path) then checked_key (read_private_key path) else returned none

      abbrev pub given_password : Option String → Option String
      given_password none = none
      given_password (some p) = if is_given (some p) then some p else none

      abbrev pub with_keys :
          ConnectOptions → Option String → Outcome (Option (List Key)) → Outcome ConnectOptions
      with_keys options password (raised e) = raised e
      with_keys options password (returned keys) =
          returned (record options { client_keys = keys; password = given_password password })

      -- `_connect_kwargs`
      unfoldable pub connect_options : String → SshConfig → Outcome ConnectOptions
      connect_options effective_host config =
          with_keys (base_options effective_host config) config.password
            (client_keys_of config.key_path)
