-- ===== src/Ssh/Trusted.antt =====
-- Which keys src/mcp_venus_os/ssh_client.py trusts and authenticates with.
use mathlib.Core.List.{Memᴰ}
use mcp_venus_os.Prelude.{
  String, Bool, true, false, ◌≤◌, Option, none, some, List, [], ◌∷◌, keep, Mem-keep_iff, ◌≡◌, ◌↔◌,
  ◌⊎◌, inl, inr, refl, sym, subst, ap, ◌∙◌, arith, if◌then◌else◌,
}
use mcp_venus_os.Config.{is_given}
use mcp_venus_os.Ssh.{ssh_error, Outcome, returned, raised}
use mcp_venus_os.Ssh.Keys.{
  secp256r1, secp384r1, secp521r1, other_curve, PublicKey, rsa_key, ec_key, ed25519_key, ed448_key,
  other_key, strong_public, strong_key, ConnectOptions, base_options, known_hosts, checked_key,
  client_keys_of, given_password, with_keys, connect_options,
}
use mcp_venus_os.Ssh.Connection.{Device, options}

-- RSA of at least 2048 bits, one of the three NIST curves, Ed25519 or Ed448.
abbrev pub IsStrong : Option PublicKey → Type 0
IsStrong (some (rsa_key size)) = 2048 ≤ size
IsStrong (some (ec_key curve)) = (curve ≡ secp256r1) ⊎ (curve ≡ secp384r1) ⊎ (curve ≡ secp521r1)
IsStrong (some ed25519_key) = Unit
IsStrong (some ed448_key) = Unit
IsStrong _ = ⊥

IsStrong-iff : (k : Option PublicKey) → (strong_public k ≡ true) ↔ IsStrong k
IsStrong-iff none = (λ h. absurd (ground arith), λ h. absurd h)
IsStrong-iff (some (rsa_key size)) = ground arith
IsStrong-iff (some (ec_key secp256r1)) = (λ h. inl refl, λ h. refl)
IsStrong-iff (some (ec_key secp384r1)) = (λ h. inr (inl refl), λ h. refl)
IsStrong-iff (some (ec_key secp521r1)) = (λ h. inr (inr refl), λ h. refl)
IsStrong-iff (some (ec_key other_curve)) = ground arith
IsStrong-iff (some ed25519_key) = (λ h. tt, λ h. refl)
IsStrong-iff (some ed448_key) = (λ h. tt, λ h. refl)
IsStrong-iff (some other_key) = (λ h. absurd (ground arith), λ h. absurd h)

abbrev value_or {ℓ} : {A : Type ℓ} → A → Outcome A → A
value_or a (returned b) = b
value_or a (raised e) = a

module _ (d : Device) where
  abbrev pub IsStrongKey : d.Key → Type 0
  IsStrongKey key = IsStrong (d.public_of key)

  -- The key file of the configuration, if it names one, is a strong key, and it is the only one that
  -- the connection may use.
  abbrev pub UsesKey : Option String → Option (List d.Key) → Type 0
  UsesKey path keys =
      ((is_given path ≡ false) × (keys ≡ none))
      ⊎ ((p : String) × (key : d.Key) × (path ≡ some p)
          × (is_given path ≡ true)
          × (d.read_private_key p ≡ some key)
          × IsStrongKey key
          × (keys ≡ some (key ∷ [])))

  strong_key_iff : (key : d.Key) → (strong_key d.Key d.public_of key ≡ true) ↔ IsStrongKey key
  unfolding strong_key
  strong_key_iff key = IsStrong-iff (d.public_of key)

  checked-UsesKey :
      (p : String) (o : Option d.Key) (keys : Option (List d.Key))
      → is_given (some p) ≡ true
      → d.read_private_key p ≡ o
      → checked_key d.Key d.public_of d.read_private_key o ≡ returned keys
      → UsesKey (some p) keys
  checked-UsesKey p none keys g e h = absurd (cc h)
  checked-UsesKey p (some key) keys g e h = by_strong (strong_key d.Key d.public_of key) refl h
    where
      by_strong :
          (b : Bool)
          → strong_key d.Key d.public_of key ≡ b
          → (if b
              then returned (some (key ∷ []))
              else raised (ssh_error "Configured SSH client key does not meet key policy"))
            ≡ returned keys
          → UsesKey (some p) keys
      by_strong true s k = inr (p, key, refl, g, e, (strong_key_iff key).0 s, cc k)
      by_strong false s k = absurd (cc k)

  abbrev keys_of : Option String → Outcome (Option (List d.Key))
  keys_of path = client_keys_of d.Key d.public_of d.read_private_key path

  keys-UsesKey :
      (path : Option String) (keys : Option (List d.Key))
      → keys_of path ≡ returned keys
      → UsesKey path keys
  keys-UsesKey none keys h = inl (refl, cc h)
  keys-UsesKey (some p) keys h = by_given (is_given (some p)) refl h
    where
      by_given :
          (b : Bool)
          → is_given (some p) ≡ b
          → (if b
              then checked_key d.Key d.public_of d.read_private_key (d.read_private_key p)
              else returned none)
            ≡ returned keys
          → UsesKey (some p) keys
      by_given true g k = checked-UsesKey p (d.read_private_key p) keys g refl k
      by_given false g k = inl (g, cc k)

  UsesKey-keys :
      (path : Option String) (keys : Option (List d.Key))
      → UsesKey path keys
      → keys_of path ≡ returned keys
  UsesKey-keys none keys (inl (g, e)) = ap returned (sym e)
  UsesKey-keys none keys (inr (q, key, f, g, r, s, e)) = absurd (cc f)
  UsesKey-keys (some p) keys (inl (g, e)) = rw (g, e) refl
  UsesKey-keys (some p) keys (inr (q, key, f, g, r, s, e)) =
      let same : q ≡ p = cc f in
      let read : d.read_private_key p ≡ some key = rw (← same) r in
      rw (g, read, (strong_key_iff key).1 s, e) refl

  -- The options of a connection.
  abbrev pub options_with : Option (List d.Key) → ConnectOptions d.Key
  options_with keys = record (base_options d.Key d.effective_host d.config) {
    client_keys = keys;
    password = given_password d.Key d.public_of d.read_private_key d.config.password;
  }

  with_keys_iff :
      (k : Outcome (Option (List d.Key))) (o : ConnectOptions d.Key)
      → (with_keys d.Key d.public_of d.read_private_key
            (base_options d.Key d.effective_host d.config)
            d.config.password
            k
          ≡ returned o)
        ↔ ((keys : Option (List d.Key)) × (k ≡ returned keys) × (o ≡ options_with keys))
  with_keys_iff (raised e) o = (λ h. absurd (cc h), λ (keys, e, f). absurd (cc e))
  with_keys_iff (returned keys) o = (
    λ h. (keys, refl, sym (ap (value_or o) h)),
    λ (keys', e, f).
        let same : keys ≡ keys' = ap (value_or keys) e in
        ap (λ (k : Option (List d.Key)). returned (options_with k)) same ∙ ap returned (sym f),
  )

  abbrev pub known : List d.Key × List d.Key × List d.Key → List d.Key × List d.Key × List d.Key
  known hosts = known_hosts d.Key d.public_of hosts

  keep-strong :
      (key : d.Key) (keys : List d.Key)
      → Memᴰ key (keep (strong_key d.Key d.public_of) keys) ↔ (Memᴰ key keys × IsStrongKey key)
  keep-strong key keys = (
    λ m.
        let (a, b) = (Mem-keep_iff (strong_key d.Key d.public_of) key keys).0 m in
        (a, (strong_key_iff key).0 b),
    λ (a, b).
        (Mem-keep_iff (strong_key d.Key d.public_of) key keys).1 (a, (strong_key_iff key).1 b),
  )

  -- What a connection may authenticate with and trust: the given keys and the configured password, no
  -- other identity and no certificate; and the patterns of the algorithms of host keys and signatures.
  pub record IsHardened (keys : Option (List d.Key)) (o : ConnectOptions d.Key) : Type 0 where
    pub only_keys : o.client_keys ≡ keys
    pub only_password :
        o.password ≡ (if is_given d.config.password then d.config.password else none)
    pub no_client_certs : o.client_certs ≡ []
    pub no_agent : (o.agent_path ≡ none) × (o.agent_forwarding ≡ false)
    pub no_token : o.pkcs11_provider ≡ none
    pub no_gss : (o.gss_kex ≡ false) × (o.gss_auth ≡ false)
    pub no_host_identity : o.host_based_auth ≡ false
    pub no_x509 : o.x509_trusted_certs ≡ none
    pub host_key_algs : o.server_host_key_algs ≡ "-*ssh-rsa*,*ssh-dss*,*-cert-*"
    pub signing_algs : o.signature_algs ≡ "-*ssh-rsa*,*ssh-dss*"
    pub destination :
        (o.host ≡ d.effective_host) × (o.port ≡ d.config.port) × (o.username ≡ d.config.user)
    pub bounded : (o.connect_timeout ≡ d.config.timeout_s) × (o.login_timeout ≡ d.config.timeout_s)

  password_lem :
      (p : Option String)
      → given_password d.Key d.public_of d.read_private_key p ≡ (if is_given p then p else none)
  password_lem none = refl
  password_lem (some p) = refl

  options_with-IsHardened : (keys : Option (List d.Key)) → IsHardened keys (options_with keys)
  options_with-IsHardened keys = record {
    only_keys = refl;
    only_password = password_lem d.config.password;
    no_client_certs = refl;
    no_agent = (refl, refl);
    no_token = refl;
    no_gss = (refl, refl);
    no_host_identity = refl;
    no_x509 = refl;
    host_key_algs = refl;
    signing_algs = refl;
    destination = (refl, refl, refl);
    bounded = (refl, refl);
  }

  -- The options of a connection are built exactly if the configuration names no key file or names one
  -- that holds a strong key. They let the connection authenticate with that key and the password only,
  -- with no agent, certificate, token, GSS or host identity, and with no ssh-rsa or ssh-dss algorithm
  -- for host keys and signatures. Of the hosts' keys the client trusts exactly the strong ones, no certificate authority, and it keeps
  -- what is revoked.
  pub options-IsTrusted :
      (trusted authorities revoked : List d.Key)
      → (((o : ConnectOptions d.Key) × (options d ≡ returned o))
          ↔ ((keys : Option (List d.Key)) × UsesKey d.config.key_path keys))
        × ((o : ConnectOptions d.Key)
            → options d ≡ returned o
            → (keys : Option (List d.Key)) × UsesKey d.config.key_path keys × IsHardened keys o)
        × ((key : d.Key)
            → Memᴰ key (known (trusted, authorities, revoked)).0
              ↔ (Memᴰ key trusted × IsStrongKey key))
        × ((known (trusted, authorities, revoked)).1 ≡ [])
        × ((known (trusted, authorities, revoked)).2 ≡ revoked)
  unfolding connect_options known_hosts
  options-IsTrusted trusted authorities revoked = (
    (
      λ (o, h).
          let (keys, e, f) = (with_keys_iff (keys_of d.config.key_path) o).0 h in
          (keys, keys-UsesKey d.config.key_path keys e),
      λ (keys, u). (
        options_with keys,
        (with_keys_iff (keys_of d.config.key_path) (options_with keys)).1
            (keys, UsesKey-keys d.config.key_path keys u, refl),
      ),
    ),
    λ o h.
        let (keys, e, f) = (with_keys_iff (keys_of d.config.key_path) o).0 h in
        (
          keys,
          keys-UsesKey d.config.key_path keys e,
          subst (IsHardened keys) (sym f) (options_with-IsHardened keys),
        ),
    λ key. keep-strong key trusted,
    refl,
    refl,
  )
