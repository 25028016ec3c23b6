-- ===== src/Tls/Context.antt =====
-- The context that src/mcp_venus_os/tls_policy.py makes its sockets with.
use mcp_venus_os.Prelude.{
  ℕ, String, ◌<>◌, Bool, true, false, not, ◌&&◌, Option, none, some, List, [], ◌∷◌, ltb, keep,
  str_eq, if◌then◌else◌, ◌≡◌, ◌≤◌, ◌⊎◌, inl, inr, refl, arith,
}
use mcp_venus_os.Prelude.Int.{ℤ, pos, leb_ℤ, ◌≤ℤ◌}

pub record Cipher : Type 0 where
  pub name : String
  pub protocol : String

-- The settings of an SSL context that the policy reads or writes. The cipher string and the class of
-- the sockets are those that it sets.
pub record TlsContext : Type 0 where
  pub cert_required : Bool
  pub check_hostname : Bool
  pub minimum_version : ℤ
  pub security_level : ℕ
  pub ciphers : List Cipher
  pub cipher_string : Option String
  pub verified_sockets : Bool

-- ssl.TLSVersion.TLSv1_2
abbrev pub tls_1_2 : ℤ
tls_1_2 = pos 771

abbrev pub max_ℤ : ℤ → ℤ → ℤ
max_ℤ a b = if leb_ℤ b a then a else b

-- `":".join([*selected, last])`
abbrev pub joined : List Cipher → String → String
joined [] last = last
joined (c ∷ cs) last = c.name <> ":" <> joined cs last

abbrev pub selected : List Cipher → List Cipher
selected ciphers = keep (λ c. not (str_eq c.protocol "TLSv1.3")) ciphers

abbrev pub cipher_setting : TlsContext → Option String
cipher_setting context =
    if ltb context.security_level 2
    then some (joined (selected context.ciphers) "@SECLEVEL=2")
    else context.cipher_string

-- `enforce_peer_key_policy`; `none` is ValueError.
unfoldable pub enforce_peer_key_policy : TlsContext → Option TlsContext
enforce_peer_key_policy context =
    if context.cert_required && context.check_hostname
    then some (record context {
      minimum_version = max_ℤ context.minimum_version tls_1_2;
      cipher_string = cipher_setting context;
      verified_sockets = true;
    })
    else none

-- Both contexts verify certificates and hostnames, TLS 1.2 is the least version and no lower one than
-- before is allowed, the sockets check the keys, and a level below 2 is raised by the cipher string.
pub record IsHardened (before after : TlsContext) : Type 0 where
  pub certificates : (before.cert_required ≡ true) × (after.cert_required ≡ true)
  pub hostnames : (before.check_hostname ≡ true) × (after.check_hostname ≡ true)
  pub at_least : tls_1_2 ≤ℤ after.minimum_version
  pub no_lower : before.minimum_version ≤ℤ after.minimum_version
  pub tight : (after.minimum_version ≡ tls_1_2) ⊎ (after.minimum_version ≡ before.minimum_version)
  pub sockets : after.verified_sockets ≡ true
  pub ciphers :
      ((before.security_level ≤ 1)
        × (after.cipher_string ≡ some (joined (selected before.ciphers) "@SECLEVEL=2")))
      ⊎ ((2 ≤ before.security_level) × (after.cipher_string ≡ before.cipher_string))

-- A context is refused exactly if it does not verify, and hardened otherwise.
abbrev pub IsEnforced : TlsContext → Option TlsContext → Type 0
IsEnforced before none = (before.cert_required ≡ false) ⊎ (before.check_hostname ≡ false)
IsEnforced before (some after) = IsHardened before after

-- The policy refuses exactly the contexts that do not verify certificates and hostnames; in any other
-- the least version becomes the greater of TLS 1.2 and what it was, the sockets check the peer's keys,
-- and a security level below 2 is raised by the cipher string over the selected ciphers.
pub enforce-IsEnforced :
    (context : TlsContext) → IsEnforced context (enforce_peer_key_policy context)
unfolding enforce_peer_key_policy
enforce-IsEnforced context = by_tests context.cert_required context.check_hostname refl refl
  where
    by_tests :
        (a b : Bool)
        → context.cert_required ≡ a
        → context.check_hostname ≡ b
        → IsEnforced context (
            if a && b
            then some (record context {
              minimum_version = max_ℤ context.minimum_version tls_1_2;
              cipher_string = cipher_setting context;
              verified_sockets = true;
            })
            else none)
    by_tests false b e f = inl e
    by_tests true false e f = inr f
    by_tests true true e f = record {
      certificates = (e, e);
      hostnames = (f, f);
      at_least = ground arith;
      no_lower = ground arith;
      tight = ground arith;
      sockets = refl;
      ciphers = ground arith;
    }
