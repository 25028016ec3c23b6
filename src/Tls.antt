-- ===== src/Tls.antt =====
-- src/mcp_venus_os/tls_policy.py: which keys of a broker's certificates are accepted. The certificates and
-- their decoding are parameters of the model: `Der` and `Pem` are the two encodings, `public_key_of`
-- gives none where it raises ValueError or UnsupportedAlgorithm, and `der_of_pem` where it raises
-- ValueError.
pub mod Accepted
pub mod Context
pub mod Tests
use mcp_venus_os.Prelude.{
  ℕ, String, Bool, true, false, ◌&&◌, Option, none, some, List, [], ◌∷◌, leb, if◌then◌else◌,
}

-- The classes of public keys, with their sizes in bits.
pub data CertificateKey : Type 0 where
  rsa_key : ℕ → CertificateKey
  ec_key : ℕ → CertificateKey
  dsa_key : ℕ → ℕ → CertificateKey
  ed25519_key ed448_key : CertificateKey
  other_key : CertificateKey

-- What a handshake raises.
pub data TlsError : Type 0 where
  ssl_error : String → TlsError
  want_read want_write : TlsError
  value_error : TlsError
  other_error : TlsError

abbrev pub strong_certificate : CertificateKey → Bool
strong_certificate (rsa_key bits) = leb 2048 bits
strong_certificate (ec_key size) = leb 224 size
strong_certificate (dsa_key p q) = leb 2048 p && leb 224 q
strong_certificate ed25519_key = true
strong_certificate ed448_key = true
strong_certificate other_key = false

-- An element of a chain: bytes, or an object whose `public_bytes` may give a text.
pub data Item (Der Pem : Type 0) : Type 0 where
  der_item : Der → Item Der Pem
  object_item : Option Pem → Item Der Pem

-- What `get_verified_chain` returns.
pub data Chain (Der Pem : Type 0) : Type 0 where
  chain_list : List (Item Der Pem) → Chain Der Pem
  no_list : Chain Der Pem

-- A socket, with the `get_verified_chain` of its own and that of its internal object, where they are
-- callable, and what the handshake of the base class raises.
pub record Socket (Der Pem : Type 0) : Type 0 where
  pub own_chain : Option (Chain Der Pem)
  pub inner_chain : Option (Chain Der Pem)
  pub handshake_raises : Option TlsError

module _ (Der Pem : Type 0) (public_key_of : Der → Option CertificateKey)
    (der_of_pem : Pem → Option Der) where
  abbrev pub key_result : Option CertificateKey → Option TlsError
  key_result none = some (ssl_error "TLS certificate uses an unsupported public key")
  key_result (some key) =
      if strong_certificate key
      then none
      else some (ssl_error "TLS certificate key is below the supported security minimum")

  -- `_certificate_key_ok` and the test of it: the error that is raised, if any.
  unfoldable pub certificate_error : Der → Option TlsError
  certificate_error der = key_result (public_key_of der)

  abbrev pub decoded_error : Option Der → Option TlsError
  decoded_error none = some value_error
  decoded_error (some der) = certificate_error der

  -- `_certificate_der`, and the check of its result.
  unfoldable pub item_error : Item Der Pem → Option TlsError
  item_error (der_item der) = certificate_error der
  item_error (object_item none) =
      some (ssl_error "TLS runtime returned an unsupported certificate format")
  item_error (object_item (some pem)) = decoded_error (der_of_pem pem)

  abbrev pub or_else : Option TlsError → Option TlsError → Option TlsError
  or_else none rest = rest
  or_else (some e) rest = some e

  abbrev pub items_error : List (Item Der Pem) → Option TlsError
  items_error [] = none
  items_error (item ∷ items) = or_else (item_error item) (items_error items)

  abbrev pub chain_error : Option (Chain Der Pem) → Option TlsError
  chain_error none = some (ssl_error "TLS runtime does not expose its verified certificate chain")
  chain_error (some no_list) = some (ssl_error "TLS peer has no verified certificate chain")
  chain_error (some (chain_list [])) = some (ssl_error "TLS peer has no verified certificate chain")
  chain_error (some (chain_list (item ∷ items))) = items_error (item ∷ items)

  -- The chain of a socket: its own method stands before the internal one.
  abbrev pub verified_chain : Socket Der Pem → Option (Chain Der Pem)
  verified_chain s = elim s.own_chain [ none ↦ s.inner_chain | some chain ↦ some chain ]

  -- `_check_verified_keys`
  unfoldable pub check_verified_keys : Socket Der Pem → Option TlsError
  check_verified_keys s = chain_error (verified_chain s)

  abbrev pub is_pending : TlsError → Bool
  is_pending want_read = true
  is_pending want_write = true
  is_pending _ = false

  -- What is raised, and whether the socket is closed.
  abbrev pub closing : Option TlsError → Option TlsError × Bool
  closing none = (none, false)
  closing (some e) = (some e, if is_pending e then false else true)

  -- `do_handshake`
  unfoldable pub do_handshake : Socket Der Pem → Option TlsError × Bool
  do_handshake s = closing (or_else s.handshake_raises (check_verified_keys s))
