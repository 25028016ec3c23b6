-- ===== src/Tls/Tests.antt =====
-- Two chains of a broker at src/mcp_venus_os/tls_policy.py, and the theorems at them.
use mcp_venus_os.Prelude.{◌≡◌, ◌↔◌, ◌≢◌, refl, true, false, Option, none, some, List, [], ◌∷◌}
use mcp_venus_os.Tls.{
  CertificateKey, rsa_key, ec_key, TlsError, ssl_error, want_read, want_write, Item, der_item,
  object_item, chain_list, Socket, certificate_error, item_error, check_verified_keys, do_handshake,
}
use mcp_venus_os.Tls.Accepted.{HasAcceptedChain, do_handshake_iff}
use mcp_venus_os.Prelude.Int.{pos}
use mcp_venus_os.Tls.Context.{TlsContext, enforce_peer_key_policy, IsEnforced, enforce-IsEnforced}

-- Certificates are their keys, and texts decode to them.
abbrev key_of : CertificateKey → Option CertificateKey
key_of key = some key

abbrev socket : List (Item CertificateKey CertificateKey) → Socket CertificateKey CertificateKey
socket items = record {
  own_chain = none;
  inner_chain = some (chain_list items);
  handshake_raises = none;
}

abbrev good : Socket CertificateKey CertificateKey
good = socket (der_item (ec_key 256) ∷ object_item (some (rsa_key 4096)) ∷ [])

whole_handshake : Unit {0}
unfolding do_handshake check_verified_keys item_error certificate_error
whole_handshake = tt

good_lem : do_handshake CertificateKey CertificateKey key_of key_of good ≡ (none, false)
unfolding whole_handshake
good_lem = refl

weak_lem :
    do_handshake CertificateKey CertificateKey key_of key_of
      (socket (der_item (ec_key 256) ∷ der_item (rsa_key 1024) ∷ []))
    ≡ (some (ssl_error "TLS certificate key is below the supported security minimum"), true)
unfolding whole_handshake
weak_lem = refl

do_handshake_iff_example :
    (((do_handshake CertificateKey CertificateKey key_of key_of good).0 ≡ none) ↔ (
      (good.handshake_raises ≡ none)
      × HasAcceptedChain CertificateKey CertificateKey key_of key_of good))
    × (((do_handshake CertificateKey CertificateKey key_of key_of good).1 ≡ true) ↔ (
        (e : TlsError) × ((do_handshake CertificateKey CertificateKey key_of key_of good).0
          ≡ some e)
        × (e ≢ want_read)
        × (e ≢ want_write)))
do_handshake_iff_example = do_handshake_iff CertificateKey CertificateKey key_of key_of good

-- A client's default context below the level that the policy wants.
abbrev default_context : TlsContext
default_context = record {
  cert_required = true;
  check_hostname = true;
  minimum_version = pos 769;
  security_level = 1;
  ciphers =
      record { name = "TLS_AES_256_GCM_SHA384"; protocol = "TLSv1.3" }
      ∷ record { name = "ECDHE-RSA-AES256-GCM-SHA384"; protocol = "TLSv1.2" }
      ∷ [];
  cipher_string = none;
  verified_sockets = false;
}

hardened_lem :
    enforce_peer_key_policy default_context
    ≡ some (record default_context {
      minimum_version = pos 771;
      cipher_string = some "ECDHE-RSA-AES256-GCM-SHA384:@SECLEVEL=2";
      verified_sockets = true;
    })
unfolding enforce_peer_key_policy
hardened_lem = refl

enforce-IsEnforced_example : IsEnforced default_context (enforce_peer_key_policy default_context)
enforce-IsEnforced_example = enforce-IsEnforced default_context
