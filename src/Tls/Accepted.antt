-- ===== src/Tls/Accepted.antt =====
-- Which handshakes src/mcp_venus_os/tls_policy.py lets through.
use mcp_venus_os.Prelude.{
  true, Option, none, some, List, [], ◌∷◌, ◌≤◌, ◌≢◌, All, ◌≡◌, ◌↔◌, refl, subst, arith,
}
use mcp_venus_os.Tls.{
  CertificateKey, rsa_key, ec_key, dsa_key, ed25519_key, ed448_key, other_key, TlsError, ssl_error,
  want_read, want_write, value_error, other_error, strong_certificate, Item, der_item, object_item,
  Chain, chain_list, no_list, Socket, key_result, certificate_error, decoded_error, item_error,
  or_else, items_error, chain_error, verified_chain, check_verified_keys, closing, do_handshake,
}

-- RSA of 2048 bits, an elliptic curve of 224, DSA of 2048 and 224, or an Edwards curve, at least.
abbrev pub IsStrong : CertificateKey → Type 0
IsStrong (rsa_key bits) = 2048 ≤ bits
IsStrong (ec_key size) = 224 ≤ size
IsStrong (dsa_key p q) = (2048 ≤ p) × (224 ≤ q)
IsStrong ed25519_key = Unit
IsStrong ed448_key = Unit
IsStrong other_key = ⊥

IsStrong-iff : (k : CertificateKey) → (strong_certificate k ≡ true) ↔ IsStrong k
IsStrong-iff (rsa_key bits) = ground arith
IsStrong-iff (ec_key size) = ground arith
IsStrong-iff (dsa_key p q) = ground arith
IsStrong-iff ed25519_key = (λ h. tt, λ h. refl)
IsStrong-iff ed448_key = (λ h. tt, λ h. refl)
IsStrong-iff other_key = (λ h. absurd (ground arith), λ h. absurd h)

module _ (Der Pem : Type 0) (public_key_of : Der → Option CertificateKey)
    (der_of_pem : Pem → Option Der) where
  -- A certificate with a strong public key.
  abbrev pub IsAccepted : Der → Type 0
  IsAccepted der = (key : CertificateKey) × (public_key_of der ≡ some key) × IsStrong key

  -- Bytes of such a certificate, or an object whose text decodes to them.
  abbrev pub IsAcceptedItem : Item Der Pem → Type 0
  IsAcceptedItem (der_item der) = IsAccepted der
  IsAcceptedItem (object_item none) = ⊥
  IsAcceptedItem (object_item (some pem)) =
      (der : Der) × (der_of_pem pem ≡ some der) × IsAccepted der

  -- The peer has a chain that is not empty, and each of its certificates is accepted.
  abbrev pub HasAcceptedChain : Socket Der Pem → Type 0
  HasAcceptedChain s =
      (item : Item Der Pem) × (items : List (Item Der Pem)) × (verified_chain Der Pem public_key_of
          der_of_pem s
        ≡ some (chain_list (item ∷ items)))
      × All IsAcceptedItem (item ∷ items)

  abbrev PassesCertificate : Der → Type 0
  PassesCertificate der = certificate_error Der Pem public_key_of der_of_pem der ≡ none

  key_iff :
      (o : Option CertificateKey)
      → (key_result Der Pem public_key_of der_of_pem o ≡ none)
        ↔ ((key : CertificateKey) × (o ≡ some key) × IsStrong key)
  key_iff none = (λ h. absurd (cc h), λ (key, e, s). absurd (cc e))
  key_iff (some key) = (
    λ h. (key, refl, (IsStrong-iff key).0 (ground arith)),
    λ (key', e, s).
        let same : key' ≡ key = cc e in
        let strong = (IsStrong-iff key).1 (subst IsStrong same s) in ground arith,
  )

  certificate_iff : (der : Der) → PassesCertificate der ↔ IsAccepted der
  unfolding certificate_error
  certificate_iff der = key_iff (public_key_of der)

  decoded_iff :
      (o : Option Der)
      → (decoded_error Der Pem public_key_of der_of_pem o ≡ none)
        ↔ ((der : Der) × (o ≡ some der) × IsAccepted der)
  decoded_iff none = (λ h. absurd (cc h), λ (der, e, s). absurd (cc e))
  decoded_iff (some der) = (
    λ h. (der, refl, (certificate_iff der).0 h),
    λ (der', e, s). (certificate_iff der).1 (subst IsAccepted (cc e) s),
  )

  item_iff :
      (item : Item Der Pem)
      → (item_error Der Pem public_key_of der_of_pem item ≡ none) ↔ IsAcceptedItem item
  unfolding item_error
  item_iff (der_item der) = certificate_iff der
  item_iff (object_item none) = (λ h. absurd (cc h), λ h. absurd h)
  item_iff (object_item (some pem)) = decoded_iff (der_of_pem pem)

  or_else_iff :
      (a b : Option TlsError)
      → (or_else Der Pem public_key_of der_of_pem a b ≡ none) ↔ ((a ≡ none) × (b ≡ none))
  or_else_iff none b = (λ h. (refl, h), λ (e, h). h)
  or_else_iff (some x) b = (λ h. absurd (cc h), λ (e, h). absurd (cc e))

  items_iff :
      (items : List (Item Der Pem))
      → (items_error Der Pem public_key_of der_of_pem items ≡ none) ↔ All IsAcceptedItem items
  items_iff [] = (λ h. tt, λ h. refl)
  items_iff (item ∷ items) = (
    λ h. let (a, b) = (or_else_iff _ _).0 h in ((item_iff item).0 a, (items_iff items).0 b),
    λ (a, b). (or_else_iff _ _).1 ((item_iff item).1 a, (items_iff items).1 b),
  )

  chain_iff :
      (c : Option (Chain Der Pem))
      → (chain_error Der Pem public_key_of der_of_pem c ≡ none) ↔ (
          (item : Item Der Pem) × (items : List (Item Der Pem)) × (c
            ≡ some (chain_list (item ∷ items)))
          × All IsAcceptedItem (item ∷ items))
  chain_iff none = (λ h. absurd (cc h), λ (item, items, e, a). absurd (cc e))
  chain_iff (some no_list) = (λ h. absurd (cc h), λ (item, items, e, a). absurd (cc e))
  chain_iff (some (chain_list [])) = (λ h. absurd (cc h), λ (item, items, e, a). absurd (cc e))
  chain_iff (some (chain_list (item ∷ items))) = (
    λ h. (item, items, refl, (items_iff (item ∷ items)).0 h),
    λ (item', items', e, a).
        let same : item' ∷ items' ≡ item ∷ items = cc e in
        (items_iff (item ∷ items)).1 (subst (All IsAcceptedItem) same a),
  )

  check_iff :
      (s : Socket Der Pem)
      → (check_verified_keys Der Pem public_key_of der_of_pem s ≡ none) ↔ HasAcceptedChain s
  unfolding check_verified_keys
  check_iff s = chain_iff (verified_chain Der Pem public_key_of der_of_pem s)

  closing-none :
      (o : Option TlsError) → ((closing Der Pem public_key_of der_of_pem o).0 ≡ none) ↔ (o ≡ none)
  closing-none none = (λ h. refl, λ h. refl)
  closing-none (some e) = (λ h. absurd (cc h), λ h. absurd (cc h))

  closing-shut :
      (o : Option TlsError)
      → ((closing Der Pem public_key_of der_of_pem o).1 ≡ true) ↔ (
          (e : TlsError) × ((closing Der Pem public_key_of der_of_pem o).0 ≡ some e)
          × (e ≢ want_read)
          × (e ≢ want_write))
  closing-shut none = (λ h. absurd (cc h), λ (e, h, a, b). absurd (cc h))
  closing-shut (some (ssl_error t)) =
      (λ h. (ssl_error t, refl, λ q. absurd (cc q), λ q. absurd (cc q)), λ h. refl)
  closing-shut (some want_read) = (λ h. absurd (cc h), λ (e, h, a, b). absurd (a (cc h)))
  closing-shut (some want_write) = (λ h. absurd (cc h), λ (e, h, a, b). absurd (b (cc h)))
  closing-shut (some value_error) =
      (λ h. (value_error, refl, λ q. absurd (cc q), λ q. absurd (cc q)), λ h. refl)
  closing-shut (some other_error) =
      (λ h. (other_error, refl, λ q. absurd (cc q), λ q. absurd (cc q)), λ h. refl)

  -- A handshake succeeds exactly if that of the base class does and the peer has a verified chain that
  -- is not empty, each of whose certificates has a key of RSA with 2048 bits, an elliptic curve with
  -- 224, DSA with 2048 and 224, Ed25519 or Ed448 at least; and the socket is closed exactly if it
  -- fails with anything else than that it wants to read or to write.
  pub do_handshake_iff :
      (s : Socket Der Pem)
      → (((do_handshake Der Pem public_key_of der_of_pem s).0 ≡ none)
          ↔ ((s.handshake_raises ≡ none) × HasAcceptedChain s))
        × (((do_handshake Der Pem public_key_of der_of_pem s).1 ≡ true) ↔ (
            (e : TlsError) × ((do_handshake Der Pem public_key_of der_of_pem s).0 ≡ some e)
            × (e ≢ want_read)
            × (e ≢ want_write)))
  unfolding do_handshake
  do_handshake_iff s =
      let check = check_verified_keys Der Pem public_key_of der_of_pem s in
      let both = or_else Der Pem public_key_of der_of_pem s.handshake_raises check in
      (
        (
          λ h.
              let (a, b) = (or_else_iff s.handshake_raises check).0 ((closing-none both).0 h) in
              (a, (check_iff s).0 b),
          λ (a, b).
              (closing-none both).1
                ((or_else_iff s.handshake_raises check).1 (a, (check_iff s).1 b)),
        ),
        closing-shut both,
      )
