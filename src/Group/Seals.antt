-- ===== src/Group/Seals.antt =====
-- crates/core/src/group.rs: what is sealed to a node opens under the secrets of its key, and opens to
-- nothing else.
use novachannel.Common.{◌≡◌, refl, ap, ap₂, sym, ◌∙◌, ◌++◌, true, some, ok, arith, Bytes, replicate}
use novachannel.Common.Fallible.{then_else-eq-ok, ok_or, ok_or-eq-ok}
use novachannel.Errors.{decrypt}
use novachannel.Crypto.{Primitives, IsPrimitives, Aead}
use novachannel.Kex.{Draw, checked_dh}
use novachannel.Group.Keys.{NodePublicKey}
use novachannel.Group.Sealing.{
  SealedToNode, no_salt, label_seal_key, derive_seal_key, aead_seal, aead_seal_open, seal_to_node,
  open_from_node,
}
use novachannel.Group.Epoch.{hkdf-ok}

-- A ciphertext opens, under whatever key, to nothing but what was sealed.
pub record IsAuthentic (a : Aead) : Type 0 where
  pub opens_to :
      (key other nonce aad msg c m : Bytes)
      → a.encrypt key nonce aad msg ≡ some c
      → a.decrypt other nonce aad c ≡ some m
      → m ≡ msg

module _ (prim : Primitives) where
  -- The secrets of a public key.
  pub record IsKeypair (dh_secret secret : Bytes) (k : NodePublicKey) : Type 0 where
    pub dh : k.dh_public ≡ prim.exchange.x25519_public dh_secret
    pub seed : Bytes
    pub kem_secret : secret ≡ (prim.exchange.ml_kem_keypair seed).0
    pub kem_public : k.kem_public ≡ (prim.exchange.ml_kem_keypair seed).1

  -- The exchange with a key contributes to the secret.
  abbrev pub Contributes : Draw → NodePublicKey → Type 0
  Contributes drawn k =
      prim.exchange.was_contributory (prim.exchange.diffie_hellman drawn.secret k.dh_public) ≡ true

  -- The cipher seals every message.
  abbrev pub SealsAll : Type 0
  SealsAll =
      (key nonce aad msg : Bytes) → (c : Bytes) × (prim.aead.encrypt key nonce aad msg ≡ some c)

  module _ (law : IsPrimitives prim) where
    -- Sealing succeeds, and the owner of the key opens it.
    pub seal_to_node-ok :
        SealsAll
        → (drawn : Draw) (k : NodePublicKey) (aad plaintext : Bytes) → Contributes drawn k
        → (sealed : SealedToNode) × (seal_to_node prim drawn k aad plaintext ≡ ok sealed)
    unfolding seal_to_node checked_dh derive_seal_key aead_seal
    seal_to_node-ok seals drawn k aad plaintext contributes =
        let x = prim.exchange in
        let dh = x.diffie_hellman drawn.secret k.dh_public in
        let (ct, ss) = x.encapsulate k.kem_public drawn.seed in
        let (key, e, _) = hkdf-ok law.kdf no_salt (dh ++ ss) label_seal_key 32 (omega arith) in
        let (c, f) = seals key (replicate 12 0) aad plaintext in
        (
          record { eph_dh_public = x.x25519_public drawn.secret; kem_ct = ct; ciphertext = c },
          rw (contributes, e, f) refl,
        )

    -- The steps of a sealing that succeeded.
    record Sealed (drawn : Draw) (k : NodePublicKey) (aad plaintext : Bytes) (sealed : SealedToNode)
        : Type 0 where
      dh : Bytes
      checked :
          checked_dh prim.exchange (prim.exchange.diffie_hellman drawn.secret k.dh_public) ≡ ok dh
      key : Bytes
      derived :
          derive_seal_key prim dh (prim.exchange.encapsulate k.kem_public drawn.seed).1 ≡ ok key
      encrypted : prim.aead.encrypt key (replicate 12 0) aad plaintext ≡ some sealed.ciphertext
      eph : sealed.eph_dh_public ≡ prim.exchange.x25519_public drawn.secret
      kem_ct : sealed.kem_ct ≡ (prim.exchange.encapsulate k.kem_public drawn.seed).0

    seal_to_node-Sealed :
        (drawn : Draw) (k : NodePublicKey) (aad plaintext : Bytes) (sealed : SealedToNode)
        → seal_to_node prim drawn k aad plaintext ≡ ok sealed
        → Sealed drawn k aad plaintext sealed
    unfolding seal_to_node aead_seal
    seal_to_node-Sealed drawn k aad plaintext sealed done =
        let x = prim.exchange in
        let ss = (x.encapsulate k.kem_public drawn.seed).1 in
        let (dh, checked, done') =
          then_else-eq-ok (checked_dh x (x.diffie_hellman drawn.secret k.dh_public)) _ done in
        let (key, derived, done'') = then_else-eq-ok (derive_seal_key prim dh ss) _ done' in
        let (c, encrypted, made) =
          then_else-eq-ok (ok_or decrypt (prim.aead.encrypt key (replicate 12 0) aad plaintext)) _
            done'' in
        record {
          dh = dh;
          checked = checked;
          key = key;
          derived = derived;
          encrypted = ok_or-eq-ok decrypt _ encrypted ∙ cc made;
          eph = cc made;
          kem_ct = cc made;
        }

    pub open_from_node-seal_to_node :
        (drawn : Draw) (dh_secret kem_secret : Bytes) (k : NodePublicKey) (aad plaintext : Bytes)
        (sealed : SealedToNode)
        → IsKeypair dh_secret kem_secret k
        → seal_to_node prim drawn k aad plaintext ≡ ok sealed
        → open_from_node prim dh_secret kem_secret aad sealed ≡ ok plaintext
    unfolding open_from_node aead_seal_open
    open_from_node-seal_to_node drawn dh_secret kem_secret k aad plaintext sealed own done =
        let x = prim.exchange in
        let s = seal_to_node-Sealed drawn k aad plaintext sealed done in
        let same_dh : x.diffie_hellman dh_secret sealed.eph_dh_public
            ≡ x.diffie_hellman drawn.secret k.dh_public =
          ap (x.diffie_hellman dh_secret) s.eph
          ∙ law.exchange.commutes dh_secret drawn.secret
          ∙ ap (x.diffie_hellman drawn.secret) (sym own.dh) in
        let same_ss : x.decapsulate kem_secret sealed.kem_ct
            ≡ (x.encapsulate k.kem_public drawn.seed).1 =
          ap₂ x.decapsulate own.kem_secret
            (s.kem_ct ∙ ap (λ p. (x.encapsulate p drawn.seed).0) own.kem_public)
          ∙ law.exchange.decapsulates own.seed drawn.seed
          ∙ ap (λ p. (x.encapsulate p drawn.seed).1) (sym own.kem_public) in
        rw (same_dh, s.checked, same_ss, s.derived)
          (ap (ok_or decrypt)
            (law.aead.opens s.key (replicate 12 0) aad plaintext sealed.ciphertext s.encrypted))

    pub open_from_node-only :
        IsAuthentic prim.aead
        → (drawn : Draw) (dh_secret kem_secret : Bytes) (k : NodePublicKey)
          (aad plaintext m : Bytes) (sealed : SealedToNode)
        → seal_to_node prim drawn k aad plaintext ≡ ok sealed
        → open_from_node prim dh_secret kem_secret aad sealed ≡ ok m
        → m ≡ plaintext
    unfolding open_from_node aead_seal_open
    open_from_node-only authentic drawn dh_secret kem_secret k aad plaintext m sealed done opened =
        let s = seal_to_node-Sealed drawn k aad plaintext sealed done in
        let x = prim.exchange in
        let (dh, checked, opened') =
          then_else-eq-ok (checked_dh x (x.diffie_hellman dh_secret sealed.eph_dh_public)) _
            opened in
        let (key, derived, opened'') =
          then_else-eq-ok (derive_seal_key prim dh (x.decapsulate kem_secret sealed.kem_ct)) _
            opened' in
        authentic.opens_to s.key key (replicate 12 0) aad plaintext sealed.ciphertext m s.encrypted
          (ok_or-eq-ok decrypt _ opened'')
