-- ===== src/Group/Sealing.antt =====
-- crates/core/src/group.rs: sealing a payload to the key of a node, and the key pair of a path secret.
use novachannel.Common.{ℕ, Result, ok, ◌++◌, Bytes, replicate, take, drop, ascii, ◌>>=◌, pure, lift}
use novachannel.Common.Fallible.{then_else, ok_or}
use novachannel.Errors.{Error, Call, malformed, decrypt}
use novachannel.Crypto.{Primitives, Kdf}
use novachannel.Kex.{Draw, checked_dh, x25519_public_from_bytes, ml_kem_ciphertext_from_bytes}
use novachannel.Wire.{Writer, Reader, put_fixed, put_var, get_fixed, get_var}
use novachannel.Group.Keys.{NodePublicKey}

unfoldable pub label_node_keygen : Bytes
unfolding ascii
label_node_keygen = ascii "novachannel group v1 node keygen"

unfoldable pub label_path_step : Bytes
unfolding ascii
label_path_step = ascii "novachannel group v1 path secret step"

unfoldable pub label_seal_key : Bytes
unfolding ascii
label_seal_key = ascii "novachannel group v1 seal key"

pub record SealedToNode : Type 0 where
  pub eph_dh_public : Bytes
  pub kem_ct : Bytes
  pub ciphertext : Bytes

unfoldable pub write_sealed : SealedToNode → Writer → Writer
write_sealed s w = put_var (put_var (put_fixed w s.eph_dh_public) s.kem_ct) s.ciphertext

-- The key pair of a node.
pub record NodeKeypair : Type 0 where
  pub dh_secret : Bytes
  pub dh_public : Bytes
  pub kem_secret : Bytes
  pub kem_public : Bytes

abbrev pub keypair_public : NodeKeypair → NodePublicKey
keypair_public k = record { dh_public = k.dh_public; kem_public = k.kem_public }

-- `extract`, `from_prk` and `expand`, with their error values.
unfoldable pub hkdf : Kdf → (salt ikm info : Bytes) → ℕ → Result Error Bytes
hkdf kdf salt ikm info len =
    then_else (ok_or (malformed "HKDF PRK too short") (kdf.from_prk (kdf.extract salt ikm)))
      (λ hk. ok_or (malformed "HKDF expand failed") (kdf.expand hk info len))

-- No salt is as many zero bytes as the hash is long.
abbrev pub no_salt : Bytes
no_salt = replicate 32 0

module _ (prim : Primitives) where
  unfoldable pub read_sealed : Call Reader SealedToNode
  read_sealed = do
    dh_bytes ← get_fixed 32
    eph_dh_public ← lift (x25519_public_from_bytes dh_bytes)
    kem_bytes ← get_var
    kem_ct ← lift (ml_kem_ciphertext_from_bytes prim.exchange kem_bytes)
    ciphertext ← get_var
    pure (record { eph_dh_public = eph_dh_public; kem_ct = kem_ct; ciphertext = ciphertext })

  unfoldable pub derive_seal_key : (dh kem_ss : Bytes) → Result Error Bytes
  derive_seal_key dh kem_ss = hkdf prim.kdf no_salt (dh ++ kem_ss) label_seal_key 32

  unfoldable pub aead_seal : (key aad plaintext : Bytes) → Result Error Bytes
  aead_seal key aad plaintext = ok_or decrypt (prim.aead.encrypt key (replicate 12 0) aad plaintext)

  unfoldable pub aead_seal_open : (key aad sealed : Bytes) → Result Error Bytes
  aead_seal_open key aad sealed = ok_or decrypt (prim.aead.decrypt key (replicate 12 0) aad sealed)

  unfoldable pub seal_to_node :
      Draw → NodePublicKey → (aad plaintext : Bytes) → Result Error SealedToNode
  seal_to_node drawn target aad plaintext =
      then_else
        (checked_dh prim.exchange (prim.exchange.diffie_hellman drawn.secret target.dh_public))
        (λ dh.
          let (kem_ct, kem_ss) = prim.exchange.encapsulate target.kem_public drawn.seed in
          then_else (derive_seal_key dh kem_ss) (λ key.
            then_else (aead_seal key aad plaintext) (λ ciphertext. ok (record {
              eph_dh_public = prim.exchange.x25519_public drawn.secret;
              kem_ct = kem_ct;
              ciphertext = ciphertext;
            }))))

  unfoldable pub open_from_node :
      (dh_secret kem_secret aad : Bytes) → SealedToNode → Result Error Bytes
  open_from_node dh_secret kem_secret aad sealed =
      then_else
        (checked_dh prim.exchange (prim.exchange.diffie_hellman dh_secret sealed.eph_dh_public))
        (λ dh.
          then_else (derive_seal_key dh (prim.exchange.decapsulate kem_secret sealed.kem_ct))
            (λ key. aead_seal_open key aad sealed.ciphertext))

  -- 32 bytes of the expansion for X25519, 64 for the seed of ML-KEM.
  unfoldable pub derive_node_keypair : Bytes → Result Error NodeKeypair
  derive_node_keypair secret =
      then_else (hkdf prim.kdf no_salt secret label_node_keygen 96) (λ seed_bytes.
        let dh_secret = take 32 seed_bytes in
        let (kem_secret, kem_public) = prim.exchange.ml_kem_keypair (drop 32 seed_bytes) in
        ok (record {
          dh_secret = dh_secret;
          dh_public = prim.exchange.x25519_public dh_secret;
          kem_secret = kem_secret;
          kem_public = kem_public;
        }))

  unfoldable pub hkdf_expand32 : (secret label : Bytes) → Result Error Bytes
  hkdf_expand32 secret label = hkdf prim.kdf no_salt secret label 32
