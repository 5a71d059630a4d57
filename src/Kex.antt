-- ===== src/Kex.antt =====
-- crates/core/src/kex.rs: the hybrid key exchange, X25519 beside ML-KEM. The random number generator
-- (crates/core/src/rng.rs) is a source of seeds: what it draws is an argument. Secrets that are wiped
-- when dropped are plain byte strings.
pub mod Agreement
mod Tests
use novachannel.Common.{
  ℕ, Bool, Option, none, some, ◌++◌, Result, ok, err, panic, if◌then◌else◌, ◌==◌, length, Bytes,
}
pub use novachannel.Common.Fallible.{then_else}
use novachannel.Errors.{Error, malformed}
use novachannel.Crypto.{Exchange}

pub record InitiatorKex : Type 0 where
  pub x25519_secret : Bytes
  pub x25519_public : Bytes
  pub ml_kem_public : Bytes
  pub ml_kem_secret : Bytes

pub record ResponderKex : Type 0 where
  pub x25519_public : Bytes
  pub ml_kem_ciphertext : Bytes
  pub shared_secret : Bytes

-- The two draws of a key exchange: an X25519 secret, and the seed of the ML-KEM half.
pub record Draw : Type 0 where
  pub secret : Bytes
  pub seed : Bytes

abbrev pub option_or : {A : Type 0} → Error → Option A → Result Error A
option_or e none = err e
option_or e (some a) = ok a

unfoldable pub x25519_public_from_bytes : Bytes → Result Error Bytes
x25519_public_from_bytes bytes =
    if length bytes == 32 then ok bytes else err (malformed "invalid x25519 public key length")

module _ (x : Exchange) where
  unfoldable pub checked_dh : Bytes → Result Error Bytes
  checked_dh shared =
      if x.was_contributory shared
      then ok shared
      else err (
          malformed "peer's X25519 public key has small order: the exchange contributed no entropy")

  unfoldable pub ml_kem_public_from_bytes : Bytes → Result Error Bytes
  ml_kem_public_from_bytes bytes =
      option_or (malformed "invalid ML-KEM public key") (x.ml_kem_public bytes)

  unfoldable pub ml_kem_ciphertext_from_bytes : Bytes → Result Error Bytes
  ml_kem_ciphertext_from_bytes bytes =
      option_or (malformed "invalid ML-KEM ciphertext") (x.ml_kem_ciphertext bytes)

  unfoldable pub generate : Draw → InitiatorKex
  generate drawn = record {
    x25519_secret = drawn.secret;
    x25519_public = x.x25519_public drawn.secret;
    ml_kem_public = (x.ml_kem_keypair drawn.seed).1;
    ml_kem_secret = (x.ml_kem_keypair drawn.seed).0;
  }

  unfoldable pub finish : InitiatorKex → Bytes → Bytes → Result Error Bytes
  finish kex responder_x25519_public ml_kem_ciphertext =
      then_else (checked_dh (x.diffie_hellman kex.x25519_secret responder_x25519_public))
        (λ dh. ok (dh ++ x.decapsulate kex.ml_kem_secret ml_kem_ciphertext))

  unfoldable pub responder_exchange : Draw → Bytes → Bytes → Result Error ResponderKex
  responder_exchange drawn initiator_x25519_public initiator_ml_kem_public =
      then_else (checked_dh (x.diffie_hellman drawn.secret initiator_x25519_public)) (λ dh.
        let (ciphertext, ss) = x.encapsulate initiator_ml_kem_public drawn.seed in
        ok (record {
          x25519_public = x.x25519_public drawn.secret;
          ml_kem_ciphertext = ciphertext;
          shared_secret = dh ++ ss;
        }))
