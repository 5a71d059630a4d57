-- ===== src/Identity.antt =====
-- crates/core/src/identity.rs: hybrid signing identities. A key or a signature is the byte string that its
-- crate writes for it; the key that `generate` draws is an argument.
pub mod Codec
pub mod Signing
mod Tests
use novachannel.Common.{
  Bool, true, false, ◌&&◌, Option, none, some, Result, ok, err, panic, if◌then◌else◌, Bytes,
  bytes_eq, ◌>>=◌, ◌>>◌, pure, lift,
}
use novachannel.Common.Fallible.{then_else, ensure, ok_or}
use novachannel.Errors.{Error, Call, malformed, bad_signature, signing_backend}
use novachannel.Crypto.{Signatures}
use novachannel.Wire.{Writer, Reader, put_fixed, put_var, get_fixed, get_var}

pub record PublicIdentity : Type 0 where
  pub ed25519 : Bytes
  pub ml_dsa : Bytes

pub record HybridSignature : Type 0 where
  pub ed25519 : Bytes
  pub ml_dsa : Bytes

-- `PartialEq`.
unfoldable pub identity_eq : PublicIdentity → PublicIdentity → Bool
identity_eq i j = bytes_eq i.ed25519 j.ed25519 && bytes_eq i.ml_dsa j.ml_dsa

unfoldable pub write_identity : PublicIdentity → Writer → Writer
write_identity i w = put_var (put_fixed w i.ed25519) i.ml_dsa

unfoldable pub write_signature : HybridSignature → Writer → Writer
write_signature g w = put_var (put_fixed w g.ed25519) g.ml_dsa

-- An external signer: its answer to a message, or none if the call fails.
pub record Ed25519SigningBackend : Type 0 where
  pub verifying_key : Bytes
  pub sign : Bytes → Option Bytes

pub record MlDsaSigningBackend : Type 0 where
  pub verifying_key : Bytes
  pub sign : Bytes → Option Bytes

pub data Ed25519Source : Type 0 where
  in_process : Bytes → Ed25519Source
  backend : Ed25519SigningBackend → Ed25519Source

pub data MlDsaSource : Type 0 where
  in_process : Bytes → MlDsaSource
  backend : MlDsaSigningBackend → MlDsaSource

pub record Identity : Type 0 where
  pub ed25519 : Ed25519Source
  pub ml_dsa : MlDsaSource

unfoldable pub generate : Bytes → Bytes → Identity
generate ed25519 ml_dsa = record {
  ed25519 = Ed25519Source.in_process ed25519;
  ml_dsa = MlDsaSource.in_process ml_dsa;
}

unfoldable pub from_backends : Ed25519SigningBackend → MlDsaSigningBackend → Identity
from_backends ed25519 ml_dsa = record {
  ed25519 = Ed25519Source.backend ed25519;
  ml_dsa = MlDsaSource.backend ml_dsa;
}

module _ (s : Signatures) where
  unfoldable pub verify : PublicIdentity → Bytes → HybridSignature → Result Error (Unit {0})
  verify i message g =
      then_else (ensure (s.ed25519.verify i.ed25519 message g.ed25519) bad_signature)
        (λ _. ensure (s.ml_dsa.verify i.ml_dsa message g.ml_dsa) bad_signature)

  unfoldable pub read_identity : Call Reader PublicIdentity
  read_identity = do
    ed_bytes ← get_fixed 32
    ed25519 ← lift (ok_or (malformed "invalid ed25519 public key") (s.ed25519.read_key ed_bytes))
    ml_dsa_bytes ← get_var
    ml_dsa ← lift (ok_or (malformed "invalid ML-DSA public key") (s.ml_dsa.read_key ml_dsa_bytes))
    pure (record { ed25519 = ed25519; ml_dsa = ml_dsa })

  unfoldable pub read_signature : Call Reader HybridSignature
  read_signature = do
    ed_bytes ← get_fixed 64
    ed25519 ←
        lift (ok_or (malformed "invalid ed25519 signature") (s.ed25519.read_signature ed_bytes))
    ml_dsa_bytes ← get_var
    ml_dsa ←
        lift (ok_or (malformed "invalid ML-DSA signature") (s.ml_dsa.read_signature ml_dsa_bytes))
    pure (record { ed25519 = ed25519; ml_dsa = ml_dsa })

  unfoldable pub ed25519_key : Ed25519Source → Bytes
  ed25519_key (Ed25519Source.in_process sk) = s.ed25519.public sk
  ed25519_key (Ed25519Source.backend b) = b.verifying_key

  unfoldable pub ml_dsa_key : MlDsaSource → Bytes
  ml_dsa_key (MlDsaSource.in_process sk) = s.ml_dsa.public sk
  ml_dsa_key (MlDsaSource.backend b) = b.verifying_key

  unfoldable pub public : Identity → PublicIdentity
  public i = record { ed25519 = ed25519_key i.ed25519; ml_dsa = ml_dsa_key i.ml_dsa }

  unfoldable pub ed25519_sign : Ed25519Source → Bytes → Result Error Bytes
  ed25519_sign (Ed25519Source.in_process sk) message = ok (s.ed25519.sign sk message)
  ed25519_sign (Ed25519Source.backend b) message = ok_or signing_backend (b.sign message)

  unfoldable pub ml_dsa_sign : MlDsaSource → Bytes → Result Error Bytes
  ml_dsa_sign (MlDsaSource.in_process sk) message = ok (s.ml_dsa.sign sk message)
  ml_dsa_sign (MlDsaSource.backend b) message = ok_or signing_backend (b.sign message)

  unfoldable pub try_sign : Identity → Bytes → Result Error HybridSignature
  try_sign i message = then_else (ed25519_sign i.ed25519 message) (λ ed25519.
      then_else (ml_dsa_sign i.ml_dsa message)
        (λ ml_dsa. ok (record { ed25519 = ed25519; ml_dsa = ml_dsa })))

  -- `expect`: a failing backend panics.
  unfoldable pub sign : Identity → Bytes → Result Error HybridSignature
  sign i message = elim (try_sign i message) [ ok g ↦ ok g | err e ↦ panic | panic ↦ panic ]
