-- ===== src/Identity/Tests.antt =====
-- crates/core/src/identity.rs: an identity in process, and one behind a signer that fails.
use novachannel.Common.{◌≡◌, ◌⊎◌, refl, none, [], ◌∷◌, ok, err, panic}
use novachannel.Errors.{signing_backend}
use novachannel.Crypto.Signing.{toy_signatures, toy-IsSignatures}
use novachannel.Identity.{
  HybridSignature, Identity, Ed25519Source, MlDsaSource, ed25519_sign, public, try_sign, sign,
  verify,
}
use novachannel.Identity.Signing.{try_sign-verify}

abbrev in_process : Identity
in_process = record {
  ed25519 = Ed25519Source.in_process (1 ∷ []);
  ml_dsa = MlDsaSource.in_process (2 ∷ []);
}

abbrev failing : Identity
failing = record {
  ed25519 = Ed25519Source.backend (record { verifying_key = []; sign = λ message. none });
  ml_dsa = MlDsaSource.in_process (2 ∷ []);
}

try_sign-verify_example :
    ((g : HybridSignature) × (try_sign toy_signatures in_process (7 ∷ []) ≡ ok g)
      × (verify toy_signatures (public toy_signatures in_process) (7 ∷ []) g ≡ ok tt))
    ⊎ (try_sign toy_signatures in_process (7 ∷ []) ≡ err signing_backend)
try_sign-verify_example =
    try_sign-verify toy_signatures toy-IsSignatures in_process (7 ∷ [])
      (record { ed25519 = tt; ml_dsa = tt })

failing_run : try_sign toy_signatures failing (7 ∷ []) ≡ err signing_backend
unfolding try_sign ed25519_sign
failing_run = refl

failing_sign_run : sign toy_signatures failing (7 ∷ []) ≡ panic
unfolding sign try_sign ed25519_sign
failing_sign_run = refl
