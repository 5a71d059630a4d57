-- ===== src/Identity/Signing.antt =====
-- crates/core/src/identity.rs: what `try_sign` signs verifies under `public`.
use novachannel.Common.{◌≡◌, refl, ap, true, ◌⊎◌, inl, inr, some, Option-cases, ok, err, Bytes}
use novachannel.Common.Fallible.{ok_or}
use novachannel.Errors.{signing_backend}
use novachannel.Crypto.{Signatures, IsSignatures}
use novachannel.Identity.{
  HybridSignature, Identity, Ed25519Source, MlDsaSource, ed25519_sign, ml_dsa_sign, ed25519_key,
  ml_dsa_key, try_sign, public, verify,
}

module _ (s : Signatures) where
  -- An external signer signs under the key that it names, when it answers.
  abbrev pub Conforms25519 : Ed25519Source → Type 0
  Conforms25519 (Ed25519Source.in_process sk) = Unit
  Conforms25519 (Ed25519Source.backend b) =
      (message g : Bytes)
      → b.sign message ≡ some g
      → s.ed25519.verify b.verifying_key message g ≡ true

  abbrev pub ConformsMlDsa : MlDsaSource → Type 0
  ConformsMlDsa (MlDsaSource.in_process sk) = Unit
  ConformsMlDsa (MlDsaSource.backend b) =
      (message g : Bytes)
      → b.sign message ≡ some g
      → s.ml_dsa.verify b.verifying_key message g ≡ true

  pub record Conforms (i : Identity) : Type 0 where
    pub ed25519 : Conforms25519 i.ed25519
    pub ml_dsa : ConformsMlDsa i.ml_dsa

  module _ (law : IsSignatures s) where
    ed25519_sign-verifies :
        (source : Ed25519Source) (message : Bytes)
        → Conforms25519 source
        → ((g : Bytes) × (ed25519_sign s source message ≡ ok g)
            × (s.ed25519.verify (ed25519_key s source) message g ≡ true))
          ⊎ (ed25519_sign s source message ≡ err signing_backend)
    unfolding ed25519_sign ed25519_key
    ed25519_sign-verifies (Ed25519Source.in_process sk) message h =
        inl (s.ed25519.sign sk message, refl, law.ed25519.verifies sk message)
    ed25519_sign-verifies (Ed25519Source.backend b) message h =
        elim (Option-cases (b.sign message)) [
          | inl failed ↦ inr (ap (ok_or signing_backend) failed)
          | inr (g, signed) ↦ inl (g, ap (ok_or signing_backend) signed, h message g signed)
        ]

    ml_dsa_sign-verifies :
        (source : MlDsaSource) (message : Bytes)
        → ConformsMlDsa source
        → ((g : Bytes) × (ml_dsa_sign s source message ≡ ok g)
            × (s.ml_dsa.verify (ml_dsa_key s source) message g ≡ true))
          ⊎ (ml_dsa_sign s source message ≡ err signing_backend)
    unfolding ml_dsa_sign ml_dsa_key
    ml_dsa_sign-verifies (MlDsaSource.in_process sk) message h =
        inl (s.ml_dsa.sign sk message, refl, law.ml_dsa.verifies sk message)
    ml_dsa_sign-verifies (MlDsaSource.backend b) message h = elim (Option-cases (b.sign message)) [
      | inl failed ↦ inr (ap (ok_or signing_backend) failed)
      | inr (g, signed) ↦ inl (g, ap (ok_or signing_backend) signed, h message g signed)
    ]

    -- A signature that try_sign returns verifies under the public identity of the signer, and
    -- try_sign fails only with the error of the signing backend; for schemes whose signatures
    -- verify, and for external signers that sign under the key that they name.
    pub try_sign-verify :
        (i : Identity) (message : Bytes)
        → Conforms i
        → ((g : HybridSignature) × (try_sign s i message ≡ ok g)
            × (verify s (public s i) message g ≡ ok tt))
          ⊎ (try_sign s i message ≡ err signing_backend)
    unfolding try_sign verify public
    try_sign-verify i message h = elim (ed25519_sign-verifies i.ed25519 message h.ed25519) [
      | inr failed ↦ inr (rw failed refl)
      | inl (e, signed, good) ↦ elim (ml_dsa_sign-verifies i.ml_dsa message h.ml_dsa) [
        | inr failed ↦ inr (rw (signed, failed) refl)
        | inl (d, signed', good') ↦
            inl
              (record { ed25519 = e; ml_dsa = d }, rw (signed, signed') refl, rw (good, good') refl)
      ]
    ]
