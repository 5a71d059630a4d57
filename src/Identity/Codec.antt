-- ===== src/Identity/Codec.antt =====
-- crates/core/src/identity.rs: public identities and signatures are read back as they were written.
use novachannel.Common.{◌≡◌, ap, some, [], ◌++◌, arith, length, Bytes}
use novachannel.Common.Fallible.{ok_or}
use novachannel.Crypto.{Signatures}
use novachannel.Wire.Codec.{
  Writes, Reads, Writes-then, Reads-bind, Reads-end, Reads-lift, put_fixed-Writes, put_var-Writes,
  get_fixed-Reads, get_var-Reads, prefixed, Reads-pure,
}
use novachannel.Identity.{
  PublicIdentity, HybridSignature, write_identity, write_signature, read_identity, read_signature,
}

abbrev pub identity_bytes : PublicIdentity → Bytes
identity_bytes i = i.ed25519 ++ prefixed i.ml_dsa

abbrev pub signature_bytes : HybridSignature → Bytes
signature_bytes g = g.ed25519 ++ prefixed g.ml_dsa

pub write_identity-Writes : (i : PublicIdentity) → Writes (write_identity i) (identity_bytes i)
unfolding write_identity
write_identity-Writes i =
    Writes-then _ _ i.ed25519 (prefixed i.ml_dsa) (put_fixed-Writes i.ed25519)
      (put_var-Writes i.ml_dsa)

pub write_signature-Writes : (g : HybridSignature) → Writes (write_signature g) (signature_bytes g)
unfolding write_signature
write_signature-Writes g =
    Writes-then _ _ g.ed25519 (prefixed g.ml_dsa) (put_fixed-Writes g.ed25519)
      (put_var-Writes g.ml_dsa)

module _ (s : Signatures) where
  -- Both keys are keys that their crates have read or made.
  pub record IsReadable (i : PublicIdentity) : Type 0 where
    pub ed25519 : s.ed25519.read_key i.ed25519 ≡ some i.ed25519
    pub ed25519_length : length i.ed25519 ≡ 32
    pub ml_dsa : s.ml_dsa.read_key i.ml_dsa ≡ some i.ml_dsa
    pub ml_dsa_length : length i.ml_dsa ≡ 2592

  pub record IsSignature (g : HybridSignature) : Type 0 where
    pub ed25519 : s.ed25519.read_signature g.ed25519 ≡ some g.ed25519
    pub ed25519_length : length g.ed25519 ≡ 64
    pub ml_dsa : s.ml_dsa.read_signature g.ml_dsa ≡ some g.ml_dsa
    pub ml_dsa_length : length g.ml_dsa ≡ 4627

  pub read_identity-Reads :
      (i : PublicIdentity) → IsReadable i → Reads (read_identity s) (identity_bytes i) i
  unfolding read_identity
  read_identity-Reads i h =
      Reads-bind _ _ i.ed25519 (prefixed i.ml_dsa) i.ed25519 i
        (get_fixed-Reads i.ed25519 32 h.ed25519_length)
        (Reads-bind _ _ [] (prefixed i.ml_dsa) i.ed25519 i
          (Reads-lift _ i.ed25519 (ap (ok_or _) h.ed25519))
          (Reads-end _ _ (prefixed i.ml_dsa) i.ml_dsa i
            (get_var-Reads i.ml_dsa (omega (arith, h.ml_dsa_length)))
            (Reads-end _ _ [] i.ml_dsa i (Reads-lift _ i.ml_dsa (ap (ok_or _) h.ml_dsa))
              (Reads-pure i))))

  pub read_signature-Reads :
      (g : HybridSignature) → IsSignature g → Reads (read_signature s) (signature_bytes g) g
  unfolding read_signature
  read_signature-Reads g h =
      Reads-bind _ _ g.ed25519 (prefixed g.ml_dsa) g.ed25519 g
        (get_fixed-Reads g.ed25519 64 h.ed25519_length)
        (Reads-bind _ _ [] (prefixed g.ml_dsa) g.ed25519 g
          (Reads-lift _ g.ed25519 (ap (ok_or _) h.ed25519))
          (Reads-end _ _ (prefixed g.ml_dsa) g.ml_dsa g
            (get_var-Reads g.ml_dsa (omega (arith, h.ml_dsa_length)))
            (Reads-end _ _ [] g.ml_dsa g (Reads-lift _ g.ml_dsa (ap (ok_or _) h.ml_dsa))
              (Reads-pure g))))
