-- ===== src/Group/Keys.antt =====
-- crates/core/src/group.rs: the keys on the nodes of the tree, and the key packages of members.
use novachannel.Common.{
  Bool, ◌&&◌, Result, ok, err, Bytes, bytes_eq, ◌>>=◌, ◌>>◌, pure, lift, if◌then◌else◌, ascii,
}
use novachannel.Common.Fallible.{then_else}
use novachannel.Errors.{Error, Call, malformed}
use novachannel.Crypto.{Primitives}
use novachannel.Kex.{Draw, x25519_public_from_bytes, ml_kem_public_from_bytes}
use novachannel.Identity.{
  PublicIdentity, HybridSignature, Identity, write_identity, write_signature, read_identity,
  read_signature, verify, sign, public,
}
use novachannel.Wire.{
  Writer, Reader, new_writer, new_reader, put_fixed, put_var, get_fixed, get_var, finished,
  into_bytes,
}

unfoldable pub leaf_key_package_pop_context : Bytes
unfolding ascii
leaf_key_package_pop_context = ascii "novachannel group v1 leaf key package"

pub record NodePublicKey : Type 0 where
  pub dh_public : Bytes
  pub kem_public : Bytes

unfoldable pub write_key : NodePublicKey → Writer → Writer
write_key k w = put_var (put_fixed w k.dh_public) k.kem_public

-- `PartialEq`.
unfoldable pub key_eq : NodePublicKey → NodePublicKey → Bool
key_eq k l = bytes_eq k.dh_public l.dh_public && bytes_eq k.kem_public l.kem_public

unfoldable pub leaf_key_package_pop_message : PublicIdentity → NodePublicKey → Bytes
leaf_key_package_pop_message identity public_key = into_bytes (
    write_key public_key
      (write_identity identity (put_fixed new_writer leaf_key_package_pop_context)))

pub record LeafKeyPackage : Type 0 where
  pub identity : PublicIdentity
  pub public_key : NodePublicKey
  pub pop : HybridSignature

unfoldable pub write_package : LeafKeyPackage → Writer → Writer
write_package p w = write_signature p.pop (write_key p.public_key (write_identity p.identity w))

unfoldable pub package_to_bytes : LeafKeyPackage → Bytes
package_to_bytes p = into_bytes (write_package p new_writer)

pub record MyLeafKeyPackage : Type 0 where
  pub identity : PublicIdentity
  pub dh_secret : Bytes
  pub dh_public : Bytes
  pub kem_secret : Bytes
  pub kem_public : Bytes
  pub pop : HybridSignature

unfoldable pub package_public : MyLeafKeyPackage → LeafKeyPackage
package_public p = record {
  identity = p.identity;
  public_key = record { dh_public = p.dh_public; kem_public = p.kem_public };
  pop = p.pop;
}

pub data TreeNode : Type 0 where
  blank : TreeNode
  leaf : LeafKeyPackage → TreeNode
  parent : NodePublicKey → TreeNode

module _ (prim : Primitives) where
  unfoldable pub read_key : Call Reader NodePublicKey
  read_key = do
    dh_bytes ← get_fixed 32
    dh_public ← lift (x25519_public_from_bytes dh_bytes)
    kem_bytes ← get_var
    kem_public ← lift (ml_kem_public_from_bytes prim.exchange kem_bytes)
    pure (record { dh_public = dh_public; kem_public = kem_public })

  unfoldable pub read_package : Call Reader LeafKeyPackage
  read_package = do
    identity ← read_identity prim.signatures
    public_key ← read_key
    pop ← read_signature prim.signatures
    lift (verify prim.signatures identity (leaf_key_package_pop_message identity public_key) pop)
    pure (record { identity = identity; public_key = public_key; pop = pop })

  unfoldable pub package_from_bytes : Bytes → Result Error LeafKeyPackage
  package_from_bytes bytes =
      let (result, r) = read_package (new_reader bytes) in
      then_else result
        (λ p. if finished r then ok p else err (malformed "trailing bytes in leaf key package"))

  -- A generated ML-KEM key pair is that of the drawn seed.
  unfoldable pub generate_package : Identity → Draw → Result Error MyLeafKeyPackage
  generate_package signing_identity drawn =
      let (kem_secret, kem_public) = prim.exchange.ml_kem_keypair drawn.seed in
      let dh_public = prim.exchange.x25519_public drawn.secret in
      let identity = public prim.signatures signing_identity in
      let public_key : NodePublicKey = record { dh_public = dh_public; kem_public = kem_public } in
      then_else
        (sign prim.signatures signing_identity (leaf_key_package_pop_message identity public_key))
        (λ pop. ok (record {
          identity = identity;
          dh_secret = drawn.secret;
          dh_public = dh_public;
          kem_secret = kem_secret;
          kem_public = kem_public;
          pop = pop;
        }))
