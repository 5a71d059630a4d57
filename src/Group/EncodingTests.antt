-- ===== src/Group/EncodingTests.antt =====
-- crates/core/src/group.rs: the bytes of a small commit.
use novachannel.Common.{Bytes, ◌++◌, ◌≡◌, refl, [], ◌∷◌, length, arith, ok, replicate, ascii}
use novachannel.Crypto.Toy.{toy_exchange}
use novachannel.Crypto.Signing.{toy_primitives, toy_signatures, toy-IsSignatures}
use novachannel.Wire.{into_bytes, new_writer, put_fixed, put_var, to_be_bytes}
use novachannel.Wire.Codec.{prefixed}
use novachannel.Identity.Codec.{signature_bytes}
use novachannel.Group.Keys.{write_key}
use novachannel.Group.Sealing.{SealedToNode, write_sealed}
use novachannel.Group.Messages.{
  remove, UpdatePathNode, Commit, commit_signature_context, commit_signed_bytes,
  write_commit_signed, write_each, write_path_node, write_op, commit_to_bytes, commit_from_bytes,
}
use novachannel.Group.Encoding.{IsSealed}
use novachannel.Group.CommitBytes.{
  IsPathNode, IsCommit, commit_from_bytes-commit_to_bytes, commit_from_bytes-any_context,
  fields_bytes,
}

abbrev sealed : SealedToNode
sealed = record { eph_dh_public = replicate 32 1; kem_ct = 2 ∷ []; ciphertext = 3 ∷ 4 ∷ [] }

abbrev path_node : UpdatePathNode
path_node = record {
  public_key = record { dh_public = replicate 32 5; kem_public = 6 ∷ [] };
  ciphertexts = sealed ∷ [];
}

abbrev small_commit : Commit
small_commit = record {
  group_id = replicate 16 7;
  from_epoch = 3;
  sender_leaf = 0;
  op = remove 1;
  path = path_node ∷ [];
  signature = record {
    ed25519 = toy_signatures.ed25519.sign (1 ∷ []) [];
    ml_dsa = toy_signatures.ml_dsa.sign (2 ∷ []) [];
  };
}

sealed-IsSealed : IsSealed toy_primitives sealed
unfolding toy_exchange
sealed-IsSealed = record {
  eph_length = refl;
  kem = refl;
  kem_fits = omega arith;
  ciphertext_fits = omega arith;
}

path_node-IsPathNode : IsPathNode toy_primitives path_node
unfolding toy_exchange
path_node-IsPathNode = record {
  public_key = record { dh_length = refl; kem = refl; kem_fits = omega arith };
  ciphertexts = (sealed-IsSealed, tt);
  count = omega arith;
}

length-small_commit :
    length (
      commit_signed_bytes small_commit.group_id small_commit.from_epoch small_commit.sender_leaf
        small_commit.op small_commit.path)
    ≡ 160
unfolding commit_signed_bytes write_commit_signed write_each write_path_node write_op write_key
    write_sealed put_fixed put_var into_bytes new_writer to_be_bytes commit_signature_context ascii
length-small_commit = refl

abbrev other_context : Bytes
other_context = replicate 27 0

length-context : length other_context ≡ length commit_signature_context
unfolding commit_signature_context ascii
length-context = refl

small_commit-IsCommit : IsCommit toy_primitives small_commit
small_commit-IsCommit = record {
  group_id = refl;
  from_epoch = omega arith;
  sender_leaf = omega arith;
  op = omega arith;
  path = (path_node-IsPathNode, tt);
  levels = omega arith;
  signature = record {
    ed25519 = toy-IsSignatures.ed25519.reads_signed (1 ∷ []) [];
    ed25519_length = toy-IsSignatures.ed25519.signed_length (1 ∷ []) [];
    ml_dsa = toy-IsSignatures.ml_dsa.reads_signed (2 ∷ []) [];
    ml_dsa_length = toy-IsSignatures.ml_dsa.signed_length (2 ∷ []) [];
  };
  fits = omega (arith, length-small_commit);
}

commit_from_bytes-commit_to_bytes_example :
    commit_from_bytes toy_primitives (commit_to_bytes small_commit) ≡ ok small_commit
commit_from_bytes-commit_to_bytes_example =
    commit_from_bytes-commit_to_bytes toy_primitives small_commit small_commit-IsCommit

-- The same commit under another context.
commit_from_bytes-any_context_example :
    commit_from_bytes toy_primitives (
      prefixed (other_context ++ fields_bytes small_commit)
      ++ signature_bytes small_commit.signature)
    ≡ ok small_commit
commit_from_bytes-any_context_example =
    commit_from_bytes-any_context toy_primitives other_context length-context small_commit
      small_commit-IsCommit
