-- ===== src/Group/Proposals.antt =====
-- crates/core/src/group.rs: the proposals, each with its commit, and the welcome for a new member.
use novachannel.Common.{ℕ, Result, ok, Bytes, ◌>>=◌, pure, fail, gets, if◌then◌else◌}
use novachannel.Common.Fallible.{then_else, ok_or}
use novachannel.Errors.{Error, Call, not_a_group_member, group_full}
use novachannel.Crypto.{Primitives}
use novachannel.Kex.{Draw}
use novachannel.Identity.{Identity, try_sign, write_signature}
use novachannel.Wire.{new_writer, put_var, into_bytes}
use novachannel.Group.Keys.{LeafKeyPackage}
use novachannel.Group.Sealing.{seal_to_node}
use novachannel.Group.Messages.{
  add, remove, update, Commit, Welcome, WelcomeSnapshot, welcome_signed_bytes, write_snapshot,
}
use novachannel.Group.State.{Group, as_u32, is_member, first_blank_leaf}
use novachannel.Group.Commits.{commit, welcome_aad_context}

module _ (prim : Primitives) where
  unfoldable pub snapshot : Group → ℕ → WelcomeSnapshot
  snapshot g target_leaf = record {
    group_id = g.group_id;
    capacity = as_u32 g.capacity;
    epoch = g.epoch;
    epoch_secret = g.epoch_secret;
    transcript_hash = g.transcript_hash;
    nodes = g.nodes;
    target_leaf = as_u32 target_leaf;
  }

  -- The sealed snapshot of the group before the commit, signed.
  unfoldable pub make_welcome : Identity → LeafKeyPackage → ℕ → Draw → Group → Result Error Welcome
  make_welcome signer new_member target_leaf drawn g =
      let snapshot_bytes = into_bytes (write_snapshot (snapshot g target_leaf) new_writer) in
      then_else (try_sign prim.signatures signer (welcome_signed_bytes snapshot_bytes))
        (λ signature.
          let plaintext =
            into_bytes (write_signature signature (put_var new_writer snapshot_bytes)) in
          then_else (seal_to_node prim drawn new_member.public_key welcome_aad_context plaintext)
            (λ sealed. ok (record { sealed = sealed })))

  unfoldable pub propose_add :
      Identity → LeafKeyPackage → Draw → Bytes → (ℕ → ℕ → Draw) → Call Group (Commit × Welcome)
  propose_add signer new_member drawn fresh draws = do
    target_leaf ← λ g. (ok_or group_full (first_blank_leaf g), g)
    welcome ← λ g. (make_welcome signer new_member target_leaf drawn g, g)
    c ← commit prim signer (add (as_u32 target_leaf) new_member) fresh draws
    pure (c, welcome)

  unfoldable pub propose_remove : Identity → ℕ → Bytes → (ℕ → ℕ → Draw) → Call Group Commit
  propose_remove signer leaf_index fresh draws = do
    member ← gets (λ g. is_member g leaf_index)
    if member
        then commit prim signer (remove (as_u32 leaf_index)) fresh draws
        else fail not_a_group_member

  unfoldable pub propose_update : Identity → Bytes → (ℕ → ℕ → Draw) → Call Group Commit
  propose_update signer fresh draws = commit prim signer update fresh draws
