-- ===== src/Group/Join.antt =====
-- crates/core/src/group.rs: joining a group from a welcome and the commit beside it.
use novachannel.Common.{
  ℕ, Bool, false, not, ◌&&◌, some, Result, ok, err, Bytes, bytes_eq, if◌then◌else◌, leb, ◌==◌,
  get_or, replicate, ◌>>=◌, pure, Result,
}
use novachannel.Common.Fallible.{then_else, ok_or}
use novachannel.Errors.{Error, Call, malformed, not_a_group_member, wrong_state}
use novachannel.Crypto.{Primitives}
use novachannel.Identity.{HybridSignature, identity_eq, verify, read_signature}
use novachannel.Wire.{Reader, new_reader, get_var, finished}
use novachannel.Group.Index.{leaf_to_node}
use novachannel.Group.Keys.{MyLeafKeyPackage, blank, key_eq, package_public}
use novachannel.Group.Sealing.{open_from_node}
use novachannel.Group.Messages.{
  GroupOp, add, remove, update, Commit, Welcome, WelcomeSnapshot, read_snapshot,
  welcome_signed_bytes,
}
use novachannel.Group.State.{Group, no_entries, leaf_package, derive_application_secret}
use novachannel.Group.Commits.{apply_commit, welcome_aad_context}

-- Whether the operation adds the owner of the package at that leaf.
unfoldable pub adds : MyLeafKeyPackage → ℕ → GroupOp → Bool
adds mine target_leaf (add leaf_index key_package) =
    leaf_index == target_leaf
    && (key_eq key_package.public_key (package_public mine).public_key
        && identity_eq key_package.identity mine.identity)
adds mine target_leaf (remove leaf_index) = false
adds mine target_leaf update = false

pub record Opened : Type 0 where
  pub snapshot_bytes : Bytes
  pub signature : HybridSignature
  pub snapshot : WelcomeSnapshot

module _ (prim : Primitives) where
  -- The unsealed contents of a welcome, with nothing behind them.
  unfoldable pub read_welcome : Call Reader (Bytes × HybridSignature)
  read_welcome = do
    snapshot_bytes ← get_var
    signature ← read_signature prim.signatures
    pure (snapshot_bytes, signature)

  unfoldable pub open_welcome : MyLeafKeyPackage → Welcome → Result Error Opened
  open_welcome mine welcome =
      then_else
        (open_from_node prim mine.dh_secret mine.kem_secret welcome_aad_context welcome.sealed)
        (λ plaintext.
          let (result, r) = read_welcome (new_reader plaintext) in
          then_else result (λ contents.
            if not (finished r)
            then err (malformed "trailing bytes in welcome")
            else let (result', r') = read_snapshot prim (new_reader contents.0) in
              then_else result' (λ snapshot.
                if not (finished r')
                then err (malformed "trailing bytes in welcome snapshot")
                else ok (record {
                  snapshot_bytes = contents.0;
                  signature = contents.1;
                  snapshot = snapshot;
                }))))

  -- The group as the snapshot shows it, before the commit. The chain is overwritten by the commit.
  unfoldable pub group_of : MyLeafKeyPackage → WelcomeSnapshot → Bytes → Group
  group_of mine s application_secret = record {
    group_id = s.group_id;
    capacity = s.capacity;
    nodes = s.nodes;
    epoch = s.epoch;
    epoch_secret = s.epoch_secret;
    application_secret = application_secret;
    transcript_hash = s.transcript_hash;
    my_leaf = s.target_leaf;
    my_leaf_keys = some (mine.dh_secret, mine.kem_secret);
    known_secrets = no_entries;
    send_seq = 0;
    send_chain = replicate 32 0;
    recv_chains = no_entries;
  }

  -- The checks that tie the snapshot to the commit, and the group before the commit.
  unfoldable pub check_welcome : MyLeafKeyPackage → Opened → Commit → Result Error Group
  check_welcome mine o c =
      let s = o.snapshot in
      if not (bytes_eq c.group_id s.group_id)
      then err (malformed "welcome and its commit are for different groups")
      else if not (c.from_epoch == s.epoch)
      then err wrong_state
      else if not (adds mine s.target_leaf c.op)
      then err (malformed "commit does not add this member at the welcome's target leaf")
      else if leb s.capacity c.sender_leaf
      then err not_a_group_member
      else then_else
          (ok_or not_a_group_member
            (leaf_package (get_or s.nodes (leaf_to_node s.capacity c.sender_leaf) blank)))
          (λ p.
            then_else
              (verify prim.signatures p.identity (welcome_signed_bytes o.snapshot_bytes)
                o.signature)
              (λ _.
                then_else (derive_application_secret prim.kdf s.epoch_secret)
                  (λ application_secret. ok (group_of mine s application_secret))))

  -- A group that the commit does not apply to is dropped.
  unfoldable pub join : MyLeafKeyPackage → Welcome → Commit → Result Error Group
  join mine welcome c = then_else (open_welcome mine welcome) (λ o.
      then_else (check_welcome mine o c)
        (λ g. let (result, joined) = apply_commit prim c g in then_else result (λ _. ok joined)))
