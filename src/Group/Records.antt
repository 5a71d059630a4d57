-- ===== src/Group/Records.antt =====
-- crates/core/src/group.rs: sealing and opening the records of an epoch.
use novachannel.Common.{
  ℕ, ◌+◌, ◌^◌, not, none, some, ◌++◌, ok, err, panic, Bytes, ◌>>=◌, ◌>>◌, pure, lift, fail, gets,
  modify, if◌then◌else◌, ltb, ◌==◌, length, take, drop,
}
use novachannel.Errors.{
  Call, malformed, not_a_group_member, unknown_epoch, replay, sequence_exhausted,
}
use novachannel.Crypto.{Primitives}
use novachannel.Wire.{to_be_bytes, from_be_bytes}
use novachannel.Group.Sealing.{aead_seal, aead_seal_open}
use novachannel.Group.State.{Group, as_u32, insert, is_member, advance, derive_sender_chain}

unfoldable pub app_header : (epoch sender_leaf seq : ℕ) → Bytes
app_header epoch sender_leaf seq =
    to_be_bytes 8 epoch ++ (to_be_bytes 4 sender_leaf ++ to_be_bytes 8 seq)

-- `checked_add` on a `u64`.
unfoldable pub next_seq : Call Group (Unit {0})
next_seq g =
    if g.send_seq + 1 == 2 ^ 64
    then (err sequence_exhausted, g)
    else (ok tt, record g { send_seq = g.send_seq + 1 })

-- The fields of a record's header, and what stands behind it.
pub record Header : Type 0 where
  pub epoch : ℕ
  pub sender_leaf : ℕ
  pub seq : ℕ

unfoldable pub header_of : Bytes → Header
header_of r = record {
  epoch = from_be_bytes (take 8 r);
  sender_leaf = from_be_bytes (take 4 (drop 8 r));
  seq = from_be_bytes (take 8 (drop 12 r));
}

module _ (prim : Primitives) where
  unfoldable pub seal : Bytes → Call Group Bytes
  seal plaintext = do
    g ← gets (λ g. g)
    let (next_chain, message_key) = advance prim.kdf g.send_chain
    let header = app_header g.epoch (as_u32 g.my_leaf) g.send_seq
    next_seq
    ciphertext ← lift (aead_seal prim message_key header plaintext)
    modify (λ s. record s { send_chain = next_chain })
    pure (header ++ ciphertext)

  -- The chain of a sender, begun at its first record of the epoch.
  unfoldable pub ensure_chain : ℕ → Call Group (Bytes × ℕ)
  ensure_chain sender_leaf g = elim (g.recv_chains sender_leaf) [
    | some entry ↦ (ok entry, g)
    | none ↦ elim (derive_sender_chain prim.kdf g.application_secret sender_leaf) [
      | ok chain ↦
          (ok (chain, 0), record g { recv_chains = insert sender_leaf (chain, 0) g.recv_chains })
      | err e ↦ (err e, g)
      | panic ↦ (panic, g)
    ]
  ]

  -- `entry.1 += 1` overflows a `u64` at its largest value, after the chain has moved.
  unfoldable pub move_chain : ℕ → Bytes → ℕ → Call Group (Unit {0})
  move_chain sender_leaf next_chain expected_seq g =
      if expected_seq + 1 == 2 ^ 64
      then (
        panic,
        record g { recv_chains = insert sender_leaf (next_chain, expected_seq) g.recv_chains },
      )
      else (
        ok tt,
        record g { recv_chains = insert sender_leaf (next_chain, expected_seq + 1) g.recv_chains },
      )

  -- What `open` does with a record of a member, in this epoch.
  unfoldable pub open_from : Header → Bytes → Call Group (ℕ × Bytes)
  open_from h r = do
    entry ← ensure_chain h.sender_leaf
    let (next_chain, message_key) = advance prim.kdf entry.0
    if not (h.seq == entry.1) then fail replay else (do
      plaintext ← lift (aead_seal_open prim message_key (take 20 r) (drop 20 r))
      move_chain h.sender_leaf next_chain entry.1
      pure (h.sender_leaf, plaintext))

  unfoldable pub open_record : Bytes → Call Group (ℕ × Bytes)
  open_record r g =
      if ltb (length r) 20
      then (err (malformed "group record shorter than its header"), g)
      else if not ((header_of r).epoch == g.epoch)
      then (err unknown_epoch, g)
      else if (header_of r).sender_leaf == g.my_leaf
      then (err (malformed "received a record from our own sender leaf"), g)
      else if not (is_member g (header_of r).sender_leaf)
      then (err not_a_group_member, g)
      else open_from (header_of r) r g
