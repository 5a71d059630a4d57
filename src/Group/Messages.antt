-- ===== src/Group/Messages.antt =====
-- crates/core/src/group.rs: commits and welcomes, their encodings and their parsers.
use novachannel.Common.{
  ℕ, zero, suc, ◌-◌, ◌*◌, ◌%◌, ◌^◌, Bool, false, not, ◌||◌, List, [], ◌∷◌, Result, ok, err, Bytes,
  ascii, ◌>>=◌, pure, lift, fail, gets, if◌then◌else◌, ltb, leb, ◌==◌, length,
}
use novachannel.Common.Fallible.{then_else}
use novachannel.Errors.{Error, Call, malformed}
use novachannel.Crypto.{Primitives}
use novachannel.Identity.{HybridSignature, write_signature, read_signature}
use novachannel.Wire.{
  Writer, Reader, new_writer, new_reader, put_fixed, put_var, get_fixed, get_var, get_number,
  finished, into_bytes, remaining, to_be_bytes,
}
use novachannel.Group.Keys.{
  NodePublicKey, LeafKeyPackage, TreeNode, blank, leaf, parent, write_key, read_key, write_package,
  read_package,
}
use novachannel.Group.Sealing.{SealedToNode, write_sealed, read_sealed}

unfoldable pub commit_signature_context : Bytes
unfolding ascii
commit_signature_context = ascii "novachannel group v1 commit"

unfoldable pub welcome_signature_context : Bytes
unfolding ascii
welcome_signature_context = ascii "novachannel group v1 welcome snapshot"

abbrev pub max_capacity : ℕ
max_capacity = 2 ^ 20

pub data GroupOp : Type 0 where
  add : (leaf_index : ℕ) → LeafKeyPackage → GroupOp
  remove : (leaf_index : ℕ) → GroupOp
  update : GroupOp

-- `n as u32`, big-endian.
abbrev pub put_u32 : Writer → ℕ → Writer
put_u32 w n = put_fixed w (to_be_bytes 4 (n % 2 ^ 32))

unfoldable pub write_op : GroupOp → Writer → Writer
write_op (add leaf_index key_package) w =
    write_package key_package (put_u32 (put_fixed w (0 ∷ [])) leaf_index)
write_op (remove leaf_index) w = put_u32 (put_fixed w (1 ∷ [])) leaf_index
write_op update w = put_fixed w (2 ∷ [])

pub record UpdatePathNode : Type 0 where
  pub public_key : NodePublicKey
  pub ciphertexts : List SealedToNode

unfoldable pub write_each {ℓ} : {A : Type ℓ} → (A → Writer → Writer) → List A → Writer → Writer
write_each write [] w = w
write_each write (a ∷ rest) w = write_each write rest (write a w)

unfoldable pub write_path_node : UpdatePathNode → Writer → Writer
write_path_node n w =
    write_each write_sealed n.ciphertexts
      (put_u32 (write_key n.public_key w) (length n.ciphertexts))

pub record Commit : Type 0 where
  pub group_id : Bytes
  pub from_epoch : ℕ
  pub sender_leaf : ℕ
  pub op : GroupOp
  pub path : List UpdatePathNode
  pub signature : HybridSignature

unfoldable pub write_commit_signed : Bytes → ℕ → ℕ → GroupOp → List UpdatePathNode → Writer → Writer
write_commit_signed group_id from_epoch sender_leaf op path w =
    let w1 = put_fixed (put_fixed w commit_signature_context) group_id in
    let w2 = put_u32 (put_fixed w1 (to_be_bytes 8 from_epoch)) sender_leaf in
    write_each write_path_node path (put_u32 (write_op op w2) (length path))

unfoldable pub commit_signed_bytes : Bytes → ℕ → ℕ → GroupOp → List UpdatePathNode → Bytes
commit_signed_bytes group_id from_epoch sender_leaf op path =
    into_bytes (write_commit_signed group_id from_epoch sender_leaf op path new_writer)

unfoldable pub welcome_signed_bytes : Bytes → Bytes
welcome_signed_bytes snapshot_bytes =
    into_bytes (put_var (put_fixed new_writer welcome_signature_context) snapshot_bytes)

unfoldable pub write_commit : Commit → Writer → Writer
write_commit c w =
    write_signature c.signature
      (put_var w (commit_signed_bytes c.group_id c.from_epoch c.sender_leaf c.op c.path))

unfoldable pub commit_to_bytes : Commit → Bytes
commit_to_bytes c = into_bytes (write_commit c new_writer)

pub record Welcome : Type 0 where
  pub sealed : SealedToNode

unfoldable pub welcome_to_bytes : Welcome → Bytes
welcome_to_bytes w = into_bytes (write_sealed w.sealed new_writer)

pub record WelcomeSnapshot : Type 0 where
  pub group_id : Bytes
  pub capacity : ℕ
  pub epoch : ℕ
  pub epoch_secret : Bytes
  pub transcript_hash : Bytes
  pub nodes : List TreeNode
  pub target_leaf : ℕ

unfoldable pub write_node : TreeNode → Writer → Writer
write_node blank w = put_fixed w (0 ∷ [])
write_node (leaf p) w = write_package p (put_fixed w (1 ∷ []))
write_node (parent k) w = write_key k (put_fixed w (2 ∷ []))

unfoldable pub write_snapshot : WelcomeSnapshot → Writer → Writer
write_snapshot s w =
    let w1 = put_u32 (put_fixed w s.group_id) s.capacity in
    let w2 = put_fixed (put_fixed w1 (to_be_bytes 8 s.epoch)) s.epoch_secret in
    write_each write_node s.nodes (put_u32 (put_fixed w2 s.transcript_hash) s.target_leaf)

-- `is_power_of_two`, by the 64 powers that a `usize` can be.
is_power_from : ℕ → ℕ → ℕ → Bool
is_power_from zero p n = false
is_power_from (suc rounds) p n = p == n || is_power_from rounds (2 * p) n

unfoldable pub is_power_of_two : ℕ → Bool
unfolding is_power_from
is_power_of_two n = is_power_from 64 1 n

-- `for _ in 0..count { out.push(read(r)?) }`.
unfoldable pub read_each {ℓ} : {A : Type ℓ} → Call Reader A → ℕ → Call Reader (List A)
read_each read zero = pure []
read_each read (suc count) = do a ← read; rest ← read_each read count; pure (a ∷ rest)

-- A count that is larger than the bytes left is refused before anything is read.
unfoldable pub read_counted {ℓ} : {A : Type ℓ} → Call Reader A → ℕ → Error → Call Reader (List A)
read_counted read count too_many = do
  left ← λ r. (remaining r, r)
  if ltb left count then fail too_many else read_each read count

-- The byte of a field of one byte.
abbrev pub tag_of : Bytes → ℕ
tag_of [] = 0
tag_of (b ∷ _) = b

module _ (prim : Primitives) where
  unfoldable pub read_op : Call Reader GroupOp
  read_op = do
    tag ← get_fixed 1
    if tag_of tag == 0
        then (do
          leaf_index ← get_number 4
          key_package ← read_package prim
          pure (add leaf_index key_package))
        else if tag_of tag == 1
        then (do leaf_index ← get_number 4; pure (remove leaf_index))
        else if tag_of tag == 2
        then pure update
        else fail (malformed "unknown group op tag")

  unfoldable pub read_path_node : Call Reader UpdatePathNode
  read_path_node = do
    public_key ← read_key prim
    count ← get_number 4
    ciphertexts ←
        read_counted (read_sealed prim) count
          (malformed "update path node declares more ciphertexts than its message can hold")
    pure (record { public_key = public_key; ciphertexts = ciphertexts })

  -- The signed part of a commit. The bytes of the context are skipped, not compared.
  unfoldable pub read_commit_signed : HybridSignature → Call Reader Commit
  read_commit_signed signature = do
    context ← get_fixed (length commit_signature_context)
    group_id ← get_fixed 16
    from_epoch ← get_number 8
    sender_leaf ← get_number 4
    op ← read_op
    path_len ← get_number 4
    path ←
        read_counted read_path_node path_len
          (malformed "commit declares a longer update path than its message can hold")
    at_end ← gets finished
    if at_end
        then pure (record {
          group_id = group_id;
          from_epoch = from_epoch;
          sender_leaf = sender_leaf;
          op = op;
          path = path;
          signature = signature;
        })
        else fail (malformed "trailing bytes in commit's signed section")

  unfoldable pub read_commit : Call Reader Commit
  read_commit = do
    signed ← get_var
    signature ← read_signature prim.signatures
    lift (read_commit_signed signature (new_reader signed)).0

  unfoldable pub commit_from_bytes : Bytes → Result Error Commit
  commit_from_bytes bytes =
      let (result, r) = read_commit (new_reader bytes) in
      then_else result
        (λ c. if finished r then ok c else err (malformed "trailing bytes in commit"))

  unfoldable pub welcome_from_bytes : Bytes → Result Error Welcome
  welcome_from_bytes bytes =
      let (result, r) = read_sealed prim (new_reader bytes) in
      then_else result (λ sealed.
        if finished r
        then ok (record { sealed = sealed })
        else err (malformed "trailing bytes in welcome"))

  unfoldable pub read_node : Call Reader TreeNode
  read_node = do
    tag ← get_fixed 1
    if tag_of tag == 0
        then pure blank
        else if tag_of tag == 1
        then (do p ← read_package prim; pure (leaf p))
        else if tag_of tag == 2
        then (do k ← read_key prim; pure (parent k))
        else fail (malformed "unknown tree node tag in welcome snapshot")

  unfoldable pub read_snapshot : Call Reader WelcomeSnapshot
  read_snapshot = do
    group_id ← get_fixed 16
    capacity ← get_number 4
    epoch ← get_number 8
    epoch_secret ← get_fixed 32
    transcript_hash ← get_fixed 32
    target_leaf ← get_number 4
    if ltb capacity 2 || not (is_power_of_two capacity)
        then fail (malformed "welcome snapshot capacity must be a power of two of at least 2")
        else if ltb max_capacity capacity
        then fail (malformed "welcome snapshot capacity exceeds this implementation's sanity bound")
        else if leb capacity target_leaf
        then fail (malformed "welcome snapshot target leaf is not within its own capacity")
        else (do
          nodes ← read_each read_node (2 * capacity - 1)
          pure (record {
            group_id = group_id;
            capacity = capacity;
            epoch = epoch;
            epoch_secret = epoch_secret;
            transcript_hash = transcript_hash;
            nodes = nodes;
            target_leaf = target_leaf;
          }))
