-- ===== src/Ratchet/Gather/Outcome.antt =====
-- crates/core/src/ratchet.rs: what a chunk of an incremental step can lead to.
use novachannel.Common.{
  ℕ, ◌+◌, ◌<◌, ◌≤◌, ◌≡◌, ◌≢◌, Option, none, some, List, Result, ok, err, length, take, set,
  replicate, Bytes,
}
use novachannel.Errors.{Error, malformed}
use novachannel.Crypto.{Aead, Kdf, ErasureCode}
use novachannel.Erasure.{present_count, decode}
use novachannel.Ratchet.{ChunkAccumulator}
use novachannel.Ratchet.Chunks.{ChunkFields, received_count, truncated_checksum}

-- An accumulator has a place for every shard, and too few shards to reconstruct.
abbrev pub Waiting : ChunkAccumulator → Type 0
Waiting acc =
    (length acc.shards ≡ acc.data_shards + acc.parity_shards)
    × (received_count acc < acc.data_shards)

abbrev pub WaitingSlot : Option ChunkAccumulator → Type 0
WaitingSlot none = Unit
WaitingSlot (some acc) = Waiting acc

-- An accumulator that a chunk agrees with.
pub record Agrees (acc : ChunkAccumulator) (fields : ChunkFields) : Type 0 where
  pub same_data : acc.data_shards ≡ fields.data_shards
  pub same_parity : acc.parity_shards ≡ fields.parity_shards
  pub same_len : acc.original_len ≡ fields.original_len
  pub same_checksum : acc.checksum ≡ fields.checksum

-- The shards of the attempt `nonce` before a chunk: those of the slot's accumulator if that is of the
-- attempt, and none if the slot is empty or of another attempt.
pub data Gathered (nonce : Bytes) (fields : ChunkFields) (slot : Option ChunkAccumulator)
    : List (Option Bytes) → Type 0 where
  resumes :
      (acc : ChunkAccumulator)
      → slot ≡ some acc
      → acc.attempt_nonce ≡ nonce
      → Agrees acc fields
      → Gathered nonce fields slot acc.shards
  starts :
      ((acc : ChunkAccumulator) → slot ≡ some acc → acc.attempt_nonce ≢ nonce)
      → Gathered nonce fields slot (replicate (fields.data_shards + fields.parity_shards) none)

-- The chunk's shard is put in its place among those of the attempt.
pub record Filed (nonce : Bytes) (fields : ChunkFields) (slot : Option ChunkAccumulator)
    (shards : List (Option Bytes)) : Type 0 where
  pub in_range : fields.shard_index < fields.data_shards + fields.parity_shards
  pub before : List (Option Bytes)
  pub gathered : Gathered nonce fields slot before
  pub placed : shards ≡ set before fields.shard_index (some fields.shard)

module _ (aead : Aead) (kdf : Kdf) (code : ErasureCode) where
  abbrev pub checksum_of : Bytes → Bytes
  checksum_of = truncated_checksum aead kdf code

  -- With the chunk there are enough shards, and `r` is what they decode to.
  pub record Completes (nonce : Bytes) (fields : ChunkFields) (slot : Option ChunkAccumulator)
      (r : Result Error Bytes) : Type 0 where
    pub shards : List (Option Bytes)
    pub filed : Filed nonce fields slot shards
    pub enough : fields.data_shards ≤ present_count shards
    pub decoded : decode code shards fields.data_shards fields.parity_shards ≡ r

  -- What a chunk of the attempt `nonce` leads to: the result, and the slot afterwards.
  pub data Gathers (nonce : Bytes) (fields : ChunkFields) (slot : Option ChunkAccumulator)
      : Result Error (Option (Bytes × ℕ × ℕ)) × Option ChunkAccumulator → Type 0 where
    out_of_range :
        fields.data_shards + fields.parity_shards ≤ fields.shard_index
        → Gathers nonce fields slot (err (malformed "chunk shard index out of range"), slot)
    mismatched :
        (acc : ChunkAccumulator)
        → fields.shard_index < fields.data_shards + fields.parity_shards
        → slot ≡ some acc
        → acc.attempt_nonce ≡ nonce
        → ¬ Agrees acc fields
        → Gathers nonce fields slot
            (err (malformed "chunk parameters do not match the in-progress reconstruction"), slot)
    waiting :
        (acc : ChunkAccumulator)
        → acc.attempt_nonce ≡ nonce
        → Agrees acc fields
        → Filed nonce fields slot acc.shards
        → Waiting acc
        → Gathers nonce fields slot (ok none, some acc)
    not_decoded :
        (e : Error) → Completes nonce fields slot (err e) → Gathers nonce fields slot (err e, none)
    too_short :
        (out : Bytes)
        → Completes nonce fields slot (ok out)
        → length out < fields.original_len
        → Gathers nonce fields slot
            (err (malformed "chunk reconstruction shorter than its declared length"), none)
    corrupted :
        (out : Bytes)
        → Completes nonce fields slot (ok out)
        → fields.original_len ≤ length out
        → checksum_of (take fields.original_len out) ≢ fields.checksum
        → Gathers nonce fields slot (err (malformed "chunk reconstruction checksum mismatch"), none)
    whole :
        (out : Bytes)
        → Completes nonce fields slot (ok out)
        → fields.original_len ≤ length out
        → checksum_of (take fields.original_len out) ≡ fields.checksum
        → Gathers nonce fields slot (
          ok (some (take fields.original_len out, fields.data_shards, fields.parity_shards)),
          none,
        )
