-- ===== src/Ratchet/Chunks.antt =====
-- crates/core/src/ratchet.rs: the chunk records of the incremental step, and how they are gathered.
use novachannel.Common.{
  ℕ, suc, ◌+◌, ◌^◌, ◌%◌, Bool, not, ◌||◌, Option, none, some, List, [], ◌∷◌, ◌++◌, Result, ok, err,
  panic, ◌>>=◌, pure, fail, gets, if◌then◌else◌, ltb, leb, ◌==◌, length, take, set, get_or,
  replicate, ascii, Bytes, bytes_eq,
}
use novachannel.Errors.{Error, Call, malformed, too_large, decrypt}
use novachannel.Crypto.{Aead, Kdf, ErasureCode}
use novachannel.Wire.{
  Reader, new_reader, get_fixed, get_var, finished, consumed, new_writer, put_fixed, put_var,
  into_bytes, to_be_bytes, from_be_bytes,
}
use novachannel.Kex.{option_or, then_else}
use novachannel.Erasure.{encode, decode, present_count}
use novachannel.Ratchet.{ChunkAccumulator}

unfoldable pub label_chunk_key_step1 : Bytes
unfolding ascii
label_chunk_key_step1 = ascii "novachannel ratchet v1 incremental chunk key step1"

unfoldable pub label_chunk_key_step2 : Bytes
unfolding ascii
label_chunk_key_step2 = ascii "novachannel ratchet v1 incremental chunk key step2"

unfoldable pub received_count : ChunkAccumulator → ℕ
received_count a = present_count a.shards

abbrev pub chunk_nonce : ℕ → Bytes
chunk_nonce shard_index = replicate 11 0 ++ shard_index ∷ []

pub record ChunkHeader : Type 0 where
  pub msg_type : ℕ
  pub attempt_nonce : Bytes
  pub shard_index : ℕ
  pub data_shards : ℕ
  pub parity_shards : ℕ
  pub original_len : ℕ
  pub checksum : Bytes
  pub header_len : ℕ

pub record ChunkFields : Type 0 where
  pub shard_index : ℕ
  pub data_shards : ℕ
  pub parity_shards : ℕ
  pub original_len : ℕ
  pub checksum : Bytes
  pub shard : Bytes

unfoldable pub read_chunk : Call Reader (ChunkHeader × Bytes)
read_chunk = do
  type_byte ← get_fixed 1
  attempt_nonce ← get_fixed 32
  counts ← get_fixed 3
  len_bytes ← get_fixed 4
  checksum ← get_fixed 8
  header_len ← gets consumed
  ciphertext ← get_var
  at_end ← gets finished
  if at_end
      then pure (
        record {
          msg_type = get_or type_byte 0 0;
          attempt_nonce = attempt_nonce;
          shard_index = get_or counts 0 0;
          data_shards = get_or counts 1 0;
          parity_shards = get_or counts 2 0;
          original_len = from_be_bytes len_bytes;
          checksum = checksum;
          header_len = header_len;
        },
        ciphertext,
      )
      else fail (malformed "trailing bytes in ratchet chunk")

unfoldable pub parse_chunk_header : Bytes → Result Error (ChunkHeader × Bytes)
parse_chunk_header bytes = (read_chunk (new_reader bytes)).0

unfoldable pub chunk_header :
    (msg_type : ℕ) (attempt_nonce : Bytes) (i data_shards parity_shards original_len : ℕ)
    → (checksum : Bytes) → Bytes
chunk_header msg_type attempt_nonce i data_shards parity_shards original_len checksum =
    let w1 = put_fixed new_writer (msg_type ∷ []) in
    let w2 = put_fixed w1 attempt_nonce in
    let w3 = put_fixed w2 (i % 256 ∷ data_shards % 256 ∷ parity_shards % 256 ∷ []) in
    let w4 = put_fixed w3 (to_be_bytes 4 original_len) in into_bytes (put_fixed w4 checksum)

module _ (aead : Aead) (kdf : Kdf) (code : ErasureCode) where
  unfoldable pub truncated_checksum : Bytes → Bytes
  truncated_checksum bytes = take 8 (kdf.sha256 bytes)

  unfoldable pub derive_chunk_key : (root_key attempt_nonce label : Bytes) → Result Error Bytes
  derive_chunk_key root_key attempt_nonce label =
      then_else
        (option_or (malformed "HKDF PRK too short")
          (kdf.from_prk (kdf.extract root_key attempt_nonce)))
        (λ hk. option_or (malformed "HKDF expand failed") (kdf.expand hk label 32))

  unfoldable pub seal_chunk : (key nonce aad plaintext : Bytes) → Result Error Bytes
  seal_chunk key nonce aad plaintext = option_or decrypt (aead.encrypt key nonce aad plaintext)

  unfoldable pub open_chunk : (key nonce aad rec : Bytes) → Result Error Bytes
  open_chunk key nonce aad rec = option_or decrypt (aead.decrypt key nonce aad rec)

  -- The loop of `build_chunk_records` from shard `i` on, whose headers differ in the index only.
  unfoldable pub chunk_records_from :
      (key : Bytes) → (ℕ → Bytes) → ℕ → List Bytes → Result Error (List Bytes)
  chunk_records_from key header i [] = ok []
  chunk_records_from key header i (shard ∷ shards) =
      let rest = chunk_records_from key header (suc i) shards in
      then_else (seal_chunk key (chunk_nonce (i % 256)) (header i) shard) (λ ciphertext.
        then_else rest (λ records.
          ok (into_bytes (put_var (put_fixed new_writer (header i)) ciphertext) ∷ records)))

  unfoldable pub build_chunk_records :
      (msg_type : ℕ) (chunk_key attempt_nonce payload : Bytes) (data_shards parity_shards : ℕ)
      → Result Error (List Bytes)
  build_chunk_records msg_type chunk_key attempt_nonce payload data_shards parity_shards =
      let checksum = truncated_checksum payload in
      if leb (2 ^ 32) (length payload)
      then err too_large
      else then_else (encode code payload data_shards parity_shards) (λ shards.
        chunk_records_from chunk_key
          (λ i.
            chunk_header msg_type attempt_nonce i data_shards parity_shards (length payload)
              checksum)
          0 shards.0)

  unfoldable pub new_accumulator : Bytes → ChunkFields → ChunkAccumulator
  new_accumulator attempt_nonce fields = record {
    attempt_nonce = attempt_nonce;
    data_shards = fields.data_shards;
    parity_shards = fields.parity_shards;
    original_len = fields.original_len;
    checksum = fields.checksum;
    shards = replicate (fields.data_shards + fields.parity_shards) none;
  }

  abbrev pub in_progress : Bytes → ChunkFields → Option ChunkAccumulator → ChunkAccumulator
  in_progress attempt_nonce fields none = new_accumulator attempt_nonce fields
  in_progress attempt_nonce fields (some acc) =
      if not (bytes_eq acc.attempt_nonce attempt_nonce)
      then new_accumulator attempt_nonce fields
      else acc

  unfoldable pub same_shape : ChunkAccumulator → ChunkFields → Bool
  same_shape acc fields = not (
      not (acc.data_shards == fields.data_shards)
      || not (acc.parity_shards == fields.parity_shards)
      || not (acc.original_len == fields.original_len)
      || not (bytes_eq acc.checksum fields.checksum))

  -- What a reconstruction is checked for.
  unfoldable pub check_payload : ChunkAccumulator → Bytes → Result Error Bytes
  check_payload acc reconstructed =
      if ltb (length reconstructed) acc.original_len
      then err (malformed "chunk reconstruction shorter than its declared length")
      else if not (bytes_eq (truncated_checksum (take acc.original_len reconstructed)) acc.checksum)
      then err (malformed "chunk reconstruction checksum mismatch")
      else ok (take acc.original_len reconstructed)

  unfoldable pub file_chunk :
      ChunkFields → ChunkAccumulator → Call (Option ChunkAccumulator) (Option (Bytes × ℕ × ℕ))
  file_chunk fields acc slot =
      if leb (length acc.shards) fields.shard_index
      then (panic, slot)
      else let filed = record acc {
        shards = set acc.shards fields.shard_index (some fields.shard);
      } in
        if ltb (received_count filed) fields.data_shards then (ok none, some filed) else (
          then_else (decode code filed.shards fields.data_shards fields.parity_shards)
              (λ reconstructed.
                then_else (check_payload filed reconstructed)
                  (λ payload. ok (some (payload, fields.data_shards, fields.parity_shards)))),
          none,
        )

  unfoldable pub accumulate_chunk :
      Bytes → ChunkFields → Call (Option ChunkAccumulator) (Option (Bytes × ℕ × ℕ))
  accumulate_chunk attempt_nonce fields slot =
      if leb (fields.data_shards + fields.parity_shards) fields.shard_index
      then (err (malformed "chunk shard index out of range"), slot)
      else let acc = in_progress attempt_nonce fields slot in
        if not (same_shape acc fields)
        then (
          err (malformed "chunk parameters do not match the in-progress reconstruction"),
          some acc,
        )
        else file_chunk fields acc (some acc)
