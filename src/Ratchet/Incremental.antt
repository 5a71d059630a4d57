-- ===== src/Ratchet/Incremental.antt =====
-- crates/core/src/ratchet.rs: the incremental ratchet step.
use novachannel.Common.{
  ℕ, Bool, true, false, Option, none, some, List, ok, err, ◌>>=◌, ◌>>◌, pure, fail, lift, gets,
  modify, if◌then◌else◌, ◌==◌, take, Bytes, bytes_eq,
}
use novachannel.Errors.{Call, malformed, ratchet_in_progress, wrong_state}
use novachannel.Crypto.{Aead, Kdf, Exchange, ErasureCode}
use novachannel.Wire.{new_reader}
use novachannel.Kex.{
  Draw, InitiatorKex, ml_kem_public_from_bytes, ml_kem_ciphertext_from_bytes, generate, finish,
  responder_exchange,
}
use novachannel.Ratchet.{
  RatchetedSession, ChunkAccumulator, msg_ratchet_step1_chunk, msg_ratchet_step2_chunk,
}
use novachannel.Ratchet.Session.{read_keys, write_keys, derive_next_epoch, advance_epoch}
use novachannel.Ratchet.Chunks.{
  ChunkHeader, ChunkFields, parse_chunk_header, derive_chunk_key, chunk_nonce, open_chunk,
  build_chunk_records, accumulate_chunk, received_count, label_chunk_key_step1,
  label_chunk_key_step2,
}

pub data ChunkOutcome : Type 0 where
  still_accumulating : ChunkOutcome
  step1_complete : List Bytes → ChunkOutcome
  step2_complete : ChunkOutcome

abbrev pub same_attempt : Option Bytes → Bytes → Bool
same_attempt none nonce = false
same_attempt (some completed) nonce = bytes_eq completed nonce

abbrev pub progress_of : Option ChunkAccumulator → Option (ℕ × ℕ)
progress_of none = none
progress_of (some a) = some (received_count a, a.data_shards)

unfoldable pub incremental_ratchet_progress : RatchetedSession → Option (ℕ × ℕ) × Option (ℕ × ℕ)
incremental_ratchet_progress s =
    (progress_of s.incoming_step1_chunks, progress_of s.incoming_step2_chunks)

abbrev pub fields_of : ChunkHeader → Bytes → ChunkFields
fields_of header shard = record {
  shard_index = header.shard_index;
  data_shards = header.data_shards;
  parity_shards = header.parity_shards;
  original_len = header.original_len;
  checksum = header.checksum;
  shard = shard;
}

-- A call on one field of the session.
abbrev pub on_step1_chunks :
    {A : Type 0} → Call (Option ChunkAccumulator) A → Call RatchetedSession A
on_step1_chunks f s =
    let r = f s.incoming_step1_chunks in (r.0, record s { incoming_step1_chunks = r.1 })

abbrev pub on_step2_chunks :
    {A : Type 0} → Call (Option ChunkAccumulator) A → Call RatchetedSession A
on_step2_chunks f s =
    let r = f s.incoming_step2_chunks in (r.0, record s { incoming_step2_chunks = r.1 })

module _ (aead : Aead) (kdf : Kdf) (x : Exchange) (code : ErasureCode) where
  unfoldable pub initiate_incremental_ratchet :
      (data_shards parity_shards : ℕ)
      → Draw
      → (attempt_nonce : Bytes) → Call RatchetedSession (List Bytes)
  initiate_incremental_ratchet data_shards parity_shards drawn attempt_nonce s =
      let kex = generate x drawn in
      elim s.pending [
        | some _ ↦ (err ratchet_in_progress, s)
        | none ↦
            (do
              chunk_key ←
                  lift
                    (derive_chunk_key aead kdf code s.root_key attempt_nonce label_chunk_key_step1)
              records ← lift (
                  build_chunk_records aead kdf code msg_ratchet_step1_chunk chunk_key attempt_nonce
                    (write_keys kex.x25519_public kex.ml_kem_public) data_shards parity_shards)
              modify (λ s. record s { pending = some kex; pending_epoch = s.send_epoch })
              pure records)
              s
      ]

  -- The responder's answer to a whole payload of step 1.
  unfoldable pub answer_step1_payload :
      ChunkHeader
      → Bytes × ℕ × ℕ
      → Draw
      → (reply_nonce : Bytes) → Call RatchetedSession ChunkOutcome
  answer_step1_payload header whole drawn reply_nonce = do
    keys ←
        lift
          (read_keys (ml_kem_public_from_bytes x) "trailing bytes in reconstructed ratchet step1"
            (new_reader whole.0)).0
    kex_out ← lift (responder_exchange x drawn keys.0 keys.1)
    root_key ← gets (λ s. s.root_key)
    reply_key ← lift (derive_chunk_key aead kdf code root_key reply_nonce label_chunk_key_step2)
    reply_records ← lift (
        build_chunk_records aead kdf code msg_ratchet_step2_chunk reply_key reply_nonce
          (write_keys kex_out.x25519_public kex_out.ml_kem_ciphertext) whole.1 whole.2)
    next ← lift (derive_next_epoch aead kdf x root_key kex_out.shared_secret false)
    send_epoch ← gets (λ s. s.send_epoch)
    advance_epoch send_epoch next
    modify (λ s. record s { last_completed_step1_attempt = some header.attempt_nonce })
    pure (step1_complete reply_records)

  unfoldable pub step1_gathered :
      ChunkHeader
      → Draw
      → (reply_nonce : Bytes) → Option (Bytes × ℕ × ℕ)
      → Call RatchetedSession ChunkOutcome
  step1_gathered header drawn reply_nonce none = pure still_accumulating
  step1_gathered header drawn reply_nonce (some whole) =
      answer_step1_payload header whole drawn reply_nonce

  -- A chunk of step 1 that is not a straggler, with no step of our own pending.
  unfoldable pub gather_step1_chunk :
      ChunkHeader
      → (header_bytes ciphertext : Bytes) → Draw
      → (reply_nonce : Bytes) → Call RatchetedSession ChunkOutcome
  gather_step1_chunk header header_bytes ciphertext drawn reply_nonce = do
    root_key ← gets (λ s. s.root_key)
    chunk_key ←
        lift (derive_chunk_key aead kdf code root_key header.attempt_nonce label_chunk_key_step1)
    shard ← lift (
        open_chunk aead kdf code chunk_key (chunk_nonce header.shard_index) header_bytes ciphertext)
    gathered ←
        on_step1_chunks
          (accumulate_chunk aead kdf code header.attempt_nonce (fields_of header shard))
    step1_gathered header drawn reply_nonce gathered

  unfoldable pub open_step1_chunk :
      ChunkHeader
      → (header_bytes ciphertext : Bytes) → Draw
      → (reply_nonce : Bytes) → Call RatchetedSession ChunkOutcome
  open_step1_chunk header header_bytes ciphertext drawn reply_nonce s =
      if same_attempt s.last_completed_step1_attempt header.attempt_nonce
      then (ok still_accumulating, s)
      else elim s.pending [
        | some _ ↦ (err ratchet_in_progress, s)
        | none ↦ gather_step1_chunk header header_bytes ciphertext drawn reply_nonce s
      ]

  -- The rest of step 2 once the pending key is taken out of the session: before `finish` is called.
  unfoldable pub finish_step2_taken :
      ChunkHeader → InitiatorKex → Bytes × Bytes → Call RatchetedSession ChunkOutcome
  finish_step2_taken header kex keys = do
    shared_secret ← lift (finish x kex keys.0 keys.1)
    root_key ← gets (λ s. s.root_key)
    next ← lift (derive_next_epoch aead kdf x root_key shared_secret true)
    send_epoch ← gets (λ s. s.send_epoch)
    advance_epoch send_epoch next
    modify (λ s. record s { last_completed_step2_attempt = some header.attempt_nonce })
    pure step2_complete

  -- The initiator's end, with a whole payload of step 2.
  unfoldable pub finish_step2_payload :
      ChunkHeader → InitiatorKex → Bytes × ℕ × ℕ → Call RatchetedSession ChunkOutcome
  finish_step2_payload header kex whole = do
    keys ←
        lift
          (read_keys (ml_kem_ciphertext_from_bytes x)
            "trailing bytes in reconstructed ratchet step2" (new_reader whole.0)).0
    modify (λ s. record s { pending = none })
    finish_step2_taken header kex keys

  unfoldable pub step2_gathered :
      ChunkHeader → InitiatorKex → Option (Bytes × ℕ × ℕ) → Call RatchetedSession ChunkOutcome
  step2_gathered header kex none = pure still_accumulating
  step2_gathered header kex (some whole) = finish_step2_payload header kex whole

  -- A chunk of step 2 that is not a straggler, for the pending step.
  unfoldable pub gather_step2_chunk :
      ChunkHeader
      → (header_bytes ciphertext : Bytes) → InitiatorKex
      → Call RatchetedSession ChunkOutcome
  gather_step2_chunk header header_bytes ciphertext kex = do
    root_key ← gets (λ s. s.root_key)
    chunk_key ←
        lift (derive_chunk_key aead kdf code root_key header.attempt_nonce label_chunk_key_step2)
    shard ← lift (
        open_chunk aead kdf code chunk_key (chunk_nonce header.shard_index) header_bytes ciphertext)
    gathered ←
        on_step2_chunks
          (accumulate_chunk aead kdf code header.attempt_nonce (fields_of header shard))
    step2_gathered header kex gathered

  unfoldable pub open_step2_chunk :
      ChunkHeader → (header_bytes ciphertext : Bytes) → Call RatchetedSession ChunkOutcome
  open_step2_chunk header header_bytes ciphertext s =
      if same_attempt s.last_completed_step2_attempt header.attempt_nonce
      then (ok still_accumulating, s)
      else elim s.pending [
        | none ↦ (err wrong_state, s)
        | some kex ↦ gather_step2_chunk header header_bytes ciphertext kex s
      ]

  unfoldable pub open_ratchet_chunk :
      Bytes → Draw → (reply_nonce : Bytes) → Call RatchetedSession ChunkOutcome
  open_ratchet_chunk bytes drawn reply_nonce = do
    parsed ← lift (parse_chunk_header bytes)
    let header = parsed.0
    let header_bytes = take header.header_len bytes
    if header.msg_type == msg_ratchet_step1_chunk
        then open_step1_chunk header header_bytes parsed.1 drawn reply_nonce
        else if header.msg_type == msg_ratchet_step2_chunk
        then open_step2_chunk header header_bytes parsed.1
        else fail (malformed "unknown ratchet chunk message type")
