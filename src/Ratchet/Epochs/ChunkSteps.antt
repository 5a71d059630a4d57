-- ===== src/Ratchet/Epochs/ChunkSteps.antt =====
-- crates/core/src/ratchet.rs: the epochs stay in step through the incremental step as well.
use novachannel.Common.{
  ℕ, true, Option, none, some, Option-cases, refl, ◌>>=◌, ◌>>◌, pure, lift, modify, ◌==◌,
  Bool-cases, Bytes, inl, inr,
}
use novachannel.Crypto.{Aead, Kdf, Exchange, ErasureCode}
use novachannel.Wire.{new_reader}
use novachannel.Kex.{Draw, InitiatorKex, ml_kem_ciphertext_from_bytes, generate, finish}
use novachannel.Ratchet.{RatchetedSession, msg_ratchet_step1_chunk}
use novachannel.Ratchet.Session.{read_keys, write_keys, derive_next_epoch, advance_epoch}
use novachannel.Ratchet.Chunks.{
  ChunkHeader, parse_chunk_header, derive_chunk_key, chunk_nonce, open_chunk, build_chunk_records,
  accumulate_chunk, label_chunk_key_step1, label_chunk_key_step2,
}
use novachannel.Ratchet.Incremental.{
  same_attempt, fields_of, on_step2_chunks, initiate_incremental_ratchet, finish_step2_taken,
  finish_step2_payload, open_step2_chunk, step2_gathered, gather_step2_chunk, open_ratchet_chunk,
}
use novachannel.Ratchet.Epochs.{Keeps, Keeps-and_then, Steady, Idle, advance_epoch-Steady}
use novachannel.Ratchet.Epochs.Steps.{Steady-pending}
use novachannel.Ratchet.Epochs.ChunkAnswers.{
  Keeps-pure, Steady-with_chunks, Keeps-on_step2_chunks, open_step1_chunk-Steady,
}

module _ (aead : Aead) (kdf : Kdf) (x : Exchange) (code : ErasureCode) where
  finish_step2_taken-Steady :
      (header : ChunkHeader) (kex : InitiatorKex) (keys : Bytes × Bytes) (t : RatchetedSession)
      → Idle kdf t.send_epoch t
      → Keeps (Steady kdf) (finish_step2_taken aead kdf x code header kex keys t)
  unfolding finish_step2_taken
  finish_step2_taken-Steady header kex keys t k =
      let I = Idle kdf t.send_epoch in
      Keeps-pure I (Steady kdf) (finish x kex keys.0 keys.1) t _ k (λ k. k.0)
        (λ ss.
          Keeps-pure I (Steady kdf) (derive_next_epoch aead kdf x t.root_key ss true) t _ k
            (λ k. k.0)
            (λ next.
              Keeps-and_then (Steady kdf) (Steady kdf) (advance_epoch t.send_epoch next t) _
                (advance_epoch-Steady kdf aead x t.send_epoch next t k) (λ t k. k)
                (λ _ u k.
                  Steady-with_chunks aead kdf x code u u.incoming_step1_chunks
                    u.incoming_step2_chunks u.last_completed_step1_attempt
                    (some header.attempt_nonce) k)))

  finish_step2_payload-Steady :
      (header : ChunkHeader) (kex : InitiatorKex) (whole : Bytes × ℕ × ℕ) (s : RatchetedSession)
      → Steady kdf s
      → Keeps (Steady kdf) (finish_step2_payload aead kdf x code header kex whole s)
  unfolding finish_step2_payload
  finish_step2_payload-Steady header kex whole s h =
      Keeps-pure (Steady kdf) (Steady kdf)
        (read_keys (ml_kem_ciphertext_from_bytes x) "trailing bytes in reconstructed ratchet step2"
          (new_reader whole.0)).0
        s _ h (λ k. k)
        (λ keys.
          finish_step2_taken-Steady header kex keys (record s { pending = none })
            (
              record {
                current = h.current;
                rooted = h.rooted;
                previous = h.previous;
                begun = λ k e. absurd (cc);
              },
              refl,
              refl,
            ))

  step2_gathered-Steady :
      (header : ChunkHeader) (kex : InitiatorKex) (found : Option (Bytes × ℕ × ℕ))
      (t : RatchetedSession)
      → Steady kdf t
      → Keeps (Steady kdf) (step2_gathered aead kdf x code header kex found t)
  unfolding step2_gathered
  step2_gathered-Steady header kex none t k = k
  step2_gathered-Steady header kex (some whole) t k =
      finish_step2_payload-Steady header kex whole t k

  gather_step2_chunk-Steady :
      (header : ChunkHeader) (header_bytes ciphertext : Bytes) (kex : InitiatorKex)
      (t : RatchetedSession)
      → Steady kdf t
      → Keeps (Steady kdf) (gather_step2_chunk aead kdf x code header header_bytes ciphertext kex t)
  unfolding gather_step2_chunk
  gather_step2_chunk-Steady header header_bytes ciphertext kex t k =
      Keeps-pure (Steady kdf) (Steady kdf)
        (derive_chunk_key aead kdf code t.root_key header.attempt_nonce label_chunk_key_step2) t _ k
        (λ k. k)
        (λ key.
          Keeps-pure (Steady kdf) (Steady kdf)
            (open_chunk aead kdf code key (chunk_nonce header.shard_index) header_bytes ciphertext)
            t _ k (λ k. k)
            (λ shard.
              let gather =
                accumulate_chunk aead kdf code header.attempt_nonce (fields_of header shard) in
              Keeps-and_then (Steady kdf) (Steady kdf) (on_step2_chunks gather t) _
                (Keeps-on_step2_chunks aead kdf x code gather t k) (λ t k. k)
                (step2_gathered-Steady header kex)))

  open_step2_chunk-Steady :
      (header : ChunkHeader) (header_bytes ciphertext : Bytes) (s : RatchetedSession)
      → Steady kdf s
      → Keeps (Steady kdf) (open_step2_chunk aead kdf x code header header_bytes ciphertext s)
  unfolding open_step2_chunk
  open_step2_chunk-Steady header header_bytes ciphertext s h =
      elim (Bool-cases (same_attempt s.last_completed_step2_attempt header.attempt_nonce)) [
        | inl straggler ↦ rw straggler h
        | inr new ↦ elim (Option-cases s.pending) [
          | inl e ↦ rw (new, e) h
          | inr (kex, e) ↦
              rw (new, e) (gather_step2_chunk-Steady header header_bytes ciphertext kex s h)
        ]
      ]

  pub open_ratchet_chunk-Steady :
      (bytes : Bytes) (drawn : Draw) (reply_nonce : Bytes) (s : RatchetedSession)
      → Steady kdf s
      → Keeps (Steady kdf) (open_ratchet_chunk aead kdf x code bytes drawn reply_nonce s)
  unfolding open_ratchet_chunk
  open_ratchet_chunk-Steady bytes drawn reply_nonce s h =
      Keeps-pure (Steady kdf) (Steady kdf) (parse_chunk_header bytes) s _ h (λ k. k)
        (λ parsed. elim (Bool-cases (parsed.0.msg_type == 3)) [
          | inl one ↦ rw one (open_step1_chunk-Steady aead kdf x code _ _ _ drawn reply_nonce s h)
          | inr not_one ↦ elim (Bool-cases (parsed.0.msg_type == 4)) [
            | inl two ↦ rw (not_one, two) (open_step2_chunk-Steady _ _ _ s h)
            | inr not_two ↦ rw (not_one, not_two) h
          ]
        ])

  pub initiate_incremental_ratchet-Steady :
      (data_shards parity_shards : ℕ) (drawn : Draw) (attempt_nonce : Bytes) (s : RatchetedSession)
      → Steady kdf s
      → Keeps (Steady kdf) (
          initiate_incremental_ratchet aead kdf x code data_shards parity_shards drawn attempt_nonce
            s)
  unfolding initiate_incremental_ratchet
  initiate_incremental_ratchet-Steady data_shards parity_shards drawn attempt_nonce s h =
      elim (Option-cases s.pending) [
        | inr (k, e) ↦ rw e (Steady-pending aead kdf x s (some k) e h)
        | inl e ↦ rw e (begin (record s { pending = none }) (Steady-pending aead kdf x s none e h))
      ]
    where
      begin :
          (t : RatchetedSession)
          → Steady kdf t
          → Keeps (Steady kdf) (
              (do
                chunk_key ←
                    lift (
                      derive_chunk_key aead kdf code t.root_key attempt_nonce label_chunk_key_step1)
                records ← lift (
                    build_chunk_records aead kdf code msg_ratchet_step1_chunk chunk_key
                      attempt_nonce
                      (write_keys (generate x drawn).x25519_public (generate x drawn).ml_kem_public)
                      data_shards
                      parity_shards)
                modify (λ s. record s {
                  pending = some (generate x drawn);
                  pending_epoch = s.send_epoch;
                })
                pure records)
                t)
      begin t k =
          Keeps-pure (Steady kdf) (Steady kdf)
            (derive_chunk_key aead kdf code t.root_key attempt_nonce label_chunk_key_step1) t _ k
            (λ k. k)
            (λ key.
              Keeps-pure (Steady kdf) (Steady kdf)
                (build_chunk_records aead kdf code msg_ratchet_step1_chunk key attempt_nonce
                  (write_keys (generate x drawn).x25519_public (generate x drawn).ml_kem_public)
                  data_shards parity_shards)
                t _ k (λ k. k)
                (λ records. record {
                  current = k.current;
                  rooted = k.rooted;
                  previous = k.previous;
                  begun = λ _ _. refl;
                }))
