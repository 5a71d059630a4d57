-- ===== src/Ratchet/Epochs/ChunkAnswers.antt =====
-- crates/core/src/ratchet.rs: the epochs stay in step through a chunk of step 1.
use novachannel.Common.{
  ℕ, false, Option, none, some, Option-cases, refl, Result, ok, err, panic, and_then, Bool-cases,
  Bytes, inl, inr,
}
use novachannel.Errors.{Error, Call}
use novachannel.Crypto.{Aead, Kdf, Exchange, ErasureCode}
use novachannel.Wire.{new_reader}
use novachannel.Kex.{Draw, ml_kem_public_from_bytes, responder_exchange}
use novachannel.Ratchet.{RatchetedSession, ChunkAccumulator, msg_ratchet_step2_chunk}
use novachannel.Ratchet.Session.{read_keys, write_keys, derive_next_epoch, advance_epoch}
use novachannel.Ratchet.Chunks.{
  ChunkHeader, derive_chunk_key, chunk_nonce, open_chunk, build_chunk_records, accumulate_chunk,
  label_chunk_key_step1, label_chunk_key_step2,
}
use novachannel.Ratchet.Incremental.{
  same_attempt, fields_of, on_step1_chunks, on_step2_chunks, answer_step1_payload, open_step1_chunk,
  step1_gathered, gather_step1_chunk,
}
use novachannel.Ratchet.Epochs.{
  Keeps, Keeps-and_then, Keeps-lift, Steady, Idle, advance_epoch-Steady,
}

-- `Keeps-and_then` for a computation that does not touch the session.
pub Keeps-pure :
    {A B S : Type 0} (P Q : S → Type 0) (r : Result Error A) (s : S)
    (f : A → S → Result Error B × S)
    → P s
    → (P s → Q s)
    → ((a : A) → Keeps Q (f a s))
    → Keeps Q (and_then (r, s) f)
Keeps-pure P Q (ok a) s f h w k = k a
Keeps-pure P Q (err e) s f h w k = w h
Keeps-pure P Q panic s f h w k = tt

module _ (aead : Aead) (kdf : Kdf) (x : Exchange) (code : ErasureCode) where
  abbrev pub with_chunks :
      Option ChunkAccumulator
      → Option ChunkAccumulator
      → Option Bytes
      → Option Bytes
      → RatchetedSession
      → RatchetedSession
  with_chunks i1 i2 l1 l2 s = record s {
    incoming_step1_chunks = i1;
    incoming_step2_chunks = i2;
    last_completed_step1_attempt = l1;
    last_completed_step2_attempt = l2;
  }

  pub Steady-with_chunks :
      (s : RatchetedSession) (i1 i2 : Option ChunkAccumulator) (l1 l2 : Option Bytes)
      → Steady kdf s
      → Steady kdf (with_chunks i1 i2 l1 l2 s)
  Steady-with_chunks s i1 i2 l1 l2 h = record {
    current = h.current;
    rooted = h.rooted;
    previous = h.previous;
    begun = h.begun;
  }

  Keeps-on_step1_chunks :
      {A : Type 0} (epoch : ℕ) (f : Call (Option ChunkAccumulator) A) (s : RatchetedSession)
      → Idle kdf epoch s
      → Keeps (Idle kdf epoch) (on_step1_chunks f s)
  Keeps-on_step1_chunks epoch f s (h, e, p) =
      Keeps-lift (Idle kdf epoch) (f s.incoming_step1_chunks).0 _ (
        Steady-with_chunks s (f s.incoming_step1_chunks).1 s.incoming_step2_chunks
            s.last_completed_step1_attempt s.last_completed_step2_attempt h,
        e,
        p,
      )

  pub Keeps-on_step2_chunks :
      {A : Type 0} (f : Call (Option ChunkAccumulator) A) (s : RatchetedSession)
      → Steady kdf s
      → Keeps (Steady kdf) (on_step2_chunks f s)
  Keeps-on_step2_chunks f s h = Keeps-lift (Steady kdf) (f s.incoming_step2_chunks).0 _ (
      Steady-with_chunks s s.incoming_step1_chunks (f s.incoming_step2_chunks).1
        s.last_completed_step1_attempt s.last_completed_step2_attempt h)

  answer_step1_payload-Steady :
      (header : ChunkHeader) (whole : Bytes × ℕ × ℕ) (drawn : Draw) (reply_nonce : Bytes)
      (s : RatchetedSession)
      → Idle kdf s.send_epoch s
      → Keeps (Steady kdf) (answer_step1_payload aead kdf x code header whole drawn reply_nonce s)
  unfolding answer_step1_payload
  answer_step1_payload-Steady header whole drawn reply_nonce s h =
      let I = Idle kdf s.send_epoch in
      Keeps-pure I (Steady kdf)
        (read_keys (ml_kem_public_from_bytes x) "trailing bytes in reconstructed ratchet step1"
          (new_reader whole.0)).0
        s _ h (λ k. k.0)
        (λ keys.
          Keeps-pure I (Steady kdf) (responder_exchange x drawn keys.0 keys.1) s _ h (λ k. k.0)
            (λ kex.
              Keeps-pure I (Steady kdf)
                (derive_chunk_key aead kdf code s.root_key reply_nonce label_chunk_key_step2) s _ h
                (λ k. k.0)
                (λ key.
                  Keeps-pure I (Steady kdf)
                    (build_chunk_records aead kdf code msg_ratchet_step2_chunk key reply_nonce
                      (write_keys kex.x25519_public kex.ml_kem_ciphertext) whole.1 whole.2)
                    s _ h (λ k. k.0)
                    (λ records.
                      Keeps-pure I (Steady kdf)
                        (derive_next_epoch aead kdf x s.root_key kex.shared_secret false) s _ h
                        (λ k. k.0)
                        (λ next.
                          Keeps-and_then (Steady kdf) (Steady kdf)
                            (advance_epoch s.send_epoch next s) _
                            (advance_epoch-Steady kdf aead x s.send_epoch next s h) (λ t k. k)
                            (λ _ t k.
                              Steady-with_chunks t t.incoming_step1_chunks t.incoming_step2_chunks
                                (some header.attempt_nonce) t.last_completed_step2_attempt k))))))

  step1_gathered-Steady :
      (header : ChunkHeader) (drawn : Draw) (reply_nonce : Bytes) (epoch : ℕ)
      (found : Option (Bytes × ℕ × ℕ)) (t : RatchetedSession)
      → Idle kdf epoch t
      → Keeps (Steady kdf) (step1_gathered aead kdf x code header drawn reply_nonce found t)
  unfolding step1_gathered
  step1_gathered-Steady header drawn reply_nonce epoch none t k = k.0
  step1_gathered-Steady header drawn reply_nonce epoch (some whole) t (k, e, p) =
      answer_step1_payload-Steady header whole drawn reply_nonce t (k, refl, p)

  gather_step1_chunk-Steady :
      (header : ChunkHeader) (header_bytes ciphertext : Bytes) (drawn : Draw) (reply_nonce : Bytes)
      (t : RatchetedSession)
      → Idle kdf t.send_epoch t
      → Keeps
          (Steady kdf)
          (gather_step1_chunk aead kdf x code header header_bytes ciphertext drawn reply_nonce t)
  unfolding gather_step1_chunk
  gather_step1_chunk-Steady header header_bytes ciphertext drawn reply_nonce t k =
      let I = Idle kdf t.send_epoch in
      Keeps-pure I (Steady kdf)
        (derive_chunk_key aead kdf code t.root_key header.attempt_nonce label_chunk_key_step1) t _ k
        (λ k. k.0)
        (λ key.
          Keeps-pure I (Steady kdf)
            (open_chunk aead kdf code key (chunk_nonce header.shard_index) header_bytes ciphertext)
            t _ k (λ k. k.0)
            (λ shard.
              let gather =
                accumulate_chunk aead kdf code header.attempt_nonce (fields_of header shard) in
              Keeps-and_then I (Steady kdf) (on_step1_chunks gather t) _
                (Keeps-on_step1_chunks t.send_epoch gather t k) (λ t k. k.0)
                (step1_gathered-Steady header drawn reply_nonce t.send_epoch)))

  pub open_step1_chunk-Steady :
      (header : ChunkHeader) (header_bytes ciphertext : Bytes) (drawn : Draw) (reply_nonce : Bytes)
      (s : RatchetedSession)
      → Steady kdf s
      → Keeps
          (Steady kdf)
          (open_step1_chunk aead kdf x code header header_bytes ciphertext drawn reply_nonce s)
  unfolding open_step1_chunk
  open_step1_chunk-Steady header header_bytes ciphertext drawn reply_nonce s h =
      elim (Bool-cases (same_attempt s.last_completed_step1_attempt header.attempt_nonce)) [
        | inl straggler ↦ rw straggler h
        | inr new ↦ elim (Option-cases s.pending) [
          | inr (k, e) ↦ rw (new, e) h
          | inl e ↦
              rw (new, e)
                (gather_step1_chunk-Steady header header_bytes ciphertext drawn reply_nonce s
                  (h, refl, e))
        ]
      ]
