-- ===== src/Ratchet/Epochs/Reach.antt =====
-- crates/core/src/ratchet.rs: the sessions that calls can lead to.
use novachannel.Common.{
  ℕ, Bool, none, some, Option-cases, Result, ok, err, panic, NoPanic, ◌∷◌, Bytes, inl, inr, refl,
}
use novachannel.Errors.{Error}
use novachannel.Crypto.{Aead, Kdf, Exchange, ErasureCode}
use novachannel.Kex.{Draw, InitiatorKex, generate}
use novachannel.Ratchet.{RatchetedSession, msg_ratchet_step1}
use novachannel.Ratchet.Session.{
  new_session, seal_payload, seal, initiate_ratchet, open_record, write_keys,
}
use novachannel.Ratchet.Epochs.{Keeps, Keeps-and_then, Steady, seal_payload-Keeps, Steady-sent}
use novachannel.Ratchet.Incremental.{initiate_incremental_ratchet, open_ratchet_chunk}
use novachannel.Ratchet.Epochs.ChunkSteps.{
  initiate_incremental_ratchet-Steady, open_ratchet_chunk-Steady,
}
use novachannel.Ratchet.Epochs.Steps.{Steady-pending, new_session-Steady, open_record-Steady}

module _ (aead : Aead) (kdf : Kdf) (x : Exchange) (code : ErasureCode) (ratchet_root : Bytes)
    (is_initiator : Bool) where
  -- A new session, and the session after any call that does not panic.
  pub data Reachable : RatchetedSession → Type 0 where
    start : Reachable (new_session aead kdf x ratchet_root is_initiator)
    sealed :
        (s : RatchetedSession) (plaintext : Bytes)
        → Reachable s
        → NoPanic (seal aead kdf x plaintext s).0
        → Reachable (seal aead kdf x plaintext s).1
    initiated :
        (s : RatchetedSession) (drawn : Draw)
        → Reachable s
        → NoPanic (initiate_ratchet aead kdf x drawn s).0
        → Reachable (initiate_ratchet aead kdf x drawn s).1
    opened :
        (s : RatchetedSession) (rec : Bytes) (drawn : Draw)
        → Reachable s
        → NoPanic (open_record aead kdf x rec drawn s).0
        → Reachable (open_record aead kdf x rec drawn s).1
    initiated_incremental :
        (s : RatchetedSession) (data_shards parity_shards : ℕ) (drawn : Draw) (nonce : Bytes)
        → Reachable s
        → NoPanic
            (initiate_incremental_ratchet aead kdf x code data_shards parity_shards drawn nonce s).0
        → Reachable
            (initiate_incremental_ratchet aead kdf x code data_shards parity_shards drawn nonce s).1
    chunk_opened :
        (s : RatchetedSession) (bytes : Bytes) (drawn : Draw) (nonce : Bytes)
        → Reachable s
        → NoPanic (open_ratchet_chunk aead kdf x code bytes drawn nonce s).0
        → Reachable (open_ratchet_chunk aead kdf x code bytes drawn nonce s).1

  Keeps-NoPanic :
      {A : Type 0} (P : RatchetedSession → Type 0) (q : Result Error A × RatchetedSession)
      → Keeps P q
      → NoPanic q.0
      → P q.1
  Keeps-NoPanic P (ok a, s) h n = h
  Keeps-NoPanic P (err e, s) h n = h
  Keeps-NoPanic P (panic, s) h n = elim n [ ]

  seal-Steady :
      (plaintext : Bytes) (s : RatchetedSession)
      → Steady kdf s
      → Keeps (Steady kdf) (seal aead kdf x plaintext s)
  unfolding seal
  seal-Steady plaintext s h =
      seal_payload-Keeps kdf aead x (Steady kdf) (Steady-sent kdf aead x) _ s h

  begun-Steady :
      (kex : InitiatorKex) (s : RatchetedSession)
      → Steady kdf s
      → Steady kdf (record s { pending = some kex; pending_epoch = s.send_epoch })
  begun-Steady kex s h = record {
    current = h.current;
    rooted = h.rooted;
    previous = h.previous;
    begun = λ k e. refl;
  }

  initiate_ratchet-Steady :
      (drawn : Draw) (s : RatchetedSession)
      → Steady kdf s
      → Keeps (Steady kdf) (initiate_ratchet aead kdf x drawn s)
  unfolding initiate_ratchet
  initiate_ratchet-Steady drawn s h =
      let kex = generate x drawn in
      elim (Option-cases s.pending) [
        | inr (k, e) ↦ rw e (Steady-pending aead kdf x s (some k) e h)
        | inl e ↦ rw e (
            Keeps-and_then (Steady kdf) (Steady kdf)
              (seal_payload aead kdf x
                (msg_ratchet_step1 ∷ write_keys kex.x25519_public kex.ml_kem_public)
                (record s { pending = none }))
              _
              (seal_payload-Keeps kdf aead x (Steady kdf) (Steady-sent kdf aead x) _ _
                (Steady-pending aead kdf x s none e h))
              (λ t k. k) (λ rec t k. begun-Steady kex t k))
      ]

  -- Every session that calls lead to, whatever was sealed and whatever records and chunks arrived, is in step: both
  -- directions are in one epoch, the previous chain is of the epoch before, a pending step was begun in
  -- this epoch, and each receive chain stands on a root with at most 1000 kept keys.
  pub Reachable-Steady : (s : RatchetedSession) → Reachable s → Steady kdf s
  Reachable-Steady s start = new_session-Steady aead kdf x ratchet_root is_initiator
  Reachable-Steady s (sealed t p r n) =
      Keeps-NoPanic (Steady kdf) (seal aead kdf x p t) (seal-Steady p t (Reachable-Steady t r)) n
  Reachable-Steady s (initiated t drawn r n) =
      Keeps-NoPanic (Steady kdf) (initiate_ratchet aead kdf x drawn t)
        (initiate_ratchet-Steady drawn t (Reachable-Steady t r)) n
  Reachable-Steady s (opened t rec drawn r n) =
      Keeps-NoPanic (Steady kdf) (open_record aead kdf x rec drawn t)
        (open_record-Steady aead kdf x rec drawn t (Reachable-Steady t r)) n
  Reachable-Steady s (initiated_incremental t d p drawn nonce r n) =
      Keeps-NoPanic (Steady kdf) (initiate_incremental_ratchet aead kdf x code d p drawn nonce t)
        (initiate_incremental_ratchet-Steady aead kdf x code d p drawn nonce t
          (Reachable-Steady t r))
        n
  Reachable-Steady s (chunk_opened t bytes drawn nonce r n) =
      Keeps-NoPanic (Steady kdf) (open_ratchet_chunk aead kdf x code bytes drawn nonce t)
        (open_ratchet_chunk-Steady aead kdf x code bytes drawn nonce t (Reachable-Steady t r)) n
