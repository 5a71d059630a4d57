-- ===== src/Ratchet/Epochs/Steps.antt =====
-- crates/core/src/ratchet.rs: the epochs of a session stay in step, whatever it sends and receives.
use novachannel.Common.{
  ℕ, ◌≡◌, refl, sym, ◌∙◌, Bool, true, false, Option, none, some, Option-cases, [], ◌∷◌, ◌>>=◌, ◌>>◌,
  pure, gets, lift, ltb, ◌==◌, ==_iff, Bool-cases, length, take, drop, Bytes, inl, inr,
}
use novachannel.Crypto.{Aead, Kdf, Exchange}
use novachannel.Wire.{new_reader, from_be_bytes}
use novachannel.Kex.{
  Draw, InitiatorKex, ResponderKex, finish, responder_exchange, ml_kem_public_from_bytes,
  ml_kem_ciphertext_from_bytes,
}
use novachannel.Ratchet.{RatchetedSession, msg_ratchet_step2}
use novachannel.Ratchet.Session.{
  read_keys, write_keys, derive_next_epoch, new_session, advance_epoch, seal_payload, answer_step1,
  handle_step1, finish_step2, handle_step2, open_in_epoch, dispatch, open_record,
}
use novachannel.Ratchet.Epochs.{
  Keeps, Keeps-and_then, Keeps-lift, Steady, Idle, seal_payload-Keeps, Idle-sent,
  advance_epoch-Steady, open_in_epoch-Steady, new_chain-Tracks,
}

module _ (aead : Aead) (kdf : Kdf) (x : Exchange) where
  pub Steady-pending :
      (s : RatchetedSession) (o : Option InitiatorKex)
      → s.pending ≡ o
      → Steady kdf s
      → Steady kdf (record s { pending = o })
  Steady-pending s o e h = record {
    current = h.current;
    rooted = h.rooted;
    previous = h.previous;
    begun = λ k e'. h.begun k (e ∙ e');
  }

  answer_step1-Steady :
      (epoch : ℕ) (payload : Bytes) (drawn : Draw) (s : RatchetedSession)
      → Idle kdf epoch s
      → Keeps (Steady kdf) (answer_step1 aead kdf x epoch payload drawn s)
  unfolding answer_step1
  answer_step1-Steady epoch payload drawn s h =
      Keeps-and_then (Idle kdf epoch) (Steady kdf)
        (
          (read_keys (ml_kem_public_from_bytes x) "trailing bytes in ratchet step1"
              (new_reader payload)).0,
          s,
        )
        _ (Keeps-lift (Idle kdf epoch) _ s h) (λ t k. k.0)
        (λ keys t k.
          Keeps-and_then (Idle kdf epoch) (Steady kdf) (responder_exchange x drawn keys.0 keys.1, t)
            _ (Keeps-lift (Idle kdf epoch) _ t k) (λ t k. k.0) (λ kex t k. reply kex t k))
    where
      reply :
          (kex : ResponderKex) (t : RatchetedSession)
          → Idle kdf epoch t
          → Keeps (Steady kdf) (
              (do
                sealed ←
                    seal_payload aead kdf x
                      (msg_ratchet_step2 ∷ write_keys kex.x25519_public kex.ml_kem_ciphertext)
                root_key ← gets (λ s. s.root_key)
                next ← lift (derive_next_epoch aead kdf x root_key kex.shared_secret false)
                advance_epoch epoch next
                pure sealed)
                t)
      reply kex t k =
          Keeps-and_then (Idle kdf epoch) (Steady kdf)
            (seal_payload aead kdf x
              (msg_ratchet_step2 ∷ write_keys kex.x25519_public kex.ml_kem_ciphertext) t)
            _ (seal_payload-Keeps kdf aead x (Idle kdf epoch) (Idle-sent kdf aead x epoch) _ t k)
            (λ t k. k.0)
            (λ sealed t k.
              Keeps-and_then (Idle kdf epoch) (Steady kdf)
                (derive_next_epoch aead kdf x t.root_key kex.shared_secret false, t) _
                (Keeps-lift (Idle kdf epoch) _ t k) (λ t k. k.0)
                (λ next t k.
                  Keeps-and_then (Steady kdf) (Steady kdf) (advance_epoch epoch next t) _
                    (advance_epoch-Steady kdf aead x epoch next t k) (λ t k. k) (λ _ t k. k)))

  handle_step1-Steady :
      (epoch : ℕ) (payload : Bytes) (drawn : Draw) (s : RatchetedSession)
      → Steady kdf s
      → Keeps (Steady kdf) (handle_step1 aead kdf x epoch payload drawn s)
  unfolding handle_step1
  handle_step1-Steady epoch payload drawn s h = elim (Option-cases s.pending) [
    | inr (k, e) ↦ rw e (Steady-pending s (some k) e h)
    | inl e ↦ elim (Bool-cases (epoch == s.send_epoch)) [
      | inr other ↦ rw (e, other) (Steady-pending s none e h)
      | inl now ↦
          rw (e, now)
            (answer_step1-Steady epoch payload drawn (record s { pending = none })
              (Steady-pending s none e h, sym ((==_iff epoch s.send_epoch).0 now), refl))
    ]
  ]

  finish_step2-Steady :
      (kex : InitiatorKex) (epoch : ℕ) (payload : Bytes) (s : RatchetedSession)
      → Idle kdf epoch s
      → Keeps (Steady kdf) (finish_step2 aead kdf x kex epoch payload s)
  unfolding finish_step2
  finish_step2-Steady kex epoch payload s h =
      Keeps-and_then (Idle kdf epoch) (Steady kdf)
        (
          (read_keys (ml_kem_ciphertext_from_bytes x) "trailing bytes in ratchet step2"
              (new_reader payload)).0,
          s,
        )
        _ (Keeps-lift (Idle kdf epoch) _ s h) (λ t k. k.0)
        (λ keys t k.
          Keeps-and_then (Idle kdf epoch) (Steady kdf) (finish x kex keys.0 keys.1, t) _
            (Keeps-lift (Idle kdf epoch) _ t k) (λ t k. k.0)
            (λ ss t k.
              Keeps-and_then (Idle kdf epoch) (Steady kdf)
                (derive_next_epoch aead kdf x t.root_key ss true, t) _
                (Keeps-lift (Idle kdf epoch) _ t k) (λ t k. k.0)
                (λ next t k. advance_epoch-Steady kdf aead x epoch next t k)))

  handle_step2-Steady :
      (epoch : ℕ) (payload : Bytes) (s : RatchetedSession)
      → Steady kdf s
      → Keeps (Steady kdf) (handle_step2 aead kdf x epoch payload s)
  unfolding handle_step2
  handle_step2-Steady epoch payload s h = elim (Option-cases s.pending) [
    | inl e ↦ rw e (Steady-pending s none e h)
    | inr (kex, e) ↦ elim (Bool-cases (s.pending_epoch == epoch)) [
      | inr other ↦ rw (e, other) (Steady-pending s (some kex) e h)
      | inl begun ↦
          rw (e, begun)
            (finish_step2-Steady kex epoch payload (record s { pending = none })
              (
                record {
                  current = h.current;
                  rooted = h.rooted;
                  previous = h.previous;
                  begun = λ k e'. absurd (cc);
                },
                sym (h.begun kex e) ∙ (==_iff s.pending_epoch epoch).0 begun,
                refl,
              ))
    ]
  ]

  dispatch-Steady :
      (epoch : ℕ) (plaintext : Bytes) (drawn : Draw) (s : RatchetedSession)
      → Steady kdf s
      → Keeps (Steady kdf) (dispatch aead kdf x epoch plaintext drawn s)
  unfolding dispatch
  dispatch-Steady epoch [] drawn s h = h
  dispatch-Steady epoch (t ∷ body) drawn s h = elim (Bool-cases (t == 0)) [
    | inl plain ↦ rw plain h
    | inr not_plain ↦ elim (Bool-cases (t == 1)) [
      | inl one ↦
          rw (not_plain, one)
            (Keeps-and_then (Steady kdf) (Steady kdf) (handle_step1 aead kdf x epoch body drawn s) _
              (handle_step1-Steady epoch body drawn s h) (λ t k. k) (λ reply t k. k))
      | inr no_one ↦ elim (Bool-cases (t == 2)) [
        | inl two ↦
            rw (not_plain, no_one, two)
              (Keeps-and_then (Steady kdf) (Steady kdf) (handle_step2 aead kdf x epoch body s) _
                (handle_step2-Steady epoch body s h) (λ t k. k) (λ _ t k. k))
        | inr no_two ↦ rw (not_plain, no_one, no_two) h
      ]
    ]
  ]

  -- Whatever record arrives, honest or forged, a session that is in step stays in step unless the call
  -- panics: both directions are in one epoch, the previous chain is of the epoch before, a pending step
  -- was begun in this one, and each receive chain stands on a root with at most 1000 kept keys.
  pub open_record-Steady :
      (rec : Bytes) (drawn : Draw) (s : RatchetedSession)
      → Steady kdf s
      → Keeps (Steady kdf) (open_record aead kdf x rec drawn s)
  unfolding open_record
  open_record-Steady rec drawn s h = elim (Bool-cases (ltb (length rec) 12)) [
    | inl short ↦ rw short h
    | inr long ↦ rw long (
        Keeps-and_then (Steady kdf) (Steady kdf)
          (open_in_epoch aead kdf x (from_be_bytes (take 4 rec))
            (from_be_bytes (take 8 (drop 4 rec))) (take 12 rec) (drop 12 rec) s)
          _ (open_in_epoch-Steady kdf aead x _ _ _ _ s h) (λ t k. k)
          (λ plaintext t k. dispatch-Steady _ plaintext drawn t k))
  ]

  pub new_session-Steady :
      (ratchet_root : Bytes) (is_initiator : Bool)
      → Steady kdf (new_session aead kdf x ratchet_root is_initiator)
  unfolding new_session
  new_session-Steady ratchet_root is_initiator = record {
    current = refl;
    rooted = (_, new_chain-Tracks kdf aead x 0 _);
    previous = λ p e. absurd (cc);
    begun = λ k e. absurd (cc);
  }
