-- ===== src/Ratchet/Epochs.antt =====
-- crates/core/src/ratchet.rs: the epochs of a session stay in step: the invariant, and the parts of a call.
pub mod Steps
pub mod ChunkAnswers
pub mod ChunkSteps
pub mod Reach
use novachannel.Common.{
  ℕ, ◌+◌, ◌^◌, ◌<◌, ◌≡◌, refl, ap, sym, subst, ◌∙◌, Bool, true, false, not, Option, none, some,
  Option-cases, List, [], ◌∷◌, Result, ok, err, panic, and_then, if◌then◌else◌, ltb, ◌==◌, ==_iff,
  Bool-cases, arith, length, take, drop, Bytes, inl, inr,
}
use novachannel.Errors.{Error}
use novachannel.Crypto.{Aead, Kdf, Exchange}
use novachannel.Wire.{new_reader, from_be_bytes}
use novachannel.Kex.{
  Draw, InitiatorKex, generate, finish, responder_exchange, ml_kem_public_from_bytes,
  ml_kem_ciphertext_from_bytes,
}
use novachannel.Ratchet.{RatchetedSession, RecvChain, advance, seal_with_message_key, header_bytes}
use novachannel.Ratchet.Receive.{open_on}
use novachannel.Ratchet.Chain.{Tracks, After, forget, forget-Tracks}
use novachannel.Ratchet.Chain.Skipped.{chain_at}
use novachannel.Ratchet.Chain.Outcome.{
  Outcome, replayed, too_many, refused_late, refused, opened, exhausted, open_on-Outcome,
}
use novachannel.Ratchet.Session.{
  Opened, EpochKeys, new_session, new_recv_chain, advance_epoch, seal_payload, seal,
  initiate_ratchet, answer_step1, handle_step1, finish_step2, handle_step2, open_on_current,
  open_on_previous, open_in_epoch, dispatch, open_record,
}

-- What holds of the object after a call, unless the call panics.
abbrev pub Keeps : {A S : Type 0} → (S → Type 0) → Result Error A × S → Type 0
Keeps P (ok _, s) = P s
Keeps P (err _, s) = P s
Keeps P (panic, s) = Unit

pub Keeps-and_then :
    {A B S : Type 0} (P Q : S → Type 0) (q : Result Error A × S) (f : A → S → Result Error B × S)
    → Keeps P q
    → ((s : S) → P s → Q s)
    → ((a : A) (s : S) → P s → Keeps Q (f a s))
    → Keeps Q (and_then q f)
Keeps-and_then P Q (ok a, s) f h w k = k a s h
Keeps-and_then P Q (err e, s) f h w k = w s h
Keeps-and_then P Q (panic, s) f h w k = tt

pub Keeps-lift : {A S : Type 0} (P : S → Type 0) (r : Result Error A) (s : S) → P s → Keeps P (r, s)
Keeps-lift P (ok a) s h = h
Keeps-lift P (err e) s h = h
Keeps-lift P panic s h = tt

module _ (kdf : Kdf) where
  -- A chain that stands on some root.
  abbrev pub Rooted : RecvChain → Type 0
  Rooted c = (root : Bytes) × Tracks kdf root c

  -- Both directions are in one epoch, the previous chain is of the one before, and a pending step was
  -- begun in this one.
  pub record Steady (s : RatchetedSession) : Type 0 where
    pub current : s.recv_current.epoch ≡ s.send_epoch
    pub rooted : Rooted s.recv_current
    pub previous :
        (p : RecvChain) → s.recv_previous ≡ some p → (p.epoch + 1 ≡ s.send_epoch) × Rooted p
    pub begun : (k : InitiatorKex) → s.pending ≡ some k → s.pending_epoch ≡ s.send_epoch

  -- As `Steady`, in the given epoch and with no step pending.
  abbrev pub Idle : ℕ → RatchetedSession → Type 0
  Idle epoch s = Steady s × (s.send_epoch ≡ epoch) × (s.pending ≡ none)

  module _ (aead : Aead) (x : Exchange) where
    Outcome-Rooted :
        (root : Bytes) (c : RecvChain) (seq : ℕ) (aad ciphertext : Bytes)
        {q : Result Error Bytes × RecvChain}
        → Tracks kdf root c
        → Outcome kdf root aead c seq aad ciphertext q
        → Keeps (λ c'. (c'.epoch ≡ c.epoch) × Rooted c') q
    Outcome-Rooted root c seq aad ciphertext t (replayed _) = (refl, (root, t))
    Outcome-Rooted root c seq aad ciphertext t (too_many _ _) = (refl, (root, t))
    Outcome-Rooted root c seq aad ciphertext t (refused_late _ _ _) =
        (refl, (root, forget-Tracks kdf root c seq t))
    Outcome-Rooted root c seq aad ciphertext t (refused _ _) = (refl, (root, t))
    Outcome-Rooted root c seq aad ciphertext t (opened p c' _ _ a) =
        (a.same_epoch, (root, a.tracks))
    Outcome-Rooted root c seq aad ciphertext t (exhausted _ _ _ _) = tt

    open_on-Rooted :
        (c : RecvChain) (seq : ℕ) (aad ciphertext : Bytes)
        → Rooted c
        → Keeps (λ c'. (c'.epoch ≡ c.epoch) × Rooted c') (open_on aead kdf seq aad ciphertext c)
    open_on-Rooted c seq aad ciphertext (root, t) =
        Outcome-Rooted root c seq aad ciphertext t
          (open_on-Outcome kdf root aead c seq aad ciphertext t)

    place_current :
        (s : RatchetedSession) (q : Result Error Bytes × RecvChain)
        → Steady s
        → Keeps (λ c'. (c'.epoch ≡ s.recv_current.epoch) × Rooted c') q
        → Keeps Steady (q.0, record s { recv_current = q.1 })
    place_current s (panic, c') h k = tt
    place_current s (ok _, c') h (e, r) = record {
      current = e ∙ h.current;
      rooted = r;
      previous = h.previous;
      begun = h.begun;
    }
    place_current s (err _, c') h (e, r) = record {
      current = e ∙ h.current;
      rooted = r;
      previous = h.previous;
      begun = h.begun;
    }

    with_previous :
        (s : RatchetedSession) (p c' : RecvChain)
        → Steady s
        → p.epoch + 1 ≡ s.send_epoch
        → (c'.epoch ≡ p.epoch) × Rooted c'
        → Steady (record s { recv_previous = some c' })
    with_previous s p c' h before (e, r) = record {
      current = h.current;
      rooted = h.rooted;
      previous = λ p' e'.
          let same : c' ≡ p' = cc in
          subst (λ c. (c.epoch + 1 ≡ s.send_epoch) × Rooted c) same (omega (arith, e, before), r);
      begun = h.begun;
    }

    place_previous :
        (s : RatchetedSession) (p : RecvChain) (q : Result Error Bytes × RecvChain)
        → Steady s
        → p.epoch + 1 ≡ s.send_epoch
        → Keeps (λ c'. (c'.epoch ≡ p.epoch) × Rooted c') q
        → Keeps Steady (q.0, record s { recv_previous = some q.1 })
    place_previous s p (panic, c') h before k = tt
    place_previous s p (ok _, c') h before k = with_previous s p c' h before k
    place_previous s p (err _, c') h before k = with_previous s p c' h before k

    pub open_in_epoch-Steady :
        (epoch seq : ℕ) (aad ciphertext : Bytes) (s : RatchetedSession)
        → Steady s
        → Keeps Steady (open_in_epoch aead kdf x epoch seq aad ciphertext s)
    unfolding open_in_epoch open_on_current open_on_previous
    open_in_epoch-Steady epoch seq aad ciphertext s h =
        elim (Bool-cases (epoch == s.recv_current.epoch)) [
          | inl now ↦
              rw now
                (place_current s _ h (open_on-Rooted s.recv_current seq aad ciphertext h.rooted))
          | inr other ↦ elim (Option-cases s.recv_previous) [
            | inl e ↦ rw (other, e) h
            | inr (p, e) ↦ elim (Bool-cases (p.epoch == epoch)) [
              | inl before ↦
                  let (one_before, rooted) = h.previous p e in
                  rw (other, e, before)
                    (place_previous s p _ h one_before (open_on-Rooted p seq aad ciphertext rooted))
              | inr neither ↦ rw (other, e, neither) h
            ]
          ]
        ]

    -- A property that does not speak of the sending chain survives sealing.
    pub seal_payload-Keeps :
        (P : RatchetedSession → Type 0)
        → ((s : RatchetedSession) (seq : ℕ) (chain : Bytes)
            → P s
            → P (record s { send_seq = seq; send_chain = chain }))
        → (payload : Bytes) (s : RatchetedSession) → P s
        → Keeps P (seal_payload aead kdf x payload s)
    unfolding seal_payload
    seal_payload-Keeps P same payload s h = elim (Bool-cases (s.send_seq + 1 == 2 ^ 64)) [
      | inl full ↦ rw full h
      | inr room ↦ rw room (
          Keeps-and_then P P
            (
              seal_with_message_key aead (advance kdf s.send_chain).message_key
                  (header_bytes s.send_epoch s.send_seq) payload,
              record s { send_seq = s.send_seq + 1 },
            )
            _ (Keeps-lift P _ _ (same s (s.send_seq + 1) s.send_chain h)) (λ t k. k)
            (λ c t k. same t t.send_seq (advance kdf s.send_chain).next_chain k))
    ]

    pub Steady-sent :
        (s : RatchetedSession) (seq : ℕ) (chain : Bytes)
        → Steady s
        → Steady (record s { send_seq = seq; send_chain = chain })
    Steady-sent s seq chain h = record {
      current = h.current;
      rooted = h.rooted;
      previous = h.previous;
      begun = h.begun;
    }

    pub Idle-sent :
        (epoch : ℕ) (s : RatchetedSession) (seq : ℕ) (chain : Bytes)
        → Idle epoch s
        → Idle epoch (record s { send_seq = seq; send_chain = chain })
    Idle-sent epoch s seq chain (h, e, none_pending) = (Steady-sent s seq chain h, e, none_pending)

    pub new_chain-Tracks :
        (epoch : ℕ) (chain : Bytes) → Tracks kdf chain (new_recv_chain epoch chain)
    unfolding new_recv_chain chain_at
    new_chain-Tracks epoch chain = record { at = refl; keys = tt; bounded = omega arith }

    pub advance_epoch-Steady :
        (epoch : ℕ) (keys : EpochKeys) (s : RatchetedSession)
        → Idle epoch s
        → Keeps Steady (advance_epoch epoch keys s)
    unfolding advance_epoch new_recv_chain
    advance_epoch-Steady epoch keys s (h, e, none_pending) =
        elim (Bool-cases (epoch + 1 == 2 ^ 32)) [
          | inl full ↦ rw full tt
          | inr room ↦ rw room (record {
            current = refl;
            rooted = (keys.new_recv, new_chain-Tracks (epoch + 1) keys.new_recv);
            previous = λ p e'.
                let same : s.recv_current ≡ p = cc in
                subst (λ c. (c.epoch + 1 ≡ epoch + 1) × Rooted c) same
                  (omega (arith, h.current, e), h.rooted);
            begun = λ k e'. absurd (cc);
          })
        ]
