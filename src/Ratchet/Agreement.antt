-- ===== src/Ratchet/Agreement.antt =====
-- crates/core/src/ratchet.rs: a one-shot ratchet step between two sessions.
pub mod Keys
pub mod Step
mod Tests
use novachannel.Common.{
  ℕ, ◌+◌, ◌^◌, ◌<◌, ◌≡◌, refl, ap, sym, ◌∙◌, Bool, true, false, Option, none, some, [], ◌∷◌, ◌++◌,
  Result, ok, err, not, if◌then◌else◌, and_then, ◌==◌, arith, length, replicate, Bytes,
}
use novachannel.Errors.{Error, ratchet_in_progress, wrong_state}
use novachannel.Crypto.{Aead, IsAead, Kdf, IsKdf, Exchange, IsExchange}
use novachannel.Wire.{new_reader}
use novachannel.Kex.{
  Draw, InitiatorKex, ResponderKex, generate, finish, responder_exchange, ml_kem_public_from_bytes,
  ml_kem_ciphertext_from_bytes,
}
use novachannel.Kex.Agreement.{answer, exchanged}
use novachannel.Ratchet.{RatchetedSession, RecvChain, header_bytes}
use novachannel.Ratchet.Chain.{available, After}
use novachannel.Ratchet.Session.{
  Opened, ratchet_advanced, EpochKeys, new_recv_chain, advance_epoch, read_keys, write_keys,
  derive_next_epoch, seal_payload, initiate_ratchet, answer_step1, handle_step1, finish_step2,
  handle_step2, dispatch, open_record,
}
use novachannel.Ratchet.Delivery.{
  Linked, in_reach, sealed_with, sent, seal_payload-sealed, open_record-dispatch,
}
use novachannel.Ratchet.Agreement.Keys.{
  read_keys-write_keys, other_side, derive_next_epoch-other_side,
}

module _ (kdf : Kdf) where
  -- Two sessions in one epoch, with no step pending, that can reach each other.
  pub record Synced (ra rb : Bytes) (a b : RatchetedSession) : Type 0 where
    pub there : Linked kdf ra a b
    pub back : Linked kdf rb b a
    pub same_root : b.root_key ≡ a.root_key
    pub same_epoch : b.send_epoch ≡ a.send_epoch
    pub room : a.send_epoch + 1 < 2 ^ 32
    pub a_idle : a.pending ≡ none
    pub b_idle : b.pending ≡ none
    pub a_new : available b.recv_current a.send_seq ≡ true
    pub a_near : in_reach b.recv_current a.send_seq ≡ true
    pub b_new : available a.recv_current b.send_seq ≡ true
    pub b_near : in_reach a.recv_current b.send_seq ≡ true

module _ {aead : Aead} {kdf : Kdf} {x : Exchange} (aead_law : IsAead aead) (kdf_law : IsKdf kdf)
    (x_law : IsExchange x) where
  -- The session in the epoch after.
  abbrev pub next_epoch : EpochKeys → RatchetedSession → RatchetedSession
  next_epoch keys s = record s {
    root_key = keys.new_root;
    send_epoch = s.send_epoch + 1;
    send_chain = keys.new_send;
    send_seq = 0;
    recv_current = new_recv_chain (s.send_epoch + 1) keys.new_recv;
    recv_previous = some s.recv_current;
  }

  advance_epoch-next_epoch :
      (keys : EpochKeys) (s : RatchetedSession)
      → s.send_epoch + 1 < 2 ^ 32
      → advance_epoch s.send_epoch keys s ≡ (ok tt, next_epoch keys s)
  unfolding advance_epoch
  advance_epoch-next_epoch keys s room =
      let fits : (s.send_epoch + 1 == 2 ^ 32) ≡ false = ground arith in rw fits refl

  abbrev pub step1_payload : Draw → Bytes
  step1_payload a = write_keys (generate x a).x25519_public (generate x a).ml_kem_public

  abbrev pub step2_payload : Draw → Draw → Bytes
  step2_payload a b =
      write_keys (answer x_law a b).x25519_public (answer x_law a b).ml_kem_ciphertext

  read_step1 :
      (a : Draw)
      → (read_keys
          (ml_kem_public_from_bytes x)
          "trailing bytes in ratchet step1"
          (new_reader (step1_payload a))).0
        ≡ ok ((generate x a).x25519_public, (generate x a).ml_kem_public)
  unfolding generate ml_kem_public_from_bytes
  read_step1 a =
      read_keys-write_keys (ml_kem_public_from_bytes x) _ (x.x25519_public a.secret)
        (x.ml_kem_keypair a.seed).1 (x_law.x25519_length a.secret)
        (omega (arith, x_law.public_length a.seed)) (rw (x_law.reads_public a.seed) refl)

  read_step2 :
      (a b : Draw)
      → (read_keys
          (ml_kem_ciphertext_from_bytes x)
          "trailing bytes in ratchet step2"
          (new_reader (step2_payload a b))).0
        ≡ ok ((answer x_law a b).x25519_public, (answer x_law a b).ml_kem_ciphertext)
  unfolding ml_kem_ciphertext_from_bytes
  read_step2 a b =
      let k = (x.ml_kem_keypair a.seed).1 in
      read_keys-write_keys (ml_kem_ciphertext_from_bytes x) _ (x.x25519_public b.secret)
        (x.encapsulate k b.seed).0 (x_law.x25519_length b.secret)
        (omega (arith, x_law.ciphertext_length k b.seed))
        (rw (x_law.reads_ciphertext k b.seed) refl)

  -- What a responder needs for a step 1 drawn with `a`, which it answers with `b`.
  pub record Answers (a b : Draw) (rb : Bytes) (t : RatchetedSession) (c : Bytes) (keys : EpochKeys)
      : Type 0 where
    pub fine : x.was_contributory (x.diffie_hellman b.secret (x.x25519_public a.secret)) ≡ true
    pub idle : t.pending ≡ none
    pub fits : t.send_seq + 1 < 2 ^ 64
    pub room : t.send_epoch + 1 < 2 ^ 32
    pub reply : sealed_with aead_law kdf x rb t (2 ∷ step2_payload a b) ≡ some c
    pub derived :
        derive_next_epoch aead kdf x t.root_key (answer x_law a b).shared_secret false ≡ ok keys

  answer_step1-good :
      (a b : Draw) (rb : Bytes) (t : RatchetedSession) (c : Bytes) (keys : EpochKeys)
      → Answers a b rb t c keys
      → answer_step1 aead kdf x t.send_epoch (step1_payload a) b t ≡ (
        ok (header_bytes t.send_epoch t.send_seq ++ c),
        next_epoch keys (sent aead_law kdf x rb t),
      )
  unfolding answer_step1
  answer_step1-good a b rb t c keys h =
      rw
        (
          read_step1 a,
          (exchanged x_law a b h.fine).0,
          seal_payload-sealed aead_law kdf x rb t (2 ∷ step2_payload a b) c h.fits h.reply,
          h.derived,
          advance_epoch-next_epoch keys (sent aead_law kdf x rb t) h.room,
        )
        refl

  handle_step1-answers :
      (payload : Bytes) (drawn : Draw) (t : RatchetedSession)
      → t.pending ≡ none
      → handle_step1 aead kdf x t.send_epoch payload drawn t
        ≡ answer_step1 aead kdf x t.send_epoch payload drawn t
  unfolding handle_step1
  handle_step1-answers payload drawn t idle =
      let now : (t.send_epoch == t.send_epoch) ≡ true = ground arith in
      ap
        (λ o. elim o as (λ _. Result Error Bytes × RatchetedSession) [
          | some _ ↦ (err ratchet_in_progress, t)
          | none ↦
              if not (t.send_epoch == t.send_epoch)
              then (err wrong_state, t)
              else answer_step1 aead kdf x t.send_epoch payload drawn t
        ])
        idle
      ∙ rw now refl

  pub dispatch_step1 :
      (a b : Draw) (rb : Bytes) (t : RatchetedSession) (c : Bytes) (keys : EpochKeys)
      → Answers a b rb t c keys
      → dispatch aead kdf x t.send_epoch (1 ∷ step1_payload a) b t ≡ (
        ok (ratchet_advanced (some (header_bytes t.send_epoch t.send_seq ++ c))),
        next_epoch keys (sent aead_law kdf x rb t),
      )
  unfolding dispatch
  dispatch_step1 a b rb t c keys h =
      rw (handle_step1-answers (step1_payload a) b t h.idle ∙ answer_step1-good a b rb t c keys h)
        refl

  -- The initiator's handling of a good step 2.
  finish_step2-good :
      (a b : Draw) (t : RatchetedSession) (keys : EpochKeys)
      → x.was_contributory (x.diffie_hellman b.secret (x.x25519_public a.secret)) ≡ true
      → t.send_epoch + 1 < 2 ^ 32
      → derive_next_epoch aead kdf x t.root_key (answer x_law a b).shared_secret true ≡ ok keys
      → finish_step2 aead kdf x (generate x a) t.send_epoch (step2_payload a b) t
        ≡ (ok tt, next_epoch keys t)
  unfolding finish_step2
  finish_step2-good a b t keys fine room derived =
      rw
        (
          read_step2 a b,
          (exchanged x_law a b fine).1,
          derived,
          advance_epoch-next_epoch keys t room,
        )
        refl

  pub dispatch_step2 :
      (a b drawn : Draw) (t : RatchetedSession) (keys : EpochKeys)
      → x.was_contributory (x.diffie_hellman b.secret (x.x25519_public a.secret)) ≡ true
      → t.send_epoch + 1 < 2 ^ 32
      → derive_next_epoch aead kdf x t.root_key (answer x_law a b).shared_secret true ≡ ok keys
      → dispatch aead kdf x t.send_epoch
          (2 ∷ step2_payload a b)
          drawn
          (record t { pending = some (generate x a); pending_epoch = t.send_epoch })
        ≡ (
          ok (ratchet_advanced none),
          next_epoch keys (record t { pending = none; pending_epoch = t.send_epoch }),
        )
  unfolding dispatch handle_step2
  dispatch_step2 a b drawn t keys fine room derived =
      let now : (t.send_epoch == t.send_epoch) ≡ true = ground arith in
      let u = record t { pending = none; pending_epoch = t.send_epoch } in
      rw (now, finish_step2-good a b u keys fine room derived) refl
