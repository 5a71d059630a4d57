-- ===== src/Ratchet/Delivery.antt =====
-- crates/core/src/ratchet.rs: a sealed record is opened, whenever it arrives.
use mathlib.Core.List.{append_assoc}
use novachannel.Common.{
  ℕ, ◌||◌, ◌+◌, ◌-◌, ◌^◌, ◌<◌, ◌≡◌, refl, ap, sym, ◌∙◌, subst, Bool, true, false, Option, none,
  some, ◌∷◌, ◌++◌, Result, ok, ltb, leb, ◌==◌, arith, length, take, drop, replicate, Bytes,
  length-append, take-append_length, drop-append_length,
}
use novachannel.Errors.{Error}
use novachannel.Crypto.{Aead, IsAead, Kdf, Exchange}
use novachannel.Wire.{to_be_bytes, from_be_bytes, length-to_be_bytes, from_be_bytes-to_be_bytes}
use novachannel.Kex.{Draw}
use novachannel.Ratchet.{
  RatchetedSession, RecvChain, advance, seal_with_message_key, header_bytes, max_skipped_keys,
}
use novachannel.Ratchet.Chain.{Tracks, After, available}
use novachannel.Ratchet.Chain.Skipped.{chain_at, key_at}
use novachannel.Ratchet.Chain.Outcome.{
  Outcome, replayed, too_many, refused_late, refused, opened, exhausted, open_on-Outcome, plain,
}
use novachannel.Ratchet.Session.{
  application, seal_payload, seal, open_in_epoch, open_on_current, dispatch, open_record,
}

-- Within the bound on skipped keys.
abbrev pub in_reach : RecvChain → ℕ → Bool
in_reach c seq =
    leb seq c.expected_seq || leb (length c.skipped + (seq - c.expected_seq)) max_skipped_keys

module _ (kdf : Kdf) (root : Bytes) (aead : Aead) where
  Outcome-opened :
      (c : RecvChain) (seq : ℕ) (aad ciphertext p : Bytes) {q : Result Error Bytes × RecvChain}
      → Outcome kdf root aead c seq aad ciphertext q
      → available c seq ≡ true
      → in_reach c seq ≡ true
      → plain kdf root aead seq aad ciphertext ≡ some p
      → seq + 1 < 2 ^ 64
      → (c' : RecvChain) × (q ≡ (ok p, c')) × After kdf root c seq c'
  Outcome-opened c seq aad ciphertext p (replayed gone) yea near e lt =
      let clash : true ≡ false = sym yea ∙ gone in absurd (cc)
  Outcome-opened c seq aad ciphertext p (too_many ahead far) yea near e lt =
      absurd (ground (arith, near))
  Outcome-opened c seq aad ciphertext p (refused_late _ _ d) yea near e lt =
      let clash : none ≡ some p = sym d ∙ e in absurd (cc)
  Outcome-opened c seq aad ciphertext p (refused _ d) yea near e lt =
      let clash : none ≡ some p = sym d ∙ e in absurd (cc)
  Outcome-opened c seq aad ciphertext p (opened p' c' _ d a) yea near e lt =
      let both : some p' ≡ some p = sym d ∙ e in
      let same : p' ≡ p = cc in (c', ap (λ b. (ok b, c')) same, a)
  Outcome-opened c seq aad ciphertext p (exhausted _ _ full _) yea near e lt = absurd (omega arith)

take_prefix : (n : ℕ) (xs ys : Bytes) → length xs ≡ n → take n (xs ++ ys) ≡ xs
take_prefix n xs ys e = subst (λ k. take k (xs ++ ys) ≡ xs) e (take-append_length xs ys)

drop_prefix : (n : ℕ) (xs ys : Bytes) → length xs ≡ n → drop n (xs ++ ys) ≡ ys
drop_prefix n xs ys e = subst (λ k. drop k (xs ++ ys) ≡ ys) e (drop-append_length xs ys)

-- The header of a record is read back.
record Framed (epoch seq : ℕ) (ciphertext rec : Bytes) : Type 0 where
  long : ltb (length rec) 12 ≡ false
  its_epoch : from_be_bytes (take 4 rec) ≡ epoch
  its_seq : from_be_bytes (take 8 (drop 4 rec)) ≡ seq
  aad : take 12 rec ≡ header_bytes epoch seq
  body : drop 12 rec ≡ ciphertext

header_bytes-Framed :
    (epoch seq : ℕ) (ciphertext : Bytes)
    → epoch < 2 ^ 32
    → seq < 2 ^ 64
    → Framed epoch seq ciphertext (header_bytes epoch seq ++ ciphertext)
unfolding header_bytes
header_bytes-Framed epoch seq ciphertext e_lt s_lt =
    let e = to_be_bytes 4 epoch in
    let q = to_be_bytes 8 seq in
    let parts = append_assoc e q ciphertext in
    let header_len : length (e ++ q) ≡ 12 =
      omega (arith, length-append e q, length-to_be_bytes 4 epoch, length-to_be_bytes 8 seq) in
    record {
      long = ground (arith, length-append (e ++ q) ciphertext, header_len);
      its_epoch =
          ap (λ r. from_be_bytes (take 4 r)) parts
          ∙ ap from_be_bytes (take_prefix 4 e (q ++ ciphertext) (length-to_be_bytes 4 epoch))
          ∙ from_be_bytes-to_be_bytes 4 epoch (omega arith);
      its_seq =
          ap (λ r. from_be_bytes (take 8 (drop 4 r))) parts
          ∙ ap (λ r. from_be_bytes (take 8 r))
              (drop_prefix 4 e (q ++ ciphertext) (length-to_be_bytes 4 epoch))
          ∙ ap from_be_bytes (take_prefix 8 q ciphertext (length-to_be_bytes 8 seq))
          ∙ from_be_bytes-to_be_bytes 8 seq (omega arith);
      aad = take_prefix 12 (e ++ q) ciphertext header_len;
      body = drop_prefix 12 (e ++ q) ciphertext header_len;
    }

module _ (kdf : Kdf) (root : Bytes) where
  -- The receiver's chain for the sender's epoch stands on the root of the sender's chain.
  pub record Linked (a b : RatchetedSession) : Type 0 where
    pub epoch_fits : a.send_epoch < 2 ^ 32
    pub seq_fits : a.send_seq + 1 < 2 ^ 64
    pub sending : a.send_chain ≡ chain_at kdf a.send_seq root
    pub epochs : b.recv_current.epoch ≡ a.send_epoch
    pub receiving : Tracks kdf root b.recv_current

module _ {aead : Aead} (law : IsAead aead) (kdf : Kdf) (x : Exchange) (root : Bytes) where
  abbrev pub sealed_with : RatchetedSession → Bytes → Option Bytes
  sealed_with a p =
      aead.encrypt (advance kdf a.send_chain).message_key (replicate 12 0)
        (header_bytes a.send_epoch a.send_seq) p

  abbrev pub sent : RatchetedSession → RatchetedSession
  sent a = record a {
    send_seq = a.send_seq + 1;
    send_chain = (advance kdf a.send_chain).next_chain;
  }

  plain-sealed :
      (a b : RatchetedSession) (p c : Bytes)
      → Linked kdf root a b
      → sealed_with a p ≡ some c
      → plain kdf root aead a.send_seq (header_bytes a.send_epoch a.send_seq) c ≡ some p
  unfolding key_at
  plain-sealed a b p c l e =
      ap
        (λ k.
          aead.decrypt (advance kdf k).message_key (replicate 12 0)
            (header_bytes a.send_epoch a.send_seq) c)
        (sym l.sending)
      ∙ law.opens (advance kdf a.send_chain).message_key (replicate 12 0)
          (header_bytes a.send_epoch a.send_seq) p c e

  pub seal_payload-sealed :
      (a : RatchetedSession) (p c : Bytes)
      → a.send_seq + 1 < 2 ^ 64
      → sealed_with a p ≡ some c
      → seal_payload aead kdf x p a ≡ (ok (header_bytes a.send_epoch a.send_seq ++ c), sent a)
  unfolding seal_payload seal_with_message_key
  seal_payload-sealed a p c lt e =
      let room : (a.send_seq + 1 == 2 ^ 64) ≡ false = ground arith in rw (room, e) refl

  -- The record of a payload reaches the handler of its type, with its number used.
  pub open_record-dispatch :
      (a b : RatchetedSession) (p c : Bytes) (drawn : Draw)
      → Linked kdf root a b
      → sealed_with a p ≡ some c
      → available b.recv_current a.send_seq ≡ true
      → in_reach b.recv_current a.send_seq ≡ true
      → (c' : RecvChain) × (open_record aead kdf x
            (header_bytes a.send_epoch a.send_seq ++ c)
            drawn
            b
          ≡ dispatch aead kdf x a.send_epoch p drawn (record b { recv_current = c' }))
        × After kdf root b.recv_current a.send_seq c'
  unfolding open_record open_in_epoch open_on_current
  open_record-dispatch a b p c drawn l e yea near =
      let aad = header_bytes a.send_epoch a.send_seq in
      let f =
        header_bytes-Framed a.send_epoch a.send_seq c l.epoch_fits (omega (arith, l.seq_fits)) in
      let (c', run, after) =
        Outcome-opened kdf root aead b.recv_current a.send_seq aad c p
          (open_on-Outcome kdf root aead b.recv_current a.send_seq aad c l.receiving) yea near
          (plain-sealed a b p c l e) l.seq_fits in
      let now : (a.send_epoch == b.recv_current.epoch) ≡ true = ground (arith, l.epochs) in
      (c', rw (f.long, f.its_epoch, f.its_seq, f.aad, f.body, now, run) refl, after)

  -- A message that a linked sender seals is opened by the receiver, now or after any other records of
  -- the epoch, if its number is still available and within reach of the skipped-key bound: the receiver
  -- gets the message, and then the number is used and every other number as available as before.
  pub open_record-seal-in_reach :
      (a b : RatchetedSession) (p c : Bytes) (drawn : Draw)
      → Linked kdf root a b
      → sealed_with a (0 ∷ p) ≡ some c
      → available b.recv_current a.send_seq ≡ true
      → in_reach b.recv_current a.send_seq ≡ true
      → (rec : Bytes) × (c' : RecvChain) × (seal aead kdf x p a ≡ (ok rec, sent a))
        × (open_record aead kdf x rec drawn b
            ≡ (ok (application p), record b { recv_current = c' }))
        × After kdf root b.recv_current a.send_seq c'
  unfolding seal dispatch
  open_record-seal-in_reach a b p c drawn l e yea near =
      let (c', run, after) = open_record-dispatch a b (0 ∷ p) c drawn l e yea near in
      (
        header_bytes a.send_epoch a.send_seq ++ c,
        c',
        seal_payload-sealed a (0 ∷ p) c l.seq_fits e,
        run,
        after,
      )
