-- ===== src/Ratchet/Chain/Outcome.antt =====
-- crates/core/src/ratchet.rs: what `open_on` does on a receive chain, in terms of the message numbers.
use novachannel.Common.{
  ℕ, ◌+◌, ◌-◌, ◌^◌, ◌≤◌, ◌<◌, ◌≡◌, ap, sym, ◌∙◌, subst, true, false, ◌||◌, Option, none, some,
  Option-cases, Result, ok, err, panic, ltb, ◌==◌, ==_iff, Bool-cases, arith, length, Bytes, inl,
  inr, replicate,
}
use novachannel.Errors.{Error, replay, decrypt, too_many_skipped_keys}
use novachannel.Crypto.{Aead, Kdf}
use novachannel.Ratchet.{RecvChain, advance, open_with_message_key, max_skipped_keys}
use novachannel.Ratchet.Receive.{
  lookup, extend, skip_keys, open_skipped, open_expected, open_ahead, open_on,
}
use novachannel.Ratchet.Chain.Skipped.{lookup-All, key_at, KeyBelow}
use novachannel.Ratchet.Chain.{
  available, forget, Tracks, After, forget-After, caught_up, caught_up-After, skipped_chain,
}

module _ (kdf : Kdf) (root : Bytes) (aead : Aead) where
  abbrev pub plain : ℕ → Bytes → Bytes → Option Bytes
  plain seq aad ciphertext = aead.decrypt (key_at kdf seq root) (replicate 12 0) aad ciphertext

  pub data Outcome (c : RecvChain) (seq : ℕ) (aad ciphertext : Bytes)
      : Result Error Bytes × RecvChain → Type 0 where
    replayed : available c seq ≡ false → Outcome c seq aad ciphertext (err replay, c)
    too_many :
        c.expected_seq < seq
        → max_skipped_keys < length c.skipped + (seq - c.expected_seq)
        → Outcome c seq aad ciphertext (err too_many_skipped_keys, c)
    refused_late :
        seq < c.expected_seq
        → available c seq ≡ true
        → plain seq aad ciphertext ≡ none
        → Outcome c seq aad ciphertext (err decrypt, forget seq c)
    refused :
        c.expected_seq ≤ seq
        → plain seq aad ciphertext ≡ none
        → Outcome c seq aad ciphertext (err decrypt, c)
    opened :
        (p : Bytes) (c' : RecvChain)
        → available c seq ≡ true
        → plain seq aad ciphertext ≡ some p
        → After kdf root c seq c'
        → Outcome c seq aad ciphertext (ok p, c')
    exhausted :
        (p : Bytes) (c' : RecvChain)
        → seq + 1 ≡ 2 ^ 64
        → plain seq aad ciphertext ≡ some p
        → Outcome c seq aad ciphertext (panic, c')

  open_skipped-Outcome :
      (c : RecvChain) (seq : ℕ) (aad ciphertext : Bytes)
      → seq < c.expected_seq
      → Tracks kdf root c
      → Outcome c seq aad ciphertext (open_skipped aead kdf seq aad ciphertext c)
  unfolding open_skipped open_with_message_key
  open_skipped-Outcome c seq aad ciphertext lt t = elim (Option-cases (lookup seq c.skipped)) [
    | inl e ↦ rw (e, open_skipped) (replayed (rw e (ground arith)))
    | inr (key, e) ↦
        let same = (lookup-All (KeyBelow kdf c.expected_seq root) seq c.skipped key t.keys e).1 in
        let known : available c seq ≡ true = rw e (ground arith) in
        elim (Option-cases (plain seq aad ciphertext)) [
          | inl d ↦ rw (e, open_skipped, same, d) (refused_late lt known d)
          | inr (p, d) ↦
              rw (e, open_skipped, same, d)
                (opened p (forget seq c) known d (forget-After kdf root c seq lt t))
        ]
  ]

  -- The decryption in the code, once the chain has derived the keys of `count` numbers.
  decrypt_derived :
      (c : RecvChain) (count seq : ℕ) (aad ciphertext : Bytes)
      → c.expected_seq + count ≡ seq
      → Tracks kdf root c
      → aead.decrypt
          (advance kdf (skip_keys aead kdf count c.expected_seq c.chain).1).message_key
          (replicate 12 0)
          aad
          ciphertext
        ≡ plain seq aad ciphertext
  unfolding key_at
  decrypt_derived c count seq aad ciphertext e t =
      ap (λ k. aead.decrypt (advance kdf k).message_key (replicate 12 0) aad ciphertext)
        (skipped_chain kdf root aead c count seq e t)

  open_expected-Outcome :
      (c : RecvChain) (aad ciphertext : Bytes)
      → Tracks kdf root c
      → Outcome c c.expected_seq aad ciphertext (open_expected aead kdf aad ciphertext c)
  unfolding open_expected open_with_message_key skip_keys extend
  open_expected-Outcome c aad ciphertext t =
      let e : c.expected_seq + 0 ≡ c.expected_seq = omega arith in
      let derived = decrypt_derived c 0 c.expected_seq aad ciphertext e t in
      let room : length c.skipped + 0 ≤ max_skipped_keys = omega (arith, t.bounded) in
      elim (Option-cases (plain c.expected_seq aad ciphertext)) [
        | inl d ↦ rw (derived ∙ d) (refused (omega arith) d)
        | inr (p, d) ↦ elim (Bool-cases (c.expected_seq + 1 == 2 ^ 64)) [
          | inl full ↦ rw (derived ∙ d, full) (exhausted p _ (ground arith) d)
          | inr fits ↦
              rw (derived ∙ d, fits)
                (opened p (caught_up kdf root aead 0 c.expected_seq c) (ground arith) d
                  (caught_up-After kdf root aead c 0 c.expected_seq e room t))
        ]
      ]

  open_ahead-Outcome :
      (c : RecvChain) (seq : ℕ) (aad ciphertext : Bytes)
      → c.expected_seq < seq
      → Tracks kdf root c
      → Outcome c seq aad ciphertext (open_ahead aead kdf seq aad ciphertext c)
  unfolding open_ahead open_with_message_key
  open_ahead-Outcome c seq aad ciphertext lt t =
      let count = seq - c.expected_seq in
      let e : c.expected_seq + (seq - c.expected_seq) ≡ seq = omega arith in
      let derived = decrypt_derived c (seq - c.expected_seq) seq aad ciphertext e t in
      let far =
        ltb max_skipped_keys (seq - c.expected_seq)
        || ltb max_skipped_keys (length c.skipped + (seq - c.expected_seq)) in
      elim (Bool-cases far) [
        | inl over ↦ rw over (too_many lt (ground arith))
        | inr within ↦
            let room : length c.skipped + count ≤ max_skipped_keys = ground arith in
            elim (Option-cases (plain seq aad ciphertext)) [
              | inl d ↦ rw (within, derived ∙ d) (refused (omega arith) d)
              | inr (p, d) ↦ elim (Bool-cases (seq + 1 == 2 ^ 64)) [
                | inl full ↦ rw (within, derived ∙ d, full) (exhausted p _ (ground arith) d)
                | inr fits ↦
                    rw (within, derived ∙ d, fits)
                      (opened p (caught_up kdf root aead count seq c) (ground arith) d
                        (caught_up-After kdf root aead c count seq e room t))
              ]
            ]
      ]

  -- What `open_on` does for number `seq` on a chain that stands `expected_seq` steps from its root:
  -- it refuses a number that is not available as a replay, or one too far ahead, and leaves the chain
  -- as it was; or it decrypts under the key of that number. If that fails, nothing changes but that a
  -- kept key of the number is gone; if it succeeds, the number is no more available, every other
  -- number is as available as it was, and the chain still stands on its root with at most 1000 kept
  -- keys. Only the last number of 64 bits panics.
  pub open_on-Outcome :
      (c : RecvChain) (seq : ℕ) (aad ciphertext : Bytes)
      → Tracks kdf root c
      → Outcome c seq aad ciphertext (open_on aead kdf seq aad ciphertext c)
  unfolding open_on
  open_on-Outcome c seq aad ciphertext t = elim (Bool-cases (ltb seq c.expected_seq)) [
    | inl late ↦ rw late (open_skipped-Outcome c seq aad ciphertext (ground arith) t)
    | inr not_late ↦ elim (Bool-cases (seq == c.expected_seq)) [
      | inl next ↦
          rw (not_late, next)
            (subst (λ n. Outcome c n aad ciphertext (open_expected aead kdf aad ciphertext c))
              (sym ((==_iff seq c.expected_seq).0 next)) (open_expected-Outcome c aad ciphertext t))
      | inr ahead ↦ rw (not_late, ahead) (open_ahead-Outcome c seq aad ciphertext (ground arith) t)
    ]
  ]
