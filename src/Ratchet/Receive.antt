-- ===== src/Ratchet/Receive.antt =====
-- crates/core/src/ratchet.rs: `open_on`, one record on one receive chain.
use novachannel.Common.{
  ℕ, zero, suc, ◌+◌, ◌-◌, ◌^◌, ◌||◌, Option, none, some, List, [], ◌∷◌, ok, err, panic, and_then,
  if◌then◌else◌, ltb, ◌==◌, length, Bytes,
}
use novachannel.Errors.{Call, replay, too_many_skipped_keys}
use novachannel.Crypto.{Aead, Kdf}
use novachannel.Ratchet.{RecvChain, advance, open_with_message_key, max_skipped_keys}

-- The map of skipped keys.
unfoldable pub lookup : ℕ → List (ℕ × Bytes) → Option Bytes
lookup seq [] = none
lookup seq ((s, key) ∷ rest) = let later = lookup seq rest in if s == seq then some key else later

unfoldable pub remove : ℕ → List (ℕ × Bytes) → List (ℕ × Bytes)
remove seq [] = []
remove seq ((s, key) ∷ rest) =
    let others = remove seq rest in if s == seq then others else (s, key) ∷ others

unfoldable pub extend : List (ℕ × Bytes) → List (ℕ × Bytes) → List (ℕ × Bytes)
extend [] m = m
extend ((s, key) ∷ new) m = extend new ((s, key) ∷ remove s m)

module _ (aead : Aead) (kdf : Kdf) where
  -- `for s in recv.expected_seq..seq`: the keys of `count` numbers from `s` on, and the chain after.
  unfoldable pub skip_keys : (count s : ℕ) → Bytes → List (ℕ × Bytes) × Bytes
  skip_keys zero s chain = ([], chain)
  skip_keys (suc count) s chain =
      let a = advance kdf chain in
      let r = skip_keys count (suc s) a.next_chain in ((s, a.message_key) ∷ r.0, r.1)

  unfoldable pub open_skipped : (seq : ℕ) (aad ciphertext : Bytes) → Call RecvChain Bytes
  open_skipped seq aad ciphertext recv = elim (lookup seq recv.skipped) [
    | none ↦ (err replay, recv)
    | some key ↦ (
      open_with_message_key aead key aad ciphertext,
      record recv { skipped = remove seq recv.skipped },
    )
  ]

  -- `expected_seq` is a `u64`: the number after `2 ^ 64 - 1` overflows.
  unfoldable pub open_expected : (aad ciphertext : Bytes) → Call RecvChain Bytes
  open_expected aad ciphertext recv =
      let a = advance kdf recv.chain in
      and_then (open_with_message_key aead a.message_key aad ciphertext, recv)
        (λ plaintext r.
          if r.expected_seq + 1 == 2 ^ 64
          then (panic, record r { chain = a.next_chain })
          else (ok plaintext, record r { chain = a.next_chain; expected_seq = r.expected_seq + 1 }))

  unfoldable pub open_ahead : (seq : ℕ) (aad ciphertext : Bytes) → Call RecvChain Bytes
  open_ahead seq aad ciphertext recv =
      let skip_count = seq - recv.expected_seq in
      if ltb max_skipped_keys skip_count || ltb max_skipped_keys (length recv.skipped + skip_count)
      then (err too_many_skipped_keys, recv)
      else let skips = skip_keys skip_count recv.expected_seq recv.chain in
        let a = advance kdf skips.1 in
        and_then (open_with_message_key aead a.message_key aad ciphertext, recv)
          (λ plaintext r.
            let kept = record r { skipped = extend skips.0 r.skipped; chain = a.next_chain } in
            if seq + 1 == 2 ^ 64
            then (panic, kept)
            else (ok plaintext, record kept { expected_seq = seq + 1 }))

  unfoldable pub open_on : (seq : ℕ) (aad ciphertext : Bytes) → Call RecvChain Bytes
  open_on seq aad ciphertext recv =
      if ltb seq recv.expected_seq
      then open_skipped seq aad ciphertext recv
      else if seq == recv.expected_seq
      then open_expected aad ciphertext recv
      else open_ahead seq aad ciphertext recv
