-- ===== src/Ratchet/Chain.antt =====
-- crates/core/src/ratchet.rs: the message numbers that a receive chain has opened, skipped and not come to.
pub mod Skipped
pub mod Outcome
pub mod Once
use novachannel.Common.{
  ℕ, zero, suc, ◌+◌, ◌-◌, ◌^◌, ◌≤◌, ◌<◌, ◌≡◌, ◌≢◌, refl, ap, sym, ◌∙◌, subst, Bool, true, false,
  ◌&&◌, ◌||◌, Option, none, some, Option-cases, List, [], ◌∷◌, if◌then◌else◌, Result, ok, err,
  panic, ltb, leb, ◌==◌, ==_iff, Bool-cases, arith, length, All, Bytes, inl, inr, max, replicate,
}
use novachannel.Errors.{Error, replay, decrypt, too_many_skipped_keys}
use novachannel.Crypto.{Aead, Kdf}
use novachannel.Ratchet.{RecvChain, advance, open_with_message_key, max_skipped_keys}
use novachannel.Ratchet.Receive.{
  lookup, remove, extend, skip_keys, open_skipped, open_expected, open_ahead, open_on,
}
use Skipped.{
  is_some, lookup-remove, lookup-remove_other, length-remove, All-remove, lookup-All, length-extend,
  All-extend, chain_at, key_at, KeyBelow, skip_keys-last, length-skip_keys, skip_keys-KeyBelow,
  lookup-extend-skip_keys,
}

-- A number is available if the chain has not come to it, or has kept its key.
abbrev pub available : RecvChain → ℕ → Bool
available c seq = leb c.expected_seq seq || is_some (lookup seq c.skipped)

abbrev pub forget : ℕ → RecvChain → RecvChain
forget seq c = record c { skipped = remove seq c.skipped }

module _ (kdf : Kdf) (root : Bytes) where
  -- The chain stands at `expected_seq` steps from its root, and keeps at most 1000 earlier keys.
  pub record Tracks (c : RecvChain) : Type 0 where
    pub at : c.chain ≡ chain_at kdf c.expected_seq root
    pub keys : All (KeyBelow kdf c.expected_seq root) c.skipped
    pub bounded : length c.skipped ≤ max_skipped_keys

  -- The chain after number `seq` is opened.
  pub record After (c : RecvChain) (seq : ℕ) (c' : RecvChain) : Type 0 where
    pub tracks : Tracks c'
    pub newest : c'.expected_seq ≡ max c.expected_seq (suc seq)
    pub same_epoch : c'.epoch ≡ c.epoch
    pub used : available c' seq ≡ false
    pub others : (t : ℕ) → t ≢ seq → available c' t ≡ available c t

  pub forget-Tracks : (c : RecvChain) (seq : ℕ) → Tracks c → Tracks (forget seq c)
  forget-Tracks c seq t = record {
    at = t.at;
    keys = All-remove (KeyBelow kdf c.expected_seq root) seq c.skipped t.keys;
    bounded = omega (arith, length-remove seq c.skipped, t.bounded);
  }

  pub forget-After :
      (c : RecvChain) (seq : ℕ) → seq < c.expected_seq → Tracks c → After c seq (forget seq c)
  forget-After c seq lt t = record {
    tracks = forget-Tracks c seq t;
    newest = omega arith;
    same_epoch = refl;
    used = rw (lookup-remove seq c.skipped) (ground arith);
    others = λ t' ne.
        ap (λ o. leb c.expected_seq t' || is_some o) (lookup-remove_other seq t' c.skipped ne);
  }

  KeyBelow-mono :
      (n k : ℕ) (m : List (ℕ × Bytes))
      → n ≤ k
      → All (KeyBelow kdf n root) m
      → All (KeyBelow kdf k root) m
  KeyBelow-mono n k [] h t = tt
  KeyBelow-mono n k (e ∷ m) h ((lt, same), t) = ((omega arith, same), KeyBelow-mono n k m h t)

  module _ (aead : Aead) where
    -- The chain once the keys of `count` numbers are kept and number `seq` behind them is used.
    abbrev pub caught_up : ℕ → ℕ → RecvChain → RecvChain
    caught_up count seq c =
        let skips = skip_keys aead kdf count c.expected_seq c.chain in
        record c {
          skipped = extend skips.0 c.skipped;
          chain = (advance kdf skips.1).next_chain;
          expected_seq = seq + 1;
        }

    pub skipped_chain :
        (c : RecvChain) (count seq : ℕ)
        → c.expected_seq + count ≡ seq
        → Tracks c
        → (skip_keys aead kdf count c.expected_seq c.chain).1 ≡ chain_at kdf seq root
    skipped_chain c count seq e t =
        ap (λ k. (skip_keys aead kdf count c.expected_seq k).1) t.at
        ∙ skip_keys-last kdf aead count c.expected_seq root
        ∙ ap (λ n. chain_at kdf n root) e

    caught_up-Tracks :
        (c : RecvChain) (count seq : ℕ)
        → c.expected_seq + count ≡ seq
        → length c.skipped + count ≤ max_skipped_keys
        → Tracks c
        → Tracks (caught_up count seq c)
    unfolding chain_at
    caught_up-Tracks c count seq e room t =
        let new = (skip_keys aead kdf count c.expected_seq c.chain).0 in
        let next : seq + 1 ≡ suc seq = omega arith in
        record {
          at =
              ap (λ k. (advance kdf k).next_chain) (skipped_chain c count seq e t)
              ∙ ap (λ n. chain_at kdf n root) (sym next);
          keys =
              All-extend (KeyBelow kdf (seq + 1) root) new c.skipped
                (subst
                  (λ k.
                    All (KeyBelow kdf (seq + 1) root) (skip_keys aead kdf count c.expected_seq k).0)
                  (sym t.at)
                  (skip_keys-KeyBelow kdf aead count c.expected_seq (seq + 1) root (omega arith)))
                (KeyBelow-mono c.expected_seq (seq + 1) c.skipped (omega arith) t.keys);
          bounded = omega (
            arith,
            length-extend new c.skipped,
            length-skip_keys kdf aead count c.expected_seq c.chain,
          );
        }

    known_below :
        (n seq : ℕ) (m : List (ℕ × Bytes))
        → n ≤ seq
        → All (KeyBelow kdf n root) m
        → is_some (lookup seq m) ≡ false
    known_below n seq m h t = elim (Option-cases (lookup seq m)) [
      | inl e ↦ rw e refl
      | inr (key, e) ↦ absurd (omega (arith, (lookup-All (KeyBelow kdf n root) seq m key t e).0))
    ]

    pub caught_up-After :
        (c : RecvChain) (count seq : ℕ)
        → c.expected_seq + count ≡ seq
        → length c.skipped + count ≤ max_skipped_keys
        → Tracks c
        → After c seq (caught_up count seq c)
    caught_up-After c count seq e room t = record {
      tracks = caught_up-Tracks c count seq e room t;
      newest = omega arith;
      same_epoch = refl;
      used =
          rw (lookup-extend-skip_keys kdf aead count c.expected_seq seq c.chain c.skipped)
            (ground (arith, known_below c.expected_seq seq c.skipped (omega arith) t.keys));
      others = λ n ne.
          rw (lookup-extend-skip_keys kdf aead count c.expected_seq n c.chain c.skipped)
            (ground arith);
    }
