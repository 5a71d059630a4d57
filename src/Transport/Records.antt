-- ===== src/Transport/Records.antt =====
-- crates/core/src/transport.rs: `Sender::seal` on every branch, and a sealed record that is opened.
use novachannel.Common.{
  ℕ, ◌+◌, ◌^◌, ◌<◌, ◌≤◌, ◌≡◌, ◌≢◌, refl, ap, sym, ◌∙◌, inl, inr, true, Option, none, some,
  Option-cases, List, [], ◌∷◌, ◌++◌, Result, ok, err, ltb, ◌==◌, Bool-cases, arith, length, take,
  drop, Bytes, All, length-append, take-append_length, drop-append_length, subst,
}
use novachannel.Errors.{Error, too_large, sequence_exhausted, decrypt}
use novachannel.Crypto.{Aead, IsAead}
use novachannel.Wire.{to_be_bytes, from_be_bytes, length-to_be_bytes, from_be_bytes-to_be_bytes}
use novachannel.Transport.{
  Sender, Receiver, DirectionalKey, nonce_for, seal, seal_at, open_record, max_plaintext_len,
}
use novachannel.Transport.Nonce.{nonce_for-injective}
use novachannel.Transport.Window.{accepts}
use novachannel.Transport.Replay.{seq_of, opens, opens-ok, Serves, Agrees, open_record-opens}

abbrev pub spent : Sender → Sender
spent s = record s { next_seq = s.next_seq + 1 }

module _ (aead : Aead) where
  abbrev sealed_with : Sender → Bytes → Option Bytes
  sealed_with s p =
      aead.encrypt s.key.cipher (nonce_for s.key s.next_seq) (to_be_bytes 8 s.next_seq) p

  pub data Seals (s : Sender) (p : Bytes) : Result Error Bytes × Sender → Type 0 where
    too_long : max_plaintext_len < length p → Seals s p (err too_large, s)
    exhausted : s.next_seq + 1 ≡ 2 ^ 64 → Seals s p (err sequence_exhausted, s)
    cipher_failed :
        sealed_with s p ≡ none → s.next_seq + 1 < 2 ^ 64 → Seals s p (err decrypt, spent s)
    sealed :
        (c : Bytes)
        → sealed_with s p ≡ some c
        → length p ≤ max_plaintext_len
        → s.next_seq + 1 < 2 ^ 64
        → Seals s p (ok (to_be_bytes 8 s.next_seq ++ c), spent s)

  -- Sealing does one of four things: it refuses a plaintext over the limit, or the last sequence
  -- number, and leaves the sender as it was; it fails with the cipher, and the number is spent; or it
  -- returns the number and the ciphertext under the number's nonce, and the number is spent.
  pub seal-Seals : (s : Sender) (p : Bytes) → s.next_seq < 2 ^ 64 → Seals s p (seal aead p s)
  unfolding seal
  seal-Seals s p h = elim (Bool-cases (ltb max_plaintext_len (length p))) [
    | inl long ↦ rw long (too_long (ground arith))
    | inr fits ↦ elim (Bool-cases (s.next_seq + 1 == 2 ^ 64)) [
      | inl full ↦ rw (fits, full) (exhausted (ground arith))
      | inr room ↦ elim (Option-cases (sealed_with s p)) [
        | inl e ↦ rw (fits, room, e, seal_at) (cipher_failed e (ground arith))
        | inr (c, e) ↦ rw (fits, room, e, seal_at) (sealed c e (ground arith) (ground arith))
      ]
    ]
  ]

  abbrev prepend_nonce : Sender → Result Error Bytes → List Bytes → List Bytes
  prepend_nonce s (ok _) rest = nonce_for s.key s.next_seq ∷ rest
  prepend_nonce s _ rest = rest

  -- The nonces of the records that a sender returns for a list of plaintexts.
  pub sealed_nonces : List Bytes → Sender → List Bytes
  sealed_nonces [] s = []
  sealed_nonces (p ∷ ps) s = prepend_nonce s (seal aead p s).0 (sealed_nonces ps (seal aead p s).1)

  -- A nonce of a number from `lo` on.
  data IsLater (key : DirectionalKey) (lo : ℕ) (nonce : Bytes) : Type 0 where
    later : (n : ℕ) → lo ≤ n → n < 2 ^ 64 → nonce ≡ nonce_for key n → IsLater key lo nonce

  module _ (law : IsAead aead) where
    sealed-opens :
        (s : Sender) (p c : Bytes) (seen : List ℕ)
        → sealed_with s p ≡ some c
        → length p ≤ max_plaintext_len
        → s.next_seq < 2 ^ 64
        → accepts seen s.next_seq ≡ true
        → opens aead s.key (to_be_bytes 8 s.next_seq ++ c) seen ≡ (ok p, s.next_seq ∷ seen)
    sealed-opens s p c seen e fits small fresh =
        opens-ok aead s.key rec seen p (omega (arith, size)) (omega (arith, size)) (rw number fresh)
          (rw (number, front, back)
            (law.opens s.key.cipher (nonce_for s.key s.next_seq) head p c e))
        ∙ ap (λ n. (ok p, n ∷ seen)) number
      where
        head : Bytes
        head = to_be_bytes 8 s.next_seq

        rec : Bytes
        rec = head ++ c

        width : length head ≡ 8
        width = length-to_be_bytes 8 s.next_seq

        front : take 8 rec ≡ head
        front = ap (λ n. take n rec) (sym width) ∙ take-append_length head c

        back : drop 8 rec ≡ c
        back = ap (λ n. drop n rec) (sym width) ∙ drop-append_length head c

        number : seq_of rec ≡ s.next_seq
        number = ap from_be_bytes front ∙ from_be_bytes-to_be_bytes 8 s.next_seq small

        size : length rec ≡ 8 + (length p + 16)
        size = omega (
          arith,
          length-append head c,
          width,
          law.grows s.key.cipher (nonce_for s.key s.next_seq) head p c e,
        )

    -- A record that the sender seals is opened by a receiver with the same key, if its number is new
    -- to the receiver and at most 64 below the newest that it opened: it gives the plaintext back, and
    -- the number counts as opened afterwards. Records may be lost or reordered within that window.
    pub open_record-seal :
        (s s' : Sender) (p rec : Bytes) (r : Receiver) (seen : List ℕ)
        → s.next_seq < 2 ^ 64
        → seal aead p s ≡ (ok rec, s')
        → Serves s.key r seen
        → accepts seen s.next_seq ≡ true
        → Agrees s.key (open_record aead rec r) (ok p, s.next_seq ∷ seen)
    open_record-seal s s' p rec r seen small e serves fresh = from_Seals (seal-Seals s p small) e
      where
        from_Seals :
            {q : Result Error Bytes × Sender}
            → Seals s p q
            → q ≡ (ok rec, s')
            → Agrees s.key (open_record aead rec r) (ok p, s.next_seq ∷ seen)
        from_Seals (too_long _) e = absurd (cc)
        from_Seals (exhausted _) e = absurd (cc)
        from_Seals (cipher_failed _ _) e = absurd (cc)
        from_Seals (sealed c sealed_e fits _) e =
            let same : to_be_bytes 8 s.next_seq ++ c ≡ rec = cc in
            subst (λ t. Agrees s.key (open_record aead t r) (ok p, s.next_seq ∷ seen)) same
              (subst (Agrees s.key (open_record aead (to_be_bytes 8 s.next_seq ++ c) r))
                (sealed-opens s p c seen sealed_e fits small fresh)
                (open_record-opens aead s.key (to_be_bytes 8 s.next_seq ++ c) r seen serves))

-- No byte string stands twice in the list.
abbrev pub AllDistinct : List Bytes → Type 0
AllDistinct [] = Unit
AllDistinct (x ∷ xs) = All (λ y. x ≢ y) xs × AllDistinct xs

module _ (aead : Aead) where
  IsLater-suc :
      (key : DirectionalKey) (lo : ℕ) (xs : List Bytes)
      → All (IsLater aead key (lo + 1)) xs
      → All (IsLater aead key lo) xs
  IsLater-suc key lo [] h = tt
  IsLater-suc key lo (x ∷ xs) (later n a b e, h) =
      (later n (omega arith) b e, IsLater-suc key lo xs h)

  IsLater-ne :
      (key : DirectionalKey) (lo : ℕ) (xs : List Bytes)
      → length key.base_iv ≡ 12
      → lo < 2 ^ 64
      → All (IsLater aead key (lo + 1)) xs
      → All (λ y. nonce_for key lo ≢ y) xs
  IsLater-ne key lo [] w small h = tt
  IsLater-ne key lo (x ∷ xs) w small (later n a b e, h) = (
    λ same. absurd (omega (arith, nonce_for-injective key lo n w small b (same ∙ e))),
    IsLater-ne key lo xs w small h,
  )

  sealed_nonces-cons :
      (ps : List Bytes) (p : Bytes) (s : Sender) (q : Result Error Bytes × Sender)
      → seal aead p s ≡ q
      → sealed_nonces aead (p ∷ ps) s ≡ prepend_nonce aead s q.0 (sealed_nonces aead ps q.1)
  unfolding sealed_nonces
  sealed_nonces-cons ps p s q e = ap (λ t. prepend_nonce aead s t.0 (sealed_nonces aead ps t.1)) e

  sealed_step :
      (ps : List Bytes) (p : Bytes) (s : Sender) {q : Result Error Bytes × Sender}
      → length s.key.base_iv ≡ 12
      → Seals aead s p q
      → seal aead p s ≡ q
      → s.next_seq < 2 ^ 64
      → (q.1.next_seq < 2 ^ 64
          → length q.1.key.base_iv ≡ 12
          → All (IsLater aead q.1.key q.1.next_seq) (sealed_nonces aead ps q.1)
            × AllDistinct (sealed_nonces aead ps q.1))
      → All (IsLater aead s.key s.next_seq) (sealed_nonces aead (p ∷ ps) s)
        × AllDistinct (sealed_nonces aead (p ∷ ps) s)
  sealed_step ps p s w (too_long _) e small ih = rw (sealed_nonces-cons ps p s _ e) (ih small w)
  sealed_step ps p s w (exhausted _) e small ih = rw (sealed_nonces-cons ps p s _ e) (ih small w)
  sealed_step ps p s w (cipher_failed _ room) e small ih =
      let (later_ones, d) = ih room w in
      rw (sealed_nonces-cons ps p s _ e)
        (IsLater-suc s.key s.next_seq (sealed_nonces aead ps (spent s)) later_ones, d)
  sealed_step ps p s w (sealed c _ _ room) e small ih =
      let (later_ones, d) = ih room w in
      rw (sealed_nonces-cons ps p s _ e) (
        (
          later s.next_seq (omega arith) small refl,
          IsLater-suc s.key s.next_seq (sealed_nonces aead ps (spent s)) later_ones,
        ),
        (IsLater-ne s.key s.next_seq (sealed_nonces aead ps (spent s)) w small later_ones, d),
      )

  sealed_nonces-IsLater :
      (ps : List Bytes) (s : Sender)
      → s.next_seq < 2 ^ 64
      → length s.key.base_iv ≡ 12
      → All (IsLater aead s.key s.next_seq) (sealed_nonces aead ps s)
        × AllDistinct (sealed_nonces aead ps s)
  sealed_nonces-IsLater [] s small w = unfold sealed_nonces in (tt, tt)
  sealed_nonces-IsLater (p ∷ ps) s small w =
      sealed_step ps p s w (seal-Seals aead s p small) refl small
        (sealed_nonces-IsLater ps (seal aead p s).1)

  -- No two records that a sender with a 12-byte base returns use one nonce, whatever plaintexts it is
  -- given and whichever of them it refuses.
  pub sealed_nonces-AllDistinct :
      (ps : List Bytes) (s : Sender)
      → s.next_seq < 2 ^ 64
      → length s.key.base_iv ≡ 12
      → AllDistinct (sealed_nonces aead ps s)
  sealed_nonces-AllDistinct ps s small w = (sealed_nonces-IsLater ps s small w).1
