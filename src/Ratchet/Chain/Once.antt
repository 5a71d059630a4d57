-- ===== src/Ratchet/Chain/Once.antt =====
-- crates/core/src/ratchet.rs: a receive chain opens each number at most once.
use novachannel.Common.{
  ℕ, ◌≡◌, refl, ap, sym, ◌∙◌, true, false, List, [], ◌∷◌, Result, ok, err, panic, ◌==◌, ==_iff,
  Bool-cases, arith, Bytes, inl, inr, contains, Distinct,
}
use novachannel.Errors.{Error}
use novachannel.Crypto.{Aead, Kdf}
use novachannel.Ratchet.{RecvChain}
use novachannel.Ratchet.Receive.{open_on}
use novachannel.Ratchet.Chain.{available, forget, Tracks, After, forget-After}
use novachannel.Ratchet.Chain.Outcome.{
  Outcome, replayed, too_many, refused_late, refused, opened, exhausted, open_on-Outcome,
}

pub record Attempt : Type 0 where
  pub seq : ℕ
  pub aad : Bytes
  pub ciphertext : Bytes

abbrev adds : Result Error Bytes → ℕ → List ℕ → List ℕ
adds (ok _) n rest = n ∷ rest
adds (err _) n rest = rest
adds panic n rest = []

module _ (aead : Aead) (kdf : Kdf) where
  -- The numbers opened on a chain by a list of records, until a panic.
  unfoldable pub opened_numbers : List Attempt → RecvChain → List ℕ
  opened_numbers [] c = []
  opened_numbers (a ∷ rest) c =
      let r = open_on aead kdf a.seq a.aad a.ciphertext c in
      adds r.0 a.seq (opened_numbers rest r.1)

abbrev Fresh : RecvChain → List ℕ → Type 0
Fresh c ns = Distinct ns × ((n : ℕ) → available c n ≡ false → contains ns n ≡ false)

module _ (kdf : Kdf) (root : Bytes) (aead : Aead) where
  stays_closed :
      (c c' : RecvChain) (seq : ℕ)
      → After kdf root c seq c'
      → (k : ℕ) → available c k ≡ false
      → available c' k ≡ false
  stays_closed c c' seq a k e = elim (Bool-cases (k == seq)) [
    | inl same ↦ ap (available c') ((==_iff k seq).0 same) ∙ a.used
    | inr other ↦ a.others k (ground arith) ∙ e
  ]

  Fresh-adds :
      (c : RecvChain) (seq : ℕ) (aad ciphertext : Bytes) (rest : List ℕ)
      {q : Result Error Bytes × RecvChain}
      → Tracks kdf root c
      → Outcome kdf root aead c seq aad ciphertext q
      → (Tracks kdf root q.1 → Fresh q.1 rest)
      → Fresh c (adds q.0 seq rest)
  Fresh-adds c seq aad ciphertext rest t (replayed _) h = h t
  Fresh-adds c seq aad ciphertext rest t (too_many _ _) h = h t
  Fresh-adds c seq aad ciphertext rest t (refused_late lt _ _) h =
      let a = forget-After kdf root c seq lt t in
      let (d, n) = h a.tracks in (d, λ k e. n k (stays_closed c (forget seq c) seq a k e))
  Fresh-adds c seq aad ciphertext rest t (refused _ _) h = h t
  Fresh-adds c seq aad ciphertext rest t (opened p c' yea _ a) h =
      let (d, n) = h a.tracks in
      ((n seq a.used, d), λ k e. rw (other k e) (n k (stays_closed c c' seq a k e)))
    where
      other : (k : ℕ) → available c k ≡ false → (k == seq) ≡ false
      other k e = elim (Bool-cases (k == seq)) [
        | inl same ↦
            let clash : true ≡ false =
              sym yea ∙ ap (available c) (sym ((==_iff k seq).0 same)) ∙ e in
            absurd (cc)
        | inr differs ↦ differs
      ]
  Fresh-adds c seq aad ciphertext rest t (exhausted _ _ _ _) h = (tt, λ k e. refl)

  opened_numbers-Fresh :
      (attempts : List Attempt) (c : RecvChain)
      → Tracks kdf root c
      → Fresh c (opened_numbers aead kdf attempts c)
  unfolding opened_numbers
  opened_numbers-Fresh [] c t = (tt, λ k e. refl)
  opened_numbers-Fresh (a ∷ rest) c t =
      Fresh-adds c a.seq a.aad a.ciphertext
        (opened_numbers aead kdf rest (open_on aead kdf a.seq a.aad a.ciphertext c).1) t
        (open_on-Outcome kdf root aead c a.seq a.aad a.ciphertext t)
        (λ t'. opened_numbers-Fresh rest _ t')

  -- Whatever records come on a chain that stands on its root, in whatever order, replayed, lost or
  -- forged, no number is opened twice, and none that is used or given up already.
  pub opened_numbers-Distinct :
      (attempts : List Attempt) (c : RecvChain)
      → Tracks kdf root c
      → Distinct (opened_numbers aead kdf attempts c)
        × ((n : ℕ)
            → available c n ≡ false
            → contains (opened_numbers aead kdf attempts c) n ≡ false)
  opened_numbers-Distinct attempts c t = opened_numbers-Fresh attempts c t
