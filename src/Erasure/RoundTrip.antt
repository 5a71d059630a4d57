-- ===== src/Erasure/RoundTrip.antt =====
-- crates/core/src/erasure.rs: a payload is rebuilt from any `data_shards` of its shards.
use novachannel.Common.{
  ℕ, suc, ◌+◌, ◌%◌, ◌≤◌, ◌≡◌, refl, ap, ap₂, sym, subst, ◌∙◌, true, false, Option, none, some,
  Option-cases, List, [], ◌∷◌, ◌++◌, ok, ◌^◌, ltb, leb, ◌==◌, arith, inl, inr, length, take, drop,
  get_elem?, All, Bytes, length-append,
}
use novachannel.Crypto.{ErasureCode}
use novachannel.Erasure.{
  check_shard_counts, present_count, common_length, present_from, joined, restored_at, rebuilt,
  decode_present, decode,
}

-- The shards that arrived of those that were sent: some are missing, the others are as sent.
abbrev pub Received : List (Option Bytes) → List Bytes → Type 0
Received [] [] = Unit
Received (none ∷ shards) (sent ∷ rest) = Received shards rest
Received (some shard ∷ shards) (sent ∷ rest) = (shard ≡ sent) × Received shards rest
Received _ _ = ⊥

-- What the code documents for the given counts: as many parity shards of the same, even and non-zero,
-- length; and the missing data shards from any `data_shards` of them.
pub record IsErasureCode (code : ErasureCode) (data_shards parity_shards : ℕ) : Type 0 where
  pub encodes :
      (n : ℕ) (originals : List Bytes)
      → 1 ≤ n
      → n % 2 ≡ 0
      → length originals ≡ data_shards
      → All (λ s. length s ≡ n) originals
      → (parity : List Bytes) × (code.parity data_shards parity_shards originals ≡ some parity)
        × (length parity ≡ parity_shards)
        × All (λ s. length s ≡ n) parity
  pub restores :
      (originals parity : List Bytes) (shards : List (Option Bytes))
      → code.parity data_shards parity_shards originals ≡ some parity
      → length originals ≡ data_shards
      → Received shards (originals ++ parity)
      → data_shards ≤ present_count shards
      → (restored : List (ℕ × Bytes)) × (code.restore data_shards parity_shards
            (present_from 0 (take data_shards shards))
            (present_from 0 (drop data_shards shards))
          ≡ some restored)
        × ((i : ℕ) (b : Bytes)
            → get_elem? (take data_shards shards) i ≡ some none
            → get_elem? originals i ≡ some b
            → restored_at i restored ≡ some b)

abbrev pub concat : List Bytes → Bytes
concat [] = []
concat (b ∷ bs) = b ++ concat bs

Received-length :
    (shards : List (Option Bytes)) (sent : List Bytes)
    → Received shards sent
    → length shards ≡ length sent
Received-length [] [] r = refl
Received-length [] (b ∷ sent) r = elim r [ ]
Received-length (none ∷ shards) [] r = elim r [ ]
Received-length (some s ∷ shards) [] r = elim r [ ]
Received-length (none ∷ shards) (b ∷ sent) r = ap suc (Received-length shards sent r)
Received-length (some s ∷ shards) (b ∷ sent) (e, r) = ap suc (Received-length shards sent r)

Received-take :
    (shards : List (Option Bytes)) (sent more : List Bytes)
    → Received shards (sent ++ more)
    → Received (take (length sent) shards) sent
Received-take shards [] more r = tt
Received-take [] (b ∷ sent) more r = elim r [ ]
Received-take (none ∷ shards) (b ∷ sent) more r = Received-take shards sent more r
Received-take (some s ∷ shards) (b ∷ sent) more (e, r) = (e, Received-take shards sent more r)

common_length-agrees :
    (n : ℕ) (shards : List (Option Bytes)) (sent : List Bytes)
    → Received shards sent
    → All (λ s. length s ≡ n) sent
    → common_length (some n) shards ≡ ok (some n)
unfolding common_length
common_length-agrees n [] [] r h = refl
common_length-agrees n [] (b ∷ sent) r h = elim r [ ]
common_length-agrees n (none ∷ shards) [] r h = elim r [ ]
common_length-agrees n (some s ∷ shards) [] r h = elim r [ ]
common_length-agrees n (none ∷ shards) (b ∷ sent) r (e, h) = common_length-agrees n shards sent r h
common_length-agrees n (some s ∷ shards) (b ∷ sent) (same, r) (e, h) =
    let here : (n == length s) ≡ true = ground (arith, ap length same) in
    rw here (common_length-agrees n shards sent r h)

common_length-found :
    (n : ℕ) (shards : List (Option Bytes)) (sent : List Bytes)
    → Received shards sent
    → All (λ s. length s ≡ n) sent
    → 1 ≤ present_count shards
    → common_length none shards ≡ ok (some n)
unfolding common_length present_count
common_length-found n [] sent r h p = elim p [ ]
common_length-found n (none ∷ shards) [] r h p = elim r [ ]
common_length-found n (some s ∷ shards) [] r h p = elim r [ ]
common_length-found n (none ∷ shards) (b ∷ sent) r (e, h) p =
    common_length-found n shards sent r h p
common_length-found n (some s ∷ shards) (b ∷ sent) (same, r) (e, h) p =
    ap (λ k. common_length (some k) shards) (ap length same ∙ e)
    ∙ common_length-agrees n shards sent r h

joined-concat :
    (shards : List (Option Bytes)) (sent : List Bytes) (out : Bytes)
    → Received shards sent
    → joined shards ≡ some out
    → out ≡ concat sent
unfolding joined
joined-concat [] [] out r e = cc
joined-concat [] (b ∷ sent) out r e = elim r [ ]
joined-concat (none ∷ shards) sent out r e = absurd (cc)
joined-concat (some s ∷ shards) [] out r e = elim r [ ]
joined-concat (some s ∷ shards) (b ∷ sent) out (same, r) e = elim (Option-cases (joined shards)) [
  | inl none_left ↦ let clash : none ≡ some out = sym (rw none_left refl) ∙ e in absurd (cc)
  | inr (rest, f) ↦
      let here : joined (some s ∷ shards) ≡ some (s ++ rest) = rw f refl in
      let both : some (s ++ rest) ≡ some out = sym here ∙ e in
      let whole : s ++ rest ≡ out = cc in
      sym whole ∙ ap₂ ◌++◌ same (joined-concat shards sent rest r f)
]

rebuilt-concat :
    (restored : List (ℕ × Bytes)) (k : ℕ) (shards : List (Option Bytes)) (sent : List Bytes)
    → Received shards sent
    → ((i : ℕ) (b : Bytes)
        → get_elem? shards i ≡ some none
        → get_elem? sent i ≡ some b
        → restored_at (k + i) restored ≡ some b)
    → rebuilt restored k shards ≡ ok (concat sent)
unfolding rebuilt
rebuilt-concat restored k [] [] r h = refl
rebuilt-concat restored k [] (b ∷ sent) r h = elim r [ ]
rebuilt-concat restored k (none ∷ shards) [] r h = elim r [ ]
rebuilt-concat restored k (some s ∷ shards) [] r h = elim r [ ]
rebuilt-concat restored k (none ∷ shards) (b ∷ sent) r h =
    let k0 : k + 0 ≡ k = omega arith in
    let here : restored_at k restored ≡ some b =
      ap (λ i. restored_at i restored) (sym k0) ∙ h 0 b refl refl in
    rw (here, rebuilt-concat restored (suc k) shards sent r (later k h)) refl
  where
    later :
        (k : ℕ)
        → ((i : ℕ) (b' : Bytes)
            → get_elem? (none ∷ shards) i ≡ some none
            → get_elem? (b ∷ sent) i ≡ some b'
            → restored_at (k + i) restored ≡ some b')
        → (i : ℕ) (b' : Bytes) → get_elem? shards i ≡ some none
        → get_elem? sent i ≡ some b'
        → restored_at (suc k + i) restored ≡ some b'
    later k h i b' e f =
        let shift : suc k + i ≡ k + suc i = omega arith in
        ap (λ j. restored_at j restored) shift ∙ h (suc i) b' e f
rebuilt-concat restored k (some s ∷ shards) (b ∷ sent) (same, r) h =
    rw
      (rebuilt-concat restored (suc k) shards sent r (λ i b' e f.
        let shift : suc k + i ≡ k + suc i = omega arith in
        ap (λ j. restored_at j restored) shift ∙ h (suc i) b' e f))
      (ap (λ t. ok (t ++ concat sent)) same)

module _ {code : ErasureCode} {d p : ℕ} (law : IsErasureCode code d p) where
  decode_present-concat :
      (originals parity : List Bytes) (shards : List (Option Bytes))
      → length originals ≡ d
      → code.parity d p originals ≡ some parity
      → Received shards (originals ++ parity)
      → d ≤ present_count shards
      → decode_present code shards d p ≡ ok (concat originals)
  unfolding decode_present
  decode_present-concat originals parity shards d_len coded r enough =
      let here : Received (take d shards) originals =
        subst (λ m. Received (take m shards) originals) d_len
          (Received-take shards originals parity r) in
      elim (Option-cases (joined (take d shards))) [
        | inr (out, e) ↦
            rw (e, decode_present) (ap ok (joined-concat (take d shards) originals out here e))
        | inl e ↦
            let (restored, f, at) = law.restores originals parity shards coded d_len r enough in
            rw (e, decode_present, f)
              (rebuilt-concat restored 0 (take d shards) originals here (λ i b g k.
                let same : 0 + i ≡ i = omega arith in
                ap (λ j. restored_at j restored) same ∙ at i b g k))
      ]

  -- Shards that arrived, as many as there are data shards, decode to the data shards in order.
  pub decode-concat :
      (n : ℕ) (originals parity : List Bytes) (shards : List (Option Bytes))
      → 1 ≤ d
      → 1 ≤ p
      → d + p ≤ 255
      → n % 2 ≡ 0
      → length originals ≡ d
      → length parity ≡ p
      → All (λ s. length s ≡ n) (originals ++ parity)
      → code.parity d p originals ≡ some parity
      → Received shards (originals ++ parity)
      → d ≤ present_count shards
      → decode code shards d p ≡ ok (concat originals)
  unfolding decode check_shard_counts
  decode-concat n originals parity shards d1 p1 small even d_len p_len lens coded r enough =
      let d0 : (d == 0) ≡ false = ground arith in
      let p0 : (p == 0) ≡ false = ground arith in
      let fits : leb (2 ^ 64) (d + p) ≡ false = ground arith in
      let fits_byte : ltb 255 (d + p) ≡ false = ground arith in
      let total : (length shards == d + p) ≡ true =
        ground
          (arith, Received-length shards (originals ++ parity) r, length-append originals parity) in
      let many : ltb (present_count shards) d ≡ false = ground arith in
      let one : 1 ≤ present_count shards = omega arith in
      let is_even : (n % 2 == 0) ≡ true = ground arith in
      rw
        (
          d0,
          p0,
          fits,
          fits_byte,
          total,
          many,
          common_length-found n shards (originals ++ parity) r lens one,
          is_even,
        )
        (decode_present-concat originals parity shards d_len coded r enough)
