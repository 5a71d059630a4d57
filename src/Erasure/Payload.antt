-- ===== src/Erasure/Payload.antt =====
-- crates/core/src/erasure.rs: what `encode` sends, read back by `decode`.
use novachannel.Common.{
  ℕ, zero, suc, ◌+◌, ◌-◌, ◌*◌, ◌/◌, ◌%◌, ◌^◌, ◌<◌, ◌≤◌, ◌≡◌, refl, ap, ap₂, sym, subst, ◌∙◌, false,
  Option, List, [], ◌∷◌, ◌++◌, ok, ltb, leb, ◌==◌, arith, Bool-cases, inl, inr, length, take, drop,
  replicate, All, All-append, Bytes, length-append, length-take, take-append-drop,
  take-append_length, take_all, drop-drop, max,
}
use native.Mathlib.Nat.{div-add-mod, mod-lt, mul-le-mul_left}
use novachannel.Crypto.{ErasureCode}
use novachannel.Erasure.{
  check_shard_counts, present_count, encode, decode, data_shard, data_shards_from, shard_length,
  div_ceil,
}
use novachannel.Erasure.RoundTrip.{IsErasureCode, Received, concat, decode-concat}

abbrev zeros : ℕ → Bytes
zeros n = replicate n 0

length-replicate : (n : ℕ) → length (zeros n) ≡ n
length-replicate zero = refl
length-replicate (suc n) = ap suc (length-replicate n)

replicate_add : (m n : ℕ) → zeros m ++ zeros n ≡ zeros (m + n)
replicate_add zero n = ap (λ k. zeros k) (omega arith)
replicate_add (suc m) n =
    let shift : suc m + n ≡ suc (m + n) = omega arith in
    ap (λ t. 0 ∷ t) (replicate_add m n) ∙ ap (λ k. zeros k) (sym shift)

append_assoc : (xs ys zs : Bytes) → (xs ++ ys) ++ zs ≡ xs ++ (ys ++ zs)
append_assoc [] ys zs = refl
append_assoc (x ∷ xs) ys zs = ap (λ t. x ∷ t) (append_assoc xs ys zs)

zero_add : (d : ℕ) → d ≡ 0 + d
zero_add d = omega arith

zero_mul : (n : ℕ) → 0 * n ≡ 0
zero_mul n = omega arith

append_nil : (xs : Bytes) → xs ++ [] ≡ xs
append_nil [] = refl
append_nil (x ∷ xs) = ap (λ t. x ∷ t) (append_nil xs)

drop_all : (n : ℕ) (xs : Bytes) → length xs ≤ n → drop n xs ≡ []
drop_all zero [] h = refl
drop_all zero (x ∷ xs) h = absurd (omega arith)
drop_all (suc n) [] h = refl
drop_all (suc n) (x ∷ xs) h = drop_all n xs (omega arith)

length-data_shard : (payload : Bytes) (n start : ℕ) → length (data_shard payload n start) ≡ n
unfolding data_shard
length-data_shard payload n start = elim (Bool-cases (ltb start (length payload))) [
  | inr past ↦ rw past (length-replicate n)
  | inl inside ↦
      let part = take n (drop start payload) in
      rw inside (
        ground (
          arith,
          length-append part (zeros (n - length part)),
          length-replicate (n - length part),
          length-take n (drop start payload),
        ))
]

length-data_shards_from :
    (payload : Bytes) (n i count : ℕ) → length (data_shards_from payload n i count) ≡ count
unfolding data_shards_from
length-data_shards_from payload n i zero = refl
length-data_shards_from payload n i (suc count) =
    ap suc (length-data_shards_from payload n (suc i) count)

data_shards_from-All :
    (payload : Bytes) (n i count : ℕ) → All (λ s. length s ≡ n) (data_shards_from payload n i count)
unfolding data_shards_from
data_shards_from-All payload n i zero = tt
data_shards_from-All payload n i (suc count) =
    (length-data_shard payload n (i * n), data_shards_from-All payload n (suc i) count)

-- A shard and then zeros after the rest of the payload are zeros after the payload from the shard's start.
data_shard-append :
    (payload : Bytes) (n start k : ℕ)
    → (j : ℕ) × (data_shard payload n start ++ (drop (start + n) payload ++ zeros k)
        ≡ drop start payload ++ zeros j)
unfolding data_shard
data_shard-append payload n start k =
    let part = take n (drop start payload) in
    elim (Bool-cases (ltb start (length payload))) [
      | inr past ↦
          let nothing : drop start payload ≡ [] = drop_all start payload (ground arith) in
          let later : drop (start + n) payload ≡ [] = drop_all (start + n) payload (ground arith) in
          (n + k, rw (past, nothing, later) (replicate_add n k))
      | inl inside ↦ elim (Bool-cases (leb n (length part))) [
        | inl full ↦
            let none_left : n - length part ≡ 0 = ground arith in
            (
              k,
              rw (inside, none_left)
                  (ap (λ t. t ++ (drop (start + n) payload ++ zeros k)) (append_nil part)
                    ∙ sym (append_assoc part (drop (start + n) payload) (zeros k))
                    ∙ ap (λ t. t ++ zeros k)
                        (ap (λ t. part ++ t) (sym (drop-drop start n payload))
                          ∙ take-append-drop n (drop start payload))),
            )
        | inr short ↦
            let few : length (drop start payload) ≤ n =
              ground (arith, length-take n (drop start payload)) in
            let later : drop (start + n) payload ≡ [] =
              sym (drop-drop start n payload) ∙ drop_all n (drop start payload) few in
            let whole : part ≡ drop start payload = take_all n (drop start payload) few in
            (
              n - length part + k,
              rw (inside, later)
                  (append_assoc part (zeros (n - length part)) (zeros k)
                    ∙ ap₂ ◌++◌ whole (replicate_add (n - length part) k)),
            )
      ]
    ]

concat-data_shards_from :
    (payload : Bytes) (n i count : ℕ)
    → length payload ≤ (i + count) * n
    → (k : ℕ) × (concat (data_shards_from payload n i count) ≡ drop (i * n) payload ++ zeros k)
unfolding data_shards_from
concat-data_shards_from payload n i zero h =
    let whole : i + 0 ≡ i = omega arith in
    let past : length payload ≤ i * n = subst (λ j. length payload ≤ j * n) whole h in
    (0, rw (drop_all (i * n) payload past) refl)
concat-data_shards_from payload n i (suc count) h =
    let next : i + suc count ≡ suc i + count = omega arith in
    let (k, e) =
      concat-data_shards_from payload n (suc i) count
        (subst (λ j. length payload ≤ j * n) next h) in
    let step : suc i * n ≡ i * n + n = omega arith in
    let (j, f) = data_shard-append payload n (i * n) k in
    (
      j,
      ap (λ t. data_shard payload n (i * n) ++ t) (e ∙ ap (λ m. drop m payload ++ zeros k) step)
          ∙ f,
    )

shard_length_even : (m d : ℕ) → shard_length m d % 2 ≡ 0
unfolding shard_length
shard_length_even m d =
    let n = max (div_ceil m d) 1 in
    elim (Bool-cases (n % 2 == 0)) [
      | inl even ↦ rw even (ground arith)
      | inr odd ↦ rw odd (ground arith)
    ]

-- An empty payload still makes shards of two bytes, since the code refuses shards of none.
shard_length_pos : (m d : ℕ) → 1 ≤ shard_length m d
unfolding shard_length
shard_length_pos m d =
    let n = max (div_ceil m d) 1 in
    elim (Bool-cases (n % 2 == 0)) [
      | inl even ↦ rw even (omega arith)
      | inr odd ↦ rw odd (omega arith)
    ]

div_ceil_fits : (m d : ℕ) → 1 ≤ d → m ≤ d * div_ceil m d
div_ceil_fits m d h =
    let split = div-add-mod m d in
    let more : d * suc (m / d) ≡ d * (m / d) + d = omega arith in
    let small : m % d < d = mod-lt m h in
    elim (Bool-cases (m % d == 0)) [
      | inl even ↦ rw even (ground arith)
      | inr odd ↦ rw odd (omega arith)
    ]

shard_length_fits : (m d : ℕ) → 1 ≤ d → m ≤ d * shard_length m d
unfolding shard_length
shard_length_fits m d h =
    let q = div_ceil m d in
    let n = max q 1 in
    let least : d * q ≤ d * n = mul-le-mul_left d (omega arith) in
    let more : d * (n + 1) ≡ d * n + d = omega arith in
    let fits = div_ceil_fits m d h in
    elim (Bool-cases (n % 2 == 0)) [
      | inl even ↦ rw even (omega arith)
      | inr odd ↦ rw odd (omega arith)
    ]

module _ {code : ErasureCode} {d p : ℕ} (law : IsErasureCode code d p) where
  -- For at least one data shard and one parity shard and at most 255 in all, encode returns that
  -- many shards, and from any of them, as many as there are data shards, decode returns the payload
  -- followed by padding, for an empty payload too; for a Reed-Solomon code that does what its crate
  -- documents, with shards of an even and non-zero length.
  pub decode-encode :
      (payload : Bytes)
      → 1 ≤ d
      → 1 ≤ p
      → d + p ≤ 255
      → (sent : List Bytes) × (encode code payload d p ≡ ok (sent, shard_length (length payload) d))
        × (length sent ≡ d + p)
        × ((shards : List (Option Bytes))
            → Received shards sent
            → d ≤ present_count shards
            → (out : Bytes) × (decode code shards d p ≡ ok out)
              × (take (length payload) out ≡ payload))
  unfolding encode check_shard_counts
  decode-encode payload d1 p1 small =
      let n = shard_length (length payload) d in
      let originals = data_shards_from payload n 0 d in
      let d_len = length-data_shards_from payload n 0 d in
      let even = shard_length_even (length payload) d in
      let same = data_shards_from-All payload n 0 d in
      let (parity, coded, p_len, lens) =
        law.encodes n originals (shard_length_pos (length payload) d) even d_len same in
      let (k, padded) = concat-data_shards_from payload n 0 d (
        subst (λ j. length payload ≤ j * n) (zero_add d)
          (shard_length_fits (length payload) d d1)) in
      let d0 : (d == 0) ≡ false = ground arith in
      let p0 : (p == 0) ≡ false = ground arith in
      let fits : leb (2 ^ 64) (d + p) ≡ false = ground arith in
      let fits_byte : ltb 255 (d + p) ≡ false = ground arith in
      (
        originals ++ parity,
        rw (d0, p0, fits, fits_byte, coded) refl,
        ground (arith, length-append originals parity),
        λ shards r enough. (
          concat originals,
          decode-concat law n originals parity shards d1 p1 small even d_len p_len
              (All-append _ originals parity same lens) coded r enough,
          ap (λ t. take (length payload) t)
                (padded ∙ ap (λ m. drop m payload ++ zeros k) (zero_mul n))
              ∙ take-append_length payload (zeros k),
        ),
      )
