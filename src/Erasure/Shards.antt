-- ===== src/Erasure/Shards.antt =====
-- crates/core/src/erasure.rs: decoding never panics on shard counts of one byte.
use novachannel.Common.{
  ℕ, zero, suc, ◌+◌, ◌^◌, ◌<◌, ◌≤◌, ◌≡◌, refl, false, ◌||◌, Option, none, some, Option-cases, List,
  [], ◌∷◌, Result, ok, err, panic, NoPanic, ltb, leb, ◌==◌, ◌%◌, arith, Bool-cases, inl, inr,
  length, take, drop, Bytes,
}
use novachannel.Errors.{Error, malformed}
use novachannel.Crypto.{ErasureCode}
use novachannel.Kex.{option_or, then_else}
use novachannel.Erasure.{
  check_shard_counts, present_count, common_length, present_from, joined, restored_at, rebuilt,
  decode_present, decode,
}

NoPanic-then_else :
    {A B : Type 0} (r : Result Error A) (f : A → Result Error B)
    → NoPanic r
    → ((a : A) → r ≡ ok a → NoPanic (f a))
    → NoPanic (then_else r f)
NoPanic-then_else (ok a) f h k = k a refl
NoPanic-then_else (err e) f h k = tt
NoPanic-then_else panic f h k = elim h [ ]

NoPanic-option_or : {A : Type 0} (e : Error) (o : Option A) → NoPanic (option_or e o)
NoPanic-option_or e none = tt
NoPanic-option_or e (some a) = tt

rebuilt-NoPanic :
    (restored : List (ℕ × Bytes)) (i : ℕ) (shards : List (Option Bytes))
    → NoPanic (rebuilt restored i shards)
unfolding rebuilt
rebuilt-NoPanic restored i [] = tt
rebuilt-NoPanic restored i (some shard ∷ shards) =
    NoPanic-then_else (rebuilt restored (suc i) shards) _ (rebuilt-NoPanic restored (suc i) shards)
      (λ out e. tt)
rebuilt-NoPanic restored i (none ∷ shards) =
    let lost = malformed "erasure reconstruction did not restore shard" in
    NoPanic-then_else (option_or lost (restored_at i restored)) _
      (NoPanic-option_or lost (restored_at i restored))
      (λ shard e.
        NoPanic-then_else (rebuilt restored (suc i) shards) _
          (rebuilt-NoPanic restored (suc i) shards) (λ out e. tt))

-- The common length is found if one shard is present, or was found before.
data Found : Result Error (Option ℕ) → Type 0 where
  agreed : (n : ℕ) → Found (ok (some n))
  differing : (e : Error) → Found (err e)

common_length-some : (n : ℕ) (shards : List (Option Bytes)) → Found (common_length (some n) shards)
unfolding common_length
common_length-some n [] = agreed n
common_length-some n (none ∷ shards) = common_length-some n shards
common_length-some n (some shard ∷ shards) = elim (Bool-cases (n == length shard)) [
  | inl same ↦ rw same (common_length-some n shards)
  | inr other ↦ rw other (differing _)
]

common_length-Found :
    (shards : List (Option Bytes)) → 1 ≤ present_count shards → Found (common_length none shards)
unfolding common_length present_count
common_length-Found [] h = elim h [ ]
common_length-Found (none ∷ shards) h = common_length-Found shards h
common_length-Found (some shard ∷ shards) h = common_length-some (length shard) shards

Found-NoPanic :
    {A : Type 0} (f : Option ℕ → Result Error A) {r : Result Error (Option ℕ)}
    → Found r
    → ((n : ℕ) → NoPanic (f (some n)))
    → NoPanic (then_else r f)
Found-NoPanic f (agreed n) k = k n
Found-NoPanic f (differing e) k = tt

check_shard_counts-NoPanic : (d p : ℕ) → d < 256 → p < 256 → NoPanic (check_shard_counts d p)
unfolding check_shard_counts
check_shard_counts-NoPanic d p hd hp = elim (Bool-cases (d == 0 || p == 0)) [
  | inl zeros ↦ rw zeros tt
  | inr some_each ↦
      let small : leb (2 ^ 64) (d + p) ≡ false = ground arith in
      elim (Bool-cases (ltb 255 (d + p))) [
        | inl many ↦ rw (some_each, small, many) tt
        | inr fits ↦ rw (some_each, small, fits) tt
      ]
]

check_shard_counts-ok : (d p : ℕ) (u : Unit {0}) → check_shard_counts d p ≡ ok u → 1 ≤ d
unfolding check_shard_counts
check_shard_counts-ok zero p u e = absurd (cc)
check_shard_counts-ok (suc d) p u e = omega arith

module _ (code : ErasureCode) where
  decode_present-NoPanic :
      (shards : List (Option Bytes)) (d p : ℕ) → NoPanic (decode_present code shards d p)
  unfolding decode_present
  decode_present-NoPanic shards d p = elim (Option-cases (joined (take d shards))) [
    | inr (out, e) ↦ rw (e, decode_present) tt
    | inl e ↦
        let failed = malformed "erasure reconstruction failed" in
        rw (e, decode_present)
          (NoPanic-then_else
            (option_or failed
              (code.restore d p (present_from 0 (take d shards)) (present_from 0 (drop d shards))))
            _ (NoPanic-option_or failed _)
            (λ restored _. rebuilt-NoPanic restored 0 (take d shards)))
  ]

  -- Whatever shards a peer sends, decoding with shard counts of one byte each does not panic.
  pub decode-NoPanic :
      (shards : List (Option Bytes)) (d p : ℕ)
      → d < 256
      → p < 256
      → NoPanic (decode code shards d p)
  unfolding decode
  decode-NoPanic shards d p hd hp =
      NoPanic-then_else (check_shard_counts d p) _ (check_shard_counts-NoPanic d p hd hp) (λ u e.
        elim (Bool-cases (length shards == d + p)) [
          | inr wrong ↦ rw wrong tt
          | inl right ↦ elim (Bool-cases (ltb (present_count shards) d)) [
            | inl few ↦ rw (right, few) tt
            | inr enough ↦
                rw (right, enough)
                  (Found-NoPanic _
                    (common_length-Found shards (ground (arith, check_shard_counts-ok d p u e)))
                    (λ n. elim (Bool-cases (n % 2 == 0)) [
                      | inl even ↦ rw even (decode_present-NoPanic shards d p)
                      | inr odd ↦ rw odd tt
                    ]))
          ]
        ])
