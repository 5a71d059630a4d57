-- ===== src/Erasure/Tests.antt =====
-- crates/core/src/erasure.rs: runs, and the theorems at a concrete payload.
use novachannel.Common.{
  subst, ℕ, zero, suc, ◌≤◌, ◌≡◌, refl, ap, sym, ◌∙◌, Option, none, some, List, [], ◌∷◌, ◌++◌, ok,
  arith, length, take, drop, get_elem?, All, Bytes,
}
use novachannel.Crypto.Toy.{toy_code, first_of, first_shard}
use novachannel.Erasure.{
  present_count, present_from, restored_at, encode, decode, check_shard_counts, common_length,
  decode_present, joined, rebuilt, shard_length,
}
use novachannel.Erasure.RoundTrip.{IsErasureCode, Received}
use novachannel.Erasure.Payload.{decode-encode}

toy_encodes :
    (n : ℕ) (originals : List Bytes)
    → length originals ≡ 1
    → All (λ s. length s ≡ n) originals
    → (parity : List Bytes) × (toy_code.parity 1 1 originals ≡ some parity)
      × (length parity ≡ 1)
      × All (λ s. length s ≡ n) parity
unfolding toy_code first_of
toy_encodes n [] l h = absurd (omega arith)
toy_encodes n (b ∷ more) l (e, h) = (b ∷ [], refl, refl, (e, tt))

-- The restored shards are the one shard that the code kept a copy of.
toy_restored :
    (b : Bytes) (shards : List (Option Bytes))
    → Received shards (b ∷ b ∷ [])
    → 1 ≤ present_count shards
    → first_shard (present_from 0 (take 1 shards)) (present_from 0 (drop 1 shards)) ≡ b
unfolding first_shard present_count present_from
toy_restored b [] r h = elim r [ ]
toy_restored b (none ∷ []) r h = elim r [ ]
toy_restored b (none ∷ none ∷ shards) r h = elim (nothing shards r h) [ ]
  where
    nothing : (shards : List (Option Bytes)) → Received shards [] → 1 ≤ present_count shards → ⊥
    nothing [] r h = elim h [ ]
    nothing (none ∷ shards) r h = r
    nothing (some s ∷ shards) r h = r
toy_restored b (none ∷ some s ∷ shards) (e, r) h = e
toy_restored b (some s ∷ shards) (e, r) h = e

only_first :
    (b c : Bytes) (restored : Bytes) (i : ℕ)
    → restored ≡ b
    → get_elem? (b ∷ []) i ≡ some c
    → restored_at i ((0, restored) ∷ []) ≡ some c
unfolding restored_at
only_first b c restored zero e f = ap some e ∙ f
only_first b c restored (suc i) e f = absurd cc

toy_restores :
    (originals parity : List Bytes) (shards : List (Option Bytes))
    → toy_code.parity 1 1 originals ≡ some parity
    → length originals ≡ 1
    → Received shards (originals ++ parity)
    → 1 ≤ present_count shards
    → (restored : List (ℕ × Bytes)) × (toy_code.restore 1 1
          (present_from 0 (take 1 shards))
          (present_from 0 (drop 1 shards))
        ≡ some restored)
      × ((i : ℕ) (b : Bytes)
          → get_elem? (take 1 shards) i ≡ some none
          → get_elem? originals i ≡ some b
          → restored_at i restored ≡ some b)
unfolding toy_code first_of
toy_restores [] parity shards coded l r enough = absurd (omega arith)
toy_restores (b ∷ c ∷ more) parity shards coded l r enough = absurd (omega arith)
toy_restores (b ∷ []) parity shards coded l r enough =
    let copied : b ∷ [] ≡ parity = cc in
    let arrived = subst (λ q. Received shards (b ∷ q)) (sym copied) r in
    (
      (0, first_shard (present_from 0 (take 1 shards)) (present_from 0 (drop 1 shards))) ∷ [],
      refl,
      λ i c gone f. only_first b c _ i (toy_restored b shards arrived enough) f,
    )

toy_code-IsErasureCode : IsErasureCode toy_code 1 1
toy_code-IsErasureCode = record {
  encodes = λ n originals nonzero even l h. toy_encodes n originals l h;
  restores = toy_restores;
}

decode-encode_example :
    (sent : List Bytes) × (encode toy_code (7 ∷ 8 ∷ 9 ∷ []) 1 1 ≡ ok (sent, shard_length 3 1))
    × (length sent ≡ 2)
    × ((shards : List (Option Bytes))
        → Received shards sent
        → 1 ≤ present_count shards
        → (out : Bytes) × (decode toy_code shards 1 1 ≡ ok out) × (take 3 out ≡ 7 ∷ 8 ∷ 9 ∷ []))
decode-encode_example =
    decode-encode toy_code-IsErasureCode (7 ∷ 8 ∷ 9 ∷ []) (omega arith) (omega arith) (omega arith)

-- The data shard is lost, and its copy is decoded.
decode_run : decode toy_code (none ∷ some (7 ∷ 8 ∷ 9 ∷ 0 ∷ []) ∷ []) 1 1 ≡ ok (7 ∷ 8 ∷ 9 ∷ 0 ∷ [])
unfolding decode toy_code first_shard check_shard_counts common_length decode_present joined rebuilt
    present_count present_from restored_at
decode_run = refl
