-- ===== src/Erasure.antt =====
-- crates/core/src/erasure.rs: splitting a payload into shards, and rebuilding it from some of them. The
-- Reed-Solomon code is a parameter. `usize` is 64 bits wide.
pub mod Shards
pub mod RoundTrip
pub mod Payload
pub mod Tests
use novachannel.Common.{
  ℕ, zero, suc, ◌+◌, ◌-◌, ◌*◌, ◌/◌, ◌%◌, ◌^◌, Bool, true, false, not, ◌||◌, ◌&&◌, Option, none,
  some, List, [], ◌∷◌, ◌++◌, Result, ok, err, panic, if◌then◌else◌, ltb, leb, ◌==◌, max, length,
  take, drop, replicate, Bytes,
}
use novachannel.Errors.{Error, malformed}
use novachannel.Crypto.{ErasureCode}
use novachannel.Kex.{option_or, then_else}

-- The sum is computed only if neither count is 0.
unfoldable pub check_shard_counts : (data_shards parity_shards : ℕ) → Result Error (Unit {0})
check_shard_counts data_shards parity_shards =
    if data_shards == 0 || parity_shards == 0
    then err (malformed "invalid erasure-coding shard counts")
    else if leb (2 ^ 64) (data_shards + parity_shards)
    then panic
    else if ltb 255 (data_shards + parity_shards)
    then err (malformed "invalid erasure-coding shard counts")
    else ok tt

abbrev pub div_ceil : ℕ → ℕ → ℕ
div_ceil a b = if a % b == 0 then a / b else suc (a / b)

unfoldable pub shard_length : ℕ → ℕ → ℕ
shard_length payload_len data_shards =
    let n = max (div_ceil payload_len data_shards) 1 in if n % 2 == 0 then n else n + 1

-- `shard[..end - start].copy_from_slice(..)` on a shard of zeros.
unfoldable pub data_shard : Bytes → ℕ → ℕ → Bytes
data_shard payload shard_len start =
    let part = take shard_len (drop start payload) in
    if ltb start (length payload)
    then part ++ replicate (shard_len - length part) 0
    else replicate shard_len 0

-- The shards `i`, `i + 1`, ... of a payload.
unfoldable pub data_shards_from : Bytes → ℕ → ℕ → ℕ → List Bytes
data_shards_from payload shard_len i zero = []
data_shards_from payload shard_len i (suc count) =
    data_shard payload shard_len (i * shard_len) ∷ data_shards_from payload shard_len (suc i) count

unfoldable pub present_count : List (Option Bytes) → ℕ
present_count [] = 0
present_count (none ∷ shards) = present_count shards
present_count (some _ ∷ shards) = suc (present_count shards)

-- The loop over the present shards that finds their common length.
unfoldable pub common_length : Option ℕ → List (Option Bytes) → Result Error (Option ℕ)
common_length found [] = ok found
common_length found (none ∷ shards) = common_length found shards
common_length none (some shard ∷ shards) = common_length (some (length shard)) shards
common_length (some len) (some shard ∷ shards) =
    let rest = common_length (some len) shards in
    if len == length shard
    then rest
    else err (malformed "erasure-coded shards have inconsistent length")

unfoldable pub present_from : ℕ → List (Option Bytes) → List (ℕ × Bytes)
present_from i [] = []
present_from i (none ∷ shards) = present_from (suc i) shards
present_from i (some shard ∷ shards) = (i, shard) ∷ present_from (suc i) shards

-- The data shards one after the other, if all are present.
unfoldable pub joined : List (Option Bytes) → Option Bytes
joined [] = some []
joined (none ∷ shards) = none
joined (some shard ∷ shards) =
    let rest = joined shards in elim rest [ none ↦ none | some out ↦ some (shard ++ out) ]

unfoldable pub restored_at : ℕ → List (ℕ × Bytes) → Option Bytes
restored_at i [] = none
restored_at i ((j, shard) ∷ rest) =
    let later = restored_at i rest in if j == i then some shard else later

-- The data shards one after the other, the missing ones as restored.
unfoldable pub rebuilt : List (ℕ × Bytes) → ℕ → List (Option Bytes) → Result Error Bytes
rebuilt restored i [] = ok []
rebuilt restored i (some shard ∷ shards) =
    then_else (rebuilt restored (suc i) shards) (λ out. ok (shard ++ out))
rebuilt restored i (none ∷ shards) =
    let rest = rebuilt restored (suc i) shards in
    then_else
      (option_or (malformed "erasure reconstruction did not restore shard")
        (restored_at i restored))
      (λ shard. then_else rest (λ out. ok (shard ++ out)))

module _ (code : ErasureCode) where
  unfoldable pub encode : Bytes → (data_shards parity_shards : ℕ) → Result Error (List Bytes × ℕ)
  encode payload data_shards parity_shards =
      then_else (check_shard_counts data_shards parity_shards) (λ _.
        let shard_len = shard_length (length payload) data_shards in
        let originals = data_shards_from payload shard_len 0 data_shards in
        then_else
          (option_or (malformed "erasure encoding failed")
            (code.parity data_shards parity_shards originals))
          (λ parity. ok (originals ++ parity, shard_len)))

  -- What `decode` does with shards of one even length.
  unfoldable pub decode_present : List (Option Bytes) → ℕ → ℕ → Result Error Bytes
  decode_present shards data_shards parity_shards = elim (joined (take data_shards shards)) [
    | some out ↦ ok out
    | none ↦
        then_else
          (option_or (malformed "erasure reconstruction failed") (
            code.restore data_shards parity_shards (present_from 0 (take data_shards shards))
              (present_from 0 (drop data_shards shards))))
          (λ restored. rebuilt restored 0 (take data_shards shards))
  ]

  unfoldable pub decode : List (Option Bytes) → ℕ → ℕ → Result Error Bytes
  decode shards data_shards parity_shards =
      then_else (check_shard_counts data_shards parity_shards) (λ _.
        if not (length shards == data_shards + parity_shards)
        then err (malformed "wrong number of erasure-coded shards")
        else if ltb (present_count shards) data_shards
        then err (malformed "too few shards to reconstruct")
        else then_else (common_length none shards) (λ found. elim found [
          | none ↦ panic
          | some shard_len ↦
              if not (shard_len % 2 == 0)
              then err (malformed "erasure-coded shard length must be even")
              else decode_present shards data_shards parity_shards
        ]))
