-- ===== src/Ratchet/Gather.antt =====
-- crates/core/src/ratchet.rs: gathering the chunks of an incremental step.
pub mod Outcome
use novachannel.Common.{
  ℕ, zero, suc, ◌+◌, ◌<◌, ◌≤◌, ◌≡◌, ◌≢◌, refl, ap, subst, true, false, not, Option, none, some,
  List, Result, ok, err, panic, NoPanic, if◌then◌else◌, ltb, leb, arith, Bool-cases, inl, inr,
  length, take, set, replicate, Bytes, bytes_eq, bytes_eq_iff, length-set,
}
use novachannel.Errors.{Error, malformed}
use novachannel.Crypto.{Aead, Kdf, ErasureCode}
use novachannel.Kex.{then_else}
use novachannel.Erasure.{present_count, decode}
use novachannel.Erasure.Shards.{decode-NoPanic}
use novachannel.Ratchet.{ChunkAccumulator}
use novachannel.Ratchet.Chunks.{
  ChunkFields, received_count, new_accumulator, in_progress, same_shape, truncated_checksum,
  check_payload, file_chunk, accumulate_chunk,
}
use Outcome.{
  Waiting, WaitingSlot, Agrees, Gathered, resumes, starts, Filed, checksum_of, Completes, Gathers,
  out_of_range, mismatched, waiting, not_decoded, too_short, corrupted, whole,
}

length-replicate : {A : Type 0} (n : ℕ) (a : A) → length (replicate n a) ≡ n
length-replicate zero a = refl
length-replicate (suc n) a = ap suc (length-replicate n a)

module _ (aead : Aead) (kdf : Kdf) (code : ErasureCode) where
  same_shape-Agrees :
      (acc : ChunkAccumulator) (fields : ChunkFields)
      → same_shape aead kdf code acc fields ≡ true
      → Agrees acc fields
  unfolding same_shape
  same_shape-Agrees acc fields e = record {
    same_data = ground arith;
    same_parity = ground arith;
    same_len = ground arith;
    same_checksum = (bytes_eq_iff acc.checksum fields.checksum).0 (ground arith);
  }

  Agrees-same_shape :
      (acc : ChunkAccumulator) (fields : ChunkFields)
      → Agrees acc fields
      → same_shape aead kdf code acc fields ≡ true
  unfolding same_shape
  Agrees-same_shape acc fields a = ground (
    arith,
    a.same_data,
    a.same_parity,
    a.same_len,
    (bytes_eq_iff acc.checksum fields.checksum).1 a.same_checksum,
  )

  check_payload-Gathers :
      (nonce : Bytes) (fields : ChunkFields) (slot : Option ChunkAccumulator)
      (acc : ChunkAccumulator) (out : Bytes)
      → Agrees acc fields
      → Completes aead kdf code nonce fields slot (ok out)
      → Gathers aead kdf code nonce fields slot (
        then_else
            (check_payload aead kdf code acc out)
            (λ payload. ok (some (payload, fields.data_shards, fields.parity_shards))),
        none,
      )
  unfolding check_payload
  check_payload-Gathers nonce fields slot acc out a c =
      elim (Bool-cases (ltb (length out) fields.original_len)) [
        | inl short ↦ rw (a.same_len, short) (too_short out c (ground arith))
        | inr long ↦
            let sum = checksum_of aead kdf code (take fields.original_len out) in
            elim (Bool-cases (bytes_eq sum fields.checksum)) [
              | inr bad ↦
                  rw (a.same_len, a.same_checksum, long, bad)
                    (corrupted out c (ground arith)
                      (λ same. absurd (cc (bad, (bytes_eq_iff sum fields.checksum).1 same))))
              | inl good ↦
                  rw (a.same_len, a.same_checksum, long, good)
                    (whole out c (ground arith) ((bytes_eq_iff sum fields.checksum).0 good))
            ]
      ]

  decoded-Gathers :
      (nonce : Bytes) (fields : ChunkFields) (slot : Option ChunkAccumulator)
      (acc : ChunkAccumulator) (r : Result Error Bytes)
      → NoPanic r
      → Agrees acc fields
      → Completes aead kdf code nonce fields slot r
      → Gathers aead kdf code nonce fields slot (
        then_else r (λ reconstructed.
            then_else
              (check_payload aead kdf code acc reconstructed)
              (λ payload. ok (some (payload, fields.data_shards, fields.parity_shards)))),
        none,
      )
  decoded-Gathers nonce fields slot acc (ok out) h a c =
      check_payload-Gathers nonce fields slot acc out a c
  decoded-Gathers nonce fields slot acc (err e) h a c = not_decoded e c
  decoded-Gathers nonce fields slot acc panic h a c = elim h [ ]

  file_chunk-Gathers :
      (nonce : Bytes) (fields : ChunkFields) (slot slot' : Option ChunkAccumulator)
      (acc : ChunkAccumulator)
      → fields.data_shards < 256
      → fields.parity_shards < 256
      → fields.shard_index < fields.data_shards + fields.parity_shards
      → length acc.shards ≡ acc.data_shards + acc.parity_shards
      → acc.attempt_nonce ≡ nonce
      → Gathered nonce fields slot acc.shards
      → Agrees acc fields
      → Gathers aead kdf code nonce fields slot (file_chunk aead kdf code fields acc slot')
  unfolding file_chunk received_count
  file_chunk-Gathers nonce fields slot slot' acc hd hp lt len own g a =
      let shards = set acc.shards fields.shard_index (some fields.shard) in
      let filed = record acc { shards = shards } in
      let agrees : Agrees filed fields = record {
        same_data = a.same_data;
        same_parity = a.same_parity;
        same_len = a.same_len;
        same_checksum = a.same_checksum;
      } in
      let put : Filed nonce fields slot shards = record {
        in_range = lt;
        before = acc.shards;
        gathered = g;
        placed = refl;
      } in
      let place : leb (length acc.shards) fields.shard_index ≡ false =
        ground (arith, a.same_data, a.same_parity) in
      let size = length-set acc.shards fields.shard_index (some fields.shard) in
      elim (Bool-cases (ltb (present_count shards) fields.data_shards)) [
        | inl few ↦
            rw (place, few)
              (waiting filed own agrees put (omega (arith, size), ground (arith, a.same_data)))
        | inr enough ↦
            rw (place, enough)
              (decoded-Gathers nonce fields slot filed _
                (decode-NoPanic code shards fields.data_shards fields.parity_shards hd hp) agrees
                (record { shards = shards; filed = put; enough = ground arith; decoded = refl }))
      ]

  -- The attempt in progress: the one in the slot, or a new one.
  data Progress (nonce : Bytes) (fields : ChunkFields) (slot : Option ChunkAccumulator)
      : ChunkAccumulator → Type 0 where
    resumed :
        (acc : ChunkAccumulator)
        → slot ≡ some acc
        → acc.attempt_nonce ≡ nonce
        → Waiting acc
        → Progress nonce fields slot acc
    begun :
        ((acc : ChunkAccumulator) → slot ≡ some acc → acc.attempt_nonce ≢ nonce)
        → Progress nonce fields slot (new_accumulator aead kdf code nonce fields)

  in_progress-Progress :
      (nonce : Bytes) (fields : ChunkFields) (slot : Option ChunkAccumulator)
      → WaitingSlot slot
      → Progress nonce fields slot (in_progress aead kdf code nonce fields slot)
  in_progress-Progress nonce fields none w = begun (λ acc held. absurd (cc (held)))
  in_progress-Progress nonce fields (some acc) w =
      elim (Bool-cases (bytes_eq acc.attempt_nonce nonce)) [
        | inl same ↦ rw same (resumed acc refl ((bytes_eq_iff acc.attempt_nonce nonce).0 same) w)
        | inr other ↦ rw other (
            begun (λ acc' held same.
              let equal : acc.attempt_nonce ≡ nonce = cc (held, same) in
              absurd (cc (other, (bytes_eq_iff acc.attempt_nonce nonce).1 equal))))
      ]

  new_accumulator-same_shape :
      (nonce : Bytes) (fields : ChunkFields)
      → same_shape aead kdf code (new_accumulator aead kdf code nonce fields) fields ≡ true
  unfolding same_shape new_accumulator
  new_accumulator-same_shape nonce fields =
      ground (arith, (bytes_eq_iff fields.checksum fields.checksum).1 refl)

  begun-Gathers :
      (nonce : Bytes) (fields : ChunkFields) (slot slot' : Option ChunkAccumulator)
      → ((acc : ChunkAccumulator) → slot ≡ some acc → acc.attempt_nonce ≢ nonce)
      → fields.data_shards < 256
      → fields.parity_shards < 256
      → fields.shard_index < fields.data_shards + fields.parity_shards
      → Gathers aead kdf code nonce fields slot
          (file_chunk aead kdf code fields (new_accumulator aead kdf code nonce fields) slot')
  unfolding new_accumulator
  begun-Gathers nonce fields slot slot' fresh hd hp lt =
      file_chunk-Gathers nonce fields slot slot' (new_accumulator aead kdf code nonce fields) hd hp
        lt (length-replicate (fields.data_shards + fields.parity_shards) none) refl (starts fresh)
        (same_shape-Agrees (new_accumulator aead kdf code nonce fields) fields
          (new_accumulator-same_shape nonce fields))

  Progress-Gathers :
      (nonce : Bytes) (fields : ChunkFields) (slot : Option ChunkAccumulator)
      {acc : ChunkAccumulator}
      → Progress nonce fields slot acc
      → fields.data_shards < 256
      → fields.parity_shards < 256
      → fields.shard_index < fields.data_shards + fields.parity_shards
      → Gathers aead kdf code nonce fields slot (
          if not (same_shape aead kdf code acc fields)
          then (
            err (malformed "chunk parameters do not match the in-progress reconstruction"),
            some acc,
          )
          else file_chunk aead kdf code fields acc (some acc))
  Progress-Gathers nonce fields slot (resumed acc held same w) hd hp lt =
      elim (Bool-cases (same_shape aead kdf code acc fields)) [
        | inr bad ↦ rw bad (
            subst
              (λ o.
                Gathers aead kdf code nonce fields slot (
                  err (malformed "chunk parameters do not match the in-progress reconstruction"),
                  o,
                ))
              held
              (mismatched acc lt held same
                (λ a. absurd (cc (bad, Agrees-same_shape acc fields a)))))
        | inl good ↦
            let a = same_shape-Agrees acc fields good in
            rw good (
              file_chunk-Gathers nonce fields slot (some acc) acc hd hp lt w.0 same
                (resumes acc held same a) a)
      ]
  Progress-Gathers nonce fields slot (begun fresh) hd hp lt =
      let acc = new_accumulator aead kdf code nonce fields in
      rw (new_accumulator-same_shape nonce fields)
        (begun-Gathers nonce fields slot (some acc) fresh hd hp lt)

  -- A chunk whose shard counts are bytes, filed with an accumulator that waits, never panics. It is
  -- refused, with the slot as it was, exactly if its index is out of range or the slot holds an
  -- accumulator of its attempt with other parameters. Else its shard joins those that the slot
  -- holds of its attempt, or starts from none if the slot is empty or of another attempt: the slot
  -- waits with them while they are fewer than the data shards; with enough, they are decoded and
  -- the slot is empty, the result being the error of the decoding, the error of a reconstruction
  -- that is too short or has another checksum, or the payload, the first bytes of what was decoded,
  -- as many as declared, with the declared checksum.
  pub accumulate_chunk-Gathers :
      (nonce : Bytes) (fields : ChunkFields) (slot : Option ChunkAccumulator)
      → fields.data_shards < 256
      → fields.parity_shards < 256
      → WaitingSlot slot
      → Gathers aead kdf code nonce fields slot (accumulate_chunk aead kdf code nonce fields slot)
  unfolding accumulate_chunk
  accumulate_chunk-Gathers nonce fields slot hd hp w =
      elim (Bool-cases (leb (fields.data_shards + fields.parity_shards) fields.shard_index)) [
        | inl out ↦ rw out (out_of_range (ground arith))
        | inr within ↦ rw within (
            Progress-Gathers nonce fields slot (in_progress-Progress nonce fields slot w) hd hp
              (ground arith))
      ]
