-- ===== src/Ratchet/Tests.antt =====
-- crates/core/src/ratchet.rs: runs, and the theorems at concrete sessions.
use novachannel.Common.{
  get_or, bytes_eq, ℕ, ◌≡◌, refl, arith, true, false, none, some, [], ◌∷◌, Result, ok, Bytes,
  replicate, contains, Distinct, List, ascii,
}
use novachannel.Errors.{Error}
use novachannel.Crypto.Toy.{toy, toy-IsAead, toy_kdf, toy_exchange, toy_code}
use novachannel.Wire.{
  to_be_bytes, from_be_bytes, new_reader, get_fixed, get_var, consumed, finished, new_writer,
  put_fixed, put_var, into_bytes,
}
use novachannel.Kex.{
  Draw, x25519_public_from_bytes, checked_dh, ml_kem_public_from_bytes,
  ml_kem_ciphertext_from_bytes, generate, finish, responder_exchange,
}
use novachannel.Ratchet.{
  ChunkAccumulator, RatchetedSession, RecvChain, header_bytes, seal_with_message_key,
  open_with_message_key, label_init_send, label_init_recv, label_step_root, label_step_i2r,
  label_step_r2i,
}
use novachannel.Ratchet.Receive.{
  lookup, remove, extend, skip_keys, open_skipped, open_expected, open_ahead, open_on,
}
use novachannel.Ratchet.Chain.{available, After}
use novachannel.Ratchet.Chain.Skipped.{chain_at, key_at}
use novachannel.Ratchet.Chain.Outcome.{Outcome, open_on-Outcome}
use novachannel.Ratchet.Chain.Once.{Attempt, opened_numbers, opened_numbers-Distinct}
use novachannel.Ratchet.Session.{
  Opened, application, ratchet_advanced, new_session, new_recv_chain, advance_epoch, read_keys,
  write_keys, derive_next_epoch, seal_payload, seal, initiate_ratchet, answer_step1, handle_step1,
  finish_step2, handle_step2, open_on_current, open_on_previous, open_in_epoch, dispatch,
  open_record,
}
use novachannel.Erasure.{
  check_shard_counts, shard_length, data_shard, data_shards_from, present_count, common_length,
  present_from, joined, restored_at, rebuilt, encode, decode_present, decode,
}
use novachannel.Ratchet.Chunks.{
  ChunkFields, label_chunk_key_step1, label_chunk_key_step2, received_count, read_chunk,
  parse_chunk_header, chunk_header, truncated_checksum, derive_chunk_key, seal_chunk, open_chunk,
  chunk_records_from, build_chunk_records, new_accumulator, same_shape, check_payload, file_chunk,
  accumulate_chunk,
}
use novachannel.Ratchet.Incremental.{
  ChunkOutcome, step1_complete, step2_complete, initiate_incremental_ratchet, answer_step1_payload,
  step1_gathered, gather_step1_chunk, open_step1_chunk, finish_step2_taken, finish_step2_payload,
  step2_gathered, gather_step2_chunk, open_step2_chunk, open_ratchet_chunk,
}
use novachannel.Ratchet.Gather.{accumulate_chunk-Gathers}
use novachannel.Ratchet.Gather.Outcome.{Gathers, Waiting}
use novachannel.Ratchet.Epochs.{Steady}
use novachannel.Ratchet.Epochs.Reach.{Reachable, start, sealed, Reachable-Steady}
use novachannel.Ratchet.Delivery.{Linked, sent, open_record-seal-in_reach}

program : Unit {0}
unfolding ascii to_be_bytes from_be_bytes new_reader get_fixed get_var finished new_writer put_fixed
    put_var into_bytes x25519_public_from_bytes checked_dh ml_kem_public_from_bytes
    ml_kem_ciphertext_from_bytes generate finish responder_exchange header_bytes
    seal_with_message_key open_with_message_key label_init_send label_init_recv label_step_root
    label_step_i2r label_step_r2i lookup remove extend skip_keys open_skipped open_expected
    open_ahead open_on chain_at key_at opened_numbers new_session new_recv_chain advance_epoch
    read_keys write_keys derive_next_epoch seal_payload seal initiate_ratchet answer_step1
    handle_step1 finish_step2 handle_step2 open_on_current open_on_previous open_in_epoch dispatch
    open_record toy_exchange check_shard_counts shard_length data_shard data_shards_from
    present_count common_length present_from joined restored_at rebuilt encode decode_present decode
    label_chunk_key_step1 label_chunk_key_step2 received_count read_chunk parse_chunk_header
    chunk_header truncated_checksum derive_chunk_key seal_chunk open_chunk chunk_records_from
    build_chunk_records new_accumulator same_shape check_payload file_chunk accumulate_chunk
    initiate_incremental_ratchet answer_step1_payload step1_gathered gather_step1_chunk
    open_step1_chunk finish_step2_taken finish_step2_payload step2_gathered gather_step2_chunk
    open_step2_chunk open_ratchet_chunk toy_code bytes_eq consumed
program = tt

abbrev ours : Draw
ours = record { secret = 1 ∷ 2 ∷ []; seed = 3 ∷ [] }

abbrev theirs : Draw
theirs = record { secret = 4 ∷ []; seed = 5 ∷ 6 ∷ [] }

abbrev shared_root : Bytes
shared_root = replicate 32 7

abbrev alice : RatchetedSession
alice = new_session toy toy_kdf toy_exchange shared_root true

abbrev bob : RatchetedSession
bob = new_session toy toy_kdf toy_exchange shared_root false

abbrev value : {A S : Type 0} → A → Result Error A × S → A
value d (ok a, s) = a
value d (_, s) = d

abbrev reply_of : Result Error Opened × RatchetedSession → Bytes
reply_of (ok (ratchet_advanced (some b)), s) = b
reply_of _ = []

abbrev begun : Result Error Bytes × RatchetedSession
begun = initiate_ratchet toy toy_kdf toy_exchange ours alice

abbrev answered : Result Error Opened × RatchetedSession
answered = open_record toy toy_kdf toy_exchange (value [] begun) theirs bob

abbrev done : Result Error Opened × RatchetedSession
done = open_record toy toy_kdf toy_exchange (reply_of answered) ours begun.1

-- A whole step: both sides end in epoch 1, and each receives on the chain that the other sends on.
step_run :
    (done.0 ≡ ok (ratchet_advanced none))
    × (done.1.send_epoch ≡ 1)
    × (answered.1.send_epoch ≡ 1)
    × (done.1.send_chain ≡ answered.1.recv_current.chain)
    × (answered.1.send_chain ≡ done.1.recv_current.chain)
    × (done.1.root_key ≡ answered.1.root_key)
unfolding program
step_run = (refl, refl, refl, refl, refl, refl)

abbrev alice_root : Bytes
alice_root = toy_kdf.hmac shared_root label_init_send

-- The second record of the sender, with the first one still on its way.
abbrev alice_later : RatchetedSession
alice_later = sent toy-IsAead toy_kdf toy_exchange alice_root alice

alice_later-Linked : Linked toy_kdf alice_root alice_later bob
unfolding new_session new_recv_chain chain_at
alice_later-Linked = record {
  epoch_fits = omega arith;
  seq_fits = omega arith;
  sending = refl;
  epochs = refl;
  receiving = record { at = refl; keys = tt; bounded = omega arith };
}

open_record-seal-in_reach_example :
    (rec : Bytes) × (c' : RecvChain) × (seal toy toy_kdf toy_exchange (9 ∷ []) alice_later
      ≡ (ok rec, sent toy-IsAead toy_kdf toy_exchange alice_root alice_later))
    × (open_record toy toy_kdf toy_exchange rec ours bob
        ≡ (ok (application (9 ∷ [])), record bob { recv_current = c' }))
    × After toy_kdf alice_root bob.recv_current 1 c'
unfolding new_session new_recv_chain
open_record-seal-in_reach_example =
    open_record-seal-in_reach toy-IsAead toy_kdf toy_exchange alice_root alice_later bob (9 ∷ [])
      (0 ∷ 9 ∷ replicate 16 0) ours alice_later-Linked refl refl refl

open_on-Outcome_example :
    Outcome toy_kdf alice_root toy bob.recv_current 5 []
      (replicate 20 1)
      (open_on toy toy_kdf 5 [] (replicate 20 1) bob.recv_current)
open_on-Outcome_example =
    open_on-Outcome toy_kdf alice_root toy bob.recv_current 5 [] (replicate 20 1)
      alice_later-Linked.receiving

abbrev attempts : List Attempt
attempts =
    record { seq = 2; aad = []; ciphertext = replicate 20 1 }
    ∷ record { seq = 0; aad = []; ciphertext = replicate 20 1 }
    ∷ record { seq = 2; aad = []; ciphertext = replicate 20 1 }
    ∷ record { seq = 0; aad = []; ciphertext = replicate 20 1 }
    ∷ []

attempts_run : opened_numbers toy toy_kdf attempts bob.recv_current ≡ 2 ∷ 0 ∷ []
unfolding program
attempts_run = refl

opened_numbers-Distinct_example :
    Distinct (opened_numbers toy toy_kdf attempts bob.recv_current)
    × ((n : ℕ)
        → available bob.recv_current n ≡ false
        → contains (opened_numbers toy toy_kdf attempts bob.recv_current) n ≡ false)
opened_numbers-Distinct_example =
    opened_numbers-Distinct toy_kdf alice_root toy attempts bob.recv_current
      alice_later-Linked.receiving

bob_sealed :
    Reachable toy toy_kdf toy_exchange toy_code shared_root false
      (seal toy toy_kdf toy_exchange (9 ∷ []) bob).1
unfolding program
bob_sealed = sealed bob (9 ∷ []) start tt

Reachable-Steady_example : Steady toy_kdf (seal toy toy_kdf toy_exchange (9 ∷ []) bob).1
Reachable-Steady_example =
    Reachable-Steady toy toy_kdf toy_exchange toy_code shared_root false
      (seal toy toy_kdf toy_exchange (9 ∷ []) bob).1 bob_sealed

abbrev fields : ChunkFields
fields = record {
  shard_index = 1;
  data_shards = 2;
  parity_shards = 1;
  original_len = 3;
  checksum = replicate 8 0;
  shard = 1 ∷ 2 ∷ [];
}

-- The attempt of `fields`, with its first shard.
abbrev first_filed : ChunkAccumulator
first_filed = record {
  attempt_nonce = replicate 32 5;
  data_shards = 2;
  parity_shards = 1;
  original_len = 3;
  checksum = replicate 8 0;
  shards = some (3 ∷ 4 ∷ []) ∷ none ∷ none ∷ [];
}

first_filed-Waiting : Waiting first_filed
unfolding received_count present_count
first_filed-Waiting = (refl, omega arith)

accumulate_chunk-Gathers_example :
    Gathers toy toy_kdf toy_code
      (replicate 32 5)
      fields
      (some first_filed)
      (accumulate_chunk toy toy_kdf toy_code (replicate 32 5) fields (some first_filed))
accumulate_chunk-Gathers_example =
    accumulate_chunk-Gathers toy toy_kdf toy_code (replicate 32 5) fields (some first_filed)
      (omega arith) (omega arith) first_filed-Waiting

abbrev chunks : Result Error (List Bytes) × RatchetedSession
chunks =
    initiate_incremental_ratchet toy toy_kdf toy_exchange toy_code 1 2 ours (replicate 32 8) alice

abbrev nth_chunk : ℕ → Bytes
nth_chunk n = get_or (value [] chunks) n []

abbrev chunk_answer : Result Error ChunkOutcome × RatchetedSession
chunk_answer =
    open_ratchet_chunk toy toy_kdf toy_exchange toy_code (nth_chunk 2) theirs (replicate 32 9) bob

abbrev replies_of : Result Error ChunkOutcome × RatchetedSession → List Bytes
replies_of (ok (step1_complete records), s) = records
replies_of _ = []

abbrev chunk_done : Result Error ChunkOutcome × RatchetedSession
chunk_done =
    open_ratchet_chunk toy toy_kdf toy_exchange toy_code (get_or (replies_of chunk_answer) 1 [])
      ours [] chunks.1

-- A whole incremental step with one parity chunk arriving in each direction.
incremental_run :
    (chunk_done.0 ≡ ok step2_complete)
    × (chunk_done.1.send_epoch ≡ 1)
    × (chunk_answer.1.send_epoch ≡ 1)
    × (chunk_done.1.send_chain ≡ chunk_answer.1.recv_current.chain)
    × (chunk_answer.1.send_chain ≡ chunk_done.1.recv_current.chain)
unfolding program
incremental_run = (refl, refl, refl, refl, refl)
