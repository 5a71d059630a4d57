-- ===== src/Ratchet.antt =====
-- crates/core/src/ratchet.rs: the ratchet session, its keys and its records. Random draws are
-- arguments; `usize` is 64 bits wide; wiping dropped keys is not modelled.
pub mod Receive
pub mod Chain
pub mod Session
pub mod Epochs
pub mod Delivery
pub mod Agreement
pub mod Chunks
pub mod Incremental
pub mod Gather
mod Tests
use novachannel.Common.{
  ℕ, Option, none, some, List, [], ◌∷◌, ◌++◌, Result, ok, err, panic, take, replicate, ascii, Bytes,
}
use novachannel.Errors.{Error, malformed, decrypt}
use novachannel.Crypto.{Aead, Kdf}
use novachannel.Kex.{InitiatorKex, option_or, then_else}
use novachannel.Wire.{to_be_bytes}

abbrev pub max_skipped_keys : ℕ
max_skipped_keys = 1000

abbrev pub msg_application : ℕ
msg_application = 0

abbrev pub msg_ratchet_step1 : ℕ
msg_ratchet_step1 = 1

abbrev pub msg_ratchet_step2 : ℕ
msg_ratchet_step2 = 2

abbrev pub msg_ratchet_step1_chunk : ℕ
msg_ratchet_step1_chunk = 3

abbrev pub msg_ratchet_step2_chunk : ℕ
msg_ratchet_step2_chunk = 4

abbrev pub label_message_key : Bytes
label_message_key = 1 ∷ []

abbrev pub label_next_chain : Bytes
label_next_chain = 2 ∷ []

unfoldable pub label_init_send : Bytes
unfolding ascii
label_init_send = ascii "novachannel ratchet v1 epoch0 initiator->responder"

unfoldable pub label_init_recv : Bytes
unfolding ascii
label_init_recv = ascii "novachannel ratchet v1 epoch0 responder->initiator"

unfoldable pub label_step_root : Bytes
unfolding ascii
label_step_root = ascii "novachannel ratchet v1 step root"

unfoldable pub label_step_i2r : Bytes
unfolding ascii
label_step_i2r = ascii "novachannel ratchet v1 step initiator->responder"

unfoldable pub label_step_r2i : Bytes
unfolding ascii
label_step_r2i = ascii "novachannel ratchet v1 step responder->initiator"

-- The skipped keys are a map, kept as an association list.
pub record RecvChain : Type 0 where
  pub epoch : ℕ
  pub chain : Bytes
  pub expected_seq : ℕ
  pub skipped : List (ℕ × Bytes)

pub record ChunkAccumulator : Type 0 where
  pub attempt_nonce : Bytes
  pub data_shards : ℕ
  pub parity_shards : ℕ
  pub original_len : ℕ
  pub checksum : Bytes
  pub shards : List (Option Bytes)

pub record RatchetedSession : Type 0 where
  pub root_key : Bytes
  pub send_epoch : ℕ
  pub send_chain : Bytes
  pub send_seq : ℕ
  pub recv_current : RecvChain
  pub recv_previous : Option RecvChain
  pub pending : Option InitiatorKex
  pub pending_epoch : ℕ
  pub incoming_step1_chunks : Option ChunkAccumulator
  pub incoming_step2_chunks : Option ChunkAccumulator
  pub last_completed_step1_attempt : Option Bytes
  pub last_completed_step2_attempt : Option Bytes

-- The two keys of `ChainKey::advance`: of the next link, and of one message.
pub record Advanced : Type 0 where
  pub next_chain : Bytes
  pub message_key : Bytes

module _ (kdf : Kdf) where
  abbrev pub hmac32 : Bytes → Bytes → Bytes
  hmac32 key label = kdf.hmac key label

  abbrev pub advance : Bytes → Advanced
  advance chain = record {
    next_chain = hmac32 chain label_next_chain;
    message_key = hmac32 chain label_message_key;
  }

module _ (aead : Aead) where
  unfoldable pub seal_with_message_key : (message_key aad plaintext : Bytes) → Result Error Bytes
  seal_with_message_key message_key aad plaintext =
      option_or decrypt (aead.encrypt message_key (replicate 12 0) aad plaintext)

  unfoldable pub open_with_message_key : (message_key aad rec : Bytes) → Result Error Bytes
  open_with_message_key message_key aad rec =
      option_or decrypt (aead.decrypt message_key (replicate 12 0) aad rec)

unfoldable pub header_bytes : ℕ → ℕ → Bytes
header_bytes epoch seq = to_be_bytes 4 epoch ++ to_be_bytes 8 seq
