-- ===== src/Transport.antt =====
-- crates/core/src/transport.rs: sealed records with explicit sequence numbers, and the sliding
-- window that refuses replays. The cipher is a parameter; `Vec` capacities are not modelled.
pub mod Nonce
pub mod Window
pub mod Replay
pub mod Records
mod Tests
use novachannel.Common.{
  ℕ, zero, suc, ◌+◌, ◌-◌, ◌*◌, ◌%◌, ◌^◌, Bool, not, ◌||◌, Option, none, some, [], ◌∷◌, ◌++◌, Result,
  ok, err, panic, and_then, if◌then◌else◌, ltb, ◌==◌, length, take, drop, Bytes,
}
use novachannel.Common.Bits.{bit_and, bit_or, bit_xor}
use novachannel.Errors.{Error, malformed, too_large, sequence_exhausted, decrypt, replay, Call}
use novachannel.Crypto.{Aead}
use novachannel.Wire.{to_be_bytes, from_be_bytes}

abbrev pub max_plaintext_len : ℕ
max_plaintext_len = 16 * 1024

abbrev pub tag_len : ℕ
tag_len = 16

abbrev pub seq_len : ℕ
seq_len = 8

abbrev pub replay_window : ℕ
replay_window = 64

pub record DirectionalKey : Type 0 where
  pub cipher : Bytes
  pub base_iv : Bytes

-- `for i in 0..8 { nonce[offset + i] ^= bytes[i] }`.
pub xor_from : ℕ → Bytes → Bytes → Bytes
xor_from k [] bytes = []
xor_from (suc k) (n ∷ nonce) bytes = n ∷ xor_from k nonce bytes
xor_from zero (n ∷ nonce) [] = n ∷ nonce
xor_from zero (n ∷ nonce) (b ∷ bytes) = bit_xor n b ∷ xor_from zero nonce bytes

unfoldable pub nonce_for : DirectionalKey → ℕ → Bytes
unfolding xor_from
nonce_for key seq = xor_from 4 key.base_iv (to_be_bytes 8 seq)

pub record Sender : Type 0 where
  pub key : DirectionalKey
  pub next_seq : ℕ

unfoldable pub new_sender : DirectionalKey → Sender
new_sender key = record { key = key; next_seq = 0 }

pub record Receiver : Type 0 where
  pub key : DirectionalKey
  pub highest_seq : Option ℕ
  pub window : ℕ

unfoldable pub new_receiver : DirectionalKey → Receiver
new_receiver key = record { key = key; highest_seq = none; window = 0 }

check_below : ℕ → ℕ → ℕ → Result Error (Unit {0})
check_below window highest seq =
    if ltb highest seq
    then ok tt
    else if seq == highest
    then err replay
    else let age = highest - seq in
      if ltb replay_window age || not (bit_and window (2 ^ (age - 1)) == 0)
      then err replay
      else ok tt

unfoldable pub check_replay : Receiver → ℕ → Result Error (Unit {0})
unfolding check_below
check_replay r seq = elim r.highest_seq [
  | none ↦ ok tt
  | some highest ↦ check_below r.window highest seq
]

-- The window once `highest + shift` is the highest sequence number.
shifted : ℕ → ℕ → ℕ
shifted window shift =
    if ltb replay_window shift
    then 0
    else if shift == replay_window
    then 2 ^ (replay_window - 1)
    else bit_or (window * 2 ^ shift % 2 ^ 64) (2 ^ (shift - 1))

-- Below the highest number the shift `1 << (age - 1)` overflows unless the age is 1 to 64.
record_below : ℕ → ℕ → Call Receiver (Unit {0})
unfolding shifted
record_below highest seq r =
    if ltb highest seq
    then (ok tt, record r { window = shifted r.window (seq - highest); highest_seq = some seq })
    else let age = highest - seq in
      if age == 0 || ltb 64 age
      then (panic, r)
      else (ok tt, record r { window = bit_or r.window (2 ^ (age - 1)) })

unfoldable pub record_seen : ℕ → Call Receiver (Unit {0})
unfolding record_below
record_seen seq r = elim r.highest_seq [
  | none ↦ (ok tt, record r { highest_seq = some seq; window = 0 })
  | some highest ↦ record_below highest seq r
]

module _ (aead : Aead) where
  seal_at : Bytes → ℕ → Call Sender Bytes
  seal_at plaintext seq s =
      let seq_bytes = to_be_bytes 8 seq in
      elim (aead.encrypt s.key.cipher (nonce_for s.key seq) seq_bytes plaintext) [
        | none ↦ (err decrypt, s)
        | some ciphertext ↦ (ok (seq_bytes ++ ciphertext), s)
      ]

  unfoldable pub seal : Bytes → Call Sender Bytes
  unfolding seal_at
  seal plaintext s =
      if ltb max_plaintext_len (length plaintext)
      then (err too_large, s)
      else if s.next_seq + 1 == 2 ^ 64
      then (err sequence_exhausted, s)
      else seal_at plaintext s.next_seq (record s { next_seq = s.next_seq + 1 })

  decrypt_record : Bytes → ℕ → Call Receiver Bytes
  decrypt_record rec seq r =
      elim (aead.decrypt r.key.cipher (nonce_for r.key seq) (take seq_len rec) (drop seq_len rec)) [
        | none ↦ (err decrypt, r)
        | some plaintext ↦ and_then (record_seen seq r) (λ _ s. (ok plaintext, s))
      ]

  open_at : Bytes → ℕ → Call Receiver Bytes
  unfolding decrypt_record
  open_at rec seq r = and_then (check_replay r seq, r) (λ _. decrypt_record rec seq)

  unfoldable pub open_record : Bytes → Call Receiver Bytes
  unfolding open_at
  open_record rec r =
      if ltb (length rec) (seq_len + tag_len)
      then (err (malformed "record shorter than header + tag"), r)
      else if ltb (seq_len + tag_len + max_plaintext_len) (length rec)
      then (err too_large, r)
      else open_at rec (from_be_bytes (take seq_len rec)) r
