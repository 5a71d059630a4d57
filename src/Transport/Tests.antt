-- ===== src/Transport/Tests.antt =====
-- crates/core/src/transport.rs: runs, and the theorems at concrete records.
use novachannel.Common.{
  Distinct, ℕ, ◌≡◌, refl, arith, some, [], ◌∷◌, ◌++◌, ok, err, replicate, Bytes,
}
use novachannel.Errors.{replay}
use novachannel.Crypto.Toy.{toy, toy-IsAead}
use novachannel.Wire.{to_be_bytes, from_be_bytes}
use novachannel.Transport.{
  DirectionalKey, Sender, Receiver, new_sender, new_receiver, nonce_for, check_replay, record_seen,
  seal, open_record,
}
use novachannel.Transport.Nonce.{nonce_for-injective}
use novachannel.Transport.Window.{
  newest, accepts, check_replay-accepts, new_receiver-Tracks, TracksAt,
}
use novachannel.Transport.Replay.{
  opens, Serves, Agrees, open_record-opens, opened_seqs, opened_seqs-Distinct,
}
use novachannel.Transport.Records.{
  Seals, seal-Seals, open_record-seal, sealed_nonces, AllDistinct, sealed_nonces-AllDistinct, spent,
}

program : Unit {0}
unfolding new_sender new_receiver nonce_for check_replay record_seen seal open_record to_be_bytes
    from_be_bytes newest accepts TracksAt
program = tt

abbrev iv : Bytes
iv = replicate 12 3

abbrev key : DirectionalKey
key = record { cipher = 1 ∷ []; base_iv = iv }

abbrev wire : ℕ → Bytes
wire n = to_be_bytes 8 n ++ 5 ∷ replicate 16 0

abbrev receiver : Receiver
receiver = record { key = key; highest_seq = some 7; window = 4 }

-- 7 and 4 were opened: bit 2 stands for 7 - 3.
window_run :
    (check_replay receiver 7 ≡ err replay)
    × (check_replay receiver 4 ≡ err replay)
    × (check_replay receiver 5 ≡ ok tt)
    × (check_replay receiver 80 ≡ ok tt)
unfolding program
window_run = (refl, refl, refl, refl)

receiver_after : (record_seen 9 receiver).1.window ≡ 18
unfolding program
receiver_after = refl

receiver-Serves : Serves key (new_receiver key) []
receiver-Serves = record {
  same_key = unfold new_receiver in refl;
  tracks = new_receiver-Tracks key;
}

nonce_for-injective_example : ◌≡◌ {A = ℕ} 5 5
nonce_for-injective_example = nonce_for-injective key 5 5 refl (omega arith) (omega arith) refl

check_replay-accepts_example : check_replay (new_receiver key) 3 ≡ ok tt
unfolding program
check_replay-accepts_example =
    check_replay-accepts (new_receiver key) 3 [] (new_receiver-Tracks key)

open_record-opens_example :
    Agrees key (open_record toy (wire 3) (new_receiver key)) (opens toy key (wire 3) [])
open_record-opens_example = open_record-opens toy key (wire 3) (new_receiver key) [] receiver-Serves

opened_seqs-Distinct_example :
    Distinct (opened_seqs toy (wire 3 ∷ wire 3 ∷ wire 1 ∷ []) (new_receiver key))
opened_seqs-Distinct_example = opened_seqs-Distinct toy key (wire 3 ∷ wire 3 ∷ wire 1 ∷ [])

abbrev sender : Sender
sender = record { key = key; next_seq = 3 }

seal-Seals_example : Seals toy sender (5 ∷ []) (seal toy (5 ∷ []) sender)
seal-Seals_example = seal-Seals toy sender (5 ∷ []) (omega arith)

open_record-seal_example :
    Agrees key (open_record toy (wire 3) (new_receiver key)) (ok (5 ∷ []), 3 ∷ [])
unfolding program
open_record-seal_example =
    open_record-seal toy toy-IsAead sender (spent sender) (5 ∷ []) (wire 3) (new_receiver key) []
      (omega arith) refl receiver-Serves refl

sealed_nonces-AllDistinct_example :
    AllDistinct (sealed_nonces toy ((1 ∷ []) ∷ (2 ∷ []) ∷ []) sender)
sealed_nonces-AllDistinct_example =
    sealed_nonces-AllDistinct toy ((1 ∷ []) ∷ (2 ∷ []) ∷ []) sender (omega arith) refl
