-- ===== src/Ratchet/Agreement/Tests.antt =====
-- crates/core/src/ratchet.rs: the step at concrete sessions.
use novachannel.Common.{
  ◌≡◌, refl, arith, true, false, some, none, [], ◌∷◌, ◌++◌, ok, Bytes, replicate,
}
use novachannel.Crypto.Toy.{toy, toy-IsAead, toy_kdf, toy-IsKdf, toy_exchange, toy-IsExchange}
use novachannel.Kex.{Draw}
use novachannel.Ratchet.{RatchetedSession, label_init_send, label_init_recv}
use novachannel.Ratchet.Chain.Skipped.{chain_at}
use novachannel.Ratchet.Session.{
  new_session, new_recv_chain, initiate_ratchet, open_record, ratchet_advanced,
}
use novachannel.Ratchet.Agreement.{Synced}
use novachannel.Ratchet.Agreement.Step.{Renewed, open_record-initiate_ratchet}

abbrev ours : Draw
ours = record { secret = 1 ∷ []; seed = 2 ∷ [] }

abbrev theirs : Draw
theirs = record { secret = 3 ∷ []; seed = 4 ∷ [] }

abbrev shared_root : Bytes
shared_root = replicate 32 7

abbrev alice : RatchetedSession
alice = new_session toy toy_kdf toy_exchange shared_root true

abbrev bob : RatchetedSession
bob = new_session toy toy_kdf toy_exchange shared_root false

abbrev alice_root : Bytes
alice_root = toy_kdf.hmac shared_root label_init_send

abbrev bob_root : Bytes
bob_root = toy_kdf.hmac shared_root label_init_recv

alice-Synced : Synced toy_kdf alice_root bob_root alice bob
unfolding new_session new_recv_chain chain_at
alice-Synced = record {
  there = record {
    epoch_fits = omega arith;
    seq_fits = omega arith;
    sending = refl;
    epochs = refl;
    receiving = record { at = refl; keys = tt; bounded = omega arith };
  };
  back = record {
    epoch_fits = omega arith;
    seq_fits = omega arith;
    sending = refl;
    epochs = refl;
    receiving = record { at = refl; keys = tt; bounded = omega arith };
  };
  same_root = refl;
  same_epoch = refl;
  room = omega arith;
  a_idle = refl;
  b_idle = refl;
  a_new = refl;
  a_near = refl;
  b_new = refl;
  b_near = refl;
}

contributes :
    toy_exchange.was_contributory
      (toy_exchange.diffie_hellman theirs.secret (toy_exchange.x25519_public ours.secret))
    ≡ true
unfolding toy_exchange
contributes = refl

open_record-initiate_ratchet_example :
    (first reply : Bytes) × (a1 a2 b1 : RatchetedSession) × (initiate_ratchet toy toy_kdf
        toy_exchange ours alice
      ≡ (ok first, a1))
    × (open_record toy toy_kdf toy_exchange first theirs bob
        ≡ (ok (ratchet_advanced (some reply)), b1))
    × (open_record toy toy_kdf toy_exchange reply ours a1 ≡ (ok (ratchet_advanced none), a2))
    × Renewed toy-IsAead toy-IsKdf toy-IsExchange alice a2 b1
open_record-initiate_ratchet_example =
    open_record-initiate_ratchet toy-IsAead toy-IsKdf toy-IsExchange alice_root bob_root alice bob
      ours theirs ours alice-Synced contributes (λ key nonce aad msg. (msg ++ replicate 16 0, refl))
