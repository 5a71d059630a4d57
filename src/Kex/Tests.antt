-- ===== src/Kex/Tests.antt =====
-- crates/core/src/kex.rs: an exchange at concrete seeds.
use novachannel.Common.{◌≡◌, ◌⊎◌, [], ◌∷◌, ok, err, Bytes}
use novachannel.Crypto.Toy.{toy_exchange, toy-IsExchange}
use novachannel.Kex.{Draw, ResponderKex, generate, finish, responder_exchange}
use novachannel.Kex.Agreement.{low_order, finish-responder_exchange}

abbrev ours : Draw
ours = record { secret = 1 ∷ 2 ∷ []; seed = 3 ∷ [] }

abbrev theirs : Draw
theirs = record { secret = 4 ∷ []; seed = 5 ∷ 6 ∷ [] }

finish-responder_exchange_example :
    ((responder_exchange toy_exchange theirs
          (generate toy_exchange ours).x25519_public
          (generate toy_exchange ours).ml_kem_public
        ≡ err low_order)
      × ((ciphertext : Bytes)
          → finish toy_exchange
              (generate toy_exchange ours)
              (toy_exchange.x25519_public theirs.secret)
              ciphertext
            ≡ err low_order))
    ⊎ ((r : ResponderKex) × (responder_exchange toy_exchange theirs
            (generate toy_exchange ours).x25519_public
            (generate toy_exchange ours).ml_kem_public
          ≡ ok r)
        × (finish toy_exchange (generate toy_exchange ours) r.x25519_public r.ml_kem_ciphertext
            ≡ ok r.shared_secret))
finish-responder_exchange_example = finish-responder_exchange toy-IsExchange ours theirs
