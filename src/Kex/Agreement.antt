-- ===== src/Kex/Agreement.antt =====
-- crates/core/src/kex.rs: both sides of an exchange.
use novachannel.Common.{◌≡◌, refl, true, Bool-cases, ◌⊎◌, inl, inr, ◌++◌, ok, err, Bytes}
use novachannel.Errors.{Error, malformed}
use novachannel.Crypto.{Exchange, IsExchange}
use novachannel.Kex.{Draw, ResponderKex, generate, finish, responder_exchange, checked_dh}

abbrev pub low_order : Error
low_order =
    malformed "peer's X25519 public key has small order: the exchange contributed no entropy"

module _ {x : Exchange} (law : IsExchange x) where
  abbrev pub answer : Draw → Draw → ResponderKex
  answer a b =
      let dh = x.diffie_hellman b.secret (x.x25519_public a.secret) in
      let sealed = x.encapsulate (x.ml_kem_keypair a.seed).1 b.seed in
      record {
        x25519_public = x.x25519_public b.secret;
        ml_kem_ciphertext = sealed.0;
        shared_secret = dh ++ sealed.1;
      }

  pub exchanged :
      (a b : Draw)
      → x.was_contributory (x.diffie_hellman b.secret (x.x25519_public a.secret)) ≡ true
      → (responder_exchange x b (generate x a).x25519_public (generate x a).ml_kem_public
          ≡ ok (answer a b))
        × (finish x (generate x a) (answer a b).x25519_public (answer a b).ml_kem_ciphertext
            ≡ ok (answer a b).shared_secret)
  unfolding generate finish responder_exchange checked_dh
  exchanged a b fine =
      (rw fine refl, rw (law.commutes a.secret b.secret, fine, law.decapsulates a.seed b.seed) refl)

  -- For the keys that the initiator generated: either the X25519 secret has no contribution, and the
  -- responder refuses them, and the initiator would refuse the responder's key; or the responder answers,
  -- and the initiator finishes with the same shared secret.
  pub finish-responder_exchange :
      (a b : Draw)
      → ((responder_exchange x b (generate x a).x25519_public (generate x a).ml_kem_public
            ≡ err low_order)
          × ((ciphertext : Bytes)
              → finish x (generate x a) (x.x25519_public b.secret) ciphertext ≡ err low_order))
        ⊎ ((r : ResponderKex) × (responder_exchange x b
                (generate x a).x25519_public
                (generate x a).ml_kem_public
              ≡ ok r)
            × (finish x (generate x a) r.x25519_public r.ml_kem_ciphertext ≡ ok r.shared_secret))
  unfolding generate finish checked_dh responder_exchange
  finish-responder_exchange a b =
      elim (Bool-cases
        (x.was_contributory (x.diffie_hellman b.secret (x.x25519_public a.secret)))) [
          | inr low ↦ inl (rw low refl, λ ciphertext. rw (law.commutes a.secret b.secret, low) refl)
          | inl fine ↦
              let (answered, finished) = exchanged a b fine in inr (answer a b, answered, finished)
        ]
