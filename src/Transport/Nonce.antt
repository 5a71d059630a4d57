-- ===== src/Transport/Nonce.antt =====
-- crates/core/src/transport.rs: `DirectionalKey::nonce_for` gives each sequence number its own nonce.
use novachannel.Common.{
  ℕ, zero, suc, ◌+◌, ◌^◌, ◌<◌, ◌≤◌, ◌≡◌, refl, ap, ap₂, sym, ◌∙◌, arith, [], ◌∷◌, length, get_or,
  drop, Bytes,
}
use novachannel.Common.Bits.{bit_xor_cancel}
use novachannel.Wire.{to_be_bytes, from_be_bytes, length-to_be_bytes, from_be_bytes-to_be_bytes}
use novachannel.Transport.{DirectionalKey, xor_from, nonce_for}

xor_from-injective :
    (k : ℕ) (nonce xs ys : Bytes)
    → length xs ≡ length ys
    → k + length xs ≤ length nonce
    → xor_from k nonce xs ≡ xor_from k nonce ys
    → xs ≡ ys
unfolding xor_from
xor_from-injective k nonce [] [] e fits h = refl
xor_from-injective k nonce [] (y ∷ ys) e fits h = absurd (omega arith)
xor_from-injective k nonce (x ∷ xs) [] e fits h = absurd (omega arith)
xor_from-injective k [] (x ∷ xs) (y ∷ ys) e fits h = absurd (omega arith)
xor_from-injective zero (n ∷ nonce) (x ∷ xs) (y ∷ ys) e fits h =
    ap₂ ◌∷◌ (bit_xor_cancel n x y (ap (λ l. get_or l 0 0) h))
      (xor_from-injective zero nonce xs ys (omega arith) (omega arith) (ap (drop 1) h))
xor_from-injective (suc k) (n ∷ nonce) (x ∷ xs) (y ∷ ys) e fits h =
    xor_from-injective k nonce (x ∷ xs) (y ∷ ys) e (omega arith) (ap (drop 1) h)

-- Under one key with a 12-byte base, two 64-bit sequence numbers have the same nonce only if they are
-- the same number.
pub nonce_for-injective :
    (key : DirectionalKey) (a b : ℕ)
    → length key.base_iv ≡ 12
    → a < 2 ^ 64
    → b < 2 ^ 64
    → nonce_for key a ≡ nonce_for key b
    → a ≡ b
unfolding nonce_for
nonce_for-injective key a b width ha hb h =
    sym (from_be_bytes-to_be_bytes 8 a ha)
    ∙ ap from_be_bytes same
    ∙ from_be_bytes-to_be_bytes 8 b hb
  where
    same : to_be_bytes 8 a ≡ to_be_bytes 8 b
    same =
        xor_from-injective 4 key.base_iv (to_be_bytes 8 a) (to_be_bytes 8 b)
          (length-to_be_bytes 8 a ∙ sym (length-to_be_bytes 8 b))
          (omega (arith, length-to_be_bytes 8 a)) h
