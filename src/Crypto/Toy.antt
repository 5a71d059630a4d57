-- ===== src/Crypto/Toy.antt =====
-- Primitives that meet the laws of `Crypto`, to run the models on. The cipher is the text in clear under
-- a tag of sixteen zeros; keys are padded seeds, and a secret is a sum.
use novachannel.Common.{
  List, ℕ, zero, suc, ◌+◌, refl, ap₂, true, [], ◌∷◌, length-take, ◌-◌, ◌≡◌, ap, sym, ◌∙◌, arith,
  Option, some, ◌++◌, length, take, replicate, Bytes, length-append, take-append_length,
}
use novachannel.Crypto.{ErasureCode, Aead, IsAead, Kdf, IsKdf, Exchange, IsExchange}

abbrev tag : Bytes
tag = replicate 16 0

abbrev pub toy : Aead
toy = record {
  encrypt = λ key nonce aad msg. some (msg ++ tag);
  decrypt = λ key nonce aad c. some (take (length c - 16) c);
}

unwrap : Option Bytes → Bytes
unwrap (some b) = b
unwrap _ = tag

of_some : (a b : Bytes) → some a ≡ some b → a ≡ b
unfolding unwrap
of_some a b e = ap unwrap e

strip : (msg : Bytes) → take (length (msg ++ tag) - 16) (msg ++ tag) ≡ msg
strip msg =
    ap (λ n. take n (msg ++ tag)) (omega (arith, length-append msg tag))
    ∙ take-append_length msg tag

pub toy-IsAead : IsAead toy
toy-IsAead = record {
  opens = λ key nonce aad msg c e.
      ap (λ c. some (take (length c - 16) c)) (sym (of_some (msg ++ tag) c e))
      ∙ ap some (strip msg);
  grows =
      λ key nonce aad msg c e. ap length (sym (of_some (msg ++ tag) c e)) ∙ length-append msg tag;
}

length-replicate : (n b : ℕ) → length (replicate n b) ≡ n
length-replicate zero b = refl
length-replicate (suc n) b = ap suc (length-replicate n b)

abbrev pub pad : ℕ → Bytes → Bytes
pad n a = take n (a ++ replicate n 0)

pub length-pad : (n : ℕ) (a : Bytes) → length (pad n a) ≡ n
length-pad n a = omega (
  arith,
  length-take n (a ++ replicate n 0),
  length-append a (replicate n 0),
  length-replicate n 0,
)

sums : Bytes → Bytes → Bytes
sums [] b = []
sums (x ∷ a) [] = []
sums (x ∷ a) (y ∷ b) = (x + y) ∷ sums a b

sums_comm : (a b : Bytes) → sums a b ≡ sums b a
unfolding sums
sums_comm [] [] = refl
sums_comm [] (y ∷ b) = refl
sums_comm (x ∷ a) [] = refl
sums_comm (x ∷ a) (y ∷ b) = ap₂ ◌∷◌ (omega arith) (sums_comm a b)

abbrev pub toy_kdf : Kdf
toy_kdf = record {
  hmac = λ key label. pad 32 (label ++ key);
  sha256 = pad 32;
  extract = λ salt ikm. pad 32 (salt ++ ikm);
  from_prk = some;
  expand = λ hk info len. some (pad len (info ++ hk));
}

pub toy-IsKdf : IsKdf toy_kdf
toy-IsKdf = record {
  accepts = λ salt ikm. (pad 32 (salt ++ ikm), refl);
  expands = λ hk info len h. (pad len (info ++ hk), refl, length-pad len (info ++ hk));
}

unfoldable pub toy_exchange : Exchange
unfolding sums
toy_exchange = record {
  x25519_public = pad 32;
  diffie_hellman = λ secret public. sums (pad 32 secret) public;
  was_contributory = λ shared. true;
  ml_kem_keypair = λ seed. (pad 64 seed, pad 1568 seed);
  encapsulate = λ public seed. (pad 1568 seed, take 32 (pad 1568 seed));
  decapsulate = λ secret ciphertext. take 32 ciphertext;
  ml_kem_public = some;
  ml_kem_ciphertext = some;
}

pub toy-IsExchange : IsExchange toy_exchange
unfolding toy_exchange
toy-IsExchange = record {
  commutes = λ a b. sums_comm (pad 32 a) (pad 32 b);
  x25519_length = length-pad 32;
  decapsulates = λ s t. refl;
  reads_public = λ s. refl;
  reads_ciphertext = λ p t. refl;
  public_length = length-pad 1568;
  ciphertext_length = λ p. length-pad 1568;
}

-- A code with one data shard, whose parity shards are copies of it.
unfoldable pub first_of : List Bytes → Bytes
first_of [] = []
first_of (b ∷ bs) = b

unfoldable pub first_shard : List (ℕ × Bytes) → List (ℕ × Bytes) → Bytes
first_shard [] [] = []
first_shard [] ((i, b) ∷ r) = b
first_shard ((i, b) ∷ o) r = b

unfoldable pub toy_code : ErasureCode
unfolding first_of first_shard
toy_code = record {
  parity =
      λ data_shards parity_shards originals. some (replicate parity_shards (first_of originals));
  restore =
      λ data_shards parity_shards original recovery. some ((0, first_shard original recovery) ∷ []);
}
