-- ===== src/Crypto.antt =====
-- The cryptographic and coding primitives of third-party crates, as parameters of the models that call
-- them. A key, a ciphertext or a shared secret is the byte string that the crate reads and writes for
-- it; what a crate draws at random is an argument.
pub mod Toy
pub mod Signing
use novachannel.Common.{
  ℕ, ◌+◌, ◌*◌, ◌%◌, ◌^◌, ◌<◌, ◌≤◌, ◌≡◌, Bool, true, Option, none, some, List, ◌++◌, length, take,
  drop, All, Bytes,
}

-- `chacha20poly1305`: authenticated encryption under a 32-byte key and a 12-byte nonce.
pub record Aead : Type 0 where
  pub encrypt : (key nonce aad msg : Bytes) → Option Bytes
  pub decrypt : (key nonce aad ciphertext : Bytes) → Option Bytes

-- What the crate documents: a ciphertext opens under what it was sealed with, and is 16 bytes longer.
pub record IsAead (a : Aead) : Type 0 where
  pub opens :
      (key nonce aad msg c : Bytes)
      → a.encrypt key nonce aad msg ≡ some c
      → a.decrypt key nonce aad c ≡ some msg
  pub grows :
      (key nonce aad msg c : Bytes)
      → a.encrypt key nonce aad msg ≡ some c
      → length c ≡ length msg + 16

-- `hmac`, `hkdf` and `sha2`, all with SHA-256.
pub record Kdf : Type 0 where
  pub hmac : (key label : Bytes) → Bytes
  pub sha256 : Bytes → Bytes
  pub extract : (salt ikm : Bytes) → Bytes
  pub from_prk : Bytes → Option Bytes
  pub expand : (hk info : Bytes) (len : ℕ) → Option Bytes

-- The crates document the lengths: an extracted key is long enough for `from_prk`, and `expand` gives up
-- to 255 blocks.
pub record IsKdf (k : Kdf) : Type 0 where
  pub accepts : (salt ikm : Bytes) → (hk : Bytes) × (k.from_prk (k.extract salt ikm) ≡ some hk)
  pub expands :
      (hk info : Bytes) (len : ℕ)
      → len ≤ 255 * 32
      → (okm : Bytes) × (k.expand hk info len ≡ some okm) × (length okm ≡ len)

-- `x25519-dalek` and `ml-kem`.
pub record Exchange : Type 0 where
  pub x25519_public : (secret : Bytes) → Bytes
  pub diffie_hellman : (secret public : Bytes) → Bytes
  pub was_contributory : Bytes → Bool
  pub ml_kem_keypair : (seed : Bytes) → Bytes × Bytes
  pub encapsulate : (public seed : Bytes) → Bytes × Bytes
  pub decapsulate : (secret ciphertext : Bytes) → Bytes
  pub ml_kem_public : Bytes → Option Bytes
  pub ml_kem_ciphertext : Bytes → Option Bytes

pub record IsExchange (x : Exchange) : Type 0 where
  pub commutes :
      (a b : Bytes)
      → x.diffie_hellman a (x.x25519_public b) ≡ x.diffie_hellman b (x.x25519_public a)
  pub x25519_length : (a : Bytes) → length (x.x25519_public a) ≡ 32
  pub decapsulates :
      (s t : Bytes)
      → x.decapsulate (x.ml_kem_keypair s).0 (x.encapsulate (x.ml_kem_keypair s).1 t).0
        ≡ (x.encapsulate (x.ml_kem_keypair s).1 t).1
  pub reads_public :
      (s : Bytes) → x.ml_kem_public (x.ml_kem_keypair s).1 ≡ some (x.ml_kem_keypair s).1
  pub reads_ciphertext :
      (p t : Bytes) → x.ml_kem_ciphertext (x.encapsulate p t).0 ≡ some (x.encapsulate p t).0
  pub public_length : (s : Bytes) → length (x.ml_kem_keypair s).1 ≡ 1568
  pub ciphertext_length : (p t : Bytes) → length (x.encapsulate p t).0 ≡ 1568

-- `reed_solomon_simd`: shards with their indices, and the restored originals among them.
pub record ErasureCode : Type 0 where
  pub parity : (data_shards parity_shards : ℕ) → List Bytes → Option (List Bytes)
  pub restore :
      (data_shards parity_shards : ℕ) (original recovery : List (ℕ × Bytes))
      → Option (List (ℕ × Bytes))

-- A signature scheme: `ed25519-dalek` (with `verify_strict`) or `ml-dsa`. The readers are the crate's
-- own parsers of keys and signatures.
pub record SignatureScheme : Type 0 where
  pub public : (secret : Bytes) → Bytes
  pub sign : (secret message : Bytes) → Bytes
  pub verify : (public message signature : Bytes) → Bool
  pub read_key : Bytes → Option Bytes
  pub read_signature : Bytes → Option Bytes

-- A signature verifies under the key of its secret; keys and signatures have fixed lengths, and what was
-- read or made is read again.
pub record IsSignatureScheme (s : SignatureScheme) (key_length signature_length : ℕ) : Type 0 where
  pub verifies :
      (secret message : Bytes) → s.verify (s.public secret) message (s.sign secret message) ≡ true
  pub reads_public : (secret : Bytes) → s.read_key (s.public secret) ≡ some (s.public secret)
  pub public_length : (secret : Bytes) → length (s.public secret) ≡ key_length
  pub reads_signed :
      (secret message : Bytes)
      → s.read_signature (s.sign secret message) ≡ some (s.sign secret message)
  pub signed_length : (secret message : Bytes) → length (s.sign secret message) ≡ signature_length
  pub reads_key :
      (b k : Bytes) → s.read_key b ≡ some k → (s.read_key k ≡ some k) × (length k ≡ key_length)
  pub reads_signature :
      (b g : Bytes)
      → s.read_signature b ≡ some g
      → (s.read_signature g ≡ some g) × (length g ≡ signature_length)

pub record Signatures : Type 0 where
  pub ed25519 : SignatureScheme
  pub ml_dsa : SignatureScheme

pub record IsSignatures (s : Signatures) : Type 0 where
  pub ed25519 : IsSignatureScheme s.ed25519 32 64
  pub ml_dsa : IsSignatureScheme s.ml_dsa 2592 4627

-- All of them, for the parts that use most.
pub record Primitives : Type 0 where
  pub aead : Aead
  pub kdf : Kdf
  pub exchange : Exchange
  pub signatures : Signatures

pub record IsPrimitives (p : Primitives) : Type 0 where
  pub aead : IsAead p.aead
  pub kdf : IsKdf p.kdf
  pub exchange : IsExchange p.exchange
  pub signatures : IsSignatures p.signatures
