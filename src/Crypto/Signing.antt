-- ===== src/Crypto/Signing.antt =====
-- Signatures that meet the laws of `Crypto`, and all toy primitives together. A signature is the padded
-- public key followed by the message, cut to its length.
use novachannel.Common.{
  ℕ, ◌≡◌, refl, ap, sym, ◌∙◌, true, Option, some, none, ◌++◌, arith, length, ◌==◌, if◌then◌else◌,
  Bytes, bytes_eq, bytes_eq_iff, Bool-cases, inl, inr,
}
use novachannel.Crypto.{
  SignatureScheme, IsSignatureScheme, Signatures, IsSignatures, Primitives, IsPrimitives,
}
use novachannel.Crypto.Toy.{
  pad, length-pad, toy, toy-IsAead, toy_kdf, toy-IsKdf, toy_exchange, toy-IsExchange,
}

-- A reader that checks the length.
abbrev of_length : ℕ → Bytes → Option Bytes
of_length n b = if length b == n then some b else none

of_length-some : (n : ℕ) (b : Bytes) → length b ≡ n → of_length n b ≡ some b
of_length-some n b h = let fits : (length b == n) ≡ true = ground arith in rw fits refl

of_length-inv :
    (n : ℕ) (b k : Bytes) → of_length n b ≡ some k → (of_length n k ≡ some k) × (length k ≡ n)
of_length-inv n b k h = elim (Bool-cases (length b == n)) [
  | inl fits ↦
      let read : of_length n b ≡ some b = rw fits refl in
      let same : b ≡ k = cc in
      let size : length k ≡ n = ap length (sym same) ∙ ground arith in
      (of_length-some n k size, size)
  | inr bad ↦ let read : of_length n b ≡ none = rw bad refl in absurd (cc)
]

abbrev toy_scheme : ℕ → ℕ → SignatureScheme
toy_scheme k n = record {
  public = pad k;
  sign = λ secret message. pad n (pad k secret ++ message);
  verify = λ public message signature. bytes_eq (pad n (public ++ message)) signature;
  read_key = of_length k;
  read_signature = of_length n;
}

toy_scheme-IsSignatureScheme : (k n : ℕ) → IsSignatureScheme (toy_scheme k n) k n
toy_scheme-IsSignatureScheme k n = record {
  verifies = λ secret message. (bytes_eq_iff _ _).1 refl;
  reads_public = λ secret. of_length-some k (pad k secret) (length-pad k secret);
  public_length = length-pad k;
  reads_signed = λ secret message. of_length-some n _ (length-pad n (pad k secret ++ message));
  signed_length = λ secret message. length-pad n (pad k secret ++ message);
  reads_key = of_length-inv k;
  reads_signature = of_length-inv n;
}

abbrev pub toy_signatures : Signatures
toy_signatures = record { ed25519 = toy_scheme 32 64; ml_dsa = toy_scheme 2592 4627 }

pub toy-IsSignatures : IsSignatures toy_signatures
toy-IsSignatures = record {
  ed25519 = toy_scheme-IsSignatureScheme 32 64;
  ml_dsa = toy_scheme-IsSignatureScheme 2592 4627;
}

abbrev pub toy_primitives : Primitives
toy_primitives = record {
  aead = toy;
  kdf = toy_kdf;
  exchange = toy_exchange;
  signatures = toy_signatures;
}

pub toy-IsPrimitives : IsPrimitives toy_primitives
toy-IsPrimitives = record {
  aead = toy-IsAead;
  kdf = toy-IsKdf;
  exchange = toy-IsExchange;
  signatures = toy-IsSignatures;
}
