-- ===== src/Group/Encoding.antt =====
-- crates/core/src/group.rs: the parts of a commit are read back as they were written.
use mathlib.Core.List.{append-nil}
use novachannel.Common.{
  ℕ, ◌-◌, ◌%◌, ◌^◌, ◌≤◌, ◌<◌, ◌≡◌, refl, ap, sym, subst, true, false, some, List, [], ◌∷◌, ◌++◌,
  arith, length, length-append, All, ltb, ok, Bytes, ◌==◌, pure,
}
use novachannel.Errors.{Error, Call, malformed}
use novachannel.Crypto.{Primitives}
use novachannel.Kex.{
  option_or, x25519_public_from_bytes, ml_kem_public_from_bytes, ml_kem_ciphertext_from_bytes,
}
use novachannel.Identity.{verify, write_identity, write_signature}
use novachannel.Identity.Codec.{
  identity_bytes, signature_bytes, write_identity-Writes, write_signature-Writes, IsReadable,
  IsSignature, read_identity-Reads, read_signature-Reads,
}
use novachannel.Wire.{Writer, Reader, put_fixed, put_var, get_number, to_be_bytes, remaining}
use novachannel.Wire.Codec.{
  Writes, Reads, Writes-then, Reads-bind, Reads-end, Reads-lift, Reads-pure, put_fixed-Writes,
  put_var-Writes, get_fixed-Reads, get_var-Reads, get_number-Reads, prefixed,
}
use novachannel.Group.Keys.{
  NodePublicKey, LeafKeyPackage, leaf_key_package_pop_message, write_key, read_key, write_package,
  read_package,
}
use novachannel.Group.Sealing.{SealedToNode, write_sealed, read_sealed}
use novachannel.Group.Messages.{
  GroupOp, add, remove, update, put_u32, write_op, read_op, write_each, read_each, read_counted,
}

-- The bytes of a number in 32 bits.
abbrev pub u32_bytes : ℕ → Bytes
u32_bytes n = to_be_bytes 4 (n % 2 ^ 32)

pub u32-Reads : (n : ℕ) → n < 2 ^ 32 → Reads (get_number 4) (u32_bytes n) n
u32-Reads n small =
    let same : n % 2 ^ 32 ≡ n = omega arith in
    subst (λ k. Reads (get_number 4) (u32_bytes n) k) same
      (get_number-Reads 4 (n % 2 ^ 32) (omega arith))

abbrev pub key_bytes : NodePublicKey → Bytes
key_bytes k = k.dh_public ++ prefixed k.kem_public

pub write_key-Writes : (k : NodePublicKey) → Writes (write_key k) (key_bytes k)
unfolding write_key
write_key-Writes k =
    Writes-then _ _ k.dh_public (prefixed k.kem_public) (put_fixed-Writes k.dh_public)
      (put_var-Writes k.kem_public)

abbrev pub package_bytes : LeafKeyPackage → Bytes
package_bytes p = identity_bytes p.identity ++ (key_bytes p.public_key ++ signature_bytes p.pop)

pub write_package-Writes : (p : LeafKeyPackage) → Writes (write_package p) (package_bytes p)
unfolding write_package
write_package-Writes p =
    Writes-then (write_identity p.identity) (λ w. write_signature p.pop (write_key p.public_key w))
      _ _ (write_identity-Writes p.identity)
      (Writes-then (write_key p.public_key) (write_signature p.pop) _ _
        (write_key-Writes p.public_key) (write_signature-Writes p.pop))

abbrev pub sealed_bytes : SealedToNode → Bytes
sealed_bytes s = s.eph_dh_public ++ (prefixed s.kem_ct ++ prefixed s.ciphertext)

pub write_sealed-Writes : (s : SealedToNode) → Writes (write_sealed s) (sealed_bytes s)
unfolding write_sealed
write_sealed-Writes s =
    Writes-then (λ w. put_fixed w s.eph_dh_public) (λ w. put_var (put_var w s.kem_ct) s.ciphertext)
      _ _ (put_fixed-Writes s.eph_dh_public)
      (Writes-then (λ w. put_var w s.kem_ct) (λ w. put_var w s.ciphertext) _ _
        (put_var-Writes s.kem_ct) (put_var-Writes s.ciphertext))

abbrev pub op_bytes : GroupOp → Bytes
op_bytes (add i p) = (0 ∷ []) ++ (u32_bytes i ++ package_bytes p)
op_bytes (remove i) = (1 ∷ []) ++ u32_bytes i
op_bytes update = 2 ∷ []

pub write_op-Writes : (op : GroupOp) → Writes (write_op op) (op_bytes op)
unfolding write_op
write_op-Writes (add i p) =
    Writes-then (λ w. put_fixed w (0 ∷ [])) (λ w. write_package p (put_u32 w i)) _ _
      (put_fixed-Writes (0 ∷ []))
      (Writes-then (λ w. put_u32 w i) (write_package p) _ _ (put_fixed-Writes (u32_bytes i))
        (write_package-Writes p))
write_op-Writes (remove i) =
    Writes-then (λ w. put_fixed w (1 ∷ [])) (λ w. put_u32 w i) _ _ (put_fixed-Writes (1 ∷ []))
      (put_fixed-Writes (u32_bytes i))
write_op-Writes update = put_fixed-Writes (2 ∷ [])

abbrev pub each_bytes {ℓ} : {A : Type ℓ} → (A → Bytes) → List A → Bytes
each_bytes bytes [] = []
each_bytes bytes (a ∷ rest) = bytes a ++ each_bytes bytes rest

module _ {ℓ} {A : Type ℓ} (bytes : A → Bytes) where
  pub write_each-Writes :
      (write : A → Writer → Writer)
      → ((a : A) → Writes (write a) (bytes a))
      → (as_list : List A) → Writes (write_each write as_list) (each_bytes bytes as_list)
  unfolding write_each
  write_each-Writes write h [] = λ w. ap (λ t. record { written = t }) (sym (append-nil w.written))
  write_each-Writes write h (a ∷ rest) =
      Writes-then (write a) (write_each write rest) (bytes a) (each_bytes bytes rest) (h a)
        (write_each-Writes write h rest)

  pub read_each-Reads :
      (read : Call Reader A) (P : A → Type 0)
      → ((a : A) → P a → Reads read (bytes a) a)
      → (as_list : List A) → All P as_list
      → Reads (read_each read (length as_list)) (each_bytes bytes as_list) as_list
  unfolding read_each
  read_each-Reads read P h [] all = Reads-pure []
  read_each-Reads read P h (a ∷ rest) (p, all) =
      Reads-bind _ _ (bytes a) (each_bytes bytes rest) a (a ∷ rest) (h a p) (
        Reads-end _ _ (each_bytes bytes rest) rest (a ∷ rest) (read_each-Reads read P h rest all)
          (Reads-pure (a ∷ rest)))

  length-each_bytes :
      ((a : A) → 1 ≤ length (bytes a))
      → (as_list : List A) → length as_list ≤ length (each_bytes bytes as_list)
  length-each_bytes h [] = omega arith
  length-each_bytes h (a ∷ rest) =
      omega (arith, length-append (bytes a) (each_bytes bytes rest), h a, length-each_bytes h rest)

  -- A count is not refused if each element takes a byte.
  pub read_counted-Reads :
      (read : Call Reader A) (P : A → Type 0) (e : Error)
      → ((a : A) → P a → Reads read (bytes a) a)
      → ((a : A) → 1 ≤ length (bytes a))
      → (as_list : List A) → All P as_list
      → Reads (read_counted read (length as_list) e) (each_bytes bytes as_list) as_list
  unfolding read_counted remaining
  read_counted-Reads read P e h some_bytes as_list all r pre rest at p =
      let printed = each_bytes bytes as_list in
      let enough : ltb (length r.buf - r.pos) (length as_list) ≡ false = ground (
        arith,
        ap length at,
        length-append pre (printed ++ rest),
        length-append printed rest,
        p,
        length-each_bytes some_bytes as_list,
      ) in
      let inside : ltb (length r.buf) r.pos ≡ false =
        ground (arith, ap length at, length-append pre (printed ++ rest), p) in
      rw (inside, enough, read_counted) (read_each-Reads read P h as_list all r pre rest at p)

module _ (prim : Primitives) where
  -- The keys, ciphertexts and signatures below are such as their crates have read or made.
  pub record IsKey (k : NodePublicKey) : Type 0 where
    pub dh_length : length k.dh_public ≡ 32
    pub kem : prim.exchange.ml_kem_public k.kem_public ≡ some k.kem_public
    pub kem_fits : length k.kem_public < 2 ^ 64

  pub record IsPackage (p : LeafKeyPackage) : Type 0 where
    pub identity : IsReadable prim.signatures p.identity
    pub public_key : IsKey p.public_key
    pub pop : IsSignature prim.signatures p.pop
    pub signed :
        verify prim.signatures p.identity
          (leaf_key_package_pop_message p.identity p.public_key)
          p.pop
        ≡ ok tt

  pub record IsSealed (s : SealedToNode) : Type 0 where
    pub eph_length : length s.eph_dh_public ≡ 32
    pub kem : prim.exchange.ml_kem_ciphertext s.kem_ct ≡ some s.kem_ct
    pub kem_fits : length s.kem_ct < 2 ^ 64
    pub ciphertext_fits : length s.ciphertext < 2 ^ 64

  abbrev pub IsOp : GroupOp → Type 0
  IsOp (add i p) = (i < 2 ^ 32) × IsPackage p
  IsOp (remove i) = i < 2 ^ 32
  IsOp update = Unit

  x25519_public_from_bytes-ok : (b : Bytes) → length b ≡ 32 → x25519_public_from_bytes b ≡ ok b
  unfolding x25519_public_from_bytes
  x25519_public_from_bytes-ok b h =
      let fits : (length b == 32) ≡ true = ground arith in rw fits refl

  pub read_key-Reads : (k : NodePublicKey) → IsKey k → Reads (read_key prim) (key_bytes k) k
  unfolding read_key ml_kem_public_from_bytes
  read_key-Reads k h =
      Reads-bind _ _ k.dh_public (prefixed k.kem_public) k.dh_public k
        (get_fixed-Reads k.dh_public 32 h.dh_length)
        (Reads-bind _ _ [] (prefixed k.kem_public) k.dh_public k
          (Reads-lift _ k.dh_public (x25519_public_from_bytes-ok k.dh_public h.dh_length))
          (Reads-end _ _ (prefixed k.kem_public) k.kem_public k
            (get_var-Reads k.kem_public h.kem_fits)
            (Reads-end _ _ [] k.kem_public k
              (Reads-lift _ k.kem_public
                (ap (option_or (malformed "invalid ML-KEM public key")) h.kem))
              (Reads-pure k))))

  pub read_package-Reads :
      (p : LeafKeyPackage) → IsPackage p → Reads (read_package prim) (package_bytes p) p
  unfolding read_package
  read_package-Reads p h =
      Reads-bind _ _ (identity_bytes p.identity) (key_bytes p.public_key ++ signature_bytes p.pop)
        p.identity p (read_identity-Reads prim.signatures p.identity h.identity)
        (Reads-bind _ _ (key_bytes p.public_key) (signature_bytes p.pop) p.public_key p
          (read_key-Reads p.public_key h.public_key)
          (Reads-end _ _ (signature_bytes p.pop) p.pop p
            (read_signature-Reads prim.signatures p.pop h.pop)
            (Reads-end _ (λ _. pure p) [] tt p (Reads-lift _ tt h.signed) (Reads-pure p))))

  pub read_sealed-Reads :
      (s : SealedToNode) → IsSealed s → Reads (read_sealed prim) (sealed_bytes s) s
  unfolding read_sealed ml_kem_ciphertext_from_bytes
  read_sealed-Reads s h =
      Reads-bind _ _ s.eph_dh_public (prefixed s.kem_ct ++ prefixed s.ciphertext) s.eph_dh_public s
        (get_fixed-Reads s.eph_dh_public 32 h.eph_length)
        (Reads-bind _ _ [] (prefixed s.kem_ct ++ prefixed s.ciphertext) s.eph_dh_public s
          (Reads-lift _ s.eph_dh_public (x25519_public_from_bytes-ok s.eph_dh_public h.eph_length))
          (Reads-bind _ _ (prefixed s.kem_ct) (prefixed s.ciphertext) s.kem_ct s
            (get_var-Reads s.kem_ct h.kem_fits)
            (Reads-bind _ _ [] (prefixed s.ciphertext) s.kem_ct s
              (Reads-lift _ s.kem_ct (ap (option_or (malformed "invalid ML-KEM ciphertext")) h.kem))
              (Reads-end _ _ (prefixed s.ciphertext) s.ciphertext s
                (get_var-Reads s.ciphertext h.ciphertext_fits) (Reads-pure s)))))

  pub read_op-Reads : (op : GroupOp) → IsOp op → Reads (read_op prim) (op_bytes op) op
  unfolding read_op
  read_op-Reads (add i p) (small, h) =
      Reads-bind _ _ (0 ∷ []) (u32_bytes i ++ package_bytes p) (0 ∷ []) (add i p)
        (get_fixed-Reads (0 ∷ []) 1 refl)
        (Reads-bind _ _ (u32_bytes i) (package_bytes p) i (add i p) (u32-Reads i small) (
          Reads-end _ _ (package_bytes p) p (add i p) (read_package-Reads p h)
            (Reads-pure (add i p))))
  read_op-Reads (remove i) small =
      Reads-bind _ _ (1 ∷ []) (u32_bytes i) (1 ∷ []) (remove i) (get_fixed-Reads (1 ∷ []) 1 refl)
        (Reads-end _ _ (u32_bytes i) i (remove i) (u32-Reads i small) (Reads-pure (remove i)))
  read_op-Reads update h =
      Reads-end _ _ (2 ∷ []) (2 ∷ []) update (get_fixed-Reads (2 ∷ []) 1 refl) (Reads-pure update)
