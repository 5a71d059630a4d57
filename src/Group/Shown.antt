-- ===== src/Group/Shown.antt =====
-- crates/core/src/group.rs: the keys of a commit's path are those of the secrets that a receiver derives.
use novachannel.Common.{
  ℕ, zero, suc, drop, Bool, ◌<◌, ◌≡◌, refl, ap, ap₂, sym, subst, true, false, not, List, [], ◌∷◌,
  arith, length, ok, err, Bytes, bytes_eq_iff, if◌then◌else◌, Bool-cases, inl, inr, Result,
}
use novachannel.Common.Fallible.{then_else, ensure, then_else-eq-ok}
use novachannel.Errors.{Error, bad_signature}
use novachannel.Crypto.{Primitives}
use novachannel.Identity.{PublicIdentity, HybridSignature, verify}
use novachannel.Group.Keys.{NodePublicKey, key_eq}
use novachannel.Group.Sealing.{
  NodeKeypair, keypair_public, derive_node_keypair, hkdf_expand32, label_path_step,
}
use novachannel.Group.Messages.{UpdatePathNode}
use novachannel.Group.Commits.{PathSecrets, next_secret, check_path}

key_eq-NodePublicKey : (k l : NodePublicKey) → key_eq k l ≡ true → k ≡ l
unfolding key_eq
key_eq-NodePublicKey k l h =
    let dh : k.dh_public ≡ l.dh_public = (bytes_eq_iff k.dh_public l.dh_public).0 (ground arith) in
    let kem : k.kem_public ≡ l.kem_public =
      (bytes_eq_iff k.kem_public l.kem_public).0 (ground arith) in
    ap₂ (λ d e. record { dh_public = d; kem_public = e }) dh kem

if-eq-ok :
    {A : Type 0} (b : Bool) (e : Error) {r : Result Error A} {a : A}
    → (if b then err e else r) ≡ ok a
    → (b ≡ false) × (r ≡ ok a)
if-eq-ok true e h = absurd (cc)
if-eq-ok false e h = (refl, h)

module _ (prim : Primitives) where
  -- The nodes of a path, from the level whose secret is given, carry the public keys that are derived
  -- from the secret of each level, each next secret being one step of the key derivation from the last.
  pub data Shown : Bytes → List ℕ → List UpdatePathNode → PathSecrets → Type 0 where
    at_root :
        (secret : Bytes) (d : ℕ) (n : UpdatePathNode) (k : NodeKeypair)
        → derive_node_keypair prim secret ≡ ok k
        → n.public_key ≡ keypair_public k
        → Shown secret (d ∷ []) (n ∷ []) ((d, secret) ∷ [])
    below_root :
        (secret next : Bytes) (d e : ℕ) (path : List ℕ) (n : UpdatePathNode)
        (nodes : List UpdatePathNode) (known : PathSecrets) (k : NodeKeypair)
        → derive_node_keypair prim secret ≡ ok k
        → n.public_key ≡ keypair_public k
        → hkdf_expand32 prim secret label_path_step ≡ ok next
        → Shown next (e ∷ path) nodes known
        → Shown secret (d ∷ e ∷ path) (n ∷ nodes) ((d, secret) ∷ known)

  check_path-Shown :
      (secret : Bytes) (d : ℕ) (path : List ℕ) (nodes : List UpdatePathNode) (known : PathSecrets)
      → length (d ∷ path) ≡ length nodes
      → check_path prim secret (d ∷ path) nodes ≡ ok known
      → Shown secret (d ∷ path) nodes known
  unfolding check_path next_secret
  check_path-Shown secret d path [] known same h = absurd (omega arith)
  check_path-Shown secret d [] (n ∷ []) known same h =
      let (k, derived, h1) = then_else-eq-ok (derive_node_keypair prim secret) _ h in
      let (equal, h2) = if-eq-ok (not (key_eq (keypair_public k) n.public_key)) _ h1 in
      let keys = key_eq-NodePublicKey (keypair_public k) n.public_key (ground arith) in
      let made : (d, secret) ∷ [] ≡ known = cc h2 in
      subst (Shown secret (d ∷ []) (n ∷ [])) made (at_root secret d n k derived (sym keys))
  check_path-Shown secret d [] (n ∷ x ∷ nodes) known same h = absurd (omega arith)
  check_path-Shown secret d (e ∷ path) (n ∷ nodes) known same h =
      let (k, derived, h1) = then_else-eq-ok (derive_node_keypair prim secret) _ h in
      let (equal, h2) = if-eq-ok (not (key_eq (keypair_public k) n.public_key)) _ h1 in
      let keys = key_eq-NodePublicKey (keypair_public k) n.public_key (ground arith) in
      let (next, stepped, h3) = then_else-eq-ok (hkdf_expand32 prim secret label_path_step) _ h2 in
      let (rest, later, h4) = then_else-eq-ok (check_path prim next (e ∷ path) nodes) _ h3 in
      let made : (d, secret) ∷ rest ≡ known = cc h4 in
      subst (Shown secret (d ∷ e ∷ path) (n ∷ nodes)) made (
        below_root secret next d e path n nodes rest k derived (sym keys) stepped
          (check_path-Shown next e path nodes rest (omega arith) later))

  -- The same for a path from a level within it.
  pub suffix-Shown :
      {secret : Bytes} (level : ℕ) (path : List ℕ) (nodes : List UpdatePathNode)
      {known : PathSecrets}
      → level < length path
      → length path ≡ length nodes
      → check_path prim secret (drop level path) (drop level nodes) ≡ ok known
      → Shown secret (drop level path) (drop level nodes) known
  suffix-Shown zero [] nodes h same k = absurd (omega arith)
  suffix-Shown {secret} zero (d ∷ path) nodes {known} h same k =
      check_path-Shown secret d path nodes known same k
  suffix-Shown (suc level) [] nodes h same k = absurd (omega arith)
  suffix-Shown (suc level) (d ∷ path) [] h same k = absurd (omega arith)
  suffix-Shown (suc level) (d ∷ path) (n ∷ nodes) h same k =
      suffix-Shown level path nodes (omega arith) (omega arith) k

  -- Both signatures of a hybrid one are good.
  pub record Signed (i : PublicIdentity) (message : Bytes) (g : HybridSignature) : Type 0 where
    pub classical : prim.signatures.ed25519.verify i.ed25519 message g.ed25519 ≡ true
    pub post_quantum : prim.signatures.ml_dsa.verify i.ml_dsa message g.ml_dsa ≡ true

  pub verify-Signed :
      (i : PublicIdentity) (message : Bytes) (g : HybridSignature)
      → verify prim.signatures i message g ≡ ok tt
      → Signed i message g
  unfolding verify
  verify-Signed i message g h =
      elim (Bool-cases (prim.signatures.ed25519.verify i.ed25519 message g.ed25519)) [
        | inr bad ↦ absurd (
            cc (
              ap
                  (λ b. then_else (ensure b bad_signature) (λ _.
                    ensure (prim.signatures.ml_dsa.verify i.ml_dsa message g.ml_dsa) bad_signature))
                  bad,
              h,
            ))
        | inl good ↦ elim (Bool-cases (prim.signatures.ml_dsa.verify i.ml_dsa message g.ml_dsa)) [
          | inl good' ↦ record { classical = good; post_quantum = good' }
          | inr bad' ↦ absurd (
              cc (
                ap₂ (λ a b. then_else (ensure a bad_signature) (λ _. ensure b bad_signature)) good
                    bad',
                h,
              ))
        ]
      ]
