-- ===== src/Group/Follow.antt =====
-- crates/core/src/group.rs: a member that holds the keys above it opens a path update that was made for
-- its tree.
use novachannel.Common.{
  ℕ, ◌≤◌, ◌≡◌, ◌≢◌, refl, ap, sym, ◌∙◌, subst, true, false, none, some, List, [], ◌∷◌, arith, ◌==◌,
  ==_iff, length, contains, drop, take, All, Bool-cases, inl, inr, ok, Bytes, Option-cases, ◌⊎◌,
}
use novachannel.Common.Fallible.{then_else-eq-ok}
use novachannel.Crypto.{Primitives, IsPrimitives}
use novachannel.Kex.{Draw}
use novachannel.Group.Keys.{NodePublicKey, TreeNode}
use novachannel.Group.Sealing.{
  SealedToNode, NodeKeypair, keypair_public, hkdf, no_salt, label_node_keygen, derive_node_keypair,
}
use novachannel.Group.Resolution.{node_public_key}
use novachannel.Group.State.{Group}
use novachannel.Group.Commits.{seal_each, first_opened, opened_secret, open_as, open_as_any}
use novachannel.Group.Paths.{is_above, is_above_self}
use novachannel.Group.Cover.{IsFilled, hits}
use novachannel.Group.Invariant.{IsGroup, my_node}
use novachannel.Group.Seals.{IsAuthentic, IsKeypair}
use novachannel.Group.Levels.{first_opened-seal_each}

derive_node_keypair-IsKeypair :
    (prim : Primitives) (secret : Bytes) (k : NodeKeypair)
    → derive_node_keypair prim secret ≡ ok k
    → IsKeypair prim k.dh_secret k.kem_secret (keypair_public k)
unfolding derive_node_keypair
derive_node_keypair-IsKeypair prim secret k h =
    let (bytes, e, made) =
      then_else-eq-ok (hkdf prim.kdf no_salt secret label_node_keygen 96) _ h in
    let pair = prim.exchange.ml_kem_keypair (drop 32 bytes) in
    let made_k : k ≡ record {
      dh_secret = take 32 bytes;
      dh_public = prim.exchange.x25519_public (take 32 bytes);
      kem_secret = pair.0;
      kem_public = pair.1;
    } =
      cc made in
    record {
      dh =
          ap (λ q. q.dh_public) made_k
          ∙ sym (ap (λ q. prim.exchange.x25519_public q.dh_secret) made_k);
      seed = drop 32 bytes;
      kem_secret = ap (λ q. q.kem_secret) made_k;
      kem_public = ap (λ q. q.kem_public) made_k;
    }

-- The member has the secrets of its leaf, and of each filled node above it.
pub record HoldsKeys (prim : Primitives) (g : Group) (nodes : List TreeNode) : Type 0 where
  pub leaf_secrets : Bytes × Bytes
  pub has_leaf : g.my_leaf_keys ≡ some leaf_secrets
  pub leaf_key : NodePublicKey
  pub at_leaf : node_public_key nodes (my_node g) ≡ some leaf_key
  pub is_leaf_key : IsKeypair prim leaf_secrets.0 leaf_secrets.1 leaf_key
  pub filled_leaf : IsFilled nodes (my_node g)
  pub above :
      (t : ℕ)
      → t ≢ my_node g
      → is_above t (my_node g) ≡ true
      → IsFilled nodes t
      → (secret : Bytes) × (k : NodeKeypair) × (g.known_secrets t ≡ some secret)
        × (derive_node_keypair prim secret ≡ ok k)
        × (node_public_key nodes t ≡ some (keypair_public k))

apart : (t x : ℕ) → is_above t x ≡ false → (t == x) ≡ false
apart t x aside = elim (Bool-cases (t == x)) [
  | inr other ↦ other
  | inl same ↦
      absurd (cc (aside, subst (λ y. is_above t y ≡ true) ((==_iff t x).0 same) (is_above_self t)))
]

module _ {prim : Primitives} (law : IsPrimitives prim) (auth : IsAuthentic prim.aead) {g : Group}
    (v : IsGroup g) {nodes : List TreeNode} (holds : HoldsKeys prim g nodes) where
  opened_secret-some :
      (dh kem secret : Bytes) (cts : List SealedToNode)
      → length secret ≡ 32
      → first_opened prim dh kem cts ≡ some secret
      → opened_secret prim dh kem cts ≡ ok (some secret)
  unfolding opened_secret
  opened_secret-some dh kem secret cts size h =
      let fits : (length secret == 32) ≡ true = ground arith in rw (h, opened_secret, fits) refl

  module _ (draws : ℕ → Draw) (secret : Bytes) (targets : List ℕ) (cts : List SealedToNode)
      (size : length secret ≡ 32)
      (sealed : seal_each prim draws nodes secret targets ≡ ok cts) where
    open_as_above :
        (t : ℕ)
        → is_above t (my_node g) ≡ true
        → IsFilled nodes t
        → contains targets t ≡ true
        → open_as prim g t cts ≡ ok (some secret)
    unfolding open_as
    open_as_above t up filled target = elim (Bool-cases (t == my_node g)) [
      | inl mine ↦
          let (dh, kem) = holds.leaf_secrets in
          rw (mine, holds.has_leaf)
            (opened_secret-some dh kem secret cts size (
              first_opened-seal_each law draws nodes secret auth dh kem holds.leaf_key t
                holds.is_leaf_key
                (ap (node_public_key nodes) ((==_iff t (my_node g)).0 mine) ∙ holds.at_leaf) targets
                cts target sealed))
      | inr other ↦
          let (known, k, has, derived, at) = holds.above t (λ e. absurd (ground arith)) up filled in
          rw (other, has, derived)
            (opened_secret-some k.dh_secret k.kem_secret secret cts size (
              first_opened-seal_each law draws nodes secret auth k.dh_secret k.kem_secret
                (keypair_public k) t (derive_node_keypair-IsKeypair prim known k derived) at targets
                cts target sealed))
    ]

    open_as_aside : (t : ℕ) → is_above t (my_node g) ≡ false → open_as prim g t cts ≡ ok none
    unfolding open_as
    open_as_aside t aside =
        let other = apart t (my_node g) aside in
        elim (Option-cases (g.known_secrets t)) [
          | inl unknown ↦ rw (other, unknown) refl
          | inr (known, has) ↦ absurd (cc (v.known_above t known has, aside))
        ]

    -- Of targets that none is above the member nothing opens; of others, the secret of the level does.
    pub open_as_any-hits :
        (us : List ℕ)
        → All (IsFilled nodes) us
        → ((t : ℕ) → contains us t ≡ true → contains targets t ≡ true)
        → ((hits us (my_node g) ≡ 0) × (open_as_any prim g cts us ≡ ok none))
          ⊎ ((1 ≤ hits us (my_node g)) × (open_as_any prim g cts us ≡ ok (some secret)))
    unfolding open_as_any
    open_as_any-hits [] f sub = inl (refl, refl)
    open_as_any-hits (u ∷ us) (f, fs) sub = elim (Bool-cases (is_above u (my_node g))) [
      | inl up ↦
          let here : contains (u ∷ us) u ≡ true = ground arith in
          inr (rw up (omega arith), rw (open_as_above u up f (sub u here)) refl)
      | inr aside ↦
          let skip = open_as_aside u aside in
          elim (open_as_any-hits us fs (λ t h. sub t (ground arith))) [
            | inl (no_hits, e) ↦ inl (rw aside (omega arith), rw skip e)
            | inr (some_hits, e) ↦ inr (rw aside (omega arith), rw skip e)
          ]
    ]
