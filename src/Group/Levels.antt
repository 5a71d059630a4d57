-- ===== src/Group/Levels.antt =====
-- crates/core/src/group.rs: the levels of a path update, as they are made.
use novachannel.Common.{
  ℕ, ◌<◌, ◌≡◌, refl, ap, sym, ◌∙◌, subst, true, false, Option, none, some, List, [], ◌∷◌, arith,
  ◌==◌, ==_iff, length, contains, All, Bool-cases, inl, inr, ◌⊎◌, ok, err, panic, Bytes, get_or,
  get_elem?-get_or,
}
use novachannel.Common.Fallible.{then_else-eq-ok, Result-cases, expect}
use novachannel.Errors.{Error}
use novachannel.Crypto.{Primitives, IsPrimitives}
use novachannel.Kex.{Draw}
use novachannel.Group.Index.{sibling}
use novachannel.Group.Keys.{NodePublicKey, TreeNode, blank, leaf, parent}
use novachannel.Group.Sealing.{
  SealedToNode, NodeKeypair, keypair_public, derive_node_keypair, hkdf_expand32, label_path_step,
  seal_to_node, open_from_node,
}
use novachannel.Group.Resolution.{resolution, node_public_key, key_of}
use novachannel.Group.State.{is_blank}
use novachannel.Group.Commits.{Level, path_secret_aad_context, seal_each, path_levels, first_opened}
use novachannel.Group.Cover.{IsFilled}
use novachannel.Group.Seals.{
  IsAuthentic, IsKeypair, Contributes, SealsAll, seal_to_node-ok, open_from_node-seal_to_node,
  open_from_node-only,
}

key_of-some : (n : TreeNode) → is_blank n ≡ false → (k : NodePublicKey) × (key_of n ≡ some k)
unfolding key_of is_blank
key_of-some blank h = absurd (cc)
key_of-some (leaf p) h = (p.public_key, refl)
key_of-some (parent k) h = (k, refl)

-- A filled node has a key.
pub node_public_key-some :
    (nodes : List TreeNode) (t : ℕ)
    → t < length nodes
    → IsFilled nodes t
    → (k : NodePublicKey) × (node_public_key nodes t ≡ some k)
      × (key_of (get_or nodes t blank) ≡ some k)
unfolding node_public_key
node_public_key-some nodes t inside filled =
    let (k, e) = key_of-some (get_or nodes t blank) filled in
    (k, ap node_key (get_elem?-get_or nodes t blank inside) ∙ e, e)
  where
    node_key : Option TreeNode → Option NodePublicKey
    node_key o = elim o [ none ↦ none | some n ↦ key_of n ]

expect-eq-ok {ℓ} : {A : Type ℓ} (o : Option A) {a : A} → expect {E = Error} o ≡ ok a → o ≡ some a
expect-eq-ok none h = absurd (cc)
expect-eq-ok (some b) h = cc

module _ (prim : Primitives) (dh kem secret : Bytes) (ct : SealedToNode)
    (cts : List SealedToNode) where
  first_opened_head :
      open_from_node prim dh kem path_secret_aad_context ct ≡ ok secret
      → first_opened prim dh kem (ct ∷ cts) ≡ some secret
  unfolding first_opened
  first_opened_head e = rw (e, first_opened) refl

  first_opened_next :
      ((m : Bytes) → open_from_node prim dh kem path_secret_aad_context ct ≡ ok m → m ≡ secret)
      → first_opened prim dh kem cts ≡ some secret
      → first_opened prim dh kem (ct ∷ cts) ≡ some secret
  unfolding first_opened
  first_opened_next only h =
      elim (Result-cases (open_from_node prim dh kem path_secret_aad_context ct)) [
        | inl (m, e) ↦ first_opened_head (e ∙ ap ok (only m e))
        | inr (inl (e, f)) ↦ skip (inl (e, f)) h
        | inr (inr f) ↦ skip (inr f) h
      ]
    where
      skip :
          ((e : Error) × (open_from_node prim dh kem path_secret_aad_context ct ≡ err e))
            ⊎ (open_from_node prim dh kem path_secret_aad_context ct ≡ panic)
          → first_opened prim dh kem cts ≡ some secret
          → first_opened prim dh kem (ct ∷ cts) ≡ some secret
      skip (inl (e, f)) h = rw (f, first_opened) h
      skip (inr f) h = rw (f, first_opened) h

module _ {prim : Primitives} (law : IsPrimitives prim) (draws : ℕ → Draw) (nodes : List TreeNode)
    (secret : Bytes) where
  -- The targets have keys, and the exchange with each contributes.
  abbrev pub Sealable : List ℕ → Type 0
  Sealable =
      All (λ t.
        (k : NodePublicKey) × (node_public_key nodes t ≡ some k) × Contributes prim (draws t) k)

  pub seal_each-ok :
      SealsAll prim
      → (targets : List ℕ) → Sealable targets
      → (cts : List SealedToNode) × (seal_each prim draws nodes secret targets ≡ ok cts)
  unfolding seal_each
  seal_each-ok seals [] h = ([], refl)
  seal_each-ok seals (t ∷ targets) ((k, at, contributes), h) =
      let (sealed, e) =
        seal_to_node-ok prim law seals (draws t) k path_secret_aad_context secret contributes in
      let (rest, f) = seal_each-ok seals targets h in (sealed ∷ rest, rw (at, e, f) refl)

  -- Whoever holds the secrets of a target opens the level's secret: what opens first is that secret.
  pub first_opened-seal_each :
      IsAuthentic prim.aead
      → (dh kem : Bytes) (k : NodePublicKey) (t : ℕ) → IsKeypair prim dh kem k
      → node_public_key nodes t ≡ some k
      → (targets : List ℕ) (cts : List SealedToNode) → contains targets t ≡ true
      → seal_each prim draws nodes secret targets ≡ ok cts
      → first_opened prim dh kem cts ≡ some secret
  unfolding seal_each
  first_opened-seal_each auth dh kem k t own at [] cts h done = absurd (cc)
  first_opened-seal_each auth dh kem k t own at (u ∷ targets) cts h done =
      let (j, key, done1) = then_else-eq-ok (expect (node_public_key nodes u)) _ done in
      let (sealed, first, done2) =
        then_else-eq-ok (seal_to_node prim (draws u) j path_secret_aad_context secret) _ done1 in
      let (rest, others, made) =
        then_else-eq-ok (seal_each prim draws nodes secret targets) _ done2 in
      let whole : sealed ∷ rest ≡ cts = cc made in
      subst (λ l. first_opened prim dh kem l ≡ some secret) whole
        (go u j sealed rest (expect-eq-ok (node_public_key nodes u) key) first
          (λ later. first_opened-seal_each auth dh kem k t own at targets rest later others) h)
    where
      go :
          (u : ℕ) (j : NodePublicKey) (sealed : SealedToNode) (rest : List SealedToNode)
          → node_public_key nodes u ≡ some j
          → seal_to_node prim (draws u) j path_secret_aad_context secret ≡ ok sealed
          → (contains targets t ≡ true → first_opened prim dh kem rest ≡ some secret)
          → contains (u ∷ targets) t ≡ true
          → first_opened prim dh kem (sealed ∷ rest) ≡ some secret
      go u j sealed rest key first later h = elim (Bool-cases (t == u)) [
        | inl here ↦
            let same : j ≡ k = cc (key, at, ap (node_public_key nodes) ((==_iff t u).0 here)) in
            first_opened_head prim dh kem secret sealed rest (
              open_from_node-seal_to_node prim law (draws u) dh kem k path_secret_aad_context secret
                sealed own
                (ap (λ l. seal_to_node prim (draws u) l path_secret_aad_context secret) (sym same)
                  ∙ first))
        | inr there ↦
            first_opened_next prim dh kem secret sealed rest
              (λ m.
                open_from_node-only prim law auth (draws u) dh kem j path_secret_aad_context secret
                  m sealed first)
              (later (ground arith))
      ]

module _ (prim : Primitives) (draws : ℕ → ℕ → Draw) (nodes : List TreeNode) (capacity : ℕ) where
  -- One level made: its key pair, the nodes that it is sealed to, and the levels above.
  pub record Made (prev d : ℕ) (secret : Bytes) (path : List ℕ) (l : Level) (levels : List Level)
      : Type 0 where
    pub keypair : NodeKeypair
    pub derived : derive_node_keypair prim secret ≡ ok keypair
    pub target : ℕ
    pub is_target : sibling prev ≡ some target
    pub targets : List ℕ
    pub are_targets : resolution nodes capacity target ≡ some targets
    pub sealed : seal_each prim (draws d) nodes secret targets ≡ ok l.node.ciphertexts
    pub public_key : l.node.public_key ≡ keypair_public keypair
    pub is_secret : l.secret ≡ (d, secret)
    pub next : Bytes
    pub stepped : hkdf_expand32 prim secret label_path_step ≡ ok next
    pub above : path_levels prim draws nodes capacity d next path ≡ ok levels

  pub path_levels-Made :
      (prev d : ℕ) (secret : Bytes) (path : List ℕ) (all : List Level)
      → path_levels prim draws nodes capacity prev secret (d ∷ path) ≡ ok all
      → (l : Level) × (levels : List Level) × (all ≡ l ∷ levels) × Made prev d secret path l levels
  unfolding path_levels
  path_levels-Made prev d secret path all h =
      let (keypair, derived, h1) = then_else-eq-ok (derive_node_keypair prim secret) _ h in
      let (target, t, h2) = then_else-eq-ok (expect (sibling prev)) _ h1 in
      let (targets, ts, h3) = then_else-eq-ok (expect (resolution nodes capacity target)) _ h2 in
      let (ciphertexts, sealed, h4) =
        then_else-eq-ok (seal_each prim (draws d) nodes secret targets) _ h3 in
      let (next, stepped, h5) = then_else-eq-ok (hkdf_expand32 prim secret label_path_step) _ h4 in
      let (levels, above, made) =
        then_else-eq-ok (path_levels prim draws nodes capacity d next path) _ h5 in
      let l : Level = record {
        node = record { public_key = keypair_public keypair; ciphertexts = ciphertexts };
        secret = (d, secret);
      } in
      (
        l,
        levels,
        cc made,
        record {
          keypair = keypair;
          derived = derived;
          target = target;
          is_target = expect-eq-ok (sibling prev) t;
          targets = targets;
          are_targets = expect-eq-ok (resolution nodes capacity target) ts;
          sealed = sealed;
          public_key = refl;
          is_secret = refl;
          next = next;
          stepped = stepped;
          above = above;
        },
      )
