-- ===== src/Group/Installed.antt =====
-- crates/core/src/group.rs: the keys of a path update on the tree, and the secrets that go with them.
use novachannel.Common.{
  ℕ, zero, suc, ◌-◌, ◌*◌, ◌/◌, ◌≤◌, ◌<◌, ◌≡◌, refl, ap, sym, ◌∙◌, subst, true, false, Option, some,
  List, [], ◌∷◌, arith, ◌==◌, ==_iff, length, length-set, contains, drop, take, All, Bool-cases,
  inl, inr, ok, Bytes, get_or, set, get_or-set_self, get_or-set_other, ◌⊎◌,
}
use novachannel.Crypto.{Primitives}
use novachannel.Kex.{Draw}
use novachannel.Group.Index.{ancestors}
use novachannel.Group.Keys.{TreeNode, blank, parent}
use novachannel.Group.Sealing.{NodeKeypair, keypair_public, derive_node_keypair}
use novachannel.Group.Messages.{UpdatePathNode}
use novachannel.Group.Resolution.{node_public_key, key_of}
use novachannel.Group.State.{insert, install}
use novachannel.Group.Commits.{PathSecrets, Level, nodes_of, secrets_of, keep_secrets, path_levels}
use novachannel.Group.Paths.{ancestors-suc, ancestors-zero}
use novachannel.Group.Learning.{keys_of}
use novachannel.Group.Levels.{path_levels-Made}

-- The nodes of a path are no leaves.
pub ancestors-inner :
    (capacity fuel n : ℕ) → n < 2 * capacity - 1 → All (λ d. d < capacity - 1) (ancestors fuel n)
unfolding ancestors
ancestors-inner capacity fuel zero h = rw (ancestors-zero fuel) tt
ancestors-inner capacity zero (suc y) h = tt
ancestors-inner capacity (suc fuel) (suc y) h =
    rw (ancestors-suc fuel y) (omega arith, ancestors-inner capacity fuel (y / 2) (omega arith))

pub All-below : {m n : ℕ} (ts : List ℕ) → m ≤ n → All (λ d. d < m) ts → All (λ d. d < n) ts
All-below [] h k = tt
All-below (t ∷ ts) h (k, ks) = (omega arith, All-below ts h ks)

pub contains-All :
    (P : ℕ → Type 0) (ts : List ℕ) (t : ℕ) → All P ts → (P t → ⊥) → contains ts t ≡ false
contains-All P [] t h away = refl
contains-All P (u ∷ ts) t (h, hs) away = elim (Bool-cases (t == u)) [
  | inl here ↦ absurd (away (subst P (sym ((==_iff t u).0 here)) h))
  | inr there ↦ let later = contains-All P ts t hs away in ground arith
]

-- A path update leaves other nodes as they were, and other secrets.
pub install-other :
    (path : List ℕ) (path_nodes : List UpdatePathNode) (nodes : List TreeNode) (t : ℕ)
    → contains path t ≡ false
    → get_or (install path path_nodes nodes) t blank ≡ get_or nodes t blank
unfolding install
install-other [] path_nodes nodes t h = refl
install-other (d ∷ path) [] nodes t h = refl
install-other (d ∷ path) (n ∷ path_nodes) nodes t h =
    install-other path path_nodes (set nodes d (parent n.public_key)) t (ground arith)
    ∙ get_or-set_other nodes d t (parent n.public_key) blank (λ e. absurd (ground arith))

pub keep_secrets-other :
    (known : PathSecrets) (m : ℕ → Option Bytes) (t : ℕ)
    → contains (keys_of known) t ≡ false
    → keep_secrets known m t ≡ m t
unfolding keep_secrets insert
keep_secrets-other [] m t h = refl
keep_secrets-other ((n, secret) ∷ known) m t h =
    let other : (t == n) ≡ false = ground arith in
    keep_secrets-other known (insert n secret m) t (ground arith) ∙ rw other refl

-- The update of a path from some level on.
pub install-drop :
    (n : ℕ) (path : List ℕ) (path_nodes : List UpdatePathNode) (nodes : List TreeNode)
    → n ≤ length path
    → length path ≡ length path_nodes
    → install path path_nodes nodes
      ≡ install (drop n path) (drop n path_nodes) (install (take n path) (take n path_nodes) nodes)
unfolding install
install-drop zero path path_nodes nodes h same = refl
install-drop (suc n) [] path_nodes nodes h same = absurd (omega arith)
install-drop (suc n) (d ∷ path) [] nodes h same = absurd (omega arith)
install-drop (suc n) (d ∷ path) (p ∷ path_nodes) nodes h same =
    install-drop n path path_nodes (set nodes d (parent p.public_key)) (omega arith) (omega arith)

pub node_public_key_lem :
    (nodes : List TreeNode) (t : ℕ) → node_public_key nodes t ≡ key_of (get_or nodes t blank)
unfolding node_public_key key_of
node_public_key_lem [] t = refl
node_public_key_lem (n ∷ nodes) zero = refl
node_public_key_lem (n ∷ nodes) (suc t) = node_public_key_lem nodes t

module _ (prim : Primitives) where
  -- The node has a key, and its secret is known.
  pub record HasSecret (nodes : List TreeNode) (m : ℕ → Option Bytes) (t : ℕ) : Type 0 where
    pub secret : Bytes
    pub keypair : NodeKeypair
    pub known : m t ≡ some secret
    pub derived : derive_node_keypair prim secret ≡ ok keypair
    pub at : get_or nodes t blank ≡ parent (keypair_public keypair)

  module _ (draws : ℕ → ℕ → Draw) (tree : List TreeNode) (capacity : ℕ) where
    -- One level put on the tree.
    put_level :
        (nodes : List TreeNode) (m : ℕ → Option Bytes) (t d : ℕ) (secret : Bytes) (k : NodeKeypair)
        → d < length nodes
        → derive_node_keypair prim secret ≡ ok k
        → (t ≡ d) ⊎ HasSecret nodes m t
        → HasSecret (set nodes d (parent (keypair_public k))) (insert d secret m) t
    unfolding insert
    put_level nodes m t d secret k inside derived h = elim (Bool-cases (t == d)) [
      | inl here ↦
          let same = (==_iff t d).0 here in
          record {
            secret = secret;
            keypair = k;
            known = rw here refl;
            derived = derived;
            at =
                ap (λ n. get_or (set nodes d (parent (keypair_public k))) n blank) same
                ∙ get_or-set_self nodes d (parent (keypair_public k)) blank inside;
          }
      | inr other ↦ elim h [
        | inl same ↦ absurd (ground arith)
        | inr s ↦ record {
          secret = s.secret;
          keypair = s.keypair;
          known = rw other s.known;
          derived = s.derived;
          at =
              get_or-set_other nodes d t (parent (keypair_public k)) blank
                (λ e. absurd (ground arith))
              ∙ s.at;
        }
      ]
    ]

    -- The nodes of a path have keys whose secrets are known, and so have other nodes that had.
    pub install-HasSecret :
        (prev : ℕ) (secret : Bytes) (path : List ℕ) (levels : List Level) (nodes : List TreeNode)
        (m : ℕ → Option Bytes) (t : ℕ)
        → path_levels prim draws tree capacity prev secret path ≡ ok levels
        → All (λ d. d < length nodes) path
        → (contains path t ≡ true) ⊎ HasSecret nodes m t
        → HasSecret (install path (nodes_of levels) nodes) (keep_secrets (secrets_of levels) m) t
    unfolding install keep_secrets nodes_of secrets_of path_levels
    install-HasSecret prev secret [] levels nodes m t made inside h = elim h [
      | inl here ↦ absurd (cc (here))
      | inr s ↦
          let none_made : [] ≡ levels = cc in
          subst
            (λ ls. HasSecret (install [] (nodes_of ls) nodes) (keep_secrets (secrets_of ls) m) t)
            none_made s
    ]
    install-HasSecret prev secret (d ∷ path) all nodes m t made (here, inside) h =
        let (l, levels, whole, s) =
          path_levels-Made prim draws tree capacity prev d secret path all made in
        let nodes1 = set nodes d (parent (keypair_public s.keypair)) in
        let inside1 = subst (λ n. All (λ e. e < n) path) (sym (length-set nodes d _)) inside in
        let cases : (contains path t ≡ true) ⊎ HasSecret nodes1 (insert d secret m) t = elim h [
          | inr old ↦ inr (put_level nodes m t d secret s.keypair here s.derived (inr old))
          | inl on_path ↦ elim (Bool-cases (t == d)) [
            | inl same ↦
                inr (
                  put_level nodes m t d secret s.keypair here s.derived (inl ((==_iff t d).0 same)))
            | inr other ↦ inl (ground arith)
          ]
        ] in
        let rest =
          install-HasSecret d s.next path levels nodes1 (insert d secret m) t s.above inside1
            cases in
        subst
          (λ ls.
            HasSecret (install (d ∷ path) (nodes_of ls) nodes) (keep_secrets (secrets_of ls) m) t)
          (sym whole)
          (subst
            (λ k.
              HasSecret (install path (nodes_of levels) (set nodes d (parent k)))
                (keep_secrets (l.secret ∷ secrets_of levels) m) t)
            (sym s.public_key)
            (subst
              (λ n.
                HasSecret (install path (nodes_of levels) nodes1)
                  (keep_secrets (n ∷ secrets_of levels) m) t)
              (sym s.is_secret) rest))
