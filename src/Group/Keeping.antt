-- ===== src/Group/Keeping.antt =====
-- crates/core/src/group.rs: a member that holds the keys above it holds them after a commit.
use novachannel.Common.{
  ℕ, ◌-◌, ◌*◌, ◌≤◌, ◌<◌, ◌≡◌, ◌≢◌, refl, ap, sym, ◌∙◌, subst, true, false, List, [], ◌∷◌, arith,
  length, contains, drop, take, All, All-drop, Bool-cases, inl, inr, ok, Bytes, get_or, set,
  get_or-set_other,
}
use novachannel.Crypto.{Primitives}
use novachannel.Kex.{Draw}
use novachannel.Group.Index.{leaf_to_node, direct_path}
use novachannel.Group.Keys.{TreeNode, blank, leaf}
use novachannel.Group.Messages.{GroupOp, add, remove, update, UpdatePathNode}
use novachannel.Group.Resolution.{node_public_key, key_of}
use novachannel.Group.State.{Group, spliced, blank_all, is_blank, install}
use novachannel.Group.Commits.{Level, nodes_of, secrets_of, keep_secrets, path_levels}
use novachannel.Group.Paths.{is_above}
use novachannel.Group.Cover.{IsFilled, is_above-half}
use novachannel.Group.Invariant.{IsGroup, my_node, leaf_to_node-lt, le-leaf_to_node, length-install}
use novachannel.Group.Removal.{blank_all-contains}
use novachannel.Group.Follow.{HoldsKeys}
use novachannel.Group.Making.{path_levels-keys}
use novachannel.Group.Installed.{
  ancestors-inner, All-below, contains-All, install-other, keep_secrets-other, install-drop,
  node_public_key_lem, install-HasSecret,
}

blank_all-other :
    (path : List ℕ) (nodes : List TreeNode) (t : ℕ)
    → contains path t ≡ false
    → get_or (blank_all path nodes) t blank ≡ get_or nodes t blank
unfolding blank_all
blank_all-other [] nodes t h = refl
blank_all-other (n ∷ path) nodes t h =
    blank_all-other path (set nodes n blank) t (ground arith)
    ∙ get_or-set_other nodes n t blank blank (λ e. absurd (ground arith))

-- A node above a leaf, other than the leaf, is no leaf.
above-inner :
    {g : Group}
    → IsGroup g
    → (t : ℕ) → t ≢ my_node g
    → is_above t (my_node g) ≡ true
    → t < g.capacity - 1
above-inner {g} v t other above =
    omega (arith, is_above-half t (my_node g) above other, leaf_to_node-lt v v.mine, v.roomy)

-- Nodes of a path are not leaves.
not_on_path :
    {g : Group}
    → IsGroup g
    → {i : ℕ} → i < g.capacity
    → (t : ℕ) → g.capacity - 1 ≤ t
    → contains (direct_path g.capacity i) t ≡ false
unfolding direct_path
not_on_path {g} v {i} h t low =
    let node = leaf_to_node g.capacity i in
    contains-All (λ d. d < g.capacity - 1) (direct_path g.capacity i) t
      (ancestors-inner g.capacity node node (leaf_to_node-lt v h)) (λ d. omega (arith, d, low))

-- A tree with the same leaf of the member, and with no nodes above it but those that were there.
pub record KeepsAbove (g : Group) (nodes nodes' : List TreeNode) : Type 0 where
  pub mine : get_or nodes' (my_node g) blank ≡ get_or nodes (my_node g) blank
  pub above :
      (t : ℕ)
      → t ≢ my_node g
      → is_above t (my_node g) ≡ true
      → IsFilled nodes' t
      → get_or nodes' t blank ≡ get_or nodes t blank

HoldsKeys-same :
    {prim : Primitives} {g : Group} {nodes nodes' : List TreeNode}
    → HoldsKeys prim g nodes
    → KeepsAbove g nodes nodes'
    → HoldsKeys prim g nodes'
HoldsKeys-same {g} {nodes} {nodes'} x same =
    let keys : (t : ℕ)
        → get_or nodes' t blank ≡ get_or nodes t blank
        → node_public_key nodes' t ≡ node_public_key nodes t =
      λ t e. node_public_key_lem nodes' t ∙ ap key_of e ∙ sym (node_public_key_lem nodes t) in
    record {
      leaf_secrets = x.leaf_secrets;
      has_leaf = x.has_leaf;
      leaf_key = x.leaf_key;
      at_leaf = keys (my_node g) same.mine ∙ x.at_leaf;
      is_leaf_key = x.is_leaf_key;
      filled_leaf = ap is_blank same.mine ∙ x.filled_leaf;
      above = λ t other up filled.
          let e = same.above t other up filled in
          let (secret, k, known, derived, at) = x.above t other up (ap is_blank (sym e) ∙ filled) in
          (secret, k, known, derived, keys t e ∙ at);
    }

-- The keys that a member holds, in another state of it.
pub HoldsKeys-state :
    {prim : Primitives} {g h : Group} {nodes : List TreeNode}
    → HoldsKeys prim g nodes
    → my_node h ≡ my_node g
    → h.my_leaf_keys ≡ g.my_leaf_keys
    → h.known_secrets ≡ g.known_secrets
    → HoldsKeys prim h nodes
HoldsKeys-state {g} {h} {nodes} x node keys known = record {
  leaf_secrets = x.leaf_secrets;
  has_leaf = keys ∙ x.has_leaf;
  leaf_key = x.leaf_key;
  at_leaf = ap (node_public_key nodes) node ∙ x.at_leaf;
  is_leaf_key = x.is_leaf_key;
  filled_leaf = subst (IsFilled nodes) (sym node) x.filled_leaf;
  above = λ t other up filled.
      let (secret, k, has, derived, at) =
        x.above t (λ e. other (e ∙ sym node)) (ap (is_above t) (sym node) ∙ up) filled in
      (secret, k, ap (λ m. m t) known ∙ has, derived, at);
}

pub spliced-KeepsAbove :
    {g : Group} (v : IsGroup g)
    → IsFilled g.nodes (my_node g)
    → (op : GroupOp) (nodes : List TreeNode) → spliced g op ≡ ok nodes
    → op ≢ remove g.my_leaf
    → KeepsAbove g g.nodes nodes
unfolding spliced leaf_to_node
spliced-KeepsAbove {g} v filled_leaf update nodes splice stays =
    let same : g.nodes ≡ nodes = cc in
    subst (KeepsAbove g g.nodes) same (record { mine = refl; above = λ t other up filled. refl })
spliced-KeepsAbove {g} v filled_leaf (add i p) nodes splice stays =
    let node = leaf_to_node g.capacity i in
    let tree : set g.nodes node (leaf p) ≡ nodes = ground arith in
    let free : is_blank (get_or g.nodes node blank) ≡ true = ground arith in
    let low = le-leaf_to_node g.capacity i in
    let other : node ≢ my_node g =
      λ e. cc (free, ap (λ n. is_blank (get_or g.nodes n blank)) e, filled_leaf) in
    subst (KeepsAbove g g.nodes) tree (record {
      mine = get_or-set_other g.nodes node (my_node g) (leaf p) blank other;
      above = λ t apart up filled.
          get_or-set_other g.nodes node t (leaf p) blank
            (λ e. absurd (omega (arith, e, low, above-inner v t apart up)));
    })
spliced-KeepsAbove {g} v filled_leaf (remove i) nodes splice stays =
    let node = leaf_to_node g.capacity i in
    let path = direct_path g.capacity i in
    let inside : i < g.capacity = ground arith in
    let tree : blank_all path (set g.nodes node blank) ≡ nodes = ground arith in
    let low = le-leaf_to_node g.capacity i in
    let other : node ≢ my_node g = λ e. stays (ap remove (omega (arith, e))) in
    subst (KeepsAbove g g.nodes) tree (record {
      mine =
          blank_all-other path (set g.nodes node blank) (my_node g)
            (not_on_path v inside (my_node g) (le-leaf_to_node g.capacity g.my_leaf))
          ∙ get_or-set_other g.nodes node (my_node g) blank blank other;
      above = λ t apart up filled. elim (Bool-cases (contains path t)) [
        | inl on_path ↦
            absurd (
              cc (filled, ap is_blank (blank_all-contains path (set g.nodes node blank) t on_path)))
        | inr off ↦
            blank_all-other path (set g.nodes node blank) t off
            ∙ get_or-set_other g.nodes node t blank blank
                (λ e. absurd (omega (arith, e, low, above-inner v t apart up)))
      ];
    })

pub spliced-HoldsKeys :
    {prim : Primitives} {g : Group} (v : IsGroup g)
    → HoldsKeys prim g g.nodes
    → (op : GroupOp) (nodes : List TreeNode) → spliced g op ≡ ok nodes
    → op ≢ remove g.my_leaf
    → HoldsKeys prim g nodes
spliced-HoldsKeys v x op nodes splice stays =
    HoldsKeys-same x (spliced-KeepsAbove v x.filled_leaf op nodes splice stays)

-- A path update leaves the leaves.
pub install-mine :
    {g : Group} (v : IsGroup g) {i : ℕ}
    → i < g.capacity
    → (path_nodes : List UpdatePathNode) (nodes : List TreeNode)
    → get_or (install (direct_path g.capacity i) path_nodes nodes) (my_node g) blank
      ≡ get_or nodes (my_node g) blank
install-mine {g} v {i} inside path_nodes nodes =
    install-other (direct_path g.capacity i) path_nodes nodes (my_node g)
      (not_on_path v inside (my_node g) (le-leaf_to_node g.capacity g.my_leaf))

module _ {prim : Primitives} {g : Group} (v : IsGroup g) (draws : ℕ → ℕ → Draw)
    (tree : List TreeNode) {i : ℕ} (inside : i < g.capacity) where
  -- A member that knows the secrets of a path from a level on, with no level before above it.
  pub install-HoldsKeys :
      (nodes : List TreeNode)
      → HoldsKeys prim g nodes
      → length nodes ≡ 2 * g.capacity - 1
      → (n below : ℕ) (secret : Bytes) (path_nodes : List UpdatePathNode) (rest : List Level)
      → n ≤ length (direct_path g.capacity i)
      → length (direct_path g.capacity i) ≡ length path_nodes
      → drop n path_nodes ≡ nodes_of rest
      → path_levels prim draws tree g.capacity below secret (drop n (direct_path g.capacity i))
        ≡ ok rest
      → All (λ d. is_above d (my_node g) ≡ false) (take n (direct_path g.capacity i))
      → HoldsKeys prim
          (record g { known_secrets = keep_secrets (secrets_of rest) g.known_secrets })
          (install (direct_path g.capacity i) path_nodes nodes)
  unfolding direct_path key_of
  install-HoldsKeys nodes x size n below secret path_nodes rest long same_len rest_nodes made
        aside =
      let path = direct_path g.capacity i in
      let node = leaf_to_node g.capacity i in
      let me = my_node g in
      let nodes1 = install (take n path) (take n path_nodes) nodes in
      let nodes2 = install path path_nodes nodes in
      let known2 = keep_secrets (secrets_of rest) g.known_secrets in
      let two : nodes2 ≡ install (drop n path) (nodes_of rest) nodes1 =
        install-drop n path path_nodes nodes long same_len
        ∙ ap (λ p. install (drop n path) p nodes1) rest_nodes in
      let inner = ancestors-inner g.capacity node node (leaf_to_node-lt v inside) in
      let fits : g.capacity - 1 ≤ length nodes1 =
        omega (arith, length-install (take n path) (take n path_nodes) nodes, size) in
      let off_leaf = install-mine v inside path_nodes nodes in
      record {
        leaf_secrets = x.leaf_secrets;
        has_leaf = x.has_leaf;
        leaf_key = x.leaf_key;
        at_leaf =
            node_public_key_lem nodes2 me
            ∙ ap key_of off_leaf
            ∙ sym (node_public_key_lem nodes me)
            ∙ x.at_leaf;
        is_leaf_key = x.is_leaf_key;
        filled_leaf = ap is_blank off_leaf ∙ x.filled_leaf;
        above = λ t other up filled. elim (Bool-cases (contains (drop n path) t)) [
          | inl new ↦
              let s =
                install-HasSecret prim draws tree g.capacity below secret (drop n path) rest nodes1
                  g.known_secrets t made
                  (All-below (drop n path) fits (All-drop (λ d. d < g.capacity - 1) n path inner))
                  (inl new) in
              (
                s.secret,
                s.keypair,
                s.known,
                s.derived,
                node_public_key_lem nodes2 t
                    ∙ ap (λ ns. key_of (get_or ns t blank)) two
                    ∙ ap key_of s.at,
              )
          | inr old ↦
              let before =
                contains-All (λ d. is_above d me ≡ false) (take n path) t aside
                  (λ no_up. cc (no_up, up)) in
              let same : get_or nodes2 t blank ≡ get_or nodes t blank =
                ap (λ ns. get_or ns t blank) two
                ∙ install-other (drop n path) (nodes_of rest) nodes1 t old
                ∙ install-other (take n path) (take n path_nodes) nodes t before in
              let (keys, _) =
                path_levels-keys prim draws tree g.capacity below secret (drop n path) rest made in
              let (held, k, has, derived, at) =
                x.above t other up (ap is_blank (sym same) ∙ filled) in
              (
                held,
                k,
                keep_secrets-other (secrets_of rest) g.known_secrets t
                      (ap (λ l. contains l t) keys ∙ old)
                    ∙ has,
                derived,
                node_public_key_lem nodes2 t
                    ∙ ap key_of same
                    ∙ sym (node_public_key_lem nodes t)
                    ∙ at,
              )
        ];
      }
