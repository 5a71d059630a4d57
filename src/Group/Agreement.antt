-- ===== src/Group/Agreement.antt =====
-- crates/core/src/group.rs: a commit, made by one member and applied by another.
use novachannel.Common.{
  ℕ, suc, ◌+◌, ◌-◌, ◌*◌, ◌<◌, ◌≡◌, ◌≢◌, refl, ap, ap₂, sym, ◌∙◌, subst, true, false, some, List,
  arith, ◌==◌, ltb, length, drop, Bool-cases, inl, inr, ok, Bytes, bytes_eq_iff,
}
use novachannel.Common.Fallible.{Ensures-ok}
use novachannel.Crypto.{Primitives, IsPrimitives}
use novachannel.Kex.{Draw}
use novachannel.Identity.{verify}
use novachannel.Group.Index.{leaf_to_node, ancestors, direct_path}
use novachannel.Group.Keys.{LeafKeyPackage, TreeNode}
use novachannel.Group.Messages.{GroupOp, add, remove, update, Commit}
use novachannel.Group.State.{Group, is_some, is_member, member_package, spliced, install}
use novachannel.Group.Commits.{
  PathSecrets, Level, nodes_of, secrets_of, secret_at, last_of, commit_secret_of, path_levels,
  find_and_decrypt, check_path, keep_secrets, Learned, signed_part, learn,
}
use novachannel.Group.Paths.{is_above, ancestors-suc}
use novachannel.Group.Cover.{is_above-half}
use novachannel.Group.Invariant.{IsGroup, my_node, leaf_to_node-lt, spliced-Ensures}
use novachannel.Group.Learning.{commit_secret_of-some}
use novachannel.Group.Seals.{IsAuthentic}
use novachannel.Group.Follow.{HoldsKeys}
use novachannel.Group.Opening.{path_levels-Opens, check_path-path_levels}
use novachannel.Group.Keeping.{install-HoldsKeys}
use novachannel.Group.Making.{path_levels-keys, last_of-ancestors}

-- Two members share the public state and the secrets of an epoch.
pub record InStep (a b : Group) : Type 0 where
  pub group_id : a.group_id ≡ b.group_id
  pub capacity : a.capacity ≡ b.capacity
  pub nodes : a.nodes ≡ b.nodes
  pub epoch : a.epoch ≡ b.epoch
  pub epoch_secret : a.epoch_secret ≡ b.epoch_secret
  pub application_secret : a.application_secret ≡ b.application_secret
  pub transcript_hash : a.transcript_hash ≡ b.transcript_hash

pub spliced-InStep : {a b : Group} → InStep a b → (op : GroupOp) → spliced a op ≡ spliced b op
unfolding spliced
spliced-InStep {a} s (add i p) =
    ap₂ (λ c n. spliced (record a { capacity = c; nodes = n }) (add i p)) s.capacity s.nodes
spliced-InStep {a} s (remove i) =
    ap₂ (λ c n. spliced (record a { capacity = c; nodes = n }) (remove i)) s.capacity s.nodes
spliced-InStep s update = ap ok s.nodes

pub member_package-InStep :
    {a b : Group} → InStep a b → (i : ℕ) → member_package a i ≡ member_package b i
unfolding member_package
member_package-InStep {a} s i =
    ap₂ (λ c n. member_package (record a { capacity = c; nodes = n }) i) s.capacity s.nodes

-- A leaf is not above another leaf.
pub leaves_apart :
    {g : Group}
    → IsGroup g
    → (i : ℕ) → i ≢ g.my_leaf
    → is_above (leaf_to_node g.capacity i) (my_node g) ≡ false
unfolding leaf_to_node
leaves_apart {g} v i other = elim (Bool-cases (is_above (leaf_to_node g.capacity i) (my_node g))) [
  | inr aside ↦ aside
  | inl above ↦
      let half =
        is_above-half (leaf_to_node g.capacity i) (my_node g) above
          (λ e. other (omega (arith, e))) in
      absurd (omega (arith, half, v.mine, v.roomy))
]

-- A path ends at the root.
pub last_of-direct_path :
    {g : Group} → IsGroup g → (i : ℕ) → last_of (direct_path g.capacity i) ≡ some 0
unfolding direct_path leaf_to_node
last_of-direct_path {g} v i =
    let y = g.capacity - 2 + i in
    let node : suc y ≡ g.capacity - 1 + i = omega (arith, v.roomy) in
    subst (λ n. last_of (ancestors n n) ≡ some 0) node (last_of-ancestors y y (omega arith))

pub length-direct_path : {g : Group} → IsGroup g → (i : ℕ) → 0 < length (direct_path g.capacity i)
unfolding direct_path leaf_to_node
length-direct_path {g} v i =
    let y = g.capacity - 2 + i in
    let node : suc y ≡ g.capacity - 1 + i = omega (arith, v.roomy) in
    subst (λ n. 0 < length (ancestors n n)) node
      (subst (λ path. 0 < length path) (sym (ancestors-suc y y)) (omega arith))

pub commit_secret_of-same :
    (path : List ℕ) (k l : PathSecrets)
    → last_of path ≡ some 0
    → secret_at 0 k ≡ secret_at 0 l
    → commit_secret_of path k ≡ commit_secret_of path l
unfolding commit_secret_of
commit_secret_of-same path k l root same = rw (root, same) refl

module _ (prim : Primitives) where
  pub learn-ok :
      (c : Commit) (g : Group) (p : LeafKeyPackage) (nodes : List TreeNode) (level : ℕ)
      (secret : Bytes) (known : PathSecrets) (commit_secret : Bytes)
      → c.group_id ≡ g.group_id
      → c.from_epoch ≡ g.epoch
      → c.sender_leaf < g.capacity
      → member_package g c.sender_leaf ≡ some p
      → verify prim.signatures p.identity (signed_part c) c.signature ≡ ok tt
      → spliced g c.op ≡ ok nodes
      → length (direct_path g.capacity c.sender_leaf) ≡ length c.path
      → find_and_decrypt prim g nodes c.sender_leaf (direct_path g.capacity c.sender_leaf) c.path
        ≡ ok (level, secret)
      → check_path prim secret
          (drop level (direct_path g.capacity c.sender_leaf))
          (drop level c.path)
        ≡ ok known
      → commit_secret_of (direct_path g.capacity c.sender_leaf) known ≡ ok commit_secret
      → learn prim c g
        ≡ ok (record { pre_commit_nodes = nodes; known = known; commit_secret = commit_secret })
  unfolding learn is_member is_some
  learn-ok c g p nodes level secret known commit_secret id epoch inside at signed splice len found
        checked last =
      let same_id = (bytes_eq_iff c.group_id g.group_id).1 id in
      let same_epoch : (c.from_epoch == g.epoch) ≡ true = ground arith in
      let within : ltb c.sender_leaf g.capacity ≡ true = ground arith in
      let same_len : (length (direct_path g.capacity c.sender_leaf) == length c.path) ≡ true =
        ground arith in
      rw (same_id, same_epoch, within, at, signed, splice, same_len, found, checked, last) refl

-- The commit of a member that the other does not know of yet.
pub record Sent (prim : Primitives) (g : Group) (nodes : List TreeNode) (draws : ℕ → ℕ → Draw)
    (fresh : Bytes) (levels : List Level) (c : Commit) : Type 0 where
  pub group_id : c.group_id ≡ g.group_id
  pub from_epoch : c.from_epoch ≡ g.epoch
  pub inside : c.sender_leaf < g.capacity
  pub sender : LeafKeyPackage
  pub at : member_package g c.sender_leaf ≡ some sender
  pub signed : verify prim.signatures sender.identity (signed_part c) c.signature ≡ ok tt
  pub splice : spliced g c.op ≡ ok nodes
  pub path : c.path ≡ nodes_of levels
  pub made :
      path_levels prim draws nodes g.capacity
        (leaf_to_node g.capacity c.sender_leaf)
        fresh
        (direct_path g.capacity c.sender_leaf)
      ≡ ok levels

module _ {prim : Primitives} (law : IsPrimitives prim) (auth : IsAuthentic prim.aead) where
  -- A receiver with the keys above it learns the commit's secret.
  pub learn-Sent :
      {g : Group} (v : IsGroup g) {nodes : List TreeNode}
      → HoldsKeys prim g nodes
      → (draws : ℕ → ℕ → Draw) (fresh : Bytes) (levels : List Level) (c : Commit)
      → length fresh ≡ 32
      → Sent prim g nodes draws fresh levels c
      → c.sender_leaf ≢ g.my_leaf
      → (l : Learned) × (learn prim c g ≡ ok l)
        × (l.pre_commit_nodes ≡ nodes)
        × (commit_secret_of (direct_path g.capacity c.sender_leaf) (secrets_of levels)
            ≡ ok l.commit_secret)
        × HoldsKeys prim
            (record g { known_secrets = keep_secrets l.known g.known_secrets })
            (install (direct_path g.capacity c.sender_leaf) c.path nodes)
  unfolding find_and_decrypt direct_path
  learn-Sent {g} v {nodes} holds draws fresh levels c long s other =
      let node = leaf_to_node g.capacity c.sender_leaf in
      let path = direct_path g.capacity c.sender_leaf in
      let size : length nodes ≡ 2 * g.capacity - 1 =
        Ensures-ok (spliced-Ensures g c.op) s.splice ∙ v.size in
      let (keys, len) =
        path_levels-keys prim draws nodes g.capacity node fresh path levels s.made in
      let o =
        path_levels-Opens law auth v size holds draws node node 0 fresh levels (omega arith)
          (leaf_to_node-lt v s.inside) (leaves_apart v c.sender_leaf other) long s.made in
      let checked =
        check_path-path_levels prim draws nodes g.capacity o.below o.secret (drop o.steps path)
          o.rest o.remade in
      let (secret, last) =
        commit_secret_of-some prim 0 path path (secrets_of levels) (omega (arith, o.within)) refl
          keys in
      let last' =
        commit_secret_of-same path (secrets_of o.rest) (secrets_of levels)
          (last_of-direct_path v c.sender_leaf) o.last
        ∙ last in
      let from_zero : 0 + o.steps ≡ o.steps = omega arith in
      (
        record { pre_commit_nodes = nodes; known = secrets_of o.rest; commit_secret = secret },
        learn-ok prim c g s.sender nodes o.steps o.secret (secrets_of o.rest) secret s.group_id
            s.from_epoch s.inside s.at s.signed s.splice (sym len ∙ ap length (sym s.path))
            (ap (find_and_decrypt prim g nodes c.sender_leaf path) s.path
              ∙ o.found
              ∙ ap (λ n. ok (n, o.secret)) from_zero)
            (ap (λ p. check_path prim o.secret (drop o.steps path) p)
                (ap (drop o.steps) s.path ∙ o.rest_nodes)
              ∙ checked)
            last',
        refl,
        last,
        install-HoldsKeys v draws nodes s.inside nodes holds size o.steps o.below o.secret c.path
            o.rest (omega (arith, o.within)) (sym len ∙ ap length (sym s.path))
            (ap (drop o.steps) s.path ∙ o.rest_nodes) o.remade o.aside,
      )
