-- ===== src/Group/Invariant.antt =====
-- crates/core/src/group.rs: what holds of every member's state, and the nodes of its path.
use novachannel.Common.{
  ℕ, suc, ◌+◌, ◌-◌, ◌*◌, ◌/◌, ◌≤◌, ◌<◌, ◌≡◌, ◌≢◌, refl, ap, sym, ◌∙◌, true, false, not, ◌||◌, some,
  List, [], ◌∷◌, arith, if◌then◌else◌, leb, ◌==◌, length, length-set, get_or, set, Bool-cases, inl,
  inr, ==_iff, Bytes,
}
use novachannel.Common.Fallible.{Ensures, Ensures-if, returns, refuses}
use novachannel.Group.Index.{sibling, leaf_to_node, direct_path}
use novachannel.Group.Keys.{TreeNode, blank, leaf, parent as parent_node}
use novachannel.Group.Messages.{GroupOp, add, remove, update, UpdatePathNode, max_capacity}
use novachannel.Group.State.{Group, spliced, blank_all, install, is_blank}
use novachannel.Group.Paths.{is_above, parent-suc, is_above_children}
use novachannel.Group.Cover.{child_left, child_right}

abbrev pub my_node : Group → ℕ
my_node g = leaf_to_node g.capacity g.my_leaf

pub record IsGroup (g : Group) : Type 0 where
  pub roomy : 2 ≤ g.capacity
  pub bounded : g.capacity ≤ max_capacity
  pub size : length g.nodes ≡ 2 * g.capacity - 1
  pub mine : g.my_leaf < g.capacity
  pub known_above :
      (t : ℕ) (secret : Bytes) → g.known_secrets t ≡ some secret → is_above t (my_node g) ≡ true

pub leaf_to_node-lt :
    {g : Group}
    → IsGroup g
    → {i : ℕ} → i < g.capacity
    → leaf_to_node g.capacity i < 2 * g.capacity - 1
unfolding leaf_to_node
leaf_to_node-lt v h = omega (arith, v.roomy)

pub le-leaf_to_node : (capacity i : ℕ) → capacity - 1 ≤ leaf_to_node capacity i
unfolding leaf_to_node
le-leaf_to_node capacity i = omega arith

pub sibling-suc :
    (y : ℕ)
    → sibling (suc y) ≡ some (if 2 * (y / 2) + 1 == suc y then 2 * (y / 2) + 2 else 2 * (y / 2) + 1)
unfolding sibling
sibling-suc y = rw (parent-suc y, sibling) refl

-- In a tree of `2 * capacity - 1` nodes, the sibling of a node is a node, below the same parent.
pub sibling-lt :
    (capacity y : ℕ)
    → suc y < 2 * capacity - 1
    → (s : ℕ) × (sibling (suc y) ≡ some s) × (s < 2 * capacity - 1) × (is_above (y / 2) s ≡ true)
sibling-lt capacity y h = elim (Bool-cases (2 * (y / 2) + 1 == suc y)) [
  | inl left ↦ (2 * (y / 2) + 2, sibling-suc y ∙ rw left refl, ground arith, child_right (y / 2))
  | inr right ↦ (2 * (y / 2) + 1, sibling-suc y ∙ rw right refl, ground arith, child_left (y / 2))
]

pub length-blank_all :
    (path : List ℕ) (nodes : List TreeNode) → length (blank_all path nodes) ≡ length nodes
unfolding blank_all
length-blank_all [] nodes = refl
length-blank_all (n ∷ path) nodes =
    length-blank_all path (set nodes n blank) ∙ length-set nodes n blank

pub length-install :
    (path : List ℕ) (path_nodes : List UpdatePathNode) (nodes : List TreeNode)
    → length (install path path_nodes nodes) ≡ length nodes
unfolding install
length-install [] path_nodes nodes = refl
length-install (d ∷ path) [] nodes = refl
length-install (d ∷ path) (n ∷ path_nodes) nodes =
    length-install path path_nodes (set nodes d (parent_node n.public_key)) ∙ length-set nodes d _

-- Splicing does not panic, and keeps the number of nodes.
pub spliced-Ensures :
    (g : Group) (op : GroupOp) → Ensures (λ nodes. length nodes ≡ length g.nodes) (spliced g op)
unfolding spliced
spliced-Ensures g (add leaf_index key_package) =
    let node = leaf_to_node g.capacity leaf_index in
    Ensures-if (leb g.capacity leaf_index || not (is_blank (get_or g.nodes node blank)))
      (λ full. refuses) (λ free. returns (length-set g.nodes node (leaf key_package)))
spliced-Ensures g (remove leaf_index) =
    let node = leaf_to_node g.capacity leaf_index in
    Ensures-if (leb g.capacity leaf_index) (λ outside. refuses)
      (λ inside.
        Ensures-if (is_blank (get_or g.nodes node blank)) (λ free. refuses)
          (λ filled. returns (
            length-blank_all (direct_path g.capacity leaf_index) (set g.nodes node blank)
            ∙ length-set g.nodes node blank)))
spliced-Ensures g update = returns refl

-- A node is not above `x` if neither it nor its sibling's side is.
pub sibling_aside :
    (y s x : ℕ)
    → sibling (suc y) ≡ some s
    → y / 2 ≢ x
    → is_above (suc y) x ≡ false
    → is_above s x ≡ false
    → is_above (y / 2) x ≡ false
sibling_aside y s x at apart p q =
    let halves = is_above_children (y / 2) x apart in
    elim (Bool-cases (2 * (y / 2) + 1 == suc y)) [
      | inl left ↦
          let e : sibling (suc y) ≡ some (2 * (y / 2) + 2) = sibling-suc y ∙ rw left refl in
          let s_is : s ≡ 2 * (y / 2) + 2 = cc (at, e) in
          let p' = ap (λ n. is_above n x) ((==_iff _ _).0 left) ∙ p in
          let q' = ap (λ n. is_above n x) (sym s_is) ∙ q in ground arith
      | inr right ↦
          let e : sibling (suc y) ≡ some (2 * (y / 2) + 1) = sibling-suc y ∙ rw right refl in
          let s_is : s ≡ 2 * (y / 2) + 1 = cc (at, e) in
          let y_is : 2 * (y / 2) + 2 ≡ suc y = ground arith in
          let p' = ap (λ n. is_above n x) y_is ∙ p in
          let q' = ap (λ n. is_above n x) (sym s_is) ∙ q in ground arith
    ]
