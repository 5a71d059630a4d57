-- ===== src/Group/Index.antt =====
-- crates/core/src/group.rs: the indices of a complete binary tree in an array. The root is 0, and the
-- leaves are the last `capacity` slots. Every caller holds a capacity of at least 2 and a leaf below it.
use novachannel.Common.{
  ℕ, zero, suc, ◌+◌, ◌-◌, ◌*◌, ◌/◌, Bool, Option, none, some, List, [], ◌∷◌, if◌then◌else◌, leb,
  ◌==◌,
}

unfoldable pub leaf_to_node : ℕ → ℕ → ℕ
leaf_to_node capacity leaf = capacity - 1 + leaf

unfoldable pub is_leaf : ℕ → ℕ → Bool
is_leaf capacity node = leb (capacity - 1) node

unfoldable pub parent : ℕ → Option ℕ
parent node = if node == 0 then none else some ((node - 1) / 2)

unfoldable pub left_child : ℕ → ℕ
left_child node = 2 * node + 1

unfoldable pub right_child : ℕ → ℕ
right_child node = 2 * node + 2

unfoldable pub sibling : ℕ → Option ℕ
unfolding parent left_child right_child
sibling node = elim (parent node) [
  | none ↦ none
  | some p ↦ some (if left_child p == node then right_child p else left_child p)
]

-- The loop from a node up to the root. A parent's index is smaller, so a node is its own fuel.
unfoldable pub ancestors : ℕ → ℕ → List ℕ
ancestors zero n = []
ancestors (suc fuel) n = elim (parent n) [ none ↦ [] | some p ↦ p ∷ ancestors fuel p ]

unfoldable pub direct_path : ℕ → ℕ → List ℕ
direct_path capacity leaf = ancestors (leaf_to_node capacity leaf) (leaf_to_node capacity leaf)
