-- ===== src/Group/Resolution.antt =====
-- crates/core/src/group.rs: which nodes stand for the members below a node. An index out of range is a panic.
use novachannel.Common.{
  ℕ, zero, suc, Bool, Option, none, some, List, [], ◌∷◌, ◌++◌, if◌then◌else◌, length, get_elem?,
}
use novachannel.Group.Keys.{NodePublicKey, TreeNode, blank, leaf, parent}
use novachannel.Group.Index.{is_leaf, left_child, right_child}

-- The nodes of the left and of the right half, if neither half panics.
unfoldable pub both : Option (List ℕ) → Option (List ℕ) → Option (List ℕ)
both none right = none
both (some l) none = none
both (some l) (some r) = some (l ++ r)

-- What a node stands for, given what stands below it.
unfoldable pub resolve_node : TreeNode → ℕ → Bool → Option (List ℕ) → Option (List ℕ)
resolve_node blank node at_leaf below = if at_leaf then some [] else below
resolve_node (leaf p) node at_leaf below = some (node ∷ [])
resolve_node (parent k) node at_leaf below = some (node ∷ [])

unfoldable pub resolution_from : ℕ → List TreeNode → ℕ → ℕ → Option (List ℕ)
unfolding both resolve_node left_child right_child
resolution_from zero nodes capacity node = none
resolution_from (suc fuel) nodes capacity node =
    let below =
      both (resolution_from fuel nodes capacity (left_child node))
        (resolution_from fuel nodes capacity (right_child node)) in
    elim (get_elem? nodes node) [
      | none ↦ none
      | some n ↦ resolve_node n node (is_leaf capacity node) below
    ]

-- A child's index is larger, so the number of nodes is enough fuel.
unfoldable pub resolution : List TreeNode → ℕ → ℕ → Option (List ℕ)
resolution nodes capacity node = resolution_from (length nodes) nodes capacity node

-- `unreachable!` at a blank node.
unfoldable pub key_of : TreeNode → Option NodePublicKey
key_of blank = none
key_of (leaf p) = some p.public_key
key_of (parent k) = some k

unfoldable pub node_public_key : List TreeNode → ℕ → Option NodePublicKey
unfolding key_of
node_public_key nodes node = elim (get_elem? nodes node) [ none ↦ none | some n ↦ key_of n ]
