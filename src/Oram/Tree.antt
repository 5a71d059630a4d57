-- ===== src/Oram/Tree.antt =====
-- crates/oram/src/lib.rs: the path of a leaf (`path_nodes`) and the test for a node on it.
use novachannel.Common.{
  ℕ, zero, suc, ◌+◌, ◌*◌, ◌/◌, ◌^◌, ◌≤◌, ◌<◌, ◌≡◌, refl, ap, inl, inr, false, List, [], ◌∷◌, ltb,
  Bool-cases, arith, length, All, contains, lt→ltb,
}
use native.Mathlib.Nat.{pow-suc, one-le-pow}
use novachannel.Oram.{path_from, path_nodes, meets, is_ancestor_of_leaf}

-- `climbs` stops at the root and at the node alike, and says which came first.
meets-contains :
    (fuel n node : ℕ) → 1 ≤ n → n ≤ fuel → meets fuel n node ≡ contains (path_from fuel n) node
unfolding meets path_from
meets-contains zero n node lo hi = absurd (omega arith)
meets-contains (suc fuel) n node lo hi = elim (Bool-cases (ltb 1 n)) [
  | inl more ↦ ground (arith, meets-contains fuel (n / 2) node (ground arith) (ground arith))
  | inr last ↦ ground arith
]

-- The test says exactly whether the node lies on the path of the leaf.
pub is_ancestor_of_leaf-contains :
    (num_leaves node leaf : ℕ)
    → 1 ≤ num_leaves
    → is_ancestor_of_leaf num_leaves node leaf ≡ contains (path_nodes num_leaves leaf) node
unfolding is_ancestor_of_leaf path_nodes
is_ancestor_of_leaf-contains num_leaves node leaf h =
    meets-contains (num_leaves + leaf) (num_leaves + leaf) node (omega arith) (omega arith)

-- A path falls from its first node to the root.
abbrev pub Falls : ℕ → List ℕ → Type 0
Falls top [] = Unit
Falls top (n ∷ ns) = (n < top) × (1 ≤ n) × Falls n ns

path_from-Falls : (fuel n top : ℕ) → 1 ≤ n → n < top → Falls top (path_from fuel n)
unfolding path_from
path_from-Falls zero n top lo hi = tt
path_from-Falls (suc fuel) n top lo hi = elim (Bool-cases (ltb 1 n)) [
  | inl more ↦ rw more (hi, lo, path_from-Falls fuel (n / 2) n (ground arith) (ground arith))
  | inr last ↦ rw last (hi, lo, tt)
]

pub path_nodes-Falls :
    (num_leaves leaf : ℕ)
    → 1 ≤ num_leaves
    → leaf < num_leaves
    → Falls (2 * num_leaves) (path_nodes num_leaves leaf)
unfolding path_nodes
path_nodes-Falls num_leaves leaf lo hi =
    path_from-Falls (num_leaves + leaf) (num_leaves + leaf) (2 * num_leaves) (omega arith)
      (omega arith)

pub Falls-lt : (top : ℕ) (ns : List ℕ) → Falls top ns → All (λ n. n < top) ns
Falls-lt top [] h = tt
Falls-lt top (n ∷ ns) h = (h.0, weaken ns (Falls-lt n ns h.2))
  where
    weaken : (ns : List ℕ) → All (λ k. k < n) ns → All (λ k. k < top) ns
    weaken [] k = tt
    weaken (x ∷ xs) k = (omega arith, weaken xs k.1)

pub Falls-contains : (top n : ℕ) (ns : List ℕ) → Falls top ns → top ≤ n → contains ns n ≡ false
Falls-contains top n [] f h = refl
Falls-contains top n (x ∷ ns) f h = ground (arith, Falls-contains x n ns f.2)

length-path_from :
    (depth fuel n : ℕ)
    → n ≤ fuel
    → 2 ^ depth ≤ n
    → n < 2 ^ suc depth
    → length (path_from fuel n) ≡ suc depth
unfolding path_from
length-path_from depth zero n enough lo hi = absurd (omega (arith, one-le-pow depth 2))
length-path_from zero (suc fuel) n enough lo hi = ground arith
length-path_from (suc depth) (suc fuel) n enough lo hi =
    let more : 1 < n = omega (arith, pow-suc 2 depth, one-le-pow depth 2) in
    rw (lt→ltb 1 n more) (
      ap suc (
        length-path_from depth fuel (n / 2) (omega arith) (omega (arith, pow-suc 2 depth))
          (omega (arith, pow-suc 2 (suc depth)))))

-- Every path of a tree of the given depth has `depth + 1` nodes.
pub length-path_nodes :
    (depth leaf : ℕ) → leaf < 2 ^ depth → length (path_nodes (2 ^ depth) leaf) ≡ suc depth
unfolding path_nodes
length-path_nodes depth leaf h =
    length-path_from depth (2 ^ depth + leaf) (2 ^ depth + leaf) (omega arith) (omega arith)
      (omega (arith, pow-suc 2 depth))
