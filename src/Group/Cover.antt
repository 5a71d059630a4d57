-- ===== src/Group/Cover.antt =====
-- crates/core/src/group.rs: the resolution of a node stands for each member below the node exactly once.
use novachannel.Common.{
  ℕ, zero, suc, ◌+◌, ◌-◌, ◌*◌, ◌/◌, ◌≤◌, ◌<◌, ◌≡◌, ◌≢◌, refl, ap, sym, ◌∙◌, subst, Bool, true,
  false, Option, some, List, [], ◌∷◌, ◌++◌, arith, length, get_or, All, All-append, Bool-cases, inl,
  inr, ◌⊎◌, get_elem?-get_or,
}
use novachannel.Group.Keys.{TreeNode, blank, leaf, parent}
use novachannel.Group.Index.{is_leaf}
use novachannel.Group.Resolution.{both, resolve_node, resolution_from, resolution}
use novachannel.Group.State.{is_blank}
use novachannel.Group.Paths.{
  is_above, one_if, is_above_children, is_above-le, is_above-suc, is_above_self, is_above_trans,
  is_above-zero,
}

-- How many of the nodes are `x` or lie above it.
abbrev pub hits : List ℕ → ℕ → ℕ
hits [] x = 0
hits (t ∷ ts) x = one_if (is_above t x) + hits ts x

hits-append : (ts us : List ℕ) (x : ℕ) → hits (ts ++ us) x ≡ hits ts x + hits us x
hits-append [] us x = omega arith
hits-append (t ∷ ts) us x = omega (arith, hits-append ts us x)

-- A node other than `x` above it has at most half the index.
pub is_above-half : (t x : ℕ) → is_above t x ≡ true → t ≢ x → 2 * t + 1 ≤ x
is_above-half t zero a h = ground (arith, is_above-zero t)
is_above-half t (suc y) a h = ground (arith, is_above-suc t y, is_above-le t (y / 2))

pub child_left : (node : ℕ) → is_above node (2 * node + 1) ≡ true
child_left node =
    let next : 2 * node + 1 ≡ suc (2 * node) = omega arith in
    let half : 2 * node / 2 ≡ node = omega arith in
    rw next (ground (arith, is_above-suc node (2 * node), is_above_self node))

pub child_right : (node : ℕ) → is_above node (2 * node + 2) ≡ true
child_right node =
    let next : 2 * node + 2 ≡ suc (2 * node + 1) = omega arith in
    let half : (2 * node + 1) / 2 ≡ node = omega arith in
    rw next (ground (arith, is_above-suc node (2 * node + 1), is_above_self node))

lift_below :
    (a b : ℕ) (ts : List ℕ)
    → is_above a b ≡ true
    → All (λ t. is_above b t ≡ true) ts
    → All (λ t. is_above a t ≡ true) ts
lift_below a b [] h k = tt
lift_below a b (t ∷ ts) h (k, ks) = (is_above_trans a b t h k, lift_below a b ts h ks)

abbrev pub IsFilled : List TreeNode → ℕ → Type 0
IsFilled nodes x = is_blank (get_or nodes x blank) ≡ false

pub blank_or_filled : (n : TreeNode) → (n ≡ blank) ⊎ (is_blank n ≡ false)
unfolding is_blank
blank_or_filled blank = inl refl
blank_or_filled (leaf p) = inr refl
blank_or_filled (parent k) = inr refl

resolve_node-filled :
    (n : TreeNode) (node : ℕ) (at_leaf : Bool) (below : Option (List ℕ))
    → is_blank n ≡ false
    → resolve_node n node at_leaf below ≡ some (node ∷ [])
unfolding resolve_node is_blank
resolve_node-filled blank node at_leaf below f = absurd (cc)
resolve_node-filled (leaf p) node at_leaf below f = refl
resolve_node-filled (parent k) node at_leaf below f = refl

is_leaf-le : (capacity node : ℕ) → is_leaf capacity node ≡ true → capacity - 1 ≤ node
unfolding is_leaf
is_leaf-le capacity node h = ground arith

not-is_leaf : (capacity node : ℕ) → is_leaf capacity node ≡ false → node < capacity - 1
unfolding is_leaf
not-is_leaf capacity node h = ground arith

resolution_from-step :
    (nodes : List TreeNode) (capacity fuel node : ℕ)
    → node < length nodes
    → resolution_from (suc fuel) nodes capacity node
      ≡ resolve_node (get_or nodes node blank) node (is_leaf capacity node) (
          both
            (resolution_from fuel nodes capacity (2 * node + 1))
            (resolution_from fuel nodes capacity (2 * node + 2)))
unfolding resolution_from
resolution_from-step nodes capacity fuel node inside =
    rw (get_elem?-get_or nodes node blank inside, resolution_from) refl

module _ (nodes : List TreeNode) (capacity : ℕ) where
  -- Each filled leaf below `node` lies below exactly one of the nodes, and no other filled leaf lies below
  -- any; all of the nodes are filled.
  pub record Covers (node : ℕ) (ts : List ℕ) : Type 0 where
    pub once :
        (x : ℕ)
        → capacity - 1 ≤ x
        → x < length nodes
        → IsFilled nodes x
        → hits ts x ≡ one_if (is_above node x)
    pub filled : All (IsFilled nodes) ts
    pub below : All (λ t. is_above node t ≡ true) ts

  Covers-itself : (node : ℕ) → IsFilled nodes node → Covers node (node ∷ [])
  Covers-itself node f = record {
    once = λ x h k e. omega arith;
    filled = (f, tt);
    below = (is_above_self node, tt);
  }

  module _ (size : length nodes ≡ 2 * capacity - 1) where
    not_filled : (node x : ℕ) → get_or nodes node blank ≡ blank → IsFilled nodes x → node ≢ x
    unfolding is_blank
    not_filled node x e filled same =
        let here : IsFilled nodes node = subst (IsFilled nodes) (sym same) filled in
        let empty : is_blank (get_or nodes node blank) ≡ true = ap is_blank e in absurd (cc)

    Covers-blank_leaf :
        (node : ℕ) → get_or nodes node blank ≡ blank → capacity - 1 ≤ node → Covers node []
    Covers-blank_leaf node e h = record {
      once = λ x low high filled. elim (Bool-cases (is_above node x)) [
        | inr below ↦ rw below refl
        | inl above ↦
            let half = is_above-half node x above (not_filled node x e filled) in
            absurd (omega arith)
      ];
      filled = tt;
      below = tt;
    }

    Covers-blank :
        (node : ℕ) (ts us : List ℕ)
        → get_or nodes node blank ≡ blank
        → Covers (2 * node + 1) ts
        → Covers (2 * node + 2) us
        → Covers node (ts ++ us)
    Covers-blank node ts us e l r = record {
      once = λ x low high filled. omega (
        arith,
        hits-append ts us x,
        l.once x low high filled,
        r.once x low high filled,
        is_above_children node x (not_filled node x e filled),
      );
      filled = All-append (IsFilled nodes) ts us l.filled r.filled;
      below =
          All-append _ ts us (lift_below node (2 * node + 1) ts (child_left node) l.below)
            (lift_below node (2 * node + 2) us (child_right node) r.below);
    }

    resolution_from-Covers :
        (fuel node : ℕ)
        → node < length nodes
        → length nodes ≤ fuel + node
        → (ts : List ℕ) × (resolution_from fuel nodes capacity node ≡ some ts) × Covers node ts
    unfolding resolve_node both
    resolution_from-Covers zero node inside enough = absurd (omega arith)
    resolution_from-Covers (suc fuel) node inside enough =
        let step = resolution_from-step nodes capacity fuel node inside in
        let n = get_or nodes node blank in
        let at_leaf = is_leaf capacity node in
        elim (blank_or_filled n) [
          | inr f ↦ (node ∷ [], step ∙ resolve_node-filled n node at_leaf _ f, Covers-itself node f)
          | inl e ↦ elim (Bool-cases at_leaf) [
            | inl low ↦ (
              [],
              rw (step, e, low, resolve_node) refl,
              Covers-blank_leaf node e (is_leaf-le capacity node low),
            )
            | inr inner ↦
                let room = not-is_leaf capacity node inner in
                let (ts, p, l) =
                  resolution_from-Covers fuel (2 * node + 1) (omega arith) (omega arith) in
                let (us, q, r) =
                  resolution_from-Covers fuel (2 * node + 2) (omega arith) (omega arith) in
                (
                  ts ++ us,
                  rw (step, e, inner, resolve_node, p, q, both) refl,
                  Covers-blank node ts us e l r,
                )
          ]
        ]

    -- In a tree of 2 * capacity - 1 nodes the resolution of a node does not run out of its fuel or
    -- of the tree, and stands for the members below the node: each filled leaf is below exactly one
    -- of the resolved nodes if it is below the node, and else below none; all of them are filled
    -- and lie below the node.
    pub resolution-Covers :
        (node : ℕ)
        → node < length nodes
        → (ts : List ℕ) × (resolution nodes capacity node ≡ some ts) × Covers node ts
    unfolding resolution
    resolution-Covers node inside = resolution_from-Covers (length nodes) node inside (omega arith)
