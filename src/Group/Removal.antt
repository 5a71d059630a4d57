-- ===== src/Group/Removal.antt =====
-- crates/core/src/group.rs: a removed member is not a target of any later path, and cannot follow.
use novachannel.Common.{
  ℕ, ◌≡◌, refl, ap, sym, ◌∙◌, subst, true, List, [], ◌∷◌, arith, ◌==◌, ==_iff, get_or,
  get_or-set_default, get_or-set_other, set, contains, Bool-cases, inl, inr, ok, err,
}
use novachannel.Common.Fallible.{Ensures-cases}
use novachannel.Errors.{Error}
use novachannel.Crypto.{Primitives}
use novachannel.Group.Index.{leaf_to_node, direct_path}
use novachannel.Group.Keys.{TreeNode, blank}
use novachannel.Group.Messages.{remove, Commit}
use novachannel.Group.State.{Group, spliced, blank_all, is_blank}
use novachannel.Group.Commits.{apply_commit}
use novachannel.Group.Paths.{is_above, is_above_lem}
use novachannel.Group.Invariant.{IsGroup}
use novachannel.Group.Accepts.{learn-Ensures}

set-blank :
    (nodes : List TreeNode) (n t : ℕ)
    → get_or nodes t blank ≡ blank
    → get_or (set nodes n blank) t blank ≡ blank
set-blank nodes n t h = elim (Bool-cases (n == t)) [
  | inl here ↦
      subst (λ m. get_or (set nodes n blank) m blank ≡ blank) ((==_iff n t).0 here)
        (get_or-set_default nodes n blank)
  | inr there ↦ get_or-set_other nodes n t blank blank (λ e. absurd (ground arith)) ∙ h
]

blank_all_keeps :
    (path : List ℕ) (nodes : List TreeNode) (t : ℕ)
    → get_or nodes t blank ≡ blank
    → get_or (blank_all path nodes) t blank ≡ blank
unfolding blank_all
blank_all_keeps [] nodes t h = h
blank_all_keeps (n ∷ path) nodes t h =
    blank_all_keeps path (set nodes n blank) t (set-blank nodes n t h)

pub blank_all-contains :
    (path : List ℕ) (nodes : List TreeNode) (t : ℕ)
    → contains path t ≡ true
    → get_or (blank_all path nodes) t blank ≡ blank
unfolding blank_all
blank_all-contains [] nodes t h = absurd (cc)
blank_all-contains (n ∷ path) nodes t h = elim (Bool-cases (t == n)) [
  | inl here ↦ blank_all_keeps path (set nodes n blank) t (
      subst (λ m. get_or (set nodes n blank) m blank ≡ blank) (sym ((==_iff t n).0 here))
        (get_or-set_default nodes n blank))
  | inr there ↦ blank_all-contains path (set nodes n blank) t (ground arith)
]

-- After a removal, the leaf and all nodes above it are blank.
pub spliced-remove :
    (g : Group) (i : ℕ) (nodes : List TreeNode)
    → spliced g (remove i) ≡ ok nodes
    → (t : ℕ) → is_above t (leaf_to_node g.capacity i) ≡ true
    → get_or nodes t blank ≡ blank
unfolding spliced direct_path
spliced-remove g i nodes h t above =
    let node = leaf_to_node g.capacity i in
    let path = direct_path g.capacity i in
    let tree = set g.nodes node blank in
    let spliced_to : blank_all path tree ≡ nodes = ground arith in
    subst (λ ns. get_or ns t blank ≡ blank) spliced_to
      (elim (Bool-cases (t == node)) [
        | inl here ↦ blank_all_keeps path tree t (
            subst (λ m. get_or tree m blank ≡ blank) (sym ((==_iff t node).0 here))
              (get_or-set_default g.nodes node blank))
        | inr there ↦ blank_all-contains path tree t (ground (arith, is_above_lem t node))
      ])

-- A well-formed member refuses, with an error and nothing changed, every commit that removes the
-- member itself, whoever made and signed it: of the tree after the removal it can open no level of
-- a path.
pub apply_commit-remove :
    (prim : Primitives) {g : Group} (v : IsGroup g) (c : Commit)
    → c.op ≡ remove g.my_leaf
    → (e : Error) × (apply_commit prim c g ≡ (err e, g))
unfolding apply_commit is_blank
apply_commit-remove prim {g} v c removes = elim (Ensures-cases (learn-Ensures prim v c)) [
  | inl (e, refused) ↦ (e, rw refused refl)
  | inr (l, learned, a) ↦
      let splice = ap (spliced g) (sym removes) ∙ a.splice in
      let empty =
        spliced-remove g g.my_leaf l.pre_commit_nodes splice a.opening.node a.opening.opened in
      absurd (cc (ap is_blank empty, a.opening.filled))
]
