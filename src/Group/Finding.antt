-- ===== src/Group/Finding.antt =====
-- crates/core/src/group.rs: which level of a commit's path a member can open.
use novachannel.Common.{
  ℕ, zero, suc, ◌+◌, ◌-◌, ◌*◌, ◌/◌, ◌≤◌, ◌<◌, ◌≡◌, ap, subst, true, Option, none, some, List, [],
  ◌∷◌, arith, ◌==◌, ==_iff, length, drop, All, inl, inr, Result, ok, Bytes, Option-cases,
}
use novachannel.Common.Fallible.{Ensures, returns, refuses, Ensures-if, Ensures-then}
use novachannel.Errors.{Error}
use novachannel.Crypto.{Primitives}
use novachannel.Group.Index.{ancestors}
use novachannel.Group.Keys.{TreeNode}
use novachannel.Group.Sealing.{SealedToNode}
use novachannel.Group.Messages.{UpdatePathNode}
use novachannel.Group.State.{Group}
use novachannel.Group.Commits.{open_as, open_as_any, find_from}
use novachannel.Group.Paths.{
  is_above, is_above_self, is_above_trans, All-ancestors, ancestors-suc, ancestors-zero,
}
use novachannel.Group.Cover.{resolution-Covers, IsFilled}
use novachannel.Group.Invariant.{IsGroup, my_node, sibling-lt}
use novachannel.Group.Learning.{
  Always, strengthen, derive_node_keypair-Ensures, opened_secret-Ensures,
}

-- A secret was opened as one of the nodes, which is the member's own or lies above it.
abbrev pub OpenedAs : Group → (ℕ → Type 0) → Option Bytes → Type 0
OpenedAs g P none = Unit
OpenedAs g P (some secret) = (t : ℕ) × P t × (is_above t (my_node g) ≡ true)

module _ (prim : Primitives) {g : Group} (v : IsGroup g) where
  open_as-Ensures :
      (t : ℕ) (cts : List SealedToNode) (P : ℕ → Type 0)
      → P t
      → Ensures (OpenedAs g P) (open_as prim g t cts)
  unfolding open_as
  open_as-Ensures t cts P h =
      Ensures-if (t == my_node g)
        (λ mine.
          let up : is_above t (my_node g) ≡ true =
            subst (λ m. is_above t m ≡ true) ((==_iff _ _).0 mine) (is_above_self t) in
          elim (Option-cases g.my_leaf_keys) [
            | inl e ↦ rw e (returns tt)
            | inr ((dh, kem), e) ↦
                rw e (strengthen (opened_secret-Ensures prim dh kem cts) (opened t h up))
          ])
        (λ other. elim (Option-cases (g.known_secrets t)) [
          | inl e ↦ rw e (returns tt)
          | inr (known, e) ↦ rw e (
              Ensures-then (derive_node_keypair-Ensures prim known) (λ k d w.
                strengthen (opened_secret-Ensures prim k.dh_secret k.kem_secret cts)
                  (opened t h (v.known_above t known e))))
        ])
    where
      opened :
          (t : ℕ)
          → P t
          → is_above t (my_node g) ≡ true
          → (found : Option Bytes) → Always found
          → OpenedAs g P found
      opened t h up none w = tt
      opened t h up (some secret) w = (t, h, up)

  open_as_any-Ensures :
      (cts : List SealedToNode) (P : ℕ → Type 0) (ts : List ℕ)
      → All P ts
      → Ensures (OpenedAs g P) (open_as_any prim g cts ts)
  unfolding open_as_any
  open_as_any-Ensures cts P [] h = returns tt
  open_as_any-Ensures cts P (t ∷ ts) (h, hs) =
      Ensures-then (open_as-Ensures t cts P h) (λ found e opened.
        elim found
            as (λ o.
              OpenedAs g P o
              → Ensures (OpenedAs g P) (elim o as (λ _. Result Error (Option Bytes)) [
                | none ↦ open_as_any prim g cts ts
                | some secret ↦ ok (some secret)
              ])) [ none ↦ λ _. open_as_any-Ensures cts P ts hs | some secret ↦ λ o. returns o ]
          opened)

  All-and : (P Q : ℕ → Type 0) (ts : List ℕ) → All P ts → All Q ts → All (λ t. P t × Q t) ts
  All-and P Q [] p q = tt
  All-and P Q (t ∷ ts) (p, ps) (q, qs) = ((p, q), All-and P Q ts ps qs)

  -- The level is one of the path's, and it and those behind it lie above the member; the node that the
  -- member opened it as is filled.
  pub record Found (nodes : List TreeNode) (i : ℕ) (path : List ℕ) (r : ℕ × Bytes) : Type 0 where
    pub from : i ≤ r.0
    pub within : r.0 < i + length path
    pub above : All (λ d. is_above d (my_node g) ≡ true) (drop (r.0 - i) path)
    pub node : ℕ
    pub filled : IsFilled nodes node
    pub opened : is_above node (my_node g) ≡ true

  pub find_from-Ensures :
      (nodes : List TreeNode)
      → length nodes ≡ 2 * g.capacity - 1
      → (fuel prev i : ℕ) (commit_path : List UpdatePathNode) → prev ≤ fuel
      → prev < 2 * g.capacity - 1
      → length (ancestors fuel prev) ≡ length commit_path
      → Ensures
          (Found nodes i (ancestors fuel prev))
          (find_from prim g nodes prev i (ancestors fuel prev) commit_path)
  unfolding find_from
  find_from-Ensures nodes size fuel zero i cp h k same = rw (ancestors-zero fuel) refuses
  find_from-Ensures nodes size zero (suc y) i cp h k same = absurd (omega arith)
  find_from-Ensures nodes size (suc fuel) (suc y) i [] h k same =
      absurd (omega (arith, ap length (ancestors-suc fuel y)))
  find_from-Ensures nodes size (suc fuel) (suc y) i (n ∷ cp) h k same =
      let rest = ancestors fuel (y / 2) in
      let (s, at, inside, under) = sibling-lt g.capacity y k in
      let (ts, res, c) = resolution-Covers nodes g.capacity size s (omega arith) in
      let later =
        find_from-Ensures nodes size fuel (y / 2) (suc i) cp (omega arith) (omega arith)
          (omega (arith, ap length (ancestors-suc fuel y))) in
      rw (ancestors-suc fuel y, at, res)
        (Ensures-then
          (open_as_any-Ensures n.ciphertexts (λ t. IsFilled nodes t × (is_above s t ≡ true)) ts
            (All-and (IsFilled nodes) (λ t. is_above s t ≡ true) ts c.filled c.below))
          (λ found e opened.
            elim found
                as (λ o.
                  OpenedAs g (λ t. IsFilled nodes t × (is_above s t ≡ true)) o
                  → Ensures (Found nodes i (y / 2 ∷ rest))
                      (elim o as (λ _. Result Error (ℕ × Bytes)) [
                        | none ↦ find_from prim g nodes (y / 2) (suc i) rest cp
                        | some secret ↦ ok (i, secret)
                      ])) [
                        | none ↦ λ _. strengthen later (λ r f. record {
                          from = omega (arith, f.from);
                          within = omega (arith, f.within);
                          above =
                              let next : r.0 - i ≡ suc (r.0 - suc i) = omega (arith, f.from) in
                              rw next f.above;
                          node = f.node;
                          filled = f.filled;
                          opened = f.opened;
                        })
                        | some secret ↦ λ (t, (full, below), up).
                            let joined = is_above_trans s t (my_node g) below up in
                            let top = is_above_trans (y / 2) s (my_node g) under joined in
                            returns record {
                              from = omega arith;
                              within = omega arith;
                              above =
                                  let none_left : i - i ≡ 0 = omega arith in
                                  rw none_left
                                    (top, All-ancestors fuel (y / 2) (my_node g) (omega arith) top);
                              node = t;
                              filled = full;
                              opened = up;
                            }
                      ]
              opened))
