-- ===== src/Group/Paths.antt =====
-- crates/core/src/group.rs: which nodes lie above a node, and the path of a leaf.

use novachannel.Common.{
  ℕ, zero, suc, ◌+◌, ◌*◌, ◌/◌, ◌≤◌, ◌≡◌, ◌≢◌, refl, ap, sym, ◌∙◌, subst, Bool, true, false, ◌||◌,
  none, some, List, [], ◌∷◌, arith, ◌==◌, contains, All, Bool-cases, inl, inr, ==_iff,
}
use novachannel.Group.Index.{parent, ancestors}

-- A node and the nodes above it.
abbrev pub lineage : ℕ → ℕ → List ℕ
lineage fuel x = x ∷ ancestors fuel x

-- Whether `t` is the node `x` or lies above it.
pub is_above : ℕ → ℕ → Bool
is_above t x = contains (lineage x x) t

abbrev pub one_if : Bool → ℕ
one_if true = 1
one_if false = 0

pub parent-suc : (y : ℕ) → parent (suc y) ≡ some (y / 2)
unfolding parent
parent-suc y = ground arith

parent-zero : parent 0 ≡ none
unfolding parent
parent-zero = refl

pub ancestors-zero : (fuel : ℕ) → ancestors fuel 0 ≡ []
unfolding ancestors
ancestors-zero zero = refl
ancestors-zero (suc fuel) = rw (parent-zero, ancestors) refl

pub ancestors-suc : (fuel y : ℕ) → ancestors (suc fuel) (suc y) ≡ y / 2 ∷ ancestors fuel (y / 2)
unfolding ancestors
ancestors-suc fuel y = rw (parent-suc y, ancestors) refl

-- Any fuel that is at least the node gives the same path.
pub ancestors_enough : (f f' x : ℕ) → x ≤ f → x ≤ f' → ancestors f x ≡ ancestors f' x
ancestors_enough f f' zero h h' = ancestors-zero f ∙ sym (ancestors-zero f')
ancestors_enough zero f' (suc y) h h' = absurd (omega arith)
ancestors_enough (suc f) zero (suc y) h h' = absurd (omega arith)
ancestors_enough (suc f) (suc f') (suc y) h h' =
    ancestors-suc f y
    ∙ ap (λ rest. y / 2 ∷ rest) (ancestors_enough f f' (y / 2) (omega arith) (omega arith))
    ∙ sym (ancestors-suc f' y)

pub is_above_lem : (t x : ℕ) → is_above t x ≡ (t == x || contains (ancestors x x) t)
unfolding is_above
is_above_lem t x = refl

pub is_above-zero : (t : ℕ) → is_above t 0 ≡ (t == 0)
unfolding is_above
is_above-zero t = rw (ancestors-zero 0) (ground arith)

pub is_above-suc : (t y : ℕ) → is_above t (suc y) ≡ (t == suc y || is_above t (y / 2))
unfolding is_above
is_above-suc t y =
    ap (λ path. t == suc y || contains path t)
      (ancestors-suc y y
        ∙ ap (λ rest. y / 2 ∷ rest)
            (ancestors_enough y (y / 2) (y / 2) (omega arith) (omega arith)))

-- What lies above a node has no larger index.
is_above_le_fuel : (fuel t x : ℕ) → x ≤ fuel → is_above t x ≡ true → t ≤ x
is_above_le_fuel fuel t zero h a = ground (arith, is_above-zero t)
is_above_le_fuel zero t (suc y) h a = absurd (omega arith)
is_above_le_fuel (suc fuel) t (suc y) h a =
    ground (arith, is_above-suc t y, is_above_le_fuel fuel t (y / 2))

pub is_above-le : (t x : ℕ) → is_above t x ≡ true → t ≤ x
is_above-le t x a = is_above_le_fuel x t x (omega arith) a

pub is_above_self : (x : ℕ) → is_above x x ≡ true
unfolding is_above
is_above_self x = ground arith

-- A node lies above another exactly if one of its two children does.
children_fuel :
    (fuel node x : ℕ)
    → x ≤ fuel
    → node ≢ x
    → one_if (is_above node x)
      ≡ one_if (is_above (2 * node + 1) x) + one_if (is_above (2 * node + 2) x)
children_fuel fuel node zero h apart =
    ground (arith, is_above-zero node, is_above-zero (2 * node + 1), is_above-zero (2 * node + 2))
children_fuel zero node (suc y) h apart = absurd (omega arith)
children_fuel (suc fuel) node (suc y) h apart = elim (Bool-cases (node == y / 2)) [
  | inl here ↦
      let up : is_above node (y / 2) ≡ true =
        subst (λ p. is_above node p ≡ true) ((==_iff _ _).0 here) (is_above_self node) in
      ground (
        arith,
        is_above-suc node y,
        is_above-suc (2 * node + 1) y,
        is_above-suc (2 * node + 2) y,
        is_above-le (2 * node + 1) (y / 2),
        is_above-le (2 * node + 2) (y / 2),
      )
  | inr there ↦ ground (
    arith,
    is_above-suc node y,
    is_above-suc (2 * node + 1) y,
    is_above-suc (2 * node + 2) y,
    children_fuel fuel node (y / 2),
  )
]

pub is_above_children :
    (node x : ℕ)
    → node ≢ x
    → one_if (is_above node x)
      ≡ one_if (is_above (2 * node + 1) x) + one_if (is_above (2 * node + 2) x)
is_above_children node x = children_fuel x node x (omega arith)

trans_fuel :
    (fuel a b c : ℕ) → c ≤ fuel → is_above a b ≡ true → is_above b c ≡ true → is_above a c ≡ true
trans_fuel fuel a b zero h p q =
    let root : b ≡ 0 = ground (arith, is_above-zero b) in subst (λ r. is_above a r ≡ true) root p
trans_fuel zero a b (suc y) h p q = absurd (omega arith)
trans_fuel (suc fuel) a b (suc y) h p q = elim (Bool-cases (b == suc y)) [
  | inl here ↦ subst (λ r. is_above a r ≡ true) ((==_iff _ _).0 here) p
  | inr there ↦
      let up : is_above b (y / 2) ≡ true = ground (arith, is_above-suc b y) in
      ground (arith, is_above-suc a y, trans_fuel fuel a b (y / 2) (omega arith) p up)
]

pub is_above_trans : (a b c : ℕ) → is_above a b ≡ true → is_above b c ≡ true → is_above a c ≡ true
is_above_trans a b c = trans_fuel c a b c (omega arith)

-- The parent of a node above another lies above it too.
pub is_above-half_up : (y x : ℕ) → is_above (suc y) x ≡ true → is_above (y / 2) x ≡ true
is_above-half_up y x h =
    let self = is_above_self (y / 2) in
    let step : is_above (y / 2) (suc y) ≡ true = ground (arith, is_above-suc (y / 2) y) in
    is_above_trans (y / 2) (suc y) x step h

pub All-ancestors :
    (fuel n x : ℕ)
    → n ≤ fuel
    → is_above n x ≡ true
    → All (λ d. is_above d x ≡ true) (ancestors fuel n)
All-ancestors fuel zero x h a = rw (ancestors-zero fuel) tt
All-ancestors zero (suc y) x h a = absurd (omega arith)
All-ancestors (suc fuel) (suc y) x h a =
    let up = is_above-half_up y x a in
    rw (ancestors-suc fuel y) (up, All-ancestors fuel (y / 2) x (omega arith) up)

root_fuel : (fuel x : ℕ) → x ≤ fuel → is_above 0 x ≡ true
root_fuel fuel zero h = is_above_self 0
root_fuel zero (suc y) h = absurd (omega arith)
root_fuel (suc fuel) (suc y) h =
    ground (arith, is_above-suc 0 y, root_fuel fuel (y / 2) (omega arith))

pub is_above_root : (x : ℕ) → is_above 0 x ≡ true
is_above_root x = root_fuel x x (omega arith)
