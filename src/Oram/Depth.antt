-- ===== src/Oram/Depth.antt =====
-- crates/oram/src/lib.rs: `depth_for_capacity` finds the smallest tree.
use novachannel.Common.{
  ℕ, zero, suc, ◌+◌, ◌-◌, ◌*◌, ◌/◌, ◌^◌, ◌≤◌, ◌<◌, ◌≡◌, refl, ap, sym, subst, ◌∙◌, ◌⊎◌, inl, inr,
  none, some, ltb, leb, Bool-cases, le→leb, leb→le, lt→ltb, arith, max,
}
use native.Mathlib.Nat.{pow-suc, one-le-pow}
use novachannel.Oram.{depth_for_capacity, next_power_from, ilog2_fuel, max_depth}

-- `j` is the least exponent from `k` on whose power of two reaches `n`.
record Least (k n j : ℕ) : Type 0 where
  reaches : n ≤ 2 ^ j
  least : (j ≡ k) ⊎ (2 ^ (j - 1) < n)
  above : k ≤ j

next_power_from-Least :
    (fuel k n : ℕ)
    → n ≤ 2 ^ (k + fuel)
    → (j : ℕ) × (next_power_from fuel (2 ^ k) n ≡ 2 ^ j) × Least k n j × (j ≤ k + fuel)
unfolding next_power_from
next_power_from-Least zero k n h =
    let e : k + 0 ≡ k = omega arith in
    (
      k,
      refl,
      record { reaches = subst (λ t. n ≤ 2 ^ t) e h; least = inl refl; above = omega arith },
      omega arith,
    )
next_power_from-Least (suc fuel) k n h = elim (Bool-cases (leb n (2 ^ k))) [
  | inl done ↦ (
    k,
    rw done refl,
    record { reaches = leb→le n (2 ^ k) done; least = inl refl; above = omega arith },
    omega arith,
  )
  | inr more ↦
      let e : k + suc fuel ≡ suc k + fuel = omega arith in
      let (j, run, l, bound) = next_power_from-Least fuel (suc k) n (subst (λ t. n ≤ 2 ^ t) e h) in
      let doubled : 2 * 2 ^ k ≡ 2 ^ suc k = omega (arith, pow-suc 2 k) in
      (
        j,
        rw more (ap (λ p. next_power_from fuel p n) doubled ∙ run),
        record {
          reaches = l.reaches;
          least = inr (below j l (ground arith));
          above = omega (arith, l.above);
        },
        omega (arith, bound),
      )
]
  where
    below : (j : ℕ) → Least (suc k) n j → 2 ^ k < n → 2 ^ (j - 1) < n
    below j l lt = elim l.least [
      | inl e ↦ let p : j - 1 ≡ k = omega arith in subst (λ t. 2 ^ t < n) (sym p) lt
      | inr lt' ↦ lt'
    ]

ilog2_fuel-pow : (fuel j : ℕ) → j ≤ fuel → ilog2_fuel fuel (2 ^ j) ≡ j
unfolding ilog2_fuel
ilog2_fuel-pow zero zero h = refl
ilog2_fuel-pow zero (suc j) h = elim h [ ]
ilog2_fuel-pow (suc fuel) zero h = refl
ilog2_fuel-pow (suc fuel) (suc j) h =
    let halved : 2 ^ suc j / 2 ≡ 2 ^ j = omega (arith, pow-suc 2 j) in
    rw (lt→ltb 1 (2 ^ suc j) (omega (arith, pow-suc 2 j, one-le-pow j 2)))
      (ap suc (ap (ilog2_fuel fuel) halved ∙ ilog2_fuel-pow fuel j (omega arith)))

two_pow_mono : (a k : ℕ) → 2 ^ a ≤ 2 ^ (a + k)
two_pow_mono a zero = subst (λ t. 2 ^ a ≤ 2 ^ t) (sym same) (omega arith)
  where
    same : a + 0 ≡ a
    same = omega arith
two_pow_mono a (suc k) =
    subst (λ t. 2 ^ a ≤ 2 ^ t) (sym next) (omega (arith, two_pow_mono a k, pow-suc 2 (a + k)))
  where
    next : a + suc k ≡ suc (a + k)
    next = omega arith

Least-le : (n j : ℕ) → n ≤ 2 ^ 40 → ((j ≡ 0) ⊎ (2 ^ (j - 1) < n)) → j ≤ 40
Least-le n j small (inl e) = omega arith
Least-le n j small (inr lt) = elim (Bool-cases (leb j 40)) [
  | inl fits ↦ leb→le j 40 fits
  | inr deep ↦
      let k = j - 1 - 40 in
      let e : 40 + k ≡ j - 1 = ground arith in
      absurd (omega (arith, two_pow_mono 40 k, ap (λ t. 2 ^ t) e))
]

depth_of :
    (n j : ℕ)
    → n ≤ 2 ^ 40
    → next_power_from 64 1 (max n 1) ≡ 2 ^ j
    → Least 0 (max n 1) j
    → j ≤ 64
    → (d : ℕ) × (depth_for_capacity n ≡ some d)
      × (n ≤ 2 ^ d)
      × (d ≤ 40)
      × ((d ≡ 0) ⊎ (2 ^ (d - 1) < n))
unfolding depth_for_capacity
depth_of n j small run l bound = (
  j,
  rw (le→leb n (2 ^ 40) small, run, ilog2_fuel-pow 64 j bound) refl,
  omega (arith, l.reaches),
  Least-le n j small smallest,
  smallest,
)
  where
    smallest : (j ≡ 0) ⊎ (2 ^ (j - 1) < n)
    smallest = elim l.least [
      | inl e ↦ inl e
      | inr lt ↦ elim (Bool-cases (ltb 1 n)) [
        | inl more ↦ inr (ground arith)
        | inr one ↦ absurd (ground (arith, one-le-pow (j - 1) 2))
      ]
    ]

-- Up to 2 ^ 40 leaves the depth is the smallest whose tree has that many, and at most 40; above that
-- the call panics.
pub depth_for_capacity_least :
    (n : ℕ)
    → ((n ≤ 2 ^ 40)
        × ((d : ℕ) × (depth_for_capacity n ≡ some d)
            × (n ≤ 2 ^ d)
            × (d ≤ 40)
            × ((d ≡ 0) ⊎ (2 ^ (d - 1) < n))))
      ⊎ ((2 ^ 40 < n) × (depth_for_capacity n ≡ none))
unfolding depth_for_capacity
depth_for_capacity_least n = elim (Bool-cases (leb n (2 ^ max_depth))) [
  | inr large ↦ inr (ground arith, rw large refl)
  | inl small ↦
      let fits = leb→le n (2 ^ 40) small in
      let (j, run, l, bound) = next_power_from-Least 64 0 (max n 1) (omega (arith, fits)) in
      inl (fits, depth_of n j fits run l bound)
]
