-- ===== src/Oram/Placement.antt =====
-- crates/oram/src/lib.rs: where the blocks of a client may be. Each written block is in one place, the
-- stash or a bucket on the path of its leaf, and holds the value last written.
use novachannel.Common.{
  ℕ, zero, suc, ◌+◌, ◌<◌, ◌≡◌, ◌≢◌, refl, ap, ◌∙◌, inl, inr, true, Option, none, some, List, [],
  ◌∷◌, ◌++◌, if◌then◌else◌, ◌==◌, ==_iff, Bool-cases, arith, All, contains,
}
use novachannel.Oram.{Block, ServerStorage, path_nodes}
use novachannel.Oram.Storage.{IsStore}

module _ {V : Type 0} where
  -- How many blocks of a list have the id.
  unfoldable pub count : ℕ → List (Block V) → ℕ
  count id [] = 0
  count id (b ∷ bs) = (if b.id == id then 1 else 0) + count id bs

  pub count-append :
      (id : ℕ) (xs ys : List (Block V)) → count id (xs ++ ys) ≡ count id xs + count id ys
  unfolding count
  count-append id [] ys = omega arith
  count-append id (x ∷ xs) ys = omega (arith, count-append id xs ys)

total : (ℕ → ℕ) → ℕ → ℕ
total f zero = 0
total f (suc k) = f k + total f k

total-agree : (f g : ℕ → ℕ) (k : ℕ) → ((j : ℕ) → j < k → g j ≡ f j) → total g k ≡ total f k
unfolding total
total-agree f g zero h = refl
total-agree f g (suc k) h =
    omega (arith, h k (omega arith), total-agree f g k (λ j lt. h j (omega arith)))

-- Changing one term of a sum.
total_update :
    (f g : ℕ → ℕ) (n k : ℕ)
    → ((j : ℕ) → j ≢ n → g j ≡ f j)
    → n < k
    → total g k + f n ≡ total f k + g n
unfolding total
total_update f g n zero h lt = elim lt [ ]
total_update f g n (suc k) h lt = elim (Bool-cases (k == n)) [
  | inl here ↦
      let e : k ≡ n = (==_iff k n).0 here in
      omega (arith, ap f e, ap g e, total-agree f g k (λ j below. h j (omega arith)))
  | inr there ↦ omega (arith, h k (ground arith), total_update f g n k h (ground arith))
]

total-zero : (f : ℕ → ℕ) (k : ℕ) → ((j : ℕ) → j < k → f j ≡ 0) → total f k ≡ 0
unfolding total
total-zero f zero h = refl
total-zero f (suc k) h =
    omega (arith, h k (omega arith), total-zero f k (λ j lt. h j (omega arith)))

abbrev pub present : {V : Type 0} → Option V → ℕ
present none = 0
present (some v) = 1

-- A block of the stash has a position and the current value; one of a bucket is on its leaf's path.
abbrev pub InStash : {V : Type 0} → (ℕ → Option ℕ) → (ℕ → Option V) → Block V → Type 0
InStash pos m b = (m b.id ≡ some b.value) × ((leaf : ℕ) × (pos b.id ≡ some leaf))

abbrev pub InBucket : {V : Type 0} → ℕ → ℕ → (ℕ → Option ℕ) → (ℕ → Option V) → Block V → Type 0
InBucket num_leaves node pos m b =
    (m b.id ≡ some b.value)
    × ((leaf : ℕ) × (pos b.id ≡ some leaf) × (contains (path_nodes num_leaves leaf) node ≡ true))

module _ {V S : Type 0} {store : ServerStorage V S} (law : IsStore store) where
  open law use {bucket, size}

  pub in_buckets : ℕ → S → ℕ
  in_buckets id s = total (λ n. count id (bucket s n)) (size s)

  -- The placement of the blocks, against the map `m` of the values last written.
  pub record Placed (num_leaves : ℕ) (pos : ℕ → Option ℕ) (m : ℕ → Option V)
      (stash : List (Block V)) (s : S) : Type 0 where
    pub stashed : All (InStash pos m) stash
    pub stored : (n : ℕ) → n < size s → All (InBucket num_leaves n pos m) (bucket s n)
    pub counted : (id : ℕ) → count id stash + in_buckets id s ≡ present (m id)

  pub in_buckets_none :
      (s : S) (id : ℕ) → ((n : ℕ) → n < size s → count id (bucket s n) ≡ 0) → in_buckets id s ≡ 0
  unfolding in_buckets
  in_buckets_none s id h = total-zero (λ n. count id (bucket s n)) (size s) h

  -- A change of one bucket, as the storage laws state it.
  pub in_buckets_update :
      (s s' : S) (n : ℕ) (blocks : List (Block V)) (id : ℕ)
      → n < size s
      → size s' ≡ size s
      → ((k : ℕ) → bucket s' k ≡ (if k == n then blocks else bucket s k))
      → in_buckets id s' + count id (bucket s n) ≡ in_buckets id s + count id blocks
  unfolding in_buckets
  in_buckets_update s s' n blocks id lt e view =
      ap (λ k. total (λ j. count id (bucket s' j)) k + count id (bucket s n)) e
      ∙ total_update (λ j. count id (bucket s j)) (λ j. count id (bucket s' j)) n (size s)
          (λ j ne. ap (count id) (view j ∙ elsewhere j ne)) lt
      ∙ ap (λ t. in_buckets id s + count id t) (view n ∙ here)
    where
      elsewhere : (j : ℕ) → j ≢ n → (if j == n then blocks else bucket s j) ≡ bucket s j
      elsewhere j ne = ground arith

      here : (if n == n then blocks else bucket s n) ≡ blocks
      here = ground arith

  -- The blocks of a bucket after a change of one bucket.
  pub stored_update :
      (num_leaves : ℕ) (pos : ℕ → Option ℕ) (m : ℕ → Option V) (s s' : S) (n : ℕ)
      (blocks : List (Block V))
      → size s' ≡ size s
      → ((k : ℕ) → bucket s' k ≡ (if k == n then blocks else bucket s k))
      → All (InBucket num_leaves n pos m) blocks
      → ((k : ℕ) → k < size s → All (InBucket num_leaves k pos m) (bucket s k))
      → (k : ℕ) → k < size s'
      → All (InBucket num_leaves k pos m) (bucket s' k)
  stored_update num_leaves pos m s s' n blocks e view new old k lt = elim (Bool-cases (k == n)) [
    | inl here ↦
        let same : k ≡ n = (==_iff k n).0 here in
        let b : bucket s' k ≡ blocks = view k ∙ ground arith in rw b (rw same new)
    | inr there ↦
        let b : bucket s' k ≡ bucket s k = view k ∙ ground arith in rw b (old k (omega arith))
  ]
