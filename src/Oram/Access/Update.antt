-- ===== src/Oram/Access/Update.antt =====
-- crates/oram/src/lib.rs: the part of `access` between reading and evicting a path.
use novachannel.Common.{
  ℕ, zero, suc, ◌+◌, ◌≤◌, ◌≡◌, refl, ap, ◌∙◌, inl, inr, true, false, Option, none, some,
  Option-cases, List, [], ◌∷◌, if◌then◌else◌, ◌==◌, ==_iff, Bool-cases, arith, All, All-append,
}
use novachannel.Oram.{◌>>=◌, Block, position, value_at, set_value, put_value, insert_position}
use novachannel.Oram.Placement.{count, count-append, InStash, InBucket, present}

-- The map after a write, or after a read.
abbrev pub written : {V : Type 0} → ℕ → Option V → (ℕ → Option V) → ℕ → Option V
written id none m j = m j
written id (some v) m j = if j == id then some v else m j

module _ {V : Type 0} (id : ℕ) where
  -- The value that the client reports, from a stash that holds current values.
  pub found_value :
      (pos : ℕ → Option ℕ) (m : ℕ → Option V) (bs : List (Block V))
      → All (InStash pos m) bs
      → (position id bs >>= value_at bs) ≡ (if count id bs == 0 then none else m id)
  unfolding position value_at count
  found_value pos m [] h = refl
  found_value pos m (b ∷ bs) ((value, at_leaf), h) =
      ground (arith, value, ==_iff b.id id, found_value pos m bs h)

  position-none : (bs : List (Block V)) → position id bs ≡ none → count id bs ≡ 0
  unfolding position count
  position-none [] e = refl
  position-none (b ∷ bs) e = ground (arith, position-none bs)

pub written_away :
    {V : Type 0} (id : ℕ) (nv : Option V) (m : ℕ → Option V) (j : ℕ)
    → (j == id) ≡ false
    → written id nv m j ≡ m j
written_away id none m j other = refl
written_away id (some v) m j other = rw other refl

module _ {V : Type 0} (id leaf : ℕ) (pos : ℕ → Option ℕ) (m : ℕ → Option V) (nv : Option V) where
  abbrev pos' : ℕ → Option ℕ
  pos' = insert_position id leaf pos

  abbrev m' : ℕ → Option V
  m' = written id nv m

  -- Blocks with other ids are not concerned by the new leaf and value.
  InStash-away :
      (bs : List (Block V)) → count id bs ≡ 0 → All (InStash pos m) bs → All (InStash pos' m') bs
  unfolding count
  InStash-away [] z h = tt
  InStash-away (b ∷ bs) z ((value, (l, placed)), h) =
      let other : (b.id == id) ≡ false = ground arith in
      (
        (written_away id nv m b.id other ∙ value, (l, rw other placed)),
        InStash-away bs (ground arith) h,
      )

  pub InBucket-away :
      (num_leaves n : ℕ) (bs : List (Block V))
      → count id bs ≡ 0
      → All (InBucket num_leaves n pos m) bs
      → All (InBucket num_leaves n pos' m') bs
  unfolding count
  InBucket-away num_leaves n [] z h = tt
  InBucket-away num_leaves n (b ∷ bs) z ((value, (l, placed, on_path)), h) =
      let other : (b.id == id) ≡ false = ground arith in
      (
        (written_away id nv m b.id other ∙ value, (l, rw other placed, on_path)),
        InBucket-away num_leaves n bs (ground arith) h,
      )

-- A block that is read without a new value keeps it, under its new leaf.
module _ {V : Type 0} (id leaf : ℕ) (pos : ℕ → Option ℕ) (m : ℕ → Option V) where
  InStash-moved :
      (bs : List (Block V))
      → All (InStash pos m) bs
      → All (InStash (insert_position id leaf pos) m) bs
  InStash-moved [] h = tt
  InStash-moved (b ∷ bs) ((value, (l, placed)), h) =
      ((value, new_leaf b l placed), InStash-moved bs h)
    where
      new_leaf :
          (b : Block V) (l : ℕ)
          → pos b.id ≡ some l
          → (l' : ℕ) × (insert_position id leaf pos b.id ≡ some l')
      new_leaf b l placed = elim (Bool-cases (b.id == id)) [
        | inl here ↦ (leaf, rw here refl)
        | inr there ↦ (l, rw there placed)
      ]

  module _ (v : V) where
    InStash-set_value :
        (bs : List (Block V)) (i : ℕ)
        → position id bs ≡ some i
        → count id bs ≤ 1
        → All (InStash pos m) bs
        → All (InStash (insert_position id leaf pos) (written id (some v) m)) (set_value bs i v)
    unfolding position set_value count
    InStash-set_value [] i e one h = absurd (cc)
    InStash-set_value (b ∷ bs) i e one ((value, (l, placed)), h) = elim (Bool-cases (b.id == id)) [
      | inl here ↦
          let first : i ≡ 0 = ground arith in
          rw first (
            (rw here refl, (leaf, rw here refl)),
            InStash-away id leaf pos m (some v) bs (ground arith) h,
          )
      | inr there ↦ elim (Option-cases (position id bs)) [
        | inl absent ↦ absurd (ground arith)
        | inr (i', found) ↦
            let next : i ≡ suc i' = ground arith in
            rw next (
              (written_away id (some v) m b.id there ∙ value, (l, rw there placed)),
              InStash-set_value bs i' found (ground arith) h,
            )
      ]
    ]

    count-set_value : (bs : List (Block V)) (i j : ℕ) → count j (set_value bs i v) ≡ count j bs
    unfolding set_value count
    count-set_value [] i j = refl
    count-set_value (b ∷ bs) zero j = refl
    count-set_value (b ∷ bs) (suc i) j =
        ap (◌+◌ (if b.id == j then 1 else 0)) (count-set_value bs i j)

present-le-one : {V : Type 0} (o : Option V) → present o ≤ 1
present-le-one none = omega arith
present-le-one (some v) = omega arith

position-some :
    {V : Type 0} (id i : ℕ) (bs : List (Block V)) → position id bs ≡ some i → 1 ≤ count id bs
unfolding position count
position-some id i [] e = absurd (cc)
position-some id i (b ∷ bs) e = elim (Option-cases (position id bs)) [
  | inl absent ↦ ground arith
  | inr (i', found) ↦ ground (arith, position-some id i' bs found)
]

present-written :
    {V : Type 0} (id : ℕ) (v : V) (m : ℕ → Option V) (j : ℕ)
    → present (written id (some v) m j) ≡ (if j == id then 1 else present (m j))
present-written id v m j = elim (Bool-cases (j == id)) [
  | inl here ↦ rw here refl
  | inr there ↦ rw there refl
]

-- The stash after the update holds the new values, each once.
module _ {V : Type 0} (id leaf : ℕ) (pos : ℕ → Option ℕ) (m : ℕ → Option V) (bs : List (Block V))
    (h : All (InStash pos m) bs) (one : count id bs ≡ present (m id)) where
  pub InStash-put_value :
      (nv : Option V)
      → All
          (InStash (insert_position id leaf pos) (written id nv m))
          (put_value id (position id bs) nv bs)
  unfolding put_value
  InStash-put_value none = elim (Option-cases (position id bs)) [
    | inl absent ↦ rw (absent, put_value) (InStash-moved id leaf pos m bs h)
    | inr (i, found) ↦ rw (found, put_value) (InStash-moved id leaf pos m bs h)
  ]
  InStash-put_value (some v) = elim (Option-cases (position id bs)) [
    | inl absent ↦
        rw (absent, put_value)
          (All-append (InStash (insert_position id leaf pos) (written id (some v) m)) bs _
            (InStash-away id leaf pos m (some v) bs (position-none id bs absent) h)
            ((rw self refl, (leaf, rw self refl)), tt))
    | inr (i, found) ↦
        rw (found, put_value)
          (InStash-set_value id leaf pos m v bs i found (omega (arith, one, present-le-one (m id)))
            h)
  ]
    where
      self : (id == id) ≡ true
      self = ground arith

  pub count-put_value :
      (nv : Option V) (j : ℕ)
      → count j (put_value id (position id bs) nv bs) + present (m j)
        ≡ count j bs + present (written id nv m j)
  unfolding put_value count
  count-put_value none j = elim (Option-cases (position id bs)) [
    | inl absent ↦ rw (absent, put_value) refl
    | inr (i, found) ↦ rw (found, put_value) refl
  ]
  count-put_value (some v) j = elim (Option-cases (position id bs)) [
    | inl absent ↦
        rw (absent, put_value)
          (ground (
            arith,
            count-append j bs (record { id = id; value = v } ∷ []),
            present-written id v m j,
            position-none id bs absent,
            one,
            ap (λ k. present (m k)) {x = j} {y = id},
          ))
    | inr (i, found) ↦
        rw (found, put_value)
          (ground (
            arith,
            count-set_value id leaf pos m v bs i j,
            present-written id v m j,
            position-some id i bs found,
            present-le-one (m id),
            one,
          ))
  ]
