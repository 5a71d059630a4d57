-- ===== src/Oram.antt =====
-- crates/oram/src/lib.rs: Path ORAM. `none` stands for a panic. A random leaf is an argument, and the
-- position map a function; capacities of vectors and the clearing of dropped secrets are not modelled.
pub mod Tree
pub mod Depth
pub mod Session
pub mod Storage
pub mod Placement
pub mod ReadPath
pub mod Evict
pub mod Access
pub mod Trace
pub mod Verified
mod Tests
use novachannel.Common.{
  ℕ, zero, suc, ◌+◌, ◌*◌, ◌/◌, ◌^◌, Bool, true, false, Option, none, some, List, [], ◌∷◌, ◌++◌,
  if◌then◌else◌, ltb, leb, ◌==◌, length, get_elem?, set, replicate, Bytes, max,
}

infixl 5 ◌>>=◌
abbrev pub ◌>>=◌ {ℓ κ} : {A : Type ℓ} {B : Type κ} → Option A → (A → Option B) → Option B
none >>= f = none
some a >>= f = f a

pub record Block (V : Type 0) : Type 0 where
  pub id : ℕ
  pub value : V

-- The trait of a bucket store, over its states `S`.
pub record ServerStorage (V S : Type 0) : Type 0 where
  pub read_and_clear : ℕ → S → Option (List (Block V) × S)
  pub write : ℕ → List (Block V) → S → Option S
  pub bucket_capacity : S → ℕ

pub record InMemoryServer (V : Type 0) : Type 0 where
  pub capacity : ℕ
  pub buckets : List (List (Block V))

module _ {V : Type 0} where
  unfoldable pub new_in_memory : ℕ → ℕ → InMemoryServer V
  new_in_memory num_nodes capacity = record {
    capacity = capacity;
    buckets = replicate num_nodes [];
  }

  unfoldable pub read_in_memory : ℕ → InMemoryServer V → Option (List (Block V) × InMemoryServer V)
  read_in_memory node s = do
    blocks ← get_elem? s.buckets node
    some (blocks, record s { buckets = set s.buckets node [] })

  unfoldable pub write_in_memory : ℕ → List (Block V) → InMemoryServer V → Option (InMemoryServer V)
  write_in_memory node blocks s =
      if ltb node (length s.buckets)
      then some (record s { buckets = set s.buckets node blocks })
      else none

  abbrev pub in_memory : ServerStorage V (InMemoryServer V)
  in_memory = record {
    read_and_clear = read_in_memory;
    write = write_in_memory;
    bucket_capacity = λ s. s.capacity;
  }

abbrev pub max_depth : ℕ
max_depth = 40

-- `u64::next_power_of_two` doubles from 1; `u64::ilog2` counts halvings.
unfoldable pub next_power_from : ℕ → ℕ → ℕ → ℕ
next_power_from zero p n = p
next_power_from (suc fuel) p n =
    let doubled = next_power_from fuel (2 * p) n in if leb n p then p else doubled

unfoldable pub ilog2_fuel : ℕ → ℕ → ℕ
ilog2_fuel zero n = 0
ilog2_fuel (suc fuel) n = let halved = ilog2_fuel fuel (n / 2) in if ltb 1 n then suc halved else 0

unfoldable pub depth_for_capacity : ℕ → Option ℕ
depth_for_capacity capacity_leaves =
    if leb capacity_leaves (2 ^ max_depth)
    then some (ilog2_fuel 64 (next_power_from 64 1 (max capacity_leaves 1)))
    else none

pub record Client (V S : Type 0) : Type 0 where
  pub depth : ℕ
  pub num_leaves : ℕ
  pub server : S
  pub position_map : ℕ → Option ℕ
  pub stash : List (Block V)
  pub root : Bytes

-- A shift by the depth, which is at most 40 where `new_path_oram` calls it; one by 64 or more panics.
unfoldable pub with_server : {V S : Type 0} → ℕ → S → Client V S
with_server depth server = record {
  depth = depth;
  num_leaves = 2 ^ depth;
  server = server;
  position_map = λ _. none;
  stash = [];
  root = replicate 32 0;
}

unfoldable pub new_path_oram : {V : Type 0} → ℕ → ℕ → Option (Client V (InMemoryServer V))
unfolding with_server new_in_memory
new_path_oram capacity_leaves capacity =
    if leb 1 capacity_leaves
    then if leb 1 capacity
      then (do
        depth ← depth_for_capacity capacity_leaves
        some (with_server depth (new_in_memory (2 * 2 ^ depth) capacity)))
      else none
    else none

-- `while node > 1 { node /= 2; path.push(node) }`; a node is above its half, so it is fuel enough.
path_from : ℕ → ℕ → List ℕ
path_from zero node = []
path_from (suc fuel) node =
    let above = path_from fuel (node / 2) in node ∷ (if ltb 1 node then above else [])

unfoldable pub path_nodes : ℕ → ℕ → List ℕ
unfolding path_from
path_nodes num_leaves leaf = path_from (num_leaves + leaf) (num_leaves + leaf)

meets : ℕ → ℕ → ℕ → Bool
meets zero n node = false
meets (suc fuel) n node =
    let above = meets fuel (n / 2) node in
    if n == node then true else if n == 1 then false else above

unfoldable pub is_ancestor_of_leaf : ℕ → ℕ → ℕ → Bool
unfolding meets
is_ancestor_of_leaf num_leaves node leaf = meets (num_leaves + leaf) (num_leaves + leaf) node

abbrev pub insert_position : ℕ → ℕ → (ℕ → Option ℕ) → ℕ → Option ℕ
insert_position id leaf position j = if j == id then some leaf else position j

abbrev pub leaf_or : Option ℕ → ℕ → ℕ
leaf_or (some leaf) drawn = leaf
leaf_or none drawn = drawn

module _ {V : Type 0} where
  -- The loop of `evict_path` over the stash: the blocks chosen for a bucket with `room` places left,
  -- and those that stay.
  unfoldable pub choose :
      (ℕ → Option ℕ) → ℕ → ℕ → ℕ → List (Block V) → Option (List (Block V) × List (Block V))
  choose position num_leaves node room [] = some ([], [])
  choose position num_leaves node zero (b ∷ bs) = some ([], b ∷ bs)
  choose position num_leaves node (suc room) (b ∷ bs) =
      let taken = choose position num_leaves node room bs in
      let passed = choose position num_leaves node (suc room) bs in
      elim (position b.id) [
        | none ↦ none
        | some leaf ↦
            if is_ancestor_of_leaf num_leaves node leaf
            then (taken >>= λ r. some (b ∷ r.0, r.1))
            else (passed >>= λ r. some (r.0, b ∷ r.1))
      ]

  unfoldable pub position : ℕ → List (Block V) → Option ℕ
  position id [] = none
  position id (b ∷ bs) =
      let later = position id bs in if b.id == id then some 0 else (later >>= λ i. some (suc i))

  unfoldable pub value_at : List (Block V) → ℕ → Option V
  value_at bs i = get_elem? bs i >>= λ b. some b.value

  unfoldable pub set_value : List (Block V) → ℕ → V → List (Block V)
  set_value [] i v = []
  set_value (b ∷ bs) zero v = record b { value = v } ∷ bs
  set_value (b ∷ bs) (suc i) v = b ∷ set_value bs i v

  -- The four arms of the `match` on `(existing, new_value)`.
  unfoldable pub put_value : ℕ → Option ℕ → Option V → List (Block V) → List (Block V)
  put_value id (some i) (some v) stash = set_value stash i v
  put_value id (some i) none stash = stash
  put_value id none (some v) stash = stash ++ record { id = id; value = v } ∷ []
  put_value id none none stash = stash

  module _ {S : Type 0} (store : ServerStorage V S) where
    unfoldable pub read_nodes : List ℕ → Client V S → Option (Client V S)
    read_nodes [] c = some c
    read_nodes (node ∷ nodes) c = do
      (blocks, server) ← store.read_and_clear node c.server
      read_nodes nodes (record c { stash = c.stash ++ blocks; server = server })

    unfoldable pub read_path_into_stash : ℕ → Client V S → Option (Client V S)
    read_path_into_stash leaf c = read_nodes (path_nodes c.num_leaves leaf) c

    unfoldable pub evict_nodes : ℕ → List ℕ → Client V S → Option (Client V S)
    evict_nodes room [] c = some c
    evict_nodes room (node ∷ nodes) c = do
      (chosen, kept) ← choose c.position_map c.num_leaves node room c.stash
      server ← store.write node chosen c.server
      evict_nodes room nodes (record c { stash = kept; server = server })

    unfoldable pub evict_path : ℕ → Client V S → Option (Client V S)
    evict_path leaf c =
        evict_nodes (store.bucket_capacity c.server) (path_nodes c.num_leaves leaf) c

    -- `drawn_old` is drawn only for a block without a position.
    unfoldable pub access :
        ℕ → Option V → (drawn_old drawn_new : ℕ) → Client V S → Option (Option V × Client V S)
    access id new_value drawn_old drawn_new c = do
      let old_leaf = leaf_or (c.position_map id) drawn_old
      c1 ←
          read_path_into_stash old_leaf
            (record c { position_map = insert_position id drawn_new c.position_map })
      let existing = position id c1.stash
      let old_value = existing >>= value_at c1.stash
      c2 ← evict_path old_leaf (record c1 { stash = put_value id existing new_value c1.stash })
      some (old_value, c2)

    unfoldable pub read :
        ℕ → (drawn_old drawn_new : ℕ) → Client V S → Option (Option V × Client V S)
    read id = access id none

    unfoldable pub write :
        ℕ → V → (drawn_old drawn_new : ℕ) → Client V S → Option (Option V × Client V S)
    write id value = access id (some value)
