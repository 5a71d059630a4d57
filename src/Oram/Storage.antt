-- ===== src/Oram/Storage.antt =====
-- crates/oram/src/lib.rs: what `Client` relies on of a `ServerStorage`, and `InMemoryServer` as one.
use novachannel.Common.{
  ℕ, zero, suc, ◌<◌, ◌≡◌, refl, ap, ◌∙◌, some, List, [], ◌∷◌, if◌then◌else◌, lt→ltb, ◌==◌, arith,
  length, get_elem?, get_or, set, replicate, length-set,
}
use novachannel.Oram.{
  Block, InMemoryServer, ServerStorage, in_memory, new_in_memory, read_in_memory, write_in_memory,
}

-- The documented contract: reading gives the bucket and leaves it empty, writing replaces it, both
-- leave every other bucket alone, and neither panics at a node of the tree.
pub record IsStore {V S : Type 0} (store : ServerStorage V S) : Type 0 where
  pub bucket : S → ℕ → List (Block V)
  pub size : S → ℕ
  pub reads :
      (n : ℕ) (s : S)
      → n < size s
      → (s' : S) × (store.read_and_clear n s ≡ some (bucket s n, s'))
        × (size s' ≡ size s)
        × (store.bucket_capacity s' ≡ store.bucket_capacity s)
        × ((k : ℕ) → bucket s' k ≡ (if k == n then [] else bucket s k))
  pub writes :
      (n : ℕ) (blocks : List (Block V)) (s : S)
      → n < size s
      → (s' : S) × (store.write n blocks s ≡ some s')
        × (size s' ≡ size s)
        × (store.bucket_capacity s' ≡ store.bucket_capacity s)
        × ((k : ℕ) → bucket s' k ≡ (if k == n then blocks else bucket s k))

module _ {A : Type 0} (d : A) where
  get_elem?-get_or : (xs : List A) (n : ℕ) → n < length xs → get_elem? xs n ≡ some (get_or xs n d)
  get_elem?-get_or [] n h = elim h [ ]
  get_elem?-get_or (x ∷ xs) zero h = refl
  get_elem?-get_or (x ∷ xs) (suc n) h = get_elem?-get_or xs n (omega arith)

  get_or-set :
      (xs : List A) (n k : ℕ) (v : A)
      → n < length xs
      → get_or (set xs n v) k d ≡ (if k == n then v else get_or xs k d)
  get_or-set [] n k v h = elim h [ ]
  get_or-set (x ∷ xs) zero zero v h = refl
  get_or-set (x ∷ xs) zero (suc k) v h = ground arith
  get_or-set (x ∷ xs) (suc n) zero v h = ground arith
  get_or-set (x ∷ xs) (suc n) (suc k) v h = get_or-set xs n k v (omega arith) ∙ ground arith

pub in_memory-IsStore : {V : Type 0} → IsStore (in_memory {V = V})
unfolding read_in_memory write_in_memory
in_memory-IsStore = record {
  bucket = λ s n. get_or s.buckets n [];
  size = λ s. length s.buckets;
  reads = λ n s h. (
    record s { buckets = set s.buckets n [] },
    rw (get_elem?-get_or [] s.buckets n h) refl,
    length-set s.buckets n [],
    refl,
    λ k. get_or-set [] s.buckets n k [] h,
  );
  writes = λ n blocks s h. (
    record s { buckets = set s.buckets n blocks },
    rw (lt→ltb n (length s.buckets) h) refl,
    length-set s.buckets n blocks,
    refl,
    λ k. get_or-set [] s.buckets n k blocks h,
  );
}

get_or-replicate : {A : Type 0} (d : A) (n k : ℕ) → get_or (replicate n d) k d ≡ d
get_or-replicate d zero k = refl
get_or-replicate d (suc n) zero = refl
get_or-replicate d (suc n) (suc k) = get_or-replicate d n k

length-replicate : {A : Type 0} (d : A) (n : ℕ) → length (replicate n d) ≡ n
length-replicate d zero = refl
length-replicate d (suc n) = ap suc (length-replicate d n)

pub bucket-new :
    (V : Type 0) (num_nodes capacity n : ℕ)
    → in_memory-IsStore.bucket (new_in_memory {V = V} num_nodes capacity) n ≡ []
unfolding new_in_memory in_memory-IsStore
bucket-new V num_nodes capacity n = get_or-replicate [] num_nodes n

pub size-new :
    (V : Type 0) (num_nodes capacity : ℕ)
    → in_memory-IsStore.size (new_in_memory {V = V} num_nodes capacity) ≡ num_nodes
unfolding new_in_memory in_memory-IsStore
size-new V num_nodes capacity = length-replicate [] num_nodes

pub size-in_memory :
    {V : Type 0} (s : InMemoryServer V) → in_memory-IsStore.size s ≡ length s.buckets
unfolding in_memory-IsStore
size-in_memory s = refl
