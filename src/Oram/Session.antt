-- ===== src/Oram/Session.antt =====
-- crates/oram/src/lib.rs: a tree from `PathOram::new`, and a session of reads and writes on it.
use novachannel.Common.{
  ℕ, ◌*◌, ◌^◌, ◌≤◌, ◌<◌, ◌≡◌, refl, ap, sym, subst, inl, inr, Option, none, some, List, [], ◌∷◌,
  le→leb, arith, length, All,
}
use native.Mathlib.Nat.{one-le-pow}
use novachannel.Oram.{
  ◌>>=◌, ServerStorage, InMemoryServer, Client, new_path_oram, with_server, new_in_memory, read,
  write,
}
use novachannel.Oram.Storage.{IsStore, in_memory-IsStore, bucket-new, size-new}
use novachannel.Oram.Placement.{count, Placed, InBucket, in_buckets_none}
use novachannel.Oram.Depth.{depth_for_capacity_least}
use novachannel.Oram.Access.{Holds, access-Holds}
use novachannel.Oram.Access.Update.{written}

-- A call of the client, with the leaves that are drawn in it.
pub data Op (V : Type 0) : Type 0 where
  reading : (id drawn_old drawn_new : ℕ) → Op V
  writing : (id : ℕ) (value : V) (drawn_old drawn_new : ℕ) → Op V

module _ {V : Type 0} where
  abbrev pub InTree : ℕ → Op V → Type 0
  InTree num_leaves (reading id old new) = (old < num_leaves) × (new < num_leaves)
  InTree num_leaves (writing id v old new) = (old < num_leaves) × (new < num_leaves)

  -- The same calls on a plain map.
  unfoldable pub answers : List (Op V) → (ℕ → Option V) → List (Option V)
  answers [] m = []
  answers (reading id _ _ ∷ ops) m = m id ∷ answers ops m
  answers (writing id v _ _ ∷ ops) m = m id ∷ answers ops (written id (some v) m)

  module _ {S : Type 0} (store : ServerStorage V S) where
    abbrev pub step : Op V → Client V S → Option (Option V × Client V S)
    step (reading id old new) = read store id old new
    step (writing id v old new) = write store id v old new

    unfoldable pub run : List (Op V) → Client V S → Option (List (Option V))
    run [] c = some []
    run (op ∷ ops) c = do (value, c') ← step op c; values ← run ops c'; some (value ∷ values)

module _ {V S : Type 0} {store : ServerStorage V S} (law : IsStore store) where
  All-InTree : (k n : ℕ) (ops : List (Op V)) → n ≡ k → All (InTree k) ops → All (InTree n) ops
  All-InTree k n ops e = subst (λ j. All (InTree j) ops) (sym e)

  -- Reads and writes of a client that holds the map `m`, with all leaves drawn within the tree, do not
  -- panic, and return what the same reads and writes of the plain map `m` return.
  pub run-answers :
      (ops : List (Op V)) (c : Client V S) (m : ℕ → Option V)
      → Holds law c m
      → All (InTree c.num_leaves) ops
      → run store ops c ≡ some (answers ops m)
  unfolding run answers read write
  run-answers [] c m h t = refl
  run-answers (reading id old new ∷ ops) c m h ((old_lt, new_lt), t) =
      let (c', e, same, h') = access-Holds law c m id none old new h old_lt new_lt in
      rw (e, run-answers ops c' m h' (All-InTree c.num_leaves c'.num_leaves ops same t)) refl
  run-answers (writing id v old new ∷ ops) c m h ((old_lt, new_lt), t) =
      let (c', e, same, h') = access-Holds law c m id (some v) old new h old_lt new_lt in
      rw
        (
          e,
          run-answers ops c' (written id (some v) m) h'
              (All-InTree c.num_leaves c'.num_leaves ops same t),
        )
        refl

module _ (V : Type 0) where
  new-Placed :
      (num_leaves num_nodes capacity : ℕ)
      → Placed in_memory-IsStore num_leaves
          (λ _. none)
          (λ _. none)
          []
          (new_in_memory {V = V} num_nodes capacity)
  unfolding count
  new-Placed num_leaves num_nodes capacity = record {
    stashed = tt;
    stored = λ n lt.
        subst (All (InBucket num_leaves n (λ _. none) (λ _. none)))
          (sym (bucket-new V num_nodes capacity n)) tt;
    counted = λ id. omega (
      arith,
      in_buckets_none in_memory-IsStore (new_in_memory {V = V} num_nodes capacity) id
          (λ n lt. ap (count id) (bucket-new V num_nodes capacity n)),
    );
  }

  pub with_server-Holds :
      (d capacity : ℕ)
      → Holds in_memory-IsStore
          (with_server d (new_in_memory {V = V} (2 * 2 ^ d) capacity))
          (λ _. none)
  unfolding with_server
  with_server-Holds d capacity = record {
    leaves = one-le-pow d 2 (omega arith);
    fits = omega (arith, size-new V (2 * 2 ^ d) capacity);
    placed = new-Placed (2 ^ d) (2 * 2 ^ d) capacity;
    in_range = λ id leaf e. absurd (cc);
    capped = λ n lt. omega (arith, ap length (bucket-new V (2 * 2 ^ d) capacity n));
  }

  -- For at least one leaf and at most 2 ^ 40, and room for at least one block in a bucket, the
  -- constructor does not panic: the new tree has that many leaves and holds nothing.
  pub new_path_oram-Holds :
      (capacity_leaves capacity : ℕ)
      → 1 ≤ capacity_leaves
      → capacity_leaves ≤ 2 ^ 40
      → 1 ≤ capacity
      → (c : Client V (InMemoryServer V)) × (new_path_oram capacity_leaves capacity ≡ some c)
        × (capacity_leaves ≤ c.num_leaves)
        × Holds in_memory-IsStore c (λ _. none)
  unfolding new_path_oram with_server
  new_path_oram-Holds n z n_lt small z_lt = elim (depth_for_capacity_least n) [
    | inl (_, (d, e, fits, _, _)) ↦ (
      with_server d (new_in_memory (2 * 2 ^ d) z),
      rw (le→leb 1 n n_lt, le→leb 1 z z_lt, e) refl,
      fits,
      with_server-Holds d z,
    )
    | inr (large, _) ↦ absurd (omega arith)
  ]
