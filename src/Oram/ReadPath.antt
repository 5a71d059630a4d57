-- ===== src/Oram/ReadPath.antt =====
-- crates/oram/src/lib.rs: `read_path_into_stash` moves the blocks of a path into the stash.
use novachannel.Common.{
  ℕ, ◌<◌, ◌≡◌, refl, ◌∙◌, inl, inr, true, false, Option, some, List, [], ◌∷◌, ◌++◌, if◌then◌else◌,
  ◌==◌, Bool-cases, arith, All, All-append, contains,
}
use novachannel.Oram.{Block, ServerStorage, Client, read_nodes}
use novachannel.Oram.Storage.{IsStore}
use novachannel.Oram.Placement.{
  count, count-append, in_buckets_update, stored_update, InStash, InBucket, Placed,
}

InBucket-InStash :
    {V : Type 0} (num_leaves n : ℕ) (pos : ℕ → Option ℕ) (m : ℕ → Option V) (bs : List (Block V))
    → All (InBucket num_leaves n pos m) bs
    → All (InStash pos m) bs
InBucket-InStash num_leaves n pos m [] h = tt
InBucket-InStash num_leaves n pos m (b ∷ bs) ((value, (leaf, placed, _)), h) =
    ((value, (leaf, placed)), InBucket-InStash num_leaves n pos m bs h)

module _ {V S : Type 0} {store : ServerStorage V S} (law : IsStore store) where
  open law use {bucket, size}

  -- One bucket moves into the stash.
  read_one-Placed :
      {num_leaves : ℕ} {pos : ℕ → Option ℕ} {m : ℕ → Option V} {stash : List (Block V)} {s s' : S}
      (n : ℕ)
      → n < size s
      → size s' ≡ size s
      → ((k : ℕ) → bucket s' k ≡ (if k == n then [] else bucket s k))
      → Placed law num_leaves pos m stash s
      → Placed law num_leaves pos m (stash ++ bucket s n) s'
  unfolding count
  read_one-Placed {num_leaves} {pos} {m} {stash} {s} {s'} n lt e view p = record {
    stashed =
        All-append (InStash pos m) stash (bucket s n) p.stashed
          (InBucket-InStash num_leaves n pos m (bucket s n) (p.stored n lt));
    stored = stored_update law num_leaves pos m s s' n [] e view tt p.stored;
    counted = λ id. omega (
      arith,
      count-append id stash (bucket s n),
      in_buckets_update law s s' n [] id lt e view,
      p.counted id,
    );
  }

  -- What reading a list of nodes leaves behind.
  pub record Emptied (ns : List ℕ) (s s' : S) : Type 0 where
    pub same_size : size s' ≡ size s
    pub same_capacity : store.bucket_capacity s' ≡ store.bucket_capacity s
    pub emptied : (n : ℕ) → contains ns n ≡ true → bucket s' n ≡ []
    pub others : (n : ℕ) → contains ns n ≡ false → bucket s' n ≡ bucket s n

  Emptied-cons :
      (n : ℕ) (ns : List ℕ) (s s1 s' : S)
      → size s1 ≡ size s
      → store.bucket_capacity s1 ≡ store.bucket_capacity s
      → ((k : ℕ) → bucket s1 k ≡ (if k == n then [] else bucket s k))
      → Emptied ns s1 s'
      → Emptied (n ∷ ns) s s'
  Emptied-cons n ns s s1 s' e cap view q = record {
    same_size = q.same_size ∙ e;
    same_capacity = q.same_capacity ∙ cap;
    emptied = λ k h. elim (Bool-cases (contains ns k)) [
      | inl later ↦ q.emptied k later
      | inr now ↦ q.others k now ∙ view k ∙ ground arith
    ];
    others = λ k h. q.others k (ground arith) ∙ view k ∙ ground arith;
  }

  pub read_nodes-Placed :
      {m : ℕ → Option V} {pos : ℕ → Option ℕ} (ns : List ℕ) (c : Client V S)
      → All (λ n. n < size c.server) ns
      → Placed law c.num_leaves pos m c.stash c.server
      → (stash : List (Block V)) × (s : S) × (read_nodes store ns c
          ≡ some (record c { stash = stash; server = s }))
        × Emptied ns c.server s
        × Placed law c.num_leaves pos m stash s
  unfolding read_nodes
  read_nodes-Placed [] c h p = (
    c.stash,
    c.server,
    refl,
    record { same_size = refl; same_capacity = refl; emptied = λ n. λ e. cc; others = λ n e. refl },
    p,
  )
  read_nodes-Placed (n ∷ ns) c h p =
      let (s1, e, same, cap, view) = law.reads n c.server h.0 in
      let c1 = record c { stash = c.stash ++ bucket c.server n; server = s1 } in
      let (stash, s, run, q, placed) =
        read_nodes-Placed ns c1 (in_range ns s1 same h.1) (read_one-Placed n h.0 same view p) in
      (stash, s, rw e run, Emptied-cons n ns c.server s1 s same cap view q, placed)
    where
      in_range :
          (ns : List ℕ) (s1 : S)
          → size s1 ≡ size c.server
          → All (λ n. n < size c.server) ns
          → All (λ n. n < size s1) ns
      in_range [] s1 e h = tt
      in_range (x ∷ xs) s1 e h = (omega arith, in_range xs s1 e h.1)
