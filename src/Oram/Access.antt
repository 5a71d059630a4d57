-- ===== src/Oram/Access.antt =====
-- crates/oram/src/lib.rs: a client behaves as a map from block ids to values.
pub mod Update
use novachannel.Common.{
  ℕ, zero, suc, ◌+◌, ◌*◌, ◌≤◌, ◌<◌, ◌≡◌, ◌≢◌, refl, ap, sym, ◌∙◌, subst, ◌⊎◌, inl, inr, Bool, true,
  false, Option, none, some, Option-cases, List, [], ◌∷◌, ◌++◌, if◌then◌else◌, ◌==◌, ==_iff,
  Bool-cases, arith, length, All, contains,
}
use novachannel.Oram.{
  ◌>>=◌, Block, ServerStorage, Client, path_nodes, position, value_at, put_value, insert_position,
  leaf_or, read_path_into_stash, evict_path, access,
}
use novachannel.Oram.Tree.{Falls, Falls-lt, path_nodes-Falls}
use novachannel.Oram.Storage.{IsStore}
use novachannel.Oram.Placement.{count, in_buckets_none, InStash, InBucket, Placed, present}
use novachannel.Oram.ReadPath.{Emptied, read_nodes-Placed}
use novachannel.Oram.Evict.{Filled, evict_nodes-Placed}
use Update.{written, found_value, InStash-put_value, InBucket-away, count-put_value}

module _ {V S : Type 0} {store : ServerStorage V S} (law : IsStore store) where
  open law use {bucket, size}

  -- The client holds exactly the values of the map `m`, each block in one place that it can find.
  pub record Holds (c : Client V S) (m : ℕ → Option V) : Type 0 where
    pub leaves : 1 ≤ c.num_leaves
    pub fits : 2 * c.num_leaves ≤ size c.server
    pub placed : Placed law c.num_leaves c.position_map m c.stash c.server
    pub in_range : (id leaf : ℕ) → c.position_map id ≡ some leaf → leaf < c.num_leaves
    pub capped :
        (n : ℕ) → n < size c.server → length (bucket c.server n) ≤ store.bucket_capacity c.server

  -- A bucket off the path of a block does not hold it.
  count_off_path :
      (num_leaves n id drawn : ℕ) (pos : ℕ → Option ℕ) (m : ℕ → Option V) (bs : List (Block V))
      → contains (path_nodes num_leaves (leaf_or (pos id) drawn)) n ≡ false
      → All (InBucket num_leaves n pos m) bs
      → count id bs ≡ 0
  unfolding count
  count_off_path num_leaves n id drawn pos m [] off h = refl
  count_off_path num_leaves n id drawn pos m (b ∷ bs) off ((_, (leaf, placed, on_path)), h) =
      elim (Bool-cases (b.id == id)) [
        | inl here ↦
            let same : b.id ≡ id = (==_iff b.id id).0 here in
            let at : leaf_or (pos id) drawn ≡ leaf =
              ap (λ o. leaf_or o drawn) (ap pos (sym same) ∙ placed) in
            let on : contains (path_nodes num_leaves leaf) n ≡ false =
              ap (λ l. contains (path_nodes num_leaves l) n) (sym at) ∙ off in
            ground (arith, on, on_path)
        | inr there ↦ rw there (omega (arith, count_off_path num_leaves n id drawn pos m bs off h))
      ]

  -- Once the path of a block is read, no bucket holds it.
  in_buckets-zero :
      (num_leaves id drawn : ℕ) (pos : ℕ → Option ℕ) (m : ℕ → Option V) (stash : List (Block V))
      (s0 s : S)
      → Emptied law (path_nodes num_leaves (leaf_or (pos id) drawn)) s0 s
      → Placed law num_leaves pos m stash s
      → (n : ℕ) → n < size s
      → count id (bucket s n) ≡ 0
  unfolding count
  in_buckets-zero num_leaves id drawn pos m stash s0 s q p n lt =
      elim (Bool-cases (contains (path_nodes num_leaves (leaf_or (pos id) drawn)) n)) [
        | inl on ↦ ap (count id) (q.emptied n on)
        | inr off ↦ count_off_path num_leaves n id drawn pos m (bucket s n) off (p.stored n lt)
      ]

  -- The update in the stash keeps the placement, for the new map and the new leaf.
  updated-Placed :
      (num_leaves id leaf : ℕ) (pos : ℕ → Option ℕ) (m : ℕ → Option V) (nv : Option V)
      (stash : List (Block V)) (s : S)
      → ((n : ℕ) → n < size s → count id (bucket s n) ≡ 0)
      → count id stash ≡ present (m id)
      → Placed law num_leaves pos m stash s
      → Placed law num_leaves
          (insert_position id leaf pos)
          (written id nv m)
          (put_value id (position id stash) nv stash)
          s
  updated-Placed num_leaves id leaf pos m nv stash s none_left one p = record {
    stashed = InStash-put_value id leaf pos m stash p.stashed one nv;
    stored = λ n lt.
        InBucket-away id leaf pos m nv num_leaves n (bucket s n) (none_left n lt) (p.stored n lt);
    counted =
        λ j. omega (arith, count-put_value id leaf pos m stash p.stashed one nv j, p.counted j);
  }

  pub leaf_or-lt :
      (o : Option ℕ) (drawn num_leaves : ℕ)
      → drawn < num_leaves
      → ((leaf : ℕ) → o ≡ some leaf → leaf < num_leaves)
      → leaf_or o drawn < num_leaves
  leaf_or-lt none drawn num_leaves h k = h
  leaf_or-lt (some leaf) drawn num_leaves h k = k leaf refl

  -- The state in the middle of an access: the path is read, and nothing holds `id` but the stash.
  record Fetched (c : Client V S) (m : ℕ → Option V) (id leaf : ℕ) (stash : List (Block V)) (s : S)
      : Type 0 where
    emptied : Emptied law (path_nodes c.num_leaves leaf) c.server s
    placed : Placed law c.num_leaves c.position_map m stash s
    none_left : (n : ℕ) → n < size s → count id (bucket s n) ≡ 0
    one : count id stash ≡ present (m id)

  read_path-Fetched :
      (c : Client V S) (m : ℕ → Option V) (id drawn : ℕ) (pos' : ℕ → Option ℕ)
      → Holds c m
      → drawn < c.num_leaves
      → (stash : List (Block V)) × (s : S) × (read_path_into_stash store
            (leaf_or (c.position_map id) drawn)
            (record c { position_map = pos' })
          ≡ some (record c { position_map = pos'; stash = stash; server = s }))
        × Fetched c m id (leaf_or (c.position_map id) drawn) stash s
  unfolding read_path_into_stash
  read_path-Fetched c m id drawn pos' h lt =
      let leaf = leaf_or (c.position_map id) drawn in
      let leaf_lt : leaf < c.num_leaves =
        leaf_or-lt (c.position_map id) drawn c.num_leaves lt (h.in_range id) in
      let f = path_nodes-Falls c.num_leaves leaf h.leaves leaf_lt in
      let (stash, s, run, q, p) =
        read_nodes-Placed law {m = m} {pos = c.position_map} (path_nodes c.num_leaves leaf)
          (record c { position_map = pos' })
          (within (path_nodes c.num_leaves leaf) (Falls-lt (2 * c.num_leaves) _ f)) h.placed in
      let gone = in_buckets-zero c.num_leaves id drawn c.position_map m stash c.server s q p in
      (
        stash,
        s,
        run,
        record { emptied = q; placed = p; none_left = gone; one = count_one stash s gone p },
      )
    where
      within : (ns : List ℕ) → All (λ n. n < 2 * c.num_leaves) ns → All (λ n. n < size c.server) ns
      within [] k = tt
      within (n ∷ ns) k = (omega (arith, h.fits), within ns k.1)

      count_one :
          (stash : List (Block V)) (s : S)
          → ((n : ℕ) → n < size s → count id (bucket s n) ≡ 0)
          → Placed law c.num_leaves c.position_map m stash s
          → count id stash ≡ present (m id)
      count_one stash s gone p = omega (arith, p.counted id, in_buckets_none law s id gone)

  fetched_value : (n : ℕ) (o : Option V) → n ≡ present o → (if n == 0 then none else o) ≡ o
  fetched_value n none e = rw e refl
  fetched_value n (some v) e = rw e refl

  insert_position-lt :
      (id leaf num_leaves : ℕ) (pos : ℕ → Option ℕ)
      → leaf < num_leaves
      → ((j l : ℕ) → pos j ≡ some l → l < num_leaves)
      → (j l : ℕ) → insert_position id leaf pos j ≡ some l
      → l < num_leaves
  insert_position-lt id leaf num_leaves pos lt h j l e = elim (Bool-cases (j == id)) [
    | inl here ↦ ground arith
    | inr there ↦ h j l (ground arith)
  ]

  Filled-capped :
      (ns : List ℕ) (s0 s s2 : S)
      → Emptied law ns s0 s
      → Filled law (store.bucket_capacity s) ns s s2
      → ((n : ℕ) → n < size s0 → length (bucket s0 n) ≤ store.bucket_capacity s0)
      → (n : ℕ) → n < size s2
      → length (bucket s2 n) ≤ store.bucket_capacity s2
  Filled-capped ns s0 s s2 q f h n lt = elim (Bool-cases (contains ns n)) [
    | inl on ↦ omega (arith, f.bounded n on, f.same_capacity)
    | inr off ↦ omega (
      arith,
      ap length (f.others n off ∙ q.others n off),
      f.same_capacity,
      q.same_capacity,
      h n (omega (arith, f.same_size, q.same_size)),
    )
  ]

  -- An access of a client that holds the map `m`, with leaves drawn within the tree, does not panic. It
  -- returns the value of `id` in `m`, and the client then holds `m` with the new value at `id`, if one
  -- was given, and with every other value as it was.
  pub access-Holds :
      (c : Client V S) (m : ℕ → Option V) (id : ℕ) (nv : Option V) (drawn_old drawn_new : ℕ)
      → Holds c m
      → drawn_old < c.num_leaves
      → drawn_new < c.num_leaves
      → (c' : Client V S) × (access store id nv drawn_old drawn_new c ≡ some (m id, c'))
        × (c'.num_leaves ≡ c.num_leaves)
        × Holds c' (written id nv m)
  unfolding access evict_path
  access-Holds c m id nv drawn_old drawn_new h old_lt new_lt =
      let pos' = insert_position id drawn_new c.position_map in
      let leaf = leaf_or (c.position_map id) drawn_old in
      let leaf_lt : leaf < c.num_leaves =
        leaf_or-lt (c.position_map id) drawn_old c.num_leaves old_lt (h.in_range id) in
      let (stash, s, run, t) = read_path-Fetched c m id drawn_old pos' h old_lt in
      let value : (position id stash >>= value_at stash) ≡ m id =
        found_value id c.position_map m stash t.placed.stashed
        ∙ fetched_value (count id stash) (m id) t.one in
      let c1 = record c {
        position_map = pos';
        stash = put_value id (position id stash) nv stash;
        server = s;
      } in
      let (stash2, s2, run2, q, p) =
        evict_nodes-Placed law {m = written id nv m} (store.bucket_capacity s) (2 * c.num_leaves)
          (path_nodes c.num_leaves leaf) c1 h.leaves
          (path_nodes-Falls c.num_leaves leaf h.leaves leaf_lt)
          (omega (arith, h.fits, t.emptied.same_size)) t.emptied.emptied
          (updated-Placed c.num_leaves id drawn_new c.position_map m nv stash s t.none_left t.one
            t.placed) in
      (
        record c1 { stash = stash2; server = s2 },
        rw (run, run2, value) refl,
        refl,
        record {
          leaves = h.leaves;
          fits = omega (arith, h.fits, t.emptied.same_size, q.same_size);
          placed = p;
          in_range = insert_position-lt id drawn_new c.num_leaves c.position_map new_lt h.in_range;
          capped = Filled-capped (path_nodes c.num_leaves leaf) c.server s s2 t.emptied q h.capped;
        },
      )
