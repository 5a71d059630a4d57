-- ===== src/Oram/Evict.antt =====
-- crates/oram/src/lib.rs: `evict_path` moves blocks of the stash back into the buckets of a path.
use novachannel.Common.{
  ℕ, zero, suc, ◌+◌, ◌≤◌, ◌<◌, ◌≡◌, refl, ap, sym, ◌∙◌, inl, inr, true, false, Option, some, List,
  [], ◌∷◌, if◌then◌else◌, ◌==◌, Bool-cases, arith, length, All, contains,
}
use novachannel.Oram.{Block, ServerStorage, Client, is_ancestor_of_leaf, choose, evict_nodes}
use novachannel.Oram.Tree.{is_ancestor_of_leaf-contains, Falls, Falls-contains}
use novachannel.Oram.Storage.{IsStore}
use novachannel.Oram.Placement.{count, in_buckets_update, stored_update, InStash, InBucket, Placed}

-- A choice for the bucket at `node`: what was chosen belongs there and fits, and nothing is lost.
pub record Chosen {V : Type 0} (num_leaves node room : ℕ) (pos : ℕ → Option ℕ) (m : ℕ → Option V)
    (stash chosen kept : List (Block V)) : Type 0 where
  pub belongs : All (InBucket num_leaves node pos m) chosen
  pub stays : All (InStash pos m) kept
  pub fits : length chosen ≤ room
  pub parted : (id : ℕ) → count id stash ≡ count id chosen + count id kept

module _ {V : Type 0} (num_leaves node : ℕ) (pos : ℕ → Option ℕ) (m : ℕ → Option V)
    (some_leaf : 1 ≤ num_leaves) where
  Chosen-take :
      (room : ℕ) (b : Block V) (stash chosen kept : List (Block V))
      → InBucket num_leaves node pos m b
      → Chosen num_leaves node room pos m stash chosen kept
      → Chosen num_leaves node (suc room) pos m (b ∷ stash) (b ∷ chosen) kept
  unfolding count
  Chosen-take room b stash chosen kept h c = record {
    belongs = (h, c.belongs);
    stays = c.stays;
    fits = omega (arith, c.fits);
    parted = λ id. omega (arith, c.parted id);
  }

  Chosen-pass :
      (room : ℕ) (b : Block V) (stash chosen kept : List (Block V))
      → InStash pos m b
      → Chosen num_leaves node room pos m stash chosen kept
      → Chosen num_leaves node room pos m (b ∷ stash) chosen (b ∷ kept)
  unfolding count
  Chosen-pass room b stash chosen kept h c = record {
    belongs = c.belongs;
    stays = (h, c.stays);
    fits = c.fits;
    parted = λ id. omega (arith, c.parted id);
  }

  pub choose-Chosen :
      (room : ℕ) (stash : List (Block V))
      → All (InStash pos m) stash
      → (chosen : List (Block V)) × (kept : List (Block V)) × (choose pos num_leaves node room stash
          ≡ some (chosen, kept))
        × Chosen num_leaves node room pos m stash chosen kept
  unfolding choose count
  choose-Chosen room [] h = (
    [],
    [],
    refl,
    record { belongs = tt; stays = tt; fits = omega arith; parted = λ id. omega arith },
  )
  choose-Chosen zero (b ∷ stash) h = (
    [],
    b ∷ stash,
    refl,
    record { belongs = tt; stays = h; fits = omega arith; parted = λ id. omega arith },
  )
  choose-Chosen (suc room) (b ∷ stash) ((value, (leaf, placed)), h) =
      elim (Bool-cases (is_ancestor_of_leaf num_leaves node leaf)) [
        | inl eligible ↦
            let (chosen, kept, run, c) = choose-Chosen room stash h in
            (
              b ∷ chosen,
              kept,
              rw (placed, eligible, run, choose) refl,
              Chosen-take room b stash chosen kept
                  (
                    value,
                    (
                      leaf,
                      placed,
                      sym (is_ancestor_of_leaf-contains num_leaves node leaf some_leaf) ∙ eligible,
                    ),
                  )
                  c,
            )
        | inr not_eligible ↦
            let (chosen, kept, run, c) = choose-Chosen (suc room) stash h in
            (
              chosen,
              b ∷ kept,
              rw (placed, not_eligible, run, choose) refl,
              Chosen-pass (suc room) b stash chosen kept (value, (leaf, placed)) c,
            )
      ]

module _ {V S : Type 0} {store : ServerStorage V S} (law : IsStore store) where
  open law use {bucket, size}

  write_one-Placed :
      {num_leaves room : ℕ} {pos : ℕ → Option ℕ} {m : ℕ → Option V}
      {stash chosen kept : List (Block V)} {s s' : S} (n : ℕ)
      → n < size s
      → size s' ≡ size s
      → ((k : ℕ) → bucket s' k ≡ (if k == n then chosen else bucket s k))
      → bucket s n ≡ []
      → Chosen num_leaves n room pos m stash chosen kept
      → Placed law num_leaves pos m stash s
      → Placed law num_leaves pos m kept s'
  unfolding count
  write_one-Placed {num_leaves} {pos} {m} {stash} {chosen} {kept} {s} {s'} n lt e view empty c p =
      record {
        stashed = c.stays;
        stored = stored_update law num_leaves pos m s s' n chosen e view c.belongs p.stored;
        counted = λ id. omega (
          arith,
          in_buckets_update law s s' n chosen id lt e view,
          ap (count id) empty,
          c.parted id,
          p.counted id,
        );
      }

  -- What an eviction does to the buckets: those of the path hold at most `room` blocks each, and the
  -- others are as before.
  pub record Filled (room : ℕ) (ns : List ℕ) (s s' : S) : Type 0 where
    pub same_size : size s' ≡ size s
    pub same_capacity : store.bucket_capacity s' ≡ store.bucket_capacity s
    pub bounded : (n : ℕ) → contains ns n ≡ true → length (bucket s' n) ≤ room
    pub others : (n : ℕ) → contains ns n ≡ false → bucket s' n ≡ bucket s n

  Filled-cons :
      {room : ℕ} {ns : List ℕ} {s s1 s' : S} (n : ℕ) (chosen : List (Block V))
      → size s1 ≡ size s
      → store.bucket_capacity s1 ≡ store.bucket_capacity s
      → ((k : ℕ) → bucket s1 k ≡ (if k == n then chosen else bucket s k))
      → length chosen ≤ room
      → Filled room ns s1 s'
      → Filled room (n ∷ ns) s s'
  Filled-cons {room} {ns} {s} {s1} {s'} n chosen e cap view fits q = record {
    same_size = q.same_size ∙ e;
    same_capacity = q.same_capacity ∙ cap;
    bounded = λ k h. elim (Bool-cases (contains ns k)) [
      | inl later ↦ q.bounded k later
      | inr now ↦ let b : bucket s' k ≡ chosen = q.others k now ∙ view k ∙ ground arith in rw b fits
    ];
    others = λ k h. q.others k (ground arith) ∙ view k ∙ ground arith;
  }

  pub evict_nodes-Placed :
      {m : ℕ → Option V} (room top : ℕ) (ns : List ℕ) (c : Client V S)
      → 1 ≤ c.num_leaves
      → Falls top ns
      → top ≤ size c.server
      → ((n : ℕ) → contains ns n ≡ true → bucket c.server n ≡ [])
      → Placed law c.num_leaves c.position_map m c.stash c.server
      → (stash : List (Block V)) × (s : S) × (evict_nodes store room ns c
          ≡ some (record c { stash = stash; server = s }))
        × Filled room ns c.server s
        × Placed law c.num_leaves c.position_map m stash s
  unfolding evict_nodes
  evict_nodes-Placed room top [] c leaves f fit empty p = (
    c.stash,
    c.server,
    refl,
    record {
      same_size = refl;
      same_capacity = refl;
      bounded = λ n e. absurd (cc);
      others = λ n e. refl;
    },
    p,
  )
  evict_nodes-Placed {m} room top (n ∷ ns) c leaves (lt, pos, f) fit empty p =
      let (chosen, kept, chose, ch) =
        choose-Chosen c.num_leaves n c.position_map m leaves room c.stash p.stashed in
      let (s1, wrote, same, cap, view) = law.writes n chosen c.server (omega arith) in
      let c1 = record c { stash = kept; server = s1 } in
      let placed = write_one-Placed n (omega arith) same view (empty n (ground arith)) ch p in
      let (stash, s, run, q, done) =
        evict_nodes-Placed room n ns c1 leaves f (omega arith)
          (λ k h. view k ∙ below chosen k (Falls-contains n k ns f) h ∙ empty k (ground arith))
          placed in
      (stash, s, rw (chose, wrote) run, Filled-cons n chosen same cap view ch.fits q, done)
    where
      below :
          (blocks : List (Block V)) (k : ℕ)
          → (n ≤ k → contains ns k ≡ false)
          → contains ns k ≡ true
          → (if k == n then blocks else bucket c.server k) ≡ bucket c.server k
      below blocks k off h = ground arith
