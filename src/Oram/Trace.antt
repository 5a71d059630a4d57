-- ===== src/Oram/Trace.antt =====
-- crates/oram/src/lib.rs: what the server sees of an access, the buckets it is asked for in their order.
use novachannel.Common.{
  ℕ, suc, ◌*◌, ◌^◌, ◌<◌, ◌≡◌, refl, ap, ap₂, sym, ◌∙◌, subst, Option, some, none, List, [], ◌∷◌,
  ◌++◌, arith, length,
}
use novachannel.Oram.{
  ◌>>=◌, ServerStorage, Client, path_nodes, leaf_or, insert_position, position, value_at, put_value,
  choose, read_nodes, read_path_into_stash, evict_nodes, evict_path, access,
}
use novachannel.Oram.Tree.{Falls, path_nodes-Falls, length-path_nodes}
use novachannel.Oram.Storage.{IsStore}
use novachannel.Oram.Access.{Holds, leaf_or-lt, access-Holds}

-- What the server sees of a call: the node that is read and cleared, or written.
pub data Touch : Type 0 where
  reads : ℕ → Touch
  writes : ℕ → Touch

abbrev pub readings : List ℕ → List Touch
readings [] = []
readings (n ∷ ns) = reads n ∷ readings ns

abbrev pub writings : List ℕ → List Touch
writings [] = []
writings (n ∷ ns) = writes n ∷ writings ns

-- A store that keeps a log of the calls beside its state.
abbrev pub logged : {V S : Type 0} → ServerStorage V S → ServerStorage V (S × List Touch)
logged store = record {
  read_and_clear =
      λ n s. store.read_and_clear n s.0 >>= λ r. some (r.0, (r.1, s.1 ++ reads n ∷ []));
  write = λ n blocks s. store.write n blocks s.0 >>= λ t. some (t, s.1 ++ writes n ∷ []);
  bucket_capacity = λ s. store.bucket_capacity s.0;
}

abbrev pub with_log : {V S : Type 0} → Client V S → List Touch → Client V (S × List Touch)
with_log c log = record {
  depth = c.depth;
  num_leaves = c.num_leaves;
  server = (c.server, log);
  position_map = c.position_map;
  stash = c.stash;
  root = c.root;
}

-- The trace of an access to the path of a leaf: every bucket of the path is read, from the leaf up, and
-- then every one is written, in the same order; the path has a node for each level, no two the same.
pub record Touches (depth num_leaves leaf : ℕ) (trace : List Touch) : Type 0 where
  pub path : List ℕ
  pub of_leaf : path ≡ path_nodes num_leaves leaf
  pub in_order : trace ≡ readings path ++ writings path
  pub levels : length path ≡ suc depth
  pub falls : Falls (2 * num_leaves) path

append_nil : (log : List Touch) → log ++ [] ≡ log
append_nil [] = refl
append_nil (t ∷ log) = ap (λ l. t ∷ l) (append_nil log)

append_assoc : (xs ys zs : List Touch) → (xs ++ ys) ++ zs ≡ xs ++ (ys ++ zs)
append_assoc [] ys zs = refl
append_assoc (x ∷ xs) ys zs = ap (λ t. x ∷ t) (append_assoc xs ys zs)

-- A chain that returned went through a first step that returned.
bind-eq-some :
    {A B : Type 0} (o : Option A) (f : A → Option B) {b : B}
    → (o >>= f) ≡ some b
    → (a : A) × (o ≡ some a) × (f a ≡ some b)
bind-eq-some none f h = absurd (cc)
bind-eq-some (some a) f h = (a, refl, h)

module _ {V S : Type 0} (store : ServerStorage V S) where
  -- A loop over nodes leaves the size of the tree and the positions alone.
  record Same (c c' : Client V S) : Type 0 where
    same_leaves : c'.num_leaves ≡ c.num_leaves
    same_positions : c'.position_map ≡ c.position_map

  read_nodes-Same : (ns : List ℕ) (c c' : Client V S) → read_nodes store ns c ≡ some c' → Same c c'
  unfolding read_nodes
  read_nodes-Same [] c c' h = record { same_leaves = cc h; same_positions = cc h }
  read_nodes-Same (n ∷ ns) c c' h =
      let ((blocks, s1), e, later) = bind-eq-some (store.read_and_clear n c.server) _ h in
      let q = read_nodes-Same ns (record c { stash = c.stash ++ blocks; server = s1 }) c' later in
      record { same_leaves = q.same_leaves; same_positions = q.same_positions }

  evict_nodes-Same :
      (room : ℕ) (ns : List ℕ) (c c' : Client V S)
      → evict_nodes store room ns c ≡ some c'
      → Same c c'
  unfolding evict_nodes
  evict_nodes-Same room [] c c' h = record { same_leaves = cc h; same_positions = cc h }
  evict_nodes-Same room (n ∷ ns) c c' h =
      let ((chosen, kept), chose, h1) =
        bind-eq-some (choose c.position_map c.num_leaves n room c.stash) _ h in
      let (s1, wrote, later) = bind-eq-some (store.write n chosen c.server) _ h1 in
      let q = evict_nodes-Same room ns (record c { stash = kept; server = s1 }) c' later in
      record { same_leaves = q.same_leaves; same_positions = q.same_positions }

  -- The loops do over a logged store what they do over the store, and log a call for each node.
  with_log-nil :
      {c c' : Client V S} (log : List Touch)
      → c ≡ c'
      → some (with_log c log) ≡ some (with_log c' (log ++ []))
  with_log-nil {c' = c'} log same =
      ap (λ d. some (with_log d log)) same ∙ ap (λ l. some (with_log c' l)) (sym (append_nil log))

  read_nodes-logged :
      (ns : List ℕ) (c c' : Client V S) (log : List Touch)
      → read_nodes store ns c ≡ some c'
      → read_nodes (logged store) ns (with_log c log) ≡ some (with_log c' (log ++ readings ns))
  unfolding read_nodes
  read_nodes-logged [] c c' log h = with_log-nil log (cc h)
  read_nodes-logged (n ∷ ns) c c' log h =
      let ((blocks, s1), e, later) = bind-eq-some (store.read_and_clear n c.server) _ h in
      rw e (
        read_nodes-logged ns (record c { stash = c.stash ++ blocks; server = s1 }) c'
          (log ++ reads n ∷ []) later
        ∙ ap (λ l. some (with_log c' l)) (append_assoc log (reads n ∷ []) (readings ns)))

  evict_nodes-logged :
      (room : ℕ) (ns : List ℕ) (c c' : Client V S) (log : List Touch)
      → evict_nodes store room ns c ≡ some c'
      → evict_nodes (logged store) room ns (with_log c log)
        ≡ some (with_log c' (log ++ writings ns))
  unfolding evict_nodes
  evict_nodes-logged room [] c c' log h = with_log-nil log (cc h)
  evict_nodes-logged room (n ∷ ns) c c' log h =
      let ((chosen, kept), chose, h1) =
        bind-eq-some (choose c.position_map c.num_leaves n room c.stash) _ h in
      let (s1, wrote, later) = bind-eq-some (store.write n chosen c.server) _ h1 in
      rw (chose, wrote)
        (evict_nodes-logged room ns (record c { stash = kept; server = s1 }) c'
            (log ++ writes n ∷ []) later
          ∙ ap (λ l. some (with_log c' l)) (append_assoc log (writes n ∷ []) (writings ns)))

  evict_path-logged :
      (leaf : ℕ) (c c' : Client V S) (log : List Touch)
      → evict_path store leaf c ≡ some c'
      → (evict_path (logged store) leaf (with_log c log)
          ≡ some (with_log c' (log ++ writings (path_nodes c.num_leaves leaf))))
        × Same c c'
  unfolding evict_path
  evict_path-logged leaf c c' log h =
      let ns = path_nodes c.num_leaves leaf in
      let room = store.bucket_capacity c.server in
      (evict_nodes-logged room ns c c' log h, evict_nodes-Same room ns c c' h)

  -- An access that returns does over a logged store what it does over the store.
  access-logged :
      (id : ℕ) (nv : Option V) (drawn_old drawn_new : ℕ) (c c' : Client V S) (log : List Touch)
      {v : Option V}
      → access store id nv drawn_old drawn_new c ≡ some (v, c')
      → (access (logged store) id nv drawn_old drawn_new (with_log c log)
          ≡ some (
            v,
            with_log c' (
                (log ++ readings (path_nodes c.num_leaves (leaf_or (c.position_map id) drawn_old)))
                ++ writings (path_nodes c.num_leaves (leaf_or (c.position_map id) drawn_old))),
          ))
        × (c'.position_map ≡ insert_position id drawn_new c.position_map)
  unfolding access read_path_into_stash
  access-logged id nv drawn_old drawn_new c c' log {v} h =
      let leaf = leaf_or (c.position_map id) drawn_old in
      let ns = path_nodes c.num_leaves leaf in
      let c0 = record c { position_map = insert_position id drawn_new c.position_map } in
      let (c1, read, h1) = bind-eq-some (read_nodes store ns c0) _ h in
      let q1 = read_nodes-Same ns c0 c1 read in
      let found = position id c1.stash in
      let put = record c1 { stash = put_value id found nv c1.stash } in
      let (c2, evicted, h2) = bind-eq-some (evict_path store leaf put) _ h1 in
      let (seen, q2) = evict_path-logged leaf put c2 (log ++ readings ns) evicted in
      let last : c2 ≡ c' = cc h2 in
      let returned : (found >>= value_at c1.stash) ≡ v = cc h2 in
      (
        rw (read_nodes-logged ns c0 c1 log read) (
            ap (λ o. o >>= λ d. some (found >>= value_at c1.stash, d)) seen
            ∙ ap
                (λ k. some (
                  found >>= value_at c1.stash,
                  with_log c2 ((log ++ readings ns) ++ writings (path_nodes k leaf)),
                ))
                q1.same_leaves
            ∙ ap₂ (λ o d. some (o, with_log d ((log ++ readings ns) ++ writings ns))) returned
                last),
        ap (λ d. d.position_map) (sym last) ∙ q2.same_positions ∙ q1.same_positions,
      )

module _ {V S : Type 0} {store : ServerStorage V S} (law : IsStore store) where
  -- An access of a client that holds a map, whose tree has 2 ^ depth leaves, with leaves drawn
  -- within the tree, returns the value of the block in the map, for any store that keeps the
  -- contract of the trait, and does the same over that store with a log of its calls. For the leaf
  -- of the block, or the drawn one if it has none, the access adds to the log one reading of each
  -- node on the path of the leaf, in order, and then one writing of each, in the same order, and
  -- nothing else; the path has depth + 1 nodes, no two the same; and the leaf of the block is now
  -- the newly drawn one.
  pub access-Touches :
      (c : Client V S) (m : ℕ → Option V) (id : ℕ) (nv : Option V) (drawn_old drawn_new : ℕ)
      (log : List Touch)
      → Holds law c m
      → c.num_leaves ≡ 2 ^ c.depth
      → drawn_old < c.num_leaves
      → drawn_new < c.num_leaves
      → (c' : Client V S) × (trace : List Touch) × (access store id nv drawn_old drawn_new c
          ≡ some (m id, c'))
        × (access (logged store) id nv drawn_old drawn_new (with_log c log)
            ≡ some (m id, with_log c' (log ++ trace)))
        × Touches c.depth c.num_leaves (leaf_or (c.position_map id) drawn_old) trace
        × (c'.position_map id ≡ some drawn_new)
  access-Touches c m id nv drawn_old drawn_new log h tree old_lt new_lt =
      let leaf = leaf_or (c.position_map id) drawn_old in
      let ns = path_nodes c.num_leaves leaf in
      let leaf_lt : leaf < c.num_leaves =
        leaf_or-lt law (c.position_map id) drawn_old c.num_leaves old_lt (h.in_range id) in
      let (c', run, same, held) = access-Holds law c m id nv drawn_old drawn_new h old_lt new_lt in
      let (seen, positions) = access-logged store id nv drawn_old drawn_new c c' log run in
      (
        c',
        readings ns ++ writings ns,
        run,
        seen ∙ ap (λ l. some (m id, with_log c' l)) (append_assoc log (readings ns) (writings ns)),
        record {
          path = ns;
          of_leaf = refl;
          in_order = refl;
          levels =
              ap (λ k. length (path_nodes k leaf)) tree
              ∙ length-path_nodes c.depth leaf (subst (λ k. leaf < k) tree leaf_lt);
          falls = path_nodes-Falls c.num_leaves leaf h.leaves leaf_lt;
        },
        ap (λ f. f id) positions ∙ ground arith,
      )
