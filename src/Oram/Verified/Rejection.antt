-- ===== src/Oram/Verified/Rejection.antt =====
-- crates/oram/src/lib.rs: what a verified access does if the server's root is not the trusted one.
use novachannel.Common.{
  ℕ, ◌*◌, ◌≤◌, ◌<◌, ◌≡◌, ◌≢◌, refl, ap, sym, ◌∙◌, false, ◌||◌, Option, none, some, Option-cases,
  List, [], ◌∷◌, if◌then◌else◌, ◌==◌, ==_iff, Bool-cases, arith, inl, inr, contains, Bytes,
  bytes_eq, bytes_eq_iff,
}
use novachannel.Oram.{◌>>=◌, Block, Client, path_nodes, insert_position, leaf_or}
use novachannel.Oram.Tree.{Falls, Falls-contains, path_nodes-Falls}
use novachannel.Oram.Storage.{IsStore}
use novachannel.Oram.Verified.{
  VerifiableServerStorage, integrity_error, last_hash, recompute_path_hashes, read_all, write_all,
  bucket_hashes, verified_access,
}

module _ {V S : Type 0} (as_ref : V → Bytes) (sha256 : Bytes → Bytes)
    (store : VerifiableServerStorage V S) (law : IsStore store.base) where
  open law use {bucket, size}

  -- After the path is read, its buckets are in `contents`; writing them puts every bucket back.
  record Borrowed (path : List ℕ) (s : S) (contents : List (ℕ × List (Block V))) (s1 : S)
      : Type 0 where
    same_size : size s1 ≡ size s
    others : (k : ℕ) → contains path k ≡ false → bucket s1 k ≡ bucket s k
    puts_back :
        (t : S)
        → size t ≡ size s
        → (t' : S) × (write_all as_ref sha256 store contents t ≡ some t')
          × (size t' ≡ size s)
          × ((k : ℕ) → bucket t' k ≡ (if contains path k then bucket s k else bucket t k))

  read_all-Borrowed :
      (path : List ℕ) (top : ℕ) (s : S)
      → Falls top path
      → top ≤ size s
      → (contents : List (ℕ × List (Block V))) × (s1 : S) × (read_all as_ref sha256 store path s
          ≡ some (contents, s1))
        × Borrowed path s contents s1
  unfolding read_all write_all
  read_all-Borrowed [] top s f fits = (
    [],
    s,
    refl,
    record { same_size = refl; others = λ k h. refl; puts_back = λ t e. (t, refl, e, λ k. refl) },
  )
  read_all-Borrowed (n ∷ path) top s (lt, lo, f) fits =
      let (s0, run, e0, cap, view) = law.reads n s (omega arith) in
      let (contents, s1, run1, b) = read_all-Borrowed path n s0 f (omega arith) in
      (
        (n, bucket s n) ∷ contents,
        s1,
        rw (run, run1) refl,
        record {
          same_size = b.same_size ∙ e0;
          others = λ k h. b.others k (ground arith) ∙ view k ∙ ground arith;
          puts_back = λ t e.
              let (t0, wrote, e1, cap1, put) = law.writes n (bucket s n) t (omega arith) in
              let (t', run2, e2, back) = b.puts_back t0 (omega arith) in
              (t', rw (wrote, run2) refl, e2 ∙ e0, λ k. restored k t t0 t' view put back);
        },
      )
    where
      restored :
          {s0 : S} (k : ℕ) (t t0 t' : S)
          → ((k : ℕ) → bucket s0 k ≡ (if k == n then [] else bucket s k))
          → ((k : ℕ) → bucket t0 k ≡ (if k == n then bucket s n else bucket t k))
          → ((k : ℕ) → bucket t' k ≡ (if contains path k then bucket s0 k else bucket t0 k))
          → bucket t' k ≡ (if k == n || contains path k then bucket s k else bucket t k)
      restored {s0 = s0} k t t0 t' view put back = elim (Bool-cases (k == n)) [
        | inl here ↦
            let same : k ≡ n = (==_iff k n).0 here in
            let away : contains path k ≡ false = Falls-contains n k path f (omega arith) in
            let first : bucket t' k ≡ bucket t0 k = back k ∙ rw away refl in
            let second : bucket t0 k ≡ bucket s n = put k ∙ rw here refl in
            rw here (first ∙ second ∙ ap (bucket s) (sym same))
        | inr there ↦ elim (Bool-cases (contains path k)) [
          | inl on ↦
              let first : bucket t' k ≡ bucket s0 k = back k ∙ rw on refl in
              rw (there, on) (first ∙ view k ∙ rw there refl)
          | inr off ↦
              let first : bucket t' k ≡ bucket t0 k = back k ∙ rw off refl in
              rw (there, off) (first ∙ put k ∙ rw there refl)
        ]
      ]

  -- The root that the client computes from what the server holds on the path of a leaf.
  unfoldable pub observed_root : Client V S → ℕ → Option Bytes
  observed_root c leaf = do
    (contents, server) ← read_all as_ref sha256 store (path_nodes c.num_leaves leaf) c.server
    hashes ←
        recompute_path_hashes as_ref sha256 store c.num_leaves server none
          (path_nodes c.num_leaves leaf) (bucket_hashes as_ref sha256 store contents)
    last_hash hashes

  -- If the root observed on the path of the block is not the trusted one, a verified access returns the
  -- integrity error. The server's buckets are as before, and so are the stash and the trusted root; but
  -- the position of the block is the newly drawn leaf, which is not where the block is.
  pub verified_access-rejects :
      (c : Client V S) (id : ℕ) (new_value : Option V) (drawn_old drawn_new : ℕ) (root : Bytes)
      → 1 ≤ c.num_leaves
      → 2 * c.num_leaves ≤ size c.server
      → leaf_or (c.position_map id) drawn_old < c.num_leaves
      → observed_root c (leaf_or (c.position_map id) drawn_old) ≡ some root
      → root ≢ c.root
      → (s : S) × (verified_access as_ref sha256 store id new_value drawn_old drawn_new c
          ≡ some (
            integrity_error,
            record c { position_map = insert_position id drawn_new c.position_map; server = s },
          ))
        × ((k : ℕ) → bucket s k ≡ bucket c.server k)
  unfolding verified_access observed_root
  verified_access-rejects c id new_value drawn_old drawn_new root lo fits lt seen ne =
      let leaf = leaf_or (c.position_map id) drawn_old in
      let path = path_nodes c.num_leaves leaf in
      let (contents, s1, run, b) =
        read_all-Borrowed path (2 * c.num_leaves) c.server
          (path_nodes-Falls c.num_leaves leaf lo lt) fits in
      let (s2, wrote, _, back) = b.puts_back s1 b.same_size in
      let found =
        recompute_path_hashes as_ref sha256 store c.num_leaves s1 none path
          (bucket_hashes as_ref sha256 store contents) in
      let computed : observed_root c leaf ≡ (found >>= last_hash) = rw run refl in
      let bad : bytes_eq root c.root ≡ false = differs root c.root ne in
      elim (Option-cases found) [
        | inl e ↦
            let gone : (found >>= last_hash) ≡ none = rw e refl in
            let clash : none ≡ some root = sym gone ∙ sym computed ∙ seen in absurd (cc)
        | inr (hashes, e) ↦
            let same : (found >>= last_hash) ≡ last_hash hashes = rw e refl in
            let last : last_hash hashes ≡ some root = sym same ∙ sym computed ∙ seen in
            (
              s2,
              rw (run, e, last, bad, wrote) refl,
              λ k. back k ∙ whole path c.server s1 b.others k,
            )
      ]
    where
      differs : (xs ys : Bytes) → xs ≢ ys → bytes_eq xs ys ≡ false
      differs xs ys ne = elim (Bool-cases (bytes_eq xs ys)) [
        | inl same ↦ absurd (ne ((bytes_eq_iff xs ys).0 same))
        | inr other ↦ other
      ]

      whole :
          (path : List ℕ) (s s1 : S)
          → ((k : ℕ) → contains path k ≡ false → bucket s1 k ≡ bucket s k)
          → (k : ℕ) → (if contains path k then bucket s k else bucket s1 k) ≡ bucket s k
      whole path s s1 others k = elim (Bool-cases (contains path k)) [
        | inl on ↦ rw on refl
        | inr off ↦ rw off (others k off)
      ]
