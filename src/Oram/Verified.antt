-- ===== src/Oram/Verified.antt =====
-- crates/oram/src/lib.rs: accesses that check the server against a Merkle root. SHA-256, and the bytes
-- of a value, are parameters.
pub mod Rejection
pub mod Store
mod Tests
use novachannel.Common.{
  ℕ, zero, suc, ◌+◌, ◌-◌, ◌*◌, ◌%◌, Bool, true, false, not, Option, none, some, List, [], ◌∷◌, ◌++◌,
  if◌then◌else◌, ltb, leb, ◌==◌, length, get_elem?, set, replicate, Bytes, bytes_eq, ascii,
}
use novachannel.Wire.{to_be_bytes}
use novachannel.Oram.{
  ◌>>=◌, Block, ServerStorage, InMemoryServer, new_in_memory, in_memory, Client, path_nodes, choose,
  position, value_at, put_value, insert_position, leaf_or,
}

abbrev pub empty_child : Bytes
empty_child = replicate 32 0

unfoldable pub label_bucket : Bytes
unfolding ascii
label_bucket = ascii "novachannel-oram bucket v1"

unfoldable pub label_node : Bytes
unfolding ascii
label_node = ascii "novachannel-oram node v1"

module _ {V : Type 0} (as_ref : V → Bytes) where
  unfoldable pub blocks_bytes : List (Block V) → Bytes
  blocks_bytes [] = []
  blocks_bytes (b ∷ bs) =
      to_be_bytes 8 b.id
      ++ to_be_bytes 8 (length (as_ref b.value))
      ++ as_ref b.value
      ++ blocks_bytes bs

  unfoldable pub hash_bucket : (sha256 : Bytes → Bytes) → List (Block V) → Bytes
  hash_bucket sha256 blocks =
      sha256 (label_bucket ++ to_be_bytes 8 (length blocks) ++ blocks_bytes blocks)

unfoldable pub hash_node : (sha256 : Bytes → Bytes) → (bucket_hash left right : Bytes) → Bytes
hash_node sha256 bucket_hash left right = sha256 (label_node ++ bucket_hash ++ left ++ right)

pub record VerifiableServerStorage (V S : Type 0) : Type 0 where
  pub base : ServerStorage V S
  pub node_hash : ℕ → S → Option Bytes
  pub set_node_hash : ℕ → Bytes → S → Option S

pub record IntegrityCheckedServer (V : Type 0) : Type 0 where
  pub inner : InMemoryServer V
  pub hashes : List Bytes

unfoldable pub new_integrity_checked : {V : Type 0} → ℕ → ℕ → IntegrityCheckedServer V
new_integrity_checked num_nodes capacity = record {
  inner = new_in_memory num_nodes capacity;
  hashes = replicate num_nodes empty_child;
}

unfoldable pub integrity_checked :
    {V : Type 0} → VerifiableServerStorage V (IntegrityCheckedServer V)
integrity_checked = record {
  base = record {
    read_and_clear = λ node s.
        in_memory.read_and_clear node s.inner >>= λ r. some (r.0, record s { inner = r.1 });
    write = λ node blocks s.
        in_memory.write node blocks s.inner >>= λ inner. some (record s { inner = inner });
    bucket_capacity = λ s. s.inner.capacity;
  };
  node_hash = λ node s. get_elem? s.hashes node;
  set_node_hash = λ node hash s.
      if ltb node (length s.hashes)
      then some (record s { hashes = set s.hashes node hash })
      else none;
}

-- What a verified access returns.
pub data Verified (A : Type 0) : Type 0 where
  verified : A → Verified A
  integrity_error : Verified A

-- A hash map from nodes, collected from pairs: a later pair of a node replaces an earlier one.
unfoldable pub hash_at : ℕ → List (ℕ × Bytes) → Option Bytes
hash_at node [] = none
hash_at node ((n, hash) ∷ rest) = elim (hash_at node rest) [
  | some later ↦ some later
  | none ↦ if n == node then some hash else none
]

unfoldable pub last_hash : List (ℕ × Bytes) → Option Bytes
last_hash [] = none
last_hash ((n, hash) ∷ []) = some hash
last_hash (_ ∷ r ∷ rest) = last_hash (r ∷ rest)

module _ {V S : Type 0} (as_ref : V → Bytes) (sha256 : Bytes → Bytes)
    (store : VerifiableServerStorage V S) where
  -- `for node in num_leaves..2 * num_leaves`, and `for node in (1..num_leaves).rev()`.
  unfoldable pub hash_leaves : (count node : ℕ) → S → Option S
  hash_leaves zero node s = some s
  hash_leaves (suc count) node s = do
    s1 ←
        store.set_node_hash node
          (hash_node sha256 (hash_bucket as_ref sha256 []) empty_child empty_child) s
    hash_leaves count (suc node) s1

  unfoldable pub hash_above : ℕ → S → Option S
  hash_above zero s = some s
  hash_above (suc node) s = do
    left ← store.node_hash (2 * suc node) s
    right ← store.node_hash (2 * suc node + 1) s
    s1 ←
        store.set_node_hash (suc node) (hash_node sha256 (hash_bucket as_ref sha256 []) left right)
          s
    hash_above node s1

  unfoldable pub init_empty_root : Client V S → Option (Client V S)
  init_empty_root c = do
    s1 ← hash_leaves c.num_leaves c.num_leaves c.server
    s2 ← hash_above (c.num_leaves - 1) s1
    root ← store.node_hash 1 s2
    some (record c { server = s2; root = root })

  -- The hash of a node on the path; below it stand the child before it on the path, and its hash.
  unfoldable pub path_hash : ℕ → S → ℕ → Option (ℕ × Bytes) → Bytes → Option Bytes
  path_hash num_leaves s node below bucket_hash =
      if leb num_leaves node
      then some (hash_node sha256 bucket_hash empty_child empty_child)
      else (do
        (prev, cur) ← below
        sibling_hash ← store.node_hash (if prev % 2 == 0 then prev + 1 else prev - 1) s
        some (
            if prev % 2 == 0
            then hash_node sha256 bucket_hash cur sibling_hash
            else hash_node sha256 bucket_hash sibling_hash cur))

  unfoldable pub recompute_path_hashes :
      ℕ → S → Option (ℕ × Bytes) → List ℕ → List (ℕ × Bytes) → Option (List (ℕ × Bytes))
  recompute_path_hashes num_leaves s below [] contents = some []
  recompute_path_hashes num_leaves s below (node ∷ path) contents = do
    bucket_hash ← hash_at node contents
    new_hash ← path_hash num_leaves s node below bucket_hash
    rest ← recompute_path_hashes num_leaves s (some (node, new_hash)) path contents
    some ((node, new_hash) ∷ rest)

  unfoldable pub read_all : List ℕ → S → Option (List (ℕ × List (Block V)) × S)
  read_all [] s = some ([], s)
  read_all (node ∷ path) s = do
    (blocks, s1) ← store.base.read_and_clear node s
    (rest, s2) ← read_all path s1
    some ((node, blocks) ∷ rest, s2)

  unfoldable pub write_all : List (ℕ × List (Block V)) → S → Option S
  write_all [] s = some s
  write_all ((node, blocks) ∷ rest) s = do s1 ← store.base.write node blocks s; write_all rest s1

  abbrev pub bucket_hashes : List (ℕ × List (Block V)) → List (ℕ × Bytes)
  bucket_hashes [] = []
  bucket_hashes ((node, blocks) ∷ rest) =
      (node, hash_bucket as_ref sha256 blocks) ∷ bucket_hashes rest

  abbrev pub all_blocks : List (ℕ × List (Block V)) → List (Block V)
  all_blocks [] = []
  all_blocks ((node, blocks) ∷ rest) = blocks ++ all_blocks rest

  unfoldable pub choose_all :
      (ℕ → Option ℕ)
      → (num_leaves room : ℕ) → List ℕ
      → List (Block V)
      → Option (List (ℕ × List (Block V)) × List (Block V))
  choose_all position num_leaves room [] stash = some ([], stash)
  choose_all position num_leaves room (node ∷ path) stash = do
    (chosen, kept) ← choose position num_leaves node room stash
    (rest, stash1) ← choose_all position num_leaves room path kept
    some ((node, chosen) ∷ rest, stash1)

  unfoldable pub write_hashed : List (ℕ × Bytes) → List (ℕ × List (Block V)) → S → Option S
  write_hashed combined [] s = some s
  write_hashed combined ((node, chosen) ∷ rest) s = do
    hash ← hash_at node combined
    s1 ← store.base.write node chosen s
    s2 ← store.set_node_hash node hash s1
    write_hashed combined rest s2

  -- An access once the path is verified.
  unfoldable pub access_verified :
      ℕ
      → Option V
      → List ℕ
      → List (ℕ × List (Block V))
      → Client V S
      → Option (Verified (Option V) × Client V S)
  access_verified id new_value path contents c = do
    let stash = c.stash ++ all_blocks contents
    let existing = position id stash
    let old_value = existing >>= value_at stash
    (chosen, kept) ←
        choose_all c.position_map c.num_leaves (store.base.bucket_capacity c.server) path
          (put_value id existing new_value stash)
    combined ← recompute_path_hashes c.num_leaves c.server none path (bucket_hashes chosen)
    root ← last_hash combined
    server ← write_hashed combined chosen c.server
    some (verified old_value, record c { stash = kept; root = root; server = server })

  unfoldable pub verified_access :
      ℕ
      → Option V
      → (drawn_old drawn_new : ℕ) → Client V S
      → Option (Verified (Option V) × Client V S)
  verified_access id new_value drawn_old drawn_new c = do
    let path = path_nodes c.num_leaves (leaf_or (c.position_map id) drawn_old)
    let moved = insert_position id drawn_new c.position_map
    (contents, server) ← read_all path c.server
    hashes ← recompute_path_hashes c.num_leaves server none path (bucket_hashes contents)
    observed_root ← last_hash hashes
    if bytes_eq observed_root c.root
        then access_verified id new_value path contents
            (record c { position_map = moved; server = server })
        else (write_all contents server >>= λ s.
            some (integrity_error, record c { position_map = moved; server = s }))

  unfoldable pub verified_read :
      ℕ → (drawn_old drawn_new : ℕ) → Client V S → Option (Verified (Option V) × Client V S)
  verified_read id = verified_access id none

  unfoldable pub verified_write :
      ℕ → V → (drawn_old drawn_new : ℕ) → Client V S → Option (Verified (Option V) × Client V S)
  verified_write id value = verified_access id (some value)
