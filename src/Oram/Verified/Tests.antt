-- ===== src/Oram/Verified/Tests.antt =====
-- crates/oram/src/lib.rs: verified accesses, on an honest and on a tampering server.
use novachannel.Common.{
  ℕ, ◌≡◌, ◌≢◌, true, false, sym, ◌∙◌, refl, arith, Option, some, none, [], ◌∷◌, Bytes, bytes_eq,
  bytes_eq_iff, ascii, set, length,
}
use novachannel.Wire.{to_be_bytes}
use novachannel.Oram.{
  Client, new_in_memory, with_server, read_in_memory, write_in_memory, path_nodes,
  is_ancestor_of_leaf, choose, position, value_at, set_value, put_value, insert_position, leaf_or,
}
use novachannel.Oram.Verified.{
  IntegrityCheckedServer, integrity_checked, new_integrity_checked, Verified, verified,
  integrity_error, label_bucket, label_node, blocks_bytes, hash_bucket, hash_node, hash_at,
  last_hash, hash_leaves, hash_above, init_empty_root, path_hash, recompute_path_hashes, read_all,
  write_all, choose_all, write_hashed, access_verified, verified_access, verified_read,
  verified_write,
}
use novachannel.Oram.Verified.Store.{integrity_checked-IsStore, size-integrity_checked}
use novachannel.Oram.Verified.Rejection.{observed_root, verified_access-rejects}

program : Unit {0}
unfolding ascii bytes_eq to_be_bytes new_in_memory with_server read_in_memory write_in_memory
    path_nodes is_ancestor_of_leaf choose position value_at set_value put_value integrity_checked
    new_integrity_checked label_bucket label_node blocks_bytes hash_bucket hash_node hash_at
    last_hash hash_leaves hash_above init_empty_root path_hash recompute_path_hashes read_all
    write_all choose_all write_hashed access_verified verified_access verified_read verified_write
program = tt

abbrev Tree : Type 0
Tree = Client Bytes (IntegrityCheckedServer Bytes)

abbrev blank : Tree
blank = with_server 1 (new_integrity_checked 4 2)

abbrev or_else : {A : Type 0} → A → Option A → A
or_else d none = d
or_else d (some a) = a

abbrev after : Tree → Option (Verified (Option Bytes) × Tree) → Tree
after d none = d
after d (some r) = r.1

abbrev outcome : Option (Verified (Option Bytes) × Tree) → Verified (Option Bytes)
outcome none = integrity_error
outcome (some r) = r.0

abbrev same_bytes : Bytes → Bytes
same_bytes b = b

abbrev fresh : Tree
fresh = or_else blank (init_empty_root same_bytes same_bytes integrity_checked blank)

-- Block 7 is written and lies on the path of leaf 1.
abbrev stored : Tree
stored = after fresh (verified_write same_bytes same_bytes integrity_checked 7 (5 ∷ []) 1 1 fresh)

-- The server's leaf bucket 3 is emptied.
abbrev tampered : Tree
tampered = record stored {
  server = record stored.server {
    inner = record stored.server.inner { buckets = set stored.server.inner.buckets 3 [] };
  };
}

abbrev rejected : Option (Verified (Option Bytes) × Tree)
rejected = verified_read same_bytes same_bytes integrity_checked 7 0 0 tampered

-- After a rejected read, the server is honest again.
abbrev retried : Option (Verified (Option Bytes) × Tree)
retried =
    verified_read same_bytes same_bytes integrity_checked 7 0 0
      (record (after fresh rejected) { server = stored.server })

verified_run :
    (outcome (verified_read same_bytes same_bytes integrity_checked 7 0 0 stored)
      ≡ verified (some (5 ∷ [])))
    × (outcome rejected ≡ integrity_error)
    × (outcome retried ≡ verified none)
unfolding program
verified_run = (refl, refl, refl)

abbrev seen : Option Bytes
seen =
    observed_root same_bytes same_bytes integrity_checked integrity_checked-IsStore tampered
      (leaf_or (tampered.position_map 7) 0)

abbrev seen_root : Bytes
seen_root = or_else [] seen

seen_at : seen ≡ some seen_root
unfolding program observed_root
seen_at = refl

wrong_root : bytes_eq seen_root tampered.root ≡ false
unfolding program observed_root
wrong_root = refl

seen_root-wrong : seen_root ≢ tampered.root
seen_root-wrong e =
    let clash : true ≡ false = sym ((bytes_eq_iff seen_root tampered.root).1 e) ∙ wrong_root in
    absurd (cc)

tampered_buckets : length tampered.server.inner.buckets ≡ 4
unfolding program
tampered_buckets = refl

tampered_leaves : tampered.num_leaves ≡ 2
unfolding program
tampered_leaves = refl

tampered_leaf : leaf_or (tampered.position_map 7) 0 ≡ 1
unfolding program
tampered_leaf = refl

verified_access-rejects_example :
    (s : IntegrityCheckedServer Bytes) × (verified_access same_bytes same_bytes integrity_checked 7
        none 0 0 tampered
      ≡ some (
        integrity_error,
        record tampered { position_map = insert_position 7 0 tampered.position_map; server = s },
      ))
    × ((k : ℕ)
        → integrity_checked-IsStore.bucket s k ≡ integrity_checked-IsStore.bucket tampered.server k)
verified_access-rejects_example =
    verified_access-rejects same_bytes same_bytes integrity_checked integrity_checked-IsStore
      tampered 7 none 0 0 seen_root (omega (arith, tampered_leaves))
      (omega (arith, tampered_leaves, tampered_buckets, size-integrity_checked tampered.server))
      (omega (arith, tampered_leaves, tampered_leaf)) seen_at seen_root-wrong
