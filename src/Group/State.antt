-- ===== src/Group/State.antt =====
-- crates/core/src/group.rs: the state of one member, and its change of epoch. What the program draws is
-- an argument. A hash map is a function. The vector `nodes` holds `2 * capacity - 1` nodes throughout, so
-- that no index below is out of range.
use novachannel.Common.{
  ℕ, zero, suc, ◌+◌, ◌-◌, ◌*◌, ◌%◌, ◌^◌, Bool, true, false, not, ◌&&◌, ◌||◌, Option, none, some,
  List, [], ◌∷◌, ◌++◌, Result, ok, err, panic, Bytes, ascii, ◌>>=◌, ◌>>◌, lift, modify,
  if◌then◌else◌, ltb, leb, ◌==◌, get_or, set, replicate,
}
use novachannel.Common.Fallible.{then_else, expect}
use novachannel.Errors.{Error, Call, malformed, not_a_group_member}
use novachannel.Crypto.{Primitives, Kdf}
use novachannel.Kex.{Draw}
use novachannel.Identity.{Identity, PublicIdentity}
use novachannel.Wire.{to_be_bytes}
use novachannel.Group.Index.{leaf_to_node, direct_path}
use novachannel.Group.Keys.{
  LeafKeyPackage, TreeNode, blank, leaf, parent, generate_package, package_public,
}
use novachannel.Group.Sealing.{hkdf, no_salt}
use novachannel.Group.Messages.{
  GroupOp, add, remove, update, UpdatePathNode, is_power_of_two, max_capacity,
}

unfoldable pub label_epoch_secret : Bytes
unfolding ascii
label_epoch_secret = ascii "novachannel group v1 epoch secret"

unfoldable pub label_application_secret : Bytes
unfolding ascii
label_application_secret = ascii "novachannel group v1 application secret"

unfoldable pub label_sender_chain : Bytes
unfolding ascii
label_sender_chain = ascii "novachannel group v1 sender chain"

abbrev pub label_message_key : Bytes
label_message_key = 1 ∷ []

abbrev pub label_next_chain : Bytes
label_next_chain = 2 ∷ []

pub record Group : Type 0 where
  pub group_id : Bytes
  pub capacity : ℕ
  pub nodes : List TreeNode
  pub epoch : ℕ
  pub epoch_secret : Bytes
  pub application_secret : Bytes
  pub transcript_hash : Bytes
  pub my_leaf : ℕ
  pub my_leaf_keys : Option (Bytes × Bytes)
  pub known_secrets : ℕ → Option Bytes
  pub send_seq : ℕ
  pub send_chain : Bytes
  pub recv_chains : ℕ → Option (Bytes × ℕ)

abbrev pub as_u32 : ℕ → ℕ
as_u32 n = n % 2 ^ 32

abbrev pub no_entries {ℓ} : {A : Type ℓ} → ℕ → Option A
no_entries _ = none

-- `HashMap::insert`.
unfoldable pub insert {ℓ} : {A : Type ℓ} → ℕ → A → (ℕ → Option A) → ℕ → Option A
insert k v m = λ j. if j == k then some v else m j

unfoldable pub leaf_package : TreeNode → Option LeafKeyPackage
leaf_package (leaf p) = some p
leaf_package blank = none
leaf_package (parent k) = none

unfoldable pub is_blank : TreeNode → Bool
is_blank blank = true
is_blank (leaf p) = false
is_blank (parent k) = false

-- The package at a leaf below the capacity.
unfoldable pub member_package : Group → ℕ → Option LeafKeyPackage
unfolding leaf_package
member_package g i = leaf_package (get_or g.nodes (leaf_to_node g.capacity i) blank)

unfoldable pub member_identity : Group → ℕ → Option PublicIdentity
member_identity g i =
    if leb g.capacity i
    then none
    else elim (member_package g i) [ none ↦ none | some p ↦ some p.identity ]

unfoldable pub is_some {ℓ} : {A : Type ℓ} → Option A → Bool
is_some none = false
is_some (some a) = true

unfoldable pub is_member : Group → ℕ → Bool
unfolding is_some
is_member g i = ltb i g.capacity && is_some (member_package g i)

-- The first of the leaves `i`, `i + 1`, ... that is not a member's.
unfoldable pub blank_leaf_from : Group → ℕ → ℕ → Option ℕ
blank_leaf_from g zero i = none
blank_leaf_from g (suc rounds) i =
    let later = blank_leaf_from g rounds (suc i) in if is_member g i then later else some i

unfoldable pub first_blank_leaf : Group → Option ℕ
first_blank_leaf g = blank_leaf_from g g.capacity 0

unfoldable pub blank_all : List ℕ → List TreeNode → List TreeNode
blank_all [] nodes = nodes
blank_all (n ∷ path) nodes = blank_all path (set nodes n blank)

unfoldable pub spliced : Group → GroupOp → Result Error (List TreeNode)
unfolding is_blank
spliced g (add leaf_index key_package) =
    let node = leaf_to_node g.capacity leaf_index in
    if leb g.capacity leaf_index || not (is_blank (get_or g.nodes node blank))
    then err (malformed "add targets a non-blank or out-of-range leaf")
    else ok (set g.nodes node (leaf key_package))
spliced g (remove leaf_index) =
    let node = leaf_to_node g.capacity leaf_index in
    if leb g.capacity leaf_index
    then err (malformed "remove targets an out-of-range leaf")
    else if is_blank (get_or g.nodes node blank)
    then err not_a_group_member
    else ok (blank_all (direct_path g.capacity leaf_index) (set g.nodes node blank))
spliced g update = ok g.nodes

-- The keys of a path update, put on the nodes of the path.
unfoldable pub install : List ℕ → List UpdatePathNode → List TreeNode → List TreeNode
install [] path_nodes nodes = nodes
install (d ∷ path) [] nodes = nodes
install (d ∷ path) (n ∷ path_nodes) nodes =
    install path path_nodes (set nodes d (parent n.public_key))

unfoldable pub hmac32 : Kdf → (key label : Bytes) → Bytes
hmac32 kdf key label = kdf.hmac key label

-- The next chain key, and the message key.
unfoldable pub advance : Kdf → Bytes → Bytes × Bytes
unfolding hmac32
advance kdf chain = (hmac32 kdf chain label_next_chain, hmac32 kdf chain label_message_key)

module _ (kdf : Kdf) where
  unfoldable pub derive_sender_chain : (application_secret : Bytes) → ℕ → Result Error Bytes
  derive_sender_chain application_secret i =
      hkdf kdf no_salt application_secret (label_sender_chain ++ to_be_bytes 4 i) 32

  unfoldable pub initial_epoch_secret : (init group_id : Bytes) → Result Error Bytes
  initial_epoch_secret init group_id =
      then_else (expect (kdf.from_prk (kdf.extract no_salt (init ++ group_id))))
        (λ hk. expect (kdf.expand hk label_epoch_secret 32))

  unfoldable pub genesis_transcript_hash : Bytes → Bytes
  genesis_transcript_hash group_id = kdf.sha256 group_id

  unfoldable pub derive_application_secret : Bytes → Result Error Bytes
  derive_application_secret epoch_secret = hkdf kdf no_salt epoch_secret label_application_secret 32

  -- `self.epoch += 1` overflows a `u64` at its largest value.
  unfoldable pub next_epoch : Call Group (Unit {0})
  next_epoch g =
      if g.epoch + 1 == 2 ^ 64 then (panic, g) else (ok tt, record g { epoch = g.epoch + 1 })

  -- The secret of the epoch after a commit.
  unfoldable pub next_epoch_secret : Group → Bytes → Result Error Bytes
  next_epoch_secret g commit_secret =
      hkdf kdf g.epoch_secret commit_secret (label_epoch_secret ++ g.transcript_hash) 32

  unfoldable pub apply :
      List TreeNode
      → List ℕ
      → List UpdatePathNode
      → (commit_secret signed_commit_bytes : Bytes) → Call Group (Unit {0})
  apply pre_commit_nodes path path_nodes commit_secret signed_commit_bytes = do
    modify (λ g. record g {
      nodes = install path path_nodes pre_commit_nodes;
      transcript_hash = kdf.sha256 (g.transcript_hash ++ signed_commit_bytes);
    })
    new_epoch_secret ← λ g. (next_epoch_secret g commit_secret, g)
    modify (λ g. record g { epoch_secret = new_epoch_secret })
    application_secret ← lift (derive_application_secret new_epoch_secret)
    modify (λ g. record g { application_secret = application_secret })
    next_epoch
    chain ← λ g. (derive_sender_chain g.application_secret (as_u32 g.my_leaf), g)
    modify (λ g. record g { send_chain = chain; send_seq = 0; recv_chains = no_entries })

module _ (prim : Primitives) where
  -- The draws are the keys of the founder's leaf, the group's id and the seed of the first epoch.
  unfoldable pub create : Identity → ℕ → Draw → (group_id init : Bytes) → Result Error Group
  create my_identity capacity drawn group_id init =
      if ltb capacity 2 || not (is_power_of_two capacity)
      then err (malformed "group capacity must be a power of two of at least 2")
      else if ltb max_capacity capacity
      then err (malformed "group capacity exceeds this implementation's sanity bound")
      else then_else (generate_package prim my_identity drawn) (λ mine.
        then_else (initial_epoch_secret prim.kdf init group_id) (λ epoch_secret.
          then_else (derive_application_secret prim.kdf epoch_secret) (λ application_secret.
            then_else (derive_sender_chain prim.kdf application_secret 0) (λ send_chain.
              ok (record {
                group_id = group_id;
                capacity = capacity;
                nodes =
                    set (replicate (2 * capacity - 1) blank) (leaf_to_node capacity 0)
                      (leaf (package_public mine));
                epoch = 0;
                epoch_secret = epoch_secret;
                application_secret = application_secret;
                transcript_hash = genesis_transcript_hash prim.kdf group_id;
                my_leaf = 0;
                my_leaf_keys = some (mine.dh_secret, mine.kem_secret);
                known_secrets = no_entries;
                send_seq = 0;
                send_chain = send_chain;
                recv_chains = no_entries;
              })))))
