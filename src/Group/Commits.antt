-- ===== src/Group/Commits.antt =====
-- crates/core/src/group.rs: making a commit, and applying one that was received.
use novachannel.Common.{
  ℕ, suc, ◌-◌, not, Option, none, some, List, [], ◌∷◌, Result, ok, err, panic, Bytes, bytes_eq,
  ascii, ◌>>=◌, ◌>>◌, pure, lift, gets, modify, if◌then◌else◌, ◌==◌, length, drop,
}
use novachannel.Common.Fallible.{then_else, expect}
use novachannel.Errors.{
  Error, Call, malformed, not_a_group_member, wrong_state, path_key_mismatch,
  commit_not_decryptable,
}
use novachannel.Crypto.{Primitives}
use novachannel.Kex.{Draw}
use novachannel.Identity.{Identity, verify, sign}
use novachannel.Group.Index.{leaf_to_node, sibling, direct_path}
use novachannel.Group.Keys.{TreeNode, key_eq}
use novachannel.Group.Sealing.{
  SealedToNode, keypair_public, seal_to_node, open_from_node, derive_node_keypair, hkdf_expand32,
  label_path_step,
}
use novachannel.Group.Messages.{GroupOp, UpdatePathNode, Commit, commit_signed_bytes}
use novachannel.Group.Resolution.{resolution, node_public_key}
use novachannel.Group.State.{Group, as_u32, insert, is_member, member_package, spliced, apply}

unfoldable pub path_secret_aad_context : Bytes
unfolding ascii
path_secret_aad_context = ascii "novachannel group v1 path secret"

unfoldable pub welcome_aad_context : Bytes
unfolding ascii
welcome_aad_context = ascii "novachannel group v1 welcome"

-- `new_known`: the secrets of the nodes of a path.
abbrev pub PathSecrets : Type 0
PathSecrets = List (ℕ × Bytes)

unfoldable pub secret_at : ℕ → PathSecrets → Option Bytes
secret_at d [] = none
secret_at d ((n, secret) ∷ known) =
    let later = secret_at d known in if n == d then some secret else later

unfoldable pub last_of : List ℕ → Option ℕ
last_of [] = none
last_of (d ∷ []) = some d
last_of (d ∷ e ∷ path) = last_of (e ∷ path)

-- The secret of the last node of a path.
unfoldable pub commit_secret_of : List ℕ → PathSecrets → Result Error Bytes
unfolding secret_at last_of
commit_secret_of path known = then_else (expect (last_of path)) (λ d. expect (secret_at d known))

unfoldable pub keep_secrets : PathSecrets → (ℕ → Option Bytes) → ℕ → Option Bytes
keep_secrets [] m = m
keep_secrets ((n, secret) ∷ known) m = keep_secrets known (insert n secret m)

-- What one level of a path update is made of.
pub record Level : Type 0 where
  pub node : UpdatePathNode
  pub secret : ℕ × Bytes

unfoldable pub nodes_of : List Level → List UpdatePathNode
nodes_of [] = []
nodes_of (l ∷ levels) = l.node ∷ nodes_of levels

unfoldable pub secrets_of : List Level → PathSecrets
secrets_of [] = []
secrets_of (l ∷ levels) = l.secret ∷ secrets_of levels

-- What a receiver learns from a commit before it changes anything: the tree before the commit, and the
-- secrets of the path from the level that it could open.
pub record Learned : Type 0 where
  pub pre_commit_nodes : List TreeNode
  pub known : PathSecrets
  pub commit_secret : Bytes

unfoldable pub signed_part : Commit → Bytes
signed_part c = commit_signed_bytes c.group_id c.from_epoch c.sender_leaf c.op c.path

module _ (prim : Primitives) where
  -- The secret of a level, sealed to each of its targets with a draw for each.
  unfoldable pub seal_each :
      (ℕ → Draw) → List TreeNode → Bytes → List ℕ → Result Error (List SealedToNode)
  seal_each draws nodes secret [] = ok []
  seal_each draws nodes secret (t ∷ targets) =
      then_else (expect (node_public_key nodes t)) (λ public_key.
        then_else (seal_to_node prim (draws t) public_key path_secret_aad_context secret)
          (λ sealed. then_else (seal_each draws nodes secret targets) (λ rest. ok (sealed ∷ rest))))

  -- The levels of the path above the node `prev`. A draw is named by its level and its target.
  unfoldable pub path_levels :
      (ℕ → ℕ → Draw) → List TreeNode → ℕ → ℕ → Bytes → List ℕ → Result Error (List Level)
  path_levels draws nodes capacity prev secret [] = ok []
  path_levels draws nodes capacity prev secret (d ∷ path) =
      then_else (derive_node_keypair prim secret) (λ keypair.
        then_else (expect (sibling prev)) (λ target.
          then_else (expect (resolution nodes capacity target)) (λ targets.
            then_else (seal_each (draws d) nodes secret targets) (λ ciphertexts.
              then_else (hkdf_expand32 prim secret label_path_step) (λ next.
                then_else (path_levels draws nodes capacity d next path) (λ rest. ok (
                  record {
                    node = record {
                      public_key = keypair_public keypair;
                      ciphertexts = ciphertexts;
                    };
                    secret = (d, secret);
                  }
                  ∷ rest)))))))

  unfoldable pub commit : Identity → GroupOp → Bytes → (ℕ → ℕ → Draw) → Call Group Commit
  commit signer op fresh draws = do
    pre_commit_nodes ← λ g. (spliced g op, g)
    g ← gets (λ g. g)
    let path = direct_path g.capacity g.my_leaf
    levels ← lift (
        path_levels draws pre_commit_nodes g.capacity (leaf_to_node g.capacity g.my_leaf) fresh
          path)
    commit_secret ← lift (commit_secret_of path (secrets_of levels))
    let signed = commit_signed_bytes g.group_id g.epoch (as_u32 g.my_leaf) op (nodes_of levels)
    signature ← lift (sign prim.signatures signer signed)
    apply prim.kdf pre_commit_nodes path (nodes_of levels) commit_secret signed
    modify (λ s. record s { known_secrets = keep_secrets (secrets_of levels) s.known_secrets })
    s ← gets (λ s. s)
    pure (record {
      group_id = s.group_id;
      from_epoch = s.epoch - 1;
      sender_leaf = as_u32 s.my_leaf;
      op = op;
      path = nodes_of levels;
      signature = signature;
    })

  -- The first ciphertext that opens.
  unfoldable pub first_opened : (dh_secret kem_secret : Bytes) → List SealedToNode → Option Bytes
  first_opened dh_secret kem_secret [] = none
  first_opened dh_secret kem_secret (ct ∷ ciphertexts) =
      let later = first_opened dh_secret kem_secret ciphertexts in
      elim (open_from_node prim dh_secret kem_secret path_secret_aad_context ct) [
        | ok bytes ↦ some bytes
        | err e ↦ later
        | panic ↦ later
      ]

  unfoldable pub opened_secret :
      (dh_secret kem_secret : Bytes) → List SealedToNode → Result Error (Option Bytes)
  opened_secret dh_secret kem_secret ciphertexts =
      elim (first_opened dh_secret kem_secret ciphertexts) [
        | none ↦ ok none
        | some bytes ↦
            if length bytes == 32
            then ok (some bytes)
            else err (malformed "decrypted path secret has the wrong length")
      ]

  -- What this member opens as the node `t`.
  unfoldable pub open_as : Group → ℕ → List SealedToNode → Result Error (Option Bytes)
  open_as g t ciphertexts =
      if t == leaf_to_node g.capacity g.my_leaf
      then elim g.my_leaf_keys [
        | none ↦ ok none
        | some (dh_secret, kem_secret) ↦ opened_secret dh_secret kem_secret ciphertexts
      ]
      else elim (g.known_secrets t) [
        | none ↦ ok none
        | some known ↦
            then_else (derive_node_keypair prim known)
              (λ k. opened_secret k.dh_secret k.kem_secret ciphertexts)
      ]

  unfoldable pub open_as_any : Group → List SealedToNode → List ℕ → Result Error (Option Bytes)
  open_as_any g ciphertexts [] = ok none
  open_as_any g ciphertexts (t ∷ targets) =
      let later = open_as_any g ciphertexts targets in
      then_else (open_as g t ciphertexts)
        (λ found. elim found [ none ↦ later | some secret ↦ ok (some secret) ])

  -- The levels `i`, `i + 1`, ... of a path update; the two lists are equally long.
  unfoldable pub find_from :
      Group → List TreeNode → ℕ → ℕ → List ℕ → List UpdatePathNode → Result Error (ℕ × Bytes)
  find_from g nodes prev i [] commit_path = err commit_not_decryptable
  find_from g nodes prev i (d ∷ path) [] = panic
  find_from g nodes prev i (d ∷ path) (n ∷ commit_path) =
      let later = find_from g nodes d (suc i) path commit_path in
      then_else (expect (sibling prev)) (λ target.
        then_else (expect (resolution nodes g.capacity target)) (λ targets.
          then_else (open_as_any g n.ciphertexts targets)
            (λ found. elim found [ none ↦ later | some secret ↦ ok (i, secret) ])))

  unfoldable pub find_and_decrypt :
      Group → List TreeNode → ℕ → List ℕ → List UpdatePathNode → Result Error (ℕ × Bytes)
  find_and_decrypt g pre_commit_nodes sender_leaf path commit_path =
      find_from g pre_commit_nodes (leaf_to_node g.capacity sender_leaf) 0 path commit_path

  -- The secret of the next level, if there is one.
  unfoldable pub next_secret : Bytes → List ℕ → Result Error Bytes
  next_secret secret [] = ok secret
  next_secret secret (d ∷ path) = hkdf_expand32 prim secret label_path_step

  unfoldable pub check_path : Bytes → List ℕ → List UpdatePathNode → Result Error PathSecrets
  check_path secret [] path_nodes = ok []
  check_path secret (d ∷ path) [] = panic
  check_path secret (d ∷ path) (n ∷ path_nodes) =
      then_else (derive_node_keypair prim secret) (λ keypair.
        if not (key_eq (keypair_public keypair) n.public_key)
        then err path_key_mismatch
        else then_else (next_secret secret path)
            (λ next. then_else (check_path next path path_nodes) (λ rest. ok ((d, secret) ∷ rest))))

  unfoldable pub learn : Commit → Group → Result Error Learned
  learn c g =
      if not (bytes_eq c.group_id g.group_id)
      then err (malformed "commit is for a different group")
      else if not (c.from_epoch == g.epoch)
      then err wrong_state
      else if not (is_member g c.sender_leaf)
      then err not_a_group_member
      else then_else (expect (member_package g c.sender_leaf)) (λ p.
        then_else (verify prim.signatures p.identity (signed_part c) c.signature) (λ _.
          then_else (spliced g c.op) (λ pre_commit_nodes.
            let path = direct_path g.capacity c.sender_leaf in
            if not (length path == length c.path)
            then err (malformed "commit path length does not match tree depth")
            else then_else (find_and_decrypt g pre_commit_nodes c.sender_leaf path c.path) (λ found.
              then_else (check_path found.1 (drop found.0 path) (drop found.0 c.path)) (λ known.
                then_else (commit_secret_of path known) (λ commit_secret. ok (record {
                  pre_commit_nodes = pre_commit_nodes;
                  known = known;
                  commit_secret = commit_secret;
                })))))))

  unfoldable pub apply_commit : Commit → Call Group (Unit {0})
  apply_commit c = do
    l ← λ g. (learn c g, g)
    path ← gets (λ g. direct_path g.capacity c.sender_leaf)
    apply prim.kdf l.pre_commit_nodes path c.path l.commit_secret (signed_part c)
    modify (λ g. record g { known_secrets = keep_secrets l.known g.known_secrets })
