-- ===== src/Group/Sending.antt =====
-- crates/core/src/group.rs: a commit that its maker makes, and that the others apply.
use novachannel.Common.{
  ℕ, ◌+◌, ◌-◌, ◌*◌, ◌^◌, ◌<◌, ◌≡◌, refl, ap, ap₂, sym, ◌∙◌, subst, some, List, arith, length, ok,
  Bytes,
}
use novachannel.Common.Fallible.{Ensures-ok}
use novachannel.Crypto.{Primitives, IsPrimitives}
use novachannel.Kex.{Draw}
use novachannel.Identity.{Identity, PublicIdentity, HybridSignature, sign, verify}
use novachannel.Group.Index.{leaf_to_node, direct_path}
use novachannel.Group.Keys.{NodePublicKey, LeafKeyPackage, TreeNode}
use novachannel.Group.Messages.{GroupOp, Commit, commit_signed_bytes}
use novachannel.Group.Resolution.{node_public_key}
use novachannel.Group.State.{Group, as_u32, member_package, spliced, install, apply}
use novachannel.Group.Commits.{
  Level, nodes_of, secrets_of, commit_secret_of, path_levels, keep_secrets, signed_part, commit,
}
use novachannel.Group.Invariant.{IsGroup, leaf_to_node-lt, spliced-Ensures}
use novachannel.Group.Learning.{commit_secret_of-some}
use novachannel.Group.Epoch.{Applied, apply-ok}
use novachannel.Group.Seals.{Contributes, SealsAll}
use novachannel.Group.Making.{path_levels-keys, path_levels-ok}
use novachannel.Group.Agreement.{length-direct_path, Sent}

-- The signer has the key of the identity.
abbrev pub SignsFor : Primitives → Identity → PublicIdentity → Type 0
SignsFor prim signer identity =
    (message : Bytes)
    → (s : HybridSignature) × (sign prim.signatures signer message ≡ ok s)
      × (verify prim.signatures identity message s ≡ ok tt)

-- Each draw contributes to the exchange with the key of each node.
abbrev pub AllContribute : Primitives → (ℕ → ℕ → Draw) → List TreeNode → Type 0
AllContribute prim draws nodes =
    (d t : ℕ) (k : NodePublicKey)
    → node_public_key nodes t ≡ some k
    → Contributes prim (draws d t) k

-- A commit made, and the state of its maker.
pub record Committed (prim : Primitives) (g : Group) (signer : Identity) (op : GroupOp)
    (nodes : List TreeNode) (fresh : Bytes) (draws : ℕ → ℕ → Draw) : Type 0 where
  pub sent : Commit
  pub levels : List Level
  pub after : Group
  pub commit_secret : Bytes
  pub made :
      commit prim signer op fresh draws g
      ≡ (ok sent, record after { known_secrets = keep_secrets (secrets_of levels) g.known_secrets })
  pub is_sent : Sent prim g nodes draws fresh levels sent
  pub is_mine : sent.sender_leaf ≡ g.my_leaf
  pub is_op : sent.op ≡ op
  pub is_secret :
      commit_secret_of (direct_path g.capacity g.my_leaf) (secrets_of levels) ≡ ok commit_secret
  pub applied :
      Applied prim.kdf g after
        (install (direct_path g.capacity g.my_leaf) (nodes_of levels) nodes)
        commit_secret
        (signed_part sent)

-- What `commit` returns, given the results of its steps.
commit-steps :
    (prim : Primitives) (signer : Identity) (g s : Group) (op : GroupOp) (nodes : List TreeNode)
    (levels : List Level) (fresh commit_secret : Bytes) (sig : HybridSignature)
    (draws : ℕ → ℕ → Draw)
    → spliced g op ≡ ok nodes
    → path_levels prim draws nodes g.capacity
        (leaf_to_node g.capacity g.my_leaf)
        fresh
        (direct_path g.capacity g.my_leaf)
      ≡ ok levels
    → commit_secret_of (direct_path g.capacity g.my_leaf) (secrets_of levels) ≡ ok commit_secret
    → sign prim.signatures signer
        (commit_signed_bytes g.group_id g.epoch (as_u32 g.my_leaf) op (nodes_of levels))
      ≡ ok sig
    → apply prim.kdf nodes
        (direct_path g.capacity g.my_leaf)
        (nodes_of levels)
        commit_secret
        (commit_signed_bytes g.group_id g.epoch (as_u32 g.my_leaf) op (nodes_of levels))
        g
      ≡ (ok tt, s)
    → commit prim signer op fresh draws g ≡ (
      ok (record {
        group_id = s.group_id;
        from_epoch = s.epoch - 1;
        sender_leaf = as_u32 s.my_leaf;
        op = op;
        path = nodes_of levels;
        signature = sig;
      }),
      record s { known_secrets = keep_secrets (secrets_of levels) s.known_secrets },
    )
unfolding commit
commit-steps prim signer g s op nodes levels fresh cs sig draws splice made last signed done =
    rw (splice, made, last, signed, done) refl

module _ {prim : Primitives} (law : IsPrimitives prim) (seals : SealsAll prim) where
  pub commit-Committed :
      {g : Group} (v : IsGroup g) (signer : Identity) (p : LeafKeyPackage) (op : GroupOp)
      (nodes : List TreeNode) (fresh : Bytes) (draws : ℕ → ℕ → Draw)
      → member_package g g.my_leaf ≡ some p
      → SignsFor prim signer p.identity
      → spliced g op ≡ ok nodes
      → AllContribute prim draws nodes
      → g.epoch + 1 < 2 ^ 64
      → Committed prim g signer op nodes fresh draws
  unfolding direct_path signed_part
  commit-Committed {g} v signer p op nodes fresh draws at signs splice contributes room =
      let node = leaf_to_node g.capacity g.my_leaf in
      let path = direct_path g.capacity g.my_leaf in
      let size : length nodes ≡ 2 * g.capacity - 1 =
        Ensures-ok (spliced-Ensures g op) splice ∙ v.size in
      let (levels, made) =
        path_levels-ok law seals draws nodes g.capacity size contributes node node fresh
          (omega arith) (leaf_to_node-lt v v.mine) in
      let (keys, len) = path_levels-keys prim draws nodes g.capacity node fresh path levels made in
      let (cs, last) =
        commit_secret_of-some prim 0 path path (secrets_of levels) (length-direct_path v g.my_leaf)
          refl keys in
      let signed = commit_signed_bytes g.group_id g.epoch (as_u32 g.my_leaf) op (nodes_of levels) in
      let (sig, signs_it, good) = signs signed in
      let (s, done, after, same) = apply-ok law.kdf g nodes path (nodes_of levels) cs signed room in
      let mine : as_u32 s.my_leaf ≡ g.my_leaf = omega (arith, after.my_leaf, v.mine, v.bounded) in
      let was : s.epoch - 1 ≡ g.epoch = omega (arith, after.epoch) in
      let c : Commit = record {
        group_id = s.group_id;
        from_epoch = s.epoch - 1;
        sender_leaf = as_u32 s.my_leaf;
        op = op;
        path = nodes_of levels;
        signature = sig;
      } in
      let same_signed : signed_part c ≡ signed =
        ap (λ i. commit_signed_bytes i (s.epoch - 1) (as_u32 s.my_leaf) op (nodes_of levels))
          after.group_id
        ∙ ap₂ (λ e l. commit_signed_bytes g.group_id e (as_u32 l) op (nodes_of levels)) was
            after.my_leaf in
      record {
        sent = c;
        levels = levels;
        after = s;
        commit_secret = cs;
        made =
            commit-steps prim signer g s op nodes levels fresh cs sig draws splice made last
              signs_it done
            ∙ (ap (λ m. (ok c, record s { known_secrets = keep_secrets (secrets_of levels) m }))
                same);
        is_sent = record {
          group_id = after.group_id;
          from_epoch = was;
          inside = omega (arith, mine, v.mine);
          sender = p;
          at = ap (member_package g) mine ∙ at;
          signed = ap (λ m. verify prim.signatures p.identity m sig) same_signed ∙ good;
          splice = splice;
          path = refl;
          made =
              ap
                (λ i.
                  path_levels prim draws nodes g.capacity (leaf_to_node g.capacity i) fresh
                    (direct_path g.capacity i))
                mine
              ∙ made;
        };
        is_mine = mine;
        is_op = refl;
        is_secret = last;
        applied =
            subst (Applied prim.kdf g s (install path (nodes_of levels) nodes) cs) (sym same_signed)
              after;
      }
