-- ===== src/Group/Following.antt =====
-- crates/core/src/group.rs: the state of the maker of a commit and of a receiver, after it.
use novachannel.Common.{
  ℕ, ◌+◌, ◌-◌, ◌*◌, ◌^◌, true, ◌<◌, ◌≡◌, ◌≢◌, refl, ap, ap₂, sym, ◌∙◌, subst, List, ◌++◌, length,
  arith, All, get_or, Result, ok, Bytes, Option, some, inl, inr,
}
use novachannel.Errors.{Error}
use novachannel.Crypto.{Kdf, Primitives, IsPrimitives}
use novachannel.Kex.{Draw}
use novachannel.Identity.{Identity}
use novachannel.Group.Index.{leaf_to_node, direct_path}
use novachannel.Group.Keys.{LeafKeyPackage, TreeNode, blank}
use novachannel.Group.Messages.{GroupOp, Commit}
use novachannel.Group.Sealing.{hkdf}
use novachannel.Group.State.{
  Group, leaf_package, member_package, install, derive_application_secret, label_epoch_secret,
}
use novachannel.Group.Commits.{
  Level, nodes_of, secrets_of, commit_secret_of, path_levels, keep_secrets, signed_part,
  apply_commit,
}
use novachannel.Group.Paths.{is_above, is_above_self, All-ancestors}
use novachannel.Group.Invariant.{IsGroup, my_node, length-install}
use novachannel.Group.Epoch.{Applied, Applied-IsGroup, apply-ok, apply_commit-Accepts}
use novachannel.Group.Seals.{IsAuthentic}
use novachannel.Group.Follow.{HoldsKeys}
use novachannel.Group.Making.{path_levels-keys}
use novachannel.Group.Keeping.{HoldsKeys-state, install-HoldsKeys, install-mine}
use novachannel.Group.Agreement.{InStep, Sent, learn-Sent}
use novachannel.Group.Sending.{Committed}

-- Two states that change their epoch in the same way, in step before, are in step after.
pub Applied-InStep :
    (prim : Primitives) {a b s t : Group} {tree : List TreeNode} {commit_secret signed : Bytes}
    → InStep a b
    → Applied prim.kdf a s tree commit_secret signed
    → Applied prim.kdf b t tree commit_secret signed
    → InStep s t
Applied-InStep prim {a} {b} {s} {t} {tree} {commit_secret} {signed} i x y =
    let transcript : s.transcript_hash ≡ t.transcript_hash =
      x.transcript_hash
      ∙ ap (λ h. prim.kdf.sha256 (h ++ signed)) i.transcript_hash
      ∙ sym y.transcript_hash in
    let epoch_secret : s.epoch_secret ≡ t.epoch_secret =
      ok_injective s.epoch_secret t.epoch_secret _ _ x.epoch_secret y.epoch_secret (
        ap₂ (λ e h. hkdf prim.kdf e commit_secret (label_epoch_secret ++ h) 32) i.epoch_secret
          transcript) in
    record {
      group_id = x.group_id ∙ i.group_id ∙ sym y.group_id;
      capacity = x.capacity ∙ i.capacity ∙ sym y.capacity;
      nodes = x.nodes ∙ sym y.nodes;
      epoch = x.epoch ∙ ap (λ n. n + 1) i.epoch ∙ sym y.epoch;
      epoch_secret = epoch_secret;
      application_secret =
          ok_injective s.application_secret t.application_secret _ _ x.application_secret
            y.application_secret (ap (derive_application_secret prim.kdf) epoch_secret);
      transcript_hash = transcript;
    }
  where
    ok_injective : (p q : Bytes) (r t : Result Error Bytes) → r ≡ ok p → t ≡ ok q → r ≡ t → p ≡ q
    ok_injective p q r t x y h = cc

-- A member whose keys are those of its tree, and whose package is at its leaf.
pub record Follows (prim : Primitives) (g : Group) : Type 0 where
  pub is_group : IsGroup g
  pub holds : HoldsKeys prim g g.nodes
  pub own : LeafKeyPackage
  pub is_own : member_package g g.my_leaf ≡ some own

-- The secrets do not decide who is a member.
member_package-known :
    (s : Group) (m : ℕ → Option Bytes)
    → member_package (record s { known_secrets = m }) s.my_leaf ≡ member_package s s.my_leaf
unfolding member_package
member_package-known s m = refl

-- A member whose leaf is kept in the tree after a commit.
member_package-Applied :
    {kdf : Kdf} {g s : Group} {tree : List TreeNode} {commit_secret signed : Bytes}
    → Applied kdf g s tree commit_secret signed
    → get_or tree (my_node g) blank ≡ get_or g.nodes (my_node g) blank
    → member_package s s.my_leaf ≡ member_package g g.my_leaf
unfolding member_package
member_package-Applied {g} {s} {tree} x kept =
    ap₂ (λ n t. leaf_package (get_or n t blank)) x.nodes (ap₂ leaf_to_node x.capacity x.my_leaf)
    ∙ ap leaf_package kept

-- The state of a receiver after the commit.
pub record Received (prim : Primitives) (g : Group) (c : Commit) (nodes : List TreeNode)
    (cs : Bytes) : Type 0 where
  pub after : Group
  pub applied_commit : apply_commit prim c g ≡ (ok tt, after)
  pub before : Group
  pub applied :
      Applied prim.kdf g before
        (install (direct_path g.capacity c.sender_leaf) c.path nodes)
        cs
        (signed_part c)
  pub known : ℕ → Option Bytes
  pub is_after : after ≡ record before { known_secrets = known }
  pub holds :
      HoldsKeys prim
        (record g { known_secrets = known })
        (install (direct_path g.capacity c.sender_leaf) c.path nodes)

module _ {prim : Primitives} (law : IsPrimitives prim) where
  pub apply_commit-Received :
      IsAuthentic prim.aead
      → {g : Group} (v : IsGroup g) {nodes : List TreeNode} → HoldsKeys prim g nodes
      → (draws : ℕ → ℕ → Draw) (fresh : Bytes) (levels : List Level) (c : Commit) (cs : Bytes)
      → length fresh ≡ 32
      → Sent prim g nodes draws fresh levels c
      → c.sender_leaf ≢ g.my_leaf
      → commit_secret_of (direct_path g.capacity c.sender_leaf) (secrets_of levels) ≡ ok cs
      → g.epoch + 1 < 2 ^ 64
      → Received prim g c nodes cs
  unfolding apply_commit
  apply_commit-Received auth {g} v {nodes} holds draws fresh levels c cs long s other last room =
      let (l, learned, same_nodes, secret, holds') =
        learn-Sent law auth v holds draws fresh levels c long s other in
      let path = direct_path g.capacity c.sender_leaf in
      let (t, done, after, same) =
        apply-ok law.kdf g l.pre_commit_nodes path c.path l.commit_secret (signed_part c) room in
      let same_secret : l.commit_secret ≡ cs = cc (secret, last) in
      record {
        after = record t { known_secrets = keep_secrets l.known g.known_secrets };
        applied_commit =
            rw (learned, done)
              (ap (λ m. (ok tt, record t { known_secrets = keep_secrets l.known m })) same);
        before = t;
        applied =
            subst (λ n. Applied prim.kdf g t (install path c.path n) cs (signed_part c)) same_nodes
              (subst
                (λ k.
                  Applied prim.kdf g t (install path c.path l.pre_commit_nodes) k (signed_part c))
                same_secret after);
        known = keep_secrets l.known g.known_secrets;
        is_after = refl;
        holds = holds';
      }

  pub Received-Follows :
      {g : Group} (v : IsGroup g) (c : Commit) (nodes : List TreeNode) (cs : Bytes)
      → g.epoch + 1 < 2 ^ 64
      → (p : LeafKeyPackage) → member_package g g.my_leaf ≡ some p
      → get_or nodes (my_node g) blank ≡ get_or g.nodes (my_node g) blank
      → c.sender_leaf < g.capacity
      → (r : Received prim g c nodes cs) → Follows prim r.after
  Received-Follows {g} v c nodes cs room p at kept inside r = record {
    own = p;
    is_own =
        subst (λ h. member_package h h.my_leaf ≡ some p) (sym r.is_after)
          (member_package-known r.before r.known
            ∙ member_package-Applied r.applied (install-mine v inside c.path nodes ∙ kept)
            ∙ at);
    is_group = elim (apply_commit-Accepts {prim = prim} law.kdf v c room) [
      | inl (e, refused) ↦ absurd (cc (refused, r.applied_commit))
      | inr (l, s, a, done, after, w) ↦ subst IsGroup (cc (done, r.applied_commit)) w
    ];
    holds =
        subst (λ h. HoldsKeys prim h h.nodes) (sym r.is_after)
          (subst (HoldsKeys prim (record r.before { known_secrets = r.known }))
            (sym r.applied.nodes)
            (HoldsKeys-state r.holds (ap₂ leaf_to_node r.applied.capacity r.applied.my_leaf)
              r.applied.my_leaf_keys refl));
  }

  pub Committed-Follows :
      {g : Group} (v : IsGroup g) (signer : Identity) (op : GroupOp) (nodes : List TreeNode)
      (fresh : Bytes) (draws : ℕ → ℕ → Draw)
      → HoldsKeys prim g nodes
      → length nodes ≡ 2 * g.capacity - 1
      → (p : LeafKeyPackage) → member_package g g.my_leaf ≡ some p
      → get_or nodes (my_node g) blank ≡ get_or g.nodes (my_node g) blank
      → (m : Committed prim g signer op nodes fresh draws)
      → Follows prim
          (record m.after { known_secrets = keep_secrets (secrets_of m.levels) g.known_secrets })
  unfolding direct_path
  Committed-Follows {g} v signer op nodes fresh draws holds size p at kept m =
      let node = my_node g in
      let path = direct_path g.capacity g.my_leaf in
      let made =
        ap
          (λ i.
            path_levels prim draws nodes g.capacity (leaf_to_node g.capacity i) fresh
              (direct_path g.capacity i))
          (sym m.is_mine)
        ∙ m.is_sent.made in
      let (keys, len) =
        path_levels-keys prim draws nodes g.capacity node fresh path m.levels made in
      let above = All-ancestors node node node (omega arith) (is_above_self node) in
      let held =
        install-HoldsKeys v draws nodes v.mine nodes holds size 0 node fresh (nodes_of m.levels)
          m.levels (omega arith) (sym len) refl made tt in
      record {
        own = p;
        is_own =
            member_package-known m.after (keep_secrets (secrets_of m.levels) g.known_secrets)
            ∙ member_package-Applied m.applied
                (install-mine v v.mine (nodes_of m.levels) nodes ∙ kept)
            ∙ at;
        is_group =
            Applied-IsGroup v m.applied
              (length-install path (nodes_of m.levels) nodes ∙ size ∙ sym v.size)
              (secrets_of m.levels) (subst (All (λ d. is_above d node ≡ true)) (sym keys) above);
        holds =
            subst
              (HoldsKeys prim (record m.after {
                known_secrets = keep_secrets (secrets_of m.levels) g.known_secrets;
              }))
              (sym m.applied.nodes)
              (HoldsKeys-state held (ap₂ leaf_to_node m.applied.capacity m.applied.my_leaf)
                m.applied.my_leaf_keys refl);
      }
