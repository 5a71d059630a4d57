-- ===== src/Group/Converge.antt =====
-- crates/core/src/group.rs: after a commit its maker and the members that apply it are in one epoch.
use novachannel.Common.{
  ℕ, ◌+◌, ◌^◌, true, ◌<◌, ◌≡◌, ◌≢◌, refl, ap, ap₂, sym, ◌∙◌, subst, List, length, arith, ltb, ok,
  Bytes, Option, inr,
}
use novachannel.Common.Fallible.{Ensures-ok}
use novachannel.Crypto.{Primitives, IsPrimitives}
use novachannel.Kex.{Draw}
use novachannel.Identity.{Identity}
use novachannel.Group.Index.{leaf_to_node, direct_path}
use novachannel.Group.Keys.{TreeNode}
use novachannel.Group.Messages.{GroupOp, remove, Commit}
use novachannel.Group.State.{
  Group, as_u32, no_entries, is_some, is_member, spliced, install, derive_sender_chain,
}
use novachannel.Group.Commits.{
  secrets_of, commit_secret_of, path_levels, keep_secrets, signed_part, commit, apply_commit,
}
use novachannel.Group.Invariant.{spliced-Ensures}
use novachannel.Group.Epoch.{Applied}
use novachannel.Group.Seals.{IsAuthentic, SealsAll}
use novachannel.Group.Keeping.{spliced-HoldsKeys, spliced-KeepsAbove}
use novachannel.Group.Delivery.{Linked}
use novachannel.Group.Following.{
  Follows, Applied-InStep, apply_commit-Received, Received-Follows, Committed-Follows,
}
use novachannel.Group.Agreement.{InStep, spliced-InStep, member_package-InStep, Sent}
use novachannel.Group.Sending.{SignsFor, AllContribute, commit-Committed}

-- The start of an epoch.
record Started (prim : Primitives) (g : Group) : Type 0 where
  fits : g.epoch < 2 ^ 64
  chain : derive_sender_chain prim.kdf g.application_secret (as_u32 g.my_leaf) ≡ ok g.send_chain
  first : g.send_seq ≡ 0
  none_yet : g.recv_chains ≡ no_entries

Applied-Started :
    {prim : Primitives} (g : Group) {s : Group} {tree : List TreeNode}
    {commit_secret signed : Bytes} {known : ℕ → Option Bytes}
    → g.epoch + 1 < 2 ^ 64
    → Applied prim.kdf g s tree commit_secret signed
    → Started prim (record s { known_secrets = known })
Applied-Started g room x = record {
  fits = omega (arith, x.epoch, room);
  chain = x.send_chain;
  first = x.send_seq;
  none_yet = x.recv_chains;
}

InStep-sym : {a b : Group} → InStep a b → InStep b a
InStep-sym i = record {
  group_id = sym i.group_id;
  capacity = sym i.capacity;
  nodes = sym i.nodes;
  epoch = sym i.epoch;
  epoch_secret = sym i.epoch_secret;
  application_secret = sym i.application_secret;
  transcript_hash = sym i.transcript_hash;
}

-- At the start of an epoch the members in step receive from each other.
InStep-Linked :
    {prim : Primitives} {a b : Group}
    → Follows prim a
    → Started prim a
    → Started prim b
    → InStep a b
    → a.my_leaf ≢ b.my_leaf
    → Linked prim a b
unfolding is_member is_some
InStep-Linked {prim} {a} {b} f s t i other =
    let v = f.is_group in
    let there = sym (member_package-InStep i a.my_leaf) ∙ f.is_own in
    let inside : ltb a.my_leaf b.capacity ≡ true = ground (arith, v.mine, i.capacity) in
    let small : as_u32 a.my_leaf ≡ a.my_leaf = omega (arith, v.mine, v.bounded) in
    record {
      epoch = sym i.epoch;
      epoch_fits = s.fits;
      leaf_fits = omega (arith, v.mine, v.bounded);
      other = other;
      member = rw (inside, there) refl;
      chain = inr (
        ap (λ m. m a.my_leaf) t.none_yet,
        ap₂ (derive_sender_chain prim.kdf) (sym i.application_secret) (sym small) ∙ s.chain,
        s.first,
      );
    }

module _ {prim : Primitives} (law : IsPrimitives prim) (auth : IsAuthentic prim.aead)
    (seals : SealsAll prim) where
  -- Two members in step, each with the keys above it in the tree: the one commits an operation that
  -- removes neither of them, and the other applies the commit; no call fails, and then both are in
  -- step in the next epoch, with one tree, one epoch secret and one application secret, each has
  -- the keys above it in the new tree, and each is at the start of the chain that the other sends
  -- on; if the signer signs for the member at the leaf of the committer, the cipher seals every
  -- message and opens a ciphertext to nothing but its message, and the X25519 secrets have a
  -- contribution, for primitives that keep their documented laws.
  pub apply_commit-commit :
      {a b : Group} (f : Follows prim a) (h : Follows prim b)
      → InStep a b
      → b.my_leaf ≢ a.my_leaf
      → (signer : Identity) (op : GroupOp) (nodes : List TreeNode) (fresh : Bytes)
        (draws : ℕ → ℕ → Draw)
      → SignsFor prim signer f.own.identity
      → spliced a op ≡ ok nodes
      → op ≢ remove a.my_leaf
      → op ≢ remove b.my_leaf
      → AllContribute prim draws nodes
      → length fresh ≡ 32
      → a.epoch + 1 < 2 ^ 64
      → (c : Commit) × (a' : Group) × (b' : Group) × (commit prim signer op fresh draws a
          ≡ (ok c, a'))
        × (apply_commit prim c b ≡ (ok tt, b'))
        × InStep a' b'
        × (a'.epoch ≡ a.epoch + 1)
        × Follows prim a'
        × Follows prim b'
        × Linked prim a' b'
        × Linked prim b' a'
  apply_commit-commit {a} {b} f h i other signer op nodes fresh draws signs splice a_stays b_stays
        contributes long room =
      let m =
        commit-Committed law seals f.is_group signer f.own op nodes fresh draws f.is_own signs
          splice contributes room in
      let c = m.sent in
      let s = m.is_sent in
      let a_holds = spliced-HoldsKeys f.is_group f.holds op nodes splice a_stays in
      let b_splice = sym (spliced-InStep i op) ∙ splice in
      let b_holds = spliced-HoldsKeys h.is_group h.holds op nodes b_splice b_stays in
      let size = Ensures-ok (spliced-Ensures a op) splice ∙ f.is_group.size in
      let s' : Sent prim b nodes draws fresh m.levels c = record {
        group_id = s.group_id ∙ i.group_id;
        from_epoch = s.from_epoch ∙ i.epoch;
        inside = omega (arith, s.inside, i.capacity);
        sender = s.sender;
        at = sym (member_package-InStep i c.sender_leaf) ∙ s.at;
        signed = s.signed;
        splice = sym (spliced-InStep i c.op) ∙ s.splice;
        path = s.path;
        made =
            ap
              (λ n.
                path_levels prim draws nodes n (leaf_to_node n c.sender_leaf) fresh
                  (direct_path n c.sender_leaf))
              (sym i.capacity)
            ∙ s.made;
      } in
      let path_same : direct_path b.capacity c.sender_leaf ≡ direct_path a.capacity a.my_leaf =
        ap₂ direct_path (sym i.capacity) m.is_mine in
      let r =
        apply_commit-Received law auth h.is_group b_holds draws fresh m.levels c m.commit_secret
          long s' (λ e. other (sym e ∙ m.is_mine))
          (ap (λ q. commit_secret_of q (secrets_of m.levels)) path_same ∙ m.is_secret)
          (omega (arith, i.epoch, room)) in
      let tree = ap₂ (λ q ns. install q ns nodes) (sym path_same) (sym s.path) in
      let x =
        subst (λ q. Applied prim.kdf a m.after q m.commit_secret (signed_part c)) tree m.applied in
      let j = Applied-InStep prim i x r.applied in
      let a_kept =
        (spliced-KeepsAbove f.is_group f.holds.filled_leaf op nodes splice a_stays).mine in
      let b_kept =
        (spliced-KeepsAbove h.is_group h.holds.filled_leaf op nodes b_splice b_stays).mine in
      let a_follows =
        Committed-Follows law f.is_group signer op nodes fresh draws a_holds size f.own f.is_own
          a_kept m in
      let b_room : b.epoch + 1 < 2 ^ 64 = omega (arith, i.epoch, room) in
      let b_follows =
        Received-Follows law h.is_group c nodes m.commit_secret b_room h.own h.is_own b_kept
          s'.inside r in
      let a' : Group = record m.after {
        known_secrets = keep_secrets (secrets_of m.levels) a.known_secrets;
      } in
      let b' : Group = record r.before { known_secrets = r.known } in
      let step : InStep a' b' = record {
        group_id = j.group_id;
        capacity = j.capacity;
        nodes = j.nodes;
        epoch = j.epoch;
        epoch_secret = j.epoch_secret;
        application_secret = j.application_secret;
        transcript_hash = j.transcript_hash;
      } in
      let apart : b'.my_leaf ≢ a'.my_leaf =
        λ e. other (sym r.applied.my_leaf ∙ e ∙ m.applied.my_leaf) in
      let a_start : Started prim a' = Applied-Started a room m.applied in
      let b_start : Started prim b' = Applied-Started b b_room r.applied in
      let b_follows' = subst (Follows prim) r.is_after b_follows in
      (
        c,
        a',
        r.after,
        m.made,
        r.applied_commit,
        subst (InStep a') (sym r.is_after) step,
        m.applied.epoch,
        a_follows,
        b_follows,
        subst (Linked prim a') (sym r.is_after)
            (InStep-Linked a_follows a_start b_start step (λ e. apart (sym e))),
        subst (λ q. Linked prim q a') (sym r.is_after)
            (InStep-Linked b_follows' b_start a_start (InStep-sym step) apart),
      )
