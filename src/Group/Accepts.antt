-- ===== src/Group/Accepts.antt =====
-- crates/core/src/group.rs: a commit is accepted on every check or refused with nothing changed.
use novachannel.Common.{
  ℕ, ◌-◌, ◌*◌, ◌<◌, ◌≡◌, refl, ap, sym, ◌∙◌, true, not, some, arith, ltb→lt, ◌==◌, length,
  length-drop, drop, inl, inr, ok, Bytes, bytes_eq, bytes_eq_iff, Option-cases,
}
use novachannel.Common.Fallible.{
  Ensures, returns, refuses, Ensures-if, Ensures-then, expect-Ensures,
}
use novachannel.Crypto.{Primitives}
use novachannel.Group.Index.{leaf_to_node, direct_path}
use novachannel.Group.Keys.{LeafKeyPackage}
use novachannel.Group.Messages.{Commit}
use novachannel.Group.State.{Group, is_some, is_member, member_package, spliced}
use novachannel.Group.Commits.{
  find_and_decrypt, check_path, commit_secret_of, Learned, signed_part, learn,
}
use novachannel.Group.Invariant.{IsGroup, leaf_to_node-lt, spliced-Ensures}
use novachannel.Group.Finding.{Found, find_from-Ensures}
use novachannel.Group.Shown.{Shown, Signed, suffix-Shown, verify-Signed}
use novachannel.Group.Learning.{verify-Ensures, check_path-Ensures, commit_secret_of-some}

module _ (prim : Primitives) where
  -- Every check that a commit has passed: it is of this group and epoch, signed by the member at its
  -- leaf with both signatures, and the receiver could open a level of its path; the public keys of that
  -- level and those above it are the ones derived from the secret it opened.
  pub record Accepts {g : Group} (v : IsGroup g) (c : Commit) (l : Learned) : Type 0 where
    pub same_group : c.group_id ≡ g.group_id
    pub same_epoch : c.from_epoch ≡ g.epoch
    pub inside : c.sender_leaf < g.capacity
    pub sender : LeafKeyPackage
    pub is_sender : member_package g c.sender_leaf ≡ some sender
    pub signed : Signed prim sender.identity (signed_part c) c.signature
    pub splice : spliced g c.op ≡ ok l.pre_commit_nodes
    pub levels : length (direct_path g.capacity c.sender_leaf) ≡ length c.path
    pub level : ℕ
    pub secret : Bytes
    pub found :
        find_and_decrypt prim g l.pre_commit_nodes c.sender_leaf
          (direct_path g.capacity c.sender_leaf)
          c.path
        ≡ ok (level, secret)
    pub opening :
        Found prim v l.pre_commit_nodes 0 (direct_path g.capacity c.sender_leaf) (level, secret)
    pub checked :
        check_path prim secret
          (drop level (direct_path g.capacity c.sender_leaf))
          (drop level c.path)
        ≡ ok l.known
    pub shown :
        Shown prim secret
          (drop level (direct_path g.capacity c.sender_leaf))
          (drop level c.path)
          l.known
    pub commit_secret :
        commit_secret_of (direct_path g.capacity c.sender_leaf) l.known ≡ ok l.commit_secret

  pub member_package-some :
      (g : Group) (i : ℕ)
      → is_member g i ≡ true
      → (i < g.capacity) × ((p : LeafKeyPackage) × (member_package g i ≡ some p))
  unfolding is_member
  member_package-some g i h = elim (Option-cases (member_package g i)) [
    | inl e ↦
        let there : is_some (member_package g i) ≡ true = ground arith in
        absurd (cc (there, ap is_some e))
    | inr (p, e) ↦ (ltb→lt i g.capacity (ground arith), (p, e))
  ]

  pub learn-Ensures :
      {g : Group} (v : IsGroup g) (c : Commit) → Ensures (Accepts v c) (learn prim c g)
  unfolding learn find_and_decrypt direct_path
  learn-Ensures {g} v c =
      Ensures-if (not (bytes_eq c.group_id g.group_id)) (λ other. refuses)
        (λ same_group.
          Ensures-if (not (c.from_epoch == g.epoch)) (λ other. refuses)
            (λ same_epoch.
              Ensures-if (not (is_member g c.sender_leaf)) (λ stranger. refuses)
                (λ member.
                  let (inside, (p, at)) = member_package-some g c.sender_leaf (ground arith) in
                  Ensures-then (expect-Ensures at) (λ q e is_p.
                    Ensures-then (verify-Ensures prim q.identity (signed_part c) c.signature)
                      (λ u good h. Ensures-then (spliced-Ensures g c.op) (λ nodes splice size.
                        let path = direct_path g.capacity c.sender_leaf in
                        Ensures-if (not (length path == length c.path)) (λ other. refuses)
                          (λ levels.
                            let same : length path ≡ length c.path = ground arith in
                            let node = leaf_to_node g.capacity c.sender_leaf in
                            let low : node < 2 * g.capacity - 1 = leaf_to_node-lt v inside in
                            Ensures-then
                              (find_from-Ensures prim v nodes (size ∙ v.size) node node 0 c.path
                                (omega arith) low same)
                              (λ found f o.
                                Ensures-then
                                  (check_path-Ensures prim found.1 (drop found.0 path)
                                    (drop found.0 c.path)
                                    (omega (
                                      arith,
                                      same,
                                      length-drop found.0 path,
                                      length-drop found.0 c.path,
                                    )))
                                  (λ known k keys.
                                    let (secret, last) =
                                      commit_secret_of-some prim found.0 path (drop found.0 path)
                                        known (omega (arith, o.within)) refl keys in
                                    rw last (
                                      returns record {
                                        same_group = (bytes_eq_iff _ _).0 (ground arith);
                                        same_epoch = ground arith;
                                        inside = inside;
                                        sender = q;
                                        is_sender = at ∙ ap some (sym is_p);
                                        signed =
                                            verify-Signed prim q.identity (signed_part c)
                                              c.signature good;
                                        splice = splice;
                                        levels = same;
                                        level = found.0;
                                        secret = found.1;
                                        found = f;
                                        opening = o;
                                        checked = k;
                                        shown =
                                            suffix-Shown prim found.0 path c.path
                                              (omega (arith, o.within)) same k;
                                        commit_secret = last;
                                      }))))))))))
