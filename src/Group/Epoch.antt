-- ===== src/Group/Epoch.antt =====
-- crates/core/src/group.rs: the change of epoch, and which commits a member accepts.
use novachannel.Common.{
  ℕ, ◌+◌, ◌-◌, ◌*◌, ◌^◌, ◌≤◌, ◌<◌, ◌≡◌, ◌⊎◌, refl, ap, ap₂, sym, ◌∙◌, subst, true, false, Option,
  some, List, [], ◌∷◌, ◌++◌, arith, ◌==◌, length, length-drop, drop, contains, All, Bool-cases, inl,
  inr, ==_iff, ok, err, Bytes,
}
use novachannel.Common.Fallible.{Ensures-ok, Ensures-cases}
use novachannel.Errors.{Error}
use novachannel.Crypto.{Primitives, Kdf, IsKdf}
use novachannel.Group.Index.{leaf_to_node, direct_path}
use novachannel.Group.Keys.{TreeNode}
use novachannel.Group.Sealing.{hkdf, no_salt}
use novachannel.Group.Messages.{UpdatePathNode, Commit}
use novachannel.Group.State.{
  Group, as_u32, insert, no_entries, install, next_epoch, next_epoch_secret,
  derive_application_secret, derive_sender_chain, apply, label_epoch_secret,
}
use novachannel.Group.Commits.{PathSecrets, keep_secrets, Learned, signed_part, apply_commit}
use novachannel.Group.Paths.{is_above}
use novachannel.Group.Invariant.{IsGroup, my_node, length-install, spliced-Ensures}
use novachannel.Group.Learning.{keys_of, check_path-Ensures}
use novachannel.Group.Accepts.{Accepts, learn-Ensures}

-- With the documented lengths, the derivations do not fail.
pub hkdf-ok :
    {kdf : Kdf}
    → IsKdf kdf
    → (salt ikm info : Bytes) (len : ℕ) → len ≤ 255 * 32
    → (okm : Bytes) × (hkdf kdf salt ikm info len ≡ ok okm) × (length okm ≡ len)
unfolding hkdf
hkdf-ok law salt ikm info len h =
    let (hk, e) = law.accepts salt ikm in
    let (okm, f, size) = law.expands hk info len h in (okm, rw (e, f) refl, size)

-- The state after a change of epoch.
pub record Applied (kdf : Kdf) (g s : Group) (tree : List TreeNode) (commit_secret signed : Bytes)
    : Type 0 where
  pub group_id : s.group_id ≡ g.group_id
  pub capacity : s.capacity ≡ g.capacity
  pub my_leaf : s.my_leaf ≡ g.my_leaf
  pub my_leaf_keys : s.my_leaf_keys ≡ g.my_leaf_keys
  pub nodes : s.nodes ≡ tree
  pub epoch : s.epoch ≡ g.epoch + 1
  pub transcript_hash : s.transcript_hash ≡ kdf.sha256 (g.transcript_hash ++ signed)
  pub epoch_secret :
      hkdf kdf g.epoch_secret commit_secret (label_epoch_secret ++ s.transcript_hash) 32
      ≡ ok s.epoch_secret
  pub application_secret : derive_application_secret kdf s.epoch_secret ≡ ok s.application_secret
  pub send_chain : derive_sender_chain kdf s.application_secret (as_u32 s.my_leaf) ≡ ok s.send_chain
  pub send_seq : s.send_seq ≡ 0
  pub recv_chains : s.recv_chains ≡ no_entries

module _ {kdf : Kdf} (law : IsKdf kdf) where
  pub apply-ok :
      (g : Group) (nodes : List TreeNode) (path : List ℕ) (path_nodes : List UpdatePathNode)
      (commit_secret signed : Bytes)
      → g.epoch + 1 < 2 ^ 64
      → (s : Group) × (apply kdf nodes path path_nodes commit_secret signed g ≡ (ok tt, s))
        × Applied kdf g s (install path path_nodes nodes) commit_secret signed
        × (s.known_secrets ≡ g.known_secrets)
  unfolding apply next_epoch next_epoch_secret derive_application_secret derive_sender_chain
  apply-ok g nodes path path_nodes commit_secret signed h =
      let transcript = kdf.sha256 (g.transcript_hash ++ signed) in
      let (es, e, _) =
        hkdf-ok law g.epoch_secret commit_secret (label_epoch_secret ++ transcript) 32
          (omega arith) in
      let (as_secret, a, _) = hkdf-ok law no_salt es _ 32 (omega arith) in
      let (chain, c, _) = hkdf-ok law no_salt as_secret _ 32 (omega arith) in
      let fits : (g.epoch + 1 == 2 ^ 64) ≡ false = ground arith in
      (
        record g {
          nodes = install path path_nodes nodes;
          transcript_hash = transcript;
          epoch_secret = es;
          application_secret = as_secret;
          epoch = g.epoch + 1;
          send_chain = chain;
          send_seq = 0;
          recv_chains = no_entries;
        },
        rw (e, a, fits, c) refl,
        record {
          group_id = refl;
          capacity = refl;
          my_leaf = refl;
          my_leaf_keys = refl;
          nodes = refl;
          epoch = refl;
          transcript_hash = refl;
          epoch_secret = e;
          application_secret = a;
          send_chain = c;
          send_seq = refl;
          recv_chains = refl;
        },
        refl,
      )

All-contains : (P : ℕ → Type 0) (ts : List ℕ) (t : ℕ) → All P ts → contains ts t ≡ true → P t
All-contains P [] t h c = absurd (cc)
All-contains P (u ∷ ts) t (h, hs) c = elim (Bool-cases (t == u)) [
  | inl here ↦ subst P (sym ((==_iff t u).0 here)) h
  | inr there ↦ All-contains P ts t hs (ground arith)
]

-- A secret that is held was held before or is new.
pub keep_secrets-some :
    (known : PathSecrets) (m : ℕ → Option Bytes) (t : ℕ) (secret : Bytes)
    → keep_secrets known m t ≡ some secret
    → (contains (keys_of known) t ≡ true) ⊎ (m t ≡ some secret)
unfolding keep_secrets insert
keep_secrets-some [] m t secret h = inr h
keep_secrets-some ((n, new) ∷ known) m t secret h =
    elim (keep_secrets-some known (insert n new m) t secret h) [
      | inl later ↦ inl (ground arith)
      | inr before ↦ elim (Bool-cases (t == n)) [
        | inl here ↦ inl (ground arith)
        | inr there ↦ inr (ground arith)
      ]
    ]

-- New secrets of nodes above the member, in the tree after a commit.
pub Applied-IsGroup :
    {kdf : Kdf} {g s : Group} {tree : List TreeNode} {commit_secret signed : Bytes}
    → IsGroup g
    → Applied kdf g s tree commit_secret signed
    → length tree ≡ length g.nodes
    → (known : PathSecrets) → All (λ d. is_above d (my_node g) ≡ true) (keys_of known)
    → IsGroup (record s { known_secrets = keep_secrets known g.known_secrets })
Applied-IsGroup {g} {s} v a size known above =
    let same_node : my_node s ≡ my_node g = ap₂ leaf_to_node a.capacity a.my_leaf in
    record {
      roomy = omega (arith, a.capacity, v.roomy);
      bounded = omega (arith, a.capacity, v.bounded);
      size = omega (arith, a.capacity, v.size, size, ap length a.nodes);
      mine = omega (arith, a.capacity, a.my_leaf, v.mine);
      known_above = λ t secret h.
          subst (λ n. is_above t n ≡ true) (sym same_node)
            (elim (keep_secrets-some known g.known_secrets t secret h) [
              | inl new ↦
                  All-contains (λ d. is_above d (my_node g) ≡ true) (keys_of known) t above new
              | inr old ↦ v.known_above t secret old
            ]);
    }

module _ {prim : Primitives} (law : IsKdf prim.kdf) where
  -- A well-formed member short of the last 64-bit epoch either refuses a commit with an error and
  -- stays as it was, or it accepts: the commit is of its group and epoch, both of its signatures
  -- are those of the member at its leaf, it has a level for each node of the path, the member
  -- opened the secret of one of them, and the public keys that the commit shows on that level and
  -- on each level above are the ones derived from the secret of the level, each next secret being
  -- derived from the last; then the member is in the next epoch with its keys derived anew and the
  -- chains at their start, and is well-formed; no call panics.
  pub apply_commit-Accepts :
      {g : Group} (v : IsGroup g) (c : Commit)
      → g.epoch + 1 < 2 ^ 64
      → ((e : Error) × (apply_commit prim c g ≡ (err e, g)))
        ⊎ ((l : Learned) × (s : Group) × Accepts prim v c l
            × (apply_commit prim c g
                ≡ (ok tt, record s { known_secrets = keep_secrets l.known g.known_secrets }))
            × Applied prim.kdf g s
                (install (direct_path g.capacity c.sender_leaf) c.path l.pre_commit_nodes)
                l.commit_secret
                (signed_part c)
            × IsGroup (record s { known_secrets = keep_secrets l.known g.known_secrets }))
  unfolding apply_commit
  apply_commit-Accepts {g} v c h = elim (Ensures-cases (learn-Ensures prim v c)) [
    | inl (e, refused) ↦ inl (e, rw refused refl)
    | inr (l, learned, a) ↦
        let path = direct_path g.capacity c.sender_leaf in
        let (s, done, after, same) =
          apply-ok law g l.pre_commit_nodes path c.path l.commit_secret (signed_part c) h in
        let size =
          length-install path c.path l.pre_commit_nodes
          ∙ Ensures-ok (spliced-Ensures g c.op) a.splice in
        let keys =
          Ensures-ok
            (check_path-Ensures prim a.secret (drop a.level path) (drop a.level c.path)
              (omega (arith, a.levels, length-drop a.level path, length-drop a.level c.path)))
            a.checked in
        let none_off : a.level - 0 ≡ a.level = omega arith in
        let above : All (λ d. is_above d (my_node g) ≡ true) (keys_of l.known) =
          subst (All (λ d. is_above d (my_node g) ≡ true))
            (ap (λ n. drop n path) none_off ∙ sym keys) a.opening.above in
        inr (
          l,
          s,
          a,
          rw (learned, done)
              (ap (λ m. (ok tt, record s { known_secrets = keep_secrets l.known m })) same),
          after,
          Applied-IsGroup v after size l.known above,
        )
  ]
