-- ===== src/Group/Opening.antt =====
-- crates/core/src/group.rs: the level of a path update that a member opens, and the secrets above it.
use novachannel.Common.{
  ℕ, zero, suc, ◌+◌, ◌-◌, ◌*◌, ◌/◌, ◌≤◌, ◌<◌, ◌≡◌, ◌≢◌, refl, ap, sym, ◌∙◌, subst, true, false, not,
  List, [], ◌∷◌, arith, ◌==◌, length, drop, take, All, inl, inr, ok, Bytes, bytes_eq_iff,
}
use novachannel.Common.Fallible.{then_else, then_else-ok}
use novachannel.Crypto.{Primitives, IsPrimitives}
use novachannel.Kex.{Draw}
use novachannel.Group.Index.{ancestors}
use novachannel.Group.Keys.{NodePublicKey, TreeNode, key_eq}
use novachannel.Group.Sealing.{keypair_public, no_salt, hkdf_expand32, label_path_step}
use novachannel.Group.State.{Group}
use novachannel.Group.Commits.{
  PathSecrets, Level, nodes_of, secrets_of, secret_at, seal_each, path_levels, find_from,
  next_secret, check_path,
}
use novachannel.Group.Paths.{is_above, is_above_root, ancestors-suc}
use novachannel.Group.Cover.{resolution-Covers}
use novachannel.Group.Invariant.{
  IsGroup, my_node, sibling-lt, sibling_aside, leaf_to_node-lt, le-leaf_to_node,
}
use novachannel.Group.Epoch.{hkdf-ok}
use novachannel.Group.Seals.{IsAuthentic}
use novachannel.Group.Levels.{Made, path_levels-Made}
use novachannel.Group.Follow.{HoldsKeys, open_as_any-hits}

key_eq_self : (k : NodePublicKey) → key_eq k k ≡ true
unfolding key_eq
key_eq_self k =
    let p = (bytes_eq_iff k.dh_public k.dh_public).1 refl in
    let q = (bytes_eq_iff k.kem_public k.kem_public).1 refl in ground arith

length-hkdf_expand32 :
    {prim : Primitives}
    → IsPrimitives prim
    → (secret label next : Bytes) → hkdf_expand32 prim secret label ≡ ok next
    → length next ≡ 32
unfolding hkdf_expand32
length-hkdf_expand32 law secret label next e =
    let (okm, f, size) = hkdf-ok law.kdf no_salt secret label 32 (omega arith) in
    let same : okm ≡ next = cc in ap length (sym same) ∙ size

next_level :
    (prim : Primitives) (draws : ℕ → ℕ → Draw) (nodes : List TreeNode) (capacity d : ℕ)
    (secret next : Bytes) (path : List ℕ) (levels : List Level)
    → path_levels prim draws nodes capacity d next path ≡ ok levels
    → hkdf_expand32 prim secret label_path_step ≡ ok next
    → check_path prim next path (nodes_of levels) ≡ ok (secrets_of levels)
    → then_else (next_secret prim secret path) (λ n. check_path prim n path (nodes_of levels))
      ≡ ok (secrets_of levels)
unfolding next_secret check_path path_levels nodes_of secrets_of
next_level prim draws nodes capacity d secret next [] levels made stepped ih =
    let none_made : [] ≡ levels = cc in
    subst (λ ls. check_path prim secret [] (nodes_of ls) ≡ ok (secrets_of ls)) none_made refl
next_level prim draws nodes capacity d secret next (e ∷ path) levels made stepped ih = rw stepped ih

-- A path update passes the check of its keys, from the secret that it was made from.
pub check_path-path_levels :
    (prim : Primitives) (draws : ℕ → ℕ → Draw) (nodes : List TreeNode) (capacity prev : ℕ)
    (secret : Bytes) (path : List ℕ) (levels : List Level)
    → path_levels prim draws nodes capacity prev secret path ≡ ok levels
    → check_path prim secret path (nodes_of levels) ≡ ok (secrets_of levels)
unfolding check_path path_levels nodes_of secrets_of
check_path-path_levels prim draws nodes capacity prev secret [] levels h =
    let none_made : [] ≡ levels = cc in
    subst (λ ls. check_path prim secret [] (nodes_of ls) ≡ ok (secrets_of ls)) none_made refl
check_path-path_levels prim draws nodes capacity prev secret (d ∷ path) all h =
    let (l, levels, whole, m) =
      path_levels-Made prim draws nodes capacity prev d secret path all h in
    let same_key : not (key_eq (keypair_public m.keypair) l.node.public_key) ≡ false =
      ap (λ k. not (key_eq (keypair_public m.keypair) k)) m.public_key
      ∙ ap not (key_eq_self (keypair_public m.keypair)) in
    let above : then_else (next_secret prim secret path)
          (λ next. check_path prim next path (nodes_of levels))
        ≡ ok (secrets_of levels) =
      next_level prim draws nodes capacity d secret m.next path levels m.above m.stepped
        (check_path-path_levels prim draws nodes capacity d m.next path levels m.above) in
    let joined = then_else-ok (next_secret prim secret path) _ _ above in
    subst (λ ls. check_path prim secret (d ∷ path) (nodes_of ls) ≡ ok (secrets_of ls)) (sym whole)
      (rw (m.derived, same_key)
        (joined (λ rest. ok ((d, secret) ∷ rest))
          ∙ ap (λ t. ok (t ∷ secrets_of levels)) (sym m.is_secret)))

secret_at_skip :
    (n : ℕ) (secret : Bytes) (known : PathSecrets)
    → n ≢ 0
    → secret_at 0 ((n, secret) ∷ known) ≡ secret_at 0 known
unfolding secret_at
secret_at_skip n secret known h = let other : (n == 0) ≡ false = ground arith in rw other refl

module _ {prim : Primitives} (law : IsPrimitives prim) (auth : IsAuthentic prim.aead) {g : Group}
    (v : IsGroup g) {nodes : List TreeNode} (size : length nodes ≡ 2 * g.capacity - 1)
    (holds : HoldsKeys prim g nodes) (draws : ℕ → ℕ → Draw) where
  -- The member opens one level, and the levels from there on were made from the secret that it finds.
  pub record Opens (i : ℕ) (path : List ℕ) (levels : List Level) (prev : ℕ) : Type 0 where
    pub steps : ℕ
    pub secret : Bytes
    pub below : ℕ
    pub rest : List Level
    pub found : find_from prim g nodes prev i path (nodes_of levels) ≡ ok (i + steps, secret)
    pub within : steps < length path
    pub aside : All (λ d. is_above d (my_node g) ≡ false) (take steps path)
    pub rest_nodes : drop steps (nodes_of levels) ≡ nodes_of rest
    pub remade : path_levels prim draws nodes g.capacity below secret (drop steps path) ≡ ok rest
    pub last : secret_at 0 (secrets_of rest) ≡ secret_at 0 (secrets_of levels)

  climb :
      (fuel y i : ℕ) (secret : Bytes) (l : Level) (levels : List Level)
      → suc y < 2 * g.capacity - 1
      → is_above (suc y) (my_node g) ≡ false
      → length secret ≡ 32
      → path_levels prim draws nodes g.capacity (suc y) secret (y / 2 ∷ ancestors fuel (y / 2))
        ≡ ok (l ∷ levels)
      → Made prim draws nodes g.capacity (suc y) (y / 2) secret (ancestors fuel (y / 2)) l levels
      → (is_above (y / 2) (my_node g) ≡ false
          → Opens (suc i) (ancestors fuel (y / 2)) levels (y / 2))
      → Opens i (y / 2 ∷ ancestors fuel (y / 2)) (l ∷ levels) (suc y)
  unfolding find_from nodes_of secrets_of secret_at
  climb fuel y i secret l levels k aside len made m later =
      let (s, at, inside, under) = sibling-lt g.capacity y k in
      let same_target : s ≡ m.target = cc (at, m.is_target) in
      let (ts, res, c) =
        resolution-Covers nodes g.capacity size m.target (omega (arith, same_target)) in
      let same_targets : ts ≡ m.targets = cc (res, m.are_targets) in
      let sealed = ap (seal_each prim (draws (y / 2)) nodes secret) same_targets ∙ m.sealed in
      let low = le-leaf_to_node g.capacity g.my_leaf in
      let high = leaf_to_node-lt v v.mine in
      let counted = c.once (my_node g) low (omega (arith, size)) holds.filled_leaf in
      elim (open_as_any-hits law auth v holds (draws (y / 2)) secret ts l.node.ciphertexts len
        sealed ts c.filled (λ t h. h)) [
          | inr (some_hits, opened) ↦ record {
            steps = 0;
            secret = secret;
            below = suc y;
            rest = l ∷ levels;
            found = rw (m.is_target, res, opened) (ap (λ n. ok (n, secret)) (omega arith));
            within = omega arith;
            aside = tt;
            rest_nodes = refl;
            remade = made;
            last = refl;
          }
          | inl (no_hits, opened) ↦
              let off : is_above m.target (my_node g) ≡ false = ground arith in
              let up =
                sibling_aside y m.target (my_node g) m.is_target (λ e. absurd (omega (arith, low)))
                  aside off in
              let o = later up in
              record {
                steps = suc o.steps;
                secret = o.secret;
                below = o.below;
                rest = o.rest;
                found =
                    let count : suc i + o.steps ≡ i + suc o.steps = omega arith in
                    rw (m.is_target, res, opened) (o.found ∙ ap (λ n. ok (n, o.secret)) count);
                within = omega (arith, o.within);
                aside = (up, o.aside);
                rest_nodes = o.rest_nodes;
                remade = o.remade;
                last =
                    o.last
                    ∙ sym (
                        ap (λ t. secret_at 0 (t ∷ secrets_of levels)) m.is_secret
                        ∙ secret_at_skip (y / 2) secret (secrets_of levels) (λ z. cc (
                          up,
                          sym (ap (λ n. is_above n (my_node g)) z),
                          is_above_root (my_node g),
                        )));
              }
        ]

  pub path_levels-Opens :
      (fuel prev i : ℕ) (secret : Bytes) (levels : List Level)
      → prev ≤ fuel
      → prev < 2 * g.capacity - 1
      → is_above prev (my_node g) ≡ false
      → length secret ≡ 32
      → path_levels prim draws nodes g.capacity prev secret (ancestors fuel prev) ≡ ok levels
      → Opens i (ancestors fuel prev) levels prev
  path_levels-Opens fuel zero i secret levels h k aside len made =
      absurd (cc (aside, is_above_root (my_node g)))
  path_levels-Opens zero (suc y) i secret levels h k aside len made = absurd (omega arith)
  path_levels-Opens (suc fuel) (suc y) i secret all h k aside len made =
      let p = y / 2 in
      let path = ancestors-suc fuel y in
      let made' =
        subst (λ q. path_levels prim draws nodes g.capacity (suc y) secret q ≡ ok all) path made in
      let (l, levels, whole, m) =
        path_levels-Made prim draws nodes g.capacity (suc y) p secret (ancestors fuel p) all
          made' in
      subst (λ q. Opens i q all (suc y)) (sym path)
        (subst (λ ls. Opens i (p ∷ ancestors fuel p) ls (suc y)) (sym whole)
          (climb fuel y i secret l levels k aside len (made' ∙ ap ok whole) m (λ up.
            path_levels-Opens fuel p (suc i) m.next levels (omega arith) (omega arith) up
              (length-hkdf_expand32 law secret label_path_step m.next m.stepped) m.above)))
