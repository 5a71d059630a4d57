-- ===== src/Group/Making.antt =====
-- crates/core/src/group.rs: a path update can be made in every tree, one level for each node of the path.
use novachannel.Common.{
  ℕ, zero, suc, ◌-◌, ◌*◌, ◌/◌, ◌≤◌, ◌<◌, ◌≡◌, refl, ap, sym, ◌∙◌, subst, some, List, [], ◌∷◌, arith,
  length, All, Bool-cases, leb, inl, inr, ok, Bytes, take, drop, get_or_past,
}
use novachannel.Crypto.{Primitives, IsPrimitives}
use novachannel.Kex.{Draw}
use novachannel.Group.Index.{ancestors}
use novachannel.Group.Keys.{NodePublicKey, TreeNode, blank}
use novachannel.Group.Sealing.{
  NodeKeypair, no_salt, label_node_keygen, label_path_step, derive_node_keypair, hkdf_expand32,
  keypair_public,
}
use novachannel.Group.Resolution.{node_public_key}
use novachannel.Group.State.{is_blank}
use novachannel.Group.Commits.{Level, nodes_of, secrets_of, last_of, path_levels}
use novachannel.Group.Paths.{ancestors-suc, ancestors-zero}
use novachannel.Group.Cover.{IsFilled, resolution-Covers}
use novachannel.Group.Invariant.{sibling-lt}
use novachannel.Group.Learning.{keys_of}
use novachannel.Group.Epoch.{hkdf-ok}
use novachannel.Group.Seals.{Contributes, SealsAll}
use novachannel.Group.Levels.{path_levels-Made, node_public_key-some, seal_each-ok}

pub IsFilled-lt : (nodes : List TreeNode) (t : ℕ) → IsFilled nodes t → t < length nodes
unfolding is_blank
IsFilled-lt nodes t filled = elim (Bool-cases (leb (length nodes) t)) [
  | inr inside ↦ ground arith
  | inl past ↦ absurd (cc (filled, ap is_blank (get_or_past nodes t blank (ground arith))))
]

pub path_levels-keys :
    (prim : Primitives) (draws : ℕ → ℕ → Draw) (nodes : List TreeNode) (capacity prev : ℕ)
    (secret : Bytes) (path : List ℕ) (levels : List Level)
    → path_levels prim draws nodes capacity prev secret path ≡ ok levels
    → (keys_of (secrets_of levels) ≡ path) × (length (nodes_of levels) ≡ length path)
unfolding path_levels secrets_of nodes_of
path_levels-keys prim draws nodes capacity prev secret [] levels h =
    let none_made : [] ≡ levels = cc in
    subst (λ ls. (keys_of (secrets_of ls) ≡ []) × (length (nodes_of ls) ≡ 0)) none_made (refl, refl)
path_levels-keys prim draws nodes capacity prev secret (d ∷ path) all h =
    let (l, levels, whole, m) =
      path_levels-Made prim draws nodes capacity prev d secret path all h in
    let (keys, len) = path_levels-keys prim draws nodes capacity d m.next path levels m.above in
    subst (λ ls. (keys_of (secrets_of ls) ≡ d ∷ path) × (length (nodes_of ls) ≡ suc (length path)))
      (sym whole)
      (ap (λ t. keys_of (t ∷ secrets_of levels)) m.is_secret ∙ ap (λ t. d ∷ t) keys, ap suc len)

module _ {prim : Primitives} (law : IsPrimitives prim) (seals : SealsAll prim) where
  derive_node_keypair-ok :
      (secret : Bytes) → (k : NodeKeypair) × (derive_node_keypair prim secret ≡ ok k)
  unfolding derive_node_keypair
  derive_node_keypair-ok secret =
      let (bytes, e, _) = hkdf-ok law.kdf no_salt secret label_node_keygen 96 (omega arith) in
      let pair = prim.exchange.ml_kem_keypair (drop 32 bytes) in
      (
        record {
          dh_secret = take 32 bytes;
          dh_public = prim.exchange.x25519_public (take 32 bytes);
          kem_secret = pair.0;
          kem_public = pair.1;
        },
        rw e refl,
      )

  hkdf_expand32-ok :
      (secret : Bytes) → (next : Bytes) × (hkdf_expand32 prim secret label_path_step ≡ ok next)
  unfolding hkdf_expand32
  hkdf_expand32-ok secret =
      let (next, e, _) = hkdf-ok law.kdf no_salt secret label_path_step 32 (omega arith) in
      (next, e)

  pub path_levels-ok :
      (draws : ℕ → ℕ → Draw) (nodes : List TreeNode) (capacity : ℕ)
      → length nodes ≡ 2 * capacity - 1
      → ((d t : ℕ) (k : NodePublicKey)
          → node_public_key nodes t ≡ some k
          → Contributes prim (draws d t) k)
      → (fuel prev : ℕ) (secret : Bytes) → prev ≤ fuel
      → prev < 2 * capacity - 1
      → (levels : List Level) × (path_levels prim draws nodes capacity prev secret
            (ancestors fuel prev)
          ≡ ok levels)
  unfolding path_levels
  path_levels-ok draws nodes capacity size contributes fuel zero secret h k =
      ([], rw (ancestors-zero fuel) refl)
  path_levels-ok draws nodes capacity size contributes zero (suc y) secret h k =
      absurd (omega arith)
  path_levels-ok draws nodes capacity size contributes (suc fuel) (suc y) secret h k =
      let (keypair, derived) = derive_node_keypair-ok secret in
      let (s, at, inside, under) = sibling-lt capacity y k in
      let (ts, res, c) = resolution-Covers nodes capacity size s (omega arith) in
      let (cts, sealed) =
        seal_each-ok law (draws (y / 2)) nodes secret seals ts
          (sealable draws nodes contributes (y / 2) ts c.filled) in
      let (next, stepped) = hkdf_expand32-ok secret in
      let (levels, above) =
        path_levels-ok draws nodes capacity size contributes fuel (y / 2) next (omega arith)
          (omega arith) in
      (
        record {
          node = record { public_key = keypair_public keypair; ciphertexts = cts };
          secret = (y / 2, secret);
        }
            ∷ levels,
        rw (ancestors-suc fuel y, derived, at, res, sealed, stepped, above) refl,
      )
    where
      sealable :
          (draws : ℕ → ℕ → Draw) (nodes : List TreeNode)
          → ((d t : ℕ) (k : NodePublicKey)
              → node_public_key nodes t ≡ some k
              → Contributes prim (draws d t) k)
          → (d : ℕ) (ts : List ℕ) → All (IsFilled nodes) ts
          → All
              (λ t.
                (k : NodePublicKey) × (node_public_key nodes t ≡ some k)
                × Contributes prim (draws d t) k)
              ts
      sealable draws nodes contributes d [] f = tt
      sealable draws nodes contributes d (t ∷ ts) (f, fs) =
          let (k, at, _) = node_public_key-some nodes t (IsFilled-lt nodes t f) f in
          ((k, at, contributes d t k at), sealable draws nodes contributes d ts fs)

last_of-lineage : (fuel p : ℕ) → p ≤ fuel → last_of (p ∷ ancestors fuel p) ≡ some 0
unfolding last_of
last_of-lineage fuel zero h = rw (ancestors-zero fuel) refl
last_of-lineage zero (suc z) h = absurd (omega arith)
last_of-lineage (suc fuel) (suc z) h =
    rw (ancestors-suc fuel z) (last_of-lineage fuel (z / 2) (omega arith))

-- A path that is not empty ends at the root.
pub last_of-ancestors : (fuel y : ℕ) → y ≤ fuel → last_of (ancestors (suc fuel) (suc y)) ≡ some 0
last_of-ancestors fuel y h =
    ap last_of (ancestors-suc fuel y) ∙ last_of-lineage fuel (y / 2) (omega arith)
