-- ===== src/Group/Tests.antt =====
-- crates/core/src/group.rs: a group of two at concrete keys.
use novachannel.Common.{
  inl, Bytes, ℕ, ◌≡◌, ◌≢◌, ◌<◌, ◌⊎◌, refl, ap, sym, subst, Bool, true, false, some, List, [], ◌∷◌,
  ◌++◌, arith, Result, ok, err, panic, replicate,
}
use novachannel.Errors.{Error, replay}
use novachannel.Crypto.Toy.{toy, toy-IsAead, toy_kdf, toy-IsKdf, toy_exchange}
use novachannel.Crypto.Signing.{toy_primitives, toy-IsPrimitives, toy_signatures, toy-IsSignatures}
use novachannel.Kex.{Draw}
use novachannel.Identity.{
  Identity, public, sign, verify, try_sign, ed25519_sign, ml_dsa_sign, ed25519_key, ml_dsa_key,
  Ed25519Source, MlDsaSource,
}
use novachannel.Group.Index.{leaf_to_node, direct_path}
use novachannel.Group.Keys.{LeafKeyPackage, blank, leaf}
use novachannel.Group.Messages.{GroupOp, add, remove, update, Commit}
use novachannel.Group.Resolution.{resolution, node_public_key, key_of}
use novachannel.Group.State.{
  Group, is_member, is_some, no_entries, spliced, install, member_package, leaf_package, is_blank,
}
use novachannel.Group.Commits.{Learned, keep_secrets, commit, apply_commit, signed_part}
use novachannel.Group.Paths.{is_above}
use novachannel.Group.Cover.{Covers, is_above-half, resolution-Covers, IsFilled}
use novachannel.Group.Invariant.{IsGroup, my_node}
use novachannel.Group.Accepts.{Accepts}
use novachannel.Group.Epoch.{Applied, apply_commit-Accepts}
use novachannel.Group.Removal.{apply_commit-remove}
use novachannel.Group.Seals.{IsAuthentic, SealsAll}
use novachannel.Group.Follow.{HoldsKeys}
use novachannel.Group.Agreement.{InStep}
use novachannel.Group.Sending.{SignsFor, AllContribute}
use novachannel.Group.Records.{seal, open_record}
use novachannel.Group.Delivery.{Linked, open_record-seal_in_group}
use novachannel.Group.Following.{Follows}
use novachannel.Group.Converge.{apply_commit-commit}

toy-IsAuthentic : IsAuthentic toy
toy-IsAuthentic = record {
  opens_to = λ key other nonce aad msg c m e f. cc (toy-IsAead.opens other nonce aad msg c e, f);
}

toy_seals : SealsAll toy_primitives
toy_seals key nonce aad msg = (msg ++ replicate 16 0, refl)

abbrev signer : Identity
signer = record {
  ed25519 = Ed25519Source.in_process (1 ∷ []);
  ml_dsa = MlDsaSource.in_process (2 ∷ []);
}

abbrev package_of : ℕ → LeafKeyPackage
package_of n = record {
  identity = public toy_signatures signer;
  public_key = record {
    dh_public = toy_exchange.x25519_public (n ∷ []);
    kem_public = (toy_exchange.ml_kem_keypair (n ∷ [])).1;
  };
  pop = record { ed25519 = []; ml_dsa = [] };
}

-- The member at a leaf.
abbrev member : ℕ → Group
member n = record {
  group_id = replicate 16 7;
  capacity = 2;
  nodes = blank ∷ leaf (package_of 0) ∷ leaf (package_of 1) ∷ [];
  epoch = 3;
  epoch_secret = replicate 32 1;
  application_secret = replicate 32 2;
  transcript_hash = replicate 32 3;
  my_leaf = n;
  my_leaf_keys = some (n ∷ [], (toy_exchange.ml_kem_keypair (n ∷ [])).0);
  known_secrets = no_entries;
  send_seq = 0;
  send_chain = replicate 32 4;
  recv_chains = no_entries;
}

-- The second member at the chain of the first.
abbrev listener : Group
listener = record (member 1) { recv_chains = λ i. some (replicate 32 4, 0) }

member-IsGroup : (n : ℕ) → n < 2 → IsGroup (member n)
member-IsGroup n h = record {
  roomy = omega arith;
  bounded = omega arith;
  size = refl;
  mine = h;
  known_above = λ t secret e. absurd (cc e);
}

-- Only the root lies above a leaf of a tree of two, and it is blank.
root_blank : (x t : ℕ) → x < 3 → t ≢ x → is_above t x ≡ true → IsFilled (member 0).nodes t → ⊥
unfolding is_blank
root_blank x t small other up filled =
    let root : 0 ≡ t = omega (arith, is_above-half t x up other) in
    let empty : IsFilled (member 0).nodes 0 = subst (IsFilled (member 0).nodes) (sym root) filled in
    absurd (cc (empty))

member-HoldsKeys :
    (n : ℕ)
    → my_node (member n) < 3
    → node_public_key (member 0).nodes (my_node (member n)) ≡ some (package_of n).public_key
    → IsFilled (member 0).nodes (my_node (member n))
    → HoldsKeys toy_primitives (member n) (member n).nodes
unfolding toy_exchange
member-HoldsKeys n small at filled = record {
  leaf_secrets = (n ∷ [], (toy_exchange.ml_kem_keypair (n ∷ [])).0);
  has_leaf = refl;
  leaf_key = (package_of n).public_key;
  at_leaf = at;
  is_leaf_key = record { dh = refl; seed = n ∷ []; kem_secret = refl; kem_public = refl };
  filled_leaf = filled;
  above = λ t other up full. absurd (root_blank (my_node (member n)) t small other up full);
}

first_package : member_package (member 0) 0 ≡ some (package_of 0)
unfolding member_package leaf_package leaf_to_node
first_package = refl

second_package : member_package (member 1) 1 ≡ some (package_of 1)
unfolding member_package leaf_package leaf_to_node
second_package = refl

first-Follows : Follows toy_primitives (member 0)
unfolding is_blank leaf_to_node node_public_key key_of
first-Follows = record {
  is_group = member-IsGroup 0 (omega arith);
  holds = member-HoldsKeys 0 (omega arith) refl refl;
  own = package_of 0;
  is_own = first_package;
}

second-Follows : Follows toy_primitives (member 1)
unfolding is_blank leaf_to_node node_public_key key_of
second-Follows = record {
  is_group = member-IsGroup 1 (omega arith);
  holds = member-HoldsKeys 1 (omega arith) refl refl;
  own = package_of 1;
  is_own = second_package;
}

in_step : InStep (member 0) (member 1)
in_step = record {
  group_id = refl;
  capacity = refl;
  nodes = refl;
  epoch = refl;
  epoch_secret = refl;
  application_secret = refl;
  transcript_hash = refl;
}

signer-SignsFor : SignsFor toy_primitives signer (package_of 0).identity
unfolding sign try_sign ed25519_sign ml_dsa_sign verify public ed25519_key ml_dsa_key
signer-SignsFor message =
    let ed = toy-IsSignatures.ed25519.verifies (1 ∷ []) message in
    let ml = toy-IsSignatures.ml_dsa.verifies (2 ∷ []) message in
    (
      record {
        ed25519 = toy_signatures.ed25519.sign (1 ∷ []) message;
        ml_dsa = toy_signatures.ml_dsa.sign (2 ∷ []) message;
      },
      refl,
      rw (ed, ml) refl,
    )

first_signs : SignsFor toy_primitives signer first-Follows.own.identity
unfolding first-Follows
first_signs = signer-SignsFor

abbrev draws : ℕ → ℕ → Draw
draws d t = record { secret = 9 ∷ []; seed = 8 ∷ [] }

all_contribute : AllContribute toy_primitives draws (member 0).nodes
unfolding toy_exchange
all_contribute d t k at = refl

update_splices : spliced (member 0) update ≡ ok (member 0).nodes
unfolding spliced
update_splices = refl

unfoldable is_update : GroupOp → Bool
is_update (add i p) = false
is_update (remove i) = false
is_update update = true

update_stays : (i : ℕ) → update ≢ remove i
unfolding is_update
update_stays i e = absurd (cc (ap is_update e))

apply_commit-commit_example :
    (c : Commit) × (a' : Group) × (b' : Group) × (commit toy_primitives signer update
        (replicate 32 5)
        draws
        (member 0)
      ≡ (ok c, a'))
    × (apply_commit toy_primitives c (member 1) ≡ (ok tt, b'))
    × InStep a' b'
    × (a'.epoch ≡ 4)
    × Follows toy_primitives a'
    × Follows toy_primitives b'
    × Linked toy_primitives a' b'
    × Linked toy_primitives b' a'
apply_commit-commit_example =
    apply_commit-commit toy-IsPrimitives toy-IsAuthentic toy_seals first-Follows second-Follows
      in_step (λ e. absurd (cc e)) signer update (member 0).nodes (replicate 32 5) draws first_signs
      update_splices (update_stays 0) (update_stays 1) all_contribute refl (omega arith)

resolution-Covers_example :
    (ts : List ℕ) × (resolution (member 0).nodes 2 0 ≡ some ts) × Covers (member 0).nodes 2 0 ts
resolution-Covers_example = resolution-Covers (member 0).nodes 2 refl 0 (omega arith)

abbrev removal : Commit
removal = record {
  group_id = replicate 16 7;
  from_epoch = 3;
  sender_leaf = 0;
  op = remove 1;
  path = [];
  signature = record { ed25519 = []; ml_dsa = [] };
}

apply_commit-remove_example :
    (e : Error) × (apply_commit toy_primitives removal (member 1) ≡ (err e, member 1))
apply_commit-remove_example =
    apply_commit-remove toy_primitives (member-IsGroup 1 (omega arith)) removal refl

abbrev or_removal : Result Error Commit → Commit
or_removal (ok c) = c
or_removal (err e) = removal
or_removal panic = removal

abbrev update_commit : Commit
update_commit = or_removal (commit toy_primitives signer update (replicate 32 5) draws (member 0)).0

apply_commit-Accepts_example :
    ((e : Error) × (apply_commit toy_primitives update_commit (member 1) ≡ (err e, member 1)))
    ⊎ ((l : Learned) × (s : Group) × Accepts toy_primitives
          (member-IsGroup 1 (omega arith))
          update_commit
          l
        × (apply_commit toy_primitives update_commit (member 1)
            ≡ (ok tt, record s { known_secrets = keep_secrets l.known no_entries }))
        × Applied toy_kdf
            (member 1)
            s
            (install
              (direct_path 2 update_commit.sender_leaf)
              update_commit.path
              l.pre_commit_nodes)
            l.commit_secret
            (signed_part update_commit)
        × IsGroup (record s { known_secrets = keep_secrets l.known no_entries }))
apply_commit-Accepts_example =
    apply_commit-Accepts {prim = toy_primitives} toy-IsKdf (member-IsGroup 1 (omega arith))
      update_commit (omega arith)

-- The second member before the first record of the first.
second-Linked : Linked toy_primitives (member 0) listener
unfolding is_member is_some member_package leaf_package leaf_to_node
second-Linked = record {
  epoch = refl;
  epoch_fits = omega arith;
  leaf_fits = omega arith;
  other = λ e. absurd (cc e);
  member = refl;
  chain = inl refl;
}

open_record-seal_in_group_example :
    (rec : Bytes) × (a' : Group) × (b' : Group) × (seal toy_primitives (5 ∷ []) (member 0)
      ≡ (ok rec, a'))
    × (open_record toy_primitives rec listener ≡ (ok (0, 5 ∷ []), b'))
    × Linked toy_primitives a' b'
    × (open_record toy_primitives rec b' ≡ (err replay, b'))
open_record-seal_in_group_example =
    open_record-seal_in_group toy-IsPrimitives toy_seals second-Linked (5 ∷ []) (omega arith)
