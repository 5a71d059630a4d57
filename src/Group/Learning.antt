-- ===== src/Group/Learning.antt =====
-- crates/core/src/group.rs: what a receiver has checked before a commit changes anything.
use novachannel.Common.{
  ℕ, zero, suc, ◌<◌, ◌≡◌, refl, ap, sym, ◌∙◌, subst, true, not, some, List, [], ◌∷◌, arith, ◌==◌,
  length, length-drop, contains, drop, Bool-cases, inl, inr, Result, ok, Bytes, Option-cases,
}
use novachannel.Common.Fallible.{
  Ensures, returns, refuses, Ensures-if, Ensures-then, ensure-Ensures, ok_or-Ensures,
}
use novachannel.Errors.{Error}
use novachannel.Crypto.{Primitives, Kdf}
use novachannel.Identity.{PublicIdentity, HybridSignature, verify}
use novachannel.Group.Keys.{key_eq}
use novachannel.Group.Sealing.{
  SealedToNode, keypair_public, hkdf, no_salt, derive_node_keypair, hkdf_expand32, label_path_step,
}
use novachannel.Group.Messages.{UpdatePathNode}
use novachannel.Group.Commits.{
  PathSecrets, secret_at, last_of, commit_secret_of, opened_secret, first_opened, next_secret,
  check_path,
}

abbrev pub Always {ℓ} : {A : Type ℓ} → A → Type 0
Always _ = Unit

pub weaken {ℓ κ} :
    {A : Type ℓ} {P : A → Type κ} {r : Result Error A} → Ensures P r → Ensures Always r
weaken (returns h) = returns tt
weaken refuses = refuses

pub strengthen {ℓ κ κ'} :
    {A : Type ℓ} {P : A → Type κ} {Q : A → Type κ'} {r : Result Error A}
    → Ensures P r
    → ((a : A) → P a → Q a)
    → Ensures Q r
strengthen (returns {a} h) k = returns (k a h)
strengthen refuses k = refuses

pub verify-Ensures :
    (prim : Primitives) (i : PublicIdentity) (message : Bytes) (g : HybridSignature)
    → Ensures Always (verify prim.signatures i message g)
unfolding verify
verify-Ensures prim i message g =
    Ensures-then (ensure-Ensures (prim.signatures.ed25519.verify i.ed25519 message g.ed25519) _)
      (λ _ e h. weaken (ensure-Ensures (prim.signatures.ml_dsa.verify i.ml_dsa message g.ml_dsa) _))

hkdf-Ensures :
    (kdf : Kdf) (salt ikm info : Bytes) (len : ℕ) → Ensures Always (hkdf kdf salt ikm info len)
unfolding hkdf
hkdf-Ensures kdf salt ikm info len =
    Ensures-then (ok_or-Ensures _ (kdf.from_prk (kdf.extract salt ikm)))
      (λ hk e h. weaken (ok_or-Ensures _ (kdf.expand hk info len)))

abbrev pub keys_of : PathSecrets → List ℕ
keys_of [] = []
keys_of ((n, secret) ∷ known) = n ∷ keys_of known

module _ (prim : Primitives) where
  pub derive_node_keypair-Ensures :
      (secret : Bytes) → Ensures Always (derive_node_keypair prim secret)
  unfolding derive_node_keypair
  derive_node_keypair-Ensures secret =
      Ensures-then (hkdf-Ensures prim.kdf no_salt secret _ 96) (λ seed e h. returns tt)

  hkdf_expand32-Ensures : (secret label : Bytes) → Ensures Always (hkdf_expand32 prim secret label)
  unfolding hkdf_expand32
  hkdf_expand32-Ensures secret label = hkdf-Ensures prim.kdf no_salt secret label 32

  next_secret-Ensures :
      (secret : Bytes) (path : List ℕ) → Ensures Always (next_secret prim secret path)
  unfolding next_secret
  next_secret-Ensures secret [] = returns tt
  next_secret-Ensures secret (d ∷ path) = hkdf_expand32-Ensures secret label_path_step

  pub opened_secret-Ensures :
      (dh kem : Bytes) (cts : List SealedToNode) → Ensures Always (opened_secret prim dh kem cts)
  unfolding opened_secret
  opened_secret-Ensures dh kem cts = elim (Option-cases (first_opened prim dh kem cts)) [
    | inl e ↦ rw (e, opened_secret) (returns tt)
    | inr (bytes, e) ↦
        rw (e, opened_secret) (Ensures-if (length bytes == 32) (λ h. returns tt) (λ h. refuses))
  ]

  pub check_path-Ensures :
      (secret : Bytes) (path : List ℕ) (path_nodes : List UpdatePathNode)
      → length path ≡ length path_nodes
      → Ensures (λ known. keys_of known ≡ path) (check_path prim secret path path_nodes)
  unfolding check_path
  check_path-Ensures secret [] path_nodes same = returns refl
  check_path-Ensures secret (d ∷ path) [] same = absurd (omega arith)
  check_path-Ensures secret (d ∷ path) (n ∷ path_nodes) same =
      Ensures-then (derive_node_keypair-Ensures secret) (λ k e h.
        Ensures-if (not (key_eq (keypair_public k) n.public_key)) (λ wrong. refuses)
          (λ right. Ensures-then (next_secret-Ensures secret path) (λ next e h.
            Ensures-then (check_path-Ensures next path path_nodes (omega arith))
              (λ known e h. returns (ap (λ t. d ∷ t) h)))))

  secret_at-some :
      (d : ℕ) (known : PathSecrets)
      → contains (keys_of known) d ≡ true
      → (secret : Bytes) × (secret_at d known ≡ some secret)
  unfolding secret_at
  secret_at-some d [] h = absurd (cc)
  secret_at-some d ((n, secret) ∷ known) h = elim (Bool-cases (n == d)) [
    | inl here ↦ (secret, rw here refl)
    | inr there ↦ let (later, e) = secret_at-some d known (ground arith) in (later, rw there e)
  ]

  last_of-contains :
      (d : ℕ) (path : List ℕ)
      → (e : ℕ) × (last_of (d ∷ path) ≡ some e) × (contains (d ∷ path) e ≡ true)
  unfolding last_of
  last_of-contains d [] = (d, refl, ground arith)
  last_of-contains d (c ∷ path) = let (e, l, h) = last_of-contains c path in (e, l, ground arith)

  last_of-drop : (n : ℕ) (path : List ℕ) → n < length path → last_of (drop n path) ≡ last_of path
  unfolding last_of
  last_of-drop zero path h = refl
  last_of-drop (suc n) [] h = absurd (omega arith)
  last_of-drop (suc n) (d ∷ []) h = absurd (omega arith)
  last_of-drop (suc n) (d ∷ e ∷ path) h = last_of-drop n (e ∷ path) (omega arith)

  pub commit_secret_of-some :
      (n : ℕ) (path suffix : List ℕ) (known : PathSecrets)
      → n < length path
      → suffix ≡ drop n path
      → keys_of known ≡ suffix
      → (secret : Bytes) × (commit_secret_of path known ≡ ok secret)
  unfolding commit_secret_of
  commit_secret_of-some n path [] known h split keys =
      absurd (omega (arith, ap length split, length-drop n path))
  commit_secret_of-some n path (d ∷ rest) known h split keys =
      let (e, last, in_path) = last_of-contains d rest in
      let whole : last_of path ≡ some e =
        sym (last_of-drop n path h) ∙ ap last_of (sym split) ∙ last in
      let (secret, at) =
        secret_at-some e known (subst (λ l. contains l e ≡ true) (sym keys) in_path) in
      (secret, rw (whole, at) refl)
