-- ===== src/Ratchet/Chain/Skipped.antt =====
-- crates/core/src/ratchet.rs: the map of skipped keys, and the keys that a chain derives.
use novachannel.Common.{
  ℕ, zero, suc, ◌+◌, ◌≤◌, ◌<◌, ◌≡◌, ◌≢◌, refl, ap, ◌∙◌, Bool, true, false, ◌&&◌, ◌||◌, Option, none,
  some, List, [], ◌∷◌, ltb, leb, ◌==◌, ==_iff, Bool-cases, arith, length, All, Bytes, inl, inr,
  subst,
}
use novachannel.Crypto.{Aead, Kdf}
use novachannel.Ratchet.{advance}
use novachannel.Ratchet.Receive.{lookup, remove, extend, skip_keys}

abbrev pub is_some : {A : Type 0} → Option A → Bool
is_some none = false
is_some (some a) = true

pub lookup-remove : (seq : ℕ) (m : List (ℕ × Bytes)) → lookup seq (remove seq m) ≡ none
unfolding lookup remove
lookup-remove seq [] = refl
lookup-remove seq ((s, key) ∷ m) = ground (arith, lookup-remove seq m)

pub lookup-remove_other :
    (seq t : ℕ) (m : List (ℕ × Bytes)) → t ≢ seq → lookup t (remove seq m) ≡ lookup t m
unfolding lookup remove
lookup-remove_other seq t [] h = refl
lookup-remove_other seq t ((s, key) ∷ m) h = ground (arith, lookup-remove_other seq t m h)

pub length-remove : (seq : ℕ) (m : List (ℕ × Bytes)) → length (remove seq m) ≤ length m
unfolding remove
length-remove seq [] = omega arith
length-remove seq ((s, key) ∷ m) = ground (arith, length-remove seq m)

pub All-remove :
    (P : ℕ × Bytes → Type 0) (seq : ℕ) (m : List (ℕ × Bytes)) → All P m → All P (remove seq m)
unfolding remove
All-remove P seq [] h = tt
All-remove P seq ((s, key) ∷ m) (h, k) = elim (Bool-cases (s == seq)) [
  | inl same ↦ rw same (All-remove P seq m k)
  | inr other ↦ rw other (h, All-remove P seq m k)
]

-- A number below `s` is not known after its key is taken out.
pub lookup-All :
    (P : ℕ × Bytes → Type 0) (seq : ℕ) (m : List (ℕ × Bytes)) (key : Bytes)
    → All P m
    → lookup seq m ≡ some key
    → P (seq, key)
unfolding lookup
lookup-All P seq [] key h e = absurd (cc)
lookup-All P seq ((s, k) ∷ m) key (h, hs) e = elim (Bool-cases (s == seq)) [
  | inl same ↦
      let at : s ≡ seq = (==_iff s seq).0 same in
      let found : some k ≡ some key = ground arith in
      let this : k ≡ key = cc in subst (λ a. P (a, key)) at (subst (λ b. P (s, b)) this h)
  | inr other ↦ lookup-All P seq m key hs (ground arith)
]

known_cons :
    (s t : ℕ) (key : Bytes) (m : List (ℕ × Bytes))
    → is_some (lookup t ((s, key) ∷ remove s m)) ≡ s == t || is_some (lookup t m)
unfolding lookup
known_cons s t key m = elim (Bool-cases (s == t)) [
  | inl same ↦ rw same refl
  | inr other ↦ rw other (ap is_some (lookup-remove_other s t m (ground arith)))
]

pub length-extend : (new m : List (ℕ × Bytes)) → length (extend new m) ≤ length new + length m
unfolding extend
length-extend [] m = omega arith
length-extend ((s, key) ∷ new) m =
    omega (arith, length-extend new ((s, key) ∷ remove s m), length-remove s m)

pub All-extend :
    (P : ℕ × Bytes → Type 0) (new m : List (ℕ × Bytes)) → All P new → All P m → All P (extend new m)
unfolding extend
All-extend P [] m h k = k
All-extend P ((s, key) ∷ new) m (h, hs) k =
    All-extend P new ((s, key) ∷ remove s m) hs (h, All-remove P s m k)

module _ (kdf : Kdf) where
  -- The chain after `n` steps from `root`, and the key of message `n`.
  unfoldable pub chain_at : ℕ → Bytes → Bytes
  chain_at zero root = root
  chain_at (suc n) root = (advance kdf (chain_at n root)).next_chain

  unfoldable pub key_at : ℕ → Bytes → Bytes
  unfolding chain_at
  key_at n root = (advance kdf (chain_at n root)).message_key

  abbrev pub KeyBelow : ℕ → Bytes → ℕ × Bytes → Type 0
  KeyBelow n root e = (e.0 < n) × (e.1 ≡ key_at e.0 root)

  module _ (aead : Aead) where
    pub skip_keys-last :
        (count s : ℕ) (root : Bytes)
        → (skip_keys aead kdf count s (chain_at s root)).1 ≡ chain_at (s + count) root
    unfolding skip_keys chain_at
    skip_keys-last zero s root = ap (λ n. chain_at n root) (omega arith)
    skip_keys-last (suc count) s root =
        skip_keys-last count (suc s) root ∙ ap (λ n. chain_at n root) (omega arith)

    pub length-skip_keys :
        (count s : ℕ) (chain : Bytes) → length (skip_keys aead kdf count s chain).0 ≡ count
    unfolding skip_keys
    length-skip_keys zero s chain = refl
    length-skip_keys (suc count) s chain =
        ap suc (length-skip_keys count (suc s) (advance kdf chain).next_chain)

    pub skip_keys-KeyBelow :
        (count s n : ℕ) (root : Bytes)
        → s + count ≤ n
        → All (KeyBelow n root) (skip_keys aead kdf count s (chain_at s root)).0
    unfolding skip_keys chain_at key_at
    skip_keys-KeyBelow zero s n root h = tt
    skip_keys-KeyBelow (suc count) s n root h =
        ((omega arith, refl), skip_keys-KeyBelow count (suc s) n root (omega arith))

    -- After the keys of `count` numbers from `s` are added, exactly those are known besides.
    pub lookup-extend-skip_keys :
        (count s t : ℕ) (chain : Bytes) (m : List (ℕ × Bytes))
        → is_some (lookup t (extend (skip_keys aead kdf count s chain).0 m))
          ≡ (leb s t && ltb t (s + count)) || is_some (lookup t m)
    unfolding skip_keys extend lookup
    lookup-extend-skip_keys zero s t chain m = ground arith
    lookup-extend-skip_keys (suc count) s t chain m =
        let a = advance kdf chain in
        let rest =
          lookup-extend-skip_keys count (suc s) t a.next_chain ((s, a.message_key) ∷ remove s m) in
        rest ∙ ground (arith, known_cons s t a.message_key m)
