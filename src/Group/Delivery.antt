-- ===== src/Group/Delivery.antt =====
-- crates/core/src/group.rs: a record of a member is opened once by another.
use mathlib.Core.List.{append_assoc}
use novachannel.Common.{
  ℕ, ◌+◌, ◌^◌, ◌<◌, ◌≡◌, ◌≢◌, ◌⊎◌, refl, ap, sym, ◌∙◌, subst, true, false, Option, none, some, ◌++◌,
  ok, err, arith, ltb, ◌==◌, length, length-append, take, drop, replicate, Bytes,
  take-append_length, drop-append_length, inl, inr,
}
use novachannel.Common.Fallible.{ok_or}
use novachannel.Errors.{replay, decrypt}
use novachannel.Crypto.{Primitives, IsPrimitives}
use novachannel.Wire.{to_be_bytes, from_be_bytes, length-to_be_bytes, from_be_bytes-to_be_bytes}
use novachannel.Group.Sealing.{aead_seal, aead_seal_open}
use novachannel.Group.State.{
  Group, as_u32, insert, is_member, member_package, advance, derive_sender_chain,
}
use novachannel.Group.Records.{
  app_header, next_seq, header_of, seal, ensure_chain, move_chain, open_from, open_record,
}
use novachannel.Group.Seals.{SealsAll}

take_prefix : (n : ℕ) (xs ys : Bytes) → length xs ≡ n → take n (xs ++ ys) ≡ xs
take_prefix n xs ys e = subst (λ k. take k (xs ++ ys) ≡ xs) e (take-append_length xs ys)

drop_prefix : (n : ℕ) (xs ys : Bytes) → length xs ≡ n → drop n (xs ++ ys) ≡ ys
drop_prefix n xs ys e = subst (λ k. drop k (xs ++ ys) ≡ ys) e (drop-append_length xs ys)

-- The header of a record is read back.
record Framed (epoch leaf seq : ℕ) (ciphertext rec : Bytes) : Type 0 where
  long : ltb (length rec) 20 ≡ false
  its_epoch : (header_of rec).epoch ≡ epoch
  its_leaf : (header_of rec).sender_leaf ≡ leaf
  its_seq : (header_of rec).seq ≡ seq
  aad : take 20 rec ≡ app_header epoch leaf seq
  body : drop 20 rec ≡ ciphertext

app_header-Framed :
    (epoch leaf seq : ℕ) (ciphertext : Bytes)
    → epoch < 2 ^ 64
    → leaf < 2 ^ 32
    → seq < 2 ^ 64
    → Framed epoch leaf seq ciphertext (app_header epoch leaf seq ++ ciphertext)
unfolding app_header header_of
app_header-Framed epoch leaf seq ciphertext e_lt l_lt s_lt =
    let e = to_be_bytes 8 epoch in
    let l = to_be_bytes 4 leaf in
    let q = to_be_bytes 8 seq in
    let e_len = length-to_be_bytes 8 epoch in
    let l_len = length-to_be_bytes 4 leaf in
    let q_len = length-to_be_bytes 8 seq in
    let parts : (e ++ (l ++ q)) ++ ciphertext ≡ e ++ (l ++ (q ++ ciphertext)) =
      append_assoc e (l ++ q) ciphertext ∙ ap (λ t. e ++ t) (append_assoc l q ciphertext) in
    let header_len : length (e ++ (l ++ q)) ≡ 20 =
      omega (arith, length-append e (l ++ q), length-append l q, e_len, l_len, q_len) in
    let eight_more : (rest : Bytes) → drop 12 (e ++ (l ++ rest)) ≡ rest = λ rest.
      ap (drop 12) (sym (append_assoc e l rest))
      ∙ drop_prefix 12 (e ++ l) rest (omega (arith, length-append e l, e_len, l_len)) in
    record {
      long = ground (arith, length-append (e ++ (l ++ q)) ciphertext, header_len);
      its_epoch =
          ap (λ r. from_be_bytes (take 8 r)) parts
          ∙ ap from_be_bytes (take_prefix 8 e (l ++ (q ++ ciphertext)) e_len)
          ∙ from_be_bytes-to_be_bytes 8 epoch (omega arith);
      its_leaf =
          ap (λ r. from_be_bytes (take 4 (drop 8 r))) parts
          ∙ ap (λ r. from_be_bytes (take 4 r)) (drop_prefix 8 e (l ++ (q ++ ciphertext)) e_len)
          ∙ ap from_be_bytes (take_prefix 4 l (q ++ ciphertext) l_len)
          ∙ from_be_bytes-to_be_bytes 4 leaf (omega arith);
      its_seq =
          ap (λ r. from_be_bytes (take 8 (drop 12 r))) parts
          ∙ ap (λ r. from_be_bytes (take 8 r)) (eight_more (q ++ ciphertext))
          ∙ ap from_be_bytes (take_prefix 8 q ciphertext q_len)
          ∙ from_be_bytes-to_be_bytes 8 seq (omega arith);
      aad = take_prefix 20 (e ++ (l ++ q)) ciphertext header_len;
      body = drop_prefix 20 (e ++ (l ++ q)) ciphertext header_len;
    }

-- `b` is where `a` is: in its epoch, at its chain and its next number.
pub record Linked (prim : Primitives) (a b : Group) : Type 0 where
  pub epoch : b.epoch ≡ a.epoch
  pub epoch_fits : a.epoch < 2 ^ 64
  pub leaf_fits : a.my_leaf < 2 ^ 32
  pub other : a.my_leaf ≢ b.my_leaf
  pub member : is_member b a.my_leaf ≡ true
  pub chain :
      (b.recv_chains a.my_leaf ≡ some (a.send_chain, a.send_seq))
      ⊎ ((b.recv_chains a.my_leaf ≡ none)
          × (derive_sender_chain prim.kdf b.application_secret a.my_leaf ≡ ok a.send_chain)
          × (a.send_seq ≡ 0))

insert_self : (k : ℕ) (v : Bytes × ℕ) (m : ℕ → Option (Bytes × ℕ)) → insert k v m k ≡ some v
unfolding insert
insert_self k v m = let same : (k == k) ≡ true = ground arith in rw same refl

-- The chains do not decide who is a member.
is_member-chains :
    (b : Group) (m : ℕ → Option (Bytes × ℕ)) (i : ℕ)
    → is_member (record b { recv_chains = m }) i ≡ is_member b i
unfolding is_member member_package
is_member-chains b m i = refl

module _ (prim : Primitives) where
  ensure_chain-some :
      (b : Group) (i : ℕ) (entry : Bytes × ℕ)
      → b.recv_chains i ≡ some entry
      → ensure_chain prim i b ≡ (ok entry, b)
  unfolding ensure_chain
  ensure_chain-some b i entry there = rw (there, ensure_chain) refl

  ensure_chain-Linked :
      {a b : Group}
      → Linked prim a b
      → (m : ℕ → Option (Bytes × ℕ)) × (ensure_chain prim a.my_leaf b
          ≡ (ok (a.send_chain, a.send_seq), record b { recv_chains = m }))
  unfolding ensure_chain
  ensure_chain-Linked {a} {b} l = elim l.chain [
    | inl there ↦ (b.recv_chains, ensure_chain-some b a.my_leaf (a.send_chain, a.send_seq) there)
    | inr (missing, derived, first) ↦ (
      insert a.my_leaf (a.send_chain, 0) b.recv_chains,
      rw (missing, ensure_chain, derived)
          (ap
            (λ n. (
              ok (a.send_chain, n),
              record b { recv_chains = insert a.my_leaf (a.send_chain, 0) b.recv_chains },
            ))
            (sym first)),
    )
  ]

  -- What opening a framed record of the linked member does.
  opened :
      {a b : Group} (l : Linked prim a b) (rec ciphertext p : Bytes)
      → a.send_seq + 1 < 2 ^ 64
      → Framed a.epoch a.my_leaf a.send_seq ciphertext rec
      → aead_seal_open prim
          (advance prim.kdf a.send_chain).1
          (app_header a.epoch a.my_leaf a.send_seq)
          ciphertext
        ≡ ok p
      → (m : ℕ → Option (Bytes × ℕ)) × (open_record prim rec b ≡ (
        ok (a.my_leaf, p),
        record b {
          recv_chains = insert a.my_leaf ((advance prim.kdf a.send_chain).0, a.send_seq + 1) m;
        },
      ))
  unfolding open_record open_from move_chain
  opened {a} {b} l rec ciphertext p room f e =
      let (m, ensured) = ensure_chain-Linked l in
      let now : ((header_of rec).epoch == b.epoch) ≡ true = ground (arith, f.its_epoch, l.epoch) in
      let apart : (a.my_leaf == b.my_leaf) ≡ false = ground (arith, l.other) in
      let next : (a.send_seq == a.send_seq) ≡ true = ground arith in
      let fits : (a.send_seq + 1 == 2 ^ 64) ≡ false = ground arith in
      (
        m,
        rw
            (
              f.long, now, f.its_leaf, apart, l.member, ensured, f.its_seq, next, f.aad, f.body, e,
              fits,
            )
            refl,
      )

  seal-ok :
      (a : Group) (p ciphertext : Bytes)
      → a.send_seq + 1 < 2 ^ 64
      → a.my_leaf < 2 ^ 32
      → prim.aead.encrypt
          (advance prim.kdf a.send_chain).1
          (replicate 12 0)
          (app_header a.epoch a.my_leaf a.send_seq)
          p
        ≡ some ciphertext
      → seal prim p a ≡ (
        ok (app_header a.epoch a.my_leaf a.send_seq ++ ciphertext),
        record a { send_seq = a.send_seq + 1; send_chain = (advance prim.kdf a.send_chain).0 },
      )
  unfolding seal next_seq aead_seal
  seal-ok a p ciphertext room small e =
      let fits : (a.send_seq + 1 == 2 ^ 64) ≡ false = ground arith in
      let leaf_same : as_u32 a.my_leaf ≡ a.my_leaf = omega arith in rw (fits, leaf_same, e) refl

  -- The number of a record that was opened is no longer the next one.
  replayed :
      {a b : Group} (l : Linked prim a b) (rec ciphertext next_chain : Bytes)
      (m : ℕ → Option (Bytes × ℕ))
      → Framed a.epoch a.my_leaf a.send_seq ciphertext rec
      → open_record prim rec
          (record b { recv_chains = insert a.my_leaf (next_chain, a.send_seq + 1) m })
        ≡ (err replay, record b { recv_chains = insert a.my_leaf (next_chain, a.send_seq + 1) m })
  unfolding open_record open_from
  replayed {a} {b} l rec ciphertext next_chain m f =
      let now : ((header_of rec).epoch == b.epoch) ≡ true = ground (arith, f.its_epoch, l.epoch) in
      let apart : (a.my_leaf == b.my_leaf) ≡ false = ground (arith, l.other) in
      let m2 = insert a.my_leaf (next_chain, a.send_seq + 1) m in
      let still = is_member-chains b m2 a.my_leaf ∙ l.member in
      let entry : Bytes × ℕ = (next_chain, a.send_seq + 1) in
      let after : Group = record b { recv_chains = m2 } in
      let here = ensure_chain-some after a.my_leaf entry (insert_self a.my_leaf entry m) in
      let old : (a.send_seq == a.send_seq + 1) ≡ false = ground arith in
      rw (f.long, now, f.its_leaf, apart, still, here, f.its_seq, old) refl

module _ {prim : Primitives} (law : IsPrimitives prim) (seals : SealsAll prim) where
  -- A member seals a message short of the last 64-bit number, and another that is where it is opens
  -- the record: neither call fails, the receiver gets the message and the leaf of the sender, and
  -- is again where the sender is; the same record again is refused as a replay and changes nothing;
  -- for a cipher that seals every message and opens what it sealed.
  pub open_record-seal_in_group :
      {a b : Group}
      → Linked prim a b
      → (p : Bytes) → a.send_seq + 1 < 2 ^ 64
      → (rec : Bytes) × (a' : Group) × (b' : Group) × (seal prim p a ≡ (ok rec, a'))
        × (open_record prim rec b ≡ (ok (a.my_leaf, p), b'))
        × Linked prim a' b'
        × (open_record prim rec b' ≡ (err replay, b'))
  unfolding aead_seal_open
  open_record-seal_in_group {a} {b} l p room =
      let header = app_header a.epoch a.my_leaf a.send_seq in
      let key = (advance prim.kdf a.send_chain).1 in
      let next = (advance prim.kdf a.send_chain).0 in
      let (c, e) = seals key (replicate 12 0) header p in
      let f =
        app_header-Framed a.epoch a.my_leaf a.send_seq c l.epoch_fits l.leaf_fits (omega arith) in
      let plain = ap (ok_or decrypt) (law.aead.opens key (replicate 12 0) header p c e) in
      let (m, done) = opened prim l (header ++ c) c p room f plain in
      (
        header ++ c,
        record a { send_seq = a.send_seq + 1; send_chain = next },
        record b { recv_chains = insert a.my_leaf (next, a.send_seq + 1) m },
        seal-ok prim a p c room l.leaf_fits e,
        done,
        record {
          epoch = l.epoch;
          epoch_fits = l.epoch_fits;
          leaf_fits = l.leaf_fits;
          other = l.other;
          member = is_member-chains b _ a.my_leaf ∙ l.member;
          chain = inl (insert_self a.my_leaf (next, a.send_seq + 1) m);
        },
        replayed prim l (header ++ c) c next m f,
      )
