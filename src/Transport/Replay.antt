-- ===== src/Transport/Replay.antt =====
-- crates/core/src/transport.rs: `Receiver::open` against its specification over the list of the
-- sequence numbers opened so far.
use novachannel.Common.{
  Distinct, contains, ltb_of_le, ℕ, ◌+◌, ◌≤◌, ◌≡◌, refl, ap, ◌∙◌, inl, inr, true, false, Option,
  none, some, Option-cases, List, [], ◌∷◌, Result, ok, err, if◌then◌else◌, ltb, Bool-cases, arith,
  length, take, drop, Bytes,
}
use novachannel.Errors.{Error, malformed, too_large, replay, decrypt}
use novachannel.Crypto.{Aead}
use novachannel.Wire.{from_be_bytes}
use novachannel.Transport.{
  Receiver, DirectionalKey, new_receiver, nonce_for, open_record, open_at, decrypt_record,
  max_plaintext_len, tag_len, seq_len,
}
use novachannel.Transport.Window.{
  accepts, Tracks, check_replay-accepts, record_seen-Tracks, new_receiver-Tracks,
}

abbrev pub seq_of : Bytes → ℕ
seq_of rec = from_be_bytes (take seq_len rec)

module _ (aead : Aead) (key : DirectionalKey) where
  decrypts : Bytes → List ℕ → Result Error Bytes × List ℕ
  decrypts rec seen =
      elim (aead.decrypt key.cipher (nonce_for key (seq_of rec)) (take seq_len rec)
        (drop seq_len rec)) [
          | none ↦ (err decrypt, seen)
          | some plaintext ↦ (ok plaintext, seq_of rec ∷ seen)
        ]

  -- What opening a record does, in terms of the numbers opened so far.
  pub opens : Bytes → List ℕ → Result Error Bytes × List ℕ
  unfolding decrypts
  opens rec seen =
      if ltb (length rec) (seq_len + tag_len)
      then (err (malformed "record shorter than header + tag"), seen)
      else if ltb (seq_len + tag_len + max_plaintext_len) (length rec)
      then (err too_large, seen)
      else if accepts seen (seq_of rec)
      then decrypts rec seen
      else (err replay, seen)

pub opens-ok :
    (aead : Aead) (key : DirectionalKey) (rec : Bytes) (seen : List ℕ) (plaintext : Bytes)
    → seq_len + tag_len ≤ length rec
    → length rec ≤ seq_len + tag_len + max_plaintext_len
    → accepts seen (seq_of rec) ≡ true
    → aead.decrypt key.cipher (nonce_for key (seq_of rec)) (take seq_len rec) (drop seq_len rec)
      ≡ some plaintext
    → opens aead key rec seen ≡ (ok plaintext, seq_of rec ∷ seen)
unfolding opens decrypts
opens-ok aead key rec seen plaintext enough fits yea e =
    rw
      (
        ltb_of_le (length rec) (seq_len + tag_len) enough,
        ltb_of_le (seq_len + tag_len + max_plaintext_len) (length rec) fits,
        yea,
        e,
        decrypts,
      )
      refl

-- The receiver has opened the numbers of `seen` with its key.
pub record Serves (key : DirectionalKey) (r : Receiver) (seen : List ℕ) : Type 0 where
  pub same_key : r.key ≡ key
  pub tracks : Tracks r seen

abbrev pub Agrees :
    DirectionalKey → Result Error Bytes × Receiver → Result Error Bytes × List ℕ → Type 0
Agrees key (a, r) (b, seen) = (a ≡ b) × Serves key r seen

module _ (aead : Aead) (key : DirectionalKey) where
  decrypt_record-decrypts :
      (rec : Bytes) (r : Receiver) (seen : List ℕ)
      → Serves key r seen
      → accepts seen (seq_of rec) ≡ true
      → Agrees key (decrypt_record aead rec (seq_of rec) r) (decrypts aead key rec seen)
  unfolding decrypt_record decrypts
  decrypt_record-decrypts rec r seen s a = elim (Option-cases (opened_under key)) [
    | inl e ↦ rw (same_opened ∙ e, decrypt_record) (rw (e, decrypts) (refl, s))
    | inr (plaintext, e) ↦
        let (r', noted, kept, tracks) = record_seen-Tracks r (seq_of rec) seen s.tracks a in
        rw (same_opened ∙ e, noted, decrypt_record)
          (rw (e, decrypts) (refl, record { same_key = kept ∙ s.same_key; tracks = tracks }))
  ]
    where
      opened_under : DirectionalKey → Option Bytes
      opened_under k =
          aead.decrypt k.cipher (nonce_for k (seq_of rec)) (take seq_len rec) (drop seq_len rec)

      same_opened : opened_under r.key ≡ opened_under key
      same_opened = ap opened_under s.same_key

  open_at-opens :
      (rec : Bytes) (r : Receiver) (seen : List ℕ)
      → Serves key r seen
      → Agrees key
          (open_at aead rec (seq_of rec) r)
          (if accepts seen (seq_of rec) then decrypts aead key rec seen else (err replay, seen))
  unfolding open_at
  open_at-opens rec r seen s = elim (Bool-cases (accepts seen (seq_of rec))) [
    | inl yea ↦
        rw (check_replay-accepts r (seq_of rec) seen s.tracks, yea)
          (decrypt_record-decrypts rec r seen s yea)
    | inr nay ↦ rw (check_replay-accepts r (seq_of rec) seen s.tracks, nay) (refl, s)
  ]

  -- A receiver does exactly what the specification over the numbers opened so far says, on every
  -- branch: same result, and it stands for the same numbers afterwards. In particular it never panics.
  pub open_record-opens :
      (rec : Bytes) (r : Receiver) (seen : List ℕ)
      → Serves key r seen
      → Agrees key (open_record aead rec r) (opens aead key rec seen)
  unfolding open_record opens
  open_record-opens rec r seen s = elim (Bool-cases (ltb (length rec) (seq_len + tag_len))) [
    | inl short ↦ rw short (refl, s)
    | inr enough ↦ elim (Bool-cases (ltb (seq_len + tag_len + max_plaintext_len) (length rec))) [
      | inl long ↦ rw (enough, long) (refl, s)
      | inr fits ↦ rw (enough, fits) (open_at-opens rec r seen s)
    ]
  ]

module _ (aead : Aead) where
  -- The sequence numbers of the records that a receiver opens, in the order of arrival.
  pub opened_seqs : List Bytes → Receiver → List ℕ
  opened_seqs [] r = []
  opened_seqs (rec ∷ recs) r =
      let rest = opened_seqs recs (open_record aead rec r).1 in
      elim (open_record aead rec r).0 [ ok _ ↦ seq_of rec ∷ rest | _ ↦ rest ]

-- What one record adds to the numbers seen.
data Adds (rec : Bytes) (seen : List ℕ) : Result Error Bytes × List ℕ → Type 0 where
  opened :
      (p : Bytes) → contains seen (seq_of rec) ≡ false → Adds rec seen (ok p, seq_of rec ∷ seen)
  refused : (e : Error) → Adds rec seen (err e, seen)

decrypts-Adds :
    (aead : Aead) (key : DirectionalKey) (rec : Bytes) (seen : List ℕ)
    → accepts seen (seq_of rec) ≡ true
    → Adds rec seen (decrypts aead key rec seen)
unfolding accepts decrypts
decrypts-Adds aead key rec seen yea =
    elim (Option-cases (
      aead.decrypt key.cipher (nonce_for key (seq_of rec)) (take seq_len rec) (drop seq_len rec))) [
        | inl e ↦ rw (e, decrypts) (refused decrypt)
        | inr (p, e) ↦ rw (e, decrypts) (opened p (ground arith))
      ]

opens-Adds :
    (aead : Aead) (key : DirectionalKey) (rec : Bytes) (seen : List ℕ)
    → Adds rec seen (opens aead key rec seen)
unfolding opens
opens-Adds aead key rec seen = elim (Bool-cases (ltb (length rec) (seq_len + tag_len))) [
  | inl short ↦ rw short (refused _)
  | inr enough ↦ elim (Bool-cases (ltb (seq_len + tag_len + max_plaintext_len) (length rec))) [
    | inl long ↦ rw (enough, long) (refused _)
    | inr fits ↦ elim (Bool-cases (accepts seen (seq_of rec))) [
      | inl yea ↦ rw (enough, fits, yea) (decrypts-Adds aead key rec seen yea)
      | inr nay ↦ rw (enough, fits, nay) (refused _)
    ]
  ]
]

abbrev New : Aead → List Bytes → Receiver → List ℕ → Type 0
New aead recs r seen =
    Distinct (opened_seqs aead recs r)
    × ((a : ℕ) → contains seen a ≡ true → contains (opened_seqs aead recs r) a ≡ false)

module _ (aead : Aead) (key : DirectionalKey) where
  New-step :
      (rec : Bytes) (recs : List Bytes) (r : Receiver) (seen : List ℕ)
      {q : Result Error Bytes × List ℕ}
      → Adds rec seen q
      → (open_record aead rec r).0 ≡ q.0
      → New aead recs (open_record aead rec r).1 q.1
      → New aead (rec ∷ recs) r seen
  unfolding opened_seqs
  New-step rec recs r seen (opened p fresh) e (d, n) =
      rw (e, opened_seqs) ((n (seq_of rec) (ground arith), d), λ a h. ground (arith, n a))
  New-step rec recs r seen (refused _) e n = rw (e, opened_seqs) n

  -- Later records are opened under new numbers only.
  opened_seqs-New :
      (recs : List Bytes) (r : Receiver) (seen : List ℕ) → Serves key r seen → New aead recs r seen
  opened_seqs-New [] r seen s = unfold opened_seqs in (tt, λ a h. refl)
  opened_seqs-New (rec ∷ recs) r seen s =
      let (same, s') = open_record-opens aead key rec r seen s in
      New-step rec recs r seen (opens-Adds aead key rec seen) same
        (opened_seqs-New recs (open_record aead rec r).1 (opens aead key rec seen).1 s')

  -- Whatever records arrive at a new receiver, in whatever order, replayed or forged, no sequence
  -- number is opened twice.
  pub opened_seqs-Distinct :
      (recs : List Bytes) → Distinct (opened_seqs aead recs (new_receiver key))
  opened_seqs-Distinct recs =
      (opened_seqs-New recs (new_receiver key) []
        (record { same_key = unfold new_receiver in refl; tracks = new_receiver-Tracks key })).0
