-- ===== src/Transport/Window.antt =====
-- crates/core/src/transport.rs: the replay window against the list of all sequence numbers seen.
use novachannel.Common.{
  contains, ℕ, ◌+◌, ◌-◌, ◌*◌, ◌%◌, ◌^◌, ◌≤◌, ◌<◌, ◌≡◌, refl, ap, ◌∙◌, inl, inr, Bool, true, false,
  not, ◌&&◌, Option, none, some, List, [], ◌∷◌, ok, err, if◌then◌else◌, ltb, leb, ◌==◌, Bool-cases,
  arith, max, Option-cases, subst, ltb→lt,
}
use novachannel.Common.Bits.{
  bit, bit_and, bit_or, bit-le-one, bit-bit_or, bit_and-two_pow, bit-two_pow_self, bit-two_pow_ne,
  bit-shl, bit-shl_low, bit-mod, bit-zero,
}
use mathlib.Core.Path.{subst⁻¹}
use native.Mathlib.Nat.{one-le-pow}
use novachannel.Errors.{replay}
use novachannel.Transport.{
  Receiver, check_replay, record_seen, check_below, record_below, shifted, new_receiver,
  DirectionalKey,
}

-- The specification: the sequence numbers accepted so far, in any order.
unfoldable pub newest : List ℕ → ℕ
newest [] = 0
newest (x ∷ xs) = max x (newest xs)

-- A number is acceptable if it was not seen and lies at most 64 below the newest one.
unfoldable pub accepts : List ℕ → ℕ → Bool
accepts seen seq = not (contains seen seq) && leb (newest seen) (seq + 64)

abbrev pub mark : Bool → ℕ
mark true = 1
mark false = 0

-- Bit `age - 1` of the window tells whether `highest - age` was seen.
pub record Marks (window highest : ℕ) (seen : List ℕ) : Type 0 where
  pub top : contains seen highest ≡ true
  pub newest_top : newest seen ≡ highest
  pub bits :
      (age : ℕ)
      → 1 ≤ age
      → age ≤ 64
      → age ≤ highest
      → bit window (age - 1) ≡ mark (contains seen (highest - age))

unfoldable pub TracksAt : Option ℕ → ℕ → List ℕ → Type 0
TracksAt none window seen = seen ≡ []
TracksAt (some highest) window seen = Marks window highest seen

abbrev pub Tracks : Receiver → List ℕ → Type 0
Tracks r seen = TracksAt r.highest_seq r.window seen

contains_above : (seen : List ℕ) (a : ℕ) → newest seen < a → contains seen a ≡ false
unfolding newest
contains_above [] a h = refl
contains_above (x ∷ xs) a h = ground (arith, contains_above xs a)

-- `window & (1 << k) != 0` reads the bit at `k`.
bit_and-test : (w k : ℕ) → not (bit_and w (2 ^ k) == 0) ≡ (bit w k == 1)
bit_and-test w k = ground (arith, bit_and-two_pow w k, bit-le-one w k, one-le-pow k 2)

check_below-accepts :
    (window highest seq : ℕ) (seen : List ℕ)
    → Marks window highest seen
    → check_below window highest seq ≡ (if accepts seen seq then ok tt else err replay)
unfolding check_below accepts
check_below-accepts window highest seq seen m = ground (
  arith,
  contains_above seen seq,
  m.top,
  m.newest_top,
  bit_and-test window (highest - seq - 1),
  m.bits (highest - seq),
)

-- The record is taken for a replay exactly when its number was accepted before or lies more than 64
-- below the newest accepted one.
pub check_replay-accepts :
    (r : Receiver) (seq : ℕ) (seen : List ℕ)
    → Tracks r seen
    → check_replay r seq ≡ (if accepts seen seq then ok tt else err replay)
unfolding check_replay TracksAt
check_replay-accepts r seq seen t = elim (Option-cases r.highest_seq) [
  | inl e ↦
      let empty : seen ≡ [] = subst (λ h. TracksAt h r.window seen) e t in
      rw (e, check_replay, empty) (unfold accepts newest in ground arith)
  | inr (highest, e) ↦
      rw (e, check_replay)
        (check_below-accepts r.window highest seq seen (subst (λ h. TracksAt h r.window seen) e t))
]

shifted_word-bit :
    (window shift k : ℕ)
    → k < 64
    → bit (bit_or (window * 2 ^ shift % 2 ^ 64) (2 ^ (shift - 1))) k
      ≡ max (bit (window * 2 ^ shift) k) (bit (2 ^ (shift - 1)) k)
shifted_word-bit window shift k h =
    bit-bit_or (window * 2 ^ shift % 2 ^ 64) (2 ^ (shift - 1)) k
    ∙ ap (λ b. max b (bit (2 ^ (shift - 1)) k)) (bit-mod (window * 2 ^ shift) 64 k h)

-- One age after the window moved up by `shift`.
shifted-bit :
    (window highest shift age : ℕ) (seen : List ℕ)
    → Marks window highest seen
    → 0 < shift
    → 1 ≤ age
    → age ≤ 64
    → age ≤ highest + shift
    → bit (shifted window shift) (age - 1) ≡ mark (contains seen (highest + shift - age))
unfolding shifted
shifted-bit window highest shift age seen m pos lo hi top = ground (
  arith,
  bit-zero (age - 1),
  bit-two_pow_self 63,
  bit-two_pow_ne 63 (age - 1),
  shifted_word-bit window shift (age - 1),
  bit-shl window shift (age - 1 - shift),
  bit-shl_low window shift (age - 1),
  bit-two_pow_self (shift - 1),
  bit-two_pow_ne (shift - 1) (age - 1),
  m.top,
  m.newest_top,
  m.bits (age - shift),
  contains_above seen (highest + shift - age),
)

first_Marks : (seq : ℕ) → Marks 0 seq (seq ∷ [])
unfolding newest
first_Marks seq = record {
  top = ground arith;
  newest_top = omega arith;
  bits = λ age lo hi top. ground (arith, bit-zero (age - 1));
}

shifted-Marks :
    (window highest seq : ℕ) (seen : List ℕ)
    → Marks window highest seen
    → highest < seq
    → Marks (shifted window (seq - highest)) seq (seq ∷ seen)
unfolding newest
shifted-Marks window highest seq seen m above = record {
  top = ground arith;
  newest_top = omega (arith, m.newest_top);
  bits = λ age lo hi top. ground (arith, shifted-bit window highest (seq - highest) age seen m);
}

added-Marks :
    (window highest seq : ℕ) (seen : List ℕ)
    → Marks window highest seen
    → seq < highest
    → highest ≤ seq + 64
    → Marks (bit_or window (2 ^ (highest - seq - 1))) highest (seq ∷ seen)
unfolding newest
added-Marks window highest seq seen m below near = record {
  top = ground (arith, m.top);
  newest_top = omega (arith, m.newest_top);
  bits = λ age lo hi top. ground (
    arith,
    bit-bit_or window (2 ^ (highest - seq - 1)) (age - 1),
    bit-two_pow_self (highest - seq - 1),
    bit-two_pow_ne (highest - seq - 1) (age - 1),
    bit-le-one window (age - 1),
    m.bits age,
  );
}

record_below-Marks :
    (r : Receiver) (highest seq : ℕ) (seen : List ℕ)
    → r.highest_seq ≡ some highest
    → Marks r.window highest seen
    → accepts seen seq ≡ true
    → (r' : Receiver) × (record_below highest seq r ≡ (ok tt, r'))
      × (r'.key ≡ r.key)
      × Tracks r' (seq ∷ seen)
unfolding TracksAt
record_below-Marks r highest seq seen e m a = elim (Bool-cases (ltb highest seq)) [
  | inl above ↦ (
    record r { window = shifted r.window (seq - highest); highest_seq = some seq },
    unfold record_below in rw above refl,
    refl,
    shifted-Marks r.window highest seq seen m (ltb→lt highest seq above),
  )
  | inr below ↦ (
    record r { window = bit_or r.window (2 ^ (highest - seq - 1)) },
    unfold record_below accepts in ground (arith, m.top, m.newest_top),
    refl,
    subst⁻¹ (λ h. TracksAt h (bit_or r.window (2 ^ (highest - seq - 1))) (seq ∷ seen)) e
        (added-Marks r.window highest seq seen m (unfold accepts in ground (arith, m.top))
          (unfold accepts in ground (arith, m.newest_top))),
  )
]

-- Noting an acceptable number adds it to the numbers seen, and does not panic.
pub record_seen-Tracks :
    (r : Receiver) (seq : ℕ) (seen : List ℕ)
    → Tracks r seen
    → accepts seen seq ≡ true
    → (r' : Receiver) × (record_seen seq r ≡ (ok tt, r'))
      × (r'.key ≡ r.key)
      × Tracks r' (seq ∷ seen)
unfolding record_seen TracksAt
record_seen-Tracks r seq seen t a = elim (Option-cases r.highest_seq) [
  | inl e ↦
      let empty : seen ≡ [] = subst (λ h. TracksAt h r.window seen) e t in
      (
        record r { highest_seq = some seq; window = 0 },
        rw (e, record_seen) refl,
        refl,
        rw empty (first_Marks seq),
      )
  | inr (highest, e) ↦
      rw (e, record_seen)
        (record_below-Marks r highest seq seen e (subst (λ h. TracksAt h r.window seen) e t) a)
]

pub new_receiver-Tracks : (key : DirectionalKey) → Tracks (new_receiver key) []
unfolding new_receiver TracksAt
new_receiver-Tracks key = refl
