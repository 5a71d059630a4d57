-- ===== src/Common/Bits.antt =====
-- Bit operations at variables: `^` cancels, and the bits of `&`, `|` and shifted words.
use Prim.Native.Nat.{
  ℕ, zero, suc, ◌+◌, ◌-◌, ◌*◌, ◌/◌, ◌%◌, ◌^◌, ◌≤◌, ◌<◌, min, max, bitwise, digits, bit_and-bitwise,
  bit_or-bitwise, bit_xor-bitwise, differ,
}
pub use Prim.Native.Nat.{bit_and, bit_or, bit_xor}
use mathlib.Core.Path.{◌≡◌, refl, ap, ap₂, ◌∙◌}
use mathlib.Core.Logic.{◌≢◌}
use native.Mathlib.Nat.{
  pow-suc, one-le-pow, mod-lt, mod-eq_of_lt, div-add-mod, mul-add-mod_self_left,
}
use native.Mathlib.Omega.{arith}
use mathlib.Core.WellFounded
use novachannel.Common.Order.{lt_wf}

-- A native operation is a recursion on binary digits whose fuel is its first operand. A unit more of
-- fuel than the operand changes nothing, hence neither do many.
module _ (tail : ℕ → ℕ) (op : ℕ → ℕ → ℕ) where
  digits-suc : (fuel x y : ℕ) → x ≤ fuel → digits tail op (suc fuel) x y ≡ digits tail op fuel x y
  digits-suc zero zero y h = refl
  digits-suc zero (suc x) y h = elim h [ ]
  digits-suc (suc fuel) zero y h = refl
  digits-suc (suc fuel) (suc x) y h =
      ap (λ d. d * 2 + op (suc x % 2) (y % 2)) (digits-suc fuel (suc x / 2) (y / 2) (omega arith))

  digits_surplus :
      (k fuel total x y : ℕ)
      → total ≡ k + fuel
      → x ≤ fuel
      → digits tail op total x y ≡ digits tail op fuel x y
  digits_surplus zero fuel total x y e h = ap (λ t. digits tail op t x y) (e ∙ omega arith)
  digits_surplus (suc k) fuel total x y e h =
      digits_surplus k (suc fuel) total x y (omega arith) (omega arith) ∙ digits-suc fuel x y h

  lowest_digit :
      (x y : ℕ)
      → bitwise tail op (suc x) y ≡ bitwise tail op (suc x / 2) (y / 2) * 2 + op (suc x % 2) (y % 2)
  lowest_digit x y =
      ap (λ d. d * 2 + op (suc x % 2) (y % 2))
        (digits_surplus (x - suc x / 2) (suc x / 2) x (suc x / 2) (y / 2) (omega arith)
          (omega arith))

pub bit_or_halves : (x y : ℕ) → bit_or x y ≡ bit_or (x / 2) (y / 2) * 2 + max (x % 2) (y % 2)
bit_or_halves zero y = rw (bit_or-bitwise 0 y, bit_or-bitwise (0 / 2) (y / 2)) (omega arith)
bit_or_halves (suc x) y =
    rw (bit_or-bitwise (suc x) y, bit_or-bitwise (suc x / 2) (y / 2))
      (lowest_digit (λ d. d) max x y)

pub bit_and_halves : (x y : ℕ) → bit_and x y ≡ bit_and (x / 2) (y / 2) * 2 + min (x % 2) (y % 2)
bit_and_halves zero y = rw (bit_and-bitwise 0 y, bit_and-bitwise (0 / 2) (y / 2)) (omega arith)
bit_and_halves (suc x) y =
    rw (bit_and-bitwise (suc x) y, bit_and-bitwise (suc x / 2) (y / 2))
      (lowest_digit (λ _. 0) min x y)

bit_xor_halves :
    (x y : ℕ) → bit_xor (suc x) y ≡ bit_xor (suc x / 2) (y / 2) * 2 + differ (suc x % 2) (y % 2)
bit_xor_halves x y =
    rw (bit_xor-bitwise (suc x) y, bit_xor-bitwise (suc x / 2) (y / 2))
      (lowest_digit (λ d. d) differ x y)

differ_cancel : (a b c : ℕ) → a < 2 → b < 2 → c < 2 → differ a b ≡ differ a c → b ≡ c
differ_cancel zero b c p q r h = h
differ_cancel (suc zero) zero zero p q r h = refl
differ_cancel (suc zero) zero (suc zero) p q r h = absurd (omega arith)
differ_cancel (suc zero) (suc zero) zero p q r h = absurd (omega arith)
differ_cancel (suc zero) (suc zero) (suc zero) p q r h = refl
differ_cancel a b c p q r h = absurd (omega arith)

differ-lt : (a b : ℕ) → a < 2 → b < 2 → differ a b < 2
differ-lt zero b p q = q
differ-lt (suc zero) zero p q = p
differ-lt (suc zero) (suc zero) p q = omega arith
differ-lt a b p q = absurd (omega arith)

-- `a ^ _` loses nothing.
pub bit_xor_cancel : (a b c : ℕ) → bit_xor a b ≡ bit_xor a c → b ≡ c
bit_xor_cancel a = WellFounded.induction lt_wf {C = Cancels} a step
  where
    Cancels : ℕ → Type 0
    Cancels a = (b c : ℕ) → bit_xor a b ≡ bit_xor a c → b ≡ c

    step : (a : ℕ) → ((m : ℕ) → m < a → Cancels m) → Cancels a
    step zero ih b c h = simp bit_xor-bitwise at h
    step (suc a) ih b c h =
        let p = differ-lt (suc a % 2) (b % 2) (omega arith) (omega arith) in
        let q = differ-lt (suc a % 2) (c % 2) (omega arith) (omega arith) in
        let high : b / 2 ≡ c / 2 =
          ih (suc a / 2) (omega arith) (b / 2) (c / 2)
            (omega (arith, bit_xor_halves a b, bit_xor_halves a c)) in
        let low : b % 2 ≡ c % 2 =
          differ_cancel (suc a % 2) (b % 2) (c % 2) (omega arith) (omega arith) (omega arith)
            (omega (arith, bit_xor_halves a b, bit_xor_halves a c)) in
        omega arith

-- The bit of a word at a position.
pub bit : ℕ → ℕ → ℕ
bit w zero = w % 2
bit w (suc k) = bit (w / 2) k

pub bit-le-one : (w k : ℕ) → bit w k ≤ 1
unfolding bit
bit-le-one w zero = omega arith
bit-le-one w (suc k) = bit-le-one (w / 2) k

pub bit-bit_or : (a b k : ℕ) → bit (bit_or a b) k ≡ max (bit a k) (bit b k)
unfolding bit
bit-bit_or a b zero = omega (arith, bit_or_halves a b)
bit-bit_or a b (suc k) = rw (halved a b) (bit-bit_or (a / 2) (b / 2) k)
  where
    halved : (a b : ℕ) → bit_or a b / 2 ≡ bit_or (a / 2) (b / 2)
    halved a b = omega (arith, bit_or_halves a b)

bit_and-zero : (x fuel : ℕ) → x ≤ fuel → bit_and x 0 ≡ 0
bit_and-zero zero fuel h = refl
bit_and-zero (suc x) zero h = elim h [ ]
bit_and-zero (suc x) (suc fuel) h =
    omega (arith, bit_and-zero (suc x / 2) fuel (omega arith), bit_and_halves (suc x) 0)

halved : (k : ℕ) → 2 ^ suc k / 2 ≡ 2 ^ k
halved k = omega (arith, pow-suc 2 k)

-- `w & (1 << k)` is the bit at `k`, in its place.
pub bit_and-two_pow : (w k : ℕ) → bit_and w (2 ^ k) ≡ bit w k * 2 ^ k
unfolding bit
bit_and-two_pow w zero =
    omega (arith, bit_and_halves w 1, bit_and-zero (w / 2) (w / 2) (omega arith))
bit_and-two_pow w (suc k) = omega (
  arith,
  pow-suc 2 k,
  bit_and_halves w (2 ^ suc k),
  ap (bit_and (w / 2)) (halved k),
  bit_and-two_pow (w / 2) k,
  ap (λ (t : ℕ). bit (w / 2) k * t) (pow-suc 2 k),
)

pub bit-two_pow_self : (k : ℕ) → bit (2 ^ k) k ≡ 1
unfolding bit
bit-two_pow_self zero = refl
bit-two_pow_self (suc k) = rw (halved k) (bit-two_pow_self k)

pub bit-zero : (k : ℕ) → bit 0 k ≡ 0
unfolding bit
bit-zero zero = refl
bit-zero (suc k) = bit-zero k

pub bit-two_pow_ne : (j k : ℕ) → j ≢ k → bit (2 ^ j) k ≡ 0
unfolding bit
bit-two_pow_ne zero zero h = absurd (h refl)
bit-two_pow_ne zero (suc k) h = bit-zero k
bit-two_pow_ne (suc j) zero h = omega (arith, pow-suc 2 j)
bit-two_pow_ne (suc j) (suc k) h = rw (halved j) (bit-two_pow_ne j k (λ e. h (ap suc e)))

mul-two_pow : (w s : ℕ) → w * 2 ^ suc s ≡ 2 * (w * 2 ^ s)
mul-two_pow w s = omega (arith, ap (λ (t : ℕ). w * t) (pow-suc 2 s))

bit-shl_suc : (w s k : ℕ) → bit (w * 2 ^ suc s) (suc k) ≡ bit (w * 2 ^ s) k
unfolding bit
bit-shl_suc w s k = ap (λ t. bit t k) (omega (arith, mul-two_pow w s))

mod-two_pow : (w m : ℕ) → w % 2 ^ suc m ≡ 2 * (w / 2 % 2 ^ m) + w % 2
mod-two_pow w m =
    ap (λ t. w % t) (pow-suc 2 m)
    ∙ ap (λ t. t % (2 ^ m * 2)) split
    ∙ mul-add-mod_self_left (2 ^ m * 2) (w / 2 / 2 ^ m) rest
    ∙ mod-eq_of_lt bound
  where
    rest : ℕ
    rest = 2 * (w / 2 % 2 ^ m) + w % 2

    split : w ≡ 2 ^ m * 2 * (w / 2 / 2 ^ m) + rest
    split = omega (arith, div-add-mod (w / 2) (2 ^ m))

    bound : rest < 2 ^ m * 2
    bound = omega (arith, mod-lt (w / 2) (one-le-pow m 2 (omega arith)))

-- The bits that `<<` moves up, and those that it fills in.
pub bit-shl : (w s k : ℕ) → bit (w * 2 ^ s) (s + k) ≡ bit w k
bit-shl w zero k = ap₂ bit (omega arith) (omega arith)
bit-shl w (suc s) k =
    ap (bit (w * 2 ^ suc s)) (omega arith) ∙ bit-shl_suc w s (s + k) ∙ bit-shl w s k

pub bit-shl_low : (w s k : ℕ) → k < s → bit (w * 2 ^ s) k ≡ 0
unfolding bit
bit-shl_low w zero k h = absurd (omega arith)
bit-shl_low w (suc s) zero h = omega (arith, mul-two_pow w s)
bit-shl_low w (suc s) (suc k) h = bit-shl_suc w s k ∙ bit-shl_low w s k (omega arith)

-- Cutting to `m` bits keeps those below `m`.
pub bit-mod : (w m k : ℕ) → k < m → bit (w % 2 ^ m) k ≡ bit w k
unfolding bit
bit-mod w zero k h = absurd (omega arith)
bit-mod w (suc m) zero h = grind (arith, mod-two_pow w m)
bit-mod w (suc m) (suc k) h =
    ap (λ t. bit t k) (omega (arith, mod-two_pow w m)) ∙ bit-mod (w / 2) m k (omega arith)
