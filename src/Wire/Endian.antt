-- ===== src/Wire/Endian.antt =====
-- Rust's `to_be_bytes` and `from_be_bytes` at a width in bytes.
use novachannel.Common.{
  ℕ, zero, suc, ◌+◌, ◌*◌, ◌/◌, ◌%◌, ◌^◌, ◌<◌, ◌≡◌, refl, ap, sym, ◌∙◌, arith, [], ◌∷◌, ◌++◌, length,
  length-append, Bytes, IsBytes, All-append,
}
use native.Mathlib.Nat.{pow-suc}

unfoldable pub to_be_bytes : ℕ → ℕ → Bytes
to_be_bytes zero n = []
to_be_bytes (suc w) n = to_be_bytes w (n / 256) ++ (n % 256) ∷ []

from_be_acc : ℕ → Bytes → ℕ
from_be_acc acc [] = acc
from_be_acc acc (b ∷ bs) = from_be_acc (acc * 256 + b) bs

unfoldable pub from_be_bytes : Bytes → ℕ
unfolding from_be_acc
from_be_bytes = from_be_acc 0

pub length-to_be_bytes : (w n : ℕ) → length (to_be_bytes w n) ≡ w
unfolding to_be_bytes
length-to_be_bytes zero n = refl
length-to_be_bytes (suc w) n = omega (
  arith,
  length-append (to_be_bytes w (n / 256)) ((n % 256) ∷ []),
  length-to_be_bytes w (n / 256),
)

pub to_be_bytes-IsBytes : (w n : ℕ) → IsBytes (to_be_bytes w n)
unfolding to_be_bytes
to_be_bytes-IsBytes zero n = tt
to_be_bytes-IsBytes (suc w) n =
    All-append (λ b. b < 256) _ _ (to_be_bytes-IsBytes w (n / 256)) (omega arith)

from_be_acc-snoc :
    (acc : ℕ) (bs : Bytes) (b : ℕ) → from_be_acc acc (bs ++ b ∷ []) ≡ from_be_acc acc bs * 256 + b
unfolding from_be_acc
from_be_acc-snoc acc [] b = refl
from_be_acc-snoc acc (x ∷ bs) b = from_be_acc-snoc (acc * 256 + x) bs b

-- A number that fits the width survives the round trip.
pub from_be_bytes-to_be_bytes : (w n : ℕ) → n < 256 ^ w → from_be_bytes (to_be_bytes w n) ≡ n
unfolding to_be_bytes from_be_bytes
from_be_bytes-to_be_bytes zero n h = omega arith
from_be_bytes-to_be_bytes (suc w) n h =
    from_be_acc-snoc 0 (to_be_bytes w (n / 256)) (n % 256)
    ∙ omega (arith, from_be_bytes-to_be_bytes w (n / 256) (omega (arith, pow-suc 256 w)))

-- The front of a nonempty list, and its last entry.
front : ℕ → Bytes → Bytes
front b [] = []
front b (c ∷ cs) = b ∷ front c cs

last : ℕ → Bytes → ℕ
last b [] = b
last b (c ∷ cs) = last c cs

front-last : (b : ℕ) (bs : Bytes) → b ∷ bs ≡ front b bs ++ last b bs ∷ []
unfolding front last
front-last b [] = refl
front-last b (c ∷ cs) = ap (◌∷◌ b) (front-last c cs)

length-front : (b : ℕ) (bs : Bytes) → length (front b bs) ≡ length bs
unfolding front
length-front b [] = refl
length-front b (c ∷ cs) = ap suc (length-front c cs)

front-IsBytes : (b : ℕ) (bs : Bytes) → IsBytes (b ∷ bs) → IsBytes (front b bs)
unfolding front
front-IsBytes b [] h = tt
front-IsBytes b (c ∷ cs) h = (h.0, front-IsBytes c cs h.1)

last-lt : (b : ℕ) (bs : Bytes) → IsBytes (b ∷ bs) → last b bs < 256
unfolding last
last-lt b [] h = h.0
last-lt b (c ∷ cs) h = last-lt c cs h.1

from_be_bytes-front :
    (b : ℕ) (bs : Bytes) → from_be_bytes (b ∷ bs) ≡ from_be_bytes (front b bs) * 256 + last b bs
unfolding from_be_bytes
from_be_bytes-front b bs =
    ap (from_be_acc 0) (front-last b bs) ∙ from_be_acc-snoc 0 (front b bs) (last b bs)

pub from_be_bytes-lt :
    (w : ℕ) (bs : Bytes) → length bs ≡ w → IsBytes bs → from_be_bytes bs < 256 ^ w
from_be_bytes-lt zero [] e h = unfold from_be_bytes in omega arith
from_be_bytes-lt zero (b ∷ bs) e h = absurd (omega arith)
from_be_bytes-lt (suc w) [] e h = absurd (omega arith)
from_be_bytes-lt (suc w) (b ∷ bs) e h = omega (
  arith,
  from_be_bytes-front b bs,
  last-lt b bs h,
  pow-suc 256 w,
  from_be_bytes-lt w (front b bs) (omega (arith, length-front b bs)) (front-IsBytes b bs h),
)

-- So does a byte string of that width.
pub to_be_bytes-from_be_bytes :
    (w : ℕ) (bs : Bytes) → length bs ≡ w → IsBytes bs → to_be_bytes w (from_be_bytes bs) ≡ bs
unfolding to_be_bytes
to_be_bytes-from_be_bytes zero [] e h = refl
to_be_bytes-from_be_bytes zero (b ∷ bs) e h = absurd (omega arith)
to_be_bytes-from_be_bytes (suc w) [] e h = absurd (omega arith)
to_be_bytes-from_be_bytes (suc w) (b ∷ bs) e h =
    ap (to_be_bytes (suc w)) (from_be_bytes-front b bs)
    ∙ ap (λ m. to_be_bytes w m ++ low % 256 ∷ []) (omega (arith, last-lt b bs h))
    ∙ ap (λ d. to_be_bytes w high ++ d ∷ []) (omega (arith, last-lt b bs h))
    ∙ ap (λ t. t ++ last b bs ∷ [])
        (to_be_bytes-from_be_bytes w (front b bs) (omega (arith, length-front b bs))
          (front-IsBytes b bs h))
    ∙ sym (front-last b bs)
  where
    high : ℕ
    high = from_be_bytes (front b bs)

    low : ℕ
    low = high * 256 + last b bs
