-- ===== src/Wire/Canonical.antt =====
-- crates/core/src/wire.rs: what a successful read says of the buffer, and what a failed one leaves.
use mathlib.Core.List.{append_assoc}
use novachannel.Common.{
  le→leb, ℕ, ◌+◌, ◌-◌, ◌^◌, ◌<◌, ◌≤◌, ◌≡◌, refl, ap, sym, ◌∙◌, ◌⊎◌, inl, inr, false, ◌++◌, ok, err,
  ltb, Bool-cases, arith, length, take, drop, Bytes, IsBytes, length-take, length-drop,
  take-append-drop, drop-drop, All-take, All-drop, Result,
}
use novachannel.Errors.{Error, malformed}
use novachannel.Wire.{
  Reader, new_writer, put_var, get_fixed, get_var, to_be_bytes, from_be_bytes,
  to_be_bytes-from_be_bytes, from_be_bytes-lt, usize_max, into_bytes,
}

-- A reader stands within its buffer.
abbrev pub IsValid : Reader → Type 0
IsValid r = r.pos ≤ length r.buf

-- `r'` is `r` after `out` was read from it.
pub record Took (r : Reader) (out : Bytes) (r' : Reader) : Type 0 where
  pub same_buf : r'.buf ≡ r.buf
  pub moved : r'.pos ≡ r.pos + length out
  pub split : drop r.pos r.buf ≡ out ++ drop r'.pos r'.buf
  pub still_valid : IsValid r'
  pub bytes : IsBytes r.buf → IsBytes out

-- From a reader within its buffer, `get_fixed` reads the next `n` bytes and stands right behind them,
-- or there are fewer than `n` left, and it fails and leaves the reader as it was. It does not panic.
pub get_fixed-cases :
    (n : ℕ) (r : Reader)
    → IsValid r
    → ((out : Bytes) × (r' : Reader) × (get_fixed n r ≡ (ok out, r'))
        × (length out ≡ n)
        × Took r out r')
      ⊎ ((length r.buf < r.pos + n)
          × (get_fixed n r ≡ (err (malformed "unexpected end of message"), r)))
unfolding get_fixed
get_fixed-cases n r v = elim (Bool-cases (ltb (length r.buf - r.pos) n)) [
  | inl short ↦ inr (ground arith, rw (inside, short) refl)
  | inr enough ↦ inl (
    out,
    record r { pos = r.pos + n },
    rw (inside, enough) refl,
    size enough,
    record {
      same_buf = refl;
      moved = omega (arith, size enough);
      split = sym (take-append-drop n (drop r.pos r.buf)) ∙ ap (◌++◌ out) (drop-drop r.pos n r.buf);
      still_valid = ground arith;
      bytes =
          λ h. All-take (λ b. b < 256) n (drop r.pos r.buf) (All-drop (λ b. b < 256) r.pos r.buf h);
    },
  )
]
  where
    out : Bytes
    out = take n (drop r.pos r.buf)

    inside : ltb (length r.buf) r.pos ≡ false
    inside = ground arith

    size : ltb (length r.buf - r.pos) n ≡ false → length out ≡ n
    size h = ground (arith, length-take n (drop r.pos r.buf), length-drop r.pos r.buf)

-- What `get_var` does to a valid reader: it reads a field in the one form that `put_var` writes, or
-- fails and leaves a valid reader of the same buffer. It does not panic.
pub data ReadsVar (r : Reader) : Result Error Bytes × Reader → Type 0 where
  reads :
      (out : Bytes) (r' : Reader)
      → length out < 2 ^ 64
      → r'.buf ≡ r.buf
      → IsValid r'
      → drop r.pos r.buf ≡ into_bytes (put_var new_writer out) ++ drop r'.pos r'.buf
      → ReadsVar r (ok out, r')
  no_prefix : length r.buf < r.pos + 8 → ReadsVar r (err (malformed "unexpected end of message"), r)
  cut_short :
      (r' : Reader) (len_bytes : Bytes)
      → Took r len_bytes r'
      → length len_bytes ≡ 8
      → length r.buf < r.pos + 8 + from_be_bytes len_bytes
      → ReadsVar r (err (malformed "unexpected end of message"), r')

-- The second read, once the prefix is known.
get_var-body :
    (r r1 : Reader) (len_bytes : Bytes)
    → length len_bytes ≡ 8
    → Took r len_bytes r1
    → IsBytes r.buf
    → ReadsVar r (get_fixed (from_be_bytes len_bytes) r1)
unfolding new_writer put_var into_bytes
get_var-body r r1 len_bytes width t h =
    elim (get_fixed-cases (from_be_bytes len_bytes) r1 t.still_valid) [
      | inl (out, r2, e, size, u) ↦ rw e (
          reads out r2 (omega (arith, size, from_be_bytes-lt 8 len_bytes width (t.bytes h)))
            (u.same_buf ∙ t.same_buf) u.still_valid (form out r2 size u))
      | inr (short, e) ↦
          rw e (cut_short r1 len_bytes t width (omega (arith, ap length t.same_buf, t.moved)))
    ]
  where
    form :
        (out : Bytes) (r2 : Reader)
        → length out ≡ from_be_bytes len_bytes
        → Took r1 out r2
        → drop r.pos r.buf ≡ into_bytes (put_var new_writer out) ++ drop r2.pos r2.buf
    form out r2 size u =
        t.split
        ∙ ap (◌++◌ len_bytes) u.split
        ∙ sym (append_assoc len_bytes out (drop r2.pos r2.buf))
        ∙ ap (λ p. (p ++ out) ++ drop r2.pos r2.buf)
            (sym (to_be_bytes-from_be_bytes 8 len_bytes width (t.bytes h))
              ∙ ap (to_be_bytes 8) (sym size))

-- From a reader within a buffer of bytes, `get_var` never panics: it returns a field whose bytes in
-- the buffer are exactly those that `put_var` writes for it, with the reader right behind them, or it
-- fails because the prefix, or the length that the prefix claims, runs past the end of the buffer.
pub get_var-ReadsVar : (r : Reader) → IsValid r → IsBytes r.buf → ReadsVar r (get_var r)
unfolding get_var
get_var-ReadsVar r v h = elim (get_fixed-cases 8 r v) [
  | inl (len_bytes, r1, e, width, t) ↦
      rw
        (
          e,
          le→leb (from_be_bytes len_bytes) usize_max
              (omega (arith, from_be_bytes-lt 8 len_bytes width (t.bytes h))),
        )
        (get_var-body r r1 len_bytes width t h)
  | inr (short, e) ↦ rw e (no_prefix short)
]
