-- ===== src/Wire/Fields.antt =====
-- crates/core/src/wire.rs: what was written by `put_fixed` and `put_var` is read back.
use mathlib.Core.List.{append_assoc, append-nil}
use novachannel.Common.{
  ltb_of_le, le→leb, ◌+◌, ◌-◌, ◌^◌, ◌<◌, ◌≡◌, refl, ap, sym, ◌∙◌, true, List, [], ◌∷◌, ◌++◌, ok,
  arith, length, Bytes, length-append, take-append_length, drop-append_length, ◌>>=◌, pure, All,
  map, ==_iff,
}
use novachannel.Errors.{Call}
use novachannel.Wire.{
  Writer, Reader, new_writer, new_reader, put_fixed, put_var, get_fixed, get_var, finished,
  to_be_bytes, length-to_be_bytes, from_be_bytes-to_be_bytes, usize_max, into_bytes,
}

-- Reading the middle part of a buffer, from its start.
get_fixed_middle :
    (pre x rest : Bytes)
    → get_fixed (length x) (record { buf = pre ++ (x ++ rest); pos = length pre })
      ≡ (ok x, record { buf = pre ++ (x ++ rest); pos = length pre + length x })
unfolding get_fixed
get_fixed_middle pre x rest =
    rw
      (
        ltb_of_le (length whole) (length pre) (omega (arith, sizes)),
        ltb_of_le (length whole - length pre) (length x) (omega (arith, sizes)),
        drop-append_length pre (x ++ rest),
        take-append_length x rest,
      )
      refl
  where
    whole : Bytes
    whole = pre ++ (x ++ rest)

    sizes : length whole ≡ length pre + (length x + length rest)
    sizes = length-append pre (x ++ rest) ∙ ap (◌+◌ (length pre)) (length-append x rest)

-- The same, of a buffer that is only equal to such a one.
pub get_fixed_at :
    (r : Reader) (pre x rest : Bytes)
    → r.buf ≡ pre ++ (x ++ rest)
    → r.pos ≡ length pre
    → get_fixed (length x) r ≡ (ok x, record r { pos = r.pos + length x })
get_fixed_at r pre x rest e p =
    ap (get_fixed (length x)) (λ i. record { buf = e i; pos = p i })
    ∙ get_fixed_middle pre x rest
    ∙ ap (λ s. (ok x, s)) (λ i. record { buf = sym e i; pos = sym p i + length x })

pub get_var_at :
    (r : Reader) (pre x rest : Bytes)
    → length x < 2 ^ 64
    → r.buf ≡ pre ++ (to_be_bytes 8 (length x) ++ (x ++ rest))
    → r.pos ≡ length pre
    → get_var r ≡ (ok x, record r { pos = r.pos + 8 + length x })
unfolding get_var
get_var_at r pre x rest h e p =
    rw
      (
        prefix_read,
        from_be_bytes-to_be_bytes 8 (length x) h,
        le→leb (length x) usize_max (omega arith),
      )
      (get_fixed_at r' (pre ++ len_bytes) x rest (e ∙ sym (append_assoc pre len_bytes (x ++ rest)))
        (omega (arith, length-append pre len_bytes, width)))
  where
    len_bytes : Bytes
    len_bytes = to_be_bytes 8 (length x)

    width : length len_bytes ≡ 8
    width = length-to_be_bytes 8 (length x)

    r' : Reader
    r' = record r { pos = r.pos + 8 }

    prefix_read : get_fixed 8 r ≡ (ok len_bytes, r')
    prefix_read =
        ap (λ n. get_fixed n r) (sym width)
        ∙ get_fixed_at r pre len_bytes (x ++ rest) e p
        ∙ ap (λ n. (ok len_bytes, record r { pos = r.pos + n })) width

-- A message as a sequence of fields, written in order and read back by their shapes.
pub data Field : Type 0 where
  fixed var : Bytes → Field

abbrev pub content : Field → Bytes
content (fixed bs) = bs
content (var bs) = bs

abbrev pub Fits : Field → Type 0
Fits (fixed bs) = Unit
Fits (var bs) = length bs < 2 ^ 64

pub put : Writer → Field → Writer
put w (fixed bs) = put_fixed w bs
put w (var bs) = put_var w bs

pub put_all : Writer → List Field → Writer
put_all w [] = w
put_all w (f ∷ fs) = put_all (put w f) fs

pub get : Field → Call Reader Bytes
get (fixed bs) = get_fixed (length bs)
get (var bs) = get_var

pub get_all : List Field → Call Reader (List Bytes)
get_all [] = pure []
get_all (f ∷ fs) = do x ← get f; xs ← get_all fs; pure (x ∷ xs)

-- The bytes of a field, and of the fields that follow.
encoded : Field → Bytes
encoded (fixed bs) = bs
encoded (var bs) = to_be_bytes 8 (length bs) ++ bs

encoded_all : List Field → Bytes
encoded_all [] = []
encoded_all (f ∷ fs) = encoded f ++ encoded_all fs

put-encoded : (w : Writer) (f : Field) → (put w f).written ≡ w.written ++ encoded f
unfolding put encoded put_fixed put_var
put-encoded w (fixed bs) = refl
put-encoded w (var bs) = append_assoc w.written (to_be_bytes 8 (length bs)) bs

put_all-encoded :
    (w : Writer) (fs : List Field) → (put_all w fs).written ≡ w.written ++ encoded_all fs
unfolding put_all encoded_all
put_all-encoded w [] = sym (append-nil w.written)
put_all-encoded w (f ∷ fs) =
    put_all-encoded (put w f) fs
    ∙ ap (λ t. t ++ encoded_all fs) (put-encoded w f)
    ∙ append_assoc w.written (encoded f) (encoded_all fs)

get-encoded :
    (f : Field) (r : Reader) (pre rest : Bytes)
    → Fits f
    → r.buf ≡ pre ++ (encoded f ++ rest)
    → r.pos ≡ length pre
    → get f r ≡ (ok (content f), record r { pos = length (pre ++ encoded f) })
unfolding get encoded
get-encoded (fixed bs) r pre rest h e p =
    get_fixed_at r pre bs rest e p
    ∙ ap (λ n. (ok bs, record r { pos = n })) (omega (arith, length-append pre bs))
get-encoded (var bs) r pre rest h e p =
    get_var_at r pre bs rest h
      (e ∙ ap (◌++◌ pre) (append_assoc (to_be_bytes 8 (length bs)) bs rest)) p
    ∙ ap (λ n. (ok bs, record r { pos = n }))
        (omega (
          arith,
          length-append pre (to_be_bytes 8 (length bs) ++ bs),
          length-append (to_be_bytes 8 (length bs)) bs,
          length-to_be_bytes 8 (length bs),
        ))

get_all-encoded_all :
    (fs : List Field) (r : Reader) (pre : Bytes)
    → All Fits fs
    → r.buf ≡ pre ++ encoded_all fs
    → r.pos ≡ length pre
    → get_all fs r ≡ (ok (map content fs), record r { pos = length r.buf })
unfolding get_all encoded_all
get_all-encoded_all [] r pre h e p =
    ap (λ n. (ok [], record r { pos = n })) (p ∙ ap length (sym (e ∙ append-nil pre)))
get_all-encoded_all (f ∷ fs) r pre h e p =
    rw
      (
        get-encoded f r pre (encoded_all fs) h.0 e p,
        get_all-encoded_all fs (record r { pos = length (pre ++ encoded f) }) (pre ++ encoded f) h.1
            (e ∙ sym (append_assoc pre (encoded f) (encoded_all fs))) refl,
      )
      refl

-- A message written as a sequence of fixed and length-prefixed fields, each length-prefixed one
-- shorter than 2 ^ 64 bytes, is read back field by field: the reads succeed, return the written
-- contents, and leave nothing unread.
pub get_all-put_all :
    (fs : List Field)
    → All Fits fs
    → let message = into_bytes (put_all new_writer fs) in
      let (result, r) = get_all fs (new_reader message) in
      (result ≡ ok (map content fs)) × (finished r ≡ true)
unfolding new_writer new_reader into_bytes finished
get_all-put_all fs h = rw all_read (refl, (==_iff _ _).1 refl)
  where
    message : Bytes
    message = (put_all (record { written = [] }) fs).written

    all_read :
        get_all fs (record { buf = message; pos = 0 })
        ≡ (ok (map content fs), record { buf = message; pos = length message })
    all_read = get_all-encoded_all fs _ [] h (put_all-encoded _ fs) refl
