-- ===== src/Wire/Codec.antt =====
-- crates/core/src/wire.rs: what composes of writers and readers that agree with one another.
use mathlib.Core.List.{append_assoc, append-nil}
use novachannel.Common.{
  ℕ, ◌^◌, ◌<◌, ◌≡◌, refl, ap, sym, ◌∙◌, true, [], ◌++◌, Result, ok, arith, length, Bytes,
  length-append, ◌>>=◌, pure, and_then, ==_iff,
}
use novachannel.Errors.{Call, Error}
use novachannel.Wire.{
  Writer, Reader, new_writer, new_reader, put_fixed, put_var, get_fixed, get_var, finished,
  to_be_bytes, length-to_be_bytes, from_be_bytes-to_be_bytes, from_be_bytes, into_bytes, get_number,
}
use novachannel.Wire.Fields.{get_fixed_at, get_var_at}

-- The bytes of a length-prefixed field.
abbrev pub prefixed : Bytes → Bytes
prefixed bytes = to_be_bytes 8 (length bytes) ++ bytes

-- A writer that appends the bytes `printed`, whatever is written already.
abbrev pub Writes : (Writer → Writer) → Bytes → Type 0
Writes write printed = (w : Writer) → write w ≡ record { written = w.written ++ printed }

-- A reader that takes the value `a` off the bytes `printed`, whatever stands before and behind them.
abbrev pub Reads {ℓ} : {A : Type ℓ} → Call Reader A → Bytes → A → Type ℓ
Reads read printed a =
    (r : Reader) (pre rest : Bytes)
    → r.buf ≡ pre ++ (printed ++ rest)
    → r.pos ≡ length pre
    → read r ≡ (ok a, record { buf = r.buf; pos = length (pre ++ printed) })

pub put_fixed-Writes : (bytes : Bytes) → Writes (λ w. put_fixed w bytes) bytes
unfolding put_fixed
put_fixed-Writes bytes w = refl

pub put_var-Writes : (bytes : Bytes) → Writes (λ w. put_var w bytes) (prefixed bytes)
unfolding put_var
put_var-Writes bytes w =
    ap (λ t. record { written = t }) (append_assoc w.written (to_be_bytes 8 (length bytes)) bytes)

pub Writes-then :
    (f g : Writer → Writer) (p q : Bytes) → Writes f p → Writes g q → Writes (λ w. g (f w)) (p ++ q)
Writes-then f g p q h k w =
    ap g (h w)
    ∙ k (record { written = w.written ++ p })
    ∙ ap (λ t. record { written = t }) (append_assoc w.written p q)

-- A new writer ends up with what was printed.
pub Writes-into_bytes :
    (f : Writer → Writer) (p : Bytes) → Writes f p → into_bytes (f new_writer) ≡ p
unfolding into_bytes new_writer
Writes-into_bytes f p h = ap (λ w. w.written) (h (record { written = [] }))

pub get_fixed-Reads : (bytes : Bytes) (n : ℕ) → length bytes ≡ n → Reads (get_fixed n) bytes bytes
get_fixed-Reads bytes n size r pre rest e p =
    ap (λ k. get_fixed k r) (sym size)
    ∙ get_fixed_at r pre bytes rest e p
    ∙ ap (λ k. (ok bytes, record { buf = r.buf; pos = k })) (omega (arith, length-append pre bytes))

pub get_var-Reads : (bytes : Bytes) → length bytes < 2 ^ 64 → Reads get_var (prefixed bytes) bytes
get_var-Reads bytes small r pre rest e p =
    let len_bytes = to_be_bytes 8 (length bytes) in
    get_var_at r pre bytes rest small (e ∙ ap (λ t. pre ++ t) (append_assoc len_bytes bytes rest)) p
    ∙ ap (λ k. (ok bytes, record { buf = r.buf; pos = k }))
        (omega (
          arith,
          length-append pre (len_bytes ++ bytes),
          length-append len_bytes bytes,
          length-to_be_bytes 8 (length bytes),
        ))

pub Reads-pure {ℓ} : {A : Type ℓ} (a : A) → Reads (pure a) [] a
Reads-pure a r pre rest e p =
    ap (λ k. (ok a, record { buf = r.buf; pos = k })) (p ∙ ap length (sym (append-nil pre)))

-- A step that looks at no byte.
pub Reads-lift {ℓ} : {A : Type ℓ} (m : Result Error A) (a : A) → m ≡ ok a → Reads (λ r. (m, r)) [] a
Reads-lift m a h r pre rest e p = ap (λ t. (t, r)) h ∙ Reads-pure a r pre rest e p

pub Reads-bind {ℓ κ} :
    {A : Type ℓ} {B : Type κ} (m : Call Reader A) (k : A → Call Reader B) (p q : Bytes) (a : A)
    (b : B)
    → Reads m p a
    → Reads (k a) q b
    → Reads (m >>= k) (p ++ q) b
Reads-bind m k p q a b h t r pre rest e at =
    ap (λ res. and_then res k)
      (h r pre (q ++ rest) (e ∙ ap (λ y. pre ++ y) (append_assoc p q rest)) at)
    ∙ t (record { buf = r.buf; pos = length (pre ++ p) }) (pre ++ p) rest
        (e ∙ ap (λ y. pre ++ y) (append_assoc p q rest) ∙ sym (append_assoc pre p (q ++ rest))) refl
    ∙ ap (λ n. (ok b, record { buf = r.buf; pos = length n })) (append_assoc pre p q)

-- The same for a last step that looks at no byte.
pub Reads-end {ℓ κ} :
    {A : Type ℓ} {B : Type κ} (m : Call Reader A) (k : A → Call Reader B) (p : Bytes) (a : A)
    (b : B)
    → Reads m p a
    → Reads (k a) [] b
    → Reads (m >>= k) p b
Reads-end m k p a b h t r pre rest e at =
    Reads-bind m k p [] a b h t r pre rest (e ∙ ap (λ y. pre ++ (y ++ rest)) (sym (append-nil p)))
      at
    ∙ ap (λ y. (ok b, record { buf = r.buf; pos = length (pre ++ y) })) (append-nil p)

-- A reader of exactly the bytes that were printed reads all of them.
pub Reads-whole {ℓ} :
    {A : Type ℓ} (read : Call Reader A) (printed : Bytes) (a : A)
    → Reads read printed a
    → (read (new_reader printed) ≡ (ok a, record { buf = printed; pos = length printed }))
unfolding new_reader
Reads-whole read printed a h =
    h (record { buf = printed; pos = 0 }) [] [] (sym (append-nil printed)) refl

pub finished_whole :
    (printed : Bytes) → finished (record { buf = printed; pos = length printed }) ≡ true
unfolding finished
finished_whole printed = (==_iff _ _).1 refl

-- A number in `n` bytes.
pub get_number-Reads : (n x : ℕ) → x < 256 ^ n → Reads (get_number n) (to_be_bytes n x) x
unfolding get_number
get_number-Reads n x small =
    Reads-end (get_fixed n) (λ bytes. pure (from_be_bytes bytes)) (to_be_bytes n x)
      (to_be_bytes n x) x (get_fixed-Reads (to_be_bytes n x) n (length-to_be_bytes n x))
      (Reads-lift (ok (from_be_bytes (to_be_bytes n x))) x
        (ap ok (from_be_bytes-to_be_bytes n x small)))
