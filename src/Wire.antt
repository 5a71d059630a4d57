-- ===== src/Wire.antt =====
-- crates/core/src/wire.rs: the writer and reader of length-prefixed messages. `usize` is taken to
-- be 64 bits wide. A slice is a list of numbers below 256.
mod Endian
pub mod Fields
pub mod Canonical
pub mod Codec
mod Tests
unfoldable pub use Endian.{to_be_bytes, from_be_bytes}
pub use Endian.{
  length-to_be_bytes, to_be_bytes-IsBytes, from_be_bytes-to_be_bytes, to_be_bytes-from_be_bytes,
  from_be_bytes-lt,
}
use novachannel.Common.{
  ℕ, ◌+◌, ◌-◌, ◌^◌, Bool, ◌++◌, [], Result, ok, err, panic, ◌>>=◌, pure, fail, if◌then◌else◌, ltb,
  leb, ◌==◌, length, take, drop, Bytes,
}
use novachannel.Errors.{Error, malformed, Call}

abbrev pub var_len_prefix : ℕ
var_len_prefix = 8

abbrev pub usize_max : ℕ
usize_max = 2 ^ 64 - 1

pub record Writer : Type 0 where
  pub written : Bytes

unfoldable pub new_writer : Writer
new_writer = record { written = [] }

unfoldable pub put_fixed : Writer → Bytes → Writer
put_fixed w bytes = record { written = w.written ++ bytes }

unfoldable pub put_var : Writer → Bytes → Writer
put_var w bytes = record { written = (w.written ++ to_be_bytes 8 (length bytes)) ++ bytes }

unfoldable pub into_bytes : Writer → Bytes
into_bytes w = w.written

pub record Reader : Type 0 where
  pub buf : Bytes
  pub pos : ℕ

unfoldable pub new_reader : Bytes → Reader
new_reader buf = record { buf = buf; pos = 0 }

-- `self.buf.len() - self.pos` overflows, and so panics, for a position past the end.
unfoldable pub get_fixed : ℕ → Call Reader Bytes
get_fixed n r =
    if ltb (length r.buf) r.pos
    then (panic, r)
    else if ltb (length r.buf - r.pos) n
    then (err (malformed "unexpected end of message"), r)
    else (ok (take n (drop r.pos r.buf)), record r { pos = r.pos + n })

unfoldable pub get_var : Call Reader Bytes
get_var = do
  len_bytes ← get_fixed var_len_prefix
  let len = from_be_bytes len_bytes
  if leb len usize_max
      then get_fixed len
      else fail (malformed "length prefix exceeds this platform's usize")

unfoldable pub consumed : Reader → ℕ
consumed r = r.pos

unfoldable pub remaining : Reader → Result Error ℕ
remaining r = if ltb (length r.buf) r.pos then panic else ok (length r.buf - r.pos)

unfoldable pub finished : Reader → Bool
finished r = r.pos == length r.buf

-- `uN::from_be_bytes(r.get_fixed(n)?.try_into().expect(..))`.
unfoldable pub get_number : ℕ → Call Reader ℕ
get_number n = do bytes ← get_fixed n; pure (from_be_bytes bytes)
