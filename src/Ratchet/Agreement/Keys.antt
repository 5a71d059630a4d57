-- ===== src/Ratchet/Agreement/Keys.antt =====
-- crates/core/src/ratchet.rs: the payload of a step is read back, and both sides derive the same keys.
use Prim.Native.String.{String}
use mathlib.Core.List.{append_assoc, append-nil}
use novachannel.Common.{
  ◌+◌, ◌^◌, ◌<◌, ◌≡◌, refl, ap, sym, ◌∙◌, true, false, [], ◌++◌, Result, ok, ◌==◌, arith, length,
  Bytes, length-append,
}
use novachannel.Errors.{Error}
use novachannel.Crypto.{Aead, Kdf, IsKdf, Exchange}
use novachannel.Wire.{
  new_reader, get_fixed, get_var, finished, new_writer, put_fixed, put_var, into_bytes, to_be_bytes,
  length-to_be_bytes,
}
use novachannel.Wire.Fields.{get_fixed_at, get_var_at}
use novachannel.Kex.{x25519_public_from_bytes}
use novachannel.Ratchet.{label_step_root, label_step_i2r, label_step_r2i}
use novachannel.Ratchet.Session.{EpochKeys, read_keys, write_keys, derive_next_epoch}

-- What `write_keys` wrote is read back, if the reader accepts the ML-KEM half.
pub read_keys-write_keys :
    (from_bytes : Bytes → Result Error Bytes) (trailing : String) (public ml_kem : Bytes)
    → length public ≡ 32
    → length ml_kem < 2 ^ 64
    → from_bytes ml_kem ≡ ok ml_kem
    → (read_keys from_bytes trailing (new_reader (write_keys public ml_kem))).0
      ≡ ok (public, ml_kem)
unfolding read_keys write_keys new_reader x25519_public_from_bytes finished new_writer put_fixed
    put_var into_bytes
read_keys-write_keys from_bytes trailing public ml_kem p_len m_len accepted =
    rw (first, x25519_ok, second, accepted, at_end) refl
  where
    len_bytes : Bytes
    len_bytes = to_be_bytes 8 (length ml_kem)

    whole : Bytes
    whole = (public ++ len_bytes) ++ ml_kem

    parts : whole ≡ public ++ (len_bytes ++ ml_kem)
    parts = append_assoc public len_bytes ml_kem

    first :
        get_fixed 32 (record { buf = whole; pos = 0 })
        ≡ (ok public, record { buf = whole; pos = 0 + length public })
    first =
        ap (λ n. get_fixed n (record { buf = whole; pos = 0 })) (sym p_len)
        ∙ get_fixed_at (record { buf = whole; pos = 0 }) [] public (len_bytes ++ ml_kem) parts refl

    x25519_ok : (length public == 32) ≡ true
    x25519_ok = ground arith

    second :
        get_var (record { buf = whole; pos = 0 + length public })
        ≡ (ok ml_kem, record { buf = whole; pos = 0 + length public + 8 + length ml_kem })
    second =
        get_var_at (record { buf = whole; pos = 0 + length public }) public ml_kem [] m_len
          (parts ∙ ap (λ t. public ++ (len_bytes ++ t)) (sym (append-nil ml_kem))) (omega arith)

    at_end : (0 + length public + 8 + length ml_kem == length whole) ≡ true
    at_end = ground (
      arith,
      length-append (public ++ len_bytes) ml_kem,
      length-append public len_bytes,
      length-to_be_bytes 8 (length ml_kem),
    )

-- The keys of the other side: the two directions swapped.
abbrev pub other_side : EpochKeys → EpochKeys
other_side keys = record {
  new_root = keys.new_root;
  new_send = keys.new_recv;
  new_recv = keys.new_send;
}

module _ {kdf : Kdf} (law : IsKdf kdf) (aead : Aead) (x : Exchange) where
  pub derive_next_epoch-other_side :
      (root_key shared_secret : Bytes)
      → (keys : EpochKeys) × (derive_next_epoch aead kdf x root_key shared_secret true ≡ ok keys)
        × (derive_next_epoch aead kdf x root_key shared_secret false ≡ ok (other_side keys))
  unfolding derive_next_epoch
  derive_next_epoch-other_side root_key shared_secret =
      let (hk, e0) = law.accepts root_key shared_secret in
      let (new_root, e1, _) = law.expands hk label_step_root 32 (omega arith) in
      let (i2r, e2, _) = law.expands hk label_step_i2r 32 (omega arith) in
      let (r2i, e3, _) = law.expands hk label_step_r2i 32 (omega arith) in
      (
        record { new_root = new_root; new_send = i2r; new_recv = r2i },
        rw (e0, e1, e2, e3) refl,
        rw (e0, e1, e2, e3) refl,
      )
