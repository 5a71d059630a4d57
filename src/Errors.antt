-- ===== src/Errors.antt =====
-- crates/core/src/error.rs: the error values of the channel crate.
use Prim.Native.String.{String}
use novachannel.Common.{Result}

-- The boxed error of a signing backend is a value of code outside this repository: it is left out.
pub data Error : Type 0 where
  malformed : String → Error
  bad_signature kem identity_mismatch wrong_state decrypt replay too_large : Error
  sequence_exhausted ratchet_in_progress unknown_epoch unknown_one_time_pre_key : Error
  certificate_expired unknown_device unauthorized_device stale_device_list group_full : Error
  not_a_group_member commit_not_decryptable too_many_skipped_keys path_key_mismatch : Error
  signing_backend : Error

-- What a `&mut self` method of a type `S` does: a result, and the object afterwards.
abbrev pub Call {ℓ} : Type 0 → Type ℓ → Type ℓ
Call S A = S → Result Error A × S
