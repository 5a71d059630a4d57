-- ===== src/Oram/Verified/Store.antt =====
-- crates/oram/src/lib.rs: `IntegrityCheckedServer` keeps the contract of a bucket store.
use novachannel.Common.{◌≡◌, refl, length}
use novachannel.Oram.Storage.{IsStore, in_memory-IsStore, size-in_memory}
use novachannel.Oram.Verified.{IntegrityCheckedServer, integrity_checked}

pub integrity_checked-IsStore : {V : Type 0} → IsStore (integrity_checked {V = V}).base
unfolding integrity_checked
integrity_checked-IsStore = record {
  bucket = λ s. in_memory-IsStore.bucket s.inner;
  size = λ s. in_memory-IsStore.size s.inner;
  reads = λ n s h.
      let (inner, run, same, cap, view) = in_memory-IsStore.reads n s.inner h in
      (record s { inner = inner }, rw run refl, same, cap, view);
  writes = λ n blocks s h.
      let (inner, run, same, cap, view) = in_memory-IsStore.writes n blocks s.inner h in
      (record s { inner = inner }, rw run refl, same, cap, view);
}

pub size-integrity_checked :
    {V : Type 0} (s : IntegrityCheckedServer V)
    → integrity_checked-IsStore.size s ≡ length s.inner.buckets
unfolding integrity_checked-IsStore
size-integrity_checked s = size-in_memory s.inner
