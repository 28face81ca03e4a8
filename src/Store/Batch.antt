-- ===== src/Store/Batch.antt =====
-- Descriptors of database/db.h: what the constructors of `Meta` keep.
use pmraccess.Base.{ℕ, ◌+◌, ◌^◌, ◌<◌, ◌≡◌, arith}
use pmraccess.Store.{file_meta, file_offset, data_size}

-- A descriptor built for a file keeps its offset and lengths, and `DataSize` is their sum, while
-- the offset fits 32 bits, the key length 31 bits, and the sum of the lengths 32 bits.
pub file_meta_fields :
    (index off ks vs : ℕ)
    → off < 2 ^ 32
    → ks < 2 ^ 31
    → ks + vs < 2 ^ 32
    → let m = file_meta index off ks vs in
      (file_offset m ≡ off) × (m.key_size ≡ ks) × (m.value_size ≡ vs) × (data_size m ≡ ks + vs)
unfolding file_meta data_size
file_meta_fields index off ks vs ho hk hs = omega arith
