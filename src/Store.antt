-- ===== src/Store.antt =====
-- database/db.h: the value descriptor `Meta`, the interface `DBType` with what a front end relies
-- on, and the interface of libcuckoo's hash map, which stands outside this model.
pub mod Cuckoo
pub mod Level
pub mod Batch
use pmraccess.Base.{
  ℕ, ◌+◌, ◌*◌, ◌%◌, ◌/◌, ◌^◌, ◌≡◌, Bool, true, false, Option, none, some, List, [], ◌∷◌,
  if◌then◌else◌, bytes_eq, Bytes, Mem, load,
}
use pmraccess.Wire.{u32}

-- `struct Meta`. `addr` is the 64-bit union: a pointer, or `file_offset` in the low and
-- `file_index` in the high half.
pub record Meta : Type 0 where
  pub addr : ℕ
  pub flag : ℕ
  pub key_size : ℕ
  pub value_size : ℕ

-- `Meta(file_index, file_offset, key_size, value_size)`; `key_size_` has 31 bits.
unfoldable pub file_meta : ℕ → ℕ → ℕ → ℕ → Meta
file_meta file_index file_offset key_size value_size = record {
  addr = u32 file_offset + 2 ^ 32 * u32 file_index;
  flag = 1;
  key_size = key_size % 2 ^ 31;
  value_size = u32 value_size;
}

-- `Meta(mem, key_size, value_size)`
unfoldable pub mem_meta : ℕ → ℕ → ℕ → Meta
mem_meta mem key_size value_size = record {
  addr = mem;
  flag = 0;
  key_size = key_size % 2 ^ 31;
  value_size = u32 value_size;
}

-- `fileaddr_.file_offset`
abbrev pub file_offset : Meta → ℕ
file_offset m = m.addr % 2 ^ 32

-- `Meta::DataSize`
unfoldable pub data_size : Meta → ℕ
data_size m = u32 (m.key_size + m.value_size)

-- What `Get` of a `DBType` does: `true` with a value, `false`, or an exception.
pub data GetResult : Type 0 where
  found : Bytes → GetResult
  missing : GetResult
  thrown : GetResult

-- The virtual functions of `DBType` over the states `S` of the store.
pub record DbOps (S : Type 0) : Type 0 where
  pub put : Bytes → Bytes → S → Bool × S
  pub get : Bytes → S → GetResult
  pub update : Bytes → Bytes → S → Bool × S
  pub delete : Bytes → S → Bool × S
  pub put_batch : List Bytes → List Meta → Mem → ℕ → S → Bool × S

-- The value that `PutBatch` takes for an entry: `buf + file_offset + key_size_`, `value_size_` long.
abbrev pub batch_entry : Meta → Mem → Bytes
batch_entry m buf = load buf (file_offset m + m.key_size) m.value_size

-- The value that a batch leaves for a key: that of its last entry with the key.
unfoldable pub batch_value : List Bytes → List Meta → Mem → Bytes → Option Bytes
batch_value [] ms buf j = none
batch_value (k ∷ ks) [] buf j = none
batch_value (k ∷ ks) (m ∷ ms) buf j = elim (batch_value ks ms buf j) [
  | some v ↦ some v
  | none ↦ if bytes_eq k j then some (batch_entry m buf) else none
]

-- A later binding wins over an earlier one.
abbrev pub override : Option Bytes → Option Bytes → Option Bytes
override (some v) old = some v
override none old = old

-- What the front ends rely on, of the map from keys to values that a store holds.
pub record DbLaws {S : Type 0} (db : DbOps S) (view : S → Bytes → Option Bytes) : Type 0 where
  pub put_lem :
      (k v : Bytes) (s : S) (j : Bytes)
      → view (db.put k v s).1 j ≡ (if bytes_eq k j then some v else view s j)
  pub put_ok : (k v : Bytes) (s : S) → (db.put k v s).0 ≡ true
  pub get_lem : (k v : Bytes) (s : S) → view s k ≡ some v → db.get k s ≡ found v
  pub delete_lem :
      (k : Bytes) (s : S) (j : Bytes)
      → view (db.delete k s).1 j ≡ (if bytes_eq k j then none else view s j)
  pub delete_ok : (k : Bytes) (s : S) → (db.delete k s).0 ≡ true
  pub put_batch_lem :
      (ks : List Bytes) (ms : List Meta) (buf : Mem) (n : ℕ) (s : S) (j : Bytes)
      → view (db.put_batch ks ms buf n s).1 j ≡ override (batch_value ks ms buf j) (view s j)

-- `libcuckoo::cuckoohash_map<std::string, V>` over the states `T` of a table. `find` answers
-- `none` where the one form returns false and the other throws `std::out_of_range`.
pub record HashMapOps (V T : Type 0) : Type 0 where
  pub empty : T
  pub insert_or_assign : Bytes → V → T → T
  pub find : Bytes → T → Option V
  pub erase : Bytes → T → T

-- Its documented behaviour.
pub record HashMapLaws {V T : Type 0} (h : HashMapOps V T) : Type 0 where
  pub find_empty : (j : Bytes) → h.find j h.empty ≡ none
  pub find_insert :
      (k : Bytes) (v : V) (t : T) (j : Bytes)
      → h.find j (h.insert_or_assign k v t) ≡ (if bytes_eq k j then some v else h.find j t)
  pub find_erase :
      (k : Bytes) (t : T) (j : Bytes)
      → h.find j (h.erase k t) ≡ (if bytes_eq k j then none else h.find j t)
