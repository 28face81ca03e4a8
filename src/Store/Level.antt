-- ===== src/Store/Level.antt =====
-- class `LevelDB` of database/db.h over the API of leveldb, and what it promises.
use pmraccess.Base.{
  ℕ, ◌+◌, ◌≡◌, refl, Bool, true, false, Option, none, some, List, [], ◌∷◌, if◌then◌else◌, bytes_eq,
  Bytes, Mem, load, arith,
}
use pmraccess.Store.{
  Meta, file_offset, GetResult, found, missing, DbOps, DbLaws, batch_entry, batch_value, override,
}

-- One entry of a `leveldb::WriteBatch`.
pub data BatchOp : Type 0 where
  put : Bytes → Bytes → BatchOp
  delete : Bytes → BatchOp

-- `leveldb::DB` over the states `S` of a database: `Write` answers `s.ok()`, `Get` the value if
-- `s.ok()`.
pub record LevelOps (S : Type 0) : Type 0 where
  pub write : List BatchOp → S → Bool × S
  pub get : Bytes → S → Option Bytes

-- The effect of one entry on the value of a key, and of a batch, applied in order.
abbrev pub apply_op : BatchOp → Bytes → Option Bytes → Option Bytes
apply_op (put k v) j old = if bytes_eq k j then some v else old
apply_op (delete k) j old = if bytes_eq k j then none else old

unfoldable pub apply_batch : List BatchOp → Bytes → Option Bytes → Option Bytes
apply_batch [] j old = old
apply_batch (op ∷ ops) j old = apply_batch ops j (apply_op op j old)

-- Documented behaviour: a write that returns ok is applied whole, one that does not is not applied.
pub record LevelLaws {S : Type 0} (l : LevelOps S) : Type 0 where
  pub write_ok :
      (b : List BatchOp) (s : S) (j : Bytes)
      → (l.write b s).0 ≡ true
      → l.get j (l.write b s).1 ≡ apply_batch b j (l.get j s)
  pub write_failed :
      (b : List BatchOp) (s : S) (j : Bytes)
      → (l.write b s).0 ≡ false
      → l.get j (l.write b s).1 ≡ l.get j s

module _ {S : Type 0} (l : LevelOps S) where
  unfoldable pub level_put : Bytes → Bytes → S → Bool × S
  level_put key val s = l.write (put key val ∷ []) s

  unfoldable pub level_get : Bytes → S → GetResult
  level_get key s = elim (l.get key s) [ some v ↦ found v | none ↦ missing ]

  unfoldable pub level_update : Bytes → Bytes → S → Bool × S
  level_update key val s = l.write (put key val ∷ []) s

  unfoldable pub level_delete : Bytes → S → Bool × S
  level_delete key s = l.write (delete key ∷ []) s

  -- The loop of `PutBatch` fills the `WriteBatch`.
  unfoldable pub level_batch : List Bytes → List Meta → Mem → List BatchOp
  level_batch [] metas buf = []
  level_batch (key ∷ keys) [] buf = []
  level_batch (key ∷ keys) (m ∷ metas) buf =
      put key (load buf (file_offset m + m.key_size) m.value_size) ∷ level_batch keys metas buf

  -- The status of the write is not looked at.
  unfoldable pub level_put_batch : List Bytes → List Meta → Mem → ℕ → S → Bool × S
  unfolding level_batch
  level_put_batch key_batch metas buf length s =
      (true, (l.write (level_batch key_batch metas buf) s).1)

  abbrev pub level_db : DbOps S
  level_db = record {
    put = level_put;
    get = level_get;
    update = level_update;
    delete = level_delete;
    put_batch = level_put_batch;
  }

  apply_level_batch :
      (ks : List Bytes) (ms : List Meta) (buf : Mem) (j : Bytes) (old : Option Bytes)
      → apply_batch (level_batch ks ms buf) j old ≡ override (batch_value ks ms buf j) old
  unfolding level_batch batch_value apply_batch
  apply_level_batch [] ms buf j old = refl
  apply_level_batch (k ∷ ks) [] buf j old = refl
  apply_level_batch (k ∷ ks) (m ∷ ms) buf j old =
      ground (arith, apply_level_batch ks ms buf j (apply_op (put k (batch_entry m buf)) j old))

  module _ (laws : LevelLaws l) where
    -- While no write of leveldb fails, `LevelDB` is a `DBType` as the front ends need it: puts and
    -- batches bind, the last entry of a batch winning, deletes unbind, a bound key is found, and
    -- `Put` and `Delete` return true.
    pub LevelDb-DbLaws :
        ((b : List BatchOp) (s : S) → (l.write b s).0 ≡ true) → DbLaws level_db (λ s k. l.get k s)
    unfolding level_put level_get level_delete level_put_batch apply_batch
    LevelDb-DbLaws ok = record {
      put_lem = λ k v s j. laws.write_ok (put k v ∷ []) s j (ok (put k v ∷ []) s);
      put_ok = λ k v s. ok (put k v ∷ []) s;
      get_lem = λ k v s e. ground arith;
      delete_lem = λ k s j. laws.write_ok (delete k ∷ []) s j (ok (delete k ∷ []) s);
      delete_ok = λ k s. ok (delete k ∷ []) s;
      put_batch_lem = λ ks ms buf n s j. rw (
        laws.write_ok (level_batch ks ms buf) s j (ok (level_batch ks ms buf) s),
        apply_level_batch ks ms buf j (l.get j s),
      );
    }

    -- `PutBatch` of `LevelDB` reports success also where leveldb refused the batch, and then no key
    -- has changed.
    pub level_put_batch_silent :
        (ks : List Bytes) (ms : List Meta) (buf : Mem) (n : ℕ) (s : S)
        → (l.write (level_batch ks ms buf) s).0 ≡ false
        → ((level_put_batch ks ms buf n s).0 ≡ true)
          × ((j : Bytes) → l.get j (level_put_batch ks ms buf n s).1 ≡ l.get j s)
    unfolding level_put_batch
    level_put_batch_silent ks ms buf n s refused =
        (refl, λ j. laws.write_failed (level_batch ks ms buf) s j refused)
