-- ===== src/Store/Cuckoo.antt =====
-- class `CuckooDB` of database/db.h over the hash map of libcuckoo, and what it promises.
use pmraccess.Base.{ℕ, ◌≡◌, refl, Bool, true, none, some, List, [], ◌∷◌, Bytes, Mem, arith}
use pmraccess.Store.{
  Meta, GetResult, found, missing, thrown, DbOps, DbLaws, HashMapOps, HashMapLaws, batch_entry,
  batch_value, override,
}

module _ {T : Type 0} (h : HashMapOps Bytes T) where
  unfoldable pub cuckoo_put : Bytes → Bytes → T → Bool × T
  cuckoo_put key val t = (true, h.insert_or_assign key val t)

  -- `*val = db_->find(key); return true;`: `find` throws where the key is absent.
  unfoldable pub cuckoo_get : Bytes → T → GetResult
  cuckoo_get key t = elim (h.find key t) [ some v ↦ found v | none ↦ thrown ]

  unfoldable pub cuckoo_update : Bytes → Bytes → T → Bool × T
  cuckoo_update key val t = (true, h.insert_or_assign key val t)

  unfoldable pub cuckoo_delete : Bytes → T → Bool × T
  cuckoo_delete key t = (true, h.erase key t)

  -- The loop of `PutBatch`; the callers give as many descriptors as keys.
  unfoldable pub cuckoo_batch_loop : List Bytes → List Meta → Mem → T → T
  cuckoo_batch_loop [] metas buf t = t
  cuckoo_batch_loop (key ∷ keys) [] buf t = t
  cuckoo_batch_loop (key ∷ keys) (m ∷ metas) buf t =
      cuckoo_batch_loop keys metas buf (h.insert_or_assign key (batch_entry m buf) t)

  unfoldable pub cuckoo_put_batch : List Bytes → List Meta → Mem → ℕ → T → Bool × T
  unfolding cuckoo_batch_loop
  cuckoo_put_batch key_batch metas buf length t = (true, cuckoo_batch_loop key_batch metas buf t)

  abbrev pub cuckoo_db : DbOps T
  cuckoo_db = record {
    put = cuckoo_put;
    get = cuckoo_get;
    update = cuckoo_update;
    delete = cuckoo_delete;
    put_batch = cuckoo_put_batch;
  }

  module _ (laws : HashMapLaws h) where
    batch_loop_lem :
        (ks : List Bytes) (ms : List Meta) (buf : Mem) (t : T) (j : Bytes)
        → h.find j (cuckoo_batch_loop ks ms buf t) ≡ override (batch_value ks ms buf j) (h.find j t)
    unfolding cuckoo_batch_loop batch_value
    batch_loop_lem [] ms buf t j = refl
    batch_loop_lem (k ∷ ks) [] buf t j = refl
    batch_loop_lem (k ∷ ks) (m ∷ ms) buf t j = ground (
      arith,
      batch_loop_lem ks ms buf (h.insert_or_assign k (batch_entry m buf) t) j,
      laws.find_insert k (batch_entry m buf) t j,
    )

    -- Over a hash map that keeps libcuckoo's laws, `CuckooDB` is a `DBType` as the front ends need
    -- it: puts and batches bind, the last entry of a batch winning, deletes unbind, a bound key is
    -- found, and `Put` and `Delete` return true.
    pub CuckooDb-DbLaws : DbLaws cuckoo_db (λ t k. h.find k t)
    unfolding cuckoo_put cuckoo_get cuckoo_delete cuckoo_put_batch
    CuckooDb-DbLaws = record {
      put_lem = λ k v s j. laws.find_insert k v s j;
      put_ok = λ k v s. refl;
      get_lem = λ k v s e. ground arith;
      delete_lem = λ k s j. laws.find_erase k s j;
      delete_ok = λ k s. refl;
      put_batch_lem = λ ks ms buf n s j. batch_loop_lem ks ms buf s j;
    }

  -- `Get` of `CuckooDB` never returns false, for any key and any table: for an absent key it
  -- throws.
  pub cuckoo_get-ne-missing : (k : Bytes) (t : T) → ¬ (cuckoo_get k t ≡ missing)
  unfolding cuckoo_get
  cuckoo_get-ne-missing k t = ground arith
