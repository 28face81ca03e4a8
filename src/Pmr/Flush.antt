-- ===== src/Pmr/Flush.antt =====
-- What the flush of ALLOC and CLOSE of frontend/pmr/pmr.cc leaves of the index and the store.
use pmraccess.Base.{
  ℕ, ◌≤◌, ◌≡◌, refl, sym, ◌∙◌, ap, Bool, true, false, Option, none, some, List, [], ◌∷◌, map, arith,
  if◌then◌else◌, inl, inr, Option-cases, bytes_eq, Bytes,
}
use pmraccess.Wire.{max_async_size}
use pmraccess.Store.{Meta, DbOps, DbLaws, HashMapOps, HashMapLaws, override}
use pmraccess.Pmr.State.{Server, Clerk}
use pmraccess.Pmr.Clerk.{flush, erase_all, copy_chunk}
use pmraccess.Pmr.Client.{Session}
use pmraccess.Pmr.Pending.{Entry, batch_meta, pending, batch_value-pending, AllStored}
use pmraccess.Pmr.Invariant.{Inv, contents, contents-pending, indexed_or, pending_or}

-- What stands in the index for a key, unless a record of the batch has the key.
abbrev pub unless_pending : Option Entry → Option Meta → Option Meta
unless_pending (some e) o = none
unless_pending none o = o

module _ {S T : Type 0} (db : DbOps S) (h : HashMapOps Meta T) (laws : HashMapLaws h) where
  -- Erasing the keys of a batch leaves the rest of the index.
  pub find-erase_all :
      (es : List Entry) (t : T) (j : Bytes)
      → h.find j (erase_all db h (map (λ e. e.key) es) t)
        ≡ unless_pending (pending es j) (h.find j t)
  unfolding erase_all pending
  find-erase_all [] t j = refl
  find-erase_all (x ∷ es) t j =
      find-erase_all es (h.erase x.key t) j
      ∙ erased (bytes_eq x.key j) (pending es j) (laws.find_erase x.key t j)
    where
      erased :
          (b : Bool) (o : Option Entry) {r : Option Meta}
          → r ≡ (if b then none else h.find j t)
          → unless_pending o r
            ≡ unless_pending
                (elim o [ some l ↦ some l | none ↦ if b then some x else none ])
                (h.find j t)
      erased b (some e) q = refl
      erased true none q = q
      erased false none q = q

-- What a reader sees after a flush: the store with the values of the batch.
override-pending :
    (o : Option Entry) (old : Option Bytes)
    → override (elim o [ some e ↦ some e.val | none ↦ none ]) old ≡ pending_or o old
override-pending none old = refl
override-pending (some e) old = refl

module _ {S T : Type 0} (db : DbOps S) (h : HashMapOps Meta T) (laws : HashMapLaws h)
    (view : S → Bytes → Option Bytes) (store_laws : DbLaws db view) where
  -- The index after a flush.
  pub find-flush :
      (c : Clerk) (s : Server S T) (es : List Entry) (n : ℕ) (j : Bytes)
      → c.key_batch ≡ map (λ e. e.key) es
      → h.find j (flush db h n c s).map ≡ unless_pending (pending es j) (h.find j s.map)
  unfolding flush
  find-flush c s es n j keys = rw keys (find-erase_all db h laws es (s.map) j)

  -- The store after a flush.
  pub view-flush :
      (c : Clerk) (s : Server S T) (es : List Entry) (n : ℕ) (j : Bytes)
      → c.key_batch ≡ map (λ e. e.key) es
      → c.metas ≡ map batch_meta es
      → c.buf_head ≤ max_async_size
      → AllStored s.region c.chunk_offset c.buf_head es
      → view (flush db h n c s).db j ≡ pending_or (pending es j) (view s.db j)
  unfolding flush
  view-flush c s es n j keys metas le stored =
      rw (keys, metas)
        (store_laws.put_batch_lem (map (λ e. e.key) es) (map batch_meta es)
            (copy_chunk (s.region) (c.chunk_offset)) n (s.db) j
          ∙ ap (λ o. override o (view s.db j))
              (batch_value-pending (s.region) (c.chunk_offset) (c.buf_head) es j le stored)
          ∙ override-pending (pending es j) (view s.db j))

  -- After a flush of a clerk whose batch describes the records stored in its chunk, a reader sees
  -- under a key of the batch the value of the clerk's own last record of it, whatever the index
  -- had under the key before: also where another clerk has put a newer record since.
  pub contents-flush_own :
      (c : Clerk) (s : Server S T) (es : List Entry) (n : ℕ) (j : Bytes) (e : Entry)
      → c.key_batch ≡ map (λ e'. e'.key) es
      → c.metas ≡ map batch_meta es
      → c.buf_head ≤ max_async_size
      → AllStored s.region c.chunk_offset c.buf_head es
      → pending es j ≡ some e
      → contents h view (flush db h n c s) j ≡ some e.val
  contents-flush_own c s es n j e keys metas le stored p =
      ap (λ o. indexed_or (flush db h n c s).region j o (view (flush db h n c s).db j))
        (find-flush c s es n j keys ∙ ap (λ o. unless_pending o (h.find j s.map)) p)
      ∙ view-flush c s es n j keys metas le stored
      ∙ ap (λ o. pending_or o (view s.db j)) p

  contents-flush_other :
      (c : Clerk) (s : Server S T) (es : List Entry) (n : ℕ) (j : Bytes)
      → c.key_batch ≡ map (λ e'. e'.key) es
      → c.metas ≡ map batch_meta es
      → c.buf_head ≤ max_async_size
      → AllStored s.region c.chunk_offset c.buf_head es
      → pending es j ≡ none
      → contents h view (flush db h n c s) j ≡ contents h view s j
  unfolding flush
  contents-flush_other c s es n j keys metas le stored p =
      ap (λ o. indexed_or s.region j o (view (flush db h n c s).db j))
        (find-flush c s es n j keys ∙ ap (λ o. unless_pending o (h.find j s.map)) p)
      ∙ ap (indexed_or s.region j (h.find j s.map))
          (view-flush c s es n j keys metas le stored ∙ ap (λ o. pending_or o (view s.db j)) p)

  -- Under the invariant every key has the value for a reader that it had.
  pub contents-flush :
      (x : Session S T) (es : List Entry) (slot n : ℕ) (j : Bytes)
      → Inv h x es slot
      → contents h view (flush db h n x.clerk x.server) j ≡ contents h view x.server j
  contents-flush x es slot n j inv =
      let le : x.clerk.buf_head ≤ max_async_size = omega (arith, inv.room) in
      elim (Option-cases (pending es j)) [
        | inl p ↦
            contents-flush_other x.clerk x.server es n j inv.keys inv.descriptors le inv.stored p
        | inr (e, p) ↦
            contents-flush_own x.clerk x.server es n j e inv.keys inv.descriptors le inv.stored p
            ∙ sym (contents-pending h view x es slot j e inv p)
      ]

  -- What the index has after a flush, it had before for a key that is not of the batch.
  pub found-flush :
      (c : Clerk) (s : Server S T) (es : List Entry) (n : ℕ) (j : Bytes) (m : Meta)
      → c.key_batch ≡ map (λ e. e.key) es
      → h.find j (flush db h n c s).map ≡ some m
      → (pending es j ≡ none) × (h.find j s.map ≡ some m)
  found-flush c s es n j m keys e = was (pending es j) refl (sym (find-flush c s es n j keys) ∙ e)
    where
      was :
          (o : Option Entry)
          → pending es j ≡ o
          → unless_pending o (h.find j s.map) ≡ some m
          → (pending es j ≡ none) × (h.find j s.map ≡ some m)
      was none p q = (p, q)
      was (some e') p q = cc
