-- ===== src/Pmr/Invariant.antt =====
-- A session of frontend/pmr between two operations, among others on the same server: the client and
-- its clerk agree on the chunk and its head, the index and the batch hold the records of the chunk
-- that are pending, and what else the index holds lies in the chunks of others.
use pmraccess.Base.{
  ℕ, ◌+◌, ◌*◌, ◌<◌, ◌≤◌, ◌≡◌, sym, ap, true, Option, none, some, List, map, arith, length,
  bytes_eq→eq, Bytes, Mem, load, load32,
}
use pmraccess.Wire.{client_done, max_async_size}
use pmraccess.Store.{Meta, mem_meta, HashMapOps}
use pmraccess.Bitset.{AtomicBitset}
use pmraccess.Bitset.Laws.{IsValid, test}
use pmraccess.Pmr.State.{Server, chunk_count}
use pmraccess.Pmr.Client.{Session}
use pmraccess.Pmr.Pending.{
  Entry, batch_meta, index_meta, pending, pending_key, pending-IsStored, IsStored, AllStored,
}

-- The value that a descriptor found for `j` stands for lies in a chunk that is in use.
pub record Held (b : AtomicBitset) (j : Bytes) (m : Meta) : Type 0 where
  pub place : ℕ
  pub used : test b place ≡ true
  pub from : max_async_size * place ≤ m.addr + length j
  pub to : m.addr + length j + m.value_size ≤ max_async_size * place + max_async_size

-- In another one than `slot`.
abbrev pub Elsewhere : AtomicBitset → ℕ → Bytes → Meta → Type 0
Elsewhere b slot j m = (w : Held b j m) × ¬ (w.place ≡ slot)

-- `es` are the pending records, oldest first; `slot` is the chunk that the session writes.
pub record Inv {S T : Type 0} (h : HashMapOps Meta T) (x : Session S T) (es : List Entry) (slot : ℕ)
    : Type 0 where
  pub flag : load32 x.client.local_buf 0 ≡ client_done
  pub same_chunk : x.client.chunk_offset ≡ x.clerk.chunk_offset
  pub same_head : x.client.buf_head ≡ x.clerk.buf_head
  pub room : x.clerk.buf_head < max_async_size
  pub chunk_at : x.clerk.chunk_offset ≡ max_async_size * slot
  pub slot_in : slot < chunk_count
  pub slot_used : test x.server.bitmap slot ≡ true
  pub bits : IsValid x.server.bitmap
  pub bits_size : x.server.bitmap.size ≡ chunk_count
  pub keys : x.clerk.key_batch ≡ map (λ e. e.key) es
  pub descriptors : x.clerk.metas ≡ map batch_meta es
  pub index :
      (j : Bytes) (e : Entry)
      → pending es j ≡ some e
      → h.find j x.server.map ≡ some (index_meta x.clerk.chunk_offset e)
  pub apart :
      (j : Bytes) (m : Meta)
      → pending es j ≡ none
      → h.find j x.server.map ≡ some m
      → Elsewhere x.server.bitmap slot j m
  pub stored : AllStored x.server.region x.clerk.chunk_offset x.clerk.buf_head es

-- What a descriptor found for `j` stands for, or else the value of the store.
abbrev pub indexed_or : Mem → Bytes → Option Meta → Option Bytes → Option Bytes
indexed_or region j (some m) old = some (load region (m.addr + length j) m.value_size)
indexed_or region j none old = old

module _ {S T : Type 0} (h : HashMapOps Meta T) (view : S → Bytes → Option Bytes) where
  -- The value of a key for a reader that asks the index first, then the store.
  abbrev pub contents : Server S T → Bytes → Option Bytes
  contents s j = indexed_or s.region j (h.find j s.map) (view s.db j)

-- The same from the pending records.
abbrev pub pending_or : Option Entry → Option Bytes → Option Bytes
pending_or (some e) old = some e.val
pending_or none old = old

module _ {S T : Type 0} (h : HashMapOps Meta T) (view : S → Bytes → Option Bytes) where
  indexed :
      (x : Session S T) (es : List Entry) (slot : ℕ) (j : Bytes) (e : Entry)
      → Inv h x es slot
      → pending es j ≡ some e
      → let m = index_meta x.clerk.chunk_offset e in
        load x.server.region (m.addr + length j) m.value_size ≡ e.val
  unfolding mem_meta
  indexed x es slot j e inv p =
      let s : IsStored x.server.region x.clerk.chunk_offset x.clerk.buf_head e =
        pending-IsStored x.server.region x.clerk.chunk_offset x.clerk.buf_head es j e inv.stored
          p in
      let key : length j ≡ length e.key =
        ap length (sym (bytes_eq→eq e.key j (pending_key es j e p))) in
      let size : length e.val ≡ (index_meta x.clerk.chunk_offset e).value_size =
        omega (arith, s.inside, inv.room) in
      rw (key, ← size) (s.bytes)

  -- Under the invariant a reader sees the last pending record of a key.
  pub contents-pending :
      (x : Session S T) (es : List Entry) (slot : ℕ) (j : Bytes) (e : Entry)
      → Inv h x es slot
      → pending es j ≡ some e
      → contents h view x.server j ≡ some e.val
  contents-pending x es slot j e inv p =
      rw (inv.index j e p) (ap some (indexed x es slot j e inv p))

-- The message buffers may change, if the client's flag is up; so may the store.
pub Inv-buffers :
    {S T : Type 0} (h : HashMapOps Meta T) (x : Session S T) (es : List Entry) (slot : ℕ)
    (buf sb : Mem) (db : S)
    → Inv h x es slot
    → load32 buf 0 ≡ client_done
    → Inv h
        (record {
          client = record (x.client) { local_buf = buf };
          clerk = record (x.clerk) { send_buf = sb };
          server = record (x.server) { db = db };
        })
        es
        slot
Inv-buffers h x es slot buf sb db inv f = record {
  flag = f;
  same_chunk = inv.same_chunk;
  same_head = inv.same_head;
  room = inv.room;
  chunk_at = inv.chunk_at;
  slot_in = inv.slot_in;
  slot_used = inv.slot_used;
  bits = inv.bits;
  bits_size = inv.bits_size;
  keys = inv.keys;
  descriptors = inv.descriptors;
  index = inv.index;
  apart = inv.apart;
  stored = inv.stored;
}
