-- ===== src/Pmr/Alloc.antt =====
-- `SendAlloc` of frontend/pmr/pmr.cc: the clerk hands its batch to the store, queues the chunk for
-- the log and takes another.
use pmraccess.Base.{
  ℕ, ◌*◌, ◌<◌, ◌≡◌, refl, sym, ◌∙◌, ap, Bool, true, false, Option, some, List, [], ◌∷◌, ◌++◌, arith,
  ltb, lt→ltb, Bytes, Mem, le32, load32, load32_of_bytes,
}
use pmraccess.Outcome.{done}
use pmraccess.Wire.{alloc, ok, client_done, u16, u32, max_async_size, fill_bare, put_reply}
use pmraccess.Wire.Transfer.{fill_bare-Arrived, fill_bare_header}
use pmraccess.Rdma.Nic.{Nic}
use pmraccess.Store.{Meta, DbOps, DbLaws, HashMapOps, HashMapLaws}
use pmraccess.Bitset.{AtomicBitset, blindset}
use pmraccess.Bitset.Laws.{IsValid, test}
use pmraccess.Bitset.Alloc.{Took, blindset_returns}
use pmraccess.Pmr.State.{Item, Server, Clerk, no_chunk, chunk_count}
use pmraccess.Pmr.Clerk.{dispatch, handle_alloc, flush, copy_chunk, reply_with}
use pmraccess.Pmr.Client.{Session, post_request, send_alloc}
use pmraccess.Pmr.Pending.{Entry, pending}
use pmraccess.Pmr.Flush.{contents-flush, found-flush}
use pmraccess.Pmr.Exchange.{HasRequest, started, post_request-HasRequest, exchange}
use pmraccess.Pmr.Invariant.{Inv, Held, contents, Elsewhere}

module _ {S T : Type 0} (nic : Nic) (db : DbOps S) (h : HashMapOps Meta T) where
  -- The clerk with a new, empty chunk, and the server whose bits are `b`.
  abbrev pub fresh_clerk : ℕ → Clerk → Clerk
  fresh_clerk slot c = record c {
    key_batch = [];
    metas = [];
    chunk_offset = u32 (max_async_size * slot);
    buf_head = 0;
  }

  abbrev flushed : Clerk → Server S T → AtomicBitset → Server S T
  flushed c s b = record (flush db h c.buf_head c s) { bitmap = b }

  -- A clerk that has a chunk flushes it; without one (when the client connects) there is nothing.
  abbrev pub left_by : Bool → Clerk → Server S T → AtomicBitset → Server S T
  left_by true c s b = flushed c s b
  left_by false c s b = record s { bitmap = b }

  -- The flush does not look at the message buffer.
  left_by-send_buf :
      (had : Bool) (c : Clerk) (sb : Mem) (s : Server S T) (b : AtomicBitset)
      → left_by had (record c { send_buf = sb }) s b ≡ left_by had c s b
  unfolding flush
  left_by-send_buf true c sb s b = refl
  left_by-send_buf false c sb s b = refl

  dispatch_alloc :
      (c : Clerk) (s : Server S T) (had : Bool) (slot : ℕ) (b : AtomicBitset)
      → ltb c.chunk_offset no_chunk ≡ had
      → (had ≡ false → (c.key_batch ≡ []) × (c.metas ≡ []))
      → blindset s.bitmap ≡ done (slot, b)
      → dispatch db h (some alloc) c s
        ≡ reply_with db h ok
            (le32 (u32 (max_async_size * slot)))
            (fresh_clerk slot c)
            (left_by had c s b)
  unfolding dispatch
  dispatch_alloc c s true slot b e k ran = rw (handle_alloc, e, ran)
  dispatch_alloc c s false slot b e k ran =
      let (no_keys, no_metas) = k refl in rw (handle_alloc, e, ran, no_keys, no_metas)

  asked_alloc : Session S T → Session S T
  asked_alloc x = post_request nic db h (fill_bare x.client.local_buf alloc) (u16 8) x

  asked_alloc-HasRequest :
      (x : Session S T)
      → load32 x.client.local_buf 0 ≡ client_done
      → HasRequest (asked_alloc x).clerk alloc [] 0
  unfolding asked_alloc
  asked_alloc-HasRequest x f =
      post_request-HasRequest nic db h x (fill_bare x.client.local_buf alloc) (u16 8) alloc [] 0
        (fill_bare_header x.client.local_buf alloc ∙ f) (fill_bare-Arrived x.client.local_buf alloc)
        (omega arith)

  -- The exchange of `SendAlloc`, whatever the clerk held before: the client and the clerk agree on
  -- the new chunk, whose bit was clear and is set.
  pub send_alloc_step :
      (x : Session S T) (had : Bool) (free : ℕ)
      → load32 x.client.local_buf 0 ≡ client_done
      → ltb x.clerk.chunk_offset no_chunk ≡ had
      → (had ≡ false → (x.clerk.key_batch ≡ []) × (x.clerk.metas ≡ []))
      → IsValid x.server.bitmap
      → x.server.bitmap.size ≡ chunk_count
      → free < chunk_count
      → test x.server.bitmap free ≡ false
      → (slot : ℕ) × (b : AtomicBitset) × (buf : Mem) × (sb : Mem) × Took x.server.bitmap 0 slot b
        × (send_alloc nic db h x
            ≡ done (record {
              client = record {
                local_buf = buf;
                buf_head = 0;
                chunk_offset = max_async_size * slot;
              };
              clerk = record (fresh_clerk slot (x.clerk)) { send_buf = sb };
              server = left_by had (x.clerk) (x.server) b;
            }))
        × (load32 buf 0 ≡ client_done)
  unfolding send_alloc asked_alloc post_request flush
  send_alloc_step x had free f e k v size lt clear_bit =
      let (slot, b, ran, took) =
        blindset_returns (x.server.bitmap) free v (omega (arith, size)) clear_bit in
      let c : Clerk = started (asked_alloc x).clerk in
      let s' : Server S T = left_by had c (x.server) b in
      let offset : u32 (max_async_size * slot) ≡ max_async_size * slot =
        omega (arith, took.within, size) in
      let (buf, waited, up, ans) =
        exchange nic db h (asked_alloc x) alloc [] 0 ok (le32 (u32 (max_async_size * slot)))
          (record (fresh_clerk slot c) {
            send_buf = put_reply (c.send_buf) 8 ok (le32 (u32 (max_async_size * slot)));
          })
          s' (asked_alloc-HasRequest x f) (dispatch_alloc c (x.server) had slot b e k ran) refl
          (omega arith) in
      let word : load32 buf 16 ≡ max_async_size * slot =
        load32_of_bytes buf 16 (u32 (max_async_size * slot)) (omega arith) ans.value_bytes
        ∙ offset in
      (
        slot,
        b,
        buf,
        put_reply (c.send_buf) 8 ok (le32 (u32 (max_async_size * slot))),
        took,
        rw (
          waited,
          ans.status_field,
          word,
          left_by-send_buf had (x.clerk) (c.send_buf) (x.server) b,
        ),
        up,
      )

-- What lies in a chunk in use lies in none that was free.
pub Took-Elsewhere :
    {b b' : AtomicBitset} {slot : ℕ} {j : Bytes} {m : Meta}
    → Took b 0 slot b'
    → Held b j m
    → Elsewhere b' slot j m
Took-Elsewhere {b} {b'} {slot} {j} {m} t w = (
  record {
    place = w.place;
    used = t.bits w.place ∙ ground (arith, w.used);
    from = w.from;
    to = w.to;
  },
  λ same. true_false (sym w.used ∙ ap (test b) same ∙ t.was_free),
)
  where
    true_false : true ≡ false → ⊥
    true_false p = cc

module _ {S T : Type 0} (nic : Nic) (db : DbOps S) (h : HashMapOps Meta T) (laws : HashMapLaws h)
    (view : S → Bytes → Option Bytes) (store_laws : DbLaws db view) where
  -- The element that a flush appends to `global_queue`.
  abbrev pub queued : Session S T → ℕ → Item
  queued x slot = record {
    buf = copy_chunk x.server.region x.clerk.chunk_offset;
    size = x.clerk.buf_head;
    chunk = slot;
  }

  -- In a session whose invariant holds, and with a free chunk, `SendAlloc` returns. The session has
  -- a chunk that was free, empty, and no record is pending; every key has the value for a reader
  -- that it had; and the old chunk stands in the queue with the records that it held.
  pub send_alloc_lem :
      (x : Session S T) (es : List Entry) (slot free : ℕ)
      → Inv h x es slot
      → free < chunk_count
      → test x.server.bitmap free ≡ false
      → (y : Session S T) × (new_slot : ℕ) × (send_alloc nic db h x ≡ done y)
        × Inv h y [] new_slot
        × (y.clerk.buf_head ≡ 0)
        × Took x.server.bitmap 0 new_slot y.server.bitmap
        × ((j : Bytes) → contents h view y.server j ≡ contents h view x.server j)
        × (y.server.queue ≡ x.server.queue ++ queued x slot ∷ [])
        × (y.server
            ≡ record (flush db h x.clerk.buf_head x.clerk x.server) { bitmap = y.server.bitmap })
  unfolding flush
  send_alloc_lem x es slot free inv lt clear_bit =
      let (new_slot, b, buf, sb, took, ran, up) =
        send_alloc_step nic db h x true free inv.flag
          (lt→ltb (x.clerk.chunk_offset) no_chunk (omega (arith, inv.chunk_at, inv.slot_in)))
          (λ p. cc) inv.bits inv.bits_size lt clear_bit in
      let y : Session S T = record {
        client = record { local_buf = buf; buf_head = 0; chunk_offset = max_async_size * new_slot };
        clerk = record (fresh_clerk nic db h new_slot (x.clerk)) { send_buf = sb };
        server = left_by nic db h true (x.clerk) (x.server) b;
      } in
      let within : new_slot < chunk_count = omega (arith, took.within, inv.bits_size) in
      let offset : u32 (max_async_size * new_slot) ≡ max_async_size * new_slot = omega arith in
      (
        y,
        new_slot,
        ran,
        record {
          flag = up;
          same_chunk = sym offset;
          same_head = refl;
          room = omega arith;
          chunk_at = offset;
          slot_in = within;
          slot_used = took.bits new_slot ∙ ground arith;
          bits = took.valid;
          bits_size = took.same_size ∙ inv.bits_size;
          keys = refl;
          descriptors = refl;
          index = λ j e p. unfold pending in cc;
          apart = λ j m p q.
              let (mine, was) =
                found-flush db h laws view store_laws x.clerk x.server es x.clerk.buf_head j m
                  inv.keys q in
              Took-Elsewhere took (inv.apart j m mine was).0;
          stored = tt;
        },
        refl,
        took,
        λ j. contents-flush db h laws view store_laws x es slot x.clerk.buf_head j inv,
        ap
            (λ (n : ℕ).
              x.server.queue
              ++ record {
                buf = copy_chunk x.server.region x.clerk.chunk_offset;
                size = x.clerk.buf_head;
                chunk = n;
              }
                ∷ [])
            (omega (arith, inv.chunk_at)),
        refl,
      )
