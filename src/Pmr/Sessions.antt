-- ===== src/Pmr/Sessions.antt =====
-- A whole session of frontend/pmr: connecting, writing whether or not the chunk has room, closing.
use pmraccess.Base.{
  ℕ, ◌+◌, ◌*◌, ◌^◌, ◌<◌, ◌≤◌, ◌≡◌, refl, sym, ◌∙◌, ap, false, Option, some, List, [], arith,
  if◌then◌else◌, Bool-cases, inl, inr, length, leb, bytes_eq, Bytes, Mem, load32-store32,
}
use pmraccess.Outcome.{Outcome, done}
use pmraccess.Wire.{Operation, client_done, u16, u32, header_size, max_async_size, max_request}
use pmraccess.Rdma.Nic.{Nic}
use pmraccess.Store.{Meta, DbOps, DbLaws, HashMapOps, HashMapLaws}
use pmraccess.Bitset.Laws.{IsValid, test}
use pmraccess.Bitset.Alloc.{Took}
use pmraccess.Pmr.State.{Server, chunk_count, new_clerk, new_client}
use pmraccess.Pmr.Client.{Session, send_alloc, send_write}
use pmraccess.Pmr.Pending.{Entry, pending}
use pmraccess.Pmr.Invariant.{Inv, Held, contents}
use pmraccess.Pmr.Writes.{IsWrite, write_record_lem}
use pmraccess.Pmr.Alloc.{Took-Elsewhere, send_alloc_step, send_alloc_lem}

-- The length of a record as `SendWrite` computes it.
abbrev pub total_length : Bytes → Bytes → ℕ
total_length key val = u16 (header_size + u16 (length key) + u16 (length val))

-- Where the test of `SendWrite` fails, the record fits the chunk.
pub has_room :
    (n m : ℕ) → leb max_async_size (u32 n) ≡ false → n ≡ m → n < 2 ^ 32 → m < max_async_size
has_room n m r e b = ground arith

module _ {S T : Type 0} (nic : Nic) (db : DbOps S) (h : HashMapOps Meta T) where
  -- `PMRClient` and `PMRClerk` are constructed, and `Connect` ends with `SendAlloc`.
  unfoldable pub connect : Mem → Mem → Server S T → Outcome (Session S T)
  connect local_buf send_buf s =
      send_alloc nic db h
        (record { client = new_client local_buf; clerk = new_clerk send_buf; server = s })

  -- On a server whose bitset is well formed and of `MAX_DMABUF_SIZE / MAX_ASYNC_SIZE` bits, whose
  -- index has only records in chunks in use, and that has a free chunk, connecting returns a
  -- session with a chunk that was free and no record pending. Its invariant holds, and nothing but
  -- the bits of the server changes.
  pub connect_lem :
      (local_buf send_buf : Mem) (s : Server S T) (free : ℕ)
      → IsValid s.bitmap
      → s.bitmap.size ≡ chunk_count
      → free < chunk_count
      → test s.bitmap free ≡ false
      → ((j : Bytes) (m : Meta) → h.find j s.map ≡ some m → Held s.bitmap j m)
      → (y : Session S T) × (slot : ℕ) × (connect local_buf send_buf s ≡ done y)
        × Inv h y [] slot
        × Took s.bitmap 0 slot y.server.bitmap
        × (y.server ≡ record s { bitmap = y.server.bitmap })
        × (y.clerk.buf_head ≡ 0)
  unfolding connect new_client new_clerk pending
  connect_lem local_buf send_buf s free v size lt clear_bit held =
      let x : Session S T = record {
        client = new_client local_buf;
        clerk = new_clerk send_buf;
        server = s;
      } in
      let (slot, b, buf, sb, took, ran, up) =
        send_alloc_step nic db h x false free (load32-store32 local_buf 0 client_done (omega arith))
          refl (λ p. (refl, refl)) v size lt clear_bit in
      let within : slot < chunk_count = omega (arith, took.within, size) in
      let offset : u32 (max_async_size * slot) ≡ max_async_size * slot = omega arith in
      (
        _,
        slot,
        ran,
        record {
          flag = up;
          same_chunk = sym offset;
          same_head = refl;
          room = omega arith;
          chunk_at = offset;
          slot_in = within;
          slot_used = took.bits slot ∙ ground arith;
          bits = took.valid;
          bits_size = took.same_size ∙ size;
          keys = refl;
          descriptors = refl;
          index = λ j e p. cc;
          apart = λ j m p q. Took-Elsewhere took (held j m q);
          stored = tt;
        },
        took,
        refl,
        refl,
      )

  module _ (laws : HashMapLaws h) (view : S → Bytes → Option Bytes)
      (store_laws : DbLaws db view) where
    -- In a session whose invariant holds, `SendPut` and `SendUpdate` of a record that fits the
    -- client's buffer return, while some chunk is free (it is taken if the present one has no
    -- room): a reader then sees the key bound to the value and every other key as before, and the
    -- invariant holds again.
    pub send_write_lem :
        (x : Session S T) (es : List Entry) (slot free : ℕ) (op : Operation) (key val : Bytes)
        → IsWrite op
        → Inv h x es slot
        → 16 + length key + length val ≤ max_request
        → free < chunk_count
        → test x.server.bitmap free ≡ false
        → (y : Session S T) × (es' : List Entry) × (slot' : ℕ) × (send_write nic db h op key val x
            ≡ done y)
          × Inv h y es' slot'
          × ((j : Bytes)
              → contents h view y.server j
                ≡ (if bytes_eq key j then some val else contents h view x.server j))
    unfolding send_write
    send_write_lem x es slot free op key val w inv fits lt clear_bit =
        elim (Bool-cases (leb max_async_size (u32 (x.client.buf_head + total_length key val)))) [
          | inl full ↦
              let (z, slot', ran, inv_z, empty, took, same, queue, left) =
                send_alloc_lem nic db h laws view store_laws x es slot free inv lt clear_bit in
              let (y, ran_write, inv_y, sees, wrote) =
                write_record_lem nic db h laws view z [] slot' op key val w inv_z fits
                  (omega (arith, empty)) in
              (
                y,
                _,
                slot',
                rw (full, ran) ran_write,
                inv_y,
                λ j.
                    sees j
                    ∙ ap (λ (o : Option Bytes). if bytes_eq key j then some val else o) (same j),
              )
          | inr room ↦
              let (y, ran_write, inv_y, sees, wrote) =
                write_record_lem nic db h laws view x es slot op key val w inv fits (
                  has_room (x.client.buf_head + total_length key val)
                    (x.clerk.buf_head + 8 + length key + length val) room
                    (omega (arith, inv.same_head)) (omega (arith, inv.room))) in
              (y, _, slot, rw room ran_write, inv_y, sees)
        ]
