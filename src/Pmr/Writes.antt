-- ===== src/Pmr/Writes.antt =====
-- `SendWrite` of frontend/pmr/pmr.cc while the chunk has room, from the client's call to its return.
use mathlib.Core.List.{map-append}
use pmraccess.Base.{
  ℕ, ◌+◌, ◌<◌, ◌≤◌, ◌≡◌, refl, sym, ◌∙◌, ap, Bool, true, false, Option, some, List, [], ◌∷◌, ◌++◌,
  arith, if◌then◌else◌, ◌⊎◌, length, bytes_eq, Bytes, Mem, store, load, load32, store_below,
  store_above, length-load, inl, inr, ◌*◌, none,
}
use pmraccess.Outcome.{done}
use pmraccess.Wire.{
  Operation, put, update, ok, client_done, u16, u32, max_async_size, max_request, put_write,
  put_reply,
}
use pmraccess.Wire.Transfer.{Arrived, put_write-Arrived, fill_write-done, put_write_header}
use pmraccess.Rdma.Nic.{Nic}
use pmraccess.Store.{Meta, file_meta, mem_meta, DbOps, HashMapOps, HashMapLaws}
use pmraccess.Pmr.State.{Server, Clerk}
use pmraccess.Pmr.Clerk.{replied, dispatch, handle_put}
use pmraccess.Pmr.Client.{Session, post_request, write_record}
use pmraccess.Pmr.Pending.{Entry, batch_meta, index_meta, pending, pending_append}
use pmraccess.Pmr.Exchange.{HasRequest, started, started-Arrived, post_request-HasRequest, exchange}
use pmraccess.Pmr.Wrote.{AllStored-grown, Wrote, kept-Elsewhere, contents_last}
use pmraccess.Pmr.Invariant.{Inv, contents}

-- The operations that `SendPut` and `SendUpdate` pass to `SendWrite`.
abbrev pub IsWrite : Operation → Type 0
IsWrite op = (op ≡ put) ⊎ (op ≡ update)

module _ {S T : Type 0} (nic : Nic) (db : DbOps S) (h : HashMapOps Meta T) where
  -- The clerk after the put of a record with this key and this length of the value.
  abbrev put_clerk : Bytes → ℕ → Clerk → Clerk
  put_clerk key n c = record c {
    key_batch = c.key_batch ++ key ∷ [];
    metas = c.metas ++ file_meta 0 (c.buf_head + 8) (length key) n ∷ [];
    buf_head = u32 (c.buf_head + u32 (8 + length key + n));
    send_buf = put_reply c.send_buf 8 ok [];
  }

  abbrev put_server : Bytes → ℕ → Clerk → Server S T → Server S T
  put_server key n c s = record s {
    map = h.insert_or_assign key (mem_meta (c.chunk_offset + c.buf_head + 8) (length key) n) s.map;
  }

  dispatch_put :
      (op : Operation) (c : Clerk) (s : Server S T) (key : Bytes) (n : ℕ)
      → IsWrite op
      → Arrived c.send_buf op key n
      → dispatch db h (some op) c s ≡ done (replied (put_clerk key n c) (put_server key n c s))
  unfolding dispatch
  dispatch_put put c s key n w a = simp (handle_put, a.key_field, a.key_bytes, a.val_field)
  dispatch_put update c s key n w a = simp (handle_put, a.key_field, a.key_bytes, a.val_field)
  dispatch_put _ c s key n w a = ground arith

  -- What `write_record` makes of the session before the wait.
  written : Operation → Bytes → Bytes → Session S T → Session S T
  written op key val x =
      let buf = put_write x.client.local_buf op key val in
      let total_len = u16 (8 + u16 (length key) + u16 (length val)) in
      let y = post_request nic db h buf (u16 (8 + u16 (length key))) x in
      record y {
        client = record (y.client) { buf_head = u32 (x.client.buf_head + total_len) };
        server = record (y.server) {
          region =
              nic.write buf 8 x.server.region (u32 (x.client.chunk_offset + x.client.buf_head))
                total_len;
        };
      }

  written-HasRequest :
      (op : Operation) (key val : Bytes) (x : Session S T)
      → load32 x.client.local_buf 0 ≡ client_done
      → 16 + length key + length val ≤ max_request
      → HasRequest (written op key val x).clerk op key (length val)
  unfolding written
  written-HasRequest op key val x f fits =
      let buf : Mem = put_write x.client.local_buf op key val in
      let (a, v) = put_write-Arrived x.client.local_buf op key val (omega arith) (omega arith) in
      post_request-HasRequest nic db h x buf (u16 (8 + u16 (length key))) op key (length val)
        (put_write_header x.client.local_buf op key val ∙ f) a (omega arith)

module _ {S T : Type 0} (nic : Nic) (db : DbOps S) (h : HashMapOps Meta T) (laws : HashMapLaws h)
    (view : S → Bytes → Option Bytes) where
  -- The session once the record is indexed keeps the invariant, with the record the last pending.
  written-Inv :
      (x : Session S T) (es : List Entry) (slot : ℕ) (op : Operation) (key val : Bytes) (buf' : Mem)
      → Inv h x es slot
      → 16 + length key + length val ≤ max_request
      → x.clerk.buf_head + 8 + length key + length val < max_async_size
      → load32 buf' 0 ≡ client_done
      → let y0 = written nic db h op key val x in
        Inv h
          (record {
            client = record (y0.client) { local_buf = buf' };
            clerk = put_clerk nic db h key (length val) (started y0.clerk);
            server = put_server nic db h key (length val) (started y0.clerk) y0.server;
          })
          (es ++ record { off = x.clerk.buf_head; key = key; val = val } ∷ [])
          slot
  unfolding written post_request
  written-Inv x es slot op key val buf' inv fits room up =
      let (a, v) = put_write-Arrived x.client.local_buf op key val (omega arith) (omega arith) in
      let buf : Mem = put_write x.client.local_buf op key val in
      let e : Entry = record { off = x.clerk.buf_head; key = key; val = val } in
      let size : u16 (8 + u16 (length key) + u16 (length val)) ≡ 8 + length key + length val =
        omega arith in
      let place : u32 (x.client.chunk_offset + x.client.buf_head)
          ≡ x.clerk.chunk_offset + x.clerk.buf_head =
        omega (arith, inv.same_chunk, inv.same_head, inv.chunk_at, inv.slot_in, inv.room) in
      let head : u32 (x.clerk.buf_head + u32 (8 + length key + length val))
          ≡ x.clerk.buf_head + (8 + length key + length val) =
        omega arith in
      record {
        flag = up;
        same_chunk = inv.same_chunk;
        same_head = omega (arith, inv.same_head, size);
        room = omega arith;
        chunk_at = inv.chunk_at;
        slot_in = inv.slot_in;
        slot_used = inv.slot_used;
        bits = inv.bits;
        bits_size = inv.bits_size;
        keys = ap (λ ks. ks ++ key ∷ []) inv.keys ∙ sym (map-append (λ e'. e'.key) es (e ∷ []));
        descriptors =
            ap (λ ms. ms ++ batch_meta e ∷ []) inv.descriptors
            ∙ sym (map-append batch_meta es (e ∷ []));
        index = λ j e' p.
            laws.find_insert key (index_meta x.clerk.chunk_offset e) x.server.map j
            ∙ indexed_last (bytes_eq key j) (h.find j x.server.map) (pending es j) e e'
                (x.clerk.chunk_offset) (inv.index j) (sym (pending_append es e j) ∙ p);
        apart = λ j m p q.
            let (mine, was) =
              not_last (bytes_eq key j) (h.find j x.server.map) (pending es j) e m
                (x.clerk.chunk_offset) (sym (pending_append es e j) ∙ p)
                (sym (laws.find_insert key (index_meta x.clerk.chunk_offset e) x.server.map j)
                  ∙ q) in
            inv.apart j m mine was;
        stored =
            rw (head, place, size, nic.write_lem)
              (AllStored-grown buf (x.server.region) (x.clerk.chunk_offset) (x.clerk.buf_head) es
                key val v (omega arith) inv.stored);
      }
    where
      indexed_last :
          (b : Bool) (o : Option Meta) (p : Option Entry) (e e' : Entry) (chunk : ℕ)
          → ((d : Entry) → p ≡ some d → o ≡ some (index_meta chunk d))
          → (if b then some e else p) ≡ some e'
          → (if b then some (index_meta chunk e) else o) ≡ some (index_meta chunk e')
      indexed_last true o p e e' chunk k q = cc
      indexed_last false o p e e' chunk k q = k e' q

      not_last :
          (b : Bool) (o : Option Meta) (p : Option Entry) (e : Entry) (m : Meta) (chunk : ℕ)
          → (if b then some e else p) ≡ none
          → (if b then some (index_meta chunk e) else o) ≡ some m
          → (p ≡ none) × (o ≡ some m)
      not_last true o p e m chunk q r = cc
      not_last false o p e m chunk q r = (q, r)

  -- A put or an update of a record that fits the client's buffer and the chunk, in a session whose
  -- invariant holds: the write returns, the invariant holds with the record pending, and a reader
  -- sees the key bound to the value and every other key as before. The bits, the queue and the
  -- store stay as they were.
  pub write_record_lem :
      (x : Session S T) (es : List Entry) (slot : ℕ) (op : Operation) (key val : Bytes)
      → IsWrite op
      → Inv h x es slot
      → 16 + length key + length val ≤ max_request
      → x.clerk.buf_head + 8 + length key + length val < max_async_size
      → (y : Session S T) × (write_record nic db h op key val x ≡ done y)
        × Inv h y (es ++ record { off = x.clerk.buf_head; key = key; val = val } ∷ []) slot
        × ((j : Bytes)
            → contents h view y.server j
              ≡ (if bytes_eq key j then some val else contents h view x.server j))
        × Wrote h x y slot key
  unfolding write_record written post_request
  write_record_lem x es slot op key val w inv fits room =
      let y0 : Session S T = written nic db h op key val x in
      let req : HasRequest (y0.clerk) op key (length val) =
        written-HasRequest nic db h op key val x inv.flag fits in
      let c : Clerk = put_clerk nic db h key (length val) (started (y0.clerk)) in
      let s : Server S T = put_server nic db h key (length val) (started (y0.clerk)) (y0.server) in
      let (buf', waited, up, ans) =
        exchange nic db h y0 op key (length val) ok [] c s req
          (dispatch_put nic db h op (started (y0.clerk)) (y0.server) key (length val) w
            (started-Arrived req))
          refl (omega arith) in
      let e : Entry = record { off = x.clerk.buf_head; key = key; val = val } in
      let y : Session S T = record {
        client = record (y0.client) { local_buf = buf' };
        clerk = c;
        server = s;
      } in
      let inv' : Inv h y (es ++ e ∷ []) slot =
        written-Inv x es slot op key val buf' inv fits room up in
      let size : u16 (8 + u16 (length key) + u16 (length val)) ≡ 8 + length key + length val =
        omega arith in
      let place : u32 (x.client.chunk_offset + x.client.buf_head)
          ≡ x.clerk.chunk_offset + x.clerk.buf_head =
        omega (arith, inv.same_chunk, inv.same_head, inv.chunk_at, inv.slot_in, inv.room) in
      let bs : Bytes =
        load (put_write x.client.local_buf op key val) 8 (8 + length key + length val) in
      let len : length bs ≡ 8 + length key + length val =
        length-load (put_write x.client.local_buf op key val) 8 (8 + length key + length val) in
      let new_region : y.server.region
          ≡ store x.server.region (x.clerk.chunk_offset + x.clerk.buf_head) bs =
        rw (size, place, nic.write_lem) refl in
      let wrote : Wrote h x y slot key = record {
        others = λ j differs.
            laws.find_insert key (index_meta x.clerk.chunk_offset e) x.server.map j
            ∙ ap
                (λ (b : Bool).
                  if b then some (index_meta x.clerk.chunk_offset e) else h.find j x.server.map)
                differs;
        outside = λ i out. rw new_region (
            apart_from (x.clerk.chunk_offset + x.clerk.buf_head) (length bs) i
              (omega (arith, inv.chunk_at)) (omega (arith, len, inv.chunk_at)) bs refl out);
        values =
            λ j m w'. rw new_region (kept-Elsewhere h x es slot j m bs inv w' (omega (arith, len)));
        same_bits = refl;
        same_queue = refl;
        same_db = refl;
      } in
      (
        y,
        rw (fill_write-done max_request x.client.local_buf op key val fits) waited,
        inv',
        λ j. contents_last h view x y es slot key val j inv inv' wrote,
        wrote,
      )
    where
      apart_from :
          (a n i : ℕ)
          → max_async_size * slot ≤ a
          → a + n ≤ max_async_size * slot + max_async_size
          → (bs : Bytes) → length bs ≡ n
          → (i < max_async_size * slot) ⊎ (max_async_size * slot + max_async_size ≤ i)
          → store x.server.region a bs i ≡ x.server.region i
      apart_from a n i le ge bs e (inl below) = store_below x.server.region a bs i (omega arith)
      apart_from a n i le ge bs e (inr above) =
          store_above x.server.region a bs i (omega (arith, e))
