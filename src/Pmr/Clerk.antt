-- ===== src/Pmr/Clerk.antt =====
-- `PMRClerk::Run` of frontend/pmr/pmr.cc: one turn of its loop, a handler for each operation.
use pmraccess.Base.{
  ℕ, ◌+◌, ◌*◌, ◌/◌, Option, none, some, List, [], ◌∷◌, ◌++◌, ltb, ◌==◌, if◌then◌else◌, Bytes, Mem,
  load, le32, load32,
}
use pmraccess.Outcome.{Outcome, done, aborted, ◌>>=◌, ◌>>◌, spin_until}
use pmraccess.Wire.{
  Operation, put, get, update, delete, close, alloc, RequestStatus, ok, not_found, header_size,
  max_async_size, client_done, clerk_done, u32, request_op, request_key_size, request_val_size,
  request_length, put_reply, put_value, send_buf_size,
}
use pmraccess.Wire.Transfer.{set_header}
use pmraccess.Store.{
  Meta, file_meta, mem_meta, GetResult, found, missing, thrown, DbOps, HashMapOps,
}
use pmraccess.Pmr.State.{Server, Clerk, no_chunk, alloc_chunk}

-- `memcpy(tmp_buf, start_buf, MAX_ASYNC_SIZE)` into a new buffer.
unfoldable pub copy_chunk : Mem → ℕ → Mem
copy_chunk region start i = if ltb i max_async_size then region (start + i) else 0

-- What a turn leaves: the clerk goes on with a reply in its buffer, or its thread returns.
pub data Turn (S T : Type 0) : Type 0 where
  replied : Clerk → Server S T → Turn S T
  closed : Server S T → Turn S T

module _ {S T : Type 0} (db : DbOps S) (h : HashMapOps Meta T) where
  -- `for(...) map_.erase(key_batch[i])`
  unfoldable pub erase_all : List Bytes → T → T
  erase_all [] t = t
  erase_all (k ∷ ks) t = erase_all ks (h.erase k t)

  -- The part that ALLOC and CLOSE share: copy the chunk, store the batch, drop its keys from the
  -- index, and queue the chunk for the log. `length` is what `PutBatch` is given.
  unfoldable pub flush : ℕ → Clerk → Server S T → Server S T
  unfolding erase_all copy_chunk
  flush length c s =
      let tmp_buf = copy_chunk s.region c.chunk_offset in
      record s {
        db = (db.put_batch c.key_batch c.metas tmp_buf length s.db).1;
        map = erase_all c.key_batch s.map;
        queue =
            s.queue
            ++ record { buf = tmp_buf; size = c.buf_head; chunk = c.chunk_offset / max_async_size }
              ∷ [];
      }

  -- `case UPDATE: case PUT:`
  unfoldable pub handle_put : Clerk → Server S T → Outcome (Turn S T)
  handle_put c s =
      let key_size = request_key_size c.send_buf 8 in
      let val_size = request_val_size c.send_buf 8 in
      let key = load c.send_buf 16 key_size in
      let mem_idx = mem_meta (c.chunk_offset + c.buf_head + header_size) key_size val_size in
      done (
        replied
          (record c {
            key_batch = c.key_batch ++ key ∷ [];
            metas = c.metas ++ file_meta 0 (c.buf_head + header_size) key_size val_size ∷ [];
            buf_head = u32 (c.buf_head + request_length c.send_buf 8);
            send_buf = put_reply c.send_buf 8 ok [];
          })
          (record s { map = h.insert_or_assign key mem_idx s.map }))

  abbrev pub reply_with : RequestStatus → Bytes → Clerk → Server S T → Outcome (Turn S T)
  reply_with st value c s =
      done (replied (record c { send_buf = put_reply c.send_buf 8 st value }) s)

  -- The reply of a GET that finds a value, in the `send_buf` of the clerk.
  unfoldable pub reply_value : Bytes → Clerk → Server S T → Outcome (Turn S T)
  reply_value value c s = do
    buf ← put_value send_buf_size c.send_buf value
    done (replied (record c { send_buf = buf }) s)

  -- The branches of `case GET:` on what the index has and, without that, what `Get` does.
  unfoldable pub reply_get : ℕ → Option Meta → GetResult → Clerk → Server S T → Outcome (Turn S T)
  unfolding reply_value
  reply_get key_size (some m) g c s =
      reply_value (load s.region (m.addr + key_size) m.value_size) c s
  reply_get key_size none (found v) c s = reply_value v c s
  reply_get key_size none missing c s = reply_with not_found [] c s
  reply_get key_size none thrown c s = aborted

  -- `case GET:` looks in the index first, then in the store.
  unfoldable pub handle_get : Clerk → Server S T → Outcome (Turn S T)
  unfolding reply_get
  handle_get c s =
      let key_size = request_key_size c.send_buf 8 in
      let key = load c.send_buf 16 key_size in
      reply_get key_size (h.find key s.map) (db.get key s.db) c s

  -- `case DELETE:` goes to the store alone.
  unfoldable pub handle_delete : Clerk → Server S T → Outcome (Turn S T)
  handle_delete c s =
      let key = load c.send_buf 16 (request_key_size c.send_buf 8) in
      let r = db.delete key s.db in
      reply_with (if r.0 then ok else not_found) [] c (record s { db = r.1 })

  -- `case ALLOC:`
  unfoldable pub handle_alloc : Clerk → Server S T → Outcome (Turn S T)
  unfolding flush alloc_chunk
  handle_alloc c s =
      let had = ltb c.chunk_offset no_chunk in
      let s' = if had then flush c.buf_head c s else s in
      let c' = if had then record c { key_batch = []; metas = [] } else c in
      do
        r ← alloc_chunk s'
        let chunk_offset = u32 (max_async_size * r.0)
        reply_with ok (le32 chunk_offset) (record c' { chunk_offset = chunk_offset; buf_head = 0 })
            (r.1)

  -- `case CLOSE:`, up to the receive that ends the connection.
  unfoldable pub handle_close : Clerk → Server S T → Outcome (Turn S T)
  unfolding flush
  handle_close c s = done (closed (if ltb 0 c.buf_head then flush max_async_size c s else s))

  -- The `switch`.
  unfoldable pub dispatch : Option Operation → Clerk → Server S T → Outcome (Turn S T)
  unfolding handle_put handle_get handle_delete handle_alloc handle_close
  dispatch (some put) c s = handle_put c s
  dispatch (some update) c s = handle_put c s
  dispatch (some get) c s = handle_get c s
  dispatch (some delete) c s = handle_delete c s
  dispatch (some alloc) c s = handle_alloc c s
  dispatch (some close) c s = handle_close c s
  dispatch none c s = aborted

  -- A turn of the loop up to the reply: wait for the flag, answer it, handle the request.
  unfoldable pub turn : Clerk → Server S T → Outcome (Turn S T)
  unfolding dispatch
  turn c s =
      let c' = record c { send_buf = set_header c.send_buf clerk_done } in
      spin_until (load32 c.send_buf 0 == client_done) >> dispatch (request_op c'.send_buf 8) c' s
