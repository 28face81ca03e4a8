-- ===== src/Pmem/Operations.antt =====
-- `SendWrite`, `SendGet` and `SendDelete` of frontend/pmem/pmem.cc, from the call to the return.
use pmraccess.Base.{
  ℕ, ◌+◌, ◌<◌, ◌≤◌, ◌≡◌, ◌⊎◌, inl, inr, refl, ◌∙◌, ap, true, Option, none, some, [], arith, length,
  if◌then◌else◌, bytes_eq, Bytes, Mem, load, load32, store, load-store-load,
}
use pmraccess.Outcome.{done}
use pmraccess.Wire.{
  Operation, put, get, update, delete, RequestStatus, ok, client_done, clerk_done, u16, put_write,
  put_key, put_reply, max_request, ring_header, send_buf_size,
}
use pmraccess.Wire.Transfer.{
  set_header, Arrived, Arrived-set_header, put_key-Arrived, put_key_header, fill_key-done,
  put_value-done, put_write-Arrived, fill_write-done, put_write_header, deliver_bytes,
  set_header_bytes,
}
use pmraccess.Rdma.Nic.{Nic}
use pmraccess.Store.{DbOps, DbLaws}
use pmraccess.Pmem.{
  Session, replied, dispatch, handle_put, handle_get, reply_get, handle_delete, put_status, await,
  post_request, post_record, next_head, pmem_bufsize, send_write, send_get, send_delete,
}
use pmraccess.Pmem.Exchange.{Requested, Requested-deliver, pmem_exchange}

-- Between operations: the flag is the client's, and the head is inside the ring.
pub record IsIdle {S : Type 0} (x : Session S) : Type 0 where
  pub flag : load32 x.client_buf 0 ≡ client_done
  pub head : x.buf_head < pmem_bufsize

-- The head that `SendWrite` takes leaves room for the record.
next_head-fits : (head len : ℕ) → len < pmem_bufsize → next_head head len + len < pmem_bufsize
unfolding next_head
next_head-fits head len h = ground arith

-- The operations that `PMemClerk` applies as a put.
abbrev pub IsPut : Operation → Type 0
IsPut op = (op ≡ put) ⊎ (op ≡ update)

-- What the second write of `SendWrite` leaves in the ring.
recorded :
    (nic : Nic) (buf ring : Mem) (head len i n a b : ℕ)
    → i + n ≤ len
    → a ≡ 8 + i
    → b ≡ head + i
    → load (nic.write buf 8 ring head len) b n ≡ load buf a n
recorded nic buf ring head len i n a b h p q =
    rw (p, q, nic.write_lem buf 8 ring head len) (load-store-load ring buf 8 head len i n h)

-- The session after the reply to a request.
abbrev answered : {S : Type 0} → Session S → Mem → RequestStatus → Bytes → S → Session S
answered y buf st v s = record y {
  client_buf = buf;
  clerk_buf = put_reply (set_header y.clerk_buf clerk_done) 8 st v;
  db = s;
}

module _ {S : Type 0} (nic : Nic) (db : DbOps S) where
  dispatch_put :
      (m : Mem) (s : S) (op : Operation) (key val : Bytes)
      → IsPut op
      → Arrived m op key (length val)
      → load m (16 + length key) (length val) ≡ val
      → dispatch db (some op) m s
        ≡ done (replied (put_reply m 8 (put_status (db.put key val s).0) []) (db.put key val s).1)
  unfolding dispatch handle_put
  dispatch_put m s op key val (inl e) a v = rw (e, a.key_field, a.val_field, a.key_bytes, v)
  dispatch_put m s op key val (inr e) a v = rw (e, a.key_field, a.val_field, a.key_bytes, v)

  module _ (view : S → Bytes → Option Bytes) (laws : DbLaws db view) where
    -- In an idle session over a store that keeps the laws of `DbLaws`, a put or an update of a
    -- record of at most 4096 bytes returns: a reader of the store sees the key bound to the value
    -- and every other key as before, and the record, with the key and the value after the eight
    -- bytes of its header, is all that changes in the ring. The session is idle again, with its
    -- head behind the record and inside the ring.
    pub pmem_write_lem :
        (x : Session S) (op : Operation) (key val : Bytes)
        → IsPut op
        → IsIdle x
        → 8 + length key + length val ≤ 4096
        → let at = next_head x.buf_head (8 + length key + length val) in
          (y : Session S) × (send_write nic db op key val x ≡ done y)
          × IsIdle y
          × ((j : Bytes) → view y.db j ≡ (if bytes_eq key j then some val else view x.db j))
          × (load y.ring (at + 8) (length key) ≡ key)
          × (load y.ring (at + 8 + length key) (length val) ≡ val)
          × (y.buf_head ≡ at + 8 + length key + length val)
          × (y.ring
              ≡ store x.ring at
                  (load (put_write x.client_buf op key val) 8 (8 + length key + length val)))
    unfolding send_write post_record
    pmem_write_lem x op key val w idle fits =
        let len : u16 (8 + u16 (length key) + u16 (length val)) ≡ 8 + length key + length val =
          omega arith in
        let n : ℕ = 8 + length key + length val in
        let at : ℕ = next_head x.buf_head n in
        let buf : Mem = put_write x.client_buf op key val in
        let y0 : Session S = post_record nic db buf n at x in
        let (arrived, bytes) =
          put_write-Arrived x.client_buf op key val (omega arith) (omega arith) in
        let req : Requested y0.clerk_buf op key (length val) =
          Requested-deliver nic buf x.clerk_buf n op key (length val)
            (put_write_header x.client_buf op key val ∙ idle.flag) arrived (omega arith) in
        let sb : Mem = set_header y0.clerk_buf clerk_done in
        let val_at : load sb (16 + length key) (length val) ≡ val =
          set_header_bytes y0.clerk_buf clerk_done (16 + length key) (length val) (omega arith)
          ∙ deliver_bytes nic buf x.clerk_buf n (16 + length key) (length val) (omega arith)
              (omega arith)
          ∙ bytes in
        let (buf', waited, up, ans) =
          pmem_exchange nic db y0 op key (length val) ok [] (db.put key val x.db).1 req
            (dispatch_put sb x.db op key val w
                (Arrived-set_header y0.clerk_buf clerk_done op key (length val) req.request) val_at
              ∙ rw (laws.put_ok key val x.db))
            (omega arith) in
        (
          answered y0 buf' ok [] (db.put key val x.db).1,
          rw (fill_write-done (max_request + ring_header) x.client_buf op key val (omega arith)) (
              ap (λ m. await nic db (post_record nic db buf m (next_head x.buf_head m) x)) len
              ∙ waited),
          record { flag = up; head = next_head-fits x.buf_head n (omega arith) },
          λ j. laws.put_lem key val x.db j,
          recorded nic buf x.ring at n 8 (length key) 16 (at + 8) (omega arith) refl refl
              ∙ arrived.key_bytes,
          recorded nic buf x.ring at n (8 + length key) (length val) (16 + length key)
                (at + 8 + length key) (omega arith) (omega arith) (omega arith)
              ∙ bytes,
          omega arith,
          nic.write_lem buf 8 x.ring at n,
        )

    -- In an idle session, a `SendGet` for a key of at most 4088 bytes that the store binds to
    -- a value of at most 120 bytes returns true with that value. It leaves the store and the ring as
    -- they were and the session idle.
    pub pmem_get_value :
        (x : Session S) (key v : Bytes)
        → IsIdle x
        → 16 + length key ≤ max_request + ring_header
        → view x.db key ≡ some v
        → length v ≤ 120
        → (y : Session S) × (send_get nic db key x ≡ done (some v, y))
          × (y.db ≡ x.db)
          × (y.ring ≡ x.ring)
          × IsIdle y
    unfolding send_get post_request dispatch handle_get reply_get
    pmem_get_value x key v idle small bound fits =
        let len : ℕ = u16 (8 + u16 (length key)) in
        let y0 : Session S = post_request nic db (put_key x.client_buf get key) len x in
        let req : Requested y0.clerk_buf get key 0 =
          Requested-deliver nic (put_key x.client_buf get key) x.clerk_buf len get key 0
            (put_key_header x.client_buf get key ∙ idle.flag)
            (put_key-Arrived x.client_buf get key (omega arith)) (omega arith) in
        let a : Arrived (set_header y0.clerk_buf clerk_done) get key 0 =
          Arrived-set_header y0.clerk_buf clerk_done get key 0 req.request in
        let (buf, waited, up, ans) =
          pmem_exchange nic db y0 get key 0 ok v x.db req
            (rw (
              a.key_field,
              a.key_bytes,
              laws.get_lem key v x.db bound,
              put_value-done send_buf_size (set_header y0.clerk_buf clerk_done) v (omega arith),
            ))
            fits in
        (
          answered y0 buf ok v x.db,
          rw (
            fill_key-done (max_request + ring_header) x.client_buf get key small,
            waited,
            ans.status_field,
            ans.size_field,
            ans.value_bytes,
          ),
          refl,
          refl,
          record { flag = up; head = idle.head },
        )

    -- In an idle session over a store that keeps the laws of `DbLaws`, a `SendDelete` for a key
    -- of at most 4088 bytes returns true, the store binds every key but this as before, and the
    -- session is idle again with the ring as it was.
    pub pmem_delete_lem :
        (x : Session S) (key : Bytes)
        → IsIdle x
        → 16 + length key ≤ max_request + ring_header
        → (y : Session S) × (send_delete nic db key x ≡ done (true, y))
          × ((j : Bytes) → view y.db j ≡ (if bytes_eq key j then none else view x.db j))
          × (y.ring ≡ x.ring)
          × IsIdle y
    unfolding send_delete post_request dispatch handle_delete
    pmem_delete_lem x key idle small =
        let len : ℕ = u16 (8 + u16 (length key)) in
        let y0 : Session S = post_request nic db (put_key x.client_buf delete key) len x in
        let req : Requested y0.clerk_buf delete key 0 =
          Requested-deliver nic (put_key x.client_buf delete key) x.clerk_buf len delete key 0
            (put_key_header x.client_buf delete key ∙ idle.flag)
            (put_key-Arrived x.client_buf delete key (omega arith)) (omega arith) in
        let a : Arrived (set_header y0.clerk_buf clerk_done) delete key 0 =
          Arrived-set_header y0.clerk_buf clerk_done delete key 0 req.request in
        let (buf, waited, up, ans) =
          pmem_exchange nic db y0 delete key 0 ok [] (db.delete key x.db).1 req
            (rw (a.key_field, a.key_bytes, laws.delete_ok key x.db)) (omega arith) in
        (
          answered y0 buf ok [] (db.delete key x.db).1,
          rw (
            fill_key-done (max_request + ring_header) x.client_buf delete key small,
            waited,
            ans.status_field,
          ),
          λ j. laws.delete_lem key x.db j,
          refl,
          record { flag = up; head = idle.head },
        )
