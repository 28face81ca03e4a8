-- ===== src/Pmem.antt =====
-- frontend/pmem/pmem.cc: clients that write every record to a persistent ring besides the message
-- buffer of their clerk, and clerks that apply every request to the store at once.
pub mod Exchange
pub mod Operations
pub mod Listen
use pmraccess.Base.{
  ℕ, ◌+◌, ◌*◌, Bool, true, false, Option, none, some, [], ◌==◌, leb, if◌then◌else◌, length, Bytes,
  Mem, load, load32,
}
use pmraccess.Outcome.{Outcome, done, waiting, aborted, ◌>>=◌, ◌>>◌, spin_until}
use pmraccess.Wire.{
  Operation, put, get, update, delete, close, alloc, RequestStatus, ok, not_found, error,
  status_code, header_size, ring_header, client_done, clerk_done, u16, request_op, request_key_size,
  request_val_size, put_reply, reply_status, reply_val_size, fill_write, fill_key, fill_bare,
  put_value, send_buf_size, max_inline_size, max_request,
}
use pmraccess.Wire.Transfer.{deliver, answer, set_header}
use pmraccess.Rdma.Nic.{Nic}
use pmraccess.Store.{GetResult, found, missing, thrown, DbOps}

abbrev pub pmem_bufsize : ℕ
pmem_bufsize = 16 * 1024 * 1024

-- What a turn of the clerk leaves: its buffer with the reply, and the store; or the thread returns.
pub data Turn (S : Type 0) : Type 0 where
  replied : Mem → S → Turn S
  closed : S → Turn S

-- A client, its clerk, the clerk's part of the persistent memory, and the store.
pub record Session (S : Type 0) : Type 0 where
  pub client_buf : Mem
  pub buf_head : ℕ
  pub clerk_buf : Mem
  pub ring : Mem
  pub db : S

-- The head of `SendWrite`: back to 0 where the record does not fit.
unfoldable pub next_head : ℕ → ℕ → ℕ
next_head head len = if leb pmem_bufsize (head + len) then 0 else head

-- The status of a reply to a put, by what `Put` returned, and to a delete.
abbrev pub put_status : Bool → RequestStatus
put_status true = ok
put_status false = error

abbrev pub delete_status : Bool → RequestStatus
delete_status true = ok
delete_status false = not_found

module _ {S : Type 0} (db : DbOps S) where
  unfoldable pub handle_put : Mem → S → Outcome (Turn S)
  handle_put buf s =
      let key_size = request_key_size buf ring_header in
      let key = load buf (ring_header + header_size) key_size in
      let val =
        load buf (ring_header + header_size + key_size) (request_val_size buf ring_header) in
      let r = db.put key val s in done (replied (put_reply buf ring_header (put_status r.0) []) r.1)

  unfoldable pub reply_get : GetResult → Mem → S → Outcome (Turn S)
  unfolding put_value
  reply_get (found v) buf s = do buf' ← put_value send_buf_size buf v; done (replied buf' s)
  reply_get missing buf s = done (replied (put_reply buf ring_header not_found []) s)
  reply_get thrown buf s = aborted

  unfoldable pub handle_get : Mem → S → Outcome (Turn S)
  unfolding reply_get
  handle_get buf s =
      reply_get (db.get (load buf (ring_header + header_size) (request_key_size buf ring_header)) s)
        buf s

  unfoldable pub handle_delete : Mem → S → Outcome (Turn S)
  handle_delete buf s =
      let r =
        db.delete (load buf (ring_header + header_size) (request_key_size buf ring_header)) s in
      done (replied (put_reply buf ring_header (delete_status r.0) []) r.1)

  -- The `switch` of `PMemClerk::Run`.
  unfoldable pub dispatch : Option Operation → Mem → S → Outcome (Turn S)
  unfolding handle_put handle_get handle_delete
  dispatch (some update) buf s = handle_put buf s
  dispatch (some put) buf s = handle_put buf s
  dispatch (some get) buf s = handle_get buf s
  dispatch (some delete) buf s = handle_delete buf s
  dispatch (some close) buf s = done (closed s)
  dispatch (some alloc) buf s = aborted
  dispatch none buf s = aborted

  -- A turn of `PMemClerk::Run` up to the reply.
  unfoldable pub turn : Mem → S → Outcome (Turn S)
  unfolding dispatch
  turn buf s =
      let buf' = set_header buf clerk_done in
      spin_until (load32 buf 0 == client_done) >> dispatch (request_op buf' ring_header) buf' s

module _ {S : Type 0} (nic : Nic) (db : DbOps S) where
  -- The two writes of a clerk that has its reply, and the wait of the client for its flag.
  unfoldable pub collect : Session S → Turn S → Outcome (Session S)
  unfolding answer
  collect x (closed s) = waiting
  collect x (replied buf s) =
      let cb = answer max_inline_size nic buf x.client_buf in
      spin_until (load32 cb 0 == clerk_done)
      >> done (record x { client_buf = set_header cb client_done; clerk_buf = buf; db = s })

  unfoldable pub await : Session S → Outcome (Session S)
  unfolding turn collect
  await x = turn db x.clerk_buf x.db >>= collect x

  -- A request without a record for the ring.
  unfoldable pub post_request : Mem → ℕ → Session S → Session S
  unfolding deliver
  post_request buf len x = record x {
    client_buf = buf;
    clerk_buf = deliver nic buf x.clerk_buf len;
  }

  -- The three posted writes of `SendWrite`, and its heads before and after: `head` is where the
  -- record goes.
  unfoldable pub post_record : Mem → ℕ → ℕ → Session S → Session S
  unfolding deliver
  post_record buf len head x = record x {
    client_buf = buf;
    buf_head = head + len;
    clerk_buf = deliver nic buf x.clerk_buf len;
    ring = nic.write buf ring_header x.ring head len;
  }

  -- `SendWrite`
  unfoldable pub send_write : Operation → Bytes → Bytes → Session S → Outcome (Session S)
  unfolding post_record next_head await fill_write
  send_write op key val x = do
    let total_len = u16 (header_size + u16 (length key) + u16 (length val))
    buf ← fill_write (max_request + ring_header) x.client_buf op key val
    await (post_record buf total_len (next_head x.buf_head total_len) x)

  -- `SendGet`
  unfoldable pub send_get : Bytes → Session S → Outcome (Option Bytes × Session S)
  unfolding post_request await fill_key
  send_get key x = do
    buf ← fill_key (max_request + ring_header) x.client_buf get key
    y ← await (post_request buf (u16 (header_size + u16 (length key))) x)
    done (
      if reply_status (y.client_buf) ring_header == status_code ok
          then some (load (y.client_buf) 16 (reply_val_size (y.client_buf) ring_header))
          else none,
      y,
    )

  -- `SendDelete`
  unfoldable pub send_delete : Bytes → Session S → Outcome (Bool × Session S)
  unfolding post_request await fill_key
  send_delete key x = do
    buf ← fill_key (max_request + ring_header) x.client_buf delete key
    y ← await (post_request buf (u16 (header_size + u16 (length key))) x)
    done (reply_status (y.client_buf) ring_header == status_code ok, y)

  -- `SendClose`, up to its `post_send`: the clerk returns.
  unfoldable pub send_close : Session S → Outcome (Turn S)
  unfolding post_request turn
  send_close x =
      let y = post_request (fill_bare x.client_buf close) header_size x in turn db y.clerk_buf y.db

-- `PMemClient::Connect` and `PMemClerk::PMemClerk`.
unfoldable pub new_session : {S : Type 0} → Mem → Mem → Mem → S → Session S
new_session client_buf clerk_buf ring s = record {
  client_buf = set_header client_buf client_done;
  buf_head = 0;
  clerk_buf = clerk_buf;
  ring = ring;
  db = s;
}
