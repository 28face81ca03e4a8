-- ===== src/Group/Clerk.antt =====
-- `GroupClerk::Run` and `GroupClient` of frontend/group/group.cc: one turn of a clerk that finds
-- itself at the front of the queue, and the client that it serves.
use pmraccess.Base.{
  ℕ, ◌+◌, Bool, Option, none, some, List, [], ◌∷◌, ◌++◌, ◌==◌, if◌then◌else◌, length, Bytes, Mem,
  load, load32, store32,
}
use pmraccess.Outcome.{Outcome, done, waiting, aborted, ◌>>=◌, ◌>>◌, spin_until}
use pmraccess.Wire.{
  Operation, put, get, update, delete, close, alloc, ok, not_found, status_code, header_size,
  ring_header, client_done, clerk_done, u16, request_op, request_key_size, put_reply, reply_status,
  reply_val_size, fill_write, fill_key, put_value, max_request,
}
use pmraccess.Wire.Transfer.{deliver, answer, set_header}
use pmraccess.Rdma.Nic.{Nic}
use pmraccess.Store.{GetResult, found, missing, thrown, DbOps}
use pmraccess.RingLog
use pmraccess.RingLog.{Log}
use pmraccess.Group.{Writer, WriteBatch, build_batch_group, pop_until}

-- The store, the log and the static batch that all clerks share.
pub record Server (S : Type 0) : Type 0 where
  pub db : S
  pub log : Log
  pub batch : WriteBatch

-- What a turn leaves: a buffer with the reply, the writers let go and those still queued; or the
-- thread returns.
pub data Turn (S : Type 0) : Type 0 where
  replied : Mem → List ℕ → List Writer → Server S → Turn S
  closed : Turn S

-- The end of the leader's loop: `none` is a `front()` of the empty queue.
unfoldable pub let_go :
    {S : Type 0} → Mem → Server S → Option (List ℕ × List Writer) → Outcome (Turn S)
let_go buf s none = aborted
let_go buf s (some (marked, left)) = done (replied buf marked left s)

-- The leader's loop, up to the last writer of the batch; an empty batch has none.
unfoldable pub lead_until :
    {S : Type 0} → Writer → List Writer → Server S → Option ℕ → Outcome (Turn S)
unfolding let_go
lead_until me queue s none = aborted
lead_until me queue s (some last) = let_go me.local_buf s (pop_until me.id last queue)

module _ {S : Type 0} (db : DbOps S) where
  -- `db_->PutBatch` and `log_->PutBatch` of the batch that was built.
  unfoldable pub commit : WriteBatch → Server S → Server S
  commit b s = record {
    db = (db.put_batch b.keys b.metas b.buffer b.batch_length s.db).1;
    log = RingLog.put_batch b.buffer b.batch_length s.log;
    batch = b;
  }

  -- From `BuildBatchGroup` to the end of the loop that pops: `me` is the leader's writer, `behind`
  -- are those that stand behind it when the batch is built, `later` those that have come since.
  -- The reply of the leader is not set.
  unfoldable pub lead : Writer → List Writer → List Writer → Server S → Outcome (Turn S)
  unfolding commit lead_until
  lead me behind later s =
      let built = build_batch_group (me ∷ behind) s.batch in
      lead_until me ((me ∷ behind) ++ later) (commit built.0 s) built.1

  -- The reply of a clerk that another one has let go.
  unfoldable pub follow : Mem → Mem
  follow buf = put_reply buf ring_header ok []

  -- The branch of GET. Without a value only the status is set.
  unfoldable pub reply_get : GetResult → Mem → Server S → Outcome (Turn S)
  unfolding put_value
  reply_get (found v) buf s = do
    buf' ← put_value (max_request + ring_header) buf v
    done (replied buf' [] [] s)
  reply_get missing buf s = done (replied (store32 buf ring_header (status_code not_found)) [] [] s)
  reply_get thrown buf s = aborted

  unfoldable pub dispatch :
      Option Operation → ℕ → Mem → List Writer → List Writer → Server S → Outcome (Turn S)
  unfolding lead reply_get
  dispatch (some close) id buf behind later s = done closed
  dispatch (some get) id buf behind later s =
      reply_get (db.get (load buf 16 (request_key_size buf ring_header)) s.db) buf s
  dispatch (some put) id buf behind later s =
      lead (record { id = id; local_buf = buf }) behind later s
  dispatch (some update) id buf behind later s =
      lead (record { id = id; local_buf = buf }) behind later s
  dispatch (some delete) id buf behind later s =
      lead (record { id = id; local_buf = buf }) behind later s
  dispatch (some alloc) id buf behind later s =
      lead (record { id = id; local_buf = buf }) behind later s
  dispatch none id buf behind later s = lead (record { id = id; local_buf = buf }) behind later s

  -- A turn up to the reply.
  unfoldable pub turn : ℕ → Mem → List Writer → List Writer → Server S → Outcome (Turn S)
  unfolding dispatch
  turn id buf behind later s =
      let buf' = set_header buf clerk_done in
      spin_until (load32 buf 0 == client_done)
      >> dispatch (request_op buf' ring_header) id buf' behind later s

-- A client and a clerk whose queue no other clerk uses.
pub record Session (S : Type 0) : Type 0 where
  pub client_buf : Mem
  pub clerk_buf : Mem
  pub server : Server S

module _ {S : Type 0} (nic : Nic) (db : DbOps S) where
  -- The two writes of a clerk that has its reply, and the client's wait; the reply is where the
  -- request was. A thread that returns leaves the client waiting.
  unfoldable pub collect : Mem → Turn S → Outcome (Session S)
  unfolding answer
  collect client_buf closed = waiting
  collect client_buf (replied buf marked left s) =
      let cb = answer max_request nic buf client_buf in
      spin_until (load32 cb 0 == clerk_done)
      >> done (record { client_buf = set_header cb client_done; clerk_buf = buf; server = s })

  unfoldable pub await : Session S → Outcome (Session S)
  unfolding turn collect
  await x = turn db 0 x.clerk_buf [] [] x.server >>= collect x.client_buf

  unfoldable pub post_request : Mem → ℕ → Session S → Session S
  unfolding deliver
  post_request buf len x = record {
    client_buf = buf;
    clerk_buf = deliver nic buf x.clerk_buf len;
    server = x.server;
  }

  -- `SendWrite`
  unfoldable pub send_write : Operation → Bytes → Bytes → Session S → Outcome (Session S)
  unfolding post_request await fill_write
  send_write op key val x = do
    let total_len = u16 (header_size + u16 (length key) + u16 (length val))
    buf ← fill_write (max_request + ring_header) x.client_buf op key val
    await (post_request buf total_len x)

  -- `SendGet`
  unfoldable pub send_get : Bytes → Session S → Outcome (Option Bytes × Session S)
  unfolding post_request await fill_key
  send_get key x = do
    buf ← fill_key (max_request + ring_header) x.client_buf get key
    y ← await (post_request buf (u16 (header_size + u16 (length key))) x)
    done (
      if reply_status (y.client_buf) ring_header == status_code ok
          then some (load (y.client_buf) 16 (reply_val_size (y.client_buf) ring_header))
          else none,
      y,
    )

  -- `SendDelete`
  unfoldable pub send_delete : Bytes → Session S → Outcome (Bool × Session S)
  unfolding post_request await fill_key
  send_delete key x = do
    buf ← fill_key (max_request + ring_header) x.client_buf delete key
    y ← await (post_request buf (u16 (header_size + u16 (length key))) x)
    done (reply_status (y.client_buf) ring_header == status_code ok, y)
