-- ===== src/Pmr/Client.antt =====
-- `PMRClient` of frontend/pmr/pmr.cc, with the clerk that serves it: where the client waits for
-- its flag, the clerk takes one turn.
use pmraccess.Base.{
  ℕ, ◌+◌, Bool, Option, none, some, leb, ◌==◌, if◌then◌else◌, length, Bytes, Mem, load, load32,
}
use pmraccess.Outcome.{Outcome, done, waiting, ◌>>=◌, ◌>>◌, spin_until}
use pmraccess.Wire.{
  Operation, get, delete, close, alloc, ok, status_code, header_size, ring_header, max_async_size,
  max_inline_size, max_request, client_done, clerk_done, u16, u32, reply_status, reply_val_size,
  fill_write, fill_key, fill_bare,
}
use pmraccess.Wire.Transfer.{deliver, answer, set_header}
use pmraccess.Rdma.Nic.{Nic}
use pmraccess.Store.{Meta, DbOps, HashMapOps}
use pmraccess.Pmr.State.{Server, Clerk, Client}
use pmraccess.Pmr.Clerk.{replied, closed, turn}

-- A client, its clerk, and the server behind them.
pub record Session (S T : Type 0) : Type 0 where
  pub client : Client
  pub clerk : Clerk
  pub server : Server S T

module _ {S T : Type 0} (nic : Nic) (db : DbOps S) (h : HashMapOps Meta T) where
  -- The clerk's turn with its two writes to the client's buffer, the client's wait for the flag,
  -- and `*header_ = CLIENT_DONE`. A clerk that closes sends no reply.
  unfoldable pub await : Session S T → Outcome (Session S T)
  unfolding turn answer
  await x = do
    t ← turn db h x.clerk x.server
    elim t [
      | closed s ↦ waiting
      | replied c s ↦
          let buf = answer max_inline_size nic c.send_buf x.client.local_buf in
          spin_until (load32 buf 0 == clerk_done)
          >> done (record {
            client = record x.client { local_buf = set_header buf client_done };
            clerk = c;
            server = s;
          })
    ]

  -- Post `len` bytes of the prepared record `buf`, and the flag, to the clerk's buffer.
  unfoldable pub post_request : Mem → ℕ → Session S T → Session S T
  unfolding deliver
  post_request buf len x = record {
    client = record x.client { local_buf = buf };
    clerk = record x.clerk { send_buf = deliver nic buf x.clerk.send_buf len };
    server = x.server;
  }

  abbrev status_ok : Session S T → Bool
  status_ok x = reply_status x.client.local_buf ring_header == status_code ok

  -- `*((uint32_t *)reply->value)`, and the string `(reply->value, reply->val_size)`.
  abbrev reply_word : Session S T → ℕ
  reply_word x = load32 x.client.local_buf (ring_header + header_size)

  abbrev reply_value : Session S T → Bytes
  reply_value x =
      load x.client.local_buf (ring_header + header_size)
        (reply_val_size x.client.local_buf ring_header)

  -- `SendAlloc`
  unfoldable pub send_alloc : Session S T → Outcome (Session S T)
  unfolding post_request await
  send_alloc x = do
    y ← await (post_request (fill_bare x.client.local_buf alloc) (u16 header_size) x)
    done (
        if status_ok y
        then record y { client = record (y.client) { chunk_offset = reply_word y; buf_head = 0 } }
        else y)

  -- `SendWrite` once there is room: the record's head goes to the clerk, the whole record into the
  -- chunk. The offset into the region is computed in `uint32_t`.
  unfoldable pub write_record : Operation → Bytes → Bytes → Session S T → Outcome (Session S T)
  unfolding post_request await fill_write
  write_record op key val x = do
    let key_len = u16 (length key)
    let meta_len = u16 (header_size + key_len)
    let total_len = u16 (header_size + key_len + u16 (length val))
    buf ← fill_write max_request x.client.local_buf op key val
    let c = x.client
    let offset = u32 (c.chunk_offset + c.buf_head)
    let y = post_request buf meta_len x
    let region = nic.write buf ring_header (x.server).region offset total_len
    await (record y {
      client = record (y.client) { buf_head = u32 (c.buf_head + total_len) };
      server = record (y.server) { region = region };
    })

  -- `SendWrite`
  unfoldable pub send_write : Operation → Bytes → Bytes → Session S T → Outcome (Session S T)
  unfolding send_alloc write_record
  send_write op key val x =
      let total_len = u16 (header_size + u16 (length key) + u16 (length val)) in
      (if leb max_async_size (u32 (x.client.buf_head + total_len)) then send_alloc x else done x)
      >>= write_record op key val

  -- `SendGet`: `some v` is `true` with `*val = v`.
  unfoldable pub send_get : Bytes → Session S T → Outcome (Option Bytes × Session S T)
  unfolding post_request await fill_key
  send_get key x = do
    buf ← fill_key max_request x.client.local_buf get key
    y ← await (post_request buf (u16 (header_size + u16 (length key))) x)
    done (if status_ok y then some (reply_value y) else none, y)

  -- `SendDelete`
  unfoldable pub send_delete : Bytes → Session S T → Outcome (Bool × Session S T)
  unfolding post_request await fill_key
  send_delete key x = do
    buf ← fill_key max_request x.client.local_buf delete key
    y ← await (post_request buf (u16 (header_size + u16 (length key))) x)
    done (status_ok y, y)

  -- `SendClose`, with the clerk's last turn: the server that is left.
  unfoldable pub send_close : Session S T → Outcome (Server S T)
  unfolding post_request turn
  send_close x = do
    let y = post_request (fill_bare x.client.local_buf close) (u16 header_size) x
    t ← turn db h (y.clerk) (y.server)
    elim t [ replied c s ↦ waiting | closed s ↦ done s ]
