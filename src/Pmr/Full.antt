-- ===== src/Pmr/Full.antt =====
-- frontend/pmr while every chunk of the messaging buffer is in use: `AllocChunk` scans for ever.
use pmraccess.Base.{
  ◌+◌, leb, Bytes, ◌≡◌, refl, ◌∙◌, Bool, true, false, some, [], arith, ltb, load32, load32-store32,
  Mem,
}
use pmraccess.Outcome.{waiting}
use pmraccess.Wire.{Operation, max_async_size, u32, alloc, u16, client_done, fill_bare}
use pmraccess.Wire.Transfer.{fill_bare-Arrived, fill_bare_header}
use pmraccess.Rdma.Nic.{Nic}
use pmraccess.Store.{Meta, DbOps, HashMapOps}
use pmraccess.Bitset.{blindset}
use pmraccess.Pmr.State.{Server, Clerk, no_chunk, new_client, new_clerk}
use pmraccess.Pmr.Clerk.{dispatch, handle_alloc, flush}
use pmraccess.Pmr.Client.{Session, post_request, await, send_alloc, send_write}
use pmraccess.Pmr.Sessions.{connect, total_length}
use pmraccess.Pmr.Exchange.{HasRequest, started, turn-dispatch, post_request-HasRequest}

module _ {S T : Type 0} (nic : Nic) (db : DbOps S) (h : HashMapOps Meta T) where
  dispatch_waits :
      (c : Clerk) (s : Server S T) (had : Bool)
      → ltb c.chunk_offset no_chunk ≡ had
      → blindset s.bitmap ≡ waiting
      → dispatch db h (some alloc) c s ≡ waiting
  unfolding dispatch flush
  dispatch_waits c s true e ran = rw (handle_alloc, e, ran)
  dispatch_waits c s false e ran = rw (handle_alloc, e, ran)

  -- The client waits for a reply that its clerk does not send.
  pub send_alloc_waits :
      (x : Session S T)
      → load32 x.client.local_buf 0 ≡ client_done
      → blindset x.server.bitmap ≡ waiting
      → send_alloc nic db h x ≡ waiting
  unfolding send_alloc await
  send_alloc_waits x f full =
      let y : Session S T = post_request nic db h (fill_bare x.client.local_buf alloc) (u16 8) x in
      let req : HasRequest (y.clerk) alloc [] 0 =
        post_request-HasRequest nic db h x (fill_bare x.client.local_buf alloc) (u16 8) alloc [] 0
          (fill_bare_header x.client.local_buf alloc ∙ f)
          (fill_bare-Arrived x.client.local_buf alloc) (omega arith) in
      rw (
        turn-dispatch nic db h (y.clerk) (y.server) alloc [] 0 req,
        dispatch_waits (started (y.clerk)) (y.server) _ refl (unfold post_request in full),
      )

  pub connect_waits :
      (local_buf send_buf : Mem) (s : Server S T)
      → blindset s.bitmap ≡ waiting
      → connect nic db h local_buf send_buf s ≡ waiting
  unfolding connect new_client
  connect_waits local_buf send_buf s full =
      send_alloc_waits
        (record { client = new_client local_buf; clerk = new_clerk send_buf; server = s })
        (load32-store32 local_buf 0 client_done (omega arith)) full

  pub send_write_waits :
      (x : Session S T) (op : Operation) (key val : Bytes)
      → load32 x.client.local_buf 0 ≡ client_done
      → leb max_async_size (u32 (x.client.buf_head + total_length key val)) ≡ true
      → blindset x.server.bitmap ≡ waiting
      → send_write nic db h op key val x ≡ waiting
  unfolding send_write
  send_write_waits x op key val f no_room full = rw (no_room, send_alloc_waits x f full)
