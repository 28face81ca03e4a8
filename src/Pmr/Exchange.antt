-- ===== src/Pmr/Exchange.antt =====
-- One request and its reply between `PMRClient` and `PMRClerk::Run` of frontend/pmr/pmr.cc: neither
-- side waits for ever, and each finds what the other sent.
use pmraccess.Base.{ℕ, ◌+◌, ◌≤◌, ◌≡◌, ◌∙◌, some, arith, length, Bytes, Mem, load32, load32-store32}
use pmraccess.Outcome.{done, aborted}
use pmraccess.Wire.{Operation, RequestStatus, client_done, clerk_done, put_reply, max_inline_size}
use pmraccess.Wire.Transfer.{
  answer, set_header, Arrived, Arrived-deliver, Arrived-set_header, deliver_header, Answered,
  answer_lem,
}
use pmraccess.Rdma.Nic.{Nic}
use pmraccess.Store.{Meta, DbOps, HashMapOps}
use pmraccess.Pmr.State.{Server, Clerk}
use pmraccess.Pmr.Clerk.{replied, dispatch, turn}
use pmraccess.Pmr.Client.{Session, await, post_request}

-- A clerk whose buffer holds a request and the client's flag.
pub record HasRequest (c : Clerk) (op : Operation) (key : Bytes) (val_size : ℕ) : Type 0 where
  pub flag : load32 c.send_buf 0 ≡ client_done
  pub request : Arrived c.send_buf op key val_size

-- The clerk when it starts on a request.
abbrev pub started : Clerk → Clerk
started c = record c { send_buf = set_header c.send_buf clerk_done }

pub started-Arrived :
    {c : Clerk} {op : Operation} {key : Bytes} {n : ℕ}
    → HasRequest c op key n
    → Arrived (started c).send_buf op key n
started-Arrived {c} {op} {key} {n} r = Arrived-set_header c.send_buf clerk_done op key n r.request

module _ {S T : Type 0} (nic : Nic) (db : DbOps S) (h : HashMapOps Meta T) where
  pub post_request-HasRequest :
      (x : Session S T) (buf : Mem) (len : ℕ) (op : Operation) (key : Bytes) (n : ℕ)
      → load32 buf 0 ≡ client_done
      → Arrived buf op key n
      → 8 + length key ≤ len
      → HasRequest (post_request nic db h buf len x).clerk op key n
  unfolding post_request
  post_request-HasRequest x buf len op key n f a l = record {
    flag = deliver_header nic buf x.clerk.send_buf len ∙ f;
    request = Arrived-deliver nic buf x.clerk.send_buf len op key n a l;
  }

  -- A clerk that has a request takes it up.
  pub turn-dispatch :
      (c : Clerk) (s : Server S T) (op : Operation) (key : Bytes) (n : ℕ)
      → HasRequest c op key n
      → turn db h c s ≡ dispatch db h (some op) (started c) s
  unfolding turn
  turn-dispatch c s op key n r = rw (r.flag, (started-Arrived r).op_field)

  -- A request that the clerk handles with a reply comes back to the client: the wait for the flag
  -- ends, the reply is whole, and the flag is ready for the next request.
  pub exchange :
      (y : Session S T) (op : Operation) (key : Bytes) (n : ℕ) (st : RequestStatus) (v : Bytes)
      (c : Clerk) (s : Server S T)
      → HasRequest y.clerk op key n
      → dispatch db h (some op) (started y.clerk) y.server ≡ done (replied c s)
      → c.send_buf ≡ put_reply (started y.clerk).send_buf 8 st v
      → length v ≤ 120
      → (buf : Mem) × (await nic db h y
          ≡ done (record { client = record y.client { local_buf = buf }; clerk = c; server = s }))
        × (load32 buf 0 ≡ client_done)
        × Answered buf st v
  unfolding await
  exchange y op key n st v c s r ran sent small =
      let sb : Mem = (started y.clerk).send_buf in
      let d : Mem = answer max_inline_size nic (put_reply sb 8 st v) y.client.local_buf in
      let (flag, ans) = answer_lem nic sb y.client.local_buf st v client_done small in
      let up : load32 d 0 ≡ clerk_done =
        flag ∙ load32-store32 y.clerk.send_buf 0 clerk_done (omega arith) in
      (
        set_header d client_done,
        rw (turn-dispatch y.clerk y.server op key n r, ran, sent, up),
        load32-store32 d 0 client_done (omega arith),
        ans,
      )

  pub await_aborted :
      (y : Session S T) (op : Operation) (key : Bytes) (n : ℕ)
      → HasRequest y.clerk op key n
      → dispatch db h (some op) (started y.clerk) y.server ≡ aborted
      → await nic db h y ≡ aborted
  unfolding await
  await_aborted y op key n r ran = rw (turn-dispatch y.clerk y.server op key n r, ran)
