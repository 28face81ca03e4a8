-- ===== src/Pmem/Exchange.antt =====
-- A request and its reply between `PMemClient` and `PMemClerk` of frontend/pmem/pmem.cc.
use pmraccess.Base.{ℕ, ◌+◌, ◌≤◌, ◌≡◌, ◌∙◌, some, arith, length, Bytes, Mem, load32, load32-store32}
use pmraccess.Outcome.{done}
use pmraccess.Wire.{Operation, RequestStatus, client_done, clerk_done, put_reply, max_inline_size}
use pmraccess.Wire.Transfer.{
  deliver, answer, set_header, Arrived, Arrived-deliver, Arrived-set_header, deliver_header,
  Answered, answer_lem,
}
use pmraccess.Rdma.Nic.{Nic}
use pmraccess.Store.{DbOps}
use pmraccess.Pmem.{Session, replied, dispatch, turn, await, collect}

-- A buffer in which a client has put a request and its flag.
pub record Requested (m : Mem) (op : Operation) (key : Bytes) (n : ℕ) : Type 0 where
  pub flag : load32 m 0 ≡ client_done
  pub request : Arrived m op key n

pub Requested-deliver :
    (nic : Nic) (buf dst : Mem) (len : ℕ) (op : Operation) (key : Bytes) (n : ℕ)
    → load32 buf 0 ≡ client_done
    → Arrived buf op key n
    → 8 + length key ≤ len
    → Requested (deliver nic buf dst len) op key n
Requested-deliver nic buf dst len op key n f a l = record {
  flag = deliver_header nic buf dst len ∙ f;
  request = Arrived-deliver nic buf dst len op key n a l;
}

module _ {S : Type 0} (db : DbOps S) where
  pub turn-dispatch :
      (m : Mem) (s : S) (op : Operation) (key : Bytes) (n : ℕ)
      → Requested m op key n
      → turn db m s ≡ dispatch db (some op) (set_header m clerk_done) s
  unfolding turn
  turn-dispatch m s op key n r =
      rw (r.flag, (Arrived-set_header m clerk_done op key n r.request).op_field)

module _ {S : Type 0} (nic : Nic) (db : DbOps S) where
  -- A request that the clerk answers comes back to the client whole, and the flag is ready.
  pub pmem_exchange :
      (y : Session S) (op : Operation) (key : Bytes) (n : ℕ) (st : RequestStatus) (v : Bytes)
      (s : S)
      → Requested y.clerk_buf op key n
      → dispatch db (some op) (set_header y.clerk_buf clerk_done) y.db
        ≡ done (replied (put_reply (set_header y.clerk_buf clerk_done) 8 st v) s)
      → length v ≤ 120
      → (buf : Mem) × (await nic db y
          ≡ done (record y {
            client_buf = buf;
            clerk_buf = put_reply (set_header y.clerk_buf clerk_done) 8 st v;
            db = s;
          }))
        × (load32 buf 0 ≡ client_done)
        × Answered buf st v
  unfolding await collect
  pmem_exchange y op key n st v s r ran small =
      let sb : Mem = set_header y.clerk_buf clerk_done in
      let d : Mem = answer max_inline_size nic (put_reply sb 8 st v) y.client_buf in
      let (flag, ans) = answer_lem nic sb y.client_buf st v client_done small in
      let up : load32 d 0 ≡ clerk_done =
        flag ∙ load32-store32 y.clerk_buf 0 clerk_done (omega arith) in
      (
        set_header d client_done,
        rw (turn-dispatch db y.clerk_buf y.db op key n r, ran, up),
        load32-store32 d 0 client_done (omega arith),
        ans,
      )
