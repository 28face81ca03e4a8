-- ===== src/Pmr/Lost.antt =====
-- `SendGet` of frontend/pmr/pmr.cc where the reply is longer than an inline message.
use pmraccess.Base.{
  ℕ, ◌+◌, ◌<◌, ◌≤◌, ◌≡◌, ◌∙◌, Option, some, List, arith, length, Bytes, Mem, load32, refl, ◌^◌,
}
use pmraccess.Outcome.{done, waiting}
use pmraccess.Wire.{
  Operation, RequestStatus, get, ok, client_done, max_request, max_inline_size, send_buf_size,
  put_reply,
}
use pmraccess.Wire.RoundTrip.{reply_roundtrip}
use pmraccess.Wire.Transfer.{answer, answer_refused, put_key_header, fill_key-done}
use pmraccess.Rdma.Nic.{Nic}
use pmraccess.Store.{Meta, DbOps, DbLaws, HashMapOps}
use pmraccess.Pmr.State.{Server, Clerk}
use pmraccess.Pmr.Clerk.{replied, dispatch, reply_with}
use pmraccess.Pmr.Client.{Session, await, send_get}
use pmraccess.Pmr.Pending.{Entry}
use pmraccess.Pmr.Exchange.{HasRequest, started, started-Arrived, turn-dispatch}
use pmraccess.Pmr.Invariant.{Inv, contents}
use pmraccess.Pmr.Reads.{asked, asked-HasRequest, dispatch_get, reply_get-value}

module _ {S T : Type 0} (nic : Nic) (db : DbOps S) (h : HashMapOps Meta T) where
  -- Of a reply with more than 120 bytes neither the record nor the flag reaches the client.
  await_refused :
      (y : Session S T) (op : Operation) (key : Bytes) (n : ℕ) (st : RequestStatus) (v : Bytes)
      (c : Clerk) (s : Server S T)
      → HasRequest y.clerk op key n
      → dispatch db h (some op) (started y.clerk) y.server ≡ done (replied c s)
      → c.send_buf ≡ put_reply (started y.clerk).send_buf 8 st v
      → 120 < length v
      → length v < 2 ^ 32
      → load32 y.client.local_buf 0 ≡ client_done
      → await nic db h y ≡ waiting
  unfolding await
  await_refused y op key n st v c s r ran sent long small f =
      let sb : Mem = (started y.clerk).send_buf in
      let (rs, rl, rv) = reply_roundtrip sb 8 st v small in
      let kept : answer max_inline_size nic (put_reply sb 8 st v) y.client.local_buf
          ≡ y.client.local_buf =
        answer_refused max_inline_size nic (put_reply sb 8 st v) y.client.local_buf
          (omega (arith, rl, long)) in
      rw (turn-dispatch nic db h y.clerk y.server op key n r, ran, sent, kept, f)

  module _ (view : S → Bytes → Option Bytes) (laws : DbLaws db view) where
    -- In a session whose invariant holds, over a store that keeps the laws of `DbLaws`, a `SendGet`
    -- for a key of at most 4080 bytes that is bound to a value of more than 120 bytes, for which the
    -- clerk's buffer has room, waits for ever: the clerk finds the value, but its reply is longer
    -- than an inline message.
    pub send_get_lost :
        (x : Session S T) (es : List Entry) (slot : ℕ) (key v : Bytes)
        → Inv h x es slot
        → 16 + length key ≤ max_request
        → contents h view x.server key ≡ some v
        → 120 < length v
        → 16 + length v ≤ send_buf_size
        → send_get nic db h key x ≡ waiting
    unfolding send_get asked
    send_get_lost x es slot key v inv small bound long room =
        let req : HasRequest (asked nic db h get key x).clerk get key 0 =
          asked-HasRequest nic db h get key x inv.flag small in
        let c : Clerk = started (asked nic db h get key x).clerk in
        let s : Server S T = x.server in
        let ran : dispatch db h (some get) c s ≡ reply_with db h ok v c s =
          dispatch_get nic db h c s key (started-Arrived req)
          ∙ reply_get-value nic db h key (h.find key s.map) (view s.db key) (db.get key s.db) c s v
              room bound (laws.get_lem key v s.db) in
        rw (
          fill_key-done max_request x.client.local_buf get key small,
          await_refused (asked nic db h get key x) get key 0 ok v
              (record c { send_buf = put_reply (c.send_buf) 8 ok v }) s req ran refl long
              (omega arith) (put_key_header x.client.local_buf get key ∙ inv.flag),
        )
