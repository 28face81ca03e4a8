-- ===== src/Pmr/Reads.antt =====
-- `SendGet` of frontend/pmr/pmr.cc, from the client's call to its return.
use pmraccess.Base.{
  ℕ, ◌+◌, ◌≤◌, ◌≡◌, refl, ◌∙◌, ap, Option, none, some, List, [], arith, length, Bytes, Mem, load,
  load32,
}
use pmraccess.Outcome.{done, aborted}
use pmraccess.Wire.{
  Operation, get, RequestStatus, ok, not_found, client_done, u16, put_key, put_reply, max_request,
  send_buf_size,
}
use pmraccess.Wire.Transfer.{
  Arrived, Answered, put_key-Arrived, put_key_header, fill_key-done, put_value-done,
}
use pmraccess.Rdma.Nic.{Nic}
use pmraccess.Store.{Meta, GetResult, found, missing, thrown, DbOps, DbLaws, HashMapOps}
use pmraccess.Pmr.State.{Server, Clerk}
use pmraccess.Pmr.Clerk.{dispatch, handle_get, reply_get, reply_value, reply_with}
use pmraccess.Pmr.Client.{Session, await, post_request, send_get}
use pmraccess.Pmr.Pending.{Entry}
use pmraccess.Pmr.Exchange.{
  HasRequest, started, started-Arrived, post_request-HasRequest, exchange, await_aborted,
}
use pmraccess.Pmr.Invariant.{Inv, Inv-buffers, contents, indexed_or}

module _ {S T : Type 0} (nic : Nic) (db : DbOps S) (h : HashMapOps Meta T) where
  -- The session in which the request for a key stands in the clerk's buffer.
  unfoldable pub asked : Operation → Bytes → Session S T → Session S T
  asked op key x =
      post_request nic db h (put_key x.client.local_buf op key) (u16 (8 + u16 (length key))) x

  pub asked-HasRequest :
      (op : Operation) (key : Bytes) (x : Session S T)
      → load32 x.client.local_buf 0 ≡ client_done
      → 16 + length key ≤ max_request
      → HasRequest (asked op key x).clerk op key 0
  unfolding asked
  asked-HasRequest op key x f small =
      post_request-HasRequest nic db h x (put_key x.client.local_buf op key)
        (u16 (8 + u16 (length key))) op key 0 (put_key_header x.client.local_buf op key ∙ f)
        (put_key-Arrived x.client.local_buf op key (omega arith)) (omega arith)

  -- What the clerk does with a request for a key and answers, the client gets.
  pub key_exchange :
      (op : Operation) (key : Bytes) (x : Session S T) (st : RequestStatus) (v : Bytes)
      (s : Server S T)
      → load32 x.client.local_buf 0 ≡ client_done
      → 16 + length key ≤ max_request
      → length v ≤ 120
      → dispatch db h (some op) (started (asked op key x).clerk) x.server
        ≡ reply_with db h st v (started (asked op key x).clerk) s
      → (buf : Mem) × (sb : Mem) × (await nic db h (asked op key x)
          ≡ done (record {
            client = record (x.client) { local_buf = buf };
            clerk = record (x.clerk) { send_buf = sb };
            server = s;
          }))
        × (load32 buf 0 ≡ client_done)
        × Answered buf st v
  unfolding asked post_request
  key_exchange op key x st v s f small fits ran =
      let c : Clerk = started (asked op key x).clerk in
      let (buf, waited, up, ans) =
        exchange nic db h (asked op key x) op key 0 st v
          (record c { send_buf = put_reply (c.send_buf) 8 st v }) s
          (asked-HasRequest op key x f small) ran refl fits in
      (buf, put_reply (c.send_buf) 8 st v, waited, up, ans)

  pub dispatch_get :
      (c : Clerk) (s : Server S T) (key : Bytes)
      → Arrived c.send_buf get key 0
      → dispatch db h (some get) c s
        ≡ reply_get db h (length key) (h.find key s.map) (db.get key s.db) c s
  unfolding dispatch
  dispatch_get c s key a = simp (handle_get, a.key_field, a.key_bytes)

  reply_value-done :
      (v : Bytes) (c : Clerk) (s : Server S T)
      → 16 + length v ≤ send_buf_size
      → reply_value db h v c s ≡ reply_with db h ok v c s
  unfolding reply_value
  reply_value-done v c s h' = rw (put_value-done send_buf_size c.send_buf v h')

  reply_get-thrown :
      (n : ℕ) (o : Option Meta) (c : Clerk) (s : Server S T)
      → o ≡ none
      → reply_get db h n o thrown c s ≡ aborted
  unfolding reply_get
  reply_get-thrown n none c s e = refl
  reply_get-thrown n (some m) c s e = cc

  reply_get-missing :
      (n : ℕ) (o : Option Meta) (c : Clerk) (s : Server S T)
      → o ≡ none
      → reply_get db h n o missing c s ≡ reply_with db h not_found [] c s
  unfolding reply_get
  reply_get-missing n none c s e = refl
  reply_get-missing n (some m) c s e = cc

  pub reply_get-value :
      (key : Bytes) (o : Option Meta) (old : Option Bytes) (g : GetResult) (c : Clerk)
      (s : Server S T) (v : Bytes)
      → 16 + length v ≤ send_buf_size
      → indexed_or s.region key o old ≡ some v
      → (old ≡ some v → g ≡ found v)
      → reply_get db h (length key) o g c s ≡ reply_with db h ok v c s
  unfolding reply_get
  reply_get-value key (some m) old g c s v short e k =
      let same : load s.region (m.addr + length key) m.value_size ≡ v = cc in
      ap (λ w. reply_value db h w c s) same ∙ reply_value-done v c s short
  reply_get-value key none old g c s v short e k = rw (k e) (reply_value-done v c s short)

  module _ (view : S → Bytes → Option Bytes) (laws : DbLaws db view) where
    -- In a session whose invariant holds, a `SendGet` for a key of at most 4080 bytes that is
    -- bound to a value of at most 120 bytes, in the index or in the store, returns true with that value: the
    -- newest record that the clerk has indexed, also where the store has an older one. The server
    -- is left as it was, and the invariant holds again.
    pub send_get_value :
        (x : Session S T) (es : List Entry) (slot : ℕ) (key v : Bytes)
        → Inv h x es slot
        → 16 + length key ≤ max_request
        → contents h view x.server key ≡ some v
        → length v ≤ 120
        → (y : Session S T) × (send_get nic db h key x ≡ done (some v, y))
          × (y.server ≡ x.server)
          × Inv h y es slot
    unfolding send_get asked
    send_get_value x es slot key v inv small bound fits =
        let c : Clerk = started (asked get key x).clerk in
        let s : Server S T = x.server in
        let ran : dispatch db h (some get) c s ≡ reply_with db h ok v c s =
          dispatch_get c s key (started-Arrived (asked-HasRequest get key x inv.flag small))
          ∙ reply_get-value key (h.find key s.map) (view s.db key) (db.get key s.db) c s v
              (omega arith) bound (laws.get_lem key v s.db) in
        let (buf, sb, waited, up, ans) = key_exchange get key x ok v s inv.flag small fits ran in
        (
          record {
            client = record (x.client) { local_buf = buf };
            clerk = record (x.clerk) { send_buf = sb };
            server = s;
          },
          rw (
            fill_key-done max_request x.client.local_buf get key small,
            waited,
            ans.status_field,
            ans.size_field,
            ans.value_bytes,
          ),
          refl,
          Inv-buffers h x es slot buf sb (s.db) inv up,
        )

    -- In a session whose invariant holds, a `SendGet` for a key of at most 4080 bytes that is not
    -- in the index, and for which `Get` of the store returns false, returns false, and the
    -- invariant holds again.
    pub send_get_absent :
        (x : Session S T) (es : List Entry) (slot : ℕ) (key : Bytes)
        → Inv h x es slot
        → 16 + length key ≤ max_request
        → h.find key x.server.map ≡ none
        → db.get key x.server.db ≡ missing
        → (y : Session S T) × (send_get nic db h key x ≡ done (none, y))
          × (y.server ≡ x.server)
          × Inv h y es slot
    unfolding send_get asked
    send_get_absent x es slot key inv small absent e =
        let c : Clerk = started (asked get key x).clerk in
        let s : Server S T = x.server in
        let req : HasRequest (asked get key x).clerk get key 0 =
          asked-HasRequest get key x inv.flag small in
        let here : dispatch db h (some get) c s ≡ reply_with db h not_found [] c s =
          dispatch_get c s key (started-Arrived req)
          ∙ rw e (reply_get-missing (length key) (h.find key s.map) c s absent) in
        let (buf, sb, waited, up, ans) =
          key_exchange get key x not_found [] s inv.flag small (omega arith) here in
        (
          record {
            client = record (x.client) { local_buf = buf };
            clerk = record (x.clerk) { send_buf = sb };
            server = s;
          },
          rw (fill_key-done max_request x.client.local_buf get key small, waited, ans.status_field),
          refl,
          Inv-buffers h x es slot buf sb (s.db) inv up,
        )

    -- In a session whose invariant holds, a `SendGet` for a key of at most 4080 bytes that is not
    -- in the index, and for which `Get` of the store throws (as that of `CuckooDB` does for an
    -- absent key), takes the server down.
    pub send_get_thrown :
        (x : Session S T) (es : List Entry) (slot : ℕ) (key : Bytes)
        → Inv h x es slot
        → 16 + length key ≤ max_request
        → h.find key x.server.map ≡ none
        → db.get key x.server.db ≡ thrown
        → send_get nic db h key x ≡ aborted
    unfolding send_get asked
    send_get_thrown x es slot key inv small absent e =
        let c : Clerk = started (asked get key x).clerk in
        let s : Server S T = x.server in
        let req : HasRequest (asked get key x).clerk get key 0 =
          asked-HasRequest get key x inv.flag small in
        let here : dispatch db h (some get) c s ≡ aborted =
          dispatch_get c s key (started-Arrived req)
          ∙ rw e (reply_get-thrown (length key) (h.find key s.map) c s absent) in
        rw (
          fill_key-done max_request x.client.local_buf get key small,
          await_aborted nic db h (asked get key x) get key 0 req here,
        )
