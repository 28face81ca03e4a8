-- ===== src/Pmr/Deletes.antt =====
-- `SendDelete` of frontend/pmr/pmr.cc, from the client's call to its return.
use pmraccess.Base.{
  ℕ, ◌+◌, ◌≤◌, ◌≡◌, refl, sym, ◌∙◌, ap, true, Option, none, some, List, [], arith, if◌then◌else◌,
  length, bytes_eq, Bytes,
}
use pmraccess.Outcome.{done}
use pmraccess.Wire.{delete, ok, not_found, max_request}
use pmraccess.Wire.Transfer.{Arrived, fill_key-done}
use pmraccess.Rdma.Nic.{Nic}
use pmraccess.Store.{Meta, DbOps, DbLaws, HashMapOps}
use pmraccess.Pmr.State.{Server, Clerk}
use pmraccess.Pmr.Clerk.{dispatch, reply_with}
use pmraccess.Pmr.Client.{Session, send_delete}
use pmraccess.Pmr.Pending.{Entry}
use pmraccess.Pmr.Exchange.{started, started-Arrived}
use pmraccess.Pmr.Invariant.{Inv, Inv-buffers, contents, indexed_or}
use pmraccess.Pmr.Reads.{asked, asked-HasRequest, key_exchange}

module _ {S T : Type 0} (nic : Nic) (db : DbOps S) (h : HashMapOps Meta T) where
  dispatch_delete :
      (c : Clerk) (s : Server S T) (key : Bytes)
      → Arrived c.send_buf delete key 0
      → dispatch db h (some delete) c s
        ≡ reply_with db h
            (if (db.delete key s.db).0 then ok else not_found)
            []
            c
            (record s { db = (db.delete key s.db).1 })
  unfolding dispatch
  dispatch_delete c s key a = rw (a.key_field, a.key_bytes)

  module _ (view : S → Bytes → Option Bytes) (laws : DbLaws db view) where
    -- In a session whose invariant holds, a `SendDelete` for a key of at most 4080 bytes returns
    -- true, unbinds the key in the store alone, and leaves the index and all else of the server. So
    -- a reader sees what the index has as before, and of the store all but the deleted key; the
    -- invariant holds again.
    pub send_delete_lem :
        (x : Session S T) (es : List Entry) (slot : ℕ) (key : Bytes)
        → Inv h x es slot
        → 16 + length key ≤ max_request
        → (y : Session S T) × (send_delete nic db h key x ≡ done (true, y))
          × Inv h y es slot
          × ((j : Bytes)
              → contents h view y.server j
                ≡ indexed_or x.server.region j
                    (h.find j x.server.map)
                    (if bytes_eq key j then none else view x.server.db j))
          × (y.server ≡ record (x.server) { db = (db.delete key x.server.db).1 })
    unfolding send_delete asked
    send_delete_lem x es slot key inv small =
        let c : Clerk = started (asked nic db h delete key x).clerk in
        let s : Server S T = x.server in
        let ran : dispatch db h (some delete) c s
            ≡ reply_with db h (if (db.delete key s.db).0 then ok else not_found) [] c
                (record s { db = (db.delete key s.db).1 }) =
          dispatch_delete c s key
            (started-Arrived (asked-HasRequest nic db h delete key x inv.flag small)) in
        let (buf, sb, waited, up, ans) =
          key_exchange nic db h delete key x ok [] (record s { db = (db.delete key s.db).1 })
            inv.flag small (omega arith) (rw (laws.delete_ok key (s.db)) at ran) in
        let y : Session S T = record {
          client = record (x.client) { local_buf = buf };
          clerk = record (x.clerk) { send_buf = sb };
          server = record s { db = (db.delete key s.db).1 };
        } in
        let inv' : Inv h y es slot = Inv-buffers h x es slot buf sb (db.delete key s.db).1 inv up in
        (
          y,
          rw (
            fill_key-done max_request x.client.local_buf delete key small,
            waited,
            ans.status_field,
          ),
          inv',
          λ j. ap (indexed_or s.region j (h.find j s.map)) (laws.delete_lem key (s.db) j),
          refl,
        )

    -- A deleted key that the index holds is not gone: in a session whose invariant holds, and for a
    -- key of at most 4080 bytes, `SendDelete` returns true, and the next reader sees the old value.
    pub send_delete_stale :
        (x : Session S T) (es : List Entry) (slot : ℕ) (key : Bytes) (m : Meta)
        → Inv h x es slot
        → 16 + length key ≤ max_request
        → h.find key x.server.map ≡ some m
        → (y : Session S T) × (send_delete nic db h key x ≡ done (true, y))
          × (contents h view y.server key ≡ contents h view x.server key)
          × ¬ (contents h view y.server key ≡ none)
    send_delete_stale x es slot key m inv small indexed =
        let (y, ran, inv', sees, left) = send_delete_lem x es slot key inv small in
        (
          y,
          ran,
          sees key ∙ same (h.find key x.server.map) _ _ indexed,
          λ gone. none_some (h.find key x.server.map) _ indexed (sym (sees key) ∙ gone),
        )
      where
        same :
            (o : Option Meta) (a b : Option Bytes)
            → o ≡ some m
            → indexed_or x.server.region key o a ≡ indexed_or x.server.region key o b
        same none a b p = cc
        same (some m') a b p = refl

        none_some :
            (o : Option Meta) (a : Option Bytes)
            → o ≡ some m
            → indexed_or x.server.region key o a ≡ none
            → ⊥
        none_some none a p q = cc
        none_some (some m') a p q = cc
