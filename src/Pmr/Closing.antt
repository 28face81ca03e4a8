-- ===== src/Pmr/Closing.antt =====
-- `SendClose` of frontend/pmr/pmr.cc, and what the clerk's last turn leaves.
use pmraccess.Base.{
  ℕ, ◌<◌, ◌≡◌, refl, ◌∙◌, ap, Bool, true, false, Option, none, some, List, [], ◌∷◌, ◌++◌, arith,
  if◌then◌else◌, ltb, lt→ltb, Bytes, Mem,
}
use pmraccess.Outcome.{done}
use pmraccess.Wire.{close, max_async_size, u16, fill_bare}
use pmraccess.Wire.Transfer.{fill_bare-Arrived, fill_bare_header}
use pmraccess.Rdma.Nic.{Nic}
use pmraccess.Store.{Meta, DbOps, DbLaws, HashMapOps, HashMapLaws}
use pmraccess.Pmr.State.{Server, Clerk}
use pmraccess.Pmr.Clerk.{dispatch, flush, copy_chunk}
use pmraccess.Pmr.Client.{Session, post_request, send_close}
use pmraccess.Pmr.Pending.{Entry, pending, AllStored}
use pmraccess.Pmr.Exchange.{HasRequest, started, post_request-HasRequest, turn-dispatch}
use pmraccess.Pmr.Invariant.{Inv, contents, pending_or}
use pmraccess.Pmr.Flush.{view-flush, find-flush, contents-flush, unless_pending}

module _ {S T : Type 0} (nic : Nic) (db : DbOps S) (h : HashMapOps Meta T) where
  abbrev pub closing : Bool → Clerk → Server S T → Server S T
  closing true c s = flush db h max_async_size c s
  closing false c s = s

  pub send_close_step :
      (x : Session S T) (es : List Entry) (slot : ℕ) (used : Bool)
      → Inv h x es slot
      → ltb 0 x.clerk.buf_head ≡ used
      → send_close nic db h x ≡ done (closing used x.clerk x.server)
  unfolding send_close dispatch post_request flush
  send_close_step x es slot used inv e =
      let y : Session S T =
        post_request nic db h (fill_bare (x.client.local_buf) close) (u16 8) x in
      let req : HasRequest (y.clerk) close [] 0 =
        post_request-HasRequest nic db h x (fill_bare (x.client.local_buf) close) (u16 8) close [] 0
          (fill_bare_header (x.client.local_buf) close ∙ inv.flag)
          (fill_bare-Arrived (x.client.local_buf) close) (omega arith) in
      rw (turn-dispatch nic db h (y.clerk) (y.server) close [] 0 req, e)
        (same used ((started (y.clerk)).send_buf))
    where
      same :
          (b : Bool) (sb : Mem)
          → done (
              if b
              then flush db h max_async_size (record (x.clerk) { send_buf = sb }) x.server
              else x.server)
            ≡ done (closing b x.clerk x.server)
      same true sb = refl
      same false sb = refl

module _ {S T : Type 0} (nic : Nic) (db : DbOps S) (h : HashMapOps Meta T) (laws : HashMapLaws h)
    (view : S → Bytes → Option Bytes) (store_laws : DbLaws db view) where
  pub none_stored :
      (region : Mem) (chunk : ℕ) (es : List Entry) (j : Bytes)
      → AllStored region chunk 0 es
      → pending es j ≡ none
  unfolding pending
  none_stored region chunk [] j a = refl
  none_stored region chunk (e ∷ es) j a = absurd (omega (arith, a.0.inside))

  -- After `SendClose` of a session that has written to its chunk, and whose invariant holds, a
  -- reader sees every key as before, no key of its pending records is left in the index but the
  -- store binds it to the last of them, and the chunk stands in the queue.
  pub send_close_lem :
      (x : Session S T) (es : List Entry) (slot : ℕ)
      → Inv h x es slot
      → 0 < x.clerk.buf_head
      → (s : Server S T) × (send_close nic db h x ≡ done s)
        × ((j : Bytes) → contents h view s j ≡ contents h view x.server j)
        × ((j : Bytes) (e : Entry)
            → pending es j ≡ some e
            → (h.find j s.map ≡ none) × (view s.db j ≡ some e.val))
        × (s.queue
            ≡ x.server.queue
              ++ record {
                buf = copy_chunk x.server.region x.clerk.chunk_offset;
                size = x.clerk.buf_head;
                chunk = slot;
              }
                ∷ [])
  unfolding flush
  send_close_lem x es slot inv used = (
    flush db h max_async_size (x.clerk) (x.server),
    send_close_step nic db h x es slot true inv (lt→ltb 0 (x.clerk.buf_head) used),
    λ j. contents-flush db h laws view store_laws x es slot max_async_size j inv,
    λ j e p. (
      find-flush db h laws view store_laws x.clerk x.server es max_async_size j inv.keys
          ∙ ap (λ o. unless_pending o (h.find j x.server.map)) p,
      view-flush db h laws view store_laws x.clerk x.server es max_async_size j inv.keys
            inv.descriptors (omega (arith, inv.room)) inv.stored
          ∙ ap (λ o. pending_or o (view x.server.db j)) p,
    ),
    ap
        (λ (n : ℕ).
          x.server.queue
          ++ record {
            buf = copy_chunk x.server.region x.clerk.chunk_offset;
            size = x.clerk.buf_head;
            chunk = n;
          }
            ∷ [])
        (omega (arith, inv.chunk_at)),
  )
