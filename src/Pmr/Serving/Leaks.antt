-- ===== src/Pmr/Serving/Leaks.antt =====
-- `SendClose` of frontend/pmr/pmr.cc by a client that has written nothing to its chunk.
use pmraccess.Base.{ℕ, ◌*◌, ◌≡◌, refl, ◌∙◌, true, false, Option, some, List, [], Bytes, Mem}
use pmraccess.Outcome.{done}
use pmraccess.Wire.{max_async_size}
use pmraccess.Rdma.Nic.{Nic}
use pmraccess.Store.{Meta, DbOps, DbLaws, HashMapOps, HashMapLaws}
use pmraccess.Uring.{UringOps, UringLaws, IOuring}
use pmraccess.Bitset.Laws.{test}
use pmraccess.Pmr.State.{Server}
use pmraccess.Pmr.Client.{send_close}
use pmraccess.Pmr.Closing.{send_close_step}
use pmraccess.Pmr.Drain.{passes}
use pmraccess.Pmr.Freeing.{waiting_count}
use pmraccess.Pmr.Draining.{passes-drain}
use pmraccess.Pmr.Safety.{IsFresh}
use pmraccess.Pmr.Serving.{Desk, Hall, session, Change, opened, Runs}
use pmraccess.Pmr.Serving.Answers.{Runs-Well}

module _ {K S T : Type 0} (u : UringOps K) {entries : ℕ} (laws : UringLaws u entries) (nic : Nic)
    (db : DbOps S) (h : HashMapOps Meta T) (map_laws : HashMapLaws h)
    (view : S → Bytes → Option Bytes) (store_laws : DbLaws db view) where
  -- On a server with a fresh ring and an empty index, after any steps of its clients and of
  -- `UringRun` as `Runs` has them, a `SendClose` of a connected client that has written nothing to
  -- its chunk leaves the server as it was, and `UringRun` does not free the chunk of that client:
  -- also when its passes have emptied the queue and the ring, the chunk's bit is still set.
  pub Runs-close_leak :
      (k : K) (qd : ℕ) (region : Mem) (store : S) (cs : List Change) (x : Hall K S T) (i : ℕ)
      (d : Desk)
      → IsFresh u laws db h k qd
      → Runs u nic db h view (opened k qd h.empty region store) cs x
      → x.desks i ≡ some d
      → d.clerk.buf_head ≡ 0
      → (slot : ℕ) × (r : IOuring K) × (s : Server S T) × (d.clerk.chunk_offset
          ≡ max_async_size * slot)
        × (send_close nic db h (session d x.server) ≡ done x.server)
        × (passes u (waiting_count u laws x.ring x.server) x.ring x.server ≡ done (r, s))
        × (s.queue ≡ [])
        × (r.inflight ≡ 0)
        × (test s.bitmap slot ≡ true)
  Runs-close_leak k qd region store cs x i d f run here empty =
      let (es, slot, w, sees) =
        Runs-Well u laws nic db h map_laws view store_laws k qd region store cs x f run in
      let inv = w.each i d here in
      let (r, s, ran, drained) = passes-drain u laws x.ring x.server w.drain in
      (
        slot i,
        r,
        s,
        inv.chunk_at,
        send_close_step nic db h (session d x.server) (es i) (slot i) false inv (rw empty refl),
        ran,
        drained.queue_done,
        drained.ring_done,
        drained.bits (slot i) ∙ rw (w.unqueued i d here) inv.slot_used,
      )
