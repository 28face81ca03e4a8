-- ===== src/Bench/Messaging.antt =====
-- A client of frontend/pmr in the place of a client of benchmark.cc, with a choice of when the thread of
-- `UringRun` runs: before each write, for as many passes as chunks wait. The passes are no part of the
-- client; the calls are those of `PMRClient`.
use pmraccess.Base.{ℕ, ◌+◌, ◌≡◌, refl, none, some, length, Bytes}
use pmraccess.Outcome.{Outcome, done, aborted, ◌>>=◌}
use pmraccess.Wire.{Operation, put, update}
use pmraccess.Rdma.Nic.{Nic}
use pmraccess.Store.{Meta, DbOps, HashMapOps}
use pmraccess.Uring.{UringOps}
use pmraccess.Pmr.Client.{Session, send_write, send_get, send_delete}
use pmraccess.Pmr.Drain.{passes}
use pmraccess.Pmr.Serving.{Desk, Hall, session, desk_of, seat}
use pmraccess.Bench.Clients.{ClientOps}

module _ {K S T : Type 0} (u : UringOps K) (nic : Nic) (db : DbOps S) (h : HashMapOps Meta T)
    (i : ℕ) where
  -- As many passes as chunks wait.
  unfoldable pub settle : Hall K S T → Outcome (Hall K S T)
  settle x = do
    r ← passes u (length x.server.queue + x.ring.inflight) x.ring x.server
    done (record x { ring = r.0; server = r.1 })

  -- A call of the client at the desk.
  unfoldable pub call_at :
      {A : Type 0}
      → (Session S T → Outcome (A × Session S T))
      → Hall K S T
      → Outcome (A × Hall K S T)
  call_at call x = elim (x.desks i) [
    | none ↦ aborted
    | some d ↦ do
      r ← call (session d x.server)
      done (r.0, seat i (some (desk_of (r.1))) (r.1).server x)
  ]

  unfoldable pub write_at : Operation → Bytes → Bytes → Hall K S T → Outcome (Hall K S T)
  unfolding settle call_at
  write_at op key val x = do
    z ← settle x
    r ← call_at (λ s. do y ← send_write nic db h op key val s; done (tt {0}, y)) z
    done (r.1)

  pub write_at_returns :
      (op : Operation) (key val : Bytes) (x z : Hall K S T) (d : Desk) (y : Session S T)
      → settle x ≡ done z
      → z.desks i ≡ some d
      → send_write nic db h op key val (session d z.server) ≡ done y
      → write_at op key val x ≡ done (seat i (some (desk_of y)) y.server z)
  unfolding write_at call_at
  write_at_returns op key val x z d y ran here wrote = rw (ran, call_at, here, wrote) refl

  abbrev pub pmr_client : ClientOps (Hall K S T)
  pmr_client = record {
    send_put = write_at put;
    send_update = write_at update;
    send_get = λ key. call_at (send_get nic db h key);
    send_delete = λ key. call_at (send_delete nic db h key);
  }
