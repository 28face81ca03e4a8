-- ===== src/Tests/Lines.antt =====
-- The clerks of frontend/group at a concrete state: one has written a batch of two, another waits for it.
use pmraccess.Base.{ℕ, ◌≤◌, ◌≡◌, refl, Option, List, ◌++◌, occurrences, Bytes}
use pmraccess.RingLog.{new_log}
use pmraccess.Group.{Writer, build_batch_group}
use pmraccess.Group.Commit.{after_puts}
use pmraccess.Group.Clerk.{Server}
use pmraccess.Group.Queue.{
  System, ids, idle, join, build, put_out, writing, joins, builds, writes, Reachable, start, later,
  at_rest,
}
use pmraccess.Group.Line.{at_same}
use pmraccess.Group.Threads.{one_leader, group_commit_serial}
use pmraccess.Tests.Data.{Db, db, view, db_laws, one_pair}
use pmraccess.Tests.Batches.{sized_writer, empty_batch, two_writers-AllFit, two_writers-fit}
use pmraccess.Group.Room.{BatchesFit}
use pmraccess.Wire.{max_async_size}

abbrev server : Server Db
server = record { db = one_pair; log = new_log; batch = empty_batch }

abbrev both : System Db
both = join (sized_writer 5 50) (join (sized_writer 4 100) (at_rest server))

abbrev last : Option ℕ
last = (build_batch_group both.queue both.server.batch).1

abbrev written : System Db
written = put_out db 4 last (build 4 both)

written-Reachable : Reachable db (at_rest server) written
unfolding join build
written-Reachable =
    later
      (later
        (later (later start (joins (sized_writer 4 100) refl (two_writers-AllFit.0)))
          (joins (sized_writer 5 50) refl (two_writers-AllFit.1.0)))
        (builds 4 refl))
      (writes 4 last (at_same both.pc 4 (writing last)))

written-fits : BatchesFit db written-Reachable
unfolding join written-Reachable
written-fits = ((((tt, tt), tt), two_writers-fit), tt)

one_leader_example : ◌≡◌ {A = ℕ} 4 4
unfolding put_out
one_leader_example = one_leader db view db_laws server written 4 4 written-Reachable refl refl

group_commit_serial_example :
    ((before : List Writer) × (rest : List Writer) × (written.queue ≡ before ++ rest)
      × (written.joined ≡ written.stored ++ rest))
    × ((j : Bytes) → view written.server.db j ≡ after_puts written.stored j (view one_pair j))
    × ((i : ℕ)
        → written.pc i ≡ idle
        → occurrences i (ids written.stored) ≡ occurrences i (ids written.joined))
    × ((i : ℕ) → max_async_size ≤ i → written.server.batch.buffer i ≡ empty_batch.buffer i)
group_commit_serial_example =
    group_commit_serial db view db_laws server written written-Reachable written-fits
