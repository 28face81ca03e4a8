-- ===== src/Tests/Batches.antt =====
-- The properties of frontend/group and frontend/pmem at concrete inputs.
use pmraccess.Base.{
  ℕ, ◌+◌, ◌^◌, ◌<◌, ◌≤◌, ◌≡◌, refl, inl, false, List, [], ◌∷◌, ◌++◌, arith, bytes_eq, if◌then◌else◌,
  Bytes, load, store, load32, none, some,
}
use pmraccess.Outcome.{done}
use pmraccess.Wire.{put, max_async_size, client_done, put_request, put_write}
use pmraccess.Wire.RoundTrip.{request_roundtrip}
use pmraccess.RingLog.{new_log}
use pmraccess.Group.{Writer, WriteBatch, build_batch_group, pop_until}
use pmraccess.Group.Batch.{
  AllFit, size_of, taken, layout, total_size, last_of, Holds, build_batch_group_lem,
}
use pmraccess.Group.Commit.{after_puts, group_commit_lem, batch_overflow}
use pmraccess.Group
use pmraccess.Group.Solo.{group_write_lem, group_delete_lem}
use pmraccess.Pmem
use pmraccess.Pmem.{next_head}
use pmraccess.Pmem.Operations.{IsIdle, pmem_write_lem}
use pmraccess.Tests.Data.{copying_nic, Db, db, view, db_laws, zeros, some_key, some_val, one_pair}
use pmraccess.Tests.Sessions.{client_ready, client_ready-flag, other_key}

-- The batches.
abbrev pub sized_writer : ℕ → ℕ → Writer
sized_writer id n = record { id = id; local_buf = put_request zeros 8 put 2 n }

sized_writer-size : (id n : ℕ) → n < 2 ^ 32 → size_of (sized_writer id n) ≡ 10 + n
sized_writer-size id n h =
    let (o, k, v) = request_roundtrip zeros 8 put 2 n (omega arith) h in omega (arith, k, v)

abbrev pub empty_batch : WriteBatch
empty_batch = record { batch_length = 0; keys = []; metas = []; buffer = zeros }

abbrev pub two_writers : List Writer
two_writers = sized_writer 4 100 ∷ sized_writer 5 50 ∷ []

pub two_writers-AllFit : AllFit two_writers
two_writers-AllFit = (
  omega (arith, sized_writer-size 4 100 (omega arith)),
  (omega (arith, sized_writer-size 5 50 (omega arith)), tt),
)

two_writers-room : total_size (taken 0 two_writers) ≤ max_async_size
unfolding taken
two_writers-room =
    ground (arith, sized_writer-size 4 100 (omega arith), sized_writer-size 5 50 (omega arith))

pub two_writers-fit : (build_batch_group two_writers empty_batch).0.batch_length ≤ max_async_size
two_writers-fit =
    let (holds, size, bound, last) =
      build_batch_group_lem two_writers empty_batch two_writers-AllFit in
    omega (arith, size, two_writers-room)

build_batch_group_lem_example :
    let r = build_batch_group two_writers empty_batch in
    Holds r.0 (layout 0 (taken 0 two_writers))
    × (r.0.batch_length ≡ total_size (taken 0 two_writers))
    × (r.0.batch_length < max_async_size + 4096)
    × (r.1 ≡ last_of (taken 0 two_writers) none)
build_batch_group_lem_example = build_batch_group_lem two_writers empty_batch two_writers-AllFit

group_commit_lem_example :
    let b = (build_batch_group two_writers empty_batch).0 in
    ((j : Bytes)
      → view (db.put_batch b.keys b.metas b.buffer b.batch_length one_pair).1 j
        ≡ after_puts (taken 0 two_writers) j (view one_pair j))
    × ((i : ℕ) → max_async_size ≤ i → b.buffer i ≡ empty_batch.buffer i)
group_commit_lem_example =
    group_commit_lem db view db_laws two_writers empty_batch one_pair two_writers-AllFit
      two_writers-room

abbrev eight_writers : List Writer
eight_writers =
    sized_writer 0 4000
    ∷ sized_writer 1 4000
    ∷ sized_writer 2 4000
    ∷ sized_writer 3 4000
    ∷ sized_writer 4 4000
    ∷ sized_writer 5 4000
    ∷ sized_writer 6 4000
    ∷ sized_writer 7 4000
    ∷ []

big : (id : ℕ) → size_of (sized_writer id 4000) ≡ 4010
big id = sized_writer-size id 4000 (omega arith)

big-fits : (id : ℕ) → size_of (sized_writer id 4000) ≤ 4096
big-fits id = omega (arith, big id)

eight_writers-size : total_size eight_writers ≡ 32080
eight_writers-size = omega (arith, big 0, big 1, big 2, big 3, big 4, big 5, big 6, big 7)

nine_writers-AllFit : AllFit (eight_writers ++ sized_writer 8 4000 ∷ [])
nine_writers-AllFit = (
  big-fits 0,
  (
    big-fits 1,
    (
      big-fits 2,
      (big-fits 3, (big-fits 4, (big-fits 5, (big-fits 6, (big-fits 7, (big-fits 8, tt)))))),
    ),
  ),
)

batch_overflow_example :
    let b = (build_batch_group (eight_writers ++ sized_writer 8 4000 ∷ []) empty_batch).0 in
    (b.batch_length ≡ total_size eight_writers + size_of (sized_writer 8 4000))
    × (max_async_size < b.batch_length)
batch_overflow_example =
    batch_overflow eight_writers [] (sized_writer 8 4000) empty_batch nine_writers-AllFit
      (omega (arith, eight_writers-size)) (omega (arith, eight_writers-size, big 8))

abbrev pub group_session : Group.Clerk.Session Db
group_session = record {
  client_buf = client_ready;
  clerk_buf = zeros;
  server = record { db = one_pair; log = new_log; batch = empty_batch };
}

group_write_lem_example :
    (y : Group.Clerk.Session Db) × (Group.Clerk.send_write copying_nic db put other_key some_val
        group_session
      ≡ done y)
    × ((j : Bytes)
        → view y.server.db j ≡ (if bytes_eq other_key j then some some_val else view one_pair j))
    × (load32 y.client_buf 0 ≡ client_done)
group_write_lem_example =
    group_write_lem copying_nic db view db_laws group_session put other_key some_val (inl refl)
      client_ready-flag (omega arith)

group_delete_lem_example :
    (y : Group.Clerk.Session Db) × (Group.Clerk.send_delete copying_nic db some_key group_session
      ≡ done (false, y))
    × (view y.server.db some_key ≡ some [])
group_delete_lem_example =
    group_delete_lem copying_nic db view db_laws group_session some_key client_ready-flag
      (omega arith)

-- The persistent ring.
abbrev pub pmem_session : Pmem.Session Db
pmem_session = record {
  client_buf = client_ready;
  buf_head = 16777210;
  clerk_buf = zeros;
  ring = zeros;
  db = one_pair;
}

pub pmem_session-IsIdle : IsIdle pmem_session
pmem_session-IsIdle = record { flag = client_ready-flag; head = omega arith }

pmem_write_lem_example :
    let at = next_head 16777210 (8 + 2 + 3) in
    (y : Pmem.Session Db) × (Pmem.send_write copying_nic db put other_key some_val pmem_session
      ≡ done y)
    × IsIdle y
    × ((j : Bytes)
        → view y.db j ≡ (if bytes_eq other_key j then some some_val else view one_pair j))
    × (load y.ring (at + 8) 2 ≡ other_key)
    × (load y.ring (at + 8 + 2) 3 ≡ some_val)
    × (y.buf_head ≡ at + 8 + 2 + 3)
    × (y.ring ≡ store zeros at (load (put_write client_ready put other_key some_val) 8 13))
pmem_write_lem_example =
    pmem_write_lem copying_nic db view db_laws pmem_session put other_key some_val (inl refl)
      pmem_session-IsIdle (omega arith)
