-- ===== src/Group.antt =====
-- frontend/group: the front end with group commit. Clerks queue their requests; the one at the front
-- writes a batch for all that it found.
pub mod Batch
pub mod Commit
pub mod Clerk
pub mod Solo
pub mod Queue
pub mod Places
pub mod Line
pub mod Order
pub mod Room
pub mod Serial
pub mod Threads
pub mod Progress
use pmraccess.Base.{
  ℕ, ◌+◌, Bool, true, false, Option, none, some, List, [], ◌∷◌, ◌++◌, leb, ◌==◌, if◌then◌else◌,
  Bytes, Mem, load, store,
}
use pmraccess.Wire.{
  header_size, ring_header, max_async_size, request_key_size, request_val_size, request_length,
}
use pmraccess.Store.{Meta, file_meta}

-- `struct Writer`: `id` stands for its address, `local_buf` is the buffer in which `request` lies.
-- The condition variable is left out: a clerk that is signalled looks at `done` and at the front.
pub record Writer : Type 0 where
  pub id : ℕ
  pub local_buf : Mem

-- `struct WriteBatch`. `buffer` is the memory from the address of the array `buffer` on: the
-- `MAX_ASYNC_SIZE` bytes of the array, and behind them whatever static data follows, which a batch
-- that is longer overwrites. So what the code does after such a batch is not claimed.
pub record WriteBatch : Type 0 where
  pub batch_length : ℕ
  pub keys : List Bytes
  pub metas : List Meta
  pub buffer : Mem

-- The body of the loop of `BuildBatchGroup` up to the test of the length.
unfoldable pub add_request : WriteBatch → Writer → WriteBatch
add_request b w =
    let key_size = request_key_size w.local_buf ring_header in
    let val_size = request_val_size w.local_buf ring_header in
    let len = request_length w.local_buf ring_header in
    record {
      batch_length = b.batch_length + len;
      keys = b.keys ++ load w.local_buf (ring_header + header_size) key_size ∷ [];
      metas = b.metas ++ file_meta 0 (b.batch_length + header_size) key_size val_size ∷ [];
      buffer = store b.buffer b.batch_length (load w.local_buf ring_header len);
    }

-- The loop, with the last writer taken so far (`none` for the uninitialised pointer).
unfoldable pub build_loop : List Writer → WriteBatch → Option ℕ → WriteBatch × Option ℕ
build_loop [] b last = (b, last)
build_loop (w ∷ ws) b last =
    let b' = add_request b w in
    let rest = build_loop ws b' (some w.id) in
    if leb max_async_size (b'.batch_length) then (b', some w.id) else rest

-- `BuildBatchGroup` on the queue; the buffer keeps what an earlier batch left there.
unfoldable pub build_batch_group : List Writer → WriteBatch → WriteBatch × Option ℕ
unfolding build_loop
build_batch_group queue old =
    build_loop queue (record { batch_length = 0; keys = []; metas = []; buffer = old.buffer }) none

-- The loop that the leader `me` runs after the batch: it pops writers until `last`. The first list
-- are those that it marks done and signals, the second is the queue that is left; the option is
-- `none` where `front` of an empty queue would be taken.
unfoldable pub pop_until : ℕ → ℕ → List Writer → Option (List ℕ × List Writer)
pop_until me last [] = none
pop_until me last (w ∷ ws) =
    let marked = if w.id == me then [] else w.id ∷ [] in
    let rest = pop_until me last ws in
    if w.id == last
    then some (marked, ws)
    else elim rest [ none ↦ none | some (more, left) ↦ some (marked ++ more, left) ]
