-- ===== src/Lib.antt =====
-- PMRAccess: remote access to a key-value store by RDMA, in three variants of a front end.
--
-- A client (`Connect`, `SendPut`, `SendUpdate`, `SendGet`, `SendDelete`, `SendClose`) and a clerk, a
-- thread of the server, share a queue pair. The client prepares a request in its registered buffer,
-- posts it into the clerk's, then posts a flag word; the clerk spins on the flag, handles the
-- request and posts the reply and its own flag back. The variants differ in where a put goes.
--
-- Base              lists, tests and byte-addressed memory over the native numbers
-- Outcome           how a piece of threaded code ends: done, spinning for ever, or aborted
-- Wire              frontend/request.h, frontend/cs.h: headers, flags, and (Transfer) the exchange
-- Rdma              rdmautil/rdmautil.h and .cc: registered memory and certificates (Context), the
--                   work request of each `post_*` (Post), the device (Device), opening and
--                   connecting (Connect), the accept loops of the servers (Accept), the end of a
--                   context (Release); Nic is the network card, a parameter
-- Sockets           rdmautil/socketutil.h and .cc: the TCP sockets of the accept loops
-- Store             database/db.h: `Meta`, `DBType`, `CuckooDB` (Cuckoo) and `LevelDB` (Level)
-- Bitset            frontend/pmr/atomicbitset.h: a thread alone, and many at a time (Threads)
-- Pmr               frontend/pmr/pmr.cc: `PMRServer`, `PMRClerk`, `PMRClient` (State), the `switch` of
--                   `PMRClerk::Run` (Clerk), the client's operations (Client); a put goes into a chunk
--                   of registered memory and an index, and to the store when the chunk is given up;
--                   `UringRun` is Drain, System puts the clerks and that thread together, and
--                   Serving has any number of clients that call one server, with that thread
-- Uring             frontend/pmr/uring.h over liburing, a parameter
-- Group             frontend/group/group.cc: `BuildBatchGroup` and the turn of a leader (Clerk); puts of
--                   several clerks go to the store as one batch, and to the log; Queue has the steps
--                   of any number of clerks that join, sleep, wake, lead and let go, with mutex.h
-- RingLog           frontend/group/ringlog.h: where records lie, a thread alone and many at a time
-- Pmem              frontend/pmem/pmem.cc: a put goes to a persistent ring and to the store at
--                   once; Listen is the part of the device of each clerk
-- Bench             benchmark.cc and include/generator.h: the input files (Input), the share of each
--                   client, values (Values), `Populate` and `Run` over an interface (Clients) that the
--                   clients of Pmem and Group (Implementation) fill, and that of Pmr with a choice of
--                   when `UringRun` runs (Messaging); FirstRun is a whole run over Pmr
-- Instance          include/instance.h and server.cc: what the options name
-- Tests             the properties at concrete inputs
--
-- The model. A function of the source is a function here, of the state before; a loop that waits
-- for a flag is `spin_until`, seen when no other thread can change the flag. An operation of a
-- client is run together with the clerk's turn that it causes. Machine integers keep their
-- wrap-around (`u16`, `u32`). Memory is a function from addresses to bytes, and a registered region
-- is addressed from its start. What a fixed buffer has room for is asked where the code does not: a key
-- or a value that a request, or the reply of a GET, would copy over the end of a buffer ends the model
-- (`fill_write`, `fill_key`, `put_value`), and what a group commit does is claimed where the batch fits its array, whose memory in `WriteBatch` goes on
-- behind it. A reply longer than `post_write1` or the buffers can carry does not arrive (`answer`); one
-- of 128 bytes has a value of 120. `blindset`
-- searches in rounds that all see the same bits when a thread runs alone, so one round, of as many
-- steps as there are bits, decides whether it returns.
--
-- Parameters, with the laws that the code relies on: the network card (`Nic`), libcuckoo's map
-- (`HashMapOps`, `HashMapLaws`), leveldb (`LevelOps`, `LevelLaws`), liburing (`UringOps`,
-- `UringLaws`), the byte order functions (`ByteOrder`), and what the calls into the verbs library and
-- of the operating system answer.
--
-- In Pmr/System a step is a whole turn of a clerk, or a whole pass of `UringRun`; a clerk joins with
-- the turn that answers the ALLOC of its client's `Connect`, and may be sent anything afterwards. The
-- concurrent queue `global_queue` is a sequence there, first in first out. The ring is bounded by the
-- depth that it was made with; a pass frees one chunk, so as many passes as chunks wait free them all.
--
-- In Pmr/Serving a step is a whole operation of a client with the turns of its clerk, or a pass of
-- `UringRun`. The clerks share the index and the store, and a flush of one erases keys that another
-- may have put since; so a step writes a key only where no other clerk has it in its batch.
--
-- The loop that reads a file runs on as much fuel as the file has characters, since each round takes
-- some; the loop of `BuildValue` on as much as the value is long.
--
-- In Group/Queue a step is what a clerk does under the mutex between two waits, or the commit that the
-- leader makes without it; requests are those that fit a message buffer. Room has
-- the runs on which every batch fits the array of `WriteBatch`.
--
-- Not modelled: the opening of the logs and devices; the clocks and the printed figures of
-- benchmark.cc; test.cc and the scripts, which call a client and print; the completion queues of the
-- verbs library, of which polling sees what ibv_poll_cq answers; frontend/pmr/dmabuf.h and the kernel
-- patch, which are system calls; and the copies of leveldb, libcuckoo, concurrentqueue and cmdline.
pub mod Base
pub mod Outcome
pub mod Wire
pub mod Store
pub mod Bitset
pub mod Sockets
pub mod Rdma
pub mod Uring
pub mod Pmr
pub mod RingLog
pub mod Group
pub mod Pmem
pub mod Bench
pub mod Instance
pub mod Tests
