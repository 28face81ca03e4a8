-- ===== src/RingLog.antt =====
-- frontend/group/ringlog.h: the log file of the group front end, a ring in the preallocated space.
pub mod Laps
use pmraccess.Base.{
  ℕ, zero, suc, ◌+◌, ◌*◌, ◌^◌, ◌%◌, ◌<◌, ◌≡◌, List, [], ◌∷◌, ◌++◌, ltb, if◌then◌else◌, length,
  Bytes, Mem, load, le32,
}

abbrev pub preallocate_size : ℕ
preallocate_size = 4 * 1024 * 1024 * 1024

-- `pwrite(fd_, bytes, size, pos)`; the log keeps those that were issued, newest last.
pub record Write : Type 0 where
  pub pos : ℕ
  pub bytes : Bytes

-- `RingLog`: `offset_`, and the calls made on the file.
pub record Log : Type 0 where
  pub offset : ℕ
  pub writes : List Write

-- The constructor: `offset_.store(0)` on a file that is preallocated.
abbrev pub new_log : Log
new_log = record { offset = 0; writes = [] }

-- `next_pos` for a record of `len` bytes at `pos`.
unfoldable pub next_pos : ℕ → ℕ → ℕ
next_pos pos len = if ltb pos preallocate_size then (pos + len) % 2 ^ 64 else len

-- Where a thread stands in the loop of `Put` or `PutBatch`, with its locals.
pub data Pc : Type 0 where
  idle : Pc
  loaded : (pos len : ℕ) → Pc  -- before `compare_exchange_weak(pos, next_pos)`
  reserved : (pos len : ℕ) → Pc  -- before `pwrite`

-- One access to `offset_` by a thread. A weak exchange may fail at any time; it loads `offset_` anew.
pub data Move (offset : ℕ) : Pc → ℕ → Pc → Type 0 where
  begin : (len : ℕ) → len < 2 ^ 32 → Move offset idle offset (loaded offset len)
  win :
      {pos len : ℕ}
      → offset ≡ pos
      → Move offset (loaded pos len) (next_pos pos len) (reserved pos len)
  fail : {pos len : ℕ} → Move offset (loaded pos len) offset (loaded offset len)
  finish : {pos len : ℕ} → Move offset (reserved pos len) offset idle

-- `PutBatch` by one thread alone, whose first exchange succeeds.
unfoldable pub put_batch : Mem → ℕ → Log → Log
unfolding next_pos
put_batch buffer len log = record {
  offset = next_pos log.offset len;
  writes = log.writes ++ record { pos = log.offset; bytes = load buffer 0 len } ∷ [];
}

-- The bytes that `Put` lays out in its buffer, and the call.
unfoldable pub put : Bytes → Bytes → Log → Log
unfolding next_pos
put key val log =
    let len = 8 + length key + length val in
    record {
      offset = next_pos log.offset len;
      writes =
          log.writes
          ++ record {
            pos = log.offset;
            bytes = le32 (length key) ++ (le32 (length val) ++ (key ++ val));
          }
            ∷ [];
    }
