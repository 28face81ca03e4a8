-- ===== src/Uring.antt =====
-- class `IOuring` of frontend/pmr/uring.h over the API of liburing.
use pmraccess.Base.{
  ℕ, ◌+◌, ◌-◌, ◌^◌, ◌<◌, ◌≡◌, ◌≢◌, Bool, Option, none, some, List, [], ◌∷◌, ◌++◌, leb, ◌==◌, length,
  Mem,
}
use pmraccess.Outcome.{Outcome, done, aborted}

pub data Opcode : Type 0 where
  reads : Opcode
  writes : Opcode

-- A request that is prepared: `size` bytes between `buf` and `offset` of the file, and the user's data.
pub record Sqe : Type 0 where
  pub op : Opcode
  pub buf : Mem
  pub size : ℕ
  pub offset : ℕ
  pub user_data : ℕ

-- liburing over the states `K` of a ring. `prepare` is `io_uring_get_sqe` with the `prep` and
-- `set_data64` that follow it; `none` is the null pointer of a full submission queue. `wait` answers
-- the data of a completion, or blocks for ever; `seen` gives its slot back.
pub record UringOps (K : Type 0) : Type 0 where
  pub prepare : Sqe → K → Option K
  pub submit : K → K
  pub wait : K → Option (ℕ × K)
  pub seen : K → K

-- Its documented behaviour for a ring of `entries`: a submission hands over what was prepared, and
-- `wait` answers one of the requests handed over, whichever the kernel has completed.
pub record UringLaws {K : Type 0} (u : UringOps K) (entries : ℕ) : Type 0 where
  pub prepared : K → List Sqe
  pub submitted : K → List Sqe
  pub prepare_lem :
      (e : Sqe) (k : K)
      → length (prepared k) < entries
      → (k' : K) × (u.prepare e k ≡ some k')
        × (prepared k' ≡ prepared k ++ e ∷ [])
        × (submitted k' ≡ submitted k)
  pub submit_lem :
      (k : K) → (prepared (u.submit k) ≡ []) × (submitted (u.submit k) ≡ submitted k ++ prepared k)
  pub wait_lem :
      (k : K)
      → submitted k ≢ []
      → (before : List Sqe) × (e : Sqe) × (after : List Sqe) × (k' : K) × (submitted k
          ≡ before ++ e ∷ after)
        × (u.wait k ≡ some (e.user_data, k'))
        × (prepared k' ≡ prepared k)
        × (submitted k' ≡ before ++ after)
  pub seen_lem : (k : K) → (prepared (u.seen k) ≡ prepared k) × (submitted (u.seen k) ≡ submitted k)

-- `IOuring`, but for the file.
pub record IOuring (K : Type 0) : Type 0 where
  pub ring : K
  pub inflight : ℕ
  pub offset : ℕ
  pub qd : ℕ

-- The constructor on a ring that `io_uring_queue_init` has made.
unfoldable pub new_uring : {K : Type 0} → K → ℕ → IOuring K
new_uring k queue_size = record { ring = k; inflight = 0; offset = 0; qd = queue_size }

-- The constructor, on what `io_uring_queue_init` answers: `none` for a negative number.
unfoldable pub open_ring : {K : Type 0} → Option K → ℕ → Outcome (IOuring K)
unfolding new_uring
open_ring none queue_size = aborted
open_ring (some k) queue_size = done (new_uring k queue_size)

-- `Full` and `Empty`
abbrev pub full : {K : Type 0} → IOuring K → Bool
full r = leb r.qd r.inflight

abbrev pub empty : {K : Type 0} → IOuring K → Bool
empty r = r.inflight == 0

module _ {K : Type 0} (u : UringOps K) where
  -- The tail of `Write` on what `io_uring_get_sqe` gives; the null pointer is not tested for.
  unfoldable pub prepared_write : Option K → ℕ → IOuring K → Outcome (IOuring K)
  prepared_write none size r = aborted
  prepared_write (some k) size r =
      done (record r { ring = k; inflight = r.inflight + 1; offset = r.offset + size })

  -- `Write`
  unfoldable pub write : Mem → ℕ → ℕ → IOuring K → Outcome (IOuring K)
  unfolding prepared_write
  write buf size user_data r =
      prepared_write
        (u.prepare
          (record { op = writes; buf = buf; size = size; offset = r.offset; user_data = user_data })
          r.ring)
        size r

  -- `Read`, at the offset -1, which stands for the position of the file.
  unfoldable pub read : Mem → ℕ → ℕ → IOuring K → Outcome (IOuring K)
  read buf size user_data r =
      elim (u.prepare
        (record { op = reads; buf = buf; size = size; offset = 2 ^ 64 - 1; user_data = user_data })
        r.ring) [
          | none ↦ aborted
          | some k ↦ done (record r { ring = k; inflight = r.inflight + 1 })
        ]

  -- `Submit`
  unfoldable pub submit : IOuring K → IOuring K
  submit r = record r { ring = u.submit r.ring }

  -- `Seen`. The count is an `int`; it is positive where a request is in flight.
  unfoldable pub seen : IOuring K → IOuring K
  seen r = record r { ring = u.seen r.ring; inflight = r.inflight - 1 }
