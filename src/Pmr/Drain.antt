-- ===== src/Pmr/Drain.antt =====
-- `UringRun` of frontend/pmr/pmr.cc: the thread that writes the queued chunks to the log and frees
-- them. The monitoring output is left out.
use pmraccess.Base.{ℕ, zero, suc, true, false, Option, none, some, List, [], ◌∷◌, if◌then◌else◌}
use pmraccess.Outcome.{Outcome, done, waiting, ◌>>=◌}
use pmraccess.Uring.{UringOps, IOuring, full, empty, write, submit, seen}
use pmraccess.Pmr.State.{Item, Server, free_chunk}

module _ {K : Type 0} (u : UringOps K) where
  -- The inner loop: `Write` for what is dequeued, while the ring is not full.
  unfoldable pub fill : List Item → IOuring K → Outcome (IOuring K × List Item)
  fill [] r = done (r, [])
  fill (item ∷ items) r = elim (full r) [
    | true ↦ done (r, item ∷ items)
    | false ↦ write u item.buf item.size item.chunk r >>= fill items
  ]

  module _ {S T : Type 0} where
    -- From `Wait` to `Seen`, on what `io_uring_wait_cqe` answers.
    unfoldable pub complete :
        Option (ℕ × K) → IOuring K → Server S T → Outcome (IOuring K × Server S T)
    unfolding free_chunk seen
    complete none r s = waiting
    complete (some (chunkid, k)) r s = do
      s' ← free_chunk chunkid s
      done (seen u (record r { ring = k }), s')

    -- A pass of the outer loop after the inner.
    unfoldable pub finish : IOuring K → Server S T → Outcome (IOuring K × Server S T)
    unfolding complete submit
    finish r s = if empty r then done (r, s) else complete (u.wait (u.submit r.ring)) (submit u r) s

    -- A pass of the outer loop.
    unfoldable pub pass : IOuring K → Server S T → Outcome (IOuring K × Server S T)
    unfolding fill finish
    pass r s = do filled ← fill s.queue r; finish (filled.0) (record s { queue = filled.1 })

    -- So many passes of the endless loop, with no clerk at work.
    unfoldable pub passes : ℕ → IOuring K → Server S T → Outcome (IOuring K × Server S T)
    unfolding pass
    passes zero r s = done (r, s)
    passes (suc n) r s = pass r s >>= λ x. passes n (x.0) (x.1)
