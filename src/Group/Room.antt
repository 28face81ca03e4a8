-- ===== src/Group/Room.antt =====
-- The array of the batch of frontend/group/group.cc: what lies behind it stays as it was, as long as
-- every batch fits.
use pmraccess.Base.{
  ℕ, ◌≤◌, ◌≡◌, refl, ◌∙◌, Option, none, some, List, [], ◌∷◌, arith, leb, Bool-cases, inl, inr, load,
  store_above, length-load,
}
use pmraccess.Wire.{max_async_size, request_length}
use pmraccess.Store.{DbOps}
use pmraccess.Group.{Writer, WriteBatch, add_request, build_loop, build_batch_group}
use pmraccess.Group.Batch.{loop_full, loop_more}
use pmraccess.Group.Clerk.{commit}
use pmraccess.Group.Queue.{
  System, join, wake, build, put_out, release, Step, joins, wakes, wakes_spuriously, builds, writes,
  pops, Reachable, start, later,
}

-- The batch has grown, and what lies behind it is as it was.
record Grown (b b' : WriteBatch) : Type 0 where
  grows : b.batch_length ≤ b'.batch_length
  behind : (i : ℕ) → b'.batch_length ≤ i → b'.buffer i ≡ b.buffer i

Grown-add : (b : WriteBatch) (w : Writer) → Grown b (add_request b w)
unfolding add_request
Grown-add b w =
    let n : ℕ = request_length w.local_buf 8 in
    record {
      grows = omega arith;
      behind = λ i h.
          store_above b.buffer b.batch_length (load w.local_buf 8 n) i
            (omega (arith, length-load w.local_buf 8 n));
    }

Grown-trans : {b c d : WriteBatch} → Grown b c → Grown c d → Grown b d
Grown-trans {b} {c} {d} g h = record {
  grows = omega (arith, g.grows, h.grows);
  behind = λ i le. h.behind i le ∙ g.behind i (omega (arith, h.grows, le));
}

Grown-loop :
    (ws : List Writer) (b : WriteBatch) (last : Option ℕ) → Grown b (build_loop ws b last).0
Grown-loop [] b last = unfold build_loop in record { grows = omega arith; behind = λ i h. refl }
Grown-loop (w ∷ ws) b last = elim (Bool-cases (leb max_async_size (add_request b w).batch_length)) [
  | inl full ↦ rw (loop_full w ws b last full) (Grown-add b w)
  | inr more ↦
      rw (loop_more w ws b last more)
        (Grown-trans (Grown-add b w) (Grown-loop ws (add_request b w) (some w.id)))
]

-- A batch that fits its array leaves the memory behind the array.
pub build-behind :
    (queue : List Writer) (old : WriteBatch)
    → (build_batch_group queue old).0.batch_length ≤ max_async_size
    → (i : ℕ) → max_async_size ≤ i
    → (build_batch_group queue old).0.buffer i ≡ old.buffer i
unfolding build_batch_group
build-behind queue old fits i h =
    let g =
      Grown-loop queue (record { batch_length = 0; keys = []; metas = []; buffer = old.buffer })
        none in
    g.behind i (omega (arith, fits, h))

module _ {S : Type 0} (db : DbOps S) where
  abbrev pub StepFits : {s t : System S} → Step db s t → Type 0
  StepFits (joins w e f) = Unit {0}
  StepFits (wakes i e) = Unit {0}
  StepFits (wakes_spuriously i e) = Unit {0}
  StepFits {s} (builds i e) =
      (build_batch_group s.queue s.server.batch).0.batch_length ≤ max_async_size
  StepFits (writes i last e) = Unit {0}
  StepFits (pops i last marked left e p) = Unit {0}

  -- Every batch that is built on the way fits its array.
  abbrev pub BatchesFit : {s t : System S} → Reachable db s t → Type 0
  BatchesFit start = Unit {0}
  BatchesFit (later r st) = BatchesFit r × StepFits st

  Step-behind :
      (s t : System S) (st : Step db s t)
      → StepFits st
      → (i : ℕ) → max_async_size ≤ i
      → t.server.batch.buffer i ≡ s.server.batch.buffer i
  unfolding join wake build put_out release commit
  Step-behind s _ (joins w e f) h i le = refl
  Step-behind s _ (wakes k e) h i le = refl
  Step-behind s _ (wakes_spuriously k e) h i le = refl
  Step-behind s _ (builds k e) h i le = build-behind s.queue s.server.batch h i le
  Step-behind s _ (writes k last e) h i le = refl
  Step-behind s _ (pops k last marked left e p) h i le = refl

  pub Reachable-behind :
      (s t : System S) (r : Reachable db s t)
      → BatchesFit r
      → (i : ℕ) → max_async_size ≤ i
      → t.server.batch.buffer i ≡ s.server.batch.buffer i
  Reachable-behind s _ start h i le = refl
  Reachable-behind s _ (later {t} {v} r st) (h, now) i le =
      Step-behind t v st now i le ∙ Reachable-behind s t r h i le
