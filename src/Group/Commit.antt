-- ===== src/Group/Commit.antt =====
-- The commit of a batch in frontend/group/group.cc: what the store holds after it, and which clerks
-- the leader lets go.
use mathlib.Core.List.{append-nil}
use pmraccess.Base.{
  ℕ, ◌+◌, ◌<◌, ◌≤◌, ◌≡◌, ◌≢◌, refl, sym, ◌∙◌, ap, Option, none, some, List, [], ◌∷◌, ◌++◌, arith,
  if◌then◌else◌, ◌==◌, bytes_eq, Bytes,
}
use pmraccess.Wire.{max_async_size}
use pmraccess.Store.{DbOps, DbLaws, override}
use pmraccess.Pmr.Pending.{Entry, pending, batch_value-stored}
use pmraccess.Group.{Writer, WriteBatch, build_batch_group, pop_until}
use pmraccess.Group.Room.{build-behind}
use pmraccess.Group.Batch.{
  key_of, val_of, size_of, AllFit, taken, taken_full, taken_more, layout, total_size, last_of,
  build_batch_group_lem,
}

-- The requests one after the other, each as a put, seen at the key `j`.
abbrev pub after_puts : List Writer → Bytes → Option Bytes → Option Bytes
after_puts [] j old = old
after_puts (w ∷ ws) j old = after_puts ws j (if bytes_eq (key_of w) j then some (val_of w) else old)

abbrev entry_value : Option Entry → Option Bytes
entry_value o = elim o [ some e ↦ some e.val | none ↦ none ]

override-layout :
    (ws : List Writer) (n : ℕ) (j : Bytes) (old : Option Bytes)
    → override (entry_value (pending (layout n ws) j)) old ≡ after_puts ws j old
unfolding pending layout
override-layout [] n j old = refl
override-layout (w ∷ ws) n j old = ground (
  arith,
  override-layout ws (n + size_of w) j old,
  override-layout ws (n + size_of w) j (some (val_of w)),
)

-- The store after a batch, whatever room its array has.
pub batch_puts :
    {S : Type 0} (db : DbOps S) (view : S → Bytes → Option Bytes)
    → DbLaws db view
    → (queue : List Writer) (old : WriteBatch) (s : S) (j : Bytes) → AllFit queue
    → let b = (build_batch_group queue old).0 in
      view (db.put_batch b.keys b.metas b.buffer b.batch_length s).1 j
      ≡ after_puts (taken 0 queue) j (view s j)
batch_puts db view laws queue old s j fit =
    let b : WriteBatch = (build_batch_group queue old).0 in
    let (holds, size, bound, last) = build_batch_group_lem queue old fit in
    laws.put_batch_lem b.keys b.metas b.buffer b.batch_length s j
    ∙ ap (λ o. override o (view s j))
        (rw (holds.keys, holds.descriptors)
          (batch_value-stored b.buffer b.batch_length (layout 0 (taken 0 queue)) j (omega arith)
            holds.stored))
    ∙ override-layout (taken 0 queue) 0 j (view s j)

-- Over a store that keeps the laws of `DbLaws`, and for requests of at most 4096 bytes of which the
-- batch takes no more than its array has room for, group commit is as good as putting the requests
-- that the batch took one by one, in the order of the queue: a reader of the store sees the same value
-- for every key. The memory behind the array is left as it was.
pub group_commit_lem :
    {S : Type 0} (db : DbOps S) (view : S → Bytes → Option Bytes)
    → DbLaws db view
    → (queue : List Writer) (old : WriteBatch) (s : S) → AllFit queue
    → total_size (taken 0 queue) ≤ max_async_size
    → let b = (build_batch_group queue old).0 in
      ((j : Bytes)
        → view (db.put_batch b.keys b.metas b.buffer b.batch_length s).1 j
          ≡ after_puts (taken 0 queue) j (view s j))
      × ((i : ℕ) → max_async_size ≤ i → b.buffer i ≡ old.buffer i)
group_commit_lem db view laws queue old s fit room =
    let (holds, size, bound, last) = build_batch_group_lem queue old fit in
    (
      λ j. batch_puts db view laws queue old s j fit,
      λ i h. build-behind queue old (omega (arith, size, room)) i h,
    )

taken-fill :
    (ws rest : List Writer) (w : Writer) (len : ℕ)
    → len + total_size ws < max_async_size
    → max_async_size ≤ len + total_size ws + size_of w
    → taken len (ws ++ w ∷ rest) ≡ ws ++ w ∷ []
taken-fill [] rest w len lt le = taken_full w rest len (ground arith)
taken-fill (x ∷ ws) rest w len lt le =
    taken_more x (ws ++ w ∷ rest) len (ground arith)
    ∙ ap (◌∷◌ x) (taken-fill ws rest w (len + size_of x) (omega arith) (omega arith))

total_size-append :
    (ws : List Writer) (w : Writer) → total_size (ws ++ w ∷ []) ≡ total_size ws + size_of w
total_size-append [] w = omega arith
total_size-append (x ∷ ws) w = omega (arith, total_size-append ws w)

-- The test of the length comes after the copy: where requests of at most 4096 bytes before `w` make
-- less than `MAX_ASYNC_SIZE` bytes but leave less room than `w` takes, `w` is copied all the same,
-- and the batch is longer than its buffer.
pub batch_overflow :
    (ws rest : List Writer) (w : Writer) (old : WriteBatch)
    → AllFit (ws ++ w ∷ rest)
    → total_size ws < max_async_size
    → max_async_size < total_size ws + size_of w
    → let b = (build_batch_group (ws ++ w ∷ rest) old).0 in
      (b.batch_length ≡ total_size ws + size_of w) × (max_async_size < b.batch_length)
batch_overflow ws rest w old fit lt over =
    let (holds, size, bound, last) = build_batch_group_lem (ws ++ w ∷ rest) old fit in
    let all : taken 0 (ws ++ w ∷ rest) ≡ ws ++ w ∷ [] =
      taken-fill ws rest w 0 (omega arith) (omega arith) in
    let length : (build_batch_group (ws ++ w ∷ rest) old).0.batch_length
        ≡ total_size ws + size_of w =
      size ∙ ap total_size all ∙ total_size-append ws w in
    (length, omega (arith, length))

abbrev pub AllNe : ℕ → List Writer → Type 0
AllNe n [] = Unit {0}
AllNe n (w ∷ ws) = (w.id ≢ n) × AllNe n ws

-- No writer stands in the queue twice: each clerk has one on its stack.
abbrev pub Distinct : List Writer → Type 0
Distinct [] = Unit {0}
Distinct (w ∷ ws) = AllNe w.id ws × Distinct ws

-- The writers but the leader `me`.
abbrev pub followers : ℕ → List Writer → List ℕ
followers me [] = []
followers me (w ∷ ws) = (if w.id == me then [] else w.id ∷ []) ++ followers me ws

last_of-ne :
    (ws : List Writer) (n l y : ℕ) → AllNe n ws → y ≢ n → last_of ws (some y) ≡ some l → l ≢ n
last_of-ne [] n l y a h e = λ p. h (same e ∙ p)
  where
    same : some y ≡ some l → y ≡ l
    same q = cc
last_of-ne (w ∷ ws) n l y a h e = last_of-ne ws n l w.id (a.1) (a.0) e

pop_step :
    (me l : ℕ) (w : Writer) (ws : List Writer) (more : List ℕ) (left : List Writer)
    → w.id ≢ l
    → pop_until me l ws ≡ some (more, left)
    → pop_until me l (w ∷ ws) ≡ some ((if w.id == me then [] else w.id ∷ []) ++ more, left)
unfolding pop_until
pop_step me l w ws more left ne e = ground (arith, e)

pop_last :
    (me : ℕ) (w : Writer) (ws : List Writer)
    → pop_until me w.id (w ∷ ws) ≡ some ((if w.id == me then [] else w.id ∷ []), ws)
unfolding pop_until
pop_last me w ws = ground arith

-- The leader's loop, run on the writers of its batch with any others behind them, where no writer
-- stands in the batch twice, stops at the last of the batch: it lets go every writer of the batch
-- but the leader, in order, and the others stay.
pub pop_until_lem :
    (me l : ℕ) (w : Writer) (ws rest : List Writer)
    → Distinct (w ∷ ws)
    → last_of (w ∷ ws) none ≡ some l
    → pop_until me l ((w ∷ ws) ++ rest) ≡ some (followers me (w ∷ ws), rest)
pop_until_lem me l w [] rest d e = rw (sym same, append-nil) (pop_last me w rest)
  where
    same : w.id ≡ l
    same = cc
pop_until_lem me l w (x ∷ ws) rest d e =
    pop_step me l w ((x ∷ ws) ++ rest) (followers me (x ∷ ws)) rest
      (λ p. last_of-ne (x ∷ ws) w.id l x.id (d.0) (d.0.0) e (sym p))
      (pop_until_lem me l x ws rest (d.1) e)
