-- ===== src/Group/Queue.antt =====
-- The clerks of frontend/group/group.cc and the queue that they share: `writers_queue`, the flags `done`
-- and the condition variables of the writers, an action under the mutex (or the leader's commit, made
-- without it) at a time. frontend/group/mutex.h wraps the mutex and the condition variables.
use pmraccess.Base.{
  ℕ, ◌≡◌, Bool, true, false, Option, some, List, [], ◌∷◌, ◌++◌, map, ltb, ◌==◌, if◌then◌else◌,
  occurrences,
}
use pmraccess.Store.{DbOps}
use pmraccess.Group.{Writer, build_batch_group, pop_until}
use pmraccess.Group.Batch.{Fits, taken}
use pmraccess.Group.Clerk.{Server, commit}

-- Where a clerk stands with its request, from `push_back` to `send_reply`.
pub data Pc : Type 0 where
  idle : Pc  -- it has no writer
  asleep : Pc  -- in `cv.Wait`
  signalled : Pc  -- in `cv.Wait`, after a `Signal`
  gathering : Pc  -- it leads, and waits for followers without the mutex
  writing : Option ℕ → Pc  -- it has built the batch up to this last writer
  popping : Option ℕ → Pc  -- it has written the batch

-- `joined`, `chosen` and `stored` are of the model alone: the writers in the order of `push_back`, those
-- of the batch at hand, and those whose batch is written.
pub record System (S : Type 0) : Type 0 where
  pub queue : List Writer
  pub flag : ℕ → Bool
  pub pc : ℕ → Pc
  pub server : Server S
  pub joined : List Writer
  pub chosen : List Writer
  pub stored : List Writer

abbrev pub ids : List Writer → List ℕ
ids ws = map (λ w. w.id) ws

-- `&w == writers_queue.front()`
abbrev pub at_front : ℕ → List Writer → Bool
at_front i [] = false
at_front i (w ∷ ws) = w.id == i

-- After the test of the `while`, with `done` and whether the writer is at the front.
abbrev pub look : Bool → Bool → Pc
look true front = idle
look false true = gathering
look false false = asleep

-- `Signal`
abbrev pub signal : Pc → Pc
signal idle = idle
signal asleep = signalled
signal signalled = signalled
signal gathering = gathering
signal (writing last) = writing last
signal (popping last) = popping last

abbrev pub at : {A : Type 0} → (ℕ → A) → ℕ → A → ℕ → A
at f i v j = if i == j then v else f j

abbrev pub marked_by : List ℕ → ℕ → Bool
marked_by marked i = ltb 0 (occurrences i marked)

-- From `push_back` to the first test.
unfoldable pub join : {S : Type 0} → Writer → System S → System S
join w s =
    let queue = s.queue ++ w ∷ [] in
    record s {
      queue = queue;
      flag = at s.flag w.id false;
      pc = at s.pc w.id (look false (at_front w.id queue));
      joined = s.joined ++ w ∷ [];
    }

-- A wait that ends, signalled or not, and the test that follows.
unfoldable pub wake : {S : Type 0} → ℕ → System S → System S
wake i s = record s { pc = at s.pc i (look (s.flag i) (at_front i s.queue)) }

-- `BuildBatchGroup`
unfoldable pub build : {S : Type 0} → ℕ → System S → System S
build i s =
    let built = build_batch_group s.queue s.server.batch in
    record s {
      pc = at s.pc i (writing (built.1));
      server = record s.server { batch = built.0 };
      chosen = taken 0 s.queue;
    }

-- `PutBatch` of the store and of the log.
unfoldable pub put_out : {S : Type 0} → DbOps S → ℕ → Option ℕ → System S → System S
put_out db i last s = record s {
  pc = at s.pc i (popping last);
  server = commit db s.server.batch s.server;
  stored = s.stored ++ s.chosen;
}

-- After the loop that marks the followers, with the signals to them and to the new front.
unfoldable pub release : {S : Type 0} → ℕ → List ℕ → List Writer → System S → System S
release i marked left s = record s {
  queue = left;
  flag = λ j. if marked_by marked j then true else s.flag j;
  pc = λ j.
      if i == j
      then idle
      else if marked_by marked j
      then signal (s.pc j)
      else if at_front j left
      then signal (s.pc j)
      else s.pc j;
}

module _ {S : Type 0} (db : DbOps S) where
  pub data Step (s : System S) : System S → Type 0 where
    joins : (w : Writer) → s.pc w.id ≡ idle → Fits w → Step s (join w s)
    wakes : (i : ℕ) → s.pc i ≡ signalled → Step s (wake i s)
    wakes_spuriously : (i : ℕ) → s.pc i ≡ asleep → Step s (wake i s)
    builds : (i : ℕ) → s.pc i ≡ gathering → Step s (build i s)
    writes : (i : ℕ) (last : Option ℕ) → s.pc i ≡ writing last → Step s (put_out db i last s)
    pops :
        (i last : ℕ) (marked : List ℕ) (left : List Writer)
        → s.pc i ≡ popping (some last)
        → pop_until i last s.queue ≡ some (marked, left)
        → Step s (release i marked left s)

  pub data Reachable (s : System S) : System S → Type 0 where
    start : Reachable s s
    later : {t v : System S} → Reachable s t → Step t v → Reachable s v

-- No clerk has a request.
abbrev pub at_rest : {S : Type 0} → Server S → System S
at_rest server = record {
  queue = [];
  flag = λ i. false;
  pc = λ i. idle;
  server = server;
  joined = [];
  chosen = [];
  stored = [];
}
