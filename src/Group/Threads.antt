-- ===== src/Group/Threads.antt =====
-- The clerks of frontend/group/group.cc from the start, in every order of their actions: one leads at a
-- time, none sleeps through its turn, and the store has the requests in the order in which they joined.
use pmraccess.Base.{
  ℕ, ◌≤◌, ◌≡◌, refl, ap, Bool, true, Option, List, [], ◌++◌, arith, occurrences, Bytes,
}
use pmraccess.Store.{DbOps, DbLaws}
use pmraccess.Group.{Writer}
use pmraccess.Group.Commit.{after_puts}
use pmraccess.Group.Clerk.{Server}
use pmraccess.Group.Room.{BatchesFit, Reachable-behind}
use pmraccess.Wire.{max_async_size}
use pmraccess.Group.Queue.{
  Pc, idle, asleep, signalled, gathering, writing, popping, System, ids, at_front, Reachable, start,
  later, at_rest,
}
use pmraccess.Group.Places.{Placed, Placed-leads, leads, occurrences_split, at_front_unique}
use pmraccess.Group.Order.{Phase, front_pc}
use pmraccess.Group.Serial.{Serial, Serial-Step}

module _ {S : Type 0} (db : DbOps S) (view : S → Bytes → Option Bytes) (laws : DbLaws db view) where
  pub Reachable-Serial :
      (server : Server S) (s : System S)
      → Reachable db (at_rest server) s
      → Serial db view (view server.db) s
  Reachable-Serial server s start = record {
    orderly = λ i. refl;
    fits = tt;
    phase = refl;
    value = λ j. refl;
  }
  Reachable-Serial server s (later {t} {v} r st) =
      Serial-Step db view (view server.db) t v laws (Reachable-Serial server t r) st

  -- Two clerks never lead at the same time.
  pub one_leader :
      (server : Server S) (s : System S) (i j : ℕ)
      → Reachable db (at_rest server) s
      → leads (s.pc i) ≡ true
      → leads (s.pc j) ≡ true
      → i ≡ j
  one_leader server s i j r li lj =
      let v : Serial db view (view server.db) s = Reachable-Serial server s r in
      at_front_unique i j s.queue
        (Placed-leads (s.pc i) (s.flag i) (at_front i s.queue) (occurrences i (ids s.queue))
          (v.orderly i) li)
        (Placed-leads (s.pc j) (s.flag j) (at_front j s.queue) (occurrences j (ids s.queue))
          (v.orderly j) lj)

  -- What is not stored is in the queue.
  unstored :
      (s : System S) (p : Pc)
      → Phase s.joined s.stored s.queue s.chosen s.server.batch p
      → (before : List Writer) × (rest : List Writer) × (s.queue ≡ before ++ rest)
        × (s.joined ≡ s.stored ++ rest)
  unstored s idle h = ([], s.queue, refl, h)
  unstored s asleep h = ([], s.queue, refl, h)
  unstored s signalled h = ([], s.queue, refl, h)
  unstored s gathering h = ([], s.queue, refl, h)
  unstored s (writing last) (h, c, b) = ([], s.queue, refl, h)
  unstored s (popping last) (rest, c, h) = (s.chosen, rest, c.split, h)

  idle_absent : (p : Pc) (d f : Bool) (n : ℕ) → Placed p d f n → p ≡ idle → n ≡ 0
  idle_absent idle d f n h e = h
  idle_absent asleep d f n h e = cc
  idle_absent signalled d f n h e = cc
  idle_absent gathering d f n h e = cc
  idle_absent (writing last) d f n h e = cc
  idle_absent (popping last) d f n h e = cc

  -- The order of the store, whatever room the array has.
  pub stored_in_order :
      (server : Server S) (s : System S)
      → Reachable db (at_rest server) s
      → ((before : List Writer) × (rest : List Writer) × (s.queue ≡ before ++ rest)
          × (s.joined ≡ s.stored ++ rest))
        × ((j : Bytes) → view s.server.db j ≡ after_puts s.stored j (view server.db j))
        × ((i : ℕ) → s.pc i ≡ idle → occurrences i (ids s.stored) ≡ occurrences i (ids s.joined))
  stored_in_order server s r =
      let v : Serial db view (view server.db) s = Reachable-Serial server s r in
      let (before, rest, q, order) = unstored s (front_pc s.pc s.queue) v.phase in
      (
        (before, rest, q, order),
        v.value,
        λ i e.
            let gone : occurrences i (ids s.queue) ≡ 0 =
              idle_absent (s.pc i) (s.flag i) (at_front i s.queue) (occurrences i (ids s.queue))
                (v.orderly i) e in
            let all = ap (λ ws. occurrences i (ids ws)) order in
            let line = ap (λ ws. occurrences i (ids ws)) q in
            omega (
              arith,
              all,
              line,
              occurrences_split i s.stored rest,
              occurrences_split i before rest,
            ),
      )

  -- Over a store that keeps the laws of `DbLaws`, in every state that the clerks reach from rest, with
  -- requests of at most 4096 bytes, by a run on which every batch that is built fits its array: the
  -- requests stored are a prefix of those that have joined, in the order of `push_back`, what is not
  -- stored is the end of the queue, and a reader of the store sees each key as if the stored requests
  -- had been put one by one. A clerk that has its reply has all its requests among the stored, and the
  -- memory behind the array is as it was.
  pub group_commit_serial :
      (server : Server S) (s : System S) (r : Reachable db (at_rest server) s)
      → BatchesFit db r
      → ((before : List Writer) × (rest : List Writer) × (s.queue ≡ before ++ rest)
          × (s.joined ≡ s.stored ++ rest))
        × ((j : Bytes) → view s.server.db j ≡ after_puts s.stored j (view server.db j))
        × ((i : ℕ) → s.pc i ≡ idle → occurrences i (ids s.stored) ≡ occurrences i (ids s.joined))
        × ((i : ℕ) → max_async_size ≤ i → s.server.batch.buffer i ≡ server.batch.buffer i)
  group_commit_serial server s r fit =
      let (order, value, replies) = stored_in_order server s r in
      (order, value, replies, λ i h. Reachable-behind db (at_rest server) s r fit i h)
