-- ===== src/Pmr/Safety.antt =====
-- The server of frontend/pmr from its start: its threads in any order, its clerks sent anything.
use pmraccess.Base.{
  ℕ, zero, suc, ◌+◌, ◌<◌, ◌≤◌, ◌≡◌, refl, Bool, true, false, [], arith, ltb, if◌then◌else◌, Mem,
  occurrences,
}
use pmraccess.Outcome.{done}
use pmraccess.Store.{Meta, DbOps, HashMapOps}
use pmraccess.Uring.{UringOps, UringLaws, IOuring, new_uring}
use pmraccess.Bitset.{new}
use pmraccess.Bitset.Laws.{test, new_lem}
use pmraccess.Pmr.State.{Server, chunk_count, new_server}
use pmraccess.Pmr.Drain.{pass, passes}
use pmraccess.Pmr.Freeing.{waits, waiting_count}
use pmraccess.Pmr.Draining.{Drained, passes-drain}
use pmraccess.Pmr.System.{System, Reachable, start, later, initial}
use pmraccess.Pmr.Ownership.{OwnedOnce, owners, slots}
use pmraccess.Pmr.Moves.{owned-CanDrain}
use pmraccess.Pmr.Exclusive.{pass_returns, Step-OwnedOnce}

-- A bit of a chunk that has an owner, where those that wait are cleared.
stays_set :
    (own wait : ℕ) (was is : Bool)
    → own + wait ≤ (if was then 1 else 0)
    → 0 < own
    → is ≡ (if ltb 0 wait then false else was)
    → is ≡ true
stays_set own zero true is le h e = e
stays_set own zero false is le h e = absurd (omega arith)
stays_set own (suc wait) true is le h e = absurd (omega arith)
stays_set own (suc wait) false is le h e = absurd (omega arith)

module _ {K S T : Type 0} (u : UringOps K) {entries : ℕ} (laws : UringLaws u entries) (db : DbOps S)
    (h : HashMapOps Meta T) where
  -- A ring as `io_uring_queue_init` makes it, of at least one entry.
  pub record IsFresh (k : K) (qd : ℕ) : Type 0 where
    pub no_prepared : laws.prepared k ≡ []
    pub no_submitted : laws.submitted k ≡ []
    pub some_room : 0 < qd
    pub depth : qd ≤ entries

  pub initial-OwnedOnce :
      (k : K) (qd : ℕ) (map : T) (region : Mem) (store : S)
      → IsFresh k qd
      → OwnedOnce u laws (initial k qd map region store)
  unfolding initial new_uring new_server
  initial-OwnedOnce k qd map region store f =
      let (valid, bits) = new_lem chunk_count in
      let none_own : (j : ℕ) → owners u laws j (initial k qd map region store) ≡ 0 =
        λ j. rw (f.no_prepared, f.no_submitted) refl in
      record {
        sound = record {
          counted = rw (f.no_prepared, f.no_submitted) refl;
          room = omega arith;
          depth = f.depth;
        };
        deep = f.some_room;
        valid = valid;
        sized = unfold new in refl;
        once = λ j. omega (arith, none_own j);
        inside = λ j some. absurd (omega (arith, none_own j));
      }

  -- In every state that a server with a fresh ring reaches from its start, whatever its clients
  -- send to its clerks and write to the region, and in whatever order its threads take their
  -- turns, a chunk has at most one owner among the clerks, the queue and the ring, an owned chunk
  -- lies in the region and has its bit set, and the ring counts what it holds, which is no more
  -- than its depth.
  pub Reachable-OwnedOnce :
      (k : K) (qd : ℕ) (map : T) (region : Mem) (store : S) (x : System K S T)
      → IsFresh k qd
      → Reachable u db h (initial k qd map region store) x
      → OwnedOnce u laws x
  Reachable-OwnedOnce k qd map region store x f start = initial-OwnedOnce k qd map region store f
  Reachable-OwnedOnce k qd map region store x f (later {y} {z} reached st) =
      Step-OwnedOnce u laws db h y z (Reachable-OwnedOnce k qd map region store y f reached) st

  -- In every state that a server with a fresh ring reaches from its start, a pass of `UringRun`
  -- returns: neither assert of `FreeChunk` fails, `io_uring_get_sqe` gives no null pointer, and
  -- `Wait` is called only where a completion will come.
  pub Reachable-pass :
      (k : K) (qd : ℕ) (map : T) (region : Mem) (store : S) (x : System K S T)
      → IsFresh k qd
      → Reachable u db h (initial k qd map region store) x
      → (r' : IOuring K) × (s' : Server S T) × (pass u x.ring x.server ≡ done (r', s'))
  Reachable-pass k qd map region store x f reached =
      let (r', s', ran, o) =
        pass_returns u laws x (Reachable-OwnedOnce k qd map region store x f reached) in
      (r', s', ran)

  -- From every state that a server with a fresh ring reaches from its start, as many passes of
  -- `UringRun` as chunks wait, with no clerk at work, return and leave the queue and the ring
  -- empty: the chunks that waited are free, those of the clerks stay in use, and no value, no
  -- index entry and no byte of the region has changed.
  pub Reachable-drain :
      (k : K) (qd : ℕ) (map : T) (region : Mem) (store : S) (x : System K S T)
      → IsFresh k qd
      → Reachable u db h (initial k qd map region store) x
      → (r' : IOuring K) × (s' : Server S T) × (passes u
            (waiting_count u laws x.ring x.server)
            x.ring
            x.server
          ≡ done (r', s'))
        × Drained u laws x.ring r' x.server s'
        × ((j : ℕ) → 0 < occurrences j (slots x.clerks) → test s'.bitmap j ≡ true)
  Reachable-drain k qd map region store x f reached =
      let o : OwnedOnce u laws x = Reachable-OwnedOnce k qd map region store x f reached in
      let (r', s', ran, d) = passes-drain u laws x.ring x.server (owned-CanDrain u laws x o) in
      (
        r',
        s',
        ran,
        d,
        λ j some.
            stays_set (occurrences j (slots x.clerks)) (waits u laws j x.ring x.server)
              (test x.server.bitmap j) (test s'.bitmap j) (o.once j) some (d.bits j),
      )
