-- ===== src/Tests/Rings.antt =====
-- The thread of `UringRun` at concrete inputs, with a ring that completes requests in order.
use pmraccess.Base.{
  ℕ, ◌<◌, ◌≡◌, ◌≢◌, refl, true, Option, none, some, List, [], ◌∷◌, ◌++◌, arith, ltb, lt→ltb,
  if◌then◌else◌, length, occurrences, Mem, store, load32, store32,
}
use pmraccess.Outcome.{done}
use pmraccess.Wire.{alloc, put_request, fill_bare}
use pmraccess.Store.{Meta}
use pmraccess.Uring.{Sqe, UringOps, UringLaws, IOuring}
use pmraccess.Bitset.{new, blindset}
use pmraccess.Bitset.Laws.{test}
use pmraccess.Pmr.State.{Item, Server, Clerk, new_clerk}
use pmraccess.Pmr.Clerk.{replied, turn}
use pmraccess.Pmr.Drain.{fill, pass, passes}
use pmraccess.Pmr.Filling.{IsSound, Filled, fill_lem}
use pmraccess.Pmr.Freeing.{waiting_count}
use pmraccess.Pmr.Draining.{Drained}
use pmraccess.Pmr.System.{
  System, joins, answers, Reachable, start, later, initial, received, written,
}
use pmraccess.Pmr.Ownership.{OwnedOnce, slots}
use pmraccess.Pmr.Safety.{IsFresh, Reachable-OwnedOnce, Reachable-pass, Reachable-drain}
use pmraccess.Tests.Data.{Db, zeros, db, index, server, one_pair, Pairs}
use pmraccess.Tests.Sessions.{client_ready}

-- What is prepared, and what is submitted, the oldest first.
abbrev pub Ring : Type 0
Ring = List Sqe × List Sqe

abbrev oldest : List Sqe → List Sqe → Option (ℕ × Ring)
oldest p [] = none
oldest p (e ∷ es) = some (e.user_data, (p, es))

abbrev pub in_order : UringOps Ring
in_order = record {
  prepare = λ e k. if ltb (length k.0) 64 then some (k.0 ++ e ∷ [], k.1) else none;
  submit = λ k. ([], k.1 ++ k.0);
  wait = λ k. oldest k.0 k.1;
  seen = λ k. k;
}

oldest_lem :
    (p es : List Sqe)
    → es ≢ []
    → (before : List Sqe) × (e : Sqe) × (after : List Sqe) × (k' : Ring) × (es
        ≡ before ++ e ∷ after)
      × (oldest p es ≡ some (e.user_data, k'))
      × (k'.0 ≡ p)
      × (k'.1 ≡ before ++ after)
oldest_lem p [] ne = absurd (ne refl)
oldest_lem p (e ∷ es) ne = ([], e, es, (p, es), refl, refl, refl, refl)

pub in_order-UringLaws : UringLaws in_order 64
in_order-UringLaws = record {
  prepared = λ k. k.0;
  submitted = λ k. k.1;
  prepare_lem = λ e k h. ((k.0 ++ e ∷ [], k.1), rw (lt→ltb (length k.0) 64 h) refl, refl, refl);
  submit_lem = λ k. (refl, refl);
  wait_lem = λ k ne. oldest_lem k.0 k.1 ne;
  seen_lem = λ k. (refl, refl);
}

-- The server of `new_server` with a client that connects.
abbrev asks : Mem
asks = fill_bare client_ready alloc

joined :
    (c' : Clerk) × (s' : Server Db (Pairs Meta)) × (turn db index
        (received asks (new_clerk zeros))
        (written zeros server)
      ≡ done (replied c' s'))
unfolding turn new_clerk fill_bare load32 put_request store32 store blindset new
joined = (_, _, refl)

-- It asks for another chunk: its first goes into the queue.
moved_on :
    (c' : Clerk) × (s' : Server Db (Pairs Meta)) × (turn db index
        (received asks joined.0)
        (written zeros joined.1)
      ≡ done (replied c' s'))
    × (length s'.queue ≡ 1)
    × (occurrences 1 (slots (c' ∷ [])) ≡ 1)
unfolding turn new_clerk fill_bare load32 put_request store32 store blindset new joined
moved_on = (_, _, refl, refl, refl)

abbrev ring : IOuring Ring
ring = record { ring = ([], []); inflight = 0; offset = 0; qd = 64 }

pub ring-IsFresh : IsFresh in_order in_order-UringLaws db index ([], []) 64
unfolding in_order-UringLaws
ring-IsFresh = record {
  no_prepared = refl;
  no_submitted = refl;
  some_room = omega arith;
  depth = omega arith;
}

abbrev at_start : System Ring Db (Pairs Meta)
at_start = initial ([], []) 64 [] zeros one_pair

abbrev busy : System Ring Db (Pairs Meta)
busy = record { ring = ring; clerks = moved_on.0 ∷ []; server = moved_on.1 }

busy-Reachable : Reachable in_order db index at_start busy
unfolding initial load32 store32 store fill_bare put_request
busy-Reachable =
    later (later start (joins zeros asks zeros refl (joined.2)))
      (answers [] [] (joined.0) asks zeros (moved_on.2))

Reachable-OwnedOnce_example : OwnedOnce in_order in_order-UringLaws busy
Reachable-OwnedOnce_example =
    Reachable-OwnedOnce in_order in_order-UringLaws db index ([], []) 64 [] zeros one_pair busy
      ring-IsFresh busy-Reachable

Reachable-pass_example :
    (r' : IOuring Ring) × (s' : Server Db (Pairs Meta)) × (pass in_order busy.ring busy.server
      ≡ done (r', s'))
Reachable-pass_example =
    Reachable-pass in_order in_order-UringLaws db index ([], []) 64 [] zeros one_pair busy
      ring-IsFresh busy-Reachable

Reachable-drain_example :
    (r' : IOuring Ring) × (s' : Server Db (Pairs Meta)) × (passes in_order
        (waiting_count in_order in_order-UringLaws busy.ring busy.server)
        busy.ring
        busy.server
      ≡ done (r', s'))
    × Drained in_order in_order-UringLaws busy.ring r' busy.server s'
    × ((j : ℕ) → 0 < occurrences j (slots busy.clerks) → test s'.bitmap j ≡ true)
Reachable-drain_example =
    Reachable-drain in_order in_order-UringLaws db index ([], []) 64 [] zeros one_pair busy
      ring-IsFresh busy-Reachable

ring-IsSound : IsSound in_order in_order-UringLaws ring
unfolding in_order-UringLaws
ring-IsSound = record { counted = refl; room = omega arith; depth = omega arith }

abbrev items : List Item
items =
    record { buf = zeros; size = 4096; chunk = 3 }
    ∷ record { buf = zeros; size = 13; chunk = 0 }
    ∷ []

fill_lem_example :
    (r' : IOuring Ring) × (rest : List Item) × (fill in_order items ring ≡ done (r', rest))
    × Filled in_order in_order-UringLaws items ring r' rest
fill_lem_example = fill_lem in_order in_order-UringLaws items ring ring-IsSound
