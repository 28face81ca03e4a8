-- ===== src/Pmr/Exclusive.antt =====
-- No chunk of the messaging buffer of frontend/pmr has two owners, whatever the clerks are sent and in
-- whatever order the threads take their turns.
use pmraccess.Base.{
  ℕ, ◌+◌, ◌≡◌, inl, inr, refl, sym, true, List, [], ◌∷◌, ◌++◌, arith, ltb, ◌==◌, occurrences,
  ℕ_discrete,
}
use pmraccess.Outcome.{done, ensured}
use pmraccess.Store.{Meta, DbOps, HashMapOps}
use pmraccess.Uring.{UringOps, UringLaws, IOuring}
use pmraccess.Bitset.Laws.{test}
use pmraccess.Bitset.Alloc.{Took}
use pmraccess.Pmr.State.{Server, Clerk, new_clerk, no_chunk}
use pmraccess.Pmr.Clerk.{replied, closed}
use pmraccess.Pmr.Drain.{fill, finish, pass}
use pmraccess.Pmr.Freeing.{waits, waiting_count, pass_lem}
use pmraccess.Pmr.Draining.{nothing_waits}
use pmraccess.Pmr.System.{System, Step, joins, answers, ends, drains, slot_of, received, written}
use pmraccess.Pmr.Turns.{Effect, Joined, turn_lem, first_turn_lem}
use pmraccess.Pmr.Ownership.{
  slots, owners, OwnedOnce, occurrences_clerk, waits_queued, has_chunk, took_lem,
}
use pmraccess.Pmr.Moves.{
  allocated_slot, counted_as, one_less, fewer_owners, more_owners, waits_same, written-OwnedOnce,
  owned-CanDrain,
}

module _ {K S T : Type 0} (u : UringOps K) {entries : ℕ} (laws : UringLaws u entries) where
  -- A pass returns: it frees a chunk, or there is none to free.
  pub pass_returns :
      (x : System K S T)
      → OwnedOnce u laws x
      → (r' : IOuring K) × (s' : Server S T) × (pass u x.ring x.server ≡ done (r', s'))
        × (let y : System K S T = record { ring = r'; clerks = x.clerks; server = s' } in
            OwnedOnce u laws y)
  unfolding pass finish fill
  pass_returns x o = elim (ℕ_discrete (waiting_count u laws x.ring x.server) 0) [
    | yes none_left ↦
        let (no_queue, no_flight, no_waits) =
          nothing_waits u laws x.ring x.server o.sound none_left in
        let s' : Server S T = record x.server { queue = [] } in
        (
          x.ring,
          s',
          rw (no_queue, no_flight) refl,
          fewer_owners u laws x.ring x.clerks x.clerks x.server s' o refl
              (λ j. omega (arith, waits_same u laws j x.ring x.server s' (sym no_queue))),
        )
    | no some_left ↦
        let (r', s', c, ran, f) =
          pass_lem u laws x.ring x.server (owned-CanDrain u laws x o) (omega arith) in
        (
          r',
          s',
          ran,
          record {
            sound = f.sound;
            deep = rw f.same_depth (o.deep);
            valid = f.valid;
            sized = f.sized;
            once = λ j.
                one_less (owners u laws j x) (occurrences j (slots x.clerks) + waits u laws j r' s')
                  (c == j) (test x.server.bitmap j) (test s'.bitmap j) (o.once j)
                  (omega (arith, f.gone j)) (f.bits j);
            inside = λ j h. o.inside j (omega (arith, f.gone j));
          },
        )
  ]

  module _ (db : DbOps S) (h : HashMapOps Meta T) where
    replied_lem :
        (r : IOuring K) (before after : List Clerk) (c c' : Clerk) (s s' : Server S T)
        → (let x : System K S T = record { ring = r; clerks = before ++ c ∷ after; server = s } in
            OwnedOnce u laws x)
        → Effect c s (replied c' s')
        → (let y : System K S T = record { ring = r; clerks = before ++ c' ∷ after; server = s' } in
            OwnedOnce u laws y)
    replied_lem r before after c c' s s' o (inl (offset, bits, queue)) =
        fewer_owners u laws r (before ++ c ∷ after) (before ++ c' ∷ after) s s' o bits (λ j. omega (
          arith,
          occurrences_clerk j before after c,
          occurrences_clerk j before after c',
          counted_as (slot_of c') (slot_of c) j (rw offset refl),
          waits_same u laws j r s s' queue,
        ))
    replied_lem r before after c c' s s' o (inr ((i, mine, queue), (slot, ran, offset))) =
        let t : Took s.bitmap 0 slot s'.bitmap = took_lem s.bitmap s'.bitmap slot o.valid ran in
        let new : slot_of c' ≡ slot =
          allocated_slot c' slot (omega (arith, t.within, o.sized)) offset in
        more_owners u laws r (before ++ c ∷ after) (before ++ c' ∷ after) s s' slot o t (λ j.
          omega (
            arith,
            occurrences_clerk j before after c,
            occurrences_clerk j before after c',
            counted_as (slot_of c') slot j new,
            counted_as i.chunk (slot_of c) j mine,
            waits_queued u laws j r s s' i queue,
          ))

    closed_lem :
        (r : IOuring K) (before after : List Clerk) (c : Clerk) (s s' : Server S T)
        → (let x : System K S T = record { ring = r; clerks = before ++ c ∷ after; server = s } in
            OwnedOnce u laws x)
        → Effect c s (closed s')
        → (let y : System K S T = record { ring = r; clerks = before ++ after; server = s' } in
            OwnedOnce u laws y)
    closed_lem r before after c s s' o (bits, inl queue) =
        fewer_owners u laws r (before ++ c ∷ after) (before ++ after) s s' o bits
          (λ j. omega (arith, occurrences_clerk j before after c, waits_same u laws j r s s' queue))
    closed_lem r before after c s s' o (bits, inr (i, mine, queue)) =
        fewer_owners u laws r (before ++ c ∷ after) (before ++ after) s s' o bits (λ j. omega (
          arith,
          occurrences_clerk j before after c,
          counted_as i.chunk (slot_of c) j mine,
          waits_queued u laws j r s s' i queue,
        ))

    joined_lem :
        (r : IOuring K) (cs : List Clerk) (c' : Clerk) (s s' : Server S T)
        → (let x : System K S T = record { ring = r; clerks = cs; server = s } in
            OwnedOnce u laws x)
        → Joined s (replied c' s')
        → (let y : System K S T = record { ring = r; clerks = c' ∷ cs; server = s' } in
            OwnedOnce u laws y)
    joined_lem r cs c' s s' o (queue, (slot, ran, offset)) =
        let t : Took s.bitmap 0 slot s'.bitmap = took_lem s.bitmap s'.bitmap slot o.valid ran in
        let new : slot_of c' ≡ slot =
          allocated_slot c' slot (omega (arith, t.within, o.sized)) offset in
        more_owners u laws r cs (c' ∷ cs) s s' slot o t
          (λ j. omega (arith, counted_as (slot_of c') slot j new, waits_same u laws j r s s' queue))

    -- A clerk of the system has a chunk.
    used :
        (r : IOuring K) (before after : List Clerk) (c : Clerk) (s : Server S T)
        → (let x : System K S T = record { ring = r; clerks = before ++ c ∷ after; server = s } in
            OwnedOnce u laws x)
        → ltb c.chunk_offset no_chunk ≡ true
    used r before after c s o =
        has_chunk c
          (o.inside (slot_of c) (ground (arith, occurrences_clerk (slot_of c) before after c)))

    -- Every step keeps the chunks apart.
    pub Step-OwnedOnce :
        (x y : System K S T) → OwnedOnce u laws x → Step u db h x y → OwnedOnce u laws y
    Step-OwnedOnce x y o (joins {r} {cs} {s} {s'} {c'} own buf region asked ran) =
        joined_lem r cs c' (written region s) s' (written-OwnedOnce u laws r cs s region o) (
          ensured (Joined (written region s))
            (first_turn_lem db h (received buf (new_clerk own)) (written region s)
              (unfold new_clerk in refl) asked)
            ran)
    Step-OwnedOnce x y o (answers {r} before after {s} {s'} c {c'} buf region ran) =
        replied_lem r before after c c' (written region s) s'
          (written-OwnedOnce u laws r (before ++ c ∷ after) s region o)
          (ensured (Effect (received buf c) (written region s))
            (turn_lem db h (received buf c) (written region s) (used r before after c s o)) ran)
    Step-OwnedOnce x y o (ends {r} before after {s} {s'} c buf region ran) =
        closed_lem r before after c (written region s) s'
          (written-OwnedOnce u laws r (before ++ c ∷ after) s region o)
          (ensured (Effect (received buf c) (written region s))
            (turn_lem db h (received buf c) (written region s) (used r before after c s o)) ran)
    Step-OwnedOnce x y o (drains {r} {r'} {cs} {s} {s'} ran) =
        let (r1, s1, ran1, o1) = pass_returns (record { ring = r; clerks = cs; server = s }) o in
        ensured
          (λ p.
            let y : System K S T = record { ring = p.0; clerks = cs; server = p.1 } in
            OwnedOnce u laws y)
          (rw ran1 o1) ran
