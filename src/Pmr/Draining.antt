-- ===== src/Pmr/Draining.antt =====
-- As many passes of `UringRun` of frontend/pmr/pmr.cc as there are chunks to free.
use pmraccess.Base.{ℕ, zero, suc, ◌≡◌, refl, ◌∙◌, false, [], arith, ltb, if◌then◌else◌, length_zero}
use pmraccess.Outcome.{done}
use pmraccess.Uring.{UringOps, UringLaws, IOuring}
use pmraccess.Bitset.Laws.{test}
use pmraccess.Pmr.State.{Server}
use pmraccess.Pmr.Drain.{passes}
use pmraccess.Pmr.Filling.{IsSound}
use pmraccess.Pmr.Freeing.{waits, waiting_count, CanDrain, Freed, pass_lem}

module _ {K S T : Type 0} (u : UringOps K) {entries : ℕ} (laws : UringLaws u entries) where
  -- Nothing waits any more, the chunks that waited are free, and the rest is as it was.
  pub record Drained (r r' : IOuring K) (s s' : Server S T) : Type 0 where
    pub queue_done : s'.queue ≡ []
    pub ring_done : r'.inflight ≡ 0
    pub bits :
        (j : ℕ) → test s'.bitmap j ≡ (if ltb 0 (waits u laws j r s) then false else test s.bitmap j)
    pub same_db : s'.db ≡ s.db
    pub same_map : s'.map ≡ s.map
    pub same_region : s'.region ≡ s.region

  pub Freed-CanDrain :
      (r r' : IOuring K) (s s' : Server S T) (c : ℕ)
      → CanDrain u laws r s
      → Freed u laws r r' s s' c
      → CanDrain u laws r' s'
  Freed-CanDrain r r' s s' c d f = record {
    sound = f.sound;
    deep = omega (arith, f.same_depth, d.deep);
    valid = f.valid;
    sized = f.sized;
    once = λ j. ground (arith, f.gone j, f.bits j, d.once j);
    inside = λ j h. d.inside j (omega (arith, f.gone j));
  }

  pub nothing_waits :
      (r : IOuring K) (s : Server S T)
      → IsSound u laws r
      → waiting_count u laws r s ≡ 0
      → (s.queue ≡ []) × (r.inflight ≡ 0) × ((j : ℕ) → waits u laws j r s ≡ 0)
  nothing_waits r s h none_left =
      let no_queue : s.queue ≡ [] = length_zero s.queue (omega arith) in
      let no_prep : laws.prepared r.ring ≡ [] =
        length_zero (laws.prepared r.ring) (omega (arith, h.counted)) in
      let no_sub : laws.submitted r.ring ≡ [] =
        length_zero (laws.submitted r.ring) (omega (arith, h.counted)) in
      (no_queue, omega arith, λ j. rw (no_queue, no_prep, no_sub) refl)

  drain_from :
      (n : ℕ) (r : IOuring K) (s : Server S T)
      → CanDrain u laws r s
      → waiting_count u laws r s ≡ n
      → (r' : IOuring K) × (s' : Server S T) × (passes u n r s ≡ done (r', s')) × Drained r r' s s'
  unfolding passes
  drain_from zero r s d e =
      let (no_queue, no_flight, no_waits) = nothing_waits r s d.sound e in
      (
        r,
        s,
        refl,
        record {
          queue_done = no_queue;
          ring_done = no_flight;
          bits = λ j. rw (no_waits j) refl;
          same_db = refl;
          same_map = refl;
          same_region = refl;
        },
      )
  drain_from (suc n) r s d e =
      let (r1, s1, c, ran, f) = pass_lem u laws r s d (omega arith) in
      let (r2, s2, ran2, g) =
        drain_from n r1 s1 (Freed-CanDrain r r1 s s1 c d f) (omega (arith, f.fewer)) in
      (
        r2,
        s2,
        rw (ran, ran2),
        record {
          queue_done = g.queue_done;
          ring_done = g.ring_done;
          bits = λ j. ground (arith, g.bits j, f.bits j, f.gone j);
          same_db = g.same_db ∙ f.same_db;
          same_map = g.same_map ∙ f.same_map;
          same_region = g.same_region ∙ f.same_region;
        },
      )

  -- Where the waiting chunks are distinct and in use, so many passes of the loop of `UringRun` as
  -- there are waiting chunks, with no clerk at work, block on no completion and end with the queue
  -- and the ring empty: the chunks that waited are free, and no other chunk's bit, no value and no
  -- byte of the region has changed.
  pub passes-drain :
      (r : IOuring K) (s : Server S T)
      → CanDrain u laws r s
      → (r' : IOuring K) × (s' : Server S T) × (passes u (waiting_count u laws r s) r s
          ≡ done (r', s'))
        × Drained r r' s s'
  passes-drain r s d = drain_from (waiting_count u laws r s) r s d refl
