-- ===== src/Pmr/Freeing.antt =====
-- A pass of `UringRun` of frontend/pmr/pmr.cc, and as many passes as there are chunks to free.
use pmraccess.Base.{
  ℕ, suc, ◌+◌, ◌<◌, ◌≤◌, ◌≡◌, ◌≢◌, refl, sym, ap, ◌∙◌, false, [], ◌++◌, arith, ◌==◌, if◌then◌else◌,
  length, length-append, occurrences,
}
use pmraccess.Outcome.{done}
use pmraccess.Uring.{UringOps, UringLaws, IOuring, empty, submit, seen}
use pmraccess.Bitset.Laws.{test, IsValid}
use pmraccess.Pmr.State.{Server, chunk_count}
use pmraccess.Pmr.Drain.{complete, finish, pass}
use pmraccess.Pmr.Filling.{IsSound, fill_lem}
use pmraccess.Pmr.Owners.{bit_at, free_chunk_lem}
use pmraccess.Pmr.Waiting.{
  in_queue, in_flight, still_busy, Filled-count, Filled-waits, submitted_lem,
}

module _ {K S T : Type 0} (u : UringOps K) {entries : ℕ} (laws : UringLaws u entries) where
  -- How often a chunk waits to be freed: in the queue, prepared, or submitted.
  abbrev pub waits : ℕ → IOuring K → Server S T → ℕ
  waits c r s =
      occurrences c (in_queue s.queue)
      + (occurrences c (in_flight (laws.prepared r.ring))
          + occurrences c (in_flight (laws.submitted r.ring)))

  -- How many chunks wait.
  abbrev pub waiting_count : IOuring K → Server S T → ℕ
  waiting_count r s = length s.queue + r.inflight

  -- Each waiting chunk is there once, with its bit set.
  pub record CanDrain (r : IOuring K) (s : Server S T) : Type 0 where
    pub sound : IsSound u laws r
    pub deep : 0 < r.qd
    pub valid : IsValid s.bitmap
    pub sized : s.bitmap.size ≡ chunk_count
    pub once : (c : ℕ) → waits c r s ≤ bit_at s.bitmap c
    pub inside : (c : ℕ) → 0 < waits c r s → c < chunk_count

  -- A pass has freed the chunk `c`, and nothing else has changed but the place of the others.
  pub record Freed (r r' : IOuring K) (s s' : Server S T) (c : ℕ) : Type 0 where
    pub sound : IsSound u laws r'
    pub same_depth : r'.qd ≡ r.qd
    pub fewer : waiting_count r s ≡ suc (waiting_count r' s')
    pub gone : (j : ℕ) → waits j r s ≡ waits j r' s' + (if c == j then 1 else 0)
    pub valid : IsValid s'.bitmap
    pub sized : s'.bitmap.size ≡ chunk_count
    pub bits : (j : ℕ) → test s'.bitmap j ≡ (if c == j then false else test s.bitmap j)
    pub same_db : s'.db ≡ s.db
    pub same_map : s'.map ≡ s.map
    pub same_region : s'.region ≡ s.region

  -- A pass with something to free.
  pub pass_lem :
      (r : IOuring K) (s : Server S T)
      → CanDrain r s
      → 0 < waiting_count r s
      → (r' : IOuring K) × (s' : Server S T) × (c : ℕ) × (pass u r s ≡ done (r', s'))
        × Freed r r' s s' c
  unfolding pass finish complete submit seen
  pass_lem r s d some_left =
      let (r1, rest, filled, f) = fill_lem u laws s.queue r d.sound in
      let count : length s.queue + r.inflight ≡ length rest + r1.inflight =
        Filled-count u laws s.queue rest r r1 d.sound f in
      let some_now : 0 < r1.inflight =
        still_busy rest r1.inflight r1.qd f.stopped (omega (arith, f.same_depth, d.deep))
          (omega arith) in
      let busy : empty r1 ≡ false = ground arith in
      let (no_prep, all_sub) = laws.submit_lem r1.ring in
      let nonempty : laws.submitted (u.submit r1.ring) ≢ [] = λ none_there.
        let n = ap length (sym all_sub ∙ none_there) in
        omega (
          arith,
          n,
          f.sound.counted,
          length-append (laws.submitted r1.ring) (laws.prepared r1.ring),
        ) in
      let (before, e, after, k, split, ran, prep, sub) =
        laws.wait_lem (u.submit r1.ring) nonempty in
      let (kept_prep, kept_sub) = laws.seen_lem k in
      let ring_prep : laws.prepared (u.seen k) ≡ [] = kept_prep ∙ prep ∙ no_prep in
      let ring_sub : laws.submitted (u.seen k) ≡ before ++ after = kept_sub ∙ sub in
      let (fewer, gone) = submitted_lem u laws r1 before after e split in
      let now : (j : ℕ)
          → waits j r s
            ≡ occurrences j (in_queue rest)
              + occurrences j (in_flight (before ++ after))
              + (if e.user_data == j then 1 else 0) =
        λ j. omega (
          arith,
          Filled-waits u laws s.queue rest r r1 j f,
          gone j,
          ap (λ es. occurrences j (in_flight es)) f.same,
        ) in
      let mine : 0 < waits e.user_data r s = ground (arith, now e.user_data) in
      let (b, freed, valid, sized, bits) =
        free_chunk_lem e.user_data (record s { queue = rest }) d.valid d.sized
          (d.inside e.user_data mine) (ground (arith, d.once e.user_data)) in
      (
        seen u (record r1 { ring = k }),
        record s { queue = rest; bitmap = b },
        e.user_data,
        rw (filled, busy, ran, freed),
        record {
          sound = record {
            counted = rw (ring_prep, ring_sub) (omega (arith, f.sound.counted, fewer));
            room = omega (arith, f.sound.room);
            depth = f.sound.depth;
          };
          same_depth = f.same_depth;
          fewer = omega (arith, count);
          gone = λ j. rw (ring_prep, ring_sub) (omega (arith, now j));
          valid = valid;
          sized = sized;
          bits = bits;
          same_db = refl;
          same_map = refl;
          same_region = refl;
        },
      )
