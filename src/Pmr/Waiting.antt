-- ===== src/Pmr/Waiting.antt =====
-- The chunks that wait for `UringRun` of frontend/pmr/pmr.cc to free them: how they move from the queue
-- into the ring, and out of it.
use mathlib.Core.List.{map-append}
use pmraccess.Base.{
  ℕ, suc, ◌+◌, ◌<◌, ◌≤◌, ◌≡◌, ◌⊎◌, inl, inr, sym, ap, ◌∙◌, List, [], ◌∷◌, ◌++◌, map, arith, ◌==◌,
  if◌then◌else◌, length, length-append, occurrences, occurrences-append,
}
use pmraccess.Uring.{Sqe, UringOps, UringLaws, IOuring}
use pmraccess.Pmr.State.{Item}
use pmraccess.Pmr.Filling.{place, length-place, map-place, IsSound, Filled}

abbrev pub in_queue : List Item → List ℕ
in_queue items = map (λ i. i.chunk) items

abbrev pub in_flight : List Sqe → List ℕ
in_flight es = map (λ e. e.user_data) es

occurrences_chunks :
    (j : ℕ) (xs ys : List Sqe)
    → occurrences j (in_flight (xs ++ ys))
      ≡ occurrences j (in_flight xs) + occurrences j (in_flight ys)
occurrences_chunks j xs ys =
    ap (occurrences j) (map-append (λ e. e.user_data) xs ys)
    ∙ occurrences-append j (in_flight xs) (in_flight ys)

-- A request out of the middle.
occurrences_middle :
    (j : ℕ) (before after : List Sqe) (e : Sqe)
    → occurrences j (in_flight (before ++ e ∷ after))
      ≡ occurrences j (in_flight (before ++ after)) + (if e.user_data == j then 1 else 0)
occurrences_middle j before after e =
    omega (arith, occurrences_chunks j before (e ∷ after), occurrences_chunks j before after)

-- Where the inner loop has stopped and something waits, something is in flight.
pub still_busy :
    (rest : List Item) (n qd : ℕ) → (rest ≡ []) ⊎ (qd ≤ n) → 0 < qd → 0 < length rest + n → 0 < n
still_busy rest n qd (inl e) deep h = let l = ap length e in omega (arith, l)
still_busy rest n qd (inr e) deep h = omega arith

module _ {K : Type 0} (u : UringOps K) {entries : ℕ} (laws : UringLaws u entries) where
  -- The inner loop moves chunks from the queue into the ring, and loses none.
  pub Filled-count :
      (items rest : List Item) (r r' : IOuring K)
      → IsSound u laws r
      → Filled u laws items r r' rest
      → length items + r.inflight ≡ length rest + r'.inflight
  Filled-count items rest r r' s f =
      let lengths : length items ≡ length f.taken + length rest =
        ap length f.split ∙ length-append f.taken rest in
      let prep : length (laws.prepared r'.ring) ≡ length (laws.prepared r.ring) + length f.taken =
        ap length f.placed
        ∙ length-append (laws.prepared r.ring) (place r.offset f.taken)
        ∙ ap (λ n. length (laws.prepared r.ring) + n) (length-place r.offset f.taken) in
      let sub : length (laws.submitted r'.ring) ≡ length (laws.submitted r.ring) =
        ap length f.same in
      omega (arith, s.counted, f.sound.counted)

  pub Filled-waits :
      (items rest : List Item) (r r' : IOuring K) (j : ℕ)
      → Filled u laws items r r' rest
      → occurrences j (in_queue items) + occurrences j (in_flight (laws.prepared r.ring))
        ≡ occurrences j (in_queue rest) + occurrences j (in_flight (laws.prepared r'.ring))
  Filled-waits items rest r r' j f =
      let queue : occurrences j (in_queue items)
          ≡ occurrences j (in_queue f.taken) + occurrences j (in_queue rest) =
        ap (λ is. occurrences j (in_queue is)) f.split
        ∙ ap (occurrences j) (map-append (λ i. i.chunk) f.taken rest)
        ∙ occurrences-append j (in_queue f.taken) (in_queue rest) in
      let prep : occurrences j (in_flight (laws.prepared r'.ring))
          ≡ occurrences j (in_flight (laws.prepared r.ring)) + occurrences j (in_queue f.taken) =
        ap (λ es. occurrences j (in_flight es)) f.placed
        ∙ occurrences_chunks j (laws.prepared r.ring) (place r.offset f.taken)
        ∙ ap (λ cs. occurrences j (in_flight (laws.prepared r.ring)) + occurrences j cs)
            (map-place r.offset f.taken) in
      omega arith

  -- The requests in the ring after a submission.
  pub submitted_lem :
      (r : IOuring K) (before after : List Sqe) (e : Sqe)
      → laws.submitted (u.submit r.ring) ≡ before ++ e ∷ after
      → (length (laws.prepared r.ring) + length (laws.submitted r.ring)
          ≡ suc (length (before ++ after)))
        × ((j : ℕ)
            → occurrences j (in_flight (laws.prepared r.ring))
                + occurrences j (in_flight (laws.submitted r.ring))
              ≡ occurrences j (in_flight (before ++ after)) + (if e.user_data == j then 1 else 0))
  submitted_lem r before after e split =
      let (no_prep, all_sub) = laws.submit_lem r.ring in
      let whole : laws.submitted r.ring ++ laws.prepared r.ring ≡ before ++ e ∷ after =
        sym all_sub ∙ split in
      (
        let n = ap length whole in
            omega (
              arith,
              n,
              length-append (laws.submitted r.ring) (laws.prepared r.ring),
              length-append before (e ∷ after),
              length-append before after,
            ),
        λ j.
            let n = ap (λ es. occurrences j (in_flight es)) whole in
            omega (
              arith,
              n,
              occurrences_chunks j (laws.submitted r.ring) (laws.prepared r.ring),
              occurrences_middle j before after e,
            ),
      )
