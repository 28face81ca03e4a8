-- ===== src/Group/Serial.antt =====
-- Group commit in frontend/group/group.cc is as good as one put after the other, whatever order its
-- clerks act in.
use mathlib.Core.List.{append_assoc}
use pmraccess.Base.{
  ℕ, ◌≤◌, ◌≡◌, ◌≢◌, refl, sym, ◌∙◌, ap, true, false, Option, none, some, List, [], ◌∷◌, ◌++◌, arith,
  ◌==◌, occurrences, Bool-cases, inl, inr, Bytes,
}
use pmraccess.Store.{DbOps, DbLaws}
use pmraccess.Group.{Writer, WriteBatch, build_batch_group, pop_until}
use pmraccess.Group.Batch.{AllFit, Fits, taken, last_of, build_batch_group_lem}
use pmraccess.Group.Commit.{after_puts, followers, batch_puts, pop_until_lem}
use pmraccess.Group.Clerk.{commit}
use pmraccess.Group.Queue.{
  idle, gathering, writing, popping, System, ids, at_front, look, marked_by, join, wake, build,
  put_out, release, Step, joins, wakes, wakes_spuriously, builds, writes, pops,
}
use pmraccess.Group.Places.{Placed, occurrences_split, Distinct-lem, Placed-once}
use pmraccess.Group.Line.{
  Orderly, join-Orderly, wake_signalled-Orderly, wake_asleep-Orderly, build-Orderly,
  put_out-Orderly, release-Orderly,
}
use pmraccess.Group.Order.{
  Phase, front_pc, front_here, taken_prefix, after_puts-append, AllFit-append, AllFit-rest,
  Phase-look, Phase-moved, Phase-joined, taken_some, Phase-released,
}

distinct : true ≢ false
distinct e = cc

last_is : (y : ℕ) (ws : List Writer) → (l : ℕ) × (last_of ws (some y) ≡ some l)
last_is y [] = (y, refl)
last_is y (w ∷ ws) = last_is w.id ws

some_same : {m n : ℕ} → some m ≡ some n → m ≡ n
some_same e = cc

popped_same :
    {xs ys : List ℕ} {us vs : List Writer}
    → ◌≡◌ {A = Option (List ℕ × List Writer)} (some (xs, us)) (some (ys, vs))
    → (xs ≡ ys) × (us ≡ vs)
popped_same {xs} {ys} {us} {vs} e = (ap (λ o. (value o).0) e, ap (λ o. (value o).1) e)
  where
    value : Option (List ℕ × List Writer) → List ℕ × List Writer
    value none = (xs, us)
    value (some p) = p

module _ {S : Type 0} (db : DbOps S) (view : S → Bytes → Option Bytes)
    (old : Bytes → Option Bytes) where
  -- Every clerk is in its place, requests are stored in the order in which they joined, and a reader
  -- sees them as puts over the values `old`.
  pub record Serial (s : System S) : Type 0 where
    pub orderly : Orderly s
    pub fits : AllFit s.queue
    pub phase : Phase s.joined s.stored s.queue s.chosen s.server.batch (front_pc s.pc s.queue)
    pub value : (j : Bytes) → view s.server.db j ≡ after_puts s.stored j (old j)

  join-Serial :
      (s : System S) (w : Writer) → Serial s → s.pc w.id ≡ idle → Fits w → Serial (join w s)
  unfolding join
  join-Serial s w v e f = record {
    orderly = join-Orderly s v.orderly w e;
    fits = AllFit-append s.queue w v.fits f;
    phase =
        Phase-joined s.joined s.stored s.queue s.chosen s.server.batch s.pc w
          (rw e at (v.orderly w.id)) v.phase;
    value = v.value;
  }

  wake-Serial :
      (s : System S) (i : ℕ)
      → Serial s
      → Orderly (wake i s)
      → (Phase s.joined s.stored s.queue s.chosen s.server.batch (s.pc i)
          → s.joined ≡ s.stored ++ s.queue)
      → Serial (wake i s)
  unfolding wake
  wake-Serial s i v o settled = record {
    orderly = o;
    fits = v.fits;
    phase =
        Phase-moved s.joined s.stored s.queue s.chosen s.server.batch s.pc i
          (look (s.flag i) (at_front i s.queue))
          (λ here.
            Phase-look s.joined s.stored s.queue s.chosen s.server.batch (s.flag i)
              (at_front i s.queue) (settled (rw (front_here s.pc i s.queue here) at (v.phase))))
          (λ there. v.phase);
    value = v.value;
  }

  build-Serial : (s : System S) (i : ℕ) → Serial s → s.pc i ≡ gathering → Serial (build i s)
  unfolding build
  build-Serial s i v e =
      let mine : Placed gathering (s.flag i) (at_front i s.queue) (occurrences i (ids s.queue)) =
        rw e at (v.orderly i) in
      let settled : s.joined ≡ s.stored ++ s.queue =
        rw (front_here s.pc i s.queue (mine.1), e) at (v.phase) in
      let b : WriteBatch × Option ℕ = build_batch_group s.queue s.server.batch in
      let (holds, size, bound, ends) = build_batch_group_lem s.queue s.server.batch v.fits in
      let (rest, split) = taken_prefix 0 s.queue in
      let (first, others, some_writers) = taken_some i 0 s.queue (mine.1) in
      record {
        orderly = build-Orderly s v.orderly i e;
        fits = v.fits;
        phase =
            Phase-moved s.joined s.stored s.queue (taken 0 s.queue) b.0 s.pc i (writing b.1)
              (λ here. (
                settled,
                (
                  rest,
                  record {
                    first = first;
                    others = others;
                    some_writers = some_writers;
                    split = split;
                    ends = sym ends;
                  },
                ),
                record {
                  queue = s.queue;
                  old = s.server.batch;
                  fits = v.fits;
                  takes = refl;
                  is_batch = refl;
                },
              ))
              (λ there. absurd (distinct (sym (mine.1) ∙ there)));
        value = v.value;
      }

  put_out-Serial :
      (s : System S) (i : ℕ) (last : Option ℕ)
      → DbLaws db view
      → Serial s
      → s.pc i ≡ writing last
      → Serial (put_out db i last s)
  unfolding put_out commit
  put_out-Serial s i last laws v e =
      let mine : Placed (writing last) (s.flag i) (at_front i s.queue)
          (occurrences i (ids s.queue)) =
        rw e at (v.orderly i) in
      let (settled, (rest, c), b) = rw (front_here s.pc i s.queue (mine.1), e) at (v.phase) in
      record {
        orderly = put_out-Orderly s v.orderly db i last e;
        fits = v.fits;
        phase =
            Phase-moved s.joined (s.stored ++ s.chosen) s.queue s.chosen s.server.batch s.pc i
              (popping last)
              (λ here. (
                rest,
                c,
                settled
                    ∙ ap (λ ws. s.stored ++ ws) c.split
                    ∙ sym (append_assoc s.stored s.chosen rest),
              ))
              (λ there. absurd (distinct (sym (mine.1) ∙ there)));
        value = λ j.
            ap
              (λ (b' : WriteBatch).
                view (db.put_batch b'.keys b'.metas b'.buffer b'.batch_length s.server.db).1 j)
              b.is_batch
            ∙ batch_puts db view laws b.queue b.old s.server.db j b.fits
            ∙ ap (λ ws. after_puts ws j (view s.server.db j)) b.takes
            ∙ ap (after_puts s.chosen j) (v.value j)
            ∙ sym (after_puts-append s.stored s.chosen j (old j));
      }

  -- The clerk at the front of what is left behind the batch `w ∷ ws`.
  front_released :
      (s : System S) (i : ℕ) (w : Writer) (ws rest : List Writer)
      → Orderly s
      → at_front i s.queue ≡ true
      → s.queue ≡ (w ∷ ws) ++ rest
      → s.joined ≡ s.stored ++ rest
      → (let t : System S = release i (followers i (w ∷ ws)) rest s in
          Phase s.joined s.stored rest s.chosen s.server.batch (front_pc t.pc rest))
  unfolding release
  front_released s i w ws [] o lead q order = order
  front_released s i w ws (x ∷ xs) o lead q order = elim (Bool-cases (i == x.id)) [
    | inl same ↦ rw same order
    | inr other ↦
        let first : (w.id == i) ≡ true = rw q at lead in
        let behind : at_front x.id s.queue ≡ false = rw q (ground arith) in
        rw other (
          Phase-released s.joined s.stored (x ∷ xs) s.chosen s.server.batch (s.pc x.id)
            (s.flag x.id) (marked_by (followers i (w ∷ ws)) x.id) (at_front x.id (x ∷ xs))
            (occurrences x.id (ids s.queue)) (rw behind at (o x.id)) order)
  ]

  released_lem :
      (s : System S) (i : ℕ) (last : Option ℕ) (w : Writer) (ws rest : List Writer)
      → Serial s
      → s.pc i ≡ popping last
      → s.queue ≡ (w ∷ ws) ++ rest
      → s.joined ≡ s.stored ++ rest
      → Serial (release i (followers i (w ∷ ws)) rest s)
  unfolding release
  released_lem s i last w ws rest v e q order =
      let mine : Placed (popping last) (s.flag i) (at_front i s.queue)
          (occurrences i (ids s.queue)) =
        rw e at (v.orderly i) in
      record {
        orderly = release-Orderly s v.orderly i last w ws rest e q;
        fits = AllFit-rest (w ∷ ws) rest (rw q at (v.fits));
        phase = front_released s i w ws rest v.orderly (mine.1) q order;
        value = v.value;
      }

  -- The leader's loop lets go the batch, and leaves what is behind it.
  pub popping_lem :
      (s : System S) (i : ℕ) (last : Option ℕ)
      → Serial s
      → s.pc i ≡ popping last
      → (w : Writer) × (ws : List Writer) × (rest : List Writer) × (l : ℕ) × (last ≡ some l)
        × (s.queue ≡ (w ∷ ws) ++ rest)
        × (s.joined ≡ s.stored ++ rest)
        × (pop_until i l s.queue ≡ some (followers i (w ∷ ws), rest))
  popping_lem s i last v e =
      let mine : Placed (popping last) (s.flag i) (at_front i s.queue)
          (occurrences i (ids s.queue)) =
        rw e at (v.orderly i) in
      let (rest, c, order) = rw (front_here s.pc i s.queue (mine.1), e) at (v.phase) in
      let q : s.queue ≡ (c.first ∷ c.others) ++ rest =
        c.split ∙ ap (λ ws. ws ++ rest) c.some_writers in
      let once : (j : ℕ) → occurrences j (ids (c.first ∷ c.others)) ≤ 1 = λ j.
        let n = ap (λ ws. occurrences j (ids ws)) q in
        omega (
          arith,
          n,
          occurrences_split j (c.first ∷ c.others) rest,
          Placed-once (s.pc j) (s.flag j) (at_front j s.queue) (occurrences j (ids s.queue))
              (v.orderly j),
        ) in
      let (l, ends) = last_is c.first.id c.others in
      (
        c.first,
        c.others,
        rest,
        l,
        sym (c.ends) ∙ ap (λ ws. last_of ws none) c.some_writers ∙ ends,
        q,
        order,
        ap (pop_until i l) q
            ∙ pop_until_lem i l c.first c.others rest (Distinct-lem (c.first ∷ c.others) once) ends,
      )

  release-Serial :
      (s : System S) (i last : ℕ) (marked : List ℕ) (left : List Writer)
      → Serial s
      → s.pc i ≡ popping (some last)
      → pop_until i last s.queue ≡ some (marked, left)
      → Serial (release i marked left s)
  release-Serial s i last marked left v e popped =
      let (w, ws, rest, l, is_last, q, order, fact) = popping_lem s i (some last) v e in
      let same : last ≡ l = some_same is_last in
      let (marks, leaves) =
        popped_same (sym fact ∙ ap (λ n. pop_until i n s.queue) (sym same) ∙ popped) in
      rw (← marks, ← leaves) (released_lem s i (some last) w ws rest v e q order)

  pub Serial-Step : (s t : System S) → DbLaws db view → Serial s → Step db s t → Serial t
  Serial-Step s t laws v (joins w e f) = join-Serial s w v e f
  Serial-Step s t laws v (wakes i e) =
      wake-Serial s i v (wake_signalled-Orderly s v.orderly i e) (λ h. rw e at h)
  Serial-Step s t laws v (wakes_spuriously i e) =
      wake-Serial s i v (wake_asleep-Orderly s v.orderly i e) (λ h. rw e at h)
  Serial-Step s t laws v (builds i e) = build-Serial s i v e
  Serial-Step s t laws v (writes i last e) = put_out-Serial s i last laws v e
  Serial-Step s t laws v (pops i last marked left e popped) =
      release-Serial s i last marked left v e popped
