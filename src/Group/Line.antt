-- ===== src/Group/Line.antt =====
-- The queue of frontend/group/group.cc in every order of its clerks' actions: who leads, and what waits.
use pmraccess.Base.{
  ℕ, ◌+◌, ◌≤◌, ◌≡◌, ◌≢◌, refl, ◌∙◌, ap, Bool, true, false, Option, List, [], ◌∷◌, ◌++◌, arith, ltb,
  ◌==◌, if◌then◌else◌, occurrences, ℕ_discrete,
}
use pmraccess.Store.{DbOps}
use pmraccess.Group.{Writer}
use pmraccess.Group.Commit.{followers}
use pmraccess.Group.Queue.{
  Pc, idle, asleep, signalled, gathering, writing, popping, System, ids, at_front, look, at,
  marked_by, join, wake, build, put_out, release,
}
use pmraccess.Group.Places.{
  Placed, Placed-look, Placed-signalled, Placed-asleep, released, Placed-once, Placed-released,
  occurrences_joined, occurrences_split, at_front_joined, occurrences-followers,
}

-- Every clerk is in its place.
abbrev pub Orderly : {S : Type 0} → System S → Type 0
Orderly s = (i : ℕ) → Placed (s.pc i) (s.flag i) (at_front i s.queue) (occurrences i (ids s.queue))

pub at_same : {A : Type 0} (f : ℕ → A) (i : ℕ) (v : A) → at f i v i ≡ v
at_same f i v = ground arith

at_other : {A : Type 0} (f : ℕ → A) (i : ℕ) (v : A) (j : ℕ) → i ≢ j → at f i v j ≡ f j
at_other f i v j ne = ground arith

Placed-same :
    (p p' : Pc) (d d' f f' : Bool) (n n' : ℕ)
    → p ≡ p'
    → d ≡ d'
    → f ≡ f'
    → n ≡ n'
    → Placed p' d' f' n'
    → Placed p d f n
Placed-same p p' d d' f f' n n' ep ed ef en h = rw (ep, ed, ef, en) h

-- One clerk moves, in a queue that stays.
moved-Orderly :
    {S : Type 0} (s : System S) (i : ℕ) (p : Pc)
    → Orderly s
    → Placed p (s.flag i) (at_front i s.queue) (occurrences i (ids s.queue))
    → (j : ℕ) → Placed (at s.pc i p j) (s.flag j) (at_front j s.queue) (occurrences j (ids s.queue))
moved-Orderly s i p o h j = elim (ℕ_discrete i j) [
  | yes same ↦ rw (← same) (Placed-same _ p _ _ _ _ _ _ (at_same s.pc i p) refl refl refl h)
  | no ne ↦ Placed-same _ (s.pc j) _ _ _ _ _ _ (at_other s.pc i p j ne) refl refl refl (o j)
]

marked_count :
    (n in_batch n' marked : ℕ)
    → n ≡ in_batch + n'
    → marked ≡ in_batch
    → n ≤ 1
    → n ≡ n' + (if ltb 0 marked then 1 else 0)
marked_count n in_batch n' marked e f h = ground arith

at_front_last :
    (w : Writer) (ws : List Writer)
    → occurrences w.id (ids ws) ≡ 0
    → Placed
        (look false (at_front w.id (ws ++ w ∷ [])))
        false
        (at_front w.id (ws ++ w ∷ []))
        (occurrences w.id (ids (ws ++ w ∷ [])))
at_front_last w ws absent =
    let once : occurrences w.id (ids (ws ++ w ∷ [])) ≡ 1 =
      ground (arith, occurrences_joined w.id ws w) in
    rw once (Placed-look (at_front w.id (ws ++ w ∷ [])))

module _ {S : Type 0} (s : System S) (o : Orderly s) where
  pub join-Orderly : (w : Writer) → s.pc w.id ≡ idle → Orderly (join w s)
  unfolding join
  join-Orderly w e i = elim (ℕ_discrete w.id i) [
    | yes same ↦ rw (← same) (
        Placed-same _ (look false (at_front w.id (s.queue ++ w ∷ []))) _ false _ _ _ _
          (at_same s.pc w.id _) (at_same s.flag w.id _) refl refl
          (at_front_last w s.queue (rw e at (o w.id))))
    | no ne ↦
        Placed-same _ (s.pc i) _ (s.flag i) _ (at_front i s.queue) _ (occurrences i (ids s.queue))
          (at_other s.pc w.id _ i ne) (at_other s.flag w.id _ i ne) (at_front_joined i s.queue w ne)
          (ground (arith, occurrences_joined i s.queue w)) (o i)
  ]

  pub wake_signalled-Orderly : (i : ℕ) → s.pc i ≡ signalled → Orderly (wake i s)
  unfolding wake
  wake_signalled-Orderly i e = moved-Orderly s i (look (s.flag i) (at_front i s.queue)) o (
      Placed-signalled (s.flag i) (at_front i s.queue) (occurrences i (ids s.queue))
        (rw e at (o i)))

  pub wake_asleep-Orderly : (i : ℕ) → s.pc i ≡ asleep → Orderly (wake i s)
  unfolding wake
  wake_asleep-Orderly i e =
      moved-Orderly s i (look (s.flag i) (at_front i s.queue)) o (
        Placed-asleep (s.flag i) (at_front i s.queue) (occurrences i (ids s.queue)) (rw e at (o i)))

  pub build-Orderly : (i : ℕ) → s.pc i ≡ gathering → Orderly (build i s)
  unfolding build
  build-Orderly i e = moved-Orderly s i (writing _) o (rw e at (o i))

  pub put_out-Orderly :
      (db : DbOps S) (i : ℕ) (last : Option ℕ)
      → s.pc i ≡ writing last
      → Orderly (put_out db i last s)
  unfolding put_out
  put_out-Orderly db i last e = moved-Orderly s i (popping last) o (rw e at (o i))

  -- The release of the batch `w ∷ ws`.
  pub release-Orderly :
      (i : ℕ) (last : Option ℕ) (w : Writer) (ws rest : List Writer)
      → s.pc i ≡ popping last
      → s.queue ≡ (w ∷ ws) ++ rest
      → Orderly (release i (followers i (w ∷ ws)) rest s)
  unfolding release
  release-Orderly i last w ws rest e q j =
      let mine : Placed (popping last) (s.flag i) (at_front i s.queue)
          (occurrences i (ids s.queue)) =
        rw e at (o i) in
      let lead : (w.id == i) ≡ true = rw q at (mine.1) in
      let total : occurrences j (ids s.queue)
          ≡ occurrences j (ids (w ∷ ws)) + occurrences j (ids rest) =
        ap (λ ws'. occurrences j (ids ws')) q ∙ occurrences_split j (w ∷ ws) rest in
      elim (ℕ_discrete i j) [
        | yes same ↦
            let alone : occurrences j (ids s.queue) ≡ 1 = rw same at (mine.0) in
            let here : (i == j) ≡ true = ground arith in
            Placed-same _ idle _ _ _ _ _ _ (rw here refl) refl refl refl (ground arith)
        | no ne ↦
            let there : (i == j) ≡ false = ground arith in
            let behind : at_front j s.queue ≡ false = rw q (ground arith) in
            let few : occurrences j (ids s.queue) ≤ 1 =
              Placed-once (s.pc j) (s.flag j) (at_front j s.queue) (occurrences j (ids s.queue))
                (o j) in
            let marked : occurrences j (followers i (w ∷ ws)) ≡ occurrences j (ids (w ∷ ws)) =
              occurrences-followers i j (w ∷ ws) ne in
            Placed-same _ (released (s.pc j) (marked_by (followers i (w ∷ ws)) j) (at_front j rest))
              _ _ _ _ _ _ (rw there refl) refl refl refl
              (Placed-released (s.pc j) (s.flag j) (marked_by (followers i (w ∷ ws)) j)
                (at_front j rest) (occurrences j (ids s.queue)) (occurrences j (ids rest))
                (rw behind at (o j)) (marked_count _ _ _ _ total marked few))
      ]
