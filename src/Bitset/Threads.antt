-- ===== src/Bitset/Threads.antt =====
-- Threads that allocate and free chunks at the same time: `blindset` and `clear` of
-- frontend/pmr/atomicbitset.h an atomic access at a time, as `PMRServer::AllocChunk` and
-- `FreeChunk` of frontend/pmr/pmr.cc call them from clerks and from the thread of `UringRun`.
use pmraccess.Base.{
  ℕ, suc, ◌<◌, ◌≤◌, ◌≡◌, ◌≢◌, refl, sym, ◌∙◌, ap, Bool, true, false, ◌==◌, arith, if◌then◌else◌,
  Bool-cases, inl, inr,
}
use pmraccess.Outcome.{Outcome, done}
use pmraccess.Bitset.{AtomicBitset, new, set_bit, clear, get}
use pmraccess.Bitset.Laws.{test, IsValid, new_lem, get_lem, set_bit_lem, clear_lem}

-- Where a thread stands in `blindset`, or the slot that it holds.
pub data Pc : Type 0 where
  idle : Pc
  loading : ℕ → Pc  -- before `get(i)`
  setting : ℕ → Pc  -- `get(i)` was false, before `set(i)`
  holding : ℕ → Pc  -- `blindset` has returned

abbrev pub update : (ℕ → Pc) → ℕ → Pc → ℕ → Pc
update pc i p j = if i == j then p else pc j

-- One access of a thread at `p` to the shared bits `b`.
pub data Move (b : AtomicBitset) : Pc → AtomicBitset → Pc → Type 0 where
  begin : Move b idle b (loading 0)
  seen : {i : ℕ} → i < b.size → get i b ≡ done true → Move b (loading i) b (loading (suc i))
  free : {i : ℕ} → i < b.size → get i b ≡ done false → Move b (loading i) b (setting i)
  retry : {i : ℕ} → b.size ≤ i → Move b (loading i) b (loading 0)
  lost :
      {i : ℕ} {b' : AtomicBitset}
      → set_bit i b ≡ done (true, b')
      → Move b (setting i) b' (loading (suc i))
  won :
      {i : ℕ} {b' : AtomicBitset}
      → set_bit i b ≡ done (false, b')
      → Move b (setting i) b' (holding i)
  release :
      {i : ℕ} {old : Bool} {b' : AtomicBitset}
      → clear i b ≡ done (old, b')
      → Move b (holding i) b' idle

pub record System : Type 0 where
  pub bits : AtomicBitset
  pub pc : ℕ → Pc

pub data Reach (n : ℕ) : System → Type 0 where
  start : Reach n (record { bits = new n; pc = λ _. idle })
  later :
      {s : System} (t : ℕ) {b' : AtomicBitset} {p : Pc}
      → Reach n s
      → Move s.bits (s.pc t) b' p
      → Reach n (record { bits = b'; pc = update s.pc t p })

pub record Inv (n : ℕ) (b : AtomicBitset) (pc : ℕ → Pc) : Type 0 where
  pub valid : IsValid b
  pub sized : b.size ≡ n
  pub chosen : (t i : ℕ) → pc t ≡ setting i → i < n
  pub held : (t i : ℕ) → pc t ≡ holding i → (i < n) × (test b i ≡ true)
  pub unique : (t u i : ℕ) → pc t ≡ holding i → pc u ≡ holding i → t ≡ u

done-injective {ℓ} : {A : Type ℓ} {x y : A} → done x ≡ done y → x ≡ y
done-injective {A} {x} {y} e = ap (value x) e
  where
    value : A → Outcome A → A
    value d (done a) = a
    value d _ = d

-- What a move does to the bits and to the mover's part of the invariant.
record Effect (n : ℕ) (b : AtomicBitset) (p : Pc) (b' : AtomicBitset) (p' : Pc) : Type 0 where
  valid : IsValid b'
  sized : b'.size ≡ n
  chosen : (i : ℕ) → p' ≡ setting i → i < n
  -- A new holder found the bit clear.
  taken : (i : ℕ) → p' ≡ holding i → (i < n) × (test b i ≡ false) × (test b' i ≡ true)
  -- A bit goes from set to clear only by the move of its holder.
  kept : (i : ℕ) → test b i ≡ true → p ≢ holding i → test b' i ≡ true

module _ (n : ℕ) (b : AtomicBitset) (v : IsValid b) (e : b.size ≡ n) where
  same_bits :
      (p p' : Pc)
      → ((i : ℕ) → p' ≡ setting i → i < n)
      → ((i : ℕ) → p' ≢ holding i)
      → Effect n b p b p'
  same_bits p p' hs hh = record {
    valid = v;
    sized = e;
    chosen = hs;
    taken = λ i q. absurd (hh i q);
    kept = λ i t ne. t;
  }

  set-Effect :
      (i : ℕ) (old : Bool) (b' : AtomicBitset) (p p' : Pc)
      → i < n
      → set_bit i b ≡ done (old, b')
      → ((j : ℕ) → p' ≢ setting j)
      → ((j : ℕ) → p' ≡ holding j → (j ≡ i) × (old ≡ false))
      → Effect n b p b' p'
  set-Effect i old b' p p' lt ran ns hold =
      let (b2, ran2, v2, sz, bits) = set_bit_lem i b v (omega arith) in
      let pair : (test b i, b2) ≡ (old, b') = done-injective (sym ran2 ∙ ran) in
      let same : b2 ≡ b' = ap (λ r. r.1) pair in
      let was : test b i ≡ old = ap (λ r. r.0) pair in
      record {
        valid = rw same at v2;
        sized = ap (λ x. x.size) (sym same) ∙ sz ∙ e;
        chosen = λ j q. absurd (ns j q);
        taken = λ j q.
            let (at, clear_before) = hold j q in
            (omega arith, rw at (was ∙ clear_before), rw (← same, at, bits i) (ground arith));
        kept = λ j t ne. rw (← same, bits j) (ground arith);
      }

  clear-Effect :
      (i : ℕ) (old : Bool) (b' : AtomicBitset)
      → i < n
      → clear i b ≡ done (old, b')
      → Effect n b (holding i) b' idle
  clear-Effect i old b' lt ran =
      let (b2, ran2, v2, sz, bits) = clear_lem i b v (omega arith) in
      let same : b2 ≡ b' = ap (λ r. r.1) (done-injective (sym ran2 ∙ ran)) in
      record {
        valid = rw same at v2;
        sized = ap (λ x. x.size) (sym same) ∙ sz ∙ e;
        chosen = λ j q. cc;
        taken = λ j q. cc;
        kept = λ j t ne.
            rw (← same, bits j)
              (elim (Bool-cases (i == j)) [
                | inl eq ↦ absurd (ne (ap holding (ground arith)))
                | inr no_eq ↦ rw no_eq t
              ]);
      }

effect :
    (n : ℕ) (b : AtomicBitset) (p : Pc) (b' : AtomicBitset) (p' : Pc)
    → IsValid b
    → b.size ≡ n
    → ((i : ℕ) → p ≡ setting i → i < n)
    → ((i : ℕ) → p ≡ holding i → i < n)
    → Move b p b' p'
    → Effect n b p b' p'
effect n b p b' p' v e hs hh begin = same_bits n b v e idle (loading 0) (λ i q. cc) (λ i q. cc)
effect n b p b' p' v e hs hh (seen {i} lt g) =
    same_bits n b v e (loading i) (loading (suc i)) (λ j q. cc) (λ j q. cc)
effect n b p b' p' v e hs hh (free {i} lt g) =
    same_bits n b v e (loading i) (setting i) (λ j q. ground arith) (λ j q. cc)
effect n b p b' p' v e hs hh (retry {i} le) =
    same_bits n b v e (loading i) (loading 0) (λ j q. cc) (λ j q. cc)
effect n b p b' p' v e hs hh (lost {i} {b' = c} ran) =
    set-Effect n b v e i true c (setting i) (loading (suc i)) (hs i refl) ran (λ j q. cc)
      (λ j q. cc)
effect n b p b' p' v e hs hh (won {i} {b' = c} ran) =
    set-Effect n b v e i false c (setting i) (holding i) (hs i refl) ran (λ j q. cc)
      (λ j q. ground arith)
effect n b p b' p' v e hs hh (release {i} {old} {b' = c} ran) =
    clear-Effect n b v e i old c (hh i refl) ran

module _ {n : ℕ} {b : AtomicBitset} {pc : ℕ → Pc} (inv : Inv n b pc) (t : ℕ) {b' : AtomicBitset}
    {p' : Pc} (f : Effect n b (pc t) b' p') where
  abbrev after : ℕ → Pc
  after = update pc t p'

  step_held : (u i : ℕ) → after u ≡ holding i → (i < n) × (test b' i ≡ true)
  step_held u i q = elim (Bool-cases (t == u)) [
    | inl same ↦ let (lt, was, is) = f.taken i (rw same at q) in (lt, is)
    | inr other ↦
        let old : pc u ≡ holding i = rw other at q in
        let (lt, was) = inv.held u i old in
        (lt, f.kept i was (λ mine. absurd (apart (inv.unique t u i mine old) other)))
  ]
    where
      apart : t ≡ u → (t == u) ≡ false → ⊥
      apart e h = ground arith

  step_unique : (u w i : ℕ) → after u ≡ holding i → after w ≡ holding i → u ≡ w
  step_unique u w i q r = elim (Bool-cases (t == u)) [
    | inl mine ↦ elim (Bool-cases (t == w)) [
      | inl too ↦ ground arith
      | inr other ↦ absurd (clash w other (rw mine at q) (rw other at r))
    ]
    | inr other ↦ elim (Bool-cases (t == w)) [
      | inl mine ↦ absurd (clash u other (rw mine at r) (rw other at q))
      | inr too ↦ inv.unique u w i (rw other at q) (rw too at r)
    ]
  ]
    where
      clash : (x : ℕ) → (t == x) ≡ false → p' ≡ holding i → pc x ≡ holding i → ⊥
      clash x ne new old = ground (arith, f.taken i new, inv.held x i old)

  step_chosen : (u i : ℕ) → after u ≡ setting i → i < n
  step_chosen u i q = elim (Bool-cases (t == u)) [
    | inl same ↦ f.chosen i (rw same at q)
    | inr other ↦ inv.chosen u i (rw other at q)
  ]

  step-Inv : Inv n b' after
  step-Inv = record {
    valid = f.valid;
    sized = f.sized;
    chosen = step_chosen;
    held = step_held;
    unique = step_unique;
  }

-- Every reachable state of any number of threads is well formed: slots below the size, the bits
-- of held slots set, and no slot with two holders.
pub Reach-Inv : {n : ℕ} {s : System} → Reach n s → Inv n s.bits s.pc
unfolding new
Reach-Inv {n} start = record {
  valid = (new_lem n).0;
  sized = refl;
  chosen = λ t i q. cc;
  held = λ t i q. cc;
  unique = λ t u i q r. cc;
}
Reach-Inv {n} (later {s} t {b'} {p} r mv) =
    let inv : Inv n s.bits s.pc = Reach-Inv r in
    step-Inv inv t (
      effect n s.bits (s.pc t) b' p inv.valid inv.sized (inv.chosen t) (λ i q. (inv.held t i q).0)
        mv)

-- However allocations and releases of any number of threads interleave, two threads never hold the
-- same chunk.
pub chunk_unique :
    {n : ℕ} {s : System} → Reach n s → (t u i : ℕ) → t ≢ u → s.pc t ≡ holding i → s.pc u ≢ holding i
chunk_unique r t u i ne h k = ne ((Reach-Inv r).unique t u i h k)

-- In every reachable state, `FreeChunk` on a chunk that a thread holds passes both of its asserts:
-- the index is within the bitset, and the bit is set, so that `clear` reports it; afterwards the
-- bit is clear.
pub free_passes :
    {n : ℕ} {s : System}
    → Reach n s
    → (t i : ℕ) → s.pc t ≡ holding i
    → (i < n)
      × (get i s.bits ≡ done true)
      × ((b' : AtomicBitset) × (clear i s.bits ≡ done (true, b')) × (test b' i ≡ false))
free_passes {n} {s} r t i q =
    let inv : Inv n s.bits s.pc = Reach-Inv r in
    let (lt, set) = inv.held t i q in
    let (b', ran, v, sz, bits) = clear_lem i s.bits inv.valid (omega (arith, inv.sized)) in
    (
      lt,
      get_lem i s.bits (omega (arith, inv.sized)) ∙ ap done set,
      (b', rw set at ran, rw (bits i) (ground arith)),
    )
