-- ===== src/Bitset/Alloc.antt =====
-- `blindset` of frontend/pmr/atomicbitset.h, run by one thread alone.
use pmraccess.Base.{
  ℕ, zero, suc, ◌+◌, ◌<◌, ◌≤◌, ◌≡◌, refl, ◌∙◌, true, false, ◌==◌, arith, if◌then◌else◌, Bool-cases,
  inl, inr, ◌⊎◌, ℕ_discrete, sym,
}
use pmraccess.Outcome.{Outcome, done, waiting}
use pmraccess.Bitset.{AtomicBitset, scan, blindset}
use pmraccess.Bitset.Laws.{test, IsValid, get_lem, set_bit_lem}

-- What a search from `i` that ends by setting `slot` has done.
pub record Took (b : AtomicBitset) (i slot : ℕ) (b' : AtomicBitset) : Type 0 where
  pub first : (j : ℕ) → i ≤ j → j < slot → test b j ≡ true
  pub from : i ≤ slot
  pub within : slot < b.size
  pub was_free : test b slot ≡ false
  pub valid : IsValid b'
  pub same_size : b'.size ≡ b.size
  pub bits : (j : ℕ) → test b' j ≡ (if slot == j then true else test b j)

abbrev pub Searched : AtomicBitset → ℕ → Outcome (ℕ × AtomicBitset) → Type 0
Searched b i r =
    ((slot : ℕ) × (b' : AtomicBitset) × (r ≡ done (slot, b')) × Took b i slot b')
    ⊎ ((r ≡ waiting) × ((j : ℕ) → i ≤ j → j < b.size → test b j ≡ true))

scan_set :
    (n i : ℕ) (b : AtomicBitset)
    → IsValid b
    → i < b.size
    → test b i ≡ true
    → scan (suc n) i b ≡ scan n (suc i) b
unfolding scan
scan_set n i b v h e = rw (get_lem i b h, e)

scan_clear :
    (n i : ℕ) (b : AtomicBitset)
    → IsValid b
    → i < b.size
    → test b i ≡ false
    → (b' : AtomicBitset) × (scan (suc n) i b ≡ done (i, b')) × Took b i i b'
unfolding scan
scan_clear n i b v h e =
    let (b', ran, valid, same, bits) = set_bit_lem i b v h in
    (
      b',
      rw (get_lem i b h, e, ran, e),
      record {
        first = λ j p q. absurd (omega arith);
        from = omega arith;
        within = h;
        was_free = e;
        valid = valid;
        same_size = same;
        bits = bits;
      },
    )

Took-earlier :
    (b : AtomicBitset) (i slot : ℕ) (b' : AtomicBitset)
    → test b i ≡ true
    → Took b (suc i) slot b'
    → Took b i slot b'
Took-earlier b i slot b' e t = record {
  first = λ j p q. elim (ℕ_discrete i j) [
    | yes same ↦ rw (← same) e
    | no ne ↦ t.first j (omega arith) q
  ];
  from = omega (arith, t.from);
  within = t.within;
  was_free = t.was_free;
  valid = t.valid;
  same_size = t.same_size;
  bits = t.bits;
}

scan_lem : (n i : ℕ) (b : AtomicBitset) → IsValid b → i + n ≡ b.size → Searched b i (scan n i b)
scan_lem zero i b v h = inr (unfold scan in refl, λ j p q. absurd (omega arith))
scan_lem (suc n) i b v h = elim (Bool-cases (test b i)) [
  | inr free ↦ let (b', ran, took) = scan_clear n i b v (omega arith) free in inl (i, b', ran, took)
  | inl used ↦
      rw (scan_set n i b v (omega arith) used) (elim (scan_lem n (suc i) b v (omega arith)) [
        | inl (slot, b', ran, took) ↦ inl (slot, b', ran, Took-earlier b i slot b' used took)
        | inr (ran, all) ↦ inr (
          ran,
          λ j p q. elim (ℕ_discrete i j) [
            | yes same ↦ rw (← same) used
            | no ne ↦ all j (omega arith) q
          ],
        )
      ])
]

-- `blindset` on a well formed bitset takes the first clear bit, if there is one: it returns its
-- index, sets that bit and no other. If all bits are set it spins.
pub blindset_lem : (b : AtomicBitset) → IsValid b → Searched b 0 (blindset b)
unfolding blindset
blindset_lem b v = scan_lem b.size 0 b v (omega arith)

-- On a well formed bitset with a clear bit below the size, `blindset`, run by one thread alone,
-- returns the first clear bit: it sets that bit and no other, and keeps the bitset well formed.
pub blindset_returns :
    (b : AtomicBitset) (free : ℕ)
    → IsValid b
    → free < b.size
    → test b free ≡ false
    → (slot : ℕ) × (b' : AtomicBitset) × (blindset b ≡ done (slot, b')) × Took b 0 slot b'
blindset_returns b free v h e = elim (blindset_lem b v) [
  | inl found ↦ found
  | inr (ran, all) ↦ absurd (ne (sym (all free (omega arith) h) ∙ e))
]
  where
    ne : ¬ (true ≡ false)
    ne p = cc
