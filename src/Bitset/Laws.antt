-- ===== src/Bitset/Laws.antt =====
-- What the accesses of frontend/pmr/atomicbitset.h do to the set of bits.
use Prim.Native.Nat.{bit_and, bit_or}
use native.Mathlib.Nat.{one-le-pow}
use pmraccess.Base.{
  ℕ, zero, suc, ◌+◌, ◌-◌, ◌*◌, ◌/◌, ◌%◌, ◌^◌, ◌<◌, ◌≤◌, ◌≡◌, ◌≢◌, refl, ap, ◌∙◌, Bool, true, false,
  ◌==◌, length, get_or, set, replicate, arith, if◌then◌else◌, length-set, length-replicate,
  get_or-set_self, get_or-set_ne, ◌⊎◌, ℕ_discrete, lt→ltb,
}
use pmraccess.Outcome.{done}
use pmraccess.Bitset.{
  AtomicBitset, new, set_bit, clear, get, block, masked, mask, not_mask, block_index, bit_offset,
}
use pmraccess.Bitset.Bits.{
  bit, bit-le, bit-zero, and-pow, bit-or_pow_self, bit-or_pow_ne, or_pow-lt, bit-clear_self,
  bit-clear_ne, clear-lt,
}

-- The bit at `j`, as an abstract set of indices sees it.
abbrev pub test : AtomicBitset → ℕ → Bool
test b j = bit (block b j) (bit_offset j) == 1

pub record IsValid (b : AtomicBitset) : Type 0 where
  pub room : b.size ≤ 64 * length b.blocks
  pub words : (k : ℕ) → get_or b.blocks k 0 < 2 ^ 64

get_or-replicate : (n k : ℕ) → get_or (replicate {A = ℕ} n 0) k 0 ≡ 0
get_or-replicate zero k = refl
get_or-replicate (suc n) zero = refl
get_or-replicate (suc n) (suc k) = get_or-replicate n k

-- A new bitset of any size is well formed, and has no bit set.
pub new_lem : (n : ℕ) → IsValid (new n) × ((j : ℕ) → test (new n) j ≡ false)
unfolding new
new_lem n = (
  record {
    room = omega (arith, length-replicate {A = ℕ} ((n + 64 - 1) / 64) 0);
    words = λ k. rw (get_or-replicate ((n + 64 - 1) / 64) k) (omega arith);
  },
  λ j. rw (get_or-replicate ((n + 64 - 1) / 64) (j / 64), bit-zero (j % 64)),
)

masked-test : (b : AtomicBitset) (j : ℕ) → masked b j ≡ test b j
masked-test b j = ground (
  arith,
  and-pow (bit_offset j) (block b j),
  bit-le (block b j) (bit_offset j),
  one-le-pow (bit_offset j) 2,
  small,
)
  where
    small : (bit (block b j) (bit_offset j) ≡ 0) ⊎ (bit (block b j) (bit_offset j) ≡ 1)
    small = omega (arith, bit-le (block b j) (bit_offset j))

-- `get` reads the bit.
pub get_lem : (i : ℕ) (b : AtomicBitset) → i < b.size → get i b ≡ done (test b i)
unfolding get
get_lem i b h = rw (lt→ltb i b.size h) (ap done (masked-test b i))

abbrev put_block : AtomicBitset → ℕ → ℕ → AtomicBitset
put_block b i w = record b { blocks = set b.blocks (block_index i) w }

put_block-IsValid :
    (b : AtomicBitset) (i w : ℕ) → IsValid b → i < b.size → w < 2 ^ 64 → IsValid (put_block b i w)
put_block-IsValid b i w v h lt = record {
  room = omega (arith, v.room, length-set b.blocks (block_index i) w);
  words = λ k. elim (ℕ_discrete (block_index i) k) [
    | yes e ↦ rw (← e, get_or-set_self b.blocks (block_index i) w 0 (omega (arith, v.room))) lt
    | no ne ↦ rw (get_or-set_ne b.blocks (block_index i) k w 0 ne) (v.words k)
  ];
}

-- A new word in one block, told by the bits of the old: only bit `i` changes, to `x`.
put_block-test :
    (b : AtomicBitset) (i w : ℕ) (x : Bool)
    → IsValid b
    → i < b.size
    → ((bit w (bit_offset i) == 1) ≡ x)
    → ((k : ℕ) → bit_offset i ≢ k → bit w k ≡ bit (block b i) k)
    → (j : ℕ) → test (put_block b i w) j ≡ (if i == j then x else test b j)
put_block-test b i w x v h hx hk j = elim (ℕ_discrete (block_index i) (block_index j)) [
  | yes e ↦
      rw (← e, get_or-set_self b.blocks (block_index i) w 0 (omega (arith, v.room)))
        (elim (ℕ_discrete (bit_offset i) (bit_offset j)) [
          | yes same ↦ rw (← same) (hx ∙ ground arith)
          | no ne ↦ rw (hk (bit_offset j) ne) (ground arith)
        ])
  | no ne ↦ rw (get_or-set_ne b.blocks (block_index i) (block_index j) w 0 ne) (ground arith)
]

-- On a well formed bitset, `set` within the size returns the old bit, sets it, leaves every other
-- bit alone, and keeps the bitset well formed.
pub set_bit_lem :
    (i : ℕ) (b : AtomicBitset)
    → IsValid b
    → i < b.size
    → (b' : AtomicBitset) × (set_bit i b ≡ done (test b i, b'))
      × IsValid b'
      × (b'.size ≡ b.size)
      × ((j : ℕ) → test b' j ≡ (if i == j then true else test b j))
unfolding set_bit
set_bit_lem i b v h = (
  put_block b i w,
  rw (lt→ltb i b.size h, masked-test b i),
  put_block-IsValid b i w v h (or_pow-lt 64 (bit_offset i) (block b i) (omega arith) (v.words _)),
  refl,
  put_block-test b i w true v h (rw (bit-or_pow_self (bit_offset i) (block b i)))
      (λ k ne. bit-or_pow_ne (bit_offset i) (block b i) k ne),
)
  where
    w : ℕ
    w = bit_or (block b i) (mask i)

-- On a well formed bitset, `clear` within the size returns the old bit, clears it, leaves every
-- other bit alone, and keeps the bitset well formed.
pub clear_lem :
    (i : ℕ) (b : AtomicBitset)
    → IsValid b
    → i < b.size
    → (b' : AtomicBitset) × (clear i b ≡ done (test b i, b'))
      × IsValid b'
      × (b'.size ≡ b.size)
      × ((j : ℕ) → test b' j ≡ (if i == j then false else test b j))
unfolding clear
clear_lem i b v h = (
  put_block b i w,
  rw (lt→ltb i b.size h, masked-test b i),
  put_block-IsValid b i w v h (clear-lt 64 (bit_offset i) (block b i) (omega arith) (v.words _)),
  refl,
  put_block-test b i w false v h
      (rw (bit-clear_self 64 (bit_offset i) (block b i) (omega arith) (v.words _)))
      (λ k ne. bit-clear_ne 64 (bit_offset i) (block b i) k (omega arith) (v.words _) ne),
)
  where
    w : ℕ
    w = bit_and (block b i) (not_mask i)
