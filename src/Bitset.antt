-- ===== src/Bitset.antt =====
-- frontend/pmr/atomicbitset.h: a bit for each chunk of the messaging buffer, in 64-bit blocks. Each
-- function here is one atomic access (or, for `blindset`, a run of them by one thread alone).
pub mod Bits
pub mod Laws
pub mod Alloc
pub mod Threads
use Prim.Native.Nat.{bit_and, bit_or}
use pmraccess.Base.{
  ℕ, zero, suc, ◌+◌, ◌-◌, ◌/◌, ◌%◌, ◌^◌, ◌<◌, ◌≡◌, Bool, true, false, not, List, ltb, ◌==◌, length,
  get_or, set, replicate,
}
use pmraccess.Outcome.{Outcome, done, waiting, aborted, ◌>>=◌, ◌>>◌, check}

abbrev pub bits_per_block : ℕ
bits_per_block = 64

-- `_size` and `data_`
pub record AtomicBitset : Type 0 where
  pub size : ℕ
  pub blocks : List ℕ

abbrev pub block_index : ℕ → ℕ
block_index bit = bit / bits_per_block

abbrev pub bit_offset : ℕ → ℕ
bit_offset bit = bit % bits_per_block

-- The constructor: all bits are false.
unfoldable pub new : ℕ → AtomicBitset
new n = record { size = n; blocks = replicate ((n + bits_per_block - 1) / bits_per_block) 0 }

abbrev pub mask : ℕ → ℕ
mask idx = 2 ^ bit_offset idx

-- `~mask` on 64 bits
abbrev pub not_mask : ℕ → ℕ
not_mask idx = 2 ^ 64 - 1 - mask idx

abbrev pub block : AtomicBitset → ℕ → ℕ
block b idx = get_or b.blocks (block_index idx) 0

abbrev pub masked : AtomicBitset → ℕ → Bool
masked b idx = not (bit_and (block b idx) (mask idx) == 0)

-- `set`: `fetch_or`, and the previous value of the bit.
unfoldable pub set_bit : ℕ → AtomicBitset → Outcome (Bool × AtomicBitset)
set_bit idx b =
    check (ltb idx b.size)
    >> done (
      masked b idx,
      record b { blocks = set b.blocks (block_index idx) (bit_or (block b idx) (mask idx)) },
    )

-- `clear`: `fetch_and`, and the previous value of the bit.
unfoldable pub clear : ℕ → AtomicBitset → Outcome (Bool × AtomicBitset)
clear idx b =
    check (ltb idx b.size)
    >> done (
      masked b idx,
      record b { blocks = set b.blocks (block_index idx) (bit_and (block b idx) (not_mask idx)) },
    )

unfoldable pub get : ℕ → AtomicBitset → Outcome Bool
get idx b = check (ltb idx b.size) >> done (masked b idx)

-- The `for` loop of `blindset` from `i` with `n` rounds left. A pass that finds no bit starts anew,
-- for ever if no other thread clears one.
unfoldable pub scan : ℕ → ℕ → AtomicBitset → Outcome (ℕ × AtomicBitset)
unfolding get set_bit
scan zero i b = waiting
scan (suc n) i b =
    let next = λ (b' : AtomicBitset). scan n (suc i) b' in
    do
      old ← get i b
      elim old [
        | true ↦ next b
        | false ↦ set_bit i b >>= λ r. elim (r.0) [ true ↦ next r.1 | false ↦ done (i, r.1) ]
      ]

unfoldable pub blindset : AtomicBitset → Outcome (ℕ × AtomicBitset)
unfolding scan
blindset b = scan b.size 0 b
