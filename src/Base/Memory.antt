-- ===== src/Base/Memory.antt =====
-- Byte memory: `memcpy` and pointer reads over a map from addresses to bytes, little-endian words.
use Prim.Native.Nat.{ℕ, zero, suc, ◌+◌, ◌-◌, ◌*◌, ◌/◌, ◌%◌, ◌^◌, ◌<◌, ◌≤◌}
use mathlib.Core.Path.{◌≡◌, refl, ap, ap₂}
use mathlib.Core.List.{List, [], ◌∷◌}
use native.Mathlib.Omega.{arith}
use pmraccess.Base.Tests.{ltb, if◌then◌else◌, lt→ltb, ge→ltb}
use pmraccess.Base.Lists.{length, get_or, get_or_of_ge, get_or_default}

-- A byte string is a list of numbers; a memory gives the byte at each address.
abbrev pub Bytes : Type 0
Bytes = List ℕ

abbrev pub Mem : Type 0
Mem = ℕ → ℕ

-- `memcpy(m + a, bs, length bs)`.
unfoldable pub store : Mem → ℕ → Bytes → Mem
store m a bs i = if ltb i a then m i else get_or bs (i - a) (m i)

-- The `n` bytes at `a`.
unfoldable pub load : Mem → ℕ → ℕ → Bytes
load m a zero = []
load m a (suc n) = m a ∷ load m (suc a) n

-- A 32-bit word in the byte order of the machine.
abbrev pub le32 : ℕ → Bytes
le32 n = n % 256 ∷ n / 2 ^ 8 % 256 ∷ n / 2 ^ 16 % 256 ∷ n / 2 ^ 24 % 256 ∷ []

unfoldable pub load32 : Mem → ℕ → ℕ
load32 m a = m a + 2 ^ 8 * m (a + 1) + 2 ^ 16 * m (a + 2) + 2 ^ 24 * m (a + 3)

unfoldable pub store32 : Mem → ℕ → ℕ → Mem
store32 m a n = store m a (le32 n)

-- Equal bytes on a range of addresses.
abbrev pub Agree : Mem → Mem → ℕ → ℕ → Type 0
Agree m m' a n = (i : ℕ) → a ≤ i → i < a + n → m i ≡ m' i

pub length-load : (m : Mem) (a n : ℕ) → length (load m a n) ≡ n
unfolding load
length-load m a zero = refl
length-load m a (suc n) = ap suc (length-load m (suc a) n)

pub get_or-load : (m : Mem) (a n i d : ℕ) → i < n → get_or (load m a n) i d ≡ m (a + i)
unfolding load
get_or-load m a zero i d h = absurd (omega arith)
get_or-load m a (suc n) zero d h = ap m (omega arith)
get_or-load m a (suc n) (suc i) d h =
    rw (get_or-load m (suc a) n i d (omega arith)) (ap m (omega arith))

pub load-Agree : (m m' : Mem) (a n : ℕ) → Agree m m' a n → load m a n ≡ load m' a n
unfolding load
load-Agree m m' a zero h = refl
load-Agree m m' a (suc n) h =
    ap₂ ◌∷◌ (h a (omega arith) (omega arith))
      (load-Agree m m' (suc a) n (λ i p q. h i (omega arith) (omega arith)))

-- Equal bytes at two places.
pub load_shift :
    (m m' : Mem) (a b n : ℕ) → ((i : ℕ) → i < n → m (a + i) ≡ m' (b + i)) → load m a n ≡ load m' b n
unfolding load
load_shift m m' a b zero h = refl
load_shift m m' a b (suc n) h =
    ap₂ ◌∷◌ (let first : m (a + 0) ≡ m' (b + 0) = h 0 (omega arith) in rw (at a, at b) at first) (
      load_shift m m' (suc a) (suc b) n (λ i p.
        let next : m (a + suc i) ≡ m' (b + suc i) = h (suc i) (omega arith) in
        rw (step a i, step b i) at next))
  where
    at : (x : ℕ) → x + 0 ≡ x
    at x = omega arith

    step : (x i : ℕ) → x + suc i ≡ suc x + i
    step x i = omega arith

pub store_below : (m : Mem) (a : ℕ) (bs : Bytes) (i : ℕ) → i < a → store m a bs i ≡ m i
unfolding store
store_below m a bs i h = rw (lt→ltb i a h)

pub store_above : (m : Mem) (a : ℕ) (bs : Bytes) (i : ℕ) → a + length bs ≤ i → store m a bs i ≡ m i
unfolding store
store_above m a bs i h = rw (ge→ltb i a (omega arith)) (get_or_of_ge bs (i - a) (m i) (omega arith))

pub store_at :
    (m : Mem) (a : ℕ) (bs : Bytes) (i d : ℕ)
    → a ≤ i
    → i < a + length bs
    → store m a bs i ≡ get_or bs (i - a) d
unfolding store
store_at m a bs i d h k = rw (ge→ltb i a h) (get_or_default bs (i - a) (m i) d (omega arith))

load_eq_bytes :
    (m : Mem) (a : ℕ) (bs : Bytes)
    → ((i : ℕ) → i < length bs → m (a + i) ≡ get_or bs i 0)
    → load m a (length bs) ≡ bs
unfolding load
load_eq_bytes m a [] h = refl
load_eq_bytes m a (x ∷ xs) h =
    ap₂ ◌∷◌ (rw (← (h 0 (omega arith))) (ap m (omega arith)))
      (load_eq_bytes m (suc a) xs (λ i p. rw (← (h (suc i) (omega arith))) (ap m (omega arith))))

-- What was copied is read back.
pub load-store_self : (m : Mem) (a : ℕ) (bs : Bytes) → load (store m a bs) a (length bs) ≡ bs
load-store_self m a bs = load_eq_bytes (store m a bs) a bs (λ i p.
    rw (store_at m a bs (a + i) 0 (omega arith) (omega arith))
      (ap (λ k. get_or bs k 0) (omega arith)))

-- A copy elsewhere does not show.
pub load-store_below :
    (m : Mem) (a n b : ℕ) (bs : Bytes) → a + n ≤ b → load (store m b bs) a n ≡ load m a n
load-store_below m a n b bs h =
    load-Agree (store m b bs) m a n (λ i p q. store_below m b bs i (omega arith))

pub load-store_above :
    (m : Mem) (a n b : ℕ) (bs : Bytes) → b + length bs ≤ a → load (store m b bs) a n ≡ load m a n
load-store_above m a n b bs h =
    load-Agree (store m b bs) m a n (λ i p q. store_above m b bs i (omega arith))

-- A byte of a block that was copied from another memory.
pub store-load_at : (m s : Mem) (a b n i : ℕ) → i < n → store m b (load s a n) (b + i) ≡ s (a + i)
store-load_at m s a b n i h =
    rw
      (
        store_at m b (load s a n) (b + i) 0 (omega arith) (omega (arith, length-load s a n)),
        ← (get_or-load s a n i 0 h),
      )
      (ap (λ k. get_or (load s a n) k 0) (omega arith))

-- A byte of a block that was copied from the same place of another memory.
pub store-load_same : (m s : Mem) (o n i : ℕ) → o ≤ i → i < o + n → store m o (load s o n) i ≡ s i
store-load_same m s o n i h k =
    let e : o + (i - o) ≡ i = omega arith in
    let at : store m o (load s o n) (o + (i - o)) ≡ s (o + (i - o)) =
      store-load_at m s o o n (i - o) (omega arith) in
    rw e at at

-- A part of such a block.
pub load-store-load :
    (m s : Mem) (a b n i k : ℕ)
    → i + k ≤ n
    → load (store m b (load s a n)) (b + i) k ≡ load s (a + i) k
unfolding load
load-store-load m s a b n i zero h = refl
load-store-load m s a b n i (suc k) h =
    ap₂ ◌∷◌ (store-load_at m s a b n i (omega arith))
      (let ih = load-store-load m s a b n (suc i) k (omega arith) in rw (step b, step a) at ih)
  where
    step : (x : ℕ) → x + suc i ≡ suc (x + i)
    step x = omega arith

pub load32-store32 : (m : Mem) (a n : ℕ) → n < 2 ^ 32 → load32 (store32 m a n) a ≡ n
unfolding load32 store32 store
load32-store32 m a n h = ground arith

pub load32-Agree : (m m' : Mem) (a : ℕ) → Agree m m' a 4 → load32 m a ≡ load32 m' a
unfolding load32
load32-Agree m m' a h = omega (
  arith,
  h a (omega arith) (omega arith),
  h (a + 1) (omega arith) (omega arith),
  h (a + 2) (omega arith) (omega arith),
  h (a + 3) (omega arith) (omega arith),
)

pub store32_below : (m : Mem) (a n i : ℕ) → i < a → store32 m a n i ≡ m i
unfolding store32
store32_below m a n i h = store_below m a (le32 n) i h

pub store32_above : (m : Mem) (a n i : ℕ) → a + 4 ≤ i → store32 m a n i ≡ m i
unfolding store32
store32_above m a n i h = store_above m a (le32 n) i (omega arith)

-- A word that was read as four bytes.
pub load32_of_bytes : (m : Mem) (a n : ℕ) → n < 2 ^ 32 → load m a 4 ≡ le32 n → load32 m a ≡ n
unfolding load load32
load32_of_bytes m a n h e =
    let byte = λ (i : ℕ). ap (λ (bs : Bytes). get_or bs i 0) e in
    let b0 : m a ≡ n % 256 = byte 0 in
    let b1 : m (suc a) ≡ n / 2 ^ 8 % 256 = byte 1 in
    let b2 : m (suc (suc a)) ≡ n / 2 ^ 16 % 256 = byte 2 in
    let b3 : m (suc (suc (suc a))) ≡ n / 2 ^ 24 % 256 = byte 3 in
    ground (arith, at 1 (suc a), at 2 (suc (suc a)), at 3 (suc (suc (suc a))))
  where
    at : (k b : ℕ) → a + k ≡ b → m (a + k) ≡ m b
    at k b p = ap m p
