-- ===== src/Bitset/Bits.antt =====
-- Single bits of a word under `|` and `&` with a mask of one bit, from the digit recursion.
use Prim.Native.Nat.{min, max, digits, bitwise, bit_and, bit_or, bit_and-bitwise, bit_or-bitwise}
use native.Mathlib.Nat.{le_refl, pow-suc, one-le-pow}
use pmraccess.Base.{
  ℕ, zero, suc, ◌+◌, ◌-◌, ◌*◌, ◌/◌, ◌%◌, ◌^◌, ◌≤◌, ◌<◌, ◌≡◌, ◌≢◌, refl, sym, ap, arith, ◌∙◌,
}

-- Fuel that reaches the first operand is as good as the fuel that `bitwise` takes; `m` bounds both
-- fuels of the induction.
enough_fuel :
    (z : ℕ → ℕ) (f : ℕ → ℕ → ℕ) (m n v w : ℕ) → n ≤ m → v ≤ n → digits z f n v w ≡ bitwise z f v w
enough_fuel z f m zero zero w below fits = refl
enough_fuel z f m (suc n) zero w below fits = refl
enough_fuel z f m zero (suc v) w below fits = absurd (omega arith)
enough_fuel z f zero (suc n) (suc v) w below fits = absurd (omega arith)
enough_fuel z f (suc m) (suc n) (suc v) w below fits =
    let long = enough_fuel z f m n (suc v / 2) (w / 2) (omega arith) (omega arith) in
    let short = enough_fuel z f m v (suc v / 2) (w / 2) (omega arith) (omega arith) in
    ap (λ x. x * 2 + f (suc v % 2) (w % 2)) (long ∙ sym short)

-- The two operations by the lowest digits of their operands.
or_step : (v w : ℕ) → bit_or v w ≡ max (v % 2) (w % 2) + 2 * bit_or (v / 2) (w / 2)
or_step zero w = simp bit_or-bitwise (omega arith)
or_step (suc v) w =
    simp bit_or-bitwise
      (omega (arith, enough_fuel (λ y. y) max v v (suc v / 2) (w / 2) (omega arith) (omega arith)))

and_step : (v w : ℕ) → bit_and v w ≡ min (v % 2) (w % 2) + 2 * bit_and (v / 2) (w / 2)
and_step zero w = simp bit_and-bitwise (omega arith)
and_step (suc v) w =
    simp bit_and-bitwise
      (omega (arith, enough_fuel (λ y. 0) min v v (suc v / 2) (w / 2) (omega arith) (omega arith)))

-- The bit of `w` at place `k`, counted from the lowest.
abbrev pub bit : ℕ → ℕ → ℕ
bit w zero = w % 2
bit w (suc k) = bit (w / 2) k

pub bit-le : (w k : ℕ) → bit w k ≤ 1
bit-le w zero = omega arith
bit-le w (suc k) = bit-le (w / 2) k

pub bit-zero : (k : ℕ) → bit 0 k ≡ 0
bit-zero zero = refl
bit-zero (suc k) = bit-zero k

-- `n` bounds `a` in the two inductions below.
and_zero_below : (n a : ℕ) → a ≤ n → bit_and a 0 ≡ 0
and_zero_below n zero h = refl
and_zero_below zero (suc a) h = absurd (omega arith)
and_zero_below (suc n) (suc a) h =
    omega (arith, and_step (suc a) 0, and_zero_below n (suc a / 2) (omega arith))

or_zero_below : (n a : ℕ) → a ≤ n → bit_or a 0 ≡ a
or_zero_below n zero h = refl
or_zero_below zero (suc a) h = absurd (omega arith)
or_zero_below (suc n) (suc a) h =
    omega (arith, or_step (suc a) 0, or_zero_below n (suc a / 2) (omega arith))

and-zero : (a : ℕ) → bit_and a 0 ≡ 0
and-zero a = and_zero_below a a (le_refl a)

or-zero : (a : ℕ) → bit_or a 0 ≡ a
or-zero a = or_zero_below a a (le_refl a)

-- The test `w & (1 << k)`.
pub and-pow : (k w : ℕ) → bit_and w (2 ^ k) ≡ bit w k * 2 ^ k
and-pow zero w = omega (arith, and_step w 1, and-zero (w / 2))
and-pow (suc k) w = grind (arith, pow-suc 2 k, and_step w (2 * 2 ^ k), and-pow k (w / 2))

half_double : (x y : ℕ) → y < 2 → (x * 2 + y) / 2 ≡ x
half_double x y h = omega arith

or-pow_half : (k w : ℕ) → bit_or w (2 ^ suc k) / 2 ≡ bit_or (w / 2) (2 ^ k)
or-pow_half k w = grind (arith, pow-suc 2 k, or_step w (2 * 2 ^ k))

or-pow_low : (k w : ℕ) → bit_or w (2 ^ suc k) % 2 ≡ w % 2
or-pow_low k w = grind (arith, pow-suc 2 k, or_step w (2 * 2 ^ k))

-- `w | (1 << k)` has bit `k`, and the other bits of `w`.
pub bit-or_pow_self : (k w : ℕ) → bit (bit_or w (2 ^ k)) k ≡ 1
bit-or_pow_self zero w = omega (arith, or_step w 1, or-zero (w / 2))
bit-or_pow_self (suc k) w = rw (or-pow_half k w) (bit-or_pow_self k (w / 2))

pub bit-or_pow_ne : (k w j : ℕ) → k ≢ j → bit (bit_or w (2 ^ k)) j ≡ bit w j
bit-or_pow_ne zero w zero h = absurd (h refl)
bit-or_pow_ne zero w (suc j) h = ap (λ x. bit x j) (omega (arith, or_step w 1, or-zero (w / 2)))
bit-or_pow_ne (suc k) w zero h = or-pow_low k w
bit-or_pow_ne (suc k) w (suc j) h =
    rw (or-pow_half k w) (bit-or_pow_ne k (w / 2) j (λ e. h (ap suc e)))

pub or_pow-lt : (n k w : ℕ) → k < n → w < 2 ^ n → bit_or w (2 ^ k) < 2 ^ n
or_pow-lt zero k w h b = absurd (omega arith)
or_pow-lt (suc n) zero w h b = omega (arith, or_step w 1, or-zero (w / 2), pow-suc 2 n)
or_pow-lt (suc n) (suc k) w h b = omega (
  arith,
  pow-suc 2 n,
  or-pow_half k w,
  or_pow-lt n k (w / 2) (omega arith) (omega (arith, pow-suc 2 n)),
)

-- A mask of `n` ones.
and_ones : (n w : ℕ) → w < 2 ^ n → bit_and w (2 ^ n - 1) ≡ w
and_ones zero w h = omega (arith, and-zero w)
and_ones (suc n) w h =
    let e : (2 ^ suc n - 1) / 2 ≡ 2 ^ n - 1 = omega (arith, pow-suc 2 n, one-le-pow n 2) in
    let ih : bit_and (w / 2) (2 ^ n - 1) ≡ w / 2 =
      and_ones n (w / 2) (omega (arith, pow-suc 2 n)) in
    let st : bit_and w (2 ^ suc n - 1)
        ≡ min (w % 2) ((2 ^ suc n - 1) % 2) + 2 * bit_and (w / 2) ((2 ^ suc n - 1) / 2) =
      and_step w (2 ^ suc n - 1) in
    rw e at st ∙ omega (arith, ih, pow-suc 2 n, one-le-pow n 2)

pow_mono : (k n : ℕ) → k < n → 2 * 2 ^ k ≤ 2 ^ n
pow_mono k zero h = absurd (omega arith)
pow_mono zero (suc n) h = omega (arith, pow-suc 2 n, one-le-pow n 2)
pow_mono (suc k) (suc n) h = omega (arith, pow-suc 2 n, pow-suc 2 k, pow_mono k n (omega arith))

-- All ones but the one at `k`.
abbrev pub all_but : ℕ → ℕ → ℕ
all_but n k = 2 ^ n - 1 - 2 ^ k

clear_half :
    (n k w : ℕ) → k < n → bit_and w (all_but (suc n) (suc k)) / 2 ≡ bit_and (w / 2) (all_but n k)
clear_half n k w h =
    let e : all_but (suc n) (suc k) / 2 ≡ all_but n k =
      omega (arith, pow-suc 2 n, pow-suc 2 k, pow_mono k n h, one-le-pow k 2) in
    rw (← e) (omega (arith, and_step w (all_but (suc n) (suc k))))

clear_low : (n k w : ℕ) → k < n → bit_and w (all_but (suc n) (suc k)) % 2 ≡ w % 2
clear_low n k w h =
    let e : all_but (suc n) (suc k) % 2 ≡ 1 =
      omega (arith, pow-suc 2 n, pow-suc 2 k, pow_mono k n h, one-le-pow k 2) in
    omega (arith, and_step w (all_but (suc n) (suc k)), e)

clear_lowest : (n w : ℕ) → w < 2 ^ suc n → bit_and w (all_but (suc n) 0) ≡ w / 2 * 2
clear_lowest n w h =
    let e : all_but (suc n) 0 / 2 ≡ 2 ^ n - 1 = omega (arith, pow-suc 2 n, one-le-pow n 2) in
    let st : bit_and w (all_but (suc n) 0)
        ≡ min (w % 2) (all_but (suc n) 0 % 2) + 2 * bit_and (w / 2) (all_but (suc n) 0 / 2) =
      and_step w (all_but (suc n) 0) in
    rw e at st
    ∙ omega (arith, and_ones n (w / 2) (omega (arith, pow-suc 2 n)), pow-suc 2 n, one-le-pow n 2)

-- `w & ~(1 << k)` on `n` bits lacks bit `k`, and has the other bits of `w`.
pub bit-clear_self : (n k w : ℕ) → k < n → w < 2 ^ n → bit (bit_and w (all_but n k)) k ≡ 0
bit-clear_self zero k w h b = absurd (omega arith)
bit-clear_self (suc n) zero w h b = omega (arith, clear_lowest n w b)
bit-clear_self (suc n) (suc k) w h b =
    rw (clear_half n k w (omega arith))
      (bit-clear_self n k (w / 2) (omega arith) (omega (arith, pow-suc 2 n)))

pub bit-clear_ne :
    (n k w j : ℕ) → k < n → w < 2 ^ n → k ≢ j → bit (bit_and w (all_but n k)) j ≡ bit w j
bit-clear_ne zero k w j h b ne = absurd (omega arith)
bit-clear_ne (suc n) zero w zero h b ne = absurd (ne refl)
bit-clear_ne (suc n) zero w (suc j) h b ne = ap (λ x. bit x j) (omega (arith, clear_lowest n w b))
bit-clear_ne (suc n) (suc k) w zero h b ne = clear_low n k w (omega arith)
bit-clear_ne (suc n) (suc k) w (suc j) h b ne =
    rw (clear_half n k w (omega arith))
      (bit-clear_ne n k (w / 2) j (omega arith) (omega (arith, pow-suc 2 n)) (λ e. ne (ap suc e)))

pub clear-lt : (n k w : ℕ) → k < n → w < 2 ^ n → bit_and w (all_but n k) < 2 ^ n
clear-lt zero k w h b = absurd (omega arith)
clear-lt (suc n) zero w h b = omega (arith, clear_lowest n w b)
clear-lt (suc n) (suc k) w h b = omega (
  arith,
  pow-suc 2 n,
  clear_half n k w (omega arith),
  clear-lt n k (w / 2) (omega arith) (omega (arith, pow-suc 2 n)),
)
