-- ===== src/Bench/Values.antt =====
-- `BuildKey` and `BuildValue` of include/generator.h, and what `c_str()` hands over of a value.

use pmraccess.Base.{
  ℕ, zero, suc, ◌+◌, ◌-◌, ◌^◌, ◌/◌, ◌%◌, ◌<◌, ◌≤◌, ◌≡◌, ◌≢◌, refl, sym, ◌∙◌, ap, Bool, true, false,
  List, [], ◌∷◌, ◌++◌, arith, leb, ◌==◌, if◌then◌else◌, length, length_zero, length-append, take,
  Bytes, Bool-cases, inl, inr,
}
use mathlib.Core.List.{append_assoc}
use pmraccess.Wire.{u32}
use pmraccess.Bench.{minimum}
use pmraccess.Bench.Pool.{value_pool}

-- A number in `n` decimal digits.
abbrev pub digits : ℕ → ℕ → Bytes
digits zero k = []
digits (suc n) k = digits n (k / 10) ++ (48 + k % 10) ∷ []

-- `BuildKey`, for a number of at most twelve digits.
unfoldable pub build_key : ℕ → Bytes
build_key key_num = 75 ∷ 69 ∷ 89 ∷ 95 ∷ digits 12 key_num

-- The array `VALUE_POOL`, and `sizeof(VALUE_POOL)`: the NUL counts.
abbrev pub pool_array : Bytes
pool_array = value_pool ++ 0 ∷ []

abbrev pub pool_size : ℕ
pool_size = length pool_array

-- The loop of `BuildValue`, on fuel, with `left` characters to go: each round takes some.
unfoldable pub fill_value : ℕ → ℕ → Bytes
fill_value zero left = []
fill_value (suc n) left =
    let cut_len = minimum left pool_size in
    let rest = fill_value n (left - cut_len) in
    if left == 0 then [] else take cut_len pool_array ++ rest

abbrev pub value_prefix : Bytes → Bytes
value_prefix key = 86 ∷ 65 ∷ 76 ∷ 85 ∷ 69 ∷ 95 ∷ key

-- `BuildValue`. The subtraction from `length` wraps around.
unfoldable pub build_value : ℕ → Bytes → Bytes
unfolding fill_value
build_value len key =
    let left = u32 (len + (2 ^ 32 - length (value_prefix key))) in
    value_prefix key ++ fill_value left left

-- What `c_str()` hands to a function that looks for the NUL.
abbrev pub c_str : Bytes → Bytes
c_str [] = []
c_str (c ∷ cs) = let rest = c_str cs in if c == 0 then [] else c ∷ rest

abbrev pub no_nul : Bytes → Bool
no_nul [] = true
no_nul (c ∷ cs) = let rest = no_nul cs in if c == 0 then false else rest

pool_length : length value_pool ≡ 1023
unfolding value_pool
pool_length = refl

pool-no_nul : no_nul value_pool ≡ true
unfolding value_pool
pool-no_nul = refl

length-take : {A : Type 0} (n : ℕ) (xs : List A) → n ≤ length xs → length (take n xs) ≡ n
length-take zero xs h = refl
length-take (suc n) [] h = absurd (omega arith)
length-take (suc n) (x ∷ xs) h = ap suc (length-take n xs (omega arith))

take-length : {A : Type 0} (xs : List A) → take (length xs) xs ≡ xs
take-length [] = refl
take-length (x ∷ xs) = ap (◌∷◌ x) (take-length xs)

no_nul-take :
    (n : ℕ) (xs ys : Bytes) → no_nul xs ≡ true → n ≤ length xs → no_nul (take n (xs ++ ys)) ≡ true
no_nul-take zero xs ys e h = refl
no_nul-take (suc n) [] ys e h = absurd (omega arith)
no_nul-take (suc n) (x ∷ xs) ys e h = elim (Bool-cases (x == 0)) [
  | inl nul ↦ absurd (distinct (sym (rw nul at e)))
  | inr ok ↦ rw ok (no_nul-take n xs ys (rw ok at e) (omega arith))
]
  where
    distinct : true ≢ false
    distinct p = cc

length-c_str :
    (xs ys : Bytes) → no_nul xs ≡ true → length (c_str (xs ++ ys)) ≡ length xs + length (c_str ys)
length-c_str [] ys e = omega arith
length-c_str (x ∷ xs) ys e = elim (Bool-cases (x == 0)) [
  | inl nul ↦ absurd (distinct (sym (rw nul at e)))
  | inr ok ↦ rw ok (omega (arith, length-c_str xs ys (rw ok at e)))
]
  where
    distinct : true ≢ false
    distinct p = cc

pool_size_lem : pool_size ≡ 1024
pool_size_lem = length-append value_pool (0 ∷ []) ∙ omega (arith, pool_length)

length-fill_value : (n left : ℕ) → left ≤ n → length (fill_value n left) ≡ left
unfolding fill_value
length-fill_value zero left h = omega arith
length-fill_value (suc n) left h = elim (Bool-cases (left == 0)) [
  | inl empty ↦ rw empty (ground arith)
  | inr some_left ↦
      let cut : minimum left pool_size ≤ left = ground arith in
      let room : minimum left pool_size ≤ pool_size = ground arith in
      let pos : 0 < minimum left pool_size = ground (arith, pool_size_lem) in
      rw some_left (
        length-append (take (minimum left pool_size) pool_array) _
        ∙ omega (
          arith,
          length-take (minimum left pool_size) pool_array room,
          length-fill_value n (left - minimum left pool_size) (omega arith),
        ))
]

-- What is sent of a fill: all of it up to the length of the pool, and no more than the pool.
sent_fill : (n left : ℕ) → left ≤ n → length (c_str (fill_value n left)) ≡ minimum left 1023
unfolding fill_value
sent_fill zero left h = ground arith
sent_fill (suc n) left h = elim (Bool-cases (left == 0)) [
  | inl empty ↦ rw empty (ground arith)
  | inr some_left ↦ rw some_left (elim (Bool-cases (leb left 1023)) [
    | inl few ↦
        let all : minimum left pool_size ≡ left = ground (arith, pool_size_lem) in
        let nothing : fill_value n (left - left) ≡ [] =
          length_zero (fill_value n (left - left))
            (length-fill_value n (left - left) (omega arith) ∙ omega arith) in
        let bound : left ≤ length value_pool = ground (arith, pool_length) in
        rw (all, few)
          (length-c_str (take left pool_array) (fill_value n (left - left))
              (no_nul-take left value_pool (0 ∷ []) pool-no_nul bound)
            ∙ ap (λ cs. length (take left pool_array) + length (c_str cs)) nothing
            ∙ omega (
              arith,
              length-take left pool_array (omega (arith, bound, pool_size_lem, pool_length)),
            ))
    | inr many ↦
        let whole : minimum left pool_size ≡ pool_size = ground (arith, pool_size_lem) in
        rw (whole, many)
          (ap (λ cs. length (c_str (cs ++ fill_value n (left - pool_size))))
              (take-length pool_array)
            ∙ ap (λ cs. length (c_str cs))
                (append_assoc value_pool (0 ∷ []) (fill_value n (left - pool_size)))
            ∙ length-c_str value_pool (0 ∷ fill_value n (left - pool_size)) pool-no_nul
            ∙ omega (arith, pool_length))
  ])
]

-- For a key without NUL, and a length below 2^32 with room for `VALUE_` and the key, `BuildValue`
-- makes a value of that length; but of a value with more than 1023 characters behind the key, the
-- callers, who pass it by `c_str()`, send only the first 1023 of these: `sizeof(VALUE_POOL)` counts
-- the NUL of the literal, which ends the string.
pub build_value_sent :
    (len : ℕ) (key : Bytes)
    → no_nul key ≡ true
    → 6 + length key ≤ len
    → len < 2 ^ 32
    → (length (build_value len key) ≡ len)
      × (length (c_str (build_value len key)) ≡ minimum len (6 + length key + 1023))
unfolding build_value
build_value_sent len key ok room small =
    let left : ℕ = u32 (len + (2 ^ 32 - length (value_prefix key))) in
    let rest : left ≡ len - (6 + length key) = omega arith in
    (
      length-append (value_prefix key) (fill_value left left)
          ∙ omega (arith, rest, length-fill_value left left (omega arith)),
      length-c_str (value_prefix key) (fill_value left left) ok
          ∙ ground (arith, rest, sent_fill left left (omega arith)),
    )
