-- ===== src/Bench/Pieces.antt =====
-- How `Start` of benchmark.cc shares the keys out.
use native.Mathlib.Nat.{
  suc-mul, mul-le-mul_right, div-add-mod, lt-div-mul-add, div-mul-le_self, mul-zero,
}
use pmraccess.Base.{
  ℕ, zero, suc, ◌+◌, ◌-◌, ◌*◌, ◌/◌, ◌%◌, ◌<◌, ◌≤◌, ◌≡◌, inl, inr, arith, ltb, ℕ_discrete,
  Bool-cases,
}
use pmraccess.Bench.{piece, piece_start, piece_end}

-- The client `i` handles the key `k`.
abbrev pub Handles : ℕ → ℕ → ℕ → ℕ → Type 0
Handles n client_num i k = (piece_start n client_num i ≤ k) × (k < piece_end n client_num i)

-- A client's piece ends before the next begins.
next_piece : (i j q : ℕ) → i < j → i * q + q ≤ j * q
next_piece i j q h =
    let le : suc i * q ≤ j * q = mul-le-mul_right q (omega arith) in omega (arith, suc-mul i q, le)

piece_end_lem :
    (n client_num i : ℕ)
    → i < client_num
    → piece_end n client_num i ≡ i * piece n client_num + piece n client_num
piece_end_lem n client_num i h =
    let all = div-add-mod n client_num in
    let next = next_piece i client_num (piece n client_num) h in ground (arith, all, next)

shared : (n client_num : ℕ) → n - n % client_num ≡ client_num * piece n client_num
shared n client_num = let all = div-add-mod n client_num in omega (arith, all)

same_piece : (i j q k : ℕ) → i * q ≤ k → k < i * q + q → j * q ≤ k → k < j * q + q → i ≡ j
same_piece i j q k a b c d = elim (ℕ_discrete i j) [
  | yes e ↦ e
  | no ne ↦ elim (Bool-cases (ltb i j)) [
    | inl before ↦ absurd (omega (arith, next_piece i j q (ground arith)))
    | inr behind ↦ absurd (omega (arith, next_piece j i q (ground arith)))
  ]
]

some_piece : (c q k : ℕ) → k < c * q → (i : ℕ) × (i < c) × (i * q ≤ k) × (k < i * q + q)
some_piece c zero k h = absurd (omega (arith, mul-zero c))
some_piece c (suc q) k h =
    let low = div-mul-le_self k (suc q) in
    let high : k < k / suc q * suc q + suc q = lt-div-mul-add (omega arith) in
    (
      k / suc q,
      elim (Bool-cases (ltb (k / suc q) c)) [
        | inl few ↦ ground arith
        | inr many ↦
            let le : c * suc q ≤ k / suc q * suc q = mul-le-mul_right (suc q) (ground arith) in
            absurd (omega (arith, le, low))
      ],
      low,
      high,
    )

-- The keys are shared out without overlap, and the `initnum % client_num` last keys go to no client:
-- among the clients `0 .. client_num - 1`, a key is handled by at most one, and by some exactly if it
-- is below `client_num` times the piece.
pub pieces_lem :
    (n client_num : ℕ)
    → 0 < client_num
    → ((i j k : ℕ)
        → i < client_num
        → j < client_num
        → Handles n client_num i k
        → Handles n client_num j k
        → i ≡ j)
      × ((k : ℕ) → k < n - n % client_num → (i : ℕ) × (i < client_num) × Handles n client_num i k)
      × ((i k : ℕ) → i < client_num → Handles n client_num i k → k < n - n % client_num)
pieces_lem n client_num h = (
  λ i j k hi hj (a, b) (c, d).
      let ei = piece_end_lem n client_num i hi in
      let ej = piece_end_lem n client_num j hj in
      same_piece i j (piece n client_num) k a (omega (arith, ei)) c (omega (arith, ej)),
  λ k lt.
      let (i, hi, a, b) =
        some_piece client_num (piece n client_num) k (omega (arith, shared n client_num)) in
      (i, hi, (a, omega (arith, piece_end_lem n client_num i hi))),
  λ i k hi (a, b).
      let ei = piece_end_lem n client_num i hi in
      let next = next_piece i client_num (piece n client_num) hi in
      omega (arith, shared n client_num),
)
