-- ===== src/Bench.antt =====
-- benchmark.cc and include/generator.h: the input files of the benchmark, the share of each client, and
-- what a client sends.
pub mod Input
pub mod Text
pub mod Pieces
pub mod Pool
pub mod Values
pub mod Clients
pub mod Runs
pub mod Implementation
pub mod Messaging
pub mod Served
pub mod FirstRun
use pmraccess.Base.{
  ℕ, zero, suc, ◌+◌, ◌-◌, ◌*◌, ◌/◌, ◌≡◌, Bool, true, false, Option, none, some, List, [], ◌∷◌, ◌++◌,
  leb, ltb, ◌==◌, if◌then◌else◌, length, bytes_eq, Bytes,
}

-- The share of the client `i` of `client_num`, which is not 0, among `n` keys: `piece`, and the first
-- index and the one behind the last that its thread is given.
abbrev pub piece : ℕ → ℕ → ℕ
piece n client_num = n / client_num

abbrev pub piece_start : ℕ → ℕ → ℕ → ℕ
piece_start n client_num i = i * piece n client_num

abbrev pub minimum : ℕ → ℕ → ℕ
minimum a b = if leb a b then a else b

abbrev pub piece_end : ℕ → ℕ → ℕ → ℕ
piece_end n client_num i =
    i * piece n client_num + minimum (piece n client_num) (n - i * piece n client_num)
