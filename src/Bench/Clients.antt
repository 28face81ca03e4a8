-- ===== src/Bench/Clients.antt =====
-- What the threads of benchmark.cc ask of a client: `Client` of frontend/cs.h, `Populate` and `Run`.
use pmraccess.Base.{
  ℕ, zero, suc, take, ◌+◌, ◌-◌, ◌≤◌, ◌≡◌, Bool, true, false, Option, none, some, List, [], ◌∷◌,
  ◌++◌, if◌then◌else◌, length, bytes_eq, Bytes,
}
use pmraccess.Outcome.{Outcome, done, check, ◌>>=◌, ◌>>◌}
use pmraccess.Wire.{Operation, put, get, update, delete, close, alloc, max_request}
use pmraccess.Bench.{piece_start, piece_end}
use pmraccess.Bench.Values.{build_value, c_str}

-- The virtual functions, over the states `C` of a connected client.
pub record ClientOps (C : Type 0) : Type 0 where
  pub send_put : Bytes → Bytes → C → Outcome C
  pub send_update : Bytes → Bytes → C → Outcome C
  pub send_get : Bytes → C → Outcome (Option Bytes × C)
  pub send_delete : Bytes → C → Outcome (Bool × C)

abbrev pub drop {ℓ} : {A : Type ℓ} → ℕ → List A → List A
drop zero xs = xs
drop (suc n) [] = []
drop (suc n) (x ∷ xs) = drop n xs

-- The elements that a loop from `start` up to `end` reads.
abbrev pub range {ℓ} : {A : Type ℓ} → ℕ → ℕ → List A → List A
range start end xs = take (end - start) (drop start xs)

abbrev pub bound : Option Bytes → Bool
bound none = false
bound (some v) = true

module _ {C : Type 0} (c : ClientOps C) where
  -- `Populate` on the keys of its piece.
  unfoldable pub populate : ℕ → List Bytes → C → Outcome C
  populate valsize [] x = done x
  populate valsize (key ∷ keys) x =
      c.send_put (c_str key) (c_str (build_value valsize key)) x >>= populate valsize keys

  -- The `switch` of `Run`, with its asserts.
  unfoldable pub run_op : ℕ → Operation → Bytes → C → Outcome C
  run_op valsize put key x = c.send_put (c_str key) (c_str (key ++ build_value valsize key)) x
  run_op valsize update key x = c.send_update (c_str key) (c_str (build_value valsize key)) x
  run_op valsize get key x = c.send_get (c_str key) x >>= λ r. check (bound (r.0)) >> done (r.1)
  run_op valsize delete key x = c.send_delete (c_str key) x >>= λ r. check (r.0) >> done (r.1)
  run_op valsize close key x = done x
  run_op valsize alloc key x = done x

  -- `Run` on the operations of its piece, without the clock.
  unfoldable pub run : ℕ → List (Operation × Bytes) → C → Outcome C
  unfolding run_op
  run valsize [] x = done x
  run valsize ((op, key) ∷ ops) x = run_op valsize op key x >>= run valsize ops

module _ {C : Type 0} (c : ClientOps C) (client_num valsize i : ℕ) where
  -- The threads that `Start` makes for the client `i`.
  unfoldable pub start_populate : List Bytes → C → Outcome C
  unfolding populate
  start_populate init_keys x =
      let n = length init_keys in
      populate c valsize (range (piece_start n client_num i) (piece_end n client_num i) init_keys) x

  unfoldable pub start_run : List (Operation × Bytes) → C → Outcome C
  unfolding run
  start_run ops x =
      let n = length ops in
      run c valsize (range (piece_start n client_num i) (piece_end n client_num i) ops) x

-- What a client promises: `Ready` holds between its operations, and `view` is what a reader sees.
-- `deletes` says whether a deleted key is gone for a reader. Requests fit the client's buffer, and a
-- value that is read has at most 120 bytes: `post_write1` sends no longer reply.
pub record ClientLaws {C : Type 0} (c : ClientOps C) (view : C → Bytes → Option Bytes)
    (Ready : C → Type 0) (deletes : Bool) : Type 0 where
  pub put_lem :
      (key val : Bytes) (x : C)
      → Ready x
      → 16 + length key + length val ≤ 4096
      → (y : C) × (c.send_put key val x ≡ done y)
        × Ready y
        × ((j : Bytes) → view y j ≡ (if bytes_eq key j then some val else view x j))
  pub update_lem :
      (key val : Bytes) (x : C)
      → Ready x
      → 16 + length key + length val ≤ 4096
      → (y : C) × (c.send_update key val x ≡ done y)
        × Ready y
        × ((j : Bytes) → view y j ≡ (if bytes_eq key j then some val else view x j))
  pub get_lem :
      (key v : Bytes) (x : C)
      → Ready x
      → 16 + length key ≤ max_request
      → view x key ≡ some v
      → length v ≤ 120
      → (y : C) × (c.send_get key x ≡ done (some v, y))
        × Ready y
        × ((j : Bytes) → view y j ≡ view x j)
  pub delete_lem :
      (key : Bytes) (x : C)
      → deletes ≡ true
      → Ready x
      → 16 + length key ≤ max_request
      → (y : C) × (c.send_delete key x ≡ done (true, y))
        × Ready y
        × ((j : Bytes) → view y j ≡ (if bytes_eq key j then none else view x j))
