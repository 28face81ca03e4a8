-- ===== src/Bench/Runs.antt =====
-- What the threads of benchmark.cc leave in the store, and that no assert of `Run` fails.
use pmraccess.Base.{
  Bool, true, ℕ, ◌+◌, ◌≤◌, ◌≡◌, refl, ◌∙◌, ap, Option, none, some, List, [], ◌∷◌, ◌++◌, map,
  if◌then◌else◌, length, bytes_eq, Bytes,
}
use pmraccess.Outcome.{done}
use pmraccess.Wire.{Operation, put, get, update, delete, close, alloc, max_request}
use pmraccess.Bench.Values.{build_value, c_str}
use pmraccess.Bench.Clients.{ClientOps, ClientLaws, populate, run_op, run}

-- The store as a function from keys to values, and an operation of the benchmark on it.
abbrev pub View : Type 0
View = Bytes → Option Bytes

abbrev pub bind : Bytes → Option Bytes → View → View
bind key val m j = if bytes_eq key j then val else m j

abbrev pub after_op : ℕ → Operation → Bytes → View → View
after_op valsize put key m = bind (c_str key) (some (c_str (key ++ build_value valsize key))) m
after_op valsize update key m = bind (c_str key) (some (c_str (build_value valsize key))) m
after_op valsize delete key m = bind (c_str key) none m
after_op valsize get key m = m
after_op valsize close key m = m
after_op valsize alloc key m = m

abbrev pub after_ops : ℕ → List (Operation × Bytes) → View → View
after_ops valsize [] m = m
after_ops valsize ((op, key) ∷ ops) m = after_ops valsize ops (after_op valsize op key m)

-- Its request fits a message buffer, a GET asks for a key that is bound to a value of at most 120
-- bytes, as long as a reply of one inline message can be, and a DELETE is for a client that deletes.
abbrev pub Fine : Bool → ℕ → Operation → Bytes → View → Type 0
Fine deletes valsize put key m =
    16 + length (c_str key) + length (c_str (key ++ build_value valsize key)) ≤ 4096
Fine deletes valsize update key m =
    16 + length (c_str key) + length (c_str (build_value valsize key)) ≤ 4096
Fine deletes valsize get key m =
    (16 + length (c_str key) ≤ max_request)
    × ((v : Bytes) × (m (c_str key) ≡ some v) × (length v ≤ 120))
Fine deletes valsize delete key m = (deletes ≡ true) × (16 + length (c_str key) ≤ max_request)
Fine deletes valsize close key m = Unit {0}
Fine deletes valsize alloc key m = Unit {0}

abbrev pub AllFine : Bool → ℕ → List (Operation × Bytes) → View → Type 0
AllFine deletes valsize [] m = Unit {0}
AllFine deletes valsize ((op, key) ∷ ops) m =
    Fine deletes valsize op key m × AllFine deletes valsize ops (after_op valsize op key m)

module _ {C : Type 0} (c : ClientOps C) (view : C → Bytes → Option Bytes) (Ready : C → Type 0)
    (deletes : Bool) (laws : ClientLaws c view Ready deletes) where
  -- The client is ready, and a reader sees `m`.
  abbrev pub Shows : C → View → Type 0
  Shows x m = Ready x × ((j : Bytes) → view x j ≡ m j)

  seen_bind :
      (key : Bytes) (val : Option Bytes) (x y : C) (m : View)
      → ((j : Bytes) → view y j ≡ (if bytes_eq key j then val else view x j))
      → ((j : Bytes) → view x j ≡ m j)
      → (j : Bytes) → view y j ≡ bind key val m j
  seen_bind key val x y m e s j = e j ∙ ap (λ o. if bytes_eq key j then val else o) (s j)

  run_op_lem :
      (valsize : ℕ) (op : Operation) (key : Bytes) (x : C) (m : View)
      → Shows x m
      → Fine deletes valsize op key m
      → (y : C) × (run_op c valsize op key x ≡ done y) × Shows y (after_op valsize op key m)
  unfolding run_op
  run_op_lem valsize put key x m (r, s) f =
      let (y, ran, r', e) =
        laws.put_lem (c_str key) (c_str (key ++ build_value valsize key)) x r f in
      (y, ran, (r', seen_bind (c_str key) _ x y m e s))
  run_op_lem valsize update key x m (r, s) f =
      let (y, ran, r', e) = laws.update_lem (c_str key) (c_str (build_value valsize key)) x r f in
      (y, ran, (r', seen_bind (c_str key) _ x y m e s))
  run_op_lem valsize get key x m (r, s) (small, (v, there, short)) =
      let (y, ran, r', e) = laws.get_lem (c_str key) v x r small (s (c_str key) ∙ there) short in
      (y, rw ran refl, (r', λ j. e j ∙ s j))
  run_op_lem valsize delete key x m (r, s) (may, f) =
      let (y, ran, r', e) = laws.delete_lem (c_str key) x may r f in
      (y, rw ran refl, (r', seen_bind (c_str key) none x y m e s))
  run_op_lem valsize close key x m (r, s) f = (x, refl, (r, s))
  run_op_lem valsize alloc key x m (r, s) f = (x, refl, (r, s))

  -- With a client that keeps the laws of `ClientLaws`, and operations whose requests fit a message
  -- buffer, each GET of a key that is bound, when its turn comes, to a value of at most 120 bytes,
  -- and no DELETE where the client does not keep the law of it, `Run` returns, none of its asserts
  -- fails, and a reader sees the operations applied one after the other.
  pub run_lem :
      (valsize : ℕ) (ops : List (Operation × Bytes)) (x : C) (m : View)
      → Shows x m
      → AllFine deletes valsize ops m
      → (y : C) × (run c valsize ops x ≡ done y) × Shows y (after_ops valsize ops m)
  unfolding run
  run_lem valsize [] x m s f = (x, refl, s)
  run_lem valsize ((op, key) ∷ ops) x m s (f, fs) =
      let (y, ran, s') = run_op_lem valsize op key x m s f in
      let (z, ran', s'') = run_lem valsize ops y (after_op valsize op key m) s' fs in
      (z, rw ran ran', s'')

  -- `Populate` leaves what the same number of updates would leave.
  pub populate_lem :
      (valsize : ℕ) (keys : List Bytes) (x : C) (m : View)
      → Shows x m
      → AllFine deletes valsize (map (λ key. (update, key)) keys) m
      → (y : C) × (populate c valsize keys x ≡ done y)
        × Shows y (after_ops valsize (map (λ key. (update, key)) keys) m)
  unfolding populate
  populate_lem valsize [] x m s f = (x, refl, s)
  populate_lem valsize (key ∷ keys) x m (r, s) (f, fs) =
      let (y, ran, r', e) = laws.put_lem (c_str key) (c_str (build_value valsize key)) x r f in
      let (z, ran', s') =
        populate_lem valsize keys y (after_op valsize update key m)
          (r', seen_bind (c_str key) _ x y m e s) fs in
      (z, rw ran ran', s')
