-- ===== src/Tests/Benches.antt =====
-- The properties of benchmark.cc at concrete inputs.
use pmraccess.Base.{
  true, ℕ, ◌-◌, ◌%◌, ◌<◌, ◌≡◌, refl, List, [], ◌∷◌, arith, length, bytes_eq, Bytes,
}
use pmraccess.Outcome.{done}
use pmraccess.Wire.{Operation, get, update, delete}
use pmraccess.Bench.Input.{insert_word, read_word, read_pairs}
use pmraccess.Bench.Text.{AllWords, print, read_pairs-print}
use pmraccess.Bench.Pieces.{Handles, pieces_lem}
use pmraccess.Bench.Values.{build_value, c_str, build_value_sent}
use pmraccess.Bench.Clients.{ClientLaws, run}
use pmraccess.Bench.Runs.{after_ops, AllFine, Shows, run_lem}
use pmraccess.Bench.Implementation.{pmem_client, pmem_client-ClientLaws}
use pmraccess.Pmem.{Session}
use pmraccess.Pmem.Operations.{IsIdle}
use pmraccess.Tests.Data.{copying_nic, Db, db, view, db_laws, some_key}
use pmraccess.Tests.Sessions.{other_key}
use pmraccess.Tests.Batches.{pmem_session, pmem_session-IsIdle}

abbrev lines : List (Bytes × Bytes)
lines = (insert_word, some_key) ∷ (read_word, other_key) ∷ []

lines-AllWords : AllWords lines
lines-AllWords = (
  ((refl, (refl, (refl, (refl, (refl, (refl, tt)))))), (refl, (refl, tt))),
  (((refl, (refl, (refl, (refl, tt)))), (refl, (refl, tt))), tt),
)

read_pairs-print_example : read_pairs (length (print lines)) (print lines) ≡ lines
read_pairs-print_example = read_pairs-print lines lines-AllWords

pieces_lem_example :
    ((i j k : ℕ) → i < 3 → j < 3 → Handles 11 3 i k → Handles 11 3 j k → i ≡ j)
    × ((k : ℕ) → k < 11 - 11 % 3 → (i : ℕ) × (i < 3) × Handles 11 3 i k)
    × ((i k : ℕ) → i < 3 → Handles 11 3 i k → k < 11 - 11 % 3)
pieces_lem_example = pieces_lem 11 3 (omega arith)

abbrev ops : List (Operation × Bytes)
ops = (update, some_key) ∷ (get, some_key) ∷ (delete, some_key) ∷ []

ops-AllFine : AllFine true 20 ops (view pmem_session.db)
unfolding bytes_eq
ops-AllFine =
    let (whole, sent) = build_value_sent 20 some_key refl (omega arith) (omega arith) in
    (
      omega (arith, sent),
      (
        (omega arith, (c_str (build_value 20 some_key), refl, omega (arith, sent))),
        ((refl, omega arith), tt),
      ),
    )

abbrev client_laws : ClientLaws (pmem_client copying_nic db) (λ x. view x.db) IsIdle true
client_laws = pmem_client-ClientLaws copying_nic db view db_laws

run_lem_example :
    (y : Session Db) × (run (pmem_client copying_nic db) 20 ops pmem_session ≡ done y)
    × Shows
        (pmem_client copying_nic db)
        (λ x. view x.db)
        IsIdle
        true
        client_laws
        y
        (after_ops 20 ops (view pmem_session.db))
run_lem_example =
    run_lem (pmem_client copying_nic db) (λ x. view x.db) IsIdle true client_laws 20 ops
      pmem_session (view pmem_session.db) (pmem_session-IsIdle, λ j. refl) ops-AllFine
