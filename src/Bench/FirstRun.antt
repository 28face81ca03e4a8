-- ===== src/Bench/FirstRun.antt =====
-- benchmark.cc with one client on a new server of frontend/pmr, from `Connect` to the end of `Run`.
use pmraccess.Base.{
  ℕ, ◌≡◌, refl, sym, ◌∙◌, ap, Bool, true, false, Option, none, some, List, [], arith, ◌==◌, inl,
  if◌then◌else◌, Bytes, Mem, ℕ_discrete,
}
use pmraccess.Outcome.{done}
use pmraccess.Wire.{Operation}
use pmraccess.Rdma.Nic.{Nic}
use pmraccess.Store.{Meta, DbOps, DbLaws, HashMapOps, HashMapLaws}
use pmraccess.Uring.{UringOps, UringLaws}
use pmraccess.Bitset.{new}
use pmraccess.Bitset.Laws.{test, new_lem}
use pmraccess.Pmr.State.{chunk_count, new_server}
use pmraccess.Pmr.Client.{Session}
use pmraccess.Pmr.Pending.{Entry}
use pmraccess.Pmr.Invariant.{contents, indexed_or}
use pmraccess.Pmr.Safety.{IsFresh}
use pmraccess.Pmr.Sessions.{connect, connect_lem}
use pmraccess.Pmr.Serving.{Hall, desk_of, seat, set, opened}
use pmraccess.Pmr.Serving.Places.{Well, set_same, set_other}
use pmraccess.Pmr.Serving.Shifts.{Shift-Well}
use pmraccess.Pmr.Serving.Steps.{connect-Shift}
use pmraccess.Pmr.Serving.Answers.{opened-Well}
use pmraccess.Bench.Clients.{run}
use pmraccess.Bench.Runs.{AllFine, after_ops, run_lem}
use pmraccess.Bench.Messaging.{pmr_client}
use pmraccess.Bench.Served.{IsServed, pmr_client-ClientLaws}

module _ {K S T : Type 0} (u : UringOps K) {entries : ℕ} (laws : UringLaws u entries) (nic : Nic)
    (db : DbOps S) (h : HashMapOps Meta T) (map_laws : HashMapLaws h)
    (view : S → Bytes → Option Bytes) (store_laws : DbLaws db view) (i : ℕ) where
  -- The first client of a server whose bits are all clear.
  first_client :
      (x : Hall K S T) (es : ℕ → List Entry) (slot : ℕ → ℕ) (local_buf send_buf : Mem)
      → Well u laws h x es slot
      → ((k : ℕ) → x.desks k ≡ none)
      → ((n : ℕ) → test x.server.bitmap n ≡ false)
      → ((j : Bytes) → h.find j x.server.map ≡ none)
      → (y : Session S T) × (connect nic db h local_buf send_buf x.server ≡ done y)
        × IsServed u laws nic db h map_laws view store_laws i (seat i (some (desk_of y)) y.server x)
        × ((j : Bytes) → contents h view y.server j ≡ contents h view x.server j)
  first_client x es slot local_buf send_buf w vacant clear_bits empty =
      let (y, slot', ran, inv, took, left, empty_head) =
        connect_lem nic db h local_buf send_buf x.server 0 w.drain.valid w.drain.sized (omega arith)
          (clear_bits 0) (λ j m p. absurd (none_some (sym (empty j) ∙ p))) in
      (
        y,
        ran,
        record {
          es = set i [] es;
          slot = set i slot' slot;
          desk = desk_of y;
          here = set_same i (some (desk_of y)) x.desks;
          only = λ k d there. elim (ℕ_discrete k i) [
            | yes same ↦ same
            | no ne ↦ absurd (
                none_some
                  (sym (vacant k) ∙ sym (set_other i k (some (desk_of y)) x.desks ne) ∙ there))
          ];
          well = Shift-Well u laws h x es slot i (some (desk_of y)) [] slot' y.server w (
              connect-Shift u laws db h map_laws view store_laws x es slot i slot' y w (vacant i)
                inv took left);
          spare = λ n used. inl (
              mine n slot' (test x.server.bitmap n) (clear_bits n) (sym (took.bits n) ∙ used)
              ∙ sym (set_same i slot' slot));
        },
        λ j. ap (λ s. contents h view s j) left,
      )
    where
      none_some : {A : Type 0} {a : A} → none ≡ some a → ⊥
      none_some p = cc

      mine : (n m : ℕ) (b : Bool) → b ≡ false → (if m == n then true else b) ≡ true → n ≡ m
      mine n m b e p = ground (arith, e, p)

  -- On a new server of frontend/pmr with a fresh ring and an empty index, the first client connects
  -- and then `Run` returns for any operations without a DELETE whose requests fit a message buffer,
  -- each GET of a key that is bound, when its turn comes, to a value of at most 120 bytes, if `UringRun` frees the waiting chunks
  -- before each write: no assert fails, and a reader sees the operations applied to the store in
  -- order.
  pub first_run_lem :
      (k : K) (qd : ℕ) (region : Mem) (store : S) (local_buf send_buf : Mem) (valsize : ℕ)
      (ops : List (Operation × Bytes))
      → IsFresh u laws db h k qd
      → AllFine false valsize ops (view store)
      → (y : Session S T) × (z : Hall K S T) × (connect nic db h local_buf send_buf
            (opened k qd h.empty region store).server
          ≡ done y)
        × (run
              (pmr_client u nic db h i)
              valsize
              ops
              (seat i (some (desk_of y)) y.server (opened k qd h.empty region store))
            ≡ done z)
        × ((j : Bytes) → contents h view z.server j ≡ after_ops valsize ops (view store) j)
  unfolding opened new_server new
  first_run_lem k qd region store local_buf send_buf valsize ops f fine =
      let x : Hall K S T = opened k qd h.empty region store in
      let (y, ran, served, same) =
        first_client x (λ n. []) (λ n. n) local_buf send_buf
          (opened-Well u laws nic db h map_laws view store_laws k qd region store f x refl)
          (λ n. refl) (new_lem chunk_count).1 map_laws.find_empty in
      let (z, ran_ops, (ready, sees)) =
        run_lem (pmr_client u nic db h i) (λ w. contents h view w.server)
          (IsServed u laws nic db h map_laws view store_laws i) false
          (pmr_client-ClientLaws u laws nic db h map_laws view store_laws i) valsize ops
          (seat i (some (desk_of y)) y.server x) (view store)
          (
            served,
            λ j. same j ∙ ap (λ o. indexed_or region j o (view store j)) (map_laws.find_empty j),
          )
          fine in
      (y, z, ran, ran_ops, sees)
