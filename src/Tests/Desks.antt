-- ===== src/Tests/Desks.antt =====
-- A server of frontend/pmr with a client that connects and writes, and a chunk that is flushed after
-- another clerk has indexed a newer record.
use pmraccess.Base.{
  ℕ, ◌*◌, ◌<◌, ◌≤◌, ◌==◌, Bool, true, load-store_below, ◌≡◌, refl, ap, ◌∙◌, false, some, List, [],
  ◌∷◌, arith, inl, bytes_eq, Bytes, store, if◌then◌else◌, load-store_self,
}
use pmraccess.Outcome.{ensured, Outcome, done, waiting, aborted}
use pmraccess.Uring.{IOuring}
use pmraccess.Wire.{max_async_size, Operation, put, update, get}
use pmraccess.Store.{Meta, mem_meta}
use pmraccess.Bitset.{new}
use pmraccess.Bitset.Laws.{test, new_lem}
use pmraccess.Pmr.State.{Server}
use pmraccess.Pmr.Clerk.{flush}
use pmraccess.Pmr.Client.{Session, send_write, send_get, send_close}
use pmraccess.Pmr.Serving.Leaks.{Runs-close_leak}
use pmraccess.Pmr.Drain.{passes}
use pmraccess.Pmr.Freeing.{waiting_count}
use pmraccess.Pmr.Pending.{pending, index_meta}
use pmraccess.Pmr.Invariant.{contents}
use pmraccess.Pmr.Flush.{contents-flush_own}
use pmraccess.Pmr.Sessions.{connect, connect_lem}
use pmraccess.Pmr.Serving.{
  Alone, after, Hall, session, seat, desk_of, Change, keeps, binds, replay, opened, Runs, start,
  later, connects, writes,
}
use pmraccess.Pmr.Serving.Places.{set_same, set_other}
use pmraccess.Pmr.Serving.Answers.{Runs-contents, Runs-send_get, Runs-send_write}
use pmraccess.Bench.Values.{build_value, c_str, build_value_sent}
use pmraccess.Bench.Clients.{run}
use pmraccess.Bench.Runs.{AllFine, after_ops}
use pmraccess.Bench.Messaging.{pmr_client}
use pmraccess.Bench.FirstRun.{first_run_lem}
use pmraccess.Tests.Data.{
  some_key, copying_nic, Pairs, find_pair, pair_map-HashMapLaws, Db, db, view, db_laws, index,
  server, zeros, some_val, one_pair,
}
use pmraccess.Tests.Sessions.{fresh, loaded, other_key, entry}
use pmraccess.Tests.Rings.{Ring, in_order, in_order-UringLaws, ring-IsFresh}

-- The result of a piece of code that returns.
abbrev result {ℓ} : {A : Type ℓ} → A → Outcome A → A
result d (done a) = a
result d waiting = d
result d aborted = d

result_lem : {A : Type 0} (d : A) (o : Outcome A) (a : A) → o ≡ done a → o ≡ done (result d o)
result_lem d (done b) a e = refl
result_lem d waiting a e = cc
result_lem d aborted a e = cc

abbrev at_start : Hall Ring Db (Pairs Meta)
at_start = opened ([], []) 64 [] zeros one_pair

abbrev joined : Session Db (Pairs Meta)
joined = result fresh (connect copying_nic db index zeros zeros server)

connects_lem :
    (y : Session Db (Pairs Meta)) × (connect copying_nic db index zeros zeros server ≡ done y)
unfolding find_pair new
connects_lem =
    let (y, slot, ran, inv, took, left, empty_head) =
      connect_lem copying_nic db index zeros zeros server 7 (new_lem 256).0 refl (omega arith)
        ((new_lem 256).1 7) (λ j m p. cc) in
    (y, ran)

joined_ran : connect copying_nic db index zeros zeros server ≡ done joined
joined_ran =
    result_lem fresh (connect copying_nic db index zeros zeros server) connects_lem.0 connects_lem.1

abbrev with_one : Hall Ring Db (Pairs Meta)
with_one = seat 0 (some (desk_of joined)) joined.server at_start

with_one-Runs : Runs in_order copying_nic db index view at_start (keeps ∷ []) with_one
unfolding opened
with_one-Runs = later start (connects 0 zeros zeros refl joined_ran)

joined_empty : joined.clerk.buf_head ≡ 0
unfolding find_pair new
joined_empty =
    let (y, slot, ran, inv, took, left, empty_head) =
      connect_lem copying_nic db index zeros zeros server 7 (new_lem 256).0 refl (omega arith)
        ((new_lem 256).1 7) (λ j m p. cc) in
    ensured (λ y'. y'.clerk.buf_head ≡ 0) (rw ran empty_head) joined_ran

joined_free : test joined.server.bitmap 7 ≡ false
unfolding find_pair new
joined_free =
    let (y, slot, ran, inv, took, left, empty_head) =
      connect_lem copying_nic db index zeros zeros server 7 (new_lem 256).0 refl (omega arith)
        ((new_lem 256).1 7) (λ j m p. cc) in
    ensured (λ y'. test y'.server.bitmap 7 ≡ false)
      (rw ran (
        took.bits 7
        ∙ still slot (test server.bitmap 7) (first slot (took.first 0) ((new_lem 256).1 0))
            ((new_lem 256).1 7)))
      joined_ran
  where
    first :
        (slot : ℕ)
        → (0 ≤ 0 → 0 < slot → test server.bitmap 0 ≡ true)
        → test server.bitmap 0 ≡ false
        → slot ≡ 0
    first slot k e = ground (arith, k, e)

    still : (slot : ℕ) (b : Bool) → slot ≡ 0 → b ≡ false → (if slot == 7 then true else b) ≡ false
    still slot b e p = ground arith

at_desk : with_one.desks 0 ≡ some (desk_of joined)
at_desk = set_same 0 (some (desk_of joined)) at_start.desks

alone : Alone with_one 0 other_key
unfolding opened
alone k d ne there = cc (set_other 0 k (some (desk_of joined)) at_start.desks ne)

Runs-close_leak_example :
    (slot : ℕ) × (r : IOuring Ring) × (s : Server Db (Pairs Meta)) × (joined.clerk.chunk_offset
      ≡ max_async_size * slot)
    × (send_close copying_nic db index (session (desk_of joined) with_one.server)
        ≡ done with_one.server)
    × (passes in_order
          (waiting_count in_order in_order-UringLaws with_one.ring with_one.server)
          with_one.ring
          with_one.server
        ≡ done (r, s))
    × (s.queue ≡ [])
    × (r.inflight ≡ 0)
    × (test s.bitmap slot ≡ true)
Runs-close_leak_example =
    Runs-close_leak in_order in_order-UringLaws copying_nic db index pair_map-HashMapLaws view
      db_laws ([], []) 64 zeros one_pair (keeps ∷ []) with_one 0 (desk_of joined) ring-IsFresh
      with_one-Runs at_desk joined_empty

Runs-send_write_example :
    (y : Session Db (Pairs Meta)) × (send_write copying_nic db index put other_key some_val
        (session (desk_of joined) with_one.server)
      ≡ done y)
    × ((j : Bytes)
        → contents index view y.server j
          ≡ (if bytes_eq other_key j then some some_val else replay (keeps ∷ []) (view one_pair) j))
Runs-send_write_example =
    Runs-send_write in_order in_order-UringLaws copying_nic db index pair_map-HashMapLaws view
      db_laws ([], []) 64 zeros one_pair (keeps ∷ []) with_one 0 7 (desk_of joined) put other_key
      some_val ring-IsFresh with_one-Runs at_desk (inl refl) (omega arith) alone (omega arith)
      joined_free

abbrev wrote : Session Db (Pairs Meta)
wrote = result fresh (
    send_write copying_nic db index put other_key some_val
      (session (desk_of joined) with_one.server))

wrote_ran :
    send_write copying_nic db index put other_key some_val
      (session (desk_of joined) with_one.server)
    ≡ done wrote
wrote_ran =
    result_lem fresh
      (send_write copying_nic db index put other_key some_val
        (session (desk_of joined) with_one.server))
      Runs-send_write_example.0 Runs-send_write_example.1

abbrev with_record : Hall Ring Db (Pairs Meta)
with_record = seat 0 (some (desk_of wrote)) wrote.server with_one

abbrev changes : List Change
changes = binds other_key some_val ∷ keeps ∷ []

with_record-Runs : Runs in_order copying_nic db index view at_start changes with_record
with_record-Runs = later with_one-Runs (
    writes 0 (desk_of joined) put other_key some_val at_desk (inl refl) (omega arith) alone
      wrote_ran)

Runs-contents_example :
    contents index view with_record.server other_key ≡ replay changes (view one_pair) other_key
Runs-contents_example =
    Runs-contents in_order in_order-UringLaws copying_nic db index pair_map-HashMapLaws view db_laws
      ([], []) 64 zeros one_pair changes with_record ring-IsFresh with_record-Runs other_key

replay_bound : replay changes (view one_pair) other_key ≡ some some_val
unfolding replay after bytes_eq
replay_bound = refl

Runs-send_get_example :
    (y : Session Db (Pairs Meta)) × (send_get copying_nic db index other_key
        (session (desk_of wrote) with_record.server)
      ≡ done (some some_val, y))
    × (y.server ≡ with_record.server)
Runs-send_get_example =
    Runs-send_get in_order in_order-UringLaws copying_nic db index pair_map-HashMapLaws view db_laws
      ([], []) 64 zeros one_pair changes with_record 0 (desk_of wrote) other_key some_val
      ring-IsFresh with_record-Runs (set_same 0 (some (desk_of wrote)) with_one.desks) (omega arith)
      (omega arith) replay_bound

-- The chunk of `loaded` holds an old record, and chunk 1 the newer one of another clerk.
abbrev overtaken : Server Db (Pairs Meta)
overtaken = record loaded.server {
  map = (other_key, index_meta 32768 entry) ∷ [];
  region = store (loaded.server.region) 32778 (118 ∷ 51 ∷ 51 ∷ []);
}

contents-flush_own_example :
    contents index view (flush db index 13 loaded.clerk overtaken) other_key ≡ some some_val
unfolding pending bytes_eq
contents-flush_own_example =
    contents-flush_own db index pair_map-HashMapLaws view db_laws loaded.clerk overtaken
      (entry ∷ []) 13 other_key entry refl refl (omega arith)
      (
        record {
          inside = omega arith;
          key_fits = omega arith;
          bytes =
              load-store_below loaded.server.region 10 3 32778 (118 ∷ 51 ∷ 51 ∷ []) (omega arith)
              ∙ load-store_self zeros 10 some_val;
        },
        tt,
      )
      refl

-- Before the flush a reader saw the newer value.
overtaken_before : contents index view overtaken other_key ≡ some (118 ∷ 51 ∷ 51 ∷ [])
unfolding find_pair mem_meta bytes_eq
overtaken_before = ap some (load-store_self loaded.server.region 32778 (118 ∷ 51 ∷ 51 ∷ []))

-- A run of the benchmark that updates a key and reads it.
abbrev ops : List (Operation × Bytes)
ops = (update, some_key) ∷ (get, some_key) ∷ []

ops-AllFine : AllFine false 20 ops (view one_pair)
unfolding bytes_eq
ops-AllFine =
    let (whole, sent) = build_value_sent 20 some_key refl (omega arith) (omega arith) in
    (
      omega (arith, sent),
      ((omega arith, (c_str (build_value 20 some_key), refl, omega (arith, sent))), tt),
    )

first_run_lem_example :
    (y : Session Db (Pairs Meta)) × (z : Hall Ring Db (Pairs Meta)) × (connect copying_nic db index
        zeros zeros at_start.server
      ≡ done y)
    × (run
          (pmr_client in_order copying_nic db index 3)
          20
          ops
          (seat 3 (some (desk_of y)) y.server at_start)
        ≡ done z)
    × ((j : Bytes) → contents index view z.server j ≡ after_ops 20 ops (view one_pair) j)
first_run_lem_example =
    first_run_lem in_order in_order-UringLaws copying_nic db index pair_map-HashMapLaws view db_laws
      3 ([], []) 64 zeros one_pair zeros zeros 20 ops ring-IsFresh ops-AllFine
