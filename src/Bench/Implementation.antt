-- ===== src/Bench/Implementation.antt =====
-- The clients of frontend/pmem and frontend/group as clients of benchmark.cc.
use pmraccess.Base.{
  true, arith, ℕ, ◌+◌, ◌≤◌, ◌≡◌, load32, length, refl, ap, inl, inr, Option, Bytes,
}
use pmraccess.Outcome.{aborted}
use pmraccess.Wire.{put, update, delete, client_done}
use pmraccess.Rdma.Nic.{Nic}
use pmraccess.Store.{DbOps, DbLaws}
use pmraccess.Pmem.{Session, send_write, send_get, send_delete}
use pmraccess.Pmem.Operations.{IsIdle, pmem_write_lem, pmem_get_value, pmem_delete_lem}
use pmraccess.Group.Clerk
use pmraccess.Group.Solo.{group_delete_lem}
use pmraccess.Bench.Values.{c_str}
use pmraccess.Bench.Clients.{ClientOps, ClientLaws, run_op}

module _ {S : Type 0} (nic : Nic) (db : DbOps S) where
  abbrev pub pmem_client : ClientOps (Session S)
  pmem_client = record {
    send_put = send_write nic db put;
    send_update = send_write nic db update;
    send_get = send_get nic db;
    send_delete = send_delete nic db;
  }

  pub pmem_client-ClientLaws :
      (view : S → Bytes → Option Bytes)
      → DbLaws db view
      → ClientLaws pmem_client (λ x. view x.db) IsIdle true
  pmem_client-ClientLaws view laws = record {
    put_lem = λ key val x r f.
        let (y, ran, idle, sees, key_there, val_there, head, ring) =
          pmem_write_lem nic db view laws x put key val (inl refl) r (omega arith) in
        (y, ran, idle, sees);
    update_lem = λ key val x r f.
        let (y, ran, idle, sees, key_there, val_there, head, ring) =
          pmem_write_lem nic db view laws x update key val (inr refl) r (omega arith) in
        (y, ran, idle, sees);
    get_lem = λ key v x r small there short.
        let (y, ran, same, ring, idle) =
          pmem_get_value nic db view laws x key v r (omega arith) there short in
        (y, ran, idle, λ j. ap (λ s. view s j) same);
    delete_lem = λ key x may r small.
        let (y, ran, sees, ring, idle) = pmem_delete_lem nic db view laws x key r (omega arith) in
        (y, ran, idle, sees);
  }

module _ {S : Type 0} (nic : Nic) (db : DbOps S) where
  -- The client of frontend/group, whose clerk no other clerk disturbs.
  abbrev pub group_client : ClientOps (Clerk.Session S)
  group_client = record {
    send_put = Clerk.send_write nic db put;
    send_update = Clerk.send_write nic db update;
    send_get = Clerk.send_get nic db;
    send_delete = Clerk.send_delete nic db;
  }

  -- A DELETE of the benchmark, of a key whose request fits a message buffer, ends the client of
  -- frontend/group whose clerk finds no other writer in the queue: the reply of the clerk that leads
  -- is never set, `SendDelete` answers false, and the assert of `Run` fails.
  pub run_op-delete_aborted :
      (view : S → Bytes → Option Bytes)
      → DbLaws db view
      → (valsize : ℕ) (key : Bytes) (x : Clerk.Session S) → load32 x.client_buf 0 ≡ client_done
      → 8 + length (c_str key) ≤ 4096
      → run_op group_client valsize delete key x ≡ aborted
  unfolding run_op
  run_op-delete_aborted view laws valsize key x flag fits =
      let (y, ran, sees) = group_delete_lem nic db view laws x (c_str key) flag fits in rw ran refl
