-- ===== src/Pmr/Serving.antt =====
-- A server of frontend/pmr with its clients: calls of `PMRClient` by any number of them, one at a time,
-- each with the turns of its clerk, and passes of `UringRun` between them.
pub mod Places
pub mod Shifts
pub mod Moves
pub mod Steps
pub mod Closes
pub mod Drains
pub mod Writes
pub mod Contents
pub mod Answers
pub mod Leaks
use pmraccess.Base.{
  ℕ, ◌+◌, ◌^◌, ◌<◌, ◌≤◌, ◌≡◌, Bool, true, false, Option, none, some, List, [], ◌∷◌, ◌||◌, length,
  if◌then◌else◌, bytes_eq, Bytes, Mem, ◌==◌,
}
use pmraccess.Outcome.{done}
use pmraccess.Wire.{Operation, max_request}
use pmraccess.Rdma.Nic.{Nic}
use pmraccess.Store.{Meta, DbOps, HashMapOps, missing}
use pmraccess.Uring.{UringOps, IOuring, new_uring}
use pmraccess.Pmr.State.{Server, Clerk, Client, new_server}
use pmraccess.Pmr.Client.{Session, send_write, send_get, send_delete, send_close}
use pmraccess.Pmr.Drain.{pass}
use pmraccess.Pmr.Invariant.{contents}
use pmraccess.Pmr.Writes.{IsWrite}
use pmraccess.Pmr.Sessions.{connect}

-- A client with the clerk that serves it.
pub record Desk : Type 0 where
  pub client : Client
  pub clerk : Clerk

-- The ring of `UringRun`, the desks by a number each, and the server.
pub record Hall (K S T : Type 0) : Type 0 where
  pub ring : IOuring K
  pub desks : ℕ → Option Desk
  pub server : Server S T

abbrev pub session : {S T : Type 0} → Desk → Server S T → Session S T
session d s = record { client = d.client; clerk = d.clerk; server = s }

abbrev pub desk_of : {S T : Type 0} → Session S T → Desk
desk_of y = record { client = y.client; clerk = y.clerk }

-- A function changed at one number.
unfoldable pub set {ℓ} : {A : Type ℓ} → ℕ → A → (ℕ → A) → ℕ → A
set i a f k = if k == i then a else f k

abbrev pub seat : {K S T : Type 0} → ℕ → Option Desk → Server S T → Hall K S T → Hall K S T
seat i o s x = record x { desks = set i o x.desks; server = s }

-- The key is among those of a clerk's batch.
unfoldable pub is_batched : Bytes → List Bytes → Bool
is_batched key [] = false
is_batched key (k ∷ ks) = bytes_eq k key || is_batched key ks

-- No other clerk has the key in its batch.
abbrev pub Alone : {K S T : Type 0} → Hall K S T → ℕ → Bytes → Type 0
Alone x i key =
    (k : ℕ) (d : Desk) → ¬ (k ≡ i) → x.desks k ≡ some d → is_batched key d.clerk.key_batch ≡ false

-- What a step means for the map from keys to values that the clients share.
pub data Change : Type 0 where
  keeps : Change
  binds : Bytes → Bytes → Change
  unbinds : Bytes → Change

unfoldable pub after : Change → (Bytes → Option Bytes) → Bytes → Option Bytes
after keeps f j = f j
after (binds key val) f j = if bytes_eq key j then some val else f j
after (unbinds key) f j = if bytes_eq key j then none else f j

-- Of several changes, the latest first.
unfoldable pub replay : List Change → (Bytes → Option Bytes) → Bytes → Option Bytes
unfolding after
replay [] f = f
replay (c ∷ cs) f = after c (replay cs f)

-- The hall of a new server.
unfoldable pub opened : {K S T : Type 0} → K → ℕ → T → Mem → S → Hall K S T
unfolding new_uring new_server
opened k entries map region db = record {
  ring = new_uring k entries;
  desks = λ i. none;
  server = new_server map region db;
}

module _ {K S T : Type 0} (u : UringOps K) (nic : Nic) (db : DbOps S) (h : HashMapOps Meta T)
    (view : S → Bytes → Option Bytes) where
  -- The calls that return. A record is written that fits the client's buffer and whose key no other
  -- clerk has in its batch; a key is read that is bound to a value of at most 120 bytes, or that `Get`
  -- of the store answers with false; a key is deleted that the index does not hold.
  pub data Step : Hall K S T → Change → Hall K S T → Type 0 where
    connects :
        {x : Hall K S T} {y : Session S T} (i : ℕ) (local_buf send_buf : Mem)
        → x.desks i ≡ none
        → connect nic db h local_buf send_buf x.server ≡ done y
        → Step x keeps (seat i (some (desk_of y)) y.server x)
    writes :
        {x : Hall K S T} {y : Session S T} (i : ℕ) (d : Desk) (op : Operation) (key val : Bytes)
        → x.desks i ≡ some d
        → IsWrite op
        → 16 + length key + length val ≤ max_request
        → Alone x i key
        → send_write nic db h op key val (session d x.server) ≡ done y
        → Step x (binds key val) (seat i (some (desk_of y)) y.server x)
    reads :
        {x : Hall K S T} {y : Session S T} {r : Option Bytes} (i : ℕ) (d : Desk) (key val : Bytes)
        → x.desks i ≡ some d
        → 16 + length key ≤ max_request
        → contents h view x.server key ≡ some val
        → length val ≤ 120
        → send_get nic db h key (session d x.server) ≡ done (r, y)
        → Step x keeps (seat i (some (desk_of y)) y.server x)
    misses :
        {x : Hall K S T} {y : Session S T} {r : Option Bytes} (i : ℕ) (d : Desk) (key : Bytes)
        → x.desks i ≡ some d
        → 16 + length key ≤ max_request
        → h.find key x.server.map ≡ none
        → db.get key x.server.db ≡ missing
        → send_get nic db h key (session d x.server) ≡ done (r, y)
        → Step x keeps (seat i (some (desk_of y)) y.server x)
    deletes :
        {x : Hall K S T} {y : Session S T} {r : Bool} (i : ℕ) (d : Desk) (key : Bytes)
        → x.desks i ≡ some d
        → 16 + length key ≤ max_request
        → h.find key x.server.map ≡ none
        → send_delete nic db h key (session d x.server) ≡ done (r, y)
        → Step x (unbinds key) (seat i (some (desk_of y)) y.server x)
    closes :
        {x : Hall K S T} {s : Server S T} (i : ℕ) (d : Desk)
        → x.desks i ≡ some d
        → send_close nic db h (session d x.server) ≡ done s
        → Step x keeps (seat i none s x)
    drains :
        {x : Hall K S T} {r : IOuring K} {s : Server S T}
        → pass u x.ring x.server ≡ done (r, s)
        → Step x keeps (record x { ring = r; server = s })

  -- Any number of steps, with their changes, the latest first.
  pub data Runs (x : Hall K S T) : List Change → Hall K S T → Type 0 where
    start : Runs x [] x
    later :
        {cs : List Change} {c : Change} {y z : Hall K S T}
        → Runs x cs y
        → Step y c z
        → Runs x (c ∷ cs) z
