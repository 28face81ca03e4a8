-- ===== src/Pmr/System.antt =====
-- A server of frontend/pmr at work: its clerks' threads and that of `UringRun`, a turn of one of them
-- at a time. The clients are not looked at: they may write any bytes to the region and the buffers.
use pmraccess.Base.{ℕ, ◌/◌, ◌≡◌, some, List, [], ◌∷◌, ◌++◌, Mem}
use pmraccess.Outcome.{done}
use pmraccess.Wire.{alloc, clerk_done, request_op, max_async_size}
use pmraccess.Wire.Transfer.{set_header}
use pmraccess.Store.{Meta, DbOps, HashMapOps}
use pmraccess.Uring.{UringOps, IOuring, new_uring}
use pmraccess.Pmr.State.{Server, Clerk, new_clerk, new_server}
use pmraccess.Pmr.Clerk.{replied, closed, turn}
use pmraccess.Pmr.Drain.{pass}

-- The ring of `UringRun`, the clerks whose client has connected, and what they share.
pub record System (K S T : Type 0) : Type 0 where
  pub ring : IOuring K
  pub clerks : List Clerk
  pub server : Server S T

-- What the peers of a turn have written before it.
abbrev pub written : {S T : Type 0} → Mem → Server S T → Server S T
written region s = record s { region = region }

abbrev pub received : Mem → Clerk → Clerk
received send_buf c = record c { send_buf = send_buf }

-- The system that the constructor of `PMRServer` makes.
unfoldable pub initial : {K S T : Type 0} → K → ℕ → T → Mem → S → System K S T
unfolding new_uring new_server
initial k entries map region db = record {
  ring = new_uring k entries;
  clerks = [];
  server = new_server map region db;
}

module _ {K S T : Type 0} (u : UringOps K) (db : DbOps S) (h : HashMapOps Meta T) where
  -- A clerk joins by answering the ALLOC of its client's `Connect`, it answers any further request,
  -- or it ends with a CLOSE; and `UringRun` makes a pass.
  pub data Step : System K S T → System K S T → Type 0 where
    joins :
        {r : IOuring K} {cs : List Clerk} {s s' : Server S T} {c' : Clerk} (own buf region : Mem)
        → request_op (set_header buf clerk_done) 8 ≡ some alloc
        → turn db h (received buf (new_clerk own)) (written region s) ≡ done (replied c' s')
        → Step
            (record { ring = r; clerks = cs; server = s })
            (record { ring = r; clerks = c' ∷ cs; server = s' })
    answers :
        {r : IOuring K} (before after : List Clerk) {s s' : Server S T} (c : Clerk) {c' : Clerk}
        (buf region : Mem)
        → turn db h (received buf c) (written region s) ≡ done (replied c' s')
        → Step
            (record { ring = r; clerks = before ++ c ∷ after; server = s })
            (record { ring = r; clerks = before ++ c' ∷ after; server = s' })
    ends :
        {r : IOuring K} (before after : List Clerk) {s s' : Server S T} (c : Clerk)
        (buf region : Mem)
        → turn db h (received buf c) (written region s) ≡ done (closed s')
        → Step
            (record { ring = r; clerks = before ++ c ∷ after; server = s })
            (record { ring = r; clerks = before ++ after; server = s' })
    drains :
        {r r' : IOuring K} {cs : List Clerk} {s s' : Server S T}
        → pass u r s ≡ done (r', s')
        → Step
            (record { ring = r; clerks = cs; server = s })
            (record { ring = r'; clerks = cs; server = s' })

  pub data Reachable (x : System K S T) : System K S T → Type 0 where
    start : Reachable x x
    later : {y z : System K S T} → Reachable x y → Step y z → Reachable x z

-- The chunk that a clerk writes.
abbrev pub slot_of : Clerk → ℕ
slot_of c = c.chunk_offset / max_async_size
