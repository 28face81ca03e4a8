-- ===== src/Group/Progress.antt =====
-- The clerks of frontend/group/group.cc get their replies: from every state the clerks at the front of the
-- queue can empty it.
use pmraccess.Base.{◌<◌, ◌≡◌, Option, List, length, Bytes}
use pmraccess.Store.{DbOps, DbLaws}
use pmraccess.Group.Queue.{System, Reachable}
use pmraccess.Group.Serial.{Serial}

module _ {S : Type 0} (db : DbOps S) (view : S → Bytes → Option Bytes) (laws : DbLaws db view) where
  -- A state further on with a shorter queue, in which no other request has joined.
  abbrev Shorter : System S → Type 0
  Shorter s =
      (t : System S) × Reachable db s t × (length t.queue < length s.queue) × (t.joined ≡ s.joined)
