-- ===== src/Pmr.antt =====
-- frontend/pmr: the front end over the persistent memory region. Clients write records straight
-- into a chunk of the region; the clerk indexes them there and hands full chunks to the store.
pub mod State
pub mod Clerk
pub mod Client
pub mod Pending
pub mod Exchange
pub mod Invariant
pub mod Reads
pub mod Lost
pub mod Deletes
pub mod Wrote
pub mod Writes
pub mod Flush
pub mod Alloc
pub mod Full
pub mod Sessions
pub mod Closing
pub mod Drain
pub mod Filling
pub mod Owners
pub mod Waiting
pub mod Freeing
pub mod Draining
pub mod System
pub mod Turns
pub mod Ownership
pub mod Moves
pub mod Exclusive
pub mod Safety
pub mod Serving
