-- ===== src/Rdma/Nic.antt =====
-- The network card below rdmautil/rdmautil.cc: an RDMA write that has completed, between two
-- registered regions that are addressed from their starts.
use pmraccess.Base.{ℕ, ◌≡◌, Mem, store, load}

-- `write src local_offset dst remote_offset len` is the remote region after the write.
pub record Nic : Type 0 where
  pub write : Mem → ℕ → Mem → ℕ → ℕ → Mem
  -- The `len` bytes at the local offset arrive at the remote one, and nothing else changes.
  pub write_lem :
      (src : Mem) (local_offset : ℕ) (dst : Mem) (remote_offset len : ℕ)
      → write src local_offset dst remote_offset len
        ≡ store dst remote_offset (load src local_offset len)
