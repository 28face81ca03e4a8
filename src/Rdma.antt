-- ===== src/Rdma.antt =====
-- rdmautil/: the queue pair that a client and a clerk share.
pub mod Nic
pub mod Context
pub mod Post
pub mod Connect
pub mod Peers
pub mod Device
pub mod Accept
pub mod Release
pub mod Statuses
