-- ===== src/Mpc.antt =====
-- crates/mpc-tls: the record layer that two parties run together.
pub mod Ops
pub mod Layer
pub mod Flush
pub mod Commit
pub mod Order
pub mod Messages
pub mod Utils
pub mod Follower
pub mod Leader
pub mod Joint
