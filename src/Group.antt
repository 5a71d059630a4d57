-- ===== src/Group.antt =====
-- crates/core/src/group.rs: the group ratchet over a tree of hybrid keys.
pub mod Index
pub mod Keys
pub mod Sealing
pub mod Messages
pub mod Resolution
pub mod State
pub mod Commits
pub mod Proposals
pub mod Records
pub mod Join
pub mod Paths
pub mod Cover
pub mod Invariant
pub mod Learning
pub mod Finding
pub mod Accepts
pub mod Shown
pub mod Epoch
pub mod Removal
pub mod Seals
pub mod Levels
pub mod Follow
pub mod Opening
pub mod Making
pub mod Installed
pub mod Keeping
pub mod Agreement
pub mod Sending
pub mod Following
pub mod Delivery
pub mod Converge
pub mod Encoding
pub mod CommitBytes
mod Tests
mod EncodingTests
