-- ===== src/Snapshot.antt =====
-- The snapshots of internal/chunk.go, internal/datanode.go and internal/namespace.go: what they write, and what they make
-- of the lines that a scanner reads.
pub mod Text
pub mod Digits
pub mod Chunks
pub mod DataNodes
pub mod Shared
pub mod Broken
pub mod Tree
pub mod Lines
pub mod Build
pub mod Queue
pub mod Fsm
