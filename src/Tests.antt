-- ===== src/Tests.antt =====
-- The theorems at concrete inputs, and runs of the operations.
pub mod Trees
pub mod Changes
pub mod Clusters
pub mod Masters
pub mod Servers
pub mod Snapshots
