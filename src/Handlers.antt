-- ===== src/Handlers.antt =====
-- internal/master_handler.go: the calls that clients and DataNodes make. Each proposes an
-- operation to raft and makes a reply of the response, or an error of what failed.
pub mod Rpc
pub mod Nodes
pub mod Replies
pub mod Files
pub mod Kept
pub mod Steps
pub mod Acknowledged
