-- ===== src/State.antt =====
-- The metadata of the master, in the package variables of internal/chunk.go and
-- internal/datanode.go, and what the DataNodes report. The locks of the source make each
-- operation one step, so they are not part of the state.
use tinydfs_master.Base.{ℕ, Bool, List, Eq, GoString, nat_list_discrete, ℕ_discrete}
use tinydfs_master.Base.GoMap.{GoMap}
use tinydfs_master.Namespace.{DirTree}

-- chunk.go: type Chunk.
pub record Chunk (S : Type 0) : Type 0 where
  pub id : GoString
  pub data_nodes : S
  pub pending_data_nodes : S

-- datanode.go: type ChunkSendInfo.
pub record ChunkSendInfo : Type 0 where
  pub chunk_id : GoString
  pub data_node_id : GoString
  pub send_type : ℕ

unfoldable pub ChunkSendInfo-discrete : Discrete ChunkSendInfo
ChunkSendInfo-discrete = hlevel (nat_list_discrete, ℕ_discrete)

instance unfoldable pub chunk_send_info_eq : Eq ChunkSendInfo
chunk_send_info_eq = record { dec = ChunkSendInfo-discrete }

-- datanode.go: type DataNode. Times are nanoseconds.
pub record DataNode (S : Type 0) : Type 0 where
  pub id : GoString
  pub status : ℕ
  pub address : GoString
  pub chunks : S
  pub io_load : ℕ
  pub full_capacity : ℕ
  pub used_capacity : ℕ
  pub future_send_chunks : GoMap ChunkSendInfo ℕ
  pub heartbeat_time : ℕ

-- util.ChunkTaskResult: on which DataNodes a client has stored a chunk, and on which not.
pub record ChunkTaskResult : Type 0 where
  pub chunk_id : GoString
  pub success_data_nodes : List GoString
  pub fail_data_nodes : List GoString

-- operation.go: type HeartbeatOperation, without the fields that nothing reads.
pub record HeartbeatOperation : Type 0 where
  pub data_node_id : GoString
  pub io_load : ℕ
  pub full_capacity : ℕ
  pub used_capacity : ℕ
  pub success_infos : List ChunkSendInfo
  pub fail_infos : List ChunkSendInfo
  pub invalid_chunks : List GoString
  pub is_ready : Bool

-- The variables `root` and `fileNodeIdSet` (in the tree), `chunksMap`, `pendingChunkQueue`,
-- `dataNodeMap` and `StorableNum`.
pub record Master (S Q : Type 0) : Type 0 where
  pub tree : DirTree S
  pub chunks_map : GoMap GoString (Chunk S)
  pub pending_chunk_queue : Q
  pub data_node_map : GoMap GoString (DataNode S)
  pub storable_num : ℕ
