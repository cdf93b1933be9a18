-- ===== src/Operations.antt =====
-- internal/operation.go: the operations of the replicated log, and what Apply does with each.
-- internal/fsm.go: MasterFSM.Apply runs one of them on the metadata.
pub mod Apply
pub mod Consistency
pub mod SameTree
pub mod Trees
pub mod Listing
use tinydfs_master.Base.{
  ℕ, zero, suc, ◌+◌, Bool, true, false, Option, none, some, List, [], ◌∷◌, map, ◌==◌, nat_eq,
  nat_list_eq, if◌then◌else◌, length, GoString, Error, data_node_not_exist, Result, ok, err, panic,
  ◌>>=◌, deref,
}
use tinydfs_master.Base.Strings.{itoa}
use tinydfs_master.Base.GoMap
use tinydfs_master.Base.GoMap.{GoMap}
use tinydfs_master.External.{Common, StringSet, StringQueue, NodeQueue}
use tinydfs_master.Namespace.{
  FileNode, DirTree, check_and_get_file_node, stat_file_node, add_file_node, move_file_node,
  remove_file_node, erase_file_node, rename_file_node, list_file_node,
}
use tinydfs_master.State.{
  Chunk, ChunkSendInfo, chunk_send_info_eq, ChunkTaskResult, DataNode, HeartbeatOperation, Master,
}
use tinydfs_master.Chunks.{
  ChunksMap, get_chunk, batch_add_chunk, add_pending, batch_clear_pending_data_nodes,
  batch_update_pending_data_nodes, batch_apply_plan2_chunk, update_chunk4_heartbeat,
}
use tinydfs_master.DataNodes.{DataNodeMap, add_data_node, plan_send, update_data_node4_heartbeat}
use tinydfs_master.DataNodes.Selection.{
  get_sorted_data_node_ids, batch_add_chunks, batch_apply_plan2_data_node,
}
use tinydfs_master.DataNodes.Degrade.{degrade_data_node}
use tinydfs_master.DataNodes.Allocation.{batch_allocate_data_nodes}
use tinydfs_master.DataNodes.Usage.{count_storable}
use tinydfs_master.Checks.{check_chunks}

-- type RegisterOperation, and so on below, without the fields that nothing reads.
pub record RegisterOperation : Type 0 where
  pub address : GoString
  pub data_node_id : GoString
  pub chunk_ids : List GoString
  pub full_capacity : ℕ
  pub used_capacity : ℕ
  pub is_need_expand : Bool

pub record AddOperation : Type 0 where
  pub path : GoString
  pub file_name : GoString
  pub size : ℕ
  pub file_node_id : GoString
  pub chunk_num : ℕ
  pub infos : List ChunkTaskResult
  -- `none` is a nil slice.
  pub fail_chunk_ids : Option (List GoString)
  pub stage : ℕ

pub record GetOperation : Type 0 where
  pub path : GoString
  pub file_node_id : GoString
  pub chunk_index : ℕ
  pub stage : ℕ

pub record AllocateChunksOperation : Type 0 where
  pub sender_plan : List ℕ
  pub receiver_plan : List ℕ
  pub chunk_ids : List GoString
  pub data_node_ids : List GoString
  pub batch_len : ℕ

pub record ExpandOperation : Type 0 where
  pub sender_plan : GoMap GoString (List GoString)
  pub receiver_plan : GoString
  pub chunk_ids : List GoString

pub data Operation : Type 0 where
  register : RegisterOperation → Operation
  heartbeat : HeartbeatOperation → Operation
  add : AddOperation → Operation
  get : GetOperation → Operation
  mkdir : GoString → GoString → Operation
  move : GoString → GoString → Operation
  remove : GoString → Operation
  list_files : GoString → Operation
  stat : GoString → Operation
  rename : GoString → GoString → Operation
  degrade : GoString → ℕ → Operation
  allocate_chunks : AllocateChunksOperation → Operation
  expand : ExpandOperation → Operation
  check_chunks_op : Operation
  check_data_nodes : Operation

-- What Apply returns beside the error. A FileNode is returned as a pointer.
pub data Reply : Type 0 where
  nil : Reply
  data_node_id : GoString → Reply
  send_infos : List ChunkSendInfo → Reply
  file_node : ℕ → Reply
  checked_args : GoString → ℕ → Reply
  allocated : List (List GoString × List GoString) → Reply
  located : List GoString → List GoString → ℕ → Reply
  files : List (GoString × Bool) → Reply

module _ {S : Type 0} ⦃s : StringSet S⦄ where
  unfoldable pub set_of : List GoString → S → S
  set_of [] set = set
  set_of (id ∷ ids) set = set_of ids (s.add set id)

module _ {S : Type 0} ⦃c : Common⦄ ⦃s : StringSet S⦄ where
  -- The DataNode that RegisterOperation.Apply builds.
  unfoldable pub registered : RegisterOperation → ℕ → DataNode S
  unfolding set_of
  registered o now = record {
    id = o.data_node_id;
    status = if o.is_need_expand then c.cold else c.alive;
    address = o.address;
    chunks = set_of o.chunk_ids s.new_set;
    io_load = 0;
    full_capacity = o.full_capacity;
    used_capacity = o.used_capacity;
    future_send_chunks = [];
    heartbeat_time = now;
  }

  -- `util.CombineString(o.FileNodeId, common.ChunkIdDelimiter, strconv.Itoa(i))`
  unfoldable pub new_chunks : GoString → ℕ → List (List (DataNode S)) → List (Chunk S)
  unfolding set_of
  new_chunks file_node_id i [] = []
  new_chunks file_node_id i (nodes ∷ rest) =
      record {
        id = c.combine_string (file_node_id ∷ (c.chunk_id_delimiter ∷ []) ∷ itoa i ∷ []);
        data_nodes = s.new_set;
        pending_data_nodes = set_of (map (λ node. node.id) nodes) s.new_set;
      }
      ∷ new_chunks file_node_id (i + 1) rest

module _ {S : Type 0} ⦃c : Common⦄ where
  -- The loops of ExpandOperation.Apply over the DataNodes. An unknown one is a nil pointer, which
  -- is dereferenced if it has a chunk to send.
  unfoldable pub plan_moves :
      GoString → GoString → List GoString → DataNodeMap S → Result (DataNodeMap S)
  unfolding plan_send
  plan_moves receiver from [] m = ok m
  plan_moves receiver from (chunk_id ∷ chunk_ids) m = do
    node ← deref (GoMap.lookup from m)
    let info : ChunkSendInfo = record {
      chunk_id = chunk_id;
      data_node_id = receiver;
      send_type = c.move_send_type;
    }
    plan_moves receiver from chunk_ids (GoMap.insert from (plan_send info c.wait_to_inform node) m)

  unfoldable pub plan_all_moves :
      GoString → GoMap GoString (List GoString) → DataNodeMap S → Result (DataNodeMap S)
  unfolding plan_moves
  plan_all_moves receiver [] m = ok m
  plan_all_moves receiver ((from, chunk_ids) ∷ plan) m = do
    m' ← plan_moves receiver from chunk_ids m
    plan_all_moves receiver plan m'

module _ {S : Type 0} ⦃s : StringSet S⦄ where
  unfoldable pub expect_replica : GoString → List GoString → ChunksMap S → ChunksMap S
  unfolding add_pending
  expect_replica receiver [] m = m
  expect_replica receiver (id ∷ ids) m =
      expect_replica receiver ids (GoMap.modify id (add_pending receiver) m)

  unfoldable pub file_infos : DirTree S → List ℕ → List (GoString × Bool)
  file_infos t nodes = map (λ p. ((t.heap p).file_name, (t.heap p).is_file)) nodes
