-- ===== src/DataNodes/Degrade.antt =====
-- internal/datanode.go: DegradeDataNode.
use tinydfs_master.Base.{ℕ, none, some, map, ◌==◌, nat_eq, nat_list_eq, if◌then◌else◌, GoString}
use tinydfs_master.Base.GoMap
use tinydfs_master.External.{Common, StringSet, StringQueue}
use tinydfs_master.State.{ChunkSendInfo, DataNode, Master}
use tinydfs_master.Chunks.{push_all, batch_clear_data_node}

module _ {S Q : Type 0} ⦃c : Common⦄ ⦃s : StringSet S⦄ ⦃q : StringQueue Q⦄ where
  -- The DataNode goes, its chunks and the chunks that it was to send are queued, and no chunk
  -- counts it as a replica.
  unfoldable pub remove_dead : GoString → DataNode S → Master S Q → Master S Q
  unfolding push_all batch_clear_data_node
  remove_dead id node m =
      let stored = s.to_slice node.chunks in
      record m {
        data_node_map = GoMap.erase id m.data_node_map;
        chunks_map = batch_clear_data_node stored id m.chunks_map;
        pending_chunk_queue =
            push_all (push_all m.pending_chunk_queue stored)
              (map (λ (info : ChunkSendInfo). info.chunk_id) (GoMap.keys node.future_send_chunks));
      }

  unfoldable pub degrade_data_node : GoString → ℕ → Master S Q → Master S Q
  unfolding remove_dead
  degrade_data_node id stage m = elim (GoMap.lookup id m.data_node_map) [
    | none ↦ m
    | some node ↦
        if stage == c.degrade2_waiting
        then record m {
          data_node_map = GoMap.insert id (record node { status = c.waiting }) m.data_node_map;
        }
        else remove_dead id node m
  ]
