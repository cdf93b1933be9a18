-- ===== src/DataNodes.antt =====
-- internal/datanode.go: the DataNodes that are connected, the chunks that they store, and the
-- chunks that they are to send.
pub mod Selection
pub mod Degrade
pub mod Usage
pub mod Allocation
pub mod Informing
pub mod Sorted
pub mod Allocated
use tinydfs_master.Base.{
  ℕ, zero, suc, ◌+◌, ◌*◌, ◌/◌, ◌-◌, Bool, true, false, not, ◌&&◌, ◌||◌, Option, none, some, List,
  [], ◌∷◌, map, ◌==◌, nat_eq, nat_list_eq, ltb, if◌then◌else◌, length, get_elem?, GoString, Result,
  ok, err, panic, ◌>>=◌, deref,
}
use tinydfs_master.Base.GoMap
use tinydfs_master.Base.GoMap.{GoMap}
use tinydfs_master.External.{Common, StringSet, StringQueue}
use tinydfs_master.State.{
  Chunk, ChunkSendInfo, chunk_send_info_eq, ChunkTaskResult, DataNode, HeartbeatOperation, Master,
}
use tinydfs_master.Chunks.{push_all, batch_clear_data_node}

abbrev pub DataNodeMap : Type 0 → Type 0
DataNodeMap S = GoMap GoString (DataNode S)

abbrev pub SendPlan : Type 0
SendPlan = GoMap ChunkSendInfo ℕ

module _ {S : Type 0} where
  unfoldable pub add_data_node : DataNode S → DataNodeMap S → DataNodeMap S
  add_data_node node m = GoMap.insert node.id node m

  unfoldable pub get_data_node : GoString → DataNodeMap S → Option (DataNode S)
  get_data_node id m = GoMap.lookup id m

module _ {S : Type 0} ⦃s : StringSet S⦄ where
  unfoldable pub store_chunk : GoString → DataNode S → DataNode S
  store_chunk id node = record node { chunks = s.add node.chunks id }

  unfoldable pub drop_chunk : GoString → DataNode S → DataNode S
  drop_chunk id node = record node { chunks = s.remove node.chunks id }

  unfoldable pub drop_chunks : List GoString → DataNode S → DataNode S
  unfolding drop_chunk
  drop_chunks [] node = node
  drop_chunks (id ∷ ids) node = drop_chunks ids (drop_chunk id node)

module _ {S : Type 0} where
  unfoldable pub plan_send : ChunkSendInfo → ℕ → DataNode S → DataNode S
  plan_send info state node = record node {
    future_send_chunks = GoMap.insert info state node.future_send_chunks;
  }

  unfoldable pub unplan_send : ChunkSendInfo → DataNode S → DataNode S
  unplan_send info node = record node {
    future_send_chunks = GoMap.erase info node.future_send_chunks;
  }

module _ ⦃c : Common⦄ where
  -- The chunk leaves the DataNode that sends or deletes it.
  unfoldable pub leaves_sender : ChunkSendInfo → Bool
  leaves_sender info = info.send_type == c.move_send_type || info.send_type == c.delete_send_type

  -- The last loop of UpdateDataNode4Heartbeat: what the DataNode was not told yet.
  unfoldable pub next_chunk_infos : SendPlan → List ChunkSendInfo
  next_chunk_infos [] = []
  next_chunk_infos ((info, i) ∷ plan) =
      let rest = next_chunk_infos plan in if i == c.wait_to_send then rest else info ∷ rest

  unfoldable pub mark_informed : SendPlan → SendPlan
  mark_informed [] = []
  mark_informed ((info, i) ∷ plan) =
      (info, if i == c.wait_to_send then i else c.wait_to_send) ∷ mark_informed plan

module _ {S : Type 0} ⦃c : Common⦄ ⦃s : StringSet S⦄ where
  -- What a report of a sent chunk changes at the DataNode that reports.
  unfoldable pub send_done : ChunkSendInfo → DataNode S → DataNode S
  unfolding unplan_send drop_chunk leaves_sender
  send_done info node =
      let node' = unplan_send info node in
      if leaves_sender info then drop_chunk info.chunk_id node' else node'

  -- The rounds of the first loop of UpdateDataNode4Heartbeat; `sender` is the DataNode that
  -- reports.
  unfoldable pub node_sent : GoString → ChunkSendInfo → DataNodeMap S → DataNodeMap S
  unfolding send_done store_chunk
  node_sent sender info m =
      GoMap.modify info.data_node_id (store_chunk info.chunk_id)
        (GoMap.modify sender (send_done info) m)

  unfoldable pub nodes_sent : GoString → List ChunkSendInfo → DataNodeMap S → DataNodeMap S
  unfolding node_sent
  nodes_sent sender [] m = m
  nodes_sent sender (info ∷ infos) m = nodes_sent sender infos (node_sent sender info m)

module _ {Q : Type 0} ⦃c : Common⦄ ⦃q : StringQueue Q⦄ where
  -- A chunk whose copy failed is queued again.
  unfoldable pub requeue_failed : List ChunkSendInfo → Q → Q
  unfolding leaves_sender
  requeue_failed [] queue = queue
  requeue_failed (info ∷ infos) queue =
      requeue_failed infos (if leaves_sender info then queue else q.push queue info.chunk_id)

module _ {S : Type 0} where
  unfoldable pub unplan_sends : List ChunkSendInfo → DataNode S → DataNode S
  unfolding unplan_send
  unplan_sends [] node = node
  unplan_sends (info ∷ infos) node = unplan_sends infos (unplan_send info node)

module _ {S : Type 0} where
  abbrev pub plan_of : Option (DataNode S) → SendPlan
  plan_of none = []
  plan_of (some node) = node.future_send_chunks

module _ {S : Type 0} ⦃c : Common⦄ where
  -- The new values of the fields that a heartbeat reports; `now` is what time.Now() returns.
  unfoldable pub report : HeartbeatOperation → ℕ → DataNode S → DataNode S
  report o now node = record node {
    full_capacity = o.full_capacity;
    used_capacity = o.used_capacity;
    heartbeat_time = now;
    status = if o.is_ready then c.alive else node.status;
    io_load = o.io_load;
  }

  unfoldable pub inform : DataNode S → DataNode S
  unfolding mark_informed
  inform node = record node { future_send_chunks = mark_informed node.future_send_chunks }

module _ {S Q : Type 0} ⦃c : Common⦄ ⦃s : StringSet S⦄ ⦃q : StringQueue Q⦄ where
  unfoldable pub update_data_node4_heartbeat :
      HeartbeatOperation → ℕ → Master S Q → Option (Master S Q × List ChunkSendInfo)
  unfolding report nodes_sent unplan_sends drop_chunks next_chunk_infos inform requeue_failed
  update_data_node4_heartbeat o now m = elim (GoMap.lookup o.data_node_id m.data_node_map) [
    | none ↦ none
    | some _ ↦
        let m₁ = GoMap.modify o.data_node_id (report o now) m.data_node_map in
        let m₂ = nodes_sent o.data_node_id o.success_infos m₁ in
        let m₃ = GoMap.modify o.data_node_id (unplan_sends o.fail_infos) m₂ in
        let m₄ = GoMap.modify o.data_node_id (drop_chunks o.invalid_chunks) m₃ in
        let m₅ = GoMap.modify o.data_node_id inform m₄ in
        some (
          record m {
            data_node_map = m₅;
            pending_chunk_queue = requeue_failed o.fail_infos m.pending_chunk_queue;
          },
          next_chunk_infos (plan_of (GoMap.lookup o.data_node_id m₄)),
        )
  ]
