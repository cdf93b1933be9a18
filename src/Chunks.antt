-- ===== src/Chunks.antt =====
-- internal/chunk.go: the chunks, the DataNodes that store them, and the queue of chunks that
-- lack a replica.
pub mod Plan
use tinydfs_master.Base.{
  ℕ, ◌+◌, Bool, false, Option, none, some, List, [], ◌∷◌, ◌==◌, nat_eq, nat_list_eq, ltb,
  if◌then◌else◌, get_elem?, GoString, Result, ok, ◌>>=◌, deref,
}
use tinydfs_master.Base.GoMap
use tinydfs_master.Base.GoMap.{GoMap}
use tinydfs_master.External.{Common, StringSet, StringQueue}
use tinydfs_master.State.{Chunk, ChunkSendInfo, ChunkTaskResult, HeartbeatOperation, Master}

abbrev pub ChunksMap : Type 0 → Type 0
ChunksMap S = GoMap GoString (Chunk S)

module _ {S : Type 0} where
  unfoldable pub add_chunk : Chunk S → ChunksMap S → ChunksMap S
  add_chunk chunk m = GoMap.insert chunk.id chunk m

  unfoldable pub batch_add_chunk : List (Chunk S) → ChunksMap S → ChunksMap S
  batch_add_chunk [] m = m
  batch_add_chunk (chunk ∷ chunks) m = batch_add_chunk chunks (GoMap.insert chunk.id chunk m)

  unfoldable pub get_chunk : GoString → ChunksMap S → Option (Chunk S)
  get_chunk id m = GoMap.lookup id m

module _ {Q : Type 0} ⦃q : StringQueue Q⦄ where
  unfoldable pub push_all : Q → List GoString → Q
  push_all queue [] = queue
  push_all queue (id ∷ ids) = push_all (q.push queue id) ids

  -- `for i := 0; i < len(fails); i++ { pendingChunkQueue.Push(id) }`
  unfoldable pub push_for_each : Q → GoString → List GoString → Q
  push_for_each queue id [] = queue
  push_for_each queue id (_ ∷ fails) = push_for_each (q.push queue id) id fails

module _ {S : Type 0} ⦃s : StringSet S⦄ where
  unfoldable pub remove_data_node : GoString → Chunk S → Chunk S
  remove_data_node id chunk = record chunk { data_nodes = s.remove chunk.data_nodes id }

  unfoldable pub add_data_node : GoString → Chunk S → Chunk S
  add_data_node id chunk = record chunk { data_nodes = s.add chunk.data_nodes id }

  unfoldable pub add_pending : GoString → Chunk S → Chunk S
  add_pending id chunk = record chunk { pending_data_nodes = s.add chunk.pending_data_nodes id }

  unfoldable pub remove_pending : GoString → Chunk S → Chunk S
  remove_pending id chunk = record chunk {
    pending_data_nodes = s.remove chunk.pending_data_nodes id;
  }

  unfoldable pub clear_pending : Chunk S → Chunk S
  clear_pending chunk = record chunk { pending_data_nodes = s.new_set }

  unfoldable pub batch_clear_data_node : List GoString → GoString → ChunksMap S → ChunksMap S
  unfolding remove_data_node
  batch_clear_data_node [] data_node_id m = m
  batch_clear_data_node (id ∷ ids) data_node_id m =
      batch_clear_data_node ids data_node_id (GoMap.modify id (remove_data_node data_node_id) m)

  unfoldable pub add_data_nodes : List GoString → Chunk S → Chunk S
  unfolding add_data_node
  add_data_nodes [] chunk = chunk
  add_data_nodes (id ∷ ids) chunk = add_data_nodes ids (add_data_node id chunk)

module _ {S Q : Type 0} ⦃s : StringSet S⦄ ⦃q : StringQueue Q⦄ where
  -- One round of the loop of BatchClearPendingDataNodes.
  unfoldable pub clear_pending_data_nodes : GoString → Master S Q → Master S Q
  unfolding clear_pending
  clear_pending_data_nodes id m = elim (GoMap.lookup id m.chunks_map) [
    | none ↦ m
    | some chunk ↦ record m {
      chunks_map = GoMap.insert id (clear_pending chunk) m.chunks_map;
      pending_chunk_queue = q.push m.pending_chunk_queue id;
    }
  ]

  unfoldable pub batch_clear_pending_data_nodes : List GoString → Master S Q → Master S Q
  unfolding clear_pending_data_nodes
  batch_clear_pending_data_nodes [] m = m
  batch_clear_pending_data_nodes (id ∷ ids) m =
      batch_clear_pending_data_nodes ids (clear_pending_data_nodes id m)

  -- One round of the loop of BatchUpdatePendingDataNodes.
  unfoldable pub update_pending_data_nodes : ChunkTaskResult → Master S Q → Master S Q
  unfolding add_data_nodes clear_pending push_for_each
  update_pending_data_nodes info m = elim (GoMap.lookup info.chunk_id m.chunks_map) [
    | none ↦ m
    | some chunk ↦ record m {
      chunks_map =
          GoMap.insert info.chunk_id (clear_pending (add_data_nodes info.success_data_nodes chunk))
            m.chunks_map;
      pending_chunk_queue = push_for_each m.pending_chunk_queue info.chunk_id info.fail_data_nodes;
    }
  ]

  unfoldable pub batch_update_pending_data_nodes : List ChunkTaskResult → Master S Q → Master S Q
  unfolding update_pending_data_nodes
  batch_update_pending_data_nodes [] m = m
  batch_update_pending_data_nodes (info ∷ infos) m =
      batch_update_pending_data_nodes infos (update_pending_data_nodes info m)

module _ {S : Type 0} ⦃c : Common⦄ ⦃s : StringSet S⦄ where
  -- The chunk still exists, and has fewer replicas, pending ones included, than it should.
  unfoldable pub lacks_replica : ChunksMap S → GoString → Bool
  lacks_replica m id = elim (GoMap.lookup id m) [
    | none ↦ false
    | some chunk ↦
        ltb (s.cardinality chunk.data_nodes + s.cardinality chunk.pending_data_nodes) c.replica_num
  ]

  unfoldable pub batch_filter_chunk : List GoString → ChunksMap S → List GoString
  unfolding lacks_replica
  batch_filter_chunk [] m = []
  batch_filter_chunk (id ∷ ids) m =
      let rest = batch_filter_chunk ids m in if lacks_replica m id then id ∷ rest else rest

  -- The loop of BatchApplyPlan2Chunk from position `i` of the plan. An index out of range and an
  -- unknown chunk are panics.
  unfoldable pub apply_plan2_chunk_from :
      ℕ → List ℕ → List GoString → List GoString → ChunksMap S → Result (ChunksMap S)
  unfolding add_pending
  apply_plan2_chunk_from i [] chunk_ids data_node_ids m = ok m
  apply_plan2_chunk_from i (dn_index ∷ plan) chunk_ids data_node_ids m = do
    chunk_id ← deref (get_elem? chunk_ids i)
    chunk ← deref (GoMap.lookup chunk_id m)
    data_node_id ← deref (get_elem? data_node_ids dn_index)
    apply_plan2_chunk_from (i + 1) plan chunk_ids data_node_ids
        (GoMap.insert chunk_id (add_pending data_node_id chunk) m)

  unfoldable pub batch_apply_plan2_chunk :
      List ℕ → List GoString → List GoString → ChunksMap S → Result (ChunksMap S)
  unfolding apply_plan2_chunk_from
  batch_apply_plan2_chunk plan chunk_ids data_node_ids m =
      apply_plan2_chunk_from 0 plan chunk_ids data_node_ids m

  -- The rounds of the three loops of UpdateChunk4Heartbeat.
  unfoldable pub receive : GoString → ChunkSendInfo → Chunk S → Chunk S
  unfolding remove_pending add_data_node remove_data_node
  receive sender info chunk =
      let stored = add_data_node info.data_node_id (remove_pending info.data_node_id chunk) in
      if info.send_type == c.move_send_type then remove_data_node sender stored else stored

  unfoldable pub chunk_sent : GoString → ChunkSendInfo → ChunksMap S → ChunksMap S
  unfolding receive
  chunk_sent sender info m = GoMap.modify info.chunk_id (receive sender info) m

  unfoldable pub chunks_sent : GoString → List ChunkSendInfo → ChunksMap S → ChunksMap S
  unfolding chunk_sent
  chunks_sent sender [] m = m
  chunks_sent sender (info ∷ infos) m = chunks_sent sender infos (chunk_sent sender info m)

module _ {S : Type 0} ⦃s : StringSet S⦄ where
  unfoldable pub chunks_not_sent : List ChunkSendInfo → ChunksMap S → ChunksMap S
  unfolding remove_pending
  chunks_not_sent [] m = m
  chunks_not_sent (info ∷ infos) m =
      chunks_not_sent infos (GoMap.modify info.chunk_id (remove_pending info.data_node_id) m)

module _ {S Q : Type 0} ⦃s : StringSet S⦄ ⦃q : StringQueue Q⦄ where
  unfoldable pub drop_invalid_chunk : GoString → GoString → Master S Q → Master S Q
  unfolding remove_data_node
  drop_invalid_chunk data_node_id id m = elim (GoMap.lookup id m.chunks_map) [
    | none ↦ m
    | some chunk ↦ record m {
      chunks_map = GoMap.insert id (remove_data_node data_node_id chunk) m.chunks_map;
      pending_chunk_queue = q.push m.pending_chunk_queue id;
    }
  ]

  unfoldable pub drop_invalid_chunks : GoString → List GoString → Master S Q → Master S Q
  unfolding drop_invalid_chunk
  drop_invalid_chunks data_node_id [] m = m
  drop_invalid_chunks data_node_id (id ∷ ids) m =
      drop_invalid_chunks data_node_id ids (drop_invalid_chunk data_node_id id m)

module _ {S Q : Type 0} ⦃c : Common⦄ ⦃s : StringSet S⦄ ⦃q : StringQueue Q⦄ where
  unfoldable pub update_chunk4_heartbeat : HeartbeatOperation → Master S Q → Master S Q
  unfolding chunks_sent chunks_not_sent drop_invalid_chunks
  update_chunk4_heartbeat o m = drop_invalid_chunks o.data_node_id o.invalid_chunks (record m {
    chunks_map =
        chunks_not_sent o.fail_infos (chunks_sent o.data_node_id o.success_infos m.chunks_map);
  })

  -- A batch is what is queued, up to the threshold.
  unfoldable pub get_pending_chunks : Master S Q → List GoString
  get_pending_chunks m =
      let max_count = c.chunk_dead_chunk_copy_threshold in
      let copy_count =
        if ltb max_count (q.len m.pending_chunk_queue)
        then max_count
        else q.len m.pending_chunk_queue in
      q.batch_top m.pending_chunk_queue copy_count
