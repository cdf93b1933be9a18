-- ===== src/Batch.antt =====
-- internal/chunk.go: BatchAllocateChunks, which plans the missing replicas of a batch of chunks
-- and proposes the plan.
pub mod Rows
pub mod Senders
pub mod Plans
use tinydfs_master.Base.{
  ℕ, Bool, not, List, [], ◌∷◌, map, ◌==◌, nat_eq, if◌then◌else◌, length, GoString, Result, ok, err,
  panic, ◌>>=◌,
}
use tinydfs_master.External.{Common, StringSet, StringQueue}
use tinydfs_master.State.{Master}
use tinydfs_master.Chunks.{batch_filter_chunk, get_pending_chunks}
use tinydfs_master.Chunks.Plan.{Row, get_store_state, allocate_chunks_dfs}
use tinydfs_master.DataNodes.Selection.{get_alive_data_node_ids}
use tinydfs_master.Operations.{Operation, AllocateChunksOperation}
use tinydfs_master.Raft.{Raft}

-- `isStore[i][j] = !isStore[i][j]`; the rows are of one length.
unfoldable pub invert : List Row → List Row
invert = map (map not)

module _ {S Q : Type 0} ⦃c : Common⦄ ⦃s : StringSet S⦄ ⦃q : StringQueue Q⦄ where
  -- What BatchAllocateChunks proposes: the receiver of a chunk does not store it yet, the sender
  -- does.
  unfoldable pub plan_batch : Master S Q → Result AllocateChunksOperation
  unfolding get_pending_chunks batch_filter_chunk get_alive_data_node_ids get_store_state invert
      allocate_chunks_dfs
  plan_batch m = do
    let batch_chunk_ids = get_pending_chunks m
    let chunk_ids = batch_filter_chunk batch_chunk_ids m.chunks_map
    let data_node_ids = get_alive_data_node_ids m.data_node_map
    is_store ← get_store_state chunk_ids data_node_ids m.chunks_map
    receiver_plan ← allocate_chunks_dfs (length data_node_ids) is_store
    sender_plan ← allocate_chunks_dfs (length data_node_ids) (invert is_store)
    ok (record {
      sender_plan = sender_plan;
      receiver_plan = receiver_plan;
      chunk_ids = chunk_ids;
      data_node_ids = data_node_ids;
      batch_len = length batch_chunk_ids;
    })

  -- The error of the future is logged only.
  unfoldable pub batch_allocate_chunks : Raft S Q → Master S Q → Result (Master S Q)
  unfolding plan_batch
  batch_allocate_chunks raft m =
      let work : Result (Master S Q) = (do
        o ← plan_batch m
        (m', _) ← raft.propose (Operation.allocate_chunks o) m
        ok m') in
      if q.len m.pending_chunk_queue == 0 then ok m else work
