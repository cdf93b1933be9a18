-- ===== src/Batch/Plans.antt =====
-- What BatchAllocateChunks of internal/chunk.go proposes can be applied.
use tinydfs_master.Base.{
  ℕ, ◌≡◌, ◌≤◌, refl, subst, ◌∙◌, not, List, ◌∷◌, map, nat_eq, nat_list_eq, length, length-map, drop,
  length-take, ltb, GoString, ok, arith, Bool-cases, inl, inr,
}
use tinydfs_master.External.{Common, StringSet, StringQueue}
use tinydfs_master.State.{Master}
use tinydfs_master.Chunks.{batch_filter_chunk, get_pending_chunks}
use tinydfs_master.Chunks.Plan.{Row, get_store_state, allocate_chunks_dfs}
use tinydfs_master.Chunks.Plan.Bounds.{allocate_chunks_dfs-Fits}
use tinydfs_master.Chunks.Plan.Applied.{batch_apply_plan2_chunk-returns}
use tinydfs_master.DataNodes.Selection.{get_alive_data_node_ids, batch_apply_plan2_data_node}
use tinydfs_master.Operations.{AllocateChunksOperation}
use tinydfs_master.Operations.Apply.{apply_allocate_plan}
use tinydfs_master.Batch.{invert, plan_batch}
use tinydfs_master.Batch.Rows.{get_store_state-returns, batch_filter_chunk-AllKnown}
use tinydfs_master.Batch.Senders.{AllConnected, get_alive-AllConnected, apply_senders-returns}

module _ {S Q : Type 0} ⦃c : Common⦄ ⦃s : StringSet S⦄ ⦃q : StringQueue Q⦄ where
  get_pending_chunks-le :
      (m : Master S Q) → length (get_pending_chunks m) ≤ length (q.contents m.pending_chunk_queue)
  unfolding get_pending_chunks
  get_pending_chunks-le m =
      let all = q.len-contents m.pending_chunk_queue in
      let max_count = c.chunk_dead_chunk_copy_threshold in
      elim (Bool-cases (ltb max_count (q.len m.pending_chunk_queue))) [
        | inl more ↦
            let le : max_count ≤ length (q.contents m.pending_chunk_queue) =
              ground (arith, more, all) in
            rw
              (
                more,
                get_pending_chunks,
                q.batch_top-take m.pending_chunk_queue max_count le,
                length-take max_count (q.contents m.pending_chunk_queue) le,
              )
              le
        | inr fewer ↦
            let le : q.len m.pending_chunk_queue ≤ length (q.contents m.pending_chunk_queue) =
              omega (arith, all) in
            rw
              (
                fewer,
                get_pending_chunks,
                q.batch_top-take m.pending_chunk_queue (q.len m.pending_chunk_queue) le,
                length-take (q.len m.pending_chunk_queue) (q.contents m.pending_chunk_queue) le,
              )
              le
      ]

  plan_batch-ok :
      (m : Master S Q) (nodes : List GoString) (is_store : List Row) (receivers senders : List ℕ)
      → get_alive_data_node_ids m.data_node_map ≡ nodes
      → get_store_state (batch_filter_chunk (get_pending_chunks m) m.chunks_map) nodes m.chunks_map
        ≡ ok is_store
      → allocate_chunks_dfs (length nodes) is_store ≡ ok receivers
      → allocate_chunks_dfs (length nodes) (invert is_store) ≡ ok senders
      → plan_batch m
        ≡ ok (record {
          sender_plan = senders;
          receiver_plan = receivers;
          chunk_ids = batch_filter_chunk (get_pending_chunks m) m.chunks_map;
          data_node_ids = nodes;
          batch_len = length (get_pending_chunks m);
        })
  unfolding plan_batch
  plan_batch-ok m nodes is_store receivers senders alive stored e e' =
      rw (plan_batch, alive, stored, e, e') refl

  -- With a DataNode that is alive, BatchAllocateChunks makes an operation, which the metadata it
  -- was made from accepts: Apply returns, and the batch has left the queue.
  pub plan_batch-applies :
      (m : Master S Q) (first : GoString) (rest : List GoString)
      → get_alive_data_node_ids m.data_node_map ≡ first ∷ rest
      → (o : AllocateChunksOperation) × (m' : Master S Q) × (plan_batch m ≡ ok o)
        × (apply_allocate_plan o m ≡ ok m')
        × (q.contents m'.pending_chunk_queue
            ≡ drop (length (get_pending_chunks m)) (q.contents m.pending_chunk_queue))
  unfolding plan_batch apply_allocate_plan invert batch_apply_plan2_data_node
  plan_batch-applies m first rest some_alive =
      let batch = get_pending_chunks m in
      let ids = batch_filter_chunk batch m.chunks_map in
      let (is_store, stored, same) =
        get_store_state-returns ids first rest m.chunks_map
          (batch_filter_chunk-AllKnown batch m.chunks_map) in
      let (receivers, e, fits) = allocate_chunks_dfs-Fits (length rest) is_store in
      let (senders, e', fits') = allocate_chunks_dfs-Fits (length rest) (invert is_store) in
      let o : AllocateChunksOperation = record {
        sender_plan = senders;
        receiver_plan = receivers;
        chunk_ids = ids;
        data_node_ids = first ∷ rest;
        batch_len = length batch;
      } in
      let inverted = length-map (map not) is_store ∙ same in
      let (chunks_map, on_chunks) =
        batch_apply_plan2_chunk-returns receivers ids (first ∷ rest) m.chunks_map (fits.0 ∙ same)
          fits.1 (batch_filter_chunk-AllKnown batch m.chunks_map) in
      let connected : AllConnected (first ∷ rest) m.data_node_map =
        subst (λ nodes. AllConnected nodes m.data_node_map) some_alive
          (get_alive-AllConnected m.data_node_map) in
      let (data_node_map, on_nodes) =
        apply_senders-returns 0 receivers senders ids (first ∷ rest) m.data_node_map
          (omega (arith, fits'.0, inverted)) (fits.0 ∙ same) fits.1 fits'.1 connected in
      let m' : Master S Q = record m {
        chunks_map = chunks_map;
        data_node_map = data_node_map;
        pending_chunk_queue = q.batch_pop m.pending_chunk_queue (length batch);
      } in
      (
        o,
        m',
        plan_batch-ok m (first ∷ rest) is_store receivers senders some_alive stored e e',
        rw (apply_allocate_plan, on_chunks, on_nodes) refl,
        q.contents-batch_pop m.pending_chunk_queue (length batch) (get_pending_chunks-le m),
      )
