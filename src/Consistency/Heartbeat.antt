-- ===== src/Consistency/Heartbeat.antt =====
-- A heartbeat keeps the two views consistent: HeartbeatOperation.Apply of internal/operation.go.
use tinydfs_master.Base.{
  ok, err, data_node_not_exist, ℕ, ◌≡◌, refl, sym, ap, ◌∙◌, ◌⊎◌, false, none, List, [], ◌∷◌, nat_eq,
  nat_list_eq, GoString, arith, Option-cases, inl, inr, Bool-cases, subst,
}
use tinydfs_master.Base.GoMap
use tinydfs_master.Base.GoMap.{lookup, lookup-modify}
use tinydfs_master.External.{Common, StringSet, StringQueue}
use tinydfs_master.State.{ChunkSendInfo, DataNode, HeartbeatOperation, Master}
use tinydfs_master.Chunks.{
  ChunksMap, receive, chunk_sent, chunks_sent, chunks_not_sent, update_chunk4_heartbeat,
  drop_invalid_chunks,
}
use tinydfs_master.DataNodes.{
  DataNodeMap, plan_of, next_chunk_infos, requeue_failed, leaves_sender, report, inform,
  unplan_sends, drop_chunks, node_sent, nodes_sent, update_data_node4_heartbeat,
}
use tinydfs_master.Operations.{Reply}
use tinydfs_master.Operations.Apply.{apply_heartbeat}
use tinydfs_master.Consistency.{counts, counts_in, lacks, AreConsistent, IsConsistent}
use tinydfs_master.Consistency.OfChunks.{
  counts-chunk_sent, counts-chunks_not_sent, counts-drop_invalid_chunks, data_node_map-drop_invalid,
}
use tinydfs_master.Consistency.OfNodes.{
  lacks-modify_same, lacks-modify_drop, chunks-unplan_sends, lacks-node_sent,
}

module _ {S : Type 0} ⦃c : Common⦄ ⦃s : StringSet S⦄ where
  -- A chunk that a DataNode reports as deleted is unknown by then.
  abbrev pub DeletesForgotten : List ChunkSendInfo → ChunksMap S → Type 0
  DeletesForgotten [] cm = Unit {0}
  DeletesForgotten (info ∷ infos) cm =
      (info.send_type ≡ c.delete_send_type → lookup info.chunk_id cm ≡ none)
      × DeletesForgotten infos cm

  lookup-chunk_sent :
      (sender : GoString) (info : ChunkSendInfo) (k : GoString) (cm : ChunksMap S)
      → lookup k cm ≡ none
      → lookup k (chunk_sent sender info cm) ≡ none
  unfolding chunk_sent
  lookup-chunk_sent sender info k cm absent =
      ground (arith, absent, lookup-modify k info.chunk_id (receive {S = S} sender info) cm)

  DeletesForgotten-chunk_sent :
      (sender : GoString) (info : ChunkSendInfo) (infos : List ChunkSendInfo) (cm : ChunksMap S)
      → DeletesForgotten infos cm
      → DeletesForgotten infos (chunk_sent sender info cm)
  DeletesForgotten-chunk_sent sender info [] cm d = tt
  DeletesForgotten-chunk_sent sender info (other ∷ infos) cm (d, ds) = (
    λ deleted. lookup-chunk_sent sender info other.chunk_id cm (d deleted),
    DeletesForgotten-chunk_sent sender info infos cm ds,
  )

  sent-AreConsistent :
      (sender : GoString) (info : ChunkSendInfo) (cm : ChunksMap S) (dm : DataNodeMap S)
      → (info.send_type ≡ c.delete_send_type → lookup info.chunk_id cm ≡ none)
      → AreConsistent cm dm
      → AreConsistent (chunk_sent sender info cm) (node_sent sender info dm)
  unfolding leaves_sender
  sent-AreConsistent sender info cm dm forgotten agree k n counted =
      elim (Bool-cases (lacks (node_sent sender info dm) n k)) [
        | inr stored ↦ stored
        | inl lacking ↦
            let by_chunk = counts-chunk_sent sender info cm k n counted in
            let by_node = lacks-node_sent sender info dm n k lacking in
            let gone : info.send_type ≡ c.delete_send_type
                → counts (chunk_sent sender info cm) info.chunk_id n ≡ false =
              λ deleted.
                ap (λ o. counts_in o n)
                  (lookup-chunk_sent sender info info.chunk_id cm (forgotten deleted)) in
            ground (arith, by_chunk, by_node, agree k n, gone)
      ]

  sents-AreConsistent :
      (sender : GoString) (infos : List ChunkSendInfo) (cm : ChunksMap S) (dm : DataNodeMap S)
      → DeletesForgotten infos cm
      → AreConsistent cm dm
      → AreConsistent (chunks_sent sender infos cm) (nodes_sent sender infos dm)
  unfolding chunks_sent nodes_sent
  sents-AreConsistent sender [] cm dm forgotten agree = agree
  sents-AreConsistent sender (info ∷ infos) cm dm (forgotten, rest) agree =
      sents-AreConsistent sender infos (chunk_sent sender info cm) (node_sent sender info dm)
        (DeletesForgotten-chunk_sent sender info infos cm rest)
        (sent-AreConsistent sender info cm dm forgotten agree)

  -- A change of one DataNode that leaves its chunks alone keeps the views consistent.
  pub modify-AreConsistent :
      (cm : ChunksMap S) (dm : DataNodeMap S) (i : GoString) (f : DataNode S → DataNode S)
      → ((node : DataNode S) → (f node).chunks ≡ node.chunks)
      → AreConsistent cm dm
      → AreConsistent cm (GoMap.modify i f dm)
  modify-AreConsistent cm dm i f same agree k n counted =
      lacks-modify_same dm i f n k same ∙ agree k n counted

  not_sent-AreConsistent :
      (infos : List ChunkSendInfo) (cm : ChunksMap S) (dm : DataNodeMap S)
      → AreConsistent cm dm
      → AreConsistent (chunks_not_sent infos cm) dm
  not_sent-AreConsistent infos cm dm agree k n counted =
      agree k n (sym (counts-chunks_not_sent infos cm k n) ∙ counted)

  -- The nodes that a heartbeat leaves, and what it tells.
  abbrev nodes_reported : HeartbeatOperation → ℕ → DataNodeMap S → DataNodeMap S
  nodes_reported o now dm = GoMap.modify o.data_node_id (drop_chunks o.invalid_chunks) (
      GoMap.modify o.data_node_id (unplan_sends o.fail_infos)
        (nodes_sent o.data_node_id o.success_infos (GoMap.modify o.data_node_id (report o now) dm)))

  abbrev nodes_after : HeartbeatOperation → ℕ → DataNodeMap S → DataNodeMap S
  nodes_after o now dm = GoMap.modify o.data_node_id inform (nodes_reported o now dm)

  abbrev informed : HeartbeatOperation → ℕ → DataNodeMap S → List ChunkSendInfo
  informed o now dm = next_chunk_infos (plan_of (lookup o.data_node_id (nodes_reported o now dm)))

module _ {S Q : Type 0} ⦃c : Common⦄ ⦃s : StringSet S⦄ ⦃q : StringQueue Q⦄ where
  -- The invalid chunks leave both views.
  drop-AreConsistent :
      (id : GoString) (ids : List GoString) (m : Master S Q) (dm : DataNodeMap S)
      → AreConsistent m.chunks_map dm
      → AreConsistent
          (drop_invalid_chunks id ids m).chunks_map
          (GoMap.modify id (drop_chunks ids) dm)
  drop-AreConsistent id ids m dm agree k n counted =
      elim (Bool-cases (lacks (GoMap.modify id (drop_chunks ids) dm) n k)) [
        | inr stored ↦ stored
        | inl lacking ↦
            let by_chunk = counts-drop_invalid_chunks id ids m k n in
            let by_node = lacks-modify_drop dm id ids n k lacking in
            ground (arith, counted, by_chunk, by_node, agree k n)
      ]

  heartbeat_maps-AreConsistent :
      (o : HeartbeatOperation) (now : ℕ) (m m' : Master S Q)
      → m'.chunks_map ≡ m.chunks_map
      → DeletesForgotten o.success_infos m.chunks_map
      → IsConsistent m
      → AreConsistent (update_chunk4_heartbeat o m').chunks_map (nodes_after o now m.data_node_map)
  unfolding update_chunk4_heartbeat report inform
  heartbeat_maps-AreConsistent o now m m' same forgotten agree =
      let id = o.data_node_id in
      let dm₁ = GoMap.modify id (report o now) m.data_node_map in
      let dm₂ = nodes_sent id o.success_infos dm₁ in
      let dm₃ = GoMap.modify id (unplan_sends o.fail_infos) dm₂ in
      let cm₂ = chunks_sent id o.success_infos m'.chunks_map in
      let cm₃ = chunks_not_sent o.fail_infos cm₂ in
      let reported =
        modify-AreConsistent m'.chunks_map m.data_node_map id (report o now) (λ _. refl)
          (subst (λ cm. AreConsistent cm m.data_node_map) (sym same) agree) in
      let sent =
        sents-AreConsistent id o.success_infos m'.chunks_map dm₁
          (subst (DeletesForgotten o.success_infos) (sym same) forgotten) reported in
      let unplanned =
        modify-AreConsistent cm₂ dm₂ id (unplan_sends o.fail_infos)
          (chunks-unplan_sends o.fail_infos) sent in
      let not_sent = not_sent-AreConsistent o.fail_infos cm₂ dm₃ unplanned in
      let dropped =
        drop-AreConsistent id o.invalid_chunks (record m' { chunks_map = cm₃ }) dm₃ not_sent in
      modify-AreConsistent (update_chunk4_heartbeat o m').chunks_map
        (GoMap.modify id (drop_chunks o.invalid_chunks) dm₃) id inform (λ _. refl) dropped

  abbrev after_nodes : HeartbeatOperation → ℕ → Master S Q → Master S Q
  after_nodes o now m = record m {
    data_node_map = nodes_after o now m.data_node_map;
    pending_chunk_queue = requeue_failed o.fail_infos m.pending_chunk_queue;
  }

  after_heartbeat-IsConsistent :
      (o : HeartbeatOperation) (now : ℕ) (m : Master S Q)
      → DeletesForgotten o.success_infos m.chunks_map
      → IsConsistent m
      → IsConsistent (update_chunk4_heartbeat o (after_nodes o now m))
  unfolding update_chunk4_heartbeat
  after_heartbeat-IsConsistent o now m forgotten agree =
      let m' = update_chunk4_heartbeat o (after_nodes o now m) in
      let cm =
        chunks_not_sent o.fail_infos (chunks_sent o.data_node_id o.success_infos m.chunks_map) in
      subst (AreConsistent m'.chunks_map)
        (sym (
          data_node_map-drop_invalid o.data_node_id o.invalid_chunks
            (record (after_nodes o now m) { chunks_map = cm })))
        (heartbeat_maps-AreConsistent o now m (after_nodes o now m) refl forgotten agree)

  -- If a heartbeat reports as deleted only chunks that are unknown by then, and no chunk counts a
  -- connected DataNode that does not store it, then the heartbeat is refused, with the error for
  -- an unknown DataNode and from an unknown one, or it succeeds and this stays so.
  pub apply_heartbeat-IsConsistent :
      (o : HeartbeatOperation) (now : ℕ) (m : Master S Q)
      → DeletesForgotten o.success_infos m.chunks_map
      → IsConsistent m
      → ((lookup o.data_node_id m.data_node_map ≡ none)
          × (apply_heartbeat o now m ≡ err (data_node_not_exist o.data_node_id)))
        ⊎ ((m' : Master S Q) × (r : Reply) × (apply_heartbeat o now m ≡ ok (m', r))
            × IsConsistent m')
  unfolding apply_heartbeat
  apply_heartbeat-IsConsistent o now m forgotten agree =
      elim (Option-cases (lookup o.data_node_id m.data_node_map)) [
        | inl absent ↦ inl (absent, rw (absent, apply_heartbeat, update_data_node4_heartbeat) refl)
        | inr (node, present) ↦ inr (
          update_chunk4_heartbeat o (after_nodes o now m),
          Reply.send_infos (informed o now m.data_node_map),
          rw (present, apply_heartbeat, update_data_node4_heartbeat) refl,
          after_heartbeat-IsConsistent o now m forgotten agree,
        )
      ]
