-- ===== src/DataNodes/Selection.antt =====
-- internal/datanode.go: which DataNodes serve a chunk, and which receive planned chunks.
use tinydfs_master.Base.{
  ℕ, ◌+◌, none, some, List, [], ◌∷◌, map, ◌==◌, nat_eq, nat_list_eq, ltb, if◌then◌else◌, get_elem?,
  GoString, Result, ok, ◌>>=◌, deref,
}
use tinydfs_master.Base.GoMap
use tinydfs_master.External.{Common, StringSet}
use tinydfs_master.State.{ChunkSendInfo, chunk_send_info_eq, ChunkTaskResult, DataNode}
use tinydfs_master.DataNodes.{DataNodeMap, plan_send, store_chunk}

module _ {S : Type 0} where
  -- `sort.SliceStable` by IOLoad: a node goes before the first that is at least as busy, since it
  -- stood before all of them.
  unfoldable pub insert_by_load : DataNode S → List (DataNode S) → List (DataNode S)
  insert_by_load node [] = node ∷ []
  insert_by_load node (other ∷ nodes) =
      if ltb other.io_load node.io_load
      then other ∷ insert_by_load node nodes
      else node ∷ other ∷ nodes

  unfoldable pub sort_by_load : List (DataNode S) → List (DataNode S)
  unfolding insert_by_load
  sort_by_load [] = []
  sort_by_load (node ∷ nodes) = insert_by_load node (sort_by_load nodes)

  unfoldable pub get_data_node_addresses : List ChunkSendInfo → DataNodeMap S → List GoString
  get_data_node_addresses [] m = []
  get_data_node_addresses (info ∷ infos) m =
      let rest = get_data_node_addresses infos m in
      elim (GoMap.lookup info.data_node_id m) [ none ↦ rest | some node ↦ node.address ∷ rest ]

module _ {S : Type 0} ⦃c : Common⦄ where
  -- The DataNodes among `ids` that are connected and alive.
  unfoldable pub alive_among : List GoString → DataNodeMap S → List (DataNode S)
  alive_among [] m = []
  alive_among (id ∷ ids) m =
      let rest = alive_among ids m in
      elim (GoMap.lookup id m) [
        | none ↦ rest
        | some node ↦ if node.status == c.alive then node ∷ rest else rest
      ]

  unfoldable pub get_sorted_data_nodes : List GoString → DataNodeMap S → List (DataNode S)
  unfolding alive_among sort_by_load
  get_sorted_data_nodes ids m = sort_by_load (alive_among ids m)

  unfoldable pub get_alive_data_node_ids : DataNodeMap S → List GoString
  get_alive_data_node_ids [] = []
  get_alive_data_node_ids ((id, node) ∷ m) =
      let rest = get_alive_data_node_ids m in if node.status == c.alive then id ∷ rest else rest

  -- The loop of BatchApplyPlan2DataNode from position `i` of the plan. An index out of range and
  -- an unknown DataNode are panics.
  unfoldable pub apply_plan2_data_node_from :
      ℕ → List ℕ → List ℕ → List GoString → List GoString → DataNodeMap S → Result (DataNodeMap S)
  unfolding plan_send
  apply_plan2_data_node_from i receiver_plan [] chunk_ids data_node_ids m = ok m
  apply_plan2_data_node_from i receiver_plan (dn_index ∷ sender_plan) chunk_ids data_node_ids m = do
    chunk_id ← deref (get_elem? chunk_ids i)
    receiver ← deref (get_elem? receiver_plan i)
    receiver_id ← deref (get_elem? data_node_ids receiver)
    sender_id ← deref (get_elem? data_node_ids dn_index)
    sender ← deref (GoMap.lookup sender_id m)
    let info : ChunkSendInfo = record {
      chunk_id = chunk_id;
      data_node_id = receiver_id;
      send_type = c.copy_send_type;
    }
    apply_plan2_data_node_from (i + 1) receiver_plan sender_plan chunk_ids data_node_ids
        (GoMap.insert sender_id (plan_send info c.wait_to_inform sender) m)

  unfoldable pub batch_apply_plan2_data_node :
      List ℕ → List ℕ → List GoString → List GoString → DataNodeMap S → Result (DataNodeMap S)
  unfolding apply_plan2_data_node_from
  batch_apply_plan2_data_node receiver_plan sender_plan chunk_ids data_node_ids m =
      apply_plan2_data_node_from 0 receiver_plan sender_plan chunk_ids data_node_ids m

module _ {S : Type 0} ⦃s : StringSet S⦄ where
  -- GetSortedDataNodeIds: the ids and the addresses.
  unfoldable pub get_sorted_data_node_ids :
      ⦃c : Common⦄ → S → DataNodeMap S → List GoString × List GoString
  unfolding get_sorted_data_nodes
  get_sorted_data_node_ids set m =
      let dns = get_sorted_data_nodes (s.to_slice set) m in
      (map (λ dn. dn.id) dns, map (λ dn. dn.address) dns)

  -- One DataNode after the other records the chunk.
  unfoldable pub store_on : GoString → List GoString → DataNodeMap S → DataNodeMap S
  unfolding store_chunk
  store_on chunk_id [] m = m
  store_on chunk_id (id ∷ ids) m = store_on chunk_id ids (GoMap.modify id (store_chunk chunk_id) m)

  unfoldable pub batch_add_chunks : List ChunkTaskResult → DataNodeMap S → DataNodeMap S
  unfolding store_on
  batch_add_chunks [] m = m
  batch_add_chunks (info ∷ infos) m =
      batch_add_chunks infos (store_on info.chunk_id info.success_data_nodes m)
