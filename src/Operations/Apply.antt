-- ===== src/Operations/Apply.antt =====
-- internal/operation.go: the Apply methods, and MasterFSM.Apply of internal/fsm.go, which calls
-- the one of the operation. `now` is what time.Now() returns in the call and `id` is what
-- util.GenerateUUIDString returns. An error leaves the metadata as they were.
use tinydfs_master.Base.{
  ℕ, false, none, some, [], ◌∷◌, map, ◌==◌, nat_eq, if◌then◌else◌, length, GoString,
  data_node_not_exist, Result, ok, err, panic, ◌>>=◌, deref, or_fail,
}
use tinydfs_master.Base.Strings.{itoa}
use tinydfs_master.External.{Common, StringSet, StringQueue}
use tinydfs_master.Namespace.{
  DirTree, check_and_get_file_node, stat_file_node, add_file_node, move_file_node, remove_file_node,
  erase_file_node, rename_file_node, list_file_node,
}
use tinydfs_master.State.{DataNode, HeartbeatOperation, Master}
use tinydfs_master.Chunks.{
  get_chunk, batch_add_chunk, batch_clear_pending_data_nodes, batch_update_pending_data_nodes,
  batch_apply_plan2_chunk, update_chunk4_heartbeat,
}
use tinydfs_master.DataNodes.{add_data_node, update_data_node4_heartbeat}
use tinydfs_master.DataNodes.Selection.{
  get_sorted_data_node_ids, batch_add_chunks, batch_apply_plan2_data_node,
}
use tinydfs_master.DataNodes.Degrade.{degrade_data_node}
use tinydfs_master.DataNodes.Allocation.{batch_allocate_data_nodes}
use tinydfs_master.DataNodes.Usage.{count_storable}
use tinydfs_master.Checks.{check_chunks}
use tinydfs_master.Operations.{
  RegisterOperation, AddOperation, GetOperation, AllocateChunksOperation, ExpandOperation,
  Operation, Reply, registered, new_chunks, plan_all_moves, expect_replica, file_infos,
}

module _ {S Q : Type 0} where
  -- The tree that an operation leaves, and its node.
  abbrev pub with_tree : Master S Q → DirTree S × ℕ → Master S Q × Reply
  with_tree m (t, p) = (record m { tree = t }, Reply.file_node p)

module _ {S Q : Type 0} ⦃c : Common⦄ ⦃s : StringSet S⦄ ⦃q : StringQueue Q⦄ where
  unfoldable pub apply_register : RegisterOperation → ℕ → Master S Q → Master S Q × Reply
  unfolding registered add_data_node
  apply_register o now m = (
    record m { data_node_map = add_data_node (registered o now) m.data_node_map },
    Reply.data_node_id o.data_node_id,
  )

  unfoldable pub apply_heartbeat : HeartbeatOperation → ℕ → Master S Q → Result (Master S Q × Reply)
  unfolding update_data_node4_heartbeat update_chunk4_heartbeat
  apply_heartbeat o now m = do
    (m₁, infos) ← or_fail (update_data_node4_heartbeat o now m) (data_node_not_exist o.data_node_id)
    ok (update_chunk4_heartbeat o m₁, Reply.send_infos infos)

  -- Stage CheckArgs of an add.
  unfoldable pub apply_add_check :
      AddOperation → GoString → Master S Q → Result (Master S Q × Reply)
  apply_add_check o id m = do
    (t, p) ← add_file_node m.tree id o.path o.file_name o.size c.is_file4_add_file
    ok (record m { tree = t }, Reply.checked_args (t.heap p).id (length (t.heap p).chunks))

  -- Stage GetDataNodes of an add.
  unfoldable pub apply_add_allocate : AddOperation → Master S Q → Result (Master S Q × Reply)
  unfolding batch_allocate_data_nodes new_chunks batch_add_chunk
  apply_add_allocate o m = do
    nodes ← batch_allocate_data_nodes o.chunk_num m.data_node_map
    let chunks_map = batch_add_chunk (new_chunks o.file_node_id 0 nodes) m.chunks_map
    let placed =
        map
          (λ dns. (map (λ (dn : DataNode S). dn.id) dns, map (λ (dn : DataNode S). dn.address) dns))
          nodes
    ok (record m { chunks_map = chunks_map }, Reply.allocated placed)

  -- The failed chunks of an add are given up: the file is erased and the chunks are queued. What
  -- EraseFileNode returns is ignored, its panic is not.
  unfoldable pub give_up_failed : AddOperation → ℕ → Master S Q → Result (Master S Q)
  unfolding erase_file_node batch_clear_pending_data_nodes
  give_up_failed o now m = elim o.fail_chunk_ids [
    | none ↦ ok m
    | some ids ↦ elim (erase_file_node m.tree o.path now) [
      | ok r ↦ ok (batch_clear_pending_data_nodes ids (record m { tree = r.0 }))
      | err e ↦ ok (batch_clear_pending_data_nodes ids m)
      | panic ↦ panic
    ]
  ]

  -- Stage UnlockDic of an add.
  unfoldable pub apply_add_finish : AddOperation → ℕ → Master S Q → Result (Master S Q × Reply)
  unfolding give_up_failed batch_update_pending_data_nodes batch_add_chunks
  apply_add_finish o now m = do
    m₁ ← give_up_failed o now m
    let m₂ = batch_update_pending_data_nodes o.infos m₁
    ok (record m₂ { data_node_map = batch_add_chunks o.infos m₂.data_node_map }, Reply.nil)

  unfoldable pub apply_add : AddOperation → ℕ → GoString → Master S Q → Result (Master S Q × Reply)
  unfolding apply_add_check apply_add_allocate apply_add_finish
  apply_add o now id m =
      if o.stage == c.check_args
      then apply_add_check o id m
      else if o.stage == c.get_data_nodes
      then apply_add_allocate o m
      else if o.stage == c.unlock_dic
      then apply_add_finish o now m
      else ok (m, Reply.nil)

  unfoldable pub apply_get : GetOperation → Master S Q → Result (Master S Q × Reply)
  unfolding check_and_get_file_node get_chunk get_sorted_data_node_ids
  apply_get o m =
      if o.stage == c.check_args
      then (do p ← check_and_get_file_node m.tree o.path; ok (m, Reply.file_node p))
      else if o.stage == c.get_data_nodes
      then (do
        let chunk_id =
            c.combine_string
              (o.file_node_id ∷ (c.chunk_id_delimiter ∷ []) ∷ itoa o.chunk_index ∷ [])
        chunk ← deref (get_chunk chunk_id m.chunks_map)
        let found = get_sorted_data_node_ids chunk.data_nodes m.data_node_map
        ok (m, Reply.located found.0 found.1 o.chunk_index))
      else ok (m, Reply.nil)

  -- ApplyAllocatePlan.
  unfoldable pub apply_allocate_plan : AllocateChunksOperation → Master S Q → Result (Master S Q)
  unfolding batch_apply_plan2_chunk batch_apply_plan2_data_node
  apply_allocate_plan o m = do
    chunks_map ← batch_apply_plan2_chunk o.receiver_plan o.chunk_ids o.data_node_ids m.chunks_map
    data_node_map ←
        batch_apply_plan2_data_node o.receiver_plan o.sender_plan o.chunk_ids o.data_node_ids
          m.data_node_map
    let queue = q.batch_pop m.pending_chunk_queue o.batch_len
    ok (record m {
      chunks_map = chunks_map;
      data_node_map = data_node_map;
      pending_chunk_queue = queue;
    })

  unfoldable pub apply_expand : ExpandOperation → Master S Q → Result (Master S Q)
  unfolding plan_all_moves expect_replica
  apply_expand o m = do
    data_node_map ← plan_all_moves o.receiver_plan o.sender_plan m.data_node_map
    ok (record m {
      data_node_map = data_node_map;
      chunks_map = expect_replica o.receiver_plan o.chunk_ids m.chunks_map;
    })

  unfoldable pub apply : Operation → ℕ → GoString → Master S Q → Result (Master S Q × Reply)
  unfolding apply_register apply_heartbeat apply_add apply_get apply_allocate_plan apply_expand
  apply (Operation.register o) now id m = ok (apply_register o now m)
  apply (Operation.heartbeat o) now id m = apply_heartbeat o now m
  apply (Operation.add o) now id m = apply_add o now id m
  apply (Operation.get o) now id m = apply_get o m
  apply (Operation.mkdir path filename) now id m = do
    r ← add_file_node m.tree id path filename c.dir_size false
    ok (with_tree m r)
  apply (Operation.move source_path target_path) now id m = do
    r ← move_file_node m.tree source_path target_path
    ok (with_tree m r)
  apply (Operation.remove path) now id m = do
    r ← remove_file_node m.tree path now
    ok (with_tree m r)
  apply (Operation.list_files path) now id m = do
    nodes ← list_file_node m.tree path
    ok (m, Reply.files (file_infos m.tree nodes))
  apply (Operation.stat path) now id m = do
    p ← stat_file_node m.tree path
    ok (m, Reply.file_node p)
  apply (Operation.rename path new_name) now id m = do
    r ← rename_file_node m.tree path new_name
    ok (with_tree m r)
  apply (Operation.degrade data_node_id stage) now id m =
      ok (degrade_data_node data_node_id stage m, Reply.nil)
  apply (Operation.allocate_chunks o) now id m = do m' ← apply_allocate_plan o m; ok (m', Reply.nil)
  apply (Operation.expand o) now id m = do m' ← apply_expand o m; ok (m', Reply.nil)
  apply Operation.check_chunks_op now id m = ok (check_chunks m, Reply.nil)
  apply Operation.check_data_nodes now id m =
      ok (record m { storable_num = count_storable m.data_node_map }, Reply.nil)
