-- ===== src/Operations/SameTree.antt =====
-- What the helpers of the operations of internal/operation.go leave of the tree: all of it.
use tinydfs_master.Base.{
  ℕ, ◌≡◌, refl, sym, ◌∙◌, inl, inr, List, [], ◌∷◌, nat_eq, nat_list_eq, ap, GoString, arith, ok,
  ok-injective, some-injective, some, after_bind, Option-cases,
}
use tinydfs_master.Base.GoMap
use tinydfs_master.External.{Common, StringSet, StringQueue}
use tinydfs_master.State.{ChunkSendInfo, ChunkTaskResult, HeartbeatOperation, Master}
use tinydfs_master.Chunks.{
  batch_apply_plan2_chunk, clear_pending_data_nodes, batch_clear_pending_data_nodes,
  update_pending_data_nodes, batch_update_pending_data_nodes, drop_invalid_chunk,
  drop_invalid_chunks, update_chunk4_heartbeat,
}
use tinydfs_master.DataNodes.{update_data_node4_heartbeat}
use tinydfs_master.DataNodes.Selection.{batch_apply_plan2_data_node}
use tinydfs_master.DataNodes.Degrade.{remove_dead, degrade_data_node}
use tinydfs_master.Operations.{AllocateChunksOperation, ExpandOperation, plan_all_moves}
use tinydfs_master.Operations.Apply.{apply_allocate_plan, apply_expand}

module _ {S Q : Type 0} ⦃c : Common⦄ ⦃s : StringSet S⦄ ⦃q : StringQueue Q⦄ where
  pub tree-clear_pending :
      (ids : List GoString) (m : Master S Q) → (batch_clear_pending_data_nodes ids m).tree ≡ m.tree
  unfolding batch_clear_pending_data_nodes clear_pending_data_nodes
  tree-clear_pending [] m = refl
  tree-clear_pending (id ∷ ids) m =
      tree-clear_pending ids (clear_pending_data_nodes id m) ∙ ground arith

  pub tree-update_pending :
      (infos : List ChunkTaskResult) (m : Master S Q)
      → (batch_update_pending_data_nodes infos m).tree ≡ m.tree
  unfolding batch_update_pending_data_nodes update_pending_data_nodes
  tree-update_pending [] m = refl
  tree-update_pending (info ∷ infos) m =
      tree-update_pending infos (update_pending_data_nodes info m) ∙ ground arith

  tree-drop_invalid :
      (id : GoString) (ids : List GoString) (m : Master S Q)
      → (drop_invalid_chunks id ids m).tree ≡ m.tree
  unfolding drop_invalid_chunks drop_invalid_chunk
  tree-drop_invalid id [] m = refl
  tree-drop_invalid id (k ∷ ids) m =
      tree-drop_invalid id ids (drop_invalid_chunk id k m) ∙ ground arith

  pub tree-degrade :
      (id : GoString) (stage : ℕ) (m : Master S Q) → (degrade_data_node id stage m).tree ≡ m.tree
  unfolding degrade_data_node remove_dead
  tree-degrade id stage m = ground arith

  pub tree-report :
      (o : HeartbeatOperation) (now : ℕ) (m m₁ : Master S Q) (infos : List ChunkSendInfo)
      → update_data_node4_heartbeat o now m ≡ some (m₁, infos)
      → m₁.tree ≡ m.tree
  unfolding update_data_node4_heartbeat
  tree-report o now m m₁ infos e =
      elim (Option-cases (GoMap.lookup o.data_node_id m.data_node_map)) [
        | inl absent ↦ absurd (cc (rw (absent, update_data_node4_heartbeat) at e))
        | inr (node, there) ↦
            sym (
              ap (λ x. x.0.tree)
                (some-injective _ _ (rw (there, update_data_node4_heartbeat) at e)))
      ]

  pub tree-update_chunk :
      (o : HeartbeatOperation) (m : Master S Q) → (update_chunk4_heartbeat o m).tree ≡ m.tree
  unfolding update_chunk4_heartbeat
  tree-update_chunk o m = tree-drop_invalid o.data_node_id o.invalid_chunks _

  pub tree-allocate_plan :
      (o : AllocateChunksOperation) (m m' : Master S Q)
      → apply_allocate_plan o m ≡ ok m'
      → m'.tree ≡ m.tree
  unfolding apply_allocate_plan
  tree-allocate_plan o m m' e =
      after_bind _
        (batch_apply_plan2_chunk o.receiver_plan o.chunk_ids o.data_node_ids m.chunks_map) _ e
        λ cm planned e.
          after_bind _
            (batch_apply_plan2_data_node o.receiver_plan o.sender_plan o.chunk_ids o.data_node_ids
              m.data_node_map)
            _ e λ dm sends e. sym (ap (λ (x : Master S Q). x.tree) (ok-injective e))

  pub tree-expand :
      (o : ExpandOperation) (m m' : Master S Q) → apply_expand o m ≡ ok m' → m'.tree ≡ m.tree
  unfolding apply_expand
  tree-expand o m m' e =
      after_bind _ (plan_all_moves o.receiver_plan o.sender_plan m.data_node_map) _ e
        λ dm moves e. sym (ap (λ (x : Master S Q). x.tree) (ok-injective e))
