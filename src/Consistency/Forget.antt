-- ===== src/Consistency/Forget.antt =====
-- A DataNode that is dead is forgotten by every chunk: DegradeDataNode of internal/datanode.go.
use tinydfs_master.Base.{
  ℕ, nat_eq, ◌≡◌, false, some, ◌==◌, nat_list_eq, GoString, arith, Bool-cases, inl, inr,
}
use tinydfs_master.Base.GoMap.{lookup}
use tinydfs_master.External.{Common, StringSet, StringQueue}
use tinydfs_master.State.{DataNode, Master}
use tinydfs_master.DataNodes.Degrade.{remove_dead, degrade_data_node}
use tinydfs_master.Consistency.{counts, IsConsistent}
use tinydfs_master.Consistency.OfChunks.{counts-batch_clear_data_node}

module _ {S Q : Type 0} ⦃c : Common⦄ ⦃s : StringSet S⦄ ⦃q : StringQueue Q⦄ where
  remove_dead-forgets :
      (id : GoString) (node : DataNode S) (m : Master S Q)
      → lookup id m.data_node_map ≡ some node
      → IsConsistent m
      → (k : GoString) → counts (remove_dead id node m).chunks_map k id ≡ false
  unfolding remove_dead
  remove_dead-forgets id node m present agree k = elim (Bool-cases (counts m.chunks_map k id)) [
    | inl counted ↦ ground (
      arith,
      present,
      agree k id counted,
      s.contains-to_slice node.chunks k,
      counts-batch_clear_data_node (s.to_slice node.chunks) id m.chunks_map k id,
    )
    | inr not_counted ↦
        ground (arith, counts-batch_clear_data_node (s.to_slice node.chunks) id m.chunks_map k id)
  ]

  -- If every counted replica of a connected DataNode is stored there, no chunk counts a connected
  -- DataNode once it is degraded to another stage than waiting.
  pub degrade-forgets :
      (id : GoString) (stage : ℕ) (node : DataNode S) (m : Master S Q)
      → (stage == c.degrade2_waiting) ≡ false
      → lookup id m.data_node_map ≡ some node
      → IsConsistent m
      → (k : GoString) → counts (degrade_data_node id stage m).chunks_map k id ≡ false
  unfolding degrade_data_node
  degrade-forgets id stage node m dies present agree =
      rw (present, degrade_data_node, dies) (remove_dead-forgets id node m present agree)
