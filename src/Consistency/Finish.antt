-- ===== src/Consistency/Finish.antt =====
-- The end of an add and the degradation of a DataNode keep the two views consistent:
-- AddOperation.Apply of internal/operation.go and DegradeDataNode of internal/datanode.go.
use tinydfs_master.Base.{
  ℕ, ◌≡◌, refl, sym, ◌∙◌, List, [], ◌∷◌, ◌==◌, nat_eq, nat_list_eq, ap, GoString, arith, ok, panic,
  ok-injective, subst, Result-cases, after_bind, Bool-cases, Option-cases, inl, inr,
}
use tinydfs_master.Base.GoMap.{lookup, lookup-erase}
use tinydfs_master.External.{Common, StringSet, StringQueue}
use tinydfs_master.Namespace.{erase_file_node}
use tinydfs_master.State.{ChunkTaskResult, DataNode, Master}
use tinydfs_master.Chunks.{
  update_pending_data_nodes, batch_update_pending_data_nodes, batch_clear_pending_data_nodes,
}
use tinydfs_master.DataNodes.{DataNodeMap}
use tinydfs_master.DataNodes.Selection.{store_on, batch_add_chunks}
use tinydfs_master.DataNodes.Degrade.{remove_dead, degrade_data_node}
use tinydfs_master.Operations.{AddOperation, Reply}
use tinydfs_master.Operations.Apply.{give_up_failed, apply_add_finish}
use tinydfs_master.Consistency.{lacks, AreConsistent, IsConsistent}
use tinydfs_master.Consistency.OfChunks.{
  counts-batch_clear_data_node, counts-update_pending_data_nodes, data_node_map-batch_update,
  counts-batch_clear_pending,
}
use tinydfs_master.Consistency.OfNodes.{lacks-store_on}
use tinydfs_master.Consistency.Plans.{lacks-insert_same}

module _ {S Q : Type 0} ⦃c : Common⦄ ⦃s : StringSet S⦄ ⦃q : StringQueue Q⦄ where
  -- The chunk counts the DataNodes that took it, and they store it.
  update-AreConsistent :
      (info : ChunkTaskResult) (m : Master S Q) (dm : DataNodeMap S)
      → AreConsistent m.chunks_map dm
      → AreConsistent
          (update_pending_data_nodes info m).chunks_map
          (store_on info.chunk_id info.success_data_nodes dm)
  update-AreConsistent info m dm agree k n counted = ground (
    arith,
    counts-update_pending_data_nodes info m k n counted,
    lacks-store_on info.chunk_id info.success_data_nodes dm n k,
    agree k n,
  )

  batch_update-AreConsistent :
      (infos : List ChunkTaskResult) (m : Master S Q) (dm : DataNodeMap S)
      → AreConsistent m.chunks_map dm
      → AreConsistent
          (batch_update_pending_data_nodes infos m).chunks_map
          (batch_add_chunks infos dm)
  unfolding batch_update_pending_data_nodes batch_add_chunks
  batch_update-AreConsistent [] m dm agree = agree
  batch_update-AreConsistent (info ∷ infos) m dm agree =
      batch_update-AreConsistent infos (update_pending_data_nodes info m)
        (store_on info.chunk_id info.success_data_nodes dm) (update-AreConsistent info m dm agree)

  batch_clear_pending-IsConsistent :
      (ids : List GoString) (m : Master S Q)
      → IsConsistent m
      → IsConsistent (batch_clear_pending_data_nodes ids m)
  batch_clear_pending-IsConsistent ids m agree k n counted =
      let same = counts-batch_clear_pending ids m k n in
      ap (λ dm. lacks dm n k) same.1 ∙ agree k n (sym same.0 ∙ counted)

  give_up_failed-IsConsistent :
      (o : AddOperation) (now : ℕ) (m m' : Master S Q)
      → give_up_failed o now m ≡ ok m'
      → IsConsistent m
      → IsConsistent m'
  unfolding give_up_failed
  give_up_failed-IsConsistent o now m m' e agree = elim (Option-cases o.fail_chunk_ids) [
    | inl nil_slice ↦
        let done : give_up_failed o now m ≡ ok m = rw (nil_slice, give_up_failed) refl in
        subst IsConsistent (ok-injective (sym done ∙ e)) agree
    | inr (ids, failed) ↦ elim (Result-cases (erase_file_node m.tree o.path now)) [
      | inl (r, erased) ↦
          let m₁ : Master S Q = record m { tree = r.0 } in
          let done : give_up_failed o now m ≡ ok (batch_clear_pending_data_nodes ids m₁) =
            rw (failed, give_up_failed, erased) refl in
          subst IsConsistent (ok-injective (sym done ∙ e))
            (batch_clear_pending-IsConsistent ids m₁ agree)
      | inr (inl (error, refused)) ↦
          let done : give_up_failed o now m ≡ ok (batch_clear_pending_data_nodes ids m) =
            rw (failed, give_up_failed, refused) refl in
          subst IsConsistent (ok-injective (sym done ∙ e))
            (batch_clear_pending-IsConsistent ids m agree)
      | inr (inr panics) ↦
          let done : give_up_failed o now m ≡ panic = rw (failed, give_up_failed, panics) refl in
          absurd (ground (arith, done, e))
    ]
  ]

  -- The end of an add keeps every counted replica among the stored ones.
  pub apply_add_finish-IsConsistent :
      (o : AddOperation) (now : ℕ) (m m' : Master S Q) (r : Reply)
      → apply_add_finish o now m ≡ ok (m', r)
      → IsConsistent m
      → IsConsistent m'
  unfolding apply_add_finish
  apply_add_finish-IsConsistent o now m m' r e agree =
      after_bind _ (give_up_failed o now m) _ e λ m₁ given_up e.
        let m₂ = batch_update_pending_data_nodes o.infos m₁ in
        let stored =
          batch_update-AreConsistent o.infos m₁ m₁.data_node_map
            (give_up_failed-IsConsistent o now m m₁ given_up agree) in
        subst IsConsistent (ap (λ x. x.0) (ok-injective e)) (
          subst (λ dm. AreConsistent m₂.chunks_map (batch_add_chunks o.infos dm))
            (sym (data_node_map-batch_update o.infos m₁)) stored)

  remove_dead-IsConsistent :
      (id : GoString) (node : DataNode S) (m : Master S Q)
      → IsConsistent m
      → IsConsistent (remove_dead id node m)
  unfolding remove_dead
  remove_dead-IsConsistent id node m agree k n counted = ground (
    arith,
    counted,
    counts-batch_clear_data_node (s.to_slice node.chunks) id m.chunks_map k n,
    lookup-erase n id m.data_node_map,
    agree k n,
  )

  pub degrade-IsConsistent :
      (id : GoString) (stage : ℕ) (m : Master S Q)
      → IsConsistent m
      → IsConsistent (degrade_data_node id stage m)
  unfolding degrade_data_node
  degrade-IsConsistent id stage m agree = elim (Option-cases (lookup id m.data_node_map)) [
    | inl absent ↦ rw (absent, degrade_data_node) agree
    | inr (node, present) ↦
        rw (present, degrade_data_node)
          (elim (Bool-cases (stage == c.degrade2_waiting)) [
            | inl waits ↦ rw waits (λ k n counted.
                lacks-insert_same m.data_node_map id node (record node { status = c.waiting })
                  present refl n k
                ∙ agree k n counted)
            | inr dies ↦ rw dies (remove_dead-IsConsistent id node m agree)
          ])
  ]
