-- ===== src/Consistency/Cleanup.antt =====
-- The clean-up of rubbish chunks keeps the two views consistent: CheckChunksOperation.Apply of
-- internal/operation.go.
use tinydfs_master.Base.{
  ◌≡◌, refl, ◌∙◌, false, none, List, [], ◌∷◌, nat_list_eq, if◌then◌else◌, GoString, arith, inl, inr,
  Bool-cases,
}
use tinydfs_master.Base.GoMap.{lookup}
use tinydfs_master.External.{Common, StringSet}
use tinydfs_master.State.{DataNode, Master}
use tinydfs_master.Chunks.{ChunksMap}
use tinydfs_master.DataNodes.{DataNodeMap, drop_chunk, plan_send}
use tinydfs_master.Checks.{
  is_rubbish, delete_info, clean_node, clean_nodes, clean_chunks, check_chunks,
}
use tinydfs_master.Consistency.{lacks, IsConsistent}

module _ {S : Type 0} ⦃c : Common⦄ ⦃s : StringSet S⦄ where
  lookup-clean_chunks :
      (set : S) (m : ChunksMap S) (k : GoString)
      → lookup k (clean_chunks set m) ≡ (if is_rubbish set k then none else lookup k m)
  unfolding clean_chunks lookup
  lookup-clean_chunks set [] k = elim (Bool-cases (is_rubbish set k)) [
    | inl rubbish ↦ rw rubbish refl
    | inr fine ↦ rw fine refl
  ]
  lookup-clean_chunks set ((id, chunk) ∷ m) k = elim (Bool-cases (is_rubbish set id)) [
    | inl rubbish ↦ ground (arith, lookup-clean_chunks set m k, rubbish)
    | inr fine ↦ ground (arith, lookup-clean_chunks set m k, fine)
  ]

  -- A DataNode loses rubbish chunks only.
  member-clean_node :
      (set : S) (ids : List GoString) (node : DataNode S) (k : GoString)
      → is_rubbish set k ≡ false
      → s.member (clean_node set ids node).chunks k ≡ s.member node.chunks k
  unfolding clean_node drop_chunk plan_send
  member-clean_node set [] node k kept = refl
  member-clean_node set (id ∷ ids) node k kept = elim (Bool-cases (is_rubbish set id)) [
    | inl rubbish ↦
        rw (rubbish, clean_node)
          (member-clean_node set ids
              (drop_chunk id (plan_send (delete_info id) c.wait_to_inform node)) k kept
            ∙ ground (arith, s.member-remove node.chunks id k))
    | inr fine ↦ rw (fine, clean_node) (member-clean_node set ids node k kept)
  ]

  lacks-clean_nodes :
      (set : S) (m : DataNodeMap S) (n k : GoString)
      → is_rubbish set k ≡ false
      → lacks (clean_nodes set m) n k ≡ lacks m n k
  unfolding clean_nodes lookup
  lacks-clean_nodes set [] n k kept = refl
  lacks-clean_nodes set ((id, node) ∷ m) n k kept = ground (
    arith,
    lacks-clean_nodes set m n k kept,
    member-clean_node set (s.to_slice node.chunks) node k kept,
  )

  -- The clean-up of the chunks whose files are gone keeps every counted replica stored.
  pub check_chunks-IsConsistent :
      {Q : Type 0} → (m : Master S Q) → IsConsistent m → IsConsistent (check_chunks m)
  unfolding check_chunks
  check_chunks-IsConsistent m agree k n counted =
      let set = m.tree.file_node_id_set in
      let found = lookup-clean_chunks set m.chunks_map k in
      elim (Bool-cases (is_rubbish set k)) [
        | inl rubbish ↦ absurd (ground (arith, counted, found, rubbish))
        | inr fine ↦
            lacks-clean_nodes set m.data_node_map n k fine
            ∙ agree k n (ground (arith, counted, found, fine))
      ]
