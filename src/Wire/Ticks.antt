-- ===== src/Wire/Ticks.antt =====
-- internal/monitor.go: the log entries that the timers of CheckChunks, CheckFileTree and
-- CheckStorableDataNode propose.
use tinydfs_master.Base.{ℕ, suc, ◌≡◌, refl, ◌∙◌, List, ◌∷◌, some, GoString, panic}
use tinydfs_master.Base.GoMap
use tinydfs_master.External.{Common, StringSet, StringQueue, NodeQueue}
use tinydfs_master.Namespace.{entries}
use tinydfs_master.Namespace.WellFormed.{IsWellFormed}
use tinydfs_master.State.{Master}
use tinydfs_master.Checks.RootPanic.{check_file_tree-panics}
use tinydfs_master.Operations.{Operation}
use tinydfs_master.Wire.{
  check_file_tree_type, check_chunks_type, check_data_nodes_type, operation, check_file_tree_op,
  OpNames, Json, get_data4_apply, apply_operation, fsm_apply_data,
}
use tinydfs_master.Wire.RoundTrip.{fsm_apply_data-decoded}

module _ {B : Type 0} (json : Json B) (names : OpNames) where
  unfoldable pub check_chunks_data : B
  unfolding get_data4_apply
  check_chunks_data =
      get_data4_apply json names (operation Operation.check_chunks_op)
        (names.name check_chunks_type)

  unfoldable pub check_file_tree_data : B
  unfolding get_data4_apply
  check_file_tree_data =
      get_data4_apply json names (operation Operation.check_data_nodes)
        (names.name check_file_tree_type)

  unfoldable pub check_storable_data_node_data : B
  unfolding get_data4_apply
  check_storable_data_node_data =
      get_data4_apply json names (operation Operation.check_data_nodes)
        (names.name check_data_nodes_type)

module _ {S Q P B : Type 0} ⦃c : Common⦄ ⦃s : StringSet S⦄ ⦃q : StringQueue Q⦄ (nodes : NodeQueue P)
    (json : Json B) (names : OpNames) where
  -- The log entry of the timer of CheckFileTree carries an operation of another type, and is
  -- applied as a check of the file tree nevertheless. On every master whose tree is well formed and
  -- whose root has a child, MasterFSM.Apply of that entry panics.
  pub check_file_tree_data-panics :
      (fuel now : ℕ) (id : GoString) (m : Master S Q) (node : ℕ) (rest : List ℕ)
      → IsWellFormed m.tree
      → GoMap.values (entries (m.tree.heap m.tree.root).child_nodes) ≡ node ∷ rest
      → fsm_apply_data nodes (suc fuel) json names (check_file_tree_data json names) now id m
        ≡ some panic
  unfolding check_file_tree_data apply_operation
  check_file_tree_data-panics fuel now id m node rest wf full =
      fsm_apply_data-decoded nodes (suc fuel) json names (operation Operation.check_data_nodes)
        check_file_tree_op check_file_tree_type now id m json.same_fields
      ∙ rw (check_file_tree-panics nodes fuel now m.tree node rest wf full, apply_operation) refl
