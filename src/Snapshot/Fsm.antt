-- ===== src/Snapshot/Fsm.antt =====
-- internal/fsm.go: Persist and Restore, and bufio.Scanner on a snapshot.
use tinydfs_master.Base.{
  ℕ, Option, none, some, List, [], ◌∷◌, ◌++◌, nat_eq, nat_list_eq, GoString, Result, ok, err, panic,
  ◌>>=◌,
}
use tinydfs_master.External.{StringSet, StringQueue}
use tinydfs_master.Namespace.{DirTree}
use tinydfs_master.State.{Master}
use tinydfs_master.Snapshot.Text.{SnapshotText}
use tinydfs_master.Snapshot.Tree.{persist_dir_tree, read_dir_tree}
use tinydfs_master.Snapshot.Build.{root_deserialize}
use tinydfs_master.Snapshot.DataNodes.{persist_data_nodes, restore_data_nodes}
use tinydfs_master.Snapshot.Chunks.{
  persist_chunks, restore_chunks, persist_pending_chunk_queue, restore_pending_chunk_queue,
}

module _ {S : Type 0} ⦃s : StringSet S⦄ where
  -- RestoreDirTree: the tree stays as it is if no node was read.
  unfoldable pub restore_dir_tree :
      SnapshotText → ℕ → ℕ → List GoString → DirTree S → Option (Result (DirTree S × List GoString))
  unfolding read_dir_tree root_deserialize
  restore_dir_tree text now fuel lines t = elim (read_dir_tree text now lines []) [
    | err e ↦ some (err e)
    | panic ↦ some panic
    | ok ([], left) ↦ some (ok (t, left))
    | ok (node ∷ nodes, left) ↦
        elim (root_deserialize text fuel (node ∷ nodes) t.file_node_id_set) [
          | none ↦ none
          | some r ↦ some (do t' ← r; ok (t', left))
        ]
  ]

module _ {S Q : Type 0} ⦃s : StringSet S⦄ ⦃q : StringQueue Q⦄ where
  -- What Persist writes to a sink that takes everything; `none` means that the fuel ran out.
  unfoldable pub persist : SnapshotText → (Q → GoString) → ℕ → Master S Q → Option GoString
  unfolding persist_dir_tree persist_data_nodes persist_chunks persist_pending_chunk_queue
  persist text queue_string fuel m = elim (persist_dir_tree text fuel m.tree) [
    | none ↦ none
    | some tree ↦ some (
        tree
        ++ persist_data_nodes text m.data_node_map
        ++ persist_chunks text m.chunks_map
        ++ persist_pending_chunk_queue text queue_string m.pending_chunk_queue)
  ]

  -- MasterFSM.Restore, from the lines that the scanner gives.
  unfoldable pub restore :
      SnapshotText → ℕ → ℕ → List GoString → Master S Q → Option (Result (Master S Q))
  unfolding restore_dir_tree restore_data_nodes restore_chunks restore_pending_chunk_queue
  restore text now fuel lines m = elim (restore_dir_tree text now fuel lines m.tree) [
    | none ↦ none
    | some r ↦ some (do
      (tree, lines₁) ← r
      (data_node_map, lines₂) ← restore_data_nodes text lines₁ m.data_node_map
      (chunks_map, lines₃) ← restore_chunks text lines₂
      let queue = (restore_pending_chunk_queue text lines₃ m.pending_chunk_queue).0
      ok (record m {
        tree = tree;
        data_node_map = data_node_map;
        chunks_map = chunks_map;
        pending_chunk_queue = queue;
      }))
  ]
