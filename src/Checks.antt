-- ===== src/Checks.antt =====
-- internal/operation.go: the periodic clean-ups, CheckFileTreeOperation and CheckChunksOperation.
pub mod Owner
pub mod RootPanic
use tinydfs_master.Base.{
  ℕ, zero, suc, ◌+◌, ◌-◌, ◌*◌, Bool, true, false, not, ◌&&◌, Option, none, some, List, [], ◌∷◌,
  ◌==◌, nat_list_eq, leb, if◌then◌else◌, GoString, Result, ok, err, panic, ◌>>=◌, deref,
}
use tinydfs_master.Base.Strings.{split}
use tinydfs_master.Base.GoMap
use tinydfs_master.Base.GoMap.{GoMap}
use tinydfs_master.External.{Common, StringSet, NodeQueue}
use tinydfs_master.Namespace.{FileNode, DirTree, entries, delete_child}
use tinydfs_master.State.{Chunk, ChunkSendInfo, chunk_send_info_eq, DataNode, Master}
use tinydfs_master.Chunks.{ChunksMap}
use tinydfs_master.DataNodes.{DataNodeMap, plan_send, drop_chunk}

-- 24 hours in nanoseconds. `now.Sub(del).Hours() >= 24` is a comparison of whole nanoseconds.
abbrev pub day : ℕ
day = 24 * 3600 * 1000000000

module _ {S : Type 0} ⦃s : StringSet S⦄ where
  -- The first `if` of the loop: a node deleted for a day leaves the id set and its parent.
  unfoldable pub expire : DirTree S → ℕ → ℕ → Result (DirTree S)
  expire t now cur = elim (t.heap cur).is_del [
    | false ↦ ok t
    | true ↦ do
      del_time ← deref (t.heap cur).del_time
      let t₁ = record t { file_node_id_set = s.remove t.file_node_id_set (t.heap cur).id }
      ok (
          if leb day (now - del_time)
          then elim (t.heap cur).parent_node [
            | none ↦ t₁
            | some parent ↦ record t₁ { heap = delete_child t₁.heap parent (t.heap cur).file_name }
          ]
          else t)
  ]

  -- The loop over the children of `cur`.
  unfoldable pub visit_children :
      {P : Type 0} → NodeQueue P → DirTree S → P → ℕ → List ℕ → Result (DirTree S × P)
  visit_children q t queue cur [] = ok (t, queue)
  visit_children q t queue cur (node ∷ nodes) = do
    parent ← deref (t.heap cur).parent_node
    let ids =
        if s.member t.file_node_id_set (t.heap parent).id
        then t.file_node_id_set
        else s.remove t.file_node_id_set (t.heap node).id
    visit_children q (record t { file_node_id_set = ids }) (q.push queue node) cur nodes

  -- The loop over the queue; `none` means that the fuel ran out.
  unfoldable pub check_from :
      {P : Type 0} → NodeQueue P → ℕ → ℕ → DirTree S → P → Option (Result (DirTree S))
  unfolding expire visit_children
  check_from q zero now t queue = none
  check_from q (suc fuel) now t queue = elim (q.pop queue) [
    | none ↦ some (ok t)
    | some (cur, queue₁) ↦ elim (expire t now cur) [
      | ok t₁ ↦
          elim (visit_children q t₁ queue₁ cur (GoMap.values (entries (t₁.heap cur).child_nodes))) [
            | ok (t₂, queue₂) ↦ check_from q fuel now t₂ queue₂
            | err e ↦ some (err e)
            | panic ↦ some panic
          ]
      | err e ↦ some (err e)
      | panic ↦ some panic
    ]
  ]

  unfoldable pub check_file_tree :
      {P : Type 0} → NodeQueue P → ℕ → ℕ → DirTree S → Option (Result (DirTree S))
  unfolding check_from
  check_file_tree q fuel now t = check_from q fuel now t (q.push q.new_queue t.root)

-- `strings.Split(id, common.ChunkIdDelimiter)[0]`; there is always a piece.
abbrev pub first_piece : List GoString → GoString
first_piece [] = []
first_piece (piece ∷ pieces) = piece

unfoldable pub file_node_id_of : ⦃c : Common⦄ → GoString → GoString
file_node_id_of ⦃c⦄ chunk_id = first_piece (split c.chunk_id_delimiter chunk_id)

unfoldable pub delete_info : ⦃c : Common⦄ → GoString → ChunkSendInfo
delete_info ⦃c⦄ chunk_id = record {
  chunk_id = chunk_id;
  data_node_id = [];
  send_type = c.delete_send_type;
}

module _ {S : Type 0} ⦃c : Common⦄ ⦃s : StringSet S⦄ where
  -- The FileNode that the chunk belongs to is gone.
  unfoldable pub is_rubbish : S → GoString → Bool
  unfolding file_node_id_of
  is_rubbish file_node_id_set chunk_id = not (s.member file_node_id_set (file_node_id_of chunk_id))

  -- The loop over the chunks of one DataNode.
  unfoldable pub clean_node : S → List GoString → DataNode S → DataNode S
  unfolding is_rubbish delete_info plan_send drop_chunk
  clean_node file_node_id_set [] node = node
  clean_node file_node_id_set (id ∷ ids) node = clean_node file_node_id_set ids (
      if is_rubbish file_node_id_set id
      then drop_chunk id (plan_send (delete_info id) c.wait_to_inform node)
      else node)

  unfoldable pub clean_nodes : S → DataNodeMap S → DataNodeMap S
  unfolding clean_node
  clean_nodes file_node_id_set [] = []
  clean_nodes file_node_id_set ((id, node) ∷ m) =
      (id, clean_node file_node_id_set (s.to_slice node.chunks) node)
      ∷ clean_nodes file_node_id_set m

  unfoldable pub clean_chunks : S → ChunksMap S → ChunksMap S
  unfolding is_rubbish
  clean_chunks file_node_id_set [] = []
  clean_chunks file_node_id_set ((id, chunk) ∷ m) =
      let rest = clean_chunks file_node_id_set m in
      if is_rubbish file_node_id_set id then rest else (id, chunk) ∷ rest

  unfoldable pub check_chunks : {Q : Type 0} → Master S Q → Master S Q
  unfolding clean_nodes clean_chunks
  check_chunks m = record m {
    data_node_map = clean_nodes m.tree.file_node_id_set m.data_node_map;
    chunks_map = clean_chunks m.tree.file_node_id_set m.chunks_map;
  }
