-- ===== src/DataNodes/Allocation.antt =====
-- internal/datanode.go: which DataNodes are to store new chunks.
use tinydfs_master.Base.{
  ℕ, zero, suc, ◌+◌, Bool, none, some, List, [], ◌∷◌, ◌==◌, nat_eq, nat_list_eq, ltb, if◌then◌else◌,
  length, GoString, Result, ok, ◌>>=◌, deref,
}
use tinydfs_master.Base.GoMap
use tinydfs_master.Base.GoMap.{GoMap}
use tinydfs_master.BinaryHeap
use tinydfs_master.External.{Common, StringSet}
use tinydfs_master.State.{DataNode}
use tinydfs_master.DataNodes.{DataNodeMap}
use tinydfs_master.DataNodes.Usage.{cal_usage}

-- How many bytes a batch has given to each DataNode so far, by its id.
abbrev pub ProcessMap : Type 0
ProcessMap = GoMap GoString ℕ

module _ {S : Type 0} ⦃c : Common⦄ ⦃s : StringSet S⦄ where
  -- MaxHeapFunc.LessFunc.
  unfoldable pub more_chunks : DataNode S → DataNode S → Bool
  more_chunks a b = ltb (s.cardinality b.chunks) (s.cardinality a.chunks)

  unfoldable pub node_usage : ProcessMap → DataNode S → ℕ
  unfolding cal_usage
  node_usage process_map node =
      cal_usage node.used_capacity node.full_capacity
        (elim (GoMap.lookup node.id process_map) [ none ↦ 0 | some n ↦ n ])

  unfoldable pub adjust4batch :
      DataNode S → ProcessMap → List (DataNode S) → Result (List (DataNode S))
  unfolding more_chunks node_usage
  adjust4batch node process_map h =
      if ltb (length h) c.replica_num then ok (BinaryHeap.push more_chunks node h) else do
        (top_node, rest) ← deref (BinaryHeap.pop more_chunks h)
        ok (
            BinaryHeap.push more_chunks
              (if ltb (node_usage process_map node) (node_usage process_map top_node)
                then node
                else top_node)
              rest)

  -- One pass over the alive DataNodes.
  unfoldable pub fill_heap :
      DataNodeMap S → ProcessMap → List (DataNode S) → Result (List (DataNode S))
  unfolding adjust4batch
  fill_heap [] process_map h = ok h
  fill_heap ((_, node) ∷ m) process_map h = do
    h' ← if node.status == c.alive then adjust4batch node process_map h else ok h
    fill_heap m process_map h'

  unfoldable pub adjust : DataNode S → List (DataNode S) → Result (List (DataNode S))
  unfolding more_chunks cal_usage
  adjust node h =
      if ltb (length h) c.replica_num then ok (BinaryHeap.push more_chunks node h) else do
        (top_node, rest) ← deref (BinaryHeap.pop more_chunks h)
        ok (
            BinaryHeap.push more_chunks
              (if ltb (cal_usage node.used_capacity node.full_capacity 0)
                  (cal_usage top_node.used_capacity top_node.full_capacity 0)
                then node
                else top_node)
              rest)

  -- The loop of AllocateDataNodes.
  unfoldable pub adjust_alive : DataNodeMap S → List (DataNode S) → Result (List (DataNode S))
  unfolding adjust
  adjust_alive [] h = ok h
  adjust_alive ((_, node) ∷ m) h = do
    h' ← if node.status == c.alive then adjust node h else ok h
    adjust_alive m h'

  unfoldable pub allocate_data_nodes : DataNodeMap S → Result (List (DataNode S))
  unfolding adjust_alive
  allocate_data_nodes m = adjust_alive m []

  -- `processMap[node] += common.ChunkSize`
  unfoldable pub charge : List (DataNode S) → ProcessMap → ProcessMap
  charge [] process_map = process_map
  charge (node ∷ nodes) process_map =
      let old = elim (GoMap.lookup node.id process_map) as (λ _. ℕ) [ none ↦ 0 | some n ↦ n ] in
      charge nodes (GoMap.insert node.id (old + c.chunk_size) process_map)

  -- The rounds of BatchAllocateDataNodes. Its map starts with 0 for each alive DataNode, which a
  -- missing entry reads as too.
  unfoldable pub batch_allocate_from :
      ℕ → DataNodeMap S → ProcessMap → Result (List (List (DataNode S)))
  unfolding fill_heap charge
  batch_allocate_from zero m process_map = ok []
  batch_allocate_from (suc n) m process_map = do
    nodes ← fill_heap m process_map []
    rest ← batch_allocate_from n m (charge nodes process_map)
    ok (nodes ∷ rest)

  unfoldable pub batch_allocate_data_nodes : ℕ → DataNodeMap S → Result (List (List (DataNode S)))
  unfolding batch_allocate_from
  batch_allocate_data_nodes chunk_num m = batch_allocate_from chunk_num m []
