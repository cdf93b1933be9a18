-- ===== src/DataNodes/Sorted.antt =====
-- The order of the DataNodes that serve a read: GetSortedDataNodeIds of internal/datanode.go.
use tinydfs_master.Base.{
  ℕ, ◌+◌, none, some, suc, ◌∙◌, ◌≡◌, ◌≤◌, refl, Bool, true, false, List, [], ◌∷◌, ◌==◌, nat_eq,
  nat_list_eq, if◌then◌else◌, arith, ltb, Bool-cases, inl, inr, GoString,
}
use tinydfs_master.Base.GoMap
use tinydfs_master.External.{Common}
use tinydfs_master.State.{DataNode}
use tinydfs_master.DataNodes.{DataNodeMap}
use tinydfs_master.DataNodes.Selection.{
  insert_by_load, sort_by_load, alive_among, get_sorted_data_nodes,
}

module _ {S : Type 0} where
  -- Every node of the list is at least this busy.
  abbrev pub IsBelow : ℕ → List (DataNode S) → Type 0
  IsBelow load [] = Unit {0}
  IsBelow load (node ∷ nodes) = (load ≤ node.io_load) × IsBelow load nodes

  -- The least busy node comes first.
  abbrev pub IsSorted : List (DataNode S) → Type 0
  IsSorted [] = Unit {0}
  IsSorted (node ∷ nodes) = IsBelow node.io_load nodes × IsSorted nodes

  IsBelow-mono : (a b : ℕ) (nodes : List (DataNode S)) → a ≤ b → IsBelow b nodes → IsBelow a nodes
  IsBelow-mono a b [] le below = tt
  IsBelow-mono a b (node ∷ nodes) le (here, rest) = (omega arith, IsBelow-mono a b nodes le rest)

  insert-IsBelow :
      (load : ℕ) (node : DataNode S) (nodes : List (DataNode S))
      → load ≤ node.io_load
      → IsBelow load nodes
      → IsBelow load (insert_by_load node nodes)
  unfolding insert_by_load
  insert-IsBelow load node [] le below = (le, tt)
  insert-IsBelow load node (other ∷ nodes) le (here, rest) =
      elim (Bool-cases (ltb other.io_load node.io_load)) [
        | inl after ↦ rw (after, insert_by_load) (here, insert-IsBelow load node nodes le rest)
        | inr before ↦
            let kept : IsBelow load (node ∷ other ∷ nodes) = (le, (here, rest)) in
            rw (before, insert_by_load) kept
      ]

  insert-IsSorted :
      (node : DataNode S) (nodes : List (DataNode S))
      → IsSorted nodes
      → IsSorted (insert_by_load node nodes)
  unfolding insert_by_load
  insert-IsSorted node [] sorted = (tt, tt)
  insert-IsSorted node (other ∷ nodes) (below, sorted) =
      elim (Bool-cases (ltb other.io_load node.io_load)) [
        | inl after ↦
            rw (after, insert_by_load)
              (
                insert-IsBelow other.io_load node nodes (ground (arith, after)) below,
                insert-IsSorted node nodes sorted,
              )
        | inr before ↦
            let le : node.io_load ≤ other.io_load = ground (arith, before) in
            let kept : IsSorted (node ∷ other ∷ nodes) =
              ((le, IsBelow-mono node.io_load other.io_load nodes le below), (below, sorted)) in
            rw (before, insert_by_load) kept
      ]

  -- How often a property of a node holds in a list, by which two lists have the same elements.
  abbrev pub count_if : (DataNode S → Bool) → List (DataNode S) → ℕ
  count_if p [] = 0
  count_if p (node ∷ nodes) = if p node then suc (count_if p nodes) else count_if p nodes

  count_if-insert :
      (p : DataNode S → Bool) (node : DataNode S) (nodes : List (DataNode S))
      → count_if p (insert_by_load node nodes) ≡ count_if p (node ∷ nodes)
  unfolding insert_by_load
  count_if-insert p node [] = refl
  count_if-insert p node (other ∷ nodes) = ground (arith, count_if-insert p node nodes)

  sort_by_load-IsSorted : (nodes : List (DataNode S)) → IsSorted (sort_by_load nodes)
  unfolding sort_by_load
  sort_by_load-IsSorted [] = tt
  sort_by_load-IsSorted (node ∷ nodes) =
      insert-IsSorted node (sort_by_load nodes) (sort_by_load-IsSorted nodes)

  count_if-sort :
      (p : DataNode S → Bool) (nodes : List (DataNode S))
      → count_if p (sort_by_load nodes) ≡ count_if p nodes
  unfolding sort_by_load
  count_if-sort p [] = refl
  count_if-sort p (node ∷ nodes) =
      ground (arith, count_if-insert p node (sort_by_load nodes), count_if-sort p nodes)

module _ {S : Type 0} ⦃c : Common⦄ where
  -- Only nodes that are alive are chosen.
  not_alive-none :
      (ids : List GoString) (m : DataNodeMap S)
      → count_if (λ node. if node.status == c.alive then false else true) (alive_among ids m) ≡ 0
  unfolding alive_among
  not_alive-none [] m = refl
  not_alive-none (id ∷ ids) m = ground (arith, not_alive-none ids m)

  -- How often identifiers name a connected DataNode that is alive and has a property.
  abbrev pub named_alive : (DataNode S → Bool) → List GoString → DataNodeMap S → ℕ
  named_alive p [] m = 0
  named_alive p (id ∷ ids) m = elim (GoMap.lookup id m) [
    | none ↦ named_alive p ids m
    | some node ↦
        (if node.status == c.alive then (if p node then 1 else 0) else 0) + named_alive p ids m
  ]

  count_if-alive_among :
      (p : DataNode S → Bool) (ids : List GoString) (m : DataNodeMap S)
      → count_if p (alive_among ids m) ≡ named_alive p ids m
  unfolding alive_among
  count_if-alive_among p [] m = refl
  count_if-alive_among p (id ∷ ids) m = ground (arith, count_if-alive_among p ids m)

  -- A read is sent to DataNodes that are alive, the least busy first, and of the DataNodes
  -- with any property there are as many as identifiers of the chunk that name a connected DataNode
  -- that is alive and has it.
  pub get_sorted_data_nodes-IsSorted :
      (ids : List GoString) (m : DataNodeMap S) (p : DataNode S → Bool)
      → IsSorted (get_sorted_data_nodes ids m)
        × (count_if
              (λ node. if node.status == c.alive then false else true)
              (get_sorted_data_nodes ids m)
            ≡ 0)
        × (count_if p (get_sorted_data_nodes ids m) ≡ named_alive p ids m)
  unfolding get_sorted_data_nodes
  get_sorted_data_nodes-IsSorted ids m p = (
    sort_by_load-IsSorted (alive_among ids m),
    count_if-sort _ (alive_among ids m) ∙ not_alive-none ids m,
    count_if-sort p (alive_among ids m) ∙ count_if-alive_among p ids m,
  )
