-- ===== src/DataNodes/Allocated.antt =====
-- How many DataNodes a new chunk gets: BatchAllocateDataNodes of internal/datanode.go.
use tinydfs_master.Base.{
  ℕ, zero, suc, ◌+◌, ◌≡◌, ◌<◌, ◌≤◌, refl, ap, ◌∙◌, List, [], ◌∷◌, ◌==◌, nat_eq, ltb, replicate, map,
  if◌then◌else◌, length, ok, arith, Bool-cases, inl, inr, Result-cases, ◌>>=◌,
}
use tinydfs_master.Base.GoMap
use tinydfs_master.BinaryHeap
use tinydfs_master.BinaryHeap.Lengths.{length-push, pop-some}
use tinydfs_master.External.{Common, StringSet}
use tinydfs_master.State.{DataNode}
use tinydfs_master.DataNodes.{DataNodeMap}
use tinydfs_master.DataNodes.Allocation.{
  ProcessMap, more_chunks, adjust4batch, fill_heap, charge, node_usage, batch_allocate_from, adjust,
  adjust_alive, allocate_data_nodes, batch_allocate_data_nodes,
}

module _ ⦃c : Common⦄ where
  -- At most as many as a chunk has replicas.
  abbrev pub capped : ℕ → ℕ
  capped n = if ltb n c.replica_num then n else c.replica_num

module _ {S : Type 0} ⦃c : Common⦄ where
  abbrev pub alive_count : DataNodeMap S → ℕ
  alive_count [] = 0
  alive_count ((_, node) ∷ m) =
      if node.status == c.alive then suc (alive_count m) else alive_count m

module _ {S : Type 0} ⦃c : Common⦄ ⦃s : StringSet S⦄ where
  adjust4batch-length :
      (node : DataNode S) (process_map : ProcessMap) (h : List (DataNode S))
      → 0 < c.replica_num
      → length h ≤ c.replica_num
      → (h' : List (DataNode S)) × (adjust4batch node process_map h ≡ ok h')
        × (length h' ≡ capped (suc (length h)))
  unfolding adjust4batch
  adjust4batch-length node process_map h pos le = elim (Bool-cases (ltb (length h) c.replica_num)) [
    | inl room ↦ (
      BinaryHeap.push more_chunks node h,
      rw (room, adjust4batch) refl,
      ground (arith, room, le, length-push more_chunks node h),
    )
    | inr full ↦
        let (top, rest, popped, shorter) = pop-some more_chunks h (ground (arith, full, pos)) in
        let kept =
          if ltb (node_usage process_map node) (node_usage process_map top) then node else top in
        (
          BinaryHeap.push more_chunks kept rest,
          rw (full, popped, adjust4batch) refl,
          ground (arith, full, le, pos, shorter, length-push more_chunks kept rest),
        )
  ]

  fill_heap-length :
      (m : DataNodeMap S) (process_map : ProcessMap) (h : List (DataNode S))
      → 0 < c.replica_num
      → length h ≤ c.replica_num
      → (h' : List (DataNode S)) × (fill_heap m process_map h ≡ ok h')
        × (length h' ≡ capped (length h + alive_count m))
  unfolding fill_heap
  fill_heap-length [] process_map h pos le = (h, refl, ground (arith, le))
  fill_heap-length ((id, node) ∷ m) process_map h pos le =
      elim (Bool-cases (node.status == c.alive)) [
        | inl lives ↦
            let (h₁, adjusted, len₁) = adjust4batch-length node process_map h pos le in
            let (h₂, filled, len₂) = fill_heap-length m process_map h₁ pos (ground (arith, len₁)) in
            (h₂, rw (lives, fill_heap, adjusted) filled, ground (arith, len₁, len₂, lives, le))
        | inr not_alive ↦
            let (h₂, filled, len₂) = fill_heap-length m process_map h pos le in
            (h₂, rw (not_alive, fill_heap) filled, ground (arith, len₂, not_alive))
      ]

  batch_allocate_from-lengths :
      (n : ℕ) (m : DataNodeMap S) (process_map : ProcessMap)
      → 0 < c.replica_num
      → (nodes : List (List (DataNode S))) × (batch_allocate_from n m process_map ≡ ok nodes)
        × (map length nodes ≡ replicate n (capped (alive_count m)))
  unfolding batch_allocate_from
  batch_allocate_from-lengths zero m process_map pos = ([], refl, refl)
  batch_allocate_from-lengths (suc n) m process_map pos =
      let (h, filled, len) = fill_heap-length m process_map [] pos (omega arith) in
      let (rest, found, lens) = batch_allocate_from-lengths n m (charge h process_map) pos in
      let len' : length h ≡ capped (alive_count m) = len ∙ ap capped (omega arith) in
      (
        h ∷ rest,
        rw (filled, batch_allocate_from, found) refl,
        ap (λ k. k ∷ map length rest) len' ∙ ap (λ ks. capped (alive_count m) ∷ ks) lens,
      )

  -- If chunks have replicas, the allocation for a batch of chunks returns, and gives each chunk as
  -- many DataNodes as there are alive, up to the number of replicas.
  pub batch_allocate_data_nodes-lengths :
      (chunk_num : ℕ) (m : DataNodeMap S)
      → 0 < c.replica_num
      → (nodes : List (List (DataNode S))) × (batch_allocate_data_nodes chunk_num m ≡ ok nodes)
        × (map length nodes ≡ replicate chunk_num (capped (alive_count m)))
  unfolding batch_allocate_data_nodes
  batch_allocate_data_nodes-lengths chunk_num m pos = batch_allocate_from-lengths chunk_num m [] pos

  adjust4batch-nil :
      (node : DataNode S) (h : List (DataNode S)) → adjust4batch node [] h ≡ adjust node h
  unfolding adjust4batch adjust node_usage GoMap.lookup
  adjust4batch-nil node h = refl

  fill_heap-nil : (m : DataNodeMap S) (h : List (DataNode S)) → fill_heap m [] h ≡ adjust_alive m h
  unfolding fill_heap adjust_alive
  fill_heap-nil [] h = refl
  fill_heap-nil ((id, node) ∷ m) h = elim (Bool-cases (node.status == c.alive)) [
    | inr not_alive ↦ rw (not_alive, fill_heap, adjust_alive) (fill_heap-nil m h)
    | inl lives ↦
        rw (lives, fill_heap, adjust_alive, adjust4batch-nil node h)
          (elim (Result-cases (adjust node h)) [
            | inl (h', adjusted) ↦ rw (adjusted) (fill_heap-nil m h')
            | inr (inl (x, fails)) ↦ rw (fails) refl
            | inr (inr panics) ↦ rw (panics) refl
          ])
  ]

  -- A batch of one chunk gets the DataNodes that AllocateDataNodes chooses.
  pub batch_allocate_data_nodes-one :
      (m : DataNodeMap S)
      → batch_allocate_data_nodes 1 m ≡ (allocate_data_nodes m >>= λ nodes. ok (nodes ∷ []))
  unfolding batch_allocate_data_nodes batch_allocate_from allocate_data_nodes
  batch_allocate_data_nodes-one m = elim (Result-cases (adjust_alive m [])) [
    | inl (h, done) ↦ rw (fill_heap-nil m [], done) refl
    | inr (inl (x, fails)) ↦ rw (fill_heap-nil m [], fails) refl
    | inr (inr panics) ↦ rw (fill_heap-nil m [], panics) refl
  ]
