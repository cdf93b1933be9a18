-- ===== src/Chunks/Plan/Applied.antt =====
-- A plan within its bounds applies without a panic: BatchApplyPlan2Chunk of internal/chunk.go.
use tinydfs_master.Base.{
  ℕ, zero, suc, ◌+◌, ◌≡◌, ◌≤◌, refl, ◌∙◌, some, List, [], ◌∷◌, ◌==◌, nat_list_eq, length, get_elem?,
  get_elem?-some, GoString, ok, arith, Bool-cases, inl, inr,
}
use tinydfs_master.Base.GoMap
use tinydfs_master.Base.GoMap.{lookup, lookup-insert}
use tinydfs_master.External.{Common, StringSet}
use tinydfs_master.State.{Chunk}
use tinydfs_master.Chunks.{ChunksMap, add_pending, apply_plan2_chunk_from, batch_apply_plan2_chunk}
use tinydfs_master.Chunks.Plan.Bounds.{AllBelow, allocate_chunks_dfs-Fits}
use tinydfs_master.Chunks.Plan.{Row, allocate_chunks_dfs}

module _ {S : Type 0} ⦃c : Common⦄ ⦃s : StringSet S⦄ where
  -- Every one of these chunks exists.
  abbrev pub AllKnown : List GoString → ChunksMap S → Type 0
  AllKnown [] m = Unit {0}
  AllKnown (id ∷ ids) m = ((chunk : Chunk S) × (lookup id m ≡ some chunk)) × AllKnown ids m

  AllKnown-at :
      (ids : List GoString) (m : ChunksMap S) (i : ℕ) (id : GoString)
      → AllKnown ids m
      → get_elem? ids i ≡ some id
      → (chunk : Chunk S) × (lookup id m ≡ some chunk)
  AllKnown-at [] m i id known at = absurd (ground arith)
  AllKnown-at (other ∷ ids) m zero id (here, known) at = (here.0, ground (arith, here.1, at))
  AllKnown-at (other ∷ ids) m (suc i) id (here, known) at = AllKnown-at ids m i id known at

  AllKnown-insert :
      (ids : List GoString) (m : ChunksMap S) (j : GoString) (chunk : Chunk S)
      → AllKnown ids m
      → AllKnown ids (GoMap.insert j chunk m)
  AllKnown-insert [] m j chunk known = tt
  AllKnown-insert (id ∷ ids) m j chunk (here, known) = (
    elim (Bool-cases (j == id)) [
      | inl same ↦ (chunk, ground (arith, same, lookup-insert id j chunk m))
      | inr other ↦ (here.0, ground (arith, other, here.1, lookup-insert id j chunk m))
    ],
    AllKnown-insert ids m j chunk known,
  )

  apply_plan2-returns :
      (i : ℕ) (plan : List ℕ) (chunk_ids data_node_ids : List GoString) (m : ChunksMap S)
      → i + length plan ≤ length chunk_ids
      → AllBelow (length data_node_ids) plan
      → AllKnown chunk_ids m
      → (m' : ChunksMap S) × (apply_plan2_chunk_from i plan chunk_ids data_node_ids m ≡ ok m')
  unfolding apply_plan2_chunk_from
  apply_plan2-returns i [] chunk_ids data_node_ids m le below known = (m, refl)
  apply_plan2-returns i (dn ∷ plan) chunk_ids data_node_ids m le (lt, below) known =
      let (id, at_id) = get_elem?-some chunk_ids i (omega arith) in
      let (node_id, at_node) = get_elem?-some data_node_ids dn lt in
      let (chunk, present) = AllKnown-at chunk_ids m i id known at_id in
      let planned = GoMap.insert id (add_pending node_id chunk) m in
      let (m', done) =
        apply_plan2-returns (i + 1) plan chunk_ids data_node_ids planned (omega arith) below
          (AllKnown-insert chunk_ids m id (add_pending node_id chunk) known) in
      (m', rw (apply_plan2_chunk_from, at_id, present, at_node) done)

  -- A plan that gives each of the chunks, which all exist, the position of a DataNode is applied
  -- to the chunks without a panic.
  pub batch_apply_plan2_chunk-returns :
      (plan : List ℕ) (chunk_ids data_node_ids : List GoString) (m : ChunksMap S)
      → length plan ≡ length chunk_ids
      → AllBelow (length data_node_ids) plan
      → AllKnown chunk_ids m
      → (m' : ChunksMap S) × (batch_apply_plan2_chunk plan chunk_ids data_node_ids m ≡ ok m')
  unfolding batch_apply_plan2_chunk
  batch_apply_plan2_chunk-returns plan chunk_ids data_node_ids m same below known =
      apply_plan2-returns 0 plan chunk_ids data_node_ids m (omega arith) below known

  -- For chunks that exist, each with a row, and at least one DataNode, the planner returns a plan
  -- for these rows, and BatchApplyPlan2Chunk applies that plan without a panic.
  pub planned-applies :
      (is_store : List Row) (chunk_ids : List GoString) (id : GoString) (ids : List GoString)
      (m : ChunksMap S)
      → length is_store ≡ length chunk_ids
      → AllKnown chunk_ids m
      → (plan : List ℕ) × (m' : ChunksMap S) × (allocate_chunks_dfs (length (id ∷ ids)) is_store
          ≡ ok plan)
        × (batch_apply_plan2_chunk plan chunk_ids (id ∷ ids) m ≡ ok m')
  planned-applies is_store chunk_ids id ids m same known =
      let (plan, found, fits) = allocate_chunks_dfs-Fits (length ids) is_store in
      let (m', done) =
        batch_apply_plan2_chunk-returns plan chunk_ids (id ∷ ids) m (fits.0 ∙ same) fits.1 known in
      (plan, m', found, done)
