-- ===== src/Batch/Rows.antt =====
-- The table of getStoreState of internal/chunk.go, for chunks that exist.
use tinydfs_master.Base.{
  ℕ, suc, ◌+◌, ◌≡◌, ◌<◌, ◌⊎◌, refl, sym, ap, subst, ◌∙◌, true, false, List, [], ◌∷◌, ◌==◌, nat_eq,
  nat_list_eq, length, length-set, get_elem?-some, set, replicate, GoString, ok, arith, Bool-cases,
  Option-cases, inl, inr,
}
use tinydfs_master.Base.GoMap
use tinydfs_master.Base.GoMap.{lookup, lookup-insert}
use tinydfs_master.External.{Common, StringSet}
use tinydfs_master.Chunks.{ChunksMap, lacks_replica, batch_filter_chunk}
use tinydfs_master.Chunks.Plan.{Row, index_of, mark_stored, get_store_state}
use tinydfs_master.Chunks.Plan.Bounds.{length-replicate}
use tinydfs_master.Chunks.Plan.Applied.{AllKnown}

index_of-bound :
    (i : ℕ) (ids : List GoString) (id : GoString)
    → (index_of i ids id ≡ 0) ⊎ (index_of i ids id < i + length ids)
unfolding index_of
index_of-bound i [] id = inl refl
index_of-bound i (x ∷ ids) id = elim (Bool-cases (x == id)) [
  | inl same ↦ inr (rw (same, index_of) (omega arith))
  | inr other ↦ elim (index_of-bound (suc i) ids id) [
    | inl e ↦ inl (rw (other, index_of) e)
    | inr lt ↦ inr (rw (other, index_of) (omega (arith, lt)))
  ]
]

index_of-lt :
    (first : GoString) (rest : List GoString) (id : GoString)
    → index_of 0 (first ∷ rest) id < length (first ∷ rest)
index_of-lt first rest id = elim (index_of-bound 0 (first ∷ rest) id) [
  | inl e ↦ omega (arith, e)
  | inr lt ↦ omega (arith, lt)
]

mark_stored-returns :
    (first : GoString) (rest ids : List GoString) (row : Row)
    → length row ≡ length (first ∷ rest)
    → (row' : Row) × (mark_stored (first ∷ rest) ids row ≡ ok row')
      × (length row' ≡ length (first ∷ rest))
unfolding mark_stored
mark_stored-returns first rest [] row same = (row, refl, same)
mark_stored-returns first rest (id ∷ ids) row same =
    let i = index_of 0 (first ∷ rest) id in
    let (cell, at) =
      get_elem?-some row i (subst (λ n. i < n) (sym same) (index_of-lt first rest id)) in
    let (row', done, kept) =
      mark_stored-returns first rest ids (set row i true) (length-set row i true ∙ same) in
    (row', rw (mark_stored, at) done, kept)

module _ {S : Type 0} ⦃c : Common⦄ ⦃s : StringSet S⦄ where
  pub get_store_state-returns :
      (chunk_ids : List GoString) (first : GoString) (rest : List GoString) (m : ChunksMap S)
      → AllKnown chunk_ids m
      → (is_store : List Row) × (get_store_state chunk_ids (first ∷ rest) m ≡ ok is_store)
        × (length is_store ≡ length chunk_ids)
  unfolding get_store_state
  get_store_state-returns [] first rest m known = ([], refl, refl)
  get_store_state-returns (id ∷ ids) first rest m ((chunk, there), known) =
      let (stored, e, same) =
        mark_stored-returns first rest (s.to_slice chunk.data_nodes)
          (replicate (length (first ∷ rest)) false)
          (length-replicate (length (first ∷ rest)) false) in
      let (row, e', _) =
        mark_stored-returns first rest (s.to_slice chunk.pending_data_nodes) stored same in
      let (rows, e'', len) = get_store_state-returns ids first rest m known in
      (row ∷ rows, rw (get_store_state, there, e, e', e'') refl, ap suc len)

  pub batch_filter_chunk-AllKnown :
      (ids : List GoString) (m : ChunksMap S) → AllKnown (batch_filter_chunk ids m) m
  unfolding batch_filter_chunk lacks_replica
  batch_filter_chunk-AllKnown [] m = tt
  batch_filter_chunk-AllKnown (id ∷ ids) m = elim (Option-cases (GoMap.lookup id m)) [
    | inl absent ↦
        rw (batch_filter_chunk, lacks_replica, absent) (batch_filter_chunk-AllKnown ids m)
    | inr (chunk, there) ↦ elim (Bool-cases (lacks_replica m id)) [
      | inl lacks ↦
          rw (lacks, batch_filter_chunk) ((chunk, there), batch_filter_chunk-AllKnown ids m)
      | inr full ↦ rw (full, batch_filter_chunk) (batch_filter_chunk-AllKnown ids m)
    ]
  ]
