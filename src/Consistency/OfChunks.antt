-- ===== src/Consistency/OfChunks.antt =====
-- What the operations of internal/chunk.go do to the replicas that a chunk counts.
use tinydfs_master.Base.{
  ◌≡◌, ◌≢◌, refl, ap, ◌∙◌, ◌⊎◌, ◌&&◌, true, false, Option, none, some, List, [], ◌∷◌, ◌==◌, nat_eq,
  nat_list_eq, if◌then◌else◌, contains, GoString, arith, Option-cases, inl, inr,
}
use tinydfs_master.Base.GoMap
use tinydfs_master.Base.GoMap.{lookup, lookup-insert, lookup-modify, map_option}
use tinydfs_master.External.{Common, StringSet, StringQueue}
use tinydfs_master.State.{Chunk, ChunkSendInfo, ChunkTaskResult, Master}
use tinydfs_master.Chunks.{
  ChunksMap, remove_data_node, add_data_node, add_data_nodes, remove_pending, clear_pending,
  batch_clear_data_node, clear_pending_data_nodes, batch_clear_pending_data_nodes,
  update_pending_data_nodes, batch_update_pending_data_nodes, receive, chunk_sent, chunks_not_sent,
  drop_invalid_chunk, drop_invalid_chunks,
}
use tinydfs_master.Consistency.{counts, counts_in}

module _ {S : Type 0} ⦃s : StringSet S⦄ where
  counts_in-same :
      (f : Chunk S → Chunk S) (n : GoString) (o : Option (Chunk S))
      → ((chunk : Chunk S) → (f chunk).data_nodes ≡ chunk.data_nodes)
      → counts_in (map_option f o) n ≡ counts_in o n
  counts_in-same f n none same = refl
  counts_in-same f n (some chunk) same = ap (λ x. s.member x n) (same chunk)

  -- A change of one chunk that leaves its replicas alone.
  pub counts-modify_same :
      (m : ChunksMap S) (i : GoString) (f : Chunk S → Chunk S) (k n : GoString)
      → ((chunk : Chunk S) → (f chunk).data_nodes ≡ chunk.data_nodes)
      → counts (GoMap.modify i f m) k n ≡ counts m k n
  counts-modify_same m i f k n same =
      ground (arith, lookup-modify k i f m, counts_in-same f n (lookup k m) same)

  counts_in-remove :
      (id n : GoString) (o : Option (Chunk S))
      → counts_in (map_option (remove_data_node id) o) n
        ≡ (if id == n then false else counts_in o n)
  unfolding remove_data_node
  counts_in-remove id n none = ground arith
  counts_in-remove id n (some chunk) = s.member-remove chunk.data_nodes id n

  pub counts-modify_remove :
      (m : ChunksMap S) (i id k n : GoString)
      → counts (GoMap.modify i (remove_data_node id) m) k n
        ≡ (if i == k && id == n then false else counts m k n)
  counts-modify_remove m i id k n =
      ground (
        arith,
        lookup-modify k i (remove_data_node {S = S} id) m,
        counts_in-remove id n (lookup k m),
      )

  pub counts-batch_clear_data_node :
      (ids : List GoString) (id : GoString) (m : ChunksMap S) (k n : GoString)
      → counts (batch_clear_data_node ids id m) k n
        ≡ (if contains ids k && id == n then false else counts m k n)
  unfolding batch_clear_data_node
  counts-batch_clear_data_node [] id m k n = refl
  counts-batch_clear_data_node (i ∷ ids) id m k n = ground (
    arith,
    counts-batch_clear_data_node ids id (GoMap.modify i (remove_data_node id) m) k n,
    counts-modify_remove m i id k n,
  )

  pub member-add_data_nodes :
      (ids : List GoString) (chunk : Chunk S) (n : GoString)
      → s.member (add_data_nodes ids chunk).data_nodes n
        ≡ (if contains ids n then true else s.member chunk.data_nodes n)
  unfolding add_data_nodes
  member-add_data_nodes [] chunk n = refl
  member-add_data_nodes (id ∷ ids) chunk n = ground (
    arith,
    member-add_data_nodes ids (add_data_node id chunk) n,
    s.member-add chunk.data_nodes id n,
  )

  pub counts-chunks_not_sent :
      (infos : List ChunkSendInfo) (m : ChunksMap S) (k n : GoString)
      → counts (chunks_not_sent infos m) k n ≡ counts m k n
  unfolding chunks_not_sent
  counts-chunks_not_sent [] m k n = refl
  counts-chunks_not_sent (info ∷ infos) m k n =
      counts-chunks_not_sent infos (GoMap.modify info.chunk_id (remove_pending info.data_node_id) m)
        k n
      ∙ counts-modify_same m info.chunk_id (remove_pending info.data_node_id) k n (λ _. refl)

module _ {S Q : Type 0} ⦃s : StringSet S⦄ ⦃q : StringQueue Q⦄ where
  -- One round of BatchUpdatePendingDataNodes adds the successful DataNodes to the chunk.
  pub counts-update_pending_data_nodes :
      (info : ChunkTaskResult) (m : Master S Q) (k n : GoString)
      → counts (update_pending_data_nodes info m).chunks_map k n ≡ true
      → (counts m.chunks_map k n ≡ true)
        ⊎ ((info.chunk_id ≡ k) × (contains info.success_data_nodes n ≡ true))
  unfolding update_pending_data_nodes
  counts-update_pending_data_nodes info m k n e =
      elim (Option-cases (lookup info.chunk_id m.chunks_map)) [
        | inl absent ↦ ground (arith, absent)
        | inr (chunk, present) ↦ ground (
          arith,
          present,
          member-add_data_nodes info.success_data_nodes chunk n,
          lookup-insert k info.chunk_id
              (clear_pending (add_data_nodes info.success_data_nodes chunk)) m.chunks_map,
        )
      ]

  pub data_node_map-batch_update :
      (infos : List ChunkTaskResult) (m : Master S Q)
      → (batch_update_pending_data_nodes infos m).data_node_map ≡ m.data_node_map
  unfolding batch_update_pending_data_nodes
  data_node_map-batch_update [] m = refl
  data_node_map-batch_update (info ∷ infos) m =
      data_node_map-batch_update infos (update_pending_data_nodes info m) ∙ ground arith

  counts-clear_pending :
      (id : GoString) (m : Master S Q) (k n : GoString)
      → (counts (clear_pending_data_nodes id m).chunks_map k n ≡ counts m.chunks_map k n)
        × ((clear_pending_data_nodes id m).data_node_map ≡ m.data_node_map)
  unfolding clear_pending_data_nodes clear_pending
  counts-clear_pending id m k n = elim (Option-cases (lookup id m.chunks_map)) [
    | inl absent ↦ rw (absent, clear_pending_data_nodes) (refl, refl)
    | inr (chunk, present) ↦ (
      ground (arith, present, lookup-insert k id (clear_pending chunk) m.chunks_map),
      ground (arith, present),
    )
  ]

  -- BatchClearPendingDataNodes touches no replica.
  pub counts-batch_clear_pending :
      (ids : List GoString) (m : Master S Q) (k n : GoString)
      → (counts (batch_clear_pending_data_nodes ids m).chunks_map k n ≡ counts m.chunks_map k n)
        × ((batch_clear_pending_data_nodes ids m).data_node_map ≡ m.data_node_map)
  unfolding batch_clear_pending_data_nodes
  counts-batch_clear_pending [] m k n = (refl, refl)
  counts-batch_clear_pending (id ∷ ids) m k n =
      let one = counts-clear_pending id m k n in
      let rest = counts-batch_clear_pending ids (clear_pending_data_nodes id m) k n in
      (rest.0 ∙ one.0, rest.1 ∙ one.1)

  counts-drop_invalid_chunk :
      (id i : GoString) (m : Master S Q) (k n : GoString)
      → counts (drop_invalid_chunk id i m).chunks_map k n
        ≡ (if i == k && id == n then false else counts m.chunks_map k n)
  unfolding drop_invalid_chunk
  counts-drop_invalid_chunk id i m k n = elim (Option-cases (lookup i m.chunks_map)) [
    | inl absent ↦ ground (arith, absent)
    | inr (chunk, present) ↦ ground (
      arith,
      present,
      lookup-insert k i (remove_data_node id chunk) m.chunks_map,
      counts_in-remove id n (some chunk),
    )
  ]

  pub counts-drop_invalid_chunks :
      (id : GoString) (ids : List GoString) (m : Master S Q) (k n : GoString)
      → counts (drop_invalid_chunks id ids m).chunks_map k n
        ≡ (if contains ids k && id == n then false else counts m.chunks_map k n)
  unfolding drop_invalid_chunks
  counts-drop_invalid_chunks id [] m k n = refl
  counts-drop_invalid_chunks id (i ∷ ids) m k n = ground (
    arith,
    counts-drop_invalid_chunks id ids (drop_invalid_chunk id i m) k n,
    counts-drop_invalid_chunk id i m k n,
  )

  pub data_node_map-drop_invalid :
      (id : GoString) (ids : List GoString) (m : Master S Q)
      → (drop_invalid_chunks id ids m).data_node_map ≡ m.data_node_map
  unfolding drop_invalid_chunks
  data_node_map-drop_invalid id [] m = refl
  data_node_map-drop_invalid id (i ∷ ids) m =
      data_node_map-drop_invalid id ids (drop_invalid_chunk id i m) ∙ ground arith

module _ {S : Type 0} ⦃c : Common⦄ ⦃s : StringSet S⦄ where
  counts_in-receive :
      (sender : GoString) (info : ChunkSendInfo) (n : GoString) (o : Option (Chunk S))
      → counts_in (map_option (receive sender info) o) n ≡ true
      → (counts_in o n ≡ true ⊎ (info.data_node_id ≡ n))
        × (info.send_type ≡ c.move_send_type → n ≢ sender)
  unfolding receive
  counts_in-receive sender info n none e = absurd (ground arith)
  counts_in-receive sender info n (some chunk) e =
      let added = s.add chunk.data_nodes info.data_node_id in
      let after_add = s.member-add chunk.data_nodes info.data_node_id n in
      let after_remove = s.member-remove added sender n in
      (
        ground (arith, e, after_add, after_remove),
        λ moved same. ground (arith, e, after_add, after_remove),
      )

  -- A chunk that has been sent counts its receiver, and after a move no longer its sender.
  pub counts-chunk_sent :
      (sender : GoString) (info : ChunkSendInfo) (m : ChunksMap S) (k n : GoString)
      → counts (chunk_sent sender info m) k n ≡ true
      → (counts m k n ≡ true ⊎ ((info.chunk_id ≡ k) × (info.data_node_id ≡ n)))
        × (info.chunk_id ≡ k → info.send_type ≡ c.move_send_type → n ≢ sender)
  unfolding chunk_sent
  counts-chunk_sent sender info m k n e = ground (
    arith,
    lookup-modify k info.chunk_id (receive {S = S} sender info) m,
    counts_in-receive sender info n (lookup k m),
  )
