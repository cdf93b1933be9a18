-- ===== src/Consistency/OfNodes.antt =====
-- What the operations of internal/datanode.go do to the chunks that a DataNode stores.
use tinydfs_master.Base.{
  ◌≡◌, ◌≢◌, refl, ap, ◌⊎◌, not, ◌&&◌, true, false, Option, none, some, List, [], ◌∷◌, ◌==◌, nat_eq,
  nat_list_eq, if◌then◌else◌, contains, GoString, arith, inl,
}
use tinydfs_master.Base.GoMap
use tinydfs_master.Base.GoMap.{lookup, lookup-modify, map_option}
use tinydfs_master.External.{Common, StringSet}
use tinydfs_master.State.{ChunkSendInfo, DataNode}
use tinydfs_master.DataNodes.{
  DataNodeMap, store_chunk, drop_chunk, drop_chunks, unplan_send, unplan_sends, leaves_sender,
  send_done, node_sent,
}
use tinydfs_master.DataNodes.Selection.{store_on}
use tinydfs_master.Consistency.{lacks, lacks_in}

module _ {S : Type 0} ⦃s : StringSet S⦄ where
  lacks_in-same :
      (f : DataNode S → DataNode S) (k : GoString) (o : Option (DataNode S))
      → ((node : DataNode S) → (f node).chunks ≡ node.chunks)
      → lacks_in (map_option f o) k ≡ lacks_in o k
  lacks_in-same f k none same = refl
  lacks_in-same f k (some node) same = ap (λ x. not (s.member x k)) (same node)

  -- A change of one DataNode that leaves its chunks alone.
  pub lacks-modify_same :
      (m : DataNodeMap S) (i : GoString) (f : DataNode S → DataNode S) (n k : GoString)
      → ((node : DataNode S) → (f node).chunks ≡ node.chunks)
      → lacks (GoMap.modify i f m) n k ≡ lacks m n k
  lacks-modify_same m i f n k same =
      ground (arith, lookup-modify n i f m, lacks_in-same f k (lookup n m) same)

  lacks_in-store_chunk :
      (id k : GoString) (o : Option (DataNode S))
      → lacks_in (map_option (store_chunk id) o) k ≡ (if id == k then false else lacks_in o k)
  unfolding store_chunk
  lacks_in-store_chunk id k none = ground arith
  lacks_in-store_chunk id k (some node) = ground (arith, s.member-add node.chunks id k)

  lacks-modify_store :
      (m : DataNodeMap S) (i id n k : GoString)
      → lacks (GoMap.modify i (store_chunk id) m) n k
        ≡ (if i == n && id == k then false else lacks m n k)
  lacks-modify_store m i id n k =
      ground (
        arith,
        lookup-modify n i (store_chunk {S = S} id) m,
        lacks_in-store_chunk id k (lookup n m),
      )

  pub lacks-store_on :
      (id : GoString) (ids : List GoString) (m : DataNodeMap S) (n k : GoString)
      → lacks (store_on id ids m) n k ≡ (if id == k && contains ids n then false else lacks m n k)
  unfolding store_on
  lacks-store_on id [] m n k = ground arith
  lacks-store_on id (i ∷ ids) m n k = ground (
    arith,
    lacks-store_on id ids (GoMap.modify i (store_chunk id) m) n k,
    lacks-modify_store m i id n k,
  )

  member-drop_chunks :
      (ids : List GoString) (node : DataNode S) (k : GoString)
      → s.member (drop_chunks ids node).chunks k
        ≡ (if contains ids k then false else s.member node.chunks k)
  unfolding drop_chunks
  member-drop_chunks [] node k = refl
  member-drop_chunks (id ∷ ids) node k =
      ground
        (arith, member-drop_chunks ids (drop_chunk id node) k, s.member-remove node.chunks id k)

  lacks_in-drop_chunks :
      (ids : List GoString) (k : GoString) (o : Option (DataNode S))
      → lacks_in (map_option (drop_chunks ids) o) k ≡ true
      → (lacks_in o k ≡ true) ⊎ (contains ids k ≡ true)
  lacks_in-drop_chunks ids k none e = inl e
  lacks_in-drop_chunks ids k (some node) e = ground (arith, member-drop_chunks ids node k)

  -- Dropping chunks makes one DataNode lack those.
  pub lacks-modify_drop :
      (m : DataNodeMap S) (i : GoString) (ids : List GoString) (n k : GoString)
      → lacks (GoMap.modify i (drop_chunks ids) m) n k ≡ true
      → (lacks m n k ≡ true) ⊎ ((i ≡ n) × (contains ids k ≡ true))
  lacks-modify_drop m i ids n k e = ground (
    arith,
    lookup-modify n i (drop_chunks {S = S} ids) m,
    lacks_in-drop_chunks ids k (lookup n m),
  )

  pub chunks-unplan_sends :
      (infos : List ChunkSendInfo) (node : DataNode S)
      → (unplan_sends infos node).chunks ≡ node.chunks
  unfolding unplan_sends
  chunks-unplan_sends [] node = refl
  chunks-unplan_sends (info ∷ infos) node = chunks-unplan_sends infos (unplan_send info node)

module _ {S : Type 0} ⦃c : Common⦄ ⦃s : StringSet S⦄ where
  lacks_in-send_done :
      (info : ChunkSendInfo) (k : GoString) (o : Option (DataNode S))
      → lacks_in (map_option (send_done info) o) k ≡ true
      → (lacks_in o k ≡ true) ⊎ ((info.chunk_id ≡ k) × (leaves_sender info ≡ true))
  unfolding send_done
  lacks_in-send_done info k none e = inl e
  lacks_in-send_done info k (some node) e =
      ground (arith, s.member-remove node.chunks info.chunk_id k)

  -- A DataNode that lacks a chunk after a report lacked it before or has just sent it away, and
  -- is not the one that received it.
  pub lacks-node_sent :
      (sender : GoString) (info : ChunkSendInfo) (m : DataNodeMap S) (n k : GoString)
      → lacks (node_sent sender info m) n k ≡ true
      → ((lacks m n k ≡ true) ⊎ ((info.chunk_id ≡ k) × (leaves_sender info ≡ true) × (sender ≡ n)))
        × (info.chunk_id ≡ k → info.data_node_id ≢ n)
  unfolding node_sent
  lacks-node_sent sender info m n k e =
      let m₁ = GoMap.modify sender (send_done info) m in
      let stored = lacks-modify_store m₁ info.data_node_id info.chunk_id n k in
      (
        ground (
          arith,
          stored,
          lookup-modify n sender (send_done {S = S} info) m,
          lacks_in-send_done info k (lookup n m),
        ),
        λ here there. ground (arith, stored),
      )
