-- ===== src/Snapshot/DataNodes.antt =====
-- internal/datanode.go: DataNode.String, PersistDataNodes and RestoreDataNodes.
use tinydfs_master.Base.{
  ℕ, List, [], ◌∷◌, ◌++◌, map, ◌==◌, nat_list_eq, if◌then◌else◌, get_elem?, GoString, Result, ok,
  ◌>>=◌, deref,
}
use tinydfs_master.Base.Strings.{split, itoa}
use tinydfs_master.Base.GoMap
use tinydfs_master.External.{StringSet}
use tinydfs_master.State.{ChunkSendInfo, chunk_send_info_eq, DataNode}
use tinydfs_master.DataNodes.{DataNodeMap, SendPlan}
use tinydfs_master.Operations.{set_of}
use tinydfs_master.Snapshot.Text.{SnapshotText, intercalate, bracketed, inside, atoi}

-- `%s@%s@%v@%v`
unfoldable pub send_string : ChunkSendInfo × ℕ → GoString
unfolding intercalate
send_string (info, state) =
    intercalate b'@' (info.chunk_id ∷ info.data_node_id ∷ itoa info.send_type ∷ itoa state ∷ [])

-- `fsChunks[0] = ...`, if there is a first place.
unfoldable pub set_first : GoString → List GoString → List GoString
set_first text [] = []
set_first text (_ ∷ places) = text ∷ places

-- The loop over FutureSendChunks, whose index stays 0: the last that is met stands in the first
-- place, and the others are empty.
unfoldable pub write_sends : SendPlan → List GoString → List GoString
unfolding send_string set_first
write_sends [] places = places
write_sends (entry ∷ plan) places = write_sends plan (set_first (send_string entry) places)

-- The loop over `strings.Split(fsChunksData, " ")`; a part that is missing is a panic.
unfoldable pub read_sends : List GoString → SendPlan → Result SendPlan
unfolding atoi
read_sends [] plan = ok plan
read_sends (piece ∷ pieces) plan = do
  let parts = split b'@' piece
  send_type ← deref (get_elem? parts 2)
  state ← deref (get_elem? parts 3)
  chunk_id ← deref (get_elem? parts 0)
  data_node_id ← deref (get_elem? parts 1)
  let info : ChunkSendInfo = record {
    chunk_id = chunk_id;
    data_node_id = data_node_id;
    send_type = atoi send_type;
  }
  read_sends pieces (GoMap.insert info (atoi state) plan)

module _ {S : Type 0} ⦃s : StringSet S⦄ where
  -- DataNode.String, without the line feed at its end.
  unfoldable pub data_node_line : SnapshotText → DataNode S → GoString
  unfolding intercalate bracketed write_sends
  data_node_line text node = intercalate b'$' (
      node.id
      ∷ itoa node.status
      ∷ node.address
      ∷ bracketed (s.to_slice node.chunks)
      ∷ itoa node.io_load
      ∷ itoa node.full_capacity
      ∷ itoa node.used_capacity
      ∷ bracketed (write_sends node.future_send_chunks (map (λ _. []) node.future_send_chunks))
      ∷ text.format_time node.heartbeat_time
      ∷ [])

  unfoldable pub data_node_string : SnapshotText → DataNode S → GoString
  unfolding data_node_line
  data_node_string text node = data_node_line text node ++ b'\n' ∷ []

  -- What PersistDataNodes writes to a sink that takes everything.
  unfoldable pub persist_data_nodes : SnapshotText → DataNodeMap S → GoString
  unfolding data_node_string
  persist_data_nodes text [] = text.snapshot_delimiter
  persist_data_nodes text ((_, node) ∷ m) = data_node_string text node ++ persist_data_nodes text m

  -- One line, with the set of chunks so far, which all DataNodes that are read point to. What is
  -- to be sent is read from the column of the chunks.
  unfoldable pub read_data_node : SnapshotText → GoString → S → Result (DataNode S)
  unfolding inside set_of atoi read_sends
  read_data_node text line chunks = do
    let fields = split b'$' line
    chunks_data ← deref (get_elem? fields 3)
    chunk_ids ← inside chunks_data
    heartbeat ← deref (get_elem? fields 8)
    status ← deref (get_elem? fields 1)
    io_load ← deref (get_elem? fields 4)
    full_capacity ← deref (get_elem? fields 5)
    used_capacity ← deref (get_elem? fields 6)
    _ ← deref (get_elem? fields 7)
    plan ← read_sends (split b' ' chunk_ids) []
    id ← deref (get_elem? fields 0)
    address ← deref (get_elem? fields 2)
    ok (record {
      id = id;
      status = atoi status;
      address = address;
      chunks = set_of (split b' ' chunk_ids) chunks;
      io_load = atoi io_load;
      full_capacity = atoi full_capacity;
      used_capacity = atoi used_capacity;
      future_send_chunks = plan;
      heartbeat_time = text.parse_time heartbeat;
    })

  -- The loop: the DataNodes that are read, the set at its end, and the lines that are left.
  unfoldable pub read_data_nodes :
      SnapshotText → List GoString → S → DataNodeMap S → Result (DataNodeMap S × S × List GoString)
  unfolding read_data_node
  read_data_nodes text [] chunks nodes = ok (nodes, chunks, [])
  read_data_nodes text (line ∷ lines) chunks nodes =
      let rest : Result (DataNodeMap S × S × List GoString) = (do
        node ← read_data_node text line chunks
        read_data_nodes text lines node.chunks (GoMap.insert node.id node nodes)) in
      if line == text.snapshot_delimiter then ok (nodes, chunks, lines) else rest

  unfoldable pub add_read : S → DataNodeMap S → DataNodeMap S → DataNodeMap S
  add_read chunks [] m = m
  add_read chunks ((id, node) ∷ nodes) m =
      add_read chunks nodes (GoMap.insert id (record node { chunks = chunks }) m)

  -- RestoreDataNodes: `dataNodeMap`, which is not emptied before, and the lines that are left.
  unfoldable pub restore_data_nodes :
      SnapshotText → List GoString → DataNodeMap S → Result (DataNodeMap S × List GoString)
  unfolding read_data_nodes add_read
  restore_data_nodes text lines m = do
    (nodes, chunks, left) ← read_data_nodes text lines s.new_set []
    ok (add_read chunks nodes m, left)
