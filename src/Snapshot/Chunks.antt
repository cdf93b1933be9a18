-- ===== src/Snapshot/Chunks.antt =====
-- internal/chunk.go: Chunk.String, PersistChunks, RestoreChunks and the snapshot of the queue.
use tinydfs_master.Base.{
  List, [], ◌∷◌, ◌++◌, map, ◌==◌, nat_list_eq, if◌then◌else◌, get_elem?, GoString, Result, ok,
  ◌>>=◌, deref,
}
use tinydfs_master.Base.Strings.{split, trim}
use tinydfs_master.Base.GoMap
use tinydfs_master.External.{StringSet, StringQueue}
use tinydfs_master.State.{Chunk}
use tinydfs_master.Chunks.{ChunksMap, push_all}
use tinydfs_master.Operations.{set_of}
use tinydfs_master.Snapshot.Text.{SnapshotText, intercalate, bracketed, inside}

-- What the loop of RestoreChunks has read: its two sets, which every chunk points to, the
-- identifiers, and the lines that are left.
pub record ChunksRead (S : Type 0) : Type 0 where
  pub data_nodes : S
  pub pending_data_nodes : S
  pub ids : GoMap.GoMap GoString (Unit {0})
  pub left : List GoString

module _ {S : Type 0} ⦃s : StringSet S⦄ where
  -- Chunk.String, without the line feed at its end.
  unfoldable pub chunk_line : Chunk S → GoString
  unfolding intercalate bracketed
  chunk_line chunk = intercalate b'$' (
      chunk.id
      ∷ bracketed (s.to_slice chunk.data_nodes)
      ∷ bracketed (s.to_slice chunk.pending_data_nodes)
      ∷ [])

  unfoldable pub chunk_string : Chunk S → GoString
  unfolding chunk_line
  chunk_string chunk = chunk_line chunk ++ b'\n' ∷ []

  -- What PersistChunks writes to a sink that takes everything.
  unfoldable pub persist_chunks : SnapshotText → ChunksMap S → GoString
  unfolding chunk_string
  persist_chunks text [] = text.snapshot_delimiter
  persist_chunks text ((_, chunk) ∷ m) = chunk_string chunk ++ persist_chunks text m

  -- A column that is missing is a panic, and so is one without brackets.
  unfoldable pub read_chunks :
      SnapshotText → List GoString → S → S → GoMap.GoMap GoString (Unit {0}) → Result (ChunksRead S)
  unfolding set_of inside
  read_chunks text [] data_nodes pending_data_nodes ids = ok (record {
    data_nodes = data_nodes;
    pending_data_nodes = pending_data_nodes;
    ids = ids;
    left = [];
  })
  read_chunks text (line ∷ lines) data_nodes pending_data_nodes ids =
      let fields = split b'$' line in
      let rest : Result (ChunksRead S) = (do
        data_nodes_data ← deref (get_elem? fields 1)
        data_node_ids ← inside data_nodes_data
        pending_data ← deref (get_elem? fields 2)
        pending_ids ← inside pending_data
        id ← deref (get_elem? fields 0)
        read_chunks text lines (set_of (split b' ' data_node_ids) data_nodes)
            (set_of (split b' ' pending_ids) pending_data_nodes) (GoMap.insert id tt ids)) in
      if line == text.snapshot_delimiter
      then ok (record {
        data_nodes = data_nodes;
        pending_data_nodes = pending_data_nodes;
        ids = ids;
        left = lines;
      })
      else rest

  abbrev pub shared_chunk : S → S → GoString → Chunk S
  shared_chunk data_nodes pending_data_nodes id = record {
    id = id;
    data_nodes = data_nodes;
    pending_data_nodes = pending_data_nodes;
  }

  -- RestoreChunks: the chunks and the lines that are left.
  unfoldable pub restore_chunks :
      SnapshotText → List GoString → Result (ChunksMap S × List GoString)
  unfolding read_chunks
  restore_chunks text lines = do
    r ← read_chunks text lines s.new_set s.new_set []
    ok (map (λ (id, _). (id, shared_chunk r.data_nodes r.pending_data_nodes id)) r.ids, r.left)

module _ {Q : Type 0} ⦃q : StringQueue Q⦄ where
  -- PersistPendingChunkQueue; `queue_string` is the method String of the queue.
  unfoldable pub persist_pending_chunk_queue : SnapshotText → (Q → GoString) → Q → GoString
  persist_pending_chunk_queue text queue_string queue =
      queue_string queue ++ text.snapshot_delimiter

  -- RestorePendingChunkQueue: the queue, which is not emptied before, and the lines that are left.
  unfoldable pub restore_pending_chunk_queue : SnapshotText → List GoString → Q → Q × List GoString
  unfolding push_all
  restore_pending_chunk_queue text [] queue = (queue, [])
  restore_pending_chunk_queue text (line ∷ lines) queue =
      let rest =
        restore_pending_chunk_queue text lines
          (push_all queue (split b'$' (trim text.dollar_delimiter line))) in
      if line == text.snapshot_delimiter then (queue, lines) else rest
