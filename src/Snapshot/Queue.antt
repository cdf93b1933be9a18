-- ===== src/Snapshot/Queue.antt =====
-- What RestorePendingChunkQueue of internal/chunk.go does to the queue.
use tinydfs_master.Base.{
  ◌≡◌, sym, ap, ◌∙◌, List, [], ◌∷◌, ◌++◌, append_assoc, append-nil, ◌==◌, nat_list_eq,
  if◌then◌else◌, GoString, Bool-cases, inl, inr,
}
use tinydfs_master.Base.Strings.{split, trim}
use tinydfs_master.External.{StringQueue}
use tinydfs_master.Chunks.{push_all}
use tinydfs_master.Snapshot.Text.{SnapshotText}
use tinydfs_master.Snapshot.Chunks.{restore_pending_chunk_queue}

-- The columns of the lines up to the delimiter.
abbrev pub queued : SnapshotText → List GoString → List GoString
queued text [] = []
queued text (line ∷ lines) =
    if line == text.snapshot_delimiter
    then []
    else split b'$' (trim text.dollar_delimiter line) ++ queued text lines

module _ {Q : Type 0} ⦃q : StringQueue Q⦄ where
  contents-push_all :
      (ids : List GoString) (queue : Q) → q.contents (push_all queue ids) ≡ q.contents queue ++ ids
  unfolding push_all
  contents-push_all [] queue = sym (append-nil (q.contents queue))
  contents-push_all (id ∷ ids) queue =
      contents-push_all ids (q.push queue id)
      ∙ ap (λ xs. xs ++ ids) (q.contents-push queue id)
      ∙ append_assoc (q.contents queue) (id ∷ []) ids

  -- A restored queue still holds what the queue held before, and after it the columns of the lines
  -- up to the delimiter.
  pub restore_pending_chunk_queue-kept :
      (text : SnapshotText) (lines : List GoString) (queue : Q)
      → q.contents (restore_pending_chunk_queue text lines queue).0
        ≡ q.contents queue ++ queued text lines
  unfolding restore_pending_chunk_queue
  restore_pending_chunk_queue-kept text [] queue = sym (append-nil (q.contents queue))
  restore_pending_chunk_queue-kept text (line ∷ lines) queue =
      elim (Bool-cases (line == text.snapshot_delimiter)) [
        | inl ends ↦ rw (ends, restore_pending_chunk_queue) (sym (append-nil (q.contents queue)))
        | inr goes_on ↦
            let ids = split b'$' (trim text.dollar_delimiter line) in
            rw (goes_on, restore_pending_chunk_queue)
              (restore_pending_chunk_queue-kept text lines (push_all queue ids)
                ∙ ap (λ xs. xs ++ queued text lines) (contents-push_all ids queue)
                ∙ append_assoc (q.contents queue) ids (queued text lines))
      ]
