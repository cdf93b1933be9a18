-- ===== src/Expand.antt =====
-- internal/datanode.go: DoExpand, which chooses the chunks that a new DataNode takes over.
pub mod Rounds
use tinydfs_master.Base.{
  ℕ, zero, suc, ◌+◌, ◌-◌, ◌*◌, ◌/◌, Bool, true, false, not, ◌&&◌, Option, none, some, List, [], ◌∷◌,
  ◌==◌, nat_eq, nat_list_eq, leb, if◌then◌else◌, GoString, Result, ok, err, panic, ◌>>=◌,
}
use tinydfs_master.Base.GoMap
use tinydfs_master.Base.GoMap.{GoMap}
use tinydfs_master.External.{Common, StringSet, StringQueue}
use tinydfs_master.State.{DataNode, Master}
use tinydfs_master.DataNodes.{DataNodeMap}
use tinydfs_master.DataNodes.Usage.{cal_usage, cal_avg_usage}
use tinydfs_master.Operations.{Operation, ExpandOperation}
use tinydfs_master.Raft.{Raft}

-- The variables `pendingChunks` and `pendingMap`.
pub record Search (S : Type 0) : Type 0 where
  pub pending_chunks : S
  pub pending_map : GoMap GoString (List GoString)

-- What one pass over the DataNodes leaves: `not_found`, and whether it leaves the outer loop.
pub record Round (S : Type 0) : Type 0 where
  pub search : Search S
  pub not_found : Bool
  pub is_done : Bool

-- The result of `append` is not stored, so a DataNode that is there keeps the chunk it has.
unfoldable pub note_sender :
    GoString → GoString → GoMap GoString (List GoString) → GoMap GoString (List GoString)
note_sender id chunk pending_map = elim (GoMap.lookup id pending_map) [
  | none ↦ GoMap.insert id (chunk ∷ []) pending_map
  | some _ ↦ pending_map
]

module _ {S : Type 0} ⦃s : StringSet S⦄ where
  -- The first chunk that is neither pending nor on the new DataNode.
  unfoldable pub first_new : S → S → List GoString → Option GoString
  first_new pending own [] = none
  first_new pending own (id ∷ ids) =
      let rest = first_new pending own ids in
      if not (s.member pending id) && not (s.member own id) then some id else rest

  unfoldable pub take_chunk : GoString → GoString → Search S → Search S
  unfolding note_sender
  take_chunk id chunk search = record {
    pending_chunks = s.add search.pending_chunks chunk;
    pending_map = note_sender id chunk search.pending_map;
  }

  -- `pendingChunks.Cardinality() == pendingCount`; a count below zero is `none`.
  unfoldable pub is_enough : Option ℕ → Search S → Bool
  is_enough none search = false
  is_enough (some count) search = s.cardinality search.pending_chunks == count

  module _ ⦃c : Common⦄ (own : S) (pending_count : Option ℕ) where
    unfoldable pub visit : DataNodeMap S → Search S → Bool → Round S
    unfolding first_new take_chunk is_enough
    visit [] search not_found = record { search = search; not_found = not_found; is_done = false }
    visit ((_, node) ∷ m) search not_found =
        let skipped = visit m search not_found in
        if node.status == c.alive
        then elim (first_new search.pending_chunks own (s.to_slice node.chunks)) [
          | none ↦ skipped
          | some chunk ↦
              let taken = take_chunk node.id chunk search in
              let rest = visit m taken false in
              if is_enough pending_count taken
              then record { search = taken; not_found = false; is_done = true }
              else rest
        ]
        else skipped

    -- The outer loop; `none` means that the fuel ran out.
    unfoldable pub rounds : ℕ → DataNodeMap S → Search S → Option (Search S)
    unfolding visit
    rounds zero m search = none
    rounds (suc fuel) m search =
        let r = visit m search true in
        let rest = rounds fuel m r.search in
        if r.is_done then some r.search else if r.not_found then some r.search else rest

module _ ⦃c : Common⦄ where
  -- `(avg-current)*full/(100*ChunkSize) + 1`. Go's division drops the fraction, so below zero the
  -- quotient is that of the absolute value; `none` is a count below zero.
  unfoldable pub count_of : ℕ → ℕ → ℕ → Option ℕ
  count_of avg current full_capacity =
      let up = (avg - current) * full_capacity / (100 * c.chunk_size) in
      let down = (current - avg) * full_capacity / (100 * c.chunk_size) in
      if leb current avg
      then some (up + 1)
      else if down == 0
      then some 1
      else if down == 1
      then some 0
      else none

  unfoldable pub pending_count : {S : Type 0} → DataNode S → DataNodeMap S → Result (Option ℕ)
  unfolding cal_avg_usage cal_usage count_of
  pending_count node m = do
    avg ← cal_avg_usage m
    ok (count_of avg (cal_usage node.used_capacity node.full_capacity 0) node.full_capacity)

module _ {S : Type 0} ⦃s : StringSet S⦄ where
  unfoldable pub expand_operation : GoString → Search S → ExpandOperation
  expand_operation receiver search = record {
    sender_plan = search.pending_map;
    receiver_plan = receiver;
    chunk_ids = s.to_slice search.pending_chunks;
  }

module _ {S Q : Type 0} ⦃c : Common⦄ ⦃s : StringSet S⦄ ⦃q : StringQueue Q⦄ where
  -- The number of chunks that the DataNode takes; `none` means that the fuel ran out. The source
  -- does not wait for the future, and its error is dropped.
  unfoldable pub do_expand :
      Raft S Q → ℕ → DataNode S → Master S Q → Option (Result (Master S Q × ℕ))
  unfolding pending_count rounds expand_operation
  do_expand raft fuel node m = elim (pending_count node m.data_node_map) [
    | ok count ↦
        let start : Search S = record { pending_chunks = s.new_set; pending_map = [] } in
        elim (rounds node.chunks count fuel m.data_node_map start) [
          | none ↦ none
          | some search ↦ some (do
            (m', _) ← raft.propose (Operation.expand (expand_operation node.id search)) m
            ok (m', s.cardinality search.pending_chunks))
        ]
    | err e ↦ some (err e)
    | panic ↦ some panic
  ]
