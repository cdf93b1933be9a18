-- ===== src/Consistency/Plans.antt =====
-- Plans keep the two views consistent: they change neither the replicas that a chunk counts nor
-- the chunks that a DataNode stores. internal/chunk.go, internal/datanode.go and
-- internal/operation.go.
use tinydfs_master.Base.{
  ℕ, ◌+◌, ◌≡◌, refl, sym, ◌∙◌, true, some, List, [], ◌∷◌, nat_list_eq, ap, get_elem?, GoString,
  arith, ok, ok-injective, after_deref, after_bind,
}
use tinydfs_master.Base.GoMap
use tinydfs_master.Base.GoMap.{GoMap, lookup, lookup-insert}
use tinydfs_master.External.{Common, StringSet}
use tinydfs_master.State.{Chunk, DataNode}
use tinydfs_master.Chunks.{ChunksMap, add_pending, batch_add_chunk, apply_plan2_chunk_from}
use tinydfs_master.DataNodes.{DataNodeMap, plan_send}
use tinydfs_master.DataNodes.Selection.{apply_plan2_data_node_from}
use tinydfs_master.Operations.{new_chunks, plan_moves, plan_all_moves, expect_replica}
use tinydfs_master.Consistency.{counts, lacks}
use tinydfs_master.Consistency.OfChunks.{counts-modify_same}

module _ {S : Type 0} ⦃s : StringSet S⦄ where
  -- Every chunk counts what it counted.
  abbrev pub CountSame : ChunksMap S → ChunksMap S → Type 0
  CountSame cm cm' = (k n : GoString) → counts cm' k n ≡ counts cm k n

  abbrev pub LackSame : DataNodeMap S → DataNodeMap S → Type 0
  LackSame dm dm' = (n k : GoString) → lacks dm' n k ≡ lacks dm n k

  counts-insert_same :
      (cm : ChunksMap S) (i : GoString) (chunk chunk' : Chunk S)
      → lookup i cm ≡ some chunk
      → chunk'.data_nodes ≡ chunk.data_nodes
      → CountSame cm (GoMap.insert i chunk' cm)
  counts-insert_same cm i chunk chunk' present same k n =
      ground (arith, present, lookup-insert k i chunk' cm, ap (λ x. s.member x n) same)

  counts-insert_empty :
      (cm : ChunksMap S) (i : GoString) (chunk : Chunk S)
      → chunk.data_nodes ≡ s.new_set
      → (k n : GoString) → counts (GoMap.insert i chunk cm) k n ≡ true
      → counts cm k n ≡ true
  counts-insert_empty cm i chunk empty k n e =
      ground
        (arith, e, lookup-insert k i chunk cm, ap (λ x. s.member x n) empty, s.member-new_set n)

  pub lacks-insert_same :
      (dm : DataNodeMap S) (i : GoString) (node node' : DataNode S)
      → lookup i dm ≡ some node
      → node'.chunks ≡ node.chunks
      → LackSame dm (GoMap.insert i node' dm)
  lacks-insert_same dm i node node' present same n k =
      ground (arith, present, lookup-insert n i node' dm, ap (λ x. s.member x k) same)

  pub counts-expect_replica :
      (receiver : GoString) (ids : List GoString) (cm : ChunksMap S)
      → CountSame cm (expect_replica receiver ids cm)
  unfolding expect_replica add_pending
  counts-expect_replica receiver [] cm k n = refl
  counts-expect_replica receiver (id ∷ ids) cm k n =
      counts-expect_replica receiver ids (GoMap.modify id (add_pending receiver) cm) k n
      ∙ counts-modify_same cm id (add_pending receiver) k n (λ _. refl)

module _ {S : Type 0} ⦃c : Common⦄ ⦃s : StringSet S⦄ where
  pub counts-apply_plan2 :
      (i : ℕ) (plan : List ℕ) (chunk_ids data_node_ids : List GoString) (cm cm' : ChunksMap S)
      → apply_plan2_chunk_from i plan chunk_ids data_node_ids cm ≡ ok cm'
      → CountSame cm cm'
  unfolding apply_plan2_chunk_from add_pending
  counts-apply_plan2 i [] chunk_ids data_node_ids cm cm' e k n =
      ap (λ x. counts x k n) (sym (ok-injective e))
  counts-apply_plan2 i (dn_index ∷ plan) chunk_ids data_node_ids cm cm' e k n =
      after_deref _ (get_elem? chunk_ids i) _ e λ chunk_id _ e.
        after_deref _ (lookup chunk_id cm) _ e λ chunk present e.
          after_deref _ (get_elem? data_node_ids dn_index) _ e λ data_node_id _ e.
            let planned = GoMap.insert chunk_id (add_pending data_node_id chunk) cm in
            counts-apply_plan2 (i + 1) plan chunk_ids data_node_ids planned cm' e k n
            ∙ counts-insert_same cm chunk_id chunk (add_pending data_node_id chunk) present refl k n

  -- A new chunk counts no replica.
  pub counts-new_chunks :
      (id : GoString) (i : ℕ) (nodes : List (List (DataNode S))) (cm : ChunksMap S) (k n : GoString)
      → counts (batch_add_chunk (new_chunks id i nodes) cm) k n ≡ true
      → counts cm k n ≡ true
  unfolding batch_add_chunk new_chunks
  counts-new_chunks id i [] cm k n e = e
  counts-new_chunks id i (dns ∷ rest) cm k n e =
      counts-insert_empty cm _ _ refl k n (counts-new_chunks id (i + 1) rest _ k n e)

  pub lacks-apply_plan2 :
      (i : ℕ) (receivers senders : List ℕ) (chunk_ids data_node_ids : List GoString)
      (dm dm' : DataNodeMap S)
      → apply_plan2_data_node_from i receivers senders chunk_ids data_node_ids dm ≡ ok dm'
      → LackSame dm dm'
  unfolding apply_plan2_data_node_from plan_send
  lacks-apply_plan2 i receivers [] chunk_ids data_node_ids dm dm' e n k =
      ap (λ x. lacks x n k) (sym (ok-injective e))
  lacks-apply_plan2 i receivers (dn_index ∷ senders) chunk_ids data_node_ids dm dm' e n k =
      after_deref _ (get_elem? chunk_ids i) _ e λ chunk_id _ e.
        after_deref _ (get_elem? receivers i) _ e λ receiver _ e.
          after_deref _ (get_elem? data_node_ids receiver) _ e λ receiver_id _ e.
            after_deref _ (get_elem? data_node_ids dn_index) _ e λ sender_id _ e.
              after_deref _ (lookup sender_id dm) _ e λ sender present e.
                lacks-apply_plan2 (i + 1) receivers senders chunk_ids data_node_ids _ dm' e n k
                ∙ lacks-insert_same dm sender_id sender _ present refl n k

  lacks-plan_moves :
      (receiver from : GoString) (chunk_ids : List GoString) (dm dm' : DataNodeMap S)
      → plan_moves receiver from chunk_ids dm ≡ ok dm'
      → LackSame dm dm'
  unfolding plan_moves plan_send
  lacks-plan_moves receiver from [] dm dm' e n k = ap (λ x. lacks x n k) (sym (ok-injective e))
  lacks-plan_moves receiver from (chunk_id ∷ chunk_ids) dm dm' e n k =
      after_deref _ (lookup from dm) _ e λ node present e.
        lacks-plan_moves receiver from chunk_ids _ dm' e n k
        ∙ lacks-insert_same dm from node _ present refl n k

  pub lacks-plan_all_moves :
      (receiver : GoString) (plan : GoMap GoString (List GoString)) (dm dm' : DataNodeMap S)
      → plan_all_moves receiver plan dm ≡ ok dm'
      → LackSame dm dm'
  unfolding plan_all_moves
  lacks-plan_all_moves receiver [] dm dm' e n k = ap (λ x. lacks x n k) (sym (ok-injective e))
  lacks-plan_all_moves receiver ((from, chunk_ids) ∷ plan) dm dm' e n k =
      after_bind _ (plan_moves receiver from chunk_ids dm) _ e λ dm₁ moved e.
        lacks-plan_all_moves receiver plan dm₁ dm' e n k
        ∙ lacks-plan_moves receiver from chunk_ids dm dm₁ moved n k
