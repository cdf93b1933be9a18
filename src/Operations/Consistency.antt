-- ===== src/Operations/Consistency.antt =====
-- Every operation that MasterFSM.Apply of internal/fsm.go runs keeps the two views of where
-- chunks are stored consistent.
use tinydfs_master.Base.{
  ℕ, ◌≡◌, sym, ◌∙◌, false, [], ◌∷◌, ◌==◌, nat_eq, nat_list_eq, ap, deref, GoString, arith, Result,
  ok, ok-injective, subst, after_bind, Bool-cases, inl, inr, ◌>>=◌,
}
use tinydfs_master.Base.GoMap.{lookup-insert}
use tinydfs_master.Base.Strings.{itoa}
use tinydfs_master.External.{Common, StringSet, StringQueue}
use tinydfs_master.State.{Chunk, Master}
use tinydfs_master.Chunks.{get_chunk, batch_apply_plan2_chunk}
use tinydfs_master.DataNodes.{add_data_node}
use tinydfs_master.DataNodes.Selection.{get_sorted_data_node_ids, batch_apply_plan2_data_node}
use tinydfs_master.DataNodes.Degrade.{degrade_data_node}
use tinydfs_master.Checks.{check_chunks}
use tinydfs_master.DataNodes.Allocation.{batch_allocate_data_nodes}
use tinydfs_master.Operations.{
  RegisterOperation, AddOperation, GetOperation, AllocateChunksOperation, ExpandOperation,
  Operation, Reply, registered, plan_all_moves, expect_replica,
}
use tinydfs_master.Operations.Apply.{
  apply_register, apply_add_check, apply_add_allocate, apply_add, apply_get, apply_allocate_plan,
  apply_expand, apply,
}
use tinydfs_master.Consistency.{counts, IsConsistent}
use tinydfs_master.Consistency.Heartbeat.{DeletesForgotten, apply_heartbeat-IsConsistent}
use tinydfs_master.Consistency.Cleanup.{check_chunks-IsConsistent}
use tinydfs_master.Consistency.Plans.{
  CountSame, LackSame, counts-apply_plan2, counts-expect_replica, counts-new_chunks,
  lacks-apply_plan2, lacks-plan_all_moves,
}
use tinydfs_master.Consistency.Finish.{apply_add_finish-IsConsistent, degrade-IsConsistent}

module _ {S Q : Type 0} ⦃c : Common⦄ ⦃s : StringSet S⦄ ⦃q : StringQueue Q⦄ where
  -- What the master may assume of an operation: a DataNode registers under a new identifier, and
  -- a chunk that a DataNode reports as deleted is unknown by then.
  abbrev pub IsAdmissible : Operation → Master S Q → Type 0
  IsAdmissible (Operation.register o) m =
      (chunk_id : GoString) → counts m.chunks_map chunk_id o.data_node_id ≡ false
  IsAdmissible (Operation.heartbeat o) m = DeletesForgotten o.success_infos m.chunks_map
  IsAdmissible _ m = Unit {0}

  register-IsConsistent :
      (o : RegisterOperation) (now : ℕ) (m : Master S Q)
      → ((k : GoString) → counts m.chunks_map k o.data_node_id ≡ false)
      → IsConsistent m
      → IsConsistent (apply_register o now m).0
  unfolding apply_register add_data_node
  register-IsConsistent o now m fresh agree k n counted = ground (
    arith,
    counted,
    fresh k,
    lookup-insert n o.data_node_id (registered o now) m.data_node_map,
    agree k n,
  )

  same-IsConsistent :
      (m m' : Master S Q)
      → CountSame m.chunks_map m'.chunks_map
      → LackSame m.data_node_map m'.data_node_map
      → IsConsistent m
      → IsConsistent m'
  same-IsConsistent m m' same_counts same_lacks agree k n counted =
      same_lacks n k ∙ agree k n (sym (same_counts k n) ∙ counted)

  allocate_plan-IsConsistent :
      (o : AllocateChunksOperation) (m m' : Master S Q)
      → apply_allocate_plan o m ≡ ok m'
      → IsConsistent m
      → IsConsistent m'
  unfolding apply_allocate_plan batch_apply_plan2_chunk batch_apply_plan2_data_node
  allocate_plan-IsConsistent o m m' e agree =
      after_bind _
        (batch_apply_plan2_chunk o.receiver_plan o.chunk_ids o.data_node_ids m.chunks_map) _ e
        λ cm planned e.
          after_bind _
            (batch_apply_plan2_data_node o.receiver_plan o.sender_plan o.chunk_ids o.data_node_ids
              m.data_node_map)
            _ e
            λ dm sends e. subst IsConsistent (ok-injective e) (
              same-IsConsistent m
                (record m {
                  chunks_map = cm;
                  data_node_map = dm;
                  pending_chunk_queue = q.batch_pop m.pending_chunk_queue o.batch_len;
                })
                (counts-apply_plan2 0 o.receiver_plan o.chunk_ids o.data_node_ids m.chunks_map cm
                  planned)
                (lacks-apply_plan2 0 o.receiver_plan o.sender_plan o.chunk_ids o.data_node_ids
                  m.data_node_map dm sends)
                agree)

  expand-IsConsistent :
      (o : ExpandOperation) (m m' : Master S Q)
      → apply_expand o m ≡ ok m'
      → IsConsistent m
      → IsConsistent m'
  unfolding apply_expand
  expand-IsConsistent o m m' e agree =
      after_bind _ (plan_all_moves o.receiver_plan o.sender_plan m.data_node_map) _ e λ dm moves e.
        let cm = expect_replica o.receiver_plan o.chunk_ids m.chunks_map in
        subst IsConsistent (ok-injective e) (
          same-IsConsistent m (record m { data_node_map = dm; chunks_map = cm })
            (counts-expect_replica o.receiver_plan o.chunk_ids m.chunks_map)
            (lacks-plan_all_moves o.receiver_plan o.sender_plan m.data_node_map dm moves) agree)

  add_allocate-IsConsistent :
      (o : AddOperation) (m m' : Master S Q) (r : Reply)
      → apply_add_allocate o m ≡ ok (m', r)
      → IsConsistent m
      → IsConsistent m'
  unfolding apply_add_allocate
  add_allocate-IsConsistent o m m' r e agree =
      after_bind _ (batch_allocate_data_nodes o.chunk_num m.data_node_map) _ e λ nodes _ e.
        subst IsConsistent (ap (λ x. x.0) (ok-injective e)) (λ k n counted.
          agree k n (counts-new_chunks o.file_node_id 0 nodes m.chunks_map k n counted))

  -- An operation that changes the tree alone.
  tree-IsConsistent :
      {A : Type 0} (r : Result A) (f : A → Master S Q × Reply) (m m' : Master S Q) (reply : Reply)
      → (r >>= λ a. ok (f a)) ≡ ok (m', reply)
      → ((a : A) → IsConsistent (f a).0)
      → IsConsistent m'
  tree-IsConsistent r f m m' reply e keeps =
      after_bind _ r _ e λ a _ e. subst IsConsistent (ap (λ x. x.0) (ok-injective e)) (keeps a)

  kept-IsConsistent :
      (m m' : Master S Q) (r r' : Reply)
      → ◌≡◌ {A = Result (Master S Q × Reply)} (ok (m, r)) (ok (m', r'))
      → IsConsistent m
      → IsConsistent m'
  kept-IsConsistent m m' r r' e = subst IsConsistent (ap (λ x. x.0) (ok-injective e))

  add-IsConsistent :
      (o : AddOperation) (now : ℕ) (id : GoString) (m m' : Master S Q) (r : Reply)
      → apply_add o now id m ≡ ok (m', r)
      → IsConsistent m
      → IsConsistent m'
  unfolding apply_add apply_add_check
  add-IsConsistent o now id m m' r e agree = elim (Bool-cases (o.stage == c.check_args)) [
    | inl first ↦ tree-IsConsistent _ _ m m' r (rw (first, apply_add) at e) (λ _. agree)
    | inr second ↦ elim (Bool-cases (o.stage == c.get_data_nodes)) [
      | inl allocates ↦
          add_allocate-IsConsistent o m m' r (rw (second, allocates, apply_add) at e) agree
      | inr third ↦ elim (Bool-cases (o.stage == c.unlock_dic)) [
        | inl finishes ↦
            apply_add_finish-IsConsistent o now m m' r
              (rw (second, third, finishes, apply_add) at e) agree
        | inr other ↦
            kept-IsConsistent m m' Reply.nil r (rw (second, third, other, apply_add) at e) agree
      ]
    ]
  ]

  get-IsConsistent :
      (o : GetOperation) (m m' : Master S Q) (r : Reply)
      → apply_get o m ≡ ok (m', r)
      → IsConsistent m
      → IsConsistent m'
  unfolding apply_get
  get-IsConsistent o m m' r e agree = elim (Bool-cases (o.stage == c.check_args)) [
    | inl first ↦ tree-IsConsistent _ _ m m' r (rw (first, apply_get) at e) (λ _. agree)
    | inr second ↦ elim (Bool-cases (o.stage == c.get_data_nodes)) [
      | inl locates ↦
          let chunk_id =
            c.combine_string
              (o.file_node_id ∷ (c.chunk_id_delimiter ∷ []) ∷ itoa o.chunk_index ∷ []) in
          let answer : Chunk S → Master S Q × Reply = λ chunk.
            let found = get_sorted_data_node_ids chunk.data_nodes m.data_node_map in
            (m, Reply.located found.0 found.1 o.chunk_index) in
          tree-IsConsistent (deref (get_chunk chunk_id m.chunks_map)) answer m m' r
            (rw (second, locates, apply_get) at e) (λ _. agree)
      | inr other ↦ kept-IsConsistent m m' Reply.nil r (rw (second, other, apply_get) at e) agree
    ]
  ]

  -- Every operation that the master applies without an error keeps every counted replica of a
  -- connected DataNode stored there, if a DataNode registers under an identifier that no chunk
  -- counts and a heartbeat reports as deleted only chunks that are unknown by then.
  pub apply-IsConsistent :
      (op : Operation) (now : ℕ) (id : GoString) (m m' : Master S Q) (r : Reply)
      → IsAdmissible op m
      → IsConsistent m
      → apply op now id m ≡ ok (m', r)
      → IsConsistent m'
  unfolding apply
  apply-IsConsistent (Operation.register o) now id m m' r adm agree e =
      subst IsConsistent (ap (λ x. x.0) (ok-injective e)) (register-IsConsistent o now m adm agree)
  apply-IsConsistent (Operation.heartbeat o) now id m m' r adm agree e =
      elim (apply_heartbeat-IsConsistent o now m adm agree) [
        | inl (_, refused) ↦ absurd (ground (arith, refused, e))
        | inr (m₁, r₁, done, kept) ↦ kept-IsConsistent m₁ m' r₁ r (sym done ∙ e) kept
      ]
  apply-IsConsistent (Operation.add o) now id m m' r adm agree e =
      add-IsConsistent o now id m m' r e agree
  apply-IsConsistent (Operation.get o) now id m m' r adm agree e = get-IsConsistent o m m' r e agree
  apply-IsConsistent (Operation.mkdir path filename) now id m m' r adm agree e =
      tree-IsConsistent _ _ m m' r e (λ _. agree)
  apply-IsConsistent (Operation.move source target) now id m m' r adm agree e =
      tree-IsConsistent _ _ m m' r e (λ _. agree)
  apply-IsConsistent (Operation.remove path) now id m m' r adm agree e =
      tree-IsConsistent _ _ m m' r e (λ _. agree)
  apply-IsConsistent (Operation.list_files path) now id m m' r adm agree e =
      tree-IsConsistent _ _ m m' r e (λ _. agree)
  apply-IsConsistent (Operation.stat path) now id m m' r adm agree e =
      tree-IsConsistent _ _ m m' r e (λ _. agree)
  apply-IsConsistent (Operation.rename path name) now id m m' r adm agree e =
      tree-IsConsistent _ _ m m' r e (λ _. agree)
  apply-IsConsistent (Operation.degrade node_id stage) now id m m' r adm agree e =
      kept-IsConsistent (degrade_data_node node_id stage m) m' _ r e
        (degrade-IsConsistent node_id stage m agree)
  apply-IsConsistent (Operation.allocate_chunks o) now id m m' r adm agree e =
      after_bind _ (apply_allocate_plan o m) _ e λ m₁ planned e.
        kept-IsConsistent m₁ m' _ r e (allocate_plan-IsConsistent o m m₁ planned agree)
  apply-IsConsistent (Operation.expand o) now id m m' r adm agree e =
      after_bind _ (apply_expand o m) _ e
        λ m₁ planned e. kept-IsConsistent m₁ m' _ r e (expand-IsConsistent o m m₁ planned agree)
  apply-IsConsistent Operation.check_chunks_op now id m m' r adm agree e =
      kept-IsConsistent (check_chunks m) m' _ r e (check_chunks-IsConsistent m agree)
  apply-IsConsistent Operation.check_data_nodes now id m m' r adm agree e =
      subst IsConsistent (ap (λ x. x.0) (ok-injective e)) agree
