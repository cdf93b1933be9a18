-- ===== src/Operations/Trees.antt =====
-- What the operations that MasterFSM.Apply of internal/fsm.go runs do to the directory tree.
use tinydfs_master.Base.{
  ℕ, ◌≡◌, refl, sym, ◌∙◌, ◌⊎◌, inl, inr, true, false, [], ◌∷◌, ◌==◌, nat_eq, nat_list_eq, ap, deref,
  GoString, arith, Result, ok, panic, ok-injective, subst, after_bind, Bool-cases, Option-cases,
  Result-cases, ◌>>=◌, after_or_fail,
}
use tinydfs_master.Base.Strings.{itoa}
use tinydfs_master.External.{Common, StringSet, StringQueue}
use tinydfs_master.Namespace.{DirTree, erase_file_node, remove_file_node}
use tinydfs_master.Namespace.Reach.{TreeStep, added, moved, renamed, removed}
use tinydfs_master.Namespace.Walk.{path_names}
use tinydfs_master.Namespace.Spec.{Request, add_below, rename_to, remove_at, move_into}
use tinydfs_master.Namespace.Refinement.Steps.{request}
use tinydfs_master.State.{Chunk, HeartbeatOperation, Master}
use tinydfs_master.Chunks.{get_chunk, batch_clear_pending_data_nodes}
use tinydfs_master.DataNodes.{update_data_node4_heartbeat}
use tinydfs_master.DataNodes.Selection.{get_sorted_data_node_ids}
use tinydfs_master.DataNodes.Degrade.{degrade_data_node}
use tinydfs_master.DataNodes.Allocation.{batch_allocate_data_nodes}
use tinydfs_master.Checks.{check_chunks}
use tinydfs_master.Operations.{AddOperation, GetOperation, Operation, Reply}
use tinydfs_master.Operations.SameTree.{
  tree-clear_pending, tree-update_pending, tree-degrade, tree-report, tree-update_chunk,
  tree-allocate_plan, tree-expand,
}
use tinydfs_master.Operations.Apply.{
  apply_register, apply_heartbeat, apply_add_check, apply_add_allocate, give_up_failed,
  apply_add_finish, apply_add, apply_get, apply_allocate_plan, apply_expand, apply,
}

module _ ⦃c : Common⦄ where
  -- The requests that an operation makes of the tree; the name that a removed node gets is the
  -- master's to choose. A file is added first, and removed again if one of its chunks failed.
  abbrev pub Requests : Operation → Request → Type 0
  Requests (Operation.mkdir path filename) r = r ≡ add_below (path_names path) filename
  Requests (Operation.move source target) r = r ≡ move_into (path_names source) (path_names target)
  Requests (Operation.remove path) r = (trash : GoString) × (r ≡ remove_at (path_names path) trash)
  Requests (Operation.rename path name) r = r ≡ rename_to (path_names path) name
  Requests (Operation.add o) r =
      (((o.stage == c.check_args) ≡ true) × (r ≡ add_below (path_names o.path) o.file_name))
      ⊎ (((o.stage == c.unlock_dic) ≡ true)
          × (trash : GoString) × (r ≡ remove_at (path_names o.path) trash))
  Requests _ r = ⊥

module _ {S : Type 0} ⦃c : Common⦄ ⦃s : StringSet S⦄ where
  -- A step of the tree that an operation requests.
  abbrev pub StepOf : Operation → DirTree S → DirTree S → Type 0
  StepOf op t t' = (st : TreeStep t t') × Requests op (request st)

module _ {S Q : Type 0} ⦃c : Common⦄ ⦃s : StringSet S⦄ ⦃q : StringQueue Q⦄ where
  abbrev TreeKept' : Operation → Master S Q → DirTree S → Type 0
  TreeKept' op m t = (t ≡ m.tree) ⊎ StepOf op m.tree t

  -- The tree is the same, or one operation on trees away, which the operation requests.
  abbrev pub TreeKept : Operation → Master S Q → Master S Q → Type 0
  TreeKept op m m' = TreeKept' op m m'.tree

  kept-TreeKept :
      (op : Operation) (m m' m₁ : Master S Q) (r r' : Reply)
      → m₁.tree ≡ m.tree
      → ◌≡◌ {A = Result (Master S Q × Reply)} (ok (m₁, r)) (ok (m', r'))
      → TreeKept op m m'
  kept-TreeKept op m m' m₁ r r' same e = inl (sym (ap (λ x. x.0.tree) (ok-injective e)) ∙ same)

  -- An operation on the tree alone, which makes a step.
  step-TreeKept :
      (op : Operation) (r : Result (DirTree S × ℕ)) (f : DirTree S × ℕ → Master S Q × Reply)
      (m m' : Master S Q) (reply : Reply)
      → (r >>= λ x. ok (f x)) ≡ ok (m', reply)
      → ((x : DirTree S × ℕ) → (f x).0.tree ≡ x.0)
      → ((t : DirTree S) (p : ℕ) → r ≡ ok (t, p) → StepOf op m.tree t)
      → TreeKept op m m'
  step-TreeKept op r f m m' reply e there step = after_bind _ r _ e λ (t, p) done e. inr (
      subst (StepOf op m.tree) (sym (there (t, p)) ∙ ap (λ x. x.0.tree) (ok-injective e))
        (step t p done))

  -- An operation that leaves the tree alone.
  read-TreeKept :
      {A : Type 0} (op : Operation) (r : Result A) (f : A → Master S Q × Reply) (m m' : Master S Q)
      (reply : Reply)
      → (r >>= λ a. ok (f a)) ≡ ok (m', reply)
      → ((a : A) → (f a).0.tree ≡ m.tree)
      → TreeKept op m m'
  read-TreeKept op r f m m' reply e same =
      after_bind _ r _ e λ a _ e. inl (sym (ap (λ x. x.0.tree) (ok-injective e)) ∙ same a)

  heartbeat-TreeKept :
      (o : HeartbeatOperation) (now : ℕ) (m m' : Master S Q) (r : Reply)
      → apply_heartbeat o now m ≡ ok (m', r)
      → TreeKept (Operation.heartbeat o) m m'
  unfolding apply_heartbeat
  heartbeat-TreeKept o now m m' r e =
      after_or_fail _ (update_data_node4_heartbeat o now m) _ _ e λ (m₁, infos) known e. inl (
        sym (ap (λ x. x.0.tree) (ok-injective e))
        ∙ tree-update_chunk o m₁
        ∙ tree-report o now m m₁ infos known)

  give_up_failed-TreeKept :
      (o : AddOperation) (now : ℕ) (m m' : Master S Q)
      → (o.stage == c.unlock_dic) ≡ true
      → give_up_failed o now m ≡ ok m'
      → TreeKept (Operation.add o) m m'
  unfolding give_up_failed erase_file_node request
  give_up_failed-TreeKept o now m m' finishes e = elim (Option-cases o.fail_chunk_ids) [
    | inl nil_slice ↦
        let done : give_up_failed o now m ≡ ok m = rw (nil_slice, give_up_failed) refl in
        inl (ap (λ (x : Master S Q). x.tree) (ok-injective (sym e ∙ done)))
    | inr (ids, failed) ↦ elim (Result-cases (erase_file_node m.tree o.path now)) [
      | inl ((t, p), erased) ↦
          let m₁ : Master S Q = record m { tree = t } in
          let done : give_up_failed o now m ≡ ok (batch_clear_pending_data_nodes ids m₁) =
            rw (failed, give_up_failed, erased) refl in
          let same =
            sym (tree-clear_pending ids m₁)
            ∙ ap (λ (x : Master S Q). x.tree) (ok-injective (sym done ∙ e)) in
          inr (
            subst (StepOf (Operation.add o) m.tree) same
              (removed o.path false now erased, inr (finishes, _, refl)))
      | inr (inl (error, refused)) ↦
          let done : give_up_failed o now m ≡ ok (batch_clear_pending_data_nodes ids m) =
            rw (failed, give_up_failed, refused) refl in
          inl (
            ap (λ (x : Master S Q). x.tree) (ok-injective (sym e ∙ done))
            ∙ tree-clear_pending ids m)
      | inr (inr panics) ↦
          let dead : give_up_failed o now m ≡ panic = rw (failed, give_up_failed, panics) refl in
          absurd (ground (arith, dead, e))
    ]
  ]

  add-TreeKept :
      (o : AddOperation) (now : ℕ) (id : GoString) (m m' : Master S Q) (r : Reply)
      → apply_add o now id m ≡ ok (m', r)
      → TreeKept (Operation.add o) m m'
  unfolding request apply_add apply_add_check apply_add_allocate apply_add_finish
  add-TreeKept o now id m m' r e = elim (Bool-cases (o.stage == c.check_args)) [
    | inl first ↦
        step-TreeKept (Operation.add o) _ _ m m' r (rw (first, apply_add) at e) (λ x. refl)
          (λ t p done.
            (added id o.path o.file_name o.size c.is_file4_add_file done, inl (first, refl)))
    | inr second ↦ elim (Bool-cases (o.stage == c.get_data_nodes)) [
      | inl allocates ↦
          read-TreeKept (Operation.add o) (batch_allocate_data_nodes o.chunk_num m.data_node_map) _
            m m' r (rw (second, allocates, apply_add) at e) (λ _. refl)
      | inr third ↦ elim (Bool-cases (o.stage == c.unlock_dic)) [
        | inl finishes ↦
            after_bind _ (give_up_failed o now m) _ (rw (second, third, finishes, apply_add) at e)
              λ m₁ given e.
                subst (TreeKept' (Operation.add o) m)
                  (sym (tree-update_pending o.infos m₁) ∙ ap (λ x. x.0.tree) (ok-injective e))
                  (give_up_failed-TreeKept o now m m₁ finishes given)
        | inr other ↦
            kept-TreeKept (Operation.add o) m m' m Reply.nil r refl
              (rw (second, third, other, apply_add) at e)
      ]
    ]
  ]

  get-TreeKept :
      (o : GetOperation) (m m' : Master S Q) (r : Reply)
      → apply_get o m ≡ ok (m', r)
      → TreeKept (Operation.get o) m m'
  unfolding apply_get
  get-TreeKept o m m' r e = elim (Bool-cases (o.stage == c.check_args)) [
    | inl first ↦
        read-TreeKept (Operation.get o) _ _ m m' r (rw (first, apply_get) at e) (λ _. refl)
    | inr second ↦ elim (Bool-cases (o.stage == c.get_data_nodes)) [
      | inl locates ↦
          let chunk_id =
            c.combine_string
              (o.file_node_id ∷ (c.chunk_id_delimiter ∷ []) ∷ itoa o.chunk_index ∷ []) in
          let answer : Chunk S → Master S Q × Reply = λ chunk.
            let found = get_sorted_data_node_ids chunk.data_nodes m.data_node_map in
            (m, Reply.located found.0 found.1 o.chunk_index) in
          read-TreeKept (Operation.get o) (deref (get_chunk chunk_id m.chunks_map)) answer m m' r
            (rw (second, locates, apply_get) at e) (λ _. refl)
      | inr other ↦
          kept-TreeKept (Operation.get o) m m' m Reply.nil r refl
            (rw (second, other, apply_get) at e)
    ]
  ]

  -- Every operation that MasterFSM.Apply runs without an error leaves the tree alone or does one
  -- operation on trees, which it requests.
  pub apply-TreeKept :
      (op : Operation) (now : ℕ) (id : GoString) (m m' : Master S Q) (r : Reply)
      → apply op now id m ≡ ok (m', r)
      → TreeKept op m m'
  unfolding request apply apply_register remove_file_node check_chunks
  apply-TreeKept (Operation.register o) now id m m' r e =
      kept-TreeKept (Operation.register o) m m' _ _ r refl e
  apply-TreeKept (Operation.heartbeat o) now id m m' r e = heartbeat-TreeKept o now m m' r e
  apply-TreeKept (Operation.add o) now id m m' r e = add-TreeKept o now id m m' r e
  apply-TreeKept (Operation.get o) now id m m' r e = get-TreeKept o m m' r e
  apply-TreeKept (Operation.mkdir path filename) now id m m' r e =
      step-TreeKept (Operation.mkdir path filename) _ _ m m' r e (λ x. refl)
        (λ t p done. (added id path filename c.dir_size false done, refl))
  apply-TreeKept (Operation.move source target) now id m m' r e =
      step-TreeKept (Operation.move source target) _ _ m m' r e (λ x. refl)
        (λ t p done. (moved source target done, refl))
  apply-TreeKept (Operation.remove path) now id m m' r e =
      step-TreeKept (Operation.remove path) _ _ m m' r e (λ x. refl)
        (λ t p done. (removed path true now done, (_, refl)))
  apply-TreeKept (Operation.list_files path) now id m m' r e =
      read-TreeKept (Operation.list_files path) _ _ m m' r e (λ _. refl)
  apply-TreeKept (Operation.stat path) now id m m' r e =
      read-TreeKept (Operation.stat path) _ _ m m' r e (λ _. refl)
  apply-TreeKept (Operation.rename path name) now id m m' r e =
      step-TreeKept (Operation.rename path name) _ _ m m' r e (λ x. refl)
        (λ t p done. (renamed path name done, refl))
  apply-TreeKept (Operation.degrade node_id stage) now id m m' r e =
      kept-TreeKept (Operation.degrade node_id stage) m m' (degrade_data_node node_id stage m) _ r
        (tree-degrade node_id stage m) e
  apply-TreeKept (Operation.allocate_chunks o) now id m m' r e =
      after_bind _ (apply_allocate_plan o m) _ e λ m₁ planned e.
        kept-TreeKept (Operation.allocate_chunks o) m m' m₁ _ r (tree-allocate_plan o m m₁ planned)
          e
  apply-TreeKept (Operation.expand o) now id m m' r e =
      after_bind _ (apply_expand o m) _ e λ m₁ planned e.
        kept-TreeKept (Operation.expand o) m m' m₁ _ r (tree-expand o m m₁ planned) e
  apply-TreeKept Operation.check_chunks_op now id m m' r e =
      kept-TreeKept Operation.check_chunks_op m m' (check_chunks m) _ r refl e
  apply-TreeKept Operation.check_data_nodes now id m m' r e =
      kept-TreeKept Operation.check_data_nodes m m' _ _ r refl e
