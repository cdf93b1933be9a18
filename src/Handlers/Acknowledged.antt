-- ===== src/Handlers/Acknowledged.antt =====
-- A call of internal/master_handler.go on paths that is answered with success has been done.
use tinydfs_master.Base.{
  ℕ, ◌≡◌, refl, sym, ap, subst, ◌∙◌, GoString, Result, ok, after_bind, ok-injective, Result-cases,
  inl, inr, ◌>>=◌, true, false,
}
use tinydfs_master.External.{Common, StringSet, StringQueue}
use tinydfs_master.Namespace.{
  DirTree, deleted_name, add_file_node, move_file_node, remove_file_node, rename_file_node,
}
use tinydfs_master.Namespace.WellFormed.{IsWellFormed}
use tinydfs_master.Namespace.Walk.{path_names}
use tinydfs_master.Namespace.Spec.{
  FileStep, Request, add_below, rename_to, remove_at, move_into, view,
}
use tinydfs_master.Namespace.Refinement.Adding.{add_file_node-FileStep}
use tinydfs_master.Namespace.Refinement.Renaming.{
  rename_file_node-FileStep, remove_file_node_as-FileStep,
}
use tinydfs_master.Namespace.Refinement.Moving.{move_file_node-FileStep}
use tinydfs_master.State.{Master}
use tinydfs_master.Operations.{Operation, Reply}
use tinydfs_master.Operations.Apply.{apply}
use tinydfs_master.Raft.{
  ApplyFuture, ApplyResponse, response, error, failed, applied, fsm_apply, Raft,
}
use tinydfs_master.Handlers.Rpc.{
  RpcNames, RpcError, rpc_error, internal, Answer, replied, Server, request_count_inc, after_future,
  ask,
}
use tinydfs_master.Handlers.Replies.{done_reply}
use tinydfs_master.Handlers.Files.{
  check_and_mkdir, check_and_move, check_and_remove, check_and_rename,
}
use tinydfs_master.Handlers.Kept.{done_reply-keeps}

-- The calls that change the directory tree alone.
pub data PathCall : Type 0 where
  mkdir_call : GoString → GoString → PathCall
  move_call : GoString → GoString → PathCall
  remove_call : GoString → PathCall
  rename_call : GoString → GoString → PathCall

-- The request that a call makes; the name that a removed node gets is the master's to choose.
abbrev pub Asks : PathCall → Request → Type 0
Asks (mkdir_call path name) r = r ≡ add_below (path_names path) name
Asks (move_call source target) r = r ≡ move_into (path_names source) (path_names target)
Asks (remove_call path) r = (trash : GoString) × (r ≡ remove_at (path_names path) trash)
Asks (rename_call path name) r = r ≡ rename_to (path_names path) name

module _ {S Q : Type 0} ⦃c : Common⦄ ⦃s : StringSet S⦄ ⦃q : StringQueue Q⦄ (raft : Raft S Q) where
  abbrev Applies : Operation → Master S Q → Master S Q → Type 0
  Applies op m m' = (now : ℕ) × (id : GoString) × (r : Reply) × (apply op now id m ≡ ok (m', r))

  fsm_apply-response :
      (op : Operation) (now : ℕ) (id : GoString) (m m' : Master S Q) (r : Reply)
      → fsm_apply op now id m ≡ ok (m', response r)
      → Applies op m m'
  unfolding fsm_apply
  fsm_apply-response op now id m m' r e = elim (Result-cases (apply op now id m)) [
    | inl ((m₁, r₁), done) ↦
        let same : ◌≡◌ {A = Result (Master S Q × ApplyResponse)} (ok (m₁, response r₁))
            (ok (m', response r)) =
          rw (done, fsm_apply) at e in
        (now, id, r₁, done ∙ ap (λ x. ok (x.0, r₁)) (ok-injective same))
    | inr (inl (x, refuses)) ↦ absurd (cc (rw (refuses, fsm_apply) at e))
    | inr (inr panics) ↦ absurd (cc (rw (panics, fsm_apply) at e))
  ]

  after_future-replied :
      (op : Operation) (on_failure on_error : GoString → RpcError) (label : GoString)
      (server server' : Server S Q) (m : Master S Q) (future : ApplyFuture)
      → raft.propose op server.master ≡ ok (m, future)
      → after_future on_failure on_error (done_reply label) (record server { master = m }) future
        ≡ ok (server', replied tt)
      → Applies op server.master server'.master
  unfolding after_future
  after_future-replied op on_failure on_error label server server' m (failed x) proposed e =
      absurd (cc)
  after_future-replied op on_failure on_error label server server' m (applied (error x)) proposed
        e =
      absurd (cc)
  after_future-replied op on_failure on_error label server server' m (applied (response r)) proposed
        e =
      let (now, id, done) =
        raft.propose-Proposed op server.master m (applied (response r)) proposed in
      subst (Applies op server.master)
        (sym (done_reply-keeps label (record server { master = m }) r server' (replied tt) e))
        (fsm_apply-response op now id server.master m r done)

  ask-replied :
      (on_failure on_error : GoString → RpcError) (op : Operation) (label : GoString)
      (server server' : Server S Q)
      → ask raft on_failure on_error op server (done_reply label) ≡ ok (server', replied tt)
      → Applies op server.master server'.master
  unfolding ask
  ask-replied on_failure on_error op label server server' e =
      after_bind _ (raft.propose op server.master) _ e λ (m, future) proposed e.
        after_future-replied op on_failure on_error label server server' m future proposed e

  module _ (names : RpcNames) where
    unfoldable pub serve : PathCall → Server S Q → Result (Server S Q × Answer (Unit {0}))
    unfolding check_and_mkdir check_and_move check_and_remove check_and_rename
    serve (mkdir_call path name) server = check_and_mkdir raft names path name server
    serve (move_call source target) server = check_and_move raft names source target server
    serve (remove_call path) server = check_and_remove raft names path server
    serve (rename_call path name) server = check_and_rename raft names path name server

    -- The operation on trees that an applied operation has done.
    tree_done :
        (r : Result (DirTree S × ℕ)) (f : DirTree S × ℕ → Master S Q × Reply) (m' : Master S Q)
        (reply : Reply)
        → (r >>= λ x. ok (f x)) ≡ ok (m', reply)
        → ((x : DirTree S × ℕ) → (f x).0.tree ≡ x.0)
        → (p : ℕ) × (r ≡ ok (m'.tree, p))
    tree_done r f m' reply e there = after_bind _ r _ e λ (t, p) done e.
        (p, done ∙ ap (λ x. ok (x, p)) (sym (there (t, p)) ∙ ap (λ x. x.0.tree) (ok-injective e)))

    -- If CheckAndMkdir, CheckAndMove, CheckAndRemove or CheckAndRename answers with success, on a
    -- tree that is well formed, then the master that answers has done to its paths what the
    -- specification says of the call's request.
    pub serve-done :
        (call : PathCall) (server server' : Server S Q)
        → IsWellFormed server.master.tree
        → serve call server ≡ ok (server', replied tt)
        → (r : Request) × Asks call r
          × FileStep (view server.master.tree) r (view server'.master.tree)
    unfolding serve check_and_mkdir check_and_move check_and_remove check_and_rename
        request_count_inc apply remove_file_node
    serve-done (mkdir_call path name) server server' w e =
        let (now, id, r, done) =
          ask-replied (rpc_error internal names.master_check_and_mkdir_failed)
            (rpc_error internal names.master_check_and_mkdir_failed) (Operation.mkdir path name)
            names.operation_mkdir (request_count_inc names.operation_mkdir server) server' e in
        let (p, added) =
          tree_done (add_file_node server.master.tree id path name c.dir_size false) _
            server'.master r done (λ x. refl) in
        (
          add_below (path_names path) name,
          refl,
          add_file_node-FileStep w id path name c.dir_size false added,
        )
    serve-done (move_call source target) server server' w e =
        let (now, id, r, done) =
          ask-replied (rpc_error internal names.master_check_and_move_failed)
            (rpc_error internal names.master_check_and_move_failed) (Operation.move source target)
            names.operation_move (request_count_inc names.operation_move server) server' e in
        let (p, moved) =
          tree_done (move_file_node server.master.tree source target) _ server'.master r done
            (λ x. refl) in
        (
          move_into (path_names source) (path_names target),
          refl,
          move_file_node-FileStep w source target moved,
        )
    serve-done (remove_call path) server server' w e =
        let (now, id, r, done) =
          ask-replied (rpc_error internal names.master_check_and_remove_failed)
            (rpc_error internal names.master_check_and_remove_failed) (Operation.remove path)
            names.operation_remove (request_count_inc names.operation_remove server) server' e in
        let (p, removed) =
          tree_done (remove_file_node server.master.tree path now) _ server'.master r done
            (λ x. refl) in
        let trash = deleted_name (server.master.tree.heap p) in
        (
          remove_at (path_names path) trash,
          (trash, refl),
          remove_file_node_as-FileStep w path true now removed,
        )
    serve-done (rename_call path name) server server' w e =
        let (now, id, r, done) =
          ask-replied (rpc_error internal names.master_check_and_rename_failed)
            (rpc_error internal names.master_check_and_rename_failed) (Operation.rename path name)
            names.operation_rename (request_count_inc names.operation_rename server) server' e in
        let (p, renamed) =
          tree_done (rename_file_node server.master.tree path name) _ server'.master r done
            (λ x. refl) in
        (rename_to (path_names path) name, refl, rename_file_node-FileStep w path name renamed)
