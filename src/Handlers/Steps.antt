-- ===== src/Handlers/Steps.antt =====
-- The calls of internal/master_handler.go as the steps of a server, and what they keep.
use tinydfs_master.Base.{
  ℕ, ◌≡◌, refl, sym, subst, Bool, true, false, some, List, [], ltb, GoString, Bool-cases, inl, inr,
  ok,
}
use tinydfs_master.External.{Common, StringSet, StringQueue}
use tinydfs_master.Operations.{Operation}
use tinydfs_master.Operations.Consistency.{IsAdmissible}
use tinydfs_master.Consistency.{counts}
use tinydfs_master.Consistency.Heartbeat.{DeletesForgotten}
use tinydfs_master.State.{Master}
use tinydfs_master.Raft.{Raft, Keeps, After, kept-After}
use tinydfs_master.Handlers.Rpc.{
  RpcNames, internal, unknown, rpc_error, Answer, Server, request_count_inc,
}
use tinydfs_master.Handlers.Nodes.{
  RegisterArgs, RegisterReply, register_operation, HeartbeatArgs, HeartbeatReply,
  heartbeat_operation, register, heartbeat_reply, heartbeat,
}
use tinydfs_master.Handlers.Replies.{
  CheckArgs4AddReply, CheckAndGetReply, GetDataNodes4GetReply, CheckAndStatReply, Callback4AddArgs,
  check_args_operation, get_data_nodes_operation, callback_operation, get_operation, done_reply,
  checked_args_reply, allocated_reply, located_reply, get_reply, list_reply, stat_reply,
}
use tinydfs_master.Handlers.Files.{
  check_args4_add, check_and_get, get_data_nodes4_add, get_data_nodes4_get, callback4_add,
  check_and_mkdir, check_and_move, check_and_remove, check_and_rename, check_and_list,
  check_and_stat,
}
use tinydfs_master.Handlers.Kept.{
  same_master, done_reply-keeps, checked_args_reply-keeps, allocated_reply-keeps,
  located_reply-keeps, get_reply-keeps, list_reply-keeps, stat_reply-keeps, heartbeat_reply-keeps,
  ask-keeps, apply_here-keeps, register-keeps, Expands,
}

-- A call that returns takes the server from one state to the next. A DataNode registers under a new
-- identifier, and reports as deleted only chunks that are unknown.
pub data Served {S Q : Type 0} ⦃c : Common⦄ ⦃s : StringSet S⦄ ⦃q : StringQueue Q⦄ (raft : Raft S Q)
    (names : RpcNames) : Server S Q → Server S Q → Type 0 where
  register_call :
      {server server' : Server S Q} (fuel : ℕ) (peer id : GoString) (args : RegisterArgs)
      (a : Answer RegisterReply)
      → ((k : GoString) → counts server.master.chunks_map k id ≡ false)
      → register raft names fuel peer id args server ≡ some (ok (server', a))
      → Served raft names server server'
  heartbeat_call :
      {server server' : Server S Q} (args : HeartbeatArgs) (a : Answer HeartbeatReply)
      → DeletesForgotten (heartbeat_operation args).success_infos server.master.chunks_map
      → heartbeat raft names args server ≡ ok (server', a)
      → Served raft names server server'
  check_args4_add_call :
      {server server' : Server S Q} (id path file_name : GoString) (size : ℕ)
      (a : Answer CheckArgs4AddReply)
      → check_args4_add raft names id path file_name size server ≡ ok (server', a)
      → Served raft names server server'
  check_and_get_call :
      {server server' : Server S Q} (id path : GoString) (a : Answer CheckAndGetReply)
      → check_and_get raft names id path server ≡ ok (server', a)
      → Served raft names server server'
  get_data_nodes4_add_call :
      {server server' : Server S Q} (file_node_id : GoString) (chunk_num : ℕ)
      (a : Answer (List (List GoString × List GoString)))
      → get_data_nodes4_add raft names file_node_id chunk_num server ≡ ok (server', a)
      → Served raft names server server'
  get_data_nodes4_get_call :
      {server server' : Server S Q} (file_node_id : GoString) (chunk_index : ℕ)
      (a : Answer GetDataNodes4GetReply)
      → get_data_nodes4_get raft names file_node_id chunk_index server ≡ ok (server', a)
      → Served raft names server server'
  callback4_add_call :
      {server server' : Server S Q} (args : Callback4AddArgs) (a : Answer (Unit {0}))
      → callback4_add raft names args server ≡ ok (server', a)
      → Served raft names server server'
  check_and_mkdir_call :
      {server server' : Server S Q} (path dir_name : GoString) (a : Answer (Unit {0}))
      → check_and_mkdir raft names path dir_name server ≡ ok (server', a)
      → Served raft names server server'
  check_and_move_call :
      {server server' : Server S Q} (source_path target_path : GoString) (a : Answer (Unit {0}))
      → check_and_move raft names source_path target_path server ≡ ok (server', a)
      → Served raft names server server'
  check_and_remove_call :
      {server server' : Server S Q} (path : GoString) (a : Answer (Unit {0}))
      → check_and_remove raft names path server ≡ ok (server', a)
      → Served raft names server server'
  check_and_rename_call :
      {server server' : Server S Q} (path new_name : GoString) (a : Answer (Unit {0}))
      → check_and_rename raft names path new_name server ≡ ok (server', a)
      → Served raft names server server'
  check_and_list_call :
      {server server' : Server S Q} (now : ℕ) (id : GoString) (is_latest : Bool) (path : GoString)
      (a : Answer (List (GoString × Bool)))
      → check_and_list raft names now id is_latest path server ≡ ok (server', a)
      → Served raft names server server'
  check_and_stat_call :
      {server server' : Server S Q} (now : ℕ) (id : GoString) (is_latest : Bool) (path : GoString)
      (a : Answer CheckAndStatReply)
      → check_and_stat raft names now id is_latest path server ≡ ok (server', a)
      → Served raft names server server'

module _ {S Q : Type 0} ⦃c : Common⦄ ⦃s : StringSet S⦄ ⦃q : StringQueue Q⦄ {raft : Raft S Q}
    {names : RpcNames} where
  -- The operations that a call may propose or apply, but for the expansion at the end of Register.
  abbrev pub Proposes :
      {server server' : Server S Q} → Served raft names server server' → Operation → Type 0
  Proposes (register_call fuel peer id args a fresh e) op =
      (need : Bool) × (op ≡ Operation.register (register_operation id peer need args))
  Proposes (heartbeat_call args a forgotten e) op =
      op ≡ Operation.heartbeat (heartbeat_operation args)
  Proposes (check_args4_add_call id path file_name size a e) op =
      op ≡ Operation.add (check_args_operation path file_name size id)
  Proposes (check_and_get_call id path a e) op =
      op ≡ Operation.get (get_operation path [] 0 c.check_args)
  Proposes (get_data_nodes4_add_call file_node_id chunk_num a e) op =
      op ≡ Operation.add (get_data_nodes_operation file_node_id chunk_num)
  Proposes (get_data_nodes4_get_call file_node_id chunk_index a e) op =
      op ≡ Operation.get (get_operation [] file_node_id chunk_index c.get_data_nodes)
  Proposes (callback4_add_call args a e) op = op ≡ Operation.add (callback_operation args)
  Proposes (check_and_mkdir_call path dir_name a e) op = op ≡ Operation.mkdir path dir_name
  Proposes (check_and_move_call source_path target_path a e) op =
      op ≡ Operation.move source_path target_path
  Proposes (check_and_remove_call path a e) op = op ≡ Operation.remove path
  Proposes (check_and_rename_call path new_name a e) op = op ≡ Operation.rename path new_name
  Proposes (check_and_list_call now id is_latest path a e) op = op ≡ Operation.list_files path
  Proposes (check_and_stat_call now id is_latest path a e) op = op ≡ Operation.stat path

  Proposes-IsAdmissible :
      {server server' : Server S Q} (served : Served raft names server server') (op : Operation)
      → Proposes served op
      → IsAdmissible op server.master
  unfolding register_operation
  Proposes-IsAdmissible {server} (register_call fuel peer id args a fresh e) op (need, same) =
      subst (λ o. IsAdmissible o server.master) (sym same) fresh
  Proposes-IsAdmissible {server} (heartbeat_call args a forgotten e) op same =
      subst (λ o. IsAdmissible o server.master) (sym same) forgotten
  Proposes-IsAdmissible {server} (check_args4_add_call id path file_name size a e) op same =
      subst (λ o. IsAdmissible o server.master) (sym same) tt
  Proposes-IsAdmissible {server} (check_and_get_call id path a e) op same =
      subst (λ o. IsAdmissible o server.master) (sym same) tt
  Proposes-IsAdmissible {server} (get_data_nodes4_add_call file_node_id chunk_num a e) op same =
      subst (λ o. IsAdmissible o server.master) (sym same) tt
  Proposes-IsAdmissible {server} (get_data_nodes4_get_call file_node_id chunk_index a e) op same =
      subst (λ o. IsAdmissible o server.master) (sym same) tt
  Proposes-IsAdmissible {server} (callback4_add_call args a e) op same =
      subst (λ o. IsAdmissible o server.master) (sym same) tt
  Proposes-IsAdmissible {server} (check_and_mkdir_call path dir_name a e) op same =
      subst (λ o. IsAdmissible o server.master) (sym same) tt
  Proposes-IsAdmissible {server} (check_and_move_call source_path target_path a e) op same =
      subst (λ o. IsAdmissible o server.master) (sym same) tt
  Proposes-IsAdmissible {server} (check_and_remove_call path a e) op same =
      subst (λ o. IsAdmissible o server.master) (sym same) tt
  Proposes-IsAdmissible {server} (check_and_rename_call path new_name a e) op same =
      subst (λ o. IsAdmissible o server.master) (sym same) tt
  Proposes-IsAdmissible {server} (check_and_list_call now id is_latest path a e) op same =
      subst (λ o. IsAdmissible o server.master) (sym same) tt
  Proposes-IsAdmissible {server} (check_and_stat_call now id is_latest path a e) op same =
      subst (λ o. IsAdmissible o server.master) (sym same) tt

module _ {S Q : Type 0} ⦃c : Common⦄ ⦃s : StringSet S⦄ ⦃q : StringQueue Q⦄ {P : Master S Q → Type 0}
    (expands : Expands P) where
  -- What holds before a call and after each operation that it may propose holds after the call.
  pub Served-holds :
      (raft : Raft S Q) (names : RpcNames) {server server' : Server S Q}
      (served : Served raft names server server')
      → P server.master
      → ((op : Operation) → Proposes served op → After op server.master P)
      → P server'.master
  unfolding heartbeat heartbeat_operation check_args4_add check_and_get get_data_nodes4_add
      get_data_nodes4_get callback4_add check_and_mkdir check_and_move check_and_remove
      check_and_rename check_and_list check_and_stat request_count_inc
  Served-holds raft names {server} {server'} (register_call fuel peer id args a fresh e) agree
        after =
      register-keeps expands raft names fuel peer id args server server' a agree
        (λ need. after _ (need, refl)) e
  Served-holds raft names {server} {server'} (heartbeat_call args a forgotten e) agree after =
      ask-keeps raft (rpc_error internal names.master_heartbeat_failed)
        (rpc_error internal names.master_heartbeat_failed)
        (Operation.heartbeat (heartbeat_operation args)) server heartbeat_reply server' a
        heartbeat_reply-keeps agree (after _ refl) e
  Served-holds raft names {server} {server'} (check_args4_add_call id path file_name size a e) agree
        after =
      elim (Bool-cases (ltb server.master.storable_num c.replica_num)) [
        | inl full ↦
            subst P (sym (same_master _ server' _ a (rw (full, check_args4_add) at e))) agree
        | inr room ↦
            ask-keeps raft (rpc_error internal names.master_check_args4_add_failed)
              (rpc_error internal names.master_check_args4_add_failed)
              (Operation.add (check_args_operation path file_name size id))
              (request_count_inc names.operation_add server) checked_args_reply server' a
              checked_args_reply-keeps agree (after _ refl) (rw (room, check_args4_add) at e)
      ]
  Served-holds raft names {server} {server'} (check_and_get_call id path a e) agree after =
      ask-keeps raft (rpc_error internal names.master_check_and_get_failed)
        (rpc_error internal names.master_check_and_get_failed)
        (Operation.get (get_operation path [] 0 c.check_args))
        (request_count_inc names.operation_get server) (get_reply id) server' a (get_reply-keeps id)
        agree (after _ refl) e
  Served-holds raft names {server} {server'} (get_data_nodes4_add_call file_node_id chunk_num a e)
        agree after =
      ask-keeps raft (rpc_error internal names.master_get_data_nodes4_add_failed)
        (rpc_error internal names.master_get_data_nodes4_add_failed)
        (Operation.add (get_data_nodes_operation file_node_id chunk_num)) server allocated_reply
        server' a allocated_reply-keeps agree (after _ refl) e
  Served-holds raft names {server} {server'} (get_data_nodes4_get_call file_node_id chunk_index a e)
        agree after =
      ask-keeps raft (rpc_error internal names.master_get_data_nodes4_get_failed)
        (rpc_error internal names.master_get_data_nodes4_get_failed)
        (Operation.get (get_operation [] file_node_id chunk_index c.get_data_nodes)) server
        located_reply server' a located_reply-keeps agree (after _ refl) e
  Served-holds raft names {server} {server'} (callback4_add_call args a e) agree after =
      ask-keeps raft (rpc_error internal names.master_callback4_add_failed)
        (rpc_error internal names.master_callback4_add_failed)
        (Operation.add (callback_operation args)) server (done_reply names.operation_add) server' a
        (done_reply-keeps names.operation_add) agree (after _ refl) e
  Served-holds raft names {server} {server'} (check_and_mkdir_call path dir_name a e) agree after =
      ask-keeps raft (rpc_error internal names.master_check_and_mkdir_failed)
        (rpc_error internal names.master_check_and_mkdir_failed) (Operation.mkdir path dir_name)
        (request_count_inc names.operation_mkdir server) (done_reply names.operation_mkdir) server'
        a (done_reply-keeps names.operation_mkdir) agree (after _ refl) e
  Served-holds raft names {server} {server'} (check_and_move_call source_path target_path a e) agree
        after =
      ask-keeps raft (rpc_error internal names.master_check_and_move_failed)
        (rpc_error internal names.master_check_and_move_failed)
        (Operation.move source_path target_path) (request_count_inc names.operation_move server)
        (done_reply names.operation_move) server' a (done_reply-keeps names.operation_move) agree
        (after _ refl) e
  Served-holds raft names {server} {server'} (check_and_remove_call path a e) agree after =
      ask-keeps raft (rpc_error internal names.master_check_and_remove_failed)
        (rpc_error internal names.master_check_and_remove_failed) (Operation.remove path)
        (request_count_inc names.operation_remove server) (done_reply names.operation_remove)
        server' a (done_reply-keeps names.operation_remove) agree (after _ refl) e
  Served-holds raft names {server} {server'} (check_and_rename_call path new_name a e) agree after =
      ask-keeps raft (rpc_error internal names.master_check_and_rename_failed)
        (rpc_error internal names.master_check_and_rename_failed) (Operation.rename path new_name)
        (request_count_inc names.operation_rename server) (done_reply names.operation_rename)
        server' a (done_reply-keeps names.operation_rename) agree (after _ refl) e
  Served-holds raft names {server} {server'} (check_and_list_call now id true path a e) agree
        after =
      ask-keeps raft (rpc_error internal names.master_check_and_list_failed)
        (rpc_error internal names.master_check_and_list_failed) (Operation.list_files path)
        (request_count_inc names.operation_list server) (list_reply names) server' a
        (list_reply-keeps names) agree (after _ refl) e
  Served-holds raft names {server} {server'} (check_and_list_call now id false path a e) agree
        after =
      apply_here-keeps (rpc_error internal names.master_check_and_list_failed)
        (Operation.list_files path) now id (request_count_inc names.operation_list server)
        (list_reply names) server' a (list_reply-keeps names) agree (after _ refl) e
  Served-holds raft names {server} {server'} (check_and_stat_call now id true path a e) agree
        after =
      ask-keeps raft (rpc_error unknown names.master_check_and_stat_failed)
        (rpc_error internal names.master_check_and_stat_failed) (Operation.stat path)
        (request_count_inc names.operation_stat server) (stat_reply names) server' a
        (stat_reply-keeps names) agree (after _ refl) e
  Served-holds raft names {server} {server'} (check_and_stat_call now id false path a e) agree
        after =
      apply_here-keeps (rpc_error internal names.master_check_and_stat_failed) (Operation.stat path)
        now id (request_count_inc names.operation_stat server) (stat_reply names) server' a
        (stat_reply-keeps names) agree (after _ refl) e

module _ {S Q : Type 0} ⦃c : Common⦄ ⦃s : StringSet S⦄ ⦃q : StringQueue Q⦄ {P : Master S Q → Type 0}
    (keeps : Keeps P) where
  pub Served-keeps :
      (raft : Raft S Q) (names : RpcNames) {server server' : Server S Q}
      → Served raft names server server'
      → P server.master
      → P server'.master
  Served-keeps raft names {server} served held =
      Served-holds {P = P} (λ o m held. kept-After keeps (Operation.expand o) m tt held) raft names
        served held
        (λ op proposes.
          kept-After keeps op server.master (Proposes-IsAdmissible served op proposes) held)
