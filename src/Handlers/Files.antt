-- ===== src/Handlers/Files.antt =====
-- internal/master_handler.go: the calls of clients.
use tinydfs_master.Base.{ℕ, Bool, List, [], if◌then◌else◌, ltb, GoString, Result, ok, err, panic}
use tinydfs_master.External.{Common, StringSet, StringQueue}
use tinydfs_master.Operations.{Operation, Reply}
use tinydfs_master.Operations.Apply.{apply}
use tinydfs_master.Raft.{Raft}
use tinydfs_master.Handlers.Rpc.{
  RpcNames, internal, unknown, RpcError, rpc_error, error_text, Answer, refused, Server,
  request_count_inc, ask,
}
use tinydfs_master.Handlers.Replies.{
  CheckArgs4AddReply, CheckAndGetReply, GetDataNodes4GetReply, CheckAndStatReply, Callback4AddArgs,
  done_reply, checked_args_reply, allocated_reply, located_reply, get_reply, list_reply, stat_reply,
  check_args_operation, get_data_nodes_operation, callback_operation, get_operation, no_space,
}

module _ {S Q : Type 0} ⦃c : Common⦄ ⦃s : StringSet S⦄ ⦃q : StringQueue Q⦄ where
  -- `id` is the UUID for the FileNode, which the operation carries and nothing reads.
  unfoldable pub check_args4_add :
      Raft S Q
      → RpcNames
      → GoString
      → GoString
      → GoString
      → ℕ
      → Server S Q
      → Result (Server S Q × Answer CheckArgs4AddReply)
  unfolding ask rpc_error request_count_inc check_args_operation checked_args_reply no_space
  check_args4_add raft names id path file_name size server =
      let counted = request_count_inc names.operation_add server in
      if ltb counted.master.storable_num c.replica_num
      then ok (counted, refused (rpc_error internal names.master_check_args4_add_failed no_space))
      else ask raft (rpc_error internal names.master_check_args4_add_failed)
          (rpc_error internal names.master_check_args4_add_failed)
          (Operation.add (check_args_operation path file_name size id)) counted checked_args_reply

  -- `id` is the UUID of the operation.
  unfoldable pub check_and_get :
      Raft S Q
      → RpcNames
      → GoString
      → GoString
      → Server S Q
      → Result (Server S Q × Answer CheckAndGetReply)
  unfolding ask rpc_error request_count_inc get_operation get_reply
  check_and_get raft names id path server =
      ask raft (rpc_error internal names.master_check_and_get_failed)
        (rpc_error internal names.master_check_and_get_failed)
        (Operation.get (get_operation path [] 0 c.check_args))
        (request_count_inc names.operation_get server) (get_reply id)

  unfoldable pub get_data_nodes4_add :
      Raft S Q
      → RpcNames
      → GoString
      → ℕ
      → Server S Q
      → Result (Server S Q × Answer (List (List GoString × List GoString)))
  unfolding ask rpc_error get_data_nodes_operation allocated_reply
  get_data_nodes4_add raft names file_node_id chunk_num server =
      ask raft (rpc_error internal names.master_get_data_nodes4_add_failed)
        (rpc_error internal names.master_get_data_nodes4_add_failed)
        (Operation.add (get_data_nodes_operation file_node_id chunk_num)) server allocated_reply

  unfoldable pub get_data_nodes4_get :
      Raft S Q
      → RpcNames
      → GoString
      → ℕ
      → Server S Q
      → Result (Server S Q × Answer GetDataNodes4GetReply)
  unfolding ask rpc_error get_operation located_reply
  get_data_nodes4_get raft names file_node_id chunk_index server =
      ask raft (rpc_error internal names.master_get_data_nodes4_get_failed)
        (rpc_error internal names.master_get_data_nodes4_get_failed)
        (Operation.get (get_operation [] file_node_id chunk_index c.get_data_nodes)) server
        located_reply

  unfoldable pub callback4_add :
      Raft S Q → RpcNames → Callback4AddArgs → Server S Q → Result (Server S Q × Answer (Unit {0}))
  unfolding ask rpc_error callback_operation done_reply
  callback4_add raft names args server =
      ask raft (rpc_error internal names.master_callback4_add_failed)
        (rpc_error internal names.master_callback4_add_failed)
        (Operation.add (callback_operation args)) server (done_reply names.operation_add)

  unfoldable pub check_and_mkdir :
      Raft S Q
      → RpcNames
      → GoString
      → GoString
      → Server S Q
      → Result (Server S Q × Answer (Unit {0}))
  unfolding ask rpc_error request_count_inc done_reply
  check_and_mkdir raft names path dir_name server =
      ask raft (rpc_error internal names.master_check_and_mkdir_failed)
        (rpc_error internal names.master_check_and_mkdir_failed) (Operation.mkdir path dir_name)
        (request_count_inc names.operation_mkdir server) (done_reply names.operation_mkdir)

  unfoldable pub check_and_move :
      Raft S Q
      → RpcNames
      → GoString
      → GoString
      → Server S Q
      → Result (Server S Q × Answer (Unit {0}))
  unfolding ask rpc_error request_count_inc done_reply
  check_and_move raft names source_path target_path server =
      ask raft (rpc_error internal names.master_check_and_move_failed)
        (rpc_error internal names.master_check_and_move_failed)
        (Operation.move source_path target_path) (request_count_inc names.operation_move server)
        (done_reply names.operation_move)

  unfoldable pub check_and_remove :
      Raft S Q → RpcNames → GoString → Server S Q → Result (Server S Q × Answer (Unit {0}))
  unfolding ask rpc_error request_count_inc done_reply
  check_and_remove raft names path server =
      ask raft (rpc_error internal names.master_check_and_remove_failed)
        (rpc_error internal names.master_check_and_remove_failed) (Operation.remove path)
        (request_count_inc names.operation_remove server) (done_reply names.operation_remove)

  unfoldable pub check_and_rename :
      Raft S Q
      → RpcNames
      → GoString
      → GoString
      → Server S Q
      → Result (Server S Q × Answer (Unit {0}))
  unfolding ask rpc_error request_count_inc done_reply
  check_and_rename raft names path new_name server =
      ask raft (rpc_error internal names.master_check_and_rename_failed)
        (rpc_error internal names.master_check_and_rename_failed) (Operation.rename path new_name)
        (request_count_inc names.operation_rename server) (done_reply names.operation_rename)

  -- `operation.Apply()` on this master, without raft; `now` and `id` as in apply.
  unfoldable pub apply_here :
      {A : Type 0}
      → (GoString → RpcError)
      → Operation
      → ℕ
      → GoString
      → Server S Q
      → (Server S Q → Reply → Result (Server S Q × Answer A))
      → Result (Server S Q × Answer A)
  unfolding apply error_text
  apply_here on_error op now id server go_on = elim (apply op now id server.master) [
    | ok (m, r) ↦ go_on (record server { master = m }) r
    | err e ↦ ok (server, refused (on_error (error_text e)))
    | panic ↦ panic
  ]

  unfoldable pub check_and_list :
      Raft S Q
      → RpcNames
      → ℕ
      → GoString
      → Bool
      → GoString
      → Server S Q
      → Result (Server S Q × Answer (List (GoString × Bool)))
  unfolding ask rpc_error request_count_inc list_reply apply_here
  check_and_list raft names now id is_latest path server =
      let counted = request_count_inc names.operation_list server in
      let refuse = rpc_error internal names.master_check_and_list_failed in
      if is_latest
      then ask raft refuse refuse (Operation.list_files path) counted (list_reply names)
      else apply_here refuse (Operation.list_files path) now id counted (list_reply names)

  -- A failure of raft has the status `codes.Unknown` here.
  unfoldable pub check_and_stat :
      Raft S Q
      → RpcNames
      → ℕ
      → GoString
      → Bool
      → GoString
      → Server S Q
      → Result (Server S Q × Answer CheckAndStatReply)
  unfolding ask rpc_error request_count_inc stat_reply apply_here
  check_and_stat raft names now id is_latest path server =
      let counted = request_count_inc names.operation_stat server in
      let refuse = rpc_error internal names.master_check_and_stat_failed in
      if is_latest
      then ask raft (rpc_error unknown names.master_check_and_stat_failed) refuse
          (Operation.stat path) counted (stat_reply names)
      else apply_here refuse (Operation.stat path) now id counted (stat_reply names)
