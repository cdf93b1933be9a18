-- ===== src/Handlers/Rpc.antt =====
-- internal/master_handler.go: what the handlers share, the errors that a call returns and the
-- way from a proposal to a reply.
use tinydfs_master.Base.{
  ℕ, ◌+◌, none, some, ◌++◌, nat_list_eq, GoString, codes, Error, path_not_exist,
  current_path_not_exist, target_path_not_exist, path_has_same_name, target_has_same_name,
  data_node_not_exist, Result, ok, ◌>>=◌,
}
use tinydfs_master.Base.GoMap
use tinydfs_master.Base.GoMap.{GoMap}
use tinydfs_master.External.{Common, StringSet, StringQueue}
use tinydfs_master.State.{Master}
use tinydfs_master.Operations.{Operation, Reply}
use tinydfs_master.Raft.{response, error, ApplyFuture, failed, applied, Raft}

-- The codes of package common for the errors of calls, and its names of the operations.
pub record RpcNames : Type 0 where
  pub master_register_failed : ℕ
  pub master_heartbeat_failed : ℕ
  pub master_check_args4_add_failed : ℕ
  pub master_check_and_get_failed : ℕ
  pub master_get_data_nodes4_add_failed : ℕ
  pub master_get_data_nodes4_get_failed : ℕ
  pub master_callback4_add_failed : ℕ
  pub master_check_and_mkdir_failed : ℕ
  pub master_check_and_move_failed : ℕ
  pub master_check_and_remove_failed : ℕ
  pub master_check_and_list_failed : ℕ
  pub master_check_and_stat_failed : ℕ
  pub master_check_and_rename_failed : ℕ
  pub operation_add : GoString
  pub operation_get : GoString
  pub operation_mkdir : GoString
  pub operation_move : GoString
  pub operation_remove : GoString
  pub operation_list : GoString
  pub operation_stat : GoString
  pub operation_rename : GoString

-- The codes of package grpc that the handlers use.
pub data StatusCode : Type 0 where
  internal : StatusCode
  unknown : StatusCode

-- status.New(status_code, message).WithDetails(RPCError{code, msg}).
pub record RpcError : Type 0 where
  pub status_code : StatusCode
  pub message : GoString
  pub code : ℕ
  pub msg : GoString

pub data Answer (A : Type 0) : Type 0 where
  refused : RpcError → Answer A
  replied : A → Answer A

-- The metadata and the counters of prometheus. The counters of requests and successes have the
-- address of this master as a further label. The gauge `csCountMonitor` is `data_node_count`, its
-- calls of `Inc`, less `data_node_losses`, its calls of `Dec`.
pub record Server (S Q : Type 0) : Type 0 where
  pub master : Master S Q
  pub requests : GoMap GoString ℕ
  pub successes : GoMap GoString ℕ
  pub data_node_count : ℕ
  pub data_node_losses : ℕ

-- The texts that fmt.Errorf makes in namespace.go and operation.go.
unfoldable pub error_text : Error → GoString
error_text (path_not_exist path) = codes "path not exist, path : " ++ path
error_text (current_path_not_exist path) = codes "current path not exist, path : " ++ path
error_text (target_path_not_exist path) = codes "target path not exist, path : " ++ path
error_text (path_has_same_name path) =
    codes "target path already has file with the same name, path : " ++ path
error_text (target_has_same_name name) =
    codes "target path already has file with the same name, filename : " ++ name
error_text (data_node_not_exist id) = codes "datanode " ++ id ++ codes " not exist"

unfoldable pub rpc_error : StatusCode → ℕ → GoString → RpcError
rpc_error status_code code text = record {
  status_code = status_code;
  message = text;
  code = code;
  msg = text;
}

-- `Inc()` on the counter of a label.
unfoldable pub increase : GoString → GoMap GoString ℕ → GoMap GoString ℕ
increase op m = elim (GoMap.lookup op m) [
  | none ↦ GoMap.insert op 1 m
  | some n ↦ GoMap.insert op (n + 1) m
]

module _ {S Q : Type 0} where
  unfoldable pub request_count_inc : GoString → Server S Q → Server S Q
  unfolding increase
  request_count_inc op server = record server { requests = increase op server.requests }

  unfoldable pub success_count_inc : GoString → Server S Q → Server S Q
  unfolding increase
  success_count_inc op server = record server { successes = increase op server.successes }

module _ {S Q : Type 0} {A : Type 0} (on_failure on_error : GoString → RpcError)
    (go_on : Server S Q → Reply → Result (Server S Q × Answer A)) where
  -- What every handler does with the future: it refuses what the future or the response refuses,
  -- each with its error, and otherwise goes on with the response.
  unfoldable pub after_future : Server S Q → ApplyFuture → Result (Server S Q × Answer A)
  unfolding error_text
  after_future server (failed e) = ok (server, refused (on_failure e))
  after_future server (applied (error e)) = ok (server, refused (on_error (error_text e)))
  after_future server (applied (response r)) = go_on server r

module _ {S Q : Type 0} ⦃c : Common⦄ ⦃s : StringSet S⦄ ⦃q : StringQueue Q⦄ where
  -- The proposal, and what comes after.
  unfoldable pub ask :
      {A : Type 0}
      → Raft S Q
      → (GoString → RpcError)
      → (GoString → RpcError)
      → Operation
      → Server S Q
      → (Server S Q → Reply → Result (Server S Q × Answer A))
      → Result (Server S Q × Answer A)
  unfolding after_future
  ask raft on_failure on_error op server go_on = do
    (m, future) ← raft.propose op server.master
    after_future on_failure on_error go_on (record server { master = m }) future
