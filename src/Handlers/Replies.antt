-- ===== src/Handlers/Replies.antt =====
-- internal/master_handler.go: the operations that the calls of clients propose, and the replies.
use tinydfs_master.Base.{
  ℕ, Bool, Option, none, List, [], length, GoString, codes, Result, ok, panic,
}
use tinydfs_master.External.{Common}
use tinydfs_master.State.{ChunkTaskResult}
use tinydfs_master.Operations.{AddOperation, GetOperation, Reply}
use tinydfs_master.Handlers.Rpc.{RpcNames, Answer, replied, Server, success_count_inc}

-- The replies and arguments of the calls, with the fields that the handlers use. Lengths and
-- indices are below 2^31, so the conversions to int32 keep them.
pub record CheckArgs4AddReply : Type 0 where
  pub file_node_id : GoString
  pub chunk_num : ℕ

pub record CheckAndGetReply : Type 0 where
  pub file_node_id : GoString
  pub chunk_num : ℕ
  pub operation_id : GoString
  pub file_size : ℕ

pub record GetDataNodes4GetReply : Type 0 where
  pub data_node_ids : List GoString
  pub data_node_addrs : List GoString
  pub chunk_index : ℕ

pub record CheckAndStatReply : Type 0 where
  pub file_name : GoString
  pub is_file : Bool
  pub size : ℕ

pub record Callback4AddArgs : Type 0 where
  pub file_node_id : GoString
  pub fail_chunk_ids : Option (List GoString)
  pub file_path : GoString
  pub infos : List ChunkTaskResult

module _ {S Q : Type 0} where
  -- The reply without fields, with `SuccessCountInc`.
  unfoldable pub done_reply :
      GoString → Server S Q → Reply → Result (Server S Q × Answer (Unit {0}))
  unfolding success_count_inc
  done_reply label server _ = ok (success_count_inc label server, replied tt)

  -- A reply of a type that a handler does not expect is a panic.
  unfoldable pub checked_args_reply :
      Server S Q → Reply → Result (Server S Q × Answer CheckArgs4AddReply)
  checked_args_reply server (Reply.checked_args id chunk_num) =
      ok (server, replied (record { file_node_id = id; chunk_num = chunk_num }))
  checked_args_reply server _ = panic

  unfoldable pub allocated_reply :
      Server S Q → Reply → Result (Server S Q × Answer (List (List GoString × List GoString)))
  allocated_reply server (Reply.allocated placed) = ok (server, replied placed)
  allocated_reply server _ = panic

  unfoldable pub located_reply :
      Server S Q → Reply → Result (Server S Q × Answer GetDataNodes4GetReply)
  located_reply server (Reply.located ids addrs index) = ok (
    server,
    replied (record { data_node_ids = ids; data_node_addrs = addrs; chunk_index = index }),
  )
  located_reply server _ = panic

  unfoldable pub get_reply :
      GoString → Server S Q → Reply → Result (Server S Q × Answer CheckAndGetReply)
  get_reply operation_id server (Reply.file_node p) =
      let node = server.master.tree.heap p in
      ok (
        server,
        replied (record {
          file_node_id = node.id;
          chunk_num = length node.chunks;
          operation_id = operation_id;
          file_size = node.size;
        }),
      )
  get_reply operation_id server _ = panic

  unfoldable pub list_reply :
      RpcNames → Server S Q → Reply → Result (Server S Q × Answer (List (GoString × Bool)))
  unfolding success_count_inc
  list_reply names server (Reply.files files) =
      ok (success_count_inc names.operation_list server, replied files)
  list_reply names server _ = panic

  unfoldable pub stat_reply :
      RpcNames → Server S Q → Reply → Result (Server S Q × Answer CheckAndStatReply)
  unfolding success_count_inc
  stat_reply names server (Reply.file_node p) =
      let node = server.master.tree.heap p in
      ok (
        success_count_inc names.operation_stat server,
        replied (record { file_name = node.file_name; is_file = node.is_file; size = node.size }),
      )
  stat_reply names server _ = panic

-- The operations of the stages of an add and of a get; a field that is not set is zero.
unfoldable pub check_args_operation :
    ⦃c : Common⦄ → GoString → GoString → ℕ → GoString → AddOperation
check_args_operation ⦃c⦄ path file_name size id = record {
  path = path;
  file_name = file_name;
  size = size;
  file_node_id = id;
  chunk_num = 0;
  infos = [];
  fail_chunk_ids = none;
  stage = c.check_args;
}

unfoldable pub get_data_nodes_operation : ⦃c : Common⦄ → GoString → ℕ → AddOperation
get_data_nodes_operation ⦃c⦄ file_node_id chunk_num = record {
  path = [];
  file_name = [];
  size = 0;
  file_node_id = file_node_id;
  chunk_num = chunk_num;
  infos = [];
  fail_chunk_ids = none;
  stage = c.get_data_nodes;
}

unfoldable pub callback_operation : ⦃c : Common⦄ → Callback4AddArgs → AddOperation
callback_operation ⦃c⦄ args = record {
  path = args.file_path;
  file_name = [];
  size = 0;
  file_node_id = args.file_node_id;
  chunk_num = 0;
  infos = args.infos;
  fail_chunk_ids = args.fail_chunk_ids;
  stage = c.unlock_dic;
}

unfoldable pub get_operation : GoString → GoString → ℕ → ℕ → GetOperation
get_operation path file_node_id chunk_index stage = record {
  path = path;
  file_node_id = file_node_id;
  chunk_index = chunk_index;
  stage = stage;
}

unfoldable pub no_space : GoString
no_space = codes "insufficient free space in the catfs to store the file"
