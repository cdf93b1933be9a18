-- ===== src/Handlers/Nodes.antt =====
-- internal/master_handler.go: the calls of DataNodes, Register and Heartbeat.
use tinydfs_master.Base.{
  ℕ, ◌+◌, ◌%◌, ◌^◌, Bool, true, false, Option, none, some, List, [], ◌∷◌, length, GoString, Result,
  ok, err, panic, ◌>>=◌,
}
use tinydfs_master.Base.Strings.{split}
use tinydfs_master.External.{Common, StringSet, StringQueue}
use tinydfs_master.State.{ChunkSendInfo, HeartbeatOperation}
use tinydfs_master.DataNodes.{get_data_node}
use tinydfs_master.DataNodes.Selection.{get_data_node_addresses}
use tinydfs_master.DataNodes.Usage.{is_need2_expand}
use tinydfs_master.Checks.{first_piece}
use tinydfs_master.Expand.{do_expand}
use tinydfs_master.Operations.{Operation, RegisterOperation, Reply}
use tinydfs_master.Raft.{Raft}
use tinydfs_master.Handlers.Rpc.{
  RpcNames, internal, RpcError, rpc_error, Answer, refused, replied, Server, ask,
}

-- pb.ChunkInfo, in which the type of a send is an int32.
pub record ChunkInfo : Type 0 where
  pub chunk_id : GoString
  pub data_node_id : GoString
  pub send_type : ℕ

unfoldable pub conv_chunk_info : List ChunkInfo → List ChunkSendInfo
conv_chunk_info [] = []
conv_chunk_info (info ∷ infos) =
    record {
      chunk_id = info.chunk_id;
      data_node_id = info.data_node_id;
      send_type = info.send_type;
    }
    ∷ conv_chunk_info infos

-- `int32(...)` keeps the low bits; a type of send is not negative.
unfoldable pub de_conv_chunk_info : List ChunkSendInfo → List ChunkInfo
de_conv_chunk_info [] = []
de_conv_chunk_info (info ∷ infos) =
    record {
      chunk_id = info.chunk_id;
      data_node_id = info.data_node_id;
      send_type = info.send_type % 2 ^ 32;
    }
    ∷ de_conv_chunk_info infos

-- The arguments and replies of the calls, with the fields that the handlers use.
pub record RegisterArgs : Type 0 where
  pub chunk_ids : List GoString
  pub full_capacity : ℕ
  pub used_capacity : ℕ

pub record RegisterReply : Type 0 where
  pub id : GoString
  pub pending_count : ℕ

pub record HeartbeatArgs : Type 0 where
  pub id : GoString
  pub io_load : ℕ
  pub full_capacity : ℕ
  pub used_capacity : ℕ
  pub success_chunk_infos : List ChunkInfo
  pub fail_chunk_infos : List ChunkInfo
  pub invalid_chunks : List GoString
  pub is_ready : Bool

pub record HeartbeatReply : Type 0 where
  pub data_node_address : List GoString
  pub chunk_infos : List ChunkInfo

-- `codes.Internal` with an empty message.
unfoldable pub register_error : RpcNames → GoString → RpcError
register_error names text = record {
  status_code = internal;
  message = [];
  code = names.master_register_failed;
  msg = text;
}

-- The operation of a registration; `id` is the new identifier, `peer` the address of the caller.
unfoldable pub register_operation : GoString → GoString → Bool → RegisterArgs → RegisterOperation
register_operation id peer need2_expand args = record {
  address = first_piece (split b':' peer);
  data_node_id = id;
  chunk_ids = args.chunk_ids;
  full_capacity = args.full_capacity;
  used_capacity = args.used_capacity;
  is_need_expand = need2_expand;
}

unfoldable pub heartbeat_operation : HeartbeatArgs → HeartbeatOperation
unfolding conv_chunk_info
heartbeat_operation args = record {
  data_node_id = args.id;
  io_load = args.io_load;
  full_capacity = args.full_capacity;
  used_capacity = args.used_capacity;
  success_infos = conv_chunk_info args.success_chunk_infos;
  fail_infos = conv_chunk_info args.fail_chunk_infos;
  invalid_chunks = args.invalid_chunks;
  is_ready = args.is_ready;
}

-- `uint32(pendingCount + len(args.ChunkIds))`
unfoldable pub register_reply : GoString → ℕ → RegisterArgs → RegisterReply
register_reply id pending_count args = record {
  id = id;
  pending_count = (pending_count + length args.chunk_ids) % 2 ^ 32;
}

module _ {S Q : Type 0} ⦃c : Common⦄ ⦃s : StringSet S⦄ ⦃q : StringQueue Q⦄ where
  -- `response.Response.(string)` is a panic on any other type.
  unfoldable pub registered_id : Server S Q → Reply → Result (Server S Q × Answer GoString)
  registered_id server (Reply.data_node_id id) = ok (server, replied id)
  registered_id server _ = panic

  -- The part of Register after the proposal: the new DataNode takes over chunks if it is to.
  unfoldable pub finish_register :
      Raft S Q
      → ℕ
      → GoString
      → Bool
      → RegisterArgs
      → Server S Q × Answer GoString
      → Option (Result (Server S Q × Answer RegisterReply))
  unfolding get_data_node do_expand register_reply
  finish_register raft fuel data_node_id need2_expand args (server, refused e) =
      some (ok (server, refused e))
  finish_register raft fuel data_node_id false args (server, replied id) = some (
      ok (
        record server { data_node_count = server.data_node_count + 1 },
        replied (register_reply id 0 args),
      ))
  finish_register raft fuel data_node_id true args (server, replied id) =
      elim (get_data_node data_node_id server.master.data_node_map) [
        | none ↦ some panic
        | some node ↦ elim (do_expand raft fuel node server.master) [
          | none ↦ none
          | some r ↦ some (do
            (m, pending_count) ← r
            ok (
              record server { master = m; data_node_count = server.data_node_count + 1 },
              replied (register_reply id pending_count args),
            ))
        ]
      ]

  unfoldable pub propose_register :
      Raft S Q
      → RpcNames
      → GoString
      → GoString
      → Bool
      → RegisterArgs
      → Server S Q
      → Result (Server S Q × Answer GoString)
  unfolding ask register_error register_operation registered_id
  propose_register raft names peer data_node_id need2_expand args server =
      ask raft (register_error names) (register_error names)
        (Operation.register (register_operation data_node_id peer need2_expand args)) server
        registered_id

  -- `fuel` is that of DoExpand.
  unfoldable pub register :
      Raft S Q
      → RpcNames
      → ℕ
      → GoString
      → GoString
      → RegisterArgs
      → Server S Q
      → Option (Result (Server S Q × Answer RegisterReply))
  unfolding is_need2_expand propose_register finish_register
  register raft names fuel peer data_node_id args server =
      elim (is_need2_expand args.used_capacity args.full_capacity server.master.data_node_map) [
        | ok need2_expand ↦
            elim (propose_register raft names peer data_node_id need2_expand args server) [
              | ok asked ↦ finish_register raft fuel data_node_id need2_expand args asked
              | err e ↦ some (err e)
              | panic ↦ some panic
            ]
        | err e ↦ some (err e)
        | panic ↦ some panic
      ]

  -- `response.Response.([]ChunkSendInfo)`, with the addresses that the DataNode sends to.
  unfoldable pub heartbeat_reply : Server S Q → Reply → Result (Server S Q × Answer HeartbeatReply)
  unfolding de_conv_chunk_info get_data_node_addresses
  heartbeat_reply server (Reply.send_infos infos) = ok (
    server,
    replied (record {
      data_node_address = get_data_node_addresses infos server.master.data_node_map;
      chunk_infos = de_conv_chunk_info infos;
    }),
  )
  heartbeat_reply server _ = panic

  unfoldable pub heartbeat :
      Raft S Q → RpcNames → HeartbeatArgs → Server S Q → Result (Server S Q × Answer HeartbeatReply)
  unfolding ask rpc_error heartbeat_operation heartbeat_reply
  heartbeat raft names args server =
      ask raft (rpc_error internal names.master_heartbeat_failed)
        (rpc_error internal names.master_heartbeat_failed)
        (Operation.heartbeat (heartbeat_operation args)) server heartbeat_reply
