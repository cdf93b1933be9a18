-- ===== src/Wire.antt =====
-- internal/operation.go, OpTypeMap and OpContainer; internal/master_handler.go, getData4Apply;
-- internal/fsm.go, ConvBytes2Operation and MasterFSM.Apply: an operation on its way through the
-- replicated log.
pub mod Names
pub mod RoundTrip
pub mod Ticks
use tinydfs_master.Base.{
  ℕ, ◌≡◌, Bool, true, Option, none, some, List, [], ◌∷◌, nat_list_eq, GoString, Result, ok, err,
  panic, ◌>>=◌, deref,
}
use tinydfs_master.Base.GoMap
use tinydfs_master.Base.GoMap.{GoMap}
use tinydfs_master.External.{Common, StringSet, StringQueue, NodeQueue}
use tinydfs_master.State.{Master}
use tinydfs_master.Checks.{check_file_tree}
use tinydfs_master.Operations.{Operation, Reply}
use tinydfs_master.Raft.{ApplyResponse, fsm_apply}

-- The types that implement Operation.
pub data OpType : Type 0 where
  register_type : OpType
  heartbeat_type : OpType
  add_type : OpType
  get_type : OpType
  mkdir_type : OpType
  move_type : OpType
  remove_type : OpType
  list_type : OpType
  stat_type : OpType
  rename_type : OpType
  allocate_chunks_type : OpType
  expand_type : OpType
  degrade_type : OpType
  check_file_tree_type : OpType
  check_chunks_type : OpType
  check_data_nodes_type : OpType

-- A value of the interface type Operation.
pub data LogOperation : Type 0 where
  operation : Operation → LogOperation
  check_file_tree_op : LogOperation

unfoldable pub type_of : LogOperation → OpType
type_of (operation (Operation.register o)) = register_type
type_of (operation (Operation.heartbeat o)) = heartbeat_type
type_of (operation (Operation.add o)) = add_type
type_of (operation (Operation.get o)) = get_type
type_of (operation (Operation.mkdir path filename)) = mkdir_type
type_of (operation (Operation.move source_path target_path)) = move_type
type_of (operation (Operation.remove path)) = remove_type
type_of (operation (Operation.list_files path)) = list_type
type_of (operation (Operation.stat path)) = stat_type
type_of (operation (Operation.rename path new_name)) = rename_type
type_of (operation (Operation.degrade data_node_id stage)) = degrade_type
type_of (operation (Operation.allocate_chunks o)) = allocate_chunks_type
type_of (operation (Operation.expand o)) = expand_type
type_of (operation Operation.check_chunks_op) = check_chunks_type
type_of (operation Operation.check_data_nodes) = check_data_nodes_type
type_of check_file_tree_op = check_file_tree_type

-- common.OperationRegister and so on: a different constant for each type.
pub record OpNames : Type 0 where
  pub name : OpType → GoString
  pub name-injective : (a b : OpType) → name a ≡ name b → a ≡ b

pub record OpContainer (B : Type 0) : Type 0 where
  pub op_type : GoString
  pub op_data : B

-- Package encoding/json on bytes `B`. `is_encodable` holds of an operation whose strings are valid
-- UTF-8 and whose maps are listed by key; others do not survive as they are.
pub record Json (B : Type 0) : Type 0 where
  pub marshal : LogOperation → B
  pub marshal_container : OpContainer B → B
  -- `json.Unmarshal` into a new value of the type, and `none` for an error.
  pub unmarshal : OpType → B → Option LogOperation
  pub unmarshal_container : B → Option (OpContainer B)
  pub is_encodable : LogOperation → Bool
  pub unmarshal-marshal :
      (o : LogOperation) → is_encodable o ≡ true → unmarshal (type_of o) (marshal o) ≡ some o
  pub unmarshal_container-marshal_container :
      (names : OpNames) (ty : OpType) (o : LogOperation)
      → unmarshal_container
          (marshal_container (record { op_type = names.name ty; op_data = marshal o }))
        ≡ some (record { op_type = names.name ty; op_data = marshal o })
  -- CheckFileTreeOperation has the one field of CheckDataNodesOperation, under the same key.
  pub same_fields :
      unmarshal check_file_tree_type (marshal (operation Operation.check_data_nodes))
      ≡ some check_file_tree_op

-- `init` of operation.go: the entries of OpTypeMap, in order.
abbrev pub op_types : List OpType
op_types =
    register_type ∷ heartbeat_type ∷ add_type ∷ get_type ∷ mkdir_type ∷ move_type ∷ remove_type
    ∷ list_type ∷ stat_type ∷ rename_type ∷ allocate_chunks_type ∷ expand_type ∷ degrade_type
    ∷ check_file_tree_type ∷ check_chunks_type ∷ check_data_nodes_type ∷ []

-- `OpTypeMap[name] = type`, one after the other.
unfoldable pub add_types :
    (names : OpNames) → List OpType → GoMap GoString OpType → GoMap GoString OpType
add_types names [] m = m
add_types names (ty ∷ types) m = add_types names types (GoMap.insert (names.name ty) ty m)

unfoldable pub op_type_map : OpNames → GoMap GoString OpType
unfolding add_types
op_type_map names = add_types names op_types []

module _ {B : Type 0} (json : Json B) (names : OpNames) where
  unfoldable pub get_data4_apply : LogOperation → GoString → B
  get_data4_apply o op_type =
      json.marshal_container (record { op_type = op_type; op_data = json.marshal o })

  -- `ok none` is a nil Operation. `reflect.New` of a nil type, for a name that OpTypeMap does not
  -- have, panics.
  unfoldable pub conv_bytes2_operation : B → Result (Option LogOperation)
  unfolding op_type_map
  conv_bytes2_operation data_bytes = elim (json.unmarshal_container data_bytes) [
    | none ↦ ok none
    | some container ↦ do
      ty ← deref (GoMap.lookup container.op_type (op_type_map names))
      ok (json.unmarshal ty container.op_data)
  ]

module _ {S Q P : Type 0} ⦃c : Common⦄ ⦃s : StringSet S⦄ ⦃q : StringQueue Q⦄ (nodes : NodeQueue P)
    (fuel : ℕ) where
  -- `operation.Apply()` and its ApplyResponse; `none` means that the fuel of the file tree check
  -- ran out.
  unfoldable pub apply_operation :
      LogOperation → ℕ → GoString → Master S Q → Option (Result (Master S Q × ApplyResponse))
  unfolding fsm_apply check_file_tree
  apply_operation (operation o) now id m = some (fsm_apply o now id m)
  apply_operation check_file_tree_op now id m = elim (check_file_tree nodes fuel now m.tree) [
    | none ↦ none
    | some r ↦ some (do t ← r; ok (record m { tree = t }, ApplyResponse.response Reply.nil))
  ]

  -- MasterFSM.Apply on the bytes of a log entry. Apply of a nil Operation panics.
  unfoldable pub fsm_apply_data :
      {B : Type 0}
      → Json B
      → OpNames
      → B
      → ℕ
      → GoString
      → Master S Q
      → Option (Result (Master S Q × ApplyResponse))
  unfolding conv_bytes2_operation apply_operation
  fsm_apply_data json names data_bytes now id m =
      elim (conv_bytes2_operation json names data_bytes) [
        | panic ↦ some panic
        | err e ↦ some (err e)
        | ok none ↦ some panic
        | ok (some o) ↦ apply_operation o now id m
      ]
