-- ===== src/Wire/RoundTrip.antt =====
-- An operation that is proposed under its own name is the one that MasterFSM.Apply runs.
use tinydfs_master.Base.{
  ℕ, ◌≡◌, refl, inl, inr, true, some, nat_list_eq, GoString, arith, ok, Option-cases,
}
use tinydfs_master.Base.GoMap
use tinydfs_master.External.{Common, StringSet, StringQueue, NodeQueue}
use tinydfs_master.State.{Master}
use tinydfs_master.Raft.{ApplyResponse}
use tinydfs_master.Wire.{
  OpType, LogOperation, OpNames, OpContainer, Json, op_type_map, type_of, get_data4_apply,
  conv_bytes2_operation, apply_operation, fsm_apply_data,
}
use tinydfs_master.Wire.Names.{lookup-op_type_map}

module _ {B : Type 0} (json : Json B) (names : OpNames) where
  -- The bytes are decoded as the type that they are proposed under.
  pub conv_bytes2_operation-get_data4_apply :
      (o : LogOperation) (ty : OpType)
      → conv_bytes2_operation json names (get_data4_apply json names o (names.name ty))
        ≡ ok (json.unmarshal ty (json.marshal o))
  unfolding conv_bytes2_operation get_data4_apply
  conv_bytes2_operation-get_data4_apply o ty =
      rw
        (
          json.unmarshal_container-marshal_container names ty o,
          conv_bytes2_operation,
          lookup-op_type_map names ty,
        )
        refl

module _ {S Q P B : Type 0} ⦃c : Common⦄ ⦃s : StringSet S⦄ ⦃q : StringQueue Q⦄ (nodes : NodeQueue P)
    (fuel : ℕ) (json : Json B) (names : OpNames) where
  pub fsm_apply_data-decoded :
      (o o' : LogOperation) (ty : OpType) (now : ℕ) (id : GoString) (m : Master S Q)
      → json.unmarshal ty (json.marshal o) ≡ some o'
      → fsm_apply_data nodes fuel json names (get_data4_apply json names o (names.name ty)) now id m
        ≡ apply_operation nodes fuel o' now id m
  unfolding fsm_apply_data
  fsm_apply_data-decoded o o' ty now id m decoded =
      rw (conv_bytes2_operation-get_data4_apply json names o ty, fsm_apply_data, decoded) refl

  -- What MasterFSM.Apply makes of a log entry that carries an operation, encoded under the name of
  -- its type, is what the operation's own Apply does with the metadata, if its strings are valid
  -- UTF-8 and its maps are listed by key: encoding and decoding lose nothing.
  pub fsm_apply_data-get_data4_apply :
      (o : LogOperation) (now : ℕ) (id : GoString) (m : Master S Q)
      → json.is_encodable o ≡ true
      → fsm_apply_data nodes fuel json names
          (get_data4_apply json names o (names.name (type_of o)))
          now
          id
          m
        ≡ apply_operation nodes fuel o now id m
  fsm_apply_data-get_data4_apply o now id m fits =
      fsm_apply_data-decoded o o (type_of o) now id m (json.unmarshal-marshal o fits)

  -- MasterFSM.Apply survives a log entry only if the entry decodes: it is a container, under a name
  -- that OpTypeMap has, of data that decode as that type, and the outcome is that operation's.
  pub fsm_apply_data-ok :
      (data_bytes : B) (now : ℕ) (id : GoString) (m m' : Master S Q) (a : ApplyResponse)
      → fsm_apply_data nodes fuel json names data_bytes now id m ≡ some (ok (m', a))
      → (container : OpContainer B) × (ty : OpType) × (o : LogOperation) × (json.unmarshal_container
            data_bytes
          ≡ some container)
        × (GoMap.lookup container.op_type (op_type_map names) ≡ some ty)
        × (json.unmarshal ty container.op_data ≡ some o)
        × (apply_operation nodes fuel o now id m ≡ some (ok (m', a)))
  unfolding fsm_apply_data conv_bytes2_operation
  fsm_apply_data-ok data_bytes now id m m' a e =
      elim (Option-cases (json.unmarshal_container data_bytes)) [
        | inl broken ↦ absurd (ground (arith, broken, e))
        | inr (container, whole) ↦
            elim (Option-cases (GoMap.lookup container.op_type (op_type_map names))) [
              | inl unknown ↦ absurd (ground (arith, whole, unknown, e))
              | inr (ty, known) ↦ elim (Option-cases (json.unmarshal ty container.op_data)) [
                | inl broken ↦ absurd (ground (arith, whole, known, broken, e))
                | inr (o, decoded) ↦ (
                  container,
                  ty,
                  o,
                  whole,
                  known,
                  decoded,
                  ground (arith, whole, known, decoded, e),
                )
              ]
            ]
      ]
