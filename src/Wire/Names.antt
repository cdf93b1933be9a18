-- ===== src/Wire/Names.antt =====
-- OpTypeMap has every type of operation under its name.
use tinydfs_master.Base.{
  ◌≡◌, refl, inl, inr, some, List, [], ◌∷◌, ◌==◌, ==-refl, nat_list_eq, GoString, arith, Bool-cases,
}
use mathlib.Core.List.Memᴰ.{Memᴰ, head, tail}
use tinydfs_master.Base.GoMap
use tinydfs_master.Base.GoMap.{GoMap, lookup-insert}
use tinydfs_master.Wire.{
  OpType, register_type, heartbeat_type, add_type, get_type, mkdir_type, move_type, remove_type,
  list_type, stat_type, rename_type, allocate_chunks_type, expand_type, degrade_type,
  check_file_tree_type, check_chunks_type, check_data_nodes_type, OpNames, op_types, add_types,
  op_type_map,
}

module _ (names : OpNames) where
  -- Adding a type does not hide another one.
  insert-kept :
      (ty other : OpType) (m : GoMap GoString OpType)
      → GoMap.lookup (names.name ty) m ≡ some ty
      → GoMap.lookup (names.name ty) (GoMap.insert (names.name other) other m) ≡ some ty
  insert-kept ty other m there = elim (Bool-cases (names.name other == names.name ty)) [
    | inl same ↦
        let equal = names.name-injective other ty (ground (arith, same)) in
        ground (arith, same, equal, lookup-insert (names.name ty) (names.name other) other m)
    | inr differ ↦
        ground (arith, differ, there, lookup-insert (names.name ty) (names.name other) other m)
  ]

  add_types-kept :
      (types : List OpType) (ty : OpType) (m : GoMap GoString OpType)
      → GoMap.lookup (names.name ty) m ≡ some ty
      → GoMap.lookup (names.name ty) (add_types names types m) ≡ some ty
  unfolding add_types
  add_types-kept [] ty m there = there
  add_types-kept (other ∷ types) ty m there =
      add_types-kept types ty (GoMap.insert (names.name other) other m)
        (insert-kept ty other m there)

  add_types-has :
      (types : List OpType) (ty : OpType) (m : GoMap GoString OpType)
      → Memᴰ ty types
      → GoMap.lookup (names.name ty) (add_types names types m) ≡ some ty
  unfolding add_types
  add_types-has [] ty m h = elim h [ ]
  add_types-has (other ∷ types) ty m (head same) =
      add_types-kept types ty (GoMap.insert (names.name other) other m) (
        ground (
          arith,
          same,
          ==-refl (names.name ty),
          lookup-insert (names.name ty) (names.name other) other m,
        ))
  add_types-has (other ∷ types) ty m (tail more) =
      add_types-has types ty (GoMap.insert (names.name other) other m) more

first_type : (ty : OpType) (types : List OpType) → Memᴰ ty (ty ∷ types)
first_type ty types = head refl

later_type : (ty other : OpType) (types : List OpType) → Memᴰ ty types → Memᴰ ty (other ∷ types)
later_type ty other types more = tail more

every_type : (ty : OpType) → Memᴰ ty op_types
every_type register_type = search (first_type, later_type) depth 20
every_type heartbeat_type = search (first_type, later_type) depth 20
every_type add_type = search (first_type, later_type) depth 20
every_type get_type = search (first_type, later_type) depth 20
every_type mkdir_type = search (first_type, later_type) depth 20
every_type move_type = search (first_type, later_type) depth 20
every_type remove_type = search (first_type, later_type) depth 20
every_type list_type = search (first_type, later_type) depth 20
every_type stat_type = search (first_type, later_type) depth 20
every_type rename_type = search (first_type, later_type) depth 20
every_type allocate_chunks_type = search (first_type, later_type) depth 20
every_type expand_type = search (first_type, later_type) depth 20
every_type degrade_type = search (first_type, later_type) depth 20
every_type check_file_tree_type = search (first_type, later_type) depth 20
every_type check_chunks_type = search (first_type, later_type) depth 20
every_type check_data_nodes_type = search (first_type, later_type) depth 20

-- OpTypeMap has every type under the type's name.
pub lookup-op_type_map :
    (names : OpNames) (ty : OpType) → GoMap.lookup (names.name ty) (op_type_map names) ≡ some ty
unfolding op_type_map
lookup-op_type_map names ty = add_types-has names op_types ty [] (every_type ty)
