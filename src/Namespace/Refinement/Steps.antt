-- ===== src/Namespace/Refinement/Steps.antt =====
-- internal/namespace.go refines Spec, operation by operation and along every run.
use tinydfs_master.Base.{GoString}
use tinydfs_master.External.{Common, StringSet}
use tinydfs_master.Namespace.{DirTree, deleted_name}
use tinydfs_master.Namespace.Walk.{path_names}
use tinydfs_master.Namespace.Reach.{
  TreeStep, added, moved, renamed, removed, Reachable, Reachable-IsWellFormed,
}
use tinydfs_master.Namespace.Spec.{
  FileStep, Request, add_below, rename_to, remove_at, move_into, view,
}
use tinydfs_master.Namespace.Refinement.Adding.{add_file_node-FileStep}
use tinydfs_master.Namespace.Refinement.Renaming.{
  rename_file_node-FileStep, remove_file_node_as-FileStep,
}
use tinydfs_master.Namespace.Refinement.Moving.{move_file_node-FileStep}

module _ {S : Type 0} ⦃c : Common⦄ ⦃s : StringSet S⦄ where
  -- The request that a step of the tree serves.
  unfoldable pub request : {t t' : DirTree S} → TreeStep t t' → Request
  request (added id path filename size is_file e) = add_below (path_names path) filename
  request (moved current_path target_path e) =
      move_into (path_names current_path) (path_names target_path)
  request (renamed path new_name e) = rename_to (path_names path) new_name
  request {t} (removed {p = p} path is_dummy now e) =
      remove_at (path_names path) (deleted_name (t.heap p))

  -- Every successful operation on a tree that can arise does to the paths what the
  -- specification says of its request: an add creates one new node at its path, a rename or a
  -- move takes all paths below the old path to the new one, which hides what a sibling of that
  -- name had below it, a removal takes all paths below the removed one and below the name that
  -- the node gets away, a move of a directory below itself takes away all that is below it, and
  -- all other paths lead where they did.
  pub TreeStep-FileStep :
      (id : GoString) {t t' : DirTree S}
      → Reachable id t
      → (st : TreeStep t t') → FileStep (view t) (request st) (view t')
  unfolding request
  TreeStep-FileStep id r (added new path filename size is_file e) =
      add_file_node-FileStep (Reachable-IsWellFormed id r) new path filename size is_file e
  TreeStep-FileStep id r (moved current_path target_path e) =
      move_file_node-FileStep (Reachable-IsWellFormed id r) current_path target_path e
  TreeStep-FileStep id r (renamed path new_name e) =
      rename_file_node-FileStep (Reachable-IsWellFormed id r) path new_name e
  TreeStep-FileStep id r (removed path is_dummy now e) =
      remove_file_node_as-FileStep (Reachable-IsWellFormed id r) path is_dummy now e
