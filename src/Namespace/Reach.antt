-- ===== src/Namespace/Reach.antt =====
-- The trees that the operations of internal/namespace.go lead to, from the tree with which the
-- master starts. An operation that returns an error changes nothing, and one that panics has no
-- state after it.
use tinydfs_master.Base.{ℕ, ◌≡◌, refl, Bool, GoString, nat_list_eq, arith, ok}
use tinydfs_master.Base.GoMap.{lookup-nil}
use tinydfs_master.External.{Common, StringSet}
use tinydfs_master.Namespace.{
  DirTree, initial_tree, add_file_node, move_file_node, rename_file_node, remove_file_node_as,
}
use tinydfs_master.Namespace.WellFormed.{IsWellFormed}
use tinydfs_master.Namespace.Invariant.{
  add_file_node-IsWellFormed, move_file_node-IsWellFormed, rename_file_node-IsWellFormed,
  remove_file_node_as-IsWellFormed,
}

module _ {S : Type 0} ⦃c : Common⦄ ⦃s : StringSet S⦄ where
  pub data TreeStep (t : DirTree S) : DirTree S → Type 0 where
    added :
        {t' : DirTree S} {p : ℕ} (id path filename : GoString) (size : ℕ) (is_file : Bool)
        → add_file_node t id path filename size is_file ≡ ok (t', p)
        → TreeStep t t'
    moved :
        {t' : DirTree S} {p : ℕ} (current_path target_path : GoString)
        → move_file_node t current_path target_path ≡ ok (t', p)
        → TreeStep t t'
    renamed :
        {t' : DirTree S} {p : ℕ} (path new_name : GoString)
        → rename_file_node t path new_name ≡ ok (t', p)
        → TreeStep t t'
    removed :
        {t' : DirTree S} {p : ℕ} (path : GoString) (is_dummy : Bool) (now : ℕ)
        → remove_file_node_as t path is_dummy now ≡ ok (t', p)
        → TreeStep t t'

  pub data Reachable (id : GoString) : DirTree S → Type 0 where
    start : Reachable id (initial_tree id)
    next : {t t' : DirTree S} → Reachable id t → TreeStep t t' → Reachable id t'

  pub TreeStep-IsWellFormed : {t t' : DirTree S} → TreeStep t t' → IsWellFormed t → IsWellFormed t'
  TreeStep-IsWellFormed (added id path filename size is_file e) w =
      add_file_node-IsWellFormed w id path filename size is_file e
  TreeStep-IsWellFormed (moved current_path target_path e) w =
      move_file_node-IsWellFormed w current_path target_path e
  TreeStep-IsWellFormed (renamed path new_name e) w =
      rename_file_node-IsWellFormed w path new_name e
  TreeStep-IsWellFormed (removed path is_dummy now e) w =
      remove_file_node_as-IsWellFormed w path is_dummy now e

  pub initial_tree-IsWellFormed : (id : GoString) → IsWellFormed (initial_tree {S = S} id)
  unfolding initial_tree
  initial_tree-IsWellFormed id = record {
    root_allocated = omega arith;
    root_on_top = refl;
    root_live = refl;
    root_nameless = refl;
    child_allocated = λ p name k lt e. ground (arith, lookup-nil {V = ℕ} name);
    child_named = λ p name k lt e. ground (arith, lookup-nil {V = ℕ} name);
    child_below = λ p name k lt e. ground (arith, lookup-nil {V = ℕ} name);
    parent_allocated = λ k p lt e. ground arith;
  }

  -- After any sequence of adds, moves, renames, removals and erasures that starts with the
  -- master's first tree, the tree is well formed: every child is an allocated node that carries the name under which its parent holds
  -- it and points back at that parent, and the root is a live and nameless node without a parent.
  pub Reachable-IsWellFormed : (id : GoString) {t : DirTree S} → Reachable id t → IsWellFormed t
  Reachable-IsWellFormed id start = initial_tree-IsWellFormed id
  Reachable-IsWellFormed id (next r st) = TreeStep-IsWellFormed st (Reachable-IsWellFormed id r)
