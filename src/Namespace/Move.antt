-- ===== src/Namespace/Move.antt =====
-- MoveFileNode: the entry goes from one directory to the other.
use tinydfs_master.Base.{
  ℕ, ◌≡◌, ◌≢◌, some, none, ◌==◌, nat_eq, nat_list_eq, if◌then◌else◌, GoString, arith, ok,
}
use tinydfs_master.Namespace.{DirTree, child, get_file_node, move_file_node}
use tinydfs_master.Namespace.WellFormed.{IsWellFormed}
use tinydfs_master.Namespace.Walk.{get_file_node-held}
use tinydfs_master.Namespace.Outcomes.{MovedTo, move_file_node-ok}

module _ {S : Type 0} {t t' : DirTree S} (w : IsWellFormed t) (current_path target_path : GoString)
    {p : ℕ} (e : move_file_node t current_path target_path ≡ ok (t', p)) where
  moved : MovedTo t current_path target_path t' p
  moved = move_file_node-ok t current_path target_path e

  -- A move that succeeds goes to another directory than the one that holds the node. The target
  -- then holds the node under its name and is its parent, the old directory has nothing under
  -- that name, and every other entry of every directory is as before.
  pub move_moves_entry :
      (parent target q : ℕ) (other : GoString)
      → (t.heap p).parent_node ≡ some parent
      → get_file_node t target_path ≡ some target
      → (target ≢ parent)
        × ((t'.heap p).parent_node ≡ some target)
        × (child t'.heap q other ≡ (
            if (t.heap p).file_name == other
            then (if q == parent
                then none
                else if q == target
                then some p
                else child t.heap q other)
            else child t.heap q other))
  move_moves_entry parent target q other below found =
      let held = get_file_node-held current_path w moved.found below in
      let apart : target ≢ parent =
        λ same. ground (arith, found, moved.target_found, moved.unused, held.1) in
      (
        apart,
        ground (arith, found, moved.target_found, moved.parent_nodes p),
        ground (arith, found, below, moved.target_found, moved.held, moved.kids q other),
      )
