-- ===== src/Namespace/Rename.antt =====
-- RenameFileNode: what becomes of the node, of a sibling with the new name, and of the mark.
use tinydfs_master.Base.{
  ℕ, ◌≡◌, ◌≢◌, false, some, none, ◌==◌, nat_eq, nat_list_eq, if◌then◌else◌, GoString, arith, ok,
  ◌∙◌,
}
use tinydfs_master.Namespace.{DirTree, child, get_file_node, rename_file_node}
use tinydfs_master.Namespace.WellFormed.{IsWellFormed}
use tinydfs_master.Namespace.Walk.{get_file_node-allocated, get_file_node-held}
use tinydfs_master.Namespace.Outcomes.{RenamedTo, rename_file_node-ok}
use tinydfs_master.Namespace.Invariant.{rename_file_node-IsWellFormed}

module _ {S : Type 0} {t t' : DirTree S} (w : IsWellFormed t) (path new_name : GoString) {p : ℕ}
    (e : rename_file_node t path new_name ≡ ok (t', p)) where
  renamed : RenamedTo t path new_name t' p
  renamed = rename_file_node-ok t path new_name e

  -- A rename that succeeds is of a node that is not marked as deleted, so it never takes a
  -- deletion back.
  pub rename_only_live : (t.heap p).is_del ≡ false
  rename_only_live = (get_file_node-held path w renamed.found renamed.held).0

  -- After a rename the parent holds the node under the new name and nothing under the old one,
  -- if that is another, and every other entry of every directory is as before.
  pub rename_moves_entry :
      (parent q : ℕ) (other : GoString)
      → (t.heap p).parent_node ≡ some parent
      → child t'.heap q other ≡ (
          if q == parent
          then (if new_name == other
              then some p
              else if (t.heap p).file_name == other
              then none
              else child t.heap q other)
          else child t.heap q other)
  rename_moves_entry parent q other below =
      ground (arith, below, renamed.held, renamed.change.kids q other)

  -- If a sibling has the new name of a rename already, no path leads to that sibling afterwards.
  pub rename_loses_sibling :
      (parent q : ℕ) (other : GoString)
      → (t.heap p).parent_node ≡ some parent
      → child t.heap parent new_name ≡ some q
      → q ≢ p
      → get_file_node t' other ≢ some q
  rename_loses_sibling parent q other below sibling ne found =
      let lt = w.parent_allocated p parent (get_file_node-allocated path w renamed.found) below in
      let below_q = renamed.change.parent_nodes q ∙ w.child_below parent new_name q lt sibling in
      let held =
        get_file_node-held other (rename_file_node-IsWellFormed w path new_name e) found below_q in
      ground (
        arith,
        held.1,
        below,
        renamed.held,
        w.child_named parent new_name q lt sibling,
        renamed.change.file_names q,
        renamed.change.kids parent new_name,
      )
