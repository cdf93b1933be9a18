-- ===== src/Namespace/Invariant.antt =====
-- Every operation of internal/namespace.go keeps the tree well formed.
use tinydfs_master.Base.{
  ℕ, ◌<◌, ◌≡◌, Bool, true, false, none, some, ◌==◌, nat_eq, nat_list_eq, if◌then◌else◌, GoString,
  arith, ok,
}
use tinydfs_master.Base.GoMap.{lookup-nil}
use tinydfs_master.External.{Common, StringSet}
use tinydfs_master.Namespace.{
  DirTree, Heap, child, store, add_file_node, new_file_node, move_file_node, rename_file_node,
  remove_file_node_as,
}
use tinydfs_master.Namespace.WellFormed.{IsWellFormed}
use tinydfs_master.Namespace.Walk.{get_file_node-allocated}
use tinydfs_master.Namespace.Outcomes.{
  Renamed, Added, add_file_node-ok, rename_file_node-ok, MovedTo, move_file_node-ok,
  remove_file_node_as-ok,
}

-- A new node has no children.
pub child-new_file_node :
    ⦃c : Common⦄ (h : Heap) (a : ℕ) (id filename : GoString) (p size : ℕ) (is_file : Bool) (q : ℕ)
    (other : GoString)
    → child (store h a (new_file_node id filename p size is_file)) q other
      ≡ (if a == q then none else child h q other)
unfolding new_file_node
child-new_file_node h a id filename p size true q other = ground (arith, lookup-nil {V = ℕ} other)
child-new_file_node h a id filename p size false q other = ground (arith, lookup-nil {V = ℕ} other)

module _ {S : Type 0} {t t' : DirTree S} (w : IsWellFormed t) {p parent : ℕ} {name : GoString}
    (held : (t.heap p).parent_node ≡ some parent) (allocated : p < t.next)
    (r : Renamed t.heap p parent name t'.heap) (same_next : t'.next ≡ t.next)
    (same_root : t'.root ≡ t.root) where
  Renamed-IsWellFormed : IsWellFormed t'
  Renamed-IsWellFormed = record {
    root_allocated = ground (arith, w.root_allocated);
    root_on_top = ground (arith, w.root_on_top, r.parent_nodes t.root);
    root_live = ground (arith, w.root_on_top, w.root_live, r.is_dels t.root);
    root_nameless = ground (arith, w.root_on_top, w.root_nameless, r.file_names t.root);
    child_allocated = λ q other k lt e. ground (arith, r.kids q other, w.child_allocated q other k);
    child_named = λ q other k lt e. ground (
      arith,
      r.kids q other,
      r.renamed,
      r.file_names k,
      w.child_named q other k,
      w.child_below q other k,
    );
    child_below =
        λ q other k lt e. ground (arith, r.kids q other, r.parent_nodes k, w.child_below q other k);
    parent_allocated = λ k q lt e. ground (arith, r.parent_nodes k, w.parent_allocated k q);
  }

module _ {S : Type 0} {t t' : DirTree S} (w : IsWellFormed t) where
  pub rename_file_node-IsWellFormed :
      (path new_name : GoString) {p : ℕ}
      → rename_file_node t path new_name ≡ ok (t', p)
      → IsWellFormed t'
  rename_file_node-IsWellFormed path new_name e =
      let r = rename_file_node-ok t path new_name e in
      Renamed-IsWellFormed w r.held (get_file_node-allocated path w r.found) r.change r.same_next
        r.same_root

  pub remove_file_node_as-IsWellFormed :
      ⦃c : Common⦄ (path : GoString) (is_dummy : Bool) (now : ℕ) {p : ℕ}
      → remove_file_node_as t path is_dummy now ≡ ok (t', p)
      → IsWellFormed t'
  remove_file_node_as-IsWellFormed path is_dummy now e =
      let r = remove_file_node_as-ok t path is_dummy now e in
      Renamed-IsWellFormed w r.held (get_file_node-allocated path w r.found) r.change r.same_next
        r.same_root

  Moved-IsWellFormed :
      (current_path target_path : GoString) {p : ℕ}
      → MovedTo t current_path target_path t' p
      → p < t.next
      → IsWellFormed t'
  Moved-IsWellFormed current_path target_path {p} r lt = record {
    root_allocated = ground (arith, w.root_allocated, r.same_next, r.same_root);
    root_on_top = ground (arith, w.root_on_top, r.held, r.same_root, r.parent_nodes t.root);
    root_live = ground (arith, w.root_live, r.same_root, r.is_dels t.root);
    root_nameless = ground (arith, w.root_nameless, r.same_root, r.file_names t.root);
    child_allocated = λ q other k below e.
        ground (arith, r.same_next, r.kids q other, w.child_allocated q other k);
    child_named = λ q other k below e.
        ground (arith, r.same_next, r.kids q other, r.file_names k, w.child_named q other k);
    child_below = λ q other k below e. ground (
      arith,
      r.same_next,
      r.kids q other,
      r.held,
      r.parent_nodes k,
      w.child_below q other k,
      w.child_named q other k,
    );
    parent_allocated = λ k q below e. ground (
      arith,
      r.same_next,
      r.parent_nodes k,
      w.parent_allocated k q,
      get_file_node-allocated target_path w r.target_found,
    );
  }

  pub move_file_node-IsWellFormed :
      (current_path target_path : GoString) {p : ℕ}
      → move_file_node t current_path target_path ≡ ok (t', p)
      → IsWellFormed t'
  move_file_node-IsWellFormed current_path target_path e =
      let r = move_file_node-ok t current_path target_path e in
      Moved-IsWellFormed current_path target_path r (get_file_node-allocated current_path w r.found)

  module _ ⦃c : Common⦄ ⦃s : StringSet S⦄ where
    Added-IsWellFormed :
        (id path filename : GoString) (size : ℕ) (is_file : Bool) {new : ℕ}
        → (r : Added t id path filename size is_file t' new) → r.parent < t.next
        → IsWellFormed t'
    unfolding new_file_node
    Added-IsWellFormed id path filename size is_file r lt =
        let kids = child-new_file_node t.heap t.next id filename r.parent size is_file in
        record {
          root_allocated = ground (arith, w.root_allocated, r.next_grows, r.same_root);
          root_on_top =
              ground (arith, w.root_allocated, w.root_on_top, r.same_root, r.linked.same t.root);
          root_live =
              ground (arith, w.root_allocated, w.root_live, r.same_root, r.linked.same t.root);
          root_nameless =
              ground (arith, w.root_allocated, w.root_nameless, r.same_root, r.linked.same t.root);
          child_allocated = λ q other k below e. ground (
            arith,
            r.next_grows,
            r.linked.kids q other,
            kids q other,
            w.child_allocated q other k,
          );
          child_named = λ q other k below e. ground (
            arith,
            r.next_grows,
            r.linked.kids q other,
            kids q other,
            r.linked.same k,
            w.child_allocated q other k,
            w.child_named q other k,
          );
          child_below = λ q other k below e. ground (
            arith,
            r.next_grows,
            r.linked.kids q other,
            kids q other,
            r.linked.same k,
            w.child_allocated q other k,
            w.child_below q other k,
          );
          parent_allocated =
              λ k q below e. ground (arith, r.next_grows, r.linked.same k, w.parent_allocated k q);
        }

    pub add_file_node-IsWellFormed :
        (id path filename : GoString) (size : ℕ) (is_file : Bool) {new : ℕ}
        → add_file_node t id path filename size is_file ≡ ok (t', new)
        → IsWellFormed t'
    add_file_node-IsWellFormed id path filename size is_file e =
        let r = add_file_node-ok t id path filename size is_file e in
        Added-IsWellFormed id path filename size is_file r (get_file_node-allocated path w r.found)
