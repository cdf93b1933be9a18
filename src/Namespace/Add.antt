-- ===== src/Namespace/Add.antt =====
-- AddFileNode: the new node can be looked up, and every other path resolves as before.
use tinydfs_master.Base.{
  ℕ, ◌<◌, ◌≡◌, Bool, some, List, [], ◌∷◌, ◌++◌, nat_eq, nat_list_eq, GoString, arith, ok, sym, ◌∙◌,
}
use tinydfs_master.External.{Common, StringSet}
use tinydfs_master.Namespace.{
  DirTree, Heap, child, store, get_file_node, add_file_node, new_file_node, walk,
}
use tinydfs_master.Namespace.WellFormed.{IsWellFormed}
use tinydfs_master.Namespace.Walk.{
  walk-cons, walk-step, walk-append, path_names, get_file_node-walk,
}
use tinydfs_master.Namespace.Outcomes.{Added, add_file_node-ok}
use tinydfs_master.Namespace.Invariant.{child-new_file_node, add_file_node-IsWellFormed}

module _ {S : Type 0} ⦃c : Common⦄ ⦃s : StringSet S⦄ {t t' : DirTree S} (w : IsWellFormed t)
    (id path filename : GoString) (size : ℕ) (is_file : Bool) {new : ℕ}
    (e : add_file_node t id path filename size is_file ≡ ok (t', new)) where
  added : Added t id path filename size is_file t' new
  added = add_file_node-ok t id path filename size is_file e

  abbrev fresh : Heap
  fresh = store t.heap t.next (new_file_node id filename added.parent size is_file)

  -- A child that was there is there.
  child-kept :
      (p : ℕ) (name : GoString) (k : ℕ)
      → p < t.next
      → child t.heap p name ≡ some k
      → (child t'.heap p name ≡ some k) × ((t'.heap k).is_del ≡ (t.heap k).is_del)
  child-kept p name k lt hit = (
    ground (
      arith,
      added.unused,
      added.linked.kids p name,
      child-new_file_node t.heap t.next id filename added.parent size is_file p name,
    ),
    ground (arith, added.linked.same k, w.child_allocated p name k lt hit),
  )

  walk-kept :
      (p : ℕ) (names : List GoString) {q : ℕ}
      → p < t.next
      → walk t.heap p names ≡ some q
      → walk t'.heap p names ≡ some q
  unfolding walk
  walk-kept p [] lt walked = walked
  walk-kept p (name ∷ names) lt walked =
      let (k, hit, live, rest) = walk-cons t.heap p name names walked in
      let (hit', del') = child-kept p name k lt hit in
      walk-step t'.heap p k name names hit' (del' ∙ live)
      ∙ walk-kept k names (w.child_allocated p name k lt hit) rest

  well_formed : IsWellFormed t'
  well_formed = add_file_node-IsWellFormed w id path filename size is_file e

  walk-kept_from_root :
      (other : GoString) (q : ℕ)
      → get_file_node t other ≡ some q
      → walk t'.heap t'.root (path_names other) ≡ some q
  walk-kept_from_root other q found = rw added.same_root (
      walk-kept t.root (path_names other) w.root_allocated
        (sym (get_file_node-walk other w) ∙ found))

  -- Every path that led to a node before an add leads to it after.
  pub get_file_node-kept :
      (other : GoString) (q : ℕ) → get_file_node t other ≡ some q → get_file_node t' other ≡ some q
  get_file_node-kept other q found =
      get_file_node-walk other well_formed ∙ walk-kept_from_root other q found

  -- After an add the names of the directory's path followed by the new name lead to the new node.
  pub walk-added : walk t'.heap t'.root (path_names path ++ filename ∷ []) ≡ some new
  unfolding new_file_node walk
  walk-added =
      walk-append t'.heap t'.root added.parent (path_names path) (filename ∷ [])
        (walk-kept_from_root path added.parent added.found)
      ∙ ground (
        arith,
        added.linked.kids added.parent filename,
        added.linked.same t.next,
        added.allocated,
      )
