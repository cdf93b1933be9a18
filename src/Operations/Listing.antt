-- ===== src/Operations/Listing.antt =====
-- ListOperation of internal/operation.go: what a list of files shows.
use tinydfs_master.Base.{
  ℕ, ◌≡◌, refl, ◌∙◌, Bool, true, false, some, List, [], ◌∷◌, ◌==◌, ==-refl, nat_eq, nat_list_eq,
  if◌then◌else◌, GoString, arith, ok, some-injective, Bool-cases, inl, inr,
}
use tinydfs_master.Base.GoMap
use tinydfs_master.Base.GoMap.{GoMap, lookup}
use tinydfs_master.External.{Common, StringSet, StringQueue}
use tinydfs_master.Namespace.{
  DirTree, entries, child, get_file_node, list_file_node, remove_file_node_as, deleted_name,
}
use tinydfs_master.Namespace.WellFormed.{IsWellFormed}
use tinydfs_master.Namespace.Walk.{get_file_node-allocated}
use tinydfs_master.Namespace.Outcomes.{remove_file_node_as-ok}
use tinydfs_master.Namespace.Invariant.{remove_file_node_as-IsWellFormed}
use tinydfs_master.State.{Master}
use tinydfs_master.Operations.{Operation, Reply, file_infos}
use tinydfs_master.Operations.Apply.{apply}

-- A list has an entry of this name.
abbrev pub shows : GoString → List (GoString × Bool) → Bool
shows name [] = false
shows name ((other, is_file) ∷ infos) = if other == name then true else shows name infos

module _ {S : Type 0} ⦃s : StringSet S⦄ (t : DirTree S) where
  shows-entry :
      (entries : GoMap GoString ℕ) (key : GoString) (k : ℕ)
      → lookup key entries ≡ some k
      → shows (t.heap k).file_name (file_infos t (GoMap.values entries)) ≡ true
  unfolding lookup file_infos
  shows-entry [] key k found = absurd (ground (arith, found))
  shows-entry ((other, j) ∷ entries) key k found = elim (Bool-cases (other == key)) [
    | inl here ↦
        let same : j ≡ k = some-injective _ _ (rw (here, lookup) at found) in
        rw (same, ==-refl (t.heap k).file_name) refl
    | inr later ↦
        let rest = shows-entry entries key k (rw (later, lookup) at found) in ground (arith, rest)
  ]

module _ {S Q : Type 0} ⦃c : Common⦄ ⦃s : StringSet S⦄ ⦃q : StringQueue Q⦄ (m : Master S Q)
    (w : IsWellFormed m.tree) where
  -- The list of a directory shows every name under which the directory holds a node, live or
  -- removed.
  list-shows :
      (now : ℕ) (id path name : GoString) (p k : ℕ)
      → get_file_node m.tree path ≡ some p
      → (m.tree.heap p).is_file ≡ false
      → child m.tree.heap p name ≡ some k
      → (infos : List (GoString × Bool)) × (apply (Operation.list_files path) now id m
          ≡ ok (m, Reply.files infos))
        × (shows name infos ≡ true)
  unfolding apply list_file_node
  list-shows now id path name p k found directory held = (
    file_infos m.tree (GoMap.values (entries (m.tree.heap p).child_nodes)),
    rw (found, directory) refl,
    rw (← w.child_named p name k (get_file_node-allocated path w found) held)
        (shows-entry m.tree (entries (m.tree.heap p).child_nodes) name k held),
  )

module _ {S Q : Type 0} ⦃c : Common⦄ ⦃s : StringSet S⦄ ⦃q : StringQueue Q⦄ where
  -- A removed node is still listed: after the removal of a node from a well-formed tree, the list
  -- of the directory that holds it succeeds, by any path that leads to this directory, and shows
  -- the name that the removal gave the node.
  pub removed-listed :
      (m : Master S Q) (path directory id : GoString) (is_dummy : Bool) (now later : ℕ)
      (t' : DirTree S) (p parent : ℕ)
      → IsWellFormed m.tree
      → remove_file_node_as m.tree path is_dummy now ≡ ok (t', p)
      → (m.tree.heap p).parent_node ≡ some parent
      → (m.tree.heap parent).is_file ≡ false
      → get_file_node t' directory ≡ some parent
      → let m' : Master S Q = record m { tree = t' } in
        (infos : List (GoString × Bool)) × (apply (Operation.list_files directory) later id m'
          ≡ ok (m', Reply.files infos))
        × (shows (deleted_name (m.tree.heap p)) infos ≡ true)
  removed-listed m path directory id is_dummy now later t' p parent w e below is_directory found =
      let removed = remove_file_node_as-ok m.tree path is_dummy now e in
      list-shows (record m { tree = t' }) (remove_file_node_as-IsWellFormed w path is_dummy now e)
        later id directory (deleted_name (m.tree.heap p)) parent p found
        (removed.change.is_files parent ∙ is_directory)
        (ground
          (arith, removed.change.kids parent (deleted_name (m.tree.heap p)), below, removed.held))
