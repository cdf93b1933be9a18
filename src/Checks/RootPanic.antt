-- ===== src/Checks/RootPanic.antt =====
-- What CheckFileTreeOperation.Apply of internal/operation.go does to a tree that has files.
use tinydfs_master.Base.{ℕ, suc, ◌≡◌, refl, ap, ◌∙◌, List, [], ◌∷◌, ◌++◌, none, some, panic}
use tinydfs_master.Base.GoMap
use tinydfs_master.External.{StringSet, NodeQueue}
use tinydfs_master.Namespace.{DirTree, entries}
use tinydfs_master.Namespace.WellFormed.{IsWellFormed}
use tinydfs_master.Checks.{expire, visit_children, check_from, check_file_tree}

module _ {S : Type 0} ⦃s : StringSet S⦄ where
  visit_root-panics :
      {P : Type 0}
      → (q : NodeQueue P) (t : DirTree S) (queue : P) (node : ℕ) (nodes : List ℕ)
      → (t.heap t.root).parent_node ≡ none
      → visit_children q t queue t.root (node ∷ nodes) ≡ panic
  unfolding visit_children
  visit_root-panics q t queue node nodes on_top = rw (on_top, visit_children) refl

  -- The check of a tree whose root has a child panics, since it reads the parent of the root.
  pub check_file_tree-panics :
      {P : Type 0}
      → (q : NodeQueue P) (fuel now : ℕ) (t : DirTree S) (node : ℕ) (nodes : List ℕ)
      → IsWellFormed t
      → GoMap.values (entries (t.heap t.root).child_nodes) ≡ node ∷ nodes
      → check_file_tree q (suc fuel) now t ≡ some panic
  unfolding check_file_tree check_from expire
  check_file_tree-panics q fuel now t node nodes wf full =
      let one =
        q.contents-push q.new_queue t.root ∙ ap (λ xs. xs ++ t.root ∷ []) q.contents-new_queue in
      let (rest, popped, _) = q.pop-cons (q.push q.new_queue t.root) t.root [] one in
      rw
        (
          popped,
          check_file_tree,
          check_from,
          wf.root_live,
          expire,
          full,
          visit_root-panics q t rest node nodes wf.root_on_top,
        )
        refl
