-- ===== src/Tests/Changes.antt =====
-- The theorems on removals, renames and moves of internal/namespace.go at a small tree.
use tinydfs_master.Base.{
  ℕ, ◌≡◌, ◌≢◌, ◌⊎◌, refl, true, false, none, some, [], ◌∷◌, ◌==◌, nat_eq, nat_list_eq,
  if◌then◌else◌, codes, Result, ok, panic, nat_list_discrete, ℕ_discrete, arith,
}
use tinydfs_master.Base.GoMap
use tinydfs_master.Base.Strings.{trim, trim_left, split, itoa, itoa_from}
use tinydfs_master.Samples.{sample_common, sample_set, sample_node_queue}
use tinydfs_master.Namespace.{
  put_child, delete_child, new_file_node, init_chunks, chunks_from, child, entries, deleted_name,
  initial_tree, walk, get_file_node, add_file_node, move_file_node, rename_file_node,
  remove_file_node_as,
}
use tinydfs_master.Namespace.Walk.{path_names}
use tinydfs_master.Namespace.Remove.{get_file_node-gone, get_file_node-kept_or_Through, Through}
use tinydfs_master.Namespace.Rename.{rename_only_live, rename_moves_entry, rename_loses_sibling}
use tinydfs_master.Namespace.Move.{move_moves_entry}
use tinydfs_master.Namespace.Reach.{TreeStep}
use tinydfs_master.Namespace.Spec.{FileStep, view}
use tinydfs_master.Namespace.Refinement.Steps.{request, TreeStep-FileStep}
use tinydfs_master.Checks.{check_file_tree}
use tinydfs_master.Checks.RootPanic.{check_file_tree-panics}
use tinydfs_master.Tests.Trees.{SampleTree, tree_of, with_b, Reachable-b, b-IsWellFormed}

abbrev pub tree : SampleTree
tree = tree_of with_b

abbrev pub removed_f : Result (SampleTree × ℕ)
removed_f = remove_file_node_as tree (codes "/a/f") true 5

pub removed_f-ok : removed_f ≡ ok (tree_of removed_f, 2)
unfolding add_file_node get_file_node nat_list_eq nat_list_discrete trim trim_left nat_eq ℕ_discrete
    initial_tree GoMap.lookup GoMap.insert GoMap.erase put_child delete_child walk split
    new_file_node init_chunks chunks_from itoa itoa_from remove_file_node_as deleted_name
    move_file_node rename_file_node
removed_f-ok = refl

get_file_node-gone_example : get_file_node (tree_of removed_f) (codes "/a/f") ≢ some 2
get_file_node-gone_example =
    get_file_node-gone b-IsWellFormed (codes "/a/f") true 5 removed_f-ok (codes "/a/f")

pub f_below_a : (tree.heap 2).parent_node ≡ some 1
unfolding add_file_node get_file_node nat_list_eq nat_list_discrete trim trim_left nat_eq ℕ_discrete
    initial_tree GoMap.lookup GoMap.insert GoMap.erase put_child delete_child walk split
    new_file_node init_chunks chunks_from itoa itoa_from remove_file_node_as deleted_name
    move_file_node rename_file_node
f_below_a = refl

deleted_unused : child tree.heap 1 (deleted_name (tree.heap 2)) ≡ none
unfolding add_file_node get_file_node nat_list_eq nat_list_discrete trim trim_left nat_eq ℕ_discrete
    initial_tree GoMap.lookup GoMap.insert GoMap.erase put_child delete_child walk split
    new_file_node init_chunks chunks_from itoa itoa_from remove_file_node_as deleted_name
    move_file_node rename_file_node
deleted_unused = refl

found_b : get_file_node tree (codes "/b") ≡ some 3
unfolding add_file_node get_file_node nat_list_eq nat_list_discrete trim trim_left nat_eq ℕ_discrete
    initial_tree GoMap.lookup GoMap.insert GoMap.erase put_child delete_child walk split
    new_file_node init_chunks chunks_from itoa itoa_from remove_file_node_as deleted_name
    move_file_node rename_file_node
found_b = refl

found_f : get_file_node tree (codes "/a/f") ≡ some 2
unfolding add_file_node get_file_node nat_list_eq nat_list_discrete trim trim_left nat_eq ℕ_discrete
    initial_tree GoMap.lookup GoMap.insert GoMap.erase put_child delete_child walk split
    new_file_node init_chunks chunks_from itoa itoa_from remove_file_node_as deleted_name
    move_file_node rename_file_node
found_f = refl

pub a_is_directory : (tree.heap 1).is_file ≡ false
unfolding add_file_node get_file_node nat_list_eq nat_list_discrete trim trim_left nat_eq ℕ_discrete
    initial_tree GoMap.lookup GoMap.insert GoMap.erase put_child delete_child walk split
    new_file_node init_chunks chunks_from itoa itoa_from remove_file_node_as deleted_name
    move_file_node rename_file_node
a_is_directory = refl

pub a_found_later : get_file_node (tree_of removed_f) (codes "/a") ≡ some 1
unfolding add_file_node get_file_node nat_list_eq nat_list_discrete trim trim_left nat_eq ℕ_discrete
    initial_tree GoMap.lookup GoMap.insert GoMap.erase put_child delete_child walk split
    new_file_node init_chunks chunks_from itoa itoa_from remove_file_node_as deleted_name
    move_file_node rename_file_node
a_found_later = refl

found_root : get_file_node tree (codes "/") ≡ some tree.root
unfolding add_file_node get_file_node nat_list_eq nat_list_discrete trim trim_left nat_eq ℕ_discrete
    initial_tree GoMap.lookup GoMap.insert GoMap.erase put_child delete_child walk split
    new_file_node init_chunks chunks_from itoa itoa_from remove_file_node_as deleted_name
    move_file_node rename_file_node
found_root = refl

get_file_node-kept_or_Through_example :
    (get_file_node (tree_of removed_f) (codes "/b") ≡ some 3)
    ⊎ Through b-IsWellFormed (codes "/a/f") true 5 removed_f-ok tree.root (path_names (codes "/b"))
get_file_node-kept_or_Through_example =
    get_file_node-kept_or_Through b-IsWellFormed (codes "/a/f") true 5 removed_f-ok 1 (codes "/b") 3
      f_below_a deleted_unused found_b

abbrev renamed_a : Result (SampleTree × ℕ)
renamed_a = rename_file_node tree (codes "/a") (codes "b")

renamed_a-ok : renamed_a ≡ ok (tree_of renamed_a, 1)
unfolding add_file_node get_file_node nat_list_eq nat_list_discrete trim trim_left nat_eq ℕ_discrete
    initial_tree GoMap.lookup GoMap.insert GoMap.erase put_child delete_child walk split
    new_file_node init_chunks chunks_from itoa itoa_from remove_file_node_as deleted_name
    move_file_node rename_file_node
renamed_a-ok = refl

a_below_root : (tree.heap 1).parent_node ≡ some 0
unfolding add_file_node get_file_node nat_list_eq nat_list_discrete trim trim_left nat_eq ℕ_discrete
    initial_tree GoMap.lookup GoMap.insert GoMap.erase put_child delete_child walk split
    new_file_node init_chunks chunks_from itoa itoa_from remove_file_node_as deleted_name
    move_file_node rename_file_node
a_below_root = refl

b_in_root : child tree.heap 0 (codes "b") ≡ some 3
unfolding add_file_node get_file_node nat_list_eq nat_list_discrete trim trim_left nat_eq ℕ_discrete
    initial_tree GoMap.lookup GoMap.insert GoMap.erase put_child delete_child walk split
    new_file_node init_chunks chunks_from itoa itoa_from remove_file_node_as deleted_name
    move_file_node rename_file_node
b_in_root = refl

renamed_was_live : (tree.heap 1).is_del ≡ false
renamed_was_live = rename_only_live b-IsWellFormed (codes "/a") (codes "b") renamed_a-ok

rename_moves_entry_example : child (tree_of renamed_a).heap 0 (codes "a") ≡ (
    if ◌==◌ {A = ℕ} 0 0
    then (if codes "b" == codes "a"
        then some 1
        else if (tree.heap 1).file_name == codes "a"
        then none
        else child tree.heap 0 (codes "a"))
    else child tree.heap 0 (codes "a"))
rename_moves_entry_example =
    rename_moves_entry b-IsWellFormed (codes "/a") (codes "b") renamed_a-ok 0 0 (codes "a")
      a_below_root

rename_loses_sibling_example : get_file_node (tree_of renamed_a) (codes "/b") ≢ some 3
rename_loses_sibling_example =
    rename_loses_sibling b-IsWellFormed (codes "/a") (codes "b") renamed_a-ok 0 3 (codes "/b")
      a_below_root b_in_root (omega arith)

-- The renamed directory stands where the lost one stood.
renamed_over : get_file_node (tree_of renamed_a) (codes "/b/f") ≡ some 2
unfolding add_file_node get_file_node nat_list_eq nat_list_discrete trim trim_left nat_eq ℕ_discrete
    initial_tree GoMap.lookup GoMap.insert GoMap.erase put_child delete_child walk split
    new_file_node init_chunks chunks_from itoa itoa_from remove_file_node_as deleted_name
    move_file_node rename_file_node
renamed_over = refl

abbrev moved_f : Result (SampleTree × ℕ)
moved_f = move_file_node tree (codes "/a/f") (codes "/b")

moved_f-ok : moved_f ≡ ok (tree_of moved_f, 2)
unfolding add_file_node get_file_node nat_list_eq nat_list_discrete trim trim_left nat_eq ℕ_discrete
    initial_tree GoMap.lookup GoMap.insert GoMap.erase put_child delete_child walk split
    new_file_node init_chunks chunks_from itoa itoa_from remove_file_node_as deleted_name
    move_file_node rename_file_node
moved_f-ok = refl

move_moves_entry_example :
    (◌≢◌ {A = ℕ} 3 1)
    × (((tree_of moved_f).heap 2).parent_node ≡ some 3)
    × (child (tree_of moved_f).heap 3 (codes "f") ≡ (
        if (tree.heap 2).file_name == codes "f"
        then (if ◌==◌ {A = ℕ} 3 1
            then none
            else if ◌==◌ {A = ℕ} 3 3
            then some 2
            else child tree.heap 3 (codes "f"))
        else child tree.heap 3 (codes "f")))
move_moves_entry_example =
    move_moves_entry b-IsWellFormed (codes "/a/f") (codes "/b") moved_f-ok 1 3 3 (codes "f")
      f_below_a found_b

abbrev move_step : TreeStep tree (tree_of moved_f)
move_step = TreeStep.moved (codes "/a/f") (codes "/b") moved_f-ok

TreeStep-FileStep_example : FileStep (view tree) (request move_step) (view (tree_of moved_f))
TreeStep-FileStep_example = TreeStep-FileStep (codes "r") Reachable-b move_step

pub root_entries : GoMap.values (entries (tree.heap tree.root).child_nodes) ≡ 1 ∷ 3 ∷ []
unfolding add_file_node get_file_node nat_list_eq nat_list_discrete trim trim_left nat_eq ℕ_discrete
    initial_tree GoMap.lookup GoMap.insert GoMap.erase put_child delete_child walk split
    new_file_node init_chunks chunks_from itoa itoa_from remove_file_node_as deleted_name
    move_file_node rename_file_node
root_entries = refl

check_file_tree-panics_example : check_file_tree sample_node_queue 8 5 tree ≡ some panic
check_file_tree-panics_example =
    check_file_tree-panics sample_node_queue 7 5 tree 1 (3 ∷ []) b-IsWellFormed root_entries
