-- ===== src/Tests/Trees.antt =====
-- The theorems on the directory tree of internal/namespace.go at a small tree.
use tinydfs_master.Base.{
  ℕ, ◌≡◌, refl, true, false, some, List, [], ◌∷◌, ◌++◌, nat_eq, nat_list_eq, GoString, codes,
  path_has_same_name, path_not_exist, Result, ok, err, panic, nat_list_discrete, ℕ_discrete, arith,
}
use tinydfs_master.Base.GoMap
use tinydfs_master.Samples.{sample_common, sample_set}
use tinydfs_master.Base.Strings.{trim, trim_left, split, itoa, itoa_from}
use tinydfs_master.Namespace.Add.{walk-added, get_file_node-kept}
use tinydfs_master.Namespace.Paths.{join_path, get_file_node-join_path}
use tinydfs_master.Namespace.{
  put_child, new_file_node, init_chunks, chunks_from, DirTree, initial_tree, walk, get_file_node,
  add_file_node,
}
use tinydfs_master.Namespace.WellFormed.{IsWellFormed}
use tinydfs_master.Namespace.Walk.{path_names}
use tinydfs_master.Namespace.Reach.{Reachable, start, next, added, Reachable-IsWellFormed}

abbrev pub SampleTree : Type 0
SampleTree = DirTree (List GoString)

abbrev pub tree_of : Result (SampleTree × ℕ) → SampleTree
tree_of (ok (t, p)) = t
tree_of (err e) = initial_tree []
tree_of panic = initial_tree []

abbrev pub empty_tree : SampleTree
empty_tree = initial_tree (codes "r")

-- `/a`, then `/a/f` and `/b`.
abbrev with_a : Result (SampleTree × ℕ)
with_a = add_file_node empty_tree (codes "i1") (codes "/") (codes "a") 0 false

abbrev with_f : Result (SampleTree × ℕ)
with_f = add_file_node (tree_of with_a) (codes "i2") (codes "/a") (codes "f") 100 true

abbrev pub with_b : Result (SampleTree × ℕ)
with_b = add_file_node (tree_of with_f) (codes "i3") (codes "/") (codes "b") 0 false

with_a-ok : with_a ≡ ok (tree_of with_a, 1)
unfolding add_file_node get_file_node nat_list_eq nat_list_discrete trim trim_left nat_eq ℕ_discrete
    initial_tree GoMap.lookup GoMap.insert put_child walk split new_file_node init_chunks
    chunks_from itoa itoa_from
with_a-ok = refl

with_f-ok : with_f ≡ ok (tree_of with_f, 2)
unfolding add_file_node get_file_node nat_list_eq nat_list_discrete trim trim_left nat_eq ℕ_discrete
    initial_tree GoMap.lookup GoMap.insert put_child walk split new_file_node init_chunks
    chunks_from itoa itoa_from
with_f-ok = refl

with_b-ok : with_b ≡ ok (tree_of with_b, 3)
unfolding add_file_node get_file_node nat_list_eq nat_list_discrete trim trim_left nat_eq ℕ_discrete
    initial_tree GoMap.lookup GoMap.insert put_child walk split new_file_node init_chunks
    chunks_from itoa itoa_from
with_b-ok = refl

-- A name is taken once, and a file holds nothing.
added_twice :
    add_file_node (tree_of with_b) (codes "i4") (codes "/") (codes "b") 0 false
    ≡ err (path_has_same_name (codes "/"))
unfolding add_file_node get_file_node nat_list_eq nat_list_discrete trim trim_left nat_eq ℕ_discrete
    initial_tree GoMap.lookup GoMap.insert put_child walk split new_file_node init_chunks
    chunks_from itoa itoa_from
added_twice = refl

added_to_file :
    add_file_node (tree_of with_b) (codes "i4") (codes "/a/f") (codes "b") 0 false
    ≡ err (path_not_exist (codes "/a/f"))
unfolding add_file_node get_file_node nat_list_eq nat_list_discrete trim trim_left nat_eq ℕ_discrete
    initial_tree GoMap.lookup GoMap.insert put_child walk split new_file_node init_chunks
    chunks_from itoa itoa_from
added_to_file = refl

Reachable-a : Reachable (codes "r") (tree_of with_a)
Reachable-a = next start (added (codes "i1") (codes "/") (codes "a") 0 false with_a-ok)

pub Reachable-b : Reachable (codes "r") (tree_of with_b)
Reachable-b =
    next (next Reachable-a (added (codes "i2") (codes "/a") (codes "f") 100 true with_f-ok))
      (added (codes "i3") (codes "/") (codes "b") 0 false with_b-ok)

a-IsWellFormed : IsWellFormed (tree_of with_a)
a-IsWellFormed = Reachable-IsWellFormed (codes "r") Reachable-a

pub b-IsWellFormed : IsWellFormed (tree_of with_b)
b-IsWellFormed = Reachable-IsWellFormed (codes "r") Reachable-b

Reachable-IsWellFormed_example : IsWellFormed (tree_of with_b)
Reachable-IsWellFormed_example = Reachable-IsWellFormed (codes "r") Reachable-b

found_a : get_file_node (tree_of with_a) (codes "/a") ≡ some 1
unfolding add_file_node get_file_node nat_list_eq nat_list_discrete trim trim_left nat_eq ℕ_discrete
    initial_tree GoMap.lookup GoMap.insert put_child walk split new_file_node init_chunks
    chunks_from itoa itoa_from
found_a = refl

walk_to_f :
    walk (tree_of with_f).heap (tree_of with_f).root (path_names (codes "/a") ++ codes "f" ∷ [])
    ≡ some 2
walk_to_f = walk-added a-IsWellFormed (codes "i2") (codes "/a") (codes "f") 100 true with_f-ok

kept_a : get_file_node (tree_of with_f) (codes "/a") ≡ some 1
kept_a =
    get_file_node-kept a-IsWellFormed (codes "i2") (codes "/a") (codes "f") 100 true with_f-ok
      (codes "/a") 1 found_a

get_file_node-join_path_example :
    get_file_node (tree_of with_b) (join_path (codes "a" ∷ codes "f" ∷ []))
    ≡ walk (tree_of with_b).heap (tree_of with_b).root (codes "a" ∷ codes "f" ∷ [])
unfolding add_file_node get_file_node nat_list_eq nat_list_discrete trim trim_left nat_eq ℕ_discrete
    initial_tree GoMap.lookup GoMap.insert put_child walk split new_file_node init_chunks
    chunks_from itoa itoa_from
get_file_node-join_path_example =
    get_file_node-join_path (codes "a" ∷ codes "f" ∷ []) b-IsWellFormed
      ((ground arith, refl), ((ground arith, refl), tt))
