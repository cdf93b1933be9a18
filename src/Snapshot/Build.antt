-- ===== src/Snapshot/Build.antt =====
-- internal/namespace.go: RestoreDirTree, RootDeserialize and buildTree.
use tinydfs_master.Base.{
  ℕ, zero, suc, ◌≡◌, ◌≢◌, ap, ◌∙◌, true, false, Option, none, some, List, [], ◌∷◌, map, ◌==◌,
  nat_list_eq, if◌then◌else◌, contains, get_elem?, length, GoString, Result, ok, err, panic, ◌>>=◌,
  arith, Bool-cases, Option-cases, Result-cases, inl, inr,
}
use tinydfs_master.Base.GoMap
use tinydfs_master.Base.GoMap.{GoMap}
use tinydfs_master.External.{StringSet}
use tinydfs_master.Namespace.{FileNode, DirTree, Heap, store, entries, delete_child, put_child}
use tinydfs_master.Snapshot.Text.{SnapshotText}
use tinydfs_master.Snapshot.Tree.{ReadNode}

-- `&FileNode{}`
abbrev pub empty_node : FileNode
empty_node = record {
  id = [];
  file_name = [];
  parent_node = none;
  child_nodes = none;
  chunks = [];
  size = 0;
  is_file = false;
  del_time = none;
  is_del = false;
}

-- The position of a node in the map, which is its address.
unfoldable pub address_of : ℕ → GoMap GoString ReadNode → GoString → Option ℕ
address_of i [] id = none
address_of i ((other, _) ∷ nodes) id =
    let rest = address_of (suc i) nodes id in if other == id then some i else rest

-- The FileNode of a node that was read; its children have no address yet.
unfoldable pub to_file_node : ℕ → ReadNode → FileNode
to_file_node stub node = record {
  id = node.id;
  file_name = node.file_name;
  parent_node = none;
  child_nodes = GoMap.map_option (map (λ (id, _). (id, stub))) node.children;
  chunks = node.chunks;
  size = node.size;
  is_file = node.is_file;
  del_time = node.del_time;
  is_del = node.is_del;
}

unfoldable pub heap_of : GoMap GoString ReadNode → Heap
unfolding to_file_node
heap_of nodes p = elim (get_elem? nodes p) [
  | none ↦ empty_node
  | some (_, node) ↦ to_file_node (suc (length nodes)) node
]

-- The first node whose parent is that of the root.
unfoldable pub find_root : SnapshotText → ℕ → GoMap GoString ReadNode → Option ℕ
find_root text i [] = none
find_root text i ((_, node) ∷ nodes) =
    let rest = find_root text (suc i) nodes in
    if node.parent_id == text.minus_one_string then some i else rest

unfoldable pub root_address : SnapshotText → GoMap GoString ReadNode → ℕ
unfolding find_root
root_address text nodes = elim (find_root text 0 nodes) as (λ _. ℕ) [
  | none ↦ length nodes
  | some p ↦ p
]

pub record Rebuilt (S : Type 0) : Type 0 where
  pub heap : Heap
  pub file_node_id_set : S

module _ {S : Type 0} ⦃s : StringSet S⦄ where
  -- The child's entry gets its name as key, and the child its parent.
  unfoldable pub link : ℕ → GoString → ℕ → Rebuilt S → Result (Rebuilt S)
  unfolding delete_child put_child
  link cur id p built = do
    let node = built.heap p
    h ← put_child (delete_child built.heap cur id) cur node.file_name p
    ok (record {
      heap = store h p (record (h p) { parent_node = some cur });
      file_node_id_set = s.add built.file_node_id_set node.id;
    })

  -- The loop of buildTree over the identifiers of the children, with buildTree on a child. A child
  -- that is not in the map is a nil pointer, whose name is read.
  unfoldable pub build_children :
      (ℕ → Rebuilt S → Option (Result (Rebuilt S)))
      → GoMap GoString ReadNode
      → ℕ
      → List GoString
      → Rebuilt S
      → Option (Result (Rebuilt S))
  unfolding link address_of
  build_children build nodes cur [] built = some (ok built)
  build_children build nodes cur (id ∷ ids) built = elim (address_of 0 nodes id) [
    | none ↦ some panic
    | some p ↦ elim (link cur id p built) [
      | err e ↦ some (err e)
      | panic ↦ some panic
      | ok linked ↦ elim (build p linked) [
        | none ↦ none
        | some (ok below) ↦ build_children build nodes cur ids below
        | some (err e) ↦ some (err e)
        | some panic ↦ some panic
      ]
    ]
  ]

  -- `none` means that the fuel ran out.
  unfoldable pub build_tree :
      ℕ → GoMap GoString ReadNode → ℕ → Rebuilt S → Option (Result (Rebuilt S))
  unfolding build_children
  build_tree zero nodes cur built = none
  build_tree (suc fuel) nodes cur built =
      build_children (build_tree fuel nodes) nodes cur
        (GoMap.keys (entries (built.heap cur).child_nodes)) built

  -- RootDeserialize, from the set of identifiers as it was.
  unfoldable pub root_deserialize :
      SnapshotText → ℕ → GoMap GoString ReadNode → S → Option (Result (DirTree S))
  unfolding build_tree heap_of root_address
  root_deserialize text fuel nodes ids =
      let root = root_address text nodes in
      let start : Rebuilt S = record { heap = heap_of nodes; file_node_id_set = ids } in
      elim (build_tree fuel nodes root start) [
        | none ↦ none
        | some r ↦ some (do
          built ← r
          ok (record {
            heap = store built.heap root (record (built.heap root) { parent_node = none });
            next = suc (suc (length nodes));
            root = root;
            file_node_id_set = built.file_node_id_set;
          }))
      ]

  -- buildTree never returns from a node that has a child which the map does not have.
  build_children-missing :
      (build : ℕ → Rebuilt S → Option (Result (Rebuilt S))) (nodes : GoMap GoString ReadNode)
      (cur : ℕ) (ids : List GoString) (id : GoString) (built built' : Rebuilt S)
      → contains ids id ≡ true
      → address_of 0 nodes id ≡ none
      → build_children build nodes cur ids built ≢ some (ok built')
  unfolding build_children
  build_children-missing build nodes cur [] id built built' there missing e =
      absurd (ground (arith, there))
  build_children-missing build nodes cur (first ∷ ids) id built built' there missing e =
      elim (Option-cases (address_of 0 nodes first)) [
        | inl absent ↦ absurd (cc (rw (absent, build_children) at e))
        | inr (p, at) ↦
            let later : contains ids id ≡ true = elim (Bool-cases (first == id)) [
              | inl same ↦
                  let first≡id : first ≡ id = ground (arith, same) in
                  absurd (ground (arith, at, ap (address_of 0 nodes) first≡id, missing))
              | inr other ↦ ground (arith, other, there)
            ] in
            elim (Result-cases (link cur first p built)) [
              | inr (inl (x, fails)) ↦ absurd (cc (rw (at, fails, build_children) at e))
              | inr (inr panics) ↦ absurd (cc (rw (at, panics, build_children) at e))
              | inl (linked, done) ↦ elim (Option-cases (build p linked)) [
                | inl out ↦ absurd (cc (rw (at, done, out, build_children) at e))
                | inr (r, returned) ↦ elim (Result-cases r) [
                  | inr (inl (x, fails)) ↦
                      absurd (cc (rw (at, done, returned, fails, build_children) at e))
                  | inr (inr panics) ↦
                      absurd (cc (rw (at, done, returned, panics, build_children) at e))
                  | inl (below, made) ↦
                      build_children-missing build nodes cur ids id below built' later missing
                        (rw (at, done, returned, made, build_children) at e)
                ]
              ]
            ]
      ]

  -- RootDeserialize makes no tree, with any fuel, of nodes whose root has a child that was not
  -- read, as one that was deleted long ago.
  pub root_deserialize-missing :
      (text : SnapshotText) (fuel : ℕ) (nodes : GoMap GoString ReadNode) (set : S) (id : GoString)
      (t : DirTree S)
      → contains (GoMap.keys (entries (heap_of nodes (root_address text nodes)).child_nodes)) id
        ≡ true
      → address_of 0 nodes id ≡ none
      → root_deserialize text fuel nodes set ≢ some (ok t)
  unfolding root_deserialize build_tree
  root_deserialize-missing text zero nodes set id t there missing e = absurd (ground (arith, e))
  root_deserialize-missing text (suc fuel) nodes set id t there missing e =
      let root = root_address text nodes in
      let start : Rebuilt S = record { heap = heap_of nodes; file_node_id_set = set } in
      elim (Option-cases (build_tree (suc fuel) nodes root start)) [
        | inl out ↦ absurd (cc (rw (out, root_deserialize) at e))
        | inr (r, returned) ↦ elim (Result-cases r) [
          | inr (inl (x, fails)) ↦ absurd (cc (rw (returned, fails, root_deserialize) at e))
          | inr (inr panics) ↦ absurd (cc (rw (returned, panics, root_deserialize) at e))
          | inl (built, made) ↦
              build_children-missing (build_tree fuel nodes) nodes root
                (GoMap.keys (entries (heap_of nodes root).child_nodes)) id start built there missing
                (returned ∙ ap some made)
        ]
      ]
