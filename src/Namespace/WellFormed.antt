-- ===== src/Namespace/WellFormed.antt =====
-- The shape of a directory tree: what the pointers of internal/namespace.go agree on.
use tinydfs_master.Base.{
  ℕ, ◌<◌, ◌≡◌, ◌≢◌, false, none, some, [], ◌==◌, nat_eq, nat_list_eq, if◌then◌else◌, GoString,
  arith, ok, ok, after_bind,
}
use tinydfs_master.Base.GoMap
use tinydfs_master.Base.GoMap.{lookup-nil, lookup-insert, lookup-erase}
use tinydfs_master.Namespace.{
  FileNode, DirTree, Heap, Children, entries, child, erase_entry, put_entry, put_child,
  delete_child,
}

-- A child's pointer is allocated, the child carries the name under which its parent holds it and
-- points back at that parent, and the root is live and nameless and has no parent.
pub record IsWellFormed {S : Type 0} (t : DirTree S) : Type 0 where
  pub root_allocated : t.root < t.next
  pub root_on_top : (t.heap t.root).parent_node ≡ none
  pub root_live : (t.heap t.root).is_del ≡ false
  pub root_nameless : (t.heap t.root).file_name ≡ []
  pub child_allocated :
      (p : ℕ) (name : GoString) (c : ℕ) → p < t.next → child t.heap p name ≡ some c → c < t.next
  pub child_named :
      (p : ℕ) (name : GoString) (c : ℕ)
      → p < t.next
      → child t.heap p name ≡ some c
      → (t.heap c).file_name ≡ name
  pub child_below :
      (p : ℕ) (name : GoString) (c : ℕ)
      → p < t.next
      → child t.heap p name ≡ some c
      → (t.heap c).parent_node ≡ some p
  pub parent_allocated : (c p : ℕ) → c < t.next → (t.heap c).parent_node ≡ some p → p < t.next

lookup-erase_entry :
    (name other : GoString) (m : Children)
    → GoMap.lookup other (entries (erase_entry name m))
      ≡ (if name == other then none else GoMap.lookup other (entries m))
lookup-erase_entry name other none = ground (arith, lookup-nil {V = ℕ} other)
lookup-erase_entry name other (some m) = lookup-erase other name m

lookup-put_entry :
    (name : GoString) (c : ℕ) (m m' : Children) (other : GoString)
    → put_entry name c m ≡ ok m'
    → GoMap.lookup other (entries m')
      ≡ (if name == other then some c else GoMap.lookup other (entries m))
lookup-put_entry name c none m' other e = cc
lookup-put_entry name c (some m) m' other e = ground (arith, lookup-insert other name c m)

-- Everything of a node but its map of children is as before.
pub record SameBut (n n' : FileNode) : Type 0 where
  pub id : n'.id ≡ n.id
  pub file_name : n'.file_name ≡ n.file_name
  pub parent_node : n'.parent_node ≡ n.parent_node
  pub is_file : n'.is_file ≡ n.is_file
  pub is_del : n'.is_del ≡ n.is_del

-- A write to a map of children, read back at any node and name.
pub record Linked (h : Heap) (p : ℕ) (name : GoString) (c : ℕ) (h' : Heap) : Type 0 where
  pub has_map : (h p).child_nodes ≢ none
  pub kids :
      (q : ℕ) (other : GoString)
      → child h' q other
        ≡ (if p == q then (if name == other then some c else child h q other) else child h q other)
  pub same : (q : ℕ) → SameBut (h q) (h' q)

pub put_child-Linked :
    (h : Heap) (p : ℕ) (name : GoString) (c : ℕ) {h' : Heap}
    → put_child h p name c ≡ ok h'
    → Linked h p name c h'
unfolding put_child
put_child-Linked h p name c e =
    after_bind _ (put_entry name c (h p).child_nodes) _ e λ m put stored. record {
      has_map = λ nil. ground arith;
      kids = λ q other. ground (arith, lookup-put_entry name c (h p).child_nodes m other);
      same = λ q. ground arith;
    }

pub child-delete_child :
    (h : Heap) (p q : ℕ) (name other : GoString)
    → child (delete_child h p name) q other
      ≡ (if p == q then (if name == other then none else child h q other) else child h q other)
unfolding delete_child
child-delete_child h p q name other =
    ground (arith, lookup-erase_entry name other (h p).child_nodes)

pub delete_child-SameBut :
    (h : Heap) (p q : ℕ) (name : GoString) → SameBut (h q) (delete_child h p name q)
unfolding delete_child
delete_child-SameBut h p q name = ground arith

pub delete_child-nil :
    (h : Heap) (p : ℕ) (name : GoString)
    → (h p).child_nodes ≡ none
    → (delete_child h p name p).child_nodes ≡ none
unfolding delete_child
delete_child-nil h p name nil = ground arith
