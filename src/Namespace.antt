-- ===== src/Namespace.antt =====
-- internal/namespace.go: the directory tree. FileNodes live on a heap and point at their parent
-- and children as in the source; a pointer is a number. A nil map of children is `none`.
pub mod WellFormed
pub mod Invariant
pub mod Walk
pub mod Prefix
pub mod Agree
pub mod Spec
pub mod Refinement
pub mod Outcomes
pub mod Reach
pub mod Paths
pub mod Add
pub mod Remove
pub mod Rename
pub mod Move
use tinydfs_master.Base.{
  ℕ, zero, suc, ◌+◌, ◌<◌, ◌≡◌, Bool, true, false, Option, none, some, List, [], ◌∷◌, map, Eq, ◌==◌,
  nat_eq, nat_list_eq, if◌then◌else◌, GoString, codes, Error, path_not_exist,
  current_path_not_exist, target_path_not_exist, path_has_same_name, target_has_same_name, Result,
  ok, err, panic, ◌>>=◌, ◌>>◌, fail_if, fail_if_some, or_fail, deref,
}
use tinydfs_master.Base.Strings.{trim, split, itoa}
use tinydfs_master.Base.GoMap
use tinydfs_master.Base.GoMap.{GoMap}
use tinydfs_master.External.{Common, StringSet}

pub record FileNode : Type 0 where
  pub id : GoString
  pub file_name : GoString
  pub parent_node : Option ℕ
  pub child_nodes : Option (GoMap GoString ℕ)
  pub chunks : List GoString
  pub size : ℕ
  pub is_file : Bool
  pub del_time : Option ℕ
  pub is_del : Bool

-- The variables `root` and `fileNodeIdSet`, with the heap that `root` points into; `next` is the
-- next free address.
pub record DirTree (S : Type 0) : Type 0 where
  pub heap : ℕ → FileNode
  pub next : ℕ
  pub root : ℕ
  pub file_node_id_set : S

abbrev pub Heap : Type 0
Heap = ℕ → FileNode

abbrev pub store : Heap → ℕ → FileNode → Heap
store h p n q = if p == q then n else h q

abbrev pub Children : Type 0
Children = Option (GoMap GoString ℕ)

-- A nil map reads as an empty one.
abbrev pub entries : Children → GoMap GoString ℕ
entries none = []
entries (some m) = m

-- `delete(m, name)`: nothing on a nil map.
abbrev pub erase_entry : GoString → Children → Children
erase_entry name none = none
erase_entry name (some m) = some (GoMap.erase name m)

-- `m[name] = c`: a panic on a nil map.
abbrev pub put_entry : GoString → ℕ → Children → Result Children
put_entry name c none = panic
put_entry name c (some m) = ok (some (GoMap.insert name c m))

-- `node.ChildNodes[name]`
abbrev pub child : Heap → ℕ → GoString → Option ℕ
child h p name = GoMap.lookup name (entries (h p).child_nodes)

-- `delete(node.ChildNodes, name)`
unfoldable pub delete_child : Heap → ℕ → GoString → Heap
delete_child h p name =
    store h p (record (h p) { child_nodes = erase_entry name (h p).child_nodes })

-- `node.ChildNodes[name] = c`
unfoldable pub put_child : Heap → ℕ → GoString → ℕ → Result Heap
put_child h p name c = do
  m ← put_entry name c (h p).child_nodes
  ok (store h p (record (h p) { child_nodes = m }))

abbrev pub slash : ℕ
slash = b'/'

-- The variables `root` and `fileNodeIdSet` as they are declared; `id` is what
-- util.GenerateUUIDString returns.
unfoldable pub initial_tree : {S : Type 0} ⦃s : StringSet S⦄ → GoString → DirTree S
initial_tree ⦃s⦄ id = record {
  heap = λ _. record {
    id = id;
    file_name = [];
    parent_node = none;
    child_nodes = some [];
    chunks = [];
    size = 0;
    is_file = false;
    del_time = none;
    is_del = false;
  };
  next = 1;
  root = 0;
  file_node_id_set = s.new_set;
}

-- The loop of `getFileNode`, from node `p`.
unfoldable pub walk : Heap → ℕ → List GoString → Option ℕ
walk h p [] = some p
walk h p (name ∷ names) = elim (child h p name) [
  | none ↦ none
  | some c ↦ let rest = walk h c names in if (h c).is_del then none else rest
]

-- The name that a removed node gets.
unfoldable pub deleted_name : ⦃c : Common⦄ → FileNode → GoString
deleted_name ⦃c⦄ n = c.combine_string (codes "delete_" ∷ n.id ∷ codes "_" ∷ n.file_name ∷ [])

module _ {S : Type 0} where
  unfoldable pub get_file_node : DirTree S → GoString → Option ℕ
  get_file_node t path =
      let trimmed = trim slash path in
      if trimmed == (t.heap t.root).file_name
      then some t.root
      else walk t.heap t.root (split slash trimmed)

  unfoldable pub check_and_get_file_node : DirTree S → GoString → Result ℕ
  check_and_get_file_node t path = or_fail (get_file_node t path) (path_not_exist path)

  unfoldable pub stat_file_node : DirTree S → GoString → Result ℕ
  unfolding check_and_get_file_node
  stat_file_node t path = check_and_get_file_node t path

  -- The children, in an order that `range` leaves open.
  unfoldable pub list_file_node : DirTree S → GoString → Result (List ℕ)
  list_file_node t path = do
    p ← or_fail (get_file_node t path) (path_not_exist path)
    fail_if (t.heap p).is_file (path_not_exist path)
    ok (GoMap.values (entries (t.heap p).child_nodes))

  unfoldable pub rename_file_node : DirTree S → GoString → GoString → Result (DirTree S × ℕ)
  rename_file_node t path new_name = do
    p ← or_fail (get_file_node t path) (path_not_exist path)
    parent ← deref (t.heap p).parent_node
    let h₁ = delete_child t.heap parent (t.heap p).file_name
    let h₂ = store h₁ p (record (h₁ p) { file_name = new_name })
    h₃ ← put_child h₂ parent new_name p
    let h₄ =
        store h₃ p
          (if (h₃ p).is_del then record (h₃ p) { is_del = false; del_time = none } else h₃ p)
    ok (record t { heap = h₄ }, p)

  unfoldable pub move_file_node : DirTree S → GoString → GoString → Result (DirTree S × ℕ)
  move_file_node t current_path target_path = do
    p ← or_fail (get_file_node t current_path) (current_path_not_exist current_path)
    q ← or_fail (get_file_node t target_path) (target_path_not_exist target_path)
    fail_if_some (child t.heap q (t.heap p).file_name) (target_has_same_name (t.heap p).file_name)
    h₁ ← put_child t.heap q (t.heap p).file_name p
    parent ← deref (h₁ p).parent_node
    let h₂ = delete_child h₁ parent (h₁ p).file_name
    let h₃ = store h₂ p (record (h₂ p) { parent_node = some q })
    ok (record t { heap = h₃ }, p)

  module _ ⦃c : Common⦄ where
    -- `now` is what time.Now() returns.
    unfoldable pub remove_file_node_as : DirTree S → GoString → Bool → ℕ → Result (DirTree S × ℕ)
    remove_file_node_as t path is_dummy now = do
      p ← or_fail (get_file_node t path) (path_not_exist path)
      parent ← deref (t.heap p).parent_node
      let h₁ = delete_child t.heap parent (t.heap p).file_name
      let new_name = deleted_name (h₁ p)
      let h₂ = store h₁ p (record (h₁ p) { file_name = new_name })
      h₃ ← put_child h₂ parent new_name p
      let del_time = if is_dummy then now else c.year_before now
      let h₄ = store h₃ p (record (h₃ p) { is_del = true; del_time = some del_time })
      ok (record t { heap = h₄ }, p)

    unfoldable pub remove_file_node : DirTree S → GoString → ℕ → Result (DirTree S × ℕ)
    unfolding remove_file_node_as
    remove_file_node t path now = remove_file_node_as t path true now

    unfoldable pub erase_file_node : DirTree S → GoString → ℕ → Result (DirTree S × ℕ)
    unfolding remove_file_node_as
    erase_file_node t path now = remove_file_node_as t path false now

module _ ⦃c : Common⦄ where
  -- The loop of `initChunks`, from index `i` on for `n` rounds.
  unfoldable pub chunks_from : GoString → ℕ → ℕ → List GoString
  chunks_from id i zero = []
  chunks_from id i (suc n) = c.combine_string (id ∷ itoa i ∷ []) ∷ chunks_from id (i + 1) n

  unfoldable pub init_chunks : ℕ → GoString → List GoString
  unfolding chunks_from
  init_chunks size id = chunks_from id 0 (c.ceil_quotient size c.chunk_size)

  -- The node that AddFileNode allocates; `id` is what util.GenerateUUIDString returns.
  unfoldable pub new_file_node : GoString → GoString → ℕ → ℕ → Bool → FileNode
  unfolding init_chunks
  new_file_node id filename parent size is_file = record {
    id = id;
    file_name = filename;
    parent_node = some parent;
    child_nodes = if is_file then none else some [];
    chunks = if is_file then init_chunks size id else [];
    size = size;
    is_file = is_file;
    del_time = none;
    is_del = false;
  }

module _ {S : Type 0} ⦃c : Common⦄ ⦃s : StringSet S⦄ where
  unfoldable pub add_file_node :
      DirTree S → GoString → GoString → GoString → ℕ → Bool → Result (DirTree S × ℕ)
  unfolding new_file_node
  add_file_node t id path filename size is_file = do
    p ← or_fail (get_file_node t path) (path_not_exist path)
    fail_if (t.heap p).is_file (path_not_exist path)
    fail_if_some (child t.heap p filename) (path_has_same_name path)
    let h₁ = store t.heap t.next (new_file_node id filename p size is_file)
    h₂ ← put_child h₁ p filename t.next
    let ids = s.add t.file_node_id_set id
    ok (record t { heap = h₂; next = suc t.next; file_node_id_set = ids }, t.next)
