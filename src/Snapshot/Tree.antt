-- ===== src/Snapshot/Tree.antt =====
-- internal/namespace.go: FileNode.String, PersistDirTree, ReadDirTree, RootDeserialize and buildTree.
use tinydfs_master.Base.{
  ℕ, zero, suc, ◌-◌, ◌*◌, Bool, true, false, ◌||◌, ◌&&◌, Option, none, some, List, [], ◌∷◌, ◌++◌,
  map, ◌==◌, nat_eq, nat_list_eq, ltb, if◌then◌else◌, get_elem?, GoString, codes, Result, ok, ◌>>=◌,
  deref,
}
use tinydfs_master.Base.Strings.{split, itoa}
use tinydfs_master.Base.GoMap
use tinydfs_master.Base.GoMap.{GoMap}
use tinydfs_master.Namespace.{FileNode, DirTree, Heap, entries}
use tinydfs_master.Snapshot.Text.{SnapshotText, intercalate, bracketed, inside, atoi}

-- `%v` of a Boolean, and strconv.ParseBool with its error dropped.
unfoldable pub bool_string : Bool → GoString
bool_string true = codes "true"
bool_string false = codes "false"

unfoldable pub parse_bool : GoString → Bool
parse_bool s =
    (s == codes "1")
    || (s == codes "t")
    || (s == codes "T")
    || (s == codes "TRUE")
    || (s == codes "true")
    || (s == codes "True")

-- `%v` of a pointer to a time; `print_time` is the method String of time.Time.
unfoldable pub time_string : SnapshotText → Option ℕ → GoString
time_string text none = codes "<nil>"
time_string text (some t) = text.print_time t

-- The identifier of the parent, or the text for the root.
unfoldable pub parent_string : SnapshotText → Heap → Option ℕ → GoString
parent_string text h none = text.minus_one_string
parent_string text h (some p) = (h p).id

-- FileNode.String, without the line feed at its end.
unfoldable pub file_node_line : SnapshotText → Heap → FileNode → GoString
unfolding intercalate bracketed bool_string time_string parent_string
file_node_line text h node = intercalate b'$' (
    node.id
    ∷ node.file_name
    ∷ parent_string text h node.parent_node
    ∷ bracketed (map (λ p. (h p).id) (GoMap.values (entries node.child_nodes)))
    ∷ bracketed node.chunks
    ∷ itoa node.size
    ∷ bool_string node.is_file
    ∷ time_string text node.del_time
    ∷ bool_string node.is_del
    ∷ [])

-- PersistDirTree from a queue of nodes; `none` means that the fuel ran out.
unfoldable pub persist_from : SnapshotText → Heap → ℕ → List ℕ → Option GoString
unfolding file_node_line
persist_from text h zero queue = none
persist_from text h (suc fuel) [] = some text.snapshot_delimiter
persist_from text h (suc fuel) (p ∷ queue) =
    elim (persist_from text h fuel (queue ++ GoMap.values (entries (h p).child_nodes))) [
      | none ↦ none
      | some rest ↦ some (file_node_line text h (h p) ++ b'\n' ∷ rest)
    ]

unfoldable pub persist_dir_tree : {S : Type 0} → SnapshotText → ℕ → DirTree S → Option GoString
unfolding persist_from
persist_dir_tree text fuel t = persist_from text t.heap fuel (t.root ∷ [])

-- A FileNode as ReadDirTree makes it, with the identifiers of its parent and children in place of
-- the FileNodes that have nothing but an identifier.
pub record ReadNode : Type 0 where
  pub id : GoString
  pub file_name : GoString
  pub parent_id : GoString
  pub children : Option (GoMap GoString (Unit {0}))
  pub chunks : List GoString
  pub size : ℕ
  pub is_file : Bool
  pub del_time : Option ℕ
  pub is_del : Bool

unfoldable pub id_map : List GoString → GoMap GoString (Unit {0}) → GoMap GoString (Unit {0})
id_map [] m = m
id_map (id ∷ ids) m = id_map ids (GoMap.insert id tt m)

unfoldable pub read_children : GoString → Option (GoMap GoString (Unit {0}))
unfolding id_map
read_children text = if text == [] then none else some (id_map (split b' ' text) [])

unfoldable pub read_list : GoString → List GoString
read_list text = if text == [] then [] else split b' ' text

-- `now.Sub(del_time).Hours() > 23`, in nanoseconds.
unfoldable pub is_over : ℕ → ℕ → Bool
is_over now del_time = ltb (23 * 3600000000000) (now - del_time)

-- One line; `none` is a node that is skipped since it was deleted long ago.
unfoldable pub read_file_node : SnapshotText → ℕ → GoString → Result (Option ReadNode)
unfolding inside atoi parse_bool read_children read_list is_over
read_file_node text now line = do
  let fields = split b'$' line
  children_field ← deref (get_elem? fields 3)
  children_data ← inside children_field
  chunks_field ← deref (get_elem? fields 4)
  chunks_data ← inside chunks_field
  size ← deref (get_elem? fields 5)
  is_file ← deref (get_elem? fields 6)
  del_time ← deref (get_elem? fields 7)
  is_del ← deref (get_elem? fields 8)
  id ← deref (get_elem? fields 0)
  file_name ← deref (get_elem? fields 1)
  parent_id ← deref (get_elem? fields 2)
  let node : ReadNode = record {
    id = id;
    file_name = file_name;
    parent_id = parent_id;
    children = read_children children_data;
    chunks = read_list chunks_data;
    size = atoi size;
    is_file = parse_bool is_file;
    del_time = if del_time == codes "<nil>" then none else some (text.parse_time del_time);
    is_del = parse_bool is_del;
  }
  ok (if parse_bool is_del && is_over now (text.parse_time del_time) then none else some node)

-- ReadDirTree: the nodes under their identifiers, and the lines that are left.
unfoldable pub read_dir_tree :
    SnapshotText
    → ℕ
    → List GoString
    → GoMap GoString ReadNode
    → Result (GoMap GoString ReadNode × List GoString)
unfolding read_file_node
read_dir_tree text now [] nodes = ok (nodes, [])
read_dir_tree text now (line ∷ lines) nodes =
    let rest : Result (GoMap GoString ReadNode × List GoString) = (do
      r ← read_file_node text now line
      elim r [
        | none ↦ read_dir_tree text now lines nodes
        | some node ↦ read_dir_tree text now lines (GoMap.insert node.id node nodes)
      ]) in
    if line == text.snapshot_delimiter then ok (nodes, lines) else rest
