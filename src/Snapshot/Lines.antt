-- ===== src/Snapshot/Lines.antt =====
-- A line of FileNode.String of internal/namespace.go is read back by ReadDirTree.
use tinydfs_master.Base.{
  ℕ, ◌≡◌, ◌≢◌, refl, ap, Bool, true, false, Option, none, some, List, [], ◌∷◌, ◌++◌, map, ◌==◌,
  ==-ne, ==-refl, nat_eq, nat_list_eq, contains, GoString, codes, ok, arith, nat_list_discrete,
  ℕ_discrete,
}
use tinydfs_master.Base.Strings.{split, itoa}
use tinydfs_master.Base.GoMap
use tinydfs_master.Namespace.{FileNode, Heap, entries}
use tinydfs_master.Snapshot.Text.{
  SnapshotText, intercalate, bracketed, AllFree, split-intercalate, bracketed-dollar,
  inside-bracketed,
}
use tinydfs_master.Snapshot.Digits.{itoa-free, atoi-itoa}
use tinydfs_master.Snapshot.Tree.{
  bool_string, parse_bool, time_string, parent_string, file_node_line, id_map, read_children,
  read_list, read_file_node,
}

parse_bool-bool_string : (b : Bool) → parse_bool (bool_string b) ≡ b
unfolding parse_bool bool_string nat_list_eq nat_list_discrete nat_eq ℕ_discrete
parse_bool-bool_string true = refl
parse_bool-bool_string false = refl

-- The strings are not empty and have no space.
abbrev pub AllNames : List GoString → Type 0
AllNames [] = Unit {0}
AllNames (x ∷ xs) = (x ≢ []) × (contains x b' ' ≡ false) × AllNames xs

AllNames-AllFree : (xs : List GoString) → AllNames xs → AllFree b' ' xs
AllNames-AllFree [] names = tt
AllNames-AllFree (x ∷ xs) (_, free, names) = (free, AllNames-AllFree xs names)

cons-ne : (b : ℕ) (s : GoString) → ((b ∷ s) == []) ≡ false
cons-ne b s = ==-ne (b ∷ s) [] (λ same. absurd (ground (arith, same)))

intercalate-ne :
    (x : GoString) (xs : List GoString) → x ≢ [] → (intercalate b' ' (x ∷ xs) == []) ≡ false
unfolding intercalate
intercalate-ne [] xs ne = absurd (ne refl)
intercalate-ne (b ∷ x) [] ne = cons-ne b x
intercalate-ne (b ∷ x) (y ∷ xs) ne = cons-ne b (x ++ b' ' ∷ intercalate b' ' (y ∷ xs))

read_list-intercalate : (xs : List GoString) → AllNames xs → read_list (intercalate b' ' xs) ≡ xs
unfolding read_list intercalate nat_list_eq nat_list_discrete
read_list-intercalate [] names = refl
read_list-intercalate (x ∷ xs) (ne, free, names) =
    rw (read_list, intercalate-ne x xs ne)
      (split-intercalate b' ' x xs (free, AllNames-AllFree xs names))

-- The map of children that is read: nil if there is none.
abbrev pub saved_children : List GoString → Option (GoMap.GoMap GoString (Unit {0}))
saved_children [] = none
saved_children (x ∷ xs) = some (id_map (x ∷ xs) [])

read_children-intercalate :
    (xs : List GoString) → AllNames xs → read_children (intercalate b' ' xs) ≡ saved_children xs
unfolding read_children intercalate nat_list_eq nat_list_discrete
read_children-intercalate [] names = refl
read_children-intercalate (x ∷ xs) (ne, free, names) =
    rw (read_children, intercalate-ne x xs ne)
      (ap (λ ids. some (id_map ids []))
        (split-intercalate b' ' x xs (free, AllNames-AllFree xs names)))

abbrev pub child_ids : Heap → FileNode → List GoString
child_ids h node = map (λ p. (h p).id) (GoMap.values (entries node.child_nodes))

-- The node is not deleted, and what it is printed with has no byte that separates.
abbrev pub IsPrintable : SnapshotText → Heap → FileNode → Type 0
IsPrintable text h node =
    AllFree b'$' (node.id ∷ node.file_name ∷ parent_string text h node.parent_node ∷ [])
    × (AllFree b'$' (child_ids h node) × AllNames (child_ids h node))
    × (AllFree b'$' node.chunks × AllNames node.chunks)
    × (node.del_time ≡ none)
    × (node.is_del ≡ false)

bool_string-dollar : (b : Bool) → contains (bool_string b) b'$' ≡ false
unfolding bool_string nat_eq ℕ_discrete
bool_string-dollar true = refl
bool_string-dollar false = refl

file_node_line-columns :
    (text : SnapshotText) (h : Heap) (node : FileNode)
    → IsPrintable text h node
    → split b'$' (file_node_line text h node)
      ≡ node.id
        ∷ node.file_name
        ∷ parent_string text h node.parent_node
        ∷ bracketed (child_ids h node)
        ∷ bracketed node.chunks
        ∷ itoa node.size
        ∷ bool_string node.is_file
        ∷ codes "<nil>"
        ∷ bool_string false
        ∷ []
unfolding file_node_line time_string nat_eq ℕ_discrete
file_node_line-columns text h node ((f1, (f2, (f3, _))), (f4, _), (f5, _), live, kept) =
    rw (file_node_line, live, kept, time_string)
      (split-intercalate b'$' node.id _ (
        f1,
        (
          f2,
          (
            f3,
            (
              bracketed-dollar (child_ids h node) f4,
              (
                bracketed-dollar node.chunks f5,
                (
                  itoa-free node.size,
                  (bool_string-dollar node.is_file, (refl, (bool_string-dollar false, tt))),
                ),
              ),
            ),
          ),
        ),
      ))

-- ReadDirTree reads the line that FileNode.String has written of a node that is not deleted with
-- all its fields, its size and flags included, where a directory without children gets a nil map.
-- Identifiers, the name and the chunks have no `$`; those in lists are not empty and have no space.
pub read_file_node-file_node_line :
    (text : SnapshotText) (now : ℕ) (h : Heap) (node : FileNode)
    → IsPrintable text h node
    → read_file_node text now (file_node_line text h node)
      ≡ ok (
          some (record {
            id = node.id;
            file_name = node.file_name;
            parent_id = parent_string text h node.parent_node;
            children = saved_children (child_ids h node);
            chunks = node.chunks;
            size = node.size;
            is_file = node.is_file;
            del_time = none;
            is_del = false;
          }))
unfolding read_file_node
read_file_node-file_node_line text now h node printable =
    let (_, (_, children_named), (_, chunks_named), _, _) = printable in
    rw
      (
        read_file_node,
        file_node_line-columns text h node printable,
        inside-bracketed (child_ids h node),
        inside-bracketed node.chunks,
        read_children-intercalate (child_ids h node) children_named,
        read_list-intercalate node.chunks chunks_named,
        atoi-itoa node.size,
        parse_bool-bool_string node.is_file,
        parse_bool-bool_string false,
        ==-refl (codes "<nil>"),
      )
      refl
