-- ===== src/Tests/Snapshots.antt =====
-- The theorems on snapshots at small ones.
use tinydfs_master.Base.{
  ◌≡◌, ◌≢◌, refl, true, false, none, some, List, [], ◌∷◌, ◌++◌, map, nat_eq, nat_list_eq, GoString,
  contains, codes, ok, panic, nat_list_discrete, ℕ_discrete, arith,
}
use tinydfs_master.Base.GoMap
use tinydfs_master.Base.GoMap.{GoMap, lookup}
use tinydfs_master.Base.Strings.{itoa}
use tinydfs_master.Samples.{sample_set, sample_queue}
use tinydfs_master.State.{Chunk}
use tinydfs_master.Namespace.{FileNode, Heap, entries}
use tinydfs_master.Chunks.{ChunksMap}
use tinydfs_master.Snapshot.Text.{SnapshotText}
use tinydfs_master.Snapshot.Chunks.{chunk_line, restore_chunks, restore_pending_chunk_queue}
use tinydfs_master.Snapshot.DataNodes.{data_node_line, restore_data_nodes}
use tinydfs_master.Snapshot.Shared.{mentioned, is_known, AllClean, restore_chunks-shared}
use tinydfs_master.Snapshot.Broken.{IsPlain, restore_data_nodes-panics}
use tinydfs_master.Snapshot.Tree.{ReadNode, file_node_line, read_file_node, parent_string}
use tinydfs_master.Snapshot.Lines.{IsPrintable, saved_children, read_file_node-file_node_line}
use tinydfs_master.Snapshot.Build.{
  empty_node, heap_of, to_file_node, find_root, root_address, address_of, root_deserialize,
  root_deserialize-missing,
}
use tinydfs_master.Snapshot.Queue.{queued, restore_pending_chunk_queue-kept}
use tinydfs_master.Tests.Masters.{Nodes, node, cluster}

abbrev text : SnapshotText
text = record {
  snapshot_delimiter = codes "#";
  dollar_delimiter = b'$';
  format_time = itoa;
  parse_time = λ _. 0;
  print_time = itoa;
  minus_one_string = codes "-1";
}

abbrev chunks : List (Chunk Nodes)
chunks =
    record { id = codes "f_0"; data_nodes = codes "n1" ∷ []; pending_data_nodes = codes "n2" ∷ [] }
    ∷ record { id = codes "f_1"; data_nodes = codes "n3" ∷ []; pending_data_nodes = [] }
    ∷ []

chunks-AllClean : AllClean chunks
unfolding nat_eq ℕ_discrete
chunks-AllClean = (
  (refl, ((refl, tt), (refl, tt)), ((refl, tt), (refl, tt))),
  ((refl, ((refl, tt), (refl, tt)), (tt, tt)), tt),
)

no_dollar : contains text.snapshot_delimiter b'$' ≡ false
unfolding nat_eq ℕ_discrete
no_dollar = refl

restore_chunks-shared_example :
    (m : ChunksMap Nodes) × (restore_chunks text
        (map chunk_line chunks ++ codes "#" ∷ codes "left" ∷ [])
      ≡ ok (m, codes "left" ∷ []))
    × ((id : GoString)
        → is_known chunks id ≡ true
        → (chunk : Chunk Nodes) × (lookup id m ≡ some chunk)
          × (chunk.id ≡ id)
          × ((x : GoString)
              → (contains chunk.data_nodes x ≡ mentioned (λ c. c.data_nodes) chunks x)
                × (contains chunk.pending_data_nodes x
                    ≡ mentioned (λ c. c.pending_data_nodes) chunks x)))
restore_chunks-shared_example =
    restore_chunks-shared text chunks (codes "left" ∷ []) no_dollar chunks-AllClean

n1-IsPlain : IsPlain (node (codes "n1") 7 (codes "f_0" ∷ []))
unfolding nat_eq ℕ_discrete
n1-IsPlain = ((refl, (refl, (refl, tt))), (refl, tt))

restore_data_nodes-panics_example :
    restore_data_nodes {S = Nodes} text
      (data_node_line text (node (codes "n1") 7 (codes "f_0" ∷ [])) ∷ codes "#" ∷ [])
      []
    ≡ panic
restore_data_nodes-panics_example =
    restore_data_nodes-panics text (node (codes "n1") 7 (codes "f_0" ∷ [])) (codes "#" ∷ []) []
      no_dollar n1-IsPlain

-- A directory `d` in the root, with one file.
abbrev heap : Heap
heap p = record empty_node { id = (b'a' ∷ []); file_name = codes "x" }

abbrev directory : FileNode
directory = record empty_node {
  id = codes "i1";
  file_name = codes "d";
  parent_node = some 0;
  child_nodes = some ((codes "x", 2) ∷ []);
  size = 120;
}

directory-IsPrintable : IsPrintable text heap directory
unfolding parent_string nat_eq ℕ_discrete
directory-IsPrintable = (
  (refl, (refl, (refl, tt))),
  ((refl, tt), ((λ same. absurd (ground (arith, same))), refl, tt)),
  (tt, tt),
  refl,
  refl,
)

read_file_node-file_node_line_example :
    read_file_node text 5 (file_node_line text heap directory)
    ≡ ok (
        some (record {
          id = codes "i1";
          file_name = codes "d";
          parent_id = parent_string text heap (some 0);
          children = saved_children (codes "a" ∷ []);
          chunks = [];
          size = 120;
          is_file = false;
          del_time = none;
          is_del = false;
        }))
read_file_node-file_node_line_example =
    read_file_node-file_node_line text 5 heap directory directory-IsPrintable

-- The root names a child that was not read.
abbrev lone_root : GoMap GoString ReadNode
lone_root =
    (
      codes "r",
      record {
        id = codes "r";
        file_name = [];
        parent_id = codes "-1";
        children = some ((codes "gone", tt) ∷ []);
        chunks = [];
        size = 0;
        is_file = false;
        del_time = none;
        is_del = false;
      },
    )
    ∷ []

gone_named :
    contains
      (GoMap.keys (entries (heap_of lone_root (root_address text lone_root)).child_nodes))
      (codes "gone")
    ≡ true
unfolding heap_of root_address find_root to_file_node nat_list_eq nat_list_discrete nat_eq
    ℕ_discrete
gone_named = refl

gone_missing : address_of 0 lone_root (codes "gone") ≡ none
unfolding address_of nat_list_eq nat_list_discrete nat_eq ℕ_discrete
gone_missing = refl

root_deserialize-missing_example :
    root_deserialize text 9 lone_root (codes "r" ∷ []) ≢ some (ok cluster.tree)
root_deserialize-missing_example =
    root_deserialize-missing text 9 lone_root (codes "r" ∷ []) (codes "gone") cluster.tree
      gone_named gone_missing

restore_pending_chunk_queue-kept_example :
    (restore_pending_chunk_queue text (codes "f_1" ∷ codes "#" ∷ []) (codes "f_0" ∷ [])).0
    ≡ codes "f_0" ∷ queued text (codes "f_1" ∷ codes "#" ∷ [])
restore_pending_chunk_queue-kept_example =
    restore_pending_chunk_queue-kept text (codes "f_1" ∷ codes "#" ∷ []) (codes "f_0" ∷ [])
