-- ===== src/Tests/Masters.antt =====
-- The theorems on chunks and DataNodes at a small cluster.
use tinydfs_master.Base.{
  Option, ◌<◌, replicate, ℕ, ◌≡◌, ◌⊎◌, refl, true, false, not, none, some, List, [], ◌∷◌, map, ◌==◌,
  nat_eq, nat_list_eq, if◌then◌else◌, GoString, length, codes, err, panic, data_node_not_exist,
  Result, ok, nat_list_discrete, ℕ_discrete, arith,
}
use tinydfs_master.Base.GoMap
use tinydfs_master.Base.GoMap.{lookup}
use tinydfs_master.Samples.{
  sample_common, sample_common-IsLawful, sample_set, sample_queue, without,
}
use tinydfs_master.Namespace.{initial_tree}
use tinydfs_master.State.{
  Chunk, ChunkSendInfo, chunk_send_info_eq, ChunkSendInfo-discrete, DataNode, HeartbeatOperation,
  Master,
}
use tinydfs_master.DataNodes.Informing.{AreTold, update_data_node4_heartbeat-tells_once}
use tinydfs_master.Chunks.Plan.{Row, allocate_chunks_dfs}
use tinydfs_master.Chunks.Plan.Bounds.{Fits, allocate_chunks_dfs-Fits}
use tinydfs_master.Chunks.Plan.Placing.{Placed}
use tinydfs_master.Chunks.Plan.Stored.{allocate_chunks_dfs-Placed}
use tinydfs_master.Chunks.Plan.Applied.{AllKnown, planned-applies}
use tinydfs_master.Chunks.{ChunksMap, batch_apply_plan2_chunk, update_chunk4_heartbeat}
use tinydfs_master.DataNodes.{update_data_node4_heartbeat, next_chunk_infos, plan_of}
use tinydfs_master.DataNodes.Selection.{alive_among, get_sorted_data_nodes}
use tinydfs_master.DataNodes.Degrade.{degrade_data_node}
use tinydfs_master.DataNodes.Allocation.{batch_allocate_data_nodes}
use tinydfs_master.DataNodes.Allocated.{alive_count, capped, batch_allocate_data_nodes-lengths}
use tinydfs_master.DataNodes.Sorted.{
  IsSorted, count_if, named_alive, get_sorted_data_nodes-IsSorted,
}
use tinydfs_master.Consistency.{counts, IsConsistent}
use tinydfs_master.Consistency.Heartbeat.{apply_heartbeat-IsConsistent}
use tinydfs_master.Consistency.Forget.{degrade-forgets}
use tinydfs_master.Checks.{is_rubbish}
use tinydfs_master.Checks.Owner.{is_rubbish-new_chunks}
use tinydfs_master.Operations.{Operation, Reply, new_chunks}
use tinydfs_master.Operations.Apply.{apply_heartbeat, apply}
use tinydfs_master.Operations.Consistency.{apply-IsConsistent}

abbrev pub Nodes : Type 0
Nodes = List GoString

abbrev pub node : GoString → ℕ → List GoString → DataNode Nodes
node id load chunks = record {
  id = id;
  status = 0;
  address = id;
  chunks = chunks;
  io_load = load;
  full_capacity = 100;
  used_capacity = 10;
  future_send_chunks =
      (record { chunk_id = codes "f_0"; data_node_id = codes "n2"; send_type = 1 }, 0) ∷ [];
  heartbeat_time = 0;
}

-- The chunk `f_0` on `n1`, which is to move it to `n2`.
abbrev pub cluster : Master Nodes (List GoString)
cluster = record {
  tree = initial_tree (codes "r");
  chunks_map =
      (
        codes "f_0",
        record {
          id = codes "f_0";
          data_nodes = codes "n1" ∷ [];
          pending_data_nodes = codes "n2" ∷ [];
        },
      )
      ∷ [];
  pending_chunk_queue = [];
  data_node_map =
      (codes "n1", node (codes "n1") 7 (codes "f_0" ∷ []))
      ∷ (codes "n2", node (codes "n2") 3 [])
      ∷ [];
  storable_num = 2;
}

pub cluster-IsConsistent : IsConsistent cluster
unfolding lookup
cluster-IsConsistent chunk_id id counted = ground arith

abbrev moved : ChunkSendInfo
moved = record { chunk_id = codes "f_0"; data_node_id = codes "n2"; send_type = 1 }

-- `n1` has moved the chunk to `n2`.
abbrev beat : HeartbeatOperation
beat = record {
  data_node_id = codes "n1";
  io_load = 1;
  full_capacity = 100;
  used_capacity = 5;
  success_infos = moved ∷ [];
  fail_infos = [];
  invalid_chunks = [];
  is_ready = true;
}

apply_heartbeat-IsConsistent_example :
    ((lookup (codes "n1") cluster.data_node_map ≡ none)
      × (apply_heartbeat beat 9 cluster ≡ err (data_node_not_exist (codes "n1"))))
    ⊎ ((m' : Master Nodes (List GoString)) × (r : Reply) × (apply_heartbeat beat 9 cluster
          ≡ ok (m', r))
        × IsConsistent m')
apply_heartbeat-IsConsistent_example =
    apply_heartbeat-IsConsistent beat 9 cluster (λ deleted. absurd (ground (arith, deleted)), tt)
      cluster-IsConsistent

abbrev master_of :
    Result (Master Nodes (List GoString) × Reply) → Master Nodes (List GoString) × Reply
master_of (ok r) = r
master_of (err e) = (cluster, Reply.nil)
master_of panic = (cluster, Reply.nil)

abbrev beaten : Result (Master Nodes (List GoString) × Reply)
beaten = apply (Operation.heartbeat beat) 9 (codes "u") cluster

beaten-ok : beaten ≡ ok ((master_of beaten).0, (master_of beaten).1)
unfolding apply apply_heartbeat update_data_node4_heartbeat lookup nat_list_eq nat_list_discrete
    ℕ_discrete
beaten-ok = refl

apply-IsConsistent_example : IsConsistent (master_of beaten).0
apply-IsConsistent_example =
    apply-IsConsistent (Operation.heartbeat beat) 9 (codes "u") cluster (master_of beaten).0
      (master_of beaten).1 (λ deleted. absurd (ground (arith, deleted)), tt) cluster-IsConsistent
      beaten-ok

-- The chunk has gone to `n2`.
moved_away :
    (counts (master_of beaten).0.chunks_map (codes "f_0") (codes "n1") ≡ false)
    × (counts (master_of beaten).0.chunks_map (codes "f_0") (codes "n2") ≡ true)
unfolding apply apply_heartbeat update_data_node4_heartbeat update_chunk4_heartbeat lookup
    nat_list_eq nat_list_discrete ℕ_discrete GoMap.modify nat_eq without
moved_away = (refl, refl)

known_n1 : lookup (codes "n1") cluster.data_node_map ≡ some (node (codes "n1") 7 (codes "f_0" ∷ []))
unfolding lookup nat_list_eq nat_list_discrete ℕ_discrete
known_n1 = refl

degrade-forgets_example :
    counts (degrade_data_node (codes "n1") 1 cluster).chunks_map (codes "f_0") (codes "n1") ≡ false
degrade-forgets_example =
    degrade-forgets (codes "n1") 1 (node (codes "n1") 7 (codes "f_0" ∷ [])) cluster (ground arith)
      known_n1 cluster-IsConsistent (codes "f_0")

abbrev placed : List (List (DataNode Nodes))
placed = (node (codes "n1") 7 [] ∷ []) ∷ (node (codes "n2") 3 [] ∷ []) ∷ []

is_rubbish-new_chunks_example :
    map
      (λ (chunk : Chunk Nodes). is_rubbish (codes "g" ∷ []) chunk.id)
      (new_chunks (codes "f") 0 placed)
    ≡ map (λ _. not (sample_set.member (codes "g" ∷ []) (codes "f"))) placed
is_rubbish-new_chunks_example =
    is_rubbish-new_chunks sample_common-IsLawful (codes "g" ∷ []) (codes "f") 0 placed
      (ground arith)

get_sorted_data_nodes-IsSorted_example :
    IsSorted (get_sorted_data_nodes (codes "n1" ∷ codes "n2" ∷ []) cluster.data_node_map)
    × (count_if
          (λ n. if n.status == sample_common.alive then false else true)
          (get_sorted_data_nodes (codes "n1" ∷ codes "n2" ∷ []) cluster.data_node_map)
        ≡ 0)
    × (count_if
          (λ n. true)
          (get_sorted_data_nodes (codes "n1" ∷ codes "n2" ∷ []) cluster.data_node_map)
        ≡ named_alive (λ n. true) (codes "n1" ∷ codes "n2" ∷ []) cluster.data_node_map)
get_sorted_data_nodes-IsSorted_example =
    get_sorted_data_nodes-IsSorted (codes "n1" ∷ codes "n2" ∷ []) cluster.data_node_map (λ n. true)

-- `n2` is less busy.
served_first :
    map
      (λ (n : DataNode Nodes). n.id)
      (get_sorted_data_nodes (codes "n1" ∷ codes "n2" ∷ []) cluster.data_node_map)
    ≡ codes "n2" ∷ codes "n1" ∷ []
unfolding get_sorted_data_nodes alive_among lookup nat_list_eq nat_list_discrete nat_eq ℕ_discrete
served_first = refl

-- `n1` is to send another chunk, and is told so in the reply.
abbrev to_send : ChunkSendInfo
to_send = record { chunk_id = codes "f_1"; data_node_id = codes "n2"; send_type = 0 }

abbrev to_tell : Master Nodes (List GoString)
to_tell = record cluster {
  data_node_map =
      GoMap.modify (codes "n1")
        (λ (n : DataNode Nodes). record n {
          future_send_chunks = (to_send, sample_common.wait_to_inform) ∷ [];
        })
        cluster.data_node_map;
}

abbrev update_beaten : Option (Master Nodes (List GoString) × List ChunkSendInfo)
update_beaten = update_data_node4_heartbeat beat 9 to_tell

abbrev told :
    Option (Master Nodes (List GoString) × List ChunkSendInfo)
    → Master Nodes (List GoString) × List ChunkSendInfo
told none = (cluster, [])
told (some x) = x

update_beaten-some : update_beaten ≡ some ((told update_beaten).0, (told update_beaten).1)
unfolding update_data_node4_heartbeat lookup GoMap.modify nat_list_eq nat_list_discrete ℕ_discrete
update_beaten-some = refl

reply_to_beat : (told update_beaten).1 ≡ to_send ∷ []
unfolding update_data_node4_heartbeat lookup GoMap.modify nat_list_eq nat_list_discrete ℕ_discrete
    nat_eq next_chunk_infos chunk_send_info_eq ChunkSendInfo-discrete GoMap.erase
reply_to_beat = refl

update_data_node4_heartbeat-tells_once_example :
    (next_chunk_infos (plan_of (lookup beat.data_node_id (told update_beaten).0.data_node_map))
      ≡ [])
    × AreTold
        (plan_of (lookup beat.data_node_id (told update_beaten).0.data_node_map))
        (told update_beaten).1
update_data_node4_heartbeat-tells_once_example =
    update_data_node4_heartbeat-tells_once beat 9 to_tell (told update_beaten).0
      (told update_beaten).1 update_beaten-some

-- The first chunk is stored on the first of two DataNodes, the second on none.
abbrev stored_on : List Row
stored_on = (true ∷ false ∷ []) ∷ (false ∷ false ∷ []) ∷ []

allocate_chunks_dfs-Fits_example :
    (result : List ℕ) × (allocate_chunks_dfs 2 stored_on ≡ ok result) × Fits 2 2 result
allocate_chunks_dfs-Fits_example = allocate_chunks_dfs-Fits 1 stored_on

allocate_chunks_dfs-Placed_example :
    (result : List ℕ) × (allocate_chunks_dfs 2 stored_on ≡ ok result)
    × ((k : ℕ) → k < 2 → Placed stored_on result k)
allocate_chunks_dfs-Placed_example =
    allocate_chunks_dfs-Placed 1 stored_on (omega arith)
      ((1, omega arith, refl), ((0, omega arith, refl), tt))

-- Five chunks on four DataNodes: the search ends at a plan that gives one DataNode three chunks
-- and another none.
uneven : allocate_chunks_dfs 4 (replicate 5 (replicate 4 false)) ≡ ok (0 ∷ 0 ∷ 0 ∷ 1 ∷ 2 ∷ [])
unfolding allocate_chunks_dfs nat_eq ℕ_discrete
uneven = refl

planned : allocate_chunks_dfs 2 stored_on ≡ ok (1 ∷ 0 ∷ [])
unfolding allocate_chunks_dfs nat_eq ℕ_discrete
planned = refl

known_f_0 : AllKnown (codes "f_0" ∷ []) cluster.chunks_map
unfolding lookup nat_list_eq nat_list_discrete ℕ_discrete
known_f_0 = ((_, refl), tt)

planned-applies_example :
    (plan : List ℕ) × (m' : ChunksMap Nodes) × (allocate_chunks_dfs 1 ((false ∷ []) ∷ []) ≡ ok plan)
    × (batch_apply_plan2_chunk plan (codes "f_0" ∷ []) (codes "n2" ∷ []) cluster.chunks_map ≡ ok m')
planned-applies_example =
    planned-applies ((false ∷ []) ∷ []) (codes "f_0" ∷ []) (codes "n2") [] cluster.chunks_map refl
      known_f_0

batch_allocate_data_nodes-lengths_example :
    (nodes : List (List (DataNode Nodes))) × (batch_allocate_data_nodes 2 cluster.data_node_map
      ≡ ok nodes)
    × (map length nodes ≡ replicate 2 (capped (alive_count cluster.data_node_map)))
batch_allocate_data_nodes-lengths_example =
    batch_allocate_data_nodes-lengths 2 cluster.data_node_map (omega arith)
