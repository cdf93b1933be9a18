-- ===== src/Tests/Clusters.antt =====
-- The theorems on the log entries and on the cluster of internal/master_handler.go at concrete
-- values.
use tinydfs_master.Base.{
  ℕ, ◌≡◌, refl, ap, sym, ◌∙◌, Bool, ◌&&◌, true, false, Option, none, some, some-injective, List, [],
  ◌∷◌, ◌++◌, ◌==◌, nat_eq, nat_list_eq, nat_list_discrete, ℕ_discrete, if◌then◌else◌, get_elem?,
  contains, GoString, codes, ok, panic, arith,
}
use tinydfs_master.Base.Strings.{split}
use tinydfs_master.Samples.{sample_common, sample_set, sample_queue, sample_node_queue}
use tinydfs_master.Namespace.{deleted_name}
use tinydfs_master.Operations.{Operation, Reply}
use tinydfs_master.Operations.Apply.{apply}
use tinydfs_master.State.{Master}
use tinydfs_master.Wire.{
  OpType, register_type, heartbeat_type, add_type, get_type, mkdir_type, move_type, remove_type,
  list_type, stat_type, rename_type, allocate_chunks_type, expand_type, degrade_type,
  check_file_tree_type, check_chunks_type, check_data_nodes_type, LogOperation, operation,
  check_file_tree_op, type_of, OpNames, Json, op_types, get_data4_apply, apply_operation,
  fsm_apply_data,
}
use tinydfs_master.Wire.RoundTrip.{fsm_apply_data-get_data4_apply}
use tinydfs_master.Cluster.{
  ClusterConfig, Membership, failed_heartbeat, join_failed, JoinReply, without_id, host_of,
  raft_address, join_cluster, observe, bootstrap_or_join_cluster,
}
use tinydfs_master.Cluster.Members.{
  start, next, called, observed, IsUnique, ClusterSteps-IsUnique, restart-fails,
}
use tinydfs_master.Cluster.Leadership.{
  Observers, Leadership, Notice, monitor_all, still_running, initial_leadership,
}
use tinydfs_master.Cluster.Monitors.{
  monitor_all-keeps_monitors, times_leader, leads_after, is_observer,
}
use tinydfs_master.Tests.Trees.{b-IsWellFormed, tree_of}
use tinydfs_master.Operations.Listing.{shows, removed-listed}
use tinydfs_master.Tests.Changes.{
  tree, root_entries, removed_f, removed_f-ok, f_below_a, a_is_directory, a_found_later,
}
use tinydfs_master.Wire.Ticks.{check_file_tree_data, check_file_tree_data-panics}

-- A JSON text as the value that it stands for.
pub data SampleText : Type 0 where
  value : LogOperation → SampleText
  object : GoString → SampleText → SampleText

abbrev sample_unmarshal : OpType → SampleText → Option LogOperation
sample_unmarshal ty (object name text) = none
sample_unmarshal check_file_tree_type (value o) = some check_file_tree_op
sample_unmarshal _ (value o) = some o

pub sample_decodes : (o : LogOperation) → sample_unmarshal (type_of o) (value o) ≡ some o
unfolding type_of
sample_decodes (operation (Operation.register o)) = refl
sample_decodes (operation (Operation.heartbeat o)) = refl
sample_decodes (operation (Operation.add o)) = refl
sample_decodes (operation (Operation.get o)) = refl
sample_decodes (operation (Operation.mkdir path filename)) = refl
sample_decodes (operation (Operation.move source_path target_path)) = refl
sample_decodes (operation (Operation.remove path)) = refl
sample_decodes (operation (Operation.list_files path)) = refl
sample_decodes (operation (Operation.stat path)) = refl
sample_decodes (operation (Operation.rename path new_name)) = refl
sample_decodes (operation (Operation.degrade data_node_id stage)) = refl
sample_decodes (operation (Operation.allocate_chunks o)) = refl
sample_decodes (operation (Operation.expand o)) = refl
sample_decodes (operation Operation.check_chunks_op) = refl
sample_decodes (operation Operation.check_data_nodes) = refl
sample_decodes check_file_tree_op = refl

abbrev pub sample_json : Json SampleText
sample_json = record {
  marshal = value;
  marshal_container = λ k. object k.op_type k.op_data;
  unmarshal = sample_unmarshal;
  unmarshal_container = λ text. elim text [
    | value o ↦ none
    | object name inner ↦ some (record { op_type = name; op_data = inner })
  ];
  is_encodable = λ o. true;
  unmarshal-marshal = λ o fits. sample_decodes o;
  unmarshal_container-marshal_container = λ names ty o. refl;
  same_fields = refl;
}

-- The place of a type in OpTypeMap.
abbrev place : OpType → ℕ
place register_type = 0
place heartbeat_type = 1
place add_type = 2
place get_type = 3
place mkdir_type = 4
place move_type = 5
place remove_type = 6
place list_type = 7
place stat_type = 8
place rename_type = 9
place allocate_chunks_type = 10
place expand_type = 11
place degrade_type = 12
place check_file_tree_type = 13
place check_chunks_type = 14
place check_data_nodes_type = 15

pub at_place : (ty : OpType) → get_elem? op_types (place ty) ≡ some ty
at_place register_type = refl
at_place heartbeat_type = refl
at_place add_type = refl
at_place get_type = refl
at_place mkdir_type = refl
at_place move_type = refl
at_place remove_type = refl
at_place list_type = refl
at_place stat_type = refl
at_place rename_type = refl
at_place allocate_chunks_type = refl
at_place expand_type = refl
at_place degrade_type = refl
at_place check_file_tree_type = refl
at_place check_chunks_type = refl
at_place check_data_nodes_type = refl

abbrev pub sample_names : OpNames
sample_names = record {
  name = λ ty. place ty ∷ [];
  name-injective = λ a b same.
      some-injective _ _
        (sym (at_place a) ∙ ap (get_elem? op_types) (ground (arith, same)) ∙ at_place b);
}

abbrev pub sample_master : Master (List GoString) (List GoString)
sample_master = record {
  tree = tree;
  chunks_map = [];
  data_node_map = [];
  pending_chunk_queue = [];
  storable_num = 0;
}

fsm_apply_data-get_data4_apply_example :
    fsm_apply_data sample_node_queue 8 sample_json sample_names
      (get_data4_apply sample_json sample_names
        (operation (Operation.mkdir (codes "/a") (codes "d")))
        (sample_names.name (type_of (operation (Operation.mkdir (codes "/a") (codes "d"))))))
      5
      (codes "i9")
      sample_master
    ≡ apply_operation sample_node_queue 8
        (operation (Operation.mkdir (codes "/a") (codes "d")))
        5
        (codes "i9")
        sample_master
fsm_apply_data-get_data4_apply_example =
    fsm_apply_data-get_data4_apply sample_node_queue 8 sample_json sample_names
      (operation (Operation.mkdir (codes "/a") (codes "d"))) 5 (codes "i9") sample_master refl

check_file_tree_data-panics_example :
    fsm_apply_data sample_node_queue 8 sample_json sample_names
      (check_file_tree_data sample_json sample_names)
      5
      (codes "i9")
      sample_master
    ≡ some panic
check_file_tree_data-panics_example =
    check_file_tree_data-panics sample_node_queue sample_json sample_names 7 5 (codes "i9")
      sample_master 1 (3 ∷ []) b-IsWellFormed root_entries

abbrev without_f : Master (List GoString) (List GoString)
without_f = record sample_master { tree = tree_of removed_f }

removed-listed_example :
    (infos : List (GoString × Bool)) × (apply
        (Operation.list_files (codes "/a"))
        7
        (codes "i9")
        without_f
      ≡ ok (without_f, Reply.files infos))
    × (shows (deleted_name (tree.heap 2)) infos ≡ true)
removed-listed_example =
    removed-listed sample_master (codes "/a/f") (codes "/a") (codes "i9") true 5 7
      (tree_of removed_f) 2 1 b-IsWellFormed removed_f-ok f_below_a a_is_directory a_found_later

abbrev config : ClusterConfig
config = record { address_delimiter = b':'; master_raft_port = codes "7"; master_port = codes ":8" }

-- The members of raft as a list.
abbrev sample_raft : Membership (List GoString)
sample_raft = record {
  servers = λ v. v;
  configuration_error = λ v. none;
  add_voter = λ id v. (v ++ id ∷ [], none);
  remove_server = λ id v. (without_id id v, none);
  bootstrap_cluster = λ id v. id ∷ [];
  servers-add_voter = λ id v absent added. refl;
  servers-add_voter_failed = λ id error v failed. absurd (ground (arith, failed));
  servers-remove_server = λ id v removed. refl;
  servers-remove_server_failed = λ id error v failed. absurd (ground (arith, failed));
}

abbrev one_member : List GoString
one_member = codes "h:7" ∷ []

ClusterSteps-IsUnique_example :
    IsUnique
      (observe sample_raft
        (failed_heartbeat (codes "h:7"))
        (join_cluster config sample_raft (codes "g:55") one_member).0).0
ClusterSteps-IsUnique_example =
    ClusterSteps-IsUnique config sample_raft
      (next (next start (called (codes "g:55"))) (observed (failed_heartbeat (codes "h:7"))))
      (refl, tt)

own_member : contains one_member (raft_address config (host_of config (codes "h:55"))) ≡ true
unfolding raft_address host_of split nat_list_eq nat_list_discrete nat_eq ℕ_discrete
own_member = refl

restart-fails_example :
    (r : JoinReply) × (bootstrap_or_join_cluster config sample_raft
        (λ address. true)
        true
        (codes "h:7")
        (codes "h:55")
        none
        (some (codes "g:7"))
        one_member
      ≡ (one_member, some (codes "g:7"), 1, join_failed r))
restart-fails_example =
    restart-fails config sample_raft (λ address. true) true (codes "h:7") (codes "h:55")
      (codes "g:7") one_member own_member

-- The observers that are registered.
abbrev sample_observers : Observers (ℕ → Bool)
sample_observers = record {
  registers = λ o j. o j;
  register_observer = λ i o j. if i == j then true else o j;
  deregister_observer =
      λ i o. elim i [ none ↦ panic | some k ↦ ok (λ j. if k == j then false else o j) ];
  registers-register_observer = λ i j o. refl;
  deregister_observer-some = λ i o. (_, refl, λ j. refl);
}

abbrev notice : Bool → Notice
notice leads = record { is_leader = leads; lease_id = 4; puts = true }

-- Twice the leader, with a time as a follower in between.
abbrev notices : List Notice
notices = notice true ∷ notice false ∷ notice true ∷ []

monitor_all-keeps_monitors_example :
    (l : Leadership (ℕ → Bool)) × (monitor_all sample_observers
        (codes "h:7")
        notices
        (initial_leadership (λ j. false))
      ≡ ok l)
    × (still_running l.cancelled l.monitors ≡ times_leader notices)
    × ((j : ℕ)
        → l.observers j ≡ (leads_after false notices && is_observer l.follower_state_observer j))
monitor_all-keeps_monitors_example =
    monitor_all-keeps_monitors sample_observers (codes "h:7") notices (λ j. false) (λ j. refl)
      (refl, (refl, (refl, tt)))
