-- ===== src/Tests/Servers.antt =====
-- The theorems on calls and on the monitor at a small cluster.
use tinydfs_master.Base.{
  suc, ◌≡◌, inl, inr, refl, sym, subst, ◌∙◌, some, List, [], ◌∷◌, nat_eq, nat_list_eq, GoString,
  length, drop, codes, Result, ok, err, panic, ok-injective, Result-cases, nat_list_discrete,
  ℕ_discrete, arith,
}
use tinydfs_master.Base.GoMap
use tinydfs_master.Base.GoMap.{lookup}
use tinydfs_master.Base.Strings.{trim, trim_left, split}
use tinydfs_master.Namespace.{
  add_file_node, put_child, walk, new_file_node, init_chunks, initial_tree, get_file_node,
}
use tinydfs_master.Samples.{sample_common, sample_set, sample_queue}
use tinydfs_master.State.{DataNode, Master}
use tinydfs_master.Consistency.{IsConsistent}
use tinydfs_master.Operations.{Operation, AllocateChunksOperation}
use tinydfs_master.Operations.Apply.{apply, with_tree, apply_allocate_plan}
use tinydfs_master.DataNodes.Selection.{get_alive_data_node_ids}
use tinydfs_master.Chunks.{get_pending_chunks}
use tinydfs_master.DataNodes.Degrade.{degrade_data_node}
use tinydfs_master.Raft.{ApplyFuture, applied, Proposed, fsm_apply, Raft}
use tinydfs_master.Expand.{Search, rounds}
use tinydfs_master.Expand.Rounds.{AllSingle, missing_all, rounds-end}
use tinydfs_master.Batch.{plan_batch}
use tinydfs_master.Batch.Plans.{plan_batch-applies}
use tinydfs_master.Monitor.{MonitorConfig, monitor_heartbeat}
use tinydfs_master.Monitor.Rounds.{
  AreDistinct, IsKeyed, ruled, IsAvailable, monitor_heartbeat-ruled,
}
use tinydfs_master.Namespace.Reach.{initial_tree-IsWellFormed}
use tinydfs_master.Handlers.Acknowledged.{PathCall, Asks, serve, serve-done}
use tinydfs_master.Namespace.Spec.{FileStep, Request, view}
use tinydfs_master.Monitor.Running.{Running, Running-IsConsistent, Ticked}
use tinydfs_master.Handlers.Rpc.{
  RpcNames, Answer, replied, Server, ask, after_future, request_count_inc, success_count_inc,
  increase,
}
use tinydfs_master.Handlers.Replies.{done_reply}
use tinydfs_master.Handlers.Files.{check_and_mkdir}
use tinydfs_master.Handlers.Steps.{Served}
use tinydfs_master.Tests.Masters.{Nodes, cluster, cluster-IsConsistent}

abbrev Queue : Type 0
Queue = List GoString

-- Raft that applies everything, at time 9 and with one UUID.
abbrev proposed_here : Operation → Master Nodes Queue → Result (Master Nodes Queue × ApplyFuture)
proposed_here op m = elim (fsm_apply op 9 (codes "u") m) [
  | ok (m', a) ↦ ok (m', applied a)
  | err e ↦ err e
  | panic ↦ panic
]

proposed_here-Proposed :
    (op : Operation) (m m' : Master Nodes Queue) (f : ApplyFuture)
    → proposed_here op m ≡ ok (m', f)
    → Proposed op m m' f
proposed_here-Proposed op m m' f e = elim (Result-cases (fsm_apply op 9 (codes "u") m)) [
  | inl ((m₁, a), done) ↦
      let answered : proposed_here op m ≡ ok (m₁, applied a) = rw (proposed_here, done) refl in
      subst (λ r. Proposed op m r.0 r.1) (ok-injective (sym answered ∙ e)) (9, codes "u", done)
  | inr (inl (x, fails)) ↦ absurd (cc (rw (fails, proposed_here) at e))
  | inr (inr panics) ↦ absurd (cc (rw (panics, proposed_here) at e))
]

abbrev raft : Raft Nodes Queue
raft = record { propose = proposed_here; propose-Proposed = proposed_here-Proposed }

abbrev names : RpcNames
names = record {
  master_register_failed = 1;
  master_heartbeat_failed = 2;
  master_check_args4_add_failed = 3;
  master_check_and_get_failed = 4;
  master_get_data_nodes4_add_failed = 5;
  master_get_data_nodes4_get_failed = 6;
  master_callback4_add_failed = 7;
  master_check_and_mkdir_failed = 8;
  master_check_and_move_failed = 9;
  master_check_and_remove_failed = 10;
  master_check_and_list_failed = 11;
  master_check_and_stat_failed = 12;
  master_check_and_rename_failed = 13;
  operation_add = codes "add";
  operation_get = codes "get";
  operation_mkdir = codes "mkdir";
  operation_move = codes "move";
  operation_remove = codes "remove";
  operation_list = codes "list";
  operation_stat = codes "stat";
  operation_rename = codes "rename";
}

abbrev server : Server Nodes Queue
server = record {
  master = cluster;
  requests = [];
  successes = [];
  data_node_count = 2;
  data_node_losses = 0;
}

abbrev config : MonitorConfig
config = record {
  chunk_waiting_time = 3;
  chunk_heartbeat_time = 10;
  chunk_die_time = 600;
  degrade2_dead = 1;
}

available : IsAvailable raft
unfolding fsm_apply apply
available id stage m = (degrade_data_node id stage m, _, refl)

distinct : AreDistinct config
unfolding nat_eq ℕ_discrete
distinct = (refl, refl)

cluster-IsKeyed : IsKeyed cluster.data_node_map
unfolding lookup
cluster-IsKeyed = (refl, ground arith, (refl, refl, tt))

monitor_heartbeat-ruled_example :
    (server' : Server Nodes Queue) × (monitor_heartbeat raft config (λ _. 31000000000) server
      ≡ ok server')
    × ((k : GoString) (node : DataNode Nodes)
        → lookup k cluster.data_node_map ≡ some node
        → lookup k server'.master.data_node_map ≡ ruled config 31000000000 node)
monitor_heartbeat-ruled_example =
    monitor_heartbeat-ruled raft config (λ _. 31000000000) server available distinct cluster-IsKeyed

-- After a call for a new directory comes a round of the monitor, to which both DataNodes were
-- silent for too long.
abbrev after_mkdir : Result (Server Nodes Queue × Answer (Unit {0}))
after_mkdir = check_and_mkdir raft names (codes "/") (codes "d") server

abbrev server_of :
    Result (Server Nodes Queue × Answer (Unit {0})) → Server Nodes Queue × Answer (Unit {0})
server_of (ok r) = r
server_of (err e) = (server, replied tt)
server_of panic = (server, replied tt)

mkdir-ok : after_mkdir ≡ ok (server_of after_mkdir)
unfolding fsm_apply apply with_tree check_and_mkdir ask after_future done_reply request_count_inc
    success_count_inc increase add_file_node get_file_node nat_list_eq nat_list_discrete trim
    trim_left nat_eq ℕ_discrete initial_tree GoMap.lookup GoMap.insert put_child walk split
    new_file_node init_chunks
mkdir-ok = refl

abbrev mkdir_d : PathCall
mkdir_d = PathCall.mkdir_call (codes "/") (codes "d")

mkdir-replied : serve raft names mkdir_d server ≡ ok ((server_of after_mkdir).0, replied tt)
unfolding fsm_apply apply with_tree serve check_and_mkdir ask after_future done_reply
    request_count_inc success_count_inc increase add_file_node get_file_node nat_list_eq
    nat_list_discrete trim trim_left nat_eq ℕ_discrete initial_tree GoMap.lookup GoMap.insert
    put_child walk split new_file_node init_chunks
mkdir-replied = refl

serve-done_example :
    (r : Request) × Asks mkdir_d r
    × FileStep (view server.master.tree) r (view (server_of after_mkdir).0.master.tree)
serve-done_example =
    serve-done raft names mkdir_d server (server_of after_mkdir).0
      (initial_tree-IsWellFormed (codes "r")) mkdir-replied

mkdir-keeps_nodes : (server_of after_mkdir).0.master.data_node_map ≡ cluster.data_node_map
unfolding fsm_apply apply with_tree check_and_mkdir ask after_future done_reply request_count_inc
    success_count_inc increase add_file_node get_file_node nat_list_eq nat_list_discrete trim
    trim_left nat_eq ℕ_discrete initial_tree GoMap.lookup GoMap.insert put_child walk split
    new_file_node init_chunks
mkdir-keeps_nodes = refl

abbrev made : Server Nodes Queue
made = (server_of after_mkdir).0

round_after_mkdir :
    (server' : Server Nodes Queue) × (monitor_heartbeat raft config (λ _. 31000000000) made
      ≡ ok server')
    × ((k : GoString) (node : DataNode Nodes)
        → lookup k made.master.data_node_map ≡ some node
        → lookup k server'.master.data_node_map ≡ ruled config 31000000000 node)
round_after_mkdir =
    monitor_heartbeat-ruled raft config (λ _. 31000000000) made available distinct
      (subst IsKeyed (sym mkdir-keeps_nodes) cluster-IsKeyed)

abbrev worked : Running raft names config server round_after_mkdir.0
worked =
    Running.tick
      (Running.call Running.start
        (Served.check_and_mkdir_call (codes "/") (codes "d") (server_of after_mkdir).1 mkdir-ok))
      (Ticked.heartbeat_round (λ _. 31000000000) round_after_mkdir.1)

Running-IsConsistent_example : IsConsistent round_after_mkdir.0.master
Running-IsConsistent_example = Running-IsConsistent raft names config worked cluster-IsConsistent

abbrev start_search : Search Nodes
start_search = record { pending_chunks = []; pending_map = [] }

rounds-end_example :
    (found : Search Nodes) × (rounds []
        (some 2)
        (suc (missing_all [] cluster.data_node_map))
        cluster.data_node_map
        start_search
      ≡ some found)
    × AllSingle found.pending_map
rounds-end_example = rounds-end [] (some 2) cluster.data_node_map start_search tt

-- A chunk of the cluster waits for a replica.
abbrev waiting : Master Nodes Queue
waiting = record cluster { pending_chunk_queue = codes "f_0" ∷ [] }

waiting-alive : get_alive_data_node_ids waiting.data_node_map ≡ codes "n1" ∷ codes "n2" ∷ []
unfolding get_alive_data_node_ids nat_eq ℕ_discrete
waiting-alive = refl

plan_batch-applies_example :
    (o : AllocateChunksOperation) × (m' : Master Nodes Queue) × (plan_batch waiting ≡ ok o)
    × (apply_allocate_plan o waiting ≡ ok m')
    × (m'.pending_chunk_queue
        ≡ drop (length (get_pending_chunks waiting)) waiting.pending_chunk_queue)
plan_batch-applies_example = plan_batch-applies waiting (codes "n1") (codes "n2" ∷ []) waiting-alive
