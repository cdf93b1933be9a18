-- ===== src/Monitor.antt =====
-- internal/monitor.go: what the goroutines of the monitor do in a round, or when a timer fires.
pub mod Rounds
pub mod Running
pub mod Files
use tinydfs_master.Base.{
  ℕ, ◌+◌, ◌-◌, ◌*◌, ◌/◌, Bool, true, false, ◌&&◌, Option, none, some, List, [], ◌∷◌, ◌==◌, nat_eq,
  ltb, leb, if◌then◌else◌, GoString, Result, ok, err, panic, ◌>>=◌,
}
use tinydfs_master.External.{Common, StringSet, StringQueue}
use tinydfs_master.State.{DataNode, Master}
use tinydfs_master.DataNodes.{DataNodeMap}
use tinydfs_master.Operations.{Operation}
use tinydfs_master.Raft.{Raft}
use tinydfs_master.Batch.{batch_allocate_chunks}
use tinydfs_master.Handlers.Rpc.{Server}

-- The settings and the constant of package common that only the monitor reads. Times are seconds.
pub record MonitorConfig : Type 0 where
  pub chunk_waiting_time : ℕ
  pub chunk_heartbeat_time : ℕ
  pub chunk_die_time : ℕ
  pub degrade2_dead : ℕ

module _ {S : Type 0} where
  -- `int(time.Now().Sub(node.HeartbeatTime).Seconds())`; a clock that went back gives no more than
  -- zero in the source, and zero here.
  unfoldable pub silent_seconds : ℕ → DataNode S → ℕ
  silent_seconds now node = (now - node.heartbeat_time) / 1000000000

  module _ ⦃c : Common⦄ (config : MonitorConfig) where
    -- The stage that a DataNode is degraded to.
    unfoldable pub stage_of : ℕ → DataNode S → Option ℕ
    unfolding silent_seconds
    stage_of now node =
        let silent = silent_seconds now node in
        if ltb (config.chunk_waiting_time * config.chunk_heartbeat_time) silent
          && node.status == c.alive
        then some c.degrade2_waiting
        else if ltb config.chunk_die_time silent && node.status == c.waiting
        then some config.degrade2_dead
        else none

    -- The proposals of a round. `clock` is the time when the round comes to a DataNode.
    unfoldable pub degradations : (GoString → ℕ) → DataNodeMap S → List (GoString × ℕ)
    unfolding stage_of
    degradations clock [] = []
    degradations clock ((_, node) ∷ m) =
        let rest = degradations clock m in
        elim (stage_of (clock node.id) node) [ none ↦ rest | some stage ↦ (node.id, stage) ∷ rest ]

    -- How often the round calls `csCountMonitor.Dec()`.
    unfoldable pub deaths : (GoString → ℕ) → DataNodeMap S → ℕ
    unfolding silent_seconds
    deaths clock [] = 0
    deaths clock ((_, node) ∷ m) =
        let silent = silent_seconds (clock node.id) node in
        let rest = deaths clock m in
        if ltb (config.chunk_waiting_time * config.chunk_heartbeat_time) silent
          && node.status == c.alive
        then rest
        else if ltb config.chunk_die_time silent && node.status == c.waiting
        then rest + 1
        else rest

module _ {S Q : Type 0} ⦃c : Common⦄ ⦃s : StringSet S⦄ ⦃q : StringQueue Q⦄ (raft : Raft S Q) where
  -- The futures are dropped.
  unfoldable pub propose_degradations : List (GoString × ℕ) → Master S Q → Result (Master S Q)
  propose_degradations [] m = ok m
  propose_degradations ((id, stage) ∷ rest) m = do
    (m', _) ← raft.propose (Operation.degrade id stage) m
    propose_degradations rest m'

  -- One round of MonitorHeartbeat. It holds the lock of the DataNodes, which the application of a
  -- proposal waits for.
  unfoldable pub monitor_heartbeat :
      MonitorConfig → (GoString → ℕ) → Server S Q → Result (Server S Q)
  unfolding degradations deaths propose_degradations
  monitor_heartbeat config clock server = do
    let nodes = server.master.data_node_map
    m ← propose_degradations (degradations config clock nodes) server.master
    ok (record server {
      master = m;
      data_node_losses = server.data_node_losses + deaths config clock nodes;
    })

  -- ConsumePendingChunk before its loop.
  unfoldable pub consume_at_start : Master S Q → Result (Master S Q)
  unfolding batch_allocate_chunks
  consume_at_start m =
      let work = batch_allocate_chunks raft m in
      if ltb 0 (q.len m.pending_chunk_queue) then work else ok m

  -- A round of its loop, with the timer or by default.
  unfoldable pub consume_pending_chunk : Bool → Master S Q → Result (Master S Q)
  unfolding batch_allocate_chunks
  consume_pending_chunk true m = batch_allocate_chunks raft m
  consume_pending_chunk false m =
      let work = batch_allocate_chunks raft m in
      if leb c.chunk_dead_chunk_copy_threshold (q.len m.pending_chunk_queue) then work else ok m

  -- The timers of CheckChunks and CheckStorableDataNode.
  unfoldable pub check_chunks_tick : Master S Q → Result (Master S Q)
  check_chunks_tick m = do (m', _) ← raft.propose Operation.check_chunks_op m; ok m'

  unfoldable pub check_storable_data_node_tick : Master S Q → Result (Master S Q)
  check_storable_data_node_tick m = do (m', _) ← raft.propose Operation.check_data_nodes m; ok m'
