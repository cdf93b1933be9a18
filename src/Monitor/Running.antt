-- ===== src/Monitor/Running.antt =====
-- A master at work: the calls of internal/master_handler.go and the goroutines of
-- internal/monitor.go take turns.
use tinydfs_master.Base.{
  ℕ, ◌≡◌, subst, ap, Bool, true, false, List, [], ◌∷◌, ◌==◌, nat_eq, ltb, leb, GoString, Bool-cases,
  inl, inr, ok, ok-injective, after_bind,
}
use tinydfs_master.External.{Common, StringSet, StringQueue}
use tinydfs_master.State.{Master}
use tinydfs_master.Operations.{Operation}
use tinydfs_master.Operations.Consistency.{apply-IsConsistent}
use tinydfs_master.Consistency.{IsConsistent}
use tinydfs_master.Namespace.Spec.{Request}
use tinydfs_master.Operations.Consistency.{IsAdmissible}
use tinydfs_master.Operations.Trees.{Requests}
use tinydfs_master.Raft.{
  ApplyResponse, ApplyFuture, fsm_apply, Raft, After, kept-After, fsm_apply-keeps, propose-keeps,
}
use tinydfs_master.Batch.{plan_batch, batch_allocate_chunks}
use tinydfs_master.Handlers.Rpc.{RpcNames, Server}
use tinydfs_master.Handlers.Steps.{Served, Served-keeps}
use tinydfs_master.Monitor.{
  MonitorConfig, degradations, propose_degradations, monitor_heartbeat, consume_at_start,
  consume_pending_chunk, check_chunks_tick, check_storable_data_node_tick,
}

-- A step of a goroutine of the monitor that returns.
pub data Ticked {S Q : Type 0} ⦃c : Common⦄ ⦃s : StringSet S⦄ ⦃q : StringQueue Q⦄ (raft : Raft S Q)
    (config : MonitorConfig) : Server S Q → Server S Q → Type 0 where
  heartbeat_round :
      {server server' : Server S Q} (clock : GoString → ℕ)
      → monitor_heartbeat raft config clock server ≡ ok server'
      → Ticked raft config server server'
  first_batch :
      {server : Server S Q} (m : Master S Q)
      → consume_at_start raft server.master ≡ ok m
      → Ticked raft config server (record server { master = m })
  batch :
      {server : Server S Q} (is_timer : Bool) (m : Master S Q)
      → consume_pending_chunk raft is_timer server.master ≡ ok m
      → Ticked raft config server (record server { master = m })
  chunks_tick :
      {server : Server S Q} (m : Master S Q)
      → check_chunks_tick raft server.master ≡ ok m
      → Ticked raft config server (record server { master = m })
  storable_tick :
      {server : Server S Q} (m : Master S Q)
      → check_storable_data_node_tick raft server.master ≡ ok m
      → Ticked raft config server (record server { master = m })

-- Calls, steps of the monitor and late applications in any order. Raft may apply an operation when
-- nobody waits for it any more, after the future of its proposal had an error; which operation this
-- is and when it comes is left open.
pub data Running {S Q : Type 0} ⦃c : Common⦄ ⦃s : StringSet S⦄ ⦃q : StringQueue Q⦄ (raft : Raft S Q)
    (names : RpcNames) (config : MonitorConfig) (first : Server S Q) : Server S Q → Type 0 where
  start : Running raft names config first first
  call :
      {server server' : Server S Q}
      → Running raft names config first server
      → Served raft names server server'
      → Running raft names config first server'
  tick :
      {server server' : Server S Q}
      → Running raft names config first server
      → Ticked raft config server server'
      → Running raft names config first server'
  late :
      {server : Server S Q} (op : Operation) (now : ℕ) (id : GoString) (m : Master S Q)
      (a : ApplyResponse)
      → Running raft names config first server
      → IsAdmissible op server.master
      → fsm_apply op now id server.master ≡ ok (m, a)
      → Running raft names config first (record server { master = m })

module _ (S Q : Type 0) ⦃c : Common⦄ ⦃s : StringSet S⦄ ⦃q : StringQueue Q⦄ where
  -- What the timers propose: operations that any master may assume, and that request nothing of the
  -- tree.
  abbrev pub IsOfMonitor : Operation → Type 0
  IsOfMonitor op = ((m : Master S Q) → IsAdmissible op m) × ((r : Request) → ¬ Requests op r)

module _ {S Q : Type 0} ⦃c : Common⦄ ⦃s : StringSet S⦄ ⦃q : StringQueue Q⦄ {P : Master S Q → Type 0}
    (keeps : (op : Operation) → IsOfMonitor S Q op → (m : Master S Q) → P m → After op m P)
    (raft : Raft S Q) where
  -- A proposal of the monitor.
  proposal-keeps :
      (op : Operation) (m m' : Master S Q) (f : ApplyFuture)
      → IsOfMonitor S Q op
      → P m
      → raft.propose op m ≡ ok (m', f)
      → P m'
  proposal-keeps op m m' f of_monitor held e =
      propose-keeps op m held (keeps op of_monitor m held) raft m' f e

  propose_degradations-keeps :
      (ds : List (GoString × ℕ)) (m m' : Master S Q)
      → P m
      → propose_degradations raft ds m ≡ ok m'
      → P m'
  unfolding propose_degradations
  propose_degradations-keeps [] m m' agree e = subst P (ok-injective e) agree
  propose_degradations-keeps ((id, stage) ∷ ds) m m' agree e =
      after_bind _ (raft.propose (Operation.degrade id stage) m) _ e λ (m₁, f) proposed rest.
        propose_degradations-keeps ds m₁ m'
          (proposal-keeps (Operation.degrade id stage) m m₁ f (λ m. tt, λ r asks. asks) agree
            proposed)
          rest

  batch-keeps : (m m' : Master S Q) → P m → batch_allocate_chunks raft m ≡ ok m' → P m'
  unfolding batch_allocate_chunks
  batch-keeps m m' agree e = elim (Bool-cases (q.len m.pending_chunk_queue == 0)) [
    | inl empty ↦ subst P (ok-injective (rw (empty, batch_allocate_chunks) at e)) agree
    | inr work ↦
        after_bind _ (plan_batch m) _ (rw (work, batch_allocate_chunks) at e) λ o planned e.
          after_bind _ (raft.propose (Operation.allocate_chunks o) m) _ e λ (m₁, f) proposed e.
            subst P (ok-injective e) (
              proposal-keeps (Operation.allocate_chunks o) m m₁ f (λ m. tt, λ r asks. asks) agree
                proposed)
  ]

  consume_at_start-keeps : (m m' : Master S Q) → P m → consume_at_start raft m ≡ ok m' → P m'
  unfolding consume_at_start
  consume_at_start-keeps m m' agree e = elim (Bool-cases (ltb 0 (q.len m.pending_chunk_queue))) [
    | inl some_queued ↦ batch-keeps m m' agree (rw (some_queued, consume_at_start) at e)
    | inr nothing ↦ subst P (ok-injective (rw (nothing, consume_at_start) at e)) agree
  ]

  consume_pending_chunk-keeps :
      (is_timer : Bool) (m m' : Master S Q)
      → P m
      → consume_pending_chunk raft is_timer m ≡ ok m'
      → P m'
  unfolding consume_pending_chunk
  consume_pending_chunk-keeps true m m' agree e = batch-keeps m m' agree e
  consume_pending_chunk-keeps false m m' agree e =
      elim (Bool-cases (leb c.chunk_dead_chunk_copy_threshold (q.len m.pending_chunk_queue))) [
        | inl many ↦ batch-keeps m m' agree (rw (many, consume_pending_chunk) at e)
        | inr few ↦ subst P (ok-injective (rw (few, consume_pending_chunk) at e)) agree
      ]

  pub Ticked-keeps :
      (config : MonitorConfig) {server server' : Server S Q}
      → Ticked raft config server server'
      → P server.master
      → P server'.master
  unfolding monitor_heartbeat check_chunks_tick check_storable_data_node_tick
  Ticked-keeps config {server} {server'} (heartbeat_round clock e) agree =
      after_bind _
        (propose_degradations raft (degradations config clock server.master.data_node_map)
          server.master)
        _ e
        λ m proposed e.
          subst P (ap (λ server. server.master) (ok-injective e))
            (propose_degradations-keeps _ server.master m agree proposed)
  Ticked-keeps config {server} (first_batch m e) agree =
      consume_at_start-keeps server.master m agree e
  Ticked-keeps config {server} (batch is_timer m e) agree =
      consume_pending_chunk-keeps is_timer server.master m agree e
  Ticked-keeps config {server} (chunks_tick m e) agree =
      after_bind _ (raft.propose Operation.check_chunks_op server.master) _ e λ (m₁, f) proposed e.
        subst P (ok-injective e) (
          proposal-keeps Operation.check_chunks_op server.master m₁ f (λ m. tt, λ r asks. asks)
            agree proposed)
  Ticked-keeps config {server} (storable_tick m e) agree =
      after_bind _ (raft.propose Operation.check_data_nodes server.master) _ e λ (m₁, f) proposed e.
        subst P (ok-injective e) (
          proposal-keeps Operation.check_data_nodes server.master m₁ f (λ m. tt, λ r asks. asks)
            agree proposed)

module _ {S Q : Type 0} ⦃c : Common⦄ ⦃s : StringSet S⦄ ⦃q : StringQueue Q⦄ (raft : Raft S Q) where
  -- Whatever calls a master answers, whatever steps its monitor takes, but for the check of the file
  -- tree, and whatever operations raft applies late: no chunk counts as a replica a connected
  -- DataNode that does not store it, if none did at first. The conditions are that each DataNode
  -- registers under an identifier that no chunk counts, that heartbeats report as deleted only
  -- chunks that are unknown by then, also where these operations are applied late.
  pub Running-IsConsistent :
      (names : RpcNames) (config : MonitorConfig) {first server : Server S Q}
      → Running raft names config first server
      → IsConsistent first.master
      → IsConsistent server.master
  Running-IsConsistent names config start agree = agree
  Running-IsConsistent names config (call steps served) agree =
      Served-keeps apply-IsConsistent raft names served
        (Running-IsConsistent names config steps agree)
  Running-IsConsistent names config (tick steps ticked) agree =
      Ticked-keeps
        (λ op of_monitor m held. kept-After apply-IsConsistent op m (of_monitor.0 m) held) raft
        config ticked (Running-IsConsistent names config steps agree)
  Running-IsConsistent names config (late {server} op now id m a steps adm e) agree =
      let held = Running-IsConsistent names config steps agree in
      fsm_apply-keeps {P = IsConsistent} op server.master held
        (kept-After apply-IsConsistent op server.master adm held) now id m a e
