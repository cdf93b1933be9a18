-- ===== src/Monitor/Rounds.antt =====
-- What a round of MonitorHeartbeat of internal/monitor.go does to the DataNodes.
use tinydfs_master.Base.{
  ℕ, false, ◌-◌, ◌*◌, ◌/◌, leb, ◌≡◌, refl, sym, ap, ◌∙◌, subst, Option, none, some, List, [], ◌∷◌,
  ◌+◌, ◌==◌, ==-refl, some-injective, nat_eq, nat_list_eq, if◌then◌else◌, GoString, arith,
  Bool-cases, Option-cases, inl, inr, ok, ok-injective,
}
use tinydfs_master.Base.GoMap
use tinydfs_master.Base.GoMap.{lookup, lookup-insert, lookup-erase}
use tinydfs_master.External.{Common, StringSet, StringQueue}
use tinydfs_master.State.{DataNode, Master}
use tinydfs_master.DataNodes.{DataNodeMap}
use tinydfs_master.DataNodes.Degrade.{remove_dead, degrade_data_node}
use tinydfs_master.Operations.{Operation}
use tinydfs_master.Operations.Apply.{apply}
use tinydfs_master.Raft.{ApplyResponse, applied, fsm_apply, Raft}
use tinydfs_master.Monitor.{
  MonitorConfig, silent_seconds, stage_of, degradations, deaths, propose_degradations,
  monitor_heartbeat,
}
use tinydfs_master.Handlers.Rpc.{Server}

module _ {S : Type 0} where
  -- Each DataNode stands once, under its identifier.
  abbrev pub IsKeyed : DataNodeMap S → Type 0
  IsKeyed [] = Unit {0}
  IsKeyed ((id, node) ∷ m) = (node.id ≡ id) × (lookup id m ≡ none) × IsKeyed m

module _ ⦃c : Common⦄ where
  -- The constants tell the two states and the two stages apart.
  abbrev pub AreDistinct : MonitorConfig → Type 0
  AreDistinct config =
      ((c.alive == c.waiting) ≡ false) × ((config.degrade2_dead == c.degrade2_waiting) ≡ false)

module _ {S : Type 0} ⦃c : Common⦄ where
  -- What a degradation leaves of a DataNode.
  abbrev pub degraded : ℕ → Option (DataNode S) → Option (DataNode S)
  degraded stage none = none
  degraded stage (some node) =
      if stage == c.degrade2_waiting then some (record node { status = c.waiting }) else none

  -- What the rule for silent DataNodes leaves of one at a time: one that is alive waits after
  -- `chunk_waiting_time` heartbeats, one that waits is gone after `chunk_die_time` seconds, and
  -- every other stays.
  abbrev pub ruled : MonitorConfig → ℕ → DataNode S → Option (DataNode S)
  ruled config now node =
      let seconds = (now - node.heartbeat_time) / 1000000000 in
      if node.status == c.alive
      then (if leb seconds (config.chunk_waiting_time * config.chunk_heartbeat_time)
          then some node
          else some (record node { status = c.waiting }))
      else if node.status == c.waiting
      then (if leb seconds config.chunk_die_time then some node else none)
      else some node

  ruled-stays :
      (config : MonitorConfig) (now : ℕ) (node : DataNode S)
      → AreDistinct config
      → stage_of config now node ≡ none
      → ruled config now node ≡ some node
  unfolding stage_of silent_seconds
  ruled-stays config now node (states, stages) stays = ground (arith, states, stages, stays)

  ruled-degrades :
      (config : MonitorConfig) (now : ℕ) (node : DataNode S) (stage : ℕ)
      → AreDistinct config
      → stage_of config now node ≡ some stage
      → ruled config now node ≡ degraded stage (some node)
  unfolding stage_of silent_seconds
  ruled-degrades config now node stage (states, stages) degrades =
      ground (arith, states, stages, degrades)

module _ {S Q : Type 0} ⦃c : Common⦄ ⦃s : StringSet S⦄ ⦃q : StringQueue Q⦄ where
  abbrev pub degrade_all : List (GoString × ℕ) → Master S Q → Master S Q
  degrade_all [] m = m
  degrade_all ((id, stage) ∷ ds) m = degrade_all ds (degrade_data_node id stage m)

  -- No proposal of a degradation fails.
  abbrev pub IsAvailable : Raft S Q → Type 0
  IsAvailable raft =
      (id : GoString) (stage : ℕ) (m : Master S Q)
      → (m' : Master S Q) × (a : ApplyResponse) × (raft.propose (Operation.degrade id stage) m
          ≡ ok (m', applied a))

  lookup-degrade :
      (k id : GoString) (stage : ℕ) (m : Master S Q)
      → lookup k (degrade_data_node id stage m).data_node_map
        ≡ (if id == k then degraded stage (lookup k m.data_node_map) else lookup k m.data_node_map)
  unfolding degrade_data_node remove_dead
  lookup-degrade k id stage m = elim (Option-cases (lookup id m.data_node_map)) [
    | inl absent ↦ rw (absent, degrade_data_node) (ground (arith, absent))
    | inr (node, there) ↦ elim (Bool-cases (stage == c.degrade2_waiting)) [
      | inl waits ↦
          rw (there, degrade_data_node, waits)
            (ground (
              arith,
              there,
              waits,
              lookup-insert k id (record node { status = c.waiting }) m.data_node_map,
            ))
      | inr dies ↦
          rw (there, degrade_data_node, dies)
            (ground (arith, there, dies, lookup-erase k id m.data_node_map))
    ]
  ]

  proposed_degradation :
      (raft : Raft S Q)
      → IsAvailable raft
      → (id : GoString) (stage : ℕ) (m : Master S Q)
      → (a : ApplyResponse) × (raft.propose (Operation.degrade id stage) m
          ≡ ok (degrade_data_node id stage m, applied a))
  unfolding fsm_apply apply
  proposed_degradation raft available id stage m =
      let (m', a, e) = available id stage m in
      let (_, _, done) = raft.propose-Proposed (Operation.degrade id stage) m m' (applied a) e in
      let same : degrade_data_node id stage m ≡ m' = ap (λ r. r.0) (ok-injective done) in
      (a, e ∙ ap (λ m. ok (m, applied a)) (sym same))

  propose_degradations-degrade_all :
      (raft : Raft S Q)
      → IsAvailable raft
      → (ds : List (GoString × ℕ)) (m : Master S Q)
      → propose_degradations raft ds m ≡ ok (degrade_all ds m)
  unfolding propose_degradations
  propose_degradations-degrade_all raft available [] m = refl
  propose_degradations-degrade_all raft available ((id, stage) ∷ ds) m =
      let (a, e) = proposed_degradation raft available id stage m in
      rw (propose_degradations, e)
        (propose_degradations-degrade_all raft available ds (degrade_data_node id stage m))

  -- A DataNode that is not among those of a list is left alone by their degradations.
  degrade_all-others :
      (config : MonitorConfig) (clock : GoString → ℕ) (k : GoString) (nodes : DataNodeMap S)
      (m : Master S Q)
      → IsKeyed nodes
      → lookup k nodes ≡ none
      → lookup k (degrade_all (degradations config clock nodes) m).data_node_map
        ≡ lookup k m.data_node_map
  unfolding degradations GoMap.lookup
  degrade_all-others config clock k [] m keyed absent = refl
  degrade_all-others config clock k ((id, node) ∷ nodes) m (named, _, keyed) absent =
      elim (Bool-cases (id == k)) [
        | inl same ↦ absurd (ground (arith, same, absent))
        | inr other ↦
            let absent' : lookup k nodes ≡ none = rw (other, GoMap.lookup) at absent in
            elim (Option-cases (stage_of config (clock node.id) node)) [
              | inl stays ↦
                  rw (stays, degradations) (degrade_all-others config clock k nodes m keyed absent')
              | inr (stage, degrades) ↦
                  rw (degrades, degradations)
                    (degrade_all-others config clock k nodes (degrade_data_node node.id stage m)
                        keyed absent'
                      ∙ lookup-degrade k node.id stage m
                      ∙ ground (arith, named, other))
            ]
      ]

  degrade_all-first :
      (config : MonitorConfig) (clock : GoString → ℕ) (k : GoString) (node : DataNode S)
      (nodes : DataNodeMap S) (m : Master S Q)
      → AreDistinct config
      → IsKeyed ((k, node) ∷ nodes)
      → lookup k m.data_node_map ≡ some node
      → lookup k (degrade_all (degradations config clock ((k, node) ∷ nodes)) m).data_node_map
        ≡ ruled config (clock k) node
  unfolding degradations
  degrade_all-first config clock k node nodes m distinct (named, once, keyed) there =
      subst
        (λ now.
          lookup k (degrade_all (degradations config clock ((k, node) ∷ nodes)) m).data_node_map
          ≡ ruled config (clock now) node)
        named
        (elim (Option-cases (stage_of config (clock node.id) node)) [
          | inl stays ↦
              rw (stays, degradations)
                (degrade_all-others config clock k nodes m keyed once
                  ∙ there
                  ∙ sym (ruled-stays config (clock node.id) node distinct stays))
          | inr (stage, degrades) ↦
              rw (degrades, degradations)
                (degrade_all-others config clock k nodes (degrade_data_node node.id stage m) keyed
                    once
                  ∙ lookup-degrade k node.id stage m
                  ∙ ground (arith, named, ==-refl k, there)
                  ∙ sym (ruled-degrades config (clock node.id) node stage distinct degrades))
        ])

  degrade_all-ruled :
      (config : MonitorConfig) (clock : GoString → ℕ) (k : GoString) (node : DataNode S)
      (nodes : DataNodeMap S) (m : Master S Q)
      → AreDistinct config
      → IsKeyed nodes
      → lookup k nodes ≡ some node
      → lookup k m.data_node_map ≡ some node
      → lookup k (degrade_all (degradations config clock nodes) m).data_node_map
        ≡ ruled config (clock k) node
  unfolding degradations GoMap.lookup
  degrade_all-ruled config clock k node [] m distinct keyed there there' =
      absurd (ground (arith, there))
  degrade_all-ruled config clock k node ((id, first) ∷ nodes) m distinct (named, once, keyed) there
        there' =
      elim (Bool-cases (id == k)) [
        | inr other ↦
            let later : lookup k nodes ≡ some node = rw (other, GoMap.lookup) at there in
            elim (Option-cases (stage_of config (clock first.id) first)) [
              | inl stays ↦
                  rw (stays, degradations)
                    (degrade_all-ruled config clock k node nodes m distinct keyed later there')
              | inr (stage, degrades) ↦
                  rw (degrades, degradations)
                    (degrade_all-ruled config clock k node nodes
                      (degrade_data_node first.id stage m) distinct keyed later
                      (lookup-degrade k first.id stage m ∙ ground (arith, named, other, there')))
            ]
        | inl same ↦
            let id≡k : id ≡ k = ground (arith, same) in
            let first≡node : first ≡ node = some-injective _ _ (rw (same, GoMap.lookup) at there) in
            rw (id≡k, first≡node)
              (degrade_all-first config clock k node nodes m distinct
                (subst (λ p. IsKeyed (p ∷ nodes))
                  (ap (λ i. (i, first)) id≡k ∙ ap (λ n. (k, n)) first≡node) (named, once, keyed))
                there')
      ]

  -- If no proposal fails, each DataNode stands once in the map, under its identifier, and the
  -- constants tell the states and the stages apart, then a round of MonitorHeartbeat returns, and
  -- leaves of every DataNode what the rule for silent DataNodes says: one that is alive and was
  -- silent for longer than the waiting time waits, one that waits and was silent for longer than
  -- the time to die is gone, and any other stays as it is.
  pub monitor_heartbeat-ruled :
      (raft : Raft S Q) (config : MonitorConfig) (clock : GoString → ℕ) (server : Server S Q)
      → IsAvailable raft
      → AreDistinct config
      → IsKeyed server.master.data_node_map
      → (server' : Server S Q) × (monitor_heartbeat raft config clock server ≡ ok server')
        × ((k : GoString) (node : DataNode S)
            → lookup k server.master.data_node_map ≡ some node
            → lookup k server'.master.data_node_map ≡ ruled config (clock k) node)
  unfolding monitor_heartbeat
  monitor_heartbeat-ruled raft config clock server available distinct keyed =
      let nodes = server.master.data_node_map in
      let ds = degradations config clock nodes in
      (
        record server {
          master = degrade_all ds server.master;
          data_node_losses = server.data_node_losses + deaths config clock nodes;
        },
        rw (monitor_heartbeat, propose_degradations-degrade_all raft available ds server.master)
            refl,
        λ k node there.
            degrade_all-ruled config clock k node nodes server.master distinct keyed there there,
      )
