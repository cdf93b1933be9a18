-- ===== src/DataNodes/Informing.antt =====
-- What a DataNode is told in the reply to a heartbeat: the last loop of UpdateDataNode4Heartbeat
-- of internal/datanode.go.
use tinydfs_master.Base.{
  ℕ, ◌≡◌, refl, subst, some, List, [], ◌∷◌, nat_eq, nat_list_eq, arith, ◌==◌, ==-refl, Bool-cases,
  Option-cases, inl, inr, some-injective, GoString,
}
use tinydfs_master.Base.GoMap
use tinydfs_master.Base.GoMap.{lookup, lookup-modify}
use tinydfs_master.External.{Common, StringSet, StringQueue}
use tinydfs_master.State.{ChunkSendInfo, chunk_send_info_eq, HeartbeatOperation, Master}
use tinydfs_master.DataNodes.{
  DataNodeMap, SendPlan, next_chunk_infos, mark_informed, plan_of, inform,
  update_data_node4_heartbeat,
}

module _ ⦃c : Common⦄ where
  mark_informed-once : (plan : SendPlan) → next_chunk_infos (mark_informed plan) ≡ []
  unfolding next_chunk_infos mark_informed
  mark_informed-once [] = refl
  mark_informed-once ((info, i) ∷ plan) = ground (arith, mark_informed-once plan)

  -- Each of the chunks is planned as told.
  abbrev pub AreTold : SendPlan → List ChunkSendInfo → Type 0
  AreTold plan [] = Unit {0}
  AreTold plan (info ∷ infos) = (lookup info plan ≡ some c.wait_to_send) × AreTold plan infos

  AreTold-more :
      (info : ChunkSendInfo) (i : ℕ) (plan : SendPlan) (infos : List ChunkSendInfo)
      → i ≡ c.wait_to_send
      → AreTold plan infos
      → AreTold ((info, i) ∷ plan) infos
  unfolding lookup
  AreTold-more info i plan [] known told = tt
  AreTold-more info i plan (other ∷ infos) known (here, rest) =
      (ground (arith, here, known), AreTold-more info i plan infos known rest)

  mark_informed-AreTold : (plan : SendPlan) → AreTold (mark_informed plan) (next_chunk_infos plan)
  unfolding next_chunk_infos mark_informed lookup
  mark_informed-AreTold [] = tt
  mark_informed-AreTold ((info, i) ∷ plan) =
      let told = mark_informed-AreTold plan in
      elim (Bool-cases (i == c.wait_to_send)) [
        | inl before ↦
            rw (before, next_chunk_infos, mark_informed)
              (AreTold-more info i _ _ (ground (arith, before)) told)
        | inr new ↦
            rw (new, next_chunk_infos, mark_informed)
              (ground arith, AreTold-more info c.wait_to_send _ _ refl told)
      ]

module _ {S : Type 0} ⦃c : Common⦄ where
  inform-tells_once :
      (id : GoString) (m : DataNodeMap S)
      → (next_chunk_infos (plan_of (lookup id (GoMap.modify id inform m))) ≡ [])
        × AreTold
            (plan_of (lookup id (GoMap.modify id inform m)))
            (next_chunk_infos (plan_of (lookup id m)))
  unfolding inform next_chunk_infos
  inform-tells_once id m = elim (Option-cases (lookup id m)) [
    | inl absent ↦ rw (lookup-modify id id inform m, ==-refl id, absent) (refl, tt)
    | inr (node, there) ↦
        rw (lookup-modify id id inform m, ==-refl id, there)
          (
            mark_informed-once node.future_send_chunks,
            mark_informed-AreTold node.future_send_chunks,
          )
  ]

module _ {S Q : Type 0} ⦃c : Common⦄ ⦃s : StringSet S⦄ ⦃q : StringQueue Q⦄ where
  -- After a heartbeat the DataNode that sent it has nothing left that it is still to be told, and
  -- each of the chunks in the reply is planned there as told.
  pub update_data_node4_heartbeat-tells_once :
      (o : HeartbeatOperation) (now : ℕ) (m m' : Master S Q) (infos : List ChunkSendInfo)
      → update_data_node4_heartbeat o now m ≡ some (m', infos)
      → (next_chunk_infos (plan_of (lookup o.data_node_id m'.data_node_map)) ≡ [])
        × AreTold (plan_of (lookup o.data_node_id m'.data_node_map)) infos
  unfolding update_data_node4_heartbeat inform
  update_data_node4_heartbeat-tells_once o now m m' infos e =
      elim (Option-cases (lookup o.data_node_id m.data_node_map)) [
        | inl absent ↦ absurd (cc (rw (absent, update_data_node4_heartbeat) at e))
        | inr (node, there) ↦
            let done = some-injective _ _ (rw (there, update_data_node4_heartbeat) at e) in
            subst
              (λ x.
                (next_chunk_infos (plan_of (lookup o.data_node_id x.0.data_node_map)) ≡ [])
                × AreTold (plan_of (lookup o.data_node_id x.0.data_node_map)) x.1)
              done (inform-tells_once o.data_node_id _)
      ]
