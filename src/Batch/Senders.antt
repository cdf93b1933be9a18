-- ===== src/Batch/Senders.antt =====
-- A plan within its bounds applies without a panic: BatchApplyPlan2DataNode of internal/datanode.go.
use tinydfs_master.Base.{
  ℕ, zero, suc, ◌+◌, ◌≡◌, ◌≤◌, ◌<◌, refl, some, List, [], ◌∷◌, ◌==◌, ==-refl, nat_eq, nat_list_eq,
  length, get_elem?, get_elem?-some, GoString, ok, arith, Bool-cases, inl, inr,
}
use tinydfs_master.Base.GoMap
use tinydfs_master.Base.GoMap.{lookup, lookup-insert}
use tinydfs_master.External.{Common}
use tinydfs_master.State.{ChunkSendInfo, DataNode}
use tinydfs_master.Chunks.Plan.Bounds.{AllBelow}
use tinydfs_master.DataNodes.{DataNodeMap, plan_send}
use tinydfs_master.DataNodes.Selection.{get_alive_data_node_ids, apply_plan2_data_node_from}

AllBelow-at : (n : ℕ) (js : List ℕ) (i j : ℕ) → AllBelow n js → get_elem? js i ≡ some j → j < n
AllBelow-at n [] i j below at = absurd (ground arith)
AllBelow-at n (k ∷ js) zero j (lt, below) at = ground (arith, lt, at)
AllBelow-at n (k ∷ js) (suc i) j (lt, below) at = AllBelow-at n js i j below at

module _ {S : Type 0} where
  abbrev pub AllConnected : List GoString → DataNodeMap S → Type 0
  AllConnected [] m = Unit {0}
  AllConnected (id ∷ ids) m = ((node : DataNode S) × (lookup id m ≡ some node)) × AllConnected ids m

  AllConnected-at :
      (ids : List GoString) (m : DataNodeMap S) (i : ℕ) (id : GoString)
      → AllConnected ids m
      → get_elem? ids i ≡ some id
      → (node : DataNode S) × (lookup id m ≡ some node)
  AllConnected-at [] m i id known at = absurd (ground arith)
  AllConnected-at (other ∷ ids) m zero id (here, known) at = (here.0, ground (arith, here.1, at))
  AllConnected-at (other ∷ ids) m (suc i) id (here, known) at = AllConnected-at ids m i id known at

  AllConnected-insert :
      (ids : List GoString) (m : DataNodeMap S) (j : GoString) (node : DataNode S)
      → AllConnected ids m
      → AllConnected ids (GoMap.insert j node m)
  AllConnected-insert [] m j node known = tt
  AllConnected-insert (id ∷ ids) m j node (here, known) = (
    elim (Bool-cases (j == id)) [
      | inl same ↦ (node, ground (arith, same, lookup-insert id j node m))
      | inr other ↦ (here.0, ground (arith, other, here.1, lookup-insert id j node m))
    ],
    AllConnected-insert ids m j node known,
  )

  AllConnected-cons :
      (ids : List GoString) (m : DataNodeMap S) (j : GoString) (node : DataNode S)
      → AllConnected ids m
      → AllConnected ids ((j, node) ∷ m)
  unfolding GoMap.lookup
  AllConnected-cons [] m j node known = tt
  AllConnected-cons (id ∷ ids) m j node (here, known) = (
    elim (Bool-cases (j == id)) [
      | inl same ↦ (node, rw (same, GoMap.lookup) refl)
      | inr other ↦ (here.0, rw (other, GoMap.lookup) here.1)
    ],
    AllConnected-cons ids m j node known,
  )

module _ {S : Type 0} ⦃c : Common⦄ where
  pub get_alive-AllConnected : (m : DataNodeMap S) → AllConnected (get_alive_data_node_ids m) m
  unfolding get_alive_data_node_ids GoMap.lookup
  get_alive-AllConnected [] = tt
  get_alive-AllConnected ((id, node) ∷ m) =
      let known =
        AllConnected-cons (get_alive_data_node_ids m) m id node (get_alive-AllConnected m) in
      elim (Bool-cases (node.status == c.alive)) [
        | inl alive ↦
            rw (alive, get_alive_data_node_ids) ((node, ground (arith, ==-refl id)), known)
        | inr idle ↦ rw (idle, get_alive_data_node_ids) known
      ]

  pub apply_senders-returns :
      (i : ℕ) (receivers senders : List ℕ) (chunk_ids data_node_ids : List GoString)
      (m : DataNodeMap S)
      → i + length senders ≤ length chunk_ids
      → length receivers ≡ length chunk_ids
      → AllBelow (length data_node_ids) receivers
      → AllBelow (length data_node_ids) senders
      → AllConnected data_node_ids m
      → (m' : DataNodeMap S) × (apply_plan2_data_node_from i receivers senders chunk_ids
            data_node_ids m
          ≡ ok m')
  unfolding apply_plan2_data_node_from
  apply_senders-returns i receivers [] chunk_ids data_node_ids m le same below below' known =
      (m, refl)
  apply_senders-returns i receivers (dn ∷ senders) chunk_ids data_node_ids m le same below
        (lt, below') known =
      let (id, at_id) = get_elem?-some chunk_ids i (omega arith) in
      let (receiver, at_receiver) = get_elem?-some receivers i (omega arith) in
      let (receiver_id, at_node) =
        get_elem?-some data_node_ids receiver
          (AllBelow-at (length data_node_ids) receivers i receiver below at_receiver) in
      let (sender_id, at_sender) = get_elem?-some data_node_ids dn lt in
      let (sender, present) = AllConnected-at data_node_ids m dn sender_id known at_sender in
      let info : ChunkSendInfo = record {
        chunk_id = id;
        data_node_id = receiver_id;
        send_type = c.copy_send_type;
      } in
      let (m', done) =
        apply_senders-returns (i + 1) receivers senders chunk_ids data_node_ids
          (GoMap.insert sender_id (plan_send info c.wait_to_inform sender) m) (omega arith) same
          below below' (AllConnected-insert data_node_ids m sender_id _ known) in
      (m', rw (apply_plan2_data_node_from, at_id, at_receiver, at_node, at_sender, present) done)
