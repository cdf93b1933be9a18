-- ===== src/Cluster/Members.antt =====
-- Who is a member of the cluster after joins and removals.
use tinydfs_master.Base.{
  ◌≡◌, refl, ap, ◌∙◌, inl, inr, Bool, true, false, none, some, List, [], ◌∷◌, ◌++◌, ◌==◌, ==-refl,
  nat_list_eq, if◌then◌else◌, contains, GoString, arith, Bool-cases, Option-cases,
}
use tinydfs_master.External.{Common}
use tinydfs_master.Cluster.{
  ClusterConfig, Membership, JoinReply, joined, already_joined, raft_error, unreachable,
  Observation, failed_heartbeat, other_observation, join_failed, without_id, host_of, raft_address,
  join_cluster, observe, join_at, bootstrap_or_join_cluster,
}

-- No identifier stands twice in a list.
abbrev pub IsUnique : List GoString → Type 0
IsUnique [] = Unit {0}
IsUnique (x ∷ xs) = (contains xs x ≡ false) × IsUnique xs

contains-snoc :
    (xs : List GoString) (x y : GoString)
    → contains (xs ++ x ∷ []) y ≡ (if x == y then true else contains xs y)
contains-snoc [] x y = ground arith
contains-snoc (z ∷ xs) x y = ground (arith, contains-snoc xs x y)

snoc-IsUnique :
    (xs : List GoString) (x : GoString)
    → contains xs x ≡ false
    → IsUnique xs
    → IsUnique (xs ++ x ∷ [])
snoc-IsUnique [] x absent unique = (refl, tt)
snoc-IsUnique (y ∷ xs) x absent (once, unique) = elim (Bool-cases (y == x)) [
  | inl same ↦ absurd (ground (arith, same, absent))
  | inr differ ↦ (
    ground (arith, contains-snoc xs x y, once, differ),
    snoc-IsUnique xs x (ground (arith, differ, absent)) unique,
  )
]

pub contains-without_id :
    (xs : List GoString) (x y : GoString)
    → contains (without_id x xs) y ≡ (if x == y then false else contains xs y)
contains-without_id [] x y = ground arith
contains-without_id (z ∷ xs) x y = ground (arith, contains-without_id xs x y)

without_id-IsUnique : (xs : List GoString) (x : GoString) → IsUnique xs → IsUnique (without_id x xs)
without_id-IsUnique [] x unique = tt
without_id-IsUnique (y ∷ xs) x (once, unique) = elim (Bool-cases (y == x)) [
  | inl same ↦ rw (same) (without_id-IsUnique xs x unique)
  | inr differ ↦
      rw (differ)
        (ground (arith, contains-without_id xs x y, once), without_id-IsUnique xs x unique)
]

if-IsUnique :
    (b : Bool) (xs ys : List GoString) → IsUnique xs → IsUnique ys → IsUnique (if b then xs else ys)
if-IsUnique true xs ys left right = left
if-IsUnique false xs ys left right = right

module _ ⦃c : Common⦄ (config : ClusterConfig) {V : Type 0} (raft : Membership V) where
  abbrev id_of : GoString → GoString
  id_of peer_address = raft_address config (host_of config peer_address)

  -- JoinCluster for a server that is no member is a change by raft.
  joining :
      (peer_address : GoString) (v : V)
      → raft.configuration_error v ≡ none
      → contains (raft.servers v) (id_of peer_address) ≡ false
      → (join_cluster config raft peer_address v).0 ≡ (raft.add_voter (id_of peer_address) v).0
  unfolding join_cluster
  joining peer_address v works absent =
      elim (Option-cases (raft.add_voter (id_of peer_address) v).1) [
        | inl adds ↦ rw (works, join_cluster, absent, adds) refl
        | inr (error, fails) ↦ rw (works, join_cluster, absent, fails) refl
      ]

  add_voter-IsUnique :
      (id : GoString) (v : V)
      → contains (raft.servers v) id ≡ false
      → IsUnique (raft.servers v)
      → IsUnique (raft.servers (raft.add_voter id v).0)
  add_voter-IsUnique id v absent unique = elim (Option-cases (raft.add_voter id v).1) [
    | inl adds ↦
        rw (raft.servers-add_voter id v absent adds)
          (snoc-IsUnique (raft.servers v) id absent unique)
    | inr (error, fails) ↦
        let (applied, after) = raft.servers-add_voter_failed id error v fails in
        rw (after)
          (if-IsUnique applied _ _ (snoc-IsUnique (raft.servers v) id absent unique) unique)
  ]

  join_cluster-IsUnique :
      (peer_address : GoString) (v : V)
      → IsUnique (raft.servers v)
      → IsUnique (raft.servers (join_cluster config raft peer_address v).0)
  unfolding join_cluster
  join_cluster-IsUnique peer_address v unique = elim (Option-cases (raft.configuration_error v)) [
    | inr (error, fails) ↦ rw (fails, join_cluster) unique
    | inl works ↦ elim (Bool-cases (contains (raft.servers v) (id_of peer_address))) [
      | inl member ↦ rw (works, join_cluster, member) unique
      | inr absent ↦
          rw (joining peer_address v works absent)
            (add_voter-IsUnique (id_of peer_address) v absent unique)
    ]
  ]

  observe-IsUnique :
      (o : Observation) (v : V)
      → IsUnique (raft.servers v)
      → IsUnique (raft.servers (observe raft o v).0)
  unfolding observe
  observe-IsUnique (failed_heartbeat id) v unique =
      elim (Option-cases (raft.remove_server id v).1) [
        | inl removes ↦
            rw (raft.servers-remove_server id v removes)
              (without_id-IsUnique (raft.servers v) id unique)
        | inr (error, fails) ↦
            let (applied, after) = raft.servers-remove_server_failed id error v fails in
            rw (after)
              (if-IsUnique applied _ _ (without_id-IsUnique (raft.servers v) id unique) unique)
      ]
  observe-IsUnique other_observation v unique = unique

  -- A call of JoinCluster, or an observation.
  pub data ClusterStep (v : V) : V → Type 0 where
    called : (peer_address : GoString) → ClusterStep v (join_cluster config raft peer_address v).0
    observed : (o : Observation) → ClusterStep v (observe raft o v).0

  pub data ClusterSteps (first : V) : V → Type 0 where
    start : ClusterSteps first first
    next : {v v' : V} → ClusterSteps first v → ClusterStep v v' → ClusterSteps first v'

  -- However masters join and are removed, and whether or not raft reports errors, no server
  -- stands twice in the cluster's configuration, if none did at first.
  pub ClusterSteps-IsUnique :
      {first v : V}
      → ClusterSteps first v
      → IsUnique (raft.servers first)
      → IsUnique (raft.servers v)
  ClusterSteps-IsUnique start unique = unique
  ClusterSteps-IsUnique (next {v} steps (called peer_address)) unique =
      join_cluster-IsUnique peer_address v (ClusterSteps-IsUnique steps unique)
  ClusterSteps-IsUnique (next {v} steps (observed o)) unique =
      observe-IsUnique o v (ClusterSteps-IsUnique steps unique)

  abbrev address_of : GoString → GoString
  address_of leader = c.combine_string (host_of config leader ∷ config.master_port ∷ [])

  -- A master that is a member already is refused, and stays a member.
  pub join_cluster-already_joined :
      (peer_address : GoString) (v : V)
      → raft.configuration_error v ≡ none
      → contains (raft.servers v) (id_of peer_address) ≡ true
      → join_cluster config raft peer_address v ≡ (v, already_joined (host_of config peer_address))
  unfolding join_cluster
  join_cluster-already_joined peer_address v available member =
      rw (available, join_cluster, member) refl

  -- A master that starts while it is a member of a running cluster does not get started: whether
  -- the leader answers or not, bootstrapOrJoinCluster returns an error. The cluster's configuration
  -- and the leader's key in etcd stay as they were, but the goroutine that registers the master as
  -- a follower has been started.
  pub restart-fails :
      (answers : GoString → Bool) (puts : Bool) (self own leader : GoString) (v : V)
      → contains (raft.servers v) (id_of own) ≡ true
      → (r : JoinReply) × (bootstrap_or_join_cluster config raft answers puts self own none
            (some leader)
            v
          ≡ (v, some leader, 1, join_failed r))
  unfolding bootstrap_or_join_cluster join_at join_cluster
  restart-fails answers puts self own leader v member =
      elim (Option-cases (raft.configuration_error v)) [
        | inr (error, fails) ↦ elim (Bool-cases (answers (address_of leader))) [
          | inl up ↦ (raft_error error, rw (up, join_at, fails, join_cluster) refl)
          | inr down ↦ (unreachable, rw (down, join_at) refl)
        ]
        | inl works ↦ elim (Bool-cases (answers (address_of leader))) [
          | inl up ↦ (
            already_joined (host_of config own),
            rw (up, join_at, join_cluster-already_joined own v works member) refl,
          )
          | inr down ↦ (unreachable, rw (down, join_at) refl)
        ]
      ]

  -- A master whose heartbeats failed and that raft has removed can join again.
  pub removed-joins :
      (peer_address : GoString) (v : V)
      → (raft.remove_server (id_of peer_address) v).1 ≡ none
      → let v' = (observe raft (failed_heartbeat (id_of peer_address)) v).0 in
        raft.configuration_error v' ≡ none
        → (raft.add_voter (id_of peer_address) v').1 ≡ none
        → ((join_cluster config raft peer_address v').1 ≡ joined)
          × (raft.servers (join_cluster config raft peer_address v').0
              ≡ without_id (id_of peer_address) (raft.servers v) ++ id_of peer_address ∷ [])
  unfolding join_cluster observe
  removed-joins peer_address v gone available added =
      let absent : contains (raft.servers (raft.remove_server (id_of peer_address) v).0)
            (id_of peer_address)
          ≡ false =
        rw (raft.servers-remove_server (id_of peer_address) v gone) (
          ground (
            arith,
            contains-without_id (raft.servers v) (id_of peer_address) (id_of peer_address),
            ==-refl (id_of peer_address),
          )) in
      (
        rw (available, join_cluster, absent, added) refl,
        rw (joining peer_address (raft.remove_server (id_of peer_address) v).0 available absent) (
            raft.servers-add_voter (id_of peer_address)
              (raft.remove_server (id_of peer_address) v).0 absent added
            ∙ ap (λ ids. ids ++ id_of peer_address ∷ [])
                (raft.servers-remove_server (id_of peer_address) v gone)),
      )
