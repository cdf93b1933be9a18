-- ===== src/Cluster.antt =====
-- internal/master_handler.go: how a master joins the others, bootstrapOrJoinCluster, joinCluster
-- and JoinCluster, and how a dead one leaves, getFollowerStateObserver.
pub mod Members
pub mod Leadership
pub mod Monitors
use tinydfs_master.Base.{
  ℕ, ◌≡◌, Bool, true, false, Option, none, some, List, [], ◌∷◌, ◌++◌, ◌==◌, nat_list_eq,
  if◌then◌else◌, contains, GoString,
}
use tinydfs_master.Base.Strings.{split}
use tinydfs_master.External.{Common}
use tinydfs_master.Checks.{first_piece}

-- The settings of the cluster.
pub record ClusterConfig : Type 0 where
  -- A single byte, a colon.
  pub address_delimiter : ℕ
  pub master_raft_port : GoString
  pub master_port : GoString

abbrev pub without_id : GoString → List GoString → List GoString
without_id id [] = []
without_id id (x ∷ ids) = let rest = without_id id ids in if x == id then rest else x ∷ rest

-- The configuration of raft, as its leader changes it; `servers` are the identifiers of
-- `Configuration().Servers`. An error is given by its text.
pub record Membership (V : Type 0) : Type 0 where
  pub servers : V → List GoString
  pub configuration_error : V → Option GoString
  pub add_voter : GoString → V → V × Option GoString
  pub remove_server : GoString → V → V × Option GoString
  pub bootstrap_cluster : GoString → V → V
  -- A server that is no member yet is one after a change without an error, and may be after an
  -- error. A change for a member changes its address.
  pub servers-add_voter :
      (id : GoString) (v : V)
      → contains (servers v) id ≡ false
      → (add_voter id v).1 ≡ none
      → servers (add_voter id v).0 ≡ servers v ++ id ∷ []
  pub servers-add_voter_failed :
      (id error : GoString) (v : V)
      → (add_voter id v).1 ≡ some error
      → (applied : Bool) × (servers (add_voter id v).0
          ≡ (if applied then servers v ++ id ∷ [] else servers v))
  pub servers-remove_server :
      (id : GoString) (v : V)
      → (remove_server id v).1 ≡ none
      → servers (remove_server id v).0 ≡ without_id id (servers v)
  pub servers-remove_server_failed :
      (id error : GoString) (v : V)
      → (remove_server id v).1 ≡ some error
      → (applied : Bool) × (servers (remove_server id v).0
          ≡ (if applied then without_id id (servers v) else servers v))

-- What JoinCluster returns: a reply, one of its errors, or the error of raft; `unreachable` is the
-- error of grpc where no server answers.
pub data JoinReply : Type 0 where
  joined : JoinReply
  already_joined : GoString → JoinReply
  raft_error : GoString → JoinReply
  unreachable : JoinReply

-- raft.Observation, of which one kind matters.
pub data Observation : Type 0 where
  failed_heartbeat : GoString → Observation
  other_observation : Observation

-- How a start ends: `initRaft` returns nil, or the error with which CreateMasterHandler panics.
pub data Start : Type 0 where
  bootstrapped : Start
  started : Start
  etcd_failed : GoString → Start
  join_failed : JoinReply → Start

abbrev pub start_of : JoinReply → Start
start_of joined = started
start_of (already_joined address) = join_failed (already_joined address)
start_of (raft_error error) = join_failed (raft_error error)
start_of unreachable = join_failed unreachable

module _ {V : Type 0} (raft : Membership V) where
  -- The filter of the observer. The future of RemoveServer is dropped.
  unfoldable pub observe : Observation → V → V × Bool
  observe (failed_heartbeat peer_id) v = ((raft.remove_server peer_id v).0, true)
  observe other_observation v = (v, false)

module _ ⦃c : Common⦄ (config : ClusterConfig) where
  -- The address of a peer without its port.
  unfoldable pub host_of : GoString → GoString
  host_of address = first_piece (split config.address_delimiter address)

  unfoldable pub raft_address : GoString → GoString
  raft_address host =
      c.combine_string (host ∷ (config.address_delimiter ∷ []) ∷ config.master_raft_port ∷ [])

  module _ {V : Type 0} (raft : Membership V) where
    unfoldable pub join_cluster : GoString → V → V × JoinReply
    unfolding host_of raft_address
    join_cluster peer_address v =
        let address = host_of peer_address in
        let id = raft_address address in
        elim (raft.configuration_error v) [
          | some error ↦ (v, raft_error error)
          | none ↦
              if contains (raft.servers v) id
              then (v, already_joined address)
              else elim (raft.add_voter id v).1 [
                | none ↦ ((raft.add_voter id v).0, joined)
                | some error ↦ ((raft.add_voter id v).0, raft_error error)
              ]
        ]

    -- `joinCluster`: the leader's address is that of its raft port. `answers` says where a leader
    -- answers, and `own` is the address from which this master calls. With the reply comes how
    -- often putAndKeepFollower is started: once, also after an error.
    unfoldable pub join_at : (GoString → Bool) → GoString → GoString → V → V × JoinReply × ℕ
    unfolding join_cluster host_of
    join_at answers own leader v =
        let there = join_cluster own v in
        if answers (c.combine_string (host_of leader ∷ config.master_port ∷ []))
        then (there.0, there.1, 1)
        else (v, unreachable, 1)

    -- `bootstrapOrJoinCluster`, with the handler's raft address and what etcd has under the
    -- leader's key, or its error. Bootstrapping writes the raft address there, unless etcd refuses;
    -- this error and raft's are logged. The number is that of the goroutines of putAndKeepFollower
    -- that it has started.
    unfoldable pub bootstrap_or_join_cluster :
        (GoString → Bool)
        → Bool
        → GoString
        → GoString
        → Option GoString
        → Option GoString
        → V
        → V × Option GoString × ℕ × Start
    unfolding join_at
    bootstrap_or_join_cluster answers puts self own (some error) leader_key v =
        (v, leader_key, 0, etcd_failed error)
    bootstrap_or_join_cluster answers puts self own none none v =
        (raft.bootstrap_cluster self v, (if puts then some self else none), 0, bootstrapped)
    bootstrap_or_join_cluster answers puts self own none (some leader) v =
        let (v', reply, kept) = join_at answers own leader v in
        (v', some leader, kept, start_of reply)
