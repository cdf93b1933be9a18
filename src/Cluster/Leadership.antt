-- ===== src/Cluster/Leadership.antt =====
-- internal/master_handler.go, monitorCluster: what a master starts and stops when it becomes the
-- leader or a follower.
use tinydfs_master.Base.{
  ℕ, suc, ◌≡◌, Bool, true, false, Option, none, some, List, [], ◌∷◌, ◌==◌, nat_eq, if◌then◌else◌,
  contains, GoString, Result, ok, ◌>>=◌,
}

-- The observers of raft. What raft does with a nil observer is its own affair.
pub record Observers (O : Type 0) : Type 0 where
  pub registers : O → ℕ → Bool
  pub register_observer : ℕ → O → O
  pub deregister_observer : Option ℕ → O → Result O
  pub registers-register_observer :
      (i j : ℕ) (o : O)
      → registers (register_observer i o) j ≡ (if i == j then true else registers o j)
  pub deregister_observer-some :
      (i : ℕ) (o : O)
      → (o' : O) × (deregister_observer (some i) o ≡ ok o')
        × ((j : ℕ) → registers o' j ≡ (if i == j then false else registers o j))

-- The variables of monitorCluster and what it has started. A context is a number, and so is an
-- observer.
pub record Leadership (O : Type 0) : Type 0 where
  pub next_context : ℕ
  pub cancelled : List ℕ
  -- The contexts that StartMonitor was called with.
  pub monitors : List ℕ
  pub next_observer : ℕ
  pub follower_state_observer : Option ℕ
  pub observers : O
  -- The value in etcd.
  pub leader_address : Option GoString
  pub follower_lease_id : ℕ
  pub revoked : List ℕ
  -- How often putAndKeepFollower was started.
  pub followers_kept : ℕ

-- A value of MonitorChan, with the lease that the handler holds by then and whether etcd takes the
-- leader's address. The other errors are logged.
pub record Notice : Type 0 where
  pub is_leader : Bool
  pub lease_id : ℕ
  pub puts : Bool

-- The monitors whose context is not cancelled, so that they go on.
unfoldable pub still_running : List ℕ → List ℕ → ℕ
still_running cancelled [] = 0
still_running cancelled (context ∷ monitors) =
    let rest = still_running cancelled monitors in
    if contains cancelled context then rest else suc rest

module _ {O : Type 0} where
  -- Before the first notice: `o` has the observers that raft has by then.
  abbrev pub initial_leadership : O → Leadership O
  initial_leadership o = record {
    next_context = 0;
    cancelled = [];
    monitors = [];
    next_observer = 0;
    follower_state_observer = none;
    observers = o;
    leader_address = none;
    follower_lease_id = 0;
    revoked = [];
    followers_kept = 0;
  }

module _ {O : Type 0} (raft : Observers O) (own : GoString) where
  -- The round on becoming the leader, with the context that it makes.
  unfoldable pub become_leader : Notice → Leadership O → Leadership O
  become_leader notice l = record l {
    next_context = suc l.next_context;
    monitors = l.next_context ∷ l.monitors;
    next_observer = suc l.next_observer;
    follower_state_observer = some l.next_observer;
    observers = raft.register_observer l.next_observer l.observers;
    leader_address = if notice.puts then some own else l.leader_address;
    follower_lease_id = notice.lease_id;
    revoked = notice.lease_id ∷ l.revoked;
  }

  -- The round on becoming a follower, with the observers that are left.
  unfoldable pub become_follower : Notice → O → Leadership O → Leadership O
  become_follower notice observers l = record l {
    next_context = suc l.next_context;
    cancelled = l.next_context ∷ l.cancelled;
    observers = observers;
    follower_lease_id = notice.lease_id;
    followers_kept = suc l.followers_kept;
  }

  -- One round of the loop.
  unfoldable pub monitor_cluster : Notice → Leadership O → Result (Leadership O)
  unfolding become_leader become_follower
  monitor_cluster notice l = elim notice.is_leader [
    | true ↦ ok (become_leader notice l)
    | false ↦ do
      observers ← raft.deregister_observer l.follower_state_observer l.observers
      ok (become_follower notice observers l)
  ]

  unfoldable pub monitor_all : List Notice → Leadership O → Result (Leadership O)
  unfolding monitor_cluster
  monitor_all [] l = ok l
  monitor_all (notice ∷ notices) l = do l' ← monitor_cluster notice l; monitor_all notices l'
