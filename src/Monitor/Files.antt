-- ===== src/Monitor/Files.antt =====
-- What clients see of the directory tree while a master works: the calls of
-- internal/master_handler.go and the goroutines of internal/monitor.go do to the paths what Spec
-- says of the requests that they make.
use tinydfs_master.Base.{◌≡◌, ◌⊎◌, List, [], ◌∷◌, GoString}
use tinydfs_master.External.{Common, StringSet, StringQueue}
use tinydfs_master.Namespace.{DirTree}
use tinydfs_master.Namespace.Reach.{TreeStep, Reachable}
use tinydfs_master.Namespace.Spec as Spec
use tinydfs_master.Namespace.Spec.{Files, FileStep, FileRun, Request, view}
use tinydfs_master.Namespace.Refinement.Steps.{request}
use tinydfs_master.Operations.{Operation}
use tinydfs_master.Operations.Trees.{Requests}
use tinydfs_master.Raft.{Raft}
use tinydfs_master.Handlers.Rpc.{RpcNames, Server}
use tinydfs_master.Handlers.Steps.{Served, Proposes}
use tinydfs_master.Monitor.{MonitorConfig}
use tinydfs_master.Monitor.Running.{Running, start, call, tick, late}

-- The requests of before, or one more.
abbrev pub OneMore : (Request → Type 0) → (List Request → Type 0) → List Request → Type 0
OneMore Asks Asked rs =
    Asked rs ⊎ ((r : Request) × (before : List Request) × Asks r × Asked before × (rs ≡ r ∷ before))

module _ {S Q : Type 0} ⦃c : Common⦄ ⦃s : StringSet S⦄ ⦃q : StringQueue Q⦄ {raft : Raft S Q}
    {names : RpcNames} where
  -- The requests that a call may make.
  abbrev pub CallAsks :
      {server server' : Server S Q} → Served raft names server server' → Request → Type 0
  CallAsks served r = (op : Operation) × Proposes served op × Requests op r

module _ {S Q : Type 0} ⦃c : Common⦄ ⦃s : StringSet S⦄ ⦃q : StringQueue Q⦄ {raft : Raft S Q}
    {names : RpcNames} {config : MonitorConfig} {first : Server S Q} where
  -- The requests that were made in a run, the last one first: at most one by a call, which is the
  -- request on the call's arguments, at most one by an operation that is applied late, and none by
  -- the monitor.
  abbrev pub Asked :
      {server : Server S Q} → Running raft names config first server → List Request → Type 0
  Asked start rs = rs ≡ []
  Asked (call steps served) rs = OneMore (CallAsks served) (Asked steps) rs
  Asked (tick steps ticked) rs = Asked steps rs
  Asked (late op now id m a steps adm e) rs = OneMore (Requests op) (Asked steps) rs

module _ {S : Type 0} ⦃c : Common⦄ ⦃s : StringSet S⦄ where
  -- One tree is the other, or one requested step away.
  abbrev Moved : (Request → Type 0) → DirTree S → DirTree S → Type 0
  Moved Asks t t' = (t' ≡ t) ⊎ ((st : TreeStep t t') × Asks (request st))

  -- What is known of a tree after a run with some requests.
  abbrev Kept : GoString → Files → (List Request → Type 0) → DirTree S → Type 0
  Kept id first Asked t =
      (rs : List Request) × Asked rs × FileRun first rs (view t) × Reachable id t
