-- ===== src/Lib.antt =====
-- The master of tinydfs, a distributed file system: its metadata, and the operations by which a
-- raft cluster of masters changes them. A client asks a master handler, which proposes an
-- operation to raft; every master then applies it. DataNodes store the chunks of files and report
-- by heartbeats what they have sent, failed to send or found invalid, and the replies tell them
-- what to send next.
--
-- The parts and their files:
--   internal/namespace.go    Namespace, the directory tree: FileNodes on a heap that point at each
--                            other, as in the source. getFileNode is get_file_node, and so on.
--                            Namespace/ holds its invariant and what each operation does to paths.
--                            Namespace/Spec sees a tree as a function from paths to nodes, with a
--                            relation for what a request does to it, and Namespace/Refinement
--                            relates the operations to it.
--   internal/chunk.go        Chunks: chunksMap and pendingChunkQueue, and BatchUpdatePendingDataNodes,
--                            UpdateChunk4Heartbeat and the others on them. Chunks/Plan: the
--                            planner, getStoreState, allocateChunksDFS and dfs.
--   internal/datanode.go     DataNodes: dataNodeMap and heartbeats; DataNodes/Selection, Degrade,
--                            Usage and Allocation, the last on BinaryHeap (package container/heap).
--   internal/operation.go    Operations and Operations/Apply: the operations and their Apply
--                            methods; Checks: the periodic check of the file tree and of the chunks;
--                            Operations/Listing: what a list of files shows.
--   internal/fsm.go          Operations/Apply and Raft: apply is what MasterFSM.Apply runs after
--                            decoding, fsm_apply its response.
--   internal/master_handler.go
--                            Handlers: what the calls share is in Rpc (ask is the proposal and the
--                            tests of the future and the response), Register and Heartbeat in Nodes,
--                            the calls of clients in Files, their operations and replies in Replies;
--                            Acknowledged is about what calls on paths have done.
--                            Cluster: JoinCluster, joinCluster, bootstrapOrJoinCluster and the
--                            filter of getFollowerStateObserver. Cluster/Leadership: monitorCluster.
--   internal/monitor.go      Monitor: a round of MonitorHeartbeat, ConsumePendingChunk, the timers.
--                            Monitor/Running: calls, steps of the monitor and operations that raft
--                            applies late, in any order, and what they keep; Monitor/Files: what
--                            clients see of the tree meanwhile, by the requests of the calls.
-- Wire has the way of an operation through the replicated log: getData4Apply, OpTypeMap of
-- internal/operation.go, ConvBytes2Operation and MasterFSM.Apply on bytes. Wire/Ticks: the entries
-- that the timers of internal/monitor.go propose.
-- Snapshot has the snapshots of all four parts: what is printed (chunk_line, data_node_line,
-- file_node_line), what is read from the lines of a scanner, how buildTree links the nodes again,
-- and Persist and Restore of internal/fsm.go.
-- DoExpand of internal/datanode.go is in Expand and BatchAllocateChunks of internal/chunk.go in
-- Batch, since they propose operations.
-- State has the package variables as one record, Master. Consistency relates the chunks' view of
-- where replicas are to the DataNodes' view; Operations/Consistency carries it through apply, and
-- Operations/Trees what apply does to the tree.
--
-- Taken as parameters (External): the constants and string helpers of tinydfs-base with the
-- values of its configuration, the sets of golang-set and the queue of tinydfs-base, each with the
-- laws that the calls rely on. Samples fills them, for Tests.
-- Package raft is the record Raft: a proposal gives a future, and changes the metadata as MasterFSM
-- does or, after an error, perhaps not; that raft may do so later, when nobody waits for
-- the future any more, is a step of Running. RpcNames and MonitorConfig have the constants and settings
-- that only the calls and the monitor use, SnapshotText those of snapshots and package time.
-- Json is package encoding/json on bytes of any type, OpNames the names of operations. Membership
-- and Observers are raft's configuration and observers, ClusterConfig the ports.
--
-- Conventions. A string is the list of its bytes. A Go map is an association list, whose order
-- stands for the one in which range meets the entries. A panic is an outcome of Result beside a
-- value and an error. The clock and new UUIDs are arguments. Locks make each operation one step.
-- Sizes and capacities are natural numbers, and a subtraction that could go below zero stands as
-- a sum on the other side. BatchAllocateDataNodes tells DataNodes apart by their ids, where the
-- source uses their pointers.
--
-- Fuel. The loops of container/heap get the length of the heap, which bounds the depth of the
-- tree. The loop of the check of the file tree gets fuel from its caller, and reports when it runs
-- out. The loop of DoExpand gets fuel: one round more than chunks that are stored and not pending.
-- PersistDirTree and buildTree get fuel from their callers, and report when it runs out.
-- strconv.Itoa gets the number and one more, which bounds its digits.
--
-- Not modelled: a sink that fails, the splitting of a snapshot into lines, timers and goroutines but
-- for their order, setting up gRPC, raft and etcd, keeping a follower's lease in etcd, the main
-- program and logging. The check of the file tree is not among the operations of apply, but of
-- apply_operation in Wire. IsDeepEqualTo of internal/namespace.go is called by nothing. The planner
-- computes on integers, where the source goes through floats that are exact at such sizes. Numbers in
-- a snapshot have no sign. Equal notices of leadership in a row, which raft does not send, are run by
-- monitor_all, and the theorem on it leaves them out.
pub mod Base
pub mod Batch
pub mod External
pub mod Namespace
pub mod BinaryHeap
pub mod State
pub mod Wire
pub mod Cluster
pub mod Chunks
pub mod DataNodes
pub mod Checks
pub mod Consistency
pub mod Operations
pub mod Raft
pub mod Expand
pub mod Monitor
pub mod Handlers
pub mod Snapshot
pub mod Samples
pub mod Tests
