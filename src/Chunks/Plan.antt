-- ===== src/Chunks/Plan.antt =====
-- internal/chunk.go: the planner that chooses a DataNode for each chunk that lacks a replica.
pub mod Bounds
pub mod Placing
pub mod Best
pub mod Found
pub mod Stored
pub mod Applied
use tinydfs_master.Base.{
  ℕ, zero, suc, ◌+◌, ◌-◌, ◌*◌, ◌/◌, ◌^◌, Bool, true, false, Option, none, some, List, [], ◌∷◌, ◌++◌,
  ◌==◌, nat_eq, nat_list_eq, ltb, if◌then◌else◌, length, get_elem?, set, replicate, map, GoString,
  Result, ok, err, panic, ◌>>=◌, deref,
}
use tinydfs_master.Base.GoMap
use tinydfs_master.External.{StringSet}
use tinydfs_master.State.{Chunk}
use tinydfs_master.Chunks.{ChunksMap}

-- Which DataNodes store a chunk, by their positions.
abbrev pub Row : Type 0
Row = List Bool

-- The last position of each DataNode, as in `dnIndexMap`; one that is missing reads as 0.
unfoldable pub index_of : ℕ → List GoString → GoString → ℕ
index_of i [] id = 0
index_of i (other ∷ ids) id = let rest = index_of (suc i) ids id in if other == id then i else rest

-- `isStore[i][dnIndexMap[id]] = true` for each id. An index out of range is a panic.
unfoldable pub mark_stored : List GoString → List GoString → Row → Result Row
unfolding index_of
mark_stored data_node_ids [] row = ok row
mark_stored data_node_ids (id ∷ ids) row = do
  _ ← deref (get_elem? row (index_of 0 data_node_ids id))
  mark_stored data_node_ids ids (set row (index_of 0 data_node_ids id) true)

module _ {S : Type 0} ⦃s : StringSet S⦄ where
  unfoldable pub get_store_state : List GoString → List GoString → ChunksMap S → Result (List Row)
  unfolding mark_stored
  get_store_state [] data_node_ids m = ok []
  get_store_state (id ∷ ids) data_node_ids m = do
    chunk ← deref (GoMap.lookup id m)
    stored ←
        mark_stored data_node_ids (s.to_slice chunk.data_nodes)
          (replicate (length data_node_ids) false)
    row ← mark_stored data_node_ids (s.to_slice chunk.pending_data_nodes) stored
    rest ← get_store_state ids data_node_ids m
    ok (row ∷ rest)

-- The best plan so far and its value: `result` and `minValue`.
pub record Plan : Type 0 where
  pub result : List ℕ
  pub min_value : ℕ

-- `math.Pow(float64(n - avg), 2)`, whichever is larger.
unfoldable pub square_distance : ℕ → ℕ → ℕ
square_distance n avg = (n - avg) * (n - avg) + (avg - n) * (avg - n)

unfoldable pub variance : ℕ → List (List ℕ) → ℕ
unfolding square_distance
variance avg [] = 0
variance avg (chunks ∷ rest) = square_distance (length chunks) avg + variance avg rest

-- `result[k] = j` for each chunk `k` of a DataNode.
unfoldable pub assign : ℕ → List ℕ → List ℕ → List ℕ
assign j [] result = result
assign j (k ∷ ks) result = assign j ks (set result k j)

-- The same for all DataNodes from position `j` on.
unfoldable pub assign_all : ℕ → List (List ℕ) → List ℕ → List ℕ
unfolding assign
assign_all j [] result = result
assign_all j (chunks ∷ rest) result = assign_all (suc j) rest (assign j chunks result)

-- The end of a branch of dfs, where every chunk has a DataNode.
unfoldable pub complete : ℕ → ℕ → List (List ℕ) → Plan → Bool × Plan
unfolding variance assign_all
complete avg best_variance current plan =
    let value = variance avg current in
    (
      value == best_variance,
      if ltb value plan.min_value
          then record { result = assign_all 0 current plan.result; min_value = value }
          else plan,
    )

-- `for i := 0; i < dataNodeNum; i++`, from `i` for `n` rounds, until a round finds the best plan.
unfoldable pub try_from : ℕ → ℕ → (ℕ → Plan → Bool × Plan) → Plan → Bool × Plan
try_from i zero attempt plan = (false, plan)
try_from i (suc n) attempt plan =
    let (is_best, plan') = attempt i plan in
    let rest = try_from (suc i) n attempt plan' in if is_best then (true, plan') else rest

-- The rows of the chunks from `chunk_index` on are given. The source marks a cell and appends to
-- `currentResult` before it calls itself, and takes both back after, so they are arguments here.
-- No row is shorter than `data_node_num`.
unfoldable pub dfs : ℕ → ℕ → ℕ → List Row → ℕ → ℕ → List (List ℕ) → Plan → Bool × Plan
unfolding complete try_from
dfs avg best_variance data_node_num [] chunk_index dn_index current plan =
    complete avg best_variance current plan
dfs avg best_variance data_node_num (row ∷ rows) chunk_index dn_index current plan =
    let chunks = elim (get_elem? current dn_index) as (λ _. List ℕ) [ none ↦ [] | some ks ↦ ks ] in
    let current' = set current dn_index (chunks ++ chunk_index ∷ []) in
    let rest =
      try_from 0 data_node_num
        (λ i p. dfs avg best_variance data_node_num rows (suc chunk_index) i current' p) plan in
    elim (get_elem? row dn_index) as (λ _. Bool × Plan) [
      | none ↦ (false, plan)
      | some stored ↦ if stored then (false, plan) else rest
    ]

-- `chunkNum - (avg-1)*dataNodeNum`, without a negative number on the way.
unfoldable pub cal_best_variance : ℕ → ℕ → ℕ → ℕ
cal_best_variance chunk_num data_node_num avg =
    if avg * data_node_num == chunk_num then 0 else chunk_num + data_node_num - avg * data_node_num

-- The division by the number of DataNodes panics if there is none.
unfoldable pub allocate_chunks_dfs : ℕ → List Row → Result (List ℕ)
unfolding dfs try_from cal_best_variance
allocate_chunks_dfs zero is_store = panic
allocate_chunks_dfs (suc n) is_store =
    let data_node_num = suc n in
    let avg = length is_store / data_node_num in
    let best_variance = cal_best_variance (length is_store) data_node_num avg in
    let start : Plan = record { result = replicate (length is_store) 0; min_value = 2 ^ 63 - 1 } in
    ok
      (try_from 0 data_node_num
        (λ i p. dfs avg best_variance data_node_num is_store 0 i (replicate data_node_num []) p)
        start).1.result
