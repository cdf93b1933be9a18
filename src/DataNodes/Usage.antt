-- ===== src/DataNodes/Usage.antt =====
-- internal/datanode.go: how full the DataNodes are.
use tinydfs_master.Base.{
  ℕ, ◌+◌, ◌*◌, ◌/◌, Bool, [], ◌∷◌, ltb, ◌==◌, nat_eq, if◌then◌else◌, length, Result, ok, panic,
  ◌>>=◌,
}
use tinydfs_master.External.{Common, StringSet}
use tinydfs_master.DataNodes.{DataNodeMap}

module _ ⦃c : Common⦄ where
  unfoldable pub cal_usage : ℕ → ℕ → ℕ → ℕ
  cal_usage used_capacity full_capacity temp = c.ceil_percent (used_capacity + temp) full_capacity

module _ {S : Type 0} where
  unfoldable pub used_sum : DataNodeMap S → ℕ
  used_sum [] = 0
  used_sum ((_, node) ∷ m) = node.used_capacity + used_sum m

  unfoldable pub full_sum : DataNodeMap S → ℕ
  full_sum [] = 0
  full_sum ((_, node) ∷ m) = node.full_capacity + full_sum m

  -- An integer division by zero is a panic.
  unfoldable pub cal_avg_usage : DataNodeMap S → Result ℕ
  unfolding used_sum full_sum
  cal_avg_usage [] = ok 0
  cal_avg_usage (e ∷ m) =
      if full_sum (e ∷ m) == 0 then panic else ok (used_sum (e ∷ m) * 100 / full_sum (e ∷ m))

module _ {S : Type 0} ⦃c : Common⦄ where
  -- `avgUsage-currentUsage > threshold`, with the subtrahend on the other side: the difference may
  -- be negative.
  unfoldable pub is_need2_expand : ℕ → ℕ → DataNodeMap S → Result Bool
  unfolding cal_avg_usage cal_usage
  is_need2_expand used_capacity full_capacity m = do
    avg_usage ← cal_avg_usage m
    ok (ltb (c.expand_threshold + cal_usage used_capacity full_capacity 0) avg_usage)

  -- The loop of CheckDataNodesOperation.
  unfoldable pub count_storable : DataNodeMap S → ℕ
  unfolding cal_usage
  count_storable [] = 0
  count_storable ((_, node) ∷ m) =
      (if ltb (cal_usage node.used_capacity node.full_capacity 0) c.storable_threshold
        then 1
        else 0)
      + count_storable m

module _ {S : Type 0} ⦃s : StringSet S⦄ where
  unfoldable pub chunk_count : DataNodeMap S → ℕ
  chunk_count [] = 0
  chunk_count ((_, node) ∷ m) = s.cardinality node.chunks + chunk_count m

  unfoldable pub get_avg_chunk_num : DataNodeMap S → ℕ
  unfolding chunk_count
  get_avg_chunk_num [] = 0
  get_avg_chunk_num (e ∷ m) = chunk_count (e ∷ m) / length (e ∷ m)
