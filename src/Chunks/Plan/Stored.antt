-- ===== src/Chunks/Plan/Stored.antt =====
-- The plan of allocateChunksDFS of internal/chunk.go leads no chunk to a DataNode that stores it.
use native.Mathlib.Nat.{mul-le-mul, mul-le-mul_right, mul-div-le, mul-add, add-mul, mul_assoc}
use tinydfs_master.Base.{
  ℕ, zero, suc, ◌+◌, ◌*◌, ◌-◌, ◌/◌, ◌^◌, ◌≡◌, ◌<◌, ◌≤◌, refl, ap, List, [], ◌∷◌, length, replicate,
  ok, arith,
}
use tinydfs_master.Chunks.Plan.{
  Row, Plan, square_distance, variance, cal_best_variance, allocate_chunks_dfs,
}
use tinydfs_master.Chunks.Plan.Bounds.{length-replicate}
use tinydfs_master.Chunks.Plan.Placing.{Placed, AllOpenFrom, total}
use tinydfs_master.Chunks.Plan.Best.{Scope}
use tinydfs_master.Chunks.Plan.Found.{AllHaveRoom, search-Placed}

square_sum : (x t : ℕ) → x * x + t * t ≤ (x + t) * (x + t)
square_sum x t = omega (
  arith,
  mul-add (x + t) x t,
  mul-le-mul_right {m = x} {n = x + t} x (omega arith),
  mul-le-mul_right {m = t} {n = x + t} t (omega arith),
)

square_distance-le : (x a : ℕ) → square_distance x a ≤ x * x + a * a
unfolding square_distance
square_distance-le x a = omega (
  arith,
  mul-le-mul {n₁ = x - a} {m₁ = x - a} {n₂ = x} {m₂ = x} (omega arith) (omega arith),
  mul-le-mul {n₁ = a - x} {m₁ = a - x} {n₂ = a} {m₂ = a} (omega arith) (omega arith),
)

variance-le :
    (avg : ℕ) (current : List (List ℕ))
    → variance avg current ≤ total current * total current + length current * (avg * avg)
unfolding variance
variance-le avg [] = omega arith
variance-le avg (ks ∷ current) = omega (
  arith,
  variance-le avg current,
  square_distance-le (length ks) avg,
  square_sum (length ks) (total current),
  add-mul 1 (length current) (avg * avg),
)

-- No distribution of fewer than 2^31 chunks has the value that minValue starts with.
variance-bounded :
    (n len : ℕ) (current : List (List ℕ))
    → len < 2 ^ 31
    → length current ≡ suc n
    → total current ≡ len
    → variance (len / suc n) current < 2 ^ 63 - 1
variance-bounded n len current few wide count = omega (
  arith,
  variance-le avg current,
  ap (λ x. x * x) count,
  ap (λ x. x * (avg * avg)) wide,
  mul_assoc (suc n) avg avg,
  mul-div-le len (suc n),
  mul-le-mul {n₁ = suc n * avg} {m₁ = avg} {n₂ = len} {m₂ = len} (mul-div-le len (suc n))
      (omega arith),
  mul-le-mul {n₁ = len} {m₁ = len} {n₂ = 2147483647} {m₂ = 2147483647} (omega arith) (omega arith),
)
  where
    avg : ℕ
    avg = len / suc n

replicate-total : (n : ℕ) → total (replicate n []) ≡ 0
replicate-total zero = refl
replicate-total (suc n) = omega (arith, replicate-total n)

replicate-AllOpenFrom : (all : List Row) (j n : ℕ) → AllOpenFrom all j (replicate n [])
replicate-AllOpenFrom all j zero = tt
replicate-AllOpenFrom all j (suc n) = (tt, replicate-AllOpenFrom all (suc j) n)

-- If each of fewer than 2^31 chunks has a DataNode that does not store it, then the planner returns
-- a plan that gives each chunk a DataNode that does not store it.
pub allocate_chunks_dfs-Placed :
    (n : ℕ) (rows : List Row)
    → length rows < 2 ^ 31
    → AllHaveRoom (suc n) rows
    → (result : List ℕ) × (allocate_chunks_dfs (suc n) rows ≡ ok result)
      × ((k : ℕ) → k < length rows → Placed rows result k)
unfolding allocate_chunks_dfs
allocate_chunks_dfs-Placed n rows few room = (
  _,
  refl,
  λ k lt.
      search-Placed scope (replicate (suc n) []) first (omega arith) (length-replicate (suc n) [])
        (replicate-AllOpenFrom rows 0 (suc n)) (replicate-total (suc n))
        (length-replicate (length rows) 0) refl room k lt,
)
  where
    avg : ℕ
    avg = length rows / suc n

    best : ℕ
    best = cal_best_variance (length rows) (suc n) avg

    scope : Scope
    scope = record {
      rows = rows;
      node_num = suc n;
      limit = 2 ^ 63 - 1;
      avg = avg;
      best = best;
      bounded = λ current wide count. variance-bounded n (length rows) current few wide count;
    }

    first : Plan
    first = record { result = replicate (length rows) 0; min_value = 2 ^ 63 - 1 }
