-- ===== src/Chunks/Plan/Bounds.antt =====
-- The plan of allocateChunksDFS of internal/chunk.go stays within the DataNodes.
use tinydfs_master.Base.{
  ℕ, zero, suc, ◌+◌, ◌/◌, ◌-◌, ◌^◌, ◌≡◌, ◌<◌, ◌≤◌, refl, ap, ◌∙◌, Bool, List, [], ◌∷◌, nat_eq, ltb,
  length, length-set, get_elem?, set, replicate, ok, arith, Bool-cases, Option-cases, inl, inr,
}
use tinydfs_master.Chunks.Plan.{
  Row, Plan, variance, assign, assign_all, complete, try_from, dfs, cal_best_variance,
  allocate_chunks_dfs,
}

-- Every entry is the position of one of `n` DataNodes.
abbrev pub AllBelow : ℕ → List ℕ → Type 0
AllBelow n [] = Unit {0}
AllBelow n (j ∷ js) = (j < n) × AllBelow n js

-- A plan for `len` chunks on `n` DataNodes.
abbrev pub Fits : ℕ → ℕ → List ℕ → Type 0
Fits len n result = (length result ≡ len) × AllBelow n result

pub length-replicate : {A : Type 0} (n : ℕ) (x : A) → length (replicate n x) ≡ n
length-replicate zero x = refl
length-replicate (suc n) x = ap suc (length-replicate n x)

replicate-AllBelow : (n m : ℕ) → AllBelow (suc n) (replicate m 0)
replicate-AllBelow n zero = tt
replicate-AllBelow n (suc m) = (omega arith, replicate-AllBelow n m)

set-AllBelow :
    (n k j : ℕ) (result : List ℕ) → j < n → AllBelow n result → AllBelow n (set result k j)
set-AllBelow n k j [] lt below = tt
set-AllBelow n zero j (i ∷ result) lt (_, below) = (lt, below)
set-AllBelow n (suc k) j (i ∷ result) lt (here, below) = (here, set-AllBelow n k j result lt below)

assign-Fits :
    (len n j : ℕ) (ks result : List ℕ) → j < n → Fits len n result → Fits len n (assign j ks result)
unfolding assign
assign-Fits len n j [] result lt fits = fits
assign-Fits len n j (k ∷ ks) result lt (same, below) =
    assign-Fits len n j ks (set result k j) lt
      (length-set result k j ∙ same, set-AllBelow n k j result lt below)

assign_all-Fits :
    (len n j : ℕ) (current : List (List ℕ)) (result : List ℕ)
    → j + length current ≤ n
    → Fits len n result
    → Fits len n (assign_all j current result)
unfolding assign_all
assign_all-Fits len n j [] result le fits = fits
assign_all-Fits len n j (ks ∷ current) result le fits =
    assign_all-Fits len n (suc j) current (assign j ks result) (omega arith)
      (assign-Fits len n j ks result (omega arith) fits)

complete-Fits :
    (len n avg best : ℕ) (current : List (List ℕ)) (plan : Plan)
    → length current ≡ n
    → Fits len n plan.result
    → Fits len n (complete avg best current plan).1.result
unfolding complete
complete-Fits len n avg best current plan same fits =
    elim (Bool-cases (ltb (variance avg current) plan.min_value)) [
      | inl better ↦
          rw (better, complete) (assign_all-Fits len n 0 current plan.result (omega arith) fits)
      | inr worse ↦ rw (worse, complete) fits
    ]

try_from-Fits :
    (len n i rounds : ℕ) (attempt : ℕ → Plan → Bool × Plan) (plan : Plan)
    → ((j : ℕ) (p : Plan) → Fits len n p.result → Fits len n (attempt j p).1.result)
    → Fits len n plan.result
    → Fits len n (try_from i rounds attempt plan).1.result
unfolding try_from
try_from-Fits len n i zero attempt plan keeps fits = fits
try_from-Fits len n i (suc rounds) attempt plan keeps fits = elim (Bool-cases (attempt i plan).0) [
  | inl best ↦ rw (best, try_from) (keeps i plan fits)
  | inr other ↦
      rw (other, try_from)
        (try_from-Fits len n (suc i) rounds attempt (attempt i plan).1 keeps (keeps i plan fits))
]

dfs-Fits :
    (len n avg best : ℕ) (rows : List Row) (chunk dn : ℕ) (current : List (List ℕ)) (plan : Plan)
    → length current ≡ n
    → Fits len n plan.result
    → Fits len n (dfs avg best n rows chunk dn current plan).1.result
unfolding dfs
dfs-Fits len n avg best [] chunk dn current plan same fits =
    complete-Fits len n avg best current plan same fits
dfs-Fits len n avg best (row ∷ rows) chunk dn current plan same fits =
    elim (Option-cases (get_elem? row dn)) [
      | inl outside ↦ rw (outside, dfs) fits
      | inr (stored, inside) ↦ elim (Bool-cases stored) [
        | inl taken ↦ rw (inside, dfs, taken) fits
        | inr free ↦
            rw (inside, dfs, free)
              (try_from-Fits len n 0 n _ plan
                (λ i p.
                  dfs-Fits len n avg best rows (suc chunk) i _ p (length-set current dn _ ∙ same))
                fits)
      ]
    ]

-- With a DataNode that is alive the planner returns, and its plan gives every chunk the position
-- of one of the DataNodes.
pub allocate_chunks_dfs-Fits :
    (n : ℕ) (is_store : List Row)
    → (result : List ℕ) × (allocate_chunks_dfs (suc n) is_store ≡ ok result)
      × Fits (length is_store) (suc n) result
unfolding allocate_chunks_dfs
allocate_chunks_dfs-Fits n is_store =
    let len = length is_store in
    let avg = len / suc n in
    let best = cal_best_variance len (suc n) avg in
    let nothing : List (List ℕ) = replicate (suc n) [] in
    let attempt : ℕ → Plan → Bool × Plan = λ i p. dfs avg best (suc n) is_store 0 i nothing p in
    let start : Plan = record { result = replicate len 0; min_value = 2 ^ 63 - 1 } in
    (
      (try_from 0 (suc n) attempt start).1.result,
      refl,
      try_from-Fits len (suc n) 0 (suc n) attempt start
          (λ i p.
            dfs-Fits len (suc n) avg best is_store 0 i nothing p (length-replicate (suc n) []))
          (length-replicate len 0, replicate-AllBelow n len),
    )
