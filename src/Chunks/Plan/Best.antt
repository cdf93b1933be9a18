-- ===== src/Chunks/Plan/Best.antt =====
-- What the rounds of dfs of internal/chunk.go do to the best plan so far.
use tinydfs_master.Base.{
  ℕ, zero, suc, ◌+◌, ◌≡◌, ◌<◌, ◌≤◌, sym, subst, ℕ_discrete, ◌∙◌, Bool, true, false, List, nat_eq,
  ltb, length, arith, Bool-cases, inl, inr,
}
use tinydfs_master.Chunks.Plan.{Row, Plan, variance, complete, try_from}
use tinydfs_master.Chunks.Plan.Placing.{
  Placed, AllOpenFrom, held, total, length-assign_all, assign_all-Placed_new,
}

-- A search for a plan: a row for each chunk, the number of DataNodes, and what dfs gets. `limit` is
-- the first value of minValue, which every complete plan is below.
pub record Scope : Type 0 where
  pub rows : List Row
  pub node_num : ℕ
  pub limit : ℕ
  pub avg : ℕ
  pub best : ℕ
  pub bounded :
      (current : List (List ℕ))
      → length current ≡ node_num
      → total current ≡ length rows
      → variance avg current < limit

module _ (sc : Scope) where
  -- The chunks before `index` are given to DataNodes that do not store them.
  pub record Partial (index : ℕ) (current : List (List ℕ)) : Type 0 where
    pub wide : length current ≡ sc.node_num
    pub free : AllOpenFrom sc.rows 0 current
    pub covers : (k : ℕ) → k < index → held current k ≡ true
    pub count : total current ≡ index

  -- The best plan so far, if there is one.
  pub record Okay (plan : Plan) : Type 0 where
    pub long : length plan.result ≡ length sc.rows
    pub placed :
        plan.min_value < sc.limit → (k : ℕ) → k < length sc.rows → Placed sc.rows plan.result k

  -- What becomes of the best plan in a branch.
  pub record Better (plan : Plan) (r : Bool × Plan) : Type 0 where
    pub okay : Okay r.1
    pub lower : plan.min_value < sc.limit → r.1.min_value < sc.limit
    pub best_found : r.0 ≡ true → r.1.min_value < sc.limit

  pub same-Better : (plan : Plan) → Okay plan → Better plan (false, plan)
  same-Better plan okay = record {
    okay = okay;
    lower = λ low. low;
    best_found = λ e. absurd (ground (arith, e));
  }

  pub complete-low :
      (current : List (List ℕ)) (plan : Plan)
      → Partial (length sc.rows) current
      → (complete sc.avg sc.best current plan).1.min_value < sc.limit
  unfolding complete
  complete-low current plan whole =
      elim (Bool-cases (ltb (variance sc.avg current) plan.min_value)) [
        | inl lower ↦ rw (lower, complete) (sc.bounded current whole.wide whole.count)
        | inr higher ↦
            rw (higher, complete)
              (ground (arith, higher, sc.bounded current whole.wide whole.count))
      ]

  complete-Okay :
      (current : List (List ℕ)) (plan : Plan)
      → Partial (length sc.rows) current
      → Okay plan
      → Okay (complete sc.avg sc.best current plan).1
  unfolding complete
  complete-Okay current plan whole okay =
      elim (Bool-cases (ltb (variance sc.avg current) plan.min_value)) [
        | inl lower ↦
            rw (lower, complete)
              (record {
                long = length-assign_all sc.rows 0 current plan.result ∙ okay.long;
                placed = λ low k lt.
                    assign_all-Placed_new sc.rows 0 current plan.result k whole.free
                      (whole.covers k lt) (ground (arith, lt, okay.long));
              })
        | inr higher ↦ rw (higher, complete) okay
      ]

  pub complete-Better :
      (current : List (List ℕ)) (plan : Plan)
      → Partial (length sc.rows) current
      → Okay plan
      → Better plan (complete sc.avg sc.best current plan)
  complete-Better current plan whole okay = record {
    okay = complete-Okay current plan whole okay;
    lower = λ _. complete-low current plan whole;
    best_found = λ _. complete-low current plan whole;
  }

  pub try_from-Better :
      (i m : ℕ) (attempt : ℕ → Plan → Bool × Plan) (plan : Plan)
      → i + m ≤ sc.node_num
      → ((j : ℕ) (p : Plan) → j < sc.node_num → Okay p → Better p (attempt j p))
      → Okay plan
      → Better plan (try_from i m attempt plan)
  unfolding try_from
  try_from-Better i zero attempt plan le each okay = same-Better plan okay
  try_from-Better i (suc m) attempt plan le each okay =
      let first = each i plan (omega arith) okay in
      let rest =
        try_from-Better (suc i) m attempt (attempt i plan).1 (omega arith) each first.okay in
      elim (Bool-cases (attempt i plan).0) [
        | inl found ↦
            rw (found, try_from)
              (record {
                okay = first.okay;
                lower = first.lower;
                best_found = λ _. first.best_found found;
              })
        | inr not_yet ↦
            rw (not_yet, try_from)
              (record {
                okay = rest.okay;
                lower = λ low. rest.lower (first.lower low);
                best_found = rest.best_found;
              })
      ]

  -- One round that finds a plan is enough.
  pub try_from-low :
      (i m j : ℕ) (attempt : ℕ → Plan → Bool × Plan) (plan : Plan)
      → i + m ≤ sc.node_num
      → i ≤ j
      → j < i + m
      → ((j : ℕ) (p : Plan) → j < sc.node_num → Okay p → Better p (attempt j p))
      → ((p : Plan) → Okay p → (attempt j p).1.min_value < sc.limit)
      → Okay plan
      → (try_from i m attempt plan).1.min_value < sc.limit
  unfolding try_from
  try_from-low i zero j attempt plan le from to each good okay = absurd (omega arith)
  try_from-low i (suc m) j attempt plan le from to each good okay =
      let first = each i plan (omega arith) okay in
      elim (Bool-cases (attempt i plan).0) [
        | inl found ↦ rw (found, try_from) (first.best_found found)
        | inr not_yet ↦
            rw (not_yet, try_from)
              (elim (ℕ_discrete i j) [
                | yes here ↦
                    (try_from-Better (suc i) m attempt (attempt i plan).1 (omega arith) each
                        first.okay).lower
                      (subst (λ x. (attempt x plan).1.min_value < sc.limit) (sym here)
                        (good plan okay))
                | no later ↦
                    try_from-low (suc i) m j attempt (attempt i plan).1 (omega arith) (omega arith)
                      (omega arith) each good first.okay
              ])
      ]
