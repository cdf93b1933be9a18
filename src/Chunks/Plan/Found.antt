-- ===== src/Chunks/Plan/Found.antt =====
-- dfs of internal/chunk.go finds a complete plan when every chunk may go somewhere.
use tinydfs_master.Base.{
  ℕ, zero, suc, ◌+◌, ◌≡◌, ◌<◌, refl, ap, subst, ◌∙◌, Bool, false, some, List, [], ◌∷◌, ◌++◌, nat_eq,
  length, length-set, get_elem?, get_elem?-some, set, arith, Bool-cases, Option-cases, inl, inr,
}
use tinydfs_master.Chunks.Plan.{Row, Plan, try_from, dfs}
use tinydfs_master.Chunks.Plan.Placing.{
  OpenAt, Placed, AllOpenFrom, total, set-AllOpenFrom, held-set, total-set,
}
use tinydfs_master.Chunks.Plan.Best.{
  Scope, Partial, Okay, Better, same-Better, complete-low, complete-Better, try_from-Better,
  try_from-low,
}

-- A DataNode among the first `n` that does not store the chunk.
abbrev pub HasRoom : ℕ → Row → Type 0
HasRoom n row = (j : ℕ) × (j < n) × (get_elem? row j ≡ some false)

abbrev pub AllHaveRoom : ℕ → List Row → Type 0
AllHaveRoom n [] = Unit {0}
AllHaveRoom n (row ∷ rows) = HasRoom n row × AllHaveRoom n rows

module _ (sc : Scope) where
  extend :
      (index j : ℕ) (current : List (List ℕ)) (ks : List ℕ)
      → get_elem? current j ≡ some ks
      → OpenAt sc.rows index j
      → Partial sc index current
      → Partial sc (suc index) (set current j (ks ++ index ∷ []))
  extend index j current ks there room partial = record {
    wide = length-set current j (ks ++ index ∷ []) ∙ partial.wide;
    free =
        set-AllOpenFrom sc.rows 0 current j index ks there
          (subst (OpenAt sc.rows index) (omega arith) room) partial.free;
    covers = λ k lt. ground (arith, held-set current j index k ks there, partial.covers k);
    count = total-set current j index ks there ∙ ap suc partial.count;
  }

  -- The rows from chunk `index` on.
  record RowsFrom (index : ℕ) (rows : List Row) : Type 0 where
    rest_of :
        (i : ℕ) (row : Row) → get_elem? rows i ≡ some row → get_elem? sc.rows (index + i) ≡ some row
    reaches : index + length rows ≡ length sc.rows

  first_row :
      (index : ℕ) (row : Row) (rows : List Row)
      → RowsFrom index (row ∷ rows)
      → get_elem? sc.rows index ≡ some row
  first_row index row rows from =
      subst (λ k. get_elem? sc.rows k ≡ some row) (omega arith) (from.rest_of 0 row refl)

  later_rows :
      (index : ℕ) (row : Row) (rows : List Row)
      → RowsFrom index (row ∷ rows)
      → RowsFrom (suc index) rows
  later_rows index row rows from = record {
    rest_of = λ i other there.
        subst (λ k. get_elem? sc.rows k ≡ some other) (omega arith)
          (from.rest_of (suc i) other there);
    reaches = omega (arith, from.reaches);
  }

  abbrev given : ℕ → ℕ → List (List ℕ) → List ℕ → List (List ℕ)
  given index dn current ks = set current dn (ks ++ index ∷ [])

  dfs-free :
      (row : Row) (rows : List Row) (index dn : ℕ) (current : List (List ℕ)) (plan : Plan)
      (ks : List ℕ)
      → get_elem? current dn ≡ some ks
      → get_elem? row dn ≡ some false
      → dfs sc.avg sc.best sc.node_num (row ∷ rows) index dn current plan
        ≡ try_from 0 sc.node_num
            (λ i p. dfs sc.avg sc.best sc.node_num rows (suc index) i (given index dn current ks) p)
            plan
  unfolding dfs
  dfs-free row rows index dn current plan ks there room = rw (room, dfs) (rw (there, dfs) refl)

  dfs-Better :
      (rows : List Row) (index dn : ℕ) (current : List (List ℕ)) (plan : Plan)
      → RowsFrom index rows
      → dn < sc.node_num
      → Partial sc index current
      → Okay sc plan
      → Better sc plan (dfs sc.avg sc.best sc.node_num rows index dn current plan)
  unfolding dfs
  dfs-Better [] index dn current plan from lt partial okay =
      complete-Better sc current plan
        (subst (λ k. Partial sc k current) (omega (arith, from.reaches)) partial) okay
  dfs-Better (row ∷ rows) index dn current plan from lt partial okay =
      let (ks, there) = get_elem?-some current dn (ground (arith, lt, partial.wide)) in
      elim (Option-cases (get_elem? row dn)) [
        | inl outside ↦ rw (outside, dfs) (same-Better sc plan okay)
        | inr (stored, inside) ↦ elim (Bool-cases stored) [
          | inl taken ↦ rw (inside, dfs, taken) (same-Better sc plan okay)
          | inr room ↦
              rw (dfs-free row rows index dn current plan ks there (inside ∙ ap some room)) (
                try_from-Better sc 0 sc.node_num
                  (λ i p.
                    dfs sc.avg sc.best sc.node_num rows (suc index) i (given index dn current ks) p)
                  plan (omega arith)
                  (λ j p below okay'.
                    dfs-Better rows (suc index) j (given index dn current ks) p
                      (later_rows index row rows from) below
                      (extend index dn current ks there
                        (row, first_row index row rows from, inside ∙ ap some room) partial)
                      okay')
                  okay)
        ]
      ]

  -- The DataNode at the position does not store the first chunk of the rows.
  abbrev IsOpenFirst : List Row → ℕ → Type 0
  IsOpenFirst [] j = Unit {0}
  IsOpenFirst (row ∷ rows) j = get_elem? row j ≡ some false

  open_first :
      (rows : List Row) (dn : ℕ)
      → dn < sc.node_num
      → AllHaveRoom sc.node_num rows
      → (j : ℕ) × (j < sc.node_num) × IsOpenFirst rows j
  open_first [] dn lt room = (dn, lt, tt)
  open_first (row ∷ rows) dn lt (room, later) = room

  dfs-low :
      (rows : List Row) (index dn : ℕ) (current : List (List ℕ)) (plan : Plan)
      → RowsFrom index rows
      → dn < sc.node_num
      → IsOpenFirst rows dn
      → AllHaveRoom sc.node_num rows
      → Partial sc index current
      → Okay sc plan
      → (dfs sc.avg sc.best sc.node_num rows index dn current plan).1.min_value < sc.limit
  unfolding dfs
  dfs-low [] index dn current plan from lt here room partial okay =
      complete-low sc current plan
        (subst (λ k. Partial sc k current) (omega (arith, from.reaches)) partial)
  dfs-low (row ∷ rows) index dn current plan from lt here (_, room) partial okay =
      let (ks, there) = get_elem?-some current dn (ground (arith, lt, partial.wide)) in
      let (j, below, next) = open_first rows dn lt room in
      let more = later_rows index row rows from in
      let longer =
        extend index dn current ks there (row, first_row index row rows from, here) partial in
      rw (dfs-free row rows index dn current plan ks there here) (
        try_from-low sc 0 sc.node_num j
          (λ i p. dfs sc.avg sc.best sc.node_num rows (suc index) i (given index dn current ks) p)
          plan (omega arith) (omega arith) (omega (arith, below))
          (λ i p lt' okay'.
            dfs-Better rows (suc index) i (given index dn current ks) p more lt' longer okay')
          (λ p okay'.
            dfs-low rows (suc index) j (given index dn current ks) p more below next room longer
              okay')
          okay)

  -- The search from the first chunk on, with nothing given yet, places every chunk.
  pub search-Placed :
      (current : List (List ℕ)) (plan : Plan)
      → zero < sc.node_num
      → length current ≡ sc.node_num
      → AllOpenFrom sc.rows 0 current
      → total current ≡ 0
      → length plan.result ≡ length sc.rows
      → plan.min_value ≡ sc.limit
      → AllHaveRoom sc.node_num sc.rows
      → (k : ℕ) → k < length sc.rows
      → Placed sc.rows
          (try_from 0 sc.node_num
            (λ i p. dfs sc.avg sc.best sc.node_num sc.rows 0 i current p)
            plan).1.result
          k
  search-Placed current plan some_node wide free empty long first room k lt =
      (try_from-Better sc 0 sc.node_num attempt plan (omega arith) better okay).okay.placed
        (let (j, below, next) = open_first sc.rows 0 some_node room in
          try_from-low sc 0 sc.node_num j attempt plan (omega arith) (omega arith)
            (omega (arith, below)) better
            (λ p okay'. dfs-low sc.rows 0 j current p from below next room partial okay') okay)
        k lt
    where
      attempt : ℕ → Plan → Bool × Plan
      attempt i p = dfs sc.avg sc.best sc.node_num sc.rows 0 i current p

      from : RowsFrom 0 sc.rows
      from = record {
        rest_of = λ i row there. subst (λ j. get_elem? sc.rows j ≡ some row) (omega arith) there;
        reaches = omega arith;
      }

      partial : Partial sc 0 current
      partial = record {
        wide = wide;
        free = free;
        covers = λ k lt. absurd (omega arith);
        count = empty;
      }

      okay : Okay sc plan
      okay = record { long = long; placed = λ low. absurd (omega arith) }

      better : (j : ℕ) (p : Plan) → j < sc.node_num → Okay sc p → Better sc p (attempt j p)
      better j p below okay' = dfs-Better sc.rows 0 j current p from below partial okay'
