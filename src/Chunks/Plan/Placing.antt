-- ===== src/Chunks/Plan/Placing.antt =====
-- A complete plan of allocateChunksDFS of internal/chunk.go puts each chunk where it may go.
use tinydfs_master.Base.{
  ℕ, zero, suc, ◌+◌, ◌≡◌, ◌≢◌, ◌<◌, refl, subst, ap, ◌∙◌, Bool, true, false, some, List, [], ◌∷◌,
  ◌++◌, nat_eq, ◌==◌, if◌then◌else◌, contains, length, length-set, length-append, get_elem?,
  get_elem?-some, set, arith, ℕ_discrete, some-injective, Bool-cases, inl, inr,
}
use tinydfs_master.Chunks.Plan.{Row, assign, assign_all}

-- The DataNode at position `j` does not store chunk `k`.
abbrev pub OpenAt : List Row → ℕ → ℕ → Type 0
OpenAt rows k j = (row : Row) × (get_elem? rows k ≡ some row) × (get_elem? row j ≡ some false)

-- The plan has a DataNode for chunk `k` that does not store it.
abbrev pub Placed : List Row → List ℕ → ℕ → Type 0
Placed rows result k = (j : ℕ) × (get_elem? result k ≡ some j) × OpenAt rows k j

abbrev pub AllOpen : List Row → ℕ → List ℕ → Type 0
AllOpen rows j [] = Unit {0}
AllOpen rows j (k ∷ ks) = OpenAt rows k j × AllOpen rows j ks

-- From position `j` on, no DataNode is given a chunk that it stores.
abbrev pub AllOpenFrom : List Row → ℕ → List (List ℕ) → Type 0
AllOpenFrom rows j [] = Unit {0}
AllOpenFrom rows j (ks ∷ current) = AllOpen rows j ks × AllOpenFrom rows (suc j) current

-- Some DataNode is given the chunk.
abbrev pub held : List (List ℕ) → ℕ → Bool
held [] k = false
held (ks ∷ current) k = if contains ks k then true else held current k

abbrev pub total : List (List ℕ) → ℕ
total [] = 0
total (ks ∷ current) = length ks + total current

get_elem?-set :
    {A : Type 0} (xs : List A) (i : ℕ) (v x : A)
    → get_elem? xs i ≡ some x
    → get_elem? (set xs i v) i ≡ some v
get_elem?-set [] i v x e = absurd (cc)
get_elem?-set (y ∷ xs) zero v x e = refl
get_elem?-set (y ∷ xs) (suc i) v x e = get_elem?-set xs i v x e

get_elem?-set_other :
    {A : Type 0} (xs : List A) (i k : ℕ) (v : A) → i ≢ k → get_elem? (set xs i v) k ≡ get_elem? xs k
get_elem?-set_other [] i k v ne = refl
get_elem?-set_other (y ∷ xs) zero zero v ne = absurd (ne refl)
get_elem?-set_other (y ∷ xs) zero (suc k) v ne = refl
get_elem?-set_other (y ∷ xs) (suc i) zero v ne = refl
get_elem?-set_other (y ∷ xs) (suc i) (suc k) v ne =
    get_elem?-set_other xs i k v (λ same. ne (ap suc same))

module _ (rows : List Row) where
  set-Placed :
      (result : List ℕ) (i j k : ℕ)
      → OpenAt rows i j
      → Placed rows result k
      → Placed rows (set result i j) k
  set-Placed result i j k free (j', there, free') = elim (ℕ_discrete i k) [
    | yes same ↦ rw (same) (j, get_elem?-set result k j j' there, rw (same) at free)
    | no differ ↦ (j', get_elem?-set_other result i k j differ ∙ there, free')
  ]

  assign-Placed :
      (j : ℕ) (ks result : List ℕ) (k : ℕ)
      → AllOpen rows j ks
      → Placed rows result k
      → Placed rows (assign j ks result) k
  unfolding assign
  assign-Placed j [] result k free placed = placed
  assign-Placed j (i ∷ ks) result k (free, frees) placed =
      assign-Placed j ks (set result i j) k frees (set-Placed result i j k free placed)

  assign-Placed_new :
      (j : ℕ) (ks result : List ℕ) (k : ℕ)
      → AllOpen rows j ks
      → contains ks k ≡ true
      → k < length result
      → Placed rows (assign j ks result) k
  unfolding assign
  assign-Placed_new j [] result k free has lt = absurd (cc)
  assign-Placed_new j (i ∷ ks) result k (free, frees) has lt = elim (ℕ_discrete i k) [
    | yes same ↦
        let (x, there) = get_elem?-some result k lt in
        assign-Placed j ks (set result i j) k frees
          (rw (same) (j, get_elem?-set result k j x there, rw (same) at free))
    | no differ ↦
        assign-Placed_new j ks (set result i j) k frees (ground (arith, has, differ))
          (ground (arith, lt, length-set result i j))
  ]

  length-assign : (j : ℕ) (ks result : List ℕ) → length (assign j ks result) ≡ length result
  unfolding assign
  length-assign j [] result = refl
  length-assign j (k ∷ ks) result = length-assign j ks (set result k j) ∙ length-set result k j

  pub length-assign_all :
      (j : ℕ) (current : List (List ℕ)) (result : List ℕ)
      → length (assign_all j current result) ≡ length result
  unfolding assign_all
  length-assign_all j [] result = refl
  length-assign_all j (ks ∷ current) result =
      length-assign_all (suc j) current (assign j ks result) ∙ length-assign j ks result

  assign_all-Placed :
      (j : ℕ) (current : List (List ℕ)) (result : List ℕ) (k : ℕ)
      → AllOpenFrom rows j current
      → Placed rows result k
      → Placed rows (assign_all j current result) k
  unfolding assign_all
  assign_all-Placed j [] result k free placed = placed
  assign_all-Placed j (ks ∷ current) result k (free, frees) placed =
      assign_all-Placed (suc j) current (assign j ks result) k frees
        (assign-Placed j ks result k free placed)

  -- Every chunk that a DataNode is given is placed.
  pub assign_all-Placed_new :
      (j : ℕ) (current : List (List ℕ)) (result : List ℕ) (k : ℕ)
      → AllOpenFrom rows j current
      → held current k ≡ true
      → k < length result
      → Placed rows (assign_all j current result) k
  unfolding assign_all
  assign_all-Placed_new j [] result k free has lt = absurd (cc)
  assign_all-Placed_new j (ks ∷ current) result k (free, frees) has lt =
      elim (Bool-cases (contains ks k)) [
        | inl now ↦
            assign_all-Placed (suc j) current (assign j ks result) k frees
              (assign-Placed_new j ks result k free now lt)
        | inr later ↦
            assign_all-Placed_new (suc j) current (assign j ks result) k frees
              (ground (arith, has, later)) (ground (arith, lt, length-assign j ks result))
      ]

  snoc-AllOpen :
      (j : ℕ) (ks : List ℕ) (k : ℕ)
      → AllOpen rows j ks
      → OpenAt rows k j
      → AllOpen rows j (ks ++ k ∷ [])
  snoc-AllOpen j [] k frees free = (free, tt)
  snoc-AllOpen j (i ∷ ks) k (first, frees) free = (first, snoc-AllOpen j ks k frees free)

  -- One more chunk for a DataNode that does not store it.
  pub set-AllOpenFrom :
      (j : ℕ) (current : List (List ℕ)) (i k : ℕ) (ks : List ℕ)
      → get_elem? current i ≡ some ks
      → OpenAt rows k (j + i)
      → AllOpenFrom rows j current
      → AllOpenFrom rows j (set current i (ks ++ k ∷ []))
  set-AllOpenFrom j [] i k ks there free frees = tt
  set-AllOpenFrom j (first ∷ current) zero k ks there free (now, frees) = (
    snoc-AllOpen j ks k (rw (some-injective _ _ there) at now)
        (subst (OpenAt rows k) (omega arith) free),
    frees,
  )
  set-AllOpenFrom j (first ∷ current) (suc i) k ks there free (now, frees) = (
    now,
    set-AllOpenFrom (suc j) current i k ks there (subst (OpenAt rows k) (omega arith) free) frees,
  )

contains-snoc :
    (ks : List ℕ) (k i : ℕ) → contains (ks ++ k ∷ []) i ≡ (if k == i then true else contains ks i)
contains-snoc [] k i = ground arith
contains-snoc (x ∷ ks) k i = ground (arith, contains-snoc ks k i)

pub held-set :
    (current : List (List ℕ)) (i k m : ℕ) (ks : List ℕ)
    → get_elem? current i ≡ some ks
    → held (set current i (ks ++ k ∷ [])) m ≡ (if k == m then true else held current m)
held-set [] i k m ks there = absurd (cc)
held-set (first ∷ current) zero k m ks there = ground (arith, there, contains-snoc ks k m)
held-set (first ∷ current) (suc i) k m ks there = ground (arith, held-set current i k m ks there)

pub total-set :
    (current : List (List ℕ)) (i k : ℕ) (ks : List ℕ)
    → get_elem? current i ≡ some ks
    → total (set current i (ks ++ k ∷ [])) ≡ suc (total current)
total-set [] i k ks there = absurd (cc)
total-set (first ∷ current) zero k ks there = ground (arith, there, length-append ks (k ∷ []))
total-set (first ∷ current) (suc i) k ks there = ground (arith, total-set current i k ks there)
