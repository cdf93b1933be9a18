-- ===== src/Namespace/Agree.antt =====
-- When two heaps lead a path to the same node, and that no two paths lead to one node.
use tinydfs_master.Base.{
  ℕ, zero, suc, ◌≡◌, ◌≢◌, ◌≤◌, ◌<◌, refl, sym, ap, subst, ◌∙◌, false, some, some-injective, List,
  [], ◌∷◌, ◌++◌, nat_eq, nat_list_eq, length, length-append, GoString, arith, Bool-cases,
  Option-cases, inl, inr,
}
use tinydfs_master.Namespace.{DirTree, Heap, child, walk}
use tinydfs_master.Namespace.WellFormed.{IsWellFormed}
use tinydfs_master.Namespace.Walk.{
  walk-nil, walk-cons, walk-step, walk-miss, walk-deleted, walk-allocated,
}
use tinydfs_master.Namespace.Prefix.{last-cases}

-- A walk along a path agrees in two heaps, if they agree on the entries that it uses.
pub walk-agrees :
    (h h' : Heap) (q : ℕ) (names : List GoString)
    → ((before : List GoString) (r : ℕ) (name : GoString) (after : List GoString)
        → names ≡ before ++ name ∷ after
        → walk h q before ≡ some r
        → (child h' r name ≡ child h r name)
          × ((k : ℕ) → child h r name ≡ some k → (h' k).is_del ≡ (h k).is_del))
    → walk h' q names ≡ walk h q names
walk-agrees h h' q [] same = walk-nil h' q ∙ sym (walk-nil h q)
walk-agrees h h' q (name ∷ names) same =
    let (kids, dels) = same [] q name names refl (walk-nil h q) in
    elim (Option-cases (child h q name)) [
      | inl miss ↦ walk-miss h' q name names (kids ∙ miss) ∙ sym (walk-miss h q name names miss)
      | inr (k, hit) ↦ elim (Bool-cases (h k).is_del) [
        | inl gone ↦
            walk-deleted h' q k name names (kids ∙ hit) (dels k hit ∙ gone)
            ∙ sym (walk-deleted h q k name names hit gone)
        | inr live ↦
            walk-step h' q k name names (kids ∙ hit) (dels k hit ∙ live)
            ∙ walk-agrees h h' k names (λ before r next after e walked.
              same (name ∷ before) r next after (ap (◌∷◌ name) e)
                (walk-step h q k name before hit live ∙ walked))
            ∙ sym (walk-step h q k name names hit live)
      ]
    ]

-- The first part of a successful walk along two paths in a row.
pub walk-before :
    (h : Heap) (p q : ℕ) (names more : List GoString)
    → walk h p (names ++ more) ≡ some q
    → (r : ℕ) × (walk h p names ≡ some r) × (walk h r more ≡ some q)
walk-before h p q [] more e = (p, walk-nil h p, e)
walk-before h p q (name ∷ names) more e =
    let (k, hit, live, rest) = walk-cons h p name (names ++ more) e in
    let (r, first, second) = walk-before h k q names more rest in
    (r, walk-step h p k name names hit live ∙ first, second)

-- The last step of a walk, with its entry.
pub walk-snoc :
    (h : Heap) (p q : ℕ) (names : List GoString) (name : GoString)
    → walk h p (names ++ name ∷ []) ≡ some q
    → (r : ℕ) × (walk h p names ≡ some r) × (child h r name ≡ some q) × ((h q).is_del ≡ false)
walk-snoc h p q names name e =
    let (r, first, second) = walk-before h p q names (name ∷ []) e in
    let (k, hit, live, rest) = walk-cons h r name [] second in
    let k≡q = some-injective _ _ (sym (walk-nil h k) ∙ rest) in
    (
      r,
      first,
      subst (λ x. child h r name ≡ some x) k≡q hit,
      subst (λ x. (h x).is_del ≡ false) k≡q live,
    )

module _ {S : Type 0} {t : DirTree S} (w : IsWellFormed t) where
  -- The root is at the end of the empty path only.
  root_only :
      (a : List GoString) (q r : ℕ) (name : GoString)
      → walk t.heap t.root a ≡ some r
      → child t.heap r name ≡ some q
      → t.root ≢ q
  root_only a q r name to_r hit same =
      let below = w.child_below r name q (walk-allocated t.root a w w.root_allocated to_r) hit in
      absurd (ground (arith, w.root_on_top, below, same))

  root_at : (a : List GoString) (q : ℕ) → walk t.heap t.root a ≡ some q → a ≡ [] → t.root ≡ q
  root_at a q to_a nil = some-injective _ _ (sym (walk-nil t.heap t.root) ∙ (rw (nil) at to_a))

  -- Two paths to one node are equal, if shorter ones are.
  unique_step :
      (a b : List GoString) (q : ℕ)
      → ((c d : List GoString) (r : ℕ)
          → length c < length a
          → walk t.heap t.root c ≡ some r
          → walk t.heap t.root d ≡ some r
          → c ≡ d)
      → walk t.heap t.root a ≡ some q
      → walk t.heap t.root b ≡ some q
      → a ≡ b
  unique_step a b q shorter to_a to_b = elim (last-cases a) [
    | inl a_nil ↦ elim (last-cases b) [
      | inl b_nil ↦ a_nil ∙ sym b_nil
      | inr (d, y, b_snoc) ↦
          let (r, to_r, hit, live) = walk-snoc t.heap t.root q d y (rw (b_snoc) at to_b) in
          absurd (root_only d q r y to_r hit (root_at a q to_a a_nil))
    ]
    | inr (c, x, a_snoc) ↦
        let (r, to_r, hit, live) = walk-snoc t.heap t.root q c x (rw (a_snoc) at to_a) in
        elim (last-cases b) [
          | inl b_nil ↦ absurd (root_only c q r x to_r hit (root_at b q to_b b_nil))
          | inr (d, y, b_snoc) ↦
              let (r', to_r', hit', live') = walk-snoc t.heap t.root q d y (rw (b_snoc) at to_b) in
              let lt = walk-allocated t.root c w w.root_allocated to_r in
              let lt' = walk-allocated t.root d w w.root_allocated to_r' in
              let same =
                some-injective _ _
                  (sym (w.child_below r x q lt hit) ∙ w.child_below r' y q lt' hit') in
              let x≡y = sym (w.child_named r x q lt hit) ∙ w.child_named r' y q lt' hit' in
              let c≡d =
                shorter c d r (ground (arith, a_snoc, length-append c (x ∷ []))) to_r
                  (to_r' ∙ ap some (sym same)) in
              a_snoc ∙ ap (λ v. v ++ x ∷ []) c≡d ∙ ap (λ v. d ++ v ∷ []) x≡y ∙ sym b_snoc
        ]
  ]

  unique_from :
      (n : ℕ) (a b : List GoString) (q : ℕ)
      → length a ≤ n
      → walk t.heap t.root a ≡ some q
      → walk t.heap t.root b ≡ some q
      → a ≡ b
  unique_from zero a b q le = unique_step a b q (λ c d r lt. absurd (omega arith))
  unique_from (suc n) a b q le = unique_step a b q (λ c d r lt. unique_from n c d r (omega arith))

  -- No two paths lead to one node.
  pub walk_unique :
      (a b : List GoString) (q : ℕ)
      → walk t.heap t.root a ≡ some q
      → walk t.heap t.root b ≡ some q
      → a ≡ b
  walk_unique a b q to_a to_b = unique_from (length a) a b q (omega arith) to_a to_b
