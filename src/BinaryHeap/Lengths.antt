-- ===== src/BinaryHeap/Lengths.antt =====
-- Package container/heap: how many elements a push and a pop leave.
use tinydfs_master.Base.{
  ℕ, zero, suc, ◌+◌, ◌-◌, ◌/◌, ◌≡◌, ◌<◌, refl, ◌∙◌, Bool, some, List, [], ◌∷◌, ◌++◌, nat_eq, length,
  length-append, length-set, length-take, get_elem?-some, get_elem?, set, take, arith, Option-cases,
  inl, inr,
}
use tinydfs_master.BinaryHeap

module _ {A : Type 0} (less : A → A → Bool) where
  length-swap : (h : List A) (i j : ℕ) → length (BinaryHeap.swap less h i j) ≡ length h
  unfolding BinaryHeap.swap
  length-swap h i j = elim (Option-cases (get_elem? h i)) [
    | inl outside ↦ rw (outside, BinaryHeap.swap) refl
    | inr (a, inside) ↦ elim (Option-cases (get_elem? h j)) [
      | inl outside ↦ rw (inside, outside, BinaryHeap.swap) refl
      | inr (b, inside') ↦
          rw (inside, inside', BinaryHeap.swap) (length-set (set h i b) j a ∙ length-set h i b)
    ]
  ]

  length-up : (fuel : ℕ) (h : List A) (j : ℕ) → length (BinaryHeap.up less fuel h j) ≡ length h
  unfolding BinaryHeap.up
  length-up zero h j = refl
  length-up (suc fuel) h j =
      let i = (j - 1) / 2 in
      ground (arith, length-up fuel (BinaryHeap.swap less h i j) i, length-swap h i j)

  length-down :
      (fuel : ℕ) (h : List A) (i n : ℕ) → length (BinaryHeap.down less fuel h i n) ≡ length h
  unfolding BinaryHeap.down
  length-down zero h i n = refl
  length-down (suc fuel) h i n =
      let j = BinaryHeap.first_child less h i n in
      ground (arith, length-down fuel (BinaryHeap.swap less h i j) j n, length-swap h i j)

  pub length-push : (a : A) (h : List A) → length (BinaryHeap.push less a h) ≡ suc (length h)
  unfolding BinaryHeap.push
  length-push a h =
      ground (arith, length-up (length h + 1) (h ++ a ∷ []) (length h), length-append h (a ∷ []))

  pub pop-some :
      (h : List A)
      → 0 < length h
      → (a : A) × (rest : List A) × (BinaryHeap.pop less h ≡ some (a, rest))
        × (length rest ≡ length h - 1)
  unfolding BinaryHeap.pop
  pop-some h lt =
      let n = length h - 1 in
      let h' = BinaryHeap.down less (length h) (BinaryHeap.swap less h 0 n) 0 n in
      let same : length h' ≡ length h =
        length-down (length h) (BinaryHeap.swap less h 0 n) 0 n ∙ length-swap h 0 n in
      let (a, at) = get_elem?-some h' n (omega arith) in
      (a, take n h', rw (at, BinaryHeap.pop) refl, length-take n h' (omega arith))
