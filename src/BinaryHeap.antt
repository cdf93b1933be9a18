-- ===== src/BinaryHeap.antt =====
-- Package container/heap over a list, for the heap of internal/datanode.go. `less` is its Less.
-- The fuel of a loop is the length of the list: `up` halves its index, `down` doubles it.
pub mod Lengths
use tinydfs_master.Base.{
  ℕ, zero, suc, ◌+◌, ◌-◌, ◌*◌, ◌/◌, Bool, false, ◌&&◌, Option, none, some, List, [], ◌∷◌, ◌++◌,
  ◌==◌, nat_eq, ltb, if◌then◌else◌, length, get_elem?, set, take,
}

module _ {A : Type 0} (less : A → A → Bool) where
  -- `h.Less(i, j)`; no loop asks for an index out of range.
  unfoldable pub less_at : List A → ℕ → ℕ → Bool
  less_at h i j = elim (get_elem? h i) [
    | none ↦ false
    | some a ↦ elim (get_elem? h j) [ none ↦ false | some b ↦ less a b ]
  ]

  unfoldable pub swap : List A → ℕ → ℕ → List A
  swap h i j = elim (get_elem? h i) [
    | none ↦ h
    | some a ↦ elim (get_elem? h j) [ none ↦ h | some b ↦ set (set h i b) j a ]
  ]

  unfoldable pub up : ℕ → List A → ℕ → List A
  unfolding less_at swap
  up zero h j = h
  up (suc fuel) h j =
      let i = (j - 1) / 2 in
      let rest = up fuel (swap h i j) i in if i == j then h else if less_at h j i then rest else h

  -- The smaller child of `i` below `n`, the left one if they are equal.
  unfoldable pub first_child : List A → ℕ → ℕ → ℕ
  unfolding less_at
  first_child h i n =
      if ltb (2 * i + 2) n && less_at h (2 * i + 2) (2 * i + 1) then 2 * i + 2 else 2 * i + 1

  unfoldable pub down : ℕ → List A → ℕ → ℕ → List A
  unfolding less_at swap first_child
  down zero h i n = h
  down (suc fuel) h i n =
      let j = first_child h i n in
      let rest = down fuel (swap h i j) j n in
      if ltb (2 * i + 1) n then (if less_at h j i then rest else h) else h

  -- heap.Push.
  unfoldable pub push : A → List A → List A
  unfolding up
  push a h = up (length h + 1) (h ++ a ∷ []) (length h)

  -- heap.Pop; nothing comes from an empty heap.
  unfoldable pub pop : List A → Option (A × List A)
  unfolding down
  pop h =
      let n = length h - 1 in
      let h' = down (length h) (swap h 0 n) 0 n in
      elim (get_elem? h' n) [ none ↦ none | some a ↦ some (a, take n h') ]
