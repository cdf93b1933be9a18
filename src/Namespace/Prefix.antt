-- ===== src/Namespace/Prefix.antt =====
-- Paths as lists of names: prefixes and last names.
use tinydfs_master.Base.{
  ◌≡◌, refl, ap, ◌⊎◌, Option, none, some, List, [], ◌∷◌, ◌++◌, ◌==◌, ==-refl, nat_list_eq,
  if◌then◌else◌, GoString, arith, Bool-cases, inl, inr,
}

-- What is left of a path after a prefix.
unfoldable pub strip : List GoString → List GoString → Option (List GoString)
strip [] names = some names
strip (x ∷ prefix) [] = none
strip (x ∷ prefix) (y ∷ names) = let rest = strip prefix names in if x == y then rest else none

pub strip-append : (prefix rest : List GoString) → strip prefix (prefix ++ rest) ≡ some rest
unfolding strip
strip-append [] rest = refl
strip-append (x ∷ prefix) rest = ground (arith, ==-refl x, strip-append prefix rest)

pub strip-some :
    (prefix names rest : List GoString) → strip prefix names ≡ some rest → names ≡ prefix ++ rest
unfolding strip
strip-some [] names rest e = ground (arith, e)
strip-some (x ∷ prefix) [] rest e = absurd (ground (arith, e))
strip-some (x ∷ prefix) (y ∷ names) rest e = elim (Bool-cases (x == y)) [
  | inl same ↦ ground (arith, same, e, strip-some prefix names rest)
  | inr differ ↦ absurd (ground (arith, differ, e))
]

-- A list is empty or has a last element.
pub last-cases :
    (xs : List GoString) → (xs ≡ []) ⊎ ((ys : List GoString) × (y : GoString) × (xs ≡ ys ++ y ∷ []))
last-cases [] = inl refl
last-cases (x ∷ xs) = elim (last-cases xs) [
  | inl empty ↦ inr ([], x, ap (◌∷◌ x) empty)
  | inr (ys, y, e) ↦ inr (x ∷ ys, y, ap (◌∷◌ x) e)
]
