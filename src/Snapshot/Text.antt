-- ===== src/Snapshot/Text.antt =====
-- The text of snapshots: lists in brackets, as fmt prints them, and columns.
use tinydfs_master.Base.{
  ℕ, ◌+◌, ◌-◌, ◌*◌, ◌≡◌, refl, ap, ◌∙◌, true, false, ◌&&◌, List, [], ◌∷◌, ◌++◌, ◌==◌, ==-ne, nat_eq,
  nat_list_eq, leb, if◌then◌else◌, contains, GoString, Result, ok, panic, arith,
}
use tinydfs_master.Base.Strings.{split}

-- Constants of package common, and package time with the format that it sets.
pub record SnapshotText : Type 0 where
  pub snapshot_delimiter : GoString
  -- A single byte.
  pub dollar_delimiter : ℕ
  -- `t.Format(common.LogFileTimeFormat)`, and time.Parse with its error dropped.
  pub format_time : ℕ → GoString
  pub parse_time : GoString → ℕ
  -- `%v` of a time.
  pub print_time : ℕ → GoString
  -- The parent of the root.
  pub minus_one_string : GoString

-- Strings with a byte between them.
unfoldable pub intercalate : ℕ → List GoString → GoString
intercalate c [] = []
intercalate c (x ∷ []) = x
intercalate c (x ∷ y ∷ xs) = x ++ c ∷ intercalate c (y ∷ xs)

-- `%v` and `%s` of a slice of strings.
unfoldable pub bracketed : List GoString → GoString
unfolding intercalate
bracketed xs = b'[' ∷ (intercalate b' ' xs ++ b']' ∷ [])

abbrev pub init : GoString → GoString
init [] = []
init (x ∷ []) = []
init (x ∷ y ∷ s) = x ∷ init (y ∷ s)

-- `s[1 : len(s)-1]`, a panic if that is out of bounds.
unfoldable pub inside : GoString → Result GoString
inside [] = panic
inside (x ∷ []) = panic
inside (x ∷ y ∷ s) = ok (init (y ∷ s))

-- strconv.Atoi without a sign, with its error dropped: zero then.
unfoldable pub atoi_from : ℕ → GoString → ℕ
atoi_from n [] = n
atoi_from n (x ∷ s) =
    let rest = atoi_from (n * 10 + (x - b'0')) s in if leb b'0' x && leb x b'9' then rest else 0

unfoldable pub atoi : GoString → ℕ
unfolding atoi_from
atoi s = atoi_from 0 s

-- None of the strings has the byte.
abbrev pub AllFree : ℕ → List GoString → Type 0
AllFree c [] = Unit {0}
AllFree c (x ∷ xs) = (contains x c ≡ false) × AllFree c xs

pub split-free : (c : ℕ) (x : GoString) → contains x c ≡ false → split c x ≡ x ∷ []
unfolding split
split-free c [] free = refl
split-free c (b ∷ x) free = ground (arith, split-free c x)

pub split-append :
    (c : ℕ) (x rest : GoString) → contains x c ≡ false → split c (x ++ c ∷ rest) ≡ x ∷ split c rest
unfolding split
split-append c [] rest free = ground arith
split-append c (b ∷ x) rest free = ground (arith, split-append c x rest)

pub split-intercalate :
    (c : ℕ) (x : GoString) (xs : List GoString)
    → AllFree c (x ∷ xs)
    → split c (intercalate c (x ∷ xs)) ≡ x ∷ xs
unfolding intercalate
split-intercalate c x [] (free, _) = split-free c x free
split-intercalate c x (y ∷ ys) (free, frees) =
    split-append c x (intercalate c (y ∷ ys)) free ∙ ap (◌∷◌ x) (split-intercalate c y ys frees)

pub contains-append :
    (c : ℕ) (x y : GoString)
    → contains x c ≡ false
    → contains y c ≡ false
    → contains (x ++ y) c ≡ false
contains-append c [] y free free' = free'
contains-append c (b ∷ x) y free free' = ground (arith, contains-append c x y)

pub intercalate-free :
    (c : ℕ) (xs : List GoString)
    → (b' ' == c) ≡ false
    → AllFree c xs
    → contains (intercalate b' ' xs) c ≡ false
unfolding intercalate
intercalate-free c [] space frees = refl
intercalate-free c (x ∷ []) space (free, _) = free
intercalate-free c (x ∷ y ∷ xs) space (free, frees) =
    contains-append c x (b' ' ∷ intercalate b' ' (y ∷ xs)) free
      (ground (arith, space, intercalate-free c (y ∷ xs) space frees))

-- Brackets and the spaces between the elements bring in no other byte.
pub bracketed-free :
    (c : ℕ) (xs : List GoString)
    → (b'[' == c) ≡ false
    → (b']' == c) ≡ false
    → (b' ' == c) ≡ false
    → AllFree c xs
    → contains (bracketed xs) c ≡ false
unfolding bracketed
bracketed-free c xs opens closes space frees = ground (
  arith,
  opens,
  contains-append c (intercalate b' ' xs) (b']' ∷ []) (intercalate-free c xs space frees)
      (ground (arith, closes)),
)

init-append : (x : GoString) (b : ℕ) → init (x ++ b ∷ []) ≡ x
init-append [] b = refl
init-append (x ∷ []) b = refl
init-append (x ∷ y ∷ s) b = ap (◌∷◌ x) (init-append (y ∷ s) b)

inside-append : (a : ℕ) (x : GoString) (b : ℕ) → inside (a ∷ (x ++ b ∷ [])) ≡ ok x
unfolding inside
inside-append a [] b = refl
inside-append a (x ∷ s) b = ap ok (init-append (x ∷ s) b)

pub inside-bracketed : (xs : List GoString) → inside (bracketed xs) ≡ ok (intercalate b' ' xs)
unfolding bracketed
inside-bracketed xs = inside-append b'[' (intercalate b' ' xs) b']'

pub contains-middle : (x rest : GoString) (c : ℕ) → contains (x ++ c ∷ rest) c ≡ true
contains-middle [] rest c = ground arith
contains-middle (b ∷ x) rest c = ground (arith, contains-middle x rest c)

pub bracketed-dollar : (xs : List GoString) → AllFree b'$' xs → contains (bracketed xs) b'$' ≡ false
bracketed-dollar xs frees =
    bracketed-free b'$' xs (==-ne {A = ℕ} b'[' b'$' (omega arith))
      (==-ne {A = ℕ} b']' b'$' (omega arith)) (==-ne {A = ℕ} b' ' b'$' (omega arith)) frees
