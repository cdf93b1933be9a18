-- ===== src/Base/Strings.antt =====
-- Go strings as their bytes, with the functions of package `strings` that the program calls.
use Prim.Native.Nat.{ℕ, zero, suc, ◌+◌, ◌/◌, ◌%◌}
use Prim.Native.Char.{code}
use Prim.Native.String.{String}
use mathlib.Core.List.{List, [], ◌∷◌, reverse}
use tinydfs_master.Base.Equality.{◌==◌, nat_eq, ltb, if◌then◌else◌}

abbrev pub GoString : Type 0
GoString = List ℕ

-- A literal.
abbrev pub codes : String → GoString
codes String.[] = []
codes (String.◌∷◌ c s) = code c ∷ codes s

-- Drops the leading bytes that are `c`.
unfoldable pub trim_left : ℕ → GoString → GoString
trim_left c [] = []
trim_left c (x ∷ s) = let rest = trim_left c s in if x == c then rest else x ∷ s

-- `strings.Trim(s, c)` for a cutset of one byte.
unfoldable pub trim : ℕ → GoString → GoString
trim c s = reverse (trim_left c (reverse (trim_left c s)))

-- Puts a byte in front of the first piece.
abbrev pub push_front : ℕ → List GoString → List GoString
push_front x [] = (x ∷ []) ∷ []
push_front x (piece ∷ pieces) = (x ∷ piece) ∷ pieces

-- `strings.Split(s, c)` for a separator of one byte: one piece more than there are separators.
unfoldable pub split : ℕ → GoString → List GoString
split c [] = [] ∷ []
split c (x ∷ s) = let pieces = split c s in if x == c then [] ∷ pieces else push_front x pieces

-- `strconv.Itoa`, on fuel: a number has at most as many digits as its value and one more.
unfoldable pub itoa_from : ℕ → ℕ → GoString → GoString
itoa_from zero n acc = acc
itoa_from (suc fuel) n acc =
    let rest = itoa_from fuel (n / 10) ((b'0' + n % 10) ∷ acc) in
    if ltb n 10 then (b'0' + n) ∷ acc else rest

unfoldable pub itoa : ℕ → GoString
unfolding itoa_from
itoa n = itoa_from (suc n) n []
