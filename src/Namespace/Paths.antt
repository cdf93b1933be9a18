-- ===== src/Namespace/Paths.antt =====
-- How `getFileNode` takes a path apart: strings.Trim and strings.Split at slashes.
use mathlib.Core.List.{reverse, reverse-append, reverse-reverse}
use tinydfs_master.Base.{
  ℕ, ◌≡◌, ◌≢◌, refl, ap, sym, ◌∙◌, false, List, [], ◌∷◌, ◌++◌, ==-ne, nat_eq, nat_list_eq,
  append-nil, contains, GoString, arith,
}
use tinydfs_master.Base.Strings.{trim_left, trim, split}
use tinydfs_master.Namespace.{DirTree, slash, walk, get_file_node}
use tinydfs_master.Namespace.WellFormed.{IsWellFormed}
use tinydfs_master.Namespace.Walk.{path_names, get_file_node-walk}

-- A name that can stand between two slashes.
abbrev pub IsName : GoString → Type 0
IsName name = (name ≢ []) × (contains name slash ≡ false)

abbrev pub AreNames : List GoString → Type 0
AreNames [] = Unit {0}
AreNames (name ∷ names) = IsName name × AreNames names

-- The absolute path through these names, as `/usr/local`.
unfoldable pub join_path : List GoString → GoString
join_path [] = []
join_path (name ∷ names) = slash ∷ (name ++ join_path names)

split-name : (name : GoString) → contains name slash ≡ false → split slash name ≡ name ∷ []
unfolding split
split-name [] free = refl
split-name (x ∷ name) free = ground (arith, split-name name)

split-append :
    (name rest : GoString)
    → contains name slash ≡ false
    → split slash (name ++ slash ∷ rest) ≡ name ∷ split slash rest
unfolding split
split-append [] rest free = ground arith
split-append (x ∷ name) rest free = ground (arith, split-append name rest)

split-join_path :
    (name : GoString) (names : List GoString)
    → AreNames (name ∷ names)
    → split slash (name ++ join_path names) ≡ name ∷ names
unfolding join_path
split-join_path name [] (n, _) = ground (arith, append-nil name, split-name name)
split-join_path name (next ∷ names) (n, ns) =
    split-append name (next ++ join_path names) n.1 ∙ ap (◌∷◌ name) (split-join_path next names ns)

-- The last byte is no slash.
abbrev EndsWell : GoString → Type 0
EndsWell s = (y : ℕ) × (r : GoString) × (reverse s ≡ y ∷ r) × (y ≢ slash)

append-EndsWell : (s u : GoString) → EndsWell u → EndsWell (s ++ u)
append-EndsWell s u (y, r, e, ne) = (y, r ++ reverse s, rw (reverse-append s u, e) refl, ne)

name-EndsWell : (name : GoString) → IsName name → EndsWell name
name-EndsWell [] n = absurd (n.0 refl)
name-EndsWell (x ∷ []) n = (x, [], refl, ground arith)
name-EndsWell (x ∷ y ∷ name) n =
    append-EndsWell (x ∷ []) (y ∷ name) (name-EndsWell (y ∷ name) (λ e. cc, ground arith))

join_path-EndsWell :
    (name : GoString) (names : List GoString)
    → AreNames (name ∷ names)
    → EndsWell (name ++ join_path names)
unfolding join_path
join_path-EndsWell name [] (n, _) = rw append-nil (name-EndsWell name n)
join_path-EndsWell name (next ∷ names) (n, ns) =
    append-EndsWell name (join_path (next ∷ names))
      (append-EndsWell (slash ∷ []) (next ++ join_path names) (join_path-EndsWell next names ns))

trim_left-other : (y : ℕ) (r : GoString) → y ≢ slash → trim_left slash (y ∷ r) ≡ y ∷ r
unfolding trim_left
trim_left-other y r ne = ground arith

trim_left-slash : (s : GoString) → trim_left slash (slash ∷ s) ≡ trim_left slash s
unfolding trim_left
trim_left-slash s = ground arith

trim-keep :
    (x : ℕ) (s : GoString) → x ≢ slash → EndsWell (x ∷ s) → trim slash (slash ∷ x ∷ s) ≡ x ∷ s
unfolding trim
trim-keep x s ne (y, r, e, ne') =
    ap (λ u. reverse (trim_left slash (reverse u)))
      (trim_left-slash (x ∷ s) ∙ trim_left-other x s ne)
    ∙ ap (λ u. reverse (trim_left slash u)) e
    ∙ ap reverse (trim_left-other y r ne' ∙ sym e)
    ∙ reverse-reverse (x ∷ s)

path_names-nil : path_names [] ≡ []
unfolding path_names trim trim_left
path_names-nil = ground arith

-- Taking apart the absolute path through a list of names gives the names back, for names that
-- are not empty and hold no slash.
path_names-join_path :
    (names : List GoString) → AreNames names → path_names (join_path names) ≡ names
unfolding path_names join_path
path_names-join_path [] _ = path_names-nil
path_names-join_path ([] ∷ names) (n, ns) = absurd (n.0 refl)
path_names-join_path ((x ∷ name) ∷ names) (n, ns) =
    rw
      (
        trim-keep x (name ++ join_path names) (ground arith)
            (join_path-EndsWell (x ∷ name) names (n, ns)),
        ==-ne (x ∷ (name ++ join_path names)) [] (λ e. cc),
      )
      (split-join_path (x ∷ name) names (n, ns))

-- In a well-formed tree, getFileNode of the absolute path through a list of names, which are not
-- empty and hold no slash, follows these names from the root.
pub get_file_node-join_path :
    {S : Type 0} {t : DirTree S} (names : List GoString)
    → IsWellFormed t
    → AreNames names
    → get_file_node t (join_path names) ≡ walk t.heap t.root names
get_file_node-join_path {S} {t} names w are_names =
    get_file_node-walk (join_path names) w
    ∙ ap (walk t.heap t.root) (path_names-join_path names are_names)
