-- ===== src/Namespace/Walk.antt =====
-- The loop of `getFileNode`: how a path resolves from one node to another.
use tinydfs_master.Base.{
  ℕ, ◌<◌, ◌≡◌, refl, true, false, none, some, List, [], ◌∷◌, ◌++◌, ◌==◌, nat_eq, nat_list_eq,
  if◌then◌else◌, GoString, arith, Option-cases, sym, ◌∙◌, inl, inr,
}
use tinydfs_master.Base.Strings.{trim, split}
use tinydfs_master.Namespace.{DirTree, Heap, child, walk, get_file_node, slash}
use tinydfs_master.Namespace.WellFormed.{IsWellFormed}

pub walk-nil : (h : Heap) (p : ℕ) → walk h p [] ≡ some p
unfolding walk
walk-nil h p = refl

-- One step of a successful walk.
pub walk-cons :
    (h : Heap) (p : ℕ) (name : GoString) (names : List GoString) {q : ℕ}
    → walk h p (name ∷ names) ≡ some q
    → (c : ℕ) × (child h p name ≡ some c) × ((h c).is_del ≡ false) × (walk h c names ≡ some q)
unfolding walk
walk-cons h p name names e = elim (Option-cases (child h p name)) [
  | inl miss ↦ absurd (ground arith)
  | inr (c, hit) ↦ (c, hit, ground arith, ground arith)
]

pub walk-step :
    (h : Heap) (p c : ℕ) (name : GoString) (names : List GoString)
    → child h p name ≡ some c
    → (h c).is_del ≡ false
    → walk h p (name ∷ names) ≡ walk h c names
unfolding walk
walk-step h p c name names hit live = ground arith

pub walk-miss :
    (h : Heap) (p : ℕ) (name : GoString) (names : List GoString)
    → child h p name ≡ none
    → walk h p (name ∷ names) ≡ none
unfolding walk
walk-miss h p name names miss = ground arith

pub walk-deleted :
    (h : Heap) (p c : ℕ) (name : GoString) (names : List GoString)
    → child h p name ≡ some c
    → (h c).is_del ≡ true
    → walk h p (name ∷ names) ≡ none
unfolding walk
walk-deleted h p c name names hit gone = ground arith

-- A walk along two paths in a row.
pub walk-append :
    (h : Heap) (p q : ℕ) (names more : List GoString)
    → walk h p names ≡ some q
    → walk h p (names ++ more) ≡ walk h q more
unfolding walk
walk-append h p q [] more e = ground arith
walk-append h p q (name ∷ names) more e =
    let (c, hit, live, rest) = walk-cons h p name names e in
    ground (arith, walk-append h c q names more rest)

-- A walk that goes anywhere ends at a node that is not deleted.
pub walk-live :
    (h : Heap) (p : ℕ) (name : GoString) (names : List GoString) {q : ℕ}
    → walk h p (name ∷ names) ≡ some q
    → (h q).is_del ≡ false
unfolding walk
walk-live h p name [] e = let (c, hit, live, rest) = walk-cons h p name [] e in ground arith
walk-live h p name (next ∷ names) e =
    let (c, hit, live, rest) = walk-cons h p name (next ∷ names) e in walk-live h c next names rest

-- A walk from an allocated node ends at one.
pub walk-allocated :
    {S : Type 0} {t : DirTree S} (p : ℕ) (names : List GoString) {q : ℕ}
    → IsWellFormed t
    → p < t.next
    → walk t.heap p names ≡ some q
    → q < t.next
unfolding walk
walk-allocated p [] w h e = ground arith
walk-allocated {t} p (name ∷ names) w h e =
    let (c, hit, live, rest) = walk-cons t.heap p name names e in
    walk-allocated c names w (w.child_allocated p name c h hit) rest

-- The names that a path consists of, empty for the root.
unfoldable pub path_names : GoString → List GoString
path_names path = let trimmed = trim slash path in if trimmed == [] then [] else split slash trimmed

pub get_file_node-walk :
    {S : Type 0} {t : DirTree S} (path : GoString)
    → IsWellFormed t
    → get_file_node t path ≡ walk t.heap t.root (path_names path)
unfolding get_file_node path_names walk
get_file_node-walk path w = rw w.root_nameless (ground arith)

pub get_file_node-allocated :
    {S : Type 0} {t : DirTree S} (path : GoString) {p : ℕ}
    → IsWellFormed t
    → get_file_node t path ≡ some p
    → p < t.next
get_file_node-allocated {t} path {p} w e =
    walk-allocated t.root (path_names path) w w.root_allocated
      (ground (arith, get_file_node-walk path w))

-- The last step of a walk.
pub walk-last :
    {S : Type 0} {t : DirTree S} (p : ℕ) (name : GoString) (names : List GoString) {q : ℕ}
    → IsWellFormed t
    → p < t.next
    → walk t.heap p (name ∷ names) ≡ some q
    → (r : ℕ) × (last : GoString) × (r < t.next) × (child t.heap r last ≡ some q)
unfolding walk
walk-last {t} p name [] w lt e =
    let (c, hit, live, rest) = walk-cons t.heap p name [] e in (p, name, lt, ground arith)
walk-last {t} p name (next ∷ names) w lt e =
    let (c, hit, live, rest) = walk-cons t.heap p name (next ∷ names) e in
    walk-last c next names w (w.child_allocated p name c lt hit) rest

-- A node other than the root that a path leads to is live, and is the child of its parent under
-- its own name.
pub get_file_node-held :
    {S : Type 0} {t : DirTree S} (path : GoString) {p parent : ℕ}
    → IsWellFormed t
    → get_file_node t path ≡ some p
    → (t.heap p).parent_node ≡ some parent
    → ((t.heap p).is_del ≡ false) × (child t.heap parent (t.heap p).file_name ≡ some p)
get_file_node-held {t} path {p} {parent} w found held =
    along (path_names path) (sym (get_file_node-walk path w) ∙ found)
  where
    along :
        (names : List GoString)
        → walk t.heap t.root names ≡ some p
        → ((t.heap p).is_del ≡ false) × (child t.heap parent (t.heap p).file_name ≡ some p)
    along [] e = absurd (ground (arith, walk-nil t.heap t.root, w.root_on_top))
    along (name ∷ names) e =
        let (r, last, lt, hit) = walk-last t.root name names w w.root_allocated e in
        (
          walk-live t.heap t.root name names e,
          ground (arith, w.child_named r last p lt hit, w.child_below r last p lt hit),
        )
