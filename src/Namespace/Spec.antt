-- ===== src/Namespace/Spec.antt =====
-- What the directory tree promises: a function from paths, as lists of names, to nodes, and what
-- each request does to it.
use tinydfs_master.Base.{ℕ, ◌≡◌, ◌≢◌, Option, none, some, List, [], ◌∷◌, ◌++◌, GoString}
use tinydfs_master.Namespace.{DirTree, walk}
use tinydfs_master.Namespace.Prefix.{strip}

abbrev pub Files : Type 0
Files = List GoString → Option ℕ

-- The live nodes, by their paths.
abbrev pub view : {S : Type 0} → DirTree S → Files
view t names = walk t.heap t.root names

-- Everything below a path is replaced.
unfoldable pub graft : List GoString → Files → Files → Files
graft path new f names = elim (strip path names) [ none ↦ f names | some rest ↦ new rest ]

-- No path resolves.
unfoldable pub no_files : Files
no_files names = none

-- One node without children.
unfoldable pub only : ℕ → Files
only p [] = some p
only p (name ∷ names) = none

-- What is below a path.
abbrev pub below : List GoString → Files → Files
below path f names = f (path ++ names)

abbrev pub drop : List GoString → Files → Files
drop path f = graft path no_files f

-- The paths and names of a request: a directory and the name of a new node, a path and the node's
-- new name, a path and the name that the removed node gets, and a path and a target directory.
pub data Request : Type 0 where
  add_below : List GoString → GoString → Request
  rename_to : List GoString → GoString → Request
  remove_at : List GoString → GoString → Request
  move_into : List GoString → List GoString → Request

pub data FileStep (f : Files) : Request → Files → Type 0 where
  added :
      (dir : List GoString) (name : GoString) (parent new : ℕ)
      → f dir ≡ some parent
      → f (dir ++ name ∷ []) ≡ none
      → ((names : List GoString) → f names ≢ some new)
      → FileStep f (add_below dir name) (graft (dir ++ name ∷ []) (only new) f)
  renamed :
      (dir : List GoString) (old new : GoString) (p : ℕ)
      → f (dir ++ old ∷ []) ≡ some p
      → FileStep f
          (rename_to (dir ++ old ∷ []) new)
          (graft (dir ++ new ∷ []) (below (dir ++ old ∷ []) f) (drop (dir ++ old ∷ []) f))
  removed :
      (dir : List GoString) (name trash : GoString) (p : ℕ)
      → f (dir ++ name ∷ []) ≡ some p
      → FileStep f
          (remove_at (dir ++ name ∷ []) trash)
          (drop (dir ++ name ∷ []) (drop (dir ++ trash ∷ []) f))
  moved :
      (dir target : List GoString) (name : GoString) (p directory : ℕ)
      → f (dir ++ name ∷ []) ≡ some p
      → f target ≡ some directory
      → f (target ++ name ∷ []) ≡ none
      → strip (dir ++ name ∷ []) target ≡ none
      → FileStep f
          (move_into (dir ++ name ∷ []) target)
          (graft (target ++ name ∷ []) (below (dir ++ name ∷ []) f) (drop (dir ++ name ∷ []) f))
  moved_below_itself :
      (dir inner : List GoString) (name : GoString) (p directory : ℕ)
      → f (dir ++ name ∷ []) ≡ some p
      → f ((dir ++ name ∷ []) ++ inner) ≡ some directory
      → FileStep f
          (move_into (dir ++ name ∷ []) ((dir ++ name ∷ []) ++ inner))
          (drop (dir ++ name ∷ []) f)

-- Any number of requests, one after the other; the last stands first in the list.
pub data FileRun (first : Files) : List Request → Files → Type 0 where
  start : FileRun first [] first
  next :
      {rs : List Request} {f f' : Files} (r : Request)
      → FileRun first rs f
      → FileStep f r f'
      → FileRun first (r ∷ rs) f'
