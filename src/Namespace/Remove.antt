-- ===== src/Namespace/Remove.antt =====
-- RemoveFileNode and EraseFileNode: what can still be looked up afterwards.
use tinydfs_master.Base.{
  ℕ, ◌≡◌, ◌≢◌, refl, Bool, false, none, some, List, [], ◌∷◌, ◌++◌, nat_eq, nat_list_eq, GoString,
  arith, ok, sym, ap, ◌∙◌, ◌⊎◌, inl, inr, ℕ_discrete,
}
use tinydfs_master.External.{Common}
use tinydfs_master.Namespace.{
  DirTree, child, get_file_node, deleted_name, remove_file_node_as, walk,
}
use tinydfs_master.Namespace.WellFormed.{IsWellFormed}
use tinydfs_master.Namespace.Walk.{
  walk-cons, walk-step, get_file_node-held, path_names, get_file_node-walk,
}
use tinydfs_master.Namespace.Outcomes.{Removed, remove_file_node_as-ok}
use tinydfs_master.Namespace.Invariant.{remove_file_node_as-IsWellFormed}

module _ {S : Type 0} ⦃c : Common⦄ {t t' : DirTree S} (w : IsWellFormed t) (path : GoString)
    (is_dummy : Bool) (now : ℕ) {p : ℕ}
    (e : remove_file_node_as t path is_dummy now ≡ ok (t', p)) where
  removed : Removed t path t' p
  removed = remove_file_node_as-ok t path is_dummy now e

  well_formed : IsWellFormed t'
  well_formed = remove_file_node_as-IsWellFormed w path is_dummy now e

  -- A live child was a live child before.
  child-old :
      (q : ℕ) (name : GoString) (k : ℕ)
      → child t'.heap q name ≡ some k
      → (t'.heap k).is_del ≡ false
      → (child t.heap q name ≡ some k) × ((t.heap k).is_del ≡ false)
  child-old q name k hit live =
      ground (arith, removed.marked, removed.change.kids q name, removed.change.is_dels k)

  walk-old :
      (q : ℕ) (names : List GoString) {r : ℕ}
      → walk t'.heap q names ≡ some r
      → walk t.heap q names ≡ some r
  unfolding walk
  walk-old q [] walked = walked
  walk-old q (name ∷ names) walked =
      let (k, hit, live, rest) = walk-cons t'.heap q name names walked in
      let (hit', live') = child-old q name k hit live in
      walk-step t.heap q k name names hit' live' ∙ walk-old k names rest

  -- No path leads to a node that it did not lead to before.
  pub get_file_node-old :
      (other : GoString) (r : ℕ) → get_file_node t' other ≡ some r → get_file_node t other ≡ some r
  get_file_node-old other r found =
      get_file_node-walk other w
      ∙ walk-old t.root (path_names other)
          (rw (← removed.same_root) (sym (get_file_node-walk other well_formed) ∙ found))

  -- After a removal no path leads to the removed node.
  pub get_file_node-gone : (other : GoString) → get_file_node t' other ≢ some p
  get_file_node-gone other found =
      let (live, _) =
        get_file_node-held other well_formed found (removed.change.parent_nodes p ∙ removed.held) in
      ground (arith, removed.marked)

  held : ((t.heap p).is_del ≡ false) × (child t.heap removed.parent (t.heap p).file_name ≡ some p)
  held = get_file_node-held path w removed.found removed.held

  -- The path runs through the removed node.
  abbrev pub Through : ℕ → List GoString → Type 0
  Through q names =
      (before : List GoString) × (after : List GoString) × (names ≡ before ++ after)
      × (walk t.heap q before ≡ some p)

  walk-kept :
      child t.heap removed.parent (deleted_name (t.heap p)) ≡ none
      → (q : ℕ) (names : List GoString) (r : ℕ) → walk t.heap q names ≡ some r
      → (walk t'.heap q names ≡ some r) ⊎ Through q names
  unfolding walk
  walk-kept unused q [] r walked = inl walked
  walk-kept unused q (name ∷ names) r walked =
      let (k, hit, live, rest) = walk-cons t.heap q name names walked in
      elim (ℕ_discrete p k) [
        | yes here ↦
            inr (name ∷ [], names, refl, walk-step t.heap q k name [] hit live ∙ ap some (sym here))
        | no away ↦ elim (walk-kept unused k names r rest) [
          | inl kept ↦ inl (
              walk-step t'.heap q k name names
                (ground (arith, hit, unused, away, held.1, removed.change.kids q name))
                (ground (arith, live, away, removed.change.is_dels k))
              ∙ kept)
          | inr (before, after, parts, through) ↦ inr (
            name ∷ before,
            after,
            ap (◌∷◌ name) parts,
            walk-step t.heap q k name before hit live ∙ through,
          )
        ]
      ]

  -- On a removal, unless a sibling already has the name that the removed node gets, every path that led to a
  -- node and did not run through the removed one leads there still.
  pub get_file_node-kept_or_Through :
      (parent : ℕ) (other : GoString) (r : ℕ)
      → (t.heap p).parent_node ≡ some parent
      → child t.heap parent (deleted_name (t.heap p)) ≡ none
      → get_file_node t other ≡ some r
      → (get_file_node t' other ≡ some r) ⊎ Through t.root (path_names other)
  get_file_node-kept_or_Through parent other r below unused found =
      elim (walk-kept (ground (arith, removed.held, below, unused)) t.root (path_names other) r
        (sym (get_file_node-walk other w) ∙ found)) [
          | inl kept ↦ inl (get_file_node-walk other well_formed ∙ rw removed.same_root kept)
          | inr through ↦ inr through
        ]
