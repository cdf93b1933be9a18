-- ===== src/Namespace/Refinement/Renaming.antt =====
-- RenameFileNode takes everything below one path to another one, and RemoveFileNode and
-- EraseFileNode take it away.
use tinydfs_master.Base.{
  ℕ, ◌<◌, ◌≡◌, ◌≢◌, refl, sym, ap, subst, ◌∙◌, Bool, true, false, none, some, List, [], ◌∷◌, ◌++◌,
  nat_eq, nat_list_eq, GoString, arith, ok, Option-cases, inl, inr,
}
use mathlib.Core.Path.{fun_ext}
use tinydfs_master.External.{Common}
use tinydfs_master.Namespace.{
  DirTree, Heap, child, rename_file_node, remove_file_node_as, deleted_name, walk,
}
use tinydfs_master.Namespace.WellFormed.{IsWellFormed}
use tinydfs_master.Namespace.Walk.{
  walk-miss, walk-deleted, walk-step, walk-append, walk-allocated, path_names, get_file_node-walk,
}
use tinydfs_master.Namespace.Prefix.{strip, strip-some}
use tinydfs_master.Namespace.Agree.{walk-agrees}
use tinydfs_master.Namespace.Outcomes.{Renamed, rename_file_node-ok, remove_file_node_as-ok}
use tinydfs_master.Namespace.Spec.{
  FileStep, removed, renamed, rename_to, remove_at, view, graft, below, drop, no_files,
}
use tinydfs_master.Namespace.Refinement.Apart.{
  entry_apart, node_apart, last_entry, strip-longer, snoc_cons,
}

-- A node under another name below its directory.
module _ {S : Type 0} {t : DirTree S} (w : IsWellFormed t) {h' : Heap} {p parent : ℕ}
    (old new : GoString) (was : (t.heap p).file_name ≡ old)
    (change : Renamed t.heap p parent new h') (dir : List GoString)
    (to_dir : walk t.heap t.root dir ≡ some parent) (held : child t.heap parent old ≡ some p) where
  kids :
      (q : ℕ) (other : GoString)
      → q < t.next
      → (parent ≡ q → old ≢ other)
      → (parent ≡ q → new ≢ other)
      → (child h' q other ≡ child t.heap q other)
        × ((k : ℕ) → child t.heap q other ≡ some k → (h' k).is_del ≡ (t.heap k).is_del)
  kids q other lt not_old not_new = (
    ground (arith, was, not_old, not_new, change.kids q other),
    λ k hit. ground (
      arith,
      was,
      change.is_dels k,
      w.child_named q other k lt hit,
      w.child_below q other k lt hit,
      w.child_below parent old p (walk-allocated t.root dir w w.root_allocated to_dir) held,
      not_old,
    ),
  )

  -- Every path that is not below the old or the new one leads where it did.
  kept :
      (names : List GoString)
      → strip (dir ++ old ∷ []) names ≡ none
      → strip (dir ++ new ∷ []) names ≡ none
      → walk h' t.root names ≡ walk t.heap t.root names
  kept names not_old not_new = walk-agrees t.heap h' t.root names λ before r other after parts to_r.
      let apart : (name : GoString)
          → strip (dir ++ name ∷ []) names ≡ none
          → parent ≡ r
          → name ≢ other =
        λ name not_name here.
          entry_apart w dir before after name other parent to_dir (to_r ∙ ap some (sym here))
            (subst (λ v. strip (dir ++ name ∷ []) v ≡ none) parts not_name) in
      kids r other (walk-allocated t.root before w w.root_allocated to_r) (apart old not_old)
        (apart new not_new)

  to_entry :
      (name : GoString) (rest : List GoString)
      → walk h' t.root ((dir ++ name ∷ []) ++ rest) ≡ walk h' parent (name ∷ rest)
  to_entry name rest =
      ap (walk h' t.root) (snoc_cons dir rest name)
      ∙ walk-append h' t.root parent dir (name ∷ rest)
          (kept dir (strip-longer dir old) (strip-longer dir new) ∙ to_dir)

  -- The old name leads nowhere.
  old_gone :
      (names rest : List GoString)
      → new ≢ old
      → strip (dir ++ old ∷ []) names ≡ some rest
      → walk h' t.root names ≡ none
  old_gone names rest differ within =
      ap (walk h' t.root) (strip-some (dir ++ old ∷ []) names rest within)
      ∙ to_entry old rest
      ∙ walk-miss h' parent old rest (ground (arith, was, differ, change.kids parent old))

  new_held : child h' parent new ≡ some p
  new_held = ground (arith, change.kids parent new)

  -- Nothing changes below the node itself.
  kept_below :
      (rest : List GoString)
      → walk t.heap t.root (dir ++ old ∷ []) ≡ some p
      → walk h' p rest ≡ walk t.heap p rest
  kept_below rest to_p = walk-agrees t.heap h' p rest λ before r other after parts to_r.
      let apart : parent ≢ r = λ here.
        node_apart w (dir ++ old ∷ []) dir before p parent to_p to_dir (strip-longer dir old)
          (to_r ∙ ap some (sym here)) in
      kids r other
        (walk-allocated p before w (walk-allocated t.root (dir ++ old ∷ []) w w.root_allocated to_p)
          to_r)
        (λ here. absurd (apart here)) (λ here. absurd (apart here))

  renamed_view :
      walk t.heap t.root (dir ++ old ∷ []) ≡ some p
      → (h' p).is_del ≡ false
      → (names : List GoString)
      → walk h' t.root names
        ≡ graft
            (dir ++ new ∷ [])
            (below (dir ++ old ∷ []) (view t))
            (drop (dir ++ old ∷ []) (view t))
            names
  unfolding graft no_files
  renamed_view to_p live names = elim (Option-cases (strip (dir ++ new ∷ []) names)) [
    | inr (rest, within) ↦
        ap (walk h' t.root) (strip-some (dir ++ new ∷ []) names rest within)
        ∙ to_entry new rest
        ∙ walk-step h' parent p new rest new_held live
        ∙ kept_below rest to_p
        ∙ sym (walk-append t.heap t.root p (dir ++ old ∷ []) rest to_p)
        ∙ sym (ground (arith, within))
    | inl not_new ↦ elim (Option-cases (strip (dir ++ old ∷ []) names)) [
      | inl not_old ↦ kept names not_old not_new ∙ sym (ground (arith, not_old, not_new))
      | inr (rest, within) ↦
          old_gone names rest (λ same. ground (arith, within, not_new, same)) within
          ∙ sym (ground (arith, within, not_new))
    ]
  ]

  removed_view :
      (h' p).is_del ≡ true
      → (names : List GoString)
      → walk h' t.root names ≡ drop (dir ++ old ∷ []) (drop (dir ++ new ∷ []) (view t)) names
  unfolding graft no_files
  removed_view gone names = elim (Option-cases (strip (dir ++ new ∷ []) names)) [
    | inr (rest, within) ↦
        ap (walk h' t.root) (strip-some (dir ++ new ∷ []) names rest within)
        ∙ to_entry new rest
        ∙ walk-deleted h' parent p new rest new_held gone
        ∙ sym (ground (arith, within))
    | inl not_new ↦ elim (Option-cases (strip (dir ++ old ∷ []) names)) [
      | inl not_old ↦ kept names not_old not_new ∙ sym (ground (arith, not_old, not_new))
      | inr (rest, within) ↦
          old_gone names rest (λ same. ground (arith, within, not_new, same)) within
          ∙ sym (ground (arith, within, not_new))
    ]
  ]

module _ {S : Type 0} {t t' : DirTree S} (w : IsWellFormed t) where
  pub rename_file_node-FileStep :
      (path new_name : GoString) {p : ℕ}
      → rename_file_node t path new_name ≡ ok (t', p)
      → FileStep (view t) (rename_to (path_names path) new_name) (view t')
  rename_file_node-FileStep path new {p} e =
      let r = rename_file_node-ok t path new e in
      let to_p = sym (get_file_node-walk path w) ∙ r.found in
      let (dir, parts, to_dir, held, live) =
        last_entry w (path_names path) p r.parent to_p r.held in
      let to_entry = ap (walk t.heap t.root) (sym parts) ∙ to_p in
      subst (λ names. FileStep (view t) (rename_to names new) (view t')) (sym parts)
        (subst (FileStep (view t) (rename_to (dir ++ (t.heap p).file_name ∷ []) new))
          (sym (
            fun_ext λ names.
              ap (λ v. walk t'.heap v names) r.same_root
              ∙ renamed_view w (t.heap p).file_name new refl r.change dir to_dir held to_entry
                  r.live names))
          (renamed dir (t.heap p).file_name new p to_entry))

  pub remove_file_node_as-FileStep :
      ⦃c : Common⦄ (path : GoString) (is_dummy : Bool) (now : ℕ) {p : ℕ}
      → remove_file_node_as t path is_dummy now ≡ ok (t', p)
      → FileStep (view t) (remove_at (path_names path) (deleted_name (t.heap p))) (view t')
  remove_file_node_as-FileStep path is_dummy now {p} e =
      let r = remove_file_node_as-ok t path is_dummy now e in
      let to_p = sym (get_file_node-walk path w) ∙ r.found in
      let (dir, parts, to_dir, held, live) =
        last_entry w (path_names path) p r.parent to_p r.held in
      let to_entry = ap (walk t.heap t.root) (sym parts) ∙ to_p in
      subst (λ names. FileStep (view t) (remove_at names (deleted_name (t.heap p))) (view t'))
        (sym parts)
        (subst
          (FileStep (view t)
            (remove_at (dir ++ (t.heap p).file_name ∷ []) (deleted_name (t.heap p))))
          (sym (
            fun_ext λ names.
              ap (λ v. walk t'.heap v names) r.same_root
              ∙ removed_view w (t.heap p).file_name (deleted_name (t.heap p)) refl r.change dir
                  to_dir held r.marked names))
          (removed dir (t.heap p).file_name (deleted_name (t.heap p)) p to_entry))
