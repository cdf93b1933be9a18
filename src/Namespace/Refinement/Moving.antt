-- ===== src/Namespace/Refinement/Moving.antt =====
-- MoveFileNode takes everything below one path to the target directory; a node that is moved
-- below itself is lost with all that is below it.
use tinydfs_master.Base.{
  ℕ, ◌≡◌, ◌≢◌, refl, sym, ap, subst, ◌∙◌, false, none, some, List, [], ◌∷◌, ◌++◌, nat_eq,
  nat_list_eq, GoString, arith, ok, Option-cases, inl, inr, append_assoc,
}
use mathlib.Core.Path.{fun_ext}
use tinydfs_master.Namespace.{DirTree, child, move_file_node, walk}
use tinydfs_master.Namespace.WellFormed.{IsWellFormed}
use tinydfs_master.Namespace.Walk.{
  walk-nil, walk-miss, walk-step, walk-append, path_names, get_file_node-walk,
}
use tinydfs_master.Namespace.Prefix.{strip, strip-some}
use tinydfs_master.Namespace.Agree.{walk-agrees}
use tinydfs_master.Namespace.Outcomes.{MovedTo, move_file_node-ok}
use tinydfs_master.Namespace.Spec.{
  FileStep, moved, moved_below_itself, move_into, view, graft, below, drop, no_files,
}
use tinydfs_master.Namespace.Refinement.Apart.{
  entry_apart, node_apart, last_entry, strip-longer, strip-unused, strip-none, snoc_cons,
}

module _ {S : Type 0} {t t' : DirTree S} (w : IsWellFormed t) {current_path target_path : GoString}
    {p : ℕ} (change : MovedTo t current_path target_path t' p) (dir to : List GoString)
    (name : GoString) (was : (t.heap p).file_name ≡ name)
    (to_dir : walk t.heap t.root dir ≡ some change.parent)
    (held : child t.heap change.parent name ≡ some p) (live : (t.heap p).is_del ≡ false)
    (to_target : walk t.heap t.root to ≡ some change.target) where
  kids :
      (q : ℕ) (other : GoString)
      → (change.parent ≡ q → name ≢ other)
      → (change.target ≡ q → name ≢ other)
      → (child t'.heap q other ≡ child t.heap q other)
        × ((k : ℕ) → child t.heap q other ≡ some k → (t'.heap k).is_del ≡ (t.heap k).is_del)
  kids q other not_old not_new =
      (ground (arith, was, not_old, not_new, change.kids q other), λ k hit. change.is_dels k)

  unused : child t.heap change.target name ≡ none
  unused = ground (arith, was, change.unused)

  -- Every path that is not below the old or the new one leads where it did.
  kept :
      (names : List GoString)
      → strip (dir ++ name ∷ []) names ≡ none
      → strip (to ++ name ∷ []) names ≡ none
      → walk t'.heap t.root names ≡ walk t.heap t.root names
  kept names not_old not_new =
      walk-agrees t.heap t'.heap t.root names λ before r other after parts to_r.
        let apart : (at : List GoString) (q : ℕ)
            → walk t.heap t.root at ≡ some q
            → strip (at ++ name ∷ []) names ≡ none
            → q ≡ r
            → name ≢ other =
          λ at q to_q not_at here.
            entry_apart w at before after name other q to_q (to_r ∙ ap some (sym here))
              (subst (λ v. strip (at ++ name ∷ []) v ≡ none) parts not_at) in
        kids r other (apart dir change.parent to_dir not_old)
          (apart to change.target to_target not_new)

  to_entry :
      (at rest : List GoString) (q : ℕ)
      → walk t.heap t.root at ≡ some q
      → strip (dir ++ name ∷ []) at ≡ none
      → walk t'.heap t.root ((at ++ name ∷ []) ++ rest) ≡ walk t'.heap q (name ∷ rest)
  to_entry at rest q to_q not_old =
      ap (walk t'.heap t.root) (snoc_cons at rest name)
      ∙ walk-append t'.heap t.root q at (name ∷ rest)
          (kept at not_old (strip-unused w to at name change.target q to_target unused to_q) ∙ to_q)

  -- The old path leads nowhere.
  old_gone :
      (names rest : List GoString)
      → strip (dir ++ name ∷ []) names ≡ some rest
      → walk t'.heap t.root names ≡ none
  old_gone names rest within =
      ap (walk t'.heap t.root) (strip-some (dir ++ name ∷ []) names rest within)
      ∙ to_entry dir rest change.parent to_dir (strip-longer dir name)
      ∙ walk-miss t'.heap change.parent name rest
          (ground (arith, was, change.kids change.parent name))

  -- Nothing changes below the node, if the target is not there.
  kept_below :
      (rest : List GoString)
      → walk t.heap t.root (dir ++ name ∷ []) ≡ some p
      → strip (dir ++ name ∷ []) to ≡ none
      → walk t'.heap p rest ≡ walk t.heap p rest
  kept_below rest to_p outside =
      walk-agrees t.heap t'.heap p rest λ before r other after parts to_r.
        let apart : (at : List GoString) (q : ℕ)
            → walk t.heap t.root at ≡ some q
            → strip (dir ++ name ∷ []) at ≡ none
            → q ≢ r =
          λ at q to_q not_at here.
            node_apart w (dir ++ name ∷ []) at before p q to_p to_q not_at
              (to_r ∙ ap some (sym here)) in
        kids r other (λ here. absurd (apart dir change.parent to_dir (strip-longer dir name) here))
          (λ here. absurd (apart to change.target to_target outside here))

  moved_view :
      walk t.heap t.root (dir ++ name ∷ []) ≡ some p
      → strip (dir ++ name ∷ []) to ≡ none
      → (names : List GoString)
      → walk t'.heap t.root names
        ≡ graft
            (to ++ name ∷ [])
            (below (dir ++ name ∷ []) (view t))
            (drop (dir ++ name ∷ []) (view t))
            names
  unfolding graft no_files
  moved_view to_p outside names = elim (Option-cases (strip (to ++ name ∷ []) names)) [
    | inr (rest, within) ↦
        ap (walk t'.heap t.root) (strip-some (to ++ name ∷ []) names rest within)
        ∙ to_entry to rest change.target to_target outside
        ∙ walk-step t'.heap change.target p name rest
            (ground (arith, was, unused, held, change.kids change.target name))
            (change.is_dels p ∙ live)
        ∙ kept_below rest to_p outside
        ∙ sym (walk-append t.heap t.root p (dir ++ name ∷ []) rest to_p)
        ∙ sym (ground (arith, within))
    | inl not_new ↦ elim (Option-cases (strip (dir ++ name ∷ []) names)) [
      | inl not_old ↦ kept names not_old not_new ∙ sym (ground (arith, not_old, not_new))
      | inr (rest, within) ↦ old_gone names rest within ∙ sym (ground (arith, within, not_new))
    ]
  ]

  lost_view :
      (inner : List GoString)
      → to ≡ (dir ++ name ∷ []) ++ inner
      → (names : List GoString) → walk t'.heap t.root names ≡ drop (dir ++ name ∷ []) (view t) names
  unfolding graft no_files
  lost_view inner inside names = elim (Option-cases (strip (dir ++ name ∷ []) names)) [
    | inr (rest, within) ↦ old_gone names rest within ∙ sym (ground (arith, within))
    | inl not_old ↦ elim (Option-cases (strip (to ++ name ∷ []) names)) [
      | inl not_new ↦ kept names not_old not_new ∙ sym (ground (arith, not_old))
      | inr (rest, within) ↦ absurd (
          strip-none (dir ++ name ∷ []) names (inner ++ name ∷ rest) not_old (
            strip-some (to ++ name ∷ []) names rest within
            ∙ snoc_cons to rest name
            ∙ ap (λ v. v ++ name ∷ rest) inside
            ∙ append_assoc (dir ++ name ∷ []) inner (name ∷ rest)))
    ]
  ]

  step_at : FileStep (view t) (move_into (dir ++ name ∷ []) to) (view t')
  step_at = elim (Option-cases (strip (dir ++ name ∷ []) to)) [
    | inl outside ↦
        subst (FileStep (view t) (move_into (dir ++ name ∷ []) to))
          (sym (
            fun_ext λ names.
              ap (λ v. walk t'.heap v names) change.same_root ∙ moved_view to_p outside names))
          (moved dir to name p change.target to_p to_target
            (walk-append t.heap t.root change.target to (name ∷ []) to_target
              ∙ walk-miss t.heap change.target name [] unused)
            outside)
    | inr (inner, within) ↦
        let inside = strip-some (dir ++ name ∷ []) to inner within in
        subst (λ at. FileStep (view t) (move_into (dir ++ name ∷ []) at) (view t')) (sym inside)
          (subst (FileStep (view t) (move_into (dir ++ name ∷ []) ((dir ++ name ∷ []) ++ inner)))
            (sym (
              fun_ext λ names.
                ap (λ v. walk t'.heap v names) change.same_root ∙ lost_view inner inside names))
            (moved_below_itself dir inner name p change.target to_p
              (ap (walk t.heap t.root) (sym inside) ∙ to_target)))
  ]
    where
      to_p : walk t.heap t.root (dir ++ name ∷ []) ≡ some p
      to_p =
          walk-append t.heap t.root change.parent dir (name ∷ []) to_dir
          ∙ walk-step t.heap change.parent p name [] held live
          ∙ walk-nil t.heap p

pub move_file_node-FileStep :
    {S : Type 0} {t t' : DirTree S} (w : IsWellFormed t) (current_path target_path : GoString)
    {p : ℕ}
    → move_file_node t current_path target_path ≡ ok (t', p)
    → FileStep (view t) (move_into (path_names current_path) (path_names target_path)) (view t')
move_file_node-FileStep {t = t} {t' = t'} w current_path target_path {p} e =
    let r = move_file_node-ok t current_path target_path e in
    let to_p = sym (get_file_node-walk current_path w) ∙ r.found in
    let (dir, parts, to_dir, held, live) =
      last_entry w (path_names current_path) p r.parent to_p r.held in
    subst (λ names. FileStep (view t) (move_into names (path_names target_path)) (view t'))
      (sym parts)
      (step_at w r dir (path_names target_path) (t.heap p).file_name refl to_dir held live
        (sym (get_file_node-walk target_path w) ∙ r.target_found))
