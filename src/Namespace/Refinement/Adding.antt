-- ===== src/Namespace/Refinement/Adding.antt =====
-- AddFileNode puts one node below the directory's path.
use tinydfs_master.Base.{
  ℕ, ◌<◌, ◌≡◌, ◌≢◌, sym, ap, subst, ◌∙◌, Bool, none, some, List, [], ◌∷◌, ◌++◌, nat_eq, nat_list_eq,
  GoString, arith, ok, Option-cases, inl, inr,
}
use mathlib.Core.Path.{fun_ext}
use tinydfs_master.External.{Common, StringSet}
use tinydfs_master.Namespace.{DirTree, child, add_file_node, new_file_node, walk}
use tinydfs_master.Namespace.WellFormed.{IsWellFormed}
use tinydfs_master.Namespace.Walk.{
  walk-nil, walk-miss, walk-step, walk-append, walk-allocated, path_names, get_file_node-walk,
}
use tinydfs_master.Namespace.Prefix.{strip, strip-some}
use tinydfs_master.Namespace.Agree.{walk-agrees}
use tinydfs_master.Namespace.Outcomes.{Added, add_file_node-ok}
use tinydfs_master.Namespace.Invariant.{child-new_file_node}
use tinydfs_master.Namespace.Spec.{FileStep, added, add_below, view, graft, only}
use tinydfs_master.Namespace.Refinement.Apart.{entry_apart, strip-longer, snoc_cons}

module _ {S : Type 0} ⦃c : Common⦄ ⦃s : StringSet S⦄ {t t' : DirTree S} (w : IsWellFormed t)
    (id path filename : GoString) (size : ℕ) (is_file : Bool) {new : ℕ}
    (e : add_file_node t id path filename size is_file ≡ ok (t', new)) where
  change : Added t id path filename size is_file t' new
  change = add_file_node-ok t id path filename size is_file e

  abbrev dir : List GoString
  dir = path_names path

  to_dir : walk t.heap t.root dir ≡ some change.parent
  to_dir = sym (get_file_node-walk path w) ∙ change.found

  parent_allocated : change.parent < t.next
  parent_allocated = walk-allocated t.root dir w w.root_allocated to_dir

  kids :
      (q : ℕ) (other : GoString)
      → q < t.next
      → (change.parent ≡ q → filename ≢ other)
      → (child t'.heap q other ≡ child t.heap q other)
        × ((k : ℕ) → child t.heap q other ≡ some k → (t'.heap k).is_del ≡ (t.heap k).is_del)
  kids q other lt apart = (
    ground (
      arith,
      apart,
      change.linked.kids q other,
      child-new_file_node t.heap t.next id filename change.parent size is_file q other,
    ),
    λ k hit. ground (arith, change.linked.same k, w.child_allocated q other k lt hit),
  )

  kept :
      (names : List GoString)
      → strip (dir ++ filename ∷ []) names ≡ none
      → walk t'.heap t.root names ≡ walk t.heap t.root names
  kept names apart = walk-agrees t.heap t'.heap t.root names λ before r other after parts to_r.
      kids r other (walk-allocated t.root before w w.root_allocated to_r) λ here.
        entry_apart w dir before after filename other change.parent to_dir
          (to_r ∙ ap some (sym here))
          (subst (λ v. strip (dir ++ filename ∷ []) v ≡ none) parts apart)

  new_alone : (rest : List GoString) → walk t'.heap new rest ≡ only new rest
  unfolding only
  new_alone [] = walk-nil t'.heap new
  new_alone (name ∷ rest) = walk-miss t'.heap new name rest (
      ground (
        arith,
        parent_allocated,
        change.allocated,
        change.linked.kids new name,
        child-new_file_node t.heap t.next id filename change.parent size is_file new name,
      ))

  inside :
      (rest : List GoString) → walk t'.heap t.root ((dir ++ filename ∷ []) ++ rest) ≡ only new rest
  unfolding new_file_node
  inside rest =
      ap (walk t'.heap t.root) (snoc_cons dir rest filename)
      ∙ walk-append t'.heap t.root change.parent dir (filename ∷ rest)
          (kept dir (strip-longer dir filename) ∙ to_dir)
      ∙ walk-step t'.heap change.parent new filename rest
          (ground (arith, change.linked.kids change.parent filename, change.allocated))
          (ground (arith, change.linked.same new, change.allocated))
      ∙ new_alone rest

  agrees :
      (names : List GoString)
      → view t' names ≡ graft (dir ++ filename ∷ []) (only new) (view t) names
  unfolding graft
  agrees names =
      ap (λ v. walk t'.heap v names) change.same_root
      ∙ (elim (Option-cases (strip (dir ++ filename ∷ []) names)) [
        | inl apart ↦ kept names apart ∙ sym (ground (arith, apart))
        | inr (rest, within) ↦
            ap (walk t'.heap t.root) (strip-some (dir ++ filename ∷ []) names rest within)
            ∙ inside rest
            ∙ sym (ground (arith, within))
      ])

  pub add_file_node-FileStep : FileStep (view t) (add_below (path_names path) filename) (view t')
  add_file_node-FileStep =
      subst (FileStep (view t) (add_below dir filename)) (sym (fun_ext agrees)) (
        added dir filename change.parent new to_dir
          (walk-append t.heap t.root change.parent dir (filename ∷ []) to_dir
            ∙ walk-miss t.heap change.parent filename [] change.unused)
          (λ names walked. absurd (
            ground
              (arith, change.allocated, walk-allocated t.root names w w.root_allocated walked))))
