-- ===== src/Namespace/Refinement/Apart.antt =====
-- Which paths use a directory's entry.
use tinydfs_master.Base.{
  ℕ, ◌≡◌, ◌≢◌, false, refl, sym, ap, subst, ◌∙◌, none, some, some-injective, List, [], ◌∷◌, ◌++◌,
  append_assoc, nat_list_eq, GoString, arith, Option-cases, inl, inr, ==-refl,
}
use tinydfs_master.Namespace.{DirTree, child, walk}
use tinydfs_master.Namespace.WellFormed.{IsWellFormed}
use tinydfs_master.Namespace.Walk.{walk-nil, walk-append, walk-allocated}
use tinydfs_master.Namespace.Prefix.{strip, strip-append, strip-some, last-cases}
use tinydfs_master.Namespace.Agree.{walk-before, walk-snoc, walk_unique}

pub snoc_cons :
    (dir rest : List GoString) (name : GoString) → (dir ++ name ∷ []) ++ rest ≡ dir ++ name ∷ rest
snoc_cons dir rest name = append_assoc dir (name ∷ []) rest

-- A path that is no prefix of another one does not start it.
pub strip-none : (path names rest : List GoString) → strip path names ≡ none → names ≢ path ++ rest
strip-none path names rest apart e = absurd (ground (arith, apart, strip-append path rest, e))

-- A directory is not below its entry.
pub strip-longer : (dir : List GoString) (name : GoString) → strip (dir ++ name ∷ []) dir ≡ none
unfolding strip
strip-longer [] name = refl
strip-longer (x ∷ dir) name = ground (arith, ==-refl x, strip-longer dir name)

module _ {S : Type 0} {t : DirTree S} (w : IsWellFormed t) where
  -- A walk that is not below an entry does not use it.
  pub entry_apart :
      (dir before after : List GoString) (name other : GoString) (parent : ℕ)
      → walk t.heap t.root dir ≡ some parent
      → walk t.heap t.root before ≡ some parent
      → strip (dir ++ name ∷ []) (before ++ other ∷ after) ≡ none
      → name ≢ other
  entry_apart dir before after name other parent to_dir to_before apart same =
      strip-none (dir ++ name ∷ []) (before ++ other ∷ after) after apart (
        ap (λ v. v ++ other ∷ after) (walk_unique w before dir parent to_before to_dir)
        ∙ ap (λ v. dir ++ v ∷ after) (sym same)
        ∙ sym (snoc_cons dir after name))

  -- No walk from a node goes to a directory that is not below it.
  pub node_apart :
      (path dir before : List GoString) (p directory : ℕ)
      → walk t.heap t.root path ≡ some p
      → walk t.heap t.root dir ≡ some directory
      → strip path dir ≡ none
      → walk t.heap p before ≢ some directory
  node_apart path dir before p directory to_p to_dir apart walked =
      strip-none path dir before apart (
        walk_unique w dir (path ++ before) directory to_dir
          (walk-append t.heap t.root p path before to_p ∙ walked))

  -- A path that leads nowhere starts no path that leads anywhere.
  pub strip-unused :
      (dir names : List GoString) (name : GoString) (directory q : ℕ)
      → walk t.heap t.root dir ≡ some directory
      → child t.heap directory name ≡ none
      → walk t.heap t.root names ≡ some q
      → strip (dir ++ name ∷ []) names ≡ none
  strip-unused dir names name directory q to_dir unused walked =
      elim (Option-cases (strip (dir ++ name ∷ []) names)) [
        | inl apart ↦ apart
        | inr (rest, inside) ↦
            let (r, to_r, more) = walk-before t.heap t.root q (dir ++ name ∷ []) rest (
              subst (λ v. walk t.heap t.root v ≡ some q)
                (strip-some (dir ++ name ∷ []) names rest inside) walked) in
            let (d, to_d, hit, live) = walk-snoc t.heap t.root r dir name to_r in
            absurd (ground (arith, to_d, to_dir, hit, unused))
      ]

  -- The path of a node that has a parent, taken apart at its last name.
  pub last_entry :
      (path : List GoString) (p parent : ℕ)
      → walk t.heap t.root path ≡ some p
      → (t.heap p).parent_node ≡ some parent
      → (dir : List GoString) × (path ≡ dir ++ (t.heap p).file_name ∷ [])
        × (walk t.heap t.root dir ≡ some parent)
        × (child t.heap parent (t.heap p).file_name ≡ some p)
        × ((t.heap p).is_del ≡ false)
  last_entry path p parent to_p held = elim (last-cases path) [
    | inl nil ↦
        let here = sym (walk-nil t.heap t.root) ∙ (rw (nil) at to_p) in
        absurd (ground (arith, held, w.root_on_top, here))
    | inr (dir, name, snoc) ↦
        let (r, to_r, hit, live) = walk-snoc t.heap t.root p dir name (rw (snoc) at to_p) in
        let lt = walk-allocated t.root dir w w.root_allocated to_r in
        let named = w.child_named r name p lt hit in
        let same = some-injective _ _ (sym (w.child_below r name p lt hit) ∙ held) in
        (
          dir,
          snoc ∙ ap (λ v. dir ++ v ∷ []) (sym named),
          to_r ∙ ap some same,
          subst (λ v. child t.heap v (t.heap p).file_name ≡ some p) same
              (ap (child t.heap r) named ∙ hit),
          live,
        )
  ]
