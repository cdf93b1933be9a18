-- ===== src/Namespace/Outcomes.antt =====
-- What a successful operation of internal/namespace.go has found and changed.
use tinydfs_master.Base.{
  ℕ, suc, ◌≡◌, ◌≢◌, subst, refl, Bool, ◌&&◌, true, false, none, some, ◌==◌, nat_eq, nat_list_eq,
  if◌then◌else◌, GoString, arith, ok, ok-injective, after_bind, after_or_fail, after_fail_if,
  after_fail_if_some, after_deref,
}
use tinydfs_master.External.{Common, StringSet}
use tinydfs_master.Namespace.{
  FileNode, DirTree, Heap, child, store, delete_child, put_child, get_file_node, deleted_name,
  add_file_node, new_file_node, move_file_node, rename_file_node, remove_file_node_as,
}
use tinydfs_master.Namespace.WellFormed.{
  SameBut, Linked, put_child-Linked, child-delete_child, delete_child-SameBut, delete_child-nil,
}

-- The node at `p` is held by `parent` under a new name, and no longer under its old one.
pub record Renamed (h : Heap) (p parent : ℕ) (name : GoString) (h' : Heap) : Type 0 where
  pub has_map : (h parent).child_nodes ≢ none
  pub renamed : (h' p).file_name ≡ name
  pub file_names : (q : ℕ) → p ≢ q → (h' q).file_name ≡ (h q).file_name
  pub parent_nodes : (q : ℕ) → (h' q).parent_node ≡ (h q).parent_node
  pub is_files : (q : ℕ) → (h' q).is_file ≡ (h q).is_file
  pub is_dels : (q : ℕ) → p ≢ q → (h' q).is_del ≡ (h q).is_del
  pub kids :
      (q : ℕ) (other : GoString)
      → child h' q other ≡ (
          if parent == q
          then (if name == other
              then some p
              else if (h p).file_name == other
              then none
              else child h q other)
          else child h q other)

-- Only the deletion mark differs.
record Marked (n n' : FileNode) : Type 0 where
  file_name : n'.file_name ≡ n.file_name
  parent_node : n'.parent_node ≡ n.parent_node
  child_nodes : n'.child_nodes ≡ n.child_nodes
  is_file : n'.is_file ≡ n.is_file

-- The steps that renaming and removing share: unlink, rename, link, and touch the deletion mark.
module _ (h : Heap) (p parent : ℕ) (name : GoString) where
  abbrev unlinked : Heap
  unlinked = delete_child h parent (h p).file_name

  Renamed-steps :
      (h₃ : Heap) (n : FileNode)
      → Marked (h₃ p) n
      → put_child (store unlinked p (record (unlinked p) { file_name = name })) parent name p
        ≡ ok h₃
      → Renamed h p parent name (store h₃ p n)
  Renamed-steps h₃ n m e = record {
    has_map = λ nil. l.has_map (ground (arith, delete_child-nil h parent old nil));
    renamed = ground (arith, l.same p);
    file_names = λ q ne. ground (arith, l.same q, delete_child-SameBut h parent q old);
    parent_nodes = λ q. ground (arith, l.same q, delete_child-SameBut h parent q old);
    is_files = λ q. ground (arith, l.same q, delete_child-SameBut h parent q old);
    is_dels = λ q ne. ground (arith, l.same q, delete_child-SameBut h parent q old);
    kids = λ q other. ground (arith, l.kids q other, child-delete_child h parent q old other);
  }
    where
      old : GoString
      old = (h p).file_name

      l : Linked (store unlinked p (record (unlinked p) { file_name = name })) parent name p h₃
      l = put_child-Linked _ parent name p e

module _ {S : Type 0} ⦃c : Common⦄ ⦃s : StringSet S⦄ where
  -- The parent is a directory without the name, and its map of children is not nil.
  pub record Added (t : DirTree S) (id path filename : GoString) (size : ℕ) (is_file : Bool)
      (t' : DirTree S) (new : ℕ) : Type 0 where
    pub parent : ℕ
    pub found : get_file_node t path ≡ some parent
    pub directory : (t.heap parent).is_file ≡ false
    pub unused : child t.heap parent filename ≡ none
    pub linked :
        Linked
          (store t.heap t.next (new_file_node id filename parent size is_file))
          parent
          filename
          t.next
          t'.heap
    pub allocated : new ≡ t.next
    pub next_grows : t'.next ≡ suc t.next
    pub same_root : t'.root ≡ t.root
    pub id_recorded : t'.file_node_id_set ≡ s.add t.file_node_id_set id

  pub add_file_node-ok :
      (t : DirTree S) (id path filename : GoString) (size : ℕ) (is_file : Bool) {t' : DirTree S}
      {new : ℕ}
      → add_file_node t id path filename size is_file ≡ ok (t', new)
      → Added t id path filename size is_file t' new
  unfolding add_file_node
  add_file_node-ok t id path filename size is_file e =
      after_or_fail _ (get_file_node t path) _ _ e λ p found e₁.
        after_fail_if _ (t.heap p).is_file _ _ e₁ λ directory e₂.
          after_fail_if_some _ (child t.heap p filename) _ _ e₂ λ unused e₃.
            after_bind _ (put_child _ p filename t.next) _ e₃ λ h linked e₄.
              subst (λ r. Added t id path filename size is_file r.0 r.1) (ok-injective e₄)
                (record {
                  parent = p;
                  found = found;
                  directory = directory;
                  unused = unused;
                  linked = put_child-Linked _ p filename t.next linked;
                  allocated = refl;
                  next_grows = refl;
                  same_root = refl;
                  id_recorded = refl;
                })

module _ {S : Type 0} where
  -- The node is not the root, and ends up below its old parent under the new name.
  pub record RenamedTo (t : DirTree S) (path new_name : GoString) (t' : DirTree S) (p : ℕ)
      : Type 0 where
    pub parent : ℕ
    pub found : get_file_node t path ≡ some p
    pub held : (t.heap p).parent_node ≡ some parent
    pub change : Renamed t.heap p parent new_name t'.heap
    pub live : (t'.heap p).is_del ≡ false
    pub same_next : t'.next ≡ t.next
    pub same_root : t'.root ≡ t.root
    pub same_ids : t'.file_node_id_set ≡ t.file_node_id_set

  pub rename_file_node-ok :
      (t : DirTree S) (path new_name : GoString) {t' : DirTree S} {p : ℕ}
      → rename_file_node t path new_name ≡ ok (t', p)
      → RenamedTo t path new_name t' p
  unfolding rename_file_node
  rename_file_node-ok t path new_name e = after_or_fail _ (get_file_node t path) _ _ e λ p found e₁.
      after_deref _ (t.heap p).parent_node _ e₁ λ parent held e₂.
        after_bind _ (put_child _ parent new_name p) _ e₂ λ h₃ put e₃.
          subst (λ r. RenamedTo t path new_name r.0 r.1) (ok-injective e₃)
            (record {
              parent = parent;
              found = found;
              held = held;
              change = Renamed-steps t.heap _ parent new_name h₃ _ (ground arith) put;
              live = ground arith;
              same_next = refl;
              same_root = refl;
              same_ids = refl;
            })

  -- The target directory has no child of that name, and its map of children is not nil.
  pub record MovedTo (t : DirTree S) (current_path target_path : GoString) (t' : DirTree S) (p : ℕ)
      : Type 0 where
    pub target : ℕ
    pub parent : ℕ
    pub found : get_file_node t current_path ≡ some p
    pub target_found : get_file_node t target_path ≡ some target
    pub unused : child t.heap target (t.heap p).file_name ≡ none
    pub has_map : (t.heap target).child_nodes ≢ none
    pub held : (t.heap p).parent_node ≡ some parent
    pub file_names : (q : ℕ) → (t'.heap q).file_name ≡ (t.heap q).file_name
    pub parent_nodes :
        (q : ℕ) → (t'.heap q).parent_node ≡ (if p == q then some target else (t.heap q).parent_node)
    pub is_files : (q : ℕ) → (t'.heap q).is_file ≡ (t.heap q).is_file
    pub is_dels : (q : ℕ) → (t'.heap q).is_del ≡ (t.heap q).is_del
    pub kids :
        (q : ℕ) (other : GoString)
        → child t'.heap q other ≡ (
            if parent == q && (t.heap p).file_name == other
            then none
            else if target == q && (t.heap p).file_name == other
            then some p
            else child t.heap q other)
    pub same_next : t'.next ≡ t.next
    pub same_root : t'.root ≡ t.root
    pub same_ids : t'.file_node_id_set ≡ t.file_node_id_set

  pub move_file_node-ok :
      (t : DirTree S) (current_path target_path : GoString) {t' : DirTree S} {p : ℕ}
      → move_file_node t current_path target_path ≡ ok (t', p)
      → MovedTo t current_path target_path t' p
  unfolding move_file_node
  move_file_node-ok t current_path target_path e =
      after_or_fail _ (get_file_node t current_path) _ _ e λ p found e₁.
        after_or_fail _ (get_file_node t target_path) _ _ e₁ λ q target_found e₂.
          after_fail_if_some _ (child t.heap q (t.heap p).file_name) _ _ e₂ λ unused e₃.
            after_bind _ (put_child t.heap q (t.heap p).file_name p) _ e₃ λ h₁ put e₄.
              after_deref _ (h₁ p).parent_node _ e₄ λ parent held e₅.
                let l : Linked t.heap q (t.heap p).file_name p h₁ =
                  put_child-Linked t.heap q (t.heap p).file_name p put in
                subst (λ r. MovedTo t current_path target_path r.0 r.1) (ok-injective e₅)
                  (record {
                    target = q;
                    parent = parent;
                    found = found;
                    target_found = target_found;
                    unused = unused;
                    has_map = l.has_map;
                    held = ground (arith, l.same p);
                    file_names = λ r.
                        ground (arith, l.same r, delete_child-SameBut h₁ parent r (h₁ p).file_name);
                    parent_nodes = λ r.
                        ground (arith, l.same r, delete_child-SameBut h₁ parent r (h₁ p).file_name);
                    is_files = λ r.
                        ground (arith, l.same r, delete_child-SameBut h₁ parent r (h₁ p).file_name);
                    is_dels = λ r.
                        ground (arith, l.same r, delete_child-SameBut h₁ parent r (h₁ p).file_name);
                    kids = λ r other. ground (
                      arith,
                      l.same p,
                      l.kids r other,
                      child-delete_child h₁ parent r (h₁ p).file_name other,
                    );
                    same_next = refl;
                    same_root = refl;
                    same_ids = refl;
                  })

deleted_name-SameBut :
    ⦃c : Common⦄ {n n' : FileNode} → SameBut n n' → deleted_name n' ≡ deleted_name n
unfolding deleted_name
deleted_name-SameBut same = ground arith

module _ {S : Type 0} ⦃c : Common⦄ where
  -- A removal is a renaming that also marks the node as deleted.
  pub record Removed (t : DirTree S) (path : GoString) (t' : DirTree S) (p : ℕ) : Type 0 where
    pub parent : ℕ
    pub found : get_file_node t path ≡ some p
    pub held : (t.heap p).parent_node ≡ some parent
    pub change : Renamed t.heap p parent (deleted_name (t.heap p)) t'.heap
    pub marked : (t'.heap p).is_del ≡ true
    pub same_next : t'.next ≡ t.next
    pub same_root : t'.root ≡ t.root
    pub same_ids : t'.file_node_id_set ≡ t.file_node_id_set

  pub remove_file_node_as-ok :
      (t : DirTree S) (path : GoString) (is_dummy : Bool) (now : ℕ) {t' : DirTree S} {p : ℕ}
      → remove_file_node_as t path is_dummy now ≡ ok (t', p)
      → Removed t path t' p
  unfolding remove_file_node_as
  remove_file_node_as-ok t path is_dummy now e =
      after_or_fail _ (get_file_node t path) _ _ e λ p found e₁.
        after_deref _ (t.heap p).parent_node _ e₁ λ parent held e₂.
          after_bind _ (put_child _ parent _ p) _ e₂ λ h₃ put e₃.
            let n : FileNode = record (h₃ p) {
              is_del = true;
              del_time = some (if is_dummy then now else c.year_before now);
            } in
            subst (λ r. Removed t path r.0 r.1) (ok-injective e₃)
              (record {
                parent = parent;
                found = found;
                held = held;
                change =
                    subst (λ x. Renamed t.heap p parent x (store h₃ p n))
                      (deleted_name-SameBut
                        (delete_child-SameBut t.heap parent p (t.heap p).file_name))
                      (Renamed-steps t.heap p parent _ h₃ n (ground arith) put);
                marked = ground arith;
                same_next = refl;
                same_root = refl;
                same_ids = refl;
              })
