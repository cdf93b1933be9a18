-- ===== src/Snapshot/Broken.antt =====
-- RestoreDataNodes of internal/datanode.go on a line of DataNode.String.
use tinydfs_master.Base.{
  ℕ, ◌≡◌, refl, ap, ◌∙◌, true, false, Option, none, some, List, [], ◌∷◌, ◌==◌, ==-ne, nat_eq,
  nat_list_eq, contains, get_elem?, GoString, Result, panic, ◌>>=◌, deref, arith, Bool-cases, inl,
  inr,
}
use tinydfs_master.Base.Strings.{split, itoa}
use tinydfs_master.External.{StringSet}
use tinydfs_master.State.{DataNode}
use tinydfs_master.DataNodes.{DataNodeMap, SendPlan}
use tinydfs_master.Snapshot.Text.{
  SnapshotText, intercalate, bracketed, AllFree, split-free, split-append, intercalate-free,
  bracketed-free, inside-bracketed, contains-middle,
}
use tinydfs_master.Snapshot.Digits.{itoa-free}
use tinydfs_master.Snapshot.DataNodes.{
  read_sends, data_node_line, read_data_node, read_data_nodes, restore_data_nodes,
}

deref-panics :
    {A B : Type 0} (o : Option A) (f : A → Result B)
    → ((a : A) → f a ≡ panic)
    → (deref o >>= f) ≡ panic
deref-panics none f all = refl
deref-panics (some a) f all = all a

-- The first piece of a text without `@` has none.
split-first :
    (c : ℕ) (x : GoString)
    → contains x b'@' ≡ false
    → (piece : GoString) × (pieces : List GoString) × (split c x ≡ piece ∷ pieces)
      × (contains piece b'@' ≡ false)
unfolding split
split-first c [] free = ([], [], refl, refl)
split-first c (b ∷ x) free = elim (Bool-cases (b == c)) [
  | inl separates ↦ ([], split c x, rw (separates, split) refl, refl)
  | inr within ↦
      let (piece, pieces, e, free') = split-first c x (ground (arith, free)) in
      (b ∷ piece, pieces, rw (within, split, e) refl, ground (arith, free, free'))
]

read_sends-panics :
    (piece : GoString) (pieces : List GoString) (plan : SendPlan)
    → contains piece b'@' ≡ false
    → read_sends (piece ∷ pieces) plan ≡ panic
unfolding read_sends
read_sends-panics piece pieces plan free = rw (read_sends, split-free b'@' piece free) refl

module _ {S : Type 0} ⦃s : StringSet S⦄ where
  -- The identifier and the address have no `$`, and the identifiers of the chunks no `$` and no `@`.
  abbrev pub IsPlain : DataNode S → Type 0
  IsPlain node =
      AllFree b'$' (node.id ∷ node.address ∷ s.to_slice node.chunks)
      × AllFree b'@' (s.to_slice node.chunks)

  data_node_line-columns :
      (text : SnapshotText) (node : DataNode S)
      → IsPlain node
      → (rest : List GoString) × (split b'$' (data_node_line text node)
          ≡ node.id ∷ itoa node.status ∷ node.address ∷ bracketed (s.to_slice node.chunks) ∷ rest)
  unfolding data_node_line intercalate
  data_node_line-columns text node ((id_free, (address_free, frees)), _) =
      let chunks_free =
        bracketed-free b'$' (s.to_slice node.chunks) (==-ne {A = ℕ} b'[' b'$' (omega arith))
          (==-ne {A = ℕ} b']' b'$' (omega arith)) (==-ne {A = ℕ} b' ' b'$' (omega arith)) frees in
      (
        _,
        split-append b'$' node.id _ id_free
            ∙ ap (◌∷◌ node.id) (
                split-append b'$' (itoa node.status) _ (itoa-free node.status)
                ∙ ap (◌∷◌ (itoa node.status)) (
                    split-append b'$' node.address _ address_free
                    ∙ ap (◌∷◌ node.address)
                        (split-append b'$' (bracketed (s.to_slice node.chunks)) _ chunks_free))),
      )

  read_data_node-panics :
      (text : SnapshotText) (node : DataNode S) (chunks : S)
      → IsPlain node
      → read_data_node text (data_node_line text node) chunks ≡ panic
  unfolding read_data_node
  read_data_node-panics text node chunks plain =
      let (rest, columns) = data_node_line-columns text node plain in
      let (piece, pieces, e, free) = split-first b' ' (intercalate b' ' (s.to_slice node.chunks)) (
        intercalate-free b'@' (s.to_slice node.chunks) (==-ne {A = ℕ} b' ' b'@' (omega arith))
          plain.1) in
      let sends : read_sends (split b' ' (intercalate b' ' (s.to_slice node.chunks))) [] ≡ panic =
        rw e (read_sends-panics piece pieces [] free) in
      rw (read_data_node, columns, inside-bracketed (s.to_slice node.chunks), sends)
        (deref-panics (get_elem? rest 4) _ λ heartbeat. deref-panics (get_elem? rest 0) _ λ io_load.
          deref-panics (get_elem? rest 1) _ λ full_capacity.
            deref-panics (get_elem? rest 2) _
              λ used_capacity. deref-panics (get_elem? rest 3) _ λ sends_data. refl)

  -- RestoreDataNodes panics at the first line that DataNode.String has written of a DataNode, if the
  -- identifiers and the address have none of the bytes that separate columns and parts, and the
  -- delimiter of the sections has no `$`.
  pub restore_data_nodes-panics :
      (text : SnapshotText) (node : DataNode S) (lines : List GoString) (m : DataNodeMap S)
      → contains text.snapshot_delimiter b'$' ≡ false
      → IsPlain node
      → restore_data_nodes text (data_node_line text node ∷ lines) m ≡ panic
  unfolding restore_data_nodes read_data_nodes data_node_line intercalate
  restore_data_nodes-panics text node lines m free plain =
      let line = data_node_line text node in
      let has : contains line b'$' ≡ true = contains-middle node.id _ b'$' in
      let not_delimiter : (line == text.snapshot_delimiter) ≡ false =
        ==-ne line text.snapshot_delimiter
          (λ same. absurd (ground (arith, has, free, ap (λ x. contains x b'$') same))) in
      rw
        (
          restore_data_nodes,
          read_data_nodes,
          not_delimiter,
          read_data_node-panics text node s.new_set plain,
        )
        refl
